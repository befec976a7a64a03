-- ===== src/Prelude/Results.antt =====
-- A Go function that returns `(A, error)`: a value or an error, never both.
use mathlib.Core.Path.{◌≡◌, refl, ap, sym, subst}
use mathlib.Core.Logic.{◌⊎◌, ◌↔◌, inl, inr}
use mathlib.Core.Bool.{Bool, true, false}

pub data Result {ℓ κ} (E : Type ℓ) (A : Type κ) : Type (ℓ ⊔ κ) where
  ok : A → Result E A
  err : E → Result E A

-- The outcome of a computed result, with its equation.
pub Result-cases {ℓ κ} :
    {E : Type ℓ} {A : Type κ} (r : Result E A) → ((a : A) × (r ≡ ok a)) ⊎ ((e : E) × (r ≡ err e))
Result-cases (ok value) = inl (value, refl)
Result-cases (err problem) = inr (problem, refl)

abbrev value_or {ℓ κ} : {E : Type ℓ} {A : Type κ} → A → Result E A → A
value_or default (ok a) = a
value_or default (err problem) = default

pub ok_inj {ℓ κ} : {E : Type ℓ} {A : Type κ} (a b : A) → Path (Result E A) (ok a) (ok b) → a ≡ b
ok_inj a b e = ap (value_or a) e

pub err-ne-ok {ℓ κ} :
    {E : Type ℓ} {A : Type κ} (e : E) (a : A) → Path (Result E A) (err e) (ok a) → ⊥
err-ne-ok e a h = cc

module _ {ℓ} {E : Type ℓ} where
  -- `if bad { return err }`.
  abbrev pub reject_if : Bool → E → Result E (Unit {0})
  reject_if true problem = err problem
  reject_if false problem = ok tt

  -- `v, err := m; if err != nil { return err }`, and then the rest of the function.
  infixl 5 ◌>>=◌ ◌>>◌
  abbrev pub ◌>>=◌ {κ μ} : {V : Type κ} {W : Type μ} → Result E V → (V → Result E W) → Result E W
  ◌>>=◌ (ok value) rest = rest value
  ◌>>=◌ (err problem) rest = err problem

  abbrev pub ◌>>◌ {μ} : {W : Type μ} → Result E (Unit {0}) → Result E W → Result E W
  ◌>>◌ (ok _) rest = rest
  ◌>>◌ (err problem) rest = err problem

  pub >>=-ok_inv {κ μ} :
      {V : Type κ} {W : Type μ} (m : Result E V) (rest : V → Result E W) {w : W}
      → (m >>= rest) ≡ ok w
      → (v : V) × (m ≡ ok v) × (rest v ≡ ok w)
  >>=-ok_inv (ok value) rest done = (value, refl, done)
  >>=-ok_inv (err problem) rest done = cc

  -- A call that returns no error.
  abbrev pub is_ok {κ} : {V : Type κ} → Result E V → Bool
  is_ok (ok value) = true
  is_ok (err problem) = false

  pub is_ok-bind {κ μ} :
      {V : Type κ} {W : Type μ} (m : Result E V) (rest : V → Result E W) (P Q : Type 0)
      → (is_ok m ≡ true) ↔ P
      → ((v : V) → (is_ok (rest v) ≡ true) ↔ Q)
      → (is_ok (m >>= rest) ≡ true) ↔ (P × Q)
  is_ok-bind (ok value) rest P Q h k = (λ e. (h.0 refl, (k value).0 e), λ pq. (k value).1 pq.1)
  is_ok-bind (err problem) rest P Q h k = (λ e. cc, λ pq. h.1 pq.0)

  pub is_ok-reject {μ} :
      {W : Type μ} (bad : Bool) (problem : E) (rest : Result E W) (Q : Type 0)
      → (is_ok rest ≡ true) ↔ Q
      → (is_ok (reject_if bad problem >> rest) ≡ true) ↔ ((bad ≡ false) × Q)
  is_ok-reject true problem rest Q k = (λ e. cc, λ q. cc)
  is_ok-reject false problem rest Q k = (λ e. (refl, k.0 e), λ q. k.1 q.1)

  pub reject_if-ok_inv {μ} :
      {W : Type μ} (bad : Bool) (problem : E) (rest : Result E W) {w : W}
      → (reject_if bad problem >> rest) ≡ ok w
      → (bad ≡ false) × (rest ≡ ok w)
  reject_if-ok_inv true problem rest done = cc
  reject_if-ok_inv false problem rest done = (refl, done)

  pub is_ok_of {κ} : {V : Type κ} (r : Result E V) {v : V} → r ≡ ok v → is_ok r ≡ true
  is_ok_of (ok value) done = refl
  is_ok_of (err problem) done = cc

  pub >>-ok_inv {μ} :
      {W : Type μ} (m : Result E (Unit {0})) (rest : Result E W) {w : W}
      → (m >> rest) ≡ ok w
      → (m ≡ ok tt) × (rest ≡ ok w)
  >>-ok_inv (ok tt) rest done = (refl, done)
  >>-ok_inv (err problem) rest done = cc

-- `fmt.Errorf("…: %w", err)`: an error in its context.
abbrev pub tagged {ℓ κ μ} :
    {E : Type ℓ} {F : Type κ} {A : Type μ} → (E → F) → Result E A → Result F A
tagged tag (ok a) = ok a
tagged tag (err e) = err (tag e)

pub tagged-ok_inv {ℓ κ μ} :
    {E : Type ℓ} {F : Type κ} {A : Type μ} (tag : E → F) (r : Result E A) {a : A}
    → tagged tag r ≡ ok a
    → r ≡ ok a
tagged-ok_inv tag (ok b) h = ap ok (ok_inj b _ h)
tagged-ok_inv tag (err e) h = cc

pub iff_trans {ℓ κ μ} : {A : Type ℓ} {B : Type κ} {C : Type μ} → A ↔ B → B ↔ C → A ↔ C
iff_trans h k = (λ a. k.0 (h.0 a), λ c. h.1 (k.1 c))

pub is_ok-then {ℓ κ μ} :
    {E : Type ℓ} {W : Type κ} {Q : Type μ} (m : Result E (Unit {0})) (rest : Result E W)
    → (is_ok rest ≡ true) ↔ Q
    → (is_ok (m >> rest) ≡ true) ↔ ((m ≡ ok tt) × Q)
is_ok-then (ok u) rest h = (λ e. (refl, h.0 e), λ q. h.1 q.1)
is_ok-then (err problem) rest h = (λ e. cc, λ q. absurd (err-ne-ok problem tt q.0))

pub is_ok-last {ℓ κ μ} :
    {E : Type ℓ} {V : Type κ} {W : Type μ} (m : Result E V) (f : V → W)
    → (is_ok (m >>= (λ v. ok (f v))) ≡ true) ↔ (is_ok m ≡ true)
is_ok-last (ok v) f = (λ e. e, λ e. e)
is_ok-last (err problem) f = (λ e. e, λ e. e)

pub tagged_iff {ℓ κ} :
    {E : Type ℓ} {F : Type κ} (tag : E → F) (m : Result E (Unit {0}))
    → (tagged tag m ≡ ok tt) ↔ (m ≡ ok tt)
tagged_iff tag (ok u) = (λ e. refl, λ e. refl)
tagged_iff tag (err problem) =
    (λ e. absurd (err-ne-ok (tag problem) tt e), λ e. absurd (err-ne-ok problem tt e))

pub tagged-is_ok {ℓ κ μ} :
    {E : Type ℓ} {F : Type κ} {A : Type μ} (tag : E → F) (m : Result E A)
    → (is_ok (tagged tag m) ≡ true) ↔ (is_ok m ≡ true)
tagged-is_ok tag (ok a) = (λ e. e, λ e. e)
tagged-is_ok tag (err problem) = (λ e. e, λ e. e)

-- A step after a call that may fail, in its context.
pub tagged-then {ℓ κ μ ν ξ} :
    {E : Type ℓ} {F : Type κ} {A : Type μ} {W : Type ν} {Q : A → Type ξ} (tag : E → F)
    → (m : Result E A) (rest : A → Result F W) → ((a : A) → (is_ok (rest a) ≡ true) ↔ Q a)
    → (is_ok (tagged tag m >>= rest) ≡ true) ↔ ((a : A) × (m ≡ ok a) × Q a)
tagged-then {Q = Q} tag (ok a) rest h =
    (λ e. (a, refl, (h a).0 e), λ q. (h a).1 (subst Q (sym (ok_inj a q.0 q.1)) q.2))
tagged-then tag (err problem) rest h = (λ e. cc, λ q. absurd (err-ne-ok problem q.0 q.1))
