-- ===== src/BuildLibrary/Generations/Claims.antt =====
-- internal/buildlibrary/generations.go: which row `ClaimNext` picks.
use ro_builder.Prelude.{
  ℕ, zero, suc, ◌≤◌, Bool, true, false, not, ◌&&◌, List, [], ◌∷◌, Option, none, some, String, All,
  All-get_elem?, if_cases, ltb, get_elem?, ◌≡◌, refl, arith,
}
use ro_builder.BuildLibrary.Rows.{GenStatus, queued, Row, Rows, is_queued, Distinct}
use ro_builder.BuildLibrary.Generations.{earlier, oldest_queued}

pub is_queued_eq : (s : GenStatus) → is_queued s ≡ true → s ≡ queued
is_queued_eq GenStatus.queued e = refl
is_queued_eq GenStatus.running e = cc
is_queued_eq GenStatus.completed e = cc
is_queued_eq GenStatus.failed e = cc

pub All-map {ℓ κ μ} :
    {A : Type ℓ} (P : A → Type κ) (Q : A → Type μ)
    → ((x : A) → P x → Q x)
    → (xs : List A) → All P xs
    → All Q xs
All-map P Q f [] h = tt
All-map P Q f (x ∷ xs) h = (f x h.0, All-map P Q f xs h.1)

-- A queued row that no other transaction holds.
abbrev pub is_free : (String → Bool) → Row → Bool
is_free locked r = is_queued r.status && not (locked r.id)

module _ (locked : String → Bool) where
  -- The pick, when there is one, is a free row of the table, and no free row is older.
  abbrev pub Picked : Rows → Option Row → Type 0
  Picked rows none = All (λ r. is_free locked r ≡ false) rows
  Picked rows (some c) =
      (is_free locked c ≡ true)
      × ((i : ℕ) × (get_elem? rows i ≡ some c))
      × All (λ r. is_free locked r ≡ true → c.created_at ≤ r.created_at) rows

  Picked-earlier :
      (r : Row) (rest : Rows) (found : Option Row)
      → is_free locked r ≡ true
      → Picked rest found
      → Picked (r ∷ rest) (some (earlier r found))
  Picked-earlier r rest none e h =
      (e, (zero, refl), ((λ _. omega arith), All-map _ _ (λ x no yes. cc) rest h))
  Picked-earlier r rest (some s) e h =
      if_cases (λ c. Picked (r ∷ rest) (some c)) (ltb s.created_at r.created_at)
        (λ lt. (h.0, (suc h.1.0, h.1.1), ((λ _. ground arith), h.2)))
        (λ ge. (
          e,
          (zero, refl),
          ((λ _. omega arith), All-map _ _ (λ x old free. ground (arith, old free)) rest h.2),
        ))

  Picked-skip :
      (r : Row) (rest : Rows) (found : Option Row)
      → is_free locked r ≡ false
      → Picked rest found
      → Picked (r ∷ rest) found
  Picked-skip r rest none e h = (e, h)
  Picked-skip r rest (some s) e h = (h.0, (suc h.1.0, h.1.1), ((λ yes. cc), h.2))

  -- The inner SELECT of `ClaimNext` gives none only when no row is free, and otherwise a free row
  -- of the table, no free row being older.
  pub oldest_queued-Picked : (rows : Rows) → Picked rows (oldest_queued locked rows)
  unfolding oldest_queued
  oldest_queued-Picked [] = tt
  oldest_queued-Picked (r ∷ rest) =
      if_cases (λ found. Picked (r ∷ rest) found) (is_free locked r)
        (λ e. Picked-earlier r rest (oldest_queued locked rest) e (oldest_queued-Picked rest))
        (λ e. Picked-skip r rest (oldest_queued locked rest) e (oldest_queued-Picked rest))

-- Under the primary key a row with the id of a row is that row.
pub Distinct-same :
    (rows : Rows) (i j : ℕ) {r s : Row}
    → Distinct rows
    → get_elem? rows i ≡ some r
    → get_elem? rows j ≡ some s
    → r.id ≡ s.id
    → r ≡ s
unfolding Distinct
Distinct-same [] i j d e f same = cc
Distinct-same (x ∷ rest) zero zero d e f same = cc
Distinct-same (x ∷ rest) zero (suc j) d e f same = ground (arith, All-get_elem? _ rest j d.0 f)
Distinct-same (x ∷ rest) (suc i) zero d e f same = ground (arith, All-get_elem? _ rest i d.0 e)
Distinct-same (x ∷ rest) (suc i) (suc j) d e f same = Distinct-same rest i j d.1 e f same
