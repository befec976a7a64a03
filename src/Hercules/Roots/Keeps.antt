-- ===== src/Hercules/Roots/Keeps.antt =====
-- What the loop over the named entries keeps.
use mathlib.Core.Logic.{if_pos, if_neg}
use mathlib.Core.Path.{subst}
use ro_builder.Prelude.{ℕ, zero, suc, ◌+◌, ◌*◌, length, Result, ok, err, ◌>>=◌, ok_inj, tagged, ◌≡◌}
use ro_builder.Hercules.Cursor.{Bytes}
use ro_builder.Hercules.Tokenizer.{
  TokenType-discrete, Tokenizer, eof, ident, colon, peek, next, new_tokenizer,
}
use ro_builder.Hercules.Parser.{Value, Fields, object, lift, expect, parse_value}
use ro_builder.Hercules.Roots.{RootError, syntax, refused, enter_root, read_roots_from, read_roots}

-- The property of what is returned, if anything is.
abbrev pub Returns : {S E : Type 0} → (S → Type 0) → Result E S → Type 0
Returns Holds (ok s) = Holds s
Returns Holds (err e) = Unit

Returns-bind :
    {A S E : Type 0} (P : A → Type 0) (Q : S → Type 0) (m : Result E A) (f : A → Result E S)
    → Returns P m
    → ((a : A) → P a → Returns Q (f a))
    → Returns Q (m >>= f)
Returns-bind P Q (ok a) f h k = k a h
Returns-bind P Q (err e) f h k = tt

anything-Returned : {A E : Type 0} (m : Result E A) → Returns (λ _. Unit {0}) m
anything-Returned (ok a) = tt
anything-Returned (err e) = tt

tagged-Returns :
    {S E F : Type 0} (Holds : S → Type 0) (tag : E → F) (m : Result E S)
    → Returns Holds m
    → Returns Holds (tagged tag m)
tagged-Returns Holds tag (ok s) h = h
tagged-Returns Holds tag (err e) h = tt

pub Returned :
    {S E : Type 0} (Holds : S → Type 0) (m : Result E S) {s : S}
    → Returns Holds m
    → m ≡ ok s
    → Holds s
Returned Holds (ok s) h done = subst Holds (ok_inj s _ done) h
Returned Holds (err e) h done = cc

-- A property that each entry keeps holds of what the loop returns.
module _ {S E : Type 0} (enter : Bytes → Fields → S → Result E S) (Kept : S → Type 0)
    (keeps : (name : Bytes) (m : Fields) (s : S) → Kept s → Returns Kept (enter name m s)) where
  enter_root-Returns :
      (name : Bytes) (v : Value) (s : S) → Kept s → Returns Kept (enter_root enter name v s)
  unfolding enter_root
  enter_root-Returns name (object m) s kept =
      tagged-Returns Kept (refused name) (enter name m s) (keeps name m s kept)
  enter_root-Returns name _ s kept = tt

  read_roots_from-Returns :
      (n : ℕ) (s : S) (t : Tokenizer) → Kept s → Returns Kept (read_roots_from enter n s t)
  unfolding read_roots_from
  read_roots_from-Returns zero s t kept = tt
  read_roots_from-Returns (suc n) s t kept = behind (tagged syntax (lift (peek t))) _ (λ r.
      elim (TokenType-discrete r.0.typ eof) [
        | yes e ↦ rw (if_pos _ e) kept
        | no other ↦ rw (if_neg _ other) (elim (TokenType-discrete r.0.typ ident) [
          | yes e ↦ rw (if_pos _ e) (
              behind (tagged syntax (lift (next r.1))) _ (λ name.
                behind (tagged syntax (expect colon name.1)) _ (λ c.
                  behind (tagged syntax (parse_value n c.1)) _ (λ v.
                    Returns-bind Kept Kept (enter_root enter name.0.val v.0 s) _
                      (enter_root-Returns name.0.val v.0 s kept)
                      (λ entered. read_roots_from-Returns n entered v.1)))))
          | no bad ↦ rw (if_neg _ bad) tt
        ])
      ])
    where
      behind :
          {A : Type 0} (m : Result (RootError E) A) (f : A → Result (RootError E) S)
          → ((a : A) → Returns Kept (f a))
          → Returns Kept (m >>= f)
      behind m f k = Returns-bind (λ _. Unit) Kept m f (anything-Returned m) (λ a _. k a)

  pub read_roots-Returns : (s : S) (src : Bytes) → Kept s → Returns Kept (read_roots enter s src)
  unfolding read_roots
  read_roots-Returns s src kept =
      read_roots_from-Returns (2 * length src + 2) s (new_tokenizer src) kept
