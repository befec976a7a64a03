-- ===== src/Hercules/Roots/Ends.antt =====
-- The loop over the named entries ends.
use mathlib.Core.Logic.{if_pos, if_neg}
use ro_builder.Prelude.{
  ℕ, zero, suc, ◌+◌, ◌*◌, ◌≤◌, length, Result, ok, err, ◌>>=◌, tagged, ◌≢◌, arith,
}
use ro_builder.Hercules.Cursor.{Bytes}
use ro_builder.Hercules.Tokenizer.{
  TokenType-discrete, Tokenizer, eof, ident, colon, new_tokenizer, peek, next,
}
use ro_builder.Hercules.Parser.{
  Value, Fields, object, ParseError, out_of_fuel, lift, expect, parse_value,
}
use ro_builder.Hercules.Parser.Sizes.{
  size, Ensures, Smaller, peek-Holds, Holds, expect-Smaller, Same, next-Same,
}
use ro_builder.Hercules.Parser.Fuel.{parse_value-Smaller}
use ro_builder.Hercules.Roots.{RootError, syntax, refused, enter_root, read_roots_from, read_roots}

-- No fuel error.
abbrev Finishes : {S E : Type 0} → Result (RootError E) S → Type 0
Finishes (ok s) = Unit
Finishes (err (syntax e)) = e ≢ out_of_fuel
Finishes (err e) = Unit

syntax-Finishes :
    {A S E : Type 0} (P : A → Type 0) (m : Result ParseError A) (f : A → Result (RootError E) S)
    → Ensures P m
    → ((a : A) → P a → Finishes (f a))
    → Finishes (tagged syntax m >>= f)
syntax-Finishes P (ok a) f h k = k a h
syntax-Finishes P (err e) f h k = h

module _ {S E : Type 0} (enter : Bytes → Fields → S → Result E S) where
  entered-Finishes :
      (name : Bytes) (v : Value) (s : S) (f : S → Result (RootError E) S)
      → ((after : S) → Finishes (f after))
      → Finishes (enter_root enter name v s >>= f)
  unfolding enter_root
  entered-Finishes name (object m) s f k = tagged-Finishes (enter name m s)
    where
      tagged-Finishes : (r : Result E S) → Finishes (tagged (refused name) r >>= f)
      tagged-Finishes (ok after) = k after
      tagged-Finishes (err e) = tt
  entered-Finishes name _ s f k = tt

  read_roots_from-Finishes :
      (n : ℕ) (s : S) (t : Tokenizer) → 2 * size t + 2 ≤ n → Finishes (read_roots_from enter n s t)
  unfolding read_roots_from
  read_roots_from-Finishes zero s t h = absurd (omega arith)
  read_roots_from-Finishes (suc n) s t h =
      syntax-Finishes (Holds t) (lift (peek t)) _ (peek-Holds t) (λ r held.
        elim (TokenType-discrete r.0.typ eof) [
          | yes e ↦ rw (if_pos _ e) tt
          | no other ↦ rw (if_neg _ other) (elim (TokenType-discrete r.0.typ ident) [
            | yes e ↦ rw (if_pos _ e) (
                syntax-Finishes (Same r.0 r.1) (lift (next r.1)) _ (next-Same r.1 r.0 held.0 other)
                  (λ name same.
                    syntax-Finishes (Smaller name.1) (expect colon name.1) _
                      (expect-Smaller colon name.1 (λ bad. cc))
                      (λ c less.
                        syntax-Finishes (Smaller c.1) (parse_value n c.1) _
                          (parse_value-Smaller n c.1 (omega arith))
                          (λ v below.
                            entered-Finishes name.0.val v.0 s _
                              (λ after. read_roots_from-Finishes n after v.1 (omega arith))))))
            | no bad ↦ rw (if_neg _ bad) tt
          ])
        ])

  pub read_roots-Finishes :
      (s : S) (src : Bytes) → read_roots enter s src ≢ err (syntax out_of_fuel)
  unfolding read_roots new_tokenizer
  read_roots-Finishes s src bad =
      finishes_lem _
        (read_roots_from-Finishes (2 * length src + 2) s (new_tokenizer src) (omega arith)) bad
    where
      finishes_lem : (m : Result (RootError E) S) → Finishes m → m ≢ err (syntax out_of_fuel)
      finishes_lem (ok a) h b = cc
      finishes_lem (err (syntax e)) h b = h (cc)
      finishes_lem (err _) h b = cc
