-- ===== src/Hercules/Parser/Sizes.antt =====
-- How far the token functions get: `size` counts what is left, and never grows.
use mathlib.Core.Logic.{if_pos, if_neg}
use ro_builder.Prelude.{
  ℕ, ◌+◌, ◌≤◌, ◌<◌, Option, none, some, length, Result, ok, err, ◌>>=◌, ◌≡◌, ◌≢◌, refl, sym, ◌∙◌,
  arith, Result-cases, inl, inr,
}
use ro_builder.Hercules.Cursor.{Cursor}
use ro_builder.Hercules.Tokenizer.{
  TokenType, TokenType-discrete, Token, Tokenizer, eof, read, peek_with, peek, next_with, next,
}
use ro_builder.Hercules.Tokenizer.Reads.{read-Reads, Reads}
use ro_builder.Hercules.Tokenizer.Consumes.{Consumes-length}
use ro_builder.Hercules.Parser.{Value, ParseError, out_of_fuel, Parse, lift, expect, int_value}

abbrev pub weight : TokenType → ℕ
weight eof = 0
weight _ = 1

abbrev pub held : Option Token → ℕ
held none = 0
held (some tk) = weight tk.typ

-- The bytes left, and one for a token that `peek` holds, if it is not the end.
abbrev pub size : Tokenizer → ℕ
size t = length t.cursor.rest + held t.peeked

-- No fuel error, and the property of what is returned.
abbrev pub Ensures {ℓ} : {A : Type ℓ} → (A → Type 0) → Result ParseError A → Type 0
Ensures P (ok a) = P a
Ensures P (err e) = e ≢ out_of_fuel

pub Ensures-bind {ℓ κ} :
    {A : Type ℓ} {B : Type κ} (P : A → Type 0) (Q : B → Type 0) (m : Result ParseError A)
    (f : A → Result ParseError B)
    → Ensures P m
    → ((a : A) → P a → Ensures Q (f a))
    → Ensures Q (m >>= f)
Ensures-bind P Q (ok a) f h k = k a h
Ensures-bind P Q (err e) f h k = h

pub weight-le : (typ : TokenType) → weight typ ≤ 1
weight-le eof = omega arith
weight-le _ = omega arith

pub weight_pos : (typ : TokenType) → typ ≢ eof → weight typ ≡ 1
weight_pos eof ne = absurd (ne refl)
weight_pos _ ne = refl

pub weight_eof : (typ : TokenType) → typ ≡ eof → weight typ ≡ 0
weight_eof typ e = rw e

-- What `peek` and `next` do to the size.
abbrev pub Holds : Tokenizer → Token × Tokenizer → Type 0
Holds t r = (r.1.peeked ≡ some r.0) × (size r.1 ≤ size t)

abbrev pub Takes : Tokenizer → Token × Tokenizer → Type 0
Takes t r = (size r.1 ≤ size t) × (r.0.typ ≢ eof → size r.1 < size t)

pub Read-weight :
    (t : Cursor) (tk : Token) (t' : Cursor)
    → Reads t tk t'
    → length t'.rest + weight tk.typ ≤ length t.rest
Read-weight t tk t' h = elim (TokenType-discrete tk.typ eof) [
  | yes e ↦ omega (arith, weight_eof tk.typ e, Consumes-length h.consumes)
  | no ne ↦ omega (arith, weight_pos tk.typ ne, h.progress ne)
]

pub peek_with-Holds :
    (t : Tokenizer) (o : Option Token) → t.peeked ≡ o → Ensures (Holds t) (lift (peek_with t o))
unfolding peek_with
peek_with-Holds t (some tk) e = (e, omega arith)
peek_with-Holds t none e = elim (Result-cases (read t.cursor)) [
  | inl ((tk, t'), r) ↦
      rw r (refl, rw e (omega (arith, Read-weight t.cursor tk t' (read-Reads t.cursor r))))
  | inr (x, r) ↦ rw r (λ bad. cc)
]

pub peek-Holds : (t : Tokenizer) → Ensures (Holds t) (lift (peek t))
unfolding peek
peek-Holds t = peek_with-Holds t t.peeked refl

pub next_with-Takes :
    (t : Tokenizer) (o : Option Token) → t.peeked ≡ o → Ensures (Takes t) (lift (next_with t o))
unfolding next_with
next_with-Takes t (some tk) e = rw e (omega arith, λ ne. omega (arith, weight_pos tk.typ ne))
next_with-Takes t none e = elim (Result-cases (read t.cursor)) [
  | inl ((tk, t'), r) ↦
      let w = Read-weight t.cursor tk t' (read-Reads t.cursor r) in
      rw (r, e) (omega (arith, w), λ ne. omega (arith, w, weight_pos tk.typ ne))
  | inr (x, r) ↦ rw r (λ bad. cc)
]

pub next-Takes : (t : Tokenizer) → Ensures (Takes t) (lift (next t))
unfolding next
next-Takes t = next_with-Takes t t.peeked refl

-- Something was taken.
abbrev pub Smaller {ℓ} : {A : Type ℓ} → Tokenizer → A × Tokenizer → Type 0
Smaller t r = size r.1 < size t

abbrev pub Same : Token → Tokenizer → Token × Tokenizer → Type 0
Same tk t r = (r.0 ≡ tk) × (size r.1 < size t)

-- The token that `peek` holds is the one that `next` gives.
pub next-Same :
    (t : Tokenizer) (tk : Token)
    → t.peeked ≡ some tk
    → tk.typ ≢ eof
    → Ensures (Same tk t) (lift (next t))
unfolding next next_with
next-Same t tk e ne = rw e (refl, omega (arith, weight_pos tk.typ ne))

pub expect-Smaller :
    (typ : TokenType) (t : Tokenizer) → typ ≢ eof → Ensures (Smaller t) (expect typ t)
unfolding expect
expect-Smaller typ t ne =
    Ensures-bind (Takes t) (Smaller t) (lift (next t)) _ (next-Takes t) (λ r h.
      elim (TokenType-discrete r.0.typ typ) [
        | yes e ↦ rw (if_pos _ e) (h.1 (λ bad. ne (sym e ∙ bad)))
        | no other ↦ rw (if_neg _ other) (λ bad. cc)
      ])

-- On tokenizers of a size below `b` the parser ends and takes something.
abbrev pub Below : ℕ → (Tokenizer → Parse Value) → Type 0
Below b f = (u : Tokenizer) → size u < b → Ensures (Smaller u) (f u)

pub Smaller-trans :
    (t u : Tokenizer) (m : Parse Value)
    → size u < size t
    → Ensures (Smaller u) m
    → Ensures (Smaller t) m
Smaller-trans t u (ok r) h k = omega arith
Smaller-trans t u (err e) h k = k

pub Smaller-le :
    (t u : Tokenizer) (m : Parse Value)
    → size u ≤ size t
    → Ensures (Smaller u) m
    → Ensures (Smaller t) m
Smaller-le t u (ok r) h k = omega arith
Smaller-le t u (err e) h k = k

-- What follows on a shorter rest.
pub then-Smaller {ℓ} :
    {A : Type ℓ} (t : Tokenizer) (m : Result ParseError (A × Tokenizer))
    (f : A → Tokenizer → Parse Value)
    → Ensures (Smaller t) m
    → ((a : A) → Below (size t) (f a))
    → Ensures (Smaller t) (m >>= λ r. f r.0 r.1)
then-Smaller t (ok r) f h k = Smaller-trans t r.1 (f r.0 r.1) h (k r.0 r.1 h)
then-Smaller t (err e) f h k = h

pub int_value-Smaller :
    (tk : Token) (o : Option _) (t u : Tokenizer)
    → size u < size t
    → Ensures (Smaller t) (int_value tk o u)
unfolding int_value
int_value-Smaller tk none t u h = λ bad. cc
int_value-Smaller tk (some n) t u h = h
