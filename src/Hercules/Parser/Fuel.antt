-- ===== src/Hercules/Parser/Fuel.antt =====
-- internal/data/sources/hercules/parser.go: how much fuel each part of the parser takes.
use mathlib.Core.Logic.{if_pos, if_neg}
use ro_builder.Prelude.{
  ℕ, zero, suc, ◌+◌, ◌*◌, ◌≤◌, ◌<◌, some, length, Result, ok, err, ◌>>=◌, ◌≡◌, ◌≢◌, refl, sym, ◌∙◌,
  arith,
}
use ro_builder.Hercules.Cursor.{Bytes}
use ro_builder.Hercules.Tokenizer.{
  TokenType, TokenType-discrete, Token, Tokenizer, eof, ident, string, int, bool, heredoc, lbrace,
  rbrace, lparen, rparen, lbracket, rbracket, colon, comma, peek, next, new_tokenizer, bytes_eq,
  true_word,
}
use ro_builder.Hercules.Parser.{
  Value, text, boolean, object, list, Items, nil, snoc, Fields, end, assign, ParseError,
  out_of_fuel, Parse, lift, expect, atoi, int_value, value_case, object_case, items_case,
  parse_value, parse_object, parse_items, finish_file, parse_file_on, parse_file,
}
use ro_builder.Hercules.Parser.Sizes.{
  size, Ensures, Ensures-bind, Holds, Takes, peek-Holds, next-Takes, Smaller, Same, next-Same,
  expect-Smaller, Below, Smaller-trans, Smaller-le, then-Smaller, int_value-Smaller,
}

module _ (tk : Token) (t : Tokenizer) (kept : t.peeked ≡ some tk) where
  -- What takes the held token and goes on shorter.
  taken-Smaller :
      (f : Token → Tokenizer → Parse Value)
      → tk.typ ≢ eof
      → ((u : Tokenizer) → size u < size t → Ensures (Smaller t) (f tk u))
      → Ensures (Smaller t) (lift (next t) >>= λ s. f s.0 s.1)
  taken-Smaller f ne k =
      Ensures-bind (Same tk t) (Smaller t) (lift (next t)) (λ s. f s.0 s.1) (next-Same t tk kept ne)
        (λ s h. rw h.0 (k s.1 h.1))

  value_case-Smaller :
      (typ : TokenType) (fields : Tokenizer → Parse Value)
      (elements : TokenType → Tokenizer → Parse Value)
      → tk.typ ≡ typ
      → Below (size t) fields
      → ((close : TokenType) → close ≢ eof → Below (size t) (elements close))
      → Ensures (Smaller t) (value_case typ tk t fields elements)
  unfolding value_case
  value_case-Smaller int fields elements e hf he =
      taken-Smaller (λ _ u. int_value tk (atoi tk.val) u) (λ bad. cc)
        (λ u h. int_value-Smaller tk (atoi tk.val) t u h)
  value_case-Smaller string fields elements e hf he =
      taken-Smaller (λ _ u. ok (text tk.val, u)) (λ bad. cc) (λ u h. h)
  value_case-Smaller heredoc fields elements e hf he =
      taken-Smaller (λ _ u. ok (text tk.val, u)) (λ bad. cc) (λ u h. h)
  value_case-Smaller ident fields elements e hf he =
      taken-Smaller (λ _ u. ok (text tk.val, u)) (λ bad. cc) (λ u h. h)
  value_case-Smaller bool fields elements e hf he =
      taken-Smaller (λ _ u. ok (boolean (bytes_eq tk.val true_word), u)) (λ bad. cc) (λ u h. h)
  value_case-Smaller lbrace fields elements e hf he =
      then-Smaller t (expect lbrace t) (λ _. fields) (expect-Smaller lbrace t (λ bad. cc)) (λ _. hf)
  value_case-Smaller lparen fields elements e hf he =
      then-Smaller t (expect lparen t) (λ _. elements rparen) (expect-Smaller lparen t (λ bad. cc))
        (λ _. he rparen (λ bad. cc))
  value_case-Smaller lbracket fields elements e hf he =
      then-Smaller t (expect lbracket t) (λ _. elements rbracket)
        (expect-Smaller lbracket t (λ bad. cc)) (λ _. he rbracket (λ bad. cc))
  value_case-Smaller _ fields elements e hf he = λ bad. cc

  -- A field behind its key: the colon, the value, and the rest of the object.
  field-Smaller :
      (key : Bytes) (obj : Fields) (again : Fields → Tokenizer → Parse Value)
      (value : Tokenizer → Parse Value) (u : Tokenizer)
      → size u < size t
      → ((o : Fields) → Below (size t) (again o))
      → Below (size t) value
      → Ensures (Smaller t) (do c ← expect colon u; v ← value c.1; again (assign key v.0 obj) v.1)
  field-Smaller key obj again value u h ha hv = Smaller-trans t u _ h (
      then-Smaller u (expect colon u) (λ _ w. do v ← value w; again (assign key v.0 obj) v.1)
        (expect-Smaller colon u (λ bad. cc))
        (λ _ w hw.
          then-Smaller w (value w) (λ v. again (assign key v obj)) (hv w (omega arith))
            (λ v x hx. ha (assign key v obj) x (omega arith))))

  object_case-Smaller :
      (typ : TokenType) (obj : Fields) (again : Fields → Tokenizer → Parse Value)
      (value : Tokenizer → Parse Value)
      → tk.typ ≡ typ
      → ((o : Fields) → Below (size t) (again o))
      → Below (size t) value
      → Ensures (Smaller t) (object_case typ obj tk t again value)
  unfolding object_case
  object_case-Smaller rbrace obj again value e ha hv =
      taken-Smaller (λ _ u. ok (object obj, u)) (λ bad. cc) (λ u h. h)
  object_case-Smaller comma obj again value e ha hv =
      taken-Smaller (λ _ u. again obj u) (λ bad. cc)
        (λ u h. Smaller-trans t u (again obj u) h (ha obj u h))
  object_case-Smaller ident obj again value e ha hv =
      taken-Smaller (λ k u. do c ← expect colon u; v ← value c.1; again (assign k.val v.0 obj) v.1)
        (λ bad. cc) (λ u h. field-Smaller tk.val obj again value u h ha hv)
  object_case-Smaller _ obj again value e ha hv = λ bad. cc

  items_case-Smaller :
      (close : TokenType) (items : Items) (again : Items → Tokenizer → Parse Value)
      (value : Tokenizer → Parse Value)
      → close ≢ eof
      → ((i : Items) → Below (size t) (again i))
      → Ensures (Smaller t) (value t)
      → Ensures (Smaller t) (items_case close items tk t again value)
  unfolding items_case
  items_case-Smaller close items again value closes ha hv = elim (TokenType-discrete tk.typ close) [
    | yes e ↦
        rw (if_pos _ e)
          (taken-Smaller (λ _ u. ok (list items, u)) (λ bad. closes (sym e ∙ bad)) (λ u h. h))
    | no other ↦ rw (if_neg _ other) (elim (TokenType-discrete tk.typ comma) [
      | yes e ↦ rw (if_pos _ e) (
          taken-Smaller (λ _ u. again items u) (λ bad. cc)
            (λ u h. Smaller-trans t u (again items u) h (ha items u h)))
      | no element ↦
          rw (if_neg _ element)
            (then-Smaller t (value t) (λ v. again (snoc items v)) hv (λ v. ha (snoc items v)))
    ])
  ]

-- A round behind `peek`.
peek-then :
    (t : Tokenizer) (f : Token → Tokenizer → Parse Value)
    → ((tk : Token) (u : Tokenizer)
        → u.peeked ≡ some tk
        → size u ≤ size t
        → Ensures (Smaller u) (f tk u))
    → Ensures (Smaller t) (lift (peek t) >>= λ r. f r.0 r.1)
peek-then t f k =
    Ensures-bind (Holds t) (Smaller t) (lift (peek t)) (λ r. f r.0 r.1) (peek-Holds t)
      (λ r h. Smaller-le t r.1 (f r.0 r.1) h.1 (k r.0 r.1 h.0 h.1))

mutual
  unfolding parse_value

  pub parse_value-Smaller :
      (n : ℕ) (t : Tokenizer) → 2 * size t + 1 ≤ n → Ensures (Smaller t) (parse_value n t)
  parse_value-Smaller zero t h = absurd (omega arith)
  parse_value-Smaller (suc n) t h =
      peek-then t
        (λ tk u. value_case tk.typ tk u (parse_object n end) (λ close. parse_items n close nil))
        (λ tk u kept le.
          value_case-Smaller tk u kept tk.typ (parse_object n end)
            (λ close. parse_items n close nil) refl
            (λ w hw. parse_object-Smaller n end w (omega arith))
            (λ close ne w hw. parse_items-Smaller n close nil w ne (omega arith)))

  parse_object-Smaller :
      (n : ℕ) (obj : Fields) (t : Tokenizer)
      → 2 * size t + 2 ≤ n
      → Ensures (Smaller t) (parse_object n obj t)
  parse_object-Smaller zero obj t h = absurd (omega arith)
  parse_object-Smaller (suc n) obj t h =
      peek-then t (λ tk u. object_case tk.typ obj tk u (parse_object n) (parse_value n))
        (λ tk u kept le.
          object_case-Smaller tk u kept tk.typ obj (parse_object n) (parse_value n) refl
            (λ o w hw. parse_object-Smaller n o w (omega arith))
            (λ w hw. parse_value-Smaller n w (omega arith)))

  parse_items-Smaller :
      (n : ℕ) (close : TokenType) (items : Items) (t : Tokenizer)
      → close ≢ eof
      → 2 * size t + 2 ≤ n
      → Ensures (Smaller t) (parse_items n close items t)
  parse_items-Smaller zero close items t ne h = absurd (omega arith)
  parse_items-Smaller (suc n) close items t ne h =
      peek-then t (λ tk u. items_case close items tk u (parse_items n close) (parse_value n))
        (λ tk u kept le.
          items_case-Smaller tk u kept close items (parse_items n close) (parse_value n) ne
            (λ i w hw. parse_items-Smaller n close i w ne (omega arith))
            (parse_value-Smaller n u (omega arith)))

-- No fuel error, and nothing more.
abbrev Ends {ℓ} : {A : Type ℓ} → Result ParseError A → Type 0
Ends = Ensures (λ _. Unit {0})

finish_file-Ends : (root : Bytes) (v : Value) (t : Tokenizer) → Ends (finish_file root v t)
unfolding finish_file
finish_file-Ends root (list items) t =
    Ensures-bind (Takes t) (λ _. Unit {0}) (lift (next t)) _ (next-Takes t)
      (λ r h. elim (TokenType-discrete r.0.typ eof) [
        | yes e ↦ rw (if_pos _ e) tt
        | no other ↦ rw (if_neg _ other) (λ bad. cc)
      ])
finish_file-Ends root _ t = λ bad. cc

parse_file-Ends : (src : Bytes) → Ends (parse_file src)
unfolding parse_file parse_file_on new_tokenizer
parse_file-Ends src =
    let start = new_tokenizer src in
    let fuel = 2 * length src + 1 in
    Ensures-bind (Takes start) (λ _. Unit {0}) (lift (next start)) _ (next-Takes start)
      (λ root h. elim (TokenType-discrete root.0.typ ident) [
        | yes e ↦ rw (if_pos _ e) (
            Ensures-bind (Smaller root.1) (λ _. Unit {0}) (expect colon root.1) _
              (expect-Smaller colon root.1 (λ bad. cc))
              (λ c hc.
                Ensures-bind (Smaller c.1) (λ _. Unit {0}) (parse_value fuel c.1) _
                  (parse_value-Smaller fuel c.1 (omega arith))
                  (λ v hv. finish_file-Ends root.0.val v.0 v.1)))
        | no other ↦ rw (if_neg _ other) (λ bad. cc)
      ])

ends_lem {ℓ} : {A : Type ℓ} (m : Result ParseError A) → Ends m → m ≢ err out_of_fuel
ends_lem (ok a) h bad = cc
ends_lem (err e) h bad = h (cc)

-- `ParseFile` ends on every source: the fuel that it gives the parser is never used up.
pub parse_file-ends : (src : Bytes) → parse_file src ≢ err out_of_fuel
parse_file-ends src = ends_lem (parse_file src) (parse_file-Ends src)
