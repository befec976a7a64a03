-- ===== src/Hercules/Parser.antt =====
-- internal/data/sources/hercules/parser.go: values and the recursive-descent parser. The parser
-- runs on fuel, which `parse_file` gives it by the length of the source.
pub mod Fuel
pub mod Sizes
use mathlib.Core.Logic.{ite}
use ro_builder.Prelude.{
  ℕ, zero, suc, ◌+◌, ◌-◌, ◌*◌, Bool, true, false, List, [], ◌∷◌, Option, none, some, length, Result,
  ok, err, ◌>>=◌, ◌==◌, ltb, leb, if◌then◌else◌,
}
use ro_builder.Prelude.Int.{ℤ, pos, negsuc}
use ro_builder.Hercules.Cursor.{Bytes, is_digit}
use ro_builder.Hercules.Tokenizer.{
  TokenType, TokenType-discrete, Token, TokenError, Tokenizer, eof, ident, string, int, bool,
  heredoc, lbrace, rbrace, lparen, rparen, lbracket, rbracket, colon, comma, bytes_eq, true_word,
  new_tokenizer, peek, next,
}

-- Go's `any` as the parser fills it: int, string, bool, `[]any` and `map[string]any`.
mutual
  pub data Value : Type 0 where
    number : ℤ → Value
    text : Bytes → Value
    boolean : Bool → Value
    list : Items → Value
    object : Fields → Value

  pub data Items : Type 0 where
    nil : Items
    cons : Value → Items → Items

  pub data Fields : Type 0 where
    end : Fields
    field : Bytes → Value → Fields → Fields

pub data ParseError : Type 0 where
  lexical : TokenError → ParseError
  expected : TokenType → Token → ParseError
  expected_root : Token → ParseError
  expected_key : Token → ParseError
  bad_int : Token → ParseError
  unexpected : Token → ParseError
  not_a_list : Bytes → Value → ParseError
  trailing : Token → ParseError
  out_of_fuel : ParseError

abbrev pub Parse : Type 0 → Type 0
Parse A = Result ParseError (A × Tokenizer)

-- `items = append(items, val)`
unfoldable pub snoc : Items → Value → Items
snoc nil v = cons v nil
snoc (cons x xs) v = cons x (snoc xs v)

-- `obj[key] = val`
unfoldable pub assign : Bytes → Value → Fields → Fields
assign key v end = field key v end
assign key v (field k w rest) =
    if bytes_eq k key then field key v rest else field k w (assign key v rest)

-- `m[key]`
unfoldable pub get : Bytes → Fields → Option Value
get key end = none
get key (field k v rest) = if bytes_eq k key then some v else get key rest

-- The digits of `strconv.Atoi`.
unfoldable pub atoi_digits : ℕ → Bytes → Option ℕ
atoi_digits acc [] = some acc
atoi_digits acc (c ∷ cs) =
    let rest = atoi_digits (acc * 10 + (c - b'0')) cs in if is_digit c then rest else none

unfoldable pub atoi_nonneg : Option ℕ → Option ℤ
atoi_nonneg none = none
atoi_nonneg (some n) = if ltb n 9223372036854775808 then some (pos n) else none

unfoldable pub atoi_neg : Option ℕ → Option ℤ
atoi_neg none = none
atoi_neg (some zero) = some (pos 0)
atoi_neg (some (suc n)) = if ltb n 9223372036854775808 then some (negsuc n) else none

-- `strconv.Atoi` on the bytes that an int token can hold: 64 bits, no plus sign.
unfoldable pub atoi : Bytes → Option ℤ
unfolding atoi_digits atoi_nonneg atoi_neg is_digit
atoi [] = none
atoi (c ∷ []) = if c == b'-' then none else atoi_nonneg (atoi_digits 0 (c ∷ []))
atoi (c ∷ d ∷ cs) =
    if c == b'-'
    then atoi_neg (atoi_digits 0 (d ∷ cs))
    else atoi_nonneg (atoi_digits 0 (c ∷ d ∷ cs))

abbrev pub lift {ℓ} : {A : Type ℓ} → Result TokenError A → Result ParseError A
lift (ok a) = ok a
lift (err e) = err (lexical e)

-- `expect`
unfoldable pub expect : TokenType → Tokenizer → Parse Token
expect typ t = do
  r ← lift (next t)
  ite (TokenType-discrete r.0.typ typ) (ok r) (err (expected typ r.0))

unfoldable pub int_value : Token → Option ℤ → Tokenizer → Parse Value
int_value tk (some n) t = ok (number n, t)
int_value tk none t = err (bad_int tk)

-- The switch of `parseValue`, with the opening bracket that `parseObject`, `parseList` and
-- `parseArray` expect; `fields` and `elements` are their loops.
unfoldable pub value_case :
    TokenType
    → Token
    → Tokenizer
    → (Tokenizer → Parse Value)
    → (TokenType → Tokenizer → Parse Value)
    → Parse Value
unfolding expect int_value
value_case int tk t fields elements = do s ← lift (next t); int_value tk (atoi tk.val) s.1
value_case string tk t fields elements = do s ← lift (next t); ok (text tk.val, s.1)
value_case heredoc tk t fields elements = do s ← lift (next t); ok (text tk.val, s.1)
value_case bool tk t fields elements = do
  s ← lift (next t)
  ok (boolean (bytes_eq tk.val true_word), s.1)
value_case ident tk t fields elements = do s ← lift (next t); ok (text tk.val, s.1)
value_case lbrace tk t fields elements = do s ← expect lbrace t; fields s.1
value_case lparen tk t fields elements = do s ← expect lparen t; elements rparen s.1
value_case lbracket tk t fields elements = do s ← expect lbracket t; elements rbracket s.1
value_case _ tk t fields elements = err (unexpected tk)

-- One round of the loop of `parseObject`; `again` is the next round, `value` is `parseValue`.
unfoldable pub object_case :
    TokenType
    → Fields
    → Token
    → Tokenizer
    → (Fields → Tokenizer → Parse Value)
    → (Tokenizer → Parse Value)
    → Parse Value
unfolding expect assign
object_case rbrace obj tk t again value = do s ← lift (next t); ok (object obj, s.1)
object_case comma obj tk t again value = do s ← lift (next t); again obj s.1
object_case ident obj tk t again value = do
  key ← lift (next t)
  c ← expect colon key.1
  v ← value c.1
  again (assign key.0.val v.0 obj) v.1
object_case _ obj tk t again value = err (expected_key tk)

-- One round of the loop of `parseList` and `parseArray`, which differ in the closing bracket.
unfoldable pub items_case :
    TokenType
    → Items
    → Token
    → Tokenizer
    → (Items → Tokenizer → Parse Value)
    → (Tokenizer → Parse Value)
    → Parse Value
unfolding snoc
items_case close items tk t again value =
    ite (TokenType-discrete tk.typ close) (do s ← lift (next t); ok (list items, s.1))
      (ite (TokenType-discrete tk.typ comma) (do s ← lift (next t); again items s.1)
        (do v ← value t; again (snoc items v.0) v.1))

unfoldable mutual
  -- `parseValue`
  pub parse_value : ℕ → Tokenizer → Parse Value
  parse_value zero t = err out_of_fuel
  parse_value (suc n) t = do
    r ← lift (peek t)
    value_case r.0.typ r.0 r.1 (parse_object n end) (λ close. parse_items n close nil)

  -- `parseObject` behind its opening brace.
  pub parse_object : ℕ → Fields → Tokenizer → Parse Value
  parse_object zero obj t = err out_of_fuel
  parse_object (suc n) obj t = do
    r ← lift (peek t)
    object_case r.0.typ obj r.0 r.1 (parse_object n) (parse_value n)

  -- `parseList` and `parseArray` behind their opening bracket.
  pub parse_items : ℕ → TokenType → Items → Tokenizer → Parse Value
  parse_items zero close items t = err out_of_fuel
  parse_items (suc n) close items t = do
    r ← lift (peek t)
    items_case close items r.0 r.1 (parse_items n close) (parse_value n)

-- The checks of `ParseFile` behind the root value.
unfoldable pub finish_file : Bytes → Value → Tokenizer → Result ParseError Items
finish_file root (list items) t = do
  r ← lift (next t)
  ite (TokenType-discrete r.0.typ eof) (ok items) (err (trailing r.0))
finish_file root v t = err (not_a_list root v)

-- `ParseFile` on fuel for its root value.
unfoldable pub parse_file_on : ℕ → Bytes → Result ParseError Items
unfolding finish_file expect new_tokenizer next peek
parse_file_on fuel src = do
  root ← lift (next (new_tokenizer src))
  ite (TokenType-discrete root.0.typ ident)
      (do c ← expect colon root.1; v ← parse_value fuel c.1; finish_file root.0.val v.0 v.1)
      (err (expected_root root.0))

-- `ParseFile`
unfoldable pub parse_file : Bytes → Result ParseError Items
unfolding parse_file_on
parse_file src = parse_file_on (2 * length src + 1) src
