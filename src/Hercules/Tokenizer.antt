-- ===== src/Hercules/Tokenizer.antt =====
-- internal/data/sources/hercules/tokenizer.go: tokens, `read`, and the one-token lookahead.
pub mod Consumes
pub mod Strings
pub mod Skips
pub mod Reads
use ro_builder.Prelude.{
  ℕ, zero, suc, ◌+◌, Bool, true, false, ◌&&◌, ◌||◌, List, [], ◌∷◌, ◌++◌, Option, none, some, length,
  Result, ok, err, ◌>>=◌, ◌==◌, if◌then◌else◌,
}
use ro_builder.Hercules.Cursor.{
  Bytes, Pos, Cursor, at, after, advance, peek_char, is_digit, is_ident_start, is_ident_cont, skip,
  span, span_end,
}

pub data TokenType : Type 0 where
  eof ident string int bool : TokenType
  lbrace rbrace lparen rparen lbracket rbracket : TokenType
  colon comma heredoc : TokenType

unfoldable pub TokenType-discrete : Discrete TokenType
TokenType-discrete = hlevel

pub record Token : Type 0 where
  pub typ : TokenType
  pub val : Bytes
  pub at_pos : Pos

pub data TokenError : Type 0 where
  unexpected_lt : Pos → TokenError
  unexpected_char : ℕ → Pos → TokenError
  unterminated_string : Pos → TokenError
  unterminated_heredoc : Pos → TokenError

-- A token and where the reader stands behind it.
abbrev pub Read : Type 0
Read = Result TokenError (Token × Cursor)

abbrev pub token : TokenType → Bytes → Pos → Token
token typ val p = record { typ = typ; val = val; at_pos = p }

-- A token of one byte.
abbrev pub punct : TokenType → Bytes → Pos → Read
punct typ cs p = ok (token typ [] p, advance 1 cs p)

-- The switch on the byte behind a backslash.
unfoldable pub unescape : ℕ → ℕ
unescape c =
    if c == b'n' then b'\n' else if c == b't' then b'\t' else if c == b'r' then b'\r' else c

-- The loop of `readString`; `sb` is what was read, `start` the opening quote's place.
unfoldable pub string_loop : Pos → Bytes → Bytes → Pos → Read
unfolding unescape
string_loop start sb [] p = err (unterminated_string start)
string_loop start sb (c ∷ []) p =
    if c == b'"'
    then ok (token string sb start, at [] (after c p))
    else err (unterminated_string start)
string_loop start sb (c ∷ d ∷ cs) p =
    let escaped = string_loop start (sb ++ (unescape d ∷ [])) cs (after d (after c p)) in
    let plain = string_loop start (sb ++ (c ∷ [])) (d ∷ cs) (after c p) in
    if c == b'\\'
    then escaped
    else if c == b'"'
    then ok (token string sb start, at (d ∷ cs) (after c p))
    else plain

-- `readString`
unfoldable pub read_string : Bytes → Pos → Read
unfolding string_loop advance
read_string cs p = let start = advance 1 cs p in string_loop p [] start.rest start.pos

-- The loop of `readHeredoc`.
unfoldable pub heredoc_loop : Pos → Bytes → Bytes → Pos → Read
unfolding advance
heredoc_loop start sb [] p = err (unterminated_heredoc start)
heredoc_loop start sb (c ∷ cs) p =
    let more = heredoc_loop start (sb ++ (c ∷ [])) cs (after c p) in
    if c == b'"' && peek_char cs == b'>'
    then ok (token heredoc sb start, advance 2 (c ∷ cs) p)
    else more

-- `readHeredoc`
unfoldable pub read_heredoc : Bytes → Pos → Read
unfolding heredoc_loop advance
read_heredoc cs p = let start = advance 2 cs p in heredoc_loop p [] start.rest start.pos

-- `readInt`, which the caller only calls at a `-`.
unfoldable pub read_int : Bytes → Pos → Read
unfolding span span_end is_digit
read_int [] p = ok (token int [] p, at [] p)
read_int (c ∷ cs) p =
    if c == b'-'
    then ok (token int (c ∷ span is_digit cs (after c p)) p, span_end is_digit cs (after c p))
    else ok (token int (span is_digit (c ∷ cs) p) p, span_end is_digit (c ∷ cs) p)

-- `readIntOrDigitIdent`
unfoldable pub read_int_or_digit_ident : Bytes → Pos → Read
unfolding span span_end is_digit is_ident_start is_ident_cont
read_int_or_digit_ident cs p =
    let digits = span is_digit cs p in
    let stop = span_end is_digit cs p in
    if is_ident_start (peek_char stop.rest)
    then ok (
      token ident (digits ++ span is_ident_cont stop.rest stop.pos) p,
      span_end is_ident_cont stop.rest stop.pos,
    )
    else ok (token int digits p, stop)

-- Go's `==` on strings.
unfoldable pub bytes_eq : Bytes → Bytes → Bool
bytes_eq [] [] = true
bytes_eq (x ∷ xs) (y ∷ ys) = x == y && bytes_eq xs ys
bytes_eq _ _ = false

abbrev pub true_word : Bytes
true_word = b't' ∷ b'r' ∷ b'u' ∷ b'e' ∷ []

abbrev pub false_word : Bytes
false_word = b'f' ∷ b'a' ∷ b'l' ∷ b's' ∷ b'e' ∷ []

-- `readIdent`
unfoldable pub read_ident : Bytes → Pos → Read
unfolding span span_end is_ident_cont bytes_eq
read_ident cs p =
    let val = span is_ident_cont cs p in
    let typ = if bytes_eq val true_word || bytes_eq val false_word then bool else ident in
    ok (token typ val p, span_end is_ident_cont cs p)

-- The switch of `read`, at the byte `c` in front of `cs`.
unfoldable pub read_at : ℕ → Bytes → Pos → Read
unfolding read_string read_heredoc read_int read_int_or_digit_ident read_ident
read_at c cs p =
    if c == b'{'
    then punct lbrace (c ∷ cs) p
    else if c == b'}'
    then punct rbrace (c ∷ cs) p
    else if c == b'('
    then punct lparen (c ∷ cs) p
    else if c == b')'
    then punct rparen (c ∷ cs) p
    else if c == b'['
    then punct lbracket (c ∷ cs) p
    else if c == b']'
    then punct rbracket (c ∷ cs) p
    else if c == b':'
    then punct colon (c ∷ cs) p
    else if c == b',' || c == b';'
    then punct comma (c ∷ cs) p
    else if c == b'"'
    then read_string (c ∷ cs) p
    else if c == b'<'
    then (if peek_char cs == b'"' then read_heredoc (c ∷ cs) p else err (unexpected_lt p))
    else if c == b'-'
    then read_int (c ∷ cs) p
    else if is_digit c
    then read_int_or_digit_ident (c ∷ cs) p
    else if is_ident_start c
    then read_ident (c ∷ cs) p
    else err (unexpected_char c p)

unfoldable pub read_here : Bytes → Pos → Read
unfolding read_at
read_here [] p = ok (token eof [] p, at [] p)
read_here (c ∷ cs) p = read_at c cs p

-- `read`
unfoldable pub read : Cursor → Read
unfolding read_here skip
read t = let start = skip (length t.rest) t.rest t.pos in read_here start.rest start.pos

-- `tokenizer`: the cursor and the token that `peek` holds.
pub record Tokenizer : Type 0 where
  pub cursor : Cursor
  pub peeked : Option Token

-- `newTokenizer`
unfoldable pub new_tokenizer : Bytes → Tokenizer
new_tokenizer src = record { cursor = at src (record { line = 1; col = 1 }); peeked = none }

unfoldable pub peek_with : Tokenizer → Option Token → Result TokenError (Token × Tokenizer)
peek_with t (some tk) = ok (tk, t)
peek_with t none = do r ← read t.cursor; ok (r.0, record { cursor = r.1; peeked = some r.0 })

-- `peek`
unfoldable pub peek : Tokenizer → Result TokenError (Token × Tokenizer)
unfolding peek_with
peek t = peek_with t t.peeked

unfoldable pub next_with : Tokenizer → Option Token → Result TokenError (Token × Tokenizer)
next_with t (some tk) = ok (tk, record t { peeked = none })
next_with t none = do r ← read t.cursor; ok (r.0, record { cursor = r.1; peeked = none })

-- `next`
unfoldable pub next : Tokenizer → Result TokenError (Token × Tokenizer)
unfolding next_with
next t = next_with t t.peeked
