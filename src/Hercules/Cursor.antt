-- ===== src/Hercules/Cursor.antt =====
-- internal/data/sources/hercules/tokenizer.go: where the tokenizer stands. `rest` is `src[pos:]`,
-- which is all of the source that the code reads from there; bytes are numbers.
use ro_builder.Prelude.{
  ℕ, zero, suc, ◌+◌, Bool, ◌&&◌, ◌||◌, List, [], ◌∷◌, ◌++◌, ◌≡◌, refl, ◌==◌, leb, if◌then◌else◌,
}

abbrev pub Bytes : Type 0
Bytes = List ℕ

pub record Pos : Type 0 where
  pub line : ℕ
  pub col : ℕ

pub record Cursor : Type 0 where
  pub rest : Bytes
  pub pos : Pos

abbrev pub at : Bytes → Pos → Cursor
at rest pos = record { rest = rest; pos = pos }

-- The counters after one byte, in `advance`.
abbrev pub after : ℕ → Pos → Pos
after c p =
    if c == b'\n'
    then record { line = p.line + 1; col = 1 }
    else record { line = p.line; col = p.col + 1 }

-- The counters after a run of bytes.
abbrev pub after_all : Bytes → Pos → Pos
after_all [] p = p
after_all (c ∷ cs) p = after_all cs (after c p)

-- `advance`
unfoldable pub advance : ℕ → Bytes → Pos → Cursor
advance zero cs p = at cs p
advance (suc n) [] p = at [] p
advance (suc n) (c ∷ cs) p = advance n cs (after c p)

-- `peekChar(0)` on `src[pos:]`; 0 past the end.
abbrev pub peek_char : Bytes → ℕ
peek_char [] = 0
peek_char (c ∷ cs) = c

abbrev pub within : ℕ → ℕ → ℕ → Bool
within lo hi c = leb lo c && leb c hi

unfoldable pub is_digit : ℕ → Bool
is_digit c = within b'0' b'9' c

-- `isIdentStart`
unfoldable pub is_ident_start : ℕ → Bool
is_ident_start c = within b'a' b'z' c || within b'A' b'Z' c || c == b'_'

-- `isIdentCont`
unfoldable pub is_ident_cont : ℕ → Bool
unfolding is_ident_start
is_ident_cont c = is_ident_start c || within b'0' b'9' c

unfoldable pub is_space : ℕ → Bool
is_space c = c == b' ' || c == b'\t' || c == b'\n' || c == b'\r'

-- The inner loop of a `//` comment: up to the newline, which is left.
unfoldable pub skip_line : Bytes → Pos → Cursor
skip_line [] p = at [] p
skip_line (c ∷ cs) p =
    let more = skip_line cs (after c p) in if c == b'\n' then at (c ∷ cs) p else more

-- The inner loop of a block comment: past the closing mark, or to the end of the source.
unfoldable pub skip_block : Bytes → Pos → Cursor
unfolding advance
skip_block [] p = at [] p
skip_block (c ∷ cs) p =
    let more = skip_block cs (after c p) in
    if c == b'*' && peek_char cs == b'/' then advance 2 (c ∷ cs) p else more

-- One round of `skipWhitespaceAndComments`: none where the loop returns.
pub data Skip : Type 0 where
  stop : Skip
  again : Cursor → Skip

unfoldable pub skip_round : ℕ → Bytes → Pos → Skip
unfolding is_space skip_line skip_block advance
skip_round c cs p =
    if is_space c
    then again (at cs (after c p))
    else if c == b'/' && peek_char cs == b'/'
    then again (skip_line (c ∷ cs) p)
    else if c == b'/' && peek_char cs == b'*'
    then (let start = advance 2 (c ∷ cs) p in again (skip_block start.rest start.pos))
    else stop

-- `skipWhitespaceAndComments`, on fuel, a unit for each round.
unfoldable pub skip : ℕ → Bytes → Pos → Cursor
unfolding skip_round
skip zero cs p = at cs p
skip (suc n) [] p = at [] p
skip (suc n) (c ∷ cs) p = elim (skip_round c cs p) [
  | stop ↦ at (c ∷ cs) p
  | again next ↦ skip n next.rest next.pos
]

-- The loop of the digit and identifier readers: the bytes that pass the test, and what follows.
unfoldable pub span : (ℕ → Bool) → Bytes → Pos → Bytes
span test [] p = []
span test (c ∷ cs) p = if test c then c ∷ span test cs (after c p) else []

unfoldable pub span_end : (ℕ → Bool) → Bytes → Pos → Cursor
span_end test [] p = at [] p
span_end test (c ∷ cs) p =
    let more = span_end test cs (after c p) in if test c then more else at (c ∷ cs) p

pub after_all-append :
    (xs ys : Bytes) (p : Pos) → after_all (xs ++ ys) p ≡ after_all ys (after_all xs p)
after_all-append [] ys p = refl
after_all-append (x ∷ xs) ys p = after_all-append xs ys (after x p)
