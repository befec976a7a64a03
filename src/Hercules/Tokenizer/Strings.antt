-- ===== src/Hercules/Tokenizer/Strings.antt =====
-- Quoted strings and heredocs: what is written between the delimiters is what the token holds.
use mathlib.Core.List.{append-nil, append_assoc}
use ro_builder.Prelude.{
  ℕ, false, ◌&&◌, List, [], ◌∷◌, ◌++◌, ok, ◌==◌, ◌≡◌, refl, arith, if◌then◌else◌,
}
use ro_builder.Hercules.Cursor.{
  Bytes, Pos, at, after, after_all, after_all-append, advance, peek_char,
}
use ro_builder.Hercules.Tokenizer.{
  token, string, heredoc, string_loop, heredoc_loop, read_string, read_heredoc,
}

-- The bytes that a writer puts for one byte of a string: a backslash before a quote or a
-- backslash, and the letter forms of newline, tab and return.
abbrev pub escape : ℕ → Bytes
escape c =
    if c == b'"'
    then b'\\' ∷ b'"' ∷ []
    else if c == b'\\'
    then b'\\' ∷ b'\\' ∷ []
    else if c == b'\n'
    then b'\\' ∷ b'n' ∷ []
    else if c == b'\t'
    then b'\\' ∷ b't' ∷ []
    else if c == b'\r'
    then b'\\' ∷ b'r' ∷ []
    else c ∷ []

abbrev pub escaped : Bytes → Bytes
escaped [] = []
escaped (c ∷ cs) = escape c ++ escaped cs

string_loop-escape :
    (start : Pos) (sb : Bytes) (c : ℕ) (d : ℕ) (rest : Bytes) (p : Pos)
    → string_loop start sb (escape c ++ (d ∷ rest)) p
      ≡ string_loop start (sb ++ (c ∷ [])) (d ∷ rest) (after_all (escape c) p)
unfolding string_loop
string_loop-escape start sb c d rest p = ground arith

-- A list that goes on behind a prefix is not empty.
append-cons {ℓ} :
    {A : Type ℓ} (xs : List A) (y : A) (ys : List A)
    → (d : A) × (rest : List A) × (xs ++ (y ∷ ys) ≡ d ∷ rest)
append-cons [] y ys = (y, ys, refl)
append-cons (x ∷ xs) y ys = (x, xs ++ (y ∷ ys), refl)

string_loop_close :
    (start : Pos) (sb rest : Bytes) (p : Pos)
    → string_loop start sb (b'"' ∷ rest) p ≡ ok (token string sb start, at rest (after b'"' p))
unfolding string_loop
string_loop_close start sb [] p = refl
string_loop_close start sb (d ∷ rest) p = refl

string_loop-escaped :
    (start : Pos) (sb body rest : Bytes) (p : Pos)
    → string_loop start sb (escaped body ++ (b'"' ∷ rest)) p
      ≡ ok (token string (sb ++ body) start, at rest (after b'"' (after_all (escaped body) p)))
string_loop-escaped start sb [] rest p = rw append-nil (string_loop_close start sb rest p)
string_loop-escaped start sb (c ∷ cs) rest p =
    let (d, more, e) = append-cons (escaped cs) b'"' rest in
    let tail = string_loop-escaped start (sb ++ (c ∷ [])) cs rest (after_all (escape c) p) in
    rw (append_assoc, e, string_loop-escape, ← e, tail, append_assoc, after_all-append)

-- `readString` gives back any bytes that were written with their escapes, and stands behind the
-- closing quote, its counters moved over all that was written.
pub read_string-escaped :
    (body rest : Bytes) (p : Pos)
    → read_string (b'"' ∷ (escaped body ++ (b'"' ∷ rest))) p
      ≡ ok (token string body p, at rest (after_all (b'"' ∷ (escaped body ++ (b'"' ∷ []))) p))
read_string-escaped body rest p =
    unfold read_string advance in
    rw (string_loop-escaped p [] body rest (after b'"' p), after_all-append)

-- No place of `body`, read in front of `>`, closes the heredoc.
abbrev pub Open : Bytes → Type 0
Open [] = Unit
Open (c ∷ cs) = ((c == b'"' && peek_char (cs ++ (b'"' ∷ [])) == b'>') ≡ false) × Open cs

heredoc_loop_step :
    (start : Pos) (sb : Bytes) (c : ℕ) (cs rest : Bytes) (p : Pos)
    → (c == b'"' && peek_char (cs ++ (b'"' ∷ [])) == b'>') ≡ false
    → heredoc_loop start sb (c ∷ (cs ++ (b'"' ∷ b'>' ∷ rest))) p
      ≡ heredoc_loop start (sb ++ (c ∷ [])) (cs ++ (b'"' ∷ b'>' ∷ rest)) (after c p)
unfolding heredoc_loop
heredoc_loop_step start sb c [] rest p h = ground arith
heredoc_loop_step start sb c (d ∷ cs) rest p h = ground arith

heredoc_loop-Open :
    (start : Pos) (sb body rest : Bytes) (p : Pos)
    → Open body
    → heredoc_loop start sb (body ++ (b'"' ∷ b'>' ∷ rest)) p
      ≡ ok (token heredoc (sb ++ body) start, at rest (after b'>' (after b'"' (after_all body p))))
heredoc_loop-Open start sb [] rest p h = rw append-nil (unfold heredoc_loop advance in refl)
heredoc_loop-Open start sb (c ∷ cs) rest p h = rw (
  heredoc_loop_step start sb c cs rest p h.0,
  heredoc_loop-Open start (sb ++ (c ∷ [])) cs rest (after c p) h.1,
  append_assoc,
)

-- `readHeredoc` returns the bytes of a block literally, whatever they are, as long as the closing
-- mark does not begin among them.
pub read_heredoc-Open :
    (body rest : Bytes) (p : Pos)
    → Open body
    → read_heredoc (b'<' ∷ b'"' ∷ (body ++ (b'"' ∷ b'>' ∷ rest))) p
      ≡ ok
          (token heredoc body p, at rest (after_all (b'<' ∷ b'"' ∷ (body ++ (b'"' ∷ b'>' ∷ []))) p))
read_heredoc-Open body rest p h =
    unfold read_heredoc advance in
    rw (heredoc_loop-Open p [] body rest (after b'"' (after b'<' p)) h, after_all-append)
