-- ===== src/Hercules/Tokenizer/Reads.antt =====
-- `read` takes a prefix of the source with every token, and a byte at least unless the source is
-- used up.
use ro_builder.Prelude.{
  ℕ, ◌<◌, Bool, true, false, ◌&&◌, ◌||◌, [], ◌∷◌, ◌++◌, length, ok, err, ◌==◌, ◌≡◌, ◌≢◌, refl,
  arith, if◌then◌else◌, if_cases,
}
use ro_builder.Hercules.Cursor.{
  Bytes, Pos, Cursor, at, after, advance, peek_char, is_digit, is_ident_start, is_ident_cont, skip,
  span, span_end,
}
use ro_builder.Hercules.Tokenizer.{
  Token, TokenType, Read, token, punct, eof, string, int, bool, ident, heredoc, lbrace, rbrace,
  lparen, rparen, lbracket, rbracket, colon, comma, unexpected_lt, unexpected_char, unescape,
  string_loop, read_string, heredoc_loop, read_heredoc, read_int, read_int_or_digit_ident, bytes_eq,
  true_word, false_word, read_ident, read_at, read_here, read,
}
use ro_builder.Hercules.Tokenizer.Consumes.{
  Consumes, Consumes-none, Consumes-cons, Consumes-trans, Consumes-length, advance-Consumes,
  span_end-Consumes, skip-Consumes,
}

-- A token that is not the end, and at least one byte taken.
abbrev Takes : Bytes → Pos → Read → Type 0
Takes cs p (err e) = Unit
Takes cs p (ok r) = Consumes cs p r.1 × (length r.1.rest < length cs) × (r.0.typ ≢ eof)

Takes-cons : (c : ℕ) (cs : Bytes) (p : Pos) (r : Read) → Takes cs (after c p) r → Takes (c ∷ cs) p r
Takes-cons c cs p (err e) h = tt
Takes-cons c cs p (ok r) h = (Consumes-cons c h.0, omega arith, h.2)

Takes-token :
    (c : ℕ) (cs : Bytes) (p : Pos) (tk : Token) (t : Cursor)
    → Consumes cs (after c p) t
    → tk.typ ≢ eof
    → Takes (c ∷ cs) p (ok (tk, t))
Takes-token c cs p tk t h ne = (Consumes-cons c h, omega (arith, Consumes-length h), ne)

punct-Takes :
    (typ : TokenType) (c : ℕ) (cs : Bytes) (p : Pos)
    → typ ≢ eof
    → Takes (c ∷ cs) p (punct typ (c ∷ cs) p)
unfolding advance
punct-Takes typ c cs p ne =
    Takes-token c cs p (token typ [] p) (at cs (after c p)) (Consumes-none cs (after c p)) ne

string_loop-Takes : (start : Pos) (sb cs : Bytes) (p : Pos) → Takes cs p (string_loop start sb cs p)
unfolding string_loop
string_loop-Takes start sb [] p = tt
string_loop-Takes start sb (c ∷ []) p =
    if_cases (Takes (c ∷ []) p) (c == b'"')
      (λ _.
        Takes-token c [] p (token string sb start) (at [] (after c p))
          (Consumes-none [] (after c p)) (λ e. cc))
      (λ _. tt)
string_loop-Takes start sb (c ∷ d ∷ cs) p =
    let escaped = string_loop-Takes start (sb ++ (unescape d ∷ [])) cs (after d (after c p)) in
    let plain = string_loop-Takes start (sb ++ (c ∷ [])) (d ∷ cs) (after c p) in
    if_cases (Takes (c ∷ d ∷ cs) p) (c == b'\\')
      (λ _. Takes-cons c (d ∷ cs) p _ (Takes-cons d cs (after c p) _ escaped))
      (λ _.
        if_cases (Takes (c ∷ d ∷ cs) p) (c == b'"')
          (λ _.
            Takes-token c (d ∷ cs) p (token string sb start) (at (d ∷ cs) (after c p))
              (Consumes-none (d ∷ cs) (after c p)) (λ e. cc))
          (λ _. Takes-cons c (d ∷ cs) p _ plain))

heredoc_loop-Takes :
    (start : Pos) (sb cs : Bytes) (p : Pos) → Takes cs p (heredoc_loop start sb cs p)
unfolding heredoc_loop advance
heredoc_loop-Takes start sb [] p = tt
heredoc_loop-Takes start sb (c ∷ cs) p =
    if_cases (Takes (c ∷ cs) p) (c == b'"' && peek_char cs == b'>')
      (λ _.
        Takes-token c cs p (token heredoc sb start) (advance 1 cs (after c p))
          (advance-Consumes 1 cs (after c p)) (λ e. cc))
      (λ _. Takes-cons c cs p _ (heredoc_loop-Takes start (sb ++ (c ∷ [])) cs (after c p)))

Takes-behind :
    {cs : Bytes} {p : Pos} {t : Cursor} (r : Read)
    → Consumes cs p t
    → Takes t.rest t.pos r
    → Takes cs p r
Takes-behind (err e) h k = tt
Takes-behind (ok r) h k = (Consumes-trans h k.0, omega (arith, Consumes-length h), k.2)

read_string-Takes : (c : ℕ) (cs : Bytes) (p : Pos) → Takes (c ∷ cs) p (read_string (c ∷ cs) p)
unfolding read_string advance
read_string-Takes c cs p = Takes-cons c cs p _ (string_loop-Takes p [] cs (after c p))

read_heredoc-Takes : (c : ℕ) (cs : Bytes) (p : Pos) → Takes (c ∷ cs) p (read_heredoc (c ∷ cs) p)
unfolding read_heredoc advance
read_heredoc-Takes c cs p =
    let start = advance 1 cs (after c p) in
    Takes-cons c cs p _ (
      Takes-behind (heredoc_loop p [] start.rest start.pos) (advance-Consumes 1 cs (after c p))
        (heredoc_loop-Takes p [] start.rest start.pos))

span_end_first :
    (test : ℕ → Bool) (c : ℕ) (cs : Bytes) (p : Pos)
    → test c ≡ true
    → span_end test (c ∷ cs) p ≡ span_end test cs (after c p)
unfolding span_end
span_end_first test c cs p e = rw e

read_int-Takes :
    (c : ℕ) (cs : Bytes) (p : Pos) → (c == b'-') ≡ true → Takes (c ∷ cs) p (read_int (c ∷ cs) p)
unfolding read_int
read_int-Takes c cs p e =
    if_cases (Takes (c ∷ cs) p) (c == b'-')
      (λ _.
        Takes-token c cs p (token int [] p) (span_end is_digit cs (after c p))
          (span_end-Consumes is_digit cs (after c p)) (λ e. cc))
      (λ other. absurd (cc))

digit_ident-Takes :
    (c : ℕ) (cs : Bytes) (p : Pos)
    → is_digit c ≡ true
    → Takes (c ∷ cs) p (read_int_or_digit_ident (c ∷ cs) p)
digit_ident-Takes c cs p e =
    unfold read_int_or_digit_ident in
    rw (span_end_first is_digit c cs p e) (
      let stop = span_end is_digit cs (after c p) in
      let digits = span_end-Consumes is_digit cs (after c p) in
      if_cases (Takes (c ∷ cs) p) (is_ident_start (peek_char stop.rest))
        (λ _.
          Takes-token c cs p (token ident [] p) (span_end is_ident_cont stop.rest stop.pos)
            (Consumes-trans digits (span_end-Consumes is_ident_cont stop.rest stop.pos)) (λ e. cc))
        (λ _. Takes-token c cs p (token int [] p) stop digits (λ e. cc)))

ident_start_cont : (c : ℕ) → is_ident_start c ≡ true → is_ident_cont c ≡ true
unfolding is_ident_cont
ident_start_cont c e = rw e

ident_typ : (b : Bool) → (if b then bool else ident) ≢ eof
ident_typ true = λ e. cc
ident_typ false = λ e. cc

read_ident-Takes :
    (c : ℕ) (cs : Bytes) (p : Pos)
    → is_ident_start c ≡ true
    → Takes (c ∷ cs) p (read_ident (c ∷ cs) p)
unfolding read_ident
read_ident-Takes c cs p e =
    let val = span is_ident_cont (c ∷ cs) p in
    let word = bytes_eq val true_word || bytes_eq val false_word in
    rw (span_end_first is_ident_cont c cs p (ident_start_cont c e)) (
      Takes-token c cs p (token (if word then bool else ident) [] p)
        (span_end is_ident_cont cs (after c p)) (span_end-Consumes is_ident_cont cs (after c p))
        (ident_typ word))

-- The cases of the switch that are no punctuation.
read_at_word-Takes :
    (c : ℕ) (cs : Bytes) (p : Pos)
    → Takes (c ∷ cs) p (
        if c == b'-'
        then read_int (c ∷ cs) p
        else if is_digit c
        then read_int_or_digit_ident (c ∷ cs) p
        else if is_ident_start c
        then read_ident (c ∷ cs) p
        else err (unexpected_char c p))
read_at_word-Takes c cs p = if_cases (Takes (c ∷ cs) p) (c == b'-') (read_int-Takes c cs p) (λ _.
    if_cases (Takes (c ∷ cs) p) (is_digit c) (digit_ident-Takes c cs p)
      (λ _. if_cases (Takes (c ∷ cs) p) (is_ident_start c) (read_ident-Takes c cs p) (λ _. tt)))

read_at_quote-Takes :
    (c : ℕ) (cs : Bytes) (p : Pos)
    → Takes
        (c ∷ cs)
        p
        (if peek_char cs == b'"' then read_heredoc (c ∷ cs) p else err (unexpected_lt p))
read_at_quote-Takes c cs p =
    if_cases (Takes (c ∷ cs) p) (peek_char cs == b'"') (λ _. read_heredoc-Takes c cs p) (λ _. tt)

read_at-Takes : (c : ℕ) (cs : Bytes) (p : Pos) → Takes (c ∷ cs) p (read_at c cs p)
unfolding read_at
read_at-Takes c cs p =
    let P = Takes (c ∷ cs) p in
    if_cases P (c == b'{') (λ _. punct-Takes lbrace c cs p (λ e. cc))
      (λ _.
        if_cases P (c == b'}') (λ _. punct-Takes rbrace c cs p (λ e. cc))
          (λ _.
            if_cases P (c == b'(') (λ _. punct-Takes lparen c cs p (λ e. cc))
              (λ _.
                if_cases P (c == b')') (λ _. punct-Takes rparen c cs p (λ e. cc))
                  (λ _.
                    if_cases P (c == b'[') (λ _. punct-Takes lbracket c cs p (λ e. cc))
                      (λ _.
                        if_cases P (c == b']') (λ _. punct-Takes rbracket c cs p (λ e. cc))
                          (λ _.
                            if_cases P (c == b':') (λ _. punct-Takes colon c cs p (λ e. cc))
                              (λ _.
                                if_cases P (c == b',' || c == b';')
                                  (λ _. punct-Takes comma c cs p (λ e. cc))
                                  (λ _.
                                    if_cases P (c == b'"') (λ _. read_string-Takes c cs p)
                                      (λ _.
                                        if_cases P (c == b'<') (λ _. read_at_quote-Takes c cs p)
                                          (λ _. read_at_word-Takes c cs p))))))))))

-- The outcome of `read`: a prefix is taken, all of the source with the end token, and at least one
-- byte with any other.
pub record Reads (t : Cursor) (tk : Token) (t' : Cursor) : Type 0 where
  pub consumes : Consumes t.rest t.pos t'
  pub at_end : tk.typ ≡ eof → t'.rest ≡ []
  pub progress : tk.typ ≢ eof → length t'.rest < length t.rest

abbrev Outcome : Cursor → Read → Type 0
Outcome t (err e) = Unit
Outcome t (ok r) = Reads t r.0 r.1

Outcome-Takes : (cs : Bytes) (p : Pos) (r : Read) → Takes cs p r → Outcome (at cs p) r
Outcome-Takes cs p (err e) h = tt
Outcome-Takes cs p (ok r) h = record {
  consumes = h.0;
  at_end = λ e. absurd (h.2 e);
  progress = λ ne. h.1;
}

read_here-Outcome : (cs : Bytes) (p : Pos) → Outcome (at cs p) (read_here cs p)
unfolding read_here
read_here-Outcome [] p = record {
  consumes = Consumes-none [] p;
  at_end = λ e. refl;
  progress = λ ne. absurd (ne refl);
}
read_here-Outcome (c ∷ cs) p = Outcome-Takes (c ∷ cs) p (read_at c cs p) (read_at-Takes c cs p)

Outcome-behind : (t u : Cursor) (r : Read) → Consumes t.rest t.pos u → Outcome u r → Outcome t r
Outcome-behind t u (err e) h k = tt
Outcome-behind t u (ok r) h k = record {
  consumes = Consumes-trans h k.consumes;
  at_end = k.at_end;
  progress = λ ne. omega (arith, k.progress ne, Consumes-length h);
}

read-Outcome : (t : Cursor) → Outcome t (read t)
unfolding read
read-Outcome t =
    let start = skip (length t.rest) t.rest t.pos in
    Outcome-behind t start (read_here start.rest start.pos)
      (skip-Consumes (length t.rest) t.rest t.pos) (read_here-Outcome start.rest start.pos)

-- Whatever `read` returns stands behind a prefix of the source, with the counters moved over that
-- prefix; the end token comes only when the source is used up, and any other token takes at least
-- one byte.
pub read-Reads : (t : Cursor) {tk : Token} {t' : Cursor} → read t ≡ ok (tk, t') → Reads t tk t'
read-Reads t h = rw h at (read-Outcome t)
