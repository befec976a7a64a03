-- ===== src/Hercules/Tokenizer/Consumes.antt =====
-- Every reader takes a prefix of the source and moves the counters over exactly that prefix.
use mathlib.Core.List.{append_assoc}
use ro_builder.Prelude.{
  ℕ, zero, suc, ◌≤◌, ◌<◌, Bool, true, ◌&&◌, [], ◌∷◌, ◌++◌, length, length-append, ◌==◌, ◌≡◌, refl,
  sym, ap, ◌∙◌, arith, if_cases,
}
use ro_builder.Hercules.Cursor.{
  Bytes, Pos, Cursor, at, after, after_all, after_all-append, advance, peek_char, is_space,
  skip_line, skip_block, Skip, stop, again, skip_round, skip, span_end,
}

-- `t` stands behind the prefix `used` of `cs`.
pub record Consumes (cs : Bytes) (p : Pos) (t : Cursor) : Type 0 where
  pub used : Bytes
  pub splits : cs ≡ used ++ t.rest
  pub moved : t.pos ≡ after_all used p

pub Consumes-none : (cs : Bytes) (p : Pos) → Consumes cs p (at cs p)
Consumes-none cs p = record { used = []; splits = refl; moved = refl }

pub Consumes-cons :
    (c : ℕ) {cs : Bytes} {p : Pos} {t : Cursor} → Consumes cs (after c p) t → Consumes (c ∷ cs) p t
Consumes-cons c k = record { used = c ∷ k.used; splits = ap (◌∷◌ c) k.splits; moved = k.moved }

pub Consumes-trans :
    {cs : Bytes} {p : Pos} {t u : Cursor}
    → Consumes cs p t
    → Consumes t.rest t.pos u
    → Consumes cs p u
Consumes-trans {cs} {p} {t} {u} h k = record {
  used = h.used ++ k.used;
  splits = h.splits ∙ (ap (λ r. h.used ++ r) k.splits ∙ sym (append_assoc h.used k.used u.rest));
  moved = k.moved ∙ (ap (after_all k.used) h.moved ∙ sym (after_all-append h.used k.used p));
}

pub Consumes-length :
    {cs : Bytes} {p : Pos} {t : Cursor} → Consumes cs p t → length t.rest ≤ length cs
Consumes-length {cs} {p} {t} h =
    omega (arith, ap (length {0}) h.splits, length-append h.used t.rest)

pub advance-Consumes : (n : ℕ) (cs : Bytes) (p : Pos) → Consumes cs p (advance n cs p)
unfolding advance
advance-Consumes zero cs p = Consumes-none cs p
advance-Consumes (suc n) [] p = Consumes-none [] p
advance-Consumes (suc n) (c ∷ cs) p = Consumes-cons c (advance-Consumes n cs (after c p))

skip_line-Consumes : (cs : Bytes) (p : Pos) → Consumes cs p (skip_line cs p)
unfolding skip_line
skip_line-Consumes [] p = Consumes-none [] p
skip_line-Consumes (c ∷ cs) p =
    if_cases (Consumes (c ∷ cs) p) (c == b'\n') (λ _. Consumes-none (c ∷ cs) p)
      (λ _. Consumes-cons c (skip_line-Consumes cs (after c p)))

skip_block-Consumes : (cs : Bytes) (p : Pos) → Consumes cs p (skip_block cs p)
unfolding skip_block
skip_block-Consumes [] p = Consumes-none [] p
skip_block-Consumes (c ∷ cs) p =
    if_cases (Consumes (c ∷ cs) p) (c == b'*' && peek_char cs == b'/')
      (λ _. advance-Consumes 2 (c ∷ cs) p)
      (λ _. Consumes-cons c (skip_block-Consumes cs (after c p)))

pub span_end-Consumes :
    (test : ℕ → Bool) (cs : Bytes) (p : Pos) → Consumes cs p (span_end test cs p)
unfolding span_end
span_end-Consumes test [] p = Consumes-none [] p
span_end-Consumes test (c ∷ cs) p =
    if_cases (Consumes (c ∷ cs) p) (test c)
      (λ _. Consumes-cons c (span_end-Consumes test cs (after c p))) (λ _. Consumes-none (c ∷ cs) p)

-- A round of the comment loop that goes on has taken at least one byte.
abbrev pub Goes : Bytes → Pos → Skip → Type 0
Goes cs p stop = Unit
Goes cs p (again t) = Consumes cs p t × (length t.rest < length cs)

Goes-cons :
    (c : ℕ) (cs : Bytes) (p : Pos) {t : Cursor}
    → Consumes cs (after c p) t
    → Goes (c ∷ cs) p (again t)
Goes-cons c cs p h = (Consumes-cons c h, omega (arith, Consumes-length h))

skip_line_first :
    (c : ℕ) (cs : Bytes) (p : Pos)
    → (c == b'/') ≡ true
    → skip_line (c ∷ cs) p ≡ skip_line cs (after c p)
unfolding skip_line
skip_line_first c cs p e = ground arith

block-Goes :
    (c : ℕ) (cs : Bytes) (p : Pos)
    → Goes (c ∷ cs) p (let start = advance 2 (c ∷ cs) p in again (skip_block start.rest start.pos))
unfolding advance
block-Goes c cs p =
    let taken = advance-Consumes 1 cs (after c p) in
    Goes-cons c cs p (
      Consumes-trans taken
        (skip_block-Consumes (advance 1 cs (after c p)).rest (advance 1 cs (after c p)).pos))

pub skip_round-Goes : (c : ℕ) (cs : Bytes) (p : Pos) → Goes (c ∷ cs) p (skip_round c cs p)
skip_round-Goes c cs p =
    unfold skip_round in
    if_cases (Goes (c ∷ cs) p) (is_space c) (λ _. Goes-cons c cs p (Consumes-none cs (after c p)))
      (λ _.
        if_cases (Goes (c ∷ cs) p) (c == b'/' && peek_char cs == b'/')
          (λ e.
            rw (skip_line_first c cs p (ground arith))
              (Goes-cons c cs p (skip_line-Consumes cs (after c p))))
          (λ _.
            if_cases (Goes (c ∷ cs) p) (c == b'/' && peek_char cs == b'*') (λ _. block-Goes c cs p)
              (λ _. tt)))

pub skip-Consumes : (n : ℕ) (cs : Bytes) (p : Pos) → Consumes cs p (skip n cs p)
unfolding skip
skip-Consumes zero cs p = Consumes-none cs p
skip-Consumes (suc n) [] p = Consumes-none [] p
skip-Consumes (suc n) (c ∷ cs) p =
    go (skip_round c cs p) (skip_round-Goes c cs p) (λ t. skip-Consumes n t.rest t.pos)
  where
    go :
        (r : Skip)
        → Goes (c ∷ cs) p r
        → ((t : Cursor) → Consumes t.rest t.pos (skip n t.rest t.pos))
        → Consumes
            (c ∷ cs)
            p
            (elim r [ stop ↦ at (c ∷ cs) p | again next ↦ skip n next.rest next.pos ])
    go stop h rec = Consumes-none (c ∷ cs) p
    go (again t) h rec = Consumes-trans h.0 (rec t)
