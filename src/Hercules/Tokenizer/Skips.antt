-- ===== src/Hercules/Tokenizer/Skips.antt =====
-- `skipWhitespaceAndComments` ends, and ends where a token or the end of the source is.
use ro_builder.Prelude.{
  ℕ, zero, suc, ◌≤◌, false, ◌&&◌, ◌||◌, [], ◌∷◌, length, ◌==◌, ◌≡◌, refl, arith,
}
use ro_builder.Hercules.Cursor.{
  Bytes, Pos, Cursor, at, peek_char, is_space, Skip, stop, again, skip_round, skip,
}
use ro_builder.Hercules.Tokenizer.Consumes.{Goes, skip_round-Goes}

-- The source is used up, or its first byte is neither white space nor the start of a comment.
abbrev pub AtToken : Bytes → Type 0
AtToken [] = Unit
AtToken (c ∷ cs) =
    (is_space c ≡ false) × ((c == b'/' && (peek_char cs == b'/' || peek_char cs == b'*')) ≡ false)

skip_round-AtToken : (c : ℕ) (cs : Bytes) (p : Pos) → skip_round c cs p ≡ stop → AtToken (c ∷ cs)
skip_round-AtToken c cs p h = unfold skip_round in ground arith

-- The loop ends by its own test within as many rounds as the source has bytes, and it stops at
-- the end of the source or at a byte that is neither white space nor the start of a comment.
pub skip-AtToken : (n : ℕ) (cs : Bytes) (p : Pos) → length cs ≤ n → AtToken (skip n cs p).rest
unfolding skip
skip-AtToken zero [] p h = tt
skip-AtToken zero (c ∷ cs) p h = absurd (omega arith)
skip-AtToken (suc n) [] p h = tt
skip-AtToken (suc n) (c ∷ cs) p h =
    go (skip_round c cs p) (skip_round-Goes c cs p) (skip_round-AtToken c cs p)
      (λ t. skip-AtToken n t.rest t.pos)
  where
    go :
        (r : Skip)
        → Goes (c ∷ cs) p r
        → (r ≡ stop → AtToken (c ∷ cs))
        → ((t : Cursor) → length t.rest ≤ n → AtToken (skip n t.rest t.pos).rest)
        → AtToken
            (Cursor.rest (elim r [ stop ↦ at (c ∷ cs) p | again next ↦ skip n next.rest next.pos ]))
    go stop g here rec = here refl
    go (again t) g here rec = rec t (omega arith)
