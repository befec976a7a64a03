-- ===== src/Submission/Select/Selected.antt =====
-- Which snapshots `SelectScoredIndices` chooses.
use ro_builder.Prelude.{
  ℕ, zero, suc, ◌+◌, ◌-◌, ◌≤◌, ◌<◌, Bool, true, false, ◌⊎◌, ◌↔◌, ◌≢◌, eq_iff, ◌||◌, List, [], ◌∷◌,
  Option, none, some, ◌==◌, ==_iff, length, if◌then◌else◌, if_cases, iff_trans, ◌≡◌, ◌∙◌, refl,
  arith,
}
use ro_builder.Domain.Snapshot.{Snapshot}
use ro_builder.Prelude.Int.{pos, int_eq_iff}
use ro_builder.Domain.Trajectory.{Trajectory}
use ro_builder.Submission.Select.{
  holds, mark, insert, sort, is_checkpoint, mark_from, select_snapshots, select_scored_indices,
}

-- Strictly ascending, from above `low` on.
abbrev pub AscendingFrom : ℕ → List ℕ → Type 0
AscendingFrom low [] = Unit
AscendingFrom low (x ∷ rest) = (low ≤ x) × AscendingFrom (suc x) rest

abbrev NoTwice : List ℕ → Type 0
NoTwice [] = Unit
NoTwice (x ∷ rest) = (holds rest x ≡ false) × NoTwice rest

holds-insert : (i : ℕ) (xs : List ℕ) (j : ℕ) → holds (insert i xs) j ≡ ((i == j) || holds xs j)
unfolding insert
holds-insert i [] j = ground arith
holds-insert i (x ∷ rest) j = ground (arith, holds-insert i rest j)

holds-sort : (xs : List ℕ) (j : ℕ) → holds (sort xs) j ≡ holds xs j
unfolding sort
holds-sort [] j = refl
holds-sort (x ∷ rest) j = ground (arith, holds-insert x (sort rest) j, holds-sort rest j)

insert-AscendingFrom :
    (i low : ℕ) (xs : List ℕ)
    → low ≤ i
    → holds xs i ≡ false
    → AscendingFrom low xs
    → AscendingFrom low (insert i xs)
unfolding insert
insert-AscendingFrom i low [] h new a = ground arith
insert-AscendingFrom i low (x ∷ rest) h new a = ground (arith, insert-AscendingFrom i (suc x) rest)

sort-AscendingFrom : (xs : List ℕ) → NoTwice xs → AscendingFrom 0 (sort xs)
unfolding sort
sort-AscendingFrom [] h = tt
sort-AscendingFrom (x ∷ rest) h =
    insert-AscendingFrom x 0 (sort rest) (omega arith) (holds-sort rest x ∙ h.0)
      (sort-AscendingFrom rest h.1)

mark-NoTwice : (i : ℕ) (seen : List ℕ) → NoTwice seen → NoTwice (mark i seen)
unfolding mark
mark-NoTwice i seen h = ground arith

holds-mark : (i : ℕ) (seen : List ℕ) (j : ℕ) → holds (mark i seen) j ≡ ((i == j) || holds seen j)
unfolding mark
holds-mark i seen j = ground (arith, ==_iff i j)

shifted : (k n : ℕ) (b : Bool) → (((suc k == suc n) || b) ≡ true) ↔ (((k == n) || b) ≡ true)
shifted k n b = ground arith

module _ {R : Type 0} where
  -- Whether snapshot `k` of the list, the one after `prev`, is a checkpoint.
  abbrev pub checkpoint_at : Option (Snapshot R) → List (Snapshot R) → ℕ → Bool
  checkpoint_at prev [] k = false
  checkpoint_at prev (s ∷ rest) zero = is_checkpoint prev s
  checkpoint_at prev (s ∷ rest) (suc k) = checkpoint_at (some s) rest k

  mark_from-NoTwice :
      (i : ℕ) (prev : Option (Snapshot R)) (rest : List (Snapshot R)) (seen : List ℕ)
      → NoTwice seen
      → NoTwice (mark_from i prev rest seen)
  unfolding mark_from
  mark_from-NoTwice i prev [] seen h = h
  mark_from-NoTwice i prev (s ∷ rest) seen h =
      mark_from-NoTwice (suc i) (some s) rest (if is_checkpoint prev s then mark i seen else seen)
        (if_cases NoTwice (is_checkpoint prev s) (λ _. mark-NoTwice i seen h) (λ _. h))

  -- An index below the loop's is marked only if it was.
  mark_from-below :
      (i : ℕ) (prev : Option (Snapshot R)) (rest : List (Snapshot R)) (seen : List ℕ) (j : ℕ)
      → j < i
      → holds (mark_from i prev rest seen) j ≡ holds seen j
  unfolding mark_from
  mark_from-below i prev [] seen j h = refl
  mark_from-below i prev (s ∷ rest) seen j h = ground (
    arith,
    mark_from-below (suc i) (some s) rest (if is_checkpoint prev s then mark i seen else seen) j,
    holds-mark i seen j,
  )

  mark_from-at :
      (i : ℕ) (prev : Option (Snapshot R)) (rest : List (Snapshot R)) (seen : List ℕ) (k j : ℕ)
      → j ≡ i + k
      → holds (mark_from i prev rest seen) j ≡ (checkpoint_at prev rest k || holds seen j)
  unfolding mark_from
  mark_from-at i prev [] seen k j h = refl
  mark_from-at i prev (s ∷ rest) seen zero j h = ground (
    arith,
    mark_from-below (suc i) (some s) rest (if is_checkpoint prev s then mark i seen else seen) j,
    holds-mark i seen j,
    ==_iff i j,
    h,
  )
  mark_from-at i prev (s ∷ rest) seen (suc k) j h = ground (
    arith,
    mark_from-at (suc i) (some s) rest (if is_checkpoint prev s then mark i seen else seen) k j,
    holds-mark i seen j,
    ==_iff i j,
    h,
  )

  -- Another class or rebirth flag than the snapshot before.
  abbrev pub Turns : Option (Snapshot R) → Snapshot R → Type 0
  Turns none s = ⊥
  Turns (some prev) s = (s.class ≢ prev.class) ⊎ (s.post_rebirth ≢ prev.post_rebirth)

  -- Snapshot `k` of the list, the one after `prev`, must be scored: it is the last, at base level
  -- 85, or turns.
  abbrev pub MustScore : Option (Snapshot R) → List (Snapshot R) → ℕ → Type 0
  MustScore prev [] k = ⊥
  MustScore prev (s ∷ []) zero = Unit
  MustScore prev (s ∷ t ∷ rest) zero = (s.level.base ≡ pos 85) ⊎ Turns prev s
  MustScore prev (s ∷ rest) (suc k) = MustScore (some s) rest k

  is_checkpoint-Turns :
      (prev : Option (Snapshot R)) (s : Snapshot R)
      → (is_checkpoint prev s ≡ true) ↔ ((s.level.base ≡ pos 85) ⊎ Turns prev s)
  is_checkpoint-Turns none s = ground (arith, int_eq_iff s.level.base (pos 85))
  is_checkpoint-Turns (some p) s =
      ground (arith, int_eq_iff s.level.base (pos 85), eq_iff s.class p.class)

  chosen-MustScore :
      (prev : Option (Snapshot R)) (snaps : List (Snapshot R)) (k : ℕ)
      → (((suc k == length snaps) || checkpoint_at prev snaps k) ≡ true) ↔ MustScore prev snaps k
  chosen-MustScore prev [] k = ground arith
  chosen-MustScore prev (s ∷ []) zero = ground arith
  chosen-MustScore prev (s ∷ []) (suc k) = ground arith
  chosen-MustScore prev (s ∷ t ∷ rest) zero = ground (arith, is_checkpoint-Turns prev s)
  chosen-MustScore prev (s ∷ t ∷ rest) (suc k) =
      iff_trans (shifted (suc k) (length (t ∷ rest)) (checkpoint_at (some s) (t ∷ rest) k))
        (chosen-MustScore (some s) (t ∷ rest) k)

  pub last-MustScore :
      (snaps : List (Snapshot R)) (k : ℕ) → (suc k == length snaps) ≡ true → MustScore none snaps k
  last-MustScore snaps k last = (chosen-MustScore none snaps k).0 (ground (arith, last))

  -- The indices that are scored: ascending, and of exactly the last snapshot and the checkpoints.
  pub record Selected (snaps : List (Snapshot R)) (out : List ℕ) : Type 0 where
    pub ascending : AscendingFrom 0 out
    pub exact : (i : ℕ) → (holds out i ≡ true) ↔ MustScore none snaps i

  select_snapshots-Selected : (snaps : List (Snapshot R)) → Selected snaps (select_snapshots snaps)
  unfolding select_snapshots
  select_snapshots-Selected [] = record { ascending = tt; exact = λ i. ground arith }
  select_snapshots-Selected (s ∷ rest) =
      let marked = mark_from 0 none (s ∷ rest) ((length (s ∷ rest) - 1) ∷ []) in
      record {
        ascending =
            sort-AscendingFrom marked
              (mark_from-NoTwice 0 none (s ∷ rest) ((length (s ∷ rest) - 1) ∷ []) (refl, tt));
        exact = λ i.
            let is_chosen : holds (sort marked) i
                ≡ ((suc i == length (s ∷ rest)) || checkpoint_at none (s ∷ rest) i) =
              ground (
                arith,
                holds-sort marked i,
                mark_from-at 0 none (s ∷ rest) ((length (s ∷ rest) - 1) ∷ []) i i,
              ) in
            rw (is_chosen) (chosen-MustScore none (s ∷ rest) i);
      }

  -- `SelectScoredIndices` lists, strictly ascending, exactly the index of the last snapshot and the indices of the snapshots at base
  -- level 85 or with another class or rebirth flag than the snapshot before them.
  pub select_scored_indices-Selected :
      (t : Trajectory R) → Selected t.snapshots (select_scored_indices t)
  unfolding select_scored_indices
  select_scored_indices-Selected t = select_snapshots-Selected t.snapshots
