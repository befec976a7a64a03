-- ===== src/Submission/Select.antt =====
-- internal/llm/tools/submit_trajectory.go: `SelectScoredIndices`. Go's map of seen indices is a list
-- without repetition, and `sort.Ints` an insertion sort.
pub mod Selected
use ro_builder.Prelude.{
  ℕ, suc, ◌-◌, Bool, true, false, not, ◌||◌, List, [], ◌∷◌, Option, none, some, str_eq, any, ◌==◌,
  leb, length, if◌then◌else◌,
}
use ro_builder.Prelude.Int.{pos, int_eq}
use ro_builder.Domain.Snapshot.{Snapshot}
use ro_builder.Domain.Trajectory.{Trajectory, same}

abbrev pub holds : List ℕ → ℕ → Bool
holds xs i = any (λ x. x == i) xs

-- `seen[i] = true`
unfoldable pub mark : ℕ → List ℕ → List ℕ
mark i seen = if holds seen i then seen else i ∷ seen

unfoldable pub insert : ℕ → List ℕ → List ℕ
insert i [] = i ∷ []
insert i (x ∷ rest) = let later = insert i rest in if leb i x then i ∷ x ∷ rest else x ∷ later

-- `sort.Ints`
unfoldable pub sort : List ℕ → List ℕ
unfolding insert
sort [] = []
sort (x ∷ rest) = insert x (sort rest)

module _ {R : Type 0} where
  -- `snap.Class != prev.Class || snap.PostRebirth != prev.PostRebirth`
  abbrev pub changes : Option (Snapshot R) → Snapshot R → Bool
  changes none s = false
  changes (some prev) s =
      not (str_eq s.class prev.class) || not (same s.post_rebirth prev.post_rebirth)

  abbrev pub is_checkpoint : Option (Snapshot R) → Snapshot R → Bool
  is_checkpoint prev s = int_eq s.level.base (pos 85) || changes prev s

  -- The loop, from snapshot `i` on.
  unfoldable pub mark_from : ℕ → Option (Snapshot R) → List (Snapshot R) → List ℕ → List ℕ
  unfolding mark
  mark_from i prev [] seen = seen
  mark_from i prev (s ∷ rest) seen =
      mark_from (suc i) (some s) rest (if is_checkpoint prev s then mark i seen else seen)

  unfoldable pub select_snapshots : List (Snapshot R) → List ℕ
  unfolding mark_from sort
  select_snapshots [] = []
  select_snapshots (s ∷ rest) = sort (mark_from 0 none (s ∷ rest) ((length (s ∷ rest) - 1) ∷ []))

  -- `SelectScoredIndices`, of a trajectory that is not nil
  unfoldable pub select_scored_indices : Trajectory R → List ℕ
  unfolding select_snapshots
  select_scored_indices t = select_snapshots t.snapshots
