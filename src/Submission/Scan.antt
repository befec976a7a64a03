-- ===== src/Submission/Scan.antt =====
-- internal/llm/tools/submit_trajectory.go: the gate scan and the checkpoint reports.
use ro_builder.Prelude.{
  ℕ, suc, List, [], ◌∷◌, ◌++◌, Option, none, some, String, get_elem?, if◌then◌else◌,
}
use ro_builder.Prelude.Int.{ℤ}
use ro_builder.Scoring.{Level, ScoreResponse}
use ro_builder.Domain.Gate.{GateResult, is_pass, is_blocking}
use ro_builder.Domain.Snapshot.{Snapshot}
use ro_builder.Domain.Trajectory
use ro_builder.Submission.Select.{select_scored_indices}

-- The gate that `scanGates` names, and where.
pub record Blocking (R : Type 0) : Type 0 where
  pub snapshot_index : ℕ
  pub class : String
  pub gate : GateResult R

-- `checkpointReport`, its two rendered summaries aside.
pub record CheckpointReport (R : Type 0) : Type 0 where
  pub snapshot_index : ℕ
  pub class : String
  pub level : Level
  pub stat_points_remaining : ℤ
  pub gates : List (GateResult R)

module _ {R : Type 0} where
  unfoldable pub first_blocking : List (GateResult R) → Option (GateResult R)
  unfolding is_blocking
  first_blocking [] = none
  first_blocking (g ∷ rest) =
      let later = first_blocking rest in if is_blocking g then some g else later

  unfoldable pub scan_snapshots : ℕ → List (Snapshot R) → Option (Blocking R)
  unfolding first_blocking
  scan_snapshots i [] = none
  scan_snapshots i (s ∷ rest) = elim (first_blocking s.gates) [
    | some g ↦ some (record { snapshot_index = i; class = s.class; gate = g })
    | none ↦ scan_snapshots (suc i) rest
  ]

  -- `scanGates`
  unfoldable pub scan_gates : Trajectory.Trajectory R → Option (Blocking R)
  unfolding scan_snapshots
  scan_gates t = scan_snapshots 0 t.snapshots

  unfoldable pub open_gates : List (GateResult R) → List (GateResult R)
  unfolding is_pass
  open_gates [] = []
  open_gates (g ∷ rest) = let later = open_gates rest in if is_pass g then later else g ∷ later

  -- One round of `buildCheckpointReports`: a snapshot without a score is skipped.
  abbrev report_of : ℕ → Snapshot R → Option (ScoreResponse R) → List (CheckpointReport R)
  report_of i s none = []
  report_of i s (some score) =
      record {
        snapshot_index = i;
        class = s.class;
        level = s.level;
        stat_points_remaining = score.derived.stat_points_remaining;
        gates = open_gates s.gates;
      }
      ∷ []

  abbrev report_at : ℕ → Option (Snapshot R) → List (CheckpointReport R)
  report_at i none = []
  report_at i (some s) = report_of i s s.score

  unfoldable pub reports_of : List (Snapshot R) → List ℕ → List (CheckpointReport R)
  unfolding open_gates
  reports_of snaps [] = []
  reports_of snaps (i ∷ rest) = report_at i (get_elem? snaps i) ++ reports_of snaps rest

  -- `buildCheckpointReports`
  unfoldable pub build_checkpoint_reports : Trajectory.Trajectory R → List (CheckpointReport R)
  unfolding reports_of select_scored_indices
  build_checkpoint_reports t = reports_of t.snapshots (select_scored_indices t)
