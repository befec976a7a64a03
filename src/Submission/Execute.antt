-- ===== src/Submission/Execute.antt =====
-- internal/llm/tools/submit_trajectory.go: `Execute`, behind the decoding of its input. Texts
-- for the model are their parts.
pub mod Accepted
pub mod Refused
pub mod Sorting
use ro_builder.Prelude.{
  ℕ, suc, Bool, true, false, not, List, [], ◌∷◌, ◌++◌, Option, none, some, String, str_eq, tagged,
  length, Result, ok, err, ◌>>=◌, ◌>>◌, if◌then◌else◌,
}
use ro_builder.Prelude.Int.{ℤ}
use ro_builder.Scoring.{Level, ScoreResponse}
use ro_builder.Domain.Gate.{GateResult, is_pass, is_blocking}
use ro_builder.Domain.Snapshot.{Snapshot}
use ro_builder.Domain.Trajectory
use ro_builder.Domain.Trajectory.{TrajectoryError}
use ro_builder.Orchestrator.Session.{AcceptedSubmission}
use ro_builder.Submission.Buffs.{nil_endow}
use ro_builder.Submission.Select.{select_scored_indices}
use ro_builder.Submission.Scan.{Blocking, CheckpointReport, scan_gates, build_checkpoint_reports}
use ro_builder.Submission.Score.{
  Deps, ScoreError, bad_buff, bad_attack, scoring_failed, out_of_range, is_client_error,
  score_and_gate,
}

pub record SubmitTrajectoryInput (R : Type 0) : Type 0 where
  pub primary : Trajectory.Trajectory R
  pub alternatives : List (Trajectory.Trajectory R)

pub data DropReason (R : Type 0) : Type 0 where
  could_not_score : ScoreError → DropReason R
  gate_blocks : Blocking R → DropReason R

pub record DroppedAlternative (R : Type 0) : Type 0 where
  pub index : ℕ
  pub reason : DropReason R

pub data SubmitError (R : Type 0) : Type 0 where
  primary_invalid : TrajectoryError → SubmitError R
  alternative_invalid : ℕ → TrajectoryError → SubmitError R
  primary_scoring : ScoreError → SubmitError R
  submission_rejected : Blocking R → List (CheckpointReport R) → SubmitError R
  alternative_scoring : ℕ → ScoreError → SubmitError R

-- What `Execute` hands to the session and to the model.
pub record Commit (R : Type 0) : Type 0 where
  pub submission : AcceptedSubmission R
  pub dropped : List (DroppedAlternative R)
  pub reports : List (CheckpointReport R)

-- `submitTrajectoryAck`, its echo of the item names aside.
pub record Ack (R : Type 0) : Type 0 where
  pub accepted : Bool
  pub locked : Bool
  pub primary_snapshots : ℕ
  pub alternatives : ℕ
  pub checkpoints : List (CheckpointReport R)
  pub dropped_alternatives : List (DroppedAlternative R)

-- The errors that drop an alternative: the caller can fix them. A panic is none of them.
unfoldable pub is_caller_fixable : ScoreError → Bool
unfolding is_client_error
is_caller_fixable (bad_buff i nil_endow) = false
is_caller_fixable (bad_buff i e) = true
is_caller_fixable (bad_attack i e) = true
is_caller_fixable (scoring_failed i e) = is_client_error e
is_caller_fixable (out_of_range i) = false

-- What comes of the alternatives: those kept, and those dropped.
abbrev pub Sorted : Type 0 → Type 0
Sorted R = List (Trajectory.Trajectory R) × List (DroppedAlternative R)

-- The `Accept` callback, on the state that it closes over.
abbrev pub Accept : Type 0 → Type 0 → Type 0
Accept R S = S → AcceptedSubmission R → Bool × S

module _ {R : Type 0} where
  -- The loop that validates the alternatives.
  unfoldable pub validate_alternatives :
      ℕ → List (Trajectory.Trajectory R) → Result (SubmitError R) (Unit {0})
  unfolding Trajectory.validate
  validate_alternatives i [] = ok tt
  validate_alternatives i (t ∷ rest) = do
    tagged (alternative_invalid i) (Trajectory.validate t)
    validate_alternatives (suc i) rest

  abbrev keep_alternative : Trajectory.Trajectory R → Sorted R → Sorted R
  keep_alternative t others = (t ∷ others.0, others.1)

  abbrev drop_alternative : ℕ → DropReason R → Sorted R → Sorted R
  drop_alternative i reason others = (others.0, record { index = i; reason = reason } ∷ others.1)

  unfoldable pub sort_scanned :
      ℕ → Trajectory.Trajectory R → Option (Blocking R) → Sorted R → Sorted R
  sort_scanned i t none others = keep_alternative t others
  sort_scanned i t (some b) others = drop_alternative i (gate_blocks b) others

  -- The body of the loop over the alternatives, on the outcome of `scoreAndGate`.
  unfoldable pub sort_one :
      ℕ
      → Result ScoreError (Trajectory.Trajectory R × String)
      → Result (SubmitError R) (Sorted R → Sorted R)
  unfolding sort_scanned scan_gates is_caller_fixable
  sort_one i (ok scored) = ok (sort_scanned i scored.0 (scan_gates scored.0))
  sort_one i (err e) =
      if is_caller_fixable e
      then ok (drop_alternative i (could_not_score e))
      else err (alternative_scoring i e)

  unfoldable pub sort_alternatives :
      Deps R → ℕ → List (Trajectory.Trajectory R) → Result (SubmitError R) (Sorted R)
  unfolding sort_one score_and_gate
  sort_alternatives deps i [] = ok ([], [])
  sort_alternatives deps i (t ∷ rest) = do
    place ← sort_one i (score_and_gate deps (suc i) t)
    others ← sort_alternatives deps (suc i) rest
    ok (place others)

  unfoldable pub reject_blocked :
      Option (Blocking R) → List (CheckpointReport R) → Result (SubmitError R) (Unit {0})
  reject_blocked none reports = ok tt
  reject_blocked (some b) reports = err (submission_rejected b reports)

  abbrev pub commit_of : Trajectory.Trajectory R × String → Sorted R → Commit R
  commit_of scored sorted = record {
    submission = record { primary = scored.0; alternatives = sorted.0; calc_version = scored.1 };
    dropped = sorted.1;
    reports = build_checkpoint_reports scored.0;
  }

  -- Behind the scoring of the primary.
  unfoldable pub prepare_scored :
      Deps R
      → SubmitTrajectoryInput R
      → Trajectory.Trajectory R × String
      → Result (SubmitError R) (Commit R)
  unfolding build_checkpoint_reports reject_blocked scan_gates sort_alternatives
  prepare_scored deps input scored = do
    reject_blocked (scan_gates scored.0) (build_checkpoint_reports scored.0)
    sorted ← sort_alternatives deps 0 input.alternatives
    ok (commit_of scored sorted)

  -- `Execute` up to the callback.
  unfoldable pub prepare : Deps R → SubmitTrajectoryInput R → Result (SubmitError R) (Commit R)
  unfolding Trajectory.validate validate_alternatives score_and_gate prepare_scored
  prepare deps input = do
    tagged primary_invalid (Trajectory.validate input.primary)
    validate_alternatives 0 input.alternatives
    scored ← tagged primary_scoring (score_and_gate deps 0 input.primary)
    prepare_scored deps input scored

  abbrev call_accept : {S : Type 0} → Option (Accept R S) → S → AcceptedSubmission R → Bool × S
  call_accept none state submission = (true, state)
  call_accept (some accept) state submission = accept state submission

  abbrev ack_of : Bool → Commit R → Ack R
  ack_of locked c = record {
    accepted = true;
    locked = locked;
    primary_snapshots = length c.submission.primary.snapshots;
    alternatives = length c.submission.alternatives;
    checkpoints = c.reports;
    dropped_alternatives = c.dropped;
  }

  unfoldable pub finish :
      {S : Type 0}
      → Option (Accept R S)
      → S
      → Result (SubmitError R) (Commit R)
      → Result (SubmitError R) (Ack R) × S
  finish accept state (err e) = (err e, state)
  finish accept state (ok c) =
      let (locked, after) = call_accept accept state c.submission in (ok (ack_of locked c), after)

  -- `Execute`
  unfoldable pub execute :
      {S : Type 0}
      → Deps R
      → Option (Accept R S)
      → S
      → SubmitTrajectoryInput R
      → Result (SubmitError R) (Ack R) × S
  unfolding prepare finish
  execute deps accept state input = finish accept state (prepare deps input)
