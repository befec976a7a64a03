-- ===== src/Submission/Execute/Refused.antt =====
-- Exactly when `Execute` refuses a submission.
use ro_builder.Prelude.{
  ℕ, suc, true, List, [], ◌∷◌, Option, none, some, String, Result, ok, err, ◌>>=◌, ◌>>◌, is_ok,
  is_ok-bind, is_ok-then, is_ok-last, iff_trans, tagged, tagged_iff, ◌≡◌, ◌↔◌, arith, All,
}
use ro_builder.Domain.Trajectory
use ro_builder.Domain.Trajectory.{TrajectoryError}
use ro_builder.Submission.Scan.{Blocking, CheckpointReport, scan_gates, build_checkpoint_reports}
use ro_builder.Submission.Score.{Deps, ScoreError, score_and_gate}
use ro_builder.Submission.Execute.{
  SubmitTrajectoryInput, SubmitError, validate_alternatives, sort_one, sort_alternatives,
  reject_blocked, prepare, prepare_scored, commit_of, primary_invalid, primary_scoring,
  alternative_invalid,
}
use ro_builder.Submission.Execute.Sorting.{IsOpen, scan_gates_iff, CanFix, is_caller_fixable-CanFix}

module _ {R : Type 0} where
  abbrev pub AllValid : List (Trajectory.Trajectory R) → Type 0
  AllValid ts = All (λ t. Trajectory.validate t ≡ ok tt) ts

  -- An alternative whose scoring did not fail, or failed in a way that the caller can fix.
  abbrev pub IsJudged : Result ScoreError (Trajectory.Trajectory R × String) → Type 0
  IsJudged (ok scored) = Unit
  IsJudged (err e) = CanFix e

  abbrev pub AllJudged : Deps R → ℕ → List (Trajectory.Trajectory R) → Type 0
  AllJudged deps i [] = Unit
  AllJudged deps i (t ∷ rest) =
      IsJudged (score_and_gate deps (suc i) t) × AllJudged deps (suc i) rest

  -- The primary was scored, and no gate of it blocks.
  abbrev pub ScoredOpen : Result ScoreError (Trajectory.Trajectory R × String) → Type 0
  ScoredOpen (ok scored) = IsOpen scored.0
  ScoredOpen (err e) = ⊥

  validate_alternatives_iff :
      (i : ℕ) (ts : List (Trajectory.Trajectory R))
      → (validate_alternatives i ts ≡ ok tt) ↔ AllValid ts
  unfolding validate_alternatives
  validate_alternatives_iff i [] = ground arith
  validate_alternatives_iff i (t ∷ rest) = ground (
    arith,
    validate_alternatives_iff (suc i) rest,
    tagged_iff {F = SubmitError R} (alternative_invalid i) (Trajectory.validate t),
  )

  sort_one_iff :
      (i : ℕ) (r : Result ScoreError (Trajectory.Trajectory R × String))
      → (is_ok (sort_one i r) ≡ true) ↔ IsJudged r
  unfolding sort_one
  sort_one_iff i (ok scored) = ground arith
  sort_one_iff i (err e) = ground (arith, is_caller_fixable-CanFix e)

  sort_alternatives_iff :
      (deps : Deps R) (i : ℕ) (ts : List (Trajectory.Trajectory R))
      → (is_ok (sort_alternatives deps i ts) ≡ true) ↔ AllJudged deps i ts
  unfolding sort_alternatives
  sort_alternatives_iff deps i [] = ground arith
  sort_alternatives_iff deps i (t ∷ rest) =
      is_ok-bind (sort_one i (score_and_gate deps (suc i) t))
        (λ place. sort_alternatives deps (suc i) rest >>= (λ others. ok (place others)))
        (IsJudged (score_and_gate deps (suc i) t)) (AllJudged deps (suc i) rest)
        (sort_one_iff i (score_and_gate deps (suc i) t))
        (λ place.
          iff_trans (is_ok-last (sort_alternatives deps (suc i) rest) place)
            (sort_alternatives_iff deps (suc i) rest))

  reject_found_iff :
      (blocked : Option (Blocking R)) (reports : List (CheckpointReport R))
      → (reject_blocked blocked reports ≡ ok tt) ↔ (blocked ≡ none)
  unfolding reject_blocked
  reject_found_iff none reports = ground arith
  reject_found_iff (some b) reports = ground arith

  reject_blocked_iff :
      (t : Trajectory.Trajectory R) (reports : List (CheckpointReport R))
      → (reject_blocked (scan_gates t) reports ≡ ok tt) ↔ IsOpen t
  reject_blocked_iff t reports =
      iff_trans (reject_found_iff (scan_gates t) reports) (scan_gates_iff t)

  prepare_scored_iff :
      (deps : Deps R) (input : SubmitTrajectoryInput R)
      → (scored : Trajectory.Trajectory R × String)
      → (is_ok (prepare_scored deps input scored) ≡ true)
        ↔ (IsOpen scored.0 × AllJudged deps 0 input.alternatives)
  unfolding prepare_scored
  prepare_scored_iff deps input scored = ground (
    arith,
    is_ok-then (reject_blocked (scan_gates scored.0) (build_checkpoint_reports scored.0))
        (sort_alternatives deps 0 input.alternatives >>= (λ sorted. ok (commit_of scored sorted)))
        (iff_trans (is_ok-last (sort_alternatives deps 0 input.alternatives) (commit_of scored))
          (sort_alternatives_iff deps 0 input.alternatives)),
    reject_blocked_iff scored.0 (build_checkpoint_reports scored.0),
  )

  behind_scoring_iff :
      (deps : Deps R) (input : SubmitTrajectoryInput R)
      → (r : Result ScoreError (Trajectory.Trajectory R × String))
      → (is_ok (tagged primary_scoring r >>= prepare_scored deps input) ≡ true)
        ↔ (ScoredOpen r × AllJudged deps 0 input.alternatives)
  behind_scoring_iff deps input (ok scored) = prepare_scored_iff deps input scored
  behind_scoring_iff deps input (err e) = ground arith

  -- `Execute` commits a submission exactly when the primary and every alternative is valid, the primary is scored without an
  -- error and no gate of it blocks, and the scoring of each alternative either works or fails in a way that the caller can
  -- fix, on a declared buff or skill or with a 4xx answer: a gate or such an error of an alternative never refuses the submission, and any other error always does.
  pub prepare-is_ok :
      (deps : Deps R) (input : SubmitTrajectoryInput R)
      → (is_ok (prepare deps input) ≡ true) ↔ (
          (Trajectory.validate input.primary ≡ ok tt)
          × AllValid input.alternatives
          × ScoredOpen (score_and_gate deps 0 input.primary)
          × AllJudged deps 0 input.alternatives)
  unfolding prepare
  prepare-is_ok deps input =
      iff_trans
        (is_ok-then (tagged primary_invalid (Trajectory.validate input.primary))
          (validate_alternatives 0 input.alternatives
            >> (tagged primary_scoring (score_and_gate deps 0 input.primary)
                >>= prepare_scored deps input))
          (is_ok-then (validate_alternatives 0 input.alternatives)
            (tagged primary_scoring (score_and_gate deps 0 input.primary)
              >>= prepare_scored deps input)
            (behind_scoring_iff deps input (score_and_gate deps 0 input.primary))))
        (ground (
          arith,
          tagged_iff {F = SubmitError R} primary_invalid (Trajectory.validate input.primary),
          validate_alternatives_iff 0 input.alternatives,
        ))
