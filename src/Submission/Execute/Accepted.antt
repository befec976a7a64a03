-- ===== src/Submission/Execute/Accepted.antt =====
-- What an accepted submission holds, and which errors refuse one.
use ro_builder.Prelude.{
  List, Option, none, some, String, ok, ◌>>=◌, ◌>>◌, >>=-ok_inv, ok_inj, tagged, tagged-ok_inv,
  >>-ok_inv, ◌≡◌, refl,
}
use ro_builder.Domain.Trajectory
use ro_builder.Submission.Scan.{CheckpointReport, Blocking, scan_gates, build_checkpoint_reports}
use ro_builder.Submission.Score.{Deps, score_and_gate}
use ro_builder.Submission.Execute.{
  SubmitTrajectoryInput, Commit, validate_alternatives, sort_alternatives, reject_blocked, prepare,
  prepare_scored, commit_of, primary_invalid, primary_scoring,
}
use ro_builder.Submission.Execute.Sorting.{
  IsOpen, scan_gates_iff, SortsTo, sort_alternatives-SortsTo,
}

module _ {R : Type 0} where
  pub record Prepared (deps : Deps R) (input : SubmitTrajectoryInput R) (c : Commit R)
      : Type 0 where
    pub valid : Trajectory.validate input.primary ≡ ok tt
    pub scored :
        score_and_gate deps 0 input.primary ≡ ok (c.submission.primary, c.submission.calc_version)
    pub primary_open : IsOpen c.submission.primary
    pub alternatives : SortsTo deps 0 input.alternatives c.submission.alternatives c.dropped
    pub reported : c.reports ≡ build_checkpoint_reports c.submission.primary

  reject_blocked-IsOpen :
      (t : Trajectory.Trajectory R) (blocked : Option (Blocking R))
      → (reports : List (CheckpointReport R)) → scan_gates t ≡ blocked
      → reject_blocked blocked reports ≡ ok tt
      → IsOpen t
  unfolding reject_blocked
  reject_blocked-IsOpen t none reports e h = (scan_gates_iff t).0 e
  reject_blocked-IsOpen t (some b) reports e h = cc

  prepare_scored-Prepared :
      (deps : Deps R) (input : SubmitTrajectoryInput R)
      → (scored : Trajectory.Trajectory R × String) (c : Commit R)
      → Trajectory.validate input.primary ≡ ok tt
      → score_and_gate deps 0 input.primary ≡ ok scored
      → prepare_scored deps input scored ≡ ok c
      → Prepared deps input c
  unfolding prepare_scored
  prepare_scored-Prepared deps input scored c valid run done =
      let (passed, later) =
        >>-ok_inv (reject_blocked (scan_gates scored.0) (build_checkpoint_reports scored.0))
          (sort_alternatives deps 0 input.alternatives >>= (λ sorted. ok (commit_of scored sorted)))
          done in
      let (sorted, kept, last) =
        >>=-ok_inv (sort_alternatives deps 0 input.alternatives)
          (λ sorted. ok (commit_of scored sorted)) later in
      rw (← ok_inj (commit_of scored sorted) c last) (record {
        valid = valid;
        scored = run;
        primary_open =
            reject_blocked-IsOpen scored.0 (scan_gates scored.0) (build_checkpoint_reports scored.0)
              refl passed;
        alternatives = sort_alternatives-SortsTo deps 0 input.alternatives sorted kept;
        reported = refl;
      })

  -- A submission that `Execute` commits has a valid primary; the primary it commits is the scored one and no gate of any of its
  -- snapshots blocks; each alternative, in order, is kept as it is scored when no gate of it blocks, and dropped under its index when a gate
  -- blocks or its scoring failed in a way that the caller can fix; and the reports are the primary's.
  pub prepare-Prepared :
      (deps : Deps R) (input : SubmitTrajectoryInput R) (c : Commit R)
      → prepare deps input ≡ ok c
      → Prepared deps input c
  unfolding prepare
  prepare-Prepared deps input c done =
      let (valid, checked) =
        >>-ok_inv (tagged primary_invalid (Trajectory.validate input.primary))
          (validate_alternatives 0 input.alternatives
            >> (tagged primary_scoring (score_and_gate deps 0 input.primary)
                >>= prepare_scored deps input))
          done in
      let (_, unscored) =
        >>-ok_inv (validate_alternatives 0 input.alternatives)
          (tagged primary_scoring (score_and_gate deps 0 input.primary)
            >>= prepare_scored deps input)
          checked in
      let (scored, run, later) =
        >>=-ok_inv (tagged primary_scoring (score_and_gate deps 0 input.primary))
          (prepare_scored deps input) unscored in
      prepare_scored-Prepared deps input scored c
        (tagged-ok_inv primary_invalid (Trajectory.validate input.primary) valid)
        (tagged-ok_inv primary_scoring (score_and_gate deps 0 input.primary) run) later
