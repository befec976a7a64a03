-- ===== src/Submission/Score.antt =====
-- internal/llm/tools/submit_trajectory.go: `scoreAndGate`, and the errors of internal/scoring/client.go.
pub mod Stamped
use ro_builder.Prelude.{
  ℕ, zero, suc, Bool, true, false, not, ◌&&◌, List, [], ◌∷◌, Option, none, some, String, str_eq,
  get_elem?, tagged, Result, ok, err, ◌>>=◌, if◌then◌else◌,
}
use ro_builder.Prelude.Int.{ℤ, pos, int_lt}
use ro_builder.Scoring.{Buff, AttackSkill, ScoreRequest, ScoreResponse}
use ro_builder.Domain.Gate.{GateResult}
use ro_builder.Domain.Profile.{ServerProfile}
use ro_builder.Domain.Snapshot.{Snapshot}
use ro_builder.Domain.Trajectory.{Trajectory}
use ro_builder.Domain.Build.{snapshot_request}
use ro_builder.Catalog.Load.{Catalog}
use ro_builder.Submission.Buffs.{BuffError, resolve_buffs}
use ro_builder.Submission.AttackSkills.{AttackError, resolve_attack_skills}
use ro_builder.Submission.Select.{select_scored_indices}

-- What the scoring client returns as an error: a status outside 2xx, or anything else.
pub data ScoringError : Type 0 where
  http_error : ℤ → String → ScoringError
  other_error : String → ScoringError

-- `IsClientError`
unfoldable pub is_client_error : ScoringError → Bool
is_client_error (http_error status message) =
    not (int_lt status (pos 400)) && int_lt status (pos 500)
is_client_error (other_error message) = false

-- `SubmitTrajectoryDeps`, its `Accept` aside. The calculator is a service: its answer may depend on
-- the call, which the number of the trajectory (0 for the primary) and the snapshot's index name.
pub record Deps (R : Type 0) : Type 0 where
  pub catalog : Option Catalog
  pub scoring : Option (ℕ → ℕ → ScoreRequest → Result ScoringError (ScoreResponse R))
  pub profile : Option (ServerProfile R)
  pub evaluate_gates : Option (ScoreResponse R → Snapshot R → List (GateResult R))

-- An error of `scoreAndGate`, with the snapshot's index. An index outside the trajectory would be a
-- panic in Go.
pub data ScoreError : Type 0 where
  bad_buff : ℕ → BuffError → ScoreError
  bad_attack : ℕ → AttackError → ScoreError
  scoring_failed : ℕ → ScoringError → ScoreError
  out_of_range : ℕ → ScoreError

-- `if calcVersion == "" && resp.CalcVersion != ""`
abbrev first_version : String → String → String
first_version so_far new = if str_eq so_far "" then new else so_far

-- `t.Snapshots[i] = s`
abbrev pub set_elem {ℓ} : {A : Type ℓ} → List A → ℕ → A → List A
set_elem [] i a = []
set_elem (x ∷ xs) zero a = a ∷ xs
set_elem (x ∷ xs) (suc i) a = x ∷ set_elem xs i a

module _ {R : Type 0} where
  -- The request that scores a snapshot.
  unfoldable pub request_for : Deps R → ℕ → Snapshot R → Result ScoreError ScoreRequest
  unfolding snapshot_request resolve_buffs resolve_attack_skills
  request_for deps i snap = do
    buffs ←
        tagged (bad_buff i) (resolve_buffs snap.class snap.skills snap.active_buffs deps.catalog)
    attacks ←
        tagged (bad_attack i)
          (resolve_attack_skills snap.class snap.skills snap.scored_skills deps.catalog)
    ok (record (snapshot_request snap deps.profile) { buffs = buffs; attack_skills = attacks })

  abbrev gated :
      Option (ScoreResponse R → Snapshot R → List (GateResult R))
      → ScoreResponse R
      → Snapshot R
      → Snapshot R
  gated none resp snap = snap
  gated (some evaluate) resp snap = record snap { gates = evaluate resp snap }

  -- `snap.Score = resp`, and the gates on the stamped snapshot.
  abbrev pub stamp : Deps R → Snapshot R → ScoreResponse R → Snapshot R
  stamp deps snap resp = gated deps.evaluate_gates resp (record snap { score = some resp })

  -- The body of the loop, on the snapshot at index `i`.
  unfoldable pub score_snapshot :
      Deps R
      → (ℕ → ScoreRequest → Result ScoringError (ScoreResponse R))
      → ℕ
      → Option (Snapshot R)
      → Result ScoreError (ScoreResponse R × Snapshot R)
  unfolding request_for
  score_snapshot deps client i none = err (out_of_range i)
  score_snapshot deps client i (some snap) = do
    req ← request_for deps i snap
    resp ← tagged (scoring_failed i) (client i req)
    ok (resp, stamp deps snap resp)

  -- The loop, on the snapshots so far and `calcVersion`. What an error leaves in the trajectory is
  -- not returned: the callers drop it.
  unfoldable pub score_indices :
      Deps R
      → (ℕ → ScoreRequest → Result ScoringError (ScoreResponse R))
      → List ℕ
      → List (Snapshot R)
      → String
      → Result ScoreError (List (Snapshot R) × String)
  unfolding score_snapshot
  score_indices deps client [] snaps version = ok (snaps, version)
  score_indices deps client (i ∷ rest) snaps version = do
    scored ← score_snapshot deps client i (get_elem? snaps i)
    score_indices deps client rest (set_elem snaps i scored.1)
        (first_version version scored.0.calc_version)

  abbrev pub with_snapshots : Trajectory R → List (Snapshot R) × String → Trajectory R × String
  with_snapshots t scored = (record t { snapshots = scored.0 }, scored.1)

  abbrev score_with :
      Deps R
      → Option (ℕ → ℕ → ScoreRequest → Result ScoringError (ScoreResponse R))
      → ℕ
      → Trajectory R
      → Result ScoreError (Trajectory R × String)
  score_with deps none number t = ok (t, "")
  score_with deps (some client) number t = do
    scored ← score_indices deps (client number) (select_scored_indices t) t.snapshots ""
    ok (with_snapshots t scored)

  -- `scoreAndGate`, of the trajectory with this number
  unfoldable pub score_and_gate :
      Deps R → ℕ → Trajectory R → Result ScoreError (Trajectory R × String)
  unfolding score_indices select_scored_indices
  score_and_gate deps number t = score_with deps deps.scoring number t
