-- ===== src/Orchestrator/Wiring.antt =====
-- internal/orchestrator/orchestrator.go: the submit_trajectory tool as `Generate` wires it for a
-- request, over the catalog, the calculator, the profile and the session. Logging is left out.
use ro_builder.Prelude.{ℕ, Bool, List, [], Option, none, some, String, Result}
use ro_builder.Scoring.{Floats, ScoreRequest, ScoreResponse}
use ro_builder.Domain.Gate.{GateResult}
use ro_builder.Domain.Profile.{ServerProfile}
use ro_builder.Domain.Snapshot.{Snapshot}
use ro_builder.Domain.Trajectory.{clean}
use ro_builder.Gates.Inputs
use ro_builder.Gates.Evaluate.{evaluate}
use ro_builder.Catalog.Load.{Catalog, item, mob, skill}
use ro_builder.Submission.Score.{ScoringError, Deps}
use ro_builder.Submission.Execute.{SubmitTrajectoryInput, SubmitError, Ack, execute}
use ro_builder.Orchestrator.Session.{Session, AcceptedSubmission, accept, record_attempt}

-- What the closures of `Generate` close over.
pub record Environment (R : Type 0) : Type 0 where
  pub floats : Floats R
  pub catalog : Option Catalog
  pub client : Option (ℕ → ℕ → ScoreRequest → Result ScoringError (ScoreResponse R))
  pub profile : Option (ServerProfile R)
  pub ignore_status : List String
  pub playstyle : String

-- The catalog as the gates read it.
abbrev pub lookups : Catalog → Inputs.Catalog
lookups c = record { skill = skill c; item = item c; mob = mob c }

module _ {R : Type 0} where
  abbrev pub gate_inputs : Environment R → Catalog → ScoreResponse R → Snapshot R → Inputs.Inputs R
  gate_inputs env c resp snap = record {
    score = some resp;
    snapshot = some snap;
    catalog = some (lookups c);
    profile = env.profile;
    scenario = snap.leveling_target;
    ignore_status = env.ignore_status;
    playstyle = env.playstyle;
  }

  abbrev pub gates_with :
      Environment R → Option Catalog → ScoreResponse R → Snapshot R → List (GateResult R)
  gates_with env none resp snap = []
  gates_with env (some c) resp snap = evaluate env.floats (gate_inputs env c resp snap)

  -- The closure `EvaluateGates`
  unfoldable pub evaluate_gates_for :
      Environment R → ScoreResponse R → Snapshot R → List (GateResult R)
  unfolding evaluate item mob skill
  evaluate_gates_for env resp snap = gates_with env env.catalog resp snap

  -- The `SubmitTrajectoryDeps` of a request.
  abbrev pub deps_of : Environment R → Deps R
  deps_of env = record {
    catalog = env.catalog;
    scoring = env.client;
    profile = env.profile;
    evaluate_gates = some (evaluate_gates_for env);
  }

  -- The closure `Accept`
  unfoldable pub accept_into : Session R → AcceptedSubmission R → Bool × Session R
  unfolding accept clean
  accept_into s a = accept s a (clean a.primary)

  -- A call of the tool, counted ahead of it.
  unfoldable pub submit_call :
      Environment R
      → Session R
      → SubmitTrajectoryInput R
      → Result (SubmitError R) (Ack R) × Session R
  unfolding execute accept_into record_attempt
  submit_call env s input = execute (deps_of env) (some accept_into) (record_attempt s) input
