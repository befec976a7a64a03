-- ===== src/Tests/Submission.antt =====
-- Submissions of a knight. Floats are numbers here.
use ro_builder.Prelude.{
  ℕ, true, List, [], ◌∷◌, none, some, ok, err, is_ok, ◌≡◌, ◌↔◌, refl, map, Result,
}
use ro_builder.Prelude.Int.{pos, int_lt, int_eq}
use ro_builder.Scoring.{Buff, AttackSkill, ScoreRequest, ScoreResponse}
use ro_builder.Domain.Gate.{is_pass, is_blocking}
use ro_builder.Domain.Snapshot
use ro_builder.Domain.Snapshot.{Snapshot, ActiveBuff, ScoredSkill}
use ro_builder.Domain.Trajectory
use ro_builder.Domain.Trajectory.{skill_level}
use ro_builder.BuildLibrary.Saved.{summarize_and_guard}
use ro_builder.Gates.Inputs.{derive_scenario_type, effective_stats, primary_attack_skill, is_mvp}
use ro_builder.Gates.Cast.{evaluate_cast_time, evaluate_uninterruptible_cast}
use ro_builder.Gates.Status.{evaluate_status_immunity}
use ro_builder.Gates.Survival.{evaluate_ehp, evaluate_ttk}
use ro_builder.Gates.Offense.{evaluate_requirements, evaluate_hit, evaluate_flee}
use ro_builder.Catalog.Load.{catalog_of}
use ro_builder.Catalog.Classes.{ClassSkill, class_buffs, class_attack_skills}
use ro_builder.Submission.Buffs.{resolve_buffs, buff_maps}
use ro_builder.Submission.Buffs.Resolves.{AllFit, resolve_buffs-AllFit}
use ro_builder.Submission.AttackSkills.{resolve_attack_skills, attacks_by_name}
use ro_builder.Submission.AttackSkills.Resolves.{
  AllScore, OnePrimary, resolve_attack_skills-AllScore,
}
use ro_builder.Submission.Select.{select_scored_indices}
use ro_builder.Submission.Select.Selected.{Selected, select_scored_indices-Selected}
use ro_builder.Submission.Score.{ScoringError, stamp, score_and_gate}
use ro_builder.Submission.Score.Stamped.{Stamped, score_and_gate-Stamped}
use ro_builder.Submission.Execute.{SubmitTrajectoryInput, Commit, prepare, commit_of}
use ro_builder.Submission.Execute.Accepted.{Prepared, prepare-Prepared}
use ro_builder.Submission.Execute.Refused.{AllValid, AllJudged, ScoredOpen, prepare-is_ok}
use ro_builder.Submission.Publishes.{prepare-Publishable}
use ro_builder.Submission.Sessions.{submit_calls, outcome_of, submit_calls-Answers}
use ro_builder.Orchestrator.Session.{Answers, new_session}
use ro_builder.Orchestrator.Wiring.{Environment, deps_of, evaluate_gates_for}
use ro_builder.Tests.BuildLibrary.{response}
use ro_builder.Tests.Catalog.{catalog}
use ro_builder.Tests.Domain.{knight}
use ro_builder.Tests.Gates.{numbers}

abbrev pub hero : Snapshot ℕ
hero = record knight {
  skills = record { id = pos 5; level = pos 10 } ∷ record { id = pos 280; level = pos 3 } ∷ [];
  active_buffs = record { name = "mild_wind"; element = "holy" } ∷ [];
  scored_skills = record { name = "bash"; primary = true } ∷ [];
}

abbrev pub path : Trajectory.Trajectory ℕ
path = record {
  class = "knight";
  snapshots = knight ∷ record hero { level = record { base = pos 99; job = pos 50 } } ∷ [];
}

abbrev available : List ClassSkill
available = elim (class_buffs catalog "knight") [ none ↦ [] | some l ↦ l ]

abbrev scoreable : List ClassSkill
scoreable = elim (class_attack_skills catalog "knight") [ none ↦ [] | some l ↦ l ]

abbrev wind : List Buff
wind = record { name = "mild_wind"; level = pos 3; element = "holy" } ∷ []

abbrev bashes : List AttackSkill
bashes = record { name = "bash"; level = pos 10; primary = true } ∷ []

known_buffs : class_buffs catalog "knight" ≡ some available
unfolding class_buffs catalog_of
known_buffs = refl

known_attacks : class_attack_skills catalog "knight" ≡ some scoreable
unfolding class_attack_skills catalog_of
known_attacks = refl

winds : resolve_buffs "knight" hero.skills hero.active_buffs (some catalog) ≡ ok wind
unfolding resolve_buffs catalog_of int_lt int_eq
winds = refl

resolve_buffs-AllFit_example :
    (resolve_buffs "knight" hero.skills hero.active_buffs (some catalog) ≡ ok wind)
    ↔ AllFit (buff_maps catalog "knight" available) hero.skills hero.active_buffs wind
resolve_buffs-AllFit_example =
    resolve_buffs-AllFit "knight" hero.skills hero.active_buffs catalog available wind known_buffs

abbrev bash_declared : ScoredSkill
bash_declared = record { name = "bash"; primary = true }

resolve_attack_skills-AllScore_example :
    (resolve_attack_skills "knight" hero.skills (bash_declared ∷ []) (some catalog) ≡ ok bashes) ↔ (
      AllScore (attacks_by_name [] scoreable) hero.skills [] (bash_declared ∷ []) bashes
      × OnePrimary (bash_declared ∷ []))
resolve_attack_skills-AllScore_example =
    resolve_attack_skills-AllScore "knight" hero.skills bash_declared [] catalog scoreable bashes
      known_attacks

last_only : select_scored_indices path ≡ 1 ∷ []
unfolding select_scored_indices int_eq
last_only = refl

select_scored_indices-Selected_example : Selected path.snapshots (select_scored_indices path)
select_scored_indices-Selected_example = select_scored_indices-Selected path

hero_valid : Snapshot.validate hero ≡ ok tt
unfolding Snapshot.validate int_lt int_eq
hero_valid = refl

abbrev client : ℕ → ℕ → ScoreRequest → Result ScoringError (ScoreResponse ℕ)
client number i req = ok response

abbrev pub environment : Environment ℕ
environment = record {
  floats = numbers;
  catalog = some catalog;
  client = some client;
  profile = none;
  ignore_status = [];
  playstyle = "pvm";
}

abbrev endgame : Snapshot ℕ
endgame = record hero { level = record { base = pos 99; job = pos 50 } }

abbrev stamped_path : Trajectory.Trajectory ℕ
stamped_path = record path {
  snapshots = knight ∷ stamp (deps_of environment) endgame response ∷ [];
}

scores : score_and_gate (deps_of environment) 0 path ≡ ok (stamped_path, "v1")
unfolding score_and_gate catalog_of int_lt int_eq
scores = refl

score_and_gate-Stamped_example : Stamped (deps_of environment) (client 0) path stamped_path
score_and_gate-Stamped_example =
    score_and_gate-Stamped (deps_of environment) client 0 path stamped_path "v1" refl scores

-- The alternative declares a buff of no class, and is dropped.
abbrev pub input : SubmitTrajectoryInput ℕ
input = record {
  primary = path;
  alternatives =
      record path {
        snapshots =
            record hero { active_buffs = record { name = "spurt"; element = "" } ∷ [] } ∷ [];
      }
      ∷ [];
}

abbrev commit : Commit ℕ
commit = elim (prepare (deps_of environment) input) [
  | ok c ↦ c
  | err e ↦ commit_of (path, "") ([], [])
]

commits : prepare (deps_of environment) input ≡ ok commit
unfolding prepare catalog_of int_lt int_eq evaluate_gates_for is_pass is_blocking
    derive_scenario_type effective_stats primary_attack_skill Snapshot.validate
    evaluate_requirements evaluate_hit evaluate_flee evaluate_ehp evaluate_ttk is_mvp
    evaluate_cast_time evaluate_status_immunity evaluate_uninterruptible_cast
commits = refl

prepare-Prepared_example : Prepared (deps_of environment) input commit
prepare-Prepared_example = prepare-Prepared (deps_of environment) input commit commits

prepare-is_ok_example : (is_ok (prepare (deps_of environment) input) ≡ true) ↔ (
    (Trajectory.validate input.primary ≡ ok tt)
    × AllValid input.alternatives
    × ScoredOpen (score_and_gate (deps_of environment) 0 input.primary)
    × AllJudged (deps_of environment) 0 input.alternatives)
prepare-is_ok_example = prepare-is_ok (deps_of environment) input

prepare-Publishable_example :
    is_ok (summarize_and_guard commit.submission.primary commit.submission.alternatives) ≡ true
prepare-Publishable_example =
    prepare-Publishable environment input commit client refl (λ e. cc) (refl, (refl, tt)) commits

submit_calls-Answers_example :
    Answers new_session
      (map outcome_of ((environment, input) ∷ (environment, input) ∷ []))
      (submit_calls new_session ((environment, input) ∷ (environment, input) ∷ []))
submit_calls-Answers_example =
    submit_calls-Answers ((environment, input) ∷ (environment, input) ∷ [])
