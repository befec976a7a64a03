-- ===== src/Tests/Domain.antt =====
-- Trajectories that the validator accepts and refuses. Floats are numbers here.
use ro_builder.Prelude.{ℕ, true, false, List, [], ◌∷◌, none, String, ok, ◌≡◌, refl, ◌↔◌, ◌≢◌, arith}
use ro_builder.Prelude.Int.{pos, int_lt, int_eq}
use ro_builder.Scoring.{Stats, SkillAlloc}
use ro_builder.Domain.Snapshot
use ro_builder.Domain.Snapshot.{Snapshot}
use ro_builder.Domain.Snapshot.Valid.{IsValid, validate-IsValid}
use ro_builder.Domain.Trajectory
use ro_builder.Domain.Trajectory.{
  Trajectory, bad_snapshot, second_rebirth, skills_regressed, disappeared,
}
use ro_builder.Domain.Trajectory.Step.{Forward}
use ro_builder.Domain.Trajectory.Valid.{Accepts, validate-Accepts, validate-Forward}

abbrev flat_stats : ℕ → Stats
flat_stats n = record {
  str = pos n;
  agi = pos n;
  vit = pos n;
  int = pos n;
  dex = pos n;
  luk = pos n;
}

abbrev snap : String → ℕ → List SkillAlloc → Snapshot ℕ
snap class base skills = record {
  class = class;
  level = record { base = pos base; job = pos 10 };
  post_rebirth = false;
  stats = flat_stats base;
  skills = skills;
  active_buffs = [];
  scored_skills = [];
  equipment = ("weapon", record { id = pos 1101; refine = pos 7; cards = [] }) ∷ [];
  leveling_target = none;
  score = none;
  gates = [];
  notes = "";
}

abbrev bash_skill : ℕ → SkillAlloc
bash_skill n = record { id = pos 5; level = pos n }

abbrev novice : Snapshot ℕ
novice = snap "swordsman" 12 (bash_skill 3 ∷ [])

abbrev pub knight : Snapshot ℕ
knight = snap "knight" 60 (bash_skill 10 ∷ [])

abbrev reborn : Snapshot ℕ
reborn = record (snap "lord_knight" 1 []) { post_rebirth = true }

abbrev path : Trajectory ℕ
path = record { class = "lord_knight"; snapshots = novice ∷ knight ∷ reborn ∷ [] }

path_accepted : Trajectory.validate path ≡ ok tt
unfolding Trajectory.validate Snapshot.validate int_lt int_eq
path_accepted = refl

validate-IsValid_example : (Snapshot.validate knight ≡ ok tt) ↔ IsValid knight
validate-IsValid_example = validate-IsValid knight

validate-Accepts_example :
    (Trajectory.validate path ≡ ok tt) ↔ ((path.class ≢ "") × Accepts path.class path.snapshots)
validate-Accepts_example = validate-Accepts path

validate-Forward_example : Forward novice knight
validate-Forward_example = validate-Forward path 0 1 path_accepted (omega arith) refl refl
