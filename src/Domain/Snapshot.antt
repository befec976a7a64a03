-- ===== src/Domain/Snapshot.antt =====
-- internal/domain/trajectory.go: one snapshot of a trajectory, and `Snapshot.Validate`.
pub mod Valid
use ro_builder.Prelude.{
  ℕ, suc, Bool, true, false, ◌||◌, List, [], ◌∷◌, Option, String, str_eq, any, Result, ok, err,
  ◌>>=◌, ◌>>◌, reject_if, if◌then◌else◌,
}
use ro_builder.Prelude.Int.{ℤ, pos, int_lt, int_eq}
use ro_builder.Scoring.{Stats, Level, EquipSpec, Equipment, SkillAlloc, ScoreResponse}
use ro_builder.Domain.Gate.{GateResult}

pub record ActiveBuff : Type 0 where
  pub name : String
  pub element : String

pub record ScoredSkill : Type 0 where
  pub name : String
  pub primary : Bool

pub record Scenario : Type 0 where
  pub target : ℤ

pub record Snapshot (R : Type 0) : Type 0 where
  pub class : String
  pub level : Level
  pub post_rebirth : Bool
  pub stats : Stats
  pub skills : List SkillAlloc
  pub active_buffs : List ActiveBuff
  pub scored_skills : List ScoredSkill
  pub equipment : Equipment
  pub leveling_target : Option Scenario
  pub score : Option (ScoreResponse R)
  pub gates : List (GateResult R)
  pub notes : String

-- What `Snapshot.Validate` refuses, with the values that the message prints.
pub data SnapshotError : Type 0 where
  class_empty : SnapshotError
  bad_level : ℤ → ℤ → SnapshotError
  refine_out_of_range : String → ℤ → SnapshotError
  skill_id : ℕ → ℤ → SnapshotError
  skill_level : ℕ → ℤ → ℤ → SnapshotError
  duplicate_skill : ℕ → ℤ → SnapshotError
  buff_name_empty : ℕ → SnapshotError
  duplicate_buff : ℕ → String → SnapshotError

abbrev Check : Type 0
Check = Result SnapshotError (Unit {0})

-- The loop over the equipment.
unfoldable pub check_refines : Equipment → Check
check_refines [] = ok tt
check_refines ((slot, spec) ∷ rest) =
    if int_lt spec.refine (pos 0) || int_lt (pos 10) spec.refine
    then err (refine_out_of_range slot spec.refine)
    else check_refines rest

-- `validateSkillAlloc`, at the index that the caller adds.
unfoldable pub validate_skill_alloc : ℕ → SkillAlloc → Check
validate_skill_alloc i a =
    if int_lt a.id (pos 1)
    then err (skill_id i a.id)
    else if int_lt a.level (pos 1)
    then err (skill_level i a.id a.level)
    else ok tt

-- The loop over the skills; `seen` is `seenSkill`, the latest id first.
unfoldable pub check_skills : ℕ → List ℤ → List SkillAlloc → Check
unfolding validate_skill_alloc
check_skills i seen [] = ok tt
check_skills i seen (sk ∷ rest) = do
  validate_skill_alloc i sk
  reject_if (any (int_eq sk.id) seen) (duplicate_skill i sk.id)
  check_skills (suc i) (sk.id ∷ seen) rest

-- `validateActiveBuff`
unfoldable pub validate_active_buff : ℕ → ActiveBuff → Check
validate_active_buff i b = if str_eq b.name "" then err (buff_name_empty i) else ok tt

-- The loop over the buffs; `seen` is `seenBuff`.
unfoldable pub check_buffs : ℕ → List String → List ActiveBuff → Check
unfolding validate_active_buff
check_buffs i seen [] = ok tt
check_buffs i seen (b ∷ rest) = do
  validate_active_buff i b
  reject_if (any (str_eq b.name) seen) (duplicate_buff i b.name)
  check_buffs (suc i) (b.name ∷ seen) rest

-- `Snapshot.Validate`
unfoldable pub validate : {R : Type 0} → Snapshot R → Check
unfolding check_refines check_skills check_buffs
validate s = do
  reject_if (str_eq s.class "") class_empty
  reject_if (int_lt s.level.base (pos 1) || int_lt s.level.job (pos 1))
      (bad_level s.level.base s.level.job)
  check_refines s.equipment
  check_skills 0 [] s.skills
  check_buffs 0 [] s.active_buffs
