-- ===== src/Submission/AttackSkills.antt =====
-- internal/llm/tools/attack_skill_resolve.go: the attack skills that a snapshot declares.
pub mod Resolves
use ro_builder.Prelude.{
  ℕ, suc, Bool, true, false, not, List, [], ◌∷◌, Option, none, some, String, str_eq, eq_iff, any,
  ◌==◌, Result, ok, err, ◌>>=◌, ◌>>◌, reject_if, if◌then◌else◌,
}
use ro_builder.Prelude.Int.{ℤ, pos, int_lt}
use ro_builder.Scoring.{AttackSkill, SkillAlloc}
use ro_builder.Domain.Snapshot.{ScoredSkill}
use ro_builder.Domain.Trajectory.{skill_level}
use ro_builder.Catalog.Load.{Catalog, get}
use ro_builder.Catalog.Classes.{ClassSkill, class_attack_skills}

pub data AttackError : Type 0 where
  attack_no_catalog : AttackError
  attack_unknown_class : String → AttackError
  declared_twice : String → AttackError
  not_scoreable : String → AttackError
  attack_not_allocated : String → String → AttackError
  primaries_not_one : ℕ → AttackError

-- `byName`; `ClassAttackSkills` gives only skills with attack metadata.
unfoldable pub attacks_by_name :
    List (String × ClassSkill) → List ClassSkill → List (String × ClassSkill)
attacks_by_name entries [] = entries
attacks_by_name entries (s ∷ rest) = elim s.attack_skill [
  | none ↦ attacks_by_name entries rest
  | some a ↦ attacks_by_name ((a.name, s) ∷ entries) rest
]

unfoldable pub attack_at_level :
    ScoredSkill → ClassSkill → Option ℤ → Result AttackError AttackSkill
attack_at_level d def none = err (attack_not_allocated d.name def.aegis_name)
attack_at_level d def (some level) = do
  reject_if (int_lt level (pos 1)) (attack_not_allocated d.name def.aegis_name)
  ok (record { name = d.name; level = level; primary = d.primary })

-- One round of the loop, behind the test of `seen`.
unfoldable pub resolve_attack :
    List SkillAlloc → ScoredSkill → Option ClassSkill → Result AttackError AttackSkill
unfolding attack_at_level skill_level
resolve_attack skills d none = err (not_scoreable d.name)
resolve_attack skills d (some def) = attack_at_level d def (skill_level skills def.id)

-- The loop; `seen` holds the latest name first.
unfoldable pub resolve_declared :
    List (String × ClassSkill)
    → List SkillAlloc
    → List String
    → List ScoredSkill
    → Result AttackError (List AttackSkill)
unfolding resolve_attack get
resolve_declared by_name skills seen [] = ok []
resolve_declared by_name skills seen (d ∷ rest) = do
  reject_if (any (str_eq d.name) seen) (declared_twice d.name)
  a ← resolve_attack skills d (get by_name d.name)
  others ← resolve_declared by_name skills (d.name ∷ seen) rest
  ok (a ∷ others)

-- `primaries`
unfoldable pub count_primaries : List ScoredSkill → ℕ
count_primaries [] = 0
count_primaries (d ∷ rest) =
    let others = count_primaries rest in if d.primary then suc others else others

-- The loop and the count behind it.
unfoldable pub resolve_all_attacks :
    List (String × ClassSkill)
    → List SkillAlloc
    → List ScoredSkill
    → Result AttackError (List AttackSkill)
unfolding resolve_declared count_primaries
resolve_all_attacks by_name skills declared = do
  out ← resolve_declared by_name skills [] declared
  reject_if (not (count_primaries declared == 1)) (primaries_not_one (count_primaries declared))
  ok out

abbrev resolve_scoreable :
    String
    → List SkillAlloc
    → List ScoredSkill
    → Option (List ClassSkill)
    → Result AttackError (List AttackSkill)
resolve_scoreable class skills declared none = err (attack_unknown_class class)
resolve_scoreable class skills declared (some available) =
    resolve_all_attacks (attacks_by_name [] available) skills declared

-- `resolveAttackSkills`
unfoldable pub resolve_attack_skills :
    String
    → List SkillAlloc
    → List ScoredSkill
    → Option Catalog
    → Result AttackError (List AttackSkill)
unfolding resolve_all_attacks attacks_by_name class_attack_skills
resolve_attack_skills class skills [] cat = ok []
resolve_attack_skills class skills (d ∷ rest) none = err attack_no_catalog
resolve_attack_skills class skills (d ∷ rest) (some c) =
    resolve_scoreable class skills (d ∷ rest) (class_attack_skills c class)
