-- ===== src/Submission/AttackSkills/Resolves.antt =====
-- What `resolveAttackSkills` accepts, and what it returns.
use ro_builder.Prelude.{
  true, false, List, [], ◌∷◌, Option, none, some, String, All, ok, ◌≡◌, ◌↔◌, ◌⊎◌, arith,
}
use ro_builder.Prelude.Int.{ℤ, pos, ◌≤ℤ◌, int_lt}
use ro_builder.Scoring.{AttackSkill, SkillAlloc}
use ro_builder.Domain.Snapshot.{ScoredSkill}
use ro_builder.Domain.Snapshot.Valid.{Fresh, str_eq-Fresh}
use ro_builder.Domain.Trajectory.{skill_level}
use ro_builder.Catalog.Load.{Catalog, get}
use ro_builder.Catalog.Classes.{ClassSkill, class_attack_skills}
use ro_builder.Submission.AttackSkills.{
  attacks_by_name, attack_at_level, resolve_attack, resolve_declared, count_primaries,
  resolve_all_attacks, resolve_scoreable, resolve_attack_skills,
}

abbrev pub AtLevel : ScoredSkill → Option ℤ → AttackSkill → Type 0
AtLevel d none a = ⊥
AtLevel d (some level) a =
    (pos 1 ≤ℤ level) × (a ≡ record { name = d.name; level = level; primary = d.primary })

abbrev pub Scores : List SkillAlloc → ScoredSkill → Option ClassSkill → AttackSkill → Type 0
Scores skills d none a = ⊥
Scores skills d (some def) a = AtLevel d (skill_level skills def.id) a

-- Each declared skill, in order, is scoreable at its allocated level, and no name stands twice.
abbrev pub AllScore :
    List (String × ClassSkill)
    → List SkillAlloc
    → List String
    → List ScoredSkill
    → List AttackSkill
    → Type 0
AllScore by_name skills seen [] [] = Unit
AllScore by_name skills seen [] (a ∷ out) = ⊥
AllScore by_name skills seen (d ∷ rest) [] = ⊥
AllScore by_name skills seen (d ∷ rest) (a ∷ out) =
    Fresh d.name seen
    × Scores skills d (get by_name d.name) a
    × AllScore by_name skills (d.name ∷ seen) rest out

attack_at_level_iff :
    (d : ScoredSkill) (def : ClassSkill) (level : Option ℤ) (a : AttackSkill)
    → (attack_at_level d def level ≡ ok a) ↔ AtLevel d level a
unfolding attack_at_level int_lt
attack_at_level_iff d def none a = ground arith
attack_at_level_iff d def (some level) a = ground arith

resolve_attack_iff :
    (skills : List SkillAlloc) (d : ScoredSkill) (found : Option ClassSkill) (a : AttackSkill)
    → (resolve_attack skills d found ≡ ok a) ↔ Scores skills d found a
unfolding resolve_attack
resolve_attack_iff skills d none a = ground arith
resolve_attack_iff skills d (some def) a = attack_at_level_iff d def (skill_level skills def.id) a

resolve_declared_iff :
    (by_name : List (String × ClassSkill)) (skills : List SkillAlloc) (seen : List String)
    → (declared : List ScoredSkill) (out : List AttackSkill)
    → (resolve_declared by_name skills seen declared ≡ ok out)
      ↔ AllScore by_name skills seen declared out
unfolding resolve_declared
resolve_declared_iff by_name skills seen [] [] = ground arith
resolve_declared_iff by_name skills seen [] (a ∷ out) = ground arith
resolve_declared_iff by_name skills seen (d ∷ rest) [] = ground arith
resolve_declared_iff by_name skills seen (d ∷ rest) (a ∷ out) = ground (
  arith,
  resolve_declared_iff by_name skills (d.name ∷ seen) rest out,
  resolve_attack_iff skills d (get by_name d.name) a,
  str_eq-Fresh d.name seen,
)

abbrev NotPrimary : ScoredSkill → Type 0
NotPrimary d = d.primary ≡ false

-- One skill is primary, and no other.
abbrev pub OnePrimary : List ScoredSkill → Type 0
OnePrimary [] = ⊥
OnePrimary (d ∷ rest) =
    ((d.primary ≡ true) × All NotPrimary rest) ⊎ ((d.primary ≡ false) × OnePrimary rest)

count_primaries-none :
    (declared : List ScoredSkill) → (count_primaries declared ≡ 0) ↔ All NotPrimary declared
unfolding count_primaries
count_primaries-none [] = ground arith
count_primaries-none (d ∷ rest) = ground (arith, count_primaries-none rest)

count_primaries-OnePrimary :
    (declared : List ScoredSkill) → (count_primaries declared ≡ 1) ↔ OnePrimary declared
unfolding count_primaries
count_primaries-OnePrimary [] = ground arith
count_primaries-OnePrimary (d ∷ rest) =
    ground (arith, count_primaries-none rest, count_primaries-OnePrimary rest)

resolve_all_attacks_iff :
    (by_name : List (String × ClassSkill)) (skills : List SkillAlloc)
    → (declared : List ScoredSkill) (out : List AttackSkill)
    → (resolve_all_attacks by_name skills declared ≡ ok out)
      ↔ (AllScore by_name skills [] declared out × OnePrimary declared)
unfolding resolve_all_attacks
resolve_all_attacks_iff by_name skills declared out = ground (
  arith,
  resolve_declared_iff by_name skills [] declared out,
  count_primaries-OnePrimary declared,
)

scoreable-AllScore :
    (class : String) (skills : List SkillAlloc) (declared : List ScoredSkill) (c : Catalog)
    → (available : List ClassSkill) (out : List AttackSkill)
    → class_attack_skills c class ≡ some available
    → (resolve_scoreable class skills declared (class_attack_skills c class) ≡ ok out)
      ↔ (AllScore (attacks_by_name [] available) skills [] declared out × OnePrimary declared)
scoreable-AllScore class skills declared c available out known =
    rw (known) (resolve_all_attacks_iff (attacks_by_name [] available) skills declared out)

-- For a class of the catalog and at least one declared skill, `resolveAttackSkills` returns `out` exactly when no name is declared
-- twice, each declared skill, in order, is scoreable for the class and resolved at its allocated level of at least 1, and
-- exactly one is primary.
pub resolve_attack_skills-AllScore :
    (class : String) (skills : List SkillAlloc) (d : ScoredSkill) (rest : List ScoredSkill)
    → (c : Catalog) (available : List ClassSkill) (out : List AttackSkill)
    → class_attack_skills c class ≡ some available
    → (resolve_attack_skills class skills (d ∷ rest) (some c) ≡ ok out)
      ↔ (AllScore (attacks_by_name [] available) skills [] (d ∷ rest) out × OnePrimary (d ∷ rest))
unfolding resolve_attack_skills
resolve_attack_skills-AllScore class skills d rest c available out known =
    scoreable-AllScore class skills (d ∷ rest) c available out known
