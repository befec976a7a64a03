-- ===== src/Catalog/Classes.antt =====
-- internal/catalog/catalog.go: class trees by request name, their skills, buffs and attack skills.
use Prim.Native.String.{compare}
use text.Mathlib.Text.{is_lt}
use ro_builder.Prelude.{
  Bool, true, false, not, ◌&&◌, List, [], ◌∷◌, Option, none, some, String, str_eq, map,
  if◌then◌else◌,
}
use ro_builder.Prelude.Int.{ℤ, pos, int_eq}
use ro_builder.GameData.{Skill, SelfBuff, AttackSkill, ClassSkillTree, ClassSkillEntry}
use ro_builder.Catalog.Names.{normalize_class_key}
use ro_builder.Catalog.Load.{Catalog, get}

-- `classAliases`
abbrev pub class_aliases : List (String × String)
class_aliases =
    ("taekwon_kid", "taekwon")
    ∷ ("swordman", "swordsman")
    ∷ ("high_swordman", "swordsman_high")
    ∷ ("high_swordsman", "swordsman_high")
    ∷ []

-- `if alias, ok := classAliases[key]; ok { key = alias }`
unfoldable pub resolve_alias : String → String
unfolding get
resolve_alias key = elim (get class_aliases key) [ none ↦ key | some alias ↦ alias ]

-- `Catalog.Class`
unfoldable pub class_tree : Catalog → String → Option ClassSkillTree
unfolding get
class_tree c name = get c.classes name

-- `ClassWithAliases`
unfoldable pub class_with_aliases : Catalog → String → Option ClassSkillTree
unfolding normalize_class_key get
class_with_aliases c request =
    let key = normalize_class_key request in
    elim (get c.classes key) [
      | some tree ↦ some tree
      | none ↦ elim (get class_aliases key) [ none ↦ none | some alias ↦ get c.classes alias ]
    ]

-- `ClassMaxLevels`
unfoldable pub class_max_levels : Catalog → String → Option (ℤ × ℤ)
unfolding normalize_class_key get resolve_alias
class_max_levels c request =
    if str_eq request ""
    then none
    else get c.job_max_levels (resolve_alias (normalize_class_key request))

pub record ClassSkillRequirement : Type 0 where
  pub aegis_name : String
  pub level : ℤ

pub record ClassSkill : Type 0 where
  pub id : ℤ
  pub aegis_name : String
  pub name : String
  pub max_level : ℤ
  pub unusable : Bool
  pub attack_type : String
  pub element : String
  pub cast_time_ms : ℤ
  pub cooldown_ms : ℤ
  pub interruptible : Bool
  pub requires : List ClassSkillRequirement
  pub self_buff : Option SelfBuff
  pub attack_skill : Option AttackSkill

-- `sort.Slice` by name. The keys of a map differ, so the order of equal names does not matter.
unfoldable pub insert_requirement :
    ClassSkillRequirement → List ClassSkillRequirement → List ClassSkillRequirement
insert_requirement r [] = r ∷ []
insert_requirement r (first ∷ rest) =
    let inserted = insert_requirement r rest in
    if is_lt (compare first.aegis_name r.aegis_name) then first ∷ inserted else r ∷ first ∷ rest

unfoldable pub sorted_requirements : List (String × ℤ) → List ClassSkillRequirement
unfolding insert_requirement
sorted_requirements [] = []
sorted_requirements ((name, level) ∷ rest) =
    insert_requirement (record { aegis_name = name; level = level }) (sorted_requirements rest)

-- The body of the loop of `ClassSkills`, for an entry whose skill the catalog has or lacks.
unfoldable pub join_entry : ClassSkillEntry → Option Skill → ClassSkill
unfolding sorted_requirements
join_entry s none = record {
  id = pos 0;
  aegis_name = s.aegis_name;
  name = "";
  max_level = s.max_level;
  unusable = s.unusable;
  attack_type = "";
  element = "";
  cast_time_ms = pos 0;
  cooldown_ms = pos 0;
  interruptible = false;
  requires = sorted_requirements s.requires;
  self_buff = none;
  attack_skill = none;
}
join_entry s (some sk) = record {
  id = sk.id;
  aegis_name = s.aegis_name;
  name = sk.name;
  max_level = if int_eq s.max_level (pos 0) then sk.max_level else s.max_level;
  unusable = s.unusable;
  attack_type = sk.attack_type;
  element = sk.element;
  cast_time_ms = sk.cast_time_ms;
  cooldown_ms = sk.cooldown_ms;
  interruptible = sk.interruptible;
  requires = sorted_requirements s.requires;
  self_buff = sk.self_buff;
  attack_skill = sk.attack_skill;
}

abbrev join_tree : Catalog → Option ClassSkillTree → Option (List ClassSkill)
join_tree c none = none
join_tree c (some tree) =
    some (map (λ s. join_entry s (get c.skills_by_name s.aegis_name)) tree.skills)

-- `ClassSkills`
unfoldable pub class_skills : Catalog → String → Option (List ClassSkill)
unfolding class_with_aliases join_entry get
class_skills c request = join_tree c (class_with_aliases c request)

unfoldable pub keep : (ClassSkill → Bool) → List ClassSkill → List ClassSkill
keep test [] = []
keep test (s ∷ rest) = let others = keep test rest in if test s then s ∷ others else others

abbrev is_set {ℓ} : {A : Type ℓ} → Option A → Bool
is_set none = false
is_set (some a) = true

abbrev pub is_usable_buff : ClassSkill → Bool
is_usable_buff s = is_set s.self_buff && not s.unusable

abbrev pub is_usable_attack : ClassSkill → Bool
is_usable_attack s = is_set s.attack_skill && not s.unusable

abbrev kept : (ClassSkill → Bool) → Option (List ClassSkill) → Option (List ClassSkill)
kept test none = none
kept test (some skills) = some (keep test skills)

-- `ClassBuffs`
unfoldable pub class_buffs : Catalog → String → Option (List ClassSkill)
unfolding class_skills keep
class_buffs c request = kept is_usable_buff (class_skills c request)

-- `ClassAttackSkills`
unfoldable pub class_attack_skills : Catalog → String → Option (List ClassSkill)
unfolding class_skills keep
class_attack_skills c request = kept is_usable_attack (class_skills c request)

-- `c.classInnateBuffs[key]`, nil for a missing key.
abbrev innate_of : Option (List SelfBuff) → List SelfBuff
innate_of none = []
innate_of (some buffs) = buffs

-- `ClassInnateBuffs`
unfoldable pub class_innate_buffs : Catalog → String → Option (List SelfBuff)
unfolding normalize_class_key get
class_innate_buffs c request =
    let key = normalize_class_key request in
    elim (get c.classes key) [
      | some tree ↦ some (innate_of (get c.class_innate_buffs key))
      | none ↦ elim (get class_aliases key) [
        | none ↦ none
        | some alias ↦ some (innate_of (get c.class_innate_buffs alias))
      ]
    ]
