-- ===== src/GameData.antt =====
-- internal/data/sources/hercules: the records of items, mobs, skills and class trees that the
-- readers fill and the catalog indexes. A map is an association list.
use ro_builder.Prelude.{Bool, List, Option, String}
use ro_builder.Prelude.Int.{ℤ}

pub record Item : Type 0 where
  pub id : ℤ
  pub aegis_name : String
  pub name : String
  pub type : String
  pub atk : ℤ
  pub def : ℤ
  pub slots : ℤ
  pub weight : ℤ
  pub range : ℤ
  pub loc : String
  pub weapon_lv : ℤ
  pub equip_lv : ℤ
  pub subtype : String
  pub grants_immunity : List String
  pub grants_uninterruptible_cast : Bool

pub record MobThreats : Type 0 where
  pub applies_status : List String
  pub casts_skills : List String

pub record Mob : Type 0 where
  pub id : ℤ
  pub sprite_name : String
  pub name : String
  pub jname : String
  pub lv : ℤ
  pub hp : ℤ
  pub atk_min : ℤ
  pub atk_max : ℤ
  pub def : ℤ
  pub mdef : ℤ
  pub race : String
  pub element : String
  pub element_lv : ℤ
  pub size : String
  pub threats : Option MobThreats

pub record EndowSpec : Type 0 where
  pub elements : List String

pub record SelfBuff : Type 0 where
  pub name : String
  pub kind : String
  pub persistence : String
  pub endow : Option EndowSpec

pub record AttackSkill : Type 0 where
  pub name : String

pub record Skill : Type 0 where
  pub id : ℤ
  pub aegis_name : String
  pub name : String
  pub max_level : ℤ
  pub attack_type : String
  pub element : String
  pub cast_time_ms : ℤ
  pub fixed_cast_ms : ℤ
  pub after_cast_ms : ℤ
  pub cooldown_ms : ℤ
  pub cast_time_by_level_ms : List ℤ
  pub interruptible : Bool
  pub status_change : String
  pub self_buff : Option SelfBuff
  pub attack_skill : Option AttackSkill

pub record ClassSkillEntry : Type 0 where
  pub aegis_name : String
  pub max_level : ℤ
  pub requires : List (String × ℤ)
  pub unusable : Bool

pub record ClassSkillTree : Type 0 where
  pub name : String
  pub inherit : List String
  pub skills : List ClassSkillEntry

pub record JobMaxLevels : Type 0 where
  pub name : String
  pub max_base_level : ℤ
  pub max_job_level : ℤ
  pub base_exp_group : String
  pub job_exp_group : String
