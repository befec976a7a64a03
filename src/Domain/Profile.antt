-- ===== src/Domain/Profile.antt =====
-- internal/domain/server.go: the server profile, its overlay of mobs and its class overrides. The
-- parts of the profile that are only rendered into the prompt are left out.
pub mod Valid
pub mod Target
use ro_builder.Prelude.{
  Bool, true, false, not, ◌&&◌, List, [], ◌∷◌, Option, none, some, String, str_eq, if◌then◌else◌,
}
use ro_builder.Prelude.Int.{ℤ, pos, int_eq}
use ro_builder.Scoring.{EnemyStats}
use ro_builder.GameData.{Mob}

pub record HitGates (R : Type 0) : Type 0 where
  pub normal_fail_hard : R
  pub normal_fail : R
  pub normal_warn : R
  pub mvp_fail_hard : R
  pub mvp_fail : R

pub record FleeGates (R : Type 0) : Type 0 where
  pub fail : R
  pub warn : R
  pub woe_penalty : R

pub record EhpMultiplierGates (R : Type 0) : Type 0 where
  pub normal : R
  pub mvp_melee : R
  pub mvp_magic_burst : R

pub record StatusPriority : Type 0 where
  pub fail : List String
  pub warn : List String

pub record QualityGates (R : Type 0) : Type 0 where
  pub hit : HitGates R
  pub flee : FleeGates R
  pub ehp_multiplier : EhpMultiplierGates R
  pub ttk_mvp_max_sec : ℤ
  pub cast_time_warn_ms : ℤ
  pub cast_interrupt_ms : ℤ
  pub status_priority : List (String × StatusPriority)

-- The caps that the validation reads.
pub record Caps : Type 0 where
  pub max_base_level : ℤ
  pub max_job_level : ℤ
  pub max_stat : ℤ

pub record ClassChange : Type 0 where
  pub class : String
  pub max_base_level : ℤ
  pub max_job_level : ℤ

pub record ServerProfile (R : Type 0) : Type 0 where
  pub key : String
  pub mode : String
  pub caps : Caps
  pub class_changes : List ClassChange
  pub custom_mobs : List Mob
  pub quality_gates : Option (QualityGates R)

-- `ServerProfile.CustomMob`
unfoldable pub custom_mob : List Mob → ℤ → Option Mob
custom_mob [] id = none
custom_mob (m ∷ rest) id =
    let later = custom_mob rest id in if int_eq m.id id then some m else later

-- The loop of `ClassMaxLevelOverride`: the first entry of the class decides.
unfoldable pub level_override : List ClassChange → String → Option (ℤ × ℤ)
level_override [] class = none
level_override (change ∷ rest) class =
    let later = level_override rest class in
    if not (str_eq change.class class)
    then later
    else if int_eq change.max_base_level (pos 0) && int_eq change.max_job_level (pos 0)
    then none
    else some (change.max_base_level, change.max_job_level)

-- `mobToEnemyStats`
abbrev pub mob_to_enemy_stats : Mob → EnemyStats
mob_to_enemy_stats m = record {
  hp = m.hp;
  atk_min = m.atk_min;
  atk_max = m.atk_max;
  def = m.def;
  mdef = m.mdef;
  race = m.race;
  element = m.element;
  element_lv = m.element_lv;
  size = m.size;
  level = m.lv;
}

abbrev pub enemy_of : Option Mob → ℤ → Option ℤ × Option EnemyStats
enemy_of none id = (some id, none)
enemy_of (some m) id = (none, some (mob_to_enemy_stats m))

module _ {R : Type 0} where
  -- `ServerProfile.ClassMaxLevelOverride`
  unfoldable pub class_max_level_override : Option (ServerProfile R) → String → Option (ℤ × ℤ)
  unfolding level_override
  class_max_level_override none class = none
  class_max_level_override (some p) class = level_override p.class_changes class

  abbrev overlay_mob : Option (ServerProfile R) → ℤ → Option Mob
  overlay_mob none id = none
  overlay_mob (some p) id = custom_mob p.custom_mobs id

  -- `ResolveEnemy`
  unfoldable pub resolve_enemy : Option (ServerProfile R) → ℤ → Option ℤ × Option EnemyStats
  unfolding custom_mob
  resolve_enemy profile id =
      if int_eq id (pos 0) then (none, none) else enemy_of (overlay_mob profile id) id
