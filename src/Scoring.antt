-- ===== src/Scoring.antt =====
-- internal/scoring/types.go: the contract with the calculator. The type `R` stands for Go's
-- `float64`; a pointer field is an `Option`, and a map is an association list in the order in
-- which the code ranges over it.
use ro_builder.Prelude.{ℕ, Bool, List, Option, String}
use ro_builder.Prelude.Int.{ℤ}

-- The operations of `float64` that the program uses.
pub record Floats (R : Type 0) : Type 0 where
  pub lt : R → R → Bool
  pub le : R → R → Bool
  pub mul : R → R → R
  pub div : R → R → R
  pub sub : R → R → R
  pub of_int : ℤ → R
  pub dec : ℕ → ℕ → R

pub record Stats : Type 0 where
  pub str : ℤ
  pub agi : ℤ
  pub vit : ℤ
  pub int : ℤ
  pub dex : ℤ
  pub luk : ℤ

pub record Level : Type 0 where
  pub base : ℤ
  pub job : ℤ

pub record EquipSpec : Type 0 where
  pub id : ℤ
  pub refine : ℤ
  pub cards : List ℤ

abbrev pub Equipment : Type 0
Equipment = List (String × EquipSpec)

pub record SkillAlloc : Type 0 where
  pub id : ℤ
  pub level : ℤ

pub record Buff : Type 0 where
  pub name : String
  pub level : ℤ
  pub element : String

pub record AttackSkill : Type 0 where
  pub name : String
  pub level : ℤ
  pub primary : Bool

pub record EnemyStats : Type 0 where
  pub hp : ℤ
  pub atk_min : ℤ
  pub atk_max : ℤ
  pub def : ℤ
  pub mdef : ℤ
  pub race : String
  pub element : String
  pub element_lv : ℤ
  pub size : String
  pub level : ℤ

pub record ScoreRequest : Type 0 where
  pub class : Option String
  pub level : Option Level
  pub stats : Option Stats
  pub skills : List SkillAlloc
  pub buffs : List Buff
  pub attack_skills : List AttackSkill
  pub equipment : Equipment
  pub enemy : Option ℤ
  pub enemy_inline : Option EnemyStats

pub record BasePlus : Type 0 where
  pub base : ℤ
  pub plus : ℤ

pub record MinMax : Type 0 where
  pub min : ℤ
  pub max : ℤ

-- The derived stats that the Go code reads.
pub record DerivedStats : Type 0 where
  pub atk : BasePlus
  pub matk : MinMax
  pub max_hp : ℤ
  pub stat_points_remaining : ℤ
  pub total_stats : Stats

pub record CombatIncoming (R : Type 0) : Type 0 where
  pub min : Option R
  pub ave : Option R
  pub max : Option R
  pub ave_with_dodge : Option R

-- The combat results that the Go code reads; `enemy_type` is `Enemy.Type`.
pub record CombatResults (R : Type 0) : Type 0 where
  pub hit : Option R
  pub dodge : Option R
  pub battle_time_sec : Option R
  pub incoming : CombatIncoming R
  pub enemy_type : String

pub record ScoreResponse (R : Type 0) : Type 0 where
  pub derived : DerivedStats
  pub combat : Option (CombatResults R)
  pub calc_version : String
