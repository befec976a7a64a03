-- ===== src/Gates/Inputs.antt =====
-- internal/scoring/gates/gates.go, scenario.go, effective.go and coverage.go: what the gates read.
-- The catalog's maps are lookups by id; a nil pointer is `none`.
use ro_builder.Prelude.{
  Bool, false, not, ◌&&◌, ◌||◌, List, [], ◌∷◌, Option, none, some, String, str_eq, any,
  if◌then◌else◌,
}
use ro_builder.Prelude.Int.{ℤ, pos, int_lt, int_eq}
use ro_builder.Scoring.{Stats, Equipment, SkillAlloc, CombatResults, ScoreResponse}
use ro_builder.GameData.{Item, Mob, Skill}
use ro_builder.Domain.Profile.{ServerProfile}
use ro_builder.Domain.Gate.{GateResult, GateValue}
use ro_builder.Domain.Snapshot.{Snapshot, ScoredSkill, Scenario}

pub record Catalog : Type 0 where
  pub skill : ℤ → Option Skill
  pub item : ℤ → Option Item
  pub mob : ℤ → Option Mob

pub record Inputs (R : Type 0) : Type 0 where
  pub score : Option (ScoreResponse R)
  pub snapshot : Option (Snapshot R)
  pub catalog : Option Catalog
  pub profile : Option (ServerProfile R)
  pub scenario : Option Scenario
  -- `Overrides.IgnoreStatus`, empty when there are no overrides.
  pub ignore_status : List String
  pub playstyle : String

-- `s == x` for some element `x`, as the code's string sets test it.
abbrev pub contains : List String → String → Bool
contains xs s = any (str_eq s) xs

-- The first primary of the scored skills, or the empty name.
unfoldable pub primary_name : List ScoredSkill → String
primary_name [] = ""
primary_name (s ∷ rest) = let later = primary_name rest in if s.primary then s.name else later

abbrev is_named : String → Skill → Bool
is_named name s = elim s.attack_skill [ none ↦ false | some n ↦ str_eq n.name name ]

unfoldable pub find_primary : Catalog → String → List SkillAlloc → Option (Skill × ℤ)
find_primary catalog name [] = none
find_primary catalog name (sk ∷ rest) =
    let later = find_primary catalog name rest in
    if not (int_lt (pos 0) sk.level) then later else elim (catalog.skill sk.id) [
      | none ↦ later
      | some s ↦ if is_named name s then some (s, sk.level) else later
    ]

-- The walk of one slot: its item, then its cards.
abbrev pub walk_slots : (ℤ → Bool) → Equipment → Bool
walk_slots test [] = false
walk_slots test ((slot, spec) ∷ rest) =
    (not (int_eq spec.id (pos 0)) && (test spec.id || any test spec.cards)) || walk_slots test rest

module _ {R : Type 0} where
  abbrev pub gate :
      String → GateValue R → GateValue R → String → String → List (GateValue R) → GateResult R
  gate name threshold actual severity format args = record {
    name = name;
    threshold = threshold;
    actual = actual;
    severity = severity;
    reason = record { format = format; args = args };
  }

  -- `in.Score.Combat`, when both pointers are set.
  abbrev pub combat_of : Option (ScoreResponse R) → Option (CombatResults R)
  combat_of none = none
  combat_of (some s) = s.combat

  abbrev is_mvp_type : Option (CombatResults R) → Bool
  is_mvp_type none = false
  is_mvp_type (some c) = str_eq c.enemy_type "MVP" || str_eq c.enemy_type "Boss"

  -- `isMVP`
  unfoldable pub is_mvp : Inputs R → Bool
  is_mvp input = is_mvp_type (combat_of input.score)

  abbrev by_enemy_type : Option (CombatResults R) → String → String
  by_enemy_type none playstyle =
      if str_eq playstyle "pvp" || str_eq playstyle "woe" then "pvp" else "pvm"
  by_enemy_type (some c) playstyle =
      if str_eq c.enemy_type "MVP" || str_eq c.enemy_type "Boss" || str_eq c.enemy_type "Normal"
      then "pvm"
      else if str_eq c.enemy_type "PlayerCharacter"
      then "pvp"
      else if str_eq playstyle "pvp" || str_eq playstyle "woe"
      then "pvp"
      else "pvm"

  -- `deriveScenarioType`
  unfoldable pub derive_scenario_type : Inputs R → String
  derive_scenario_type input = by_enemy_type (combat_of input.score) input.playstyle

  -- `effectiveStats`
  unfoldable pub effective_stats : Inputs R → Option Stats
  effective_stats input = elim input.score [ none ↦ none | some s ↦ some s.derived.total_stats ]

  -- `primaryAttackSkill`
  unfoldable pub primary_attack_skill : Inputs R → Option (Skill × ℤ)
  unfolding primary_name find_primary
  primary_attack_skill input = elim input.snapshot [
    | none ↦ none
    | some s ↦ elim input.catalog [
      | none ↦ none
      | some catalog ↦
          if str_eq (primary_name s.scored_skills) ""
          then none
          else find_primary catalog (primary_name s.scored_skills) s.skills
    ]
  ]
