-- ===== src/Gates/Cast.antt =====
-- internal/scoring/gates/cast.go and iuc.go: cast time, and casts that damage interrupts.
use Prim.Native.String.{◌++◌ as str_append}
use native.Mathlib.Nat.{mul-le-mul_left}
use ro_builder.Prelude.{
  ℕ, suc, ◌+◌, ◌-◌, ◌*◌, ◌/◌, ◌≤◌, Bool, false, not, ◌&&◌, List, [], ◌∷◌, Option, none, some,
  length, any, leb, if◌then◌else◌, arith,
}
use ro_builder.Prelude.Int.{ℤ, pos, pos_part, ◌≤ℤ◌, int_lt, int_eq, ◌+ℤ◌, scaled}
use ro_builder.Scoring.{Stats, CombatResults}
use ro_builder.Domain.Gate.{
  GateResult, GateValue, absent, severity_pass, severity_warn, severity_fail,
}
use ro_builder.Gates.Inputs.{
  gate, Inputs, combat_of, effective_stats, primary_attack_skill, walk_slots,
}
use ro_builder.Domain.Profile.{QualityGates}
use ro_builder.GameData.{Skill}
use ro_builder.Scoring.{Floats}

-- `CastTimeByLevelMs[i]`; the callers keep the index within it.
abbrev nth : List ℤ → ℕ → ℤ
nth [] i = pos 0
nth (x ∷ xs) ℕ.zero = x
nth (x ∷ xs) (suc i) = nth xs i

-- `Skill.CastAtLevelMs`
unfoldable pub cast_at_level_ms : Skill → ℤ → ℤ
cast_at_level_ms s level =
    if leb (length s.cast_time_by_level_ms) 0
    then s.cast_time_ms
    else if int_lt level (pos 1)
    then nth s.cast_time_by_level_ms 0
    else if int_lt (pos (length s.cast_time_by_level_ms)) level
    then nth s.cast_time_by_level_ms (length s.cast_time_by_level_ms - 1)
    else nth s.cast_time_by_level_ms (pos_part level - 1)

-- `effectiveCastTimeMs`, with `dex` clamped at 0.
unfoldable pub effective_cast_time_ms : ℤ → ℤ → ℤ → ℤ
unfolding scaled
effective_cast_time_ms base_ms fixed_ms dex =
    if not (int_lt dex (pos 150))
    then fixed_ms
    else fixed_ms +ℤ scaled base_ms (150 - pos_part dex) 150

scaled-le : (b n : ℕ) → n ≤ 150 → b * n / 150 ≤ b
scaled-le b n h = omega (arith, mul-le-mul_left b h)

scaled-antitone : (b m n : ℕ) → m ≤ n → b * m / 150 ≤ b * n / 150
scaled-antitone b m n h = omega (arith, mul-le-mul_left b h)

pub record Shortens (b f : ℕ) (dex more : ℤ) : Type 0 where
  pub at_least : pos f ≤ℤ effective_cast_time_ms (pos b) (pos f) dex
  pub at_most : effective_cast_time_ms (pos b) (pos f) dex ≤ℤ pos (f + b)
  pub antitone :
      effective_cast_time_ms (pos b) (pos f) more ≤ℤ effective_cast_time_ms (pos b) (pos f) dex

-- With a variable part `b` and a fixed part `f` that are not negative, the effective cast time lies between
-- `f` and `f + b`, and more DEX never makes it longer.
pub effective_cast_time_ms-Shortens : (b f : ℕ) (dex more : ℤ) → dex ≤ℤ more → Shortens b f dex more
unfolding effective_cast_time_ms scaled int_lt
effective_cast_time_ms-Shortens b f dex more h = record {
  at_least = ground arith;
  at_most = ground (arith, scaled-le b (150 - pos_part dex));
  antitone = ground (arith, scaled-antitone b (150 - pos_part more) (150 - pos_part dex));
}

-- What a gate emits when the primary skill and the effective stats are found.
abbrev pub with_primary :
    {R : Type 0}
    → (Skill → ℤ → Stats → List (GateResult R))
    → Option (Skill × ℤ)
    → Option Stats
    → List (GateResult R)
with_primary f none stats = []
with_primary f (some found) none = []
with_primary f (some found) (some stats) = f found.0 found.1 stats

module _ {R : Type 0} (F : Floats R) where
  -- `evaluateCastTime`, behind the lookups of the skill and the stats.
  unfoldable pub cast_time_gate : QualityGates R → Skill → ℤ → Stats → List (GateResult R)
  unfolding cast_at_level_ms effective_cast_time_ms
  cast_time_gate qg skill level stats =
      let base = cast_at_level_ms skill level in
      let eff = effective_cast_time_ms base skill.fixed_cast_ms stats.dex in
      if not (int_lt (pos 0) base) && not (int_lt (pos 0) skill.fixed_cast_ms)
      then []
      else if not (int_lt (pos 0) qg.cast_time_warn_ms)
      then []
      else if not (int_lt qg.cast_time_warn_ms eff)
      then []
      else gate (str_append "cast_time_" skill.aegis_name) (GateValue.int qg.cast_time_warn_ms)
          (GateValue.int eff) severity_warn
          "%s effective cast %dms at %d effective DEX (incl. gear/cards/buffs, not base allocation) exceeds %dms; primary nuke is slow (more DEX / instant-cast gear / Bragi helps)"
          (GateValue.text skill.aegis_name
            ∷ GateValue.int eff
            ∷ GateValue.int stats.dex
            ∷ GateValue.int qg.cast_time_warn_ms
            ∷ [])
        ∷ []

  -- `evaluateCastTime`
  unfoldable pub evaluate_cast_time : QualityGates R → Inputs R → List (GateResult R)
  unfolding cast_time_gate
  evaluate_cast_time qg input =
      with_primary (cast_time_gate qg) (primary_attack_skill input) (effective_stats input)

  -- `equipmentGrantsUninterruptibleCast`
  unfoldable pub equipment_grants_uninterruptible_cast : Inputs R → Bool
  equipment_grants_uninterruptible_cast input = elim input.snapshot [
    | none ↦ false
    | some s ↦ elim input.catalog [
      | none ↦ false
      | some catalog ↦
          walk_slots
            (λ id. elim (catalog.item id) [
              | none ↦ false
              | some item ↦ item.grants_uninterruptible_cast
            ])
            s.equipment
    ]
  ]

  abbrev pub is_allocated : Inputs R → ℤ → Bool
  is_allocated input id = elim input.snapshot [
    | none ↦ false
    | some s ↦ any (λ sk. int_eq sk.id id && int_lt (pos 0) sk.level) s.skills
  ]

  -- The label of high dodge: its format and its argument.
  abbrev pub high_dodge : Option (CombatResults R) → Option (List (GateValue R))
  high_dodge none = none
  high_dodge (some c) = elim c.dodge [
    | none ↦ none
    | some d ↦
        if F.le (F.dec 80 0) d
        then some (GateValue.text "high flee (%.0f%% dodge vs target)" ∷ GateValue.float d ∷ [])
        else none
  ]

  -- `castSafetyMitigation`: the label that the reason prints, if there is a strategy.
  unfoldable pub cast_safety_mitigation : Inputs R → Option (List (GateValue R))
  cast_safety_mitigation input =
      if is_allocated input (pos 12)
      then some (GateValue.text "Safety Wall" ∷ [])
      else if is_allocated input (pos 87)
      then some (GateValue.text "Ice Wall positioning" ∷ [])
      else if is_allocated input (pos 18)
      then some (GateValue.text "Fire Wall positioning" ∷ [])
      else high_dodge (combat_of input.score)

  -- The result, once the cast is found too long.
  abbrev pub interruption :
      QualityGates R → Skill → ℤ → Stats → Option (List (GateValue R)) → GateResult R
  interruption qg skill eff stats (some label) =
      gate "uninterruptible_cast" (GateValue.int qg.cast_interrupt_ms) (GateValue.int eff)
        severity_warn
        "%s effective cast %dms at %d effective DEX (incl. gear/cards/buffs, not base allocation) is interruptible with no Phen/Orleans, but %s mitigates interruption; playable with technique"
        (GateValue.text skill.aegis_name ∷ GateValue.int eff ∷ GateValue.int stats.dex ∷ label)
  interruption qg skill eff stats none =
      gate "uninterruptible_cast" (GateValue.int qg.cast_interrupt_ms) (GateValue.int eff)
        severity_fail
        "%s effective cast %dms at %d effective DEX (incl. gear/cards/buffs, not base allocation) is interruptible and incoming damage will cancel it; add Phen/Orleans's Gown, Safety Wall, Ice/Fire Wall positioning, or high flee (a tank or positioning party strategy also resolves it)"
        (GateValue.text skill.aegis_name ∷ GateValue.int eff ∷ GateValue.int stats.dex ∷ [])

  -- `evaluateUninterruptibleCast`, behind the lookup of the stats.
  unfoldable pub uninterruptible_gate :
      QualityGates R → Inputs R → Skill → ℤ → Stats → List (GateResult R)
  unfolding cast_at_level_ms effective_cast_time_ms cast_safety_mitigation
  uninterruptible_gate qg input skill level stats =
      let eff =
        effective_cast_time_ms (cast_at_level_ms skill level) skill.fixed_cast_ms stats.dex in
      if not (int_lt (pos 0) qg.cast_interrupt_ms)
      then []
      else if not (int_lt qg.cast_interrupt_ms eff)
      then []
      else interruption qg skill eff stats (cast_safety_mitigation input) ∷ []

  -- `evaluateUninterruptibleCast`
  unfoldable pub evaluate_uninterruptible_cast : QualityGates R → Inputs R → List (GateResult R)
  unfolding uninterruptible_gate equipment_grants_uninterruptible_cast
  evaluate_uninterruptible_cast qg input = elim (primary_attack_skill input) [
    | none ↦ []
    | some found ↦
        if equipment_grants_uninterruptible_cast input
        then gate "uninterruptible_cast" absent absent severity_pass
            "Phen / Orleans Gown / equivalent equipped" []
          ∷ []
        else if not found.0.interruptible
        then []
        else elim (effective_stats input) [
          | none ↦ []
          | some stats ↦ uninterruptible_gate qg input found.0 found.1 stats
        ]
  ]
