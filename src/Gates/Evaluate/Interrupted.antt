-- ===== src/Gates/Evaluate/Interrupted.antt =====
-- internal/scoring/gates/iuc.go: when an interruptible cast blocks a build.
use ro_builder.Prelude.{
  Bool, true, false, not, ◌&&◌, ◌||◌, List, [], ◌∷◌, Option, none, some, any, if◌then◌else◌, ◌≡◌,
  refl, arith,
}
use ro_builder.Prelude.Int.{ℤ, pos, int_lt, int_eq}
use ro_builder.Scoring.{CombatResults, ScoreResponse, Stats}
use ro_builder.Domain.Gate.{GateResult, GateValue, absent, is_blocking, severity_pass}
use ro_builder.Gates.Inputs.{gate, Inputs, combat_of, primary_attack_skill, effective_stats}
use ro_builder.Domain.Profile.{QualityGates}
use ro_builder.Domain.Snapshot.{Snapshot}
use ro_builder.GameData.{Skill}
use ro_builder.Scoring.{Floats}
use ro_builder.Gates.Cast.{
  evaluate_uninterruptible_cast, uninterruptible_gate, is_allocated, high_dodge, interruption,
  cast_safety_mitigation, cast_at_level_ms, effective_cast_time_ms,
  equipment_grants_uninterruptible_cast,
}
use ro_builder.Gates.Status.{has_fail}
use ro_builder.Gates.Status.Covers.{item_with, wears, walk-worn_by}

module _ {R : Type 0} (F : Floats R) where
  abbrev knows_by : Option (Snapshot R) → ℤ → Bool
  knows_by none id = false
  knows_by (some s) id = any (λ sk. int_eq sk.id id && int_lt (pos 0) sk.level) s.skills

  abbrev dodges_by : Option (CombatResults R) → Bool
  dodges_by none = false
  dodges_by (some c) = elim c.dodge [ none ↦ false | some d ↦ F.le (F.dec 80 0) d ]

  -- Safety Wall, Ice Wall or Fire Wall is allocated, or the build dodges 80 percent at least.
  abbrev pub casts_safely : Inputs R → Bool
  casts_safely input =
      knows_by input.snapshot (pos 12)
      || (knows_by input.snapshot (pos 87)
          || (knows_by input.snapshot (pos 18) || dodges_by (combat_of input.score)))

  is_allocated-knows_by :
      (input : Inputs R) (id : ℤ) → is_allocated F input id ≡ knows_by input.snapshot id
  is_allocated-knows_by input id = go input.snapshot
    where
      go :
          (snapshot : Option (Snapshot R))
          → (elim snapshot as (λ _. Bool) [
            | none ↦ false
            | some s ↦ any (λ sk. int_eq sk.id id && int_lt (pos 0) sk.level) s.skills
          ])
            ≡ knows_by snapshot id
      go none = refl
      go (some s) = refl

  abbrev is_given : Option (List (GateValue R)) → Bool
  is_given none = false
  is_given (some label) = true

  high_dodge-dodges_by :
      (combat : Option (CombatResults R)) → is_given (high_dodge F combat) ≡ dodges_by combat
  high_dodge-dodges_by none = refl
  high_dodge-dodges_by (some c) = ground arith

  cast_safety_mitigation-casts_safely :
      (input : Inputs R) → is_given (cast_safety_mitigation F input) ≡ casts_safely input
  unfolding cast_safety_mitigation
  cast_safety_mitigation-casts_safely input = ground (
    arith,
    is_allocated-knows_by input (pos 12),
    is_allocated-knows_by input (pos 87),
    is_allocated-knows_by input (pos 18),
    high_dodge-dodges_by (combat_of input.score),
  )

  -- The effective cast of the skill is longer than the limit.
  abbrev pub casts_long : QualityGates R → Skill × ℤ → Stats → Bool
  casts_long qg found stats =
      int_lt qg.cast_interrupt_ms
        (effective_cast_time_ms (cast_at_level_ms found.0 found.1) found.0.fixed_cast_ms stats.dex)

  abbrev interrupted_by :
      QualityGates R → Inputs R → Option (Skill × ℤ) → Option (ScoreResponse R) → Bool
  interrupted_by qg input none score = false
  interrupted_by qg input (some found) none = false
  interrupted_by qg input (some found) (some score) =
      (not (wears (λ item. item.grants_uninterruptible_cast) input) && found.0.interruptible)
      && (int_lt (pos 0) qg.cast_interrupt_ms
          && (casts_long qg found score.derived.total_stats && not (casts_safely input)))

  -- The primary skill of a scored build can be interrupted: no item that it wears prevents it, its
  -- cast is long, and neither a wall nor dodge keeps the caster safe.
  abbrev pub interrupted : QualityGates R → Inputs R → Bool
  interrupted qg input = interrupted_by qg input (primary_attack_skill input) input.score

  equipment_grants-wears :
      (input : Inputs R)
      → equipment_grants_uninterruptible_cast F input
        ≡ wears (λ item. item.grants_uninterruptible_cast) input
  unfolding equipment_grants_uninterruptible_cast
  equipment_grants-wears input =
      walk-worn_by (λ catalog. item_with catalog (λ item. item.grants_uninterruptible_cast))
        input.snapshot input.catalog

  two_tests-has_fail :
      (is_limited is_long : Bool) (mitigation : Option (List (GateValue R)))
      → (qg : QualityGates R) (skill : Skill) (eff : ℤ) (stats : Stats)
      → has_fail (
          if not is_limited
          then []
          else if not is_long
          then []
          else interruption F qg skill eff stats mitigation ∷ [])
        ≡ (is_limited && (is_long && not (is_given mitigation)))
  unfolding has_fail is_blocking
  two_tests-has_fail false is_long mitigation qg skill eff stats = refl
  two_tests-has_fail true false mitigation qg skill eff stats = refl
  two_tests-has_fail true true none qg skill eff stats = refl
  two_tests-has_fail true true (some label) qg skill eff stats = refl

  uninterruptible_gate-has_fail :
      (qg : QualityGates R) (input : Inputs R) (found : Skill × ℤ) (stats : Stats)
      → has_fail (uninterruptible_gate F qg input found.0 found.1 stats) ≡ (
          int_lt (pos 0) qg.cast_interrupt_ms
          && (casts_long qg found stats && not (casts_safely input)))
  unfolding uninterruptible_gate
  uninterruptible_gate-has_fail qg input found stats =
      rw (← cast_safety_mitigation-casts_safely input) (
        two_tests-has_fail (int_lt (pos 0) qg.cast_interrupt_ms) (casts_long qg found stats)
          (cast_safety_mitigation F input) qg found.0 _ stats)

  interrupted_by-has_fail :
      (qg : QualityGates R) (input : Inputs R) (granted : Bool)
      → granted ≡ wears (λ item. item.grants_uninterruptible_cast) input
      → (primary : Option (Skill × ℤ)) (score : Option (ScoreResponse R))
      → has_fail (elim primary as (λ _. List (GateResult R)) [
        | none ↦ []
        | some found ↦
            if granted
            then gate "uninterruptible_cast" absent absent severity_pass
                "Phen / Orleans Gown / equivalent equipped" []
              ∷ []
            else if not found.0.interruptible
            then []
            else elim (elim score as (λ _. Option Stats) [
              | none ↦ none
              | some r ↦ some r.derived.total_stats
            ]) [ none ↦ [] | some stats ↦ uninterruptible_gate F qg input found.0 found.1 stats ]
      ])
        ≡ interrupted_by qg input primary score
  unfolding has_fail is_blocking
  interrupted_by-has_fail qg input granted worn none score = refl
  interrupted_by-has_fail qg input granted worn (some found) none = ground arith
  interrupted_by-has_fail qg input granted worn (some found) (some r) =
      ground (arith, worn, uninterruptible_gate-has_fail qg input found r.derived.total_stats)

  pub evaluate_uninterruptible_cast-has_fail :
      (qg : QualityGates R) (input : Inputs R)
      → has_fail (evaluate_uninterruptible_cast F qg input) ≡ interrupted qg input
  unfolding evaluate_uninterruptible_cast effective_stats
  evaluate_uninterruptible_cast-has_fail qg input =
      interrupted_by-has_fail qg input (equipment_grants_uninterruptible_cast F input)
        (equipment_grants-wears input) (primary_attack_skill input) input.score
