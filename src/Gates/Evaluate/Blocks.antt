-- ===== src/Gates/Evaluate/Blocks.antt =====
-- internal/scoring/gates: what makes a gate of `Evaluate` block a build.
use ro_builder.Prelude.{
  Bool, false, not, ◌&&◌, ◌||◌, List, ◌++◌, Option, none, some, any, ◌≡◌, refl, arith,
}
use ro_builder.Prelude.Int.{ℤ, pos, int_lt}
use ro_builder.Scoring.{ScoreResponse, Stats}
use ro_builder.Domain.Gate.{GateResult, is_blocking}
use ro_builder.Gates.Inputs.{
  Inputs, combat_of, is_mvp, derive_scenario_type, primary_attack_skill, effective_stats,
}
use ro_builder.Domain.Profile.{QualityGates}
use ro_builder.GameData.{Skill}
use ro_builder.Scoring.{Floats}
use ro_builder.Gates.Cast.{with_primary, cast_time_gate, evaluate_cast_time}
use ro_builder.Gates.Status.{
  has_fail, priority_of, evaluate_status_immunity, target_threats, applied,
}
use ro_builder.Gates.Status.Covers.{is_immune}
use ro_builder.Gates.Status.Fails.{has_fail-append, in_force, evaluate_status_immunity-has_fail}
use ro_builder.Gates.Survival.{evaluate_ehp, evaluate_ttk, dies, evaluate_ehp-has_fail}
use ro_builder.Gates.Offense.{
  evaluate_requirements, requirements_of, evaluate_hit, evaluate_flee, below_floor, hit_of,
  is_hit_insensitive, evaluate_hit-has_fail,
}
use ro_builder.Gates.Evaluate.{
  evaluate_taekwon_kick_stances, evaluate_rotation, resolve_quality_gates, evaluate,
}
use ro_builder.Gates.Evaluate.Stances.{lacks_stance, evaluate_taekwon_kick_stances-has_fail}
use ro_builder.Gates.Evaluate.Pace.{folds, too_slow, evaluate_flee-has_fail, evaluate_ttk-has_fail}
use ro_builder.Gates.Evaluate.Interrupted.{interrupted, evaluate_uninterruptible_cast-has_fail}

module _ {R : Type 0} (F : Floats R) where
  cast_time_gate-has_fail :
      (qg : QualityGates R) (skill : Skill) (level : ℤ) (stats : Stats)
      → has_fail (cast_time_gate F qg skill level stats) ≡ false
  unfolding cast_time_gate has_fail is_blocking
  cast_time_gate-has_fail qg skill level stats = ground arith

  with_primary-has_fail :
      (f : Skill → ℤ → Stats → List (GateResult R))
      → ((skill : Skill) (level : ℤ) (stats : Stats) → has_fail (f skill level stats) ≡ false)
      → (found : Option (Skill × ℤ)) (stats : Option Stats)
      → has_fail (with_primary f found stats) ≡ false
  unfolding has_fail
  with_primary-has_fail f h none stats = refl
  with_primary-has_fail f h (some found) none = refl
  with_primary-has_fail f h (some found) (some stats) = h found.0 found.1 stats

  evaluate_cast_time-has_fail :
      (qg : QualityGates R) (input : Inputs R) → has_fail (evaluate_cast_time F qg input) ≡ false
  unfolding evaluate_cast_time
  evaluate_cast_time-has_fail qg input =
      with_primary-has_fail _ (λ skill level stats. cast_time_gate-has_fail qg skill level stats)
        (primary_attack_skill input) (effective_stats input)

  -- The stat budget is overspent.
  abbrev pub overspent : Option (ScoreResponse R) → Bool
  overspent none = false
  overspent (some s) = int_lt s.derived.stat_points_remaining (pos 0)

  requirements_of-has_fail :
      (score : Option (ScoreResponse R)) → has_fail (requirements_of score) ≡ overspent score
  unfolding requirements_of has_fail is_blocking
  requirements_of-has_fail none = refl
  requirements_of-has_fail (some s) = ground arith

  both-has_fail :
      (xs ys : List (GateResult R)) {a b : Bool}
      → has_fail xs ≡ a
      → has_fail ys ≡ b
      → has_fail (xs ++ ys) ≡ (a || b)
  both-has_fail xs ys h k = ground (arith, has_fail-append xs ys)

  -- What blocks a build.
  abbrev pub blocked : QualityGates R → Inputs R → Bool
  blocked qg input =
      overspent input.score
      || (lacks_stance input
          || ((below_floor F (is_mvp input) qg.hit (hit_of F (combat_of input.score))
                && not (is_hit_insensitive input))
              || (folds F qg.flee (derive_scenario_type input) (combat_of input.score)
                  || (dies F qg input input.score (combat_of input.score)
                      || ((is_mvp input && too_slow F qg.ttk_mvp_max_sec (combat_of input.score))
                          || (any
                                (λ s.
                                  in_force
                                    (priority_of qg.status_priority (derive_scenario_type input))
                                    input.ignore_status s
                                  && not (is_immune input s))
                                (applied (target_threats input))
                              || interrupted F qg input))))))

  -- `Evaluate` has a failing result exactly when the stat budget is overspent, a kick lacks its stance, the hit rate is
  -- below a failing floor for a build that rolls it, a build that lives by dodging dodges too little, the target kills the build,
  -- the kill of a boss takes longer than the ceiling, a status in force meets a build that is not immune, or the long primary cast can be
  -- interrupted without gear, wall or dodge against it.
  pub evaluate-has_fail :
      (input : Inputs R)
      → has_fail (evaluate F input) ≡ blocked (resolve_quality_gates F input.profile) input
  unfolding evaluate evaluate_requirements evaluate_rotation has_fail
  evaluate-has_fail input =
      let qg = resolve_quality_gates F input.profile in
      both-has_fail (evaluate_requirements input) _ (requirements_of-has_fail input.score) (
        both-has_fail (evaluate_taekwon_kick_stances input) _
          (evaluate_taekwon_kick_stances-has_fail input)
          (both-has_fail (evaluate_hit F qg input) _ (evaluate_hit-has_fail F qg input) (
            both-has_fail (evaluate_flee F qg input) _ (evaluate_flee-has_fail F qg input) (
              both-has_fail (evaluate_ehp F qg input) _ (evaluate_ehp-has_fail F qg input) (
                both-has_fail (evaluate_ttk F qg input) _ (evaluate_ttk-has_fail F qg input) (
                  both-has_fail (evaluate_cast_time F qg input) _
                    (evaluate_cast_time-has_fail qg input)
                    (both-has_fail (evaluate_status_immunity qg input) _
                      (evaluate_status_immunity-has_fail qg input)
                      (evaluate_uninterruptible_cast-has_fail F qg input))))))))
