-- ===== src/Gates/Evaluate/Pace.antt =====
-- internal/scoring/gates/flee.go and ttk.go: when dodging and the length of the fight block a build.
use ro_builder.Prelude.{
  Bool, false, not, ◌&&◌, Option, none, some, String, str_eq, if◌then◌else◌, ◌≡◌, refl, arith,
}
use ro_builder.Prelude.Int.{ℤ, pos, int_lt}
use ro_builder.Scoring.{CombatResults}
use ro_builder.Domain.Gate.{is_blocking}
use ro_builder.Gates.Inputs.{Inputs, combat_of, is_mvp, derive_scenario_type}
use ro_builder.Domain.Profile.{QualityGates, FleeGates}
use ro_builder.Scoring.{Floats}
use ro_builder.Gates.Status.{has_fail}
use ro_builder.Gates.Survival.{ttk_gate, evaluate_ttk}
use ro_builder.Gates.Offense.{with_combat, flee_gates, flee_tier, evaluate_flee}

module _ {R : Type 0} (F : Floats R) where
  -- The dodge rate, as the calculator gives it in percent, behind the penalty of a fight against
  -- players.
  abbrev pub dodge_rate : FleeGates R → String → R → R
  dodge_rate g scenario_type dodge =
      if str_eq scenario_type "pvp" && F.lt (F.dec 0 0) g.woe_penalty
      then F.mul (F.div dodge (F.dec 100 0)) (F.sub (F.dec 1 0) g.woe_penalty)
      else F.div dodge (F.dec 100 0)

  -- A build that dodges more than half of the damage, below the failing floor.
  abbrev pub dodge_folds : FleeGates R → String → Option R → Option R → Option R → Bool
  dodge_folds g scenario_type (some dodge) (some ave) (some ave_with_dodge) =
      not (F.le (F.mul ave (F.dec 5 1)) ave_with_dodge)
      && F.lt (dodge_rate g scenario_type dodge) g.fail
  dodge_folds g scenario_type _ _ _ = false

  abbrev pub folds : FleeGates R → String → Option (CombatResults R) → Bool
  folds g scenario_type none = false
  folds g scenario_type (some c) =
      dodge_folds g scenario_type c.dodge c.incoming.ave c.incoming.ave_with_dodge

  flee_tier-has_fail :
      (g : FleeGates R) (actual : R) → has_fail (flee_tier F g actual) ≡ F.lt actual g.fail
  unfolding flee_tier has_fail is_blocking
  flee_tier-has_fail g actual = ground arith

  flee_gates-has_fail :
      (g : FleeGates R) (scenario_type : String) (dodge ave ave_with_dodge : Option R)
      → has_fail (flee_gates F g scenario_type dodge ave ave_with_dodge)
        ≡ dodge_folds g scenario_type dodge ave ave_with_dodge
  unfolding flee_gates has_fail
  flee_gates-has_fail g scenario_type none ave ave_with_dodge = refl
  flee_gates-has_fail g scenario_type (some d) none ave_with_dodge = refl
  flee_gates-has_fail g scenario_type (some d) (some a) none = refl
  flee_gates-has_fail g scenario_type (some d) (some a) (some w) = ground (
    arith,
    flee_tier-has_fail g (F.div d (F.dec 100 0)),
    flee_tier-has_fail g (F.mul (F.div d (F.dec 100 0)) (F.sub (F.dec 1 0) g.woe_penalty)),
  )

  pub evaluate_flee-has_fail :
      (qg : QualityGates R) (input : Inputs R)
      → has_fail (evaluate_flee F qg input)
        ≡ folds qg.flee (derive_scenario_type input) (combat_of input.score)
  unfolding evaluate_flee has_fail
  evaluate_flee-has_fail qg input = go (combat_of input.score)
    where
      go :
          (combat : Option (CombatResults R))
          → has_fail (
              with_combat F combat (λ c.
                flee_gates F qg.flee
                  (derive_scenario_type input)
                  c.dodge
                  c.incoming.ave
                  c.incoming.ave_with_dodge))
            ≡ folds qg.flee (derive_scenario_type input) combat
      go none = refl
      go (some c) =
          flee_gates-has_fail qg.flee (derive_scenario_type input) c.dodge c.incoming.ave
            c.incoming.ave_with_dodge

  abbrev outlasts : ℤ → Option R → Bool
  outlasts max_sec none = false
  outlasts max_sec (some actual) = int_lt (pos 0) max_sec && not (F.le actual (F.of_int max_sec))

  -- The fight takes longer than a positive ceiling.
  abbrev pub too_slow : ℤ → Option (CombatResults R) → Bool
  too_slow max_sec none = false
  too_slow max_sec (some c) = outlasts max_sec c.battle_time_sec

  ttk_gate-has_fail :
      (max_sec : ℤ) (combat : Option (CombatResults R))
      → has_fail (ttk_gate F max_sec combat) ≡ too_slow max_sec combat
  unfolding ttk_gate has_fail is_blocking
  ttk_gate-has_fail max_sec none = refl
  ttk_gate-has_fail max_sec (some c) = ground arith

  pub evaluate_ttk-has_fail :
      (qg : QualityGates R) (input : Inputs R)
      → has_fail (evaluate_ttk F qg input)
        ≡ (is_mvp input && too_slow qg.ttk_mvp_max_sec (combat_of input.score))
  unfolding evaluate_ttk has_fail
  evaluate_ttk-has_fail qg input =
      ground (arith, ttk_gate-has_fail qg.ttk_mvp_max_sec (combat_of input.score))
