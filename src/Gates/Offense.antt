-- ===== src/Gates/Offense.antt =====
-- internal/scoring/gates/hit.go, flee.go and requirements.go: hitting, dodging, and the stat budget.
use Prim.Native.String.{◌++◌ as str_append}
use ro_builder.Prelude.{
  Bool, true, false, not, ◌&&◌, ◌||◌, List, [], ◌∷◌, Option, none, some, String, str_eq,
  if◌then◌else◌, ◌≡◌, refl, arith,
}
use ro_builder.Prelude.Int.{pos, pos_part, neg_part, difference, int_lt, ◌+ℤ◌}
use ro_builder.Scoring.{CombatResults, ScoreResponse}
use ro_builder.Domain.Gate.{
  GateResult, GateValue, absent, is_blocking, two_tiers-is_blocking, open_tiers-is_blocking,
  demoted-is_blocking, severity_pass, severity_warn, severity_fail, severity_fail_hard,
}
use ro_builder.Domain.Snapshot.{Snapshot}
use ro_builder.Gates.Inputs.{contains, gate, Inputs, combat_of, is_mvp, derive_scenario_type}
use ro_builder.Domain.Profile.{QualityGates, HitGates, FleeGates}
use ro_builder.Scoring.{Floats}
use ro_builder.Gates.Status.{has_fail}

-- `normalizeClassForGates`
unfoldable pub normalize_class_for_gates : String → String
normalize_class_for_gates class =
    if str_eq class "magician"
    then "mage"
    else if str_eq class "high_magician"
    then "high_mage"
    else if str_eq class "scholar"
    then "professor"
    else class

-- `hitInsensitiveClasses`
abbrev pub hit_insensitive_classes : List String
hit_insensitive_classes =
    "taekwon" ∷ "taekwon_kid" ∷ "taekwon_master" ∷ "star_gladiator" ∷ "soul_linker" ∷ "mage"
    ∷ "wizard" ∷ "sage" ∷ "high_mage" ∷ "high_wizard" ∷ "professor" ∷ []

module _ {R : Type 0} where
  abbrev insensitive_class : Option (Snapshot R) → Bool
  insensitive_class none = false
  insensitive_class (some s) = contains hit_insensitive_classes (normalize_class_for_gates s.class)

  abbrev magic_first : Option (ScoreResponse R) → Bool
  magic_first none = false
  magic_first (some s) = int_lt (s.derived.atk.base +ℤ s.derived.atk.plus) s.derived.matk.max

  -- `isHitInsensitive`
  unfoldable pub is_hit_insensitive : Inputs R → Bool
  unfolding normalize_class_for_gates
  is_hit_insensitive input = insensitive_class input.snapshot || magic_first input.score

  -- The demotion at the end of `evaluateHit`.
  unfoldable pub demote : Inputs R → GateResult R → GateResult R
  unfolding is_blocking is_hit_insensitive
  demote input r =
      if is_blocking r && is_hit_insensitive input
      then record r {
        severity = severity_warn;
        reason = record {
          format =
              str_append
                "auto-attack hit-rate isn't the right quality lens for this build (primary offense is skill/magic-based, not HIT-rolled); %s demoted to warn. "
                r.reason.format;
          args = GateValue.text r.severity ∷ r.reason.args;
        };
      }
      else r

  -- `evaluateRequirements`
  unfoldable pub requirements_of : Option (ScoreResponse R) → List (GateResult R)
  requirements_of none = []
  requirements_of (some s) =
      let rem = s.derived.stat_points_remaining in
      if int_lt rem (pos 0)
      then gate "stat_points_overspent" (GateValue.int (pos 0)) (GateValue.int rem)
          severity_fail_hard "build allocates %d more stat points than the level provides"
          (GateValue.int (difference (neg_part rem) (pos_part rem)) ∷ [])
        ∷ []
      else if int_lt (pos 5) rem
      then gate "stat_points_underspent" (GateValue.int (pos 5)) (GateValue.int rem) severity_warn
          "%d unspent stat points; raise stats to use the full budget" (GateValue.int rem ∷ [])
        ∷ []
      else gate "requirements_met" absent (GateValue.int rem) severity_pass
          "stat allocation within level budget" []
        ∷ []

  unfoldable pub evaluate_requirements : Inputs R → List (GateResult R)
  unfolding requirements_of
  evaluate_requirements input = requirements_of input.score

module _ {R : Type 0} (F : Floats R) where
  -- `hitResult` and `fleeResult`
  abbrev rate : String → R → R → String → String → GateResult R
  rate name threshold actual severity format =
      gate name (GateValue.float threshold) (GateValue.float actual) severity format
        (if str_eq format "" then [] else GateValue.float (F.mul actual (F.dec 100 0)) ∷ [])

  -- The tiers of `evaluateHit`.
  unfoldable pub hit_tier : Bool → HitGates R → R → GateResult R
  hit_tier mvp g actual =
      if mvp
      then (if F.lt actual g.mvp_fail_hard
          then rate "hit_floor_mvp" g.mvp_fail_hard actual severity_fail_hard
              "HIT %g vs MVP target; half your swings miss; fight is unwinnable"
          else if F.lt actual g.mvp_fail
          then rate "hit_floor_mvp" g.mvp_fail actual severity_fail
              "HIT %g vs MVP target; below the 95%% MVP floor; arrows/SP scale per miss"
          else rate "hit_floor_mvp" g.mvp_fail actual severity_pass "")
      else if F.lt actual g.normal_fail_hard
      then rate "hit_floor_normal" g.normal_fail_hard actual severity_fail_hard
          "HIT %g; below 80%%, build can't farm this target"
      else if F.lt actual g.normal_fail
      then rate "hit_floor_normal" g.normal_fail actual severity_fail
          "HIT %g; below 95%%, farming economy breaks (arrow/SP cost per kill scales)"
      else if F.lt actual g.normal_warn
      then rate "hit_floor_normal" g.normal_warn actual severity_warn
          "HIT %g; every guide implicitly aims for 100%%; below this scales per-kill cost"
      else rate "hit_floor_normal" g.normal_warn actual severity_pass ""

  abbrev pub hit_of : Option (CombatResults R) → Option R
  hit_of none = none
  hit_of (some c) = c.hit

  unfoldable pub hit_gates : QualityGates R → Inputs R → Option R → List (GateResult R)
  unfolding hit_tier demote
  hit_gates qg input none = []
  hit_gates qg input (some h) =
      demote input (hit_tier (is_mvp input) qg.hit (F.div h (F.dec 100 0))) ∷ []

  -- `evaluateHit`
  unfoldable pub evaluate_hit : QualityGates R → Inputs R → List (GateResult R)
  unfolding hit_gates
  evaluate_hit qg input = hit_gates qg input (hit_of (combat_of input.score))

  -- The tiers of `evaluateFlee`.
  unfoldable pub flee_tier : FleeGates R → R → List (GateResult R)
  flee_tier g actual =
      if F.lt actual g.fail
      then rate "flee_floor" g.fail actual severity_fail
          "FLEE %g; build relies on dodge but is below the 90%% floor; survives one mob, folds on AoE"
        ∷ []
      else if F.lt actual g.warn
      then rate "flee_floor" g.warn actual severity_warn
          "FLEE %g; dodge-tank build below 95%%; +5 AGI / Whistle / Vali's Manteau closes the gap"
        ∷ []
      else rate "flee_floor" g.warn actual severity_pass "" ∷ []

  unfoldable pub flee_gates :
      FleeGates R → String → Option R → Option R → Option R → List (GateResult R)
  unfolding flee_tier
  flee_gates g scenario_type (some dodge) (some ave) (some ave_with_dodge) =
      let actual = F.div dodge (F.dec 100 0) in
      if F.le (F.mul ave (F.dec 5 1)) ave_with_dodge
      then []
      else if str_eq scenario_type "pvp" && F.lt (F.dec 0 0) g.woe_penalty
      then flee_tier g (F.mul actual (F.sub (F.dec 1 0) g.woe_penalty))
      else flee_tier g actual
  flee_gates g scenario_type _ _ _ = []

  abbrev pub with_combat :
      Option (CombatResults R) → (CombatResults R → List (GateResult R)) → List (GateResult R)
  with_combat none f = []
  with_combat (some c) f = f c

  -- `evaluateFlee`
  unfoldable pub evaluate_flee : QualityGates R → Inputs R → List (GateResult R)
  unfolding flee_gates
  evaluate_flee qg input = with_combat (combat_of input.score) (λ c.
      flee_gates qg.flee (derive_scenario_type input) c.dodge c.incoming.ave
        c.incoming.ave_with_dodge)

  -- Whether the hit rate is below the floor of its target.
  abbrev pub below_floor : Bool → HitGates R → Option R → Bool
  below_floor mvp g none = false
  below_floor mvp g (some h) =
      let actual = F.div h (F.dec 100 0) in
      if mvp
      then F.lt actual g.mvp_fail_hard || F.lt actual g.mvp_fail
      else F.lt actual g.normal_fail_hard || F.lt actual g.normal_fail

  demote-is_blocking :
      (input : Inputs R) (r : GateResult R)
      → is_blocking (demote input r) ≡ (is_blocking r && not (is_hit_insensitive input))
  unfolding demote is_blocking
  demote-is_blocking input r =
      demoted-is_blocking (is_blocking r) (is_hit_insensitive input) r _ refl refl

  hit_tier-is_blocking :
      (mvp : Bool) (g : HitGates R) (h : R)
      → is_blocking (hit_tier mvp g (F.div h (F.dec 100 0))) ≡ below_floor mvp g (some h)
  unfolding hit_tier is_blocking
  hit_tier-is_blocking true g h =
      two_tiers-is_blocking (F.lt (F.div h (F.dec 100 0)) g.mvp_fail_hard)
        (F.lt (F.div h (F.dec 100 0)) g.mvp_fail) _ _ _ refl refl refl
  hit_tier-is_blocking false g h =
      two_tiers-is_blocking (F.lt (F.div h (F.dec 100 0)) g.normal_fail_hard)
        (F.lt (F.div h (F.dec 100 0)) g.normal_fail) _ _ _ refl refl
        (open_tiers-is_blocking (F.lt (F.div h (F.dec 100 0)) g.normal_warn) _ _ refl refl)

  hit_gates-has_fail :
      (qg : QualityGates R) (input : Inputs R) (hit : Option R)
      → has_fail (hit_gates qg input hit)
        ≡ (below_floor (is_mvp input) qg.hit hit && not (is_hit_insensitive input))
  unfolding hit_gates has_fail
  hit_gates-has_fail qg input none = refl
  hit_gates-has_fail qg input (some h) = ground (
    arith,
    demote-is_blocking input (hit_tier (is_mvp input) qg.hit (F.div h (F.dec 100 0))),
    hit_tier-is_blocking (is_mvp input) qg.hit h,
  )

  -- The hit gate blocks a build exactly when the calculator gave a hit rate, it is below one of the two failing floors of
  -- the target's tier, and the offense of the build rolls the hit rate at all.
  pub evaluate_hit-has_fail :
      (qg : QualityGates R) (input : Inputs R)
      → has_fail (evaluate_hit qg input) ≡ (
          below_floor (is_mvp input) qg.hit (hit_of (combat_of input.score))
          && not (is_hit_insensitive input))
  unfolding evaluate_hit
  evaluate_hit-has_fail qg input = hit_gates-has_fail qg input (hit_of (combat_of input.score))
