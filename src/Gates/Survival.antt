-- ===== src/Gates/Survival.antt =====
-- internal/scoring/gates/ehp.go and ttk.go: surviving the target, and killing it in time.
use Prim.Native.String.{◌++◌ as str_append}
use ro_builder.Prelude.{
  Bool, false, not, ◌&&◌, ◌||◌, List, [], ◌∷◌, ◌++◌, Option, none, some, String, str_eq, any,
  if◌then◌else◌, ◌≡◌, refl, arith,
}
use ro_builder.Prelude.Int.{ℤ, pos, int_lt, int_eq}
use ro_builder.Scoring.{CombatResults, ScoreResponse}
use ro_builder.Domain.Gate.{
  GateResult, GateValue, is_blocking, two_tiers-is_blocking, severity_pass, severity_fail,
  severity_fail_hard,
}
use ro_builder.Gates.Inputs.{gate, Inputs, combat_of, is_mvp}
use ro_builder.Domain.Profile.{QualityGates, EhpMultiplierGates}
use ro_builder.Scoring.{Floats}
use ro_builder.Gates.Status.{applied, target_threats, has_fail}
use ro_builder.Gates.Status.Fails.{has_fail-append}

module _ {R : Type 0} (F : Floats R) where
  -- `isMagicBurstTarget`
  unfoldable pub is_magic_burst_target : Inputs R → Bool
  is_magic_burst_target input =
      any (λ s. str_eq s "frozen" || str_eq s "sleep" || str_eq s "stone_curse")
        (applied (target_threats input))

  -- The tier of `evaluateEHPLayerA`: its multiplier and its tag.
  unfoldable pub ehp_tier : EhpMultiplierGates R → Inputs R → R × String
  unfolding is_magic_burst_target
  ehp_tier m input =
      if not (is_mvp input)
      then (m.normal, "normal")
      else if is_magic_burst_target input
      then (m.mvp_magic_burst, "mvp_magic_burst")
      else (m.mvp_melee, "mvp_melee")

  -- `evaluateEHPLayerA`
  unfoldable pub evaluate_ehp_layer_a : QualityGates R → Inputs R → ℤ → R → GateResult R
  unfolding ehp_tier
  evaluate_ehp_layer_a qg input max_hp incoming_max =
      let tier = ehp_tier qg.ehp_multiplier input in
      let required = F.mul incoming_max tier.0 in
      if F.lt (F.of_int max_hp) incoming_max
      then gate (str_append "ehp_one_shot_" tier.1) (GateValue.float incoming_max)
          (GateValue.int max_hp) severity_fail_hard
          "target's biggest hit (%.0f) exceeds maxHp (%d); build is one-shot"
          (GateValue.float incoming_max ∷ GateValue.int max_hp ∷ [])
      else if F.lt (F.of_int max_hp) required
      then gate (str_append "ehp_burst_ratio_" tier.1) (GateValue.float required)
          (GateValue.int max_hp) severity_fail
          "maxHp %d below %.1f× target's biggest hit (%.0f required)"
          (GateValue.int max_hp ∷ GateValue.float tier.0 ∷ GateValue.float required ∷ [])
      else gate (str_append "ehp_burst_ratio_" tier.1) (GateValue.float required)
          (GateValue.int max_hp) severity_pass "maxHp %d clears %.1f× big-hit floor (ratio %.2f)"
          (GateValue.int max_hp
            ∷ GateValue.float tier.0
            ∷ GateValue.float (F.div (F.of_int max_hp) incoming_max)
            ∷ [])

  -- `evaluateEHPLayerB`
  unfoldable pub evaluate_ehp_layer_b : ℤ → R → R → List (GateResult R)
  evaluate_ehp_layer_b max_hp incoming_ave battle_time_sec =
      let required = F.mul incoming_ave battle_time_sec in
      if F.le required (F.dec 0 0)
      then []
      else if F.le required (F.of_int max_hp)
      then []
      else gate "ehp_fight_duration" (GateValue.float required) (GateValue.int max_hp) severity_fail
          "maxHp %d below incoming.ave %.0f × battleTimeSec %.1f = %.0f required to survive the fight"
          (GateValue.int max_hp
            ∷ GateValue.float incoming_ave
            ∷ GateValue.float battle_time_sec
            ∷ GateValue.float required
            ∷ [])
        ∷ []

  -- Layer A, when the biggest hit is known and positive.
  unfoldable pub ehp_burst : QualityGates R → Inputs R → ℤ → Option R → List (GateResult R)
  unfolding evaluate_ehp_layer_a
  ehp_burst qg input max_hp none = []
  ehp_burst qg input max_hp (some m) =
      if F.lt (F.dec 0 0) m then evaluate_ehp_layer_a qg input max_hp m ∷ [] else []

  -- Layer B, when the duration and the average are known.
  unfoldable pub ehp_duration : ℤ → Option R → Option R → List (GateResult R)
  unfolding evaluate_ehp_layer_b
  ehp_duration max_hp (some battle_time_sec) (some ave) =
      evaluate_ehp_layer_b max_hp ave battle_time_sec
  ehp_duration max_hp _ _ = []

  -- `evaluateEHP`, with the score's pointers followed.
  unfoldable pub ehp_gates :
      QualityGates R
      → Inputs R
      → Option (ScoreResponse R)
      → Option (CombatResults R)
      → List (GateResult R)
  unfolding ehp_burst ehp_duration
  ehp_gates qg input (some s) (some c) =
      if int_eq s.derived.max_hp (pos 0)
      then []
      else ehp_burst qg input s.derived.max_hp c.incoming.max
        ++ ehp_duration s.derived.max_hp c.battle_time_sec c.incoming.ave
  ehp_gates qg input _ _ = []

  -- `evaluateEHP`
  unfoldable pub evaluate_ehp : QualityGates R → Inputs R → List (GateResult R)
  unfolding ehp_gates
  evaluate_ehp qg input = ehp_gates qg input input.score (combat_of input.score)

  unfoldable pub ttk_gate : ℤ → Option (CombatResults R) → List (GateResult R)
  ttk_gate max_sec none = []
  ttk_gate max_sec (some c) = elim c.battle_time_sec [
    | none ↦ []
    | some actual ↦
        if not (int_lt (pos 0) max_sec)
        then []
        else if F.le actual (F.of_int max_sec)
        then gate "ttk_mvp" (GateValue.int max_sec) (GateValue.float actual) severity_pass "" []
          ∷ []
        else gate "ttk_mvp" (GateValue.int max_sec) (GateValue.float actual) severity_fail
            "MVP TTK %.0fs exceeds %d s ceiling; regen/status timers undermine the kill"
            (GateValue.float actual ∷ GateValue.int max_sec ∷ [])
          ∷ []
  ]

  -- `evaluateTTK`
  unfoldable pub evaluate_ttk : QualityGates R → Inputs R → List (GateResult R)
  unfolding ttk_gate
  evaluate_ttk qg input =
      if not (is_mvp input) then [] else ttk_gate qg.ttk_mvp_max_sec (combat_of input.score)

  -- Layer A's tests, in words of the score.
  abbrev pub burst_kills : QualityGates R → Inputs R → ℤ → Option R → Bool
  burst_kills qg input max_hp none = false
  burst_kills qg input max_hp (some m) =
      F.lt (F.dec 0 0) m
      && (F.lt (F.of_int max_hp) m
          || F.lt (F.of_int max_hp) (F.mul m (ehp_tier qg.ehp_multiplier input).0))

  abbrev pub fight_outlasts : ℤ → Option R → Option R → Bool
  fight_outlasts max_hp (some battle_time_sec) (some ave) =
      not (F.le (F.mul ave battle_time_sec) (F.dec 0 0))
      && not (F.le (F.mul ave battle_time_sec) (F.of_int max_hp))
  fight_outlasts max_hp _ _ = false

  abbrev pub dies :
      QualityGates R → Inputs R → Option (ScoreResponse R) → Option (CombatResults R) → Bool
  dies qg input (some s) (some c) =
      not (int_eq s.derived.max_hp (pos 0))
      && (burst_kills qg input s.derived.max_hp c.incoming.max
          || fight_outlasts s.derived.max_hp c.battle_time_sec c.incoming.ave)
  dies qg input _ _ = false

  layer_a-is_blocking :
      (qg : QualityGates R) (input : Inputs R) (max_hp : ℤ) (m : R)
      → is_blocking (evaluate_ehp_layer_a qg input max_hp m) ≡ (
          F.lt (F.of_int max_hp) m
          || F.lt (F.of_int max_hp) (F.mul m (ehp_tier qg.ehp_multiplier input).0))
  unfolding evaluate_ehp_layer_a is_blocking
  layer_a-is_blocking qg input max_hp m =
      two_tiers-is_blocking (F.lt (F.of_int max_hp) m)
        (F.lt (F.of_int max_hp) (F.mul m (ehp_tier qg.ehp_multiplier input).0)) _ _ _ refl refl refl

  ehp_burst-has_fail :
      (qg : QualityGates R) (input : Inputs R) (max_hp : ℤ) (most : Option R)
      → has_fail (ehp_burst qg input max_hp most) ≡ burst_kills qg input max_hp most
  unfolding ehp_burst has_fail
  ehp_burst-has_fail qg input max_hp none = refl
  ehp_burst-has_fail qg input max_hp (some m) =
      ground (arith, layer_a-is_blocking qg input max_hp m)

  ehp_duration-has_fail :
      (max_hp : ℤ) (time ave : Option R)
      → has_fail (ehp_duration max_hp time ave) ≡ fight_outlasts max_hp time ave
  unfolding ehp_duration has_fail is_blocking evaluate_ehp_layer_b
  ehp_duration-has_fail max_hp none ave = refl
  ehp_duration-has_fail max_hp (some time) none = refl
  ehp_duration-has_fail max_hp (some time) (some ave) = ground arith

  ehp_gates-has_fail :
      (qg : QualityGates R) (input : Inputs R) (s : Option (ScoreResponse R))
      (c : Option (CombatResults R))
      → has_fail (ehp_gates qg input s c) ≡ dies qg input s c
  unfolding ehp_gates has_fail
  ehp_gates-has_fail qg input none c = refl
  ehp_gates-has_fail qg input (some s) none = refl
  ehp_gates-has_fail qg input (some s) (some c) = ground (
    arith,
    has_fail-append (ehp_burst qg input s.derived.max_hp c.incoming.max)
        (ehp_duration s.derived.max_hp c.battle_time_sec c.incoming.ave),
    ehp_burst-has_fail qg input s.derived.max_hp c.incoming.max,
    ehp_duration-has_fail s.derived.max_hp c.battle_time_sec c.incoming.ave,
  )

  -- The survival gate blocks a build exactly when it has hit points and either a positive biggest hit is above them or,
  -- scaled by the multiplier of the target's tier, is, or the average damage over the fight is positive and above them.
  pub evaluate_ehp-has_fail :
      (qg : QualityGates R) (input : Inputs R)
      → has_fail (evaluate_ehp qg input) ≡ dies qg input input.score (combat_of input.score)
  unfolding evaluate_ehp
  evaluate_ehp-has_fail qg input = ehp_gates-has_fail qg input input.score (combat_of input.score)
