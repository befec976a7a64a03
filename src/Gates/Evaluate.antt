-- ===== src/Gates/Evaluate.antt =====
-- internal/scoring/gates/gates.go, defaults.go, skill_pairings.go and rotation.go: the thresholds in
-- force, the stances, and all gates together.
pub mod Stances
pub mod Pace
pub mod Interrupted
pub mod Blocks
use Prim.Native.String.{◌++◌ as str_append}
use ro_builder.Prelude.{
  Bool, false, not, ◌&&◌, ◌||◌, List, [], ◌∷◌, ◌++◌, Option, none, some, String, any, if◌then◌else◌,
  ◌≡◌, refl, arith,
}
use ro_builder.Prelude.Int.{ℤ, pos, int_lt}
use ro_builder.Scoring.{SkillAlloc, ScoreResponse, Stats}
use ro_builder.Domain.Gate.{GateResult, GateValue, absent, is_blocking, severity_fail}
use ro_builder.Gates.Inputs.{
  contains, gate, Catalog, Inputs, combat_of, is_mvp, derive_scenario_type, primary_attack_skill,
  effective_stats,
}
use ro_builder.Domain.Profile.{QualityGates, ServerProfile}
use ro_builder.GameData.{Skill}
use ro_builder.Scoring.{Floats}
use ro_builder.Gates.Cast.{
  with_primary, cast_time_gate, evaluate_cast_time, evaluate_uninterruptible_cast,
}
use ro_builder.Gates.Status.{
  has_fail, priority_of, evaluate_status_immunity, target_threats, applied,
}
use ro_builder.Gates.Status.Covers.{is_immune}
use ro_builder.Gates.Status.Fails.{has_fail-append, in_force, evaluate_status_immunity-has_fail}
use ro_builder.Gates.Survival.{evaluate_ehp, evaluate_ttk, dies, evaluate_ehp-has_fail}
use ro_builder.Gates.Offense.{
  evaluate_requirements, requirements_of, evaluate_hit, evaluate_flee, below_floor, hit_of,
  is_hit_insensitive, evaluate_hit-has_fail,
}

-- `taekwonKickStancePairs`, in the order in which the missing pairs are sorted.
abbrev pub taekwon_kick_stance_pairs : List (String × String)
taekwon_kick_stance_pairs =
    ("TK_COUNTER", "TK_READYCOUNTER")
    ∷ ("TK_DOWNKICK", "TK_READYDOWN")
    ∷ ("TK_STORMKICK", "TK_READYSTORM")
    ∷ ("TK_TURNKICK", "TK_READYTURN")
    ∷ []

-- The keys of `allocated`.
unfoldable pub allocated_names : Catalog → List SkillAlloc → List String
allocated_names catalog [] = []
allocated_names catalog (sk ∷ rest) =
    let others = allocated_names catalog rest in
    if not (int_lt (pos 0) sk.level)
    then others
    else elim (catalog.skill sk.id) [ none ↦ others | some s ↦ s.aegis_name ∷ others ]

unfoldable pub missing_stances : List String → List (String × String) → List String
missing_stances names [] = []
missing_stances names ((kick, stance) ∷ rest) =
    let others = missing_stances names rest in
    if contains names kick && not (contains names stance)
    then str_append kick (str_append " without " stance) ∷ others
    else others

unfoldable pub stance_gate : {R : Type 0} → List String → List (GateResult R)
stance_gate [] = []
stance_gate (m ∷ missing) =
    gate "taekwon_kick_missing_stance" absent absent severity_fail
      "Taekwon kick allocated without its READY-stance passive; the stance enables the kick's damage table; the build functionally doesn't deal damage. Allocate the stance at lv 1: "
      (GateValue.text m ∷ texts missing)
    ∷ []
  where
    texts : {R : Type 0} → List String → List (GateValue R)
    texts [] = []
    texts (x ∷ xs) = GateValue.text x ∷ texts xs

module _ {R : Type 0} where
  -- `evaluateTaekwonKickStances`
  unfoldable pub evaluate_taekwon_kick_stances : Inputs R → List (GateResult R)
  unfolding allocated_names missing_stances stance_gate
  evaluate_taekwon_kick_stances input = elim input.snapshot [
    | none ↦ []
    | some s ↦ elim input.catalog [
      | none ↦ []
      | some catalog ↦
          stance_gate (missing_stances (allocated_names catalog s.skills) taekwon_kick_stance_pairs)
    ]
  ]

  -- `evaluateRotation`, which emits nothing.
  unfoldable pub evaluate_rotation : Inputs R → List (GateResult R)
  evaluate_rotation input = []

module _ {R : Type 0} (F : Floats R) where
  -- `canonicalQualityGates`
  abbrev pub canonical_quality_gates : QualityGates R
  canonical_quality_gates = record {
    hit = record {
      normal_fail_hard = F.dec 80 2;
      normal_fail = F.dec 95 2;
      normal_warn = F.dec 100 2;
      mvp_fail_hard = F.dec 85 2;
      mvp_fail = F.dec 95 2;
    };
    flee = record { fail = F.dec 90 2; warn = F.dec 95 2; woe_penalty = F.dec 20 2 };
    ehp_multiplier = record {
      normal = F.dec 15 1;
      mvp_melee = F.dec 20 1;
      mvp_magic_burst = F.dec 25 1;
    };
    ttk_mvp_max_sec = pos 300;
    cast_time_warn_ms = pos 3000;
    cast_interrupt_ms = pos 2000;
    status_priority =
        (
          "pvm",
          record { fail = "frozen" ∷ "stun" ∷ []; warn = "stone_curse" ∷ "curse" ∷ "silence" ∷ [] },
        )
        ∷ (
          "pvp",
          record {
            fail = "frozen" ∷ "stun" ∷ "sleep" ∷ [];
            warn = "stone_curse" ∷ "curse" ∷ "blind" ∷ "silence" ∷ "poison" ∷ [];
          },
        )
        ∷ [];
  }

  -- `resolveQualityGates`: the profile's block as a whole, or the defaults.
  unfoldable pub resolve_quality_gates : Option (ServerProfile R) → QualityGates R
  resolve_quality_gates none = canonical_quality_gates
  resolve_quality_gates (some p) = elim p.quality_gates [
    | none ↦ canonical_quality_gates
    | some qg ↦ qg
  ]

  -- `Evaluate`
  unfoldable pub evaluate : Inputs R → List (GateResult R)
  unfolding resolve_quality_gates evaluate_taekwon_kick_stances evaluate_rotation
  evaluate input =
      let qg = resolve_quality_gates input.profile in
      evaluate_requirements input
      ++ (evaluate_taekwon_kick_stances input
          ++ (evaluate_hit F qg input
              ++ (evaluate_flee F qg input
                  ++ (evaluate_ehp F qg input
                      ++ (evaluate_ttk F qg input
                          ++ (evaluate_cast_time F qg input
                              ++ (evaluate_rotation input
                                  ++ (evaluate_status_immunity qg input
                                      ++ evaluate_uninterruptible_cast F qg input))))))))
