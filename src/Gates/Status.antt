-- ===== src/Gates/Status.antt =====
-- internal/scoring/gates/status.go, coverage.go and defaults.go: the immunity gate.
pub mod Covers
pub mod Fails
use Prim.Native.String.{◌++◌ as str_append}
use ro_builder.Prelude.{
  ℕ, Bool, true, false, not, ◌&&◌, ◌||◌, List, [], ◌∷◌, ◌++◌, Option, none, some, String, str_eq,
  eq_iff, any, if◌then◌else◌, if_cases, Bool-cases, inl, inr, ◌≡◌, ◌↔◌, refl, arith,
}
use ro_builder.Prelude.Int.{ℤ, pos, int_lt, int_eq}
use ro_builder.Scoring.{Stats}
use ro_builder.Domain.Gate.{
  GateResult, GateValue, absent, is_blocking, severity_pass, severity_warn, severity_fail,
}
use ro_builder.Domain.Snapshot.{Snapshot}
use ro_builder.Gates.Inputs.{
  gate, contains, Catalog, Inputs, effective_stats, derive_scenario_type, walk_slots,
}
use ro_builder.Domain.Profile.{custom_mob, QualityGates, StatusPriority, ServerProfile}
use ro_builder.GameData.{Item, Mob, MobThreats}

-- The lookup in `StatusPriority`.
unfoldable pub priority_of : List (String × StatusPriority) → String → Option StatusPriority
priority_of [] key = none
priority_of ((k, p) ∷ rest) key =
    let later = priority_of rest key in if str_eq k key then some p else later

-- `filterOut`
unfoldable pub filter_out : List String → List String → List String
filter_out [] drop = []
filter_out (s ∷ rest) drop =
    let others = filter_out rest drop in if contains drop s then others else s ∷ others

-- `HasFail`
unfoldable pub has_fail : {R : Type 0} → List (GateResult R) → Bool
has_fail results = any is_blocking results

abbrev item_grants : Catalog → String → ℤ → Bool
item_grants catalog status id = elim (catalog.item id) [
  | none ↦ false
  | some item ↦ contains item.grants_immunity status
]

-- The stat thresholds of `buildCovers`.
unfoldable pub stats_cover : Stats → String → Bool
stats_cover st status =
    if str_eq status "stun"
    then not (int_lt st.vit (pos 100))
      || (not (int_lt st.vit (pos 97)) && not (int_lt st.luk (pos 15)))
    else if str_eq status "sleep"
    then not (int_lt st.int (pos 100))
    else false

unfoldable pub without : Option StatusPriority → List String → StatusPriority
unfolding filter_out
without none ignored = record { fail = []; warn = [] }
without (some p) ignored = record {
  fail = filter_out p.fail ignored;
  warn = filter_out p.warn ignored;
}

abbrev pub applied : Option MobThreats → List String
applied none = []
applied (some t) = t.applies_status

module _ {R : Type 0} where
  -- `resolveStatusPriority`
  unfoldable pub resolve_status_priority : QualityGates R → String → List String → StatusPriority
  unfolding priority_of without
  resolve_status_priority qg scenario_type ignored =
      without (priority_of qg.status_priority scenario_type) ignored

  -- The overlay of the profile first, then the catalog.
  abbrev threats_by_id : Option (ServerProfile R) → Option Catalog → ℤ → Option MobThreats
  threats_by_id profile catalog id =
      let base : Option MobThreats = elim catalog [
        | none ↦ none
        | some c ↦ elim (c.mob id) [ none ↦ none | some m ↦ m.threats ]
      ] in
      elim profile [
        | none ↦ base
        | some p ↦ elim (custom_mob p.custom_mobs id) [ none ↦ base | some m ↦ m.threats ]
      ]

  -- `targetThreats`
  unfoldable pub target_threats : Inputs R → Option MobThreats
  unfolding custom_mob
  target_threats input = elim input.scenario [
    | none ↦ none
    | some s ↦
        if int_eq s.target (pos 0) then none else threats_by_id input.profile input.catalog s.target
  ]

  -- `equipmentCovers`
  unfoldable pub equipment_covers : Inputs R → String → Bool
  equipment_covers input status = elim input.snapshot [
    | none ↦ false
    | some s ↦ elim input.catalog [
      | none ↦ false
      | some catalog ↦ walk_slots (item_grants catalog status) s.equipment
    ]
  ]

  -- `buildCovers`: the scored totals, or the allocation of an unscored snapshot.
  unfoldable pub build_covers : Inputs R → String → Bool
  unfolding stats_cover equipment_covers
  build_covers input status = elim input.snapshot [
    | none ↦ false
    | some s ↦ elim (effective_stats input) [
      | none ↦ stats_cover s.stats status || equipment_covers input status
      | some st ↦ stats_cover st status || equipment_covers input status
    ]
  ]

  -- One round of the loop of `evaluateStatusImmunity`, on the tests of the two sets and of the
  -- build. The hint of `immunityHowTo`, which the reason prints behind the status, is left out.
  unfoldable pub status_result :
      (status : String) (is_fail is_warn is_covered : Bool) → List (GateResult R)
  status_result status is_fail is_warn is_covered =
      if not is_fail && not is_warn
      then []
      else if is_covered
      then gate (str_append "status_immunity_" status) absent (GateValue.text "covered")
          severity_pass "build covers %s (stats or equipped item grants immunity)"
          (GateValue.text status ∷ [])
        ∷ []
      else gate (str_append "status_immunity_" status) (GateValue.text status)
          (GateValue.text "uncovered") (if is_fail then severity_fail else severity_warn)
          "target applies %s but build has no immunity (need %s)" (GateValue.text status ∷ [])
        ∷ []

  unfoldable pub status_gates : StatusPriority → (String → Bool) → List String → List (GateResult R)
  unfolding status_result
  status_gates prio covers [] = []
  status_gates prio covers (s ∷ rest) =
      status_result s (contains prio.fail s) (contains prio.warn s) (covers s)
      ++ status_gates prio covers rest

  -- `evaluateStatusImmunity`
  unfoldable pub evaluate_status_immunity : QualityGates R → Inputs R → List (GateResult R)
  unfolding status_gates build_covers target_threats
  evaluate_status_immunity qg input =
      status_gates (resolve_status_priority qg (derive_scenario_type input) input.ignore_status)
        (build_covers input) (applied (target_threats input))
