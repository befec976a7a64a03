-- ===== src/Gates/Status/Fails.antt =====
-- internal/scoring/gates/status.go: when the immunity gate blocks a build.
use ro_builder.Prelude.{
  Bool, true, false, not, ◌&&◌, ◌||◌, List, [], ◌∷◌, ◌++◌, Option, none, some, String, str_eq,
  eq_iff, any, Bool-cases, inl, inr, ◌≡◌, refl, sym, ◌∙◌, ap, arith,
}
use ro_builder.Domain.Gate.{GateResult, is_blocking}
use ro_builder.Gates.Inputs.{contains, Inputs, derive_scenario_type}
use ro_builder.Domain.Profile.{QualityGates, StatusPriority}
use ro_builder.Gates.Status.Covers.{is_immune, build_covers-is_immune}
use ro_builder.Gates.Status.{
  priority_of, filter_out, has_fail, resolve_status_priority, without, applied, status_result,
  status_gates, evaluate_status_immunity, build_covers, target_threats,
}

pub has_fail-append :
    {R : Type 0} (xs ys : List (GateResult R)) → has_fail (xs ++ ys) ≡ (has_fail xs || has_fail ys)
unfolding has_fail
has_fail-append [] ys = refl
has_fail-append (x ∷ xs) ys = ground (arith, has_fail-append xs ys)

contains-filter_out :
    (xs drop : List String) (s : String)
    → contains (filter_out xs drop) s ≡ (contains xs s && not (contains drop s))
unfolding filter_out
contains-filter_out [] drop s = refl
contains-filter_out (x ∷ xs) drop s = elim (Bool-cases (str_eq s x)) [
  | inl same ↦
      rw (sym ((eq_iff s x).0 same)) (ground (arith, contains-filter_out xs drop s, eq_iff s s))
  | inr other ↦ ground (arith, contains-filter_out xs drop s)
]

module _ (R : Type 0) where
  status_result-has_fail :
      (status : String) (is_fail is_warn is_covered : Bool)
      → has_fail (status_result {R = R} status is_fail is_warn is_covered)
        ≡ (is_fail && not is_covered)
  unfolding has_fail status_result is_blocking
  status_result-has_fail status true is_warn true = refl
  status_result-has_fail status true is_warn false = refl
  status_result-has_fail status false true true = refl
  status_result-has_fail status false true false = refl
  status_result-has_fail status false false is_covered = refl

  status_gates-has_fail :
      (prio : StatusPriority) (covers : String → Bool) (statuses : List String)
      → has_fail (status_gates {R = R} prio covers statuses)
        ≡ any (λ s. contains prio.fail s && not (covers s)) statuses
  unfolding status_gates has_fail
  status_gates-has_fail prio covers [] = refl
  status_gates-has_fail prio covers (s ∷ rest) =
      has_fail-append (status_result s (contains prio.fail s) (contains prio.warn s) (covers s))
        (status_gates prio covers rest)
      ∙ (rw (status_result-has_fail s (contains prio.fail s) (contains prio.warn s) (covers s)) (
          ap (λ b. (contains prio.fail s && not (covers s)) || b)
            (status_gates-has_fail prio covers rest)))

-- The status is in the fail list in force, and the request does not ignore it.
abbrev pub in_force : Option StatusPriority → List String → String → Bool
in_force none ignored s = false
in_force (some p) ignored s = contains p.fail s && not (contains ignored s)

without-in_force :
    (found : Option StatusPriority) (ignored : List String) (s : String)
    → contains (without found ignored).fail s ≡ in_force found ignored s
unfolding without
without-in_force none ignored s = refl
without-in_force (some p) ignored s = contains-filter_out p.fail ignored s

any-ap :
    (p q : String → Bool) → ((s : String) → p s ≡ q s) → (xs : List String) → any p xs ≡ any q xs
any-ap p q h [] = refl
any-ap p q h (x ∷ xs) = ground (arith, h x, any-ap p q h xs)

-- The immunity gate blocks a build exactly when its target applies a status that is in the fail
-- list of the scenario's priorities, is not ignored by the request, and the build is not immune to
-- it by its stats or by an item that it wears.
pub evaluate_status_immunity-has_fail :
    {R : Type 0} (qg : QualityGates R) (input : Inputs R)
    → has_fail (evaluate_status_immunity qg input)
      ≡ any
          (λ s.
            in_force
              (priority_of qg.status_priority (derive_scenario_type input))
              input.ignore_status
              s
            && not (is_immune input s))
          (applied (target_threats input))
unfolding evaluate_status_immunity resolve_status_priority
evaluate_status_immunity-has_fail qg input =
    let found = priority_of qg.status_priority (derive_scenario_type input) in
    status_gates-has_fail _ (without found input.ignore_status) (build_covers input)
      (applied (target_threats input))
    ∙ any-ap _ _
        (λ s.
          ap (λ b. b && not (build_covers input s)) (without-in_force found input.ignore_status s)
          ∙ ap (λ b. in_force found input.ignore_status s && not b)
              (build_covers-is_immune input s))
        (applied (target_threats input))
