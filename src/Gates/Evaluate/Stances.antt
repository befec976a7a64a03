-- ===== src/Gates/Evaluate/Stances.antt =====
-- internal/scoring/gates/skill_pairings.go: when the gate on kicks without a stance blocks a build.
use ro_builder.Prelude.{
  Bool, false, not, ◌&&◌, ◌||◌, List, [], ◌∷◌, Option, none, some, String, any, str_eq, ◌≡◌, refl,
  ap, ◌∙◌, arith,
}
use ro_builder.Prelude.Int.{pos, int_lt}
use ro_builder.Scoring.{SkillAlloc}
use ro_builder.Domain.Gate.{GateResult, is_blocking}
use ro_builder.Gates.Inputs.{contains, Catalog, Inputs}
use ro_builder.Domain.Snapshot.{Snapshot}
use ro_builder.BuildLibrary.Saved.{is_empty}
use ro_builder.GameData.{Skill}
use ro_builder.Gates.Status.{has_fail}
use ro_builder.Gates.Evaluate.{
  allocated_names, missing_stances, stance_gate, evaluate_taekwon_kick_stances,
  taekwon_kick_stance_pairs,
}

abbrev goes_by : String → Option Skill → Bool
goes_by name none = false
goes_by name (some s) = str_eq name s.aegis_name

-- An allocated skill has the name.
abbrev pub allocates : Catalog → List SkillAlloc → String → Bool
allocates catalog skills name =
    any (λ sk. int_lt (pos 0) sk.level && goes_by name (catalog.skill sk.id)) skills

allocated_names-allocates :
    (catalog : Catalog) (skills : List SkillAlloc) (name : String)
    → contains (allocated_names catalog skills) name ≡ allocates catalog skills name
unfolding allocated_names
allocated_names-allocates catalog [] name = refl
allocated_names-allocates catalog (sk ∷ rest) name =
    ground (arith, allocated_names-allocates catalog rest name)

-- A Taekwon kick is allocated, and the stance that enables it is not.
abbrev pub unsupported : (String → Bool) → Bool
unsupported has =
    (has "TK_COUNTER" && not (has "TK_READYCOUNTER"))
    || ((has "TK_DOWNKICK" && not (has "TK_READYDOWN"))
        || ((has "TK_STORMKICK" && not (has "TK_READYSTORM"))
            || (has "TK_TURNKICK" && not (has "TK_READYTURN"))))

missing_stances-unsupported :
    (names : List String)
    → not (is_empty (missing_stances names taekwon_kick_stance_pairs))
      ≡ unsupported (contains names)
unfolding missing_stances
missing_stances-unsupported names = ground arith

stance_gate-has_fail :
    (R : Type 0) (missing : List String)
    → has_fail (stance_gate {R = R} missing) ≡ not (is_empty missing)
unfolding stance_gate has_fail is_blocking
stance_gate-has_fail R [] = refl
stance_gate-has_fail R (m ∷ missing) = refl

module _ {R : Type 0} where
  abbrev kicks_by : Option (Snapshot R) → Option Catalog → Bool
  kicks_by none catalog = false
  kicks_by (some s) none = false
  kicks_by (some s) (some catalog) = unsupported (allocates catalog s.skills)

  -- A kick of the build lacks its stance.
  abbrev pub lacks_stance : Inputs R → Bool
  lacks_stance input = kicks_by input.snapshot input.catalog

  stances-kicks_by :
      (snapshot : Option (Snapshot R)) (catalog : Option Catalog)
      → has_fail (elim snapshot as (λ _. List (GateResult R)) [
        | none ↦ []
        | some s ↦ elim catalog [
          | none ↦ []
          | some c ↦
              stance_gate (missing_stances (allocated_names c s.skills) taekwon_kick_stance_pairs)
        ]
      ])
        ≡ kicks_by snapshot catalog
  unfolding has_fail
  stances-kicks_by none catalog = refl
  stances-kicks_by (some s) none = refl
  stances-kicks_by (some s) (some c) =
      stance_gate-has_fail R
        (missing_stances (allocated_names c s.skills) taekwon_kick_stance_pairs)
      ∙ (missing_stances-unsupported (allocated_names c s.skills)
          ∙ ap unsupported (λ i name. allocated_names-allocates c s.skills name i))

  pub evaluate_taekwon_kick_stances-has_fail :
      (input : Inputs R) → has_fail (evaluate_taekwon_kick_stances input) ≡ lacks_stance input
  unfolding evaluate_taekwon_kick_stances
  evaluate_taekwon_kick_stances-has_fail input = stances-kicks_by input.snapshot input.catalog
