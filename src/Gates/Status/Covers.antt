-- ===== src/Gates/Status/Covers.antt =====
-- internal/scoring/gates/coverage.go: what an equipped item grants, and when a build is immune.
use ro_builder.Prelude.{
  Bool, false, not, ◌&&◌, ◌||◌, [], ◌∷◌, Option, none, some, String, str_eq, any, if◌then◌else◌,
  ◌≡◌, refl, ap, ◌∙◌, arith,
}
use ro_builder.Prelude.Int.{ℤ, pos, int_eq, int_lt}
use ro_builder.GameData.{Item}
use ro_builder.Scoring.{Equipment, EquipSpec, Stats, ScoreResponse}
use ro_builder.Domain.Snapshot.{Snapshot}
use ro_builder.Gates.Inputs.{contains, Catalog, Inputs, walk_slots, effective_stats}
use ro_builder.Gates.Status.{item_grants, stats_cover, equipment_covers, build_covers}

-- The catalog has the item, and the test holds of it.
abbrev pub item_with : Catalog → (Item → Bool) → ℤ → Bool
item_with catalog test id = elim (catalog.item id) [ none ↦ false | some item ↦ test item ]

-- An item of a slot that is not empty, or a card in it.
abbrev pub worn : (ℤ → Bool) → String × EquipSpec → Bool
worn test slot = not (int_eq slot.1.id (pos 0)) && any test (slot.1.id ∷ slot.1.cards)

walk_slots-worn :
    (test : ℤ → Bool) (equipment : Equipment)
    → walk_slots test equipment ≡ any (worn test) equipment
walk_slots-worn test [] = refl
walk_slots-worn test ((slot, spec) ∷ rest) = rw (walk_slots-worn test rest) refl

-- The stats alone make immune: to stun by VIT, or VIT and LUK, to sleep by INT.
abbrev pub is_resistant : Stats → String → Bool
is_resistant st status =
    if str_eq status "stun"
    then not (int_lt st.vit (pos 100))
      || (not (int_lt st.vit (pos 97)) && not (int_lt st.luk (pos 15)))
    else str_eq status "sleep" && not (int_lt st.int (pos 100))

stats_cover-is_resistant :
    (st : Stats) (status : String) → stats_cover st status ≡ is_resistant st status
unfolding stats_cover
stats_cover-is_resistant st status = ground arith

module _ {R : Type 0} where
  abbrev worn_by : (Catalog → ℤ → Bool) → Option (Snapshot R) → Option Catalog → Bool
  worn_by test none catalog = false
  worn_by test (some s) none = false
  worn_by test (some s) (some catalog) = any (worn (test catalog)) s.equipment

  -- The build wears an item that passes the test.
  abbrev pub wears : (Item → Bool) → Inputs R → Bool
  wears test input = worn_by (λ catalog. item_with catalog test) input.snapshot input.catalog

  pub walk-worn_by :
      (test : Catalog → ℤ → Bool) (snapshot : Option (Snapshot R)) (catalog : Option Catalog)
      → (elim snapshot [
        | none ↦ false
        | some s ↦ elim catalog [ none ↦ false | some c ↦ walk_slots (test c) s.equipment ]
      ])
        ≡ worn_by test snapshot catalog
  walk-worn_by test none catalog = refl
  walk-worn_by test (some s) none = refl
  walk-worn_by test (some s) (some c) = walk_slots-worn (test c) s.equipment

  abbrev resistant_by : Stats → Option (ScoreResponse R) → String → Bool
  resistant_by allocated none status = is_resistant allocated status
  resistant_by allocated (some resp) status = is_resistant resp.derived.total_stats status

  abbrev immune_by : Option (Snapshot R) → Option (ScoreResponse R) → Bool → String → Bool
  immune_by none score worn_immunity status = false
  immune_by (some s) score worn_immunity status = resistant_by s.stats score status || worn_immunity

  -- The build is immune: by the stats that the calculator gave, or by those of the allocation when it
  -- is not scored, or by an item that it wears.
  abbrev pub is_immune : Inputs R → String → Bool
  is_immune input status =
      immune_by input.snapshot input.score
        (wears (λ item. contains item.grants_immunity status) input) status

  equipment_covers-wears :
      (input : Inputs R) (status : String)
      → equipment_covers input status ≡ wears (λ item. contains item.grants_immunity status) input
  unfolding equipment_covers
  equipment_covers-wears input status =
      walk-worn_by (λ catalog. item_grants catalog status) input.snapshot input.catalog

  cover-immune_by :
      (snapshot : Option (Snapshot R)) (score : Option (ScoreResponse R)) (worn_immunity : Bool)
      (status : String)
      → (elim snapshot [
        | none ↦ false
        | some s ↦
            elim (elim score as (λ _. Option Stats) [
              | none ↦ none
              | some r ↦ some r.derived.total_stats
            ]) [
              | none ↦ stats_cover s.stats status || worn_immunity
              | some st ↦ stats_cover st status || worn_immunity
            ]
      ])
        ≡ immune_by snapshot score worn_immunity status
  cover-immune_by none score worn_immunity status = refl
  cover-immune_by (some s) none worn_immunity status =
      ap (λ b. b || worn_immunity) (stats_cover-is_resistant s.stats status)
  cover-immune_by (some s) (some r) worn_immunity status =
      ap (λ b. b || worn_immunity) (stats_cover-is_resistant r.derived.total_stats status)

  pub build_covers-is_immune :
      (input : Inputs R) (status : String) → build_covers input status ≡ is_immune input status
  unfolding build_covers effective_stats
  build_covers-is_immune input status =
      cover-immune_by input.snapshot input.score (equipment_covers input status) status
      ∙ ap (λ b. immune_by input.snapshot input.score b status)
          (equipment_covers-wears input status)
