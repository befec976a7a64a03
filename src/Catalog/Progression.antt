-- ===== src/Catalog/Progression.antt =====
-- internal/catalog/catalog.go: the chain of jobs that leads to a class, and the skill points that it
-- gives. The walk of `Inherit` is recursive: it runs on fuel, and a walk that would need more is
-- `none`.
pub mod Ends
pub mod Chain
use ro_builder.Prelude.{
  ℕ, zero, suc, Bool, true, false, not, ◌&&◌, List, [], ◌∷◌, ◌++◌, Option, none, some, String,
  str_eq, map, any, length, if◌then◌else◌,
}
use ro_builder.Prelude.Int.{ℤ, pos, negsuc, int_lt, ◌+ℤ◌}
use ro_builder.GameData.{ClassSkillTree}
use ro_builder.Catalog.Names.{normalize_class_key, has_suffix}
use ro_builder.Catalog.Load.{Catalog, get}
use ro_builder.Catalog.Classes.{resolve_alias, class_max_levels}

-- `transSecondJobToTransFirst`
abbrev pub trans_second_job_to_trans_first : List (String × String)
trans_second_job_to_trans_first =
    ("lord_knight", "swordsman_high")
    ∷ ("paladin", "swordsman_high")
    ∷ ("high_priest", "acolyte_high")
    ∷ ("champion", "acolyte_high")
    ∷ ("high_wizard", "magician_high")
    ∷ ("professor", "magician_high")
    ∷ ("whitesmith", "merchant_high")
    ∷ ("creator", "merchant_high")
    ∷ ("assassin_cross", "thief_high")
    ∷ ("stalker", "thief_high")
    ∷ ("sniper", "archer_high")
    ∷ ("clown", "archer_high")
    ∷ ("gypsy", "archer_high")
    ∷ []

-- The variables `seen` (the latest key first) and `out` that `visit` closes over.
pub record Walk : Type 0 where
  pub seen : List String
  pub out : List String

abbrev pub was_seen : List String → String → Bool
was_seen seen k = any (str_eq k) seen

abbrev pub enter : Walk → String → Walk
enter w k = record w { seen = k ∷ w.seen }

abbrev pub emit : String → Option Walk → Option Walk
emit k none = none
emit k (some w) = some (record w { out = w.out ++ k ∷ [] })

-- The inherited classes of a tree, by their keys.
abbrev pub parents : ClassSkillTree → List String
parents tree = map normalize_class_key tree.inherit

abbrev visit_each : (Walk → String → Option Walk) → Option Walk → List String → Option Walk
visit_each visit_one w [] = w
visit_each visit_one none (k ∷ rest) = none
visit_each visit_one (some w) (k ∷ rest) = visit_each visit_one (visit_one w k) rest

-- A key that is not in the catalog is emitted alone.
abbrev visit_tree :
    (Walk → String → Option Walk) → Option ClassSkillTree → Walk → String → Option Walk
visit_tree visit_one none w k = emit k (some w)
visit_tree visit_one (some tree) w k = emit k (visit_each visit_one (some w) (parents tree))

-- The closure `visit`.
unfoldable pub visit : List (String × ClassSkillTree) → ℕ → Walk → String → Option Walk
unfolding get normalize_class_key
visit classes zero w k = none
visit classes (suc fuel) w k =
    if was_seen w.seen k
    then some w
    else visit_tree (visit classes fuel) (get classes k) (enter w k) k

abbrev out_of : Option Walk → List String
out_of none = []
out_of (some w) = w.out

-- `progressionChain` behind its table, on one unit of fuel more than there are classes.
unfoldable pub chain_of : Catalog → String → Option String → List String
unfolding has_suffix visit
chain_of c key (some trans_first) = "novice_high" ∷ trans_first ∷ key ∷ []
chain_of c key none =
    if not (str_eq key "novice_high") && has_suffix key "_high"
    then "novice_high" ∷ key ∷ []
    else if str_eq key "novice_high"
    then "novice_high" ∷ []
    else out_of (visit c.classes (suc (length c.classes)) (record { seen = []; out = [] }) key)

-- `progressionChain`
unfoldable pub progression_chain : Catalog → String → List String
unfolding get chain_of
progression_chain c key = chain_of c key (get trans_second_job_to_trans_first key)

-- What one class of the chain adds.
abbrev pub points_of : Option (ℤ × ℤ) → ℤ
points_of none = pos 0
points_of (some levels) = if int_lt (pos 1) levels.1 then levels.1 +ℤ negsuc 0 else pos 0

unfoldable pub total_points : Catalog → List String → ℤ
unfolding class_max_levels
total_points c [] = pos 0
total_points c (class ∷ rest) = points_of (class_max_levels c class) +ℤ total_points c rest

-- `ClassSkillPointBudget`
unfoldable pub class_skill_point_budget : Catalog → String → Option ℤ
unfolding normalize_class_key resolve_alias get progression_chain total_points
class_skill_point_budget c request =
    let key = resolve_alias (normalize_class_key request) in
    elim (get c.classes key) [
      | none ↦ none
      | some tree ↦ some (total_points c (progression_chain c key))
    ]
