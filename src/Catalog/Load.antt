-- ===== src/Catalog/Load.antt =====
-- internal/catalog/catalog.go: `Load`, and the lookups by id. Decoding the embedded file is a
-- library's work: `load` takes its result.
pub mod Indexed
use ro_builder.Prelude.{
  Bool, true, false, not, ◌&&◌, List, [], ◌∷◌, ◌++◌, Option, none, some, String, str_eq, Result, ok,
  err, if◌then◌else◌, if_cases, All, ◌≡◌, refl, sym, ◌∙◌, ◌≢◌, ◌↔◌, arith,
}
use ro_builder.Prelude.Int.{ℤ, pos, int_eq, int_eq_iff}
use ro_builder.GameData.{Item, Mob, Skill, SelfBuff, ClassSkillTree, JobMaxLevels}
use ro_builder.Catalog.Names.{normalize_class_key}

pub record CatalogFile : Type 0 where
  pub version : ℤ
  pub mode : String
  pub items : List Item
  pub mobs : List Mob
  pub skills : List Skill
  pub classes : List (String × ClassSkillTree)
  pub job_max_levels : List JobMaxLevels
  pub class_innate_buffs : List (String × List SelfBuff)

-- A map by id and the list beside it, such as `items` and `itemList`.
pub record Index {ℓ} (A : Type ℓ) : Type ℓ where
  pub by_id : List (ℤ × A)
  pub listed : List A

pub record Catalog : Type 0 where
  pub version : ℤ
  pub items : Index Item
  pub mobs : Index Mob
  pub skills : Index Skill
  pub skills_by_name : List (String × Skill)
  pub classes : List (String × ClassSkillTree)
  pub job_max_levels : List (String × (ℤ × ℤ))
  pub class_innate_buffs : List (String × List SelfBuff)

pub data LoadError : Type 0 where
  decode_failed : String → LoadError
  unsupported_version : ℤ → LoadError

-- `expectedVersion`
abbrev pub expected_version : ℤ
expected_version = pos 3

-- `m[key]` of a map with text keys: an association list, the latest entry of a key first.
unfoldable pub get {ℓ} : {A : Type ℓ} → List (String × A) → String → Option A
get [] key = none
get ((k, a) ∷ rest) key = let later = get rest key in if str_eq k key then some a else later

module _ {ℓ} {A : Type ℓ} where
  -- `m[id]`
  unfoldable pub find_id : List (ℤ × A) → ℤ → Option A
  find_id [] id = none
  find_id ((k, a) ∷ rest) id = let later = find_id rest id in if int_eq k id then some a else later

  abbrev is_found : Option A → Bool
  is_found none = false
  is_found (some a) = true

  -- One round of a loop that skips an id it has seen.
  unfoldable pub add_first : (A → ℤ) → Index A → A → Index A
  unfolding find_id
  add_first id_of index a =
      if is_found (find_id index.by_id (id_of a))
      then index
      else record { by_id = (id_of a, a) ∷ index.by_id; listed = index.listed ++ a ∷ [] }

  unfoldable pub index_from : (A → ℤ) → Index A → List A → Index A
  unfolding add_first
  index_from id_of index [] = index
  index_from id_of index (a ∷ rest) = index_from id_of (add_first id_of index a) rest

  abbrev pub empty_index : Index A
  empty_index = record { by_id = []; listed = [] }

  -- The loop that fills `c.items`, `c.mobs` or `c.skills`.
  unfoldable pub index_all : (A → ℤ) → List A → Index A
  unfolding index_from
  index_all id_of rows = index_from id_of empty_index rows

  -- A loop of assignments `m[key(a)] = value(a)` into the map `m`.
  unfoldable pub assign_all {κ} :
      {V : Type κ} → (A → String) → (A → V) → List (String × V) → List A → List (String × V)
  assign_all key value entries [] = entries
  assign_all key value entries (a ∷ rest) = assign_all key value ((key a, value a) ∷ entries) rest

-- What `Load` builds from a file of the right version.
unfoldable pub catalog_of : CatalogFile → Catalog
unfolding index_all assign_all
catalog_of f = record {
  version = f.version;
  items = index_all (λ a. a.id) f.items;
  mobs = index_all (λ a. a.id) f.mobs;
  skills = index_all (λ a. a.id) f.skills;
  skills_by_name =
      assign_all (λ a. a.aegis_name) (λ a. a) [] (index_all (λ a. a.id) f.skills).listed;
  classes = assign_all (λ e. e.0) (λ e. e.1) [] f.classes;
  job_max_levels =
      assign_all (λ j. normalize_class_key j.name) (λ j. (j.max_base_level, j.max_job_level)) []
        f.job_max_levels;
  class_innate_buffs = assign_all (λ e. e.0) (λ e. e.1) [] f.class_innate_buffs;
}

-- `Load`, behind the decoding.
unfoldable pub load : Result String CatalogFile → Result LoadError Catalog
unfolding catalog_of
load (err problem) = err (decode_failed problem)
load (ok f) =
    if not (int_eq f.version expected_version)
    then err (unsupported_version f.version)
    else ok (catalog_of f)

-- `Catalog.Item`, `Catalog.Mob`, `Catalog.Skill`
unfoldable pub item : Catalog → ℤ → Option Item
unfolding find_id
item c id = find_id c.items.by_id id

unfoldable pub mob : Catalog → ℤ → Option Mob
unfolding find_id
mob c id = find_id c.mobs.by_id id

unfoldable pub skill : Catalog → ℤ → Option Skill
unfolding find_id
skill c id = find_id c.skills.by_id id

-- The first row of the id.
abbrev pub first_with {ℓ} : {A : Type ℓ} → (A → ℤ) → List A → ℤ → Option A
first_with id_of [] id = none
first_with id_of (a ∷ rest) id =
    let later = first_with id_of rest id in if int_eq (id_of a) id then some a else later
