-- ===== src/Hercules/SkillTree.antt =====
-- internal/data/sources/hercules/skill_tree.go: `LoadSkillTreeDB` behind the reading of the file.
use ro_builder.Prelude.{
  false, List, [], ◌∷◌, ◌++◌, map, Option, none, some, String, Result, ok, err, ◌>>=◌,
  if◌then◌else◌,
}
use ro_builder.Prelude.Int.{ℤ}
use ro_builder.GameData.{ClassSkillTree, ClassSkillEntry}
use ro_builder.Hercules.Cursor.{Bytes}
use ro_builder.Hercules.Tokenizer.{bytes_eq}
use ro_builder.Hercules.Parser.{
  Value, Items, Fields, number, text, list, object, nil, cons, end, field, get,
}
use ro_builder.Hercules.Rows.{key_bytes, at_key}
use ro_builder.Hercules.Roots.{RootError, read_roots}
use ro_builder.Hercules.Keys.{sort_by_key}

-- The errors of `classFromMap`.
pub data TreeError : Type 0 where
  skills_not_an_object : Value → TreeError
  no_max_level : Bytes → Value → TreeError

-- What `extractSkillEntry` reads: the maximum, and the prerequisites with their levels.
abbrev pub Levels : Type 0
Levels = ℤ × List (Bytes × ℤ)

-- The loop of `extractSkillEntry` over the fields of the object form.
unfoldable pub requirements : Fields → List (Bytes × ℤ)
unfolding bytes_eq
requirements end = []
requirements (field k (number n) rest) =
    let others = requirements rest in
    if bytes_eq k (key_bytes "MaxLevel") then others else (k, n) ∷ others
requirements (field k v rest) = requirements rest

-- The object form, at the value of its `MaxLevel`.
unfoldable pub object_levels : Fields → Option Value → Option Levels
unfolding requirements
object_levels m (some (number n)) = some (n, requirements m)
object_levels m _ = none

-- `extractSkillEntry`
unfoldable pub extract_skill_entry : Value → Option Levels
unfolding object_levels get
extract_skill_entry (number n) = some (n, [])
extract_skill_entry (object m) = object_levels m (at_key "MaxLevel" m)
extract_skill_entry _ = none

unfoldable pub keep_levels : Bytes → Value → Option Levels → Result TreeError Levels
keep_levels name v none = err (no_max_level name v)
keep_levels name v (some levels) = ok levels

-- The loop of `classFromMap` over the skills, in whatever order the map gives them.
unfoldable pub skill_levels : Fields → Result TreeError (List (Bytes × Levels))
unfolding keep_levels extract_skill_entry
skill_levels end = ok []
skill_levels (field name v rest) = do
  levels ← keep_levels name v (extract_skill_entry v)
  others ← skill_levels rest
  ok ((name, levels) ∷ others)

-- `m["skills"]`, which may be absent.
unfoldable pub levels_of : Option Value → Result TreeError (List (Bytes × Levels))
unfolding skill_levels
levels_of none = ok []
levels_of (some (object m)) = skill_levels m
levels_of (some v) = err (skills_not_an_object v)

module _ (decode : Bytes → String) where
  -- The loop over the elements of `inherit`.
  unfoldable pub texts_of : Items → List String
  texts_of nil = []
  texts_of (cons (text b) rest) = decode b ∷ texts_of rest
  texts_of (cons v rest) = texts_of rest

  unfoldable pub inherit_of : Option Value → List String
  unfolding texts_of
  inherit_of (some (list items)) = texts_of items
  inherit_of _ = []

  abbrev pub requirement_of : Bytes × ℤ → String × ℤ
  requirement_of r = (decode r.0, r.1)

  abbrev pub entry_of : Bytes × Levels → ClassSkillEntry
  entry_of e = record {
    aegis_name = decode e.0;
    max_level = e.1.0;
    requires = map requirement_of e.1.1;
    unusable = false;
  }

  -- `classFromMap`
  unfoldable pub class_from_map : Bytes → Fields → Result TreeError ClassSkillTree
  unfolding get inherit_of levels_of sort_by_key
  class_from_map name m = do
    levels ← levels_of (at_key "skills" m)
    ok (record {
      name = decode name;
      inherit = inherit_of (at_key "inherit" m);
      skills = map entry_of (sort_by_key levels);
    })

  unfoldable pub add_class :
      Bytes → Fields → List ClassSkillTree → Result TreeError (List ClassSkillTree)
  unfolding class_from_map
  add_class name m classes = do class ← class_from_map name m; ok (classes ++ (class ∷ []))

  -- `LoadSkillTreeDB`
  unfoldable pub load_skill_tree_db : Bytes → Result (RootError TreeError) (List ClassSkillTree)
  unfolding read_roots add_class
  load_skill_tree_db src = read_roots add_class [] src
