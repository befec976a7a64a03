-- ===== src/Hercules/JobDb.antt =====
-- internal/data/sources/hercules/job_db.go: `LoadJobDB`, `LoadExpGroupDB` and their join, behind
-- the reading of the files. Texts stay bytes up to the join, where they are keys.
pub mod Joins
use ro_builder.Prelude.{
  List, [], ◌∷◌, map, Option, none, some, String, Result, ok, err, ◌>>=◌, tagged, if◌then◌else◌,
}
use ro_builder.Prelude.Int.{ℤ, pos}
use ro_builder.GameData.{JobMaxLevels}
use ro_builder.Hercules.Cursor.{Bytes}
use ro_builder.Hercules.Tokenizer.{bytes_eq}
use ro_builder.Hercules.Parser.{Value, Fields, number, text, object, end, field, get}
use ro_builder.Hercules.Rows.{key_bytes, at_key}
use ro_builder.Hercules.Roots.{RootError, read_roots}
use ro_builder.Hercules.Keys.{set, lookup, sort_by_key}

pub record JobExpRefs : Type 0 where
  pub base_exp_group : Bytes
  pub job_exp_group : Bytes

pub record ExpGroupMaxLevels : Type 0 where
  pub base : List (Bytes × ℤ)
  pub job : List (Bytes × ℤ)

-- `if s, ok := obj[key].(string); ok { x = s }`, where `x` is empty before.
unfoldable pub bytes_of : Option Value → Bytes
bytes_of (some (text b)) = b
bytes_of _ = []

abbrev pub refs_of : Fields → JobExpRefs
refs_of m = record {
  base_exp_group = bytes_of (at_key "BaseExpGroup" m);
  job_exp_group = bytes_of (at_key "JobExpGroup" m);
}

unfoldable pub add_job :
    Bytes → Fields → List (Bytes × JobExpRefs) → Result ⊥ (List (Bytes × JobExpRefs))
unfolding set bytes_of get
add_job name m refs = ok (set name (refs_of m) refs)

-- `LoadJobDB`
unfoldable pub load_job_db : Bytes → Result (RootError ⊥) (List (Bytes × JobExpRefs))
unfolding read_roots add_job
load_job_db src = read_roots add_job [] src

-- `if maxLevel, ok := groupObj["MaxLevel"].(int); ok { target[groupName] = maxLevel }`
unfoldable pub set_level : Bytes → Option Value → List (Bytes × ℤ) → List (Bytes × ℤ)
unfolding set
set_level group (some (number n)) target = set group n target
set_level group _ target = target

-- The loop of `LoadExpGroupDB` over the groups of one entry.
unfoldable pub add_groups : Fields → List (Bytes × ℤ) → List (Bytes × ℤ)
unfolding set_level get
add_groups end target = target
add_groups (field group (object g) rest) target =
    add_groups rest (set_level group (at_key "MaxLevel" g) target)
add_groups (field group v rest) target = add_groups rest target

-- The switch of `LoadExpGroupDB` on the name of an entry: an unknown one is skipped.
unfoldable pub add_root : Bytes → Fields → ExpGroupMaxLevels → Result ⊥ ExpGroupMaxLevels
unfolding add_groups bytes_eq
add_root name m out =
    if bytes_eq name (key_bytes "base_exp_group_db")
    then ok (record out { base = add_groups m out.base })
    else if bytes_eq name (key_bytes "job_exp_group_db")
    then ok (record out { job = add_groups m out.job })
    else ok out

-- `LoadExpGroupDB`
unfoldable pub load_exp_group_db : Bytes → Result (RootError ⊥) ExpGroupMaxLevels
unfolding read_roots add_root
load_exp_group_db src = read_roots add_root (record { base = []; job = [] }) src

-- A level of a map of levels, 0 for a missing group.
abbrev pub level_or_zero : Option ℤ → ℤ
level_or_zero none = pos 0
level_or_zero (some n) = n

module _ (decode : Bytes → String) where
  abbrev pub max_levels_of : ExpGroupMaxLevels → Bytes × JobExpRefs → JobMaxLevels
  max_levels_of groups e = record {
    name = decode e.0;
    max_base_level = level_or_zero (lookup e.1.base_exp_group groups.base);
    max_job_level = level_or_zero (lookup e.1.job_exp_group groups.job);
    base_exp_group = decode e.1.base_exp_group;
    job_exp_group = decode e.1.job_exp_group;
  }

  -- `LoadJobMaxLevelsDB`
  unfoldable pub load_job_max_levels_db : Bytes → Bytes → Result (RootError ⊥) (List JobMaxLevels)
  unfolding load_job_db load_exp_group_db lookup sort_by_key
  load_job_max_levels_db jobs exp_groups = do
    refs ← load_job_db jobs
    groups ← load_exp_group_db exp_groups
    ok (map (max_levels_of groups) (sort_by_key refs))
