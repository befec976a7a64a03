-- ===== src/Tests/HerculesDb.antt =====
-- The readers of the database files on small sources.
use Prim.Native.Nat.{Ordering, compare}
use Prim.Native.Char.{Char, char, code, nul, IsLt, IsScalar}
use ro_builder.Prelude.{
  ℕ, List, [], ◌∷◌, map, Option, none, some, false, String, ok, err, true, ◌≡◌, ◌≢◌, refl,
}
use ro_builder.Prelude.Int.{ℤ, pos, int_lt}
use ro_builder.GameData.{Item, Mob, Skill, JobMaxLevels}
use ro_builder.Hercules.Cursor.{Bytes}
use ro_builder.Hercules.Tokenizer.{TokenType-discrete, read}
use ro_builder.Hercules.Parser.{
  out_of_fuel, parse_value, value_case, object_case, items_case, parse_file, atoi,
}
use ro_builder.Hercules.Rows.{key_bytes, load_rows}
use ro_builder.Hercules.Rows.RoundTrips.{
  item_entry, mob_entry, entries, untagged, unthreatening, load_rows-round_trip,
}
use ro_builder.Hercules.ItemDb.{item_from_map}
use ro_builder.Hercules.MobDb.{mob_from_map, load_mob_db}
use ro_builder.Hercules.SkillDb.{load_skill_db}
use ro_builder.Hercules.Roots.{syntax}
use ro_builder.Hercules.SkillTree.{load_skill_tree_db}
use ro_builder.Hercules.JobDb.{
  JobExpRefs, ExpGroupMaxLevels, load_job_db, load_exp_group_db, max_levels_of,
  load_job_max_levels_db,
}
use ro_builder.Hercules.JobDb.Joins.{Sorts, loads-end, load_job_max_levels_db-Sorts}

-- Texts back from their bytes, as far as these are the codes of characters.
abbrev Both : Ordering → Ordering → Type 0
Both Ordering.lt o = IsLt o
Both Ordering.eq _ = ⊥
Both Ordering.gt _ = ⊥

abbrev Scalar : Ordering → Ordering → Ordering → Type 0
Scalar Ordering.lt _ _ = Unit
Scalar Ordering.eq o p = Both o p
Scalar Ordering.gt o p = Both o p

abbrev less : (o : Ordering) → Option (IsLt o)
less Ordering.lt = some tt
less Ordering.eq = none
less Ordering.gt = none

abbrev both : (o p : Ordering) → Option (Both o p)
both Ordering.lt p = less p
both Ordering.eq p = none
both Ordering.gt p = none

abbrev scalar : (o p q : Ordering) → Option (Scalar o p q)
scalar Ordering.lt p q = some tt
scalar Ordering.eq p q = both p q
scalar Ordering.gt p q = both p q

less-some : (o : Ordering) (h : IsLt o) → less o ≡ some h
less-some Ordering.lt h = refl
less-some Ordering.eq h = absurd h
less-some Ordering.gt h = absurd h

both-some : (o p : Ordering) (h : Both o p) → both o p ≡ some h
both-some Ordering.lt p h = less-some p h
both-some Ordering.eq p h = absurd h
both-some Ordering.gt p h = absurd h

scalar-some : (o p q : Ordering) (h : Scalar o p q) → scalar o p q ≡ some h
scalar-some Ordering.lt p q h = refl
scalar-some Ordering.eq p q h = both-some p q h
scalar-some Ordering.gt p q h = both-some p q h

abbrev char_or_nul : (n : ℕ) → Option (IsScalar n) → Char
char_or_nul n none = nul
char_or_nul n (some h) = char n h

abbrev char_of : ℕ → Char
char_of n = char_or_nul n (scalar (compare n 55296) (compare 57343 n) (compare n 1114112))

char_of-code : (c : Char) → char_of (code c) ≡ c
char_of-code (char n h) =
    rw (scalar-some (compare n 55296) (compare 57343 n) (compare n 1114112) h) refl

abbrev decode : Bytes → String
decode [] = String.[]
decode (n ∷ rest) = String.◌∷◌ (char_of n) (decode rest)

decode-key_bytes : (s : String) → decode (key_bytes s) ≡ s
decode-key_bytes String.[] = refl
decode-key_bytes (String.◌∷◌ c s) = rw (char_of-code c, decode-key_bytes s) refl

abbrev poring : Mob
poring = record {
  id = pos 1002;
  sprite_name = "PORING";
  name = "Poring";
  jname = "Poring";
  lv = pos 1;
  hp = pos 50;
  atk_min = pos 7;
  atk_max = pos 10;
  def = pos 0;
  mdef = pos 5;
  race = "RC_Plant";
  element = "Ele_Water";
  element_lv = pos 1;
  size = "Size_Medium";
  threats = none;
}

abbrev knife : Item
knife = record {
  id = pos 1201;
  aegis_name = "Knife";
  name = "Knife";
  type = "IT_WEAPON";
  atk = pos 17;
  def = pos 0;
  slots = pos 3;
  weight = pos 400;
  range = pos 1;
  loc = "EQP_WEAPON";
  weapon_lv = pos 1;
  equip_lv = pos 1;
  subtype = "W_DAGGER";
  grants_immunity = "stun" ∷ [];
  grants_uninterruptible_cast = true;
}

load_rows-round_trip_example :
    (load_rows (item_from_map decode) 0 (entries (item_entry key_bytes) (knife ∷ []))
      ≡ ok (map untagged (knife ∷ [])))
    × (load_rows (mob_from_map decode) 0 (entries (mob_entry key_bytes) (poring ∷ []))
        ≡ ok (map unthreatening (poring ∷ [])))
load_rows-round_trip_example =
    load_rows-round_trip key_bytes decode decode-key_bytes 0 (knife ∷ []) (poring ∷ [])

-- A scalar level where a pair is read as a pair, and the level of a mob that does not say it.
abbrev mob_db : Bytes
mob_db =
    key_bytes
      "mob_db: ({ Id: 1, Name: \"a\", Hp: 20, Attack: [7, 9], Element: (\"E\", 2), Lv: \"x\" })"

abbrev small_mob : Mob
small_mob = record {
  id = pos 1;
  sprite_name = "";
  name = "a";
  jname = "";
  lv = pos 1;
  hp = pos 20;
  atk_min = pos 7;
  atk_max = pos 9;
  def = pos 0;
  mdef = pos 0;
  race = "";
  element = "E";
  element_lv = pos 2;
  size = "";
  threats = none;
}

mob_db_loads : load_mob_db decode mob_db ≡ ok (small_mob ∷ [])
unfolding load_mob_db parse_file parse_value value_case object_case items_case read
    TokenType-discrete atoi
mob_db_loads = refl

abbrev trees : Bytes
trees = key_bytes "Mage: { inherit: (\"Novice\"), skills: { B: 10, A: { MaxLevel: 5, B: 3 } } }"

trees_load :
    load_skill_tree_db decode trees
    ≡ ok (
        record {
          name = "Mage";
          inherit = "Novice" ∷ [];
          skills =
              record {
                aegis_name = "A";
                max_level = pos 5;
                requires = ("B", pos 3) ∷ [];
                unusable = false;
              }
              ∷ record { aegis_name = "B"; max_level = pos 10; requires = []; unusable = false }
              ∷ [];
        }
        ∷ [])
unfolding load_skill_tree_db parse_value value_case object_case items_case read TokenType-discrete
    atoi
trees_load = refl

loads-end_example :
    (load_skill_tree_db decode trees ≢ err (syntax out_of_fuel))
    × (load_job_db trees ≢ err (syntax out_of_fuel))
    × (load_exp_group_db trees ≢ err (syntax out_of_fuel))
loads-end_example = loads-end decode trees

abbrev jobs : Bytes
jobs = key_bytes "Mage: { BaseExpGroup: \"G\" } Bard: { JobExpGroup: \"H\" }"

abbrev exp_groups : Bytes
exp_groups = key_bytes "base_exp_group_db: { G: { MaxLevel: 99 } } other: { }"

abbrev row : String → ℤ → String → String → JobMaxLevels
row name base base_group job_group = record {
  name = name;
  max_base_level = base;
  max_job_level = pos 0;
  base_exp_group = base_group;
  job_exp_group = job_group;
}

abbrev rows : List JobMaxLevels
rows = row "Bard" (pos 0) "" "H" ∷ row "Mage" (pos 99) "G" "" ∷ []

jobs_load : load_job_max_levels_db decode jobs exp_groups ≡ ok rows
unfolding load_job_max_levels_db parse_value value_case object_case items_case read
    TokenType-discrete atoi
jobs_load = refl

load_job_max_levels_db-Sorts_example :
    (refs : List (Bytes × JobExpRefs)) × (load_job_db jobs ≡ ok refs)
    × (groups : ExpGroupMaxLevels) × (load_exp_group_db exp_groups ≡ ok groups)
    × (sorted : List (Bytes × JobExpRefs)) × Sorts refs sorted
    × (rows ≡ map (max_levels_of decode groups) sorted)
load_job_max_levels_db-Sorts_example = load_job_max_levels_db-Sorts decode jobs exp_groups jobs_load

abbrev skill_db : Bytes
skill_db =
    key_bytes
      "skill_db: ({ Id: 14, Name: \"C\", MaxLevel: 3, CastTime: { Lv1: 700, Lv3: 2100 }, CoolDown: 5, Element: { Lv1: \"E\", Lv2: \"F\" }, InterruptCast: true })"

abbrev cold_bolt : Skill
cold_bolt = record {
  id = pos 14;
  aegis_name = "C";
  name = "";
  max_level = pos 3;
  attack_type = "";
  element = "F";
  cast_time_ms = pos 2100;
  fixed_cast_ms = pos 0;
  after_cast_ms = pos 0;
  cooldown_ms = pos 5;
  cast_time_by_level_ms = pos 700 ∷ pos 700 ∷ pos 2100 ∷ [];
  interruptible = true;
  status_change = "";
  self_buff = none;
  attack_skill = none;
}

skill_db_loads : load_skill_db decode skill_db ≡ ok (cold_bolt ∷ [])
unfolding load_skill_db parse_file parse_value value_case object_case items_case read
    TokenType-discrete atoi int_lt
skill_db_loads = refl
