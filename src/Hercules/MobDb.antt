-- ===== src/Hercules/MobDb.antt =====
-- internal/data/sources/hercules/mobs.go: `LoadMobDB` behind the reading of the file.
use ro_builder.Prelude.{List, Option, none, some, String, Result, ok, ◌>>=◌}
use ro_builder.Prelude.Int.{ℤ, pos}
use ro_builder.GameData.{Mob}
use ro_builder.Hercules.Cursor.{Bytes}
use ro_builder.Hercules.Parser.{Value, Fields, get}
use ro_builder.Hercules.Rows.{RowError, LoadError, at_key, int_or, pair_of, text_of, id_of, load_db}

-- An element of a pair, or none where the field is no list of two.
abbrev pub first_of : Option (Value × Value) → Option Value
first_of none = none
first_of (some p) = some p.0

abbrev pub second_of : Option (Value × Value) → Option Value
second_of none = none
second_of (some p) = some p.1

module _ (decode : Bytes → String) where
  -- The fields of a mob, once its id is read: the level and the health are 1 by default.
  abbrev pub mob_at : Fields → ℤ → Mob
  mob_at m id = record {
    id = id;
    sprite_name = text_of decode (at_key "SpriteName" m);
    name = text_of decode (at_key "Name" m);
    jname = text_of decode (at_key "JName" m);
    lv = int_or (pos 1) (at_key "Lv" m);
    hp = int_or (pos 1) (at_key "Hp" m);
    atk_min = int_or (pos 0) (first_of (pair_of (at_key "Attack" m)));
    atk_max = int_or (pos 0) (second_of (pair_of (at_key "Attack" m)));
    def = int_or (pos 0) (at_key "Def" m);
    mdef = int_or (pos 0) (at_key "Mdef" m);
    race = text_of decode (at_key "Race" m);
    element = text_of decode (first_of (pair_of (at_key "Element" m)));
    element_lv = int_or (pos 0) (second_of (pair_of (at_key "Element" m)));
    size = text_of decode (at_key "Size" m);
    threats = none;
  }

  -- `mobFromMap`
  unfoldable pub mob_from_map : Fields → Result RowError Mob
  unfolding get text_of int_or pair_of id_of
  mob_from_map m = do id ← id_of (at_key "Id" m); ok (mob_at m id)

  -- `LoadMobDB`
  unfoldable pub load_mob_db : Bytes → Result LoadError (List Mob)
  unfolding load_db mob_from_map
  load_mob_db src = load_db mob_from_map src
