-- ===== src/Hercules/ItemDb.antt =====
-- internal/data/sources/hercules/items.go: `LoadItemDB` behind the reading of the file.
use ro_builder.Prelude.{[], false, List, String, Result, ok, ◌>>=◌}
use ro_builder.Prelude.Int.{ℤ, pos}
use ro_builder.GameData.{Item}
use ro_builder.Hercules.Cursor.{Bytes}
use ro_builder.Hercules.Parser.{Fields, get}
use ro_builder.Hercules.Rows.{
  RowError, LoadError, at_key, int_or, int_or_first, text_of, text_or_first, id_of, load_db,
}

module _ (decode : Bytes → String) where
  -- The fields of an item, once its id is read.
  abbrev pub item_at : Fields → ℤ → Item
  item_at m id = record {
    id = id;
    aegis_name = text_of decode (at_key "AegisName" m);
    name = text_of decode (at_key "Name" m);
    type = text_of decode (at_key "Type" m);
    atk = int_or (pos 0) (at_key "Atk" m);
    def = int_or (pos 0) (at_key "Def" m);
    slots = int_or (pos 0) (at_key "Slots" m);
    weight = int_or (pos 0) (at_key "Weight" m);
    range = int_or (pos 0) (at_key "Range" m);
    loc = text_or_first decode (at_key "Loc" m);
    weapon_lv = int_or (pos 0) (at_key "WeaponLv" m);
    equip_lv = int_or_first (at_key "EquipLv" m);
    subtype = text_of decode (at_key "Subtype" m);
    grants_immunity = [];
    grants_uninterruptible_cast = false;
  }

  -- `itemFromMap`
  unfoldable pub item_from_map : Fields → Result RowError Item
  unfolding get text_of text_or_first int_or int_or_first id_of
  item_from_map m = do id ← id_of (at_key "Id" m); ok (item_at m id)

  -- `LoadItemDB`
  unfoldable pub load_item_db : Bytes → Result LoadError (List Item)
  unfolding load_db item_from_map
  load_item_db src = load_db item_from_map src
