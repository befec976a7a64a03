-- ===== src/Hercules/Rows/RoundTrips.antt =====
-- Entries written from the records read back as them.
use ro_builder.Prelude.{ℕ, suc, List, [], ◌∷◌, map, false, none, String, Result, ok, ◌≡◌, refl}
use ro_builder.GameData.{Item, Mob}
use ro_builder.Hercules.Cursor.{Bytes}
use ro_builder.Hercules.Tokenizer.{bytes_eq}
use ro_builder.Hercules.Parser.{
  Value, Items, Fields, number, text, list, object, nil, cons, end, field, get,
}
use ro_builder.Hercules.Rows.{
  RowError, load_row, load_rows, key_bytes, text_of, text_or_first, int_or, int_or_first, pair_of,
  id_of,
}
use ro_builder.Hercules.ItemDb.{item_from_map}
use ro_builder.Hercules.MobDb.{mob_from_map}

abbrev pair : Value → Value → Value
pair v w = list (cons v (cons w nil))

abbrev pub entries : {A : Type 0} → (A → Fields) → List A → Items
entries entry [] = nil
entries entry (a ∷ rest) = cons (object (entry a)) (entries entry rest)

-- A loop over entries that read back, reads all of them back.
load_rows-entries :
    {A : Type 0} (from_map : Fields → Result RowError A) (entry : A → Fields) (known : A → A)
    → ((a : A) → from_map (entry a) ≡ ok (known a))
    → (i : ℕ) (rows : List A) → load_rows from_map i (entries entry rows) ≡ ok (map known rows)
unfolding load_rows load_row
load_rows-entries from_map entry known reads i [] = refl
load_rows-entries from_map entry known reads i (a ∷ rest) =
    simp (reads a, load_rows-entries from_map entry known reads (suc i) rest)

module _ (encode : String → Bytes) where
  abbrev put : String → Value → Fields → Fields
  put key v m = field (key_bytes key) v m

  abbrev string : String → Value
  string s = text (encode s)

  abbrev pub item_entry : Item → Fields
  item_entry it = put "Id" (number it.id) (
      put "AegisName" (string it.aegis_name) (
        put "Name" (string it.name) (
          put "Type" (string it.type) (
            put "Atk" (number it.atk) (
              put "Def" (number it.def) (
                put "Slots" (number it.slots) (
                  put "Weight" (number it.weight) (
                    put "Range" (number it.range) (
                      put "Loc" (string it.loc) (
                        put "WeaponLv" (number it.weapon_lv) (
                          put "EquipLv" (number it.equip_lv)
                            (put "Subtype" (string it.subtype) end))))))))))))

  abbrev pub mob_entry : Mob → Fields
  mob_entry mob = put "Id" (number mob.id) (
      put "SpriteName" (string mob.sprite_name) (
        put "Name" (string mob.name) (
          put "JName" (string mob.jname) (
            put "Lv" (number mob.lv) (
              put "Hp" (number mob.hp) (
                put "Attack" (pair (number mob.atk_min) (number mob.atk_max)) (
                  put "Def" (number mob.def) (
                    put "Mdef" (number mob.mdef) (
                      put "Race" (string mob.race) (
                        put "Element" (pair (string mob.element) (number mob.element_lv))
                          (put "Size" (string mob.size) end)))))))))))

-- A record without the tags that the build adds by hand.
abbrev pub untagged : Item → Item
untagged it = record it { grants_immunity = []; grants_uninterruptible_cast = false }

pub item_from_map-item_entry :
    (encode : String → Bytes) (decode : Bytes → String)
    → ((s : String) → decode (encode s) ≡ s)
    → (it : Item) → item_from_map decode (item_entry encode it) ≡ ok (untagged it)
unfolding item_from_map get bytes_eq text_of text_or_first int_or int_or_first id_of
item_from_map-item_entry encode decode reads it = simp (reads)

abbrev pub unthreatening : Mob → Mob
unthreatening mob = record mob { threats = none }

pub mob_from_map-mob_entry :
    (encode : String → Bytes) (decode : Bytes → String)
    → ((s : String) → decode (encode s) ≡ s)
    → (mob : Mob) → mob_from_map decode (mob_entry encode mob) ≡ ok (unthreatening mob)
unfolding mob_from_map get bytes_eq text_of int_or pair_of id_of
mob_from_map-mob_entry encode decode reads mob = simp (reads)

-- Items and mobs, each written as an entry of its database file, read back in order as they
-- were, without the tags that the build adds by hand, whenever `decode` undoes `encode`.
pub load_rows-round_trip :
    (encode : String → Bytes) (decode : Bytes → String)
    → ((s : String) → decode (encode s) ≡ s)
    → (i : ℕ) (items : List Item) (mobs : List Mob)
    → (load_rows (item_from_map decode) i (entries (item_entry encode) items)
        ≡ ok (map untagged items))
      × (load_rows (mob_from_map decode) i (entries (mob_entry encode) mobs)
          ≡ ok (map unthreatening mobs))
load_rows-round_trip encode decode reads i items mobs = (
  load_rows-entries (item_from_map decode) (item_entry encode) untagged
      (item_from_map-item_entry encode decode reads) i items,
  load_rows-entries (mob_from_map decode) (mob_entry encode) unthreatening
      (mob_from_map-mob_entry encode decode reads) i mobs,
)
