-- ===== src/Hercules/Rows/Loads.antt =====
-- Which sources the readers of the database files accept.
use ro_builder.Prelude.{
  ℕ, suc, true, Option, none, some, String, Result, ok, tagged-is_ok, tagged-then, ◌∷◌, is_ok,
  is_ok-bind, is_ok-last, iff_trans, ◌≡◌, ◌↔◌, refl,
}
use ro_builder.Prelude.Int.{ℤ, pos}
use ro_builder.Hercules.Cursor.{Bytes}
use ro_builder.Hercules.Parser.{
  Value, Items, Fields, number, text, boolean, list, object, nil, cons, parse_file,
}
use ro_builder.Hercules.Rows.{
  RowError, bad_row, parse_failed, at_key, int_or, id_of, load_row, load_rows, load_db,
}
use ro_builder.Hercules.ItemDb.{item_from_map, item_at, load_item_db}
use ro_builder.Hercules.SkillDb.{skill_from_map, skill_at, load_skill_db}
use ro_builder.Hercules.MobDb.{mob_from_map, mob_at, load_mob_db}

-- An integer in the place of an id.
abbrev pub IsId : Option Value → Type 0
IsId v = (n : ℤ) × (v ≡ some (number n))

-- An entry that is an object with an integer id.
unfoldable pub HasId : Value → Type 0
HasId (object m) = IsId (at_key "Id" m)
HasId v = ⊥

unfoldable pub AllHaveIds : Items → Type 0
AllHaveIds nil = Unit
AllHaveIds (cons v vs) = HasId v × AllHaveIds vs

-- A source that parses to entries with ids.
abbrev pub HoldsRows : Bytes → Type 0
HoldsRows src = (values : Items) × (parse_file src ≡ ok values) × AllHaveIds values

id_of-is_ok : (v : Option Value) → (is_ok (id_of v) ≡ true) ↔ IsId v
unfolding id_of
id_of-is_ok none = (λ e. cc, λ h. cc)
id_of-is_ok (some (number n)) = (λ e. (n, refl), λ h. refl)
id_of-is_ok (some (text b)) = (λ e. cc, λ h. cc)
id_of-is_ok (some (boolean b)) = (λ e. cc, λ h. cc)
id_of-is_ok (some (list vs)) = (λ e. cc, λ h. cc)
id_of-is_ok (some (object m)) = (λ e. cc, λ h. cc)

module _ {A : Type 0} (from_map : Fields → Result RowError A) where
  load_row-is_ok :
      ((m : Fields) → (is_ok (from_map m) ≡ true) ↔ IsId (at_key "Id" m))
      → (i : ℕ) (v : Value) → (is_ok (load_row from_map i v) ≡ true) ↔ HasId v
  unfolding load_row HasId
  load_row-is_ok reads i (object m) = iff_trans (tagged-is_ok (bad_row i) (from_map m)) (reads m)
  load_row-is_ok reads i (number n) = (λ e. cc, λ h. absurd h)
  load_row-is_ok reads i (text b) = (λ e. cc, λ h. absurd h)
  load_row-is_ok reads i (boolean b) = (λ e. cc, λ h. absurd h)
  load_row-is_ok reads i (list vs) = (λ e. cc, λ h. absurd h)

  load_rows-is_ok :
      ((m : Fields) → (is_ok (from_map m) ≡ true) ↔ IsId (at_key "Id" m))
      → (i : ℕ) (values : Items) → (is_ok (load_rows from_map i values) ≡ true) ↔ AllHaveIds values
  unfolding load_rows AllHaveIds
  load_rows-is_ok reads i nil = (λ e. tt, λ h. refl)
  load_rows-is_ok reads i (cons v vs) =
      is_ok-bind (load_row from_map i v) _ _ _ (load_row-is_ok reads i v) (λ row.
        iff_trans (is_ok-last (load_rows from_map (suc i) vs) (λ rows. row ∷ rows))
          (load_rows-is_ok reads (suc i) vs))

  load_db-is_ok :
      ((m : Fields) → (is_ok (from_map m) ≡ true) ↔ IsId (at_key "Id" m))
      → (src : Bytes) → (is_ok (load_db from_map src) ≡ true) ↔ HoldsRows src
  unfolding load_db
  load_db-is_ok reads src =
      tagged-then parse_failed (parse_file src) (load_rows from_map 0) (load_rows-is_ok reads 0)

-- Whatever the texts, `LoadItemDB`, `LoadMobDB` and `LoadSkillDB` accept the same sources: those that
-- `ParseFile` parses to a list in which every entry is an object with an integer `Id`.
pub load_dbs-is_ok :
    (decode : Bytes → String) (src : Bytes)
    → ((is_ok (load_item_db decode src) ≡ true) ↔ HoldsRows src)
      × ((is_ok (load_mob_db decode src) ≡ true) ↔ HoldsRows src)
      × ((is_ok (load_skill_db decode src) ≡ true) ↔ HoldsRows src)
unfolding load_item_db load_mob_db load_skill_db item_from_map mob_from_map skill_from_map
load_dbs-is_ok decode src = (
  load_db-is_ok _
      (λ m.
        iff_trans (is_ok-last (id_of (at_key "Id" m)) (item_at decode m))
          (id_of-is_ok (at_key "Id" m)))
      src,
  load_db-is_ok _
      (λ m.
        iff_trans (is_ok-last (id_of (at_key "Id" m)) (mob_at decode m))
          (id_of-is_ok (at_key "Id" m)))
      src,
  load_db-is_ok _
      (λ m.
        iff_trans
          (is_ok-last (id_of (at_key "Id" m))
            (λ id. skill_at decode m id (int_or (pos 0) (at_key "MaxLevel" m))))
          (id_of-is_ok (at_key "Id" m)))
      src,
)
