-- ===== src/Hercules/Rows.antt =====
-- internal/data/sources/hercules/{items.go, mobs.go}: what the readers of the database files
-- share, the type assertions on a field and the loop over the entries. A value is a field's, or
-- none where the key is missing, Go's nil. Reading the file from the disk is I/O.
pub mod Loads
pub mod RoundTrips
use Prim.Native.Char.{code}
use ro_builder.Prelude.{
  ℕ, suc, Bool, true, false, List, [], ◌∷◌, Option, none, some, String, Result, ok, err, ◌>>=◌,
  tagged, tagged-ok_inv, is_ok, is_ok-last, iff_trans, ◌≡◌, ◌↔◌, refl, ap, arith,
}
use ro_builder.Prelude.Int.{ℤ, pos}
use ro_builder.Hercules.Cursor.{Bytes}
use ro_builder.Hercules.Parser.{
  Value, Items, Fields, number, text, boolean, list, object, nil, cons, end, field, ParseError, get,
  parse_file,
}

-- The bytes of a key, which is ASCII.
abbrev pub key_bytes : String → Bytes
key_bytes String.[] = []
key_bytes (String.◌∷◌ c s) = code c ∷ key_bytes s

-- `m[key]`
abbrev pub at_key : String → Fields → Option Value
at_key key m = get (key_bytes key) m

-- `if v, ok := m[key].(int); ok { x = v }`, where `x` is the first argument before.
unfoldable pub int_or : ℤ → Option Value → ℤ
int_or default (some (number n)) = n
int_or default _ = default

-- `intOrFirstArrayInt`
unfoldable pub int_or_first : Option Value → ℤ
unfolding int_or
int_or_first (some (list (cons v rest))) = int_or (pos 0) (some v)
int_or_first v = int_or (pos 0) v

-- The first two elements of a `[]any` that has at least two.
unfoldable pub pair_of : Option Value → Option (Value × Value)
pair_of (some (list (cons v (cons w rest)))) = some (v, w)
pair_of _ = none

-- The records hold texts: `decode` reads the bytes of one.
module _ (decode : Bytes → String) where
  -- `s, _ := m[key].(string)`
  unfoldable pub text_of : Option Value → String
  text_of (some (text b)) = decode b
  text_of _ = ""

  -- `stringOrFirstArrayString`
  unfoldable pub text_or_first : Option Value → String
  unfolding text_of
  text_or_first (some (list (cons v rest))) = text_of (some v)
  text_or_first v = text_of v

-- The error of `itemFromMap` and `mobFromMap`: no `Id`, or one that is no integer.
pub data RowError : Type 0 where
  bad_id : Option Value → RowError

pub data LoadError : Type 0 where
  parse_failed : ParseError → LoadError
  not_object : ℕ → Value → LoadError
  bad_row : ℕ → RowError → LoadError

-- `id, ok := m["Id"].(int)`
unfoldable pub id_of : Option Value → Result RowError ℤ
id_of (some (number n)) = ok n
id_of v = err (bad_id v)

module _ {A : Type 0} (from_map : Fields → Result RowError A) where
  -- The body of the loop, at the entry `i`.
  unfoldable pub load_row : ℕ → Value → Result LoadError A
  load_row i (object m) = tagged (bad_row i) (from_map m)
  load_row i v = err (not_object i v)

  unfoldable pub load_rows : ℕ → Items → Result LoadError (List A)
  unfolding load_row
  load_rows i nil = ok []
  load_rows i (cons v vs) = do row ← load_row i v; rows ← load_rows (suc i) vs; ok (row ∷ rows)

  -- The file behind its reading from the disk.
  unfoldable pub load_db : Bytes → Result LoadError (List A)
  unfolding load_rows parse_file
  load_db src = do values ← tagged parse_failed (parse_file src); load_rows 0 values
