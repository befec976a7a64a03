-- ===== src/Hercules/Keys.antt =====
-- internal/data/sources/hercules/{skill_tree.go, job_db.go}: Go's maps by texts, as association
-- lists by their bytes, and the sorting of what a range over one collects.
pub mod Sorted
use ro_builder.Prelude.{
  Bool, true, false, ◌||◌, ◌&&◌, List, [], ◌∷◌, Option, none, some, if◌then◌else◌, ◌==◌, ltb,
}
use ro_builder.Hercules.Cursor.{Bytes}
use ro_builder.Hercules.Tokenizer.{bytes_eq}

-- `a < b` on texts.
unfoldable pub bytes_lt : Bytes → Bytes → Bool
bytes_lt [] [] = false
bytes_lt [] (y ∷ ys) = true
bytes_lt (x ∷ xs) [] = false
bytes_lt (x ∷ xs) (y ∷ ys) = ltb x y || (x == y && bytes_lt xs ys)

module _ {A : Type 0} where
  -- `out[key] = a`
  unfoldable pub set : Bytes → A → List (Bytes × A) → List (Bytes × A)
  unfolding bytes_eq
  set key a [] = (key, a) ∷ []
  set key a ((k, b) ∷ rest) =
      let later = set key a rest in if bytes_eq k key then (key, a) ∷ rest else (k, b) ∷ later

  -- `out[key]`
  unfoldable pub lookup : Bytes → List (Bytes × A) → Option A
  unfolding bytes_eq
  lookup key [] = none
  lookup key ((k, a) ∷ rest) =
      let later = lookup key rest in if bytes_eq k key then some a else later

  -- `sort.Slice` by the key; the keys of a map are distinct, so that no order of ties matters.
  unfoldable pub insert_by_key : Bytes × A → List (Bytes × A) → List (Bytes × A)
  unfolding bytes_lt
  insert_by_key e [] = e ∷ []
  insert_by_key e (first ∷ rest) =
      let inserted = insert_by_key e rest in
      if bytes_lt first.0 e.0 then first ∷ inserted else e ∷ first ∷ rest

  unfoldable pub sort_by_key : List (Bytes × A) → List (Bytes × A)
  unfolding insert_by_key
  sort_by_key [] = []
  sort_by_key (e ∷ rest) = insert_by_key e (sort_by_key rest)
