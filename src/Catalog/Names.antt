-- ===== src/Catalog/Names.antt =====
-- internal/catalog/catalog.go: the keys of classes, and Go's text functions as the catalog uses
-- them. Letters outside ASCII, which no key and no item name has, are not folded.
use Prim.Native.Char.{Char, code}
use Prim.Native.String.{[], ◌∷◌, char_at}
use text.Mathlib.Text.{find?}
use ro_builder.Prelude.{Bool, true, false, ◌||◌, none, some, String, str_eq, ◌==◌, if◌then◌else◌}

abbrev upper_letters : String
upper_letters = "ABCDEFGHIJKLMNOPQRSTUVWXYZ"

abbrev lower_letters : String
lower_letters = "abcdefghijklmnopqrstuvwxyz"

-- The letter of the second text at the place where the first has `c`, or `c` itself.
unfoldable pub translate : String → String → Char → Char
translate [] lower c = c
translate (u ∷ upper) [] c = c
translate (u ∷ upper) (l ∷ lower) c =
    let later = translate upper lower c in if code u == code c then l else later

-- `strings.ToLower` on ASCII text, as the class keys, item names and roles of the data are: a
-- letter beyond ASCII, which Go folds too, is left as it is.
unfoldable pub to_lower : String → String
unfolding translate
to_lower [] = []
to_lower (c ∷ s) = translate upper_letters lower_letters c ∷ to_lower s

-- `strings.ReplaceAll(s, " ", "_")`
unfoldable pub underscored : String → String
underscored [] = []
underscored (c ∷ s) = (if code c == 32 then char_at "_" 0 else c) ∷ underscored s

-- `normalizeClassKey`
unfoldable pub normalize_class_key : String → String
unfolding to_lower underscored
normalize_class_key s = to_lower (underscored s)

-- `strings.HasSuffix`
unfoldable pub has_suffix : String → String → Bool
has_suffix [] suffix = str_eq [] suffix
has_suffix (c ∷ s) suffix = let later = has_suffix s suffix in str_eq (c ∷ s) suffix || later

-- `strings.Contains`
abbrev pub contains_text : String → String → Bool
contains_text s part = elim (find? s part) [ none ↦ false | some i ↦ true ]
