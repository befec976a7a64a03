-- ===== src/Catalog/Search.antt =====
-- internal/catalog/catalog.go: `SearchItems`.
use mathlib.Core.List.{append-nil, append_assoc}
use ro_builder.Prelude.{
  ℕ, zero, suc, ◌-◌, ◌≤◌, Bool, not, ◌&&◌, ◌||◌, List, [], ◌∷◌, ◌++◌, String, str_eq, length,
  length-append, ap, leb, if◌then◌else◌, ◌≡◌, refl, ◌∙◌, arith,
}
use ro_builder.Prelude.Int.{ℤ, pos, pos_part, int_lt}
use ro_builder.GameData.{Item}
use ro_builder.Catalog.Names.{to_lower, contains_text}
use ro_builder.Catalog.Load.{Catalog}

pub record ItemFilter : Type 0 where
  pub type : String
  pub subtype : String
  pub name_contains : String
  pub min_slots : ℤ
  pub max_slots : ℤ
  pub max_equip_lv : ℤ
  pub limit : ℤ

-- `DefaultSearchLimit` and `MaxSearchLimit`
abbrev pub default_search_limit : ℤ
default_search_limit = pos 20

abbrev pub max_search_limit : ℤ
max_search_limit = pos 100

-- The limit in force.
unfoldable pub search_limit : ItemFilter → ℤ
search_limit f =
    let limit = if int_lt (pos 0) f.limit then f.limit else default_search_limit in
    if int_lt max_search_limit limit then max_search_limit else limit

-- The guards of the loop, each of which skips the item: `nameLower` is the second argument.
unfoldable pub is_skipped : ItemFilter → String → Item → Bool
unfolding to_lower
is_skipped f name_lower it =
    (not (str_eq f.type "") && not (str_eq it.type f.type))
    || (not (str_eq f.subtype "") && not (str_eq it.subtype f.subtype))
    || (not (str_eq name_lower "") && not (contains_text (to_lower it.name) name_lower))
    || (int_lt (pos 0) f.min_slots && int_lt it.slots f.min_slots)
    || (int_lt (pos 0) f.max_slots && int_lt f.max_slots it.slots)
    || (int_lt (pos 0) f.max_equip_lv && int_lt f.max_equip_lv it.equip_lv)

-- The loop, on what it has found, in order.
unfoldable pub search_from : (Item → Bool) → ℕ → List Item → List Item → List Item
search_from skipped limit found [] = found
search_from skipped limit found (it ∷ rest) =
    let next = found ++ it ∷ [] in
    let skipping = search_from skipped limit found rest in
    let going_on = search_from skipped limit next rest in
    if skipped it then skipping else if leb limit (length next) then next else going_on

-- `SearchItems`
unfoldable pub search_items : Catalog → ItemFilter → List Item
unfolding search_limit is_skipped to_lower search_from
search_items c f =
    search_from (is_skipped f (to_lower f.name_contains)) (pos_part (search_limit f)) []
      c.items.listed

-- The items that pass, and the first `n` of a list.
abbrev pub matches : (Item → Bool) → List Item → List Item
matches skipped [] = []
matches skipped (it ∷ rest) =
    let others = matches skipped rest in if skipped it then others else it ∷ others

abbrev pub take {ℓ} : {A : Type ℓ} → ℕ → List A → List A
take zero xs = []
take (suc n) [] = []
take (suc n) (x ∷ xs) = x ∷ take n xs

take-nil {ℓ} : {A : Type ℓ} (n : ℕ) → take {A = A} n [] ≡ []
take-nil zero = refl
take-nil (suc n) = refl

take-cons {ℓ} :
    {A : Type ℓ} (x : A) (xs : List A) (l limit : ℕ)
    → suc l ≤ limit
    → take (limit - l) (x ∷ xs) ≡ x ∷ take (limit - suc l) xs
take-cons x xs l limit h =
    let one_more : limit - l ≡ suc (limit - suc l) = omega (arith, h) in
    ap (λ n. take n (x ∷ xs)) one_more

search_from-matches :
    (skipped : Item → Bool) (limit : ℕ) (found rest : List Item)
    → suc (length found) ≤ limit
    → search_from skipped limit found rest
      ≡ found ++ take (limit - length found) (matches skipped rest)
unfolding search_from
search_from-matches skipped limit found [] h =
    rw (take-nil {A = Item} (limit - length found), append-nil found)
search_from-matches skipped limit found (it ∷ rest) h = ground (
  arith,
  search_from-matches skipped limit found rest,
  search_from-matches skipped limit (found ++ it ∷ []) rest,
  length-append found (it ∷ []),
  take-cons it (matches skipped rest) (length found) limit h,
  append_assoc found (it ∷ []) (take (limit - suc (length found)) (matches skipped rest)),
)

search_empty-matches :
    (skipped : Item → Bool) (limit : ℕ) (rest : List Item)
    → 1 ≤ limit
    → search_from skipped limit [] rest ≡ take limit (matches skipped rest)
search_empty-matches skipped limit rest h =
    let whole : limit - 0 ≡ limit = omega arith in
    search_from-matches skipped limit [] rest h ∙ ap (λ n. take n (matches skipped rest)) whole

-- `SearchItems` returns the first matching items of the catalog, in its order, as many as the limit in force allows; that limit is
-- between 1 and 100.
pub search_items-matches :
    (c : Catalog) (f : ItemFilter)
    → (search_items c f
        ≡ take
            (pos_part (search_limit f))
            (matches (is_skipped f (to_lower f.name_contains)) c.items.listed))
      × (1 ≤ pos_part (search_limit f))
      × (pos_part (search_limit f) ≤ 100)
unfolding search_items
search_items-matches c f =
    let at_least : 1 ≤ pos_part (search_limit f) = unfold search_limit int_lt in ground arith in
    let at_most : pos_part (search_limit f) ≤ 100 = unfold search_limit int_lt in ground arith in
    (
      search_empty-matches (is_skipped f (to_lower f.name_contains)) (pos_part (search_limit f))
          c.items.listed at_least,
      at_least,
      at_most,
    )
