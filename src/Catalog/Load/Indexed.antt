-- ===== src/Catalog/Load/Indexed.antt =====
-- What the loops of `Load` leave in the map by id and in the list beside it.
use mathlib.Core.List.{append-nil, append_assoc}
use ro_builder.Prelude.{
  List, [], ◌∷◌, ◌++◌, Option, none, some, ok, if◌then◌else◌, ◌≡◌, refl, sym, ◌∙◌, arith,
  Option-cases, inl, inr,
}
use ro_builder.Prelude.Int.{ℤ, pos, int_eq, int_eq_iff}
use ro_builder.Catalog.Load.{
  Index, find_id, add_first, index_from, empty_index, index_all, first_with, Catalog, CatalogFile,
  catalog_of, load, item, mob, skill,
}

module _ {ℓ} {A : Type ℓ} (id_of : A → ℤ) where
  abbrev or_else : Option A → Option A → Option A
  or_else none later = later
  or_else (some a) later = some a

  -- No id twice.
  abbrev pub Distinct : List A → Type ℓ
  Distinct [] = Unit
  Distinct (a ∷ rest) = (first_with id_of rest (id_of a) ≡ none) × Distinct rest

  pub record Indexed (rows : List A) (index : Index A) : Type ℓ where
    pub lookup : (id : ℤ) → find_id index.by_id id ≡ first_with id_of rows id
    pub listing : (id : ℤ) → first_with id_of index.listed id ≡ first_with id_of rows id
    pub distinct : Distinct index.listed

  first_with-append :
      (xs ys : List A) (id : ℤ)
      → first_with id_of (xs ++ ys) id ≡ or_else (first_with id_of xs id) (first_with id_of ys id)
  first_with-append [] ys id = refl
  first_with-append (x ∷ xs) ys id = ground (arith, first_with-append xs ys id)

  Distinct-snoc :
      (xs : List A) (a : A)
      → Distinct xs
      → first_with id_of xs (id_of a) ≡ none
      → Distinct (xs ++ a ∷ [])
  Distinct-snoc [] a d h = ground arith
  Distinct-snoc (x ∷ xs) a d h = ground (
    arith,
    Distinct-snoc xs a,
    first_with-append xs (a ∷ []) (id_of x),
    int_eq_iff (id_of x) (id_of a),
    int_eq_iff (id_of a) (id_of x),
  )

  -- A row behind the others is found only under an id that they lack.
  first_with-snoc :
      (rows : List A) (a : A) (id : ℤ)
      → first_with id_of (rows ++ a ∷ []) id
        ≡ or_else (first_with id_of rows id) (if int_eq (id_of a) id then some a else none)
  first_with-snoc rows a id = first_with-append rows (a ∷ []) id

  known-first_with :
      (rows : List A) (a : A) {found : A}
      → first_with id_of rows (id_of a) ≡ some found
      → (id : ℤ) → first_with id_of (rows ++ a ∷ []) id ≡ first_with id_of rows id
  known-first_with rows a known id = elim (Option-cases (first_with id_of rows id)) [
    | inl e ↦ ground (arith, first_with-snoc rows a id, int_eq_iff (id_of a) id, e, known)
    | inr (b, e) ↦ ground (arith, first_with-snoc rows a id, e)
  ]

  add-known :
      (rows : List A) (index : Index A) (a : A) {found : A}
      → Indexed rows index
      → find_id index.by_id (id_of a) ≡ some found
      → Indexed (rows ++ a ∷ []) (add_first id_of index a)
  add-known rows index a h known =
      let in_rows = sym (h.lookup (id_of a)) ∙ known in
      unfold add_first in
      rw (known) (record {
        lookup = λ id. h.lookup id ∙ sym (known-first_with rows a in_rows id);
        listing = λ id. h.listing id ∙ sym (known-first_with rows a in_rows id);
        distinct = h.distinct;
      })

  add-new :
      (rows : List A) (index : Index A) (a : A)
      → Indexed rows index
      → find_id index.by_id (id_of a) ≡ none
      → Indexed (rows ++ a ∷ []) (add_first id_of index a)
  add-new rows index a h new =
      let not_listed = h.listing (id_of a) ∙ sym (h.lookup (id_of a)) ∙ new in
      unfold add_first find_id in
      rw (new) (record {
        lookup = λ id. ground (
          arith,
          first_with-snoc rows a id,
          h.lookup id,
          h.lookup (id_of a),
          new,
          int_eq_iff (id_of a) id,
        );
        listing = λ id.
            ground
              (arith, first_with-snoc index.listed a id, first_with-snoc rows a id, h.listing id);
        distinct = Distinct-snoc index.listed a h.distinct not_listed;
      })

  pub add_first-Indexed :
      (rows : List A) (index : Index A) (a : A)
      → Indexed rows index
      → Indexed (rows ++ a ∷ []) (add_first id_of index a)
  add_first-Indexed rows index a h = elim (Option-cases (find_id index.by_id (id_of a))) [
    | inl new ↦ add-new rows index a h new
    | inr (found, known) ↦ add-known rows index a h known
  ]

  index_from-Indexed :
      (done : List A) (index : Index A) (rest : List A)
      → Indexed done index
      → Indexed (done ++ rest) (index_from id_of index rest)
  unfolding index_from
  index_from-Indexed done index [] h = rw (append-nil done) h
  index_from-Indexed done index (a ∷ rest) h = rw (← append_assoc done (a ∷ []) rest) (
      index_from-Indexed (done ++ a ∷ []) (add_first id_of index a) rest
        (add_first-Indexed done index a h))

  -- The loop that indexes rows by their ids leaves a map that finds the first row of each id, and a list with
  -- the same first rows in which no id stands twice.
  pub index_all-Indexed : (rows : List A) → Indexed rows (index_all id_of rows)
  unfolding index_all find_id
  index_all-Indexed rows =
      index_from-Indexed [] empty_index rows
        (record { lookup = λ id. refl; listing = λ id. refl; distinct = tt })

-- What a loaded catalog serves of its file.
pub record Serves (f : CatalogFile) (c : Catalog) : Type 0 where
  pub supported : f.version ≡ pos 3
  pub items : (id : ℤ) → item c id ≡ first_with (λ a. a.id) f.items id
  pub mobs : (id : ℤ) → mob c id ≡ first_with (λ a. a.id) f.mobs id
  pub skills : (id : ℤ) → skill c id ≡ first_with (λ a. a.id) f.skills id
  pub item_list : Distinct (λ a. a.id) c.items.listed

catalog_of-Serves : (f : CatalogFile) → f.version ≡ pos 3 → Serves f (catalog_of f)
unfolding catalog_of item mob skill
catalog_of-Serves f supported = record {
  supported = supported;
  items = λ id. (index_all-Indexed (λ a. a.id) f.items).lookup id;
  mobs = λ id. (index_all-Indexed (λ a. a.id) f.mobs).lookup id;
  skills = λ id. (index_all-Indexed (λ a. a.id) f.skills).lookup id;
  item_list = (index_all-Indexed (λ a. a.id) f.items).distinct;
}

load-ok_inv :
    (f : CatalogFile) (c : Catalog) → load (ok f) ≡ ok c → (f.version ≡ pos 3) × (catalog_of f ≡ c)
unfolding load
load-ok_inv f c loaded = ground (arith, int_eq_iff f.version (pos 3))

-- A catalog that `Load` returns is of version 3, `Item`, `Mob` and `Skill` give the first row of an id in the file and
-- nothing for an id that the file lacks, and the list that the search walks has no id twice.
pub load-Serves : (f : CatalogFile) (c : Catalog) → load (ok f) ≡ ok c → Serves f c
load-Serves f c loaded =
    let (supported, built) = load-ok_inv f c loaded in rw (← built) (catalog_of-Serves f supported)
