-- ===== src/Hercules/Keys/Sorted.antt =====
-- Sorting by key: strictly ascending, and the same map.
use mathlib.Core.Path.{subst}
use ro_builder.Prelude.{true, false, List, [], ◌∷◌, none, All, if_cases, ◌≡◌, refl, ◌∙◌, arith}
use ro_builder.Hercules.Cursor.{Bytes}
use ro_builder.Hercules.Tokenizer.{bytes_eq}
use ro_builder.Hercules.Keys.{bytes_lt, set, lookup, insert_by_key, sort_by_key}

bytes_eq_refl : (a : Bytes) → bytes_eq a a ≡ true
unfolding bytes_eq
bytes_eq_refl [] = refl
bytes_eq_refl (x ∷ xs) = ground (arith, bytes_eq_refl xs)

bytes_lt-ne : (a b : Bytes) → bytes_lt a b ≡ true → bytes_eq a b ≡ false
unfolding bytes_lt bytes_eq
bytes_lt-ne [] [] h = cc
bytes_lt-ne [] (y ∷ ys) h = refl
bytes_lt-ne (x ∷ xs) [] h = cc
bytes_lt-ne (x ∷ xs) (y ∷ ys) h = ground (arith, bytes_lt-ne xs ys)

bytes_eq_sym : (a b : Bytes) → bytes_eq a b ≡ bytes_eq b a
unfolding bytes_eq
bytes_eq_sym [] [] = refl
bytes_eq_sym [] (y ∷ ys) = refl
bytes_eq_sym (x ∷ xs) [] = refl
bytes_eq_sym (x ∷ xs) (y ∷ ys) = ground (arith, bytes_eq_sym xs ys)

bytes_lt_total : (a b : Bytes) → bytes_lt a b ≡ false → bytes_eq a b ≡ false → bytes_lt b a ≡ true
unfolding bytes_lt bytes_eq
bytes_lt_total [] [] h ne = cc
bytes_lt_total [] (y ∷ ys) h ne = cc
bytes_lt_total (x ∷ xs) [] h ne = refl
bytes_lt_total (x ∷ xs) (y ∷ ys) h ne = ground (arith, bytes_lt_total xs ys)

bytes_lt_trans : (a b c : Bytes) → bytes_lt a b ≡ true → bytes_lt b c ≡ true → bytes_lt a c ≡ true
unfolding bytes_lt
bytes_lt_trans [] [] c h k = cc
bytes_lt_trans [] (y ∷ ys) [] h k = cc
bytes_lt_trans [] (y ∷ ys) (z ∷ zs) h k = refl
bytes_lt_trans (x ∷ xs) [] c h k = cc
bytes_lt_trans (x ∷ xs) (y ∷ ys) [] h k = cc
bytes_lt_trans (x ∷ xs) (y ∷ ys) (z ∷ zs) h k = ground (arith, bytes_lt_trans xs ys zs)

bytes_eq_path : (a b : Bytes) → bytes_eq a b ≡ true → a ≡ b
unfolding bytes_eq
bytes_eq_path [] [] h = refl
bytes_eq_path [] (y ∷ ys) h = cc
bytes_eq_path (x ∷ xs) [] h = cc
bytes_eq_path (x ∷ xs) (y ∷ ys) h = ground (arith, bytes_eq_path xs ys)

-- Two texts that equal a third are equal.
bytes_eq_join : (a b c : Bytes) → bytes_eq a c ≡ true → bytes_eq b c ≡ true → bytes_eq a b ≡ true
unfolding bytes_eq
bytes_eq_join [] [] c h k = refl
bytes_eq_join [] (y ∷ ys) [] h k = cc
bytes_eq_join [] (y ∷ ys) (z ∷ zs) h k = cc
bytes_eq_join (x ∷ xs) [] [] h k = cc
bytes_eq_join (x ∷ xs) [] (z ∷ zs) h k = cc
bytes_eq_join (x ∷ xs) (y ∷ ys) [] h k = cc
bytes_eq_join (x ∷ xs) (y ∷ ys) (z ∷ zs) h k = ground (arith, bytes_eq_join xs ys zs)

module _ {A : Type 0} where
  abbrev pub KeyAbove : Bytes → Bytes × A → Type 0
  KeyAbove key e = bytes_lt key e.0 ≡ true

  abbrev pub Ascending : List (Bytes × A) → Type 0
  Ascending [] = Unit
  Ascending (e ∷ rest) = All (KeyAbove e.0) rest × Ascending rest

  -- No key twice, as in a map.
  abbrev pub Distinct : List (Bytes × A) → Type 0
  Distinct [] = Unit
  Distinct (e ∷ rest) = (lookup e.0 rest ≡ none) × Distinct rest

  All-insert_by_key :
      (P : Bytes × A → Type 0) (e : Bytes × A) (es : List (Bytes × A))
      → P e
      → All P es
      → All P (insert_by_key e es)
  unfolding insert_by_key
  All-insert_by_key P e [] p h = (p, tt)
  All-insert_by_key P e (first ∷ rest) p h =
      if_cases (All P) (bytes_lt first.0 e.0) (λ c. (h.0, All-insert_by_key P e rest p h.1))
        (λ c. (p, h))

  Above-trans :
      (low key : Bytes) (es : List (Bytes × A))
      → bytes_lt low key ≡ true
      → All (KeyAbove key) es
      → All (KeyAbove low) es
  Above-trans low key [] h above = tt
  Above-trans low key (e ∷ rest) h above =
      (bytes_lt_trans low key e.0 h above.0, Above-trans low key rest h above.1)

  lookup_none_inv :
      (key : Bytes) (first : Bytes × A) (rest : List (Bytes × A))
      → lookup key (first ∷ rest) ≡ none
      → (bytes_eq first.0 key ≡ false) × (lookup key rest ≡ none)
  unfolding lookup
  lookup_none_inv key first rest absent = ground arith

  insert_by_key-Ascending :
      (e : Bytes × A) (es : List (Bytes × A))
      → lookup e.0 es ≡ none
      → Ascending es
      → Ascending (insert_by_key e es)
  unfolding insert_by_key lookup
  insert_by_key-Ascending e [] absent h = (tt, tt)
  insert_by_key-Ascending e (first ∷ rest) absent h =
      let ne = lookup_none_inv e.0 first rest absent in
      if_cases Ascending (bytes_lt first.0 e.0)
        (λ c. (
          All-insert_by_key (KeyAbove first.0) e rest c h.0,
          insert_by_key-Ascending e rest ne.1 h.1,
        ))
        (λ c.
          let above = bytes_lt_total first.0 e.0 c ne.0 in
          ((above, Above-trans e.0 first.0 rest above h.0), h))

  lookup-insert_by_key :
      (key : Bytes) (e : Bytes × A) (es : List (Bytes × A))
      → lookup e.0 es ≡ none
      → lookup key (insert_by_key e es) ≡ lookup key (e ∷ es)
  unfolding insert_by_key lookup
  lookup-insert_by_key key e [] absent = refl
  lookup-insert_by_key key e (first ∷ rest) absent =
      let ne = lookup_none_inv e.0 first rest absent in
      if_cases (λ out. lookup key out ≡ lookup key (e ∷ first ∷ rest)) (bytes_lt first.0 e.0)
        (λ c.
          ground (arith, lookup-insert_by_key key e rest ne.1, bytes_eq_join first.0 e.0 key, ne.0))
        (λ c. refl)

  pub lookup-sort_by_key :
      (key : Bytes) (es : List (Bytes × A))
      → Distinct es
      → lookup key (sort_by_key es) ≡ lookup key es
  unfolding sort_by_key lookup
  lookup-sort_by_key key [] h = refl
  lookup-sort_by_key key (e ∷ rest) h =
      lookup-insert_by_key key e (sort_by_key rest) (lookup-sort_by_key e.0 rest h.1 ∙ h.0)
      ∙ rw (lookup-sort_by_key key rest h.1) refl

  pub sort_by_key-Ascending : (es : List (Bytes × A)) → Distinct es → Ascending (sort_by_key es)
  unfolding sort_by_key
  sort_by_key-Ascending [] h = tt
  sort_by_key-Ascending (e ∷ rest) h =
      insert_by_key-Ascending e (sort_by_key rest) (lookup-sort_by_key e.0 rest h.1 ∙ h.0)
        (sort_by_key-Ascending rest h.1)

  lookup-set-none :
      (key other : Bytes) (a : A) (es : List (Bytes × A))
      → bytes_eq other key ≡ false
      → lookup key es ≡ none
      → lookup key (set other a es) ≡ none
  unfolding set lookup
  lookup-set-none key other a [] ne h = ground arith
  lookup-set-none key other a (e ∷ rest) ne h = ground (arith, lookup-set-none key other a rest ne)

  pub set-Distinct :
      (key : Bytes) (a : A) (es : List (Bytes × A)) → Distinct es → Distinct (set key a es)
  unfolding set lookup
  set-Distinct key a [] h = (refl, tt)
  set-Distinct key a (e ∷ rest) h =
      if_cases Distinct (bytes_eq e.0 key)
        (λ c. (subst (λ k. lookup k rest ≡ none) (bytes_eq_path e.0 key c) h.0, h.1))
        (λ c. (
          lookup-set-none e.0 key a rest (bytes_eq_sym key e.0 ∙ c) h.0,
          set-Distinct key a rest h.1,
        ))
