-- ===== src/Catalog/Progression/Chain.antt =====
-- The chain of `progressionChain`, on each of its branches.
use ro_builder.Prelude.{
  suc, true, false, not, ◌&&◌, List, [], ◌∷◌, ◌++◌, Option, none, some, String, str_eq, eq_iff,
  length, All, if_cases, Bool-cases, inl, inr, ◌⊎◌, ◌≡◌, refl, sym, ap, arith,
}
use ro_builder.GameData.{ClassSkillTree}
use ro_builder.Catalog.Names.{has_suffix}
use ro_builder.Catalog.Load.{Catalog, get}
use ro_builder.Catalog.Progression.{
  Walk, enter, emit, parents, visit_each, visit_tree, visit, out_of, chain_of, progression_chain,
  trans_second_job_to_trans_first,
}
use ro_builder.Catalog.Progression.Ends.{NoRepeat, Done, unseen-le, visit-Done}

abbrev pub last_of : List String → Option String
last_of [] = none
last_of (x ∷ xs) = elim (last_of xs) [ none ↦ some x | some y ↦ some y ]

-- No class twice, and the class itself at the end.
pub record LeadsTo (key : String) (chain : List String) : Type 0 where
  pub no_repeat : NoRepeat chain
  pub at_end : last_of chain ≡ some key

last_of-snoc : (xs : List String) (k : String) → last_of (xs ++ k ∷ []) ≡ some k
last_of-snoc [] k = refl
last_of-snoc (x ∷ xs) k = rw (last_of-snoc xs k)

some_at_head {ℓ} :
    {A : Type ℓ} (j : String) (b : A) (rest : List (String × A)) (k : String) (a : A)
    → str_eq j k ≡ true
    → get ((j, b) ∷ rest) k ≡ some a
    → b ≡ a
unfolding get
some_at_head j b rest k a same e = ground arith

get-All {ℓ} :
    {A : Type ℓ} (P : String × A → Type 0) (l : List (String × A)) (k : String) (a : A)
    → All P l
    → get l k ≡ some a
    → P (k, a)
unfolding get
get-All P [] k a h e = cc
get-All P ((j, b) ∷ rest) k a h e = elim (Bool-cases (str_eq j k)) [
  | inl same ↦ rw (← (eq_iff j k).0 same, ← some_at_head j b rest k a same e) h.0
  | inr other ↦ get-All P rest k a h.1 (ground (arith, e, other))
]

abbrev start : Walk
start = record { seen = []; out = [] }

abbrev Led : String → Option Walk → Type 0
Led key none = ⊥
Led key (some w) = LeadsTo key w.out

walk-Led : (key : String) (o : Option Walk) → Done start (emit key o) → Led key (emit key o)
walk-Led key none d = d
walk-Led key (some b) d = record { no_repeat = d.tidy.no_repeat; at_end = last_of-snoc b.out key }

tree-Led :
    (visit_one : Walk → String → Option Walk) (found : Option ClassSkillTree) (key : String)
    → Done start (visit_tree visit_one found (enter start key) key)
    → Led key (visit_tree visit_one found (enter start key) key)
tree-Led visit_one none key d = walk-Led key (some (enter start key)) d
tree-Led visit_one (some tree) key d =
    walk-Led key (visit_each visit_one (some (enter start key)) (parents tree)) d

visit-Led :
    (classes : List (String × ClassSkillTree)) (key : String)
    → Led key (visit classes (suc (length classes)) start key)
unfolding visit
visit-Led classes key = tree-Led (visit classes (length classes)) (get classes key) key (
    visit-Done classes (suc (length classes)) start key
      (record { no_repeat = tt; entered = λ x e. e }) (omega (arith, unseen-le classes [])))

out_of-LeadsTo : (key : String) (o : Option Walk) → Led key o → LeadsTo key (out_of o)
out_of-LeadsTo key none d = absurd d
out_of-LeadsTo key (some w) d = d

abbrev IsTransRow : String × String → Type 0
IsTransRow e = NoRepeat ("novice_high" ∷ e.1 ∷ e.0 ∷ [])

trans_rows : All IsTransRow trans_second_job_to_trans_first
trans_rows = ground arith

first_job-LeadsTo :
    (key : String) → str_eq key "novice_high" ≡ false → LeadsTo key ("novice_high" ∷ key ∷ [])
first_job-LeadsTo key other = record {
  no_repeat = ground (arith, other, eq_iff key "novice_high", eq_iff "novice_high" key);
  at_end = refl;
}

chain_of-LeadsTo :
    (c : Catalog) (key : String) (found : Option String)
    → get trans_second_job_to_trans_first key ≡ found
    → LeadsTo key (chain_of c key found)
unfolding chain_of
chain_of-LeadsTo c key (some trans_first) found = record {
  no_repeat = get-All IsTransRow trans_second_job_to_trans_first key trans_first trans_rows found;
  at_end = refl;
}
chain_of-LeadsTo c key none _ =
    if_cases (LeadsTo key) (not (str_eq key "novice_high") && has_suffix key "_high")
      (λ e. first_job-LeadsTo key (ground (arith, e)))
      (λ _.
        if_cases (LeadsTo key) (str_eq key "novice_high")
          (λ e. record {
            no_repeat = ground arith;
            at_end = ap some (sym ((eq_iff key "novice_high").0 e));
          })
          (λ _.
            out_of-LeadsTo key (visit c.classes (suc (length c.classes)) start key)
              (visit-Led c.classes key)))

-- The chain of a class that the catalog lacks: the class alone, or behind the reborn novice.
abbrev pub Outside : Option ClassSkillTree → String → List String → Type 0
Outside none key chain =
    (chain ≡ key ∷ []) ⊎ ((rest : List String) × (chain ≡ "novice_high" ∷ rest))
Outside (some tree) key chain = Unit

reborn-Outside :
    (found : Option ClassSkillTree) (key : String) (rest : List String)
    → Outside found key ("novice_high" ∷ rest)
reborn-Outside none key rest = inr (rest, refl)
reborn-Outside (some tree) key rest = tt

tree-Outside :
    (visit_one : Walk → String → Option Walk) (found : Option ClassSkillTree) (key : String)
    → Outside found key (out_of (visit_tree visit_one found (enter start key) key))
tree-Outside visit_one none key = inl refl
tree-Outside visit_one (some tree) key = tt

visit-Outside :
    (c : Catalog) (key : String)
    → Outside (get c.classes key) key (out_of (visit c.classes (suc (length c.classes)) start key))
unfolding visit
visit-Outside c key = tree-Outside (visit c.classes (length c.classes)) (get c.classes key) key

chain_of-Outside :
    (c : Catalog) (key : String) (trans : Option String)
    → Outside (get c.classes key) key (chain_of c key trans)
unfolding chain_of
chain_of-Outside c key (some trans_first) =
    reborn-Outside (get c.classes key) key (trans_first ∷ key ∷ [])
chain_of-Outside c key none =
    if_cases (Outside (get c.classes key) key)
      (not (str_eq key "novice_high") && has_suffix key "_high")
      (λ _. reborn-Outside (get c.classes key) key (key ∷ []))
      (λ _.
        if_cases (Outside (get c.classes key) key) (str_eq key "novice_high")
          (λ _. reborn-Outside (get c.classes key) key []) (λ _. visit-Outside c key))

-- The chain of `progressionChain` of any key, whether or not the catalog has a class of it, is never cut short by the fuel: it names
-- no class twice and ends with the key itself; for a key that the catalog lacks it is the key alone or starts with the reborn novice.
pub progression_chain-LeadsTo :
    (c : Catalog) (key : String)
    → LeadsTo key (progression_chain c key)
      × Outside (get c.classes key) key (progression_chain c key)
unfolding progression_chain
progression_chain-LeadsTo c key =
    let trans = get trans_second_job_to_trans_first key in
    (chain_of-LeadsTo c key trans refl, chain_of-Outside c key trans)
