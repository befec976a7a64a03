-- ===== src/Catalog/Progression/Ends.antt =====
-- The walk of `progressionChain` ends, and visits no class twice.
use ro_builder.Prelude.{
  ℕ, zero, suc, ◌≤◌, ◌<◌, true, false, ◌||◌, List, [], ◌∷◌, ◌++◌, Option, none, some, String,
  str_eq, eq_iff, length, if◌then◌else◌, if_cases, Bool-cases, inl, ◌≡◌, ◌⊎◌, refl, arith,
}
use ro_builder.GameData.{ClassSkillTree}
use ro_builder.Catalog.Load.{get}
use ro_builder.Catalog.Progression.{
  Walk, was_seen, enter, emit, parents, visit_each, visit_tree, visit,
}

abbrev pub NoRepeat : List String → Type 0
NoRepeat [] = Unit
NoRepeat (x ∷ xs) = (was_seen xs x ≡ false) × NoRepeat xs

-- What has been emitted has been entered, and nothing twice.
pub record IsTidy (w : Walk) : Type 0 where
  pub no_repeat : NoRepeat w.out
  pub entered : (x : String) → was_seen w.out x ≡ true → was_seen w.seen x ≡ true

-- From `w` on to `after`: nothing is forgotten, and what is emitted was not entered before.
pub record Onward (w after : Walk) : Type 0 where
  pub grows : (x : String) → was_seen w.seen x ≡ true → was_seen after.seen x ≡ true
  pub fresh :
      (x : String)
      → was_seen after.out x ≡ true
      → (was_seen w.out x ≡ true) ⊎ (was_seen w.seen x ≡ false)
  pub tidy : IsTidy after

was_seen-snoc :
    (xs : List String) (k x : String) → was_seen (xs ++ k ∷ []) x ≡ (was_seen xs x || str_eq x k)
was_seen-snoc [] k x = ground arith
was_seen-snoc (y ∷ ys) k x = ground (arith, was_seen-snoc ys k x)

NoRepeat-snoc :
    (xs : List String) (k : String) → NoRepeat xs → was_seen xs k ≡ false → NoRepeat (xs ++ k ∷ [])
NoRepeat-snoc [] k h e = ground arith
NoRepeat-snoc (y ∷ ys) k h e =
    ground (arith, NoRepeat-snoc ys k, was_seen-snoc ys k y, eq_iff k y, eq_iff y k)

Onward-refl : (w : Walk) → IsTidy w → Onward w w
Onward-refl w t = record { grows = λ x e. e; fresh = λ x e. inl e; tidy = t }

Onward-trans : (a b c : Walk) → Onward a b → Onward b c → Onward a c
Onward-trans a b c h k = record {
  grows = λ x e. k.grows x (h.grows x e);
  fresh = λ x e. ground (arith, k.fresh x e, h.fresh x, h.grows x, Bool-cases (was_seen a.seen x));
  tidy = k.tidy;
}

-- A key is entered, its parents are walked, and it is emitted.
emit-Onward :
    (w b : Walk) (k : String)
    → IsTidy w
    → was_seen w.seen k ≡ false
    → Onward (enter w k) b
    → Onward w (record b { out = b.out ++ k ∷ [] })
emit-Onward w b k t new h = record {
  grows = λ x e. h.grows x (ground (arith, e));
  fresh = λ x e.
      ground
        (arith, was_seen-snoc b.out k x, h.fresh x, eq_iff x k, Bool-cases (was_seen w.seen x));
  tidy = record {
    no_repeat =
        NoRepeat-snoc b.out k h.tidy.no_repeat
          (ground (arith, h.fresh k, t.entered k, eq_iff k k, Bool-cases (was_seen b.out k)));
    entered =
        λ x e. ground (arith, was_seen-snoc b.out k x, h.tidy.entered x, h.grows x, eq_iff x k);
  };
}

enter-IsTidy : (w : Walk) (k : String) → IsTidy w → IsTidy (enter w k)
enter-IsTidy w k t = record {
  no_repeat = t.no_repeat;
  entered = λ x e. ground (arith, t.entered x);
}

-- The classes that the walk has not entered.
abbrev pub unseen : List (String × ClassSkillTree) → List String → ℕ
unseen [] seen = 0
unseen (e ∷ rest) seen =
    let others = unseen rest seen in if was_seen seen e.0 then others else suc others

pub unseen-le : (l : List (String × ClassSkillTree)) (seen : List String) → unseen l seen ≤ length l
unseen-le [] seen = omega arith
unseen-le (e ∷ rest) seen = ground (arith, unseen-le rest seen)

unseen-antitone :
    (l : List (String × ClassSkillTree)) (a b : List String)
    → ((x : String) → was_seen a x ≡ true → was_seen b x ≡ true)
    → unseen l b ≤ unseen l a
unseen-antitone [] a b h = omega arith
unseen-antitone (e ∷ rest) a b h =
    ground (arith, unseen-antitone rest a b h, h e.0, Bool-cases (was_seen a e.0))

-- Entering a class of the list that was not entered leaves fewer.
unseen-enter :
    (l : List (String × ClassSkillTree)) (seen : List String) (k : String) (tree : ClassSkillTree)
    → get l k ≡ some tree
    → was_seen seen k ≡ false
    → suc (unseen l (k ∷ seen)) ≤ unseen l seen
unfolding get
unseen-enter [] seen k tree found new = cc
unseen-enter (e ∷ rest) seen k tree found new = ground (
  arith,
  unseen-enter rest seen k tree,
  eq_iff e.0 k,
  eq_iff k e.0,
  unseen-antitone rest seen (k ∷ seen) (λ x h. ground (arith, h)),
)

-- A walk that ends, tidily.
abbrev pub Done : Walk → Option Walk → Type 0
Done w none = ⊥
Done w (some after) = Onward w after

Done-trans : (w b : Walk) (o : Option Walk) → Onward w b → Done b o → Done w o
Done-trans w b none h d = d
Done-trans w b (some after) h d = Onward-trans w b after h d

then_each-Done :
    (visit_one : Walk → String → Option Walk) (w : Walk) (o : Option Walk) (ks : List String)
    → Done w o
    → ((b : Walk) → Onward w b → Done b (visit_each visit_one (some b) ks))
    → Done w (visit_each visit_one o ks)
then_each-Done visit_one w none ks d later = absurd d
then_each-Done visit_one w (some b) ks d later =
    Done-trans w b (visit_each visit_one (some b) ks) d (later b d)

emit-Done :
    (w : Walk) (o : Option Walk) (k : String)
    → IsTidy w
    → was_seen w.seen k ≡ false
    → Done (enter w k) o
    → Done w (emit k o)
emit-Done w none k t new d = d
emit-Done w (some b) k t new d = emit-Onward w b k t new d

module _ (classes : List (String × ClassSkillTree)) where
  -- What `visit` does with enough fuel, for the calls that it makes.
  abbrev Visits : (Walk → String → Option Walk) → ℕ → Type 0
  Visits visit_one fuel =
      (w : Walk) (k : String) → IsTidy w → unseen classes w.seen < fuel → Done w (visit_one w k)

  visit_each-Done :
      (visit_one : Walk → String → Option Walk) (fuel : ℕ)
      → Visits visit_one fuel
      → (w : Walk) (ks : List String) → IsTidy w
      → unseen classes w.seen < fuel
      → Done w (visit_each visit_one (some w) ks)
  visit_each-Done visit_one fuel h w [] t enough = Onward-refl w t
  visit_each-Done visit_one fuel h w (k ∷ ks) t enough =
      then_each-Done visit_one w (visit_one w k) ks (h w k t enough) (λ b on.
        visit_each-Done visit_one fuel h b ks on.tidy
          (omega (arith, unseen-antitone classes w.seen b.seen on.grows, enough)))

  visit_tree-Done :
      (visit_one : Walk → String → Option Walk) (fuel : ℕ)
      → Visits visit_one fuel
      → (found : Option ClassSkillTree) (w : Walk) (k : String) → get classes k ≡ found
      → IsTidy w
      → was_seen w.seen k ≡ false
      → unseen classes w.seen < suc fuel
      → Done w (visit_tree visit_one found (enter w k) k)
  visit_tree-Done visit_one fuel h none w k e t new enough =
      emit-Done w (some (enter w k)) k t new (Onward-refl (enter w k) (enter-IsTidy w k t))
  visit_tree-Done visit_one fuel h (some tree) w k e t new enough =
      emit-Done w (visit_each visit_one (some (enter w k)) (parents tree)) k t new (
        visit_each-Done visit_one fuel h (enter w k) (parents tree) (enter-IsTidy w k t)
          (omega (arith, unseen-enter classes w.seen k tree e new, enough)))

  pub visit-Done :
      (fuel : ℕ) (w : Walk) (k : String)
      → IsTidy w
      → unseen classes w.seen < fuel
      → Done w (visit classes fuel w k)
  unfolding visit
  visit-Done zero w k t enough = omega arith
  visit-Done (suc fuel) w k t enough =
      if_cases (Done w) (was_seen w.seen k) (λ e. Onward-refl w t)
        (λ e.
          visit_tree-Done (visit classes fuel) fuel (visit-Done fuel) (get classes k) w k refl t e
            enough)
