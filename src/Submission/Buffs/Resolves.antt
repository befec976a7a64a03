-- ===== src/Submission/Buffs/Resolves.antt =====
-- What `resolveBuffs` accepts, and what it returns.
use ro_builder.Prelude.{
  ℕ, suc, List, [], ◌∷◌, Option, none, some, String, eq_iff, map, ok, ◌≡◌, ◌≢◌, ◌⊎◌, ◌↔◌, refl,
  arith, All,
}
use ro_builder.Prelude.Int.{ℤ, pos, ◌≤ℤ◌, int_lt}
use ro_builder.GameData.{SelfBuff, EndowSpec}
use ro_builder.Scoring.{Buff, SkillAlloc}
use ro_builder.Domain.Snapshot.{ActiveBuff}
use ro_builder.Domain.Trajectory.{skill_level}
use ro_builder.Catalog.Load.{Catalog, get}
use ro_builder.Catalog.Classes.{ClassSkill, class_buffs}
use ro_builder.Submission.Buffs.{
  weapon_endow, Anchor, BuffMaps, check_element, validate_endow_element, check_buff_element,
  resolved, resolve_anchored, resolve_innate, resolve_by, resolve_each, buff_maps,
  resolve_available, resolve_buffs,
}

-- The first place of an element in a list, from 1, when it has one, is within the level.
abbrev pub Within : List String → String → ℕ → ℤ → Type 0
Within [] element i level = ⊥
Within (el ∷ rest) element i level =
    ((el ≡ element) × (pos (suc i) ≤ℤ level)) ⊎ ((el ≢ element) × Within rest element (suc i) level)

abbrev pub Offers : Option EndowSpec → String → ℤ → Type 0
Offers none element level = ⊥
Offers (some spec) element level = Within spec.elements element 0 level

-- An endow has an element that it offers at the level; another buff has none.
pub record ElementFits (ab : ActiveBuff) (buff : SelfBuff) (level : ℤ) : Type 0 where
  pub endowed : buff.kind ≡ weapon_endow → (ab.element ≢ "") × Offers buff.endow ab.element level
  pub plain : buff.kind ≢ weapon_endow → ab.element ≡ ""

abbrev pub LevelFits : ActiveBuff → Anchor → Option ℤ → Buff → Type 0
LevelFits ab anchor none b = ⊥
LevelFits ab anchor (some level) b =
    (pos 1 ≤ℤ level) × ElementFits ab anchor.1 level × (b ≡ resolved ab level)

abbrev pub InnateFits : ActiveBuff → Option SelfBuff → Buff → Type 0
InnateFits ab none b = ⊥
InnateFits ab (some buff) b = (ab.element ≡ "") × (b ≡ resolved ab (pos 1))

abbrev pub FitsBy : List SkillAlloc → ActiveBuff → Option Anchor → Option SelfBuff → Buff → Type 0
FitsBy skills ab (some anchor) innate b = LevelFits ab anchor (skill_level skills anchor.0.id) b
FitsBy skills ab none innate b = InnateFits ab innate b

-- A declared buff and the resolved one: the level is the allocation of the anchor skill, or 1 for a
-- buff that is innate to the class.
abbrev pub Fits : BuffMaps → List SkillAlloc → ActiveBuff → Buff → Type 0
Fits maps skills ab b = FitsBy skills ab (get maps.by_name ab.name) (get maps.innate ab.name) b

abbrev pub AllFit : BuffMaps → List SkillAlloc → List ActiveBuff → List Buff → Type 0
AllFit maps skills [] [] = Unit
AllFit maps skills [] (b ∷ out) = ⊥
AllFit maps skills (ab ∷ active) [] = ⊥
AllFit maps skills (ab ∷ active) (b ∷ out) = Fits maps skills ab b × AllFit maps skills active out

check_element_iff :
    (ab : ActiveBuff) (level : ℤ) (i : ℕ) (els : List String)
    → (check_element ab level i els ≡ ok tt) ↔ Within els ab.element i level
unfolding check_element int_lt
check_element_iff ab level i [] = ground arith
check_element_iff ab level i (el ∷ rest) =
    ground (arith, check_element_iff ab level (suc i) rest, eq_iff el ab.element)

validate_endow_element_iff :
    (ab : ActiveBuff) (endow : Option EndowSpec) (level : ℤ)
    → (validate_endow_element ab endow level ≡ ok tt)
      ↔ ((ab.element ≢ "") × Offers endow ab.element level)
unfolding validate_endow_element
validate_endow_element_iff ab none level = ground (arith, eq_iff ab.element "")
validate_endow_element_iff ab (some spec) level =
    ground (arith, eq_iff ab.element "", check_element_iff ab level 0 spec.elements)

check_buff_element_iff :
    (ab : ActiveBuff) (buff : SelfBuff) (level : ℤ)
    → (check_buff_element ab buff level ≡ ok tt) ↔ ElementFits ab buff level
unfolding check_buff_element
check_buff_element_iff ab buff level = ground (
  arith,
  eq_iff ab.element "",
  eq_iff buff.kind weapon_endow,
  validate_endow_element_iff ab buff.endow level,
)

resolve_anchored_iff :
    (ab : ActiveBuff) (anchor : Anchor) (level : Option ℤ) (b : Buff)
    → (resolve_anchored ab anchor level ≡ ok b) ↔ LevelFits ab anchor level b
unfolding resolve_anchored int_lt
resolve_anchored_iff ab anchor none b = ground arith
resolve_anchored_iff ab anchor (some level) b =
    ground (arith, check_buff_element_iff ab anchor.1 level)

resolve_innate_iff :
    (ab : ActiveBuff) (innate : Option SelfBuff) (b : Buff)
    → (resolve_innate ab innate ≡ ok b) ↔ InnateFits ab innate b
unfolding resolve_innate
resolve_innate_iff ab none b = ground arith
resolve_innate_iff ab (some buff) b = ground (arith, eq_iff ab.element "")

resolve_by_iff :
    (skills : List SkillAlloc) (ab : ActiveBuff) (found : Option Anchor) (innate : Option SelfBuff)
    → (b : Buff) → (resolve_by skills ab found innate ≡ ok b) ↔ FitsBy skills ab found innate b
unfolding resolve_by
resolve_by_iff skills ab none innate b = resolve_innate_iff ab innate b
resolve_by_iff skills ab (some anchor) innate b =
    resolve_anchored_iff ab anchor (skill_level skills anchor.0.id) b

resolve_each_iff :
    (maps : BuffMaps) (skills : List SkillAlloc) (active : List ActiveBuff) (out : List Buff)
    → (resolve_each maps skills active ≡ ok out) ↔ AllFit maps skills active out
unfolding resolve_each
resolve_each_iff maps skills [] [] = ground arith
resolve_each_iff maps skills [] (b ∷ out) = ground arith
resolve_each_iff maps skills (ab ∷ active) [] = ground arith
resolve_each_iff maps skills (ab ∷ active) (b ∷ out) = ground (
  arith,
  resolve_each_iff maps skills active out,
  resolve_by_iff skills ab (get maps.by_name ab.name) (get maps.innate ab.name) b,
)

resolve_available-AllFit :
    (class : String) (skills : List SkillAlloc) (active : List ActiveBuff) (c : Catalog)
    → (available : List ClassSkill) (out : List Buff) → class_buffs c class ≡ some available
    → (resolve_available c class skills active (class_buffs c class) ≡ ok out)
      ↔ AllFit (buff_maps c class available) skills active out
resolve_available-AllFit class skills active c available out known =
    rw (known) (resolve_each_iff (buff_maps c class available) skills active out)

-- For a class of the catalog, `resolveBuffs` returns `out` exactly when each declared buff, in order, fits its resolved one: an
-- anchored buff has the allocated level of its anchor skill, at least 1, with an element that the endow offers within that level
-- and none for other kinds; an innate buff has level 1 and no element.
pub resolve_buffs-AllFit :
    (class : String) (skills : List SkillAlloc) (active : List ActiveBuff) (c : Catalog)
    → (available : List ClassSkill) (out : List Buff) → class_buffs c class ≡ some available
    → (resolve_buffs class skills active (some c) ≡ ok out)
      ↔ AllFit (buff_maps c class available) skills active out
unfolding resolve_buffs
resolve_buffs-AllFit class skills [] c available [] known = ground arith
resolve_buffs-AllFit class skills [] c available (b ∷ out) known = ground arith
resolve_buffs-AllFit class skills (ab ∷ active) c available out known =
    resolve_available-AllFit class skills (ab ∷ active) c available out known

-- What scoring is told of the declared buffs.
pub record Faithful (active : List ActiveBuff) (out : List Buff) : Type 0 where
  pub names : map (λ b. b.name) out ≡ map (λ ab. ab.name) active
  pub elements : map (λ b. b.element) out ≡ map (λ ab. ab.element) active
  pub levels : All (λ b. pos 1 ≤ℤ b.level) out

LevelFits-Faithful :
    (ab : ActiveBuff) (anchor : Anchor) (level : Option ℤ) (b : Buff)
    → LevelFits ab anchor level b
    → (b.name ≡ ab.name) × (b.element ≡ ab.element) × (pos 1 ≤ℤ b.level)
LevelFits-Faithful ab anchor none b h = absurd h
LevelFits-Faithful ab anchor (some level) b (at_least, _, e) = rw (e) (refl, refl, at_least)

FitsBy-Faithful :
    (skills : List SkillAlloc) (ab : ActiveBuff) (found : Option Anchor) (innate : Option SelfBuff)
    → (b : Buff) → FitsBy skills ab found innate b
    → (b.name ≡ ab.name) × (b.element ≡ ab.element) × (pos 1 ≤ℤ b.level)
FitsBy-Faithful skills ab none none b h = absurd h
FitsBy-Faithful skills ab none (some buff) b h = rw (h.1) (refl, refl, omega arith)
FitsBy-Faithful skills ab (some anchor) innate b h =
    LevelFits-Faithful ab anchor (skill_level skills anchor.0.id) b h

AllFit-Faithful :
    (maps : BuffMaps) (skills : List SkillAlloc) (active : List ActiveBuff) (out : List Buff)
    → AllFit maps skills active out
    → Faithful active out
AllFit-Faithful maps skills [] [] h = record { names = refl; elements = refl; levels = tt }
AllFit-Faithful maps skills [] (b ∷ out) h = absurd h
AllFit-Faithful maps skills (ab ∷ active) [] h = absurd h
AllFit-Faithful maps skills (ab ∷ active) (b ∷ out) h =
    let (name, element, level) =
      FitsBy-Faithful skills ab (get maps.by_name ab.name) (get maps.innate ab.name) b h.0 in
    let later = AllFit-Faithful maps skills active out h.1 in
    record {
      names = rw (name, later.names);
      elements = rw (element, later.elements);
      levels = (level, later.levels);
    }

available-Faithful :
    (class : String) (skills : List SkillAlloc) (active : List ActiveBuff) (c : Catalog)
    → (found : Option (List ClassSkill)) (out : List Buff)
    → resolve_available c class skills active found ≡ ok out
    → Faithful active out
available-Faithful class skills active c none out done = cc
available-Faithful class skills active c (some available) out done =
    AllFit-Faithful (buff_maps c class available) skills active out
      ((resolve_each_iff (buff_maps c class available) skills active out).0 done)

-- Whatever `resolveBuffs` returns names the declared buffs, each once for each declaration and in their order, with the declared
-- elements, and every level is at least 1.
pub resolve_buffs-Faithful :
    (class : String) (skills : List SkillAlloc) (active : List ActiveBuff) (cat : Option Catalog)
    → (out : List Buff) → resolve_buffs class skills active cat ≡ ok out
    → Faithful active out
unfolding resolve_buffs
resolve_buffs-Faithful class skills [] cat [] done = record {
  names = refl;
  elements = refl;
  levels = tt;
}
resolve_buffs-Faithful class skills [] cat (b ∷ out) done = cc
resolve_buffs-Faithful class skills (ab ∷ active) none out done = cc
resolve_buffs-Faithful class skills (ab ∷ active) (some c) out done =
    available-Faithful class skills (ab ∷ active) c (class_buffs c class) out done
