-- ===== src/Submission/Buffs.antt =====
-- internal/llm/tools/buff_resolve.go: the buffs that a snapshot declares, resolved for scoring.
pub mod Resolves
use ro_builder.Prelude.{
  ℕ, suc, Bool, true, false, not, List, [], ◌∷◌, Option, none, some, String, str_eq, eq_iff, Result,
  ok, err, ◌>>=◌, ◌>>◌, reject_if, if◌then◌else◌, ◌≡◌, ◌≢◌, ◌⊎◌, ◌↔◌, inl, inr, refl, arith,
}
use ro_builder.Prelude.Int.{ℤ, pos, ◌≤ℤ◌, int_lt}
use ro_builder.GameData.{SelfBuff, EndowSpec}
use ro_builder.Scoring.{Buff, SkillAlloc}
use ro_builder.Domain.Snapshot.{ActiveBuff}
use ro_builder.Domain.Trajectory.{skill_level}
use ro_builder.Catalog.Load.{Catalog, get, assign_all}
use ro_builder.Catalog.Classes.{ClassSkill, class_buffs, class_innate_buffs}

-- What `resolveBuffs` refuses. An endow buff without its endow data is a nil dereference there.
pub data BuffError : Type 0 where
  no_catalog : BuffError
  unknown_class : String → BuffError
  innate_with_element : String → BuffError
  not_available : String → BuffError
  not_allocated : String → String → BuffError
  element_missing : String → BuffError
  level_too_low : String → String → ℕ → ℤ → BuffError
  not_offered : String → String → BuffError
  takes_no_element : String → String → BuffError
  nil_endow : BuffError

-- `data.BuffKindWeaponEndow`
abbrev pub weapon_endow : String
weapon_endow = "weapon_endow"

-- A skill of the class with its self-buff.
abbrev pub Anchor : Type 0
Anchor = ClassSkill × SelfBuff

-- `byName`: the latest entry of a name first. `ClassBuffs` gives only skills with a self-buff.
unfoldable pub anchors_by_name : List (String × Anchor) → List ClassSkill → List (String × Anchor)
anchors_by_name entries [] = entries
anchors_by_name entries (s ∷ rest) = elim s.self_buff [
  | none ↦ anchors_by_name entries rest
  | some b ↦ anchors_by_name ((b.name, (s, b)) ∷ entries) rest
]

-- The loop of `validateEndowElement`, `i` elements on.
unfoldable pub check_element : ActiveBuff → ℤ → ℕ → List String → Result BuffError (Unit {0})
check_element ab level i [] = err (not_offered ab.name ab.element)
check_element ab level i (el ∷ rest) =
    let later = check_element ab level (suc i) rest in
    if not (str_eq el ab.element)
    then later
    else if int_lt level (pos (suc i))
    then err (level_too_low ab.name ab.element (suc i) level)
    else ok tt

-- `validateEndowElement`
unfoldable pub validate_endow_element :
    ActiveBuff → Option EndowSpec → ℤ → Result BuffError (Unit {0})
unfolding check_element
validate_endow_element ab endow level =
    if str_eq ab.element ""
    then err (element_missing ab.name)
    else elim endow [ none ↦ err nil_endow | some spec ↦ check_element ab level 0 spec.elements ]

unfoldable pub check_buff_element : ActiveBuff → SelfBuff → ℤ → Result BuffError (Unit {0})
unfolding validate_endow_element
check_buff_element ab buff level =
    if str_eq buff.kind weapon_endow
    then validate_endow_element ab buff.endow level
    else reject_if (not (str_eq ab.element "")) (takes_no_element ab.name buff.kind)

abbrev pub resolved : ActiveBuff → ℤ → Buff
resolved ab level = record { name = ab.name; level = level; element = ab.element }

-- A buff with an anchor skill, at the level that is allocated to it.
unfoldable pub resolve_anchored : ActiveBuff → Anchor → Option ℤ → Result BuffError Buff
unfolding check_buff_element
resolve_anchored ab anchor none = err (not_allocated ab.name anchor.0.aegis_name)
resolve_anchored ab anchor (some level) = do
  reject_if (int_lt level (pos 1)) (not_allocated ab.name anchor.0.aegis_name)
  check_buff_element ab anchor.1 level
  ok (resolved ab level)

-- A buff without one: innate to the class, or unknown.
unfoldable pub resolve_innate : ActiveBuff → Option SelfBuff → Result BuffError Buff
resolve_innate ab none = err (not_available ab.name)
resolve_innate ab (some buff) = do
  reject_if (not (str_eq ab.element "")) (innate_with_element ab.name)
  ok (record { name = ab.name; level = pos 1; element = "" })

-- The body of the loop of `resolveBuffs`, on `byName`, `innate` and the allocation.
unfoldable pub resolve_by :
    List SkillAlloc → ActiveBuff → Option Anchor → Option SelfBuff → Result BuffError Buff
unfolding resolve_anchored resolve_innate skill_level
resolve_by skills ab (some anchor) innate =
    resolve_anchored ab anchor (skill_level skills anchor.0.id)
resolve_by skills ab none innate = resolve_innate ab innate

-- The maps that the loop looks in.
pub record BuffMaps : Type 0 where
  pub by_name : List (String × Anchor)
  pub innate : List (String × SelfBuff)

unfoldable pub resolve_each :
    BuffMaps → List SkillAlloc → List ActiveBuff → Result BuffError (List Buff)
unfolding resolve_by get
resolve_each maps skills [] = ok []
resolve_each maps skills (ab ∷ rest) = do
  b ← resolve_by skills ab (get maps.by_name ab.name) (get maps.innate ab.name)
  others ← resolve_each maps skills rest
  ok (b ∷ others)

abbrev innate_map : Option (List SelfBuff) → List (String × SelfBuff)
innate_map none = []
innate_map (some buffs) = assign_all (λ b. b.name) (λ b. b) [] buffs

abbrev pub buff_maps : Catalog → String → List ClassSkill → BuffMaps
buff_maps c class available = record {
  by_name = anchors_by_name [] available;
  innate = innate_map (class_innate_buffs c class);
}

abbrev resolve_available :
    Catalog
    → String
    → List SkillAlloc
    → List ActiveBuff
    → Option (List ClassSkill)
    → Result BuffError (List Buff)
resolve_available c class skills active none = err (unknown_class class)
resolve_available c class skills active (some available) =
    resolve_each (buff_maps c class available) skills active

-- `resolveBuffs`
unfoldable pub resolve_buffs :
    String → List SkillAlloc → List ActiveBuff → Option Catalog → Result BuffError (List Buff)
unfolding resolve_each anchors_by_name class_buffs class_innate_buffs assign_all
resolve_buffs class skills [] cat = ok []
resolve_buffs class skills (ab ∷ rest) none = err no_catalog
resolve_buffs class skills (ab ∷ rest) (some c) =
    resolve_available c class skills (ab ∷ rest) (class_buffs c class)
