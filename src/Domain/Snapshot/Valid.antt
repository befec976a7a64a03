-- ===== src/Domain/Snapshot/Valid.antt =====
-- What `Snapshot.Validate` accepts, said without its loops.
use ro_builder.Prelude.{
  ℕ, suc, false, List, [], ◌∷◌, String, str_eq, eq_iff, any, All, ok, ◌≡◌, ◌≢◌, ◌↔◌, arith,
}
use ro_builder.Prelude.Int.{ℤ, pos, ◌≤ℤ◌, int_lt, int_eq, int_eq_iff}
use ro_builder.Scoring.{EquipSpec, Equipment, SkillAlloc}
use ro_builder.Domain.Snapshot.{
  Snapshot, ActiveBuff, check_refines, check_skills, check_buffs, validate,
}

-- No entry of `xs` is `a`.
abbrev pub Fresh {ℓ} : {A : Type ℓ} → A → List A → Type ℓ
Fresh a [] = Unit
Fresh a (x ∷ xs) = (a ≢ x) × Fresh a xs

abbrev pub IsRefine : String × EquipSpec → Type 0
IsRefine e = (pos 0 ≤ℤ e.1.refine) × (e.1.refine ≤ℤ pos 10)

-- Positive ids and levels, and no id twice, `seen` included.
abbrev pub SkillsOk : List ℤ → List SkillAlloc → Type 0
SkillsOk seen [] = Unit
SkillsOk seen (a ∷ rest) =
    (pos 1 ≤ℤ a.id) × (pos 1 ≤ℤ a.level) × Fresh a.id seen × SkillsOk (a.id ∷ seen) rest

abbrev pub BuffsOk : List String → List ActiveBuff → Type 0
BuffsOk seen [] = Unit
BuffsOk seen (b ∷ rest) = (b.name ≢ "") × Fresh b.name seen × BuffsOk (b.name ∷ seen) rest

pub record IsValid {R : Type 0} (s : Snapshot R) : Type 0 where
  pub class_set : s.class ≢ ""
  pub base_level : pos 1 ≤ℤ s.level.base
  pub job_level : pos 1 ≤ℤ s.level.job
  pub refines : All IsRefine s.equipment
  pub skills : SkillsOk [] s.skills
  pub buffs : BuffsOk [] s.active_buffs

ne_of_str : (s t : String) → (str_eq s t ≡ false) ↔ (s ≢ t)
ne_of_str s t = ground (arith, eq_iff s t)

int_eq-Fresh : (a : ℤ) (seen : List ℤ) → (any (int_eq a) seen ≡ false) ↔ Fresh a seen
int_eq-Fresh a [] = ground arith
int_eq-Fresh a (x ∷ xs) = ground (arith, int_eq-Fresh a xs, int_eq_iff a x)

check_refines_iff : (e : Equipment) → (check_refines e ≡ ok tt) ↔ All IsRefine e
unfolding check_refines int_lt
check_refines_iff [] = ground arith
check_refines_iff ((slot, spec) ∷ rest) = ground (arith, check_refines_iff rest)

pub str_eq-Fresh : (a : String) (seen : List String) → (any (str_eq a) seen ≡ false) ↔ Fresh a seen
str_eq-Fresh a [] = ground arith
str_eq-Fresh a (x ∷ xs) = ground (arith, str_eq-Fresh a xs, eq_iff a x)

check_skills_iff :
    (i : ℕ) (seen : List ℤ) (l : List SkillAlloc)
    → (check_skills i seen l ≡ ok tt) ↔ SkillsOk seen l
unfolding check_skills int_lt
check_skills_iff i seen [] = ground arith
check_skills_iff i seen (a ∷ rest) =
    ground (arith, check_skills_iff (suc i) (a.id ∷ seen) rest, int_eq-Fresh a.id seen)

check_buffs_iff :
    (i : ℕ) (seen : List String) (l : List ActiveBuff)
    → (check_buffs i seen l ≡ ok tt) ↔ BuffsOk seen l
unfolding check_buffs
check_buffs_iff i seen [] = ground arith
check_buffs_iff i seen (b ∷ rest) = ground (
  arith,
  check_buffs_iff (suc i) (b.name ∷ seen) rest,
  str_eq-Fresh b.name seen,
  eq_iff b.name "",
)

-- `Snapshot.Validate` returns nil exactly for a snapshot with a class, levels of at least 1,
-- refines from 0 to 10, skills with positive ids and levels and no id twice, and buffs with names
-- and no name twice.
pub validate-IsValid : {R : Type 0} (s : Snapshot R) → (validate s ≡ ok tt) ↔ IsValid s
unfolding validate int_lt
validate-IsValid s = ground (
  arith,
  eq_iff s.class "",
  check_refines_iff s.equipment,
  check_skills_iff 0 [] s.skills,
  check_buffs_iff 0 [] s.active_buffs,
)
