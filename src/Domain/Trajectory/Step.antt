-- ===== src/Domain/Trajectory/Step.antt =====
-- What one round of the ordering loop of `Trajectory.Validate` demands of two neighbours, and that
-- the demand carries over from neighbours to any two snapshots.
use ro_builder.Prelude.{
  ℕ, Bool, true, false, List, [], ◌∷◌, ◌++◌, Option, none, some, All, ok, ◌≡◌, ◌⊎◌, inl, inr, ◌↔◌,
  arith, Option-cases,
}
use ro_builder.Prelude.Int.{ℤ, ◌≤ℤ◌, int_lt, int_eq_iff}
use ro_builder.Scoring.{Stats, SkillAlloc}
use ro_builder.Domain.Snapshot.{Snapshot}
use ro_builder.Domain.Trajectory.{
  TrajectoryError, check_stats_monotonic, skill_level, check_skill, check_skills_monotonic,
  check_step, reject_all,
}

pub record StatsLe (a b : Stats) : Type 0 where
  pub str : a.str ≤ℤ b.str
  pub agi : a.agi ≤ℤ b.agi
  pub vit : a.vit ≤ℤ b.vit
  pub int : a.int ≤ℤ b.int
  pub dex : a.dex ≤ℤ b.dex
  pub luk : a.luk ≤ℤ b.luk

-- A level of at least `l` is found.
abbrev pub Reaches : Option ℤ → ℤ → Type 0
Reaches none l = ⊥
Reaches (some c) l = l ≤ℤ c

-- The skill `p` is still allocated in `cur`, at its level or above.
abbrev pub Kept : List SkillAlloc → SkillAlloc → Type 0
Kept cur p = Reaches (skill_level cur p.id) p.level

pub record Progress {R : Type 0} (a b : Snapshot R) : Type 0 where
  pub base_level : a.level.base ≤ℤ b.level.base
  pub stats : StatsLe a.stats b.stats
  pub skills : All (Kept b.skills) a.skills

-- No way back over the rebirth, and progress within one cycle.
pub record Forward {R : Type 0} (a b : Snapshot R) : Type 0 where
  pub rebirth : a.post_rebirth ≡ true → b.post_rebirth ≡ true
  pub progress : a.post_rebirth ≡ b.post_rebirth → Progress a b

check_stats_iff : (a b : Stats) → (check_stats_monotonic a b ≡ []) ↔ StatsLe a b
unfolding check_stats_monotonic int_lt
check_stats_iff a b = ground arith

check_skill_iff : (p : SkillAlloc) (o : Option ℤ) → (check_skill p o ≡ []) ↔ Reaches o p.level
unfolding check_skill int_lt
check_skill_iff p none = ground arith
check_skill_iff p (some c) = ground arith

append-eq-nil {ℓ} : {A : Type ℓ} (xs ys : List A) → (xs ++ ys ≡ []) ↔ ((xs ≡ []) × (ys ≡ []))
append-eq-nil [] ys = ground arith
append-eq-nil (x ∷ xs) ys = ground arith

check_skills-cons :
    (p : SkillAlloc) (rest cur : List SkillAlloc)
    → (check_skills_monotonic (p ∷ rest) cur ≡ [])
      ↔ (Kept cur p × (check_skills_monotonic rest cur ≡ []))
check_skills-cons p rest cur =
    unfold check_skills_monotonic in
    ground (
      arith,
      append-eq-nil (check_skill p (skill_level cur p.id)) (check_skills_monotonic rest cur),
      check_skill_iff p (skill_level cur p.id),
    )

check_skills_iff :
    (prev cur : List SkillAlloc) → (check_skills_monotonic prev cur ≡ []) ↔ All (Kept cur) prev
check_skills_iff [] cur = unfold check_skills_monotonic in ground arith
check_skills_iff (p ∷ rest) cur =
    ground (arith, check_skills-cons p rest cur, check_skills_iff rest cur)

reject_all_iff {ℓ} :
    {A : Type ℓ} (xs : List A) (e : List A → TrajectoryError)
    → (reject_all xs e ≡ ok tt) ↔ (xs ≡ [])
reject_all_iff [] e = ground arith
reject_all_iff (x ∷ xs) e = ground arith

pub check_step_iff :
    {R : Type 0} (i : ℕ) (a b : Snapshot R) → (check_step i a b ≡ ok tt) ↔ Forward a b
check_step_iff i a b =
    unfold check_step int_lt in
    ground (
      arith,
      check_stats_iff a.stats b.stats,
      check_skills_iff a.skills b.skills,
      reject_all_iff (check_stats_monotonic a.stats b.stats) (TrajectoryError.stats_regressed i),
      reject_all_iff (check_skills_monotonic a.skills b.skills)
          (TrajectoryError.skills_regressed i),
    )

skill_level-cons :
    (a : SkillAlloc) (rest : List SkillAlloc) (id c : ℤ)
    → skill_level (a ∷ rest) id ≡ some c
    → (skill_level rest id ≡ some c) ⊎ ((a.id ≡ id) × (a.level ≡ c))
unfolding skill_level
skill_level-cons a rest id c h = ground (arith, int_eq_iff a.id id)

-- A level found in `l` is kept wherever all of `l` is.
Kept-of_found :
    (l cur : List SkillAlloc) (id c : ℤ)
    → All (Kept cur) l
    → skill_level l id ≡ some c
    → Reaches (skill_level cur id) c
Kept-of_found [] cur id c h e = unfold skill_level in cc
Kept-of_found (a ∷ rest) cur id c h e = elim (skill_level-cons a rest id c e) [
  | inl later ↦ Kept-of_found rest cur id c h.1 later
  | inr (same_id, same_level) ↦ rw (← same_id, ← same_level) h.0
]

Reaches-trans : (o : Option ℤ) (l m : ℤ) → l ≤ℤ m → Reaches o m → Reaches o l
Reaches-trans none l m h r = r
Reaches-trans (some c) l m h r = omega arith

Kept-trans : (p : SkillAlloc) (b c : List SkillAlloc) → Kept b p → All (Kept c) b → Kept c p
Kept-trans p b c k h = elim (Option-cases (skill_level b p.id)) [
  | inl e ↦ absurd (rw e at k)
  | inr (l, e) ↦
      Reaches-trans (skill_level c p.id) p.level l (rw e at k) (Kept-of_found b c p.id l h e)
]

All-Kept-trans : (a b c : List SkillAlloc) → All (Kept b) a → All (Kept c) b → All (Kept c) a
All-Kept-trans [] b c h k = tt
All-Kept-trans (p ∷ a) b c h k = (Kept-trans p b c h.0 k, All-Kept-trans a b c h.1 k)

StatsLe-trans : (a b c : Stats) → StatsLe a b → StatsLe b c → StatsLe a c
StatsLe-trans a b c h k = omega arith

Progress-trans : {R : Type 0} {a b c : Snapshot R} → Progress a b → Progress b c → Progress a c
Progress-trans {a} {b} {c} h k = record {
  base_level = omega arith;
  stats = StatsLe-trans a.stats b.stats c.stats h.stats k.stats;
  skills = All-Kept-trans a.skills b.skills c.skills h.skills k.skills;
}

-- Between two snapshots of one cycle there is no snapshot of the other.
same_cycle :
    (a b c : Bool) → (a ≡ true → b ≡ true) → (b ≡ true → c ≡ true) → a ≡ c → (a ≡ b) × (b ≡ c)
same_cycle true b c h k e = ground arith
same_cycle false b c h k e = ground arith

pub Forward-trans : {R : Type 0} (a b c : Snapshot R) → Forward a b → Forward b c → Forward a c
Forward-trans a b c h k = record {
  rebirth = λ e. k.rebirth (h.rebirth e);
  progress = λ e.
      let (left, right) =
        same_cycle a.post_rebirth b.post_rebirth c.post_rebirth h.rebirth k.rebirth e in
      Progress-trans (h.progress left) (k.progress right);
}
