-- ===== src/Domain/Trajectory.antt =====
-- internal/domain/trajectory.go: `Trajectory`, `Clean` and `Trajectory.Validate`.
pub mod Step
pub mod Valid
use ro_builder.Prelude.{
  ℕ, suc, Bool, true, false, not, ◌&&◌, List, [], ◌∷◌, ◌++◌, Option, none, some, String, str_eq,
  all, Result, ok, err, ◌>>=◌, ◌>>◌, reject_if, if◌then◌else◌,
}
use ro_builder.Prelude.Int.{ℤ, int_lt, int_eq}
use ro_builder.Scoring.{Stats, SkillAlloc}
use ro_builder.Domain.Gate.{is_pass}
use ro_builder.Domain.Snapshot
use ro_builder.Domain.Snapshot.{Snapshot, SnapshotError}

pub record Trajectory (R : Type 0) : Type 0 where
  pub class : String
  pub snapshots : List (Snapshot R)

-- `Trajectory.Clean`
unfoldable pub clean : {R : Type 0} → Trajectory R → Bool
clean t = all (λ s. all is_pass s.gates) t.snapshots

-- One entry of the joined error of `checkStatsMonotonic`: the stat, and its two values.
pub record StatRegression : Type 0 where
  pub stat : String
  pub before : ℤ
  pub after : ℤ

pub data SkillRegression : Type 0 where
  disappeared : ℤ → ℤ → SkillRegression
  regressed : ℤ → ℤ → ℤ → SkillRegression

pub data TrajectoryError : Type 0 where
  empty_class : TrajectoryError
  no_snapshots : TrajectoryError
  bad_snapshot : ℕ → SnapshotError → TrajectoryError
  second_rebirth : ℕ → TrajectoryError
  level_regressed : ℕ → ℤ → ℤ → TrajectoryError
  stats_regressed : ℕ → List StatRegression → TrajectoryError
  skills_regressed : ℕ → List SkillRegression → TrajectoryError
  class_mismatch : String → String → TrajectoryError

abbrev pub Check : Type 0
Check = Result TrajectoryError (Unit {0})

unfoldable pub check_stat : String → ℤ → ℤ → List StatRegression
check_stat name prev cur =
    if int_lt cur prev then record { stat = name; before = prev; after = cur } ∷ [] else []

-- `checkStatsMonotonic`: all that regressed, in the order of the tests.
unfoldable pub check_stats_monotonic : Stats → Stats → List StatRegression
unfolding check_stat
check_stats_monotonic prev cur =
    check_stat "STR" prev.str cur.str
    ++ (check_stat "AGI" prev.agi cur.agi
        ++ (check_stat "VIT" prev.vit cur.vit
            ++ (check_stat "INT" prev.int cur.int
                ++ (check_stat "DEX" prev.dex cur.dex ++ check_stat "LUK" prev.luk cur.luk))))

-- `curLevels[id]`: the map is filled in order, so the last entry of an id stands.
unfoldable pub skill_level : List SkillAlloc → ℤ → Option ℤ
skill_level [] id = none
skill_level (a ∷ rest) id = elim (skill_level rest id) [
  | some l ↦ some l
  | none ↦ if int_eq a.id id then some a.level else none
]

unfoldable pub check_skill : SkillAlloc → Option ℤ → List SkillRegression
check_skill p none = disappeared p.id p.level ∷ []
check_skill p (some c) = if int_lt c p.level then regressed p.id p.level c ∷ [] else []

-- `checkSkillsMonotonic`
unfoldable pub check_skills_monotonic : List SkillAlloc → List SkillAlloc → List SkillRegression
unfolding check_skill skill_level
check_skills_monotonic [] cur = []
check_skills_monotonic (p ∷ rest) cur =
    check_skill p (skill_level cur p.id) ++ check_skills_monotonic rest cur

-- `if err := errors.Join(errs...); err != nil { return err }`
abbrev pub reject_all {ℓ} : {A : Type ℓ} → List A → (List A → TrajectoryError) → Check
reject_all [] e = ok tt
reject_all (x ∷ xs) e = err (e (x ∷ xs))

abbrev pub same : Bool → Bool → Bool
same true b = b
same false b = not b

module _ {R : Type 0} where
  -- The loop that validates each snapshot.
  unfoldable pub check_each : ℕ → List (Snapshot R) → Check
  check_each i [] = ok tt
  check_each i (s ∷ rest) = elim (Snapshot.validate s) [
    | err e ↦ err (bad_snapshot i e)
    | ok _ ↦ check_each (suc i) rest
  ]

  -- One round of the second loop: snapshot `i` against the one before it.
  unfoldable pub check_step : ℕ → Snapshot R → Snapshot R → Check
  unfolding check_stats_monotonic check_skills_monotonic
  check_step i prev cur =
      if prev.post_rebirth && not cur.post_rebirth
      then err (second_rebirth i)
      else if not (same prev.post_rebirth cur.post_rebirth)
      then ok tt
      else if int_lt cur.level.base prev.level.base
      then err (level_regressed i cur.level.base prev.level.base)
      else do
        reject_all (check_stats_monotonic prev.stats cur.stats) (stats_regressed i)
        reject_all (check_skills_monotonic prev.skills cur.skills) (skills_regressed i)

  unfoldable pub check_order : ℕ → Snapshot R → List (Snapshot R) → Check
  unfolding check_step
  check_order i prev [] = ok tt
  check_order i prev (cur ∷ rest) = do check_step i prev cur; check_order (suc i) cur rest

  -- `t.Snapshots[len(t.Snapshots)-1]` of a list that is not empty.
  unfoldable pub last : Snapshot R → List (Snapshot R) → Snapshot R
  last s [] = s
  last s (x ∷ rest) = last x rest

  unfoldable pub validate_snapshots : String → List (Snapshot R) → Check
  unfolding check_each check_order last
  validate_snapshots class [] = err no_snapshots
  validate_snapshots class (s ∷ rest) = do
    check_each 0 (s ∷ rest)
    check_order 1 s rest
    reject_if (not (str_eq (last s rest).class class)) (class_mismatch (last s rest).class class)

-- `Trajectory.Validate`
unfoldable pub validate : {R : Type 0} → Trajectory R → Check
unfolding validate_snapshots
validate t = do reject_if (str_eq t.class "") empty_class; validate_snapshots t.class t.snapshots
