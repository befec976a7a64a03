-- ===== src/Domain/Trajectory/Valid.antt =====
-- What `Trajectory.Validate` accepts, said without its loops, and what it means for any two
-- snapshots.
use ro_builder.Prelude.{
  ℕ, zero, suc, ◌<◌, List, [], ◌∷◌, some, String, eq_iff, All, All-get_elem?, get_elem?, ok, ◌≡◌,
  ◌≢◌, ◌↔◌, arith,
}
use ro_builder.Domain.Snapshot
use ro_builder.Domain.Snapshot.{Snapshot}
use ro_builder.Domain.Snapshot.Valid.{IsValid, validate-IsValid}
use ro_builder.Domain.Trajectory.{
  Trajectory, check_each, check_order, last, validate_snapshots, validate,
}
use ro_builder.Domain.Trajectory.Step.{Forward, check_step_iff, Forward-trans}

module _ {R : Type 0} where
  -- Each snapshot goes forward from the one before it.
  abbrev pub Ordered : Snapshot R → List (Snapshot R) → Type 0
  Ordered s [] = Unit
  Ordered s (x ∷ rest) = Forward s x × Ordered x rest

  abbrev pub Accepts : String → List (Snapshot R) → Type 0
  Accepts class [] = ⊥
  Accepts class (s ∷ rest) = All IsValid (s ∷ rest) × Ordered s rest × ((last s rest).class ≡ class)

  check_each-cons :
      (i : ℕ) (s : Snapshot R) (rest : List (Snapshot R))
      → (check_each i (s ∷ rest) ≡ ok tt)
        ↔ ((Snapshot.validate s ≡ ok tt) × (check_each (suc i) rest ≡ ok tt))
  unfolding check_each
  check_each-cons i s rest = ground arith

  check_each_iff : (i : ℕ) (l : List (Snapshot R)) → (check_each i l ≡ ok tt) ↔ All IsValid l
  check_each_iff i [] = unfold check_each in ground arith
  check_each_iff i (s ∷ rest) =
      ground (arith, check_each-cons i s rest, validate-IsValid s, check_each_iff (suc i) rest)

  check_order_iff :
      (i : ℕ) (s : Snapshot R) (l : List (Snapshot R)) → (check_order i s l ≡ ok tt) ↔ Ordered s l
  unfolding check_order
  check_order_iff i s [] = ground arith
  check_order_iff i s (x ∷ rest) =
      ground (arith, check_step_iff i s x, check_order_iff (suc i) x rest)

  validate_snapshots_iff :
      (class : String) (l : List (Snapshot R))
      → (validate_snapshots class l ≡ ok tt) ↔ Accepts class l
  validate_snapshots_iff class [] = unfold validate_snapshots in ground arith
  validate_snapshots_iff class (s ∷ rest) =
      unfold validate_snapshots in
      ground (
        arith,
        check_each_iff 0 (s ∷ rest),
        check_order_iff 1 s rest,
        eq_iff (last s rest).class class,
      )

  -- `Trajectory.Validate` returns nil exactly when the class is set, there is a snapshot, every
  -- snapshot is valid, each goes forward from its neighbour, and the last one has the class.
  pub validate-Accepts :
      (t : Trajectory R) → (validate t ≡ ok tt) ↔ ((t.class ≢ "") × Accepts t.class t.snapshots)
  validate-Accepts t =
      unfold validate in
      ground (arith, eq_iff t.class "", validate_snapshots_iff t.class t.snapshots)

  Ordered-All :
      (a s : Snapshot R) (rest : List (Snapshot R))
      → Forward a s
      → Ordered s rest
      → All (Forward a) rest
  Ordered-All a s [] f o = tt
  Ordered-All a s (x ∷ rest) f o =
      let g = Forward-trans a s x f o.0 in (g, Ordered-All a x rest g o.1)

  Ordered-pair :
      (s : Snapshot R) (rest : List (Snapshot R)) (i j : ℕ) {a b : Snapshot R}
      → Ordered s rest
      → i < j
      → get_elem? (s ∷ rest) i ≡ some a
      → get_elem? (s ∷ rest) j ≡ some b
      → Forward a b
  Ordered-pair s rest i zero o lt ea eb = absurd (omega arith)
  Ordered-pair s [] i (suc j) o lt ea eb = cc
  Ordered-pair s (x ∷ rest) zero (suc j) {a} {b} o lt ea eb =
      let all_after : All (Forward s) (x ∷ rest) = (o.0, Ordered-All s x rest o.0 o.1) in
      let first : s ≡ a = cc in rw (← first) (All-get_elem? (Forward s) (x ∷ rest) j all_after eb)
  Ordered-pair s (x ∷ rest) (suc i) (suc j) o lt ea eb =
      Ordered-pair x rest i j o.1 (omega arith) ea eb

  Accepts-pair :
      (class : String) (l : List (Snapshot R)) (i j : ℕ) {a b : Snapshot R}
      → Accepts class l
      → i < j
      → get_elem? l i ≡ some a
      → get_elem? l j ≡ some b
      → Forward a b
  Accepts-pair class [] i j v lt ea eb = cc
  Accepts-pair class (s ∷ rest) i j v lt ea eb = Ordered-pair s rest i j v.1 lt ea eb

  -- In a trajectory that `Validate` accepts, every later snapshot goes forward from every earlier
  -- one: a rebirth is not undone, and where both lie in the same cycle, base level and each stat
  -- are no lower, and each skill is still there at no lower a level.
  pub validate-Forward :
      (t : Trajectory R) (i j : ℕ) {a b : Snapshot R}
      → validate t ≡ ok tt
      → i < j
      → get_elem? t.snapshots i ≡ some a
      → get_elem? t.snapshots j ≡ some b
      → Forward a b
  validate-Forward t i j v lt ea eb =
      Accepts-pair t.class t.snapshots i j ((validate-Accepts t).0 v).1 lt ea eb
