-- ===== src/Submission/Execute/Sorting.antt =====
-- What comes of the alternatives of a submission.
use ro_builder.Prelude.{
  ℕ, suc, true, false, List, [], ◌∷◌, Option, none, some, String, All, Result, ok, err, ◌>>=◌,
  >>=-ok_inv, ok_inj, err-ne-ok, Bool-cases, inl, inr, ◌≡◌, ◌≢◌, ◌↔◌, refl, arith,
}
use ro_builder.Prelude.Int.{pos, ◌≤ℤ◌, ◌<ℤ◌, int_lt}
use ro_builder.Domain.Gate.{GateResult}
use ro_builder.Domain.Snapshot.{Snapshot}
use ro_builder.Domain.Trajectory
use ro_builder.Gates.Status.{has_fail}
use ro_builder.Submission.Buffs.{nil_endow}
use ro_builder.Submission.Scan.{Blocking, first_blocking, scan_snapshots, scan_gates}
use ro_builder.Submission.Score.{
  Deps, ScoreError, bad_buff, bad_attack, scoring_failed, out_of_range, http_error, other_error,
  is_client_error, score_and_gate,
}
use ro_builder.Submission.Execute.{
  could_not_score, gate_blocks, DroppedAlternative, Sorted, is_caller_fixable, sort_scanned,
  sort_one, sort_alternatives, alternative_scoring, drop_alternative,
}

-- An error that the caller can fix: of a declared buff or skill, or a 4xx answer.
abbrev pub CanFix : ScoreError → Type 0
CanFix (bad_buff i e) = e ≢ nil_endow
CanFix (bad_attack i e) = Unit
CanFix (scoring_failed i (http_error status message)) = (pos 400 ≤ℤ status) × (status <ℤ pos 500)
CanFix (scoring_failed i (other_error message)) = ⊥
CanFix (out_of_range i) = ⊥

pub is_caller_fixable-CanFix : (e : ScoreError) → (is_caller_fixable e ≡ true) ↔ CanFix e
unfolding is_caller_fixable is_client_error int_lt
is_caller_fixable-CanFix (bad_buff i nil_endow) = (λ h. cc, λ h. absurd (h refl))
is_caller_fixable-CanFix (bad_buff i _) = (λ h. λ e. cc, λ h. refl)
is_caller_fixable-CanFix (bad_attack i e) = ground arith
is_caller_fixable-CanFix (scoring_failed i (http_error status message)) = ground arith
is_caller_fixable-CanFix (scoring_failed i (other_error message)) = ground arith
is_caller_fixable-CanFix (out_of_range i) = ground arith

module _ {R : Type 0} where
  abbrev pub Passing : Snapshot R → Type 0
  Passing s = has_fail s.gates ≡ false

  -- No gate of any snapshot blocks.
  abbrev pub IsOpen : Trajectory.Trajectory R → Type 0
  IsOpen t = All Passing t.snapshots

  first_blocking_iff :
      (gates : List (GateResult R)) → (first_blocking gates ≡ none) ↔ (has_fail gates ≡ false)
  unfolding first_blocking has_fail
  first_blocking_iff [] = ground arith
  first_blocking_iff (g ∷ rest) = ground (arith, first_blocking_iff rest)

  scan_snapshots_iff :
      (i : ℕ) (snaps : List (Snapshot R)) → (scan_snapshots i snaps ≡ none) ↔ All Passing snaps
  unfolding scan_snapshots
  scan_snapshots_iff i [] = ground arith
  scan_snapshots_iff i (s ∷ rest) =
      ground (arith, scan_snapshots_iff (suc i) rest, first_blocking_iff s.gates)

  pub scan_gates_iff : (t : Trajectory.Trajectory R) → (scan_gates t ≡ none) ↔ IsOpen t
  unfolding scan_gates
  scan_gates_iff t = scan_snapshots_iff 0 t.snapshots

  module _ (deps : Deps R) where
    -- The alternatives from index `i` on, with those kept and those dropped, each in order: one
    -- that is scored and open is kept as it is scored, one with a blocking gate or with an error
    -- that the caller can fix is dropped under its index.
    pub data SortsTo
        : ℕ
          → List (Trajectory.Trajectory R)
          → List (Trajectory.Trajectory R)
          → List (DroppedAlternative R)
          → Type 0 where
      nothing : (i : ℕ) → SortsTo i [] [] []
      keeps :
          (i : ℕ) (t scored : Trajectory.Trajectory R) (version : String)
          (rest kept : List (Trajectory.Trajectory R)) (dropped : List (DroppedAlternative R))
          → score_and_gate deps (suc i) t ≡ ok (scored, version)
          → IsOpen scored
          → SortsTo (suc i) rest kept dropped
          → SortsTo i (t ∷ rest) (scored ∷ kept) dropped
      drops_blocked :
          (i : ℕ) (t scored : Trajectory.Trajectory R) (version : String) (b : Blocking R)
          (rest kept : List (Trajectory.Trajectory R)) (dropped : List (DroppedAlternative R))
          → score_and_gate deps (suc i) t ≡ ok (scored, version)
          → (IsOpen scored → ⊥)
          → scan_gates scored ≡ some b
          → SortsTo (suc i) rest kept dropped
          → SortsTo i (t ∷ rest) kept (record { index = i; reason = gate_blocks b } ∷ dropped)
      drops_unscored :
          (i : ℕ) (t : Trajectory.Trajectory R) (e : ScoreError)
          (rest kept : List (Trajectory.Trajectory R)) (dropped : List (DroppedAlternative R))
          → score_and_gate deps (suc i) t ≡ err e
          → CanFix e
          → SortsTo (suc i) rest kept dropped
          → SortsTo i (t ∷ rest) kept (record { index = i; reason = could_not_score e } ∷ dropped)

    pub SortsTo-IsOpen :
        {i : ℕ} {ts kept : List (Trajectory.Trajectory R)} {dropped : List (DroppedAlternative R)}
        → SortsTo i ts kept dropped
        → All IsOpen kept
    SortsTo-IsOpen (nothing i) = tt
    SortsTo-IsOpen (keeps i t scored version rest kept dropped run opened later) =
        (opened, SortsTo-IsOpen later)
    SortsTo-IsOpen (drops_blocked i t scored version b rest kept dropped run shut found later) =
        SortsTo-IsOpen later
    SortsTo-IsOpen (drops_unscored i t e rest kept dropped run fixable later) = SortsTo-IsOpen later

    sort_scanned-SortsTo :
        (i : ℕ) (t : Trajectory.Trajectory R) (scored : Trajectory.Trajectory R × String)
        → (rest : List (Trajectory.Trajectory R)) (blocked : Option (Blocking R))
          (others : Sorted R)
        → score_and_gate deps (suc i) t ≡ ok scored
        → scan_gates scored.0 ≡ blocked
        → SortsTo (suc i) rest others.0 others.1
        → (let place = sort_scanned i scored.0 blocked others in
            SortsTo i (t ∷ rest) place.0 place.1)
    unfolding sort_scanned
    sort_scanned-SortsTo i t scored rest none others run found h =
        keeps i t scored.0 scored.1 rest others.0 others.1 run ((scan_gates_iff scored.0).0 found) h
    sort_scanned-SortsTo i t scored rest (some b) others run found h =
        drops_blocked i t scored.0 scored.1 b rest others.0 others.1 run
          (λ passed. some_ne_none ((scan_gates_iff scored.0).1 passed)) found h
      where
        some_ne_none : scan_gates scored.0 ≡ none → ⊥
        some_ne_none e = cc

    sort_one-SortsTo :
        (i : ℕ) (t : Trajectory.Trajectory R) (rest : List (Trajectory.Trajectory R))
        → (r : Result ScoreError (Trajectory.Trajectory R × String))
        → (place : Sorted R → Sorted R) (others : Sorted R) → score_and_gate deps (suc i) t ≡ r
        → sort_one i r ≡ ok place
        → SortsTo (suc i) rest others.0 others.1
        → SortsTo i (t ∷ rest) (place others).0 (place others).1
    unfolding sort_one
    sort_one-SortsTo i t rest (ok scored) place others run e h =
        rw (← ok_inj (sort_scanned i scored.0 (scan_gates scored.0)) place e)
          (sort_scanned-SortsTo i t scored rest (scan_gates scored.0) others run refl h)
    sort_one-SortsTo i t rest (err problem) place others run e h =
        elim (Bool-cases (is_caller_fixable problem)) [
          | inl fixable ↦
              (let is_place : drop_alternative i (could_not_score problem) ≡ place =
                  ok_inj (drop_alternative i (could_not_score problem)) place (rw (fixable) at e) in
                rw (← is_place) (
                  drops_unscored i t problem rest others.0 others.1 run
                    ((is_caller_fixable-CanFix problem).0 fixable) h))
          | inr broken ↦ absurd (err-ne-ok (alternative_scoring i problem) place (rw (broken) at e))
        ]

    pub sort_alternatives-SortsTo :
        (i : ℕ) (ts : List (Trajectory.Trajectory R)) (sorted : Sorted R)
        → sort_alternatives deps i ts ≡ ok sorted
        → SortsTo i ts sorted.0 sorted.1
    unfolding sort_alternatives
    sort_alternatives-SortsTo i [] sorted e = rw (← ok_inj ([], []) sorted e) (nothing i)
    sort_alternatives-SortsTo i (t ∷ rest) sorted e =
        let (place, first, later) =
          >>=-ok_inv (sort_one i (score_and_gate deps (suc i) t))
            (λ place. sort_alternatives deps (suc i) rest >>= (λ others. ok (place others))) e in
        let (others, second, last) =
          >>=-ok_inv (sort_alternatives deps (suc i) rest) (λ others. ok (place others)) later in
        rw (← ok_inj (place others) sorted last) (
          sort_one-SortsTo i t rest (score_and_gate deps (suc i) t) place others refl first
            (sort_alternatives-SortsTo (suc i) rest others second))
