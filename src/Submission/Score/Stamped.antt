-- ===== src/Submission/Score/Stamped.antt =====
-- What `scoreAndGate` leaves in each snapshot of a trajectory.
use ro_builder.Prelude.{
  ℕ, zero, suc, Bool, true, false, List, [], ◌∷◌, Option, none, some, String, tagged, tagged-ok_inv,
  get_elem?, Result, ok, ◌>>=◌, >>=-ok_inv, Bool-cases, inl, inr, ◌≡◌, refl, ap, ok_inj, ◌∙◌, arith,
  ◌==◌, ==_iff, ◌||◌, ◌<◌,
}
use ro_builder.Scoring.{Buff, AttackSkill, ScoreRequest, ScoreResponse}
use ro_builder.Domain.Gate.{GateResult}
use ro_builder.Domain.Build.{snapshot_request}
use ro_builder.Submission.Buffs.{resolve_buffs}
use ro_builder.Submission.AttackSkills.{resolve_attack_skills}
use ro_builder.Domain.Snapshot.{Snapshot}
use ro_builder.Domain.Trajectory.{Trajectory}
use ro_builder.Submission.Score.{
  ScoringError, Deps, ScoreError, set_elem, request_for, gated, stamp, score_snapshot,
  score_indices, score_and_gate, score_with, with_snapshots, first_version,
}
use ro_builder.Submission.Select.{holds, select_scored_indices}
use ro_builder.Submission.Select.Selected.{AscendingFrom, select_scored_indices-Selected}

get-set {ℓ} :
    {A : Type ℓ} (xs : List A) (i : ℕ) (a : A) {old : A}
    → get_elem? xs i ≡ some old
    → get_elem? (set_elem xs i a) i ≡ some a
get-set [] i a h = cc
get-set (x ∷ xs) zero a h = refl
get-set (x ∷ xs) (suc i) a h = get-set xs i a h

get-set_other {ℓ} :
    {A : Type ℓ} (xs : List A) (i : ℕ) (a : A) (j : ℕ)
    → (i == j) ≡ false
    → get_elem? (set_elem xs i a) j ≡ get_elem? xs j
get-set_other [] i a j h = refl
get-set_other (x ∷ xs) zero a zero h = cc
get-set_other (x ∷ xs) zero a (suc j) h = refl
get-set_other (x ∷ xs) (suc i) a zero h = refl
get-set_other (x ∷ xs) (suc i) a (suc j) h = get-set_other xs i a j (ground (arith, h))

module _ {R : Type 0} (deps : Deps R) where
  -- The gates of an answer on a snapshot, or the old ones where none are evaluated.
  abbrev pub gates_after :
      Option (ScoreResponse R → Snapshot R → List (GateResult R))
      → ScoreResponse R
      → Snapshot R
      → List (GateResult R)
  gates_after none answer snap = snap.gates
  gates_after (some evaluate) answer snap = evaluate answer snap

  -- A snapshot as it went in and as it comes out: with the answer to its request, which carries the
  -- resolved buffs and attack skills, and the gates of that answer; the rest is as it was.
  pub record Answered (client : ℕ → ScoreRequest → Result ScoringError (ScoreResponse R)) (i : ℕ)
      (before after : Snapshot R) : Type 0 where
    pub buffs : List Buff
    pub attacks : List AttackSkill
    pub answer : ScoreResponse R
    pub buffs_resolved :
        resolve_buffs before.class before.skills before.active_buffs deps.catalog ≡ ok buffs
    pub attacks_resolved :
        resolve_attack_skills before.class before.skills before.scored_skills deps.catalog
        ≡ ok attacks
    pub answered :
        client i
          (record (snapshot_request before deps.profile) { buffs = buffs; attack_skills = attacks })
        ≡ ok answer
    pub scored : after.score ≡ some answer
    pub judged :
        after.gates ≡ gates_after deps.evaluate_gates answer (record before { score = some answer })
    pub untouched : record after { score = before.score; gates = before.gates } ≡ before

  request_for-ok_inv :
      (i : ℕ) (snap : Snapshot R) (req : ScoreRequest)
      → request_for deps i snap ≡ ok req
      → (buffs : List Buff) × (resolve_buffs snap.class snap.skills snap.active_buffs deps.catalog
          ≡ ok buffs)
        × (attacks : List AttackSkill) × (resolve_attack_skills snap.class snap.skills
              snap.scored_skills deps.catalog
            ≡ ok attacks)
        × (record (snapshot_request snap deps.profile) { buffs = buffs; attack_skills = attacks }
            ≡ req)
  unfolding request_for
  request_for-ok_inv i snap req done =
      let (buffs, first, later) = >>=-ok_inv (tagged (ScoreError.bad_buff i) _) _ done in
      let (attacks, second, last) = >>=-ok_inv (tagged (ScoreError.bad_attack i) _) _ later in
      (
        buffs,
        tagged-ok_inv (ScoreError.bad_buff i) _ first,
        attacks,
        tagged-ok_inv (ScoreError.bad_attack i) _ second,
        ok_inj _ _ last,
      )

  gated-score :
      (evaluate : Option (ScoreResponse R → Snapshot R → List (GateResult R)))
      → (answer : ScoreResponse R) (snap : Snapshot R)
      → (gated evaluate answer snap).score ≡ snap.score
  gated-score none answer snap = refl
  gated-score (some evaluate) answer snap = refl

  gated-gates :
      (evaluate : Option (ScoreResponse R → Snapshot R → List (GateResult R)))
      → (answer : ScoreResponse R) (snap : Snapshot R)
      → (gated evaluate answer snap).gates ≡ gates_after evaluate answer snap
  gated-gates none answer snap = refl
  gated-gates (some evaluate) answer snap = refl

  gated-rest :
      (evaluate : Option (ScoreResponse R → Snapshot R → List (GateResult R)))
      → (answer : ScoreResponse R) (before : Snapshot R)
      → record (gated evaluate answer (record before { score = some answer })) {
        score = before.score;
        gates = before.gates;
      }
        ≡ before
  gated-rest none answer before = refl
  gated-rest (some evaluate) answer before = refl

  -- What stands at place `i` of the list before and after, scored or untouched.
  abbrev pub PlaceIs :
      (client : ℕ → ScoreRequest → Result ScoringError (ScoreResponse R)) (i : ℕ)
      → Bool
      → Option (Snapshot R)
      → Option (Snapshot R)
      → Type 0
  PlaceIs client i false before after = after ≡ before
  PlaceIs client i true none after = ⊥
  PlaceIs client i true (some before) none = ⊥
  PlaceIs client i true (some before) (some after) = Answered client i before after

  module _ (client : ℕ → ScoreRequest → Result ScoringError (ScoreResponse R)) where
    score_snapshot-Answered :
        (i : ℕ) (before : Snapshot R) (scored : ScoreResponse R × Snapshot R)
        → score_snapshot deps client i (some before) ≡ ok scored
        → Answered client i before scored.1
    unfolding score_snapshot
    score_snapshot-Answered i before scored done =
        let (req, resolved, later) =
          >>=-ok_inv (request_for deps i before)
            (λ req.
              tagged (ScoreError.scoring_failed i) (client i req)
              >>= (λ resp. ok (resp, stamp deps before resp)))
            done in
        let (resp, answered, last) =
          >>=-ok_inv (tagged (ScoreError.scoring_failed i) (client i req))
            (λ resp. ok (resp, stamp deps before resp)) later in
        let (buffs, buffs_resolved, attacks, attacks_resolved, is_req) =
          request_for-ok_inv i before req resolved in
        let is_after : stamp deps before resp ≡ scored.1 = ap (λ r. r.1) (ok_inj _ _ last) in
        let with_score = record before { score = some resp } in
        rw (← is_after) (record {
          buffs = buffs;
          attacks = attacks;
          answer = resp;
          buffs_resolved = buffs_resolved;
          attacks_resolved = attacks_resolved;
          answered =
              rw (is_req) (tagged-ok_inv (ScoreError.scoring_failed i) (client i req) answered);
          scored = gated-score deps.evaluate_gates resp with_score;
          judged = gated-gates deps.evaluate_gates resp with_score;
          untouched = gated-rest deps.evaluate_gates resp before;
        })

    -- A snapshot that is scored is there.
    score_snapshot-there :
        (i : ℕ) (found : Option (Snapshot R)) (scored : ScoreResponse R × Snapshot R)
        → score_snapshot deps client i found ≡ ok scored
        → (before : Snapshot R) × (found ≡ some before) × Answered client i before scored.1
    score_snapshot-there i none scored done = unfold score_snapshot in cc
    score_snapshot-there i (some before) scored done =
        (before, refl, score_snapshot-Answered i before scored done)

    ascending-holds :
        (low : ℕ) (xs : List ℕ) (j : ℕ) → AscendingFrom low xs → j < low → holds xs j ≡ false
    ascending-holds low [] j a h = refl
    ascending-holds low (x ∷ rest) j a h = ground (arith, ascending-holds (suc x) rest j a.1)

    same_place :
        (i : ℕ) (before after : Option (Snapshot R)) (found scored : Snapshot R)
        → before ≡ some found
        → after ≡ some scored
        → Answered client i found scored
        → PlaceIs client i true before after
    same_place i before after found scored e k h = rw (e, k) h

    place-here :
        (i : ℕ) (rest : List ℕ) (snaps out : List (Snapshot R))
        → (scored : ScoreResponse R × Snapshot R)
        → score_snapshot deps client i (get_elem? snaps i) ≡ ok scored
        → holds rest i ≡ false
        → PlaceIs client i
            (holds rest i)
            (get_elem? (set_elem snaps i scored.1) i)
            (get_elem? out i)
        → PlaceIs client i ((i == i) || holds rest i) (get_elem? snaps i) (get_elem? out i)
    place-here i rest snaps out scored done new h =
        let (found, there, answered) = score_snapshot-there i (get_elem? snaps i) scored done in
        let untouched : get_elem? out i ≡ get_elem? (set_elem snaps i scored.1) i = rw (new) at h in
        let itself : (i == i) ≡ true = ground arith in
        rw (itself) (
          same_place i (get_elem? snaps i) (get_elem? out i) found scored.1 there
            (untouched ∙ get-set snaps i scored.1 there) answered)

    place-cons :
        (i : ℕ) (rest : List ℕ) (snaps out : List (Snapshot R)) (j : ℕ)
        → (scored : ScoreResponse R × Snapshot R)
        → score_snapshot deps client i (get_elem? snaps i) ≡ ok scored
        → holds rest i ≡ false
        → PlaceIs client j
            (holds rest j)
            (get_elem? (set_elem snaps i scored.1) j)
            (get_elem? out j)
        → PlaceIs client j ((i == j) || holds rest j) (get_elem? snaps j) (get_elem? out j)
    place-cons i rest snaps out j scored done new h = elim (Bool-cases (i == j)) [
      | inl same ↦
          rw (← (==_iff i j).0 same)
            (place-here i rest snaps out scored done new (rw (← (==_iff i j).0 same) at h))
      | inr other ↦ rw (other, ← get-set_other snaps i scored.1 j other) h
    ]

    score_indices-PlaceIs :
        (low : ℕ) (is : List ℕ) (snaps : List (Snapshot R)) (version : String)
        → (scored : List (Snapshot R) × String) → AscendingFrom low is
        → score_indices deps client is snaps version ≡ ok scored
        → (j : ℕ) → PlaceIs client j (holds is j) (get_elem? snaps j) (get_elem? scored.0 j)
    unfolding score_indices
    score_indices-PlaceIs low [] snaps version scored asc done j = ground (arith, done)
    score_indices-PlaceIs low (i ∷ rest) snaps version scored asc done j =
        let (one, first, later) =
          >>=-ok_inv (score_snapshot deps client i (get_elem? snaps i))
            (λ one.
              score_indices deps client rest (set_elem snaps i one.1)
                (first_version version one.0.calc_version))
            done in
        place-cons i rest snaps scored.0 j one first
          (ascending-holds (suc i) rest i asc.1 (omega arith))
          (score_indices-PlaceIs (suc i) rest (set_elem snaps i one.1)
            (first_version version one.0.calc_version) scored asc.1 later j)

  -- What a scored trajectory is: of the same class, with each chosen snapshot answered and each other
  -- one untouched.
  pub record Stamped (client : ℕ → ScoreRequest → Result ScoringError (ScoreResponse R))
      (t after : Trajectory R) : Type 0 where
    pub same_class : after.class ≡ t.class
    pub place :
        (i : ℕ)
        → PlaceIs client i
            (holds (select_scored_indices t) i)
            (get_elem? t.snapshots i)
            (get_elem? after.snapshots i)

  with_snapshots-Stamped :
      (client : ℕ → ScoreRequest → Result ScoringError (ScoreResponse R)) (t : Trajectory R)
      → (scored : List (Snapshot R) × String)
      → score_indices deps client (select_scored_indices t) t.snapshots "" ≡ ok scored
      → Stamped client t (with_snapshots t scored).0
  with_snapshots-Stamped client t scored done = record {
    same_class = refl;
    place =
        score_indices-PlaceIs client 0 (select_scored_indices t) t.snapshots "" scored
          (select_scored_indices-Selected t).ascending done;
  }

  score_with-Stamped :
      (client : ℕ → ℕ → ScoreRequest → Result ScoringError (ScoreResponse R)) (number : ℕ)
      → (t after : Trajectory R) (version : String)
      → score_with deps (some client) number t ≡ ok (after, version)
      → Stamped (client number) t after
  score_with-Stamped client number t after version done =
      let (scored, run, e) =
        >>=-ok_inv (score_indices deps (client number) (select_scored_indices t) t.snapshots "")
          (λ scored. ok (with_snapshots t scored)) done in
      let is_after : (with_snapshots t scored).0 ≡ after = ground (arith, e) in
      rw (← is_after) (with_snapshots-Stamped (client number) t scored run)

  -- With a calculator, `scoreAndGate` leaves every snapshot that `SelectScoredIndices` does not choose as it was, and puts on each chosen
  -- one, its score and its gates aside as it was, the answer of the calculator to the request of that snapshot with its resolved buffs
  -- and attack skills, and the gates of that answer, where gates are evaluated.
  pub score_and_gate-Stamped :
      (client : ℕ → ℕ → ScoreRequest → Result ScoringError (ScoreResponse R)) (number : ℕ)
      → (t after : Trajectory R) (version : String) → deps.scoring ≡ some client
      → score_and_gate deps number t ≡ ok (after, version)
      → Stamped (client number) t after
  unfolding score_and_gate
  score_and_gate-Stamped client number t after version configured done =
      score_with-Stamped client number t after version (rw (configured) at done)
