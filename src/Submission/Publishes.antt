-- ===== src/Submission/Publishes.antt =====
-- A committed submission and the guard in front of the library (internal/buildlibrary/save.go).
use ro_builder.Prelude.{
  ℕ, zero, suc, ◌-◌, ◌<◌, Bool, true, false, List, [], ◌∷◌, ◌++◌, Option, none, some, String, All,
  get_elem?, All-get_elem?, length, Result, ok, is_ok, ◌==◌, some_inj, ◌≡◌, refl, sym, ◌∙◌, arith,
  ◌≢◌,
}
use ro_builder.Scoring.{ScoreRequest, ScoreResponse}
use ro_builder.Domain.Gate.{GateResult, is_blocking}
use ro_builder.Domain.Snapshot.{Snapshot}
use ro_builder.Domain.Trajectory
use ro_builder.Domain.Trajectory.Valid.{Accepts, validate-Accepts}
use ro_builder.Gates.Status.{has_fail}
use ro_builder.Gates.Evaluate.{evaluate}
use ro_builder.Gates.Offense.{evaluate_requirements, requirements_of}
use ro_builder.BuildLibrary.Saved.{is_empty, is_scored, summarize_and_guard}
use ro_builder.BuildLibrary.Saved.Guard.{
  Unblocked, Judged, scored_count, summarize_and_guard-Publishable,
}
use ro_builder.Catalog.Load.{Catalog}
use ro_builder.Submission.Select.{holds, select_scored_indices}
use ro_builder.Submission.Select.Selected.{last-MustScore, select_scored_indices-Selected}
use ro_builder.Submission.Score.{ScoringError}
use ro_builder.Submission.Score.Stamped.{PlaceIs, Answered, Stamped, score_and_gate-Stamped}
use ro_builder.Submission.Execute.{SubmitTrajectoryInput, Commit, prepare}
use ro_builder.Submission.Execute.Sorting.{IsOpen, Passing, SortsTo-IsOpen}
use ro_builder.Submission.Execute.Accepted.{prepare-Prepared}
use ro_builder.Orchestrator.Wiring.{Environment, deps_of, gates_with, evaluate_gates_for}

All-of_get_elem? {ℓ κ} :
    {A : Type ℓ} (P : A → Type κ) (xs : List A)
    → ((i : ℕ) (a : A) → get_elem? xs i ≡ some a → P a)
    → All P xs
All-of_get_elem? P [] h = tt
All-of_get_elem? P (x ∷ xs) h = (h 0 x refl, All-of_get_elem? P xs (λ i a e. h (suc i) a e))

append-not_empty {ℓ} :
    {A : Type ℓ} (xs ys : List A) → is_empty xs ≡ false → is_empty (xs ++ ys) ≡ false
append-not_empty [] ys h = cc
append-not_empty (x ∷ xs) ys h = refl

last_place {ℓ} : {A : Type ℓ} (xs : List A) → xs ≢ [] → (suc (length xs - 1) == length xs) ≡ true
last_place [] h = absurd (h refl)
last_place (x ∷ xs) h = ground arith

module _ {R : Type 0} where
  has_fail-Unblocked :
      (gates : List (GateResult R))
      → has_fail gates ≡ false
      → All (λ g. is_blocking g ≡ false) gates
  unfolding has_fail
  has_fail-Unblocked [] h = tt
  has_fail-Unblocked (g ∷ rest) h = ground (arith, has_fail-Unblocked rest, h)

  Passing-Unblocked : (snaps : List (Snapshot R)) → All Passing snaps → All Unblocked snaps
  Passing-Unblocked [] h = tt
  Passing-Unblocked (s ∷ rest) h = (has_fail-Unblocked s.gates h.0, Passing-Unblocked rest h.1)

  IsOpen-Unblocked :
      (ts : List (Trajectory.Trajectory R))
      → All IsOpen ts
      → All (λ t. All Unblocked t.snapshots) ts
  IsOpen-Unblocked [] h = tt
  IsOpen-Unblocked (t ∷ rest) h = (Passing-Unblocked t.snapshots h.0, IsOpen-Unblocked rest h.1)

  scored-counts :
      (snaps : List (Snapshot R)) (i : ℕ) (s : Snapshot R)
      → get_elem? snaps i ≡ some s
      → is_scored s ≡ true
      → 0 < scored_count snaps
  scored-counts [] i s e h = cc
  scored-counts (x ∷ rest) zero s e h = ground (arith, e, h)
  scored-counts (x ∷ rest) (suc i) s e h = ground (arith, scored-counts rest i s e h)

  requirements_of-not_empty : (s : ScoreResponse R) → is_empty (requirements_of (some s)) ≡ false
  unfolding requirements_of
  requirements_of-not_empty s = ground arith

  -- The gates of a snapshot that has a score are never none.
  gates_with-not_empty :
      (env : Environment R) (c : Catalog) (resp : ScoreResponse R) (snap : Snapshot R)
      → is_empty (gates_with env (some c) resp snap) ≡ false
  unfolding evaluate evaluate_requirements
  gates_with-not_empty env c resp snap =
      append-not_empty (requirements_of (some resp)) _ (requirements_of-not_empty resp)

  -- The gates that a request's tool puts on an answered snapshot.
  gates_for-not_empty :
      (env : Environment R) (known : Option Catalog) (resp : ScoreResponse R) (snap : Snapshot R)
      → known ≢ none
      → is_empty (gates_with env known resp snap) ≡ false
  gates_for-not_empty env none resp snap h = absurd (h refl)
  gates_for-not_empty env (some c) resp snap h = gates_with-not_empty env c resp snap

  -- It comes without a score of its own.
  abbrev pub Unscored : Snapshot R → Type 0
  Unscored s = is_scored s ≡ false

  module _ (env : Environment R)
      (client : ℕ → ScoreRequest → Result ScoringError (ScoreResponse R)) where
    Answered-scored :
        (i : ℕ) (before after : Snapshot R)
        → Answered (deps_of env) client i before after
        → is_scored after ≡ true
    Answered-scored i before after h = rw (h.scored) refl

    Answered-Judged :
        (i : ℕ) (before after : Snapshot R)
        → env.catalog ≢ none
        → Answered (deps_of env) client i before after
        → Judged after
    unfolding evaluate_gates_for
    Answered-Judged i before after known h =
        let judged : is_empty after.gates ≡ false = rw (h.judged) (
          gates_for-not_empty env env.catalog h.answer (record before { score = some h.answer })
            known) in
        ground (arith, judged)

    place-Judged :
        (i : ℕ) (chosen : Bool) (before after : Option (Snapshot R)) (s : Snapshot R)
        → env.catalog ≢ none
        → ((b : Snapshot R) → before ≡ some b → Unscored b)
        → PlaceIs (deps_of env) client i chosen before after
        → after ≡ some s
        → Judged s
    place-Judged i false before after s known fresh h e = ground (arith, fresh s (sym h ∙ e))
    place-Judged i true none after s known fresh h e = absurd h
    place-Judged i true (some b) none s known fresh h e = absurd h
    place-Judged i true (some b) (some a) s known fresh h e =
        rw (← some_inj e) (Answered-Judged i b a known h)

    Stamped-Judged :
        (t after : Trajectory.Trajectory R)
        → env.catalog ≢ none
        → All Unscored t.snapshots
        → Stamped (deps_of env) client t after
        → All Judged after.snapshots
    Stamped-Judged t after known fresh h = All-of_get_elem? Judged after.snapshots (λ i s e.
        place-Judged i (holds (select_scored_indices t) i) (get_elem? t.snapshots i)
          (get_elem? after.snapshots i) s known
          (λ b found. All-get_elem? Unscored t.snapshots i fresh found) (h.place i) e)

    place-counts :
        (i : ℕ) (before after : Option (Snapshot R)) (snaps : List (Snapshot R))
        → get_elem? snaps i ≡ after
        → PlaceIs (deps_of env) client i true before after
        → 0 < scored_count snaps
    place-counts i none after snaps e h = absurd h
    place-counts i (some b) none snaps e h = absurd h
    place-counts i (some b) (some a) snaps e h = scored-counts snaps i a e (Answered-scored i b a h)

    Stamped-scored :
        (t after : Trajectory.Trajectory R)
        → t.snapshots ≢ []
        → Stamped (deps_of env) client t after
        → 0 < scored_count after.snapshots
    Stamped-scored t after some_snapshot h =
        let last = length t.snapshots - 1 in
        let chosen =
          ((select_scored_indices-Selected t).exact last).1
            (last-MustScore t.snapshots last (last_place t.snapshots some_snapshot)) in
        place-counts last (get_elem? t.snapshots last) (get_elem? after.snapshots last)
          after.snapshots refl (rw (chosen) at (h.place last))

  Accepts-not_nil : (class : String) (l : List (Snapshot R)) → Accepts class l → l ≢ []
  Accepts-not_nil class [] h = absurd h
  Accepts-not_nil class (s ∷ rest) h = λ e. cc

  -- A submission that `Execute` commits with a calculator and a catalog, and whose primary came without scores, is one that
  -- `summarizeAndGuard` lets into the library: its last snapshot at least is scored, each scored one has gate results, and no gate of it or
  -- of a kept alternative blocks.
  pub prepare-Publishable :
      (env : Environment R) (input : SubmitTrajectoryInput R) (c : Commit R)
      → (client : ℕ → ℕ → ScoreRequest → Result ScoringError (ScoreResponse R))
      → env.client ≡ some client
      → env.catalog ≢ none
      → All Unscored input.primary.snapshots
      → prepare (deps_of env) input ≡ ok c
      → is_ok (summarize_and_guard c.submission.primary c.submission.alternatives) ≡ true
  prepare-Publishable env input c client configured known fresh done =
      let ready = prepare-Prepared (deps_of env) input c done in
      let stamped =
        score_and_gate-Stamped (deps_of env) client 0 input.primary c.submission.primary
          c.submission.calc_version configured ready.scored in
      let accepted = ((validate-Accepts input.primary).0 ready.valid).1 in
      (summarize_and_guard-Publishable c.submission.primary c.submission.alternatives).1 (record {
        judged =
            Stamped-Judged env (client 0) input.primary c.submission.primary known fresh stamped;
        unblocked = Passing-Unblocked c.submission.primary.snapshots ready.primary_open;
        scored =
            Stamped-scored env (client 0) input.primary c.submission.primary
              (Accepts-not_nil input.primary.class input.primary.snapshots accepted) stamped;
        alternatives =
            IsOpen-Unblocked c.submission.alternatives
              (SortsTo-IsOpen (deps_of env) ready.alternatives);
      })
