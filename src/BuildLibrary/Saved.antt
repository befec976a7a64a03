-- ===== src/BuildLibrary/Saved.antt =====
-- internal/buildlibrary/save.go and accept.go: the guard on what is saved, the table
-- `saved_trajectories`, and `SaveAndComplete`. The trajectories stand for their JSON texts; the
-- embedding, which only the vector search reads, is left out.
pub mod Guard
pub mod Complete
use ro_builder.Prelude.{
  ℕ, suc, ◌+◌, Bool, true, false, not, ◌&&◌, List, [], ◌∷◌, ◌++◌, Option, none, some, String,
  str_eq, any, leb, Result, ok, err, ◌>>=◌, ◌>>◌, ◌==◌, reject_if, if◌then◌else◌,
}
use ro_builder.Prelude.Int.{ℤ}
use ro_builder.BuildLibrary.Rows.{completed, Row, Rows, update_where, count_where}
use ro_builder.BuildLibrary.Generations.{is_owned, completed_row}
use ro_builder.Domain.Gate.{
  GateResult, severity_pass, severity_warn, severity_fail, severity_fail_hard,
}
use ro_builder.Domain.Snapshot.{Snapshot}
use ro_builder.Domain.Trajectory.{Trajectory}

pub record GateSummary : Type 0 where
  pub pass : ℕ
  pub warn : ℕ
  pub fail : ℕ
  pub fail_hard : ℕ

pub data SaveError : Type 0 where
  id_required : SaveError
  failing_gates : String → SaveError
  no_scored_snapshots : SaveError
  gates_not_evaluated : SaveError
  insert_failed : String → SaveError
  already_terminal : String → SaveError
  not_found : SaveError

abbrev pub no_gates : GateSummary
no_gates = record { pass = 0; warn = 0; fail = 0; fail_hard = 0 }

abbrev pub is_empty {ℓ} : {A : Type ℓ} → List A → Bool
is_empty [] = true
is_empty (x ∷ xs) = false

-- `COALESCE(accepted_at, now())`
abbrev pub coalesce : Option ℕ → ℕ → ℕ
coalesce none now = now
coalesce (some t) now = t

module _ {R : Type 0} where
  -- The loop of `tallyGates`, which counts into `sum`.
  unfoldable pub tally_gates : GateSummary → List (GateResult R) → Result SaveError GateSummary
  tally_gates sum [] = ok sum
  tally_gates sum (g ∷ rest) =
      let passed = tally_gates (record sum { pass = suc sum.pass }) rest in
      let warned = tally_gates (record sum { warn = suc sum.warn }) rest in
      let other = tally_gates sum rest in
      if str_eq g.severity severity_pass
      then passed
      else if str_eq g.severity severity_warn
      then warned
      else if str_eq g.severity severity_fail
      then err (failing_gates g.name)
      else if str_eq g.severity severity_fail_hard
      then err (failing_gates g.name)
      else other

  abbrev pub is_scored : Snapshot R → Bool
  is_scored s = elim s.score [ none ↦ false | some _ ↦ true ]

  -- The loop of `summarizeAndGuard` over the primary's snapshots: `scoredInPrimary` and the summary.
  unfoldable pub guard_primary :
      ℕ → GateSummary → List (Snapshot R) → Result SaveError (ℕ × GateSummary)
  unfolding tally_gates
  guard_primary scored sum [] = ok (scored, sum)
  guard_primary scored sum (s ∷ rest) = do
    reject_if (is_scored s && is_empty s.gates) gates_not_evaluated
    tallied ← tally_gates sum s.gates
    guard_primary (if is_scored s then suc scored else scored) tallied rest

  unfoldable pub tally_snapshots : GateSummary → List (Snapshot R) → Result SaveError GateSummary
  unfolding tally_gates
  tally_snapshots sum [] = ok sum
  tally_snapshots sum (s ∷ rest) = do
    tallied ← tally_gates sum s.gates
    tally_snapshots tallied rest

  -- The loop over the alternatives.
  unfoldable pub tally_alternatives :
      GateSummary → List (Trajectory R) → Result SaveError GateSummary
  unfolding tally_snapshots
  tally_alternatives sum [] = ok sum
  tally_alternatives sum (alt ∷ rest) = do
    tallied ← tally_snapshots sum alt.snapshots
    tally_alternatives tallied rest

  -- `summarizeAndGuard`
  unfoldable pub summarize_and_guard :
      Trajectory R → List (Trajectory R) → Result SaveError GateSummary
  unfolding guard_primary tally_alternatives
  summarize_and_guard primary alts = do
    counted ← guard_primary 0 no_gates primary.snapshots
    reject_if (counted.0 == 0) no_scored_snapshots
    tally_alternatives counted.1 alts

-- A row of the table, its embedding aside.
pub record SavedRow (R : Type 0) : Type 0 where
  pub id : String
  pub created_at : ℕ
  pub class : String
  pub server : String
  pub playstyle : String
  pub mode : String
  pub description : String
  pub primary : Trajectory R
  pub alternatives : List (Trajectory R)
  pub final_text : String
  pub gate_summary : GateSummary
  pub calc_version : String
  pub catalog_version : ℤ
  pub accepted_at : Option ℕ

pub record SaveInput (R : Type 0) : Type 0 where
  pub id : String
  pub owner : String
  pub class : String
  pub server : String
  pub playstyle : String
  pub mode : String
  pub description : String
  pub primary : Trajectory R
  pub alternatives : List (Trajectory R)
  pub final_text : String
  pub calc_version : String
  pub catalog_version : ℤ

-- The two tables.
pub record Store (R : Type 0) : Type 0 where
  pub generations : Rows
  pub saved : List (SavedRow R)

module _ {R : Type 0} where
  abbrev pub saved_row : SaveInput R → ℕ → GateSummary → SavedRow R
  saved_row input now summary = record {
    id = input.id;
    created_at = now;
    class = input.class;
    server = input.server;
    playstyle = input.playstyle;
    mode = input.mode;
    description = input.description;
    primary = input.primary;
    alternatives = input.alternatives;
    final_text = input.final_text;
    gate_summary = summary;
    calc_version = input.calc_version;
    catalog_version = input.catalog_version;
    accepted_at = none;
  }

  -- The INSERT: the id must be that of a generation, and new among the saved.
  unfoldable pub insert_saved :
      Store R → SaveInput R → ℕ → GateSummary → Result SaveError (List (SavedRow R))
  insert_saved store input now summary = do
    reject_if (not (any (λ g. str_eq g.id input.id) store.generations)) (insert_failed input.id)
    reject_if (any (λ s. str_eq s.id input.id) store.saved) (insert_failed input.id)
    ok (store.saved ++ (saved_row input now summary ∷ []))

  -- `Save`
  unfoldable pub save : Store R → SaveInput R → ℕ → Result SaveError (Store R)
  unfolding summarize_and_guard insert_saved
  save store input now = do
    reject_if (str_eq input.id "") id_required
    summary ← summarize_and_guard input.primary input.alternatives
    saved ← insert_saved store input now summary
    ok (record store { saved = saved })

  -- `SaveAndComplete`: an error rolls back both tables.
  unfoldable pub save_and_complete : Store R → SaveInput R → ℕ → Result SaveError (Store R)
  unfolding summarize_and_guard insert_saved count_where update_where
  save_and_complete store input now = do
    reject_if (str_eq input.id "") id_required
    summary ← summarize_and_guard input.primary input.alternatives
    saved ← insert_saved store input now summary
    reject_if (count_where (is_owned input.id input.owner) store.generations == 0)
        (already_terminal input.id)
    ok (record {
      generations =
          update_where (is_owned input.id input.owner) (completed_row now) store.generations;
      saved = saved;
    })

  -- `Accept`: the time on the row, the first one if there are two calls.
  unfoldable pub accept : List (SavedRow R) → String → ℕ → Result SaveError (ℕ × List (SavedRow R))
  accept [] id now = err not_found
  accept (s ∷ rest) id now =
      let others = accept rest id now in
      if str_eq s.id id
      then ok (
        coalesce s.accepted_at now,
        record s { accepted_at = some (coalesce s.accepted_at now) } ∷ rest,
      )
      else elim others [ err e ↦ err e | ok found ↦ ok (found.0, s ∷ found.1) ]
