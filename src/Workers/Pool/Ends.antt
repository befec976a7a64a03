-- ===== src/Workers/Pool/Ends.antt =====
-- internal/workers/pool.go: a job that ends leaves its generation ended.
use mathlib.Core.Path.{subst}
use Prim.Native.String.{◌++◌ as str_append}
use ro_builder.Prelude.{
  ℕ, Bool, true, false, some, String, get_elem?, Result, ok, err, ◌≡◌, refl, sym, ap, ◌∙◌,
}
use ro_builder.BuildLibrary.Rows.{GenStatus, completed, failed, Row, get_elem?-update_where}
use ro_builder.BuildLibrary.Generations.{
  is_owned, terminal_row, mark_terminal, mark_completed, mark_failed,
}
use ro_builder.BuildLibrary.Generations.Histories.{is_terminal}
use ro_builder.BuildLibrary.Generations.Caps.{mark_terminal-ends}
use ro_builder.BuildLibrary.Generations.{completed_row}
use ro_builder.BuildLibrary.Saved.{Store, SaveInput, SaveError, save_and_complete}
use ro_builder.BuildLibrary.Saved.Complete.{save_and_complete-Completes}
use ro_builder.Workers.Pool.{
  Outcome, malformed, run_failed, finished, panicked, or_keep, after_save, failure_of, run_job,
  failure_validation_late, failure_provider_error,
}

module _ {R : Type 0} where
  -- The generation at a place has ended.
  abbrev pub Ended : Store R → ℕ → Type 0
  Ended store i =
      (s : Row) × (get_elem? store.generations i ≡ some s) × (is_terminal s.status ≡ true)

  marked-Ended :
      (store : Store R) (id owner : String) (status : GenStatus) (reason detail trace : String)
      (now i : ℕ) {r : Row}
      → is_terminal status ≡ true
      → get_elem? store.generations i ≡ some r
      → is_owned id owner r ≡ true
      → Ended
          (or_keep store (mark_terminal store.generations id owner status reason detail trace now))
          i
  marked-Ended store id owner status reason detail trace now i {r} t e own =
      let ends =
        mark_terminal-ends store.generations id owner status reason detail trace now i e own in
      subst (λ o. Ended (or_keep store o) i) (sym ends.1)
        (terminal_row status reason detail trace now r, ends.2, t)

  saved-Ended :
      (store after : Store R) (input : SaveInput R) (now i : ℕ) {r : Row}
      → get_elem? store.generations i ≡ some r
      → is_owned input.id input.owner r ≡ true
      → save_and_complete store input now ≡ ok after
      → Ended after i
  saved-Ended store after input now i {r} e own done = (
    completed_row now r,
    ap (λ g. get_elem? g i) (save_and_complete-Completes store after input now done).updated
        ∙ (get_elem?-update_where (is_owned input.id input.owner) (completed_row now)
              store.generations i e
            ∙ ap some (rw own refl)),
    refl,
  )

  after_save-Ended :
      (store : Store R) (id owner trace : String) (message : SaveError → String) (now i : ℕ)
      (outcome : Result SaveError (Store R)) {r : Row}
      → get_elem? store.generations i ≡ some r
      → is_owned id owner r ≡ true
      → ((saved : Store R) → outcome ≡ ok saved → Ended saved i)
      → Ended (after_save store id owner trace message now outcome) i
  unfolding after_save mark_failed
  after_save-Ended store id owner trace message now i (ok saved) e own h = h saved refl
  after_save-Ended store id owner trace message now i (err x) e own h =
      marked-Ended store id owner failed failure_validation_late
        (str_append "save failed: " (message x)) trace now i refl e own

  -- A job whose worker still holds the lease leaves its generation completed or failed, whatever the job comes to: a request
  -- that does not decode, an error of the runner, a panic, a save that fails, or a result.
  pub run_job-Ended :
      (saving shutting_down : Bool) (message : SaveError → String) (store : Store R)
      (id owner : String) (now i : ℕ) (outcome : Outcome R) {r : Row}
      → get_elem? store.generations i ≡ some r
      → is_owned id owner r ≡ true
      → Ended (run_job saving shutting_down message store id owner now outcome) i
  unfolding run_job mark_failed mark_completed
  run_job-Ended saving shutting_down message store id owner now i (malformed problem) e own =
      marked-Ended store id owner failed failure_validation_late
        (str_append "request_json malformed: " problem) "" now i refl e own
  run_job-Ended saving shutting_down message store id owner now i (run_failed x trace) e own =
      marked-Ended store id owner failed (failure_of x shutting_down).0
        (failure_of x shutting_down).1 trace now i refl e own
  run_job-Ended true shutting_down message store id owner now i (finished input trace) e own =
      after_save-Ended store id owner trace message now i _ e own (λ saved done.
        saved-Ended store saved (record input { id = id; owner = owner }) now i e own done)
  run_job-Ended false shutting_down message store id owner now i (finished input trace) e own =
      marked-Ended store id owner completed "" "" "" now i refl e own
  run_job-Ended saving shutting_down message store id owner now i (panicked problem) e own =
      marked-Ended store id owner failed failure_provider_error (str_append "panic: " problem) ""
        now i refl e own
