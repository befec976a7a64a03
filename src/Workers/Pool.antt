-- ===== src/Workers/Pool.antt =====
-- internal/workers/pool.go: what a worker does with the generation that it has claimed. What the
-- runner, the JSON decoder and the save callback come to is an argument; `rows` is the table when
-- the job's outcome is written, which other workers may have changed since the claim.
-- The error of the callback on a missing result (cmd/api/main.go) is not told apart: like every
-- error of the save it marks the generation failed.
pub mod Ends
use Prim.Native.String.{◌++◌ as str_append}
use ro_builder.Prelude.{
  ℕ, Bool, true, false, ◌&&◌, List, Option, none, some, String, Result, ok, err, if◌then◌else◌,
}
use ro_builder.Prelude.Int.{ℤ, pos, int_lt}
use ro_builder.BuildLibrary.Rows.{Row, Rows}
use ro_builder.BuildLibrary.Generations.{QueueError, mark_completed, mark_failed}
use ro_builder.BuildLibrary.Saved.{Store, SaveInput, SaveError, save_and_complete}

abbrev pub failure_provider_error : String
failure_provider_error = "provider_error"

abbrev pub failure_validation_late : String
failure_validation_late = "validation_error_late"

abbrev pub failure_shutdown_interrupt : String
failure_shutdown_interrupt = "shutdown_interrupted"

pub record Config : Type 0 where
  pub workers : ℤ
  pub poll_interval : ℤ
  pub lease_ttl : ℤ
  pub sweep_interval : ℤ
  pub max_attempts : ℤ

abbrev or_default : ℤ → ℤ → ℤ
or_default value default = if int_lt (pos 0) value then value else default

-- The defaults of `New`; durations are nanoseconds.
unfoldable pub with_defaults : Config → Config
with_defaults cfg = record cfg {
  workers = or_default cfg.workers (pos 1);
  poll_interval = or_default cfg.poll_interval (pos 5000000000);
  lease_ttl = or_default cfg.lease_ttl (pos 90000000000);
  sweep_interval = or_default cfg.sweep_interval (pos 30000000000);
}

-- An error of the runner, as `errors.AsType` and `errors.Is` take it apart.
pub record RunError : Type 0 where
  pub message : String
  pub validation : Option String
  pub failure : Option (String × String)
  pub canceled : Bool

abbrev classified : String → Option String → Option (String × String) → String × String
classified message (some detail) failure = (failure_validation_late, detail)
classified message none (some f) = f
classified message none none = (failure_provider_error, message)

-- The reason and the detail of a failed run.
unfoldable pub failure_of : RunError → Bool → String × String
failure_of e shutting_down =
    if e.canceled && shutting_down
    then (failure_shutdown_interrupt, "shutdown drain timeout exceeded")
    else classified e.message e.validation e.failure

-- What a job comes to; `trace` is `traceJSON` of the result.
pub data Outcome (R : Type 0) : Type 0 where
  malformed : String → Outcome R
  run_failed : RunError → (trace : String) → Outcome R
  finished : SaveInput R → (trace : String) → Outcome R
  panicked : String → Outcome R

abbrev or_keep : {R : Type 0} → Store R → Result QueueError Rows → Store R
or_keep store (ok rows) = record store { generations = rows }
or_keep store (err e) = store

module _ {R : Type 0} where
  -- Behind the save callback, which returns an error or the saved store.
  unfoldable pub after_save :
      Store R
      → String
      → String
      → String
      → (SaveError → String)
      → ℕ
      → Result SaveError (Store R)
      → Store R
  unfolding mark_failed
  after_save store id owner trace message now (ok saved) = saved
  after_save store id owner trace message now (err e) = or_keep store (
      mark_failed store.generations id owner failure_validation_late
        (str_append "save failed: " (message e)) trace now)

  -- `runJob`, from the outcome on: with saving on, the callback is `SaveAndComplete` on the result
  -- under the generation's id and the worker's lease.
  unfoldable pub run_job :
      Bool → Bool → (SaveError → String) → Store R → String → String → ℕ → Outcome R → Store R
  unfolding failure_of after_save mark_completed mark_failed save_and_complete
  run_job saving shutting_down message store id owner now (malformed problem) = or_keep store (
      mark_failed store.generations id owner failure_validation_late
        (str_append "request_json malformed: " problem) "" now)
  run_job saving shutting_down message store id owner now (run_failed e trace) = or_keep store (
      mark_failed store.generations id owner (failure_of e shutting_down).0
        (failure_of e shutting_down).1 trace now)
  run_job true shutting_down message store id owner now (finished input trace) =
      after_save store id owner trace message now
        (save_and_complete store (record input { id = id; owner = owner }) now)
  run_job false shutting_down message store id owner now (finished input trace) =
      or_keep store (mark_completed store.generations id owner now)
  run_job saving shutting_down message store id owner now (panicked problem) = or_keep store (
      mark_failed store.generations id owner failure_provider_error (str_append "panic: " problem)
        "" now)
