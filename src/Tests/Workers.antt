-- ===== src/Tests/Workers.antt =====
-- A worker's job that panics.
use ro_builder.Prelude.{true, false, none, some, ◌≡◌, refl}
use ro_builder.Workers.Pool.{panicked, run_job, failure_of}
use ro_builder.Workers.Pool.Ends.{Ended, run_job-Ended}
use ro_builder.Tests.BuildLibrary.{store}

canceled_at_shutdown :
    failure_of
      (record { message = "x"; validation = some "v"; failure = none; canceled = true })
      true
    ≡ ("shutdown_interrupted", "shutdown drain timeout exceeded")
unfolding failure_of
canceled_at_shutdown = refl

run_job-Ended_example :
    Ended (run_job true false (λ _. "e") store "b" "w1" 70 (panicked "nil map")) 1
run_job-Ended_example =
    run_job-Ended true false (λ _. "e") store "b" "w1" 70 1 (panicked "nil map") refl refl
