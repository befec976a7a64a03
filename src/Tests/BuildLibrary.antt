-- ===== src/Tests/BuildLibrary.antt =====
-- The build library on a short history of two generations. Floats are numbers here.
use ro_builder.Prelude.{
  ℕ, ◌≤◌, true, false, List, [], ◌∷◌, none, some, ok, All, get_elem?, is_ok, eq_iff, ◌≡◌, ◌↔◌, refl,
  arith,
}
use ro_builder.Prelude.Int.{pos, int_lt}
use ro_builder.Scoring.{ScoreResponse}
use ro_builder.Domain.Gate.{absent, GateResult, severity_pass}
use ro_builder.Domain.Trajectory.{Trajectory}
use ro_builder.BuildLibrary.Rows.{Row, Rows, completed, Distinct}
use ro_builder.BuildLibrary.Generations.{
  queued_row, claimed_row, terminal_row, in_flight_count, oldest_queued, enqueue,
  enqueue_if_under_cap,
}
use ro_builder.BuildLibrary.Generations.Claims.{Picked, oldest_queued-Picked}
use ro_builder.BuildLibrary.Generations.Steps.{
  Call, enqueues_capped, claims, completes, recovers, run, step, Moves,
}
use ro_builder.BuildLibrary.Generations.Histories.{
  ValidTable, run-ValidTable, run-terminal, step-Moves,
}
use ro_builder.BuildLibrary.Generations.Caps.{run-Capped}
use ro_builder.BuildLibrary.Generations.Recovery.{Budgeted, run-Budgeted}
use ro_builder.BuildLibrary.Generations.{completed_row}
use ro_builder.BuildLibrary.Saved.{
  Store, SaveInput, save_and_complete, summarize_and_guard, saved_row, insert_saved, tally_gates,
  guard_primary,
}
use ro_builder.BuildLibrary.Saved.Guard.{Publishable, summarize_and_guard-Publishable}
use ro_builder.BuildLibrary.Saved.Complete.{Completes, save_and_complete-Completes}
use ro_builder.Tests.Domain.{knight}

abbrev history : List Call
history =
    enqueues_capped (pos 2) "a" 1 "{}"
    ∷ enqueues_capped (pos 2) "b" 2 "{}"
    ∷ enqueues_capped (pos 2) "c" 3 "{}"
    ∷ claims (λ _. false) "w0" 4 90
    ∷ completes "a" "w0" 50
    ∷ claims (λ _. false) "w1" 60 90
    ∷ recovers 200 (pos 3)
    ∷ []

abbrev done : Row
done = terminal_row completed "" "" "" 50 (claimed_row "w0" 4 90 (queued_row "a" 1 "{}"))

abbrev waiting : Row
waiting = record (queued_row "b" 2 "{}") { started_at = some 60; attempts = 1 }

history_runs : run [] history ≡ done ∷ waiting ∷ []
unfolding run step enqueue enqueue_if_under_cap int_lt
history_runs = refl

run-ValidTable_example : ValidTable (run [] history)
run-ValidTable_example = run-ValidTable history

run-Capped_example : in_flight_count (run [] history) ≤ 2
run-Capped_example =
    run-Capped 2 history (omega arith, (omega arith, (omega arith, (tt, (tt, (tt, (tt, tt)))))))

run-Budgeted_example : All (Budgeted 3) (run [] history)
run-Budgeted_example =
    run-Budgeted 3 history (omega arith) (tt, (tt, (tt, (tt, (tt, (tt, (omega arith, tt)))))))

abbrev table : Rows
table = done ∷ claimed_row "w1" 60 90 (queued_row "b" 2 "{}") ∷ []

table-Distinct : Distinct table
unfolding Distinct
table-Distinct = (((λ e. ground (arith, e, eq_iff "b" "a")), tt), (tt, tt))

step-Moves_example :
    (s : Row) × (get_elem? (step table (completes "b" "w1" 70)) 1 ≡ some s)
    × Moves (claimed_row "w1" 60 90 (queued_row "b" 2 "{}")) s
step-Moves_example = step-Moves table (completes "b" "w1" 70) 1 table-Distinct refl

run-terminal_example : get_elem? (run table history) 0 ≡ some done
run-terminal_example = run-terminal table history 0 table-Distinct refl refl

oldest_queued-Picked_example : Picked (λ _. false) table (oldest_queued (λ _. false) table)
oldest_queued-Picked_example = oldest_queued-Picked (λ _. false) table

abbrev pub passing : GateResult ℕ
passing = record {
  name = "hit";
  threshold = absent;
  actual = absent;
  severity = severity_pass;
  reason = record { format = "ok"; args = [] };
}

abbrev pub response : ScoreResponse ℕ
response = record {
  derived = record {
    atk = record { base = pos 1; plus = pos 0 };
    matk = record { min = pos 1; max = pos 2 };
    max_hp = pos 100;
    stat_points_remaining = pos 0;
    total_stats = knight.stats;
  };
  combat = none;
  calc_version = "v1";
}

abbrev pub answer : Trajectory ℕ
answer = record {
  class = "knight";
  snapshots = record knight { score = some response; gates = passing ∷ [] } ∷ [];
}

summarize_and_guard-Publishable_example :
    (is_ok (summarize_and_guard answer []) ≡ true) ↔ Publishable answer []
summarize_and_guard-Publishable_example = summarize_and_guard-Publishable answer []

abbrev input : SaveInput ℕ
input = record {
  id = "b";
  owner = "w1";
  class = "knight";
  server = "uaro";
  playstyle = "pvm";
  mode = "pre-re";
  description = "";
  primary = answer;
  alternatives = [];
  final_text = "done";
  calc_version = "v1";
  catalog_version = pos 3;
}

abbrev pub store : Store ℕ
store = record { generations = table; saved = [] }

abbrev saved_store : Store ℕ
saved_store = record {
  generations = done ∷ completed_row 70 (claimed_row "w1" 60 90 (queued_row "b" 2 "{}")) ∷ [];
  saved = saved_row input 70 (record { pass = 1; warn = 0; fail = 0; fail_hard = 0 }) ∷ [];
}

saves : save_and_complete store input 70 ≡ ok saved_store
unfolding save_and_complete summarize_and_guard insert_saved guard_primary tally_gates
saves = refl

save_and_complete-Completes_example : Completes store saved_store input 70
save_and_complete-Completes_example = save_and_complete-Completes store saved_store input 70 saves
