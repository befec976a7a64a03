-- ===== src/BuildLibrary/Generations/Caps.antt =====
-- internal/buildlibrary/generations.go: the cap on generations in flight, and who may end one.
use ro_builder.Prelude.{
  ℕ, zero, suc, ◌+◌, ◌≤◌, Bool, true, false, not, List, [], ◌∷◌, ◌++◌, Option, none, some, String,
  str_eq, any, leb, length, Result, ok, err, All, get_elem?, if_cases, ◌≡◌, refl, ◌∙◌, ap, arith,
}
use ro_builder.Prelude.Int.{pos, ◌≤ℤ◌, int_lt, int_lt_iff}
use ro_builder.BuildLibrary.Rows.{
  GenStatus, Row, Rows, is_in_flight, update_where, count_where, Distinct, get_elem?-update_where,
}
use ro_builder.BuildLibrary.Generations.{
  completed_row, queued_row, enqueue, in_flight_count, enqueue_if_under_cap, oldest_queued,
  claim_row, claim_next, is_owned, renew_lease, QueueError, terminal_row, mark_terminal,
  mark_completed, mark_failed, recover_expired_leases, is_expired, expired_row, has_budget,
  requeued_row,
}
use ro_builder.BuildLibrary.Generations.Steps.{
  Call, enqueues, enqueues_capped, claims, renews, completes, saves, fails, recovers, or_else, step,
  run, Moves, kept, claimed, renewed, completed_by, saved_by, failed_by, requeued, expired,
}
use ro_builder.BuildLibrary.Generations.Moved.{Moved, step-Moved}
use ro_builder.BuildLibrary.Generations.Histories.{step-Distinct}

length-update_where :
    (test : Row → Bool) (change : Row → Row) (rows : Rows)
    → length (update_where test change rows) ≡ length rows
unfolding update_where
length-update_where test change [] = refl
length-update_where test change (r ∷ rest) = ground (arith, length-update_where test change rest)

count-length : (test : Row → Bool) (rows : Rows) → count_where test rows ≤ length rows
unfolding count_where
count-length test [] = omega arith
count-length test (r ∷ rest) = ground (arith, count-length test rest)

Moves-in_flight :
    (r s : Row) → Moves r s → is_in_flight s.status ≡ true → is_in_flight r.status ≡ true
Moves-in_flight r _ kept e = e
Moves-in_flight r _ (claimed owner now lease_ttl q) e = rw q refl
Moves-in_flight r _ (renewed expiry q) e = e
Moves-in_flight r _ (completed_by owner now q o) e = cc
Moves-in_flight r _ (saved_by owner now q o) e = cc
Moves-in_flight r _ (failed_by owner reason detail trace now q o) e = cc
Moves-in_flight r _ (requeued q) e = rw q refl
Moves-in_flight r _ (expired now q) e = cc

Moved-in_flight :
    (rows after : Rows)
    → Moved rows after
    → in_flight_count after + length rows ≤ in_flight_count rows + length after
unfolding Moved in_flight_count count_where
Moved-in_flight [] after m = omega (arith, count-length (λ r. is_in_flight r.status) after)
Moved-in_flight (r ∷ rest) [] m = absurd m
Moved-in_flight (r ∷ rest) (s ∷ after) m =
    ground (arith, Moved-in_flight rest after m.1, Moves-in_flight r s m.0)

-- The call inserts nothing beyond the cap: `Enqueue` itself, which knows no cap, is not used.
abbrev pub Under : ℕ → Call → Type 0
Under cap (enqueues id now request) = ⊥
Under cap (enqueues_capped c id now request) = c ≤ℤ pos cap
Under cap _ = Unit

same_length :
    (rows : Rows) (outcome : Result QueueError Rows)
    → ((next : Rows) → outcome ≡ ok next → length next ≡ length rows)
    → length (or_else rows outcome) ≡ length rows
same_length rows (ok next) h = h next refl
same_length rows (err e) h = refl

mark_terminal-length :
    (rows : Rows) (id owner : String) (status : GenStatus) (reason detail trace : String) (now : ℕ)
    → length (or_else rows (mark_terminal rows id owner status reason detail trace now))
      ≡ length rows
unfolding mark_terminal
mark_terminal-length rows id owner status reason detail trace now =
    if_cases (λ o. length (or_else rows o) ≡ length rows)
      (leb (count_where (is_owned id owner) rows) 0) (λ _. refl) (λ _. length-update_where _ _ rows)

claim_row-length :
    (rows : Rows) (owner : String) (now lease_ttl : ℕ) (found : Option Row)
    → length (claim_row rows owner now lease_ttl found).1 ≡ length rows
unfolding claim_row
claim_row-length rows owner now lease_ttl none = refl
claim_row-length rows owner now lease_ttl (some c) = length-update_where _ _ rows

in_flight-added :
    (rows : Rows) (id : String) (now : ℕ) (request : String)
    → in_flight_count (rows ++ (queued_row id now request ∷ [])) ≡ suc (in_flight_count rows)
unfolding in_flight_count count_where
in_flight-added [] id now request = refl
in_flight-added (r ∷ rest) id now request = ground (arith, in_flight-added rest id now request)

step-capped :
    (cap : ℕ) (rows : Rows) (c : Call)
    → Distinct rows
    → Under cap c
    → in_flight_count rows ≤ cap
    → in_flight_count (step rows c) ≤ cap
unfolding step enqueue_if_under_cap enqueue claim_next renew_lease mark_completed mark_failed
    recover_expired_leases
step-capped cap rows (enqueues id now request) d u h = absurd u
step-capped cap rows (enqueues_capped c id now request) d u h =
    if_cases (λ o. in_flight_count (or_else rows o) ≤ cap) (not (int_lt (pos 0) c)) (λ _. h)
      (λ _.
        if_cases (λ o. in_flight_count (or_else rows o) ≤ cap)
          (not (int_lt (pos (in_flight_count rows)) c)) (λ _. h)
          (λ e.
            if_cases (λ o. in_flight_count (or_else rows o) ≤ cap) (any (λ r. str_eq r.id id) rows)
              (λ _. h)
              (λ _. ground (
                arith,
                in_flight-added rows id now request,
                int_lt_iff (pos (in_flight_count rows)) c,
              ))))
step-capped cap rows (claims locked owner now lease_ttl) d u h = omega (
  arith,
  Moved-in_flight rows _ (step-Moved rows (claims locked owner now lease_ttl) d),
  claim_row-length rows owner now lease_ttl (oldest_queued locked rows),
)
step-capped cap rows (renews id owner now lease_ttl) d u h = omega (
  arith,
  Moved-in_flight rows _ (step-Moved rows (renews id owner now lease_ttl) d),
  length-update_where (is_owned id owner)
      (λ r. record r { lease_expires_at = some (now + lease_ttl) }) rows,
)
step-capped cap rows (completes id owner now) d u h = omega (
  arith,
  Moved-in_flight rows _ (step-Moved rows (completes id owner now) d),
  mark_terminal-length rows id owner GenStatus.completed "" "" "" now,
)
step-capped cap rows (saves id owner now) d u h = omega (
  arith,
  Moved-in_flight rows _ (step-Moved rows (saves id owner now) d),
  length-update_where (is_owned id owner) (completed_row now) rows,
)
step-capped cap rows (fails id owner reason detail trace now) d u h = omega (
  arith,
  Moved-in_flight rows _ (step-Moved rows (fails id owner reason detail trace now) d),
  mark_terminal-length rows id owner GenStatus.failed reason detail trace now,
)
step-capped cap rows (recovers now max_attempts) d u h = omega (
  arith,
  Moved-in_flight rows _ (step-Moved rows (recovers now max_attempts) d),
  length-update_where (is_expired now) (expired_row now)
      (update_where (has_budget now max_attempts) requeued_row rows),
  length-update_where (has_budget now max_attempts) requeued_row rows,
)

run-capped :
    (cap : ℕ) (rows : Rows) (cs : List Call)
    → Distinct rows
    → All (Under cap) cs
    → in_flight_count rows ≤ cap
    → in_flight_count (run rows cs) ≤ cap
unfolding run
run-capped cap rows [] d u h = h
run-capped cap rows (c ∷ cs) d u h =
    run-capped cap (step rows c) cs (step-Distinct rows c d) u.1 (step-capped cap rows c d u.0 h)

-- After any history of calls on an empty table in which every insert goes through `EnqueueIfUnderCap`
-- with a cap of at most `cap`, no more than `cap` generations are queued or running.
pub run-Capped : (cap : ℕ) (cs : List Call) → All (Under cap) cs → in_flight_count (run [] cs) ≤ cap
unfolding in_flight_count count_where Distinct
run-Capped cap cs u = run-capped cap [] cs tt u (omega arith)

-- A row that passes the test is counted.
counted :
    (test : Row → Bool) (rows : Rows) (i : ℕ) {r : Row}
    → get_elem? rows i ≡ some r
    → test r ≡ true
    → leb (count_where test rows) 0 ≡ false
unfolding count_where
counted test [] i e t = cc
counted test (x ∷ rest) zero e t = ground arith
counted test (x ∷ rest) (suc i) e t = ground (arith, counted test rest i e t)

-- The owner of the lease on a running generation can end it: `markTerminal` then returns no error and the row at
-- that place has the new status, its end and its reason, and no lease.
pub mark_terminal-ends :
    (rows : Rows) (id owner : String) (status : GenStatus) (reason detail trace : String)
    (now i : ℕ) {r : Row}
    → get_elem? rows i ≡ some r
    → is_owned id owner r ≡ true
    → (next : Rows) × (mark_terminal rows id owner status reason detail trace now ≡ ok next)
      × (get_elem? next i ≡ some (terminal_row status reason detail trace now r))
unfolding mark_terminal
mark_terminal-ends rows id owner status reason detail trace now i e own = (
  update_where (is_owned id owner) (terminal_row status reason detail trace now) rows,
  rw (counted (is_owned id owner) rows i e own) refl,
  get_elem?-update_where (is_owned id owner) (terminal_row status reason detail trace now) rows i e
      ∙ ap some (rw own refl),
)
