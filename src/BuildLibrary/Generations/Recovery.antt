-- ===== src/BuildLibrary/Generations/Recovery.antt =====
-- internal/buildlibrary/generations.go: what `RecoverExpiredLeases` does to each row, and the bound
-- on attempts that its retry budget gives.
use ro_builder.Prelude.{
  ℕ, zero, suc, ◌+◌, ◌≤◌, Bool, true, not, List, [], ◌∷◌, ◌++◌, Option, none, some, String, str_eq,
  eq_iff, any, leb, All, get_elem?, if_cases, if◌then◌else◌, ◌≡◌, refl, arith,
}
use ro_builder.Prelude.Int.{ℤ, pos, ◌≤ℤ◌, int_lt, int_lt_iff}
use ro_builder.BuildLibrary.Rows.{GenStatus, queued, Row, Rows, update_where, count_where, Distinct}
use ro_builder.BuildLibrary.Generations.{
  completed_row, queued_row, enqueue, in_flight_count, enqueue_if_under_cap, oldest_queued,
  claim_row, claim_next, claimed_row, has_id, is_owned, renew_lease, mark_terminal, mark_completed,
  mark_failed, recover_expired_leases, is_expired, expired_row, has_budget, requeued_row,
}
use ro_builder.BuildLibrary.Generations.Claims.{
  Picked, oldest_queued-Picked, Distinct-same, is_queued_eq,
}
use ro_builder.BuildLibrary.Generations.Steps.{
  Call, enqueues, enqueues_capped, claims, renews, completes, saves, fails, recovers, or_else, step,
  run,
}
use ro_builder.BuildLibrary.Generations.Histories.{step-Distinct}

-- What becomes of one row.
unfoldable pub recovered_row : ℕ → ℤ → Row → Row
recovered_row now max_attempts r =
    if has_budget now max_attempts r
    then requeued_row r
    else if is_expired now r
    then expired_row now r
    else r

pub record Recovers (rows : Rows) (now : ℕ) (max_attempts : ℤ) : Type 0 where
  pub each :
      (i : ℕ) (r : Row)
      → get_elem? rows i ≡ some r
      → get_elem? (recover_expired_leases rows now max_attempts).rows i
        ≡ some (recovered_row now max_attempts r)
  pub counted :
      (recover_expired_leases rows now max_attempts).requeued
        + (recover_expired_leases rows now max_attempts).failed
      ≡ count_where (is_expired now) rows

-- No row has more than `limit` attempts, and a queued one has an attempt left.
abbrev pub Budgeted : ℕ → Row → Type 0
Budgeted limit r = (r.attempts ≤ limit) × (r.status ≡ queued → suc r.attempts ≤ limit)

-- Retries are asked for within the limit.
abbrev pub Retries : ℕ → Call → Type 0
Retries limit (recovers now max_attempts) = max_attempts ≤ℤ pos limit
Retries limit _ = Unit

Budgeted-updated :
    (limit : ℕ) (test : Row → Bool) (change : Row → Row) (rows : Rows)
    → ((i : ℕ) (r : Row)
        → get_elem? rows i ≡ some r
        → test r ≡ true
        → Budgeted limit r
        → Budgeted limit (change r))
    → All (Budgeted limit) rows
    → All (Budgeted limit) (update_where test change rows)
unfolding update_where
Budgeted-updated limit test change [] f h = tt
Budgeted-updated limit test change (r ∷ rest) f h =
    if_cases (λ next. All (Budgeted limit) next) (test r)
      (λ e. (f zero r refl e h.0, Budgeted-updated limit test change rest (λ i. f (suc i)) h.1))
      (λ _. (h.0, Budgeted-updated limit test change rest (λ i. f (suc i)) h.1))

Budgeted-added :
    (limit : ℕ) (rows : Rows) (id : String) (now : ℕ) (request : String)
    → 1 ≤ limit
    → All (Budgeted limit) rows
    → All (Budgeted limit) (rows ++ (queued_row id now request ∷ []))
Budgeted-added limit [] id now request l h = ((omega arith, λ _. l), tt)
Budgeted-added limit (r ∷ rest) id now request l h =
    (h.0, Budgeted-added limit rest id now request l h.1)

enqueue-Budgeted :
    (limit : ℕ) (rows : Rows) (id : String) (now : ℕ) (request : String)
    → 1 ≤ limit
    → All (Budgeted limit) rows
    → All (Budgeted limit) (or_else rows (enqueue rows id now request))
unfolding enqueue
enqueue-Budgeted limit rows id now request l h =
    if_cases (λ o. All (Budgeted limit) (or_else rows o)) (any (λ r. str_eq r.id id) rows) (λ _. h)
      (λ _. Budgeted-added limit rows id now request l h)

mark_terminal-Budgeted :
    (limit : ℕ) (rows : Rows) (id owner : String) (status : GenStatus)
    (reason detail trace : String) (now : ℕ)
    → (status ≡ queued → ⊥)
    → All (Budgeted limit) rows
    → All
        (Budgeted limit)
        (or_else rows (mark_terminal rows id owner status reason detail trace now))
unfolding mark_terminal
mark_terminal-Budgeted limit rows id owner status reason detail trace now ne h =
    if_cases (λ o. All (Budgeted limit) (or_else rows o))
      (leb (count_where (is_owned id owner) rows) 0) (λ _. h)
      (λ _. Budgeted-updated limit _ _ rows (λ i r e t b. (b.0, λ q. absurd (ne q))) h)

claim_row-Budgeted :
    (limit : ℕ) (locked : String → Bool) (rows : Rows) (owner : String) (now lease_ttl : ℕ)
    (found : Option Row)
    → Distinct rows
    → Picked locked rows found
    → All (Budgeted limit) rows
    → All (Budgeted limit) (claim_row rows owner now lease_ttl found).1
unfolding claim_row
claim_row-Budgeted limit locked rows owner now lease_ttl none d p h = h
claim_row-Budgeted limit locked rows owner now lease_ttl (some c) d p h =
    Budgeted-updated limit (has_id c.id) (claimed_row owner now lease_ttl) rows
      (λ i r e t b. (
        b.1 (
            is_queued_eq r.status (
              rw (Distinct-same rows i p.1.0 d e p.1.1 ((eq_iff r.id c.id).0 t))
                (ground (arith, p.0)))),
        λ q. cc,
      ))
      h

step-Budgeted :
    (limit : ℕ) (rows : Rows) (c : Call)
    → 1 ≤ limit
    → Distinct rows
    → Retries limit c
    → All (Budgeted limit) rows
    → All (Budgeted limit) (step rows c)
unfolding step enqueue_if_under_cap claim_next renew_lease mark_completed mark_failed
    recover_expired_leases
step-Budgeted limit rows (enqueues id now request) l d u h =
    enqueue-Budgeted limit rows id now request l h
step-Budgeted limit rows (enqueues_capped cap id now request) l d u h =
    if_cases (λ o. All (Budgeted limit) (or_else rows o)) (not (int_lt (pos 0) cap)) (λ _. h)
      (λ _.
        if_cases (λ o. All (Budgeted limit) (or_else rows o))
          (not (int_lt (pos (in_flight_count rows)) cap)) (λ _. h)
          (λ _. enqueue-Budgeted limit rows id now request l h))
step-Budgeted limit rows (claims locked owner now lease_ttl) l d u h =
    claim_row-Budgeted limit locked rows owner now lease_ttl (oldest_queued locked rows) d
      (oldest_queued-Picked locked rows) h
step-Budgeted limit rows (renews id owner now lease_ttl) l d u h =
    Budgeted-updated limit _ _ rows (λ i r e t b. b) h
step-Budgeted limit rows (completes id owner now) l d u h =
    mark_terminal-Budgeted limit rows id owner GenStatus.completed "" "" "" now (λ bad. cc) h
step-Budgeted limit rows (saves id owner now) l d u h =
    Budgeted-updated limit (is_owned id owner) (completed_row now) rows
      (λ i r e t b. (b.0, λ q. cc)) h
step-Budgeted limit rows (fails id owner reason detail trace now) l d u h =
    mark_terminal-Budgeted limit rows id owner GenStatus.failed reason detail trace now (λ bad. cc)
      h
step-Budgeted limit rows (recovers now max_attempts) l d u h =
    Budgeted-updated limit (is_expired now) (expired_row now) _ (λ i r e t b. (b.0, λ q. cc))
      (Budgeted-updated limit (has_budget now max_attempts) requeued_row rows
        (λ i r e t b. (b.0, λ _. ground (arith, int_lt_iff (pos r.attempts) max_attempts))) h)

keep-Budgeted :
    (limit : ℕ) (rows : Rows) (cs : List Call)
    → 1 ≤ limit
    → Distinct rows
    → All (Retries limit) cs
    → All (Budgeted limit) rows
    → All (Budgeted limit) (run rows cs)
unfolding run
keep-Budgeted limit rows [] l d u h = h
keep-Budgeted limit rows (c ∷ cs) l d u h =
    keep-Budgeted limit (step rows c) cs l (step-Distinct rows c d) u.1
      (step-Budgeted limit rows c l d u.0 h)

-- After any history of calls on an empty table in which `RecoverExpiredLeases` is given at most
-- `limit` attempts, which is at least 1, no generation has been attempted more than `limit` times, and each
-- queued one has an attempt left.
pub run-Budgeted :
    (limit : ℕ) (cs : List Call)
    → 1 ≤ limit
    → All (Retries limit) cs
    → All (Budgeted limit) (run [] cs)
unfolding Distinct
run-Budgeted limit cs l u = keep-Budgeted limit [] cs l tt u tt
