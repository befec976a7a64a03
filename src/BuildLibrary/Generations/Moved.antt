-- ===== src/BuildLibrary/Generations/Moved.antt =====
-- internal/buildlibrary/generations.go: each call moves the rows of the table, and only adds queued ones.
use ro_builder.Prelude.{
  ℕ, zero, suc, ◌+◌, Bool, not, true, [], ◌∷◌, ◌++◌, Option, none, some, String, str_eq, eq_iff,
  any, leb, All, get_elem?, if_cases, if◌then◌else◌, ◌≡◌, refl, arith, ap,
}
use ro_builder.Prelude.Int.{ℤ, pos, int_lt}
use ro_builder.BuildLibrary.Rows.{
  GenStatus, running, completed, failed, Row, Rows, is_running, column_eq, update_where, Distinct,
  count_where,
}
use ro_builder.BuildLibrary.Generations.{
  completed_row, queued_row, enqueue, in_flight_count, enqueue_if_under_cap, oldest_queued,
  claim_row, claim_next, claimed_row, is_owned, renew_lease, terminal_row, mark_terminal,
  mark_completed, mark_failed, is_expired, has_budget, requeued_row, expired_row,
  recover_expired_leases, has_id,
}
use ro_builder.BuildLibrary.Generations.Claims.{
  Picked, oldest_queued-Picked, Distinct-same, is_queued_eq,
}
use ro_builder.BuildLibrary.Generations.Steps.{
  Call, enqueues, enqueues_capped, claims, renews, completes, saves, fails, recovers, or_else, step,
  Moves, kept, claimed, renewed, completed_by, saved_by, failed_by, requeued, expired,
}

-- A row that the table gains.
pub record Fresh (r : Row) : Type 0 where
  pub id : String
  pub now : ℕ
  pub request : String
  pub made : r ≡ queued_row id now request

-- The rows of one table moved to the next, in their places, and what the next has behind them.
unfoldable pub Moved : Rows → Rows → Type 0
Moved [] after = All Fresh after
Moved (r ∷ rest) [] = ⊥
Moved (r ∷ rest) (s ∷ after) = Moves r s × Moved rest after

pub Moved-refl : (rows : Rows) → Moved rows rows
unfolding Moved
Moved-refl [] = tt
Moved-refl (r ∷ rest) = (kept, Moved-refl rest)

pub Moved-added :
    (rows : Rows) (id : String) (now : ℕ) (request : String)
    → Moved rows (rows ++ (queued_row id now request ∷ []))
unfolding Moved
Moved-added [] id now request = (record { id = id; now = now; request = request; made = refl }, tt)
Moved-added (r ∷ rest) id now request = (kept, Moved-added rest id now request)

abbrev pub changed : (Row → Bool) → (Row → Row) → Row → Row
changed test change r = if test r then change r else r

pub update_where-cons :
    (test : Row → Bool) (change : Row → Row) (r : Row) (rest : Rows)
    → update_where test change (r ∷ rest) ≡ changed test change r ∷ update_where test change rest
unfolding update_where
update_where-cons test change r rest = ground arith

Moved-updated :
    (test : Row → Bool) (change : Row → Row) (rows : Rows)
    → All (λ r. test r ≡ true → Moves r (change r)) rows
    → Moved rows (update_where test change rows)
unfolding Moved update_where
Moved-updated test change [] h = tt
Moved-updated test change (r ∷ rest) h =
    if_cases (λ next. Moved (r ∷ rest) next) (test r)
      (λ e. (h.0 e, Moved-updated test change rest h.1))
      (λ e. (kept, Moved-updated test change rest h.1))

-- Two UPDATEs in one transaction.
Moved-updated_twice :
    (t u : Row → Bool) (c d : Row → Row) (rows : Rows)
    → ((r : Row) → Moves r (changed u d (changed t c r)))
    → Moved rows (update_where u d (update_where t c rows))
unfolding Moved update_where
Moved-updated_twice t u c d [] h = tt
Moved-updated_twice t u c d (r ∷ rest) h = rw (update_where-cons t c r rest) (
    rw (update_where-cons u d (changed t c r) (update_where t c rest))
      (h r, Moved-updated_twice t u c d rest h))

All-of {ℓ} : (P : Row → Type ℓ) → ((r : Row) → P r) → (rows : Rows) → All P rows
All-of P h [] = tt
All-of P h (r ∷ rest) = (h r, All-of P h rest)

All-at :
    (P : Row → Type 0) (rows : Rows)
    → ((i : ℕ) (r : Row) → get_elem? rows i ≡ some r → P r)
    → All P rows
All-at P [] h = tt
All-at P (r ∷ rest) h = (h zero r refl, All-at P rest (λ i. h (suc i)))

is_running_eq : (s : GenStatus) → is_running s ≡ true → s ≡ running
is_running_eq GenStatus.queued e = cc
is_running_eq GenStatus.running e = refl
is_running_eq GenStatus.completed e = cc
is_running_eq GenStatus.failed e = cc

column_eq-some : (o : Option String) (value : String) → column_eq o value ≡ true → o ≡ some value
column_eq-some none value e = cc
column_eq-some (some stored) value e = ap some ((eq_iff stored value).0 e)

pub record Owned (id owner : String) (r : Row) : Type 0 where
  pub same : r.id ≡ id
  pub live : r.status ≡ running
  pub held : r.lease_owner ≡ some owner

-- `WHERE id=… AND status='running' AND lease_owner=…`
pub is_owned-Owned : (id owner : String) (r : Row) → is_owned id owner r ≡ true → Owned id owner r
is_owned-Owned id owner r e = record {
  same = ground (arith, eq_iff r.id id);
  live = ground (arith, is_running_eq r.status);
  held = ground (arith, column_eq-some r.lease_owner owner);
}

enqueue-Moved :
    (rows : Rows) (id : String) (now : ℕ) (request : String)
    → Moved rows (or_else rows (enqueue rows id now request))
unfolding enqueue
enqueue-Moved rows id now request =
    if_cases (λ o. Moved rows (or_else rows o)) (any (λ r. str_eq r.id id) rows)
      (λ _. Moved-refl rows) (λ _. Moved-added rows id now request)

claim_row-Moved :
    (locked : String → Bool) (rows : Rows) (owner : String) (now lease_ttl : ℕ) (found : Option Row)
    → Distinct rows
    → Picked locked rows found
    → Moved rows (claim_row rows owner now lease_ttl found).1
unfolding claim_row
claim_row-Moved locked rows owner now lease_ttl none d h = Moved-refl rows
claim_row-Moved locked rows owner now lease_ttl (some c) d h =
    Moved-updated (has_id c.id) (claimed_row owner now lease_ttl) rows (
      All-at _ rows λ i r e same. claimed owner now lease_ttl (
        is_queued_eq r.status (
          rw (Distinct-same rows i h.1.0 d e h.1.1 ((eq_iff r.id c.id).0 same))
            (ground (arith, h.0)))))

mark_terminal-Moved :
    (rows : Rows) (id owner : String) (status : GenStatus) (reason detail trace : String) (now : ℕ)
    → ((r : Row) → Owned id owner r → Moves r (terminal_row status reason detail trace now r))
    → Moved rows (or_else rows (mark_terminal rows id owner status reason detail trace now))
unfolding mark_terminal
mark_terminal-Moved rows id owner status reason detail trace now h =
    if_cases (λ o. Moved rows (or_else rows o)) (leb (count_where (is_owned id owner) rows) 0)
      (λ _. Moved-refl rows)
      (λ _.
        Moved-updated (is_owned id owner) (terminal_row status reason detail trace now) rows
          (All-of _ (λ r e. h r (is_owned-Owned id owner r e)) rows))

-- One row under the two UPDATEs of `RecoverExpiredLeases`.
recover-Moves :
    (now : ℕ) (max_attempts : ℤ) (r : Row)
    → Moves r (
        changed
          (is_expired now)
          (expired_row now)
          (changed (has_budget now max_attempts) requeued_row r))
recover-Moves now max_attempts r =
    if_cases (λ s. Moves r (changed (is_expired now) (expired_row now) s))
      (has_budget now max_attempts r) (λ e. requeued (is_running_eq r.status (ground arith)))
      (λ _.
        if_cases (λ s. Moves r s) (is_expired now r)
          (λ e. expired now (is_running_eq r.status (ground arith))) (λ _. kept))

-- Each call takes every row of the table one move on, in its place, and any row it adds is a new
-- queued one.
pub step-Moved : (rows : Rows) (c : Call) → Distinct rows → Moved rows (step rows c)
unfolding step enqueue_if_under_cap claim_next renew_lease mark_completed mark_failed
    recover_expired_leases
step-Moved rows (enqueues id now request) d = enqueue-Moved rows id now request
step-Moved rows (enqueues_capped cap id now request) d =
    if_cases (λ o. Moved rows (or_else rows o)) (not (int_lt (pos 0) cap)) (λ _. Moved-refl rows)
      (λ _.
        if_cases (λ o. Moved rows (or_else rows o)) (not (int_lt (pos (in_flight_count rows)) cap))
          (λ _. Moved-refl rows) (λ _. enqueue-Moved rows id now request))
step-Moved rows (claims locked owner now lease_ttl) d =
    claim_row-Moved locked rows owner now lease_ttl (oldest_queued locked rows) d
      (oldest_queued-Picked locked rows)
step-Moved rows (renews id owner now lease_ttl) d =
    Moved-updated (is_owned id owner) _ rows
      (All-of _ (λ r e. renewed (now + lease_ttl) (is_owned-Owned id owner r e).live) rows)
step-Moved rows (completes id owner now) d =
    mark_terminal-Moved rows id owner completed "" "" "" now
      (λ r o. completed_by owner now o.live o.held)
step-Moved rows (saves id owner now) d =
    Moved-updated (is_owned id owner) (completed_row now) rows (
      All-of _ (λ r e. let o = is_owned-Owned id owner r e in saved_by owner now o.live o.held)
        rows)
step-Moved rows (fails id owner reason detail trace now) d =
    mark_terminal-Moved rows id owner failed reason detail trace now
      (λ r o. failed_by owner reason detail trace now o.live o.held)
step-Moved rows (recovers now max_attempts) d =
    Moved-updated_twice (has_budget now max_attempts) (is_expired now) requeued_row
      (expired_row now) rows (recover-Moves now max_attempts)
