-- ===== src/BuildLibrary/Generations.antt =====
-- internal/buildlibrary/generations.go: the operations on the table `generations`. Each runs as
-- one transaction, so the table goes in and comes out whole; `now` is what `time.Now` gives, `id`
-- what `newID` gives, and `locked` says which rows another transaction holds. A call whose
-- statement the database cannot run changes nothing, and has no branch here.
pub mod Claims
pub mod Steps
pub mod Moved
pub mod Histories
pub mod Caps
pub mod Recovery
use ro_builder.Prelude.{
  ℕ, suc, ◌+◌, Bool, true, false, not, ◌&&◌, List, [], ◌∷◌, ◌++◌, Option, none, some, String,
  str_eq, any, ltb, leb, if◌then◌else◌, Result, ok, err,
}
use ro_builder.Prelude.Int.{ℤ, pos, int_lt}
use ro_builder.BuildLibrary.Rows.{
  GenStatus, queued, running, completed, failed, Row, Rows, is_queued, is_running, is_in_flight,
  column_eq, column_lt, update_where, count_where,
}

abbrev pub failure_lease_expired : String
failure_lease_expired = "lease_expired"

pub data QueueError : Type 0 where
  duplicate_id : String → QueueError
  bad_cap : QueueError
  queue_at_capacity : QueueError
  already_terminal : String → QueueError

abbrev has_id : String → Row → Bool
has_id id r = str_eq r.id id

-- What the INSERT of a queued row stores.
abbrev pub queued_row : String → ℕ → String → Row
queued_row id now request = record {
  id = id;
  status = queued;
  created_at = now;
  started_at = none;
  completed_at = none;
  request_json = request;
  attempts = 0;
  failure_reason = none;
  error_detail = none;
  trace_json = none;
  lease_expires_at = none;
  lease_owner = none;
}

-- `Enqueue`: the INSERT fails on an id that is taken.
unfoldable pub enqueue : Rows → String → ℕ → String → Result QueueError Rows
enqueue rows id now request =
    if any (λ r. str_eq r.id id) rows
    then err (duplicate_id id)
    else ok (rows ++ (queued_row id now request ∷ []))

-- `InFlightCount`
unfoldable pub in_flight_count : Rows → ℕ
unfolding count_where
in_flight_count rows = count_where (λ r. is_in_flight r.status) rows

-- `EnqueueIfUnderCap`
unfoldable pub enqueue_if_under_cap : Rows → ℤ → String → ℕ → String → Result QueueError Rows
unfolding enqueue in_flight_count
enqueue_if_under_cap rows max_in_flight id now request =
    if not (int_lt (pos 0) max_in_flight)
    then err bad_cap
    else if not (int_lt (pos (in_flight_count rows)) max_in_flight)
    then err queue_at_capacity
    else enqueue rows id now request

-- `GetGeneration`
unfoldable pub get_generation : Rows → String → Option Row
get_generation [] id = none
get_generation (r ∷ rest) id =
    let found = get_generation rest id in if str_eq r.id id then some r else found

abbrev earlier : Row → Option Row → Row
earlier r none = r
earlier r (some s) = if ltb s.created_at r.created_at then s else r

-- The inner SELECT of `ClaimNext`: the oldest queued row that no other transaction holds.
unfoldable pub oldest_queued : (String → Bool) → Rows → Option Row
oldest_queued locked [] = none
oldest_queued locked (r ∷ rest) =
    let found = oldest_queued locked rest in
    if is_queued r.status && not (locked r.id) then some (earlier r found) else found

-- The SET of `ClaimNext`.
abbrev pub claimed_row : String → ℕ → ℕ → Row → Row
claimed_row owner now lease_ttl r = record r {
  status = running;
  started_at = some now;
  attempts = suc r.attempts;
  lease_expires_at = some (now + lease_ttl);
  lease_owner = some owner;
}

unfoldable pub claim_row : Rows → String → ℕ → ℕ → Option Row → Option Row × Rows
unfolding update_where
claim_row rows owner now lease_ttl none = (none, rows)
claim_row rows owner now lease_ttl (some r) = (
  some (claimed_row owner now lease_ttl r),
  update_where (has_id r.id) (claimed_row owner now lease_ttl) rows,
)

-- `ClaimNext`
unfoldable pub claim_next : (String → Bool) → Rows → String → ℕ → ℕ → Option Row × Rows
unfolding oldest_queued claim_row
claim_next locked rows owner now lease_ttl =
    claim_row rows owner now lease_ttl (oldest_queued locked rows)

-- `WHERE id=… AND status='running' AND lease_owner=…`
abbrev pub is_owned : String → String → Row → Bool
is_owned id owner r = str_eq r.id id && is_running r.status && column_eq r.lease_owner owner

-- `RenewLease`
unfoldable pub renew_lease : Rows → String → String → ℕ → ℕ → Bool × Rows
unfolding count_where update_where
renew_lease rows id owner now lease_ttl = (
  leb 1 (count_where (is_owned id owner) rows) && leb (count_where (is_owned id owner) rows) 1,
  update_where (is_owned id owner) (λ r. record r { lease_expires_at = some (now + lease_ttl) })
      rows,
)

-- `sql.NullString` of a text that may be empty.
abbrev pub null_string : String → Option String
null_string s = if str_eq s "" then none else some s

-- The SET of `markTerminal`.
abbrev pub terminal_row : GenStatus → String → String → String → ℕ → Row → Row
terminal_row status reason detail trace now r = record r {
  status = status;
  completed_at = some now;
  failure_reason = null_string reason;
  error_detail = null_string detail;
  trace_json = null_string trace;
  lease_expires_at = none;
  lease_owner = none;
}

-- `markTerminal`
unfoldable pub mark_terminal :
    Rows → String → String → GenStatus → String → String → String → ℕ → Result QueueError Rows
unfolding count_where update_where
mark_terminal rows id owner status reason detail trace now =
    if leb (count_where (is_owned id owner) rows) 0
    then err (already_terminal id)
    else ok (update_where (is_owned id owner) (terminal_row status reason detail trace now) rows)

-- `MarkCompleted`
unfoldable pub mark_completed : Rows → String → String → ℕ → Result QueueError Rows
unfolding mark_terminal
mark_completed rows id owner now = mark_terminal rows id owner completed "" "" "" now

-- `MarkFailed`
unfoldable pub mark_failed :
    Rows → String → String → String → String → String → ℕ → Result QueueError Rows
unfolding mark_terminal
mark_failed rows id owner reason detail trace now =
    mark_terminal rows id owner failed reason detail trace now

-- The SET of `SaveAndComplete` (save.go), which leaves the reason and the trace as they are.
abbrev pub completed_row : ℕ → Row → Row
completed_row now r = record r {
  status = completed;
  completed_at = some now;
  lease_expires_at = none;
  lease_owner = none;
}

-- The two UPDATEs of `RecoverExpiredLeases`.
abbrev pub is_expired : ℕ → Row → Bool
is_expired now r = is_running r.status && column_lt r.lease_expires_at now

abbrev pub has_budget : ℕ → ℤ → Row → Bool
has_budget now max_attempts r =
    is_expired now r && int_lt (pos 0) max_attempts && int_lt (pos r.attempts) max_attempts

abbrev pub requeued_row : Row → Row
requeued_row r = record r { status = queued; lease_expires_at = none; lease_owner = none }

abbrev pub expired_row : ℕ → Row → Row
expired_row now r = record r {
  status = failed;
  completed_at = some now;
  failure_reason = some failure_lease_expired;
  error_detail = some "lease expired (worker died or stalled)";
  lease_expires_at = none;
  lease_owner = none;
}

pub record Recovered : Type 0 where
  pub requeued : ℕ
  pub failed : ℕ
  pub rows : Rows

-- `RecoverExpiredLeases`
unfoldable pub recover_expired_leases : Rows → ℕ → ℤ → Recovered
unfolding count_where update_where
recover_expired_leases rows now max_attempts =
    let requeued = update_where (has_budget now max_attempts) requeued_row rows in
    record {
      requeued = count_where (has_budget now max_attempts) rows;
      failed = count_where (is_expired now) requeued;
      rows = update_where (is_expired now) (expired_row now) requeued;
    }
