-- ===== src/BuildLibrary/Generations/Steps.antt =====
-- internal/buildlibrary/generations.go: a history of the table is a list of calls, each whole, in
-- the order in which the database commits them; the calls of all workers and pods are in it, and
-- so is what SaveAndComplete of save.go does to this table.
use mathlib.Core.Path.{subst}
use ro_builder.Prelude.{
  sym, ℕ, ◌≤◌, Bool, List, [], ◌∷◌, none, some, String, Result, ok, err, ◌≡◌, refl, arith,
}
use ro_builder.Prelude.Int.{ℤ}
use ro_builder.BuildLibrary.Rows.{
  GenStatus, queued, running, completed, failed, Row, Rows, update_where,
}
use ro_builder.BuildLibrary.Generations.{
  QueueError, enqueue, enqueue_if_under_cap, claim_next, claimed_row, renew_lease, terminal_row,
  mark_completed, mark_failed, is_owned, completed_row, requeued_row, expired_row,
  recover_expired_leases,
}

pub data Call : Type 0 where
  enqueues : (id : String) (now : ℕ) (request : String) → Call
  enqueues_capped : (cap : ℤ) (id : String) (now : ℕ) (request : String) → Call
  claims : (locked : String → Bool) (owner : String) (now lease_ttl : ℕ) → Call
  renews : (id owner : String) (now lease_ttl : ℕ) → Call
  completes : (id owner : String) (now : ℕ) → Call
  saves : (id owner : String) (now : ℕ) → Call
  fails : (id owner reason detail trace : String) (now : ℕ) → Call
  recovers : (now : ℕ) (max_attempts : ℤ) → Call

-- A call that returns an error leaves the table as it was.
abbrev pub or_else : Rows → Result QueueError Rows → Rows
or_else rows (ok rows') = rows'
or_else rows (err e) = rows

unfoldable pub step : Rows → Call → Rows
unfolding enqueue enqueue_if_under_cap claim_next renew_lease mark_completed mark_failed
    recover_expired_leases update_where
step rows (enqueues id now request) = or_else rows (enqueue rows id now request)
step rows (enqueues_capped cap id now request) =
    or_else rows (enqueue_if_under_cap rows cap id now request)
step rows (claims locked owner now lease_ttl) = (claim_next locked rows owner now lease_ttl).1
step rows (renews id owner now lease_ttl) = (renew_lease rows id owner now lease_ttl).1
step rows (completes id owner now) = or_else rows (mark_completed rows id owner now)
step rows (saves id owner now) = update_where (is_owned id owner) (completed_row now) rows
step rows (fails id owner reason detail trace now) =
    or_else rows (mark_failed rows id owner reason detail trace now)
step rows (recovers now max_attempts) = (recover_expired_leases rows now max_attempts).rows

unfoldable pub run : Rows → List Call → Rows
unfolding step
run rows [] = rows
run rows (c ∷ cs) = run (step rows c) cs

-- What one call may do to a row: the state machine of a generation.
pub data Moves (r : Row) : Row → Type 0 where
  kept : Moves r r
  claimed :
      (owner : String) (now lease_ttl : ℕ)
      → r.status ≡ queued
      → Moves r (claimed_row owner now lease_ttl r)
  renewed :
      (expiry : ℕ) → r.status ≡ running → Moves r (record r { lease_expires_at = some expiry })
  completed_by :
      (owner : String) (now : ℕ)
      → r.status ≡ running
      → r.lease_owner ≡ some owner
      → Moves r (terminal_row completed "" "" "" now r)
  saved_by :
      (owner : String) (now : ℕ)
      → r.status ≡ running
      → r.lease_owner ≡ some owner
      → Moves r (completed_row now r)
  failed_by :
      (owner reason detail trace : String) (now : ℕ)
      → r.status ≡ running
      → r.lease_owner ≡ some owner
      → Moves r (terminal_row failed reason detail trace now r)
  requeued : r.status ≡ running → Moves r (requeued_row r)
  expired : (now : ℕ) → r.status ≡ running → Moves r (expired_row now r)

-- The columns that each status goes with: the lease of a running row, the end of a finished one.
pub record NoLease (r : Row) : Type 0 where
  pub owner : r.lease_owner ≡ none
  pub expiry : r.lease_expires_at ≡ none

pub record Leased (r : Row) : Type 0 where
  pub owner : (o : String) × (r.lease_owner ≡ some o)
  pub expiry : (t : ℕ) × (r.lease_expires_at ≡ some t)
  pub started : (t : ℕ) × (r.started_at ≡ some t)
  pub attempted : 1 ≤ r.attempts

pub record Unfinished (r : Row) : Type 0 where
  pub no_end : r.completed_at ≡ none
  pub no_reason : r.failure_reason ≡ none

abbrev pub Shape : GenStatus → Row → Type 0
Shape queued r = NoLease r × Unfinished r
Shape running r = Leased r × Unfinished r
Shape completed r = NoLease r × ((t : ℕ) × (r.completed_at ≡ some t)) × (r.failure_reason ≡ none)
Shape failed r = NoLease r × ((t : ℕ) × (r.completed_at ≡ some t))

abbrev pub IsValid : Row → Type 0
IsValid r = Shape r.status r

Shape-of : (r : Row) (s : GenStatus) → r.status ≡ s → IsValid r → Shape s r
Shape-of r s e h = subst (λ u. Shape u r) e h

-- Each move keeps a row's columns in step with its status.
pub Moves-IsValid : (r s : Row) → Moves r s → IsValid r → IsValid s
Moves-IsValid r _ kept v = v
Moves-IsValid r _ (claimed owner now lease_ttl e) v =
    let u = (Shape-of r queued e v).1 in
    (
      record {
        owner = (owner, refl);
        expiry = (_, refl);
        started = (now, refl);
        attempted = omega arith;
      },
      record { no_end = u.no_end; no_reason = u.no_reason },
    )
Moves-IsValid r _ (renewed expiry e) v =
    let u = Shape-of r running e v in
    subst (λ t. Shape t (record r { lease_expires_at = some expiry })) (sym e)
      (
        record {
          owner = u.0.owner;
          expiry = (expiry, refl);
          started = u.0.started;
          attempted = u.0.attempted;
        },
        record { no_end = u.1.no_end; no_reason = u.1.no_reason },
      )
Moves-IsValid r _ (completed_by owner now e o) v =
    (record { owner = refl; expiry = refl }, (now, refl), refl)
Moves-IsValid r _ (saved_by owner now e o) v =
    (record { owner = refl; expiry = refl }, (now, refl), (Shape-of r running e v).1.no_reason)
Moves-IsValid r _ (failed_by owner reason detail trace now e o) v =
    (record { owner = refl; expiry = refl }, (now, refl))
Moves-IsValid r _ (requeued e) v =
    let u = (Shape-of r running e v).1 in
    (record { owner = refl; expiry = refl }, record { no_end = u.no_end; no_reason = u.no_reason })
Moves-IsValid r _ (expired now e) v = (record { owner = refl; expiry = refl }, (now, refl))
