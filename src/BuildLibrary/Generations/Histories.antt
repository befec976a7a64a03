-- ===== src/BuildLibrary/Generations/Histories.antt =====
-- internal/buildlibrary/generations.go: what holds of the table after any history of calls.
use mathlib.Core.Path.{subst}
use mathlib.Core.Option.{some-injective}
use ro_builder.Prelude.{
  ℕ, zero, suc, Bool, true, false, not, List, [], ◌∷◌, ◌++◌, Option, none, some, String, str_eq,
  eq_iff, any, leb, All, get_elem?, if_cases, ◌≡◌, ◌≢◌, refl, sym, ◌∙◌, ap, arith,
}
use ro_builder.Prelude.Int.{pos, int_lt}
use ro_builder.BuildLibrary.Rows.{
  GenStatus, completed, failed, Row, Rows, update_where, count_where, Distinct,
}
use ro_builder.BuildLibrary.Generations.{
  queued_row, enqueue, in_flight_count, enqueue_if_under_cap, oldest_queued, claim_row, claim_next,
  is_owned, renew_lease, terminal_row, mark_terminal, mark_completed, mark_failed,
  recover_expired_leases,
}
use ro_builder.BuildLibrary.Generations.Steps.{
  Call, enqueues, enqueues_capped, claims, renews, completes, saves, fails, recovers, or_else, step,
  run, Moves, kept, claimed, renewed, completed_by, saved_by, failed_by, requeued, expired, IsValid,
  Moves-IsValid,
}
use ro_builder.BuildLibrary.Generations.Moved.{Moved, Fresh, step-Moved}

abbrev Other : String → Row → Type 0
Other id s = s.id ≢ id

Other-updated :
    (id : String) (test : Row → Bool) (change : Row → Row)
    → ((r : Row) → (change r).id ≡ r.id)
    → (rows : Rows) → All (Other id) rows
    → All (Other id) (update_where test change rows)
unfolding update_where
Other-updated id test change same [] h = tt
Other-updated id test change same (r ∷ rest) h =
    if_cases (λ next. All (Other id) next) (test r)
      (λ _. ((λ e. h.0 (sym (same r) ∙ e)), Other-updated id test change same rest h.1))
      (λ _. (h.0, Other-updated id test change same rest h.1))

Distinct-updated :
    (test : Row → Bool) (change : Row → Row)
    → ((r : Row) → (change r).id ≡ r.id)
    → (rows : Rows) → Distinct rows
    → Distinct (update_where test change rows)
unfolding update_where Distinct
Distinct-updated test change same [] h = tt
Distinct-updated test change same (r ∷ rest) h =
    if_cases (λ next. Distinct next) (test r)
      (λ _. (
        rw (same r) (Other-updated r.id test change same rest h.0),
        Distinct-updated test change same rest h.1,
      ))
      (λ _.
        (Other-updated r.id test change same rest h.0, Distinct-updated test change same rest h.1))

Distinct-added :
    (q : Row) (rows : Rows)
    → any (λ r. str_eq r.id q.id) rows ≡ false
    → Distinct rows
    → Distinct (rows ++ (q ∷ []))
unfolding Distinct
Distinct-added q [] e h = (tt, tt)
Distinct-added q (r ∷ rest) e h = (
  apart r q rest (ground (arith, eq_iff r.id q.id)) h.0,
  Distinct-added q rest (ground arith) h.1,
)
  where
    apart :
        (r q : Row) (rest : Rows)
        → q.id ≢ r.id
        → All (λ s. s.id ≢ r.id) rest
        → All (λ s. s.id ≢ r.id) (rest ++ (q ∷ []))
    apart r q [] ne h = (ne, tt)
    apart r q (x ∷ rest) ne h = (h.0, apart r q rest ne h.1)

enqueue-Distinct :
    (rows : Rows) (id : String) (now : ℕ) (request : String)
    → Distinct rows
    → Distinct (or_else rows (enqueue rows id now request))
unfolding enqueue
enqueue-Distinct rows id now request d =
    if_cases (λ o. Distinct (or_else rows o)) (any (λ r. str_eq r.id id) rows) (λ _. d)
      (λ e. Distinct-added (queued_row id now request) rows e d)

mark_terminal-Distinct :
    (rows : Rows) (id owner : String) (status : GenStatus) (reason detail trace : String) (now : ℕ)
    → Distinct rows
    → Distinct (or_else rows (mark_terminal rows id owner status reason detail trace now))
unfolding mark_terminal
mark_terminal-Distinct rows id owner status reason detail trace now d =
    if_cases (λ o. Distinct (or_else rows o)) (leb (count_where (is_owned id owner) rows) 0)
      (λ _. d)
      (λ _.
        Distinct-updated (is_owned id owner) (terminal_row status reason detail trace now)
          (λ r. refl) rows d)

claim_row-Distinct :
    (rows : Rows) (owner : String) (now lease_ttl : ℕ) (found : Option Row)
    → Distinct rows
    → Distinct (claim_row rows owner now lease_ttl found).1
unfolding claim_row
claim_row-Distinct rows owner now lease_ttl none d = d
claim_row-Distinct rows owner now lease_ttl (some c) d = Distinct-updated _ _ (λ r. refl) rows d

pub step-Distinct : (rows : Rows) (c : Call) → Distinct rows → Distinct (step rows c)
unfolding step enqueue_if_under_cap claim_next renew_lease mark_completed mark_failed
    recover_expired_leases
step-Distinct rows (enqueues id now request) d = enqueue-Distinct rows id now request d
step-Distinct rows (enqueues_capped cap id now request) d =
    if_cases (λ o. Distinct (or_else rows o)) (not (int_lt (pos 0) cap)) (λ _. d)
      (λ _.
        if_cases (λ o. Distinct (or_else rows o)) (not (int_lt (pos (in_flight_count rows)) cap))
          (λ _. d) (λ _. enqueue-Distinct rows id now request d))
step-Distinct rows (claims locked owner now lease_ttl) d =
    claim_row-Distinct rows owner now lease_ttl (oldest_queued locked rows) d
step-Distinct rows (renews id owner now lease_ttl) d = Distinct-updated _ _ (λ r. refl) rows d
step-Distinct rows (completes id owner now) d =
    mark_terminal-Distinct rows id owner completed "" "" "" now d
step-Distinct rows (saves id owner now) d = Distinct-updated _ _ (λ r. refl) rows d
step-Distinct rows (fails id owner reason detail trace now) d =
    mark_terminal-Distinct rows id owner failed reason detail trace now d
step-Distinct rows (recovers now max_attempts) d =
    Distinct-updated _ _ (λ r. refl) _ (Distinct-updated _ _ (λ r. refl) rows d)

Fresh-IsValid : (r : Row) → Fresh r → IsValid r
Fresh-IsValid r f =
    subst IsValid (sym f.made)
      (record { owner = refl; expiry = refl }, record { no_end = refl; no_reason = refl })

All-Fresh : (rows : Rows) → All Fresh rows → All IsValid rows
All-Fresh [] h = tt
All-Fresh (r ∷ rest) h = (Fresh-IsValid r h.0, All-Fresh rest h.1)

Moved-IsValid : (rows after : Rows) → Moved rows after → All IsValid rows → All IsValid after
unfolding Moved
Moved-IsValid [] after m v = All-Fresh after m
Moved-IsValid (r ∷ rest) [] m v = absurd m
Moved-IsValid (r ∷ rest) (s ∷ after) m v =
    (Moves-IsValid r s m.0 v.0, Moved-IsValid rest after m.1 v.1)

Moved-at :
    (rows after : Rows) (i : ℕ) {r : Row}
    → Moved rows after
    → get_elem? rows i ≡ some r
    → (s : Row) × (get_elem? after i ≡ some s) × Moves r s
unfolding Moved
Moved-at [] after i m e = cc
Moved-at (r ∷ rest) [] i m e = absurd m
Moved-at (r ∷ rest) (s ∷ after) zero m e =
    (s, refl, subst (λ x. Moves x s) (some-injective r _ e) m.0)
Moved-at (r ∷ rest) (s ∷ after) (suc i) m e = Moved-at rest after i m.1 e

-- A call takes the generation at a place of the table by one move of its state machine: it stays,
-- it is claimed when queued, or it is renewed, ended by the owner of its lease, put back or expired when running.
-- The table is one whose ids are distinct.
pub step-Moves :
    (rows : Rows) (c : Call) (i : ℕ) {r : Row}
    → Distinct rows
    → get_elem? rows i ≡ some r
    → (s : Row) × (get_elem? (step rows c) i ≡ some s) × Moves r s
step-Moves rows c i d e = Moved-at rows (step rows c) i (step-Moved rows c d) e

pub record ValidTable (rows : Rows) : Type 0 where
  pub keys : Distinct rows
  pub shapes : All IsValid rows

run-Valid : (rows : Rows) (cs : List Call) → ValidTable rows → ValidTable (run rows cs)
unfolding run
run-Valid rows [] v = v
run-Valid rows (c ∷ cs) v = run-Valid (step rows c) cs record {
  keys = step-Distinct rows c v.keys;
  shapes = Moved-IsValid rows (step rows c) (step-Moved rows c v.keys) v.shapes;
}

-- After any history of calls on an empty table the ids are distinct, a row holds a lease with an
-- owner and an expiry exactly while it is running, it has been attempted then, it has an end
-- exactly when it is completed or failed, and only a failed row has a failure reason.
pub run-ValidTable : (cs : List Call) → ValidTable (run [] cs)
unfolding Distinct
run-ValidTable cs = run-Valid [] cs (record { keys = tt; shapes = tt })

abbrev pub is_terminal : GenStatus → Bool
is_terminal completed = true
is_terminal failed = true
is_terminal _ = false

Moves-terminal : (r s : Row) → Moves r s → is_terminal r.status ≡ true → s ≡ r
Moves-terminal r _ kept e = refl
Moves-terminal r _ (claimed owner now lease_ttl q) e = cc
Moves-terminal r _ (renewed expiry q) e = cc
Moves-terminal r _ (completed_by owner now q o) e = cc
Moves-terminal r _ (saved_by owner now q o) e = cc
Moves-terminal r _ (failed_by owner reason detail trace now q o) e = cc
Moves-terminal r _ (requeued q) e = cc
Moves-terminal r _ (expired now q) e = cc

-- A generation that is completed or failed is the same row after any later history.
pub run-terminal :
    (rows : Rows) (cs : List Call) (i : ℕ) {r : Row}
    → Distinct rows
    → get_elem? rows i ≡ some r
    → is_terminal r.status ≡ true
    → get_elem? (run rows cs) i ≡ some r
unfolding run
run-terminal rows [] i d e t = e
run-terminal rows (c ∷ cs) i {r} d e t =
    let next = step-Moves rows c i d e in
    run-terminal (step rows c) cs i (step-Distinct rows c d)
      (next.1 ∙ ap some (Moves-terminal r next.0 next.2 t)) t
