-- ===== src/Orchestrator/Session.antt =====
-- internal/orchestrator/session.go: the session that a generation's submissions go through. The
-- mutex makes each method one step.
use ro_builder.Prelude.{
  ℕ, suc, ◌+◌, Bool, true, false, ◌||◌, List, [], ◌∷◌, Option, none, some, String, length,
  if◌then◌else◌, ◌≡◌, refl, arith,
}
use ro_builder.Domain.Trajectory.{Trajectory, clean}

pub record AcceptedSubmission (R : Type 0) : Type 0 where
  pub primary : Trajectory R
  pub alternatives : List (Trajectory R)
  pub calc_version : String

pub record Session (R : Type 0) : Type 0 where
  pub accepted : Option (AcceptedSubmission R)
  pub locked : Bool
  pub attempts : ℕ

-- A call of submit_trajectory, as `Generate` wires it (orchestrator.go): the call is counted, and a
-- submission that passes its gates is accepted, clean when its primary is. The calls of one turn
-- are counted ahead of it, which the order of the steps here does not show.
pub data Submission (R : Type 0) : Type 0 where
  rejected : Submission R
  passed : AcceptedSubmission R → Submission R

module _ {R : Type 0} where
  -- `&Session{}`
  abbrev pub new_session : Session R
  new_session = record { accepted = none; locked = false; attempts = 0 }

  -- `Session.RecordAttempt`
  unfoldable pub record_attempt : Session R → Session R
  record_attempt s = record s { attempts = suc s.attempts }

  -- `Session.Accept`: whether the session is now locked, and the session.
  unfoldable pub accept : Session R → AcceptedSubmission R → Bool → Bool × Session R
  accept s a is_clean =
      if s.locked
      then (true, s)
      else if is_clean
      then (true, record s { accepted = some a; locked = true })
      else (s.locked, record s { accepted = some a })

  unfoldable pub submit : Session R → Submission R → Session R
  unfolding record_attempt accept
  submit s rejected = record_attempt s
  submit s (passed a) = (accept (record_attempt s) a (clean a.primary)).1

  unfoldable pub submit_all : Session R → List (Submission R) → Session R
  unfolding submit
  submit_all s [] = s
  submit_all s (x ∷ rest) = submit_all (submit s x) rest

  -- The first clean submission, or else the last that passed, or else `held`.
  unfoldable pub answer :
      Option (AcceptedSubmission R) → List (Submission R) → Option (AcceptedSubmission R)
  answer held [] = held
  answer held (rejected ∷ rest) = answer held rest
  answer held (passed a ∷ rest) =
      let later = answer (some a) rest in if clean a.primary then some a else later

  unfoldable pub any_clean : List (Submission R) → Bool
  any_clean [] = false
  any_clean (rejected ∷ rest) = any_clean rest
  any_clean (passed a ∷ rest) = clean a.primary || any_clean rest

  pub record Answers (s : Session R) (subs : List (Submission R)) (after : Session R) : Type 0 where
    pub kept : after.accepted ≡ answer s.accepted subs
    pub closed : after.locked ≡ any_clean subs
    pub counted : after.attempts ≡ s.attempts + length subs

  locked-submit_all :
      (s : Session R) (subs : List (Submission R))
      → s.locked ≡ true
      → ((submit_all s subs).accepted ≡ s.accepted)
        × ((submit_all s subs).locked ≡ true)
        × ((submit_all s subs).attempts ≡ s.attempts + length subs)
  unfolding submit_all submit accept record_attempt
  locked-submit_all s [] e = ground arith
  locked-submit_all s (rejected ∷ rest) e =
      ground (arith, locked-submit_all (submit s rejected) rest)
  locked-submit_all s (passed a ∷ rest) e =
      ground (arith, locked-submit_all (submit s (passed a)) rest)

  open-submit_all :
      (s : Session R) (subs : List (Submission R))
      → s.locked ≡ false
      → Answers s subs (submit_all s subs)
  unfolding submit_all submit accept record_attempt answer any_clean
  open-submit_all s [] e = ground arith
  open-submit_all s (rejected ∷ rest) e = ground (arith, open-submit_all (submit s rejected) rest)
  open-submit_all s (passed a ∷ rest) e = ground (
    arith,
    locked-submit_all (submit s (passed a)) rest,
    open-submit_all (submit s (passed a)) rest,
  )

  -- Over any sequence of submissions from a new session, the answer of record is the first clean submission or
  -- else the last one that passed, the session is locked exactly when one was clean, and every call is counted.
  pub submit_all-Answers :
      (subs : List (Submission R)) → Answers new_session subs (submit_all new_session subs)
  submit_all-Answers subs = open-submit_all new_session subs refl
