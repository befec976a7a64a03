-- ===== src/Submission/Sessions.antt =====
-- The calls of submit_trajectory on a session: what a call does to it, and what stands in it after any
-- sequence of calls.
use ro_builder.Prelude.{List, [], ◌∷◌, some, Result, ok, err, ◌≡◌, refl, map}
use ro_builder.Submission.Execute.{
  SubmitTrajectoryInput, SubmitError, Commit, prepare, execute, finish,
}
use ro_builder.Orchestrator.Session.{
  Session, Submission, rejected, passed, new_session, submit, submit_all, Answers,
  submit_all-Answers, record_attempt,
}
use ro_builder.Orchestrator.Wiring.{Environment, deps_of, accept_into, submit_call}

-- A call, with its environment: the calculator may answer each call differently.
abbrev pub Call : Type 0 → Type 0
Call R = Environment R × SubmitTrajectoryInput R

module _ {R : Type 0} where
  -- What a call is to the session.
  abbrev pub outcome : Result (SubmitError R) (Commit R) → Submission R
  outcome (err e) = rejected
  outcome (ok c) = passed c.submission

  finish-submit :
      (s : Session R) (r : Result (SubmitError R) (Commit R))
      → (finish (some accept_into) (record_attempt s) r).1 ≡ submit s (outcome r)
  unfolding finish submit accept_into
  finish-submit s (err e) = refl
  finish-submit s (ok c) = refl

  -- A call of the tool does to the session what the outcome of its submission does.
  pub submit_call-submit :
      (env : Environment R) (s : Session R) (input : SubmitTrajectoryInput R)
      → (submit_call env s input).1 ≡ submit s (outcome (prepare (deps_of env) input))
  unfolding submit_call execute
  submit_call-submit env s input = finish-submit s (prepare (deps_of env) input)

  abbrev pub outcome_of : Call R → Submission R
  outcome_of call = outcome (prepare (deps_of call.0) call.1)

  unfoldable pub submit_calls : Session R → List (Call R) → Session R
  unfolding submit_call
  submit_calls s [] = s
  submit_calls s (call ∷ rest) = submit_calls (submit_call call.0 s call.1).1 rest

  pub submit_calls-submit_all :
      (s : Session R) (calls : List (Call R))
      → submit_calls s calls ≡ submit_all s (map outcome_of calls)
  unfolding submit_calls submit_all
  submit_calls-submit_all s [] = refl
  submit_calls-submit_all s (call ∷ rest) =
      rw (submit_call-submit call.0 s call.1)
        (submit_calls-submit_all (submit s (outcome_of call)) rest)

  -- Over any calls of submit_trajectory from a new session, the answer of record is the first clean submission that `Execute` commits, or
  -- else the last one that it commits; the session is locked exactly when one was clean; and every call is counted.
  pub submit_calls-Answers :
      (calls : List (Call R))
      → Answers new_session (map outcome_of calls) (submit_calls new_session calls)
  submit_calls-Answers calls =
      rw (submit_calls-submit_all new_session calls) (submit_all-Answers (map outcome_of calls))
