-- ===== src/Orchestrator/Loop/Ends.antt =====
-- How a generation ends.
use ro_builder.Prelude.{
  ℕ, zero, suc, ◌+◌, ◌≤◌, List, Option, none, some, String, str_eq, Result, ok, err, if_cases, ◌≡◌,
  refl, arith,
}
use ro_builder.BuildLibrary.Saved.{is_empty}
use ro_builder.Orchestrator.Session.{Session, AcceptedSubmission, new_session}
use ro_builder.Orchestrator.Generate.{
  Runtime, ProviderError, Message, ContentBlock, Response, Outcome, finished, failed,
  classify_provider_error, build_result, dispatch_tool_calls, stop_end_turn, stop_tool_use,
  stop_max_tokens,
}
use ro_builder.Orchestrator.Loop.Committed.{HeldBy, HeldBy-longer, dispatch_tool_calls-HeldBy}
use ro_builder.Orchestrator.Loop.{
  on_end_turn, on_tool_results, on_turn, on_exhausted, after_call, generate_from, generate,
  user_turn, assistant_turn,
}

-- The reasons of the failures of a generation.
pub data IsReason : String → Type 0 where
  provider_error : IsReason "provider_error"
  provider_auth_error : IsReason "provider_auth_error"
  no_submission : IsReason "no_submission"
  provider_max_tokens : IsReason "provider_max_tokens"
  validation_error_late : IsReason "validation_error_late"
  max_iters_exhausted : IsReason "max_iters_exhausted"

classify-IsReason : (e : ProviderError) → IsReason (classify_provider_error e)
unfolding classify_provider_error
classify-IsReason e =
    if_cases IsReason e.is_auth_error (λ _. IsReason.provider_auth_error)
      (λ _. IsReason.provider_error)

module _ {R : Type 0} where
  -- A finished generation answers with what the session holds; a failed one has a known reason and no
  -- answer; the turns stay within the bound.
  abbrev pub EndsAs : ℕ → Option (AcceptedSubmission R) → Outcome R → Type 0
  EndsAs bound held (finished res) =
      (a : AcceptedSubmission R) × (held ≡ some a)
      × (res.primary ≡ some a.primary)
      × (res.alternatives ≡ a.alternatives)
      × (res.iters ≤ bound)
  EndsAs bound held (failed res reason) =
      IsReason reason × (res.primary ≡ none) × (res.iters ≤ bound)

  abbrev pub trace_of : Outcome R → List Message
  trace_of (finished res) = res.trace
  trace_of (failed res reason) = res.trace

  abbrev pub EndsWell : Runtime R → ℕ → Outcome R × Session R → Type 0
  EndsWell rt bound ended =
      EndsAs bound ended.1.accepted ended.0 × HeldBy rt (trace_of ended.0) ended.1.accepted

  on_end_turn-EndsAs :
      (bound iter : ℕ) (held : Option (AcceptedSubmission R)) (messages : List Message)
      → (content : List ContentBlock) → suc iter ≤ bound
      → EndsAs bound held (on_end_turn iter held messages content)
  unfolding on_end_turn build_result
  on_end_turn-EndsAs bound iter none messages content within =
      (IsReason.no_submission, refl, within)
  on_end_turn-EndsAs bound iter (some a) messages content within = (a, refl, refl, refl, within)

  on_end_turn-trace :
      (iter : ℕ) (held : Option (AcceptedSubmission R)) (messages : List Message)
      → (content : List ContentBlock) → trace_of (on_end_turn iter held messages content) ≡ messages
  unfolding on_end_turn build_result
  on_end_turn-trace iter none messages content = refl
  on_end_turn-trace iter (some a) messages content = refl

  on_exhausted-EndsAs :
      (bound : ℕ) (held : Option (AcceptedSubmission R)) (messages : List Message)
      → EndsAs bound held (on_exhausted bound held messages)
  unfolding on_exhausted build_result
  on_exhausted-EndsAs bound none messages = (IsReason.max_iters_exhausted, refl, omega arith)
  on_exhausted-EndsAs bound (some a) messages = (a, refl, refl, refl, omega arith)

  on_exhausted-trace :
      (bound : ℕ) (held : Option (AcceptedSubmission R)) (messages : List Message)
      → trace_of (on_exhausted bound held messages) ≡ messages
  unfolding on_exhausted build_result
  on_exhausted-trace bound none messages = refl
  on_exhausted-trace bound (some a) messages = refl

  module _ (rt : Runtime R) (bound : ℕ) where
    -- The rest of the loop, from any session whose answer comes from the trace so far.
    abbrev GoesOn : (Session R → List Message → Outcome R × Session R) → Type 0
    GoesOn next =
        (s : Session R) (messages : List Message)
        → HeldBy rt messages s.accepted
        → EndsWell rt bound (next s messages)

    on_tool_results-EndsWell :
        (iter : ℕ) (messages : List Message) (ran : List ContentBlock × Session R)
        → (next : Session R → List Message → Outcome R × Session R) → GoesOn next
        → suc iter ≤ bound
        → HeldBy rt messages ran.1.accepted
        → EndsWell rt bound (on_tool_results iter messages ran next)
    unfolding on_tool_results
    on_tool_results-EndsWell iter messages ran next on within h =
        if_cases (EndsWell rt bound) (is_empty ran.0)
          (λ _. ((IsReason.validation_error_late, refl, within), h))
          (λ _. on ran.1 (user_turn messages ran.0) (HeldBy-longer rt messages _ ran.1.accepted h))

    on_turn-EndsWell :
        (iter : ℕ) (s : Session R) (before : List Message) (resp : Response)
        → (next : Session R → List Message → Outcome R × Session R) → GoesOn next
        → suc iter ≤ bound
        → rt.complete iter before ≡ ok resp
        → (let messages = assistant_turn before resp.content in
            HeldBy rt messages s.accepted
            → EndsWell rt bound (on_turn rt iter s messages resp next))
    unfolding on_turn
    on_turn-EndsWell iter s before resp next on within asked h =
        let messages = assistant_turn before resp.content in
        if_cases (EndsWell rt bound) (str_eq resp.stop_reason stop_end_turn)
          (λ _. (
            on_end_turn-EndsAs bound iter s.accepted messages resp.content within,
            rw (on_end_turn-trace iter s.accepted messages resp.content) h,
          ))
          (λ _.
            if_cases (EndsWell rt bound) (str_eq resp.stop_reason stop_max_tokens)
              (λ _. ((IsReason.provider_max_tokens, refl, within), h))
              (λ _.
                if_cases (EndsWell rt bound) (str_eq resp.stop_reason stop_tool_use)
                  (λ _.
                    on_tool_results-EndsWell iter messages
                      (dispatch_tool_calls rt iter s resp.content) next on within
                      (dispatch_tool_calls-HeldBy rt iter s before resp asked h))
                  (λ _. ((IsReason.validation_error_late, refl, within), h))))

    after_call-EndsWell :
        (iter : ℕ) (s : Session R) (messages : List Message)
        → (called : Result ProviderError Response)
        → (next : Session R → List Message → Outcome R × Session R) → GoesOn next
        → suc iter ≤ bound
        → rt.complete iter messages ≡ called
        → HeldBy rt messages s.accepted
        → EndsWell rt bound (after_call rt iter s messages called next)
    after_call-EndsWell iter s messages (err e) next on within asked h =
        ((classify-IsReason e, refl, omega (arith, within)), h)
    after_call-EndsWell iter s messages (ok resp) next on within asked h =
        on_turn-EndsWell iter s messages resp next on within asked
          (HeldBy-longer rt messages _ s.accepted h)

    generate_from-EndsWell :
        (left iter : ℕ) (s : Session R) (messages : List Message)
        → left + iter ≡ bound
        → HeldBy rt messages s.accepted
        → EndsWell rt bound (generate_from rt left iter s messages)
    unfolding generate_from
    generate_from-EndsWell zero iter s messages total h =
        let is_bound : iter ≡ bound = omega (arith, total) in
        rw (is_bound) (
          on_exhausted-EndsAs bound s.accepted messages,
          rw (on_exhausted-trace bound s.accepted messages) h,
        )
    generate_from-EndsWell (suc left) iter s messages total h =
        after_call-EndsWell iter s messages (rt.complete iter messages)
          (generate_from rt left (suc iter))
          (λ t ms k. generate_from-EndsWell left (suc iter) t ms (omega (arith, total)) k)
          (omega (arith, total)) refl h

  -- Whatever the provider, the tools and the calculator answer, a generation ends within its bound on turns: it finishes with the submission
  -- that the session holds, or it fails, without an answer, for one of six reasons; and what the session holds then is what `Execute`
  -- commits for a call of submit_trajectory that stands in a turn of the trace of this generation, on the decoded input of the call and in
  -- the environment of that turn.
  pub generate-EndsWell :
      (rt : Runtime R) (max_iters : ℕ) (messages : List Message)
      → EndsWell rt max_iters (generate rt max_iters messages)
  unfolding generate
  generate-EndsWell rt max_iters messages =
      generate_from-EndsWell rt max_iters max_iters 0 new_session messages (omega arith) tt
