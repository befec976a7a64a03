-- ===== src/Orchestrator/Loop.antt =====
-- internal/orchestrator/orchestrator.go: the loop of `Generate` over the turns of the provider, from a
-- new session and the first messages. The bound on the turns is the fuel.
pub mod Ends
pub mod Committed
use ro_builder.Prelude.{
  ℕ, zero, suc, ◌+◌, Bool, true, false, List, [], ◌∷◌, ◌++◌, Option, none, some, String, str_eq,
  Result, ok, err, if◌then◌else◌,
}
use ro_builder.BuildLibrary.Saved.{is_empty}
use ro_builder.Orchestrator.Session.{Session, AcceptedSubmission, new_session}
use ro_builder.Orchestrator.Generate.{
  Runtime, ProviderError, Message, user, assistant, ContentBlock, Response, Outcome, finished,
  failed, partial, classify_provider_error, extract_final_text, build_result, dispatch_tool_calls,
  stop_end_turn, stop_tool_use, stop_max_tokens,
}

-- `defaultMaxIters`
abbrev pub default_max_iters : ℕ
default_max_iters = 60

abbrev pub assistant_turn : List Message → List ContentBlock → List Message
assistant_turn messages content = messages ++ record { role = assistant; content = content } ∷ []

abbrev pub user_turn : List Message → List ContentBlock → List Message
user_turn messages content = messages ++ record { role = user; content = content } ∷ []

module _ {R : Type 0} where
  -- `case llm.StopEndTurn`, on what the session holds
  unfoldable pub on_end_turn :
      ℕ → Option (AcceptedSubmission R) → List Message → List ContentBlock → Outcome R
  unfolding extract_final_text build_result
  on_end_turn iter none messages content =
      failed (partial messages stop_end_turn (suc iter) (extract_final_text content))
        "no_submission"
  on_end_turn iter (some a) messages content =
      finished (build_result (some a) messages stop_end_turn (suc iter))

  -- `case llm.StopToolUse`; `next` goes on with the loop.
  unfoldable pub on_tool_results :
      ℕ
      → List Message
      → List ContentBlock × Session R
      → (Session R → List Message → Outcome R × Session R)
      → Outcome R × Session R
  on_tool_results iter messages ran next =
      if is_empty ran.0
      then (failed (partial messages stop_tool_use (suc iter) "") "validation_error_late", ran.1)
      else next ran.1 (user_turn messages ran.0)

  -- The `switch` on the stop reason, on the messages with the assistant's turn.
  unfoldable pub on_turn :
      Runtime R
      → ℕ
      → Session R
      → List Message
      → Response
      → (Session R → List Message → Outcome R × Session R)
      → Outcome R × Session R
  unfolding on_end_turn on_tool_results dispatch_tool_calls
  on_turn rt iter s messages resp next =
      if str_eq resp.stop_reason stop_end_turn
      then (on_end_turn iter s.accepted messages resp.content, s)
      else if str_eq resp.stop_reason stop_max_tokens
      then (failed (partial messages resp.stop_reason (suc iter) "") "provider_max_tokens", s)
      else if str_eq resp.stop_reason stop_tool_use
      then on_tool_results iter messages (dispatch_tool_calls rt iter s resp.content) next
      else (failed (partial messages resp.stop_reason (suc iter) "") "validation_error_late", s)

  -- Behind the loop.
  unfoldable pub on_exhausted : ℕ → Option (AcceptedSubmission R) → List Message → Outcome R
  unfolding build_result
  on_exhausted iters none messages = failed (partial messages "" iters "") "max_iters_exhausted"
  on_exhausted iters (some a) messages = finished (build_result (some a) messages "" iters)

  abbrev pub after_call :
      Runtime R
      → ℕ
      → Session R
      → List Message
      → Result ProviderError Response
      → (Session R → List Message → Outcome R × Session R)
      → Outcome R × Session R
  after_call rt iter s messages (err e) next =
      (failed (partial messages "" iter "") (classify_provider_error e), s)
  after_call rt iter s messages (ok resp) next =
      on_turn rt iter s (assistant_turn messages resp.content) resp next

  -- The loop, with `left` turns to go.
  unfoldable pub generate_from :
      Runtime R → (left iter : ℕ) → Session R → List Message → Outcome R × Session R
  unfolding classify_provider_error on_turn on_exhausted
  generate_from rt zero iter s messages = (on_exhausted iter s.accepted messages, s)
  generate_from rt (suc left) iter s messages =
      after_call rt iter s messages (rt.complete iter messages) (generate_from rt left (suc iter))

  -- `Generate`, from its first messages on
  unfoldable pub generate : Runtime R → (max_iters : ℕ) → List Message → Outcome R × Session R
  unfolding generate_from
  generate rt max_iters messages = generate_from rt max_iters 0 new_session messages
