-- ===== src/Orchestrator/Loop/Committed.antt =====
-- Where the answer that a session holds comes from: a call of submit_trajectory in the trace of the
-- generation.
use mathlib.Core.List.{append-nil, append_assoc}
use ro_builder.Prelude.{
  ℕ, List, [], ◌∷◌, ◌++◌, Option, none, some, String, eq_iff, Result, ok, err, if◌then◌else◌,
  if_cases, ◌≡◌, ◌⊎◌, inl, inr, refl, sym, ◌∙◌, ap, arith,
}
use ro_builder.Submission.Execute.{
  SubmitTrajectoryInput, SubmitError, Commit, prepare, finish, execute,
}
use ro_builder.Orchestrator.Session.{Session, AcceptedSubmission, record_attempt, accept}
use ro_builder.Orchestrator.Wiring.{Environment, deps_of, accept_into}
use ro_builder.Orchestrator.Generate.{
  Runtime, ToolUse, Message, ContentBlock, text_block, tool_use, tool_result, Response, is_submit,
  count_attempts, run_submit, dispatch_tool, dispatch_each, dispatch_tool_calls,
  submit_trajectory_tool_name,
}
use ro_builder.Orchestrator.Loop.{assistant_turn}

-- The content holds the call.
abbrev pub Calls : List ContentBlock → ToolUse → Type 0
Calls [] u = ⊥
Calls (tool_use v ∷ rest) u = (v ≡ u) ⊎ Calls rest u
Calls (text_block t ∷ rest) u = Calls rest u
Calls (tool_result id output is_error ∷ rest) u = Calls rest u

module _ {R : Type 0} (rt : Runtime R) where
  -- A turn of the trace: the provider's answer to the messages in front of it.
  pub record Turn (trace : List Message) : Type 0 where
    pub iter : ℕ
    pub before : List Message
    pub response : Response
    pub later : List Message
    pub asked : rt.complete iter before ≡ ok response
    pub in_trace : assistant_turn before response.content ++ later ≡ trace

  -- A call of submit_trajectory in a turn of the trace, which `Execute` commits, in the environment of
  -- that turn, as the submission.
  pub record Committed (trace : List Message) (a : AcceptedSubmission R) : Type 0 where
    pub turn : Turn trace
    pub call : ToolUse
    pub called : Calls turn.response.content call
    pub named : call.tool ≡ submit_trajectory_tool_name
    pub input : SubmitTrajectoryInput R
    pub decoded : rt.decode call.input ≡ ok input
    pub commit : Commit R
    pub committed : prepare (deps_of (rt.environment turn.iter call)) input ≡ ok commit
    pub is_answer : commit.submission ≡ a

  abbrev pub HeldBy : List Message → Option (AcceptedSubmission R) → Type 0
  HeldBy trace none = Unit
  HeldBy trace (some a) = Committed trace a

  -- A longer trace has the turn still.
  pub HeldBy-longer :
      (trace more : List Message) (held : Option (AcceptedSubmission R))
      → HeldBy trace held
      → HeldBy (trace ++ more) held
  HeldBy-longer trace more none h = tt
  HeldBy-longer trace more (some a) h = record {
    turn = record {
      iter = h.turn.iter;
      before = h.turn.before;
      response = h.turn.response;
      later = h.turn.later ++ more;
      asked = h.turn.asked;
      in_trace =
          sym
            (append_assoc (assistant_turn h.turn.before h.turn.response.content) h.turn.later more)
          ∙ ap (λ l. l ++ more) h.turn.in_trace;
    };
    call = h.call;
    called = h.called;
    named = h.named;
    input = h.input;
    decoded = h.decoded;
    commit = h.commit;
    committed = h.committed;
    is_answer = h.is_answer;
  }

  -- A call in the environment of its turn, on a session.
  finish-HeldBy :
      (trace : List Message) (s : Session R) (r : Result (SubmitError R) (Commit R))
      → HeldBy trace s.accepted
      → ((c : Commit R) → r ≡ ok c → Committed trace c.submission)
      → HeldBy trace (finish (some accept_into) s r).1.accepted
  unfolding finish accept_into accept
  finish-HeldBy trace s (err e) h k = h
  finish-HeldBy trace s (ok c) h k =
      let new : HeldBy trace (some c.submission) = k c refl in ground (arith, h, new)

  run_submit-HeldBy :
      (trace : List Message) (env : Environment R) (s : Session R)
      → (decoded : Result String (SubmitTrajectoryInput R)) → HeldBy trace s.accepted
      → ((input : SubmitTrajectoryInput R) (c : Commit R)
          → decoded ≡ ok input
          → prepare (deps_of env) input ≡ ok c
          → Committed trace c.submission)
      → HeldBy trace (run_submit rt env s decoded).1.accepted
  unfolding execute
  run_submit-HeldBy trace env s (err problem) h k = h
  run_submit-HeldBy trace env s (ok input) h k =
      finish-HeldBy trace s (prepare (deps_of env) input) h (λ c e. k input c refl e)

  -- The calls of a turn, `content` of the response's blocks on.
  module _ (trace : List Message) (turn : Turn trace) where
    dispatch_tool-HeldBy :
        (s : Session R) (u : ToolUse)
        → Calls turn.response.content u
        → HeldBy trace s.accepted
        → HeldBy trace (dispatch_tool rt turn.iter s u).1.accepted
    unfolding dispatch_tool
    dispatch_tool-HeldBy s u called h =
        if_cases {A = Result String String × Session R} (λ ran. HeldBy trace ran.1.accepted)
          (is_submit u)
          (λ named.
            run_submit-HeldBy trace (rt.environment turn.iter u) s (rt.decode u.input) h
              (λ input c decoded done. record {
                turn = turn;
                call = u;
                called = called;
                named = (eq_iff u.tool submit_trajectory_tool_name).0 named;
                input = input;
                decoded = decoded;
                commit = c;
                committed = done;
                is_answer = refl;
              }))
          (λ _. h)

    dispatch_each-HeldBy :
        (s : Session R) (content : List ContentBlock)
        → ((u : ToolUse) → Calls content u → Calls turn.response.content u)
        → HeldBy trace s.accepted
        → HeldBy trace (dispatch_each rt turn.iter s content).1.accepted
    unfolding dispatch_each
    dispatch_each-HeldBy s [] within h = h
    dispatch_each-HeldBy s (tool_use u ∷ rest) within h =
        dispatch_each-HeldBy (dispatch_tool rt turn.iter s u).1 rest
          (λ v called. within v (inr called)) (dispatch_tool-HeldBy s u (within u (inl refl)) h)
    dispatch_each-HeldBy s (text_block t ∷ rest) within h = dispatch_each-HeldBy s rest within h
    dispatch_each-HeldBy s (tool_result id output is_error ∷ rest) within h =
        dispatch_each-HeldBy s rest within h

  count_attempts-accepted :
      (s : Session R) (content : List ContentBlock)
      → (count_attempts s content).accepted ≡ s.accepted
  unfolding count_attempts record_attempt
  count_attempts-accepted s [] = refl
  count_attempts-accepted s (tool_use u ∷ rest) =
      ground (arith, count_attempts-accepted (if is_submit u then record_attempt s else s) rest)
  count_attempts-accepted s (text_block t ∷ rest) = count_attempts-accepted s rest
  count_attempts-accepted s (tool_result id output is_error ∷ rest) = count_attempts-accepted s rest

  pub dispatch_tool_calls-HeldBy :
      (iter : ℕ) (s : Session R) (before : List Message) (resp : Response)
      → rt.complete iter before ≡ ok resp
      → (let trace = assistant_turn before resp.content in
          HeldBy trace s.accepted
          → HeldBy trace (dispatch_tool_calls rt iter s resp.content).1.accepted)
  unfolding dispatch_tool_calls
  dispatch_tool_calls-HeldBy iter s before resp asked h =
      let trace = assistant_turn before resp.content in
      let turn : Turn trace = record {
        iter = iter;
        before = before;
        response = resp;
        later = [];
        asked = asked;
        in_trace = append-nil trace;
      } in
      dispatch_each-HeldBy trace turn (count_attempts s resp.content) resp.content (λ u c. c)
        (rw (count_attempts-accepted s resp.content) h)
