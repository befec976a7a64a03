-- ===== src/Orchestrator/Generate.antt =====
-- internal/orchestrator/orchestrator.go: the tool loop of `Generate`, behind its prompts, and the
-- dispatch of the tools (internal/llm/tools/registry.go). The provider, the other tools and the JSON
-- texts are arguments. Logging is left out, and a failure is its reason without the detail.
use ro_builder.Prelude.{
  ℕ, Bool, true, false, List, [], ◌∷◌, Option, none, some, String, str_eq, Result, ok, err,
  if◌then◌else◌,
}
use Prim.Native.String.{◌++◌ as str_append}
use ro_builder.Domain.Trajectory.{Trajectory}
use ro_builder.Submission.Execute.{SubmitTrajectoryInput, SubmitError, Ack, execute}
use ro_builder.Orchestrator.Session.{Session, AcceptedSubmission, record_attempt}
use ro_builder.Orchestrator.Wiring.{Environment, deps_of, accept_into}

-- A tool_use block.
pub record ToolUse : Type 0 where
  pub id : String
  pub tool : String
  pub input : String

pub data ContentBlock : Type 0 where
  text_block : String → ContentBlock
  tool_use : ToolUse → ContentBlock
  tool_result : String → String → Bool → ContentBlock

pub data Role : Type 0 where
  user : Role
  assistant : Role

pub record Message : Type 0 where
  pub role : Role
  pub content : List ContentBlock

pub record Response : Type 0 where
  pub content : List ContentBlock
  pub stop_reason : String

abbrev pub stop_end_turn : String
stop_end_turn = "end_turn"

abbrev pub stop_tool_use : String
stop_tool_use = "tool_use"

abbrev pub stop_max_tokens : String
stop_max_tokens = "max_tokens"

-- `SubmitTrajectoryToolName`
abbrev pub submit_trajectory_tool_name : String
submit_trajectory_tool_name = "submit_trajectory"

-- An error of the provider; `IsAuthError` is a method of its own type.
pub record ProviderError : Type 0 where
  pub is_auth_error : Bool
  pub message : String

-- What the loop calls and this repository does not decide: the provider's turn, the other tools, the
-- texts of the submission tool, and the calculator at each call of it, by the turn's number.
pub record Runtime (R : Type 0) : Type 0 where
  pub complete : ℕ → List Message → Result ProviderError Response
  pub other_tool : ℕ → ToolUse → Result String String
  pub decode : String → Result String (SubmitTrajectoryInput R)
  pub encode : Ack R → String
  pub explain : SubmitError R → String
  pub error_json : String → String
  pub environment : ℕ → ToolUse → Environment R

pub record GenerateResult (R : Type 0) : Type 0 where
  pub primary : Option (Trajectory R)
  pub alternatives : List (Trajectory R)
  pub final : String
  pub trace : List Message
  pub stop_reason : String
  pub iters : ℕ

-- `(result, nil)`, or a partial result with the reason of a `FailureError`.
pub data Outcome (R : Type 0) : Type 0 where
  finished : GenerateResult R → Outcome R
  failed : GenerateResult R → String → Outcome R

-- `classifyProviderError`
unfoldable pub classify_provider_error : ProviderError → String
classify_provider_error e = if e.is_auth_error then "provider_auth_error" else "provider_error"

-- The texts of the blocks, joined as `extractFinalText` joins them, behind what it has so far.
unfoldable pub joined_text : String → List ContentBlock → String
joined_text so_far [] = so_far
joined_text so_far (text_block t ∷ rest) =
    joined_text (if str_eq so_far "" then t else str_append so_far (str_append "\n\n" t)) rest
joined_text so_far (tool_use u ∷ rest) = joined_text so_far rest
joined_text so_far (tool_result id output is_error ∷ rest) = joined_text so_far rest

-- `extractFinalText`
unfoldable pub extract_final_text : List ContentBlock → String
unfolding joined_text
extract_final_text content = joined_text "" content

abbrev text_of_turn : Role → List ContentBlock → Option String
text_of_turn user content = none
text_of_turn assistant content = some (extract_final_text content)

unfoldable pub last_assistant_text : List Message → Option String
unfolding extract_final_text
last_assistant_text [] = none
last_assistant_text (m ∷ rest) = elim (last_assistant_text rest) [
  | some t ↦ some t
  | none ↦ text_of_turn m.role m.content
]

-- `extractFinalTextFromLast`
unfoldable pub extract_final_text_from_last : List Message → String
unfolding last_assistant_text
extract_final_text_from_last messages = elim (last_assistant_text messages) [
  | none ↦ ""
  | some t ↦ t
]

abbrev pub is_submit : ToolUse → Bool
is_submit u = str_eq u.tool submit_trajectory_tool_name

module _ {R : Type 0} where
  -- The loop that counts the calls of one turn.
  unfoldable pub count_attempts : Session R → List ContentBlock → Session R
  unfolding record_attempt
  count_attempts s [] = s
  count_attempts s (tool_use u ∷ rest) =
      count_attempts (if is_submit u then record_attempt s else s) rest
  count_attempts s (text_block t ∷ rest) = count_attempts s rest
  count_attempts s (tool_result id output is_error ∷ rest) = count_attempts s rest

  abbrev rendered : Runtime R → Result (SubmitError R) (Ack R) → Result String String
  rendered rt (ok ack) = ok (rt.encode ack)
  rendered rt (err e) = err (rt.explain e)

  abbrev pub run_submit :
      Runtime R
      → Environment R
      → Session R
      → Result String (SubmitTrajectoryInput R)
      → Result String String × Session R
  run_submit rt env s (err problem) = (err problem, s)
  run_submit rt env s (ok input) =
      let ran = execute (deps_of env) (some accept_into) s input in (rendered rt ran.0, ran.1)

  -- `Registry.Dispatch` on the registry with the request's submission tool.
  unfoldable pub dispatch_tool :
      Runtime R → ℕ → Session R → ToolUse → Result String String × Session R
  unfolding execute accept_into
  dispatch_tool rt iter s u =
      if is_submit u
      then run_submit rt (rt.environment iter u) s (rt.decode u.input)
      else (rt.other_tool iter u, s)

  abbrev result_block : Runtime R → ToolUse → Result String String → ContentBlock
  result_block rt u (ok output) = tool_result u.id output false
  result_block rt u (err problem) = tool_result u.id (rt.error_json problem) true

  abbrev with_block : ContentBlock → List ContentBlock × Session R → List ContentBlock × Session R
  with_block b later = (b ∷ later.0, later.1)

  -- The loop that runs the calls of one turn.
  unfoldable pub dispatch_each :
      Runtime R → ℕ → Session R → List ContentBlock → List ContentBlock × Session R
  unfolding dispatch_tool
  dispatch_each rt iter s [] = ([], s)
  dispatch_each rt iter s (tool_use u ∷ rest) =
      let ran = dispatch_tool rt iter s u in
      with_block (result_block rt u ran.0) (dispatch_each rt iter ran.1 rest)
  dispatch_each rt iter s (text_block t ∷ rest) = dispatch_each rt iter s rest
  dispatch_each rt iter s (tool_result id output is_error ∷ rest) = dispatch_each rt iter s rest

  -- `dispatchToolCallsWithSession`
  unfoldable pub dispatch_tool_calls :
      Runtime R → ℕ → Session R → List ContentBlock → List ContentBlock × Session R
  unfolding count_attempts dispatch_each
  dispatch_tool_calls rt iter s content = dispatch_each rt iter (count_attempts s content) content

  abbrev pub partial : List Message → String → ℕ → String → GenerateResult R
  partial messages stop iters final = record {
    primary = none;
    alternatives = [];
    final = final;
    trace = messages;
    stop_reason = stop;
    iters = iters;
  }

  -- `buildResult`
  unfoldable pub build_result :
      Option (AcceptedSubmission R) → List Message → String → ℕ → GenerateResult R
  unfolding extract_final_text_from_last
  build_result none messages stop iters =
      partial messages stop iters (extract_final_text_from_last messages)
  build_result (some a) messages stop iters =
      record (partial messages stop iters (extract_final_text_from_last messages)) {
        primary = some a.primary;
        alternatives = a.alternatives;
      }
