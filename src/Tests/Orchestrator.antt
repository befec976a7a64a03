-- ===== src/Tests/Orchestrator.antt =====
-- Sessions on a few submissions.
use ro_builder.Prelude.{
  ℕ, true, List, [], ◌∷◌, none, some, ok, err, is_ok, ◌==◌, if◌then◌else◌, ◌≡◌, ◌↔◌, refl,
}
use ro_builder.Prelude.Int.{pos}
use ro_builder.Domain.Profile.{ServerProfile}
use ro_builder.Orchestrator.Generate.{Runtime, ToolUse, tool_use, text_block}
use ro_builder.Orchestrator.Loop.{generate}
use ro_builder.Orchestrator.Loop.Ends.{EndsWell, generate-EndsWell}
use ro_builder.Orchestrator.Request.{
  GenerateRequest, validate_request, validate_request_with_profiles, resolve_profile,
  validate_request_with_profiles_iff,
}
use ro_builder.Tests.Submission.{environment, input as submission_input}
use ro_builder.Orchestrator.Session.{
  AcceptedSubmission, Submission, rejected, passed, new_session, submit_all, Answers,
  submit_all-Answers,
}
use ro_builder.Tests.BuildLibrary.{answer, passing}
use ro_builder.Tests.Domain.{knight}
use ro_builder.Domain.Trajectory.{Trajectory, clean}
use ro_builder.Domain.Gate.{is_pass}

abbrev candidate : AcceptedSubmission ℕ
candidate = record { primary = answer; alternatives = []; calc_version = "v1" }

abbrev warned : Trajectory ℕ
warned = record {
  class = "knight";
  snapshots = record knight { gates = record passing { severity = "warn" } ∷ [] } ∷ [];
}

abbrev submissions : List (Submission ℕ)
submissions =
    rejected
    ∷ passed (record candidate { primary = warned })
    ∷ passed candidate
    ∷ passed (record candidate { calc_version = "v2" })
    ∷ []

first_clean : (submit_all new_session submissions).accepted ≡ some candidate
unfolding submit_all clean is_pass
first_clean = refl

submit_all-Answers_example : Answers new_session submissions (submit_all new_session submissions)
submit_all-Answers_example = submit_all-Answers submissions

-- A provider that submits once and then ends its turn.
abbrev one_use : ToolUse
one_use = record { id = "1"; tool = "submit_trajectory"; input = "{}" }

abbrev runtime : Runtime ℕ
runtime = record {
  complete = λ iter messages.
      if iter == 0
      then ok (record { content = tool_use one_use ∷ []; stop_reason = "tool_use" })
      else ok (record { content = text_block "done" ∷ []; stop_reason = "end_turn" });
  other_tool = λ iter call. err "unknown tool";
  decode = λ text. ok submission_input;
  encode = λ ack. "{}";
  explain = λ problem. "rejected";
  error_json = λ text. text;
  environment = λ iter call. environment;
}

generate-EndsWell_example : EndsWell runtime 60 (generate runtime 60 [])
generate-EndsWell_example = generate-EndsWell runtime 60 []

abbrev request : GenerateRequest
request = record {
  class = "knight";
  server = "uaro";
  playstyle = "pvm";
  mode = "";
  description = "bash things";
}

abbrev uaro : ServerProfile ℕ
uaro = record {
  key = "uaro";
  mode = "pre-renewal";
  caps = record { max_base_level = pos 99; max_job_level = pos 70; max_stat = pos 99 };
  class_changes = [];
  custom_mobs = [];
  quality_gates = none;
}

validate_request_with_profiles_iff_example :
    (validate_request_with_profiles request (("uaro", uaro) ∷ []) ≡ ok tt) ↔ (
      (validate_request request ≡ ok tt)
      × (is_ok (resolve_profile (("uaro", uaro) ∷ []) request.server) ≡ true))
validate_request_with_profiles_iff_example =
    validate_request_with_profiles_iff request (("uaro", uaro) ∷ [])
