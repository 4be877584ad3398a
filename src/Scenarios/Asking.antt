-- ===== src/Scenarios/Asking.antt =====
-- Questions to the user and the answers.
use zed_codex_acp_cas.Common.{ℕ, true, false, [], ◌∷◌, Option, none, some, ◌≡◌, refl, get_elem?}
use zed_codex_acp_cas.Common.Text.{Text, codes}
use zed_codex_acp_cas.Common.Maps.{get}
use zed_codex_acp_cas.Approvals.{PermissionOption, Outcome, selected, reject_once_kind}
use zed_codex_acp_cas.Approvals.Command.{
  CommandApprovalParams, accept, decline, command_approval_decision_from_outcome,
  command_approval_decisions, command_approval_options,
}
use zed_codex_acp_cas.Approvals.Command.Choices.{command_approval_decision_from_outcome-options}
use zed_codex_acp_cas.Approvals.Permissions.{
  RequestPermissionProfile, turn_scope, approval_response_from_outcome,
}
use zed_codex_acp_cas.Approvals.Permissions.Grants.{
  IsResponse, approval_response_from_outcome-IsResponse,
}
use zed_codex_acp_cas.Approvals.UserInput.{
  Question, PermissionRequest, handle_tool_request_user_input,
}
use zed_codex_acp_cas.Approvals.UserInput.Answers.{user_answer, get-handle_tool_request_user_input}

-- The same decision twice, so the second option has a number in its id.
abbrev twice : CommandApprovalParams Text
twice = record {
  available_decisions = some (decline ∷ decline ∷ accept ∷ []);
  proposed_execpolicy_amendment = none;
}

abbrev second_option : PermissionOption
second_option = record {
  option_id = codes "reject-once-1";
  name = codes "Reject";
  kind = reject_once_kind;
}

offered_second : get_elem? (command_approval_options twice).0 1 ≡ some second_option
unfolding command_approval_options
offered_second = refl

decided_second : get_elem? (command_approval_decisions twice) 1 ≡ some decline
unfolding command_approval_decisions
decided_second = refl

command_approval_decision_from_outcome-options_example :
    command_approval_decision_from_outcome
      (selected second_option.option_id)
      (command_approval_options twice).1
    ≡ decline
command_approval_decision_from_outcome-options_example =
    command_approval_decision_from_outcome-options twice 1 second_option decline offered_second
      decided_second

abbrev network_asked : RequestPermissionProfile
network_asked = record { network = some (record { enabled = some true }); file_system = none }

approval_response_from_outcome-IsResponse_example :
    IsResponse
      (some (record { enabled = some true }))
      none
      turn_scope
      (approval_response_from_outcome (selected (codes "approved")) network_asked)
approval_response_from_outcome-IsResponse_example =
    approval_response_from_outcome-IsResponse (selected (codes "approved")) network_asked

abbrev color : Question
color = record {
  id = codes "color";
  header = [];
  question = codes "Which color?";
  is_other = true;
  is_secret = false;
  options = some (
      (record { label = codes "red"; description = [] })
      ∷ (record { label = codes "blue"; description = codes "like the sky" })
      ∷ []);
}

-- The client takes the second option of each question.
takes_second : ℕ → PermissionRequest → Option Outcome
takes_second index request = some (selected (codes "request-user-input-option-2"))

answered :
    handle_tool_request_user_input takes_second (color ∷ [])
    ≡ some ((codes "color", codes "blue") ∷ [])
unfolding handle_tool_request_user_input takes_second
answered = refl

get-handle_tool_request_user_input_example :
    get (codes "color") ((codes "color", codes "blue") ∷ [])
    ≡ user_answer takes_second 1 0 (codes "color") (color ∷ [])
get-handle_tool_request_user_input_example =
    get-handle_tool_request_user_input takes_second (color ∷ [])
      ((codes "color", codes "blue") ∷ []) (codes "color") answered
