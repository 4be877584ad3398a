-- ===== src/Approvals/Command.antt =====
-- src/thread/features/approvals/command.rs: the options of a question whether a command may run,
-- and the decision that a choice stands for. The amendments of a decision are what the backend
-- proposed; `Amendment` is their type.
pub mod Choices
use zed_codex_acp_cas.Common.{
  ℕ, ◌+◌, Bool, true, false, List, [], ◌∷◌, ◌++◌, Option, none, some, if◌then◌else◌, is_empty,
  unwrap_or,
}
use zed_codex_acp_cas.Common.Text.{Text, codes, text_eq}
use zed_codex_acp_cas.Common.Decimal.{show}
use zed_codex_acp_cas.Common.Maps.{get, contains_key, put}
use zed_codex_acp_cas.Approvals.{
  PermissionOptionKind, allow_once_kind, allow_always_kind, reject_once_kind, reject_always_kind,
  PermissionOption, Outcome, cancelled, selected, other_outcome, allow_once, reject_once,
  cancel_turn,
}

pub data NetworkPolicyRuleAction : Type 0 where
  allow : NetworkPolicyRuleAction
  deny : NetworkPolicyRuleAction

pub data CommandExecutionApprovalDecision (Amendment : Type 0) : Type 0 where
  accept : CommandExecutionApprovalDecision Amendment
  accept_for_session : CommandExecutionApprovalDecision Amendment
  accept_with_execpolicy_amendment :
      (execpolicy_amendment : Amendment) → CommandExecutionApprovalDecision Amendment
  apply_network_policy_amendment :
      (action : NetworkPolicyRuleAction) (amendment : Amendment)
      → CommandExecutionApprovalDecision Amendment
  decline : CommandExecutionApprovalDecision Amendment
  cancel : CommandExecutionApprovalDecision Amendment

-- The parameters of the request that decide on the options.
pub record CommandApprovalParams (Amendment : Type 0) : Type 0 where
  pub available_decisions : Option (List (CommandExecutionApprovalDecision Amendment))
  pub proposed_execpolicy_amendment : Option Amendment

module _ {Amendment : Type 0} where
  -- The decision of an id that is among the options, or of one that is not.
  abbrev pub decision_or_known :
      Text
      → Option (CommandExecutionApprovalDecision Amendment)
      → CommandExecutionApprovalDecision Amendment
  decision_or_known option_id (some decision) = decision
  decision_or_known option_id none =
      if text_eq option_id allow_once
      then accept
      else if text_eq option_id cancel_turn
      then cancel
      else decline

  unfoldable pub command_approval_decision_from_outcome :
      Outcome
      → List (Text × CommandExecutionApprovalDecision Amendment)
      → CommandExecutionApprovalDecision Amendment
  unfolding get
  command_approval_decision_from_outcome cancelled decisions = cancel
  command_approval_decision_from_outcome (selected option_id) decisions =
      decision_or_known option_id (get option_id decisions)
  command_approval_decision_from_outcome other_outcome decisions = decline

  abbrev pub proposed_or_session : Option Amendment → CommandExecutionApprovalDecision Amendment
  proposed_or_session none = accept_for_session
  proposed_or_session (some amendment) = accept_with_execpolicy_amendment amendment

  unfoldable pub command_approval_decisions :
      CommandApprovalParams Amendment → List (CommandExecutionApprovalDecision Amendment)
  command_approval_decisions params =
      let available = unwrap_or params.available_decisions [] in
      if is_empty available
      then accept ∷ proposed_or_session params.proposed_execpolicy_amendment ∷ decline ∷ []
      else available

  unfoldable pub unique_option_id :
      Text → ℕ → List (Text × CommandExecutionApprovalDecision Amendment) → Text
  unfolding contains_key show
  unique_option_id base index existing =
      if contains_key base existing then base ++ (codes "-" ++ show index) else base

  -- The id without a number, the label and the kind of the option for a decision.
  abbrev pub base_presentation :
      CommandExecutionApprovalDecision Amendment → Text × Text × PermissionOptionKind
  base_presentation accept = (allow_once, codes "Allow once", allow_once_kind)
  base_presentation accept_for_session =
      (codes "allow-for-session", codes "Allow for session", allow_always_kind)
  base_presentation (accept_with_execpolicy_amendment execpolicy_amendment) =
      (codes "allow-matching-commands", codes "Allow matching commands", allow_always_kind)
  base_presentation (apply_network_policy_amendment allow amendment) =
      (codes "allow-network-host", codes "Allow this host", allow_always_kind)
  base_presentation (apply_network_policy_amendment deny amendment) =
      (codes "deny-network-host", codes "Deny this host", reject_always_kind)
  base_presentation decline = (reject_once, codes "Reject", reject_once_kind)
  base_presentation cancel = (cancel_turn, codes "Cancel turn", reject_once_kind)

  unfoldable pub command_approval_option_presentation :
      ℕ
      → CommandExecutionApprovalDecision Amendment
      → List (Text × CommandExecutionApprovalDecision Amendment)
      → PermissionOption
  unfolding unique_option_id
  command_approval_option_presentation index decision existing =
      let shown = base_presentation decision in
      record { option_id = unique_option_id shown.0 index existing; name = shown.1; kind = shown.2 }

  -- The loop over the decisions.
  unfoldable pub options_loop :
      ℕ
      → List PermissionOption
      → List (Text × CommandExecutionApprovalDecision Amendment)
      → List (CommandExecutionApprovalDecision Amendment)
      → List PermissionOption × List (Text × CommandExecutionApprovalDecision Amendment)
  unfolding command_approval_option_presentation put
  options_loop index options existing [] = (options, existing)
  options_loop index options existing (decision ∷ decisions) =
      let o = command_approval_option_presentation index decision existing in
      options_loop (index + 1) (options ++ o ∷ []) (put o.option_id decision existing) decisions

  unfoldable pub command_approval_options :
      CommandApprovalParams Amendment
      → List PermissionOption × List (Text × CommandExecutionApprovalDecision Amendment)
  unfolding options_loop command_approval_decisions
  command_approval_options params = options_loop 0 [] [] (command_approval_decisions params)
