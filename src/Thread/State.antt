-- ===== src/Thread/State.antt =====
-- The records of src/thread.rs, and the sends of src/thread/session/client.rs.
use zed_codex_acp_cas.Common.{
  ℕ, Bool, true, false, List, [], ◌∷◌, ◌++◌, Option, none, some, if◌then◌else◌, is_empty,
}
use zed_codex_acp_cas.Common.Text.{Text, codes, trim, lines, strip_newline}

-- `ModeKind`; the sources name two of its values and treat all others alike.
pub data ModeKind : Type 0 where
  plan default other : ModeKind

abbrev pub is_plan : ModeKind → Bool
is_plan plan = true
is_plan default = false
is_plan other = false

-- `== Some(ModeKind::Plan)`.
abbrev pub is_some_plan : Option ModeKind → Bool
is_some_plan none = false
is_some_plan (some m) = is_plan m

pub data PlanEntryStatus : Type 0 where
  pending in_progress completed : PlanEntryStatus

-- `PlanEntry`. Its priority is `Medium` wherever the sources make one.
pub record PlanEntry : Type 0 where
  pub content : Text
  pub status : PlanEntryStatus

pub data FallbackPlanPhase : Type 0 where
  planning implementing verifying summarizing done : FallbackPlanPhase

pub record FallbackPlanState : Type 0 where
  pub turn_id : Text
  pub phase : FallbackPlanPhase
  pub saw_tool_activity : Bool
  pub steps : List Text

pub data PatchChangeKind : Type 0 where
  add delete : PatchChangeKind
  update : Option Text → PatchChangeKind

pub record FileUpdateChange : Type 0 where
  pub path : Text
  pub kind : PatchChangeKind
  pub diff : Text

pub record TurnDiffRecord : Type 0 where
  pub turn_id : Text
  pub recorded_at : ℕ
  pub unified_diff : Text

-- What a session's client is sent. `terminal_output` is a tool-call update whose `meta` holds the
-- terminal and the output; `tool_call_content` one whose `content` is a text.
pub data SessionUpdate : Type 0 where
  plan_update : List PlanEntry → SessionUpdate
  agent_message_chunk : Text → SessionUpdate
  agent_thought_chunk : Text → SessionUpdate
  tool_call_content : Text → Text → SessionUpdate
  terminal_output : Text → Text → SessionUpdate

pub record ThreadInner : Type 0 where
  pub thread_id : Text
  pub suppress_text_output : Bool
  pub sent : List SessionUpdate
  pub collaboration_mode_kind : ModeKind
  pub active_turn_id : Option Text
  pub active_turn_mode_kind : Option ModeKind
  pub active_turn_saw_plan_item : Bool
  pub active_turn_saw_plan_delta : Bool
  pub started_tool_calls : List Text
  pub terminal_tool_call_ids : List Text
  pub terminal_tool_call_output_seen : List Text
  pub last_completed_turn_id : Option Text
  pub last_turn_error_notice : Option (Text × Text)
  pub turn_plan_updates_seen : List Text
  pub fallback_plan : Option FallbackPlanState
  pub file_change_locations : List (Text × List Text)
  pub file_change_started_changes : List (Text × List FileUpdateChange)
  pub file_change_before_contents : List (Text × List (Text × Option Text))
  pub latest_turn_diff : Option Text
  pub turn_diff_history : List TurnDiffRecord
  pub file_change_paths_this_turn : List Text
  pub last_plan_steps : List Text
  pub carryover_plan_steps : Option (List Text)
  pub pending_thread_title_update : Option Text
  pub turn_last_progress_at : ℕ
  pub turn_reconnect_warning_count : ℕ
  pub turn_reconnect_retry_limit_hit : Bool
  pub turn_last_reconnect_progress : Option (ℕ × ℕ)
  pub turn_reconnect_stall_notice_sent : Bool

-- `client.send_notification`.
abbrev pub send_notification : ThreadInner → SessionUpdate → ThreadInner
send_notification inner u = record inner { sent = inner.sent ++ u ∷ [] }

abbrev pub send_agent_text : ThreadInner → Text → ThreadInner
send_agent_text inner text =
    if inner.suppress_text_output then inner else send_notification inner (agent_message_chunk text)

abbrev pub send_agent_thought : ThreadInner → Text → ThreadInner
send_agent_thought inner text =
    if inner.suppress_text_output then inner else send_notification inner (agent_thought_chunk text)

-- The loop of `format_system_message` over the lines of the body.
unfoldable pub quote_lines : List Text → Text
quote_lines [] = []
quote_lines (line ∷ rest) =
    (if is_empty (trim line) then codes ">\n" else (codes "> " ++ (line ++ codes "\n")))
    ++ quote_lines rest

unfoldable pub format_system_message : Text → Text → Text → Text
unfolding quote_lines
format_system_message raw_label raw_title raw_body =
    let label = trim raw_label in
    let title = trim raw_title in
    let body = trim raw_body in
    let heading =
      if is_empty title
      then codes "System"
      else if is_empty label
      then codes "System: " ++ title
      else codes "System / " ++ (label ++ (codes ": " ++ title)) in
    let opening = codes "\n\n> **" ++ (heading ++ codes "**") in
    let message =
      if is_empty body
      then opening
      else strip_newline (opening ++ (codes "\n>\n" ++ quote_lines (lines body))) in
    message ++ codes "\n\n"

abbrev pub send_system_message : ThreadInner → Text → Text → Text → ThreadInner
send_system_message inner label title body =
    send_agent_text inner (format_system_message label title body)
