-- ===== src/Events.antt =====
-- src/thread/features/notification/events/deltas.rs and `emit_turn_error` of turn.rs beside it, and
-- src/thread/core/terminal_updates.rs: texts, outputs and errors that the backend sends for a turn.
-- The first argument is the time.
pub mod EndedPlan
pub mod Items
pub mod Notifications
pub mod PlanUpdates
pub mod ShownPlan
use zed_codex_acp_cas.Common.{
  ℕ, Bool, true, false, not, ◌&&◌, ◌||◌, List, [], ◌∷◌, ◌++◌, Option, none, some, if◌then◌else◌,
  is_empty,
}
use zed_codex_acp_cas.Common.Decimal.{show}
use zed_codex_acp_cas.Common.Text.{Text, codes, text_eq, trim}
use zed_codex_acp_cas.Common.Sets.{member, insert}
use zed_codex_acp_cas.Thread.State.{
  ThreadInner, PlanEntry, FallbackPlanState, FallbackPlanPhase, planning, implementing, summarizing,
  is_some_plan, tool_call_content, terminal_output, send_notification, send_agent_text,
  send_agent_thought, send_system_message, format_system_message,
}
use zed_codex_acp_cas.Thread.Turn.{record_turn_error_notice}
use zed_codex_acp_cas.Thread.Reconnect.{
  mark_turn_progress, note_reconnect_progress, parse_reconnect_progress,
}
use zed_codex_acp_cas.Plan.Fallback.{
  send_plan, contents, fallback_plan_entries_for_steps, maybe_advance_fallback_plan,
  fallback_plan_can_enter_summarizing,
}
use zed_codex_acp_cas.Plan.Parse.{
  plan_entries_all_pending, plan_from_text, plan_from_plan_item_text, promote_first_pending_step,
}

-- `format_reconnect_status`.
unfoldable pub format_reconnect_status : ℕ → ℕ → Text
format_reconnect_status current total =
    format_system_message (codes "status") (codes "Reconnecting to app-server") (
      codes "Attempt "
      ++ (show current ++ (codes "/" ++ (show total ++ codes ". Waiting for the turn to resume."))))

-- A text with something in it counts as progress.
abbrev pub mark_text_progress : ℕ → ThreadInner → Text → ThreadInner
mark_text_progress now inner text =
    if is_empty (trim text) then inner else mark_turn_progress now inner

-- `if inner.note_reconnect_progress(…) { inner.client.send_agent_text(…) }`.
unfoldable pub report_reconnect : ℕ → ThreadInner → ℕ → ℕ → ThreadInner
report_reconnect now inner current total =
    let (noted, is_new) = note_reconnect_progress now inner current total in
    if is_new then send_agent_text noted (format_reconnect_status current total) else noted

-- `emit_agent_message_delta` of the turn itself, when the delta reports no reconnect.
unfoldable pub show_delta : ℕ → ThreadInner → Text → Text → ThreadInner
show_delta now inner expected_turn_id delta =
    let summarizes =
      not (is_empty (trim delta))
      && fallback_plan_can_enter_summarizing inner.fallback_plan expected_turn_id
          (not (is_empty inner.started_tool_calls)) in
    let advanced =
      if summarizes
      then maybe_advance_fallback_plan inner expected_turn_id summarizing
      else inner in
    send_agent_text (mark_text_progress now advanced delta) delta

abbrev pub take_delta : ℕ → ThreadInner → Text → Text → Option (ℕ × ℕ) → ThreadInner
take_delta now inner expected_turn_id delta none = show_delta now inner expected_turn_id delta
take_delta now inner expected_turn_id delta (some (current, total)) =
    report_reconnect now inner current total

abbrev pub emit_agent_message_delta : ℕ → ThreadInner → Text → Text → Text → ThreadInner
emit_agent_message_delta now inner expected_turn_id turn_id delta =
    if text_eq turn_id expected_turn_id
    then take_delta now inner expected_turn_id delta (parse_reconnect_progress delta)
    else inner

abbrev pub emit_reasoning_delta : ℕ → ThreadInner → Text → Text → Text → ThreadInner
emit_reasoning_delta now inner expected_turn_id turn_id delta =
    if text_eq turn_id expected_turn_id
    then send_agent_thought (mark_text_progress now inner delta) delta
    else inner

abbrev pub emit_plan_delta : ℕ → ThreadInner → Text → Text → Text → ThreadInner
emit_plan_delta now inner expected_turn_id turn_id delta =
    if not (text_eq turn_id expected_turn_id)
    then inner
    else if is_some_plan inner.active_turn_mode_kind
    then inner
    else send_agent_text
        (mark_text_progress now (record inner { active_turn_saw_plan_delta = true }) delta) delta

-- `emit_file_change_output_delta`, and `emit_mcp_tool_call_progress`, which is the same.
abbrev pub emit_tool_call_text : ℕ → ThreadInner → Text → Text → Text → Text → ThreadInner
emit_tool_call_text now inner expected_turn_id item_id turn_id text =
    if text_eq turn_id expected_turn_id
    then send_notification (mark_text_progress now inner text) (tool_call_content item_id text)
    else inner

abbrev pub handle_command_output_delta : ℕ → ThreadInner → Text → Text → ThreadInner
handle_command_output_delta now inner item_id delta =
    let marked = mark_text_progress now inner delta in
    if not (member item_id inner.started_tool_calls)
    then inner
    else if not (member item_id inner.terminal_tool_call_ids)
    then send_notification marked (tool_call_content item_id delta)
    else send_notification
        (if is_empty delta then marked else record marked {
          terminal_tool_call_output_seen = insert item_id marked.terminal_tool_call_output_seen;
        })
        (terminal_output item_id delta)

abbrev pub handle_terminal_interaction : ℕ → ThreadInner → Text → Text → ThreadInner
handle_terminal_interaction now inner item_id stdin =
    let marked = mark_text_progress now inner stdin in
    if not (member item_id inner.started_tool_calls)
    then inner
    else if member item_id inner.terminal_tool_call_ids
    then send_notification marked (terminal_output item_id (codes "\n" ++ (stdin ++ codes "\n")))
    else marked

abbrev pub send_turn_error : ThreadInner → Option Text → ThreadInner
send_turn_error inner none = inner
send_turn_error inner (some message) =
    send_system_message inner (codes "error") (codes "Turn error") message

-- `emit_turn_error` of the turn itself.
abbrev pub take_error : ℕ → ThreadInner → Text → Text → Option (ℕ × ℕ) → ThreadInner
take_error now inner turn_id message (some (current, total)) =
    report_reconnect now inner current total
take_error now inner turn_id message none =
    let marked = mark_turn_progress now inner in
    let (notice, shown) = record_turn_error_notice marked.last_turn_error_notice turn_id message in
    if is_empty (trim message)
    then inner
    else send_turn_error (record marked { last_turn_error_notice = notice }) shown

abbrev pub emit_turn_error : ℕ → ThreadInner → Text → Text → Text → ThreadInner
emit_turn_error now inner expected_turn_id turn_id message =
    if text_eq turn_id expected_turn_id
    then take_error now inner turn_id message (parse_reconnect_progress message)
    else inner
