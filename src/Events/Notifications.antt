-- ===== src/Events/Notifications.antt =====
-- The notifications of a turn, one after another.
use zed_codex_acp_cas.Common.{ℕ, not, List, [], ◌∷◌, refl}
use zed_codex_acp_cas.Common.Text.{Text, text_eq}
use zed_codex_acp_cas.Common.Sets.{member}
use zed_codex_acp_cas.Thread.State.{ThreadInner, PlanEntry, is_some_plan, tool_call_content}
use zed_codex_acp_cas.Thread.Reconnect.{parse_reconnect_progress}
use zed_codex_acp_cas.Events.{
  mark_text_progress, emit_agent_message_delta, emit_reasoning_delta, emit_plan_delta,
  emit_tool_call_text, handle_command_output_delta, handle_terminal_interaction, emit_turn_error,
}
use zed_codex_acp_cas.Events.PlanUpdates.{emit_turn_plan_updated, emit_plan_item_completed}
use zed_codex_acp_cas.TurnLoop.{CompletedTurn, on_completion}
use zed_codex_acp_cas.Events.Items.{ThreadItem, advance_for_item}
use zed_codex_acp_cas.Events.EndedPlan.{advance_for_item-IsShown, on_completion-IsShown}
use zed_codex_acp_cas.Events.ShownPlan.{
  IsShown, send-IsShown, if-IsShown, send_agent_text-IsShown, send_agent_thought-IsShown,
  mark_text_progress-IsShown, take_delta-IsShown, take_error-IsShown, command_output-IsShown,
  terminal_interaction-IsShown, turn_plan-IsShown, show_plan_item-IsShown,
}

-- Notifications outside of a compaction, with what they carry. An item that starts is here what it
-- does to the plan; a turn that completes is all but the card of its diff.
pub data Notification : Type 0 where
  agent_message_delta reasoning_delta plan_delta turn_error : Text → Text → Notification
  file_change_output_delta mcp_tool_call_progress : Text → Text → Text → Notification
  command_output_delta terminal_interaction : Text → Text → Notification
  turn_plan_updated : Text → List PlanEntry → Notification
  plan_item_completed : Text → Text → Notification
  item_started : Text → ThreadItem → Notification
  turn_completed : CompletedTurn → Notification

module _ (to_lowercase : Text → Text) (expected : Text) where
  abbrev pub notify : ThreadInner → ℕ × Notification → ThreadInner
  notify inner (now, agent_message_delta id t) = emit_agent_message_delta now inner expected id t
  notify inner (now, reasoning_delta id t) = emit_reasoning_delta now inner expected id t
  notify inner (now, plan_delta id t) = emit_plan_delta now inner expected id t
  notify inner (now, turn_error id t) = emit_turn_error now inner expected id t
  notify inner (now, file_change_output_delta item id t) =
      emit_tool_call_text now inner expected item id t
  notify inner (now, mcp_tool_call_progress item id t) =
      emit_tool_call_text now inner expected item id t
  notify inner (now, command_output_delta item t) = handle_command_output_delta now inner item t
  notify inner (now, terminal_interaction item t) = handle_terminal_interaction now inner item t
  notify inner (now, turn_plan_updated id es) = emit_turn_plan_updated now inner expected id es
  notify inner (now, plan_item_completed id t) =
      emit_plan_item_completed to_lowercase inner id expected t
  notify inner (now, item_started id item) = advance_for_item inner expected id item
  notify inner (now, turn_completed turn) = (on_completion now inner expected turn).0

  abbrev pub notify_all : ThreadInner → List (ℕ × Notification) → ThreadInner
  notify_all inner [] = inner
  notify_all inner (n ∷ ns) = notify_all (notify inner n) ns

  notify-IsShown :
      (inner : ThreadInner) (n : ℕ × Notification) → IsShown inner → IsShown (notify inner n)
  notify-IsShown inner (now, agent_message_delta id t) h =
      if-IsShown (text_eq id expected) _ _
        (take_delta-IsShown now inner expected t (parse_reconnect_progress t) h) h
  notify-IsShown inner (now, reasoning_delta id t) h =
      if-IsShown (text_eq id expected) _ _
        (send_agent_thought-IsShown _ t (mark_text_progress-IsShown now inner t h)) h
  notify-IsShown inner (now, plan_delta id t) h = if-IsShown (not (text_eq id expected)) _ _ h (
      if-IsShown (is_some_plan inner.active_turn_mode_kind) _ _ h
        (send_agent_text-IsShown _ t (mark_text_progress-IsShown now _ t h)))
  notify-IsShown inner (now, turn_error id t) h =
      if-IsShown (text_eq id expected) _ _
        (take_error-IsShown now inner id t (parse_reconnect_progress t) h) h
  notify-IsShown inner (now, file_change_output_delta item id t) h =
      if-IsShown (text_eq id expected) _ _
        (send-IsShown (mark_text_progress now inner t) (tool_call_content item t) (λ s. refl)
          (mark_text_progress-IsShown now inner t h))
        h
  notify-IsShown inner (now, mcp_tool_call_progress item id t) h =
      if-IsShown (text_eq id expected) _ _
        (send-IsShown (mark_text_progress now inner t) (tool_call_content item t) (λ s. refl)
          (mark_text_progress-IsShown now inner t h))
        h
  notify-IsShown inner (now, command_output_delta item t) h =
      command_output-IsShown now inner item t h
  notify-IsShown inner (now, terminal_interaction item t) h =
      terminal_interaction-IsShown now inner item t h
  notify-IsShown inner (now, turn_plan_updated id es) h =
      turn_plan-IsShown now inner expected id es h
  notify-IsShown inner (now, plan_item_completed id t) h =
      if-IsShown (member id inner.turn_plan_updates_seen) _ _ h
        (show_plan_item-IsShown _ _ _ id t _ h)
  notify-IsShown inner (now, item_started id item) h =
      advance_for_item-IsShown inner expected id item h
  notify-IsShown inner (now, turn_completed turn) h =
      on_completion-IsShown now inner expected turn h

  -- Whatever deltas of texts, thoughts and plans, outputs of commands, terminals and file changes,
  -- progress of MCP tool calls, errors, plan updates, completed plan items, starts of items and
  -- completions of turns come in, in any order, outside of a compaction, the client shows the first
  -- six steps of the session's plan if it did so before. Of the start of an item it is what it does
  -- to the plan that counts here, and of the completion of a turn all but the card of its diff.
  pub notify_all-IsShown :
      (ns : List (ℕ × Notification)) (inner : ThreadInner)
      → IsShown inner
      → IsShown (notify_all inner ns)
  notify_all-IsShown [] inner h = h
  notify_all-IsShown (n ∷ ns) inner h =
      notify_all-IsShown ns (notify inner n) (notify-IsShown inner n h)
