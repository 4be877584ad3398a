-- ===== src/Thread/Turn.antt =====
-- src/thread/core/inner_state.rs and src/thread/turn/state.rs: the state of a session from turn to
-- turn, and the completions and error notices of a turn.
pub mod Completion
pub mod Reset
use zed_codex_acp_cas.Common.{
  ℕ, Bool, true, false, not, ◌&&◌, List, [], ◌∷◌, Option, none, some, if◌then◌else◌, is_empty,
}
use zed_codex_acp_cas.Common.Text.{Text, text_eq, trim}
use zed_codex_acp_cas.Thread.State.{ThreadInner, ModeKind}

-- `ThreadInner::reset_turn_transient_state`.
unfoldable pub reset_turn_transient_state : ℕ → ThreadInner → ThreadInner
reset_turn_transient_state now inner = record inner {
  active_turn_id = none;
  active_turn_mode_kind = none;
  active_turn_saw_plan_item = false;
  active_turn_saw_plan_delta = false;
  started_tool_calls = [];
  terminal_tool_call_ids = [];
  terminal_tool_call_output_seen = [];
  last_completed_turn_id = none;
  last_turn_error_notice = none;
  turn_plan_updates_seen = [];
  fallback_plan = none;
  file_change_locations = [];
  file_change_started_changes = [];
  file_change_before_contents = [];
  latest_turn_diff = none;
  file_change_paths_this_turn = [];
  last_plan_steps = [];
  pending_thread_title_update = none;
  turn_last_progress_at = now;
  turn_reconnect_warning_count = 0;
  turn_reconnect_retry_limit_hit = false;
  turn_last_reconnect_progress = none;
  turn_reconnect_stall_notice_sent = false;
}

-- `ThreadInner::prepare_for_new_turn`; its warning is only logged.
unfoldable pub prepare_for_new_turn : ℕ → ThreadInner → Text → ModeKind → ThreadInner
unfolding reset_turn_transient_state
prepare_for_new_turn now inner turn_id collaboration_mode_kind =
    record (reset_turn_transient_state now inner) {
      active_turn_id = some turn_id;
      active_turn_mode_kind = some collaboration_mode_kind;
    }

-- `ThreadInner::finalize_active_turn`; it clears the active turn whatever its id is.
unfoldable pub finalize_active_turn : ThreadInner → Text → ThreadInner
finalize_active_turn inner turn_id = record inner {
  active_turn_id = none;
  active_turn_mode_kind = none;
}

pub data TurnCompletionDisposition : Type 0 where
  accepted duplicate unexpected_turn_id : TurnCompletionDisposition

-- `as_deref() == Some(id)`.
abbrev pub is_some_id : Option Text → Text → Bool
is_some_id none id = false
is_some_id (some x) id = text_eq x id

unfoldable pub register_turn_completion :
    Option Text → Text → Text → Option Text × TurnCompletionDisposition
register_turn_completion last_completed_turn_id expected_turn_id completed_turn_id =
    if not (text_eq completed_turn_id expected_turn_id)
    then (last_completed_turn_id, unexpected_turn_id)
    else if is_some_id last_completed_turn_id completed_turn_id
    then (last_completed_turn_id, duplicate)
    else (some completed_turn_id, accepted)

-- `is_some_and` of the last notice: the same turn and the same message.
abbrev pub is_same_notice : Option (Text × Text) → Text → Text → Bool
is_same_notice none turn_id message = false
is_same_notice (some (seen_turn_id, seen_message)) turn_id message =
    text_eq seen_turn_id turn_id && text_eq seen_message message

-- `record_turn_error_notice`: the new last notice, and the message if it is to be shown.
unfoldable pub record_turn_error_notice :
    Option (Text × Text) → Text → Text → Option (Text × Text) × Option Text
record_turn_error_notice last_notice turn_id raw_message =
    let message = trim raw_message in
    if is_empty message
    then (last_notice, none)
    else if is_same_notice last_notice turn_id message
    then (last_notice, none)
    else (some (turn_id, message), some message)
