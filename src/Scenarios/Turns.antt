-- ===== src/Scenarios/Turns.antt =====
-- A session with a turn under way.
use zed_codex_acp_cas.Common.{
  ◌≤◌, ◌+◌, false, List, [], ◌∷◌, none, some, ◌≡◌, refl, length, any, if◌then◌else◌,
}
use zed_codex_acp_cas.Common.Text.{Text, codes, text_eq}
use zed_codex_acp_cas.Thread.State.{ThreadInner, default, FallbackPlanPhase, planning, implementing}
use zed_codex_acp_cas.Thread.Turn.{prepare_for_new_turn}
use zed_codex_acp_cas.Thread.Turn.Completion.{
  count_accepted, dispositions, completion_once, notices, HasNoRepeat, notices-HasNoRepeat,
}
use zed_codex_acp_cas.Thread.Turn.Reset.{with_sent, new_turn_forgets}
use zed_codex_acp_cas.Thread.Reconnect.Notices.{Event, attempt, poll, run, stall_notice_once}
use zed_codex_acp_cas.Plan.Fallback.Phases.{advance_all}

abbrev pub fresh : ThreadInner
fresh = record {
  thread_id = codes "thread";
  suppress_text_output = false;
  sent = [];
  collaboration_mode_kind = default;
  active_turn_id = some (codes "t");
  active_turn_mode_kind = some default;
  active_turn_saw_plan_item = false;
  active_turn_saw_plan_delta = false;
  started_tool_calls = [];
  terminal_tool_call_ids = [];
  terminal_tool_call_output_seen = [];
  last_completed_turn_id = none;
  last_turn_error_notice = none;
  turn_plan_updates_seen = [];
  fallback_plan =
      some
        (record { turn_id = codes "t"; phase = planning; saw_tool_activity = false; steps = [] });
  file_change_locations = [];
  file_change_started_changes = [];
  file_change_before_contents = [];
  latest_turn_diff = none;
  turn_diff_history = [];
  file_change_paths_this_turn = [];
  last_plan_steps = [];
  carryover_plan_steps = none;
  pending_thread_title_update = none;
  turn_last_progress_at = 0;
  turn_reconnect_warning_count = 0;
  turn_reconnect_retry_limit_hit = false;
  turn_last_reconnect_progress = none;
  turn_reconnect_stall_notice_sent = false;
}

abbrev events : List Event
events = attempt 1 5 5 ∷ poll 20 ∷ poll 60 ∷ attempt 61 5 5 ∷ poll 90 ∷ []

stall_notice_once_example : length (run fresh events).sent ≤ length fresh.sent + 1
stall_notice_once_example = stall_notice_once events fresh

abbrev requests : List (Text × FallbackPlanPhase)
requests = (codes "t", implementing) ∷ []

new_turn_forgets_example :
    prepare_for_new_turn 100 (run (advance_all fresh requests) events) (codes "u") default
    ≡ with_sent
        (prepare_for_new_turn 100 fresh (codes "u") default)
        (run (advance_all fresh requests) events).sent
new_turn_forgets_example = new_turn_forgets 100 (codes "u") default requests events fresh

abbrev ids : List Text
ids = codes "s" ∷ codes "t" ∷ codes "t" ∷ []

completion_once_example :
    count_accepted (dispositions none (codes "t") ids)
    ≡ (if any (λ id. text_eq id (codes "t")) ids then 1 else 0)
completion_once_example = completion_once none (codes "t") ids refl

notices-HasNoRepeat_example :
    HasNoRepeat (notices none (codes "t") (codes "lost" ∷ codes " lost " ∷ codes "late" ∷ []))
notices-HasNoRepeat_example =
    notices-HasNoRepeat none (codes "t") (codes "lost" ∷ codes " lost " ∷ codes "late" ∷ [])
