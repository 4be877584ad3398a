-- ===== src/Events/EndedPlan.antt =====
-- The start of items and the end of a turn keep the plan that is shown.
use zed_codex_acp_cas.Common.{ℕ, Option, none, some, is_empty, inl, inr, Bool-cases}
use zed_codex_acp_cas.Common.Text.{Text}
use zed_codex_acp_cas.Common.Sets.{remove}
use zed_codex_acp_cas.Thread.State.{ThreadInner, FallbackPlanPhase, implementing, verifying, done}
use zed_codex_acp_cas.Thread.Turn.{
  TurnCompletionDisposition, accepted, duplicate, unexpected_turn_id, record_turn_error_notice,
  register_turn_completion,
}
use zed_codex_acp_cas.Thread.Reconnect.{mark_turn_progress}
use zed_codex_acp_cas.Plan.Fallback.{maybe_advance_fallback_plan}
use zed_codex_acp_cas.TurnDiff.{finalized, parse_turn_unified_diff_files, record_turn_diff}
use zed_codex_acp_cas.TurnLoop.{
  CompletedTurn, failure_of, tell_failure, report_failure, accept_completion, complete,
  on_completion,
}
use zed_codex_acp_cas.Events.Items.{
  ThreadItem, command_execution, file_change, mcp_tool_call, collab_agent_tool_call, web_search,
  image_view, image_generation, other_item, command_looks_like_verification,
  maybe_advance_fallback_for_started_item, should_handle_turn_item, advance_for_item,
}
use zed_codex_acp_cas.Events.PlanUpdates.{drop_plan_of_turn}
use zed_codex_acp_cas.Events.ShownPlan.{
  IsShown, if-IsShown, advance-IsShown, mark_turn_progress-IsShown, send_agent_text-IsShown,
}

maybe_advance-IsShown :
    (inner : ThreadInner) (id : Text) (next : FallbackPlanPhase)
    → IsShown inner
    → IsShown (maybe_advance_fallback_plan inner id next)
unfolding maybe_advance_fallback_plan
maybe_advance-IsShown inner id next h = advance-IsShown 0 inner id next inner.fallback_plan h

started_item-IsShown :
    (inner : ThreadInner) (id : Text) (item : ThreadItem)
    → IsShown inner
    → IsShown (maybe_advance_fallback_for_started_item inner id item)
unfolding maybe_advance_fallback_for_started_item
started_item-IsShown inner id (command_execution command) h =
    let started = maybe_advance-IsShown inner id implementing h in
    if-IsShown (command_looks_like_verification command) _ _
      (maybe_advance-IsShown _ id verifying started) started
started_item-IsShown inner id file_change h = maybe_advance-IsShown inner id implementing h
started_item-IsShown inner id mcp_tool_call h = maybe_advance-IsShown inner id implementing h
started_item-IsShown inner id collab_agent_tool_call h =
    maybe_advance-IsShown inner id implementing h
started_item-IsShown inner id web_search h = maybe_advance-IsShown inner id implementing h
started_item-IsShown inner id image_view h = maybe_advance-IsShown inner id implementing h
started_item-IsShown inner id image_generation h = maybe_advance-IsShown inner id implementing h
started_item-IsShown inner id other_item h = h

pub advance_for_item-IsShown :
    (inner : ThreadInner) (expected id : Text) (item : ThreadItem)
    → IsShown inner
    → IsShown (advance_for_item inner expected id item)
unfolding advance_for_item
advance_for_item-IsShown inner expected id item h =
    if-IsShown (should_handle_turn_item expected id) _ _ (started_item-IsShown inner id item h) h

finalized-IsShown :
    (now : ℕ) (inner : ThreadInner) (id : Text) (diff : Option Text)
    → IsShown inner
    → IsShown (finalized now inner id diff).0
unfolding record_turn_diff
finalized-IsShown now inner id none h = h
finalized-IsShown now inner id (some diff) h =
    elim (Bool-cases (is_empty (parse_turn_unified_diff_files diff))) [
      | inl y ↦ rw y h
      | inr n ↦ rw n h
    ]

tell_failure-IsShown :
    (inner : ThreadInner) (o : Option Text) → IsShown inner → IsShown (tell_failure inner o)
tell_failure-IsShown inner none h = h
tell_failure-IsShown inner (some m) h = send_agent_text-IsShown inner _ h

report_failure-IsShown :
    (inner : ThreadInner) (id : Text) (o : Option Text)
    → IsShown inner
    → IsShown (report_failure inner id o)
unfolding report_failure
report_failure-IsShown inner id none h = h
report_failure-IsShown inner id (some m) h =
    tell_failure-IsShown
      (record inner {
        last_turn_error_notice = (record_turn_error_notice inner.last_turn_error_notice id m).0;
      })
      (record_turn_error_notice inner.last_turn_error_notice id m).1 h

accept_completion-IsShown :
    (now : ℕ) (inner : ThreadInner) (id : Text) (turn : CompletedTurn)
    → IsShown inner
    → IsShown (accept_completion now inner id turn)
unfolding accept_completion
accept_completion-IsShown now inner id turn h =
    let progressed = mark_turn_progress now (maybe_advance_fallback_plan inner id done) in
    let cleared : ThreadInner = record progressed {
      fallback_plan = drop_plan_of_turn id progressed.fallback_plan;
      turn_plan_updates_seen = remove id progressed.turn_plan_updates_seen;
    } in
    report_failure-IsShown _ id (failure_of turn turn.status) (
      finalized-IsShown now cleared id cleared.latest_turn_diff (
        mark_turn_progress-IsShown now (maybe_advance_fallback_plan inner id done)
          (maybe_advance-IsShown inner id done h)))

complete-IsShown :
    (now : ℕ) (inner : ThreadInner) (id : Text) (turn : CompletedTurn)
    (d : TurnCompletionDisposition)
    → IsShown inner
    → IsShown (complete now inner id turn d).0
complete-IsShown now inner id turn accepted h = accept_completion-IsShown now inner id turn h
complete-IsShown now inner id turn duplicate h = h
complete-IsShown now inner id turn unexpected_turn_id h = h

pub on_completion-IsShown :
    (now : ℕ) (inner : ThreadInner) (id : Text) (turn : CompletedTurn)
    → IsShown inner
    → IsShown (on_completion now inner id turn).0
unfolding on_completion
on_completion-IsShown now inner id turn h =
    let registered = register_turn_completion inner.last_completed_turn_id id turn.id in
    complete-IsShown now (record inner { last_completed_turn_id = registered.0 }) id turn
      registered.1 h
