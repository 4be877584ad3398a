-- ===== src/Events/PlanUpdates.antt =====
-- src/thread/features/plan/events.rs and `emit_turn_plan_updated` of
-- src/thread/features/notification/events/turn.rs: the plans that the backend sends.
use zed_codex_acp_cas.Common.{
  ℕ, Bool, true, false, not, ◌&&◌, ◌||◌, List, Option, none, some, if◌then◌else◌, is_empty,
}
use zed_codex_acp_cas.Common.Text.{Text, text_eq, trim}
use zed_codex_acp_cas.Common.Sets.{member, insert}
use zed_codex_acp_cas.Thread.State.{
  ThreadInner, PlanEntry, FallbackPlanState, FallbackPlanPhase, planning, implementing,
  is_some_plan, send_agent_text, send_agent_thought,
}
use zed_codex_acp_cas.Thread.Reconnect.{mark_turn_progress}
use zed_codex_acp_cas.Plan.Fallback.{send_plan, contents, fallback_plan_entries_for_steps}
use zed_codex_acp_cas.Plan.Parse.{
  plan_entries_all_pending, plan_from_text, plan_from_plan_item_text, promote_first_pending_step,
}

-- The fallback plan, if it is of this turn.
abbrev pub plan_of_turn : Text → Option FallbackPlanState → Option FallbackPlanState
plan_of_turn turn_id none = none
plan_of_turn turn_id (some state) = if text_eq state.turn_id turn_id then some state else none

abbrev pub phase_or : FallbackPlanPhase → Option FallbackPlanState → FallbackPlanPhase
phase_or phase none = phase
phase_or phase (some state) = state.phase

abbrev pub saw_activity : Option FallbackPlanState → Bool
saw_activity none = false
saw_activity (some state) = state.saw_tool_activity

-- `fallback_plan = None`, if it is of this turn.
abbrev pub drop_plan_of_turn : Text → Option FallbackPlanState → Option FallbackPlanState
drop_plan_of_turn turn_id none = none
drop_plan_of_turn turn_id (some state) = if text_eq state.turn_id turn_id then none else some state

-- A plan of steps of which none has begun becomes the fallback plan.
abbrev pub show_pending : ThreadInner → Text → List PlanEntry → ThreadInner
show_pending inner turn_id entries =
    let state = plan_of_turn turn_id inner.fallback_plan in
    let busy = not (is_empty inner.started_tool_calls) in
    let phase = phase_or (if busy then implementing else planning) state in
    let steps = contents entries in
    send_plan
      (record inner {
        fallback_plan = some (record {
          turn_id = turn_id;
          phase = phase;
          saw_tool_activity = saw_activity state || busy;
          steps = steps;
        });
      })
      (fallback_plan_entries_for_steps phase steps)

abbrev pub show_started : ThreadInner → Text → List PlanEntry → ThreadInner
show_started inner turn_id entries =
    send_plan (record inner { fallback_plan = drop_plan_of_turn turn_id inner.fallback_plan })
      entries

-- `emit_turn_plan_updated` of the turn itself outside plan mode; the steps are given as the
-- entries that `turn_plan_step_to_entry` makes of them.
abbrev pub show_turn_plan : ThreadInner → Text → List PlanEntry → ThreadInner
show_turn_plan inner turn_id entries =
    let seen : ThreadInner = record inner {
      turn_plan_updates_seen = insert turn_id inner.turn_plan_updates_seen;
      active_turn_saw_plan_item =
          if is_empty entries then inner.active_turn_saw_plan_item else true;
    } in
    if plan_entries_all_pending entries
    then show_pending seen turn_id entries
    else show_started seen turn_id entries

abbrev pub emit_turn_plan_updated : ℕ → ThreadInner → Text → Text → List PlanEntry → ThreadInner
emit_turn_plan_updated now inner expected_turn_id turn_id entries =
    if not (text_eq turn_id expected_turn_id)
    then inner
    else if is_some_plan inner.active_turn_mode_kind
    then mark_turn_progress now inner
    else show_turn_plan (mark_turn_progress now inner) turn_id entries

-- The plan item is no checklist: its text is shown.
abbrev pub show_plan_text : ThreadInner → Bool → Text → ThreadInner
show_plan_text inner is_active_plan_turn text =
    if is_empty text
    then inner
    else if is_active_plan_turn
    then (if inner.active_turn_saw_plan_delta then inner else send_agent_text inner text)
    else send_agent_thought inner text

abbrev pub show_plan_item :
    ThreadInner → Bool → Bool → Text → Text → Option (List PlanEntry) → ThreadInner
show_plan_item inner is_active_plan_turn is_own turn_id text none =
    show_plan_text inner is_active_plan_turn text
show_plan_item inner is_active_plan_turn is_own turn_id text (some entries) =
    let seen : ThreadInner = record inner {
      active_turn_saw_plan_item = if is_own then true else inner.active_turn_saw_plan_item;
    } in
    if is_active_plan_turn
    then send_plan (record seen { fallback_plan = none }) entries
    else send_plan
        (record seen {
          turn_plan_updates_seen = insert turn_id seen.turn_plan_updates_seen;
          fallback_plan = drop_plan_of_turn turn_id seen.fallback_plan;
        })
        (promote_first_pending_step entries)

module _ (to_lowercase : Text → Text) where
  abbrev pub emit_plan_item_completed : ThreadInner → Text → Text → Text → ThreadInner
  emit_plan_item_completed inner turn_id expected_turn_id text =
      let is_own = text_eq turn_id expected_turn_id in
      let is_active_plan_turn = is_some_plan inner.active_turn_mode_kind && is_own in
      let noted : ThreadInner = record inner {
        active_turn_saw_plan_item =
            if is_active_plan_turn && not (is_empty (trim text))
            then true
            else inner.active_turn_saw_plan_item;
      } in
      if member turn_id inner.turn_plan_updates_seen
      then record noted {
        active_turn_saw_plan_item = if is_own then true else noted.active_turn_saw_plan_item;
      }
      else show_plan_item noted is_active_plan_turn is_own turn_id text (
          if is_active_plan_turn
          then plan_from_plan_item_text to_lowercase text
          else plan_from_text to_lowercase text)
