-- ===== src/Plan/Fallback.antt =====
-- src/thread/features/plan/fallback.rs: the plan that the adapter keeps by itself, and its phases.
pub mod Statuses
pub mod Phases
use zed_codex_acp_cas.Common.{
  ℕ, zero, suc, ◌+◌, ◌-◌, ◌*◌, ◌/◌, Bool, true, false, not, ◌&&◌, ◌||◌, List, [], ◌∷◌, Option, none,
  some, ltb, leb, ◌==◌, if◌then◌else◌, length, take, map, max, is_empty,
}
use zed_codex_acp_cas.Common.Text.{Text, codes, text_eq}
use zed_codex_acp_cas.Thread.State.{
  ThreadInner, ModeKind, PlanEntry, PlanEntryStatus, pending, in_progress, completed,
  FallbackPlanState, FallbackPlanPhase, planning, implementing, verifying, summarizing, done,
  SessionUpdate, plan_update, is_plan, send_notification,
}

abbrev pub max_visible_plan_entries : ℕ
max_visible_plan_entries = 6

-- The order of the phases, by the numbers of the enum.
abbrev pub rank : FallbackPlanPhase → ℕ
rank planning = 0
rank implementing = 1
rank verifying = 2
rank summarizing = 3
rank done = 4

abbrev pub is_some {ℓ} : {A : Type ℓ} → Option A → Bool
is_some none = false
is_some (some a) = true

unfoldable pub should_clear_visible_plan_for_mode_change : ModeKind → ModeKind → Bool → Bool
should_clear_visible_plan_for_mode_change current_mode next_mode has_visible_plan_state =
    not (is_plan next_mode) && (is_plan current_mode || has_visible_plan_state)

unfoldable pub has_visible_plan_state : ThreadInner → Bool
has_visible_plan_state inner =
    is_some inner.fallback_plan
    || not (is_empty inner.last_plan_steps)
    || is_some inner.carryover_plan_steps

unfoldable pub limit_plan_entries : List PlanEntry → List PlanEntry
limit_plan_entries entries =
    if ltb max_visible_plan_entries (length entries)
    then take max_visible_plan_entries entries
    else entries

unfoldable pub clear_plan_output : ThreadInner → ThreadInner
clear_plan_output inner = send_notification (record inner { last_plan_steps = [] }) (plan_update [])

unfoldable pub clear_visible_plan_state : ThreadInner → ThreadInner
unfolding clear_plan_output
clear_visible_plan_state inner =
    clear_plan_output (record inner { fallback_plan = none; carryover_plan_steps = none })

-- `in_progress_step_index`.
unfoldable pub in_progress_step_index : FallbackPlanPhase → ℕ → Option ℕ
in_progress_step_index phase zero = none
in_progress_step_index done (suc n) = none
in_progress_step_index phase (suc zero) = some 0
in_progress_step_index planning (suc (suc n)) = some 0
in_progress_step_index implementing (suc (suc n)) = some (max (suc n * 1 / 3) 1)
in_progress_step_index verifying (suc (suc n)) = some (max (suc n * 2 / 3) 1)
in_progress_step_index summarizing (suc (suc n)) = some (suc n)

abbrev pub status_by_target : Option ℕ → ℕ → PlanEntryStatus
status_by_target none index = pending
status_by_target (some target) index =
    if ltb index target then completed else if index == target then in_progress else pending

-- `status_for_step`.
unfoldable pub status_for_step : FallbackPlanPhase → ℕ → ℕ → PlanEntryStatus
unfolding in_progress_step_index
status_for_step done index step_count = completed
status_for_step phase index step_count =
    status_by_target (in_progress_step_index phase step_count) index

abbrev pub default_steps : List Text
default_steps =
    codes "Decide implementation scope and approach"
    ∷ codes "Apply code changes"
    ∷ codes "Run checks and verification"
    ∷ codes "Review and summarize results"
    ∷ []

-- The `map` over the enumerated labels, from `index` on.
unfoldable pub entries_from : FallbackPlanPhase → ℕ → ℕ → List Text → List PlanEntry
unfolding status_for_step
entries_from phase step_count index [] = []
entries_from phase step_count index (label ∷ labels) =
    record { content = label; status = status_for_step phase index step_count }
    ∷ entries_from phase step_count (index + 1) labels

abbrev pub labels_of : List Text → List Text
labels_of [] = default_steps
labels_of (s ∷ ss) = s ∷ ss

unfoldable pub fallback_plan_entries_for_steps : FallbackPlanPhase → List Text → List PlanEntry
unfolding entries_from
fallback_plan_entries_for_steps phase steps =
    entries_from phase (length (labels_of steps)) 0 (labels_of steps)

-- `entries.iter().map(|entry| entry.content.clone()).collect()`.
abbrev pub contents : List PlanEntry → List Text
contents [] = []
contents (e ∷ es) = e.content ∷ contents es

-- The sequence that ends in sending a plan: the steps are remembered, all of them, and at most
-- `max_visible_plan_entries` are sent.
unfoldable pub send_plan : ThreadInner → List PlanEntry → ThreadInner
unfolding limit_plan_entries
send_plan inner entries =
    send_notification (record inner { last_plan_steps = contents entries })
      (plan_update (limit_plan_entries entries))

-- The turn starts with the steps that an earlier turn has left, if there are any.
abbrev pub start_fallback : ThreadInner → Text → List Text → ThreadInner
start_fallback inner turn_id [] = clear_plan_output (record inner { fallback_plan = none })
start_fallback inner turn_id (s ∷ ss) =
    send_notification
      (record inner {
        fallback_plan = some (record {
          turn_id = turn_id;
          phase = planning;
          saw_tool_activity = false;
          steps = s ∷ ss;
        });
        last_plan_steps = s ∷ ss;
      })
      (plan_update (limit_plan_entries (fallback_plan_entries_for_steps planning (s ∷ ss))))

abbrev pub taken_steps : Option (List Text) → List Text
taken_steps none = []
taken_steps (some steps) = steps

-- `carryover_plan_steps.take()` happens in any mode but `Plan`.
unfoldable pub initialize_fallback_plan_for_turn : ThreadInner → Text → ModeKind → ThreadInner
unfolding clear_plan_output
initialize_fallback_plan_for_turn inner turn_id collaboration_mode_kind =
    if is_plan collaboration_mode_kind
    then clear_plan_output (record inner { fallback_plan = none })
    else start_fallback (record inner { carryover_plan_steps = none }) turn_id
        (taken_steps inner.carryover_plan_steps)

unfoldable pub fallback_plan_should_advance : FallbackPlanState → FallbackPlanPhase → Bool
fallback_plan_should_advance state next_phase = not (leb (rank next_phase) (rank state.phase))

-- The phases that count as tool activity.
abbrev pub is_tool_phase : FallbackPlanPhase → Bool
is_tool_phase planning = false
is_tool_phase implementing = true
is_tool_phase verifying = true
is_tool_phase summarizing = true
is_tool_phase done = false

-- The body of the `if let` in `maybe_advance_fallback_plan`, and the send behind it.
unfoldable pub advance : ThreadInner → FallbackPlanState → FallbackPlanPhase → ThreadInner
unfolding fallback_plan_should_advance
advance inner state next_phase =
    let touched : FallbackPlanState = record state {
      saw_tool_activity = if is_tool_phase next_phase then true else state.saw_tool_activity;
    } in
    if not (fallback_plan_should_advance touched next_phase)
    then record inner { fallback_plan = some touched }
    else send_plan (record inner { fallback_plan = some (record touched { phase = next_phase }) })
        (fallback_plan_entries_for_steps next_phase state.steps)

abbrev pub advance_current :
    Option FallbackPlanState → ThreadInner → Text → FallbackPlanPhase → ThreadInner
advance_current none inner turn_id next_phase = inner
advance_current (some state) inner turn_id next_phase =
    if text_eq state.turn_id turn_id then advance inner state next_phase else inner

unfoldable pub maybe_advance_fallback_plan : ThreadInner → Text → FallbackPlanPhase → ThreadInner
unfolding advance
maybe_advance_fallback_plan inner turn_id next_phase =
    advance_current inner.fallback_plan inner turn_id next_phase

abbrev pub may_summarize : Option FallbackPlanState → Text → Bool
may_summarize none turn_id = false
may_summarize (some state) turn_id =
    text_eq state.turn_id turn_id
    && state.saw_tool_activity
    && ltb (rank state.phase) (rank summarizing)

unfoldable pub fallback_plan_can_enter_summarizing : Option FallbackPlanState → Text → Bool → Bool
fallback_plan_can_enter_summarizing state turn_id has_active_tool_calls =
    if has_active_tool_calls then false else may_summarize state turn_id
