-- ===== src/Scenarios/Plans.antt =====
-- A message with a plan, and the plan that stands in for a missing one.
use zed_codex_acp_cas.Common.{
  none, ℕ, ◌≤◌, ◌+◌, true, false, List, [], ◌∷◌, ◌++◌, map, some, ◌≡◌, refl, ◌↔◌, arith, length,
  any, is_empty, leb, ◌&&◌, if◌then◌else◌,
}
use zed_codex_acp_cas.Common.Text.{Text, codes, lines, strip_prefix, trim}
use zed_codex_acp_cas.Thread.State.{
  PlanEntry, pending, in_progress, completed, FallbackPlanPhase, planning, implementing, verifying,
  done,
}
use zed_codex_acp_cas.Plan.Line.{bullet, checkbox, parse_plan_entry_from_line, strip_any}
use zed_codex_acp_cas.Plan.Parse.{plan_from_text}
use zed_codex_acp_cas.Plan.Line.Contents.{mark_of, parse_line-mark}
use zed_codex_acp_cas.Plan.Parse.Reference.{entries_of, announces, classes, plan_from_text_iff}
use zed_codex_acp_cas.Plan.Fallback.{status_for_step, fallback_plan_entries_for_steps}
use zed_codex_acp_cas.Plan.Fallback.Statuses.{
  statuses, IsUnderWay, status_rank, fallback-IsUnderWay, status_for_step_mono,
}
use zed_codex_acp_cas.Plan.Fallback.Phases.{Advanced, advance_all, advance_all_lem}
use zed_codex_acp_cas.Events.ShownPlan.{IsShown}
use zed_codex_acp_cas.Events.Items.{command_execution}
use zed_codex_acp_cas.TurnLoop as TurnLoop
use zed_codex_acp_cas.Events.Notifications.{
  Notification, agent_message_delta, turn_plan_updated, plan_item_completed, item_started,
  turn_completed, notify_all, notify_all-IsShown,
}
use zed_codex_acp_cas.Scenarios.Turns.{fresh}

abbrev lower_char : ℕ → ℕ
lower_char c = if leb b'A' c && leb c b'Z' then c + 32 else c

abbrev to_lowercase : Text → Text
to_lowercase = map lower_char

abbrev message : Text
message = codes "Plan:\n- [ ] a\n- [x] b\n"

abbrev entries : List PlanEntry
entries =
    record { content = codes "a"; status = pending }
    ∷ record { content = codes "b"; status = completed }
    ∷ []

plan_from_text_iff_example : (plan_from_text to_lowercase message ≡ some entries) ↔ (
    (entries ≡ entries_of (classes to_lowercase (lines message)))
    × (is_empty entries ≡ false)
    × (any announces (classes to_lowercase (lines message)) ≡ true))
plan_from_text_iff_example = plan_from_text_iff to_lowercase message entries

step_is_trimmed : trim (codes "run it") ≡ codes "run it"
unfolding trim
step_is_trimmed = refl

parse_line-mark_example :
    parse_plan_entry_from_line (mark_of in_progress ++ codes "run it")
    ≡ some (record { content = codes "run it"; status = in_progress }, checkbox)
parse_line-mark_example =
    parse_line-mark in_progress (codes "run it") step_is_trimmed (λ e. ground (arith, e))

-- A checkbox with nothing behind it is taken for a step with the text of the box.
empty_checkbox :
    parse_plan_entry_from_line (codes "- [x]")
    ≡ some (record { content = codes "[x]"; status = pending }, bullet)
unfolding parse_plan_entry_from_line strip_any strip_prefix trim
empty_checkbox = refl

abbrev steps : List Text
steps = codes "read" ∷ codes "write" ∷ codes "test" ∷ []

fallback-IsUnderWay_example :
    IsUnderWay (statuses (fallback_plan_entries_for_steps implementing steps))
fallback-IsUnderWay_example = fallback-IsUnderWay implementing steps (λ e. ground (arith, e))

status_for_step_mono_example :
    status_rank (status_for_step planning 1 3) ≤ status_rank (status_for_step verifying 1 3)
status_for_step_mono_example = status_for_step_mono planning verifying 3 1 (omega arith)

abbrev requests : List (Text × FallbackPlanPhase)
requests = (codes "t", implementing) ∷ (codes "t", planning) ∷ (codes "u", done) ∷ []

advance_all_lem_example :
    Advanced fresh (advance_all fresh requests)
    × (length (advance_all fresh requests).sent ≤ length fresh.sent + 4)
advance_all_lem_example = advance_all_lem requests fresh

abbrev notifications : List (ℕ × Notification)
notifications =
    (1, turn_plan_updated (codes "t") entries)
    ∷ (2, agent_message_delta (codes "t") (codes "Done."))
    ∷ (3, plan_item_completed (codes "u") message)
    ∷ (4, item_started (codes "t") (command_execution (codes "Cargo Test")))
    ∷ (
      5,
      turn_completed (record { id = codes "t"; status = TurnLoop.completed; error_message = none }),
    )
    ∷ []

notify_all-IsShown_example : IsShown (notify_all to_lowercase (codes "t") fresh notifications)
notify_all-IsShown_example = notify_all-IsShown to_lowercase (codes "t") notifications fresh refl
