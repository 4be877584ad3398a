-- ===== src/Events/ShownPlan.antt =====
-- The plan that the client shows is the one that the session goes by.
use zed_codex_acp_cas.Common.{
  ℕ, zero, suc, Bool, true, false, not, ◌&&◌, List, [], ◌∷◌, ◌++◌, Option, none, some, ◌≡◌, refl,
  ap, ◌∙◌, if◌then◌else◌, is_empty, take,
}
use zed_codex_acp_cas.Common.Text.{Text, codes, text_eq, trim}
use zed_codex_acp_cas.Common.Sets.{member, insert}
use zed_codex_acp_cas.Thread.State.{
  ThreadInner, PlanEntry, FallbackPlanState, FallbackPlanPhase, summarizing, is_some_plan,
  SessionUpdate, plan_update, agent_message_chunk, agent_thought_chunk, tool_call_content,
  terminal_output, send_notification, send_agent_text, send_agent_thought,
}
use zed_codex_acp_cas.Thread.Reconnect.{mark_turn_progress, note_reconnect_progress}
use zed_codex_acp_cas.Plan.Fallback.{
  send_plan, contents, limit_plan_entries, fallback_plan_should_advance, is_tool_phase, advance,
  advance_current, maybe_advance_fallback_plan, fallback_plan_can_enter_summarizing,
}
use zed_codex_acp_cas.Plan.Fallback.Phases.{limit_plan_entries_lem}
use zed_codex_acp_cas.Plan.Parse.{plan_entries_all_pending}
use zed_codex_acp_cas.Events.{
  mark_text_progress, report_reconnect, show_delta, take_delta, handle_command_output_delta,
  handle_terminal_interaction, send_turn_error, take_error, format_reconnect_status,
}
use zed_codex_acp_cas.Events.PlanUpdates.{emit_turn_plan_updated, show_plan_item}

-- What is shown after an update where these entries were shown before.
abbrev pub shown_after : List PlanEntry → SessionUpdate → List PlanEntry
shown_after shown (plan_update entries) = entries
shown_after shown (agent_message_chunk t) = shown
shown_after shown (agent_thought_chunk t) = shown
shown_after shown (tool_call_content id t) = shown
shown_after shown (terminal_output id t) = shown

-- The plan that the client shows after these updates.
abbrev pub shown_plan : List PlanEntry → List SessionUpdate → List PlanEntry
shown_plan shown [] = shown
shown_plan shown (u ∷ us) = shown_plan (shown_after shown u) us

-- The client shows the first six steps of the session's plan.
abbrev pub IsShown : ThreadInner → Type 0
IsShown inner = contents (shown_plan [] inner.sent) ≡ take 6 inner.last_plan_steps

shown_plan-snoc :
    (shown : List PlanEntry) (us : List SessionUpdate) (u : SessionUpdate)
    → shown_plan shown (us ++ u ∷ []) ≡ shown_after (shown_plan shown us) u
shown_plan-snoc shown [] u = refl
shown_plan-snoc shown (x ∷ xs) u = shown_plan-snoc (shown_after shown x) xs u

contents-take : (n : ℕ) (es : List PlanEntry) → contents (take n es) ≡ take n (contents es)
contents-take zero es = refl
contents-take (suc n) [] = refl
contents-take (suc n) (e ∷ es) = ap (◌∷◌ e.content) (contents-take n es)

pub send_plan-IsShown :
    (inner : ThreadInner) (entries : List PlanEntry) → IsShown (send_plan inner entries)
unfolding send_plan
send_plan-IsShown inner entries =
    ap contents (shown_plan-snoc [] inner.sent (plan_update (limit_plan_entries entries)))
    ∙ ap contents (limit_plan_entries_lem entries).1
    ∙ contents-take 6 entries

-- An update that is no plan leaves the shown plan.
pub send-IsShown :
    (inner : ThreadInner) (u : SessionUpdate)
    → ((shown : List PlanEntry) → shown_after shown u ≡ shown)
    → IsShown inner
    → IsShown (send_notification inner u)
send-IsShown inner u quiet h =
    ap contents (shown_plan-snoc [] inner.sent u ∙ quiet (shown_plan [] inner.sent)) ∙ h

-- Both ways of a test.
pub if-IsShown :
    (b : Bool) (x y : ThreadInner) → IsShown x → IsShown y → IsShown (if b then x else y)
if-IsShown true x y hx hy = hx
if-IsShown false x y hx hy = hy

pub send_agent_text-IsShown :
    (inner : ThreadInner) (t : Text) → IsShown inner → IsShown (send_agent_text inner t)
send_agent_text-IsShown inner t h =
    if-IsShown inner.suppress_text_output _ _ h
      (send-IsShown inner (agent_message_chunk t) (λ s. refl) h)

pub send_agent_thought-IsShown :
    (inner : ThreadInner) (t : Text) → IsShown inner → IsShown (send_agent_thought inner t)
send_agent_thought-IsShown inner t h =
    if-IsShown inner.suppress_text_output _ _ h
      (send-IsShown inner (agent_thought_chunk t) (λ s. refl) h)

module _ (now : ℕ) where
  pub mark_turn_progress-IsShown :
      (inner : ThreadInner) → IsShown inner → IsShown (mark_turn_progress now inner)
  unfolding mark_turn_progress
  mark_turn_progress-IsShown inner h = h

  pub mark_text_progress-IsShown :
      (inner : ThreadInner) (t : Text) → IsShown inner → IsShown (mark_text_progress now inner t)
  mark_text_progress-IsShown inner t h =
      if-IsShown (is_empty (trim t)) _ _ h (mark_turn_progress-IsShown inner h)

  pub report_reconnect-IsShown :
      (inner : ThreadInner) (c t : ℕ) → IsShown inner → IsShown (report_reconnect now inner c t)
  unfolding report_reconnect note_reconnect_progress
  report_reconnect-IsShown inner c t h =
      let noted = (note_reconnect_progress now inner c t).0 in
      if-IsShown (note_reconnect_progress now inner c t).1 _ _
        (send_agent_text-IsShown noted (format_reconnect_status c t) h) h

  pub advance-IsShown :
      (inner : ThreadInner) (id : Text) (next : FallbackPlanPhase)
      (current : Option FallbackPlanState)
      → IsShown inner
      → IsShown (advance_current current inner id next)
  unfolding advance
  advance-IsShown inner id next none h = h
  advance-IsShown inner id next (some state) h =
      if-IsShown (text_eq state.turn_id id) _ _
        (if-IsShown
          (not (
            fallback_plan_should_advance
              (record state {
                saw_tool_activity = if is_tool_phase next then true else state.saw_tool_activity;
              })
              next))
          _ _ h (send_plan-IsShown _ _))
        h

  pub show_delta-IsShown :
      (inner : ThreadInner) (id delta : Text)
      → IsShown inner
      → IsShown (show_delta now inner id delta)
  unfolding show_delta maybe_advance_fallback_plan
  show_delta-IsShown inner id delta h = send_agent_text-IsShown _ delta (
      mark_text_progress-IsShown _ delta (
        if-IsShown
          (not (is_empty (trim delta))
            && fallback_plan_can_enter_summarizing inner.fallback_plan id
                (not (is_empty inner.started_tool_calls)))
          _ _ (advance-IsShown inner id summarizing inner.fallback_plan h) h))

  pub take_delta-IsShown :
      (inner : ThreadInner) (id delta : Text) (progress : Option (ℕ × ℕ))
      → IsShown inner
      → IsShown (take_delta now inner id delta progress)
  take_delta-IsShown inner id delta none h = show_delta-IsShown inner id delta h
  take_delta-IsShown inner id delta (some (c, t)) h = report_reconnect-IsShown inner c t h

  pub send_turn_error-IsShown :
      (inner : ThreadInner) (shown : Option Text)
      → IsShown inner
      → IsShown (send_turn_error inner shown)
  send_turn_error-IsShown inner none h = h
  send_turn_error-IsShown inner (some m) h = send_agent_text-IsShown inner _ h

  pub take_error-IsShown :
      (inner : ThreadInner) (id m : Text) (progress : Option (ℕ × ℕ))
      → IsShown inner
      → IsShown (take_error now inner id m progress)
  take_error-IsShown inner id m (some (c, t)) h = report_reconnect-IsShown inner c t h
  take_error-IsShown inner id m none h =
      if-IsShown (is_empty (trim m)) _ _ h
        (send_turn_error-IsShown _ _ (mark_turn_progress-IsShown inner h))

  pub command_output-IsShown :
      (inner : ThreadInner) (item delta : Text)
      → IsShown inner
      → IsShown (handle_command_output_delta now inner item delta)
  command_output-IsShown inner item delta h =
      let m = mark_text_progress now inner delta in
      let marked = mark_text_progress-IsShown inner delta h in
      if-IsShown (not (member item inner.started_tool_calls)) _ _ h (
        if-IsShown (not (member item inner.terminal_tool_call_ids)) _ _
          (send-IsShown m (tool_call_content item delta) (λ s. refl) marked)
          (send-IsShown
            (if is_empty delta then m else record m {
              terminal_tool_call_output_seen = insert item m.terminal_tool_call_output_seen;
            })
            (terminal_output item delta) (λ s. refl)
            (if-IsShown (is_empty delta) _ _ marked marked)))

  pub terminal_interaction-IsShown :
      (inner : ThreadInner) (item stdin : Text)
      → IsShown inner
      → IsShown (handle_terminal_interaction now inner item stdin)
  terminal_interaction-IsShown inner item stdin h =
      let marked = mark_text_progress-IsShown inner stdin h in
      if-IsShown (not (member item inner.started_tool_calls)) _ _ h (
        if-IsShown (member item inner.terminal_tool_call_ids) _ _
          (send-IsShown (mark_text_progress now inner stdin)
            (terminal_output item (codes "\n" ++ (stdin ++ codes "\n"))) (λ s. refl) marked)
          marked)

  pub turn_plan-IsShown :
      (inner : ThreadInner) (expected id : Text) (entries : List PlanEntry)
      → IsShown inner
      → IsShown (emit_turn_plan_updated now inner expected id entries)
  turn_plan-IsShown inner expected id entries h = if-IsShown (not (text_eq id expected)) _ _ h (
      if-IsShown (is_some_plan inner.active_turn_mode_kind) _ _ (mark_turn_progress-IsShown inner h)
        (if-IsShown (plan_entries_all_pending entries) _ _ (send_plan-IsShown _ _)
          (send_plan-IsShown _ _)))

pub show_plan_item-IsShown :
    (inner : ThreadInner) (active own : Bool) (id text : Text) (parsed : Option (List PlanEntry))
    → IsShown inner
    → IsShown (show_plan_item inner active own id text parsed)
show_plan_item-IsShown inner active own id text none h = if-IsShown (is_empty text) _ _ h (
    if-IsShown active _ _
      (if-IsShown inner.active_turn_saw_plan_delta _ _ h (send_agent_text-IsShown inner text h))
      (send_agent_thought-IsShown inner text h))
show_plan_item-IsShown inner active own id text (some entries) h =
    if-IsShown active _ _ (send_plan-IsShown _ _) (send_plan-IsShown _ _)
