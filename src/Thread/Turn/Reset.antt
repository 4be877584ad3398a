-- ===== src/Thread/Turn/Reset.antt =====
-- A new turn starts from nothing that the turn before it left behind.
use zed_codex_acp_cas.Common.{List, [], ◌∷◌, ◌≡◌, refl, ◌∙◌, ap, arith, ℕ, Option, none, some}
use zed_codex_acp_cas.Common.Text.{Text}
use zed_codex_acp_cas.Thread.State.{
  ThreadInner, ModeKind, SessionUpdate, FallbackPlanPhase, FallbackPlanState,
}
use zed_codex_acp_cas.Thread.Turn.{reset_turn_transient_state, prepare_for_new_turn}
use zed_codex_acp_cas.Thread.Reconnect.{note_reconnect_progress, maybe_report_turn_stall}
use zed_codex_acp_cas.Thread.Reconnect.Notices.{Event, attempt, poll, step, run}
use zed_codex_acp_cas.Plan.Fallback.{
  advance, advance_current, maybe_advance_fallback_plan, send_plan,
}
use zed_codex_acp_cas.Plan.Fallback.Phases.{advance_all}

abbrev pub with_sent : ThreadInner → List SessionUpdate → ThreadInner
with_sent inner updates = record inner { sent = updates }

module _ (now : ℕ) (turn_id : Text) (mode : ModeKind) where
  abbrev begun : ThreadInner → ThreadInner
  begun inner = prepare_for_new_turn now inner turn_id mode

  step-begun :
      (inner : ThreadInner) (e : Event)
      → begun (step inner e) ≡ with_sent (begun inner) (step inner e).sent
  unfolding prepare_for_new_turn reset_turn_transient_state note_reconnect_progress
      maybe_report_turn_stall
  step-begun inner (attempt at c t) = ground arith
  step-begun inner (poll at) = ground arith

  run-begun :
      (es : List Event) (inner : ThreadInner)
      → begun (run inner es) ≡ with_sent (begun inner) (run inner es).sent
  run-begun [] inner = unfold prepare_for_new_turn reset_turn_transient_state in refl
  run-begun (e ∷ es) inner =
      run-begun es (step inner e)
      ∙ ap (λ (b : ThreadInner). with_sent b (run inner (e ∷ es)).sent) (step-begun inner e)

  advance_current-begun :
      (current : Option FallbackPlanState) (inner : ThreadInner) (id : Text)
      (next : FallbackPlanPhase)
      → begun (advance_current current inner id next)
        ≡ with_sent (begun inner) (advance_current current inner id next).sent
  unfolding prepare_for_new_turn reset_turn_transient_state advance send_plan
  advance_current-begun none inner id next = refl
  advance_current-begun (some state) inner id next = ground arith

  advance_all-begun :
      (rs : List (Text × FallbackPlanPhase)) (inner : ThreadInner)
      → begun (advance_all inner rs) ≡ with_sent (begun inner) (advance_all inner rs).sent
  unfolding maybe_advance_fallback_plan
  advance_all-begun [] inner = unfold prepare_for_new_turn reset_turn_transient_state in refl
  advance_all-begun ((id, next) ∷ rs) inner =
      advance_all-begun rs (maybe_advance_fallback_plan inner id next)
      ∙ ap (λ (b : ThreadInner). with_sent b (advance_all inner ((id, next) ∷ rs)).sent)
          (advance_current-begun inner.fallback_plan inner id next)

  -- A turn begins in the same state whatever plan phases, reconnect attempts and polls the turn
  -- before it went through: only what the client was sent stays.
  pub new_turn_forgets :
      (rs : List (Text × FallbackPlanPhase)) (es : List Event) (inner : ThreadInner)
      → prepare_for_new_turn now (run (advance_all inner rs) es) turn_id mode
        ≡ with_sent
            (prepare_for_new_turn now inner turn_id mode)
            (run (advance_all inner rs) es).sent
  new_turn_forgets rs es inner =
      run-begun es (advance_all inner rs)
      ∙ ap (λ (b : ThreadInner). with_sent b (run (advance_all inner rs) es).sent)
          (advance_all-begun rs inner)
