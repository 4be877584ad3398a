-- ===== src/Thread/Reconnect/Notices.antt =====
-- The user is told at most once that a turn hangs, until the turn moves again.
use zed_codex_acp_cas.Common.{
  ℕ, ◌+◌, ◌≤◌, true, List, [], ◌∷◌, ◌≡◌, refl, arith, length, length-snoc, ◌∙◌, ◌⊎◌, inl, inr,
}
use zed_codex_acp_cas.Thread.State.{ThreadInner}
use zed_codex_acp_cas.Thread.Reconnect.{note_reconnect_progress, maybe_report_turn_stall}

-- What happens to a turn that hangs: the backend reports an attempt, or the turn loop polls.
pub data Event : Type 0 where
  attempt : ℕ → ℕ → ℕ → Event
  poll : ℕ → Event

abbrev pub step : ThreadInner → Event → ThreadInner
step inner (attempt now current total) = (note_reconnect_progress now inner current total).0
step inner (poll now) = maybe_report_turn_stall now inner

abbrev pub run : ThreadInner → List Event → ThreadInner
run inner [] = inner
run inner (e ∷ es) = run (step inner e) es

step-told :
    (inner : ThreadInner) (e : Event)
    → inner.turn_reconnect_stall_notice_sent ≡ true
    → ((step inner e).turn_reconnect_stall_notice_sent ≡ true)
      × (length (step inner e).sent ≡ length inner.sent)
unfolding note_reconnect_progress maybe_report_turn_stall
step-told inner (attempt now c t) h = ground arith
step-told inner (poll now) h = ground arith

step-untold :
    (inner : ThreadInner) (e : Event)
    → (length (step inner e).sent ≡ length inner.sent)
      ⊎ ((length (step inner e).sent ≡ length inner.sent + 1)
          × ((step inner e).turn_reconnect_stall_notice_sent ≡ true))
unfolding note_reconnect_progress maybe_report_turn_stall
step-untold inner (attempt now c t) = inl refl
step-untold inner (poll now) = grind (arith, length-snoc)

run-silent :
    (es : List Event) (inner : ThreadInner)
    → inner.turn_reconnect_stall_notice_sent ≡ true
    → length (run inner es).sent ≡ length inner.sent
run-silent [] inner h = refl
run-silent (e ∷ es) inner h =
    let (told, same) = step-told inner e h in run-silent es (step inner e) told ∙ same

-- While a turn only reports reconnect attempts and is polled, in any order and at any times, the
-- client is sent at most one stall notice.
pub stall_notice_once :
    (es : List Event) (inner : ThreadInner) → length (run inner es).sent ≤ length inner.sent + 1
stall_notice_once [] inner = omega arith
stall_notice_once (e ∷ es) inner = elim (step-untold inner e) [
  | inl same ↦ omega (arith, stall_notice_once es (step inner e))
  | inr (one, told) ↦ omega (arith, run-silent es (step inner e) told)
]
