-- ===== src/TurnLoop/Drain/Halting.antt =====
-- The drain halts, whatever comes and whatever the clock says.
use zed_codex_acp_cas.Common.{
  ℕ, zero, suc, ◌+◌, ◌*◌, ◌-◌, ◌≤◌, ◌<◌, Bool, true, false, not, ◌&&◌, ◌⊎◌, inl, inr, Option, ◌≡◌,
  refl, leb, if◌then◌else◌, arith, Option-cases,
}
use zed_codex_acp_cas.Common.Text.{is_some}
use zed_codex_acp_cas.Thread.State.{ThreadInner}
use zed_codex_acp_cas.TurnLoop.Drain.{
  DrainConfig, DrainMessage, Reception, quiet, broken, message, Poll, Drained, DrainResult,
  background_drain_may_receive, handle_drain_message, drain_loop,
}

-- The polls that may still come, with `left` messages still allowed and `idle` quiet polls.
abbrev pub polls_left : ℕ → ℕ → ℕ → ℕ
polls_left zero idle seen = 1
polls_left (suc left) idle seen = (idle + 1 - seen) + polls_left left idle 0

polls_left-start : (left idle : ℕ) → polls_left left idle 0 ≡ left * (idle + 1) + 1
polls_left-start zero idle = omega arith
polls_left-start (suc left) idle = omega (arith, polls_left-start left idle)

module _ {Notification : Type 0}
    (handle_notification : ThreadInner → Notification → Option ThreadInner) (config : DrainConfig)
    (polls : ℕ → Poll Notification) where
  if-is_some :
      (b : Bool) (x y : Option DrainResult)
      → is_some x ≡ true
      → (b ≡ false → is_some y ≡ true)
      → is_some (if b then x else y) ≡ true
  if-is_some true x y h k = h
  if-is_some false x y h k = k refl

  reception_cases :
      (r : Reception Notification)
      → (r ≡ quiet) ⊎ ((r ≡ broken) ⊎ ((m : DrainMessage Notification) × (r ≡ message m)))
  reception_cases quiet = inl refl
  reception_cases broken = inr (inl refl)
  reception_cases (message m) = inr (inr (m, refl))

  drain_loop-is_some :
      (fuel poll handled seen left : ℕ) (d : Drained)
      → left + handled ≡ config.max_messages
      → seen ≤ config.idle_polls_to_drain
      → polls_left left config.idle_polls_to_drain seen ≤ fuel
      → is_some (drain_loop handle_notification config polls fuel poll handled seen d) ≡ true
  unfolding drain_loop
  drain_loop-is_some zero poll handled seen zero d m l f = absurd (omega arith)
  drain_loop-is_some zero poll handled seen (suc left) d m l f = absurd (omega arith)
  drain_loop-is_some (suc fuel) poll handled seen zero d m l f =
      let full : leb config.max_messages handled ≡ true = ground arith in rw full
  drain_loop-is_some (suc fuel) poll handled seen (suc left) d m l f =
      let p = polls poll in
      if-is_some (leb config.max_messages handled) _ _ refl (λ below.
        if-is_some (leb config.total_timeout p.elapsed) _ _ refl (λ early.
          if-is_some
            (config.yield_to_active_turn && not (background_drain_may_receive p.active_turn_id)) _ _
            refl
            (λ alone. elim (reception_cases p.reception) [
              | inl q ↦ rw q (
                  if-is_some (leb config.idle_polls_to_drain (seen + 1)) _ _ refl (λ more.
                    let few : seen + 1 ≤ config.idle_polls_to_drain = ground arith in
                    drain_loop-is_some fuel (poll + 1) handled (seen + 1) (suc left) d m few
                      (omega arith)))
              | inr (inl b) ↦ rw b
              | inr (inr (msg, e)) ↦
                  elim (Option-cases (handle_drain_message handle_notification config d msg)) [
                    | inl bad ↦ rw (e, bad)
                    | inr (next, good) ↦
                        rw (e, good)
                          (drain_loop-is_some fuel (poll + 1) (handled + 1) 0 left next
                            (omega arith) (omega arith) (omega arith))
                  ]
            ])))

-- The drain halts: with more polls allowed than the messages it may take, each with as many quiet
-- polls before it as end a drain, it returns, whatever comes, whatever the clock says and whatever
-- the notifications do.
pub drain_loop_halts :
    {Notification : Type 0} (handle_notification : ThreadInner → Notification → Option ThreadInner)
    (config : DrainConfig) (polls : ℕ → Poll Notification) (d : Drained) (fuel : ℕ)
    → config.max_messages * (config.idle_polls_to_drain + 1) < fuel
    → is_some (drain_loop handle_notification config polls fuel 0 0 0 d) ≡ true
drain_loop_halts handle_notification config polls d fuel h =
    let enough = polls_left-start config.max_messages config.idle_polls_to_drain in
    drain_loop-is_some handle_notification config polls fuel 0 0 0 config.max_messages d
      (omega arith) (omega arith) (rw enough (omega arith))
