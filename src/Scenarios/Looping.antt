-- ===== src/Scenarios/Looping.antt =====
-- A turn in which the backend asks for an approval, and then completes.
use zed_codex_acp_cas.Common.{
  ℕ, true, false, [], ◌∷◌, ◌++◌, Option, none, some, ◌≡◌, refl, sym, ap, some-eq, arith,
}
use zed_codex_acp_cas.Common.Text.{Text, codes, is_some}
use zed_codex_acp_cas.Thread.State.{ThreadInner}
use zed_codex_acp_cas.Transport.{integer}
use zed_codex_acp_cas.Approvals.{selected}
use zed_codex_acp_cas.Approvals.Command.{CommandApprovalParams}
use zed_codex_acp_cas.TurnLoop.{
  StopReason, turn_completed, command_approval, other_message, completed, LoopState, user_cancels,
  watchdog, received, running, drive,
}
use zed_codex_acp_cas.TurnLoop.Approval.{requests, arriving, IsSettled, drive-requests}
use zed_codex_acp_cas.TurnLoop.Ending.{last_of}
use zed_codex_acp_cas.TurnLoop.Ending.Fair.{Stretch, has_ended, schedule, drive-has_ended}
use zed_codex_acp_cas.TurnLoop.Drain.{
  post_turn_drain, notification, message, Poll, Drained, drain_loop,
}
use zed_codex_acp_cas.TurnLoop.Drain.Halting.{drain_loop_halts}
use zed_codex_acp_cas.Scenarios.Turns.{fresh}

-- The other messages change nothing.
abbrev pass_over : ThreadInner → Text → Option (ThreadInner × Option StopReason)
pass_over inner other = some (inner, none)

abbrev asks : CommandApprovalParams Text
asks = record { available_decisions = none; proposed_execpolicy_amendment = none }

abbrev under_way : LoopState Text Text
under_way = record {
  inner = fresh;
  interrupted = false;
  pending = none;
  inbox =
      command_approval (integer 7) asks
      ∷ other_message (codes "delta")
      ∷ turn_completed (record { id = codes "t"; status = completed; error_message = none })
      ∷ [];
  responses = [];
}

abbrev hour : Stretch Text Text
hour = record {
  before = watchdog 5 ∷ [];
  answer = some (selected (codes "allow-once"));
  between = [];
  now = 9;
}

kept :
    (inner next : ThreadInner) (other : Text) (r : Option StopReason)
    → pass_over inner other ≡ some (next, r)
    → last_of next ≡ last_of inner
kept inner next other r h = sym (ap (λ p. last_of p.0) (some-eq h))

drive-has_ended_example :
    has_ended (drive pass_over (codes "t") (running under_way) (schedule (hour ∷ hour ∷ hour ∷ [])))
    ≡ true
drive-has_ended_example =
    drive-has_ended pass_over (codes "t") 2 under_way (hour ∷ hour ∷ hour ∷ []) kept refl refl
      (omega arith) refl

drive-requests_example :
    IsSettled
      (requests under_way
        ++ arriving {Amendment = Text} {Other = Text} (received 1 ∷ user_cancels true true ∷ []))
      (drive pass_over (codes "t") (running under_way) (received 1 ∷ user_cancels true true ∷ []))
drive-requests_example =
    drive-requests pass_over (codes "t") under_way (received 1 ∷ user_cancels true true ∷ [])

-- A message comes at each poll, with the clock standing still.
chatter : ℕ → Poll Text
chatter n = record {
  elapsed = 0;
  active_turn_id = none;
  reception = message (notification (codes "late"));
}

abbrev untouched : ThreadInner → Text → Option ThreadInner
untouched inner late = some inner

abbrev nothing_drained : Drained
nothing_drained = record { inner = fresh; refused = [] }

drain_loop_halts_example :
    is_some (drain_loop untouched post_turn_drain chatter 769 0 0 0 nothing_drained) ≡ true
drain_loop_halts_example =
    drain_loop_halts untouched post_turn_drain chatter nothing_drained 769 (omega arith)
