-- ===== src/TurnLoop/Ending.antt =====
-- The turn ends once its completion has come to the head of the inbox.
pub mod Fair
use zed_codex_acp_cas.Common.{
  ℕ, zero, suc, ◌-◌, Bool, true, false, not, ◌&&◌, ◌||◌, ◌⊎◌, inl, inr, List, [], ◌∷◌, ◌++◌, Option,
  none, some, ◌≡◌, refl, sym, ap, subst, ◌∙◌, if◌then◌else◌, length, Bool-cases, arith, All, all,
  &&-true, ◌<◌,
}
use zed_codex_acp_cas.Common.Text.{Text, codes, text_eq, text_eq_iff, is_some}
use zed_codex_acp_cas.Thread.State.{ThreadInner, send_system_message}
use zed_codex_acp_cas.Thread.Turn.{
  TurnCompletionDisposition, accepted, duplicate, unexpected_turn_id, is_some_id,
  register_turn_completion,
}
use zed_codex_acp_cas.Thread.Reconnect.{
  maybe_report_turn_stall, classify_turn_stall_notice, mark_reconnect_stall_notice_sent,
  reconnect_stall_message,
}
use zed_codex_acp_cas.Approvals.{Outcome}
use zed_codex_acp_cas.Approvals.Command.{cancel, command_approval_decision_from_outcome}
use zed_codex_acp_cas.TurnLoop.{
  StopReason, CompletedTurn, TurnMessage, turn_completed, command_approval, other_message,
  PendingTurnCommandApproval, LoopState, LoopEvent, arrives, user_cancels, watchdog,
  approval_outcome, received, Round, running, stopped, errored, respond, cancel_pending, on_cancel,
  maybe_finish_stalled_turn, settle, on_outcome, after_message, on_completion, complete,
  accept_completion, stop_reason_of, handle_active_turn_message, on_received, step, drive,
}

-- The last completed turn, which the notices leave as it is.
abbrev pub last_of : ThreadInner → Option Text
last_of inner = inner.last_completed_turn_id

if-last_of :
    (b : Bool) (x y : ThreadInner) (last : Option Text)
    → last_of x ≡ last
    → last_of y ≡ last
    → last_of (if b then x else y) ≡ last
if-last_of true x y last h k = h
if-last_of false x y last h k = k

mark-last_of :
    (inner : ThreadInner) → last_of (mark_reconnect_stall_notice_sent inner).0 ≡ last_of inner
unfolding mark_reconnect_stall_notice_sent
mark-last_of inner = elim (Bool-cases inner.turn_reconnect_stall_notice_sent) [
  | inl y ↦ rw y
  | inr n ↦ rw n
]

send_system_message-last_of :
    (inner : ThreadInner) (label title body : Text)
    → last_of (send_system_message inner label title body) ≡ last_of inner
send_system_message-last_of inner label title body =
    if-last_of inner.suppress_text_output inner _ (last_of inner) refl refl

pub maybe_report_turn_stall-last_of :
    (now : ℕ) (inner : ThreadInner) → last_of (maybe_report_turn_stall now inner) ≡ last_of inner
unfolding maybe_report_turn_stall
maybe_report_turn_stall-last_of now inner =
    let marked = mark_reconnect_stall_notice_sent inner in
    if-last_of
      (classify_turn_stall_notice inner.turn_reconnect_warning_count
        inner.turn_reconnect_retry_limit_hit (now - inner.turn_last_progress_at))
      _ inner (last_of inner)
      (if-last_of marked.1
        (send_system_message marked.0 (codes "status") (codes "Still reconnecting")
          reconnect_stall_message)
        marked.0 (last_of inner) (send_system_message-last_of marked.0 _ _ _ ∙ mark-last_of inner)
        (mark-last_of inner))
      refl

-- A completion of the turn that was not yet seen is accepted.
pub register_turn_completion-accepted :
    (last : Option Text) (turn_id id : Text)
    → text_eq id turn_id ≡ true
    → is_some_id last turn_id ≡ false
    → (register_turn_completion last turn_id id).1 ≡ accepted
unfolding register_turn_completion
register_turn_completion-accepted last turn_id id h k =
    let same = (text_eq_iff id turn_id).0 h in
    let unseen : is_some_id last id ≡ false = rw same k in rw (h, unseen)

pub completion_stops :
    (now : ℕ) (inner : ThreadInner) (turn_id : Text) (turn : CompletedTurn)
    → text_eq turn.id turn_id ≡ true
    → is_some_id (last_of inner) turn_id ≡ false
    → (on_completion now inner turn_id turn).1 ≡ some (stop_reason_of turn.status)
unfolding on_completion
completion_stops now inner turn_id turn h k =
    ap
      (λ d.
        (complete now
          (record inner {
            last_completed_turn_id =
                (register_turn_completion inner.last_completed_turn_id turn_id turn.id).0;
          })
          turn_id turn d).1)
      (register_turn_completion-accepted (last_of inner) turn_id turn.id h k)

pub completion_other :
    (now : ℕ) (inner : ThreadInner) (turn_id : Text) (turn : CompletedTurn)
    → text_eq turn.id turn_id ≡ false
    → on_completion now inner turn_id turn ≡ (inner, none)
unfolding on_completion register_turn_completion
completion_other now inner turn_id turn h = rw h

module _ {Amendment Other : Type 0} (turn_id : Text) where
  abbrev pub is_completion : TurnMessage Amendment Other → Bool
  is_completion (turn_completed turn) = text_eq turn.id turn_id
  is_completion (command_approval request_id params) = false
  is_completion (other_message other) = false

  -- The completion of the turn is in the inbox, behind at most `n` messages.
  abbrev pub completes_by : ℕ → List (TurnMessage Amendment Other) → Bool
  completes_by n [] = false
  completes_by zero (m ∷ ms) = is_completion m
  completes_by (suc n) (m ∷ ms) = is_completion m || completes_by n ms

  abbrev pub IsAwaited : ℕ → LoopState Amendment Other → Type 0
  IsAwaited n s = (completes_by n s.inbox ≡ true) × (is_some_id (last_of s.inner) turn_id ≡ false)

  -- The completion comes with one of the next `n` messages, or the loop is over.
  abbrev pub Awaits : ℕ → Round Amendment Other → Type 0
  Awaits zero (running s) = ⊥
  Awaits (suc n) (running s) = IsAwaited n s
  Awaits n (stopped s reason) = Unit
  Awaits n (errored s) = Unit

  -- The same, and no approval is pending.
  abbrev pub IsReady : ℕ → Round Amendment Other → Type 0
  IsReady n (running s) = (s.pending ≡ none) × IsAwaited n s
  IsReady n (stopped s reason) = Unit
  IsReady n (errored s) = Unit

  pub completes_by-snoc :
      (n : ℕ) (ms : List (TurnMessage Amendment Other)) (m : TurnMessage Amendment Other)
      → completes_by n ms ≡ true
      → completes_by n (ms ++ m ∷ []) ≡ true
  completes_by-snoc n [] m h = cc
  completes_by-snoc zero (k ∷ ms) m h = h
  completes_by-snoc (suc n) (k ∷ ms) m h = elim (Bool-cases (is_completion k)) [
    | inl y ↦ rw y
    | inr n0 ↦ rw (n0, completes_by-snoc n ms m (rw n0 at h))
  ]

  cancel-IsAwaited :
      (n : ℕ) (s : LoopState Amendment Other) (p : Option (PendingTurnCommandApproval Amendment))
      → IsAwaited n s
      → IsAwaited n (cancel_pending s p)
  cancel-IsAwaited n s none h = h
  cancel-IsAwaited n s (some p) h = h

  pub on_cancel-IsAwaited :
      (n : ℕ) (s : LoopState Amendment Other) (b takes_interrupt : Bool)
      → IsAwaited n s
      → IsAwaited n (on_cancel s b takes_interrupt)
  on_cancel-IsAwaited n s false takes_interrupt h = h
  on_cancel-IsAwaited n s true takes_interrupt h = cancel-IsAwaited n s s.pending h

  cancel_pending-none :
      (s : LoopState Amendment Other) (p : Option (PendingTurnCommandApproval Amendment))
      → s.pending ≡ p
      → (cancel_pending s p).pending ≡ none
  cancel_pending-none s none h = h
  cancel_pending-none s (some p) h = refl

  pub on_cancel-none :
      (s : LoopState Amendment Other) (b takes_interrupt : Bool)
      → s.pending ≡ none
      → (on_cancel s b takes_interrupt).pending ≡ none
  on_cancel-none s false takes_interrupt h = h
  on_cancel-none s true takes_interrupt h = cancel_pending-none s s.pending refl

  pub stalled-IsAwaited :
      (n now : ℕ) (s : LoopState Amendment Other)
      (p : Option (PendingTurnCommandApproval Amendment))
      → IsAwaited n s
      → IsAwaited n (maybe_finish_stalled_turn now s p)
  unfolding maybe_finish_stalled_turn
  stalled-IsAwaited n now s none h =
      (h.0, ap (λ l. is_some_id l turn_id) (maybe_report_turn_stall-last_of now s.inner) ∙ h.1)
  stalled-IsAwaited n now s (some p) h = h

  pub stalled-pending :
      (now : ℕ) (s : LoopState Amendment Other) (p : Option (PendingTurnCommandApproval Amendment))
      → (maybe_finish_stalled_turn now s p).pending ≡ s.pending
  unfolding maybe_finish_stalled_turn
  stalled-pending now s none = refl
  stalled-pending now s (some p) = refl

  settle-IsReady :
      (n : ℕ) (s : LoopState Amendment Other) (p : PendingTurnCommandApproval Amendment) (b : Bool)
      (outcome : Option Outcome)
      → IsAwaited n s
      → IsReady n (settle s p b outcome)
  settle-IsReady n s p false outcome h = (refl, h)
  settle-IsReady n s p true none h = tt
  settle-IsReady n s p true (some outcome) h = (refl, h)

  pub on_outcome-IsReady :
      (n : ℕ) (s : LoopState Amendment Other) (p : Option (PendingTurnCommandApproval Amendment))
      (outcome : Option Outcome)
      → s.pending ≡ p
      → IsAwaited n s
      → IsReady n (on_outcome s p outcome)
  on_outcome-IsReady n s none outcome e h = (e, h)
  on_outcome-IsReady n s (some p) outcome e h =
      settle-IsReady n s p (is_some_id s.inner.active_turn_id p.turn_id) outcome h
