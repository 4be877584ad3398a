-- ===== src/TurnLoop/Approval.antt =====
-- Every request for the approval of a command is answered once, in the order of the requests.
use zed_codex_acp_cas.Common.{
  ℕ, ◌≤◌, arith, length, Bool, true, false, not, ◌&&◌, List, [], ◌∷◌, ◌++◌, Option, none, some, ◌≡◌,
  refl, sym, ap, ◌∙◌, append-nil, append_assoc,
}
use zed_codex_acp_cas.Common.Text.{Text}
use zed_codex_acp_cas.Thread.State.{ThreadInner}
use zed_codex_acp_cas.Thread.Turn.{is_some_id}
use zed_codex_acp_cas.Transport.{RequestId}
use zed_codex_acp_cas.Approvals.{Outcome}
use zed_codex_acp_cas.Approvals.Command.{
  CommandExecutionApprovalDecision, cancel, command_approval_decision_from_outcome,
}
use zed_codex_acp_cas.TurnLoop.{
  StopReason, TurnMessage, turn_completed, command_approval, other_message,
  PendingTurnCommandApproval, LoopState, LoopEvent, arrives, user_cancels, watchdog,
  approval_outcome, received, Round, running, stopped, errored, respond, cancel_pending, on_cancel,
  maybe_finish_stalled_turn, settle, on_outcome, after_message, on_completion,
  handle_active_turn_message, on_received, step, drive,
}

grown : (a b c d e : List RequestId) → a ++ (b ++ (c ++ (d ++ e))) ≡ (a ++ (b ++ (c ++ d))) ++ e
grown a b c d e = sym (
    append_assoc a (b ++ (c ++ d)) e
    ∙ ap (λ x. a ++ x) (append_assoc b (c ++ d) e ∙ ap (λ x. b ++ x) (append_assoc c d e)))

module _ {Amendment : Type 0} where
  abbrev pub answered_ids :
      List (RequestId × CommandExecutionApprovalDecision Amendment) → List RequestId
  answered_ids [] = []
  answered_ids ((request_id, decision) ∷ responses) = request_id ∷ answered_ids responses

  abbrev pub pending_ids : Option (PendingTurnCommandApproval Amendment) → List RequestId
  pending_ids none = []
  pending_ids (some pending) = pending.request_id ∷ []

  answered_ids-snoc :
      (rs : List (RequestId × CommandExecutionApprovalDecision Amendment)) (id : RequestId)
      (d : CommandExecutionApprovalDecision Amendment)
      → answered_ids (rs ++ (id, d) ∷ []) ≡ answered_ids rs ++ id ∷ []
  answered_ids-snoc [] id d = refl
  answered_ids-snoc ((i, e) ∷ rs) id d = ap (◌∷◌ i) (answered_ids-snoc rs id d)

module _ {Amendment Other : Type 0} where
  -- The requests among the messages, in their order.
  abbrev pub requests_of : List (TurnMessage Amendment Other) → List RequestId
  requests_of [] = []
  requests_of (turn_completed turn ∷ ms) = requests_of ms
  requests_of (command_approval request_id params ∷ ms) = request_id ∷ requests_of ms
  requests_of (other_message other ∷ ms) = requests_of ms

  -- The requests that arrive in a run.
  abbrev pub arriving : List (LoopEvent Amendment Other) → List RequestId
  arriving [] = []
  arriving (arrives message ∷ events) = requests_of (message ∷ []) ++ arriving events
  arriving (user_cancels is_ok takes_interrupt ∷ events) = arriving events
  arriving (watchdog now ∷ events) = arriving events
  arriving (approval_outcome outcome ∷ events) = arriving events
  arriving (received now ∷ events) = arriving events

  -- The requests so far: those that were answered, the one that waits, and those in the inbox.
  abbrev pub requests : LoopState Amendment Other → List RequestId
  requests s = answered_ids s.responses ++ (pending_ids s.pending ++ requests_of s.inbox)

  requests_of-append :
      (a b : List (TurnMessage Amendment Other))
      → requests_of (a ++ b) ≡ requests_of a ++ requests_of b
  requests_of-append [] b = refl
  requests_of-append (turn_completed turn ∷ a) b = requests_of-append a b
  requests_of-append (command_approval request_id params ∷ a) b =
      ap (◌∷◌ request_id) (requests_of-append a b)
  requests_of-append (other_message other ∷ a) b = requests_of-append a b

  -- After a round: no request is lost, and none is open when the turn stops. When it ends with an
  -- error, at most one request is left without an answer, behind those that were answered and
  -- before those that were not read.
  abbrev pub IsSettled : List RequestId → Round Amendment Other → Type 0
  IsSettled ids (running s) = requests s ≡ ids
  IsSettled ids (stopped s reason) =
      (s.pending ≡ none) × ((later : List RequestId) × (requests s ++ later ≡ ids))
  IsSettled ids (errored s) =
      (s.pending ≡ none)
      × ((dropped : List RequestId) × ((length dropped ≤ 1)
            × ((later : List RequestId) × (answered_ids s.responses
                    ++ (dropped ++ (requests_of s.inbox ++ later))
                  ≡ ids))))

  respond-requests :
      (s : LoopState Amendment Other) (p : PendingTurnCommandApproval Amendment)
      (d : CommandExecutionApprovalDecision Amendment)
      → s.pending ≡ some p
      → requests (respond s p d) ≡ requests s
  respond-requests s p d h =
      rw (h, answered_ids-snoc s.responses p.request_id d)
        (append_assoc (answered_ids s.responses) (p.request_id ∷ []) (requests_of s.inbox))

  cancel_pending-requests :
      (s : LoopState Amendment Other) (p : Option (PendingTurnCommandApproval Amendment))
      → s.pending ≡ p
      → requests (cancel_pending s p) ≡ requests s
  cancel_pending-requests s none h = refl
  cancel_pending-requests s (some p) h = respond-requests s p cancel h

  on_cancel-requests :
      (s : LoopState Amendment Other) (now_cancels takes_interrupt : Bool)
      → requests (on_cancel s now_cancels takes_interrupt) ≡ requests s
  on_cancel-requests s false takes_interrupt = refl
  on_cancel-requests s true takes_interrupt = cancel_pending-requests s s.pending refl

  stalled-requests :
      (now : ℕ) (s : LoopState Amendment Other) (p : Option (PendingTurnCommandApproval Amendment))
      → requests (maybe_finish_stalled_turn now s p) ≡ requests s
  unfolding maybe_finish_stalled_turn
  stalled-requests now s none = refl
  stalled-requests now s (some p) = refl

  settle-IsSettled :
      (s : LoopState Amendment Other) (p : PendingTurnCommandApproval Amendment) (is_active : Bool)
      (outcome : Option Outcome)
      → s.pending ≡ some p
      → IsSettled (requests s) (settle s p is_active outcome)
  settle-IsSettled s p false outcome h = respond-requests s p cancel h
  settle-IsSettled s p true none h =
      (refl, (p.request_id ∷ [], (omega arith, ([], rw (h, append-nil (requests_of s.inbox))))))
  settle-IsSettled s p true (some outcome) h =
      respond-requests s p (command_approval_decision_from_outcome outcome p.decisions) h

  on_outcome-IsSettled :
      (s : LoopState Amendment Other) (p : Option (PendingTurnCommandApproval Amendment))
      (outcome : Option Outcome)
      → s.pending ≡ p
      → IsSettled (requests s) (on_outcome s p outcome)
  on_outcome-IsSettled s none outcome h = refl
  on_outcome-IsSettled s (some p) outcome h =
      settle-IsSettled s p (is_some_id s.inner.active_turn_id p.turn_id) outcome h

  after_message-IsSettled :
      (now : ℕ) (s : LoopState Amendment Other) (o : Option (ThreadInner × Option StopReason))
      → s.pending ≡ none
      → IsSettled (requests s) (after_message now s o)
  after_message-IsSettled now s none h =
      (h, ([], (omega arith, ([], rw (h, append-nil (requests_of s.inbox))))))
  after_message-IsSettled now s (some (inner, none)) h =
      stalled-requests now (record s { inner = inner }) s.pending
  after_message-IsSettled now s (some (inner, some reason)) h = (h, ([], append-nil (requests s)))

  module _ (handle_other : ThreadInner → Other → Option (ThreadInner × Option StopReason))
      (turn_id : Text) where
    on_received-IsSettled :
        (now : ℕ) (s : LoopState Amendment Other)
        (p : Option (PendingTurnCommandApproval Amendment))
        (inbox : List (TurnMessage Amendment Other))
        → s.pending ≡ p
        → s.inbox ≡ inbox
        → IsSettled (requests s) (on_received handle_other turn_id now s p inbox)
    unfolding handle_active_turn_message
    on_received-IsSettled now s (some p) inbox h i = refl
    on_received-IsSettled now s none [] h i = refl
    on_received-IsSettled now s none (turn_completed turn ∷ ms) h i = rw i (
        after_message-IsSettled now (record s { inbox = ms })
          (some (on_completion now s.inner turn_id turn)) h)
    on_received-IsSettled now s none (command_approval request_id params ∷ ms) h i = rw (h, i)
    on_received-IsSettled now s none (other_message other ∷ ms) h i =
        rw i (after_message-IsSettled now (record s { inbox = ms }) (handle_other s.inner other) h)

    step-IsSettled :
        (s : LoopState Amendment Other) (e : LoopEvent Amendment Other)
        → IsSettled (requests s ++ arriving (e ∷ [])) (step handle_other turn_id s e)
    unfolding step
    step-IsSettled s (arrives m) =
        let here = requests_of (m ∷ []) in
        rw (
          append-nil here,
          requests_of-append s.inbox (m ∷ []),
          append_assoc (answered_ids s.responses) (pending_ids s.pending ++ requests_of s.inbox)
              here,
          append_assoc (pending_ids s.pending) (requests_of s.inbox) here,
        )
    step-IsSettled s (user_cancels is_ok takes_interrupt) =
        on_cancel-requests s (is_ok && not s.interrupted) takes_interrupt
        ∙ sym (append-nil (requests s))
    step-IsSettled s (watchdog now) =
        stalled-requests now s s.pending ∙ sym (append-nil (requests s))
    step-IsSettled s (approval_outcome outcome) =
        rw (append-nil (requests s)) (on_outcome-IsSettled s s.pending outcome refl)
    step-IsSettled s (received now) =
        rw (append-nil (requests s)) (on_received-IsSettled now s s.pending s.inbox refl refl)

    arriving-cons :
        (e : LoopEvent Amendment Other) (es : List (LoopEvent Amendment Other))
        → arriving (e ∷ []) ++ arriving es ≡ arriving (e ∷ es)
    arriving-cons (arrives m) es =
        ap (λ ids. ids ++ arriving es) (append-nil (requests_of (m ∷ [])))
    arriving-cons (user_cancels is_ok takes_interrupt) es = refl
    arriving-cons (watchdog now) es = refl
    arriving-cons (approval_outcome outcome) es = refl
    arriving-cons (received now) es = refl

    drive-IsSettled :
        (r : Round Amendment Other) (ids : List RequestId) (es : List (LoopEvent Amendment Other))
        → IsSettled ids r
        → IsSettled (ids ++ arriving es) (drive handle_other turn_id r es)
    unfolding drive
    drive-IsSettled (running s) ids [] h = h ∙ sym (append-nil ids)
    drive-IsSettled (running s) ids (e ∷ es) h =
        rw (← arriving-cons e es, ← append_assoc ids (arriving (e ∷ [])) (arriving es), ← h)
          (drive-IsSettled (step handle_other turn_id s e) (requests s ++ arriving (e ∷ [])) es
            (step-IsSettled s e))
    drive-IsSettled (stopped s reason) ids es h =
        let (none_left, (later, e)) = h in
        (
          none_left,
          (
            later ++ arriving es,
            sym (append_assoc (requests s) later (arriving es)) ∙ ap (λ all. all ++ arriving es) e,
          ),
        )
    drive-IsSettled (errored s) ids es h =
        let (none_left, (dropped, (at_most, (later, e)))) = h in
        (
          none_left,
          (
            dropped,
            (
              at_most,
              (
                later ++ arriving es,
                grown (answered_ids s.responses) dropped (requests_of s.inbox) later (arriving es)
                    ∙ ap (λ all. all ++ arriving es) e,
              ),
            ),
          ),
        )

-- Each request of the backend for the approval of a command is answered at most once and in the
-- order of the requests, however the user's outcomes and cancels, the ticks of the clock and the
-- messages of the backend are interleaved, and whatever the other messages do: while the turn runs,
-- the requests that were answered, then the one that the user is asked about, then those in the
-- inbox are all that arrived, in their order; when the turn stops, none is left with the user; and
-- when it ends with an error, none is left with the user, and the requests that were answered, at
-- most one that is not, and those in the inbox are the first that arrived, in their order.
pub drive-requests :
    {Amendment Other : Type 0}
    (handle_other : ThreadInner → Other → Option (ThreadInner × Option StopReason)) (turn_id : Text)
    (s : LoopState Amendment Other) (es : List (LoopEvent Amendment Other))
    → IsSettled (requests s ++ arriving es) (drive handle_other turn_id (running s) es)
drive-requests handle_other turn_id s es =
    drive-IsSettled handle_other turn_id (running s) (requests s) es refl
