-- ===== src/TurnLoop.antt =====
-- src/thread/turn/execution.rs: the loop that drives a turn, `drive_active_turn_ext`, with the
-- messages that it treats itself: the completion of the turn and the requests for the approval of
-- commands. What the other components do with the other messages is `handle_other`; `none` is an
-- error. Writing to the backend does not fail here, and a clock is an argument.
pub mod Approval
pub mod Ending
pub mod Drain
use zed_codex_acp_cas.Common.{
  ℕ, ◌+◌, Bool, true, false, not, ◌&&◌, List, [], ◌∷◌, ◌++◌, Option, none, some, if◌then◌else◌,
}
use zed_codex_acp_cas.Common.Text.{Text, codes, is_some}
use zed_codex_acp_cas.Common.Sets.{remove}
use zed_codex_acp_cas.Thread.State.{
  ThreadInner, FallbackPlanPhase, FallbackPlanState, done, send_system_message,
}
use zed_codex_acp_cas.Thread.Turn.{
  TurnCompletionDisposition, accepted, duplicate, unexpected_turn_id, is_some_id,
  register_turn_completion, record_turn_error_notice, finalize_active_turn,
}
use zed_codex_acp_cas.Thread.Reconnect.{mark_turn_progress, maybe_report_turn_stall}
use zed_codex_acp_cas.Plan.Fallback.{maybe_advance_fallback_plan}
use zed_codex_acp_cas.Events.PlanUpdates.{drop_plan_of_turn}
use zed_codex_acp_cas.TurnDiff.{
  prepare_finalized_turn_diff_snapshot, parse_turn_unified_diff_files, record_turn_diff,
}
use zed_codex_acp_cas.Transport.{RequestId}
use zed_codex_acp_cas.Approvals.{Outcome}
use zed_codex_acp_cas.Approvals.Command.{
  CommandExecutionApprovalDecision, cancel, CommandApprovalParams,
  command_approval_decision_from_outcome, command_approval_options,
}

pub data StopReason : Type 0 where
  end_turn : StopReason
  cancelled_turn : StopReason

pub data TurnStatus : Type 0 where
  completed : TurnStatus
  interrupted_status : TurnStatus
  failed_status : TurnStatus
  in_progress : TurnStatus

-- The turn of a completion.
pub record CompletedTurn : Type 0 where
  pub id : Text
  pub status : TurnStatus
  pub error_message : Option Text

pub data TurnMessage (Amendment Other : Type 0) : Type 0 where
  turn_completed : (turn : CompletedTurn) → TurnMessage Amendment Other
  command_approval :
      (request_id : RequestId) (params : CommandApprovalParams Amendment)
      → TurnMessage Amendment Other
  other_message : (other : Other) → TurnMessage Amendment Other

pub record PendingTurnCommandApproval (Amendment : Type 0) : Type 0 where
  pub turn_id : Text
  pub request_id : RequestId
  pub decisions : List (Text × CommandExecutionApprovalDecision Amendment)

-- The variables of the loop, the inbox, and the responses that were sent.
pub record LoopState (Amendment Other : Type 0) : Type 0 where
  pub inner : ThreadInner
  pub interrupted : Bool
  pub pending : Option (PendingTurnCommandApproval Amendment)
  pub inbox : List (TurnMessage Amendment Other)
  pub responses : List (RequestId × CommandExecutionApprovalDecision Amendment)

-- What happens next: the branches of `select!`, and a message that reaches the inbox. A user's
-- cancel says whether the sender lives and whether the backend takes the interrupt.
pub data LoopEvent (Amendment Other : Type 0) : Type 0 where
  arrives : (message : TurnMessage Amendment Other) → LoopEvent Amendment Other
  user_cancels : (is_ok takes_interrupt : Bool) → LoopEvent Amendment Other
  watchdog : (now : ℕ) → LoopEvent Amendment Other
  approval_outcome : (outcome : Option Outcome) → LoopEvent Amendment Other
  received : (now : ℕ) → LoopEvent Amendment Other

pub data Round (Amendment Other : Type 0) : Type 0 where
  running : (state : LoopState Amendment Other) → Round Amendment Other
  stopped : (state : LoopState Amendment Other) (reason : StopReason) → Round Amendment Other
  errored : (state : LoopState Amendment Other) → Round Amendment Other

abbrev pub stop_reason_of : TurnStatus → StopReason
stop_reason_of interrupted_status = cancelled_turn
stop_reason_of completed = end_turn
stop_reason_of failed_status = end_turn
stop_reason_of in_progress = end_turn

abbrev pub failure_of : CompletedTurn → TurnStatus → Option Text
failure_of turn failed_status = turn.error_message
failure_of turn completed = none
failure_of turn interrupted_status = none
failure_of turn in_progress = none

abbrev pub tell_failure : ThreadInner → Option Text → ThreadInner
tell_failure inner none = inner
tell_failure inner (some message) =
    send_system_message inner (codes "error") (codes "Turn failed") message

unfoldable pub report_failure : ThreadInner → Text → Option Text → ThreadInner
unfolding record_turn_error_notice
report_failure inner turn_id none = inner
report_failure inner turn_id (some raw_message) =
    let noticed = record_turn_error_notice inner.last_turn_error_notice turn_id raw_message in
    tell_failure (record inner { last_turn_error_notice = noticed.0 }) noticed.1

-- What an accepted completion changes. The card of the turn's diff is not modelled.
unfoldable pub accept_completion : ℕ → ThreadInner → Text → CompletedTurn → ThreadInner
unfolding maybe_advance_fallback_plan mark_turn_progress remove report_failure
    parse_turn_unified_diff_files record_turn_diff
accept_completion now inner turn_id turn =
    let progressed = mark_turn_progress now (maybe_advance_fallback_plan inner turn_id done) in
    let cleared : ThreadInner = record progressed {
      fallback_plan = drop_plan_of_turn turn_id progressed.fallback_plan;
      turn_plan_updates_seen = remove turn_id progressed.turn_plan_updates_seen;
    } in
    report_failure (prepare_finalized_turn_diff_snapshot now cleared turn_id).0 turn_id
      (failure_of turn turn.status)

abbrev pub complete :
    ℕ
    → ThreadInner
    → Text
    → CompletedTurn
    → TurnCompletionDisposition
    → ThreadInner × Option StopReason
complete now inner turn_id turn accepted =
    (accept_completion now inner turn_id turn, some (stop_reason_of turn.status))
complete now inner turn_id turn duplicate = (inner, none)
complete now inner turn_id turn unexpected_turn_id = (inner, none)

-- A completion of a turn, expected or not.
unfoldable pub on_completion :
    ℕ → ThreadInner → Text → CompletedTurn → ThreadInner × Option StopReason
unfolding register_turn_completion accept_completion
on_completion now inner turn_id turn =
    let registered = register_turn_completion inner.last_completed_turn_id turn_id turn.id in
    complete now (record inner { last_completed_turn_id = registered.0 }) turn_id turn registered.1

module _ {Amendment Other : Type 0} where
  abbrev pub respond :
      LoopState Amendment Other
      → PendingTurnCommandApproval Amendment
      → CommandExecutionApprovalDecision Amendment
      → LoopState Amendment Other
  respond s pending decision = record s {
    pending = none;
    responses = s.responses ++ (pending.request_id, decision) ∷ [];
  }

  -- A pending approval is answered with `Cancel`.
  abbrev pub cancel_pending :
      LoopState Amendment Other
      → Option (PendingTurnCommandApproval Amendment)
      → LoopState Amendment Other
  cancel_pending s none = s
  cancel_pending s (some pending) = respond s pending cancel

  abbrev pub on_cancel : LoopState Amendment Other → Bool → Bool → LoopState Amendment Other
  on_cancel s false takes_interrupt = s
  on_cancel s true takes_interrupt = record (cancel_pending s s.pending) {
    interrupted = is_some s.inner.active_turn_id && takes_interrupt;
  }

  -- `maybe_finish_stalled_turn`: it never ends the turn.
  unfoldable pub maybe_finish_stalled_turn :
      ℕ
      → LoopState Amendment Other
      → Option (PendingTurnCommandApproval Amendment)
      → LoopState Amendment Other
  unfolding maybe_report_turn_stall
  maybe_finish_stalled_turn now s (some pending) = s
  maybe_finish_stalled_turn now s none = record s { inner = maybe_report_turn_stall now s.inner }

  -- The outcome of the request to the client; an error ends the turn if it is still active.
  abbrev pub settle :
      LoopState Amendment Other
      → PendingTurnCommandApproval Amendment
      → Bool
      → Option Outcome
      → Round Amendment Other
  settle s pending false outcome = running (respond s pending cancel)
  settle s pending true none = errored (record s { pending = none })
  settle s pending true (some outcome) =
      running (respond s pending (command_approval_decision_from_outcome outcome pending.decisions))

  abbrev pub on_outcome :
      LoopState Amendment Other
      → Option (PendingTurnCommandApproval Amendment)
      → Option Outcome
      → Round Amendment Other
  on_outcome s none outcome = running s
  on_outcome s (some pending) outcome =
      settle s pending (is_some_id s.inner.active_turn_id pending.turn_id) outcome

  -- The inner state after a message, and the reason to stop, if there is one.
  abbrev pub after_message :
      ℕ
      → LoopState Amendment Other
      → Option (ThreadInner × Option StopReason)
      → Round Amendment Other
  after_message now s none = errored s
  after_message now s (some (inner, none)) =
      running (maybe_finish_stalled_turn now (record s { inner = inner }) s.pending)
  after_message now s (some (inner, some reason)) = stopped (record s { inner = inner }) reason

  module _ (handle_other : ThreadInner → Other → Option (ThreadInner × Option StopReason))
      (turn_id : Text) where
    unfoldable pub handle_active_turn_message :
        ℕ → LoopState Amendment Other → TurnMessage Amendment Other → Round Amendment Other
    unfolding on_completion maybe_finish_stalled_turn command_approval_options
    handle_active_turn_message now s (turn_completed turn) =
        after_message now s (some (on_completion now s.inner turn_id turn))
    handle_active_turn_message now s (command_approval request_id params) = running (record s {
      pending = some (record {
        turn_id = turn_id;
        request_id = request_id;
        decisions = (command_approval_options params).1;
      });
    })
    handle_active_turn_message now s (other_message other) =
        after_message now s (handle_other s.inner other)

    -- The branch that takes a message is shut while an approval is pending.
    abbrev pub on_received :
        ℕ
        → LoopState Amendment Other
        → Option (PendingTurnCommandApproval Amendment)
        → List (TurnMessage Amendment Other)
        → Round Amendment Other
    on_received now s (some pending) inbox = running s
    on_received now s none [] = running s
    on_received now s none (message ∷ inbox) =
        handle_active_turn_message now (record s { inbox = inbox }) message

    -- One turn of the loop.
    unfoldable pub step :
        LoopState Amendment Other → LoopEvent Amendment Other → Round Amendment Other
    unfolding handle_active_turn_message maybe_finish_stalled_turn
        command_approval_decision_from_outcome
    step s (arrives message) = running (record s { inbox = s.inbox ++ message ∷ [] })
    step s (user_cancels is_ok takes_interrupt) =
        running (on_cancel s (is_ok && not s.interrupted) takes_interrupt)
    step s (watchdog now) = running (maybe_finish_stalled_turn now s s.pending)
    step s (approval_outcome outcome) = on_outcome s s.pending outcome
    step s (received now) = on_received now s s.pending s.inbox

    -- The loop over what happens; it is over once it stops or errs.
    unfoldable pub drive :
        Round Amendment Other → List (LoopEvent Amendment Other) → Round Amendment Other
    unfolding step
    drive (running s) [] = running s
    drive (running s) (event ∷ events) = drive (step s event) events
    drive (stopped s reason) events = stopped s reason
    drive (errored s) events = errored s
