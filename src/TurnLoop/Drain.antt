-- ===== src/TurnLoop/Drain.antt =====
-- src/thread/notification/dispatch.rs: the drain of the inbox after a turn, and in the background.
-- What each poll meets (the clock, whether a turn is active, and what comes within the wait) is a
-- function of the poll's number; what a notification does is `handle_notification`, where `none` is
-- an error. Writing to the backend does not fail here.
pub mod Halting
use zed_codex_acp_cas.Common.{
  ℕ, zero, suc, ◌+◌, Bool, true, false, not, ◌&&◌, List, [], ◌∷◌, ◌++◌, Option, none, some, leb,
  if◌then◌else◌,
}
use zed_codex_acp_cas.Common.Text.{Text, codes}
use zed_codex_acp_cas.Thread.State.{ThreadInner}
use zed_codex_acp_cas.Transport.{RequestId}

pub record DrainConfig : Type 0 where
  pub drain_context : Text
  pub total_timeout : ℕ
  pub poll_timeout : ℕ
  pub idle_polls_to_drain : ℕ
  pub max_messages : ℕ
  pub yield_to_active_turn : Bool

-- Times are in milliseconds.
abbrev pub post_turn_drain : DrainConfig
post_turn_drain = record {
  drain_context = codes "post-turn drain";
  total_timeout = 200;
  poll_timeout = 20;
  idle_polls_to_drain = 2;
  max_messages = 256;
  yield_to_active_turn = false;
}

pub data DrainOutcome : Type 0 where
  drained : (processed : ℕ) → DrainOutcome
  timed_out : (processed : ℕ) → DrainOutcome
  hit_limit : (processed : ℕ) → DrainOutcome

abbrev pub processed : DrainOutcome → ℕ
processed (drained n) = n
processed (timed_out n) = n
processed (hit_limit n) = n

abbrev pub was_truncated : DrainOutcome → Bool
was_truncated (drained n) = false
was_truncated (timed_out n) = true
was_truncated (hit_limit n) = true

abbrev pub background_drain_may_receive : Option Text → Bool
background_drain_may_receive none = true
background_drain_may_receive (some active_turn_id) = false

pub data DrainMessage (Notification : Type 0) : Type 0 where
  notification : (payload : Notification) → DrainMessage Notification
  request : (request_id : RequestId) (method : Text) → DrainMessage Notification
  response : DrainMessage Notification
  error : DrainMessage Notification

pub data Reception (Notification : Type 0) : Type 0 where
  quiet : Reception Notification
  broken : Reception Notification
  message : (m : DrainMessage Notification) → Reception Notification

-- What a poll meets: the time since the drain began, the active turn, and what comes.
pub record Poll (Notification : Type 0) : Type 0 where
  pub elapsed : ℕ
  pub active_turn_id : Option Text
  pub reception : Reception Notification

-- The state, and the requests that were refused with their messages.
pub record Drained : Type 0 where
  pub inner : ThreadInner
  pub refused : List (RequestId × Text)

-- The end of a drain; an error of the inbox or of a notification is `none`.
abbrev pub DrainResult : Type 0
DrainResult = Option DrainOutcome × Drained

module _ {Notification : Type 0}
    (handle_notification : ThreadInner → Notification → Option ThreadInner)
    (config : DrainConfig) where
  abbrev pub with_inner : Drained → Option ThreadInner → Option Drained
  with_inner d none = none
  with_inner d (some inner) = some (record d { inner = inner })

  unfoldable pub handle_drain_message : Drained → DrainMessage Notification → Option Drained
  handle_drain_message d (notification payload) = with_inner d (handle_notification d.inner payload)
  handle_drain_message d (request request_id method) = some (record d {
    refused =
        d.refused
        ++ (
          request_id,
          codes "Dropping stale app-server request `"
              ++ (method ++ (codes "` during " ++ config.drain_context)),
        )
          ∷ [];
  })
  handle_drain_message d response = some d
  handle_drain_message d error = some d

  module _ (polls : ℕ → Poll Notification) where
    -- The loop: `poll` counts the polls, `none` is the end of the fuel.
    unfoldable pub drain_loop : ℕ → ℕ → ℕ → ℕ → Drained → Option DrainResult
    unfolding handle_drain_message
    drain_loop zero poll handled quiet_polls d = none
    drain_loop (suc fuel) poll handled quiet_polls d =
        let p = polls poll in
        let idle = drain_loop fuel (poll + 1) handled (quiet_polls + 1) d in
        let met : Option DrainResult = elim p.reception [
          | quiet ↦
              if leb config.idle_polls_to_drain (quiet_polls + 1)
              then some (some (drained handled), d)
              else idle
          | broken ↦ some (none, d)
          | message m ↦ elim (handle_drain_message d m) [
            | none ↦ some (none, d)
            | some next ↦ drain_loop fuel (poll + 1) (handled + 1) 0 next
          ]
        ] in
        if leb config.max_messages handled
        then some (some (hit_limit handled), d)
        else if leb config.total_timeout p.elapsed
        then some (some (timed_out handled), d)
        else if config.yield_to_active_turn && not (background_drain_may_receive p.active_turn_id)
        then some (some (drained handled), d)
        else met
