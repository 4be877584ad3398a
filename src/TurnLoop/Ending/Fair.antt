-- ===== src/TurnLoop/Ending/Fair.antt =====
-- A schedule that lets the user answer and the loop receive again and again ends the turn.
use zed_codex_acp_cas.Common.{
  ℕ, zero, suc, ◌<◌, ◌≤◌, Bool, true, false, not, ◌&&◌, inl, inr, List, [], ◌∷◌, ◌++◌, Option, none,
  some, ◌≡◌, refl, sym, ap, subst, ◌∙◌, length, Bool-cases, arith, all, &&-true,
}
use zed_codex_acp_cas.Common.Text.{Text, text_eq}
use zed_codex_acp_cas.Thread.State.{ThreadInner}
use zed_codex_acp_cas.Thread.Turn.{is_some_id}
use zed_codex_acp_cas.Approvals.{Outcome}
use zed_codex_acp_cas.TurnLoop.{
  StopReason, TurnMessage, turn_completed, command_approval, other_message, LoopState, LoopEvent,
  arrives, user_cancels, watchdog, approval_outcome, received, Round, running, stopped, errored,
  on_outcome, after_message, on_completion, stop_reason_of, handle_active_turn_message, on_received,
  step, drive,
}
use zed_codex_acp_cas.TurnLoop.Ending.{
  last_of, completion_stops, completion_other, is_completion, completes_by, IsAwaited, Awaits,
  IsReady, completes_by-snoc, on_cancel-IsAwaited, on_cancel-none, stalled-IsAwaited,
  stalled-pending, on_outcome-IsReady,
}

module _ {Amendment Other : Type 0} where
  abbrev pub has_ended : Round Amendment Other → Bool
  has_ended (running s) = false
  has_ended (stopped s reason) = true
  has_ended (errored s) = true

  -- What leaves the turn as it is: messages that arrive, cancels, and ticks.
  abbrev pub is_quiet : LoopEvent Amendment Other → Bool
  is_quiet (arrives message) = true
  is_quiet (user_cancels is_ok takes_interrupt) = true
  is_quiet (watchdog now) = true
  is_quiet (approval_outcome outcome) = false
  is_quiet (received now) = false

-- A stretch of time in which the user's answer comes, if one is asked for, and after it the loop
-- gets to receive.
pub record Stretch (Amendment Other : Type 0) : Type 0 where
  pub before : List (LoopEvent Amendment Other)
  pub answer : Option Outcome
  pub between : List (LoopEvent Amendment Other)
  pub now : ℕ

module _ {Amendment Other : Type 0} where
  abbrev pub is_fair : Stretch Amendment Other → Bool
  is_fair b = all is_quiet b.before && all is_quiet b.between

  abbrev pub events_of : Stretch Amendment Other → List (LoopEvent Amendment Other)
  events_of b = b.before ++ approval_outcome b.answer ∷ (b.between ++ received b.now ∷ [])

  abbrev pub schedule : List (Stretch Amendment Other) → List (LoopEvent Amendment Other)
  schedule [] = []
  schedule (b ∷ bs) = events_of b ++ schedule bs

module _ {Amendment Other : Type 0}
    (handle_other : ThreadInner → Other → Option (ThreadInner × Option StopReason))
    (turn_id : Text) where
  drive-nil : (r : Round Amendment Other) → drive handle_other turn_id r [] ≡ r
  unfolding drive
  drive-nil (running s) = refl
  drive-nil (stopped s reason) = refl
  drive-nil (errored s) = refl

  drive-append :
      (r : Round Amendment Other) (a b : List (LoopEvent Amendment Other))
      → drive handle_other turn_id r (a ++ b)
        ≡ drive handle_other turn_id (drive handle_other turn_id r a) b
  unfolding drive
  drive-append (running s) [] b = refl
  drive-append (running s) (e ∷ a) b = drive-append (step handle_other turn_id s e) a b
  drive-append (stopped s reason) a b = refl
  drive-append (errored s) a b = refl

  quiet-Awaits :
      (n : ℕ) (s : LoopState Amendment Other) (e : LoopEvent Amendment Other)
      → is_quiet e ≡ true
      → IsAwaited turn_id n s
      → Awaits turn_id (suc n) (step handle_other turn_id s e)
  unfolding step
  quiet-Awaits n s (arrives m) q h = (completes_by-snoc turn_id n s.inbox m h.0, h.1)
  quiet-Awaits n s (user_cancels is_ok takes_interrupt) q h =
      on_cancel-IsAwaited turn_id n s (is_ok && not s.interrupted) takes_interrupt h
  quiet-Awaits n s (watchdog now) q h = stalled-IsAwaited turn_id n now s s.pending h
  quiet-Awaits n s (approval_outcome outcome) q h = cc
  quiet-Awaits n s (received now) q h = cc

  quiet-IsReady :
      (n : ℕ) (s : LoopState Amendment Other) (e : LoopEvent Amendment Other)
      → is_quiet e ≡ true
      → IsReady turn_id n (running s)
      → IsReady turn_id n (step handle_other turn_id s e)
  unfolding step
  quiet-IsReady n s (arrives m) q h = (h.0, (completes_by-snoc turn_id n s.inbox m h.1.0, h.1.1))
  quiet-IsReady n s (user_cancels is_ok takes_interrupt) q h = (
    on_cancel-none turn_id s (is_ok && not s.interrupted) takes_interrupt h.0,
    on_cancel-IsAwaited turn_id n s (is_ok && not s.interrupted) takes_interrupt h.1,
  )
  quiet-IsReady n s (watchdog now) q h = (
    stalled-pending turn_id now s s.pending ∙ h.0,
    stalled-IsAwaited turn_id n now s s.pending h.1,
  )
  quiet-IsReady n s (approval_outcome outcome) q h = cc
  quiet-IsReady n s (received now) q h = cc

  quiets-Awaits :
      (n : ℕ) (r : Round Amendment Other) (es : List (LoopEvent Amendment Other))
      → all is_quiet es ≡ true
      → Awaits turn_id (suc n) r
      → Awaits turn_id (suc n) (drive handle_other turn_id r es)
  unfolding drive
  quiets-Awaits n (running s) [] q h = h
  quiets-Awaits n (running s) (e ∷ es) q h =
      let parts = &&-true (is_quiet e) (all is_quiet es) q in
      quiets-Awaits n (step handle_other turn_id s e) es parts.1 (quiet-Awaits n s e parts.0 h)
  quiets-Awaits n (stopped s reason) es q h = tt
  quiets-Awaits n (errored s) es q h = tt

  quiets-IsReady :
      (n : ℕ) (r : Round Amendment Other) (es : List (LoopEvent Amendment Other))
      → all is_quiet es ≡ true
      → IsReady turn_id n r
      → IsReady turn_id n (drive handle_other turn_id r es)
  unfolding drive
  quiets-IsReady n (running s) [] q h = h
  quiets-IsReady n (running s) (e ∷ es) q h =
      let parts = &&-true (is_quiet e) (all is_quiet es) q in
      quiets-IsReady n (step handle_other turn_id s e) es parts.1 (quiet-IsReady n s e parts.0 h)
  quiets-IsReady n (stopped s reason) es q h = tt
  quiets-IsReady n (errored s) es q h = tt

  outcome-IsReady :
      (n : ℕ) (r : Round Amendment Other) (outcome : Option Outcome)
      → Awaits turn_id (suc n) r
      → IsReady turn_id n (drive handle_other turn_id r (approval_outcome outcome ∷ []))
  unfolding drive step
  outcome-IsReady n (running s) outcome h =
      rw (drive-nil (on_outcome s s.pending outcome))
        (on_outcome-IsReady turn_id n s s.pending outcome refl h)
  outcome-IsReady n (stopped s reason) outcome h = tt
  outcome-IsReady n (errored s) outcome h = tt

  behind :
      (n : ℕ) (m : TurnMessage Amendment Other) (ms : List (TurnMessage Amendment Other))
      → is_completion turn_id m ≡ false
      → completes_by turn_id n (m ∷ ms) ≡ true
      → (k : ℕ) × (n ≡ suc k) × (completes_by turn_id k ms ≡ true)
  behind zero m ms other h = let never : false ≡ true = rw other at h in cc
  behind (suc k) m ms other h = (k, refl, rw other at h)

  after_message-Awaits :
      (k now : ℕ) (s : LoopState Amendment Other) (o : Option (ThreadInner × Option StopReason))
      → ((inner : ThreadInner) (r : Option StopReason)
          → o ≡ some (inner, r)
          → is_some_id (last_of inner) turn_id ≡ false)
      → completes_by turn_id k s.inbox ≡ true
      → Awaits turn_id (suc k) (after_message now s o)
  after_message-Awaits k now s none keeps h = tt
  after_message-Awaits k now s (some (inner, none)) keeps h =
      stalled-IsAwaited turn_id k now (record s { inner = inner }) s.pending
        (h, keeps inner none refl)
  after_message-Awaits k now s (some (inner, some reason)) keeps h = tt

  after_stops :
      (n now : ℕ) (s : LoopState Amendment Other) (o : ThreadInner × Option StopReason)
      (reason : StopReason)
      → o.1 ≡ some reason
      → Awaits turn_id n (after_message now s (some o))
  after_stops n now s (inner, none) reason h = cc
  after_stops zero now s (inner, some r) reason h = tt
  after_stops (suc n) now s (inner, some r) reason h = tt

  module _
      (keeps : (inner next : ThreadInner) (other : Other) (r : Option StopReason)
        → handle_other inner other ≡ some (next, r)
        → last_of next ≡ last_of inner) where
    on_received-Awaits :
        (n now : ℕ) (s : LoopState Amendment Other) (inbox : List (TurnMessage Amendment Other))
        → completes_by turn_id n inbox ≡ true
        → is_some_id (last_of s.inner) turn_id ≡ false
        → Awaits turn_id n (on_received handle_other turn_id now s none inbox)
    unfolding handle_active_turn_message
    on_received-Awaits n now s [] h l = cc
    on_received-Awaits n now s (turn_completed turn ∷ ms) h l =
        elim (Bool-cases (text_eq turn.id turn_id)) [
          | inl y ↦
              after_stops n now (record s { inbox = ms }) (on_completion now s.inner turn_id turn)
                (stop_reason_of turn.status) (completion_stops now s.inner turn_id turn y l)
          | inr n0 ↦
              let (k, e, later) = behind n (turn_completed turn) ms n0 h in
              rw (e, completion_other now s.inner turn_id turn n0)
                (stalled-IsAwaited turn_id k now (record s { inbox = ms }) s.pending (later, l))
        ]
    on_received-Awaits n now s (command_approval request_id params ∷ ms) h l =
        let (k, e, later) = behind n (command_approval request_id params) ms refl h in
        rw e (later, l)
    on_received-Awaits n now s (other_message other ∷ ms) h l =
        let (k, e, later) = behind n (other_message other) ms refl h in
        rw e (
          after_message-Awaits k now (record s { inbox = ms }) (handle_other s.inner other)
            (λ inner r f. ap (λ last. is_some_id last turn_id) (keeps s.inner inner other r f) ∙ l)
            later)

    received-Awaits :
        (n now : ℕ) (r : Round Amendment Other)
        → IsReady turn_id n r
        → Awaits turn_id n (drive handle_other turn_id r (received now ∷ []))
    unfolding drive step
    received-Awaits n now (running s) h =
        rw (drive-nil (on_received handle_other turn_id now s s.pending s.inbox)) (
          subst (λ p. Awaits turn_id n (on_received handle_other turn_id now s p s.inbox)) (sym h.0)
            (on_received-Awaits n now s s.inbox h.1.0 h.1.1))
    received-Awaits zero now (stopped s reason) h = tt
    received-Awaits (suc n) now (stopped s reason) h = tt
    received-Awaits zero now (errored s) h = tt
    received-Awaits (suc n) now (errored s) h = tt

    events_of-Awaits :
        (n : ℕ) (r : Round Amendment Other) (b : Stretch Amendment Other)
        → is_fair b ≡ true
        → Awaits turn_id (suc n) r
        → Awaits turn_id n (drive handle_other turn_id r (events_of b))
    events_of-Awaits n r b fair h =
        let quiets = &&-true (all is_quiet b.before) (all is_quiet b.between) fair in
        let answered = approval_outcome b.answer ∷ [] in
        let then_received = received b.now ∷ [] in
        let r1 = drive handle_other turn_id r b.before in
        let r2 = drive handle_other turn_id r1 answered in
        let r3 = drive handle_other turn_id r2 b.between in
        rw
          (
            drive-append r b.before (answered ++ (b.between ++ then_received)),
            drive-append r1 answered (b.between ++ then_received),
            drive-append r2 b.between then_received,
          )
          (received-Awaits n b.now r3 (
            quiets-IsReady n r2 b.between quiets.1
              (outcome-IsReady n r1 b.answer (quiets-Awaits n r b.before quiets.0 h))))

    schedule-Awaits :
        (n : ℕ) (r : Round Amendment Other) (bs : List (Stretch Amendment Other))
        → n ≤ length bs
        → all is_fair bs ≡ true
        → Awaits turn_id n r
        → has_ended (drive handle_other turn_id r (schedule bs)) ≡ true
    unfolding drive
    schedule-Awaits n (stopped s reason) bs l fair h = refl
    schedule-Awaits n (errored s) bs l fair h = refl
    schedule-Awaits zero (running s) bs l fair h = absurd h
    schedule-Awaits (suc n) (running s) [] l fair h = absurd (omega arith)
    schedule-Awaits (suc n) (running s) (b ∷ bs) l fair h =
        let parts = &&-true (is_fair b) (all is_fair bs) fair in
        rw (drive-append (running s) (events_of b) (schedule bs)) (
          schedule-Awaits n (drive handle_other turn_id (running s) (events_of b)) bs (omega arith)
            parts.1 (events_of-Awaits n (running s) b parts.0 h))

-- A turn ends: if its completion is in the inbox behind at most `n` messages and was not seen
-- before, then the loop stops, or ends with an error, within `n + 1` stretches of time in each of
-- which the user's answer comes, if one is asked for, and the loop gets to receive after it. In
-- between messages may arrive, the user may cancel and the watchdog may tick at will, and the
-- other messages may do what they like, as long as they do not touch the last completed turn.
pub drive-has_ended :
    {Amendment Other : Type 0}
    (handle_other : ThreadInner → Other → Option (ThreadInner × Option StopReason)) (turn_id : Text)
    (n : ℕ) (s : LoopState Amendment Other) (stretches : List (Stretch Amendment Other))
    → ((inner next : ThreadInner) (other : Other) (r : Option StopReason)
        → handle_other inner other ≡ some (next, r)
        → last_of next ≡ last_of inner)
    → completes_by turn_id n s.inbox ≡ true
    → is_some_id s.inner.last_completed_turn_id turn_id ≡ false
    → n < length stretches
    → all is_fair stretches ≡ true
    → has_ended (drive handle_other turn_id (running s) (schedule stretches)) ≡ true
drive-has_ended handle_other turn_id n s stretches keeps h l enough fair =
    schedule-Awaits handle_other turn_id keeps (suc n) (running s) stretches (omega arith) fair
      (h, l)
