-- ===== src/Transport/Accounting.antt =====
-- No message of the backend is lost while the reader runs.
use zed_codex_acp_cas.Common.{
  ℕ, suc, ◌+◌, Bool, true, false, List, [], ◌∷◌, ◌++◌, Option, none, some, ◌≡◌, refl, sym, ap, ◌∙◌,
  arith, length, length-snoc, Option-cases, inl, inr,
}
use zed_codex_acp_cas.Common.Text.{Text, codes}
use zed_codex_acp_cas.Transport.{
  RequestId, JsonrpcMessage, request, notification, response, error, AppServer, spawned,
  send_request,
}
use zed_codex_acp_cas.Transport.Reader.{
  stop_reader, act, handle_message, handle_line, message_of_line, drive, Output, line, read_failure,
  end_of_output, ReaderAction, deliver_response, reject_startup_request, forward,
  classify_reader_action,
}
use zed_codex_acp_cas.Transport.Delivery.{
  Event, call, call_over, output, inbox_dropped, read_while, step, run,
}

-- The errors that were written: the refusals of requests of the backend.
abbrev pub rejections : List JsonrpcMessage → ℕ
rejections [] = 0
rejections (error id why ∷ ms) = suc (rejections ms)
rejections (request id method_name ∷ ms) = rejections ms
rejections (notification what ∷ ms) = rejections ms
rejections (response id result ∷ ms) = rejections ms

-- What was answered, refused or forwarded.
abbrev pub handled : AppServer → ℕ
handled t = length t.deliveries + rejections t.written + length t.inbox

rejections-error :
    (ms : List JsonrpcMessage) (id : RequestId) (why : Text)
    → rejections (ms ++ error id why ∷ []) ≡ rejections ms + 1
rejections-error [] id why = refl
rejections-error (error i w ∷ ms) id why = omega (arith, rejections-error ms id why)
rejections-error (request i w ∷ ms) id why = rejections-error ms id why
rejections-error (notification w ∷ ms) id why = rejections-error ms id why
rejections-error (response i w ∷ ms) id why = rejections-error ms id why

rejections-request :
    (ms : List JsonrpcMessage) (id : RequestId) (asked : Text)
    → rejections (ms ++ request id asked ∷ []) ≡ rejections ms
rejections-request [] id asked = refl
rejections-request (error i w ∷ ms) id asked = ap suc (rejections-request ms id asked)
rejections-request (request i w ∷ ms) id asked = rejections-request ms id asked
rejections-request (notification w ∷ ms) id asked = rejections-request ms id asked
rejections-request (response i w ∷ ms) id asked = rejections-request ms id asked

send_request-handled :
    (writes reject : Bool) (asked : Text) (t : AppServer)
    → (handled (send_request writes reject asked t) ≡ handled t)
      × ((send_request writes reject asked t).reader_runs ≡ t.reader_runs)
unfolding send_request
send_request-handled writes reject asked t = grind (arith, rejections-request)

act-handled :
    (broken : Option Text) (t : AppServer) (a : ReaderAction)
    → (act broken t a).reader_runs ≡ true
    → handled (act broken t a) ≡ handled t + 1
unfolding act stop_reader
act-handled broken t (deliver_response tx m) h = grind (arith, length-snoc)
act-handled none t (reject_startup_request id asked awaited) h = grind (arith, rejections-error)
act-handled (some why) t (reject_startup_request id asked awaited) h = ground arith
act-handled broken t (forward m) h = grind (arith, length-snoc)

module _ (from_str : Text → Option JsonrpcMessage) where
  -- The messages that the output holds.
  abbrev pub messages : List Event → ℕ
  messages [] = 0
  messages (output broken (line l) ∷ es) = elim (message_of_line from_str l) [
    | some m ↦ suc (messages es)
    | none ↦ messages es
  ]
  messages (output broken (read_failure why) ∷ es) = messages es
  messages (output broken end_of_output ∷ es) = messages es
  messages (call writes reject asked ∷ es) = messages es
  messages (call_over id ∷ es) = messages es
  messages (inbox_dropped ∷ es) = messages es

  handle_line-handled :
      (broken : Option Text) (t : AppServer) (m : Option JsonrpcMessage)
      → (handle_line broken t m).reader_runs ≡ true
      → handled (handle_line broken t m) ≡ handled t + elim m [ none ↦ 0 | some x ↦ 1 ]
  unfolding handle_message
  handle_line-handled broken t none h = omega arith
  handle_line-handled broken t (some m) h =
      act-handled broken
        (record t { active_request = (classify_reader_action t.active_request m).0 })
        (classify_reader_action t.active_request m).1 h

  stop_reader-stops : (why : Text) (t : AppServer) → (stop_reader why t).reader_runs ≡ false
  unfolding stop_reader
  stop_reader-stops why t = refl

  read_while-handled :
      (runs : Bool) (broken : Option Text) (t : AppServer) (o : Output)
      → runs ≡ t.reader_runs
      → (read_while from_str runs broken t o).reader_runs ≡ true
      → (handled (read_while from_str runs broken t o)
          ≡ handled t + messages (output broken o ∷ []))
        × (t.reader_runs ≡ true)
  unfolding drive
  read_while-handled false broken t o e h = ground arith
  read_while-handled true broken t (line l) e h =
      let counted = handle_line-handled broken t (message_of_line from_str l) h in
      (
        elim (Option-cases (message_of_line from_str l)) [
          | inl w ↦ ground (arith, counted, w)
          | inr (m, w) ↦ ground (arith, counted, w)
        ],
        sym e,
      )
  read_while-handled true broken t (read_failure why) e h =
      ground (arith, stop_reader-stops (codes "failed to read app-server output: " ++ why) t)
  read_while-handled true broken t end_of_output e h =
      ground (arith, stop_reader-stops (codes "codex app-server closed stdout") t)

  step-handled :
      (t : AppServer) (e : Event)
      → (step from_str t e).reader_runs ≡ true
      → (handled (step from_str t e) ≡ handled t + messages (e ∷ [])) × (t.reader_runs ≡ true)
  step-handled t (call writes reject asked) h =
      let (same, runs) = send_request-handled writes reject asked t in
      (omega (arith, same), sym runs ∙ h)
  step-handled t (call_over id) h = ground arith
  step-handled t (output broken o) h = read_while-handled t.reader_runs broken t o refl h
  step-handled t inbox_dropped h = (omega arith, h)

  messages-cons :
      (e : Event) (es : List Event) → messages (e ∷ es) ≡ messages (e ∷ []) + messages es
  messages-cons (output broken (line l)) es = ground arith
  messages-cons (output broken (read_failure why)) es = omega arith
  messages-cons (output broken end_of_output) es = omega arith
  messages-cons (call writes reject asked) es = omega arith
  messages-cons (call_over id) es = omega arith
  messages-cons inbox_dropped es = omega arith

  run-handled :
      (es : List Event) (t : AppServer)
      → (run from_str t es).reader_runs ≡ true
      → (handled (run from_str t es) ≡ handled t + messages es) × (t.reader_runs ≡ true)
  run-handled [] t h = (omega arith, h)
  run-handled (e ∷ es) t h =
      let (later, runs) = run-handled es (step from_str t e) h in
      let (here, begun) = step-handled t e runs in
      (omega (arith, later, here, messages-cons e es), begun)

  -- As long as the reader runs, the answers given to calls, the refusals and the inbox together
  -- are as many as the messages that the backend wrote, whatever calls are made and dropped in
  -- between.
  pub handled-messages :
      (es : List Event)
      → (run from_str spawned es).reader_runs ≡ true
      → handled (run from_str spawned es) ≡ messages es
  handled-messages es h = omega (arith, (run-handled es spawned h).0)
