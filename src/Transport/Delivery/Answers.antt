-- ===== src/Transport/Delivery/Answers.antt =====
-- What the reader does keeps the answers sound, and so does every sequence of events.
use zed_codex_acp_cas.Common.{
  ℕ, ◌≤◌, Bool, true, false, ◌&&◌, ◌||◌, List, [], ◌∷◌, Option, none, some, ◌≡◌, refl, sym, ap, ◌∙◌,
  arith, Bool-cases, Option-cases, inl, inr,
}
use zed_codex_acp_cas.Common.Text.{Text}
use zed_codex_acp_cas.Transport.{
  RequestId, integer, string, id_eq, JsonrpcMessage, request, notification, response, error,
  Received, message, failed, ActiveRequest, AppServer, spawned, CallResult, decoded, call_failed,
  unexpected_message, finish_call, should_reject_request_during_startup,
}
use zed_codex_acp_cas.Transport.Reader.{
  stop_reader, act, handle_message, handle_line, message_of_line, drive, Output, line, read_failure,
  end_of_output, reject_startup_request, forward, classify_request, classify_response,
}
use zed_codex_acp_cas.Transport.Delivery.{
  Event, call, call_over, output, inbox_dropped, read_while, step, run, id_of, answers, count,
  all_answer, IsSound, Inv, deliver-IsSound, spawned-Inv, drop_guard-Inv, installed-Inv,
}

stop_reader-Inv :
    (why : Text) (t : AppServer) (active : Option ActiveRequest)
    → IsSound t.next_request_id t.calls active t.deliveries
    → active ≡ t.active_request
    → Inv (stop_reader why t)
unfolding stop_reader
stop_reader-Inv why t none s e = rw (sym e) s
stop_reader-Inv why t (some a) s e = rw (sym e) (deliver-IsSound a (failed why) s refl)

forward-Inv :
    (broken : Option Text) (t : AppServer) (m : JsonrpcMessage)
    → Inv t
    → Inv (act broken t (forward m))
unfolding act
forward-Inv broken t m s = elim (Bool-cases t.inbox_is_open) [
  | inl opened ↦ rw opened s
  | inr gone ↦ rw gone s
]

reject-Inv :
    (broken : Option Text) (t : AppServer) (id : RequestId) (asked awaited : Text)
    → Inv t
    → Inv (act broken t (reject_startup_request id asked awaited))
unfolding act
reject-Inv none t id asked awaited s = s
reject-Inv (some why) t id asked awaited s = stop_reader-Inv why t t.active_request s refl

handle_request-Inv :
    (broken : Option Text) (t : AppServer) (id : RequestId) (asked : Text)
    (active : Option ActiveRequest)
    → Inv t
    → Inv (act broken t (classify_request id asked active))
handle_request-Inv broken t id asked none s = forward-Inv broken t (request id asked) s
handle_request-Inv broken t id asked (some a) s =
    let rejects = a.reject_startup_requests && should_reject_request_during_startup asked in
    elim (Bool-cases rejects) [
      | inl on ↦ rw on (reject-Inv broken t id asked a.method_name s)
      | inr off ↦ rw off (forward-Inv broken t (request id asked) s)
    ]

module _ (id : RequestId) (m : JsonrpcMessage)
    (own : (n : ℕ) → id_eq (id_of n) id ≡ true → answers n (message m) ≡ true) where
  handle_response-Inv :
      (broken : Option Text) (t : AppServer) (active : Option ActiveRequest)
      → IsSound t.next_request_id t.calls active t.deliveries
      → let r = classify_response id m active in
        Inv (act broken (record t { active_request = r.0 }) r.1)
  unfolding act
  handle_response-Inv broken t none s = forward-Inv broken (record t { active_request = none }) m s
  handle_response-Inv broken t (some a) s = elim (Bool-cases (id_eq a.request_id id)) [
    | inl same ↦ rw same (
        deliver-IsSound a (message m) s
          (own a.response_tx (ap (λ x. id_eq x id) (sym s.waiting.1) ∙ same)))
    | inr other ↦ rw other (forward-Inv broken (record t { active_request = some a }) m s)
  ]

handle_message-Inv :
    (broken : Option Text) (t : AppServer) (m : JsonrpcMessage)
    → Inv t
    → Inv (handle_message broken t m)
unfolding handle_message
handle_message-Inv broken t (request id asked) s =
    handle_request-Inv broken t id asked t.active_request s
handle_message-Inv broken t (notification what) s = forward-Inv broken t (notification what) s
handle_message-Inv broken t (response id result) s =
    handle_response-Inv id (response id result) (λ n h. h) broken t t.active_request s
handle_message-Inv broken t (error id why) s =
    handle_response-Inv id (error id why) (λ n h. h) broken t t.active_request s

handle_line-Inv :
    (broken : Option Text) (t : AppServer) (m : Option JsonrpcMessage)
    → Inv t
    → Inv (handle_line broken t m)
handle_line-Inv broken t none s = s
handle_line-Inv broken t (some m) s = handle_message-Inv broken t m s

module _ (from_str : Text → Option JsonrpcMessage) where
  drive-Inv :
      (broken : Option Text) (t : AppServer) (o : Output) → Inv t → Inv (drive from_str broken t o)
  unfolding drive
  drive-Inv broken t (line l) s = handle_line-Inv broken t (message_of_line from_str l) s
  drive-Inv broken t (read_failure why) s = stop_reader-Inv _ t t.active_request s refl
  drive-Inv broken t end_of_output s = stop_reader-Inv _ t t.active_request s refl

  read_while-Inv :
      (runs : Bool) (broken : Option Text) (t : AppServer) (o : Output)
      → Inv t
      → Inv (read_while from_str runs broken t o)
  read_while-Inv true broken t o s = drive-Inv broken t o s
  read_while-Inv false broken t o s = s

  step-Inv : (t : AppServer) (e : Event) → Inv t → Inv (step from_str t e)
  step-Inv t (call writes reject asked) s =
      installed-Inv writes reject asked t t.active_request s refl
  step-Inv t (call_over id) s = drop_guard-Inv id t s
  step-Inv t (output broken o) s = read_while-Inv t.reader_runs broken t o s
  step-Inv t inbox_dropped s = s

  run-Inv : (t : AppServer) (es : List Event) → Inv t → Inv (run from_str t es)
  run-Inv t [] s = s
  run-Inv t (e ∷ es) s = run-Inv (step from_str t e) es (step-Inv t e s)

  -- Whatever calls are made and dropped and whatever the backend writes, in any order, no call is
  -- answered twice, and a call that is answered with a message gets a response or an error that
  -- carries the id which it sent.
  pub answers_once :
      (es : List Event)
      → let answered = (run from_str spawned es).deliveries in
        ((n : ℕ) → count n answered ≤ 1) × (all_answer answered ≡ true)
  answers_once es = let s = run-Inv spawned es spawned-Inv in (s.once, s.own)

abbrev pub is_unexpected {ℓ} : {A : Type ℓ} → CallResult A → Bool
is_unexpected (decoded a) = false
is_unexpected (call_failed why) = false
is_unexpected (unexpected_message m) = true

-- Some call ends with an unexpected message.
abbrev pub any_unexpected {ℓ} : {A : Type ℓ} → (Text → Option A) → Text → List (ℕ × Received) → Bool
any_unexpected from_value method_name [] = false
any_unexpected from_value method_name ((n, r) ∷ ds) =
    is_unexpected (finish_call from_value (id_of n) method_name r)
    || any_unexpected from_value method_name ds

finish_call-answers {ℓ} :
    {A : Type ℓ} (from_value : Text → Option A) (method_name : Text) (n : ℕ) (r : Received)
    → answers n r ≡ true
    → is_unexpected (finish_call from_value (id_of n) method_name r) ≡ false
unfolding finish_call
finish_call-answers from_value method_name n (failed why) h = refl
finish_call-answers from_value method_name n (message (response (integer i) result)) h =
    elim (Option-cases (from_value result)) [
      | inl e ↦ ground (arith, e)
      | inr (a, e) ↦ ground (arith, e)
    ]
finish_call-answers from_value method_name n (message (error (integer i) why)) h = ground arith
finish_call-answers from_value method_name n (message (response (string i) result)) h = ground arith
finish_call-answers from_value method_name n (message (error (string i) why)) h = ground arith
finish_call-answers from_value method_name n (message (request id asked)) h = ground arith
finish_call-answers from_value method_name n (message (notification what)) h = ground arith

any_unexpected-answers {ℓ} :
    {A : Type ℓ} (from_value : Text → Option A) (method_name : Text) (ds : List (ℕ × Received))
    → all_answer ds ≡ true
    → any_unexpected from_value method_name ds ≡ false
any_unexpected-answers from_value method_name [] h = refl
any_unexpected-answers from_value method_name ((n, r) ∷ ds) h = ground (
  arith,
  finish_call-answers from_value method_name n r,
  any_unexpected-answers from_value method_name ds,
)

-- No call ever ends with the error for a message that it did not wait for.
pub calls_end_expected {ℓ} :
    {A : Type ℓ} (from_str : Text → Option JsonrpcMessage) (from_value : Text → Option A)
    (method_name : Text) (es : List Event)
    → any_unexpected from_value method_name (run from_str spawned es).deliveries ≡ false
calls_end_expected from_str from_value method_name es =
    any_unexpected-answers from_value method_name _ (answers_once from_str es).1
