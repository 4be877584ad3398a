-- ===== src/Transport/Delivery.antt =====
-- Each call is answered at most once, and with a message of its own id.
pub mod Answers
use zed_codex_acp_cas.Common.{
  ℕ, suc, ◌+◌, ◌≤◌, ◌<◌, ◌%◌, Bool, true, false, not, ◌&&◌, List, [], ◌∷◌, ◌++◌, Option, none, some,
  ◌≡◌, refl, sym, subst, ap, ◌∙◌, arith, ◌==◌, if◌then◌else◌, all, Bool-cases, inl, inr,
}
use zed_codex_acp_cas.Common.Text.{Text, text_eq}
use zed_codex_acp_cas.Transport.{
  RequestId, integer, string, id_eq, JsonrpcMessage, request, notification, response, error,
  Received, message, failed, ActiveRequest, AppServer, spawned, send_request, write_request,
  drop_guard, holds,
}
use zed_codex_acp_cas.Transport.Reader.{drive, Output}

-- What happens to the state: a call begins, a call is over (answered, timed out or dropped), the
-- backend's output is read, the receiver of the inbox is dropped. The reader reads while it runs.
pub data Event : Type 0 where
  call : Bool → Bool → Text → Event
  call_over : RequestId → Event
  output : Option Text → Output → Event
  inbox_dropped : Event

module _ (from_str : Text → Option JsonrpcMessage) where
  abbrev pub read_while : Bool → Option Text → AppServer → Output → AppServer
  read_while true broken t o = drive from_str broken t o
  read_while false broken t o = t

  abbrev pub step : AppServer → Event → AppServer
  step t (call writes reject method_name) = send_request writes reject method_name t
  step t (call_over id) = drop_guard id t
  step t (output broken o) = read_while t.reader_runs broken t o
  step t inbox_dropped = record t { inbox_is_open = false }

  abbrev pub run : AppServer → List Event → AppServer
  run t [] = t
  run t (e ∷ es) = run (step t e) es

-- The id that the call of this number sends.
abbrev pub id_of : ℕ → RequestId
id_of call_number = integer ((call_number + 1) % 18446744073709551616)

-- The message is a response or an error with the id of the call.
abbrev pub answers : ℕ → Received → Bool
answers call_number (message (response id result)) = id_eq (id_of call_number) id
answers call_number (message (error id why)) = id_eq (id_of call_number) id
answers call_number (message (request id method_name)) = false
answers call_number (message (notification what)) = false
answers call_number (failed why) = true

-- How often the call is answered.
abbrev pub count : ℕ → List (ℕ × Received) → ℕ
count call_number [] = 0
count call_number ((n, r) ∷ ds) =
    if n == call_number then suc (count call_number ds) else count call_number ds

abbrev pub all_answer : List (ℕ × Received) → Bool
all_answer [] = true
all_answer ((n, r) ∷ ds) = answers n r && all_answer ds

abbrev pub IsWaiting : ℕ → List (ℕ × Received) → Option ActiveRequest → Type 0
IsWaiting calls ds none = Unit
IsWaiting calls ds (some a) =
    (a.response_tx < calls) × (a.request_id ≡ id_of a.response_tx) × (count a.response_tx ds ≡ 0)

pub record IsSound (next calls : ℕ) (active : Option ActiveRequest) (ds : List (ℕ × Received))
    : Type 0 where
  pub numbered : next ≡ (calls + 1) % 18446744073709551616
  pub waiting : IsWaiting calls ds active
  pub once : (n : ℕ) → count n ds ≤ 1
  pub begun : (n : ℕ) → calls ≤ n → count n ds ≡ 0
  pub own : all_answer ds ≡ true

abbrev pub Inv : AppServer → Type 0
Inv t = IsSound t.next_request_id t.calls t.active_request t.deliveries

count-snoc :
    (n k : ℕ) (r : Received) (ds : List (ℕ × Received))
    → count n (ds ++ (k, r) ∷ []) ≡ count n ds + (if k == n then 1 else 0)
count-snoc n k r [] = ground arith
count-snoc n k r ((m, x) ∷ ds) = ground (arith, count-snoc n k r ds)

all_answer-snoc :
    (k : ℕ) (r : Received) (ds : List (ℕ × Received))
    → all_answer ds ≡ true
    → answers k r ≡ true
    → all_answer (ds ++ (k, r) ∷ []) ≡ true
all_answer-snoc k r [] h a = ground arith
all_answer-snoc k r ((m, x) ∷ ds) h a = ground (arith, all_answer-snoc k r ds)

-- The waiting call is answered and leaves the slot.
pub deliver-IsSound :
    {next calls : ℕ} (a : ActiveRequest) {ds : List (ℕ × Received)} (r : Received)
    → IsSound next calls (some a) ds
    → answers a.response_tx r ≡ true
    → IsSound next calls none (ds ++ (a.response_tx, r) ∷ [])
deliver-IsSound {next} {calls} a {ds} r s h = record {
  numbered = s.numbered;
  waiting = tt;
  once = λ n. ground (arith, count-snoc n a.response_tx r ds, s.once n, s.waiting);
  begun = λ n late. ground (arith, count-snoc n a.response_tx r ds, s.begun n late, s.waiting);
  own = all_answer-snoc a.response_tx r ds s.own h;
}

-- The slot is emptied.
pub clear-IsSound :
    {next calls : ℕ} {active : Option ActiveRequest} {ds : List (ℕ × Received)}
    → IsSound next calls active ds
    → IsSound next calls none ds
clear-IsSound s = record {
  numbered = s.numbered;
  waiting = tt;
  once = s.once;
  begun = s.begun;
  own = s.own;
}

pub spawned-Inv : Inv spawned
spawned-Inv = record {
  numbered = refl;
  waiting = tt;
  once = λ n. omega arith;
  begun = λ n late. refl;
  own = refl;
}

pub drop_guard-Inv : (id : RequestId) (t : AppServer) → Inv t → Inv (drop_guard id t)
drop_guard-Inv id t s = elim (Bool-cases (holds t.active_request id)) [
  | inl own ↦ rw own (clear-IsSound s)
  | inr other ↦ rw other s
]

-- A number is taken for a call.
next-IsSound :
    {next calls : ℕ} (active : Option ActiveRequest) {ds : List (ℕ × Received)}
    → IsSound next calls active ds
    → IsSound ((next + 1) % 18446744073709551616) (calls + 1) active ds
next-IsSound none s = record {
  numbered = omega (arith, s.numbered);
  waiting = tt;
  once = s.once;
  begun = λ n late. s.begun n (omega arith);
  own = s.own;
}
next-IsSound (some a) s = record {
  numbered = omega (arith, s.numbered);
  waiting = (omega (arith, s.waiting.0), s.waiting.1, s.waiting.2);
  once = s.once;
  begun = λ n late. s.begun n (omega arith);
  own = s.own;
}

-- The call of the number that was taken last is put into the empty slot.
install-IsSound :
    {next calls : ℕ} (a : ActiveRequest) {ds : List (ℕ × Received)}
    → IsSound next calls none ds
    → a.response_tx ≡ calls
    → a.request_id ≡ integer next
    → IsSound ((next + 1) % 18446744073709551616) (calls + 1) (some a) ds
install-IsSound {next} {calls} a s tx id = record {
  numbered = omega (arith, s.numbered);
  waiting = (
    omega (arith, tx),
    id ∙ ap integer (s.numbered ∙ ap (λ n. (n + 1) % 18446744073709551616) (sym tx)),
    s.begun a.response_tx (omega (arith, tx)),
  );
  once = s.once;
  begun = λ n late. s.begun n (omega arith);
  own = s.own;
}

write_request-Inv :
    (writes : Bool) (id : RequestId) (method_name : Text) (t : AppServer)
    → Inv t
    → Inv (write_request writes id method_name t)
write_request-Inv true id method_name t s = s
write_request-Inv false id method_name t s = drop_guard-Inv id t s

pub installed-Inv :
    (writes reject : Bool) (method_name : Text) (t : AppServer) (active : Option ActiveRequest)
    → IsSound t.next_request_id t.calls active t.deliveries
    → active ≡ t.active_request
    → Inv (send_request writes reject method_name t)
unfolding send_request
installed-Inv writes reject method_name t (some a) s e = rw (sym e) (next-IsSound (some a) s)
installed-Inv writes reject method_name t none s e = rw (sym e) (
    write_request-Inv writes (integer t.next_request_id) method_name _
      (install-IsSound _ s refl refl))
