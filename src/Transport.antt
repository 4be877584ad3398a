-- ===== src/Transport.antt =====
-- src/app_server.rs: requests to the backend over its standard input, and the slot of the waiting
-- request of src/app_server/reader.rs.
--
-- The request side and the reader run interleaved: `AppServer` is the state that they share, and
-- an operation is what happens between two `await`s. The mutex of the slot is taken within one
-- operation each, so it is never poisoned. A oneshot channel is named by the number of the call
-- that made it, and `deliveries` are the sends into these channels.
pub mod Policy
pub mod Reader
pub mod Delivery
pub mod Accounting
use zed_codex_acp_cas.Common.{
  ℕ, ◌+◌, Bool, true, false, not, ◌&&◌, List, [], ◌∷◌, ◌++◌, Option, none, some, ◌==◌,
  if◌then◌else◌, is_empty, any, ◌%◌,
}
use zed_codex_acp_cas.Common.Text.{Text, codes, text_eq, trim}

-- `RequestId`; an `i64` is given as its two's complement.
pub data RequestId : Type 0 where
  integer : ℕ → RequestId
  string : Text → RequestId

abbrev pub id_eq : RequestId → RequestId → Bool
id_eq (integer a) (integer b) = a == b
id_eq (integer a) (string b) = false
id_eq (string a) (integer b) = false
id_eq (string a) (string b) = text_eq a b

-- `JSONRPCMessage`; results and errors are given as their texts.
pub data JsonrpcMessage : Type 0 where
  request : RequestId → Text → JsonrpcMessage
  notification : Text → JsonrpcMessage
  response : RequestId → Text → JsonrpcMessage
  error : RequestId → Text → JsonrpcMessage

-- `Result<JSONRPCMessage, Error>`.
pub data Received : Type 0 where
  message : JsonrpcMessage → Received
  failed : Text → Received

pub record ActiveRequest : Type 0 where
  pub request_id : RequestId
  pub method_name : Text
  pub reject_startup_requests : Bool
  pub response_tx : ℕ

pub record AppServer : Type 0 where
  pub next_request_id : ℕ
  pub calls : ℕ
  pub active_request : Option ActiveRequest
  pub written : List JsonrpcMessage
  pub inbox : List Received
  pub inbox_is_open : Bool
  pub deliveries : List (ℕ × Received)
  pub reader_runs : Bool

-- What `spawn` returns.
abbrev pub spawned : AppServer
spawned = record {
  next_request_id = 1;
  calls = 0;
  active_request = none;
  written = [];
  inbox = [];
  inbox_is_open = true;
  deliveries = [];
  reader_runs = true;
}

abbrev pub should_reject_request_during_startup : Text → Bool
should_reject_request_during_startup method_name = any (text_eq method_name) (
    codes "mcpServer/elicitation/request"
    ∷ codes "account/chatgptAuthTokens/refresh"
    ∷ codes "applyPatchApproval"
    ∷ codes "execCommandApproval"
    ∷ [])

-- `next_request_id`: the id, and the state behind the call; an `i64` wraps around.
abbrev pub next_request_id : AppServer → RequestId × AppServer
next_request_id t = (
  integer t.next_request_id,
  record t {
    next_request_id = (t.next_request_id + 1) % 18446744073709551616;
    calls = t.calls + 1;
  },
)

-- `ActiveRequestGuard::install`, with `none` where it refuses.
abbrev pub install : Option ActiveRequest → ActiveRequest → Option ActiveRequest
install none active = some active
install (some other) active = none

-- The slot holds the request with this id.
abbrev pub holds : Option ActiveRequest → RequestId → Bool
holds none id = false
holds (some active) id = id_eq active.request_id id

-- The guard is dropped.
abbrev pub drop_guard : RequestId → AppServer → AppServer
drop_guard id t = if holds t.active_request id then record t { active_request = none } else t

-- `write_json` of a request; the flag tells whether the pipe takes the line.
abbrev pub write_request : Bool → RequestId → Text → AppServer → AppServer
write_request writes id method_name t =
    if writes
    then record t { written = t.written ++ request id method_name ∷ [] }
    else drop_guard id t

abbrev pub installed : Bool → RequestId → Text → AppServer → Option ActiveRequest → AppServer
installed writes id method_name t none = t
installed writes id method_name t (some active) =
    write_request writes id method_name (record t { active_request = some active })

-- `request_inner` and `raw_request` up to the wait for the response.
unfoldable pub send_request : Bool → Bool → Text → AppServer → AppServer
send_request writes reject_startup_requests method_name t =
    let (id, u) = next_request_id t in
    installed writes id method_name u (
      install u.active_request (record {
        request_id = id;
        method_name = method_name;
        reject_startup_requests = reject_startup_requests;
        response_tx = t.calls;
      }))

-- `Result<T, Error>` of a request, with the error of a message that was not awaited apart.
pub data CallResult {ℓ} (A : Type ℓ) : Type ℓ where
  decoded : A → CallResult A
  call_failed : Text → CallResult A
  unexpected_message : JsonrpcMessage → CallResult A

abbrev pub decode_result {ℓ} : {A : Type ℓ} → Text → Option A → CallResult A
decode_result method_name none =
    call_failed (codes "failed to decode `" ++ (method_name ++ codes "` response payload"))
decode_result method_name (some value) = decoded value

-- The end of `request_inner` and `raw_request`, which are the same; `serde_json::from_value` is a
-- parameter, and the text of an error stands for its message and code.
unfoldable pub finish_call {ℓ} :
    {A : Type ℓ} → (Text → Option A) → RequestId → Text → Received → CallResult A
finish_call from_value request_id method_name (failed why) = call_failed why
finish_call from_value request_id method_name (message (response id result)) =
    if id_eq id request_id
    then decode_result method_name (from_value result)
    else unexpected_message (response id result)
finish_call from_value request_id method_name (message (error id why)) =
    if id_eq id request_id
    then call_failed (method_name ++ (codes " failed: " ++ why))
    else unexpected_message (error id why)
finish_call from_value request_id method_name (message (request id asked)) =
    unexpected_message (request id asked)
finish_call from_value request_id method_name (message (notification what)) =
    unexpected_message (notification what)
