-- ===== src/Transport/Reader.antt =====
-- src/app_server/reader.rs: the reader that shares out the standard output of the backend.
use zed_codex_acp_cas.Common.{
  ℕ, false, ◌&&◌, List, [], ◌∷◌, ◌++◌, Option, none, some, if◌then◌else◌, is_empty,
}
use zed_codex_acp_cas.Common.Text.{Text, codes, trim}
use zed_codex_acp_cas.Transport.{
  RequestId, id_eq, JsonrpcMessage, Received, ActiveRequest, AppServer,
  should_reject_request_during_startup, request, notification, response, error, message, failed,
}

pub data ReaderAction : Type 0 where
  deliver_response : ℕ → JsonrpcMessage → ReaderAction
  reject_startup_request : RequestId → Text → Text → ReaderAction
  forward : JsonrpcMessage → ReaderAction

-- `classify_reader_action` of a response or an error with this id.
abbrev pub classify_response :
    RequestId → JsonrpcMessage → Option ActiveRequest → Option ActiveRequest × ReaderAction
classify_response id m none = (none, forward m)
classify_response id m (some active) =
    if id_eq active.request_id id
    then (none, deliver_response active.response_tx m)
    else (some active, forward m)

abbrev pub classify_request : RequestId → Text → Option ActiveRequest → ReaderAction
classify_request id method_name none = forward (request id method_name)
classify_request id method_name (some active) =
    if active.reject_startup_requests && should_reject_request_during_startup method_name
    then reject_startup_request id method_name active.method_name
    else forward (request id method_name)

-- `classify_reader_action`: what is left in the slot, and what to do.
abbrev pub classify_reader_action :
    Option ActiveRequest → JsonrpcMessage → Option ActiveRequest × ReaderAction
classify_reader_action slot (response id result) = classify_response id (response id result) slot
classify_reader_action slot (error id why) = classify_response id (error id why) slot
classify_reader_action slot (request id method_name) = (slot, classify_request id method_name slot)
classify_reader_action slot (notification what) = (slot, forward (notification what))

abbrev pub send_delivery : Option ActiveRequest → Text → List (ℕ × Received) → List (ℕ × Received)
send_delivery none why sent = sent
send_delivery (some active) why sent = sent ++ (active.response_tx, failed why) ∷ []

abbrev pub fail_active_request : Text → AppServer → AppServer
fail_active_request why t = record t {
  active_request = none;
  deliveries = send_delivery t.active_request why t.deliveries;
}

-- The end of the reader on an error: the waiting request and the inbox are told.
unfoldable pub stop_reader : Text → AppServer → AppServer
stop_reader why t =
    let u = fail_active_request why t in
    record u {
      inbox = if u.inbox_is_open then u.inbox ++ failed why ∷ [] else u.inbox;
      reader_runs = false;
    }

abbrev pub rejection : Text → Text → Text
rejection request_method awaited_method =
    codes "Cannot handle app-server request `"
    ++ (request_method
        ++ (codes "` while awaiting `" ++ (awaited_method ++ codes "` during startup")))

-- The match of `drive_app_server_stdout`; the first argument tells whether the pipe takes the line
-- that a rejection writes, or how it fails.
unfoldable pub act : Option Text → AppServer → ReaderAction → AppServer
unfolding stop_reader
act broken t (deliver_response response_tx m) = record t {
  deliveries = t.deliveries ++ (response_tx, message m) ∷ [];
}
act none t (reject_startup_request id request_method awaited_method) = record t {
  written = t.written ++ error id (rejection request_method awaited_method) ∷ [];
}
act (some why) t (reject_startup_request id request_method awaited_method) = stop_reader why t
act broken t (forward m) =
    if t.inbox_is_open
    then record t { inbox = t.inbox ++ message m ∷ [] }
    else record t { reader_runs = false }

unfoldable pub handle_message : Option Text → AppServer → JsonrpcMessage → AppServer
unfolding act
handle_message broken t m =
    let (slot, action) = classify_reader_action t.active_request m in
    act broken (record t { active_request = slot }) action

abbrev pub handle_line : Option Text → AppServer → Option JsonrpcMessage → AppServer
handle_line broken t none = t
handle_line broken t (some m) = handle_message broken t m

-- What the standard output gives: a line, a failure, or its end.
pub data Output : Type 0 where
  line : Text → Output
  read_failure : Text → Output
  end_of_output : Output

-- A line of `read_message_from_stdout`; `serde_json::from_str` is a parameter.
module _ (from_str : Text → Option JsonrpcMessage) where
  -- The message of a line, or `none` where the loop goes on to the next one.
  abbrev pub message_of_line : Text → Option JsonrpcMessage
  message_of_line l = let t = trim l in if is_empty t then none else from_str t

  -- One line of the standard output goes through `read_message_from_stdout` and the loop of
  -- `drive_app_server_stdout`.
  unfoldable pub drive : Option Text → AppServer → Output → AppServer
  unfolding stop_reader handle_message
  drive broken t (line l) = handle_line broken t (message_of_line l)
  drive broken t (read_failure why) =
      stop_reader (codes "failed to read app-server output: " ++ why) t
  drive broken t end_of_output = stop_reader (codes "codex app-server closed stdout") t
