-- ===== src/Scenarios/Backend.antt =====
-- A backend that asks, answers and answers again.
use zed_codex_acp_cas.Common.{
  ℕ, ◌<◌, ◌≤◌, ◌^◌, true, false, List, [], ◌∷◌, Option, none, some, ◌≡◌, refl, ◌==◌, if◌then◌else◌,
}
use zed_codex_acp_cas.Common.Text.{Text, codes, trim}
use zed_codex_acp_cas.Common.Decimal.{parse_unsigned}
use zed_codex_acp_cas.Transport.{
  JsonrpcMessage, integer, request, notification, response, spawned, send_request,
}
use zed_codex_acp_cas.Transport.Reader.{line, drive, handle_message, act}
use zed_codex_acp_cas.Transport.Policy.{
  EnvVar, present, limit, request_timeout, request_timeout_bounds, configured_timeout,
  parse_timeout_override,
}
use zed_codex_acp_cas.Transport.Delivery.{Event, call, call_over, output, run, count, all_answer}
use zed_codex_acp_cas.Transport.Delivery.Answers.{answers_once, any_unexpected, calls_end_expected}
use zed_codex_acp_cas.Transport.Accounting.{handled, messages, handled-messages}

-- A toy wire format: one letter for the kind of the message.
abbrev decode : Text → Option JsonrpcMessage
decode [] = none
decode (c ∷ cs) =
    if c == b'1'
    then some (response (integer 1) cs)
    else if c == b'2'
    then some (response (integer 2) cs)
    else if c == b'q'
    then some (request (integer 7) cs)
    else if c == b'n'
    then some (notification cs)
    else none

-- Two calls; the first response comes twice, the second one late, and one line is no message.
abbrev events : List Event
events =
    call true true (codes "initialize")
    ∷ output none (line (codes "qapplyPatchApproval"))
    ∷ output none (line (codes "1 ok"))
    ∷ output none (line (codes "1 ok"))
    ∷ output none (line (codes "?"))
    ∷ call true false (codes "model/list")
    ∷ call_over (integer 2)
    ∷ output none (line (codes "2 late"))
    ∷ output none (line (codes "nturn"))
    ∷ []

runs_to_the_end : (run decode spawned events).reader_runs ≡ true
unfolding send_request drive handle_message act trim
runs_to_the_end = refl

answers_once_example :
    ((n : ℕ) → count n (run decode spawned events).deliveries ≤ 1)
    × (all_answer (run decode spawned events).deliveries ≡ true)
answers_once_example = answers_once decode events

calls_end_expected_example :
    any_unexpected some (codes "initialize") (run decode spawned events).deliveries ≡ false
calls_end_expected_example = calls_end_expected decode some (codes "initialize") events

handled-messages_example : handled (run decode spawned events) ≡ messages decode events
handled-messages_example = handled-messages decode events runs_to_the_end

abbrev env : Text → EnvVar
env name = present (codes " 1500 ")

overridden : request_timeout env (codes "turn/start") ≡ limit 1500
unfolding request_timeout configured_timeout parse_timeout_override parse_unsigned trim
overridden = refl

request_timeout_bounds_example : (0 < 1500) × (1500 < 2 ^ 64)
request_timeout_bounds_example = request_timeout_bounds env (codes "turn/start") 1500 overridden
