-- ===== src/Thread/Reconnect.antt =====
-- The progress of a turn and its reconnects: `mark_turn_progress` and the operations below it in
-- src/thread/core/inner_state.rs, the stall notice of src/thread/turn/execution.rs, and
-- src/thread/features/notification/events/reconnect.rs.
pub mod Notices
use zed_codex_acp_cas.Common.{
  ℕ, ◌+◌, ◌-◌, ◌^◌, Bool, true, false, not, ◌&&◌, ◌||◌, List, [], ◌∷◌, ◌++◌, Option, none, some,
  ◌>>=◌, ltb, leb, ◌==◌, if◌then◌else◌, min, is_empty,
}
use zed_codex_acp_cas.Common.Decimal.{parse_u32}
use zed_codex_acp_cas.Common.Text.{
  Text, codes, trim, split_once, is_whitespace, is_ascii_digit, trim_start_matches,
  trim_end_matches,
}
use zed_codex_acp_cas.Thread.State.{ThreadInner, send_system_message}

-- `ThreadInner::mark_turn_progress`.
unfoldable pub mark_turn_progress : ℕ → ThreadInner → ThreadInner
mark_turn_progress now inner = record inner {
  turn_last_progress_at = now;
  turn_reconnect_warning_count = 0;
  turn_reconnect_retry_limit_hit = false;
  turn_last_reconnect_progress = none;
  turn_reconnect_stall_notice_sent = false;
}

-- `Some((current, total)) == …`.
abbrev pub is_progress : Option (ℕ × ℕ) → ℕ → ℕ → Bool
is_progress none current total = false
is_progress (some (c, t)) current total = c == current && t == total

-- `u32::saturating_add(1)`.
abbrev pub saturating_suc_u32 : ℕ → ℕ
saturating_suc_u32 n = min (n + 1) (2 ^ 32 - 1)

-- `ThreadInner::note_reconnect_progress`.
unfoldable pub note_reconnect_progress : ℕ → ThreadInner → ℕ → ℕ → ThreadInner × Bool
note_reconnect_progress now inner current total =
    let is_new_progress = not (is_progress inner.turn_last_reconnect_progress current total) in
    (
      record inner {
        turn_last_progress_at = now;
        turn_reconnect_warning_count =
            if is_new_progress
            then saturating_suc_u32 inner.turn_reconnect_warning_count
            else inner.turn_reconnect_warning_count;
        turn_last_reconnect_progress =
            if is_new_progress then some (current, total) else inner.turn_last_reconnect_progress;
        turn_reconnect_retry_limit_hit =
            if leb total current then true else inner.turn_reconnect_retry_limit_hit;
      },
      is_new_progress,
    )

-- `ThreadInner::mark_reconnect_stall_notice_sent`.
unfoldable pub mark_reconnect_stall_notice_sent : ThreadInner → ThreadInner × Bool
mark_reconnect_stall_notice_sent inner =
    if inner.turn_reconnect_stall_notice_sent
    then (inner, false)
    else (record inner { turn_reconnect_stall_notice_sent = true }, true)

-- `trim_matches` of the characters that are no digits.
abbrev pub trim_non_digits : Text → Text
trim_non_digits s =
    trim_end_matches (λ c. not (is_ascii_digit c))
      (trim_start_matches (λ c. not (is_ascii_digit c)) s)

-- The characters up to the next white space.
unfoldable pub take_word : Text → Text
take_word [] = []
take_word (c ∷ cs) = let rest = take_word cs in if is_whitespace c then [] else c ∷ rest

-- `split_whitespace().next().unwrap_or(rest)`.
unfoldable pub first_word_or_all : Text → Text
unfolding take_word trim_start_matches
first_word_or_all rest =
    let word = take_word (trim_start_matches is_whitespace rest) in
    if is_empty word then rest else word

unfoldable pub parse_reconnect_progress : Text → Option (ℕ × ℕ)
unfolding first_word_or_all
parse_reconnect_progress message = do
  found ← split_once (codes "Reconnecting... ") (trim message)
  parts ← split_once (codes "/") found.1
  current ← parse_u32 (trim parts.0)
  total ← parse_u32 (trim_non_digits (first_word_or_all parts.1))
  some (current, total)

-- The grace periods, in milliseconds.
abbrev pub reconnect_stall_grace_period : ℕ
reconnect_stall_grace_period = 12000

abbrev pub reconnect_silent_stall_grace_period : ℕ
reconnect_silent_stall_grace_period = 20000

abbrev pub reconnect_stall_warning_threshold : ℕ
reconnect_stall_warning_threshold = 5

-- `classify_turn_stall_notice` is `Some(StallNoticeKind::Reconnect)`; the enum has one value.
unfoldable pub classify_turn_stall_notice : ℕ → Bool → ℕ → Bool
classify_turn_stall_notice warning_count retry_limit_hit since_last_progress =
    (retry_limit_hit
      && leb reconnect_stall_warning_threshold warning_count
      && leb reconnect_stall_grace_period since_last_progress)
    || (leb 1 warning_count && leb reconnect_silent_stall_grace_period since_last_progress)

abbrev pub reconnect_stall_message : Text
reconnect_stall_message =
    codes
      "Reconnect attempts are taking longer than expected. Keeping this turn open so recovered output is still delivered. You can cancel and retry if it does not resume."

-- `maybe_report_turn_stall`.
unfoldable pub maybe_report_turn_stall : ℕ → ThreadInner → ThreadInner
unfolding classify_turn_stall_notice mark_reconnect_stall_notice_sent
maybe_report_turn_stall now inner =
    if classify_turn_stall_notice inner.turn_reconnect_warning_count
      inner.turn_reconnect_retry_limit_hit (now - inner.turn_last_progress_at)
    then (let (marked, first) = mark_reconnect_stall_notice_sent inner in
        if first
        then send_system_message marked (codes "status") (codes "Still reconnecting")
            reconnect_stall_message
        else marked)
    else inner
