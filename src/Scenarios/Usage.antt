-- ===== src/Scenarios/Usage.antt =====
-- A limit of which nine tenths are used.
use zed_codex_acp_cas.Common.{max, [], none, some, ◌≡◌, ltb, ◌==◌, if◌then◌else◌}
use zed_codex_acp_cas.Common.Text.{codes}
use zed_codex_acp_cas.Limits.{
  pos, RateLimitWindow, RateLimitSnapshot, RateLimitWarningState, clamp_percent,
  crossed_threshold_count, take_window_warning, take_rate_limit_warnings,
  observe_rate_limit_snapshot,
}
use zed_codex_acp_cas.Limits.Warnings.{Warns, left_at, take_window_warning_lem, warned_once}

abbrev five_hours : RateLimitWindow
five_hours = record {
  used_percent = pos 91;
  window_duration_mins = some (pos 300);
  resets_at = none;
}

abbrev snapshot : RateLimitSnapshot
snapshot = record {
  limit_id = none;
  limit_name = none;
  primary = some five_hours;
  secondary = none;
  credits = none;
}

abbrev unwarned : RateLimitWarningState
unwarned = record { primary_index = 0; secondary_index = 0 }

take_window_warning_lem_example :
    let crossed = crossed_threshold_count (clamp_percent (pos 91)) in
    let r = take_window_warning 1 (some five_hours) (codes "5-hour") in
    (r.0 ≡ (if crossed == 0 then 0 else max 1 crossed))
    × Warns (ltb 1 crossed) (left_at crossed) r.1
take_window_warning_lem_example = take_window_warning_lem 1 five_hours (codes "5-hour")

warned_once_example :
    ((take_rate_limit_warnings (observe_rate_limit_snapshot unwarned snapshot) snapshot).1 ≡ [])
    × ((take_rate_limit_warnings (take_rate_limit_warnings unwarned snapshot).0 snapshot).1 ≡ [])
warned_once_example = warned_once unwarned snapshot
