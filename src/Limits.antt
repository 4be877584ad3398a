-- ===== src/Limits.antt =====
-- src/thread/session/config/limits.rs: the warnings of the account's rate limits, and how a limit
-- is shown.
pub mod Warnings
use zed_codex_acp_cas.Common.{
  ℕ, ◌+◌, ◌-◌, ◌/◌, ◌%◌, ◌<◌, min, max, Bool, true, false, not, ◌&&◌, List, [], ◌∷◌, ◌++◌, Option,
  none, some, ltb, leb, ◌==◌, if◌then◌else◌, drop, is_empty,
}
use zed_codex_acp_cas.Common.Text.{Text, codes, text_eq, trim}
use zed_codex_acp_cas.Common.Decimal.{show}

-- A signed integer; `negsuc n` is `-(n + 1)`.
pub data ℤ : Type 0 where
  pos : ℕ → ℤ
  negsuc : ℕ → ℤ

pub record RateLimitWindow : Type 0 where
  pub used_percent : ℤ
  pub window_duration_mins : Option ℤ
  pub resets_at : Option ℤ

pub record CreditsSnapshot : Type 0 where
  pub has_credits : Bool
  pub unlimited : Bool
  pub balance : Option Text

pub record RateLimitSnapshot : Type 0 where
  pub limit_id : Option Text
  pub limit_name : Option Text
  pub primary : Option RateLimitWindow
  pub secondary : Option RateLimitWindow
  pub credits : Option CreditsSnapshot

pub record RateLimitWarningState : Type 0 where
  pub primary_index : ℕ
  pub secondary_index : ℕ

pub record RateLimitWarning : Type 0 where
  pub label : Text
  pub remaining_percent : Option ℕ

abbrev pub rate_limit_warning_thresholds : List ℕ
rate_limit_warning_thresholds = 75 ∷ 90 ∷ 95 ∷ 100 ∷ []

unfoldable pub clamp_percent : ℤ → ℕ
clamp_percent (pos n) = min n 100
clamp_percent (negsuc n) = 0

unfoldable pub remaining_percent : ℤ → ℕ
unfolding clamp_percent
remaining_percent used_percent = 100 - clamp_percent used_percent

-- `take_while(|threshold| used_percent >= threshold).count()`.
unfoldable pub count_reached : ℕ → List ℕ → ℕ
count_reached used_percent [] = 0
count_reached used_percent (t ∷ ts) =
    let rest = count_reached used_percent ts in if leb t used_percent then rest + 1 else 0

unfoldable pub crossed_threshold_count : ℕ → ℕ
unfolding count_reached
crossed_threshold_count used_percent = count_reached used_percent rate_limit_warning_thresholds

unfoldable pub reset_window_warning_index_after_reset : ℕ → ℕ → ℕ
unfolding crossed_threshold_count
reset_window_warning_index_after_reset warning_index used_percent =
    if crossed_threshold_count used_percent == 0 then 0 else warning_index

-- The loop of `take_window_warning` over the thresholds from `warning_index` on.
unfoldable pub threshold_loop : ℕ → ℕ → Option ℕ → List ℕ → ℕ × Option ℕ
threshold_loop used_percent warning_index highest [] = (warning_index, highest)
threshold_loop used_percent warning_index highest (t ∷ ts) =
    let later = threshold_loop used_percent (warning_index + 1) (some t) ts in
    if leb t used_percent then later else (warning_index, highest)

-- `limit_duration_label` for a duration of some minutes. Past the largest `i64` the sum wraps
-- around to a negative number, which `max` lifts to one day.
abbrev pub positive_duration_label : ℕ → Text
positive_duration_label minutes =
    if leb minutes 1443
    then show (max ((minutes + 30) / 60) 1) ++ codes "h"
    else if leb minutes 10083 && leb 10077 minutes
    then codes "weekly"
    else if ltb (minutes + 720) 9223372036854775808
    then show (max ((minutes + 720) / 1440) 1) ++ codes "d"
    else codes "1d"

abbrev pub limit_duration_label : Option ℤ → Option Text
limit_duration_label none = none
limit_duration_label (some (negsuc n)) = none
limit_duration_label (some (pos n)) = if n == 0 then none else some (positive_duration_label n)

abbrev pub unwrap_or : Text → Option Text → Text
unwrap_or fallback none = fallback
unwrap_or fallback (some t) = t

-- The warning for the highest threshold that was passed.
abbrev pub warning_at : Option ℕ → Option ℤ → Text → Option RateLimitWarning
warning_at none duration fallback_label = none
warning_at (some threshold) duration fallback_label = some (record {
  label = unwrap_or fallback_label (limit_duration_label duration);
  remaining_percent = if leb 100 threshold then none else some (100 - threshold);
})

-- `take_window_warning`: the new index, and the warning.
unfoldable pub take_window_warning : ℕ → Option RateLimitWindow → Text → ℕ × Option RateLimitWarning
unfolding clamp_percent reset_window_warning_index_after_reset threshold_loop
take_window_warning warning_index none fallback_label = (warning_index, none)
take_window_warning warning_index (some window) fallback_label =
    let used_percent = clamp_percent window.used_percent in
    let index = reset_window_warning_index_after_reset warning_index used_percent in
    let r = threshold_loop used_percent index none (drop index rate_limit_warning_thresholds) in
    (r.0, warning_at r.1 window.window_duration_mins fallback_label)

abbrev pub push_warning : Option RateLimitWarning → List RateLimitWarning
push_warning none = []
push_warning (some w) = w ∷ []

unfoldable pub take_rate_limit_warnings :
    RateLimitWarningState → RateLimitSnapshot → RateLimitWarningState × List RateLimitWarning
take_rate_limit_warnings state snapshot =
    let s = take_window_warning state.secondary_index snapshot.secondary (codes "weekly") in
    let p = take_window_warning state.primary_index snapshot.primary (codes "5-hour") in
    (record { primary_index = p.0; secondary_index = s.0 }, push_warning s.1 ++ push_warning p.1)

unfoldable pub observe_window_warning_index : ℕ → Option RateLimitWindow → ℕ
unfolding crossed_threshold_count clamp_percent
observe_window_warning_index warning_index none = warning_index
observe_window_warning_index warning_index (some window) =
    crossed_threshold_count (clamp_percent window.used_percent)

unfoldable pub observe_rate_limit_snapshot :
    RateLimitWarningState → RateLimitSnapshot → RateLimitWarningState
observe_rate_limit_snapshot state snapshot = record {
  primary_index = observe_window_warning_index state.primary_index snapshot.primary;
  secondary_index = observe_window_warning_index state.secondary_index snapshot.secondary;
}

unfoldable pub format_reset_delta : ℕ → Text
format_reset_delta delta =
    if ltb delta 60
    then codes "soon"
    else if ltb delta 3600
    then codes "in " ++ (show (delta / 60) ++ codes "m")
    else if ltb delta 86400
    then (let hours = delta / 3600 in
        let minutes = delta % 3600 / 60 in
        if minutes == 0
        then codes "in " ++ (show hours ++ codes "h")
        else codes "in " ++ (show hours ++ (codes "h " ++ (show minutes ++ codes "m"))))
    else let days = delta / 86400 in
      let hours = delta % 86400 / 3600 in
      if hours == 0
      then codes "in " ++ (show days ++ codes "d")
      else codes "in " ++ (show days ++ (codes "d " ++ (show hours ++ codes "h")))
