-- ===== src/Limits/Warnings.antt =====
-- When a rate limit is warned of.
use zed_codex_acp_cas.Common.{
  ℕ, zero, suc, ◌≤◌, max, Bool, true, false, [], ◌++◌, Option, none, some, ◌≡◌, refl, ap₂, arith,
  ltb, ◌==◌, if◌then◌else◌, drop,
}
use zed_codex_acp_cas.Common.Text.{Text, codes}
use zed_codex_acp_cas.Limits.{
  ℤ, RateLimitWindow, RateLimitSnapshot, RateLimitWarning, RateLimitWarningState, clamp_percent,
  rate_limit_warning_thresholds, crossed_threshold_count, count_reached,
  reset_window_warning_index_after_reset, threshold_loop, warning_at, push_warning,
  take_window_warning, take_rate_limit_warnings, observe_window_warning_index,
  observe_rate_limit_snapshot,
}

-- What a warning says is left when so many thresholds are passed.
abbrev pub left_at : ℕ → Option ℕ
left_at zero = none
left_at (suc zero) = some 25
left_at (suc (suc zero)) = some 10
left_at (suc (suc (suc zero))) = some 5
left_at (suc (suc (suc (suc n)))) = none

-- A warning is there exactly if the test holds, and it tells what is left.
abbrev pub Warns : Bool → Option ℕ → Option RateLimitWarning → Type 0
Warns b left none = b ≡ false
Warns b left (some w) = (b ≡ true) × (w.remaining_percent ≡ left)

drop-nil : (n : ℕ) → drop {A = ℕ} n [] ≡ []
drop-nil zero = refl
drop-nil (suc n) = refl

window_lem :
    (index used : ℕ) (duration : Option ℤ) (label : Text)
    → let start = reset_window_warning_index_after_reset index used in
      let r = threshold_loop used start none (drop start rate_limit_warning_thresholds) in
      let crossed = crossed_threshold_count used in
      (r.0 ≡ (if crossed == 0 then 0 else max index crossed))
      × Warns (ltb index crossed) (left_at crossed) (warning_at r.1 duration label)
unfolding threshold_loop crossed_threshold_count count_reached
    reset_window_warning_index_after_reset
window_lem zero used duration label = ground arith
window_lem (suc zero) used duration label = ground arith
window_lem (suc (suc zero)) used duration label = ground arith
window_lem (suc (suc (suc zero))) used duration label = ground arith
window_lem (suc (suc (suc (suc i)))) used duration label = ground (arith, drop-nil i)

-- A reading of a window warns exactly if it passes more thresholds than the index counts, and says
-- what the highest one leaves; the index then counts the passed thresholds too, and starts again
-- when none is passed.
pub take_window_warning_lem :
    (index : ℕ) (w : RateLimitWindow) (fallback_label : Text)
    → let crossed = crossed_threshold_count (clamp_percent w.used_percent) in
      let r = take_window_warning index (some w) fallback_label in
      (r.0 ≡ (if crossed == 0 then 0 else max index crossed))
      × Warns (ltb index crossed) (left_at crossed) r.1
unfolding take_window_warning
take_window_warning_lem index w fallback_label =
    window_lem index (clamp_percent w.used_percent) w.window_duration_mins fallback_label

silent :
    (o : Option RateLimitWarning) (b : Bool) (left : Option ℕ)
    → Warns b left o
    → b ≡ false
    → push_warning o ≡ []
silent none b left h e = refl
silent (some w) b left h e = ground arith

take_silent :
    (index : ℕ) (w : Option RateLimitWindow) (label : Text)
    → observe_window_warning_index index w ≤ index
    → push_warning (take_window_warning index w label).1 ≡ []
unfolding observe_window_warning_index take_window_warning
take_silent index none label le = refl
take_silent index (some w) label le =
    silent (take_window_warning index (some w) label).1 _ _
      (take_window_warning_lem index w label).1 (ground arith)

observed_again :
    (index : ℕ) (w : Option RateLimitWindow)
    → observe_window_warning_index (observe_window_warning_index index w) w
      ≤ observe_window_warning_index index w
unfolding observe_window_warning_index
observed_again index none = omega arith
observed_again index (some w) = omega arith

taken_covers :
    (index : ℕ) (w : Option RateLimitWindow) (label : Text)
    → observe_window_warning_index (take_window_warning index w label).0 w
      ≤ (take_window_warning index w label).0
unfolding observe_window_warning_index take_window_warning
taken_covers index none label = omega arith
taken_covers index (some w) label =
    let at_most = (take_window_warning_lem index w label).0 in ground (arith, at_most)

-- A snapshot that was observed, or that was warned of, gives no warning when it comes again.
pub warned_once :
    (state : RateLimitWarningState) (snapshot : RateLimitSnapshot)
    → ((take_rate_limit_warnings (observe_rate_limit_snapshot state snapshot) snapshot).1 ≡ [])
      × ((take_rate_limit_warnings (take_rate_limit_warnings state snapshot).0 snapshot).1 ≡ [])
unfolding take_rate_limit_warnings observe_rate_limit_snapshot
warned_once state snapshot = (
  ap₂ ◌++◌
      (take_silent _ snapshot.secondary (codes "weekly")
        (observed_again state.secondary_index snapshot.secondary))
      (take_silent _ snapshot.primary (codes "5-hour")
        (observed_again state.primary_index snapshot.primary)),
  ap₂ ◌++◌
      (take_silent _ snapshot.secondary (codes "weekly")
        (taken_covers state.secondary_index snapshot.secondary (codes "weekly")))
      (take_silent _ snapshot.primary (codes "5-hour")
        (taken_covers state.primary_index snapshot.primary (codes "5-hour"))),
)
