-- ===== src/DisplayMaps.antt =====
-- src/thread/session/display_maps.rs: how the remaining percentages of the rate limits are shown,
-- by maps from percentages to labels.
pub mod Validation
pub mod Rendering
use zed_codex_acp_cas.Common.{
  ℕ, Bool, true, false, ◌&&◌, List, [], ◌∷◌, ◌++◌, Option, none, some, ltb, leb, ◌==◌, length,
  if◌then◌else◌, is_empty, any, ◌>>=◌, or_else, unwrap_or,
}
use zed_codex_acp_cas.Common.Text.{Text, codes, text_eq, is_some, trim}
use zed_codex_acp_cas.Common.Decimal.{show}
use zed_codex_acp_cas.Common.Sets.{member}
use zed_codex_acp_cas.Common.Maps.{get, contains_key}
use zed_codex_acp_cas.Common.Words.{join, replace}
use zed_codex_acp_cas.Limits.{ℤ, clamp_percent}

pub data LimitSummaryWindow : Type 0 where
  primary : LimitSummaryWindow
  secondary : LimitSummaryWindow

pub record LimitSummaryOption : Type 0 where
  pub id : Text
  pub name : Option Text
  pub summary : List LimitSummaryWindow
  pub description : Option Text

pub record PercentThresholdLabel : Type 0 where
  pub min : ℕ
  pub label : Text

pub data PercentDisplayMap : Type 0 where
  template_map : (template : Text) (unavailable : Option Text) → PercentDisplayMap
  exact : (values : List (Text × Text)) (fallback unavailable : Option Text) → PercentDisplayMap
  thresholds :
      (values : List PercentThresholdLabel) (fallback unavailable : Option Text) → PercentDisplayMap

pub record LimitsDisplayMapSelection : Type 0 where
  pub summary : List LimitSummaryWindow
  pub summary_options : List LimitSummaryOption
  pub primary : Text
  pub secondary : Text

pub record DisplayMapsConfig : Type 0 where
  pub limits : LimitsDisplayMapSelection
  pub maps : List (Text × PercentDisplayMap)

abbrev pub default_primary_limits_map_id : Text
default_primary_limits_map_id = codes "five_hour_percent"

abbrev pub default_secondary_limits_map_id : Text
default_secondary_limits_map_id = codes "weekly_percent"

abbrev pub default_percent_maps : List (Text × PercentDisplayMap)
default_percent_maps =
    (default_primary_limits_map_id, template_map (codes "5h {value}%") (some (codes "5h --")))
    ∷ (default_secondary_limits_map_id, template_map (codes "wk {value}%") (some (codes "wk --")))
    ∷ []

abbrev pub default_limits_summary : List LimitSummaryWindow
default_limits_summary = primary ∷ secondary ∷ []

abbrev pub default_limit_summary_options : List LimitSummaryOption
default_limit_summary_options =
    (record { id = codes "primary"; name = none; summary = primary ∷ []; description = none })
    ∷ (record {
      id = codes "primary_secondary";
      name = none;
      summary = primary ∷ secondary ∷ [];
      description = none;
    })
    ∷ []

abbrev pub default_config : DisplayMapsConfig
default_config = record {
  limits = record {
    summary = default_limits_summary;
    summary_options = default_limit_summary_options;
    primary = default_primary_limits_map_id;
    secondary = default_secondary_limits_map_id;
  };
  maps = default_percent_maps;
}

unfoldable pub render_template : Text → ℕ → Text
unfolding replace show
render_template template value =
    replace (codes "{percent}") (show value) (replace (codes "{value}") (show value) template)

-- `fallback.as_ref().map(|template| render_template(template, value))`.
unfoldable pub render_fallback : Option Text → ℕ → Option Text
unfolding render_template
render_fallback none value = none
render_fallback (some template) value = some (render_template template value)

-- `filter(value >= min).max_by_key(min)`: of equal keys the last one counts.
unfoldable pub best_threshold :
    ℕ → Option PercentThresholdLabel → List PercentThresholdLabel → Option PercentThresholdLabel
best_threshold value best [] = best
best_threshold value none (entry ∷ values) =
    let taken = best_threshold value (some entry) values in
    let passed = best_threshold value none values in if leb entry.min value then taken else passed
best_threshold value (some best) (entry ∷ values) =
    let taken = best_threshold value (some entry) values in
    let passed = best_threshold value (some best) values in
    if leb entry.min value && leb best.min entry.min then taken else passed

abbrev pub label_of : Option PercentThresholdLabel → Option Text
label_of none = none
label_of (some entry) = some entry.label

-- `None` is the panic of `expect`.
unfoldable pub render : PercentDisplayMap → ℕ → Option Text
unfolding render_template render_fallback best_threshold get show
render (template_map template unavailable) value = some (render_template template value)
render (exact values fallback unavailable) value =
    or_else (get (show value) values) (render_fallback fallback value)
render (thresholds values fallback unavailable) value =
    or_else (label_of (best_threshold value none values)) (render_fallback fallback value)

unfoldable pub unavailable_label : PercentDisplayMap → Option Text
unavailable_label (template_map template unavailable) = unavailable
unavailable_label (exact values fallback unavailable) = unavailable
unavailable_label (thresholds values fallback unavailable) = unavailable

unfoldable pub show_remaining : Option ℤ → PercentDisplayMap → Option Text
unfolding render unavailable_label clamp_percent
show_remaining (some remaining_percent) m = render m (clamp_percent remaining_percent)
show_remaining none m = some (unwrap_or (unavailable_label m) (codes "--"))

unfoldable pub render_limit_remaining : DisplayMapsConfig → Option ℤ → Text → Option Text
unfolding get show_remaining clamp_percent
render_limit_remaining config remaining_percent map_id =
    get map_id config.maps >>= show_remaining remaining_percent

unfoldable pub render_primary_limit_remaining : DisplayMapsConfig → Option ℤ → Option Text
unfolding render_limit_remaining
render_primary_limit_remaining config remaining_percent =
    render_limit_remaining config remaining_percent config.limits.primary

unfoldable pub render_secondary_limit_remaining : DisplayMapsConfig → Option ℤ → Option Text
unfolding render_limit_remaining
render_secondary_limit_remaining config remaining_percent =
    render_limit_remaining config remaining_percent config.limits.secondary

-- One window of the summary.
unfoldable pub render_window :
    DisplayMapsConfig → Option ℤ → Option ℤ → LimitSummaryWindow → Option Text
unfolding render_primary_limit_remaining render_secondary_limit_remaining
render_window config p s primary = render_primary_limit_remaining config p
render_window config p s secondary = render_secondary_limit_remaining config s

-- `map(..).collect()`: a panic of one is a panic of all.
unfoldable pub render_windows :
    DisplayMapsConfig → Option ℤ → Option ℤ → List LimitSummaryWindow → Option (List Text)
unfolding render_window
render_windows config p s [] = some []
render_windows config p s (w ∷ ws) = do
  t ← render_window config p s w
  ts ← render_windows config p s ws
  some (t ∷ ts)

unfoldable pub render_limits_summary_for_windows :
    DisplayMapsConfig → List LimitSummaryWindow → Option ℤ → Option ℤ → Option Text
unfolding render_windows join
render_limits_summary_for_windows config windows p s = do
  parts ← render_windows config p s windows
  some (join (codes " · ") parts)

unfoldable pub render_limits_summary : DisplayMapsConfig → Option ℤ → Option ℤ → Option Text
unfolding render_limits_summary_for_windows
render_limits_summary config p s =
    render_limits_summary_for_windows config config.limits.summary p s
