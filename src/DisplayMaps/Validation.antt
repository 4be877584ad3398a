-- ===== src/DisplayMaps/Validation.antt =====
-- src/thread/session/display_maps.rs: which configurations are read, and the choice of a summary.
pub mod Checks
pub mod Choice
pub mod Exactness
use zed_codex_acp_cas.Common.{
  or_else, unwrap_or, ℕ, zero, suc, Bool, true, false, not, ◌&&◌, ◌||◌, List, [], ◌∷◌, ◌++◌, Option,
  none, some, ◌==◌, if◌then◌else◌, is_empty, any,
}
use zed_codex_acp_cas.Common.Text.{Text, codes, text_eq, is_some, trim}
use zed_codex_acp_cas.Common.Decimal.{show}
use zed_codex_acp_cas.Common.Sets.{member}
use zed_codex_acp_cas.Common.Maps.{contains_key}
use zed_codex_acp_cas.DisplayMaps.{
  LimitSummaryWindow, primary, secondary, LimitSummaryOption, PercentThresholdLabel,
  PercentDisplayMap, template_map, exact, thresholds, LimitsDisplayMapSelection, DisplayMapsConfig,
}

-- `std::io::Result<()>` with errors of the kind `InvalidData`.
pub data Checked : Type 0 where
  ok : Checked
  invalid_data : (message : Text) → Checked

-- `?`.
abbrev pub and_then : Checked → Checked → Checked
and_then ok c = c
and_then (invalid_data message) c = invalid_data message

-- `==` on `Vec<LimitSummaryWindow>`.
abbrev pub window_eq : LimitSummaryWindow → LimitSummaryWindow → Bool
window_eq primary primary = true
window_eq secondary secondary = true
window_eq _ _ = false

abbrev pub summary_eq : List LimitSummaryWindow → List LimitSummaryWindow → Bool
summary_eq [] [] = true
summary_eq (v ∷ vs) (w ∷ ws) = window_eq v w && summary_eq vs ws
summary_eq _ _ = false

-- The loop over the options, with the ids that were seen and the flag.
unfoldable pub check_options :
    List LimitSummaryWindow → List Text → Bool → List LimitSummaryOption → Checked
unfolding trim member
check_options summary ids is_available [] =
    if is_available
    then ok
    else invalid_data (
        codes
          "display maps `limits.summary` must match one configured `limits.summary_options[].summary`")
check_options summary ids is_available (o ∷ os) =
    let rest =
      check_options summary (o.id ∷ ids) (is_available || summary_eq o.summary summary) os in
    if is_empty (trim o.id)
    then invalid_data (codes "display maps `limits.summary_options[].id` must not be empty")
    else if member o.id ids
    then invalid_data
        (codes "display maps `limits.summary_options` contains duplicate id `" ++ o.id ++ codes "`")
    else if is_empty o.summary
    then invalid_data (
        codes "display maps `limits.summary_options."
        ++ o.id
        ++ codes "` must include at least one window")
    else rest

unfoldable pub validate_limit_summary_options : LimitsDisplayMapSelection → Checked
unfolding check_options
validate_limit_summary_options limits =
    if is_empty limits.summary_options
    then invalid_data
        (codes "display maps `limits.summary_options` must include at least one option")
    else check_options limits.summary [] false limits.summary_options

unfoldable pub validate_map_ref : List (Text × PercentDisplayMap) → Text → Text → Checked
unfolding trim contains_key
validate_map_ref maps field map_id =
    if is_empty (trim map_id)
    then invalid_data (codes "display maps `" ++ field ++ codes "` must not be empty")
    else if contains_key map_id maps
    then ok
    else invalid_data (
        codes "display maps `"
        ++ field
        ++ codes "` references missing map `"
        ++ map_id
        ++ codes "`")

-- `(0..=n).all(..)`.
abbrev pub all_up_to : (ℕ → Bool) → ℕ → Bool
all_up_to p zero = p zero
all_up_to p (suc n) = all_up_to p n && p (suc n)

unfoldable pub validate_percent_display_map : Text → PercentDisplayMap → Checked
unfolding contains_key show
validate_percent_display_map map_id (template_map template unavailable) = ok
validate_percent_display_map map_id (exact values fallback unavailable) =
    if is_some fallback || all_up_to (λ value. contains_key (show value) values) 100
    then ok
    else invalid_data (
        codes "display map `"
        ++ map_id
        ++ codes
            "` is exact but does not cover every percent value; add explicit `fallback` or all values from 0 to 100")
validate_percent_display_map map_id (thresholds values fallback unavailable) =
    if is_some fallback || any (λ entry. entry.min == 0) values
    then ok
    else invalid_data (
        codes "display map `"
        ++ map_id
        ++ codes
            "` is thresholds but has no min 0 entry; add explicit `fallback` or a threshold starting at 0")

-- The loop over the maps.
unfoldable pub validate_maps : List (Text × PercentDisplayMap) → Checked
unfolding validate_percent_display_map
validate_maps [] = ok
validate_maps ((map_id, m) ∷ maps) =
    and_then (validate_percent_display_map map_id m) (validate_maps maps)

unfoldable pub validate_display_maps_config : DisplayMapsConfig → Checked
unfolding validate_limit_summary_options validate_map_ref validate_maps
validate_display_maps_config config =
    if is_empty config.limits.summary
    then invalid_data (
        codes "display maps `limits.summary` must include at least one of `primary` or `secondary`")
    else and_then (validate_limit_summary_options config.limits) (
        and_then (validate_map_ref config.maps (codes "limits.primary") config.limits.primary) (
          and_then (validate_map_ref config.maps (codes "limits.secondary") config.limits.secondary)
            (validate_maps config.maps)))

-- `find` of the option with the summary that is selected.
unfoldable pub find_summary :
    List LimitSummaryWindow → List LimitSummaryOption → Option LimitSummaryOption
find_summary summary [] = none
find_summary summary (o ∷ os) =
    let rest = find_summary summary os in if summary_eq o.summary summary then some o else rest

abbrev pub first_option : List LimitSummaryOption → Option LimitSummaryOption
first_option [] = none
first_option (o ∷ os) = some o

abbrev pub id_of : Option LimitSummaryOption → Option Text
id_of none = none
id_of (some o) = some o.id

unfoldable pub selected_limits_summary_option_id : DisplayMapsConfig → Text
unfolding find_summary
selected_limits_summary_option_id config =
    unwrap_or
      (id_of (
        or_else (find_summary config.limits.summary config.limits.summary_options)
          (first_option config.limits.summary_options)))
      (codes "primary")

-- `find` of the option with an id.
unfoldable pub find_option : Text → List LimitSummaryOption → Option LimitSummaryOption
find_option option_id [] = none
find_option option_id (o ∷ os) =
    let rest = find_option option_id os in if text_eq o.id option_id then some o else rest

abbrev pub with_summary : DisplayMapsConfig → List LimitSummaryWindow → DisplayMapsConfig
with_summary config summary = record config { limits = record config.limits { summary = summary } }

abbrev pub choose : DisplayMapsConfig → Option LimitSummaryOption → DisplayMapsConfig × Bool
choose config none = (config, false)
choose config (some o) = (with_summary config o.summary, true)

unfoldable pub set_limits_summary_by_option_id : DisplayMapsConfig → Text → DisplayMapsConfig × Bool
unfolding find_option
set_limits_summary_by_option_id config option_id =
    choose config (find_option option_id config.limits.summary_options)
