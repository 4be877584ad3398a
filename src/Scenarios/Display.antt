-- ===== src/Scenarios/Display.antt =====
-- The maps of percentages as they come with the program, and one of thresholds.
use zed_codex_acp_cas.Common.{true, [], ◌∷◌, none, some, ◌≡◌, refl, ◌↔◌}
use zed_codex_acp_cas.Common.Text.{codes, is_some}
use zed_codex_acp_cas.Limits.{pos, negsuc}
use zed_codex_acp_cas.DisplayMaps.{
  PercentThresholdLabel, thresholds, primary, secondary, default_config, render,
  render_limits_summary, render_limits_summary_for_windows,
}
use zed_codex_acp_cas.DisplayMaps.Validation.{
  ok, all_up_to, validate_percent_display_map, validate_display_maps_config,
}
use zed_codex_acp_cas.DisplayMaps.Validation.Checks.{render_limits_summary_for_windows-is_some}
use zed_codex_acp_cas.DisplayMaps.Validation.Exactness.{validate_percent_display_map_iff}

abbrev half_label : PercentThresholdLabel
half_label = record { min = 50; label = codes "half" }

shown : render_limits_summary default_config (some (pos 80)) none ≡ some (codes "5h 80% · wk --")
unfolding render_limits_summary
shown = refl

accepted : validate_display_maps_config default_config ≡ ok
unfolding validate_display_maps_config
accepted = refl

render_limits_summary_for_windows-is_some_example :
    is_some (
      render_limits_summary_for_windows default_config
        (secondary ∷ primary ∷ [])
        none
        (some (negsuc 4)))
    ≡ true
render_limits_summary_for_windows-is_some_example =
    render_limits_summary_for_windows-is_some default_config (secondary ∷ primary ∷ []) none
      (some (negsuc 4)) accepted

validate_percent_display_map_iff_example :
    (validate_percent_display_map (codes "m") (thresholds (half_label ∷ []) none none) ≡ ok) ↔ (
      all_up_to (λ value. is_some (render (thresholds (half_label ∷ []) none none) value)) 100
      ≡ true)
validate_percent_display_map_iff_example =
    validate_percent_display_map_iff (codes "m") (thresholds (half_label ∷ []) none none)
