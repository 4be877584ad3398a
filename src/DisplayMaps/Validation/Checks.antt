-- ===== src/DisplayMaps/Validation/Checks.antt =====
-- A configuration that is read can be shown: `expect` never panics on it.
use zed_codex_acp_cas.Common.{
  or_else, ℕ, zero, suc, ◌≤◌, Bool, true, false, inl, inr, List, [], ◌∷◌, Option, none, some, ◌>>=◌,
  ◌≡◌, refl, ◌==◌, leb, if◌then◌else◌, is_empty, any, arith, &&-true, Bool-cases, Option-cases,
  ==_iff, some-eq,
}
use zed_codex_acp_cas.Common.Text.{Text, codes, text_eq, text_eq_iff, is_some}
use zed_codex_acp_cas.Common.Decimal.{show}
use zed_codex_acp_cas.Common.Maps.{get, contains_key}
use zed_codex_acp_cas.Limits.{ℤ, pos, negsuc, clamp_percent}
use zed_codex_acp_cas.DisplayMaps.{
  LimitSummaryWindow, primary, secondary, PercentThresholdLabel, PercentDisplayMap, template_map,
  exact, thresholds, DisplayMapsConfig, best_threshold, label_of, render, render_fallback,
  show_remaining, render_limit_remaining, render_primary_limit_remaining,
  render_secondary_limit_remaining, render_window, render_windows,
  render_limits_summary_for_windows,
}
use zed_codex_acp_cas.DisplayMaps.Validation.{
  Checked, ok, invalid_data, and_then, validate_limit_summary_options, validate_map_ref, all_up_to,
  validate_percent_display_map, validate_maps, validate_display_maps_config,
}

-- Some threshold is kept once there is one.
pub best_threshold-is_some :
    (value : ℕ) (b : PercentThresholdLabel) (vs : List PercentThresholdLabel)
    → is_some (best_threshold value (some b) vs) ≡ true
unfolding best_threshold
best_threshold-is_some value b [] = refl
best_threshold-is_some value b (e ∷ vs) =
    ground (arith, best_threshold-is_some value b vs, best_threshold-is_some value e vs)

>>=-is_some {ℓ κ} :
    {A : Type ℓ} {B : Type κ} (o : Option A) (f : A → Option B)
    → is_some o ≡ true
    → ((a : A) → is_some (f a) ≡ true)
    → is_some (o >>= f) ≡ true
>>=-is_some none f h k = h
>>=-is_some (some a) f h k = k a

best_threshold-any :
    (value : ℕ) (vs : List PercentThresholdLabel)
    → any (λ entry. entry.min == 0) vs ≡ true
    → is_some (best_threshold value none vs) ≡ true
unfolding best_threshold
best_threshold-any value [] h = cc
best_threshold-any value (e ∷ vs) h = elim (Bool-cases (leb e.min value)) [
  | inl k ↦ rw k (best_threshold-is_some value e vs)
  | inr k ↦ rw k (best_threshold-any value vs (ground arith))
]

pub all_up_to-at : (p : ℕ → Bool) (n v : ℕ) → all_up_to p n ≡ true → v ≤ n → p v ≡ true
all_up_to-at p zero v h l = let e : v ≡ 0 = omega arith in rw e h
all_up_to-at p (suc n) v h l = elim (Bool-cases (v == suc n)) [
  | inl k ↦ rw ((==_iff v (suc n)).0 k) ((&&-true _ _ h).1)
  | inr k ↦ all_up_to-at p n v ((&&-true _ _ h).0) (ground arith)
]

pub if-ok : (b : Bool) (m : Text) → (if b then ok else invalid_data m) ≡ ok → b ≡ true
if-ok b m h = ground arith

pub or_else-label_of :
    (o : Option PercentThresholdLabel)
    → is_some o ≡ true
    → is_some (or_else (label_of o) none) ≡ true
or_else-label_of none h = h
or_else-label_of (some e) h = refl

pub or_else-none : (o : Option Text) → is_some o ≡ true → is_some (or_else o none) ≡ true
or_else-none none h = h
or_else-none (some t) h = refl

-- A map that is accepted has a label for every percentage.
pub render-is_some :
    (map_id : Text) (m : PercentDisplayMap) (value : ℕ)
    → validate_percent_display_map map_id m ≡ ok
    → value ≤ 100
    → is_some (render m value) ≡ true
unfolding validate_percent_display_map render contains_key render_fallback
render-is_some map_id (template_map template unavailable) value h l = refl
render-is_some map_id (exact values (some fallback) unavailable) value h l =
    elim (Option-cases (get (show value) values)) [ inl k ↦ rw k | inr (a, k) ↦ rw k ]
render-is_some map_id (exact values none unavailable) value h l =
    or_else-none (get (show value) values)
      (all_up_to-at (λ v. contains_key (show v) values) 100 value (if-ok _ _ h) l)
render-is_some map_id (thresholds values (some fallback) unavailable) value h l =
    elim (Option-cases (best_threshold value none values)) [ inl k ↦ rw k | inr (a, k) ↦ rw k ]
render-is_some map_id (thresholds values none unavailable) value h l =
    or_else-label_of (best_threshold value none values)
      (best_threshold-any value values (if-ok _ _ h))

pub and_then-ok : (a b : Checked) → and_then a b ≡ ok → (a ≡ ok) × (b ≡ ok)
and_then-ok ok b h = (refl, h)
and_then-ok (invalid_data m) b h = cc

pub unless-ok :
    (b : Bool) (m : Text) (c : Checked)
    → (if b then invalid_data m else c) ≡ ok
    → (b ≡ false) × (c ≡ ok)
unless-ok b m c h = ground arith

-- A configuration that passes, check by check.
pub validated :
    (config : DisplayMapsConfig)
    → validate_display_maps_config config ≡ ok
    → (is_empty config.limits.summary ≡ false)
      × (validate_limit_summary_options config.limits ≡ ok)
      × (validate_map_ref config.maps (codes "limits.primary") config.limits.primary ≡ ok)
      × (validate_map_ref config.maps (codes "limits.secondary") config.limits.secondary ≡ ok)
      × (validate_maps config.maps ≡ ok)
unfolding validate_display_maps_config
validated config h =
    let all_of = unless-ok _ _ _ h in
    let options = and_then-ok _ _ all_of.1 in
    let first = and_then-ok _ _ options.1 in
    let second = and_then-ok _ _ first.1 in (all_of.0, options.0, first.0, second.0, second.1)

validate_map_ref-ok :
    (maps : List (Text × PercentDisplayMap)) (field map_id : Text)
    → validate_map_ref maps field map_id ≡ ok
    → contains_key map_id maps ≡ true
unfolding validate_map_ref
validate_map_ref-ok maps field map_id h = ground arith

-- Each map of a configuration that passes is accepted.
validate_maps-get :
    (maps : List (Text × PercentDisplayMap)) (k : Text) (m : PercentDisplayMap)
    → validate_maps maps ≡ ok
    → get k maps ≡ some m
    → validate_percent_display_map k m ≡ ok
unfolding validate_maps get
validate_maps-get [] k m h e = cc
validate_maps-get ((j, n) ∷ maps) k m h e = elim (Bool-cases (text_eq j k)) [
  | inl y ↦
      let same : n ≡ m = some-eq (rw y at e) in
      rw (← (text_eq_iff j k).0 y, ← same) ((and_then-ok _ _ h).0)
  | inr y ↦ validate_maps-get maps k m (and_then-ok _ _ h).1 (rw y at e)
]

clamp_percent-le : (z : ℤ) → clamp_percent z ≤ 100
unfolding clamp_percent
clamp_percent-le (pos n) = omega arith
clamp_percent-le (negsuc n) = omega arith

show_remaining-is_some :
    (map_id : Text) (m : PercentDisplayMap) (remaining_percent : Option ℤ)
    → validate_percent_display_map map_id m ≡ ok
    → is_some (show_remaining remaining_percent m) ≡ true
unfolding show_remaining
show_remaining-is_some map_id m none h = refl
show_remaining-is_some map_id m (some z) h =
    render-is_some map_id m (clamp_percent z) h (clamp_percent-le z)

module _ (config : DisplayMapsConfig) (h : validate_maps config.maps ≡ ok) where
  render_limit_remaining-is_some :
      (remaining_percent : Option ℤ) (map_id : Text)
      → contains_key map_id config.maps ≡ true
      → is_some (render_limit_remaining config remaining_percent map_id) ≡ true
  unfolding render_limit_remaining contains_key
  render_limit_remaining-is_some remaining_percent map_id k =
      elim (Option-cases (get map_id config.maps)) [
        | inl e ↦ let never : false ≡ true = rw e at k in cc
        | inr (m, e) ↦ rw e (
            show_remaining-is_some map_id m remaining_percent
              (validate_maps-get config.maps map_id m h e))
      ]

  module _ (hp : contains_key config.limits.primary config.maps ≡ true)
      (hs : contains_key config.limits.secondary config.maps ≡ true) (p s : Option ℤ) where
    render_window-is_some : (w : LimitSummaryWindow) → is_some (render_window config p s w) ≡ true
    unfolding render_window render_primary_limit_remaining render_secondary_limit_remaining
    render_window-is_some primary = render_limit_remaining-is_some p config.limits.primary hp
    render_window-is_some secondary = render_limit_remaining-is_some s config.limits.secondary hs

    render_windows-is_some :
        (ws : List LimitSummaryWindow) → is_some (render_windows config p s ws) ≡ true
    unfolding render_windows
    render_windows-is_some [] = refl
    render_windows-is_some (w ∷ ws) =
        >>=-is_some (render_window config p s w) _ (render_window-is_some w) (λ t.
          >>=-is_some (render_windows config p s ws) _ (render_windows-is_some ws) (λ ts. refl))

-- A configuration that passes the checks shows every summary of the windows, for all percentages
-- and for missing ones: the three `expect` calls do not panic.
pub render_limits_summary_for_windows-is_some :
    (config : DisplayMapsConfig) (windows : List LimitSummaryWindow) (p s : Option ℤ)
    → validate_display_maps_config config ≡ ok
    → is_some (render_limits_summary_for_windows config windows p s) ≡ true
unfolding render_limits_summary_for_windows
render_limits_summary_for_windows-is_some config windows p s h =
    let passed = validated config h in
    >>=-is_some (render_windows config p s windows) _
      (render_windows-is_some config passed.4 (validate_map_ref-ok _ _ _ passed.2)
        (validate_map_ref-ok _ _ _ passed.3) p s windows)
      (λ parts. refl)
