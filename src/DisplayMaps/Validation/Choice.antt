-- ===== src/DisplayMaps/Validation/Choice.antt =====
-- The choice of a summary among the configured ones.
use zed_codex_acp_cas.Common.{
  Bool, true, false, ◌||◌, inl, inr, List, [], ◌∷◌, Option, none, some, ◌≡◌, ◌≢◌, refl, ap,
  is_empty, any, arith, Bool-cases, Option-cases, some-eq,
}
use zed_codex_acp_cas.Common.Text.{Text, text_eq, text_eq_iff, trim}
use zed_codex_acp_cas.Common.Sets.{member}
use zed_codex_acp_cas.DisplayMaps.{
  LimitSummaryWindow, primary, secondary, LimitSummaryOption, LimitsDisplayMapSelection,
  DisplayMapsConfig,
}
use zed_codex_acp_cas.DisplayMaps.Validation.{
  Checked, ok, and_then, choose, summary_eq, check_options, validate_limit_summary_options,
  validate_display_maps_config, find_summary, find_option, selected_limits_summary_option_id,
  set_limits_summary_by_option_id,
}
use zed_codex_acp_cas.DisplayMaps.Validation.Checks.{unless-ok, validated}

summary_eq_refl : (ws : List LimitSummaryWindow) → summary_eq ws ws ≡ true
summary_eq_refl [] = refl
summary_eq_refl (primary ∷ ws) = summary_eq_refl ws
summary_eq_refl (secondary ∷ ws) = summary_eq_refl ws

summary_eq-eq : (vs ws : List LimitSummaryWindow) → summary_eq vs ws ≡ true → vs ≡ ws
summary_eq-eq [] [] h = refl
summary_eq-eq [] (w ∷ ws) h = cc
summary_eq-eq (v ∷ vs) [] h = cc
summary_eq-eq (primary ∷ vs) (primary ∷ ws) h = ap (◌∷◌ primary) (summary_eq-eq vs ws h)
summary_eq-eq (primary ∷ vs) (secondary ∷ ws) h = cc
summary_eq-eq (secondary ∷ vs) (primary ∷ ws) h = cc
summary_eq-eq (secondary ∷ vs) (secondary ∷ ws) h = ap (◌∷◌ secondary) (summary_eq-eq vs ws h)

-- What the checks say of the first option.
check_options-cons :
    (s : List LimitSummaryWindow) (ids : List Text) (av : Bool) (o : LimitSummaryOption)
    (os : List LimitSummaryOption)
    → check_options s ids av (o ∷ os) ≡ ok
    → (is_empty (trim o.id) ≡ false)
      × (member o.id ids ≡ false)
      × (is_empty o.summary ≡ false)
      × (check_options s (o.id ∷ ids) (av || summary_eq o.summary s) os ≡ ok)
unfolding check_options
check_options-cons s ids av o os h =
    let first = unless-ok _ _ _ h in
    let second = unless-ok _ _ _ first.1 in
    let third = unless-ok _ _ _ second.1 in (first.0, second.0, third.0, third.1)

-- The options stay accepted when another of their summaries is selected.
check_options-kept :
    (s r : List LimitSummaryWindow) (ids : List Text) (av aw : Bool) (os : List LimitSummaryOption)
    → check_options s ids av os ≡ ok
    → (aw || any (λ o. summary_eq o.summary r) os) ≡ true
    → check_options r ids aw os ≡ ok
unfolding check_options
check_options-kept s r ids av aw [] h k = ground arith
check_options-kept s r ids av aw (o ∷ os) h k =
    let first = check_options-cons s ids av o os h in
    let later =
      check_options-kept s r (o.id ∷ ids) (av || summary_eq o.summary s)
        (aw || summary_eq o.summary r) os first.3 (ground arith) in
    rw (first.0, first.1, first.2) later

find_option-listed :
    (s : List LimitSummaryWindow) (ids : List Text) (av : Bool) (option_id : Text)
    (o : LimitSummaryOption) (os : List LimitSummaryOption)
    → check_options s ids av os ≡ ok
    → find_option option_id os ≡ some o
    → (is_empty o.summary ≡ false) × (any (λ p. summary_eq p.summary o.summary) os ≡ true)
unfolding find_option
find_option-listed s ids av option_id o [] h e = cc
find_option-listed s ids av option_id o (p ∷ os) h e =
    let first = check_options-cons s ids av p os h in
    elim (Bool-cases (text_eq p.id option_id)) [
      | inl y ↦
          let same : p ≡ o = some-eq (rw y at e) in
          rw (← same) (first.2, rw (summary_eq_refl p.summary))
      | inr n ↦
          let later = find_option-listed s _ _ option_id o os first.3 (rw n at e) in
          (later.0, rw later.1 (ground arith))
    ]

and_then-right : (a b : Checked) → a ≡ ok → b ≡ ok → and_then a b ≡ ok
and_then-right a b h k = rw h k

options_passed :
    (limits : LimitsDisplayMapSelection)
    → validate_limit_summary_options limits ≡ ok
    → (is_empty limits.summary_options ≡ false)
      × (check_options limits.summary [] false limits.summary_options ≡ ok)
unfolding validate_limit_summary_options
options_passed limits h = unless-ok _ _ _ h

if_nonempty :
    (limits : LimitsDisplayMapSelection) (s : List LimitSummaryWindow)
    → validate_limit_summary_options limits ≡ ok
    → any (λ o. summary_eq o.summary s) limits.summary_options ≡ true
    → validate_limit_summary_options (record limits { summary = s }) ≡ ok
unfolding validate_limit_summary_options
if_nonempty limits s h k =
    let passed = options_passed limits h in
    rw passed.0
      (check_options-kept limits.summary s [] false false limits.summary_options passed.1 k)

choose-valid :
    (config : DisplayMapsConfig) (option_id : Text) (found : Option LimitSummaryOption)
    → find_option option_id config.limits.summary_options ≡ found
    → validate_display_maps_config config ≡ ok
    → validate_display_maps_config (choose config found).0 ≡ ok
unfolding validate_display_maps_config
choose-valid config option_id none e h = h
choose-valid config option_id (some o) e h =
    let passed = validated config h in
    let options = options_passed config.limits passed.1 in
    let listed = find_option-listed _ _ _ option_id o config.limits.summary_options options.1 e in
    rw (listed.0, if_nonempty config.limits o.summary passed.1 listed.1, passed.2, passed.3)
      passed.4

-- An option that is chosen by its id leaves an accepted configuration accepted, and so does an id
-- that names no option.
pub validate_display_maps_config-set :
    (config : DisplayMapsConfig) (option_id : Text)
    → validate_display_maps_config config ≡ ok
    → validate_display_maps_config (set_limits_summary_by_option_id config option_id).0 ≡ ok
unfolding set_limits_summary_by_option_id
validate_display_maps_config-set config option_id h = choose-valid config option_id _ refl h

||-false : (a b : Bool) → (a || b) ≡ false → (a ≡ false) × (b ≡ false)
||-false a b h = ground arith

find_option-seen :
    (s : List LimitSummaryWindow) (ids : List Text) (av : Bool) (o : LimitSummaryOption)
    (os : List LimitSummaryOption) (r : List LimitSummaryWindow)
    → check_options s ids av os ≡ ok
    → find_summary r os ≡ some o
    → (member o.id ids ≡ false) × (find_option o.id os ≡ some o) × (o.summary ≡ r)
unfolding find_summary find_option member
find_option-seen s ids av o [] r h e = cc
find_option-seen s ids av o (p ∷ os) r h e =
    let first = check_options-cons s ids av p os h in
    elim (Bool-cases (summary_eq p.summary r)) [
      | inl y ↦
          let same : p ≡ o = some-eq (rw y at e) in
          rw (← same) (first.1, rw ((text_eq_iff p.id p.id).1 refl), summary_eq-eq p.summary r y)
      | inr n ↦
          let later = find_option-seen s _ _ o os r first.3 (rw n at e) in
          let other : text_eq p.id o.id ≡ false = (||-false _ _ later.0).0 in
          ((||-false _ _ later.0).1, rw other later.1, later.2)
    ]

check_options-any :
    (s : List LimitSummaryWindow) (ids : List Text) (av : Bool) (os : List LimitSummaryOption)
    → check_options s ids av os ≡ ok
    → (av || any (λ o. summary_eq o.summary s) os) ≡ true
unfolding check_options
check_options-any s ids av [] h = ground arith
check_options-any s ids av (o ∷ os) h =
    let later = check_options-any s _ _ os (check_options-cons s ids av o os h).3 in ground arith

find_summary-any :
    (s : List LimitSummaryWindow) (os : List LimitSummaryOption)
    → any (λ o. summary_eq o.summary s) os ≡ true
    → find_summary s os ≢ none
unfolding find_summary
find_summary-any s [] h e = cc
find_summary-any s (o ∷ os) h e = elim (Bool-cases (summary_eq o.summary s)) [
  | inl y ↦ let never : some o ≡ none = rw y at e in cc
  | inr n ↦ find_summary-any s os (rw n at h) (rw n at e)
]

-- Of an accepted configuration, to choose the option that is shown as selected changes nothing,
-- and is accepted.
pub set_limits_summary_by_option_id-selected :
    (config : DisplayMapsConfig)
    → validate_display_maps_config config ≡ ok
    → set_limits_summary_by_option_id config (selected_limits_summary_option_id config)
      ≡ (config, true)
unfolding set_limits_summary_by_option_id selected_limits_summary_option_id
set_limits_summary_by_option_id-selected config h =
    let limits = config.limits in
    let options = (options_passed limits (validated config h).1).1 in
    elim (Option-cases (find_summary limits.summary limits.summary_options)) [
      | inl e ↦ absurd (
          find_summary-any limits.summary limits.summary_options
            (check_options-any limits.summary [] false limits.summary_options options) e)
      | inr (o, e) ↦
          let seen =
            find_option-seen limits.summary [] false o limits.summary_options limits.summary options
              e in
          rw (e, seen.1, seen.2)
    ]
