-- ===== src/Preferences/Stored/Restored.antt =====
-- What a session has after preferences were applied to it.
use zed_codex_acp_cas.Common.{
  Bool, true, false, Option, none, some, ◌≡◌, refl, ap, ◌∙◌, if◌then◌else◌,
}
use zed_codex_acp_cas.Common.Text.{Text}
use zed_codex_acp_cas.Preferences.{ReasoningEffort, ModelSelectorPreferences}
use zed_codex_acp_cas.Preferences.Layout.{SelectorLayoutPreferences}
use zed_codex_acp_cas.Preferences.Stored.{
  SlashCommandPreferences, SelectorDefaultPreferences, SelectorPreferences, Selectors,
  take_model_selector, is_offered, set_current_model, take_model, set_effort, take_effort,
  take_tier, take_defaults, take_layout, take_commands, apply_selector_preferences,
  persist_selector_preferences, reread,
}

-- The backend offers the current model.
abbrev pub HasOfferedModel : Selectors → Type 0
HasOfferedModel s = is_offered s.current_model s.models ≡ true

if-HasOfferedModel :
    (b : Bool) (model : Text) (s : Selectors)
    → is_offered model s.models ≡ b
    → HasOfferedModel s
    → HasOfferedModel (if b then record s { current_model = model } else s)
if-HasOfferedModel true model s e h = e
if-HasOfferedModel false model s e h = h

set_current_model-HasOfferedModel :
    (o : Option Text) (s : Selectors) → HasOfferedModel s → HasOfferedModel (set_current_model o s)
set_current_model-HasOfferedModel none s h = h
set_current_model-HasOfferedModel (some model) s h =
    if-HasOfferedModel (is_offered model s.models) model s refl h

take_model_selector-HasOfferedModel :
    (o : Option ModelSelectorPreferences) (s : Selectors)
    → HasOfferedModel s
    → HasOfferedModel (take_model_selector o s)
take_model_selector-HasOfferedModel none s h = h
take_model_selector-HasOfferedModel (some value) s h = h

take_model-HasOfferedModel :
    (o : Option (Option Text)) (s : Selectors)
    → HasOfferedModel s
    → HasOfferedModel (take_model o s)
take_model-HasOfferedModel none s h = h
take_model-HasOfferedModel (some model) s h =
    set_current_model-HasOfferedModel model
      (record s { model_selector = record s.model_selector { default_model = model } }) h

set_effort-HasOfferedModel :
    (o : Option ReasoningEffort) (s : Selectors)
    → HasOfferedModel s
    → HasOfferedModel (set_effort o s)
unfolding set_effort
set_effort-HasOfferedModel none s h = h
set_effort-HasOfferedModel (some effort) s h = h

take_effort-HasOfferedModel :
    (o : Option (Option ReasoningEffort)) (s : Selectors)
    → HasOfferedModel s
    → HasOfferedModel (take_effort o s)
take_effort-HasOfferedModel none s h = h
take_effort-HasOfferedModel (some effort) s h =
    set_effort-HasOfferedModel effort
      (record s { model_selector = record s.model_selector { default_reasoning_effort = effort } })
      h

take_tier-HasOfferedModel :
    (o : Option (Option Text)) (s : Selectors) → HasOfferedModel s → HasOfferedModel (take_tier o s)
take_tier-HasOfferedModel none s h = h
take_tier-HasOfferedModel (some tier) s h = h

take_defaults-HasOfferedModel :
    (o : Option SelectorDefaultPreferences) (s : Selectors)
    → HasOfferedModel s
    → HasOfferedModel (take_defaults o s)
take_defaults-HasOfferedModel none s h = h
take_defaults-HasOfferedModel (some d) s h =
    take_tier-HasOfferedModel d.service_tier (take_effort d.reasoning_effort (take_model d.model s))
      (take_effort-HasOfferedModel d.reasoning_effort (take_model d.model s)
        (take_model-HasOfferedModel d.model s h))

take_layout-HasOfferedModel :
    (o : Option SelectorLayoutPreferences) (s : Selectors)
    → HasOfferedModel s
    → HasOfferedModel (take_layout o s)
take_layout-HasOfferedModel none s h = h
take_layout-HasOfferedModel (some layout) s h = h

take_commands-HasOfferedModel :
    (o : Option SlashCommandPreferences) (s : Selectors)
    → HasOfferedModel s
    → HasOfferedModel (take_commands o s)
take_commands-HasOfferedModel none s h = h
take_commands-HasOfferedModel (some commands) s h = h

-- Preferences that are applied to a session whose current model the backend offers leave it with a
-- current model that the backend offers, whatever models they name.
pub apply_selector_preferences-HasOfferedModel :
    (s : Selectors) (p : SelectorPreferences)
    → HasOfferedModel s
    → HasOfferedModel (apply_selector_preferences s p)
unfolding apply_selector_preferences
apply_selector_preferences-HasOfferedModel s p h =
    let selector = take_model_selector p.model_selector s in
    let defaults = take_defaults p.defaults selector in
    take_commands-HasOfferedModel p.slash_commands (take_layout p.layout defaults) (
      take_layout-HasOfferedModel p.layout defaults (
        take_defaults-HasOfferedModel p.defaults selector
          (take_model_selector-HasOfferedModel p.model_selector s h)))

if-model_selector :
    (b : Bool) (model : Text) (s : Selectors)
    → (if b then record s { current_model = model } else s).model_selector ≡ s.model_selector
if-model_selector true model s = refl
if-model_selector false model s = refl

set_current_model-model_selector :
    (o : Option Text) (s : Selectors) → (set_current_model o s).model_selector ≡ s.model_selector
set_current_model-model_selector none s = refl
set_current_model-model_selector (some model) s =
    if-model_selector (is_offered model s.models) model s

set_effort-model_selector :
    (o : Option ReasoningEffort) (s : Selectors)
    → (set_effort o s).model_selector ≡ s.model_selector
unfolding set_effort
set_effort-model_selector none s = refl
set_effort-model_selector (some effort) s = refl

-- The defaults of a session that are written back and applied to another session, the file read in
-- between, are the defaults of that session, and so is its service tier.
pub apply-persist_defaults :
    (existing : SelectorPreferences) (inner fresh : Selectors)
    → let restored =
        apply_selector_preferences fresh (reread (persist_selector_preferences existing inner)) in
      (restored.model_selector.default_model ≡ inner.model_selector.default_model)
      × (restored.model_selector.default_reasoning_effort
          ≡ inner.model_selector.default_reasoning_effort)
      × (restored.model_selector.default_service_tier ≡ inner.model_selector.default_service_tier)
      × (restored.service_tier ≡ inner.model_selector.default_service_tier)
unfolding apply_selector_preferences persist_selector_preferences
apply-persist_defaults existing inner fresh =
    let stored = reread (persist_selector_preferences existing inner) in
    let selected = take_model_selector stored.model_selector fresh in
    let model = inner.model_selector.default_model in
    let effort = inner.model_selector.default_reasoning_effort in
    let modelled = take_model (some model) selected in
    let started = record modelled {
      model_selector = record modelled.model_selector { default_reasoning_effort = effort };
    } in
    let kept = set_effort-model_selector effort started in
    (
      ap (λ m. m.default_model) kept
          ∙ ap (λ m. m.default_model)
              (set_current_model-model_selector model (record selected {
                model_selector = record selected.model_selector { default_model = model };
              })),
      ap (λ m. m.default_reasoning_effort) kept,
      refl,
      refl,
    )
