-- ===== src/Scenarios/Selecting.antt =====
-- Preferences with one model, written back and applied to a session.
use mathlib.Core.List.{Perm}
use zed_codex_acp_cas.Common.{true, false, List, [], ◌∷◌, none, some, ◌≡◌, refl, ℕ}
use zed_codex_acp_cas.Common.Text.{Text, codes}
use zed_codex_acp_cas.Preferences.{
  low, medium, high, AppModel, ModelSelectorPreferences, id_entry, details, ordered_models,
}
use zed_codex_acp_cas.Preferences.Layout.{
  SelectorLayoutEntry, SelectorLayoutPreferences, only_visible, apply_selector_order,
}
use zed_codex_acp_cas.Preferences.Layout.Order.{apply_selector_order-Perm}
use zed_codex_acp_cas.Preferences.Options.{ModelOptionGroupsInput, model_options}
use zed_codex_acp_cas.Preferences.Options.Current.{has_value, model_options-has_value}
use zed_codex_acp_cas.Preferences.Stored.{
  SelectorPreferences, Selectors, default_slash_commands, command_order, apply_selector_preferences,
  persist_selector_preferences, reread,
}
use zed_codex_acp_cas.Preferences.Stored.Restored.{
  HasOfferedModel, apply_selector_preferences-HasOfferedModel, apply-persist_defaults,
}
use zed_codex_acp_cas.Preferences.Stored.Rewritten.{persist_selector_preferences_idem}

abbrev small : AppModel
small = record {
  id = codes "small";
  model = codes "m-small";
  display_name = codes "Small";
  description = codes "A small model";
  hidden = false;
  supported_reasoning_efforts = low ∷ medium ∷ [];
  default_reasoning_effort = low;
}

abbrev large : AppModel
large = record {
  id = codes "large";
  model = codes "m-large";
  display_name = codes "Large";
  description = codes "A large model";
  hidden = true;
  supported_reasoning_efforts = medium ∷ high ∷ [];
  default_reasoning_effort = high;
}

abbrev chosen : ModelSelectorPreferences
chosen = record {
  default_model = some (codes "large");
  default_reasoning_effort = some high;
  default_service_tier = none;
  models =
      details (codes "M-LARGE") (some (codes " Big ")) none
      ∷ id_entry (codes "large")
      ∷ id_entry (codes "gone")
      ∷ [];
  reasoning_efforts = [];
}

-- A hidden model that is listed twice, by its name and by its id, is offered once.
listed : ordered_models chosen (small ∷ large ∷ []) ≡ large ∷ []
unfolding ordered_models
listed = refl

abbrev no_layout : SelectorLayoutPreferences
no_layout = record { order = none; permissions = none; model = none; status = none }

abbrev hidden_status : SelectorLayoutEntry
hidden_status = record { visible = some false; name = none; groups = none }

abbrev two_selectors : SelectorLayoutPreferences
two_selectors = record no_layout {
  order = some (codes "model" ∷ codes "model" ∷ codes "other" ∷ []);
  status = some hidden_status;
}

abbrev options : List (Text × ℕ)
options = (codes "permissions", 1) ∷ (codes "model", 2) ∷ (codes "status", 3) ∷ []

shown_order :
    apply_selector_order two_selectors options ≡ (codes "model", 2) ∷ (codes "permissions", 1) ∷ []
unfolding apply_selector_order
shown_order = refl

apply_selector_order-Perm_example :
    Perm (apply_selector_order two_selectors options) (only_visible two_selectors options)
apply_selector_order-Perm_example = apply_selector_order-Perm two_selectors options

abbrev session : Selectors
session = record {
  models = small ∷ large ∷ [];
  current_model = codes "m-small";
  reasoning_effort = low;
  service_tier = none;
  model_selector = chosen;
  selector_layout = two_selectors;
  slash_commands = record { commands = default_slash_commands };
}

abbrev empty_file : SelectorPreferences
empty_file = record { defaults = none; model_selector = none; layout = none; slash_commands = none }

abbrev file : SelectorPreferences
file = reread (persist_selector_preferences empty_file session)

undone : command_order session.slash_commands (codes "UNDO") ≡ some 7
unfolding command_order
undone = refl

restored_model : (apply_selector_preferences session file).current_model ≡ codes "large"
unfolding apply_selector_preferences persist_selector_preferences
restored_model = refl

persist_selector_preferences_idem_example :
    reread (persist_selector_preferences file session) ≡ file
persist_selector_preferences_idem_example = persist_selector_preferences_idem empty_file session

apply-persist_defaults_example :
    let restored = apply_selector_preferences session file in
    (restored.model_selector.default_model ≡ some (codes "large"))
    × (restored.model_selector.default_reasoning_effort ≡ some high)
    × (restored.model_selector.default_service_tier ≡ none)
    × (restored.service_tier ≡ none)
apply-persist_defaults_example = apply-persist_defaults empty_file session session

apply_selector_preferences-HasOfferedModel_example :
    HasOfferedModel (apply_selector_preferences session file)
apply_selector_preferences-HasOfferedModel_example =
    apply_selector_preferences-HasOfferedModel session file refl

-- The session asks for a model that the backend no longer offers.
abbrev shown_models : ModelOptionGroupsInput
shown_models = record {
  models = small ∷ large ∷ [];
  current_model_entry = none;
  current_model_id = codes "older";
  current_reasoning_effort = high;
  model_selector = chosen;
  current_service_tier = none;
}

unoffered_last :
    model_options shown_models
    ≡ record {
      value = codes "large";
      name = codes "Large";
      description = some (codes "A large model");
    }
      ∷ record { value = codes "older"; name = codes "older High"; description = none }
      ∷ []
unfolding model_options
unoffered_last = refl

model_options-has_value_example : has_value (codes "older") (model_options shown_models) ≡ true
model_options-has_value_example = model_options-has_value shown_models

-- An entry that names a model by its `model` field finds the model, and hides it: the selector
-- looks for the entry by the model's id alone.
abbrev by_name : ModelOptionGroupsInput
by_name = record shown_models {
  model_selector = record chosen { models = id_entry (codes "m-small") ∷ [] };
}

named_listed : ordered_models by_name.model_selector (small ∷ large ∷ []) ≡ small ∷ []
unfolding ordered_models
named_listed = refl

named_hidden :
    model_options by_name
    ≡ record { value = codes "older"; name = codes "older High"; description = none } ∷ []
unfolding model_options
named_hidden = refl
