-- ===== src/Preferences/Options.antt =====
-- src/thread/session/config/model_selector.rs: the options for the model that the selector offers.
-- The groups for the effort and the speed are not modelled.
pub mod Current
use zed_codex_acp_cas.Common.{
  Bool, true, false, ◌||◌, List, [], ◌∷◌, ◌++◌, Option, none, some, if◌then◌else◌, unwrap_or,
}
use zed_codex_acp_cas.Common.Text.{Text, codes, text_eq, trim}
use zed_codex_acp_cas.Preferences.{
  ReasoningEffort, AppModel, ModelSelectorPreferences, ordered_models, hides_model,
  reasoning_effort_name_override, model_name_override, model_description_override,
}
use zed_codex_acp_cas.Preferences.Materialize.{reasoning_effort_label}

-- An option of a selector of the client.
pub record SelectOption : Type 0 where
  pub value : Text
  pub name : Text
  pub description : Option Text

pub record ModelOptionGroupsInput : Type 0 where
  pub models : List AppModel
  pub current_model_entry : Option AppModel
  pub current_model_id : Text
  pub current_reasoning_effort : ReasoningEffort
  pub model_selector : ModelSelectorPreferences
  pub current_service_tier : Option Text

abbrev pub display_name_or : Option AppModel → Text → Text
display_name_or none current_model_id = current_model_id
display_name_or (some m) current_model_id = m.display_name

unfoldable pub model_label_for_selector : Option AppModel → Text → ModelSelectorPreferences → Text
unfolding model_name_override trim
model_label_for_selector current_model_entry current_model_id model_selector =
    unwrap_or (model_name_override model_selector current_model_id)
      (trim (display_name_or current_model_entry current_model_id))

unfoldable pub reasoning_effort_label_for_selector :
    ReasoningEffort → ModelSelectorPreferences → Text
unfolding reasoning_effort_name_override
reasoning_effort_label_for_selector effort model_selector =
    unwrap_or (reasoning_effort_name_override model_selector effort) (reasoning_effort_label effort)

unfoldable pub current_model_label_for_selector :
    Option AppModel → Text → ReasoningEffort → ModelSelectorPreferences → Text
unfolding model_label_for_selector reasoning_effort_label_for_selector
current_model_label_for_selector entry id effort model_selector =
    model_label_for_selector entry id model_selector
    ++ codes " "
    ++ reasoning_effort_label_for_selector effort model_selector

unfoldable pub fast_mode_label : Option Text → Text
fast_mode_label none = codes "Standard"
fast_mode_label (some tier) =
    if text_eq tier (codes "fast") || text_eq tier (codes "priority")
    then codes "Fast"
    else if text_eq tier (codes "flex")
    then codes "Flex"
    else tier

-- The label of the current model in the selector.
unfoldable pub current_label : ModelOptionGroupsInput → Text
unfolding current_model_label_for_selector
current_label input =
    current_model_label_for_selector input.current_model_entry input.current_model_id
      input.current_reasoning_effort input.model_selector

unfoldable pub model_description : ModelOptionGroupsInput → AppModel → Text
unfolding model_description_override
model_description input m =
    unwrap_or (model_description_override input.model_selector m.id) m.description

unfoldable pub model_option : ModelOptionGroupsInput → AppModel → SelectOption
unfolding current_label model_label_for_selector model_description fast_mode_label
model_option input m = record {
  value = m.id;
  name =
      if text_eq m.id input.current_model_id
      then current_label input
      else model_label_for_selector (some m) m.id input.model_selector;
  description = some (
      if text_eq m.id input.current_model_id
      then model_description input m
        ++ codes "\nSelected: reasoning effort "
        ++ reasoning_effort_label input.current_reasoning_effort
        ++ codes ", speed "
        ++ fast_mode_label input.current_service_tier
        ++ codes "."
      else model_description input m);
}

-- The loop over the models: the options, and whether the current model is one.
unfoldable pub model_loop :
    ModelOptionGroupsInput → List SelectOption → Bool → List AppModel → List SelectOption × Bool
unfolding hides_model model_option
model_loop input model_options has_current_model [] = (model_options, has_current_model)
model_loop input model_options has_current_model (m ∷ models) =
    let hidden = hides_model input.model_selector m.id input.current_model_id in
    model_loop input (if hidden then model_options else model_options ++ model_option input m ∷ [])
      (if hidden
        then has_current_model
        else has_current_model || text_eq m.id input.current_model_id)
      models

abbrev pub with_current : ModelOptionGroupsInput → List SelectOption × Bool → List SelectOption
with_current input (model_options, true) = model_options
with_current input (model_options, false) =
    model_options
    ++ record { value = input.current_model_id; name = current_label input; description = none }
      ∷ []

-- The options of the group of models.
unfoldable pub model_options : ModelOptionGroupsInput → List SelectOption
unfolding ordered_models model_loop
model_options input =
    with_current input
      (model_loop input [] false (ordered_models input.model_selector input.models))
