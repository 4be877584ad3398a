-- ===== src/Preferences/Materialize.antt =====
-- src/thread/session/selector_preferences/materialize.rs: the preferences written out in full, as
-- they are kept in the file; and how preferences are applied to a session
-- (src/thread/session/selector_preferences.rs, src/thread/session/config/reasoning.rs).
pub mod Stable
use zed_codex_acp_cas.Common.{
  Bool, true, false, not, ◌||◌, List, [], ◌∷◌, ◌++◌, Option, none, some, if◌then◌else◌, is_empty,
  any, unwrap_or, ◌>>=◌,
}
use zed_codex_acp_cas.Common.Text.{Text, codes, text_eq, is_some, trim}
use zed_codex_acp_cas.Preferences.{
  ReasoningEffort, none_level, minimal, low, medium, high, x_high, max_level, ultra, custom,
  effort_eq, AppModel, SelectorEntry, ModelSelectorPreferences, entry_id, materialized,
  ordered_models, explicitly_enables_reasoning_effort,
}
use zed_codex_acp_cas.Preferences.Layout.{
  SelectorLayoutEntry, SelectorLayoutPreferences, name_of, visible_of, groups_of,
}

-- `Vec::contains`.
abbrev pub has_effort : ReasoningEffort → List ReasoningEffort → Bool
has_effort effort efforts = any (λ e. effort_eq e effort) efforts

-- The loop over the efforts of a model, and that over the models.
unfoldable pub collect_efforts : List ReasoningEffort → List ReasoningEffort → List ReasoningEffort
collect_efforts efforts [] = efforts
collect_efforts efforts (effort ∷ offered) =
    collect_efforts (if has_effort effort efforts then efforts else efforts ++ effort ∷ []) offered

unfoldable pub collect_all : List ReasoningEffort → List AppModel → List ReasoningEffort
unfolding collect_efforts
collect_all efforts [] = efforts
collect_all efforts (m ∷ models) =
    collect_all (collect_efforts efforts m.supported_reasoning_efforts) models

abbrev pub or_every : List ReasoningEffort → List ReasoningEffort
or_every [] = none_level ∷ minimal ∷ low ∷ medium ∷ high ∷ x_high ∷ max_level ∷ ultra ∷ []
or_every (effort ∷ efforts) = effort ∷ efforts

unfoldable pub advertised_reasoning_efforts : List AppModel → List ReasoningEffort
unfolding collect_all
advertised_reasoning_efforts models = or_every (collect_all [] models)

module _ {Key : Type 0} where
  unfoldable pub entries_of_ids : List Key → List (SelectorEntry Key)
  unfolding materialized
  entries_of_ids [] = []
  entries_of_ids (id ∷ ids) = materialized id none ∷ entries_of_ids ids

  unfoldable pub entries_again : List (SelectorEntry Key) → List (SelectorEntry Key)
  unfolding materialized
  entries_again [] = []
  entries_again (e ∷ entries) = materialized (entry_id e) (some e) ∷ entries_again entries

  -- The entries that there are, or else those of the ids.
  abbrev pub entries_or : List (SelectorEntry Key) → List Key → List (SelectorEntry Key)
  entries_or [] ids = entries_of_ids ids
  entries_or (e ∷ entries) ids = entries_again (e ∷ entries)

abbrev pub model_ids : List AppModel → List Text
model_ids [] = []
model_ids (m ∷ models) = m.id ∷ model_ids models

unfoldable pub materialized_model_selector :
    ModelSelectorPreferences → List AppModel → ModelSelectorPreferences
unfolding entries_of_ids entries_again ordered_models advertised_reasoning_efforts
materialized_model_selector preferences models =
    let ordered = ordered_models preferences models in
    record preferences {
      models = entries_or preferences.models (model_ids ordered);
      reasoning_efforts =
          entries_or preferences.reasoning_efforts (advertised_reasoning_efforts ordered);
    }

abbrev pub keep_if : Bool → Text → Option Text
keep_if true t = some t
keep_if false t = none

-- `filter(|name| !name.trim().is_empty())`.
unfoldable pub named : Option Text → Option Text
unfolding trim
named none = none
named (some name) = keep_if (not (is_empty (trim name))) name

abbrev pub grouped : Option (List Text) → Option (List Text)
grouped none = none
grouped (some []) = none
grouped (some (g ∷ groups)) = some (g ∷ groups)

unfoldable pub materialized_selector_entry :
    Option SelectorLayoutEntry → Text → List Text → SelectorLayoutEntry
unfolding named
materialized_selector_entry entry default_name default_groups = record {
  visible = some (unwrap_or (entry >>= visible_of) true);
  name = some (unwrap_or (named (entry >>= name_of)) default_name);
  groups = some (unwrap_or (grouped (entry >>= groups_of)) default_groups);
}

abbrev pub default_selector_order : List Text
default_selector_order = codes "permissions" ∷ codes "model" ∷ codes "status" ∷ []

unfoldable pub materialized_selector_layout : SelectorLayoutPreferences → SelectorLayoutPreferences
unfolding materialized_selector_entry
materialized_selector_layout layout = record {
  order = some (unwrap_or layout.order default_selector_order);
  permissions = some (
      materialized_selector_entry layout.permissions (codes "Permissions")
        (codes "workflow" ∷ codes "guarded" ∷ codes "bypass" ∷ []));
  model = some (
      materialized_selector_entry layout.model (codes "Model")
        (codes "models" ∷ codes "effort" ∷ codes "speed" ∷ []));
  status = some (
      materialized_selector_entry layout.status (codes "Status")
        (codes "status" ∷ codes "actions" ∷ []));
}

unfoldable pub find_model_for_current : List AppModel → Text → Option AppModel
find_model_for_current [] current_model = none
find_model_for_current (m ∷ models) current_model =
    let rest = find_model_for_current models current_model in
    if text_eq m.id current_model || text_eq m.model current_model then some m else rest

abbrev pub supported_or_default : ReasoningEffort → Option AppModel → ReasoningEffort
supported_or_default effort none = effort
supported_or_default effort (some m) =
    if has_effort effort m.supported_reasoning_efforts then effort else m.default_reasoning_effort

unfoldable pub normalize_reasoning_effort_for_model :
    List AppModel → Text → ReasoningEffort → ReasoningEffort
unfolding find_model_for_current
normalize_reasoning_effort_for_model models current_model current_effort =
    supported_or_default current_effort (find_model_for_current models current_model)

unfoldable pub normalize_reasoning_effort_for_preferences :
    List AppModel → Text → ModelSelectorPreferences → ReasoningEffort → ReasoningEffort
unfolding explicitly_enables_reasoning_effort normalize_reasoning_effort_for_model
normalize_reasoning_effort_for_preferences models current_model preferences effort =
    if explicitly_enables_reasoning_effort preferences effort
    then effort
    else normalize_reasoning_effort_for_model models current_model effort

abbrev pub reasoning_effort_label : ReasoningEffort → Text
reasoning_effort_label none_level = codes "None"
reasoning_effort_label minimal = codes "Minimal"
reasoning_effort_label low = codes "Low"
reasoning_effort_label medium = codes "Medium"
reasoning_effort_label high = codes "High"
reasoning_effort_label x_high = codes "Extra High"
reasoning_effort_label max_level = codes "Max"
reasoning_effort_label ultra = codes "Ultra"
reasoning_effort_label (custom value) = value
