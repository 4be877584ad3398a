-- ===== src/Preferences/Stored.antt =====
-- src/thread/session/selector_preferences.rs: preferences applied to a session, and the preferences
-- that are written back. Reading and writing the file are calls of serde_json; what they do to the
-- fields that are marked to be skipped is `reread`.
pub mod Restored
pub mod Rewritten
use zed_codex_acp_cas.Common.{
  ℕ, zero, suc, Bool, true, false, ◌||◌, List, [], ◌∷◌, Option, none, some, if◌then◌else◌, any,
  unwrap_or, ◌>>=◌,
}
use zed_codex_acp_cas.Common.Text.{Text, codes, text_eq}
use zed_codex_acp_cas.Preferences.{ReasoningEffort, AppModel, ModelSelectorPreferences, id_matches}
use zed_codex_acp_cas.Preferences.Layout.{SelectorLayoutPreferences}
use zed_codex_acp_cas.Preferences.Materialize.{
  materialized_model_selector, materialized_selector_layout,
  normalize_reasoning_effort_for_preferences,
}

pub record SlashCommandPreferences : Type 0 where
  pub commands : List Text

abbrev pub default_slash_commands : List Text
default_slash_commands =
    codes "init"
    ∷ codes "status"
    ∷ codes "review"
    ∷ codes "fork"
    ∷ codes "archive"
    ∷ codes "unarchive"
    ∷ codes "compact"
    ∷ codes "undo"
    ∷ codes "plan"
    ∷ codes "rename"
    ∷ codes "diff"
    ∷ []

unfoldable pub is_enabled : SlashCommandPreferences → Text → Bool
is_enabled preferences command =
    any (λ candidate. id_matches candidate command) preferences.commands

-- `position` of the first command.
abbrev pub position : Text → List Text → Option ℕ
position command [] = none
position command (candidate ∷ commands) =
    let rest = position command commands in
    if id_matches candidate command then some zero else rest >>= (λ i. some (suc i))

unfoldable pub command_order : SlashCommandPreferences → Text → Option ℕ
command_order preferences command = position command preferences.commands

pub record SelectorDefaultPreferences : Type 0 where
  pub model : Option (Option Text)
  pub reasoning_effort : Option (Option ReasoningEffort)
  pub service_tier : Option (Option Text)

pub record SelectorPreferences : Type 0 where
  pub defaults : Option SelectorDefaultPreferences
  pub model_selector : Option ModelSelectorPreferences
  pub layout : Option SelectorLayoutPreferences
  pub slash_commands : Option SlashCommandPreferences

-- The fields of a session that the preferences read and set.
pub record Selectors : Type 0 where
  pub models : List AppModel
  pub current_model : Text
  pub reasoning_effort : ReasoningEffort
  pub service_tier : Option Text
  pub model_selector : ModelSelectorPreferences
  pub selector_layout : SelectorLayoutPreferences
  pub slash_commands : SlashCommandPreferences

-- The preferences of the selector, with the defaults that the session has.
abbrev pub take_model_selector : Option ModelSelectorPreferences → Selectors → Selectors
take_model_selector none inner = inner
take_model_selector (some value) inner = record inner {
  model_selector = record value {
    default_model = inner.model_selector.default_model;
    default_reasoning_effort = inner.model_selector.default_reasoning_effort;
    default_service_tier = inner.model_selector.default_service_tier;
  };
}

abbrev pub is_offered : Text → List AppModel → Bool
is_offered model models =
    any (λ candidate. text_eq candidate.id model || text_eq candidate.model model) models

abbrev pub set_current_model : Option Text → Selectors → Selectors
set_current_model none inner = inner
set_current_model (some model) inner =
    if is_offered model inner.models then record inner { current_model = model } else inner

abbrev pub take_model : Option (Option Text) → Selectors → Selectors
take_model none inner = inner
take_model (some model) inner =
    set_current_model model
      (record inner { model_selector = record inner.model_selector { default_model = model } })

unfoldable pub set_effort : Option ReasoningEffort → Selectors → Selectors
unfolding normalize_reasoning_effort_for_preferences
set_effort none inner = inner
set_effort (some effort) inner = record inner {
  reasoning_effort =
      normalize_reasoning_effort_for_preferences inner.models inner.current_model
        inner.model_selector effort;
}

abbrev pub take_effort : Option (Option ReasoningEffort) → Selectors → Selectors
take_effort none inner = inner
take_effort (some effort) inner = set_effort effort (record inner {
  model_selector = record inner.model_selector { default_reasoning_effort = effort };
})

abbrev pub take_tier : Option (Option Text) → Selectors → Selectors
take_tier none inner = inner
take_tier (some tier) inner = record inner {
  model_selector = record inner.model_selector { default_service_tier = tier };
  service_tier = tier;
}

abbrev pub take_defaults : Option SelectorDefaultPreferences → Selectors → Selectors
take_defaults none inner = inner
take_defaults (some defaults) inner =
    take_tier defaults.service_tier
      (take_effort defaults.reasoning_effort (take_model defaults.model inner))

abbrev pub take_layout : Option SelectorLayoutPreferences → Selectors → Selectors
take_layout none inner = inner
take_layout (some value) inner = record inner { selector_layout = value }

abbrev pub take_commands : Option SlashCommandPreferences → Selectors → Selectors
take_commands none inner = inner
take_commands (some value) inner = record inner { slash_commands = value }

unfoldable pub apply_selector_preferences : Selectors → SelectorPreferences → Selectors
unfolding set_effort
apply_selector_preferences inner preferences = take_commands preferences.slash_commands (
    take_layout preferences.layout
      (take_defaults preferences.defaults (take_model_selector preferences.model_selector inner)))

-- What is written, when the file held `existing`.
unfoldable pub persist_selector_preferences : SelectorPreferences → Selectors → SelectorPreferences
unfolding materialized_model_selector materialized_selector_layout
persist_selector_preferences existing inner = record {
  defaults = some record {
    model = some inner.model_selector.default_model;
    reasoning_effort = some inner.model_selector.default_reasoning_effort;
    service_tier = some inner.model_selector.default_service_tier;
  };
  model_selector = some (
      materialized_model_selector (unwrap_or existing.model_selector inner.model_selector)
        inner.models);
  layout = some (materialized_selector_layout (unwrap_or existing.layout inner.selector_layout));
  slash_commands = some (unwrap_or existing.slash_commands inner.slash_commands);
}

-- `#[serde(skip)]`: the defaults in the preferences of the selector are not in the file.
abbrev pub without_defaults : ModelSelectorPreferences → ModelSelectorPreferences
without_defaults selector = record selector {
  default_model = none;
  default_reasoning_effort = none;
  default_service_tier = none;
}

abbrev pub reread : SelectorPreferences → SelectorPreferences
reread preferences = record preferences {
  model_selector = preferences.model_selector >>= (λ s. some (without_defaults s));
}
