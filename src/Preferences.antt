-- ===== src/Preferences.antt =====
-- src/thread/session/selector_preferences.rs: the preferences of the selectors, what they make of
-- the models that the backend offers, and how they are applied to a session. Reading and writing
-- the file is not modelled.
pub mod Layout
pub mod Materialize
pub mod Options
pub mod Stored
use zed_codex_acp_cas.Common.{
  ℕ, ◌+◌, Bool, true, false, not, ◌&&◌, ◌||◌, List, [], ◌∷◌, ◌++◌, Option, none, some, ◌==◌, leb,
  if◌then◌else◌, is_empty, any, map, ◌>>=◌,
}
use zed_codex_acp_cas.Common.Text.{Text, codes, text_eq, is_some, trim}

-- `u8::to_ascii_lowercase`.
abbrev pub to_ascii_lowercase : ℕ → ℕ
to_ascii_lowercase c = if leb b'A' c && leb c b'Z' then c + 32 else c

-- `eq_ignore_ascii_case`.
abbrev pub id_matches : Text → Text → Bool
id_matches [] [] = true
id_matches (x ∷ xs) (y ∷ ys) = to_ascii_lowercase x == to_ascii_lowercase y && id_matches xs ys
id_matches _ _ = false

pub data ReasoningEffort : Type 0 where
  none_level minimal low medium high x_high max_level ultra : ReasoningEffort
  custom : (value : Text) → ReasoningEffort

-- `==` on `ReasoningEffort`.
abbrev pub effort_eq : ReasoningEffort → ReasoningEffort → Bool
effort_eq none_level none_level = true
effort_eq minimal minimal = true
effort_eq low low = true
effort_eq medium medium = true
effort_eq high high = true
effort_eq x_high x_high = true
effort_eq max_level max_level = true
effort_eq ultra ultra = true
effort_eq (custom v) (custom w) = text_eq v w
effort_eq _ _ = false

-- The fields of the backend's model that the preferences and the selector read, without the
-- descriptions of its efforts.
pub record AppModel : Type 0 where
  pub id : Text
  pub model : Text
  pub display_name : Text
  pub description : Text
  pub hidden : Bool
  pub supported_reasoning_efforts : List ReasoningEffort
  pub default_reasoning_effort : ReasoningEffort

-- An entry for a model, or for an effort: its id alone, or with a name and a description.
pub data SelectorEntry (Key : Type 0) : Type 0 where
  id_entry : (id : Key) → SelectorEntry Key
  details : (id : Key) (name description : Option Text) → SelectorEntry Key

pub record ModelSelectorPreferences : Type 0 where
  pub default_model : Option Text
  pub default_reasoning_effort : Option ReasoningEffort
  pub default_service_tier : Option Text
  pub models : List (SelectorEntry Text)
  pub reasoning_efforts : List (SelectorEntry ReasoningEffort)

abbrev pub text_if_nonempty : Text → Option Text
text_if_nonempty [] = none
text_if_nonempty (c ∷ cs) = some (c ∷ cs)

unfoldable pub non_empty_str : Option Text → Option Text
unfolding trim
non_empty_str none = none
non_empty_str (some value) = text_if_nonempty (trim value)

module _ {Key : Type 0} where
  abbrev pub entry_id : SelectorEntry Key → Key
  entry_id (id_entry id) = id
  entry_id (details id name description) = id

  unfoldable pub name_override : SelectorEntry Key → Option Text
  unfolding non_empty_str
  name_override (id_entry id) = none
  name_override (details id name description) = non_empty_str name

  unfoldable pub description_override : SelectorEntry Key → Option Text
  unfolding non_empty_str
  description_override (id_entry id) = none
  description_override (details id name description) = non_empty_str description

  abbrev pub id_or_details : Key → Option Text → Option Text → SelectorEntry Key
  id_or_details id none none = id_entry id
  id_or_details id name description = details id name description

  unfoldable pub materialized : Key → Option (SelectorEntry Key) → SelectorEntry Key
  unfolding name_override description_override
  materialized id none = id_entry id
  materialized id (some existing) =
      id_or_details id (name_override existing) (description_override existing)

-- `find` of a model by its id or its name.
unfoldable pub find_model : Text → List AppModel → Option AppModel
find_model model_id [] = none
find_model model_id (m ∷ models) =
    let rest = find_model model_id models in
    if id_matches m.id model_id || id_matches m.model model_id then some m else rest

abbrev pub visible_models : List AppModel → List AppModel
visible_models [] = []
visible_models (m ∷ models) =
    let rest = visible_models models in if m.hidden then rest else m ∷ rest

-- Whether a model is among those that were taken.
unfoldable pub is_taken : AppModel → List AppModel → Bool
is_taken model ordered =
    any (λ taken. id_matches taken.id model.id || id_matches taken.model model.model) ordered

abbrev pub push_model : List AppModel → Option AppModel → List AppModel
push_model ordered none = ordered
push_model ordered (some model) = if is_taken model ordered then ordered else ordered ++ model ∷ []

-- The loop over the entries.
unfoldable pub order_loop :
    List AppModel → List AppModel → List (SelectorEntry Text) → List AppModel
unfolding find_model is_taken
order_loop models ordered [] = ordered
order_loop models ordered (entry ∷ entries) =
    order_loop models (push_model ordered (find_model (entry_id entry) models)) entries

unfoldable pub ordered_models : ModelSelectorPreferences → List AppModel → List AppModel
unfolding order_loop
ordered_models preferences models =
    if is_empty preferences.models
    then visible_models models
    else order_loop models [] preferences.models

unfoldable pub find_model_entry : Text → List (SelectorEntry Text) → Option (SelectorEntry Text)
find_model_entry model_id [] = none
find_model_entry model_id (entry ∷ entries) =
    let rest = find_model_entry model_id entries in
    if id_matches (entry_id entry) model_id then some entry else rest

unfoldable pub find_effort_entry :
    ReasoningEffort → List (SelectorEntry ReasoningEffort) → Option (SelectorEntry ReasoningEffort)
find_effort_entry effort [] = none
find_effort_entry effort (entry ∷ entries) =
    let rest = find_effort_entry effort entries in
    if effort_eq (entry_id entry) effort then some entry else rest

unfoldable pub hides_model : ModelSelectorPreferences → Text → Text → Bool
unfolding find_model_entry
hides_model preferences model_id current_model_id =
    if text_eq model_id current_model_id
    then false
    else not (is_empty preferences.models)
      && not (is_some (find_model_entry model_id preferences.models))

unfoldable pub explicitly_enables_reasoning_effort :
    ModelSelectorPreferences → ReasoningEffort → Bool
unfolding find_effort_entry
explicitly_enables_reasoning_effort preferences effort =
    is_some (find_effort_entry effort preferences.reasoning_efforts)

abbrev pub configured_visible_reasoning_efforts : ModelSelectorPreferences → List ReasoningEffort
configured_visible_reasoning_efforts preferences = map entry_id preferences.reasoning_efforts

unfoldable pub hides_reasoning_effort :
    ModelSelectorPreferences → ReasoningEffort → ReasoningEffort → Bool
unfolding explicitly_enables_reasoning_effort
hides_reasoning_effort preferences effort current_effort =
    if effort_eq effort current_effort
    then false
    else not (is_empty preferences.reasoning_efforts)
      && not (explicitly_enables_reasoning_effort preferences effort)

unfoldable pub reasoning_effort_name_override :
    ModelSelectorPreferences → ReasoningEffort → Option Text
unfolding find_effort_entry name_override
reasoning_effort_name_override preferences effort =
    find_effort_entry effort preferences.reasoning_efforts >>= name_override

unfoldable pub reasoning_effort_description_override :
    ModelSelectorPreferences → ReasoningEffort → Option Text
unfolding find_effort_entry description_override
reasoning_effort_description_override preferences effort =
    find_effort_entry effort preferences.reasoning_efforts >>= description_override

unfoldable pub model_name_override : ModelSelectorPreferences → Text → Option Text
unfolding find_model_entry name_override
model_name_override preferences model_id =
    find_model_entry model_id preferences.models >>= name_override

unfoldable pub model_description_override : ModelSelectorPreferences → Text → Option Text
unfolding find_model_entry description_override
model_description_override preferences model_id =
    find_model_entry model_id preferences.models >>= description_override
