-- ===== src/Preferences/Stored/Rewritten.antt =====
-- Preferences that were written back stay as they are, and give back the defaults of the session.
use zed_codex_acp_cas.Common.{
  Bool, true, false, not, List, [], ◌∷◌, Option, none, some, ◌≡◌, refl, ap, ap₂, is_empty,
  unwrap_or, ◌>>=◌,
}
use zed_codex_acp_cas.Common.Text.{Text, codes, trim}
use zed_codex_acp_cas.Preferences.{ModelSelectorPreferences}
use zed_codex_acp_cas.Preferences.Layout.{
  SelectorLayoutEntry, SelectorLayoutPreferences, name_of, visible_of, groups_of,
}
use zed_codex_acp_cas.Preferences.Materialize.{
  keep_if, named, grouped, materialized_selector_entry, materialized_selector_layout,
  materialized_model_selector,
}
use zed_codex_acp_cas.Preferences.Materialize.Stable.{materialized_model_selector_idem}
use zed_codex_acp_cas.Preferences.Stored.{
  SelectorPreferences, Selectors, persist_selector_preferences, without_defaults, reread,
}

keep_if-named :
    (b : Bool) (t other : Text)
    → not (is_empty (trim t)) ≡ b
    → named (some other) ≡ some other
    → unwrap_or (named (some (unwrap_or (keep_if b t) other))) other ≡ unwrap_or (keep_if b t) other
unfolding named
keep_if-named true t other h k = rw h refl
keep_if-named false t other h k = ap (λ o. unwrap_or o other) k

named-again :
    (o : Option Text) (other : Text)
    → named (some other) ≡ some other
    → unwrap_or (named (some (unwrap_or (named o) other))) other ≡ unwrap_or (named o) other
unfolding named
named-again none other k = ap (λ o. unwrap_or o other) k
named-again (some t) other k = keep_if-named (not (is_empty (trim t))) t other refl k

grouped-again :
    (o : Option (List Text)) (others : List Text)
    → grouped (some others) ≡ some others
    → unwrap_or (grouped (some (unwrap_or (grouped o) others))) others
      ≡ unwrap_or (grouped o) others
grouped-again none others k = ap (λ o. unwrap_or o others) k
grouped-again (some []) others k = ap (λ o. unwrap_or o others) k
grouped-again (some (g ∷ gs)) others k = refl

abbrev entry_with : Bool → Text → List Text → SelectorLayoutEntry
entry_with visible name groups = record {
  visible = some visible;
  name = some name;
  groups = some groups;
}

-- A default name that is not blank and default groups of which there is one.
materialized_selector_entry_idem :
    (e : Option SelectorLayoutEntry) (n : Text) (gs : List Text)
    → named (some n) ≡ some n
    → grouped (some gs) ≡ some gs
    → materialized_selector_entry (some (materialized_selector_entry e n gs)) n gs
      ≡ materialized_selector_entry e n gs
unfolding materialized_selector_entry
materialized_selector_entry_idem e n gs h k =
    ap₂ (entry_with (unwrap_or (e >>= visible_of) true)) (named-again (e >>= name_of) n h)
      (grouped-again (e >>= groups_of) gs k)

abbrev layout_with :
    List Text
    → SelectorLayoutEntry
    → SelectorLayoutEntry
    → SelectorLayoutEntry
    → SelectorLayoutPreferences
layout_with order permissions model status = record {
  order = some order;
  permissions = some permissions;
  model = some model;
  status = some status;
}

materialized_selector_layout_idem :
    (layout : SelectorLayoutPreferences)
    → materialized_selector_layout (materialized_selector_layout layout)
      ≡ materialized_selector_layout layout
unfolding materialized_selector_layout named
materialized_selector_layout_idem layout =
    rw
      (materialized_selector_entry_idem layout.permissions (codes "Permissions")
        (codes "workflow" ∷ codes "guarded" ∷ codes "bypass" ∷ []) refl refl)
      rw
      (materialized_selector_entry_idem layout.model (codes "Model")
        (codes "models" ∷ codes "effort" ∷ codes "speed" ∷ []) refl refl)
      rw
      (materialized_selector_entry_idem layout.status (codes "Status")
        (codes "status" ∷ codes "actions" ∷ []) refl refl)
      refl

abbrev written :
    SelectorPreferences → ModelSelectorPreferences → SelectorLayoutPreferences → SelectorPreferences
written p selector layout = record p {
  model_selector = some (without_defaults selector);
  layout = some layout;
}

-- Writing the preferences back a second time, with the file read in between and the same session,
-- writes what the file holds already.
pub persist_selector_preferences_idem :
    (existing : SelectorPreferences) (inner : Selectors)
    → reread
        (persist_selector_preferences (reread (persist_selector_preferences existing inner)) inner)
      ≡ reread (persist_selector_preferences existing inner)
unfolding persist_selector_preferences materialized_model_selector
persist_selector_preferences_idem existing inner =
    ap₂ (written (persist_selector_preferences existing inner))
      (materialized_model_selector_idem (unwrap_or existing.model_selector inner.model_selector)
        inner.models)
      (materialized_selector_layout_idem (unwrap_or existing.layout inner.selector_layout))
