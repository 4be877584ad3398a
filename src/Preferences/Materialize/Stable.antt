-- ===== src/Preferences/Materialize/Stable.antt =====
-- Preferences that are written out in full stay as they are.
use zed_codex_acp_cas.Common.{
  true, false, List, [], ◌∷◌, Option, none, some, ◌≡◌, refl, sym, ap, ap₂, ◌∙◌, is_empty,
}
use zed_codex_acp_cas.Common.Text.{Text, trim}
use zed_codex_acp_cas.Common.Trim.{trim_idem}
use zed_codex_acp_cas.Preferences.{
  ReasoningEffort, AppModel, SelectorEntry, id_entry, details, ModelSelectorPreferences,
  text_if_nonempty, non_empty_str, entry_id, name_override, description_override, id_or_details,
  materialized, visible_models, ordered_models,
}
use zed_codex_acp_cas.Preferences.Materialize.{
  or_every, advertised_reasoning_efforts, collect_all, entries_of_ids, entries_again, entries_or,
  model_ids, materialized_model_selector,
}

text_if_nonempty-trim :
    (t : Text) → trim t ≡ t → non_empty_str (text_if_nonempty t) ≡ text_if_nonempty t
unfolding non_empty_str
text_if_nonempty-trim [] h = refl
text_if_nonempty-trim (c ∷ cs) h = ap text_if_nonempty h

non_empty_str_idem : (o : Option Text) → non_empty_str (non_empty_str o) ≡ non_empty_str o
unfolding non_empty_str
non_empty_str_idem none = refl
non_empty_str_idem (some t) = text_if_nonempty-trim (trim t) (trim_idem t)

module _ {Key : Type 0} where
  -- An entry with a trimmed name and description stays as it is.
  id_or_details-again :
      (id : Key) (name description : Option Text)
      → non_empty_str name ≡ name
      → non_empty_str description ≡ description
      → materialized
          (entry_id (id_or_details id name description))
          (some (id_or_details id name description))
        ≡ id_or_details id name description
  unfolding materialized name_override description_override
  id_or_details-again id none none h k = refl
  id_or_details-again id none (some d) h k = ap (λ e. id_or_details id none e) k
  id_or_details-again id (some n) none h k = ap (λ m. id_or_details id m none) h
  id_or_details-again id (some n) (some d) h k = ap₂ (id_or_details id) h k

  name_override-trim : (e : SelectorEntry Key) → non_empty_str (name_override e) ≡ name_override e
  unfolding name_override non_empty_str
  name_override-trim (id_entry id) = refl
  name_override-trim (details id name description) = non_empty_str_idem name

  description_override-trim :
      (e : SelectorEntry Key) → non_empty_str (description_override e) ≡ description_override e
  unfolding description_override non_empty_str
  description_override-trim (id_entry id) = refl
  description_override-trim (details id name description) = non_empty_str_idem description

  materialized-again :
      (id : Key) (o : Option (SelectorEntry Key))
      → materialized (entry_id (materialized id o)) (some (materialized id o)) ≡ materialized id o
  unfolding materialized
  materialized-again id none = refl
  materialized-again id (some e) =
      id_or_details-again id (name_override e) (description_override e) (name_override-trim e)
        (description_override-trim e)

  entries_again-of_ids : (ids : List Key) → entries_again (entries_of_ids ids) ≡ entries_of_ids ids
  unfolding entries_again entries_of_ids
  entries_again-of_ids [] = refl
  entries_again-of_ids (id ∷ ids) = ap₂ ◌∷◌ (materialized-again id none) (entries_again-of_ids ids)

  entries_again_idem :
      (es : List (SelectorEntry Key)) → entries_again (entries_again es) ≡ entries_again es
  unfolding entries_again
  entries_again_idem [] = refl
  entries_again_idem (e ∷ es) =
      ap₂ ◌∷◌ (materialized-again (entry_id e) (some e)) (entries_again_idem es)

  entries_or_stays :
      (es : List (SelectorEntry Key)) (ids : List Key)
      → entries_again (entries_or es ids) ≡ entries_or es ids
  entries_or_stays [] ids = entries_again-of_ids ids
  entries_or_stays (e ∷ es) ids = entries_again_idem (e ∷ es)

  entries_or_same :
      (es : List (SelectorEntry Key)) (ids : List Key)
      → entries_again es ≡ es
      → (is_empty es ≡ true → ids ≡ [])
      → entries_or es ids ≡ es
  unfolding entries_of_ids
  entries_or_same [] ids h k = ap entries_of_ids (k refl)
  entries_or_same (e ∷ es) ids h k = h

  entries_or_empty :
      (es : List (SelectorEntry Key)) (ids : List Key)
      → is_empty (entries_or es ids) ≡ true
      → (is_empty es ≡ true) × (ids ≡ [])
  unfolding entries_of_ids entries_again
  entries_or_empty [] [] h = (refl, refl)
  entries_or_empty [] (id ∷ ids) h = let never : false ≡ true = h in cc
  entries_or_empty (e ∷ es) ids h = let never : false ≡ true = h in cc

or_every_nonempty : (efforts : List ReasoningEffort) → or_every efforts ≡ [] → ⊥
or_every_nonempty [] h = let never : false ≡ true = ap is_empty h in cc
or_every_nonempty (e ∷ efforts) h = let never : false ≡ true = ap is_empty h in cc

ordered_models-no_entries :
    (p : ModelSelectorPreferences) (ms : List AppModel)
    → is_empty p.models ≡ true
    → ordered_models p ms ≡ visible_models ms
unfolding ordered_models
ordered_models-no_entries p ms h = rw h refl

-- When no model is left after the preferences are written out, no model is offered.
model_ids-empty :
    (p : ModelSelectorPreferences) (ms : List AppModel)
    → is_empty (materialized_model_selector p ms).models ≡ true
    → model_ids (ordered_models (materialized_model_selector p ms) ms) ≡ []
unfolding materialized_model_selector
model_ids-empty p ms h =
    let old = entries_or_empty p.models (model_ids (ordered_models p ms)) h in
    ap model_ids (ordered_models-no_entries (materialized_model_selector p ms) ms h)
    ∙ sym (ap model_ids (ordered_models-no_entries p ms old.0))
    ∙ old.1

-- Preferences that are written out in full and read back are the same when they are written out
-- again: a file that was materialized once is not rewritten.
pub materialized_model_selector_idem :
    (p : ModelSelectorPreferences) (ms : List AppModel)
    → materialized_model_selector (materialized_model_selector p ms) ms
      ≡ materialized_model_selector p ms
unfolding materialized_model_selector advertised_reasoning_efforts
materialized_model_selector_idem p ms =
    let efforts = advertised_reasoning_efforts (ordered_models p ms) in
    ap₂ (λ models efforts. record p { models = models; reasoning_efforts = efforts })
      (entries_or_same (materialized_model_selector p ms).models
        (model_ids (ordered_models (materialized_model_selector p ms) ms))
        (entries_or_stays p.models (model_ids (ordered_models p ms))) (model_ids-empty p ms))
      (entries_or_same (entries_or p.reasoning_efforts efforts)
        (advertised_reasoning_efforts (ordered_models (materialized_model_selector p ms) ms))
        (entries_or_stays p.reasoning_efforts efforts)
        (λ h. absurd (
          or_every_nonempty (collect_all [] (ordered_models p ms))
            (entries_or_empty p.reasoning_efforts efforts h).1)))
