-- ===== src/Preferences/Options/Current.antt =====
-- The value that the selector shows as the current one is among its options.
use zed_codex_acp_cas.Common.{
  Bool, true, false, ◌||◌, List, [], ◌∷◌, ◌++◌, none, ◌≡◌, refl, ap, ◌∙◌, if◌then◌else◌, any,
}
use zed_codex_acp_cas.Common.Text.{Text, text_eq, text_eq_iff}
use zed_codex_acp_cas.Preferences.{AppModel, ordered_models, hides_model}
use zed_codex_acp_cas.Preferences.Options.{
  SelectOption, ModelOptionGroupsInput, current_label, model_option, model_loop, with_current,
  model_options,
}

-- Whether an option has a value.
abbrev pub has_value : Text → List SelectOption → Bool
has_value value options = any (λ o. text_eq o.value value) options

or_last : (x y z : Bool) → (x || (y || z)) ≡ ((x || y) || z)
or_last true y z = refl
or_last false y z = refl

or_false : (x : Bool) → (x || false) ≡ x
or_false true = refl
or_false false = refl

or_true : (x : Bool) → (x || true) ≡ true
or_true true = refl
or_true false = refl

has_value-append :
    (value : Text) (options : List SelectOption) (o : SelectOption)
    → has_value value (options ++ o ∷ []) ≡ (has_value value options || text_eq o.value value)
has_value-append value [] o = or_false (text_eq o.value value)
has_value-append value (p ∷ options) o =
    ap (λ b. text_eq p.value value || b) (has_value-append value options o)
    ∙ or_last (text_eq p.value value) (has_value value options) (text_eq o.value value)

-- The flag of the loop is whether the current model is among the options so far.
step-has_value :
    (hidden : Bool) (input : ModelOptionGroupsInput) (m : AppModel) (options : List SelectOption)
    → has_value input.current_model_id
        (if hidden then options else options ++ model_option input m ∷ [])
      ≡ (if hidden
          then has_value input.current_model_id options
          else has_value input.current_model_id options || text_eq m.id input.current_model_id)
unfolding model_option
step-has_value true input m options = refl
step-has_value false input m options =
    has_value-append input.current_model_id options (model_option input m)

model_loop-has_value :
    (input : ModelOptionGroupsInput) (options : List SelectOption) (has : Bool) (ms : List AppModel)
    → has_value input.current_model_id options ≡ has
    → has_value input.current_model_id (model_loop input options has ms).0
      ≡ (model_loop input options has ms).1
unfolding model_loop
model_loop-has_value input options has [] h = h
model_loop-has_value input options has (m ∷ ms) h =
    let hidden = hides_model input.model_selector m.id input.current_model_id in
    model_loop-has_value input (if hidden then options else options ++ model_option input m ∷ [])
      (if hidden then has else has || text_eq m.id input.current_model_id) ms
      (step-has_value hidden input m options
        ∙ ap (λ b. if hidden then b else b || text_eq m.id input.current_model_id) h)

with_current-has_value :
    (input : ModelOptionGroupsInput) (options : List SelectOption) (has : Bool)
    → has_value input.current_model_id options ≡ has
    → has_value input.current_model_id (with_current input (options, has)) ≡ true
with_current-has_value input options true h = h
with_current-has_value input options false h =
    has_value-append input.current_model_id options
      (record { value = input.current_model_id; name = current_label input; description = none })
    ∙ ap (λ b. has_value input.current_model_id options || b)
        ((text_eq_iff input.current_model_id input.current_model_id).1 refl)
    ∙ or_true (has_value input.current_model_id options)

-- The current model is one of the options that the selector offers, also when it is hidden, when
-- the preferences leave it out and when the backend does not offer it.
pub model_options-has_value :
    (input : ModelOptionGroupsInput) → has_value input.current_model_id (model_options input) ≡ true
unfolding model_options
model_options-has_value input =
    let looped = model_loop input [] false (ordered_models input.model_selector input.models) in
    with_current-has_value input looped.0 looped.1
      (model_loop-has_value input [] false (ordered_models input.model_selector input.models) refl)
