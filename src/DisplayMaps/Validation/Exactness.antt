-- ===== src/DisplayMaps/Validation/Exactness.antt =====
-- The check of a map asks for no more than the display needs.
use zed_codex_acp_cas.Common.{
  or_else, ℕ, zero, suc, ◌≤◌, Bool, true, false, ◌↔◌, inl, inr, List, [], ◌∷◌, Option, none, some,
  ◌≡◌, refl, ◌==◌, if◌then◌else◌, any, arith, Bool-cases,
}
use zed_codex_acp_cas.Common.Text.{Text, is_some}
use zed_codex_acp_cas.Common.Decimal.{show}
use zed_codex_acp_cas.Common.Maps.{get, contains_key}
use zed_codex_acp_cas.DisplayMaps.{
  PercentThresholdLabel, PercentDisplayMap, template_map, exact, thresholds, best_threshold,
  label_of, render, render_fallback,
}
use zed_codex_acp_cas.DisplayMaps.Validation.{
  ok, all_up_to, validate_percent_display_map, invalid_data,
}
use zed_codex_acp_cas.DisplayMaps.Validation.Checks.{render-is_some, all_up_to-at}

all_up_to-all : (p : ℕ → Bool) (n : ℕ) → ((v : ℕ) → v ≤ n → p v ≡ true) → all_up_to p n ≡ true
all_up_to-all p zero h = h zero (omega arith)
all_up_to-all p (suc n) h =
    rw (h (suc n) (omega arith), all_up_to-all p n (λ v l. h v (omega arith)))

best_threshold-none :
    (vs : List PercentThresholdLabel)
    → any (λ entry. entry.min == 0) vs ≡ false
    → best_threshold 0 none vs ≡ none
unfolding best_threshold
best_threshold-none [] h = refl
best_threshold-none (e ∷ vs) h = ground (arith, best_threshold-none vs)

or_else-none-is_some : (o : Option Text) → is_some (or_else o none) ≡ is_some o
or_else-none-is_some none = refl
or_else-none-is_some (some t) = refl

covered :
    (values : List (Text × Text)) (v : ℕ)
    → is_some (or_else (get (show v) values) none) ≡ true
    → contains_key (show v) values ≡ true
unfolding contains_key
covered values v h = rw (← or_else-none-is_some (get (show v) values)) h

ok-if : (b : Bool) (m : Text) → b ≡ true → (if b then ok else invalid_data m) ≡ ok
ok-if b m h = rw h

complete :
    (map_id : Text) (m : PercentDisplayMap)
    → all_up_to (λ value. is_some (render m value)) 100 ≡ true
    → validate_percent_display_map map_id m ≡ ok
unfolding validate_percent_display_map render render_fallback contains_key
complete map_id (template_map template unavailable) h = refl
complete map_id (exact values (some fallback) unavailable) h = refl
complete map_id (exact values none unavailable) h = ok-if _ _ (
    all_up_to-all (λ value. contains_key (show value) values) 100
      (λ v l.
        covered values v
          (all_up_to-at (λ value. is_some (or_else (get (show value) values) none)) 100 v h l)))
complete map_id (thresholds values (some fallback) unavailable) h = refl
complete map_id (thresholds values none unavailable) h =
    elim (Bool-cases (any (λ entry. entry.min == 0) values)) [
      | inl y ↦ ok-if _ _ y
      | inr n ↦
          let zeroth : is_some (or_else (label_of (best_threshold 0 none values)) none) ≡ true =
            all_up_to-at (λ value. is_some (render (thresholds values none unavailable) value)) 100
              0 h (omega arith) in
          let never : false ≡ true = rw (best_threshold-none values n) at zeroth in cc
    ]

-- A map passes its check if and only if it has a label for every percentage from 0 to 100.
pub validate_percent_display_map_iff :
    (map_id : Text) (m : PercentDisplayMap)
    → (validate_percent_display_map map_id m ≡ ok)
      ↔ (all_up_to (λ value. is_some (render m value)) 100 ≡ true)
validate_percent_display_map_iff map_id m =
    (λ h. all_up_to-all _ 100 (λ value l. render-is_some map_id m value h l), complete map_id m)
