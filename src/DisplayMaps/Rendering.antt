-- ===== src/DisplayMaps/Rendering.antt =====
-- The label of a percentage by thresholds.
use zed_codex_acp_cas.Common.{
  or_else, ℕ, ◌≤◌, ◌<◌, ◌⊎◌, inl, inr, List, [], ◌∷◌, ◌++◌, Option, none, some, ◌≡◌, refl, ap,
  arith, All,
}
use zed_codex_acp_cas.Common.Text.{Text}
use zed_codex_acp_cas.DisplayMaps.{
  PercentThresholdLabel, thresholds, best_threshold, label_of, render, render_fallback,
}

module _ (value : ℕ) where
  -- What comes later and is lower, or too high, does not replace the entry that was found.
  best_threshold-last :
      (e : PercentThresholdLabel) (post : List PercentThresholdLabel)
      → All (λ f. (f.min < e.min) ⊎ (value < f.min)) post
      → best_threshold value (some e) post ≡ some e
  unfolding best_threshold
  best_threshold-last e [] h = refl
  best_threshold-last e (f ∷ post) (inl l, hs) = ground (arith, best_threshold-last e post hs)
  best_threshold-last e (f ∷ post) (inr l, hs) = ground (arith, best_threshold-last e post hs)

  module _ (e : PercentThresholdLabel) (post : List PercentThresholdLabel) (h : e.min ≤ value)
      (hp : All (λ f. (f.min < e.min) ⊎ (value < f.min)) post) where
    best_threshold-some :
        (b : PercentThresholdLabel) (pre : List PercentThresholdLabel)
        → b.min ≤ e.min
        → All (λ f. (f.min ≤ e.min) ⊎ (value < f.min)) pre
        → best_threshold value (some b) (pre ++ e ∷ post) ≡ some e
    unfolding best_threshold
    best_threshold-some b [] l hs = ground (arith, best_threshold-last e post hp)
    best_threshold-some b (f ∷ pre) l (inl k, hs) =
        ground (arith, best_threshold-some b pre l hs, best_threshold-some f pre k hs)
    best_threshold-some b (f ∷ pre) l (inr k, hs) = ground (arith, best_threshold-some b pre l hs)

    best_threshold-none :
        (pre : List PercentThresholdLabel)
        → All (λ f. (f.min ≤ e.min) ⊎ (value < f.min)) pre
        → best_threshold value none (pre ++ e ∷ post) ≡ some e
    unfolding best_threshold
    best_threshold-none [] hs = ground (arith, best_threshold-last e post hp)
    best_threshold-none (f ∷ pre) (inl k, hs) =
        ground (arith, best_threshold-none pre hs, best_threshold-some f pre k hs)
    best_threshold-none (f ∷ pre) (inr k, hs) = ground (arith, best_threshold-none pre hs)

-- A map of thresholds shows the label of the entry with the largest minimum that the percentage
-- reaches, wherever it stands in the list, and of entries with that minimum the last one: the
-- entries before it have a minimum that is not larger or is not reached, those behind it one that
-- is smaller or is not reached.
pub render-thresholds :
    (value : ℕ) (fallback unavailable : Option Text) (pre : List PercentThresholdLabel)
    (e : PercentThresholdLabel) (post : List PercentThresholdLabel)
    → e.min ≤ value
    → All (λ f. (f.min ≤ e.min) ⊎ (value < f.min)) pre
    → All (λ f. (f.min < e.min) ⊎ (value < f.min)) post
    → render (thresholds (pre ++ e ∷ post) fallback unavailable) value ≡ some e.label
unfolding render
render-thresholds value fallback unavailable pre e post h hpre hpost =
    ap (λ b. or_else (label_of b) (render_fallback fallback value))
      (best_threshold-none value e post h hpost pre hpre)
