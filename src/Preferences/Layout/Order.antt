-- ===== src/Preferences/Layout/Order.antt =====
-- Ordering loses no selector and shows none twice.
use mathlib.Core.List.{Perm}
use mathlib.Core.List.Perm
use zed_codex_acp_cas.Common.{
  Bool, true, false, List, [], ◌∷◌, ◌++◌, Option, none, some, if◌then◌else◌, unwrap_or,
  append_assoc,
}
use zed_codex_acp_cas.Common.Text.{Text, text_eq}
use zed_codex_acp_cas.Preferences.Layout.{
  SelectorLayoutPreferences, kept_before, take_id, move, order_ids, only_visible, joined,
  apply_selector_order,
}

module _ {A : Type 0} where
  -- An entry that is taken and the rest are what there was.
  abbrev IsTaken : List (Text × A) → Option ((Text × A) × List (Text × A)) → Type 0
  IsTaken l none = Unit
  IsTaken l (some (found, others)) = Perm l (found ∷ others)

  kept_before-IsTaken :
      (first : Text × A) (l : List (Text × A)) (o : Option ((Text × A) × List (Text × A)))
      → IsTaken l o
      → IsTaken (first ∷ l) (kept_before first o)
  kept_before-IsTaken first l none h = tt
  kept_before-IsTaken first l (some (found, others)) h =
      Perm.trans (Perm.cons first h) (Perm.swap found first others)

  if-IsTaken :
      (b : Bool) (l : List (Text × A)) (x y : Option ((Text × A) × List (Text × A)))
      → IsTaken l x
      → IsTaken l y
      → IsTaken l (if b then x else y)
  if-IsTaken true l x y h k = h
  if-IsTaken false l x y h k = k

  take_id-IsTaken : (id : Text) (l : List (Text × A)) → IsTaken l (take_id id l)
  unfolding take_id
  take_id-IsTaken id [] = tt
  take_id-IsTaken id ((candidate, a) ∷ rest) =
      if-IsTaken (text_eq candidate id) ((candidate, a) ∷ rest) _ _
        (Perm.refl ((candidate, a) ∷ rest))
        (kept_before-IsTaken (candidate, a) rest (take_id id rest) (take_id-IsTaken id rest))

  move-Perm :
      (ordered remaining : List (Text × A)) (o : Option ((Text × A) × List (Text × A)))
      → IsTaken remaining o
      → Perm (joined (move ordered remaining o)) (ordered ++ remaining)
  move-Perm ordered remaining none h = Perm.refl (ordered ++ remaining)
  move-Perm ordered remaining (some (found, others)) h =
      rw (append_assoc ordered (found ∷ []) others) (Perm.append_left ordered (Perm.symm h))

  order_ids-Perm :
      (ordered remaining : List (Text × A)) (ids : List Text)
      → Perm (joined (order_ids ordered remaining ids)) (ordered ++ remaining)
  unfolding order_ids
  order_ids-Perm ordered remaining [] = Perm.refl (ordered ++ remaining)
  order_ids-Perm ordered remaining (id ∷ ids) =
      let moved = move ordered remaining (take_id id remaining) in
      Perm.trans (order_ids-Perm moved.0 moved.1 ids)
        (move-Perm ordered remaining (take_id id remaining) (take_id-IsTaken id remaining))

-- The order of the selectors is a rearrangement of the visible ones: whatever ids the preferences
-- list, twice or unknown ones, each visible selector is shown once, and no other.
pub apply_selector_order-Perm :
    {A : Type 0} (layout : SelectorLayoutPreferences) (options : List (Text × A))
    → Perm (apply_selector_order layout options) (only_visible layout options)
unfolding apply_selector_order
apply_selector_order-Perm layout options =
    order_ids-Perm [] (only_visible layout options) (unwrap_or layout.order [])
