-- ===== src/Preferences/Layout.antt =====
-- src/thread/session/config/layout.rs: the order and the visibility of the selectors and of the
-- groups in them.
pub mod Order
use zed_codex_acp_cas.Common.{
  Bool, true, false, List, [], ◌∷◌, ◌++◌, Option, none, some, if◌then◌else◌, is_empty, map,
  unwrap_or, ◌>>=◌,
}
use zed_codex_acp_cas.Common.Text.{Text, codes, text_eq}
use zed_codex_acp_cas.Preferences.{non_empty_str}

pub record SelectorLayoutEntry : Type 0 where
  pub visible : Option Bool
  pub name : Option Text
  pub groups : Option (List Text)

pub record SelectorLayoutPreferences : Type 0 where
  pub order : Option (List Text)
  pub permissions : Option SelectorLayoutEntry
  pub model : Option SelectorLayoutEntry
  pub status : Option SelectorLayoutEntry

unfoldable pub entry : SelectorLayoutPreferences → Text → Option SelectorLayoutEntry
entry layout selector_id =
    if text_eq selector_id (codes "permissions")
    then layout.permissions
    else if text_eq selector_id (codes "model")
    then layout.model
    else if text_eq selector_id (codes "status")
    then layout.status
    else none

abbrev pub name_of : SelectorLayoutEntry → Option Text
name_of e = e.name

abbrev pub visible_of : SelectorLayoutEntry → Option Bool
visible_of e = e.visible

abbrev pub groups_of : SelectorLayoutEntry → Option (List Text)
groups_of e = e.groups

unfoldable pub selector_name : SelectorLayoutPreferences → Text → Text → Text
unfolding entry non_empty_str
selector_name layout selector_id default_name =
    unwrap_or (non_empty_str (entry layout selector_id >>= name_of)) default_name

unfoldable pub selector_visible : SelectorLayoutPreferences → Text → Bool
unfolding entry
selector_visible layout selector_id = unwrap_or (entry layout selector_id >>= visible_of) true

-- An id with what stands for it, a group or an option of a selector.
module _ {A : Type 0} where
  abbrev pub kept_before :
      Text × A → Option ((Text × A) × List (Text × A)) → Option ((Text × A) × List (Text × A))
  kept_before first none = none
  kept_before first (some (found, others)) = some (found, first ∷ others)

  -- `position` and `remove` of the first entry with an id: the entry, and the rest.
  unfoldable pub take_id : Text → List (Text × A) → Option ((Text × A) × List (Text × A))
  take_id id [] = none
  take_id id ((candidate, a) ∷ rest) =
      let later = take_id id rest in
      if text_eq candidate id then some ((candidate, a), rest) else kept_before (candidate, a) later

  abbrev pub move :
      List (Text × A)
      → List (Text × A)
      → Option ((Text × A) × List (Text × A))
      → List (Text × A) × List (Text × A)
  move ordered remaining none = (ordered, remaining)
  move ordered remaining (some (found, others)) = (ordered ++ found ∷ [], others)

  -- The loop over the ids of an order: the entries that were put in order, and those that remain.
  unfoldable pub order_ids :
      List (Text × A) → List (Text × A) → List Text → List (Text × A) × List (Text × A)
  unfolding take_id
  order_ids ordered remaining [] = (ordered, remaining)
  order_ids ordered remaining (id ∷ ids) =
      let moved = move ordered remaining (take_id id remaining) in order_ids moved.0 moved.1 ids

  unfoldable pub only_visible : SelectorLayoutPreferences → List (Text × A) → List (Text × A)
  unfolding selector_visible
  only_visible layout [] = []
  only_visible layout ((id, a) ∷ options) =
      let rest = only_visible layout options in
      if selector_visible layout id then (id, a) ∷ rest else rest

  abbrev pub joined : List (Text × A) × List (Text × A) → List (Text × A)
  joined (ordered, remaining) = ordered ++ remaining

  -- `apply_selector_order`, with the ids of the options kept beside them.
  unfoldable pub apply_selector_order :
      SelectorLayoutPreferences → List (Text × A) → List (Text × A)
  unfolding order_ids only_visible
  apply_selector_order layout options =
      joined (order_ids [] (only_visible layout options) (unwrap_or layout.order []))

  abbrev pub ordered_or_all : List (Text × A) × List (Text × A) → List (Text × A)
  ordered_or_all ([], remaining) = remaining
  ordered_or_all (g ∷ ordered, remaining) = g ∷ ordered

  abbrev pub order_groups : Option (List Text) → List (Text × A) → List (Text × A)
  order_groups none groups = groups
  order_groups (some group_order) groups = ordered_or_all (order_ids [] groups group_order)

  unfoldable pub apply_group_layout :
      SelectorLayoutPreferences → Text → List (Text × A) → List (Text × A)
  unfolding order_ids entry
  apply_group_layout layout selector_id groups =
      order_groups (entry layout selector_id >>= groups_of) groups
