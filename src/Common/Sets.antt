-- ===== src/Common/Sets.antt =====
-- `HashSet<String>` and `HashMap<String, V>` as lists; the order of the entries has no meaning.
use mathlib.Core.Path.{◌≡◌, refl}
use mathlib.Core.Bool.{Bool, false, ◌||◌}
use mathlib.Core.List.{List, [], ◌∷◌}
use native.Mathlib.Omega.{arith}
use zed_codex_acp_cas.Common.Tests.{if◌then◌else◌}
use zed_codex_acp_cas.Common.Text.{Text, text_eq, text_eq_iff}

unfoldable pub member : Text → List Text → Bool
member k [] = false
member k (x ∷ xs) = text_eq x k || member k xs

unfoldable pub insert : Text → List Text → List Text
unfolding member
insert k xs = if member k xs then xs else k ∷ xs

unfoldable pub remove : Text → List Text → List Text
remove k [] = []
remove k (x ∷ xs) = let rest = remove k xs in if text_eq x k then rest else x ∷ rest

pub member-insert :
    (k j : Text) (xs : List Text) → member j (insert k xs) ≡ (text_eq k j || member j xs)
unfolding member insert
member-insert k j [] = refl
member-insert k j (x ∷ xs) =
    ground (arith, text_eq_iff k j, text_eq_iff x k, text_eq_iff x j, member-insert k j xs)

pub member-remove :
    (k j : Text) (xs : List Text)
    → member j (remove k xs) ≡ (if text_eq k j then false else member j xs)
unfolding member remove
member-remove k j [] = ground arith
member-remove k j (x ∷ xs) =
    ground (arith, text_eq_iff k j, text_eq_iff x k, text_eq_iff x j, member-remove k j xs)
