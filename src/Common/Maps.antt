-- ===== src/Common/Maps.antt =====
-- `BTreeMap<String, V>` and `HashMap<String, V>` as lists of entries: an insertion replaces the
-- value of a key that is there, and puts a new key where the order of the keys has it.
use mathlib.Core.Path.{◌≡◌, refl}
use mathlib.Core.Bool.{Bool, true, false}
use mathlib.Core.List.{List, [], ◌∷◌}
use mathlib.Core.Option.{Option, none, some}
use native.Mathlib.Omega.{arith}
use zed_codex_acp_cas.Common.Tests.{ltb, ◌==◌, if◌then◌else◌}
use zed_codex_acp_cas.Common.Text.{Text, text_eq, text_eq_iff, is_some}

-- The order of `str`: that of the code points, as UTF-8 keeps it.
abbrev pub text_ltb : Text → Text → Bool
text_ltb a [] = false
text_ltb [] (y ∷ ys) = true
text_ltb (x ∷ xs) (y ∷ ys) =
    let rest = text_ltb xs ys in if ltb x y then true else if x == y then rest else false

module _ {ℓ} {V : Type ℓ} where
  -- `get`.
  unfoldable pub get : Text → List (Text × V) → Option V
  get k [] = none
  get k ((j, v) ∷ m) = let rest = get k m in if text_eq j k then some v else rest

  -- `contains_key`.
  unfoldable pub contains_key : Text → List (Text × V) → Bool
  unfolding get
  contains_key k m = is_some (get k m)

  -- `insert`.
  unfoldable pub put : Text → V → List (Text × V) → List (Text × V)
  put k v [] = (k, v) ∷ []
  put k v ((j, w) ∷ m) =
      let rest = put k v m in
      if text_eq j k
      then (k, v) ∷ m
      else if text_ltb k j
      then (k, v) ∷ (j, w) ∷ m
      else (j, w) ∷ rest

  pub get-put :
      (k j : Text) (v : V) (m : List (Text × V))
      → get j (put k v m) ≡ (if text_eq k j then some v else get j m)
  unfolding get put
  get-put k j v [] = refl
  get-put k j v ((i, w) ∷ m) =
      ground (arith, get-put k j v m, text_eq_iff k j, text_eq_iff i k, text_eq_iff i j)
