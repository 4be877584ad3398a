-- ===== src/Common/Words.antt =====
-- More methods of Rust's `str`: joining, words, replacement and the ends of a text.
pub mod Joining
use Prim.Native.Nat.{ℕ, zero, suc, ◌-◌}
use mathlib.Core.Bool.{Bool, true, false}
use mathlib.Core.List.{List, [], ◌∷◌, ◌++◌}
use mathlib.Core.Option.{Option, none, some}
use zed_codex_acp_cas.Common.Tests.{◌==◌, if◌then◌else◌}
use zed_codex_acp_cas.Common.Lists.{length}
use zed_codex_acp_cas.Common.Text.{
  Text, text_eq, is_whitespace, starts_with, strip_prefix, trim_start_matches, trim_end_matches,
}

-- `join`.
unfoldable pub join : Text → List Text → Text
join sep [] = []
join sep (t ∷ []) = t
join sep (t ∷ u ∷ ts) = t ++ (sep ++ join sep (u ∷ ts))

-- `split_whitespace`: the words; `word` is the one that is being read.
unfoldable pub words_from : Text → Text → List Text
words_from [] [] = []
words_from (w ∷ ws) [] = (w ∷ ws) ∷ []
words_from [] (c ∷ cs) =
    let gap = words_from [] cs in
    let begun = words_from (c ∷ []) cs in if is_whitespace c then gap else begun
words_from (w ∷ ws) (c ∷ cs) =
    let gap = words_from [] cs in
    let longer = words_from ((w ∷ ws) ++ c ∷ []) cs in
    if is_whitespace c then (w ∷ ws) ∷ gap else longer

unfoldable pub split_whitespace : Text → List Text
unfolding words_from
split_whitespace s = words_from [] s

-- `replace` of a text that is not empty; `skip` counts what is left of an occurrence.
unfoldable pub replace_from : ℕ → Text → Text → Text → Text
unfolding starts_with
replace_from skip p r [] = []
replace_from (suc skip) p r (c ∷ cs) = replace_from skip p r cs
replace_from zero p r (c ∷ cs) =
    let inside = replace_from (length p - 1) p r cs in
    let outside = replace_from zero p r cs in
    if starts_with p (c ∷ cs) then r ++ inside else c ∷ outside

unfoldable pub replace : Text → Text → Text → Text
unfolding replace_from
replace p r s = replace_from zero p r s

-- `ends_with`.
unfoldable pub ends_with : Text → Text → Bool
ends_with p [] = text_eq p []
ends_with p (c ∷ cs) = let rest = ends_with p cs in if text_eq p (c ∷ cs) then true else rest

-- `trim_matches` of a test on characters.
unfoldable pub trim_matches : (ℕ → Bool) → Text → Text
unfolding trim_start_matches trim_end_matches
trim_matches p s = trim_end_matches p (trim_start_matches p s)
