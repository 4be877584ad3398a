-- ===== src/UnifiedDiff/Applies.antt =====
-- What it means that hunks apply to a text: the lines of the text split into stretches that are
-- copied and stretches that the hunks replace.
pub mod Lines
pub mod Refinement
use zed_codex_acp_cas.Common.{
  ℕ, ◌+◌, ◌-◌, Bool, true, false, List, [], ◌∷◌, ◌++◌, ◌≡◌, ◌==◌, if◌then◌else◌, length,
}
use zed_codex_acp_cas.Common.Text.{Text, concat}
use zed_codex_acp_cas.UnifiedDiff.{DiffLine, Hunk, is_kind}

-- The lines before the change: the context and what is deleted.
abbrev pub old_side : List DiffLine → List Text
old_side [] = []
old_side (l ∷ ls) = if l.kind == b'+' then old_side ls else l.text ∷ old_side ls

-- The lines after the change: the context and what is added.
abbrev pub new_side : List DiffLine → List Text
new_side [] = []
new_side (l ∷ ls) = if l.kind == b'-' then new_side ls else l.text ∷ new_side ls

-- Each line is context, added or deleted.
abbrev pub AreKinds : List DiffLine → Type 0
AreKinds [] = Unit
AreKinds (l ∷ ls) = (is_kind l.kind ≡ true) × AreKinds ls

abbrev pub AreHunks : List Hunk → Type 0
AreHunks [] = Unit
AreHunks (h ∷ hs) = AreKinds h.lines × AreHunks hs

-- From the line `index` on, where the text has the lines `remaining`, the hunks make `out`: the
-- first one copies the lines up to its start, finds its old side there and puts its new side in
-- place of it, and the others go on behind that.
abbrev pub Applies : ℕ → List Text → List Hunk → Text → Type 0
Applies index remaining [] out = out ≡ concat remaining
Applies index remaining (h ∷ hs) out =
    (copied : List Text) × (after : List Text) × (later : Text) × (index + length copied
      ≡ h.old_start - 1)
    × (remaining ≡ copied ++ (old_side h.lines ++ after))
    × Applies (h.old_start - 1 + length (old_side h.lines)) after hs later
    × (out ≡ concat copied ++ (concat (new_side h.lines) ++ later))
