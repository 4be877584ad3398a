-- ===== src/UnifiedDiff/Sides.antt =====
-- The two texts of `unified_diff_to_old_new` are the sides of the hunks, and the diff leads from
-- the one to the other.
use zed_codex_acp_cas.Common.{
  ◌≤◌, Bool, true, false, not, ◌&&◌, List, [], ◌∷◌, ◌++◌, none, some, ◌≡◌, refl, sym, ap, ap₂, ◌∙◌,
  arith, ◌==◌, if◌then◌else◌, is_empty, append-nil, append_assoc, ◌⊎◌, inl, inr,
}
use zed_codex_acp_cas.Common.Text.{Text, split_inclusive, concat}
use zed_codex_acp_cas.UnifiedDiff.{
  DiffLine, Hunk, is_kind, push_sides, sides_of_lines, parse_unified_diff_hunks,
  unified_diff_to_old_new, apply_unified_diff_to_text,
}
use zed_codex_acp_cas.UnifiedDiff.Applies.{old_side, new_side, AreKinds}
use zed_codex_acp_cas.UnifiedDiff.Applies.Refinement.{apply-iff-Applies}
use zed_codex_acp_cas.UnifiedDiff.Parsing.{parse-AreHunks}

-- A newline stands at the end of the text, and nowhere else.
abbrev pub is_line : Text → Bool
is_line [] = false
is_line (c ∷ []) = c == b'\n'
is_line (c ∷ d ∷ cs) = not (c == b'\n') && is_line (d ∷ cs)

-- A text that is not empty and has no newline.
abbrev pub is_last_line : Text → Bool
is_last_line [] = false
is_last_line (c ∷ []) = not (c == b'\n')
is_last_line (c ∷ d ∷ cs) = not (c == b'\n') && is_last_line (d ∷ cs)

-- Lines as `split_inclusive` cuts them: only the last one may lack its newline.
abbrev pub AreLines : List Text → Type 0
AreLines [] = Unit
AreLines (t ∷ []) = (is_line t ≡ true) ⊎ (is_last_line t ≡ true)
AreLines (t ∷ u ∷ ts) = (is_line t ≡ true) × AreLines (u ∷ ts)

split-line :
    (t rest : Text) → is_line t ≡ true → split_inclusive (t ++ rest) ≡ t ∷ split_inclusive rest
unfolding split_inclusive
split-line [] rest h = cc
split-line (c ∷ []) rest h = ground arith
split-line (c ∷ d ∷ cs) rest h = ground (arith, split-line (d ∷ cs) rest)

split-last_line : (t : Text) → is_last_line t ≡ true → split_inclusive t ≡ t ∷ []
unfolding split_inclusive
split-last_line [] h = cc
split-last_line (c ∷ []) h = ground arith
split-last_line (c ∷ d ∷ cs) h = ground (arith, split-last_line (d ∷ cs))

split_inclusive-concat : (ts : List Text) → AreLines ts → split_inclusive (concat ts) ≡ ts
split_inclusive-concat [] h = unfold split_inclusive in refl
split_inclusive-concat (t ∷ []) h = elim h [
  | inl whole ↦ split-line t [] whole ∙ ap (◌∷◌ t) (unfold split_inclusive in refl)
  | inr open_end ↦ rw (append-nil t) (split-last_line t open_end)
]
split_inclusive-concat (t ∷ u ∷ ts) h =
    split-line t (concat (u ∷ ts)) h.0 ∙ ap (◌∷◌ t) (split_inclusive-concat (u ∷ ts) h.1)

-- The loops of `unified_diff_to_old_new` put the sides behind what they have.
push_sides_lem :
    (texts : Text × Text) (l : DiffLine)
    → is_kind l.kind ≡ true
    → push_sides texts l
      ≡ (texts.0 ++ concat (old_side (l ∷ [])), texts.1 ++ concat (new_side (l ∷ [])))
push_sides_lem (old, new) l k = ground (arith, append-nil old, append-nil new, append-nil l.text)

sides-cons :
    (l : DiffLine) (ls : List DiffLine)
    → (concat (old_side (l ∷ ls)) ≡ concat (old_side (l ∷ [])) ++ concat (old_side ls))
      × (concat (new_side (l ∷ ls)) ≡ concat (new_side (l ∷ [])) ++ concat (new_side ls))
sides-cons l ls = ground (arith, append-nil l.text)

sides_of_lines_lem :
    (texts : Text × Text) (ls : List DiffLine)
    → AreKinds ls
    → sides_of_lines texts ls ≡ (texts.0 ++ concat (old_side ls), texts.1 ++ concat (new_side ls))
sides_of_lines_lem (old, new) [] k =
    ap₂ (λ (a b : Text). (a, b)) (sym (append-nil old)) (sym (append-nil new))
sides_of_lines_lem (old, new) (l ∷ ls) k =
    let (o, n) = sides-cons l ls in
    ap (λ (t : Text × Text). sides_of_lines t ls) (push_sides_lem (old, new) l k.0)
    ∙ sides_of_lines_lem (old ++ concat (old_side (l ∷ [])), new ++ concat (new_side (l ∷ []))) ls
        k.1
    ∙ ap₂ (λ (a b : Text). (a, b)) (append_assoc old _ _ ∙ ap (◌++◌ old) (sym o))
        (append_assoc new _ _ ∙ ap (◌++◌ new) (sym n))

some-nonempty :
    (t : Text × Text) {u : Text × Text}
    → (if is_empty t.0 && is_empty t.1 then none else some t) ≡ some u
    → t ≡ u
some-nonempty t h = ground arith

-- Of a diff with one hunk that starts at the first line and whose context and deleted lines are
-- whole lines (only the last may lack its newline), `unified_diff_to_old_new` gives the text before
-- and the text after the change, and applying the diff to the first gives the second.
pub old_new-apply :
    (unified_diff old new : Text) (h : Hunk)
    → parse_unified_diff_hunks unified_diff ≡ some (h ∷ [])
    → h.old_start ≤ 1
    → AreLines (old_side h.lines)
    → unified_diff_to_old_new unified_diff ≡ some (old, new)
    → apply_unified_diff_to_text old unified_diff ≡ some new
unfolding unified_diff_to_old_new
old_new-apply unified_diff old new h parsed first whole e =
    let kinds = (parse-AreHunks unified_diff parsed).0 in
    let sides : sides_of_lines ([], []) h.lines ≡ (old, new) = some-nonempty _ (rw parsed at e) in
    let both = sym (sides_of_lines_lem ([], []) h.lines kinds) ∙ sides in
    let is_old = ap (λ (t : Text × Text). t.0) both in
    let is_new = ap (λ (t : Text × Text). t.1) both in
    let cut = ap split_inclusive (sym is_old) ∙ split_inclusive-concat (old_side h.lines) whole in
    (apply-iff-Applies old unified_diff new).1 (
      h ∷ [],
      parsed,
      (
        [],
        [],
        [],
        omega arith,
        cut ∙ sym (append-nil (old_side h.lines)),
        refl,
        sym is_new ∙ sym (append-nil (concat (new_side h.lines))),
      ),
    )
