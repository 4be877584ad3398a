-- ===== src/UnifiedDiff/Applies/Refinement.antt =====
-- `apply_unified_diff_to_text` computes exactly what the description `Applies` allows.
use native.Mathlib.Nat.{zero-add, suc-add}
use mathlib.Core.Path.{subst₂}
use zed_codex_acp_cas.Common.{
  some-eq, ℕ, zero, suc, ◌+◌, ◌-◌, ◌≤◌, List, [], ◌∷◌, ◌++◌, Option, some, ◌>>=◌, >>=-eq-some, ◌≡◌,
  refl, sym, ap, ◌∙◌, arith, length, take, drop, append_assoc, take-append-drop, take-append-length,
  drop-append-length, length-take, length-drop, length-append, subst, ap₂, ◌↔◌,
}
use zed_codex_acp_cas.Common.Text.{Text, split_inclusive, concat}
use zed_codex_acp_cas.UnifiedDiff.{
  Hunk, Applying, apply_lines, apply_hunk, apply_hunks, parse_unified_diff_hunks,
  apply_unified_diff_to_text,
}
use zed_codex_acp_cas.UnifiedDiff.Applies.{old_side, new_side, AreKinds, AreHunks, Applies}
use zed_codex_acp_cas.UnifiedDiff.Parsing.{parse-AreHunks}
use zed_codex_acp_cas.UnifiedDiff.Applies.Lines.{moved, apply_lines_sound, apply_lines_complete}

drop-nil {ℓ} : {A : Type ℓ} (i : ℕ) → drop {A = A} i [] ≡ []
drop-nil zero = refl
drop-nil (suc i) = refl

drop-drop {ℓ} : {A : Type ℓ} (i j : ℕ) (xs : List A) → drop j (drop i xs) ≡ drop (i + j) xs
drop-drop zero j xs = rw (zero-add j)
drop-drop (suc i) j [] = rw (drop-nil j, drop-nil (suc i + j))
drop-drop (suc i) j (x ∷ xs) = rw (suc-add i j) (drop-drop i j xs)

-- The state at the start of the loop over the lines of a hunk.
abbrev start : List Text → Applying → Hunk → Applying
start ls a h = record {
  old_index = h.old_start - 1;
  new_text = a.new_text ++ concat (take (h.old_start - 1 - a.old_index) (drop a.old_index ls));
}

apply_hunk_sound :
    (ls : List Text) (a : Applying) (h : Hunk) {b : Applying}
    → apply_hunk ls a h ≡ some b
    → (a.old_index ≤ h.old_start - 1)
      × (h.old_start - 1 ≤ length ls)
      × (apply_lines ls (start ls a h) h.lines ≡ some b)
unfolding apply_hunk
apply_hunk_sound ls a h e = ground arith

apply_hunk-eq :
    (ls : List Text) (a : Applying) (h : Hunk)
    → a.old_index ≤ h.old_start - 1
    → h.old_start - 1 ≤ length ls
    → apply_hunk ls a h ≡ apply_lines ls (start ls a h) h.lines
unfolding apply_hunk
apply_hunk-eq ls a h p q = ground arith

-- The lines that one hunk copies.
abbrev copied : List Text → Applying → Hunk → List Text
copied ls a h = take (h.old_start - 1 - a.old_index) (drop a.old_index ls)

-- One hunk that was applied, in the terms of `Applies`.
record Spliced (ls : List Text) (a : Applying) (h : Hunk) (b : Applying) : Type 0 where
  at : a.old_index + length (copied ls a h) ≡ h.old_start - 1
  split : drop a.old_index ls ≡ copied ls a h ++ (old_side h.lines ++ drop b.old_index ls)
  next : b.old_index ≡ h.old_start - 1 + length (old_side h.lines)
  text : b.new_text ≡ (a.new_text ++ concat (copied ls a h)) ++ concat (new_side h.lines)
  within : b.old_index ≤ length ls

apply_hunk-Spliced :
    (ls : List Text) (a : Applying) (h : Hunk) {b : Applying}
    → apply_hunk ls a h ≡ some b
    → Spliced ls a h b
apply_hunk-Spliced ls a h {b} e =
    let (above, below, body) = apply_hunk_sound ls a h e in
    let (em, found) = apply_lines_sound ls h.lines (start ls a h) body in
    let gap = h.old_start - 1 - a.old_index in
    let here : a.old_index + gap ≡ h.old_start - 1 = omega arith in
    let next = ap (λ (c : Applying). c.old_index) em in
    let lengths = ap (length {0}) found ∙ length-append (old_side h.lines) (drop b.old_index ls) in
    record {
      at = omega (arith, length-take gap (drop a.old_index ls), length-drop a.old_index ls);
      split =
          sym (take-append-drop gap (drop a.old_index ls))
          ∙ ap (◌++◌ (copied ls a h))
              (drop-drop a.old_index gap ls ∙ ap (λ (i : ℕ). drop i ls) here ∙ found);
      next = next;
      text = ap (λ (c : Applying). c.new_text) em;
      within =
          omega
            (arith, lengths, next, length-drop (h.old_start - 1) ls, length-drop b.old_index ls);
    }

-- What the loop over the hunks returns, with the lines that are left, is what `Applies` describes.
apply_hunks_sound :
    (ls : List Text) (hs : List Hunk) (a : Applying) {b : Applying}
    → a.old_index ≤ length ls
    → apply_hunks ls a hs ≡ some b
    → (later : Text) × Applies a.old_index (drop a.old_index ls) hs later
      × (b.new_text ++ concat (drop b.old_index ls) ≡ a.new_text ++ later)
      × (b.old_index ≤ length ls)
unfolding apply_hunks
apply_hunks_sound ls [] a {b} le h =
    let e : a ≡ b = cc in
    (
      concat (drop a.old_index ls),
      refl,
      ap (λ (c : Applying). c.new_text ++ concat (drop c.old_index ls)) (sym e),
      rw (← e) le,
    )
apply_hunks_sound ls (h ∷ hs) a {b} le e =
    let (m, first, others) = >>=-eq-some (apply_hunk ls a h) (λ c. apply_hunks ls c hs) e in
    let one = apply_hunk-Spliced ls a h first in
    let (later, applied, text, within) = apply_hunks_sound ls hs m one.within others in
    (
      concat (copied ls a h) ++ (concat (new_side h.lines) ++ later),
      (
        copied ls a h,
        drop m.old_index ls,
        later,
        one.at,
        one.split,
        subst (λ i. Applies i (drop m.old_index ls) hs later) one.next applied,
        refl,
      ),
      text ∙ ap (λ (t : Text). t ++ later) one.text ∙ simp append_assoc,
      within,
    )

-- One hunk that `Applies` describes is applied.
apply_hunk_complete :
    (ls cp after : List Text) (a : Applying) (h : Hunk)
    → AreKinds h.lines
    → a.old_index ≤ length ls
    → a.old_index + length cp ≡ h.old_start - 1
    → drop a.old_index ls ≡ cp ++ (old_side h.lines ++ after)
    → (b : Applying) × (apply_hunk ls a h ≡ some b)
      × (b.old_index ≡ h.old_start - 1 + length (old_side h.lines))
      × (b.new_text ≡ (a.new_text ++ concat cp) ++ concat (new_side h.lines))
      × (drop b.old_index ls ≡ after)
apply_hunk_complete ls cp after a h k le there split =
    let i = a.old_index in
    let t = h.old_start - 1 in
    let lengths = ap (length {0}) split ∙ length-append cp (old_side h.lines ++ after) in
    let below : t ≤ length ls = omega (arith, lengths, length-drop i ls) in
    let gap : t - i ≡ length cp = omega arith in
    let same : copied ls a h ≡ cp =
      ap₂ take gap split ∙ take-append-length cp (old_side h.lines ++ after) in
    let found : drop t ls ≡ old_side h.lines ++ after =
      ap (λ (j : ℕ). drop j ls) (sym there)
      ∙ sym (drop-drop i (length cp) ls)
      ∙ ap (drop (length cp)) split
      ∙ drop-append-length cp (old_side h.lines ++ after) in
    let (run, end) = apply_lines_complete ls after h.lines (start ls a h) k found in
    (
      moved (start ls a h) h.lines,
      apply_hunk-eq ls a h (omega arith) below ∙ run,
      refl,
      ap (λ (c : List Text). (a.new_text ++ concat c) ++ concat (new_side h.lines)) same,
      end,
    )

apply_hunks_complete :
    (ls : List Text) (hs : List Hunk) (a : Applying) (out : Text)
    → AreHunks hs
    → a.old_index ≤ length ls
    → Applies a.old_index (drop a.old_index ls) hs out
    → (b : Applying) × (apply_hunks ls a hs ≡ some b)
      × (b.new_text ++ concat (drop b.old_index ls) ≡ a.new_text ++ out)
unfolding apply_hunks
apply_hunks_complete ls [] a out k le e = (a, refl, ap (◌++◌ a.new_text) (sym e))
apply_hunks_complete ls (h ∷ hs) a out k le (cp, after, later, there, split, applied, e) =
    let (m, run, next, text, end) = apply_hunk_complete ls cp after a h k.0 le there split in
    let lengths = ap (length {0}) split ∙ length-append cp (old_side h.lines ++ after) in
    let within : m.old_index ≤ length ls =
      omega (
        arith,
        lengths,
        next,
        length-append (old_side h.lines) after,
        length-drop a.old_index ls,
      ) in
    let applied' = subst₂ (λ i r. Applies i r hs later) (sym next) (sym end) applied in
    let (b, others, final) = apply_hunks_complete ls hs m later k.1 within applied' in
    (b, rw run others, final ∙ ap (λ (x : Text). x ++ later) text ∙ rw e (simp append_assoc))

-- The application of a diff succeeds with a text exactly when the diff has hunks and these cut the
-- lines of the old text as `Applies` describes: each hunk's context and deleted lines stand where
-- its header puts them, in order and without overlap, and the new text is the old one with these
-- stretches replaced by the context and the added lines.
pub apply-iff-Applies :
    (old_text unified_diff out : Text)
    → (apply_unified_diff_to_text old_text unified_diff ≡ some out) ↔ (
        (hunks : List Hunk) × (parse_unified_diff_hunks unified_diff ≡ some hunks)
        × Applies 0 (split_inclusive old_text) hunks out)
unfolding apply_unified_diff_to_text
apply-iff-Applies old_text unified_diff out = (sound, complete)
  where
    ls : List Text
    ls = split_inclusive old_text

    begin : Applying
    begin = record { old_index = 0; new_text = [] }

    rest : Applying → Option Text
    rest a = some (a.new_text ++ concat (drop a.old_index ls))

    finish : List Hunk → Option Text
    finish hunks = apply_hunks ls begin hunks >>= rest

    sound :
        apply_unified_diff_to_text old_text unified_diff ≡ some out
        → (hunks : List Hunk) × (parse_unified_diff_hunks unified_diff ≡ some hunks)
          × Applies 0 (split_inclusive old_text) hunks out
    sound h =
        let (hunks, parsed, run) =
          >>=-eq-some (parse_unified_diff_hunks unified_diff) (λ hs. finish hs) h in
        let (b, applied, e) = >>=-eq-some (apply_hunks ls begin hunks) (λ a. rest a) run in
        let (later, described, text, within) =
          apply_hunks_sound ls hunks begin (omega arith) applied in
        (hunks, parsed, subst (Applies 0 ls hunks) (sym text ∙ some-eq e) described)

    complete :
        (hunks : List Hunk) × (parse_unified_diff_hunks unified_diff ≡ some hunks)
          × Applies 0 (split_inclusive old_text) hunks out
        → apply_unified_diff_to_text old_text unified_diff ≡ some out
    complete (hunks, parsed, applied) =
        let (b, run, e) =
          apply_hunks_complete ls hunks begin out (parse-AreHunks unified_diff parsed) (omega arith)
            applied in
        rw (parsed, run) (ap some e)
