-- ===== src/UnifiedDiff/Applies/Lines.antt =====
-- The loop of `apply_unified_diff_to_text` over the lines of one hunk.
use zed_codex_acp_cas.Common.{
  ℕ, zero, suc, ◌+◌, true, List, [], ◌∷◌, ◌++◌, some, >>=-eq-some, ◌≡◌, refl, sym, ap, ◌∙◌, arith,
  length, get_elem?, drop, append-nil, append_assoc, Option-cases, inl, inr,
}
use native.Mathlib.Nat.{add-zero}
use native.Mathlib.Numerals.{add-one}
use zed_codex_acp_cas.Common.Text.{Text, text_eq, text_eq_iff, concat}
use zed_codex_acp_cas.UnifiedDiff.{DiffLine, Applying, is_kind, apply_line, apply_lines}
use zed_codex_acp_cas.UnifiedDiff.Applies.{old_side, new_side, AreKinds}

pub concat-append : (a b : List Text) → concat (a ++ b) ≡ concat a ++ concat b
concat-append [] b = refl
concat-append (x ∷ a) b = rw (concat-append a b) (sym (append_assoc x (concat a) (concat b)))

drop-get {ℓ} :
    {A : Type ℓ} (i : ℕ) (ls : List A) {x : A}
    → get_elem? ls i ≡ some x
    → drop i ls ≡ x ∷ drop (i + 1) ls
drop-get i [] h = absurd (cc)
drop-get zero (y ∷ ls) h = cc
drop-get (suc i) (y ∷ ls) h = rw (add-one (suc i)) (rw (add-one i) at (drop-get i ls h))

get-drop {ℓ} :
    {A : Type ℓ} (i : ℕ) (ls r : List A) {x : A}
    → drop i ls ≡ x ∷ r
    → (get_elem? ls i ≡ some x) × (drop (i + 1) ls ≡ r)
get-drop zero [] r h = absurd (cc)
get-drop (suc i) [] r h = absurd (cc)
get-drop zero (y ∷ ls) r h = (cc, cc)
get-drop (suc i) (y ∷ ls) r h = rw (add-one (suc i)) (rw (add-one i) at (get-drop i ls r h))

-- The state behind lines that were applied.
abbrev pub moved : Applying → List DiffLine → Applying
moved a ds = record {
  old_index = a.old_index + length (old_side ds);
  new_text = a.new_text ++ concat (new_side ds);
}

text_eq_refl : (t : Text) → text_eq t t ≡ true
text_eq_refl t = (text_eq_iff t t).1 refl

-- One line that is applied was found, and moves on by what it holds.
apply_line_sound :
    (ls : List Text) (a : Applying) (d : DiffLine) {b : Applying}
    → apply_line ls a d ≡ some b
    → (b ≡ moved a (d ∷ [])) × (drop a.old_index ls ≡ old_side (d ∷ []) ++ drop b.old_index ls)
unfolding apply_line
apply_line_sound ls a d h = elim (Option-cases (get_elem? ls a.old_index)) [
  | inl e ↦ ground (arith, append-nil a.new_text, append-nil d.text)
  | inr (x, e) ↦ ground (
    arith,
    e,
    drop-get a.old_index ls e,
    text_eq_iff x d.text,
    append-nil a.new_text,
    append-nil d.text,
  )
]

apply_line_complete :
    (ls rest : List Text) (a : Applying) (d : DiffLine)
    → is_kind d.kind ≡ true
    → drop a.old_index ls ≡ old_side (d ∷ []) ++ rest
    → (apply_line ls a d ≡ some (moved a (d ∷ []))) × (drop (moved a (d ∷ [])).old_index ls ≡ rest)
unfolding apply_line
apply_line_complete ls rest a d k h = ground (
  arith,
  get-drop a.old_index ls rest {x = d.text},
  text_eq_refl d.text,
  append-nil a.new_text,
  append-nil d.text,
  add-zero a.old_index,
)

moved-nil : (a : Applying) → moved a [] ≡ a
moved-nil a = ground (arith, append-nil a.new_text)

moved-cons :
    (a : Applying) (d : DiffLine) (ds : List DiffLine)
    → moved (moved a (d ∷ [])) ds ≡ moved a (d ∷ ds)
moved-cons a d ds = ground (
  arith,
  append-nil d.text,
  append-nil a.new_text,
  append_assoc a.new_text d.text (concat (new_side ds)),
)

old_side-cons :
    (d : DiffLine) (ds : List DiffLine) → old_side (d ∷ ds) ≡ old_side (d ∷ []) ++ old_side ds
old_side-cons d ds = ground arith

pub apply_lines_sound :
    (ls : List Text) (ds : List DiffLine) (a : Applying) {b : Applying}
    → apply_lines ls a ds ≡ some b
    → (b ≡ moved a ds) × (drop a.old_index ls ≡ old_side ds ++ drop b.old_index ls)
unfolding apply_lines
apply_lines_sound ls [] a {b} h =
    let e : a ≡ b = cc in (sym e ∙ sym (moved-nil a), ap (λ (c : Applying). drop c.old_index ls) e)
apply_lines_sound ls (d ∷ ds) a {b} h =
    let (m, first, others) = >>=-eq-some (apply_line ls a d) (λ c. apply_lines ls c ds) h in
    let (em, found) = apply_line_sound ls a d first in
    let (eb, later) = apply_lines_sound ls ds m others in
    (
      eb ∙ ap (λ (c : Applying). moved c ds) em ∙ moved-cons a d ds,
      found
          ∙ ap (λ (t : List Text). old_side (d ∷ []) ++ t) later
          ∙ sym (append_assoc (old_side (d ∷ [])) (old_side ds) (drop b.old_index ls))
          ∙ ap (λ (t : List Text). t ++ drop b.old_index ls) (sym (old_side-cons d ds)),
    )

pub apply_lines_complete :
    (ls rest : List Text) (ds : List DiffLine) (a : Applying)
    → AreKinds ds
    → drop a.old_index ls ≡ old_side ds ++ rest
    → (apply_lines ls a ds ≡ some (moved a ds)) × (drop (moved a ds).old_index ls ≡ rest)
unfolding apply_lines
apply_lines_complete ls rest [] a k h =
    (ap some (sym (moved-nil a)), ap (λ (c : Applying). drop c.old_index ls) (moved-nil a) ∙ h)
apply_lines_complete ls rest (d ∷ ds) a k h =
    let split : drop a.old_index ls ≡ old_side (d ∷ []) ++ (old_side ds ++ rest) =
      h
      ∙ ap (λ (t : List Text). t ++ rest) (old_side-cons d ds)
      ∙ append_assoc (old_side (d ∷ [])) (old_side ds) rest in
    let (first, there) = apply_line_complete ls (old_side ds ++ rest) a d k.0 split in
    let (others, end) = apply_lines_complete ls rest ds (moved a (d ∷ [])) k.1 there in
    let one = moved-cons a d ds in
    (rw first (others ∙ ap some one), ap (λ (c : Applying). drop c.old_index ls) (sym one) ∙ end)
