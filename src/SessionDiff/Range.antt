-- ===== src/SessionDiff/Range.antt =====
-- The texts and numbers that `/diff` shows of a file over the range of turns.
use zed_codex_acp_cas.Common.{
  ℕ, ◌+◌, Bool, false, inl, inr, List, [], ◌∷◌, ◌++◌, Option, none, some, ◌≡◌, refl, sym, subst, ap,
  ◌∙◌, if◌then◌else◌, is_empty, arith, List-cases, cons-eq,
}
use zed_codex_acp_cas.Common.Text.{Text}
use zed_codex_acp_cas.TurnDiff.{TurnUnifiedDiffFile}
use zed_codex_acp_cas.SessionDiff.{AggregatedFile, count_diff_lines, merged, touched_once}
use zed_codex_acp_cas.SessionDiff.Aggregate.{
  changes_of, all_changes, changing_turns, once_unless, on_entry, merge_all, entry_round,
  entry_loop,
}

-- The last of the changes, or the text that there was before.
abbrev pub last_new : Text → List TurnUnifiedDiffFile → Text
last_new text [] = text
last_new text (file ∷ files) = last_new file.new_text files

abbrev pub last_deletes : Bool → List TurnUnifiedDiffFile → Bool
last_deletes is_delete [] = is_delete
last_deletes is_delete (file ∷ files) = last_deletes file.is_delete files

unfoldable pub added_sum : List TurnUnifiedDiffFile → ℕ
unfolding count_diff_lines
added_sum [] = 0
added_sum (file ∷ files) = (count_diff_lines file).0 + added_sum files

unfoldable pub removed_sum : List TurnUnifiedDiffFile → ℕ
unfolding count_diff_lines
removed_sum [] = 0
removed_sum (file ∷ files) = (count_diff_lines file).1 + removed_sum files

last_new-append :
    (text : Text) (a b : List TurnUnifiedDiffFile)
    → last_new text (a ++ b) ≡ last_new (last_new text a) b
last_new-append text [] b = refl
last_new-append text (file ∷ a) b = last_new-append file.new_text a b

last_deletes-append :
    (d : Bool) (a b : List TurnUnifiedDiffFile)
    → last_deletes d (a ++ b) ≡ last_deletes (last_deletes d a) b
last_deletes-append d [] b = refl
last_deletes-append d (file ∷ a) b = last_deletes-append file.is_delete a b

added_sum-append : (a b : List TurnUnifiedDiffFile) → added_sum (a ++ b) ≡ added_sum a + added_sum b
unfolding added_sum
added_sum-append [] b = omega arith
added_sum-append (file ∷ a) b = omega (arith, added_sum-append a b)

removed_sum-append :
    (a b : List TurnUnifiedDiffFile) → removed_sum (a ++ b) ≡ removed_sum a + removed_sum b
unfolding removed_sum
removed_sum-append [] b = omega arith
removed_sum-append (file ∷ a) b = omega (arith, removed_sum-append a b)

-- The entry is the one before with these changes and this number of turns put on top.
abbrev pub IsExtended : AggregatedFile → List TurnUnifiedDiffFile → ℕ → AggregatedFile → Type 0
IsExtended before changes turns after =
    (after.old_text ≡ before.old_text)
    × (after.new_text ≡ last_new before.new_text changes)
    × (after.is_delete ≡ last_deletes before.is_delete changes)
    × (after.added_lines ≡ before.added_lines + added_sum changes)
    × (after.removed_lines ≡ before.removed_lines + removed_sum changes)
    × (after.touching_turns ≡ before.touching_turns + turns)
    × (after.display_path ≡ before.display_path)
    × (after.absolute_path ≡ before.absolute_path)

IsExtended-append :
    (x y z : AggregatedFile) (a b : List TurnUnifiedDiffFile) (m n : ℕ)
    → IsExtended x a m y
    → IsExtended y b n z
    → IsExtended x (a ++ b) (m + n) z
IsExtended-append x y z a b m n h k = (
  k.0 ∙ h.0,
  k.1 ∙ (ap (λ t. last_new t b) h.1 ∙ sym (last_new-append x.new_text a b)),
  k.2 ∙ (ap (λ d. last_deletes d b) h.2 ∙ sym (last_deletes-append x.is_delete a b)),
  omega (arith, h.3, k.3, added_sum-append a b),
  omega (arith, h.4, k.4, removed_sum-append a b),
  omega (arith, h.5, k.5),
  k.6 ∙ h.6,
  k.7 ∙ h.7,
)

module _ (resolve : Text → Text) (file_name : Text → Option Text) (filter : List Text)
    (path : Text) where
  merge_all-IsExtended :
      (e : AggregatedFile) (changes : List TurnUnifiedDiffFile)
      → (after : AggregatedFile) × (merge_all resolve file_name filter path (some e) changes
          ≡ some after)
        × IsExtended e changes 0 after
  unfolding merge_all added_sum removed_sum
  merge_all-IsExtended e [] =
      (e, refl, (refl, refl, refl, omega arith, omega arith, omega arith, refl, refl))
  merge_all-IsExtended e (file ∷ changes) =
      let next = merged resolve file (some e) in
      let (after, run, h) = merge_all-IsExtended next changes in
      (
        after,
        run,
        (h.0, h.1, h.2, omega (arith, h.3), omega (arith, h.4), omega (arith, h.5), h.6, h.7),
      )

  round_some :
      (e : AggregatedFile) (changes : List TurnUnifiedDiffFile)
      → (after : AggregatedFile) × (once_unless
            (is_empty changes)
            (merge_all resolve file_name filter path (some e) changes)
          ≡ some after)
        × IsExtended e changes (if is_empty changes then 0 else 1) after
  unfolding merge_all added_sum removed_sum
  round_some e [] = (e, refl, (refl, refl, refl, omega arith, omega arith, omega arith, refl, refl))
  round_some e (file ∷ changes) =
      let (after, run, h) = merge_all-IsExtended e (file ∷ changes) in
      (
        touched_once after,
        ap (on_entry touched_once) run,
        (h.0, h.1, h.2, h.3, h.4, omega (arith, h.5), h.6, h.7),
      )

  changing_turns-cons :
      (files : List TurnUnifiedDiffFile) (turns : List (List TurnUnifiedDiffFile))
      → (if is_empty (changes_of path files) then 0 else 1) + changing_turns path turns
        ≡ changing_turns path (files ∷ turns)
  unfolding changing_turns
  changing_turns-cons files turns = ground arith

  entry_loop-some :
      (e : AggregatedFile) (turns : List (List TurnUnifiedDiffFile))
      → (after : AggregatedFile) × (entry_loop resolve file_name filter path (some e) turns
          ≡ some after)
        × IsExtended e (all_changes path turns) (changing_turns path turns) after
  unfolding entry_loop entry_round all_changes changing_turns added_sum removed_sum
  entry_loop-some e [] =
      (e, refl, (refl, refl, refl, omega arith, omega arith, omega arith, refl, refl))
  entry_loop-some e (files ∷ turns) =
      let (middle, round, h) = round_some e (changes_of path files) in
      let (after, run, k) = entry_loop-some middle turns in
      (
        after,
        ap (λ o. entry_loop resolve file_name filter path o turns) round ∙ run,
        subst (λ n. IsExtended e (all_changes path (files ∷ turns)) n after)
            (changing_turns-cons files turns)
            (IsExtended-append e middle after (changes_of path files) (all_changes path turns) _ _ h
              k),
      )

  round_none :
      (file : TurnUnifiedDiffFile) (changes : List TurnUnifiedDiffFile)
      → (after : AggregatedFile) × (once_unless false
            (merge_all resolve file_name filter path none (file ∷ changes))
          ≡ some after)
        × IsExtended (merged resolve file none) changes 1 after
  unfolding merge_all
  round_none file changes =
      let (after, run, h) = merge_all-IsExtended (merged resolve file none) changes in
      (
        touched_once after,
        ap (on_entry touched_once) run,
        (h.0, h.1, h.2, h.3, h.4, omega (arith, h.5), h.6, h.7),
      )

  -- The entry over the turns, given what the first turn changes.
  entry_loop-first :
      (files : List TurnUnifiedDiffFile) (turns : List (List TurnUnifiedDiffFile))
      (file : TurnUnifiedDiffFile) (changes : List TurnUnifiedDiffFile)
      → changes_of path files ≡ file ∷ changes
      → (after : AggregatedFile) × (entry_loop resolve file_name filter path none (files ∷ turns)
          ≡ some after)
        × IsExtended
            (merged resolve file none)
            (changes ++ all_changes path turns)
            (changing_turns path (files ∷ turns))
            after
  unfolding entry_loop entry_round changing_turns
  entry_loop-first files turns file changes e =
      let start = merged resolve file none in
      let (middle, round, h) = round_none file changes in
      let (after, run, k) = entry_loop-some middle turns in
      let all_of =
        IsExtended-append start middle after changes (all_changes path turns) 1
          (changing_turns path turns) h k in
      rw e (
        after,
        ap (λ o. entry_loop resolve file_name filter path o turns) round ∙ run,
        (
          all_of.0,
          all_of.1,
          all_of.2,
          all_of.3,
          all_of.4,
          omega (arith, all_of.5),
          all_of.6,
          all_of.7,
        ),
      )

  pub entry_loop-none :
      (turns : List (List TurnUnifiedDiffFile)) (file : TurnUnifiedDiffFile)
      (changes : List TurnUnifiedDiffFile)
      → all_changes path turns ≡ file ∷ changes
      → (after : AggregatedFile) × (entry_loop resolve file_name filter path none turns
          ≡ some after)
        × IsExtended (merged resolve file none) changes (changing_turns path turns) after
  unfolding entry_loop entry_round all_changes changing_turns merge_all
  entry_loop-none [] file changes h = cc
  entry_loop-none (files ∷ turns) file changes h = elim (List-cases (changes_of path files)) [
    | inl e ↦ let later = entry_loop-none turns file changes (rw e at h) in rw e later
    | inr (f, fs, e) ↦
        let both : f ∷ (fs ++ all_changes path turns) ≡ file ∷ changes = rw e at h in
        let first = entry_loop-first files turns f fs e in
        let parts = cons-eq both in rw (← parts.0, ← parts.1) first
  ]
