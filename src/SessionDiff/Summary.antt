-- ===== src/SessionDiff/Summary.antt =====
-- What `/diff` shows of a file comes to what its changes are.
use zed_codex_acp_cas.Common.{
  ℕ, true, inl, inr, List, [], ◌∷◌, ◌++◌, Option, none, some, ◌≡◌, ap, ◌∙◌, arith, List-cases,
  cons-eq, Bool-cases,
}
use zed_codex_acp_cas.Common.Text.{Text, text_eq, text_eq_iff}
use zed_codex_acp_cas.Common.Maps.{get}
use zed_codex_acp_cas.TurnDiff.{TurnUnifiedDiffFile}
use zed_codex_acp_cas.SessionDiff.{AggregatedFile, matches_path_filter, merged, turn_loop}
use zed_codex_acp_cas.SessionDiff.Aggregate.{changes_of, all_changes, changing_turns, get-turn_loop}
use zed_codex_acp_cas.SessionDiff.Range.{
  last_new, last_deletes, added_sum, removed_sum, IsExtended, entry_loop-none,
}

module _ (path : Text) where
  first_of_turn :
      (files : List TurnUnifiedDiffFile) (file : TurnUnifiedDiffFile)
      (changes : List TurnUnifiedDiffFile)
      → changes_of path files ≡ file ∷ changes
      → file.path ≡ path
  unfolding changes_of
  first_of_turn [] file changes h = cc
  first_of_turn (f ∷ files) file changes h = elim (Bool-cases (text_eq f.path path)) [
    | inl y ↦
        let both : f ∷ changes_of path files ≡ file ∷ changes = rw y at h in
        rw (← (cons-eq both).0) ((text_eq_iff f.path path).0 y)
    | inr n ↦ first_of_turn files file changes (rw n at h)
  ]

  first_change :
      (turns : List (List TurnUnifiedDiffFile)) (file : TurnUnifiedDiffFile)
      (changes : List TurnUnifiedDiffFile)
      → all_changes path turns ≡ file ∷ changes
      → file.path ≡ path
  unfolding all_changes
  first_change [] file changes h = cc
  first_change (files ∷ turns) file changes h = elim (List-cases (changes_of path files)) [
    | inl e ↦ first_change turns file changes (rw e at h)
    | inr (f, fs, e) ↦
        let both : f ∷ (fs ++ all_changes path turns) ≡ file ∷ changes = rw e at h in
        rw (← (cons-eq both).0) (first_of_turn files f fs e)
  ]

-- What these changes of a path, over this number of turns, come to: the old text of the first and
-- the new text of the last, whether the last deletes, and the sums of the lines.
abbrev pub IsSummary :
    (Text → Text)
    → Text
    → TurnUnifiedDiffFile
    → List TurnUnifiedDiffFile
    → ℕ
    → AggregatedFile
    → Type 0
IsSummary resolve path first later turns after =
    (after.old_text ≡ first.old_text)
    × (after.new_text ≡ last_new first.new_text later)
    × (after.is_delete ≡ last_deletes first.is_delete later)
    × (after.added_lines ≡ added_sum (first ∷ later))
    × (after.removed_lines ≡ removed_sum (first ∷ later))
    × (after.touching_turns ≡ turns)
    × (after.display_path ≡ path)
    × (after.absolute_path ≡ resolve path)

extended-IsSummary :
    (resolve : Text → Text) (path : Text) (first : TurnUnifiedDiffFile)
    (later : List TurnUnifiedDiffFile) (turns : ℕ) (after : AggregatedFile)
    → first.path ≡ path
    → IsExtended (merged resolve first none) later turns after
    → IsSummary resolve path first later turns after
unfolding added_sum removed_sum
extended-IsSummary resolve path first later turns after e h = (
  h.0,
  h.1,
  h.2,
  omega (arith, h.3),
  omega (arith, h.4),
  omega (arith, h.5),
  h.6 ∙ e,
  h.7 ∙ ap resolve e,
)

-- `/diff` shows of each file what its changes come to: for a path that passes the filter and has a
-- change in the range, the entry of the map has this path and the absolute path made of it, the old
-- text of the first change, the new text of the last one and whether it deletes, the sums of the
-- lines that are counted as added and as removed in each change, and the number of turns that change
-- the file, each counted once.
pub get-turn_loop-IsSummary :
    (resolve : Text → Text) (file_name : Text → Option Text) (filter : List Text) (path : Text)
    (turns : List (List TurnUnifiedDiffFile)) (first : TurnUnifiedDiffFile)
    (later : List TurnUnifiedDiffFile)
    → matches_path_filter file_name path filter ≡ true
    → all_changes path turns ≡ first ∷ later
    → (after : AggregatedFile) × (get path (turn_loop resolve file_name filter [] turns)
        ≡ some after)
      × IsSummary resolve path first later (changing_turns path turns) after
unfolding get
get-turn_loop-IsSummary resolve file_name filter path turns first later passes h =
    let (after, run, extended) =
      entry_loop-none resolve file_name filter path turns first later h in
    let same = first_change path turns first later h in
    (
      after,
      get-turn_loop resolve file_name filter path passes [] turns ∙ run,
      extended-IsSummary resolve path first later (changing_turns path turns) after same extended,
    )
