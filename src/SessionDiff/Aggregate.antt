-- ===== src/SessionDiff/Aggregate.antt =====
-- What `/diff` shows of one file, in terms of its changes alone.
use zed_codex_acp_cas.Common.{
  ℕ, ◌+◌, Bool, true, false, not, ◌||◌, inl, inr, List, [], ◌∷◌, ◌++◌, Option, none, some, ◌≡◌,
  refl, ap, ◌∙◌, if◌then◌else◌, is_empty, arith, Bool-cases,
}
use zed_codex_acp_cas.Common.Text.{Text, text_eq, text_eq_iff}
use zed_codex_acp_cas.Common.Sets.{member, insert, member-insert}
use zed_codex_acp_cas.Common.Maps.{get, put, get-put}
use zed_codex_acp_cas.TurnDiff.{TurnUnifiedDiffFile}
use zed_codex_acp_cas.SessionDiff.{
  AggregatedFile, matches_path_filter, merged, Files, file_loop, touched_once, touch_entry,
  touch_loop, turn_round, turn_loop,
}

-- The changes of a path, among the files of a turn.
unfoldable pub changes_of : Text → List TurnUnifiedDiffFile → List TurnUnifiedDiffFile
changes_of path [] = []
changes_of path (file ∷ files) =
    let rest = changes_of path files in if text_eq file.path path then file ∷ rest else rest

-- The changes of a path over the turns, and the number of turns that have one.
unfoldable pub all_changes : Text → List (List TurnUnifiedDiffFile) → List TurnUnifiedDiffFile
unfolding changes_of
all_changes path [] = []
all_changes path (files ∷ turns) = changes_of path files ++ all_changes path turns

unfoldable pub changing_turns : Text → List (List TurnUnifiedDiffFile) → ℕ
unfolding changes_of
changing_turns path [] = 0
changing_turns path (files ∷ turns) =
    let rest = changing_turns path turns in
    if is_empty (changes_of path files) then rest else rest + 1

abbrev AreDistinct : List Text → Type 0
AreDistinct [] = Unit
AreDistinct (x ∷ xs) = (member x xs ≡ false) × AreDistinct xs

insert-AreDistinct : (k : Text) (xs : List Text) → AreDistinct xs → AreDistinct (insert k xs)
unfolding insert
insert-AreDistinct k xs h = elim (Bool-cases (member k xs)) [ inl y ↦ rw y h | inr n ↦ rw n (n, h) ]

-- A map on an entry that may be missing.
abbrev pub on_entry :
    (AggregatedFile → AggregatedFile) → Option AggregatedFile → Option AggregatedFile
on_entry f none = none
on_entry f (some e) = some (f e)

abbrev pub once_unless : Bool → Option AggregatedFile → Option AggregatedFile
once_unless true entry = entry
once_unless false entry = on_entry touched_once entry

module _ (path : Text) where
  get-touch_entry :
      (k : Text) (aggregated : Files) (o : Option AggregatedFile)
      → get k aggregated ≡ o
      → get path (touch_entry k o aggregated)
        ≡ once_unless (not (text_eq k path)) (get path aggregated)
  get-touch_entry k aggregated none h = elim (Bool-cases (text_eq k path)) [
    | inl y ↦
        let missing : get path aggregated ≡ none = rw (← (text_eq_iff k path).0 y) h in
        rw (y, missing)
    | inr n ↦ rw n
  ]
  get-touch_entry k aggregated (some e) h = elim (Bool-cases (text_eq k path)) [
    | inl y ↦
        let found : get path aggregated ≡ some e = rw (← (text_eq_iff k path).0 y) h in
        rw (get-put k path (touched_once e) aggregated, y, found)
    | inr n ↦ rw (get-put k path (touched_once e) aggregated, n)
  ]

  get-touch_loop :
      (aggregated : Files) (touched : List Text)
      → AreDistinct touched
      → get path (touch_loop aggregated touched)
        ≡ once_unless (not (member path touched)) (get path aggregated)
  unfolding touch_loop member
  get-touch_loop aggregated [] h = refl
  get-touch_loop aggregated (k ∷ touched) h =
      let entry = get-touch_entry k aggregated (get k aggregated) refl in
      let later = get-touch_loop (touch_entry k (get k aggregated) aggregated) touched h.1 in
      elim (Bool-cases (text_eq k path)) [
        | inl y ↦
            let last : member path touched ≡ false = rw (← (text_eq_iff k path).0 y) h.0 in
            rw (later, last, entry, y)
        | inr n ↦ rw (later, entry, n)
      ]

module _ (resolve : Text → Text) (file_name : Text → Option Text) (filter : List Text)
    (path : Text) where
  -- The changes of the path, put together one after the other.
  unfoldable pub merge_all :
      Option AggregatedFile → List TurnUnifiedDiffFile → Option AggregatedFile
  merge_all entry [] = entry
  merge_all entry (file ∷ files) = merge_all (some (merged resolve file entry)) files

  module _ (passes : matches_path_filter file_name path filter ≡ true) where
    get-file_loop :
        (aggregated : Files) (touched : List Text) (files : List TurnUnifiedDiffFile)
        → get path (file_loop resolve file_name filter aggregated touched files).0
          ≡ merge_all (get path aggregated) (changes_of path files)
    unfolding file_loop changes_of merge_all
    get-file_loop aggregated touched [] = refl
    get-file_loop aggregated touched (file ∷ files) =
        let merged_file = merged resolve file (get file.path aggregated) in
        let later =
          get-file_loop (put file.path merged_file aggregated) (insert file.path touched) files in
        elim (Bool-cases (text_eq file.path path)) [
          | inl y ↦
              let same = (text_eq_iff file.path path).0 y in
              let passes_here : matches_path_filter file_name file.path filter ≡ true =
                rw same passes in
              let start : get path (put file.path merged_file aggregated)
                  ≡ some (merged resolve file (get path aggregated)) =
                rw (get-put file.path path merged_file aggregated, y, same) in
              rw (passes_here, y) (later ∙ ap (λ o. merge_all o (changes_of path files)) start)
          | inr n ↦ elim (Bool-cases (matches_path_filter file_name file.path filter)) [
            | inl m ↦ rw (m, n, later, get-put file.path path merged_file aggregated, n)
            | inr m ↦ rw (m, n) (get-file_loop aggregated touched files)
          ]
        ]

    member-file_loop :
        (aggregated : Files) (touched : List Text) (files : List TurnUnifiedDiffFile)
        → member path (file_loop resolve file_name filter aggregated touched files).1
          ≡ (member path touched || not (is_empty (changes_of path files)))
    unfolding file_loop changes_of
    member-file_loop aggregated touched [] = ground arith
    member-file_loop aggregated touched (file ∷ files) =
        let merged_file = merged resolve file (get file.path aggregated) in
        let later =
          member-file_loop (put file.path merged_file aggregated) (insert file.path touched)
            files in
        elim (Bool-cases (text_eq file.path path)) [
          | inl y ↦
              let same = (text_eq_iff file.path path).0 y in
              let passes_here : matches_path_filter file_name file.path filter ≡ true =
                rw same passes in
              rw (passes_here, y, later, member-insert file.path path touched, y) (ground arith)
          | inr n ↦ elim (Bool-cases (matches_path_filter file_name file.path filter)) [
            | inl m ↦ rw (m, n, later, member-insert file.path path touched, n)
            | inr m ↦ rw (m, n) (member-file_loop aggregated touched files)
          ]
        ]

  file_loop-AreDistinct :
      (aggregated : Files) (touched : List Text) (files : List TurnUnifiedDiffFile)
      → AreDistinct touched
      → AreDistinct (file_loop resolve file_name filter aggregated touched files).1
  unfolding file_loop
  file_loop-AreDistinct aggregated touched [] h = h
  file_loop-AreDistinct aggregated touched (file ∷ files) h =
      elim (Bool-cases (matches_path_filter file_name file.path filter)) [
        | inl m ↦ rw m (
            file_loop-AreDistinct
              (put file.path (merged resolve file (get file.path aggregated)) aggregated)
              (insert file.path touched) files (insert-AreDistinct file.path touched h))
        | inr m ↦ rw m (file_loop-AreDistinct aggregated touched files h)
      ]

  -- A turn, for the entry of one path.
  unfoldable pub entry_round :
      Option AggregatedFile → List TurnUnifiedDiffFile → Option AggregatedFile
  entry_round entry files =
      once_unless (is_empty (changes_of path files)) (merge_all entry (changes_of path files))

  unfoldable pub entry_loop :
      Option AggregatedFile → List (List TurnUnifiedDiffFile) → Option AggregatedFile
  entry_loop entry [] = entry
  entry_loop entry (files ∷ turns) = entry_loop (entry_round entry files) turns

  not-not : (b : Bool) → not (false || not b) ≡ b
  not-not true = refl
  not-not false = refl

  module _ (passes : matches_path_filter file_name path filter ≡ true) where
    get-turn_round :
        (aggregated : Files) (files : List TurnUnifiedDiffFile)
        → get path (turn_round resolve file_name filter aggregated files)
          ≡ entry_round (get path aggregated) files
    unfolding turn_round entry_round
    get-turn_round aggregated files =
        let taken = file_loop resolve file_name filter aggregated [] files in
        get-touch_loop path taken.0 taken.1 (file_loop-AreDistinct aggregated [] files tt)
        ∙ rw (
          member-file_loop passes aggregated [] files,
          get-file_loop passes aggregated [] files,
          not-not (is_empty (changes_of path files)),
        )

    pub get-turn_loop :
        (aggregated : Files) (turns : List (List TurnUnifiedDiffFile))
        → get path (turn_loop resolve file_name filter aggregated turns)
          ≡ entry_loop (get path aggregated) turns
    unfolding turn_loop entry_loop
    get-turn_loop aggregated [] = refl
    get-turn_loop aggregated (files ∷ turns) =
        get-turn_loop (turn_round resolve file_name filter aggregated files) turns
        ∙ ap (λ o. entry_loop o turns) (get-turn_round aggregated files)
