-- ===== src/SessionDiff.antt =====
-- src/thread/features/session/diff.rs: `/diff`, the changes of past turns put together file by
-- file. The absolute path of a file, and the last part of a path, are functions that the model is
-- given.
pub mod Aggregate
pub mod Range
pub mod Shown
pub mod Summary
use zed_codex_acp_cas.Common.{
  ℕ, ◌+◌, ◌-◌, min, max, Bool, true, false, not, ◌&&◌, ◌||◌, List, [], ◌∷◌, ◌++◌, Option, none,
  some, ltb, ◌==◌, if◌then◌else◌, length, drop, is_empty, any, unwrap_or,
}
use zed_codex_acp_cas.Common.Text.{Text, codes, text_eq, trim, contains, lines}
use zed_codex_acp_cas.Common.Decimal.{show}
use zed_codex_acp_cas.Common.Sets.{member, insert, remove}
use zed_codex_acp_cas.Common.Maps.{get, put}
use zed_codex_acp_cas.Common.Words.{ends_with, trim_matches, join}
use zed_codex_acp_cas.Thread.State.{ThreadInner, TurnDiffRecord, send_agent_text}
use zed_codex_acp_cas.TurnDiff.{TurnUnifiedDiffFile, parse_turn_unified_diff_files}
use zed_codex_acp_cas.Commands.{DiffScope, last_turn, session, last_n}

pub record AggregatedFile : Type 0 where
  pub display_path : Text
  pub absolute_path : Text
  pub old_text : Text
  pub new_text : Text
  pub is_delete : Bool
  pub added_lines : ℕ
  pub removed_lines : ℕ
  pub touching_turns : ℕ

abbrev pub last_record : List TurnDiffRecord → List TurnDiffRecord
last_record [] = []
last_record (r ∷ []) = r ∷ []
last_record (r ∷ s ∷ rs) = last_record (s ∷ rs)

unfoldable pub select_records : List TurnDiffRecord → DiffScope → List TurnDiffRecord
select_records history last_turn = last_record history
select_records history session = history
select_records history (last_n count) = drop (length history - count) history

unfoldable pub normalize_path_filters : List Text → List Text
unfolding trim trim_matches
normalize_path_filters [] = []
normalize_path_filters (value ∷ paths) =
    let rest = normalize_path_filters paths in
    let bare = trim_matches (λ c. c == b'"') (trim value) in
    if is_empty bare then rest else bare ∷ rest

abbrev pub count_lines : Text → ℕ
count_lines text = if is_empty text then 0 else length (lines text)

-- The lines that were added and removed, as an estimate by the numbers of lines.
abbrev pub estimate : Bool → Bool → ℕ → ℕ → ℕ × ℕ
estimate is_delete is_new old_lines new_lines =
    let added = new_lines - min old_lines new_lines in
    let removed = old_lines - min new_lines old_lines in
    if is_delete
    then (0, old_lines)
    else if is_new
    then (new_lines, 0)
    else if added == 0 && removed == 0
    then (max new_lines old_lines, max new_lines old_lines)
    else (added, removed)

unfoldable pub count_diff_lines : TurnUnifiedDiffFile → ℕ × ℕ
unfolding lines
count_diff_lines file =
    estimate file.is_delete (is_empty file.old_text) (count_lines file.old_text)
      (count_lines file.new_text)

module _ (file_name : Text → Option Text) where
  abbrev pub is_file_name : Text → Option Text → Bool
  is_file_name pattern none = false
  is_file_name pattern (some name) = text_eq name pattern

  unfoldable pub matches_path_filter : Text → List Text → Bool
  unfolding ends_with contains
  matches_path_filter display_path filter =
      if is_empty filter
      then true
      else any
          (λ pattern.
            text_eq display_path pattern
            || ends_with pattern display_path
            || is_file_name pattern (file_name display_path)
            || contains pattern display_path)
          filter

-- The map of the files and the set of those that the turn touched.
abbrev pub Files : Type 0
Files = List (Text × AggregatedFile)

abbrev pub touched_once : AggregatedFile → AggregatedFile
touched_once entry = record entry { touching_turns = entry.touching_turns + 1 }

abbrev pub touch_entry : Text → Option AggregatedFile → Files → Files
touch_entry path none aggregated = aggregated
touch_entry path (some entry) aggregated = put path (touched_once entry) aggregated

-- The loop over the paths that the turn touched.
unfoldable pub touch_loop : Files → List Text → Files
unfolding get
touch_loop aggregated [] = aggregated
touch_loop aggregated (path ∷ touched) =
    touch_loop (touch_entry path (get path aggregated) aggregated) touched

unfoldable pub files_of_records : List TurnDiffRecord → List (List TurnUnifiedDiffFile)
unfolding parse_turn_unified_diff_files
files_of_records [] = []
files_of_records (r ∷ records) =
    parse_turn_unified_diff_files r.unified_diff ∷ files_of_records records

-- The values, but those of files that are as they were.
unfoldable pub net_changes : Files → List AggregatedFile
net_changes [] = []
net_changes ((path, file) ∷ aggregated) =
    let rest = net_changes aggregated in
    if file.is_delete || not (text_eq file.old_text file.new_text) then file ∷ rest else rest

module _ (resolve : Text → Text) where
  -- The file of the range: the old text of the first change stays, the rest is of the last.
  abbrev pub merged : TurnUnifiedDiffFile → Option AggregatedFile → AggregatedFile
  merged file (some existing) = record existing {
    new_text = file.new_text;
    is_delete = file.is_delete;
    added_lines = existing.added_lines + (count_diff_lines file).0;
    removed_lines = existing.removed_lines + (count_diff_lines file).1;
  }
  merged file none = record {
    display_path = file.path;
    absolute_path = resolve file.path;
    old_text = file.old_text;
    new_text = file.new_text;
    is_delete = file.is_delete;
    added_lines = (count_diff_lines file).0;
    removed_lines = (count_diff_lines file).1;
    touching_turns = 0;
  }

  module _ (file_name : Text → Option Text) (filter : List Text) where
    -- The loop over the files of a turn.
    unfoldable pub file_loop : Files → List Text → List TurnUnifiedDiffFile → Files × List Text
    unfolding matches_path_filter get put insert
    file_loop aggregated touched [] = (aggregated, touched)
    file_loop aggregated touched (file ∷ files) =
        let skipped = file_loop aggregated touched files in
        let taken =
          file_loop (put file.path (merged file (get file.path aggregated)) aggregated)
            (insert file.path touched) files in
        if matches_path_filter file_name file.path filter then taken else skipped

    -- A turn with its files.
    unfoldable pub turn_round : Files → List TurnUnifiedDiffFile → Files
    unfolding file_loop touch_loop
    turn_round aggregated files =
        let taken = file_loop aggregated [] files in touch_loop taken.0 taken.1

    -- The loop over the turns.
    unfoldable pub turn_loop : Files → List (List TurnUnifiedDiffFile) → Files
    unfolding turn_round
    turn_loop aggregated [] = aggregated
    turn_loop aggregated (files ∷ turns) = turn_loop (turn_round aggregated files) turns

    unfoldable pub aggregate_files : List TurnDiffRecord → List AggregatedFile
    unfolding turn_loop net_changes files_of_records
    aggregate_files records = net_changes (turn_loop [] (files_of_records records))
