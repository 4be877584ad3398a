-- ===== src/TurnDiff.antt =====
-- src/thread/turn/diff.rs: the files of a turn's diff, and the diffs of past turns that `/diff`
-- shows again. Paths are texts; finding them in the file system, and the tool call that shows the
-- diff, are not modelled.
pub mod History
pub mod Files
use zed_codex_acp_cas.Common.{
  ℕ, ◌+◌, ◌-◌, Bool, true, false, not, ◌||◌, List, [], ◌∷◌, ◌++◌, Option, none, some, ◌==◌,
  if◌then◌else◌, length, drop, is_empty,
}
use zed_codex_acp_cas.Common.Text.{
  Text, codes, text_eq, trim, trim_start_matches, trim_end_matches, strip_prefix, starts_with,
  contains, split_inclusive, strip_newline,
}
use zed_codex_acp_cas.Thread.State.{ThreadInner, TurnDiffRecord}
use zed_codex_acp_cas.UnifiedDiff.{unified_diff_to_old_new, first_hunk_line}

pub record TurnUnifiedDiffFile : Type 0 where
  pub path : Text
  pub old_text : Text
  pub new_text : Text
  pub is_delete : Bool
  pub line : Option ℕ

abbrev pub dev_null : Text
dev_null = codes "/dev/null"

abbrev pub turn_diff_history_limit : ℕ
turn_diff_history_limit = 32

-- `handle_turn_diff_updated`.
abbrev pub handle_turn_diff_updated : ThreadInner → Text → Text → Text → ThreadInner
handle_turn_diff_updated inner turn_id diff expected_turn_id =
    if text_eq turn_id expected_turn_id
    then record inner { latest_turn_diff = some diff }
    else inner

abbrev pub or_else : Option Text → Option Text → Option Text
or_else none later = later
or_else (some t) later = some t

abbrev pub or_line : Option ℕ → Option ℕ → Option ℕ
or_line none later = later
or_line (some n) later = some n

abbrev pub unwrap_or : Option Text → Text → Text
unwrap_or none t = t
unwrap_or (some s) t = s

unfoldable pub normalize_unified_diff_path : Text → Text
normalize_unified_diff_path path =
    let trimmed =
      trim_end_matches (λ c. c == b'"') (trim_start_matches (λ c. c == b'"') (trim path)) in
    if text_eq trimmed dev_null
    then []
    else unwrap_or (or_else (strip_prefix (codes "a/") trimmed) (strip_prefix (codes "b/") trimmed))
        trimmed

-- The variables of the loop of `parse_turn_unified_diff_files`.
pub record Sections : Type 0 where
  pub section : Text
  pub old_path : Option Text
  pub new_path : Option Text
  pub saw_file_header : Bool
  pub files : List TurnUnifiedDiffFile

abbrev pub is_dev_null : Option Text → Bool
is_dev_null none = false
is_dev_null (some path) = text_eq (trim path) dev_null

-- The file of a section whose texts before and after are these, unless they are the same.
abbrev pub changed_file : Text → Text → Bool → Option (Text × Text) → Option TurnUnifiedDiffFile
changed_file section path is_delete none = none
changed_file section path is_delete (some (old_text, new_text)) =
    if text_eq old_text new_text
    then none
    else some (record {
      path = path;
      old_text = old_text;
      new_text = new_text;
      is_delete = is_delete;
      line =
          if is_delete
          then first_hunk_line section false
          else or_line (first_hunk_line section true) (first_hunk_line section false);
    })

-- The file of a section, as `finalize_section` decides it.
abbrev pub section_file : Text → Bool → Option Text → Option TurnUnifiedDiffFile
section_file section is_delete none = none
section_file section is_delete (some chosen) =
    let path = normalize_unified_diff_path chosen in
    if is_empty path
    then none
    else if not (contains (codes "@@") section)
    then none
    else changed_file section path is_delete (unified_diff_to_old_new section)

abbrev pub push_file :
    List TurnUnifiedDiffFile → Option TurnUnifiedDiffFile → List TurnUnifiedDiffFile
push_file files none = files
push_file files (some file) = files ++ file ∷ []

-- `finalize_section`: on every way out of it the section and both paths are cleared.
unfoldable pub finalize_section : Sections → Sections
finalize_section s =
    let new_is_dev_null = is_dev_null s.new_path in
    let chosen = if new_is_dev_null then s.old_path else or_else s.new_path s.old_path in
    record s {
      section = [];
      old_path = none;
      new_path = none;
      files =
          if is_empty (trim s.section)
          then s.files
          else push_file s.files (section_file s.section new_is_dev_null chosen);
    }

-- The flag tells whether the line starts with `diff --git `.
abbrev pub begin_section : Sections → Bool → Sections
begin_section s false = s
begin_section s true = record (finalize_section s) { saw_file_header = true }

-- The paths of a line that starts with `--- ` or with `+++ `.
abbrev pub note_new_path : Sections → Option Text → Sections
note_new_path s none = s
note_new_path s (some path) = record s { new_path = some (trim path) }

abbrev pub note_path : Sections → Text → Option Text → Sections
note_path s l none = note_new_path s (strip_prefix (codes "+++ ") l)
note_path s l (some path) = record s { old_path = some (trim path) }

abbrev pub take_line : Sections → Text → Text → Sections
take_line s l raw_line =
    if s.saw_file_header
      || not (is_empty s.section)
      || starts_with (codes "--- ") l
      || starts_with (codes "+++ ") l
    then record s { section = s.section ++ raw_line }
    else s

-- The body of the loop.
unfoldable pub section_line : Sections → Text → Sections
unfolding finalize_section
section_line s raw_line =
    let l = strip_newline raw_line in
    let begun = begin_section s (starts_with (codes "diff --git ") l) in
    take_line (note_path begun l (strip_prefix (codes "--- ") l)) l raw_line

unfoldable pub section_lines : Sections → List Text → Sections
section_lines s [] = s
section_lines s (l ∷ ls) = section_lines (section_line s l) ls

abbrev pub no_sections : Sections
no_sections = record {
  section = [];
  old_path = none;
  new_path = none;
  saw_file_header = false;
  files = [];
}

unfoldable pub parse_turn_unified_diff_files : Text → List TurnUnifiedDiffFile
unfolding section_lines
parse_turn_unified_diff_files unified_diff =
    (finalize_section (section_lines no_sections (split_inclusive unified_diff))).files

abbrev pub cons_record :
    TurnDiffRecord → Option (List TurnDiffRecord) → Option (List TurnDiffRecord)
cons_record r none = none
cons_record r (some rs) = some (r ∷ rs)

-- The update of the entry that `find` gives, or `none`.
unfoldable pub update_existing :
    Text → ℕ → Text → List TurnDiffRecord → Option (List TurnDiffRecord)
update_existing turn_id recorded_at unified_diff [] = none
update_existing turn_id recorded_at unified_diff (r ∷ rs) =
    let rest = update_existing turn_id recorded_at unified_diff rs in
    if text_eq r.turn_id turn_id
    then some (record r { recorded_at = recorded_at; unified_diff = unified_diff } ∷ rs)
    else cons_record r rest

-- The push, and the drain of what is too much.
abbrev pub push_bounded : List TurnDiffRecord → TurnDiffRecord → List TurnDiffRecord
push_bounded history r =
    let pushed = history ++ r ∷ [] in drop (length pushed - turn_diff_history_limit) pushed

abbrev pub updated_or_pushed :
    Option (List TurnDiffRecord) → List TurnDiffRecord → TurnDiffRecord → List TurnDiffRecord
updated_or_pushed none history r = push_bounded history r
updated_or_pushed (some updated) history r = updated

-- `record_turn_diff`; the first argument is the time.
unfoldable pub record_turn_diff : ℕ → ThreadInner → Text → Text → ThreadInner
unfolding update_existing
record_turn_diff recorded_at inner turn_id unified_diff = record inner {
  turn_diff_history =
      updated_or_pushed (update_existing turn_id recorded_at unified_diff inner.turn_diff_history)
        inner.turn_diff_history
        (record { turn_id = turn_id; recorded_at = recorded_at; unified_diff = unified_diff });
}

-- `prepare_finalized_turn_diff_snapshot` up to the resolution of the paths: the state, and the
-- files of the turn, if there are any.
abbrev pub finalized : ℕ → ThreadInner → Text → Option Text → ThreadInner × List TurnUnifiedDiffFile
finalized now inner turn_id none = (inner, [])
finalized now inner turn_id (some diff) =
    let files = parse_turn_unified_diff_files diff in
    let taken : ThreadInner = record inner { latest_turn_diff = none } in
    if is_empty files then (taken, []) else (record_turn_diff now taken turn_id diff, files)

abbrev pub prepare_finalized_turn_diff_snapshot :
    ℕ → ThreadInner → Text → ThreadInner × List TurnUnifiedDiffFile
prepare_finalized_turn_diff_snapshot now inner turn_id =
    finalized now inner turn_id inner.latest_turn_diff
