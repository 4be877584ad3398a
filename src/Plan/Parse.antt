-- ===== src/Plan/Parse.antt =====
-- src/thread/features/plan/parse.rs: a plan read from the text of a message or of a plan item.
--
-- `str::to_lowercase` follows the tables of Unicode, which are not in the repository: it is a
-- parameter, and nothing is assumed of it.
pub mod Reference
use zed_codex_acp_cas.Common.{
  ℕ, suc, ◌+◌, Bool, true, false, not, ◌&&◌, ◌||◌, List, [], ◌∷◌, ◌++◌, map, Option, none, some,
  String, ltb, leb, ◌==◌, if◌then◌else◌, length, all, any, is_empty, take,
}
use zed_codex_acp_cas.Common.Text.{
  Text, codes, text_eq, trim, trim_start_matches, trim_end_matches, strip_prefix, starts_with,
  contains, lines, is_ascii_digit, is_ascii_whitespace,
}
use zed_codex_acp_cas.Thread.State.{
  PlanEntry, PlanEntryStatus, pending, in_progress, completed, ModeKind, plan, default, other,
}
use zed_codex_acp_cas.Plan.Line.{
  strip_any, completed_marks, pending_marks, in_progress_marks, bullet_marks, first_is,
  strip_number_mark, strip_numbered_prefix, entry_of, if_some, parse_plan_entry_from_line,
  is_markdown_heading, trim_hashes, trim_colons, ends_with_char, replace_yo, has, is,
  line_has_plan_keyword, normalized, heading_looks_like_plan, line_looks_like_plan_intro,
  line_looks_like_steps_section_title, line_looks_like_options_marker, ParsedPlanLineKind, checkbox,
  bullet, numbered,
}

abbrev pub is_pending : PlanEntryStatus → Bool
is_pending pending = true
is_pending in_progress = false
is_pending completed = false

unfoldable pub plan_entries_all_pending : List PlanEntry → Bool
plan_entries_all_pending entries = not (is_empty entries) && all (λ e. is_pending e.status) entries

unfoldable pub collaboration_mode_label : ModeKind → Text
collaboration_mode_label plan = codes "plan"
collaboration_mode_label default = codes "chat"
collaboration_mode_label other = codes "chat"

unfoldable pub parse_collaboration_mode : Text → Option ModeKind
parse_collaboration_mode value =
    if text_eq value (codes "plan") || text_eq value (codes "on")
    then some plan
    else if text_eq value (codes "off")
    then some default
    else none

abbrev pub set_first_in_progress : List PlanEntry → List PlanEntry
set_first_in_progress [] = []
set_first_in_progress (e ∷ es) = record e { status = in_progress } ∷ es

unfoldable pub promote_first_pending_step : List PlanEntry → List PlanEntry
promote_first_pending_step entries =
    if all (λ e. is_pending e.status) entries then set_first_in_progress entries else entries

-- The variables of the loop of `plan_from_text_with_mode`.
pub record Reading : Type 0 where
  pub entries : List PlanEntry
  pub has_checkbox_entries : Bool
  pub has_plan_heading : Bool
  pub has_plan_intro : Bool
  pub has_options_marker : Bool
  pub has_non_numbered_list_entries : Bool
  pub has_any_heading : Bool
  pub non_entry_lines : ℕ

abbrev pub nothing_read : Reading
nothing_read = record {
  entries = [];
  has_checkbox_entries = false;
  has_plan_heading = false;
  has_plan_intro = false;
  has_options_marker = false;
  has_non_numbered_list_entries = false;
  has_any_heading = false;
  non_entry_lines = 0;
}

abbrev pub is_checkbox : ParsedPlanLineKind → Bool
is_checkbox checkbox = true
is_checkbox bullet = false
is_checkbox numbered = false

abbrev pub is_non_numbered : ParsedPlanLineKind → Bool
is_non_numbered checkbox = true
is_non_numbered bullet = true
is_non_numbered numbered = false

abbrev pub push_entry : Reading → Option (PlanEntry × ParsedPlanLineKind) → Reading
push_entry r none = record r { non_entry_lines = r.non_entry_lines + 1 }
push_entry r (some (entry, kind)) = record r {
  entries = r.entries ++ entry ∷ [];
  has_checkbox_entries = if is_checkbox kind then true else r.has_checkbox_entries;
  has_non_numbered_list_entries =
      if is_non_numbered kind then true else r.has_non_numbered_list_entries;
}

-- The tests behind the loop.
unfoldable pub decide_plan : Bool → Reading → Option (List PlanEntry)
decide_plan allow_list_only r =
    if is_empty r.entries
    then none
    else if allow_list_only && r.has_any_heading && not r.has_checkbox_entries
    then none
    else if r.has_checkbox_entries || r.has_plan_heading || r.has_plan_intro
    then some r.entries
    else if r.has_options_marker
    then none
    else if allow_list_only
        && r.non_entry_lines == 0
        && leb 2 (length r.entries)
        && r.has_non_numbered_list_entries
    then some r.entries
    else none

module _ (to_lowercase : Text → Text) where
  -- The body of the loop of `plan_from_text_with_mode`.
  unfoldable pub read_line : Reading → Text → Reading
  read_line r line =
      let trimmed = trim line in
      if is_empty trimmed
      then r
      else if is_markdown_heading trimmed
      then (let like_plan = heading_looks_like_plan to_lowercase trimmed in
          record r {
            has_any_heading = true;
            has_plan_heading = r.has_plan_heading || like_plan;
            non_entry_lines = if like_plan then r.non_entry_lines else r.non_entry_lines + 1;
          })
      else if line_looks_like_options_marker to_lowercase trimmed
      then record r { has_options_marker = true; non_entry_lines = r.non_entry_lines + 1 }
      else if line_looks_like_plan_intro to_lowercase trimmed
      then record r { has_plan_intro = true; non_entry_lines = r.non_entry_lines + 1 }
      else push_entry r (parse_plan_entry_from_line trimmed)

  unfoldable pub read_lines : Reading → List Text → Reading
  read_lines r [] = r
  read_lines r (l ∷ ls) = read_lines (read_line r l) ls

  -- The loop of `parse_plan_entries_from_steps_section`; the flag is `in_steps_section`.
  unfoldable pub steps_loop : Bool → List PlanEntry → List Text → List PlanEntry
  steps_loop in_steps_section entries [] = entries
  steps_loop in_steps_section entries (line ∷ rest) =
      let trimmed = trim line in
      let same = steps_loop in_steps_section entries rest in
      let inside = steps_loop true entries rest in
      let parsed = parse_plan_entry_from_line trimmed in
      let pushed : List PlanEntry = elim parsed [
        | some (entry, kind) ↦ steps_loop in_steps_section (entries ++ entry ∷ []) rest
        | none ↦ if is_empty entries then same else entries
      ] in
      if is_empty trimmed
      then same
      else if is_markdown_heading trimmed
      then (if line_looks_like_steps_section_title to_lowercase trimmed
          then inside
          else if in_steps_section
          then entries
          else same)
      else if line_looks_like_steps_section_title to_lowercase trimmed
      then inside
      else if not in_steps_section
      then same
      else pushed

  unfoldable pub parse_plan_entries_from_steps_section : Text → List PlanEntry
  parse_plan_entries_from_steps_section text = steps_loop false [] (lines text)

  unfoldable pub plan_from_text_with_mode : Text → Bool → Option (List PlanEntry)
  unfolding decide_plan
  plan_from_text_with_mode text allow_list_only =
      let section = parse_plan_entries_from_steps_section text in
      if allow_list_only && not (is_empty section)
      then some section
      else decide_plan allow_list_only (read_lines nothing_read (lines text))

  unfoldable pub plan_from_text : Text → Option (List PlanEntry)
  plan_from_text text = plan_from_text_with_mode text false

  unfoldable pub plan_from_plan_item_text : Text → Option (List PlanEntry)
  plan_from_plan_item_text text = plan_from_text_with_mode text true
