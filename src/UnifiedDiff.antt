-- ===== src/UnifiedDiff.antt =====
-- src/thread/core/unified_diff.rs: hunks of a unified diff, the texts before and after them, and
-- the application of a diff to a text.
--
-- A text is a list of code points. A loop over pieces or lines is a recursion on their list with
-- the loop's variables as a record; `?` and `return None` are `none`.
pub mod Applies
pub mod Parsing
pub mod Sides
use zed_codex_acp_cas.Common.{
  ℕ, ◌+◌, ◌-◌, ◌%◌, ◌^◌, Bool, true, false, ◌||◌, List, [], ◌∷◌, ◌++◌, Option, none, some, ◌>>=◌,
  ltb, ◌==◌, if◌then◌else◌, length, get_elem?, take, drop, is_empty, min, ◌&&◌,
}
use zed_codex_acp_cas.Common.Decimal.{parse_usize, parse_unsigned}
use zed_codex_acp_cas.Common.Text.{
  Text, codes, text_eq, starts_with, strip_prefix, split_once, split_inclusive, strip_newline,
  ends_with_newline, trim_end_matches, concat,
}

pub record DiffLine : Type 0 where
  pub kind : ℕ
  pub text : Text

pub record Hunk : Type 0 where
  pub old_start : ℕ
  pub new_start : ℕ
  pub lines : List DiffLine

-- `start,len`, or `start` alone with the length 1.
unfoldable pub parse_unified_range : Text → Option (ℕ × ℕ)
unfolding split_once parse_unsigned
parse_unified_range input =
    let parts : Text × Text = elim (split_once (codes ",") input) [
      | some p ↦ p
      | none ↦ (input, codes "1")
    ] in
    do start ← parse_usize parts.0; len ← parse_usize parts.1; some (start, len)

unfoldable pub parse_unified_hunk_header : Text → Option (ℕ × ℕ)
unfolding parse_unified_range strip_prefix
parse_unified_hunk_header line = do
  behind_marker ← strip_prefix (codes "@@ -") line
  old ← split_once (codes " +") behind_marker
  new ← split_once (codes " @@") old.1
  old_range ← parse_unified_range old.0
  new_range ← parse_unified_range new.0
  some (old_range.0, new_range.0)

-- The variables of the loop of `parse_unified_diff_hunks`.
pub record Scan : Type 0 where
  pub hunks : List Hunk
  pub current : Option Hunk

-- `current_hunk.take()` pushed to `hunks`.
abbrev pub flushed : Scan → List Hunk
flushed s = elim s.current [ none ↦ s.hunks | some h ↦ s.hunks ++ h ∷ [] ]

abbrev pub no_newline_marker : Text
no_newline_marker = codes "\\ No newline at end of file"

-- The last line of the hunk loses its newlines.
abbrev pub trim_last : List DiffLine → List DiffLine
trim_last [] = []
trim_last (l ∷ []) = record l { text = trim_end_matches (λ c. c == b'\n') l.text } ∷ []
trim_last (l ∷ m ∷ ls) = l ∷ trim_last (m ∷ ls)

abbrev pub is_kind : ℕ → Bool
is_kind c = c == b' ' || c == b'+' || c == b'-'

-- A line of a hunk by its first character; the rest of the line keeps the newline it had.
abbrev pub push_body : Hunk → Text → Text → Hunk
push_body h raw_line [] = h
push_body h raw_line (kind ∷ text) =
    if is_kind kind
    then record h {
      lines =
          h.lines
          ++ (record {
            kind = kind;
            text = text ++ (if ends_with_newline raw_line then b'\n' ∷ [] else []);
          }
              ∷ []);
    }
    else h

-- The state behind a header.
abbrev pub opened : Scan → ℕ × ℕ → Scan
opened s start = record {
  hunks = flushed s;
  current = some (record { old_start = start.0; new_start = start.1; lines = [] });
}

-- The loop's body from `let Some(hunk) = current_hunk.as_mut()` on.
abbrev pub scan_body : Option Hunk → Scan → Text → Text → Scan
scan_body none s raw_line line = s
scan_body (some h) s raw_line line =
    if text_eq line no_newline_marker
    then record s { current = some (record h { lines = trim_last h.lines }) }
    else record s { current = some (push_body h raw_line line) }

-- The body of the loop over `split_inclusive('\n')`.
unfoldable pub scan_line : Scan → Text → Option Scan
scan_line s raw_line =
    let line = strip_newline raw_line in
    if starts_with (codes "@@") line
    then (do start ← parse_unified_hunk_header line; some (opened s start))
    else some (scan_body s.current s raw_line line)

unfoldable pub scan_lines : Scan → List Text → Option Scan
scan_lines s [] = some s
scan_lines s (l ∷ ls) = do t ← scan_line s l; scan_lines t ls

unfoldable pub parse_unified_diff_hunks : Text → Option (List Hunk)
parse_unified_diff_hunks unified_diff = do
  s ← scan_lines (record { hunks = []; current = none }) (split_inclusive unified_diff)
  if is_empty (flushed s) then none else some (flushed s)

-- The arms of the `match` in `unified_diff_to_old_new`.
abbrev pub push_sides : Text × Text → DiffLine → Text × Text
push_sides (old, new) l =
    if l.kind == b' '
    then (old ++ l.text, new ++ l.text)
    else if l.kind == b'-'
    then (old ++ l.text, new)
    else if l.kind == b'+'
    then (old, new ++ l.text)
    else (old, new)

abbrev pub sides_of_lines : Text × Text → List DiffLine → Text × Text
sides_of_lines texts [] = texts
sides_of_lines texts (l ∷ ls) = sides_of_lines (push_sides texts l) ls

abbrev pub sides_of_hunks : Text × Text → List Hunk → Text × Text
sides_of_hunks texts [] = texts
sides_of_hunks texts (h ∷ hs) = sides_of_hunks (sides_of_lines texts h.lines) hs

unfoldable pub unified_diff_to_old_new : Text → Option (Text × Text)
unified_diff_to_old_new unified_diff = do
  hunks ← parse_unified_diff_hunks unified_diff
  let texts = sides_of_hunks ([], []) hunks
  if is_empty texts.0 && is_empty texts.1 then none else some texts

-- The variables of the loops of `apply_unified_diff_to_text`.
pub record Applying : Type 0 where
  pub old_index : ℕ
  pub new_text : Text

-- The body of the loop over the lines of a hunk.
unfoldable pub apply_line : List Text → Applying → DiffLine → Option Applying
apply_line old_lines a l =
    if l.kind == b' '
    then (do
      current_line ← get_elem? old_lines a.old_index
      if text_eq current_line l.text
          then some (record { old_index = a.old_index + 1; new_text = a.new_text ++ current_line })
          else none)
    else if l.kind == b'-'
    then (do
      current_line ← get_elem? old_lines a.old_index
      if text_eq current_line l.text then some (record a { old_index = a.old_index + 1 }) else none)
    else if l.kind == b'+'
    then some (record a { new_text = a.new_text ++ l.text })
    else none

unfoldable pub apply_lines : List Text → Applying → List DiffLine → Option Applying
unfolding apply_line
apply_lines old_lines a [] = some a
apply_lines old_lines a (l ∷ ls) = do b ← apply_line old_lines a l; apply_lines old_lines b ls

-- The body of the loop over the hunks. The slice `old_lines[old_index..target_index]` is in range
-- behind the test above it.
unfoldable pub apply_hunk : List Text → Applying → Hunk → Option Applying
unfolding apply_lines
apply_hunk old_lines a h =
    let target_index = h.old_start - 1 in
    if ltb (length old_lines) target_index || ltb target_index a.old_index
    then none
    else apply_lines old_lines
        (record {
          old_index = target_index;
          new_text =
              a.new_text ++ concat (take (target_index - a.old_index) (drop a.old_index old_lines));
        })
        h.lines

unfoldable pub apply_hunks : List Text → Applying → List Hunk → Option Applying
unfolding apply_hunk
apply_hunks old_lines a [] = some a
apply_hunks old_lines a (h ∷ hs) = do b ← apply_hunk old_lines a h; apply_hunks old_lines b hs

unfoldable pub apply_unified_diff_to_text : Text → Text → Option Text
apply_unified_diff_to_text old_text unified_diff = do
  hunks ← parse_unified_diff_hunks unified_diff
  let old_lines = split_inclusive old_text
  a ← apply_hunks old_lines (record { old_index = 0; new_text = [] }) hunks
  some (a.new_text ++ concat (drop a.old_index old_lines))

unfoldable pub usize_to_u32_saturating : ℕ → ℕ
usize_to_u32_saturating value = min value (2 ^ 32 - 1) % 2 ^ 32

-- `into_iter().next()`.
abbrev pub first : List Hunk → Option Hunk
first [] = none
first (h ∷ hs) = some h

unfoldable pub first_hunk_line : Text → Bool → Option ℕ
unfolding usize_to_u32_saturating
first_hunk_line unified_diff use_new_start = do
  hunks ← parse_unified_diff_hunks unified_diff
  first_hunk ← first hunks
  let start = if use_new_start then first_hunk.new_start else first_hunk.old_start
  some (usize_to_u32_saturating (start - 1))
