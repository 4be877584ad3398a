-- ===== src/Plan/Line.antt =====
-- src/thread/features/plan/parse.rs, line by line: the entry that a line holds, and the lines that
-- announce a plan or its steps.
--
-- `str::to_lowercase` follows the tables of Unicode, which are not in the repository: it is a
-- parameter, and nothing is assumed of it.
pub mod Contents
use zed_codex_acp_cas.Common.{
  ℕ, suc, ◌+◌, Bool, true, false, not, ◌&&◌, ◌||◌, List, [], ◌∷◌, ◌++◌, map, Option, none, some,
  String, ltb, leb, ◌==◌, if◌then◌else◌, length, all, any, is_empty, take,
}
use zed_codex_acp_cas.Common.Text.{
  Text, codes, text_eq, trim, trim_start_matches, trim_end_matches, strip_prefix, starts_with,
  contains, lines, is_ascii_digit, is_ascii_whitespace,
}
use zed_codex_acp_cas.Thread.State.{
  PlanEntry, PlanEntryStatus, pending, in_progress, completed, ModeKind, plan, default, other,
}

pub data ParsedPlanLineKind : Type 0 where
  checkbox bullet numbered : ParsedPlanLineKind

-- `strip_prefix(p).or_else(|| …)` over a row of prefixes.
unfoldable pub strip_any : List Text → Text → Option Text
strip_any [] s = none
strip_any (p ∷ ps) s =
    let others = strip_any ps s in elim (strip_prefix p s) [ some rest ↦ some rest | none ↦ others ]

abbrev pub completed_marks : List Text
completed_marks = codes "- [x] " ∷ codes "* [x] " ∷ []

abbrev pub pending_marks : List Text
pending_marks = codes "- [ ] " ∷ codes "* [ ] " ∷ []

abbrev pub in_progress_marks : List Text
in_progress_marks = codes "- [~] " ∷ codes "* [~] " ∷ codes "- [-] " ∷ codes "* [-] " ∷ []

abbrev pub bullet_marks : List Text
bullet_marks = codes "- " ∷ codes "* " ∷ []

-- The first character meets the test.
abbrev pub first_is : (ℕ → Bool) → Text → Bool
first_is p [] = false
first_is p (c ∷ cs) = p c

-- From the character behind the digits on.
abbrev pub strip_number_mark : Text → Option Text
strip_number_mark [] = none
strip_number_mark (mark ∷ rest) =
    if (mark == b'.' || mark == b')') && first_is is_ascii_whitespace rest
    then some (trim_start_matches is_ascii_whitespace rest)
    else none

-- The loops over the digits and over the white space are `trim_start_matches`: on the characters
-- that they test, bytes and code points are the same.
unfoldable pub strip_numbered_prefix : Text → Option Text
unfolding trim_start_matches
strip_numbered_prefix line =
    if first_is is_ascii_digit line
    then strip_number_mark (trim_start_matches is_ascii_digit line)
    else none

-- The entry of a line whose mark is stripped; a mark with nothing behind it is no entry.
abbrev pub entry_of :
    Text → PlanEntryStatus → ParsedPlanLineKind → Option (PlanEntry × ParsedPlanLineKind)
entry_of raw_content status kind =
    let content = trim raw_content in
    if is_empty content then none else some (record { content = content; status = status }, kind)

-- `if let Some(content) = … { return … }`, and what stands behind it.
abbrev pub if_some {ℓ} : {A : Type ℓ} → Option Text → (Text → A) → A → A
if_some none f later = later
if_some (some content) f later = f content

unfoldable pub parse_plan_entry_from_line : Text → Option (PlanEntry × ParsedPlanLineKind)
parse_plan_entry_from_line line =
    let trimmed = trim line in
    if is_empty trimmed
    then none
    else if_some (strip_any completed_marks trimmed) (λ c. entry_of c completed checkbox)
        (if_some (strip_any pending_marks trimmed) (λ c. entry_of c pending checkbox)
          (if_some (strip_any in_progress_marks trimmed) (λ c. entry_of c in_progress checkbox)
            (if_some (strip_any bullet_marks trimmed) (λ c. entry_of c pending bullet)
              (if_some (strip_numbered_prefix trimmed) (λ c. entry_of c pending numbered) none))))

abbrev pub is_markdown_heading : Text → Bool
is_markdown_heading [] = false
is_markdown_heading (c ∷ cs) = c == b'#'

-- `trim_start_matches('#')` and `trim_end_matches(':')`.
abbrev pub trim_hashes : Text → Text
trim_hashes = trim_start_matches (λ c. c == b'#')

abbrev pub trim_colons : Text → Text
trim_colons = trim_end_matches (λ c. c == b':')

-- `ends_with` of a character.
unfoldable pub ends_with_char : ℕ → Text → Bool
ends_with_char x [] = false
ends_with_char x (c ∷ []) = c == x
ends_with_char x (c ∷ d ∷ cs) = ends_with_char x (d ∷ cs)

-- `replace('ё', "е")`.
abbrev pub replace_yo : Text → Text
replace_yo = map (λ c. if c == 0x451 then 0x435 else c)

abbrev pub has : String → Text → Bool
has word line = contains (codes word) line

abbrev pub is : String → Text → Bool
is word line = text_eq line (codes word)

unfoldable pub line_has_plan_keyword : Text → Bool
line_has_plan_keyword line =
    any (λ keyword. has keyword line)
      ("plan" ∷ "steps" ∷ "roadmap" ∷ "todo" ∷ "next steps" ∷ "implementation plan"
        ∷ "proposed plan" ∷ "план" ∷ "шаг" ∷ "этап" ∷ "дорожн" ∷ [])

module _ (to_lowercase : Text → Text) where
  abbrev pub normalized : Text → Text
  normalized s = replace_yo (to_lowercase s)

  unfoldable pub heading_looks_like_plan : Text → Bool
  heading_looks_like_plan line = line_has_plan_keyword (normalized (trim (trim_hashes line)))

  unfoldable pub line_looks_like_plan_intro : Text → Bool
  line_looks_like_plan_intro line =
      let s = normalized line in
      (ends_with_char b':' s || ends_with_char b'.' s) && line_has_plan_keyword s

  unfoldable pub line_looks_like_steps_section_title : Text → Bool
  line_looks_like_steps_section_title line =
      let s = normalized (trim (trim_colons (trim_hashes line))) in
      has "пошаг" s
      || is "шаги" s
      || is "этапы" s
      || (has "этап" s && has "реализац" s)
      || (has "план" s && has "реализац" s)
      || (has "шаг" s && has "выполн" s)
      || (has "step" s && has "implementation" s)
      || (has "step" s && has "execution" s)
      || has "implementation steps" s
      || has "execution steps" s
      || has "step-by-step" s
      || is "steps" s
      || (has "steps" s && has "plan" s)
      || (has "шаг" s && has "реализац" s)
      || (has "шаг" s && has "план" s)

  unfoldable pub line_looks_like_options_marker : Text → Bool
  line_looks_like_options_marker line =
      let s = normalized (trim (trim_colons line)) in
      is "options" s
      || is "choices" s
      || is "variants" s
      || is "option" s
      || is "choice" s
      || is "варианты" s
      || is "опции" s
