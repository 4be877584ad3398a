-- ===== src/Plan/Parse/Reference.antt =====
-- When a message is a plan, without the loop: each line has a class, and the plan is decided by
-- which classes occur.
use zed_codex_acp_cas.Common.{
  Bool, true, false, ◌||◌, List, [], ◌∷◌, ◌++◌, Option, none, some, ◌≡◌, sym, ap, ◌∙◌, arith, ◌↔◌,
  inl, inr, if◌then◌else◌, is_empty, any, append-nil, append_assoc, Option-cases,
}
use zed_codex_acp_cas.Common.Text.{Text, trim, lines}
use zed_codex_acp_cas.Thread.State.{PlanEntry}
use zed_codex_acp_cas.Plan.Line.{
  ParsedPlanLineKind, is_markdown_heading, heading_looks_like_plan, line_looks_like_options_marker,
  line_looks_like_plan_intro, parse_plan_entry_from_line,
}
use zed_codex_acp_cas.Plan.Parse.{
  is_checkbox, Reading, nothing_read, read_line, read_lines, decide_plan, plan_from_text_with_mode,
  plan_from_text,
}

-- What a line is.
pub data LineClass : Type 0 where
  blank : LineClass
  heading : Bool → LineClass
  options : LineClass
  intro : LineClass
  entry : PlanEntry → ParsedPlanLineKind → LineClass
  prose : LineClass

abbrev pub class_of_entry : Option (PlanEntry × ParsedPlanLineKind) → LineClass
class_of_entry none = prose
class_of_entry (some (e, kind)) = entry e kind

abbrev pub entries_of : List LineClass → List PlanEntry
entries_of [] = []
entries_of (entry e kind ∷ cs) = e ∷ entries_of cs
entries_of (blank ∷ cs) = entries_of cs
entries_of (heading h ∷ cs) = entries_of cs
entries_of (options ∷ cs) = entries_of cs
entries_of (intro ∷ cs) = entries_of cs
entries_of (prose ∷ cs) = entries_of cs

-- A checkbox, a heading with a plan's word, or a line that introduces a plan.
abbrev pub announces : LineClass → Bool
announces blank = false
announces (heading h) = h
announces options = false
announces intro = true
announces (entry e kind) = is_checkbox kind
announces prose = false

module _ (to_lowercase : Text → Text) where
  pub classify : Text → LineClass
  classify line =
      let trimmed = trim line in
      if is_empty trimmed
      then blank
      else if is_markdown_heading trimmed
      then heading (heading_looks_like_plan to_lowercase trimmed)
      else if line_looks_like_options_marker to_lowercase trimmed
      then options
      else if line_looks_like_plan_intro to_lowercase trimmed
      then intro
      else class_of_entry (parse_plan_entry_from_line trimmed)

  abbrev pub classes : List Text → List LineClass
  classes [] = []
  classes (l ∷ ls) = classify l ∷ classes ls

  abbrev announced : Reading → Bool
  announced r = r.has_checkbox_entries || r.has_plan_heading || r.has_plan_intro

  read_line-classify :
      (r : Reading) (l : Text)
      → ((read_line to_lowercase r l).entries ≡ r.entries ++ entries_of (classify l ∷ []))
        × (announced (read_line to_lowercase r l) ≡ (announced r || announces (classify l)))
  unfolding read_line classify
  read_line-classify r l = elim (Option-cases (parse_plan_entry_from_line (trim l))) [
    | inl e ↦ ground (arith, e, append-nil r.entries)
    | inr (p, e) ↦ ground (arith, e, append-nil r.entries)
  ]

  entries_of-cons :
      (c : LineClass) (cs : List LineClass)
      → entries_of (c ∷ cs) ≡ entries_of (c ∷ []) ++ entries_of cs
  entries_of-cons c cs = ground arith

  read_lines-classes :
      (ls : List Text) (r : Reading)
      → ((read_lines to_lowercase r ls).entries ≡ r.entries ++ entries_of (classes ls))
        × (announced (read_lines to_lowercase r ls) ≡ (announced r || any announces (classes ls)))
  unfolding read_lines
  read_lines-classes [] r = (sym (append-nil r.entries), ground arith)
  read_lines-classes (l ∷ ls) r =
      let (es, an) = read_line-classify r l in
      let (es', an') = read_lines-classes ls (read_line to_lowercase r l) in
      (
        es'
            ∙ ap (λ (x : List PlanEntry). x ++ entries_of (classes ls)) es
            ∙ append_assoc r.entries (entries_of (classify l ∷ [])) (entries_of (classes ls))
            ∙ ap (◌++◌ r.entries) (sym (entries_of-cons (classify l) (classes ls))),
        ground (arith, an, an'),
      )

  -- A message is a plan exactly when some line is an entry and some line announces a plan (a
  -- checkbox, a heading with a plan's word, or a line with one that ends in a colon or a full
  -- stop); the plan has the entries of the lines, in order.
  pub plan_from_text_iff :
      (text : Text) (entries : List PlanEntry)
      → (plan_from_text to_lowercase text ≡ some entries) ↔ (
          (entries ≡ entries_of (classes (lines text)))
          × (is_empty entries ≡ false)
          × (any announces (classes (lines text)) ≡ true))
  unfolding plan_from_text plan_from_text_with_mode decide_plan
  plan_from_text_iff text entries =
      let (es, an) = read_lines-classes (lines text) nothing_read in
      (λ h. ground (arith, es, an), λ h. ground (arith, es, an))
