-- ===== src/TurnDiff/Files.antt =====
-- What is shown of a turn's diff.
use zed_codex_acp_cas.Common.{
  Bool, true, false, List, [], ◌∷◌, ◌++◌, Option, none, some, ◌≡◌, refl, sym, subst, ◌∙◌, arith,
  is_empty, Option-cases, Bool-cases, inl, inr,
}
use zed_codex_acp_cas.Common.Text.{
  Text, codes, text_eq, trim, split_inclusive, strip_newline, strip_prefix, starts_with,
}
use zed_codex_acp_cas.UnifiedDiff.{unified_diff_to_old_new}
use zed_codex_acp_cas.TurnDiff.{
  TurnUnifiedDiffFile, Sections, changed_file, section_file, push_file, finalize_section,
  begin_section, note_path, take_line, section_line, section_lines, no_sections,
  parse_turn_unified_diff_files, normalize_unified_diff_path,
}

-- The file has a name, and its text changes.
abbrev pub IsChanged : TurnUnifiedDiffFile → Type 0
IsChanged f = (is_empty f.path ≡ false) × (text_eq f.old_text f.new_text ≡ false)

abbrev pub AreChanged : List TurnUnifiedDiffFile → Type 0
AreChanged [] = Unit
AreChanged (f ∷ fs) = IsChanged f × AreChanged fs

AreChanged-snoc :
    (fs : List TurnUnifiedDiffFile) (f : TurnUnifiedDiffFile)
    → AreChanged fs
    → IsChanged f
    → AreChanged (fs ++ f ∷ [])
AreChanged-snoc [] f h c = (c, tt)
AreChanged-snoc (g ∷ gs) f h c = (h.0, AreChanged-snoc gs f h.1 c)

push_file-AreChanged :
    (fs : List TurnUnifiedDiffFile) (o : Option TurnUnifiedDiffFile)
    → AreChanged fs
    → ((f : TurnUnifiedDiffFile) → o ≡ some f → IsChanged f)
    → AreChanged (push_file fs o)
push_file-AreChanged fs none h c = h
push_file-AreChanged fs (some f) h c = AreChanged-snoc fs f h (c f refl)

changed_file-IsChanged :
    (section path : Text) (is_delete : Bool) (sides : Option (Text × Text))
    (f : TurnUnifiedDiffFile)
    → is_empty path ≡ false
    → changed_file section path is_delete sides ≡ some f
    → IsChanged f
changed_file-IsChanged section path is_delete none f named e = ground arith
changed_file-IsChanged section path is_delete (some (old, new)) f named e = ground arith

section_file-IsChanged :
    (section : Text) (is_delete : Bool) (chosen : Option Text) (f : TurnUnifiedDiffFile)
    → section_file section is_delete chosen ≡ some f
    → IsChanged f
section_file-IsChanged section is_delete none f e = ground arith
section_file-IsChanged section is_delete (some chosen) f e = ground (
  arith,
  changed_file-IsChanged section (normalize_unified_diff_path chosen) is_delete
      (unified_diff_to_old_new section) f,
)

finalize_section-AreChanged :
    (s : Sections) → AreChanged s.files → AreChanged (finalize_section s).files
unfolding finalize_section
finalize_section-AreChanged s h = elim (Bool-cases (is_empty (trim s.section))) [
  | inl blank ↦ rw blank h
  | inr solid ↦ rw solid (push_file-AreChanged s.files _ h (section_file-IsChanged s.section _ _))
]

note_path-files :
    (s : Sections) (l : Text) (path : Option Text) → (note_path s l path).files ≡ s.files
note_path-files s l (some path) = refl
note_path-files s l none = elim (Option-cases (strip_prefix (codes "+++ ") l)) [
  | inl e ↦ ground (arith, e)
  | inr (path, e) ↦ ground (arith, e)
]

take_line-files : (s : Sections) (l raw_line : Text) → (take_line s l raw_line).files ≡ s.files
take_line-files s l raw_line = ground arith

begin_section-AreChanged :
    (s : Sections) (header : Bool) → AreChanged s.files → AreChanged (begin_section s header).files
begin_section-AreChanged s false h = h
begin_section-AreChanged s true h = finalize_section-AreChanged s h

section_line-AreChanged :
    (s : Sections) (raw_line : Text)
    → AreChanged s.files
    → AreChanged (section_line s raw_line).files
unfolding section_line
section_line-AreChanged s raw_line h =
    let l = strip_newline raw_line in
    let begun = begin_section s (starts_with (codes "diff --git ") l) in
    let noted = note_path begun l (strip_prefix (codes "--- ") l) in
    subst AreChanged
      (sym (
        take_line-files noted l raw_line ∙ note_path-files begun l (strip_prefix (codes "--- ") l)))
      (begin_section-AreChanged s (starts_with (codes "diff --git ") l) h)

section_lines-AreChanged :
    (s : Sections) (ls : List Text) → AreChanged s.files → AreChanged (section_lines s ls).files
unfolding section_lines
section_lines-AreChanged s [] h = h
section_lines-AreChanged s (l ∷ ls) h =
    section_lines-AreChanged (section_line s l) ls (section_line-AreChanged s l h)

-- Whatever the diff of a turn holds, each file that is read from it has a name, and its text after
-- the change is not its text before.
pub parse_turn_unified_diff_files-AreChanged :
    (unified_diff : Text) → AreChanged (parse_turn_unified_diff_files unified_diff)
unfolding parse_turn_unified_diff_files
parse_turn_unified_diff_files-AreChanged unified_diff =
    let ls = split_inclusive unified_diff in
    finalize_section-AreChanged (section_lines no_sections ls)
      (section_lines-AreChanged no_sections ls tt)
