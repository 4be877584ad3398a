-- ===== src/Scenarios/Changes.antt =====
-- The diff of a turn that deletes a file of two lines, the second one a comment of SQL.
use zed_codex_acp_cas.Common.{[], ◌∷◌, some, ◌≡◌, refl, map, arith}
use zed_codex_acp_cas.Common.Text.{
  Text, codes, trim, split_inclusive, split_once, strip_prefix, starts_with, strip_newline,
  ends_with_newline, contains,
}
use zed_codex_acp_cas.Common.Decimal.{parse_unsigned}
use zed_codex_acp_cas.UnifiedDiff.{
  parse_unified_range, parse_unified_hunk_header, scan_line, scan_lines, parse_unified_diff_hunks,
  unified_diff_to_old_new, first_hunk_line,
}
use zed_codex_acp_cas.TurnDiff.{
  parse_turn_unified_diff_files, section_line, section_lines, finalize_section,
  normalize_unified_diff_path, record_turn_diff,
}
use zed_codex_acp_cas.TurnDiff.Files.{AreChanged, parse_turn_unified_diff_files-AreChanged}
use zed_codex_acp_cas.TurnDiff.History.{IsHistory, find_diff, record_turn_diff-IsHistory}
use zed_codex_acp_cas.Scenarios.Turns.{fresh}

abbrev deletion : Text
deletion =
    codes
      "diff --git a/q.sql b/q.sql\n--- a/q.sql\n+++ /dev/null\n@@ -1,2 +0,0 @@\n-select 1;\n--- old\n"

-- The deleted comment is taken for the path of the file.
deletion_path : map (λ f. f.path) (parse_turn_unified_diff_files deletion) ≡ codes "old" ∷ []
unfolding parse_turn_unified_diff_files section_lines section_line finalize_section
    normalize_unified_diff_path unified_diff_to_old_new parse_unified_diff_hunks scan_lines
    scan_line parse_unified_hunk_header parse_unified_range first_hunk_line parse_unsigned
    split_inclusive split_once strip_prefix starts_with strip_newline ends_with_newline contains
    trim
deletion_path = refl

parse_turn_unified_diff_files-AreChanged_example :
    AreChanged (parse_turn_unified_diff_files deletion)
parse_turn_unified_diff_files-AreChanged_example = parse_turn_unified_diff_files-AreChanged deletion

record_turn_diff-IsHistory_example :
    let after = (record_turn_diff 5 fresh (codes "t") deletion).turn_diff_history in
    IsHistory after × (find_diff (codes "t") after ≡ some deletion)
record_turn_diff-IsHistory_example =
    record_turn_diff-IsHistory 5 fresh (codes "t") deletion (omega arith, λ id. omega arith)
