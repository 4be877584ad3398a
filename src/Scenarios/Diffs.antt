-- ===== src/Scenarios/Diffs.antt =====
-- A diff of one hunk, applied.
use zed_codex_acp_cas.Common.{List, [], ◌∷◌, some, ◌≡◌, refl, ◌↔◌, inl, arith}
use zed_codex_acp_cas.Common.Text.{
  Text, codes, split_once, split_inclusive, starts_with, strip_newline, ends_with_newline,
}
use zed_codex_acp_cas.Common.Decimal.{parse_unsigned}
use zed_codex_acp_cas.UnifiedDiff.{
  Hunk, parse_unified_range, parse_unified_hunk_header, scan_line, scan_lines,
  parse_unified_diff_hunks, unified_diff_to_old_new, apply_unified_diff_to_text,
}
use zed_codex_acp_cas.UnifiedDiff.Applies.{AreHunks, Applies}
use zed_codex_acp_cas.UnifiedDiff.Applies.Refinement.{apply-iff-Applies}
use zed_codex_acp_cas.UnifiedDiff.Parsing.{parse-AreHunks}
use zed_codex_acp_cas.UnifiedDiff.Sides.{old_new-apply}

abbrev diff : Text
diff = codes "--- a/f\n+++ b/f\n@@ -1,2 +1,2 @@\n a\n-b\n+c\n"

abbrev hunk : Hunk
hunk = record {
  old_start = 1;
  new_start = 1;
  lines =
      record { kind = b' '; text = codes "a\n" }
      ∷ record { kind = b'-'; text = codes "b\n" }
      ∷ record { kind = b'+'; text = codes "c\n" }
      ∷ [];
}

diff_parses : parse_unified_diff_hunks diff ≡ some (hunk ∷ [])
unfolding parse_unified_diff_hunks scan_lines scan_line parse_unified_hunk_header
    parse_unified_range split_inclusive split_once parse_unsigned starts_with strip_newline
    ends_with_newline
diff_parses = refl

diff_sides : unified_diff_to_old_new diff ≡ some (codes "a\nb\n", codes "a\nc\n")
unfolding unified_diff_to_old_new
diff_sides = rw diff_parses refl

apply-iff-Applies_example :
    (apply_unified_diff_to_text (codes "a\nb\nd\n") diff ≡ some (codes "a\nc\nd\n")) ↔ (
      (hunks : List Hunk) × (parse_unified_diff_hunks diff ≡ some hunks)
      × Applies 0 (split_inclusive (codes "a\nb\nd\n")) hunks (codes "a\nc\nd\n"))
apply-iff-Applies_example = apply-iff-Applies (codes "a\nb\nd\n") diff (codes "a\nc\nd\n")

parse-AreHunks_example : AreHunks (hunk ∷ [])
parse-AreHunks_example = parse-AreHunks diff diff_parses

old_new-apply_example : apply_unified_diff_to_text (codes "a\nb\n") diff ≡ some (codes "a\nc\n")
old_new-apply_example =
    old_new-apply diff (codes "a\nb\n") (codes "a\nc\n") hunk diff_parses (omega arith)
      (refl, inl refl) diff_sides
