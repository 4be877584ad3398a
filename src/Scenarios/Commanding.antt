-- ===== src/Scenarios/Commanding.antt =====
-- Slash commands, and the diff of a range of turns.
use zed_codex_acp_cas.Common.{
  true, false, List, [], ◌∷◌, ◌++◌, Option, none, some, ◌≡◌, refl, arith,
}
use zed_codex_acp_cas.Common.Text.{Text, codes}
use zed_codex_acp_cas.Common.Maps.{get}
use zed_codex_acp_cas.Common.Words.{join}
use zed_codex_acp_cas.TurnDiff.{TurnUnifiedDiffFile}
use zed_codex_acp_cas.Commands.{
  last_n, undo, rename, diff, text_block, other_block, parse_diff_args, parse_session_command,
}
use zed_codex_acp_cas.Commands.Words.{IsWellFormed, parse_session_command-IsWellFormed}
use zed_codex_acp_cas.Commands.Diff.{scope_words, parse_diff_args-join}
use zed_codex_acp_cas.SessionDiff.{AggregatedFile, matches_path_filter, turn_loop}
use zed_codex_acp_cas.SessionDiff.Aggregate.{all_changes, changing_turns}
use zed_codex_acp_cas.SessionDiff.Summary.{IsSummary, get-turn_loop-IsSummary}

as_written : Text → Text
as_written t = t

-- `/rename` needs no blank behind it, unlike the other commands.
rename_runs_on :
    parse_session_command as_written (text_block (codes "/renamefoo") ∷ [])
    ≡ some (rename (some (codes "foo")))
unfolding parse_session_command
rename_runs_on = refl

undone :
    parse_session_command as_written
      (other_block ∷ text_block (codes " ") ∷ text_block (codes " /undo 3") ∷ [])
    ≡ some (undo 3)
unfolding parse_session_command
undone = refl

parse_session_command-IsWellFormed_example : IsWellFormed (undo 3)
parse_session_command-IsWellFormed_example =
    parse_session_command-IsWellFormed as_written
      (other_block ∷ text_block (codes " ") ∷ text_block (codes " /undo 3") ∷ []) (undo 3) undone

parse_diff_args-join_example :
    parse_diff_args (join (codes " ") (scope_words (last_n 3) ++ codes "src/a.rs" ∷ []))
    ≡ diff (last_n 3) (codes "src/a.rs" ∷ [])
parse_diff_args-join_example =
    parse_diff_args-join (last_n 3) (codes "src/a.rs" ∷ []) (omega arith, omega arith)
      (((refl, refl), refl), tt)

abbrev path : Text
path = codes "a.rs"

abbrev first_change : TurnUnifiedDiffFile
first_change = record {
  path = path;
  old_text = codes "x\n";
  new_text = codes "y\n";
  is_delete = false;
  line = none;
}

abbrev later_change : TurnUnifiedDiffFile
later_change = record {
  path = path;
  old_text = codes "y\n";
  new_text = codes "y\nz\n";
  is_delete = false;
  line = none;
}

abbrev turns : List (List TurnUnifiedDiffFile)
turns = (first_change ∷ []) ∷ [] ∷ (later_change ∷ later_change ∷ []) ∷ []

no_name : Text → Option Text
no_name t = none

passed : matches_path_filter no_name path (codes ".rs" ∷ []) ≡ true
unfolding matches_path_filter
passed = refl

changed : all_changes path turns ≡ first_change ∷ later_change ∷ later_change ∷ []
unfolding all_changes
changed = refl

get-turn_loop-IsSummary_example :
    (after : AggregatedFile) × (get path (turn_loop as_written no_name (codes ".rs" ∷ []) [] turns)
      ≡ some after)
    × IsSummary as_written path first_change
        (later_change ∷ later_change ∷ [])
        (changing_turns path turns)
        after
get-turn_loop-IsSummary_example =
    get-turn_loop-IsSummary as_written no_name (codes ".rs" ∷ []) path turns first_change
      (later_change ∷ later_change ∷ []) passed changed
