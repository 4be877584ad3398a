-- ===== src/SessionDiff/Shown.antt =====
-- src/thread/features/session/diff.rs: what `/diff` sends to the client. The card is sent twice,
-- in progress and completed, with the same title, places and content.
use zed_codex_acp_cas.Common.{
  ℕ, ◌+◌, not, ◌&&◌, List, [], ◌∷◌, ◌++◌, Option, none, some, ltb, ◌==◌, if◌then◌else◌, length,
  is_empty,
}
use zed_codex_acp_cas.Common.Text.{Text, codes}
use zed_codex_acp_cas.Common.Decimal.{show}
use zed_codex_acp_cas.Common.Sets.{insert, remove}
use zed_codex_acp_cas.Common.Words.{join}
use zed_codex_acp_cas.Thread.State.{ThreadInner, TurnDiffRecord, send_agent_text}
use zed_codex_acp_cas.Commands.{DiffScope, last_turn, session, last_n}
use zed_codex_acp_cas.SessionDiff.{
  AggregatedFile, select_records, normalize_path_filters, aggregate_files,
}

abbrev pub plural : ℕ → Text
plural count = if count == 1 then [] else codes "s"

unfoldable pub scope_label : DiffScope → ℕ → Text
unfolding show
scope_label last_turn record_count = codes "last turn"
scope_label session record_count =
    codes "session ("
    ++ (show record_count ++ (codes " turn" ++ (plural record_count ++ codes ")")))
scope_label (last_n count) record_count =
    codes "last "
    ++ (show count
        ++ (codes " turn"
            ++ (plural count ++ (codes " (showing " ++ (show record_count ++ codes ")")))))

abbrev pub total_added : List AggregatedFile → ℕ
total_added [] = 0
total_added (file ∷ files) = file.added_lines + total_added files

abbrev pub total_removed : List AggregatedFile → ℕ
total_removed [] = 0
total_removed (file ∷ files) = file.removed_lines + total_removed files

unfoldable pub file_summary : AggregatedFile → Text
unfolding show
file_summary file =
    codes "- "
    ++ ((if file.is_delete then codes "[deleted] " else [])
        ++ (codes "`"
            ++ (file.display_path
                ++ (codes "` +"
                    ++ (show file.added_lines
                        ++ (codes " / -"
                            ++ (show file.removed_lines
                                ++ ((if ltb 1 file.touching_turns
                                      then codes " ("
                                        ++ (show file.touching_turns ++ codes " turns)")
                                      else [])
                                    ++ codes "\n"))))))))

unfoldable pub file_summaries : List AggregatedFile → Text
unfolding file_summary
file_summaries [] = []
file_summaries (file ∷ files) = file_summary file ++ file_summaries files

unfoldable pub build_summary_text : DiffScope → ℕ → List AggregatedFile → Text
unfolding scope_label file_summaries show
build_summary_text scope record_count files =
    codes "Diff for "
    ++ (scope_label scope record_count
        ++ (codes ": "
            ++ (show (length files)
                ++ (codes " file"
                    ++ (plural (length files)
                        ++ (codes ", +"
                            ++ (show (total_added files)
                                ++ (codes " / -"
                                    ++ (show (total_removed files)
                                        ++ (codes "\n" ++ file_summaries files))))))))))

unfoldable pub diff_card_title : DiffScope → ℕ → Text
unfolding show
diff_card_title last_turn record_count = codes "Last turn diff"
diff_card_title session record_count =
    codes "Session diff ("
    ++ (show record_count ++ (codes " turn" ++ (plural record_count ++ codes ")")))
diff_card_title (last_n count) record_count =
    codes "Last " ++ (show count ++ (codes " turn diff" ++ plural count))

-- The change of a file on the card: a new file has no old text.
pub record DiffContent : Type 0 where
  pub path : Text
  pub old_text : Option Text
  pub new_text : Text

pub record DiffCard : Type 0 where
  pub tool_call_id : Text
  pub title : Text
  pub locations : List Text
  pub content : List DiffContent

abbrev pub diff_content : AggregatedFile → DiffContent
diff_content file = record {
  path = file.absolute_path;
  old_text = if is_empty file.old_text && not file.is_delete then none else some file.old_text;
  new_text = file.new_text;
}

abbrev pub locations_of : List AggregatedFile → List Text
locations_of [] = []
locations_of (file ∷ files) = file.absolute_path ∷ locations_of files

abbrev pub contents_of : List AggregatedFile → List DiffContent
contents_of [] = []
contents_of (file ∷ files) = diff_content file ∷ contents_of files

-- The clock's milliseconds tell one call from the next.
unfoldable pub next_diff_tool_call_key : ThreadInner → ℕ → Text
unfolding show
next_diff_tool_call_key inner nonce =
    codes "diff-command-" ++ (show (length inner.turn_diff_history) ++ (codes "-" ++ show nonce))

abbrev pub no_records_message : DiffScope → Text
no_records_message last_turn =
    codes "No diff to show yet. `/diff` becomes available after a turn finishes with file changes."
no_records_message session =
    codes "No diffs recorded in this session yet. Finish a turn with file changes first."
no_records_message (last_n count) = codes "Not enough turn diffs recorded yet for this range."

unfoldable pub no_files_message : List Text → Text
unfolding join
no_files_message filter =
    if is_empty filter
    then codes "Recorded turn diffs contained no net file changes (all changes cancel out)."
    else codes "No recorded file changes match the provided path filter: "
      ++ join (codes ", ") filter

-- The summary and the card, and the tool call that is under way between its two sends.
unfoldable pub show_card :
    ThreadInner → DiffScope → ℕ → ℕ → List AggregatedFile → ThreadInner × Option DiffCard
unfolding next_diff_tool_call_key diff_card_title build_summary_text insert remove
show_card inner scope record_count nonce files =
    let key = next_diff_tool_call_key inner nonce in
    let told = send_agent_text inner (build_summary_text scope record_count files) in
    (
      record told { started_tool_calls = remove key (insert key told.started_tool_calls) },
      some (record {
        tool_call_id = key;
        title = diff_card_title scope record_count;
        locations = locations_of files;
        content = contents_of files;
      }),
    )

module _ (resolve : Text → Text) (file_name : Text → Option Text) where
  unfoldable pub show_files :
      ThreadInner → DiffScope → ℕ → List Text → List TurnDiffRecord → ThreadInner × Option DiffCard
  unfolding aggregate_files no_files_message show_card
  show_files inner scope nonce filter records =
      let files = aggregate_files resolve file_name filter records in
      if is_empty files
      then (send_agent_text inner (no_files_message filter), none)
      else show_card inner scope (length records) nonce files

  unfoldable pub handle_diff_command :
      ThreadInner → DiffScope → List Text → ℕ → ThreadInner × Option DiffCard
  unfolding select_records normalize_path_filters show_files
  handle_diff_command inner scope paths nonce =
      let records = select_records inner.turn_diff_history scope in
      if is_empty records
      then (send_agent_text inner (no_records_message scope), none)
      else show_files inner scope nonce (normalize_path_filters paths) records
