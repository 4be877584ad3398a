-- ===== src/Commands.antt =====
-- src/thread/prompt/commands.rs: the slash commands that a prompt can be.
pub mod Words
pub mod Diff
use zed_codex_acp_cas.Common.{
  ℕ, ◌+◌, ◌≤◌, Bool, true, false, not, ◌&&◌, ◌||◌, List, [], ◌∷◌, ◌++◌, Option, none, some, ltb,
  ◌==◌, if◌then◌else◌, length, take, drop, is_empty, unwrap_or, ◌>>=◌,
}
use zed_codex_acp_cas.Common.Text.{
  Text, codes, text_eq, is_whitespace, trim, strip_prefix, starts_with,
}
use zed_codex_acp_cas.Common.Decimal.{parse_u32, parse_unsigned}
use zed_codex_acp_cas.Common.Words.{split_whitespace, join}
use zed_codex_acp_cas.Thread.State.{ModeKind}
use zed_codex_acp_cas.Plan.Parse.{parse_collaboration_mode}

pub data DiffScope : Type 0 where
  last_turn : DiffScope
  session : DiffScope
  last_n : (count : ℕ) → DiffScope

pub data SessionCommand : Type 0 where
  init : (args : Option Text) → SessionCommand
  review : (instructions : Option Text) → SessionCommand
  archive : (thread_id : Option Text) → SessionCommand
  unarchive : (thread_id : Option Text) → SessionCommand
  compact : SessionCommand
  undo : (num_turns : ℕ) → SessionCommand
  plan_mode : (raw_value : Option Text) (mode : Option ModeKind) → SessionCommand
  plan_prompt : (prompt : Text) → SessionCommand
  fork : (args : Option Text) → SessionCommand
  rename : (name : Option Text) → SessionCommand
  status : (args : Option Text) → SessionCommand
  diff : (scope : DiffScope) (paths : List Text) → SessionCommand

-- A block of a prompt; only texts can be commands.
pub data ContentBlock : Type 0 where
  text_block : (text : Text) → ContentBlock
  other_block : ContentBlock

unfoldable pub extract_command_text : List ContentBlock → Option Text
unfolding trim starts_with
extract_command_text [] = none
extract_command_text (other_block ∷ prompt) = extract_command_text prompt
extract_command_text (text_block text ∷ prompt) =
    let later = extract_command_text prompt in
    if is_empty (trim text)
    then later
    else if starts_with (codes "/") (trim text)
    then some (trim text)
    else none

-- What follows the name of a command: nothing, or a blank first.
abbrev pub rest_of_command : Text → Option Text
unfolding trim
rest_of_command [] = some []
rest_of_command (c ∷ cs) = if is_whitespace c then some (trim (c ∷ cs)) else none

unfoldable pub slash_command_rest : Text → Text → Option Text
unfolding strip_prefix
slash_command_rest text command = strip_prefix command text >>= rest_of_command

-- `(!rest.is_empty()).then(..)`.
abbrev pub nonempty : Text → Option Text
nonempty [] = none
nonempty (c ∷ cs) = some (c ∷ cs)

-- `filter(|count| *count > 0)`.
abbrev pub if_positive : ℕ → Option ℕ
if_positive count = if ltb 0 count then some count else none

-- The count behind `--last`, if it is a positive number.
unfoldable pub positive_count : Text → Option ℕ
unfolding parse_unsigned
positive_count value = parse_u32 value >>= if_positive

abbrev pub scope_of_count : ℕ → DiffScope
scope_of_count count = if count == 1 then last_turn else last_n count

-- The loop over the tokens.
unfoldable pub diff_tokens : DiffScope → List Text → List Text → DiffScope × List Text
unfolding positive_count
diff_tokens scope paths [] = (scope, paths)
diff_tokens scope paths (token ∷ []) =
    if text_eq token (codes "--session") || text_eq token (codes "--all")
    then (session, paths)
    else (scope, paths ++ token ∷ [])
diff_tokens scope paths (token ∷ next ∷ tokens) =
    let whole = diff_tokens session paths (next ∷ tokens) in
    let as_path = diff_tokens scope (paths ++ token ∷ []) (next ∷ tokens) in
    let counted : DiffScope × List Text = elim (positive_count next) [
      | none ↦ as_path
      | some count ↦ diff_tokens (scope_of_count count) paths tokens
    ] in
    if text_eq token (codes "--session") || text_eq token (codes "--all")
    then whole
    else if text_eq token (codes "--last")
    then counted
    else as_path

abbrev pub diff_command : DiffScope × List Text → SessionCommand
diff_command (scope, paths) = diff scope paths

unfoldable pub parse_diff_args : Text → SessionCommand
unfolding diff_tokens split_whitespace
parse_diff_args rest = diff_command (diff_tokens last_turn [] (split_whitespace rest))

-- The number of turns of `/undo`: the first argument, or 1.
unfoldable pub undo_turns : List Text → ℕ
unfolding positive_count
undo_turns [] = 1
undo_turns (value ∷ parts) = unwrap_or (positive_count value) 1

-- The commands that are the first word of the text.
unfoldable pub word_command : List Text → Option SessionCommand
unfolding undo_turns
word_command [] = none
word_command (first ∷ parts) =
    if text_eq first (codes "/compact")
    then some compact
    else if text_eq first (codes "/undo")
    then some (undo (undo_turns parts))
    else none

-- `map` on `Option`.
abbrev pub map_rest : (Text → SessionCommand) → Option Text → Option SessionCommand
map_rest f none = none
map_rest f (some rest) = some (f rest)

-- The first test that succeeds returns.
unfoldable pub first_some : List (Option SessionCommand) → Option SessionCommand
first_some [] = none
first_some (none ∷ later) = first_some later
first_some (some command ∷ later) = some command

module _ (to_lowercase : Text → Text) where
  abbrev pub mode_or_prompt : Text → Text → Option ModeKind → SessionCommand
  mode_or_prompt rest first none = plan_prompt rest
  mode_or_prompt rest first (some mode) = plan_mode (some (to_lowercase first)) (some mode)

  -- `/plan` with one word that names a mode switches to it; anything else is a prompt.
  unfoldable pub plan_word : Text → List Text → SessionCommand
  unfolding parse_collaboration_mode
  plan_word rest (first ∷ []) =
      mode_or_prompt rest first (parse_collaboration_mode (to_lowercase first))
  plan_word rest words = plan_prompt rest

  unfoldable pub plan_command : Text → SessionCommand
  unfolding split_whitespace plan_word
  plan_command rest =
      let words = split_whitespace rest in
      if is_empty rest then plan_mode none none else plan_word rest words

  -- What each test of the function, in their order, makes of the text.
  unfoldable pub readings : Text → List (Option SessionCommand)
  unfolding starts_with plan_command trim strip_prefix slash_command_rest split_whitespace
      parse_diff_args word_command
  readings text =
      (if text_eq text (codes "/plan") || starts_with (codes "/plan ") text
        then some (plan_command (trim (drop 5 text)))
        else none)
      ∷ map_rest (λ rest. rename (nonempty (trim rest))) (strip_prefix (codes "/rename") text)
      ∷ map_rest (λ rest. fork (nonempty rest)) (slash_command_rest text (codes "/fork"))
      ∷ map_rest (λ rest. review (nonempty rest)) (slash_command_rest text (codes "/review"))
      ∷ map_rest (λ rest. init (nonempty rest)) (slash_command_rest text (codes "/init"))
      ∷ map_rest (λ rest. status (nonempty rest)) (slash_command_rest text (codes "/status"))
      ∷ map_rest (λ rest. archive (nonempty (trim rest)))
          (slash_command_rest text (codes "/archive"))
      ∷ map_rest (λ rest. unarchive (nonempty (trim rest)))
          (slash_command_rest text (codes "/unarchive"))
      ∷ map_rest parse_diff_args (slash_command_rest text (codes "/diff"))
      ∷ word_command (split_whitespace text)
      ∷ []

  unfoldable pub parse_session_command : List ContentBlock → Option SessionCommand
  unfolding extract_command_text readings first_some
  parse_session_command prompt =
      extract_command_text prompt >>= (λ text. first_some (readings text))

abbrev pub session_command_name : SessionCommand → Text
session_command_name (init args) = codes "init"
session_command_name (status args) = codes "status"
session_command_name (review instructions) = codes "review"
session_command_name (archive thread_id) = codes "archive"
session_command_name (unarchive thread_id) = codes "unarchive"
session_command_name compact = codes "compact"
session_command_name (undo num_turns) = codes "undo"
session_command_name (plan_mode raw_value mode) = codes "plan"
session_command_name (plan_prompt prompt) = codes "plan"
session_command_name (fork args) = codes "fork"
session_command_name (rename name) = codes "rename"
session_command_name (diff scope paths) = codes "diff"

abbrev pub shorten : Text → Text
shorten compacted =
    if is_empty compacted
    then codes "(no preview)"
    else if ltb 120 (length compacted)
    then take 117 compacted ++ codes "..."
    else compacted

unfoldable pub normalize_preview : Text → Text
unfolding split_whitespace join
normalize_preview preview = shorten (join (codes " ") (split_whitespace preview))
