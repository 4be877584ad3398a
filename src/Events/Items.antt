-- ===== src/Events/Items.antt =====
-- src/thread/core/item_handlers.rs: what the start of an item does to the plan. The tool calls that
-- the items show are not modelled.
use zed_codex_acp_cas.Common.{Bool, List, [], ◌∷◌, if◌then◌else◌, any, map}
use zed_codex_acp_cas.Common.Text.{Text, codes, text_eq, contains}
use zed_codex_acp_cas.Thread.State.{ThreadInner, implementing, verifying}
use zed_codex_acp_cas.Plan.Fallback.{maybe_advance_fallback_plan}
use zed_codex_acp_cas.Preferences.{to_ascii_lowercase}

-- The kinds of an item that is started; `other_item` is one that is no tool.
pub data ThreadItem : Type 0 where
  command_execution : (command : Text) → ThreadItem
  file_change mcp_tool_call collab_agent_tool_call web_search image_view image_generation :
      ThreadItem
  other_item : ThreadItem

abbrev pub verification_markers : List Text
verification_markers =
    codes "cargo test"
    ∷ codes "cargo clippy"
    ∷ codes "cargo check"
    ∷ codes "go test"
    ∷ codes "pytest"
    ∷ codes "dotnet test"
    ∷ codes "mvn test"
    ∷ codes "gradle test"
    ∷ codes "jest"
    ∷ codes "vitest"
    ∷ codes "eslint"
    ∷ codes "ruff check"
    ∷ codes "tsc"
    ∷ []

unfoldable pub command_looks_like_verification : Text → Bool
unfolding contains
command_looks_like_verification command =
    any (λ marker. contains marker (map to_ascii_lowercase command)) verification_markers

unfoldable pub maybe_advance_fallback_for_started_item :
    ThreadInner → Text → ThreadItem → ThreadInner
unfolding maybe_advance_fallback_plan command_looks_like_verification
maybe_advance_fallback_for_started_item inner turn_id (command_execution command) =
    let started = maybe_advance_fallback_plan inner turn_id implementing in
    if command_looks_like_verification command
    then maybe_advance_fallback_plan started turn_id verifying
    else started
maybe_advance_fallback_for_started_item inner turn_id file_change =
    maybe_advance_fallback_plan inner turn_id implementing
maybe_advance_fallback_for_started_item inner turn_id mcp_tool_call =
    maybe_advance_fallback_plan inner turn_id implementing
maybe_advance_fallback_for_started_item inner turn_id collab_agent_tool_call =
    maybe_advance_fallback_plan inner turn_id implementing
maybe_advance_fallback_for_started_item inner turn_id web_search =
    maybe_advance_fallback_plan inner turn_id implementing
maybe_advance_fallback_for_started_item inner turn_id image_view =
    maybe_advance_fallback_plan inner turn_id implementing
maybe_advance_fallback_for_started_item inner turn_id image_generation =
    maybe_advance_fallback_plan inner turn_id implementing
maybe_advance_fallback_for_started_item inner turn_id other_item = inner

abbrev pub should_handle_turn_item : Text → Text → Bool
should_handle_turn_item expected_turn_id turn_id = text_eq turn_id expected_turn_id

-- The plan's part of `handle_item_started`, for an item that is no compaction.
unfoldable pub advance_for_item : ThreadInner → Text → Text → ThreadItem → ThreadInner
unfolding maybe_advance_fallback_for_started_item
advance_for_item inner expected_turn_id turn_id item =
    if should_handle_turn_item expected_turn_id turn_id
    then maybe_advance_fallback_for_started_item inner turn_id item
    else inner
