-- ===== src/Lib.antt =====
-- The core logic of the adapter between an ACP client and `codex app-server`.
--
-- The adapter starts `codex app-server` as a child process, sends it JSON-RPC requests and turns
-- its notifications into updates for the client. The parts that are modelled, and how they meet:
--
--   Transport (src/app_server.rs, src/app_server/reader.rs): a request is put into the slot of the
--     one waiting request and written to the child's input; the reader takes the child's output
--     line by line and gives each message to the waiting request, refuses it, or puts it into the
--     inbox that the turn loop reads (Transport/Reader). Transport/Policy
--     (src/app_server/request_policy.rs): how long a request may take.
--   Thread (src/thread.rs): the state of a session. Thread/State has the fields of `ThreadInner`
--     that the modelled operations use and the sends of src/thread/session/client.rs; Thread/Turn
--     is src/thread/core/inner_state.rs and src/thread/turn/state.rs, what a turn resets and which
--     completions and errors count; Thread/Reconnect is the reconnect progress of
--     src/thread/core/inner_state.rs and src/thread/features/notification/events/reconnect.rs and
--     the stall notice of src/thread/turn/execution.rs.
--   Plan (src/thread/features/plan): Plan/Line and Plan/Parse are parse.rs, a checklist read from
--     the text of a message; Plan/Fallback is fallback.rs, the plan that stands in for a turn
--     without one and moves through its phases.
--   Events: the handlers of the backend's notifications, src/thread/features/plan/events.rs,
--     src/thread/features/notification/events (turn.rs, deltas.rs) and
--     src/thread/core/terminal_updates.rs, and what the start of an item does to the plan
--     (src/thread/core/item_handlers.rs). They run on the state of Thread and move the plan of
--     Plan.
--   UnifiedDiff (src/thread/core/unified_diff.rs): diffs parsed, applied, and split into the text
--     before and after.
--   TurnDiff (src/thread/turn/diff.rs): the files of a turn's diff, and the bounded history of
--     diffs.
--   Jsonc (src/thread/session/selector_preferences/jsonc.rs): comments and trailing commas taken
--     out of the files of preferences. src/thread/session/display_maps/jsonc.rs has the same two
--     functions.
--   Limits (src/thread/session/config/limits.rs): when the user is warned of a rate limit.
--   DisplayMaps (src/thread/session/display_maps.rs): how the percentages of the limits are shown;
--     DisplayMaps/Validation is the check of the configuration and the choice of a summary.
--   Commands (src/thread/prompt/commands.rs): the commands that a prompt can be.
--   SessionDiff (src/thread/features/session/diff.rs): the command that shows the changes of past
--     turns, which reads the history of TurnDiff; SessionDiff/Shown is the card that is sent.
--   Approvals (src/thread/features/approvals): the options that a request offers and the decision
--     that an answer gives, for commands (command.rs), permissions and file changes
--     (permissions.rs, file_change.rs) and the questions to the user (user_input.rs).
--   TurnLoop (src/thread/turn/execution.rs): the loop that waits for a cancel, a decision or a
--     message until the turn has ended, with the approvals it holds and must answer; TurnLoop/Drain
--     (src/thread/notification/dispatch.rs) reads the late messages after a turn.
--   Preferences (src/thread/session/selector_preferences.rs and
--     src/thread/session/selector_preferences/materialize.rs): the models and efforts to show, how
--     preferences are applied to a session and what is written back (Preferences/Stored);
--     Preferences/Layout is src/thread/session/config/layout.rs and Preferences/Materialize also
--     has the choice of an effort of src/thread/session/config/reasoning.rs. Preferences/Options
--     (src/thread/session/config/model_selector.rs): the models that the selector offers.
--   Scenarios: small runs of these parts.
--
-- How the sources are read. A definition has the name of the function it models; a loop is a
-- recursion over the list of what the loop goes through, with the loop's variables as arguments or
-- a record; `&mut self` is the state as an argument and a result; an `async` function is the state
-- change between two `await`s, and what is sent to the client is a list of the state. A text is a
-- list of code points. Numbers are natural numbers; `usize` and `u64` are bounded where they are
-- parsed, the request id wraps around at 2 ^ 64, and counters that saturate do so. A clock is an
-- argument. The turn loop runs over the list of what its `select!` meets, one event a round.
--
-- Two recursions run on fuel. `show`, the decimal text of a number, is given the number itself and
-- needs no more. `drain_loop` needs max_messages * (max_idle_polls + 1) + 1 rounds at most, since
-- each round takes a message or is idle, and a message is what starts the count of idle rounds anew.
--
-- Parameters, of which nothing is assumed: `str::to_lowercase` (tables of Unicode), the parsers of
-- serde_json, the environment, the paths and file names of the file system, the answers of the
-- client, what a poll of the backend meets, and in the turn loop the handlers of messages that
-- belong to other parts. The writes of the responses to the backend are taken to succeed. Not
-- modelled: the ACP and app-server protocol libraries, processes, files, logging, the code of
-- prompt_args.rs, which is taken from another project, and the parts of the program that only pass
-- values between them.
pub mod Common
pub mod Jsonc
pub mod UnifiedDiff
pub mod TurnDiff
pub mod Thread
pub mod Plan
pub mod DisplayMaps
pub mod Commands
pub mod Approvals
pub mod SessionDiff
pub mod TurnLoop
pub mod Preferences
pub mod Events
pub mod Transport
pub mod Limits
pub mod Scenarios
