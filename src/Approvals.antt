-- ===== src/Approvals.antt =====
-- src/thread/features/approvals: the questions that the backend asks of the user, as permission
-- requests to the client, and what the user's choice becomes. What the client answers is
-- `Outcome`; a choice that this program does not know is `other_outcome`.
pub mod Command
pub mod UserInput
pub mod Permissions
use zed_codex_acp_cas.Common.{
  ℕ, Bool, true, false, not, ◌&&◌, List, [], ◌∷◌, ◌++◌, Option, none, some, ◌==◌, ltb, length, take,
  if◌then◌else◌, is_empty, unwrap_or,
}
use zed_codex_acp_cas.Common.Text.{Text, codes, text_eq, trim, is_some}
use zed_codex_acp_cas.Common.Decimal.{show}
use zed_codex_acp_cas.Common.Words.{join}

pub data PermissionOptionKind : Type 0 where
  allow_once_kind : PermissionOptionKind
  allow_always_kind : PermissionOptionKind
  reject_once_kind : PermissionOptionKind
  reject_always_kind : PermissionOptionKind

pub record PermissionOption : Type 0 where
  pub option_id : Text
  pub name : Text
  pub kind : PermissionOptionKind

pub data Outcome : Type 0 where
  cancelled : Outcome
  selected : (option_id : Text) → Outcome
  other_outcome : Outcome

abbrev pub allow_once : Text
allow_once = codes "allow-once"

abbrev pub reject_once : Text
reject_once = codes "reject-once"

abbrev pub cancel_turn : Text
cancel_turn = codes "cancel-turn"

abbrev pub none_of_the_above : Text
none_of_the_above = codes "None of the above"
