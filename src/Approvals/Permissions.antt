-- ===== src/Approvals/Permissions.antt =====
-- src/thread/features/approvals/permissions.rs and the decision of file_change.rs there: requests
-- for more permissions, and for changes of files. Paths are given as they are shown.
pub mod Grants
use zed_codex_acp_cas.Common.{
  Bool, true, false, List, [], ◌∷◌, ◌++◌, Option, none, some, if◌then◌else◌, is_empty,
}
use zed_codex_acp_cas.Common.Text.{Text, codes, text_eq, trim}
use zed_codex_acp_cas.Common.Words.{join}
use zed_codex_acp_cas.Approvals.{
  PermissionOption, allow_once_kind, allow_always_kind, reject_once_kind, Outcome, cancelled,
  selected, other_outcome, allow_once, reject_once,
}

abbrev pub approve_for_session : Text
approve_for_session = codes "approved-for-session"

abbrev pub approve_for_turn : Text
approve_for_turn = codes "approved"

abbrev pub deny_request : Text
deny_request = codes "abort"

pub record NetworkPermissions : Type 0 where
  pub enabled : Option Bool

pub record FileSystemPermissions : Type 0 where
  pub read : Option (List Text)
  pub write : Option (List Text)

pub record RequestPermissionProfile : Type 0 where
  pub network : Option NetworkPermissions
  pub file_system : Option FileSystemPermissions

pub record GrantedPermissionProfile : Type 0 where
  pub network : Option NetworkPermissions
  pub file_system : Option FileSystemPermissions

pub data PermissionGrantScope : Type 0 where
  turn_scope : PermissionGrantScope
  session_scope : PermissionGrantScope

-- `strict_auto_review` is always `None`.
pub record PermissionsResponse : Type 0 where
  pub permissions : GrantedPermissionProfile
  pub scope : PermissionGrantScope

abbrev pub permission_options : List PermissionOption
permission_options =
    (record {
      option_id = approve_for_session;
      name = codes "Yes, for session";
      kind = allow_always_kind;
    })
    ∷ (record { option_id = approve_for_turn; name = codes "Yes"; kind = allow_once_kind })
    ∷ (record { option_id = deny_request; name = codes "No"; kind = reject_once_kind })
    ∷ []

abbrev pub granted_permissions_from_request : RequestPermissionProfile → GrantedPermissionProfile
granted_permissions_from_request requested = record {
  network = requested.network;
  file_system = requested.file_system;
}

abbrev pub rejected_permissions_response : PermissionsResponse
rejected_permissions_response = record {
  permissions = record { network = none; file_system = none };
  scope = turn_scope;
}

unfoldable pub approval_response_from_outcome :
    Outcome → RequestPermissionProfile → PermissionsResponse
approval_response_from_outcome (selected option_id) requested =
    if text_eq option_id approve_for_session
    then record { permissions = granted_permissions_from_request requested; scope = session_scope }
    else if text_eq option_id approve_for_turn
    then record { permissions = granted_permissions_from_request requested; scope = turn_scope }
    else rejected_permissions_response
approval_response_from_outcome cancelled requested = rejected_permissions_response
approval_response_from_outcome other_outcome requested = rejected_permissions_response

-- A line for the paths of an access, if there are any.
unfoldable pub access_line : Text → Option (List Text) → List Text
unfolding join
access_line title none = []
access_line title (some []) = []
access_line title (some (path ∷ paths)) = (title ++ join (codes ", ") (path ∷ paths)) ∷ []

unfoldable pub file_system_lines : Option FileSystemPermissions → List Text
unfolding access_line
file_system_lines none = []
file_system_lines (some file_system) =
    access_line (codes "File system read: ") file_system.read
    ++ access_line (codes "File system write: ") file_system.write

abbrev pub show_bool : Bool → Text
show_bool true = codes "true"
show_bool false = codes "false"

abbrev pub enabled_line : Text → Option Bool → List Text
enabled_line title none = []
enabled_line title (some enabled) = (title ++ show_bool enabled) ∷ []

abbrev pub network_lines : Option NetworkPermissions → List Text
network_lines none = []
network_lines (some network) = enabled_line (codes "Network access: ") network.enabled

unfoldable pub reason_line : Option Text → List Text
unfolding trim
reason_line none = []
reason_line (some reason) = if is_empty (trim reason) then [] else trim reason ∷ []

unfoldable pub permission_request_content : Option Text → RequestPermissionProfile → List Text
unfolding reason_line file_system_lines
permission_request_content reason permissions =
    reason_line reason
    ++ (file_system_lines permissions.file_system ++ network_lines permissions.network)

pub data FileChangeApprovalDecision : Type 0 where
  accept_change : FileChangeApprovalDecision
  decline_change : FileChangeApprovalDecision

abbrev pub file_change_options : List PermissionOption
file_change_options =
    (record { option_id = allow_once; name = codes "Yes"; kind = allow_once_kind })
    ∷ (record { option_id = reject_once; name = codes "No"; kind = reject_once_kind })
    ∷ []

unfoldable pub file_change_approval_decision_from_outcome : Outcome → FileChangeApprovalDecision
file_change_approval_decision_from_outcome cancelled = decline_change
file_change_approval_decision_from_outcome (selected option_id) =
    if text_eq option_id allow_once then accept_change else decline_change
file_change_approval_decision_from_outcome other_outcome = decline_change
