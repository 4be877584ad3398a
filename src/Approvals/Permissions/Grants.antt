-- ===== src/Approvals/Permissions/Grants.antt =====
-- A permission is granted only by an option that allows it.
use zed_codex_acp_cas.Common.{
  Bool, true, false, List, [], ◌∷◌, Option, none, ◌≡◌, refl, inl, inr, if◌then◌else◌, ◌||◌,
  Bool-cases,
}
use zed_codex_acp_cas.Common.Text.{text_eq, text_eq_iff}
use zed_codex_acp_cas.Approvals.{
  PermissionOptionKind, allow_once_kind, allow_always_kind, reject_once_kind, reject_always_kind,
  PermissionOption, Outcome, cancelled, selected, other_outcome,
}
use zed_codex_acp_cas.Approvals.Permissions.{
  approve_for_session, approve_for_turn, deny_request, NetworkPermissions, FileSystemPermissions,
  RequestPermissionProfile, PermissionGrantScope, turn_scope, session_scope, PermissionsResponse,
  permission_options, approval_response_from_outcome,
}

-- The kind of an option allows what is asked, or allows it for good.
abbrev pub allows : PermissionOptionKind → Bool
allows allow_once_kind = true
allows allow_always_kind = true
allows reject_once_kind = false
allows reject_always_kind = false

abbrev pub allows_always : PermissionOptionKind → Bool
allows_always allow_once_kind = false
allows_always allow_always_kind = true
allows_always reject_once_kind = false
allows_always reject_always_kind = false

-- The outcome is the choice of one of the options, and of one whose kind passes the test.
abbrev pub chooses : (PermissionOptionKind → Bool) → List PermissionOption → Outcome → Bool
chooses test [] outcome = false
chooses test (o ∷ os) (selected id) =
    (if text_eq id o.option_id then test o.kind else false) || chooses test os (selected id)
chooses test (o ∷ os) cancelled = false
chooses test (o ∷ os) other_outcome = false

-- The response gives just this access to the network and the files, for this scope.
abbrev pub IsResponse :
    Option NetworkPermissions
    → Option FileSystemPermissions
    → PermissionGrantScope
    → PermissionsResponse
    → Type 0
IsResponse network file_system scope response =
    (response.permissions.network ≡ network)
    × (response.permissions.file_system ≡ file_system)
    × (response.scope ≡ scope)

-- The access to the network and that to the files that were requested are granted, as they were
-- requested, if the user chose an option that allows; in all other cases, a cancelled request and
-- an id that was not offered included, neither is granted. The grant is for the session if the
-- option allows always, and else for the turn.
pub approval_response_from_outcome-IsResponse :
    (outcome : Outcome) (requested : RequestPermissionProfile)
    → IsResponse
        (if chooses allows permission_options outcome then requested.network else none)
        (if chooses allows permission_options outcome then requested.file_system else none)
        (if chooses allows_always permission_options outcome then session_scope else turn_scope)
        (approval_response_from_outcome outcome requested)
unfolding approval_response_from_outcome
approval_response_from_outcome-IsResponse cancelled requested = (refl, refl, refl)
approval_response_from_outcome-IsResponse other_outcome requested = (refl, refl, refl)
approval_response_from_outcome-IsResponse (selected id) requested =
    elim (Bool-cases (text_eq id approve_for_session)) [
      | inl y ↦ let same = (text_eq_iff id approve_for_session).0 y in rw same (refl, refl, refl)
      | inr n ↦ elim (Bool-cases (text_eq id approve_for_turn)) [
        | inl y ↦ let same = (text_eq_iff id approve_for_turn).0 y in rw same (refl, refl, refl)
        | inr k ↦ elim (Bool-cases (text_eq id deny_request)) [
          | inl d ↦ rw (n, k, d) (refl, refl, refl)
          | inr e ↦ rw (n, k, e) (refl, refl, refl)
        ]
      ]
    ]
