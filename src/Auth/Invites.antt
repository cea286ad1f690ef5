-- ===== src/Auth/Invites.antt =====
-- apps/api/src/modules/auth/service.ts: the acceptance of an invite to a workspace.
use vowgrid_api.Common.{
  ℕ, String, Bool, ◌||◌, Option, none, some, map, leb, ◌==◌, str_eq, or_default,
}
use vowgrid_api.Env.{Env}
use vowgrid_api.Json.{text, object, end, field}
use vowgrid_api.Rows.{User, WorkspaceMembership, user}
use vowgrid_api.Auth.Rows.{WorkspaceInvite, UserSession}
use vowgrid_api.Auth.Security.{hash_opaque_token, hash_password}
use vowgrid_api.Auth.Tables.{
  is_some, truthy, user_is, user_by_email, membership_is, role_name, normalize_email, put_auth,
  put_memberships, update_user, create_session,
}
use vowgrid_api.Auth.Memberships.{
  MembershipRecord, list_membership_records, serialize_available_workspace,
}
use vowgrid_api.Auth.Sessions.{to_authenticated_user, membership_record}
use vowgrid_api.Auth.Signup.{AuthSuccess, build_auth_success_response, create_user}
use vowgrid_api.World.{
  Action, validation, record_missing, ◌>>=◌, ◌>>◌, pure, query, or_raise, raise_if, ask, settle,
  transaction,
}
use vowgrid_api.Audits.{emit_audit_event}

abbrev pub invite_by : String → WorkspaceInvite → Bool
invite_by hash i = str_eq i.token_hash hash

abbrev pub invite_is : ℕ → WorkspaceInvite → Bool
invite_is id i = i.id == id

module _ (env : Env) where
  -- A new account, for which the name and the password are asked, or the one of the email.
  unfoldable pub invited_user :
      WorkspaceInvite → String → Option User → Option String → Option String → ℕ → Action env User
  unfolding create_user hash_password update_user
  invited_user invite email none given_name given_password now = do
    name ←
        or_raise (truthy given_name)
          (validation "Name and password are required when accepting an invite for a new account.")
    password ←
        or_raise (truthy given_password)
          (validation "Name and password are required when accepting an invite for a new account.")
    salt ← ask env.random_salt
    create_user env email (env.trim name) invite.role (some (hash_password env password salt))
        invite.workspace_id (some now)
  invited_user invite email (some u) given_name given_password now =
      update_user env u.id
        (λ v. record v { email_verified_at = some (or_default u.email_verified_at now) })
      >> pure u

  -- `workspaceMembership.upsert`
  unfoldable pub join_workspace : WorkspaceInvite → ℕ → Action env (Unit {0})
  join_workspace invite user_id = do
    found ← query λ w. env.db.find_first (membership_is user_id invite.workspace_id) w.memberships
    elim found [
      | some m ↦ put_memberships (
          env.db.update (membership_is user_id invite.workspace_id)
            (λ (m : WorkspaceMembership). record m { role = invite.role; disabled_at = none }))
      | none ↦ put_memberships (
          env.db.create (record {
            user_id = user_id;
            workspace_id = invite.workspace_id;
            role = invite.role;
            disabled_at = none;
          }))
    ]

  -- The transaction of an acceptance.
  unfoldable pub accept_invite :
      WorkspaceInvite
      → String
      → Option User
      → Option String
      → Option String
      → ℕ
      → Action env (User × MembershipRecord × (String × UserSession))
  unfolding invited_user join_workspace create_session
  accept_invite invite email existing given_name given_password now = do
    u ← invited_user invite email existing given_name given_password now
    join_workspace invite u.id
    put_auth λ a. record a {
      invites =
          env.db.update (invite_is invite.id)
            (λ (i : WorkspaceInvite). record i { accepted_at = some now }) a.invites;
    }
    created ← create_session env u.id invite.workspace_id
    found ← query λ w. env.db.find_first (user_is u.id) w.users
    refreshed ← or_raise found record_missing
    joined ← query (membership_record env u.id invite.workspace_id)
    membership ← or_raise joined record_missing
    pure (refreshed, membership, created)

  unfoldable pub accept_workspace_invite :
      String → Option String → Option String → Action env AuthSuccess
  unfolding hash_opaque_token normalize_email accept_invite list_membership_records
      serialize_available_workspace build_auth_success_response to_authenticated_user
  accept_workspace_invite token given_name given_password = do
    hash ← settle (hash_opaque_token env token)
    found ← query λ w. env.db.find_first (invite_by hash) w.auth.invites
    invite ← or_raise found (validation "Invalid or expired workspace invite.")
    checked_at ← ask env.clock
    raise_if
        (is_some invite.revoked_at
          || is_some invite.accepted_at
          || leb invite.expires_at checked_at)
        (validation "Invalid or expired workspace invite.")
    let email = normalize_email env invite.email
    existing ← query λ w. env.db.find_first (user_by_email email) w.users
    now ← ask env.clock
    result ← transaction (accept_invite invite email existing given_name given_password now)
    let (u, joined, created) = result
    records ← list_membership_records env u.id u.workspace_id
    emit_audit_event env (record {
      action = "workspace.invite.accepted";
      entity_type = "workspace_invite";
      entity_id = invite.id;
      actor_type = user;
      actor_id = env.id_text u.id;
      workspace_id = invite.workspace_id;
      metadata =
          some
            (object (field "email" (text email) (field "role" (text (role_name invite.role)) end)));
    })
    pure (
        build_auth_success_response
          (to_authenticated_user u joined.membership.role joined.membership.workspace_id)
          joined.workspace created (map (serialize_available_workspace u.workspace_id) records))
