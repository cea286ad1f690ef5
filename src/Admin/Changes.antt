-- ===== src/Admin/Changes.antt =====
-- apps/api/src/modules/workspace-admin/service.ts: members that are created, updated, disabled, enabled
-- and anonymized.
use vowgrid_api.Common.{ℕ, String, ◌<>◌, not, ◌&&◌, Option, none, some, ◌==◌, str_eq, if◌then◌else◌}
use vowgrid_api.Env.{Env}
use vowgrid_api.Json.{text, object, end, field}
use vowgrid_api.Rows.{is_disabled, User, WorkspaceMembership, Role}
use vowgrid_api.Auth.Rows.{
  PasswordResetToken, EmailVerificationToken, WorkspaceInvite, OauthAccount,
}
use vowgrid_api.Auth.Security.{hash_password}
use vowgrid_api.Auth.Tables.{
  is_some, truthy, role_name, user_is, user_by_email, open_session_of, open_session_in, revoked,
  normalize_email, put_auth, put_sessions, update_user,
}
use vowgrid_api.Auth.Signup.{create_user, create_membership}
use vowgrid_api.Billing.Entitlements.{assert_can_manage_internal_users}
use vowgrid_api.World.{
  Action, forbidden, ◌>>=◌, ◌>>◌, pure, query, raise_if, when, ask, transaction,
}
use vowgrid_api.Audits.{emit_audit_event}
use vowgrid_api.Admin.Keys.{time_field}
use vowgrid_api.Admin.Members.{
  Member, MemberResponse, serialize_workspace_member, is_owner, get_workspace_membership_or_throw,
  get_member, update_membership, assert_member_can_be_disabled, assert_member_can_be_anonymized,
  realign_user_default_workspace, assert_workspace_membership_does_not_exist, member_event,
  email_and_role,
}

pub record CreateMemberInput : Type 0 where
  pub email : String
  pub name : String
  pub password : String
  pub role : Role

pub record UpdateMemberInput : Type 0 where
  pub name : Option String
  pub role : Option Role

module _ (env : Env) where
  -- The account of the email: a new one, one that gets its first password, or one that is there.
  unfoldable pub member_account : CreateMemberInput → String → String → ℕ → Action env User
  unfolding create_user update_user
  member_account input email password_hash ws = do
    found ← query λ w. env.db.find_first (user_by_email email) w.users
    elim found [
      | none ↦ create_user env email (env.trim input.name) input.role (some password_hash) ws none
      | some u ↦
          if not (is_some (truthy u.password_hash))
          then update_user env u.id
              (λ v. record v { name = env.trim input.name; password_hash = some password_hash })
          else (when (u.workspace_id == ws) (
                update_user env u.id
                  (λ v. record v { name = env.trim input.name; role = input.role })
                >> pure tt)
              >> pure u)
    ]

  -- The transaction: the account, its membership, and both as they are then.
  unfoldable pub add_member : CreateMemberInput → String → String → ℕ → Action env Member
  unfolding member_account create_membership get_member
  add_member input email password_hash ws = do
    u ← member_account input email password_hash ws
    create_membership env u.id ws input.role
    get_member env u.id ws

  unfoldable pub create_workspace_member :
      ℕ → CreateMemberInput → String → Action env MemberResponse
  unfolding assert_can_manage_internal_users assert_workspace_membership_does_not_exist
      normalize_email hash_password add_member serialize_workspace_member
  create_workspace_member ws input actor_id = do
    assert_can_manage_internal_users env ws
    let email = normalize_email env input.email
    assert_workspace_membership_does_not_exist env email ws
    salt ← ask env.random_salt
    m ← transaction (add_member input email (hash_password env input.password salt) ws)
    emit_audit_event env (
        member_event env "workspace.member.created" m.account.id ws actor_id
          (email_and_role env m.account.email m.membership.role))
    pure (serialize_workspace_member m)

  -- The role in the workspace, and that of the account where the workspace is its default.
  unfoldable pub change_role : ℕ → ℕ → Role → Action env (Unit {0})
  unfolding update_membership update_user
  change_role user_id ws role = do
    update_membership env user_id ws (λ (m : WorkspaceMembership). record m { role = role })
    found ← query λ w. env.db.find_first (user_is user_id) w.users
    elim found [
      | none ↦ pure tt
      | some u ↦
          when (u.workspace_id == ws)
            (update_user env user_id (λ v. record v { role = role }) >> pure tt)
    ]

  -- The transaction of an update.
  unfoldable pub change_member : ℕ → ℕ → UpdateMemberInput → Action env Member
  unfolding update_user change_role get_member
  change_member user_id ws input = do
    elim input.name [
      | none ↦ pure tt
      | some name ↦ update_user env user_id (λ v. record v { name = env.trim name }) >> pure tt
    ]
    elim input.role [ none ↦ pure tt | some role ↦ change_role user_id ws role ]
    get_member env user_id ws

  unfoldable pub update_workspace_member :
      ℕ → ℕ → UpdateMemberInput → String → Action env MemberResponse
  unfolding get_workspace_membership_or_throw change_member serialize_workspace_member
  update_workspace_member user_id ws input actor_id = do
    existing ← get_workspace_membership_or_throw env user_id ws
    raise_if (is_owner existing.membership.role && is_some input.role)
        (forbidden "Workspace owner role cannot be changed from this admin surface.")
    m ← transaction (change_member user_id ws input)
    emit_audit_event env (
        member_event env "workspace.member.updated" m.account.id ws actor_id (
          object (
            field "previousRole" (text (role_name existing.membership.role)) (
              field "nextRole" (text (role_name m.membership.role))
                (field "disabledAt" (time_field env m.membership.disabled_at) end)))))
    pure (serialize_workspace_member m)

  -- The transaction of a disabling: the membership, and the open sessions in the workspace.
  unfoldable pub suspend : ℕ → ℕ → ℕ → Action env Member
  unfolding update_membership get_member
  suspend user_id ws now = do
    update_membership env user_id ws
        (λ (m : WorkspaceMembership). record m { disabled_at = some now })
    m ← get_member env user_id ws
    put_sessions (env.db.update (open_session_in user_id ws) (revoked now))
    pure m

  -- The account whose default workspace is this one gets another.
  unfoldable pub realign : ℕ → ℕ → Action env (Unit {0})
  unfolding realign_user_default_workspace
  realign user_id ws = do
    found ← query λ w. env.db.find_first (user_is user_id) w.users
    elim found [
      | none ↦ pure tt
      | some u ↦ when (u.workspace_id == ws) (realign_user_default_workspace env user_id ws)
    ]

  unfoldable pub disable_workspace_member : ℕ → ℕ → String → Action env MemberResponse
  unfolding get_workspace_membership_or_throw assert_member_can_be_disabled suspend realign
      serialize_workspace_member
  disable_workspace_member user_id ws actor_id = do
    existing ← get_workspace_membership_or_throw env user_id ws
    assert_member_can_be_disabled env existing actor_id
    if is_disabled existing.membership then pure (serialize_workspace_member existing) else (do
      now ← ask env.clock
      m ← transaction (suspend user_id ws now)
      realign user_id ws
      emit_audit_event env (
          member_event env "workspace.member.disabled" m.account.id ws actor_id
            (email_and_role env m.account.email m.membership.role))
      pure (serialize_workspace_member m))

  unfoldable pub enable_workspace_member : ℕ → ℕ → String → Action env MemberResponse
  unfolding get_workspace_membership_or_throw assert_can_manage_internal_users update_membership
      get_member serialize_workspace_member
  enable_workspace_member user_id ws actor_id = do
    existing ← get_workspace_membership_or_throw env user_id ws
    if not (is_disabled existing.membership)
        then pure (serialize_workspace_member existing)
        else (do
          assert_can_manage_internal_users env ws
          update_membership env user_id ws
              (λ (m : WorkspaceMembership). record m { disabled_at = none })
          m ← get_member env user_id ws
          emit_audit_event env (
              member_event env "workspace.member.enabled" m.account.id ws actor_id
                (email_and_role env m.account.email m.membership.role))
          pure (serialize_workspace_member m))

  -- The transaction of an anonymization.
  unfoldable pub anonymize : ℕ → ℕ → String → String → String → ℕ → Action env Member
  unfolding update_user get_member
  anonymize user_id ws old_email email name now = do
    put_sessions (env.db.update (open_session_of user_id) (revoked now))
    put_auth λ a. record a {
      reset_tokens =
          env.db.update
            (λ (t : PasswordResetToken). t.user_id == user_id && not (is_some t.used_at))
            (λ (t : PasswordResetToken). record t { used_at = some now }) a.reset_tokens;
      verification_tokens =
          env.db.update
            (λ (t : EmailVerificationToken). t.user_id == user_id && not (is_some t.used_at))
            (λ (t : EmailVerificationToken). record t { used_at = some now }) a.verification_tokens;
      oauth_accounts = env.db.delete (λ (x : OauthAccount). x.user_id == user_id) a.oauth_accounts;
      invites =
          env.db.update
            (λ (i : WorkspaceInvite).
              str_eq i.email old_email && not (is_some i.revoked_at) && not (is_some i.accepted_at))
            (λ (i : WorkspaceInvite). record i { revoked_at = some now }) a.invites;
    }
    update_user env user_id λ u. record u {
      email = email;
      name = name;
      password_hash = none;
      email_verified_at = none;
      last_login_at = none;
    }
    get_member env user_id ws

  unfoldable pub anonymize_workspace_member : ℕ → ℕ → String → Action env MemberResponse
  unfolding get_workspace_membership_or_throw assert_member_can_be_anonymized anonymize
      serialize_workspace_member
  anonymize_workspace_member user_id ws actor_id = do
    existing ← get_workspace_membership_or_throw env user_id ws
    assert_member_can_be_anonymized env existing
    let id = env.id_text existing.account.id
    let email = "anonymized+" <> id <> "@redacted.vowgrid.invalid"
    now ← ask env.clock
    m ← transaction (
        anonymize user_id ws existing.account.email email
          ("Anonymized user " <> env.last_chars 6 id) now)
    emit_audit_event env (
        member_event env "workspace.member.anonymized" m.account.id ws actor_id (
          object (
            field "previousEmail" (text existing.account.email)
              (field "anonymizedEmail" (text email) end))))
    pure (serialize_workspace_member m)
