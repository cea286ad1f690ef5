-- ===== src/Admin/Invites.antt =====
-- apps/api/src/modules/workspace-admin/service.ts: the invites to a workspace.
use vowgrid_api.Common.{
  ℕ, ◌+◌, ◌*◌, String, Bool, not, ◌&&◌, none, some, leb, ◌==◌, str_eq, if◌then◌else◌,
}
use vowgrid_api.Env.{Env}
use vowgrid_api.Rows.{Role, user}
use vowgrid_api.Billing.Catalog.{day_ms}
use vowgrid_api.Auth.Rows.{WorkspaceInvite}
use vowgrid_api.Auth.Security.{hash_opaque_token}
use vowgrid_api.Auth.Tables.{is_some, normalize_email, put_auth, send_auth_email}
use vowgrid_api.Auth.Invites.{invite_is}
use vowgrid_api.World.{
  Action, not_found, conflict, record_missing, ◌>>=◌, ◌>>◌, pure, query, or_raise, raise_if, ask,
  settle,
}
use vowgrid_api.Audits.{AuditEventInput, emit_audit_event}
use vowgrid_api.Admin.Members.{assert_workspace_membership_does_not_exist, email_and_role}

pub data InviteStatus : Type 0 where
  pending_invite accepted_invite revoked_invite expired_invite : InviteStatus

pub record InviteResponse : Type 0 where
  pub row : WorkspaceInvite
  pub status : InviteStatus

abbrev invite_ttl_days : ℕ
invite_ttl_days = 7

abbrev invite_in : ℕ → ℕ → WorkspaceInvite → Bool
invite_in id ws i = i.id == id && i.workspace_id == ws

-- An invite for the email that can still be accepted at a time.
abbrev open_invite : ℕ → String → ℕ → WorkspaceInvite → Bool
open_invite ws email now i =
    i.workspace_id == ws
    && str_eq i.email email
    && not (is_some i.accepted_at)
    && not (is_some i.revoked_at)
    && not (leb i.expires_at now)

module _ (env : Env) where
  unfoldable pub resolve_invite_status : WorkspaceInvite → Action env InviteStatus
  resolve_invite_status i =
      if is_some i.revoked_at
      then pure revoked_invite
      else if is_some i.accepted_at
      then pure accepted_invite
      else (do
        now ← ask env.clock
        pure (if leb i.expires_at now then expired_invite else pending_invite))

  unfoldable pub serialize_workspace_invite : WorkspaceInvite → Action env InviteResponse
  unfolding resolve_invite_status
  serialize_workspace_invite i = do
    status ← resolve_invite_status i
    pure (record { row = i; status = status })

  unfoldable pub get_workspace_invite_or_throw : ℕ → ℕ → Action env WorkspaceInvite
  get_workspace_invite_or_throw id ws = do
    found ← query λ w. env.db.find_first (invite_in id ws) w.auth.invites
    or_raise found (not_found "WorkspaceInvite" id)

  abbrev invite_event : String → WorkspaceInvite → ℕ → String → AuditEventInput
  invite_event action i ws actor_id = record {
    action = action;
    entity_type = "workspace_invite";
    entity_id = i.id;
    actor_type = user;
    actor_id = actor_id;
    workspace_id = ws;
    metadata = some (email_and_role env i.email i.role);
  }

  -- `workspaceInvite.create`
  unfoldable pub create_invite :
      ℕ → String → Role → String → String → ℕ → Action env WorkspaceInvite
  create_invite ws email role hash actor_id expires_at = do
    id ← query λ w. env.db.next_id (λ (i : WorkspaceInvite). i.id) w.auth.invites
    let row : WorkspaceInvite = record {
      id = id;
      workspace_id = ws;
      email = email;
      role = role;
      token_hash = hash;
      invited_by_user_id = actor_id;
      expires_at = expires_at;
      accepted_at = none;
      revoked_at = none;
    }
    put_auth λ a. record a { invites = env.db.create row a.invites }
    pure row

  unfoldable pub create_workspace_invite :
      ℕ → String → Role → String → Action env (String × InviteResponse)
  unfolding normalize_email assert_workspace_membership_does_not_exist hash_opaque_token
      create_invite send_auth_email serialize_workspace_invite
  create_workspace_invite ws given_email role actor_id = do
    let email = normalize_email env given_email
    assert_workspace_membership_does_not_exist env email ws
    now ← ask env.clock
    existing ← query λ w. env.db.find_first (open_invite ws email now) w.auth.invites
    raise_if (is_some existing) (conflict "An active invite already exists for this email.")
    token ← ask env.random_token
    hash ← settle (hash_opaque_token env token)
    later ← ask env.clock
    invite ← create_invite ws email role hash actor_id (later + invite_ttl_days * day_ms)
    send_auth_email env invite.email "You were invited to a VowGrid workspace"
    emit_audit_event env (invite_event "workspace.invite.created" invite ws actor_id)
    response ← serialize_workspace_invite invite
    pure (token, response)

  -- `workspaceInvite.update`
  unfoldable pub update_invite :
      ℕ → (WorkspaceInvite → WorkspaceInvite) → Action env WorkspaceInvite
  update_invite id f = do
    found ← query λ w. env.db.find_first (invite_is id) w.auth.invites
    old ← or_raise found record_missing
    put_auth λ a. record a { invites = env.db.update (invite_is id) f a.invites }
    pure (f old)

  unfoldable pub revoke_workspace_invite : ℕ → ℕ → String → Action env InviteResponse
  unfolding get_workspace_invite_or_throw update_invite serialize_workspace_invite
  revoke_workspace_invite id ws actor_id = do
    existing ← get_workspace_invite_or_throw id ws
    if is_some existing.revoked_at then serialize_workspace_invite existing else (do
      now ← ask env.clock
      invite ←
          update_invite existing.id (λ (i : WorkspaceInvite). record i { revoked_at = some now })
      emit_audit_event env (invite_event "workspace.invite.revoked" invite ws actor_id)
      serialize_workspace_invite invite)
