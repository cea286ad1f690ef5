-- ===== src/Auth/Sessions.antt =====
-- apps/api/src/modules/auth/service.ts: what a session token is worth, and how a session ends.
use vowgrid_api.Common.{ℕ, String, Bool, not, Option, none, some, List, leb, map, if◌then◌else◌}
use vowgrid_api.Env.{Env}
use vowgrid_api.Rows.{is_disabled_user, is_disabled, Role, User}
use vowgrid_api.Billing.Rows.{Workspace}
use vowgrid_api.Auth.Rows.{UserSession}
use vowgrid_api.Auth.Security.{hash_session_token}
use vowgrid_api.Auth.Tables.{
  is_some, session_by, open_session_of, open_session_in, revoked, user_is, membership_is,
  put_sessions, update_session,
}
use vowgrid_api.Auth.Memberships.{
  MembershipRecord, AvailableWorkspace, workspace_row, ensure_primary_membership,
  list_membership_records, serialize_available_workspace,
}
use vowgrid_api.World.{
  World, Action, unauthorized, record_missing, ◌>>=◌, ◌>>◌, pure, query, or_raise, raise_if, ask,
  settle, try_catch,
}

pub record SessionLookup : Type 0 where
  pub session : UserSession
  pub user : User
  pub current_membership : MembershipRecord
  pub available_workspaces : List AvailableWorkspace

pub record AuthenticationContext : Type 0 where
  pub session_id : ℕ
  pub user_id : ℕ
  pub workspace_id : ℕ
  pub role : Role

pub record AuthenticatedUser : Type 0 where
  pub id : ℕ
  pub email : String
  pub name : String
  pub role : Role
  pub workspace_id : ℕ
  pub email_verified_at : Option ℕ

pub record CurrentSession : Type 0 where
  pub user : AuthenticatedUser
  pub workspace : Workspace
  pub session : UserSession
  pub available_workspaces : List AvailableWorkspace
  pub email_verification_required : Bool

unfoldable pub to_authenticated_user : User → Role → ℕ → AuthenticatedUser
to_authenticated_user u role ws = record {
  id = u.id;
  email = u.email;
  name = u.name;
  role = role;
  workspace_id = ws;
  email_verified_at = u.email_verified_at;
}

unfoldable pub build_current_session_response : SessionLookup → CurrentSession
unfolding to_authenticated_user
build_current_session_response l = record {
  user =
      to_authenticated_user l.user l.current_membership.membership.role
        l.current_membership.membership.workspace_id;
  workspace = l.current_membership.workspace;
  session = l.session;
  available_workspaces = l.available_workspaces;
  email_verification_required = not (is_some l.user.email_verified_at);
}

module _ (env : Env) where
  abbrev revoke_all : (UserSession → Bool) → Action env (Option SessionLookup)
  revoke_all q = do now ← ask env.clock; put_sessions (env.db.update q (revoked now)); pure none

  abbrev pub membership_record : ℕ → ℕ → World env → Option MembershipRecord
  membership_record user_id ws w =
      elim (env.db.find_first (membership_is user_id ws) w.memberships) [
        | none ↦ none
        | some m ↦ elim (workspace_row env w ws) [
          | none ↦ none
          | some x ↦ some (record { membership = m; workspace = x })
        ]
      ]

  -- The answer for the membership in the session's workspace.
  unfoldable pub admit :
      UserSession → User → Option MembershipRecord → Action env (Option SessionLookup)
  unfolding list_membership_records serialize_available_workspace
  admit session u none = revoke_all (open_session_in u.id session.workspace_id)
  admit session u (some r) =
      if is_disabled r.membership
      then revoke_all (open_session_in u.id session.workspace_id)
      else (do
        records ← list_membership_records env u.id u.workspace_id
        pure (
            some (record {
              session = session;
              user = u;
              current_membership = r;
              available_workspaces = map (serialize_available_workspace u.workspace_id) records;
            })))

  -- The steps for a session that is neither revoked nor expired, of a user that is not disabled.
  unfoldable pub resolve_session : UserSession → User → Action env (Option SessionLookup)
  unfolding ensure_primary_membership admit
  resolve_session session u = do
    ensure_primary_membership env u
    current ← query (membership_record u.id session.workspace_id)
    admit session u current

  -- A session that was found, with its user.
  unfoldable pub check_session : UserSession → Action env (Option SessionLookup)
  unfolding resolve_session update_session
  check_session session = do
    account ← query λ w. env.db.find_first (user_is session.user_id) w.users
    u ← or_raise account record_missing
    if is_some session.revoked_at then pure none else (do
      now ← ask env.clock
      if leb session.expires_at now
          then (do later ← ask env.clock; update_session env session.id (revoked later); pure none)
          else if is_disabled_user u
          then revoke_all (open_session_of u.id)
          else resolve_session session u)

  unfoldable pub find_session_by_token : String → Action env (Option SessionLookup)
  unfolding check_session hash_session_token
  find_session_by_token token = do
    hash ← settle (hash_session_token env token)
    found ← query λ w. env.db.find_first (session_by hash) w.auth.sessions
    elim found [ none ↦ pure none | some session ↦ check_session session ]

  -- The update is not waited for, and its failure goes unnoticed.
  unfoldable pub touch_session : ℕ → Action env (Unit {0})
  unfolding update_session
  touch_session id = do
    now ← ask env.clock
    try_catch (update_session env id (λ (s : UserSession). record s { last_used_at = some now }))
        (λ e. pure tt)

  abbrev pub require_session : String → Action env SessionLookup
  require_session token = do
    found ← find_session_by_token token
    or_raise found (unauthorized "Invalid or expired session.")

  unfoldable pub get_current_dashboard_session : String → Action env CurrentSession
  unfolding find_session_by_token touch_session build_current_session_response
  get_current_dashboard_session token = do
    lookup ← require_session token
    touch_session lookup.session.id
    pure (build_current_session_response lookup)

  unfoldable pub get_session_authentication_context : String → Action env AuthenticationContext
  unfolding find_session_by_token touch_session
  get_session_authentication_context token = do
    lookup ← require_session token
    touch_session lookup.session.id
    pure (record {
      session_id = lookup.session.id;
      user_id = lookup.user.id;
      workspace_id = lookup.current_membership.membership.workspace_id;
      role = lookup.current_membership.membership.role;
    })

  unfoldable pub logout_dashboard_session : ℕ → Action env (Unit {0})
  unfolding update_session
  logout_dashboard_session id = do now ← ask env.clock; update_session env id (revoked now)

  unfoldable pub switch_dashboard_workspace : String → ℕ → Action env CurrentSession
  unfolding find_session_by_token update_session get_current_dashboard_session
  switch_dashboard_workspace token ws = do
    lookup ← require_session token
    target ← query λ w. env.db.find_first (membership_is lookup.user.id ws) w.memberships
    membership ←
        or_raise target (unauthorized "You do not have active access to the selected workspace.")
    raise_if (is_disabled membership)
        (unauthorized "You do not have active access to the selected workspace.")
    now ← ask env.clock
    update_session env lookup.session.id
        (λ (s : UserSession). record s { workspace_id = ws; last_used_at = some now })
    get_current_dashboard_session token
