-- ===== src/Auth/Signup.antt =====
-- apps/api/src/modules/auth/service.ts: the signup and the login with a password.
use vowgrid_api.Common.{ℕ, ◌+◌, ◌*◌, String, Bool, true, not, Option, none, some, List, [], ◌∷◌}
use vowgrid_api.Env.{Env}
use vowgrid_api.Json.{text, object, end, field}
use vowgrid_api.Rows.{is_disabled_user, User, WorkspaceMembership, Role, owner, user}
use vowgrid_api.Billing.Rows.{BillingCustomer, Workspace, active_trial}
use vowgrid_api.Billing.Catalog.{billing_trial_days, day_ms}
use vowgrid_api.Auth.Rows.{UserSession}
use vowgrid_api.Auth.Security.{hash_password, verify_password}
use vowgrid_api.Auth.Slug.{slug_is, create_unique_workspace_slug}
use vowgrid_api.Auth.Tables.{
  is_some, truthy, user_by_email, membership_is, normalize_email, put_users, put_memberships,
  send_auth_email, update_user, create_session, create_email_verification_token,
}
use vowgrid_api.Auth.Memberships.{AvailableWorkspace, load_user_membership_context}
use vowgrid_api.Auth.Sessions.{AuthenticatedUser, to_authenticated_user}
use vowgrid_api.World.{
  Action, conflict, unauthorized, unique_violation, ◌>>=◌, ◌>>◌, pure, query, write, or_raise,
  raise_if, ask, transaction, observe,
}
use vowgrid_api.Audits.{emit_audit_event}

pub record AuthSuccess : Type 0 where
  pub user : AuthenticatedUser
  pub workspace : Workspace
  pub session : UserSession
  pub token : String
  pub available_workspaces : List AvailableWorkspace
  pub email_verification_required : Bool

unfoldable pub build_auth_success_response :
    AuthenticatedUser → Workspace → String × UserSession → List AvailableWorkspace → AuthSuccess
build_auth_success_response u x created available = record {
  user = u;
  workspace = x;
  session = created.1;
  token = created.0;
  available_workspaces = available;
  email_verification_required = not (is_some u.email_verified_at);
}

-- The only workspace of one who signs up.
abbrev own_workspace : Workspace → AvailableWorkspace
own_workspace x = record {
  workspace_id = x.id;
  name = x.name;
  slug = x.slug;
  role = owner;
  active = true;
  is_default = true;
  disabled_at = none;
}

module _ (env : Env) where
  -- `workspace.create`, under the unique slug.
  unfoldable pub create_workspace : String → String → Action env Workspace
  create_workspace name slug = do
    clash ← query λ w. env.db.find_first (slug_is slug) w.billing.workspaces_table
    raise_if (is_some clash) unique_violation
    now ← ask env.clock
    id ← query λ w. env.db.next_id (λ (x : Workspace). x.id) w.billing.workspaces_table
    let row : Workspace = record { id = id; name = name; slug = slug; created_at = now }
    write λ w. record w {
      billing = record (w.billing) {
        workspaces_table = env.db.create row w.billing.workspaces_table;
      };
    }
    pure row

  -- `user.create`, under the unique email.
  unfoldable pub create_user :
      String → String → Role → Option String → ℕ → Option ℕ → Action env User
  create_user email name role password_hash ws verified_at = do
    clash ← query λ w. env.db.find_first (user_by_email email) w.users
    raise_if (is_some clash) unique_violation
    id ← query λ w. env.db.next_id (λ (u : User). u.id) w.users
    let row : User = record {
      id = id;
      email = email;
      name = name;
      password_hash = password_hash;
      email_verified_at = verified_at;
      last_login_at = none;
      workspace_id = ws;
      role = role;
      disabled_at = none;
    }
    put_users (env.db.create row)
    pure row

  -- `workspaceMembership.create`, one for a user and a workspace.
  unfoldable pub create_membership : ℕ → ℕ → Role → Action env WorkspaceMembership
  create_membership user_id ws role = do
    clash ← query λ w. env.db.find_first (membership_is user_id ws) w.memberships
    raise_if (is_some clash) unique_violation
    let row : WorkspaceMembership = record {
      user_id = user_id;
      workspace_id = ws;
      role = role;
      disabled_at = none;
    }
    put_memberships (env.db.create row)
    pure row

  -- `trialState.create` and `billingCustomer.create`, for a workspace that is new.
  unfoldable pub open_billing : Workspace → String → ℕ → Action env (Unit {0})
  open_billing x email now = do
    write λ w. record w {
      billing = record (w.billing) {
        trial_states =
            env.db.create
              (record {
                workspace_id = x.id;
                status = active_trial;
                starts_at = now;
                ends_at = now + billing_trial_days * day_ms;
                expired_at = none;
                converted_at = none;
              })
              w.billing.trial_states;
      };
    }
    write λ w. record w {
      billing = record (w.billing) {
        billing_customers =
            env.db.create
              (record {
                id = env.db.next_id (λ (c : BillingCustomer). c.id) w.billing.billing_customers;
                workspace_id = x.id;
                email = email;
                legal_name = some x.name;
                mercado_pago_customer_id = none;
                tax_profile = none;
                active_coupon = none;
              })
              w.billing.billing_customers;
      };
    }

  -- The transaction of a signup; the last part is the token for the email.
  unfoldable pub sign_up :
      String
      → String
      → String
      → String
      → String
      → ℕ
      → Action env (Workspace × User × (String × UserSession) × String)
  unfolding create_workspace create_user create_membership open_billing create_session
      create_email_verification_token
  sign_up workspace_name slug email name password_hash now = do
    x ← create_workspace (env.trim workspace_name) slug
    u ← create_user email (env.trim name) owner (some password_hash) x.id none
    create_membership u.id x.id owner
    open_billing x email now
    created ← create_session env u.id x.id
    verification ← create_email_verification_token env u.id email
    pure (x, u, created, verification)

  unfoldable pub signup_dashboard_user : String → String → String → String → Action env AuthSuccess
  unfolding normalize_email hash_password create_unique_workspace_slug sign_up send_auth_email
      build_auth_success_response to_authenticated_user
  signup_dashboard_user given_email password name workspace_name = do
    let email = normalize_email env given_email
    existing ← query λ w. env.db.find_first (user_by_email email) w.users
    raise_if (is_some existing) (conflict "A user with this email already exists.")
    salt ← ask env.random_salt
    slug ← create_unique_workspace_slug env workspace_name
    now ← ask env.clock
    result ←
        transaction (sign_up workspace_name slug email name (hash_password env password salt) now)
    let (x, u, created, verification) = result
    send_auth_email env email "Verify your VowGrid email"
    emit_audit_event env (record {
      action = "auth.signup";
      entity_type = "workspace";
      entity_id = x.id;
      actor_type = user;
      actor_id = env.id_text u.id;
      workspace_id = x.id;
      metadata = some (object (field "email" (text email) (field "role" (text "owner") end)));
    })
    observe "auth:signup"
    pure (
        build_auth_success_response (to_authenticated_user u owner x.id) x created
          (own_workspace x ∷ []))

  -- The transaction of a login.
  unfoldable pub log_in : ℕ → ℕ → Action env (String × UserSession)
  unfolding update_user create_session
  log_in user_id ws = do
    now ← ask env.clock
    update_user env user_id λ u. record u { last_login_at = some now }
    create_session env user_id ws

  unfoldable pub login_dashboard_user : String → String → Action env AuthSuccess
  unfolding normalize_email verify_password load_user_membership_context log_in
      build_auth_success_response to_authenticated_user
  login_dashboard_user given_email password = do
    let email = normalize_email env given_email
    found ← query λ w. env.db.find_first (user_by_email email) w.users
    u ← or_raise found (unauthorized "Invalid email or password.")
    stored ← or_raise (truthy u.password_hash) (unauthorized "Invalid email or password.")
    raise_if (is_disabled_user u)
        (unauthorized "This account has been disabled. Contact your workspace owner.")
    raise_if (not (verify_password env password stored)) (unauthorized "Invalid email or password.")
    context ← load_user_membership_context env u u.workspace_id
    let (current, available) = context
    created ← transaction (log_in u.id current.membership.workspace_id)
    emit_audit_event env (record {
      action = "auth.login";
      entity_type = "user";
      entity_id = u.id;
      actor_type = user;
      actor_id = env.id_text u.id;
      workspace_id = current.membership.workspace_id;
      metadata = some (
          object
            (field "email" (text email) (field "sessionId" (text (env.id_text created.1.id)) end)));
    })
    observe "auth:login"
    pure (
        build_auth_success_response
          (to_authenticated_user u current.membership.role current.membership.workspace_id)
          current.workspace created available)
