-- ===== src/Auth/Oauth.antt =====
-- apps/api/src/modules/auth/service.ts: the login with an account of another provider.
use vowgrid_api.Common.{
  ℕ, ◌+◌, String, Bool, not, ◌&&◌, ◌||◌, none, some, map, leb, ◌==◌, str_eq, if◌then◌else◌,
  or_default,
}
use vowgrid_api.Env.{Env}
use vowgrid_api.Json.{text, object, end, field}
use vowgrid_api.Rows.{is_disabled_user, User, owner, user}
use vowgrid_api.Billing.Rows.{Workspace}
use vowgrid_api.Auth.Rows.{OauthAccount, OauthSignupToken, UserSession}
use vowgrid_api.Auth.Security.{hash_opaque_token}
use vowgrid_api.Auth.Slug.{create_unique_workspace_slug}
use vowgrid_api.Auth.Tables.{
  is_some, hours_ms, user_is, user_by_email, normalize_email, put_auth, update_user, create_session,
}
use vowgrid_api.Auth.Memberships.{
  list_membership_records, load_user_membership_context, serialize_available_workspace,
}
use vowgrid_api.Auth.Sessions.{to_authenticated_user}
use vowgrid_api.Auth.Signup.{
  AuthSuccess, build_auth_success_response, create_workspace, create_user, create_membership,
  open_billing,
}
use vowgrid_api.World.{
  Action, validation, unauthorized, record_missing, unique_violation, ◌>>=◌, ◌>>◌, pure, query,
  or_raise, raise_if, when, ask, settle, transaction, observe,
}
use vowgrid_api.Audits.{emit_audit_event}

pub record OauthInput : Type 0 where
  pub provider : String
  pub provider_account_id : String
  pub email : String
  pub name : String

pub data OauthCompletion : Type 0 where
  authenticated : AuthSuccess → OauthCompletion
  -- the token, and whose it is
  signup_required : String → OauthInput → OauthCompletion

abbrev account_is : String → String → OauthAccount → Bool
account_is provider id a = str_eq a.provider provider && str_eq a.provider_account_id id

abbrev signup_by : String → OauthSignupToken → Bool
signup_by hash t = str_eq t.token_hash hash

abbrev signup_is : ℕ → OauthSignupToken → Bool
signup_is id t = t.id == id

-- The unused tokens of the same account or for the same email.
abbrev superseded : OauthInput → OauthSignupToken → Bool
superseded input t =
    not (is_some t.used_at)
    && ((str_eq t.provider input.provider && str_eq t.provider_account_id input.provider_account_id)
        || str_eq t.email input.email)

abbrev disabled_message : String
disabled_message = "This account has been disabled. Contact your workspace owner."

module _ (env : Env) where
  unfoldable pub create_oauth_signup_token : OauthInput → Action env String
  unfolding hash_opaque_token
  create_oauth_signup_token input = do
    now ← ask env.clock
    put_auth λ a. record a {
      oauth_signup_tokens =
          env.db.update (superseded input)
            (λ (t : OauthSignupToken). record t { used_at = some now }) a.oauth_signup_tokens;
    }
    token ← ask env.random_token
    hash ← settle (hash_opaque_token env token)
    later ← ask env.clock
    put_auth λ a. record a {
      oauth_signup_tokens =
          env.db.create
            (record {
              id = env.db.next_id (λ (t : OauthSignupToken). t.id) a.oauth_signup_tokens;
              provider = input.provider;
              provider_account_id = input.provider_account_id;
              email = input.email;
              name = input.name;
              token_hash = hash;
              expires_at = later + hours_ms 1;
              used_at = none;
            })
            a.oauth_signup_tokens;
    }
    pure token

  -- `oAuthAccount.create`, one for an account of the provider.
  unfoldable pub create_oauth_account : ℕ → String → String → String → Action env (Unit {0})
  create_oauth_account user_id provider account_id email = do
    clash ← query λ w. env.db.find_first (account_is provider account_id) w.auth.oauth_accounts
    raise_if (is_some clash) unique_violation
    put_auth λ a. record a {
      oauth_accounts =
          env.db.create
            (record {
              user_id = user_id;
              provider = provider;
              provider_account_id = account_id;
              email = email;
            })
            a.oauth_accounts;
    }

  abbrev oauth_event : String → String → String → User → ℕ → Action env (Unit {0})
  oauth_event action provider email u ws = emit_audit_event env (record {
    action = action;
    entity_type = "user";
    entity_id = u.id;
    actor_type = user;
    actor_id = env.id_text u.id;
    workspace_id = ws;
    metadata = some (object (field "provider" (text provider) (field "email" (text email) end)));
  })

  -- A login by an account that is linked already.
  unfoldable pub log_in_linked : OauthInput → String → User → Action env OauthCompletion
  unfolding load_user_membership_context create_session build_auth_success_response
      to_authenticated_user
  log_in_linked input email u = do
    context ← load_user_membership_context env u u.workspace_id
    let (current, available) = context
    created ← transaction (create_session env u.id current.membership.workspace_id)
    oauth_event "auth.oauth.login" input.provider email u current.membership.workspace_id
    observe "auth:login"
    pure (
        authenticated (
          build_auth_success_response
            (to_authenticated_user u current.membership.role current.membership.workspace_id)
            current.workspace created available))

  -- The transaction of a link.
  unfoldable pub link_account : OauthInput → String → User → ℕ → Action env (String × UserSession)
  unfolding create_oauth_account update_user create_session
  link_account input email u ws = do
    create_oauth_account u.id input.provider input.provider_account_id email
    when (not (is_some u.email_verified_at)) (do
      now ← ask env.clock
      update_user env u.id λ v. record v { email_verified_at = some now }
      pure tt)
    create_session env u.id ws

  -- A login that links the account to the user of the email.
  unfoldable pub log_in_linking : OauthInput → String → User → Action env OauthCompletion
  unfolding load_user_membership_context link_account build_auth_success_response
      to_authenticated_user
  log_in_linking input email u = do
    context ← load_user_membership_context env u u.workspace_id
    let (current, available) = context
    created ← transaction (link_account input email u current.membership.workspace_id)
    oauth_event "auth.oauth.linked" input.provider email u current.membership.workspace_id
    observe "auth:link"
    now ← elim u.email_verified_at [ none ↦ ask env.clock | some t ↦ pure t ]
    pure (
        authenticated (
          build_auth_success_response
            (to_authenticated_user (record u { email_verified_at = some now })
              current.membership.role current.membership.workspace_id)
            current.workspace created available))

  unfoldable pub complete_dashboard_oauth : OauthInput → Action env OauthCompletion
  unfolding normalize_email log_in_linked log_in_linking create_oauth_signup_token
  complete_dashboard_oauth input = do
    let email = normalize_email env input.email
    let name = env.trim input.name
    account ← query λ w.
        env.db.find_first (account_is input.provider input.provider_account_id)
          w.auth.oauth_accounts
    elim account [
      | some a ↦ (do
        found ← query λ w. env.db.find_first (user_is a.user_id) w.users
        u ← or_raise found record_missing
        raise_if (is_disabled_user u) (unauthorized disabled_message)
        log_in_linked input email u)
      | none ↦ (do
        existing ← query λ w. env.db.find_first (user_by_email email) w.users
        elim existing [
          | some u ↦
              raise_if (is_disabled_user u) (unauthorized disabled_message)
              >> log_in_linking input email u
          | none ↦ (do
            let candidate : OauthInput = record input { email = email; name = name }
            token ← transaction (create_oauth_signup_token candidate)
            pure (signup_required token candidate))
        ])
    ]

  -- The owner of the new workspace: a user that is new, or one that is moved there.
  unfoldable pub workspace_owner : OauthSignupToken → String → ℕ → ℕ → Action env User
  unfolding create_user update_user
  workspace_owner pending email ws now = do
    found ← query λ w. env.db.find_first (user_by_email email) w.users
    elim found [
      | none ↦ create_user env email pending.name owner none ws (some now)
      | some u ↦
          raise_if (is_disabled_user u) (unauthorized disabled_message)
          >> update_user env u.id (λ v. record v {
            name = if str_eq u.name "" then pending.name else u.name;
            role = owner;
            workspace_id = ws;
            email_verified_at = some (or_default u.email_verified_at now);
          })
    ]

  -- The transaction of a signup.
  unfoldable pub sign_up_with_oauth :
      OauthSignupToken
      → String
      → String
      → String
      → ℕ
      → Action env (Workspace × User × (String × UserSession))
  unfolding create_workspace workspace_owner create_membership create_oauth_account open_billing
      create_session
  sign_up_with_oauth pending workspace_name slug email now = do
    x ← create_workspace env (env.trim workspace_name) slug
    u ← workspace_owner pending email x.id now
    create_membership env u.id x.id owner
    create_oauth_account u.id pending.provider pending.provider_account_id email
    open_billing env x email now
    put_auth λ a. record a {
      oauth_signup_tokens =
          env.db.update (signup_is pending.id)
            (λ (t : OauthSignupToken). record t { used_at = some now }) a.oauth_signup_tokens;
    }
    created ← create_session env u.id x.id
    pure (x, u, created)

  unfoldable pub complete_dashboard_oauth_signup : String → String → Action env AuthSuccess
  unfolding hash_opaque_token create_unique_workspace_slug normalize_email sign_up_with_oauth
      list_membership_records serialize_available_workspace build_auth_success_response
      to_authenticated_user
  complete_dashboard_oauth_signup token workspace_name = do
    hash ← settle (hash_opaque_token env token)
    found ← query λ w. env.db.find_first (signup_by hash) w.auth.oauth_signup_tokens
    pending ← or_raise found (validation "Invalid or expired OAuth signup token.")
    checked_at ← ask env.clock
    raise_if (is_some pending.used_at || leb pending.expires_at checked_at)
        (validation "Invalid or expired OAuth signup token.")
    slug ← create_unique_workspace_slug env workspace_name
    let email = normalize_email env pending.email
    now ← ask env.clock
    result ← transaction (sign_up_with_oauth pending workspace_name slug email now)
    let (x, u, created) = result
    emit_audit_event env (record {
      action = "auth.oauth.signup";
      entity_type = "workspace";
      entity_id = x.id;
      actor_type = user;
      actor_id = env.id_text u.id;
      workspace_id = x.id;
      metadata = some (
          object (
            field "email" (text email)
              (field "provider" (text pending.provider) (field "role" (text "owner") end))));
    })
    observe "auth:signup"
    records ← list_membership_records env u.id u.workspace_id
    pure (
        build_auth_success_response (to_authenticated_user u owner x.id) x created
          (map (serialize_available_workspace u.workspace_id) records))
