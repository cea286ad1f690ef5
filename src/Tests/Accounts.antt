-- ===== src/Tests/Accounts.antt =====
-- Examples: a workspace with a member, a session and an API key, and the theorems of the accounts at
-- work on it.
use vowgrid_api.Common.{◌≡◌, refl, String, true, false, none, some, [], ◌∷◌, str_eq}
use vowgrid_api.Json.{text, object, end, field}
use vowgrid_api.Env.{resolved}
use vowgrid_api.Prisma.{in_memory_lawful}
use vowgrid_api.Rows.{User, WorkspaceMembership, member, owner}
use vowgrid_api.States.{draft}
use vowgrid_api.Billing.Rows.{Workspace}
use vowgrid_api.Connectors.Secrets.{
  encrypt_connector_config, decrypt_connector_config, decrypt_connector_config-encrypt,
}
use vowgrid_api.Auth.Rows.{UserSession, PasswordResetToken, ApiKey}
use vowgrid_api.Auth.Security.{
  verify_password, hash_password, hash_session_token, hash_opaque_token,
  verify_password-hash_password,
}
use vowgrid_api.Auth.Tables.{
  is_some, open_session_of, open_session_in, user_is, membership_is, normalize_email,
}
use vowgrid_api.Auth.Sessions.{
  AuthenticationContext, get_session_authentication_context, logout_dashboard_session,
}
use vowgrid_api.Auth.Guard.{Authenticated, get_session_authentication_context-Accepts}
use vowgrid_api.Auth.Recovery.{confirm_dashboard_password_reset}
use vowgrid_api.Auth.Ending.{
  confirm_dashboard_password_reset-resets, confirm_dashboard_password_reset-once,
  logout_dashboard_session-ends,
}
use vowgrid_api.Auth.Slug.{
  create_unique_workspace_slug, slugify_workspace_name, Chosen,
  create_unique_workspace_slug-first_free,
}
use vowgrid_api.Auth.Signup.{login_dashboard_user}
use vowgrid_api.Auth.Login.{login_dashboard_user-refused}
use vowgrid_api.Auth.Plugin.{by_api_key, key_by, hash_api_key, authenticate_api_key}
use vowgrid_api.Admin.Keys.{ApiKeyResponse, rotate_workspace_api_key}
use vowgrid_api.Admin.KeyUse.{Admitted, authenticate_api_key-Admitted}
use vowgrid_api.Admin.Rotation.{rotate_workspace_api_key-replaces}
use vowgrid_api.Admin.Changes.{disable_workspace_member}
use vowgrid_api.Admin.Suspension.{disable_workspace_member-ends}
use vowgrid_api.World.{World, ok, is_err, run_steps}
use vowgrid_api.Tests.{platform, office}

abbrev ana : User
ana = record {
  id = 5;
  email = "ana@x";
  name = "Ana";
  password_hash = some "scrypt$salt$pw";
  email_verified_at = none;
  last_login_at = none;
  workspace_id = 7;
  role = member;
  disabled_at = none;
}

abbrev membership : WorkspaceMembership
membership = record { user_id = 5; workspace_id = 7; role = member; disabled_at = none }

abbrev owning : WorkspaceMembership
owning = record { user_id = 5; workspace_id = 8; role = owner; disabled_at = none }

abbrev session : UserSession
session = record {
  id = 1;
  user_id = 5;
  workspace_id = 7;
  token_hash = "secret:tok";
  expires_at = 900;
  last_used_at = none;
  revoked_at = none;
}

abbrev reset : PasswordResetToken
reset = record {
  id = 2;
  user_id = 5;
  token_hash = "secret:opaque:tok";
  expires_at = 900;
  used_at = none;
}

abbrev key : ApiKey
key = record {
  id = 3;
  name = "Agent";
  key_hash = "salt:vgk";
  key_prefix = "vgk";
  workspace_id = 7;
  scopes = "*" ∷ [];
  expires_at = some 900;
  last_used_at = none;
  revoked_at = none;
}

abbrev workspace : Workspace
workspace = record { id = 7; name = "Acme"; slug = "acme"; created_at = 0 }

abbrev house : World platform
house =
    let w = office draft in
    record w {
      users = ana ∷ [];
      memberships = membership ∷ owning ∷ [];
      billing = record (w.billing) { workspaces_table = workspace ∷ [] };
      auth = record (w.auth) {
        sessions = session ∷ [];
        reset_tokens = reset ∷ [];
        api_keys = key ∷ [];
      };
    }

decrypt_connector_config-encrypt_example :
    decrypt_connector_config platform
      (encrypt_connector_config platform "iv" (some (field "token" (text "t") end)))
    ≡ resolved (object (field "token" (text "t") end))
decrypt_connector_config-encrypt_example =
    decrypt_connector_config-encrypt platform "iv" (field "token" (text "t") end) (λ iv s. refl)
      refl

verify_password-hash_password_example :
    verify_password platform "qw" (hash_password platform "pw" "salt")
    ≡ str_eq (platform.scrypt "pw" "salt") (platform.scrypt "qw" "salt")
verify_password-hash_password_example =
    verify_password-hash_password platform "pw" "qw" "salt"
      (record { no_dollar = (refl, (refl, (refl, (refl, tt)))); undone = refl; kept = refl })
      (record { no_dollar = (refl, (refl, tt)); undone = refl; kept = refl })

abbrev signed_in : AuthenticationContext
signed_in = record { session_id = 1; user_id = 5; workspace_id = 7; role = member }

get_session_authentication_context_example : Authenticated platform house "secret:tok" signed_in
unfolding get_session_authentication_context hash_session_token run_steps
get_session_authentication_context_example =
    get_session_authentication_context-Accepts platform in_memory_lawful "tok" house {c = signed_in}
      refl refl

logout_dashboard_session-ends_example :
    let out = logout_dashboard_session platform 1 house in
    (out.0 ≡ ok tt) × (is_err (get_session_authentication_context platform "tok" out.1).0 ≡ true)
unfolding hash_session_token
logout_dashboard_session-ends_example =
    logout_dashboard_session-ends platform in_memory_lawful "tok" house
      (logout_dashboard_session platform 1 house).1 {s = session} refl refl refl refl

confirm_dashboard_password_reset-resets_example :
    let out = confirm_dashboard_password_reset platform "tok" "qw" house in
    (out.0 ≡ ok tt)
    × (platform.db.find_many (open_session_of 5) out.1.auth.sessions ≡ [])
    × (platform.db.find_first (user_is 5) out.1.users
        ≡ some (record ana { password_hash = some (hash_password platform "qw" "salt") }))
unfolding hash_opaque_token
confirm_dashboard_password_reset-resets_example =
    confirm_dashboard_password_reset-resets platform in_memory_lawful "tok" "qw" house {row = reset}
      {u = ana} refl refl refl refl

confirm_dashboard_password_reset-once_example :
    let out = confirm_dashboard_password_reset platform "tok" "qw" house in
    is_err (confirm_dashboard_password_reset platform "tok" "zz" out.1).0 ≡ true
unfolding hash_opaque_token
confirm_dashboard_password_reset-once_example =
    confirm_dashboard_password_reset-once platform in_memory_lawful "tok" "qw" house {row = reset}
      {u = ana} refl refl refl refl "zz"

create_unique_workspace_slug-first_free_example :
    (slug : String) × ((create_unique_workspace_slug platform "acme" house).0 ≡ ok slug)
    × Chosen platform house
        (platform.first_chars 48 (slugify_workspace_name platform "acme"))
        0
        1000
        slug
create_unique_workspace_slug-first_free_example =
    create_unique_workspace_slug-first_free platform "acme" house

login_dashboard_user-refused_example :
    let out = login_dashboard_user platform "ana@x" "qw" house in
    (is_err out.0 ≡ true) × (out.1 ≡ house)
unfolding normalize_email verify_password
login_dashboard_user-refused_example = login_dashboard_user-refused platform "ana@x" "qw" house refl

authenticate_api_key-Admitted_example : Admitted platform house "vgk" (by_api_key 7 3 ("*" ∷ []))
unfolding authenticate_api_key run_steps
authenticate_api_key-Admitted_example = authenticate_api_key-Admitted platform "vgk" house refl refl

rotate_workspace_api_key-replaces_example :
    let out = rotate_workspace_api_key platform 3 7 "ana" house in
    let fresh : String = "vgk_token" in
    (is_err (authenticate_api_key platform (some "vgk") out.1).0 ≡ true)
    × ((r : ApiKeyResponse) × (out.0 ≡ ok (fresh, r))
        × (r.row.workspace_id ≡ 7)
        × (r.row.scopes ≡ "*" ∷ [])
        × (is_some r.row.revoked_at ≡ false)
        × (platform.db.find_first (key_by (hash_api_key platform fresh)) out.1.auth.api_keys
            ≡ some r.row))
unfolding hash_api_key
rotate_workspace_api_key-replaces_example =
    rotate_workspace_api_key-replaces platform in_memory_lawful 3 7 "ana" "vgk" house
      (rotate_workspace_api_key platform 3 7 "ana" house).1 refl refl refl refl refl refl refl

disable_workspace_member-ends_example :
    let out = disable_workspace_member platform 5 7 "bob" house in
    (is_err out.0 ≡ false)
    × (platform.db.find_many (open_session_in 5 7) out.1.auth.sessions ≡ [])
    × (platform.db.find_first (membership_is 5 7) out.1.memberships
        ≡ some (record membership { disabled_at = some 1 }))
disable_workspace_member-ends_example =
    disable_workspace_member-ends platform in_memory_lawful 5 7 "bob" house refl refl refl refl refl
