-- ===== src/Auth/Tables.antt =====
-- The reads and writes of apps/api/src/modules/auth/service.ts that its handlers share.
use vowgrid_api.Common.{
  ℕ, ◌+◌, ◌*◌, String, Bool, true, false, not, ◌&&◌, Option, none, some, [], ◌∷◌, ◌++◌, ◌==◌,
  str_eq, if◌then◌else◌,
}
use vowgrid_api.Env.{Env}
use vowgrid_api.Rows.{Role, owner, admin, member, viewer, other, User, WorkspaceMembership}
use vowgrid_api.Auth.Rows.{AuthTables, UserSession, PasswordResetToken, EmailVerificationToken}
use vowgrid_api.Auth.Security.{hash_session_token, hash_opaque_token, build_session_expiry}
use vowgrid_api.World.{
  Action, thrown, record_missing, ◌>>=◌, ◌>>◌, pure, raise, query, write, or_raise, ask, settle,
}

abbrev pub is_some {ℓ} : {A : Type ℓ} → Option A → Bool
is_some none = false
is_some (some _) = true

-- A text that JavaScript takes for true.
abbrev pub truthy : Option String → Option String
truthy none = none
truthy (some s) = if str_eq s "" then none else some s

-- All roles but the four share a name here.
abbrev pub role_name : Role → String
role_name owner = "owner"
role_name admin = "admin"
role_name member = "member"
role_name viewer = "viewer"
role_name other = "other"

abbrev pub hours_ms : ℕ → ℕ
hours_ms n = n * 3600000

abbrev pub session_is : ℕ → UserSession → Bool
session_is id s = s.id == id

abbrev pub session_by : String → UserSession → Bool
session_by hash s = str_eq s.token_hash hash

-- `where: { userId, revokedAt: null }`
abbrev pub open_session_of : ℕ → UserSession → Bool
open_session_of user_id s = s.user_id == user_id && not (is_some s.revoked_at)

abbrev pub open_session_in : ℕ → ℕ → UserSession → Bool
open_session_in user_id ws s =
    s.user_id == user_id && s.workspace_id == ws && not (is_some s.revoked_at)

abbrev pub revoked : ℕ → UserSession → UserSession
revoked now s = record s { revoked_at = some now }

abbrev pub user_is : ℕ → User → Bool
user_is id u = u.id == id

abbrev pub user_by_email : String → User → Bool
user_by_email email u = str_eq u.email email

abbrev pub membership_is : ℕ → ℕ → WorkspaceMembership → Bool
membership_is user_id ws m = m.user_id == user_id && m.workspace_id == ws

unfoldable pub normalize_email : Env → String → String
normalize_email env email = env.lower (env.trim email)

module _ {env : Env} where
  abbrev pub put_auth : (AuthTables env.db → AuthTables env.db) → Action env (Unit {0})
  put_auth f = write λ w. record w { auth = f w.auth }

  abbrev pub put_sessions :
      (env.db.Table UserSession → env.db.Table UserSession) → Action env (Unit {0})
  put_sessions f = put_auth λ a. record a { sessions = f a.sessions }

  abbrev pub put_users : (env.db.Table User → env.db.Table User) → Action env (Unit {0})
  put_users f = write λ w. record w { users = f w.users }

  abbrev pub put_memberships :
      (env.db.Table WorkspaceMembership → env.db.Table WorkspaceMembership) → Action env (Unit {0})
  put_memberships f = write λ w. record w { memberships = f w.memberships }

module _ (env : Env) where
  -- `sendAuthEmail`, which the transport may refuse.
  unfoldable pub send_auth_email : String → String → Action env (Unit {0})
  send_auth_email to subject = do
    refused ← ask env.mail_error
    elim refused [
      | some message ↦ raise (thrown message)
      | none ↦ put_auth λ a. record a { outbox = a.outbox ++ (to, subject) ∷ [] }
    ]

  -- `prisma.user.update`
  unfoldable pub update_user : ℕ → (User → User) → Action env User
  update_user id f = do
    found ← query λ w. env.db.find_first (user_is id) w.users
    old ← or_raise found record_missing
    put_users (env.db.update (user_is id) f)
    pure (f old)

  -- `prisma.userSession.update`
  unfoldable pub update_session : ℕ → (UserSession → UserSession) → Action env (Unit {0})
  update_session id f = do
    found ← query λ w. env.db.find_first (session_is id) w.auth.sessions
    or_raise found record_missing
    put_sessions (env.db.update (session_is id) f)

  unfoldable pub create_session : ℕ → ℕ → Action env (String × UserSession)
  unfolding hash_session_token build_session_expiry
  create_session user_id ws = do
    token ← ask env.random_token
    now ← ask env.clock
    hash ← settle (hash_session_token env token)
    id ← query λ w. env.db.next_id (λ (s : UserSession). s.id) w.auth.sessions
    let session : UserSession = record {
      id = id;
      user_id = user_id;
      workspace_id = ws;
      token_hash = hash;
      expires_at = build_session_expiry now;
      last_used_at = none;
      revoked_at = none;
    }
    put_sessions (env.db.create session)
    pure (token, session)

  -- The earlier tokens of the user count as used from now on.
  unfoldable pub create_password_reset_token : ℕ → Action env String
  unfolding hash_opaque_token
  create_password_reset_token user_id = do
    now ← ask env.clock
    put_auth λ a. record a {
      reset_tokens =
          env.db.update
            (λ (t : PasswordResetToken). t.user_id == user_id && not (is_some t.used_at))
            (λ (t : PasswordResetToken). record t { used_at = some now }) a.reset_tokens;
    }
    token ← ask env.random_token
    hash ← settle (hash_opaque_token env token)
    later ← ask env.clock
    put_auth λ a. record a {
      reset_tokens =
          env.db.create
            (record {
              id = env.db.next_id (λ (t : PasswordResetToken). t.id) a.reset_tokens;
              user_id = user_id;
              token_hash = hash;
              expires_at = later + hours_ms 2;
              used_at = none;
            })
            a.reset_tokens;
    }
    pure token

  unfoldable pub create_email_verification_token : ℕ → String → Action env String
  unfolding hash_opaque_token
  create_email_verification_token user_id email = do
    now ← ask env.clock
    put_auth λ a. record a {
      verification_tokens =
          env.db.update
            (λ (t : EmailVerificationToken). t.user_id == user_id && not (is_some t.used_at))
            (λ (t : EmailVerificationToken). record t { used_at = some now }) a.verification_tokens;
    }
    token ← ask env.random_token
    hash ← settle (hash_opaque_token env token)
    later ← ask env.clock
    put_auth λ a. record a {
      verification_tokens =
          env.db.create
            (record {
              id = env.db.next_id (λ (t : EmailVerificationToken). t.id) a.verification_tokens;
              user_id = user_id;
              email = email;
              token_hash = hash;
              expires_at = later + hours_ms 48;
              used_at = none;
            })
            a.verification_tokens;
    }
    pure token
