-- ===== src/Auth/Recovery.antt =====
-- apps/api/src/modules/auth/service.ts: the reset of a password and the verification of an email, each
-- by a token that is used once.
use vowgrid_api.Common.{ℕ, String, Bool, ◌||◌, none, some, leb, ◌==◌, str_eq, if◌then◌else◌}
use vowgrid_api.Env.{Env}
use vowgrid_api.Json.{text, object, end, field}
use vowgrid_api.Rows.{is_disabled_user, user}
use vowgrid_api.Auth.Rows.{PasswordResetToken, EmailVerificationToken}
use vowgrid_api.Auth.Security.{hash_password, hash_opaque_token}
use vowgrid_api.Auth.Tables.{
  is_some, open_session_of, revoked, user_is, user_by_email, normalize_email, put_auth,
  put_sessions, send_auth_email, update_user, create_password_reset_token,
  create_email_verification_token,
}
use vowgrid_api.World.{
  Action, not_found, validation, record_missing, ◌>>=◌, ◌>>◌, pure, query, or_raise, raise_if, ask,
  settle, transaction, observe,
}
use vowgrid_api.Audits.{AuditEventInput, emit_audit_event}

abbrev pub reset_by : String → PasswordResetToken → Bool
reset_by hash t = str_eq t.token_hash hash

abbrev pub reset_is : ℕ → PasswordResetToken → Bool
reset_is id t = t.id == id

abbrev pub verification_by : String → EmailVerificationToken → Bool
verification_by hash t = str_eq t.token_hash hash

abbrev pub verification_is : ℕ → EmailVerificationToken → Bool
verification_is id t = t.id == id

-- An event of a user about that user.
abbrev pub account_event : (env : Env) → String → ℕ → ℕ → String → AuditEventInput
account_event env action user_id ws email = record {
  action = action;
  entity_type = "user";
  entity_id = user_id;
  actor_type = user;
  actor_id = env.id_text user_id;
  workspace_id = ws;
  metadata = some (object (field "email" (text email) end));
}

module _ (env : Env) where
  unfoldable pub request_dashboard_password_reset : String → Action env (Unit {0})
  unfolding normalize_email create_password_reset_token send_auth_email
  request_dashboard_password_reset email = do
    found ← query λ w. env.db.find_first (user_by_email (normalize_email env email)) w.users
    elim found [
      | none ↦ pure tt
      | some u ↦ if is_disabled_user u then pure tt else (do
        transaction (create_password_reset_token env u.id)
        send_auth_email env u.email "Reset your VowGrid password"
        emit_audit_event env
            (account_event env "auth.password_reset.requested" u.id u.workspace_id u.email)
        observe "auth:password_reset_requested")
    ]

  -- The transaction: the new password, the token used up and the sessions ended.
  unfoldable pub reset_password : PasswordResetToken → String → Action env (Unit {0})
  unfolding update_user
  reset_password record_row hash = do
    update_user env record_row.user_id λ u. record u { password_hash = some hash }
    now ← ask env.clock
    put_auth λ a. record a {
      reset_tokens =
          env.db.update (reset_is record_row.id)
            (λ (t : PasswordResetToken). record t { used_at = some now }) a.reset_tokens;
    }
    later ← ask env.clock
    put_sessions (env.db.update (open_session_of record_row.user_id) (revoked later))

  unfoldable pub confirm_dashboard_password_reset : String → String → Action env (Unit {0})
  unfolding hash_opaque_token hash_password reset_password
  confirm_dashboard_password_reset token password = do
    hash ← settle (hash_opaque_token env token)
    found ← query λ w. env.db.find_first (reset_by hash) w.auth.reset_tokens
    row ← or_raise found (validation "Invalid or expired password reset token.")
    account ← query λ w. env.db.find_first (user_is row.user_id) w.users
    u ← or_raise account record_missing
    now ← ask env.clock
    raise_if (is_some row.used_at || leb row.expires_at now)
        (validation "Invalid or expired password reset token.")
    salt ← ask env.random_salt
    transaction (reset_password row (hash_password env password salt))
    emit_audit_event env
        (account_event env "auth.password_reset.completed" row.user_id u.workspace_id u.email)
    observe "auth:password_reset_completed"

  unfoldable pub request_dashboard_email_verification : ℕ → Action env (Unit {0})
  unfolding create_email_verification_token send_auth_email
  request_dashboard_email_verification user_id = do
    found ← query λ w. env.db.find_first (user_is user_id) w.users
    u ← or_raise found (not_found "User" user_id)
    if is_some u.email_verified_at then pure tt else (do
      transaction (create_email_verification_token env u.id u.email)
      send_auth_email env u.email "Verify your VowGrid email"
      emit_audit_event env
          (account_event env "auth.email_verification.requested" u.id u.workspace_id u.email)
      observe "auth:email_verification_requested")

  unfoldable pub verify_email : EmailVerificationToken → Action env (Unit {0})
  unfolding update_user
  verify_email row = do
    now ← ask env.clock
    update_user env row.user_id λ u. record u { email_verified_at = some now }
    later ← ask env.clock
    put_auth λ a. record a {
      verification_tokens =
          env.db.update (verification_is row.id)
            (λ (t : EmailVerificationToken). record t { used_at = some later })
            a.verification_tokens;
    }

  unfoldable pub verify_dashboard_email_token : String → Action env (Unit {0})
  unfolding hash_opaque_token verify_email
  verify_dashboard_email_token token = do
    hash ← settle (hash_opaque_token env token)
    found ← query λ w. env.db.find_first (verification_by hash) w.auth.verification_tokens
    row ← or_raise found (validation "Invalid or expired email verification token.")
    account ← query λ w. env.db.find_first (user_is row.user_id) w.users
    u ← or_raise account record_missing
    now ← ask env.clock
    raise_if (is_some row.used_at || leb row.expires_at now)
        (validation "Invalid or expired email verification token.")
    transaction (verify_email row)
    emit_audit_event env
        (account_event env "auth.email_verified" row.user_id u.workspace_id row.email)
    observe "auth:email_verified"
