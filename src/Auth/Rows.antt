-- ===== src/Auth/Rows.antt =====
-- The tables of apps/api/src/modules/auth and of apps/api/src/modules/workspace-admin
-- (apps/api/prisma/schema.prisma).
use vowgrid_api.Common.{ℕ, String, Option, List}
use vowgrid_api.Prisma.{Prisma}
use vowgrid_api.Rows.{Role}

pub record UserSession : Type 0 where
  pub id : ℕ
  pub user_id : ℕ
  pub workspace_id : ℕ
  pub token_hash : String
  pub expires_at : ℕ
  pub last_used_at : Option ℕ
  pub revoked_at : Option ℕ

pub record PasswordResetToken : Type 0 where
  pub id : ℕ
  pub user_id : ℕ
  pub token_hash : String
  pub expires_at : ℕ
  pub used_at : Option ℕ

pub record EmailVerificationToken : Type 0 where
  pub id : ℕ
  pub user_id : ℕ
  pub email : String
  pub token_hash : String
  pub expires_at : ℕ
  pub used_at : Option ℕ

pub record WorkspaceInvite : Type 0 where
  pub id : ℕ
  pub workspace_id : ℕ
  pub email : String
  pub role : Role
  pub token_hash : String
  pub invited_by_user_id : String
  pub expires_at : ℕ
  pub accepted_at : Option ℕ
  pub revoked_at : Option ℕ

pub record OauthAccount : Type 0 where
  pub user_id : ℕ
  pub provider : String
  pub provider_account_id : String
  pub email : String

pub record OauthSignupToken : Type 0 where
  pub id : ℕ
  pub provider : String
  pub provider_account_id : String
  pub email : String
  pub name : String
  pub token_hash : String
  pub expires_at : ℕ
  pub used_at : Option ℕ

pub record ApiKey : Type 0 where
  pub id : ℕ
  pub name : String
  pub key_hash : String
  pub key_prefix : String
  pub workspace_id : ℕ
  pub scopes : List String
  pub expires_at : Option ℕ
  pub last_used_at : Option ℕ
  pub revoked_at : Option ℕ

pub record AuthTables (db : Prisma) : Type 0 where
  pub sessions : db.Table UserSession
  pub reset_tokens : db.Table PasswordResetToken
  pub verification_tokens : db.Table EmailVerificationToken
  pub invites : db.Table WorkspaceInvite
  pub oauth_accounts : db.Table OauthAccount
  pub oauth_signup_tokens : db.Table OauthSignupToken
  pub api_keys : db.Table ApiKey
  -- the recipients and subjects of the mails that were sent
  pub outbox : List (String × String)
