-- ===== src/Auth.antt =====
-- Accounts, sessions and tokens (apps/api/src/modules/auth).
pub mod Rows
pub mod Security
pub mod Tables
pub mod Memberships
pub mod Sessions
pub mod Recovery
pub mod Guard
pub mod Ending
pub mod Slug
pub mod Signup
pub mod Oauth
pub mod Invites
pub mod Plugin
pub mod Login
