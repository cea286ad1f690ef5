-- ===== src/Web.antt =====
-- The web application's own logic: signing in through a provider and the forms' tokens
-- (apps/web/src/lib/vowgrid).
pub mod Oauth
pub mod Csrf
