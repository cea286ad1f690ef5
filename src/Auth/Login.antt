-- ===== src/Auth/Login.antt =====
-- apps/api/src/modules/auth/service.ts: who logs in with a password.
use vowgrid_api.Common.{
  ◌≡◌, refl, ◌&&◌, String, Bool, true, false, not, Option, none, some, arith, inl, inr, Bool-cases,
  Option-cases,
}
use vowgrid_api.Env.{Env}
use vowgrid_api.Rows.{User, is_disabled_user}
use vowgrid_api.Auth.Security.{verify_password}
use vowgrid_api.Auth.Tables.{truthy, user_by_email, normalize_email}
use vowgrid_api.Auth.Signup.{login_dashboard_user}
use vowgrid_api.World.{World, is_err, run_steps}

-- What is checked of the account of an email before a login.
abbrev pub may_log_in : Env → String → Option User → Bool
may_log_in env password none = false
may_log_in env password (some u) = elim (truthy u.password_hash) [
  | none ↦ false
  | some stored ↦ not (is_disabled_user u) && verify_password env password stored
]

-- A login for an email without an account, of an account without a password or disabled, or with a
-- password that does not match ends with an error and has changed nothing.
pub login_dashboard_user-refused :
    (env : Env) (email password : String) (w : World env)
    → may_log_in env password
        (env.db.find_first (user_by_email (normalize_email env email)) w.users)
      ≡ false
    → let out = login_dashboard_user env email password w in (is_err out.0 ≡ true) × (out.1 ≡ w)
unfolding login_dashboard_user run_steps
login_dashboard_user-refused env email password w h =
    elim (Option-cases (env.db.find_first (user_by_email (normalize_email env email)) w.users)) [
      | inl missing ↦ rw missing (refl, refl)
      | inr (u, found) ↦ elim (Option-cases (truthy u.password_hash)) [
        | inl unset ↦ simp (found, unset) (refl, refl)
        | inr (stored, is_set) ↦ elim (Bool-cases (is_disabled_user u)) [
          | inl off ↦ simp (found, is_set, off) (refl, refl)
          | inr on ↦ elim (Bool-cases (verify_password env password stored)) [
            | inl fits ↦ absurd (ground arith)
            | inr unfit ↦ simp (found, is_set, on, unfit) (refl, refl)
          ]
        ]
      ]
    ]
