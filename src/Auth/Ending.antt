-- ===== src/Auth/Ending.antt =====
-- apps/api/src/modules/auth/service.ts: what a logout and a password reset leave.
use mathlib.Core.Option.{some-injective}
use vowgrid_api.Common.{
  ℕ, ◌≡◌, refl, sym, ap, ◌∙◌, String, Bool, true, false, ◌||◌, suc, none, some, List, leb, arith,
  ==_iff, filter, Option-cases, ◌⊎◌, inl, inr, [], ◌∷◌,
}
use vowgrid_api.Env.{Env, resolved}
use vowgrid_api.Prisma.{IsLawful, replace}
use vowgrid_api.Prisma.Laws.{find_first-update, find_first-updated}
use vowgrid_api.Rows.{User}
use vowgrid_api.Auth.Rows.{UserSession, PasswordResetToken}
use vowgrid_api.Auth.Security.{hash_session_token, hash_opaque_token, hash_password}
use vowgrid_api.Auth.Tables.{
  is_some, session_is, user_is, session_by, update_session, update_user, open_session_of, revoked,
}
use vowgrid_api.Auth.Sessions.{get_session_authentication_context, logout_dashboard_session}
use vowgrid_api.Auth.Guard.{get_session_authentication_context-Accepts}
use vowgrid_api.Auth.Recovery.{
  reset_password, reset_by, reset_is, account_event, confirm_dashboard_password_reset,
}
use vowgrid_api.Audits.Chain.{emit_audit_event-frame}
use vowgrid_api.World.{World, Result, is_err, ok, err, run_steps}

-- No row that meets the condition is left.
pub filter-replace_none :
    {A : Type 0} (p : A → Bool) (f : A → A) (rows : List A)
    → ((r : A) → p (f r) ≡ false)
    → filter p (replace p f rows) ≡ []
filter-replace_none p f [] h = refl
filter-replace_none p f (r ∷ rows) h = ground (arith, h r, filter-replace_none p f rows h)

module _ (env : Env) where
  -- A token that is unknown, used or expired changes no password, ends no session and leaves the world
  -- as it was, but for the time.
  pub confirm_dashboard_password_reset-refused :
      (token password : String) (w : World env) {hash : String}
      → hash_opaque_token env token ≡ resolved hash
      → (env.db.find_first (reset_by hash) w.auth.reset_tokens ≡ none)
        ⊎ ((row : PasswordResetToken) × (env.db.find_first (reset_by hash) w.auth.reset_tokens
              ≡ some row)
            × ((is_some row.used_at || leb row.expires_at (env.clock w.ticks)) ≡ true))
      → let out = confirm_dashboard_password_reset env token password w in
        (is_err out.0 ≡ true) × (record w { ticks = out.1.ticks } ≡ out.1)
  unfolding confirm_dashboard_password_reset run_steps
  confirm_dashboard_password_reset-refused token password w {hash} h (inl missing) =
      rw (h, missing) (refl, refl)
  confirm_dashboard_password_reset-refused token password w {hash} h (inr (row, found, spent)) =
      elim (Option-cases (env.db.find_first (user_is row.user_id) w.users)) [
        | inl missing ↦ rw (h, found, missing) (refl, refl)
        | inr (u, account) ↦ rw (h, found, account, spent) (refl, refl)
      ]

module _ (env : Env) (L : IsLawful env.db) where
  open_session_of-revoked :
      (id now : ℕ) (s : UserSession) → open_session_of id (revoked now s) ≡ false
  open_session_of-revoked id now s = ground arith

  -- The world after the transaction of a reset.
  abbrev reset_world : PasswordResetToken → String → World env → World env
  reset_world row hash w = record w {
    users =
        env.db.update (user_is row.user_id) (λ (u : User). record u { password_hash = some hash })
          w.users;
    auth = record w.auth {
      reset_tokens =
          env.db.update (reset_is row.id)
            (λ (t : PasswordResetToken). record t { used_at = some (env.clock w.ticks) })
            w.auth.reset_tokens;
      sessions =
          env.db.update (open_session_of row.user_id) (revoked (env.clock (suc w.ticks)))
            w.auth.sessions;
    };
    ticks = suc (suc w.ticks);
  }

  reset_password_lem :
      (row : PasswordResetToken) (hash : String) (w : World env) {u : User}
      → env.db.find_first (user_is row.user_id) w.users ≡ some u
      → reset_password env row hash w ≡ (ok tt, reset_world row hash w)
  unfolding reset_password update_user run_steps
  reset_password_lem row hash w found = ground arith

  -- The event and the counter leave the tables of the reset as they are.
  confirm_lem :
      (token password : String) (w : World env) {hash : String} {row : PasswordResetToken}
      {u : User}
      → hash_opaque_token env token ≡ resolved hash
      → env.db.find_first (reset_by hash) w.auth.reset_tokens ≡ some row
      → env.db.find_first (user_is row.user_id) w.users ≡ some u
      → (is_some row.used_at || leb row.expires_at (env.clock w.ticks)) ≡ false
      → let out = confirm_dashboard_password_reset env token password w in
        let v =
          reset_world row
            (hash_password env password (env.random_salt (suc w.ticks)))
            (record w { ticks = suc (suc w.ticks) }) in
        (out.0 ≡ ok tt) × (out.1.auth ≡ v.auth) × (out.1.users ≡ v.users)
  unfolding confirm_dashboard_password_reset run_steps
  confirm_lem token password w {hash} {row} {u} h found account usable = ground (
    arith,
    reset_password_lem row (hash_password env password (env.random_salt (suc w.ticks)))
        (record w { ticks = suc (suc w.ticks) }) account,
    emit_audit_event-frame env
        (account_event env "auth.password_reset.completed" row.user_id u.workspace_id u.email)
        (reset_world row (hash_password env password (env.random_salt (suc w.ticks)))
          (record w { ticks = suc (suc w.ticks) })),
  )

  logout_lem :
      (id : ℕ) (w : World env) {s : UserSession}
      → env.db.find_first (session_is id) w.auth.sessions ≡ some s
      → let out = logout_dashboard_session env id w in
        (out.0 ≡ ok tt)
        × (out.1.auth.sessions
            ≡ env.db.update (session_is id) (revoked (env.clock w.ticks)) w.auth.sessions)
  unfolding logout_dashboard_session update_session run_steps
  logout_lem id w found = rw found (refl, refl)

  -- After the logout of the session that a token finds, which succeeds, the token authenticates no
  -- request, at any time at which the sessions are still these.
  pub logout_dashboard_session-ends :
      (token : String) (w v : World env) {hash : String} {s : UserSession}
      → hash_session_token env token ≡ resolved hash
      → env.db.find_first (session_by hash) w.auth.sessions ≡ some s
      → env.db.find_first (session_is s.id) w.auth.sessions ≡ some s
      → let out = logout_dashboard_session env s.id w in
        v.auth.sessions ≡ out.1.auth.sessions
        → (out.0 ≡ ok tt) × (is_err (get_session_authentication_context env token v).0 ≡ true)
  logout_dashboard_session-ends token w v {hash} {s} h by_hash by_id same =
      let out = logout_lem s.id w by_id in
      (
        out.0,
        fails _ (λ c e.
            let known = get_session_authentication_context-Accepts env L token v h e in
            still_open
              (some-injective _ _
                (sym known.1 ∙ ap (env.db.find_first (session_by hash)) (same ∙ out.1) ∙ closed))
              known.2.not_revoked),
      )
    where
      fails : {A : Type 0} (r : Result A) → ((a : A) → ¬ (r ≡ ok a)) → is_err r ≡ true
      fails (ok a) never = absurd (never a refl)
      fails (err e) never = refl

      closed :
          env.db.find_first
            (session_by hash)
            (env.db.update (session_is s.id) (revoked (env.clock w.ticks)) w.auth.sessions)
          ≡ some (revoked (env.clock w.ticks) s)
      closed =
          rw
            (
              find_first-update env.db L (session_by hash) (session_is s.id)
                  (revoked (env.clock w.ticks)) w.auth.sessions (λ r. refl),
              by_hash,
            )
            (rw ((==_iff s.id s.id).1 refl) refl)

      still_open :
          {t : UserSession} → t ≡ revoked (env.clock w.ticks) s → ¬ (is_some t.revoked_at ≡ false)
      still_open e h = true-ne-false (sym (ap (λ (x : UserSession). is_some x.revoked_at) e) ∙ h)
        where
          true-ne-false : ¬ (true ≡ false)
          true-ne-false e = cc

  module _ (token password : String) (w : World env) {hash : String} {row : PasswordResetToken}
      {u : User} (h : hash_opaque_token env token ≡ resolved hash)
      (found : env.db.find_first (reset_by hash) w.auth.reset_tokens ≡ some row)
      (account : env.db.find_first (user_is row.user_id) w.users ≡ some u)
      (usable : (is_some row.used_at || leb row.expires_at (env.clock w.ticks)) ≡ false) where
    -- A reset with an unused token in time succeeds: the account, which is there, then has the hash of
    -- the new password, and no session of it is open.
    pub confirm_dashboard_password_reset-resets :
        let out = confirm_dashboard_password_reset env token password w in
        (out.0 ≡ ok tt)
        × (env.db.find_many (open_session_of row.user_id) out.1.auth.sessions ≡ [])
        × (env.db.find_first (user_is row.user_id) out.1.users
            ≡ some (record u {
              password_hash = some (hash_password env password (env.random_salt (suc w.ticks)));
            }))
    confirm_dashboard_password_reset-resets =
        let c = confirm_lem token password w h found account usable in
        (
          c.0,
          rw (c.1, L.find_many-eq, L.rows-update)
              (filter-replace_none (open_session_of row.user_id) _ _
                (open_session_of-revoked row.user_id (env.clock (suc (suc (suc w.ticks)))))),
          rw c.2 (find_first-updated env.db L (user_is row.user_id) _ w.users (λ r. refl) account),
        )

    -- A token resets a password once: after it has, it is refused.
    pub confirm_dashboard_password_reset-once :
        (other : String)
        → let out = confirm_dashboard_password_reset env token password w in
          is_err (confirm_dashboard_password_reset env token other out.1).0 ≡ true
    confirm_dashboard_password_reset-once other =
        let c = confirm_lem token password w h found account usable in
        let used : PasswordResetToken = record row {
          used_at = some (env.clock (suc (suc w.ticks)));
        } in
        (confirm_dashboard_password_reset-refused env token other
          (confirm_dashboard_password_reset env token password w).1 h
          (inr (
            used,
            (rw c.1 (
                rw
                  (
                    find_first-update env.db L (reset_by hash) (reset_is row.id)
                        (λ (t : PasswordResetToken). record t {
                          used_at = some (env.clock (suc (suc w.ticks)));
                        })
                        w.auth.reset_tokens (λ r. refl),
                    found,
                  )
                  (rw ((==_iff row.id row.id).1 refl) refl))),
            refl,
          ))).0
