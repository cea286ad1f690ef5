-- ===== src/Admin/Suspension.antt =====
-- apps/api/src/modules/workspace-admin/service.ts: who is disabled, and what a member who is keeps.
use vowgrid_api.Common.{
  ℕ, suc, ◌≡◌, refl, String, true, false, some, [], arith, str_eq, ◌⊎◌, inl, inr,
}
use vowgrid_api.Env.{Env}
use vowgrid_api.Prisma.{IsLawful}
use vowgrid_api.Prisma.Laws.{find_first-updated, find_first_sound}
use vowgrid_api.Rows.{User, WorkspaceMembership, is_disabled}
use vowgrid_api.Auth.Rows.{UserSession}
use vowgrid_api.Auth.Tables.{user_is, membership_is, open_session_in, revoked, update_user}
use vowgrid_api.Auth.Ending.{filter-replace_none}
use vowgrid_api.World.{World, ok, is_err, run_steps}
use vowgrid_api.Audits.Chain.{emit_audit_event-frame}
use vowgrid_api.Admin.Members.{
  is_owner, get_workspace_membership_or_throw, get_member, update_membership,
  assert_member_can_be_disabled, realign_user_default_workspace, member_event, email_and_role,
}
use vowgrid_api.Admin.Changes.{suspend, realign, disable_workspace_member}

module _ (env : Env) where
  -- An owner is not disabled, and nobody disables themselves: the handler ends with an error and has
  -- changed nothing.
  pub disable_workspace_member-refused :
      (user_id ws : ℕ) (actor : String) (w : World env) {m : WorkspaceMembership} {u : User}
      → env.db.find_first (membership_is user_id ws) w.memberships ≡ some m
      → env.db.find_first (user_is m.user_id) w.users ≡ some u
      → (is_owner m.role ≡ true) ⊎ (str_eq (env.id_text m.user_id) actor ≡ true)
      → let out = disable_workspace_member env user_id ws actor w in
        (is_err out.0 ≡ true) × (out.1 ≡ w)
  unfolding disable_workspace_member get_workspace_membership_or_throw assert_member_can_be_disabled
      run_steps
  disable_workspace_member-refused user_id ws actor w found account (inl own) = ground arith
  disable_workspace_member-refused user_id ws actor w found account (inr self) = ground arith

  realign_lem :
      (user_id ws : ℕ) (w : World env) {u : User}
      → env.db.find_first (user_is user_id) w.users ≡ some u
      → realign env user_id ws w ≡ (ok tt, record w { users = (realign env user_id ws w).1.users })
  unfolding realign realign_user_default_workspace update_user run_steps
  realign_lem user_id ws w account = ground arith

module _ (env : Env) (L : IsLawful env.db) where
  abbrev off : ℕ → WorkspaceMembership → WorkspaceMembership
  off now m = record m { disabled_at = some now }

  abbrev suspended : ℕ → ℕ → ℕ → World env → World env
  suspended user_id ws now w = record w {
    memberships = env.db.update (membership_is user_id ws) (off now) w.memberships;
    auth = record w.auth {
      sessions = env.db.update (open_session_in user_id ws) (revoked now) w.auth.sessions;
    };
  }

  suspend_lem :
      (user_id ws now : ℕ) (w : World env) {m : WorkspaceMembership} {u : User}
      → env.db.find_first (membership_is user_id ws) w.memberships ≡ some m
      → env.db.find_first (user_is m.user_id) w.users ≡ some u
      → suspend env user_id ws now w
        ≡ (ok (record { membership = off now m; account = u }), suspended user_id ws now w)
  unfolding suspend update_membership get_member run_steps
  suspend_lem user_id ws now w found account = ground (
    arith,
    found,
    account,
    find_first-updated env.db L (membership_is user_id ws) (off now) w.memberships (λ r. refl)
        found,
  )

  own_id :
      (user_id ws : ℕ) (w : World env) {m : WorkspaceMembership}
      → env.db.find_first (membership_is user_id ws) w.memberships ≡ some m
      → m.user_id ≡ user_id
  own_id user_id ws w {m} found =
      ground (arith, find_first_sound env.db L (membership_is user_id ws) w.memberships found)

  disable_lem :
      (user_id ws : ℕ) (actor : String) (w : World env) {m : WorkspaceMembership} {u : User}
      → env.db.find_first (membership_is user_id ws) w.memberships ≡ some m
      → env.db.find_first (user_is m.user_id) w.users ≡ some u
      → is_owner m.role ≡ false
      → str_eq (env.id_text m.user_id) actor ≡ false
      → is_disabled m ≡ false
      → let out = disable_workspace_member env user_id ws actor w in
        let v = suspended user_id ws (env.clock w.ticks) w in
        (is_err out.0 ≡ false) × (out.1.memberships ≡ v.memberships) × (out.1.auth ≡ v.auth)
  unfolding disable_workspace_member get_workspace_membership_or_throw assert_member_can_be_disabled
      run_steps
  disable_lem user_id ws actor w {m} {u} found account plain another on =
      let v = suspended user_id ws (env.clock w.ticks) (record w { ticks = suc w.ticks }) in
      ground (
        arith,
        found,
        account,
        plain,
        another,
        on,
        suspend_lem user_id ws (env.clock w.ticks) (record w { ticks = suc w.ticks }) found account,
        realign_lem env user_id ws v (rw (own_id user_id ws w found) at account),
        emit_audit_event-frame env
            (member_event env "workspace.member.disabled" u.id ws actor
              (email_and_role env u.email m.role))
            (realign env user_id ws v).1,
      )

  -- The disabling of a member who is there with an account, no owner, not the one who asks and not
  -- disabled yet succeeds. The membership is then disabled, with its role as it was, and no session of
  -- the member in the workspace is open.
  pub disable_workspace_member-ends :
      (user_id ws : ℕ) (actor : String) (w : World env) {m : WorkspaceMembership} {u : User}
      → env.db.find_first (membership_is user_id ws) w.memberships ≡ some m
      → env.db.find_first (user_is m.user_id) w.users ≡ some u
      → is_owner m.role ≡ false
      → str_eq (env.id_text m.user_id) actor ≡ false
      → is_disabled m ≡ false
      → let out = disable_workspace_member env user_id ws actor w in
        (is_err out.0 ≡ false)
        × (env.db.find_many (open_session_in user_id ws) out.1.auth.sessions ≡ [])
        × (env.db.find_first (membership_is user_id ws) out.1.memberships
            ≡ some (record m { disabled_at = some (env.clock w.ticks) }))
  disable_workspace_member-ends user_id ws actor w found account plain another on =
      let c = disable_lem user_id ws actor w found account plain another on in
      (
        c.0,
        rw (c.2, L.find_many-eq, L.rows-update)
            (filter-replace_none (open_session_in user_id ws) _ _ (closed (env.clock w.ticks))),
        rw c.1 (
            find_first-updated env.db L (membership_is user_id ws) (off (env.clock w.ticks))
              w.memberships (λ r. refl) found),
      )
    where
      closed : (now : ℕ) (s : UserSession) → open_session_in user_id ws (revoked now s) ≡ false
      closed now s = ground arith
