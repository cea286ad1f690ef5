-- ===== src/Auth/Guard.antt =====
-- apps/api/src/modules/auth/service.ts: which sessions authenticate a request.
use vowgrid_api.Common.{
  ◌≡◌, refl, sym, ap, ◌∙◌, suc, ℕ, ==_iff, arith, String, false, Option, none, some, leb, inl, inr,
  Bool-cases, Option-cases,
}
use mathlib.Core.Path.{subst}
use vowgrid_api.Env.{Env, resolved}
use vowgrid_api.Rows.{is_disabled_user, is_disabled, User, WorkspaceMembership}
use vowgrid_api.Prisma.{IsLawful}
use vowgrid_api.Prisma.Laws.{find_first_sound}
use vowgrid_api.Auth.Rows.{UserSession}
use vowgrid_api.Auth.Security.{hash_session_token}
use vowgrid_api.Auth.Tables.{is_some, user_is, update_session, session_by, membership_is}
use vowgrid_api.Auth.Memberships.{MembershipRecord, ensure_primary_membership}
use vowgrid_api.Auth.Sessions.{
  admit, SessionLookup, AuthenticationContext, check_session, resolve_session, membership_record,
  find_session_by_token, require_session, get_session_authentication_context, touch_session,
}
use vowgrid_api.World.{World, Action, Result, ok, run_steps, pure, or_raise, unauthorized, ◌>>◌}
use vowgrid_api.World.Yields.{
  Yields, Yields-query, Yields-apply, Yields-bind, Yields-weaken, Yields-then,
}

-- What a session that authenticates at a world is: open, not expired by the clock, and of an account
-- that is there and not disabled.
pub record Accepts (env : Env) (w : World env) (s : UserSession) : Type 0 where
  pub user : User
  pub account : env.db.find_first (user_is s.user_id) w.users ≡ some user
  pub enabled : is_disabled_user user ≡ false
  pub not_revoked : is_some s.revoked_at ≡ false
  pub not_expired : leb s.expires_at (env.clock w.ticks) ≡ false

-- The world once the membership of the account in its default workspace has been brought up to date.
abbrev pub up_to_date : (env : Env) → User → World env → World env
up_to_date env u w = (ensure_primary_membership env u w).1

-- A lookup is of the session and of the account, with the membership of that account in the workspace of
-- the session, which is not disabled.
abbrev Resolved : (env : Env) → UserSession → User → World env → Option SessionLookup → Type 0
Resolved env s u v none = Unit
Resolved env s u v (some l) =
    (l.session ≡ s)
    × (l.user ≡ u)
    × (is_disabled l.current_membership.membership ≡ false)
    × (env.db.find_first (membership_is u.id s.workspace_id) v.memberships
        ≡ some l.current_membership.membership)

abbrev checked : (env : Env) → World env → World env
checked env w = record w { ticks = suc w.ticks }

abbrev Accepted : (env : Env) → World env → UserSession → Option SessionLookup → Type 0
Accepted env w s none = Unit
Accepted env w s (some l) =
    (a : Accepts env w s) × Resolved env s a.user (up_to_date env a.user (checked env w)) (some l)

module _ (env : Env) where
  membership_record-membership :
      (user_id ws : ℕ) (w : World env) {r : MembershipRecord}
      → membership_record env user_id ws w ≡ some r
      → env.db.find_first (membership_is user_id ws) w.memberships ≡ some r.membership
  membership_record-membership user_id ws w h = ground arith

  admit-Resolved :
      (s : UserSession) (u : User) (current : Option MembershipRecord) (v w : World env)
      → ((r : MembershipRecord)
          → current ≡ some r
          → env.db.find_first (membership_is u.id s.workspace_id) v.memberships ≡ some r.membership)
      → Yields (Resolved env s u v) (admit env s u current w)
  unfolding admit run_steps
  admit-Resolved s u none v w known = tt
  admit-Resolved s u (some r) v w known = elim (Bool-cases (is_disabled r.membership)) [
    | inl off ↦ rw off tt
    | inr on ↦ simp on (refl, refl, refl, known r refl)
  ]

  resolve_session-Resolved :
      (s : UserSession) (u : User) (w : World env)
      → Yields (Resolved env s u (up_to_date env u w)) (resolve_session env s u w)
  unfolding resolve_session
  resolve_session-Resolved s u w =
      let Q = Resolved env s u (up_to_date env u w) in
      Yields-bind Q (ensure_primary_membership env u) _ w (λ _ v e.
        Yields-query Q (membership_record env u.id s.workspace_id) _ v (
          admit-Resolved s u (membership_record env u.id s.workspace_id v) (up_to_date env u w) v
            (λ r h.
              ap
                (λ (o : Result (Unit {0}) × World env).
                  env.db.find_first (membership_is u.id s.workspace_id) o.1.memberships)
                e
              ∙ membership_record-membership u.id s.workspace_id v h)))

  Yields-none :
      (s : UserSession) (w : World env) (m : Action env (Unit {0})) (v : World env)
      → Yields (Accepted env w s) ((m >> pure none) v)
  unfolding pure
  Yields-none s w m v = Yields-bind (Accepted env w s) m (λ _. pure none) v (λ a u e. tt)

  check_session-Accepted :
      (s : UserSession) (w : World env) → Yields (Accepted env w s) (check_session env s w)
  unfolding check_session run_steps
  check_session-Accepted s w = elim (Option-cases (env.db.find_first (user_is s.user_id) w.users)) [
    | inl missing ↦ rw missing tt
    | inr (u, found) ↦ rw found (elim (Bool-cases (is_some s.revoked_at)) [
      | inl gone ↦ rw gone tt
      | inr live ↦ rw live (elim (Bool-cases (leb s.expires_at (env.clock w.ticks))) [
        | inl late ↦ rw late (Yields-none s w (update_session env s.id _) _)
        | inr in_time ↦ rw in_time (elim (Bool-cases (is_disabled_user u)) [
          | inl off ↦ rw off tt
          | inr on ↦ simp on (
              Yields-weaken (Resolved env s u (up_to_date env u (checked env w))) (Accepted env w s)
                (resolve_session env s u (checked env w)) (accepted u found on live in_time)
                (resolve_session-Resolved s u (checked env w)))
        ])
      ])
    ])
  ]
    where
      accepted :
          (u : User)
          → env.db.find_first (user_is s.user_id) w.users ≡ some u
          → is_disabled_user u ≡ false
          → is_some s.revoked_at ≡ false
          → leb s.expires_at (env.clock w.ticks) ≡ false
          → (o : Option SessionLookup) → Resolved env s u (up_to_date env u (checked env w)) o
          → Accepted env w s o
      accepted u found on live in_time none r = tt
      accepted u found on live in_time (some l) r = (
        record {
          user = u;
          account = found;
          enabled = on;
          not_revoked = live;
          not_expired = in_time;
        },
        r,
      )

  -- The session that a token finds.
  abbrev Found : World env → String → Option SessionLookup → Type 0
  Found w hash none = Unit
  Found w hash (some l) =
      (env.db.find_first (session_by hash) w.auth.sessions ≡ some l.session)
      × Accepted env w l.session (some l)

  find_session_by_token-Found :
      (token : String) (w : World env) {hash : String}
      → hash_session_token env token ≡ resolved hash
      → Yields (Found w hash) (find_session_by_token env token w)
  unfolding find_session_by_token run_steps
  find_session_by_token-Found token w {hash} h =
      rw h (elim (Option-cases (env.db.find_first (session_by hash) w.auth.sessions)) [
        | inl missing ↦ rw missing tt
        | inr (s, found) ↦ rw found (
            Yields-weaken (Accepted env w s) (Found w hash) (check_session env s w)
              (as_found s found) (check_session-Accepted s w))
      ])
    where
      as_found :
          (s : UserSession)
          → env.db.find_first (session_by hash) w.auth.sessions ≡ some s
          → (o : Option SessionLookup) → Accepted env w s o
          → Found w hash o
      as_found s found none a = tt
      as_found s found (some l) a =
          (found ∙ ap some (sym a.1.0), subst (λ t. Accepted env w t (some l)) (sym a.1.0) a)

  -- What a request that authenticates with the token acts as: the session that was found, its account
  -- and its workspace, with the role of the membership there, which is not disabled.
  abbrev pub Authenticated : World env → String → AuthenticationContext → Type 0
  Authenticated w hash c =
      (s : UserSession) × (env.db.find_first (session_by hash) w.auth.sessions ≡ some s)
      × (a : Accepts env w s) × (c.session_id ≡ s.id)
      × (c.user_id ≡ s.user_id)
      × (c.workspace_id ≡ s.workspace_id)
      × (m : WorkspaceMembership) × (env.db.find_first (membership_is s.user_id s.workspace_id)
            (up_to_date env a.user (checked env w)).memberships
          ≡ some m)
      × (is_disabled m ≡ false)
      × (c.role ≡ m.role)

  require_session-Found :
      (token : String) (w : World env) {hash : String}
      → hash_session_token env token ≡ resolved hash
      → Yields (λ l. Found w hash (some l)) (require_session env token w)
  unfolding or_raise
  require_session-Found token w {hash} h =
      Yields-then (Found w hash) (λ l. Found w hash (some l)) (find_session_by_token env token) _ w
        (find_session_by_token-Found token w h) present
    where
      present :
          (o : Option SessionLookup) (v : World env)
          → Found w hash o
          → Yields
              (λ l. Found w hash (some l))
              (or_raise o (unauthorized "Invalid or expired session.") v)
      present none v f = tt
      present (some l) v f = f

  module _ (L : IsLawful env.db) where
    acts_as :
        (w : World env) (hash : String) (l : SessionLookup)
        → Found w hash (some l)
        → Authenticated w hash (record {
          session_id = l.session.id;
          user_id = l.user.id;
          workspace_id = l.current_membership.membership.workspace_id;
          role = l.current_membership.membership.role;
        })
    acts_as w hash l f =
        let a = f.1.0 in
        let member = f.1.1.3 in
        let m = l.current_membership.membership in
        let own : a.user.id ≡ l.session.user_id =
          (==_iff _ _).0
            (find_first_sound env.db L (user_is l.session.user_id) w.users a.account) in
        let holds =
          find_first_sound env.db L (membership_is a.user.id l.session.workspace_id) _ member in
        (
          l.session,
          f.0,
          a,
          refl,
          ap (λ (u : User). u.id) f.1.1.1 ∙ own,
          ground (arith, holds),
          m,
          ap
                (λ k.
                  env.db.find_first (membership_is k l.session.workspace_id)
                    (up_to_date env a.user (checked env w)).memberships)
                (sym own)
              ∙ member,
          f.1.1.2,
          refl,
        )

    get_session_authentication_context-Yields :
        (token : String) (w : World env) {hash : String}
        → hash_session_token env token ≡ resolved hash
        → Yields (Authenticated w hash) (get_session_authentication_context env token w)
    unfolding get_session_authentication_context pure
    get_session_authentication_context-Yields token w {hash} h =
        Yields-then (λ l. Found w hash (some l)) (Authenticated w hash) (require_session env token)
          _ w (require_session-Found token w h)
          (λ l v f.
            Yields-bind (Authenticated w hash) (touch_session env l.session.id) _ v
              (λ _ _ _. acts_as w hash l f))

    -- A request authenticates only by a token whose session is open, not expired and of an account that
    -- is enabled. It acts as that session: its context has the session's id, its account and its
    -- workspace, and the role of the account's membership of that workspace, which is not disabled, once
    -- the membership of the default workspace has been brought up to date. The database does what its
    -- documentation says.
    pub get_session_authentication_context-Accepts :
        (token : String) (w : World env) {hash : String} {c : AuthenticationContext}
        → hash_session_token env token ≡ resolved hash
        → (get_session_authentication_context env token w).0 ≡ ok c
        → Authenticated w hash c
    get_session_authentication_context-Accepts token w {hash} h out =
        Yields-apply (Authenticated w hash) _ (get_session_authentication_context-Yields token w h)
          out
