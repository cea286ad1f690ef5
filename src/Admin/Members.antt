-- ===== src/Admin/Members.antt =====
-- apps/api/src/modules/workspace-admin/service.ts: the members of a workspace.
use vowgrid_api.Common.{
  ℕ, String, Bool, true, false, not, ◌&&◌, Option, none, some, List, [], ◌∷◌, ltb, ◌==◌, str_eq,
  if◌then◌else◌, map,
}
use vowgrid_api.Env.{Env}
use vowgrid_api.Json.{Json, text, object, end, field}
use vowgrid_api.Rows.{
  is_disabled, User, WorkspaceMembership, Role, owner, admin, member, viewer, other, user,
}
use vowgrid_api.Auth.Tables.{
  is_some, role_name, user_is, membership_is, put_memberships, update_user,
}
use vowgrid_api.World.{
  World, Action, not_found, conflict, forbidden, record_missing, ◌>>=◌, ◌>>◌, pure, query, or_raise,
  raise_if,
}
use vowgrid_api.Audits.{AuditEventInput}

-- A membership with its user.
pub record Member : Type 0 where
  pub membership : WorkspaceMembership
  pub account : User

pub data MemberStatus : Type 0 where
  active_member disabled_member : MemberStatus

pub record MemberResponse : Type 0 where
  pub id : ℕ
  pub email : String
  pub name : String
  pub role : Role
  pub status : MemberStatus
  pub last_login_at : Option ℕ
  pub disabled_at : Option ℕ

unfoldable pub resolve_member_status : WorkspaceMembership → MemberStatus
resolve_member_status m = if is_disabled m then disabled_member else active_member

unfoldable pub serialize_workspace_member : Member → MemberResponse
unfolding resolve_member_status
serialize_workspace_member m = record {
  id = m.account.id;
  email = m.account.email;
  name = m.account.name;
  role = m.membership.role;
  status = resolve_member_status m.membership;
  last_login_at = m.account.last_login_at;
  disabled_at = m.membership.disabled_at;
}

abbrev pub is_owner : Role → Bool
is_owner owner = true
is_owner _ = false

-- The place in `MEMBER_ROLE_ORDER`, one up: `indexOf` gives -1 for a role that is not there.
unfoldable pub role_rank : Role → ℕ
role_rank owner = 1
role_rank admin = 2
role_rank member = 3
role_rank viewer = 4
role_rank other = 0

-- Whether the comparison of the source does not put `a` after `b`.
unfoldable pub member_before : Env → Member → Member → Bool
unfolding role_rank
member_before env a b =
    if not (is_disabled a.membership) && (is_disabled b.membership)
    then true
    else if is_disabled a.membership && not (is_disabled b.membership)
    then false
    else if ltb (role_rank a.membership.role) (role_rank b.membership.role)
    then true
    else if ltb (role_rank b.membership.role) (role_rank a.membership.role)
    then false
    else env.text_le a.account.name b.account.name

unfoldable pub insert_member : Env → Member → List Member → List Member
unfolding member_before
insert_member env m [] = m ∷ []
insert_member env m (x ∷ xs) =
    let rest = insert_member env m xs in if member_before env m x then m ∷ x ∷ xs else x ∷ rest

unfoldable pub sort_members : Env → List Member → List Member
unfolding insert_member
sort_members env [] = []
sort_members env (m ∷ ms) = insert_member env m (sort_members env ms)

abbrev member_of : (ℕ → Option User) → Option WorkspaceMembership → Option Member
member_of account_of none = none
member_of account_of (some m) = elim (account_of m.user_id) [
  | none ↦ none
  | some u ↦ some (record { membership = m; account = u })
]

abbrev members_of : (ℕ → Option User) → List WorkspaceMembership → List Member
members_of account_of [] = []
members_of account_of (m ∷ ms) =
    let rest = members_of account_of ms in
    elim (account_of m.user_id) [
      | none ↦ rest
      | some u ↦ record { membership = m; account = u } ∷ rest
    ]

module _ (env : Env) where
  abbrev account_in : World env → ℕ → Option User
  account_in w id = env.db.find_first (user_is id) w.users

  abbrev pub member_in : ℕ → ℕ → World env → Option Member
  member_in user_id ws w =
      member_of (account_in w) (env.db.find_first (membership_is user_id ws) w.memberships)

  unfoldable pub get_workspace_membership_or_throw : ℕ → ℕ → Action env Member
  get_workspace_membership_or_throw user_id ws = do
    found ← query (member_in user_id ws)
    or_raise found (not_found "WorkspaceMembership" user_id)

  -- `workspaceMembership.findUniqueOrThrow`
  unfoldable pub get_member : ℕ → ℕ → Action env Member
  get_member user_id ws = do found ← query (member_in user_id ws); or_raise found record_missing

  -- `workspaceMembership.update`
  unfoldable pub update_membership :
      ℕ → ℕ → (WorkspaceMembership → WorkspaceMembership) → Action env (Unit {0})
  update_membership user_id ws f = do
    found ← query λ w. env.db.find_first (membership_is user_id ws) w.memberships
    or_raise found record_missing
    put_memberships (env.db.update (membership_is user_id ws) f)

  unfoldable pub assert_member_can_be_disabled : Member → String → Action env (Unit {0})
  assert_member_can_be_disabled m actor_id = do
    raise_if (is_owner m.membership.role)
        (forbidden "Workspace owners cannot be disabled from this admin surface.")
    raise_if (str_eq (env.id_text m.membership.user_id) actor_id)
        (forbidden "You cannot disable your own account from this admin surface.")

  unfoldable pub assert_member_can_be_anonymized : Member → Action env (Unit {0})
  assert_member_can_be_anonymized m = do
    raise_if (is_owner m.membership.role)
        (forbidden "Workspace owners cannot be anonymized from this admin surface.")
    raise_if (not (is_disabled m.membership))
        (forbidden "Disable the workspace member before anonymizing personally identifiable data.")
    raise_if (env.ends_with m.account.email "@redacted.vowgrid.invalid")
        (conflict "This workspace member has already been anonymized.")

  -- The rows of a table are in the order of their creation, so the first is the oldest.
  unfoldable pub realign_user_default_workspace : ℕ → ℕ → Action env (Unit {0})
  unfolding update_user
  realign_user_default_workspace user_id ws = do
    next ← query λ w.
        env.db.find_first
          (λ (m : WorkspaceMembership).
            m.user_id == user_id && not (is_disabled m) && not (m.workspace_id == ws))
          w.memberships
    elim next [
      | none ↦ pure tt
      | some m ↦
          update_user env user_id (λ u. record u { workspace_id = m.workspace_id; role = m.role })
          >> pure tt
    ]

  -- The membership in the workspace of a user with the email.
  abbrev has_email : World env → String → WorkspaceMembership → Bool
  has_email w email m = elim (account_in w m.user_id) [
    | none ↦ false
    | some u ↦ str_eq u.email email
  ]

  unfoldable pub assert_workspace_membership_does_not_exist : String → ℕ → Action env (Unit {0})
  assert_workspace_membership_does_not_exist email ws = do
    existing ← query λ w.
        env.db.find_first (λ (m : WorkspaceMembership). m.workspace_id == ws && has_email w email m)
          w.memberships
    raise_if (is_some existing) (conflict "That user already belongs to this workspace.")

  unfoldable pub list_workspace_members : ℕ → Action env (List MemberResponse)
  unfolding sort_members serialize_workspace_member
  list_workspace_members ws = query λ w. map serialize_workspace_member (
      sort_members env (
        members_of (account_in w)
          (env.db.find_many (λ (m : WorkspaceMembership). m.workspace_id == ws) w.memberships)))

  abbrev pub member_event : String → ℕ → ℕ → String → Json → AuditEventInput
  member_event action user_id ws actor_id metadata = record {
    action = action;
    entity_type = "user";
    entity_id = user_id;
    actor_type = user;
    actor_id = actor_id;
    workspace_id = ws;
    metadata = some metadata;
  }

  abbrev pub email_and_role : String → Role → Json
  email_and_role email role =
      object (field "email" (text email) (field "role" (text (role_name role)) end))
