-- ===== src/Auth/Memberships.antt =====
-- apps/api/src/modules/auth/service.ts: the workspaces of a user.
use vowgrid_api.Common.{
  ℕ, String, Bool, true, false, not, ◌&&◌, Option, none, some, List, [], ◌∷◌, map, filter, find,
  ◌==◌, if◌then◌else◌,
}
use vowgrid_api.Env.{Env}
use vowgrid_api.Rows.{is_disabled, Role, User, WorkspaceMembership}
use vowgrid_api.Billing.Rows.{Workspace}
use vowgrid_api.Auth.Tables.{membership_is, put_memberships}
use vowgrid_api.World.{World, Action, unauthorized, ◌>>=◌, ◌>>◌, pure, query, or_raise}

-- A membership with its workspace.
pub record MembershipRecord : Type 0 where
  pub membership : WorkspaceMembership
  pub workspace : Workspace

pub record AvailableWorkspace : Type 0 where
  pub workspace_id : ℕ
  pub name : String
  pub slug : String
  pub role : Role
  pub active : Bool
  pub is_default : Bool
  pub disabled_at : Option ℕ

unfoldable pub serialize_available_workspace : ℕ → MembershipRecord → AvailableWorkspace
serialize_available_workspace default_id r = record {
  workspace_id = r.membership.workspace_id;
  name = r.workspace.name;
  slug = r.workspace.slug;
  role = r.membership.role;
  active = not (is_disabled r.membership);
  is_default = r.membership.workspace_id == default_id;
  disabled_at = r.membership.disabled_at;
}

-- Whether the comparison of the source does not put `a` after `b`.
unfoldable pub membership_before : Env → ℕ → MembershipRecord → MembershipRecord → Bool
membership_before env default_id a b =
    if is_disabled a.membership && not (is_disabled b.membership)
    then false
    else if not (is_disabled a.membership) && (is_disabled b.membership)
    then true
    else if a.membership.workspace_id == default_id
    then true
    else if b.membership.workspace_id == default_id
    then false
    else env.text_le a.workspace.name b.workspace.name

unfoldable pub insert_membership :
    Env → ℕ → MembershipRecord → List MembershipRecord → List MembershipRecord
unfolding membership_before
insert_membership env default_id r [] = r ∷ []
insert_membership env default_id r (s ∷ ss) =
    let rest = insert_membership env default_id r ss in
    if membership_before env default_id r s then r ∷ s ∷ ss else s ∷ rest

unfoldable pub sort_memberships : Env → ℕ → List MembershipRecord → List MembershipRecord
unfolding insert_membership
sort_memberships env default_id [] = []
sort_memberships env default_id (r ∷ rs) =
    insert_membership env default_id r (sort_memberships env default_id rs)

abbrev with_workspaces : (ℕ → Option Workspace) → List WorkspaceMembership → List MembershipRecord
with_workspaces workspace_of [] = []
with_workspaces workspace_of (m ∷ ms) =
    let rest = with_workspaces workspace_of ms in
    elim (workspace_of m.workspace_id) [
      | none ↦ rest
      | some x ↦ record { membership = m; workspace = x } ∷ rest
    ]

abbrev pub workspace_row : (env : Env) → World env → ℕ → Option Workspace
workspace_row env w id =
    env.db.find_first (λ (x : Workspace). x.id == id) w.billing.workspaces_table

abbrev is_active : MembershipRecord → Bool
is_active r = not (is_disabled r.membership)

-- The preferred workspace, if it is active, or the first that is.
unfoldable pub resolve_active_membership : List MembershipRecord → ℕ → Option MembershipRecord
resolve_active_membership records preferred =
    let actives = filter is_active records in
    elim (find (λ (r : MembershipRecord). r.membership.workspace_id == preferred) actives) [
      | some r ↦ some r
      | none ↦ elim actives [ [] ↦ none | r ∷ rs ↦ some r ]
    ]

module _ (env : Env) where
  -- `upsert` of the membership of the default workspace; its role is the user's from now on.
  unfoldable pub ensure_primary_membership : User → Action env (Unit {0})
  ensure_primary_membership u = do
    found ← query λ w. env.db.find_first (membership_is u.id u.workspace_id) w.memberships
    elim found [
      | some m ↦ put_memberships (
          env.db.update (membership_is u.id u.workspace_id)
            (λ (m : WorkspaceMembership). record m { role = u.role }))
      | none ↦ put_memberships (
          env.db.create (record {
            user_id = u.id;
            workspace_id = u.workspace_id;
            role = u.role;
            disabled_at = u.disabled_at;
          }))
    ]

  unfoldable pub list_membership_records : ℕ → ℕ → Action env (List MembershipRecord)
  unfolding sort_memberships
  list_membership_records user_id default_id = query λ w. sort_memberships env default_id (
      with_workspaces (workspace_row env w)
        (env.db.find_many (λ (m : WorkspaceMembership). m.user_id == user_id) w.memberships))

  unfoldable pub load_user_membership_context :
      User → ℕ → Action env (MembershipRecord × List AvailableWorkspace)
  unfolding ensure_primary_membership list_membership_records resolve_active_membership
      serialize_available_workspace
  load_user_membership_context u preferred = do
    ensure_primary_membership u
    records ← list_membership_records u.id u.workspace_id
    current ←
        or_raise (resolve_active_membership records preferred)
          (unauthorized "This account does not currently have access to any active workspace.")
    pure (current, map (serialize_available_workspace u.workspace_id) records)
