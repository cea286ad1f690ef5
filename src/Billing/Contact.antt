-- ===== src/Billing/Contact.antt =====
-- apps/api/src/modules/billing/entitlements.ts: the contact of a workspace, and the billing customer
-- that is made from it.
use vowgrid_api.Common.{
  ℕ, String, Bool, true, false, not, ◌&&◌, Option, none, some, List, [], ◌∷◌, ltb, ◌==◌,
  if◌then◌else◌,
}
use vowgrid_api.Env.{Env}
use vowgrid_api.Rows.{
  is_disabled, Role, owner, admin, member, viewer, other, User, WorkspaceMembership,
}
use vowgrid_api.Billing.Rows.{Workspace, BillingCustomer}
use vowgrid_api.World.{Action, ◌>>=◌, pure, query, write, when}

abbrev is_none {ℓ} : {A : Type ℓ} → Option A → Bool
is_none none = true
is_none (some _) = false

-- The place of a role in the order of contacts; `indexOf` is -1 for another role, which is first.
abbrev contact_rank : Role → ℕ
contact_rank other = 0
contact_rank owner = 1
contact_rank admin = 2
contact_rank member = 3
contact_rank viewer = 4

-- The members with the emails of their users.
abbrev contacts : (ℕ → Option User) → List WorkspaceMembership → List (Role × String)
contacts user_of [] = []
contacts user_of (m ∷ ms) =
    let rest = contacts user_of ms in
    elim (user_of m.user_id) [ none ↦ rest | some u ↦ (m.role, u.email) ∷ rest ]

-- The first of the stable sort by rank.
unfoldable pub pick_billing_contact : List (Role × String) → Option (Role × String)
pick_billing_contact [] = none
pick_billing_contact (c ∷ cs) = elim (pick_billing_contact cs) [
  | none ↦ some c
  | some best ↦ if ltb (contact_rank best.0) (contact_rank c.0) then some best else some c
]

module _ (env : Env) where
  abbrev put_customers :
      (env.db.Table BillingCustomer → env.db.Table BillingCustomer) → Action env (Unit {0})
  put_customers f = write λ w. record w {
    billing = record (w.billing) { billing_customers = f w.billing.billing_customers };
  }

  -- The customer is made from the contact, where the workspace has one.
  unfoldable pub ensure_billing_customer : Workspace → Action env (Unit {0})
  unfolding pick_billing_contact
  ensure_billing_customer workspace = do
    existing ← query λ w.
        env.db.find_first (λ (c : BillingCustomer). c.workspace_id == workspace.id)
          w.billing.billing_customers
    members ← query λ w.
        env.db.find_many
          (λ (m : WorkspaceMembership). m.workspace_id == workspace.id && not (is_disabled m))
          w.memberships
    contact ← query λ w.
        pick_billing_contact
          (contacts (λ id. env.db.find_first (λ (u : User). u.id == id) w.users) members)
    id ← query λ w. env.db.next_id (λ (c : BillingCustomer). c.id) w.billing.billing_customers
    when (is_none existing) (elim contact [
      | none ↦ pure tt
      | some c ↦ put_customers (
          env.db.create (record {
            id = id;
            workspace_id = workspace.id;
            email = c.1;
            legal_name = some workspace.name;
            mercado_pago_customer_id = none;
            tax_profile = none;
            active_coupon = none;
          }))
    ])
