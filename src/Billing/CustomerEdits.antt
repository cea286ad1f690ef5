-- ===== src/Billing/CustomerEdits.antt =====
-- apps/api/src/modules/billing/customer.ts: the changes of a billing customer and of its coupon.
use vowgrid_api.Common.{
  ℕ, String, Bool, false, Option, none, some, map, find, ◌==◌, str_eq, or_default,
}
use vowgrid_api.Env.{Env}
use vowgrid_api.Rows.{User}
use vowgrid_api.Billing.Rows.{
  Workspace, BillingCustomer, BillingTaxProfile, BillingCoupon, DocumentType,
}
use vowgrid_api.Auth.Tables.{truthy}
use vowgrid_api.World.{
  Action, validation, record_missing, ◌>>=◌, ◌>>◌, pure, query, write, or_raise,
}

-- A field of a request that may be left out: `undefined`, `null` or a value.
pub data Field (A : Type 0) : Type 0 where
  absent nothing : Field A
  given : A → Field A

pub record UpdateCustomerInput : Type 0 where
  pub legal_name : Option String
  pub country_code : Option String
  pub region_code : Option String
  pub document_type : Option DocumentType
  pub document_number : Option String
  pub tax_exempt : Option Bool
  pub tax_rate_bps_override : Field ℕ

-- `a ?? b`, where `b` may be missing too.
abbrev or_else : {A : Type 0} → Option A → Option A → Option A
or_else none d = d
or_else (some a) d = some a

abbrev mapped : (String → String) → Option String → Option String
mapped f none = none
mapped f (some s) = some (f s)

abbrev override : Field ℕ → Option ℕ → Option ℕ
override absent old = old
override nothing old = none
override (given n) old = some n

abbrev code_of : Env → String → String
code_of env s = env.upper (env.trim s)

abbrev empty_profile : BillingTaxProfile
empty_profile = record {
  country_code = none;
  region_code = none;
  document_type = none;
  document_number = none;
  tax_exempt = false;
  tax_rate_bps_override = none;
}

-- The profile after an update, over the one that was.
unfoldable pub updated_profile : Env → UpdateCustomerInput → BillingTaxProfile → BillingTaxProfile
updated_profile env input old = record {
  country_code = or_else (mapped (code_of env) input.country_code) old.country_code;
  region_code = or_else (mapped (code_of env) input.region_code) old.region_code;
  document_type = or_else input.document_type old.document_type;
  document_number = or_else (mapped env.trim input.document_number) old.document_number;
  tax_exempt = or_default input.tax_exempt old.tax_exempt;
  tax_rate_bps_override = override input.tax_rate_bps_override old.tax_rate_bps_override;
}

unfoldable pub normalize_coupon : Env → BillingCoupon → BillingCoupon
normalize_coupon env c = record c { code = env.upper (env.trim c.code); label = env.trim c.label }

unfoldable pub resolve_coupon : Env → String → Option BillingCoupon
unfolding normalize_coupon
resolve_coupon env code =
    find (λ (c : BillingCoupon). str_eq c.code (env.upper (env.trim code)))
      (map (normalize_coupon env) env.coupon_entries)

abbrev customer_of : ℕ → BillingCustomer → Bool
customer_of ws c = c.workspace_id == ws

module _ (env : Env) where
  abbrev edit_customers :
      (env.db.Table BillingCustomer → env.db.Table BillingCustomer) → Action env (Unit {0})
  edit_customers f = write λ w. record w {
    billing = record (w.billing) { billing_customers = f w.billing.billing_customers };
  }

  -- The workspace, its customer and the email of its oldest user.
  unfoldable pub load_customer : ℕ → Action env (Workspace × Option BillingCustomer × Option String)
  load_customer ws = do
    found ← query λ w. env.db.find_first (λ (x : Workspace). x.id == ws) w.billing.workspaces_table
    workspace ← or_raise found record_missing
    customer ← query λ w. env.db.find_first (customer_of ws) w.billing.billing_customers
    oldest ← query λ w. env.db.find_first (λ (u : User). u.workspace_id == ws) w.users
    pure (workspace, customer, elim oldest [ none ↦ none | some u ↦ some u.email ])

  abbrev new_customer_id : Action env ℕ
  new_customer_id =
      query λ w. env.db.next_id (λ (c : BillingCustomer). c.id) w.billing.billing_customers

  -- `billingCustomer.upsert`
  unfoldable pub upsert_customer :
      ℕ
      → Option BillingCustomer
      → (BillingCustomer → BillingCustomer)
      → BillingCustomer
      → Action env BillingCustomer
  upsert_customer ws none f made = edit_customers (env.db.create made) >> pure made
  upsert_customer ws (some c) f made =
      edit_customers (env.db.update (customer_of ws) f) >> pure (f c)

  abbrev customer_email : Option BillingCustomer → Option String → Option String
  customer_email none oldest = oldest
  customer_email (some c) oldest = some c.email

  unfoldable pub update_workspace_billing_customer :
      ℕ → UpdateCustomerInput → Action env BillingCustomer
  unfolding load_customer updated_profile upsert_customer
  update_workspace_billing_customer ws input = do
    loaded ← load_customer ws
    let (workspace, existing, oldest) = loaded
    email ← or_raise (truthy (customer_email existing oldest)) (
        validation "A workspace user email is required before the billing customer can be updated.")
    id ← new_customer_id
    upsert_customer ws existing
        (λ c. record c {
          legal_name = some (
              or_default (mapped env.trim input.legal_name)
                (or_default c.legal_name workspace.name));
          tax_profile = some (updated_profile env input (or_default c.tax_profile empty_profile));
        })
        (record {
          id = id;
          workspace_id = ws;
          mercado_pago_customer_id = none;
          email = email;
          legal_name = some (or_default (mapped env.trim input.legal_name) workspace.name);
          tax_profile = some (updated_profile env input empty_profile);
          active_coupon = none;
        })

  unfoldable pub apply_workspace_coupon : ℕ → String → Action env (BillingCustomer × BillingCoupon)
  unfolding resolve_coupon load_customer upsert_customer
  apply_workspace_coupon ws code = do
    coupon ←
        or_raise (resolve_coupon env code) (validation "Coupon code is invalid or unavailable.")
    loaded ← load_customer ws
    let (workspace, existing, oldest) = loaded
    email ←
        or_raise (truthy (customer_email existing oldest))
          (validation "A workspace user email is required before a billing coupon can be stored.")
    id ← new_customer_id
    customer ←
        upsert_customer ws existing (λ c. record c { active_coupon = some coupon })
          (record {
            id = id;
            workspace_id = ws;
            mercado_pago_customer_id = none;
            email = email;
            legal_name = some workspace.name;
            tax_profile = none;
            active_coupon = some coupon;
          })
    pure (customer, coupon)

  unfoldable pub clear_workspace_coupon : ℕ → Action env (Option BillingCustomer)
  clear_workspace_coupon ws = do
    found ← query λ w. env.db.find_first (customer_of ws) w.billing.billing_customers
    elim found [
      | none ↦ pure none
      | some c ↦
          edit_customers (
            env.db.update (customer_of ws)
              (λ (x : BillingCustomer). record x { active_coupon = none }))
          >> pure (some (record c { active_coupon = none }))
    ]
