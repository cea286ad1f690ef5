-- ===== src/Billing/Checkout.antt =====
-- The checkout, the cancellation and the changes of the billing customer of
-- apps/api/src/modules/billing/service.ts.
use vowgrid_api.Common.{
  ℕ, ◌-◌, ◌*◌, String, ◌<>◌, Bool, true, false, not, Option, none, some, ◌==◌, if◌then◌else◌,
  str_eq, or_default,
}
use vowgrid_api.Common.Int.{pos}
use vowgrid_api.Env.{Env}
use vowgrid_api.Json.{Json, bool, null, number, text, object, end, field}
use vowgrid_api.Rows.{system}
use vowgrid_api.Audits.{emit_audit_event}
use vowgrid_api.Auth.Tables.{truthy}
use vowgrid_api.Billing.Rows.{
  BillingPlanKey, launch, pro, business, enterprise, BillingCycle, Subscription, DocumentType, cpf,
  cnpj, vat, other_document, BillingTaxProfile, BillingCustomer, BillingCoupon, SubscriptionStatus,
}
use vowgrid_api.Billing.Customer.{calculate_coupon_discount_brl_cents}
use vowgrid_api.Billing.CustomerEdits.{
  UpdateCustomerInput, update_workspace_billing_customer, apply_workspace_coupon,
  clear_workspace_coupon,
}
use vowgrid_api.Billing.Entitlements.{BillingAccount, get_billing_account}
use vowgrid_api.Billing.Provider.{Provider, get_mercado_pago_provider_state, price_of, Checkout}
use vowgrid_api.Billing.Payments.{start_mercado_pago_checkout, cancel_mercado_pago_subscription}
use vowgrid_api.Billing.Proration.{
  Ratios, ProrationPreview, ProrationInput, calculate_proration_preview,
}
use vowgrid_api.Billing.Prorating.{record_proration_billing}
use vowgrid_api.Billing.Webhook.{plan_name, cycle_name, put_subscriptions}
use vowgrid_api.Billing.Webhook.Snapshot.{upsert_subscription}
use vowgrid_api.World.{
  Action, validation, not_found, billing_configuration, ◌>>=◌, ◌>>◌, pure, query, or_raise,
  raise_if, ask,
}

pub record CreateCheckoutInput : Type 0 where
  pub plan_key : BillingPlanKey
  pub billing_cycle : BillingCycle

pub record CheckoutResponse : Type 0 where
  pub plan_key : BillingPlanKey
  pub billing_cycle : BillingCycle
  pub checkout_url : String
  pub provider_subscription_id : String
  pub proration : Option ProrationPreview

-- The plan's key with a capital.
abbrev plan_label : BillingPlanKey → String
plan_label launch = "Launch"
plan_label pro = "Pro"
plan_label business = "Business"
plan_label enterprise = "Enterprise"

module _ (env : Env) where
  -- An event of the audit trail of a workspace's billing.
  abbrev billing_event : String → ℕ → String → Option Json → Action env (Unit {0})
  billing_event action ws actor metadata = emit_audit_event env (record {
    action = action;
    entity_type = "workspace";
    entity_id = ws;
    actor_type = system;
    actor_id = actor;
    workspace_id = ws;
    metadata = metadata;
  })

  abbrev subscription_of : ℕ → Action env (Option Subscription)
  subscription_of ws =
      query
        λ w. env.db.find_first (λ (s : Subscription). s.workspace_id == ws) w.billing.subscriptions

  abbrev null_or_text : Option String → Json
  null_or_text none = null
  null_or_text (some s) = text s

  abbrev document_name : Option DocumentType → Json
  document_name none = null
  document_name (some cpf) = text "cpf"
  document_name (some cnpj) = text "cnpj"
  document_name (some vat) = text "vat"
  document_name (some other_document) = text "other"

  abbrev tax_json : Option BillingTaxProfile → Json
  tax_json none = null
  tax_json (some t) = object (
      field "countryCode" (null_or_text t.country_code) (
        field "regionCode" (null_or_text t.region_code) (
          field "documentType" (document_name t.document_type) (
            field "documentNumber" (null_or_text t.document_number) (
              field "taxExempt" (bool t.tax_exempt) (
                field "taxRateBpsOverride"
                  (elim t.tax_rate_bps_override [ none ↦ null | some n ↦ number (env.number_of n) ])
                  end))))))

  -- What the metadata of the audit event say of a customer.
  abbrev customer_metadata : BillingCustomer → Json
  customer_metadata c = object (
      field "legalName" (null_or_text c.legal_name)
        (field "taxProfile" (tax_json c.tax_profile) end))

  unfoldable pub update_workspace_billing_customer_profile :
      ℕ → UpdateCustomerInput → Action env BillingAccount
  update_workspace_billing_customer_profile ws input = do
    customer ← update_workspace_billing_customer env ws input
    billing_event "billing.customer.updated" ws "billing-system" (some (customer_metadata customer))
    get_billing_account env ws

  unfoldable pub apply_workspace_billing_coupon : ℕ → String → Action env BillingAccount
  apply_workspace_billing_coupon ws code = do
    result ← apply_workspace_coupon env ws code
    billing_event "billing.coupon.applied" ws "billing-system"
        (some (object (field "couponCode" (text result.1.code) end)))
    get_billing_account env ws

  unfoldable pub clear_workspace_billing_coupon : ℕ → Action env BillingAccount
  clear_workspace_billing_coupon ws = do
    clear_workspace_coupon env ws
    billing_event "billing.coupon.cleared" ws "billing-system" none
    get_billing_account env ws

  abbrev customer_in : ℕ → Action env (Option BillingCustomer)
  customer_in ws = query λ w.
      env.db.find_first (λ (c : BillingCustomer). c.workspace_id == ws) w.billing.billing_customers

module _ (env : Env) (p : Provider) where
  abbrev build_external_reference : ℕ → CreateCheckoutInput → ℕ → String
  build_external_reference ws input now =
      env.id_text ws
      <> ":"
      <> plan_name input.plan_key
      <> ":"
      <> cycle_name input.billing_cycle
      <> ":"
      <> env.decimal now

  abbrev coupon_suffix : Option BillingCoupon → String
  coupon_suffix none = ""
  coupon_suffix (some c) = " (" <> c.code <> ")"

  -- The price in cents, less the coupon.
  unfoldable pub discounted_amount : Option BillingCoupon → Option ℕ → Option ℕ
  discounted_amount coupon none = none
  discounted_amount coupon (some brl) =
      some (brl * 100 - calculate_coupon_discount_brl_cents coupon (pos (brl * 100)))

  abbrev proration_input : Option Subscription → CreateCheckoutInput → ProrationInput
  proration_input none input = record {
    source_plan_key = none;
    source_billing_cycle = none;
    target_plan_key = input.plan_key;
    target_billing_cycle = input.billing_cycle;
    current_period_start = none;
    current_period_end = none;
  }
  proration_input (some s) input = record {
    source_plan_key = s.plan_key;
    source_billing_cycle = s.billing_cycle;
    target_plan_key = input.plan_key;
    target_billing_cycle = input.billing_cycle;
    current_period_start = s.current_period_start;
    current_period_end = s.current_period_end;
  }

  -- What a checkout writes over a subscription; `create` leaves the marks of a cancellation alone.
  abbrev pub checked_out :
      CreateCheckoutInput → Checkout → String → ℕ → ℕ → Subscription → Subscription
  checked_out input checkout reference customer_id now s = record s {
    plan_key = some input.plan_key;
    billing_cycle = some input.billing_cycle;
    status = checkout.status;
    preapproval_id = some checkout.provider_subscription_id;
    checkout_url = some checkout.checkout_url;
    external_reference = some reference;
    last_provider_sync_at = some now;
    provider_metadata = some checkout.provider_payload;
    billing_customer_id = some (or_default s.billing_customer_id customer_id);
  }

  abbrev pub reopened : Subscription → Subscription
  reopened s = record s { cancel_at_period_end = false; canceled_at = none }

  abbrev proration_step : ℕ → Option Subscription → Option ProrationPreview → Action env (Unit {0})
  proration_step ws existing proration = elim proration [
    | none ↦ pure tt
    | some preview ↦
        record_proration_billing env ws (elim existing [ none ↦ none | some s ↦ some s.id ])
          (some preview)
        >> pure tt
  ]

  unfoldable pub start_workspace_checkout :
      Ratios → ℕ → CreateCheckoutInput → Action env CheckoutResponse
  unfolding calculate_proration_preview discounted_amount upsert_subscription
  start_workspace_checkout ratios ws input = do
    account ← get_billing_account env ws
    now ← ask env.clock
    let proration =
        calculate_proration_preview ratios now (proration_input account.subscription input)
    found ← customer_in env ws
    customer ← or_raise found (
        validation
          "A billing contact email is required before checkout can start. Add at least one workspace user first.")
    raise_if (str_eq customer.email "") (
        validation
          "A billing contact email is required before checkout can start. Add at least one workspace user first.")
    raise_if (not (get_mercado_pago_provider_state p).checkout_enabled) (
        billing_configuration
          "Mercado Pago checkout is not fully configured yet. Complete the billing provider env setup first.")
    at ← ask env.clock
    let reference = build_external_reference ws input at
    checkout ← start_mercado_pago_checkout env p (record {
      plan_key = input.plan_key;
      billing_cycle = input.billing_cycle;
      external_reference = reference;
      payer_email = customer.email;
      reason =
          "VowGrid "
          <> plan_label input.plan_key
          <> " "
          <> cycle_name input.billing_cycle
          <> coupon_suffix customer.active_coupon;
      transaction_amount =
          discounted_amount customer.active_coupon (price_of input.plan_key input.billing_cycle);
    })
    existing ← subscription_of env ws
    synced_at ← ask env.clock
    upsert_subscription env p ws
        (λ s. reopened (checked_out input checkout reference customer.id synced_at s))
        (checked_out input checkout reference customer.id synced_at)
    proration_step ws existing proration
    billing_event env "billing.checkout.created" ws (env.id_text customer.id) (
        some (
          object (
            field "planKey" (text (plan_name input.plan_key)) (
              field "billingCycle" (text (cycle_name input.billing_cycle))
                (field "providerSubscriptionId" (text checkout.provider_subscription_id) end)))))
    pure (record {
      plan_key = input.plan_key;
      billing_cycle = input.billing_cycle;
      checkout_url = checkout.checkout_url;
      provider_subscription_id = checkout.provider_subscription_id;
      proration = proration;
    })

  abbrev has_preapproval : Option Subscription → Option (Subscription × String)
  has_preapproval none = none
  has_preapproval (some s) = elim (truthy s.preapproval_id) [ none ↦ none | some id ↦ some (s, id) ]

  -- The status and the metadata after a cancellation: the provider's, where it is immediate.
  unfoldable pub next_status :
      Bool → Subscription → String → Action env (SubscriptionStatus × Option Json)
  next_status true s id = do
    answer ← cancel_mercado_pago_subscription env p id
    pure (answer.1, some answer.0.raw)
  next_status false s id = pure (s.status, s.provider_metadata)

  unfoldable pub cancel_workspace_subscription : ℕ → Bool → Action env BillingAccount
  unfolding next_status
  cancel_workspace_subscription ws immediate = do
    found ← subscription_of env ws
    subscription ← or_raise (has_preapproval found) (not_found "WorkspaceSubscription" ws)
    next ← next_status immediate subscription.0 subscription.1
    now ← ask env.clock
    put_subscriptions env p (
        env.db.update (λ (s : Subscription). s.workspace_id == ws)
          (λ s. record s {
            status = next.0;
            cancel_at_period_end = not immediate;
            canceled_at = if immediate then some now else none;
            last_provider_sync_at = some now;
            provider_metadata = elim next.1 [ none ↦ s.provider_metadata | some v ↦ some v ];
          }))
    billing_event env
        (if immediate
          then "billing.subscription.canceled"
          else "billing.subscription.cancel_scheduled")
        ws "billing-system" (some (object (field "immediate" (bool immediate) end)))
    get_billing_account env ws
