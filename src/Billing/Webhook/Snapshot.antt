-- ===== src/Billing/Webhook/Snapshot.antt =====
-- What `processMercadoPagoWebhook` of apps/api/src/modules/billing/service.ts writes to the customer, the
-- subscription and the trial of a workspace.
use vowgrid_api.Common.{
  ℕ, String, Bool, true, false, ◌&&◌, ◌||◌, Option, none, some, ◌==◌, if◌then◌else◌, or_default,
}
use vowgrid_api.Env.{Env}
use vowgrid_api.Json.{Json, text, object, end, field}
use vowgrid_api.Rows.{User}
use vowgrid_api.Auth.Tables.{truthy}
use vowgrid_api.Billing.Rows.{
  BillingPlanKey, BillingCycle, SubscriptionStatus, incomplete, converted_trial, TrialState,
  Subscription, BillingCustomer, Workspace,
}
use vowgrid_api.Billing.Entitlements.{is_active_subscription, is_active_trial}
use vowgrid_api.Billing.Provider.{Provider, Preapproval, either}
use vowgrid_api.World.{Action, thrown, ◌>>=◌, ◌>>◌, pure, query, write, or_raise, when}
use vowgrid_api.Billing.Webhook.{
  plan_name, cycle_name, subscription_status_name, is_canceled, fallback, of_row, is_same_text,
  name_or_null, map_name, write_customers, put_subscriptions, ExternalReference,
}

module _ (env : Env) (p : Provider) where
  -- The first of the subscriptions that the provider's id or its reference names.
  abbrev pub is_named : String → Preapproval → Subscription → Bool
  is_named resource_id snapshot s =
      is_same_text s.preapproval_id resource_id || elim (truthy snapshot.external_reference) [
        | none ↦ false
        | some r ↦ is_same_text s.external_reference r
      ]

  abbrev synced_customer : Preapproval → BillingCustomer → BillingCustomer
  synced_customer snapshot c = record c {
    email = or_default (truthy snapshot.payer_email) c.email;
    mercado_pago_customer_id = either snapshot.payer_id c.mercado_pago_customer_id;
  }

  abbrev has_payer : Preapproval → Bool
  has_payer snapshot =
      snapshot.has_payer_id || elim (truthy snapshot.payer_email) [ none ↦ false | some _ ↦ true ]

  -- The customer of a workspace: brought up to date, or made of its first user.
  unfoldable pub sync_customer : Preapproval → Workspace → Action env (Option ℕ)
  sync_customer snapshot workspace = do
    found ← query λ w.
        env.db.find_first (λ (c : BillingCustomer). c.workspace_id == workspace.id)
          w.billing.billing_customers
    contact ← query λ w. env.db.find_first (λ (u : User). u.workspace_id == workspace.id) w.users
    id ← query λ w. env.db.next_id (λ (c : BillingCustomer). c.id) w.billing.billing_customers
    elim found [
      | some c ↦
          when (has_payer snapshot) (
            write_customers env p
              (env.db.update (λ (x : BillingCustomer). x.id == c.id) (synced_customer snapshot)))
          >> pure (some c.id)
      | none ↦ elim contact [
        | none ↦ pure none
        | some u ↦
            write_customers env p (
              env.db.create (record {
                id = id;
                workspace_id = workspace.id;
                email = or_default snapshot.payer_email u.email;
                legal_name = some workspace.name;
                mercado_pago_customer_id = snapshot.payer_id;
                tax_profile = none;
                active_coupon = none;
              }))
            >> pure (some id)
      ]
    ]

  -- `new Date(text)`; a row takes no date that is invalid.
  abbrev pub date_or_raise : Option String → Action env (Option ℕ)
  date_or_raise t = elim (truthy t) [
    | none ↦ pure none
    | some s ↦ or_raise (env.parse_date s) (thrown "Invalid Date") >>= λ d. pure (some d)
  ]

  abbrev pub is_not_started : Option Subscription → Bool
  is_not_started existing = elim (of_row (λ (s : Subscription). s.started_at) existing) [
    | none ↦ true
    | some _ ↦ false
  ]

  abbrev started : SubscriptionStatus → Option ℕ → Option ℕ → ℕ → Option ℕ
  started status old created now =
      if is_active_subscription status then some (or_default old (or_default created now)) else old

  -- What a subscription becomes: `existing` is the one that the provider names, if there is one.
  unfoldable pub synced_subscription :
      String
      → Preapproval
      → SubscriptionStatus
      → Option Subscription
      → Option ExternalReference
      → Option ℕ
      → Option ℕ
      → Option ℕ
      → ℕ
      → Subscription
      → Subscription
  synced_subscription resource_id snapshot status existing reference customer next created now s =
      record s {
        plan_key =
            fallback (of_row (λ (x : Subscription). x.plan_key) existing)
              (of_row (λ (r : ExternalReference). r.plan_key) reference);
        billing_cycle =
            fallback (of_row (λ (x : Subscription). x.billing_cycle) existing)
              (of_row (λ (r : ExternalReference). r.billing_cycle) reference);
        status = status;
        started_at =
            started status (of_row (λ (x : Subscription). x.started_at) existing) created now;
        billing_customer_id = fallback customer s.billing_customer_id;
        preapproval_id = some resource_id;
        checkout_url =
            either snapshot.init_point (of_row (λ (x : Subscription). x.checkout_url) existing);
        external_reference =
            either snapshot.external_reference
              (of_row (λ (x : Subscription). x.external_reference) existing);
        current_period_end =
            fallback next (of_row (λ (x : Subscription). x.current_period_end) existing);
        cancel_at_period_end =
            is_canceled status || elim existing [ none ↦ false | some x ↦ x.cancel_at_period_end ];
        canceled_at = if is_canceled status then some now else none;
        last_provider_sync_at = some now;
        provider_metadata = some snapshot.raw;
      }

  -- The row that `create` starts from.
  abbrev pub blank_subscription : ℕ → ℕ → Subscription
  blank_subscription id ws = record {
    id = id;
    workspace_id = ws;
    plan_key = none;
    billing_cycle = none;
    status = incomplete;
    started_at = none;
    billing_customer_id = none;
    preapproval_id = none;
    checkout_url = none;
    external_reference = none;
    current_period_start = none;
    current_period_end = none;
    cancel_at_period_end = false;
    canceled_at = none;
    last_provider_sync_at = none;
    provider_metadata = none;
  }

  -- `workspaceSubscription.upsert` by the workspace.
  unfoldable pub upsert_subscription :
      ℕ → (Subscription → Subscription) → (Subscription → Subscription) → Action env Subscription
  upsert_subscription ws update made = do
    found ←
        query λ w.
          env.db.find_first (λ (s : Subscription). s.workspace_id == ws) w.billing.subscriptions
    id ← query λ w. env.db.next_id (λ (s : Subscription). s.id) w.billing.subscriptions
    elim found [
      | some s ↦
          put_subscriptions env p
            (env.db.update (λ (x : Subscription). x.workspace_id == ws) update)
          >> pure (update s)
      | none ↦
          put_subscriptions env p (env.db.create (made (blank_subscription id ws)))
          >> pure (made (blank_subscription id ws))
    ]

  -- An active trial ends where the subscription is active.
  unfoldable pub convert_trial : ℕ → Subscription → ℕ → Action env (Unit {0})
  convert_trial ws subscription now = when (is_active_subscription subscription.status) (
      write λ w. record w {
        billing = record (w.billing) {
          trial_states =
              env.db.update (λ (t : TrialState). t.workspace_id == ws && is_active_trial t.status)
                (λ t. record t {
                  status = converted_trial;
                  converted_at = some (or_default subscription.started_at now);
                })
                w.billing.trial_states;
        };
      })

  abbrev pub synced_metadata :
      String → SubscriptionStatus → Option BillingPlanKey → Option BillingCycle → Json
  synced_metadata resource_id status plan cycle = object (
      field "providerSubscriptionId" (text resource_id) (
        field "status" (text (subscription_status_name status)) (
          field "planKey" (name_or_null (map_name plan_name plan))
            (field "billingCycle" (name_or_null (map_name cycle_name cycle)) end))))
