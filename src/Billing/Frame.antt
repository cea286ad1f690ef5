-- ===== src/Billing/Frame.antt =====
-- The relation of two worlds that differ in the tables of billing only, and the checks and the
-- tracking of apps/api/src/modules/billing under it.
use vowgrid_api.Common.{
  ℕ, String, ◌≡◌, refl, ◌∙◌, Bool, ◌&&◌, Option, none, some, List, if◌then◌else◌, leb, ◌==◌,
}
use vowgrid_api.Env.{Env}
use vowgrid_api.Billing.Rows.{
  BillingTables, UsageMetricKey, UsageCounter, BillingPlanKey, Workspace, BillingCustomer,
}
use vowgrid_api.World.{World, Action, ◌>>=◌, ◌>>◌, pure, write}
use vowgrid_api.World.Respects.{
  Preorder, Respects, Respects-bind, Respects-if, Respects-option, Respects-transaction,
  Respects-query, Respects-write, Respects-pure, Respects-ask, Respects-or_raise, Respects-raise_if,
  Respects-observe,
}
use vowgrid_api.Billing.Catalog.{BillingPlanLimits}
use vowgrid_api.Billing.Contact.{ensure_billing_customer}
use vowgrid_api.Billing.Usage.{
  ensure_counter, get_monthly_usage_counter, update_counter, increment_monthly_usage_counter,
  get_current_usage_metrics,
}
use vowgrid_api.Billing.Entitlements.{
  ensure_billing_state, get_billing_account, BillingAccount, assert_can_create_intent,
  assert_can_queue_execution, assert_can_create_connector, assert_can_require_approval_count,
  is_active_subscription,
}
use vowgrid_api.Billing.Invoices.{
  ensure_open_invoice_for_period, upsert_overage, sync_invoice_totals_and_payment_link,
  bill_overage, record_automatic_overage_billing, track_intent_creation, track_execution_start,
  get_plan_unit_amount, payment_link, InvoiceTotals, invoice_totals, payment_reference,
  payment_items, email_of,
}
use vowgrid_api.Billing.Requests.{start_mercado_pago_invoice_payment-Respects}

module _ (env : Env) where
  -- Two worlds that are equal but for billing, the metrics and the time.
  abbrev pub BillingOnly : Preorder env
  BillingOnly = record {
    Rel = λ w w'.
        (b : BillingTables env.db) (m : List String) (t : ℕ)
        → record w' { billing = b; metrics = m; ticks = t }
          ≡ record w { billing = b; metrics = m; ticks = t };
    rel_refl = λ w b m t. refl;
    rel_trans = λ u v w p q b m t. q b m t ∙ p b m t;
    rel_later = λ w time b m t. refl;
    rel_observed = λ w metrics b m t. refl;
  }

  -- A write to the tables of billing.
  within_billing :
      (f : World env → World env)
      → ((w : World env) (b : BillingTables env.db) (m : List String) (t : ℕ)
          → record (f w) { billing = b; metrics = m; ticks = t }
            ≡ record w { billing = b; metrics = m; ticks = t })
      → Respects BillingOnly (write f)
  within_billing f h = Respects-write f h

  ensure_counter-BillingOnly :
      (ws : ℕ) (metric : UsageMetricKey) (start finish : ℕ)
      → Respects BillingOnly (ensure_counter env ws metric start finish)
  unfolding ensure_counter
  ensure_counter-BillingOnly ws metric start finish =
      Respects-bind (Respects-query _)
        (λ o. Respects-option o (within_billing _ (λ w b m t. refl)) (λ c. Respects-pure _))

  get_monthly_usage_counter-BillingOnly :
      (ws : ℕ) (metric : UsageMetricKey)
      → Respects BillingOnly (get_monthly_usage_counter env ws metric)
  unfolding get_monthly_usage_counter
  get_monthly_usage_counter-BillingOnly ws metric = Respects-bind (Respects-ask _) (λ now.
      Respects-bind (ensure_counter-BillingOnly ws metric _ _) (λ _.
        Respects-bind (Respects-query _) (λ counter. Respects-bind (Respects-query _) (λ id.
          Respects-option counter
            (Respects-bind (within_billing _ (λ w b m t. refl)) (λ _. Respects-pure _))
            (λ c. Respects-pure c)))))

  update_counter-BillingOnly :
      (ws : ℕ) (metric : UsageMetricKey) (start : ℕ) (f : UsageCounter → UsageCounter)
      → Respects BillingOnly (update_counter env ws metric start f)
  unfolding update_counter
  update_counter-BillingOnly ws metric start f = Respects-bind (Respects-query _) (λ found.
      Respects-bind (Respects-or_raise found _)
        (λ old. Respects-bind (within_billing _ (λ w b m t. refl)) (λ _. Respects-pure _)))

  increment-BillingOnly :
      (ws : ℕ) (metric : UsageMetricKey) (amount : ℕ) (limit : Option ℕ)
      → Respects BillingOnly (increment_monthly_usage_counter env ws metric amount limit)
  unfolding increment_monthly_usage_counter
  increment-BillingOnly ws metric amount limit = Respects-bind (Respects-ask _) (λ window.
      Respects-bind (Respects-ask _) (λ now. Respects-bind (Respects-query _) (λ existing.
        Respects-bind
          (Respects-option existing (ensure_counter-BillingOnly ws metric _ _)
            (λ c. Respects-pure _))
          (λ _.
            Respects-bind (update_counter-BillingOnly ws metric _ _)
              (λ _. update_counter-BillingOnly ws metric _ _)))))

  get_current_usage_metrics-BillingOnly :
      (ws : ℕ) (limits : BillingPlanLimits) (a b : Bool)
      → Respects BillingOnly (get_current_usage_metrics env ws limits a b)
  unfolding get_current_usage_metrics
  get_current_usage_metrics-BillingOnly ws limits a b = Respects-bind (Respects-query _) (λ users.
      Respects-bind (Respects-query _) (λ connectors.
        Respects-bind (get_monthly_usage_counter-BillingOnly ws _)
          (λ i. Respects-bind (get_monthly_usage_counter-BillingOnly ws _) (λ e. Respects-pure _))))

  ensure_billing_customer-BillingOnly :
      (ws : Workspace) → Respects BillingOnly (ensure_billing_customer env ws)
  unfolding ensure_billing_customer
  ensure_billing_customer-BillingOnly ws = Respects-bind (Respects-query _) (λ existing.
      Respects-bind (Respects-query _) (λ members. Respects-bind (Respects-query _) (λ contact.
        Respects-bind (Respects-query _) (λ id.
          Respects-if _
            (Respects-option contact (Respects-pure _) (λ c. within_billing _ (λ w b m t. refl)))
            (Respects-pure _)))))

  ensure_billing_state-BillingOnly : (ws : ℕ) → Respects BillingOnly (ensure_billing_state env ws)
  unfolding ensure_billing_state
  ensure_billing_state-BillingOnly ws = Respects-bind (Respects-query _) (λ row.
      Respects-bind (Respects-query _) (λ found. Respects-bind (Respects-query _) (λ subscription.
        Respects-bind (Respects-or_raise row _) (λ workspace.
          Respects-bind
            (Respects-option found
              (Respects-bind (within_billing _ (λ w b m t. refl)) (λ _. Respects-pure _))
              (λ t. Respects-pure t))
            (λ trial. Respects-bind (Respects-ask _) (λ now.
              Respects-bind (within_billing _ (λ w b m t. refl)) (λ _.
                Respects-bind (ensure_billing_customer-BillingOnly workspace) (λ _.
                  Respects-bind (Respects-ask _) (λ later.
                    Respects-bind (within_billing _ (λ w b m t. refl))
                      (λ _. Respects-pure _))))))))))

  get_billing_account-BillingOnly : (ws : ℕ) → Respects BillingOnly (get_billing_account env ws)
  unfolding get_billing_account
  get_billing_account-BillingOnly ws = Respects-bind (ensure_billing_state-BillingOnly ws) (λ state.
      Respects-bind (Respects-ask _) (λ now.
        Respects-bind (get_current_usage_metrics-BillingOnly ws _ _ _) (λ usage. Respects-pure _)))

  -- Two tests on the account.
  checked :
      (ws : ℕ) {f g : BillingAccount → Action env (Unit {0})}
      → ((a : BillingAccount) → Respects BillingOnly (f a))
      → ((a : BillingAccount) → Respects BillingOnly (g a))
      → Respects BillingOnly (get_billing_account env ws >>= λ a. f a >>= λ _. g a >>= λ _. pure a)
  checked ws kf kg =
      Respects-bind (get_billing_account-BillingOnly ws)
        (λ a. Respects-bind (kf a) (λ _. Respects-bind (kg a) (λ _. Respects-pure a)))

  pub assert_can_create_intent-BillingOnly :
      (ws : ℕ) → Respects BillingOnly (assert_can_create_intent env ws)
  unfolding assert_can_create_intent
  assert_can_create_intent-BillingOnly ws =
      checked ws (λ a. Respects-raise_if _ _) (λ a. Respects-raise_if _ _)

  pub assert_can_queue_execution-BillingOnly :
      (ws : ℕ) → Respects BillingOnly (assert_can_queue_execution env ws)
  unfolding assert_can_queue_execution
  assert_can_queue_execution-BillingOnly ws =
      checked ws (λ a. Respects-raise_if _ _) (λ a. Respects-raise_if _ _)

  pub assert_can_create_connector-BillingOnly :
      (ws : ℕ) (enabled : Bool) → Respects BillingOnly (assert_can_create_connector env ws enabled)
  unfolding assert_can_create_connector
  assert_can_create_connector-BillingOnly ws enabled =
      checked ws (λ a. Respects-raise_if _ _) (λ a. Respects-raise_if _ _)

  pub assert_can_require_approval_count-BillingOnly :
      (ws count : ℕ) → Respects BillingOnly (assert_can_require_approval_count env ws count)
  unfolding assert_can_require_approval_count
  assert_can_require_approval_count-BillingOnly ws count =
      checked ws (λ a. Respects-raise_if _ _) (λ a. Respects-raise_if _ _)

  link-BillingOnly :
      (id : ℕ) (customer : Option BillingCustomer) (t : InvoiceTotals)
      → Respects BillingOnly (payment_link env id customer t)
  unfolding payment_link
  link-BillingOnly id customer t =
      Respects-if _
        (Respects-bind (Respects-ask _) (λ now.
          Respects-bind
            (start_mercado_pago_invoice_payment-Respects env env.payments BillingOnly
              (payment_reference env id now) (email_of customer) (payment_items env id t)
              t.tax_amount)
            (λ link. Respects-pure _)))
        (Respects-pure _)

  sync-BillingOnly : (id : ℕ) → Respects BillingOnly (sync_invoice_totals_and_payment_link env id)
  unfolding sync_invoice_totals_and_payment_link
  sync-BillingOnly id = Respects-bind (Respects-query _) (λ found.
      Respects-option found (Respects-pure _) (λ invoice. Respects-bind (Respects-query _) (λ items.
        Respects-bind (Respects-query _) (λ customer.
          Respects-bind (link-BillingOnly id customer (invoice_totals env customer items))
            (λ link. Respects-bind (within_billing _ (λ w b m t. refl)) (λ _. Respects-pure _))))))

  bill_overage-BillingOnly :
      (ws : ℕ) (s : Option ℕ) (metric : UsageMetricKey) (units amount : ℕ)
      → Respects BillingOnly (bill_overage env ws s metric units amount)
  unfolding bill_overage ensure_open_invoice_for_period upsert_overage
  bill_overage-BillingOnly ws s metric units amount = Respects-bind (Respects-ask _) (λ now.
      Respects-bind
        (Respects-transaction (
          Respects-bind
            (Respects-bind (Respects-query _) (λ existing. Respects-bind (Respects-query _) (λ id.
              Respects-option existing
                (Respects-bind (within_billing _ (λ w b m t. refl)) (λ _. Respects-pure _))
                (λ i. Respects-pure i))))
            (λ ensured.
              Respects-bind
                (Respects-bind (Respects-query _) (λ existing.
                  Respects-bind (Respects-query _) (λ id.
                    Respects-option existing (within_billing _ (λ w b m t. refl))
                      (λ i. within_billing _ (λ w b m t. refl)))))
                (λ _. Respects-pure _))))
        (λ invoice.
          Respects-bind (sync-BillingOnly invoice.id)
            (λ updated. Respects-bind (Respects-observe _) (λ _. Respects-pure _))))

  record_overage-BillingOnly :
      (ws : ℕ) (s : Option ℕ) (k : Option BillingPlanKey) (metric : UsageMetricKey) (used : ℕ)
      (limit : Option ℕ)
      → Respects BillingOnly (record_automatic_overage_billing env ws s k metric used limit)
  unfolding record_automatic_overage_billing
  record_overage-BillingOnly ws s k metric used none = Respects-pure _
  record_overage-BillingOnly ws s k metric used (some limit) =
      Respects-if (leb used limit) (Respects-pure _) (
        Respects-option (get_plan_unit_amount k metric) (Respects-pure _) (λ unit.
          Respects-if (unit == 0) (Respects-pure _) (bill_overage-BillingOnly ws s metric _ unit)))

  -- A counter, and its overage where a subscription pays for it.
  tracked :
      (ws : ℕ) (account : BillingAccount) (metric : UsageMetricKey) (limit : Option ℕ)
      → Respects BillingOnly (
          increment_monthly_usage_counter env ws metric 1 limit >>= λ counter.
          elim account.subscription [
            | none ↦ pure tt
            | some s ↦
                if account.entitlements.automatic_overage_billing && is_active_subscription s.status
                then record_automatic_overage_billing env ws
                    (some s.id)
                    s.plan_key
                    metric
                    counter.count
                    limit
                  >> pure tt
                else pure tt
          ]
          >>= λ _. pure counter)
  tracked ws account metric limit =
      Respects-bind (increment-BillingOnly ws metric 1 limit) (λ counter.
        Respects-bind
          (Respects-option account.subscription (Respects-pure _) (λ s.
            Respects-if _
              (Respects-bind (record_overage-BillingOnly ws _ s.plan_key metric counter.count limit)
                (λ _. Respects-pure _))
              (Respects-pure _)))
          (λ _. Respects-pure _))

  pub track_intent_creation-BillingOnly :
      (ws : ℕ) (account : BillingAccount)
      → Respects BillingOnly (track_intent_creation env ws account)
  unfolding track_intent_creation
  track_intent_creation-BillingOnly ws account = tracked ws account _ _

  pub track_execution_start-BillingOnly :
      (ws : ℕ) (account : BillingAccount)
      → Respects BillingOnly (track_execution_start env ws account)
  unfolding track_execution_start
  track_execution_start-BillingOnly ws account = tracked ws account _ _
