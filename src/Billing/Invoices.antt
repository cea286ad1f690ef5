-- ===== src/Billing/Invoices.antt =====
-- apps/api/src/modules/billing/invoices.ts: the open invoice of a month, its overage line items and
-- its totals; and the tracking at the end of entitlements.ts.
use vowgrid_api.Common.{
  ℕ, ◌+◌, ◌-◌, ◌*◌, ◌/◌, String, ◌<>◌, Bool, true, false, ◌&&◌, Option, none, some, List, [], ◌∷◌,
  leb, ltb, ◌==◌, if◌then◌else◌, str_eq, not,
}
use vowgrid_api.Common.Int.{ℤ, pos, pos_part, ◌+ℤ◌}
use vowgrid_api.Env.{Env}
use vowgrid_api.Billing.Rows.{
  BillingPlanKey, UsageMetricKey, intents, executed_actions, Subscription, UsageCounter,
  BillingTables, BillingCustomer, BillingInvoice, InvoiceStatus, open_invoice,
  BillingInvoiceLineItem, LineItemType, overage_item,
}
use vowgrid_api.Billing.Catalog.{plan_catalog}
use vowgrid_api.Billing.Customer.{resolve_billing_tax_rate_bps, calculate_coupon_discount_brl_cents}
use vowgrid_api.Billing.Provider.{PaymentItem, get_mercado_pago_provider_state}
use vowgrid_api.Billing.Payments.{start_mercado_pago_invoice_payment}
use vowgrid_api.Billing.Usage.{metric_eq, increment_monthly_usage_counter}
use vowgrid_api.Billing.Entitlements.{BillingAccount, is_active_subscription}
use vowgrid_api.World.{Action, ◌>>=◌, ◌>>◌, pure, query, write, ask, transaction, observe}

-- `getPlanUnitAmount`
unfoldable pub get_plan_unit_amount : Option BillingPlanKey → UsageMetricKey → Option ℕ
unfolding plan_catalog
get_plan_unit_amount none metric = none
get_plan_unit_amount (some key) metric =
    let plan = plan_catalog key in
    if metric_eq metric intents
    then plan.overage.intents_unit_brl_cents
    else plan.overage.executed_actions_unit_brl_cents

unfoldable pub sum_line_items : List BillingInvoiceLineItem → ℤ
sum_line_items [] = pos 0
sum_line_items (i ∷ is) = i.subtotal_brl_cents +ℤ sum_line_items is

pub record InvoiceTotals : Type 0 where
  pub discount : ℕ
  pub net_subtotal : ℕ
  pub tax_rate_bps : ℕ
  pub tax_amount : ℕ
  pub total : ℕ

abbrev coupon_of : Option BillingCustomer → Option vowgrid_api.Billing.Rows.BillingCoupon
coupon_of none = none
coupon_of (some c) = c.active_coupon

-- The amounts of `syncInvoiceTotalsAndPaymentLink`. A subtotal below zero counts as zero, and has
-- no discount.
unfoldable pub invoice_totals :
    Env → Option BillingCustomer → List BillingInvoiceLineItem → InvoiceTotals
invoice_totals env customer items =
    let subtotal = sum_line_items items in
    let discount = calculate_coupon_discount_brl_cents (coupon_of customer) subtotal in
    let net = pos_part subtotal - discount in
    let rate = resolve_billing_tax_rate_bps env customer in
    let tax = if ltb 0 net then (net * rate + 5000) / 10000 else 0 in
    record {
      discount = discount;
      net_subtotal = net;
      tax_rate_bps = rate;
      tax_amount = tax;
      total = net + tax;
    }

abbrev has_email : Option BillingCustomer → Bool
has_email none = false
has_email (some c) = not (str_eq c.email "")

abbrev pub email_of : Option BillingCustomer → String
email_of none = ""
email_of (some c) = c.email

-- What an invoice says after its totals have been brought up to date.
abbrev with_totals : InvoiceTotals → Option (String × String) → BillingInvoice → BillingInvoice
with_totals t link i = record i {
  subtotal_brl_cents = t.net_subtotal;
  tax_rate_bps = t.tax_rate_bps;
  tax_amount_brl_cents = t.tax_amount;
  total_brl_cents = t.total;
  payment_url = elim link [ none ↦ none | some l ↦ some l.0 ];
  preference_id = elim link [ none ↦ none | some l ↦ some l.1 ];
}

abbrev overage_label : UsageMetricKey → String
overage_label executed_actions = "Executed action overage"
overage_label _ = "Intent proposal overage"

abbrev overage_line : ℕ → ℕ → UsageMetricKey → ℕ → ℕ → BillingInvoiceLineItem
overage_line id invoice_id metric units unit_amount = record {
  id = id;
  invoice_id = invoice_id;
  item_type = overage_item;
  metric = some metric;
  label = overage_label metric;
  quantity = units;
  unit_amount_brl_cents = pos unit_amount;
  subtotal_brl_cents = pos (units * unit_amount);
}

abbrev pub is_overage_of : ℕ → UsageMetricKey → BillingInvoiceLineItem → Bool
is_overage_of invoice_id metric item =
    item.invoice_id == invoice_id
    && elim item.item_type [ overage_item ↦ true | _ ↦ false ]
    && elim item.metric [ none ↦ false | some m ↦ metric_eq m metric ]

abbrev is_open : BillingInvoice → Bool
is_open i = elim i.status [ open_invoice ↦ true | _ ↦ false ]

abbrev is_open_for : ℕ → ℕ → ℕ → BillingInvoice → Bool
is_open_for ws start finish i =
    i.workspace_id == ws && is_open i && i.period_start == start && i.period_end == finish

module _ (env : Env) where
  abbrev put_invoices :
      (env.db.Table BillingInvoice → env.db.Table BillingInvoice) → Action env (Unit {0})
  put_invoices f =
      write λ w. record w { billing = record (w.billing) { invoices = f w.billing.invoices } }

  abbrev pub put_line_items :
      (env.db.Table BillingInvoiceLineItem → env.db.Table BillingInvoiceLineItem)
      → Action env (Unit {0})
  put_line_items f =
      write λ w. record w { billing = record (w.billing) { line_items = f w.billing.line_items } }

  unfoldable pub ensure_open_invoice_for_period : ℕ → Option ℕ → ℕ → ℕ → Action env BillingInvoice
  ensure_open_invoice_for_period ws subscription_id start finish = do
    existing ← query λ w. env.db.find_first (is_open_for ws start finish) w.billing.invoices
    id ← query λ w. env.db.next_id (λ (i : BillingInvoice). i.id) w.billing.invoices
    let created : BillingInvoice = record {
      id = id;
      workspace_id = ws;
      subscription_id = subscription_id;
      status = open_invoice;
      subtotal_brl_cents = 0;
      tax_rate_bps = env.default_tax_rate_bps;
      tax_amount_brl_cents = 0;
      total_brl_cents = 0;
      payment_url = none;
      preference_id = none;
      period_start = start;
      period_end = finish;
    }
    elim existing [ some i ↦ pure i | none ↦ put_invoices (env.db.create created) >> pure created ]

  abbrev pub payment_reference : ℕ → ℕ → String
  payment_reference id now = "invoice:" <> env.id_text id <> ":" <> env.decimal now

  abbrev pub payment_items : ℕ → InvoiceTotals → List PaymentItem
  payment_items id t =
      record {
        title = "VowGrid invoice " <> env.id_text id;
        quantity = 1;
        unit_price_brl_cents = t.net_subtotal;
      }
      ∷ []

  -- The link of a payment, where there is something to pay and a way to ask for it.
  unfoldable pub payment_link :
      ℕ → Option BillingCustomer → InvoiceTotals → Action env (Option (String × String))
  unfolding start_mercado_pago_invoice_payment get_mercado_pago_provider_state
  payment_link id customer t =
      let provider = get_mercado_pago_provider_state env.payments in
      if ltb 0 t.total && has_email customer && provider.checkout_enabled
      then (do
        now ← ask env.clock
        link ←
            start_mercado_pago_invoice_payment env env.payments (payment_reference id now)
              (email_of customer) (payment_items id t) t.tax_amount
        pure (some link))
      else pure none

  unfoldable pub sync_invoice_totals_and_payment_link : ℕ → Action env (Option BillingInvoice)
  unfolding invoice_totals payment_link
  sync_invoice_totals_and_payment_link id = do
    found ← query λ w. env.db.find_first (λ (i : BillingInvoice). i.id == id) w.billing.invoices
    elim found [
      | none ↦ pure none
      | some invoice ↦ do
        items ← query λ w.
            env.db.find_many (λ (i : BillingInvoiceLineItem). i.invoice_id == id)
              w.billing.line_items
        customer ← query λ w.
            env.db.find_first (λ (c : BillingCustomer). c.workspace_id == invoice.workspace_id)
              w.billing.billing_customers
        let t = invoice_totals env customer items
        link ← payment_link id customer t
        put_invoices (env.db.update (λ (i : BillingInvoice). i.id == id) (with_totals t link))
        pure (some (with_totals t link invoice))
    ]

  -- `upsert` by the unique key of the invoice, the type and the metric.
  unfoldable pub upsert_overage : ℕ → UsageMetricKey → ℕ → ℕ → Action env (Unit {0})
  upsert_overage invoice_id metric units unit_amount = do
    existing ← query λ w. env.db.find_first (is_overage_of invoice_id metric) w.billing.line_items
    id ← query λ w. env.db.next_id (λ (i : BillingInvoiceLineItem). i.id) w.billing.line_items
    elim existing [
      | some item ↦ put_line_items (
          env.db.update (is_overage_of invoice_id metric) (λ (i : BillingInvoiceLineItem).
            overage_line i.id i.invoice_id metric units unit_amount))
      | none ↦ put_line_items (env.db.create (overage_line id invoice_id metric units unit_amount))
    ]

  -- The body of `recordAutomaticOverageBilling` once there is something to bill.
  unfoldable pub bill_overage :
      ℕ → Option ℕ → UsageMetricKey → ℕ → ℕ → Action env (Option BillingInvoice)
  unfolding ensure_open_invoice_for_period upsert_overage sync_invoice_totals_and_payment_link
  bill_overage ws subscription_id metric units unit_amount = do
    now ← ask env.clock
    invoice ← transaction (do
      ensured ←
          ensure_open_invoice_for_period ws subscription_id (env.month_start now)
            (env.month_end now)
      upsert_overage ensured.id metric units unit_amount
      pure ensured)
    updated ← sync_invoice_totals_and_payment_link invoice.id
    observe "billing_invoice:overage_recorded"
    pure updated

  unfoldable pub record_automatic_overage_billing :
      ℕ
      → Option ℕ
      → Option BillingPlanKey
      → UsageMetricKey
      → ℕ
      → Option ℕ
      → Action env (Option BillingInvoice)
  unfolding bill_overage get_plan_unit_amount
  record_automatic_overage_billing ws subscription_id plan_key metric used none = pure none
  record_automatic_overage_billing ws subscription_id plan_key metric used (some limit) =
      if leb used limit then pure none else elim (get_plan_unit_amount plan_key metric) [
        | none ↦ pure none
        | some unit ↦
            if unit == 0
            then pure none
            else bill_overage ws subscription_id metric (used - limit) unit
      ]

  -- `trackIntentCreation` and `trackExecutionStart`, which differ in the metric and its limit.
  abbrev bill_if_active : ℕ → BillingAccount → UsageMetricKey → ℕ → Option ℕ → Action env (Unit {0})
  bill_if_active ws account metric used limit = elim account.subscription [
    | none ↦ pure tt
    | some s ↦
        if account.entitlements.automatic_overage_billing && is_active_subscription s.status
        then record_automatic_overage_billing ws (some s.id) s.plan_key metric used limit >> pure tt
        else pure tt
  ]

  unfoldable pub track_intent_creation : ℕ → BillingAccount → Action env UsageCounter
  unfolding record_automatic_overage_billing
  track_intent_creation ws account = do
    let limit = account.entitlements.limits.intents_per_month
    counter ← increment_monthly_usage_counter env ws intents 1 limit
    bill_if_active ws account intents counter.count limit
    pure counter

  unfoldable pub track_execution_start : ℕ → BillingAccount → Action env UsageCounter
  unfolding record_automatic_overage_billing
  track_execution_start ws account = do
    let limit = account.entitlements.limits.executed_actions_per_month
    counter ← increment_monthly_usage_counter env ws executed_actions 1 limit
    bill_if_active ws account executed_actions counter.count limit
    pure counter
