-- ===== src/Billing/Prorating.antt =====
-- `recordProrationBilling` of apps/api/src/modules/billing/invoices.ts.
use vowgrid_api.Common.{ℕ, String, ◌<>◌, Bool, true, false, ◌&&◌, Option, none, some, ◌==◌, ltb}
use vowgrid_api.Common.Int.{pos, ℤ, sub_ℕ}
use vowgrid_api.Env.{Env}
use vowgrid_api.Billing.Rows.{
  BillingInvoice, BillingInvoiceLineItem, LineItemType, proration_charge, proration_credit,
  overage_item,
}
use vowgrid_api.Billing.Invoices.{
  put_line_items, ensure_open_invoice_for_period, sync_invoice_totals_and_payment_link,
}
use vowgrid_api.Billing.Proration.{ProrationPreview}
use vowgrid_api.Billing.Webhook.{plan_name, cycle_name}
use vowgrid_api.World.{Action, ◌>>=◌, ◌>>◌, pure, query, ask, transaction, observe}

abbrev line_type_eq : LineItemType → LineItemType → Bool
line_type_eq overage_item overage_item = true
line_type_eq proration_charge proration_charge = true
line_type_eq proration_credit proration_credit = true
line_type_eq _ _ = false

abbrev has_no_metric : BillingInvoiceLineItem → Bool
has_no_metric i = elim i.metric [ none ↦ true | some _ ↦ false ]

-- `-cents`
abbrev negated : ℕ → ℤ
negated cents = sub_ℕ 0 cents

module _ (env : Env) where
  abbrev fresh_line : ℕ → ℕ → LineItemType → BillingInvoiceLineItem
  fresh_line id invoice_id type = record {
    id = id;
    invoice_id = invoice_id;
    item_type = type;
    metric = none;
    label = "";
    quantity = 1;
    unit_amount_brl_cents = pos 0;
    subtotal_brl_cents = pos 0;
  }

  abbrev priced : String → ℤ → BillingInvoiceLineItem → BillingInvoiceLineItem
  priced label amount i = record i {
    label = label;
    quantity = 1;
    unit_amount_brl_cents = amount;
    subtotal_brl_cents = amount;
  }

  abbrev write_line :
      Bool
      → Option BillingInvoiceLineItem
      → String
      → ℤ
      → BillingInvoiceLineItem
      → Action env (Unit {0})
  write_line true none label amount fresh =
      put_line_items env (env.db.create (priced label amount fresh))
  write_line true (some item) label amount fresh =
      put_line_items env
        (env.db.update (λ (i : BillingInvoiceLineItem). i.id == item.id) (priced label amount))
  write_line false none label amount fresh = pure tt
  write_line false (some item) label amount fresh =
      put_line_items env (env.db.delete (λ (i : BillingInvoiceLineItem). i.id == item.id))

  -- The line of one type on an invoice: written where there is an amount, deleted where there is none.
  unfoldable pub put_proration_line : ℕ → LineItemType → String → ℕ → ℤ → Action env (Unit {0})
  put_proration_line invoice_id type label cents amount = do
    existing ← query λ w.
        env.db.find_first
          (λ (i : BillingInvoiceLineItem).
            i.invoice_id == invoice_id && line_type_eq i.item_type type && has_no_metric i)
          w.billing.line_items
    id ← query λ w. env.db.next_id (λ (i : BillingInvoiceLineItem). i.id) w.billing.line_items
    write_line (ltb 0 cents) existing label amount (fresh_line id invoice_id type)

  unfoldable pub record_proration_billing :
      ℕ → Option ℕ → Option ProrationPreview → Action env (Option BillingInvoice)
  unfolding ensure_open_invoice_for_period put_proration_line sync_invoice_totals_and_payment_link
  record_proration_billing ws subscription_id none = pure none
  record_proration_billing ws subscription_id (some preview) = do
    now ← ask env.clock
    invoice ← transaction (do
      ensured ←
          ensure_open_invoice_for_period env ws subscription_id (env.month_start now)
            (env.month_end now)
      put_proration_line ensured.id proration_charge
          ("Proration charge: "
            <> plan_name preview.target_plan_key
            <> " "
            <> cycle_name preview.target_billing_cycle)
          preview.charge_brl_cents (pos preview.charge_brl_cents)
      put_proration_line ensured.id proration_credit
          ("Proration credit: "
            <> plan_name preview.source_plan_key
            <> " "
            <> cycle_name preview.source_billing_cycle)
          preview.credit_brl_cents (negated preview.credit_brl_cents)
      pure ensured)
    updated ← sync_invoice_totals_and_payment_link env invoice.id
    observe "billing_invoice:proration_recorded"
    pure updated
