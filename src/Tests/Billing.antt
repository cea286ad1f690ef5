-- ===== src/Tests/Billing.antt =====
-- Examples: a trial, a subscription, an invoice and a coupon.
use vowgrid_api.Common.{◌≤◌, ◌≡◌, ◌↔◌, ◌⊎◌, true, false, none, some, [], ◌∷◌, ◌+◌}
use vowgrid_api.Common.Int.{pos, pos_part}
use vowgrid_api.Billing.Rows.{
  BillingPlanKey, pro, business, enterprise, active, TrialState, active_trial, Subscription,
  intents, BillingCoupon, percent, BillingInvoiceLineItem, overage_item,
}
use vowgrid_api.Billing.Entitlements.{resolve_entitlements, planned, is_advanced_mode}
use vowgrid_api.Billing.Customer.{calculate_coupon_discount_brl_cents}
use vowgrid_api.Billing.Invoices.{sum_line_items, invoice_totals}
use vowgrid_api.Billing.Amounts.{
  calculate_coupon_discount-bounded, invoice_totals-add_up, resolve_entitlements-writable_iff,
  resolve_entitlements-advanced_iff,
}
use vowgrid_api.Tests.{platform}

abbrev trial : TrialState
trial = record {
  workspace_id = 7;
  status = active_trial;
  starts_at = 0;
  ends_at = 100;
  expired_at = none;
  converted_at = none;
}

abbrev subscription : Subscription
subscription = record {
  id = 1;
  workspace_id = 7;
  plan_key = some enterprise;
  billing_cycle = none;
  status = active;
  started_at = none;
  billing_customer_id = none;
  preapproval_id = none;
  checkout_url = none;
  external_reference = none;
  current_period_start = none;
  current_period_end = none;
  cancel_at_period_end = false;
  canceled_at = none;
  last_provider_sync_at = none;
  provider_metadata = none;
}

resolve_entitlements-writable_example :
    ((resolve_entitlements (some subscription) trial).read_only_mode ≡ false) ↔ (
      ((k : BillingPlanKey) × (planned (some subscription) ≡ some (k, active)))
      ⊎ ((planned (some subscription) ≡ none) × (trial.status ≡ active_trial)))
resolve_entitlements-writable_example = resolve_entitlements-writable_iff (some subscription) trial

resolve_entitlements-advanced_example :
    let e = resolve_entitlements (some subscription) trial in
    (is_advanced_mode e.approvals_mode ≡ true)
    ↔ ((e.effective_plan_key ≡ some pro) ⊎ (e.effective_plan_key ≡ some business))
resolve_entitlements-advanced_example = resolve_entitlements-advanced_iff (some subscription) trial

abbrev overage_line : BillingInvoiceLineItem
overage_line = record {
  id = 1;
  label = "Intent proposal overage";
  invoice_id = 1;
  item_type = overage_item;
  metric = some intents;
  quantity = 3;
  unit_amount_brl_cents = pos 4;
  subtotal_brl_cents = pos 12;
}

invoice_totals-add_up_example :
    let t = invoice_totals platform none (overage_line ∷ []) in
    let subtotal = pos_part (sum_line_items (overage_line ∷ [])) in
    (t.net_subtotal + t.discount ≡ subtotal)
    × (t.net_subtotal + t.tax_amount ≡ t.total)
    × (subtotal ≡ 0 → t.total ≡ 0)
invoice_totals-add_up_example = invoice_totals-add_up platform none (overage_line ∷ [])

abbrev coupon : BillingCoupon
coupon = record {
  code = "HALF";
  label = "";
  kind = percent;
  percent_off_bps = some 5000;
  amount_off_brl_cents = none;
}

calculate_coupon_discount-bounded_example :
    calculate_coupon_discount_brl_cents (some coupon) (pos 12) ≤ pos_part (pos 12)
calculate_coupon_discount-bounded_example = calculate_coupon_discount-bounded (some coupon) (pos 12)
