-- ===== src/Billing/Amounts.antt =====
-- apps/api/src/modules/billing: what the plans let a workspace do, and what an invoice comes to.
use Prim.Native.Nat.{min}
use vowgrid_api.Common.{
  ℕ, ◌+◌, ◌*◌, ◌/◌, ◌≤◌, ◌≡◌, ◌↔◌, ◌⊎◌, refl, Bool, true, false, Option, none, some, List, arith,
  or_default,
}
use vowgrid_api.Common.Int.{ℤ, pos, negsuc, pos_part}
use vowgrid_api.Env.{Env}
use vowgrid_api.Billing.Rows.{
  BillingPlanKey, launch, pro, business, enterprise, SubscriptionStatus, active, TrialStatus,
  active_trial, TrialState, Subscription, UsageMetricKey, BillingCoupon, BillingCustomer,
  BillingInvoiceLineItem, percent, fixed_amount,
}
use vowgrid_api.Billing.Catalog.{plan_catalog}
use vowgrid_api.Billing.Usage.{usage_metric}
use vowgrid_api.Billing.Entitlements.{resolve_entitlements, planned, is_advanced_mode, is_blocked}
use vowgrid_api.Billing.Customer.{calculate_coupon_discount_brl_cents}
use vowgrid_api.Billing.Invoices.{sum_line_items, invoice_totals}

-- A coupon never takes off more than the amount, and takes nothing off an amount below zero.
pub calculate_coupon_discount-bounded :
    (c : Option BillingCoupon) (amount : ℤ)
    → calculate_coupon_discount_brl_cents c amount ≤ pos_part amount
unfolding calculate_coupon_discount_brl_cents
calculate_coupon_discount-bounded none amount = omega arith
calculate_coupon_discount-bounded (some c) (negsuc n) = omega arith
calculate_coupon_discount-bounded (some c) (pos n) = by_kind c.kind
  where
    by_kind :
        (k : vowgrid_api.Billing.Rows.BillingCouponKind)
        → elim k [
          | fixed_amount ↦ min (or_default c.amount_off_brl_cents 0) n
          | percent ↦ min ((n * or_default c.percent_off_bps 0 + 5000) / 10000) n
        ]
          ≤ n
    by_kind fixed_amount = omega arith
    by_kind percent = omega arith

-- The amounts of an invoice add up: net subtotal and discount make the sum of the line items, or
-- zero where that is below zero, and net subtotal and tax make the total; an invoice whose line
-- items come to nothing costs nothing.
pub invoice_totals-add_up :
    (env : Env) (c : Option BillingCustomer) (items : List BillingInvoiceLineItem)
    → let t = invoice_totals env c items in
      let subtotal = pos_part (sum_line_items items) in
      (t.net_subtotal + t.discount ≡ subtotal)
      × (t.net_subtotal + t.tax_amount ≡ t.total)
      × (subtotal ≡ 0 → t.total ≡ 0)
unfolding invoice_totals
invoice_totals-add_up env c items = (
  omega (arith, calculate_coupon_discount-bounded _ (sum_line_items items)),
  refl,
  λ z. ground arith,
)

-- A workspace may write exactly when it has a plan and its subscription is active, or has no plan and
-- its trial is active.
pub resolve_entitlements-writable_iff :
    (s : Option Subscription) (t : TrialState)
    → ((resolve_entitlements s t).read_only_mode ≡ false) ↔ (
        ((k : BillingPlanKey) × (planned s ≡ some (k, active)))
        ⊎ ((planned s ≡ none) × (t.status ≡ active_trial)))
unfolding resolve_entitlements
resolve_entitlements-writable_iff s t = ground arith

-- A workspace may ask for more than one approval exactly when the plan that it is on, its own or that
-- of its trial, is pro or business: an enterprise plan may not.
pub resolve_entitlements-advanced_iff :
    (s : Option Subscription) (t : TrialState)
    → let e = resolve_entitlements s t in
      (is_advanced_mode e.approvals_mode ≡ true)
      ↔ ((e.effective_plan_key ≡ some pro) ⊎ (e.effective_plan_key ≡ some business))
unfolding resolve_entitlements plan_catalog
resolve_entitlements-advanced_iff s t = ground arith

-- A metered operation is stopped exactly when there is a limit, the use has reached it, and the plan
-- bills no overage or the use is still at the limit.
pub usage_metric-is_blocked_iff :
    (k : UsageMetricKey) (used : ℕ) (limit : Option ℕ) (overage : Bool)
    → (is_blocked (some (usage_metric k used limit overage)) ≡ true)
      ↔ ((l : ℕ) × (limit ≡ some l) × (l ≤ used) × ((overage ≡ false) ⊎ (used ≡ l)))
unfolding usage_metric
usage_metric-is_blocked_iff k used limit overage = ground arith
