-- ===== src/Billing/Customer.antt =====
-- apps/api/src/modules/billing/customer.ts: the tax rate of a customer and the discount of a
-- coupon. `Math.round` of a fraction that is not negative is the quotient after half is added.
use Prim.Native.Nat.{min}
use vowgrid_api.Common.{
  ℕ, ◌+◌, ◌*◌, ◌/◌, String, Option, none, some, or_default, str_eq, if◌then◌else◌,
}
use vowgrid_api.Common.Int.{ℤ, pos, negsuc}
use vowgrid_api.Env.{Env}
use vowgrid_api.Billing.Rows.{
  BillingCustomer, BillingTaxProfile, BillingCoupon, DocumentType, cpf, cnpj, vat, other_document,
  percent, fixed_amount,
}

abbrev pub document_rate : Env → Option DocumentType → ℕ
document_rate env (some cpf) = env.br_cpf_tax_rate_bps
document_rate env (some cnpj) = env.br_cnpj_tax_rate_bps
document_rate env (some vat) = env.default_tax_rate_bps
document_rate env (some other_document) = env.default_tax_rate_bps
document_rate env none = env.default_tax_rate_bps

abbrev country_rate : Env → Option String → Option DocumentType → ℕ
country_rate env none doc = env.default_tax_rate_bps
country_rate env (some country) doc =
    if str_eq (env.upper country) "BR" then document_rate env doc else env.default_tax_rate_bps

abbrev profile_rate : Env → Option BillingTaxProfile → ℕ
profile_rate env none = env.default_tax_rate_bps
profile_rate env (some p) =
    if p.tax_exempt
    then 0
    else or_default p.tax_rate_bps_override (country_rate env p.country_code p.document_type)

unfoldable pub resolve_billing_tax_rate_bps : Env → Option BillingCustomer → ℕ
resolve_billing_tax_rate_bps env none = env.default_tax_rate_bps
resolve_billing_tax_rate_bps env (some c) = profile_rate env c.tax_profile

abbrev coupon_off : BillingCoupon → ℕ → ℕ
coupon_off c amount = elim c.kind [
  | fixed_amount ↦ min (or_default c.amount_off_brl_cents 0) amount
  | percent ↦ min ((amount * or_default c.percent_off_bps 0 + 5000) / 10000) amount
]

unfoldable pub calculate_coupon_discount_brl_cents : Option BillingCoupon → ℤ → ℕ
calculate_coupon_discount_brl_cents none amount = 0
calculate_coupon_discount_brl_cents (some c) (negsuc n) = 0
calculate_coupon_discount_brl_cents (some c) (pos n) = coupon_off c n
