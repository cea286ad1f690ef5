-- ===== src/Billing/Provider.antt =====
-- apps/api/src/modules/billing/mercado-pago.ts: the requests to the payment provider. The members of its
-- answers have the types that its interface documents.
use vowgrid_api.Common.{
  ℕ, String, Bool, true, false, not, ◌&&◌, Option, none, some, List, [], ◌∷◌, ◌++◌, if◌then◌else◌,
  str_eq, or_default, ◌==◌,
}
use vowgrid_api.Env.{Env}
pub use vowgrid_api.Env.{Provider}
use vowgrid_api.Json.{Json, number, text}
use vowgrid_api.Auth.Tables.{truthy}
use vowgrid_api.Connectors.Remote.{entry}
use vowgrid_api.Billing.Rows.{
  BillingPlanKey, BillingCycle, monthly, yearly, SubscriptionStatus, active, paused, canceled,
  incomplete, past_due,
}
use vowgrid_api.Billing.Catalog.{plan_catalog}

pub record Preapproval : Type 0 where
  pub id : String
  pub status : Option String
  pub external_reference : Option String
  pub payer_email : Option String
  -- `String(payer_id)`
  pub payer_id : Option String
  -- whether `payer_id` is true for JavaScript
  pub has_payer_id : Bool
  pub init_point : Option String
  pub sandbox_init_point : Option String
  pub next_payment_date : Option String
  pub date_created : Option String
  pub raw : Json

abbrev pub text_at : String → Json → Option String
text_at key v = elim (entry key v) [ none ↦ none | some x ↦ elim x [ text s ↦ some s | _ ↦ none ] ]

abbrev id_at : Env → String → Json → Option String
id_at env key v = elim (entry key v) [
  | none ↦ none
  | some x ↦ elim x [ text s ↦ some s | number d ↦ some (env.numbers.show d) | _ ↦ none ]
]

abbrev is_true_id : Env → String → Json → Bool
is_true_id env key v = elim (entry key v) [
  | none ↦ false
  | some x ↦ elim x [
    | text s ↦ not (str_eq s "")
    | number d ↦ not (d == env.numbers.zero_number)
    | _ ↦ false
  ]
]

abbrev pub preapproval_of : Env → Json → Preapproval
preapproval_of env v = record {
  id = or_default (text_at "id" v) "";
  status = text_at "status" v;
  external_reference = text_at "external_reference" v;
  payer_email = text_at "payer_email" v;
  payer_id = id_at env "payer_id" v;
  has_payer_id = is_true_id env "payer_id" v;
  init_point = text_at "init_point" v;
  sandbox_init_point = text_at "sandbox_init_point" v;
  next_payment_date = text_at "next_payment_date" v;
  date_created = text_at "date_created" v;
  raw = v;
}

-- `a ?? b`
abbrev pub either : Option String → Option String → Option String
either none b = b
either (some a) b = some a

unfoldable pub map_mercado_pago_status : Env → Option String → SubscriptionStatus
map_mercado_pago_status env none = incomplete
map_mercado_pago_status env (some s) =
    let status = env.lower s in
    if str_eq status "authorized"
    then active
    else if str_eq status "paused"
    then paused
    else if str_eq status "cancelled"
    then canceled
    else if str_eq status "canceled"
    then canceled
    else if str_eq status "pending"
    then incomplete
    else if str_eq status "rejected"
    then past_due
    else if str_eq s ""
    then incomplete
    else past_due

-- The price of a plan for a cycle.
abbrev pub price_of : BillingPlanKey → BillingCycle → Option ℕ
unfolding plan_catalog
price_of key monthly = (plan_catalog key).monthly_brl
price_of key yearly = (plan_catalog key).yearly_brl

pub record StartCheckoutInput : Type 0 where
  pub plan_key : BillingPlanKey
  pub billing_cycle : BillingCycle
  pub external_reference : String
  pub payer_email : String
  pub reason : String
  -- in cents
  pub transaction_amount : Option ℕ

pub record Checkout : Type 0 where
  pub provider_subscription_id : String
  pub status : SubscriptionStatus
  pub checkout_url : String
  pub provider_payload : Json

-- An item of an invoice: its title, its quantity and its unit price in cents.
pub record PaymentItem : Type 0 where
  pub title : String
  pub quantity : ℕ
  pub unit_price_brl_cents : ℕ

pub record ProviderState : Type 0 where
  pub configured : Bool
  pub checkout_enabled : Bool
  pub manual_setup_required : List String

abbrev is_given : Option String → Bool
is_given v = elim (truthy v) [ none ↦ false | some _ ↦ true ]

abbrev unless : Bool → String → List String
unless b message = if b then [] else message ∷ []

unfoldable pub get_mercado_pago_provider_state : Provider → ProviderState
get_mercado_pago_provider_state p = record {
  configured = is_given p.access_token;
  checkout_enabled = is_given p.access_token && is_given p.return_url;
  manual_setup_required =
      unless (is_given p.access_token) "Set MERCADO_PAGO_ACCESS_TOKEN in apps/api/.env."
      ++ unless (is_given p.webhook_secret)
          "Configure MERCADO_PAGO_WEBHOOK_SECRET after enabling webhook signatures."
      ++ unless (is_given p.webhook_url)
          "Set MERCADO_PAGO_WEBHOOK_URL to your public /v1/billing/webhooks/mercado-pago endpoint."
      ++ unless (is_given p.return_url)
          "Set MERCADO_PAGO_RETURN_URL so Mercado Pago can return users to the VowGrid billing surface.";
}
