-- ===== src/Billing/Webhook.antt =====
-- `processMercadoPagoWebhook` of apps/api/src/modules/billing/service.ts.
pub mod Snapshot
pub mod Sync
pub mod Once
use vowgrid_api.Common.{
  ℕ, String, ◌<>◌, Bool, true, false, not, ◌&&◌, ◌||◌, Option, none, some, List, [], ◌∷◌, ◌==◌,
  if◌then◌else◌, str_eq, or_default,
}
use vowgrid_api.Env.{Env}
use vowgrid_api.Json.{Json, text, null, object, end, field}
use vowgrid_api.Rows.{system, User}
use vowgrid_api.Audits.{AuditEventInput, emit_audit_event}
use vowgrid_api.Auth.Tables.{truthy}
use vowgrid_api.Billing.Rows.{
  BillingPlanKey, launch, pro, business, enterprise, BillingCycle, monthly, yearly,
  SubscriptionStatus, trialing, active, past_due, paused, canceled, expired, incomplete,
  converted_trial, TrialState, Subscription, BillingCustomer, BillingEvent, BillingEventStatus,
  received_event, ignored_event, processed_event, Workspace,
}
use vowgrid_api.Billing.Entitlements.{is_active_subscription, is_active_trial}
use vowgrid_api.Billing.Provider.{Provider, Preapproval, either}
use vowgrid_api.Billing.Payments.{get_mercado_pago_subscription}
use vowgrid_api.Billing.Signature.{validate_mercado_pago_webhook_signature}
use vowgrid_api.World.{
  Action, validation, unauthorized, not_found, thrown, ◌>>=◌, ◌>>◌, pure, query, write, or_raise,
  raise_if, ask, settle, when,
}

-- `payload.id` is a text here: `payload.id?.toString()`.
pub record WebhookPayload : Type 0 where
  pub action : Option String
  pub event_type : Option String
  pub data_id : Option String
  pub id : Option String
  pub date_created : Option String
  pub raw : Json

pub record WebhookInput : Type 0 where
  pub payload : WebhookPayload
  pub raw_url : String
  pub signature_header : Option String
  pub request_id : Option String

pub data WebhookResult : Type 0 where
  duplicate_event ignored : String → WebhookResult
  -- the key, the workspace, the subscription and its status
  synced : String → ℕ → ℕ → SubscriptionStatus → WebhookResult

abbrev pub plan_name : BillingPlanKey → String
plan_name launch = "launch"
plan_name pro = "pro"
plan_name business = "business"
plan_name enterprise = "enterprise"

abbrev pub cycle_name : BillingCycle → String
cycle_name monthly = "monthly"
cycle_name yearly = "yearly"

abbrev pub subscription_status_name : SubscriptionStatus → String
subscription_status_name trialing = "trialing"
subscription_status_name active = "active"
subscription_status_name past_due = "past_due"
subscription_status_name paused = "paused"
subscription_status_name canceled = "canceled"
subscription_status_name expired = "expired"
subscription_status_name incomplete = "incomplete"

-- The plan and the cycle that a reference names; the references that this code builds name no other.
abbrev plan_named : String → Option BillingPlanKey
plan_named s =
    if str_eq s "launch"
    then some launch
    else if str_eq s "pro"
    then some pro
    else if str_eq s "business"
    then some business
    else if str_eq s "enterprise"
    then some enterprise
    else none

abbrev cycle_named : String → Option BillingCycle
cycle_named s =
    if str_eq s "monthly" then some monthly else if str_eq s "yearly" then some yearly else none

pub record ExternalReference : Type 0 where
  pub workspace_id : ℕ
  pub plan_key : Option BillingPlanKey
  pub billing_cycle : Option BillingCycle

abbrev pub is_canceled : SubscriptionStatus → Bool
is_canceled canceled = true
is_canceled _ = false

-- `a ?? b`, where `b` may be missing too.
abbrev pub fallback : {A : Type 0} → Option A → Option A → Option A
fallback none d = d
fallback (some a) d = some a

-- A member of a row that may not be there.
abbrev pub of_row : {A B : Type 0} → (A → Option B) → Option A → Option B
of_row f none = none
of_row f (some a) = f a

abbrev pub is_same_text : Option String → String → Bool
is_same_text none s = false
is_same_text (some t) s = str_eq t s

abbrev pub name_or_null : Option String → Json
name_or_null none = null
name_or_null (some s) = text s

abbrev pub map_name : {A : Type 0} → (A → String) → Option A → Option String
map_name f none = none
map_name f (some a) = some (f a)

module _ (env : Env) (p : Provider) where
  abbrev reference_of : List String → Option ExternalReference
  reference_of (ws ∷ plan ∷ cycle ∷ rest) =
      if str_eq ws "" || str_eq plan "" || str_eq cycle ""
      then none
      else some (record {
        workspace_id = p.id_of ws;
        plan_key = plan_named plan;
        billing_cycle = cycle_named cycle;
      })
  reference_of _ = none

  unfoldable pub parse_external_reference : Option String → Option ExternalReference
  parse_external_reference reference = elim (truthy reference) [
    | none ↦ none
    | some r ↦ reference_of (p.split ":" r)
  ]

  unfoldable pub extract_webhook_resource_id :
      (String → Option String) → WebhookPayload → Option String
  extract_webhook_resource_id params payload =
      truthy (either payload.data_id (either payload.id (either (params "data.id") (params "id"))))

  unfoldable pub build_webhook_event_key : WebhookInput → String → String
  build_webhook_event_key input resource_id = elim (truthy input.request_id) [
    | some id ↦ "mercado_pago:" <> id
    | none ↦
        "mercado_pago:"
        <> or_default input.payload.event_type "unknown"
        <> ":"
        <> or_default input.payload.action "unknown"
        <> ":"
        <> resource_id
        <> ":"
        <> or_default input.payload.date_created "unknown"
  ]

  abbrev pub is_subscription_webhook : WebhookPayload → Bool
  is_subscription_webhook payload =
      p.net.contains (env.lower (or_default payload.event_type "")) "preapproval"

  abbrev pub put_events :
      (env.db.Table BillingEvent → env.db.Table BillingEvent) → Action env (Unit {0})
  put_events f =
      write λ w. record w {
        billing = record (w.billing) { billing_events = f w.billing.billing_events };
      }

  abbrev pub write_customers :
      (env.db.Table BillingCustomer → env.db.Table BillingCustomer) → Action env (Unit {0})
  write_customers f = write λ w. record w {
    billing = record (w.billing) { billing_customers = f w.billing.billing_customers };
  }

  abbrev pub put_subscriptions :
      (env.db.Table Subscription → env.db.Table Subscription) → Action env (Unit {0})
  put_subscriptions f =
      write
        λ w. record w { billing = record (w.billing) { subscriptions = f w.billing.subscriptions } }

  abbrev pub is_keyed : String → BillingEvent → Bool
  is_keyed key e = str_eq e.event_key key

  unfoldable pub update_event : ℕ → (BillingEvent → BillingEvent) → Action env (Unit {0})
  update_event id f = put_events (env.db.update (λ (e : BillingEvent). e.id == id) f)
