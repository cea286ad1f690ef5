-- ===== src/Billing/Rows.antt =====
-- The rows of the billing tables, and the values of packages/contracts/src/billing.ts.
use vowgrid_api.Common.{ℕ, String, Bool, Option}
use vowgrid_api.Common.Int.{ℤ}
use vowgrid_api.Json.{Json}
use vowgrid_api.Prisma.{Prisma}

pub data BillingPlanKey : Type 0 where
  launch pro business enterprise : BillingPlanKey

pub data BillingCycle : Type 0 where
  monthly yearly : BillingCycle

pub data SubscriptionStatus : Type 0 where
  trialing active past_due paused canceled expired incomplete : SubscriptionStatus

pub data TrialStatus : Type 0 where
  active_trial expired_trial converted_trial : TrialStatus

pub data UsageMetricKey : Type 0 where
  workspaces internal_users active_connectors intents executed_actions : UsageMetricKey

pub record Workspace : Type 0 where
  pub id : ℕ
  pub name : String
  pub slug : String
  pub created_at : ℕ

pub record TrialState : Type 0 where
  pub workspace_id : ℕ
  pub status : TrialStatus
  pub starts_at : ℕ
  pub ends_at : ℕ
  pub expired_at : Option ℕ
  pub converted_at : Option ℕ

pub record Subscription : Type 0 where
  pub id : ℕ
  pub workspace_id : ℕ
  pub plan_key : Option BillingPlanKey
  pub billing_cycle : Option BillingCycle
  pub status : SubscriptionStatus
  pub started_at : Option ℕ
  pub billing_customer_id : Option ℕ
  -- `mercadoPagoPreapprovalId`
  pub preapproval_id : Option String
  pub checkout_url : Option String
  pub external_reference : Option String
  pub current_period_start : Option ℕ
  pub current_period_end : Option ℕ
  pub cancel_at_period_end : Bool
  pub canceled_at : Option ℕ
  pub last_provider_sync_at : Option ℕ
  pub provider_metadata : Option Json

pub record UsageCounter : Type 0 where
  pub id : ℕ
  pub workspace_id : ℕ
  pub metric : UsageMetricKey
  pub period_start : ℕ
  pub period_end : ℕ
  pub count : ℕ
  pub warning_triggered_at : Option ℕ
  pub limit_reached_at : Option ℕ

pub data DocumentType : Type 0 where
  cpf cnpj vat other_document : DocumentType

pub record BillingTaxProfile : Type 0 where
  pub country_code : Option String
  pub region_code : Option String
  pub document_type : Option DocumentType
  pub document_number : Option String
  pub tax_exempt : Bool
  pub tax_rate_bps_override : Option ℕ

pub data BillingCouponKind : Type 0 where
  percent fixed_amount : BillingCouponKind

pub record BillingCoupon : Type 0 where
  pub code : String
  pub label : String
  pub kind : BillingCouponKind
  pub percent_off_bps : Option ℕ
  pub amount_off_brl_cents : Option ℕ

-- The metadata are held as `parseBillingCustomerMetadata` reads them.
pub record BillingCustomer : Type 0 where
  pub id : ℕ
  pub workspace_id : ℕ
  pub email : String
  pub legal_name : Option String
  pub mercado_pago_customer_id : Option String
  pub tax_profile : Option BillingTaxProfile
  pub active_coupon : Option BillingCoupon

pub data InvoiceStatus : Type 0 where
  open_invoice paid_invoice void_invoice : InvoiceStatus

pub record BillingInvoice : Type 0 where
  pub id : ℕ
  pub workspace_id : ℕ
  pub subscription_id : Option ℕ
  pub status : InvoiceStatus
  pub subtotal_brl_cents : ℕ
  pub tax_rate_bps : ℕ
  pub tax_amount_brl_cents : ℕ
  pub total_brl_cents : ℕ
  pub payment_url : Option String
  pub preference_id : Option String
  pub period_start : ℕ
  pub period_end : ℕ

pub data LineItemType : Type 0 where
  overage_item proration_charge proration_credit : LineItemType

pub record BillingInvoiceLineItem : Type 0 where
  pub id : ℕ
  pub invoice_id : ℕ
  pub item_type : LineItemType
  pub metric : Option UsageMetricKey
  pub label : String
  pub quantity : ℕ
  pub unit_amount_brl_cents : ℤ
  pub subtotal_brl_cents : ℤ

pub data BillingEventStatus : Type 0 where
  received_event ignored_event processed_event : BillingEventStatus

-- The source is always `mercado_pago`.
pub record BillingEvent : Type 0 where
  pub id : ℕ
  pub workspace_id : Option ℕ
  pub subscription_id : Option ℕ
  pub event_key : String
  pub event_type : String
  pub provider_reference : String
  pub status : BillingEventStatus
  pub payload : Json
  pub processed_at : Option ℕ

pub record BillingTables (db : Prisma) : Type 0 where
  pub workspaces_table : db.Table Workspace
  pub trial_states : db.Table TrialState
  pub subscriptions : db.Table Subscription
  pub usage_counters : db.Table UsageCounter
  pub billing_customers : db.Table BillingCustomer
  pub invoices : db.Table BillingInvoice
  pub line_items : db.Table BillingInvoiceLineItem
  pub billing_events : db.Table BillingEvent
