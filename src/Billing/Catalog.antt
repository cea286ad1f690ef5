-- ===== src/Billing/Catalog.antt =====
-- The plan catalogue of packages/contracts/src/billing.ts, and
-- apps/api/src/modules/billing/catalog.ts. `none` is the source's `null`: no limit, no price.
use vowgrid_api.Common.{ℕ, Bool, true, false, Option, none, some}
use vowgrid_api.Billing.Rows.{BillingPlanKey, launch, pro, business, enterprise}

pub record BillingPlanLimits : Type 0 where
  pub workspaces : Option ℕ
  pub internal_users : Option ℕ
  pub active_connectors : Option ℕ
  pub intents_per_month : Option ℕ
  pub executed_actions_per_month : Option ℕ
  pub audit_retention_days : Option ℕ

pub data SupportTier : Type 0 where
  email priority_email priority enterprise_support : SupportTier

pub data ApprovalsMode : Type 0 where
  basic advanced custom : ApprovalsMode

pub record BillingPlanFeatures : Type 0 where
  pub support_tier : SupportTier
  pub advanced_policies : Bool
  pub approvals_mode : ApprovalsMode

pub record BillingOveragePricing : Type 0 where
  pub intents_unit_brl_cents : Option ℕ
  pub executed_actions_unit_brl_cents : Option ℕ

pub record BillingPlanCatalogEntry : Type 0 where
  pub key : BillingPlanKey
  pub monthly_brl : Option ℕ
  pub yearly_brl : Option ℕ
  pub self_serve_checkout : Bool
  pub limits : BillingPlanLimits
  pub features : BillingPlanFeatures
  pub overage : BillingOveragePricing

unfoldable pub plan_catalog : BillingPlanKey → BillingPlanCatalogEntry
plan_catalog launch = record {
  key = launch;
  monthly_brl = some 79;
  yearly_brl = some 790;
  self_serve_checkout = true;
  limits = record {
    workspaces = some 1;
    internal_users = some 2;
    active_connectors = some 2;
    intents_per_month = some 2000;
    executed_actions_per_month = some 300;
    audit_retention_days = some 15;
  };
  features = record { support_tier = email; advanced_policies = false; approvals_mode = basic };
  overage = record { intents_unit_brl_cents = some 5; executed_actions_unit_brl_cents = some 250 };
}
plan_catalog pro = record {
  key = pro;
  monthly_brl = some 249;
  yearly_brl = some 2490;
  self_serve_checkout = true;
  limits = record {
    workspaces = some 3;
    internal_users = some 10;
    active_connectors = some 8;
    intents_per_month = some 15000;
    executed_actions_per_month = some 3000;
    audit_retention_days = some 90;
  };
  features = record {
    support_tier = priority_email;
    advanced_policies = true;
    approvals_mode = advanced;
  };
  overage = record { intents_unit_brl_cents = some 4; executed_actions_unit_brl_cents = some 200 };
}
plan_catalog business = record {
  key = business;
  monthly_brl = some 799;
  yearly_brl = some 7990;
  self_serve_checkout = true;
  limits = record {
    workspaces = some 10;
    internal_users = some 50;
    active_connectors = some 25;
    intents_per_month = some 100000;
    executed_actions_per_month = some 20000;
    audit_retention_days = some 365;
  };
  features = record {
    support_tier = priority;
    advanced_policies = true;
    approvals_mode = advanced;
  };
  overage = record { intents_unit_brl_cents = some 3; executed_actions_unit_brl_cents = some 150 };
}
plan_catalog enterprise = record {
  key = enterprise;
  monthly_brl = none;
  yearly_brl = none;
  self_serve_checkout = false;
  limits = record {
    workspaces = none;
    internal_users = none;
    active_connectors = none;
    intents_per_month = none;
    executed_actions_per_month = none;
    audit_retention_days = none;
  };
  features = record {
    support_tier = enterprise_support;
    advanced_policies = true;
    approvals_mode = custom;
  };
  overage = record { intents_unit_brl_cents = none; executed_actions_unit_brl_cents = none };
}

abbrev pub trial_effective_plan_key : BillingPlanKey
trial_effective_plan_key = pro

abbrev pub billing_trial_days : ℕ
billing_trial_days = 14

abbrev pub day_ms : ℕ
day_ms = 86400000
