-- ===== src/Billing/Entitlements.antt =====
-- apps/api/src/modules/billing/entitlements.ts: the trial, the plan in force, and the checks that
-- every write action passes.
use vowgrid_api.Common.{
  ℕ, ◌+◌, ◌-◌, ◌*◌, ◌/◌, String, Bool, true, false, not, ◌&&◌, ◌||◌, Option, none, some, List, leb,
  ltb, ◌==◌, if◌then◌else◌, find, str_eq, or_default,
}
use vowgrid_api.Env.{Env}
use vowgrid_api.Billing.Rows.{
  BillingPlanKey, SubscriptionStatus, active, TrialStatus, active_trial, expired_trial,
  converted_trial, UsageMetricKey, internal_users, active_connectors, intents, executed_actions,
  Workspace, TrialState, Subscription,
}
use vowgrid_api.Billing.Catalog.{
  BillingPlanLimits, SupportTier, email, ApprovalsMode, basic, advanced, BillingPlanCatalogEntry,
  plan_catalog, trial_effective_plan_key, billing_trial_days, day_ms,
}
use vowgrid_api.Billing.Contact.{ensure_billing_customer}
use vowgrid_api.Billing.Usage.{UsageMetric, blocked, metric_eq, get_current_usage_metrics}
use vowgrid_api.World.{
  Action, not_found, payment_required, ◌>>=◌, ◌>>◌, pure, query, write, or_raise, ask, raise_if,
}

pub data EntitlementSource : Type 0 where
  from_trial from_subscription from_expired_trial no_source : EntitlementSource

pub record Entitlements : Type 0 where
  pub source : EntitlementSource
  pub effective_plan_key : Option BillingPlanKey
  pub read_only_mode : Bool
  pub self_serve_checkout : Bool
  pub automatic_overage_billing : Bool
  pub support_tier : SupportTier
  pub advanced_policies : Bool
  pub approvals_mode : ApprovalsMode
  pub limits : BillingPlanLimits

abbrev empty_limits : BillingPlanLimits
empty_limits = record {
  workspaces = some 0;
  internal_users = some 0;
  active_connectors = some 0;
  intents_per_month = some 0;
  executed_actions_per_month = some 0;
  audit_retention_days = some 0;
}

-- `Math.max(Math.ceil((endsAt - now) / day), 0)`
unfoldable pub get_days_remaining : ℕ → ℕ → ℕ
get_days_remaining ends_at now = (ends_at - now + (day_ms - 1)) / day_ms

abbrev pub is_active_subscription : SubscriptionStatus → Bool
is_active_subscription active = true
is_active_subscription _ = false

abbrev pub is_active_trial : TrialStatus → Bool
is_active_trial active_trial = true
is_active_trial _ = false

abbrev pub is_expired_trial : TrialStatus → Bool
is_expired_trial expired_trial = true
is_expired_trial _ = false

abbrev is_some {ℓ} : {A : Type ℓ} → Option A → Bool
is_some none = false
is_some (some _) = true

-- The entitlements under a plan.
abbrev under_plan : BillingPlanCatalogEntry → EntitlementSource → Bool → Bool → Bool → Entitlements
under_plan plan source read_only self_serve overage_billing = record {
  source = source;
  effective_plan_key = some plan.key;
  read_only_mode = read_only;
  self_serve_checkout = self_serve;
  automatic_overage_billing = overage_billing;
  support_tier = plan.features.support_tier;
  advanced_policies = plan.features.advanced_policies;
  approvals_mode = plan.features.approvals_mode;
  limits = plan.limits;
}

abbrev without_plan : EntitlementSource → Entitlements
without_plan source = record {
  source = source;
  effective_plan_key = none;
  read_only_mode = true;
  self_serve_checkout = true;
  automatic_overage_billing = false;
  support_tier = email;
  advanced_policies = false;
  approvals_mode = basic;
  limits = empty_limits;
}

abbrev bills_overage : BillingPlanCatalogEntry → Bool
bills_overage plan =
    is_some plan.overage.intents_unit_brl_cents
    || is_some plan.overage.executed_actions_unit_brl_cents

-- The subscription's plan key and status, where there is a subscription with a plan.
abbrev pub planned : Option Subscription → Option (BillingPlanKey × SubscriptionStatus)
planned none = none
planned (some s) = elim s.plan_key [ none ↦ none | some k ↦ some (k, s.status) ]

abbrev entitle : Option (BillingPlanKey × SubscriptionStatus) → TrialStatus → Entitlements
entitle (some (k, status)) trial =
    let plan = plan_catalog k in
    if is_active_subscription status
    then under_plan plan from_subscription false plan.self_serve_checkout (bills_overage plan)
    else under_plan plan from_subscription true plan.self_serve_checkout false
entitle none trial =
    if is_active_trial trial
    then under_plan (plan_catalog trial_effective_plan_key) from_trial false true false
    else if is_expired_trial trial
    then without_plan from_expired_trial
    else without_plan no_source

unfoldable pub resolve_entitlements : Option Subscription → TrialState → Entitlements
unfolding plan_catalog
resolve_entitlements subscription trial = entitle (planned subscription) trial.status

abbrev is_subscription_source : EntitlementSource → Bool
is_subscription_source from_subscription = true
is_subscription_source _ = false

abbrev pub overage_allowed_by : Entitlements → Bool
overage_allowed_by e = e.automatic_overage_billing && is_subscription_source e.source

pub record BillingState : Type 0 where
  pub subscription : Option Subscription
  pub trial_state : TrialState

pub record BillingAccount : Type 0 where
  pub subscription : Option Subscription
  pub trial : TrialState
  pub days_remaining : ℕ
  pub entitlements : Entitlements
  pub usage : List UsageMetric

-- What `ensureBillingState` makes of a trial: over, or converted by an active subscription.
unfoldable pub expire : ℕ → TrialState → TrialState
expire now t =
    if is_active_trial t.status && leb t.ends_at now
    then record t { status = expired_trial; expired_at = some now }
    else t

unfoldable pub convert : ℕ → Option Subscription → TrialState → TrialState
convert now none t = t
convert now (some s) t =
    if is_active_subscription s.status && is_active_trial t.status
    then record t { status = converted_trial; converted_at = some (or_default s.started_at now) }
    else t

module _ (env : Env) where
  abbrev put_trials : (env.db.Table TrialState → env.db.Table TrialState) → Action env (Unit {0})
  put_trials f =
      write
        λ w. record w { billing = record (w.billing) { trial_states = f w.billing.trial_states } }

  abbrev trial_of : ℕ → TrialState → Bool
  trial_of ws t = t.workspace_id == ws

  abbrev ensure_trial : ℕ → ℕ → Option TrialState → Action env TrialState
  ensure_trial ws created_at (some t) = pure t
  ensure_trial ws created_at none =
      let t : TrialState = record {
        workspace_id = ws;
        status = active_trial;
        starts_at = created_at;
        ends_at = created_at + billing_trial_days * day_ms;
        expired_at = none;
        converted_at = none;
      } in
      put_trials (env.db.create t) >> pure t

  unfoldable pub ensure_billing_state : ℕ → Action env BillingState
  unfolding expire convert ensure_billing_customer
  ensure_billing_state ws = do
    row ← query λ w. env.db.find_first (λ (x : Workspace). x.id == ws) w.billing.workspaces_table
    found ← query λ w. env.db.find_first (trial_of ws) w.billing.trial_states
    subscription ←
        query λ w.
          env.db.find_first (λ (s : Subscription). s.workspace_id == ws) w.billing.subscriptions
    workspace ← or_raise row (not_found "Workspace" ws)
    trial ← ensure_trial ws workspace.created_at found
    now ← ask env.clock
    put_trials (env.db.update (trial_of ws) (expire now))
    ensure_billing_customer env workspace
    later ← ask env.clock
    put_trials (env.db.update (trial_of ws) (convert later subscription))
    pure (record {
      subscription = subscription;
      trial_state = convert later subscription (expire now trial);
    })

  unfoldable pub get_billing_account : ℕ → Action env BillingAccount
  unfolding ensure_billing_state resolve_entitlements
  get_billing_account ws = do
    state ← ensure_billing_state ws
    now ← ask env.clock
    let entitlements = resolve_entitlements state.subscription state.trial_state
    usage ←
        get_current_usage_metrics env ws entitlements.limits (overage_allowed_by entitlements)
          (overage_allowed_by entitlements)
    pure (record {
      subscription = state.subscription;
      trial = state.trial_state;
      days_remaining =
          if is_active_trial state.trial_state.status
          then get_days_remaining state.trial_state.ends_at now
          else 0;
      entitlements = entitlements;
      usage = usage;
    })

-- `metric?.status === 'blocked'`
abbrev pub is_blocked : Option UsageMetric → Bool
is_blocked none = false
is_blocked (some m) = elim m.status [ blocked ↦ true | _ ↦ false ]

abbrev allows_overage : Option UsageMetric → Bool
allows_overage none = false
allows_overage (some m) = m.overage_allowed

abbrev pub get_usage_metric : BillingAccount → UsageMetricKey → Option UsageMetric
get_usage_metric account key = find (λ m. metric_eq m.key key) account.usage

abbrev pub is_advanced_mode : ApprovalsMode → Bool
is_advanced_mode advanced = true
is_advanced_mode _ = false

unfoldable pub is_advanced_policy_type : String → Bool
is_advanced_policy_type type =
    str_eq type "connector_restriction"
    || str_eq type "environment_restriction"
    || str_eq type "role_constraint"

module _ (env : Env) where
  abbrev pub require_writable_billing : BillingAccount → Action env (Unit {0})
  require_writable_billing account =
      raise_if account.entitlements.read_only_mode (payment_required "BILLING_READ_ONLY_MODE")

  unfoldable pub assert_can_create_intent : ℕ → Action env BillingAccount
  assert_can_create_intent ws = do
    account ← get_billing_account env ws
    require_writable_billing account
    let metric = get_usage_metric account intents
    raise_if (is_blocked metric && not (allows_overage metric))
        (payment_required "BILLING_INTENT_LIMIT_REACHED")
    pure account

  unfoldable pub assert_can_queue_execution : ℕ → Action env BillingAccount
  assert_can_queue_execution ws = do
    account ← get_billing_account env ws
    require_writable_billing account
    let metric = get_usage_metric account executed_actions
    raise_if (is_blocked metric && not (allows_overage metric))
        (payment_required "BILLING_EXECUTION_LIMIT_REACHED")
    pure account

  unfoldable pub assert_can_create_connector : ℕ → Bool → Action env BillingAccount
  assert_can_create_connector ws enabled = do
    account ← get_billing_account env ws
    require_writable_billing account
    raise_if (enabled && is_blocked (get_usage_metric account active_connectors))
        (payment_required "BILLING_CONNECTOR_LIMIT_REACHED")
    pure account

  unfoldable pub assert_can_manage_internal_users : ℕ → Action env BillingAccount
  assert_can_manage_internal_users ws = do
    account ← get_billing_account env ws
    require_writable_billing account
    raise_if (is_blocked (get_usage_metric account internal_users))
        (payment_required "BILLING_INTERNAL_USER_LIMIT_REACHED")
    pure account

  unfoldable pub assert_can_create_policy : ℕ → String → Action env BillingAccount
  assert_can_create_policy ws policy_type = do
    account ← get_billing_account env ws
    require_writable_billing account
    raise_if (is_advanced_policy_type policy_type && not account.entitlements.advanced_policies)
        (payment_required "BILLING_ADVANCED_POLICIES_REQUIRED")
    pure account

  unfoldable pub assert_can_require_approval_count : ℕ → ℕ → Action env BillingAccount
  assert_can_require_approval_count ws required_count = do
    account ← get_billing_account env ws
    require_writable_billing account
    raise_if (ltb 1 required_count && not (is_advanced_mode account.entitlements.approvals_mode))
        (payment_required "BILLING_ADVANCED_APPROVALS_REQUIRED")
    pure account
