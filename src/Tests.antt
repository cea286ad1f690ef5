-- ===== src/Tests.antt =====
-- Examples: a workspace with one intent, in memory; the theorems at work on it are in the children.
mod Steps
mod Policies
mod Billing
mod Accounts
mod Flow
mod Remote
mod Web
use vowgrid_api.Common.{
  ℕ, suc, ◌≤◌, ◌≡◌, ◌≢◌, ◌↔◌, ◌⊎◌, inl, inr, refl, true, false, none, some, List, [], ◌∷◌, ltb,
  arith, map, filter, ◌==◌, get_elem?, ◌+◌,
}
use mathlib.Core.List.{Perm}
use vowgrid_api.Common.Int.{pos, pos_part}
use vowgrid_api.Json.{Numbers, number, text, object, end, field}
use vowgrid_api.Env.{Env, IConnector, resolved, threw, low, full, supported, Provider}
use vowgrid_api.Prisma.{in_memory, in_memory_lawful}
use vowgrid_api.Rows.{
  Intent, user, admin, ApprovalStageDefinition, ApprovalRequest, ApprovalDecision, pending_request,
  approved_decision, ExecutionJob, queued_job,
}
use vowgrid_api.States.{
  IntentState, draft, proposed, simulated, pending_approval, approved, queued, executing, succeeded,
  failed, rollback_pending, is_valid_transition, is_terminal_state,
}
use vowgrid_api.States.Lifecycle.{
  ◌⟶◌, ◌⟶*◌, here, then, propose, simulate, request_approval, approve, enqueue, start, succeed,
  has_been, is_released, released_was_approved, released_forever, is_valid_transition_iff,
  is_terminal_state_iff,
}
use vowgrid_api.Policies.{
  Policy, PolicyRules, allow, require_approval, Subject, PolicyContext, evaluate_policy,
  evaluate_policies, amount_of, exceeds, check_amount,
}
use vowgrid_api.Policies.Overall.{
  severity, worst, evaluate_policies-worst, evaluate_policies-decisions, IsSortedDown, judge,
}
use vowgrid_api.Policies.Rules.{
  Permits, evaluate_policy-allow_iff, evaluate_policy-require_approval_iff,
}
use vowgrid_api.World.{World, is_err, ok, err, not_found, invalid_state_transition, run_steps}
use vowgrid_api.Audits.{AuditEventInput, emit_audit_event}
use vowgrid_api.Audits.Chain.{Trail, emit_audit_event-Trail}
use vowgrid_api.Intents.{with_status, transition_intent}
use vowgrid_api.Intents.Transition.{lookup_intent, moved, transition_event, transition_intent_lem}
use vowgrid_api.Intents.Progress.{HasUniqueIds, Advances}
use vowgrid_api.Simulations.{simulate_intent}
use vowgrid_api.Approvals.Model.{parse_approval_stages, clamp_stage_index}
use vowgrid_api.Approvals.{assert_stage_role_permission}
use vowgrid_api.Approvals.Review.{
  is_stage_complete, is_last_stage, settle_approval, process_approval_decision,
}
use vowgrid_api.Approvals.Stages.{nowhere, active_stage_exists, process_approval_decision-refused}
use vowgrid_api.Executions.{queue_execution, request_rollback}
use vowgrid_api.Executions.Gate.{queue_execution-refused}
use vowgrid_api.Jobs.{process_execution}
use vowgrid_api.Jobs.Retry.{marked, process_execution-not_queued}
use vowgrid_api.Jobs.Rollback.{process_rollback}
use vowgrid_api.Billing.Rows.{
  BillingPlanKey, pro, business, enterprise, active, TrialState, active_trial, Subscription,
  intents, BillingCoupon, percent, BillingInvoiceLineItem, overage_item,
}
use vowgrid_api.Billing.Usage.{usage_metric}
use vowgrid_api.Billing.Entitlements.{resolve_entitlements, planned, is_advanced_mode, is_blocked}
use vowgrid_api.Billing.Customer.{calculate_coupon_discount_brl_cents}
use vowgrid_api.Billing.Invoices.{sum_line_items, invoice_totals}
use vowgrid_api.Billing.Amounts.{
  calculate_coupon_discount-bounded, invoice_totals-add_up, resolve_entitlements-writable_iff,
  resolve_entitlements-advanced_iff, usage_metric-is_blocked_iff,
}
use vowgrid_api.Workflow.{to_simulated, to_reviewed, to_executed, to_requested, to_undone}
use vowgrid_api.Workflow.Reach.{
  process_approval_decision-moves, settle_approval-moves_none, process_execution-moves,
  process_rollback-moves, request_rollback-moves, simulate_intent-moves,
}

abbrev numbers : Numbers
numbers = record {
  nan = 1000;
  zero_number = 0;
  one_number = 1;
  is_nan = λ d. d == 1000;
  greater = λ a b. ltb b a;
  of_text = λ _. 1000;
  of_array = λ _. 1000;
  of_object = λ _. 1000;
  show = λ _. "amount";
}

abbrev mock : IConnector
mock = record {
  rollback_support = supported;
  validate_config = none;
  validate = λ a p c n. resolved (record { valid = true; errors = [] });
  simulate = λ a p c n. resolved (record {
    summary = "dry run";
    estimated_impact = low;
    risk_level = low;
    reversibility = full;
    affected_resources = object end;
    diff_preview = none;
    warnings = none;
  });
  execute = λ a p c n. resolved (record { success = true; payload = object end; duration = 1 });
  rollback = some (λ a p e c n. resolved (record { success = true; payload = object end }));
}

abbrev no_provider : Provider
no_provider = record {
  net = record {
    fetch = λ t q. threw "offline";
    elapsed = λ t. 0;
    string_of = λ v. "value";
    is_digits = λ s. false;
    spaced = λ s. s;
    url_protocol = λ s. none;
    base64 = λ s. s;
    contains = λ s t. false;
    is_finite = λ d. true;
    trunc = λ d. d;
    to_double = λ n. n;
    iso_at = λ t. "time";
    new_headers = λ h. resolved h;
    set_header = λ k v h. resolved h;
    has_header = λ k h. false;
  };
  access_token = none;
  webhook_secret = none;
  webhook_url = none;
  return_url = none;
  api_base_url = "";
  is_production = false;
  split = λ separator s. [];
  hmac_hex = λ secret s. "";
  search_params = λ url. threw "offline";
  id_of = λ s. 0;
  reais = λ cents. cents;
}

abbrev platform : Env
platform = record {
  db = in_memory;
  numbers = numbers;
  clock = λ n. suc n;
  month_start = λ _. 0;
  month_end = λ _. 1000;
  iso_text = λ _. "time";
  id_text = λ _. "id";
  number_of = λ n. n;
  hmac_hex = λ _. "hash";
  text_le = λ _ _. true;
  random_token = λ n. "token";
  random_salt = λ n. "salt";
  scrypt = λ p s. p;
  base64url = λ s. s;
  from_base64url = λ s. s;
  sha256_hex = λ s. s;
  session_secret = some "secret";
  mail_error = λ _. none;
  lower = λ s. s;
  slug_text = λ s. s;
  first_chars = λ n s. s;
  decimal = λ n. "n";
  last_chars = λ n s. s;
  ends_with = λ s t. false;
  trim = λ s. s;
  text_length = λ _. 5;
  audit_fails = λ _. false;
  queue_error = λ _. none;
  registered = λ _. some mock;
  seal = λ iv s. (iv, s);
  unseal = λ iv tag s. resolved s;
  stringify = λ _. "{}";
  parse_json = λ _. resolved (object (field "token" (text "t") end));
  parse_date = λ s. some 500;
  api_key_salt = "salt";
  api_key_default_ttl_days = 90;
  api_key_max_ttl_days = 365;
  default_tax_rate_bps = 0;
  br_cpf_tax_rate_bps = 0;
  br_cnpj_tax_rate_bps = 0;
  upper = λ s. s;
  coupon_entries = [];
  payments = no_provider;
}

abbrev order : IntentState → Intent
order s = record {
  id = 1;
  title = "Refund";
  action = "refund";
  connector_id = none;
  agent_id = 3;
  workspace_id = 7;
  status = s;
  parameters = none;
  environment = "production";
  idempotency_key = none;
}

abbrev stage : ApprovalStageDefinition
stage = record { label = "Review"; required_count = 2; reviewer_roles = admin ∷ [] }

abbrev request : ApprovalRequest
request = record {
  id = 4;
  intent_id = 1;
  status = pending_request;
  required_count = 2;
  current_count = 0;
  current_stage_index = some 9;
  mode = none;
  stage_definitions = some (stage ∷ []);
}

abbrev earlier : ApprovalDecision
earlier = record {
  id = 0;
  approval_request_id = 4;
  user_id = 5;
  decision = approved_decision;
  rationale = none;
  stage_index = some 0;
  stage_label = none;
}

abbrev job : ExecutionJob
job = record {
  id = 2;
  intent_id = 1;
  status = queued_job;
  attempts = 0;
  idempotency_key = none;
  result = none;
  error = none;
}

abbrev office : IntentState → World platform
office s = record {
  intents = order s ∷ [];
  connectors = [];
  simulation_results = [];
  policies = [];
  policy_decisions = [];
  approval_requests = request ∷ [];
  approval_decisions = earlier ∷ [];
  memberships = [];
  users = [];
  execution_jobs = job ∷ [];
  rollback_attempts = [];
  receipts = [];
  audit_events = [];
  billing = record {
    workspaces_table = [];
    trial_states = [];
    subscriptions = [];
    usage_counters = [];
    billing_customers = [];
    invoices = [];
    line_items = [];
    billing_events = [];
  };
  auth = record {
    sessions = [];
    reset_tokens = [];
    verification_tokens = [];
    invites = [];
    oauth_accounts = [];
    oauth_signup_tokens = [];
    api_keys = [];
    outbox = [];
  };
  execution_queue = [];
  rollback_queue = [];
  metrics = [];
  effects = [];
  ticks = 0;
}

office_unique : (s : IntentState) → HasUniqueIds platform (office s)
office_unique s k ws i h = ground arith
