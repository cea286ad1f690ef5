-- ===== src/Billing/Usage.antt =====
-- apps/api/src/modules/billing/usage.ts: the monthly counters and the metrics. The warning ratio of
-- 0.8 is the fraction 4/5: `used / limit >= 0.8` is `4 * limit <= 5 * used`, and
-- `Math.ceil(limit * 0.8)` is the ceiling of `4 * limit / 5`.
use vowgrid_api.Common.{
  ℕ, ◌+◌, ◌-◌, ◌*◌, ◌/◌, Bool, false, not, ◌&&◌, Option, none, some, List, [], ◌∷◌, leb, ltb, ◌==◌,
  if◌then◌else◌, length,
}
use vowgrid_api.Env.{Env}
use vowgrid_api.Billing.Rows.{
  UsageMetricKey, workspaces, internal_users, active_connectors, intents, executed_actions,
  UsageCounter,
}
use vowgrid_api.Billing.Catalog.{BillingPlanLimits}
use vowgrid_api.Rows.{is_disabled, Connector, WorkspaceMembership}
use vowgrid_api.World.{
  World, Action, record_missing, ◌>>=◌, ◌>>◌, pure, query, write, or_raise, ask,
}

pub data UsageMetricStatus : Type 0 where
  ok_usage warning blocked overage : UsageMetricStatus

pub record UsageMetric : Type 0 where
  pub key : UsageMetricKey
  pub used : ℕ
  pub limit : Option ℕ
  pub remaining : Option ℕ
  pub status : UsageMetricStatus
  pub hard_limit : Bool
  pub overage_allowed : Bool
  pub overage_units : ℕ

abbrev pub metric_index : UsageMetricKey → ℕ
metric_index workspaces = 0
metric_index internal_users = 1
metric_index active_connectors = 2
metric_index intents = 3
metric_index executed_actions = 4

abbrev pub metric_eq : UsageMetricKey → UsageMetricKey → Bool
metric_eq a b = metric_index a == metric_index b

-- The body of the `map` at the end of `getCurrentUsageMetrics`.
unfoldable pub usage_metric : UsageMetricKey → ℕ → Option ℕ → Bool → UsageMetric
usage_metric key used none overage_allowed = record {
  key = key;
  used = used;
  limit = none;
  remaining = none;
  status = ok_usage;
  hard_limit = false;
  overage_allowed = overage_allowed;
  overage_units = 0;
}
usage_metric key used (some limit) overage_allowed = record {
  key = key;
  used = used;
  limit = some limit;
  remaining = some (limit - used);
  status =
      if ltb limit used && overage_allowed
      then overage
      else if leb limit used
      then blocked
      else if not (limit == 0) && leb (4 * limit) (5 * used)
      then warning
      else ok_usage;
  hard_limit = not overage_allowed;
  overage_allowed = overage_allowed;
  overage_units = if ltb limit used then used - limit else 0;
}

abbrev pub counter_is : ℕ → UsageMetricKey → ℕ → UsageCounter → Bool
counter_is ws metric start c =
    c.workspace_id == ws && metric_eq c.metric metric && c.period_start == start

-- A counter that is created by `data` with no count starts at 0.
abbrev fresh_counter : ℕ → ℕ → UsageMetricKey → ℕ → ℕ → UsageCounter
fresh_counter id ws metric start finish = record {
  id = id;
  workspace_id = ws;
  metric = metric;
  period_start = start;
  period_end = finish;
  count = 0;
  warning_triggered_at = none;
  limit_reached_at = none;
}

-- `counter.count >= Math.ceil(limit * DEFAULT_WARNING_RATIO)`, and the same for the limit.
unfoldable pub reaches_warning : Option ℕ → ℕ → Bool
reaches_warning none count = false
reaches_warning (some limit) count = leb ((4 * limit + 4) / 5) count

unfoldable pub reaches_limit : Option ℕ → ℕ → Bool
reaches_limit none count = false
reaches_limit (some limit) count = leb limit count

abbrev first_time : Bool → ℕ → Option ℕ → Option ℕ
first_time reached now (some t) = some t
first_time reached now none = if reached then some now else none

-- The last update of `incrementMonthlyUsageCounter`: each date is set once. Where neither is due the
-- source makes no update, which leaves the same row.
unfoldable pub mark_thresholds : Option ℕ → ℕ → UsageCounter → UsageCounter
unfolding reaches_warning reaches_limit
mark_thresholds limit now c = record c {
  warning_triggered_at = first_time (reaches_warning limit c.count) now c.warning_triggered_at;
  limit_reached_at = first_time (reaches_limit limit c.count) now c.limit_reached_at;
}

abbrev add_count : ℕ → UsageCounter → UsageCounter
add_count amount c = record c { count = c.count + amount }

module _ (env : Env) where
  abbrev find_counter : ℕ → UsageMetricKey → ℕ → World env → Option UsageCounter
  find_counter ws metric start w =
      env.db.find_first (counter_is ws metric start) w.billing.usage_counters

  abbrev put_counters :
      (env.db.Table UsageCounter → env.db.Table UsageCounter) → Action env (Unit {0})
  put_counters f =
      write λ w. record w {
        billing = record (w.billing) { usage_counters = f w.billing.usage_counters };
      }

  abbrev pub create_counter : ℕ → UsageMetricKey → ℕ → ℕ → Action env (Unit {0})
  create_counter ws metric start finish = put_counters λ t.
      env.db.create
        (fresh_counter (env.db.next_id (λ (c : UsageCounter). c.id) t) ws metric start finish) t

  -- `createMany` with `skipDuplicates`.
  unfoldable pub ensure_counter : ℕ → UsageMetricKey → ℕ → ℕ → Action env (Unit {0})
  ensure_counter ws metric start finish = do
    existing ← query (find_counter ws metric start)
    elim existing [ some c ↦ pure tt | none ↦ create_counter ws metric start finish ]

  unfoldable pub get_monthly_usage_counter : ℕ → UsageMetricKey → Action env UsageCounter
  unfolding ensure_counter
  get_monthly_usage_counter ws metric = do
    now ← ask env.clock
    ensure_counter ws metric (env.month_start now) (env.month_end now)
    counter ← query (find_counter ws metric (env.month_start now))
    id ← query λ w. env.db.next_id (λ (c : UsageCounter). c.id) w.billing.usage_counters
    elim counter [
      | some c ↦ pure c
      | none ↦
          create_counter ws metric (env.month_start now) (env.month_end now)
          >> pure (fresh_counter id ws metric (env.month_start now) (env.month_end now))
    ]

  unfoldable pub update_counter :
      ℕ → UsageMetricKey → ℕ → (UsageCounter → UsageCounter) → Action env UsageCounter
  update_counter ws metric start f = do
    found ← query (find_counter ws metric start)
    old ← or_raise found record_missing
    put_counters λ t. env.db.update (counter_is ws metric start) f t
    pure (f old)

  unfoldable pub increment_monthly_usage_counter :
      ℕ → UsageMetricKey → ℕ → Option ℕ → Action env UsageCounter
  unfolding ensure_counter update_counter
  increment_monthly_usage_counter ws metric amount limit = do
    window ← ask env.clock
    now ← ask env.clock
    existing ← query (find_counter ws metric (env.month_start window))
    elim existing [
      | some c ↦ pure tt
      | none ↦ ensure_counter ws metric (env.month_start window) (env.month_end window)
    ]
    update_counter ws metric (env.month_start window) (add_count amount)
    update_counter ws metric (env.month_start window) (mark_thresholds limit now)

  unfoldable pub get_current_usage_metrics :
      ℕ → BillingPlanLimits → Bool → Bool → Action env (List UsageMetric)
  unfolding get_monthly_usage_counter usage_metric
  get_current_usage_metrics ws limits intents_overage executed_overage = do
    users_count ← query λ w. length (
        env.db.find_many (λ (m : WorkspaceMembership). m.workspace_id == ws && not (is_disabled m))
          w.memberships)
    connectors_count ← query λ w.
        length
          (env.db.find_many (λ (c : Connector). c.workspace_id == ws && c.enabled) w.connectors)
    intent_counter ← get_monthly_usage_counter ws intents
    execution_counter ← get_monthly_usage_counter ws executed_actions
    pure (
        usage_metric workspaces 1 limits.workspaces false
        ∷ usage_metric internal_users users_count limits.internal_users false
        ∷ usage_metric active_connectors connectors_count limits.active_connectors false
        ∷ usage_metric intents intent_counter.count limits.intents_per_month intents_overage
        ∷ usage_metric executed_actions execution_counter.count limits.executed_actions_per_month
            executed_overage
        ∷ [])
