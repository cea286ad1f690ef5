-- ===== src/Policies/Service.antt =====
-- apps/api/src/modules/policies/service.ts: how policies are made and read.
use vowgrid_api.Common.{ℕ, String, Bool, ◌&&◌, List, ◌==◌}
use vowgrid_api.Env.{Env}
use vowgrid_api.Billing.Entitlements.{assert_can_create_policy}
use vowgrid_api.Policies.{Policy, PolicyRules, sort_by_priority}
use vowgrid_api.World.{Action, not_found, ◌>>=◌, ◌>>◌, pure, query, write, or_raise}

pub record CreatePolicyInput : Type 0 where
  pub name : String
  pub policy_type : String
  pub rules : PolicyRules
  pub priority : ℕ
  pub enabled : Bool

module _ (env : Env) where
  abbrev policy_row : ℕ → CreatePolicyInput → ℕ → Policy
  policy_row ws input id = record {
    id = id;
    name = input.name;
    policy_type = input.policy_type;
    rules = input.rules;
    priority = input.priority;
    enabled = input.enabled;
    workspace_id = ws;
  }

  unfoldable pub create_policy : ℕ → CreatePolicyInput → Action env Policy
  create_policy ws input = do
    assert_can_create_policy env ws input.policy_type
    id ← query λ w. env.db.next_id (λ (p : Policy). p.id) w.policies
    write λ w. record w { policies = env.db.create (policy_row ws input id) w.policies }
    pure (policy_row ws input id)

  unfoldable pub list_policies : ℕ → Action env (List Policy)
  unfolding sort_by_priority
  list_policies ws =
      query
        λ w. sort_by_priority (env.db.find_many (λ (p : Policy). p.workspace_id == ws) w.policies)

  unfoldable pub get_policy : ℕ → ℕ → Action env Policy
  get_policy id ws = do
    found ←
        query λ w. env.db.find_first (λ (p : Policy). p.id == id && p.workspace_id == ws) w.policies
    or_raise found (not_found "Policy" id)
