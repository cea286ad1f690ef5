-- ===== src/Tests/Policies.antt =====
-- Examples: a policy, and a life along the state machine.
use vowgrid_api.Common.{◌≡◌, ◌↔◌, refl, true, false, none, some, [], ◌∷◌}
use vowgrid_api.Json.{number, end, field}
use vowgrid_api.States.{
  draft, proposed, simulated, pending_approval, approved, queued, is_valid_transition,
}
use vowgrid_api.States.Lifecycle.{
  ◌⟶◌, ◌⟶*◌, here, then, propose, simulate, request_approval, approve, enqueue, has_been,
  released_was_approved, is_valid_transition_iff,
}
use vowgrid_api.Policies.{
  Policy, PolicyRules, allow, require_approval, Subject, PolicyContext, evaluate_policy,
  evaluate_policies, amount_of, exceeds, check_amount,
}
use vowgrid_api.Policies.Overall.{severity, worst, evaluate_policies-worst}
use vowgrid_api.Policies.Rules.{
  Permits, evaluate_policy-allow_iff, evaluate_policy-require_approval_iff,
}
use vowgrid_api.Tests.{numbers}

abbrev rules : PolicyRules
rules = record {
  max_amount = some 500;
  amount_field = none;
  allowed_actions = none;
  blocked_actions = some ("refund" ∷ []);
  allowed_connectors = none;
  blocked_connectors = none;
  allowed_environments = none;
  blocked_environments = none;
  required_roles = none;
  require_approval_above = some 100;
}

abbrev policy : Policy
policy = record {
  id = 8;
  name = "Amounts";
  policy_type = "amount_threshold";
  rules = rules;
  priority = 1;
  enabled = true;
  workspace_id = 7;
}

abbrev refund : Subject
refund = record {
  action = "refund";
  environment = "production";
  parameters = field "amount" (number 200) end;
}

abbrev anyone : PolicyContext
anyone = record { user_role = none; connector_type = none }

evaluate_policies-worst_example :
    severity (evaluate_policies numbers (policy ∷ []) refund anyone).overall_result
    ≡ worst numbers refund anyone (policy ∷ [])
evaluate_policies-worst_example = evaluate_policies-worst numbers refund anyone (policy ∷ [])

-- The refund is blocked, but its amount alone decides: it is left to the reviewers.
blocked_over_threshold : (evaluate_policy numbers policy refund anyone).result ≡ require_approval
unfolding evaluate_policy check_amount amount_of
blocked_over_threshold = refl

evaluate_policy-allow_iff_example :
    ((evaluate_policy numbers policy refund anyone).result ≡ allow)
    ↔ Permits numbers rules refund anyone
evaluate_policy-allow_iff_example = evaluate_policy-allow_iff numbers policy refund anyone

evaluate_policy-require_approval_iff_example :
    let amount = amount_of numbers rules refund.parameters in
    ((evaluate_policy numbers policy refund anyone).result ≡ require_approval) ↔ (
      (numbers.is_nan amount ≡ false)
      × (exceeds numbers amount rules.max_amount ≡ false)
      × (exceeds numbers amount rules.require_approval_above ≡ true))
evaluate_policy-require_approval_iff_example =
    evaluate_policy-require_approval_iff numbers policy refund anyone

abbrev life : draft ⟶* queued
life = then (then (then (then (then here propose) simulate) request_approval) approve) enqueue

released_was_approved_example :
    (has_been proposed life ≡ true)
    × (has_been simulated life ≡ true)
    × (has_been pending_approval life ≡ true)
    × (has_been approved life ≡ true)
released_was_approved_example = released_was_approved life refl

is_valid_transition_example : (is_valid_transition draft proposed ≡ true) ↔ (draft ⟶ proposed)
is_valid_transition_example = is_valid_transition_iff draft proposed
