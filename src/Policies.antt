-- ===== src/Policies.antt =====
-- apps/api/src/modules/policies/engine.ts: the policy engine.
pub mod Rules
pub mod Overall
pub mod Service
use vowgrid_api.Common.{
  ℕ, String, ◌<>◌, ◌≡◌, Bool, true, false, not, ◌&&◌, ◌||◌, Option, none, some, List, [], ◌∷◌, map,
  leb, filter, includes, if◌then◌else◌, or_default, str_eq,
}
use vowgrid_api.Json.{Json, Fields, Numbers, get_field, to_number}

pub data PolicyResult : Type 0 where
  allow deny require_approval : PolicyResult

pub record PolicyEvaluationResult : Type 0 where
  pub policy_id : ℕ
  pub policy_name : String
  pub result : PolicyResult
  pub reason : String

pub record PolicyRules : Type 0 where
  pub max_amount : Option ℕ
  pub amount_field : Option String
  pub allowed_actions : Option (List String)
  pub blocked_actions : Option (List String)
  pub allowed_connectors : Option (List String)
  pub blocked_connectors : Option (List String)
  pub allowed_environments : Option (List String)
  pub blocked_environments : Option (List String)
  pub required_roles : Option (List String)
  pub require_approval_above : Option ℕ

-- A row of the table `policies`.
pub record Policy : Type 0 where
  pub id : ℕ
  pub name : String
  pub policy_type : String
  pub rules : PolicyRules
  pub priority : ℕ
  pub enabled : Bool
  pub workspace_id : ℕ

-- What the engine reads of an intent; `parameters ?? {}` has been taken.
pub record Subject : Type 0 where
  pub action : String
  pub environment : String
  pub parameters : Fields

pub record PolicyContext : Type 0 where
  pub user_role : Option String
  pub connector_type : Option String

-- A check answers with a result and a reason, or lets the policy go on to the next check.
abbrev pub Verdict : Type 0
Verdict = Option (PolicyResult × String)

infixr 20 ◌otherwise◌
abbrev pub ◌otherwise◌ : Verdict → Verdict → Verdict
some v otherwise w = some v
none otherwise w = w

abbrev is_some {ℓ} : {A : Type ℓ} → Option A → Bool
is_some none = false
is_some (some _) = true

-- `x !== undefined && amount > x`
abbrev pub exceeds : Numbers → ℕ → Option ℕ → Bool
exceeds n amount none = false
exceeds n amount (some bound) = n.greater amount bound

-- `xs?.includes(s)`
abbrev pub listed : Option (List String) → String → Bool
listed none s = false
listed (some xs) s = includes xs s

-- `xs && !xs.includes(s)`
abbrev pub unlisted : Option (List String) → String → Bool
unlisted none s = false
unlisted (some xs) s = not (includes xs s)

unfoldable pub join : String → List String → String
join sep [] = ""
join sep (x ∷ []) = x
join sep (x ∷ y ∷ xs) = x <> sep <> join sep (y ∷ xs)

module _ (n : Numbers) where
  unfoldable pub amount_of : PolicyRules → Fields → ℕ
  unfolding get_field to_number
  amount_of rules params = to_number n (get_field (or_default rules.amount_field "amount") params)

  unfoldable pub check_amount : PolicyRules → Fields → Verdict
  check_amount rules params =
      let amount = amount_of rules params in
      if is_some rules.max_amount || is_some rules.require_approval_above
      then (if n.is_nan amount
          then none
          else if exceeds n amount rules.max_amount
          then some (
            deny,
            "Amount "
                <> n.show amount
                <> " exceeds maximum "
                <> n.show (or_default rules.max_amount 0),
          )
          else if exceeds n amount rules.require_approval_above
          then some (
            require_approval,
            "Amount "
                <> n.show amount
                <> " exceeds approval threshold "
                <> n.show (or_default rules.require_approval_above 0),
          )
          else none)
      else none

unfoldable pub check_action : PolicyRules → String → Verdict
check_action rules action =
    if listed rules.blocked_actions action
    then some (deny, "Action \"" <> action <> "\" is blocked by policy")
    else if unlisted rules.allowed_actions action
    then some (deny, "Action \"" <> action <> "\" is not in the allowed list")
    else none

-- `if (context.connectorType)`: a missing or empty type skips the checks.
unfoldable pub check_connector : PolicyRules → Option String → Verdict
check_connector rules none = none
check_connector rules (some type) =
    if str_eq type ""
    then none
    else if listed rules.blocked_connectors type
    then some (deny, "Connector \"" <> type <> "\" is blocked by policy")
    else if unlisted rules.allowed_connectors type
    then some (deny, "Connector \"" <> type <> "\" is not in the allowed list")
    else none

unfoldable pub check_environment : PolicyRules → String → Verdict
check_environment rules environment =
    if listed rules.blocked_environments environment
    then some (deny, "Environment \"" <> environment <> "\" is blocked by policy")
    else if unlisted rules.allowed_environments environment
    then some (deny, "Environment \"" <> environment <> "\" is not in the allowed list")
    else none

-- `if (rules.requiredRoles && context.userRole)`
unfoldable pub check_role : PolicyRules → Option String → Verdict
unfolding join
check_role rules none = none
check_role rules (some role) =
    if not (str_eq role "") && unlisted rules.required_roles role
    then some (
      deny,
      "Role \""
          <> role
          <> "\" does not meet required roles: "
          <> join ", " (or_default rules.required_roles []),
    )
    else none

abbrev settle : Verdict → PolicyResult × String
settle none = (allow, "All policy checks passed")
settle (some v) = v

module _ (n : Numbers) where
  unfoldable pub evaluate_policy : Policy → Subject → PolicyContext → PolicyEvaluationResult
  evaluate_policy policy intent context =
      let rules = policy.rules in
      let (result, reason) = settle (
        check_amount n rules intent.parameters
        otherwise check_action rules intent.action
        otherwise check_connector rules context.connector_type
        otherwise check_environment rules intent.environment
        otherwise check_role rules context.user_role) in
      record { policy_id = policy.id; policy_name = policy.name; result = result; reason = reason }

-- The stable `sort((a, b) => b.priority - a.priority)`.
unfoldable pub insert_by_priority : Policy → List Policy → List Policy
insert_by_priority p [] = p ∷ []
insert_by_priority p (q ∷ qs) =
    let rest = insert_by_priority p qs in if leb q.priority p.priority then p ∷ q ∷ qs else q ∷ rest

unfoldable pub sort_by_priority : List Policy → List Policy
unfolding insert_by_priority
sort_by_priority [] = []
sort_by_priority (p ∷ ps) = insert_by_priority p (sort_by_priority ps)

-- The loop over the decisions, from the result so far; `deny` breaks out of it.
unfoldable pub restrict_loop : PolicyResult → List PolicyEvaluationResult → PolicyResult
restrict_loop overall [] = overall
restrict_loop overall (d ∷ ds) = elim d.result [
  | deny ↦ deny
  | require_approval ↦ restrict_loop require_approval ds
  | allow ↦ restrict_loop overall ds
]

pub record PolicyOutcome : Type 0 where
  pub overall_result : PolicyResult
  pub decisions : List PolicyEvaluationResult

module _ (n : Numbers) where
  unfoldable pub evaluate_policies : List Policy → Subject → PolicyContext → PolicyOutcome
  unfolding sort_by_priority restrict_loop
  evaluate_policies policies intent context =
      let decisions =
        map (λ p. evaluate_policy n p intent context)
          (sort_by_priority (filter (λ p. p.enabled) policies)) in
      record { overall_result = restrict_loop allow decisions; decisions = decisions }
