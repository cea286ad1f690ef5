-- ===== src/Approvals.antt =====
-- apps/api/src/modules/approvals/service.ts: the submission of an intent for approval, and the
-- decisions of its reviewers.
pub mod Model
pub mod Review
pub mod Stages
use vowgrid_api.Common.{
  ℕ, ◌+◌, ◌-◌, String, ◌<>◌, Bool, true, false, not, ◌&&◌, ◌||◌, Option, none, some, List, [], ◌∷◌,
  ◌++◌, leb, ltb, ◌==◌, if◌then◌else◌, or_default, length, filter, any, get_elem?,
}
use vowgrid_api.Env.{Env}
use vowgrid_api.Auth.Tables.{role_name}
use vowgrid_api.Json.{Json, Fields, Items, text, number, array, object, nil, cons, end, field}
use vowgrid_api.Rows.{
  is_disabled_user, is_disabled, Intent, Connector, Role, owner, admin, member, viewer, other,
  ActorType, user, ApprovalStageDefinition, ApprovalFlowMode, single_step, multi_step,
  ApprovalStatus, pending_request, approved_request, rejected_request, ApprovalRequest,
  ApprovalDecision, DecisionKind, approved_decision, rejected_decision, PolicyDecision,
  WorkspaceMembership, User,
}
use vowgrid_api.States.{state_name, state_eq, simulated, pending_approval, approved, rejected}
use vowgrid_api.Policies.{
  PolicyResult, deny, allow, require_approval, PolicyEvaluationResult, PolicyOutcome, Policy,
  Subject, PolicyContext, evaluate_policies,
}
use vowgrid_api.World.{
  World, Action, not_found, validation, conflict, forbidden, thrown, unique_violation,
  record_missing, ◌>>=◌, ◌>>◌, pure, query, write, or_raise, raise_if, when,
}
use vowgrid_api.Audits.{emit_audit_event}
use vowgrid_api.Intents.{intent_in, intent_is, transition_intent}
use vowgrid_api.Billing.Entitlements.{assert_can_require_approval_count}
use vowgrid_api.Approvals.Model.{
  SubmitForApprovalInput, normalize_approval_stages, parse_approval_stages, clamp_stage_index,
  is_approved_decision, at_stage, is_pending_status, mode_of, ApprovalRequestResponse,
  serialize_approval_request,
}

-- `ROLE_PRIORITY[role]`, where it is defined.
abbrev pub role_priority : Role → Option ℕ
role_priority viewer = some 0
role_priority member = some 1
role_priority admin = some 2
role_priority owner = some 3
role_priority other = none

abbrev is_owner : Role → Bool
is_owner owner = true
is_owner _ = false

-- `userRank >= (ROLE_PRIORITY[role] ?? MAX)`, with -1 for the rank of an unknown role.
abbrev ranks_at_least : Option ℕ → Option ℕ → Bool
ranks_at_least (some mine) (some wanted) = leb wanted mine
ranks_at_least _ _ = false

unfoldable pub may_review : Role → List Role → Bool
may_review role reviewer_roles =
    is_owner role || any (λ r. ranks_at_least (role_priority role) (role_priority r)) reviewer_roles

unfoldable pub total_required : List ApprovalStageDefinition → ℕ
total_required [] = 0
total_required (s ∷ ss) = s.required_count + total_required ss

abbrev param_fields : Option Json → Fields
param_fields (some (object fs)) = fs
param_fields _ = end

abbrev subject_of : Intent → Subject
subject_of i = record {
  action = i.action;
  environment = i.environment;
  parameters = param_fields i.parameters;
}

abbrev type_of : Option Connector → Option String
type_of none = none
type_of (some c) = some c.connector_type

pub data SubmitResult : Type 0 where
  denied : List PolicyEvaluationResult → SubmitResult
  submitted : ApprovalRequestResponse → PolicyResult → List PolicyEvaluationResult → SubmitResult

abbrev pub decision_name : DecisionKind → String
decision_name approved_decision = "approved"
decision_name rejected_decision = "rejected"

abbrev is_deny : PolicyResult → Bool
is_deny deny = true
is_deny _ = false

abbrev pub request_is : ℕ → ApprovalRequest → Bool
request_is id r = r.id == id

abbrev mode_name : ApprovalFlowMode → String
mode_name single_step = "single_step"
mode_name multi_step = "multi_step"

abbrev result_name : PolicyResult → String
result_name allow = "allow"
result_name deny = "deny"
result_name require_approval = "require_approval"

abbrev role_items : List Role → Items
role_items [] = nil
role_items (r ∷ rs) = cons (text (role_name r)) (role_items rs)

abbrev stage_json : Env → ApprovalStageDefinition → Json
stage_json env s = object (
    field "label" (text s.label) (
      field "requiredCount" (number (env.number_of s.required_count))
        (field "reviewerRoles" (array (role_items s.reviewer_roles)) end)))

abbrev stage_items : Env → List ApprovalStageDefinition → Items
stage_items env [] = nil
stage_items env (s ∷ ss) = cons (stage_json env s) (stage_items env ss)

module _ (env : Env) where
  unfoldable pub resolve_workspace_role : ℕ → ℕ → Action env (Option Role)
  resolve_workspace_role user_id ws = do
    membership ← query λ w.
        env.db.find_first
          (λ (m : WorkspaceMembership).
            m.user_id == user_id && m.workspace_id == ws && not (is_disabled m))
          w.memberships
    account ← query λ w.
        env.db.find_first
          (λ (u : User). u.id == user_id && u.workspace_id == ws && not (is_disabled_user u))
          w.users
    pure (elim membership [
      | some m ↦ some m.role
      | none ↦ elim account [ none ↦ none | some u ↦ some u.role ]
    ])

  unfoldable pub assert_stage_role_permission :
      Option Role → ApprovalStageDefinition → Action env (Unit {0})
  unfolding may_review
  assert_stage_role_permission user_role stage = do
    role ←
        or_raise user_role (forbidden "Only active workspace members can review approval requests.")
    raise_if (not (may_review role stage.reviewer_roles))
        (forbidden ("This approval stage does not admit the role: " <> stage.label))

  unfoldable pub record_policy_decisions : ℕ → List PolicyEvaluationResult → Action env (Unit {0})
  record_policy_decisions intent_id [] = pure tt
  record_policy_decisions intent_id (d ∷ ds) =
      write (λ w. record w {
        policy_decisions =
            env.db.create
              (record {
                policy_id = d.policy_id;
                intent_id = intent_id;
                result = d.result;
                reason = d.reason;
              })
              w.policy_decisions;
      })
      >> record_policy_decisions intent_id ds

  -- `approvalRequest.create`; the intent's id is unique.
  unfoldable pub create_request : ℕ → ℕ → List ApprovalStageDefinition → Action env ApprovalRequest
  create_request intent_id required_count stages = do
    clash ← query λ w.
        env.db.find_first (λ (r : ApprovalRequest). r.intent_id == intent_id) w.approval_requests
    raise_if (elim clash [ none ↦ false | some _ ↦ true ]) unique_violation
    id ← query λ w. env.db.next_id (λ (r : ApprovalRequest). r.id) w.approval_requests
    let request : ApprovalRequest = record {
      id = id;
      intent_id = intent_id;
      status = pending_request;
      required_count = required_count;
      current_count = 0;
      current_stage_index = some 0;
      mode = some (mode_of stages);
      stage_definitions = some stages;
    }
    write λ w. record w { approval_requests = env.db.create request w.approval_requests }
    pure request

  -- The part after the policies have let the intent pass.
  unfoldable pub open_request :
      ℕ
      → ℕ
      → ℕ
      → List ApprovalStageDefinition
      → PolicyOutcome
      → String
      → ActorType
      → Action env SubmitResult
  unfolding create_request
  open_request intent_id ws required_count stages outcome actor_id actor_type = do
    request ← create_request intent_id required_count stages
    transition_intent env intent_id ws pending_approval actor_id actor_type
    emit_audit_event env (record {
      action = "approval.requested";
      entity_type = "intent";
      entity_id = intent_id;
      actor_type = actor_type;
      actor_id = actor_id;
      workspace_id = ws;
      metadata = some (
          object (
            field "approvalRequestId" (text (env.id_text request.id)) (
              field "requiredCount" (number (env.number_of required_count)) (
                field "approvalMode" (text (mode_name (mode_of stages))) (
                  field "stages" (array (stage_items env stages))
                    (field "policyResult" (text (result_name outcome.overall_result)) end))))));
    })
    pure (
        submitted (serialize_approval_request env request (some [])) outcome.overall_result
          outcome.decisions)

  unfoldable pub submit_for_approval :
      ℕ → ℕ → SubmitForApprovalInput → String → ActorType → Action env SubmitResult
  unfolding open_request record_policy_decisions normalize_approval_stages
  submit_for_approval intent_id ws input actor_id actor_type = do
    let stages = normalize_approval_stages env input
    let required_count = total_required stages
    assert_can_require_approval_count env ws required_count
    found ← query λ w. env.db.find_first (intent_in intent_id ws) w.intents
    intent ← or_raise found (not_found "Intent" intent_id)
    raise_if (not (state_eq intent.status simulated)) (
        validation (
          "Intent must be in \"simulated\" state to submit for approval. Current state: \""
          <> state_name intent.status
          <> "\""))
    connector ← query λ w. elim intent.connector_id [
      | none ↦ none
      | some c ↦ env.db.find_first (λ (x : Connector). x.id == c) w.connectors
    ]
    policies ←
        query λ w. env.db.find_many (λ (p : Policy). p.workspace_id == ws && p.enabled) w.policies
    let outcome =
        evaluate_policies env.numbers policies (subject_of intent)
          (record { user_role = none; connector_type = type_of connector })
    record_policy_decisions intent_id outcome.decisions
    (if is_deny outcome.overall_result
        then transition_intent env intent_id ws rejected actor_id actor_type
          >> pure (denied outcome.decisions)
        else open_request intent_id ws required_count stages outcome actor_id actor_type)
