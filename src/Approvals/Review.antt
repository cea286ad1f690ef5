-- ===== src/Approvals/Review.antt =====
-- apps/api/src/modules/approvals/service.ts: the decision of a reviewer on a pending request.
use vowgrid_api.Common.{
  ℕ, ◌+◌, ◌-◌, String, ◌<>◌, Bool, true, false, not, ◌&&◌, Option, none, some, List, [], ◌∷◌, ◌++◌,
  leb, ◌==◌, if◌then◌else◌, length, filter, get_elem?,
}
use vowgrid_api.Env.{Env}
use vowgrid_api.Json.{Json, text, number, object, end, field}
use vowgrid_api.Rows.{
  Role, user, ApprovalStageDefinition, ApprovalStatus, pending_request, approved_request,
  rejected_request, ApprovalRequest, ApprovalDecision, DecisionKind, approved_decision,
  rejected_decision,
}
use vowgrid_api.States.{approved, rejected}
use vowgrid_api.World.{
  Action, not_found, conflict, thrown, record_missing, ◌>>=◌, ◌>>◌, pure, query, write, or_raise,
  raise_if, when,
}
use vowgrid_api.Audits.{emit_audit_event, defined_field}
use vowgrid_api.Intents.{intent_is, transition_intent}
use vowgrid_api.Approvals.Model.{
  parse_approval_stages, clamp_stage_index, is_approved_decision, is_pending_status,
  stage_approvals, ApprovalRequestResponse, serialize_approval_request,
}
use vowgrid_api.Approvals.{
  request_is, resolve_workspace_role, assert_stage_role_permission, decision_name,
}

abbrev status_name : ApprovalStatus → String
status_name pending_request = "pending"
status_name approved_request = "approved"
status_name rejected_request = "rejected"

abbrev text_field : Option String → Option Json
text_field none = none
text_field (some s) = some (text s)

-- Whether the active stage has its approvals, and whether no stage follows it.
unfoldable pub is_stage_complete : ℕ → ApprovalStageDefinition → List ApprovalDecision → Bool
unfolding stage_approvals
is_stage_complete index stage ds = leb stage.required_count (stage_approvals index ds)

unfoldable pub is_last_stage : ℕ → List ApprovalStageDefinition → Bool
is_last_stage index stages = leb (length stages - 1) index

-- The data of the update after an approval.
unfoldable pub after_approval :
    ℕ
    → ApprovalStageDefinition
    → List ApprovalStageDefinition
    → List ApprovalDecision
    → ApprovalRequest
    → ApprovalRequest
unfolding is_stage_complete is_last_stage
after_approval index stage stages ds r = record r {
  current_count = length (filter is_approved_decision ds);
  current_stage_index = some (
      if is_stage_complete index stage ds && not (is_last_stage index stages)
      then index + 1
      else index);
  status =
      if is_stage_complete index stage ds && is_last_stage index stages
      then approved_request
      else pending_request;
}

unfoldable pub after_rejection : ApprovalRequest → ApprovalRequest
after_rejection r = record r { status = rejected_request }

module _ (env : Env) where
  unfoldable pub update_request :
      ApprovalRequest → (ApprovalRequest → ApprovalRequest) → Action env ApprovalRequest
  update_request r f =
      write (λ w. record w {
        approval_requests = env.db.update (request_is r.id) f w.approval_requests;
      })
      >> pure (f r)

  unfoldable pub create_decision :
      ℕ
      → ℕ
      → DecisionKind
      → Option String
      → ℕ
      → ApprovalStageDefinition
      → Action env ApprovalDecision
  create_decision request_id user_id decision rationale index stage = do
    id ← query λ w. env.db.next_id (λ (d : ApprovalDecision). d.id) w.approval_decisions
    let row : ApprovalDecision = record {
      id = id;
      approval_request_id = request_id;
      user_id = user_id;
      decision = decision;
      rationale = rationale;
      stage_index = some index;
      stage_label = some stage.label;
    }
    write λ w. record w { approval_decisions = env.db.create row w.approval_decisions }
    pure row

  -- The rest of the handler, once the decision is on record.
  unfoldable pub settle_rejection :
      ApprovalRequest → ℕ → ℕ → List ApprovalDecision → Action env ApprovalRequestResponse
  unfolding update_request after_rejection
  settle_rejection request user_id ws ds = do
    updated ← update_request request after_rejection
    transition_intent env request.intent_id ws rejected (env.id_text user_id) user
    pure (serialize_approval_request env updated (some ds))

  unfoldable pub settle_approval :
      ApprovalRequest
      → ℕ
      → ℕ
      → ℕ
      → ApprovalStageDefinition
      → List ApprovalStageDefinition
      → List ApprovalDecision
      → Action env ApprovalRequestResponse
  unfolding update_request after_approval is_stage_complete is_last_stage
  settle_approval request user_id ws index stage stages ds = do
    let complete = is_stage_complete index stage ds
    let last = is_last_stage index stages
    updated ← update_request request (after_approval index stage stages ds)
    when (complete && not last) (
        emit_audit_event env (record {
          action = "approval.stage_advanced";
          entity_type = "intent";
          entity_id = request.intent_id;
          actor_type = user;
          actor_id = env.id_text user_id;
          workspace_id = ws;
          metadata = some (
              object (
                field "approvalRequestId" (text (env.id_text request.id)) (
                  field "fromStageIndex" (number (env.number_of index))
                    (field "toStageIndex" (number (env.number_of (index + 1))) end))));
        }))
    when (complete && last)
        (transition_intent env request.intent_id ws approved (env.id_text user_id) user >> pure tt)
    pure (serialize_approval_request env updated (some ds))

  unfoldable pub process_approval_decision :
      ℕ
      → ℕ
      → DecisionKind
      → Option String
      → ℕ
      → Option Role
      → Action env (ApprovalRequestResponse × ApprovalDecision)
  unfolding settle_rejection settle_approval create_decision
  process_approval_decision request_id user_id decision rationale ws user_role = do
    found ← query λ w. env.db.find_first (request_is request_id) w.approval_requests
    request ← or_raise found (not_found "ApprovalRequest" request_id)
    decisions ← query λ w.
        env.db.find_many (λ (d : ApprovalDecision). d.approval_request_id == request_id)
          w.approval_decisions
    parent ← query λ w. env.db.find_first (intent_is request.intent_id) w.intents
    intent ← or_raise parent record_missing
    raise_if (not (intent.workspace_id == ws)) (not_found "ApprovalRequest" request_id)
    raise_if (not (is_pending_status request.status))
        (conflict ("Approval request is already \"" <> status_name request.status <> "\""))
    let stages = parse_approval_stages env request.stage_definitions request.required_count
    let index = clamp_stage_index request.current_stage_index stages
    existing ← query λ w.
        env.db.find_first
          (λ (d : ApprovalDecision). d.approval_request_id == request_id && d.user_id == user_id)
          w.approval_decisions
    raise_if (elim existing [ none ↦ false | some _ ↦ true ])
        (conflict "User has already submitted a decision for this approval request")
    role ← elim user_role [ none ↦ resolve_workspace_role env user_id ws | some r ↦ pure (some r) ]
    stage ←
        or_raise (get_elem? stages index)
          (thrown "Cannot read properties of undefined (reading 'reviewerRoles')")
    assert_stage_role_permission env role stage
    row ← create_decision request_id user_id decision rationale index stage
    emit_audit_event env (record {
      action = "approval." <> decision_name decision;
      entity_type = "intent";
      entity_id = request.intent_id;
      actor_type = user;
      actor_id = env.id_text user_id;
      workspace_id = ws;
      metadata = some (
          object (
            field "approvalRequestId" (text (env.id_text request_id)) (
              field "decision" (text (decision_name decision)) (
                defined_field "rationale" (text_field rationale) (
                  field "stageIndex" (number (env.number_of index))
                    (field "stageLabel" (text stage.label) end))))));
    })
    response ← elim decision [
      | rejected_decision ↦ settle_rejection request user_id ws (decisions ++ row ∷ [])
      | approved_decision ↦
          settle_approval request user_id ws index stage stages (decisions ++ row ∷ [])
    ]
    pure (response, row)
