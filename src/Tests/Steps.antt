-- ===== src/Tests/Steps.antt =====
-- Examples: the handlers and the workers at one intent.
use vowgrid_api.Common.{◌≡◌, ◌≢◌, ◌⊎◌, inl, inr, refl, true, none, some, [], ◌∷◌, arith}
use vowgrid_api.Prisma.{in_memory_lawful}
use vowgrid_api.Rows.{Intent, user, admin, approved_decision}
use vowgrid_api.States.{
  draft, proposed, pending_approval, approved, queued, executing, succeeded, failed,
  is_valid_transition,
}
use vowgrid_api.States.Lifecycle.{◌⟶◌}
use vowgrid_api.World.{World, is_err, ok, err, not_found, invalid_state_transition, run_steps}
use mathlib.Core.Option.{some-injective}
use vowgrid_api.Json.{object, end}
use vowgrid_api.Audits.{AuditEventInput, emit_audit_event, new_event}
use vowgrid_api.Audits.Chain.{Trail, IsInOrder, emit_audit_event-Trail}
use vowgrid_api.Intents.{with_status, transition_intent}
use vowgrid_api.Intents.Transition.{lookup_intent, moved, transition_event, transition_intent_lem}
use vowgrid_api.Intents.Progress.{HasUniqueIds, Advances}
use vowgrid_api.Approvals.Model.{parse_approval_stages, clamp_stage_index}
use vowgrid_api.Approvals.{assert_stage_role_permission}
use vowgrid_api.Approvals.Review.{
  is_stage_complete, is_last_stage, settle_approval, process_approval_decision,
}
use vowgrid_api.Approvals.Stages.{nowhere, process_approval_decision-refused}
use vowgrid_api.Executions.{queue_execution}
use vowgrid_api.Executions.Gate.{queue_execution-refused}
use vowgrid_api.Jobs.{process_execution}
use vowgrid_api.Jobs.Retry.{marked, process_execution-not_queued}
use vowgrid_api.Workflow.{to_reviewed}
use vowgrid_api.Workflow.Reach.{process_approval_decision-moves, settle_approval-moves_none}
use vowgrid_api.Tests.{platform, order, stage, request, earlier, job, office, office_unique}

process_approval_decision-moves_example :
    let w' =
      (process_approval_decision platform 4 6 approved_decision none 7
        (some admin)
        (office pending_approval)).1 in
    HasUniqueIds platform w' × Advances platform to_reviewed (office pending_approval) w'
process_approval_decision-moves_example =
    process_approval_decision-moves platform in_memory_lawful (office pending_approval)
      (office_unique pending_approval) 4 6 approved_decision none 7 (some admin)

-- The second of two approvals lets the intent pass.
second_approval :
    lookup_intent platform 1 7
      (process_approval_decision platform 4 6 approved_decision none 7
        (some admin)
        (office pending_approval)).1
    ≡ some (order approved)
unfolding process_approval_decision transition_intent emit_audit_event run_steps
    parse_approval_stages clamp_stage_index assert_stage_role_permission is_valid_transition
second_approval = refl

settle_approval-moves_none_example :
    let w' =
      (settle_approval platform request 5 7 0 stage
        (stage ∷ [])
        (earlier ∷ [])
        (office pending_approval)).1 in
    HasUniqueIds platform w' × Advances platform nowhere (office pending_approval) w'
unfolding is_stage_complete is_last_stage
settle_approval-moves_none_example =
    settle_approval-moves_none platform in_memory_lawful (office pending_approval)
      (office_unique pending_approval) request 5 7 0 stage (stage ∷ []) (earlier ∷ []) refl

transition_intent_example :
    ((lookup_intent platform 1 7 (office draft) ≡ none)
      × (transition_intent platform 1 7 proposed "ana" user (office draft)
          ≡ (err (not_found "Intent" 1), office draft)))
    ⊎ (((i : Intent) × (lookup_intent platform 1 7 (office draft) ≡ some i)
          × (¬ (i.status ⟶ proposed))
          × (transition_intent platform 1 7 proposed "ana" user (office draft)
              ≡ (err (invalid_state_transition i.status proposed), office draft)))
        ⊎ ((i : Intent) × (j : Intent) × (lookup_intent platform 1 7 (office draft) ≡ some i)
            × (i.status ⟶ proposed)
            × (transition_intent platform 1 7 proposed "ana" user (office draft) ≡ (
              ok (with_status proposed j),
              (emit_audit_event platform
                  (transition_event platform 1 7 i.status proposed "ana" user)
                  (moved platform 1 proposed (office draft))).1,
            ))))
transition_intent_example =
    transition_intent_lem platform in_memory_lawful 1 7 proposed "ana" user (office draft)

abbrev event : AuditEventInput
event = record {
  action = "intent.proposed";
  entity_type = "intent";
  entity_id = 1;
  actor_type = user;
  actor_id = "ana";
  workspace_id = 7;
  metadata = some (object end);
}

-- The first event of the workspace, and the second one after it.
abbrev first : World platform
first = (emit_audit_event platform event (office draft)).1

first-Trail : Trail platform 7 first
first-Trail =
    emit_audit_event-Trail platform in_memory_lawful 7 event (office draft) (λ s h. ground arith)
      (record { linked = tt; newest_is_last = refl })

first-IsInOrder : IsInOrder platform event first
unfolding emit_audit_event new_event run_steps
first-IsInOrder s h = rw⁻¹ (some-injective _ _ h) refl

emit_audit_event-Trail_example : Trail platform 7 (emit_audit_event platform event first).1
emit_audit_event-Trail_example =
    emit_audit_event-Trail platform in_memory_lawful 7 event first first-IsInOrder first-Trail

-- A queued intent is executed.
executed_order :
    lookup_intent platform 1 7 (process_execution platform 1 2 7 0 (office queued)).1
    ≡ some (order succeeded)
unfolding process_execution transition_intent emit_audit_event run_steps is_valid_transition
executed_order = refl

failed_not_queued : failed ≢ queued
failed_not_queued e = cc

-- The retry of a failed execution.
process_execution-not_queued_example :
    process_execution platform 1 2 7 1 (office failed)
    ≡ (err (invalid_state_transition failed executing), marked platform 2 1 (office failed))
process_execution-not_queued_example =
    process_execution-not_queued platform 1 2 7 1 (office failed) {i = order failed} {j = job} refl
      failed_not_queued refl

process_approval_decision-refused_example :
    let out =
      process_approval_decision platform 4 5 approved_decision none 7
        (some admin)
        (office pending_approval) in
    (is_err out.0 ≡ true) × (out.1 ≡ office pending_approval)
process_approval_decision-refused_example =
    process_approval_decision-refused platform 4 5 approved_decision none 7 (some admin)
      (office pending_approval) {r = request} {i = order pending_approval} refl refl
      (inr (earlier, refl))

draft_not_approved : draft ≢ approved
draft_not_approved e = cc

queue_execution-refused_example :
    let out = queue_execution platform 1 7 "ana" user (office draft) in
    (is_err out.0 ≡ true) × (out.1 ≡ office draft)
queue_execution-refused_example =
    queue_execution-refused platform 1 7 "ana" user (office draft)
      (inr (inl (order draft, refl, draft_not_approved)))
