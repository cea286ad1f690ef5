-- ===== src/Workflow/Entry.antt =====
-- The handlers that billing guards: createIntent, submitForApproval and queueExecution of
-- apps/api/src/modules, and where they can take an intent.
use vowgrid_api.Common.{ℕ, String, refl, ap, Bool, true, false, List, [], ◌∷◌}
use vowgrid_api.Env.{Env}
use vowgrid_api.Prisma.{IsLawful}
use vowgrid_api.Rows.{ActorType, ApprovalStageDefinition}
use vowgrid_api.States.{IntentState, pending_approval, rejected, queued}
use vowgrid_api.Policies.{PolicyEvaluationResult, PolicyOutcome}
use vowgrid_api.World.{World, Action}
use vowgrid_api.World.Respects.{
  Respects, Respects-bind, Respects-if, Respects-option, Respects-pure, Respects-raise,
  Respects-query, Respects-or_raise, Respects-raise_if, Respects-ask, Respects-observe,
}
use vowgrid_api.Billing.Frame.{
  BillingOnly, assert_can_create_intent-BillingOnly, assert_can_queue_execution-BillingOnly,
  assert_can_require_approval_count-BillingOnly, track_intent_creation-BillingOnly,
  track_execution_start-BillingOnly,
}
use vowgrid_api.Intents.Create.{CreateIntentInput, create_intent, create_new_intent}
use vowgrid_api.Intents.Insertion.{insert_intent-Progress}
use vowgrid_api.Intents.Progress.{
  Progress, Progress-same, Progress-emit, Progress-transition, HasUniqueIds, Advances,
}
use vowgrid_api.Approvals.{
  record_policy_decisions, create_request, open_request, submit_for_approval,
}
use vowgrid_api.Approvals.Model.{SubmitForApprovalInput}
use vowgrid_api.Approvals.Stages.{nowhere}
use vowgrid_api.Executions.{create_job, add_execution, queue_execution}
use vowgrid_api.Workflow.{elsewhere}

abbrev pub to_submitted : IntentState → Bool
to_submitted pending_approval = true
to_submitted rejected = true
to_submitted _ = false

abbrev pub to_queued : IntentState → Bool
to_queued queued = true
to_queued _ = false

-- Billing does not touch the intents.
Progress-billing :
    {env : Env} {allowed : IntentState → Bool} {A : Type 0} {m : Action env A}
    → Respects (BillingOnly env) m
    → Respects (Progress env allowed) m
Progress-billing {env} {allowed} {A} {m} k = record {
  run = λ w.
      Progress-same env allowed w (m w).1
        (ap (λ (v : World env). v.intents) (k.run w w.billing w.metrics w.ticks));
}

module _ (env : Env) (L : IsLawful env.db) where
  create_intent-Progress :
      (ws : ℕ) (input : CreateIntentInput) (a : String) (t : ActorType)
      → Respects (Progress env nowhere) (create_intent env ws input a t)
  unfolding create_intent create_new_intent
  create_intent-Progress ws input a t = Respects-bind (Respects-query _) (λ existing.
      Respects-option existing
        (Respects-bind (Progress-billing (assert_can_create_intent-BillingOnly env ws)) (λ billing.
          Respects-bind (insert_intent-Progress env L ws input) (λ intent.
            Respects-bind (Progress-emit env nowhere _) (λ _.
              Respects-bind (Progress-billing (track_intent_creation-BillingOnly env ws billing))
                (λ _. Respects-pure _)))))
        (λ intent. Respects-pure intent))

  queue_execution-Progress :
      (id ws : ℕ) (a : String) (t : ActorType)
      → Respects (Progress env to_queued) (queue_execution env id ws a t)
  unfolding queue_execution create_job add_execution
  queue_execution-Progress id ws a t = Respects-bind (Respects-query _) (λ found.
      Respects-bind (Respects-or_raise found _) (λ intent.
        Respects-bind (Respects-raise_if _ _) (λ _. Respects-bind (Respects-query _) (λ existing.
          Respects-bind (Respects-raise_if _ _) (λ _.
            Respects-bind (Progress-billing (assert_can_queue_execution-BillingOnly env ws))
              (λ billing.
                Respects-bind
                  (Respects-bind (Respects-query _) (λ clash.
                    Respects-bind (Respects-raise_if _ _) (λ _.
                      Respects-bind (Respects-query _)
                        (λ n. Respects-bind (elsewhere env _ (λ w. refl)) (λ _. Respects-pure _)))))
                  (λ job. Respects-bind (Progress-transition env L id ws queued _ _ refl) (λ _.
                    Respects-bind
                      (Respects-bind (Respects-ask _) (λ refused.
                        Respects-option refused (elsewhere env _ (λ w. refl))
                          (λ m. Respects-raise _)))
                      (λ _. Respects-bind (Progress-emit env to_queued _) (λ _.
                        Respects-bind
                          (Progress-billing (track_execution_start-BillingOnly env ws billing))
                          (λ _. Respects-bind (Respects-observe _) (λ _. Respects-pure _))))))))))))

  record_policy_decisions-Progress :
      {allowed : IntentState → Bool} (id : ℕ) (ds : List PolicyEvaluationResult)
      → Respects (Progress env allowed) (record_policy_decisions env id ds)
  unfolding record_policy_decisions
  record_policy_decisions-Progress id [] = Respects-pure _
  record_policy_decisions-Progress id (d ∷ ds) =
      Respects-bind (elsewhere env _ (λ w. refl)) (λ _. record_policy_decisions-Progress id ds)

  open_request-Progress :
      (id ws n : ℕ) (stages : List ApprovalStageDefinition) (o : PolicyOutcome) (a : String)
      (t : ActorType)
      → Respects (Progress env to_submitted) (open_request env id ws n stages o a t)
  unfolding open_request create_request
  open_request-Progress id ws n stages o a t =
      Respects-bind
        (Respects-bind (Respects-query _) (λ clash. Respects-bind (Respects-raise_if _ _) (λ _.
          Respects-bind (Respects-query _)
            (λ k. Respects-bind (elsewhere env _ (λ w. refl)) (λ _. Respects-pure _)))))
        (λ request.
          Respects-bind (Progress-transition env L id ws pending_approval _ _ refl)
            (λ _. Respects-bind (Progress-emit env to_submitted _) (λ _. Respects-pure _)))

  submit_for_approval-Progress :
      (id ws : ℕ) (input : SubmitForApprovalInput) (a : String) (t : ActorType)
      → Respects (Progress env to_submitted) (submit_for_approval env id ws input a t)
  unfolding submit_for_approval
  submit_for_approval-Progress id ws input a t =
      Respects-bind (Progress-billing (assert_can_require_approval_count-BillingOnly env ws _))
        (λ _. Respects-bind (Respects-query _) (λ found.
          Respects-bind (Respects-or_raise found _) (λ intent.
            Respects-bind (Respects-raise_if _ _) (λ _.
              Respects-bind (Respects-query _) (λ connector.
                Respects-bind (Respects-query _) (λ policies.
                  Respects-bind (record_policy_decisions-Progress id _) (λ _.
                    Respects-if _
                      (Respects-bind (Progress-transition env L id ws rejected _ _ refl)
                        (λ _. Respects-pure _))
                      (open_request-Progress id ws _ _ _ a t))))))))

module _ (env : Env) (L : IsLawful env.db) (w : World env) (unique : HasUniqueIds env w) where
  -- The creation of an intent keeps the ids unique and every intent that was there as it is, in every
  -- outcome, where the ids were unique.
  pub create_intent-moves_none :
      (ws : ℕ) (input : CreateIntentInput) (a : String) (t : ActorType)
      → let w' = (create_intent env ws input a t w).1 in
        HasUniqueIds env w' × Advances env nowhere w w'
  create_intent-moves_none ws input a t = (create_intent-Progress env L ws input a t).run w unique

  -- A submission moves intents along edges into `pending_approval` and `rejected` only, and keeps them
  -- all, with unique ids.
  pub submit_for_approval-moves :
      (id ws : ℕ) (input : SubmitForApprovalInput) (a : String) (t : ActorType)
      → let w' = (submit_for_approval env id ws input a t w).1 in
        HasUniqueIds env w' × Advances env to_submitted w w'
  submit_for_approval-moves id ws input a t =
      (submit_for_approval-Progress env L id ws input a t).run w unique

  -- The queueing of an execution moves intents along the edge into `queued` only, and keeps them all,
  -- with unique ids.
  pub queue_execution-moves :
      (id ws : ℕ) (a : String) (t : ActorType)
      → let w' = (queue_execution env id ws a t w).1 in
        HasUniqueIds env w' × Advances env to_queued w w'
  queue_execution-moves id ws a t = (queue_execution-Progress env L id ws a t).run w unique
