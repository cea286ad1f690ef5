-- ===== src/Workflow.antt =====
-- Where each handler can take an intent: apps/api/src/modules/simulations/service.ts,
-- approvals/service.ts, executions/service.ts and apps/api/src/jobs.
pub mod Reach
pub mod Calls
pub mod Entry
use vowgrid_api.Common.{
  ℕ, String, ◌≡◌, refl, Bool, true, false, not, ◌&&◌, Option, none, some, List, [], ◌∷◌, ◌++◌,
  if◌then◌else◌, leb,
}
use vowgrid_api.Env.{Env, IConnector, Settled, ConnectorRuntimeContext, ConnectorRollbackResult}
use vowgrid_api.Json.{Json}
use vowgrid_api.Prisma.{IsLawful}
use vowgrid_api.Rows.{
  Intent, Connector, ActorType, Role, ApprovalStageDefinition, ApprovalRequest, ApprovalDecision,
  SimulationResult, DecisionKind, approved_decision, rejected_decision, ExecutionJob,
  RollbackAttempt,
}
use vowgrid_api.States.{
  IntentState, simulated, approved, rejected, executing, succeeded, failed, rollback_pending,
  rolled_back, rollback_failed,
}
use vowgrid_api.World.{World, Action, Error, ◌>>=◌, ◌>>◌, pure, write}
use vowgrid_api.World.Respects.{
  Respects, Respects-bind, Respects-if, Respects-option, Respects-pure, Respects-raise,
  Respects-query, Respects-write, Respects-or_raise, Respects-raise_if, Respects-ask,
  Respects-settle, Respects-observe, Respects-try_catch,
}
use vowgrid_api.Intents.Progress.{Progress, Progress-same, Progress-emit, Progress-transition}
use vowgrid_api.Simulations.{simulate_intent, store_simulation}
use vowgrid_api.Approvals.Model.{parse_approval_stages, clamp_stage_index}
use vowgrid_api.Approvals.{resolve_workspace_role, assert_stage_role_permission}
use vowgrid_api.Approvals.Review.{
  update_request, create_decision, settle_rejection, settle_approval, process_approval_decision,
  is_stage_complete, is_last_stage,
}
use vowgrid_api.Executions.{
  create_attempt, add_rollback, rollback_not_queued, update_attempt, request_rollback,
}
use vowgrid_api.Jobs.{update_job, call_execute, perform, give_up, run_connector, process_execution}
use vowgrid_api.Jobs.Rollback.{undo, abandon, on_rollback_error, process_rollback}

abbrev pub to_simulated : IntentState → Bool
to_simulated simulated = true
to_simulated _ = false

abbrev pub to_reviewed : IntentState → Bool
to_reviewed approved = true
to_reviewed rejected = true
to_reviewed _ = false

abbrev pub to_executed : IntentState → Bool
to_executed executing = true
to_executed succeeded = true
to_executed failed = true
to_executed _ = false

abbrev pub to_requested : IntentState → Bool
to_requested rollback_pending = true
to_requested rollback_failed = true
to_requested _ = false

abbrev pub to_undone : IntentState → Bool
to_undone rolled_back = true
to_undone rollback_failed = true
to_undone _ = false

module _ (env : Env) where
  -- A write to a table other than that of the intents.
  pub elsewhere :
      {allowed : IntentState → Bool} (f : World env → World env)
      → ((w : World env) → (f w).intents ≡ w.intents)
      → Respects (Progress env allowed) (write f)
  elsewhere {allowed} f same = Respects-write f (λ w. Progress-same env allowed w (f w) (same w))

module _ (env : Env) (L : IsLawful env.db) where
  -- A simulation moves intents along the edge into `simulated` and along no other, in every outcome.
  store_simulation-Progress :
      (row : SimulationResult) → Respects (Progress env to_simulated) (store_simulation env row)
  unfolding store_simulation
  store_simulation-Progress row =
      Respects-bind (Respects-query _)
        (λ clash. Respects-bind (Respects-raise_if _ _) (λ _. elsewhere env _ (λ w. refl)))

  pub simulate_intent-Progress :
      (id ws : ℕ) (a : String) (t : ActorType)
      → Respects (Progress env to_simulated) (simulate_intent env id ws a t)
  unfolding simulate_intent
  simulate_intent-Progress id ws a t = Respects-bind (Respects-query _) (λ found.
      Respects-bind (Respects-or_raise found _) (λ intent.
        Respects-bind (Respects-raise_if _ _) (λ _. Respects-bind (Respects-query _) (λ connector.
          Respects-bind (Respects-or_raise _ _) (λ c. Respects-bind (Respects-settle _) (λ context.
            Respects-bind (Respects-ask _) (λ checked.
              Respects-bind (Respects-settle checked) (λ verdict.
                Respects-bind (Respects-raise_if _ _) (λ _.
                  Respects-bind (Respects-ask _) (λ answer.
                    Respects-bind (Respects-settle answer) (λ result.
                      Respects-bind (store_simulation-Progress _) (λ _.
                        Respects-bind (Progress-transition env L id ws simulated a t refl) (λ _.
                          Respects-bind (Progress-emit env to_simulated _)
                            (λ _. Respects-pure _))))))))))))))

  update_job-Progress :
      {allowed : IntentState → Bool} (id : ℕ) (f : ExecutionJob → ExecutionJob)
      → Respects (Progress env allowed) (update_job env id f)
  unfolding update_job
  update_job-Progress id f =
      Respects-bind (Respects-query _)
        (λ found. Respects-bind (Respects-or_raise found _) (λ _. elsewhere env _ (λ w. refl)))

  update_attempt-Progress :
      {allowed : IntentState → Bool} (id : ℕ) (f : RollbackAttempt → RollbackAttempt)
      → Respects (Progress env allowed) (update_attempt env id f)
  unfolding update_attempt
  update_attempt-Progress id f =
      Respects-bind (Respects-query _)
        (λ found. Respects-bind (Respects-or_raise found _) (λ _. elsewhere env _ (λ w. refl)))

  module _ (id job ws n : ℕ) where
    perform-Progress :
        (c : IConnector) (i : Intent) (o : Option Connector) (x : ConnectorRuntimeContext)
        → Respects (Progress env to_executed) (perform env id job ws n c i o x)
    unfolding perform call_execute
    perform-Progress c i o x =
        Respects-bind
          (Respects-bind (elsewhere env _ (λ w. refl))
            (λ _. Respects-bind (Respects-ask _) (λ answer. Respects-settle answer)))
          (λ result. Respects-bind (update_job-Progress job _) (λ _.
            Respects-bind (Progress-transition env L id ws succeeded _ _ refl) (λ _.
              Respects-bind (elsewhere env _ (λ w. refl))
                (λ _. Respects-bind (Progress-emit env to_executed _) (λ _. Respects-observe _)))))

    give_up-Progress : (e : Error) → Respects (Progress env to_executed) (give_up env id job ws n e)
    unfolding give_up
    give_up-Progress e = Respects-bind (update_job-Progress job _) (λ _.
        Respects-bind (Progress-transition env L id ws failed _ _ refl) (λ _.
          Respects-bind (Progress-emit env to_executed _)
            (λ _. Respects-bind (Respects-observe _) (λ _. Respects-raise e))))

    -- The execution worker moves intents along edges into `executing`, `succeeded` and `failed` only,
    -- whatever the connector does.
    pub process_execution-Progress :
        Respects (Progress env to_executed) (process_execution env id job ws n)
    unfolding process_execution run_connector
    process_execution-Progress = Respects-bind (update_job-Progress job _) (λ _.
        Respects-bind (Progress-transition env L id ws executing _ _ refl) (λ _.
          Respects-bind (Respects-observe _) (λ _. Respects-bind (Respects-query _) (λ row.
            Respects-bind (Respects-or_raise row _) (λ intent.
              Respects-bind (Respects-query _) (λ connector.
                Respects-bind (Respects-or_raise _ _) (λ c.
                  Respects-bind (Respects-settle _) (λ context.
                    Respects-try_catch (perform-Progress c intent connector context)
                      give_up-Progress))))))))

  -- The rollback worker moves intents along edges into `rolled_back` and `rollback_failed` only.
  pub process_rollback-Progress :
      (id attempt ws n most : ℕ)
      → Respects (Progress env to_undone) (process_rollback env id attempt ws n most)
  unfolding process_rollback undo on_rollback_error abandon
  process_rollback-Progress id attempt ws n most =
      Respects-bind (update_attempt-Progress attempt _) (λ _.
        Respects-bind (Respects-observe _) (λ _. Respects-bind (Respects-query _) (λ row.
          Respects-bind (Respects-or_raise row _) (λ intent.
            Respects-bind (Respects-query _) (λ connector. Respects-bind (Respects-query _) (λ job.
              Respects-bind (Respects-query _) (λ receipts.
                Respects-bind (Respects-or_raise _ _) (λ c.
                  Respects-bind (Respects-or_raise _ _) (λ rollback.
                    Respects-bind (Respects-settle _) (λ context.
                      Respects-try_catch
                        (Respects-bind (Respects-ask _) (λ start.
                          Respects-bind (elsewhere env _ (λ w. refl)) (λ _.
                            Respects-bind (Respects-ask _) (λ answer.
                              Respects-bind (Respects-settle answer) (λ result.
                                Respects-bind (update_attempt-Progress attempt _) (λ _.
                                  Respects-bind
                                    (Progress-transition env L id ws rolled_back _ _ refl)
                                    (λ _. Respects-bind (elsewhere env _ (λ w. refl)) (λ _.
                                      Respects-bind (Respects-ask _) (λ finish.
                                        Respects-bind (Progress-emit env to_undone _)
                                          (λ _. Respects-observe _))))))))))
                        (λ e.
                          Respects-bind
                            (Respects-if (leb most _)
                              (Respects-bind (update_attempt-Progress attempt _) (λ _.
                                Respects-bind
                                  (Progress-transition env L id ws rollback_failed _ _ refl)
                                  (λ _.
                                    Respects-bind (Progress-emit env to_undone _)
                                      (λ _. Respects-observe _))))
                              (update_attempt-Progress attempt _))
                            (λ _. Respects-raise e))))))))))))

  -- A request for a rollback moves intents along edges into `rollback_pending` and, where the queue
  -- refuses the job, `rollback_failed` only.
  pub request_rollback-Progress :
      (id ws : ℕ) (a : String) (t : ActorType) (reason : Option String)
      → Respects (Progress env to_requested) (request_rollback env id ws a t reason)
  unfolding request_rollback create_attempt add_rollback rollback_not_queued
  request_rollback-Progress id ws a t reason = Respects-bind (Respects-query _) (λ found.
      Respects-bind (Respects-or_raise found _) (λ intent.
        Respects-bind (Respects-raise_if _ _) (λ _. Respects-bind (Respects-query _) (λ connector.
          Respects-bind (Respects-raise_if _ _) (λ _.
            Respects-bind
              (Respects-bind (Respects-query _)
                (λ n. Respects-bind (elsewhere env _ (λ w. refl)) (λ _. Respects-pure _)))
              (λ attempt.
                Respects-bind (Progress-transition env L id ws rollback_pending _ _ refl) (λ _.
                  Respects-bind (Progress-emit env to_requested _) (λ _.
                    Respects-bind (Respects-observe _) (λ _.
                      Respects-bind
                        (Respects-bind (Respects-ask _) (λ refused.
                          Respects-option refused
                            (Respects-bind (elsewhere env _ (λ w. refl)) (λ _. Respects-pure _))
                            (λ m. Respects-pure _)))
                        (λ refused. Respects-option refused (Respects-pure _) (λ m.
                          Respects-bind (update_attempt-Progress _ _) (λ _.
                            Respects-bind (Progress-transition env L id ws rollback_failed _ _ refl)
                              (λ _. Respects-bind (Progress-emit env to_requested _) (λ _.
                                Respects-bind (Respects-observe _)
                                  (λ _. Respects-raise _)))))))))))))))

  resolve_workspace_role-Progress :
      {allowed : IntentState → Bool} (user_id ws : ℕ)
      → Respects (Progress env allowed) (resolve_workspace_role env user_id ws)
  unfolding resolve_workspace_role
  resolve_workspace_role-Progress user_id ws =
      Respects-bind (Respects-query _)
        (λ m. Respects-bind (Respects-query _) (λ u. Respects-pure _))

  assert_stage_role_permission-Progress :
      {allowed : IntentState → Bool} (role : Option Role) (stage : ApprovalStageDefinition)
      → Respects (Progress env allowed) (assert_stage_role_permission env role stage)
  unfolding assert_stage_role_permission
  assert_stage_role_permission-Progress role stage =
      Respects-bind (Respects-or_raise role _) (λ r. Respects-raise_if _ _)

  pub update_request-Progress :
      {allowed : IntentState → Bool} (r : ApprovalRequest) (f : ApprovalRequest → ApprovalRequest)
      → Respects (Progress env allowed) (update_request env r f)
  unfolding update_request
  update_request-Progress r f = Respects-bind (elsewhere env _ (λ w. refl)) (λ _. Respects-pure _)

  settle_rejection-Progress :
      (r : ApprovalRequest) (who ws : ℕ) (ds : List ApprovalDecision)
      → Respects (Progress env to_reviewed) (settle_rejection env r who ws ds)
  unfolding settle_rejection
  settle_rejection-Progress r who ws ds = Respects-bind (update_request-Progress r _) (λ _.
      Respects-bind (Progress-transition env L r.intent_id ws rejected _ _ refl)
        (λ _. Respects-pure _))

  settle_approval-Progress :
      (r : ApprovalRequest) (who ws index : ℕ) (stage : ApprovalStageDefinition)
      (stages : List ApprovalStageDefinition) (ds : List ApprovalDecision)
      → Respects (Progress env to_reviewed) (settle_approval env r who ws index stage stages ds)
  unfolding settle_approval
  settle_approval-Progress r who ws index stage stages ds =
      Respects-bind (update_request-Progress r _) (λ _.
        Respects-bind
          (Respects-if (is_stage_complete index stage ds && not (is_last_stage index stages))
            (Progress-emit env to_reviewed _) (Respects-pure _))
          (λ _.
            Respects-bind
              (Respects-if (is_stage_complete index stage ds && is_last_stage index stages)
                (Respects-bind (Progress-transition env L r.intent_id ws approved _ _ refl)
                  (λ _. Respects-pure _))
                (Respects-pure _))
              (λ _. Respects-pure _)))

  -- A reviewer's decision moves intents along edges into `approved` and `rejected` only.
  pub process_approval_decision-Progress :
      (request who : ℕ) (d : DecisionKind) (why : Option String) (ws : ℕ) (role : Option Role)
      → Respects
          (Progress env to_reviewed)
          (process_approval_decision env request who d why ws role)
  unfolding process_approval_decision create_decision
  process_approval_decision-Progress request who d why ws role =
      Respects-bind (Respects-query _) (λ found. Respects-bind (Respects-or_raise found _) (λ r.
        Respects-bind (Respects-query _) (λ decisions. Respects-bind (Respects-query _) (λ parent.
          Respects-bind (Respects-or_raise parent _) (λ intent.
            Respects-bind (Respects-raise_if _ _) (λ _. Respects-bind (Respects-raise_if _ _) (λ _.
              Respects-bind (Respects-query _) (λ existing.
                Respects-bind (Respects-raise_if _ _) (λ _.
                  Respects-bind
                    (Respects-option role (resolve_workspace_role-Progress who ws)
                      (λ x. Respects-pure _))
                    (λ mine. Respects-bind (Respects-or_raise _ _) (λ stage.
                      Respects-bind (assert_stage_role_permission-Progress mine stage) (λ _.
                        Respects-bind
                          (Respects-bind (Respects-query _) (λ n.
                            Respects-bind (elsewhere env _ (λ w. refl)) (λ _. Respects-pure _)))
                          (λ row. Respects-bind (Progress-emit env to_reviewed _) (λ _.
                            Respects-bind
                              (by_kind d r stage
                                (parse_approval_stages env r.stage_definitions r.required_count)
                                (clamp_stage_index r.current_stage_index
                                  (parse_approval_stages env r.stage_definitions r.required_count))
                                (decisions ++ row ∷ []))
                              (λ response. Respects-pure _)))))))))))))))
    where
      by_kind :
          (k : DecisionKind) (r : ApprovalRequest) (stage : ApprovalStageDefinition)
          (stages : List ApprovalStageDefinition) (index : ℕ) (ds : List ApprovalDecision)
          → Respects (Progress env to_reviewed) (elim k [
            | rejected_decision ↦ settle_rejection env r who ws ds
            | approved_decision ↦ settle_approval env r who ws index stage stages ds
          ])
      by_kind approved_decision r stage stages index ds =
          settle_approval-Progress r who ws index stage stages ds
      by_kind rejected_decision r stage stages index ds = settle_rejection-Progress r who ws ds
