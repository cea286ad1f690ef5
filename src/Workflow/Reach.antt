-- ===== src/Workflow/Reach.antt =====
-- The states that a handler can move an intent into (apps/api/src/modules/simulations/service.ts,
-- approvals/service.ts, executions/service.ts and apps/api/src/jobs), from any state of the tables.
use vowgrid_api.Common.{ℕ, String, ◌≡◌, false, ◌&&◌, Option, List}
use vowgrid_api.Env.{Env}
use vowgrid_api.Prisma.{IsLawful}
use vowgrid_api.Rows.{
  ActorType, Role, ApprovalStageDefinition, ApprovalRequest, ApprovalDecision, DecisionKind,
}
use vowgrid_api.World.{World}
use vowgrid_api.Intents.Progress.{HasUniqueIds, Advances}
use vowgrid_api.Simulations.{simulate_intent}
use vowgrid_api.Approvals.Review.{
  is_stage_complete, is_last_stage, settle_approval, process_approval_decision,
}
use vowgrid_api.Approvals.Stages.{nowhere, settle_approval-early}
use vowgrid_api.Executions.{request_rollback}
use vowgrid_api.Jobs.{process_execution}
use vowgrid_api.Jobs.Rollback.{process_rollback}
use vowgrid_api.Workflow.{
  to_simulated, to_reviewed, to_executed, to_requested, to_undone, simulate_intent-Progress,
  process_approval_decision-Progress, process_execution-Progress, request_rollback-Progress,
  process_rollback-Progress,
}

module _ (env : Env) (L : IsLawful env.db) (w : World env) (unique : HasUniqueIds env w) where
  -- However the decision of a reviewer ends, with an answer or an error, every intent is still there
  -- and the same but for its status, which has moved along edges of the state machine into
  -- `approved` and `rejected` only. Ids are unique before, and then after.
  pub process_approval_decision-moves :
      (request who : ℕ) (d : DecisionKind) (why : Option String) (ws : ℕ) (role : Option Role)
      → let w' = (process_approval_decision env request who d why ws role w).1 in
        HasUniqueIds env w' × Advances env to_reviewed w w'
  process_approval_decision-moves request who d why ws role =
      (process_approval_decision-Progress env L request who d why ws role).run w unique

  -- An approval that does not complete the last stage moves no intent.
  pub settle_approval-moves_none :
      (r : ApprovalRequest) (who ws index : ℕ) (stage : ApprovalStageDefinition)
      (stages : List ApprovalStageDefinition) (ds : List ApprovalDecision)
      → (is_stage_complete index stage ds && is_last_stage index stages) ≡ false
      → let w' = (settle_approval env r who ws index stage stages ds w).1 in
        HasUniqueIds env w' × Advances env nowhere w w'
  settle_approval-moves_none r who ws index stage stages ds early =
      (settle_approval-early env L r who ws index stage stages ds early).run w unique

  -- A run of the execution worker, whatever the connector answers, moves intents along edges into
  -- `executing`, `succeeded` and `failed` only, and keeps them all, with unique ids.
  pub process_execution-moves :
      (id job ws n : ℕ)
      → let w' = (process_execution env id job ws n w).1 in
        HasUniqueIds env w' × Advances env to_executed w w'
  process_execution-moves id job ws n = (process_execution-Progress env L id job ws n).run w unique

  -- A run of the rollback worker moves intents along edges into `rolled_back` and `rollback_failed`
  -- only, and keeps them all, with unique ids.
  pub process_rollback-moves :
      (id attempt ws n most : ℕ)
      → let w' = (process_rollback env id attempt ws n most w).1 in
        HasUniqueIds env w' × Advances env to_undone w w'
  process_rollback-moves id attempt ws n most =
      (process_rollback-Progress env L id attempt ws n most).run w unique

  -- A request for a rollback moves intents along edges into `rollback_pending` and
  -- `rollback_failed` only, and keeps them all, with unique ids.
  pub request_rollback-moves :
      (id ws : ℕ) (a : String) (t : ActorType) (reason : Option String)
      → let w' = (request_rollback env id ws a t reason w).1 in
        HasUniqueIds env w' × Advances env to_requested w w'
  request_rollback-moves id ws a t reason =
      (request_rollback-Progress env L id ws a t reason).run w unique

  -- A simulation moves intents along the edge into `simulated` only, and keeps them all, with unique
  -- ids.
  pub simulate_intent-moves :
      (id ws : ℕ) (a : String) (t : ActorType)
      → let w' = (simulate_intent env id ws a t w).1 in
        HasUniqueIds env w' × Advances env to_simulated w w'
  simulate_intent-moves id ws a t = (simulate_intent-Progress env L id ws a t).run w unique
