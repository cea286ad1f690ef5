-- ===== src/Executions/Gate.antt =====
-- apps/api/src/modules/executions/service.ts: what is not queued.
use vowgrid_api.Common.{true, ℕ, String, ◌≡◌, ◌≢◌, false, none, some, ◌⊎◌, inl, inr, arith}
use vowgrid_api.Env.{Env}
use vowgrid_api.Rows.{Intent, ActorType, ExecutionJob, failed_job}
use vowgrid_api.States.{IntentState, state_eq, approved}
use vowgrid_api.World.{World, is_err, run_steps}
use vowgrid_api.Intents.Transition.{lookup_intent}
use vowgrid_api.Executions.{queue_execution, job_of}

not_approved : (s : IntentState) → s ≢ approved → state_eq s approved ≡ false
not_approved s h = ground arith

-- An intent that is missing or not approved is not queued, and neither is one that has a job that
-- has not failed: the handler ends with an error and has changed nothing.
pub queue_execution-refused :
    (env : Env) (id ws : ℕ) (a : String) (t : ActorType) (w : World env)
    → (lookup_intent env id ws w ≡ none)
      ⊎ (((i : Intent) × (lookup_intent env id ws w ≡ some i) × (i.status ≢ approved))
          ⊎ ((j : ExecutionJob) × (env.db.find_first (job_of id) w.execution_jobs ≡ some j)
              × (j.status ≢ failed_job)))
    → let out = queue_execution env id ws a t w in (is_err out.0 ≡ true) × (out.1 ≡ w)
unfolding queue_execution run_steps
queue_execution-refused env id ws a t w (inl h) = ground arith
queue_execution-refused env id ws a t w (inr (inl (i, h, s))) =
    ground (arith, not_approved i.status s)
queue_execution-refused env id ws a t w (inr (inr (j, h, s))) = ground arith
