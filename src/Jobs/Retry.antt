-- ===== src/Jobs/Retry.antt =====
-- apps/api/src/jobs/execution.worker.ts: the worker at an intent that is not queued.
use vowgrid_api.Common.{ℕ, ◌≡◌, ◌≢◌, false, some, arith, ◌+◌}
use vowgrid_api.Env.{Env}
use vowgrid_api.Rows.{Intent, system, ExecutionJob, processing_job}
use vowgrid_api.States.{IntentState, is_valid_transition, executing, queued}
use vowgrid_api.World.{World, err, invalid_state_transition, run_steps}
use vowgrid_api.Intents.Transition.{lookup_intent, transition_intent-invalid}
use vowgrid_api.Jobs.{job_is, process_execution, update_job}

only_queued : (s : IntentState) → s ≢ queued → is_valid_transition s executing ≡ false
unfolding is_valid_transition
only_queued s h = ground arith

module _ (env : Env) where
  -- The world after the job's row was marked as being processed.
  abbrev pub marked : ℕ → ℕ → World env → World env
  marked job n w = record w {
    execution_jobs =
        env.db.update (job_is job)
          (λ (j : ExecutionJob). record j { status = processing_job; attempts = n + 1 })
          w.execution_jobs;
  }

  -- A run of the worker for an intent that is there but not queued, such as the retry of an execution
  -- that has failed, ends as an invalid transition; the row of its job, which is there too, is all that
  -- it has changed, so no connector was called.
  pub process_execution-not_queued :
      (id job ws n : ℕ) (w : World env) {i : Intent} {j : ExecutionJob}
      → lookup_intent env id ws w ≡ some i
      → i.status ≢ queued
      → env.db.find_first (job_is job) w.execution_jobs ≡ some j
      → process_execution env id job ws n w
        ≡ (err (invalid_state_transition i.status executing), marked job n w)
  unfolding process_execution update_job run_steps
  process_execution-not_queued id job ws n w {i} h q r = ground (
    arith,
    transition_intent-invalid env id ws executing "system" system (marked job n w) h
        (only_queued i.status q),
  )
