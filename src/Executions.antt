-- ===== src/Executions.antt =====
-- apps/api/src/modules/executions/service.ts: an approved intent is queued for execution, and an
-- executed one for its rollback.
pub mod Gate
use vowgrid_api.Common.{
  ℕ, String, ◌<>◌, Bool, true, false, not, ◌&&◌, ◌||◌, Option, none, some, List, [], ◌∷◌, ◌++◌,
  ◌==◌, if◌then◌else◌,
}
use vowgrid_api.Env.{Env, RollbackSupport, unsupported}
use vowgrid_api.Json.{Json, Fields, text, object, end, field}
use vowgrid_api.Rows.{
  Intent, Connector, ActorType, system, ExecutionJob, JobStatus, failed_job, queued_job,
  RollbackAttempt, RollbackStatus, pending_rollback, failed_rollback, QueuedJob,
}
use vowgrid_api.States.{
  IntentState, state_name, state_eq, approved, queued, succeeded, rollback_pending, rollback_failed,
}
use vowgrid_api.World.{
  World, Action, not_found, validation, conflict, thrown, unique_violation, record_missing, ◌>>=◌,
  ◌>>◌, pure, raise, query, write, or_raise, raise_if, ask, observe,
}
use vowgrid_api.Audits.{emit_audit_event, defined_field}
use vowgrid_api.Intents.{intent_in, transition_intent}
use vowgrid_api.Billing.Entitlements.{assert_can_queue_execution}
use vowgrid_api.Billing.Invoices.{track_execution_start}
use vowgrid_api.Connectors.{connector_of}

abbrev is_failed_job : JobStatus → Bool
is_failed_job failed_job = true
is_failed_job _ = false

abbrev is_unsupported : Option Connector → Bool
is_unsupported none = false
is_unsupported (some c) = elim c.rollback_support [ unsupported ↦ true | _ ↦ false ]

abbrev text_field : Option String → Option Json
text_field none = none
text_field (some s) = some (text s)

abbrev pub job_of : ℕ → ExecutionJob → Bool
job_of intent_id j = j.intent_id == intent_id

abbrev pub attempt_is : ℕ → RollbackAttempt → Bool
attempt_is id r = r.id == id

module _ (env : Env) where
  -- `executionJob.create`; the intent's id is unique.
  unfoldable pub create_job : Intent → Action env ExecutionJob
  create_job intent = do
    clash ← query λ w. env.db.find_first (job_of intent.id) w.execution_jobs
    raise_if (elim clash [ none ↦ false | some _ ↦ true ]) unique_violation
    id ← query λ w. env.db.next_id (λ (j : ExecutionJob). j.id) w.execution_jobs
    let job : ExecutionJob = record {
      id = id;
      intent_id = intent.id;
      status = queued_job;
      attempts = 0;
      idempotency_key = intent.idempotency_key;
      result = none;
      error = none;
    }
    write λ w. record w { execution_jobs = env.db.create job w.execution_jobs }
    pure job

  -- `executionQueue.add`, which the queue may refuse.
  unfoldable pub add_execution : ℕ → ℕ → ℕ → Action env (Unit {0})
  add_execution row_id intent_id ws = do
    refused ← ask env.queue_error
    elim refused [
      | some message ↦ raise (thrown message)
      | none ↦ write λ w. record w {
        execution_queue =
            w.execution_queue
            ++ record { row_id = row_id; intent_id = intent_id; workspace_id = ws; attempts = 3 }
              ∷ [];
      }
    ]

  unfoldable pub queue_execution : ℕ → ℕ → String → ActorType → Action env ExecutionJob
  unfolding create_job add_execution
  queue_execution intent_id ws actor_id actor_type = do
    found ← query λ w. env.db.find_first (intent_in intent_id ws) w.intents
    intent ← or_raise found (not_found "Intent" intent_id)
    raise_if (not (state_eq intent.status approved)) (
        validation (
          "Intent must be in \"approved\" state to execute. Current state: \""
          <> state_name intent.status
          <> "\""))
    existing ← query λ w. env.db.find_first (job_of intent_id) w.execution_jobs
    raise_if (elim existing [ none ↦ false | some j ↦ not (is_failed_job j.status) ])
        (conflict "Execution job already exists for this intent")
    billing ← assert_can_queue_execution env ws
    job ← create_job intent
    transition_intent env intent_id ws queued actor_id actor_type
    add_execution job.id intent_id ws
    emit_audit_event env (record {
      action = "execution.queued";
      entity_type = "intent";
      entity_id = intent_id;
      actor_type = actor_type;
      actor_id = actor_id;
      workspace_id = ws;
      metadata = some (object (field "executionJobId" (text (env.id_text job.id)) end));
    })
    track_execution_start env ws billing
    observe "execution.queued"
    pure job

  -- `rollbackQueue.add`, with the attempts of the queue's default options (lib/queue.ts).
  unfoldable pub add_rollback : ℕ → ℕ → ℕ → Action env (Option String)
  add_rollback row_id intent_id ws = do
    refused ← ask env.queue_error
    elim refused [
      | some message ↦ pure (some message)
      | none ↦
          write (λ w. record w {
            rollback_queue =
                w.rollback_queue
                ++ record {
                  row_id = row_id;
                  intent_id = intent_id;
                  workspace_id = ws;
                  attempts = 3;
                }
                  ∷ [];
          })
          >> pure none
    ]

  -- `prisma.rollbackAttempt.update`
  unfoldable pub update_attempt : ℕ → (RollbackAttempt → RollbackAttempt) → Action env (Unit {0})
  update_attempt id f = do
    found ← query λ w. env.db.find_first (attempt_is id) w.rollback_attempts
    or_raise found record_missing
    write λ w. record w { rollback_attempts = env.db.update (attempt_is id) f w.rollback_attempts }

  unfoldable pub create_attempt : ℕ → Option String → Action env RollbackAttempt
  create_attempt intent_id reason = do
    id ← query λ w. env.db.next_id (λ (r : RollbackAttempt). r.id) w.rollback_attempts
    let attempt : RollbackAttempt = record {
      id = id;
      intent_id = intent_id;
      reason = reason;
      status = pending_rollback;
      result = none;
    }
    write λ w. record w { rollback_attempts = env.db.create attempt w.rollback_attempts }
    pure attempt

  -- The handler of the error with which the queue refused the job.
  unfoldable pub rollback_not_queued : ℕ → ℕ → ℕ → String → Action env RollbackAttempt
  unfolding update_attempt
  rollback_not_queued intent_id ws attempt_id message = do
    update_attempt attempt_id λ r. record r {
      status = failed_rollback;
      result = some (object (field "error" (text message) end));
    }
    transition_intent env intent_id ws rollback_failed "system" system
    emit_audit_event env (record {
      action = "rollback.queue_failed";
      entity_type = "intent";
      entity_id = intent_id;
      actor_type = system;
      actor_id = "system";
      workspace_id = ws;
      metadata = some (
          object (
            field "rollbackAttemptId" (text (env.id_text attempt_id))
              (field "error" (text message) end)));
    })
    observe "rollback.queue_failed"
    raise (thrown message)

  unfoldable pub request_rollback :
      ℕ → ℕ → String → ActorType → Option String → Action env RollbackAttempt
  unfolding create_attempt add_rollback rollback_not_queued
  request_rollback intent_id ws actor_id actor_type reason = do
    found ← query λ w. env.db.find_first (intent_in intent_id ws) w.intents
    intent ← or_raise found (not_found "Intent" intent_id)
    raise_if
        (not (state_eq intent.status succeeded) && not (state_eq intent.status rollback_failed))
        (validation (
          "Intent must be in \"succeeded\" or \"rollback_failed\" state to rollback. Current state: \""
          <> state_name intent.status
          <> "\""))
    connector ← query (connector_of env intent)
    raise_if (is_unsupported connector) (validation "Connector does not support rollback")
    attempt ← create_attempt intent_id reason
    transition_intent env intent_id ws rollback_pending actor_id actor_type
    emit_audit_event env (record {
      action = "rollback.requested";
      entity_type = "intent";
      entity_id = intent_id;
      actor_type = actor_type;
      actor_id = actor_id;
      workspace_id = ws;
      metadata = some (
          object (
            field "rollbackAttemptId" (text (env.id_text attempt.id))
              (defined_field "reason" (text_field reason) end)));
    })
    observe "rollback.requested"
    refused ← add_rollback attempt.id intent_id ws
    elim refused [
      | none ↦ pure attempt
      | some message ↦ rollback_not_queued intent_id ws attempt.id message
    ]
