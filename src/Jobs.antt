-- ===== src/Jobs.antt =====
-- apps/api/src/jobs/execution.worker.ts: the worker that takes an intent from the queue and lets
-- its connector act on it.
pub mod Retry
pub mod Rollback
use vowgrid_api.Common.{
  ℕ, ◌+◌, ◌-◌, String, ◌<>◌, Bool, Option, none, some, List, [], ◌∷◌, ◌++◌, ◌==◌,
}
use vowgrid_api.Env.{Env, IConnector, ConnectorRuntimeContext, ConnectorExecuteResult}
use vowgrid_api.Json.{Json, text, number, object, end, field}
use vowgrid_api.Rows.{
  Intent, Connector, system, ExecutionJob, JobStatus, processing_job, completed_job, failed_job,
  Receipt, execution_receipt, Effect, executed,
}
use vowgrid_api.States.{executing, succeeded, failed}
use vowgrid_api.World.{
  World, Action, Error, thrown, record_missing, ◌>>=◌, ◌>>◌, pure, raise, query, write, or_raise,
  ask, settle, try_catch, observe,
}
use vowgrid_api.Audits.{emit_audit_event, defined_field}
use vowgrid_api.Intents.{intent_is, transition_intent}
use vowgrid_api.Connectors.{
  connector_of, type_or_mock, parameters_of, build_connector_runtime_context, message_of,
}

abbrev pub job_is : ℕ → ExecutionJob → Bool
job_is id j = j.id == id

module _ (env : Env) where
  -- `prisma.executionJob.update`
  unfoldable pub update_job : ℕ → (ExecutionJob → ExecutionJob) → Action env (Unit {0})
  update_job id f = do
    found ← query λ w. env.db.find_first (job_is id) w.execution_jobs
    or_raise found record_missing
    write λ w. record w { execution_jobs = env.db.update (job_is id) f w.execution_jobs }

  module _ (intent_id job_id ws attempts : ℕ) where
    -- The call of `connector.execute`.
    unfoldable pub call_execute :
        IConnector → Intent → ConnectorRuntimeContext → Action env ConnectorExecuteResult
    call_execute c intent context = do
      write λ w. record w { effects = w.effects ++ executed intent_id ∷ [] }
      answer ← ask (c.execute intent.action (parameters_of intent) context)
      settle answer

    -- The body of the `try`.
    unfoldable pub perform :
        IConnector → Intent → Option Connector → ConnectorRuntimeContext → Action env (Unit {0})
    unfolding call_execute update_job
    perform c intent connector context = do
      result ← call_execute c intent context
      update_job job_id λ j. record j { status = completed_job; result = some result.payload }
      transition_intent env intent_id ws succeeded "system" system
      write λ w. record w {
        receipts =
            env.db.create
              (record {
                intent_id = intent_id;
                receipt_type = execution_receipt;
                summary = "Execution of \"" <> intent.action <> "\" completed successfully";
                payload = object (
                    field "action" (text intent.action) (
                      field "connectorType" (text (type_or_mock connector)) (
                        defined_field "parameters" intent.parameters (
                          field "result" result.payload (
                            field "executionJobId" (text (env.id_text job_id))
                              (field "attempts" (number (env.number_of (attempts + 1))) end))))));
              })
              w.receipts;
      }
      emit_audit_event env (record {
        action = "execution.completed";
        entity_type = "intent";
        entity_id = intent_id;
        actor_type = system;
        actor_id = "system";
        workspace_id = ws;
        metadata = some (
            object (
              field "executionJobId" (text (env.id_text job_id))
                (field "duration" (number (env.number_of result.duration)) end)));
      })
      observe "execution.completed"

    -- The handler of its error, which throws it again.
    unfoldable pub give_up : Error → Action env (Unit {0})
    unfolding update_job
    give_up e = do
      update_job job_id λ j. record j { status = failed_job; error = some (message_of env e) }
      transition_intent env intent_id ws failed "system" system
      emit_audit_event env (record {
        action = "execution.failed";
        entity_type = "intent";
        entity_id = intent_id;
        actor_type = system;
        actor_id = "system";
        workspace_id = ws;
        metadata = some (
            object (
              field "executionJobId" (text (env.id_text job_id)) (
                field "error" (text (message_of env e))
                  (field "attempts" (number (env.number_of (attempts + 1))) end))));
      })
      observe "execution.failed"
      raise e

    -- The steps after the transition to `executing`.
    unfoldable pub run_connector : Action env (Unit {0})
    unfolding perform give_up build_connector_runtime_context
    run_connector = do
      observe "execution.started"
      row ← query λ w. env.db.find_first (intent_is intent_id) w.intents
      intent ← or_raise row record_missing
      connector ← query (connector_of env intent)
      c ←
          or_raise (env.registered (type_or_mock connector))
            (thrown ("Connector type \"" <> type_or_mock connector <> "\" is not registered"))
      context ← settle (build_connector_runtime_context env ws intent.environment connector)
      try_catch (perform c intent connector context) give_up

    unfoldable pub process_execution : Action env (Unit {0})
    unfolding run_connector update_job
    process_execution = do
      update_job job_id λ j. record j { status = processing_job; attempts = attempts + 1 }
      transition_intent env intent_id ws executing "system" system
      run_connector
