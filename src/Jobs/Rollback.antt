-- ===== src/Jobs/Rollback.antt =====
-- apps/api/src/jobs/rollback.worker.ts: the worker that lets a connector take an execution back.
use vowgrid_api.Common.{
  ℕ, ◌+◌, ◌-◌, String, ◌<>◌, Bool, true, false, Option, none, some, List, [], ◌∷◌, ◌++◌, ◌==◌, leb,
  find, if◌then◌else◌,
}
use vowgrid_api.Env.{Env, ConnectorRuntimeContext, ConnectorRollbackResult, Settled}
use vowgrid_api.Json.{Json, array, text, number, object, end, field}
use vowgrid_api.Rows.{
  Intent, Connector, system, ExecutionJob, in_progress_rollback, completed_rollback,
  failed_rollback, Receipt, execution_receipt, rollback_receipt, rolled_back_effect,
}
use vowgrid_api.States.{rolled_back, rollback_failed}
use vowgrid_api.World.{
  Action, Error, thrown, record_missing, ◌>>=◌, ◌>>◌, raise, query, write, or_raise, ask, settle,
  try_catch, observe,
}
use vowgrid_api.Audits.{emit_audit_event}
use vowgrid_api.Intents.{intent_is, transition_intent}
use vowgrid_api.Executions.{update_attempt, job_of}
use vowgrid_api.Connectors.{
  connector_of, type_or_mock, parameters_of, build_connector_runtime_context, message_of,
}

abbrev is_execution : Receipt → Bool
is_execution r = elim r.receipt_type [ execution_receipt ↦ true | rollback_receipt ↦ false ]

-- `value && typeof value === 'object'`
abbrev is_object : Json → Bool
is_object (object _) = true
is_object (array _) = true
is_object _ = false

abbrev object_or : Json → Option Json → Json
object_or d none = d
object_or d (some v) = if is_object v then v else d

abbrev result_of : Option ExecutionJob → Option Json
result_of none = none
result_of (some j) = j.result

abbrev payload_of : Option Receipt → Option Json
payload_of none = none
payload_of (some r) = some r.payload

unfoldable pub get_execution_context : Option ExecutionJob → List Receipt → Json
get_execution_context job receipts =
    object_or (object_or (object end) (payload_of (find is_execution receipts))) (result_of job)

module _ (env : Env) where
  module _ (intent_id attempt_id ws attempt_number max_attempts : ℕ) where
    -- The body of the `try`.
    unfoldable pub undo :
        (String → Json → Json → ConnectorRuntimeContext → ℕ → Settled ConnectorRollbackResult)
        → Intent
        → Option Connector
        → Json
        → ConnectorRuntimeContext
        → Action env (Unit {0})
    unfolding update_attempt
    undo rollback intent connector execution context = do
      start ← ask env.clock
      write λ w. record w { effects = w.effects ++ rolled_back_effect intent_id ∷ [] }
      answer ← ask (rollback intent.action (parameters_of intent) execution context)
      result ← settle answer
      update_attempt env attempt_id
          λ r. record r { status = completed_rollback; result = some result.payload }
      transition_intent env intent_id ws rolled_back "system" system
      write λ w. record w {
        receipts =
            env.db.create
              (record {
                intent_id = intent_id;
                receipt_type = rollback_receipt;
                summary = "Rollback of \"" <> intent.action <> "\" completed successfully";
                payload = object (
                    field "action" (text intent.action) (
                      field "connectorType" (text (type_or_mock connector)) (
                        field "rollbackAttemptId" (text (env.id_text attempt_id)) (
                          field "result" result.payload (
                            field "attempts" (number (env.number_of attempt_number))
                              (field "originalExecution" execution end))))));
              })
              w.receipts;
      }
      finish ← ask env.clock
      emit_audit_event env (record {
        action = "rollback.completed";
        entity_type = "intent";
        entity_id = intent_id;
        actor_type = system;
        actor_id = "system";
        workspace_id = ws;
        metadata = some (
            object (
              field "rollbackAttemptId" (text (env.id_text attempt_id))
                (field "duration" (number (env.number_of (finish - start))) end)));
      })
      observe "rollback.completed"

    -- The last attempt has failed.
    unfoldable pub abandon : Error → Action env (Unit {0})
    unfolding update_attempt
    abandon e = do
      update_attempt env attempt_id λ r. record r {
        status = failed_rollback;
        result = some (
            object (
              field "error" (text (message_of env e))
                (field "attempts" (number (env.number_of attempt_number)) end)));
      }
      transition_intent env intent_id ws rollback_failed "system" system
      emit_audit_event env (record {
        action = "rollback.failed";
        entity_type = "intent";
        entity_id = intent_id;
        actor_type = system;
        actor_id = "system";
        workspace_id = ws;
        metadata = some (
            object (
              field "rollbackAttemptId" (text (env.id_text attempt_id)) (
                field "error" (text (message_of env e))
                  (field "attempts" (number (env.number_of attempt_number)) end))));
      })
      observe "rollback.failed"

    unfoldable pub on_rollback_error : Error → Action env (Unit {0})
    unfolding abandon update_attempt
    on_rollback_error e =
        (if leb max_attempts attempt_number
          then abandon e
          else update_attempt env attempt_id λ r. record r {
            result = some (
                object (
                  field "lastError" (text (message_of env e))
                    (field "attempts" (number (env.number_of attempt_number)) end)));
          })
        >> raise e

  unfoldable pub process_rollback : ℕ → ℕ → ℕ → ℕ → ℕ → Action env (Unit {0})
  unfolding undo on_rollback_error update_attempt get_execution_context
      build_connector_runtime_context
  process_rollback intent_id attempt_id ws attempts_made max_attempts = do
    update_attempt env attempt_id λ r. record r { status = in_progress_rollback }
    observe "rollback.started"
    row ← query λ w. env.db.find_first (intent_is intent_id) w.intents
    intent ← or_raise row record_missing
    connector ← query (connector_of env intent)
    job ← query λ w. env.db.find_first (job_of intent_id) w.execution_jobs
    receipts ← query λ w. env.db.find_many (λ (r : Receipt). r.intent_id == intent_id) w.receipts
    c ←
        or_raise (env.registered (type_or_mock connector))
          (thrown ("Connector type \"" <> type_or_mock connector <> "\" is not registered"))
    rollback ← or_raise c.rollback (
        thrown (
          "Connector type \""
          <> type_or_mock connector
          <> "\" does not implement rollback execution"))
    context ← settle (build_connector_runtime_context env ws intent.environment connector)
    try_catch
        (undo intent_id attempt_id ws (attempts_made + 1) max_attempts rollback intent connector
          (get_execution_context job receipts) context)
        (on_rollback_error intent_id attempt_id ws (attempts_made + 1) max_attempts)
