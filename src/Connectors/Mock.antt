-- ===== src/Connectors/Mock.antt =====
-- apps/api/src/modules/connectors/framework/mock.connector.ts: the connector of tests and demos.
use vowgrid_api.Common.{ℕ, String, ◌<>◌, true, none, some, [], ◌∷◌, ◌++◌, if◌then◌else◌, str_eq}
use vowgrid_api.Env.{
  Settled, resolved, threw, low, full, supported, IConnector, ConnectorValidateResult,
  ConnectorSimulateResult, ConnectorExecuteResult, ConnectorRollbackResult, ConnectorRuntimeContext,
}
use vowgrid_api.Json.{Json, text, array, object, nil, cons, end, field}
use vowgrid_api.Connectors.Remote.{Remote, is_empty, error_if, validation_of}

module _ (net : Remote) where
  unfoldable pub validate :
      String → Json → ConnectorRuntimeContext → ℕ → Settled ConnectorValidateResult
  validate action parameters context t = resolved (
      validation_of (
        error_if (is_empty action) "Action is required"
        ++ error_if (str_eq action "fail_validation") "Intentional validation failure for testing"))

  unfoldable pub simulate :
      String → Json → ConnectorRuntimeContext → ℕ → Settled ConnectorSimulateResult
  simulate action parameters context t = resolved (record {
    summary = "Mock simulation of \"" <> action <> "\" completed successfully";
    estimated_impact = low;
    risk_level = low;
    reversibility = full;
    affected_resources = array (
        cons
          (object (
            field "type" (text "mock_resource")
              (field "id" (text "mock-001") (field "name" (text "Mock Resource") end))))
          nil);
    diff_preview = some (
        object (
          field "before" (object (field "status" (text "current") end)) (
            field "after"
              (object (field "status" (text "updated") (field "action" (text action) end))) end)));
    warnings =
        if str_eq action "risky_action"
        then some ("This is a simulated risky action" ∷ [])
        else none;
  })

  unfoldable pub execute :
      String → Json → ConnectorRuntimeContext → ℕ → Settled ConnectorExecuteResult
  execute action parameters context t =
      if str_eq action "fail_execution"
      then threw "Intentional execution failure for testing"
      else resolved (record {
        success = true;
        payload = object (
            field "action" (text action) (
              field "parameters" parameters (
                field "executedAt" (text (net.iso_at t))
                  (field "mockResult" (text "Operation completed successfully") end))));
        duration = net.elapsed t;
      })

  unfoldable pub rollback :
      String → Json → Json → ConnectorRuntimeContext → ℕ → Settled ConnectorRollbackResult
  rollback action parameters execution_data context t = resolved (record {
    success = true;
    payload = object (
        field "action" (text ("rollback_" <> action)) (
          field "rolledBackAt" (text (net.iso_at t))
            (field "originalExecution" execution_data end)));
  })

  abbrev pub mock_connector : IConnector
  mock_connector = record {
    rollback_support = supported;
    validate_config = none;
    validate = validate;
    simulate = simulate;
    execute = execute;
    rollback = some rollback;
  }
