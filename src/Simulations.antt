-- ===== src/Simulations.antt =====
-- apps/api/src/modules/simulations/service.ts: the dry run of a proposed intent.
use vowgrid_api.Common.{ℕ, String, ◌<>◌, ◌==◌, true, false, not, none, some, [], or_default}
use vowgrid_api.Env.{
  Env, ConnectorSimulateResult, Level, low, medium, high, critical, Reversibility, full,
  partly_reversible, not_reversible,
}
use vowgrid_api.Json.{text, object, end, field}
use vowgrid_api.Rows.{SimulationResult, ActorType}
use vowgrid_api.States.{state_name, state_eq, proposed, simulated}
use vowgrid_api.World.{
  Action, not_found, validation, unique_violation, ◌>>=◌, ◌>>◌, pure, query, write, or_raise,
  raise_if, ask, settle,
}
use vowgrid_api.Audits.{emit_audit_event}
use vowgrid_api.Intents.{intent_in, transition_intent}
use vowgrid_api.Connectors.{
  connector_of, type_or_mock, parameters_of, build_connector_runtime_context,
}

abbrev level_name : Level → String
level_name low = "low"
level_name medium = "medium"
level_name high = "high"
level_name critical = "critical"

abbrev reversibility_name : Reversibility → String
reversibility_name full = "full"
reversibility_name partly_reversible = "partial"
reversibility_name not_reversible = "none"

unfoldable pub simulation_row : ℕ → ConnectorSimulateResult → SimulationResult
simulation_row intent_id r = record {
  intent_id = intent_id;
  summary = r.summary;
  estimated_impact = r.estimated_impact;
  risk_level = r.risk_level;
  reversibility = r.reversibility;
  affected_resources = r.affected_resources;
  diff_preview = r.diff_preview;
  warnings = or_default r.warnings [];
}

module _ (env : Env) where
  -- `prisma.simulationResult.create`; the intent's id is unique.
  unfoldable pub store_simulation : SimulationResult → Action env (Unit {0})
  store_simulation row = do
    clash ← query λ w.
        env.db.find_first (λ (r : SimulationResult). r.intent_id == row.intent_id)
          w.simulation_results
    raise_if (elim clash [ none ↦ false | some _ ↦ true ]) unique_violation
    write λ w. record w { simulation_results = env.db.create row w.simulation_results }

  unfoldable pub simulate_intent : ℕ → ℕ → String → ActorType → Action env SimulationResult
  unfolding build_connector_runtime_context simulation_row store_simulation
  simulate_intent intent_id ws actor_id actor_type = do
    found ← query λ w. env.db.find_first (intent_in intent_id ws) w.intents
    intent ← or_raise found (not_found "Intent" intent_id)
    raise_if (not (state_eq intent.status proposed)) (
        validation (
          "Intent must be in \"proposed\" state to simulate. Current state: \""
          <> state_name intent.status
          <> "\""))
    connector ← query (connector_of env intent)
    c ←
        or_raise (env.registered (type_or_mock connector))
          (validation ("Connector type \"" <> type_or_mock connector <> "\" is not registered"))
    context ← settle (build_connector_runtime_context env ws intent.environment connector)
    checked ← ask (c.validate intent.action (parameters_of intent) context)
    verdict ← settle checked
    raise_if (not verdict.valid) (validation "Connector validation failed")
    answer ← ask (c.simulate intent.action (parameters_of intent) context)
    result ← settle answer
    store_simulation (simulation_row intent_id result)
    transition_intent env intent_id ws simulated actor_id actor_type
    emit_audit_event env (record {
      action = "intent.simulated";
      entity_type = "intent";
      entity_id = intent_id;
      actor_type = actor_type;
      actor_id = actor_id;
      workspace_id = ws;
      metadata = some (
          object (
            field "riskLevel" (text (level_name result.risk_level)) (
              field "reversibility" (text (reversibility_name result.reversibility))
                (field "estimatedImpact" (text (level_name result.estimated_impact)) end))));
    })
    pure (simulation_row intent_id result)
