-- ===== src/Connectors.antt =====
-- apps/api/src/modules/connectors/framework/runtime-context.ts, and the lookup of an intent's
-- connector that the simulation and the workers share.
pub mod Secrets
pub mod Remote
pub mod Github
pub mod Http
pub mod Mock
pub mod Registry
pub mod Routes
use vowgrid_api.Common.{ℕ, String, ◌<>◌, Option, none, some, or_default, ◌==◌}
use vowgrid_api.Connectors.Secrets.{decrypt_connector_config}
use vowgrid_api.Env.{Env, Settled, resolved, threw, ConnectorRuntimeContext}
use vowgrid_api.Json.{Json, object, end}
use vowgrid_api.Rows.{Intent, Connector}
use vowgrid_api.States.{state_name}
use vowgrid_api.World.{
  World, Error, not_found, validation, conflict, unauthorized, forbidden, payment_required,
  billing_configuration, thrown, invalid_state_transition, record_missing, unique_violation,
}

-- `include: { connector: true }`
abbrev pub connector_of : (env : Env) → Intent → World env → Option Connector
connector_of env intent w = elim intent.connector_id [
  | none ↦ none
  | some c ↦ env.db.find_first (λ (x : Connector). x.id == c) w.connectors
]

-- `intent.connector?.type ?? 'mock'`
abbrev pub type_or_mock : Option Connector → String
type_or_mock none = "mock"
type_or_mock (some c) = c.connector_type

-- `(intent.parameters ?? {})`
abbrev pub parameters_of : Intent → Json
parameters_of intent = or_default intent.parameters (object end)

abbrev config_of : Option Connector → Option Json
config_of none = none
config_of (some c) = c.config

abbrev context_of : ℕ → String → Json → Option Connector → ConnectorRuntimeContext
context_of ws environment config none = record {
  connector_id = none;
  connector_name = "Mock connector";
  connector_type = "mock";
  workspace_id = ws;
  environment = environment;
  config = config;
}
context_of ws environment config (some c) = record {
  connector_id = some c.id;
  connector_name = c.name;
  connector_type = c.connector_type;
  workspace_id = ws;
  environment = environment;
  config = config;
}

-- A configuration that does not decrypt throws.
unfoldable pub build_connector_runtime_context :
    Env → ℕ → String → Option Connector → Settled ConnectorRuntimeContext
unfolding decrypt_connector_config
build_connector_runtime_context env ws environment connector =
    elim (decrypt_connector_config env (config_of connector)) [
      | threw e ↦ threw e
      | resolved config ↦ resolved (context_of ws environment config connector)
    ]

-- `error.message`
abbrev pub message_of : Env → Error → String
message_of env (not_found entity id) = entity <> " not found: " <> env.id_text id
message_of env (validation m) = m
message_of env (conflict m) = m
message_of env (unauthorized m) = m
message_of env (forbidden m) = m
message_of env (payment_required m) = m
message_of env (billing_configuration m) = m
message_of env (thrown m) = m
message_of env (invalid_state_transition s t) =
    "Invalid state transition from \"" <> state_name s <> "\" to \"" <> state_name t <> "\""
message_of env record_missing = "No record was found for an update."
message_of env unique_violation = "Unique constraint failed on the fields: (`intentId`)"
