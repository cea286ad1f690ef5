-- ===== src/Connectors/Routes.antt =====
-- The registration of a connector in apps/api/src/modules/connectors/routes.ts.
pub mod Laws
use vowgrid_api.Common.{
  ℕ, ◌≡◌, refl, sym, ap, ◌∙◌, String, ◌<>◌, Bool, true, false, not, ◌&&◌, Option, none, some, List,
  map, leb, ◌==◌, or_default, arith,
}
use mathlib.Core.Option.{some-injective}
use vowgrid_api.Env.{
  Env, IConnector, RollbackSupport, ConnectorValidateResult, Settled, resolved, threw,
}
use vowgrid_api.Json.{Json, Fields, object, end}
use vowgrid_api.Rows.{Connector}
use vowgrid_api.Billing.Entitlements.{assert_can_create_connector}
use vowgrid_api.Connectors.Secrets.{
  encrypt_connector_config, has_connector_config, is_encrypted_connector_config,
}
use vowgrid_api.World.{
  World, Action, Error, Result, ok, run_steps, validation, ◌>>=◌, ◌>>◌, pure, query, write,
  or_raise, raise_if, ask, settle,
}
use vowgrid_api.World.Yields.{Yields, Yields-bind, Yields-then}

-- The rollback support of a request is taken and not used.
pub record CreateConnectorInput : Type 0 where
  pub name : String
  pub connector_type : String
  pub description : Option String
  pub config : Option Fields
  pub rollback_support : RollbackSupport
  pub enabled : Bool

pub record ConnectorResponse : Type 0 where
  pub connector : Connector
  pub has_config : Bool
  pub config_encrypted : Bool

module _ (env : Env) where
  abbrev has_length : ℕ → ℕ → String → Bool
  has_length least most s = leb least (env.text_length s) && leb (env.text_length s) most

  unfoldable pub create_connector_schema : CreateConnectorInput → Bool
  create_connector_schema input =
      has_length 1 255 input.name
      && has_length 1 50 input.connector_type
      && elim input.description [ none ↦ true | some s ↦ has_length 0 2000 s ]

  abbrev pub config_or_empty : Option Fields → Json
  config_or_empty none = object end
  config_or_empty (some fs) = object fs

  -- The configuration is checked where the connector checks any.
  unfoldable pub check_config : IConnector → CreateConnectorInput → Action env (Unit {0})
  check_config runtime input = elim runtime.validate_config [
    | none ↦ pure tt
    | some validate ↦ do
      checked ← settle (validate (config_or_empty input.config))
      raise_if (not checked.valid)
          (validation ("Connector config for \"" <> input.connector_type <> "\" is invalid."))
  ]

  abbrev pub connector_row : CreateConnectorInput → IConnector → ℕ → String → ℕ → Connector
  connector_row input runtime ws iv id = record {
    id = id;
    name = input.name;
    connector_type = input.connector_type;
    rollback_support = runtime.rollback_support;
    config = encrypt_connector_config env iv input.config;
    workspace_id = ws;
    enabled = input.enabled;
  }

  abbrev config_of : Connector → Json
  config_of c = or_default c.config Json.null

  abbrev pub respond : Connector → ConnectorResponse
  respond c = record {
    connector = c;
    has_config = has_connector_config env (config_of c);
    config_encrypted = is_encrypted_connector_config env (config_of c);
  }

  -- `prisma.connector.create` and the answer about the row.
  unfoldable pub store_connector :
      ℕ → CreateConnectorInput → IConnector → String → Action env ConnectorResponse
  store_connector ws input runtime iv = do
    id ← query λ w. env.db.next_id (λ (c : Connector). c.id) w.connectors
    write λ w. record w {
      connectors = env.db.create (connector_row input runtime ws iv id) w.connectors;
    }
    pure (respond (connector_row input runtime ws iv id))

  unfoldable pub create_connector : ℕ → CreateConnectorInput → Action env ConnectorResponse
  unfolding create_connector_schema check_config store_connector
  create_connector ws input = do
    raise_if (not (create_connector_schema input)) (validation "Invalid connector data")
    runtime ← or_raise (env.registered input.connector_type) (
        validation (
          "Connector type \"" <> input.connector_type
          <> "\" is not available in the current runtime."))
    check_config runtime input
    assert_can_create_connector env ws input.enabled
    iv ← ask env.random_token
    store_connector ws input runtime iv

  -- The connectors of a workspace, as the list shows them; the order is that of the database.
  unfoldable pub list_connectors : ℕ → Action env (List ConnectorResponse)
  list_connectors ws =
      query
        λ w. map respond (env.db.find_many (λ (c : Connector). c.workspace_id == ws) w.connectors)
