-- ===== src/Connectors/Http/Calls.antt =====
-- `simulate`, `execute` and `rollback` of apps/api/src/modules/connectors/framework/http.connector.ts.
use vowgrid_api.Common.{
  ℕ, String, ◌<>◌, true, Option, none, some, [], ◌∷◌, if◌then◌else◌, str_eq, includes,
}
use vowgrid_api.Env.{
  Env, Settled, resolved, threw, low, medium, high, partly_reversible, not_reversible, partial,
  IConnector, ConnectorSimulateResult, ConnectorExecuteResult, ConnectorRollbackResult,
  ConnectorRuntimeContext,
}
use vowgrid_api.Json.{Json, null, number, text, array, object, Items, nil, cons, Fields, end, field}
use vowgrid_api.Connectors.Remote.{Remote, Request, Response, ◌>>=◌, entry}
use vowgrid_api.Connectors.Http.{
  HttpConfig, Headers, method_or, given_url, url_json, parse_config, build_headers, parse_response,
  build_request_body, validate_config, validate,
}

module _ (env : Env) (net : Remote) where
  abbrev key_items : Fields → Items
  key_items end = nil
  key_items (field k v fs) = cons (text k) (key_items fs)

  abbrev keys_of : Json → Items
  keys_of (object fs) = key_items fs
  keys_of _ = nil

  unfoldable pub simulate :
      String → Json → ConnectorRuntimeContext → ℕ → Settled ConnectorSimulateResult
  unfolding parse_config
  simulate action parameters context t =
      let c = parse_config env net context.config in
      let method = method_or env c.method (entry "method" parameters) in
      let undo = given_url c.rollback_url in
      resolved (record {
        summary = "HTTP connector will " <> method <> " " <> c.url <> " for \"" <> action <> "\".";
        estimated_impact = if str_eq method "GET" then low else medium;
        risk_level =
            if str_eq method "DELETE" then high else if str_eq method "PATCH" then medium else low;
        reversibility = elim undo [ none ↦ not_reversible | some _ ↦ partly_reversible ];
        affected_resources = array (
            cons
              (object (
                field "type" (text "http_endpoint")
                  (field "id" (text c.url) (field "name" (text context.connector_name) end))))
              nil);
        diff_preview = some (
            object (
              field "method" (text method) (
                field "url" (text c.url) (
                  field "action" (text action)
                    (field "payloadKeys" (array (keys_of parameters)) end)))));
        warnings = some (
            elim undo [
              | none ↦ "No rollback URL is configured, so HTTP delivery is treated as forward-only."
              | some _ ↦
                  "Rollback will call the configured rollback URL with the recorded execution context."
            ]
            ∷ []);
      })

  -- The request of `execute`, whose body `GET` and `DELETE` have none of.
  unfoldable pub execute_request : HttpConfig → String → String → Json → Headers → Request
  unfolding build_request_body
  execute_request c method action parameters headers = record {
    url = c.url;
    method = method;
    headers = headers;
    body =
        if includes ("GET" ∷ "DELETE" ∷ []) method
        then none
        else some (build_request_body env net action parameters);
    timeout_ms = some c.timeout_ms;
  }

  abbrev executed : HttpConfig → String → ℕ → Response → Settled ConnectorExecuteResult
  unfolding parse_response
  executed c method t response =
      if response.is_ok
      then resolved (record {
        success = true;
        payload = object (
            field "request" (object (field "url" (text c.url) (field "method" (text method) end))) (
              field "response"
                (object (
                  field "status" (number (net.to_double response.status))
                    (field "body" (parse_response env net response) end)))
                (field "rollbackUrl" (url_json c.rollback_url) end)));
        duration = net.elapsed t;
      })
      else threw
          ("HTTP connector request failed with status " <> env.decimal response.status <> ".")

  unfoldable pub execute :
      String → Json → ConnectorRuntimeContext → ℕ → Settled ConnectorExecuteResult
  unfolding parse_config build_headers execute_request parse_response ◌>>=◌
  execute action parameters context t = do
    let c = parse_config env net context.config
    let method = method_or env c.method (entry "method" parameters)
    headers ← build_headers env net c
    response ← net.fetch t (execute_request c method action parameters headers)
    executed c method t response

  abbrev value_or_null : Option Json → Json
  value_or_null none = null
  value_or_null (some v) = v

  abbrev pub rollback_request : HttpConfig → String → String → Json → Json → Headers → Request
  rollback_request c url action parameters execution_data headers = record {
    url = url;
    method = c.rollback_method;
    headers = headers;
    body = some (
        env.stringify (
          object (
            field "action" (text action) (
              field "parameters" parameters (
                field "executionData" execution_data (
                  field "rollbackPayload" (value_or_null (entry "rollbackPayload" parameters))
                    end))))));
    timeout_ms = some c.timeout_ms;
  }

  abbrev rollback_result : HttpConfig → String → Response → Settled ConnectorRollbackResult
  unfolding parse_response
  rollback_result c url response =
      if response.is_ok
      then resolved (record {
        success = true;
        payload = object (
            field "rollbackUrl" (text url) (
              field "rollbackMethod" (text c.rollback_method)
                (field "response" (parse_response env net response) end)));
      })
      else threw
          ("HTTP connector rollback failed with status " <> env.decimal response.status <> ".")

  -- The call of the configured URL.
  unfoldable pub call_rollback :
      HttpConfig → String → String → Json → Json → ℕ → Settled ConnectorRollbackResult
  unfolding build_headers parse_response ◌>>=◌
  call_rollback c url action parameters execution_data t = do
    headers ← build_headers env net c
    response ← net.fetch t (rollback_request c url action parameters execution_data headers)
    rollback_result c url response

  unfoldable pub rollback :
      String → Json → Json → ConnectorRuntimeContext → ℕ → Settled ConnectorRollbackResult
  unfolding parse_config call_rollback
  rollback action parameters execution_data context t =
      let c = parse_config env net context.config in
      elim (given_url c.rollback_url) [
        | none ↦ threw "HTTP connector rollback requires rollbackUrl in connector config."
        | some url ↦ call_rollback c url action parameters execution_data t
      ]

  abbrev pub http_connector : IConnector
  http_connector = record {
    rollback_support = partial;
    validate_config = some (validate_config env net);
    validate = validate env net;
    simulate = simulate;
    execute = execute;
    rollback = some rollback;
  }
