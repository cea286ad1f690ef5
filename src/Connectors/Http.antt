-- ===== src/Connectors/Http.antt =====
-- apps/api/src/modules/connectors/framework/http.connector.ts: one endpoint, and one that undoes.
pub mod Calls
pub mod Laws
use vowgrid_api.Common.{
  ℕ, String, ◌<>◌, Bool, true, false, not, ◌&&◌, ◌||◌, Option, none, some, List, [], ◌∷◌, ◌++◌,
  if◌then◌else◌, str_eq, includes, leb,
}
use vowgrid_api.Env.{
  Env, Settled, resolved, threw, low, medium, high, partly_reversible, not_reversible, partial,
  IConnector, ConnectorValidateResult, ConnectorSimulateResult, ConnectorExecuteResult,
  ConnectorRollbackResult, ConnectorRuntimeContext,
}
use vowgrid_api.Json.{
  Json, null, bool, number, text, array, object, Items, nil, cons, Fields, end, field,
}
use vowgrid_api.Connectors.Remote.{
  Remote, Request, Response, ◌>>=◌, entry, trimmed, is_empty, filled_text, error_if, validation_of,
}

pub data HttpAuth : Type 0 where
  no_auth : HttpAuth
  bearer : String → HttpAuth
  -- the user's name and the password
  basic : String → String → HttpAuth

pub record HttpConfig : Type 0 where
  pub url : String
  pub method : String
  pub headers : List (String × String)
  pub timeout_ms : ℕ
  pub auth : HttpAuth
  pub rollback_url : Option String
  pub rollback_method : String

abbrev pub Headers : Type 0
Headers = List (String × String)

-- `parseHeaders`
abbrev filled_entries : Env → Fields → Headers
filled_entries env end = []
filled_entries env (field k v fs) =
    let later = filled_entries env fs in
    elim (filled_text env (some v)) [ none ↦ later | some s ↦ (k, s) ∷ later ]

abbrev parse_headers : Env → Option Json → Headers
parse_headers env (some (object fs)) = filled_entries env fs
parse_headers env _ = []

-- `asRecord`
abbrev as_record : Option Json → Json
as_record (some (object fs)) = object fs
as_record _ = object end

abbrev untrimmed : Option Json → String
untrimmed (some (text s)) = s
untrimmed _ = ""

abbrev parse_auth : Env → Json → HttpAuth
parse_auth env auth =
    let kind = untrimmed (entry "type" auth) in
    if str_eq kind "bearer"
    then bearer (trimmed env (entry "token" auth))
    else if str_eq kind "basic"
    then basic (trimmed env (entry "username" auth)) (untrimmed (entry "password" auth))
    else no_auth

-- `trim().toUpperCase()` of a filled text, or the default.
abbrev pub method_or : Env → String → Option Json → String
method_or env fallback v = elim (filled_text env v) [
  | none ↦ fallback
  | some s ↦ env.upper (env.trim s)
]

abbrev url_or_null : Env → Option Json → Option String
url_or_null env (some (text s)) = some (env.trim s)
url_or_null env _ = none

-- `if (config.rollbackUrl)`
abbrev pub given_url : Option String → Option String
given_url none = none
given_url (some s) = if is_empty s then none else some s

abbrev pub url_json : Option String → Json
url_json none = null
url_json (some s) = text s

module _ (env : Env) (net : Remote) where
  abbrev timeout_of : Option Json → ℕ
  timeout_of (some (number d)) =
      if net.is_finite d then (if leb (net.trunc d) 1000 then 1000 else net.trunc d) else 10000
  timeout_of _ = 10000

  unfoldable pub parse_config : Json → HttpConfig
  parse_config config = record {
    url = trimmed env (entry "url" config);
    method = method_or env "POST" (entry "method" config);
    headers = parse_headers env (entry "headers" config);
    timeout_ms = timeout_of (entry "timeoutMs" config);
    auth = parse_auth env (as_record (entry "auth" config));
    rollback_url = url_or_null env (entry "rollbackUrl" config);
    rollback_method = method_or env "POST" (entry "rollbackMethod" config);
  }

  abbrev authorize : HttpAuth → Headers → Settled Headers
  authorize no_auth headers = resolved headers
  authorize (bearer token) headers = net.set_header "Authorization" ("Bearer " <> token) headers
  authorize (basic username password) headers =
      net.set_header "Authorization" ("Basic " <> net.base64 (username <> ":" <> password)) headers

  unfoldable pub build_headers : HttpConfig → Settled Headers
  unfolding ◌>>=◌
  build_headers c = do
    given ← net.new_headers c.headers
    accepting ← net.set_header "Accept" "application/json, text/plain;q=0.9, */*;q=0.8" given
    typed ←
        if net.has_header "Content-Type" accepting
        then resolved accepting
        else net.set_header "Content-Type" "application/json" accepting
    authorize c.auth typed

  abbrev validate_url : String → String → List String
  validate_url value label =
      if is_empty value then (label <> " is required.") ∷ [] else elim (net.url_protocol value) [
        | none ↦ (label <> " must be a valid absolute URL.") ∷ []
        | some protocol ↦
            error_if (not (includes ("http:" ∷ "https:" ∷ []) protocol))
              (label <> " must use http or https.")
      ]

  -- `response.text()`, read as JSON where the content type says so and it is.
  unfoldable pub parse_response : Response → Json
  parse_response r =
      if is_empty r.body
      then null
      else if elim r.content_type [ none ↦ false | some t ↦ net.contains t "application/json" ]
      then elim (env.parse_json r.body) [ threw e ↦ text r.body | resolved v ↦ v ]
      else text r.body

  abbrev with_payload : Option Json → String → Json → String
  with_payload (some v) action parameters = env.stringify v
  with_payload none action parameters =
      env.stringify (object (field "action" (text action) (field "parameters" parameters end)))

  abbrev body_or_payload : Option Json → String → Json → String
  body_or_payload (some (text s)) action parameters = s
  body_or_payload _ action parameters = with_payload (entry "payload" parameters) action parameters

  unfoldable pub build_request_body : String → Json → String
  build_request_body action parameters = body_or_payload (entry "body" parameters) action parameters

  abbrev auth_errors : HttpAuth → List String
  auth_errors no_auth = []
  auth_errors (bearer token) = error_if (is_empty token) "Bearer authentication requires a token."
  auth_errors (basic username password) =
      error_if (is_empty username || is_empty password)
        "Basic authentication requires both username and password."

  abbrev config_errors : HttpConfig → List String
  config_errors c =
      validate_url c.url "Connector url"
      ++ auth_errors c.auth
      ++ elim (given_url c.rollback_url) [ none ↦ [] | some url ↦ validate_url url "Rollback url" ]

  unfoldable pub validate_config : Json → Settled ConnectorValidateResult
  unfolding parse_config
  validate_config config = resolved (validation_of (config_errors (parse_config config)))

  abbrev method_errors : Option Json → List String
  method_errors (some (text s)) =
      let method = env.upper (env.trim s) in
      error_if
        (not (is_empty method)
          && not (includes ("GET" ∷ "POST" ∷ "PUT" ∷ "PATCH" ∷ "DELETE" ∷ []) method))
        ("Unsupported HTTP method \"" <> method <> "\".")
  method_errors _ = []

  unfoldable pub validate :
      String → Json → ConnectorRuntimeContext → ℕ → Settled ConnectorValidateResult
  unfolding parse_config
  validate action parameters context t = resolved (
      validation_of (
        config_errors (parse_config context.config)
        ++ error_if (is_empty (env.trim action)) "Action is required."
        ++ method_errors (entry "method" parameters)))
