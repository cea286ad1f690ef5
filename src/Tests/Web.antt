-- ===== src/Tests/Web.antt =====
-- Examples: a sign-in through Google, and a form of the web application.
use vowgrid_api.Common.{◌+◌, ◌≡◌, ◌⊎◌, refl, String, true, false, none, some, [], ◌∷◌, str_eq}
use vowgrid_api.Env.{Env, resolved, supported, unsupported}
use vowgrid_api.Json.{Json, bool, object, end, field, get_field}
use vowgrid_api.Auth.Tables.{truthy}
use vowgrid_api.Connectors.Remote.{Request, Response, entry}
use vowgrid_api.Tests.{platform, office}
use vowgrid_api.Tests.Remote.{net}
use vowgrid_api.Connectors.Secrets.{
  encrypt_connector_config, has_connector_config, is_encrypted_connector_config,
}
use vowgrid_api.Billing.Usage.{get_current_usage_metrics}
use vowgrid_api.Billing.Entitlements.{assert_can_create_connector, get_billing_account}
use vowgrid_api.Connectors.Routes.{CreateConnectorInput, ConnectorResponse, create_connector}
use vowgrid_api.Connectors.Routes.Laws.{Registered, create_connector-Sound}
use vowgrid_api.World.{World, run_steps}
use vowgrid_api.States.{draft}
use vowgrid_api.Web.Csrf.{
  RequestContext, token, get_submitted_token, expected_origin, configured_origin,
  assert_valid_csrf_token, assert_valid_csrf_token-Trusted,
}
use vowgrid_api.Web.Oauth.{WebSettings, google, text_entry}
use vowgrid_api.Web.Oauth.Exchange.{OauthProfile, exchange_google_code, is_truthy, json_or_throw}
use vowgrid_api.Web.Oauth.Identity.{exchange_google_code-Verified}

abbrev settings : WebSettings
settings = record {
  net = net;
  client_id = λ _. some "client";
  client_secret = λ _. some "secret";
  issuer = none;
  scopes = none;
  web_base_url = some "https://app";
  is_production = true;
  with_params = λ url fields. resolved url;
  resolve_url = λ path base. resolved base;
  form_text = λ fields. "form";
  before_at = λ s. s;
}

-- Every answer is the one about a verified user, with an access token.
abbrev signed_in : Env
signed_in = record platform {
  parse_json = λ _. resolved (
      object (
        field "access_token" (Json.text "t") (
          field "sub" (Json.text "1") (
            field "email" (Json.text "a@b")
              (field "email_verified" (bool true) (field "name" (Json.text "Ana") end))))));
}

abbrev profile : OauthProfile
profile = record { provider = google; provider_account_id = "1"; email = "a@b"; name = "Ana" }

exchange_google_code-Verified_example :
    (q : Request) × (r : Response) × (user : Json) × (email : String) × (net.fetch (0 + 1) q
      ≡ resolved r)
    × (r.is_ok ≡ true)
    × (json_or_throw signed_in settings r ≡ resolved user)
    × (is_truthy signed_in settings (entry "email_verified" user) ≡ true)
    × (text_entry "email" user ≡ some email)
    × (profile.email ≡ signed_in.lower (signed_in.trim email))
unfolding exchange_google_code get_field
exchange_google_code-Verified_example =
    exchange_google_code-Verified signed_in settings "code" "https://app" 0 profile refl

abbrev request : RequestContext
request = record {
  cookie_token = some "csrf";
  origin = some "https://app";
  forwarded_proto = none;
  forwarded_host = some "app";
  host = none;
  web_base_url = none;
  is_production = true;
}

assert_valid_csrf_token-Trusted_example :
    (request.cookie_token ≡ some (get_submitted_token platform (token "csrf")))
    × (str_eq (get_submitted_token platform (token "csrf")) "" ≡ false)
    × ((origin configured : String)
        → truthy request.origin ≡ some origin
        → configured_origin request ≡ some configured
        → (expected_origin request ≡ some origin) ⊎ (origin ≡ configured))
unfolding assert_valid_csrf_token expected_origin configured_origin
assert_valid_csrf_token-Trusted_example =
    assert_valid_csrf_token-Trusted platform (token "csrf") request refl

abbrev asked : CreateConnectorInput
asked = record {
  name = "Hub";
  connector_type = "mock";
  description = none;
  config = some (field "token" (Json.text "t") end);
  rollback_support = unsupported;
  enabled = true;
}

abbrev branch : World platform
branch =
    let w = office draft in
    record w {
      billing = record (w.billing) {
        workspaces_table = record { id = 7; name = "Acme"; slug = "acme"; created_at = 0 } ∷ [];
      };
    }

abbrev answered : ConnectorResponse
answered = record {
  connector = record {
    id = 0;
    name = "Hub";
    connector_type = "mock";
    rollback_support = supported;
    config = encrypt_connector_config platform "token" (some (field "token" (Json.text "t") end));
    workspace_id = 7;
    enabled = true;
  };
  has_config = true;
  config_encrypted = true;
}

create_connector-Sound_example :
    Registered platform 7 asked branch answered (create_connector platform 7 asked branch).1
unfolding create_connector run_steps assert_can_create_connector get_billing_account
    get_current_usage_metrics encrypt_connector_config has_connector_config
    is_encrypted_connector_config
create_connector-Sound_example = create_connector-Sound platform 7 asked branch {r = answered} refl
