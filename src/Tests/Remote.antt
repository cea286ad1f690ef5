-- ===== src/Tests/Remote.antt =====
-- Examples: a remote system that answers every request, a payment provider and what they meet.
use vowgrid_api.Common.{
  ℕ, ◌≤◌, ◌+◌, ◌/◌, ◌==◌, ◌*◌, leb, ◌≡◌, ◌↔◌, ◌⊎◌, refl, true, false, none, some, [], ◌∷◌, String,
  str_eq, if◌then◌else◌, includes, arith,
}
use vowgrid_api.Common.Int.{pos}
use vowgrid_api.Env.{
  Env, resolved, threw, ConnectorRuntimeContext, ConnectorExecuteResult, ConnectorSimulateResult,
  partly_reversible, not_reversible, low, medium,
}
use vowgrid_api.Json.{Json, number, null, object, array, nil, cons, Fields, end, field, get_field}
use vowgrid_api.Prisma.{in_memory_lawful}
use vowgrid_api.States.{draft}
use vowgrid_api.Tests.{platform, office}
use vowgrid_api.Auth.Tables.{truthy}
use vowgrid_api.Connectors.Remote.{Remote, Request, Response}
use vowgrid_api.Connectors.Github as Github
use vowgrid_api.Connectors.Github.Calls as Hub
use vowgrid_api.Connectors.Github.Laws as GithubLaws
use vowgrid_api.Connectors.Github.Laws.{Serves, validate-execute}
use vowgrid_api.Connectors.Http as Http
use vowgrid_api.Connectors.Http.Calls as Web
use vowgrid_api.Connectors.Http.Laws as HttpLaws
use vowgrid_api.Connectors.Http.Laws.{config, method, simulate-rollback, execute-answered}
use vowgrid_api.Billing.Rows.{launch, pro, monthly}
use vowgrid_api.Billing.Catalog.{plan_catalog}
use vowgrid_api.Billing.Provider.{Provider, price_of}
use vowgrid_api.Billing.Signature.{
  parse_signature_header, build_mercado_pago_webhook_manifest, sign_mercado_pago_webhook_manifest,
  validate_mercado_pago_webhook_signature, validate_signature-Signed,
}
use vowgrid_api.Billing.Proration.{
  Ratios, ProrationInput, ProrationPreview, IsRounding, calculate_proration_preview,
  calculate_proration_preview-bounded,
}
use vowgrid_api.Billing.Webhook.{
  WebhookInput, duplicate_event, extract_webhook_resource_id, build_webhook_event_key,
}
use vowgrid_api.Billing.Webhook.Sync.{process_mercado_pago_webhook}
use vowgrid_api.Billing.Webhook.Once.{
  process_mercado_pago_webhook-once, process_mercado_pago_webhook-refused,
}
use vowgrid_api.World.{ok, err, validation, unauthorized}

abbrev answer : Fields
answer = field "number" (number 12) (field "id" (number 9) end)

abbrev hub : Env
hub = record platform { parse_json = λ _. resolved (object answer) }

abbrev response : Response
response = record { is_ok = true; status = 200; content_type = none; body = "{}" }

abbrev pub net : Remote
net = record {
  fetch = λ t q. resolved response;
  elapsed = λ t. 3;
  string_of = λ v. "value";
  is_digits = λ s. false;
  spaced = λ s. s;
  url_protocol = λ s. some "https:";
  base64 = λ s. s;
  contains = λ s t. true;
  is_finite = λ d. true;
  trunc = λ d. d;
  to_double = λ n. n;
  iso_at = λ t. "time";
  new_headers = λ h. resolved h;
  set_header = λ k v h. resolved ((k, v) ∷ h);
  has_header = λ k h. false;
}

abbrev context : ConnectorRuntimeContext
context = record {
  connector_id = some 1;
  connector_name = "GitHub";
  connector_type = "github";
  workspace_id = 7;
  environment = "production";
  config = object (
      field "owner" (Json.text "o") (
        field "repo" (Json.text "r") (
          field "token" (Json.text "t") (
            field "url" (Json.text "https://api")
              (field "rollbackUrl" (Json.text "https://undo") end)))));
}

abbrev close_it : Json
close_it = object (field "issueNumber" (number 12) end)

served : Serves hub net
served = λ t q. (response, answer, refl, refl, refl)

validate-execute_example :
    (e : ConnectorExecuteResult) × (Hub.execute hub net "close_issue" close_it context 0
      ≡ resolved e)
    × (e.success ≡ true)
unfolding Github.validate Github.parse_config Github.action_errors Github.number_in get_field
validate-execute_example =
    validate-execute hub net "close_issue" close_it context 0 0
      (record { valid = true; errors = [] }) served refl refl

abbrev executed_with : Fields → ConnectorExecuteResult
executed_with fs = record { success = true; payload = object fs; duration = 3 }

abbrev issue_fields : Fields
issue_fields =
    field "repository" (Json.text "o/r")
      (field "issueId" (number 9) (field "issueNumber" (number 12) end))

abbrev simulation : ConnectorSimulateResult
simulation = record {
  summary = "HTTP connector will POST https://api for \"ping\".";
  estimated_impact = medium;
  risk_level = low;
  reversibility = partly_reversible;
  affected_resources = array (
      cons
        (object (
          field "type" (Json.text "http_endpoint")
            (field "id" (Json.text "https://api") (field "name" (Json.text "GitHub") end))))
        nil);
  diff_preview = some (
      object (
        field "method" (Json.text "POST") (
          field "url" (Json.text "https://api")
            (field "action" (Json.text "ping") (field "payloadKeys" (array nil) end)))));
  warnings =
      some (
        "Rollback will call the configured rollback URL with the recorded execution context." ∷ []);
}

simulate-rollback_example :
    let c = config hub net "ping" (object end) context in
    let undone = Web.rollback hub net "ping" null null context 1 in
    ((simulation.reversibility ≡ not_reversible)
      × (undone ≡ threw "HTTP connector rollback requires rollbackUrl in connector config."))
    ⊎ ((simulation.reversibility ≡ partly_reversible)
        × ((url : String) × (Http.given_url c.rollback_url ≡ some url)
            × HttpLaws.Sends hub net "ping" (object end) context url c.rollback_method 1 undone))
unfolding Web.simulate Http.parse_config get_field
simulate-rollback_example =
    simulate-rollback hub net "ping" (object end) context 0 1 "ping" null null simulation refl

abbrev pinged : ConnectorExecuteResult
pinged = executed_with (
    field "request"
      (object (field "url" (Json.text "https://api") (field "method" (Json.text "POST") end)))
      (field "response" (object (field "status" (number 200) (field "body" (Json.text "{}") end)))
        (field "rollbackUrl" (Json.text "https://undo") end)))

execute-answered_example :
    let c = config hub net "ping" (object end) context in
    let way = method hub net "ping" (object end) context in
    (q : Request) × (r : Response) × (net.fetch 0 q ≡ resolved r)
    × (r.is_ok ≡ true)
    × (q.url ≡ c.url)
    × (q.method ≡ way)
    × (Http.build_headers hub net c ≡ resolved q.headers)
    × ((n : ℕ) × (q.timeout_ms ≡ some n) × (1000 ≤ n))
    × (includes ("GET" ∷ "DELETE" ∷ []) way ≡ true → q.body ≡ none)
unfolding Web.execute get_field
execute-answered_example = execute-answered hub net "ping" (object end) context 0 pinged refl

abbrev provider : Provider
provider = record {
  net = net;
  access_token = some "token";
  webhook_secret = some "secret";
  webhook_url = none;
  return_url = some "https://app";
  api_base_url = "https://pay";
  is_production = true;
  split = λ separator s.
      if str_eq separator ","
      then "ts=1" ∷ "v1=sig" ∷ []
      else if str_eq s "ts=1"
      then "ts" ∷ "1" ∷ []
      else "v1" ∷ "sig" ∷ [];
  hmac_hex = λ secret s. "sig";
  search_params = λ url. resolved (λ name. none);
  id_of = λ s. 7;
  reais = λ cents. cents;
}

validate_signature-Signed_example :
    (validate_mercado_pago_webhook_signature hub provider "pre" (some "ts=1,v1=sig") (some "req")
      ≡ true)
    ↔ ((id ts v1 : String) × (truthy (some "req") ≡ some id)
        × (parse_signature_header hub provider (some "ts=1,v1=sig") ≡ some (ts, v1))
        × (v1
            ≡ sign_mercado_pago_webhook_manifest hub provider "secret"
                (build_mercado_pago_webhook_manifest hub provider "pre" id ts)))
validate_signature-Signed_example =
    validate_signature-Signed hub provider "secret" "pre" (some "ts=1,v1=sig") (some "req") refl

abbrev webhook : WebhookInput
webhook = record {
  payload = record {
    action = none;
    event_type = some "preapproval";
    data_id = some "pre";
    id = none;
    date_created = none;
    raw = object end;
  };
  raw_url = "/";
  signature_header = some "ts=1,v1=sig";
  request_id = some "req";
}

process_mercado_pago_webhook-once_example :
    let after = (process_mercado_pago_webhook platform provider webhook (office draft)).1 in
    process_mercado_pago_webhook platform provider webhook after
    ≡ (ok (duplicate_event (build_webhook_event_key platform provider webhook "pre")), after)
unfolding extract_webhook_resource_id validate_mercado_pago_webhook_signature
process_mercado_pago_webhook-once_example =
    process_mercado_pago_webhook-once platform provider in_memory_lawful webhook (λ name. none)
      "pre" (office draft) refl refl refl

abbrev unsigned : WebhookInput
unsigned = record webhook { signature_header = none }

process_mercado_pago_webhook-refused_example :
    (extract_webhook_resource_id platform provider (λ name. none) unsigned.payload ≡ none
      → process_mercado_pago_webhook platform provider unsigned (office draft) ≡ (
        err (validation "Mercado Pago webhook payload is missing a subscription identifier."),
        office draft,
      ))
    × ((resource_id : String)
        → extract_webhook_resource_id platform provider (λ name. none) unsigned.payload
          ≡ some resource_id
        → validate_mercado_pago_webhook_signature platform provider resource_id none (some "req")
          ≡ false
        → process_mercado_pago_webhook platform provider unsigned (office draft)
          ≡ (err (unauthorized "Invalid Mercado Pago webhook signature."), office draft))
process_mercado_pago_webhook-refused_example =
    process_mercado_pago_webhook-refused platform provider unsigned (λ name. none) (office draft)
      refl

-- Ratios in ten-thousandths, and amounts rounded to the nearest cent.
abbrev ratios : Ratios
ratios = record {
  ratio = λ part whole.
      if part == 0
      then 0
      else if leb (part * 10000 / whole) 10000
      then part * 10000 / whole
      else 10000;
  scale = λ amount left. (amount * left + 5000) / 10000;
}

share_le : (amount left : ℕ) → left ≤ 10000 → (amount * left + 5000) / 10000 ≤ amount
share_le amount left h = grind arith

ratios-IsRounding : IsRounding ratios
ratios-IsRounding = record {
  scale-part = λ amount part whole h. share_le amount _ (ground arith);
  scale-mono = λ a b left h. grind arith;
  scale-nothing = λ amount whole. ground arith;
}

abbrev change : ProrationInput
change = record {
  source_plan_key = some launch;
  source_billing_cycle = some monthly;
  target_plan_key = pro;
  target_billing_cycle = monthly;
  current_period_start = some 10;
  current_period_end = some 40;
}

abbrev preview : ProrationPreview
preview = record {
  source_plan_key = launch;
  source_billing_cycle = monthly;
  target_plan_key = pro;
  target_billing_cycle = monthly;
  remaining_ratio = 5000;
  credit_brl_cents = 3950;
  charge_brl_cents = 12450;
  net_brl_cents = pos 8500;
}

calculate_proration_preview-bounded_example :
    (a b start finish : ℕ) × (change.current_period_start ≡ some start)
    × (change.current_period_end ≡ some finish)
    × (price_of launch monthly ≡ some a)
    × (price_of pro monthly ≡ some b)
    × (start ≤ 25 → (preview.credit_brl_cents ≤ a * 100) × (preview.charge_brl_cents ≤ b * 100))
    × (a ≤ b → preview.credit_brl_cents ≤ preview.charge_brl_cents)
    × (finish ≤ 25 → (preview.credit_brl_cents ≡ 0) × (preview.charge_brl_cents ≡ 0))
unfolding calculate_proration_preview plan_catalog
calculate_proration_preview-bounded_example =
    calculate_proration_preview-bounded ratios 25 change preview ratios-IsRounding refl
