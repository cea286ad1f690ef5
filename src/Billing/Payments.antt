-- ===== src/Billing/Payments.antt =====
-- The requests of apps/api/src/modules/billing/mercado-pago.ts.
use vowgrid_api.Common.{
  ℕ, ◌*◌, ◌-◌, String, ◌<>◌, Bool, true, false, not, ◌&&◌, Option, none, some, List, [], ◌∷◌, ◌++◌,
  filter, ltb, if◌then◌else◌, or_default,
}
use vowgrid_api.Env.{Env, resolved, threw}
use vowgrid_api.Json.{Json, null, number, text, array, object, Items, nil, cons, Fields, end, field}
use vowgrid_api.Auth.Tables.{truthy}
use vowgrid_api.Connectors.Remote.{Request, Response, optional_field}
use vowgrid_api.Billing.Rows.{BillingCycle, monthly, yearly, SubscriptionStatus}
use vowgrid_api.World.{
  Action, validation, billing_configuration, thrown, ◌>>=◌, ◌>>◌, pure, raise, or_raise, raise_if,
  ask, settle,
}
use vowgrid_api.Billing.Provider.{
  Provider, Preapproval, text_at, preapproval_of, either, map_mercado_pago_status, price_of,
  StartCheckoutInput, Checkout, PaymentItem,
}

module _ (env : Env) (p : Provider) where
  abbrev base_url : String
  base_url =
      if env.ends_with p.api_base_url "/"
      then env.first_chars (env.text_length p.api_base_url - 1) p.api_base_url
      else p.api_base_url

  abbrev request_to : String → String → String → Option Json → Request
  request_to token method path body = record {
    url = base_url <> path;
    method = method;
    headers = ("Authorization", "Bearer " <> token) ∷ ("Content-Type", "application/json") ∷ [];
    body = elim body [ none ↦ none | some v ↦ some (env.stringify v) ];
    timeout_ms = none;
  }

  abbrev json_of : Response → Json
  json_of r = elim (env.parse_json r.body) [ threw e ↦ object end | resolved v ↦ v ]

  -- A member is read of the answer, which throws where that is `null`.
  abbrev pub an_object : Json → Action env Json
  an_object null = raise (thrown "Cannot read properties of null")
  an_object v = pure v

  unfoldable pub mercado_pago_request : String → String → Option Json → Action env Json
  mercado_pago_request method path body = do
    token ← or_raise (truthy p.access_token) (
        billing_configuration
          "Mercado Pago checkout is not configured. Add MERCADO_PAGO_ACCESS_TOKEN to enable self-serve billing.")
    answer ← ask (λ t. p.net.fetch t (request_to token method path body))
    response ← settle answer
    json ← an_object (json_of response)
    raise_if (not response.is_ok) (
        validation (
          or_default (either (text_at "message" json) (text_at "error" json))
            ("Mercado Pago request to " <> path <> " failed.")))
    pure json

  abbrev cycle_months : BillingCycle → ℕ
  cycle_months monthly = 1
  cycle_months yearly = 12

  abbrev given_field : String → Option String → Fields → Fields
  given_field key none fs = fs
  given_field key (some s) fs = field key (text s) fs

  abbrev checkout_payload : StartCheckoutInput → ℕ → Json
  checkout_payload input cents = object (
      field "reason" (text input.reason) (
        field "external_reference" (text input.external_reference) (
          field "payer_email" (text input.payer_email) (
            given_field "back_url" p.return_url (
              field "status" (text "pending") (
                field "auto_recurring"
                  (object (
                    field "frequency" (number (p.net.to_double (cycle_months input.billing_cycle)))
                      (field "frequency_type" (text "months") (
                        field "transaction_amount" (number (p.reais cents))
                          (field "currency_id" (text "BRL") end)))))
                  (given_field "notification_url" (truthy p.webhook_url) end)))))))

  -- The amount in cents: the one that is given, or the plan's.
  abbrev checkout_amount : StartCheckoutInput → Option ℕ
  checkout_amount input = elim input.transaction_amount [
    | some cents ↦ some cents
    | none ↦ elim (price_of input.plan_key input.billing_cycle) [
      | none ↦ none
      | some brl ↦ some (brl * 100)
    ]
  ]

  unfoldable pub start_mercado_pago_checkout : StartCheckoutInput → Action env Checkout
  unfolding mercado_pago_request map_mercado_pago_status
  start_mercado_pago_checkout input = do
    amount ←
        or_raise (checkout_amount input)
          (validation "The selected plan is not available for self-serve checkout.")
    json ← mercado_pago_request "POST" "/preapproval" (some (checkout_payload input amount))
    let subscription = preapproval_of env json
    url ←
        or_raise (truthy (either subscription.init_point subscription.sandbox_init_point))
          (validation "Mercado Pago did not return a checkout URL for the subscription.")
    pure (record {
      provider_subscription_id = subscription.id;
      status = map_mercado_pago_status env subscription.status;
      checkout_url = url;
      provider_payload = json;
    })

  abbrev item_json : PaymentItem → Json
  item_json i = object (
      field "title" (text i.title) (
        field "quantity" (number (p.net.to_double i.quantity)) (
          field "currency_id" (text "BRL")
            (field "unit_price" (number (p.reais i.unit_price_brl_cents)) end))))

  abbrev item_list : List PaymentItem → Items
  item_list [] = nil
  item_list (i ∷ is) = cons (item_json i) (item_list is)

  -- The items that are billed: those with a quantity and a price, and the tax.
  unfoldable pub billable_items : List PaymentItem → ℕ → List PaymentItem
  billable_items items tax =
      filter (λ (i : PaymentItem). ltb 0 i.quantity && ltb 0 i.unit_price_brl_cents) items
      ++ (if ltb 0 tax
          then record { title = "Tax"; quantity = 1; unit_price_brl_cents = tax } ∷ []
          else [])

  abbrev back_urls : Option String → Option Json
  back_urls none = none
  back_urls (some url) = some (
      object
        (field "success" (text url) (field "pending" (text url) (field "failure" (text url) end))))

  abbrev pub payment_payload : String → String → List PaymentItem → Json
  payment_payload external_reference payer_email items = object (
      field "external_reference" (text external_reference) (
        field "payer" (object (field "email" (text payer_email) end)) (
          field "items" (array (item_list items))
            (optional_field "back_urls" (back_urls (truthy p.return_url)) end))))

  abbrev is_nil : List PaymentItem → Bool
  is_nil [] = true
  is_nil (_ ∷ _) = false

  -- The checkout URL and the preference's id.
  unfoldable pub start_mercado_pago_invoice_payment :
      String → String → List PaymentItem → ℕ → Action env (String × String)
  unfolding mercado_pago_request billable_items
  start_mercado_pago_invoice_payment external_reference payer_email items tax = do
    let billed = billable_items items tax
    raise_if (is_nil billed)
        (validation "Mercado Pago invoice checkout requires at least one billable item.")
    json ←
        mercado_pago_request "POST" "/checkout/preferences"
          (some (payment_payload external_reference payer_email billed))
    let preference = preapproval_of env json
    url ←
        or_raise (truthy (either preference.init_point preference.sandbox_init_point))
          (validation "Mercado Pago did not return a checkout URL for the invoice.")
    pure (url, preference.id)

  -- The subscription at the provider, with the status that it has here.
  unfoldable pub get_mercado_pago_subscription :
      String → Action env (Preapproval × SubscriptionStatus)
  unfolding mercado_pago_request map_mercado_pago_status
  get_mercado_pago_subscription id = do
    json ← mercado_pago_request "GET" ("/preapproval/" <> id) none
    let subscription = preapproval_of env json
    pure (subscription, map_mercado_pago_status env subscription.status)

  unfoldable pub cancel_mercado_pago_subscription :
      String → Action env (Preapproval × SubscriptionStatus)
  unfolding mercado_pago_request map_mercado_pago_status
  cancel_mercado_pago_subscription id = do
    json ←
        mercado_pago_request "PUT" ("/preapproval/" <> id)
          (some (object (field "status" (text "cancelled") end)))
    let subscription = preapproval_of env json
    pure (subscription, map_mercado_pago_status env subscription.status)
