-- ===== src/Billing/Requests.antt =====
-- The requests of apps/api/src/modules/billing/mercado-pago.ts keep what their parts keep.
use vowgrid_api.Common.{ℕ, String, Option, some, List}
use vowgrid_api.Env.{Env, Provider}
use vowgrid_api.Json.{Json, null, bool, number, array, object}
use vowgrid_api.Billing.Provider.{PaymentItem}
use vowgrid_api.Billing.Payments.{
  mercado_pago_request, an_object, payment_payload, billable_items,
  start_mercado_pago_invoice_payment,
}
use vowgrid_api.World.Respects.{
  Preorder, Respects, Respects-bind, Respects-settle, Respects-pure, Respects-ask,
  Respects-or_raise, Respects-raise_if, Respects-raise,
}

module _ (env : Env) (p : Provider) (P : Preorder env) where
  object-Respects : (v : Json) → Respects P (an_object env p v)
  object-Respects null = Respects-raise _
  object-Respects (bool b) = Respects-pure _
  object-Respects (number n) = Respects-pure _
  object-Respects (Json.text s) = Respects-pure _
  object-Respects (array xs) = Respects-pure _
  object-Respects (object fs) = Respects-pure _

  pub request-Respects :
      (method path : String) (body : Option Json)
      → Respects P (mercado_pago_request env p method path body)
  unfolding mercado_pago_request
  request-Respects method path body = Respects-bind (Respects-or_raise _ _) (λ token.
      Respects-bind (Respects-ask _) (λ answer. Respects-bind (Respects-settle answer) (λ response.
        Respects-bind (object-Respects _)
          (λ json. Respects-bind (Respects-raise_if _ _) (λ _. Respects-pure _)))))

  pub start_mercado_pago_invoice_payment-Respects :
      (reference email : String) (items : List PaymentItem) (tax : ℕ)
      → Respects P (start_mercado_pago_invoice_payment env p reference email items tax)
  unfolding start_mercado_pago_invoice_payment
  start_mercado_pago_invoice_payment-Respects reference email items tax =
      Respects-bind (Respects-raise_if _ _) (λ _.
        Respects-bind
          (request-Respects "POST" "/checkout/preferences"
            (some (payment_payload env p reference email (billable_items env p items tax))))
          (λ json. Respects-bind (Respects-or_raise _ _) (λ url. Respects-pure _)))
