-- ===== src/Billing/Signature.antt =====
-- The signatures of apps/api/src/modules/billing/mercado-pago.ts.
use vowgrid_api.Common.{
  String, ◌<>◌, ◌≡◌, ◌↔◌, Bool, true, false, not, Option, none, some, List, [], ◌∷◌, map, filter,
  if◌then◌else◌, str_eq, arith, sym, inl, inr, Option-cases,
}
use text.Mathlib.TextEquality.{eq_iff}
use vowgrid_api.Env.{Env}
use vowgrid_api.Auth.Tables.{truthy}
use vowgrid_api.Billing.Provider.{Provider}

module _ (env : Env) (p : Provider) where
  -- `const [key, value] = current.split('=')`, where both are filled and the key is this one
  abbrev pair_value : String → List String → Option String
  pair_value key [] = none
  pair_value key (k ∷ []) = none
  pair_value key (k ∷ v ∷ rest) = if str_eq k key then truthy (some v) else none

  -- The last of the parts that gives the key a value.
  unfoldable pub value_of : String → List String → Option String
  value_of key [] = none
  value_of key (part ∷ rest) =
      let later = value_of key rest in
      elim later [ some v ↦ some v | none ↦ pair_value key (p.split "=" part) ]

  abbrev parts_of : String → List String
  parts_of header = filter (λ s. not (str_eq s "")) (map env.trim (p.split "," header))

  abbrev both : Option String → Option String → Option (String × String)
  both none v = none
  both (some ts) none = none
  both (some ts) (some v) = some (ts, v)

  -- The timestamp and the signature.
  unfoldable pub parse_signature_header : Option String → Option (String × String)
  unfolding value_of
  parse_signature_header header = elim (truthy header) [
    | none ↦ none
    | some h ↦ both (value_of "ts" (parts_of h)) (value_of "v1" (parts_of h))
  ]

  unfoldable pub build_mercado_pago_webhook_manifest : String → String → String → String
  build_mercado_pago_webhook_manifest resource_id request_id timestamp =
      "id:" <> resource_id <> ";request-id:" <> request_id <> ";ts:" <> timestamp <> ";"

  abbrev pub sign_mercado_pago_webhook_manifest : String → String → String
  sign_mercado_pago_webhook_manifest secret manifest = p.hmac_hex secret manifest

  -- Two texts of different lengths, or with different bytes, are not equal.
  unfoldable pub is_signed : String → String → String → String × String → Bool
  unfolding build_mercado_pago_webhook_manifest
  is_signed secret resource_id request_id (ts, v1) =
      str_eq
        (sign_mercado_pago_webhook_manifest secret
          (build_mercado_pago_webhook_manifest resource_id request_id ts))
        v1

  unfoldable pub validate_mercado_pago_webhook_signature :
      String → Option String → Option String → Bool
  unfolding parse_signature_header is_signed
  validate_mercado_pago_webhook_signature resource_id header request_id =
      elim (truthy p.webhook_secret) [
        | none ↦ not p.is_production
        | some secret ↦ elim (parse_signature_header header) [
          | none ↦ false
          | some parsed ↦ elim (truthy request_id) [
            | none ↦ false
            | some id ↦ is_signed secret resource_id id parsed
          ]
        ]
      ]

  -- Where a secret is set, a webhook passes exactly when it names its request, and its header carries a
  -- timestamp and the signature, under the secret, of the manifest of the resource, that request and that
  -- timestamp.
  pub validate_signature-Signed :
      (secret resource_id : String) (header request_id : Option String)
      → truthy p.webhook_secret ≡ some secret
      → (validate_mercado_pago_webhook_signature resource_id header request_id ≡ true) ↔ (
          (id ts v1 : String) × (truthy request_id ≡ some id)
          × (parse_signature_header header ≡ some (ts, v1))
          × (v1
              ≡ sign_mercado_pago_webhook_manifest secret
                  (build_mercado_pago_webhook_manifest resource_id id ts)))
  unfolding validate_mercado_pago_webhook_signature is_signed
  validate_signature-Signed secret resource_id header request_id s = (
    (λ h. elim (Option-cases (parse_signature_header header)) [
      | inl q ↦ ground arith
      | inr ((ts, v1), q) ↦ elim (Option-cases (truthy request_id)) [
        | inl z ↦ ground arith
        | inr (id, z) ↦ (id, ts, v1, z, q, sym ((eq_iff _ v1).0 (accepted ts v1 id q z h)))
      ]
    ]),
    (λ (id, ts, v1, z, q, e). signed ts v1 id z q ((eq_iff _ v1).1 (sym e))),
  )
    where
      accepted :
          (ts v1 id : String)
          → parse_signature_header header ≡ some (ts, v1)
          → truthy request_id ≡ some id
          → validate_mercado_pago_webhook_signature resource_id header request_id ≡ true
          → is_signed secret resource_id id (ts, v1) ≡ true
      accepted ts v1 id q z h = ground arith

      signed :
          (ts v1 id : String)
          → truthy request_id ≡ some id
          → parse_signature_header header ≡ some (ts, v1)
          → is_signed secret resource_id id (ts, v1) ≡ true
          → validate_mercado_pago_webhook_signature resource_id header request_id ≡ true
      signed ts v1 id z q e = ground arith
