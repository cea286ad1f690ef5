-- ===== src/Connectors/Routes/Laws.antt =====
-- What the registration of apps/api/src/modules/connectors/routes.ts writes, and when.
use mathlib.Core.Option.{some-injective}
use vowgrid_api.Common.{
  ℕ, ◌≡◌, refl, sym, ap, ◌∙◌, String, ◌<>◌, Bool, true, false, not, Option, none, some, arith,
}
use vowgrid_api.Env.{Env, IConnector, ConnectorValidateResult, Settled, resolved, threw}
use vowgrid_api.Json.{Json}
use vowgrid_api.Billing.Entitlements.{assert_can_create_connector}
use vowgrid_api.Billing.Frame.{assert_can_create_connector-BillingOnly}
use vowgrid_api.Connectors.Secrets.{encrypt_connector_config}
use vowgrid_api.Connectors.Routes.{
  CreateConnectorInput, ConnectorResponse, config_or_empty, check_config, store_connector,
  create_connector,
}
use vowgrid_api.World.{
  World, Action, Error, Result, ok, run_steps, validation, ◌>>=◌, pure, or_raise, raise_if, ask,
  settle,
}
use vowgrid_api.World.Respects.{
  Preorder, Respects, Respects-bind, Respects-option, Respects-pure, Respects-settle, Respects-ask,
  Respects-raise_if, Respects-or_raise,
}
use vowgrid_api.World.Yields.{Yields, Yields-bind, Yields-apply, Ends, Ends-bind, Ends-apply}

module _ (env : Env) where
  abbrev pub Passed :
      Option (Json → Settled ConnectorValidateResult) → CreateConnectorInput → Type 0
  Passed o input =
      (validate : Json → Settled ConnectorValidateResult)
      → o ≡ some validate
      → (v : ConnectorValidateResult) × (validate (config_or_empty env input.config) ≡ resolved v)
        × (v.valid ≡ true)

  or_raise-ok :
      {A : Type 0} (o : Option A) (e : Error) (a : A) (w v : World env)
      → ◌≡◌ {A = Result A × World env} (or_raise o e w) (ok a, v)
      → o ≡ some a
  unfolding run_steps
  or_raise-ok none e a w v h = ground arith
  or_raise-ok (some b) e a w v h = ground arith

  settle-ok :
      {A : Type 0} (o : Settled A) (a : A) (w v : World env)
      → ◌≡◌ {A = Result A × World env} (settle o w) (ok a, v)
      → o ≡ resolved a
  unfolding run_steps
  settle-ok (threw m) a w v h = ground arith
  settle-ok (resolved b) a w v h = ground arith

  Yields-raise_if :
      (Q : Unit {0} → Type 0) (c : Bool) (e : Error) (w : World env)
      → (c ≡ false → Q tt)
      → Yields Q (raise_if c e w)
  unfolding run_steps
  Yields-raise_if Q true e w k = tt
  Yields-raise_if Q false e w k = k refl

  check_config-Checked :
      (runtime : IConnector) (input : CreateConnectorInput) (w : World env)
      → Yields (λ _. Passed runtime.validate_config input) (check_config env runtime input w)
  unfolding check_config run_steps
  check_config-Checked runtime input w = by_validation runtime.validate_config
    where
      by_validation :
          (o : Option (Json → Settled ConnectorValidateResult))
          → let step : Action env (Unit {0}) = elim o [
            | none ↦ pure tt
            | some validate ↦ do
              checked ← settle (validate (config_or_empty env input.config))
              raise_if (not checked.valid) (
                  validation
                    ("Connector config for \"" <> input.connector_type <> "\" is invalid."))
          ] in
            Yields (λ _. Passed o input) (step w)
      by_validation none = λ validate h. absurd (ground arith)
      by_validation (some f) =
          Yields-bind (λ _. Passed (some f) input) (settle (f (config_or_empty env input.config))) _
            w
            (λ v w1 found.
              Yields-raise_if (λ _. Passed (some f) input) (not v.valid)
                (validation ("Connector config for \"" <> input.connector_type <> "\" is invalid."))
                w1
                (λ accepted validate same. (
                  v,
                  ap
                        (λ (g : Json → Settled ConnectorValidateResult).
                          g (config_or_empty env input.config))
                        (sym (some-injective _ _ same))
                      ∙ settle-ok (f (config_or_empty env input.config)) v w w1 found,
                  ground arith,
                )))

  abbrev KeepsConnectors : Preorder env
  KeepsConnectors = record {
    Rel = λ w v. v.connectors ≡ w.connectors;
    rel_refl = λ w. refl;
    rel_trans = λ u v w p q. q ∙ p;
    rel_later = λ w t. refl;
    rel_observed = λ w m. refl;
  }

  check_config-Keeps :
      (runtime : IConnector) (input : CreateConnectorInput)
      → Respects KeepsConnectors (check_config env runtime input)
  unfolding check_config
  check_config-Keeps runtime input =
      Respects-option runtime.validate_config (Respects-pure _)
        (λ f. Respects-bind (Respects-settle _) (λ v. Respects-raise_if _ _))

  assert-Keeps :
      (ws : ℕ) (enabled : Bool)
      → Respects KeepsConnectors (assert_can_create_connector env ws enabled)
  assert-Keeps ws enabled = record {
    run = λ w.
        ap (λ (x : World env). x.connectors)
          ((assert_can_create_connector-BillingOnly env ws enabled).run w w.billing w.metrics
            w.ticks);
  }

  kept :
      {A : Type 0} {m : Action env A} {w v : World env} {a : A}
      → Respects KeepsConnectors m
      → m w ≡ (ok a, v)
      → v.connectors ≡ w.connectors
  kept {A} {m} {w} {v} k e = sym (ap (λ (o : Result A × World env). o.1.connectors) e) ∙ k.run w

  -- What a registration leaves: a connector of this workspace as it was asked for, but with the
  -- rollback support of its type and with the configuration sealed, and that row is the one that the
  -- table has gained.
  abbrev pub Registered :
      ℕ → CreateConnectorInput → World env → ConnectorResponse → World env → Type 0
  Registered ws input before r after =
      (runtime : IConnector) × (env.registered input.connector_type ≡ some runtime)
      × Passed runtime.validate_config input
      × (r.connector.name ≡ input.name)
      × (r.connector.connector_type ≡ input.connector_type)
      × (r.connector.rollback_support ≡ runtime.rollback_support)
      × (r.connector.workspace_id ≡ ws)
      × (r.connector.enabled ≡ input.enabled)
      × ((iv : String) × (r.connector.config ≡ encrypt_connector_config env iv input.config))
      × (after.connectors ≡ env.db.create r.connector before.connectors)

  store_connector-Ends :
      (ws : ℕ) (input : CreateConnectorInput) (runtime : IConnector) (iv : String) (w v : World env)
      → env.registered input.connector_type ≡ some runtime
      → Passed runtime.validate_config input
      → v.connectors ≡ w.connectors
      → Ends (Registered ws input w) (store_connector env ws input runtime iv v)
  unfolding store_connector run_steps
  store_connector-Ends ws input runtime iv w v known passed same =
      (runtime, known, passed, refl, refl, refl, refl, refl, (iv, refl), ap (env.db.create _) same)

  create_connector-Ends :
      (ws : ℕ) (input : CreateConnectorInput) (w : World env)
      → Ends (Registered ws input w) (create_connector env ws input w)
  unfolding create_connector
  create_connector-Ends ws input w = Ends-bind _ (raise_if _ _) _ w (λ _ w1 e1.
      Ends-bind _ (or_raise (env.registered input.connector_type) _) _ w1 (λ runtime w2 e2.
        Ends-bind _ (check_config env runtime input) _ w2 (λ _ w3 e3.
          Ends-bind _ (assert_can_create_connector env ws input.enabled) _ w3 (λ _ w4 e4.
            Ends-bind _ (ask env.random_token) _ w4 (λ iv w5 e5.
              store_connector-Ends ws input runtime iv w w5 (or_raise-ok _ _ runtime w1 w2 e2)
                (Yields-apply (λ _. Passed runtime.validate_config input) _
                  (check_config-Checked runtime input w2)
                  (ap (λ (o : Result (Unit {0}) × World env). o.0) e3))
                (kept (Respects-ask _) e5
                  ∙ kept (assert-Keeps ws input.enabled) e4
                  ∙ kept (check_config-Keeps runtime input) e3
                  ∙ kept (Respects-or_raise _ _) e2
                  ∙ kept (Respects-raise_if _ _) e1))))))

  -- A registration that succeeds was of a type that the runtime knows, with a configuration that the
  -- type, where it checks any, found valid. Its answer is about the connector that was stored: the only
  -- row that the table has gained, with the name, the type and the switch of the request, of this
  -- workspace, with the configuration of the request in sealed form, and with the rollback support of the
  -- type, whatever the request said.
  pub create_connector-Sound :
      (ws : ℕ) (input : CreateConnectorInput) (w : World env) {r : ConnectorResponse}
      → (create_connector env ws input w).0 ≡ ok r
      → Registered ws input w r (create_connector env ws input w).1
  create_connector-Sound ws input w h =
      Ends-apply (Registered ws input w) _ (create_connector-Ends ws input w) h
