-- ===== src/Connectors/Http/Laws.antt =====
-- What the HTTP connector promises: which request it sends, and that a simulation says rightly whether
-- there is a way back.
use vowgrid_api.Common.{
  ℕ, ◌≤◌, String, ◌<>◌, ◌≡◌, refl, sym, ◌⊎◌, inl, inr, true, false, none, some, arith, Option-cases,
  includes, [], ◌∷◌,
}
use mathlib.Core.Path.{subst}
use vowgrid_api.Env.{
  Env, Settled, resolved, threw, ConnectorRollbackResult, partly_reversible, not_reversible,
  ConnectorSimulateResult, ConnectorExecuteResult, ConnectorRuntimeContext,
}
use vowgrid_api.Json.{Json}
use vowgrid_api.Connectors.Remote.{Remote, Request, Response, ◌>>=◌, entry, bind-resolved}
use vowgrid_api.Connectors.Http.{
  HttpConfig, Headers, parse_config, method_or, given_url, build_headers,
}
use vowgrid_api.Connectors.Http.Calls.{
  simulate, execute, execute_request, rollback, call_rollback, rollback_request,
}

module _ (env : Env) (net : Remote) (action : String) (parameters : Json)
    (context : ConnectorRuntimeContext) where
  abbrev pub config : HttpConfig
  config = parse_config env net context.config

  abbrev pub method : String
  method = method_or env config.method (entry "method" parameters)

  -- A call sends one request to a URL, under the configured headers and timeout: it ends as building the
  -- headers does where that throws, as the request does where that fails, in an error where the answer is no
  -- success, and in a success where it is one.
  abbrev pub Sends : String → String → ℕ → Settled ConnectorRollbackResult → Type 0
  Sends url way t call =
      ((m : String) → build_headers env net config ≡ threw m → call ≡ threw m)
      × ((headers : Headers)
          → build_headers env net config ≡ resolved headers
          → (q : Request) × (q.url ≡ url)
            × (q.method ≡ way)
            × (q.headers ≡ headers)
            × (q.timeout_ms ≡ some config.timeout_ms)
            × ((m : String) → net.fetch t q ≡ threw m → call ≡ threw m)
            × ((r : Response)
                → net.fetch t q ≡ resolved r
                → (r.is_ok ≡ false
                    → (call
                        ≡ threw (
                            "HTTP connector rollback failed with status "
                            <> env.decimal r.status
                            <> ".")))
                  × (r.is_ok ≡ true
                      → (e : ConnectorRollbackResult) × (call ≡ resolved e) × (e.success ≡ true))))

  call_rollback-Sends :
      (url other : String) (given kept : Json) (u : ℕ)
      → Sends url config.rollback_method u (call_rollback env net config url other given kept u)
  unfolding call_rollback ◌>>=◌
  call_rollback-Sends url other given kept u = (
    (λ m h. rw h refl),
    (λ headers h. (
      rollback_request env net config url other given kept headers,
      refl,
      refl,
      refl,
      refl,
      (λ m f. rw h (rw f refl)),
      (λ r f. ((λ o. rw h (rw f (rw o refl))), (λ o. rw h (rw f (rw o (_, refl, refl)))))),
    )),
  )

  -- A simulation that says that there is no way back is right: the rollback is refused. One that says
  -- that there is a partial one is right too: the rollback is one request, with the method of a rollback
  -- and under the configured headers and timeout, to the rollback URL of the configuration, and succeeds
  -- where that is answered with success. It says nothing else.
  pub simulate-rollback :
      (t u : ℕ) (other : String) (given kept : Json) (s : ConnectorSimulateResult)
      → simulate env net action parameters context t ≡ resolved s
      → ((s.reversibility ≡ not_reversible)
          × (rollback env net other given kept context u
              ≡ threw "HTTP connector rollback requires rollbackUrl in connector config."))
        ⊎ ((s.reversibility ≡ partly_reversible)
            × ((url : String) × (given_url config.rollback_url ≡ some url)
                × Sends url config.rollback_method u (rollback env net other given kept context u)))
  unfolding simulate rollback
  simulate-rollback t u other given kept s h = elim (Option-cases (given_url config.rollback_url)) [
    | inl q ↦ inl (ground arith)
    | inr (url, q) ↦ inr (
      ground arith,
      (
        url,
        q,
        subst (Sends url config.rollback_method u) (sym (rollback-called url q))
            (call_rollback-Sends url other given kept u),
      ),
    )
  ]
    where
      rollback-called :
          (url : String)
          → given_url config.rollback_url ≡ some url
          → rollback env net other given kept context u
            ≡ call_rollback env net config url other given kept u
      rollback-called url q = ground arith

  timeout_ms-bounded : 1000 ≤ config.timeout_ms
  unfolding parse_config
  timeout_ms-bounded = ground arith

  -- A call that succeeds has sent one request, to the configured URL, with the method, the configured
  -- headers, a timeout of a second at least and no body for `GET` and `DELETE`, and the remote system has
  -- answered that request with success. In particular, an answer that is no success never counts as an
  -- execution.
  pub execute-answered :
      (t : ℕ) (e : ConnectorExecuteResult)
      → execute env net action parameters context t ≡ resolved e
      → (q : Request) × (r : Response) × (net.fetch t q ≡ resolved r)
        × (r.is_ok ≡ true)
        × (q.url ≡ config.url)
        × (q.method ≡ method)
        × (build_headers env net config ≡ resolved q.headers)
        × ((n : ℕ) × (q.timeout_ms ≡ some n) × (1000 ≤ n))
        × (includes ("GET" ∷ "DELETE" ∷ []) method ≡ true → q.body ≡ none)
  unfolding execute execute_request ◌>>=◌
  execute-answered t e h =
      let (headers, built, sent) = bind-resolved (build_headers env net config) _ e h in
      let q = execute_request env net config method action parameters headers in
      let (r, fetched, made) = bind-resolved (net.fetch t q) _ e sent in
      (
        q,
        r,
        fetched,
        ground arith,
        refl,
        refl,
        built,
        (config.timeout_ms, refl, timeout_ms-bounded),
        (λ p. rw p refl),
      )
