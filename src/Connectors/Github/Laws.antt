-- ===== src/Connectors/Github/Laws.antt =====
-- What the GitHub connector promises: what it has validated it can execute, and it undoes what it did.
use vowgrid_api.Common.{
  ℕ, String, ◌<>◌, ◌≡◌, refl, ◌∙◌, ap, true, false, Option, none, some, List, [], ◌∷◌, ◌++◌, ◌⊎◌,
  inl, inr, str_eq, if◌then◌else◌, arith, Bool-cases,
}
use vowgrid_api.Env.{
  Env, Settled, resolved, threw, ConnectorRollbackResult, ConnectorValidateResult,
  ConnectorExecuteResult, ConnectorRuntimeContext,
}
use vowgrid_api.Json.{Json, object, Fields, end}
use vowgrid_api.Connectors.Remote.{
  Remote, Request, Response, ◌>>=◌, entry, optional_field, resolved-injective, validation_of,
}
use vowgrid_api.Connectors.Github.{
  GithubConfig, parse_config, request_to, github_request, number_in, get_issue_number, json_of,
  validate, action_errors, is_action,
}
use vowgrid_api.Connectors.Github.Calls.{
  issues_path, issue_path, issue_body, closed_state, create_issue, add_comment, close_issue,
  execute,
}

-- The value of a header, by its name.
abbrev pub get_header : String → List (String × String) → Option String
get_header name [] = none
get_header name ((k, v) ∷ rest) = if str_eq k name then some v else get_header name rest

module _ (env : Env) (net : Remote) where
  -- Every request is answered with success, by a JSON object.
  abbrev pub Serves : Type 0
  Serves =
      (t : ℕ) (q : Request)
      → (r : Response) × (fs : Fields) × (net.fetch t q ≡ resolved r)
        × (r.is_ok ≡ true)
        × (json_of env net r ≡ object fs)

  github_request-served :
      (c : GithubConfig) (method path : String) (body : Option Json) (t : ℕ)
      → Serves
      → (fs : Fields) × (github_request env net c method path body t ≡ resolved (object fs))
  unfolding github_request ◌>>=◌
  github_request-served c method path body t s =
      let (r, fs, p, q, e) = s t (request_to env net c method path body) in
      (fs, rw p (rw q (ap resolved e)))

  valid→no_errors : (errors : List String) → (validation_of errors).valid ≡ true → errors ≡ []
  valid→no_errors [] h = refl
  valid→no_errors (e ∷ es) h = ground arith

  -- The errors of two tests that have none.
  append≡[] : (xs ys : List String) → xs ++ ys ≡ [] → (xs ≡ []) × (ys ≡ [])
  append≡[] [] ys h = (refl, h)
  append≡[] (x ∷ xs) ys h = ground arith

  validate→no_action_errors :
      (action : String) (parameters : Json) (context : ConnectorRuntimeContext) (t : ℕ)
      (v : ConnectorValidateResult)
      → validate env net action parameters context t ≡ resolved v
      → v.valid ≡ true
      → action_errors env net action parameters ≡ []
  unfolding validate
  validate→no_action_errors action parameters context t v h ok =
      (append≡[] _ _ (
        valid→no_errors _
          (ap (λ (x : ConnectorValidateResult). x.valid) (resolved-injective h) ∙ ok))).1

  -- The tests that an action without errors has passed.
  action_errors→passed :
      (action : String) (parameters : Json)
      → action_errors env net action parameters ≡ []
      → (is_action env net action ≡ true)
        × (str_eq action "create_issue" ≡ true
            ⊎ ((n : ℕ) × (get_issue_number env net parameters ≡ some n)))
  unfolding action_errors
  action_errors→passed action parameters h = ground arith

  is_action→closes :
      (action : String)
      → is_action env net action ≡ true
      → str_eq action "create_issue" ≡ false
      → str_eq action "add_issue_comment" ≡ false
      → str_eq action "close_issue" ≡ true
  is_action→closes action a p q = ground arith

  -- What the three branches of `execute` answer with.
  abbrev Succeeds : Settled ConnectorExecuteResult → Type 0
  Succeeds m = (e : ConnectorExecuteResult) × (m ≡ resolved e) × (e.success ≡ true)

  create_issue-served :
      (c : GithubConfig) (parameters : Json) (t : ℕ)
      → Serves
      → Succeeds (create_issue env net c parameters t)
  unfolding ◌>>=◌
  create_issue-served c parameters t s =
      let (fs, w) =
        github_request-served c "POST" (issues_path env net c)
          (some (issue_body env net c parameters)) t s in
      rw w (_, refl, refl)

  add_comment-served :
      (c : GithubConfig) (parameters : Json) (n t : ℕ)
      → Serves
      → Succeeds (add_comment env net c parameters n t)
  unfolding ◌>>=◌
  add_comment-served c parameters n t s =
      let (fs, w) =
        github_request-served c "POST" (issue_path env net c n <> "/comments")
          (some (object (optional_field "body" (entry "body" parameters) end))) t s in
      rw w (_, refl, refl)

  close_issue-served : (c : GithubConfig) (n t : ℕ) → Serves → Succeeds (close_issue env net c n t)
  unfolding ◌>>=◌
  close_issue-served c n t s =
      let (fs, w) =
        github_request-served c "PATCH" (issue_path env net c n) (some (closed_state env net)) t
          s in
      rw w (_, refl, refl)

  -- What `execute` answers with where its request is answered.
  execute-valid :
      (action : String) (parameters : Json) (context : ConnectorRuntimeContext) (t : ℕ)
      → Serves
      → action_errors env net action parameters ≡ []
      → (e : ConnectorExecuteResult) × (execute env net action parameters context t ≡ resolved e)
        × (e.success ≡ true)
  unfolding execute parse_config action_errors ◌>>=◌ number_in
  execute-valid action parameters context t s h =
      let c = parse_config env context.config in
      let (a, b) = action_errors→passed action parameters h in
      elim b [
        | inl p ↦ rw p (create_issue-served c parameters t s)
        | inr (n, i) ↦ elim (Bool-cases (str_eq action "create_issue")) [
          | inl p ↦ rw p (create_issue-served c parameters t s)
          | inr p ↦ elim (Bool-cases (str_eq action "add_issue_comment")) [
            | inl q ↦ rw p (rw q (rw i (add_comment-served c parameters n t s)))
            | inr q ↦
                rw p (rw q (rw (is_action→closes action a p q) (rw i (close_issue-served c n t s))))
          ]
        ]
      ]

  -- An action that the connector has validated is executed with success, where the remote system answers
  -- every request with success and a JSON object.
  pub validate-execute :
      (action : String) (parameters : Json) (context : ConnectorRuntimeContext) (t u : ℕ)
      (v : ConnectorValidateResult)
      → Serves
      → validate env net action parameters context t ≡ resolved v
      → v.valid ≡ true
      → (e : ConnectorExecuteResult) × (execute env net action parameters context u ≡ resolved e)
        × (e.success ≡ true)
  validate-execute action parameters context t u v s h ok =
      execute-valid action parameters context u s
        (validate→no_action_errors action parameters context t v h ok)

  -- A call consists of one request about the issues of the repository, with the token: where the
  -- request fails, so does the call, and where it is answered with success by an object, the call succeeds.
  abbrev pub Sends :
      GithubConfig → String → String → Option String → ℕ → Settled ConnectorRollbackResult → Type 0
  Sends c method path body t call =
      (q : Request) × (q.url
        ≡ c.api_base_url <> (("/repos/" <> (c.owner <> "/" <> c.repo) <> "/issues") <> path))
      × (q.method ≡ method)
      × (q.body ≡ body)
      × (get_header "Authorization" q.headers ≡ some ("Bearer " <> c.token))
      × ((m : String) → net.fetch t q ≡ threw m → call ≡ threw m)
      × ((r : Response) (fs : Fields)
          → net.fetch t q ≡ resolved r
          → r.is_ok ≡ true
          → json_of env net r ≡ object fs
          → (e : ConnectorRollbackResult) × (call ≡ resolved e) × (e.success ≡ true))
