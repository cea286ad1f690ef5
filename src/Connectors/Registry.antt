-- ===== src/Connectors/Registry.antt =====
-- apps/api/src/modules/connectors/framework/connector.registry.ts: a `Map` from types to connectors, in
-- the order in which the types were first registered; and the registrations of apps/api/src/server.ts.
use vowgrid_api.Common.{
  String, Bool, true, false, Option, none, some, List, [], ◌∷◌, map, if◌then◌else◌, str_eq, ◌≡◌,
  refl, ap, Bool-cases, Option-cases, ◌∙◌, inl, inr, arith,
}
use text.Mathlib.TextEquality.{eq_iff}
use vowgrid_api.Env.{Env, IConnector, RollbackSupport}
use vowgrid_api.Connectors.Remote.{Remote}
use vowgrid_api.Connectors.Github.Calls.{github_connector}
use vowgrid_api.Connectors.Http.Calls.{http_connector}
use vowgrid_api.Connectors.Mock.{mock_connector}

abbrev pub ConnectorRegistry : Type 0
ConnectorRegistry = List (String × IConnector)

-- `Map.prototype.set` keeps the place of a type that is there.
unfoldable pub register : String → IConnector → ConnectorRegistry → ConnectorRegistry
register kind c [] = (kind, c) ∷ []
register kind c ((k, d) ∷ rest) =
    let later = register kind c rest in if str_eq k kind then (k, c) ∷ rest else (k, d) ∷ later

unfoldable pub get : String → ConnectorRegistry → Option IConnector
get kind [] = none
get kind ((k, d) ∷ rest) = let later = get kind rest in if str_eq k kind then some d else later

abbrev is_there : Option IConnector → Bool
is_there none = false
is_there (some _) = true

abbrev pub has : String → ConnectorRegistry → Bool
has kind registry = is_there (get kind registry)

unfoldable pub list : ConnectorRegistry → List (String × RollbackSupport)
list registry = map (λ (e : String × IConnector). (e.0, e.1.rollback_support)) registry

-- `if (!connectorRegistry.has(kind)) connectorRegistry.register(kind, connector)`
abbrev register_missing : String → IConnector → ConnectorRegistry → ConnectorRegistry
register_missing kind c registry = if has kind registry then registry else register kind c registry

unfoldable pub register_connectors : Env → Remote → ConnectorRegistry → ConnectorRegistry
register_connectors env net registry = register_missing "github" (github_connector env net) (
    register_missing "http" (http_connector env net)
      (register_missing "mock" (mock_connector net) registry))

-- What is looked up after a registration: the connector of that type, or what was there.
pub get-register :
    (k kind : String) (c : IConnector) (registry : ConnectorRegistry)
    → get k (register kind c registry) ≡ (if str_eq kind k then some c else get k registry)
unfolding get register
get-register k kind c [] = refl
get-register k kind c ((j, d) ∷ rest) = elim (Bool-cases (str_eq j kind)) [
  | inl p ↦ rw p (rw ((eq_iff j kind).0 p) (ground arith))
  | inr p ↦ elim (Bool-cases (str_eq kind k)) [
    | inl q ↦
        let other : str_eq j k ≡ false = rw ((eq_iff kind k).0 q) at p in
        ground (arith, get-register k kind c rest)
    | inr q ↦ ground (arith, get-register k kind c rest)
  ]
]

-- The connectors of the server, by type.
abbrev built_in : Env → Remote → String → Option IConnector
built_in env net kind =
    if str_eq "mock" kind
    then some (mock_connector net)
    else if str_eq "http" kind
    then some (http_connector env net)
    else if str_eq "github" kind
    then some (github_connector env net)
    else none

abbrev or_built_in : Option IConnector → Option IConnector → Option IConnector
or_built_in none d = d
or_built_in (some c) d = some c

get-register_missing :
    (k kind : String) (c : IConnector) (registry : ConnectorRegistry)
    → get k (register_missing kind c registry)
      ≡ or_built_in (get k registry) (if str_eq kind k then some c else none)
get-register_missing k kind c registry = elim (Option-cases (get kind registry)) [
  | inl h ↦ as_found none h ∙ ground (arith, get-register k kind c registry, moved)
  | inr (d, h) ↦ as_found (some d) h ∙ ground (arith, moved)
]
  where
    moved : str_eq kind k ≡ true → get kind registry ≡ get k registry
    moved e = ap (λ x. get x registry) ((eq_iff kind k).0 e)

    as_found :
        (o : Option IConnector)
        → get kind registry ≡ o
        → get k (register_missing kind c registry)
          ≡ get k (if is_there o then registry else register kind c registry)
    as_found o h = ap (λ x. get k (if is_there x then registry else register kind c registry)) h

-- Once the server has registered its connectors, a type that was there has kept its connector, the three
-- types of the server that were not there have theirs, and no other type has any.
pub get-register_connectors :
    (env : Env) (net : Remote) (registry : ConnectorRegistry) (kind : String)
    → get kind (register_connectors env net registry)
      ≡ or_built_in (get kind registry) (built_in env net kind)
unfolding register_connectors
get-register_connectors env net registry kind =
    let mock = register_missing "mock" (mock_connector net) registry in
    let http = register_missing "http" (http_connector env net) mock in
    ground (
      arith,
      get-register_missing kind "github" (github_connector env net) http,
      get-register_missing kind "http" (http_connector env net) mock,
      get-register_missing kind "mock" (mock_connector net) registry,
    )
