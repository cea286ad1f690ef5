-- ===== src/Auth/Plugin.antt =====
-- apps/api/src/plugins/auth.plugin.ts and apps/api/src/common/api-keys.ts: who sends a request.
use Prim.Native.Char.{code}
use vowgrid_api.Common.{
  ℕ, String, ◌<>◌, Bool, Option, none, some, List, ltb, ◌==◌, str_eq, if◌then◌else◌,
}
use vowgrid_api.Env.{Env}
use vowgrid_api.Rows.{ActorType, user, agent}
use vowgrid_api.Auth.Rows.{ApiKey}
use vowgrid_api.Auth.Tables.{is_some, truthy, put_auth}
use vowgrid_api.Auth.Sessions.{AuthenticationContext, get_session_authentication_context}
use vowgrid_api.World.{
  Action, unauthorized, record_missing, ◌>>=◌, ◌>>◌, pure, query, or_raise, raise_if, ask,
  try_catch,
}

-- `authType`, with what each kind of request carries.
pub data AuthContext : Type 0 where
  -- the workspace, the key and its scopes
  by_api_key : ℕ → ℕ → List String → AuthContext
  by_session : AuthenticationContext → AuthContext

abbrev pub key_by : String → ApiKey → Bool
key_by hash k = str_eq k.key_hash hash

abbrev pub key_is : ℕ → ApiKey → Bool
key_is id k = k.id == id

-- The rest of a text after a prefix.
unfoldable pub strip_prefix : String → String → Option String
strip_prefix String.[] s = some s
strip_prefix (String.◌∷◌ c p) String.[] = none
strip_prefix (String.◌∷◌ c p) (String.◌∷◌ d s) =
    let rest = strip_prefix p s in if code c == code d then rest else none

unfoldable pub get_bearer_token : Env → Option String → Option String
unfolding strip_prefix
get_bearer_token env none = none
get_bearer_token env (some authorization) = elim (strip_prefix "Bearer " authorization) [
  | none ↦ none
  | some token ↦ some (env.trim token)
]

unfoldable pub hash_api_key : Env → String → String
hash_api_key env key = env.sha256_hex (env.api_key_salt <> ":" <> key)

unfoldable pub build_api_key_prefix : Env → String → String
build_api_key_prefix env key = env.first_chars 12 key

unfoldable pub get_actor_id : Env → AuthContext → String
get_actor_id env (by_api_key ws id scopes) = env.id_text id
get_actor_id env (by_session c) = env.id_text c.user_id

unfoldable pub get_actor_type : AuthContext → ActorType
get_actor_type (by_api_key ws id scopes) = agent
get_actor_type (by_session c) = user

module _ (env : Env) where
  unfoldable pub generate_api_key_secret : Action env String
  generate_api_key_secret = do token ← ask env.random_token; pure ("vgk_" <> token)

  -- `prisma.apiKey.update`
  unfoldable pub update_key : ℕ → (ApiKey → ApiKey) → Action env ApiKey
  update_key id f = do
    found ← query λ w. env.db.find_first (key_is id) w.auth.api_keys
    old ← or_raise found record_missing
    put_auth λ a. record a { api_keys = env.db.update (key_is id) f a.api_keys }
    pure (f old)

  -- Whether a key is past its expiry, where it has one.
  unfoldable pub check_expiry : Option ℕ → Action env (Unit {0})
  check_expiry none = pure tt
  check_expiry (some t) = do
    now ← ask env.clock
    raise_if (ltb t now) (unauthorized "API key has expired.")

  -- The update of the last use is not waited for, and its failure goes unnoticed.
  unfoldable pub use_key : ApiKey → Action env AuthContext
  unfolding update_key
  use_key row = do
    now ← ask env.clock
    try_catch (update_key row.id (λ (k : ApiKey). record k { last_used_at = some now }) >> pure tt)
        (λ e. pure tt)
    pure (by_api_key row.workspace_id row.id row.scopes)

  unfoldable pub authenticate_api_key : Option String → Action env AuthContext
  unfolding hash_api_key check_expiry use_key
  authenticate_api_key header = do
    key ← or_raise (truthy header) (unauthorized "Missing API key. Provide X-Api-Key header.")
    found ← query λ w. env.db.find_first (key_by (hash_api_key env key)) w.auth.api_keys
    row ← or_raise found (unauthorized "Invalid API key.")
    raise_if (is_some row.revoked_at) (unauthorized "API key has been revoked.")
    check_expiry row.expires_at
    use_key row

  unfoldable pub authenticate_session : Option String → Action env AuthContext
  unfolding get_bearer_token get_session_authentication_context
  authenticate_session authorization = do
    token ←
        or_raise (truthy (get_bearer_token env authorization))
          (unauthorized "Missing bearer token. Provide Authorization: Bearer <session>.")
    c ← get_session_authentication_context env token
    pure (by_session c)

  -- The headers `authorization` and `x-api-key`.
  unfoldable pub authenticate : Option String → Option String → Action env AuthContext
  unfolding get_bearer_token authenticate_session authenticate_api_key
  authenticate authorization api_key =
      if is_some (truthy (get_bearer_token env authorization))
      then authenticate_session authorization
      else authenticate_api_key api_key
