-- ===== src/Admin/Keys.antt =====
-- apps/api/src/modules/workspace-admin/service.ts: the API keys of a workspace.
use vowgrid_api.Common.{
  ℕ, ◌+◌, ◌*◌, String, ◌<>◌, Bool, ◌&&◌, Option, none, some, List, [], ◌∷◌, ltb, leb, ◌==◌,
  if◌then◌else◌,
}
use vowgrid_api.Env.{Env}
use vowgrid_api.Json.{Json, text, object, end, field, null}
use vowgrid_api.Rows.{user}
use vowgrid_api.Billing.Catalog.{day_ms}
use vowgrid_api.Auth.Rows.{ApiKey}
use vowgrid_api.Auth.Tables.{is_some, truthy, put_auth}
use vowgrid_api.Auth.Plugin.{
  hash_api_key, build_api_key_prefix, generate_api_key_secret, update_key,
}
use vowgrid_api.World.{
  Action, not_found, validation, conflict, ◌>>=◌, ◌>>◌, pure, query, or_raise, raise_if, ask,
  transaction,
}
use vowgrid_api.Audits.{AuditEventInput, emit_audit_event}

pub data ApiKeyStatus : Type 0 where
  active_key revoked_key expired_key : ApiKeyStatus

pub record ApiKeyResponse : Type 0 where
  pub row : ApiKey
  pub status : ApiKeyStatus

unfoldable pub add_ttl_days : ℕ → ℕ → ℕ
add_ttl_days from days = from + days * day_ms

abbrev pub key_in : ℕ → ℕ → ApiKey → Bool
key_in id ws k = k.id == id && k.workspace_id == ws

-- The time of an expiry, or `null`.
abbrev pub time_field : Env → Option ℕ → Json
time_field env none = null
time_field env (some t) = text (env.iso_text t)

module _ (env : Env) where
  -- The clock is read only where the key has an expiry and is not revoked.
  unfoldable pub resolve_api_key_status : ApiKey → Action env ApiKeyStatus
  resolve_api_key_status k = if is_some k.revoked_at then pure revoked_key else elim k.expires_at [
    | none ↦ pure active_key
    | some t ↦ (do now ← ask env.clock; pure (if leb t now then expired_key else active_key))
  ]

  unfoldable pub serialize_api_key : ApiKey → Action env ApiKeyResponse
  unfolding resolve_api_key_status
  serialize_api_key k = do
    status ← resolve_api_key_status k
    pure (record { row = k; status = status })

  unfoldable pub resolve_api_key_expiry : Option String → Action env ℕ
  unfolding add_ttl_days
  resolve_api_key_expiry given = do
    now ← ask env.clock
    elim (truthy given) [
      | none ↦ pure (add_ttl_days now env.api_key_default_ttl_days)
      | some s ↦ (do
        parsed ←
            or_raise (env.parse_date s) (validation "API key expiry must be a valid ISO datetime.")
        later ← ask env.clock
        raise_if (leb parsed later) (validation "API key expiry must be in the future.")
        raise_if (ltb (add_ttl_days now env.api_key_max_ttl_days) parsed) (
            validation (
              "API key expiry cannot be more than "
              <> env.decimal env.api_key_max_ttl_days
              <> " days in the future."))
        pure parsed)
    ]

  unfoldable pub resolve_rotated_api_key_expiry : Option ℕ → Action env ℕ
  unfolding add_ttl_days
  resolve_rotated_api_key_expiry existing = do
    now ← ask env.clock
    elim existing [
      | none ↦ pure (add_ttl_days now env.api_key_default_ttl_days)
      | some t ↦ pure (if ltb now t then t else add_ttl_days now env.api_key_default_ttl_days)
    ]

  unfoldable pub get_workspace_api_key_or_throw : ℕ → ℕ → Action env ApiKey
  get_workspace_api_key_or_throw id ws = do
    found ← query λ w. env.db.find_first (key_in id ws) w.auth.api_keys
    or_raise found (not_found "ApiKey" id)

  -- `apiKey.create`
  unfoldable pub create_key : String → String → ℕ → List String → ℕ → Action env ApiKey
  unfolding hash_api_key build_api_key_prefix
  create_key name secret ws scopes expires_at = do
    id ← query λ w. env.db.next_id (λ (k : ApiKey). k.id) w.auth.api_keys
    let row : ApiKey = record {
      id = id;
      name = name;
      key_hash = hash_api_key env secret;
      key_prefix = build_api_key_prefix env secret;
      workspace_id = ws;
      scopes = scopes;
      expires_at = some expires_at;
      last_used_at = none;
      revoked_at = none;
    }
    put_auth λ a. record a { api_keys = env.db.create row a.api_keys }
    pure row

  abbrev pub key_event : String → ApiKey → ℕ → String → Json → AuditEventInput
  key_event action k ws actor_id metadata = record {
    action = action;
    entity_type = "api_key";
    entity_id = k.id;
    actor_type = user;
    actor_id = actor_id;
    workspace_id = ws;
    metadata = some metadata;
  }

  unfoldable pub create_workspace_api_key :
      ℕ → String → Option String → String → Action env (String × ApiKeyResponse)
  unfolding generate_api_key_secret resolve_api_key_expiry create_key serialize_api_key
  create_workspace_api_key ws name expires_at actor_id = do
    secret ← generate_api_key_secret env
    expiry ← resolve_api_key_expiry expires_at
    row ← create_key (env.trim name) secret ws ("*" ∷ []) expiry
    emit_audit_event env (
        key_event "workspace.api_key.created" row ws actor_id (
          object (
            field "keyPrefix" (text row.key_prefix)
              (field "expiresAt" (time_field env row.expires_at) end))))
    response ← serialize_api_key row
    pure (secret, response)

  unfoldable pub revoke_workspace_api_key : ℕ → ℕ → String → Action env ApiKeyResponse
  unfolding get_workspace_api_key_or_throw update_key serialize_api_key
  revoke_workspace_api_key id ws actor_id = do
    existing ← get_workspace_api_key_or_throw id ws
    if is_some existing.revoked_at then serialize_api_key existing else (do
      now ← ask env.clock
      row ← update_key env existing.id (λ (k : ApiKey). record k { revoked_at = some now })
      emit_audit_event env (
          key_event "workspace.api_key.revoked" row ws actor_id
            (object (field "keyPrefix" (text row.key_prefix) end)))
      serialize_api_key row)

  -- The transaction of a rotation: the old key is revoked and the new one created.
  unfoldable pub replace_key : ApiKey → String → ℕ → ℕ → Action env ApiKey
  unfolding update_key resolve_rotated_api_key_expiry create_key
  replace_key existing secret ws now = do
    update_key env existing.id (λ (k : ApiKey). record k { revoked_at = some now })
    expiry ← resolve_rotated_api_key_expiry existing.expires_at
    create_key existing.name secret ws existing.scopes expiry

  unfoldable pub rotate_workspace_api_key : ℕ → ℕ → String → Action env (String × ApiKeyResponse)
  unfolding get_workspace_api_key_or_throw generate_api_key_secret replace_key serialize_api_key
  rotate_workspace_api_key id ws actor_id = do
    existing ← get_workspace_api_key_or_throw id ws
    raise_if (is_some existing.revoked_at) (conflict "Revoked API keys cannot be rotated.")
    secret ← generate_api_key_secret env
    now ← ask env.clock
    rotated ← transaction (replace_key existing secret ws now)
    emit_audit_event env (
        key_event "workspace.api_key.rotated" rotated ws actor_id (
          object (
            field "previousApiKeyId" (text (env.id_text existing.id)) (
              field "previousKeyPrefix" (text existing.key_prefix)
                (field "newKeyPrefix" (text rotated.key_prefix) end)))))
    response ← serialize_api_key rotated
    pure (secret, response)
