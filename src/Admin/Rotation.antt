-- ===== src/Admin/Rotation.antt =====
-- apps/api/src/modules/workspace-admin/service.ts: a key that is rotated.
use package.text.Mathlib.TextPositions.{eq_refl}
use vowgrid_api.Common.{
  ℕ, suc, ◌≡◌, refl, ap, ◌∙◌, String, ◌<>◌, true, false, Option, none, some, arith, ltb, leb,
  str_eq, if◌then◌else◌,
}
use vowgrid_api.Env.{Env}
use vowgrid_api.Json.{text, object, end, field}
use vowgrid_api.Prisma.{IsLawful}
use vowgrid_api.Prisma.Laws.{find_first-update, find_first-create}
use vowgrid_api.Auth.Rows.{ApiKey}
use vowgrid_api.Auth.Tables.{is_some}
use vowgrid_api.Auth.Plugin.{
  key_by, key_is, hash_api_key, build_api_key_prefix, update_key, authenticate_api_key,
  generate_api_key_secret,
}
use vowgrid_api.Admin.Keys.{
  key_in, get_workspace_api_key_or_throw, serialize_api_key, create_key, key_event, active_key,
  expired_key, resolve_rotated_api_key_expiry, add_ttl_days, replace_key, rotate_workspace_api_key,
  resolve_api_key_status, ApiKeyResponse,
}
use vowgrid_api.World.{World, ok, is_err, run_steps}
use vowgrid_api.Audits.{AuditEventInput, emit_audit_event}
use vowgrid_api.Audits.Chain.{emit_audit_event-frame}
use vowgrid_api.Admin.KeyEnd.{ended, ended-refused, found_ended}

module _ (env : Env) where
  rotated_expiry : Option ℕ → ℕ → ℕ
  rotated_expiry none now = add_ttl_days now env.api_key_default_ttl_days
  rotated_expiry (some t) now =
      if ltb now t then t else add_ttl_days now env.api_key_default_ttl_days

  rotated_expiry_lem :
      (t : Option ℕ) (w : World env)
      → resolve_rotated_api_key_expiry env t w
        ≡ (ok (rotated_expiry t (env.clock w.ticks)), record w { ticks = suc w.ticks })
  unfolding resolve_rotated_api_key_expiry run_steps rotated_expiry
  rotated_expiry_lem none w = refl
  rotated_expiry_lem (some t) w = refl

  -- The key that a rotation creates.
  abbrev successor : ApiKey → String → ℕ → ℕ → World env → ApiKey
  successor k secret ws now w = record {
    id =
        env.db.next_id (λ (x : ApiKey). x.id)
          (env.db.update (key_is k.id) (ended env now) w.auth.api_keys);
    name = k.name;
    key_hash = hash_api_key env secret;
    key_prefix = build_api_key_prefix env secret;
    workspace_id = ws;
    scopes = k.scopes;
    expires_at = some (rotated_expiry k.expires_at (env.clock w.ticks));
    last_used_at = none;
    revoked_at = none;
  }

  abbrev with_successor : ApiKey → String → ℕ → ℕ → World env → World env
  with_successor k secret ws now w = record w {
    auth = record w.auth {
      api_keys =
          env.db.create (successor k secret ws now w)
            (env.db.update (key_is k.id) (ended env now) w.auth.api_keys);
    };
    ticks = suc w.ticks;
  }

  replace_key_lem :
      (k : ApiKey) (secret : String) (ws now : ℕ) (w : World env)
      → env.db.find_first (key_is k.id) w.auth.api_keys ≡ some k
      → replace_key env k secret ws now w
        ≡ (ok (successor k secret ws now w), with_successor k secret ws now w)
  unfolding replace_key update_key create_key run_steps
  replace_key_lem k secret ws now w by_id = ground (
    arith,
    rotated_expiry_lem k.expires_at (record w {
      auth = record w.auth {
        api_keys = env.db.update (key_is k.id) (ended env now) w.auth.api_keys;
      };
    }),
  )

  serialize_live :
      (k : ApiKey) (t : ℕ) (v : World env)
      → is_some k.revoked_at ≡ false
      → k.expires_at ≡ some t
      → serialize_api_key env k v ≡ (
        ok (record {
          row = k;
          status = if leb t (env.clock v.ticks) then expired_key else active_key;
        }),
        record v { ticks = suc v.ticks },
      )
  unfolding serialize_api_key resolve_api_key_status run_steps
  serialize_live k t v live at = simp (live, at) refl

  abbrev rotated_event : ApiKey → ApiKey → ℕ → String → AuditEventInput
  rotated_event k r ws actor = key_event env "workspace.api_key.rotated" r ws actor (
      object (
        field "previousApiKeyId" (text (env.id_text k.id)) (
          field "previousKeyPrefix" (text k.key_prefix)
            (field "newKeyPrefix" (text r.key_prefix) end))))

  rotate_lem :
      (id ws : ℕ) (actor : String) (w : World env) {k : ApiKey}
      → env.db.find_first (key_in id ws) w.auth.api_keys ≡ some k
      → env.db.find_first (key_is k.id) w.auth.api_keys ≡ some k
      → is_some k.revoked_at ≡ false
      → let out = rotate_workspace_api_key env id ws actor w in
        let v = record w { ticks = suc (suc w.ticks) } in
        let secret = "vgk_" <> env.random_token w.ticks in
        let r = successor k secret ws (env.clock (suc w.ticks)) v in
        let u =
          (emit_audit_event env
            (rotated_event k r ws actor)
            (with_successor k secret ws (env.clock (suc w.ticks)) v)).1 in
        (out.0
          ≡ ok (
            secret,
            record {
              row = r;
              status =
                  if leb (rotated_expiry k.expires_at (env.clock v.ticks)) (env.clock u.ticks)
                  then expired_key
                  else active_key;
            },
          ))
        × (out.1.auth ≡ (with_successor k secret ws (env.clock (suc w.ticks)) v).auth)
  unfolding rotate_workspace_api_key get_workspace_api_key_or_throw generate_api_key_secret
      run_steps
  rotate_lem id ws actor w {k} found by_id live =
      let v = record w { ticks = suc (suc w.ticks) } in
      let secret = "vgk_" <> env.random_token w.ticks in
      let r = successor k secret ws (env.clock (suc w.ticks)) v in
      let x = with_successor k secret ws (env.clock (suc w.ticks)) v in
      ground (
        arith,
        replace_key_lem k secret ws (env.clock (suc w.ticks)) v by_id,
        emit_audit_event-frame env (rotated_event k r ws actor) x,
        serialize_live r (rotated_expiry k.expires_at (env.clock v.ticks))
            (emit_audit_event env (rotated_event k r ws actor) x).1 refl refl,
      )

module _ (env : Env) (L : IsLawful env.db) (id ws : ℕ) (actor secret : String) (w v : World env)
    {k : ApiKey} (given : str_eq secret "" ≡ false)
    (found : env.db.find_first (key_in id ws) w.auth.api_keys ≡ some k)
    (by_id : env.db.find_first (key_is k.id) w.auth.api_keys ≡ some k)
    (by_secret : env.db.find_first (key_by (hash_api_key env secret)) w.auth.api_keys ≡ some k)
    (live : is_some k.revoked_at ≡ false) where
  created_old :
      (x : ApiKey) (now : ℕ)
      → env.db.find_first
          (key_by (hash_api_key env secret))
          (env.db.create x (env.db.update (key_is k.id) (ended env now) w.auth.api_keys))
        ≡ some (ended env now k)
  created_old x now =
      rw
        (
          find_first-create env.db L (key_by (hash_api_key env secret)) x
              (env.db.update (key_is k.id) (ended env now) w.auth.api_keys),
          found_ended env L secret w now by_secret,
        )
        refl

  created_new :
      (x : ApiKey) (now : ℕ) (hash : String)
      → env.db.find_first (key_by hash) w.auth.api_keys ≡ none
      → x.key_hash ≡ hash
      → env.db.find_first
          (key_by hash)
          (env.db.create x (env.db.update (key_is k.id) (ended env now) w.auth.api_keys))
        ≡ some x
  created_new x now hash unused own =
      rw
        (
          find_first-create env.db L (key_by hash) x
              (env.db.update (key_is k.id) (ended env now) w.auth.api_keys),
          find_first-update env.db L (key_by hash) (key_is k.id) (ended env now) w.auth.api_keys
              (λ r. refl),
          unused,
        )
        (rw (ap (λ (h : String). str_eq h hash) own ∙ eq_refl hash) refl)

  -- The rotation of a key succeeds. From then on, while the keys are these, its secret authenticates no
  -- request, and the new secret, which no key had, belongs to a key of that workspace with the scopes
  -- of the old one that is not revoked.
  pub rotate_workspace_api_key-replaces :
      let out = rotate_workspace_api_key env id ws actor w in
      let fresh = "vgk_" <> env.random_token w.ticks in
      v.auth.api_keys ≡ out.1.auth.api_keys
      → env.db.find_first (key_by (hash_api_key env fresh)) w.auth.api_keys ≡ none
      → (is_err (authenticate_api_key env (some secret) v).0 ≡ true)
        × ((r : ApiKeyResponse) × (out.0 ≡ ok (fresh, r))
            × (r.row.workspace_id ≡ ws)
            × (r.row.scopes ≡ k.scopes)
            × (is_some r.row.revoked_at ≡ false)
            × (env.db.find_first (key_by (hash_api_key env fresh)) v.auth.api_keys ≡ some r.row))
  rotate_workspace_api_key-replaces same unused =
      let c = rotate_lem env id ws actor w found by_id live in
      (
        ended-refused env secret v k (env.clock (suc w.ticks)) given
            (rw (same, c.1) (created_old _ (env.clock (suc w.ticks)))),
        (
          _,
          c.0,
          refl,
          refl,
          refl,
          rw (same, c.1) (created_new _ (env.clock (suc w.ticks)) _ unused refl),
        ),
      )
