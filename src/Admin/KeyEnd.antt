-- ===== src/Admin/KeyEnd.antt =====
-- apps/api/src/modules/workspace-admin/service.ts: a key that is revoked or rotated.
use vowgrid_api.Common.{ℕ, suc, ◌≡◌, refl, String, true, false, some, arith, ==_iff, str_eq}
use vowgrid_api.Env.{Env}
use vowgrid_api.Json.{text, object, end, field}
use vowgrid_api.Prisma.{IsLawful}
use vowgrid_api.Prisma.Laws.{find_first-update}
use vowgrid_api.Auth.Rows.{ApiKey}
use vowgrid_api.Auth.Tables.{is_some}
use vowgrid_api.Auth.Plugin.{key_by, key_is, hash_api_key, update_key, authenticate_api_key}
use vowgrid_api.Admin.Keys.{
  key_in, get_workspace_api_key_or_throw, revoke_workspace_api_key, serialize_api_key, key_event,
  revoked_key, resolve_api_key_status,
}
use vowgrid_api.World.{World, ok, is_err, run_steps}
use vowgrid_api.Audits.Chain.{emit_audit_event-frame}

module _ (env : Env) where
  abbrev pub ended : ℕ → ApiKey → ApiKey
  ended now k = record k { revoked_at = some now }

  abbrev pub Holds : World env → String → ApiKey → Type 0
  Holds w secret k = env.db.find_first (key_by (hash_api_key env secret)) w.auth.api_keys ≡ some k

  pub ended-refused :
      (secret : String) (v : World env) (k : ApiKey) (now : ℕ)
      → str_eq secret "" ≡ false
      → Holds v secret (ended now k)
      → is_err (authenticate_api_key env (some secret) v).0 ≡ true
  unfolding authenticate_api_key run_steps
  ended-refused secret v k now given found = rw (given, found) refl

  serialize_ended :
      (k : ApiKey) (now : ℕ) (w : World env)
      → serialize_api_key env (ended now k) w
        ≡ (ok (record { row = ended now k; status = revoked_key }), w)
  unfolding serialize_api_key resolve_api_key_status run_steps
  serialize_ended k now w = refl

  abbrev with_ended : ApiKey → World env → World env
  with_ended k w = record w {
    auth = record w.auth {
      api_keys = env.db.update (key_is k.id) (ended (env.clock w.ticks)) w.auth.api_keys;
    };
    ticks = suc w.ticks;
  }

  revoke_lem :
      (id ws : ℕ) (actor : String) (w : World env) {k : ApiKey}
      → env.db.find_first (key_in id ws) w.auth.api_keys ≡ some k
      → env.db.find_first (key_is k.id) w.auth.api_keys ≡ some k
      → is_some k.revoked_at ≡ false
      → let out = revoke_workspace_api_key env id ws actor w in
        (out.0 ≡ ok (record { row = ended (env.clock w.ticks) k; status = revoked_key }))
        × (out.1.auth ≡ (with_ended k w).auth)
  unfolding revoke_workspace_api_key get_workspace_api_key_or_throw update_key run_steps
  revoke_lem id ws actor w {k} found by_id live = ground (
    arith,
    emit_audit_event-frame env
        (key_event env "workspace.api_key.revoked" (ended (env.clock w.ticks) k) ws actor
          (object (field "keyPrefix" (text k.key_prefix) end)))
        (with_ended k w),
    serialize_ended k (env.clock w.ticks),
  )

module _ (env : Env) (L : IsLawful env.db) where
  pub found_ended :
      (secret : String) (w : World env) {k : ApiKey} (now : ℕ)
      → Holds env w secret k
      → env.db.find_first
          (key_by (hash_api_key env secret))
          (env.db.update (key_is k.id) (ended env now) w.auth.api_keys)
        ≡ some (ended env now k)
  found_ended secret w {k} now by_secret =
      rw
        (
          find_first-update env.db L (key_by (hash_api_key env secret)) (key_is k.id)
              (ended env now) w.auth.api_keys (λ r. refl),
          by_secret,
        )
        (rw ((==_iff k.id k.id).1 refl) refl)

module _ (env : Env) (L : IsLawful env.db) (id ws : ℕ) (actor secret : String) (w v : World env)
    {k : ApiKey} (given : str_eq secret "" ≡ false)
    (found : env.db.find_first (key_in id ws) w.auth.api_keys ≡ some k)
    (by_id : env.db.find_first (key_is k.id) w.auth.api_keys ≡ some k)
    (by_secret : env.db.find_first (key_by (hash_api_key env secret)) w.auth.api_keys ≡ some k)
    (live : is_some k.revoked_at ≡ false) where
  -- The revocation of a key succeeds, and from then on its secret authenticates no request, while the
  -- keys are these.
  pub revoke_workspace_api_key-ends :
      let out = revoke_workspace_api_key env id ws actor w in
      v.auth.api_keys ≡ out.1.auth.api_keys
      → (is_err out.0 ≡ false) × (is_err (authenticate_api_key env (some secret) v).0 ≡ true)
  revoke_workspace_api_key-ends same =
      let c = revoke_lem env id ws actor w found by_id live in
      (
        rw c.0 refl,
        ended-refused env secret v k (env.clock w.ticks) given
            (rw (same, c.1) (found_ended env L secret w (env.clock w.ticks) by_secret)),
      )
