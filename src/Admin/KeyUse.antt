-- ===== src/Admin/KeyUse.antt =====
-- apps/api/src/modules/workspace-admin/service.ts and apps/api/src/plugins/auth.plugin.ts: the secrets
-- that authenticate, before and after a key is revoked or rotated.
use vowgrid_api.Common.{
  ℕ, ◌≤◌, ◌≡◌, refl, String, false, Option, none, some, ltb, arith, str_eq, inl, inr, Bool-cases,
  Option-cases,
}
use vowgrid_api.Env.{Env}
use vowgrid_api.Auth.Rows.{ApiKey}
use vowgrid_api.Auth.Tables.{is_some}
use vowgrid_api.Auth.Plugin.{
  AuthContext, by_api_key, key_by, hash_api_key, check_expiry, use_key, authenticate_api_key,
}
use vowgrid_api.World.{World, ok, run_steps, pure}
use vowgrid_api.World.Yields.{Yields, Yields-apply, Yields-bind, Yields-then, Yields-weaken}

-- Whether a time, where there is one, has not passed by the clock.
abbrev pub Unexpired : (env : Env) → World env → Option ℕ → Type 0
Unexpired env w none = Unit
Unexpired env w (some t) = env.clock w.ticks ≤ t

module _ (env : Env) where
  -- What a secret that authenticates has: a key that is not revoked and not expired.
  abbrev pub Admitted : World env → String → AuthContext → Type 0
  Admitted w secret c =
      (k : ApiKey) × (env.db.find_first (key_by (hash_api_key env secret)) w.auth.api_keys ≡ some k)
      × (is_some k.revoked_at ≡ false)
      × Unexpired env w k.expires_at
      × (c ≡ by_api_key k.workspace_id k.id k.scopes)

  check_expiry-Unexpired :
      (t : Option ℕ) (w : World env) → Yields (λ _. Unexpired env w t) (check_expiry env t w)
  unfolding check_expiry run_steps
  check_expiry-Unexpired none w = tt
  check_expiry-Unexpired (some t) w = elim (Bool-cases (ltb t (env.clock w.ticks))) [
    | inl past ↦ rw past tt
    | inr in_time ↦ rw in_time (not_past t (env.clock w.ticks) in_time)
  ]
    where
      not_past : (t n : ℕ) → ltb t n ≡ false → n ≤ t
      not_past t n h = ground arith

  use_key-Yields :
      (k : ApiKey) (w : World env)
      → Yields (λ c. c ≡ by_api_key k.workspace_id k.id k.scopes) (use_key env k w)
  unfolding use_key pure
  use_key-Yields k w = Yields-bind _ _ _ w (λ now v _. Yields-bind _ _ _ v (λ _ u _. refl))

  authenticate_api_key-Yields :
      (secret : String) (w : World env)
      → str_eq secret "" ≡ false
      → Yields (Admitted w secret) (authenticate_api_key env (some secret) w)
  unfolding authenticate_api_key run_steps
  authenticate_api_key-Yields secret w given =
      rw given
        (elim (Option-cases
          (env.db.find_first (key_by (hash_api_key env secret)) w.auth.api_keys)) [
            | inl missing ↦ rw missing tt
            | inr (k, found) ↦ rw found (elim (Bool-cases (is_some k.revoked_at)) [
              | inl gone ↦ rw gone tt
              | inr live ↦ rw live (
                  Yields-then (λ _. Unexpired env w k.expires_at) (Admitted w secret)
                    (check_expiry env k.expires_at) (λ _. use_key env k) w
                    (check_expiry-Unexpired k.expires_at w)
                    (λ _ v in_time.
                      Yields-weaken _ (Admitted w secret) (use_key env k v)
                        (λ c same. (k, found, live, in_time, same)) (use_key-Yields k v)))
            ])
          ])

  -- A secret authenticates a request only by a key that has its hash, is not revoked and not past its
  -- expiry, and the request acts in that key's workspace with its scopes.
  pub authenticate_api_key-Admitted :
      (secret : String) (w : World env) {c : AuthContext}
      → str_eq secret "" ≡ false
      → (authenticate_api_key env (some secret) w).0 ≡ ok c
      → Admitted w secret c
  authenticate_api_key-Admitted secret w given out =
      Yields-apply (Admitted w secret) _ (authenticate_api_key-Yields secret w given) out
