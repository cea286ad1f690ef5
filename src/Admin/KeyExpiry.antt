-- ===== src/Admin/KeyExpiry.antt =====
-- apps/api/src/modules/workspace-admin/service.ts: how long a new API key lasts.
use vowgrid_api.Common.{
  ℕ, suc, ◌+◌, ◌*◌, ◌≤◌, ◌<◌, ◌≡◌, String, false, Option, ltb, leb, arith, inl, inr, Bool-cases,
  Option-cases,
}
use vowgrid_api.Env.{Env}
use vowgrid_api.Billing.Catalog.{day_ms}
use vowgrid_api.Auth.Tables.{truthy}
use vowgrid_api.Admin.Keys.{add_ttl_days, resolve_api_key_expiry}
use vowgrid_api.World.{World, ok, run_steps}
use vowgrid_api.World.Yields.{Yields, Yields-apply}

module _ (env : Env) where
  -- The expiry of a new key.
  abbrev InBounds : World env → ℕ → Type 0
  InBounds w e =
      (env.clock w.ticks < e) × (e ≤ env.clock w.ticks + env.api_key_max_ttl_days * day_ms)

  expiry-Yields :
      (given : Option String) (w : World env)
      → 1 ≤ env.api_key_default_ttl_days
      → env.api_key_default_ttl_days ≤ env.api_key_max_ttl_days
      → ((n : ℕ) → env.clock n ≤ env.clock (suc n))
      → Yields (InBounds w) (resolve_api_key_expiry env given w)
  unfolding resolve_api_key_expiry run_steps add_ttl_days
  expiry-Yields given w d m ticking = elim (Option-cases (truthy given)) [
    | inl absent ↦ rw absent (omega (arith, d), omega (arith, m))
    | inr (s, present) ↦ rw present (elim (Option-cases (env.parse_date s)) [
      | inl never ↦ rw never tt
      | inr (t, at) ↦ rw at (elim (Bool-cases (leb t (env.clock (suc w.ticks)))) [
        | inl past ↦ rw past tt
        | inr future ↦
            rw future
              (elim (Bool-cases
                (ltb (add_ttl_days (env.clock w.ticks) env.api_key_max_ttl_days) t)) [
                  | inl far ↦ rw far tt
                  | inr near ↦
                      rw near (later t w.ticks future, near_enough t (env.clock w.ticks) near)
                ])
      ])
    ])
  ]
    where
      later : (t n : ℕ) → leb t (env.clock (suc n)) ≡ false → env.clock n < t
      later t n h = ground (arith, ticking n)

      near_enough :
          (t n : ℕ)
          → ltb (add_ttl_days n env.api_key_max_ttl_days) t ≡ false
          → t ≤ n + env.api_key_max_ttl_days * day_ms
      near_enough t n h = ground arith

  -- A new API key expires after the clock's reading at the start and within the greatest number of days
  -- after it, where the default is from one day to that number and the clock does not go back.
  pub resolve_api_key_expiry-bounded :
      (given : Option String) (w : World env) {e : ℕ}
      → 1 ≤ env.api_key_default_ttl_days
      → env.api_key_default_ttl_days ≤ env.api_key_max_ttl_days
      → ((n : ℕ) → env.clock n ≤ env.clock (suc n))
      → (resolve_api_key_expiry env given w).0 ≡ ok e
      → (env.clock w.ticks < e) × (e ≤ env.clock w.ticks + env.api_key_max_ttl_days * day_ms)
  resolve_api_key_expiry-bounded given w d m ticking out =
      Yields-apply (InBounds w) _ (expiry-Yields given w d m ticking) out
