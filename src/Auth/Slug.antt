-- ===== src/Auth/Slug.antt =====
-- apps/api/src/modules/auth/service.ts: the slug of a new workspace.
use mathlib.Core.Path.{subst}
use vowgrid_api.Common.{
  ℕ, zero, suc, ◌+◌, ◌<◌, ◌≡◌, refl, ◌∙◌, ap, String, ◌<>◌, Bool, none, some, str_eq, ◌==◌,
  if◌then◌else◌, ◌⊎◌, inl, inr, arith, Option-cases,
}
use vowgrid_api.Env.{Env}
use vowgrid_api.Billing.Rows.{Workspace}
use vowgrid_api.World.{World, Action, ok, ◌>>=◌, pure, query, ask, run_steps}

abbrev pub slug_is : String → Workspace → Bool
slug_is slug x = str_eq x.slug slug

unfoldable pub slugify_workspace_name : Env → String → String
slugify_workspace_name env name =
    let normalized = env.slug_text name in if str_eq normalized "" then "workspace" else normalized

module _ (env : Env) where
  unfoldable pub candidate : String → ℕ → String
  candidate base suffix =
      if suffix == 0 then base else env.first_chars 56 (base <> "-" <> env.decimal (suffix + 1))

  -- The loop from a suffix on, with the number of rounds that are left.
  unfoldable pub find_slug : String → ℕ → ℕ → Action env String
  unfolding candidate
  find_slug base suffix zero = do now ← ask env.clock; pure (base <> "-" <> env.decimal now)
  find_slug base suffix (suc rounds) = do
    existing ←
        query λ w. env.db.find_first (slug_is (candidate base suffix)) w.billing.workspaces_table
    elim existing [
      | none ↦ pure (candidate base suffix)
      | some x ↦ find_slug base (suffix + 1) rounds
    ]

  unfoldable pub create_unique_workspace_slug : String → Action env String
  create_unique_workspace_slug name =
      find_slug (env.first_chars 48 (slugify_workspace_name env name)) 0 1000

  -- No workspace has the slug.
  abbrev pub Free : World env → String → Type 0
  Free w slug = env.db.find_first (slug_is slug) w.billing.workspaces_table ≡ none

  abbrev pub Taken : World env → String → Type 0
  Taken w slug =
      (x : Workspace) × (env.db.find_first (slug_is slug) w.billing.workspaces_table ≡ some x)

  -- The first free candidate, or the moment of the call after the base where none is free.
  abbrev pub Chosen : World env → String → ℕ → ℕ → String → Type 0
  Chosen w base suffix rounds slug =
      ((k : ℕ) × (k < rounds)
        × (slug ≡ candidate base (suffix + k))
        × Free w slug
        × ((i : ℕ) → i < k → Taken w (candidate base (suffix + i))))
      ⊎ ((slug ≡ base <> "-" <> env.decimal (env.clock w.ticks))
          × ((i : ℕ) → i < rounds → Taken w (candidate base (suffix + i))))

  same : (n i : ℕ) → n + 1 + i ≡ n + suc i
  same n i = omega arith

  start : (n : ℕ) → n ≡ n + 0
  start n = omega arith

  all-Taken :
      (base : String) (w : World env) (suffix n : ℕ)
      → Taken w (candidate base suffix)
      → ((i : ℕ) → i < n → Taken w (candidate base (suffix + 1 + i)))
      → (i : ℕ) → i < suc n
      → Taken w (candidate base (suffix + i))
  all-Taken base w suffix n first rest zero h =
      subst (λ (k : ℕ). Taken w (candidate base k)) (start suffix) first
  all-Taken base w suffix n first rest (suc i) h =
      subst (λ (k : ℕ). Taken w (candidate base k)) (same suffix i) (rest i (omega (arith, h)))

  Chosen-later :
      (base : String) (w : World env) (suffix rounds : ℕ) (slug : String)
      → Taken w (candidate base suffix)
      → Chosen w base (suffix + 1) rounds slug
      → Chosen w base suffix (suc rounds) slug
  Chosen-later base w suffix rounds slug first (inl (k, bound, is, free, taken)) = inl (
    suc k,
    omega (arith, bound),
    is ∙ ap (candidate base) (same suffix k),
    free,
    all-Taken base w suffix k first taken,
  )
  Chosen-later base w suffix rounds slug first (inr (is, taken)) =
      inr (is, all-Taken base w suffix rounds first taken)

  find_slug-Chosen :
      (base : String) (w : World env) (suffix rounds : ℕ)
      → (slug : String) × ((find_slug base suffix rounds w).0 ≡ ok slug)
        × Chosen w base suffix rounds slug
  unfolding find_slug run_steps
  find_slug-Chosen base w suffix zero = (_, refl, inr (refl, λ i h. absurd (omega (arith, h))))
  find_slug-Chosen base w suffix (suc rounds) =
      elim (Option-cases
        (env.db.find_first (slug_is (candidate base suffix)) w.billing.workspaces_table)) [
          | inl free ↦ (
            candidate base suffix,
            rw free refl,
            inl (
              0,
              omega arith,
              ap (candidate base) (start suffix),
              free,
              λ i h. absurd (omega (arith, h)),
            ),
          )
          | inr (x, taken) ↦
              let (slug, returned, chosen) = find_slug-Chosen base w (suffix + 1) rounds in
              (slug, rw taken returned, Chosen-later base w suffix rounds slug (x, taken) chosen)
        ]

  -- The search for a slug ends with one: with the first of the thousand candidates that no workspace
  -- has, or, where they are all taken, with the moment of the call after the base.
  pub create_unique_workspace_slug-first_free :
      (name : String) (w : World env)
      → let base = env.first_chars 48 (slugify_workspace_name env name) in
        (slug : String) × ((create_unique_workspace_slug name w).0 ≡ ok slug)
        × Chosen w base 0 1000 slug
  unfolding create_unique_workspace_slug
  create_unique_workspace_slug-first_free name w =
      find_slug-Chosen (env.first_chars 48 (slugify_workspace_name env name)) w 0 1000
