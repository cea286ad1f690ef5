-- ===== src/Intents/Insertion.antt =====
-- A new row among the intents, as createIntent of apps/api/src/modules/intents/service.ts writes it:
-- ids stay unique, and the intents that were there stay as they are.
use vowgrid_api.Common.{ℕ, ◌≡◌, sym, ◌∙◌, ap, Bool, none, some, arith, inl, inr, Option-cases}
use vowgrid_api.Env.{Env}
use vowgrid_api.Prisma.{IsLawful}
use vowgrid_api.Prisma.Laws.{find_first-create, or_new}
use vowgrid_api.Rows.{Intent}
use vowgrid_api.States.{IntentState}
use vowgrid_api.World.{World, run_steps}
use vowgrid_api.World.Respects.{Respects, Respects-bind, Respects-query, Respects-raise_if}
use vowgrid_api.Intents.{intent_in, intent_is}
use vowgrid_api.Intents.Transition.{lookup_intent}
use vowgrid_api.Intents.Create.{CreateIntentInput, new_intent, store_intent, insert_intent}
use vowgrid_api.Intents.Progress.{Progress, HasUniqueIds, Advances, intent_row, stay}

module _ (env : Env) (L : IsLawful env.db) where
  abbrev next_intent : World env → ℕ
  next_intent w = env.db.next_id (λ (i : Intent). i.id) w.intents

  abbrev inserted : ℕ → CreateIntentInput → World env → World env
  inserted ws input w = record w {
    intents = env.db.create (new_intent (next_intent w) ws input) w.intents;
  }

  fresh_row : (w : World env) → intent_row env (next_intent w) w ≡ none
  fresh_row w = rw L.find_first-eq (L.next_id-fresh (λ (i : Intent). i.id) w.intents)

  row_inserted :
      (k ws : ℕ) (input : CreateIntentInput) (w : World env)
      → intent_row env k (inserted ws input w)
        ≡ or_new (intent_is k) (new_intent (next_intent w) ws input) (intent_row env k w)
  row_inserted k ws input w = find_first-create env.db L (intent_is k) _ w.intents

  lookup_inserted :
      (k v ws : ℕ) (input : CreateIntentInput) (w : World env)
      → lookup_intent env k v (inserted ws input w)
        ≡ or_new (intent_in k v) (new_intent (next_intent w) ws input) (lookup_intent env k v w)
  lookup_inserted k v ws input w = find_first-create env.db L (intent_in k v) _ w.intents

  -- A row that is new is found by its id, where no other has it.
  new_row :
      (k v : ℕ) (i r : Intent)
      → or_new (intent_in k v) r none ≡ some i
      → (k ≡ r.id) × (or_new (intent_is k) r none ≡ some i)
  new_row k v i r h = ground arith

  HasUniqueIds-inserted :
      (ws : ℕ) (input : CreateIntentInput) (w : World env)
      → HasUniqueIds env w
      → HasUniqueIds env (inserted ws input w)
  HasUniqueIds-inserted ws input w u k v i h = elim (Option-cases (lookup_intent env k v w)) [
    | inl missing ↦
        let new = new_intent (next_intent w) ws input in
        let facts = new_row k v i new (
          sym (ap (or_new (intent_in k v) new) missing)
          ∙ sym (lookup_inserted k v ws input w)
          ∙ h) in
        row_inserted k ws input w
        ∙ ap (or_new (intent_is k) new) (ap (λ n. intent_row env n w) facts.0 ∙ fresh_row w)
        ∙ facts.1
    | inr (j, found) ↦
        let new = new_intent (next_intent w) ws input in
        row_inserted k ws input w
        ∙ ap (or_new (intent_is k) new) (u k v j found)
        ∙ sym (ap (or_new (intent_in k v) new) found)
        ∙ sym (lookup_inserted k v ws input w)
        ∙ h
  ]

  Advances-inserted :
      (allowed : IntentState → Bool) (ws : ℕ) (input : CreateIntentInput) (w : World env)
      → Advances env allowed w (inserted ws input w)
  Advances-inserted allowed ws input w k i h =
      (i.status, row_inserted k ws input w ∙ ap (or_new (intent_is k) _) h, stay)

  store_intent-Progress :
      {allowed : IntentState → Bool} (ws : ℕ) (input : CreateIntentInput)
      → Respects (Progress env allowed) (store_intent env ws input)
  unfolding store_intent run_steps
  store_intent-Progress {allowed} ws input = record {
    run = λ w u. (HasUniqueIds-inserted ws input w u, Advances-inserted allowed ws input w);
  }

  pub insert_intent-Progress :
      {allowed : IntentState → Bool} (ws : ℕ) (input : CreateIntentInput)
      → Respects (Progress env allowed) (insert_intent env ws input)
  unfolding insert_intent
  insert_intent-Progress {allowed} ws input =
      Respects-bind (Respects-query _)
        (λ clash. Respects-bind (Respects-raise_if _ _) (λ _. store_intent-Progress ws input))
