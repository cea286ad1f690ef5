-- ===== src/Intents/Create.antt =====
-- apps/api/src/modules/intents/service.ts: createIntent.
use vowgrid_api.Common.{ℕ, String, Bool, true, false, Option, none, some, str_eq, if◌then◌else◌}
use vowgrid_api.Env.{Env}
use vowgrid_api.Json.{Json, text, object, end, field}
use vowgrid_api.Rows.{Intent, ActorType}
use vowgrid_api.States.{draft}
use vowgrid_api.World.{Action, unique_violation, ◌>>=◌, ◌>>◌, pure, query, write, raise_if}
use vowgrid_api.Audits.{emit_audit_event}
use vowgrid_api.Billing.Entitlements.{assert_can_create_intent}
use vowgrid_api.Billing.Invoices.{track_intent_creation}

pub record CreateIntentInput : Type 0 where
  pub title : String
  pub action : String
  pub connector_id : Option ℕ
  pub agent_id : ℕ
  pub parameters : Option Json
  pub environment : String
  pub idempotency_key : Option String

-- `where: { idempotencyKey }`
abbrev pub has_key : String → Intent → Bool
has_key key i = elim i.idempotency_key [ none ↦ false | some k ↦ str_eq k key ]

-- A key that is neither missing nor empty.
abbrev pub given : Option String → Option String
given none = none
given (some key) = if str_eq key "" then none else some key

abbrev pub new_intent : ℕ → ℕ → CreateIntentInput → Intent
new_intent id ws input = record {
  id = id;
  title = input.title;
  action = input.action;
  connector_id = input.connector_id;
  agent_id = input.agent_id;
  workspace_id = ws;
  status = draft;
  parameters = input.parameters;
  environment = input.environment;
  idempotency_key = input.idempotency_key;
}

module _ (env : Env) where
  unfoldable pub store_intent : ℕ → CreateIntentInput → Action env Intent
  store_intent ws input = do
    id ← query λ w. env.db.next_id (λ (i : Intent). i.id) w.intents
    write λ w. record w { intents = env.db.create (new_intent id ws input) w.intents }
    pure (new_intent id ws input)

  -- `prisma.intent.create`; the idempotency key is unique.
  unfoldable pub insert_intent : ℕ → CreateIntentInput → Action env Intent
  unfolding store_intent
  insert_intent ws input = do
    clash ← query λ w. elim input.idempotency_key [
      | none ↦ none
      | some key ↦ env.db.find_first (has_key key) w.intents
    ]
    raise_if (elim clash [ none ↦ false | some _ ↦ true ]) unique_violation
    store_intent ws input

  -- The rest of the handler, where no intent has the key.
  unfoldable pub create_new_intent : ℕ → CreateIntentInput → String → ActorType → Action env Intent
  unfolding insert_intent
  create_new_intent ws input actor_id actor_type = do
    billing ← assert_can_create_intent env ws
    intent ← insert_intent ws input
    emit_audit_event env (record {
      action = "intent.created";
      entity_type = "intent";
      entity_id = intent.id;
      actor_type = actor_type;
      actor_id = actor_id;
      workspace_id = ws;
      metadata =
          some
            (object (field "title" (text intent.title) (field "action" (text intent.action) end)));
    })
    track_intent_creation env ws billing
    pure intent

  unfoldable pub create_intent : ℕ → CreateIntentInput → String → ActorType → Action env Intent
  unfolding create_new_intent
  create_intent ws input actor_id actor_type = do
    existing ← query λ w. elim (given input.idempotency_key) [
      | none ↦ none
      | some key ↦ env.db.find_first (has_key key) w.intents
    ]
    elim existing [
      | some intent ↦ pure intent
      | none ↦ create_new_intent ws input actor_id actor_type
    ]
