-- ===== src/Intents.antt =====
-- apps/api/src/modules/intents/service.ts: the transition of an intent, which every later stage
-- goes through.
pub mod Transition
pub mod Progress
pub mod Walks
pub mod Create
pub mod Insertion
use vowgrid_api.Common.{ℕ, String, ◌<>◌, ◌≡◌, Bool, ◌&&◌, not, Option, none, some, ◌==◌, arith}
use vowgrid_api.Env.{Env}
use vowgrid_api.Json.{Json, text, object, end, field}
use vowgrid_api.Rows.{Intent, ActorType}
use vowgrid_api.States.{IntentState, state_name, is_valid_transition, proposed}
use vowgrid_api.World.{
  World, Action, not_found, invalid_state_transition, record_missing, ◌>>=◌, ◌>>◌, pure, query,
  write, or_raise, raise_if,
}
use vowgrid_api.Audits.{emit_audit_event}

-- `where: { id, workspaceId }` and `where: { id }`
abbrev pub intent_in : ℕ → ℕ → Intent → Bool
intent_in id ws i = i.id == id && i.workspace_id == ws

abbrev pub intent_is : ℕ → Intent → Bool
intent_is id i = i.id == id

abbrev pub with_status : IntentState → Intent → Intent
with_status s i = record i { status = s }

module _ (env : Env) where
  unfoldable pub find_intent : ℕ → ℕ → Action env Intent
  find_intent id ws = do
    found ← query λ w. env.db.find_first (intent_in id ws) w.intents
    or_raise found (not_found "Intent" id)

  -- `prisma.intent.update`, which fails where there is no such row.
  unfoldable pub update_intent_status : ℕ → IntentState → Action env Intent
  update_intent_status id target = do
    found ← query λ w. env.db.find_first (intent_is id) w.intents
    old ← or_raise found record_missing
    write λ w. record w { intents = env.db.update (intent_is id) (with_status target) w.intents }
    pure (with_status target old)

  unfoldable pub transition_intent : ℕ → ℕ → IntentState → String → ActorType → Action env Intent
  unfolding find_intent update_intent_status
  transition_intent id ws target actor_id actor_type = do
    intent ← find_intent id ws
    raise_if (not (is_valid_transition intent.status target))
        (invalid_state_transition intent.status target)
    updated ← update_intent_status id target
    emit_audit_event env (record {
      action = "intent." <> state_name target;
      entity_type = "intent";
      entity_id = id;
      actor_type = actor_type;
      actor_id = actor_id;
      workspace_id = ws;
      metadata = some (
          object (
            field "from" (text (state_name intent.status))
              (field "to" (text (state_name target)) end)));
    })
    pure updated

  unfoldable pub propose_intent : ℕ → ℕ → String → ActorType → Action env Intent
  unfolding transition_intent
  propose_intent id ws actor_id actor_type = transition_intent id ws proposed actor_id actor_type
