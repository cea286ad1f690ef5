-- ===== src/Audits.antt =====
-- apps/api/src/lib/audit-integrity.ts and apps/api/src/modules/audits/service.ts: the audit trail,
-- chained by keyed hashes.
pub mod Chain
use vowgrid_api.Common.{
  ℕ, String, Bool, ◌&&◌, ◌||◌, Option, none, some, ltb, ◌==◌, if◌then◌else◌, str_eq,
}
use vowgrid_api.Env.{Env}
use vowgrid_api.Json.{
  Json, Items, Fields, null, bool, number, text, array, object, nil, cons, end, field,
}
use vowgrid_api.Rows.{ActorType, user, agent, system, AuditEvent}
use vowgrid_api.World.{
  Action, thrown, ◌>>=◌, ◌>>◌, pure, ask, query, write, raise_if, try_catch, transaction,
}

-- `sortValue`, with the stable sort of the entries by their keys.
insert_entry : (String → String → Bool) → String → Json → Fields → Fields
insert_entry le k v end = field k v end
insert_entry le k v (field j w rest) =
    let later = insert_entry le k v rest in
    if le k j then field k v (field j w rest) else field j w later

unfoldable mutual
  unfolding insert_entry

  pub sort_value : (String → String → Bool) → Json → Json
  sort_value le null = null
  sort_value le (bool b) = bool b
  sort_value le (number d) = number d
  sort_value le (text s) = text s
  sort_value le (array xs) = array (sort_items le xs)
  sort_value le (object fs) = object (sort_fields le fs)

  pub sort_items : (String → String → Bool) → Items → Items
  sort_items le nil = nil
  sort_items le (cons x xs) = cons (sort_value le x) (sort_items le xs)

  pub sort_fields : (String → String → Bool) → Fields → Fields
  sort_fields le end = end
  sort_fields le (field k v rest) = insert_entry le k (sort_value le v) (sort_fields le rest)

pub record AuditIntegrityPayload : Type 0 where
  pub action : String
  pub entity_type : String
  pub entity_id : ℕ
  pub actor_type : ActorType
  pub actor_id : String
  pub workspace_id : ℕ
  pub metadata : Option Json
  pub created_at : String
  pub previous_hash : Option String

abbrev actor_type_name : ActorType → String
actor_type_name user = "user"
actor_type_name agent = "agent"
actor_type_name system = "system"

-- A member whose value is `undefined` is left out of the text.
abbrev pub defined_field : String → Option Json → Fields → Fields
defined_field k none rest = rest
defined_field k (some v) rest = field k v rest

abbrev text_or_null : Option String → Json
text_or_null none = null
text_or_null (some s) = text s

unfoldable pub payload_json : (ℕ → String) → AuditIntegrityPayload → Json
payload_json id_text p = object (
    field "action" (text p.action) (
      field "entityType" (text p.entity_type) (
        field "entityId" (text (id_text p.entity_id)) (
          field "actorType" (text (actor_type_name p.actor_type)) (
            field "actorId" (text p.actor_id) (
              field "workspaceId" (text (id_text p.workspace_id)) (
                defined_field "metadata" p.metadata (
                  field "createdAt" (text p.created_at)
                    (field "previousHash" (text_or_null p.previous_hash) end)))))))))

pub record AuditEventInput : Type 0 where
  pub action : String
  pub entity_type : String
  pub entity_id : ℕ
  pub actor_type : ActorType
  pub actor_id : String
  pub workspace_id : ℕ
  pub metadata : Option Json

-- `orderBy: [{ createdAt: 'desc' }, { id: 'desc' }]`, from the other end.
abbrev pub event_before : AuditEvent → AuditEvent → Bool
event_before a b = ltb a.created_at b.created_at || (a.created_at == b.created_at && ltb a.id b.id)

abbrev pub event_in : ℕ → AuditEvent → Bool
event_in ws e = e.workspace_id == ws

abbrev pub hash_of : Option AuditEvent → Option String
hash_of none = none
hash_of (some e) = some e.integrity_hash

-- The metadata that a row is read with: a column that nothing was stored in is `null`.
abbrev pub stored_metadata : Option Json → Json
stored_metadata none = null
stored_metadata (some v) = v

module _ (env : Env) where
  unfoldable pub build_audit_integrity_hash : AuditIntegrityPayload → String
  unfolding payload_json sort_value
  build_audit_integrity_hash p = env.hmac_hex (sort_value env.text_le (payload_json env.id_text p))

  unfoldable pub verify_audit_integrity : AuditEvent → Bool
  unfolding build_audit_integrity_hash
  verify_audit_integrity r =
      str_eq
        (build_audit_integrity_hash (record {
          action = r.action;
          entity_type = r.entity_type;
          entity_id = r.entity_id;
          actor_type = r.actor_type;
          actor_id = r.actor_id;
          workspace_id = r.workspace_id;
          metadata = some (stored_metadata r.metadata);
          created_at = env.iso_text r.created_at;
          previous_hash = r.previous_hash;
        }))
        r.integrity_hash

  -- The event that `emit_audit_event` writes at a moment, after the last one of its workspace.
  unfoldable pub new_event : AuditEventInput → ℕ → ℕ → Option String → AuditEvent
  unfolding build_audit_integrity_hash
  new_event input id created_at previous_hash = record {
    id = id;
    action = input.action;
    entity_type = input.entity_type;
    entity_id = input.entity_id;
    actor_type = input.actor_type;
    actor_id = input.actor_id;
    workspace_id = input.workspace_id;
    metadata = input.metadata;
    created_at = created_at;
    previous_hash = previous_hash;
    integrity_hash = build_audit_integrity_hash (record {
      action = input.action;
      entity_type = input.entity_type;
      entity_id = input.entity_id;
      actor_type = input.actor_type;
      actor_id = input.actor_id;
      workspace_id = input.workspace_id;
      metadata = input.metadata;
      created_at = env.iso_text created_at;
      previous_hash = previous_hash;
    });
  }

  -- A failure is logged and goes no further.
  unfoldable pub emit_audit_event : AuditEventInput → Action env (Unit {0})
  unfolding new_event
  emit_audit_event input =
      try_catch
        (transaction (do
          created_at ← ask env.clock
          previous ←
              query λ w. env.db.find_last (event_in input.workspace_id) event_before w.audit_events
          failed ← ask env.audit_fails
          raise_if failed (thrown "Failed to emit audit event")
          write λ w. record w {
            audit_events =
                env.db.create
                  (new_event input (env.db.next_id (λ (e : AuditEvent). e.id) w.audit_events)
                    created_at (hash_of previous))
                  w.audit_events;
          }))
        (λ _. pure tt)
