-- ===== src/Intents/Transition.antt =====
-- The outcomes of `transitionIntent` of apps/api/src/modules/intents/service.ts.
use vowgrid_api.Common.{
  ℕ, String, ◌<>◌, ◌≡◌, refl, true, false, Option, none, some, arith, ◌⊎◌, inl, inr, Bool-cases,
  Option-cases,
}
use vowgrid_api.Env.{Env}
use vowgrid_api.Json.{text, object, end, field}
use vowgrid_api.Rows.{Intent, ActorType}
use vowgrid_api.Prisma.{IsLawful}
use vowgrid_api.Prisma.Laws.{find_first-update, find_first-weaken, amend}
use vowgrid_api.States.{IntentState, state_name, is_valid_transition}
use vowgrid_api.States.Lifecycle.{◌⟶◌, is_valid_transition_iff}
use vowgrid_api.World.{World, ok, err, not_found, invalid_state_transition, run_steps}
use vowgrid_api.Audits.Chain.{emit_audit_event-ok}
use vowgrid_api.Audits.{AuditEventInput, emit_audit_event}
use vowgrid_api.Intents.{intent_in, intent_is, with_status, transition_intent}

pub intent_in-is : (id ws : ℕ) (r : Intent) → intent_in id ws r ≡ true → intent_is id r ≡ true
intent_in-is id ws r h = ground arith

no_edge : (s t : IntentState) → is_valid_transition s t ≡ false → ¬ (s ⟶ t)
no_edge s t h e = cc ((is_valid_transition_iff s t).1 e)

module _ (env : Env) where
  abbrev pub lookup_intent : ℕ → ℕ → World env → Option Intent
  lookup_intent id ws w = env.db.find_first (intent_in id ws) w.intents

  abbrev pub transition_event :
      ℕ → ℕ → IntentState → IntentState → String → ActorType → AuditEventInput
  transition_event id ws from target actor_id actor_type = record {
    action = "intent." <> state_name target;
    entity_type = "intent";
    entity_id = id;
    actor_type = actor_type;
    actor_id = actor_id;
    workspace_id = ws;
    metadata = some (
        object (field "from" (text (state_name from)) (field "to" (text (state_name target)) end)));
  }

  -- The world with the status of one intent changed.
  abbrev pub moved : ℕ → IntentState → World env → World env
  moved id target w = record w {
    intents = env.db.update (intent_is id) (with_status target) w.intents;
  }

  module _ (id ws : ℕ) (target : IntentState) (a : String) (t : ActorType) (w : World env) where
    pub transition_intent-missing :
        lookup_intent id ws w ≡ none
        → transition_intent env id ws target a t w ≡ (err (not_found "Intent" id), w)
    unfolding transition_intent run_steps
    transition_intent-missing h = ground arith

    pub transition_intent-invalid :
        {i : Intent}
        → lookup_intent id ws w ≡ some i
        → is_valid_transition i.status target ≡ false
        → transition_intent env id ws target a t w
          ≡ (err (invalid_state_transition i.status target), w)
    unfolding transition_intent run_steps
    transition_intent-invalid h v = ground arith

    pub transition_intent-valid :
        {i j : Intent}
        → lookup_intent id ws w ≡ some i
        → is_valid_transition i.status target ≡ true
        → env.db.find_first (intent_is id) w.intents ≡ some j
        → transition_intent env id ws target a t w ≡ (
          ok (with_status target j),
          (emit_audit_event env (transition_event id ws i.status target a t) (moved id target w)).1,
        )
    unfolding transition_intent run_steps
    transition_intent-valid {i} h v f = ground (
      arith,
      emit_audit_event-ok env (transition_event id ws i.status target a t) (moved id target w),
    )

  -- A transition ends in one of three ways: there is no such intent in the workspace, or the state
  -- machine has no such edge, and nothing is changed; or there is the edge, the status of the
  -- intent has moved along it, and the move has been reported to the trail. The database does what
  -- its documentation says.
  pub transition_intent_lem :
      IsLawful env.db
      → (id ws : ℕ) (target : IntentState) (a : String) (t : ActorType) (w : World env)
      → ((lookup_intent id ws w ≡ none)
          × (transition_intent env id ws target a t w ≡ (err (not_found "Intent" id), w)))
        ⊎ (((i : Intent) × (lookup_intent id ws w ≡ some i)
              × (¬ (i.status ⟶ target))
              × (transition_intent env id ws target a t w
                  ≡ (err (invalid_state_transition i.status target), w)))
            ⊎ ((i : Intent) × (j : Intent) × (lookup_intent id ws w ≡ some i)
                × (i.status ⟶ target)
                × (transition_intent env id ws target a t w ≡ (
                  ok (with_status target j),
                  (emit_audit_event env
                      (transition_event id ws i.status target a t)
                      (moved id target w)).1,
                ))))
  transition_intent_lem L id ws target a t w = elim (Option-cases (lookup_intent id ws w)) [
    | inl missing ↦ inl (missing, transition_intent-missing id ws target a t w missing)
    | inr (i, found) ↦ elim (Bool-cases (is_valid_transition i.status target)) [
      | inl valid ↦
          let (j, row) =
            find_first-weaken env.db L (intent_in id ws) (intent_is id) w.intents
              (λ r h. intent_in-is id ws r h) found in
          inr (
            inr (
              i,
              j,
              found,
              (is_valid_transition_iff _ _).0 valid,
              transition_intent-valid id ws target a t w found valid row,
            ))
      | inr invalid ↦ inr (
          inl (
            i,
            found,
            λ e. no_edge i.status target invalid e,
            transition_intent-invalid id ws target a t w found invalid,
          ))
    ]
  ]

  -- After a status was set, each lookup finds what it found, with that status if it is the intent.
  pub lookup_intent-moved :
      IsLawful env.db
      → (id ws k : ℕ) (target : IntentState) (w : World env)
      → lookup_intent k ws (moved id target w)
        ≡ amend (intent_is id) (with_status target) (lookup_intent k ws w)
  lookup_intent-moved L id ws k target w =
      find_first-update env.db L (intent_in k ws) (intent_is id) (with_status target) w.intents
        (λ r. refl)
