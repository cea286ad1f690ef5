-- ===== src/Intents/Progress.antt =====
-- The relation of the intents before a handler to those after it: the same, but for statuses that
-- have moved along edges into allowed states. transitionIntent of
-- apps/api/src/modules/intents/service.ts is the step that moves them.
use vowgrid_api.Common.{
  ℕ, String, ◌≡◌, refl, sym, ◌∙◌, true, Bool, Option, none, some, arith, inl, inr, Bool-cases,
  Option-cases, ◌==◌, ap,
}
use mathlib.Core.Path.{subst}
use mathlib.Core.Option.{some-injective}
use vowgrid_api.Env.{Env}
use vowgrid_api.Prisma.{IsLawful}
use vowgrid_api.Prisma.Laws.{find_first-update, find_first_sound, amend}
use vowgrid_api.Rows.{Intent, ActorType}
use vowgrid_api.States.{IntentState}
use vowgrid_api.States.Lifecycle.{◌⟶◌}
use vowgrid_api.World.{World, Result}
use vowgrid_api.World.Respects.{Preorder, Respects}
use vowgrid_api.Audits.{AuditEventInput, emit_audit_event}
use vowgrid_api.Audits.Chain.{emit_audit_event-frame}
use vowgrid_api.Intents.{intent_is, with_status, transition_intent}
use vowgrid_api.Intents.Transition.{
  lookup_intent, moved, transition_event, transition_intent_lem, lookup_intent-moved,
}

-- Steps of the state machine, each into a state of the given set.
pub data Walk (allowed : IntentState → Bool) (s : IntentState) : IntentState → Type 0 where
  stay : Walk allowed s s
  step : {t u : IntentState} → Walk allowed s t → t ⟶ u → allowed u ≡ true → Walk allowed s u

pub Walk-join :
    {allowed : IntentState → Bool} {s t u : IntentState}
    → Walk allowed s t
    → Walk allowed t u
    → Walk allowed s u
Walk-join p stay = p
Walk-join p (step q e a) = step (Walk-join p q) e a

emit_same :
    (env : Env) (input : AuditEventInput) (w : World env)
    → (emit_audit_event env input w).1.intents ≡ w.intents
emit_same env input w =
    ap (λ (r : Result (Unit {0}) × World env). r.1.intents) (emit_audit_event-frame env input w)

module _ (env : Env) where
  -- The intent with a primary key.
  abbrev pub intent_row : ℕ → World env → Option Intent
  intent_row k w = env.db.find_first (intent_is k) w.intents

  -- The id is the primary key: an intent of a workspace is the intent of its id.
  abbrev pub HasUniqueIds : World env → Type 0
  HasUniqueIds w =
      (k ws : ℕ) (i : Intent) → lookup_intent env k ws w ≡ some i → intent_row k w ≡ some i

  -- Every intent is still there, the same but for its status, which has moved along allowed edges.
  abbrev pub Advances : (IntentState → Bool) → World env → World env → Type 0
  Advances allowed w w' =
      (k : ℕ) (i : Intent)
      → intent_row k w ≡ some i
      → (s : IntentState) × (intent_row k w' ≡ some (with_status s i)) × Walk allowed i.status s

  pub Advances-refl :
      (allowed : IntentState → Bool) (w w' : World env)
      → w'.intents ≡ w.intents
      → Advances allowed w w'
  Advances-refl allowed w w' same k i h = (i.status, rw same h, stay)

  pub Advances-trans :
      (allowed : IntentState → Bool) (u v w : World env)
      → Advances allowed u v
      → Advances allowed v w
      → Advances allowed u w
  Advances-trans allowed u v w a b k i h =
      let (s, found, p) = a k i h in
      let (t, found', q) = b k (with_status s i) found in (t, found', Walk-join p q)

  -- The ids stay unique, and intents move into allowed states only.
  abbrev pub Progress : (IntentState → Bool) → Preorder env
  Progress allowed = record {
    Rel = λ w w'. HasUniqueIds w → HasUniqueIds w' × Advances allowed w w';
    rel_refl = λ w u. (u, Advances-refl allowed w w refl);
    rel_trans = λ u v w p q uniq.
        let (uniq', a) = p uniq in
        let (uniq'', b) = q uniq' in (uniq'', Advances-trans allowed u v w a b);
    rel_later = λ w t u. (u, Advances-refl allowed w w refl);
    rel_observed = λ w m u. (u, Advances-refl allowed w w refl);
  }

  -- A step that leaves the table of intents alone.
  pub Progress-same :
      (allowed : IntentState → Bool) (w w' : World env)
      → w'.intents ≡ w.intents
      → (Progress allowed).Rel w w'
  Progress-same allowed w w' same u =
      (λ k ws i h. rw same (u k ws i (rw same at h)), Advances-refl allowed w w' same)

  pub Progress-emit :
      (allowed : IntentState → Bool) (input : AuditEventInput)
      → Respects (Progress allowed) (emit_audit_event env input)
  Progress-emit allowed input = record {
    run = λ w. Progress-same allowed w (emit_audit_event env input w).1 (emit_same env input w);
  }

module _ (env : Env) (L : IsLawful env.db) where
  abbrev amended : ℕ → IntentState → Option Intent → Option Intent
  amended id target = amend (intent_is id) (with_status target)

  row-moved :
      (id k : ℕ) (target : IntentState) (w : World env)
      → intent_row env k (moved env id target w)
        ≡ amend (intent_is id) (with_status target) (intent_row env k w)
  row-moved id k target w =
      find_first-update env.db L (intent_is k) (intent_is id) (with_status target) w.intents
        (λ r. refl)

  key-eq :
      (k id : ℕ) (w : World env) (j : Intent)
      → intent_row env k w ≡ some j
      → (j.id == id) ≡ true
      → k ≡ id
  key-eq k id w j h own = ground (arith, find_first_sound env.db L (intent_is k) w.intents h)

  none-ne-some : {i : Intent} → ¬ (◌≡◌ {A = Option Intent} none (some i))
  none-ne-some e = cc

  HasUniqueIds-moved :
      (id : ℕ) (target : IntentState) (w : World env)
      → HasUniqueIds env w
      → HasUniqueIds env (moved env id target w)
  HasUniqueIds-moved id target w u k ws i h = elim (Option-cases (lookup_intent env k ws w)) [
    | inl missing ↦ absurd (
        none-ne-some
          (sym (lookup_intent-moved env L id ws k target w ∙ ap (amended id target) missing) ∙ h))
    | inr (j, found) ↦
        row-moved id k target w
        ∙ ap (amended id target) (u k ws j found)
        ∙ sym (ap (amended id target) found)
        ∙ sym (lookup_intent-moved env L id ws k target w)
        ∙ h
  ]

  Advances-moved :
      (allowed : IntentState → Bool) (id ws : ℕ) (target : IntentState) (i : Intent) (w : World env)
      → allowed target ≡ true
      → HasUniqueIds env w
      → lookup_intent env id ws w ≡ some i
      → i.status ⟶ target
      → Advances env allowed w (moved env id target w)
  Advances-moved allowed id ws target i w a u found e k j h = elim (Bool-cases (j.id == id)) [
    | inl own ↦
        let same : j ≡ i =
          some-injective j i
            (sym h ∙ ap (λ n. intent_row env n w) (key-eq k id w j h own) ∙ u id ws i found) in
        (
          target,
          row-moved id k target w ∙ ap (amended id target) h ∙ rw own refl,
          step stay (subst (λ (x : Intent). x.status ⟶ target) (sym same) e) a,
        )
    | inr other ↦
        (j.status, row-moved id k target w ∙ ap (amended id target) h ∙ rw other refl, stay)
  ]

  -- A transition into an allowed state, whether it happens or not.
  pub Progress-transition :
      {allowed : IntentState → Bool} (id ws : ℕ) (target : IntentState) (a : String) (t : ActorType)
      → allowed target ≡ true
      → Respects (Progress env allowed) (transition_intent env id ws target a t)
  Progress-transition {allowed} id ws target a t ok_target = record { run = λ w u. at_world w u }
    where
      Good : World env → Result Intent × World env → Type 0
      Good w r = HasUniqueIds env r.1 × Advances env allowed w r.1

      at_world :
          (w : World env) → HasUniqueIds env w → Good w (transition_intent env id ws target a t w)
      at_world w u = elim (transition_intent_lem env L id ws target a t w) [
        | inl (missing, same) ↦ subst (Good w) (sym same) (u, Advances-refl env allowed w w refl)
        | inr (inl (i, found, none_such, same)) ↦
            subst (Good w) (sym same) (u, Advances-refl env allowed w w refl)
        | inr (inr (i, j, found, edge, same)) ↦
            let v = moved env id target w in
            let (unique, on) =
              (Progress-emit env allowed (transition_event env id ws i.status target a t)).run v
                (HasUniqueIds-moved id target w u) in
            subst (Good w) (sym same) (
              unique,
              Advances-trans env allowed w v
                  (emit_audit_event env (transition_event env id ws i.status target a t) v).1
                  (Advances-moved allowed id ws target i w ok_target u found edge) on,
            )
      ]
