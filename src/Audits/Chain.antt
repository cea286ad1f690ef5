-- ===== src/Audits/Chain.antt =====
-- The trail that `emitAuditEvent` of apps/api/src/modules/audits/service.ts leaves: the hashes of its
-- events, and the links between them.
use text.Mathlib.TextPositions.{eq_refl}
use mathlib.Core.Path.{subst}
use mathlib.Core.List.{append-nil}
use vowgrid_api.Common.{
  ℕ, suc, String, ◌≡◌, refl, sym, ap, ◌∙◌, true, false, Option, none, some, List, [], ◌∷◌, ◌++◌,
  filter, arith, ◌==◌, ==_iff, if◌then◌else◌, Bool-cases, Option-cases, filter-append, inl, inr,
}
use vowgrid_api.Env.{Env}
use vowgrid_api.Json.{Json}
use vowgrid_api.Prisma.{IsLawful}
use vowgrid_api.Rows.{AuditEvent}
use vowgrid_api.World.{World, ok, run_steps}
use vowgrid_api.Audits.{
  AuditEventInput, event_before, event_in, hash_of, new_event, verify_audit_integrity,
  emit_audit_event,
}

module _ (env : Env) where
  -- Whatever happens, the caller goes on, and all but the trail is as it was.
  pub emit_audit_event-frame :
      (input : AuditEventInput) (w : World env)
      → emit_audit_event env input w ≡ (
        ok tt,
        record w {
          audit_events = (emit_audit_event env input w).1.audit_events;
          ticks = (emit_audit_event env input w).1.ticks;
        },
      )
  unfolding emit_audit_event run_steps
  emit_audit_event-frame input w = ground arith

  pub emit_audit_event-ok :
      (input : AuditEventInput) (w : World env) → (emit_audit_event env input w).0 ≡ ok tt
  unfolding emit_audit_event run_steps
  emit_audit_event-ok input w = ground arith

  -- An event with metadata has the hash that the verification asks for.
  abbrev pub Verified : AuditEvent → Type 0
  Verified e = (m : Json) → e.metadata ≡ some m → verify_audit_integrity env e ≡ true

  -- The events of one workspace, from the first one on, after an event with the given hash.
  abbrev pub Linked : Option String → List AuditEvent → Type 0
  Linked prev [] = Unit
  Linked prev (e ∷ es) = Verified e × (e.previous_hash ≡ prev) × Linked (some e.integrity_hash) es

  abbrev pub last_hash : Option String → List AuditEvent → Option String
  last_hash prev [] = prev
  last_hash prev (e ∷ es) = last_hash (some e.integrity_hash) es

  Linked-append :
      (prev : Option String) (es : List AuditEvent) (e : AuditEvent)
      → Linked prev es
      → Verified e
      → e.previous_hash ≡ last_hash prev es
      → Linked prev (es ++ e ∷ [])
  Linked-append prev [] e h v p = (v, p, tt)
  Linked-append prev (x ∷ es) e h v p =
      (h.0, h.1, Linked-append (some x.integrity_hash) es e h.2 v p)

  last_hash-append :
      (prev : Option String) (es : List AuditEvent) (e : AuditEvent)
      → last_hash prev (es ++ e ∷ []) ≡ some e.integrity_hash
  last_hash-append prev [] e = refl
  last_hash-append prev (x ∷ es) e = last_hash-append (some x.integrity_hash) es e

  -- A new event carries the hash of what it says, where it says something in its metadata.
  pub new_event_verifies :
      (input : AuditEventInput) (id now : ℕ) (prev : Option String)
      → Verified (new_event env input id now prev)
  unfolding verify_audit_integrity new_event
  new_event_verifies input id now prev m h = rw h (eq_refl _)

  abbrev pub events_of : ℕ → World env → List AuditEvent
  events_of ws w = filter (event_in ws) (env.db.rows w.audit_events)

  abbrev pub newest : ℕ → World env → Option AuditEvent
  newest ws w = env.db.find_last (event_in ws) event_before w.audit_events

  -- The trail of a workspace is linked, and the newest event is its last.
  pub record Trail (ws : ℕ) (w : World env) : Type 0 where
    pub linked : Linked none (events_of ws w)
    pub newest_is_last : hash_of (newest ws w) ≡ last_hash none (events_of ws w)

  -- The event that is written when nothing fails.
  abbrev pub written : AuditEventInput → World env → AuditEvent
  written input w =
      new_event env input (env.db.next_id (λ (e : AuditEvent). e.id) w.audit_events)
        (env.clock w.ticks) (hash_of (newest input.workspace_id w))

  pub emit_audit_event-lost :
      (input : AuditEventInput) (w : World env)
      → env.audit_fails (suc w.ticks) ≡ true
      → emit_audit_event env input w ≡ (ok tt, record w { ticks = suc (suc w.ticks) })
  unfolding emit_audit_event run_steps
  emit_audit_event-lost input w h = ground arith

  pub emit_audit_event-kept :
      (input : AuditEventInput) (w : World env)
      → env.audit_fails (suc w.ticks) ≡ false
      → emit_audit_event env input w ≡ (
        ok tt,
        record w {
          audit_events = env.db.create (written input w) w.audit_events;
          ticks = suc (suc w.ticks);
        },
      )
  unfolding emit_audit_event run_steps
  emit_audit_event-kept input w h = ground arith

  new_event_fields :
      (input : AuditEventInput) (id now : ℕ) (prev : Option String)
      → let e = new_event env input id now prev in
        (e.workspace_id ≡ input.workspace_id) × (e.previous_hash ≡ prev)
  unfolding new_event
  new_event_fields input id now prev = (refl, refl)

  -- The event that would be written does not come before the newest one of its workspace, by the order
  -- of the lookup: first the time, then the id.
  abbrev pub IsInOrder : AuditEventInput → World env → Type 0
  IsInOrder input w =
      (s : AuditEvent)
      → newest input.workspace_id w ≡ some s
      → event_before (written input w) s ≡ false

module _ (env : Env) (L : IsLawful env.db) where
  abbrev with_event : AuditEvent → World env → World env
  with_event e w = record w {
    audit_events = env.db.create e w.audit_events;
    ticks = suc (suc w.ticks);
  }

  events_of-with_event :
      (ws : ℕ) (e : AuditEvent) (w : World env)
      → events_of env ws (with_event e w)
        ≡ events_of env ws w ++ (if event_in ws e then e ∷ [] else [])
  events_of-with_event ws e w =
      rw L.rows-create (filter-append (event_in ws) (env.db.rows w.audit_events) (e ∷ []))

  events_of-other :
      (ws : ℕ) (e : AuditEvent) (w : World env)
      → event_in ws e ≡ false
      → events_of env ws (with_event e w) ≡ events_of env ws w
  events_of-other ws e w other = events_of-with_event ws e w ∙ rw other (append-nil _)

  events_of-own :
      (ws : ℕ) (e : AuditEvent) (w : World env)
      → event_in ws e ≡ true
      → events_of env ws (with_event e w) ≡ events_of env ws w ++ e ∷ []
  events_of-own ws e w own = events_of-with_event ws e w ∙ rw own

  newest-other :
      (ws : ℕ) (e : AuditEvent) (w : World env)
      → event_in ws e ≡ false
      → newest env ws (with_event e w) ≡ newest env ws w
  newest-other ws e w other =
      L.find_last-create (event_in ws) event_before e w.audit_events ∙ ground arith

  newest-own :
      (ws : ℕ) (e : AuditEvent) (w : World env)
      → event_in ws e ≡ true
      → ((s : AuditEvent) → newest env ws w ≡ some s → event_before e s ≡ false)
      → newest env ws (with_event e w) ≡ some e
  newest-own ws e w own in_order = elim (Option-cases (newest env ws w)) [
    | inl first ↦
        L.find_last-create (event_in ws) event_before e w.audit_events ∙ rw own (rw first refl)
    | inr (s, found) ↦
        L.find_last-create (event_in ws) event_before e w.audit_events
        ∙ rw own (rw found (rw (in_order s found) refl))
  ]

  Trail-other :
      (ws : ℕ) (e : AuditEvent) (w : World env)
      → event_in ws e ≡ false
      → Trail env ws w
      → Trail env ws (with_event e w)
  Trail-other ws e w other h = record {
    linked = subst (Linked env none) (sym (events_of-other ws e w other)) h.linked;
    newest_is_last =
        ap hash_of (newest-other ws e w other)
        ∙ h.newest_is_last
        ∙ ap (last_hash env none) (sym (events_of-other ws e w other));
  }

  Trail-own :
      (ws : ℕ) (e : AuditEvent) (w : World env)
      → event_in ws e ≡ true
      → Verified env e
      → e.previous_hash ≡ hash_of (newest env ws w)
      → ((s : AuditEvent) → newest env ws w ≡ some s → event_before e s ≡ false)
      → Trail env ws w
      → Trail env ws (with_event e w)
  Trail-own ws e w own v p in_order h = record {
    linked =
        subst (Linked env none) (sym (events_of-own ws e w own))
          (Linked-append env none (events_of env ws w) e h.linked v (p ∙ h.newest_is_last));
    newest_is_last =
        ap hash_of (newest-own ws e w own in_order)
        ∙ sym (last_hash-append env none (events_of env ws w) e)
        ∙ ap (last_hash env none) (sym (events_of-own ws e w own));
  }

  emitted :
      (ws : ℕ) (input : AuditEventInput) (w : World env)
      → IsInOrder env input w
      → Trail env ws w
      → Trail env ws (with_event (written env input w) w)
  emitted ws input w in_order h = elim (Bool-cases (input.workspace_id == ws)) [
    | inl own ↦
        let same = (==_iff _ _).0 own in
        Trail-own ws (written env input w) w (rw fields.0 own) (new_event_verifies env input _ _ _)
          (fields.1 ∙ ap (λ k. hash_of (newest env k w)) same)
          (λ s q. in_order s (ap (λ k. newest env k w) same ∙ q)) h
    | inr other ↦ Trail-other ws (written env input w) w (rw fields.0 other) h
  ]
    where
      fields :
          let e = written env input w in
          (e.workspace_id ≡ input.workspace_id)
          × (e.previous_hash ≡ hash_of (newest env input.workspace_id w))
      fields =
          new_event_fields env input _ (env.clock w.ticks)
            (hash_of (newest env input.workspace_id w))

  -- The trail of a workspace, whose events are chained by their hashes and verify where they have
  -- metadata, stays one when an event is emitted, for this workspace or another, and written or lost:
  -- under a database that does what its documentation says, where the event does not come before the
  -- newest one of its workspace in the order of times and ids.
  pub emit_audit_event-Trail :
      (ws : ℕ) (input : AuditEventInput) (w : World env)
      → IsInOrder env input w
      → Trail env ws w
      → Trail env ws (emit_audit_event env input w).1
  emit_audit_event-Trail ws input w in_order h = elim (Bool-cases (env.audit_fails (suc w.ticks))) [
    | inl lost ↦
        rw (emit_audit_event-lost env input w lost)
          (record { linked = h.linked; newest_is_last = h.newest_is_last })
    | inr kept ↦ rw (emit_audit_event-kept env input w kept) (emitted ws input w in_order h)
  ]
