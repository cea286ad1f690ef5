-- ===== src/Billing/Webhook/Once.antt =====
-- A webhook of apps/api/src/modules/billing/service.ts that comes again.
use vowgrid_api.Common.{
  ℕ, String, ◌<>◌, ◌≡◌, refl, ap, ◌∙◌, Bool, true, false, ◌&&◌, Option, none, some, arith, ◌==◌,
  Option-cases, inl, inr,
}
use text.Mathlib.TextPositions.{eq_refl}
use vowgrid_api.Env.{Env, resolved}
use vowgrid_api.Prisma.{IsLawful}
use vowgrid_api.Prisma.Laws.{amend, or_new, find_first-update, find_first-create}
use vowgrid_api.Audits.{AuditEventInput, emit_audit_event}
use vowgrid_api.Audits.Chain.{emit_audit_event-frame}
use vowgrid_api.Billing.Rows.{BillingEvent, SubscriptionStatus, Subscription, Workspace}
use vowgrid_api.Billing.Entitlements.{is_active_subscription}
use vowgrid_api.Billing.Provider.{Provider, Preapproval}
use vowgrid_api.Billing.Payments.{get_mercado_pago_subscription}
use vowgrid_api.Billing.Signature.{validate_mercado_pago_webhook_signature}
use vowgrid_api.Billing.Webhook.{
  WebhookInput, duplicate_event, ExternalReference, parse_external_reference,
  extract_webhook_resource_id, build_webhook_event_key, is_keyed, update_event,
  is_subscription_webhook,
}
use vowgrid_api.Billing.Requests.{request-Respects}
use vowgrid_api.Billing.Webhook.Snapshot.{
  is_not_started, sync_customer, date_or_raise, synced_subscription, upsert_subscription,
  convert_trial,
}
use vowgrid_api.Billing.Webhook.Sync.{
  sync_workspace, ignore_event, sync_subscription, receive_event, received_row,
  process_mercado_pago_webhook,
}
use vowgrid_api.World.{World, ok, err, validation, unauthorized, run_steps}
use vowgrid_api.World.Respects.{
  Preorder, Respects, Respects-bind, Respects-if, Respects-option, Respects-query, Respects-write,
  Respects-pure, Respects-ask, Respects-or_raise,
}

abbrev is_there {ℓ} : {A : Type ℓ} → Option A → Bool
is_there none = false
is_there (some _) = true

module _ (env : Env) (p : Provider) where
  -- Whether an event of this key has been received.
  abbrev pub is_received : String → World env → Bool
  is_received key w = is_there (env.db.find_first (is_keyed env p key) w.billing.billing_events)

  abbrev KeepsEvents : Preorder env
  KeepsEvents = record {
    Rel = λ w v. (key : String) → is_received key w ≡ true → is_received key v ≡ true;
    rel_refl = λ w key h. h;
    rel_trans = λ u v w f g key h. g key (f key h);
    rel_later = λ w t key h. h;
    rel_observed = λ w m key h. h;
  }

  emit-Keeps : (input : AuditEventInput) → Respects KeepsEvents (emit_audit_event env input)
  emit-Keeps input = record { run = λ w key h. rw (emit_audit_event-frame env input w) h }

  convert-Keeps :
      (ws : ℕ) (s : Subscription) (now : ℕ) → Respects KeepsEvents (convert_trial env p ws s now)
  unfolding convert_trial
  convert-Keeps ws s now = Respects-if _ (Respects-write _ (λ w key h. h)) (Respects-pure _)

  date-Keeps : (t : Option String) → Respects KeepsEvents (date_or_raise env p t)
  date-Keeps t =
      Respects-option _ (Respects-pure _)
        (λ s. Respects-bind (Respects-or_raise _ _) (λ d. Respects-pure _))

  customer-Keeps :
      (s : Preapproval) (ws : Workspace) → Respects KeepsEvents (sync_customer env p s ws)
  unfolding sync_customer
  customer-Keeps s ws = Respects-bind (Respects-query _) (λ found.
      Respects-bind (Respects-query _) (λ contact. Respects-bind (Respects-query _) (λ id.
        Respects-option found
          (Respects-option contact (Respects-pure _)
            (λ u. Respects-bind (Respects-write _ (λ w key h. h)) (λ _. Respects-pure _)))
          (λ c.
            Respects-bind (Respects-if _ (Respects-write _ (λ w key h. h)) (Respects-pure _))
              (λ _. Respects-pure _)))))

  upsert-Keeps :
      (ws : ℕ) (f g : Subscription → Subscription)
      → Respects KeepsEvents (upsert_subscription env p ws f g)
  unfolding upsert_subscription
  upsert-Keeps ws f g = Respects-bind (Respects-query _) (λ found.
      Respects-bind (Respects-query _) (λ id.
        Respects-option found
          (Respects-bind (Respects-write _ (λ w key h. h)) (λ _. Respects-pure _))
          (λ s. Respects-bind (Respects-write _ (λ w key h. h)) (λ _. Respects-pure _))))

  present-amend :
      (q : BillingEvent → Bool) (f : BillingEvent → BillingEvent) (o : Option BillingEvent)
      → is_there (amend q f o) ≡ is_there o
  present-amend q f none = refl
  present-amend q f (some e) = refl

  present-or_new :
      (q : BillingEvent → Bool) (e : BillingEvent) (o : Option BillingEvent)
      → is_there o ≡ true
      → is_there (or_new q e o) ≡ true
  present-or_new q e none h = ground arith
  present-or_new q e (some x) h = refl

  module _ (L : IsLawful env.db) where
    update_event-Keeps :
        (id : ℕ) (f : BillingEvent → BillingEvent)
        → ((key : String) (e : BillingEvent) → is_keyed env p key (f e) ≡ is_keyed env p key e)
        → Respects KeepsEvents (update_event env p id f)
    unfolding update_event
    update_event-Keeps id f keeps = Respects-write _ (λ w key h.
        ap is_there (
          find_first-update env.db L (is_keyed env p key) (λ (e : BillingEvent). e.id == id) f
            w.billing.billing_events (keeps key))
        ∙ present-amend _ f (env.db.find_first (is_keyed env p key) w.billing.billing_events)
        ∙ h)

    workspace-Keeps :
        (event_id : ℕ) (key resource_id : String) (s : Preapproval) (status : SubscriptionStatus)
        (existing : Option Subscription) (reference : Option ExternalReference) (ws : ℕ)
        → Respects KeepsEvents
            (sync_workspace env p event_id key resource_id s status existing reference ws)
    unfolding sync_workspace
    workspace-Keeps event_id key resource_id s status existing reference ws =
        Respects-bind (Respects-query _) (λ row.
          Respects-bind (Respects-or_raise row _) (λ workspace.
            Respects-bind (customer-Keeps s workspace) (λ customer.
              Respects-bind (date-Keeps s.next_payment_date) (λ next.
                Respects-bind
                  (Respects-if (is_active_subscription status && is_not_started env p existing)
                    (date-Keeps s.date_created) (Respects-pure none))
                  (λ created. Respects-bind (Respects-ask _) (λ now.
                    Respects-bind
                      (upsert-Keeps ws
                        (synced_subscription env p resource_id s status existing reference customer
                          next created now)
                        (synced_subscription env p resource_id s status none reference customer next
                          created now))
                      (λ subscription. Respects-bind (convert-Keeps ws subscription now) (λ _.
                        Respects-bind (Respects-ask _) (λ later.
                          Respects-bind (update_event-Keeps event_id _ (λ k e. refl))
                            (λ _. Respects-bind (emit-Keeps _) (λ _. Respects-pure _)))))))))))

    ignore-Keeps :
        (event_id : ℕ) (key : String) → Respects KeepsEvents (ignore_event env p event_id key)
    unfolding ignore_event
    ignore-Keeps event_id key =
        Respects-bind (Respects-ask _) (λ now.
          Respects-bind (update_event-Keeps event_id _ (λ k e. refl)) (λ _. Respects-pure _))

    sync-Keeps :
        (event_id : ℕ) (key resource_id : String)
        → Respects KeepsEvents (sync_subscription env p event_id key resource_id)
    unfolding sync_subscription get_mercado_pago_subscription
    sync-Keeps event_id key resource_id =
        Respects-bind
          (Respects-bind
            (request-Respects env p KeepsEvents "GET" ("/preapproval/" <> resource_id) none)
            (λ json. Respects-pure _))
          (λ answer. Respects-bind (Respects-query _) (λ existing.
            Respects-option _ (ignore-Keeps event_id key) (λ ws.
              workspace-Keeps event_id key resource_id answer.0 answer.1 existing
                (parse_external_reference env p answer.0.external_reference) ws)))

    created_present :
        (input : WebhookInput) (key resource_id : String) (id : ℕ) (w : World env)
        → env.db.find_first (is_keyed env p key) w.billing.billing_events ≡ none
        → is_there (
            env.db.find_first (is_keyed env p key) (
              env.db.create (received_row env p input key resource_id id) w.billing.billing_events))
          ≡ true
    created_present input key resource_id id w q =
        rw
          (
            find_first-create env.db L (is_keyed env p key)
                (received_row env p input key resource_id id) w.billing.billing_events,
            q,
            eq_refl key,
          )
          refl

    -- Once an event is received, its key is known, whatever comes of it.
    receive-received :
        (input : WebhookInput) (key resource_id : String) (w : World env)
        → is_received key (receive_event env p input key resource_id w).1 ≡ true
    unfolding receive_event run_steps
    receive-received input key resource_id w =
        elim (Option-cases (env.db.find_first (is_keyed env p key) w.billing.billing_events)) [
          | inl q ↦
              let id = env.db.next_id (λ (e : BillingEvent). e.id) w.billing.billing_events in
              rw q (
                (Respects-if (is_subscription_webhook env p input.payload)
                    (sync-Keeps id key resource_id) (ignore-Keeps id key)).run
                  _ key (created_present input key resource_id id w q))
          | inr (e, q) ↦ rw q (ap is_there q)
        ]

    receive-again :
        (input : WebhookInput) (key resource_id : String) (w : World env)
        → is_received key w ≡ true
        → receive_event env p input key resource_id w ≡ (ok (duplicate_event key), w)
    unfolding receive_event run_steps
    receive-again input key resource_id w h = ground arith

  -- A webhook that passes the checks goes on to the event.
  process-receive :
      (input : WebhookInput) (params : String → Option String) (resource_id : String)
      (w : World env)
      → p.search_params input.raw_url ≡ resolved params
      → extract_webhook_resource_id env p params input.payload ≡ some resource_id
      → validate_mercado_pago_webhook_signature env p resource_id input.signature_header
          input.request_id
        ≡ true
      → process_mercado_pago_webhook env p input w
        ≡ receive_event env p input (build_webhook_event_key env p input resource_id) resource_id w
  unfolding process_mercado_pago_webhook run_steps
  process-receive input params resource_id w a b c = rw (a, b, c) refl

  -- A webhook that is signed, and comes again with the same event key, is answered as a duplicate, and
  -- changes nothing at all, whatever came of it the first time: also where the first run has failed, at the
  -- provider for instance, and nothing of the subscription was brought up to date.
  pub process_mercado_pago_webhook-once :
      (L : IsLawful env.db) (input : WebhookInput) (params : String → Option String)
      (resource_id : String) (w : World env)
      → p.search_params input.raw_url ≡ resolved params
      → extract_webhook_resource_id env p params input.payload ≡ some resource_id
      → validate_mercado_pago_webhook_signature env p resource_id input.signature_header
          input.request_id
        ≡ true
      → let after = (process_mercado_pago_webhook env p input w).1 in
        process_mercado_pago_webhook env p input after
        ≡ (ok (duplicate_event (build_webhook_event_key env p input resource_id)), after)
  process_mercado_pago_webhook-once L input params resource_id w a b c =
      let key = build_webhook_event_key env p input resource_id in
      rw (process-receive input params resource_id w a b c) (
        process-receive input params resource_id _ a b c
        ∙ receive-again L input key resource_id _ (receive-received L input key resource_id w))

  -- A webhook without an identifier of its subscription is refused, and so is one whose signature is not
  -- valid; neither changes anything.
  pub process_mercado_pago_webhook-refused :
      (input : WebhookInput) (params : String → Option String) (w : World env)
      → p.search_params input.raw_url ≡ resolved params
      → (extract_webhook_resource_id env p params input.payload ≡ none
          → process_mercado_pago_webhook env p input w ≡ (
            err (validation "Mercado Pago webhook payload is missing a subscription identifier."),
            w,
          ))
        × ((resource_id : String)
            → extract_webhook_resource_id env p params input.payload ≡ some resource_id
            → validate_mercado_pago_webhook_signature env p resource_id input.signature_header
                input.request_id
              ≡ false
            → process_mercado_pago_webhook env p input w
              ≡ (err (unauthorized "Invalid Mercado Pago webhook signature."), w))
  unfolding process_mercado_pago_webhook run_steps
  process_mercado_pago_webhook-refused input params w a =
      ((λ b. rw (a, b) refl), (λ resource_id b c. rw (a, b, c) refl))
