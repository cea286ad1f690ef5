-- ===== src/Billing/Webhook/Sync.antt =====
-- `processMercadoPagoWebhook` of apps/api/src/modules/billing/service.ts, once its payload is read.
use vowgrid_api.Common.{
  ℕ, String, ◌<>◌, not, ◌&&◌, Option, none, some, ◌==◌, if◌then◌else◌, or_default,
}
use vowgrid_api.Env.{Env}
use vowgrid_api.Rows.{system}
use vowgrid_api.Audits.{emit_audit_event}
use vowgrid_api.Billing.Rows.{
  SubscriptionStatus, Subscription, BillingEvent, received_event, ignored_event, processed_event,
  Workspace,
}
use vowgrid_api.Billing.Entitlements.{is_active_subscription}
use vowgrid_api.Billing.Provider.{Provider, Preapproval}
use vowgrid_api.Billing.Payments.{get_mercado_pago_subscription}
use vowgrid_api.Billing.Signature.{validate_mercado_pago_webhook_signature}
use vowgrid_api.World.{
  Action, validation, unauthorized, not_found, ◌>>=◌, ◌>>◌, pure, query, or_raise, raise_if, ask,
  settle,
}
use vowgrid_api.Billing.Webhook.Snapshot.{
  is_named, sync_customer, date_or_raise, is_not_started, synced_subscription, upsert_subscription,
  convert_trial, synced_metadata,
}
use vowgrid_api.Billing.Webhook.{
  fallback, of_row, parse_external_reference, extract_webhook_resource_id, build_webhook_event_key,
  is_subscription_webhook, put_events, is_keyed, update_event, WebhookInput, WebhookResult,
  duplicate_event, ignored, synced, ExternalReference,
}

module _ (env : Env) (p : Provider) where
  -- What follows once the workspace of the subscription is known.
  unfoldable pub sync_workspace :
      ℕ
      → String
      → String
      → Preapproval
      → SubscriptionStatus
      → Option Subscription
      → Option ExternalReference
      → ℕ
      → Action env WebhookResult
  unfolding sync_customer upsert_subscription synced_subscription convert_trial update_event
  sync_workspace event_id key resource_id snapshot status existing reference ws = do
    row ← query λ w. env.db.find_first (λ (x : Workspace). x.id == ws) w.billing.workspaces_table
    workspace ← or_raise row (not_found "Workspace" ws)
    customer ← sync_customer env p snapshot workspace
    next ← date_or_raise env p snapshot.next_payment_date
    created ←
        if is_active_subscription status && is_not_started env p existing
        then date_or_raise env p snapshot.date_created
        else pure none
    now ← ask env.clock
    subscription ←
        upsert_subscription env p ws
          (synced_subscription env p resource_id snapshot status existing reference customer next
            created now)
          (synced_subscription env p resource_id snapshot status none reference customer next
            created now)
    convert_trial env p ws subscription now
    later ← ask env.clock
    update_event env p event_id (λ e. record e {
      workspace_id = some ws;
      subscription_id = some subscription.id;
      status = processed_event;
      processed_at = some later;
      provider_reference = resource_id;
    })
    emit_audit_event env (record {
      action = "billing.subscription.synced";
      entity_type = "workspace";
      entity_id = ws;
      actor_type = system;
      actor_id = "mercado-pago-webhook";
      workspace_id = ws;
      metadata = some (
          synced_metadata env p resource_id status subscription.plan_key
            subscription.billing_cycle);
    })
    pure (synced key ws subscription.id status)

  unfoldable pub ignore_event : ℕ → String → Action env WebhookResult
  unfolding update_event
  ignore_event event_id key = do
    now ← ask env.clock
    update_event env p event_id (λ e. record e { status = ignored_event; processed_at = some now })
    pure (ignored key)

  -- What follows a subscription event, with what the provider now says of the subscription.
  unfoldable pub sync_subscription : ℕ → String → String → Action env WebhookResult
  unfolding sync_workspace ignore_event parse_external_reference
  sync_subscription event_id key resource_id = do
    answer ← get_mercado_pago_subscription env p resource_id
    let (snapshot, status) = answer
    let reference = parse_external_reference env p snapshot.external_reference
    existing ←
        query λ w. env.db.find_first (is_named env p resource_id snapshot) w.billing.subscriptions
    elim (fallback (of_row (λ (s : Subscription). some s.workspace_id) existing)
        (of_row (λ (r : ExternalReference). some r.workspace_id) reference)) [
          | none ↦ ignore_event event_id key
          | some ws ↦ sync_workspace event_id key resource_id snapshot status existing reference ws
        ]

  abbrev pub received_row : WebhookInput → String → String → ℕ → BillingEvent
  received_row input key resource_id id = record {
    id = id;
    workspace_id = none;
    subscription_id = none;
    event_key = key;
    event_type =
        or_default input.payload.event_type "unknown"
        <> "."
        <> or_default input.payload.action "updated";
    provider_reference = resource_id;
    status = received_event;
    payload = input.payload.raw;
    processed_at = none;
  }

  -- What follows a signature that is valid. The key of an event is unique: a second row is refused.
  unfoldable pub receive_event : WebhookInput → String → String → Action env WebhookResult
  unfolding sync_subscription ignore_event
  receive_event input key resource_id = do
    earlier ← query λ w. env.db.find_first (is_keyed env p key) w.billing.billing_events
    id ← query λ w. env.db.next_id (λ (e : BillingEvent). e.id) w.billing.billing_events
    elim earlier [
      | some _ ↦ pure (duplicate_event key)
      | none ↦
          put_events env p (env.db.create (received_row input key resource_id id))
          >> (if is_subscription_webhook env p input.payload
              then sync_subscription id key resource_id
              else ignore_event id key)
    ]

  unfoldable pub process_mercado_pago_webhook : WebhookInput → Action env WebhookResult
  unfolding extract_webhook_resource_id build_webhook_event_key receive_event
  process_mercado_pago_webhook input = do
    params ← settle (p.search_params input.raw_url)
    resource_id ←
        or_raise (extract_webhook_resource_id env p params input.payload)
          (validation "Mercado Pago webhook payload is missing a subscription identifier.")
    raise_if
        (not (
          validate_mercado_pago_webhook_signature env p resource_id input.signature_header
            input.request_id))
        (unauthorized "Invalid Mercado Pago webhook signature.")
    receive_event input (build_webhook_event_key env p input resource_id) resource_id
