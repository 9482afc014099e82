-- ===== src/Webhooks.antt =====
-- src/webhooks, src/services/webhook-service.ts and src/storage/memory/webhook-store.ts. What `post`
-- answers, with the payload's signature and the network, is a function of how often it was called; new
-- ids, secrets and times are arguments.
pub mod Attempts
mod Samples
use jobflow_project.Common.{
  Bool, List, Map, Option, Text, [], any, drop, false, if◌then◌else◌, insert, length, lookup, none,
  select, some, suc, text_eq, true, values, zero, ℕ, ◌&&◌, ◌-◌, ◌==◌, ◌∷◌,
}

pub data WebhookEvent : Type 0 where
  run_started run_completed run_failed run_dead_lettered task_failed : WebhookEvent

event_code : WebhookEvent → ℕ
event_code run_started = 0
event_code run_completed = 1
event_code run_failed = 2
event_code run_dead_lettered = 3
event_code task_failed = 4

unfoldable pub event_eq : WebhookEvent → WebhookEvent → Bool
unfolding event_code
event_eq a b = event_code a == event_code b

pub record WebhookEndpoint : Type 0 where
  pub id : Text
  pub tenant_id : Text
  pub url : Text
  pub secret : Text
  pub events : List WebhookEvent
  pub enabled : Bool
  pub created_at : Text

pub data DeliveryStatus : Type 0 where
  pending delivered failed : DeliveryStatus

pub record WebhookDelivery (D : Type 0) : Type 0 where
  pub id : Text
  pub endpoint_id : Text
  pub event : WebhookEvent
  pub payload : D
  pub status : DeliveryStatus
  pub attempts : ℕ
  pub last_attempt_at : Option Text
  pub response_status : Option ℕ

unfoldable pub save_endpoint : WebhookEndpoint → Map WebhookEndpoint → Map WebhookEndpoint
save_endpoint e m = insert e.id e m

unfoldable pub get_endpoint : Text → Map WebhookEndpoint → Option WebhookEndpoint
get_endpoint id m = lookup id m

unfoldable pub list_by_tenant : Text → Map WebhookEndpoint → List WebhookEndpoint
list_by_tenant tenant_id m = select (λ e. text_eq e.tenant_id tenant_id) (values m)

unfoldable pub list_for_event : Text → WebhookEvent → Map WebhookEndpoint → List WebhookEndpoint
unfolding event_eq
list_for_event tenant_id event m =
    select (λ e. text_eq e.tenant_id tenant_id && e.enabled && any (event_eq event) e.events)
      (values m)

unfoldable pub register_endpoint :
    (new_id secret now : Text) (tenant_id url : Text)
    → List WebhookEvent
    → Map WebhookEndpoint
    → WebhookEndpoint × Map WebhookEndpoint
unfolding save_endpoint
register_endpoint new_id secret now tenant_id url events m =
    let e : WebhookEndpoint = record {
      id = new_id;
      tenant_id = tenant_id;
      url = url;
      secret = secret;
      events = events;
      enabled = true;
      created_at = now;
    } in
    (e, save_endpoint e m)

-- `calls` is how often `post` was called, in this dispatch too.
pub record DispatchResult (D : Type 0) : Type 0 where
  pub delivery : WebhookDelivery D
  pub delivered_ok : Bool
  pub calls : ℕ

module _ {D : Type 0} (post : ℕ → WebhookEndpoint → WebhookEvent → D → Bool)
    (now_iso : ℕ → Text) where
  -- The loop from `attempt` on, of which `left` attempts remain.
  unfoldable pub attempt_from :
      (left attempt calls : ℕ) → WebhookEndpoint → WebhookDelivery D → DispatchResult D
  attempt_from zero attempt calls endpoint d = record {
    delivery = record d { status = failed };
    delivered_ok = false;
    calls = calls;
  }
  attempt_from (suc left) attempt calls endpoint d =
      let tried = record d { attempts = attempt; last_attempt_at = some (now_iso calls) } in
      let rest = attempt_from left (suc attempt) (suc calls) endpoint tried in
      if post calls endpoint d.event d.payload
      then record {
        delivery = record tried { status = delivered; response_status = some 200 };
        delivered_ok = true;
        calls = suc calls;
      }
      else rest

  unfoldable pub dispatch :
      (max_attempts : ℕ) (id : Text) (calls : ℕ)
      → WebhookEndpoint
      → WebhookEvent
      → D
      → DispatchResult D
  unfolding attempt_from
  dispatch max_attempts id calls endpoint event payload =
      attempt_from max_attempts 1 calls endpoint (record {
        id = id;
        endpoint_id = endpoint.id;
        event = event;
        payload = payload;
        status = pending;
        attempts = 0;
        last_attempt_at = none;
        response_status = none;
      })

  unfoldable pub save_delivery :
      WebhookDelivery D → Map (WebhookDelivery D) → Map (WebhookDelivery D)
  save_delivery d m = insert d.id d m

  -- `slice(-limit)`, for limits above 0.
  unfoldable pub list_deliveries : ℕ → Map (WebhookDelivery D) → List (WebhookDelivery D)
  list_deliveries limit m = drop (length (values m) - limit) (values m)

  -- The loop of `emit`; a delivery's id is made of the time.
  unfoldable pub emit_each :
      (max_attempts : ℕ) (id_at : ℕ → Text) (calls : ℕ)
      → List WebhookEndpoint
      → WebhookEvent
      → D
      → Map (WebhookDelivery D)
      → Map (WebhookDelivery D) × ℕ
  unfolding dispatch save_delivery
  emit_each max_attempts id_at calls [] event payload m = (m, calls)
  emit_each max_attempts id_at calls (e ∷ es) event payload m =
      let r = dispatch max_attempts (id_at calls) calls e event payload in
      emit_each max_attempts id_at r.calls es event payload (save_delivery r.delivery m)

  unfoldable pub emit :
      (max_attempts : ℕ) (id_at : ℕ → Text) (calls : ℕ) (tenant_id : Text)
      → WebhookEvent
      → D
      → Map WebhookEndpoint
      → Map (WebhookDelivery D)
      → Map (WebhookDelivery D) × ℕ
  unfolding emit_each list_for_event
  emit max_attempts id_at calls tenant_id event payload endpoints m =
      emit_each max_attempts id_at calls (list_for_event tenant_id event endpoints) event payload m
