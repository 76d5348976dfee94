-- ===== src/Platform/Webhooks.antt =====
-- `webhookMatches`, `dispatchWebhooks`, `deliverWebhook` and `scheduleWebhookRetry` of platform.mjs.
-- What a receiver answers is an argument. A timer, or a delivery that waits for its answer, is a job.
use infopunks_trust_layer_ag.Base.{
  ℕ, zero, suc, ◌+◌, ◌-◌, ◌*◌, min, String, Bool, true, false, ◌&&◌, ◌||◌, Option, none, some, List,
  [], ◌∷◌, ◌++◌, ◌==◌, ltb, leb, any, filter, update_rows, if◌then◌else◌,
}
use Prim.Native.Nat.{◌^◌}

-- A row of `webhooks`.
pub record Webhook : Type 0 where
  pub webhook_id : String
  pub url : String
  pub secret : String
  pub status : String
  pub event_types : List String
  pub subjects : List String
  pub max_attempts : ℕ

-- The fields of an event that webhooks read. `event_type` and `subject_id` are second names.
pub record CloudEvent : Type 0 where
  pub id : String
  pub type : String
  pub event_type : String
  pub subject : String
  pub subject_id : String

-- `fetch` answers with a status, or throws.
pub data Response : Type 0 where
  answered : ℕ → Response
  unreachable : String → Response

-- A row of `webhook_deliveries`; the answer stands for the text of the error that it gives.
pub record DeliveryRow : Type 0 where
  pub delivery_id : String
  pub webhook_id : String
  pub event_id : String
  pub attempt_count : ℕ
  pub status : String
  pub response_status : Option ℕ
  pub last_error : Option Response
  pub next_attempt_at : Option ℕ
  pub created_at : ℕ
  pub updated_at : ℕ

pub record Job : Type 0 where
  pub delivery_id : String
  pub webhook : Webhook
  pub event : CloudEvent
  pub attempt : ℕ
  pub delay_ms : ℕ

-- `webhook.delivery.succeeded` and `webhook.delivery.failed`, which go to no webhooks.
pub record DeliveryEvent : Type 0 where
  pub type : String
  pub subject : String
  pub delivery_id : String
  pub webhook_id : String
  pub event_id : String
  pub attempt_count : ℕ
  pub will_retry : Bool
  pub next_attempt_at : Option ℕ

-- The deliveries, the jobs that are under way, and the events that deliveries emitted.
pub record Rail : Type 0 where
  pub deliveries : List DeliveryRow
  pub jobs : List Job
  pub events : List DeliveryEvent

-- `response.ok`
unfoldable pub is_ok : Response → Bool
is_ok (answered status) = leb 200 status && leb status 299
is_ok (unreachable message) = false

abbrev pub response_status_of : Response → Option ℕ
response_status_of (answered status) = some status
response_status_of (unreachable message) = none

abbrev mentions : List String → String → String → Bool
mentions [] a b = true
mentions (x ∷ xs) a b = any (λ y. y == a) (x ∷ xs) || any (λ y. y == b) (x ∷ xs)

unfoldable pub webhook_matches : CloudEvent → Webhook → Bool
webhook_matches e w =
    mentions w.event_types e.type e.event_type && mentions w.subjects e.subject e.subject_id

-- `WHERE status = 'active'`, in the order of their creation.
unfoldable pub list_webhooks : List Webhook → List Webhook
list_webhooks rows = filter (λ w. w.status == "active") rows

-- `Math.min(2000, base * 2 ** Math.max(0, nextAttempt - 1))`
unfoldable pub retry_delay : ℕ → ℕ → ℕ
retry_delay base next_attempt = min 2000 (base * 2 ^ (next_attempt - 1))

abbrev pub is_delivery : String → DeliveryRow → Bool
is_delivery id r = r.delivery_id == id

unfoldable pub should_retry : Job → Bool
should_retry j = ltb j.attempt j.webhook.max_attempts

-- What an answer writes to the row of its delivery. `now` is read before the request is sent and
-- `later` when it has failed.
unfoldable pub concluded_row : ℕ → Job → Response → ℕ → ℕ → DeliveryRow → DeliveryRow
concluded_row base j response now later r =
    if is_ok response
    then record r {
      attempt_count = j.attempt;
      status = "succeeded";
      response_status = response_status_of response;
      last_error = none;
      next_attempt_at = none;
      updated_at = now;
    }
    else record r {
      attempt_count = j.attempt;
      status = if should_retry j then "retry_scheduled" else "failed";
      response_status = response_status_of response;
      last_error = some response;
      next_attempt_at =
          if should_retry j then some (later + retry_delay base (suc j.attempt)) else none;
      updated_at = now;
    }

unfoldable pub delivery_event : ℕ → Job → Response → ℕ → DeliveryEvent
delivery_event base j response later = record {
  type = if is_ok response then "webhook.delivery.succeeded" else "webhook.delivery.failed";
  subject = j.event.subject_id;
  delivery_id = j.delivery_id;
  webhook_id = j.webhook.webhook_id;
  event_id = j.event.id;
  attempt_count = j.attempt;
  will_retry = if is_ok response then false else should_retry j;
  next_attempt_at =
      if is_ok response
      then none
      else if should_retry j
      then some (later + retry_delay base (suc j.attempt))
      else none;
}

-- `scheduleWebhookRetry` with the next attempt.
unfoldable pub schedule_webhook_retry : ℕ → Job → Job
schedule_webhook_retry base j = record j {
  attempt = suc j.attempt;
  delay_ms = retry_delay base (suc j.attempt);
}

-- The jobs when an answer has come, over the other ones.
unfoldable pub jobs_after : ℕ → Job → Response → List Job → List Job
jobs_after base j response rest =
    if is_ok response
    then rest
    else if should_retry j
    then schedule_webhook_retry base j ∷ rest
    else rest

-- `deliverWebhook` from its answer on: the job is over, or the next attempt takes its place.
unfoldable pub deliver_webhook : ℕ → Job → Response → ℕ → ℕ → Rail → Rail
deliver_webhook base j response now later s = record {
  deliveries =
      update_rows (is_delivery j.delivery_id) (concluded_row base j response now later)
        s.deliveries;
  jobs = jobs_after base j response s.jobs;
  events = s.events ++ delivery_event base j response later ∷ [];
}

abbrev pub new_delivery : CloudEvent → Webhook → String → ℕ → DeliveryRow
new_delivery e w id now = record {
  delivery_id = id;
  webhook_id = w.webhook_id;
  event_id = e.id;
  attempt_count = 0;
  status = "pending";
  response_status = none;
  last_error = none;
  next_attempt_at = some now;
  created_at = now;
  updated_at = now;
}

abbrev pub new_job : CloudEvent → Webhook → String → Job
new_job e w id = record { delivery_id = id; webhook = w; event = e; attempt = 1; delay_ms = 0 }

-- A delivery for each of the active webhooks that matches, with fresh ids.
unfoldable pub dispatch_webhooks : CloudEvent → List Webhook → (ℕ → String) → ℕ → Rail → Rail
dispatch_webhooks e [] ids now s = s
dispatch_webhooks e (w ∷ ws) ids now s =
    let s' = record s {
      deliveries = new_delivery e w (ids 0) now ∷ s.deliveries;
      jobs = new_job e w (ids 0) ∷ s.jobs;
    } in
    dispatch_webhooks e ws (λ n. ids (suc n)) now (if webhook_matches e w then s' else s)

-- The job at a place in the list, and the others.
unfoldable pub take_job : ℕ → List Job → Option (Job × List Job)
take_job n [] = none
take_job zero (j ∷ js) = some (j, js)
take_job (suc n) (j ∷ js) = elim (take_job n js) [
  | none ↦ none
  | some found ↦ some (found.0, j ∷ found.1)
]

-- Any job may be the next to have its answer.
pub record Arrival : Type 0 where
  pub place : ℕ
  pub response : Response
  pub now : ℕ
  pub later : ℕ

unfoldable pub turn : ℕ → Arrival → Rail → Option Rail
turn base t s = elim (take_job t.place s.jobs) [
  | none ↦ none
  | some found ↦
      some (deliver_webhook base found.0 t.response t.now t.later (record s { jobs = found.1 }))
]

-- A schedule: each turn is taken by a job that is there.
unfoldable pub turns : ℕ → List Arrival → Rail → Option Rail
unfolding turn
turns base [] s = some s
turns base (t ∷ ts) s = elim (turn base t s) [ none ↦ none | some s' ↦ turns base ts s' ]
