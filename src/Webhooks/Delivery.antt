-- ===== src/Webhooks/Delivery.antt =====
-- tessera/webhooks/webhook_manager.py, `class WebhookManager`: the queue of deliveries. A queued job
-- is a JSON text; `dumps` and `loads` are `json.dumps` and `json.loads`, which gives `none` where it
-- raises. The queue holds what `dumps` gave: JSON that is no job, at which the code raises, is left out.
use auth_manager.Cache.Keys.{webhook_queue_key}
use auth_manager.Base.Chars.{Chars, is_empty, chars_eq, codes}
use auth_manager.Base.Errors.{
  Result, Action, pure, ok, ◌>>◌, ◌>>=◌, raise_if, call, gets, err, not_found, value_error,
}
use auth_manager.Base.{
  Text, ℕ, List, Option, Bool, ◌∷◌, none, false, [], some, ◌&&◌, if◌then◌else◌, ◌+◌, suc, leb, not,
  ◌++◌, ◌*◌, ltb, zero, ◌||◌, contains, second, is_some, true,
}
use auth_manager.Cache.{Cache, lpush, rpop}
use auth_manager.Database.Webhooks.{
  WebhookTables, Endpoint, Delivery, Failure, get_webhook_endpoint, url_validation_failed,
  save_webhook_delivery, delivery_error, http_status, get_webhook_deliveries,
  list_webhook_endpoints,
}
use auth_manager.Webhooks.Endpoints.{event_types}
use auth_manager.Webhooks.{ParsedUrl, Resolver, Text, ℕ, List, Option, Bool, validate_endpoint_url}

pub record WebhookEvent : Type 0 where
  pub id : Text
  pub type : Chars
  pub created_at : ℕ
  pub payload : Text

pub record Job : Type 0 where
  pub event : WebhookEvent
  pub endpoint_id : Text
  pub attempts : ℕ
  pub scheduled_for : ℕ

-- A request that was sent, as the receiver sees it.
pub record Post : Type 0 where
  pub url : Text
  pub delivery_id : Text
  pub event : WebhookEvent
  pub sent_at : ℕ

-- What an attempt meets: the time, a fresh delivery id, the answers of the name service, and the
-- status of the response if the client does not raise.
pub record World : Type 0 where
  pub now : ℕ
  pub delivery_id : Text
  pub resolver : Resolver
  pub answer : Option ℕ

-- The cache, the tables and the requests sent so far.
pub record Hub : Type 0 where
  pub cache : Cache
  pub db : WebhookTables
  pub posts : List Post

abbrev pub retry_delays_seconds : List ℕ
retry_delays_seconds = 60 ∷ 300 ∷ 900 ∷ 3600 ∷ 14400 ∷ []

abbrev pub nth {ℓ} : {A : Type ℓ} → ℕ → List A → Option A
nth n [] = none
nth zero (x ∷ xs) = some x
nth (suc n) (x ∷ xs) = nth n xs

-- `200 <= status_code < 300`
abbrev pub is_success : Option ℕ → Bool
is_success none = false
is_success (some code) = leb 200 code && ltb code 300

-- The error of a record, where there is no success.
abbrev pub failure_of : Bool → Option ℕ → Option Failure
failure_of false answer = some url_validation_failed
failure_of true none = some delivery_error
failure_of true (some code) = if is_success (some code) then none else some (http_status code)

abbrev pub in_cache : {A : Type 0} → (Cache → Result A × Cache) → Action Hub A
in_cache m h = let (r, c) = m h.cache in (r, record h { cache = c })

abbrev pub in_db : {A : Type 0} → Action WebhookTables A → Action Hub A
in_db m h = let (r, d) = m h.db in (r, record h { db = d })

-- One round of `process_pending_events`: a text that is no job is dropped, a job that is not due is
-- put back, and another is delivered.
pub data Round : Type 0 where
  dropped postponed delivered : Round

-- The rest of the loop of `process_pending_events` goes on after a round with the counters `seen`,
-- `requeued` and `processed`.
unfoldable pub after_round : (ℕ → ℕ → ℕ → Action Hub ℕ) → ℕ → ℕ → ℕ → Result Round → Action Hub ℕ
after_round rest seen requeued processed (err e) h = (err e, h)
after_round rest seen requeued processed (ok dropped) h = rest (seen + 1) requeued processed h
after_round rest seen requeued processed (ok delivered) h =
    rest (seen + 1) requeued (processed + 1) h
after_round rest seen requeued processed (ok postponed) h = elim (leb (seen + 1) (requeued + 1)) [
  | true ↦ (ok processed, h)
  | false ↦ rest (seen + 1) (requeued + 1) processed h
]

unfoldable pub next_round :
    (ℕ → ℕ → ℕ → Action Hub ℕ) → (Text → Action Hub Round) → ℕ → ℕ → ℕ → Option Text → Action Hub ℕ
unfolding after_round
next_round rest take seen requeued processed none h = (ok processed, h)
next_round rest take seen requeued processed (some raw) h =
    let (r, h') = take raw h in after_round rest seen requeued processed r h'

abbrev pub test_job : World → Text → Text → Text → Job
test_job w event_id payload endpoint_id = record {
  event = record {
    id = event_id;
    type = codes "webhook.test";
    created_at = w.now;
    payload = payload;
  };
  endpoint_id = endpoint_id;
  attempts = 0;
  scheduled_for = 0;
}

module _ (dumps : Job → Text) (loads : Text → Option Job) (urlparse : Text → Option ParsedUrl)
    (production : Bool) where
  unfoldable pub push_job : ℕ → Job → Action Hub (Unit {0})
  push_job now job = in_cache (lpush now webhook_queue_key (dumps job ∷ [])) >> pure tt

  -- A subscription to no events is one to all.
  unfoldable pub receives : Chars → Endpoint → Bool
  receives type e = e.enabled && (is_empty e.events || contains type e.events)

  -- The loop of `dispatch_event`, with the number of jobs queued so far.
  unfoldable pub queue_jobs : ℕ → WebhookEvent → List Endpoint → ℕ → Action Hub ℕ
  unfolding push_job receives
  queue_jobs now event [] queued = pure queued
  queue_jobs now event (e ∷ es) queued =
      (if receives event.type e
        then push_job now
            (record { event = event; endpoint_id = e.id; attempts = 0; scheduled_for = now })
        else pure tt)
      >> queue_jobs now event es (if receives event.type e then queued + 1 else queued)

  unfoldable pub dispatch_event : ℕ → WebhookEvent → Action Hub ℕ
  unfolding queue_jobs
  dispatch_event now event = do
    raise_if (not (contains event.type event_types)) value_error
    endpoints ← gets (λ h. list_webhook_endpoints h.db)
    queue_jobs now event endpoints 0

  -- The request, if the endpoint's URL is still safe; the status if there is one.
  unfoldable pub send_request : World → Job → Endpoint → Hub → Option ℕ × Hub
  unfolding validate_endpoint_url
  send_request w job e h =
      if validate_endpoint_url urlparse production w.resolver e.url
      then (
        w.answer,
        record h {
          posts =
              h.posts
              ++ record {
                url = e.url;
                delivery_id = w.delivery_id;
                event = job.event;
                sent_at = w.now;
              }
                ∷ [];
        },
      )
      else (none, h)

  unfoldable pub delivery_record : World → Job → Endpoint → Option ℕ → Delivery
  unfolding validate_endpoint_url
  delivery_record w job e status = record {
    endpoint_id = job.endpoint_id;
    event_id = job.event.id;
    delivery_id = w.delivery_id;
    event_type = job.event.type;
    success = is_success status;
    status_code = status;
    attempt = job.attempts + 1;
    error = failure_of (validate_endpoint_url urlparse production w.resolver e.url) status;
    created_at = w.now;
  }

  -- The end of `_deliver_job`.
  unfoldable pub push_retry : World → Job → Option ℕ → Action Hub (Unit {0})
  unfolding push_job
  push_retry w job none = pure tt
  push_retry w job (some delay) =
      push_job w.now
        (record job { attempts = job.attempts + 1; scheduled_for = w.now + delay * second })

  unfoldable pub schedule_retry : World → Job → Bool → Action Hub (Unit {0})
  unfolding push_retry
  schedule_retry w job true = pure tt
  schedule_retry w job false = push_retry w job (nth job.attempts retry_delays_seconds)

  unfoldable pub attempt_delivery : World → Job → Endpoint → Action Hub (Unit {0})
  unfolding send_request delivery_record schedule_retry
  attempt_delivery w job e = do
    status ← call (send_request w job e)
    in_db (save_webhook_delivery (delivery_record w job e status))
    schedule_retry w job (is_success status)

  -- `_deliver_job`; without the endpoint, or where it is not enabled, the job is dropped.
  unfoldable pub deliver_to : World → Job → Option Endpoint → Action Hub (Unit {0})
  unfolding attempt_delivery
  deliver_to w job none = pure tt
  deliver_to w job (some e) = if e.enabled then attempt_delivery w job e else pure tt

  unfoldable pub deliver_job : World → Job → Action Hub (Unit {0})
  unfolding deliver_to
  deliver_job w job h = deliver_to w job (get_webhook_endpoint job.endpoint_id h.db) h

  -- The rest of a round, with what `loads` gave.
  unfoldable pub handle_job : ℕ → World → Text → Option Job → Action Hub Round
  unfolding deliver_job
  handle_job now w raw none = pure dropped
  handle_job now w raw (some job) =
      if ltb now job.scheduled_for
      then in_cache (lpush w.now webhook_queue_key (raw ∷ [])) >> pure postponed
      else deliver_job w job >> pure delivered

  unfoldable pub take_job : ℕ → World → Text → Action Hub Round
  unfolding handle_job
  take_job now w raw = handle_job now w raw (loads raw)

  -- The loop for as many rounds as are left. `now` is read once, each round has a world of its own.
  unfoldable pub drain : (ℕ → World) → ℕ → ℕ → ℕ → ℕ → ℕ → Action Hub ℕ
  unfolding take_job next_round
  drain worlds now zero seen requeued processed h = (ok processed, h)
  drain worlds now (suc left) seen requeued processed h =
      let (popped, c) = rpop (worlds seen).now webhook_queue_key h.cache in
      next_round (drain worlds now left) (take_job now (worlds seen)) seen requeued processed popped
        (record h { cache = c })

  unfoldable pub process_pending_events : (ℕ → World) → ℕ → ℕ → Action Hub ℕ
  unfolding drain
  process_pending_events worlds now max_jobs = drain worlds now max_jobs 0 0 0

  -- `send_test_event` delivers an event of the type `webhook.test`; the result is the newest delivery.
  unfoldable pub send_test_event : World → Text → Text → Text → Action Hub (Option Delivery)
  unfolding deliver_job
  send_test_event w event_id payload endpoint_id = do
    endpoint ← gets (λ h. get_webhook_endpoint endpoint_id h.db)
    raise_if (not (is_some endpoint)) not_found
    deliver_job w (test_job w event_id payload endpoint_id)
    gets (λ h. nth 0 (get_webhook_deliveries endpoint_id 1 h.db))
