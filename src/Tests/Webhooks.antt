-- ===== src/Tests/Webhooks.antt =====
-- A webhook to one public address, and messages of a receiver.
use auth_manager.Webhooks.Blocking.{process_pending_events-blocked}
use auth_manager.Base.Errors.{ok}
use auth_manager.Webhooks.Replay.{receive_all, verify_webhook_signature-once}
use auth_manager.Webhooks.Receiver.{
  Message, verify_webhook_signature, is_current, is_signed, record_delivery, remove_prefix,
}
use auth_manager.Base.Int.{ℤ, pos}
use auth_manager.Cache.Keys.{webhook_queue_key}
use auth_manager.Webhooks.Targets.{SentTo, deliver_job-safe}
use auth_manager.Base.Dict.{lookup}
use auth_manager.Base.Chars.{codes, Chars, starts_with}
use auth_manager.Base.{
  Text, false, ◌*◌, ◌∷◌, [], Option, second, none, some, true, List, ◌+◌, refl, ◌≢◌, arith, ap,
  length, ◌≡◌, ◌++◌,
}
use auth_manager.Cache.{empty, exists, exists_any, purge_if_expired, is_expired}
use auth_manager.Webhooks.Calls.{
  perform_all, HubCall, all_begun, dispatches, perform_all-bounded, processes,
}
use auth_manager.Webhooks.Attempts.{Within, KeepsAttempts}
use auth_manager.Webhooks.{
  ParsedUrl, Address, https, validate_endpoint_url, check_parsed, resolves_safely, all_allowed,
}
use auth_manager.Webhooks.Delivery.{
  Hub, Job, World, WebhookEvent, deliver_job, deliver_to, attempt_delivery, send_request,
  schedule_retry, process_pending_events,
}
use auth_manager.Database.Webhooks.{
  WebhookTables, Endpoint, get_webhook_endpoint, save_webhook_delivery,
}

abbrev any_url : Text → Option ParsedUrl
any_url url = some (record { scheme = https; hostname = url; port = some none })

abbrev public_address : Address
public_address = record {
  version = 4;
  value = 134744072;
  is_private = false;
  is_loopback = false;
  is_link_local = false;
  is_reserved = false;
  is_unspecified = false;
  is_multicast = false;
}

-- The receiver's host answers with an error each time.
abbrev failing_world : World
failing_world = record {
  now = 1000 * second;
  delivery_id = 5;
  resolver = λ host port. some (some public_address ∷ []);
  answer = some 500;
}

abbrev endpoint : Endpoint
endpoint = record {
  id = 1;
  url = 9;
  secret = codes "0123456789abcdef";
  events = [];
  description = none;
  enabled = true;
  created_at = 0;
  updated_at = none;
}

abbrev event : WebhookEvent
event = record { id = 3; type = codes "user.created"; created_at = 0; payload = 0 }

abbrev job : Job
job = record { event = event; endpoint_id = 1; attempts = 0; scheduled_for = 0 }

abbrev tables : WebhookTables
tables = record { endpoints = (1, endpoint) ∷ []; deliveries = [] }

abbrev hub : Hub
hub = record { cache = empty; db = tables; posts = [] }

-- A codec that writes the number of attempts alone.
abbrev count_only : Job → Text
count_only j = j.attempts

abbrev read_count : Text → Option Job
read_count n = some (record job { attempts = n })

count_only-KeepsAttempts : KeepsAttempts count_only read_count
count_only-KeepsAttempts j = (record job { attempts = j.attempts }, refl, refl)

abbrev good_world : World
good_world = record failing_world { answer = some 200 }

sent_one : length (deliver_job count_only read_count any_url true good_world job hub).1.posts ≡ 1
unfolding deliver_job deliver_to get_webhook_endpoint lookup attempt_delivery send_request
    validate_endpoint_url check_parsed resolves_safely all_allowed save_webhook_delivery
    schedule_retry
sent_one = refl

one_post : (deliver_job count_only read_count any_url true good_world job hub).1.posts ≢ []
one_post e = absurd (omega (arith, sent_one, ap length e))

deliver_job-safe_example :
    SentTo any_url true count_only read_count good_world
      (some endpoint)
      []
      (deliver_job count_only read_count any_url true good_world job hub).1.posts
unfolding get_webhook_endpoint lookup
deliver_job-safe_example =
    deliver_job-safe any_url true count_only read_count good_world job hub one_post

-- An event to one endpoint, and two rounds of the processor.
abbrev calls : List HubCall
calls =
    dispatches (1000 * second) event
    ∷ processes (λ n. failing_world) (1000 * second) 10
    ∷ processes (λ n. failing_world) (2000 * second) 10
    ∷ []

perform_all-bounded_example :
    Within read_count
      (0 + 6 * all_begun read_count count_only any_url true calls hub)
      (perform_all read_count count_only any_url true calls hub)
unfolding empty lookup
perform_all-bounded_example =
    perform_all-bounded read_count count_only any_url true count_only-KeepsAttempts calls hub
      (refl, tt)

-- A queue whose oldest job is due later than the one behind it.
abbrev waiting_jobs : Hub
waiting_jobs = record hub { cache = record empty { lists = (webhook_queue_key, 0 ∷ 7 ∷ []) ∷ [] } }

abbrev read_due : Text → Option Job
read_due n = some (record job { scheduled_for = n })

process_pending_events-blocked_example :
    let (r, h') =
      process_pending_events count_only read_due any_url true
        (λ n. failing_world)
        5
        10
        waiting_jobs in
    (r ≡ ok 0) × (h'.posts ≡ []) × (h'.db ≡ tables)
unfolding empty lookup
process_pending_events-blocked_example =
    process_pending_events-blocked count_only read_due any_url true (λ n. failing_world) 5 10
      waiting_jobs (0 ∷ []) 7 (record job { scheduled_for = 7 }) refl refl refl (omega arith)

-- A receiver whose signatures write out what they sign.
abbrev plain_mac : Text → Text → Text → Chars
plain_mac secret timestamp payload = secret ∷ timestamp ∷ payload ∷ []

abbrev stamp : Text → Option ℤ
stamp t = some (pos t)

abbrev message : Message
message = record {
  payload = 4;
  signature = codes "sha256=" ++ (8 ∷ 1000 ∷ 4 ∷ []);
  secret = 8;
  timestamp = 1000;
}

accepted_first :
    (verify_webhook_signature plain_mac stamp (1000 * second) 300 message 5 (some empty)).0 ≡ true
unfolding verify_webhook_signature is_current is_signed record_delivery exists exists_any
    purge_if_expired is_expired empty lookup remove_prefix starts_with
accepted_first = refl

verify_webhook_signature-once_example :
    let (_, store) =
      verify_webhook_signature plain_mac stamp (1000 * second) 300 message 5 (some empty) in
    (verify_webhook_signature plain_mac stamp
      (1200 * second)
      300
      message
      5
      (receive_all plain_mac stamp [] store)).0
    ≡ false
verify_webhook_signature-once_example =
    verify_webhook_signature-once plain_mac stamp (1000 * second) (1200 * second) 300 message 5
      empty [] (omega arith) (λ e. absurd (ground (arith, e))) (omega arith) tt accepted_first
