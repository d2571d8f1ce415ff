-- ===== src/Webhooks/Calls.antt =====
-- tessera/webhooks/webhook_manager.py: the requests that a sequence of calls leads to.
use auth_manager.Base.Chars.{chars_eq}
use auth_manager.Base.Errors.{Result, ok, err, Action, pure, ◌>>◌, after-bind, bind-step, gets}
use auth_manager.Base.{
  ℕ, Text, Option, Bool, List, ◌≡◌, ◌∷◌, ◌+◌, [], ◌*◌, arith, ◌≤◌, ap, Bool-cases, ◌∙◌, contains,
  is_some, inl, if◌then◌else◌, inr, subst, sym, false,
}
use mathlib.Core.Bool.{true, false}
use auth_manager.Webhooks.Drains.{drain-Within}
use auth_manager.Webhooks.Endpoints.{event_types}
use auth_manager.Webhooks.Attempts.{
  Within, IsReady, potential, push_job-Within, deliver_job-Within, push_job_lem, KeepsAttempts,
}
use auth_manager.Webhooks.Delivery.{
  Hub, Job, World, WebhookEvent, dispatch_event, process_pending_events, send_test_event,
  queue_jobs, push_job, receives, test_job, deliver_job, nth,
}
use auth_manager.Webhooks.{ParsedUrl, ℕ, Text}
use auth_manager.Database.Webhooks.{
  WebhookTables, Endpoint, get_webhook_endpoint, list_webhook_endpoints, get_webhook_deliveries,
}

-- A call of the manager. Those that manage endpoints leave the queue alone; what they make of the
-- tables is the argument of `manages`.
pub data HubCall : Type 0 where
  dispatches : ℕ → WebhookEvent → HubCall
  processes : (ℕ → World) → ℕ → ℕ → HubCall
  tests : World → Text → Text → Text → HubCall
  manages : WebhookTables → HubCall

abbrev number_or : ℕ → Result ℕ → ℕ
number_or d (ok n) = n
number_or d (err e) = d

module _ (loads : Text → Option Job) (dumps : Job → Text) (urlparse : Text → Option ParsedUrl)
    (production : Bool) where
  abbrev pub perform : HubCall → Hub → Hub
  perform (dispatches now event) h = (dispatch_event dumps loads urlparse production now event h).1
  perform (processes worlds now max_jobs) h =
      (process_pending_events dumps loads urlparse production worlds now max_jobs h).1
  perform (tests w event_id payload endpoint_id) h =
      (send_test_event dumps loads urlparse production w event_id payload endpoint_id h).1
  perform (manages tables) h = record h { db = tables }

  -- The deliveries that a call begins: the jobs that it queues, and a test.
  abbrev pub begun : HubCall → Hub → ℕ
  begun (dispatches now event) h =
      number_or 0 (dispatch_event dumps loads urlparse production now event h).0
  begun (processes worlds now max_jobs) h = 0
  begun (tests w event_id payload endpoint_id) h = 1
  begun (manages tables) h = 0

  abbrev pub perform_all : List HubCall → Hub → Hub
  perform_all [] h = h
  perform_all (c ∷ cs) h = perform_all cs (perform c h)

  abbrev pub all_begun : List HubCall → Hub → ℕ
  all_begun [] h = 0
  all_begun (c ∷ cs) h = begun c h + all_begun cs (perform c h)

  module _ (round_trip : KeepsAttempts dumps loads) where
    -- What the loop of `dispatch_event` counts, and what it costs.
    abbrev Counted : ℕ → Hub → Result ℕ × Hub → Type 0
    Counted queued h r =
        (n : ℕ) × (r.0 ≡ ok (queued + n)) × Within loads (potential loads h + 6 * n) r.1

    add_one :
        (queued : ℕ) (h t : Hub) (r : Result ℕ × Hub)
        → potential loads t ≤ potential loads h + 6
        → Counted (queued + 1) t r
        → Counted queued h r
    add_one queued h t r cost (n, result, (ready, small)) =
        (n + 1, result ∙ ap ok (omega arith), (ready, omega arith))

    queue_jobs-Counted :
        (now : ℕ) (event : WebhookEvent) (es : List Endpoint) (queued : ℕ) (h : Hub)
        → IsReady loads h
        → Counted queued h (queue_jobs dumps loads urlparse production now event es queued h)
    unfolding queue_jobs
    queue_jobs-Counted now event [] queued h ready = (0, ap ok (omega arith), (ready, omega arith))
    queue_jobs-Counted now event (e ∷ es) queued h ready =
        go (queue_jobs-Counted now event es) (receives dumps loads urlparse production event.type e)
      where
        job : Job
        job = record { event = event; endpoint_id = e.id; attempts = 0; scheduled_for = now }

        push : Action Hub (Unit {0})
        push = push_job dumps loads urlparse production now job

        go :
            ((q : ℕ) (t : Hub)
              → IsReady loads t
              → Counted q t (queue_jobs dumps loads urlparse production now event es q t))
            → (b : Bool)
            → Counted queued h (
                ((if b then push else pure tt)
                    >> queue_jobs dumps loads urlparse production now event es
                        (if b then queued + 1 else queued))
                  h)
        go ih false = ih queued h ready
        go ih true =
            let (ready', cost) =
              push_job-Within loads dumps round_trip urlparse production now (potential loads h + 6)
                job h (omega arith) ready (omega arith) in
            let pushed = push_job_lem loads dumps round_trip urlparse production now job h ready in
            let rest = ih (queued + 1) (push h).1 ready' in
            subst (Counted queued h)
              (sym (
                bind-step push
                  (λ _. queue_jobs dumps loads urlparse production now event es (queued + 1)) h tt
                  (ap (λ (p : Result (Unit {0}) × Hub). p.0) pushed)))
              (add_one queued h (push h).1
                (queue_jobs dumps loads urlparse production now event es (queued + 1) (push h).1)
                cost rest)

    dispatch_event-Within :
        (now : ℕ) (event : WebhookEvent) (h : Hub)
        → IsReady loads h
        → Within loads
            (potential loads h
              + 6 * number_or 0 (dispatch_event dumps loads urlparse production now event h).0)
            (dispatch_event dumps loads urlparse production now event h).1
    unfolding dispatch_event
    dispatch_event-Within now event h ready = elim (Bool-cases (contains event.type event_types)) [
      | inl known ↦
          let (n, result, within) =
            queue_jobs-Counted now event (list_webhook_endpoints h.db) 0 h ready in
          rw (known, result) (within.0, omega (arith, within.1))
      | inr unknown ↦ rw unknown (ready, omega arith)
    ]

    send_test_event-Within :
        (w : World) (event_id payload endpoint_id : Text) (h : Hub)
        → IsReady loads h
        → Within loads
            (potential loads h + 6)
            (send_test_event dumps loads urlparse production w event_id payload endpoint_id h).1
    unfolding send_test_event
    send_test_event-Within w event_id payload endpoint_id h ready =
        elim (Bool-cases (is_some (get_webhook_endpoint endpoint_id h.db))) [
          | inl there ↦
              let delivered =
                deliver_job-Within loads dumps round_trip urlparse production w
                  (potential loads h + 6) (test_job w event_id payload endpoint_id) h (omega arith)
                  ready (omega arith) in
              rw there (
                after-bind (Within loads (potential loads h + 6))
                  (deliver_job dumps loads urlparse production w
                    (test_job w event_id payload endpoint_id))
                  (λ _. gets (λ t. nth 0 (get_webhook_deliveries endpoint_id 1 t.db))) h
                  (λ _ _. delivered) (λ _ _. delivered))
          | inr missing ↦ rw missing (ready, omega arith)
        ]

    perform-Within :
        (c : HubCall) (h : Hub)
        → IsReady loads h
        → Within loads (potential loads h + 6 * begun c h) (perform c h)
    unfolding process_pending_events
    perform-Within (dispatches now event) h ready = dispatch_event-Within now event h ready
    perform-Within (processes worlds now max_jobs) h ready =
        drain-Within loads dumps round_trip urlparse production (potential loads h + 0) worlds now
          max_jobs 0 0 0 h (ready, omega arith)
    perform-Within (tests w event_id payload endpoint_id) h ready =
        send_test_event-Within w event_id payload endpoint_id h ready
    perform-Within (manages tables) h ready = (ready, omega arith)

    -- For a JSON codec that keeps the number of attempts of a job, and a queue without a deadline whose
    -- jobs have five attempts behind them at most: the calls leave such a queue, and the requests sent
    -- and the attempts that queued jobs have left grow together by six at most for each delivery that
    -- the calls begin.
    pub perform_all-bounded :
        (calls : List HubCall) (h : Hub)
        → IsReady loads h
        → Within loads (potential loads h + 6 * all_begun calls h) (perform_all calls h)
    perform_all-bounded [] h ready = (ready, omega arith)
    perform_all-bounded (c ∷ calls) h ready =
        let (ready', first) = perform-Within c h ready in
        let (done, rest) = perform_all-bounded calls (perform c h) ready' in
        (done, omega (arith, first, rest))
