-- ===== src/Webhooks/Attempts.antt =====
-- tessera/webhooks/webhook_manager.py: how many requests a queued job leads to.
use auth_manager.Webhooks.Delivery.{
  in_cache, send_request, take_job, in_db, delivery_record, is_success, postponed, delivered,
  handle_job, push_retry, deliver_to,
}
use auth_manager.Base.{
  false, Option-cases, ◌<◌, suc, inl, inr, Bool-cases, zero, ◌*◌, second, length-append, ltb, refl,
}
use auth_manager.Base.Errors.{ok, bind-step, pure, after-bind, bind-pure}
use auth_manager.Cache.Keys.{webhook_queue_key}
use auth_manager.Cache.Laws.Queue.{
  HasNoDeadline, queued, queued-lpush, lpush_lem, HasNoDeadline-lpush,
}
use auth_manager.Base.{
  Option, Text, ℕ, some, List, ◌≡◌, ◌-◌, ◌≤◌, ◌++◌, length, Bool, ◌∷◌, ◌+◌, [], none, arith, true,
}
use auth_manager.Cache.{lpush}
use auth_manager.Database.Webhooks.{Endpoint, get_webhook_endpoint, save_webhook_delivery}
use auth_manager.Webhooks.Delivery.{
  Hub, Job, World, push_job, schedule_retry, nth, attempt_delivery, deliver_job,
  retry_delays_seconds, in_cache,
}
use auth_manager.Webhooks.{ParsedUrl, Option, Text, validate_endpoint_url}

-- The attempts that a job may still take.
abbrev pub left_of : Option Job → ℕ
left_of none = 0
left_of (some job) = 6 - job.attempts

abbrev pub IsLimited : Option Job → Type 0
IsLimited none = Unit {0}
IsLimited (some job) = job.attempts ≤ 5

-- The codec reads each job that it writes, with as many attempts; of the other fields nothing is
-- asked here.
abbrev pub KeepsAttempts : (Job → Text) → (Text → Option Job) → Type 0
KeepsAttempts dumps loads =
    (j : Job) → (read : Job) × (loads (dumps j) ≡ some read) × (read.attempts ≡ j.attempts)

nth-some : (n : ℕ) (l : List ℕ) (x : ℕ) → nth n l ≡ some x → n < length l
nth-some n [] x e = absurd (ground arith)
nth-some zero (y ∷ l) x e = omega arith
nth-some (suc n) (y ∷ l) x e = omega (arith, nth-some n l x e)

module _ (loads : Text → Option Job) where
  abbrev pub allowance : List Text → ℕ
  allowance [] = 0
  allowance (raw ∷ l) = left_of (loads raw) + allowance l

  abbrev pub AllLimited : List Text → Type 0
  AllLimited [] = Unit {0}
  AllLimited (raw ∷ l) = IsLimited (loads raw) × AllLimited l

  pub allowance-append :
      (l : List Text) (raw : Text) → allowance (l ++ raw ∷ []) ≡ allowance l + left_of (loads raw)
  allowance-append [] raw = omega arith
  allowance-append (x ∷ l) raw = omega (arith, allowance-append l raw)

  pub AllLimited-append :
      (l : List Text) (raw : Text)
      → AllLimited (l ++ raw ∷ [])
      → AllLimited l × IsLimited (loads raw)
  AllLimited-append [] raw (h, _) = (tt, h)
  AllLimited-append (x ∷ l) raw (h, hs) =
      let (front, last) = AllLimited-append l raw hs in ((h, front), last)

  abbrev pub waiting : Hub → List Text
  waiting h = queued webhook_queue_key h.cache

  -- No job of the queue has more than five attempts behind it.
  abbrev pub IsReady : Hub → Type 0
  IsReady h = HasNoDeadline webhook_queue_key h.cache × AllLimited (waiting h)

  -- The requests sent, and those that the queue may still lead to.
  abbrev pub potential : Hub → ℕ
  potential h = length h.posts + allowance (waiting h)

  abbrev pub Within : ℕ → Hub → Type 0
  Within bound h = IsReady h × (potential h ≤ bound)

  module _ (dumps : Job → Text) (round_trip : KeepsAttempts dumps loads)
      (urlparse : Text → Option ParsedUrl) (production : Bool) where
    pub push_job_lem :
        (now : ℕ) (job : Job) (h : Hub)
        → IsReady h
        → push_job dumps loads urlparse production now job h
          ≡ (ok tt, record h { cache = (lpush now webhook_queue_key (dumps job ∷ []) h.cache).1 })
    unfolding push_job
    push_job_lem now job h ready =
        bind-step (in_cache (lpush now webhook_queue_key (dumps job ∷ []))) (λ _. pure tt) h _
          (lpush_lem now webhook_queue_key h.cache ready.0 (dumps job))

    pushed-Within :
        (now bound : ℕ) (raw : Text) (h : Hub)
        → IsLimited (loads raw)
        → IsReady h
        → potential h + left_of (loads raw) ≤ bound
        → Within bound (record h { cache = (lpush now webhook_queue_key (raw ∷ []) h.cache).1 })
    pushed-Within now bound raw h limited ready small =
        let e = queued-lpush now webhook_queue_key h.cache ready.0 raw in
        (
          (HasNoDeadline-lpush now webhook_queue_key h.cache ready.0 raw, rw e (limited, ready.1)),
          rw e (omega arith),
        )

    pub push_job-Within :
        (now bound : ℕ) (job : Job) (h : Hub)
        → job.attempts ≤ 5
        → IsReady h
        → potential h + (6 - job.attempts) ≤ bound
        → Within bound (push_job dumps loads urlparse production now job h).1
    push_job-Within now bound job h limited ready small =
        let (read, e, same) = round_trip job in
        rw (push_job_lem now job h ready) (
          pushed-Within now bound (dumps job) h (rw e (omega (arith, same))) ready
            (rw e (omega (arith, same))))

    schedule_retry-Within :
        (w : World) (bound : ℕ) (job : Job) (success : Bool) (h : Hub)
        → job.attempts ≤ 5
        → IsReady h
        → potential h + (5 - job.attempts) ≤ bound
        → Within bound (schedule_retry dumps loads urlparse production w job success h).1
    unfolding schedule_retry push_retry
    schedule_retry-Within w bound job true h limited ready small = (ready, omega arith)
    schedule_retry-Within w bound job false h limited ready small =
        elim (Option-cases (nth job.attempts retry_delays_seconds)) [
          | inl over ↦ rw (over, push_retry) (ready, omega arith)
          | inr (delay, again) ↦
              let below = nth-some job.attempts retry_delays_seconds delay again in
              rw (again, push_retry)
                (push_job-Within w.now bound
                  (record job {
                    attempts = job.attempts + 1;
                    scheduled_for = w.now + delay * second;
                  })
                  h (omega (arith, below)) ready (omega (arith, below)))
        ]

    send_request-Within :
        (w : World) (job : Job) (e : Endpoint) (h : Hub)
        → IsReady h
        → Within (potential h + 1) (send_request dumps loads urlparse production w job e h).1
    unfolding send_request
    send_request-Within w job e h ready =
        elim (Bool-cases (validate_endpoint_url urlparse production w.resolver e.url)) [
          | inl safe ↦ rw safe (ready, omega (arith, length-append h.posts))
          | inr unsafe ↦ rw unsafe (ready, omega arith)
        ]

    -- One delivery sends one request at most.
    attempt_delivery-Within :
        (w : World) (bound : ℕ) (job : Job) (e : Endpoint) (h : Hub)
        → job.attempts ≤ 5
        → IsReady h
        → potential h + (6 - job.attempts) ≤ bound
        → Within bound (attempt_delivery dumps loads urlparse production w job e h).1
    unfolding attempt_delivery
    attempt_delivery-Within w bound job e h limited ready small =
        let (status, sent) = send_request dumps loads urlparse production w job e h in
        let (ready', cost) = send_request-Within w job e h ready in
        after-bind (Within bound)
          (in_db (
            save_webhook_delivery (delivery_record dumps loads urlparse production w job e status)))
          (λ _. schedule_retry dumps loads urlparse production w job (is_success status)) sent
          (λ _ _. (ready', omega (arith, cost)))
          (λ _ _.
            schedule_retry-Within w bound job (is_success status) _ limited ready'
              (omega (arith, cost)))

    pub deliver_job-Within :
        (w : World) (bound : ℕ) (job : Job) (h : Hub)
        → job.attempts ≤ 5
        → IsReady h
        → potential h + (6 - job.attempts) ≤ bound
        → Within bound (deliver_job dumps loads urlparse production w job h).1
    unfolding deliver_job deliver_to
    deliver_job-Within w bound job h limited ready small =
        go (get_webhook_endpoint job.endpoint_id h.db)
      where
        idle : Within bound h
        idle = (ready, omega arith)

        go :
            (found : Option Endpoint)
            → Within bound (deliver_to dumps loads urlparse production w job found h).1
        go none = idle
        go (some e) = elim (Bool-cases e.enabled) [
          | inl on ↦ rw on (attempt_delivery-Within w bound job e h limited ready small)
          | inr off ↦ rw off idle
        ]

    pub take_job-Within :
        (now bound : ℕ) (w : World) (raw : Text) (h : Hub)
        → IsLimited (loads raw)
        → IsReady h
        → potential h + left_of (loads raw) ≤ bound
        → Within bound (take_job dumps loads urlparse production now w raw h).1
    unfolding take_job handle_job
    take_job-Within now bound w raw h limited ready small = go (loads raw) refl
      where
        go :
            (o : Option Job)
            → loads raw ≡ o
            → Within bound (handle_job dumps loads urlparse production now w raw o h).1
        go none e = (ready, omega arith)
        go (some job) e =
            let limited' : job.attempts ≤ 5 = rw e at limited in
            let small' : potential h + (6 - job.attempts) ≤ bound = rw e at small in
            elim (Bool-cases (ltb now job.scheduled_for)) [
              | inl early ↦
                  rw
                    (
                      early,
                      bind-pure (in_cache (lpush w.now webhook_queue_key (raw ∷ []))) postponed h,
                    )
                    (pushed-Within w.now bound raw h limited ready small)
              | inr due ↦
                  rw
                    (due, bind-pure (deliver_job dumps loads urlparse production w job) delivered h)
                    (deliver_job-Within w bound job h limited' ready small')
            ]
