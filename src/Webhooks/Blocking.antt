-- ===== src/Webhooks/Blocking.antt =====
-- tessera/webhooks/webhook_manager.py: `process_pending_events` where the oldest job is not due.
use auth_manager.Cache.{rpop, lpush}
use auth_manager.Base.Errors.{ok, Action, bind-step, pure}
use auth_manager.Cache.Keys.{webhook_queue_key}
use auth_manager.Cache.Laws.Queue.{HasNoDeadline, queued, lpush_lem, rpop-Pops, HasNoDeadline-rpop}
use auth_manager.Base.{
  List, Text, Option, ◌++◌, none, ◌∷◌, Bool, some, [], ◌≡◌, ℕ, refl, ◌<◌, suc, ltb, zero, arith,
  inl, ap, sym, ◌∙◌, inr, ◌≢◌,
}
use auth_manager.Webhooks.Delivery.{postponed, next_round, after_round, Round, in_cache}
use mathlib.Core.Bool.{true}
use auth_manager.Webhooks.Delivery.{
  Hub, Job, World, take_job, process_pending_events, handle_job, drain, postponed,
}
use auth_manager.Webhooks.{ParsedUrl, List, Text}

oldest : List Text → Option Text
oldest [] = none
oldest (x ∷ []) = some x
oldest (x ∷ y ∷ l) = oldest (y ∷ l)

oldest-append : (l : List Text) (x : Text) → oldest (l ++ x ∷ []) ≡ some x
unfolding oldest
oldest-append [] x = refl
oldest-append (y ∷ []) x = refl
oldest-append (y ∷ z ∷ l) x = oldest-append (z ∷ l) x

append-ne_nil : (l : List Text) (x : Text) → l ++ x ∷ [] ≢ []
append-ne_nil [] x e = absurd (ground arith)
append-ne_nil (y ∷ l) x e = absurd (ground arith)

popped_oldest :
    (now : ℕ) (h : Hub) (newer : List Text) (raw : Text)
    → HasNoDeadline webhook_queue_key h.cache
    → queued webhook_queue_key h.cache ≡ newer ++ raw ∷ []
    → (rpop now webhook_queue_key h.cache).0 ≡ some raw
popped_oldest now h newer raw lasting queue =
    elim (rpop-Pops now webhook_queue_key h.cache lasting) [
      | inl (was, _, _) ↦ absurd (append-ne_nil newer raw (sym queue ∙ was))
      | inr (v, was, result) ↦
          result ∙ sym (oldest-append _ v) ∙ ap oldest (sym was ∙ queue) ∙ oldest-append newer raw
    ]

-- A postponed job in the first round ends the loop.
stop_round :
    (rest : ℕ → ℕ → ℕ → Action Hub ℕ) (take : Text → Action Hub Round) (raw : Text) (h : Hub)
    → (take raw h).0 ≡ ok postponed
    → next_round rest take 0 0 0 (some raw) h ≡ (ok 0, (take raw h).1)
unfolding next_round after_round
stop_round rest take raw h e = rw e refl

module _ (dumps : Job → Text) (loads : Text → Option Job) (urlparse : Text → Option ParsedUrl)
    (production : Bool) where
  postponed_lem :
      (now : ℕ) (w : World) (raw : Text) (job : Job) (h : Hub)
      → HasNoDeadline webhook_queue_key h.cache
      → loads raw ≡ some job
      → now < job.scheduled_for
      → let (r, h') = take_job dumps loads urlparse production now w raw h in
        (r ≡ ok postponed) × (h'.posts ≡ h.posts) × (h'.db ≡ h.db)
  unfolding take_job handle_job
  postponed_lem now w raw job h lasting is early =
      let later : ltb now job.scheduled_for ≡ true = ground arith in
      rw (is, handle_job, later)
        (rw
          (bind-step (in_cache (lpush w.now webhook_queue_key (raw ∷ []))) (λ _. pure postponed) h _
            (lpush_lem w.now webhook_queue_key h.cache lasting raw))
          (refl, refl, refl))

  -- If the oldest job is not due: a call delivers nothing, whatever jobs wait behind it and however
  -- many it may take.
  pub process_pending_events-blocked :
      (worlds : ℕ → World) (now max_jobs : ℕ) (h : Hub) (newer : List Text) (raw : Text) (job : Job)
      → HasNoDeadline webhook_queue_key h.cache
      → queued webhook_queue_key h.cache ≡ newer ++ raw ∷ []
      → loads raw ≡ some job
      → now < job.scheduled_for
      → let (r, h') =
          process_pending_events dumps loads urlparse production worlds now max_jobs h in
        (r ≡ ok 0) × (h'.posts ≡ h.posts) × (h'.db ≡ h.db)
  unfolding process_pending_events drain
  process_pending_events-blocked worlds now zero h newer raw job lasting queue is early =
      (refl, refl, refl)
  process_pending_events-blocked worlds now (suc left) h newer raw job lasting queue is early =
      let first = worlds 0 in
      let h' : Hub = record h { cache = (rpop first.now webhook_queue_key h.cache).1 } in
      let popped = popped_oldest first.now h newer raw lasting queue in
      let (round, posts, tables) =
        postponed_lem now first raw job h'
          (HasNoDeadline-rpop first.now webhook_queue_key h.cache lasting) is early in
      rw
        (
          popped,
          stop_round (drain dumps loads urlparse production worlds now left)
              (take_job dumps loads urlparse production now first) raw h' round,
        )
        (refl, posts, tables)
