-- ===== src/Webhooks/Drains.antt =====
-- tessera/webhooks/webhook_manager.py: the requests that the calls of a manager lead to.
use auth_manager.Webhooks.Delivery.{postponed}
use auth_manager.Webhooks.Attempts.{Within, KeepsAttempts}
use auth_manager.Cache.Laws.Queue.{HasNoDeadline-rpop, rpop-Pops}
use auth_manager.Cache.Keys.{webhook_queue_key}
use auth_manager.Base.Errors.{Action, Result, err, ok}
use auth_manager.Base.{
  Text, Option, ℕ, some, Bool, none, ◌+◌, suc, ◌≤◌, Bool-cases, inl, leb, arith, inr, zero, ap,
}
use auth_manager.Cache.{rpop}
use auth_manager.Webhooks.Delivery.{
  Hub, Job, World, Round, after_round, next_round, drain, take_job, dropped, delivered,
}
use auth_manager.Webhooks.Attempts.{
  IsReady, potential, Within, IsLimited, left_of, take_job-Within, AllLimited-append, allowance,
  allowance-append,
}
use auth_manager.Webhooks.{ParsedUrl, Text}

module _ (loads : Text → Option Job) (bound : ℕ) where
  abbrev pub KeepsBound : (ℕ → ℕ → ℕ → Action Hub ℕ) → Type 0
  KeepsBound rest =
      (seen requeued processed : ℕ) (h : Hub)
      → Within loads bound h
      → Within loads bound (rest seen requeued processed h).1

  -- A text that was taken out, and the queue without it.
  abbrev Fits : Option Text → Hub → Type 0
  Fits none h = Within loads bound h
  Fits (some raw) h =
      IsLimited (loads raw) × IsReady loads h × (potential loads h + left_of (loads raw) ≤ bound)

  abbrev KeepsJob : (Text → Action Hub Round) → Type 0
  KeepsJob take = (raw : Text) (h : Hub) → Fits (some raw) h → Within loads bound (take raw h).1

  after_round-Within :
      (rest : ℕ → ℕ → ℕ → Action Hub ℕ) (seen requeued processed : ℕ) (r : Result Round) (h : Hub)
      → KeepsBound rest
      → Within loads bound h
      → Within loads bound (after_round rest seen requeued processed r h).1
  unfolding after_round
  after_round-Within rest seen requeued processed (err e) h ih within = within
  after_round-Within rest seen requeued processed (ok dropped) h ih within = ih _ _ _ h within
  after_round-Within rest seen requeued processed (ok delivered) h ih within = ih _ _ _ h within
  after_round-Within rest seen requeued processed (ok postponed) h ih within =
      elim (Bool-cases (leb (seen + 1) (requeued + 1))) [
        | inl only ↦ rw (only, after_round) within
        | inr more ↦ rw (more, after_round) (ih _ _ _ h within)
      ]

  next_round-Within :
      (rest : ℕ → ℕ → ℕ → Action Hub ℕ) (take : Text → Action Hub Round)
      (seen requeued processed : ℕ) (popped : Option Text) (h : Hub)
      → KeepsBound rest
      → KeepsJob take
      → Fits popped h
      → Within loads bound (next_round rest take seen requeued processed popped h).1
  unfolding next_round
  next_round-Within rest take seen requeued processed none h ih job fits = fits
  next_round-Within rest take seen requeued processed (some raw) h ih job fits =
      after_round-Within rest seen requeued processed (take raw h).0 (take raw h).1 ih
        (job raw h fits)

  rpop-Fits :
      (now : ℕ) (h : Hub)
      → Within loads bound h
      → let (popped, c) = rpop now webhook_queue_key h.cache in Fits popped (record h { cache = c })
  rpop-Fits now h (ready, small) =
      let lasting = HasNoDeadline-rpop now webhook_queue_key h.cache ready.0 in
      elim (rpop-Pops now webhook_queue_key h.cache ready.0) [
        | inl (was, result, left) ↦ rw result ((lasting, rw left tt), rw left (omega arith))
        | inr (raw, was, result) ↦
            let (others, limited) = AllLimited-append loads _ raw (rw was at (ready.1)) in
            rw result (
              limited,
              (lasting, others),
              omega (arith, ap (allowance loads) was, allowance-append loads _ raw),
            )
      ]

module _ (loads : Text → Option Job) (dumps : Job → Text) (round_trip : KeepsAttempts dumps loads)
    (urlparse : Text → Option ParsedUrl) (production : Bool) where
  pub drain-Within :
      (bound : ℕ) (worlds : ℕ → World) (now left : ℕ)
      → KeepsBound loads bound (drain dumps loads urlparse production worlds now left)
  unfolding drain
  drain-Within bound worlds now zero seen requeued processed h within = within
  drain-Within bound worlds now (suc left) seen requeued processed h within =
      next_round-Within loads bound (drain dumps loads urlparse production worlds now left)
        (take_job dumps loads urlparse production now (worlds seen)) seen requeued processed _ _
        (drain-Within bound worlds now left)
        (λ raw h' fits.
          take_job-Within loads dumps round_trip urlparse production now bound (worlds seen) raw h'
            fits.0 fits.1 fits.2)
        (rpop-Fits loads bound (worlds seen).now h within)
