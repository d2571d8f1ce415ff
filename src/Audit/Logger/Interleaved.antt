-- ===== src/Audit/Logger/Interleaved.antt =====
-- tessera/admin/audit_logger.py: calls that run while a `flush` waits for the database. The lock is
-- held only to take the queue and to put it back, so each part of `flush` is a step of its own.
-- `close` cancels the periodic task, also while that waits, and `except Exception` does not catch it.
use auth_manager.Base.Chars.{Chars}
use auth_manager.Base.{List, Text, ℕ, ◌++◌, [], ◌+◌, ◌≡◌, arith, refl, ◌==◌, nat_eq, ap, ◌∙◌, ◌≢◌}
use mathlib.Core.List.{append-nil}
use auth_manager.Base.Counting.{count}
use auth_manager.Audit.Logger.Kept.{ids_of, stored_ids, stored_ids-append_all}
use auth_manager.Audit.Logger.{Logger, LoggerConfig, enqueue, take_pending, requeue, with_ids}
use auth_manager.Audit.{
  Event, Payload, List, Text, Chars, ◌∷◌, ℕ, [], or_default, save_audit_events, save_audit_event,
  append_all,
}

-- The batches that some `flush` has taken and not yet written.
pub record Running : Type 0 where
  pub logger : Logger
  pub flights : List (List Event)

abbrev pub waiting_ids : List (List Event) → List Text
waiting_ids [] = []
waiting_ids (batch ∷ flights) = ids_of batch ++ waiting_ids flights

abbrev pub occurrences : Text → List Text → ℕ
occurrences i = count (λ j. j == i)

-- How often an event is stored, waits in the queue or is on its way to the database.
abbrev pub known : Text → Running → ℕ
known i s =
    occurrences i (stored_ids s.logger.log)
    + occurrences i (ids_of s.logger.queue)
    + occurrences i (waiting_ids s.flights)

occurrences-append :
    (i : Text) (xs ys : List Text) → occurrences i (xs ++ ys) ≡ occurrences i xs + occurrences i ys
occurrences-append i [] ys = omega arith
occurrences-append i (x ∷ xs) ys = omega (arith, occurrences-append i xs ys)

occurrences-ids :
    (i : Text) (xs ys : List Event)
    → occurrences i (ids_of (xs ++ ys)) ≡ occurrences i (ids_of xs) + occurrences i (ids_of ys)
occurrences-ids i [] ys = omega arith
occurrences-ids i (x ∷ xs) ys = omega (arith, occurrences-ids i xs ys)

-- Taking one batch out.
occurrences-waiting :
    (i : Text) (before : List (List Event)) (batch : List Event) (after : List (List Event))
    → occurrences i (waiting_ids (before ++ batch ∷ after))
      ≡ occurrences i (ids_of batch) + occurrences i (waiting_ids (before ++ after))
occurrences-waiting i [] batch after = occurrences-append i (ids_of batch) (waiting_ids after)
occurrences-waiting i (b ∷ before) batch after = omega (
  arith,
  occurrences-waiting i before batch after,
  occurrences-append i (ids_of b) (waiting_ids (before ++ batch ∷ after)),
  occurrences-append i (ids_of b) (waiting_ids (before ++ after)),
)

occurrences-taken :
    (i : Text) {flights : List (List Event)} (before : List (List Event)) (batch : List Event)
    (after : List (List Event))
    → flights ≡ before ++ batch ∷ after
    → occurrences i (waiting_ids flights)
      ≡ occurrences i (ids_of batch) + occurrences i (waiting_ids (before ++ after))
occurrences-taken i before batch after e =
    ap (λ x. occurrences i (waiting_ids x)) e ∙ occurrences-waiting i before batch after

module _ (config : LoggerConfig) (digest : Payload → Chars) (genesis : Chars) where
  -- The steps, with the ids that they log and the ids whose batch is dropped.
  pub data Step : Running → Running → List Text → List Text → Type 0 where
    enqueued :
        {s : Running} (e : Event)
        → Step s
            (record s { logger = (enqueue config digest genesis e s.logger).1 })
            (or_default e.id 0 ∷ [])
            []
    stored_at_once :
        {s : Running} (now : ℕ) (e : Event)
        → Step s
            (record s {
              logger = record s.logger {
                log = (save_audit_event digest genesis now (or_default e.id 0) e s.logger.log).1;
              };
            })
            (or_default e.id 0 ∷ [])
            []
    takes :
        {s : Running}
        → s.logger.queue ≢ []
        → Step s
            (record {
              logger = (take_pending config digest genesis s.logger).1;
              flights = s.flights ++ (take_pending config digest genesis s.logger).0 ∷ [];
            })
            []
            []
    writes :
        {s : Running} (now : ℕ) (before : List (List Event)) (batch : List Event)
        (after : List (List Event))
        → s.flights ≡ before ++ batch ∷ after
        → Step s
            (record {
              logger = record s.logger {
                log = (save_audit_events digest genesis now (with_ids batch) s.logger.log).1;
              };
              flights = before ++ after;
            })
            []
            []
    fails :
        {s : Running} (before : List (List Event)) (batch : List Event) (after : List (List Event))
        → s.flights ≡ before ++ batch ∷ after
        → Step s
            (record {
              logger = requeue config digest genesis batch s.logger;
              flights = before ++ after;
            })
            []
            []
    cancelled :
        {s : Running} (before : List (List Event)) (batch : List Event) (after : List (List Event))
        → s.flights ≡ before ++ batch ∷ after
        → Step s (record s { flights = before ++ after }) [] (ids_of batch)

  pub data Run : Running → Running → List Text → List Text → Type 0 where
    done : {s : Running} → Run s s [] []
    step :
        {s t u : Running} {logged lost later later_lost : List Text}
        → Step s t logged lost
        → Run t u later later_lost
        → Run s u (logged ++ later) (lost ++ later_lost)

  Step-known :
      (i : Text) {s t : Running} {logged lost : List Text}
      → Step s t logged lost
      → known i t + occurrences i lost ≡ known i s + occurrences i logged
  unfolding enqueue take_pending requeue save_audit_events save_audit_event append_all
  Step-known i (enqueued {s} e) = omega (arith, occurrences-ids i s.logger.queue (e ∷ []))
  Step-known i (stored_at_once {s} now e) = omega (
    arith,
    ap (occurrences i) (stored_ids-append_all config digest genesis now (e ∷ []) s.logger.log),
    occurrences-append i (stored_ids s.logger.log) (or_default e.id 0 ∷ []),
  )
  Step-known i (takes {s} _) = omega (
    arith,
    occurrences-waiting i s.flights s.logger.queue [],
    ap (λ x. occurrences i (waiting_ids x)) (append-nil s.flights),
  )
  Step-known i (writes {s} now before batch after e) = omega (
    arith,
    occurrences-taken i before batch after e,
    ap (occurrences i) (stored_ids-append_all config digest genesis now batch s.logger.log),
    occurrences-append i (stored_ids s.logger.log) (ids_of batch),
  )
  Step-known i (fails {s} before batch after e) =
      omega
        (arith, occurrences-taken i before batch after e, occurrences-ids i batch s.logger.queue)
  Step-known i (cancelled {s} before batch after e) =
      omega (arith, occurrences-taken i before batch after e)

  -- However the steps of calls interleave: each event that was logged is stored, waits or is on its
  -- way to the database exactly once for each time that it was logged, but for the batches of
  -- cancelled tasks, which are lost.
  pub Run-known :
      (i : Text) {s t : Running} {logged lost : List Text}
      → Run s t logged lost
      → known i t + occurrences i lost ≡ known i s + occurrences i logged
  Run-known i done = refl
  Run-known i (step {logged = logged} {lost} {later} {later_lost} s r) = omega (
    arith,
    Step-known i s,
    Run-known i r,
    occurrences-append i logged later,
    occurrences-append i lost later_lost,
  )
