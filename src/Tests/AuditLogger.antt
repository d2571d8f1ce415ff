-- ===== src/Tests/AuditLogger.antt =====
-- Logging while the database raises, and while a flush waits for it.
use auth_manager.Audit.Logger.Interleaved.{
  Running, Run, known, step, Run-known, takes, cancelled, done, enqueued,
}
use auth_manager.Base.{[], Text, some, ◌∷◌, ◌+◌, true, ◌≡◌, false, arith, refl}
use auth_manager.Tests.Audit.{plain_digest, event_at}
use auth_manager.Audit.Logger.Kept.{logs, recorded, perform_all, perform_all-recorded}
use auth_manager.Audit.Logger.Kept.{perform_all}
use auth_manager.Audit.Logger.{Logger, LoggerConfig, enqueue, take_pending}
use auth_manager.Audit.{Event, empty_log}

abbrev two_at_most : LoggerConfig
two_at_most = record { queue_limit = 2; retention_days = 365 }

abbrev quiet : Logger
quiet = record { queue = []; log = empty_log }

abbrev named : Text → Event
named id = record (event_at 100) { id = some id }

-- The second event fills the queue while the database raises; the third is written with them.
perform_all-recorded_example :
    recorded (
      perform_all two_at_most plain_digest []
        (logs 0 true (named 1) ∷ logs 0 true (named 2) ∷ logs 0 false (named 3) ∷ [])
        quiet)
    ≡ 1 ∷ 2 ∷ 3 ∷ []
unfolding empty_log
perform_all-recorded_example =
    perform_all-recorded two_at_most plain_digest []
      (logs 0 true (named 1) ∷ logs 0 true (named 2) ∷ logs 0 false (named 3) ∷ []) quiet

abbrev running : Running
running = record { logger = quiet; flights = [] }

-- An event is taken for a flush that is then cancelled.
cancelled_flush :
    Run two_at_most plain_digest [] running
      (record { logger = quiet; flights = [] })
      (7 ∷ [])
      (7 ∷ [])
unfolding enqueue take_pending empty_log
cancelled_flush = step (enqueued {s = running} (named 7)) (
    step
      (takes {s = record { logger = record quiet { queue = named 7 ∷ [] }; flights = [] }}
        (λ e. absurd (ground arith)))
      (step
        (cancelled {s = record { logger = quiet; flights = (named 7 ∷ []) ∷ [] }} [] (named 7 ∷ [])
          [] refl)
        done))

Run-known_example : known 7 running + 1 ≡ known 7 running + 1
unfolding empty_log
Run-known_example = Run-known two_at_most plain_digest [] 7 cancelled_flush
