-- ===== src/Audit/Logger.antt =====
-- tessera/admin/audit_logger.py, `class AuditLogger`, over the audit log of tessera/db/memory.py.
-- A call of the database is told whether it raises before it writes, as other adapters may.
pub mod Kept
pub mod Interleaved
use auth_manager.Base.Errors.{Action, ok, ◌>>◌, err, pure, provider_error, call, ◌>>=◌}
use auth_manager.Base.{
  Text, ℕ, List, Bool, Option, map, [], ◌++◌, ◌∷◌, if◌then◌else◌, leb, some, none, length, ◌-◌, ◌*◌,
  second,
}
use auth_manager.Audit.{
  Event, Log, Logged, Query, Payload, Text, ℕ, List, Bool, Option, search_audit_events,
  get_audit_event, [], or_default, delete_audit_events_before, leb, some, none, save_audit_events,
  save_audit_event, length,
}
use auth_manager.Base.Chars.{Chars}

-- The members of `EventType` that `SECURITY_EVENT_TYPES` lists.
pub record SecurityTypes : Type 0 where
  pub suspicious_activity : Text
  pub rate_limit_exceeded : Text
  pub account_locked : Text
  pub account_unlocked : Text
  pub login_failed : Text
  pub mfa_code_failed : Text

pub record LoggerConfig : Type 0 where
  pub queue_limit : ℕ
  pub retention_days : ℕ

pub record Logger : Type 0 where
  pub queue : List Event
  pub log : Log

-- A database method that raises before it writes, or runs.
abbrev pub database : {A : Type 0} → Bool → (Log → A × Log) → Action Logger A
database raises f l =
    if raises
    then (err provider_error, l)
    else let (a, log) = f l.log in (ok a, record l { log = log })

-- The ids are set by `log`, so `_append_audit_event` takes no fresh ones.
abbrev pub with_ids : List Event → List (Text × Event)
with_ids = map (λ (e : Event). (or_default e.id 0, e))

module _ (config : LoggerConfig) (digest : Payload → Chars) (genesis : Chars) where
  -- `flush`: the queue is taken first, and put back in front of what has come since on failure.
  unfoldable pub take_pending : Logger → List Event × Logger
  take_pending l = (l.queue, record l { queue = [] })

  unfoldable pub requeue : List Event → Logger → Logger
  requeue pending l = record l { queue = pending ++ l.queue }

  unfoldable pub flush : ℕ → Bool → Action Logger ℕ
  unfolding take_pending requeue
  flush now raises l = elim l.queue [
    | [] ↦ (ok 0, l)
    | e ∷ es ↦
        let (pending, emptied) = take_pending l in
        let (r, l') =
          database raises (save_audit_events digest genesis now (with_ids pending)) emptied in
        elim r [ ok n ↦ (ok (length pending), l') | err x ↦ (err x, requeue pending l') ]
  ]

  unfoldable pub enqueue : Event → Logger → Bool × Logger
  enqueue e l =
      let l' = record l { queue = l.queue ++ e ∷ [] } in
      (leb config.queue_limit (length l'.queue), l')

  -- The end of `log`.
  unfoldable pub then_flush : ℕ → Bool → Event → Bool → Action Logger Event
  unfolding flush
  then_flush now raises e overflow = if overflow then flush now raises >> pure e else pure e

  -- `log`, with the event that it has built from its arguments.
  unfoldable pub log_event : ℕ → Bool → Bool → Event → Action Logger Event
  unfolding then_flush enqueue
  log_event now raises sync e =
      if sync
      then database raises (save_audit_event digest genesis now (or_default e.id 0) e) >> pure e
      else call (enqueue e) >>= then_flush now raises e

  -- `close`, where no flush is under way.
  unfoldable pub close : ℕ → Bool → Action Logger (Unit {0})
  unfolding flush
  close now raises = flush now raises >> pure tt

  -- `search`, `user_timeline` and `security_events`
  pub search : Query → ℕ → ℕ → Logger → List Logged × ℕ
  search q limit offset l = search_audit_events q limit offset l.log

  pub get_event : Text → Logger → Option Logged
  get_event id l = get_audit_event id l.log

  pub user_timeline : Text → ℕ → Logger → List Logged
  unfolding search
  user_timeline user limit l =
      (search
        (record { event_types = []; actor = some user; target = none; start = none; end = none })
        limit 0 l).0

  pub security_events : SecurityTypes → Option ℕ → ℕ → Logger → List Logged
  unfolding search
  security_events t since limit l =
      (search
        (record {
          event_types =
              t.suspicious_activity ∷ t.rate_limit_exceeded ∷ t.account_locked ∷ t.account_unlocked
              ∷ t.login_failed ∷ t.mfa_code_failed ∷ [];
          actor = none;
          target = none;
          start = since;
          end = none;
        })
        limit 0 l).0

  unfoldable pub cleanup_old_events : ℕ → Bool → Action Logger ℕ
  cleanup_old_events now raises =
      database raises (delete_audit_events_before (now - config.retention_days * 86400 * second))
