-- ===== src/Audit/Logger/Kept.antt =====
-- tessera/admin/audit_logger.py: calls of `log` and `flush` one after the other lose no event.
use auth_manager.Base.Errors.{ok, bind-pure, bind-ok, pure}
use auth_manager.Base.Chars.{Chars}
use auth_manager.Base.{
  List, ℕ, Text, Bool, map, ◌++◌, ◌≡◌, [], arith, refl, Option, true, some, false, ◌<◌, none,
  length, sym, ◌∙◌, leb, Bool-cases, inl, inr,
}
use auth_manager.Audit.Logger.{
  Logger, LoggerConfig, map, with_ids, flush, enqueue, log_event, ok, then_flush, pure,
}
use mathlib.Core.List.{append-nil, append_assoc}
use auth_manager.Audit.{
  Event, Log, Logged, Payload, List, ℕ, Chars, append_all, Text, Bool, or_default,
  append_audit_event, ◌∷◌, save_audit_events, Option, some, false, length, leb,
}

-- The ids of the events that are stored, and then of those that wait.
abbrev pub ids_of : List Event → List Text
ids_of = map (λ (e : Event). or_default e.id 0)

abbrev pub stored_ids : Log → List Text
stored_ids log = map (λ (r : Logged). r.id) log.chain

abbrev pub recorded : Logger → List Text
recorded l = stored_ids l.log ++ ids_of l.queue

-- A call of the logger that does not write at once, with whether the database raises in it.
pub data Call : Type 0 where
  logs : ℕ → Bool → Event → Call
  flushes : ℕ → Bool → Call

abbrev pub logged_by : List Call → List Text
logged_by [] = []
logged_by (logs now raises e ∷ calls) = or_default e.id 0 ∷ logged_by calls
logged_by (flushes now raises ∷ calls) = logged_by calls

map-append : {A B : Type 0} (f : A → B) (xs ys : List A) → map f (xs ++ ys) ≡ map f xs ++ map f ys
map-append f [] ys = refl
map-append f (x ∷ xs) ys = ground (arith, map-append f xs ys)

stored_once : (id : Option Text) → or_default id (or_default id 0) ≡ or_default id 0
stored_once none = refl
stored_once (some i) = refl

module _ (config : LoggerConfig) (digest : Payload → Chars) (genesis : Chars) where
  stored_ids-append :
      (now : ℕ) (new_id : Text) (e : Event) (log : Log)
      → stored_ids (append_audit_event digest genesis now new_id e log).1
        ≡ stored_ids log ++ or_default e.id new_id ∷ []
  unfolding append_audit_event
  stored_ids-append now new_id e log = map-append _ log.chain _

  pub stored_ids-append_all :
      (now : ℕ) (es : List Event) (log : Log)
      → stored_ids (append_all digest genesis now (with_ids es) log) ≡ stored_ids log ++ ids_of es
  unfolding append_all
  stored_ids-append_all now [] log = simp append-nil
  stored_ids-append_all now (e ∷ es) log =
      rw (stored_ids-append_all now es _, stored_ids-append now (or_default e.id 0) e log)
        (ground (
          arith,
          stored_once e.id,
          append_assoc (stored_ids log) (or_default e.id 0 ∷ []) (ids_of es),
        ))

  flush-recorded_at :
      (now : ℕ) (raises : Bool) (queue : List Event) (log : Log)
      → let l : Logger = record { queue = queue; log = log } in
        recorded (flush config digest genesis now raises l).1 ≡ recorded l
  unfolding flush save_audit_events
  flush-recorded_at now raises [] log = refl
  flush-recorded_at now true (e ∷ es) log = simp append-nil
  flush-recorded_at now false (e ∷ es) log =
      rw (stored_ids-append_all now (e ∷ es) log) (simp append-nil)

  pub flush-recorded :
      (now : ℕ) (raises : Bool) (l : Logger)
      → recorded (flush config digest genesis now raises l).1 ≡ recorded l
  flush-recorded now raises l = flush-recorded_at now raises l.queue l.log

  enqueue-recorded :
      (e : Event) (l : Logger)
      → recorded (enqueue config digest genesis e l).1 ≡ recorded l ++ or_default e.id 0 ∷ []
  unfolding enqueue
  enqueue-recorded e l =
      rw (map-append (λ (f : Event). or_default f.id 0) l.queue (e ∷ []))
        (sym (append_assoc (stored_ids l.log) (ids_of l.queue) (or_default e.id 0 ∷ [])))

  then_flush-recorded :
      (overflow : Bool) (now : ℕ) (raises : Bool) (e : Event) (l : Logger)
      → recorded (then_flush config digest genesis now raises e overflow l).1 ≡ recorded l
  unfolding then_flush
  then_flush-recorded true now raises e l =
      rw (bind-pure (flush config digest genesis now raises) e l) (flush-recorded now raises l)
  then_flush-recorded false now raises e l = refl

  abbrev pub perform : Call → Logger → Logger
  perform (logs now raises e) l = (log_event config digest genesis now raises false e l).1
  perform (flushes now raises) l = (flush config digest genesis now raises l).1

  abbrev pub perform_all : List Call → Logger → Logger
  perform_all [] l = l
  perform_all (c ∷ cs) l = perform_all cs (perform c l)

  log_event-recorded :
      (now : ℕ) (raises : Bool) (e : Event) (l : Logger)
      → recorded (log_event config digest genesis now raises false e l).1
        ≡ recorded l ++ or_default e.id 0 ∷ []
  unfolding log_event
  log_event-recorded now raises e l =
      let (overflow, l') = enqueue config digest genesis e l in
      then_flush-recorded overflow now raises e l' ∙ enqueue-recorded e l

  -- Whichever writes of the database raise, in calls of `log` without `sync` and of `flush`: the ids
  -- of the stored events and then of the waiting ones are those from before and then those of every
  -- event that was logged, in the order of the calls.
  pub perform_all-recorded :
      (calls : List Call) (l : Logger)
      → recorded (perform_all calls l) ≡ recorded l ++ logged_by calls
  perform_all-recorded [] l = simp append-nil
  perform_all-recorded (logs now raises e ∷ calls) l =
      rw (perform_all-recorded calls _, log_event-recorded now raises e l)
        (append_assoc (recorded l) (or_default e.id 0 ∷ []) (logged_by calls))
  perform_all-recorded (flushes now raises ∷ calls) l =
      rw (perform_all-recorded calls _, flush-recorded now raises l) refl

  flush-emptied_at :
      (now : ℕ) (raises : Bool) (n : ℕ) (queue : List Event) (log : Log)
      → let (r, l) = flush config digest genesis now raises (record { queue = queue; log = log }) in
        r ≡ ok n → l.queue ≡ []
  unfolding flush save_audit_events
  flush-emptied_at now raises n [] log done = refl
  flush-emptied_at now true n (e ∷ es) log done = absurd (ground arith)
  flush-emptied_at now false n (e ∷ es) log done = refl

  then_flush-bounded :
      (now : ℕ) (raises : Bool) (e f : Event) (l : Logger)
      → 0 < config.queue_limit
      → let (r, l') =
          then_flush config digest genesis now raises e
            (leb config.queue_limit (length l.queue))
            l in
        r ≡ ok f → length l'.queue < config.queue_limit
  unfolding then_flush
  then_flush-bounded now raises e f l positive =
      elim (Bool-cases (leb config.queue_limit (length l.queue))) [
        | inl full ↦ rw full (λ done.
            let (n, flushed, _) =
              bind-ok (flush config digest genesis now raises) (λ _. pure e) l f done in
            rw
              (
                bind-pure (flush config digest genesis now raises) e l,
                flush-emptied_at now raises n l.queue l.log flushed,
              )
              positive)
        | inr below ↦ rw below (λ done. ground arith)
      ]

  -- With a positive limit: a call of `log` that does not raise leaves fewer events waiting than
  -- the limit of the queue.
  pub log_event-bounded :
      (now : ℕ) (raises : Bool) (e f : Event) (l : Logger)
      → 0 < config.queue_limit
      → (log_event config digest genesis now raises false e l).0 ≡ ok f
      → length (log_event config digest genesis now raises false e l).1.queue < config.queue_limit
  unfolding log_event enqueue
  log_event-bounded now raises e f l positive done =
      then_flush-bounded now raises e f (enqueue config digest genesis e l).1 positive done
