-- ===== src/Audit/Written.antt =====
-- tessera/db/memory.py: `verify_audit_chain` against `save_audit_events`, which writes the log.
use mathlib.Core.List.{append-nil, append_assoc}
use auth_manager.Audit.Chain.{Linked, verify_audit_chain-Linked, save_audit_events-verify}
use auth_manager.Base.{
  List, Text, ◌++◌, ℕ, ◌∷◌, some, [], ◌≡◌, ap, map, true, refl, ◌↔◌, arith, sym, subst, ◌∙◌,
}
use auth_manager.Base.Chars.{Chars}
use auth_manager.Audit.{
  Logged, Payload, last_checksum, Text, ℕ, Event, append_audit_event, append_all, save_audit_events,
  Log, empty_log, some, [], verify_audit_chain, compute_checksum, true,
}

-- The dict that would have given a record.
abbrev event_of : Logged → Text × Event
event_of r = (
  r.id,
  record {
    id = some r.id;
    timestamp = some r.timestamp;
    sequence = some r.sequence;
    event_type = r.event_type;
    actor = r.actor;
    target = r.target;
    details = r.details;
  },
)

last_checksum-append :
    (genesis : Chars) (xs : List Logged) (r : Logged)
    → last_checksum genesis (xs ++ r ∷ []) ≡ r.checksum
last_checksum-append genesis [] r = refl
last_checksum-append genesis (x ∷ xs) r = last_checksum-append x.checksum xs r

module _ (digest : Payload → Chars) (genesis : Chars) (now : ℕ) where
  -- A record that is linked to the log is what saving its dict appends.
  append-event_of :
      (r : Logged) (log : Log)
      → r.previous_checksum ≡ last_checksum genesis log.chain
      → r.checksum ≡ compute_checksum digest [] r (last_checksum genesis log.chain)
      → (append_audit_event digest genesis now r.id (event_of r).1 log).1.chain
        ≡ log.chain ++ r ∷ []
  unfolding append_audit_event
  append-event_of r log previous checksum = ground (arith, previous, checksum)

  append_all-event_of :
      (rs : List Logged) (log : Log)
      → Linked digest (last_checksum genesis log.chain) rs
      → (append_all digest genesis now (map event_of rs) log).chain ≡ log.chain ++ rs
  unfolding append_all
  append_all-event_of [] log linked = sym (append-nil log.chain)
  append_all-event_of (r ∷ rs) log (previous, checksum, linked) =
      let log₁ = (append_audit_event digest genesis now r.id (event_of r).1 log).1 in
      let one = append-event_of r log previous checksum in
      let end : r.checksum ≡ last_checksum genesis log₁.chain =
        sym (ap (last_checksum genesis) one ∙ last_checksum-append genesis log.chain r) in
      append_all-event_of rs log₁ (subst (λ c. Linked digest c rs) end linked)
      ∙ ap (λ xs. xs ++ rs) one
      ∙ append_assoc log.chain (r ∷ []) rs

  -- Verification passes exactly when the records of the log, in order, are what saving some
  -- events to an empty log writes.
  pub verify_audit_chain-save_audit_events :
      (log : Log)
      → (verify_audit_chain digest genesis log ≡ true) ↔ (
          (es : List (Text × Event)) × ((save_audit_events digest genesis now es empty_log).1.chain
            ≡ log.chain))
  unfolding save_audit_events empty_log
  verify_audit_chain-save_audit_events log = (
    λ v. (
      map event_of log.chain,
      append_all-event_of log.chain empty_log ((verify_audit_chain-Linked digest genesis log).0 v),
    ),
    λ (es, e).
        let written = (save_audit_events digest genesis now es empty_log).1 in
        let linked =
          (verify_audit_chain-Linked digest genesis written).0
            (save_audit_events-verify digest genesis now es) in
        (verify_audit_chain-Linked digest genesis log).1 (subst (Linked digest genesis) e linked),
  )
