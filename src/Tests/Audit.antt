-- ===== src/Tests/Audit.antt =====
-- A log of three events under a digest that writes its payload out.
use auth_manager.Audit.Written.{verify_audit_chain-save_audit_events}
use auth_manager.Audit.Chain.{save_audit_events-verify, verify_audit_chain-Linked}
use auth_manager.Base.Chars.{Chars}
use auth_manager.Base.{
  ℕ, List, map, arith, ◌≢◌, Text, [], ◌∷◌, none, ◌≡◌, some, true, false, ◌↔◌, refl,
}
use auth_manager.Audit.Tamper.{
  IsInjective, content, verify_audit_chain_unique, delete_audit_events_before-broken,
}
use auth_manager.Audit.{
  Payload, Log, verify_audit_chain, Event, save_audit_events, empty_log, delete_audit_events_before,
  Logged,
}

abbrev pub plain_digest : Payload → Chars
plain_digest p = p.timestamp ∷ p.event_type ∷ p.actor ∷ p.target ∷ p.details ∷ p.previous_checksum

plain_digest-IsInjective : IsInjective plain_digest
plain_digest-IsInjective p q e = ground arith

plain_digest_fresh : (p : Payload) → plain_digest p ≢ []
plain_digest_fresh p e = absurd (ground arith)

abbrev pub event_at : ℕ → Event
event_at t = record {
  id = none;
  timestamp = some t;
  sequence = none;
  event_type = 1;
  actor = 8;
  target = 9;
  details = 0;
}

abbrev events : List (Text × Event)
events = (11, event_at 100) ∷ (12, event_at 200) ∷ (13, event_at 300) ∷ []

abbrev log : Log
log = (save_audit_events plain_digest [] 0 events empty_log).1

log_verifies : verify_audit_chain plain_digest [] log ≡ true
log_verifies = save_audit_events-verify plain_digest [] 0 events

verify_audit_chain-save_audit_events_example : (verify_audit_chain plain_digest [] log ≡ true) ↔ (
    (es : List (Text × Event)) × ((save_audit_events plain_digest [] 0 es empty_log).1.chain
      ≡ log.chain))
verify_audit_chain-save_audit_events_example =
    verify_audit_chain-save_audit_events plain_digest [] 0 log

-- An event of kind 1 with its chained checksum.
abbrev logged : Text → ℕ → Chars → Logged
logged id t previous = record {
  id = id;
  timestamp = t;
  sequence = 1;
  event_type = 1;
  actor = 8;
  target = 9;
  details = 0;
  previous_checksum = previous;
  checksum = t ∷ 1 ∷ 8 ∷ 9 ∷ 0 ∷ previous;
}

abbrev old : Logged
old = logged 11 100 []

abbrev new : Logged
new = logged 12 200 old.checksum

-- Two logs of the same events under different ids.
abbrev one : Log
one = record { chain = old ∷ new ∷ []; by_id = (11, old) ∷ (12, new) ∷ [] }

abbrev other : Log
other = record { chain = logged 21 100 [] ∷ logged 22 200 old.checksum ∷ []; by_id = [] }

one_verifies : verify_audit_chain plain_digest [] one ≡ true
one_verifies = (verify_audit_chain-Linked plain_digest [] one).1 (refl, refl, (refl, refl, tt))

other_verifies : verify_audit_chain plain_digest [] other ≡ true
other_verifies = (verify_audit_chain-Linked plain_digest [] other).1 (refl, refl, (refl, refl, tt))

verify_audit_chain_unique_example : map content one.chain ≡ map content other.chain
verify_audit_chain_unique_example =
    verify_audit_chain_unique plain_digest plain_digest-IsInjective [] one other one_verifies
      other_verifies refl refl

pruned_chain : (delete_audit_events_before 150 one).1.chain ≡ new ∷ []
unfolding delete_audit_events_before
pruned_chain = refl

delete_audit_events_before-broken_example :
    verify_audit_chain plain_digest [] (delete_audit_events_before 150 one).1 ≡ false
delete_audit_events_before-broken_example =
    delete_audit_events_before-broken plain_digest [] plain_digest_fresh 150 old one (new ∷ []) new
      [] refl one_verifies (omega arith) pruned_chain
