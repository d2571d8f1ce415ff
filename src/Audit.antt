-- ===== src/Audit.antt =====
-- tessera/db/memory.py, the audit log: an append-only list of events whose checksums form a chain.
-- The digest (sha256 over the canonical JSON of the checksummed fields) is a parameter;
-- its hexadecimal digits are a list.
pub mod Chain
pub mod Written
pub mod Tamper
pub mod Logger
use auth_manager.Base.Chars.{Chars, chars_eq}
use auth_manager.Base.Dict.{Dict, lookup, insert}
use auth_manager.Base.{
  Option, ℕ, Text, List, [], Bool, some, true, ◌||◌, ◌∷◌, keep, length, none, false, ◌==◌, leb,
  contains, if◌then◌else◌, take, ◌+◌, nat_eq, ◌&&◌, drop, ◌-◌, ◌++◌,
}

-- The dict that a caller passes; the fields that it may leave out are options.
pub record Event : Type 0 where
  pub id : Option Text
  pub timestamp : Option ℕ
  pub sequence : Option ℕ
  pub event_type : Text
  pub actor : Text
  pub target : Text
  pub details : Text

-- The fields under the checksum: all but `id`, `sequence` and `checksum`.
pub record Payload : Type 0 where
  pub timestamp : ℕ
  pub event_type : Text
  pub actor : Text
  pub target : Text
  pub details : Text
  pub previous_checksum : Chars

pub record Logged : Type 0 where
  pub id : Text
  pub timestamp : ℕ
  pub sequence : ℕ
  pub event_type : Text
  pub actor : Text
  pub target : Text
  pub details : Text
  pub previous_checksum : Chars
  pub checksum : Chars

-- `_audit_chain` and `_audit_by_id`.
pub record Log : Type 0 where
  pub chain : List Logged
  pub by_id : Dict Text Logged

unfoldable pub empty_log : Log
empty_log = record { chain = []; by_id = [] }

-- `dict.setdefault`
abbrev pub or_default {ℓ} : {A : Type ℓ} → Option A → A → A
or_default none d = d
or_default (some a) d = a

-- Filters of `search_audit_events`.
pub record Query : Type 0 where
  pub event_types : List Text
  pub actor : Option Text
  pub target : Option Text
  pub start : Option ℕ
  pub end : Option ℕ

abbrev is_nil {ℓ} : {A : Type ℓ} → List A → Bool
is_nil [] = true
is_nil (_ ∷ _) = false

abbrev agrees : Option Text → Text → Bool
agrees none v = true
agrees (some w) v = v == w

abbrev not_before : Option ℕ → ℕ → Bool
not_before none t = true
not_before (some start) t = leb start t

abbrev not_after : Option ℕ → ℕ → Bool
not_after none t = true
not_after (some end) t = leb t end

-- The loop body of `search_audit_events`; an empty list of types is no filter.
unfoldable pub matches : Query → Logged → Bool
matches q r =
    (is_nil q.event_types || contains r.event_type q.event_types)
    && agrees q.actor r.actor
    && agrees q.target r.target
    && not_before q.start r.timestamp
    && not_after q.end r.timestamp

-- `sort(key=timestamp, reverse=True)`, which keeps the order of equal timestamps.
place : Logged → List Logged → List Logged
place r [] = r ∷ []
place r (x ∷ xs) = if leb x.timestamp r.timestamp then r ∷ x ∷ xs else x ∷ place r xs

newest_first : List Logged → List Logged
unfolding place
newest_first [] = []
newest_first (r ∷ rs) = place r (newest_first rs)

-- The rows of a page and the number of all matching events.
pub search_audit_events : Query → ℕ → ℕ → Log → List Logged × ℕ
unfolding newest_first
search_audit_events q limit offset log =
    let matching = keep (matches q) log.chain in
    (take limit (drop offset (newest_first matching)), length matching)

pub get_audit_event : Text → Log → Option Logged
get_audit_event id log = lookup id log.by_id

abbrev index : List Logged → Dict Text Logged → Dict Text Logged
index [] d = d
index (r ∷ rs) d = index rs (insert r.id r d)

-- The events from the cutoff on stay; the result is the number deleted.
unfoldable pub delete_audit_events_before : ℕ → Log → ℕ × Log
delete_audit_events_before cutoff log =
    let kept = keep (λ r. leb cutoff r.timestamp) log.chain in
    (length log.chain - length kept, record { chain = kept; by_id = index kept [] })

abbrev last_checksum : Chars → List Logged → Chars
last_checksum genesis [] = genesis
last_checksum genesis (r ∷ rs) = last_checksum r.checksum rs

module _ (digest : Payload → Chars) (genesis : Chars) where
  -- `_compute_audit_checksum`
  abbrev pub compute_checksum : Logged → Chars → Chars
  compute_checksum r previous = digest (record {
    timestamp = r.timestamp;
    event_type = r.event_type;
    actor = r.actor;
    target = r.target;
    details = r.details;
    previous_checksum = previous;
  })

  -- `_append_audit_event`, with the clock and a fresh id.
  pub append_audit_event : ℕ → Text → Event → Log → Logged × Log
  append_audit_event now new_id e log =
      let previous = last_checksum genesis log.chain in
      let bare : Logged = record {
        id = or_default e.id new_id;
        timestamp = or_default e.timestamp now;
        sequence = or_default e.sequence (length log.chain + 1);
        event_type = e.event_type;
        actor = e.actor;
        target = e.target;
        details = e.details;
        previous_checksum = previous;
        checksum = [];
      } in
      let r = record bare { checksum = compute_checksum bare previous } in
      (r, record { chain = log.chain ++ r ∷ []; by_id = insert r.id r log.by_id })

  -- `save_audit_event`
  pub save_audit_event : ℕ → Text → Event → Log → Logged × Log
  unfolding append_audit_event
  save_audit_event = append_audit_event

  -- The loop of `save_audit_events`, each event with its fresh id.
  pub append_all : ℕ → List (Text × Event) → Log → Log
  append_all now [] log = log
  append_all now ((new_id, e) ∷ es) log = append_all now es (append_audit_event now new_id e log).1

  pub save_audit_events : ℕ → List (Text × Event) → Log → ℕ × Log
  unfolding append_all
  save_audit_events now es log = (length es, append_all now es log)

  -- The loop of `verify_audit_chain` with the checksum of the event before, if there is one.
  verify_from : Option Chars → List Logged → Bool
  verify_from previous [] = true
  verify_from previous (r ∷ rs) =
      let expected = or_default previous genesis in
      (r.previous_checksum == expected)
      && (r.checksum == compute_checksum r expected)
      && verify_from (some r.checksum) rs

  pub verify_audit_chain : Log → Bool
  unfolding verify_from
  verify_audit_chain log = verify_from none log.chain
