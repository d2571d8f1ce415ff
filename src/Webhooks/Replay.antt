-- ===== src/Webhooks/Replay.antt =====
-- tessera/webhooks/webhook_manager.py: what the replay store of `verify_webhook_signature` refuses,
-- and the last second in which it does not.
use auth_manager.Webhooks.Seen.{
  record_delivery-keeps, seen_window, record_delivery-seen, past_window,
}
use auth_manager.Cache.Keys.{delivery_seen_key}
use auth_manager.Cache.Laws.{is_present, entry, exists_lem}
use auth_manager.Base.Chars.{Chars}
use auth_manager.Base.{
  ℕ, Text, Option, Bool, List, some, ◌≢◌, ◌≤◌, ◌≡◌, ◌/◌, ◌∷◌, if◌then◌else◌, true, false, second,
  [], arith, ◌+◌, refl, ◌&&◌, Bool-cases, ◌*◌, none, ◌==◌, max, ltb, ◌∙◌, inl, nat_eq, ap, inr,
}
use auth_manager.Webhooks.Receiver.{
  Message, verify_webhook_signature, is_current, record_delivery, is_signed,
}
use auth_manager.Base.Int.{ℤ, pos, negsuc}
use auth_manager.Cache.{Cache}

-- A call of the receiver.
pub record Arrival : Type 0 where
  pub arrived_at : ℕ
  pub tolerance : ℕ
  pub message : Message
  pub delivery_id : Text

module _ (mac : Text → Text → Text → Chars) (to_int : Text → Option ℤ) where
  abbrev pub receive : Arrival → Option Cache → Bool × Option Cache
  receive a = verify_webhook_signature mac to_int a.arrived_at a.tolerance a.message a.delivery_id

  abbrev pub receive_all : List Arrival → Option Cache → Option Cache
  receive_all [] store = store
  receive_all (a ∷ rest) store = receive_all rest (receive a store).1

  abbrev pub AllBefore : ℕ → List Arrival → Type 0
  AllBefore t [] = Unit {0}
  AllBefore t (a ∷ rest) = (a.arrived_at ≤ t) × AllBefore t rest

  abbrev Seen : ℕ → Text → Option Cache → Type 0
  Seen t i none = ⊥
  Seen t i (some c) = is_present (entry t (delivery_seen_key i) c) ≡ true

  receive-Seen :
      (t : ℕ) (i : Text) (a : Arrival) (store : Option Cache)
      → a.arrived_at ≤ t
      → Seen t i store
      → Seen t i (receive a store).1
  unfolding verify_webhook_signature
  receive-Seen t i a none before seen = absurd seen
  receive-Seen t i a (some c) before seen =
      go
        (is_current mac to_int a.arrived_at a.tolerance a.message && is_signed mac to_int a.message)
        (a.delivery_id == 0)
    where
      go :
          (accepted anonymous : Bool)
          → let (fresh, c') = record_delivery a.arrived_at a.tolerance a.delivery_id c in
            let result : Bool × Option Cache =
              if accepted
              then if anonymous then (true, some c) else (fresh, some c')
              else (false, some c) in
            Seen t i result.1
      go false anonymous = seen
      go true true = seen
      go true false = record_delivery-keeps a.arrived_at t a.tolerance i a.delivery_id c before seen

  receive_all-Seen :
      (t : ℕ) (i : Text) (rest : List Arrival) (store : Option Cache)
      → AllBefore t rest
      → Seen t i store
      → Seen t i (receive_all rest store)
  receive_all-Seen t i [] store before seen = seen
  receive_all-Seen t i (a ∷ rest) store before seen =
      receive_all-Seen t i rest _ before.1 (receive-Seen t i a store before.0 seen)

  accepted_once :
      (now tolerance : ℕ) (m : Message) (delivery_id : Text) (c : Cache)
      → delivery_id ≢ 0
      → (verify_webhook_signature mac to_int now tolerance m delivery_id (some c)).0 ≡ true
      → (is_current mac to_int now tolerance m ≡ true)
        × (is_signed mac to_int m ≡ true)
        × ((record_delivery now tolerance delivery_id c).0 ≡ true)
        × ((verify_webhook_signature mac to_int now tolerance m delivery_id (some c)).1
            ≡ some (record_delivery now tolerance delivery_id c).1)
  unfolding verify_webhook_signature
  accepted_once now tolerance m delivery_id c named accepted = ground (arith, named, accepted)

  -- In the window the id is refused, whatever message it comes with.
  refused_in_window :
      (t tolerance : ℕ) (m : Message) (i : Text) (store : Option Cache)
      → i ≢ 0
      → Seen t i store
      → (verify_webhook_signature mac to_int t tolerance m i store).0 ≡ false
  unfolding verify_webhook_signature record_delivery
  refused_in_window t tolerance m i none named seen = absurd seen
  refused_in_window t tolerance m i (some c) named seen =
      ground (arith, named, exists_lem t (delivery_seen_key i) c, seen)

  -- After it the timestamp is too old, unless it lay ahead by the whole tolerance.
  stale_later :
      (now t tolerance : ℕ) (m : Message)
      → to_int m.timestamp ≢ some (pos (now / second + tolerance))
      → now + seen_window tolerance ≤ t
      → is_current mac to_int now tolerance m ≡ true
      → is_current mac to_int t tolerance m ≡ false
  unfolding is_current
  stale_later now t tolerance m inside late current = go (to_int m.timestamp) refl
    where
      enough : tolerance * 2 ≤ max 60 (tolerance * 2)
      enough = omega arith

      go : (r : Option ℤ) → to_int m.timestamp ≡ r → is_current mac to_int t tolerance m ≡ false
      go none e = ground (arith, e, current)
      go (some (negsuc n)) e = ground (arith, e, current, enough, late)
      go (some (pos n)) e =
          let away : n ≢ now / second + tolerance =
            λ same. inside (e ∙ ap (λ x. some (pos x)) same) in
          ground (arith, e, current, enough, late, away)

  not_current :
      (t tolerance : ℕ) (m : Message) (i : Text) (store : Option Cache)
      → is_current mac to_int t tolerance m ≡ false
      → (verify_webhook_signature mac to_int t tolerance m i store).0 ≡ false
  unfolding verify_webhook_signature
  not_current t tolerance m i store stale = rw stale refl

  accepts_unseen :
      (t tolerance : ℕ) (m : Message) (i : Text) (c : Cache)
      → is_current mac to_int t tolerance m ≡ true
      → is_signed mac to_int m ≡ true
      → is_present (entry t (delivery_seen_key i) c) ≡ false
      → (verify_webhook_signature mac to_int t tolerance m i (some c)).0 ≡ true
  unfolding verify_webhook_signature record_delivery
  accepts_unseen t tolerance m i c current signed unseen =
      ground (arith, current, signed, exists_lem t (delivery_seen_key i) c, unseen)

  -- With a replay store and a delivery id: a message that was accepted is refused at every later
  -- time, whatever messages were received meanwhile, unless its timestamp lay ahead of the clock by the
  -- whole tolerance.
  pub verify_webhook_signature-once :
      (now t tolerance : ℕ) (m : Message) (delivery_id : Text) (c : Cache)
      (meanwhile : List Arrival)
      → delivery_id ≢ 0
      → to_int m.timestamp ≢ some (pos (now / second + tolerance))
      → now ≤ t
      → AllBefore t meanwhile
      → (verify_webhook_signature mac to_int now tolerance m delivery_id (some c)).0 ≡ true
      → let (_, store) = verify_webhook_signature mac to_int now tolerance m delivery_id (some c) in
        (verify_webhook_signature mac to_int t tolerance m delivery_id
          (receive_all meanwhile store)).0
        ≡ false
  verify_webhook_signature-once now t tolerance m delivery_id c meanwhile named inside later before
        accepted =
      let (current, signed, fresh, stored) =
        accepted_once now tolerance m delivery_id c named accepted in
      elim (Bool-cases (ltb t (now + seen_window tolerance))) [
        | inl in_window ↦
            let seen = record_delivery-seen now tolerance delivery_id c t fresh later ∙ in_window in
            refused_in_window t tolerance m delivery_id _ named
              (receive_all-Seen t delivery_id meanwhile _ before (rw stored seen))
        | inr after ↦
            not_current t tolerance m delivery_id _
              (stale_later now t tolerance m inside (ground (arith, after)) current)
      ]

  current_at_edge :
      (now tolerance : ℕ) (m : Message)
      → to_int m.timestamp ≡ some (pos (now / second + tolerance))
      → is_current mac to_int now tolerance m ≡ true
      → is_current mac to_int (now + tolerance * 2 * second) tolerance m ≡ true
  unfolding is_current
  current_at_edge now tolerance m edge current =
      let before = rw edge at current in rw edge (ground (arith, before))

  -- Where the tolerance is 30 seconds at least: a message whose timestamp lies ahead by the whole
  -- tolerance is accepted, and accepted again once twice the tolerance has passed.
  pub verify_webhook_signature-replayed :
      (now tolerance : ℕ) (m : Message) (delivery_id : Text) (c : Cache)
      → delivery_id ≢ 0
      → 30 ≤ tolerance
      → to_int m.timestamp ≡ some (pos (now / second + tolerance))
      → (verify_webhook_signature mac to_int now tolerance m delivery_id (some c)).0 ≡ true
      → let (_, store) = verify_webhook_signature mac to_int now tolerance m delivery_id (some c) in
        (verify_webhook_signature mac to_int
          (now + tolerance * 2 * second)
          tolerance
          m
          delivery_id
          store).0
        ≡ true
  verify_webhook_signature-replayed now tolerance m delivery_id c named wide edge accepted =
      let (current, signed, fresh, stored) =
        accepted_once now tolerance m delivery_id c named accepted in
      let later = now + tolerance * 2 * second in
      let gone = record_delivery-seen now tolerance delivery_id c later fresh (omega arith) in
      rw stored (
        accepts_unseen later tolerance m delivery_id _
          (current_at_edge now tolerance m edge current) signed
          (gone ∙ past_window now tolerance wide))
