-- ===== src/Audit/Chain.antt =====
-- tessera/db/memory.py: `verify_audit_chain` against the chain that the events should form.
use auth_manager.Base.Chars.{Chars, chars_beq_iff}
use auth_manager.Base.{Text, List, ℕ, some, none, ◌≡◌, ◌++◌, true, ◌↔◌, [], arith, refl}
use auth_manager.Audit.{
  Payload, Text, verify_from, verify_audit_chain, append_audit_event, save_audit_event, append_all,
  save_audit_events, List, Logged, Log, empty_log, ℕ, Event, ◌∷◌, some, none, compute_checksum,
  true, last_checksum, Chars,
}

module _ (digest : Payload → Chars) where
  -- Each event names the checksum before it, and its own checksum covers its fields and that.
  abbrev pub Linked : Chars → List Logged → Type 0
  Linked previous [] = Unit {0}
  Linked previous (r ∷ rs) =
      (r.previous_checksum ≡ previous)
      × (r.checksum ≡ compute_checksum digest [] r previous)
      × Linked r.checksum rs

  module _ (genesis : Chars) where
    verify_from-Linked :
        (previous : Chars) (rs : List Logged)
        → (verify_from digest genesis (some previous) rs ≡ true) ↔ Linked previous rs
    unfolding verify_from
    verify_from-Linked previous [] = (λ e. tt, λ l. refl)
    verify_from-Linked previous (r ∷ rs) = ground (
      arith,
      verify_from-Linked r.checksum rs,
      chars_beq_iff r.previous_checksum previous,
      chars_beq_iff r.checksum (compute_checksum digest [] r previous),
    )

    verify_from-none :
        (rs : List Logged)
        → verify_from digest genesis none rs ≡ verify_from digest genesis (some genesis) rs
    unfolding verify_from
    verify_from-none [] = refl
    verify_from-none (r ∷ rs) = refl

    -- Verification passes exactly when the events form a chain from the genesis checksum.
    pub verify_audit_chain-Linked :
        (log : Log) → (verify_audit_chain digest genesis log ≡ true) ↔ Linked genesis log.chain
    unfolding verify_audit_chain
    verify_audit_chain-Linked log =
        rw (verify_from-none log.chain) (verify_from-Linked genesis log.chain)

  pub Linked-append :
      (previous : Chars) (xs ys : List Logged)
      → Linked previous (xs ++ ys) ↔ (Linked previous xs × Linked (last_checksum previous xs) ys)
  Linked-append previous [] ys = (λ l. (tt, l), λ l. l.1)
  Linked-append previous (x ∷ xs) ys = ground (arith, Linked-append x.checksum xs ys)

  module _ (genesis : Chars) where
    append-Linked :
        (now : ℕ) (new_id : Text) (e : Event) (log : Log)
        → Linked genesis log.chain
        → Linked genesis (append_audit_event digest genesis now new_id e log).1.chain
    unfolding append_audit_event
    append-Linked now new_id e log l = (Linked-append genesis log.chain _).1 (l, (refl, refl, tt))

    -- Whatever event is saved, a log that verifies still verifies.
    save_audit_event-verify :
        (now : ℕ) (new_id : Text) (e : Event) (log : Log)
        → verify_audit_chain digest genesis log ≡ true
        → verify_audit_chain digest genesis (save_audit_event digest genesis now new_id e log).1
          ≡ true
    unfolding save_audit_event
    save_audit_event-verify now new_id e log v =
        let logged = append-Linked now new_id e log ((verify_audit_chain-Linked genesis log).0 v) in
        (verify_audit_chain-Linked genesis _).1 logged

    append_all-Linked :
        (now : ℕ) (es : List (Text × Event)) (log : Log)
        → Linked genesis log.chain
        → Linked genesis (append_all digest genesis now es log).chain
    unfolding append_all
    append_all-Linked now [] log l = l
    append_all-Linked now ((new_id, e) ∷ es) log l =
        append_all-Linked now es _ (append-Linked now new_id e log l)

    -- From the empty log every batch of events leaves a log that verifies.
    pub save_audit_events-verify :
        (now : ℕ) (es : List (Text × Event))
        → verify_audit_chain digest genesis (save_audit_events digest genesis now es empty_log).1
          ≡ true
    unfolding save_audit_events empty_log
    save_audit_events-verify now es =
        (verify_audit_chain-Linked genesis _).1 (append_all-Linked now es empty_log tt)
