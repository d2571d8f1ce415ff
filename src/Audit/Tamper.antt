-- ===== src/Audit/Tamper.antt =====
-- tessera/db/memory.py: what `verify_audit_chain` detects, and what pruning does to it.
use auth_manager.Base.Chars.{Chars}
use auth_manager.Audit.Chain.{Linked, verify_audit_chain-Linked}
use auth_manager.Base.{
  ◌≡◌, List, length, map, [], arith, refl, ◌≢◌, ℕ, true, keep, leb, ◌<◌, Bool-cases, false, inl,
  inr, ap,
}
use auth_manager.Audit.{
  Logged, Payload, List, length, last_checksum, ◌∷◌, Log, verify_audit_chain,
  delete_audit_events_before, ℕ, true, keep, leb, false, Chars,
}

-- What is protected of an event.
abbrev pub content : Logged → Payload × Chars
content r = (
  record {
    timestamp = r.timestamp;
    event_type = r.event_type;
    actor = r.actor;
    target = r.target;
    details = r.details;
    previous_checksum = r.previous_checksum;
  },
  r.checksum,
)

-- The digest has no collisions.
abbrev pub IsInjective : (Payload → Chars) → Type 0
IsInjective digest = (p q : Payload) → digest p ≡ digest q → p ≡ q

module _ (digest : Payload → Chars) (injective : IsInjective digest) where
  -- Two chains of one length with the same end agree all the way.
  same_chain :
      (p q : Chars) (xs ys : List Logged)
      → Linked digest p xs
      → Linked digest q ys
      → length xs ≡ length ys
      → last_checksum p xs ≡ last_checksum q ys
      → (p ≡ q) × (map content xs ≡ map content ys)
  same_chain p q [] [] lx ly n e = (e, refl)
  same_chain p q [] (y ∷ ys) lx ly n e = absurd (omega arith)
  same_chain p q (x ∷ xs) [] lx ly n e = absurd (omega arith)
  same_chain p q (x ∷ xs) (y ∷ ys) lx ly n e =
      let (c, rest) = same_chain x.checksum y.checksum xs ys lx.2 ly.2 (omega arith) e in
      let same = injective (content x).0 (content y).0 (ground arith) in
      (ground arith, ground arith)

  -- For a digest without collisions: two logs that verify, of one length and with one last
  -- checksum, agree in all protected fields and checksums of their events.
  pub verify_audit_chain_unique :
      (genesis : Chars) (a b : Log)
      → verify_audit_chain digest genesis a ≡ true
      → verify_audit_chain digest genesis b ≡ true
      → length a.chain ≡ length b.chain
      → last_checksum genesis a.chain ≡ last_checksum genesis b.chain
      → map content a.chain ≡ map content b.chain
  verify_audit_chain_unique genesis a b va vb n e =
      let la = (verify_audit_chain-Linked digest genesis a).0 va in
      let lb = (verify_audit_chain-Linked digest genesis b).0 vb in
      (same_chain genesis genesis a.chain b.chain la lb n e).1

module _ (digest : Payload → Chars) (genesis : Chars)
    (fresh : (p : Payload) → digest p ≢ genesis) where
  -- The first event that is kept names the checksum of an event that is gone.
  kept_unlinked :
      (cutoff : ℕ) (previous : Chars) (rs : List Logged) (y : Logged) (ys : List Logged)
      → previous ≢ genesis
      → Linked digest previous rs
      → keep (λ r. leb cutoff r.timestamp) rs ≡ y ∷ ys
      → y.previous_checksum ≢ genesis
  kept_unlinked cutoff previous [] y ys away l e = cc
  kept_unlinked cutoff previous (r ∷ rs) y ys away l e =
      let next : r.checksum ≢ genesis = rw (l.1) (fresh _) in
      ground (arith, kept_unlinked cutoff r.checksum rs y ys next l.2)

  -- For a digest that never gives the genesis checksum: once the oldest event of a log that
  -- verifies is deleted and a later one is kept, the log does not verify any more.
  pub delete_audit_events_before-broken :
      (cutoff : ℕ) (r : Logged) (log : Log) (rs : List Logged) (y : Logged) (ys : List Logged)
      → log.chain ≡ r ∷ rs
      → verify_audit_chain digest genesis log ≡ true
      → r.timestamp < cutoff
      → (delete_audit_events_before cutoff log).1.chain ≡ y ∷ ys
      → verify_audit_chain digest genesis (delete_audit_events_before cutoff log).1 ≡ false
  unfolding delete_audit_events_before
  delete_audit_events_before-broken cutoff r log rs y ys shape v old kept =
      let pruned = (delete_audit_events_before cutoff log).1 in
      elim (Bool-cases (verify_audit_chain digest genesis pruned)) [
        | inl ok ↦ absurd (broken ((verify_audit_chain-Linked digest genesis pruned).0 ok))
        | inr bad ↦ bad
      ]
    where
      linked : Linked digest genesis (r ∷ rs)
      linked = rw shape at ((verify_audit_chain-Linked digest genesis log).0 v)

      next : r.checksum ≢ genesis
      next = rw (linked.1) (fresh _)

      from_rest : keep (λ x. leb cutoff x.timestamp) rs ≡ y ∷ ys
      from_rest = ground (arith, ap (keep (λ x. leb cutoff x.timestamp)) shape)

      broken : ¬ Linked digest genesis (delete_audit_events_before cutoff log).1.chain
      broken l =
          kept_unlinked cutoff r.checksum rs y ys next linked.2 from_rest
            (let l' : Linked digest genesis (y ∷ ys) = rw kept at l in l'.0)
