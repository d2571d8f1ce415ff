-- ===== src/Webhooks/Seen.antt =====
-- tessera/webhooks/webhook_manager.py: which delivery ids the replay store knows at a time.
use auth_manager.Cache.Laws.Operations.{entry-exists, entry-set}
use auth_manager.Cache.Laws.{is_present, entry, Entry, aged, entry_later, exists_lem}
use auth_manager.Cache.{Cache, exists, num}
use auth_manager.Cache.Keys.{Key, delivery_seen_key, key_eq, key_eq_iff}
use auth_manager.Webhooks.Receiver.{record_delivery}
use auth_manager.Base.{
  ℕ, max, Text, ◌≤◌, ◌*◌, ltb, second, ◌≡◌, ◌+◌, true, false, arith, Bool-cases, inl, inr, ap, refl,
}

abbrev pub seen_window : ℕ → ℕ
seen_window tolerance = max 60 (tolerance * 2) * second

-- The recorded id is seen until the window ends.
pub record_delivery-seen :
    (now tolerance : ℕ) (delivery_id : Text) (c : Cache) (t : ℕ)
    → (record_delivery now tolerance delivery_id c).0 ≡ true
    → now ≤ t
    → is_present
        (entry t (delivery_seen_key delivery_id) (record_delivery now tolerance delivery_id c).1)
      ≡ ltb t (now + seen_window tolerance)
unfolding record_delivery
record_delivery-seen now tolerance delivery_id c t fresh later =
    let key = delivery_seen_key delivery_id in
    elim (Bool-cases (exists now key c).0) [
      | inl seen ↦ absurd (ground (arith, seen))
      | inr unseen ↦
          rw
            (
              unseen,
              entry-set now t key key (exists now key c).1 later (num 1) (max 60 (tolerance * 2))
                  (omega arith),
              at_self key,
            )
            (ground arith)
    ]
  where
    at_self : (k : Key) → key_eq k k ≡ true
    at_self k = (key_eq_iff k k).1 refl

-- What is present at a time was present before.
present_before :
    (now t : ℕ) (k : Key) (c : Cache)
    → now ≤ t
    → is_present (entry t k c) ≡ true
    → is_present (entry now k c) ≡ true
present_before now t k c before there =
    go (entry now k c) (rw (entry_later now t k c before) at there)
  where
    go : (e : Entry) → is_present (aged t e) ≡ true → is_present e ≡ true
    go e h = ground arith

-- What is seen at a time stays seen, whatever is recorded before.
pub record_delivery-keeps :
    (now t tolerance : ℕ) (i j : Text) (c : Cache)
    → now ≤ t
    → is_present (entry t (delivery_seen_key i) c) ≡ true
    → is_present (entry t (delivery_seen_key i) (record_delivery now tolerance j c).1) ≡ true
unfolding record_delivery
record_delivery-keeps now t tolerance i j c before seen =
    let key = delivery_seen_key i in
    let other = delivery_seen_key j in
    elim (Bool-cases (exists now other c).0) [
      | inl there ↦ rw (there, entry-exists now t key other c before) seen
      | inr unseen ↦ elim (Bool-cases (key_eq key other)) [
        | inl same ↦ absurd (
            ground (
              arith,
              unseen,
              exists_lem now other c,
              (key_eq_iff key other).0 same,
              ap (λ k. is_present (entry now k c)) ((key_eq_iff key other).0 same),
              present_before now t key c before seen,
            ))
        | inr differs ↦
            rw
              (
                unseen,
                entry-set now t key other (exists now other c).1 before (num 1)
                    (max 60 (tolerance * 2)) (omega arith),
                differs,
                entry-exists now t key other c before,
              )
              seen
      ]
    ]

pub past_window :
    (now tolerance : ℕ)
    → 30 ≤ tolerance
    → ltb (now + tolerance * 2 * second) (now + seen_window tolerance) ≡ false
past_window now tolerance wide = ground arith
