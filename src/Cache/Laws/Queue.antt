-- ===== src/Cache/Laws/Queue.antt =====
-- tessera/cache/memory_cache.py: a key without a deadline that `lpush` and `rpop` use as a queue.
use auth_manager.Base.Errors.{ok}
use auth_manager.Base.Dict.{lookup, lookup-insert, lookup-erase, insert}
use auth_manager.Base.{
  ℕ, List, Text, ◌≡◌, ◌∷◌, Option, none, [], ◌⊎◌, length, ◌++◌, some, refl, arith, true, ap, inl,
  inr,
}
use auth_manager.Cache.Keys.{Key, Key_eq, key_eq, key_eq_iff}
use auth_manager.Cache.{
  Cache, lpush, rpop, purge_if_expired, Key, ℕ, is_expired, lookup, or_empty, ok, split_last,
  shorten, pop_last, remove_key, drop_key,
}

-- The newest first.
abbrev pub queued : Key → Cache → List Text
queued k c = or_empty (lookup k c.lists)

abbrev pub HasNoDeadline : Key → Cache → Type 0
HasNoDeadline k c = lookup k c.expiry ≡ none

at_self : (k : Key) → key_eq k k ≡ true
at_self k = (key_eq_iff k k).1 refl

split_last_lem :
    (x : Text) (xs : List Text) → let (front, last) = split_last x xs in x ∷ xs ≡ front ++ last ∷ []
unfolding split_last
split_last_lem x [] = refl
split_last_lem x (y ∷ ys) = ap (◌∷◌ x) (split_last_lem y ys)

queued-shorten : (k : Key) (l : List Text) (c : Cache) → queued k (shorten k l c) ≡ l
unfolding shorten remove_key drop_key
queued-shorten k [] c = rw (lookup-erase k k (insert k [] c.lists), at_self k) refl
queued-shorten k (x ∷ xs) c = rw (lookup-insert k k (x ∷ xs) c.lists, at_self k) refl

HasNoDeadline-shorten :
    (k : Key) (l : List Text) (c : Cache) → HasNoDeadline k c → HasNoDeadline k (shorten k l c)
unfolding shorten remove_key drop_key
HasNoDeadline-shorten k [] c lasting = rw (lookup-erase k k c.expiry, at_self k) refl
HasNoDeadline-shorten k (x ∷ xs) c lasting = lasting

module _ (now : ℕ) (k : Key) (c : Cache) (lasting : HasNoDeadline k c) where
  purge_lasting : purge_if_expired now k c ≡ c
  unfolding purge_if_expired is_expired
  purge_lasting = ground (arith, lasting)

  pub lpush_lem : (v : Text) → (lpush now k (v ∷ []) c).0 ≡ ok (length (v ∷ queued k c))
  unfolding lpush
  lpush_lem v = rw purge_lasting refl

  pub queued-lpush : (v : Text) → queued k (lpush now k (v ∷ []) c).1 ≡ v ∷ queued k c
  unfolding lpush
  queued-lpush v = rw (purge_lasting, lookup-insert k k (v ∷ queued k c) c.lists, at_self k) refl

  pub HasNoDeadline-lpush : (v : Text) → HasNoDeadline k (lpush now k (v ∷ []) c).1
  unfolding lpush
  HasNoDeadline-lpush v = rw purge_lasting lasting

  pub HasNoDeadline-rpop : HasNoDeadline k (rpop now k c).1
  unfolding rpop
  HasNoDeadline-rpop = rw purge_lasting (go (queued k c))
    where
      go : (l : List Text) → HasNoDeadline k (pop_last k l c).1
      go [] = lasting
      go (x ∷ xs) = HasNoDeadline-shorten k (split_last x xs).0 c lasting

-- What `rpop` gives of a list: its oldest text, if there is one.
abbrev pub Pops : Key → List Text → Option Text × Cache → Type 0
Pops k l r =
    ((l ≡ []) × (r.0 ≡ none) × (queued k r.1 ≡ []))
    ⊎ ((v : Text) × (l ≡ queued k r.1 ++ v ∷ []) × (r.0 ≡ some v))

pop_last-Pops : (k : Key) (l : List Text) (c : Cache) → queued k c ≡ l → Pops k l (pop_last k l c)
unfolding pop_last
pop_last-Pops k [] c e = inl (refl, refl, e)
pop_last-Pops k (x ∷ xs) c e =
    let (front, last) = split_last x xs in
    inr (last, rw (queued-shorten k (split_last x xs).0 c) (split_last_lem x xs), refl)

module _ (now : ℕ) (k : Key) (c : Cache) (lasting : HasNoDeadline k c) where
  pub rpop-Pops : Pops k (queued k c) (rpop now k c)
  unfolding rpop
  rpop-Pops = rw (purge_lasting now k c lasting) (pop_last-Pops k (queued k c) c refl)
