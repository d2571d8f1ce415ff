-- ===== src/Cache/Laws/Operations.antt =====
-- tessera/cache/memory_cache.py: the result of each operation and the entries that it leaves.
use auth_manager.Base.Errors.{ok, err, value_error}
use auth_manager.Base.Int.{ℤ}
use auth_manager.Base.Dict.{lookup}
use auth_manager.Cache.Keys.{Key, Key_eq, key_eq}
use auth_manager.Cache.{
  Raw, Cache, purge_if_expired, get, exists, delete, set, incr, expire, ttl, next_value, num,
  lrange, lpush, empty,
}
use auth_manager.Base.{
  none, ℕ, false, List, Text, some, leb, ◌≡◌, arith, ◌+◌, ◌*◌, second, ◌<◌, true, ◌∷◌, [], refl,
  Option-cases, inl, inr,
}
use Prim.Native.Nat.{◌≤◌}
use auth_manager.Cache.Laws.{
  absent, aged, entry, is_present, remaining, at, entry-purge, value-purge, exists-purge, drop_lem,
  replace_lem, raw-purge, pushed_lem, deadline-purge, put_lem, extend_lem,
}

leb_zero : (n : ℕ) → 0 < n → leb n 0 ≡ false
leb_zero n h = ground arith

module _ (now t : ℕ) (j k : Key) (c : Cache) (h : now ≤ t) where
  pub entry-get : entry t j (get now k c).1 ≡ entry t j c
  unfolding get
  entry-get = entry-purge now t j k c h

  pub entry-exists : entry t j (exists now k c).1 ≡ entry t j c
  unfolding exists
  entry-exists = entry-purge now t j k c h

  pub entry-delete : entry t j (delete now k c).1 ≡ at j k absent (entry t j c)
  unfolding delete
  entry-delete = rw (← entry-purge now t j k c h) (drop_lem t j k (purge_if_expired now k c))

  -- `set` with a positive number of seconds.
  pub entry-set :
      (v : Raw) (ttl : ℕ)
      → 0 < ttl
      → entry t j (set now k v (some ttl) c).1
        ≡ at j k
            (aged t (record {
              value = some v;
              items = none;
              fields = none;
              deadline = some (now + ttl * second);
            }))
            (entry t j c)
  unfolding set
  entry-set v ttl pos_ttl =
      rw (leb_zero ttl pos_ttl, ← entry-purge now t j k c h)
        (replace_lem t j k v (now + ttl * second) (purge_if_expired now k c))

  -- `incr` on a counter, or on a key that holds no string.
  pub entry-incr :
      (n : ℕ)
      → next_value (entry now k c).value ≡ some n
      → entry t j (incr now k c).1
        ≡ at j k (aged t (let e = entry now k c in record e { value = some (num n) })) (entry t j c)
  unfolding incr
  entry-incr n counts =
      rw (value-purge now k c, counts, incr)
        (rw (← entry-purge now t j k c h, ← raw-purge now k c)
          (put_lem t j k (num n) (purge_if_expired now k c)))

  -- `expire` on a key that is there, with a positive number of seconds.
  pub entry-expire :
      (ttl : ℕ)
      → 0 < ttl
      → is_present (entry now k c) ≡ true
      → entry t j (expire now k ttl c).1
        ≡ at j k
            (aged t (let e = entry now k c in record e { deadline = some (now + ttl * second) }))
            (entry t j c)
  unfolding expire
  entry-expire ttl pos_ttl there =
      rw (exists-purge now k c, there, leb_zero ttl pos_ttl)
        (rw (← entry-purge now t j k c h, ← raw-purge now k c)
          (extend_lem t j k (now + ttl * second) (purge_if_expired now k c)))

  pub entry-expire_missing :
      (ttl : ℕ)
      → is_present (entry now k c) ≡ false
      → entry t j (expire now k ttl c).1 ≡ entry t j c
  unfolding expire
  entry-expire_missing ttl missing = rw (exists-purge now k c, missing) (entry-purge now t j k c h)

  -- The counters of other keys.
  pub entry-incr_ne : key_eq j k ≡ false → entry t j (incr now k c).1 ≡ entry t j c
  unfolding incr
  entry-incr_ne other =
      elim (Option-cases (next_value (lookup k (purge_if_expired now k c).values))) [
        | inl refused ↦ rw (refused, incr) (entry-purge now t j k c h)
        | inr (n, counts) ↦
            rw (counts, incr)
              (ground (
                arith,
                other,
                entry-purge now t j k c h,
                put_lem t j k (num n) (purge_if_expired now k c),
              ))
      ]

  pub entry-expire_ne :
      (ttl : ℕ) → key_eq j k ≡ false → entry t j (expire now k ttl c).1 ≡ entry t j c
  unfolding expire
  entry-expire_ne ttl other = ground (
    arith,
    other,
    entry-purge now t j k c h,
    extend_lem t j k (now + ttl * second) (purge_if_expired now k c),
  )

  pub entry-ttl : entry t j (ttl now k c).1 ≡ entry t j c
  unfolding ttl
  entry-ttl = ground (arith, entry-purge now t j k c h)

  pub entry-lrange : (a b : ℤ) → entry t j (lrange now k a b c).1 ≡ entry t j c
  unfolding lrange
  entry-lrange a b = entry-purge now t j k c h

  -- `lpush` changes the entry of its own key alone.
  pub entry-lpush_ne :
      (vs : List Text) → key_eq j k ≡ false → entry t j (lpush now k vs c).1 ≡ entry t j c
  unfolding lpush
  entry-lpush_ne [] other = refl
  entry-lpush_ne (v ∷ vs) other =
      rw (← entry-purge now t j k c h) (pushed_lem t j k _ (purge_if_expired now k c) other)

module _ (now : ℕ) (k : Key) (c : Cache) where
  pub set_lem : (v : Raw) (ttl : ℕ) → 0 < ttl → (set now k v (some ttl) c).0 ≡ ok tt
  unfolding set
  set_lem v ttl pos_ttl = rw (leb_zero ttl pos_ttl)

  pub incr_lem : (n : ℕ) → next_value (entry now k c).value ≡ some n → (incr now k c).0 ≡ ok n
  unfolding incr
  incr_lem n counts = rw (value-purge now k c, counts, incr)

  pub incr_refused : next_value (entry now k c).value ≡ none → (incr now k c).0 ≡ err value_error
  unfolding incr
  incr_refused counts = rw (value-purge now k c, counts, incr)

  pub expire_lem : (ttl : ℕ) → 0 < ttl → (expire now k ttl c).0 ≡ ok (is_present (entry now k c))
  unfolding expire
  expire_lem ttl pos_ttl = rw (exists-purge now k c, leb_zero ttl pos_ttl) (ground arith)

  pub ttl_lem : (ttl now k c).0 ≡ remaining now (entry now k c)
  unfolding ttl
  ttl_lem = ground (arith, exists-purge now k c, deadline-purge now k c)

-- A new cache holds nothing.
pub entry-empty : (t : ℕ) (k : Key) → entry t k empty ≡ absent
unfolding entry empty lookup
entry-empty t k = refl
