-- ===== src/Cache/Laws.antt =====
-- tessera/cache/memory_cache.py: what a key holds at a time, and the writes of the four dicts.
pub mod Operations
pub mod Queue
use auth_manager.Base.Errors.{ok, err, value_error}
use auth_manager.Base.Int.{ℤ, negsuc, pos}
use auth_manager.Base.Dict.{lookup, Dict, lookup-erase, erase, insert, lookup-insert}
use auth_manager.Cache.Keys.{Key, Key_eq, key_eq_iff, key_eq}
use auth_manager.Cache.{
  Raw, Cache, purge_if_expired, get, exists, delete, set, exists_any, drop_key, incr, expire, ttl,
  next_value, num, lrange, lpush, empty,
}
use auth_manager.Base.{
  Option, none, ℕ, Bool, false, if◌then◌else◌, is_some, List, ◌||◌, Text, some, leb, ◌≡◌, arith,
  ◌+◌, ◌*◌, second, ◌<◌, true, ◌-◌, ◌/◌, ◌∷◌, [], refl,
}
use Prim.Native.Nat.{◌≤◌}

-- All that the four dicts say of one key.
pub record Entry : Type 0 where
  pub value : Option Raw
  pub items : Option (List Text)
  pub fields : Option (Dict Text Text)
  pub deadline : Option ℕ

abbrev pub absent : Entry
absent = record { value = none; items = none; fields = none; deadline = none }

abbrev pub passed : ℕ → Option ℕ → Bool
passed t none = false
passed t (some deadline) = leb deadline t

-- An entry is gone from its deadline on.
abbrev pub aged : ℕ → Entry → Entry
aged t e = if passed t e.deadline then absent else e

-- The entry of a key at time `t`.
unfoldable pub entry : ℕ → Key → Cache → Entry
entry t k c = aged t (record {
  value = lookup k c.values;
  items = lookup k c.lists;
  fields = lookup k c.hashes;
  deadline = lookup k c.expiry;
})

-- `exists`
abbrev pub is_present : Entry → Bool
is_present e = is_some e.value || is_some e.items || is_some e.fields

-- `ttl`
abbrev pub remaining : ℕ → Entry → ℤ
remaining now e =
    if is_present e
    then elim e.deadline [
      | none ↦ negsuc 0
      | some deadline ↦ pos ((deadline - now + (second - 1)) / second)
    ]
    else negsuc 1

-- What is held at a time has not passed its deadline.
pub aged-entry : (t : ℕ) (k : Key) (c : Cache) → aged t (entry t k c) ≡ entry t k c
unfolding entry
aged-entry t k c = ground arith

-- Time only ages an entry.
pub entry_later : (now t : ℕ) (k : Key) (c : Cache) → now ≤ t → entry t k c ≡ aged t (entry now k c)
unfolding entry
entry_later now t k c h = ground arith

module _ (now t : ℕ) (j k : Key) (c : Cache) (h : now ≤ t) where
  entry-purge : entry t j (purge_if_expired now k c) ≡ entry t j c
  unfolding entry purge_if_expired
  entry-purge = ground (
    arith,
    key_eq_iff j k,
    lookup-erase j k c.values,
    lookup-erase j k c.lists,
    lookup-erase j k c.hashes,
    lookup-erase j k c.expiry,
  )

-- Where each field of a purged cache stands at the purged key.
module _ (now : ℕ) (k : Key) (c : Cache) where
  value-purge : lookup k (purge_if_expired now k c).values ≡ (entry now k c).value
  unfolding entry purge_if_expired
  value-purge = ground (arith, key_eq_iff k k, lookup-erase k k c.values)

  items-purge : lookup k (purge_if_expired now k c).lists ≡ (entry now k c).items
  unfolding entry purge_if_expired
  items-purge = ground (arith, key_eq_iff k k, lookup-erase k k c.lists)

  fields-purge : lookup k (purge_if_expired now k c).hashes ≡ (entry now k c).fields
  unfolding entry purge_if_expired
  fields-purge = ground (arith, key_eq_iff k k, lookup-erase k k c.hashes)

  deadline-purge : lookup k (purge_if_expired now k c).expiry ≡ (entry now k c).deadline
  unfolding entry purge_if_expired
  deadline-purge = ground (arith, key_eq_iff k k, lookup-erase k k c.expiry)

  -- `get` returns the live string.
  pub get_lem : (get now k c).0 ≡ (entry now k c).value
  unfolding get
  get_lem = value-purge

  exists-purge : exists_any k (purge_if_expired now k c) ≡ is_present (entry now k c)
  unfolding exists_any
  exists-purge = rw (value-purge, items-purge, fields-purge)

  pub exists_lem : (exists now k c).0 ≡ is_present (entry now k c)
  unfolding exists
  exists_lem = exists-purge

  pub delete_lem : (delete now k c).0 ≡ is_present (entry now k c)
  unfolding delete
  delete_lem = exists-purge

-- The key's entry after an operation that leaves the other keys alone.
abbrev pub at {ℓ} : {A : Type ℓ} → Key → Key → A → A → A
at j k new old = if key_eq j k then new else old

-- Each write of a purged cache `d`, entry by entry.
drop_lem : (t : ℕ) (j k : Key) (d : Cache) → entry t j (drop_key k d) ≡ at j k absent (entry t j d)
unfolding entry drop_key
drop_lem t j k d = ground (
  arith,
  key_eq_iff j k,
  lookup-erase j k d.values,
  lookup-erase j k d.lists,
  lookup-erase j k d.hashes,
  lookup-erase j k d.expiry,
)

-- A string written over whatever the key held, with a deadline.
replace_lem :
    (t : ℕ) (j k : Key) (v : Raw) (deadline : ℕ) (d : Cache)
    → entry t j (record d {
      lists = erase k d.lists;
      hashes = erase k d.hashes;
      values = insert k v d.values;
      expiry = insert k deadline d.expiry;
    })
      ≡ at j k
          (aged t
            (record { value = some v; items = none; fields = none; deadline = some deadline }))
          (entry t j d)
unfolding entry
replace_lem t j k v deadline d = ground (
  arith,
  key_eq_iff j k,
  lookup-insert j k v d.values,
  lookup-erase j k d.lists,
  lookup-erase j k d.hashes,
  lookup-insert j k deadline d.expiry,
)

-- What the four dicts hold of a key, whatever its deadline.
abbrev raw : Key → Cache → Entry
raw k d = record {
  value = lookup k d.values;
  items = lookup k d.lists;
  fields = lookup k d.hashes;
  deadline = lookup k d.expiry;
}

raw-purge : (now : ℕ) (k : Key) (c : Cache) → raw k (purge_if_expired now k c) ≡ entry now k c
raw-purge now k c =
    cc (value-purge now k c, items-purge now k c, fields-purge now k c, deadline-purge now k c)

-- A string written beside the other fields, as `incr` does.
put_lem :
    (t : ℕ) (j k : Key) (v : Raw) (d : Cache)
    → entry t j (record d { values = insert k v d.values })
      ≡ at j k (aged t (record (raw k d) { value = some v })) (entry t j d)
unfolding entry
put_lem t j k v d = ground (arith, key_eq_iff j k, lookup-insert j k v d.values)

-- A new deadline, as `expire` sets it.
extend_lem :
    (t : ℕ) (j k : Key) (deadline : ℕ) (d : Cache)
    → entry t j (record d { expiry = insert k deadline d.expiry })
      ≡ at j k (aged t (record (raw k d) { deadline = some deadline })) (entry t j d)
unfolding entry
extend_lem t j k deadline d = ground (arith, key_eq_iff j k, lookup-insert j k deadline d.expiry)

-- A list written in place of whatever the key held leaves the other keys alone.
pushed_lem :
    (t : ℕ) (j k : Key) (l : List Text) (d : Cache)
    → key_eq j k ≡ false
    → entry t j (record d {
      values = erase k d.values;
      hashes = erase k d.hashes;
      lists = insert k l d.lists;
    })
      ≡ entry t j d
unfolding entry
pushed_lem t j k l d other = ground (
  arith,
  key_eq_iff j k,
  lookup-erase j k d.values,
  lookup-erase j k d.hashes,
  lookup-insert j k l d.lists,
)
