-- ===== src/Cache.antt =====
-- tessera/cache/memory_cache.py, `class InMemoryCache`. `now` is the reading of the monotonic clock.
pub mod Keys
pub mod Laws
use auth_manager.Cache.Keys.{Key_eq}
use auth_manager.Base.{
  ℕ, ◌+◌, ◌-◌, ◌*◌, ◌/◌, Text, second, Bool, true, false, ◌||◌, Option, none, some, List, [], ◌∷◌,
  ◌++◌, if◌then◌else◌, ltb, leb, length, is_some, take, drop, reverse, nat_eq,
}
use auth_manager.Base.Dict.{Dict, lookup, insert, erase, has_key, add_all}
use auth_manager.Base.Errors.{Error, value_error, Result, ok, err}
use auth_manager.Base.Int.{ℤ, pos, negsuc, sub_ℕ, to_ℕ}
use auth_manager.Records.{Document}
use Keys.{Key}

-- A cached string: a counter in decimal, a JSON document, or another text. `incr` is called on
-- counters only; here it refuses the others, as `int()` refuses a text that is no number.
pub data Raw : Type 0 where
  num : ℕ → Raw
  text : Text → Raw
  json : Document → Raw

pub record Cache : Type 0 where
  pub values : Dict Key Raw
  pub lists : Dict Key (List Text)
  pub hashes : Dict Key (Dict Text Text)
  pub expiry : Dict Key ℕ

unfoldable pub empty : Cache
empty = record { values = []; lists = []; hashes = []; expiry = [] }

-- The four `pop` calls that `_purge_if_expired` and `_remove_key` share.
unfoldable pub drop_key : Key → Cache → Cache
drop_key k c = record {
  values = erase k c.values;
  lists = erase k c.lists;
  hashes = erase k c.hashes;
  expiry = erase k c.expiry;
}

-- The deadline test of `_purge_if_expired`.
unfoldable pub is_expired : ℕ → Key → Cache → Bool
is_expired now k c = elim (lookup k c.expiry) [ none ↦ false | some deadline ↦ leb deadline now ]

unfoldable pub purge_if_expired : ℕ → Key → Cache → Cache
unfolding is_expired drop_key
purge_if_expired now k c = if is_expired now k c then drop_key k c else c

unfoldable pub exists_any : Key → Cache → Bool
exists_any k c = has_key k c.values || has_key k c.lists || has_key k c.hashes

unfoldable pub remove_key : Key → Cache → Bool × Cache
unfolding exists_any drop_key
remove_key k c = (exists_any k c, drop_key k c)

-- `_set_expiry`; a negative number of seconds is refused like 0.
unfoldable pub set_expiry : ℕ → Key → Option ℕ → Cache → Result (Unit {0}) × Cache
set_expiry now k none c = (ok tt, record c { expiry = erase k c.expiry })
set_expiry now k (some ttl) c =
    if leb ttl 0
    then (err value_error, c)
    else (ok tt, record c { expiry = insert k (now + ttl * second) c.expiry })

-- strings

unfoldable pub get : ℕ → Key → Cache → Option Raw × Cache
unfolding purge_if_expired
get now k c = let c' = purge_if_expired now k c in (lookup k c'.values, c')

unfoldable pub set : ℕ → Key → Raw → Option ℕ → Cache → Result (Unit {0}) × Cache
unfolding purge_if_expired set_expiry
set now k v ttl c =
    let c' = purge_if_expired now k c in
    set_expiry now k ttl (record c' {
      lists = erase k c'.lists;
      hashes = erase k c'.hashes;
      values = insert k v c'.values;
    })

unfoldable pub delete : ℕ → Key → Cache → Bool × Cache
unfolding purge_if_expired remove_key
delete now k c = remove_key k (purge_if_expired now k c)

unfoldable pub exists : ℕ → Key → Cache → Bool × Cache
unfolding purge_if_expired exists_any
exists now k c = let c' = purge_if_expired now k c in (exists_any k c', c')

-- counters and expiry

-- `int(raw) + 1`, where `int` accepts the text.
abbrev pub next_value : Option Raw → Option ℕ
next_value none = some 1
next_value (some (num n)) = some (n + 1)
next_value (some (text t)) = none
next_value (some (json d)) = none

unfoldable pub incr : ℕ → Key → Cache → Result ℕ × Cache
unfolding purge_if_expired
incr now k c =
    let c' = purge_if_expired now k c in
    elim (next_value (lookup k c'.values)) [
      | none ↦ (err value_error, c')
      | some n ↦ (ok n, record c' { values = insert k (num n) c'.values })
    ]

unfoldable pub expire : ℕ → Key → ℕ → Cache → Result Bool × Cache
unfolding purge_if_expired exists_any
expire now k ttl c =
    let c' = purge_if_expired now k c in
    if exists_any k c'
    then if leb ttl 0
      then (err value_error, c')
      else (ok true, record c' { expiry = insert k (now + ttl * second) c'.expiry })
    else (ok false, c')

-- The remaining seconds, rounded up; -1 without a deadline, and -2 without the key.
unfoldable pub ttl : ℕ → Key → Cache → ℤ × Cache
unfolding purge_if_expired exists_any
ttl now k c =
    let c' = purge_if_expired now k c in
    if exists_any k c'
    then elim (lookup k c'.expiry) [
      | none ↦ (negsuc 0, c')
      | some deadline ↦ (pos ((deadline - now + (second - 1)) / second), c')
    ]
    else (negsuc 1, c')

-- lists

abbrev pub or_empty {ℓ} : {A : Type ℓ} → Option (List A) → List A
or_empty none = []
or_empty (some l) = l

pub lpush : ℕ → Key → List Text → Cache → Result ℕ × Cache
unfolding purge_if_expired
lpush now k [] c = (err value_error, c)
lpush now k (v ∷ vs) c =
    let c' = purge_if_expired now k c in
    let l = reverse (v ∷ vs) ++ or_empty (lookup k c'.lists) in
    (
      ok (length l),
      record c' {
        values = erase k c'.values;
        hashes = erase k c'.hashes;
        lists = insert k l c'.lists;
      },
    )

-- `list.pop`, on a list that has an entry.
unfoldable pub split_last : Text → List Text → List Text × Text
split_last x [] = ([], x)
split_last x (y ∷ ys) = let (front, z) = split_last y ys in (x ∷ front, z)

-- What is left of the list, or nothing of the key.
unfoldable pub shorten : Key → List Text → Cache → Cache
unfolding remove_key
shorten k [] c = (remove_key k (record c { lists = insert k [] c.lists })).1
shorten k (x ∷ xs) c = record c { lists = insert k (x ∷ xs) c.lists }

unfoldable pub pop_last : Key → List Text → Cache → Option Text × Cache
unfolding split_last shorten
pop_last k [] c = (none, c)
pop_last k (x ∷ xs) c = let (front, last) = split_last x xs in (some last, shorten k front c)

pub rpop : ℕ → Key → Cache → Option Text × Cache
unfolding purge_if_expired pop_last
rpop now k c = let c' = purge_if_expired now k c in pop_last k (or_empty (lookup k c'.lists)) c'

-- An index counted from the end if it is negative.
abbrev from_end : ℕ → ℤ → ℤ
from_end len (pos n) = pos n
from_end len (negsuc n) = sub_ℕ len (n + 1)

abbrev slice : ℕ → ℤ → List Text → List Text
slice start (negsuc _) l = []
slice start (pos stop) l =
    if ltb stop start || leb (length l) start then [] else take (stop + 1 - start) (drop start l)

pub lrange : ℕ → Key → ℤ → ℤ → Cache → List Text × Cache
unfolding purge_if_expired
lrange now k start stop c =
    let c' = purge_if_expired now k c in
    let l = or_empty (lookup k c'.lists) in
    (slice (to_ℕ (from_end (length l) start)) (from_end (length l) stop) l, c')

-- hashes

pub hset : ℕ → Key → Dict Text Text → Cache → Cache
unfolding purge_if_expired
hset now k mapping c =
    let c' = purge_if_expired now k c in
    record c' {
      values = erase k c'.values;
      lists = erase k c'.lists;
      hashes = insert k (add_all mapping (or_empty (lookup k c'.hashes))) c'.hashes;
    }

pub hgetall : ℕ → Key → Cache → Dict Text Text × Cache
unfolding purge_if_expired
hgetall now k c = let c' = purge_if_expired now k c in (or_empty (lookup k c'.hashes), c')

-- The loop of `hdel`, with the number removed so far.
delete_fields : List Text → ℕ → Dict Text Text → ℕ × Dict Text Text
delete_fields [] removed entry = (removed, entry)
delete_fields (f ∷ fs) removed entry =
    delete_fields fs (if has_key f entry then removed + 1 else removed)
      (if has_key f entry then erase f entry else entry)

pub hdel : ℕ → Key → List Text → Cache → ℕ × Cache
unfolding purge_if_expired remove_key delete_fields
hdel now k fields c =
    let c' = purge_if_expired now k c in
    elim (or_empty (lookup k c'.hashes)) [
      | [] ↦ (0, c')
      | e ∷ es ↦
          let (removed, entry) = delete_fields fields 0 (e ∷ es) in
          let c'' = record c' { hashes = insert k entry c'.hashes } in
          (removed, elim entry [ [] ↦ (remove_key k c'').1 | _ ∷ _ ↦ c'' ])
    ]

pub close : Cache → Cache
unfolding empty
close c = empty
