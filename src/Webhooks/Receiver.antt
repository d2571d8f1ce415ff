-- ===== src/Webhooks/Receiver.antt =====
-- tessera/webhooks/webhook_manager.py, `verify_webhook_signature`. `mac` is the hexadecimal
-- HMAC-SHA256 of a secret over the timestamp, a dot and the payload, and `to_int` is `int`.
-- The clock of the receiver and that of the store are one.
use auth_manager.Cache.Keys.{delivery_seen_key}
use auth_manager.Base.Chars.{Chars, starts_with, is_empty, codes, chars_eq}
use auth_manager.Base.{
  ℕ, Text, if◌then◌else◌, Option, leb, Bool, ◌-◌, drop, not, ◌==◌, ◌&&◌, ◌+◌, length, false, true,
  ◌||◌, none, some, ◌/◌, max, nat_eq, second, ◌*◌,
}
use auth_manager.Cache.{Cache, exists, set, num}
use auth_manager.Base.Int.{ℤ, pos, negsuc}

abbrev pub signature_tolerance_seconds : ℕ
signature_tolerance_seconds = 300

-- `abs(now - ts)`
abbrev pub distance : ℕ → ℤ → ℕ
distance now (pos ts) = if leb ts now then now - ts else ts - now
distance now (negsuc n) = now + n + 1

-- `removeprefix`
unfoldable pub remove_prefix : Chars → Chars → Chars
remove_prefix p s = if starts_with p s then drop (length p) s else s

pub record Message : Type 0 where
  pub payload : Text
  pub signature : Chars
  pub secret : Text
  pub timestamp : Text

-- The replay store; the empty delivery id is none.
unfoldable pub record_delivery : ℕ → ℕ → Text → Cache → Bool × Cache
record_delivery now tolerance delivery_id c =
    let (seen, c') = exists now (delivery_seen_key delivery_id) c in
    if seen then (false, c') else (
      true,
      (set now (delivery_seen_key delivery_id) (num 1) (some (max 60 (tolerance * 2))) c').1,
    )

module _ (mac : Text → Text → Text → Chars) (to_int : Text → Option ℤ) where
  -- `not signature or not secret or not timestamp`, and the age of the timestamp.
  unfoldable pub is_current : ℕ → ℕ → Message → Bool
  is_current now tolerance m =
      not (is_empty m.signature || m.secret == 0 || m.timestamp == 0) && elim (to_int m.timestamp) [
        | none ↦ false
        | some ts ↦ leb (distance (now / second) ts) tolerance
      ]

  unfoldable pub is_signed : Message → Bool
  unfolding remove_prefix
  is_signed m = mac m.secret m.timestamp m.payload == remove_prefix (codes "sha256=") m.signature

  unfoldable pub verify_webhook_signature :
      ℕ → ℕ → Message → Text → Option Cache → Bool × Option Cache
  unfolding is_current is_signed record_delivery
  verify_webhook_signature now tolerance m delivery_id store =
      if is_current now tolerance m && is_signed m
      then if delivery_id == 0 then (true, store) else elim store [
        | none ↦ (true, none)
        | some c ↦ let (fresh, c') = record_delivery now tolerance delivery_id c in (fresh, some c')
      ]
      else (false, store)
