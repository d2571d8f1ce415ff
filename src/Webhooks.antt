-- ===== src/Webhooks.antt =====
-- tessera/webhooks/webhook_manager.py: which addresses a webhook may be sent to. `urlparse`,
-- `socket.getaddrinfo` and the `ipaddress` module are parameters; a call that raises gives `none`.
pub mod Endpoints
pub mod Delivery
pub mod Receiver
pub mod Replay
pub mod Seen
pub mod Attempts
pub mod Drains
pub mod Calls
pub mod Targets
pub mod Blocking
use auth_manager.Base.{
  Text, ℕ, Bool, List, Option, leb, ◌||◌, true, some, false, ◌&&◌, not, ◌==◌, if◌then◌else◌, ◌∷◌,
  nat_eq, [], none,
}

pub data Scheme : Type 0 where
  http https other_scheme : Scheme

-- What is read of the result of `urlparse`; reading the port may raise. The empty text is no host.
pub record ParsedUrl : Type 0 where
  pub scheme : Scheme
  pub hostname : Text
  pub port : Option (Option ℕ)

-- What `ipaddress.ip_address` says of an address, and its value as an integer.
pub record Address : Type 0 where
  pub version : ℕ
  pub value : ℕ
  pub is_private : Bool
  pub is_loopback : Bool
  pub is_link_local : Bool
  pub is_reserved : Bool
  pub is_unspecified : Bool
  pub is_multicast : Bool

-- `_CGNAT_NET`, from 100.64.0.0 to 100.127.255.255.
abbrev pub in_cgnat_net : Address → Bool
in_cgnat_net a = leb 1681915904 a.value && leb a.value 1686110207

abbrev pub is_forbidden : Address → Bool
is_forbidden a =
    a.is_private
    || a.is_loopback
    || a.is_link_local
    || a.is_reserved
    || a.is_unspecified
    || a.is_multicast
    || (a.version == 4 && in_cgnat_net a)

-- The loop over the resolved addresses; one that cannot be parsed is `none`.
unfoldable pub all_allowed : List (Option Address) → Bool
all_allowed [] = true
all_allowed (none ∷ addrs) = false
all_allowed (some a ∷ addrs) = not (is_forbidden a) && all_allowed addrs

-- What is known of the network when a URL is checked: `getaddrinfo` of a host and a port.
abbrev pub Resolver : Type 0
Resolver = Text → ℕ → Option (List (Option Address))

-- `parsed.port or (443 if parsed.scheme == "https" else 80)`
abbrev pub port_or_default : Scheme → Option ℕ → ℕ
port_or_default https none = 443
port_or_default http none = 80
port_or_default other_scheme none = 80
port_or_default https (some p) = if p == 0 then 443 else p
port_or_default http (some p) = if p == 0 then 80 else p
port_or_default other_scheme (some p) = if p == 0 then 80 else p

unfoldable pub resolves_safely : Option (List (Option Address)) → Bool
unfolding all_allowed
resolves_safely none = false
resolves_safely (some []) = false
resolves_safely (some (a ∷ addrs)) = all_allowed (a ∷ addrs)

abbrev pub scheme_allowed : Bool → Scheme → Bool
scheme_allowed production https = true
scheme_allowed production http = not production
scheme_allowed production other_scheme = false

module _ (urlparse : Text → Option ParsedUrl) (production : Bool) where
  unfoldable pub check_parsed : Resolver → ParsedUrl → Bool
  unfolding resolves_safely
  check_parsed resolver u =
      scheme_allowed production u.scheme && not (u.hostname == 0) && elim u.port [
        | none ↦ false
        | some p ↦ resolves_safely (resolver u.hostname (port_or_default u.scheme p))
      ]

  -- `validate_endpoint_url`; every refusal is a `ValueError`.
  unfoldable pub validate_endpoint_url : Resolver → Text → Bool
  unfolding check_parsed
  validate_endpoint_url resolver url =
      not (url == 0) && elim (urlparse url) [ none ↦ false | some u ↦ check_parsed resolver u ]
