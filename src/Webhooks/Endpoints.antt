-- ===== src/Webhooks/Endpoints.antt =====
-- tessera/webhooks/webhook_manager.py, `class WebhookManager`: the endpoints. `fresh` is what
-- `secrets.token_hex` gives, and a fresh id.
use auth_manager.Base.Errors.{
  Action, raise, ◌>>◌, ◌>>=◌, not_found, raise_if, gets, pure, value_error, call,
}
use auth_manager.Base.Chars.{Chars, codes, chars_eq}
use auth_manager.Base.{
  List, Text, Option, Bool, ℕ, true, map, none, false, ◌∷◌, some, [], contains, ◌++◌, not, ◌&&◌,
  drop, length, is_some, ◌-◌, ◌||◌,
}
use auth_manager.Database.Webhooks.{
  WebhookTables, Endpoint, Delivery, EndpointUpdates, delete_webhook_endpoint,
  get_webhook_deliveries, list_webhook_endpoints, get_webhook_endpoint, save_webhook_endpoint,
  update_webhook_endpoint,
}
use auth_manager.Webhooks.{ParsedUrl, Resolver, List, Text, Option, Bool, ℕ, validate_endpoint_url}

-- The values of `WebhookEventType`.
pub event_types : List Chars
event_types =
    codes "user.created"
    ∷ codes "user.updated"
    ∷ codes "user.deleted"
    ∷ codes "user.logged_in"
    ∷ codes "user.logged_out"
    ∷ codes "password.reset_requested"
    ∷ codes "password.reset_completed"
    ∷ codes "mfa.enabled"
    ∷ codes "mfa.disabled"
    ∷ codes "session.created"
    ∷ codes "session.revoked"
    ∷ codes "organization.created"
    ∷ codes "organization.updated"
    ∷ codes "member.added"
    ∷ codes "member.removed"
    ∷ codes "invitation.sent"
    ∷ codes "invitation.accepted"
    ∷ []

-- `_coerce_event_type` of each event.
unfoldable pub all_known : List Chars → Bool
all_known [] = true
all_known (e ∷ es) = contains e event_types && all_known es

-- `_mask_secret`: twelve stars and the last four characters.
unfoldable pub mask_secret : Chars → Chars
mask_secret [] = codes "****"
mask_secret (c ∷ s) = codes "************" ++ drop (length (c ∷ s) - 4) (c ∷ s)

-- `_public_endpoint_view`
pub record EndpointView : Type 0 where
  pub id : Text
  pub url : Text
  pub secret_masked : Chars
  pub events : List Chars
  pub description : Option Text
  pub enabled : Bool

unfoldable pub public_endpoint_view : Endpoint → EndpointView
unfolding mask_secret
public_endpoint_view e = record {
  id = e.id;
  url = e.url;
  secret_masked = mask_secret e.secret;
  events = e.events;
  description = e.description;
  enabled = e.enabled;
}

abbrev map_some : {A B : Type 0} → (A → B) → Option A → Option B
map_some f none = none
map_some f (some a) = some (f a)

unfoldable pub get_endpoint : Text → WebhookTables → Option EndpointView
unfolding public_endpoint_view
get_endpoint id w = map_some public_endpoint_view (get_webhook_endpoint id w)

unfoldable pub list_endpoints : WebhookTables → List EndpointView
unfolding public_endpoint_view
list_endpoints w = map public_endpoint_view (list_webhook_endpoints w)

pub delete_endpoint : Text → WebhookTables → Bool × WebhookTables
delete_endpoint = delete_webhook_endpoint

pub get_deliveries : Text → ℕ → WebhookTables → List Delivery
get_deliveries = get_webhook_deliveries

abbrev no_updates : EndpointUpdates
no_updates = record { url = none; secret = none; events = none; enabled = none; description = none }

abbrev found_or_raise : {A : Type 0} → (Endpoint → A) → Option Endpoint → Action WebhookTables A
found_or_raise f none = raise not_found
found_or_raise f (some e) = pure (f e)

-- A check that is skipped where there is nothing to check.
abbrev fails_on {ℓ} : {A : Type ℓ} → (A → Bool) → Option A → Bool
fails_on ok none = false
fails_on ok (some a) = not (ok a)

module _ (urlparse : Text → Option ParsedUrl) (production : Bool) where
  unfoldable pub register_endpoint :
      ℕ
      → Resolver
      → Text
      → Chars
      → Text
      → List Chars
      → Option Text
      → Bool
      → Action WebhookTables Endpoint
  unfolding validate_endpoint_url all_known
  register_endpoint now resolver id secret url events description enabled = do
    raise_if (not (validate_endpoint_url urlparse production resolver url)) value_error
    raise_if (not (all_known events)) value_error
    save_webhook_endpoint id (record {
      url = url;
      secret = secret;
      events = events;
      description = description;
      enabled = enabled;
      created_at = now;
    })

  -- The new values of `url`, `events`, `enabled` and `description`.
  unfoldable pub update_endpoint :
      ℕ
      → Resolver
      → Text
      → Option Text
      → Option (List Chars)
      → Option Bool
      → Option Text
      → Action WebhookTables EndpointView
  unfolding validate_endpoint_url all_known public_endpoint_view
  update_endpoint now resolver id url events enabled description = do
    raise_if (fails_on (validate_endpoint_url urlparse production resolver) url) value_error
    raise_if (fails_on all_known events) value_error
    raise_if (not (is_some url || is_some events || is_some enabled || is_some description))
        value_error
    updated ← call (
        update_webhook_endpoint now id (record {
          url = url;
          secret = none;
          events = events;
          enabled = enabled;
          description = description;
        }))
    found_or_raise public_endpoint_view updated

unfoldable pub rotate_endpoint_secret : ℕ → Text → Chars → Action WebhookTables Endpoint
rotate_endpoint_secret now id secret = do
  endpoint ← gets (get_webhook_endpoint id)
  raise_if (not (is_some endpoint)) not_found
  updated ← call (update_webhook_endpoint now id (record no_updates { secret = some secret }))
  found_or_raise (λ (e : Endpoint). e) updated
