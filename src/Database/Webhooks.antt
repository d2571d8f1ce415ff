-- ===== src/Database/Webhooks.antt =====
-- tessera/db/memory.py: the webhook endpoints and the deliveries to them. Event types are strings,
-- URLs are only passed on.
-- `none` for a field that the caller leaves out.
use auth_manager.Audit.{or_default}
use auth_manager.Base.Chars.{Chars}
use auth_manager.Base.{
  Text, Option, ℕ, List, sort_by, Bool, ◌∷◌, take, none, ◌==◌, some, if◌then◌else◌, keep, nat_eq,
  [], leb, true, not, false, ◌++◌,
}
use auth_manager.Base.Errors.{Action, ◌>>◌, raise_if, value_error, modify, pure, integrity_error}
use auth_manager.Base.Dict.{Dict, lookup, values, insert, has_key, erase}

pub record NewEndpoint : Type 0 where
  pub url : Text
  pub secret : Chars
  pub events : List Chars
  pub description : Option Text
  pub enabled : Bool
  pub created_at : ℕ

pub record Endpoint : Type 0 where
  pub id : Text
  pub url : Text
  pub secret : Chars
  pub events : List Chars
  pub description : Option Text
  pub enabled : Bool
  pub created_at : ℕ
  pub updated_at : Option ℕ

-- The fields of `updates`; an option that is `none` is not among them.
pub record EndpointUpdates : Type 0 where
  pub url : Option Text
  pub secret : Option Chars
  pub events : Option (List Chars)
  pub enabled : Option Bool
  pub description : Option Text

-- Why a delivery failed.
pub data Failure : Type 0 where
  url_validation_failed delivery_error : Failure
  http_status : ℕ → Failure

pub record Delivery : Type 0 where
  pub endpoint_id : Text
  pub event_id : Text
  pub delivery_id : Text
  pub event_type : Chars
  pub success : Bool
  pub status_code : Option ℕ
  pub attempt : ℕ
  pub error : Option Failure
  pub created_at : ℕ

pub record WebhookTables : Type 0 where
  pub endpoints : Dict Text Endpoint
  pub deliveries : List Delivery

-- `save_webhook_endpoint`, with a fresh id.
unfoldable pub save_webhook_endpoint : Text → NewEndpoint → Action WebhookTables Endpoint
save_webhook_endpoint id e = do
  raise_if (e.url == 0) value_error
  let stored : Endpoint = record {
    id = id;
    url = e.url;
    secret = e.secret;
    events = e.events;
    description = e.description;
    enabled = e.enabled;
    created_at = e.created_at;
    updated_at = none;
  }
  modify (λ (w : WebhookTables). record w { endpoints = insert id stored w.endpoints })
  pure stored

unfoldable pub get_webhook_endpoint : Text → WebhookTables → Option Endpoint
get_webhook_endpoint id w = lookup id w.endpoints

unfoldable pub list_webhook_endpoints : WebhookTables → List Endpoint
list_webhook_endpoints w = sort_by (λ (e : Endpoint). e.created_at) (values w.endpoints)

abbrev pub patched : ℕ → EndpointUpdates → Endpoint → Endpoint
patched now u e = record e {
  url = or_default u.url e.url;
  secret = or_default u.secret e.secret;
  events = or_default u.events e.events;
  enabled = or_default u.enabled e.enabled;
  description = elim u.description [ none ↦ e.description | some d ↦ some d ];
  updated_at = some now;
}

unfoldable pub update_webhook_endpoint :
    ℕ → Text → EndpointUpdates → WebhookTables → Option Endpoint × WebhookTables
update_webhook_endpoint now id u w = elim (lookup id w.endpoints) [
  | none ↦ (none, w)
  | some e ↦
      (some (patched now u e), record w { endpoints = insert id (patched now u e) w.endpoints })
]

unfoldable pub delete_webhook_endpoint : Text → WebhookTables → Bool × WebhookTables
delete_webhook_endpoint id w =
    if has_key id w.endpoints
    then (
      true,
      record {
        endpoints = erase id w.endpoints;
        deliveries = keep (λ (d : Delivery). not (d.endpoint_id == id)) w.deliveries;
      },
    )
    else (false, w)

unfoldable pub save_webhook_delivery : Delivery → Action WebhookTables Delivery
save_webhook_delivery d w =
    (do
      raise_if (d.endpoint_id == 0) value_error
      raise_if (not (has_key d.endpoint_id w.endpoints)) integrity_error
      modify (λ (v : WebhookTables). record v { deliveries = v.deliveries ++ d ∷ [] })
      pure d)
      w

-- `sort(key=created_at, reverse=True)`, which keeps the order of equal times.
place_delivery : Delivery → List Delivery → List Delivery
place_delivery d [] = d ∷ []
place_delivery d (x ∷ xs) =
    if leb x.created_at d.created_at then d ∷ x ∷ xs else x ∷ place_delivery d xs

newest_deliveries : List Delivery → List Delivery
unfolding place_delivery
newest_deliveries [] = []
newest_deliveries (d ∷ ds) = place_delivery d (newest_deliveries ds)

unfoldable pub get_webhook_deliveries : Text → ℕ → WebhookTables → List Delivery
unfolding newest_deliveries
get_webhook_deliveries id limit w =
    take limit (newest_deliveries (keep (λ (d : Delivery). d.endpoint_id == id) w.deliveries))
