-- ===== src/Routing/Tables.antt =====
-- `init_router` in service-calls/src/lib.rs, service-channels/src/lib.rs, service-chats/src/lib.rs and
-- service-images/src/lib.rs: the routes with their handlers. The choice among them is axum's, and so
-- a parameter; `IsRouter` is what axum says of it.
use rust_service.Base.{
  String, ◌≡◌, ◌⊎◌, Option, some, List, [], ◌∷◌, ◌++◌, string_partial_eq, nat_partial_eq,
  pair_partial_eq, Bytes, bytes_of, bytes_partial_eq,
}
use rust_service.Gateway.Answers.{Upstream, images, chats, channels, calls, auth}

-- The handlers, by the names that they have in their services.
pub data Handler : Type 0 where
  ping list_rooms create_room get_room delete_room ws_handler : Handler
  get_channels create_channel search_channels get_channel update_channel delete_channel : Handler
  get_user_subscriptions get_channel_subscribers check_subscription : Handler
  subscribe unsubscribe transfer_ownership : Handler
  websocket_handler upload_image download_image delete_image : Handler

-- A part of a path between two slashes: a text, or any.
pub data Segment : Type 0 where
  fixed : Bytes → Segment
  parameter : Segment

pub record Route : Type 0 where
  pub pattern : List Segment
  pub methods : List (String × Handler)

unfoldable pub calls_router : List Route
calls_router =
    record { pattern = fixed (bytes_of "ping") ∷ []; methods = ("GET", ping) ∷ [] }
    ∷ record {
      pattern = fixed (bytes_of "rooms") ∷ [];
      methods = ("GET", list_rooms) ∷ ("POST", create_room) ∷ [];
    }
    ∷ record {
      pattern = fixed (bytes_of "rooms") ∷ parameter ∷ [];
      methods = ("GET", get_room) ∷ ("DELETE", delete_room) ∷ [];
    }
    ∷ record {
      pattern = fixed (bytes_of "rooms") ∷ fixed (bytes_of "ws") ∷ parameter ∷ [];
      methods = ("GET", ws_handler) ∷ [];
    }
    ∷ []

unfoldable pub channels_router : List Route
channels_router =
    record { pattern = fixed (bytes_of "ping") ∷ []; methods = ("GET", ping) ∷ [] }
    ∷ record {
      pattern = fixed (bytes_of "channels") ∷ [];
      methods = ("GET", get_channels) ∷ ("POST", create_channel) ∷ [];
    }
    ∷ record {
      pattern = fixed (bytes_of "channels") ∷ fixed (bytes_of "search") ∷ [];
      methods = ("GET", search_channels) ∷ [];
    }
    ∷ record {
      pattern = fixed (bytes_of "channels") ∷ parameter ∷ [];
      methods = ("GET", get_channel) ∷ ("PATCH", update_channel) ∷ ("DELETE", delete_channel) ∷ [];
    }
    ∷ record {
      pattern =
          fixed (bytes_of "channels")
          ∷ fixed (bytes_of "sub")
          ∷ fixed (bytes_of "user")
          ∷ parameter
          ∷ [];
      methods = ("GET", get_user_subscriptions) ∷ [];
    }
    ∷ record {
      pattern =
          fixed (bytes_of "channels")
          ∷ fixed (bytes_of "sub")
          ∷ fixed (bytes_of "channel")
          ∷ parameter
          ∷ [];
      methods = ("GET", get_channel_subscribers) ∷ [];
    }
    ∷ record {
      pattern =
          fixed (bytes_of "channels")
          ∷ parameter
          ∷ fixed (bytes_of "subscribers")
          ∷ fixed (bytes_of "check")
          ∷ [];
      methods = ("GET", check_subscription) ∷ [];
    }
    ∷ record {
      pattern = fixed (bytes_of "channels") ∷ parameter ∷ fixed (bytes_of "subscribe") ∷ [];
      methods = ("POST", subscribe) ∷ ("DELETE", unsubscribe) ∷ [];
    }
    ∷ record {
      pattern =
          fixed (bytes_of "channels") ∷ parameter ∷ fixed (bytes_of "transfer") ∷ parameter ∷ [];
      methods = ("POST", transfer_ownership) ∷ [];
    }
    ∷ []

unfoldable pub chats_router : List Route
chats_router =
    record { pattern = fixed (bytes_of "ping") ∷ []; methods = ("GET", ping) ∷ [] }
    ∷ record {
      pattern = fixed (bytes_of "ws") ∷ parameter ∷ [];
      methods = ("GET", websocket_handler) ∷ [];
    }
    ∷ []

unfoldable pub images_router : List Route
images_router =
    record { pattern = fixed (bytes_of "ping") ∷ []; methods = ("GET", ping) ∷ [] }
    ∷ record {
      pattern = fixed (bytes_of "images") ∷ fixed (bytes_of "upload") ∷ [];
      methods = ("POST", upload_image) ∷ [];
    }
    ∷ record {
      pattern = fixed (bytes_of "images") ∷ parameter ∷ [];
      methods = ("GET", download_image) ∷ ("DELETE", delete_image) ∷ [];
    }
    ∷ []

-- The routes of a service; that of `auth` speaks gRPC and has none.
abbrev pub router_of : Upstream → List Route
router_of images = images_router
router_of chats = chats_router
router_of channels = channels_router
router_of calls = calls_router
router_of auth = []

-- A path that a pattern describes.
abbrev pub Fits : List Segment → Bytes → Type 0
Fits [] path = path ≡ []
Fits (fixed text ∷ pattern) path = (rest : Bytes) × (path ≡ 47 ∷ text ++ rest) × Fits pattern rest
Fits (parameter ∷ pattern) path =
    (name : Bytes) × (rest : Bytes) × (path ≡ 47 ∷ name ++ rest) × Fits pattern rest

-- A method is served by its handler, and `HEAD` by that of `GET`.
abbrev pub Serves : List (String × Handler) → String → Handler → Type 0
Serves [] method chosen = ⊥
Serves ((m, h) ∷ methods) method chosen =
    (((m ≡ method) ⊎ ((m ≡ "GET") × (method ≡ "HEAD"))) × (h ≡ chosen))
    ⊎ Serves methods method chosen

abbrev pub Listed : List Route → String → Bytes → Handler → Type 0
Listed [] method path chosen = ⊥
Listed (route ∷ routes) method path chosen =
    (Fits route.pattern path × Serves route.methods method chosen)
    ⊎ Listed routes method path chosen

abbrev pub Dispatch : Type 0
Dispatch = List Route → (method : String) → (path : Bytes) → Option Handler

-- A handler is called only for a path that its route describes and a method that it serves.
abbrev pub IsRouter : Dispatch → Type 0
IsRouter dispatch =
    (routes : List Route) (method : String) (path : Bytes) (chosen : Handler)
    → dispatch routes method path ≡ some chosen
    → Listed routes method path chosen
