-- ===== src/Gateway/Answers.antt =====
-- service-gateway: CORS headers and the choice of the upstream (lib.rs), reading a whole body and
-- writing an answer (auth_handler.rs). Every header value that is written here is a valid one.
use rust_service.Base.{
  ℕ, ◌||◌, Option, none, some, List, [], ◌∷◌, ◌++◌, ltb, nat_beq, if◌then◌else◌, string_partial_eq,
  nat_partial_eq, pair_partial_eq, Result, ok, err, Bytes, length, bytes_of, any_same, insert,
}
use rust_service.Gateway.Proxy.{starts_with, Headers}

unfoldable pub insert_cors_headers :
    (origin : Option Bytes) (allowed_origins : List Bytes) → Headers → Headers
insert_cors_headers none allowed_origins headers = headers
insert_cors_headers (some o) allowed_origins headers =
    if nat_beq (length allowed_origins) 0 || any_same o allowed_origins
    then insert "vary" (bytes_of "Origin") (
        insert "access-control-allow-credentials" (bytes_of "true")
          (insert "access-control-allow-origin" o headers))
    else headers

-- `respond_cors_preflight`, the answer to `OPTIONS` with the status 204, by its headers.
unfoldable pub respond_cors_preflight :
    (origin : Option Bytes) (allowed_origins : List Bytes) → Headers
respond_cors_preflight origin allowed_origins = insert "access-control-max-age" (bytes_of "86400") (
    insert "access-control-allow-headers" (bytes_of "Content-Type, Authorization") (
      insert "access-control-allow-methods" (bytes_of "GET, POST, PUT, PATCH, DELETE, OPTIONS")
        (insert_cors_headers origin allowed_origins [])))

-- The headers of a service's answer on its way to the client.
unfoldable pub upstream_response_filter :
    (origin : Option Bytes) (allowed_origins : List Bytes) (request_id : Bytes) → Headers → Headers
upstream_response_filter origin allowed_origins request_id headers =
    insert "x-request-id" request_id (insert_cors_headers origin allowed_origins headers)

-- The services behind the gateway.
pub data Upstream : Type 0 where
  images chats channels calls auth : Upstream

-- The upstream of a path, or the status of the error. Only that of `auth` speaks gRPC.
unfoldable pub route_upstream : Bytes → Result Upstream ℕ
route_upstream path =
    if starts_with path "/images"
    then ok images
    else if starts_with path "/ws"
    then ok chats
    else if starts_with path "/channels"
    then ok channels
    else if starts_with path "/rooms"
    then ok calls
    else if starts_with path "/auth."
    then ok auth
    else if starts_with path "/access/"
    then err 500
    else err 404

-- `read_full_body`: a chunk, or the text that an error of the connection becomes.
unfoldable pub read_full_body :
    (max_size : ℕ) → (buf : Bytes) → List (Result Bytes Bytes) → Result Bytes Bytes
read_full_body max_size buf [] = ok buf
read_full_body max_size buf (err e ∷ chunks) = err e
read_full_body max_size buf (ok chunk ∷ chunks) =
    if ltb max_size (length (buf ++ chunk))
    then err (bytes_of "Request body too large")
    else read_full_body max_size (buf ++ chunk) chunks

-- What the handlers know of the request and the configuration.
pub record AuthContext : Type 0 where
  pub origin : Option Bytes
  pub allowed_origins : List Bytes
  pub request_id : Bytes
  pub max_body_size : ℕ
  pub frontend_url : Bytes
  pub oauth_callback_url : Bytes

-- The objects that go out as JSON.
pub record UserDto : Type 0 where
  pub id : Bytes
  pub dto_email : Bytes
  pub dto_username : Bytes
  pub avatar_url : Option Bytes
  pub bio : Option Bytes

-- `expires_in` is an `i64`, written as its 64 bits.
pub record SessionDto : Type 0 where
  pub dto_access_token : Bytes
  pub dto_refresh_token : Bytes
  pub expires_in : ℕ

pub data Content : Type 0 where
  empty : Content
  error_dto : Bytes → Content
  user_dto : UserDto → Content
  session_dto : SessionDto → Content
  auth_response : UserDto → SessionDto → Content

pub record Response : Type 0 where
  pub status : ℕ
  pub response_headers : Headers
  pub content : Content

-- The `Content-Length` is left out.
unfoldable pub respond_json : AuthContext → ℕ → Content → Response
respond_json ctx status content = record {
  status = status;
  response_headers =
      insert_cors_headers ctx.origin ctx.allowed_origins
        (("content-type", bytes_of "application/json") ∷ ("x-request-id", ctx.request_id) ∷ []);
  content = content;
}

unfoldable pub respond_error : AuthContext → ℕ → Bytes → Response
respond_error ctx status message = respond_json ctx status (error_dto message)

unfoldable pub respond_redirect : AuthContext → (location : Bytes) → Response
respond_redirect ctx location = record {
  status = 302;
  response_headers = ("location", location) ∷ ("x-request-id", ctx.request_id) ∷ [];
  content = empty;
}

-- The codes that gRPC has beside `ok`.
pub data Code : Type 0 where
  cancelled unknown invalid_argument deadline_exceeded not_found already_exists : Code
  permission_denied resource_exhausted failed_precondition aborted out_of_range : Code
  unimplemented internal unavailable data_loss unauthenticated : Code

pub record Status : Type 0 where
  pub grpc_code : Code
  pub grpc_message : Bytes

unfoldable pub grpc_status_to_http : Code → ℕ
grpc_status_to_http invalid_argument = 400
grpc_status_to_http unauthenticated = 401
grpc_status_to_http permission_denied = 403
grpc_status_to_http not_found = 404
grpc_status_to_http already_exists = 409
grpc_status_to_http resource_exhausted = 429
grpc_status_to_http other = 500

unfoldable pub respond_status : AuthContext → Status → Response
respond_status ctx s = respond_error ctx (grpc_status_to_http s.grpc_code) s.grpc_message
