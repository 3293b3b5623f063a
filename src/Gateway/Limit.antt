-- ===== src/Gateway/Limit.antt =====
-- service-gateway/src/lib.rs: the key of the rate limiter, the requests of one of its windows, the
-- answers that end a request and the peer of one that goes on. `observed` is `Rate::observe` of
-- pingora-limits: the count that it gives for a key after the keys of the same window. The address
-- of the client is an argument, where it has one, and so is the answer of pingora to `respond_error`.
use rust_service.Base.{
  ℕ, ◌+◌, ◌≤◌, Bool, true, false, not, ◌&&◌, ◌||◌, Option, none, some, List, [], ◌∷◌, if◌then◌else◌,
  string_partial_eq, ◌==◌, nat_partial_eq, pair_partial_eq, Result, ok, ◌>>=◌, Bytes, bytes_of,
  same_bytes, bytes_partial_eq, keys, lookup,
}
use rust_service.Gateway.Proxy.{
  Headers, Session, RequestCtx, Validated, Filtered, answered, handled, passed, is_too_long,
  request_filter,
}
use rust_service.Gateway.Answers.{
  insert_cors_headers, Upstream, auth, route_upstream, empty, error_dto, Response,
}

unfoldable pub rate_limit_key : (client_ip : Option Bytes) → Headers → Bytes
rate_limit_key client_ip headers = elim (lookup "appid" headers) [
  | some appid ↦ appid
  | none ↦ elim client_ip [ some ip ↦ ip | none ↦ bytes_of "unknown" ]
]

-- Neither 413 nor 429.
abbrev pub is_let_through : Filtered → Bool
is_let_through (answered status) = not (status == 413 || status == 429)
is_let_through handled = true
is_let_through (passed ctx) = true

abbrev pub Rate : Type 0
Rate = (earlier : List Bytes) → (key : Bytes) → ℕ

-- How often a key was observed.
abbrev pub occurrences : Bytes → List Bytes → ℕ
occurrences key [] = 0
occurrences key (k ∷ keys) =
    if same_bytes k key then 1 + occurrences key keys else occurrences key keys

-- The limiter estimates by a sketch, which counts no observation too few.
abbrev pub IsRate : Rate → Type 0
IsRate observed =
    (earlier : List Bytes) (key : Bytes) → 1 + occurrences key earlier ≤ observed earlier key

-- A request with the address of its client.
abbrev pub Arrival : Type 0
Arrival = Session × Option Bytes × RequestCtx

-- The requests of a key that the limits let through: neither 413 nor 429.
abbrev pub let_through : Bytes → List Arrival → List Filtered → ℕ
let_through key [] outcomes = 0
let_through key (arrival ∷ arrivals) [] = 0
let_through key ((session, client_ip, ctx) ∷ arrivals) (outcome ∷ outcomes) =
    let rest = let_through key arrivals outcomes in
    if same_bytes (rate_limit_key client_ip session.headers) key && is_let_through outcome
    then 1 + rest
    else rest

-- The requests of one window, in their order, with the keys that the limiter has seen. A request
-- that is too long is answered before it is counted.
module _ (parse_usize : Bytes → Option ℕ) (validate : Bytes → Option Validated) (observed : Rate)
    (max_body_size max_req_per_sec : ℕ) where
  unfoldable pub window : (earlier : List Bytes) → List Arrival → List Filtered
  window earlier [] = []
  window earlier ((session, client_ip, ctx) ∷ arrivals) =
      let key = rate_limit_key client_ip session.headers in
      let seen =
        if is_too_long parse_usize max_body_size session.headers then earlier else key ∷ earlier in
      request_filter parse_usize validate max_body_size max_req_per_sec (observed earlier key)
        session ctx
      ∷ window seen arrivals

-- `respond_unauthorized`.
unfoldable pub respond_unauthorized :
    (origin : Option Bytes) (allowed_origins : List Bytes) (request_id : Bytes) → Response
respond_unauthorized origin allowed_origins request_id = record {
  status = 401;
  response_headers = insert_cors_headers origin allowed_origins (
      ("content-type", bytes_of "application/json")
      ∷ ("www-authenticate", bytes_of "Bearer")
      ∷ ("x-request-id", request_id)
      ∷ []);
  content = error_dto (bytes_of "Unauthorized");
}

-- The answer to a request over the limit; `digits` is the text of a number.
unfoldable pub respond_rate_limited : (digits : ℕ → Bytes) (max_req_per_sec : ℕ) → Response
respond_rate_limited digits max_req_per_sec = record {
  status = 429;
  response_headers =
      ("x-rate-limit-limit", digits max_req_per_sec)
      ∷ ("x-rate-limit-remaining", bytes_of "0")
      ∷ ("x-rate-limit-reset", bytes_of "1")
      ∷ [];
  content = empty;
}

-- The context of a new request.
unfoldable pub new_ctx : (request_id : Bytes) → RequestCtx
new_ctx request_id = record {
  bytes_read = 0;
  request_id = request_id;
  user_id = none;
  username = none;
  email = none;
}

-- Where a request goes, with the seconds of its time limits.
pub record HttpPeer : Type 0 where
  pub upstream : Upstream
  pub speaks_h2 : Bool
  pub connection_timeout : ℕ
  pub total_connection_timeout : ℕ
  pub read_timeout : ℕ
  pub write_timeout : ℕ

pub record Config : Type 0 where
  pub connection_timeout_secs : ℕ
  pub total_connection_timeout_secs : ℕ
  pub read_timeout_secs : ℕ
  pub write_timeout_secs : ℕ

-- `Upstream::is_grpc`.
unfoldable pub is_grpc : Upstream → Bool
is_grpc auth = true
is_grpc other = false

unfoldable pub upstream_peer : Config → (path : Bytes) → Result HttpPeer ℕ
upstream_peer config path = do
  up ← route_upstream path
  ok (record {
    upstream = up;
    speaks_h2 = is_grpc up;
    connection_timeout = config.connection_timeout_secs;
    total_connection_timeout = config.total_connection_timeout_secs;
    read_timeout = config.read_timeout_secs;
    write_timeout = config.write_timeout_secs;
  })
