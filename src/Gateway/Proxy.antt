-- ===== src/Gateway/Proxy.antt =====
-- service-gateway/src/lib.rs: the filters that a request passes on its way to a service. A text is
-- the list of its bytes; header names are in lower case, since they compare without case.
-- `validate` stands for the call of service-auth, `parse_usize` for `str::parse`, `is_header` for
-- the check of a header's value, `observed` for the count of the rate limiter. `Headers` holds the
-- headers whose values are visible ASCII: wherever the filters read one, another counts as absent.
-- The type of the upstream, the origin and the log lines are left out of the context.
use rust_service.Base.{
  ℕ, ◌+◌, String, Bool, false, ◌&&◌, ◌||◌, Option, none, some, List, [], ◌∷◌, ltb, nat_beq,
  if◌then◌else◌, string_partial_eq, ◌==◌, nat_partial_eq, pair_partial_eq, Result, ok, err, ◌>>=◌,
  is_some, Bytes, length, bytes_of, Map, lookup, insert, remove,
}

unfoldable pub strip_prefix : Bytes → Bytes → Option Bytes
strip_prefix [] s = some s
strip_prefix (p ∷ prefix) [] = none
strip_prefix (p ∷ prefix) (b ∷ s) = if p == b then strip_prefix prefix s else none

abbrev pub starts_with : Bytes → String → Bool
starts_with s prefix = is_some (strip_prefix (bytes_of prefix) s)

abbrev pub Headers : Type 0
Headers = Map String Bytes

pub record Session : Type 0 where
  pub method : String
  pub path : Bytes
  pub query : Option Bytes
  pub headers : Headers
  pub client_addr : Bytes

pub record RequestCtx : Type 0 where
  pub bytes_read : ℕ
  pub request_id : Bytes
  pub user_id : Option Bytes
  pub username : Option Bytes
  pub email : Option Bytes

pub record Validated : Type 0 where
  pub user_id : Bytes
  pub username : Bytes
  pub email : Bytes

-- A status that ends the request, a route of the handlers under /access/, or the next filter.
pub data Filtered : Type 0 where
  answered : ℕ → Filtered
  handled : Filtered
  passed : RequestCtx → Filtered

-- `path == text`.
abbrev pub path_is : Bytes → String → Bool
path_is path text = starts_with path text && nat_beq (length path) (length (bytes_of text))

unfoldable pub is_public_route : String → Bytes → Bool
is_public_route method path =
    (starts_with path "/auth."
      || (starts_with path "/access/" || (path_is path "/ping" || path_is path "/metrics")))
    || (method == "GET" && starts_with path "/images/")

-- `query.split('&')`: the part before the first separator, and the parts after it.
unfoldable pub split_params : Bytes → Bytes × List Bytes
split_params [] = ([], [])
split_params (b ∷ s) =
    let (param, params) = split_params s in
    if b == 38 then ([], param ∷ params) else (b ∷ param, params)

unfoldable pub first_token : List Bytes → Option Bytes
first_token [] = none
first_token (param ∷ params) = elim (strip_prefix (bytes_of "token=") param) [
  | some token ↦ some token
  | none ↦ first_token params
]

unfoldable pub bearer : Headers → Option Bytes
bearer headers = elim (lookup "authorization" headers) [
  | none ↦ none
  | some auth ↦ strip_prefix (bytes_of "Bearer ") auth
]

unfoldable pub query_token : Option Bytes → Option Bytes
query_token none = none
query_token (some query) = first_token (let (param, params) = split_params query in param ∷ params)

unfoldable pub extract_token : Session → Option Bytes
extract_token session = elim (bearer session.headers) [
  | some token ↦ some token
  | none ↦
      if starts_with session.path "/ws" || starts_with session.path "/rooms/ws"
      then query_token session.query
      else none
]

-- The check of `Content-Length`, which passes over a value that is no number.
unfoldable pub is_too_long : (Bytes → Option ℕ) → ℕ → Headers → Bool
is_too_long parse_usize max_body_size headers = elim (lookup "content-length" headers) [
  | none ↦ false
  | some value ↦ elim (parse_usize value) [ none ↦ false | some n ↦ ltb max_body_size n ]
]

-- The last part of `request_filter`: a route that is not public needs a token that validates.
unfoldable pub authenticate : (Bytes → Option Validated) → Session → RequestCtx → Filtered
authenticate validate session ctx =
    if is_public_route session.method session.path
    then passed ctx
    else elim (extract_token session) [
      | none ↦ answered 401
      | some token ↦ elim (validate token) [
        | none ↦ answered 401
        | some resp ↦ passed (record ctx {
          user_id = some resp.user_id;
          username = some resp.username;
          email = some resp.email;
        })
      ]
    ]

unfoldable pub request_filter :
    (Bytes → Option ℕ) → (Bytes → Option Validated) → ℕ → ℕ → ℕ → Session → RequestCtx → Filtered
request_filter parse_usize validate max_body_size max_req_per_sec observed session ctx =
    if is_too_long parse_usize max_body_size session.headers
    then answered 413
    else if ltb max_req_per_sec observed
    then answered 429
    else if session.method == "OPTIONS"
    then answered 204
    else if starts_with session.path "/access/"
    then handled
    else authenticate validate session ctx

-- A chunk of the body, `none` where there is none; the error is the status.
unfoldable pub request_body_filter : ℕ → Option ℕ → RequestCtx → Result RequestCtx ℕ
request_body_filter max_body_size none ctx = ok ctx
request_body_filter max_body_size (some size) ctx =
    let read = ctx.bytes_read + size in
    if ltb max_body_size read then err 413 else ok (record ctx { bytes_read = read })

-- `insert_header`, which replaces every header of that name and refuses a value that is no header
-- value.
unfoldable pub insert_header : (Bytes → Bool) → String → Bytes → Headers → Result Headers String
insert_header is_header name value headers =
    if is_header value
    then ok (insert name value (remove name headers))
    else err "invalid header value"

-- `if let Some(value)`.
unfoldable pub insert_some :
    (Bytes → Bool) → String → Option Bytes → Headers → Result Headers String
insert_some is_header name none headers = ok headers
insert_some is_header name (some value) headers = insert_header is_header name value headers

unfoldable pub upstream_request_filter :
    (Bytes → Bool) → Session → Headers → RequestCtx → Result Headers String
upstream_request_filter is_header session upstream ctx =
    let bare =
      remove "x-request-id"
        (remove "x-email" (remove "x-username" (remove "x-user-id" upstream))) in
    let proto : Bytes = elim (lookup "x-forwarded-proto" session.headers) [
      | none ↦ bytes_of "http"
      | some value ↦ value
    ] in
    do
      h₁ ← insert_header is_header "x-forwarded-for" session.client_addr bare
      h₂ ← insert_header is_header "x-real-ip" session.client_addr h₁
      h₃ ← insert_header is_header "x-forwarded-proto" proto h₂
      h₄ ← insert_header is_header "x-request-id" ctx.request_id h₃
      h₅ ← insert_some is_header "x-user-id" ctx.user_id h₄
      h₆ ← insert_some is_header "x-username" ctx.username h₅
      h₇ ← insert_some is_header "x-email" ctx.email h₆
      insert_some is_header "x-forwarded-host" (lookup "host" h₇) h₇
