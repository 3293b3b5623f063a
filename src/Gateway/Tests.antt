-- ===== src/Gateway/Tests.antt =====
-- Runs of service-gateway on small inputs, and the theorems at such inputs.
use rust_service.Base.{
  ◌≡◌, refl, true, none, some, [], ◌∷◌, arith, leb, if◌then◌else◌, string_partial_eq,
  nat_partial_eq, pair_partial_eq, ok, err, bytes_of, lookup, insert, remove,
}
use rust_service.Gateway.Proxy.{
  strip_prefix, Headers, Session, RequestCtx, Validated, passed, is_public_route, bearer,
  extract_token, is_too_long, authenticate, request_filter, insert_header, insert_some,
  upstream_request_filter,
}
use rust_service.Gateway.Identity.{identity_is_own}
use rust_service.Gateway.Body.{forward_body, body_bounded}

abbrev session : Session
session = record {
  method = "GET";
  path = bytes_of "/channels";
  query = none;
  headers = ("authorization", bytes_of "Bearer t1") ∷ [];
  client_addr = bytes_of "10.0.0.1";
}

abbrev fresh : RequestCtx
fresh = record {
  bytes_read = 0;
  request_id = bytes_of "r1";
  user_id = none;
  username = none;
  email = none;
}

abbrev ann : Validated
ann = record { user_id = bytes_of "u1"; username = bytes_of "ann"; email = bytes_of "ann@mail.org" }

abbrev known : RequestCtx
known = record fresh {
  user_id = some ann.user_id;
  username = some ann.username;
  email = some ann.email;
}

-- The client claims to be somebody else.
abbrev claimed : Headers
claimed = ("x-user-id", bytes_of "admin") ∷ ("host", bytes_of "api") ∷ []

abbrev sent : Headers
sent =
    ("host", bytes_of "api")
    ∷ ("x-forwarded-for", bytes_of "10.0.0.1")
    ∷ ("x-real-ip", bytes_of "10.0.0.1")
    ∷ ("x-forwarded-proto", bytes_of "http")
    ∷ ("x-request-id", bytes_of "r1")
    ∷ ("x-user-id", bytes_of "u1")
    ∷ ("x-username", bytes_of "ann")
    ∷ ("x-email", bytes_of "ann@mail.org")
    ∷ ("x-forwarded-host", bytes_of "api")
    ∷ []

upstream_runs : upstream_request_filter (λ v. true) session claimed known ≡ ok sent
unfolding upstream_request_filter insert_header insert_some lookup insert remove
upstream_runs = refl

filter_runs : request_filter (λ v. none) (λ t. some ann) 100 10 1 session fresh ≡ passed known
unfolding request_filter authenticate is_too_long is_public_route extract_token bearer strip_prefix
    lookup
filter_runs = refl

identity_is_own_example :
    (lookup "x-user-id" sent ≡ some (bytes_of "u1"))
    × (lookup "x-username" sent ≡ some (bytes_of "ann"))
    × (lookup "x-email" sent ≡ some (bytes_of "ann@mail.org"))
    × (lookup "x-request-id" sent ≡ some (bytes_of "r1"))
identity_is_own_example = identity_is_own (λ v. true) session claimed sent known upstream_runs

body_bounded_example :
    forward_body 100 (some 60 ∷ none ∷ some 50 ∷ []) fresh
    ≡ (if leb 110 100 then ok (record fresh { bytes_read = 110 }) else err 413)
body_bounded_example = body_bounded 100 (some 60 ∷ none ∷ some 50 ∷ []) fresh (omega arith)
