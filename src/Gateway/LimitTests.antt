-- ===== src/Gateway/LimitTests.antt =====
-- Windows of the rate limiter of service-gateway.
use rust_service.Base.{
  ℕ, ◌+◌, ◌≤◌, ◌≡◌, refl, true, Option, none, some, List, [], ◌∷◌, arith, string_partial_eq,
  nat_partial_eq, pair_partial_eq, ok, err, Bytes, bytes_of, bytes_partial_eq, lookup,
}
use rust_service.Gateway.Proxy.{
  strip_prefix, RequestCtx, Validated, answered, passed, is_public_route, is_too_long, authenticate,
  request_filter,
}
use rust_service.Gateway.Answers.{route_upstream, auth}
use rust_service.Gateway.Limit.{
  rate_limit_key, Rate, occurrences, IsRate, Arrival, let_through, window, Config, is_grpc,
  upstream_peer,
}
use rust_service.Gateway.Window.{window_limit}

abbrev exact : Rate
exact earlier key = 1 + occurrences key earlier

exact-IsRate : IsRate exact
exact-IsRate earlier key = omega arith

abbrev fresh : RequestCtx
fresh = record {
  bytes_read = 0;
  request_id = bytes_of "r1";
  user_id = none;
  username = none;
  email = none;
}

abbrev request : Bytes → Arrival
request appid = (
  record {
    method = "GET";
    path = bytes_of "/images/a.png";
    query = none;
    headers = ("appid", appid) ∷ [];
    client_addr = bytes_of "10.0.0.7:4000";
  },
  some (bytes_of "10.0.0.7"),
  fresh,
)

abbrev no_number : Bytes → Option ℕ
no_number s = none

abbrev no_user : Bytes → Option Validated
no_user token = none

abbrev thrice : List Arrival
thrice = request (bytes_of "a") ∷ request (bytes_of "a") ∷ request (bytes_of "a") ∷ []

thrice_runs :
    window no_number no_user exact 20 2 [] thrice ≡ passed fresh ∷ passed fresh ∷ answered 429 ∷ []
unfolding window rate_limit_key request_filter is_too_long authenticate is_public_route strip_prefix
    lookup
thrice_runs = refl

window_limit_example :
    let_through (bytes_of "a") thrice (window no_number no_user exact 20 2 [] thrice) ≤ 2
window_limit_example = window_limit no_number no_user exact 20 2 (bytes_of "a") thrice exact-IsRate

-- One client that names another `appid` each time is not limited.
renamed_runs :
    window no_number no_user exact 20 1 [] (request (bytes_of "a") ∷ request (bytes_of "b") ∷ [])
    ≡ passed fresh ∷ passed fresh ∷ []
unfolding window rate_limit_key request_filter is_too_long authenticate is_public_route strip_prefix
    lookup
renamed_runs = refl

abbrev seconds : Config
seconds = record {
  connection_timeout_secs = 3;
  total_connection_timeout_secs = 10;
  read_timeout_secs = 30;
  write_timeout_secs = 30;
}

peers_run :
    (upstream_peer seconds (bytes_of "/auth.AuthService/Login")
      ≡ ok (record {
        upstream = auth;
        speaks_h2 = true;
        connection_timeout = 3;
        total_connection_timeout = 10;
        read_timeout = 30;
        write_timeout = 30;
      }))
    × (upstream_peer seconds (bytes_of "/other") ≡ err 404)
unfolding upstream_peer route_upstream strip_prefix is_grpc
peers_run = (refl, refl)
