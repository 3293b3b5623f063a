-- ===== src/Gateway/AccessTests.antt =====
-- Runs of the routes under /access/ and of the routing of service-gateway, and the theorems at such
-- inputs.
use rust_service.Base.{
  ℕ, String, ◌≡◌, refl, ◌⊎◌, Bool, true, Option, none, some, [], ◌∷◌, arith, string_partial_eq,
  nat_partial_eq, pair_partial_eq, ok, err, Bytes, bytes_of, IsOneOf, lookup, insert,
}
use rust_service.Auth.Error.{invalid_credentials, refuse_if, status_code, status_message}
use rust_service.Auth.Store.{StoredUser, by_email, find_user_by_email, statement, required}
use rust_service.Auth.Service.{login, authenticated}
use rust_service.Auth.Tests.{toy_world, toy_verdict, draw, db}
use rust_service.Gateway.Url.{
  urlencode, urldecode, decoded_bytes, plain_byte, push_byte, is_unreserved, hex_char,
}
use rust_service.Gateway.Proxy.{
  strip_prefix, Session, RequestCtx, Validated, passed, is_public_route, split_params, bearer,
  extract_token, is_too_long, authenticate, request_filter,
}
use rust_service.Gateway.Answers.{
  insert_cors_headers, read_full_body, AuthContext, SessionDto, Content, error_dto, respond_json,
  respond_error, respond_redirect, unauthenticated, Status,
}
use rust_service.Gateway.Access.{
  AuthTokens, AuthClient, Json, tokens_to_session, no_content, post_grpc_handler, to_lower, is_json,
  handle_login, handle_logout, redirect_uri, handle_oauth_start,
}
use rust_service.Gateway.Callback.{
  scan, scan_query, provider_of, join_and, fields, to_frontend, user_info, signed_in,
  handle_oauth_callback, get_route, post_route, handle_auth_route,
}
use rust_service.Gateway.Redirects.{Stays, callback-Stays}
use rust_service.Gateway.Upstream.{cors_only_allowed}
use rust_service.Gateway.Login.{sent_code, sent_status, IsConnected, login_answer}

abbrev ctx : AuthContext
ctx = record {
  origin = some (bytes_of "https://app");
  allowed_origins = bytes_of "https://app" ∷ [];
  request_id = bytes_of "r1";
  max_body_size = 20;
  frontend_url = bytes_of "https://app";
  oauth_callback_url = bytes_of "https://api/access/oauth/callback";
}

abbrev some_tokens : AuthTokens
some_tokens = record {
  access_token = bytes_of "a&b";
  refresh_token = bytes_of "r";
  access_expires_at = some 65;
}

abbrev some_session : SessionDto
some_session = record {
  dto_access_token = bytes_of "a&b";
  dto_refresh_token = bytes_of "r";
  expires_in = 60;
}

abbrev refusal : Status
refusal = record { grpc_code = unauthenticated; grpc_message = bytes_of "Invalid credentials" }

abbrev ann : Validated
ann = record { user_id = bytes_of "u1"; username = bytes_of "ann"; email = bytes_of "ann@mail.org" }

-- A service-auth that accepts a code and refuses every login.
abbrev client : AuthClient
client = record {
  login = λ email password. err refusal;
  register = λ email password username. err refusal;
  refresh = λ token. ok some_tokens;
  logout = λ token. ok tt;
  get_me = λ token. err refusal;
  update_user = λ token update. err refusal;
  o_auth_get_auth_url = λ provider uri. ok (bytes_of "https://provider");
  o_auth_authenticate = λ provider code uri. ok some_tokens;
  validate_token = λ token. ok ann;
}

-- Every body is the login that is tried.
abbrev json : Json
json = record {
  parse_login = λ body.
      ok (record { login_email = bytes_of "eve@mail.org"; login_password = bytes_of "guess" });
  parse_register = λ body. err body;
  parse_token = λ body. ok body;
  parse_update = λ body. err body;
}

abbrev valid : Bytes → Bool
valid s = true

abbrev sixty : ℕ → Bytes
sixty n = bytes_of "60"

abbrev query : Option Bytes
query = some (bytes_of "code=xy&provider=github")

callback-Stays_example :
    Stays valid sixty json client ctx 5 (handle_oauth_callback valid sixty json client ctx 5 query)
callback-Stays_example = callback-Stays valid sixty json client ctx 5 query

-- The state of the callback is not asked for: a query with a code and a provider is enough.
callback_location :
    lookup "location" (handle_oauth_callback valid sixty json client ctx 5 query).response_headers
    ≡ some (
        bytes_of
          "https://app/account/oauth-callback#access_token=a%26b&refresh_token=r&expires_in=60&user_id=u1&email=ann%40mail.org&username=ann")
unfolding handle_oauth_callback scan_query scan split_params strip_prefix urldecode decoded_bytes
    plain_byte push_byte provider_of signed_in tokens_to_session to_frontend respond_redirect
    user_info fields join_and urlencode is_unreserved hex_char lookup
callback_location = refl

abbrev answer_content : Content
answer_content = error_dto (bytes_of "Unauthorized")

cors_only_allowed_example :
    (ctx.origin ≡ some (bytes_of "https://app"))
    × ((ctx.allowed_origins ≡ []) ⊎ IsOneOf (bytes_of "https://app") ctx.allowed_origins)
unfolding respond_json insert_cors_headers insert lookup
cors_only_allowed_example = cors_only_allowed ctx 401 answer_content (bytes_of "https://app") refl

-- Another origin is told nothing.
other_origin :
    insert_cors_headers (some (bytes_of "https://evil")) (bytes_of "https://app" ∷ []) [] ≡ []
unfolding insert_cors_headers
other_origin = refl

-- With no list of origins every origin may read the answer, with credentials.
no_list :
    lookup "access-control-allow-origin"
      (insert_cors_headers (some (bytes_of "https://evil")) [] [])
    ≡ some (bytes_of "https://evil")
unfolding insert_cors_headers insert lookup
no_list = refl

abbrev to_channels : Session
to_channels = record {
  method = "GET";
  path = bytes_of "/channels";
  query = none;
  headers = ("authorization", bytes_of "Bearer t1") ∷ [];
  client_addr = bytes_of "10.0.0.1";
}

abbrev fresh : RequestCtx
fresh = record {
  bytes_read = 0;
  request_id = bytes_of "r1";
  user_id = none;
  username = none;
  email = none;
}

abbrev known : RequestCtx
known = record fresh {
  user_id = some ann.user_id;
  username = some ann.username;
  email = some ann.email;
}

filter_runs :
    request_filter (λ s. none) (λ token. some ann) 20 100 1 to_channels fresh ≡ passed known
unfolding request_filter is_too_long authenticate is_public_route extract_token bearer strip_prefix
    lookup
filter_runs = refl

body_runs :
    (read_full_body 3 [] (ok (1 ∷ 2 ∷ []) ∷ ok (3 ∷ []) ∷ []) ≡ ok (1 ∷ 2 ∷ 3 ∷ []))
    × (read_full_body 2 [] (ok (1 ∷ 2 ∷ []) ∷ ok (3 ∷ []) ∷ [])
        ≡ err (bytes_of "Request body too large"))
unfolding read_full_body
body_runs = (refl, refl)

abbrev plain : String → String → String
plain prefix text = prefix

eve_refused :
    (login toy_world (λ i. none) db draw "eve@mail.org" "guess").1 ≡ err invalid_credentials
unfolding login authenticated refuse_if find_user_by_email statement required by_email
eve_refused = refl

eve-IsConnected : IsConnected plain toy_world db draw client "eve@mail.org" "guess"
unfolding sent_status sent_code status_code status_message
eve-IsConnected e failed =
    let same : invalid_credentials ≡ e = ground (arith, failed, eve_refused) in rw⁻¹ same refl

login_answer_example :
    ((user : StoredUser) × (hash : String) × (by_email "eve@mail.org" db.users ≡ some user)
      × (user.password_hash ≡ some hash)
      × (toy_world.verify_password "guess" hash ≡ ok tt))
    ⊎ (handle_login json client ctx 5 (ok (bytes_of "body") ∷ [])
        ≡ respond_error ctx 401 (bytes_of "Invalid credentials"))
unfolding read_full_body
login_answer_example =
    login_answer plain toy_world db draw json client ctx 5 (ok (bytes_of "body") ∷ [])
      (bytes_of "body") "eve@mail.org" "guess" eve-IsConnected toy_verdict refl refl refl refl

-- The routes by method, path and type.
routes :
    ((handle_auth_route valid sixty json client ctx 5
        (record to_channels { method = "PUT" })
        []).status
      ≡ 405)
    × ((handle_auth_route valid sixty json client ctx 5
          (record to_channels { method = "POST" })
          []).status
        ≡ 415)
    × ((handle_auth_route valid sixty json client ctx 5
          (record to_channels { path = bytes_of "/access/oauth/google" })
          []).status
        ≡ 302)
    × ((handle_auth_route valid sixty json client ctx 5
          (record to_channels {
            method = "POST";
            path = bytes_of "/access/logout";
            headers = ("content-type", bytes_of "Application/JSON") ∷ [];
          })
          []).status
        ≡ 204)
unfolding handle_auth_route get_route post_route is_json to_lower handle_oauth_start redirect_uri
    respond_redirect respond_error respond_json strip_prefix lookup handle_logout post_grpc_handler
    read_full_body no_content
routes = (refl, refl, refl, refl)
