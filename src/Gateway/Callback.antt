-- ===== src/Gateway/Callback.antt =====
-- service-gateway/src/auth_handler.rs: `handle_oauth_callback` and the choice of the handler in
-- `handle_auth_route`. `is_utf8` stands for the check of `String::from_utf8` and `decimal` for the
-- text of an `i64` that is given by its 64 bits.
use rust_service.Base.{
  ℕ, String, Bool, not, Option, none, some, List, [], ◌∷◌, ◌++◌, if◌then◌else◌, string_partial_eq,
  ◌==◌, nat_partial_eq, pair_partial_eq, Result, ok, err, Bytes, bytes_of, same_bytes,
}
use rust_service.Gateway.Url.{urlencode, urldecode}
use rust_service.Gateway.Proxy.{strip_prefix, Session, Validated, path_is, split_params}
use rust_service.Gateway.Answers.{
  AuthContext, SessionDto, Response, respond_error, respond_redirect,
}
use rust_service.Gateway.Access.{
  AuthTokens, OAuthProvider, google, github, AuthClient, Json, tokens_to_session, is_json,
  handle_login, handle_register, handle_refresh, handle_logout, handle_get_me, handle_update_user,
  redirect_uri, handle_oauth_start,
}

-- The loop over the parameters: the last `code` and the last `provider` count.
unfoldable pub scan :
    (is_utf8 : Bytes → Bool)
    → Option Bytes × Option Bytes
    → List Bytes
    → Option Bytes × Option Bytes
scan is_utf8 (code, provider) [] = (code, provider)
scan is_utf8 (code, provider) (param ∷ params) = elim (strip_prefix (bytes_of "code=") param) [
  | some v ↦ scan is_utf8 (urldecode is_utf8 v, provider) params
  | none ↦ elim (strip_prefix (bytes_of "provider=") param) [
    | some v ↦ scan is_utf8 (code, some v) params
    | none ↦ scan is_utf8 (code, provider) params
  ]
]

unfoldable pub scan_query : (is_utf8 : Bytes → Bool) → Option Bytes → Option Bytes × Option Bytes
scan_query is_utf8 query =
    let text : Bytes = elim query [ none ↦ [] | some q ↦ q ] in
    let (param, params) = split_params text in scan is_utf8 (none, none) (param ∷ params)

unfoldable pub provider_of : Bytes → Option OAuthProvider
provider_of name =
    if same_bytes (bytes_of "google") name
    then some google
    else if same_bytes (bytes_of "github") name
    then some github
    else none

-- The fields of the fragment, joined.
abbrev pub field : String → Bytes → Bytes
field name value = bytes_of name ++ value

unfoldable pub join_and : List Bytes → Bytes
join_and [] = []
join_and (f ∷ []) = f
join_and (f ∷ g ∷ rest) = f ++ 38 ∷ join_and (g ∷ rest)

unfoldable pub fields : (decimal : ℕ → Bytes) → SessionDto → Validated → List Bytes
fields decimal session user =
    field "access_token=" (urlencode session.dto_access_token)
    ∷ field "refresh_token=" (urlencode session.dto_refresh_token)
    ∷ field "expires_in=" (decimal session.expires_in)
    ∷ field "user_id=" (urlencode user.user_id)
    ∷ field "email=" (urlencode user.email)
    ∷ field "username=" (urlencode user.username)
    ∷ []

module _ (is_utf8 : Bytes → Bool) (decimal : ℕ → Bytes) (json : Json) (client : AuthClient)
    (ctx : AuthContext) (now : ℕ) where
  -- A redirect to the frontend.
  unfoldable pub to_frontend : Bytes → Response
  to_frontend rest = respond_redirect ctx (ctx.frontend_url ++ rest)

  -- Who the new tokens belong to, empty where they do not validate.
  unfoldable pub user_info : Bytes → Validated
  user_info token = elim (client.validate_token token) [
    | ok user ↦ user
    | err s ↦ record { user_id = []; username = []; email = [] }
  ]

  unfoldable pub signed_in : AuthTokens → Response
  signed_in t = elim (tokens_to_session now t) [
    | err e ↦ to_frontend (bytes_of "/?error=internal_error")
    | ok session ↦ to_frontend (
        bytes_of "/account/oauth-callback#"
        ++ join_and (fields decimal session (user_info t.access_token)))
  ]

  unfoldable pub handle_oauth_callback : (query : Option Bytes) → Response
  handle_oauth_callback query =
      let (code, provider_str) = scan_query is_utf8 query in
      elim code [
        | none ↦ to_frontend (bytes_of "/?error=missing_code")
        | some given ↦ elim provider_str [
          | none ↦ to_frontend (bytes_of "/?error=unknown_provider")
          | some name ↦ elim (provider_of name) [
            | none ↦ to_frontend (bytes_of "/?error=unknown_provider")
            | some provider ↦
                elim (client.o_auth_authenticate provider given
                  (redirect_uri json client ctx now name)) [
                    | err s ↦ to_frontend (bytes_of "/?error=oauth_auth_failed")
                    | ok t ↦ signed_in t
                  ]
          ]
        ]
      ]

  -- The routes of a `GET`.
  unfoldable pub get_route : Session → Response
  get_route session =
      if path_is session.path "/access/oauth/google"
      then handle_oauth_start json client ctx now google (bytes_of "google")
      else if path_is session.path "/access/oauth/github"
      then handle_oauth_start json client ctx now github (bytes_of "github")
      else if path_is session.path "/access/oauth/callback"
      then handle_oauth_callback session.query
      else if path_is session.path "/access/users/me"
      then handle_get_me json client ctx now session.headers
      else respond_error ctx 405 (bytes_of "Method not allowed")

  -- The routes of a `POST` with JSON.
  unfoldable pub post_route : Session → List (Result Bytes Bytes) → Response
  post_route session chunks =
      if path_is session.path "/access/login"
      then handle_login json client ctx now chunks
      else if path_is session.path "/access/register"
      then handle_register json client ctx now chunks
      else if path_is session.path "/access/refresh"
      then handle_refresh json client ctx now chunks
      else if path_is session.path "/access/logout"
      then handle_logout json client ctx now chunks
      else respond_error ctx 404 (bytes_of "Not found")

  unfoldable pub handle_auth_route : Session → List (Result Bytes Bytes) → Response
  handle_auth_route session chunks =
      if session.method == "GET"
      then get_route session
      else if session.method == "PATCH"
      then (if path_is session.path "/access/users/me"
          then handle_update_user json client ctx now session.headers chunks
          else respond_error ctx 404 (bytes_of "Not found"))
      else if not (session.method == "POST")
      then respond_error ctx 405 (bytes_of "Method not allowed")
      else if not (is_json session.headers)
      then respond_error ctx 415 (bytes_of "Content-Type must be application/json")
      else post_route session chunks
