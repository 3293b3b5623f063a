-- ===== src/Gateway/Access.antt =====
-- service-gateway/src/auth_handler.rs: the routes under /access/, which turn HTTP into calls of
-- service-auth. `AuthClient` stands for the answers of service-auth and of the connection to it,
-- `Json` for the parsing of a body, whose error is a text.
use rust_service.Base.{
  ℕ, ◌+◌, ◌-◌, ◌%◌, ◌^◌, Bool, false, not, ◌&&◌, Option, none, some, List, [], ◌∷◌, ◌++◌, map, leb,
  if◌then◌else◌, string_partial_eq, nat_partial_eq, pair_partial_eq, Result, ok, err, Bytes,
  bytes_of, lookup,
}
use rust_service.Gateway.Proxy.{starts_with, Headers, Validated, bearer}
use rust_service.Gateway.Answers.{
  insert_cors_headers, read_full_body, AuthContext, UserDto, SessionDto, empty, user_dto,
  session_dto, auth_response, Response, respond_json, respond_error, respond_redirect, Status,
  respond_status,
}

pub record AuthTokens : Type 0 where
  pub access_token : Bytes
  pub refresh_token : Bytes
  pub access_expires_at : Option ℕ

pub record AuthUser : Type 0 where
  pub auth_user_id : Bytes
  pub auth_email : Bytes
  pub auth_username : Bytes
  pub tokens : Option AuthTokens

pub data OAuthProvider : Type 0 where
  google github : OAuthProvider

pub record LoginBody : Type 0 where
  pub login_email : Bytes
  pub login_password : Bytes

pub record RegisterBody : Type 0 where
  pub register_email : Bytes
  pub register_username : Bytes
  pub register_password : Bytes

pub record UpdateUserBody : Type 0 where
  pub new_username : Option Bytes
  pub new_bio : Option Bytes
  pub new_avatar_url : Option Bytes

pub record AuthClient : Type 0 where
  pub login : (email password : Bytes) → Result AuthUser Status
  pub register : (email password username : Bytes) → Result AuthUser Status
  pub refresh : (token : Bytes) → Result AuthTokens Status
  pub logout : (token : Bytes) → Result (Unit {0}) Status
  pub get_me : (token : Bytes) → Result UserDto Status
  pub update_user : (token : Bytes) → UpdateUserBody → Result UserDto Status
  pub o_auth_get_auth_url : OAuthProvider → (redirect_uri : Bytes) → Result Bytes Status
  pub o_auth_authenticate : OAuthProvider → (code redirect_uri : Bytes) → Result AuthTokens Status
  pub validate_token : (token : Bytes) → Result Validated Status

pub record Json : Type 0 where
  pub parse_login : Bytes → Result LoginBody Bytes
  pub parse_register : Bytes → Result RegisterBody Bytes
  pub parse_token : Bytes → Result Bytes Bytes
  pub parse_update : Bytes → Result UpdateUserBody Bytes

-- `now` is the clock in seconds; the difference of two `i64` is taken in 64 bits.
unfoldable pub tokens_to_session : (now : ℕ) → AuthTokens → Result SessionDto Bytes
tokens_to_session now t = elim t.access_expires_at [
  | none ↦ err (bytes_of "Auth response missing token expiry")
  | some seconds ↦ ok (record {
    dto_access_token = t.access_token;
    dto_refresh_token = t.refresh_token;
    expires_in = (seconds + (2 ^ 64 - now % 2 ^ 64)) % 2 ^ 64;
  })
]

-- `AuthUserResult::into_response`, for a status of success.
unfoldable pub user_result : AuthContext → (now success : ℕ) → AuthUser → Response
user_result ctx now success u = elim u.tokens [
  | none ↦ respond_error ctx 500 (bytes_of "Internal server error")
  | some t ↦ elim (tokens_to_session now t) [
    | err e ↦ respond_error ctx 500 (bytes_of "Internal server error")
    | ok session ↦
        let user : UserDto = record {
          id = u.auth_user_id;
          dto_email = u.auth_email;
          dto_username = u.auth_username;
          avatar_url = none;
          bio = none;
        } in
        respond_json ctx success (auth_response user session)
  ]
]

unfoldable pub tokens_result : AuthContext → (now : ℕ) → AuthTokens → Response
tokens_result ctx now t = elim (tokens_to_session now t) [
  | err e ↦ respond_error ctx 500 (bytes_of "Internal server error")
  | ok session ↦ respond_json ctx 200 (session_dto session)
]

unfoldable pub no_content : AuthContext → Response
no_content ctx = record {
  status = 204;
  response_headers =
      insert_cors_headers ctx.origin ctx.allowed_origins (("x-request-id", ctx.request_id) ∷ []);
  content = empty;
}

-- `post_grpc_handler`: the body, its parsing, the call, and what becomes of its answer.
unfoldable pub post_grpc_handler :
    {B R : Type 0}
    → AuthContext
    → List (Result Bytes Bytes)
    → (parse : Bytes → Result B Bytes) → (handler : B → Result R Status)
    → (into_response : R → Response) → Response
post_grpc_handler ctx chunks parse handler into_response =
    elim (read_full_body ctx.max_body_size [] chunks) [
      | err e ↦ respond_error ctx 400 e
      | ok body ↦ elim (parse body) [
        | err e ↦ respond_error ctx 400 e
        | ok parsed ↦ elim (handler parsed) [
          | err s ↦ respond_status ctx s
          | ok result ↦ into_response result
        ]
      ]
    ]

-- `to_ascii_lowercase` of a byte.
unfoldable pub to_lower : ℕ → ℕ
to_lower b = if leb 65 b && leb b 90 then b + 32 else b

unfoldable pub is_json : Headers → Bool
is_json headers = elim (lookup "content-type" headers) [
  | none ↦ false
  | some value ↦ starts_with (map to_lower value) "application/json"
]

module _ (json : Json) (client : AuthClient) (ctx : AuthContext) (now : ℕ) where
  unfoldable pub handle_login : List (Result Bytes Bytes) → Response
  handle_login chunks =
      post_grpc_handler ctx chunks json.parse_login
        (λ body. client.login body.login_email body.login_password) (user_result ctx now 200)

  unfoldable pub handle_register : List (Result Bytes Bytes) → Response
  handle_register chunks =
      post_grpc_handler ctx chunks json.parse_register
        (λ body. client.register body.register_email body.register_password body.register_username)
        (user_result ctx now 201)

  unfoldable pub handle_refresh : List (Result Bytes Bytes) → Response
  handle_refresh chunks =
      post_grpc_handler ctx chunks json.parse_token client.refresh (tokens_result ctx now)

  unfoldable pub handle_logout : List (Result Bytes Bytes) → Response
  handle_logout chunks =
      post_grpc_handler ctx chunks json.parse_token client.logout (λ done. no_content ctx)

  unfoldable pub handle_get_me : Headers → Response
  handle_get_me headers = elim (bearer headers) [
    | none ↦ respond_error ctx 401 (bytes_of "Unauthorized")
    | some token ↦ elim (client.get_me token) [
      | err s ↦ respond_status ctx s
      | ok profile ↦ respond_json ctx 200 (user_dto profile)
    ]
  ]

  unfoldable pub handle_update_user : Headers → List (Result Bytes Bytes) → Response
  handle_update_user headers chunks = elim (bearer headers) [
    | none ↦ respond_error ctx 401 (bytes_of "Unauthorized")
    | some token ↦
        if not (is_json headers)
        then respond_error ctx 415 (bytes_of "Content-Type must be application/json")
        else post_grpc_handler ctx chunks json.parse_update (client.update_user token)
            (λ profile. respond_json ctx 200 (user_dto profile))
  ]

  -- The name of a provider in the callback's address.
  unfoldable pub redirect_uri : (provider_name : Bytes) → Bytes
  redirect_uri provider_name = ctx.oauth_callback_url ++ bytes_of "?provider=" ++ provider_name

  unfoldable pub handle_oauth_start : OAuthProvider → (provider_name : Bytes) → Response
  handle_oauth_start provider provider_name =
      elim (client.o_auth_get_auth_url provider (redirect_uri provider_name)) [
        | ok url ↦ respond_redirect ctx url
        | err s ↦ respond_redirect ctx (ctx.frontend_url ++ bytes_of "/?error=oauth_failed")
      ]
