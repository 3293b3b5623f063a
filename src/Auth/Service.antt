-- ===== src/Auth/Service.antt =====
-- service-auth/src/service.rs: the handlers of the gRPC service. A handler gives the database it
-- leaves, which an error after a first write does not undo, and its answer. The `World` record
-- stands for argon2, for the code exchange of service-auth/src/oauth.rs and for the configuration; the time and
-- the fresh ids are arguments.
use rust_service.Base.{
  ℕ, ◌+◌, String, len, Bool, false, not, ◌&&◌, ◌||◌, Option, none, some, ltb, leb, if◌then◌else◌,
  string_partial_eq, ◌==◌, nat_partial_eq, pair_partial_eq, Result, ok, err, ◌>>=◌, is_some,
}
use rust_service.Auth.Error.{
  AuthError, invalid_credentials, invalid_token, invalid_argument, oauth_account_link_denied,
  internal, refuse_if,
}
use rust_service.Auth.Token.{
  AccessClaims, RefreshClaims, Jwt, create_access_token, create_refresh_token,
  validate_access_token, validate_refresh_token,
}
use rust_service.Auth.Store.{
  StoredUser, StoredRefreshToken, Database, Faults, required, create_user, find_user_by_email,
  find_user_by_id, update_user, find_oauth_account, create_oauth_account, store_refresh_token,
  consume_refresh_token, revoke_refresh_token,
}

pub record OAuthUserInfo : Type 0 where
  pub provider_user_id : String
  pub email : String
  pub name : String

pub record World : Type 0 where
  pub jwt : Jwt
  pub hash_password : String → Result String AuthError
  pub verify_password : (password hash : String) → Result (Unit {0}) AuthError
  pub exchange_code : (provider code redirect_uri : String) → Result OAuthUserInfo AuthError
  -- `chrono::DateTime::from_timestamp`
  pub from_timestamp : ℕ → Option ℕ
  -- `email.splitn(2, '@')`, where there is an `@`
  pub split_at : String → Option (String × String)
  pub contains_dot : String → Bool
  pub trim : String → String
  pub access_expiration_secs : ℕ
  pub refresh_expiration_secs : ℕ

-- What an answer says of the tokens; the user's id, email and name that stand beside them in the answers
-- of `register`, `login` and `o_auth_authenticate` are left out.
pub record AuthTokens : Type 0 where
  pub access_token : String
  pub refresh_token : String
  pub access_expires_at : ℕ
  pub refresh_expires_at : ℕ

-- The time of a request and the ids that it draws.
pub record Draw : Type 0 where
  pub now : ℕ
  pub user_id : ℕ
  pub access_jti : ℕ
  pub refresh_jti : ℕ

-- The faults after the first statements.
abbrev pub later : ℕ → Faults → Faults
later n faults i = faults (i + n)

module _ (world : World) where
  unfoldable pub is_valid_email : String → Bool
  is_valid_email email = elim (world.split_at email) [
    | none ↦ false
    | some (name, host) ↦ not (len name == 0) && (world.contains_dot host && leb 3 (len host))
  ]

  unfoldable pub is_valid_username : String → Bool
  is_valid_username username = leb 2 (len username) && leb (len username) 64

  unfoldable pub issue_tokens :
      Faults → Database → Draw → ℕ → String → String → Result (Database × AuthTokens) AuthError
  issue_tokens faults db draw user_id email username = do
    access ←
        create_access_token world.jwt world.access_expiration_secs draw.now user_id email username
          draw.access_jti
    refresh ←
        create_refresh_token world.jwt world.refresh_expiration_secs draw.now user_id
          draw.refresh_jti
    expires_at ←
        required (internal "invalid token expiration timestamp") (world.from_timestamp refresh.2)
    stored ← store_refresh_token faults db refresh.1 user_id expires_at
    ok (
      stored,
      record {
        access_token = access.0;
        refresh_token = refresh.0;
        access_expires_at = access.1;
        refresh_expires_at = refresh.2;
      },
    )

  -- The last step of four handlers: the database is kept as it is if no tokens are issued.
  unfoldable pub then_issue :
      Faults → Database → Draw → StoredUser → Database × Result AuthTokens AuthError
  then_issue faults db draw user =
      elim (issue_tokens faults db draw user.id user.email user.username) [
        | ok (stored, tokens) ↦ (stored, ok tokens)
        | err e ↦ (db, err e)
      ]

  -- The checks of `register` and its hash.
  unfoldable pub checked_registration : String → String → String → Result String AuthError
  checked_registration email username password = do
    present ←
        refuse_if ((len email == 0 || len password == 0) || len username == 0)
          (invalid_argument "email, password and username are required")
    addressed ← refuse_if (not (is_valid_email email)) (invalid_argument "invalid email format")
    named ←
        refuse_if (not (is_valid_username username))
          (invalid_argument "username must be between 2 and 64 characters")
    sized ←
        refuse_if (ltb (len password) 8 || ltb 128 (len password))
          (invalid_argument "password must be between 8 and 128 characters")
    world.hash_password password

  unfoldable pub register :
      Faults → Database → Draw → String → String → String → Database × Result AuthTokens AuthError
  register faults db draw email username password =
      elim (checked_registration email username password) [
        | err e ↦ (db, err e)
        | ok password_hash ↦
            elim (create_user faults db draw.user_id email username (some password_hash)) [
              | err e ↦ (db, err e)
              | ok (made, user) ↦ then_issue (later 1 faults) made draw user
            ]
      ]

  -- The user of a login: an unknown email and an account without a password are refused alike.
  unfoldable pub authenticated : Faults → Database → String → String → Result StoredUser AuthError
  authenticated faults db email password = do
    present ←
        refuse_if (len email == 0 || len password == 0)
          (invalid_argument "email and password are required")
    found ← find_user_by_email faults db email
    user ← required invalid_credentials found
    hash ← required invalid_credentials user.password_hash
    verified ← world.verify_password password hash
    ok user

  unfoldable pub login :
      Faults → Database → Draw → String → String → Database × Result AuthTokens AuthError
  login faults db draw email password = elim (authenticated faults db email password) [
    | err e ↦ (db, err e)
    | ok user ↦ then_issue (later 1 faults) db draw user
  ]

  -- The token of a request: its claims and its id.
  unfoldable pub presented : ℕ → String → Result (RefreshClaims × ℕ) AuthError
  presented now token = do
    present ← refuse_if (len token == 0) (invalid_argument "refresh_token is required")
    claims ← validate_refresh_token world.jwt now token
    jti ← required (invalid_token "invalid jti") (world.jwt.parse_uuid claims.jti)
    ok (claims, jti)

  -- The user of a refresh, once its token is consumed.
  unfoldable pub refreshed_user :
      Faults → Database → RefreshClaims → StoredRefreshToken → Result StoredUser AuthError
  refreshed_user faults db claims stored = do
    token_user_id ← required (invalid_token "invalid sub") (world.jwt.parse_uuid claims.sub)
    same ←
        refuse_if (not (token_user_id == stored.user_id)) (invalid_token "token subject mismatch")
    find_user_by_id faults db stored.user_id

  unfoldable pub after_consume :
      Faults
      → Draw
      → RefreshClaims
      → Database × StoredRefreshToken
      → Database × Result AuthTokens AuthError
  after_consume faults draw claims (db, stored) = elim (refreshed_user faults db claims stored) [
    | err e ↦ (db, err e)
    | ok user ↦ then_issue (later 1 faults) db draw user
  ]

  unfoldable pub refresh_token :
      Faults → Database → Draw → String → Database × Result AuthTokens AuthError
  refresh_token faults db draw token = elim (presented draw.now token) [
    | err e ↦ (db, err e)
    | ok (claims, jti) ↦ elim (consume_refresh_token faults db draw.now jti) [
      | err e ↦ (db, err e)
      | ok consumed ↦ after_consume (later 1 faults) draw claims consumed
    ]
  ]

  unfoldable pub logout : Faults → Database → ℕ → String → Result Database AuthError
  logout faults db now token = do
    asked ← presented now token
    revoke_refresh_token faults db asked.1

  unfoldable pub validate_token : ℕ → String → Result AccessClaims AuthError
  validate_token now token = do
    present ← refuse_if (len token == 0) (invalid_argument "access_token is required")
    validate_access_token world.jwt now token

  unfoldable pub user_from_access_token :
      Faults → Database → ℕ → String → Result StoredUser AuthError
  user_from_access_token faults db now token = do
    claims ← validate_token now token
    id ← required (invalid_token "invalid sub") (world.jwt.parse_uuid claims.sub)
    find_user_by_id faults db id

  -- The user of an OAuth login who has no linked account yet.
  unfoldable pub linked_user :
      Faults → Database → Draw → String → OAuthUserInfo → Database × Result StoredUser AuthError
  linked_user faults db draw provider info = elim (find_user_by_email faults db info.email) [
    | err e ↦ (db, err e)
    | ok (some user) ↦
        if is_some user.password_hash
        then (db, err oauth_account_link_denied)
        else elim (create_oauth_account (later 1 faults) db user.id provider
            info.provider_user_id) [ err e ↦ (db, err e) | ok linked ↦ (linked, ok user) ]
    | ok none ↦ elim (create_user (later 1 faults) db draw.user_id info.email info.name none) [
      | err e ↦ (db, err e)
      | ok (made, user) ↦
          elim (create_oauth_account (later 2 faults) made user.id provider info.provider_user_id) [
            | err e ↦ (made, err e)
            | ok linked ↦ (linked, ok user)
          ]
    ]
  ]

  unfoldable pub oauth_user :
      Faults → Database → Draw → String → OAuthUserInfo → Database × Result StoredUser AuthError
  oauth_user faults db draw provider info =
      elim (find_oauth_account faults db provider info.provider_user_id) [
        | err e ↦ (db, err e)
        | ok (some account) ↦ (db, find_user_by_id (later 1 faults) db account.user_id)
        | ok none ↦ linked_user (later 1 faults) db draw provider info
      ]

  unfoldable pub issue_for :
      Faults
      → Draw
      → Database × Result StoredUser AuthError
      → Database × Result AuthTokens AuthError
  issue_for faults draw (db, err e) = (db, err e)
  issue_for faults draw (db, ok user) = then_issue faults db draw user

  -- `provider` is the name of a provider that `resolve_provider` accepts.
  unfoldable pub o_auth_authenticate :
      Faults → Database → Draw → String → String → String → Database × Result AuthTokens AuthError
  o_auth_authenticate faults db draw provider code redirect_uri =
      if len code == 0 || len redirect_uri == 0
      then (db, err (invalid_argument "code and redirect_uri are required"))
      else elim (world.exchange_code provider code redirect_uri) [
        | err e ↦ (db, err e)
        | ok info ↦ issue_for (later 4 faults) draw (oauth_user faults db draw provider info)
      ]

  -- The name of `update_user`, trimmed, where it is given.
  unfoldable pub checked_username : Option String → Result (Option String) AuthError
  checked_username none = ok none
  checked_username (some u) = do
    sized ←
        refuse_if (len (world.trim u) == 0 || ltb 64 (len (world.trim u)))
          (invalid_argument "username must be between 1 and 64 characters")
    ok (some (world.trim u))

  -- An empty text clears the column.
  unfoldable pub cleared : Option String → Option (Option String)
  cleared none = none
  cleared (some s) = some (if len s == 0 then none else some s)

  unfoldable pub update_profile :
      Faults
      → Database
      → ℕ
      → String
      → Option String
      → Option String
      → Option String
      → Result (Database × StoredUser) AuthError
  update_profile faults db now token username avatar_url bio = do
    user ← user_from_access_token faults db now token
    name ← checked_username username
    update_user (later 1 faults) db user.id name (cleared avatar_url) (cleared bio)
