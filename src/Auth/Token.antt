-- ===== src/Auth/Token.antt =====
-- service-auth/src/token.rs: the claims and the checks of access and refresh tokens. The `Jwt`
-- record stands for `jsonwebtoken` with the service's key, header and validation, and for the text
-- form of a `Uuid`.
use rust_service.Base.{
  ℕ, ◌+◌, ◌%◌, ◌^◌, String, not, Option, string_partial_eq, ◌==◌, nat_partial_eq, pair_partial_eq,
  Result, ok, err, ◌>>=◌,
}
use rust_service.Auth.Error.{AuthError, refuse_if, token_expired, invalid_token, internal}

pub record AccessClaims : Type 0 where
  pub sub : String
  pub email : String
  pub username : String
  pub exp : ℕ
  pub iat : ℕ
  pub jti : String
  pub iss : String
  pub typ : String

pub record RefreshClaims : Type 0 where
  pub sub : String
  pub exp : ℕ
  pub iat : ℕ
  pub jti : String
  pub iss : String
  pub typ : String

-- The kinds of `jsonwebtoken::errors::Error` that the service tells apart.
pub data JwtError : Type 0 where
  expired_signature : JwtError
  other_kind : String → JwtError

-- `decode` is given the time, since it refuses what has expired.
pub record Jwt : Type 0 where
  pub encode_access : AccessClaims → Result String String
  pub encode_refresh : RefreshClaims → Result String String
  pub decode_access : ℕ → String → Result AccessClaims JwtError
  pub decode_refresh : ℕ → String → Result RefreshClaims JwtError
  pub uuid_text : ℕ → String
  pub parse_uuid : String → Option ℕ

unfoldable pub issuer : String
issuer = "service-auth"

unfoldable pub token_type_access : String
token_type_access = "access"

unfoldable pub token_type_refresh : String
token_type_refresh = "refresh"

unfoldable pub from_jwt : JwtError → AuthError
from_jwt expired_signature = token_expired
from_jwt (other_kind e) = invalid_token e

unfoldable pub encoded : Result String String → Result String AuthError
encoded (ok token) = ok token
encoded (err e) = err (internal e)

unfoldable pub decoded : {A : Type 0} → Result A JwtError → Result A AuthError
decoded (ok claims) = ok claims
decoded (err e) = err (from_jwt e)

module _ (jwt : Jwt) where
  -- The sum of the two `usize` wraps. `jti` is the fresh id.
  unfoldable pub create_access_token :
      ℕ → ℕ → ℕ → String → String → ℕ → Result (String × ℕ) AuthError
  create_access_token access_expiration_secs now user_id email username jti =
      let exp = (now + access_expiration_secs) % 2 ^ 64 in
      let claims : AccessClaims = record {
        sub = jwt.uuid_text user_id;
        email = email;
        username = username;
        exp = exp;
        iat = now;
        jti = jwt.uuid_text jti;
        iss = issuer;
        typ = token_type_access;
      } in
      do token ← encoded (jwt.encode_access claims); ok (token, exp)

  unfoldable pub create_refresh_token : ℕ → ℕ → ℕ → ℕ → Result (String × ℕ × ℕ) AuthError
  create_refresh_token refresh_expiration_secs now user_id jti =
      let exp = (now + refresh_expiration_secs) % 2 ^ 64 in
      let claims : RefreshClaims = record {
        sub = jwt.uuid_text user_id;
        exp = exp;
        iat = now;
        jti = jwt.uuid_text jti;
        iss = issuer;
        typ = token_type_refresh;
      } in
      do token ← encoded (jwt.encode_refresh claims); ok (token, jti, exp)

  unfoldable pub validate_access_token : ℕ → String → Result AccessClaims AuthError
  validate_access_token now token = do
    claims ← decoded (jwt.decode_access now token)
    typed ← refuse_if (not (claims.typ == token_type_access)) (invalid_token "invalid token type")
    ok claims

  unfoldable pub validate_refresh_token : ℕ → String → Result RefreshClaims AuthError
  validate_refresh_token now token = do
    claims ← decoded (jwt.decode_refresh now token)
    typed ← refuse_if (not (claims.typ == token_type_refresh)) (invalid_token "invalid token type")
    ok claims
