-- ===== src/Auth/Error.antt =====
-- service-auth/src/error.rs: the errors and the gRPC status they become.
use rust_service.Base.{
  String, Bool, true, false, string_partial_eq, nat_partial_eq, pair_partial_eq, Result, ok, err,
}

pub data AuthError : Type 0 where
  user_already_exists invalid_credentials user_not_found token_not_found token_expired : AuthError
  invalid_token invalid_argument hashing_error oauth_error : String → AuthError
  oauth_account_link_denied : AuthError
  internal : String → AuthError

-- The codes of `tonic` that the service uses.
pub data Code : Type 0 where
  code_invalid_argument code_unauthenticated code_permission_denied code_not_found : Code
  code_already_exists code_internal : Code

unfoldable pub status_code : AuthError → Code
status_code user_already_exists = code_already_exists
status_code invalid_credentials = code_unauthenticated
status_code user_not_found = code_not_found
status_code token_not_found = code_unauthenticated
status_code token_expired = code_unauthenticated
status_code (invalid_token e) = code_unauthenticated
status_code (invalid_argument e) = code_invalid_argument
status_code oauth_account_link_denied = code_permission_denied
status_code (oauth_error e) = code_internal
status_code (hashing_error e) = code_internal
status_code (internal e) = code_internal

-- `concat` joins two texts, as the `thiserror` formats do.
unfoldable pub status_message : (String → String → String) → AuthError → String
status_message concat user_already_exists = "User already exists"
status_message concat invalid_credentials = "Invalid credentials"
status_message concat user_not_found = "User not found"
status_message concat token_not_found = "Token not found or already revoked"
status_message concat token_expired = "Token has expired"
status_message concat (invalid_token e) = concat "Invalid token: " e
status_message concat (invalid_argument e) = concat "Invalid argument: " e
status_message concat oauth_account_link_denied =
    "An account with this email already exists, log in with password to link OAuth"
status_message concat (oauth_error e) = "Internal server error"
status_message concat (hashing_error e) = "Internal server error"
status_message concat (internal e) = "Internal server error"

-- An early `return Err(...)`.
unfoldable pub refuse_if : Bool → AuthError → Result (Unit {0}) AuthError
refuse_if true e = err e
refuse_if false e = ok tt
