-- ===== src/Gateway/Login.antt =====
-- A login through service-gateway/src/auth_handler.rs, with the login of service-auth behind it.
use rust_service.Base.{
  ℕ, String, len, ◌≡◌, ap, ◌⊎◌, inl, inr, false, none, some, List, [], arith, string_partial_eq,
  ◌==◌, nat_partial_eq, pair_partial_eq, Result, ok, err, Bytes, bytes_of,
}
use rust_service.Auth.Error.{
  AuthError, invalid_credentials, status_code, status_message, code_unauthenticated,
}
use rust_service.Auth.Error
use rust_service.Auth.Store.{StoredUser, Database, by_email}
use rust_service.Auth.Service.{World, Draw, login}
use rust_service.Auth.Accounts.{login_refusal}
use rust_service.Gateway.Answers.{
  read_full_body, AuthContext, respond_error, Code, invalid_argument, not_found, already_exists,
  permission_denied, internal, unauthenticated, Status, grpc_status_to_http, respond_status,
}
use rust_service.Gateway.Access.{AuthClient, Json, post_grpc_handler, handle_login}

-- A code of service-auth on the wire.
unfoldable pub sent_code : Error.Code → Code
sent_code Error.code_invalid_argument = invalid_argument
sent_code Error.code_unauthenticated = unauthenticated
sent_code Error.code_permission_denied = permission_denied
sent_code Error.code_not_found = not_found
sent_code Error.code_already_exists = already_exists
sent_code Error.code_internal = internal

unfoldable pub sent_status : (concat : String → String → String) → AuthError → Status
sent_status concat e = record {
  grpc_code = sent_code (status_code e);
  grpc_message = bytes_of (status_message concat e);
}

-- The call of the gateway reaches a service-auth: an error of its login is what the call gives.
abbrev pub IsConnected :
    (concat : String → String → String)
    → World
    → Database
    → Draw
    → AuthClient
    → (email password : String) → Type 0
IsConnected concat world db draw client email password =
    (e : AuthError)
    → (login world (λ i. none) db draw email password).1 ≡ err e
    → client.login (bytes_of email) (bytes_of password) ≡ err (sent_status concat e)

-- Where the database answers, passwords are found right or wrong, and the call of the gateway
-- reaches service-auth, a login whose body arrives whole and parses, with both fields filled,
-- either has the password of the account with that email, or is answered with one response: 401
-- and one text, whether the email is unknown, the account has no password or the password is
-- wrong.
pub login_answer :
    (concat : String → String → String) (world : World) (db : Database) (draw : Draw) (json : Json)
    (client : AuthClient) (ctx : AuthContext) (now : ℕ) (chunks : List (Result Bytes Bytes))
    (body : Bytes) (email password : String)
    → IsConnected concat world db draw client email password
    → ((p hash : String)
        → (world.verify_password p hash ≡ ok tt)
          ⊎ (world.verify_password p hash ≡ err invalid_credentials))
    → (len email == 0) ≡ false
    → (len password == 0) ≡ false
    → read_full_body ctx.max_body_size [] chunks ≡ ok body
    → json.parse_login body
      ≡ ok (record { login_email = bytes_of email; login_password = bytes_of password })
    → ((user : StoredUser) × (hash : String) × (by_email email db.users ≡ some user)
        × (user.password_hash ≡ some hash)
        × (world.verify_password password hash ≡ ok tt))
      ⊎ (handle_login json client ctx now chunks
          ≡ respond_error ctx 401 (bytes_of "Invalid credentials"))
unfolding handle_login post_grpc_handler respond_status sent_status sent_code grpc_status_to_http
    status_code status_message
login_answer concat world db draw json client ctx now chunks body email password connected verdict
      given filled read parsed =
    elim (login_refusal world db draw email password given filled verdict) [
      | inl (user, hash, found, stored, fits, done) ↦ inl (user, hash, found, stored, fits)
      | inr refused ↦
          let answer = connected invalid_credentials (ap (λ r. r.1) refused) in
          inr (ground (arith, read, parsed, answer))
    ]
