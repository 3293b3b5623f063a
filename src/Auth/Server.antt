-- ===== src/Auth/Server.antt =====
-- A history of service-auth: requests one after another, and the periodic cleanup.
use rust_service.Base.{
  ℕ, String, Option, List, [], ◌∷◌, string_partial_eq, nat_partial_eq, pair_partial_eq, Result, ok,
  err,
}
use rust_service.Auth.Error.{AuthError}
use rust_service.Auth.Store.{StoredUser, Database, Faults, cleanup_expired_tokens}
use rust_service.Auth.Service.{
  World, Draw, register, login, refresh_token, logout, o_auth_authenticate, update_profile,
}

pub data Request : Type 0 where
  to_register : Draw → (email username password : String) → Request
  to_login : Draw → (email password : String) → Request
  to_refresh : Draw → (token : String) → Request
  to_logout : (now : ℕ) → (token : String) → Request
  to_authenticate : Draw → (provider code redirect_uri : String) → Request
  to_update : (now : ℕ) → (token : String) → (username avatar_url bio : Option String) → Request
  to_clean : (now : ℕ) → Request

-- The database after an operation that changes nothing where it fails.
unfoldable pub settled : Database → Result Database AuthError → Database
settled db (ok next) = next
settled db (err e) = db

unfoldable pub settled_with : Database → Result (Database × StoredUser) AuthError → Database
settled_with db (ok (next, user)) = next
settled_with db (err e) = db

module _ (world : World) where
  unfoldable pub serve : Faults → Database → Request → Database
  serve faults db (to_register draw email username password) =
      (register world faults db draw email username password).0
  serve faults db (to_login draw email password) = (login world faults db draw email password).0
  serve faults db (to_refresh draw token) = (refresh_token world faults db draw token).0
  serve faults db (to_logout now token) = settled db (logout world faults db now token)
  serve faults db (to_authenticate draw provider code redirect_uri) =
      (o_auth_authenticate world faults db draw provider code redirect_uri).0
  serve faults db (to_update now token username avatar_url bio) =
      settled_with db (update_profile world faults db now token username avatar_url bio)
  serve faults db (to_clean now) = settled db (cleanup_expired_tokens faults db now)

  unfoldable pub run : Database → List (Faults × Request) → Database
  run db [] = db
  run db ((faults, request) ∷ requests) = run (serve faults db request) requests
