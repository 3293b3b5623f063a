-- ===== src/Auth/Sessions.antt =====
-- Refresh tokens over the histories of service-auth.
use rust_service.Base.{
  ℕ, String, ◌≡◌, inl, inr, not, Option, List, [], ◌∷◌, arith, ltb, string_partial_eq, ◌==◌,
  nat_partial_eq, pair_partial_eq, ok, Result-cases, keep,
}
use native.Mathlib.Nat.{le_trans}
use rust_service.Auth.Error.{refuse_if}
use rust_service.Auth.Store.{
  StoredUser, Database, Faults, statement, required, update_user, revoke_refresh_token,
  cleanup_expired_tokens,
}
use rust_service.Auth.Service.{World, presented, logout, update_profile}
use rust_service.Auth.Server.{
  Request, to_register, to_login, to_refresh, to_logout, to_authenticate, to_update, to_clean,
  settled, settled_with, serve, run,
}
use rust_service.Auth.Limit.{
  held, IsLimited, held-keep, register-IsLimited, login-IsLimited, refresh-IsLimited,
  oauth-IsLimited,
}

abbrev pub empty_database : Database
empty_database = record { users = []; oauth_accounts = []; refresh_tokens = [] }

pub logout-tokens :
    (world : World) (faults : Faults) (db next : Database) (now : ℕ) (token : String)
    → logout world faults db now token ≡ ok next
    → (jti : ℕ) × (next.refresh_tokens ≡ keep (λ t. not (t.jti == jti)) db.refresh_tokens)
unfolding logout revoke_refresh_token statement refuse_if
logout-tokens world faults db next now token h = elim (Result-cases (presented world now token)) [
  | inr (e, f) ↦ ground arith
  | inl ((claims, jti), f) ↦ (jti, ground arith)
]

pub update-tokens :
    (world : World) (faults : Faults) (db next : Database) (now : ℕ) (token : String)
    (username avatar_url bio : Option String) (user : StoredUser)
    → update_profile world faults db now token username avatar_url bio ≡ ok (next, user)
    → next.refresh_tokens ≡ db.refresh_tokens
unfolding update_profile update_user statement refuse_if required
update-tokens world faults db next now token username avatar_url bio user h = ground arith

pub cleanup-tokens :
    (faults : Faults) (db next : Database) (now : ℕ)
    → cleanup_expired_tokens faults db now ≡ ok next
    → next.refresh_tokens ≡ keep (λ t. ltb now t.expires_at) db.refresh_tokens
unfolding cleanup_expired_tokens statement
cleanup-tokens faults db next now h = ground arith

module _ (world : World) where
  serve-IsLimited :
      (faults : Faults) (db : Database) (request : Request)
      → IsLimited db
      → IsLimited (serve world faults db request)
  unfolding serve settled settled_with
  serve-IsLimited faults db (to_register draw email username password) limited =
      register-IsLimited world faults db draw email username password limited
  serve-IsLimited faults db (to_login draw email password) limited =
      login-IsLimited world faults db draw email password limited
  serve-IsLimited faults db (to_refresh draw token) limited =
      refresh-IsLimited world faults db draw token limited
  serve-IsLimited faults db (to_logout now token) limited =
      elim (Result-cases (logout world faults db now token)) [
        | inr (e, f) ↦ rw (f, serve) limited
        | inl (next, f) ↦
            let (jti, same) = logout-tokens world faults db next now token f in
            rw (f, serve)
              (λ u.
                rw same
                  (le_trans (held-keep (λ t. not (t.jti == jti)) u db.refresh_tokens) (limited u)))
      ]
  serve-IsLimited faults db (to_authenticate draw provider code redirect_uri) limited =
      oauth-IsLimited world faults db draw provider code redirect_uri limited
  serve-IsLimited faults db (to_update now token username avatar_url bio) limited =
      elim (Result-cases (update_profile world faults db now token username avatar_url bio)) [
        | inr (e, f) ↦ rw (f, serve) limited
        | inl ((next, user), f) ↦
            rw (f, serve)
              (λ u.
                rw (update-tokens world faults db next now token username avatar_url bio user f)
                  (limited u))
      ]
  serve-IsLimited faults db (to_clean now) limited =
      elim (Result-cases (cleanup_expired_tokens faults db now)) [
        | inr (e, f) ↦ rw (f, serve) limited
        | inl (next, f) ↦
            rw (f, serve)
              (λ u.
                rw (cleanup-tokens faults db next now f) (
                  le_trans (held-keep (λ t. ltb now t.expires_at) u db.refresh_tokens) (limited u)))
      ]

  run-Limited :
      (db : Database) (requests : List (Faults × Request))
      → IsLimited db
      → IsLimited (run world db requests)
  unfolding run
  run-Limited db [] limited = limited
  run-Limited db ((faults, request) ∷ requests) limited =
      run-Limited (serve world faults db request) requests
        (serve-IsLimited faults db request limited)

  -- In every history of requests that starts with an empty database, with any statements of the
  -- database failing, no user holds more than ten refresh tokens.
  pub at_most_ten :
      (requests : List (Faults × Request)) → IsLimited (run world empty_database requests)
  unfolding held
  at_most_ten requests = run-Limited empty_database requests (λ u. omega arith)
