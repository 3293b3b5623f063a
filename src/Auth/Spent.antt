-- ===== src/Auth/Spent.antt =====
-- Refresh tokens that are spent stay spent, over the histories of service-auth.
use rust_service.Base.{
  ℕ, zero, suc, ◌≤◌, String, len, ◌≡◌, refl, inl, inr, Bool, false, not, ◌&&◌, ◌||◌, none, some,
  List, [], ◌∷◌, arith, ltb, nat_beq_iff, string_partial_eq, ◌==◌, nat_partial_eq, pair_partial_eq,
  Result, ok, err, Bool-cases, Result-cases, keep,
}
use rust_service.Auth.Error.{AuthError}
use rust_service.Auth.Store.{
  StoredUser, StoredRefreshToken, Database, Faults, live_token, keep_newest, create_user,
  consume_refresh_token, cleanup_expired_tokens,
}
use rust_service.Auth.Service.{
  World, Draw, later, issue_tokens, then_issue, checked_registration, register, authenticated,
  login, presented, refreshed_user, after_consume, refresh_token, logout, oauth_user, issue_for,
  o_auth_authenticate, update_profile,
}
use rust_service.Auth.Server.{
  Request, to_register, to_login, to_refresh, to_logout, to_authenticate, to_update, to_clean,
  settled, settled_with, serve, run,
}
use rust_service.Auth.Limit.{
  store_refresh_token-ok, create_user-tokens, consume-tokens, issue_tokens-ok, oauth_user-tokens,
}
use rust_service.Auth.Sessions.{logout-tokens, update-tokens, cleanup-tokens}

-- No row of the token will be live at a time from `now` on.
abbrev pub IsSpent : ℕ → ℕ → List StoredRefreshToken → Type 0
IsSpent now jti tokens = (at : ℕ) → now ≤ at → live_token at jti tokens ≡ none

live-keep :
    (p : StoredRefreshToken → Bool) (at jti : ℕ) (tokens : List StoredRefreshToken)
    → live_token at jti tokens ≡ none
    → live_token at jti (keep p tokens) ≡ none
unfolding live_token
live-keep p at jti [] h = refl
live-keep p at jti (t ∷ tokens) h = ground (arith, live-keep p at jti tokens)

live-keep_newest :
    (user n at jti : ℕ) (tokens : List StoredRefreshToken)
    → live_token at jti tokens ≡ none
    → live_token at jti (keep_newest user n tokens) ≡ none
unfolding live_token keep_newest
live-keep_newest user n at jti [] h = refl
live-keep_newest user zero at jti (t ∷ tokens) h =
    ground (arith, live-keep_newest user zero at jti tokens)
live-keep_newest user (suc n) at jti (t ∷ tokens) h =
    ground
      (arith, live-keep_newest user n at jti tokens, live-keep_newest user (suc n) at jti tokens)

pub consumed-IsSpent :
    (now jti : ℕ) (tokens : List StoredRefreshToken)
    → IsSpent now jti (keep (λ t. not (t.jti == jti && ltb now t.expires_at)) tokens)
unfolding live_token
consumed-IsSpent now jti [] at h = refl
consumed-IsSpent now jti (t ∷ tokens) at h =
    ground (arith, consumed-IsSpent now jti tokens at h, nat_beq_iff t.jti jti)

pub revoked-IsSpent :
    (now jti : ℕ) (tokens : List StoredRefreshToken)
    → IsSpent now jti (keep (λ t. not (t.jti == jti)) tokens)
unfolding live_token
revoked-IsSpent now jti [] at h = refl
revoked-IsSpent now jti (t ∷ tokens) at h =
    ground (arith, revoked-IsSpent now jti tokens at h, nat_beq_iff t.jti jti)

-- The id of the refresh token that a request may issue is another one.
abbrev pub IsNew : ℕ → Request → Type 0
IsNew jti (to_register draw email username password) = (draw.refresh_jti == jti) ≡ false
IsNew jti (to_login draw email password) = (draw.refresh_jti == jti) ≡ false
IsNew jti (to_refresh draw token) = (draw.refresh_jti == jti) ≡ false
IsNew jti (to_logout now token) = Unit
IsNew jti (to_authenticate draw provider code redirect_uri) = (draw.refresh_jti == jti) ≡ false
IsNew jti (to_update now token username avatar_url bio) = Unit
IsNew jti (to_clean now) = Unit

abbrev pub AreNew : ℕ → List (Faults × Request) → Type 0
AreNew jti [] = Unit
AreNew jti ((faults, request) ∷ requests) = IsNew jti request × AreNew jti requests

module _ (world : World) where
  pub then_issue-IsSpent :
      (faults : Faults) (db : Database) (draw : Draw) (user : StoredUser) (now jti : ℕ)
      → (draw.refresh_jti == jti) ≡ false
      → IsSpent now jti db.refresh_tokens
      → IsSpent now jti (then_issue world faults db draw user).0.refresh_tokens
  unfolding then_issue live_token
  then_issue-IsSpent faults db draw user now jti fresh spent at h =
      elim (Result-cases (issue_tokens world faults db draw user.id user.email user.username)) [
        | inr (e, f) ↦ rw (f, then_issue) (spent at h)
        | inl ((next, tokens), f) ↦
            let (exp, stored) =
              issue_tokens-ok world faults db next draw user.id user.email user.username tokens f in
            rw
              (
                f,
                then_issue,
                store_refresh_token-ok faults db next draw.refresh_jti user.id exp stored,
              )
              (ground (arith, live-keep_newest user.id 9 at jti db.refresh_tokens (spent at h)))
      ]

  register-IsSpent :
      (faults : Faults) (db : Database) (draw : Draw) (email name password : String) (now jti : ℕ)
      → (draw.refresh_jti == jti) ≡ false
      → IsSpent now jti db.refresh_tokens
      → IsSpent now jti (register world faults db draw email name password).0.refresh_tokens
  unfolding register
  register-IsSpent faults db draw email name password now jti fresh spent =
      elim (Result-cases (checked_registration world email name password)) [
        | inr (e, f) ↦ rw (f, register) spent
        | inl (hash, f) ↦
            elim (Result-cases (create_user faults db draw.user_id email name (some hash))) [
              | inr (e, g) ↦ rw (f, g, register) spent
              | inl ((made, user), g) ↦
                  let same =
                    create_user-tokens faults db made draw.user_id email name (some hash) user g in
                  rw (f, g, register)
                    (then_issue-IsSpent (later 1 faults) made draw user now jti fresh
                      (λ at le. rw same (spent at le)))
            ]
      ]

  login-IsSpent :
      (faults : Faults) (db : Database) (draw : Draw) (email password : String) (now jti : ℕ)
      → (draw.refresh_jti == jti) ≡ false
      → IsSpent now jti db.refresh_tokens
      → IsSpent now jti (login world faults db draw email password).0.refresh_tokens
  unfolding login
  login-IsSpent faults db draw email password now jti fresh spent =
      elim (Result-cases (authenticated world faults db email password)) [
        | inr (e, f) ↦ rw (f, login) spent
        | inl (user, f) ↦
            rw (f, login) (then_issue-IsSpent (later 1 faults) db draw user now jti fresh spent)
      ]

  refresh-IsSpent :
      (faults : Faults) (db : Database) (draw : Draw) (token : String) (now jti : ℕ)
      → (draw.refresh_jti == jti) ≡ false
      → IsSpent now jti db.refresh_tokens
      → IsSpent now jti (refresh_token world faults db draw token).0.refresh_tokens
  unfolding refresh_token after_consume
  refresh-IsSpent faults db draw token now jti fresh spent =
      elim (Result-cases (presented world draw.now token)) [
        | inr (e, f) ↦ rw (f, refresh_token) spent
        | inl ((claims, other), f) ↦
            elim (Result-cases (consume_refresh_token faults db draw.now other)) [
              | inr (e, g) ↦ rw (f, g, refresh_token) spent
              | inl ((left, stored), g) ↦
                  let kept : IsSpent now jti left.refresh_tokens = λ at le.
                    rw (consume-tokens faults db left draw.now other stored g) (
                      live-keep (λ t. not (t.jti == other && ltb draw.now t.expires_at)) at jti
                        db.refresh_tokens (spent at le)) in
                  elim (Result-cases (refreshed_user world (later 1 faults) left claims stored)) [
                    | inr (e, k) ↦ rw (f, g, k, refresh_token, after_consume) kept
                    | inl (user, k) ↦
                        rw (f, g, k, refresh_token, after_consume)
                          (then_issue-IsSpent (later 1 (later 1 faults)) left draw user now jti
                            fresh kept)
                  ]
            ]
      ]

  issue_for-IsSpent :
      (faults : Faults) (draw : Draw) (found : Database × Result StoredUser AuthError) (now jti : ℕ)
      → (draw.refresh_jti == jti) ≡ false
      → IsSpent now jti found.0.refresh_tokens
      → IsSpent now jti (issue_for world faults draw found).0.refresh_tokens
  unfolding issue_for
  issue_for-IsSpent faults draw (db, err e) now jti fresh spent = spent
  issue_for-IsSpent faults draw (db, ok user) now jti fresh spent =
      then_issue-IsSpent faults db draw user now jti fresh spent

  oauth-IsSpent :
      (faults : Faults) (db : Database) (draw : Draw) (provider code uri : String) (now jti : ℕ)
      → (draw.refresh_jti == jti) ≡ false
      → IsSpent now jti db.refresh_tokens
      → IsSpent now jti
          (o_auth_authenticate world faults db draw provider code uri).0.refresh_tokens
  unfolding o_auth_authenticate
  oauth-IsSpent faults db draw provider code uri now jti fresh spent =
      elim (Bool-cases (len code == 0 || len uri == 0)) [
        | inl f ↦ rw (f, o_auth_authenticate) spent
        | inr f ↦ elim (Result-cases (world.exchange_code provider code uri)) [
          | inr (e, g) ↦ rw (f, g, o_auth_authenticate) spent
          | inl (info, g) ↦
              rw (f, g, o_auth_authenticate)
                (issue_for-IsSpent (later 4 faults) draw
                  (oauth_user world faults db draw provider info) now jti fresh
                  (λ at le.
                    rw (oauth_user-tokens world faults db draw provider info) (spent at le)))
        ]
      ]

  serve-IsSpent :
      (now jti : ℕ) (faults : Faults) (db : Database) (request : Request)
      → IsNew jti request
      → IsSpent now jti db.refresh_tokens
      → IsSpent now jti (serve world faults db request).refresh_tokens
  unfolding serve settled settled_with
  serve-IsSpent now jti faults db (to_register draw email username password) fresh spent =
      register-IsSpent faults db draw email username password now jti fresh spent
  serve-IsSpent now jti faults db (to_login draw email password) fresh spent =
      login-IsSpent faults db draw email password now jti fresh spent
  serve-IsSpent now jti faults db (to_refresh draw token) fresh spent =
      refresh-IsSpent faults db draw token now jti fresh spent
  serve-IsSpent now jti faults db (to_logout when token) fresh spent =
      elim (Result-cases (logout world faults db when token)) [
        | inr (e, f) ↦ rw (f, serve) spent
        | inl (next, f) ↦
            let (other, same) = logout-tokens world faults db next when token f in
            rw (f, serve)
              (λ at le.
                rw same
                  (live-keep (λ t. not (t.jti == other)) at jti db.refresh_tokens (spent at le)))
      ]
  serve-IsSpent now jti faults db (to_authenticate draw provider code redirect_uri) fresh spent =
      oauth-IsSpent faults db draw provider code redirect_uri now jti fresh spent
  serve-IsSpent now jti faults db (to_update when token username avatar_url bio) fresh spent =
      elim (Result-cases (update_profile world faults db when token username avatar_url bio)) [
        | inr (e, f) ↦ rw (f, serve) spent
        | inl ((next, user), f) ↦
            rw (f, serve)
              (λ at le.
                rw (update-tokens world faults db next when token username avatar_url bio user f)
                  (spent at le))
      ]
  serve-IsSpent now jti faults db (to_clean when) fresh spent =
      elim (Result-cases (cleanup_expired_tokens faults db when)) [
        | inr (e, f) ↦ rw (f, serve) spent
        | inl (next, f) ↦
            rw (f, serve)
              (λ at le.
                rw (cleanup-tokens faults db next when f)
                  (live-keep (λ t. ltb when t.expires_at) at jti db.refresh_tokens (spent at le)))
      ]

  -- A spent token stays spent, whatever requests follow that issue other ones.
  pub run-IsSpent :
      (now jti : ℕ) (db : Database) (requests : List (Faults × Request))
      → AreNew jti requests
      → IsSpent now jti db.refresh_tokens
      → IsSpent now jti (run world db requests).refresh_tokens
  unfolding run
  run-IsSpent now jti db [] fresh spent = spent
  run-IsSpent now jti db ((faults, request) ∷ requests) fresh spent =
      run-IsSpent now jti (serve world faults db request) requests fresh.1
        (serve-IsSpent now jti faults db request fresh.0 spent)
