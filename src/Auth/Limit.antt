-- ===== src/Auth/Limit.antt =====
-- How many refresh tokens a user holds, over the handlers of service-auth.
use rust_service.Base.{
  ℕ, zero, suc, ◌+◌, ◌≤◌, String, len, ◌≡◌, inl, inr, Bool, not, ◌&&◌, ◌||◌, Option, some, List, [],
  ◌∷◌, arith, ltb, if◌then◌else◌, nat_beq_iff, string_partial_eq, ◌==◌, nat_partial_eq,
  pair_partial_eq, Result, ok, err, Bool-cases, Option-cases, Result-cases, keep,
}
use native.Mathlib.Nat.{le_trans}
use rust_service.Auth.Error.{AuthError, refuse_if}
use rust_service.Auth.Store.{
  StoredUser, StoredRefreshToken, Database, Faults, statement, required, keep_newest,
  max_refresh_tokens_per_user, create_user, find_user_by_email, find_oauth_account,
  create_oauth_account, store_refresh_token, consume_refresh_token,
}
use rust_service.Auth.Token.{Jwt, create_refresh_token}
use rust_service.Auth.Service.{
  OAuthUserInfo, World, AuthTokens, Draw, later, issue_tokens, then_issue, checked_registration,
  register, authenticated, login, presented, refreshed_user, after_consume, refresh_token,
  linked_user, oauth_user, issue_for, o_auth_authenticate,
}

unfoldable pub held : ℕ → List StoredRefreshToken → ℕ
held u [] = 0
held u (t ∷ tokens) = (if t.user_id == u then 1 else 0) + held u tokens

-- Nobody holds more than ten.
abbrev pub IsLimited : Database → Type 0
IsLimited db = (u : ℕ) → held u db.refresh_tokens ≤ 10

pub held-keep :
    (p : StoredRefreshToken → Bool) (u : ℕ) (tokens : List StoredRefreshToken)
    → held u (keep p tokens) ≤ held u tokens
unfolding held
held-keep p u [] = omega arith
held-keep p u (t ∷ tokens) = ground (arith, held-keep p u tokens)

held-keep_newest :
    (user n : ℕ) (tokens : List StoredRefreshToken) → held user (keep_newest user n tokens) ≤ n
unfolding held keep_newest
held-keep_newest user n [] = omega arith
held-keep_newest user zero (t ∷ tokens) =
    ground (arith, held-keep_newest user zero tokens, nat_beq_iff t.user_id user)
held-keep_newest user (suc n) (t ∷ tokens) = ground (
  arith,
  held-keep_newest user n tokens,
  held-keep_newest user (suc n) tokens,
  nat_beq_iff t.user_id user,
)

held-keep_others :
    (user n u : ℕ) (tokens : List StoredRefreshToken)
    → held u (keep_newest user n tokens) ≤ held u tokens
unfolding held keep_newest
held-keep_others user n u [] = omega arith
held-keep_others user zero u (t ∷ tokens) = ground (arith, held-keep_others user zero u tokens)
held-keep_others user (suc n) u (t ∷ tokens) =
    ground (arith, held-keep_others user n u tokens, held-keep_others user (suc n) u tokens)

pub store_refresh_token-ok :
    (faults : Faults) (db next : Database) (jti user exp : ℕ)
    → store_refresh_token faults db jti user exp ≡ ok next
    → next ≡ record db {
      refresh_tokens =
          record { jti = jti; user_id = user; expires_at = exp }
          ∷ keep_newest user 9 db.refresh_tokens;
    }
unfolding store_refresh_token statement refuse_if max_refresh_tokens_per_user
store_refresh_token-ok faults db next jti user exp h = ground arith

store_refresh_token-IsLimited :
    (faults : Faults) (db next : Database) (jti user exp : ℕ)
    → IsLimited db
    → store_refresh_token faults db jti user exp ≡ ok next
    → IsLimited next
unfolding held
store_refresh_token-IsLimited faults db next jti user exp limited h u =
    rw (store_refresh_token-ok faults db next jti user exp h) (
      ground (
        arith,
        limited u,
        held-keep_newest user 9 db.refresh_tokens,
        held-keep_others user 9 u db.refresh_tokens,
        nat_beq_iff user u,
      ))

pub create_user-tokens :
    (faults : Faults) (db made : Database) (id : ℕ) (email name : String) (hash : Option String)
    (user : StoredUser)
    → create_user faults db id email name hash ≡ ok (made, user)
    → made.refresh_tokens ≡ db.refresh_tokens
unfolding create_user statement refuse_if
create_user-tokens faults db made id email name hash user h = ground arith

pub consume-tokens :
    (faults : Faults) (db left : Database) (now jti : ℕ) (stored : StoredRefreshToken)
    → consume_refresh_token faults db now jti ≡ ok (left, stored)
    → left ≡ record db {
      refresh_tokens = keep (λ t. not (t.jti == jti && ltb now t.expires_at)) db.refresh_tokens;
    }
unfolding consume_refresh_token statement required
consume-tokens faults db left now jti stored h = ground arith

create_refresh_token-id :
    (jwt : Jwt) (secs now user jti : ℕ) (text : String) (id at : ℕ)
    → create_refresh_token jwt secs now user jti ≡ ok (text, id, at)
    → id ≡ jti
unfolding create_refresh_token
create_refresh_token-id jwt secs now user jti text id at h = ground arith

module _ (world : World) where
  pub issue_tokens-ok :
      (faults : Faults) (db next : Database) (draw : Draw) (user : ℕ) (email name : String)
      (tokens : AuthTokens)
      → issue_tokens world faults db draw user email name ≡ ok (next, tokens)
      → (exp : ℕ) × (store_refresh_token faults db draw.refresh_jti user exp ≡ ok next)
  unfolding issue_tokens required
  issue_tokens-ok faults db next draw user email name tokens h =
      elim (Result-cases (
        create_refresh_token world.jwt world.refresh_expiration_secs draw.now user
          draw.refresh_jti)) [
            | inr (e, f) ↦ ground arith
            | inl ((text, jti, at), f) ↦ elim (Option-cases (world.from_timestamp at)) [
              | inl n ↦ ground arith
              | inr (exp, g) ↦
                  let drawn =
                    create_refresh_token-id world.jwt world.refresh_expiration_secs draw.now user
                      draw.refresh_jti text jti at f in
                  (exp, ground (arith, drawn))
            ]
          ]

  pub then_issue-IsLimited :
      (faults : Faults) (db : Database) (draw : Draw) (user : StoredUser)
      → IsLimited db
      → IsLimited (then_issue world faults db draw user).0
  unfolding then_issue
  then_issue-IsLimited faults db draw user limited =
      elim (Result-cases (issue_tokens world faults db draw user.id user.email user.username)) [
        | inr (e, f) ↦ rw (f, then_issue) limited
        | inl ((next, tokens), f) ↦
            let (exp, stored) =
              issue_tokens-ok faults db next draw user.id user.email user.username tokens f in
            rw (f, then_issue)
              (store_refresh_token-IsLimited faults db next draw.refresh_jti user.id exp limited
                stored)
      ]

  pub register-IsLimited :
      (faults : Faults) (db : Database) (draw : Draw) (email name password : String)
      → IsLimited db
      → IsLimited (register world faults db draw email name password).0
  unfolding register
  register-IsLimited faults db draw email name password limited =
      elim (Result-cases (checked_registration world email name password)) [
        | inr (e, f) ↦ rw (f, register) limited
        | inl (hash, f) ↦
            elim (Result-cases (create_user faults db draw.user_id email name (some hash))) [
              | inr (e, g) ↦ rw (f, g, register) limited
              | inl ((made, user), g) ↦
                  let same =
                    create_user-tokens faults db made draw.user_id email name (some hash) user g in
                  rw (f, g, register)
                    (then_issue-IsLimited (later 1 faults) made draw user
                      (λ u. rw same (limited u)))
            ]
      ]

  pub login-IsLimited :
      (faults : Faults) (db : Database) (draw : Draw) (email password : String)
      → IsLimited db
      → IsLimited (login world faults db draw email password).0
  unfolding login
  login-IsLimited faults db draw email password limited =
      elim (Result-cases (authenticated world faults db email password)) [
        | inr (e, f) ↦ rw (f, login) limited
        | inl (user, f) ↦ rw (f, login) (then_issue-IsLimited (later 1 faults) db draw user limited)
      ]

  pub refresh-IsLimited :
      (faults : Faults) (db : Database) (draw : Draw) (token : String)
      → IsLimited db
      → IsLimited (refresh_token world faults db draw token).0
  unfolding refresh_token after_consume
  refresh-IsLimited faults db draw token limited =
      elim (Result-cases (presented world draw.now token)) [
        | inr (e, f) ↦ rw (f, refresh_token) limited
        | inl ((claims, jti), f) ↦
            elim (Result-cases (consume_refresh_token faults db draw.now jti)) [
              | inr (e, g) ↦ rw (f, g, refresh_token) limited
              | inl ((left, stored), g) ↦
                  let fewer : IsLimited left = λ u.
                    rw (consume-tokens faults db left draw.now jti stored g) (
                      le_trans
                        (held-keep (λ t. not (t.jti == jti && ltb draw.now t.expires_at)) u
                          db.refresh_tokens)
                        (limited u)) in
                  elim (Result-cases (refreshed_user world (later 1 faults) left claims stored)) [
                    | inr (e, k) ↦ rw (f, g, k, refresh_token, after_consume) fewer
                    | inl (user, k) ↦
                        rw (f, g, k, refresh_token, after_consume)
                          (then_issue-IsLimited (later 1 (later 1 faults)) left draw user fewer)
                  ]
            ]
      ]

  linked_user-tokens :
      (faults : Faults) (db : Database) (draw : Draw) (provider : String) (info : OAuthUserInfo)
      → (linked_user world faults db draw provider info).0.refresh_tokens ≡ db.refresh_tokens
  unfolding linked_user create_oauth_account create_user statement refuse_if find_user_by_email
  linked_user-tokens faults db draw provider info = ground arith

  pub oauth_user-tokens :
      (faults : Faults) (db : Database) (draw : Draw) (provider : String) (info : OAuthUserInfo)
      → (oauth_user world faults db draw provider info).0.refresh_tokens ≡ db.refresh_tokens
  unfolding oauth_user find_oauth_account statement
  oauth_user-tokens faults db draw provider info =
      ground (arith, linked_user-tokens (later 1 faults) db draw provider info)

  issue_for-IsLimited :
      (faults : Faults) (draw : Draw) (found : Database × Result StoredUser AuthError)
      → IsLimited found.0
      → IsLimited (issue_for world faults draw found).0
  unfolding issue_for
  issue_for-IsLimited faults draw (db, err e) limited = limited
  issue_for-IsLimited faults draw (db, ok user) limited =
      then_issue-IsLimited faults db draw user limited

  pub oauth-IsLimited :
      (faults : Faults) (db : Database) (draw : Draw) (provider code uri : String)
      → IsLimited db
      → IsLimited (o_auth_authenticate world faults db draw provider code uri).0
  unfolding o_auth_authenticate
  oauth-IsLimited faults db draw provider code uri limited =
      elim (Bool-cases (len code == 0 || len uri == 0)) [
        | inl f ↦ rw (f, o_auth_authenticate) limited
        | inr f ↦ elim (Result-cases (world.exchange_code provider code uri)) [
          | inr (e, g) ↦ rw (f, g, o_auth_authenticate) limited
          | inl (info, g) ↦
              rw (f, g, o_auth_authenticate)
                (issue_for-IsLimited (later 4 faults) draw
                  (oauth_user world faults db draw provider info)
                  (λ u. rw (oauth_user-tokens faults db draw provider info) (limited u)))
        ]
      ]
