-- ===== src/Auth/Refresh.antt =====
-- Refresh tokens are used once, and the two kinds of token are not confused.
use rust_service.Base.{
  ℕ, ◌+◌, ◌%◌, ◌^◌, ◌≤◌, String, ◌≡◌, refl, inl, inr, false, not, none, some, List, arith,
  string_partial_eq, ◌==◌, nat_partial_eq, pair_partial_eq, ok, err, Result-cases, is_ok, keep,
}
use rust_service.Auth.Error.{AuthError, refuse_if}
use rust_service.Auth.Token.{
  AccessClaims, RefreshClaims, Jwt, issuer, token_type_access, token_type_refresh, encoded, decoded,
  create_access_token, create_refresh_token, validate_access_token, validate_refresh_token,
}
use rust_service.Auth.Store.{
  Database, Faults, statement, required, live_token, consume_refresh_token, revoke_refresh_token,
}
use rust_service.Auth.Service.{
  World, AuthTokens, Draw, later, presented, refreshed_user, after_consume, refresh_token, logout,
}
use rust_service.Auth.Limit.{consume-tokens}
use rust_service.Auth.Server.{Request, run}
use rust_service.Auth.Spent.{
  IsSpent, consumed-IsSpent, revoked-IsSpent, then_issue-IsSpent, AreNew, run-IsSpent,
}

access_encoded :
    (jwt : Jwt) (secs now user jti : ℕ) (email name : String) (access : String × ℕ)
    → create_access_token jwt secs now user email name jti ≡ ok access
    → (c : AccessClaims) × (jwt.encode_access c ≡ ok access.0) × (c.typ ≡ "access")
unfolding create_access_token encoded token_type_access
access_encoded jwt secs now user jti email name access h = (
  record {
    sub = jwt.uuid_text user;
    email = email;
    username = name;
    exp = (now + secs) % 2 ^ 64;
    iat = now;
    jti = jwt.uuid_text jti;
    iss = issuer;
    typ = "access";
  },
  ground arith,
  refl,
)

refresh_encoded :
    (jwt : Jwt) (secs now user jti : ℕ) (refresh : String × ℕ) (drawn : ℕ)
    → create_refresh_token jwt secs now user jti ≡ ok (refresh.0, drawn, refresh.1)
    → (c : RefreshClaims) × (jwt.encode_refresh c ≡ ok refresh.0) × (c.typ ≡ "refresh")
unfolding create_refresh_token encoded token_type_refresh
refresh_encoded jwt secs now user jti refresh drawn h = (
  record {
    sub = jwt.uuid_text user;
    exp = (now + secs) % 2 ^ 64;
    iat = now;
    jti = jwt.uuid_text jti;
    iss = issuer;
    typ = "refresh";
  },
  ground arith,
  refl,
)

module _ (world : World) where
  -- A token without a live row is refused.
  refused :
      (faults : Faults) (db : Database) (draw : Draw) (token : String) (claims : RefreshClaims)
      (jti : ℕ)
      → ((c : RefreshClaims) (j : ℕ) → presented world draw.now token ≡ ok (c, j) → j ≡ jti)
      → live_token draw.now jti db.refresh_tokens ≡ none
      → is_ok (refresh_token world faults db draw token).1 ≡ false
  unfolding refresh_token consume_refresh_token statement required
  refused faults db draw token claims jti same spent =
      elim (Result-cases (presented world draw.now token)) [
        | inr (e, f) ↦ rw (f, refresh_token) refl
        | inl ((c, j), f) ↦
            let gone : live_token draw.now j db.refresh_tokens ≡ none = rw (same c j f) spent in
            ground arith
      ]

  absurd_refresh :
      {A : Type 0} (faults : Faults) (db : Database) (draw : Draw) (token : String) (e : AuthError)
      → presented world draw.now token ≡ err e
      → (tokens : AuthTokens) → (refresh_token world faults db draw token).1 ≡ ok tokens
      → A
  unfolding refresh_token
  absurd_refresh faults db draw token e f tokens h = ground arith

  -- An exchange that succeeds has spent the token.
  exchange-IsSpent :
      (faults : Faults) (db : Database) (draw : Draw) (token : String) (tokens : AuthTokens)
      (claims : RefreshClaims) (jti : ℕ)
      → presented world draw.now token ≡ ok (claims, jti)
      → (refresh_token world faults db draw token).1 ≡ ok tokens
      → (draw.refresh_jti == jti) ≡ false
      → IsSpent draw.now jti (refresh_token world faults db draw token).0.refresh_tokens
  unfolding refresh_token after_consume
  exchange-IsSpent faults db draw token tokens claims jti f h fresh at le =
      elim (Result-cases (consume_refresh_token faults db draw.now jti)) [
        | inr (e, g) ↦ ground arith
        | inl ((left, stored), g) ↦
            let gone : IsSpent draw.now jti left.refresh_tokens = λ n m.
              rw (consume-tokens faults db left draw.now jti stored g)
                (consumed-IsSpent draw.now jti db.refresh_tokens n m) in
            elim (Result-cases (refreshed_user world (later 1 faults) left claims stored)) [
              | inr (e, k) ↦ rw (f, g, k, refresh_token, after_consume) (gone at le)
              | inl (user, k) ↦
                  rw (f, g, k, refresh_token, after_consume)
                    (then_issue-IsSpent world (later 1 (later 1 faults)) left draw user draw.now jti
                      fresh gone at le)
            ]
      ]

  presented-decoded :
      (now : ℕ) (token : String) (c : RefreshClaims) (j : ℕ)
      → presented world now token ≡ ok (c, j)
      → (world.jwt.decode_refresh now token ≡ ok c) × (world.jwt.parse_uuid c.jti ≡ some j)
  unfolding presented validate_refresh_token decoded refuse_if required
  presented-decoded now token c j h = ground arith

  module _
      (stable : (n n' : ℕ) (t : String) (d d' : RefreshClaims)
        → world.jwt.decode_refresh n t ≡ ok d
        → world.jwt.decode_refresh n' t ≡ ok d'
        → d' ≡ d) where
    presented-stable :
        (now now' : ℕ) (token : String) (c c' : RefreshClaims) (j j' : ℕ)
        → presented world now token ≡ ok (c, j)
        → presented world now' token ≡ ok (c', j')
        → j' ≡ j
    presented-stable now now' token c c' j j' h h' =
        let first = presented-decoded now token c j h in
        let second = presented-decoded now' token c' j' h' in
        let same = stable now now' token c c' first.0 second.0 in
        ground (arith, first.1, second.1, same)

    -- A refresh token that was exchanged for new tokens is refused when it comes again at the same
    -- time or later, whatever requests are served in between, one after another, and also where
    -- statements of the database fail. The claims that decode from a text do not depend on the time,
    -- and the ids of the refresh tokens that are issued from the exchange on are not the old one.
    pub refresh_once :
        (faults again : Faults) (db : Database) (draw draw' : Draw) (token : String)
        (tokens : AuthTokens) (between : List (Faults × Request))
        → (refresh_token world faults db draw token).1 ≡ ok tokens
        → ((claims : RefreshClaims) (jti : ℕ)
            → presented world draw.now token ≡ ok (claims, jti)
            → ((draw.refresh_jti == jti) ≡ false) × AreNew jti between)
        → draw.now ≤ draw'.now
        → let db' = run world (refresh_token world faults db draw token).0 between in
          is_ok (refresh_token world again db' draw' token).1 ≡ false
    refresh_once faults again db draw draw' token tokens between h fresh le =
        elim (Result-cases (presented world draw.now token)) [
          | inr (e, f) ↦ absurd_refresh faults db draw token e f tokens h
          | inl ((claims, jti), f) ↦
              let used = (refresh_token world faults db draw token).0 in
              refused again (run world used between) draw' token claims jti
                (λ c j g. presented-stable draw.now draw'.now token claims c jti j f g)
                (run-IsSpent world draw.now jti used between (fresh claims jti f).1
                  (exchange-IsSpent faults db draw token tokens claims jti f h
                    (fresh claims jti f).0)
                  draw'.now le)
        ]

    -- A refresh token that was logged out is refused when it comes again, whatever requests are
    -- served in between, one after another. The claims that decode from a text do not depend on the
    -- time, and the ids of the refresh tokens that are issued in between are not the old one.
    pub logout_revokes :
        (faults again : Faults) (db next : Database) (now : ℕ) (draw : Draw) (token : String)
        (between : List (Faults × Request))
        → logout world faults db now token ≡ ok next
        → ((claims : RefreshClaims) (jti : ℕ)
            → presented world now token ≡ ok (claims, jti)
            → AreNew jti between)
        → is_ok (refresh_token world again (run world next between) draw token).1 ≡ false
    unfolding logout revoke_refresh_token statement refuse_if
    logout_revokes faults again db next now draw token between h fresh =
        elim (Result-cases (presented world now token)) [
          | inr (e, f) ↦ ground arith
          | inl ((claims, jti), f) ↦
              let left : next.refresh_tokens ≡ keep (λ t. not (t.jti == jti)) db.refresh_tokens =
                ground arith in
              refused again (run world next between) draw token claims jti
                (λ c j g. presented-stable now draw.now token claims c jti j f g)
                (run-IsSpent world 0 jti next between (fresh claims jti f)
                  (λ at le. rw left (revoked-IsSpent 0 jti db.refresh_tokens at le)) draw.now
                  (omega arith))
        ]

  -- Where decoding gives back the kind of token that was encoded, an access token is refused as a
  -- refresh token, and a refresh token as an access token, at every time.
  pub tokens_not_confused :
      ((n : ℕ) (c : AccessClaims) (t : String) (d : RefreshClaims)
        → world.jwt.encode_access c ≡ ok t
        → world.jwt.decode_refresh n t ≡ ok d
        → d.typ ≡ c.typ)
      → ((n : ℕ) (c : RefreshClaims) (t : String) (d : AccessClaims)
          → world.jwt.encode_refresh c ≡ ok t
          → world.jwt.decode_access n t ≡ ok d
          → d.typ ≡ c.typ)
      → (secs now at user jti : ℕ) (email name : String) (access refresh : String × ℕ) (drawn : ℕ)
      → create_access_token world.jwt secs now user email name jti ≡ ok access
      → create_refresh_token world.jwt secs now user jti ≡ ok (refresh.0, drawn, refresh.1)
      → (is_ok (validate_refresh_token world.jwt at access.0) ≡ false)
        × (is_ok (validate_access_token world.jwt at refresh.0) ≡ false)
  unfolding validate_access_token validate_refresh_token decoded refuse_if token_type_access
      token_type_refresh
  tokens_not_confused kind kind' secs now at user jti email name access refresh drawn h h' =
      let (c, e, typed) = access_encoded world.jwt secs now user jti email name access h in
      let (c', e', typed') = refresh_encoded world.jwt secs now user jti refresh drawn h' in
      (
        elim (Result-cases (world.jwt.decode_refresh at access.0)) [
          | inr (x, f) ↦ rw f refl
          | inl (d, f) ↦ rw (f, kind at c access.0 d e f, typed) refl
        ],
        elim (Result-cases (world.jwt.decode_access at refresh.0)) [
          | inr (x, f) ↦ rw f refl
          | inl (d, f) ↦ rw (f, kind' at c' refresh.0 d e' f, typed') refl
        ],
      )
