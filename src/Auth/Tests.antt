-- ===== src/Auth/Tests.antt =====
-- Runs of service-auth on small inputs, and the theorems at such inputs.
use rust_service.Base.{
  List, ℕ, ◌≤◌, String, len, ◌≡◌, refl, ◌⊎◌, inl, inr, true, false, none, some, [], ◌∷◌, arith,
  if◌then◌else◌, string_partial_eq, ◌==◌, nat_partial_eq, pair_partial_eq, Result, ok, err,
  Bool-cases, is_ok,
}
use rust_service.Auth.Error.{invalid_credentials, refuse_if}
use rust_service.Auth.Token.{
  AccessClaims, RefreshClaims, JwtError, Jwt, token_type_access, token_type_refresh, encoded,
  decoded, create_access_token, create_refresh_token, validate_access_token, validate_refresh_token,
}
use rust_service.Auth.Store.{
  StoredUser, Database, Faults, statement, required, by_email, by_id, by_provider, user_taken,
  username_taken, case_set, coalesce_text, changed, replace_user, live_token, has_token,
  keep_newest, max_refresh_tokens_per_user, create_user, find_user_by_id, update_user,
  store_refresh_token, consume_refresh_token, revoke_refresh_token,
}
use rust_service.Auth.Profile.{user_to_profile, get_me, get_me-updated}
use rust_service.Auth.Service.{
  World, AuthTokens, Draw, is_valid_email, is_valid_username, issue_tokens, then_issue,
  checked_registration, register, presented, refreshed_user, after_consume, refresh_token, logout,
  validate_token, user_from_access_token, o_auth_authenticate, checked_username, cleared,
  update_profile,
}
use rust_service.Auth.Server.{Request, to_login, to_refresh, to_clean, run}
use rust_service.Auth.Limit.{IsLimited}
use rust_service.Auth.Sessions.{empty_database, at_most_ten}
use rust_service.Auth.Spent.{AreNew}
use rust_service.Auth.Refresh.{refresh_once, logout_revokes}
use rust_service.Auth.Accounts.{new_user, register_stores, oauth_protects}

-- A token is the name of its kind; every refresh token has the id 7 and is the first user's.
abbrev pub toy_access : ℕ → String → Result AccessClaims JwtError
toy_access n t = ok (record {
  sub = "1";
  email = "ann@mail.org";
  username = "ann";
  exp = 100;
  iat = 0;
  jti = "7";
  iss = "service-auth";
  typ = t;
})

abbrev pub toy_refresh : ℕ → String → Result RefreshClaims JwtError
toy_refresh n t =
    ok (record { sub = "1"; exp = 100; iat = 0; jti = "7"; iss = "service-auth"; typ = t })

abbrev pub toy_jwt : Jwt
toy_jwt = record {
  encode_access = λ c. ok c.typ;
  encode_refresh = λ c. ok c.typ;
  decode_access = toy_access;
  decode_refresh = toy_refresh;
  uuid_text = λ id. "id";
  parse_uuid = λ s. if s == "1" then some 1 else if s == "7" then some 7 else none;
}

-- A hash is the password itself.
abbrev pub toy_world : World
toy_world = record {
  jwt = toy_jwt;
  hash_password = λ p. ok p;
  verify_password = λ p hash. if p == hash then ok tt else err invalid_credentials;
  exchange_code = λ provider code uri.
      ok (record { provider_user_id = "g"; email = "ann@mail.org"; name = "Ann" });
  from_timestamp = λ n. some n;
  split_at = λ s. some ("ann", "mail.org");
  contains_dot = λ s. true;
  trim = λ s. s;
  access_expiration_secs = 60;
  refresh_expiration_secs = 600;
}

abbrev fine : Faults
fine i = none

abbrev broken : Faults
broken i = if i == 2 then some "connection reset" else none

abbrev pub draw : Draw
draw = record { now = 5; user_id = 2; access_jti = 30; refresh_jti = 8 }

abbrev pub ann : StoredUser
ann = record {
  id = 1;
  email = "ann@mail.org";
  username = "ann";
  password_hash = some "correct horse";
  avatar_url = none;
  bio = none;
}

abbrev pub db : Database
db = record {
  users = ann ∷ [];
  oauth_accounts = [];
  refresh_tokens = record { jti = 7; user_id = 1; expires_at = 100 } ∷ [];
}

abbrev answer : AuthTokens
answer = record {
  access_token = "access";
  refresh_token = "refresh";
  access_expires_at = 65;
  refresh_expires_at = 605;
}

refresh_runs : (refresh_token toy_world fine db draw "refresh").1 ≡ ok answer
unfolding refresh_token presented validate_refresh_token decoded refuse_if required
    token_type_refresh consume_refresh_token statement live_token after_consume refreshed_user
    find_user_by_id by_id then_issue issue_tokens create_access_token create_refresh_token encoded
    token_type_access store_refresh_token keep_newest max_refresh_tokens_per_user has_token
refresh_runs = refl

abbrev logged_out : Database
logged_out = record db { refresh_tokens = [] }

logout_runs : logout toy_world fine db 5 "refresh" ≡ ok logged_out
unfolding logout presented validate_refresh_token decoded refuse_if required token_type_refresh
    revoke_refresh_token statement has_token
logout_runs = refl

register_runs :
    (register toy_world fine empty_database draw "bob@mail.org" "bob" "long enough").1 ≡ ok answer
unfolding register checked_registration is_valid_email is_valid_username refuse_if create_user
    statement user_taken then_issue issue_tokens create_access_token create_refresh_token encoded
    required token_type_access token_type_refresh store_refresh_token keep_newest
    max_refresh_tokens_per_user has_token by_id
register_runs = refl

abbrev renamed : Database
renamed = record db { users = record ann { bio = some "hi" } ∷ [] }

update_runs :
    update_profile toy_world fine db 5 "access" none none (some "hi")
    ≡ ok (renamed, record ann { bio = some "hi" })
unfolding update_profile user_from_access_token validate_token validate_access_token decoded
    refuse_if required token_type_access find_user_by_id statement by_id checked_username cleared
    update_user changed coalesce_text case_set username_taken replace_user
update_runs = refl

get_me-updated_example :
    get_me toy_world (λ i. none) renamed 5 "access"
    ≡ ok (user_to_profile toy_world (record ann { bio = some "hi" }))
get_me-updated_example =
    get_me-updated toy_world fine db renamed 5 "access" none none (some "hi")
      (record ann { bio = some "hi" }) update_runs

-- The claims of a toy token do not depend on the time.
toy_stable :
    (n n' : ℕ) (t : String) (d d' : RefreshClaims)
    → toy_refresh n t ≡ ok d
    → toy_refresh n' t ≡ ok d'
    → d' ≡ d
toy_stable n n' t d d' h h' = cc

-- What is served between the exchange and the second use of the token.
abbrev between : List (Faults × Request)
between = (fine, to_login draw "ann@mail.org" "x") ∷ (broken, to_clean 6) ∷ []

toy_new :
    (claims : RefreshClaims) (jti : ℕ)
    → presented toy_world 5 "refresh" ≡ ok (claims, jti)
    → ((8 == jti) ≡ false) × AreNew jti between
unfolding presented validate_refresh_token decoded refuse_if required token_type_refresh
toy_new claims jti h = let same : jti ≡ 7 = ground arith in rw same (refl, (refl, (tt, tt)))

at_most_ten_example : IsLimited (
    run toy_world empty_database
      ((fine, to_login draw "ann@mail.org" "x") ∷ (broken, to_refresh draw "refresh") ∷ []))
at_most_ten_example =
    at_most_ten toy_world
      ((fine, to_login draw "ann@mail.org" "x") ∷ (broken, to_refresh draw "refresh") ∷ [])

refresh_once_example :
    is_ok
      (refresh_token toy_world broken
        (run toy_world (refresh_token toy_world fine db draw "refresh").0 between)
        draw
        "refresh").1
    ≡ false
refresh_once_example =
    refresh_once toy_world toy_stable fine broken db draw draw "refresh" answer between refresh_runs
      toy_new (omega arith)

logout_revokes_example :
    is_ok (refresh_token toy_world broken (run toy_world logged_out between) draw "refresh").1
    ≡ false
logout_revokes_example =
    logout_revokes toy_world toy_stable fine broken db logged_out 5 draw "refresh" between
      logout_runs (λ claims jti h. (toy_new claims jti h).1)

access_runs : create_access_token toy_jwt 60 5 1 "ann@mail.org" "ann" 30 ≡ ok ("access", 65)
unfolding create_access_token encoded token_type_access
access_runs = refl

refresh_made : create_refresh_token toy_jwt 60 5 1 30 ≡ ok ("refresh", 30, 65)
unfolding create_refresh_token encoded token_type_refresh
refresh_made = refl

toy_kind :
    (n : ℕ) (c : AccessClaims) (t : String) (d : RefreshClaims)
    → toy_jwt.encode_access c ≡ ok t
    → toy_refresh n t ≡ ok d
    → d.typ ≡ c.typ
toy_kind n c t d h h' = ground arith

toy_kind' :
    (n : ℕ) (c : RefreshClaims) (t : String) (d : AccessClaims)
    → toy_jwt.encode_refresh c ≡ ok t
    → toy_access n t ≡ ok d
    → d.typ ≡ c.typ
toy_kind' n c t d h h' = ground arith

register_stores_example :
    let users =
      (register toy_world fine empty_database draw "bob@mail.org" "bob" "long enough").0.users in
    ((2 ≤ len "bob") × (len "bob" ≤ 64))
    × ((8 ≤ len "long enough") × (len "long enough" ≤ 128))
    × (by_email "bob@mail.org" [] ≡ none)
    × (by_id draw.user_id [] ≡ none)
    × ((hash : String) × (toy_world.hash_password "long enough" ≡ ok hash)
        × ((other : String)
            → by_email other users ≡ (
                if "bob@mail.org" == other
                then some (new_user draw.user_id "bob@mail.org" "bob" (some hash))
                else by_email other []))
        × ((id : ℕ)
            → by_id id users ≡ (
                if draw.user_id == id
                then some (new_user draw.user_id "bob@mail.org" "bob" (some hash))
                else by_id id [])))
register_stores_example =
    register_stores toy_world fine empty_database draw "bob@mail.org" "bob" "long enough" answer
      register_runs

pub toy_verdict :
    (p hash : String)
    → (toy_world.verify_password p hash ≡ ok tt)
      ⊎ (toy_world.verify_password p hash ≡ err invalid_credentials)
toy_verdict p hash = elim (Bool-cases (p == hash)) [
  | inl e ↦ inl (rw e refl)
  | inr e ↦ inr (rw e refl)
]

by_email_runs : by_email "ann@mail.org" db.users ≡ some ann
unfolding by_email
by_email_runs = refl

unlinked_runs : by_provider "google" "g" [] ≡ none
unfolding by_provider
unlinked_runs = refl

oauth_protects_example :
    ((o_auth_authenticate toy_world broken db draw "google" "code" "uri").0 ≡ db)
    × (is_ok (o_auth_authenticate toy_world broken db draw "google" "code" "uri").1 ≡ false)
oauth_protects_example =
    oauth_protects toy_world broken db draw "google" "code" "uri"
      (record { provider_user_id = "g"; email = "ann@mail.org"; name = "Ann" }) ann refl
      unlinked_runs by_email_runs refl
