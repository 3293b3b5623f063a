-- ===== src/Auth/Store.antt =====
-- service-auth/src/store.rs and the tables of its migrations. `faults` says which statement of an
-- operation the database answers with an error; ids, the time and `created_at` are arguments, and
-- the tokens stand with the newest first.
use rust_service.Base.{
  ℕ, zero, suc, ◌-◌, String, Bool, false, not, ◌&&◌, ◌||◌, Option, none, some, List, [], ◌∷◌, ltb,
  if◌then◌else◌, string_partial_eq, ◌==◌, nat_partial_eq, pair_partial_eq, Result, ok, err, ◌>>=◌,
  is_some, keep,
}
use rust_service.Auth.Error.{
  AuthError, refuse_if, user_already_exists, user_not_found, token_not_found, internal,
}

pub record StoredUser : Type 0 where
  pub id : ℕ
  pub email : String
  pub username : String
  pub password_hash : Option String
  pub avatar_url : Option String
  pub bio : Option String

pub record StoredRefreshToken : Type 0 where
  pub jti : ℕ
  pub user_id : ℕ
  pub expires_at : ℕ

pub record StoredOAuthAccount : Type 0 where
  pub user_id : ℕ
  pub provider : String
  pub provider_user_id : String

pub record Database : Type 0 where
  pub users : List StoredUser
  pub oauth_accounts : List StoredOAuthAccount
  pub refresh_tokens : List StoredRefreshToken

abbrev pub Faults : Type 0
Faults = ℕ → Option String

-- A statement whose error becomes `Internal`.
unfoldable pub statement : {A : Type 0} → Option String → A → Result A AuthError
statement none a = ok a
statement (some e) a = err (internal e)

unfoldable pub required : {A : Type 0} → AuthError → Option A → Result A AuthError
required e none = err e
required e (some a) = ok a

unfoldable pub by_email : String → List StoredUser → Option StoredUser
by_email email [] = none
by_email email (u ∷ users) = if u.email == email then some u else by_email email users

unfoldable pub by_id : ℕ → List StoredUser → Option StoredUser
by_id id [] = none
by_id id (u ∷ users) = if u.id == id then some u else by_id id users

unfoldable pub by_provider : String → String → List StoredOAuthAccount → Option StoredOAuthAccount
by_provider provider user [] = none
by_provider provider user (a ∷ accounts) =
    if a.provider == provider && a.provider_user_id == user
    then some a
    else by_provider provider user accounts

-- The primary key and the two unique columns of the table of users.
unfoldable pub user_taken : ℕ → String → String → List StoredUser → Bool
user_taken id email username [] = false
user_taken id email username (u ∷ users) =
    ((u.id == id || u.email == email) || u.username == username)
    || user_taken id email username users

unfoldable pub username_taken : String → ℕ → List StoredUser → Bool
username_taken username id [] = false
username_taken username id (u ∷ users) =
    (u.username == username && not (u.id == id)) || username_taken username id users

-- `CASE WHEN set THEN value ELSE column END`.
unfoldable pub case_set : Option (Option String) → Option String → Option String
case_set none old = old
case_set (some value) old = value

unfoldable pub coalesce_text : Option String → String → String
coalesce_text none old = old
coalesce_text (some value) old = value

unfoldable pub changed :
    Option String → Option (Option String) → Option (Option String) → StoredUser → StoredUser
changed username avatar_url bio u = record u {
  username = coalesce_text username u.username;
  avatar_url = case_set avatar_url u.avatar_url;
  bio = case_set bio u.bio;
}

unfoldable pub replace_user : StoredUser → List StoredUser → List StoredUser
replace_user new [] = []
replace_user new (u ∷ users) = (if u.id == new.id then new else u) ∷ replace_user new users

-- The row of the token, unless it has expired.
unfoldable pub live_token : ℕ → ℕ → List StoredRefreshToken → Option StoredRefreshToken
live_token now jti [] = none
live_token now jti (t ∷ tokens) =
    if t.jti == jti && ltb now t.expires_at then some t else live_token now jti tokens

unfoldable pub has_token : ℕ → List StoredRefreshToken → Bool
has_token jti [] = false
has_token jti (t ∷ tokens) = t.jti == jti || has_token jti tokens

-- `ORDER BY created_at DESC OFFSET n` names the rows of the user that this drops.
unfoldable pub keep_newest : ℕ → ℕ → List StoredRefreshToken → List StoredRefreshToken
keep_newest user n [] = []
keep_newest user zero (t ∷ tokens) =
    let rest = keep_newest user zero tokens in if t.user_id == user then rest else t ∷ rest
keep_newest user (suc n) (t ∷ tokens) =
    let counted = keep_newest user n tokens in
    let other = keep_newest user (suc n) tokens in
    t ∷ (if t.user_id == user then counted else other)

unfoldable pub max_refresh_tokens_per_user : ℕ
max_refresh_tokens_per_user = 10

module _ (faults : Faults) where
  -- `create_user`, and with `password_hash` absent `create_oauth_user`.
  unfoldable pub create_user :
      Database → ℕ → String → String → Option String → Result (Database × StoredUser) AuthError
  create_user db id email username password_hash =
      let user : StoredUser = record {
        id = id;
        email = email;
        username = username;
        password_hash = password_hash;
        avatar_url = none;
        bio = none;
      } in
      do
        reached ← statement (faults 0) tt
        unused ← refuse_if (user_taken id email username db.users) user_already_exists
        ok (record db { users = user ∷ db.users }, user)

  unfoldable pub find_user_by_email : Database → String → Result (Option StoredUser) AuthError
  find_user_by_email db email = statement (faults 0) (by_email email db.users)

  unfoldable pub find_user_by_id : Database → ℕ → Result StoredUser AuthError
  find_user_by_id db id = do
    row ← statement (faults 0) (by_id id db.users)
    required user_not_found row

  unfoldable pub update_user :
      Database
      → ℕ
      → Option String
      → Option (Option String)
      → Option (Option String)
      → Result (Database × StoredUser) AuthError
  update_user db id username avatar_url bio = do
    row ← statement (faults 0) (by_id id db.users)
    old ← required user_not_found row
    let new = changed username avatar_url bio old
    unused ← refuse_if (username_taken new.username id db.users) user_already_exists
    ok (record db { users = replace_user new db.users }, new)

  unfoldable pub find_oauth_account :
      Database → String → String → Result (Option StoredOAuthAccount) AuthError
  find_oauth_account db provider provider_user_id =
      statement (faults 0) (by_provider provider provider_user_id db.oauth_accounts)

  unfoldable pub create_oauth_account : Database → ℕ → String → String → Result Database AuthError
  create_oauth_account db user_id provider provider_user_id =
      let account : StoredOAuthAccount = record {
        user_id = user_id;
        provider = provider;
        provider_user_id = provider_user_id;
      } in
      do
        reached ← statement (faults 0) tt
        unused ←
            refuse_if (is_some (by_provider provider provider_user_id db.oauth_accounts))
              (internal "unique violation")
        linked ←
            refuse_if (not (is_some (by_id user_id db.users))) (internal "foreign key violation")
        ok (record db { oauth_accounts = account ∷ db.oauth_accounts })

  -- One transaction: `begin`, the advisory lock, the deletion, the insertion and `commit`.
  unfoldable pub store_refresh_token : Database → ℕ → ℕ → ℕ → Result Database AuthError
  store_refresh_token db jti user_id expires_at =
      let token : StoredRefreshToken = record {
        jti = jti;
        user_id = user_id;
        expires_at = expires_at;
      } in
      do
        begun ← statement (faults 0) tt
        locked ← statement (faults 1) tt
        trimmed ←
            statement (faults 2)
              (keep_newest user_id (max_refresh_tokens_per_user - 1) db.refresh_tokens)
        inserted ← statement (faults 3) tt
        unused ← refuse_if (has_token jti trimmed) (internal "unique violation")
        owned ←
            refuse_if (not (is_some (by_id user_id db.users))) (internal "foreign key violation")
        committed ← statement (faults 4) tt
        ok (record db { refresh_tokens = token ∷ trimmed })

  unfoldable pub consume_refresh_token :
      Database → ℕ → ℕ → Result (Database × StoredRefreshToken) AuthError
  consume_refresh_token db now jti = do
    row ← statement (faults 0) (live_token now jti db.refresh_tokens)
    stored ← required token_not_found row
    ok (
      record db {
        refresh_tokens = keep (λ t. not (t.jti == jti && ltb now t.expires_at)) db.refresh_tokens;
      },
      stored,
    )

  unfoldable pub revoke_refresh_token : Database → ℕ → Result Database AuthError
  revoke_refresh_token db jti = do
    reached ← statement (faults 0) tt
    found ← refuse_if (not (has_token jti db.refresh_tokens)) token_not_found
    ok (record db { refresh_tokens = keep (λ t. not (t.jti == jti)) db.refresh_tokens })

  unfoldable pub cleanup_expired_tokens : Database → ℕ → Result Database AuthError
  cleanup_expired_tokens db now = do
    reached ← statement (faults 0) tt
    ok (record db { refresh_tokens = keep (λ t. ltb now t.expires_at) db.refresh_tokens })
