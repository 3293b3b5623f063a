-- ===== src/Auth/Accounts.antt =====
-- Who gets an account of service-auth, and who gets into one.
use rust_service.Base.{
  ℕ, ◌≤◌, String, len, ◌≡◌, refl, ap, ◌∙◌, ◌⊎◌, inl, inr, true, false, Option, none, some, List, [],
  ◌∷◌, arith, if◌then◌else◌, nat_beq_iff, string_partial_eq, ◌==◌, nat_partial_eq, pair_partial_eq,
  ok, err, Option-cases, Result-cases, is_some, is_ok,
}
use mathlib.Core.Option
use rust_service.Auth.Error.{invalid_credentials, refuse_if}
use rust_service.Auth.Store.{
  StoredUser, Database, Faults, statement, required, by_email, by_id, by_provider, user_taken,
  changed, replace_user, create_user, find_user_by_email, update_user, find_oauth_account,
}
use rust_service.Auth.Limit.{issue_tokens-ok, store_refresh_token-ok}
use rust_service.Auth.Service.{
  OAuthUserInfo, World, AuthTokens, Draw, later, is_valid_username, issue_tokens, then_issue,
  checked_registration, register, authenticated, login, user_from_access_token, linked_user,
  oauth_user, issue_for, o_auth_authenticate, checked_username, cleared, update_profile,
}

-- What `register` has checked and stored before it issues tokens.
registered :
    (world : World) (faults : Faults) (db : Database) (draw : Draw) (email name password : String)
    (tokens : AuthTokens)
    → (register world faults db draw email name password).1 ≡ ok tokens
    → (hash : String) × (made : Database) × (user : StoredUser) × (checked_registration world email
          name password
        ≡ ok hash)
      × (create_user faults db draw.user_id email name (some hash) ≡ ok (made, user))
      × ((register world faults db draw email name password).0
          ≡ (then_issue world (later 1 faults) made draw user).0)
unfolding register
registered world faults db draw email name password tokens h =
    elim (Result-cases (checked_registration world email name password)) [
      | inr (e, f) ↦ ground arith
      | inl (hash, f) ↦
          elim (Result-cases (create_user faults db draw.user_id email name (some hash))) [
            | inr (e, g) ↦ ground arith
            | inl ((made, user), g) ↦ (hash, made, user, f, g, rw (f, g, register) refl)
          ]
    ]

then_issue-users :
    (world : World) (faults : Faults) (db : Database) (draw : Draw) (user : StoredUser)
    → (then_issue world faults db draw user).0.users ≡ db.users
unfolding then_issue
then_issue-users world faults db draw user =
    elim (Result-cases (issue_tokens world faults db draw user.id user.email user.username)) [
      | inr (e, f) ↦ rw (f, then_issue) refl
      | inl ((next, tokens), f) ↦
          let (exp, stored) =
            issue_tokens-ok world faults db next draw user.id user.email user.username tokens f in
          rw
            (
              f,
              then_issue,
              store_refresh_token-ok faults db next draw.refresh_jti user.id exp stored,
            )
            refl
    ]

user_free :
    (id : ℕ) (email name : String) (users : List StoredUser)
    → user_taken id email name users ≡ false
    → (by_email email users ≡ none) × (by_id id users ≡ none)
unfolding user_taken by_email by_id
user_free id email name [] h = (refl, refl)
user_free id email name (u ∷ users) h = ground (arith, user_free id email name users)

-- A user who has just registered.
abbrev pub new_user : ℕ → (email name : String) → Option String → StoredUser
new_user id email name hash = record {
  id = id;
  email = email;
  username = name;
  password_hash = hash;
  avatar_url = none;
  bio = none;
}

created :
    (faults : Faults) (db made : Database) (id : ℕ) (email name : String) (hash : Option String)
    (user : StoredUser)
    → create_user faults db id email name hash ≡ ok (made, user)
    → (user_taken id email name db.users ≡ false)
      × (made.users ≡ user ∷ db.users)
      × (user.email ≡ email)
      × (user.password_hash ≡ hash)
unfolding create_user statement refuse_if
created faults db made id email name hash user h = ground arith

checked :
    (world : World) (email name password hash : String)
    → checked_registration world email name password ≡ ok hash
    → ((2 ≤ len name) × (len name ≤ 64))
      × ((8 ≤ len password) × (len password ≤ 128))
      × (world.hash_password password ≡ ok hash)
unfolding checked_registration refuse_if is_valid_username
checked world email name password hash h = ground arith

created-row :
    (faults : Faults) (db made : Database) (id : ℕ) (email name : String) (hash : Option String)
    (user : StoredUser)
    → create_user faults db id email name hash ≡ ok (made, user)
    → user ≡ new_user id email name hash
unfolding create_user statement refuse_if
created-row faults db made id email name hash user h = ground arith

-- A registration that succeeds has an email that nobody had, an id that nobody had, a name of 2 to 64
-- bytes and a password of 8 to 128 bytes; afterwards the email and the id lead to the new user, with
-- that id, email and name, the hash of the password and nothing else, and every other email and
-- every other id to the very user that they did.
pub register_stores :
    (world : World) (faults : Faults) (db : Database) (draw : Draw) (email name password : String)
    (tokens : AuthTokens)
    → (register world faults db draw email name password).1 ≡ ok tokens
    → let users = (register world faults db draw email name password).0.users in
      ((2 ≤ len name) × (len name ≤ 64))
      × ((8 ≤ len password) × (len password ≤ 128))
      × (by_email email db.users ≡ none)
      × (by_id draw.user_id db.users ≡ none)
      × ((hash : String) × (world.hash_password password ≡ ok hash)
          × ((other : String)
              → by_email other users ≡ (
                  if email == other
                  then some (new_user draw.user_id email name (some hash))
                  else by_email other db.users))
          × ((id : ℕ)
              → by_id id users ≡ (
                  if draw.user_id == id
                  then some (new_user draw.user_id email name (some hash))
                  else by_id id db.users)))
unfolding by_email by_id
register_stores world faults db draw email name password tokens h =
    let (hash, made, user, fits, stored, left) =
      registered world faults db draw email name password tokens h in
    let bounds = checked world email name password hash fits in
    let row = created faults db made draw.user_id email name (some hash) user stored in
    let users = ap Database.users left ∙ then_issue-users world (later 1 faults) made draw user in
    let free = user_free draw.user_id email name db.users row.0 in
    let whole = created-row faults db made draw.user_id email name (some hash) user stored in
    (
      bounds.0,
      bounds.1,
      free.0,
      free.1,
      (hash, bounds.2, λ other. rw (users, row.1, whole) refl, λ id. rw (users, row.1, whole) refl),
    )

-- Where the database answers, a login with both fields filled gives tokens to a user whose stored
-- hash the password fits, and to anybody else one and the same error, whether the email is
-- unknown, the account has no password or the password is wrong.
pub login_refusal :
    (world : World) (db : Database) (draw : Draw) (email password : String)
    → (len email == 0) ≡ false
    → (len password == 0) ≡ false
    → ((p hash : String)
        → (world.verify_password p hash ≡ ok tt)
          ⊎ (world.verify_password p hash ≡ err invalid_credentials))
    → ((user : StoredUser) × (hash : String) × (by_email email db.users ≡ some user)
        × (user.password_hash ≡ some hash)
        × (world.verify_password password hash ≡ ok tt)
        × (login world (λ i. none) db draw email password
            ≡ then_issue world (λ i. none) db draw user))
      ⊎ (login world (λ i. none) db draw email password ≡ (db, err invalid_credentials))
unfolding login authenticated refuse_if find_user_by_email statement required
login_refusal world db draw email password given filled verdict =
    elim (Option-cases (by_email email db.users)) [
      | inl n ↦ inr (ground (arith, n))
      | inr (user, f) ↦ elim (Option-cases user.password_hash) [
        | inl n ↦ inr (ground (arith, f, n))
        | inr (hash, g) ↦ elim (verdict password hash) [
          | inl v ↦ inl (user, hash, f, g, v, ground (arith, f, g, v))
          | inr v ↦ inr (ground (arith, f, g, v))
        ]
      ]
    ]

-- An OAuth identity that is not linked yet gets no tokens for an email whose account has a
-- password, and the database stays as it was, also where its statements fail.
pub oauth_protects :
    (world : World) (faults : Faults) (db : Database) (draw : Draw) (provider code uri : String)
    (info : OAuthUserInfo) (user : StoredUser)
    → world.exchange_code provider code uri ≡ ok info
    → by_provider provider info.provider_user_id db.oauth_accounts ≡ none
    → by_email info.email db.users ≡ some user
    → is_some user.password_hash ≡ true
    → ((o_auth_authenticate world faults db draw provider code uri).0 ≡ db)
      × (is_ok (o_auth_authenticate world faults db draw provider code uri).1 ≡ false)
unfolding o_auth_authenticate oauth_user linked_user find_oauth_account find_user_by_email statement
    issue_for
oauth_protects world faults db draw provider code uri info user exchanged unlinked found locked =
    ground arith

replace_other :
    (new : StoredUser) (id : ℕ) (users : List StoredUser)
    → (new.id == id) ≡ false
    → by_id id (replace_user new users) ≡ by_id id users
unfolding by_id replace_user
replace_other new id [] h = refl
replace_other new id (u ∷ users) h = ground (
  arith,
  replace_other new id users h,
  nat_beq_iff u.id id,
  nat_beq_iff u.id new.id,
  nat_beq_iff new.id id,
)

-- What a login reads of an account.
abbrev pub credentials : StoredUser → String × Option String
credentials u = (u.email, u.password_hash)

replace-credentials :
    (new old : StoredUser) (id : ℕ) (users : List StoredUser)
    → by_id new.id users ≡ some old
    → credentials new ≡ credentials old
    → Option.map credentials (by_id id (replace_user new users))
      ≡ Option.map credentials (by_id id users)
unfolding by_id replace_user
replace-credentials new old id [] h same = cc
replace-credentials new old id (u ∷ users) h same = ground (
  arith,
  replace-credentials new old id users,
  replace_other new id users,
  same,
  nat_beq_iff u.id id,
  nat_beq_iff u.id new.id,
  nat_beq_iff new.id id,
)

pub by_id-found :
    (id : ℕ) (users : List StoredUser) (u : StoredUser) → by_id id users ≡ some u → u.id ≡ id
unfolding by_id
by_id-found id [] u h = cc
by_id-found id (v ∷ users) u h = ground (arith, by_id-found id users u, nat_beq_iff v.id id)

pub replaced :
    (faults : Faults) (db next : Database) (key : ℕ) (username : Option String)
    (avatar_url bio : Option (Option String)) (user : StoredUser)
    → update_user faults db key username avatar_url bio ≡ ok (next, user)
    → (old : StoredUser) × (by_id key db.users ≡ some old)
      × (next.users ≡ replace_user (changed username avatar_url bio old) db.users)
unfolding update_user statement refuse_if required
replaced faults db next key username avatar_url bio user h =
    elim (Option-cases (by_id key db.users)) [
      | inl n ↦ ground arith
      | inr (old, f) ↦ (old, f, ground arith)
    ]

-- A change of profile leaves every account its email and its password.
pub update_keeps :
    (world : World) (faults : Faults) (db next : Database) (now : ℕ) (token : String)
    (username avatar_url bio : Option String) (user : StoredUser)
    → update_profile world faults db now token username avatar_url bio ≡ ok (next, user)
    → (id : ℕ)
    → Option.map credentials (by_id id next.users) ≡ Option.map credentials (by_id id db.users)
unfolding update_profile changed
update_keeps world faults db next now token username avatar_url bio user h id =
    elim (Result-cases (user_from_access_token world faults db now token)) [
      | inr (e, f) ↦ ground arith
      | inl (me, f) ↦ elim (Result-cases (checked_username world username)) [
        | inr (e, g) ↦ ground arith
        | inl (name, g) ↦
            let inner : update_user (later 1 faults) db me.id name (cleared world avatar_url)
                  (cleared world bio)
                ≡ ok (next, user) =
              ground arith in
            let (old, found, same) =
              replaced (later 1 faults) db next me.id name (cleared world avatar_url)
                (cleared world bio) user inner in
            rw same (
              replace-credentials (changed name (cleared world avatar_url) (cleared world bio) old)
                old id db.users (rw (by_id-found me.id db.users old found) found) refl)
      ]
    ]
