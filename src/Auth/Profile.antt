-- ===== src/Auth/Profile.antt =====
-- `get_me` and `user_to_profile` of service-auth/src/service.rs, and what a user reads after a
-- change of the profile.
use rust_service.Base.{
  ℕ, String, ◌≡◌, sym, subst, ◌∙◌, inl, inr, Option, none, some, List, [], ◌∷◌, arith, nat_beq_iff,
  string_partial_eq, nat_partial_eq, pair_partial_eq, Result, ok, ◌>>=◌, Option-cases, Result-cases,
}
use rust_service.Auth.Error.{AuthError}
use rust_service.Auth.Store.{
  StoredUser, Database, Faults, statement, required, by_id, changed, replace_user, find_user_by_id,
  update_user,
}
use rust_service.Auth.Service.{World, validate_token, user_from_access_token, update_profile}
use rust_service.Auth.Accounts.{by_id-found}

pub record UserProfile : Type 0 where
  pub id : String
  pub email : String
  pub username : String
  pub avatar_url : Option String
  pub bio : Option String

unfoldable pub user_to_profile : World → StoredUser → UserProfile
user_to_profile world user = record {
  id = world.jwt.uuid_text user.id;
  email = user.email;
  username = user.username;
  avatar_url = user.avatar_url;
  bio = user.bio;
}

unfoldable pub get_me : World → Faults → Database → ℕ → String → Result UserProfile AuthError
get_me world faults db now token = do
  user ← user_from_access_token world faults db now token
  ok (user_to_profile world user)

by_id-replaced :
    (new old : StoredUser) (users : List StoredUser)
    → by_id new.id users ≡ some old
    → by_id new.id (replace_user new users) ≡ some new
unfolding by_id replace_user
by_id-replaced new old [] h = absurd (ground (arith, h))
by_id-replaced new old (u ∷ users) h =
    ground
      (arith, h, by_id-replaced new old users, nat_beq_iff u.id new.id, nat_beq_iff new.id new.id)

-- After a change of the profile that succeeds, the same token reads the profile that the change
-- has answered with, while the database answers.
pub get_me-updated :
    (world : World) (faults : Faults) (db next : Database) (now : ℕ) (token : String)
    (username avatar_url bio : Option String) (user : StoredUser)
    → update_profile world faults db now token username avatar_url bio ≡ ok (next, user)
    → get_me world (λ i. none) next now token ≡ ok (user_to_profile world user)
unfolding update_profile get_me user_from_access_token find_user_by_id statement required changed
    update_user
get_me-updated world faults db next now token username avatar_url bio user h =
    elim (Result-cases (validate_token world now token)) [
      | inr (e, f) ↦ absurd (ground (arith, h, f))
      | inl (claims, f) ↦ elim (Option-cases (world.jwt.parse_uuid claims.sub)) [
        | inl n ↦ absurd (ground (arith, h, f, n))
        | inr (id, named) ↦ elim (Option-cases (by_id id db.users)) [
          | inl n ↦ absurd (ground (arith, h, f, named, n))
          | inr (me, found) ↦
              let same : me.id ≡ id = by_id-found id db.users me found in
              let parts : (user.id ≡ me.id) × (next.users ≡ replace_user user db.users) =
                ground (arith, h, f, named, found, same) in
              let held : by_id user.id db.users ≡ some me =
                subst (λ i. by_id i db.users ≡ some me) (sym (parts.0 ∙ same)) found in
              let stored : by_id id next.users ≡ some user = rw (parts.1) (
                subst (λ i. by_id i (replace_user user db.users) ≡ some user) (parts.0 ∙ same)
                  (by_id-replaced user me db.users held)) in
              ground (arith, f, named, stored)
        ]
      ]
    ]
