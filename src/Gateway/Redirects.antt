-- ===== src/Gateway/Redirects.antt =====
-- Where the callback of an OAuth login leads, and what the frontend reads there.
use rust_service.Base.{
  ℕ, ◌<◌, ◌≡◌, refl, inl, inr, Bool, true, false, not, ◌&&◌, Option, some, [], ◌∷◌, ◌++◌,
  string_partial_eq, ◌==◌, nat_partial_eq, pair_partial_eq, Option-cases, Result-cases, Bytes, All,
  lookup,
}
use rust_service.Gateway.Answers.{AuthContext, Response, respond_redirect}
use rust_service.Gateway.Access.{AuthTokens, AuthClient, Json, tokens_to_session, redirect_uri}
use rust_service.Gateway.Callback.{
  scan_query, provider_of, to_frontend, signed_in, handle_oauth_callback,
}

-- No byte separates parameters.
abbrev pub IsWhole : Bytes → Type 0
IsWhole s = All (λ b. (b == 38) ≡ false) s

-- The test of `IsWhole`.
abbrev is_whole : Bytes → Bool
is_whole [] = true
is_whole (b ∷ s) = let rest = is_whole s in not (b == 38) && rest

-- A text of bytes that is valid UTF-8.
abbrev pub IsText : (Bytes → Bool) → Bytes → Type 0
IsText is_utf8 s = All (λ b. b < 256) s × (is_utf8 s ≡ true)

module _ (is_utf8 : Bytes → Bool) (decimal : ℕ → Bytes) (json : Json) (client : AuthClient)
    (ctx : AuthContext) (now : ℕ) where
  -- A redirect to a path of the frontend.
  abbrev pub Stays : Response → Type 0
  Stays response =
      (response.status ≡ 302)
      × ((rest : Bytes) × (lookup "location" response.response_headers
            ≡ some (ctx.frontend_url ++ 47 ∷ rest)))

  to_frontend-Stays :
      (rest : Bytes) → Stays (to_frontend is_utf8 decimal json client ctx now (47 ∷ rest))
  unfolding to_frontend respond_redirect lookup
  to_frontend-Stays rest = (refl, (rest, refl))

  signed_in-Stays : (t : AuthTokens) → Stays (signed_in is_utf8 decimal json client ctx now t)
  unfolding signed_in
  signed_in-Stays t = elim (Result-cases (tokens_to_session now t)) [
    | inl (session, made) ↦ rw (made, signed_in) (to_frontend-Stays _)
    | inr (e, fails) ↦ rw (fails, signed_in) (to_frontend-Stays _)
  ]

  -- Whatever the query and whatever service-auth answers, the callback redirects, and to an address
  -- of the frontend.
  pub callback-Stays :
      (query : Option Bytes)
      → Stays (handle_oauth_callback is_utf8 decimal json client ctx now query)
  unfolding handle_oauth_callback
  callback-Stays query = elim (Option-cases (scan_query is_utf8 query).0) [
    | inl no_code ↦ rw (handle_oauth_callback, no_code) (to_frontend-Stays _)
    | inr (code, given) ↦ elim (Option-cases (scan_query is_utf8 query).1) [
      | inl no_provider ↦ rw (handle_oauth_callback, given, no_provider) (to_frontend-Stays _)
      | inr (name, named) ↦ elim (Option-cases (provider_of name)) [
        | inl no_such ↦ rw (handle_oauth_callback, given, named, no_such) (to_frontend-Stays _)
        | inr (provider, known) ↦
            elim (Result-cases
              (client.o_auth_authenticate provider code (redirect_uri json client ctx now name))) [
                | inl (t, accepted) ↦
                    rw (handle_oauth_callback, given, named, known, accepted) (signed_in-Stays t)
                | inr (s, refused) ↦
                    rw (handle_oauth_callback, given, named, known, refused) (to_frontend-Stays _)
              ]
      ]
    ]
  ]
