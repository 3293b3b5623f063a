-- ===== src/Auth/Origins.antt =====
-- What a redirect address must be for a provider to be asked, and which email a login may come with.
use rust_service.Base.{
  String, ◌≡◌, refl, sym, ap, ◌∙◌, ◌⊎◌, inl, inr, true, ◌&&◌, some, List, [], ◌∷◌, ◌++◌, arith,
  nat_beq, nat_beq_iff, string_partial_eq, nat_partial_eq, pair_partial_eq, eq_of_==, ok, err,
  Bool-cases, Option-cases, Result-cases, Bytes, length, any_same, IsOneOf, any_same-IsOneOf,
  no_items,
}
use mathlib.Core.List.{append_assoc}
use rust_service.Auth.Error.{invalid_argument}
use rust_service.Auth.OAuth.{
  OAuthProvider, github, ProviderConfig, OAuthManager, OAuthUserInfo, GitHubEmail, Http, to_slash,
  past_mark, scheme, extract_origin, or_oauth_error, primary_email, validate_redirect_uri,
  configured, get_authorize_url, github_exchange, exchange_code,
}

-- Nothing, or a path.
abbrev pub IsPath : Bytes → Type 0
IsPath [] = Unit
IsPath (b ∷ s) = b ≡ 47

-- A text is what stands before its first slash, and a path.
to_slash-IsPath : (s : Bytes) → (rest : Bytes) × (s ≡ to_slash s ++ rest) × IsPath rest
unfolding to_slash
to_slash-IsPath [] = ([], refl, tt)
to_slash-IsPath (b ∷ s) = elim (Bool-cases (nat_beq b 47)) [
  | inl slash ↦ rw slash (b ∷ s, refl, eq_of_== b 47 slash)
  | inr other ↦
      let (rest, whole, path) = to_slash-IsPath s in rw other (rest, ap (λ t. b ∷ t) whole, path)
]

past_mark-ok : (s rest : Bytes) → past_mark s ≡ some rest → s ≡ 58 ∷ 47 ∷ 47 ∷ rest
unfolding past_mark
past_mark-ok [] rest h = absurd (ground (arith, h))
past_mark-ok (a ∷ []) rest h = absurd (ground (arith, h))
past_mark-ok (a ∷ b ∷ []) rest h = absurd (ground (arith, h))
past_mark-ok (a ∷ b ∷ c ∷ s) rest h =
    ground (arith, h, nat_beq_iff a 58, nat_beq_iff b 47, nat_beq_iff c 47)

scheme-ok : (s front rest : Bytes) → scheme s ≡ some (front, rest) → s ≡ front ++ rest
unfolding scheme
scheme-ok [] front rest h = absurd (ground (arith, h))
scheme-ok (b ∷ s) front rest h = elim (Option-cases (past_mark (b ∷ s))) [
  | inr (after, mark) ↦
      let same : (front ≡ 58 ∷ 47 ∷ 47 ∷ []) × (rest ≡ after) = ground (arith, h, mark) in
      rw (same.0, same.1) (past_mark-ok (b ∷ s) after mark)
  | inl no_mark ↦ elim (Option-cases (scheme s)) [
    | inl no_scheme ↦ absurd (ground (arith, h))
    | inr ((f, r), found) ↦
        let same : (front ≡ b ∷ f) × (rest ≡ r) = ground (arith, h, no_mark, found) in
        rw (same.0, same.1) (ap (λ t. b ∷ t) (scheme-ok s f r found))
  ]
]

-- An address is its origin and a path.
extract_origin-IsPath :
    (uri : Bytes) → (rest : Bytes) × (uri ≡ extract_origin uri ++ rest) × IsPath rest
unfolding extract_origin
extract_origin-IsPath uri = elim (Option-cases (scheme uri)) [
  | inl no_scheme ↦ rw (no_scheme, extract_origin) (to_slash-IsPath uri)
  | inr ((front, after), found) ↦
      let (rest, whole, path) = to_slash-IsPath after in
      rw (found, extract_origin)
        (
          rest,
          scheme-ok uri front after found
              ∙ ap (λ t. front ++ t) whole
              ∙ sym (append_assoc front (to_slash after) rest),
          path,
        )
]

-- An address at one of the origins: the origin, and then nothing or a path.
abbrev pub IsUnder : Bytes → List Bytes → Type 0
IsUnder uri origins =
    (origin : Bytes) × (rest : Bytes) × IsOneOf origin origins
    × (uri ≡ origin ++ rest)
    × IsPath rest

module _ (format : Bytes → String) (manager : OAuthManager) where
  accepted-IsUnder :
      (uri : Bytes)
      → validate_redirect_uri format manager uri ≡ ok tt
      → (manager.allowed_redirect_origins ≡ []) ⊎ IsUnder uri manager.allowed_redirect_origins
  unfolding validate_redirect_uri
  accepted-IsUnder uri accepted =
      elim (Bool-cases (nat_beq (length manager.allowed_redirect_origins) 0)) [
        | inl none_set ↦ inl (no_items manager.allowed_redirect_origins none_set)
        | inr listed ↦
            elim (Bool-cases (any_same (extract_origin uri) manager.allowed_redirect_origins)) [
              | inr other ↦ absurd (ground (arith, accepted, listed, other))
              | inl known ↦
                  let (rest, whole, path) = extract_origin-IsPath uri in
                  inr (
                    extract_origin uri,
                    rest,
                    any_same-IsOneOf (extract_origin uri) manager.allowed_redirect_origins known,
                    whole,
                    path,
                  )
            ]
      ]

  -- A redirect address is an allowed origin followed by nothing or a path, or no origins are
  -- configured; or else both the address of a login and the exchange of a code are refused with the
  -- same error, whatever the providers would answer.
  pub redirect-IsUnder :
      (uri : Bytes)
      → (manager.allowed_redirect_origins ≡ [])
        ⊎ IsUnder uri manager.allowed_redirect_origins
        ⊎ (((encode : Bytes → Bytes) (provider : OAuthProvider)
              → get_authorize_url format manager encode provider uri
                ≡ err (invalid_argument (format (extract_origin uri))))
            × ((http : Http) (provider : OAuthProvider) (code : Bytes)
                → exchange_code format manager http provider code uri
                  ≡ err (invalid_argument (format (extract_origin uri)))))
  unfolding get_authorize_url exchange_code validate_redirect_uri
  redirect-IsUnder uri = elim (Result-cases (validate_redirect_uri format manager uri)) [
    | inl (tt, accepted) ↦ elim (accepted-IsUnder uri accepted) [
      | inl none_set ↦ inl none_set
      | inr under ↦ inr (inl under)
    ]
    | inr (e, refused) ↦
        let same : e ≡ invalid_argument (format (extract_origin uri)) = ground (arith, refused) in
        inr (
          inr (
            λ encode provider. rw (refused, same) refl,
            λ http provider code. rw (refused, same) refl,
          ))
  ]

-- An email of the list is primary and verified.
abbrev pub IsVerifiedIn : Bytes → List GitHubEmail → Type 0
IsVerifiedIn email [] = ⊥
IsVerifiedIn email (e ∷ emails) =
    ((e.address ≡ email) × (e.primary ≡ true) × (e.verified ≡ true)) ⊎ IsVerifiedIn email emails

primary_email-IsVerifiedIn :
    (emails : List GitHubEmail) (email : Bytes)
    → primary_email emails ≡ ok email
    → IsVerifiedIn email emails
unfolding primary_email
primary_email-IsVerifiedIn [] email chosen = absurd (ground (arith, chosen))
primary_email-IsVerifiedIn (e ∷ emails) email chosen = elim (Bool-cases (e.primary && e.verified)) [
  | inl both ↦ inl (ground (arith, chosen, both))
  | inr other ↦ inr (primary_email-IsVerifiedIn emails email (ground (arith, chosen, other)))
]

-- A login with GitHub comes with an email that GitHub, asked with the token that it gave for the
-- code, lists as primary and verified.
pub github_email-IsVerifiedIn :
    (format : Bytes → String) (manager : OAuthManager) (http : Http) (code uri : Bytes)
    (info : OAuthUserInfo)
    → exchange_code format manager http github code uri ≡ ok info
    → (config : ProviderConfig) × (token : Bytes) × (emails : List GitHubEmail) × (http.github_token
          config code uri
        ≡ ok token)
      × (http.github_emails token ≡ ok emails)
      × IsVerifiedIn info.email emails
unfolding exchange_code github_exchange or_oauth_error configured
github_email-IsVerifiedIn format manager http code uri info done =
    elim (Result-cases (validate_redirect_uri format manager uri)) [
      | inr (e, refused) ↦ absurd (ground (arith, done, refused))
      | inl (tt, accepted) ↦ elim (Option-cases manager.github_config) [
        | inl absent ↦ absurd (ground (arith, done, accepted, absent))
        | inr (config, present) ↦ elim (Result-cases (http.github_token config code uri)) [
          | inr (e, refused) ↦ absurd (ground (arith, done, accepted, present, refused))
          | inl (token, given) ↦ elim (Result-cases (http.github_user token)) [
            | inr (e, refused) ↦ absurd (ground (arith, done, accepted, present, given, refused))
            | inl (user, known) ↦ elim (Result-cases (http.github_emails token)) [
              | inr (e, refused) ↦
                  absurd (ground (arith, done, accepted, present, given, known, refused))
              | inl (emails, listed) ↦ elim (Result-cases (primary_email emails)) [
                | inr (e, refused) ↦
                    absurd (ground (arith, done, accepted, present, given, known, listed, refused))
                | inl (email, chosen) ↦
                    let same : info.email ≡ email =
                      ground (arith, done, accepted, present, given, known, listed, chosen) in
                    (
                      config,
                      token,
                      emails,
                      given,
                      listed,
                      rw same (primary_email-IsVerifiedIn emails email chosen),
                    )
              ]
            ]
          ]
        ]
      ]
    ]
