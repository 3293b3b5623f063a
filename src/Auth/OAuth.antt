-- ===== src/Auth/OAuth.antt =====
-- service-auth/src/oauth.rs: which redirect addresses are accepted, the address of a provider's
-- login, and the exchange of a code for who the user is. A text is the list of its bytes. `Http`
-- stands for the requests to the providers: an error is the text that it becomes.
use rust_service.Base.{
  ℕ, String, Bool, ◌&&◌, Option, none, some, List, [], ◌∷◌, ◌++◌, nat_beq, if◌then◌else◌,
  string_partial_eq, nat_partial_eq, pair_partial_eq, Result, ok, err, ◌>>=◌, Bytes, length,
  bytes_of, any_same,
}
use rust_service.Auth.Error.{AuthError, invalid_argument, oauth_error}

pub data OAuthProvider : Type 0 where
  google github unspecified : OAuthProvider

pub record ProviderConfig : Type 0 where
  pub client_id : Bytes
  pub client_secret : Bytes

pub record OAuthManager : Type 0 where
  pub google_config : Option ProviderConfig
  pub github_config : Option ProviderConfig
  pub allowed_redirect_origins : List Bytes

pub record OAuthUserInfo : Type 0 where
  pub provider_user_id : Bytes
  pub email : Bytes
  pub name : Bytes

pub record GoogleUser : Type 0 where
  pub google_id : Bytes
  pub google_email : Bytes
  pub google_name : Option Bytes

pub record GitHubUser : Type 0 where
  pub github_id : Bytes
  pub login_name : Bytes
  pub github_name : Option Bytes

pub record GitHubEmail : Type 0 where
  pub address : Bytes
  pub primary : Bool
  pub verified : Bool

pub record Http : Type 0 where
  pub google_token : ProviderConfig → (code redirect_uri : Bytes) → Result Bytes String
  pub google_user : (access_token : Bytes) → Result GoogleUser String
  pub github_token : ProviderConfig → (code redirect_uri : Bytes) → Result Bytes String
  pub github_user : (access_token : Bytes) → Result GitHubUser String
  pub github_emails : (access_token : Bytes) → Result (List GitHubEmail) String

-- A provider is configured by its two settings together.
unfoldable pub provider_config : Option Bytes → Option Bytes → Option ProviderConfig
provider_config none secret = none
provider_config (some id) none = none
provider_config (some id) (some secret) = some (record { client_id = id; client_secret = secret })

-- The part of a text before its first slash.
unfoldable pub to_slash : Bytes → Bytes
to_slash [] = []
to_slash (b ∷ s) = let rest = to_slash s in if nat_beq b 47 then [] else b ∷ rest

-- `://`, and what follows it, where the text starts with it.
unfoldable pub past_mark : Bytes → Option Bytes
past_mark (a ∷ b ∷ c ∷ s) = if nat_beq a 58 && (nat_beq b 47 && nat_beq c 47) then some s else none
past_mark (a ∷ b ∷ []) = none
past_mark (a ∷ []) = none
past_mark [] = none

-- The text up to the end of its first `://`, and what follows; no mark, no scheme.
unfoldable pub scheme : Bytes → Option (Bytes × Bytes)
scheme [] = none
scheme (b ∷ s) =
    let found : Option (Bytes × Bytes) = elim (scheme s) [
      | none ↦ none
      | some (front, rest) ↦ some (b ∷ front, rest)
    ] in
    elim (past_mark (b ∷ s)) [ some rest ↦ some (58 ∷ 47 ∷ 47 ∷ [], rest) | none ↦ found ]

unfoldable pub extract_origin : Bytes → Bytes
extract_origin uri = elim (scheme uri) [
  | none ↦ to_slash uri
  | some (front, rest) ↦ front ++ to_slash rest
]

-- `resolve_provider` of service.rs.
unfoldable pub resolve_provider :
    (try_from : ℕ → Option OAuthProvider) → ℕ → Result OAuthProvider AuthError
resolve_provider try_from value = elim (try_from value) [
  | none ↦ err (invalid_argument "unsupported OAuth provider")
  | some unspecified ↦ err (invalid_argument "unsupported OAuth provider")
  | some google ↦ ok google
  | some github ↦ ok github
]

-- An error of a request as the error of the service.
unfoldable pub or_oauth_error : {A : Type 0} → Result A String → Result A AuthError
or_oauth_error (ok a) = ok a
or_oauth_error (err text) = err (oauth_error text)

-- The first email that is primary and verified.
unfoldable pub primary_email : List GitHubEmail → Result Bytes AuthError
primary_email [] = err (oauth_error "No verified primary email found on GitHub account")
primary_email (e ∷ emails) =
    let rest = primary_email emails in if e.primary && e.verified then ok e.address else rest

-- `unwrap_or`.
unfoldable pub name_or : Bytes → Option Bytes → Bytes
name_or default none = default
name_or default (some name) = name

-- `format` writes the message of a refusal around the origin.
module _ (format : Bytes → String) (manager : OAuthManager) where
  unfoldable pub validate_redirect_uri : Bytes → Result (Unit {0}) AuthError
  validate_redirect_uri redirect_uri =
      if nat_beq (length manager.allowed_redirect_origins) 0
      then ok tt
      else if any_same (extract_origin redirect_uri) manager.allowed_redirect_origins
      then ok tt
      else err (invalid_argument (format (extract_origin redirect_uri)))

  -- `ok_or_else` on a configured provider.
  unfoldable pub configured : String → Option ProviderConfig → Result ProviderConfig AuthError
  configured text none = err (oauth_error text)
  configured text (some config) = ok config

  -- `encode` is `urlencoding::encode`.
  unfoldable pub get_authorize_url :
      (encode : Bytes → Bytes) → OAuthProvider → Bytes → Result Bytes AuthError
  get_authorize_url encode provider redirect_uri = do
    accepted ← validate_redirect_uri redirect_uri
    elim provider [
      | google ↦ do
        config ← configured "Google OAuth is not configured" manager.google_config
        ok (
            bytes_of "https://accounts.google.com/o/oauth2/v2/auth?client_id="
            ++ encode config.client_id
            ++ bytes_of "&redirect_uri="
            ++ encode redirect_uri
            ++ bytes_of "&response_type=code&scope=openid%20email%20profile&access_type=offline")
      | github ↦ do
        config ← configured "GitHub OAuth is not configured" manager.github_config
        ok (
            bytes_of "https://github.com/login/oauth/authorize?client_id="
            ++ encode config.client_id
            ++ bytes_of "&redirect_uri="
            ++ encode redirect_uri
            ++ bytes_of "&scope=read:user%20user:email")
      | unspecified ↦ err (invalid_argument "OAuth provider is required")
    ]

  -- The handler `o_auth_get_auth_url`; `try_from` reads the number of a provider.
  unfoldable pub o_auth_get_auth_url :
      (encode : Bytes → Bytes) (try_from : ℕ → Option OAuthProvider)
      → (provider : ℕ) (redirect_uri : Bytes) → Result Bytes AuthError
  o_auth_get_auth_url encode try_from provider redirect_uri = do
    chosen ← resolve_provider try_from provider
    given ←
        (if nat_beq (length redirect_uri) 0
          then err (invalid_argument "redirect_uri is required")
          else ok tt)
    get_authorize_url encode chosen redirect_uri

  module _ (http : Http) where
    unfoldable pub google_exchange : (code redirect_uri : Bytes) → Result OAuthUserInfo AuthError
    google_exchange code redirect_uri = do
      config ← configured "Google OAuth is not configured" manager.google_config
      token ← or_oauth_error (http.google_token config code redirect_uri)
      user ← or_oauth_error (http.google_user token)
      ok (record {
        provider_user_id = user.google_id;
        email = user.google_email;
        name = name_or [] user.google_name;
      })

    unfoldable pub github_exchange : (code redirect_uri : Bytes) → Result OAuthUserInfo AuthError
    github_exchange code redirect_uri = do
      config ← configured "GitHub OAuth is not configured" manager.github_config
      token ← or_oauth_error (http.github_token config code redirect_uri)
      user ← or_oauth_error (http.github_user token)
      emails ← or_oauth_error (http.github_emails token)
      email ← primary_email emails
      ok (record {
        provider_user_id = user.github_id;
        email = email;
        name = name_or user.login_name user.github_name;
      })

    unfoldable pub exchange_code :
        OAuthProvider → (code redirect_uri : Bytes) → Result OAuthUserInfo AuthError
    exchange_code provider code redirect_uri = do
      accepted ← validate_redirect_uri redirect_uri
      elim provider [
        | google ↦ google_exchange code redirect_uri
        | github ↦ github_exchange code redirect_uri
        | unspecified ↦ err (invalid_argument "OAuth provider is required")
      ]
