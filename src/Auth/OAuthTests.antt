-- ===== src/Auth/OAuthTests.antt =====
-- Runs of the OAuth manager of service-auth, and the theorems at such inputs.
use rust_service.Base.{
  String, ◌≡◌, refl, ◌⊎◌, true, false, none, some, List, [], ◌∷◌, string_partial_eq, nat_partial_eq,
  pair_partial_eq, ok, err, Bytes, bytes_of,
}
use rust_service.Auth.Error.{invalid_argument, oauth_error}
use rust_service.Auth.Error.{invalid_argument}
use rust_service.Auth.OAuth.{
  OAuthProvider, Http, get_authorize_url, google, github, ProviderConfig, OAuthManager,
  OAuthUserInfo, GitHubEmail, Http, provider_config, to_slash, past_mark, scheme, extract_origin,
  resolve_provider, or_oauth_error, primary_email, name_or, validate_redirect_uri, configured,
  get_authorize_url, o_auth_get_auth_url, github_exchange, exchange_code,
}
use rust_service.Auth.Origins.{IsUnder, redirect-IsUnder, IsVerifiedIn, github_email-IsVerifiedIn}

abbrev manager : OAuthManager
manager = record {
  google_config = none;
  github_config = provider_config (some (bytes_of "id")) (some (bytes_of "secret"));
  allowed_redirect_origins = bytes_of "https://app" ∷ [];
}

abbrev work : GitHubEmail
work = record { address = bytes_of "ann@work"; primary = false; verified = true }

abbrev home : GitHubEmail
home = record { address = bytes_of "ann@home"; primary = true; verified = true }

abbrev http : Http
http = record {
  google_token = λ config code uri. err "unreachable";
  google_user = λ token. err "unreachable";
  github_token = λ config code uri. ok (bytes_of "token");
  github_user = λ token.
      ok (record { github_id = bytes_of "7"; login_name = bytes_of "ann"; github_name = none });
  github_emails = λ token. ok (work ∷ home ∷ []);
}

abbrev refusal : Bytes → String
refusal origin = "redirect_uri origin is not allowed"

abbrev callback : Bytes
callback = bytes_of "https://app/cb?provider=github"

abbrev ann : OAuthUserInfo
ann = record { provider_user_id = bytes_of "7"; email = bytes_of "ann@home"; name = bytes_of "ann" }

exchanges : exchange_code refusal manager http github (bytes_of "code") callback ≡ ok ann
unfolding exchange_code validate_redirect_uri extract_origin scheme past_mark to_slash
    github_exchange configured provider_config or_oauth_error primary_email name_or
exchanges = refl

redirect-IsUnder_example :
    (manager.allowed_redirect_origins ≡ [])
    ⊎ IsUnder callback manager.allowed_redirect_origins
    ⊎ (((encode : Bytes → Bytes) (provider : OAuthProvider)
          → get_authorize_url refusal manager encode provider callback
            ≡ err (invalid_argument (refusal (extract_origin callback))))
        × ((http : Http) (provider : OAuthProvider) (code : Bytes)
            → exchange_code refusal manager http provider code callback
              ≡ err (invalid_argument (refusal (extract_origin callback)))))
redirect-IsUnder_example = redirect-IsUnder refusal manager callback

github_email-IsVerifiedIn_example :
    (config : ProviderConfig) × (token : Bytes) × (emails : List GitHubEmail) × (http.github_token
        config
        (bytes_of "code")
        callback
      ≡ ok token)
    × (http.github_emails token ≡ ok emails)
    × IsVerifiedIn (bytes_of "ann@home") emails
github_email-IsVerifiedIn_example =
    github_email-IsVerifiedIn refusal manager http (bytes_of "code") callback ann exchanges

-- Addresses that only begin like an allowed origin, and a provider without settings.
refused :
    (validate_redirect_uri refusal manager (bytes_of "https://app.evil/cb")
      ≡ err (invalid_argument "redirect_uri origin is not allowed"))
    × (validate_redirect_uri refusal manager (bytes_of "https://app@evil/cb")
        ≡ err (invalid_argument "redirect_uri origin is not allowed"))
    × (o_auth_get_auth_url refusal manager (λ text. text) (λ n. some google) 1 callback
        ≡ err (oauth_error "Google OAuth is not configured"))
unfolding validate_redirect_uri extract_origin scheme past_mark to_slash o_auth_get_auth_url
    resolve_provider get_authorize_url configured
refused = (refl, refl, refl)
