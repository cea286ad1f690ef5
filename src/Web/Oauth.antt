-- ===== src/Web/Oauth.antt =====
-- apps/web/src/lib/vowgrid/oauth.ts: the settings, the authorization URLs and the cookies.
pub mod Cookies
pub mod Exchange
pub mod Identity
use vowgrid_api.Common.{
  ℕ, ◌-◌, ◌*◌, String, ◌<>◌, ◌≡◌, refl, ap, arith, Bool, true, false, not, ◌&&◌, ◌||◌, Option, none,
  some, List, [], ◌∷◌, filter, if◌then◌else◌, str_eq, or_default,
}
use vowgrid_api.Env.{Env, Settled, resolved, threw}
use vowgrid_api.Json.{Json, text, object, end, field, get_field}
use vowgrid_api.Auth.Tables.{truthy}
use vowgrid_api.Connectors.Remote.{Remote, Request, Response, ◌>>=◌, entry}

pub data OauthProvider : Type 0 where
  github google oidc : OauthProvider

pub data OauthMode : Type 0 where
  login_mode signup_mode : OauthMode

-- The environment of the web application, and the functions of its platform.
pub record WebSettings : Type 0 where
  pub net : Remote
  pub client_id : OauthProvider → Option String
  pub client_secret : OauthProvider → Option String
  pub issuer : Option String
  pub scopes : Option String
  pub web_base_url : Option String
  pub is_production : Bool
  -- `new URL(base)` with search parameters set, as a text
  pub with_params : String → List (String × String) → Settled String
  -- `new URL(path, base).toString()`
  pub resolve_url : String → String → Settled String
  -- the text of `new URLSearchParams(fields)`
  pub form_text : List (String × String) → String
  -- `text.split('@')[0]`
  pub before_at : String → String

pub record ProviderEnv : Type 0 where
  pub client_id : String
  pub client_secret : String
  pub issuer : String
  pub scopes : String

abbrev pub provider_name : OauthProvider → String
provider_name github = "github"
provider_name google = "google"
provider_name oidc = "oidc"

-- A member that is a text.
abbrev pub text_entry : String → Json → Option String
text_entry key v = elim (entry key v) [
  | none ↦ none
  | some x ↦ elim x [ text s ↦ some s | _ ↦ none ]
]

module _ (env : Env) (web : WebSettings) where
  -- `value?.trim() ?? ''`
  abbrev trimmed_or_empty : Option String → String
  trimmed_or_empty none = ""
  trimmed_or_empty (some s) = env.trim s

  unfoldable pub get_provider_env : OauthProvider → ProviderEnv
  get_provider_env provider = record {
    client_id = trimmed_or_empty (web.client_id provider);
    client_secret = trimmed_or_empty (web.client_secret provider);
    issuer = elim provider [ oidc ↦ trimmed_or_empty web.issuer | _ ↦ "" ];
    scopes = elim provider [
      | oidc ↦ or_default (truthy (some (trimmed_or_empty web.scopes))) "openid email profile"
      | _ ↦ ""
    ];
  }

  abbrev is_filled : String → Bool
  is_filled s = not (str_eq s "")

  unfoldable pub is_oauth_provider_configured : OauthProvider → Bool
  unfolding get_provider_env
  is_oauth_provider_configured provider =
      let e = get_provider_env provider in
      is_filled e.client_id
      && is_filled e.client_secret
      && elim provider [ oidc ↦ is_filled e.issuer | _ ↦ true ]

  unfoldable pub get_configured_oauth_providers : List OauthProvider
  unfolding is_oauth_provider_configured
  get_configured_oauth_providers = filter is_oauth_provider_configured (github ∷ google ∷ oidc ∷ [])

  -- `text.replace(/\/$/, '')`
  abbrev pub without_slash : String → String
  without_slash s = if env.ends_with s "/" then env.first_chars (env.text_length s - 1) s else s

  -- `a?.trim() || b || default`
  unfoldable pub resolve_web_base_url : Option String → String
  resolve_web_base_url fallback =
      or_default (truthy (some (trimmed_or_empty web.web_base_url)))
        (or_default (truthy fallback) "http://localhost:3000")

  unfoldable pub build_oauth_callback_url : OauthProvider → Option String → String
  unfolding resolve_web_base_url
  build_oauth_callback_url provider origin =
      without_slash (resolve_web_base_url origin)
      <> "/auth/oauth/callback/"
      <> provider_name provider

  unfoldable pub build_github_authorization_url : String → String → Settled String
  unfolding get_provider_env
  build_github_authorization_url state redirect_uri =
      web.with_params "https://github.com/login/oauth/authorize" (
        ("client_id", (get_provider_env github).client_id)
        ∷ ("redirect_uri", redirect_uri)
        ∷ ("scope", "read:user user:email")
        ∷ ("state", state)
        ∷ [])

  unfoldable pub build_google_authorization_url : String → String → Settled String
  unfolding get_provider_env
  build_google_authorization_url state redirect_uri =
      web.with_params "https://accounts.google.com/o/oauth2/v2/auth" (
        ("client_id", (get_provider_env google).client_id)
        ∷ ("redirect_uri", redirect_uri)
        ∷ ("response_type", "code")
        ∷ ("scope", "openid email profile")
        ∷ ("state", state)
        ∷ ("prompt", "select_account")
        ∷ [])
