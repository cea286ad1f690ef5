-- ===== src/Web/Oauth/Exchange.antt =====
-- The exchange of a code for a profile in apps/web/src/lib/vowgrid/oauth.ts. The requests of one call are
-- at successive moments. A list of emails holds objects, and a member that is not `null` or a text counts
-- by its truth.
use vowgrid_api.Common.{
  ℕ, ◌+◌, String, ◌<>◌, Bool, true, false, not, ◌&&◌, Option, none, some, List, [], ◌∷◌,
  if◌then◌else◌, str_eq, or_default, ◌==◌,
}
use vowgrid_api.Env.{Env, Settled, resolved, threw}
use vowgrid_api.Json.{Json, null, bool, number, text, array, object, Items, nil, cons, end, field}
use vowgrid_api.Auth.Tables.{truthy}
use vowgrid_api.Connectors.Remote.{Request, Response, ◌>>=◌, entry}
use vowgrid_api.Web.Oauth.{
  OauthProvider, github, google, oidc, WebSettings, get_provider_env, without_slash,
  build_oauth_callback_url, build_github_authorization_url, build_google_authorization_url,
  text_entry,
}

pub record OauthProfile : Type 0 where
  pub provider : OauthProvider
  pub provider_account_id : String
  pub email : String
  pub name : String

pub record OidcDiscoveryDocument : Type 0 where
  pub authorization_endpoint : String
  pub token_endpoint : String
  pub userinfo_endpoint : String

module _ (env : Env) (web : WebSettings) where
  -- What counts as true in a condition.
  abbrev pub is_truthy : Option Json → Bool
  is_truthy none = false
  is_truthy (some null) = false
  is_truthy (some (bool b)) = b
  is_truthy (some (number d)) = not (d == env.numbers.zero_number)
  is_truthy (some (text s)) = not (str_eq s "")
  is_truthy (some (array vs)) = true
  is_truthy (some (object fs)) = true

  -- `email_verified === false`
  abbrev is_false : Option Json → Bool
  is_false (some (bool b)) = not b
  is_false _ = false

  -- The first member that is read of `null` throws.
  abbrev not_null : Json → Settled Json
  not_null null = threw "Cannot read properties of null"
  not_null v = resolved v

  abbrev pub json_or_throw : Response → Settled Json
  unfolding ◌>>=◌
  json_or_throw r = env.parse_json r.body >>= not_null

  -- `response.json().catch(() => ({}))`
  abbrev json_or_empty : Response → Settled Json
  json_or_empty r =
      not_null (elim (env.parse_json r.body) [ threw e ↦ object end | resolved v ↦ v ])

  abbrev pub get_request : String → List (String × String) → Request
  get_request url headers = record {
    url = url;
    method = "GET";
    headers = headers;
    body = none;
    timeout_ms = none;
  }

  abbrev post_request : String → List (String × String) → String → Request
  post_request url headers body = record {
    url = url;
    method = "POST";
    headers = headers;
    body = some body;
    timeout_ms = none;
  }

  abbrev document_of : Option String → Option String → Option String → Option OidcDiscoveryDocument
  document_of none t u = none
  document_of (some a) none u = none
  document_of (some a) (some t) none = none
  document_of (some a) (some t) (some u) =
      some (record { authorization_endpoint = a; token_endpoint = t; userinfo_endpoint = u })

  abbrev complete_document : Bool → Option OidcDiscoveryDocument → Settled OidcDiscoveryDocument
  complete_document true (some d) = resolved d
  complete_document _ _ =
      threw "OIDC discovery failed or returned an incomplete provider configuration."

  unfoldable pub get_oidc_discovery_document : ℕ → Settled OidcDiscoveryDocument
  unfolding get_provider_env ◌>>=◌
  get_oidc_discovery_document t = do
    issuer ← elim (truthy (some (get_provider_env env web oidc).issuer)) [
      | none ↦ threw "OIDC issuer is not configured."
      | some i ↦ resolved i
    ]
    url ← web.resolve_url ".well-known/openid-configuration" (without_slash env web issuer <> "/")
    response ← web.net.fetch t (get_request url [])
    json ← json_or_empty response
    complete_document response.is_ok (
        document_of (truthy (text_entry "authorization_endpoint" json))
          (truthy (text_entry "token_endpoint" json))
          (truthy (text_entry "userinfo_endpoint" json)))

  abbrev build_oidc_authorization_url : String → String → ℕ → Settled String
  unfolding get_oidc_discovery_document get_provider_env ◌>>=◌
  build_oidc_authorization_url state redirect_uri t = do
    discovery ← get_oidc_discovery_document t
    web.with_params discovery.authorization_endpoint (
        ("client_id", (get_provider_env env web oidc).client_id)
        ∷ ("redirect_uri", redirect_uri)
        ∷ ("response_type", "code")
        ∷ ("scope", (get_provider_env env web oidc).scopes)
        ∷ ("state", state)
        ∷ ("prompt", "login")
        ∷ [])

  unfoldable pub build_oauth_authorization_url :
      OauthProvider → String → Option String → ℕ → Settled String
  unfolding build_oauth_callback_url build_github_authorization_url build_google_authorization_url
      get_oidc_discovery_document
  build_oauth_authorization_url provider state origin t =
      let redirect_uri = build_oauth_callback_url env web provider origin in
      elim provider [
        | github ↦ build_github_authorization_url env web state redirect_uri
        | google ↦ build_google_authorization_url env web state redirect_uri
        | oidc ↦ build_oidc_authorization_url state redirect_uri t
      ]

  -- The access token of an answer, or the error that it describes.
  abbrev pub token_or_throw : Bool → Json → Option String → Settled String
  token_or_throw is_ok json message = elim (truthy (text_entry "access_token" json)) [
    | none ↦ threw (or_default message "")
    | some token ↦ if is_ok then resolved token else threw (or_default message "")
  ]

  abbrev pub described : Json → String → Option String
  described json fallback = some (or_default (text_entry "error_description" json) fallback)

  abbrev pub first_with : (Json → Bool) → Items → Option Json
  first_with test nil = none
  first_with test (cons v vs) = let later = first_with test vs in if test v then some v else later

  abbrev otherwise : Option Json → Option Json → Option Json
  otherwise none b = b
  otherwise (some a) b = some a

  abbrev pub is_primary : Json → Bool
  is_primary v = is_truthy (entry "primary" v)

  abbrev pub is_verified : Json → Bool
  is_verified v = is_truthy (entry "verified" v)

  -- The email that stands for a GitHub account.
  unfoldable pub select_email : Items → Option Json
  select_email emails = otherwise (first_with (λ v. is_primary v && is_verified v) emails) (
      otherwise (first_with is_verified emails)
        (otherwise (first_with is_primary emails) (first_with (λ _. true) emails)))

  abbrev emails_or_throw : Json → Settled Items
  emails_or_throw (array vs) = resolved vs
  emails_or_throw _ = threw "emails.find is not a function"

  -- `String(value)`
  abbrev string_of : Json → String
  string_of (text s) = s
  string_of (number d) = env.numbers.show d
  string_of v = web.net.string_of v

  -- `String(user.id)`, where it is true
  abbrev account_id : Json → Option String
  account_id user = elim (entry "id" user) [
    | none ↦ none
    | some v ↦ if is_truthy (some v) then some (string_of v) else none
  ]

  abbrev email_of : Option Json → Option String
  email_of none = none
  email_of (some v) = truthy (text_entry "email" v)

  -- `value?.trim()`, where it is filled
  abbrev trimmed_name : Option String → Option String
  trimmed_name none = none
  trimmed_name (some s) = truthy (some (env.trim s))

  abbrev name_or : Option String → Option String → String → String
  name_or a b email =
      or_default (trimmed_name a) (or_default (trimmed_name b) (web.before_at email))

  abbrev profile_of : OauthProvider → String → String → String → OauthProfile
  profile_of provider id email name = record {
    provider = provider;
    provider_account_id = id;
    email = env.lower (env.trim email);
    name = name;
  }

  abbrev github_profile : Bool → Json → Option Json → Settled OauthProfile
  github_profile answered user selected = elim (account_id user) [
    | none ↦ threw "GitHub OAuth did not return a usable verified email identity."
    | some id ↦ elim (email_of selected) [
      | none ↦ threw "GitHub OAuth did not return a usable verified email identity."
      | some email ↦
          if answered
          then resolved (
              profile_of github id email
                (name_or (text_entry "name" user) (text_entry "login" user) email))
          else threw "GitHub OAuth did not return a usable verified email identity."
    ]
  ]

  unfoldable pub exchange_github_code : String → String → ℕ → Settled OauthProfile
  unfolding get_provider_env select_email ◌>>=◌
  exchange_github_code code redirect_uri t = do
    let e = get_provider_env env web github
    response ← web.net.fetch t (
        post_request "https://github.com/login/oauth/access_token"
          (("Accept", "application/json") ∷ ("Content-Type", "application/json") ∷ [])
          (env.stringify (
            object (
              field "client_id" (text e.client_id) (
                field "client_secret" (text e.client_secret)
                  (field "code" (text code) (field "redirect_uri" (text redirect_uri) end)))))))
    json ← json_or_throw response
    token ←
        token_or_throw response.is_ok json (described json "GitHub OAuth token exchange failed.")
    let headers =
        ("Authorization", "Bearer " <> token)
        ∷ ("Accept", "application/vnd.github+json")
        ∷ ("User-Agent", "VowGrid")
        ∷ []
    user_response ← web.net.fetch (t + 1) (get_request "https://api.github.com/user" headers)
    email_response ←
        web.net.fetch (t + 2) (get_request "https://api.github.com/user/emails" headers)
    user ← json_or_throw user_response
    listed ← json_or_throw email_response
    emails ← emails_or_throw listed
    github_profile (user_response.is_ok && email_response.is_ok) user (select_email emails)

  abbrev code_form : String → String → String → String → String
  code_form client_id client_secret code redirect_uri = web.form_text (
      ("client_id", client_id)
      ∷ ("client_secret", client_secret)
      ∷ ("code", code)
      ∷ ("grant_type", "authorization_code")
      ∷ ("redirect_uri", redirect_uri)
      ∷ [])

  abbrev form_headers : List (String × String)
  form_headers = ("Content-Type", "application/x-www-form-urlencoded") ∷ []

  abbrev pub bearer_headers : String → List (String × String)
  bearer_headers token = ("Authorization", "Bearer " <> token) ∷ []

  -- The identity of an answer about a user, where its subject and email are filled and it is accepted.
  abbrev pub identity_of :
      OauthProvider → Bool → Json → Option String → String → Settled OauthProfile
  identity_of provider accepted user other message = elim (truthy (text_entry "sub" user)) [
    | none ↦ threw message
    | some id ↦ elim (truthy (text_entry "email" user)) [
      | none ↦ threw message
      | some email ↦
          if accepted
          then resolved
              (profile_of provider id email (name_or (text_entry "name" user) other email))
          else threw message
    ]
  ]

  unfoldable pub exchange_google_code : String → String → ℕ → Settled OauthProfile
  unfolding get_provider_env ◌>>=◌
  exchange_google_code code redirect_uri t = do
    let e = get_provider_env env web google
    token_response ← web.net.fetch t (
        post_request "https://oauth2.googleapis.com/token" form_headers
          (code_form e.client_id e.client_secret code redirect_uri))
    json ← json_or_throw token_response
    token ←
        token_or_throw token_response.is_ok json
          (described json "Google OAuth token exchange failed.")
    response ←
        web.net.fetch (t + 1)
          (get_request "https://openidconnect.googleapis.com/v1/userinfo" (bearer_headers token))
    user ← json_or_throw response
    identity_of google (response.is_ok && is_truthy (entry "email_verified" user)) user none
        "Google OAuth did not return a verified email identity."

  abbrev refuse_unverified : Json → OauthProfile → Settled OauthProfile
  refuse_unverified user profile =
      if is_false (entry "email_verified" user)
      then threw "OIDC identity must provide a verified email address."
      else resolved profile

  unfoldable pub exchange_oidc_code : String → String → ℕ → Settled OauthProfile
  unfolding get_provider_env get_oidc_discovery_document ◌>>=◌
  exchange_oidc_code code redirect_uri t = do
    let e = get_provider_env env web oidc
    discovery ← get_oidc_discovery_document t
    token_response ← web.net.fetch (t + 1) (
        post_request discovery.token_endpoint form_headers
          (code_form e.client_id e.client_secret code redirect_uri))
    json ← json_or_empty token_response
    token ←
        token_or_throw token_response.is_ok json
          (described json (or_default (text_entry "error" json) "OIDC token exchange failed."))
    response ←
        web.net.fetch (t + 2) (get_request discovery.userinfo_endpoint (bearer_headers token))
    user ← json_or_empty response
    profile ←
        identity_of oidc response.is_ok user (text_entry "preferred_username" user)
          "OIDC userinfo did not return a usable identity."
    refuse_unverified user profile

  unfoldable pub exchange_oauth_code_for_profile :
      OauthProvider → String → Option String → ℕ → Settled OauthProfile
  unfolding build_oauth_callback_url exchange_github_code exchange_google_code exchange_oidc_code
  exchange_oauth_code_for_profile provider code origin t =
      let redirect_uri = build_oauth_callback_url env web provider origin in
      elim provider [
        | github ↦ exchange_github_code code redirect_uri t
        | google ↦ exchange_google_code code redirect_uri t
        | oidc ↦ exchange_oidc_code code redirect_uri t
      ]
