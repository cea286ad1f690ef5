-- ===== src/Web/Oauth/Cookies.antt =====
-- The cookies of apps/web/src/lib/vowgrid/oauth.ts.
use vowgrid_api.Common.{
  ℕ, ◌*◌, String, ◌≡◌, refl, ap, arith, Bool, false, not, Option, none, some, List, [], ◌∷◌, filter,
  if◌then◌else◌, str_eq,
}
use vowgrid_api.Env.{Env, resolved, threw}
use vowgrid_api.Json.{Json, text, object, end, field, get_field}
use vowgrid_api.Auth.Tables.{truthy}
use vowgrid_api.Web.Oauth.{
  OauthProvider, github, google, oidc, OauthMode, login_mode, signup_mode, WebSettings,
  provider_name, text_entry,
}

pub record OauthStateCookie : Type 0 where
  pub state : String
  pub provider : OauthProvider
  pub mode : OauthMode

pub record SignupCandidate : Type 0 where
  pub token : String
  pub provider : OauthProvider
  pub email : String
  pub name : String

-- A cookie that is set: httpOnly and sameSite lax, on every path.
pub record Cookie : Type 0 where
  pub key : String
  pub value : String
  pub max_age : ℕ
  pub secure : Bool

abbrev pub Cookies : Type 0
Cookies = List Cookie

abbrev oauth_state_cookie : String
oauth_state_cookie = "vowgrid_oauth_state"

abbrev oauth_pending_cookie : String
oauth_pending_cookie = "vowgrid_oauth_pending"

-- `cookieStore.set`, `get` and `delete`.
abbrev put_cookie : Cookie → Cookies → Cookies
put_cookie c cookies = c ∷ filter (λ (x : Cookie). not (str_eq x.key c.key)) cookies

abbrev cookie_value : String → Cookies → Option String
cookie_value key [] = none
cookie_value key (c ∷ cs) =
    let later = cookie_value key cs in if str_eq c.key key then some c.value else later

abbrev remove_cookie : String → Cookies → Cookies
remove_cookie key cookies = filter (λ (x : Cookie). not (str_eq x.key key)) cookies

abbrev provider_named : String → Option OauthProvider
provider_named s =
    if str_eq s "github"
    then some github
    else if str_eq s "google"
    then some google
    else if str_eq s "oidc"
    then some oidc
    else none

abbrev mode_name : OauthMode → String
mode_name login_mode = "login"
mode_name signup_mode = "signup"

abbrev mode_named : String → Option OauthMode
mode_named s =
    if str_eq s "login"
    then some login_mode
    else if str_eq s "signup"
    then some signup_mode
    else none

module _ (env : Env) (web : WebSettings) where
  abbrev cookie_of : String → Json → ℕ → Cookie
  cookie_of key value age = record {
    key = key;
    value = env.stringify value;
    max_age = age;
    secure = web.is_production;
  }

  abbrev pub state_json : OauthStateCookie → Json
  state_json c = object (
      field "state" (text c.state) (
        field "provider" (text (provider_name c.provider))
          (field "mode" (text (mode_name c.mode)) end)))

  unfoldable pub set_oauth_state_cookie : OauthStateCookie → Cookies → Cookies
  set_oauth_state_cookie value cookies =
      put_cookie (cookie_of oauth_state_cookie (state_json value) (60 * 10)) cookies

  -- The members of a state, checked one after the other.
  abbrev state_of :
      Option String → Option OauthProvider → Option OauthMode → Option OauthStateCookie
  state_of none provider mode = none
  state_of (some s) none mode = none
  state_of (some s) (some provider) none = none
  state_of (some s) (some provider) (some mode) =
      some (record { state = s; provider = provider; mode = mode })

  abbrev named : {A : Type 0} → (String → Option A) → Option String → Option A
  named f none = none
  named f (some s) = f s

  abbrev read_state : Json → Option OauthStateCookie
  read_state v =
      state_of (text_entry "state" v) (named provider_named (text_entry "provider" v))
        (named mode_named (text_entry "mode" v))

  abbrev parsed_cookie : {A : Type 0} → (Json → Option A) → Option String → Option A
  parsed_cookie read raw = elim (truthy raw) [
    | none ↦ none
    | some s ↦ elim (env.parse_json s) [ threw e ↦ none | resolved v ↦ read v ]
  ]

  unfoldable pub get_oauth_state_cookie : Cookies → Option OauthStateCookie
  get_oauth_state_cookie cookies =
      parsed_cookie read_state (cookie_value oauth_state_cookie cookies)

  unfoldable pub clear_oauth_state_cookie : Cookies → Cookies
  clear_oauth_state_cookie = remove_cookie oauth_state_cookie

  abbrev pub candidate_json : SignupCandidate → Json
  candidate_json c = object (
      field "token" (text c.token) (
        field "provider" (text (provider_name c.provider))
          (field "email" (text c.email) (field "name" (text c.name) end))))

  unfoldable pub set_pending_oauth_candidate_cookie : SignupCandidate → Cookies → Cookies
  set_pending_oauth_candidate_cookie value cookies =
      put_cookie (cookie_of oauth_pending_cookie (candidate_json value) (60 * 60)) cookies

  abbrev candidate_of :
      Option String → Option OauthProvider → Option String → Option String → Option SignupCandidate
  candidate_of none provider email name = none
  candidate_of (some t) none email name = none
  candidate_of (some t) (some provider) none name = none
  candidate_of (some t) (some provider) (some email) none = none
  candidate_of (some t) (some provider) (some email) (some name) =
      some (record { token = t; provider = provider; email = email; name = name })

  abbrev read_candidate : Json → Option SignupCandidate
  read_candidate v =
      candidate_of (text_entry "token" v) (named provider_named (text_entry "provider" v))
        (text_entry "email" v) (text_entry "name" v)

  unfoldable pub get_pending_oauth_candidate_cookie : Cookies → Option SignupCandidate
  get_pending_oauth_candidate_cookie cookies =
      parsed_cookie read_candidate (cookie_value oauth_pending_cookie cookies)

  unfoldable pub clear_pending_oauth_candidate_cookie : Cookies → Cookies
  clear_pending_oauth_candidate_cookie = remove_cookie oauth_pending_cookie

  provider-named : (q : OauthProvider) → provider_named (provider_name q) ≡ some q
  provider-named github = refl
  provider-named google = refl
  provider-named oidc = refl

  mode-named : (q : OauthMode) → mode_named (mode_name q) ≡ some q
  mode-named login_mode = refl
  mode-named signup_mode = refl

  read-state : (c : OauthStateCookie) → read_state (state_json c) ≡ some c
  unfolding get_field
  read-state c = rw (provider-named c.provider, mode-named c.mode) refl

  read-candidate : (c : SignupCandidate) → read_candidate (candidate_json c) ≡ some c
  unfolding get_field
  read-candidate c = rw (provider-named c.provider) refl

  value-removed : (key : String) (cs : Cookies) → cookie_value key (remove_cookie key cs) ≡ none
  value-removed key [] = refl
  value-removed key (c ∷ cs) = ground (arith, value-removed key cs)

  parsed-cookie :
      {A : Type 0} (read : Json → Option A) (v : Json) (a : A)
      → env.parse_json (env.stringify v) ≡ resolved v
      → str_eq (env.stringify v) "" ≡ false
      → read v ≡ some a
      → parsed_cookie read (some (env.stringify v)) ≡ some a
  parsed-cookie read v a p q r = ground arith

  -- What was stored for a sign-in is read again, whatever other cookies there are, where the JSON text of
  -- the cookie is filled and gives the same value; and once it is cleared nothing is read. The same holds of
  -- the candidate of a signup.
  pub get_oauth_state_cookie-set :
      (c : OauthStateCookie) (d : SignupCandidate) (cookies : Cookies)
      → env.parse_json (env.stringify (state_json c)) ≡ resolved (state_json c)
      → str_eq (env.stringify (state_json c)) "" ≡ false
      → env.parse_json (env.stringify (candidate_json d)) ≡ resolved (candidate_json d)
      → str_eq (env.stringify (candidate_json d)) "" ≡ false
      → (get_oauth_state_cookie (set_oauth_state_cookie c cookies) ≡ some c)
        × (get_oauth_state_cookie (clear_oauth_state_cookie (set_oauth_state_cookie c cookies))
            ≡ none)
        × (get_pending_oauth_candidate_cookie (set_pending_oauth_candidate_cookie d cookies)
            ≡ some d)
        × (get_pending_oauth_candidate_cookie
              (clear_pending_oauth_candidate_cookie (set_pending_oauth_candidate_cookie d cookies))
            ≡ none)
  unfolding get_oauth_state_cookie set_oauth_state_cookie clear_oauth_state_cookie
      get_pending_oauth_candidate_cookie set_pending_oauth_candidate_cookie
      clear_pending_oauth_candidate_cookie
  get_oauth_state_cookie-set c d cookies a b e f = (
    parsed-cookie read_state (state_json c) c a b (read-state c),
    ap (parsed_cookie read_state)
        (value-removed oauth_state_cookie (set_oauth_state_cookie c cookies)),
    parsed-cookie read_candidate (candidate_json d) d e f (read-candidate d),
    ap (parsed_cookie read_candidate)
        (value-removed oauth_pending_cookie (set_pending_oauth_candidate_cookie d cookies)),
  )
