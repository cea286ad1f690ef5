-- ===== src/Web/Csrf.antt =====
-- apps/web/src/lib/vowgrid/csrf.ts: the token and the origin of a form.
use vowgrid_api.Common.{
  String, ◌<>◌, ◌≡◌, ◌⊎◌, inl, inr, sym, ap, ◌∙◌, Bool, true, false, ◌||◌, Option, none, some,
  if◌then◌else◌, str_eq, or_default, arith, Option-cases, Bool-cases,
}
use text.Mathlib.TextEquality.{eq_iff}
use vowgrid_api.Env.{Env, Settled, resolved, threw}
use vowgrid_api.Auth.Tables.{truthy}

-- The cookie of the token, the headers that are read and the settings.
pub record RequestContext : Type 0 where
  pub cookie_token : Option String
  pub origin : Option String
  pub forwarded_proto : Option String
  pub forwarded_host : Option String
  pub host : Option String
  pub web_base_url : Option String
  pub is_production : Bool

-- A token by itself, or the value of a form's field, which may be missing or a file.
pub data Submission : Type 0 where
  token : String → Submission
  form : Option String → Submission

abbrev mismatch : String
mismatch = "Security token mismatch. Refresh the page and try again."

-- `a ?? b`, where `b` may be missing too.
abbrev or_header : Option String → Option String → Option String
or_header none b = b
or_header (some a) b = some a

abbrev is_same : Option String → String → Bool
is_same none s = false
is_same (some t) s = str_eq s t

abbrev get_initial_csrf_token : RequestContext → String
get_initial_csrf_token r = or_default r.cookie_token ""

unfoldable pub expected_origin : RequestContext → Option String
expected_origin r = elim (truthy (or_header r.forwarded_host r.host)) [
  | none ↦ none
  | some host ↦
      some (
        or_default r.forwarded_proto (if r.is_production then "https" else "http") <> "://" <> host)
]

unfoldable pub configured_origin : RequestContext → Option String
unfolding expected_origin
configured_origin r = truthy (or_header r.web_base_url (expected_origin r))

module _ (env : Env) where
  abbrev pub get_submitted_token : Submission → String
  get_submitted_token (token s) = env.trim s
  get_submitted_token (form none) = ""
  get_submitted_token (form (some s)) = env.trim s

  abbrev checked_origin : RequestContext → Settled (Unit {0})
  checked_origin r = elim (truthy r.origin) [
    | none ↦ resolved tt
    | some origin ↦ elim (configured_origin r) [
      | none ↦ resolved tt
      | some configured ↦
          if is_same (expected_origin r) origin || str_eq origin configured
          then resolved tt
          else threw "Request origin is not trusted."
    ]
  ]

  unfoldable pub assert_valid_csrf_token : Submission → RequestContext → Settled (Unit {0})
  unfolding expected_origin configured_origin
  assert_valid_csrf_token input r = elim (truthy r.cookie_token) [
    | none ↦ threw mismatch
    | some cookie ↦ elim (truthy (some (get_submitted_token input))) [
      | none ↦ threw mismatch
      | some submitted ↦ if str_eq cookie submitted then checked_origin r else threw mismatch
    ]
  ]

  truthy-some : (o : Option String) (s : String) → truthy o ≡ some s → o ≡ some s
  truthy-some none s h = ground arith
  truthy-some (some x) s h = ground arith

  filled :
      (x s : String)
      → truthy (some x) ≡ some s
      → (◌≡◌ {A = Option String} (some x) (some s)) × (str_eq x "" ≡ false)
  filled x s h = ground arith

  same-expected : (o : Option String) (origin : String) → is_same o origin ≡ true → o ≡ some origin
  same-expected none origin h = ground arith
  same-expected (some t) origin h = ap some (sym ((eq_iff origin t).0 h))

  trusted :
      (r : RequestContext) (origin configured : String)
      → truthy r.origin ≡ some origin
      → configured_origin r ≡ some configured
      → checked_origin r ≡ resolved tt
      → (expected_origin r ≡ some origin) ⊎ (origin ≡ configured)
  trusted r origin configured o c h = elim (Bool-cases (is_same (expected_origin r) origin)) [
    | inl q ↦ inl (same-expected (expected_origin r) origin q)
    | inr q ↦ elim (Bool-cases (str_eq origin configured)) [
      | inl e ↦ inr ((eq_iff origin configured).0 e)
      | inr e ↦ absurd (ground arith)
    ]
  ]

  -- A form passes only with the token of its cookie, which is filled; and where it names its origin, and an
  -- origin is known, it names that one, or the one that its host says.
  pub assert_valid_csrf_token-Trusted :
      (input : Submission) (r : RequestContext)
      → assert_valid_csrf_token input r ≡ resolved tt
      → (r.cookie_token ≡ some (get_submitted_token input))
        × (str_eq (get_submitted_token input) "" ≡ false)
        × ((origin configured : String)
            → truthy r.origin ≡ some origin
            → configured_origin r ≡ some configured
            → (expected_origin r ≡ some origin) ⊎ (origin ≡ configured))
  unfolding assert_valid_csrf_token
  assert_valid_csrf_token-Trusted input r h = elim (Option-cases (truthy r.cookie_token)) [
    | inl q ↦ absurd (ground arith)
    | inr (cookie, q) ↦ elim (Option-cases (truthy (some (get_submitted_token input)))) [
      | inl z ↦ absurd (ground arith)
      | inr (submitted, z) ↦ elim (Bool-cases (str_eq cookie submitted)) [
        | inr e ↦ absurd (ground arith)
        | inl e ↦ (
          truthy-some r.cookie_token cookie q
              ∙ ap some ((eq_iff cookie submitted).0 e)
              ∙ sym (filled (get_submitted_token input) submitted z).0,
          (filled (get_submitted_token input) submitted z).1,
          (λ origin configured o c. trusted r origin configured o c (ground arith)),
        )
      ]
    ]
  ]
