-- ===== src/Auth/Security.antt =====
-- apps/api/src/modules/auth/security.ts: passwords and tokens. The derivation of keys, the encodings
-- and the hash are the platform's.
use Prim.Native.Char.{Char, code}
use package.text.Mathlib.TextLemmas.{nil-append, cons-append}
use vowgrid_api.Common.{
  ℕ, ◌+◌, ◌*◌, ◌≡◌, refl, ap, ◌∙◌, String, ◌<>◌, Bool, false, not, ◌&&◌, none, some, List, [], ◌∷◌,
  ◌==◌, str_eq, if◌then◌else◌, arith,
}
use vowgrid_api.Env.{Env, Settled, resolved, threw}
use vowgrid_api.Billing.Catalog.{day_ms}

-- `text.split('$')`
abbrev push : Char → List String → List String
push c [] = String.◌∷◌ c String.[] ∷ []
push c (s ∷ ss) = String.◌∷◌ c s ∷ ss

unfoldable pub split_dollar : String → List String
split_dollar String.[] = "" ∷ []
split_dollar (String.◌∷◌ c s) =
    let rest = split_dollar s in if code c == b'$' then "" ∷ rest else push c rest

unfoldable pub hash_password : Env → String → String → String
hash_password env password salt =
    "scrypt" <> "$" <> env.base64url salt <> "$" <> env.base64url (env.scrypt password salt)

-- The first three parts; those after them are not looked at.
abbrev matches_hash : Env → String → List String → Bool
matches_hash env password (scheme ∷ salt ∷ hash ∷ rest) =
    str_eq scheme "scrypt"
    && not (str_eq salt "")
    && not (str_eq hash "")
    && str_eq (env.from_base64url hash) (env.scrypt password (env.from_base64url salt))
matches_hash env password _ = false

unfoldable pub verify_password : Env → String → String → Bool
unfolding split_dollar
verify_password env password stored = matches_hash env password (split_dollar stored)

abbrev with_secret : Env → (String → String) → Settled String
with_secret env f = elim env.session_secret [
  | none ↦ threw "SESSION_SECRET is required to hash session tokens."
  | some secret ↦ resolved (env.sha256_hex (f secret))
]

unfoldable pub hash_session_token : Env → String → Settled String
hash_session_token env token = with_secret env (λ secret. secret <> ":" <> token)

unfoldable pub hash_opaque_token : Env → String → Settled String
hash_opaque_token env token = with_secret env (λ secret. secret <> ":opaque:" <> token)

unfoldable pub build_session_expiry : ℕ → ℕ
build_session_expiry from = from + 30 * day_ms

-- A text without `$`.
abbrev pub NoDollar : String → Type 0
NoDollar String.[] = Unit
NoDollar (String.◌∷◌ c s) = ((code c == b'$') ≡ false) × NoDollar s

split_dollar-whole : (s : String) → NoDollar s → split_dollar s ≡ s ∷ []
unfolding split_dollar
split_dollar-whole String.[] h = refl
split_dollar-whole (String.◌∷◌ c s) h = ground (arith, split_dollar-whole s h.1)

dollar-append : (t : String) → "$" <> t ≡ String.◌∷◌ "$" t
dollar-append t = cons-append "$" String.[] t ∙ ap (λ (u : String). String.◌∷◌ "$" u) (nil-append t)

split_dollar-dollar : (t : String) → split_dollar (String.◌∷◌ "$" t) ≡ "" ∷ split_dollar t
unfolding split_dollar
split_dollar-dollar t = refl

split_dollar-append :
    (s t : String) → NoDollar s → split_dollar (s <> ("$" <> t)) ≡ s ∷ split_dollar t
unfolding split_dollar
split_dollar-append String.[] t h =
    ap split_dollar (nil-append ("$" <> t) ∙ dollar-append t) ∙ split_dollar-dollar t
split_dollar-append (String.◌∷◌ c s) t h =
    ap split_dollar (cons-append c s ("$" <> t)) ∙ step c (split_dollar-append s t h.1) h.0
  where
    step :
        (c : Char) {r : List String}
        → r ≡ s ∷ split_dollar t
        → (code c == b'$') ≡ false
        → (if code c == b'$' then "" ∷ r else push c r) ≡ String.◌∷◌ c s ∷ split_dollar t
    step c e no_dollar = rw (no_dollar, e) refl

-- What the encoding documents of the bytes that it is given: it writes no `$` and turns them into some
-- text, and it can be undone.
pub record IsEncoded (env : Env) (s : String) : Type 0 where
  pub no_dollar : NoDollar (env.base64url s)
  pub undone : env.from_base64url (env.base64url s) ≡ s
  pub kept : str_eq (env.base64url s) "" ≡ false

scheme_NoDollar : NoDollar "scrypt"
scheme_NoDollar = (refl, (refl, (refl, (refl, (refl, (refl, tt))))))

hash_password-split :
    (env : Env) (password salt : String)
    → IsEncoded env salt
    → IsEncoded env (env.scrypt password salt)
    → split_dollar (hash_password env password salt)
      ≡ "scrypt" ∷ env.base64url salt ∷ env.base64url (env.scrypt password salt) ∷ []
unfolding hash_password
hash_password-split env password salt e k =
    split_dollar-append "scrypt" _ scheme_NoDollar
    ∙ ap (λ (r : List String). "scrypt" ∷ r)
        (split_dollar-append (env.base64url salt) _ e.no_dollar
          ∙ ap (λ (r : List String). env.base64url salt ∷ r) (split_dollar-whole _ k.no_dollar))

-- A password is accepted against the hash that was stored for it, under any salt, and another is
-- accepted only where the derivation gives the same key. The encoding does what it documents.
pub verify_password-hash_password :
    (env : Env) (password other salt : String)
    → IsEncoded env salt
    → IsEncoded env (env.scrypt password salt)
    → verify_password env other (hash_password env password salt)
      ≡ str_eq (env.scrypt password salt) (env.scrypt other salt)
unfolding verify_password
verify_password-hash_password env password other salt e k =
    ap (matches_hash env other) (hash_password-split env password salt e k)
    ∙ rw (e.kept, k.kept, e.undone, k.undone) refl
