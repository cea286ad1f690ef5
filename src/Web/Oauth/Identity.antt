-- ===== src/Web/Oauth/Identity.antt =====
-- Which identities apps/web/src/lib/vowgrid/oauth.ts takes from a provider.
use vowgrid_api.Common.{
  ℕ, ◌+◌, String, ◌≡◌, refl, Bool, true, false, ◌&&◌, Option, none, some, arith, Option-cases,
  Bool-cases, inl, inr,
}
use vowgrid_api.Env.{Env, resolved}
use vowgrid_api.Json.{Json, Items, nil, cons}
use vowgrid_api.Auth.Tables.{truthy}
use vowgrid_api.Connectors.Remote.{Response, Request, entry, bind-resolved}
use vowgrid_api.Web.Oauth.{WebSettings, google, text_entry}
use vowgrid_api.Web.Oauth.Exchange.{
  OauthProfile, exchange_google_code, select_email, is_primary, is_verified, token_or_throw,
  described, is_truthy, first_with, identity_of, json_or_throw,
}

module _ (env : Env) (web : WebSettings) where
  first_with_sound :
      (test : Json → Bool) (vs : Items) (v : Json)
      → first_with env web test vs ≡ some v
      → test v ≡ true
  first_with_sound test nil v h = ground arith
  first_with_sound test (cons u us) v h = elim (Bool-cases (test u)) [
    | inl p ↦ ground arith
    | inr p ↦ ground (arith, first_with_sound test us v)
  ]

  truthy-some : (o : Option String) (s : String) → truthy o ≡ some s → o ≡ some s
  truthy-some none s h = ground arith
  truthy-some (some x) s h = ground arith

  both-true : (a b : Bool) → a && b ≡ true → (a ≡ true) × (b ≡ true)
  both-true true b h = (refl, h)
  both-true false b h = (h, absurd (ground arith))

  -- Where GitHub knows a verified email of the account, the one that is taken is verified.
  pub select_email-Verified :
      (emails : Items) (u : Json)
      → first_with env web (is_verified env web) emails ≡ some u
      → (v : Json) × (select_email env web emails ≡ some v) × (is_verified env web v ≡ true)
  unfolding select_email
  select_email-Verified emails u h =
      elim (Option-cases
        (first_with env web (λ v. is_primary env web v && is_verified env web v) emails)) [
          | inl q ↦ (u, ground arith, first_with_sound (is_verified env web) emails u h)
          | inr (v, q) ↦ (
            v,
            ground arith,
            (both-true (is_primary env web v) _ (
                first_with_sound (λ x. is_primary env web x && is_verified env web x) emails v
                  q)).1,
          )
        ]

  identity-accepted :
      (accepted : Bool) (user : Json) (other : Option String) (message : String) (p : OauthProfile)
      → identity_of env web google accepted user other message ≡ resolved p
      → (accepted ≡ true)
        × ((email : String) × (text_entry "email" user ≡ some email)
            × (p.email ≡ env.lower (env.trim email)))
  identity-accepted accepted user other message p h =
      elim (Option-cases (truthy (text_entry "sub" user))) [
        | inl q ↦ absurd (ground arith)
        | inr (id, q) ↦ elim (Option-cases (truthy (text_entry "email" user))) [
          | inl z ↦ absurd (ground arith)
          | inr (email, z) ↦ (ground arith, (email, truthy-some _ email z, ground arith))
        ]
      ]

  -- A profile that is taken from Google is that of an answer with success that says that its email is
  -- verified, and has that email, trimmed and in lower case.
  pub exchange_google_code-Verified :
      (code redirect_uri : String) (t : ℕ) (p : OauthProfile)
      → exchange_google_code env web code redirect_uri t ≡ resolved p
      → (q : Request) × (r : Response) × (user : Json) × (email : String) × (web.net.fetch (t + 1) q
          ≡ resolved r)
        × (r.is_ok ≡ true)
        × (json_or_throw env web r ≡ resolved user)
        × (is_truthy env web (entry "email_verified" user) ≡ true)
        × (text_entry "email" user ≡ some email)
        × (p.email ≡ env.lower (env.trim email))
  unfolding exchange_google_code
  exchange_google_code-Verified code redirect_uri t p h =
      let (first, _, h1) = bind-resolved (web.net.fetch t _) _ p h in
      let (json, _, h2) = bind-resolved (json_or_throw env web first) _ p h1 in
      let (token, _, h3) =
        bind-resolved
          (token_or_throw env web first.is_ok json
            (described env web json "Google OAuth token exchange failed."))
          _ p h2 in
      let (r, fetched, h4) = bind-resolved (web.net.fetch (t + 1) _) _ p h3 in
      let (user, read, h5) = bind-resolved (json_or_throw env web r) _ p h4 in
      let identity =
        identity-accepted (r.is_ok && is_truthy env web (entry "email_verified" user)) user none
          "Google OAuth did not return a verified email identity." p h5 in
      let (answered, verified) = both-true r.is_ok _ identity.0 in
      (_, r, user, identity.1.0, fetched, answered, read, verified, identity.1.1, identity.1.2)
