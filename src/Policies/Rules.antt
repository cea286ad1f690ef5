-- ===== src/Policies/Rules.antt =====
-- `evaluatePolicy` of apps/api/src/modules/policies/engine.ts: what a single policy lets through.
use mathlib.Core.List.{Memᴰ}
use mathlib.Core.Path.{subst}
use mathlib.Core.Option.{some-injective}
use text.Mathlib.TextEquality.{eq_iff}
use vowgrid_api.Common.{
  ℕ, String, ◌≡◌, ◌≢◌, ◌↔◌, inl, inr, refl, sym, true, false, Option, none, some, List, [], ◌∷◌,
  arith, includes, Bool-cases, Option-cases, str_eq,
}
use vowgrid_api.Json.{Fields, Numbers}
use vowgrid_api.Policies.{
  allow, deny, require_approval, Policy, PolicyRules, Subject, PolicyContext, Verdict,
  evaluate_policy, amount_of, listed, unlisted, exceeds, check_amount, check_action,
  check_connector, check_environment, check_role,
}

pub includes-Memᴰ : (xs : List String) (s : String) → includes xs s ≡ true → Memᴰ s xs
includes-Memᴰ [] s h = cc
includes-Memᴰ (x ∷ xs) s h = elim (Bool-cases (str_eq x s)) [
  | inl e ↦ Memᴰ.head (sym ((eq_iff x s).0 e))
  | inr e ↦ Memᴰ.tail (includes-Memᴰ xs s (ground arith))
]

pub Memᴰ-includes : (xs : List String) (s : String) → Memᴰ s xs → includes xs s ≡ true
Memᴰ-includes [] s m = elim m [ ]
Memᴰ-includes (x ∷ xs) s (Memᴰ.head e) = ground (arith, eq_iff x s)
Memᴰ-includes (x ∷ xs) s (Memᴰ.tail m) = ground (arith, Memᴰ-includes xs s m)

-- A value passes a pair of lists: the blocked one, where there is one, does not hold it, and the
-- allowed one, where there is one, does.
pub record Passes (blocked allowed : Option (List String)) (s : String) : Type 0 where
  pub not_blocked : (xs : List String) → blocked ≡ some xs → ¬ Memᴰ s xs
  pub is_allowed : (xs : List String) → allowed ≡ some xs → Memᴰ s xs

-- The amount is below both bounds, where they are set, or is no number.
pub record Affordable (n : Numbers) (rules : PolicyRules) (params : Fields) : Type 0 where
  pub within_max :
      (m : ℕ)
      → rules.max_amount ≡ some m
      → n.is_nan (amount_of n rules params) ≡ false
      → n.greater (amount_of n rules params) m ≡ false
  pub within_threshold :
      (m : ℕ)
      → rules.require_approval_above ≡ some m
      → n.is_nan (amount_of n rules params) ≡ false
      → n.greater (amount_of n rules params) m ≡ false

pub record Permits (n : Numbers) (rules : PolicyRules) (i : Subject) (c : PolicyContext)
    : Type 0 where
  pub amount : Affordable n rules i.parameters
  pub action : Passes rules.blocked_actions rules.allowed_actions i.action
  pub connector :
      (t : String)
      → c.connector_type ≡ some t
      → t ≢ ""
      → Passes rules.blocked_connectors rules.allowed_connectors t
  pub environment : Passes rules.blocked_environments rules.allowed_environments i.environment
  pub role : (r : String) → c.user_role ≡ some r → r ≢ "" → Passes none rules.required_roles r

listed-false :
    (o : Option (List String)) (s : String)
    → listed o s ≡ false
    → (xs : List String) → o ≡ some xs
    → ¬ Memᴰ s xs
listed-false o s h xs e m = ground (arith, Memᴰ-includes xs s m)

unlisted_false :
    (o : Option (List String)) (s : String)
    → unlisted o s ≡ false
    → (xs : List String) → o ≡ some xs
    → Memᴰ s xs
unlisted_false o s h xs e = includes-Memᴰ xs s (ground arith)

not_listed :
    (o : Option (List String)) (s : String)
    → ((xs : List String) → o ≡ some xs → ¬ Memᴰ s xs)
    → listed o s ≡ false
not_listed none s h = refl
not_listed (some xs) s h = elim (Bool-cases (includes xs s)) [
  | inl e ↦ absurd (h xs refl (includes-Memᴰ xs s e))
  | inr e ↦ e
]

not_unlisted :
    (o : Option (List String)) (s : String)
    → ((xs : List String) → o ≡ some xs → Memᴰ s xs)
    → unlisted o s ≡ false
not_unlisted none s h = refl
not_unlisted (some xs) s h = rw (Memᴰ-includes xs s (h xs refl))

abbrev Clear : Option (List String) → Option (List String) → String → Type 0
Clear b a s = (listed b s ≡ false) × (unlisted a s ≡ false)

Passes-iff : (b a : Option (List String)) (s : String) → Clear b a s ↔ Passes b a s
Passes-iff b a s = (
  λ h. record { not_blocked = listed-false b s h.0; is_allowed = unlisted_false a s h.1 },
  λ p. (not_listed b s p.not_blocked, not_unlisted a s p.is_allowed),
)

-- A check that answers never answers `allow`.
abbrev Refuses : Verdict → Type 0
Refuses none = Unit
Refuses (some v) = v.0 ≡ deny

abbrev Objects : Verdict → Type 0
Objects none = Unit
Objects (some v) = v.0 ≢ allow

check_action-Refuses : (r : PolicyRules) (s : String) → Refuses (check_action r s)
unfolding check_action
check_action-Refuses r s = ground arith

check_connector-Refuses : (r : PolicyRules) (o : Option String) → Refuses (check_connector r o)
unfolding check_connector
check_connector-Refuses r none = tt
check_connector-Refuses r (some t) = ground arith

check_environment-Refuses : (r : PolicyRules) (s : String) → Refuses (check_environment r s)
unfolding check_environment
check_environment-Refuses r s = ground arith

check_role-Refuses : (r : PolicyRules) (o : Option String) → Refuses (check_role r o)
unfolding check_role
check_role-Refuses r none = tt
check_role-Refuses r (some t) = ground arith

check_action_iff :
    (r : PolicyRules) (s : String)
    → (check_action r s ≡ none) ↔ Clear r.blocked_actions r.allowed_actions s
unfolding check_action
check_action_iff r s = ground arith

check_environment_iff :
    (r : PolicyRules) (s : String)
    → (check_environment r s ≡ none) ↔ Clear r.blocked_environments r.allowed_environments s
unfolding check_environment
check_environment_iff r s = ground arith

check_connector_iff :
    (r : PolicyRules) (t : String)
    → (check_connector r (some t) ≡ none)
      ↔ (str_eq t "" ≡ false → Clear r.blocked_connectors r.allowed_connectors t)
unfolding check_connector
check_connector_iff r t = ground arith

check_role_iff :
    (r : PolicyRules) (t : String)
    → (check_role r (some t) ≡ none) ↔ (str_eq t "" ≡ false → Clear none r.required_roles t)
unfolding check_role
check_role_iff r t = ground arith

-- A check that a missing or empty name skips.
named_Passes :
    (C : Type 0) (b a : Option (List String)) (s : String)
    → C ↔ (str_eq s "" ≡ false → Clear b a s)
    → C ↔ ((t : String) → some s ≡ some t → t ≢ "" → Passes b a t)
named_Passes C b a s f = (
  λ h t e.
      subst (λ x. x ≢ "" → Passes b a x) (some-injective s t e)
        (λ k. (Passes-iff b a s).0 (f.0 h (ground (arith, eq_iff s "")))),
  λ p. f.1 (λ ne. (Passes-iff b a s).1 (p s refl (λ e. ground (arith, eq_iff s "")))),
)

connector_Passes :
    (r : PolicyRules) (o : Option String)
    → (check_connector r o ≡ none)
      ↔ ((t : String) → o ≡ some t → t ≢ "" → Passes r.blocked_connectors r.allowed_connectors t)
unfolding check_connector
connector_Passes r none = (λ _ t e k. cc, λ _. refl)
connector_Passes r (some s) =
    named_Passes _ r.blocked_connectors r.allowed_connectors s (check_connector_iff r s)

role_Passes :
    (r : PolicyRules) (o : Option String)
    → (check_role r o ≡ none)
      ↔ ((t : String) → o ≡ some t → t ≢ "" → Passes none r.required_roles t)
unfolding check_role
role_Passes r none = (λ _ t e k. cc, λ _. refl)
role_Passes r (some s) = named_Passes _ none r.required_roles s (check_role_iff r s)

module _ (n : Numbers) where
  check_amount-Objects : (r : PolicyRules) (ps : Fields) → Objects (check_amount n r ps)
  unfolding check_amount
  check_amount-Objects r ps = ground arith

  Affordable-silent :
      (r : PolicyRules) (ps : Fields) → Affordable n r ps → check_amount n r ps ≡ none
  unfolding check_amount
  Affordable-silent r ps a = elim (Option-cases r.max_amount) [
    | inl e ↦ elim (Option-cases r.require_approval_above) [
      | inl f ↦ ground arith
      | inr (t, f) ↦ ground (arith, a.within_threshold t)
    ]
    | inr (m, e) ↦ elim (Option-cases r.require_approval_above) [
      | inl f ↦ ground (arith, a.within_max m)
      | inr (t, f) ↦ ground (arith, a.within_max m, a.within_threshold t)
    ]
  ]

  check_amount_iff :
      (r : PolicyRules) (ps : Fields) → (check_amount n r ps ≡ none) ↔ Affordable n r ps
  unfolding check_amount
  check_amount_iff r ps = (
    λ h. record { within_max = λ m e k. ground arith; within_threshold = λ m e k. ground arith },
    Affordable-silent r ps,
  )

  -- All five checks are silent.
  abbrev Silent : PolicyRules → Subject → PolicyContext → Type 0
  Silent r i c =
      (check_amount n r i.parameters ≡ none)
      × (check_action r i.action ≡ none)
      × (check_connector r c.connector_type ≡ none)
      × (check_environment r i.environment ≡ none)
      × (check_role r c.user_role ≡ none)

  allow_iff_Silent :
      (p : Policy) (i : Subject) (c : PolicyContext)
      → ((evaluate_policy n p i c).result ≡ allow) ↔ Silent p.rules i c
  unfolding evaluate_policy
  allow_iff_Silent p i c = ground (
    arith,
    check_amount-Objects p.rules i.parameters,
    check_action-Refuses p.rules i.action,
    check_connector-Refuses p.rules c.connector_type,
    check_environment-Refuses p.rules i.environment,
    check_role-Refuses p.rules c.user_role,
  )

  -- A policy allows an intent exactly when every rule that it sets permits it: the amount within
  -- both bounds, the action, the connector and the environment off the blocked lists and on the
  -- allowed ones, and the role, where one is known, among the required.
  pub evaluate_policy-allow_iff :
      (p : Policy) (i : Subject) (c : PolicyContext)
      → ((evaluate_policy n p i c).result ≡ allow) ↔ Permits n p.rules i c
  evaluate_policy-allow_iff p i c =
      let r = p.rules in
      (
        λ h.
            let silent = (allow_iff_Silent p i c).0 h in
            record {
              amount = (check_amount_iff r i.parameters).0 silent.0;
              action = (Passes-iff _ _ _).0 ((check_action_iff r i.action).0 silent.1);
              connector = (connector_Passes r c.connector_type).0 silent.2;
              environment =
                  (Passes-iff _ _ _).0 ((check_environment_iff r i.environment).0 silent.3);
              role = (role_Passes r c.user_role).0 silent.4;
            },
        λ q. (allow_iff_Silent p i c).1 (
          (check_amount_iff r i.parameters).1 q.amount,
          (check_action_iff r i.action).1 ((Passes-iff _ _ _).1 q.action),
          (connector_Passes r c.connector_type).1 q.connector,
          (check_environment_iff r i.environment).1 ((Passes-iff _ _ _).1 q.environment),
          (role_Passes r c.user_role).1 q.role,
        ),
      )

  -- What a policy leaves to the reviewers is decided by the amount alone: it is a number above the
  -- approval threshold and not above the maximum. The blocked lists are then not looked at.
  pub evaluate_policy-require_approval_iff :
      (p : Policy) (i : Subject) (c : PolicyContext)
      → let amount = amount_of n p.rules i.parameters in
        ((evaluate_policy n p i c).result ≡ require_approval) ↔ (
          (n.is_nan amount ≡ false)
          × (exceeds n amount p.rules.max_amount ≡ false)
          × (exceeds n amount p.rules.require_approval_above ≡ true))
  unfolding evaluate_policy check_amount
  evaluate_policy-require_approval_iff p i c = ground (
    arith,
    check_action-Refuses p.rules i.action,
    check_connector-Refuses p.rules c.connector_type,
    check_environment-Refuses p.rules i.environment,
    check_role-Refuses p.rules c.user_role,
  )
