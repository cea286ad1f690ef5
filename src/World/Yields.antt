-- ===== src/World/Yields.antt =====
-- What the value of a handler that does not throw satisfies.
use mathlib.Core.Path.{subst}
use vowgrid_api.Common.{◌≡◌, refl, ap}
use vowgrid_api.Env.{Env}
use vowgrid_api.World.{World, Action, Error, Result, ok, err, ◌>>=◌, query}

abbrev pub Yields : {A W : Type 0} → (A → Type 0) → Result A × W → Type 0
Yields Q (ok a, w) = Q a
Yields Q (err e, w) = Unit

pub Yields-apply :
    {A W : Type 0} (Q : A → Type 0) (out : Result A × W) {a : A} → Yields Q out → out.0 ≡ ok a → Q a
Yields-apply Q (ok b, w) {a} y h = subst Q (ok_injective h) y
  where
    ok_injective : {A : Type 0} {a b : A} → ◌≡◌ {A = Result A} (ok a) (ok b) → a ≡ b
    ok_injective h = cc
Yields-apply Q (err e, w) y h = absurd (err-ne-ok h)
  where
    err-ne-ok : {A : Type 0} {a : A} {e : Error} → ¬ (◌≡◌ {A = Result A} (err e) (ok a))
    err-ne-ok h = cc

pub Yields-weaken :
    {A W : Type 0} (Q R : A → Type 0) (out : Result A × W)
    → ((a : A) → Q a → R a)
    → Yields Q out
    → Yields R out
Yields-weaken Q R (ok a, w) weaker y = weaker a y
Yields-weaken Q R (err e, w) weaker y = tt

-- What the value of a handler that does not throw, and the world after it, satisfy.
abbrev pub Ends : {A W : Type 0} → (A → W → Type 0) → Result A × W → Type 0
Ends Q (ok a, w) = Q a w
Ends Q (err e, w) = Unit

pub Ends-apply :
    {A W : Type 0} (Q : A → W → Type 0) (out : Result A × W) {a : A}
    → Ends Q out
    → out.0 ≡ ok a
    → Q a out.1
Ends-apply {A} {W} Q (r, w) y h = Yields-apply (λ a. Q a w) (r, w) (flat r w y) h
  where
    flat : (r : Result A) (w : W) → Ends Q (r, w) → Yields (λ a. Q a w) (r, w)
    flat (ok a) w y = y
    flat (err e) w y = y

module _ {env : Env} where
  pub Ends-bind :
      {A B : Type 0} (Q : B → World env → Type 0) (m : Action env A) (f : A → Action env B)
      (w : World env)
      → ((a : A) (v : World env) → m w ≡ (ok a, v) → Ends Q (f a v))
      → Ends Q ((m >>= f) w)
  unfolding ◌>>=◌
  Ends-bind {A} {B} Q m f w k = by_result (m w).0 (m w).1 (λ a v e. k a v e)
    where
      by_result :
          (r : Result A) (v : World env)
          → ((a : A) (u : World env)
              → ◌≡◌ {A = Result A × World env} (r, v) (ok a, u)
              → Ends Q (f a u))
          → let out : Result B × World env = elim r [ ok a ↦ f a v | err e ↦ (err e, v) ] in
            Ends Q out
      by_result (ok a) v h = h a v refl
      by_result (err e) v h = tt

  pub Yields-bind :
      {A B : Type 0} (Q : B → Type 0) (m : Action env A) (f : A → Action env B) (w : World env)
      → ((a : A) (v : World env) → m w ≡ (ok a, v) → Yields Q (f a v))
      → Yields Q ((m >>= f) w)
  unfolding ◌>>=◌
  Yields-bind {A} {B} Q m f w k = by_result (m w).0 (m w).1 (λ a v e. k a v e)
    where
      by_result :
          (r : Result A) (v : World env)
          → ((a : A) (u : World env)
              → ◌≡◌ {A = Result A × World env} (r, v) (ok a, u)
              → Yields Q (f a u))
          → let out : Result B × World env = elim r [ ok a ↦ f a v | err e ↦ (err e, v) ] in
            Yields Q out
      by_result (ok a) v h = h a v refl
      by_result (err e) v h = tt

  pub Yields-then :
      {A B : Type 0} (P : A → Type 0) (Q : B → Type 0) (m : Action env A) (f : A → Action env B)
      (w : World env)
      → Yields P (m w)
      → ((a : A) (v : World env) → P a → Yields Q (f a v))
      → Yields Q ((m >>= f) w)
  Yields-then P Q m f w y k =
      Yields-bind Q m f w
        (λ a v e. k a v (Yields-apply P (m w) y (ap (λ (o : Result _ × World env). o.0) e)))

  pub Yields-query :
      {A B : Type 0} (Q : B → Type 0) (f : World env → A) (g : A → Action env B) (w : World env)
      → Yields Q (g (f w) w)
      → Yields Q ((query f >>= g) w)
  unfolding ◌>>=◌ query
  Yields-query Q f g w y = y
