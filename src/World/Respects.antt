-- ===== src/World/Respects.antt =====
-- A relation between the world before a handler and the world after it, and the rules by which it
-- follows the steps of the handler: it is a preorder that the passing of time and the metrics keep.
use vowgrid_api.Common.{ℕ, String, Bool, true, false, Option, none, some, List, if◌then◌else◌}
use vowgrid_api.Env.{Env, Settled, resolved, threw}
use vowgrid_api.World.{
  World, Action, Error, Result, ok, err, ◌>>=◌, try_catch, transaction, settle, pure, raise, query,
  write, or_raise, raise_if, ask, observe,
}

pub record Preorder (env : Env) : Type 1 where
  pub Rel : World env → World env → Type 0
  pub rel_refl : (w : World env) → Rel w w
  pub rel_trans : (u v w : World env) → Rel u v → Rel v w → Rel u w
  pub rel_later : (w : World env) (t : ℕ) → Rel w (record w { ticks = t })
  pub rel_observed : (w : World env) (m : List String) → Rel w (record w { metrics = m })

pub record Respects {env : Env} (R : Preorder env) {A : Type 0} (m : Action env A) : Type 0 where
  pub run : (w : World env) → R.Rel w (m w).1

module _ {env : Env} {R : Preorder env} where
  pub Respects-bind :
      {A B : Type 0} {m : Action env A} {f : A → Action env B}
      → Respects R m
      → ((a : A) → Respects R (f a))
      → Respects R (m >>= f)
  unfolding ◌>>=◌
  Respects-bind {A} {B} {m} {f} km kf = record { run = λ w. by_result w (m w).0 (m w).1 (km.run w) }
    where
      by_result :
          (w : World env) (r : Result A) (v : World env)
          → R.Rel w v
          → let out : Result B × World env = elim r [ ok a ↦ f a v | err e ↦ (err e, v) ] in
            R.Rel w out.1
      by_result w (ok a) v h = R.rel_trans w v (f a v).1 h ((kf a).run v)
      by_result w (err e) v h = h

  pub Respects-try_catch :
      {A : Type 0} {m : Action env A} {handler : Error → Action env A}
      → Respects R m
      → ((e : Error) → Respects R (handler e))
      → Respects R (try_catch m handler)
  unfolding try_catch
  Respects-try_catch {A} {m} {handler} km kh = record {
    run = λ w. by_result w (m w).0 (m w).1 (km.run w);
  }
    where
      by_result :
          (w : World env) (r : Result A) (v : World env)
          → R.Rel w v
          → let out : Result A × World env = elim r [ ok a ↦ (ok a, v) | err e ↦ handler e v ] in
            R.Rel w out.1
      by_result w (ok a) v h = h
      by_result w (err e) v h = R.rel_trans w v (handler e v).1 h ((kh e).run v)

  -- A transaction that is rolled back has only taken time.
  pub Respects-transaction :
      {A : Type 0} {m : Action env A} → Respects R m → Respects R (transaction m)
  unfolding transaction
  Respects-transaction {A} {m} km = record { run = λ w. by_result w (m w).0 (m w).1 (km.run w) }
    where
      by_result :
          (w : World env) (r : Result A) (v : World env)
          → R.Rel w v
          → let out : Result A × World env = elim r [
            | ok a ↦ (ok a, v)
            | err e ↦ (err e, record w { ticks = v.ticks })
          ] in
            R.Rel w out.1
      by_result w (ok a) v h = h
      by_result w (err e) v h = R.rel_later w v.ticks

  pub Respects-if :
      {A : Type 0} (c : Bool) {m n : Action env A}
      → Respects R m
      → Respects R n
      → Respects R (if c then m else n)
  Respects-if true km kn = km
  Respects-if false km kn = kn

  pub Respects-option :
      {A B : Type 0} (o : Option A) {m : Action env B} {f : A → Action env B}
      → Respects R m
      → ((a : A) → Respects R (f a))
      → Respects R (elim o [ none ↦ m | some a ↦ f a ])
  Respects-option none km kf = km
  Respects-option (some a) km kf = kf a

  pub Respects-pure : {A : Type 0} (a : A) → Respects R (pure a)
  unfolding pure
  Respects-pure a = record { run = λ w. R.rel_refl w }

  pub Respects-raise : {A : Type 0} (e : Error) → Respects R (raise {A = A} e)
  unfolding raise
  Respects-raise e = record { run = λ w. R.rel_refl w }

  pub Respects-query : {A : Type 0} (f : World env → A) → Respects R (query f)
  unfolding query
  Respects-query f = record { run = λ w. R.rel_refl w }

  pub Respects-write :
      (f : World env → World env) → ((w : World env) → R.Rel w (f w)) → Respects R (write f)
  unfolding write
  Respects-write f h = record { run = h }

  pub Respects-or_raise : {A : Type 0} (o : Option A) (e : Error) → Respects R (or_raise o e)
  unfolding or_raise
  Respects-or_raise none e = record { run = λ w. R.rel_refl w }
  Respects-or_raise (some a) e = record { run = λ w. R.rel_refl w }

  pub Respects-raise_if : (c : Bool) (e : Error) → Respects R (raise_if c e)
  unfolding raise_if
  Respects-raise_if c e = record { run = λ w. R.rel_refl w }

  pub Respects-ask : {A : Type 0} (f : ℕ → A) → Respects R (ask f)
  unfolding ask
  Respects-ask f = record { run = λ w. R.rel_later w _ }

  pub Respects-settle : {A : Type 0} (p : Settled A) → Respects R (settle p)
  unfolding settle
  Respects-settle (resolved a) = record { run = λ w. R.rel_refl w }
  Respects-settle (threw e) = record { run = λ w. R.rel_refl w }

  pub Respects-observe : (label : String) → Respects R (observe label)
  unfolding observe
  Respects-observe label = record { run = λ w. R.rel_observed w _ }

pub ruleset steps = (
  Respects-bind, Respects-if, Respects-option, Respects-pure, Respects-raise, Respects-query,
  Respects-write, Respects-or_raise, Respects-raise_if, Respects-ask, Respects-settle,
  Respects-observe, Respects-try_catch, Respects-transaction,
)
