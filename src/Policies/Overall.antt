-- ===== src/Policies/Overall.antt =====
-- `evaluatePolicies` of apps/api/src/modules/policies/engine.ts: the result over all policies.
use Prim.Native.Nat.{max}
use mathlib.Core.List.{Perm}
use mathlib.Core.List.Perm
use vowgrid_api.Common.{
  ℕ, ◌≤◌, ◌≡◌, refl, List, [], ◌∷◌, map, arith, leb, filter, All, if◌then◌else◌, Bool-cases, inl,
  inr,
}
use vowgrid_api.Json.{Numbers}
use vowgrid_api.Policies.{
  PolicyResult, allow, deny, require_approval, PolicyEvaluationResult, Policy, Subject,
  PolicyContext, evaluate_policy, insert_by_priority, sort_by_priority, restrict_loop,
  evaluate_policies,
}

-- allow < require_approval < deny
abbrev pub severity : PolicyResult → ℕ
severity allow = 0
severity require_approval = 1
severity deny = 2

pub severity-injective : (r s : PolicyResult) → severity r ≡ severity s → r ≡ s
severity-injective r s h = ground arith

abbrev peak : List PolicyEvaluationResult → ℕ
peak [] = 0
peak (d ∷ ds) = max (severity d.result) (peak ds)

peak-le : (ds : List PolicyEvaluationResult) → peak ds ≤ 2
peak-le [] = omega arith
peak-le (d ∷ ds) = ground (arith, peak-le ds)

-- Before the loop breaks, what it has so far is `allow` or `require_approval`.
severity-restrict_loop :
    (acc : PolicyResult) (ds : List PolicyEvaluationResult)
    → severity acc ≤ 1
    → severity (restrict_loop acc ds) ≡ max (severity acc) (peak ds)
unfolding restrict_loop
severity-restrict_loop acc [] h = omega arith
severity-restrict_loop acc (d ∷ ds) h =
    ground
      (arith, peak-le ds, severity-restrict_loop acc ds, severity-restrict_loop require_approval ds)

insert_by_priority-perm : (p : Policy) (ps : List Policy) → Perm (insert_by_priority p ps) (p ∷ ps)
unfolding insert_by_priority
insert_by_priority-perm p [] = Perm.refl _
insert_by_priority-perm p (q ∷ qs) = elim (Bool-cases (leb q.priority p.priority)) [
  | inl e ↦ rw e (Perm.refl _)
  | inr e ↦ rw e (Perm.trans (Perm.cons _ (insert_by_priority-perm p qs)) (Perm.swap p q qs))
]

sort_by_priority-perm : (ps : List Policy) → Perm (sort_by_priority ps) ps
unfolding sort_by_priority
sort_by_priority-perm [] = Perm.refl _
sort_by_priority-perm (p ∷ ps) =
    Perm.trans (insert_by_priority-perm p (sort_by_priority ps))
      (Perm.cons _ (sort_by_priority-perm ps))

abbrev AtMost : ℕ → Policy → Type 0
AtMost m p = p.priority ≤ m

-- Each policy has a priority at least that of every later one.
abbrev pub IsSortedDown : List Policy → Type 0
IsSortedDown [] = Unit
IsSortedDown (p ∷ ps) = All (λ q. q.priority ≤ p.priority) ps × IsSortedDown ps

All-weaken : (m k : ℕ) (ps : List Policy) → m ≤ k → All (AtMost m) ps → All (AtMost k) ps
All-weaken m k [] h a = tt
All-weaken m k (p ∷ ps) h a = (omega arith, All-weaken m k ps h a.1)

All-insert :
    (m : ℕ) (p : Policy) (ps : List Policy)
    → p.priority ≤ m
    → All (AtMost m) ps
    → All (AtMost m) (insert_by_priority p ps)
unfolding insert_by_priority
All-insert m p [] h a = (h, tt)
All-insert m p (q ∷ qs) h a = ground (arith, All-insert m p qs h a.1)

insert_by_priority-IsSortedDown :
    (p : Policy) (ps : List Policy) → IsSortedDown ps → IsSortedDown (insert_by_priority p ps)
unfolding insert_by_priority
insert_by_priority-IsSortedDown p [] h = (tt, tt)
insert_by_priority-IsSortedDown p (q ∷ qs) h = ground (
  arith,
  All-weaken q.priority p.priority qs,
  All-insert q.priority p qs,
  insert_by_priority-IsSortedDown p qs h.1,
)

sort_by_priority-IsSortedDown : (ps : List Policy) → IsSortedDown (sort_by_priority ps)
unfolding sort_by_priority
sort_by_priority-IsSortedDown [] = tt
sort_by_priority-IsSortedDown (p ∷ ps) =
    insert_by_priority-IsSortedDown p (sort_by_priority ps) (sort_by_priority-IsSortedDown ps)

module _ (n : Numbers) (intent : Subject) (context : PolicyContext) where
  abbrev pub judge : Policy → PolicyEvaluationResult
  judge p = evaluate_policy n p intent context

  -- The severest verdict of the enabled policies, with no order and no early end.
  abbrev pub worst : List Policy → ℕ
  worst [] = 0
  worst (p ∷ ps) =
      let rest = worst ps in if p.enabled then max (severity (judge p).result) rest else rest

  peak-insert :
      (p : Policy) (ps : List Policy)
      → peak (map judge (insert_by_priority p ps))
        ≡ max (severity (judge p).result) (peak (map judge ps))
  unfolding insert_by_priority
  peak-insert p [] = omega arith
  peak-insert p (q ∷ qs) = ground (arith, peak-insert p qs)

  peak-sort : (ps : List Policy) → peak (map judge (sort_by_priority ps)) ≡ peak (map judge ps)
  unfolding sort_by_priority
  peak-sort [] = refl
  peak-sort (p ∷ ps) = omega (arith, peak-sort ps, peak-insert p (sort_by_priority ps))

  peak-filter : (ps : List Policy) → peak (map judge (filter (λ p. p.enabled) ps)) ≡ worst ps
  peak-filter [] = refl
  peak-filter (p ∷ ps) = ground (arith, peak-filter ps)

  -- The overall result is the severest verdict of any enabled policy: deny over
  -- require_approval over allow. Neither the priorities nor the early end of the loop count.
  pub evaluate_policies-worst :
      (ps : List Policy)
      → severity (evaluate_policies n ps intent context).overall_result ≡ worst ps
  unfolding evaluate_policies
  evaluate_policies-worst ps = omega (
    arith,
    severity-restrict_loop allow
        (map judge (sort_by_priority (filter (λ (p : Policy). p.enabled) ps))) (omega arith),
    peak-sort (filter (λ (p : Policy). p.enabled) ps),
    peak-filter ps,
  )

  -- One decision for each enabled policy and none for another, in the order of falling priority.
  pub evaluate_policies-decisions :
      (ps : List Policy)
      → (order : List Policy) × ((evaluate_policies n ps intent context).decisions
          ≡ map judge order)
        × Perm order (filter (λ p. p.enabled) ps)
        × IsSortedDown order
  unfolding evaluate_policies
  evaluate_policies-decisions ps =
      let chosen = filter (λ (p : Policy). p.enabled) ps in
      (
        sort_by_priority chosen,
        refl,
        sort_by_priority-perm chosen,
        sort_by_priority-IsSortedDown chosen,
      )
