-- ===== src/Billing/Proration.antt =====
-- `calculateProrationPreview` of apps/api/src/modules/billing/invoices.ts.
use vowgrid_api.Common.{
  ℕ, ◌-◌, ◌*◌, ◌≤◌, ◌≡◌, ◌∙◌, ap, ◌&&◌, Option, none, some, ltb, ◌==◌, if◌then◌else◌, arith,
  Option-cases, inl, inr,
}
use vowgrid_api.Common.Int.{ℤ, sub_ℕ}
use vowgrid_api.Billing.Rows.{
  BillingPlanKey, launch, pro, business, enterprise, BillingCycle, monthly, yearly,
}
use vowgrid_api.Billing.Provider.{price_of}

-- The doubles of the calculation: `Number((part / whole).toFixed(4))`, and `Math.round(amount * ratio)`.
pub record Ratios : Type 0 where
  pub ratio : ℕ → ℕ → ℕ
  pub scale : ℕ → ℕ → ℕ

pub record ProrationPreview : Type 0 where
  pub source_plan_key : BillingPlanKey
  pub source_billing_cycle : BillingCycle
  pub target_plan_key : BillingPlanKey
  pub target_billing_cycle : BillingCycle
  pub remaining_ratio : ℕ
  pub credit_brl_cents : ℕ
  pub charge_brl_cents : ℕ
  pub net_brl_cents : ℤ

pub record ProrationInput : Type 0 where
  pub source_plan_key : Option BillingPlanKey
  pub source_billing_cycle : Option BillingCycle
  pub target_plan_key : BillingPlanKey
  pub target_billing_cycle : BillingCycle
  pub current_period_start : Option ℕ
  pub current_period_end : Option ℕ

abbrev plan_index : BillingPlanKey → ℕ
plan_index launch = 0
plan_index pro = 1
plan_index business = 2
plan_index enterprise = 3

abbrev cycle_index : BillingCycle → ℕ
cycle_index monthly = 0
cycle_index yearly = 1

abbrev to_brl_cents : Option ℕ → Option ℕ
to_brl_cents none = none
to_brl_cents (some amount) = some (amount * 100)

-- `Math.max(a, 1)`
abbrev at_least_one : ℕ → ℕ
at_least_one a = if ltb 1 a then a else 1

-- What is left of a period, as a ratio; a remainder or a length below zero counts as 0 and as 1.
unfoldable pub remaining_ratio_at : Ratios → ℕ → ℕ → ℕ → ℕ
remaining_ratio_at r now start finish = r.ratio (finish - now) (at_least_one (finish - start))

abbrev pub preview_of :
    Ratios
    → BillingPlanKey
    → BillingCycle
    → BillingPlanKey
    → BillingCycle
    → ℕ
    → ℕ
    → ℕ
    → ProrationPreview
preview_of r source cycle target target_cycle source_amount target_amount left = record {
  source_plan_key = source;
  source_billing_cycle = cycle;
  target_plan_key = target;
  target_billing_cycle = target_cycle;
  remaining_ratio = left;
  credit_brl_cents = r.scale source_amount left;
  charge_brl_cents = r.scale target_amount left;
  net_brl_cents = sub_ℕ (r.scale target_amount left) (r.scale source_amount left);
}

unfoldable pub preview_between :
    Ratios
    → ℕ
    → BillingPlanKey
    → BillingCycle
    → BillingPlanKey
    → BillingCycle
    → ℕ
    → ℕ
    → Option ProrationPreview
preview_between r now source cycle target target_cycle start finish =
    if plan_index source == plan_index target && cycle_index cycle == cycle_index target_cycle
    then none
    else elim (to_brl_cents (price_of source cycle)) [
      | none ↦ none
      | some source_amount ↦ elim (to_brl_cents (price_of target target_cycle)) [
        | none ↦ none
        | some target_amount ↦ some (
            preview_of r source cycle target target_cycle source_amount target_amount
              (remaining_ratio_at r now start finish))
      ]
    ]

unfoldable pub calculate_proration_preview : Ratios → ℕ → ProrationInput → Option ProrationPreview
unfolding remaining_ratio_at preview_between
calculate_proration_preview r now input = elim input.source_plan_key [
  | none ↦ none
  | some source ↦ elim input.source_billing_cycle [
    | none ↦ none
    | some cycle ↦ elim input.current_period_start [
      | none ↦ none
      | some start ↦ elim input.current_period_end [
        | none ↦ none
        | some finish ↦
            preview_between r now source cycle input.target_plan_key input.target_billing_cycle
              start finish
      ]
    ]
  ]
]

-- What the doubles are relied on for: a part of a whole scales an amount to no more than itself, a larger
-- amount to no less, and nothing to nothing.
pub record IsRounding (r : Ratios) : Type 0 where
  pub scale-part :
      (amount part whole : ℕ) → part ≤ whole → r.scale amount (r.ratio part whole) ≤ amount
  pub scale-mono : (a b left : ℕ) → a ≤ b → r.scale a left ≤ r.scale b left
  pub scale-nothing : (amount whole : ℕ) → r.scale amount (r.ratio 0 whole) ≡ 0

-- A preview between two plans is the one of their prices.
preview_between-some :
    (r : Ratios) (now : ℕ) (source : BillingPlanKey) (cycle : BillingCycle)
    (target : BillingPlanKey) (target_cycle : BillingCycle) (start finish : ℕ)
    (v : ProrationPreview)
    → preview_between r now source cycle target target_cycle start finish ≡ some v
    → (a b : ℕ) × (price_of source cycle ≡ some a)
      × (price_of target target_cycle ≡ some b)
      × (preview_of r source cycle target target_cycle
            (a * 100)
            (b * 100)
            (remaining_ratio_at r now start finish)
          ≡ v)
unfolding preview_between
preview_between-some r now source cycle target target_cycle start finish v e =
    elim (Option-cases (price_of source cycle)) [
      | inl q ↦ absurd (ground arith)
      | inr (a, q) ↦ elim (Option-cases (price_of target target_cycle)) [
        | inl z ↦ absurd (ground arith)
        | inr (b, z) ↦ (a, b, q, z, ground arith)
      ]
    ]

-- The preview of a subscription is the one of its plan, its cycle and its period.
calculate-some :
    (r : Ratios) (now : ℕ) (input : ProrationInput) (v : ProrationPreview)
    → calculate_proration_preview r now input ≡ some v
    → (source : BillingPlanKey) × (cycle : BillingCycle) × (start finish : ℕ)
      × (input.current_period_start ≡ some start)
      × (input.current_period_end ≡ some finish)
      × (preview_between r now source cycle input.target_plan_key input.target_billing_cycle start
            finish
          ≡ some v)
unfolding calculate_proration_preview
calculate-some r now input v e = elim (Option-cases input.source_plan_key) [
  | inl q ↦ absurd (ground arith)
  | inr (source, q) ↦ elim (Option-cases input.source_billing_cycle) [
    | inl z ↦ absurd (ground arith)
    | inr (cycle, z) ↦ elim (Option-cases input.current_period_start) [
      | inl s ↦ absurd (ground arith)
      | inr (start, s) ↦ elim (Option-cases input.current_period_end) [
        | inl f ↦ absurd (ground arith)
        | inr (finish, f) ↦ (source, cycle, start, finish, s, f, ground arith)
      ]
    ]
  ]
]

remaining-part : (now start finish : ℕ) → start ≤ now → finish - now ≤ at_least_one (finish - start)
remaining-part now start finish h = grind arith

nothing-left :
    (r : Ratios) (now start finish amount : ℕ)
    → IsRounding r
    → finish ≤ now
    → r.scale amount (remaining_ratio_at r now start finish) ≡ 0
unfolding remaining_ratio_at
nothing-left r now start finish amount l h =
    let over : finish - now ≡ 0 = omega arith in
    ap (λ x. r.scale amount (r.ratio x (at_least_one (finish - start)))) over
    ∙ l.scale-nothing amount (at_least_one (finish - start))

-- Within its period, a change of plan credits no more than the price of the plan that is left, and charges
-- no more than the price of the new one; a dearer plan charges at least what is credited; and once the
-- period is over nothing is credited or charged. There is no preview without a period that has a start and
-- an end, nor for a plan without a price.
pub calculate_proration_preview-bounded :
    (r : Ratios) (now : ℕ) (input : ProrationInput) (v : ProrationPreview)
    → IsRounding r
    → calculate_proration_preview r now input ≡ some v
    → (a b start finish : ℕ) × (input.current_period_start ≡ some start)
      × (input.current_period_end ≡ some finish)
      × (price_of v.source_plan_key v.source_billing_cycle ≡ some a)
      × (price_of v.target_plan_key v.target_billing_cycle ≡ some b)
      × (start ≤ now → (v.credit_brl_cents ≤ a * 100) × (v.charge_brl_cents ≤ b * 100))
      × (a ≤ b → v.credit_brl_cents ≤ v.charge_brl_cents)
      × (finish ≤ now → (v.credit_brl_cents ≡ 0) × (v.charge_brl_cents ≡ 0))
unfolding remaining_ratio_at
calculate_proration_preview-bounded r now input v l e =
    let (source, cycle, start, finish, s, f, made) = calculate-some r now input v e in
    let (a, b, p, q, z) =
      preview_between-some r now source cycle input.target_plan_key input.target_billing_cycle start
        finish v made in
    let whole = at_least_one (finish - start) in
    (
      a,
      b,
      start,
      finish,
      s,
      f,
      rw (← z) p,
      rw (← z) q,
      (λ h. (
        rw (← z) (l.scale-part (a * 100) (finish - now) whole (remaining-part now start finish h)),
        rw (← z) (l.scale-part (b * 100) (finish - now) whole (remaining-part now start finish h)),
      )),
      (λ h. rw (← z) (l.scale-mono (a * 100) (b * 100) _ (omega arith))),
      (λ h. (
        rw (← z) (nothing-left r now start finish (a * 100) l h),
        rw (← z) (nothing-left r now start finish (b * 100) l h),
      )),
    )
