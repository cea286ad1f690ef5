-- ===== src/Workflow/Calls.antt =====
-- Any sequence of calls of the handlers and the workers of apps/api/src/modules and apps/api/src/jobs,
-- in any order and with any outcome, against the state machine.
use vowgrid_api.Common.{
  some, ◌||◌, Bool-cases, inl, inr, ℕ, String, ◌≡◌, refl, Bool, true, false, Option, List, [], ◌∷◌,
  any, All, arith,
}
use vowgrid_api.Env.{Env}
use vowgrid_api.Prisma.{IsLawful}
use vowgrid_api.Rows.{Intent, ActorType, Role, DecisionKind}
use vowgrid_api.States.{IntentState, proposed}
use vowgrid_api.States.Lifecycle.{◌⟶*◌}
use vowgrid_api.World.{World}
use vowgrid_api.Intents.{with_status, propose_intent}
use vowgrid_api.Intents.Create.{CreateIntentInput, create_intent}
use vowgrid_api.Intents.Progress.{
  Progress-transition, HasUniqueIds, Advances, Advances-refl, Advances-trans, intent_row,
}
use vowgrid_api.Intents.Walks.{Walk-weaken, Walk-life, anywhere, unapproved, is_gated, gated-Walk}
use vowgrid_api.Simulations.{simulate_intent}
use vowgrid_api.Approvals.{submit_for_approval}
use vowgrid_api.Approvals.Model.{SubmitForApprovalInput}
use vowgrid_api.Approvals.Review.{process_approval_decision}
use vowgrid_api.Approvals.Stages.{nowhere}
use vowgrid_api.Executions.{queue_execution, request_rollback}
use vowgrid_api.Jobs.{process_execution}
use vowgrid_api.Jobs.Rollback.{process_rollback}
use vowgrid_api.Workflow.{to_simulated, to_reviewed, to_executed, to_requested, to_undone}
use vowgrid_api.Workflow.Entry.{
  to_submitted, to_queued, create_intent-moves_none, submit_for_approval-moves,
  queue_execution-moves,
}
use vowgrid_api.Workflow.Reach.{
  process_approval_decision-moves, process_execution-moves, process_rollback-moves,
  request_rollback-moves, simulate_intent-moves,
}

-- A request, or a run of a worker, with its arguments.
pub data Call : Type 0 where
  create_call : ℕ → CreateIntentInput → String → ActorType → Call
  propose_call simulate_call queue_call : ℕ → ℕ → String → ActorType → Call
  submit_call : ℕ → ℕ → SubmitForApprovalInput → String → ActorType → Call
  decide_call : ℕ → ℕ → DecisionKind → Option String → ℕ → Option Role → Call
  execute_call : ℕ → ℕ → ℕ → ℕ → Call
  request_rollback_call : ℕ → ℕ → String → ActorType → Option String → Call
  rollback_call : ℕ → ℕ → ℕ → ℕ → ℕ → Call

abbrev pub is_decision : Call → Bool
is_decision (decide_call request who d why ws role) = true
is_decision _ = false

abbrev to_proposed : IntentState → Bool
to_proposed proposed = true
to_proposed _ = false

-- The states that a call can move an intent into.
abbrev allowed_by : Call → IntentState → Bool
allowed_by (create_call ws input a t) = nowhere
allowed_by (propose_call id ws a t) = to_proposed
allowed_by (simulate_call id ws a t) = to_simulated
allowed_by (queue_call id ws a t) = to_queued
allowed_by (submit_call id ws input a t) = to_submitted
allowed_by (decide_call request who d why ws role) = to_reviewed
allowed_by (execute_call id job ws n) = to_executed
allowed_by (request_rollback_call id ws a t reason) = to_requested
allowed_by (rollback_call id attempt ws n most) = to_undone

module _ (env : Env) where
  -- The world after a call.
  unfoldable pub run_call : Call → World env → World env
  run_call (create_call ws input a t) w = (create_intent env ws input a t w).1
  run_call (propose_call id ws a t) w = (propose_intent env id ws a t w).1
  run_call (simulate_call id ws a t) w = (simulate_intent env id ws a t w).1
  run_call (queue_call id ws a t) w = (queue_execution env id ws a t w).1
  run_call (submit_call id ws input a t) w = (submit_for_approval env id ws input a t w).1
  run_call (decide_call request who d why ws role) w =
      (process_approval_decision env request who d why ws role w).1
  run_call (execute_call id job ws n) w = (process_execution env id job ws n w).1
  run_call (request_rollback_call id ws a t reason) w = (request_rollback env id ws a t reason w).1
  run_call (rollback_call id attempt ws n most) w = (process_rollback env id attempt ws n most w).1

  unfoldable pub run_calls : List Call → World env → World env
  unfolding run_call
  run_calls [] w = w
  run_calls (c ∷ cs) w = run_calls cs (run_call c w)

or_left : (b c : Bool) → b ≡ true → ¬ ((b || c) ≡ false)
or_left b c d h = ground arith

or_right : (b c : Bool) → b ≡ false → (b || c) ≡ false → c ≡ false
or_right b c d h = ground arith

not_approving :
    (c : Call) (u : IntentState)
    → is_decision c ≡ false
    → allowed_by c u ≡ true
    → unapproved u ≡ true
not_approving c u plain h = ground arith

module _ (env : Env) (L : IsLawful env.db) where
  call_moves :
      (c : Call) (w : World env)
      → HasUniqueIds env w
      → HasUniqueIds env (run_call env c w) × Advances env (allowed_by c) w (run_call env c w)
  unfolding run_call propose_intent
  call_moves (create_call ws input a t) w u = create_intent-moves_none env L w u ws input a t
  call_moves (propose_call id ws a t) w u =
      (Progress-transition env L id ws proposed a t refl).run w u
  call_moves (simulate_call id ws a t) w u = simulate_intent-moves env L w u id ws a t
  call_moves (queue_call id ws a t) w u = queue_execution-moves env L w u id ws a t
  call_moves (submit_call id ws input a t) w u = submit_for_approval-moves env L w u id ws input a t
  call_moves (decide_call request who d why ws role) w u =
      process_approval_decision-moves env L w u request who d why ws role
  call_moves (execute_call id job ws n) w u = process_execution-moves env L w u id job ws n
  call_moves (request_rollback_call id ws a t reason) w u =
      request_rollback-moves env L w u id ws a t reason
  call_moves (rollback_call id attempt ws n most) w u =
      process_rollback-moves env L w u id attempt ws n most

  Advances-weaken :
      (p q : IntentState → Bool) (w v : World env)
      → ((u : IntentState) → p u ≡ true → q u ≡ true)
      → Advances env p w v
      → Advances env q w v
  Advances-weaken p q w v weaker a k i found =
      let (s, after, walk) = a k i found in (s, after, Walk-weaken p q weaker walk)

  calls_advance :
      (q : IntentState → Bool) (cs : List Call) (w : World env)
      → All (λ c. (u : IntentState) → allowed_by c u ≡ true → q u ≡ true) cs
      → HasUniqueIds env w
      → HasUniqueIds env (run_calls env cs w) × Advances env q w (run_calls env cs w)
  unfolding run_calls
  calls_advance q [] w all u = (u, Advances-refl env q w w refl)
  calls_advance q (c ∷ cs) w all u =
      let (u', a) = call_moves c w u in
      let (u'', b) = calls_advance q cs (run_call env c w) all.1 u' in
      (
        u'',
        Advances-trans env q w (run_call env c w) (run_calls env cs (run_call env c w))
            (Advances-weaken (allowed_by c) q w (run_call env c w) all.0 a) b,
      )

  -- The handlers implement the state machine: where the ids are unique, they still are after any
  -- sequence of calls, in any order and with any outcome, and every intent is there and the same but for
  -- its status, which the machine reaches from the one before.
  pub run_calls-refines :
      (cs : List Call) (w : World env)
      → HasUniqueIds env w
      → HasUniqueIds env (run_calls env cs w)
        × ((k : ℕ) (i : Intent)
            → intent_row env k w ≡ some i
            → (s : IntentState) × (intent_row env k (run_calls env cs w) ≡ some (with_status s i))
              × (i.status ⟶* s))
  run_calls-refines cs w u =
      let (unique, a) = calls_advance anywhere cs w (always cs) u in
      (unique, λ k i found. let (s, after, walk) = a k i found in (s, after, Walk-life walk))
    where
      always :
          (cs : List Call)
          → All (λ c. (u : IntentState) → allowed_by c u ≡ true → anywhere u ≡ true) cs
      always [] = tt
      always (c ∷ cs) = (λ u h. refl, always cs)

  -- Without a decision of a reviewer nothing is let through: where the ids are unique, after any
  -- sequence of other calls an intent that was neither approved nor in a state in which its action may
  -- have run is not either.
  pub run_calls-gated :
      (cs : List Call) (w : World env) (k : ℕ) {i : Intent}
      → HasUniqueIds env w
      → any is_decision cs ≡ false
      → intent_row env k w ≡ some i
      → is_gated i.status ≡ true
      → (s : IntentState) × (intent_row env k (run_calls env cs w) ≡ some (with_status s i))
        × (is_gated s ≡ true)
  run_calls-gated cs w k {i} u plain found gated =
      let (s, after, walk) =
        (calls_advance unapproved cs w (none_approves cs plain) u).1 k i found in
      (s, after, gated-Walk walk gated)
    where
      none_approves :
          (cs : List Call)
          → any is_decision cs ≡ false
          → All (λ c. (u : IntentState) → allowed_by c u ≡ true → unapproved u ≡ true) cs
      none_approves [] h = tt
      none_approves (c ∷ cs) h = elim (Bool-cases (is_decision c)) [
        | inl decides ↦ absurd (or_left (is_decision c) (any is_decision cs) decides h)
        | inr waits ↦ (
          λ u a. not_approving c u waits a,
          none_approves cs (or_right (is_decision c) (any is_decision cs) waits h),
        )
      ]
