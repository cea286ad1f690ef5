-- ===== src/World.antt =====
-- The state that the services share, and the monad of a handler: every step reads and writes the
-- state or throws, and what was written before a throw stays written.
pub mod Respects
pub mod Yields
use vowgrid_api.Common.{
  ℕ, suc, String, Bool, true, false, Option, none, some, List, [], ◌∷◌, ◌++◌, if◌then◌else◌,
}
use vowgrid_api.Env.{Env, Settled, resolved, threw}
use vowgrid_api.Auth.Rows.{AuthTables}
use vowgrid_api.Billing.Rows.{BillingTables}
use vowgrid_api.Policies.{Policy}
use vowgrid_api.States.{IntentState}
use vowgrid_api.Rows.{
  Intent, Connector, SimulationResult, PolicyDecision, ApprovalRequest, ApprovalDecision,
  WorkspaceMembership, User, ExecutionJob, RollbackAttempt, Receipt, AuditEvent, QueuedJob, Effect,
}

pub record World (env : Env) : Type 0 where
  pub intents : env.db.Table Intent
  pub connectors : env.db.Table Connector
  pub simulation_results : env.db.Table SimulationResult
  pub policies : env.db.Table Policy
  pub policy_decisions : env.db.Table PolicyDecision
  pub approval_requests : env.db.Table ApprovalRequest
  pub approval_decisions : env.db.Table ApprovalDecision
  pub memberships : env.db.Table WorkspaceMembership
  pub users : env.db.Table User
  pub execution_jobs : env.db.Table ExecutionJob
  pub rollback_attempts : env.db.Table RollbackAttempt
  pub receipts : env.db.Table Receipt
  pub audit_events : env.db.Table AuditEvent
  pub billing : BillingTables env.db
  pub auth : AuthTables env.db
  pub execution_queue : List QueuedJob
  pub rollback_queue : List QueuedJob
  -- the counters of lib/metrics.ts, one entry for each increment
  pub metrics : List String
  pub effects : List Effect
  -- the moments that have passed: calls whose result the outside world decides
  pub ticks : ℕ

-- common/errors.ts, the errors of the database client, and any other `Error` with its message.
pub data Error : Type 0 where
  not_found : String → ℕ → Error
  validation conflict unauthorized forbidden payment_required billing_configuration thrown :
      String → Error
  invalid_state_transition : IntentState → IntentState → Error
  record_missing unique_violation : Error

pub data Result (A : Type 0) : Type 0 where
  ok : A → Result A
  err : Error → Result A

abbrev pub is_err : {A : Type 0} → Result A → Bool
is_err (ok _) = false
is_err (err _) = true

module _ (env : Env) where
  abbrev pub Action : Type 0 → Type 0
  Action A = World env → Result A × World env

infixl 5 ◌>>=◌ ◌>>◌
unfoldable pub ◌>>=◌ : {env : Env} {A B : Type 0} → Action env A → (A → Action env B) → Action env B
◌>>=◌ m f w = let (r, w') = m w in elim r [ ok a ↦ f a w' | err e ↦ (err e, w') ]

abbrev pub ◌>>◌ : {env : Env} {A B : Type 0} → Action env A → Action env B → Action env B
m >> k = m >>= λ _. k

module _ {env : Env} where
  unfoldable pub pure : {A : Type 0} → A → Action env A
  pure a w = (ok a, w)

  unfoldable pub raise : {A : Type 0} → Error → Action env A
  raise e w = (err e, w)

  unfoldable pub query : {A : Type 0} → (World env → A) → Action env A
  query f w = (ok (f w), w)

  unfoldable pub write : (World env → World env) → Action env (Unit {0})
  write f w = (ok tt, f w)

  unfoldable pub or_raise : {A : Type 0} → Option A → Error → Action env A
  unfolding raise pure
  or_raise none e = raise e
  or_raise (some a) e = pure a

  unfoldable pub raise_if : Bool → Error → Action env (Unit {0})
  raise_if c e w = (if c then err e else ok tt, w)

  abbrev pub when : Bool → Action env (Unit {0}) → Action env (Unit {0})
  when c m = if c then m else pure tt

  -- A call that the outside world answers.
  unfoldable pub ask : {A : Type 0} → (ℕ → A) → Action env A
  ask f w = (ok (f w.ticks), record w { ticks = suc w.ticks })

  -- `await` of a promise.
  unfoldable pub settle : {A : Type 0} → Settled A → Action env A
  unfolding raise pure
  settle (resolved a) = pure a
  settle (threw e) = raise (thrown e)

  -- `try { body } catch (error) { handler }`: what the body wrote stays.
  unfoldable pub try_catch : {A : Type 0} → Action env A → (Error → Action env A) → Action env A
  try_catch m h w = let (r, w') = m w in elim r [ ok a ↦ (ok a, w') | err e ↦ h e w' ]

  -- `prisma.$transaction`: a throw undoes what the body wrote.
  unfoldable pub transaction : {A : Type 0} → Action env A → Action env A
  transaction m w =
      let (r, w') = m w in
      elim r [ ok a ↦ (ok a, w') | err e ↦ (err e, record w { ticks = w'.ticks }) ]

  unfoldable pub observe : String → Action env (Unit {0})
  unfolding write
  observe label = write λ w. record w { metrics = w.metrics ++ label ∷ [] }

-- What a proof unfolds to run a handler.
unfoldable pub run_steps : Unit {0}
unfolding ◌>>=◌ pure raise query write or_raise raise_if ask settle try_catch transaction observe
run_steps = tt
