-- ===== src/Tests/Flow.antt =====
-- Examples: sequences of calls on the workspace of the tests.
use vowgrid_api.Common.{ℕ, ◌≡◌, refl, true, some, List, [], ◌∷◌}
use vowgrid_api.Prisma.{in_memory_lawful}
use vowgrid_api.Rows.{Intent, user}
use vowgrid_api.States.{IntentState, draft}
use vowgrid_api.States.Lifecycle.{◌⟶*◌}
use vowgrid_api.Intents.{with_status}
use vowgrid_api.Intents.Progress.{HasUniqueIds, intent_row}
use vowgrid_api.Intents.Walks.{is_gated}
use vowgrid_api.Workflow.Calls.{
  Call, propose_call, simulate_call, execute_call, run_calls, run_calls-refines, run_calls-gated,
}
use vowgrid_api.Tests.{platform, order, office, office_unique}

abbrev life : List Call
life = propose_call 1 7 "ana" user ∷ simulate_call 1 7 "ana" user ∷ execute_call 1 2 7 0 ∷ []

run_calls-refines_example :
    HasUniqueIds platform (run_calls platform life (office draft))
    × ((k : ℕ) (i : Intent)
        → intent_row platform k (office draft) ≡ some i
        → (s : IntentState) × (intent_row platform k (run_calls platform life (office draft))
            ≡ some (with_status s i))
          × (i.status ⟶* s))
run_calls-refines_example =
    run_calls-refines platform in_memory_lawful life (office draft) (office_unique draft)

run_calls-gated_example :
    (s : IntentState) × (intent_row platform 1 (run_calls platform life (office draft))
      ≡ some (with_status s (order draft)))
    × (is_gated s ≡ true)
run_calls-gated_example =
    run_calls-gated platform in_memory_lawful life (office draft) 1 (office_unique draft) refl refl
      refl
