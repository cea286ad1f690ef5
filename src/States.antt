-- ===== src/States.antt =====
-- apps/api/src/modules/intents/state-machine.ts, and its copy in
-- packages/contracts/src/intent-states.ts: the life of an intent.
pub mod Lifecycle
use vowgrid_api.Common.{String, ◌≡◌, Bool, true, false, List, [], ◌∷◌, ◌==◌, ℕ, length, any}

pub data IntentState : Type 0 where
  draft proposed simulated pending_approval approved rejected queued executing succeeded failed
        rollback_pending rolled_back rollback_failed :
      IntentState

abbrev pub intent_states : List IntentState
intent_states =
    draft ∷ proposed ∷ simulated ∷ pending_approval ∷ approved ∷ rejected ∷ queued ∷ executing
    ∷ succeeded ∷ failed ∷ rollback_pending ∷ rolled_back ∷ rollback_failed ∷ []

-- The string that a state is in the source.
unfoldable pub state_name : IntentState → String
state_name draft = "draft"
state_name proposed = "proposed"
state_name simulated = "simulated"
state_name pending_approval = "pending_approval"
state_name approved = "approved"
state_name rejected = "rejected"
state_name queued = "queued"
state_name executing = "executing"
state_name succeeded = "succeeded"
state_name failed = "failed"
state_name rollback_pending = "rollback_pending"
state_name rolled_back = "rolled_back"
state_name rollback_failed = "rollback_failed"

pub IntentState-discrete : Discrete IntentState
IntentState-discrete = hlevel

-- `===` on states, by their place in the list.
abbrev pub state_index : IntentState → ℕ
state_index draft = 0
state_index proposed = 1
state_index simulated = 2
state_index pending_approval = 3
state_index approved = 4
state_index rejected = 5
state_index queued = 6
state_index executing = 7
state_index succeeded = 8
state_index failed = 9
state_index rollback_pending = 10
state_index rolled_back = 11
state_index rollback_failed = 12

abbrev pub state_eq : IntentState → IntentState → Bool
state_eq s t = state_index s == state_index t

unfoldable pub state_transitions : IntentState → List IntentState
state_transitions draft = proposed ∷ []
state_transitions proposed = simulated ∷ rejected ∷ []
state_transitions simulated = pending_approval ∷ rejected ∷ []
state_transitions pending_approval = approved ∷ rejected ∷ []
state_transitions approved = queued ∷ rejected ∷ []
state_transitions rejected = []
state_transitions queued = executing ∷ []
state_transitions executing = succeeded ∷ failed ∷ []
state_transitions succeeded = rollback_pending ∷ []
state_transitions failed = rollback_pending ∷ queued ∷ []
state_transitions rollback_pending = rolled_back ∷ rollback_failed ∷ []
state_transitions rolled_back = []
state_transitions rollback_failed = rollback_pending ∷ []

unfoldable pub is_valid_transition : IntentState → IntentState → Bool
unfolding state_transitions
is_valid_transition from target = any (state_eq target) (state_transitions from)

unfoldable pub get_next_states : IntentState → List IntentState
unfolding state_transitions
get_next_states s = state_transitions s

unfoldable pub is_terminal_state : IntentState → Bool
unfolding get_next_states
is_terminal_state s = length (get_next_states s) == 0

unfoldable pub can_rollback : IntentState → Bool
unfolding is_valid_transition
can_rollback s = is_valid_transition s rollback_pending
