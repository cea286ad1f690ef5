-- ===== src/States/Lifecycle.antt =====
-- The transition table of packages/contracts/src/intent-states.ts as a step relation, and the lives
-- of intents along it.
use vowgrid_api.Common.{◌≡◌, ◌↔◌, refl, Bool, true, false, List, [], ◌∷◌, arith, any}
use vowgrid_api.States.{
  IntentState, draft, proposed, simulated, pending_approval, approved, rejected, queued, executing,
  succeeded, failed, rollback_pending, rolled_back, rollback_failed, is_valid_transition,
  is_terminal_state, state_eq,
}

infix 40 ◌⟶◌ ◌⟶*◌
-- The lifecycle of the documentation, edge by edge.
pub data ◌⟶◌ : IntentState → IntentState → Type 0 where
  propose : draft ⟶ proposed
  simulate : proposed ⟶ simulated
  drop_proposed : proposed ⟶ rejected
  request_approval : simulated ⟶ pending_approval
  deny : simulated ⟶ rejected
  approve : pending_approval ⟶ approved
  reject : pending_approval ⟶ rejected
  enqueue : approved ⟶ queued
  withdraw : approved ⟶ rejected
  start : queued ⟶ executing
  succeed : executing ⟶ succeeded
  fail : executing ⟶ failed
  undo : succeeded ⟶ rollback_pending
  undo_failed : failed ⟶ rollback_pending
  requeue : failed ⟶ queued
  undone : rollback_pending ⟶ rolled_back
  undo_broke : rollback_pending ⟶ rollback_failed
  undo_again : rollback_failed ⟶ rollback_pending

-- Any number of steps.
pub data ◌⟶*◌ (s : IntentState) : IntentState → Type 0 where
  here : s ⟶* s
  then : {t u : IntentState} → s ⟶* t → t ⟶ u → s ⟶* u

ruleset edges = (
  propose, simulate, drop_proposed, request_approval, deny, approve, reject, enqueue, withdraw,
  start, succeed, fail, undo, undo_failed, requeue, undone, undo_broke, undo_again,
)

pub ⟶-is_valid_transition : {s t : IntentState} → s ⟶ t → is_valid_transition s t ≡ true
unfolding is_valid_transition
⟶-is_valid_transition propose = refl
⟶-is_valid_transition simulate = refl
⟶-is_valid_transition drop_proposed = refl
⟶-is_valid_transition request_approval = refl
⟶-is_valid_transition deny = refl
⟶-is_valid_transition approve = refl
⟶-is_valid_transition reject = refl
⟶-is_valid_transition enqueue = refl
⟶-is_valid_transition withdraw = refl
⟶-is_valid_transition start = refl
⟶-is_valid_transition succeed = refl
⟶-is_valid_transition fail = refl
⟶-is_valid_transition undo = refl
⟶-is_valid_transition undo_failed = refl
⟶-is_valid_transition requeue = refl
⟶-is_valid_transition undone = refl
⟶-is_valid_transition undo_broke = refl
⟶-is_valid_transition undo_again = refl

pub is_valid_transition-⟶ : (s t : IntentState) → is_valid_transition s t ≡ true → s ⟶ t
unfolding is_valid_transition
is_valid_transition-⟶ s t h = grind (arith, edges)

-- A transition is valid exactly when it is an edge of the diagram.
pub is_valid_transition_iff : (s t : IntentState) → (is_valid_transition s t ≡ true) ↔ (s ⟶ t)
is_valid_transition_iff s t = (is_valid_transition-⟶ s t, ⟶-is_valid_transition)

-- The states that a life has been in, the last first.
abbrev pub visited : {s t : IntentState} → s ⟶* t → List IntentState
visited {s} here = s ∷ []
visited {t} (then p e) = t ∷ visited p

abbrev pub has_been : {s t : IntentState} → IntentState → s ⟶* t → Bool
has_been x p = any (state_eq x) (visited p)

-- The states in which the action of an intent may have run, or will.
abbrev pub is_released : IntentState → Bool
is_released queued = true
is_released executing = true
is_released succeeded = true
is_released failed = true
is_released rollback_pending = true
is_released rolled_back = true
is_released rollback_failed = true
is_released _ = false

-- What must lie behind an intent in each state.
abbrev Behind : {t : IntentState} → draft ⟶* t → IntentState → Type 0
Behind p draft = Unit
Behind p proposed = Unit
Behind p rejected = Unit
Behind p simulated = has_been proposed p ≡ true
Behind p pending_approval = (has_been proposed p ≡ true) × (has_been simulated p ≡ true)
Behind p approved =
    (has_been proposed p ≡ true)
    × (has_been simulated p ≡ true)
    × (has_been pending_approval p ≡ true)
Behind p _ =
    (has_been proposed p ≡ true)
    × (has_been simulated p ≡ true)
    × (has_been pending_approval p ≡ true)
    × (has_been approved p ≡ true)

here_now : {t : IntentState} (p : draft ⟶* t) → has_been t p ≡ true
here_now here = refl
here_now (then {u} p e) = ground arith

Behind-step : {t u : IntentState} (p : draft ⟶* t) (e : t ⟶ u) → Behind p t → Behind (then p e) u
Behind-step p propose h = ground (arith, here_now p)
Behind-step p simulate h = ground (arith, here_now p)
Behind-step p drop_proposed h = ground (arith, here_now p)
Behind-step p request_approval h = ground (arith, here_now p)
Behind-step p deny h = ground (arith, here_now p)
Behind-step p approve h = ground (arith, here_now p)
Behind-step p reject h = ground (arith, here_now p)
Behind-step p enqueue h = ground (arith, here_now p)
Behind-step p withdraw h = ground (arith, here_now p)
Behind-step p start h = ground (arith, here_now p)
Behind-step p succeed h = ground (arith, here_now p)
Behind-step p fail h = ground (arith, here_now p)
Behind-step p undo h = ground (arith, here_now p)
Behind-step p undo_failed h = ground (arith, here_now p)
Behind-step p requeue h = ground (arith, here_now p)
Behind-step p undone h = ground (arith, here_now p)
Behind-step p undo_broke h = ground (arith, here_now p)
Behind-step p undo_again h = ground (arith, here_now p)

behind : {t : IntentState} (p : draft ⟶* t) → Behind p t
behind here = tt
behind (then p e) = Behind-step p e (behind p)

-- Every life that starts as a draft and is now in a state in which its action may have run has
-- been proposed, simulated, pending approval and approved.
pub released_was_approved :
    {t : IntentState} (p : draft ⟶* t)
    → is_released t ≡ true
    → (has_been proposed p ≡ true)
      × (has_been simulated p ≡ true)
      × (has_been pending_approval p ≡ true)
      × (has_been approved p ≡ true)
released_was_approved {t} p h = by_state t p h (behind p)
  where
    by_state :
        (t : IntentState) (p : draft ⟶* t)
        → is_released t ≡ true
        → Behind p t
        → (has_been proposed p ≡ true)
          × (has_been simulated p ≡ true)
          × (has_been pending_approval p ≡ true)
          × (has_been approved p ≡ true)
    by_state draft p h b = cc
    by_state queued p h b = b
    by_state executing p h b = b
    by_state succeeded p h b = b
    by_state failed p h b = b
    by_state rollback_pending p h b = b
    by_state rolled_back p h b = b
    by_state rollback_failed p h b = b
    by_state _ p h b = cc

released_step : {t u : IntentState} → t ⟶ u → is_released t ≡ true → is_released u ≡ true
released_step propose h = ground arith
released_step simulate h = ground arith
released_step drop_proposed h = ground arith
released_step request_approval h = ground arith
released_step deny h = ground arith
released_step approve h = ground arith
released_step reject h = ground arith
released_step enqueue h = ground arith
released_step withdraw h = ground arith
released_step start h = ground arith
released_step succeed h = ground arith
released_step fail h = ground arith
released_step undo h = ground arith
released_step undo_failed h = ground arith
released_step requeue h = ground arith
released_step undone h = ground arith
released_step undo_broke h = ground arith
released_step undo_again h = ground arith

-- From a released state an intent reaches released states only: it is never rejected, and never
-- goes back to a state before its approval.
pub released_forever : {s t : IntentState} → is_released s ≡ true → s ⟶* t → is_released t ≡ true
released_forever h here = h
released_forever h (then p e) = released_step e (released_forever h p)

not_from_rejected : {t : IntentState} → ¬ (rejected ⟶ t)
not_from_rejected e = elim e [ ]

not_from_rolled_back : {t : IntentState} → ¬ (rolled_back ⟶ t)
not_from_rolled_back e = elim e [ ]

-- A state is terminal exactly when no step leaves it.
pub is_terminal_state_iff :
    (s : IntentState) → (is_terminal_state s ≡ true) ↔ ((t : IntentState) → ¬ (s ⟶ t))
unfolding is_terminal_state
is_terminal_state_iff draft = (λ h. cc, λ n. absurd (n proposed propose))
is_terminal_state_iff proposed = (λ h. cc, λ n. absurd (n rejected drop_proposed))
is_terminal_state_iff simulated = (λ h. cc, λ n. absurd (n rejected deny))
is_terminal_state_iff pending_approval = (λ h. cc, λ n. absurd (n rejected reject))
is_terminal_state_iff approved = (λ h. cc, λ n. absurd (n queued enqueue))
is_terminal_state_iff rejected = (λ _ t e. not_from_rejected e, λ _. refl)
is_terminal_state_iff queued = (λ h. cc, λ n. absurd (n executing start))
is_terminal_state_iff executing = (λ h. cc, λ n. absurd (n failed fail))
is_terminal_state_iff succeeded = (λ h. cc, λ n. absurd (n rollback_pending undo))
is_terminal_state_iff failed = (λ h. cc, λ n. absurd (n queued requeue))
is_terminal_state_iff rollback_pending = (λ h. cc, λ n. absurd (n rolled_back undone))
is_terminal_state_iff rolled_back = (λ _ t e. not_from_rolled_back e, λ _. refl)
is_terminal_state_iff rollback_failed = (λ h. cc, λ n. absurd (n rollback_pending undo_again))
