-- ===== src/Intents/Walks.antt =====
-- Walks along the state machine of packages/contracts/src/intent-states.ts, and those of intents that
-- nobody has approved.
use vowgrid_api.Common.{◌≡◌, Bool, true, false, not, ◌&&◌, arith}
use vowgrid_api.States.{IntentState, approved, state_eq}
use vowgrid_api.States.Lifecycle.{
  ◌⟶◌, ◌⟶*◌, here, then, is_released, propose, simulate, drop_proposed, request_approval, deny,
  approve, reject, enqueue, withdraw, start, succeed, fail, undo, undo_failed, requeue, undone,
  undo_broke, undo_again,
}
use vowgrid_api.Intents.Progress.{Walk, stay, step}

pub Walk-weaken :
    (p q : IntentState → Bool) {s t : IntentState}
    → ((u : IntentState) → p u ≡ true → q u ≡ true)
    → Walk p s t
    → Walk q s t
Walk-weaken p q weaker stay = stay
Walk-weaken p q weaker (step {u = u} x e a) = step (Walk-weaken p q weaker x) e (weaker u a)

abbrev pub anywhere : IntentState → Bool
anywhere _ = true

abbrev pub unapproved : IntentState → Bool
unapproved approved = false
unapproved _ = true

pub Walk-life : {p : IntentState → Bool} {s t : IntentState} → Walk p s t → s ⟶* t
Walk-life stay = here
Walk-life (step x e a) = then (Walk-life x) e

-- The states of an intent that nobody has approved.
abbrev pub is_gated : IntentState → Bool
is_gated s = not (state_eq s approved) && not (is_released s)

gated_step :
    {t u : IntentState} → t ⟶ u → unapproved u ≡ true → is_gated t ≡ true → is_gated u ≡ true
gated_step propose a h = ground arith
gated_step simulate a h = ground arith
gated_step drop_proposed a h = ground arith
gated_step request_approval a h = ground arith
gated_step deny a h = ground arith
gated_step approve a h = ground arith
gated_step reject a h = ground arith
gated_step enqueue a h = ground arith
gated_step withdraw a h = ground arith
gated_step start a h = ground arith
gated_step succeed a h = ground arith
gated_step fail a h = ground arith
gated_step undo a h = ground arith
gated_step undo_failed a h = ground arith
gated_step requeue a h = ground arith
gated_step undone a h = ground arith
gated_step undo_broke a h = ground arith
gated_step undo_again a h = ground arith

pub gated-Walk : {s t : IntentState} → Walk unapproved s t → is_gated s ≡ true → is_gated t ≡ true
gated-Walk stay h = h
gated-Walk (step x e a) h = gated_step e a (gated-Walk x h)
