-- ===== src/Approvals/Stages.antt =====
-- apps/api/src/modules/approvals/model.ts and service.ts: the stage that a decision counts for, and
-- the decisions that are refused.
use vowgrid_api.Common.{
  true, ℕ, zero, suc, ◌≡◌, ◌≤◌, ◌<◌, refl, Bool, false, not, ◌&&◌, Option, none, some, List, [],
  ◌∷◌, ◌⊎◌, inl, inr, ◌==◌, String, ap, arith, length, get_elem?,
}
use vowgrid_api.Env.{Env}
use vowgrid_api.Prisma.{IsLawful}
use vowgrid_api.Rows.{
  Role, Intent, ApprovalStageDefinition, ApprovalRequest, ApprovalDecision, DecisionKind,
}
use vowgrid_api.States.{IntentState}
use vowgrid_api.World.{World, is_err, run_steps}
use vowgrid_api.World.Respects.{Respects, Respects-bind, Respects-if, Respects-pure}
use vowgrid_api.Intents.{intent_is}
use vowgrid_api.Intents.Progress.{Progress, Progress-emit}
use vowgrid_api.Workflow.{update_request-Progress}
use vowgrid_api.Approvals.{request_is}
use vowgrid_api.Approvals.Model.{
  parse_approval_stages, parse_stages, trim_labels, clamp_stage_index, build_fallback_stage,
  is_pending_status,
}
use vowgrid_api.Approvals.Review.{
  is_stage_complete, is_last_stage, settle_approval, process_approval_decision,
}

get_elem?-below :
    {A : Type 0} (xs : List A) (i : ℕ) → i < length xs → (x : A) × (get_elem? xs i ≡ some x)
get_elem?-below [] i h = absurd (omega (arith, h))
get_elem?-below (x ∷ xs) zero h = (x, refl)
get_elem?-below (x ∷ xs) (suc i) h = get_elem?-below xs i (omega arith)

trim_labels-length :
    (env : Env) (ss : List ApprovalStageDefinition) → length (trim_labels env ss) ≡ length ss
unfolding trim_labels
trim_labels-length env [] = refl
trim_labels-length env (s ∷ ss) = ap suc (trim_labels-length env ss)

parse_approval_stages-nonempty :
    (env : Env) (raw : Option (List ApprovalStageDefinition)) (n : ℕ)
    → 1 ≤ length (parse_approval_stages env raw n)
unfolding parse_approval_stages
parse_approval_stages-nonempty env none n = omega arith
parse_approval_stages-nonempty env (some raw) n = by_stages (parse_stages env raw)
  where
    by_stages :
        (ss : List ApprovalStageDefinition)
        → 1
          ≤ length
              (elim ss [ [] ↦ build_fallback_stage n ∷ [] | s ∷ rest ↦ trim_labels env (s ∷ rest) ])
    by_stages [] = omega arith
    by_stages (s ∷ rest) = omega (arith, trim_labels-length env (s ∷ rest))

clamp-below :
    (index : Option ℕ) (ss : List ApprovalStageDefinition)
    → 1 ≤ length ss
    → clamp_stage_index index ss < length ss
unfolding clamp_stage_index
clamp-below none ss h = omega arith
clamp-below (some i) ss h = omega arith

-- Whatever the columns of a request hold, the stage at the clamped index of its parsed stages
-- exists: the handler of a decision never reads a property of `undefined`.
pub active_stage_exists :
    (env : Env) (r : ApprovalRequest)
    → let stages = parse_approval_stages env r.stage_definitions r.required_count in
      (s : ApprovalStageDefinition) × (get_elem? stages
          (clamp_stage_index r.current_stage_index stages)
        ≡ some s)
active_stage_exists env r =
    let stages = parse_approval_stages env r.stage_definitions r.required_count in
    get_elem?-below stages _ (
      clamp-below r.current_stage_index stages
        (parse_approval_stages-nonempty env r.stage_definitions r.required_count))

abbrev pub nowhere : IntentState → Bool
nowhere _ = false

-- An approval that does not complete the last stage moves no intent at all.
pub settle_approval-early :
    (env : Env) (L : IsLawful env.db) (r : ApprovalRequest) (who ws index : ℕ)
    (stage : ApprovalStageDefinition) (stages : List ApprovalStageDefinition)
    (ds : List ApprovalDecision)
    → (is_stage_complete index stage ds && is_last_stage index stages) ≡ false
    → Respects (Progress env nowhere) (settle_approval env r who ws index stage stages ds)
unfolding settle_approval
settle_approval-early env L r who ws index stage stages ds early =
    Respects-bind (update_request-Progress env L r _) (λ _.
      Respects-bind
        (Respects-if (is_stage_complete index stage ds && not (is_last_stage index stages))
          (Progress-emit env nowhere _) (Respects-pure _))
        (λ _. Respects-bind (rw early (Respects-pure _)) (λ _. Respects-pure _)))

module _ (env : Env) where
  -- A decision on a request that is no longer pending, or by a reviewer whose decision on it is on
  -- record, ends with an error and changes nothing, where the request and its intent exist.
  pub process_approval_decision-refused :
      (id who : ℕ) (d : DecisionKind) (why : Option String) (ws : ℕ) (role : Option Role)
      (w : World env) {r : ApprovalRequest} {i : Intent}
      → env.db.find_first (request_is id) w.approval_requests ≡ some r
      → env.db.find_first (intent_is r.intent_id) w.intents ≡ some i
      → (is_pending_status r.status ≡ false)
        ⊎ ((e : ApprovalDecision) × (env.db.find_first
                (λ (x : ApprovalDecision). x.approval_request_id == id && x.user_id == who)
                w.approval_decisions
              ≡ some e))
      → let out = process_approval_decision env id who d why ws role w in
        (is_err out.0 ≡ true) × (out.1 ≡ w)
  unfolding process_approval_decision run_steps
  process_approval_decision-refused id who d why ws role w h hi (inl p) = ground arith
  process_approval_decision-refused id who d why ws role w h hi (inr (e, p)) = ground arith
