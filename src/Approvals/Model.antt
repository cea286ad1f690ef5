-- ===== src/Approvals/Model.antt =====
-- apps/api/src/modules/approvals/model.ts and the stage schema of packages/contracts/src/schemas.ts:
-- the stages of an approval request, and the status that each shows.
use Prim.Native.Nat.{min}
use vowgrid_api.Common.{
  ℕ, suc, ◌-◌, String, Bool, true, false, not, ◌&&◌, ◌||◌, Option, none, some, List, [], ◌∷◌, leb,
  ltb, ◌==◌, if◌then◌else◌, or_default, length, filter, any,
}
use vowgrid_api.Env.{Env}
use vowgrid_api.Rows.{
  Role, owner, admin, member, viewer, other, ApprovalStageDefinition, ApprovalStatus,
  pending_request, approved_request, rejected_request, ApprovalFlowMode, single_step, multi_step,
  ApprovalRequest, approved_decision, rejected_decision, ApprovalDecision,
}

abbrev pub default_reviewer_roles : List Role
default_reviewer_roles = owner ∷ admin ∷ member ∷ viewer ∷ []

unfoldable pub build_fallback_stage : ℕ → ApprovalStageDefinition
build_fallback_stage required_count = record {
  label = "Final approval";
  required_count = required_count;
  reviewer_roles = default_reviewer_roles;
}

pub record SubmitForApprovalInput : Type 0 where
  pub required_count : Option ℕ
  pub stages : Option (List ApprovalStageDefinition)

abbrev pub trim_label : Env → ApprovalStageDefinition → ApprovalStageDefinition
trim_label env s = record s { label = env.trim s.label }

unfoldable pub trim_labels : Env → List ApprovalStageDefinition → List ApprovalStageDefinition
trim_labels env [] = []
trim_labels env (s ∷ ss) = trim_label env s ∷ trim_labels env ss

unfoldable pub normalize_approval_stages :
    Env → SubmitForApprovalInput → List ApprovalStageDefinition
unfolding build_fallback_stage trim_labels
normalize_approval_stages env input = elim input.stages [
  | some (s ∷ ss) ↦ trim_labels env (s ∷ ss)
  | _ ↦ build_fallback_stage (or_default input.required_count 1) ∷ []
]

abbrev is_known_role : Role → Bool
is_known_role other = false
is_known_role _ = true

abbrev all_known : List Role → Bool
all_known rs = not (any (λ r. not (is_known_role r)) rs)

-- `approvalStageSchema.safeParse`, of an entry that has the three members.
unfoldable pub parse_stage : Env → ApprovalStageDefinition → Option ApprovalStageDefinition
parse_stage env s =
    let label = env.trim s.label in
    let size = env.text_length label in
    if leb 1 size
      && leb size 80
      && (leb 1 s.required_count && leb s.required_count 5)
      && (leb 1 (length s.reviewer_roles) && leb (length s.reviewer_roles) 4)
      && all_known s.reviewer_roles
    then some (record s { label = label })
    else none

unfoldable pub parse_stages : Env → List ApprovalStageDefinition → List ApprovalStageDefinition
unfolding parse_stage
parse_stages env [] = []
parse_stages env (s ∷ ss) =
    let rest = parse_stages env ss in elim (parse_stage env s) [ none ↦ rest | some p ↦ p ∷ rest ]

unfoldable pub parse_approval_stages :
    Env → Option (List ApprovalStageDefinition) → ℕ → List ApprovalStageDefinition
unfolding build_fallback_stage parse_stages trim_labels
parse_approval_stages env none fallback = build_fallback_stage fallback ∷ []
parse_approval_stages env (some raw) fallback = elim (parse_stages env raw) [
  | [] ↦ build_fallback_stage fallback ∷ []
  | s ∷ ss ↦ trim_labels env (s ∷ ss)
]

abbrev pub is_approved_decision : ApprovalDecision → Bool
is_approved_decision d = elim d.decision [ approved_decision ↦ true | rejected_decision ↦ false ]

-- `(decision.stageIndex ?? 0) === index`
abbrev pub at_stage : ℕ → ApprovalDecision → Bool
at_stage index d = or_default d.stage_index 0 == index

unfoldable pub stage_approvals : ℕ → List ApprovalDecision → ℕ
stage_approvals index ds = length (filter (λ d. is_approved_decision d && at_stage index d) ds)

unfoldable pub stage_rejected : ℕ → List ApprovalDecision → Bool
stage_rejected index ds = any (λ d. not (is_approved_decision d) && at_stage index d) ds

pub data ApprovalStageStatus : Type 0 where
  pending_stage active_stage approved_stage rejected_stage : ApprovalStageStatus

abbrev pub is_pending_status : ApprovalStatus → Bool
is_pending_status pending_request = true
is_pending_status _ = false

abbrev pub is_approved_status : ApprovalStatus → Bool
is_approved_status approved_request = true
is_approved_status _ = false

abbrev pub is_rejected_status : ApprovalStatus → Bool
is_rejected_status rejected_request = true
is_rejected_status _ = false

unfoldable pub get_stage_status :
    ApprovalStatus → ℕ → ℕ → ApprovalStageDefinition → List ApprovalDecision → ApprovalStageStatus
unfolding stage_approvals stage_rejected
get_stage_status status current index stage ds =
    if stage_rejected index ds || (is_rejected_status status && index == current)
    then rejected_stage
    else if leb stage.required_count (stage_approvals index ds)
    then approved_stage
    else if is_approved_status status && index == current
    then approved_stage
    else if index == current
    then active_stage
    else if ltb index current
    then approved_stage
    else pending_stage

-- `Math.min(Math.max(index ?? 0, 0), Math.max(stages.length - 1, 0))`
unfoldable pub clamp_stage_index : Option ℕ → List ApprovalStageDefinition → ℕ
clamp_stage_index index stages = min (or_default index 0) (length stages - 1)

pub record ApprovalStageResponse : Type 0 where
  pub index : ℕ
  pub label : String
  pub required_count : ℕ
  pub current_count : ℕ
  pub reviewer_roles : List Role
  pub status : ApprovalStageStatus

pub record ApprovalRequestResponse : Type 0 where
  pub id : ℕ
  pub intent_id : ℕ
  pub status : ApprovalStatus
  pub mode : ApprovalFlowMode
  pub required_count : ℕ
  pub current_count : ℕ
  pub current_stage_index : ℕ
  pub stages : List ApprovalStageResponse
  pub decisions : Option (List ApprovalDecision)

-- `stages.map((stage, index) => …)`, from an index on.
unfoldable pub stage_responses :
    ApprovalStatus
    → ℕ
    → List ApprovalDecision
    → ℕ
    → List ApprovalStageDefinition
    → List ApprovalStageResponse
unfolding get_stage_status stage_approvals
stage_responses status current ds index [] = []
stage_responses status current ds index (s ∷ ss) =
    record {
      index = index;
      label = s.label;
      required_count = s.required_count;
      current_count = stage_approvals index ds;
      reviewer_roles = s.reviewer_roles;
      status = get_stage_status status current index s ds;
    }
    ∷ stage_responses status current ds (suc index) ss

abbrev pub mode_of : List ApprovalStageDefinition → ApprovalFlowMode
mode_of stages = if ltb 1 (length stages) then multi_step else single_step

unfoldable pub serialize_approval_request :
    Env → ApprovalRequest → Option (List ApprovalDecision) → ApprovalRequestResponse
unfolding parse_approval_stages clamp_stage_index stage_responses
serialize_approval_request env request decisions =
    let stages = parse_approval_stages env request.stage_definitions request.required_count in
    let current = clamp_stage_index request.current_stage_index stages in
    record {
      id = request.id;
      intent_id = request.intent_id;
      status = request.status;
      mode = or_default request.mode (mode_of stages);
      required_count = request.required_count;
      current_count = request.current_count;
      current_stage_index = current;
      stages = stage_responses request.status current (or_default decisions []) 0 stages;
      decisions = decisions;
    }
