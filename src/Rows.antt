-- ===== src/Rows.antt =====
-- The rows of the database tables that the workflow reads and writes
-- (apps/api/prisma/schema.prisma, and the types in apps/api/src/modules). An id is a text that is
-- only compared, so it is a number here; timestamps that nothing reads back are left out.
use vowgrid_api.Common.{true, false, none, some, ℕ, String, Bool, Option, List}
use vowgrid_api.Json.{Json}
use vowgrid_api.Env.{Level, Reversibility, RollbackSupport}
use vowgrid_api.Policies.{PolicyResult}
use vowgrid_api.States.{IntentState}

pub record Intent : Type 0 where
  pub id : ℕ
  pub title : String
  pub action : String
  pub connector_id : Option ℕ
  pub agent_id : ℕ
  pub workspace_id : ℕ
  pub status : IntentState
  pub parameters : Option Json
  pub environment : String
  pub idempotency_key : Option String

pub record Connector : Type 0 where
  pub id : ℕ
  pub name : String
  pub connector_type : String
  pub rollback_support : RollbackSupport
  pub config : Option Json
  pub workspace_id : ℕ
  pub enabled : Bool

pub record SimulationResult : Type 0 where
  pub intent_id : ℕ
  pub summary : String
  pub estimated_impact : Level
  pub risk_level : Level
  pub reversibility : Reversibility
  pub affected_resources : Json
  pub diff_preview : Option Json
  pub warnings : List String

pub record PolicyDecision : Type 0 where
  pub policy_id : ℕ
  pub intent_id : ℕ
  pub result : PolicyResult
  pub reason : String

-- `other` is a role that is none of the four.
pub data Role : Type 0 where
  owner admin member viewer other : Role

pub record ApprovalStageDefinition : Type 0 where
  pub label : String
  pub required_count : ℕ
  pub reviewer_roles : List Role

pub data ApprovalStatus : Type 0 where
  pending_request approved_request rejected_request : ApprovalStatus

pub data ApprovalFlowMode : Type 0 where
  single_step multi_step : ApprovalFlowMode

-- `stage_definitions` is `none` where the column holds no array.
pub record ApprovalRequest : Type 0 where
  pub id : ℕ
  pub intent_id : ℕ
  pub status : ApprovalStatus
  pub required_count : ℕ
  pub current_count : ℕ
  pub current_stage_index : Option ℕ
  pub mode : Option ApprovalFlowMode
  pub stage_definitions : Option (List ApprovalStageDefinition)

pub data DecisionKind : Type 0 where
  approved_decision rejected_decision : DecisionKind

pub record ApprovalDecision : Type 0 where
  pub id : ℕ
  pub approval_request_id : ℕ
  pub user_id : ℕ
  pub decision : DecisionKind
  pub rationale : Option String
  pub stage_index : Option ℕ
  pub stage_label : Option String

pub record WorkspaceMembership : Type 0 where
  pub user_id : ℕ
  pub workspace_id : ℕ
  pub role : Role
  pub disabled_at : Option ℕ

pub record User : Type 0 where
  pub id : ℕ
  pub email : String
  pub name : String
  pub password_hash : Option String
  pub email_verified_at : Option ℕ
  pub last_login_at : Option ℕ
  pub workspace_id : ℕ
  pub role : Role
  pub disabled_at : Option ℕ

abbrev pub is_disabled : WorkspaceMembership → Bool
is_disabled m = elim m.disabled_at [ none ↦ false | some t ↦ true ]

abbrev pub is_disabled_user : User → Bool
is_disabled_user u = elim u.disabled_at [ none ↦ false | some t ↦ true ]

pub data JobStatus : Type 0 where
  queued_job processing_job completed_job failed_job : JobStatus

pub record ExecutionJob : Type 0 where
  pub id : ℕ
  pub intent_id : ℕ
  pub status : JobStatus
  pub attempts : ℕ
  pub idempotency_key : Option String
  pub result : Option Json
  pub error : Option String

pub data RollbackStatus : Type 0 where
  pending_rollback in_progress_rollback completed_rollback failed_rollback : RollbackStatus

pub record RollbackAttempt : Type 0 where
  pub id : ℕ
  pub intent_id : ℕ
  pub reason : Option String
  pub status : RollbackStatus
  pub result : Option Json

pub data ReceiptType : Type 0 where
  execution_receipt rollback_receipt : ReceiptType

pub record Receipt : Type 0 where
  pub intent_id : ℕ
  pub receipt_type : ReceiptType
  pub summary : String
  pub payload : Json

pub data ActorType : Type 0 where
  user agent system : ActorType

pub record AuditEvent : Type 0 where
  pub id : ℕ
  pub action : String
  pub entity_type : String
  pub entity_id : ℕ
  pub actor_type : ActorType
  pub actor_id : String
  pub workspace_id : ℕ
  pub metadata : Option Json
  pub created_at : ℕ
  pub previous_hash : Option String
  pub integrity_hash : String

-- A job of one of the two BullMQ queues; `row_id` is its id, that of its row.
pub record QueuedJob : Type 0 where
  pub row_id : ℕ
  pub intent_id : ℕ
  pub workspace_id : ℕ
  pub attempts : ℕ

-- A call that reached a connector's remote system.
pub data Effect : Type 0 where
  executed rolled_back_effect : ℕ → Effect
