-- ===== src/Types.antt =====
-- src/types.ts: the vocabulary of jobs, results and execution attempts.
use livis_chatgpt_bridge.Prelude.{ℕ, Bool, true, false, Option, String, ◌==◌}

pub data ExecutionBackendKind : Type 0 where
  hermes codex claude : ExecutionBackendKind

pub data JobStatus : Type 0 where
  received acked dispatching running cancelling succeeded cancelled cancel_unknown : JobStatus
  interrupted failed rejected : JobStatus

pub data OutboxStatus : Type 0 where
  pending delivering delivered ack_failed : OutboxStatus

pub data ExecutionAttemptEventType : Type 0 where
  reserved accepted not_sent cancelled_not_sent succeeded failed cancel_unknown :
      ExecutionAttemptEventType
  interrupted legacy_active_imported : ExecutionAttemptEventType

pub data BackendCheckpointTurnStatus : Type 0 where
  completed failed interrupted : BackendCheckpointTurnStatus

pub data BackendAccountIdentityStrength : Type 0 where
  subject type_only : BackendAccountIdentityStrength

pub data BackendSessionStateOwnership : Type 0 where
  account_bound local_state_opaque : BackendSessionStateOwnership

pub record IncomingRelayJob : Type 0 where
  pub job_id : String
  pub message_id : String
  pub from_node_id : String
  pub from_node_type : Option String
  pub text : String
  pub timestamp : ℕ
  pub raw_payload : String

pub record StoredOutbox : Type 0 where
  pub job_id : String
  pub status : OutboxStatus
  pub result_json : String
  pub retry_count : ℕ
  pub last_message_id : Option String
  pub next_attempt_at : Option ℕ
  pub created_at : ℕ
  pub updated_at : ℕ
  pub delivered_at : Option ℕ
  pub acked_at : Option ℕ

pub record StoredJob : Type 0 where
  pub input : IncomingRelayJob
  pub open input use *
  pub scope_key : String
  pub payload_hash : String
  pub target_backend : ExecutionBackendKind
  pub status : JobStatus
  pub session_key : String
  pub connector_id : Option String
  pub lease_id : Option String
  pub run_generation : ℕ
  pub error : Option String
  pub cancel_requested : Bool
  pub created_at : ℕ
  pub updated_at : ℕ
  pub completed_at : Option ℕ
  pub outbox : Option StoredOutbox

pub record StoredExecutionAttemptEvent : Type 0 where
  pub scope_key : String
  pub job_id : String
  pub run_generation : ℕ
  pub sequence : ℕ
  pub backend : ExecutionBackendKind
  pub session_key : String
  pub lease_id : String
  pub backend_execution_id : String
  pub provider_session_id : Option String
  pub provider_operation_id : Option String
  pub runtime_version : Option String
  pub requested_model : Option String
  pub effective_model : Option String
  pub model_provider : Option String
  pub state_ownership : Option BackendSessionStateOwnership
  pub account_type : Option String
  pub account_subject_sha256 : Option String
  pub security_config_sha256 : Option String
  pub feature_snapshot_sha256 : Option String
  pub event_type : ExecutionAttemptEventType
  pub reason : Option String
  pub created_at : ℕ

pub record StoredBackendSession : Type 0 where
  pub scope_key : String
  pub backend : String
  pub session_key : String
  pub session_hash : String
  pub thread_id : Option String
  pub cwd : String
  pub cli_version : String
  pub state_ownership : Option BackendSessionStateOwnership
  pub account_type : Option String
  pub account_subject_sha256 : Option String
  pub account_identity_strength : Option BackendAccountIdentityStrength
  pub requested_model : Option String
  pub effective_model : Option String
  pub model_provider : Option String
  pub security_config_sha256 : Option String
  pub feature_snapshot_sha256 : Option String
  pub checkpoint_turn_id : Option String
  pub checkpoint_turn_status : Option BackendCheckpointTurnStatus
  pub checkpoint_turn_count : Option ℕ
  pub checkpoint_turns_sha256 : Option String
  pub checkpointed_at : Option ℕ
  pub active_job_id : Option String
  pub active_lease_id : Option String
  pub active_run_generation : Option ℕ
  pub active_turn_id : Option String
  pub recovery_required : Bool
  pub created_at : ℕ
  pub updated_at : ℕ

-- The tests that the statements of the store make on a status.
abbrev pub is_waiting : JobStatus → Bool
is_waiting received = true
is_waiting acked = true
is_waiting _ = false

abbrev pub is_executing : JobStatus → Bool
is_executing dispatching = true
is_executing running = true
is_executing _ = false

abbrev pub is_dispatching : JobStatus → Bool
is_dispatching dispatching = true
is_dispatching _ = false

abbrev pub is_running : JobStatus → Bool
is_running running = true
is_running _ = false

abbrev pub is_cancelling : JobStatus → Bool
is_cancelling cancelling = true
is_cancelling _ = false

abbrev pub is_received : JobStatus → Bool
is_received received = true
is_received _ = false

abbrev pub is_acked : JobStatus → Bool
is_acked acked = true
is_acked _ = false

-- status IN ('Dispatching','Running','Cancelling')
abbrev pub is_active : JobStatus → Bool
is_active dispatching = true
is_active running = true
is_active cancelling = true
is_active _ = false

-- status IN ('Succeeded','Cancelled','CancelUnknown','Interrupted','Failed','Rejected')
abbrev pub is_terminal : JobStatus → Bool
is_terminal JobStatus.succeeded = true
is_terminal cancelled = true
is_terminal JobStatus.cancel_unknown = true
is_terminal JobStatus.interrupted = true
is_terminal JobStatus.failed = true
is_terminal rejected = true
is_terminal _ = false

-- status IN ('Received','Acked','Dispatching','Running')
abbrev pub is_cancellable : JobStatus → Bool
is_cancellable received = true
is_cancellable acked = true
is_cancellable dispatching = true
is_cancellable running = true
is_cancellable _ = false

abbrev pub is_hermes : ExecutionBackendKind → Bool
is_hermes hermes = true
is_hermes _ = false

abbrev pub backend_name : ExecutionBackendKind → String
backend_name hermes = "hermes"
backend_name codex = "codex"
backend_name claude = "claude"

abbrev pub is_pending : OutboxStatus → Bool
is_pending pending = true
is_pending _ = false

abbrev pub is_delivering : OutboxStatus → Bool
is_delivering delivering = true
is_delivering _ = false

abbrev pub is_ack_failed : OutboxStatus → Bool
is_ack_failed ack_failed = true
is_ack_failed _ = false

abbrev status_rank : JobStatus → ℕ
status_rank received = 0
status_rank acked = 1
status_rank dispatching = 2
status_rank running = 3
status_rank cancelling = 4
status_rank succeeded = 5
status_rank cancelled = 6
status_rank JobStatus.cancel_unknown = 7
status_rank JobStatus.interrupted = 8
status_rank JobStatus.failed = 9
status_rank rejected = 10

abbrev pub status_eq : JobStatus → JobStatus → Bool
status_eq a b = status_rank a == status_rank b
