-- ===== src/Store/Schema.antt =====
-- The rows of the database that src/state/store.ts creates (schema version 8), and what it takes
-- from the JavaScript runtime. CHECK constraints and triggers that restrict a column to an
-- enumeration are the column's type here.
use livis_chatgpt_bridge.Prelude.{ℕ, Bool, ◌&&◌, Option, none, some, List, String, str_eq}
use livis_chatgpt_bridge.Types.{
  ExecutionBackendKind, JobStatus, OutboxStatus, IncomingRelayJob, StoredOutbox, StoredJob,
  StoredExecutionAttemptEvent, StoredBackendSession,
}

pub record JobRow : Type 0 where
  pub scope_key : String
  pub job_id : String
  pub msg_id : String
  pub payload_hash : String
  pub target_backend : ExecutionBackendKind
  pub from_node_id : String
  pub from_node_type : Option String
  pub input_text : String
  pub raw_payload : String
  pub status : JobStatus
  pub session_key : String
  pub connector_id : Option String
  pub lease_id : Option String
  pub run_generation : ℕ
  pub error : Option String
  pub cancel_requested : Bool
  pub input_timestamp : ℕ
  pub created_at : ℕ
  pub updated_at : ℕ
  pub completed_at : Option ℕ

pub record OutboxRow : Type 0 where
  pub scope_key : String
  pub job_id : String
  pub status : OutboxStatus
  pub result_json : String
  pub retry_count : ℕ
  pub last_message_id : Option String
  pub next_attempt_at : Option ℕ
  pub created_at : ℕ
  pub updated_at : ℕ
  pub delivered_at : Option ℕ
  pub acked_at : Option ℕ

pub record DeliveryAttemptRow : Type 0 where
  pub scope_key : String
  pub message_id : String
  pub job_id : String
  pub created_at : ℕ

pub record QuarantineRow : Type 0 where
  pub scope_key : String
  pub session_key : String
  pub reason : String
  pub created_at : ℕ

pub record PendingCancelRow : Type 0 where
  pub scope_key : String
  pub job_id : String
  pub created_at : ℕ

pub record Database : Type 0 where
  pub jobs : List JobRow
  pub outbox : List OutboxRow
  pub outbox_delivery_attempts : List DeliveryAttemptRow
  pub session_quarantine : List QuarantineRow
  pub pending_cancels : List PendingCancelRow
  pub backend_sessions : List StoredBackendSession
  pub execution_attempt_events : List StoredExecutionAttemptEvent

-- What `businessPayloadHash` serialises.
pub record BusinessPayload : Type 0 where
  pub from_node_id : String
  pub from_node_type : Option String
  pub text : String

-- The runtime's functions: node:crypto, JSON.stringify and the texts of JavaScript, with
-- `!text.trim()`.
pub record Runtime : Type 0 where
  pub sha256 : String → String
  pub stringify : BusinessPayload → String
  pub string_length : String → ℕ
  pub number_to_string : ℕ → String
  pub trims_to_nothing : String → Bool

-- WHERE scope_key=? AND job_id=?, for each table with these columns.
abbrev pub is_key : String → String → String → String → Bool
is_key scope id row_scope row_id = str_eq row_scope scope && str_eq row_id id

abbrev pub is_job : String → String → JobRow → Bool
is_job scope id r = is_key scope id r.scope_key r.job_id

abbrev pub is_outbox : String → String → OutboxRow → Bool
is_outbox scope id r = is_key scope id r.scope_key r.job_id

abbrev pub is_attempt_of : String → String → DeliveryAttemptRow → Bool
is_attempt_of scope id r = is_key scope id r.scope_key r.job_id

abbrev pub is_session : String → String → QuarantineRow → Bool
is_session scope id r = is_key scope id r.scope_key r.session_key

abbrev pub is_intent : String → String → PendingCancelRow → Bool
is_intent scope id r = is_key scope id r.scope_key r.job_id

abbrev pub outbox_view : Option OutboxRow → Option StoredOutbox
outbox_view none = none
outbox_view (some o) = some (record {
  job_id = o.job_id;
  status = o.status;
  result_json = o.result_json;
  retry_count = o.retry_count;
  last_message_id = o.last_message_id;
  next_attempt_at = o.next_attempt_at;
  created_at = o.created_at;
  updated_at = o.updated_at;
  delivered_at = o.delivered_at;
  acked_at = o.acked_at;
})

-- The columns of the LEFT JOIN are those of the outbox row, where there is one.
abbrev pub row_to_job : JobRow → Option OutboxRow → StoredJob
row_to_job row outbox = record {
  input = record {
    job_id = row.job_id;
    message_id = row.msg_id;
    from_node_id = row.from_node_id;
    from_node_type = row.from_node_type;
    text = row.input_text;
    timestamp = row.input_timestamp;
    raw_payload = row.raw_payload;
  };
  scope_key = row.scope_key;
  payload_hash = row.payload_hash;
  target_backend = row.target_backend;
  status = row.status;
  session_key = row.session_key;
  connector_id = row.connector_id;
  lease_id = row.lease_id;
  run_generation = row.run_generation;
  error = row.error;
  cancel_requested = row.cancel_requested;
  created_at = row.created_at;
  updated_at = row.updated_at;
  completed_at = row.completed_at;
  outbox = outbox_view outbox;
}

unfoldable pub business_payload_hash : Runtime → IncomingRelayJob → String
business_payload_hash js input = js.sha256 (
    js.stringify (record {
      from_node_id = input.from_node_id;
      from_node_type = input.from_node_type;
      text = input.text;
    }))
