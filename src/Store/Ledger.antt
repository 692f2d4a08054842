-- ===== src/Store/Ledger.antt =====
-- src/state/store.ts: `appendExecutionAttemptEventLocked` and the constraints of the table
-- `execution_attempt_events`.
pub mod Appends
use Prim.Native.Char.{code}
use Prim.Native.String.{◌++◌ as append, count}
use livis_chatgpt_bridge.Prelude.{
  ℕ, suc, max, Bool, true, false, not, ◌&&◌, ◌||◌, Option, none, some, List, [], ◌∷◌, ◌++◌, String,
  str_eq, ltb, leb, ◌==◌, if◌then◌else◌,
}
use livis_chatgpt_bridge.Types.{
  ExecutionAttemptEventType, reserved, accepted, not_sent, cancelled_not_sent,
  legacy_active_imported, StoredExecutionAttemptEvent, StoredBackendSession,
  BackendSessionStateOwnership, account_bound, local_state_opaque, is_hermes, backend_name,
}
use livis_chatgpt_bridge.Store.Schema.{Database, JobRow, Runtime, is_key, is_job}
use livis_chatgpt_bridge.Store.Table.{select, exists}
use livis_chatgpt_bridge.Store.Monad.{
  Result, ok, err, M, ◌>>=◌, throw, query, insert_unless, attempt_context_missing,
  attempt_metadata_missing, constraint_failed,
}

abbrev pub execution_attempt_reason_max_chars : ℕ
execution_attempt_reason_max_chars = 4096

unfoldable pub bounded_attempt_reason : Runtime → Option String → Option String
bounded_attempt_reason js none = none
bounded_attempt_reason js (some reason) =
    if leb (js.string_length reason) execution_attempt_reason_max_chars
    then some reason
    else some (
        append
          (append
            (append (append "[TRUNCATED chars=" (js.number_to_string (js.string_length reason)))
              " sha256=")
            (js.sha256 reason))
          "]")

abbrev event_rank : ExecutionAttemptEventType → ℕ
event_rank reserved = 0
event_rank accepted = 1
event_rank not_sent = 2
event_rank cancelled_not_sent = 3
event_rank ExecutionAttemptEventType.succeeded = 4
event_rank ExecutionAttemptEventType.failed = 5
event_rank ExecutionAttemptEventType.cancel_unknown = 6
event_rank ExecutionAttemptEventType.interrupted = 7
event_rank legacy_active_imported = 8

abbrev pub event_eq : ExecutionAttemptEventType → ExecutionAttemptEventType → Bool
event_eq a b = event_rank a == event_rank b

-- WHERE scope_key=? AND job_id=? AND run_generation=?
abbrev pub is_attempt : String → String → ℕ → StoredExecutionAttemptEvent → Bool
is_attempt scope id generation e =
    is_key scope id e.scope_key e.job_id && e.run_generation == generation

-- MAX(sequence), with 0 for the NULL of no row.
unfoldable pub max_sequence :
    (StoredExecutionAttemptEvent → Bool) → List StoredExecutionAttemptEvent → ℕ
max_sequence p [] = 0
max_sequence p (e ∷ es) = if p e then max e.sequence (max_sequence p es) else max_sequence p es

-- `!value` is false of a text that is there and not empty.
abbrev pub truthy : Option String → Bool
truthy none = false
truthy (some s) = not (str_eq s "")

abbrev pub is_null {ℓ} : {A : Type ℓ} → Option A → Bool
is_null none = true
is_null (some _) = false

abbrev pub or_text : Option String → String
or_text none = ""
or_text (some s) = s

-- length(column) BETWEEN 1 AND n
abbrev pub within : ℕ → String → Bool
within n s = leb 1 (count s) && leb (count s) n

abbrev pub within? : ℕ → Option String → Bool
within? n none = true
within? n (some s) = within n s

unfoldable pub all_hex : String → Bool
all_hex String.[] = true
all_hex (String.◌∷◌ c s) =
    ((leb b'0' (code c) && leb (code c) b'9') || (leb b'a' (code c) && leb (code c) b'f'))
    && all_hex s

unfoldable pub is_sha256? : Option String → Bool
unfolding all_hex
is_sha256? none = true
is_sha256? (some s) = count s == 64 && all_hex s

unfoldable pub reason_fits : Option String → Bool
reason_fits none = true
reason_fits (some s) = leb (count s) execution_attempt_reason_max_chars

-- The CHECK constraints of the table that are not the type of a column.
unfoldable pub satisfies_checks : StoredExecutionAttemptEvent → Bool
unfolding is_sha256? reason_fits
satisfies_checks e =
    ltb 0 e.run_generation
    && ltb 0 e.sequence
    && within 4096 e.session_key
    && within 4096 e.lease_id
    && within 4096 e.backend_execution_id
    && within? 256 e.provider_session_id
    && within? 256 e.provider_operation_id
    && within? 64 e.runtime_version
    && within? 256 e.requested_model
    && within? 256 e.effective_model
    && within? 128 e.model_provider
    && within? 64 e.account_type
    && is_sha256? e.account_subject_sha256
    && is_sha256? e.security_config_sha256
    && is_sha256? e.feature_snapshot_sha256
    && reason_fits e.reason

-- A row with the PRIMARY KEY of `e`, or with its values of the UNIQUE columns.
abbrev pub collides : StoredExecutionAttemptEvent → StoredExecutionAttemptEvent → Bool
collides e r =
    is_attempt e.scope_key e.job_id e.run_generation r
    && (r.sequence == e.sequence || event_eq r.event_type e.event_type)

abbrev pub session_of : JobRow → StoredBackendSession → Bool
session_of j s =
    str_eq s.scope_key j.scope_key
    && str_eq s.backend (backend_name j.target_backend)
    && str_eq s.session_key j.session_key

-- The column of the LEFT JOIN is NULL where no session row matches.
abbrev pub column {ℓ} :
    {A : Type ℓ} → (StoredBackendSession → Option A) → Option StoredBackendSession → Option A
column f none = none
column f (some s) = f s

abbrev pub ownership_ok : Option BackendSessionStateOwnership → Option String → Option String → Bool
ownership_ok none account_type subject = false
ownership_ok (some account_bound) account_type subject = truthy account_type
ownership_ok (some local_state_opaque) account_type subject =
    is_null account_type && is_null subject

-- The immutable session metadata that an attempt of a backend other than Hermes needs.
unfoldable pub metadata_complete : Option StoredBackendSession → Bool
metadata_complete s =
    truthy (column (λ r. r.thread_id) s)
    && truthy (column (λ r. some r.cli_version) s)
    && truthy (column (λ r. r.effective_model) s)
    && truthy (column (λ r. r.model_provider) s)
    && ownership_ok (column (λ r. r.state_ownership) s) (column (λ r. r.account_type) s)
        (column (λ r. r.account_subject_sha256) s)
    && truthy (column (λ r. r.security_config_sha256) s)
    && truthy (column (λ r. r.feature_snapshot_sha256) s)

abbrev ends_ambiguously : ExecutionAttemptEventType → Bool
ends_ambiguously ExecutionAttemptEventType.interrupted = true
ends_ambiguously ExecutionAttemptEventType.cancel_unknown = true
ends_ambiguously _ = false

abbrev is_import : ExecutionAttemptEventType → Bool
is_import legacy_active_imported = true
is_import _ = false

abbrev or_given : Option (Option String) → Option String → Option String
or_given none active_turn_id = active_turn_id
or_given (some given) active_turn_id = given

-- The argument record of `appendExecutionAttemptEventLocked`: an absent `providerOperationId` is
-- `none`, and an explicit null is `some none`.
pub record AttemptEventInput : Type 0 where
  pub job_id : String
  pub run_generation : ℕ
  pub event_type : ExecutionAttemptEventType
  pub provider_operation_id : Option (Option String)
  pub reason : Option String
  pub created_at : ℕ

-- The row that is inserted, of the job row and the session row of the join.
abbrev pub event_row :
    Runtime
    → AttemptEventInput
    → List StoredExecutionAttemptEvent
    → JobRow
    → Option StoredBackendSession
    → StoredExecutionAttemptEvent
event_row js input events j s = record {
  scope_key = j.scope_key;
  job_id = input.job_id;
  run_generation = input.run_generation;
  sequence = suc (max_sequence (is_attempt j.scope_key input.job_id input.run_generation) events);
  backend = j.target_backend;
  session_key = j.session_key;
  lease_id = or_text j.lease_id;
  backend_execution_id = or_text j.connector_id;
  provider_session_id = if is_hermes j.target_backend then none else column (λ r. r.thread_id) s;
  provider_operation_id = or_given input.provider_operation_id (column (λ r. r.active_turn_id) s);
  runtime_version = column (λ r. some r.cli_version) s;
  requested_model = column (λ r. r.requested_model) s;
  effective_model = column (λ r. r.effective_model) s;
  model_provider = column (λ r. r.model_provider) s;
  state_ownership = column (λ r. r.state_ownership) s;
  account_type = column (λ r. r.account_type) s;
  account_subject_sha256 = column (λ r. r.account_subject_sha256) s;
  security_config_sha256 = column (λ r. r.security_config_sha256) s;
  feature_snapshot_sha256 = column (λ r. r.feature_snapshot_sha256) s;
  event_type = input.event_type;
  reason = bounded_attempt_reason js input.reason;
  created_at = input.created_at;
}

unfoldable pub insert_event : StoredExecutionAttemptEvent → M (Unit {0})
unfolding satisfies_checks
insert_event e =
    insert_unless constraint_failed
      (λ db. not (satisfies_checks e) || exists (collides e) db.execution_attempt_events)
      (λ db. record db { execution_attempt_events = db.execution_attempt_events ++ e ∷ [] })

-- The checks that precede the INSERT, and the row that is inserted if they pass.
unfoldable pub event_for :
    Runtime → AttemptEventInput → JobRow → Database → Result StoredExecutionAttemptEvent
unfolding metadata_complete
event_for js input j db =
    let session = select (session_of j) db.backend_sessions in
    let legacy =
      ends_ambiguously input.event_type
      && exists
          (λ e.
            is_attempt j.scope_key input.job_id input.run_generation e && is_import e.event_type)
          db.execution_attempt_events in
    if not (truthy j.lease_id) || not (truthy j.connector_id)
    then err attempt_context_missing
    else if not (is_hermes j.target_backend) && not legacy && not (metadata_complete session)
    then err attempt_metadata_missing
    else ok (event_row js input db.execution_attempt_events j session)

unfoldable pub insert_result : Result StoredExecutionAttemptEvent → M (Unit {0})
unfolding insert_event
insert_result (ok e) = insert_event e
insert_result (err e) = throw e

unfoldable pub append_to : Runtime → AttemptEventInput → Option JobRow → M (Unit {0})
unfolding insert_result event_for
append_to js input none = throw attempt_context_missing
append_to js input (some j) = query (event_for js input j) >>= insert_result

unfoldable pub append_execution_attempt_event : Runtime → String → AttemptEventInput → M (Unit {0})
unfolding append_to
append_execution_attempt_event js scope input =
    query (λ db.
      select (λ j. is_job scope input.job_id j && j.run_generation == input.run_generation) db.jobs)
    >>= append_to js input
