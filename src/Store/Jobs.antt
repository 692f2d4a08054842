-- ===== src/Store/Jobs.antt =====
-- src/state/store.ts: the life of a job that the Hermes connector runs.
use livis_chatgpt_bridge.Prelude.{
  ℕ, suc, Bool, true, false, not, ◌&&◌, List, [], ◌∷◌, Option, none, some, String, ◌==◌,
  if◌then◌else◌, str_eq, holds,
}
use livis_chatgpt_bridge.Types.{
  JobStatus, received, acked, dispatching, running, rejected, succeeded, failed, is_waiting,
  is_executing, is_dispatching, is_active, is_hermes, is_acked, status_eq, ExecutionBackendKind,
  IncomingRelayJob, StoredJob, reserved, accepted, not_sent, pending, ExecutionAttemptEventType,
}
use livis_chatgpt_bridge.Store.Schema.{
  Database, JobRow, Runtime, is_job, is_outbox, is_session, business_payload_hash,
}
use livis_chatgpt_bridge.Store.Table.{exists, insert_or_ignore}
use livis_chatgpt_bridge.Store.Monad.{
  M, ok, ◌>>=◌, ◌>>◌, pure, throw, run, when, update_jobs, transaction, job_conflict,
  unsent_reset_failed,
}
use livis_chatgpt_bridge.Store.Reads.{require}
use livis_chatgpt_bridge.Store.Ledger.{AttemptEventInput, append_execution_attempt_event}
use livis_chatgpt_bridge.Store.Intents.{
  prune_expired_pending_cancels, consume_matched_pending_cancel,
}

-- The row that `ingest` inserts: columns that the statement leaves out have their defaults.
abbrev pub new_row : String → IncomingRelayJob → String → String → ExecutionBackendKind → ℕ → JobRow
new_row scope input hash session target now = record {
  scope_key = scope;
  job_id = input.job_id;
  msg_id = input.message_id;
  payload_hash = hash;
  target_backend = target;
  from_node_id = input.from_node_id;
  from_node_type = input.from_node_type;
  input_text = input.text;
  raw_payload = input.raw_payload;
  status = received;
  session_key = session;
  connector_id = none;
  lease_id = none;
  run_generation = 0;
  error = none;
  cancel_requested = false;
  input_timestamp = input.timestamp;
  created_at = now;
  updated_at = now;
  completed_at = none;
}

-- INSERT OR IGNORE INTO jobs; true if a row was inserted.
unfoldable pub insert_job : JobRow → M Bool
insert_job row db = (ok (not (exists key db.jobs)), inserted)
  where
    key : JobRow → Bool
    key = is_job row.scope_key row.job_id

    inserted : Database
    inserted = record db { jobs = insert_or_ignore key row db.jobs }

-- INSERT INTO outbox … ON CONFLICT DO NOTHING.
unfoldable pub upsert_outbox : String → String → String → ℕ → M (Unit {0})
upsert_outbox scope job_id result_json now = run λ db. record db {
  outbox =
      insert_or_ignore (is_outbox scope job_id)
        (record {
          scope_key = scope;
          job_id = job_id;
          status = pending;
          result_json = result_json;
          retry_count = 0;
          last_message_id = none;
          next_attempt_at = none;
          created_at = now;
          updated_at = now;
          delivered_at = none;
          acked_at = none;
        })
        db.outbox;
}

-- COALESCE(?, error)
abbrev pub coalesce : Option String → Option String → Option String
coalesce none e = e
coalesce (some s) e = some s

-- status IN (…) for the list that `transition` is given.
unfoldable pub status_in : List JobStatus → JobStatus → Bool
status_in [] s = false
status_in (t ∷ from) s = if status_eq s t then true else status_in from s

-- No other job of the session is active, and the session is not quarantined.
abbrev pub is_free : Database → JobRow → Bool
is_free db target =
    not (
      exists
        (λ a.
          str_eq a.scope_key target.scope_key
          && str_eq a.session_key target.session_key
          && not (str_eq a.job_id target.job_id)
          && is_active a.status)
        db.jobs)
    && not (exists (is_session target.scope_key target.session_key) db.session_quarantine)

-- The SET clause of `claimForDispatch`.
unfoldable pub claimed_row : String → String → ℕ → JobRow → JobRow
claimed_row connector_id lease_id now r = record r {
  status = dispatching;
  connector_id = some connector_id;
  lease_id = some lease_id;
  run_generation = suc r.run_generation;
  updated_at = now;
}

-- The argument of `appendExecutionAttemptEventLocked` that the Hermes operations give.
abbrev pub hermes_event :
    String → ℕ → ExecutionAttemptEventType → Option String → ℕ → AttemptEventInput
hermes_event job_id generation type reason now = record {
  job_id = job_id;
  run_generation = generation;
  event_type = type;
  provider_operation_id = some none;
  reason = reason;
  created_at = now;
}

module _ (js : Runtime) (scope : String) where
  -- The event of the transition that the transaction has just written.
  unfoldable pub append_current :
      String → ExecutionAttemptEventType → Option String → ℕ → M (Unit {0})
  append_current job_id type reason now = do
    job ← require scope job_id
    append_execution_attempt_event js scope (hermes_event job_id job.run_generation type reason now)

  ingest_transaction : IncomingRelayJob → String → String → ExecutionBackendKind → ℕ → M Bool
  unfolding insert_job
  ingest_transaction input hash session target now = do
    prune_expired_pending_cancels now
    inserted ← insert_job (new_row scope input hash session target now)
    consume_matched_pending_cancel scope input.job_id now
    pure inserted

  unfoldable pub check_payload : String → Bool → StoredJob → M (Bool × StoredJob)
  check_payload hash inserted job =
      if str_eq job.payload_hash hash then pure (inserted, job) else throw job_conflict

  -- The conflict is thrown after the transaction has committed.
  unfoldable pub ingest :
      IncomingRelayJob → String → ExecutionBackendKind → ℕ → M (Bool × StoredJob)
  unfolding ingest_transaction check_payload
  ingest input session target now = do
    let hash = business_payload_hash js input
    inserted ← transaction (ingest_transaction input hash session target now)
    job ← require scope input.job_id
    check_payload hash inserted job

  unfoldable pub transition : String → List JobStatus → JobStatus → Option String → ℕ → M ℕ
  transition job_id from to error now =
      update_jobs (λ db r. is_job scope job_id r && status_in from r.status)
        (λ r. record r { status = to; error = coalesce error r.error; updated_at = now })

  unfoldable pub mark_acked : String → ℕ → M StoredJob
  unfolding transition
  mark_acked job_id now = do
    changed ← transition job_id (received ∷ []) acked none now
    require scope job_id

  -- The WHERE clause of `claimForDispatch`.
  unfoldable pub claimable : String → Database → JobRow → Bool
  claimable job_id db r =
      is_job scope job_id r
      && (is_hermes r.target_backend
          && is_waiting r.status
          && not r.cancel_requested
          && is_free db r)

  unfoldable pub claim_transaction : String → String → String → ℕ → M Bool
  unfolding append_current claimable claimed_row
  claim_transaction job_id connector_id lease_id now = do
    changed ← update_jobs (claimable job_id) (claimed_row connector_id lease_id now)
    if changed == 1 then (do append_current job_id reserved none now; pure true) else pure false

  -- The job as it is after a successful transaction, else null.
  unfoldable pub require_if : String → Bool → M (Option StoredJob)
  require_if job_id done =
      if done then (do job ← require scope job_id; pure (some job)) else pure none

  unfoldable pub claim_for_dispatch : String → String → String → ℕ → M (Option StoredJob)
  unfolding claim_transaction require_if
  claim_for_dispatch job_id connector_id lease_id now = do
    done ← transaction (claim_transaction job_id connector_id lease_id now)
    require_if job_id done

  reset_transaction : String → String → ℕ → M (Unit {0})
  unfolding append_current
  reset_transaction job_id lease_id now = do
    reset ←
        update_jobs
          (λ db r.
            is_job scope job_id r
            && (is_hermes r.target_backend && is_dispatching r.status && holds r.lease_id lease_id))
          (λ r. record r { status = acked; updated_at = now })
    when (reset == 1) (do
      job ← require scope job_id
      append_execution_attempt_event js scope (
          hermes_event job_id job.run_generation not_sent
            (some "connector request was proven not sent") now)
      cleared ←
          update_jobs
            (λ db r.
              is_job scope job_id r
              && (is_hermes r.target_backend
                  && is_acked r.status
                  && holds r.lease_id lease_id
                  && r.run_generation == job.run_generation))
            (λ r. record r { connector_id = none; lease_id = none })
      when (not (cleared == 1)) (throw unsent_reset_failed))

  unfoldable pub reset_unsent_dispatch : String → String → ℕ → M (Unit {0})
  unfolding reset_transaction
  reset_unsent_dispatch job_id lease_id now = transaction (reset_transaction job_id lease_id now)

  unfoldable pub mark_running : String → String → String → ℕ → M StoredJob
  unfolding append_current
  mark_running job_id connector_id lease_id now = do
    transaction (do
      changed ←
          update_jobs
            (λ db r.
              is_job scope job_id r
              && (is_hermes r.target_backend
                  && is_dispatching r.status
                  && holds r.lease_id lease_id
                  && not r.cancel_requested))
            (λ r. record r { status = running; connector_id = some connector_id; updated_at = now })
      when (changed == 1) (append_current job_id accepted none now))
    require scope job_id

  unfoldable pub finish_transaction :
      String
      → String
      → JobStatus
      → ExecutionAttemptEventType
      → String
      → Option String
      → ℕ
      → M (Unit {0})
  unfolding append_current
  finish_transaction job_id lease_id status event result_json error now = do
    changed ←
        update_jobs
          (λ db r.
            is_job scope job_id r
            && (holds r.lease_id lease_id
                && is_hermes r.target_backend
                && is_executing r.status
                && not r.cancel_requested))
          (λ r. record r {
            status = status;
            error = error;
            completed_at = some now;
            updated_at = now;
          })
    when (changed == 1)
        (do append_current job_id event error now; upsert_outbox scope job_id result_json now)

  unfoldable pub finish_success : String → String → String → ℕ → M StoredJob
  unfolding finish_transaction
  finish_success job_id lease_id result_json now = do
    transaction (
        finish_transaction job_id lease_id succeeded ExecutionAttemptEventType.succeeded result_json
          none now)
    require scope job_id

  unfoldable pub finish_failure : String → String → String → String → ℕ → M StoredJob
  unfolding finish_transaction
  finish_failure job_id lease_id result_json error now = do
    transaction (
        finish_transaction job_id lease_id failed ExecutionAttemptEventType.failed result_json
          (some error) now)
    require scope job_id

  unfoldable pub reject : String → String → String → ℕ → M StoredJob
  reject job_id result_json reason now = do
    transaction (do
      changed ←
          update_jobs (λ db r. is_job scope job_id r && is_waiting r.status)
            (λ r. record r {
              status = rejected;
              error = some reason;
              completed_at = some now;
              updated_at = now;
            })
      when (changed == 1) (upsert_outbox scope job_id result_json now))
    require scope job_id
