-- ===== src/Store/Steps.antt =====
-- The abstract store: the writes that the calls of src/state/store.ts are made of, each with what
-- holds of the database when it is made, as step relations on rows and on databases.
pub mod Refinement
pub mod Runs
use livis_chatgpt_bridge.Prelude.{
  suc, ℕ, ◌≤◌, length, ◌≡◌, ◌⊎◌, Bool, true, false, not, ◌&&◌, List, [], ◌∷◌, ◌++◌, Option, none,
  some, String, All,
}
use livis_chatgpt_bridge.Types.{
  JobStatus, received, acked, dispatching, running, cancelling, succeeded, cancelled,
  cancel_unknown, interrupted, failed, rejected, is_waiting, is_executing, is_cancellable,
  is_hermes, OutboxStatus, pending, delivering, delivered, ack_failed, is_delivering,
  ExecutionBackendKind, IncomingRelayJob, StoredExecutionAttemptEvent, StoredBackendSession,
}
use livis_chatgpt_bridge.Store.Schema.{
  Database, JobRow, OutboxRow, DeliveryAttemptRow, QuarantineRow, PendingCancelRow, is_job, is_key,
  is_outbox, is_attempt_of, is_session,
}
use livis_chatgpt_bridge.Store.Table.{update, delete, exists, insert_or_ignore}
use livis_chatgpt_bridge.Store.Ledger.{
  max_sequence, is_attempt, satisfies_checks, collides, is_null,
}
use livis_chatgpt_bridge.Store.Intents.{cancel_row, pending_cancel_max_rows}
use livis_chatgpt_bridge.Store.Jobs.{new_row, claimed_row, is_free}
use livis_chatgpt_bridge.Store.Sessions.Table.{
  is_allowed, is_taken, metadata_incomplete, same_session, goes_back, tail_same,
}
use livis_chatgpt_bridge.Store.Sessions.Input.{EnsureBackendSessionInput, Checkpoint}
use livis_chatgpt_bridge.Store.Sessions.Bind.{bound_row, checkpointed_row}
use livis_chatgpt_bridge.Store.Sessions.Attempt.{
  reserved_session, cleared_session, turned_session, flagged_session,
}
use livis_chatgpt_bridge.Store.Outbox.{is_retryable, is_undelivered, delivering_row, unsent_row}

-- One job row becomes another.
pub data RowStep (db : Database) (r s : JobRow) : Type 0 where
  cancels : (now : ℕ) → is_cancellable r.status ≡ true → s ≡ cancel_row now r → RowStep db r s
  acks :
      (now : ℕ)
      → r.status ≡ received
      → s ≡ record r { status = acked; updated_at = now }
      → RowStep db r s
  unsends :
      (now : ℕ)
      → r.status ≡ dispatching
      → s ≡ record r { status = acked; updated_at = now }
      → RowStep db r s
  clears : r.status ≡ acked → s ≡ record r { connector_id = none; lease_id = none } → RowStep db r s
  runs :
      (connector : String) (now : ℕ)
      → r.status ≡ dispatching
      → r.cancel_requested ≡ false
      → s ≡ record r { status = running; connector_id = some connector; updated_at = now }
      → RowStep db r s
  finishes :
      (status : JobStatus) (error : Option String) (now : ℕ)
      → (status ≡ JobStatus.succeeded) ⊎ (status ≡ JobStatus.failed)
      → is_executing r.status ≡ true
      → r.cancel_requested ≡ false
      → s ≡ record r { status = status; error = error; completed_at = some now; updated_at = now }
      → RowStep db r s
  rejects :
      (reason : String) (now : ℕ)
      → is_waiting r.status ≡ true
      → s ≡ record r {
        status = rejected;
        error = some reason;
        completed_at = some now;
        updated_at = now;
      }
      → RowStep db r s
  accepts :
      (now : ℕ)
      → r.status ≡ dispatching
      → r.cancel_requested ≡ false
      → s ≡ record r { status = running; updated_at = now }
      → RowStep db r s
  loses_cancel :
      (error : Option String) (now : ℕ)
      → r.status ≡ cancelling
      → s ≡ record r {
        status = JobStatus.cancel_unknown;
        cancel_requested = true;
        error = error;
        completed_at = some now;
        updated_at = now;
      }
      → RowStep db r s
  settles :
      (now : ℕ)
      → r.status ≡ cancelling
      → s ≡ record r { status = cancelled; completed_at = some now; updated_at = now }
      → RowStep db r s
  gives_up :
      (error : Option String) (now : ℕ)
      → r.status ≡ cancelling
      → s ≡ record r {
        status = JobStatus.cancel_unknown;
        error = error;
        completed_at = some now;
        updated_at = now;
      }
      → RowStep db r s
  interrupts :
      (error : Option String) (now : ℕ)
      → is_executing r.status ≡ true
      → s ≡ record r {
        status = JobStatus.interrupted;
        error = error;
        completed_at = some now;
        updated_at = now;
      }
      → RowStep db r s

-- One outbox row becomes another.
pub data OutboxStep (db : Database) (o p : OutboxRow) : Type 0 where
  starts :
      (message : String) (now : ℕ)
      → is_retryable now o ≡ true
      → p ≡ delivering_row message false now o
      → OutboxStep db o p
  retries :
      (message : String) (now : ℕ)
      → is_delivering o.status ≡ true
      → p ≡ delivering_row message true now o
      → OutboxStep db o p
  resets :
      (now : ℕ)
      → is_delivering o.status ≡ true
      → p ≡ record o { status = pending; next_attempt_at = none; updated_at = now }
      → OutboxStep db o p
  recovers :
      (now : ℕ)
      → is_delivering o.status ≡ true
      → p ≡ record o { status = pending; updated_at = now }
      → OutboxStep db o p
  undelivers :
      (message : String) (retry : Bool) (now : ℕ)
      → is_delivering o.status ≡ true
      → o.last_message_id ≡ some message
      → p ≡ unsent_row message retry now db o
      → OutboxStep db o p
  confirms :
      (now : ℕ)
      → is_undelivered o.status ≡ true
      → exists (is_attempt_of o.scope_key o.job_id) db.outbox_delivery_attempts ≡ true
      → p ≡ record o {
        status = delivered;
        next_attempt_at = none;
        acked_at = some now;
        updated_at = now;
      }
      → OutboxStep db o p
  backs_off :
      (next now : ℕ)
      → is_delivering o.status ≡ true
      → p ≡ record o { status = ack_failed; next_attempt_at = some next; updated_at = now }
      → OutboxStep db o p

-- One row of a backend session becomes another.
pub data SessionStep (r s : StoredBackendSession) : Type 0 where
  binds_metadata :
      (input : EnsureBackendSessionInput) (now : ℕ)
      → is_null r.state_ownership ≡ true
      → is_null r.active_job_id ≡ true
      → is_null r.checkpoint_turn_count ≡ true
      → s ≡ bound_row input now r
      → SessionStep r s
  binds_thread :
      (thread : String) (now : ℕ)
      → is_null r.thread_id ≡ true
      → r.recovery_required ≡ false
      → s ≡ record r { thread_id = some thread; updated_at = now }
      → SessionStep r s
  checkpoints :
      (c : Checkpoint) (now : ℕ)
      → r.recovery_required ≡ false
      → is_null r.state_ownership ≡ false
      → goes_back r.checkpoint_turn_count
          (some c.turn_count)
          (not (tail_same r (checkpointed_row c now r)))
        ≡ false
      → s ≡ checkpointed_row c now r
      → SessionStep r s
  reserves :
      (job lease : String) (generation now : ℕ)
      → is_null r.active_job_id ≡ true
      → r.recovery_required ≡ false
      → s ≡ reserved_session job lease generation now r
      → SessionStep r s
  turns :
      (turn : String) (now : ℕ)
      → is_null r.active_turn_id ≡ true
      → r.recovery_required ≡ false
      → s ≡ turned_session turn now r
      → SessionStep r s
  vacates : (now : ℕ) → r.recovery_required ≡ false → s ≡ cleared_session now r → SessionStep r s
  flags : (turn : Option String) (now : ℕ) → s ≡ flagged_session turn now r → SessionStep r s

-- One write.
pub data Write (db d : Database) : Type 0 where
  writes_jobs :
      (p : JobRow → Bool) (f : JobRow → JobRow)
      → ((r : JobRow) → p r ≡ true → RowStep db r (f r))
      → d ≡ record db { jobs = update p f db.jobs }
      → Write db d
  claims_job :
      (scope job_id connector lease : String) (now : ℕ) (p : JobRow → Bool)
      → ((r : JobRow)
          → p r ≡ true
          → (is_job scope job_id r ≡ true)
            × (is_waiting r.status ≡ true)
            × (r.cancel_requested ≡ false)
            × (is_free db r ≡ true))
      → d ≡ record db { jobs = update p (claimed_row connector lease now) db.jobs }
      → Write db d
  inserts_job :
      (scope : String) (input : IncomingRelayJob) (hash session : String)
      (target : ExecutionBackendKind) (now : ℕ)
      → d ≡ record db {
        jobs =
            insert_or_ignore
              (is_job scope input.job_id)
              (new_row scope input hash session target now)
              db.jobs;
      }
      → Write db d
  inserts_result :
      (o : OutboxRow)
      → o.status ≡ pending
      → d ≡ record db { outbox = insert_or_ignore (is_outbox o.scope_key o.job_id) o db.outbox }
      → Write db d
  writes_outbox :
      (p : OutboxRow → Bool) (f : OutboxRow → OutboxRow)
      → ((o : OutboxRow) → p o ≡ true → OutboxStep db o (f o))
      → d ≡ record db { outbox = update p f db.outbox }
      → Write db d
  inserts_attempt :
      (a : DeliveryAttemptRow)
      → exists
          (λ b. is_key a.scope_key a.message_id b.scope_key b.message_id)
          db.outbox_delivery_attempts
        ≡ false
      → d ≡ record db { outbox_delivery_attempts = db.outbox_delivery_attempts ++ a ∷ [] }
      → Write db d
  deletes_attempt :
      (p : DeliveryAttemptRow → Bool)
      → d ≡ record db { outbox_delivery_attempts = delete p db.outbox_delivery_attempts }
      → Write db d
  appends_event :
      (e : StoredExecutionAttemptEvent)
      → satisfies_checks e ≡ true
      → exists (collides e) db.execution_attempt_events ≡ false
      → e.sequence
        ≡ suc (
            max_sequence
              (is_attempt e.scope_key e.job_id e.run_generation)
              db.execution_attempt_events)
      → d ≡ record db { execution_attempt_events = db.execution_attempt_events ++ e ∷ [] }
      → Write db d
  isolates :
      (rows : List QuarantineRow)
      → ((p : QuarantineRow → Bool) → exists p db.session_quarantine ≡ true → exists p rows ≡ true)
      → d ≡ record db { session_quarantine = rows }
      → Write db d
  releases :
      (scope session : String)
      → d
        ≡ record db { session_quarantine = delete (is_session scope session) db.session_quarantine }
      → Write db d
  writes_intents :
      (rows : List PendingCancelRow)
      → (length rows ≤ length db.pending_cancels) ⊎ (length rows ≤ pending_cancel_max_rows)
      → d ≡ record db { pending_cancels = rows }
      → Write db d
  inserts_session :
      (s : StoredBackendSession)
      → is_allowed db s ≡ true
      → metadata_incomplete s ≡ false
      → exists (same_session s) db.backend_sessions ≡ false
      → is_taken db.backend_sessions s ≡ false
      → d ≡ record db { backend_sessions = db.backend_sessions ++ s ∷ [] }
      → Write db d
  writes_sessions :
      (p : StoredBackendSession → Bool) (f : StoredBackendSession → StoredBackendSession)
      → All
          (λ s.
            p s ≡ true
            → SessionStep s (f s)
              × (is_allowed db (f s) ≡ true)
              × (is_taken (update p f db.backend_sessions) (f s) ≡ false))
          db.backend_sessions
      → d ≡ record db { backend_sessions = update p f db.backend_sessions }
      → Write db d
  deletes_sessions :
      (p : StoredBackendSession → Bool)
      → d ≡ record db { backend_sessions = delete p db.backend_sessions }
      → Write db d

-- A sequence of writes.
pub data Writes (db : Database) : Database → Type 0 where
  here : Writes db db
  next : {mid d : Database} → Writes db mid → Write mid d → Writes db d
