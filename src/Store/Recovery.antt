-- ===== src/Store/Recovery.antt =====
-- src/state/store.ts: cancellation of a running job, a lost connector, the restart of the daemon,
-- and the quarantine of sessions.
use livis_chatgpt_bridge.Prelude.{
  ℕ, ◌+◌, Bool, true, false, not, ◌&&◌, List, [], ◌∷◌, Option, none, some, String, ◌==◌,
  if◌then◌else◌, str_eq, holds, length,
}
use livis_chatgpt_bridge.Types.{
  JobStatus, cancelled, is_cancelling, is_executing, is_active, is_hermes, is_delivering, StoredJob,
  StoredBackendSession, pending, cancelled_not_sent, ExecutionAttemptEventType,
}
use livis_chatgpt_bridge.Store.Schema.{Database, JobRow, QuarantineRow, Runtime, is_job, is_session}
use livis_chatgpt_bridge.Store.Table.{exists, insert_or_ignore, delete, changes}
use livis_chatgpt_bridge.Store.Monad.{
  M, ok, ◌>>=◌, ◌>>◌, pure, throw, query, run, when, update_jobs, update_outbox, transaction,
  attempt_count_mismatch,
}
use livis_chatgpt_bridge.Store.Reads.{require}
use livis_chatgpt_bridge.Store.Ledger.{append_execution_attempt_event, AttemptEventInput}
use livis_chatgpt_bridge.Store.Intents.{
  prune_expired_pending_cancels, consume_all_matched_pending_cancels,
  trim_legacy_pending_cancel_overflow,
}
use livis_chatgpt_bridge.Store.Sessions.Table.{no_triggers, update_sessions}
use livis_chatgpt_bridge.Store.Jobs.{coalesce, append_current, require_if}

-- INSERT OR IGNORE INTO session_quarantine.
unfoldable pub quarantine : String → String → String → ℕ → List QuarantineRow → List QuarantineRow
quarantine scope session reason now =
    insert_or_ignore (is_session scope session)
      (record { scope_key = scope; session_key = session; reason = reason; created_at = now })

-- INSERT OR IGNORE INTO session_quarantine … SELECT … FROM jobs WHERE p.
unfoldable pub quarantine_all :
    String → ℕ → (JobRow → Bool) → List JobRow → List QuarantineRow → List QuarantineRow
quarantine_all reason now p [] q = q
quarantine_all reason now p (j ∷ jobs) q =
    quarantine_all reason now p jobs
      (if p j then quarantine j.scope_key j.session_key reason now q else q)

-- What `recoverAfterRestart` returns.
pub record Recovered : Type 0 where
  pub interrupted : ℕ
  pub cancel_unknown : ℕ
  pub outbox_pending : ℕ

-- A row of `SELECT job_id,run_generation,status FROM jobs`.
pub record ActiveAttempt : Type 0 where
  pub job_id : String
  pub run_generation : ℕ
  pub status : JobStatus

unfoldable pub active_attempts : (JobRow → Bool) → List JobRow → List ActiveAttempt
active_attempts p [] = []
active_attempts p (j ∷ jobs) =
    let rest = active_attempts p jobs in
    if p j
    then record { job_id = j.job_id; run_generation = j.run_generation; status = j.status } ∷ rest
    else rest

-- `for (const x of xs) { await m(x) }`
unfoldable pub for_each {ℓ} : {A : Type ℓ} → (A → M (Unit {0})) → List A → M (Unit {0})
unfolding pure ◌>>◌
for_each m [] = pure tt
for_each m (x ∷ xs) = m x >> for_each m xs

module _ (js : Runtime) (scope : String) where
  cancel_unknown_transaction : String → String → String → ℕ → M (Unit {0})
  cancel_unknown_transaction job_id lease_id reason now = do
    changed ←
        update_jobs
          (λ db r.
            is_job scope job_id r
            && (is_hermes r.target_backend && holds r.lease_id lease_id && is_cancelling r.status))
          (λ r. record r {
            status = JobStatus.cancel_unknown;
            cancel_requested = true;
            error = some reason;
            completed_at = some now;
            updated_at = now;
          })
    when (changed == 1) (do
      append_current js scope job_id ExecutionAttemptEventType.cancel_unknown (some reason) now
      run λ db. record db {
        session_quarantine =
            quarantine_all reason now (is_job scope job_id) db.jobs db.session_quarantine;
      })

  unfoldable pub mark_cancel_unknown : String → String → String → ℕ → M StoredJob
  unfolding cancel_unknown_transaction
  mark_cancel_unknown job_id lease_id reason now = do
    transaction (cancel_unknown_transaction job_id lease_id reason now)
    require scope job_id

  not_started_transaction : String → String → ℕ → M Bool
  not_started_transaction job_id lease_id now = do
    changed ←
        update_jobs
          (λ db r.
            is_job scope job_id r
            && (is_hermes r.target_backend
                && is_cancelling r.status
                && r.cancel_requested
                && holds r.lease_id lease_id))
          (λ r. record r { status = cancelled; completed_at = some now; updated_at = now })
    if changed == 1
        then (do
          append_current js scope job_id cancelled_not_sent
              (some "Hermes connector proved execution never started") now
          pure true)
        else pure false

  unfoldable pub finish_hermes_cancellation_not_started : String → String → ℕ → M (Option StoredJob)
  unfolding not_started_transaction
  finish_hermes_cancellation_not_started job_id lease_id now = do
    done ← transaction (not_started_transaction job_id lease_id now)
    require_if js scope job_id done

  -- The event of one attempt that a disconnect or a restart has ended.
  unfoldable pub ended_event :
      Option (Option String) → String → String → ℕ → ActiveAttempt → AttemptEventInput
  ended_event operation cancelling_reason reason now a = record {
    job_id = a.job_id;
    run_generation = a.run_generation;
    event_type =
        if is_cancelling a.status
        then ExecutionAttemptEventType.cancel_unknown
        else ExecutionAttemptEventType.interrupted;
    provider_operation_id = operation;
    reason = some (if is_cancelling a.status then cancelling_reason else reason);
    created_at = now;
  }

  -- The two UPDATE statements that end active jobs, with their changes. `p` is the WHERE
  -- clause but its test of the status; the error of a cancelled job is kept where none is given.
  unfoldable pub end_active : (JobRow → Bool) → Option String → String → ℕ → M (ℕ × ℕ)
  end_active p cancel_error error now = do
    cancel_unknown ←
        update_jobs (λ db r. p r && is_cancelling r.status)
          (λ r. record r {
            status = JobStatus.cancel_unknown;
            error = coalesce r.error cancel_error;
            completed_at = some now;
            updated_at = now;
          })
    interrupted ←
        update_jobs (λ db r. p r && is_executing r.status)
          (λ r. record r {
            status = JobStatus.interrupted;
            error = coalesce r.error (some error);
            completed_at = some now;
            updated_at = now;
          })
    pure (cancel_unknown, interrupted)

  abbrev pub of_connector : String → JobRow → Bool
  of_connector connector_id r =
      str_eq r.scope_key scope && (holds r.connector_id connector_id && is_hermes r.target_backend)

  disconnect_transaction : String → ℕ → M ℕ
  unfolding end_active ended_event
  disconnect_transaction connector_id now = do
    attempts ←
        query λ db. active_attempts (λ r. of_connector connector_id r && is_active r.status) db.jobs
    run λ db. record db {
      session_quarantine =
          quarantine_all "connector disconnected during active execution" now
            (λ r. of_connector connector_id r && is_active r.status) db.jobs db.session_quarantine;
    }
    (cancel_unknown, interrupted) ←
        end_active (of_connector connector_id) (some "connector disconnected during cancellation")
          "connector disconnected" now
    when (not (length attempts == cancel_unknown + interrupted)) (throw attempt_count_mismatch)
    for_each
        (λ a. append_execution_attempt_event js scope (
          ended_event (some none) "connector disconnected during cancellation"
            "connector disconnected" now a))
        attempts
    pure (cancel_unknown + interrupted)

  unfoldable pub mark_connector_disconnected : String → ℕ → M ℕ
  unfolding disconnect_transaction
  mark_connector_disconnected connector_id now =
      transaction (disconnect_transaction connector_id now)

  -- UPDATE backend_sessions SET recovery_required=1 … WHERE active_job_id IS NOT NULL.
  abbrev pub has_active_job : StoredBackendSession → Bool
  has_active_job s = elim s.active_job_id [ none ↦ false | some _ ↦ str_eq s.scope_key scope ]

  unfoldable pub flag_sessions : ℕ → M ℕ
  flag_sessions now =
      update_sessions no_triggers (λ db. has_active_job)
        (λ s. record s { recovery_required = true; updated_at = now })

  abbrev pub in_scope : JobRow → Bool
  in_scope r = str_eq r.scope_key scope

  -- The recovery of active jobs: all of `recoverAfterRestart` between the pending cancels and the
  -- outbox.
  unfoldable pub recover_active : ℕ → M (ℕ × ℕ)
  unfolding flag_sessions end_active ended_event
  recover_active now = do
    attempts ← query λ db. active_attempts (λ r. in_scope r && is_active r.status) db.jobs
    run λ db. record db {
      session_quarantine =
          quarantine_all "daemon restarted during active execution" now
            (λ r. in_scope r && is_active r.status) db.jobs db.session_quarantine;
    }
    flagged ← flag_sessions now
    (cancel_unknown, interrupted) ←
        end_active in_scope none "daemon restarted while connector job was active" now
    when (not (length attempts == cancel_unknown + interrupted)) (throw attempt_count_mismatch)
    for_each
        (λ a. append_execution_attempt_event js scope (
          ended_event none "daemon restarted during cancellation"
            "daemon restarted during active execution" now a))
        attempts
    pure (cancel_unknown, interrupted)

  recover_transaction : ℕ → M Recovered
  unfolding recover_active
  recover_transaction now = do
    prune_expired_pending_cancels now
    consume_all_matched_pending_cancels scope now
    trim_legacy_pending_cancel_overflow
    (cancel_unknown, interrupted) ← recover_active now
    outbox_pending ←
        update_outbox (λ db o. str_eq o.scope_key scope && is_delivering o.status)
          (λ db o. record o { status = pending; updated_at = now })
    pure (record {
      interrupted = interrupted;
      cancel_unknown = cancel_unknown;
      outbox_pending = outbox_pending;
    })

  unfoldable pub recover_after_restart : ℕ → M Recovered
  unfolding recover_transaction
  recover_after_restart now = transaction (recover_transaction now)

  unfoldable pub quarantine_session : String → String → ℕ → M Bool
  quarantine_session session reason now db =
      (ok (not (exists (is_session scope session) db.session_quarantine)), quarantined)
    where
      quarantined : Database
      quarantined = record db {
        session_quarantine = quarantine scope session reason now db.session_quarantine;
      }

  unfoldable pub release_session_quarantine : String → M Bool
  release_session_quarantine session db =
      (ok (changes (is_session scope session) db.session_quarantine == 1), released)
    where
      released : Database
      released = record db {
        session_quarantine = delete (is_session scope session) db.session_quarantine;
      }
