-- ===== src/Store/Sessions/Endings.antt =====
-- src/state/store.ts: the end of a job that a backend with persistent sessions runs: its result, or
-- the loss of its outcome, which leaves the session for recovery.
use livis_chatgpt_bridge.Prelude.{
  ℕ, Bool, true, false, not, ◌&&◌, Option, none, some, String, ◌==◌, str_eq, holds, if◌then◌else◌,
}
use livis_chatgpt_bridge.Types.{
  JobStatus, succeeded, failed, StoredJob, StoredBackendSession, is_cancelling, is_executing,
  is_running, backend_name, ExecutionAttemptEventType,
}
use livis_chatgpt_bridge.Store.Schema.{Database, JobRow, QuarantineRow, Runtime, is_job, is_session}
use livis_chatgpt_bridge.Store.Table.{select, exists}
use livis_chatgpt_bridge.Store.Monad.{
  M, ◌>>=◌, ◌>>◌, pure, throw, query, run, when, update_jobs, transaction, session_clear_failed,
  recovery_mark_failed, quarantine_failed, quarantine_reason_empty,
}
use livis_chatgpt_bridge.Store.Ledger.{append_execution_attempt_event}
use livis_chatgpt_bridge.Store.Jobs.{coalesce, require_if, upsert_outbox}
use livis_chatgpt_bridge.Store.Recovery.{quarantine_all}
use livis_chatgpt_bridge.Store.Sessions.Table.{both, no_triggers, update_sessions}
use livis_chatgpt_bridge.Store.Sessions.Attempt.{
  Attempt, is_target, holds_number, is_attempted, runs_attempt, of_turn, may_turn, cleared_session,
  flagged_session, attempt_event,
}

-- The two ways in which the outcome of a job is lost.
pub data Loss : Type 0 where
  cancel_unknown interrupted : Loss

abbrev pub is_from : Loss → JobStatus → Bool
is_from cancel_unknown status = is_cancelling status
is_from interrupted status = is_executing status

abbrev pub lost_event : Loss → ExecutionAttemptEventType
lost_event cancel_unknown = ExecutionAttemptEventType.cancel_unknown
lost_event interrupted = ExecutionAttemptEventType.interrupted

-- The SET clause of a loss.
abbrev pub lost_row : Loss → String → ℕ → JobRow → JobRow
lost_row cancel_unknown reason now r = record r {
  status = JobStatus.cancel_unknown;
  cancel_requested = true;
  error = coalesce r.error (some reason);
  completed_at = some now;
  updated_at = now;
}
lost_row interrupted reason now r = record r {
  status = JobStatus.interrupted;
  error = coalesce r.error (some reason);
  completed_at = some now;
  updated_at = now;
}

-- The session row of the join runs the attempt of the job row.
abbrev pub joins : String → JobRow → StoredBackendSession → Bool
joins backend r s =
    str_eq s.scope_key r.scope_key
    && str_eq s.backend backend
    && str_eq s.session_key r.session_key
    && holds s.active_job_id r.job_id
    && both s.active_lease_id r.lease_id
    && holds_number s.active_run_generation r.run_generation

-- The session key of the job that the subquery of `finishBackendWithOutbox` finds.
abbrev pub isolates_job : String → Option JobRow → QuarantineRow → Bool
isolates_job scope none q = false
isolates_job scope (some r) q = is_session scope r.session_key q

module _ (js : Runtime) (scope : String) where
  -- INSERT OR IGNORE INTO session_quarantine … SELECT … FROM jobs WHERE scope_key=? AND job_id=?
  unfoldable pub isolate_job : (Database → JobRow → Bool) → String → ℕ → M (Unit {0})
  isolate_job p reason now = run λ db. record db {
    session_quarantine = quarantine_all reason now (p db) db.jobs db.session_quarantine;
  }

  unfoldable pub flag_attempt : Attempt → Option String → ℕ → M ℕ
  flag_attempt a turn_id now =
      update_sessions no_triggers (λ db. runs_attempt scope a (may_turn turn_id))
        (flagged_session turn_id now)

  unfoldable pub recovery_transaction : Attempt → Option String → Loss → String → ℕ → M Bool
  unfolding isolate_job flag_attempt
  recovery_transaction a turn_id loss reason now = do
    ended ←
        update_jobs
          (λ db r.
            is_job scope a.job_id r
            && (is_from loss r.status && is_attempted a (may_turn turn_id) db r))
          (lost_row loss reason now)
    if not (ended == 1) then pure false else (do
      append_execution_attempt_event js scope
          (attempt_event a (lost_event loss) turn_id (some reason) now)
      isolate_job (λ db. is_job scope a.job_id) reason now
      marked ← flag_attempt a turn_id now
      when (not (marked == 1)) (throw recovery_mark_failed)
      pure true)

  unfoldable pub mark_backend_recovery_terminal :
      Attempt → Option String → Loss → String → ℕ → M (Option StoredJob)
  unfolding recovery_transaction
  mark_backend_recovery_terminal a turn_id loss reason now = do
    done ← transaction (recovery_transaction a turn_id loss reason now)
    require_if js scope a.job_id done

  unfoldable pub mark_backend_cancel_unknown :
      Attempt → Option String → String → ℕ → M (Option StoredJob)
  unfolding mark_backend_recovery_terminal
  mark_backend_cancel_unknown a turn_id reason now =
      mark_backend_recovery_terminal a turn_id cancel_unknown reason now

  unfoldable pub mark_backend_interrupted :
      Attempt → Option String → String → ℕ → M (Option StoredJob)
  unfolding mark_backend_recovery_terminal
  mark_backend_interrupted a turn_id reason now =
      mark_backend_recovery_terminal a turn_id interrupted reason now

  -- The quarantine of a credential failure, and the test that it is there.
  unfoldable pub quarantine_attempt : Attempt → String → String → ℕ → M (Unit {0})
  unfolding isolate_job
  quarantine_attempt a turn_id reason now = do
    isolate_job
        (λ db r.
          is_job scope a.job_id r
          && (is_target a.backend r
              && holds r.lease_id a.lease_id
              && r.run_generation == a.run_generation
              && exists
                  (λ s.
                    joins (backend_name r.target_backend) r s
                    && of_turn turn_id s.active_turn_id
                    && not s.recovery_required)
                  db.backend_sessions))
        reason now
    isolated ← query λ db.
        exists (isolates_job scope (select (is_job scope a.job_id) db.jobs)) db.session_quarantine
    when (not isolated) (throw quarantine_failed)

  abbrev pub quarantine_attempt? : Attempt → String → Option String → ℕ → M (Unit {0})
  quarantine_attempt? a turn_id none now = pure tt
  quarantine_attempt? a turn_id (some reason) now = quarantine_attempt a turn_id reason now

  unfoldable pub clear_turn : Attempt → String → ℕ → M ℕ
  clear_turn a turn_id now =
      update_sessions no_triggers (λ db. runs_attempt scope a (of_turn turn_id))
        (λ s. record (cleared_session now s) { recovery_required = false })

  unfoldable pub backend_finish_transaction :
      Attempt
      → String
      → JobStatus
      → ExecutionAttemptEventType
      → String
      → Option String
      → Option String
      → ℕ
      → M Bool
  unfolding quarantine_attempt clear_turn pure
  backend_finish_transaction a turn_id status event result_json error quarantine_reason now = do
    finished ←
        update_jobs
          (λ db r.
            is_job scope a.job_id r
            && (is_running r.status
                && not r.cancel_requested
                && is_attempted a (of_turn turn_id) db r))
          (λ r. record r {
            status = status;
            error = error;
            completed_at = some now;
            updated_at = now;
          })
    if not (finished == 1) then pure false else (do
      append_execution_attempt_event js scope (attempt_event a event (some turn_id) error now)
      upsert_outbox scope a.job_id result_json now
      quarantine_attempt? a turn_id quarantine_reason now
      cleared ← clear_turn a turn_id now
      when (not (cleared == 1)) (throw session_clear_failed)
      pure true)

  unfoldable pub finish_backend_with_outbox :
      Attempt
      → String
      → JobStatus
      → ExecutionAttemptEventType
      → String
      → Option String
      → Option String
      → ℕ
      → M (Option StoredJob)
  unfolding backend_finish_transaction
  finish_backend_with_outbox a turn_id status event result_json error quarantine_reason now = do
    done ←
        transaction (
          backend_finish_transaction a turn_id status event result_json error quarantine_reason now)
    require_if js scope a.job_id done

  unfoldable pub finish_backend_success : Attempt → String → String → ℕ → M (Option StoredJob)
  unfolding finish_backend_with_outbox
  finish_backend_success a turn_id result_json now =
      finish_backend_with_outbox a turn_id succeeded ExecutionAttemptEventType.succeeded result_json
        none none now

  unfoldable pub finish_backend_failure :
      Attempt → String → String → String → ℕ → M (Option StoredJob)
  unfolding finish_backend_with_outbox
  finish_backend_failure a turn_id result_json error now =
      finish_backend_with_outbox a turn_id failed ExecutionAttemptEventType.failed result_json
        (some error) none now

  unfoldable pub finish_backend_credential_failure :
      Attempt → String → String → String → String → ℕ → M (Option StoredJob)
  unfolding finish_backend_with_outbox
  finish_backend_credential_failure a turn_id result_json error quarantine_reason now = do
    when (js.trims_to_nothing quarantine_reason) (throw quarantine_reason_empty)
    finish_backend_with_outbox a turn_id failed ExecutionAttemptEventType.failed result_json
        (some error) (some quarantine_reason) now
