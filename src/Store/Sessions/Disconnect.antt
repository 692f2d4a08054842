-- ===== src/Store/Sessions/Disconnect.antt =====
-- src/state/store.ts: the loss of a connector of a backend with persistent sessions.
use livis_chatgpt_bridge.Prelude.{
  ℕ, ◌+◌, Bool, true, not, ◌&&◌, List, [], ◌∷◌, Option, none, some, String, ◌==◌, str_eq, holds,
  length, if◌then◌else◌,
}
use livis_chatgpt_bridge.Types.{StoredBackendSession, is_cancelling, is_executing, is_active}
use livis_chatgpt_bridge.Store.Schema.{Database, JobRow, Runtime}
use livis_chatgpt_bridge.Store.Table.{select, exists}
use livis_chatgpt_bridge.Store.Monad.{
  M, ◌>>=◌, ◌>>◌, pure, throw, query, when, update_jobs, transaction, attempt_count_mismatch,
}
use livis_chatgpt_bridge.Store.Ledger.{AttemptEventInput, append_execution_attempt_event}
use livis_chatgpt_bridge.Store.Recovery.{for_each}
use livis_chatgpt_bridge.Store.Sessions.Table.{no_triggers, update_sessions}
use livis_chatgpt_bridge.Store.Sessions.Attempt.{is_target}
use livis_chatgpt_bridge.Store.Sessions.Endings.{
  cancel_unknown, interrupted, lost_event, lost_row, joins, isolate_job,
}

-- A row of the SELECT: an attempt that the connector ran, with its turn.
pub record LostAttempt : Type 0 where
  pub job_id : String
  pub run_generation : ℕ
  pub is_cancelling : Bool
  pub active_turn_id : Option String

-- The columns of the JOIN, where there is a session row.
abbrev pub lost_attempt : JobRow → Option StoredBackendSession → List LostAttempt → List LostAttempt
lost_attempt r none rest = rest
lost_attempt r (some s) rest =
    record {
      job_id = r.job_id;
      run_generation = r.run_generation;
      is_cancelling = is_cancelling r.status;
      active_turn_id = s.active_turn_id;
    }
    ∷ rest

module _ (js : Runtime) (scope backend connector_id : String) where
  abbrev pub of_lost_connector : JobRow → Bool
  of_lost_connector r =
      str_eq r.scope_key scope && (holds r.connector_id connector_id && is_target backend r)

  -- The session of the JOIN, which is not yet in recovery.
  abbrev pub is_joined : JobRow → StoredBackendSession → Bool
  is_joined r s = joins backend r s && not s.recovery_required

  unfoldable pub lost_attempts : List StoredBackendSession → List JobRow → List LostAttempt
  lost_attempts sessions [] = []
  lost_attempts sessions (r ∷ rows) =
      let rest = lost_attempts sessions rows in
      if of_lost_connector r && is_active r.status
      then lost_attempt r (select (is_joined r) sessions) rest
      else rest

  abbrev pub is_lost : Database → JobRow → Bool
  is_lost db r =
      of_lost_connector r && is_active r.status && exists (is_joined r) db.backend_sessions

  -- UPDATE backend_sessions SET recovery_required=1.
  unfoldable pub flag_lost : ℕ → M ℕ
  flag_lost now =
      update_sessions no_triggers
        (λ db s.
          str_eq s.scope_key scope
          && str_eq s.backend backend
          && not s.recovery_required
          && exists (λ r. of_lost_connector r && is_active r.status && joins backend r s) db.jobs)
        (λ s. record s { recovery_required = true; updated_at = now })

  -- The session of the job is in recovery.
  abbrev pub is_flagged : Database → JobRow → Bool
  is_flagged db r = exists (λ s. joins backend r s && s.recovery_required) db.backend_sessions

  unfoldable pub end_lost : String → ℕ → M ℕ
  end_lost reason now = do
    cancelled ←
        update_jobs (λ db r. of_lost_connector r && (is_cancelling r.status && is_flagged db r))
          (lost_row cancel_unknown reason now)
    stopped ←
        update_jobs (λ db r. of_lost_connector r && (is_executing r.status && is_flagged db r))
          (lost_row interrupted reason now)
    pure (cancelled + stopped)

  unfoldable pub loss_event : String → ℕ → LostAttempt → AttemptEventInput
  loss_event reason now a = record {
    job_id = a.job_id;
    run_generation = a.run_generation;
    event_type = lost_event (if a.is_cancelling then cancel_unknown else interrupted);
    provider_operation_id = some a.active_turn_id;
    reason = some reason;
    created_at = now;
  }

  unfoldable pub backend_disconnect_transaction : String → ℕ → M ℕ
  unfolding flag_lost end_lost loss_event
  backend_disconnect_transaction reason now = do
    attempts ← query λ db. lost_attempts db.backend_sessions db.jobs
    isolate_job js scope is_lost reason now
    marked ← flag_lost now
    changed ← end_lost reason now
    when (not (marked == changed && length attempts == changed)) (throw attempt_count_mismatch)
    for_each (λ a. append_execution_attempt_event js scope (loss_event reason now a)) attempts
    pure changed

  unfoldable pub mark_backend_disconnected : String → ℕ → M ℕ
  unfolding backend_disconnect_transaction
  mark_backend_disconnected reason now = transaction (backend_disconnect_transaction reason now)
