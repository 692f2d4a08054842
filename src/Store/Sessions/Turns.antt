-- ===== src/Store/Sessions/Turns.antt =====
-- src/state/store.ts: the life of a job that a backend with persistent sessions runs: a transaction
-- changes the job and the active attempt of its session together.
use livis_chatgpt_bridge.Prelude.{
  ℕ, Bool, true, false, not, ◌&&◌, ◌||◌, Option, none, some, String, ◌==◌, str_eq, holds,
  if◌then◌else◌,
}
use livis_chatgpt_bridge.Types.{
  acked, running, cancelled, StoredJob, StoredBackendSession, is_waiting, is_acked, is_dispatching,
  is_cancelling, is_running, reserved, not_sent, cancelled_not_sent, accepted,
}
use livis_chatgpt_bridge.Store.Schema.{Database, JobRow, Runtime, is_job}
use livis_chatgpt_bridge.Store.Table.{select, exists}
use livis_chatgpt_bridge.Store.Monad.{
  M, ◌>>=◌, ◌>>◌, pure, throw, query, when, update_jobs, transaction, claim_unread,
  reservation_failed, unsent_reset_failed, session_clear_failed, turn_binding_failed,
}
use livis_chatgpt_bridge.Store.Ledger.{is_null, append_execution_attempt_event}
use livis_chatgpt_bridge.Store.Jobs.{is_free, claimed_row, require_if}
use livis_chatgpt_bridge.Store.Sessions.Table.{
  both, no_triggers, update_sessions, is_backend_session,
}
use livis_chatgpt_bridge.Store.Sessions.Attempt.{
  Attempt, is_target, holds_number, is_attempted, runs_attempt, no_turn, of_turn, reserved_session,
  cleared_session, turned_session, attempt_event,
}

-- A session that can take the job.
unfoldable pub has_room : String → Database → JobRow → Bool
has_room backend db r =
    exists
      (λ s.
        str_eq s.scope_key r.scope_key
        && str_eq s.backend backend
        && str_eq s.session_key r.session_key
        && not (is_null s.thread_id)
        && not (is_null s.state_ownership)
        && is_null s.active_job_id
        && not s.recovery_required)
      db.backend_sessions

module _ (js : Runtime) (scope : String) where
  -- UPDATE backend_sessions … WHERE the session runs the attempt, else the error.
  unfoldable pub clear_attempt : Attempt → ℕ → M ℕ
  clear_attempt a now =
      update_sessions no_triggers (λ db. runs_attempt scope a no_turn) (cleared_session now)

  unfoldable pub turn_attempt : Attempt → String → ℕ → M ℕ
  turn_attempt a turn_id now =
      update_sessions no_triggers (λ db. runs_attempt scope a no_turn) (turned_session turn_id now)

  -- The WHERE clause of `claimForBackendDispatch`, after the key of the job.
  abbrev pub can_take : String → Database → JobRow → Bool
  can_take backend db r =
      is_target backend r
      && is_waiting r.status
      && not r.cancel_requested
      && has_room backend db r
      && is_free db r

  unfoldable pub backend_claimable : String → String → Database → JobRow → Bool
  unfolding has_room
  backend_claimable job_id backend db r = is_job scope job_id r && can_take backend db r

  -- The job row that is read back after the claim.
  abbrev pub is_claimed : String → String → JobRow → Bool
  is_claimed job_id lease_id r =
      is_job scope job_id r && (holds r.lease_id lease_id && is_dispatching r.status)

  unfoldable pub reserve_update : String → String → String → JobRow → ℕ → M ℕ
  reserve_update job_id backend lease_id attempt now =
      update_sessions no_triggers
        (λ db s.
          is_backend_session scope backend attempt.session_key s
          && (not (is_null s.thread_id) && is_null s.active_job_id && not s.recovery_required))
        (reserved_session job_id lease_id attempt.run_generation now)

  unfoldable pub reserve_session : String → String → String → ℕ → Option JobRow → M Bool
  unfolding reserve_update
  reserve_session job_id backend lease_id now none = throw claim_unread
  reserve_session job_id backend lease_id now (some attempt) = do
    taken ← reserve_update job_id backend lease_id attempt now
    when (not (taken == 1)) (throw reservation_failed)
    append_execution_attempt_event js scope (
        attempt_event
          (record {
            job_id = job_id;
            backend = backend;
            lease_id = lease_id;
            run_generation = attempt.run_generation;
          })
          reserved none none now)
    pure true

  unfoldable pub backend_claim_transaction : String → String → String → String → ℕ → M Bool
  unfolding backend_claimable reserve_session
  backend_claim_transaction job_id backend connector_id lease_id now = do
    claimed ← update_jobs (backend_claimable job_id backend) (claimed_row connector_id lease_id now)
    if claimed == 1
        then (query (λ db. select (is_claimed job_id lease_id) db.jobs)
            >>= reserve_session job_id backend lease_id now)
        else pure false

  unfoldable pub claim_for_backend_dispatch :
      String → String → String → String → ℕ → M (Option StoredJob)
  unfolding backend_claim_transaction
  claim_for_backend_dispatch job_id backend connector_id lease_id now = do
    done ← transaction (backend_claim_transaction job_id backend connector_id lease_id now)
    require_if js scope job_id done

  -- UPDATE jobs SET connector_id=NULL,lease_id=NULL.
  unfoldable pub clear_lease : Attempt → M ℕ
  clear_lease a =
      update_jobs
        (λ db r.
          is_job scope a.job_id r
          && (is_acked r.status
              && is_target a.backend r
              && holds r.lease_id a.lease_id
              && r.run_generation == a.run_generation))
        (λ r. record r { connector_id = none; lease_id = none })

  unfoldable pub backend_reset_transaction : Attempt → ℕ → M Bool
  unfolding clear_lease clear_attempt
  backend_reset_transaction a now = do
    reset ←
        update_jobs
          (λ db r.
            is_job scope a.job_id r && (is_dispatching r.status && is_attempted a no_turn db r))
          (λ r. record r { status = acked; updated_at = now })
    if not (reset == 1) then pure false else (do
      append_execution_attempt_event js scope
          (attempt_event a not_sent none (some "backend request was proven not sent") now)
      cleared_job ← clear_lease a
      when (not (cleared_job == 1)) (throw unsent_reset_failed)
      cleared ← clear_attempt a now
      when (not (cleared == 1)) (throw session_clear_failed)
      pure true)

  unfoldable pub reset_unsent_backend_dispatch : Attempt → ℕ → M Bool
  unfolding backend_reset_transaction
  reset_unsent_backend_dispatch a now = transaction (backend_reset_transaction a now)

  unfoldable pub unsent_cancel_transaction : Attempt → ℕ → M Bool
  unfolding clear_attempt
  unsent_cancel_transaction a now = do
    settled ←
        update_jobs
          (λ db r.
            is_job scope a.job_id r
            && (is_cancelling r.status && r.cancel_requested && is_attempted a no_turn db r))
          (λ r. record r { status = cancelled; completed_at = some now; updated_at = now })
    if not (settled == 1) then pure false else (do
      append_execution_attempt_event js scope (
          attempt_event a cancelled_not_sent none
            (some "cancel won before backend request left daemon") now)
      cleared ← clear_attempt a now
      when (not (cleared == 1)) (throw session_clear_failed)
      pure true)

  unfoldable pub finish_unsent_backend_cancellation : Attempt → ℕ → M (Option StoredJob)
  unfolding unsent_cancel_transaction
  finish_unsent_backend_cancellation a now = do
    done ← transaction (unsent_cancel_transaction a now)
    require_if js scope a.job_id done

  -- The job of the session's attempt is being cancelled.
  abbrev pub is_cancelling_job : Attempt → StoredBackendSession → JobRow → Bool
  is_cancelling_job a s r =
      str_eq r.scope_key s.scope_key
      && holds s.active_job_id r.job_id
      && is_cancelling r.status
      && is_target a.backend r
      && both r.lease_id s.active_lease_id
      && holds_number s.active_run_generation r.run_generation
      && r.cancel_requested

  unfoldable pub turn_cancelling : Attempt → String → ℕ → M ℕ
  turn_cancelling a turn_id now =
      update_sessions no_triggers
        (λ db s. runs_attempt scope a no_turn s && exists (is_cancelling_job a s) db.jobs)
        (turned_session turn_id now)

  -- The turn is bound already: the answer of a repeated call.
  unfoldable pub is_duplicate : Attempt → String → Database → Bool
  is_duplicate a turn_id db =
      exists
        (λ r.
          is_job scope a.job_id r
          && ((is_running r.status || is_cancelling r.status)
              && is_attempted a (of_turn turn_id) db r))
        db.jobs

  unfoldable pub accept_late : Attempt → String → ℕ → M Bool
  unfolding turn_cancelling is_duplicate
  accept_late a turn_id now = do
    bound ← turn_cancelling a turn_id now
    if bound == 1
        then (do
          append_execution_attempt_event js scope (attempt_event a accepted (some turn_id) none now)
          pure true)
        else query (is_duplicate a turn_id)

  unfoldable pub running_transaction : Attempt → String → ℕ → M Bool
  unfolding accept_late turn_attempt
  running_transaction a turn_id now = do
    started ←
        update_jobs
          (λ db r.
            is_job scope a.job_id r
            && (is_dispatching r.status && not r.cancel_requested && is_attempted a no_turn db r))
          (λ r. record r { status = running; updated_at = now })
    if not (started == 1) then accept_late a turn_id now else (do
      bound ← turn_attempt a turn_id now
      when (not (bound == 1)) (throw turn_binding_failed)
      append_execution_attempt_event js scope (attempt_event a accepted (some turn_id) none now)
      pure true)

  unfoldable pub mark_backend_running : Attempt → String → ℕ → M (Option StoredJob)
  unfolding running_transaction
  mark_backend_running a turn_id now = do
    done ← transaction (running_transaction a turn_id now)
    require_if js scope a.job_id done
