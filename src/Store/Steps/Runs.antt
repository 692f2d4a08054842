-- ===== src/Store/Steps/Runs.antt =====
-- Histories of the job store of src/state/store.ts as sequences of writes of the abstract store.
use livis_chatgpt_bridge.Prelude.{ℕ, List, [], ◌∷◌, String}
use livis_chatgpt_bridge.Store.Schema.{Database, Runtime}
use livis_chatgpt_bridge.Store.Monad.Moves.{moved}
use livis_chatgpt_bridge.Store.Commands.{
  Command, ingests, acks, claims, unsends, runs, succeeds, fails, rejects, delivers, resets,
  undelivers, confirms, backs_off, cancels, loses_cancel, settles_cancel, disconnects, restarts,
  quarantines, releases, ensures, creates_opaque, binds_thread, checkpoints, backend_claims,
  backend_unsends, backend_settles, backend_runs, backend_succeeds, backend_fails, credential_fails,
  backend_loses_cancel, backend_interrupts, backend_disconnects, releases_backend,
  releases_recovery, step, history,
}
use livis_chatgpt_bridge.Store.Steps.{Write, Writes, here, next}
use livis_chatgpt_bridge.Store.Steps.Refinement.{Writes-trans, cancel-Writes}
use livis_chatgpt_bridge.Store.Steps.Refinement.Jobs.{
  ingest-Writes, mark_acked-Writes, claim-Writes, unsend-Writes, mark_running-Writes,
  succeed-Writes, fail-Writes, reject-Writes,
}
use livis_chatgpt_bridge.Store.Steps.Refinement.Delivery.{
  start-Writes, reset_outbox-Writes, undeliver-Writes, confirm-Writes, back_off-Writes,
}
use livis_chatgpt_bridge.Store.Steps.Refinement.Recovery.{
  lose_cancel-Writes, settle-Writes, disconnect-Writes, recover-Writes, quarantine-Writes,
  release-Writes,
}
use livis_chatgpt_bridge.Store.Steps.Refinement.Sessions.{
  ensure-Writes, create-Writes, bind-Writes, checkpoint-Writes, release_recovery-Writes,
  receipt-Writes,
}
use livis_chatgpt_bridge.Store.Steps.Refinement.Turns.{
  backend_claim-Writes, backend_unsend-Writes, backend_settle-Writes, backend_run-Writes,
  backend_succeed-Writes, backend_fail-Writes, credential_fail-Writes, backend_lose_cancel-Writes,
  backend_interrupt-Writes, backend_disconnect-Writes,
}

module _ (js : Runtime) (scope : String) where
  -- Every call of the store, whatever the database, its arguments and its outcome (errors
  -- included), leaves a database that a sequence of writes of the abstract store leads to.
  pub step-Writes : (now : ℕ) (c : Command) (db : Database) → Writes db (step js scope now c db)
  unfolding step
  step-Writes now (ingests input session target) =
      moved (ingest-Writes js scope input session target now)
  step-Writes now (acks job) = moved (mark_acked-Writes js scope job now)
  step-Writes now (claims job connector lease) =
      moved (claim-Writes js scope job connector lease now)
  step-Writes now (unsends job lease) = moved (unsend-Writes js scope job lease now)
  step-Writes now (runs job connector lease) =
      moved (mark_running-Writes js scope job connector lease now)
  step-Writes now (succeeds job lease result) = moved (succeed-Writes js scope job lease result now)
  step-Writes now (fails job lease result error) =
      moved (fail-Writes js scope job lease result error now)
  step-Writes now (rejects job result reason) = moved (reject-Writes js scope job result reason now)
  step-Writes now (delivers job message retry) = moved (start-Writes scope job message retry now)
  step-Writes now (resets job) = moved (reset_outbox-Writes scope job now)
  step-Writes now (undelivers job message retry) =
      moved (undeliver-Writes scope job message retry now)
  step-Writes now (confirms job) = moved (confirm-Writes scope job now)
  step-Writes now (backs_off job later) = moved (back_off-Writes scope job later now)
  step-Writes now (cancels job) = moved (cancel-Writes scope job now)
  step-Writes now (loses_cancel job lease reason) =
      moved (lose_cancel-Writes js scope job lease reason now)
  step-Writes now (settles_cancel job lease) = moved (settle-Writes js scope job lease now)
  step-Writes now (disconnects connector) = moved (disconnect-Writes js scope connector now)
  step-Writes now restarts = moved (recover-Writes js scope now)
  step-Writes now (quarantines session reason) =
      moved (quarantine-Writes js scope session reason now)
  step-Writes now (releases session) = moved (release-Writes js scope session)
  step-Writes now (ensures input) = moved (ensure-Writes js scope input now)
  step-Writes now (creates_opaque input) = moved (create-Writes js scope input now)
  step-Writes now (binds_thread backend session thread) =
      moved (bind-Writes js scope backend session thread now)
  step-Writes now (checkpoints input) = moved (checkpoint-Writes js scope input now)
  step-Writes now (backend_claims job backend connector lease) =
      moved (backend_claim-Writes js scope job backend connector lease now)
  step-Writes now (backend_unsends a) = moved (backend_unsend-Writes js scope a now)
  step-Writes now (backend_settles a) = moved (backend_settle-Writes js scope a now)
  step-Writes now (backend_runs a turn) = moved (backend_run-Writes js scope a turn now)
  step-Writes now (backend_succeeds a turn result) =
      moved (backend_succeed-Writes js scope a turn result now)
  step-Writes now (backend_fails a turn result error) =
      moved (backend_fail-Writes js scope a turn result error now)
  step-Writes now (credential_fails a turn result error reason) =
      moved (credential_fail-Writes js scope a turn result error reason now)
  step-Writes now (backend_loses_cancel a turn reason) =
      moved (backend_lose_cancel-Writes js scope a turn reason now)
  step-Writes now (backend_interrupts a turn reason) =
      moved (backend_interrupt-Writes js scope a turn reason now)
  step-Writes now (backend_disconnects backend connector reason) =
      moved (backend_disconnect-Writes js scope backend connector reason now)
  step-Writes now (releases_backend backend session) =
      moved (release_recovery-Writes scope backend session)
  step-Writes now (releases_recovery session) = moved (receipt-Writes scope session)

  pub history-Writes :
      (cs : List (ℕ × Command)) (db : Database) → Writes db (history js scope cs db)
  unfolding history
  history-Writes [] db = here
  history-Writes ((now, c) ∷ cs) db =
      Writes-trans _ _ _ (step-Writes now c db) (history-Writes cs (step js scope now c db))

-- A property that each write keeps is kept by sequences of them.
pub Writes-keep :
    (P : Database → Type 0)
    → ((a b : Database) → Write a b → P a → P b)
    → (db d : Database) → Writes db d
    → P db
    → P d
Writes-keep P keep db d here h = h
Writes-keep P keep db d (next {mid = m} ws w) h = keep m d w (Writes-keep P keep db m ws h)
