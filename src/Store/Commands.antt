-- ===== src/Store/Commands.antt =====
-- The calls on the job store of src/state/store.ts that the daemon and the relay client make, as
-- data: a history of the store is a list of timed commands.
use livis_chatgpt_bridge.Prelude.{ℕ, Bool, List, [], ◌∷◌, Option, String}
use livis_chatgpt_bridge.Types.{ExecutionBackendKind, IncomingRelayJob}
use livis_chatgpt_bridge.Store.Schema.{Database, Runtime}
use livis_chatgpt_bridge.Store.Intents.{request_cancel}
use livis_chatgpt_bridge.Store.Jobs.{
  ingest, mark_acked, claim_for_dispatch, reset_unsent_dispatch, mark_running, finish_success,
  finish_failure, reject,
}
use livis_chatgpt_bridge.Store.Outbox.{
  start_result_delivery, reset_outbox_pending, reset_outbox_pending_after_send_failure,
  mark_outbox_delivered, mark_outbox_ack_failed,
}
use livis_chatgpt_bridge.Store.Recovery.{
  mark_cancel_unknown, finish_hermes_cancellation_not_started, mark_connector_disconnected,
  recover_after_restart, quarantine_session, release_session_quarantine,
}
use livis_chatgpt_bridge.Store.Sessions.Input.{
  EnsureBackendSessionInput, CreateLocalOpaqueBackendSessionInput, CheckpointBackendThreadTailInput,
}
use livis_chatgpt_bridge.Store.Sessions.Attempt.{Attempt}
use livis_chatgpt_bridge.Store.Sessions.Bind.{
  ensure_backend_session, create_local_opaque_backend_session, bind_backend_thread,
  checkpoint_backend_thread_tail,
}
use livis_chatgpt_bridge.Store.Sessions.Turns.{
  claim_for_backend_dispatch, reset_unsent_backend_dispatch, finish_unsent_backend_cancellation,
  mark_backend_running,
}
use livis_chatgpt_bridge.Store.Sessions.Endings.{
  finish_backend_success, finish_backend_failure, finish_backend_credential_failure,
  mark_backend_cancel_unknown, mark_backend_interrupted,
}
use livis_chatgpt_bridge.Store.Sessions.Disconnect.{mark_backend_disconnected}
use livis_chatgpt_bridge.Store.Sessions.Release.{
  release_backend_session_recovery, release_session_recovery_with_receipt,
}

pub data Command : Type 0 where
  ingests : IncomingRelayJob → String → ExecutionBackendKind → Command
  acks : String → Command
  claims : String → String → String → Command
  unsends : String → String → Command
  runs : String → String → String → Command
  succeeds : String → String → String → Command
  fails : String → String → String → String → Command
  rejects : String → String → String → Command
  delivers : String → String → Bool → Command
  resets : String → Command
  undelivers : String → String → Bool → Command
  confirms : String → Command
  backs_off : String → ℕ → Command
  cancels : String → Command
  loses_cancel : String → String → String → Command
  settles_cancel : String → String → Command
  disconnects : String → Command
  restarts : Command
  quarantines : String → String → Command
  releases : String → Command
  ensures : EnsureBackendSessionInput → Command
  creates_opaque : CreateLocalOpaqueBackendSessionInput → Command
  binds_thread : String → String → String → Command
  checkpoints : CheckpointBackendThreadTailInput → Command
  backend_claims : String → String → String → String → Command
  backend_unsends : Attempt → Command
  backend_settles : Attempt → Command
  backend_runs : Attempt → String → Command
  backend_succeeds : Attempt → String → String → Command
  backend_fails : Attempt → String → String → String → Command
  credential_fails : Attempt → String → String → String → String → Command
  backend_loses_cancel : Attempt → Option String → String → Command
  backend_interrupts : Attempt → Option String → String → Command
  backend_disconnects : String → String → String → Command
  releases_backend : String → String → Command
  releases_recovery : String → Command

module _ (js : Runtime) (scope : String) where
  unfoldable pub step : ℕ → Command → Database → Database
  step now (ingests input session target) db = (ingest js scope input session target now db).1
  step now (acks job) db = (mark_acked js scope job now db).1
  step now (claims job connector lease) db =
      (claim_for_dispatch js scope job connector lease now db).1
  step now (unsends job lease) db = (reset_unsent_dispatch js scope job lease now db).1
  step now (runs job connector lease) db = (mark_running js scope job connector lease now db).1
  step now (succeeds job lease result) db = (finish_success js scope job lease result now db).1
  step now (fails job lease result error) db =
      (finish_failure js scope job lease result error now db).1
  step now (rejects job result reason) db = (reject js scope job result reason now db).1
  step now (delivers job message retry) db =
      (start_result_delivery scope job message retry now db).1
  step now (resets job) db = (reset_outbox_pending scope job now db).1
  step now (undelivers job message retry) db =
      (reset_outbox_pending_after_send_failure scope job message retry now db).1
  step now (confirms job) db = (mark_outbox_delivered scope job now db).1
  step now (backs_off job next) db = (mark_outbox_ack_failed scope job next now db).1
  step now (cancels job) db = (request_cancel scope job now db).1
  step now (loses_cancel job lease reason) db =
      (mark_cancel_unknown js scope job lease reason now db).1
  step now (settles_cancel job lease) db =
      (finish_hermes_cancellation_not_started js scope job lease now db).1
  step now (disconnects connector) db = (mark_connector_disconnected js scope connector now db).1
  step now restarts db = (recover_after_restart js scope now db).1
  step now (quarantines session reason) db = (quarantine_session js scope session reason now db).1
  step now (releases session) db = (release_session_quarantine js scope session db).1
  step now (ensures input) db = (ensure_backend_session js scope input now db).1
  step now (creates_opaque input) db = (create_local_opaque_backend_session js scope input now db).1
  step now (binds_thread backend session thread) db =
      (bind_backend_thread js scope backend session thread now db).1
  step now (checkpoints input) db = (checkpoint_backend_thread_tail js scope input now db).1
  step now (backend_claims job backend connector lease) db =
      (claim_for_backend_dispatch js scope job backend connector lease now db).1
  step now (backend_unsends a) db = (reset_unsent_backend_dispatch js scope a now db).1
  step now (backend_settles a) db = (finish_unsent_backend_cancellation js scope a now db).1
  step now (backend_runs a turn) db = (mark_backend_running js scope a turn now db).1
  step now (backend_succeeds a turn result) db =
      (finish_backend_success js scope a turn result now db).1
  step now (backend_fails a turn result error) db =
      (finish_backend_failure js scope a turn result error now db).1
  step now (credential_fails a turn result error reason) db =
      (finish_backend_credential_failure js scope a turn result error reason now db).1
  step now (backend_loses_cancel a turn reason) db =
      (mark_backend_cancel_unknown js scope a turn reason now db).1
  step now (backend_interrupts a turn reason) db =
      (mark_backend_interrupted js scope a turn reason now db).1
  step now (backend_disconnects backend connector reason) db =
      (mark_backend_disconnected js scope backend connector reason now db).1
  step now (releases_backend backend session) db =
      (release_backend_session_recovery scope backend session db).1
  step now (releases_recovery session) db =
      (release_session_recovery_with_receipt scope session db).1

  unfoldable pub history : List (ℕ × Command) → Database → Database
  history [] db = db
  history ((now, c) ∷ cs) db = history cs (step now c db)

unfoldable pub empty : Database
empty = record {
  jobs = [];
  outbox = [];
  outbox_delivery_attempts = [];
  session_quarantine = [];
  pending_cancels = [];
  backend_sessions = [];
  execution_attempt_events = [];
}
