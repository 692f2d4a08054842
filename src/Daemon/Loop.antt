-- ===== src/Daemon/Loop.antt =====
-- src/daemon.ts: the event loop, in which the handlers of Daemon/Relay and Daemon/Execution go on
-- after their `await`s in any order.
use livis_chatgpt_bridge.Prelude.{
  ℕ, zero, suc, Bool, true, false, List, [], ◌∷◌, ◌++◌, Option, none, String,
}
use livis_chatgpt_bridge.Types.{ExecutionBackendKind}
use livis_chatgpt_bridge.Protocol.Json.{Text}
use livis_chatgpt_bridge.Protocol.Livis.{RelayEnvelope}
use livis_chatgpt_bridge.Store.Schema.{Runtime, Database}
use livis_chatgpt_bridge.Store.Sessions.Release.{release_session_recovery}
use livis_chatgpt_bridge.Daemon.State.{
  Daemon, Config, Moment, D, ◌>>=◌, ◌>>◌, pure, throw, read, change, perform, call, finish,
  detached, Awaiting, submitting, notifying, cancelling, before_dispatch, deferred, blocking,
  unblocking, starting, block_for_upstream, relay_stopped, request_failed,
}
use livis_chatgpt_bridge.Daemon.Dispatch.{
  upstream_proof_expired_reason, go_on, reset_unsent_execution, dispatch_loop, dispatch_pending,
}
use livis_chatgpt_bridge.Daemon.Relay.{
  on_relay_incoming, on_relay_cancel, cancel_unsent_leased, mark_cancellation_unknown,
  cancel_failed_reason,
}
use livis_chatgpt_bridge.Daemon.Upstream.{
  started, start, unblock, recheck, recheck_busy, recheck_supported, recheck_unsupported,
  recheck_failed,
}
use livis_chatgpt_bridge.Daemon.Execution.{
  JobEvent, on_execution_ready, on_execution_accepted, on_execution_cancelled,
  on_execution_disconnected,
}
use livis_chatgpt_bridge.Daemon.Results.{on_execution_result, on_execution_failed}

-- What an `await` answers: `ExecutionSubmission`, or success; or an error with its message.
pub data Submission : Type 0 where
  submitted not_sent : Submission
  throws : String → Submission

module _ (js : Runtime) (scope : String) (g : Config) (m : Moment) where
  -- A handler goes on after its `await`.
  unfoldable pub carry_on : Awaiting → Submission → D (Unit {0})
  unfolding ◌>>=◌ ◌>>◌ pure throw read change perform go_on reset_unsent_execution dispatch_loop
      dispatch_pending cancel_unsent_leased mark_cancellation_unknown unblock started
  carry_on (submitting job rest after) submitted = dispatch_loop js scope g m rest after
  carry_on (submitting job rest after) not_sent =
      reset_unsent_execution js scope g m job >> go_on after
  carry_on (submitting job rest after) (throws e) = throw request_failed
  carry_on (notifying rest after) (throws e) = throw request_failed
  carry_on (notifying rest after) _ = dispatch_loop js scope g m rest after
  carry_on (cancelling job) submitted = pure tt
  carry_on (cancelling job) not_sent = cancel_unsent_leased js scope g m job.lease_id job
  carry_on (cancelling job) (throws e) =
      mark_cancellation_unknown js scope g m job (cancel_failed_reason e)
  carry_on before_dispatch (throws e) = throw request_failed
  carry_on before_dispatch _ = dispatch_pending js scope g m finish
  carry_on deferred (throws e) = pure tt
  carry_on deferred _ = dispatch_pending js scope g m finish
  carry_on (blocking after) (throws e) = throw request_failed
  carry_on (blocking after) _ = go_on after
  carry_on unblocking (throws e) = throw request_failed
  carry_on unblocking _ = unblock js scope g m
  carry_on starting (throws e) = throw request_failed
  carry_on starting _ = started js scope g m

  -- The wait at this place of the list ends.
  unfoldable pub answer_wait : ℕ → Submission → List Awaiting → List Awaiting → D (Unit {0})
  unfolding ◌>>◌ pure change carry_on
  answer_wait n reply before [] = pure tt
  answer_wait zero reply before (w ∷ after) =
      change (λ c. record c { waiting = before ++ after }) >> carry_on w reply
  answer_wait (suc n) reply before (w ∷ after) = answer_wait n reply (before ++ w ∷ []) after

pub data DaemonEvent : Type 0 where
  starts : DaemonEvent
  relay_incoming : RelayEnvelope → DaemonEvent
  relay_cancel : String → DaemonEvent
  relay_connected : DaemonEvent
  execution_ready : ExecutionBackendKind → DaemonEvent
  execution_accepted : JobEvent → DaemonEvent
  execution_result : JobEvent → String → DaemonEvent
  execution_failed : JobEvent → String → Bool → DaemonEvent
  execution_cancelled : JobEvent → Bool → DaemonEvent
  execution_disconnected : ExecutionBackendKind → String → Option String → DaemonEvent
  supported : ℕ → DaemonEvent
  unsupported rechecking_fails : String → DaemonEvent
  rechecks guard_busy : DaemonEvent
  proof_expires stops : DaemonEvent
  relay_stops : Bool → DaemonEvent
  answers : ℕ → Submission → DaemonEvent
  releases_quarantine : String → DaemonEvent

module _ (js : Runtime) (scope : String) (text : Text) (g : Config) where
  unfoldable pub handle : Moment → DaemonEvent → D (Unit {0})
  unfolding ◌>>=◌ ◌>>◌ pure read change call on_relay_incoming on_relay_cancel dispatch_pending
      on_execution_ready on_execution_accepted on_execution_result on_execution_failed
      on_execution_cancelled on_execution_disconnected recheck_supported recheck_unsupported recheck
      recheck_busy recheck_failed block_for_upstream relay_stopped answer_wait start
  handle m starts = start js scope g m
  handle m (relay_incoming envelope) = on_relay_incoming js scope g m text envelope
  handle m (relay_cancel job_id) = on_relay_cancel js scope g m job_id
  handle m relay_connected = dispatch_pending js scope g m detached
  handle m (execution_ready kind) = on_execution_ready js scope g m kind
  handle m (execution_accepted e) = on_execution_accepted js scope g m e
  handle m (execution_result e output) = on_execution_result js scope g m e output
  handle m (execution_failed e error rejected) = on_execution_failed js scope g m e error rejected
  handle m (execution_cancelled e not_started) = on_execution_cancelled js scope g m e not_started
  handle m (execution_disconnected kind id reason) =
      on_execution_disconnected js scope g m kind id reason
  handle m (supported expires_at) = recheck_supported js scope g m expires_at
  handle m (unsupported compatibility) = recheck_unsupported js scope g m compatibility
  handle m (rechecking_fails message) = recheck_failed js scope g m message
  handle m rechecks = recheck js scope g m
  handle m guard_busy = recheck_busy js scope g m
  handle m proof_expires = block_for_upstream upstream_proof_expired_reason
  handle m stops = change λ c. record c { stopping = true }
  handle m (relay_stops stopped) = relay_stopped stopped
  handle m (answers n reply) =
      read (λ c. c.waiting) >>= λ ws. answer_wait js scope g m n reply [] ws
  handle m (releases_quarantine session) = call (release_session_recovery scope session) >> pure tt

  unfoldable pub run_daemon : List (Moment × DaemonEvent) → Daemon → Daemon
  unfolding handle
  run_daemon [] c = c
  run_daemon ((m, e) ∷ es) c = run_daemon es (handle m e c).1

-- A daemon that starts on this database.
abbrev pub new_daemon : Database → ℕ → Daemon
new_daemon db expires_at = record {
  db = db;
  stopping = false;
  upstream_proof_expires_at = expires_at;
  upstream_blocked = none;
  upstream_relay_stopped = false;
  upstream_blocking = false;
  leases = 0;
  waiting = [];
  effects = [];
}
