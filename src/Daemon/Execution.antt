-- ===== src/Daemon/Execution.antt =====
-- src/daemon.ts: the handlers of the execution backend, up to their `await`.
use livis_chatgpt_bridge.Prelude.{
  ℕ, Bool, not, ◌&&◌, Option, none, some, String, str_eq, if◌then◌else◌, ltb, holds,
}
use livis_chatgpt_bridge.Types.{
  ExecutionBackendKind, hermes, codex, claude, StoredJob, backend_name, is_hermes, is_cancelling,
  is_running,
}
use livis_chatgpt_bridge.Store.Schema.{Runtime}
use livis_chatgpt_bridge.Store.Reads.{get}
use livis_chatgpt_bridge.Store.Lists.{is_backend}
use livis_chatgpt_bridge.Store.Jobs.{mark_running}
use livis_chatgpt_bridge.Store.Recovery.{
  mark_cancel_unknown, finish_hermes_cancellation_not_started, mark_connector_disconnected,
}
use livis_chatgpt_bridge.Store.Sessions.Input.{max_safe_integer}
use livis_chatgpt_bridge.Store.Sessions.Attempt.{Attempt}
use livis_chatgpt_bridge.Store.Sessions.Turns.{mark_backend_running}
use livis_chatgpt_bridge.Store.Sessions.Endings.{mark_backend_cancel_unknown}
use livis_chatgpt_bridge.Store.Sessions.Disconnect.{mark_backend_disconnected}
use livis_chatgpt_bridge.Daemon.State.{
  Config, Moment, D, ◌>>=◌, ◌>>◌, pure, throw, read, perform, call, guard, finish, rejects,
  other_backend, no_generation, no_turn, stale_attempt, not_settled,
}
use livis_chatgpt_bridge.Daemon.Dispatch.{is_some, dispatch_pending}

-- `ExecutionJobEvent` of src/backends/execution-backend.ts.
pub record JobEvent : Type 0 where
  pub kind : ExecutionBackendKind
  pub execution_id : String
  pub job_id : String
  pub lease_id : String
  pub run_generation : Option ℕ
  pub turn_id : Option String

abbrev pub lost_reason : Option String → ExecutionBackendKind → String
lost_reason (some reason) kind = reason
lost_reason none hermes = "hermes native backend disconnected during active execution"
lost_reason none codex = "codex native backend disconnected during active execution"
lost_reason none claude = "claude native backend disconnected during active execution"

abbrev pub cancel_reason : ExecutionBackendKind → String
cancel_reason codex = "Codex cancel 已接受，但无法证明远端执行已经停止"
cancel_reason _ = "Claude Code cancel 已接受，但无法证明远端执行已经停止"

unfoldable pub check_generation : Option ℕ → D ℕ
unfolding pure throw
check_generation none = throw no_generation
check_generation (some n) =
    if ltb 0 n && not (ltb max_safe_integer n) then pure n else throw no_generation

unfoldable pub check_turn : Option String → D String
unfolding pure throw
check_turn none = throw no_turn
check_turn (some t) = if str_eq t "" then throw no_turn else pure t

unfoldable pub require_durable_run_generation : JobEvent → D ℕ
unfolding check_generation
require_durable_run_generation e = check_generation e.run_generation

abbrev pub attempt_at : JobEvent → ℕ → Attempt
attempt_at e n = record {
  job_id = e.job_id;
  backend = backend_name e.kind;
  lease_id = e.lease_id;
  run_generation = n;
}

-- `requireDurableTurn`, as the attempt and the turn.
unfoldable pub require_durable_turn : JobEvent → D (Attempt × String)
unfolding ◌>>=◌ pure require_durable_run_generation check_turn
require_durable_turn e = do
  n ← require_durable_run_generation e
  turn ← check_turn e.turn_id
  pure (attempt_at e n, turn)

-- `before.leaseId !== event.leaseId`, and what is known of the job otherwise.
unfoldable pub leased_by : String → Option StoredJob → Option StoredJob
leased_by lease_id none = none
leased_by lease_id (some job) = if holds job.lease_id lease_id then some job else none

module _ (js : Runtime) (scope : String) (g : Config) (m : Moment) where
  unfoldable pub assert_configured_backend : ExecutionBackendKind → D (Unit {0})
  unfolding guard
  assert_configured_backend kind = guard (is_backend kind g.backend) other_backend

  unfoldable pub on_execution_ready : ExecutionBackendKind → D (Unit {0})
  unfolding ◌>>◌ assert_configured_backend dispatch_pending
  on_execution_ready kind = do assert_configured_backend kind; dispatch_pending js scope g m finish

  unfoldable pub accept_hermes : JobEvent → StoredJob → D (Unit {0})
  unfolding pure perform
  accept_hermes e job =
      if is_running job.status && holds job.lease_id e.lease_id
      then pure tt
      else perform (rejects e.job_id "stale_lease")

  unfoldable pub on_execution_accepted : JobEvent → D (Unit {0})
  unfolding ◌>>=◌ ◌>>◌ assert_configured_backend require_durable_turn call guard accept_hermes
      is_some
  on_execution_accepted e =
      assert_configured_backend e.kind
      >> (if is_hermes e.kind
          then (call (mark_running js scope e.job_id e.execution_id e.lease_id m.now)
              >>= accept_hermes e)
          else (require_durable_turn e >>= λ t.
              call (mark_backend_running js scope t.0 t.1 m.now) >>= λ job.
              guard (is_some job) stale_attempt))

  -- A job that was never started is cancelled; `before` is the job as it was.
  unfoldable pub settle_unstarted : StoredJob → Option StoredJob → D (Unit {0})
  unfolding guard dispatch_pending
  settle_unstarted before none = guard (not (is_cancelling before.status)) not_settled
  settle_unstarted before (some job) = dispatch_pending js scope g m finish

  unfoldable pub report_cancelled : JobEvent → Bool → Option StoredJob → D (Unit {0})
  unfolding ◌>>=◌ ◌>>◌ pure call require_durable_run_generation settle_unstarted
  report_cancelled e not_started none = pure tt
  report_cancelled e not_started (some before) =
      if not (is_hermes e.kind)
      then (require_durable_run_generation e >>= λ n.
          call (
            mark_backend_cancel_unknown js scope (attempt_at e n) e.turn_id (cancel_reason e.kind)
              m.now)
          >> pure tt)
      else (if not_started
          then (call (finish_hermes_cancellation_not_started js scope e.job_id e.lease_id m.now)
              >>= settle_unstarted before)
          else (call (
                mark_cancel_unknown js scope e.job_id e.lease_id
                  "Hermes /stop 已发出，但一期无法证明所有工具线程已经退出" m.now)
              >> pure tt))

  unfoldable pub on_execution_cancelled : JobEvent → Bool → D (Unit {0})
  unfolding ◌>>=◌ ◌>>◌ assert_configured_backend read report_cancelled leased_by
  on_execution_cancelled e not_started = do
    assert_configured_backend e.kind
    before ← read λ c. leased_by e.lease_id (get scope e.job_id c.db)
    report_cancelled e not_started before

  unfoldable pub on_execution_disconnected :
      ExecutionBackendKind → String → Option String → D (Unit {0})
  unfolding ◌>>=◌ ◌>>◌ assert_configured_backend pure call
  on_execution_disconnected kind execution_id reason =
      assert_configured_backend kind
      >> (if is_hermes kind
          then (call (mark_connector_disconnected js scope execution_id m.now) >> pure tt)
          else (call (
                mark_backend_disconnected js scope (backend_name kind) execution_id
                  (lost_reason reason kind) m.now)
              >> pure tt))
