-- ===== src/Daemon/Results.antt =====
-- src/daemon.ts: the handlers of results and failures of the execution backend, up to their `await`.
use livis_chatgpt_bridge.Prelude.{
  Bool, true, false, not, ◌&&◌, Option, none, some, String, str_eq, if◌then◌else◌, ltb,
}
use livis_chatgpt_bridge.Types.{
  ExecutionBackendKind, hermes, codex, claude, StoredJob, StoredOutbox, is_hermes,
}
use livis_chatgpt_bridge.Store.Schema.{Runtime}
use livis_chatgpt_bridge.Store.Reads.{get}
use livis_chatgpt_bridge.Store.Lists.{is_backend}
use livis_chatgpt_bridge.Store.Jobs.{finish_success, finish_failure}
use livis_chatgpt_bridge.Store.Sessions.Endings.{
  finish_backend_success, finish_backend_failure, finish_backend_credential_failure,
}
use livis_chatgpt_bridge.Daemon.State.{
  Config, Moment, D, ◌>>=◌, ◌>>◌, throw, read, perform, await, call, guard, when, finish,
  before_dispatch, deferred, acknowledges, rejects, notifies, stale_lease, cancel_won, not_settled,
  credential_of_claude, DaemonError,
}
use livis_chatgpt_bridge.Daemon.Dispatch.{is_some, dispatch_pending}
use livis_chatgpt_bridge.Daemon.Execution.{
  JobEvent, require_durable_turn, leased_by, assert_configured_backend,
}

abbrev pub codex_credential_rejected_reason : String
codex_credential_rejected_reason = "Codex provider 拒绝当前隔离凭据；禁止继续发送 turn，需修复专用凭据并人工 release session"

abbrev pub failure_message : ExecutionBackendKind → String
failure_message hermes = "Hermes 暂时无法完成该请求，请稍后重试。"
failure_message codex = "Codex 暂时无法完成该请求，请稍后重试。"
failure_message claude = "Claude Code 暂时无法完成该请求，请稍后重试。"

abbrev pub too_long_message : ExecutionBackendKind → String
too_long_message codex = "Codex 输出超过 daemon 上限，已拒绝返回。"
too_long_message _ = "Claude 输出超过 daemon 上限，已拒绝返回。"

abbrev pub too_long_error : ExecutionBackendKind → String
too_long_error codex = "Codex output exceeded daemon maxOutputChars"
too_long_error _ = "Claude output exceeded daemon maxOutputChars"

-- `job.outbox?.resultJson === resultJson`.
unfoldable pub has_result : String → Option StoredOutbox → Bool
has_result result none = false
has_result result (some o) = str_eq o.result_json result

module _ (js : Runtime) (scope : String) (g : Config) (m : Moment) where
  -- A native backend's result or failure is settled: the relay is told, and a dispatch follows later,
  -- after that call and a timer, whose waits are one here.
  unfoldable pub settle : Bool → Option StoredJob → D (Unit {0})
  unfolding ◌>>◌ guard perform await when is_some
  settle dispatch_later job = do
    guard (is_some job) not_settled
    perform notifies
    when dispatch_later (await deferred)

  -- Output that is too long.
  unfoldable pub refuse_output : JobEvent → D (Unit {0})
  unfolding ◌>>=◌ perform require_durable_turn call settle
  refuse_output e =
      if is_hermes e.kind
      then perform (rejects e.job_id "output_too_large")
      else (require_durable_turn e >>= λ t.
          call (
            finish_backend_failure js scope t.0 t.1 (g.serialize_result (too_long_message e.kind))
              (too_long_error e.kind) m.now)
          >>= settle true)

  -- A report of a lease that is not the job's, or of a job whose cancel has come first.
  unfoldable pub refuse_report : JobEvent → String → DaemonError → D (Unit {0})
  unfolding perform throw
  refuse_report e code error =
      if is_hermes e.kind then perform (rejects e.job_id code) else throw error

  -- The result is acknowledged to the connector only if it is the one that the store holds.
  unfoldable pub acknowledge_held : JobEvent → String → StoredJob → D (Unit {0})
  unfolding ◌>>◌ perform await has_result
  acknowledge_held e result job =
      if has_result result job.outbox
      then (perform (acknowledges e.job_id e.lease_id) >> perform notifies >> await before_dispatch)
      else perform (rejects e.job_id "result_conflict")

  unfoldable pub store_result : JobEvent → String → D (Unit {0})
  unfolding ◌>>=◌ call acknowledge_held require_durable_turn settle
  store_result e result =
      if is_hermes e.kind
      then (call (finish_success js scope e.job_id e.lease_id result m.now)
          >>= acknowledge_held e result)
      else (require_durable_turn e >>= λ t.
          call (finish_backend_success js scope t.0 t.1 result m.now) >>= settle true)

  unfoldable pub report_result : JobEvent → String → Option StoredJob → D (Unit {0})
  unfolding refuse_report store_result
  report_result e text none = refuse_report e "stale_lease" stale_lease
  report_result e text (some before) =
      if before.cancel_requested
      then refuse_report e "cancel_superseded" cancel_won
      else store_result e (g.serialize_result text)

  unfoldable pub on_execution_result : JobEvent → String → D (Unit {0})
  unfolding ◌>>=◌ ◌>>◌ assert_configured_backend refuse_output read report_result leased_by
  on_execution_result e text =
      assert_configured_backend js scope g m e.kind
      >> (if ltb g.max_output_chars (js.string_length text)
          then refuse_output e
          else (read (λ c. leased_by e.lease_id (get scope e.job_id c.db))
              >>= report_result e text))

  -- A failure of a hermes job: what is held of it is acknowledged.
  unfoldable pub acknowledge_failure : JobEvent → StoredJob → D (Unit {0})
  unfolding ◌>>◌ perform await is_some dispatch_pending
  acknowledge_failure e job =
      if is_some job.outbox
      then (perform (acknowledges e.job_id e.lease_id) >> perform notifies >> await before_dispatch)
      else dispatch_pending js scope g m finish

  abbrev pub credential_rejected : JobEvent → Bool → Bool
  credential_rejected e rejected = is_backend e.kind codex && rejected

  unfoldable pub store_failure : JobEvent → String → Bool → D (Unit {0})
  unfolding ◌>>=◌ call acknowledge_failure require_durable_turn settle
  store_failure e error rejected =
      let result = g.serialize_result (failure_message e.kind) in
      if is_hermes e.kind
      then (call (finish_failure js scope e.job_id e.lease_id result error m.now)
          >>= acknowledge_failure e)
      else (require_durable_turn e >>= λ t.
          call (
            if credential_rejected e rejected
            then finish_backend_credential_failure js scope t.0 t.1 result error
                codex_credential_rejected_reason m.now
            else finish_backend_failure js scope t.0 t.1 result error m.now)
          >>= settle (not rejected))

  unfoldable pub report_failure : JobEvent → String → Bool → Option StoredJob → D (Unit {0})
  unfolding refuse_report store_failure
  report_failure e error rejected none = refuse_report e "stale_lease" stale_lease
  report_failure e error rejected (some before) =
      if before.cancel_requested
      then refuse_report e "cancel_superseded" cancel_won
      else store_failure e error rejected

  -- `rejected`: the event's `sessionDisposition` is "credential_rejected".
  unfoldable pub on_execution_failed : JobEvent → String → Bool → D (Unit {0})
  unfolding ◌>>=◌ ◌>>◌ assert_configured_backend guard read report_failure leased_by
  on_execution_failed e error rejected = do
    assert_configured_backend js scope g m e.kind
    guard (not (is_backend e.kind claude && rejected)) credential_of_claude
    before ← read λ c. leased_by e.lease_id (get scope e.job_id c.db)
    report_failure e error rejected before
