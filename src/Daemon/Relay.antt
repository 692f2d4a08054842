-- ===== src/Daemon/Relay.antt =====
-- src/daemon.ts: the handlers of the relay client, and the unsent or lost cancel, up to their `await`.
use Prim.Native.String.{◌++◌}
use livis_chatgpt_bridge.Prelude.{Bool, not, ◌&&◌, Option, none, some, String, if◌then◌else◌}
use livis_chatgpt_bridge.Types.{
  ExecutionBackendKind, hermes, codex, claude, StoredJob, StoredBackendSession, IncomingRelayJob,
  backend_name, is_hermes, is_cancelling, is_received, is_waiting,
}
use livis_chatgpt_bridge.Protocol.Json.{Text, Checked, valid, refused}
use livis_chatgpt_bridge.Protocol.Livis.{RelayEnvelope, parse_incoming_relay_job}
use livis_chatgpt_bridge.Store.Schema.{Runtime}
use livis_chatgpt_bridge.Store.Monad.{Result, ok, err, job_conflict}
use livis_chatgpt_bridge.Store.Lists.{is_backend}
use livis_chatgpt_bridge.Store.Intents.{request_cancel}
use livis_chatgpt_bridge.Store.Jobs.{ingest, mark_acked, reject}
use livis_chatgpt_bridge.Store.Recovery.{mark_cancel_unknown}
use livis_chatgpt_bridge.Store.Sessions.Bind.{get_backend_session}
use livis_chatgpt_bridge.Store.Sessions.Turns.{finish_unsent_backend_cancellation}
use livis_chatgpt_bridge.Store.Sessions.Endings.{mark_backend_cancel_unknown}
use livis_chatgpt_bridge.Daemon.State.{
  Config, Moment, D, ◌>>=◌, ◌>>◌, pure, throw, read, perform, await, call, guard, when, notify,
  cancelling, cancels, notifies, is_node_authorized, is_upstream_proof_expired, block_for_upstream,
  is_stopping, proof_expired, is_blocked, other_backend, bad_message, store_error, done,
}
use livis_chatgpt_bridge.Daemon.Dispatch.{
  upstream_proof_expired_reason, attempt_of, is_some, dispatch_pending,
}

abbrev pub undelivered_reason : ExecutionBackendKind → String
undelivered_reason hermes = "cancel could not be delivered to connector"
undelivered_reason codex = "cancel could not be delivered to codex native backend"
undelivered_reason claude = "cancel could not be delivered to claude native backend"

abbrev pub cancel_failed_reason : String → String
cancel_failed_reason message = "cancel 请求异常：" ++ message

module _ (js : Runtime) (scope : String) (g : Config) (m : Moment) where
  -- What `onRelayIncoming` does with the job as the store holds it.
  unfoldable pub route : StoredJob → D (Unit {0})
  unfolding ◌>>=◌ ◌>>◌ call perform dispatch_pending
  route job =
      if not (is_node_authorized g job.input.from_node_id) && is_waiting job.status
      then (call (
            reject js scope job.input.job_id (g.serialize_result g.unauthorized_message)
              "node not authorized" m.now)
          >> perform notifies)
      else dispatch_pending js scope g m notify

  -- Received becomes Acked.
  unfoldable pub acknowledge_job : StoredJob → D StoredJob
  unfolding pure call
  acknowledge_job job =
      if is_received job.status then call (mark_acked js scope job.input.job_id m.now) else pure job

  -- The outcome of `ingest`: a conflict of contents keeps the first job and ends the handler.
  unfoldable pub ingested : Result (Bool × StoredJob) → D (Unit {0})
  unfolding ◌>>=◌ pure throw acknowledge_job route
  ingested (ok (inserted, job)) = acknowledge_job job >>= route
  ingested (err job_conflict) = pure tt
  ingested (err e) = throw (store_error e)

  unfoldable pub call_ingest : IncomingRelayJob → D (Result (Bool × StoredJob))
  call_ingest input c =
      let r = ingest js scope input g.session_key g.backend m.now c.db in
      (done r.0, record c { db = r.1 })

  unfoldable pub accept_message : Checked IncomingRelayJob → D (Unit {0})
  unfolding ◌>>=◌ throw call_ingest ingested
  accept_message (refused e) = throw (bad_message e)
  accept_message (valid input) = call_ingest input >>= ingested

  unfoldable pub unless_blocked : Option String → D (Unit {0}) → D (Unit {0})
  unfolding ◌>>◌ throw block_for_upstream
  unless_blocked none k = k
  unless_blocked (some reason) k = block_for_upstream reason >> throw is_blocked

  unfoldable pub on_relay_incoming : Text → RelayEnvelope → D (Unit {0})
  unfolding ◌>>=◌ ◌>>◌ read guard when throw block_for_upstream unless_blocked accept_message
  on_relay_incoming text envelope = do
    stopping ← read λ c. c.stopping
    guard (not stopping) is_stopping
    expired ← read (is_upstream_proof_expired m.now)
    when expired (do block_for_upstream upstream_proof_expired_reason; throw proof_expired)
    blocked ← read λ c. c.upstream_blocked
    unless_blocked blocked
        (accept_message (parse_incoming_relay_job text envelope g.max_input_chars m.now))

  -- A cancel that the store has recorded is passed to the backend that runs the job.
  unfoldable pub pass_cancel : Option StoredJob → D (Unit {0})
  unfolding ◌>>◌ pure guard perform await is_some
  pass_cancel none = pure tt
  pass_cancel (some job) =
      if is_cancelling job.status && is_some job.lease_id
      then (guard (is_backend job.target_backend g.backend) other_backend
          >> perform (cancels job)
          >> await (cancelling job))
      else pure tt

  unfoldable pub on_relay_cancel : String → D (Unit {0})
  unfolding ◌>>=◌ call pass_cancel
  on_relay_cancel job_id = call (request_cancel scope job_id m.now) >>= pass_cancel

  abbrev pub turn_of : Option StoredBackendSession → Option String
  turn_of none = none
  turn_of (some s) = s.active_turn_id

  unfoldable pub mark_unknown_leased : Option String → StoredJob → String → D (Unit {0})
  unfolding ◌>>=◌ ◌>>◌ pure call read
  mark_unknown_leased none job reason = pure tt
  mark_unknown_leased (some lease_id) job reason =
      if is_hermes g.backend
      then (call (mark_cancel_unknown js scope job.input.job_id lease_id reason m.now) >> pure tt)
      else (read (λ c. get_backend_session js scope (backend_name g.backend) job.session_key c.db)
          >>= λ session.
              call (
                mark_backend_cancel_unknown js scope (attempt_of g.backend lease_id job)
                  (turn_of session) reason m.now)
              >> pure tt)

  unfoldable pub mark_cancellation_unknown : StoredJob → String → D (Unit {0})
  unfolding mark_unknown_leased
  mark_cancellation_unknown job reason = mark_unknown_leased job.lease_id job reason

  -- A cancel that was not sent: the attempt of a native backend may end here.
  unfoldable pub cancel_unsent_leased : Option String → StoredJob → D (Unit {0})
  unfolding ◌>>=◌ pure call mark_cancellation_unknown
  cancel_unsent_leased none job = pure tt
  cancel_unsent_leased (some lease_id) job =
      if is_hermes g.backend
      then mark_cancellation_unknown job (undelivered_reason g.backend)
      else (call
            (finish_unsent_backend_cancellation js scope (attempt_of g.backend lease_id job) m.now)
          >>= λ ended.
              if is_some ended
              then pure tt
              else mark_cancellation_unknown job (undelivered_reason g.backend))
