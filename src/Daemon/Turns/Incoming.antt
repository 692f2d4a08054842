-- ===== src/Daemon/Turns/Incoming.antt =====
-- The turns of the relay handlers of src/daemon.ts keep a relation that their parts keep.
use livis_chatgpt_bridge.Prelude.{refl, Bool, Option, none, some, String}
use livis_chatgpt_bridge.Types.{StoredJob, IncomingRelayJob}
use livis_chatgpt_bridge.Protocol.Json.{Text, Checked, valid, refused}
use livis_chatgpt_bridge.Protocol.Livis.{RelayEnvelope, parse_incoming_relay_job}
use livis_chatgpt_bridge.Store.Schema.{Runtime}
use livis_chatgpt_bridge.Store.Monad.{Result, ok, err, job_conflict}
use livis_chatgpt_bridge.Store.Commands.{ingests, step}
use livis_chatgpt_bridge.Daemon.State.{
  Config, Moment, D, is_upstream_proof_expired, cancels, notifies, proof_expired,
}
use livis_chatgpt_bridge.Daemon.Dispatch.{upstream_proof_expired_reason}
use livis_chatgpt_bridge.Daemon.Relay.{
  route, acknowledge_job, ingested, call_ingest, accept_message, unless_blocked, on_relay_incoming,
  pass_cancel, on_relay_cancel, mark_unknown_leased, mark_cancellation_unknown,
  cancel_unsent_leased,
}
use livis_chatgpt_bridge.Daemon.Commands.{command_rules}
use livis_chatgpt_bridge.Daemon.Frames.{
  Frame, Keeps, keeps, bind-Keeps, then-Keeps, pure-Keeps, throw-Keeps, read-Keeps, emit-Keeps,
  require-Keeps, when-Keeps, keeps_rules,
}
use livis_chatgpt_bridge.Daemon.Turns.{block-Keeps, dispatch-Keeps}

module _ {js : Runtime} {scope : String} (F : Frame js scope) (g : Config) (m : Moment)
    (allowed : F.Allowed m) where
  route-Keeps : (job : StoredJob) → Keeps F (route js scope g m job)
  unfolding route
  route-Keeps job = search (keeps_rules, command_rules, dispatch-Keeps, emit-Keeps notifies refl)

  acknowledge-Keeps : (job : StoredJob) → Keeps F (acknowledge_job js scope g m job)
  unfolding acknowledge_job
  acknowledge-Keeps job = search (keeps_rules, command_rules)

  ingested-Keeps : (r : Result (Bool × StoredJob)) → Keeps F (ingested js scope g m r)
  unfolding ingested
  ingested-Keeps (ok (inserted, job)) = bind-Keeps (acknowledge-Keeps job) route-Keeps
  ingested-Keeps (err job_conflict) = pure-Keeps tt
  ingested-Keeps (err e) = throw-Keeps _

  ingest-Keeps : (input : IncomingRelayJob) → Keeps F (call_ingest js scope g m input)
  unfolding call_ingest step
  ingest-Keeps input = keeps λ c. F.stepped c m.now (ingests input g.session_key g.backend)

  message-Keeps : (input : Checked IncomingRelayJob) → Keeps F (accept_message js scope g m input)
  unfolding accept_message
  message-Keeps (refused e) = throw-Keeps _
  message-Keeps (valid input) = bind-Keeps (ingest-Keeps input) ingested-Keeps

  gate-Keeps :
      (blocked : Option String) (k : D (Unit {0}))
      → Keeps F k
      → Keeps F (unless_blocked js scope g m blocked k)
  unfolding unless_blocked
  gate-Keeps none k h = h
  gate-Keeps (some reason) k h = then-Keeps (block-Keeps reason) (throw-Keeps _)

  pub incoming-Keeps :
      (text : Text) (envelope : RelayEnvelope)
      → Keeps F (on_relay_incoming js scope g m text envelope)
  unfolding on_relay_incoming
  incoming-Keeps text envelope = bind-Keeps (read-Keeps λ c. c.stopping) λ stopping.
      then-Keeps (require-Keeps _ _) (
        bind-Keeps (read-Keeps (is_upstream_proof_expired m.now)) λ expired.
          then-Keeps
            (when-Keeps expired
              (then-Keeps (block-Keeps upstream_proof_expired_reason) (throw-Keeps proof_expired)))
            (bind-Keeps (read-Keeps λ c. c.upstream_blocked) λ blocked.
              gate-Keeps blocked _
                (message-Keeps (parse_incoming_relay_job text envelope g.max_input_chars m.now))))

  pass-Keeps : (job : Option StoredJob) → Keeps F (pass_cancel js scope g m job)
  unfolding pass_cancel
  pass-Keeps none = pure-Keeps tt
  pass-Keeps (some job) = search (keeps_rules, emit-Keeps (cancels job) refl)

  pub cancel-Keeps : (job_id : String) → Keeps F (on_relay_cancel js scope g m job_id)
  unfolding on_relay_cancel
  cancel-Keeps job_id = search (keeps_rules, command_rules, pass-Keeps)

  unknown_leased-Keeps :
      (lease : Option String) (job : StoredJob) (reason : String)
      → Keeps F (mark_unknown_leased js scope g m lease job reason)
  unfolding mark_unknown_leased
  unknown_leased-Keeps none job reason = pure-Keeps tt
  unknown_leased-Keeps (some lease) job reason = search (keeps_rules, command_rules)

  pub unknown-Keeps :
      (job : StoredJob) (reason : String)
      → Keeps F (mark_cancellation_unknown js scope g m job reason)
  unfolding mark_cancellation_unknown
  unknown-Keeps job reason = unknown_leased-Keeps job.lease_id job reason

  pub unsent-Keeps :
      (lease : Option String) (job : StoredJob)
      → Keeps F (cancel_unsent_leased js scope g m lease job)
  unfolding cancel_unsent_leased
  unsent-Keeps none job = pure-Keeps tt
  unsent-Keeps (some lease) job = search (keeps_rules, command_rules, unknown-Keeps)
