-- ===== src/Daemon/Turns/Runs.antt =====
-- Every run of the event loop of src/daemon.ts keeps a relation that its parts keep.
use livis_chatgpt_bridge.Prelude.{ℕ, zero, suc, ◌≡◌, refl, true, List, [], ◌∷◌, ◌++◌, String, All}
use livis_chatgpt_bridge.Protocol.Json.{Text}
use livis_chatgpt_bridge.Store.Schema.{Runtime}
use livis_chatgpt_bridge.Daemon.State.{
  Daemon, Config, Moment, Awaiting, submitting, notifying, cancelling, before_dispatch, deferred,
  blocking, unblocking, starting, finish, detached,
}
use livis_chatgpt_bridge.Daemon.Dispatch.{upstream_proof_expired_reason}
use livis_chatgpt_bridge.Daemon.Relay.{cancel_failed_reason}
use livis_chatgpt_bridge.Daemon.Loop.{
  Submission, submitted, not_sent, throws, carry_on, answer_wait, rechecking_fails, rechecks,
  guard_busy, DaemonEvent, starts, relay_incoming, relay_cancel, relay_connected, execution_ready,
  execution_accepted, execution_result, execution_failed, execution_cancelled,
  execution_disconnected, supported, unsupported, proof_expires, stops, relay_stops, answers,
  releases_quarantine, handle, run_daemon,
}
use livis_chatgpt_bridge.Daemon.Commands.{command_rules}
use livis_chatgpt_bridge.Daemon.Frames.{
  Frame, Keeps, kept, bind-Keeps, then-Keeps, pure-Keeps, throw-Keeps, read-Keeps, change-Keeps,
  keeps_rules,
}
use livis_chatgpt_bridge.Daemon.Turns.{
  block-Keeps, go_on-Keeps, reset-Keeps, loop-Keeps, dispatch-Keeps,
}
use livis_chatgpt_bridge.Daemon.Turns.Gate
use livis_chatgpt_bridge.Daemon.Turns.Gate.{
  start-Keeps, started-Keeps, recheck-Keeps, busy-Keeps, supported-Keeps, unsupported-Keeps,
  stopped-Keeps, unblock-Keeps,
}
use livis_chatgpt_bridge.Daemon.Turns.Incoming.{
  incoming-Keeps, cancel-Keeps, unknown-Keeps, unsent-Keeps,
}
use livis_chatgpt_bridge.Daemon.Turns.Reports.{
  ready-Keeps, accepted-Keeps, result-Keeps, failed-Keeps, cancelled-Keeps, disconnected-Keeps,
}

-- The event, where it saves a proof, saves one that the relation admits.
abbrev pub Grants : {js : Runtime} {scope : String} → Frame js scope → DaemonEvent → Type 0
Grants F e = (expires_at : ℕ) → e ≡ supported expires_at → F.Lasts expires_at

module _ {js : Runtime} {scope : String} (F : Frame js scope) (g : Config) (m : Moment)
    (allowed : F.Allowed m) where
  resume-Keeps : (w : Awaiting) (reply : Submission) → Keeps F (carry_on js scope g m w reply)
  unfolding carry_on
  resume-Keeps (submitting job rest after) submitted = loop-Keeps F g m allowed rest after
  resume-Keeps (submitting job rest after) not_sent =
      then-Keeps (reset-Keeps g m job) (go_on-Keeps after)
  resume-Keeps (submitting job rest after) (throws e) = throw-Keeps _
  resume-Keeps (notifying rest after) (throws e) = throw-Keeps _
  resume-Keeps (notifying rest after) submitted = loop-Keeps F g m allowed rest after
  resume-Keeps (notifying rest after) not_sent = loop-Keeps F g m allowed rest after
  resume-Keeps (cancelling job) submitted = pure-Keeps tt
  resume-Keeps (cancelling job) not_sent = unsent-Keeps F g m allowed job.lease_id job
  resume-Keeps (cancelling job) (throws e) =
      unknown-Keeps F g m allowed job (cancel_failed_reason e)
  resume-Keeps before_dispatch (throws e) = throw-Keeps _
  resume-Keeps before_dispatch submitted = dispatch-Keeps F g m allowed finish
  resume-Keeps before_dispatch not_sent = dispatch-Keeps F g m allowed finish
  resume-Keeps deferred (throws e) = pure-Keeps tt
  resume-Keeps deferred submitted = dispatch-Keeps F g m allowed finish
  resume-Keeps deferred not_sent = dispatch-Keeps F g m allowed finish
  resume-Keeps (blocking after) (throws e) = throw-Keeps _
  resume-Keeps (blocking after) submitted = go_on-Keeps after
  resume-Keeps (blocking after) not_sent = go_on-Keeps after
  resume-Keeps unblocking (throws e) = throw-Keeps _
  resume-Keeps unblocking submitted = unblock-Keeps F g m allowed
  resume-Keeps unblocking not_sent = unblock-Keeps F g m allowed
  resume-Keeps starting (throws e) = throw-Keeps _
  resume-Keeps starting submitted = started-Keeps F g m
  resume-Keeps starting not_sent = started-Keeps F g m

  answer-Keeps :
      (n : ℕ) (reply : Submission) (before after : List Awaiting)
      → Keeps F (answer_wait js scope g m n reply before after)
  unfolding answer_wait
  answer-Keeps n reply before [] = pure-Keeps tt
  answer-Keeps zero reply before (w ∷ after) = search (keeps_rules, resume-Keeps)
  answer-Keeps (suc n) reply before (w ∷ after) = answer-Keeps n reply (before ++ w ∷ []) after

  pub handle-Keeps :
      (text : Text) (e : DaemonEvent) → Grants F e → Keeps F (handle js scope text g m e)
  unfolding handle
  handle-Keeps text starts k = start-Keeps F g m
  handle-Keeps text (relay_incoming envelope) k = incoming-Keeps F g m allowed text envelope
  handle-Keeps text (relay_cancel job_id) k = cancel-Keeps F g m allowed job_id
  handle-Keeps text relay_connected k = dispatch-Keeps F g m allowed detached
  handle-Keeps text (execution_ready kind) k = ready-Keeps F g m allowed kind
  handle-Keeps text (execution_accepted e) k = accepted-Keeps F g m allowed e
  handle-Keeps text (execution_result e output) k = result-Keeps F g m allowed e output
  handle-Keeps text (execution_failed e error rejected) k =
      failed-Keeps F g m allowed e error rejected
  handle-Keeps text (execution_cancelled e not_started) k =
      cancelled-Keeps F g m allowed e not_started
  handle-Keeps text (execution_disconnected kind id reason) k =
      disconnected-Keeps F g m allowed kind id reason
  handle-Keeps text (supported expires_at) k = supported-Keeps F g m expires_at (k expires_at refl)
  handle-Keeps text (unsupported reason) k = unsupported-Keeps F g m reason
  handle-Keeps text (rechecking_fails message) k = Gate.failed-Keeps F g m message
  handle-Keeps text rechecks k = recheck-Keeps F g m
  handle-Keeps text guard_busy k = busy-Keeps F g m
  handle-Keeps text proof_expires k = block-Keeps upstream_proof_expired_reason
  handle-Keeps text stops k = change-Keeps λ c. record c { stopping = true }
  handle-Keeps text (relay_stops stopped) k = stopped-Keeps F g m stopped
  handle-Keeps text (answers n reply) k =
      bind-Keeps (read-Keeps λ c. c.waiting) λ ws. answer-Keeps n reply [] ws
  handle-Keeps text (releases_quarantine session) k = search (keeps_rules, command_rules)

-- A run keeps the relation where it admits the moments and the ends of the proofs of the events.
pub run-Frame :
    {js : Runtime} {scope : String} (F : Frame js scope) (text : Text) (g : Config)
    (es : List (Moment × DaemonEvent)) (c : Daemon)
    → All (λ (x : Moment × DaemonEvent). F.Allowed x.0 × Grants F x.1) es
    → F.Rel c (run_daemon js scope text g es c)
unfolding run_daemon
run-Frame F text g [] c h = F.reflexive c
run-Frame {js} {scope} F text g ((m, e) ∷ es) c (h, hs) =
    let mid = (handle js scope text g m e c).1 in
    F.transitive c mid _ (kept (handle-Keeps F g m h.0 text e h.1) c) (run-Frame F text g es mid hs)
