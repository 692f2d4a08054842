-- ===== src/Daemon/Turns/Reports.antt =====
-- The turns of the execution backend's handlers of src/daemon.ts keep a relation that their parts
-- keep.
use livis_chatgpt_bridge.Prelude.{
  ℕ, refl, Bool, Option, none, some, String, true, false, ◌≡◌, ◌∷◌, ◌⊎◌, inl, inr, Bool-cases,
}
use livis_chatgpt_bridge.Types.{ExecutionBackendKind, StoredJob}
use livis_chatgpt_bridge.Store.Schema.{Runtime, is_outbox}
use livis_chatgpt_bridge.Daemon.State.{
  Config, Moment, DaemonError, acknowledges, rejects, notifies, finish, Daemon, ◌>>=◌, ◌>>◌, call,
  perform, await, before_dispatch,
}
use livis_chatgpt_bridge.Daemon.Execution.{
  JobEvent, check_generation, check_turn, require_durable_run_generation, require_durable_turn,
  assert_configured_backend, on_execution_ready, accept_hermes, on_execution_accepted,
  settle_unstarted, report_cancelled, on_execution_cancelled, on_execution_disconnected,
}
use livis_chatgpt_bridge.Daemon.Results.{
  settle, refuse_output, refuse_report, acknowledge_held, store_result, report_result,
  on_execution_result, acknowledge_failure, store_failure, report_failure, on_execution_failed,
  has_result,
}
use livis_chatgpt_bridge.Daemon.Commands.{command_rules, success-IsCommand, failure-IsCommand}
use livis_chatgpt_bridge.Daemon.Frames.{
  Frame, Keeps, then-Keeps, pure-Keeps, throw-Keeps, emit-Keeps, require-Keeps, keeps_rules, kept,
  await-Keeps,
}
use livis_chatgpt_bridge.Store.Table.{exists}
use livis_chatgpt_bridge.Store.Reads.{get}
use livis_chatgpt_bridge.Store.Jobs.{finish_success, finish_failure}
use livis_chatgpt_bridge.Daemon.Dispatch.{is_some}
use livis_chatgpt_bridge.Daemon.Held.{
  told-Keeps, success-Tells, failure-Tells, holds-outbox, has-some,
}
use livis_chatgpt_bridge.Daemon.Turns.{dispatch-Keeps}

module _ {js : Runtime} {scope : String} {F : Frame js scope} where
  generation-Keeps : (n : Option ℕ) → Keeps F (check_generation n)
  unfolding check_generation
  generation-Keeps none = throw-Keeps _
  generation-Keeps (some n) = search keeps_rules

  turn-Keeps : (turn : Option String) → Keeps F (check_turn turn)
  unfolding check_turn
  turn-Keeps none = throw-Keeps _
  turn-Keeps (some turn) = search keeps_rules

  durable_generation-Keeps : (e : JobEvent) → Keeps F (require_durable_run_generation e)
  unfolding require_durable_run_generation
  durable_generation-Keeps e = generation-Keeps e.run_generation

  durable-Keeps : (e : JobEvent) → Keeps F (require_durable_turn e)
  unfolding require_durable_turn
  durable-Keeps e = search (keeps_rules, durable_generation-Keeps, turn-Keeps)

module _ {js : Runtime} {scope : String} (F : Frame js scope) (g : Config) (m : Moment)
    (allowed : F.Allowed m) where
  backend-Keeps :
      (kind : ExecutionBackendKind) → Keeps F (assert_configured_backend js scope g m kind)
  unfolding assert_configured_backend
  backend-Keeps kind = require-Keeps _ _

  pub ready-Keeps : (kind : ExecutionBackendKind) → Keeps F (on_execution_ready js scope g m kind)
  unfolding on_execution_ready
  ready-Keeps kind = then-Keeps (backend-Keeps kind) (dispatch-Keeps F g m allowed finish)

  hermes-Keeps : (e : JobEvent) (job : StoredJob) → Keeps F (accept_hermes js scope g m e job)
  unfolding accept_hermes
  hermes-Keeps e job = search (keeps_rules, emit-Keeps (rejects e.job_id "stale_lease") refl)

  pub accepted-Keeps : (e : JobEvent) → Keeps F (on_execution_accepted js scope g m e)
  unfolding on_execution_accepted
  accepted-Keeps e = search (keeps_rules, command_rules, durable-Keeps, hermes-Keeps) depth 8

  settle-Keeps : (later : Bool) (job : Option StoredJob) → Keeps F (settle js scope g m later job)
  unfolding settle
  settle-Keeps later job = search (keeps_rules, emit-Keeps notifies refl)

  output-Keeps : (e : JobEvent) → Keeps F (refuse_output js scope g m e)
  unfolding refuse_output
  output-Keeps e = search (
    keeps_rules,
    command_rules,
    durable-Keeps,
    settle-Keeps,
    emit-Keeps (rejects e.job_id "output_too_large") refl,
  )

  refuse-Keeps :
      (e : JobEvent) (code : String) (error : DaemonError)
      → Keeps F (refuse_report js scope g m e code error)
  unfolding refuse_report
  refuse-Keeps e code error = search (keeps_rules, emit-Keeps (rejects e.job_id code) refl)

  -- The acknowledgement, and what follows it.
  acknowledges-Rel :
      (e : JobEvent) (c : Daemon)
      → exists (is_outbox scope e.job_id) c.db.outbox ≡ true
      → F.Rel c
          ((perform (acknowledges e.job_id e.lease_id) >> perform notifies >> await before_dispatch)
            c).1
  acknowledges-Rel e c held =
      let sent = record c { effects = acknowledges e.job_id e.lease_id ∷ c.effects } in
      let rest : Keeps F (perform notifies >> await before_dispatch) =
        then-Keeps (emit-Keeps notifies refl) (await-Keeps before_dispatch) in
      unfold perform ◌>>=◌ ◌>>◌ in
      F.transitive c sent _ (F.acknowledged c e.job_id e.lease_id held) (kept {F = F} rest sent)

  acknowledged_result :
      (e : JobEvent) (result : String) (job : StoredJob) (c : Daemon)
      → some job ≡ get scope e.job_id c.db
      → (has_result result job.outbox ≡ true) ⊎ (has_result result job.outbox ≡ false)
      → F.Rel c (acknowledge_held js scope g m e result job c).1
  unfolding acknowledge_held
  acknowledged_result e result job c told (inl hit) =
      rw hit (acknowledges-Rel e c (holds-outbox scope e.job_id job c.db told (has-some _ _ hit)))
  acknowledged_result e result job c told (inr miss) =
      rw miss (kept {F = F} (emit-Keeps (rejects e.job_id "result_conflict") refl) c)

  acknowledged_failure :
      (e : JobEvent) (job : StoredJob) (c : Daemon)
      → some job ≡ get scope e.job_id c.db
      → (is_some job.outbox ≡ true) ⊎ (is_some job.outbox ≡ false)
      → F.Rel c (acknowledge_failure js scope g m e job c).1
  unfolding acknowledge_failure
  acknowledged_failure e job c told (inl hit) =
      rw hit (acknowledges-Rel e c (holds-outbox scope e.job_id job c.db told hit))
  acknowledged_failure e job c told (inr miss) =
      rw miss (kept {F = F} (dispatch-Keeps F g m allowed finish) c)

  held_result-Keeps :
      (e : JobEvent) (result : String)
      → Keeps F (
          call (finish_success js scope e.job_id e.lease_id result m.now)
          >>= acknowledge_held js scope g m e result)
  held_result-Keeps e result =
      told-Keeps F e.job_id (acknowledge_held js scope g m e result)
        (success-IsCommand js scope m.now e.job_id e.lease_id result)
        (success-Tells js scope e.job_id e.lease_id result m.now)
        λ job c told.
          acknowledged_result e result job c told (Bool-cases (has_result result job.outbox))

  store_result-Keeps :
      (e : JobEvent) (result : String) → Keeps F (store_result js scope g m e result)
  unfolding store_result
  store_result-Keeps e result =
      search (keeps_rules, command_rules, durable-Keeps, settle-Keeps, held_result-Keeps)

  report-Keeps :
      (e : JobEvent) (text : String) (job : Option StoredJob)
      → Keeps F (report_result js scope g m e text job)
  unfolding report_result
  report-Keeps e text none = refuse-Keeps e _ _
  report-Keeps e text (some job) = search (keeps_rules, refuse-Keeps, store_result-Keeps)

  pub result-Keeps :
      (e : JobEvent) (text : String) → Keeps F (on_execution_result js scope g m e text)
  unfolding on_execution_result
  result-Keeps e text = search (keeps_rules, output-Keeps, report-Keeps) depth 8

  held_failure-Keeps :
      (e : JobEvent) (result error : String)
      → Keeps F (
          call (finish_failure js scope e.job_id e.lease_id result error m.now)
          >>= acknowledge_failure js scope g m e)
  held_failure-Keeps e result error =
      told-Keeps F e.job_id (acknowledge_failure js scope g m e)
        (failure-IsCommand js scope m.now e.job_id e.lease_id result error)
        (failure-Tells js scope e.job_id e.lease_id result error m.now)
        λ job c told. acknowledged_failure e job c told (Bool-cases (is_some job.outbox))

  store_failure-Keeps :
      (e : JobEvent) (error : String) (rejected : Bool)
      → Keeps F (store_failure js scope g m e error rejected)
  unfolding store_failure
  store_failure-Keeps e error rejected =
      search (keeps_rules, command_rules, durable-Keeps, settle-Keeps, held_failure-Keeps) depth 9

  report_failure-Keeps :
      (e : JobEvent) (error : String) (rejected : Bool) (job : Option StoredJob)
      → Keeps F (report_failure js scope g m e error rejected job)
  unfolding report_failure
  report_failure-Keeps e error rejected none = refuse-Keeps e _ _
  report_failure-Keeps e error rejected (some job) =
      search (keeps_rules, refuse-Keeps, store_failure-Keeps)

  pub failed-Keeps :
      (e : JobEvent) (error : String) (rejected : Bool)
      → Keeps F (on_execution_failed js scope g m e error rejected)
  unfolding on_execution_failed
  failed-Keeps e error rejected = search (keeps_rules, report_failure-Keeps) depth 8

  unstarted-Keeps :
      (before : StoredJob) (job : Option StoredJob)
      → Keeps F (settle_unstarted js scope g m before job)
  unfolding settle_unstarted
  unstarted-Keeps before none = require-Keeps _ _
  unstarted-Keeps before (some job) = dispatch-Keeps F g m allowed finish

  report_cancelled-Keeps :
      (e : JobEvent) (not_started : Bool) (job : Option StoredJob)
      → Keeps F (report_cancelled js scope g m e not_started job)
  unfolding report_cancelled
  report_cancelled-Keeps e not_started none = pure-Keeps tt
  report_cancelled-Keeps e not_started (some job) =
      search (keeps_rules, command_rules, durable_generation-Keeps, unstarted-Keeps)

  pub cancelled-Keeps :
      (e : JobEvent) (not_started : Bool)
      → Keeps F (on_execution_cancelled js scope g m e not_started)
  unfolding on_execution_cancelled
  cancelled-Keeps e not_started = search (keeps_rules, report_cancelled-Keeps) depth 8

  pub disconnected-Keeps :
      (kind : ExecutionBackendKind) (id : String) (reason : Option String)
      → Keeps F (on_execution_disconnected js scope g m kind id reason)
  unfolding on_execution_disconnected
  disconnected-Keeps kind id reason = search (keeps_rules, command_rules) depth 8
