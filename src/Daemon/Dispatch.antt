-- ===== src/Daemon/Dispatch.antt =====
-- src/daemon.ts: `dispatchPending`, which sends the waiting jobs to the execution backend.
use livis_chatgpt_bridge.Prelude.{
  suc, Bool, true, false, ◌&&◌, List, [], ◌∷◌, Option, none, some, String, if◌then◌else◌,
}
use livis_chatgpt_bridge.Types.{
  ExecutionBackendKind, StoredJob, backend_name, is_hermes, is_cancelling, is_dispatching,
}
use livis_chatgpt_bridge.Store.Schema.{Runtime}
use livis_chatgpt_bridge.Store.Monad.{M}
use livis_chatgpt_bridge.Store.Reads.{get}
use livis_chatgpt_bridge.Store.Lists.{list_dispatchable}
use livis_chatgpt_bridge.Store.Jobs.{claim_for_dispatch, reset_unsent_dispatch, reject}
use livis_chatgpt_bridge.Store.Sessions.Attempt.{Attempt}
use livis_chatgpt_bridge.Store.Sessions.Turns.{
  claim_for_backend_dispatch, reset_unsent_backend_dispatch, finish_unsent_backend_cancellation,
}
use livis_chatgpt_bridge.Daemon.State.{
  Config, Moment, D, ◌>>=◌, ◌>>◌, pure, throw, read, change, perform, await, call, guard, After,
  finish, notify, detached, submitting, notifying, dispatches, notifies, is_node_authorized,
  is_upstream_proof_expired, begin_upstream_block, no_lease, not_settled,
}

abbrev pub upstream_proof_expired_reason : String
upstream_proof_expired_reason = "supported proof 已过期；必须在线复核通过后才能继续派发"

-- The attempt at a claimed job.
abbrev pub attempt_of : ExecutionBackendKind → String → StoredJob → Attempt
attempt_of kind lease_id job = record {
  job_id = job.input.job_id;
  backend = backend_name kind;
  lease_id = lease_id;
  run_generation = job.run_generation;
}

unfoldable pub is_some {ℓ} : {A : Type ℓ} → Option A → Bool
is_some none = false
is_some (some a) = true

-- What follows `dispatchPending`.
unfoldable pub go_on : After → D (Unit {0})
unfolding pure perform
go_on finish = pure tt
go_on detached = pure tt
go_on notify = perform notifies

-- A fresh lease id.
unfoldable pub new_lease : Config → D String
unfolding ◌>>=◌ ◌>>◌ read change pure
new_lease g = do n ← read λ c. c.leases; change λ c. record c { leases = suc n }; pure (g.uuid n)

module _ (js : Runtime) (scope : String) (g : Config) (m : Moment) where
  -- The cases of `resetUnsentExecution` for a job of a native backend, by its status as it is now.
  unfoldable pub reset_unsent_as : Option StoredJob → Attempt → D (Unit {0})
  unfolding ◌>>=◌ pure call guard is_some
  reset_unsent_as none a = pure tt
  reset_unsent_as (some current) a =
      if is_cancelling current.status
      then (call (finish_unsent_backend_cancellation js scope a m.now) >>= λ job.
          guard (is_some job) not_settled)
      else (if is_dispatching current.status
          then (call (reset_unsent_backend_dispatch js scope a m.now) >>= λ done.
              guard done not_settled)
          else pure tt)

  unfoldable pub reset_unsent_leased : Option String → StoredJob → D (Unit {0})
  unfolding ◌>>=◌ throw read call reset_unsent_as
  reset_unsent_leased none job = throw no_lease
  reset_unsent_leased (some lease_id) job =
      if is_hermes g.backend
      then call (reset_unsent_dispatch js scope job.input.job_id lease_id m.now)
      else (read (λ c. get scope job.input.job_id c.db) >>= λ current.
          reset_unsent_as current (attempt_of g.backend lease_id job))

  unfoldable pub reset_unsent_execution : StoredJob → D (Unit {0})
  unfolding reset_unsent_leased
  reset_unsent_execution job = reset_unsent_leased job.lease_id job

  unfoldable pub claim : String → String → String → M (Option StoredJob)
  claim job_id execution_id lease_id =
      if is_hermes g.backend
      then claim_for_dispatch js scope job_id execution_id lease_id m.now
      else claim_for_backend_dispatch js scope job_id (backend_name g.backend) execution_id lease_id
          m.now

  -- A claimed job goes to the backend, unless the proof has expired since.
  unfoldable pub hand_over : Bool → StoredJob → List StoredJob → After → D (Unit {0})
  unfolding ◌>>◌ perform await reset_unsent_execution begin_upstream_block
  hand_over true job rest after =
      reset_unsent_execution job >> begin_upstream_block upstream_proof_expired_reason after
  hand_over false job rest after = perform (dispatches job) >> await (submitting job rest after)

  -- The rest of the loop's body for a job that was claimed, or was not: then `skip` goes on.
  unfoldable pub dispatch_claimed :
      Option StoredJob → List StoredJob → After → D (Unit {0}) → D (Unit {0})
  unfolding ◌>>=◌ read hand_over
  dispatch_claimed none rest after skip = skip
  dispatch_claimed (some job) rest after skip =
      read (is_upstream_proof_expired m.later) >>= λ expired. hand_over expired job rest after

  -- The end of the loop's body where the backend has an execution id; else the loop ends.
  unfoldable pub claim_candidate :
      Option String → StoredJob → List StoredJob → After → D (Unit {0}) → D (Unit {0})
  unfolding ◌>>=◌ claim new_lease call dispatch_claimed go_on
  claim_candidate none candidate rest after skip = go_on after
  claim_candidate (some execution_id) candidate rest after skip = do
    lease_id ← new_lease g
    claimed ← call (claim candidate.input.job_id execution_id lease_id)
    dispatch_claimed claimed rest after skip

  unfoldable pub reject_candidate : StoredJob → D (Unit {0})
  unfolding ◌>>=◌ ◌>>◌ call perform
  reject_candidate candidate = do
    call (
        reject js scope candidate.input.job_id (g.serialize_result g.unauthorized_message)
          "node not authorized" m.now)
    perform notifies

  -- The loop over the candidates, up to its first `await`.
  unfoldable pub dispatch_loop : List StoredJob → After → D (Unit {0})
  unfolding ◌>>=◌ ◌>>◌ read await claim_candidate reject_candidate go_on begin_upstream_block
  dispatch_loop [] after = go_on after
  dispatch_loop (candidate ∷ rest) after =
      let skip = dispatch_loop rest after in
      read (is_upstream_proof_expired m.now) >>= λ expired.
      if expired
      then begin_upstream_block upstream_proof_expired_reason after
      else (if is_node_authorized g candidate.input.from_node_id
          then claim_candidate m.execution_id candidate rest after skip
          else (reject_candidate candidate >> await (notifying rest after)))

  unfoldable pub dispatch_open : After → D (Unit {0})
  unfolding ◌>>=◌ read dispatch_loop go_on is_some
  dispatch_open after =
      if m.ready && is_some m.execution_id
      then (read (λ c. list_dispatchable scope g.backend 100 c.db) >>= λ candidates.
          dispatch_loop candidates after)
      else go_on after

  unfoldable pub dispatch_unless_blocked : Option String → After → D (Unit {0})
  unfolding begin_upstream_block dispatch_open
  dispatch_unless_blocked (some reason) after = begin_upstream_block reason after
  dispatch_unless_blocked none after = dispatch_open after

  unfoldable pub dispatch_pending : After → D (Unit {0})
  unfolding ◌>>=◌ read go_on begin_upstream_block dispatch_unless_blocked
  dispatch_pending after = do
    stopping ← read λ c. c.stopping
    expired ← read (is_upstream_proof_expired m.now)
    blocked ← read λ c. c.upstream_blocked
    if stopping
        then go_on after
        else (if expired
            then begin_upstream_block upstream_proof_expired_reason after
            else dispatch_unless_blocked blocked after)
