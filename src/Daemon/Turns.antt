-- ===== src/Daemon/Turns.antt =====
-- Every turn of the dispatch of src/daemon.ts keeps a relation that its parts keep.
pub mod Incoming
pub mod Reports
pub mod Gate
pub mod Runs
use livis_chatgpt_bridge.Prelude.{
  ℕ, ◌≡◌, refl, Bool, true, false, List, [], ◌∷◌, Option, none, some, String, if◌then◌else◌,
  Bool-cases, inl, inr, not, ◌&&◌,
}
use livis_chatgpt_bridge.Types.{StoredJob, is_hermes, backend_name, is_cancelling, is_dispatching}
use livis_chatgpt_bridge.Store.Schema.{Runtime, Database}
use livis_chatgpt_bridge.Store.Monad.{M, Result, ok, err}
use livis_chatgpt_bridge.Store.Monad.Inversion.{Answers}
use livis_chatgpt_bridge.Store.Sessions.Attempt.{Attempt}
use livis_chatgpt_bridge.Store.Commands.{
  Command, claims, backend_claims, unsends, backend_unsends, backend_settles, rejects, step,
}
use livis_chatgpt_bridge.Daemon.State.{
  Daemon, Config, Moment, D, ◌>>=◌, ◌>>◌, read, After, finish, notify, detached, dispatches,
  TurnResult, done, failed, answer_of, block_for_upstream, begin_upstream_block,
  is_upstream_proof_expired, relay_stopped, closed_gate, notifies, stops_relay, submitting,
  notifying, await, perform, call, is_node_authorized,
}
use livis_chatgpt_bridge.Daemon.Dispatch.{
  claim, reset_unsent_as, reset_unsent_leased, reset_unsent_execution, new_lease, dispatch_claimed,
  claim_candidate, reject_candidate, dispatch_loop, dispatch_open, dispatch_unless_blocked,
  dispatch_pending, go_on, upstream_proof_expired_reason, attempt_of, hand_over,
}
use livis_chatgpt_bridge.Daemon.Commands.{command_rules, claim-IsCommand}
use livis_chatgpt_bridge.Daemon.Frames.{
  Frame, Keeps, keeps, kept, bind-Keeps, then-Keeps, pure-Keeps, throw-Keeps, read-Keeps, if-Keeps,
  call-Keeps, change-Keeps, emit-Keeps, await-Keeps, require-Keeps, when-Keeps, keeps_rules,
}

module _ {js : Runtime} {scope : String} {F : Frame js scope} where
  pub block-Keeps : (reason : String) → Keeps F (block_for_upstream reason)
  unfolding block_for_upstream
  block-Keeps reason = search (keeps_rules, emit-Keeps stops_relay refl)

  pub begin-Keeps : (reason : String) (after : After) → Keeps F (begin_upstream_block reason after)
  unfolding begin_upstream_block
  begin-Keeps reason after = search (keeps_rules, block-Keeps)

  pub go_on-Keeps : (after : After) → Keeps F (go_on after)
  unfolding go_on
  go_on-Keeps finish = pure-Keeps tt
  go_on-Keeps detached = pure-Keeps tt
  go_on-Keeps notify = emit-Keeps notifies refl

  module _ (g : Config) (m : Moment) where
    reset_as-Keeps :
        (current : Option StoredJob) (a : Attempt)
        → Keeps F (reset_unsent_as js scope g m current a)
    unfolding reset_unsent_as
    reset_as-Keeps none a = pure-Keeps tt
    reset_as-Keeps (some current) a = search (keeps_rules, command_rules)

    leased-Keeps :
        (lease : Option String) (job : StoredJob)
        → Keeps F (reset_unsent_leased js scope g m lease job)
    unfolding reset_unsent_leased
    leased-Keeps none job = throw-Keeps _
    leased-Keeps (some lease) job = search (keeps_rules, command_rules, reset_as-Keeps)

    pub reset-Keeps : (job : StoredJob) → Keeps F (reset_unsent_execution js scope g m job)
    unfolding reset_unsent_execution
    reset-Keeps job = leased-Keeps job.lease_id job

    lease-Keeps : Keeps F (new_lease g)
    unfolding new_lease
    lease-Keeps = search keeps_rules

module _ {js : Runtime} {scope : String} (F : Frame js scope) (g : Config) (m : Moment)
    (allowed : F.Allowed m) where
  handed :
      (job_id id lease : String) (rest : List StoredJob) (after : After) (expired : Bool)
      (c : Daemon) (job : StoredJob) (d : Database)
      → is_upstream_proof_expired m.later (record c { db = d }) ≡ expired
      → Answers (claim js scope g m job_id id lease) c.db (some job) d
      → F.Rel c (record c { db = d })
      → F.Rel c (hand_over js scope g m expired job rest after (record c { db = d })).1
  handed job_id id lease rest after true c job d e q s =
      let turn : Keeps F (hand_over js scope g m true job rest after) =
        unfold hand_over in
        then-Keeps (reset-Keeps g m job) (begin-Keeps upstream_proof_expired_reason after) in
      F.transitive c (record c { db = d }) _ s (kept {F = F} turn (record c { db = d }))
  handed job_id id lease rest after false c job d e q s =
      let sent = record c { db = d; effects = dispatches job ∷ c.effects } in
      let waits : F.Rel sent (await (submitting job rest after) sent).1 =
        kept {F = F} (await-Keeps (submitting job rest after)) sent in
      unfold hand_over perform ◌>>=◌ ◌>>◌ in
      F.transitive c sent _ (F.dispatched g m job_id id lease c job d allowed e q) waits

  -- A job that was claimed is handed to the backend with the claim.
  claimed :
      (job_id id lease : String) (rest : List StoredJob) (after : After) (skip : D (Unit {0}))
      (c : Daemon) (r : Result (Option StoredJob) × Database)
      → Keeps F skip
      → claim js scope g m job_id id lease c.db ≡ r
      → F.Rel c (record c { db = r.1 })
      → F.Rel c (
          (elim (answer_of r.0) as (λ _. TurnResult (Unit {0}) × Daemon) [
            | done a ↦ dispatch_claimed js scope g m a rest after skip (record c { db = r.1 })
            | failed e ↦ (failed e, record c { db = r.1 })
          ]).1)
  claimed job_id id lease rest after skip c (err e, d) k q s = s
  claimed job_id id lease rest after skip c (ok none, d) k q s =
      unfold dispatch_claimed in
      F.transitive c (record c { db = d }) _ s (kept {F = F} k (record c { db = d }))
  claimed job_id id lease rest after skip c (ok (some job), d) k q s =
      unfold dispatch_claimed read ◌>>=◌ in handed job_id id lease rest after _ c job d refl q s

  claimed-Keeps :
      (job_id id lease : String) (rest : List StoredJob) (after : After) (skip : D (Unit {0}))
      → Keeps F skip
      → Keeps F (
          call (claim js scope g m job_id id lease) >>= λ a.
          dispatch_claimed js scope g m a rest after skip)
  unfolding ◌>>=◌ call
  claimed-Keeps job_id id lease rest after skip k = keeps λ c.
      claimed job_id id lease rest after skip c (claim js scope g m job_id id lease c.db) k refl
        (kept {F = F} (call-Keeps (claim-IsCommand js scope g m job_id id lease)) c)

  candidate-Keeps :
      (id : Option String) (candidate : StoredJob) (rest : List StoredJob) (after : After)
      (skip : D (Unit {0}))
      → Keeps F skip
      → Keeps F (claim_candidate js scope g m id candidate rest after skip)
  unfolding claim_candidate
  candidate-Keeps none candidate rest after skip k = go_on-Keeps after
  candidate-Keeps (some id) candidate rest after skip k =
      bind-Keeps (lease-Keeps g m)
        λ lease. claimed-Keeps candidate.input.job_id id lease rest after skip k

  reject-Keeps : (candidate : StoredJob) → Keeps F (reject_candidate js scope g m candidate)
  unfolding reject_candidate
  reject-Keeps candidate = search (keeps_rules, command_rules, emit-Keeps notifies refl)

  pub loop-Keeps :
      (candidates : List StoredJob) (after : After)
      → Keeps F (dispatch_loop js scope g m candidates after)
  unfolding dispatch_loop
  loop-Keeps [] after = go_on-Keeps after
  loop-Keeps (candidate ∷ rest) after =
      let skip = loop-Keeps rest after in
      bind-Keeps (read-Keeps _) λ expired.
        if-Keeps expired (begin-Keeps upstream_proof_expired_reason after) (
          if-Keeps (is_node_authorized g candidate.input.from_node_id)
            (candidate-Keeps m.execution_id candidate rest after _ skip)
            (then-Keeps (reject-Keeps candidate) (await-Keeps (notifying rest after))))

  open-Keeps : (after : After) → Keeps F (dispatch_open js scope g m after)
  unfolding dispatch_open
  open-Keeps after = search (keeps_rules, loop-Keeps, go_on-Keeps)

  unblocked-Keeps :
      (blocked : Option String) (after : After)
      → Keeps F (dispatch_unless_blocked js scope g m blocked after)
  unfolding dispatch_unless_blocked
  unblocked-Keeps none after = open-Keeps after
  unblocked-Keeps (some reason) after = begin-Keeps reason after

  pub dispatch-Keeps : (after : After) → Keeps F (dispatch_pending js scope g m after)
  unfolding dispatch_pending
  dispatch-Keeps after = bind-Keeps (read-Keeps λ c. c.stopping) λ stopping.
      bind-Keeps (read-Keeps (is_upstream_proof_expired m.now)) λ expired.
        bind-Keeps (read-Keeps λ c. c.upstream_blocked) λ blocked.
          if-Keeps stopping (go_on-Keeps after) (
            if-Keeps expired (begin-Keeps upstream_proof_expired_reason after)
              (unblocked-Keeps blocked after))
