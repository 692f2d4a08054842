-- ===== src/Store/Steps/Refinement/Jobs.antt =====
-- The calls of src/state/store.ts on the life of a job, as writes of the abstract store.
use livis_chatgpt_bridge.Prelude.{&&-left, ℕ, ◌≡◌, refl, ◌⊎◌, inl, inr, Option, none, String, arith}
use livis_chatgpt_bridge.Types.{
  JobStatus, ExecutionAttemptEventType, IncomingRelayJob, ExecutionBackendKind,
}
use livis_chatgpt_bridge.Store.Schema.{Runtime}
use livis_chatgpt_bridge.Store.Monad.Moves.{
  Moves, moves, run-Moves, update_jobs-Moves, bind-Moves, then-Moves, when-Moves, transaction-Moves,
}
use livis_chatgpt_bridge.Store.Jobs
use livis_chatgpt_bridge.Store.Steps.{
  acks, claims_job, inserts_job, unsends, clears, runs, finishes, rejects, inserts_result,
}
use livis_chatgpt_bridge.Store.Steps.Refinement.{
  writes, one, update_jobs-Writes, require-Writes, append-Writes, calls,
}

insert_job-Writes :
    (scope : String) (input : IncomingRelayJob) (hash session : String)
    (target : ExecutionBackendKind) (now : ℕ)
    → Moves writes (Jobs.insert_job (Jobs.new_row scope input hash session target now))
unfolding Jobs.insert_job
insert_job-Writes scope input hash session target now =
    moves λ db. one (inserts_job scope input hash session target now refl)

module _ (js : Runtime) (scope : String) where
  pub ingest-Writes :
      (input : IncomingRelayJob) (session : String) (target : ExecutionBackendKind) (now : ℕ)
      → Moves writes (Jobs.ingest js scope input session target now)
  unfolding Jobs.ingest
  ingest-Writes input session target now = search (calls, insert_job-Writes) depth 9

  pub mark_acked-Writes :
      (job_id : String) (now : ℕ) → Moves writes (Jobs.mark_acked js scope job_id now)
  unfolding Jobs.mark_acked Jobs.status_in
  mark_acked-Writes job_id now =
      bind-Moves (update_jobs-Writes _ _ (λ db r h. acks now (ground arith) refl))
        (λ _. require-Writes scope job_id)

  pub claim-Writes :
      (job_id connector lease : String) (now : ℕ)
      → Moves writes (Jobs.claim_for_dispatch js scope job_id connector lease now)
  unfolding Jobs.claim_for_dispatch
  claim-Writes job_id connector lease now =
      bind-Moves
        (transaction-Moves (
          bind-Moves
            (update_jobs-Moves _ _ λ db. one (
              claims_job scope job_id connector lease now _
                (λ r h. (&&-left _ _ h, ground arith, ground arith, ground arith)) refl))
            (λ _. search calls)))
        (λ done. search calls)

  pub unsend-Writes :
      (job_id lease : String) (now : ℕ)
      → Moves writes (Jobs.reset_unsent_dispatch js scope job_id lease now)
  unfolding Jobs.reset_unsent_dispatch
  unsend-Writes job_id lease now = transaction-Moves (
      bind-Moves (update_jobs-Writes _ _ (λ db r h. unsends now (ground arith) refl)) λ reset.
        when-Moves _ (
          bind-Moves (require-Writes scope job_id) λ job. then-Moves (append-Writes js scope _) (
            bind-Moves (update_jobs-Writes _ _ (λ db r h. clears (ground arith) refl))
              λ cleared. search calls)))

  pub mark_running-Writes :
      (job_id connector lease : String) (now : ℕ)
      → Moves writes (Jobs.mark_running js scope job_id connector lease now)
  unfolding Jobs.mark_running
  mark_running-Writes job_id connector lease now =
      then-Moves
        (transaction-Moves (
          bind-Moves
            (update_jobs-Writes _ _
              (λ db r h. runs connector now (ground arith) (ground arith) refl))
            (λ _. search calls)))
        (require-Writes scope job_id)

  pub upsert-Writes :
      (job_id result : String) (now : ℕ) → Moves writes (Jobs.upsert_outbox scope job_id result now)
  unfolding Jobs.upsert_outbox
  upsert-Writes job_id result now = run-Moves _ (λ db. one (inserts_result _ refl refl))

  finish-Writes :
      (job_id lease : String) (status : JobStatus) (event : ExecutionAttemptEventType)
      (result : String) (error : Option String) (now : ℕ)
      → (status ≡ JobStatus.succeeded) ⊎ (status ≡ JobStatus.failed)
      → Moves writes (Jobs.finish_transaction js scope job_id lease status event result error now)
  unfolding Jobs.finish_transaction
  finish-Writes job_id lease status event result error now ends =
      bind-Moves
        (update_jobs-Writes _ _
          (λ db r h. finishes status error now ends (ground arith) (ground arith) refl))
        (λ _. search (calls, upsert-Writes))

  pub succeed-Writes :
      (job_id lease result : String) (now : ℕ)
      → Moves writes (Jobs.finish_success js scope job_id lease result now)
  unfolding Jobs.finish_success
  succeed-Writes job_id lease result now =
      then-Moves (transaction-Moves (finish-Writes job_id lease _ _ result none now (inl refl)))
        (require-Writes scope job_id)

  pub fail-Writes :
      (job_id lease result error : String) (now : ℕ)
      → Moves writes (Jobs.finish_failure js scope job_id lease result error now)
  unfolding Jobs.finish_failure
  fail-Writes job_id lease result error now =
      then-Moves (transaction-Moves (finish-Writes job_id lease _ _ result _ now (inr refl)))
        (require-Writes scope job_id)

  pub reject-Writes :
      (job_id result reason : String) (now : ℕ)
      → Moves writes (Jobs.reject js scope job_id result reason now)
  unfolding Jobs.reject
  reject-Writes job_id result reason now =
      then-Moves
        (transaction-Moves (
          bind-Moves (update_jobs-Writes _ _ (λ db r h. rejects reason now (ground arith) refl))
            (λ _. search (calls, upsert-Writes))))
        (require-Writes scope job_id)
