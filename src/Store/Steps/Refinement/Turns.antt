-- ===== src/Store/Steps/Refinement/Turns.antt =====
-- The calls of src/state/store.ts on the jobs of a backend with persistent sessions, as writes of the
-- abstract store.
use livis_chatgpt_bridge.Prelude.{
  &&-left, ℕ, ◌≡◌, refl, ◌⊎◌, inl, inr, Bool, true, false, Option, none, some, String, arith,
}
use livis_chatgpt_bridge.Types.{JobStatus, ExecutionAttemptEventType}
use livis_chatgpt_bridge.Store.Schema.{Database, JobRow, Runtime}
use livis_chatgpt_bridge.Store.Monad.Moves.{
  Moves, update_jobs-Moves, throw-Moves, pure-Moves, query-Moves, bind-Moves, then-Moves,
  when-Moves, if-Moves, transaction-Moves,
}
use livis_chatgpt_bridge.Store.Jobs
use livis_chatgpt_bridge.Store.Sessions.Attempt.{Attempt}
use livis_chatgpt_bridge.Store.Sessions.Turns
use livis_chatgpt_bridge.Store.Sessions.Endings
use livis_chatgpt_bridge.Store.Sessions.Disconnect
use livis_chatgpt_bridge.Store.Steps.{
  RowStep, claims_job, unsends, clears, accepts, settles, finishes, loses_cancel, interrupts,
  reserves, turns, vacates, flags,
}
use livis_chatgpt_bridge.Store.Steps.Refinement.{
  writes, one, update_jobs-Writes, update_sessions-Writes, append-Writes, calls,
}
use livis_chatgpt_bridge.Store.Steps.Refinement.Jobs.{upsert-Writes}
use livis_chatgpt_bridge.Store.Steps.Refinement.Recovery.{
  isolate-Writes, for_each-Writes, kept_turn,
}

module _ (js : Runtime) (scope : String) where
  reserve-Writes :
      (job_id backend lease : String) (now : ℕ) (attempt : Option JobRow)
      → Moves writes (Turns.reserve_session js scope job_id backend lease now attempt)
  unfolding Turns.reserve_session
  reserve-Writes job_id backend lease now none = throw-Moves _
  reserve-Writes job_id backend lease now (some attempt) =
      bind-Moves
        (update_sessions-Writes _ _ _
          (λ db s h t. reserves job_id lease _ now (ground arith) (ground arith) refl))
        (λ taken. search calls)

  pub backend_claim-Writes :
      (job_id backend connector lease : String) (now : ℕ)
      → Moves writes (Turns.claim_for_backend_dispatch js scope job_id backend connector lease now)
  unfolding Turns.claim_for_backend_dispatch Jobs.require_if
  backend_claim-Writes job_id backend connector lease now =
      bind-Moves
        (transaction-Moves (
          bind-Moves
            (update_jobs-Moves _ _ λ db. one (
              claims_job scope job_id connector lease now _
                (λ r h. (&&-left _ _ h, ground arith, ground arith, ground arith)) refl))
            (λ claimed.
              if-Moves _ (bind-Moves (query-Moves _) (reserve-Writes job_id backend lease now))
                (pure-Moves false))))
        (λ done. search calls)

  clear-Writes : (a : Attempt) (now : ℕ) → Moves writes (Turns.clear_attempt js scope a now)
  unfolding Turns.clear_attempt
  clear-Writes a now = update_sessions-Writes _ _ _ (λ db s h t. vacates now (ground arith) refl)

  lease-Writes : (a : Attempt) → Moves writes (Turns.clear_lease js scope a)
  unfolding Turns.clear_lease
  lease-Writes a = update_jobs-Writes _ _ (λ db r h. clears (ground arith) refl)

  pub backend_unsend-Writes :
      (a : Attempt) (now : ℕ) → Moves writes (Turns.reset_unsent_backend_dispatch js scope a now)
  unfolding Turns.reset_unsent_backend_dispatch
  backend_unsend-Writes a now = transaction-Moves (
      bind-Moves (update_jobs-Writes _ _ (λ db r h. unsends now (ground arith) refl))
        λ reset. search (calls, clear-Writes, lease-Writes) depth 12)

  pub backend_settle-Writes :
      (a : Attempt) (now : ℕ)
      → Moves writes (Turns.finish_unsent_backend_cancellation js scope a now)
  unfolding Turns.finish_unsent_backend_cancellation Jobs.require_if
  backend_settle-Writes a now =
      bind-Moves
        (transaction-Moves (
          bind-Moves (update_jobs-Writes _ _ (λ db r h. settles now (ground arith) refl))
            λ ended. search (calls, clear-Writes) depth 12))
        (λ done. search calls)

  turn-Writes :
      (a : Attempt) (turn : String) (now : ℕ)
      → Moves writes (Turns.turn_attempt js scope a turn now)
  unfolding Turns.turn_attempt
  turn-Writes a turn now =
      update_sessions-Writes _ _ _ (λ db s h t. turns turn now (ground arith) (ground arith) refl)

  turn_cancelling-Writes :
      (a : Attempt) (turn : String) (now : ℕ)
      → Moves writes (Turns.turn_cancelling js scope a turn now)
  unfolding Turns.turn_cancelling
  turn_cancelling-Writes a turn now =
      update_sessions-Writes _ _ _ (λ db s h t. turns turn now (ground arith) (ground arith) refl)

  accept_late-Writes :
      (a : Attempt) (turn : String) (now : ℕ) → Moves writes (Turns.accept_late js scope a turn now)
  unfolding Turns.accept_late
  accept_late-Writes a turn now = search (calls, turn_cancelling-Writes)

  pub backend_run-Writes :
      (a : Attempt) (turn : String) (now : ℕ)
      → Moves writes (Turns.mark_backend_running js scope a turn now)
  unfolding Turns.mark_backend_running Jobs.require_if
  backend_run-Writes a turn now =
      bind-Moves
        (transaction-Moves (
          bind-Moves
            (update_jobs-Writes _ _ (λ db r h. accepts now (ground arith) (ground arith) refl))
            λ started. search (calls, accept_late-Writes, turn-Writes) depth 12))
        (λ done. search calls)

  isolate_job-Writes :
      (p : Database → JobRow → Bool) (reason : String) (now : ℕ)
      → Moves writes (Endings.isolate_job js scope p reason now)
  unfolding Endings.isolate_job
  isolate_job-Writes p reason now = isolate-Writes reason now p

  flag-Writes :
      (a : Attempt) (turn : Option String) (now : ℕ)
      → Moves writes (Endings.flag_attempt js scope a turn now)
  unfolding Endings.flag_attempt
  flag-Writes a turn now = update_sessions-Writes _ _ _ (λ db s h t. flags turn now refl)

  lost-RowStep :
      (loss : Endings.Loss) (reason : String) (now : ℕ) (db : Database) (r : JobRow)
      → Endings.is_from loss r.status ≡ true
      → RowStep db r (Endings.lost_row loss reason now r)
  lost-RowStep Endings.Loss.cancel_unknown reason now db r h =
      loses_cancel _ now (ground arith) refl
  lost-RowStep Endings.Loss.interrupted reason now db r h = interrupts _ now h refl

  backend_lose-Writes :
      (a : Attempt) (turn : Option String) (loss : Endings.Loss) (reason : String) (now : ℕ)
      → Moves writes (Endings.mark_backend_recovery_terminal js scope a turn loss reason now)
  unfolding Endings.mark_backend_recovery_terminal Jobs.require_if
  backend_lose-Writes a turn loss reason now =
      bind-Moves
        (transaction-Moves (
          bind-Moves
            (update_jobs-Writes _ _ (λ db r h. lost-RowStep loss reason now db r (ground arith)))
            λ ended. search (calls, isolate_job-Writes, flag-Writes) depth 12))
        (λ done. search calls)

  pub backend_lose_cancel-Writes :
      (a : Attempt) (turn : Option String) (reason : String) (now : ℕ)
      → Moves writes (Endings.mark_backend_cancel_unknown js scope a turn reason now)
  unfolding Endings.mark_backend_cancel_unknown
  backend_lose_cancel-Writes a turn reason now =
      backend_lose-Writes a turn Endings.Loss.cancel_unknown reason now

  pub backend_interrupt-Writes :
      (a : Attempt) (turn : Option String) (reason : String) (now : ℕ)
      → Moves writes (Endings.mark_backend_interrupted js scope a turn reason now)
  unfolding Endings.mark_backend_interrupted
  backend_interrupt-Writes a turn reason now =
      backend_lose-Writes a turn Endings.Loss.interrupted reason now

  quarantine_attempt-Writes :
      (a : Attempt) (turn reason : String) (now : ℕ)
      → Moves writes (Endings.quarantine_attempt js scope a turn reason now)
  unfolding Endings.quarantine_attempt
  quarantine_attempt-Writes a turn reason now = search (calls, isolate_job-Writes)

  quarantine?-Writes :
      (a : Attempt) (turn : String) (reason : Option String) (now : ℕ)
      → Moves writes (Endings.quarantine_attempt? js scope a turn reason now)
  quarantine?-Writes a turn none now = pure-Moves tt
  quarantine?-Writes a turn (some reason) now = quarantine_attempt-Writes a turn reason now

  clear_turn-Writes :
      (a : Attempt) (turn : String) (now : ℕ)
      → Moves writes (Endings.clear_turn js scope a turn now)
  unfolding Endings.clear_turn
  clear_turn-Writes a turn now = update_sessions-Writes _ _ _ (λ db s h t.
      vacates now (ground arith) (let e : s.recovery_required ≡ false = ground arith in rw e refl))

  backend_finish-Writes :
      (a : Attempt) (turn : String) (status : JobStatus) (event : ExecutionAttemptEventType)
      (result : String) (error quarantine_reason : Option String) (now : ℕ)
      → (status ≡ JobStatus.succeeded) ⊎ (status ≡ JobStatus.failed)
      → Moves writes (
          Endings.finish_backend_with_outbox js scope a turn status event result error
            quarantine_reason now)
  unfolding Endings.finish_backend_with_outbox Jobs.require_if
  backend_finish-Writes a turn status event result error quarantine_reason now ends =
      bind-Moves
        (transaction-Moves (
          bind-Moves
            (update_jobs-Writes _ _
              (λ db r h. finishes status error now ends (ground arith) (ground arith) refl))
            λ finished. if-Moves _ (pure-Moves false) (
              then-Moves (append-Writes js scope _) (
                then-Moves (upsert-Writes js scope _ _ now) (
                  then-Moves (quarantine?-Writes a turn quarantine_reason now)
                    (search (calls, clear_turn-Writes)))))))
        (λ done. search calls)

  pub backend_succeed-Writes :
      (a : Attempt) (turn result : String) (now : ℕ)
      → Moves writes (Endings.finish_backend_success js scope a turn result now)
  unfolding Endings.finish_backend_success
  backend_succeed-Writes a turn result now =
      backend_finish-Writes a turn JobStatus.succeeded ExecutionAttemptEventType.succeeded result
        none none now (inl refl)

  pub backend_fail-Writes :
      (a : Attempt) (turn result error : String) (now : ℕ)
      → Moves writes (Endings.finish_backend_failure js scope a turn result error now)
  unfolding Endings.finish_backend_failure
  backend_fail-Writes a turn result error now =
      backend_finish-Writes a turn JobStatus.failed ExecutionAttemptEventType.failed result
        (some error) none now (inr refl)

  pub credential_fail-Writes :
      (a : Attempt) (turn result error reason : String) (now : ℕ)
      → Moves writes
          (Endings.finish_backend_credential_failure js scope a turn result error reason now)
  unfolding Endings.finish_backend_credential_failure
  credential_fail-Writes a turn result error reason now =
      then-Moves (when-Moves _ (throw-Moves _)) (
        backend_finish-Writes a turn JobStatus.failed ExecutionAttemptEventType.failed result
          (some error) (some reason) now (inr refl))

  pub backend_disconnect-Writes :
      (backend connector reason : String) (now : ℕ)
      → Moves writes (Disconnect.mark_backend_disconnected js scope backend connector reason now)
  unfolding Disconnect.mark_backend_disconnected
  backend_disconnect-Writes backend connector reason now = transaction-Moves (
      bind-Moves (query-Moves _) λ attempts. then-Moves (isolate_job-Writes _ reason now) (
        bind-Moves (update_sessions-Writes _ _ _ (λ db s h t. flags none now (kept_turn now s)))
          λ marked.
            bind-Moves
              (bind-Moves
                (update_jobs-Writes _ _ (λ db r h.
                  lost-RowStep Endings.Loss.cancel_unknown reason now db r (ground arith)))
                λ cancelled.
                  bind-Moves
                    (update_jobs-Writes _ _ (λ db r h.
                      lost-RowStep Endings.Loss.interrupted reason now db r (ground arith)))
                    (λ stopped. pure-Moves _))
              λ changed. then-Moves (when-Moves _ (throw-Moves _)) (
                then-Moves (for_each-Writes _ attempts (λ a. append-Writes js scope _))
                  (pure-Moves _))))
