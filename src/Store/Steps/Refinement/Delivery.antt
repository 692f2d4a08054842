-- ===== src/Store/Steps/Refinement/Delivery.antt =====
-- The calls of src/state/store.ts on results and their delivery, as writes of the abstract store.
use livis_chatgpt_bridge.Prelude.{holds-eq, ℕ, ◌≡◌, refl, Bool, true, false, String, arith}
use livis_chatgpt_bridge.Store.Schema.{Database, OutboxRow}
use livis_chatgpt_bridge.Store.Monad.Moves.{
  Moves, run-Moves, insert_unless-Moves, pure-Moves, bind-Moves, then-Moves, when-Moves,
  transaction-Moves,
}
use livis_chatgpt_bridge.Store.Outbox
use livis_chatgpt_bridge.Store.Steps.{
  OutboxStep, starts, retries, resets, undelivers, confirms, backs_off, inserts_attempt,
  deletes_attempt,
}
use livis_chatgpt_bridge.Store.Steps.Refinement.{
  writes, one, update_outbox-Writes, require-Writes, calls,
}

insert_attempt-Writes :
    (scope job_id message : String) (now : ℕ)
    → Moves writes (Outbox.insert_attempt scope job_id message now)
unfolding Outbox.insert_attempt
insert_attempt-Writes scope job_id message now =
    insert_unless-Moves _ _ _ (λ db h. one (inserts_attempt _ h refl))

require_outbox-Writes : (scope job_id : String) → Moves writes (Outbox.require_outbox scope job_id)
unfolding Outbox.require_outbox
require_outbox-Writes scope job_id = bind-Moves (require-Writes scope job_id) (λ job. pure-Moves _)

module _ (scope : String) where
  starting :
      (retry : Bool) (job_id message : String) (now : ℕ) (db : Database) (o : OutboxRow)
      → Outbox.deliverable scope job_id retry now db o ≡ true
      → OutboxStep db o (Outbox.delivering_row message retry now o)
  unfolding Outbox.deliverable
  starting true job_id message now db o h = retries message now (ground arith) refl
  starting false job_id message now db o h = starts message now (ground arith) refl

  pub start-Writes :
      (job_id message : String) (retry : Bool) (now : ℕ)
      → Moves writes (Outbox.start_result_delivery scope job_id message retry now)
  unfolding Outbox.start_result_delivery
  start-Writes job_id message retry now =
      bind-Moves
        (transaction-Moves (
          bind-Moves (update_outbox-Writes _ _ (starting retry job_id message now))
            (λ changed. search (calls, insert_attempt-Writes))))
        (λ changed. search (calls, require_outbox-Writes))

  pub reset_outbox-Writes :
      (job_id : String) (now : ℕ) → Moves writes (Outbox.reset_outbox_pending scope job_id now)
  unfolding Outbox.reset_outbox_pending
  reset_outbox-Writes job_id now =
      bind-Moves (update_outbox-Writes _ _ (λ db o h. resets now (ground arith) refl))
        (λ _. require_outbox-Writes scope job_id)

  pub undeliver-Writes :
      (job_id message : String) (retry : Bool) (now : ℕ)
      → Moves writes (Outbox.reset_outbox_pending_after_send_failure scope job_id message retry now)
  unfolding Outbox.reset_outbox_pending_after_send_failure
  undeliver-Writes job_id message retry now =
      then-Moves
        (transaction-Moves (
          bind-Moves
            (update_outbox-Writes _ _ λ db o h.
              undelivers message retry now (ground arith)
                (holds-eq o.last_message_id message (ground arith)) refl)
            (λ changed. when-Moves _ (run-Moves _ (λ db. one (deletes_attempt _ refl))))))
        (require_outbox-Writes scope job_id)

  pub confirm-Writes :
      (job_id : String) (now : ℕ) → Moves writes (Outbox.mark_outbox_delivered scope job_id now)
  unfolding Outbox.mark_outbox_delivered
  confirm-Writes job_id now =
      bind-Moves
        (update_outbox-Writes _ _ (λ db o h. confirms now (ground arith) (ground arith) refl))
        (λ changed. search (calls, require_outbox-Writes))

  pub back_off-Writes :
      (job_id : String) (next_attempt_at now : ℕ)
      → Moves writes (Outbox.mark_outbox_ack_failed scope job_id next_attempt_at now)
  unfolding Outbox.mark_outbox_ack_failed
  back_off-Writes job_id next_attempt_at now =
      bind-Moves
        (update_outbox-Writes _ _ (λ db o h. backs_off next_attempt_at now (ground arith) refl))
        (λ _. require_outbox-Writes scope job_id)
