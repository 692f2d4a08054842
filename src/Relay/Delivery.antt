-- ===== src/Relay/Delivery.antt =====
-- src/relay/client.ts: the delivery of results over the outbox of the job store. The outcome of a
-- send, the ids of the messages and the times are arguments.
use livis_chatgpt_bridge.Prelude.{
  ℕ, ◌+◌, ◌*◌, ◌^◌, min, max, Bool, true, false, not, List, [], ◌∷◌, Option, none, some, String,
  str_eq, if◌then◌else◌, ltb,
}
use livis_chatgpt_bridge.Types.{StoredJob, StoredOutbox, is_delivering, OutboxStatus, delivered}
use livis_chatgpt_bridge.Store.Schema.{Database}
use livis_chatgpt_bridge.Store.Monad.{StoreError, Result, ok, err}
use livis_chatgpt_bridge.Store.Reads.{get}
use livis_chatgpt_bridge.Store.Table.{delete}
use livis_chatgpt_bridge.Store.Outbox.{
  start_result_delivery, reset_outbox_pending, reset_outbox_pending_after_send_failure,
  mark_outbox_delivered, find_job_id_by_outbox_message_id, mark_outbox_ack_failed,
}
use livis_chatgpt_bridge.Store.Lists.{next_outbox_attempt_at}

-- The fields of `RelayClient` that the delivery uses: `result_ack_timers` by job, the time at which
-- the outbox is to be replayed, and the results that went out with their messages.
pub record Courier : Type 0 where
  pub store : Database
  pub connected : Bool
  pub result_ack_timers : List String
  pub outbox_recovery_at : Option ℕ
  pub sent : List (String × String)

-- What a call throws.
pub data DeliveryError : Type 0 where
  store_error : StoreError → DeliveryError
  send_failure : DeliveryError

abbrev pub is_delivered : OutboxStatus → Bool
is_delivered delivered = true
is_delivered _ = false

abbrev pub Outcome : Type 0
Outcome = Option DeliveryError × Courier

unfoldable pub result_recovery_delay_ms : ℕ → ℕ → ℕ
result_recovery_delay_ms result_ack_timeout_ms retry_count =
    min (5 * 60000) (result_ack_timeout_ms * 2 ^ min (max retry_count 1) 6)

unfoldable pub outbox_of_job : Option StoredJob → Option StoredOutbox
outbox_of_job none = none
outbox_of_job (some job) = job.outbox

-- A string that is not empty, else null.
unfoldable pub non_empty : Option String → Option String
non_empty none = none
non_empty (some s) = if str_eq s "" then none else some s

unfoldable pub timer_error : {A : Type 0} → Result A → Option DeliveryError
timer_error (ok a) = none
timer_error (err e) = some (store_error e)

module _ (scope : String) where
  -- The two tests of one round of `resolveAckJobId`, and the rest of the loop.
  unfoldable pub resolve :
      Option StoredOutbox → Option String → String → Option String → Option String
  resolve (some o) mapped candidate rest = some candidate
  resolve none (some id) candidate rest = some id
  resolve none none candidate rest = rest

  unfoldable pub resolve_ack_job_id : Database → List String → Option String
  unfolding resolve outbox_of_job non_empty
  resolve_ack_job_id db [] = none
  resolve_ack_job_id db (candidate ∷ candidates) =
      resolve (outbox_of_job (get scope candidate db))
        (non_empty (find_job_id_by_outbox_message_id scope candidate db)) candidate
        (resolve_ack_job_id db candidates)

  unfoldable pub schedule_outbox_recovery : Courier → Courier
  schedule_outbox_recovery c = record c {
    outbox_recovery_at = if c.connected then next_outbox_attempt_at scope c.store else none;
  }

  -- `resultAckTimers.set`, after the send.
  unfoldable pub sent_result : String → String → Courier → Courier
  sent_result job_id message_id c = record c {
    sent = (job_id, message_id) ∷ c.sent;
    result_ack_timers = job_id ∷ delete (str_eq job_id) c.result_ack_timers;
  }

  -- What follows `startResultDelivery`.
  unfoldable pub send_started :
      String → String → Bool → Bool → ℕ → Result (Option StoredOutbox) → Courier → Outcome
  unfolding sent_result
  send_started job_id message_id retry can_send now (err e) c = (some (store_error e), c)
  send_started job_id message_id retry can_send now (ok none) c = (none, c)
  send_started job_id message_id retry can_send now (ok (some o)) c =
      if can_send then (none, sent_result job_id message_id c) else (
        some send_failure,
        record c {
          store =
              (reset_outbox_pending_after_send_failure scope job_id message_id retry now c.store).1;
        },
      )

  unfoldable pub deliver_result : String → String → Bool → Bool → ℕ → Courier → Outcome
  unfolding send_started timer_error
  deliver_result job_id message_id retry can_send now c =
      if not c.connected
      then (if retry
          then (
            timer_error (reset_outbox_pending scope job_id now c.store).0,
            record c { store = (reset_outbox_pending scope job_id now c.store).1 },
          )
          else (none, c))
      else (let started = start_result_delivery scope job_id message_id retry now c.store in
          send_started job_id message_id retry can_send now started.0
            (record c { store = started.1 }))

  -- A call of the store, and what follows unless it throws.
  unfoldable pub after_store :
      Result (Option StoredOutbox) × Database
      → (Option StoredOutbox → Courier → Courier)
      → Courier
      → Courier
  after_store (ok o, db) k c = k o (record c { store = db })
  after_store (err e, db) k c = record c { store = db }

  -- The back-off of a result whose retries are used up.
  unfoldable pub give_up : String → ℕ → ℕ → ℕ → Courier → Courier
  unfolding schedule_outbox_recovery result_recovery_delay_ms after_store
  give_up job_id timeout_ms retry_count now c =
      after_store
        (mark_outbox_ack_failed scope job_id (now + result_recovery_delay_ms timeout_ms retry_count)
          now c.store)
        (λ o. schedule_outbox_recovery) c

  unfoldable pub ack_overdue :
      ℕ → ℕ → String → String → Bool → ℕ → Option StoredOutbox → Courier → Outcome
  unfolding deliver_result give_up
  ack_overdue max_retries timeout_ms job_id message_id can_send now none c = (none, c)
  ack_overdue max_retries timeout_ms job_id message_id can_send now (some o) c =
      if not (is_delivering o.status)
      then (none, c)
      else (if not c.connected
          then (none, record c { store = (reset_outbox_pending scope job_id now c.store).1 })
          else (if ltb o.retry_count max_retries
              then deliver_result job_id message_id true can_send now c
              else (none, give_up job_id timeout_ms o.retry_count now c)))

  -- The timer that waits for the ACK of a result.
  unfoldable pub ack_timer_fires : ℕ → ℕ → String → String → Bool → ℕ → Courier → Outcome
  unfolding ack_overdue outbox_of_job
  ack_timer_fires max_retries timeout_ms job_id message_id can_send now c =
      ack_overdue max_retries timeout_ms job_id message_id can_send now
        (outbox_of_job (get scope job_id c.store))
        (record c { result_ack_timers = delete (str_eq job_id) c.result_ack_timers })

  -- The timer of a result that is delivered is cleared.
  unfoldable pub clear_timer_if : String → Option StoredOutbox → Courier → Courier
  clear_timer_if job_id none c = c
  clear_timer_if job_id (some o) c =
      if is_delivered o.status
      then record c { result_ack_timers = delete (str_eq job_id) c.result_ack_timers }
      else c

  -- `ack_send_result` of `handleEnvelope`, for the job that its ids belong to.
  unfoldable pub acknowledge : Option String → ℕ → Courier → Courier
  unfolding schedule_outbox_recovery clear_timer_if after_store
  acknowledge none now c = c
  acknowledge (some job_id) now c =
      after_store (mark_outbox_delivered scope job_id now c.store)
        (λ o d. clear_timer_if job_id o (schedule_outbox_recovery d)) c

  unfoldable pub ack_send_result : List String → ℕ → Courier → Courier
  unfolding acknowledge resolve_ack_job_id
  ack_send_result candidates now c = acknowledge (resolve_ack_job_id c.store candidates) now c

  -- `clearResultTimers(true)`, when the connection is lost: an error leaves the timers.
  unfoldable pub clear_from : List String → ℕ → Courier → Courier
  unfolding after_store
  clear_from [] now c = record c { result_ack_timers = [] }
  clear_from (job_id ∷ timers) now c =
      after_store (reset_outbox_pending scope job_id now c.store) (λ o. clear_from timers now) c

  unfoldable pub clear_result_timers : ℕ → Courier → Courier
  unfolding clear_from
  clear_result_timers now c = clear_from c.result_ack_timers now c
