-- ===== src/Store/Outbox.antt =====
-- src/state/store.ts: the delivery of stored results.
pub mod Attempts
pub mod Undo
use livis_chatgpt_bridge.Prelude.{
  ℕ, suc, ◌+◌, ◌-◌, Bool, true, false, not, ◌&&◌, ◌||◌, List, [], ◌∷◌, ◌++◌, Option, none, some,
  String, ltb, leb, ◌==◌, if◌then◌else◌, str_eq, holds, take,
}
use livis_chatgpt_bridge.Types.{
  OutboxStatus, pending, delivering, delivered, ack_failed, is_pending, is_delivering,
  is_ack_failed, StoredJob, StoredOutbox,
}
use livis_chatgpt_bridge.Store.Schema.{
  Database, JobRow, OutboxRow, DeliveryAttemptRow, is_key, is_job, is_outbox, is_attempt_of,
  outbox_view,
}
use livis_chatgpt_bridge.Store.Table.{select, exists, delete}
use livis_chatgpt_bridge.Store.Monad.{
  M, ok, ◌>>=◌, ◌>>◌, pure, throw, query, run, when, update_outbox, transaction, insert_unless,
  constraint_failed,
}
use livis_chatgpt_bridge.Store.Reads.{get, require}

-- next_attempt_at IS NOT NULL AND next_attempt_at<=now
abbrev pub is_due : ℕ → Option ℕ → Bool
is_due now none = false
is_due now (some t) = leb t now

abbrev pub is_retryable : ℕ → OutboxRow → Bool
is_retryable now o = is_pending o.status || (is_ack_failed o.status && is_due now o.next_attempt_at)

-- ORDER BY created_at DESC, rowid DESC LIMIT 1: among the rows that satisfy the test, the last of
-- those with the greatest time.
later : DeliveryAttemptRow → Option DeliveryAttemptRow → DeliveryAttemptRow
later a none = a
later a (some b) = if leb a.created_at b.created_at then b else a

unfoldable pub latest :
    (DeliveryAttemptRow → Bool) → List DeliveryAttemptRow → Option DeliveryAttemptRow
unfolding later
latest p [] = none
latest p (a ∷ rows) = if p a then some (later a (latest p rows)) else latest p rows

abbrev pub message_of : Option DeliveryAttemptRow → Option String
message_of none = none
message_of (some a) = some a.message_id

abbrev pub time_of : Option DeliveryAttemptRow → Option ℕ
time_of none = none
time_of (some a) = some a.created_at

unfoldable pub delivering_row : String → Bool → ℕ → OutboxRow → OutboxRow
delivering_row message_id retry now o = record o {
  status = delivering;
  last_message_id = some message_id;
  retry_count = if is_ack_failed o.status then 0 else o.retry_count + (if retry then 1 else 0);
  next_attempt_at = none;
  delivered_at = some now;
  updated_at = now;
}

-- The attempts of the row's job but the one that failed.
abbrev pub is_previous : String → OutboxRow → DeliveryAttemptRow → Bool
is_previous message_id o a =
    is_attempt_of o.scope_key o.job_id a && not (str_eq a.message_id message_id)

unfoldable pub unsent_row : String → Bool → ℕ → Database → OutboxRow → OutboxRow
unsent_row message_id retry now db o = record o {
  status = pending;
  retry_count = if retry && ltb 0 o.retry_count then o.retry_count - 1 else o.retry_count;
  last_message_id = message_of (latest (is_previous message_id o) db.outbox_delivery_attempts);
  delivered_at = time_of (latest (is_previous message_id o) db.outbox_delivery_attempts);
  next_attempt_at = none;
  updated_at = now;
}

-- status IN ('Pending','Delivering','AckFailed')
abbrev pub is_undelivered : OutboxStatus → Bool
is_undelivered delivered = false
is_undelivered _ = true

abbrev pub not_cancelled : Database → OutboxRow → Bool
not_cancelled db o = exists (λ j. is_job o.scope_key o.job_id j && not j.cancel_requested) db.jobs

-- What `startResultDelivery` asks of the row and of its job, apart from the key.
abbrev pub can_start : Bool → ℕ → Database → OutboxRow → Bool
can_start retry now db o =
    (if retry then is_delivering o.status else is_retryable now o) && not_cancelled db o

-- The outbox of the job that `require` reads.
unfoldable pub outbox_of : StoredJob → M (Option StoredOutbox)
outbox_of job = pure job.outbox

module _ (scope : String) where
  unfoldable pub require_outbox : String → M (Option StoredOutbox)
  unfolding outbox_of
  require_outbox job_id = do job ← require scope job_id; outbox_of job

  -- The WHERE clause of `startResultDelivery`.
  unfoldable pub deliverable : String → Bool → ℕ → Database → OutboxRow → Bool
  deliverable job_id retry now db o = is_outbox scope job_id o && can_start retry now db o

  -- INSERT INTO outbox_delivery_attempts; its primary key is (scope_key, message_id).
  unfoldable pub insert_attempt : String → String → ℕ → M (Unit {0})
  insert_attempt job_id message_id now =
      insert_unless constraint_failed
        (λ db.
          exists (λ a. is_key scope message_id a.scope_key a.message_id)
            db.outbox_delivery_attempts)
        (λ db. record db {
          outbox_delivery_attempts =
              db.outbox_delivery_attempts
              ++ record {
                scope_key = scope;
                message_id = message_id;
                job_id = job_id;
                created_at = now;
              }
                ∷ [];
        })

  start_transaction : String → String → Bool → ℕ → M Bool
  unfolding deliverable delivering_row insert_attempt
  start_transaction job_id message_id retry now = do
    changed ←
        update_outbox (deliverable job_id retry now) (λ db. delivering_row message_id retry now)
    when (changed == 1) (insert_attempt job_id message_id now)
    pure (changed == 1)

  unfoldable pub start_result_delivery : String → String → Bool → ℕ → M (Option StoredOutbox)
  unfolding start_transaction require_outbox
  start_result_delivery job_id message_id retry now = do
    changed ← transaction (start_transaction job_id message_id retry now)
    if changed then require_outbox job_id else pure none

  unfoldable pub reset_outbox_pending : String → ℕ → M (Option StoredOutbox)
  unfolding require_outbox
  reset_outbox_pending job_id now = do
    changed ←
        update_outbox (λ db o. is_outbox scope job_id o && is_delivering o.status)
          (λ db o. record o { status = pending; next_attempt_at = none; updated_at = now })
    require_outbox job_id

  delete_attempt : String → String → M (Unit {0})
  delete_attempt job_id message_id = run λ db. record db {
    outbox_delivery_attempts =
        delete (λ a. is_attempt_of scope job_id a && str_eq a.message_id message_id)
          db.outbox_delivery_attempts;
  }

  unsent_transaction : String → String → Bool → ℕ → M (Unit {0})
  unfolding unsent_row delete_attempt
  unsent_transaction job_id message_id retry now = do
    reset ←
        update_outbox
          (λ db o.
            is_outbox scope job_id o
            && (is_delivering o.status && holds o.last_message_id message_id))
          (unsent_row message_id retry now)
    when (reset == 1) (delete_attempt job_id message_id)

  unfoldable pub reset_outbox_pending_after_send_failure :
      String → String → Bool → ℕ → M (Option StoredOutbox)
  unfolding unsent_transaction require_outbox
  reset_outbox_pending_after_send_failure job_id message_id retry now = do
    transaction (unsent_transaction job_id message_id retry now)
    require_outbox job_id

  -- The WHERE clause of `markOutboxDelivered`.
  unfoldable pub acknowledgeable : String → Database → OutboxRow → Bool
  acknowledgeable job_id db o =
      is_outbox scope job_id o
      && (is_undelivered o.status
          && exists (is_attempt_of o.scope_key o.job_id) db.outbox_delivery_attempts)

  unfoldable pub mark_outbox_delivered : String → ℕ → M (Option StoredOutbox)
  unfolding acknowledgeable require_outbox
  mark_outbox_delivered job_id now = do
    changed ← update_outbox (acknowledgeable job_id) (λ db o. record o {
      status = delivered;
      next_attempt_at = none;
      acked_at = some now;
      updated_at = now;
    })
    if changed == 1 then require_outbox job_id else pure none

  job_of : Option DeliveryAttemptRow → Option String
  job_of none = none
  job_of (some a) = some a.job_id

  unfoldable pub find_job_id_by_outbox_message_id : String → Database → Option String
  unfolding job_of
  find_job_id_by_outbox_message_id message_id db =
      job_of
        (select (λ a. is_key scope message_id a.scope_key a.message_id) db.outbox_delivery_attempts)

  unfoldable pub mark_outbox_ack_failed : String → ℕ → ℕ → M (Option StoredOutbox)
  unfolding require_outbox
  mark_outbox_ack_failed job_id next_attempt_at now = do
    changed ←
        update_outbox (λ db o. is_outbox scope job_id o && is_delivering o.status)
          (λ db o. record o {
            status = ack_failed;
            next_attempt_at = some next_attempt_at;
            updated_at = now;
          })
    require_outbox job_id
