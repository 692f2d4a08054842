-- ===== src/Store/Outbox/Undo.antt =====
-- A delivery whose `send()` failed is taken back: `startResultDelivery` followed by
-- `resetOutboxPendingAfterSendFailure` of src/state/store.ts.
use livis_chatgpt_bridge.Prelude.{
  ℕ, ◌-◌, ◌≡◌, refl, sym, ap, subst, ◌∙◌, Bool, true, false, not, ◌&&◌, [], ◌∷◌, ◌++◌, Option, none,
  some, String, arith, str_eq, str_eq_refl, eq_iff, if◌then◌else◌, ltb, holds, &&-left, &&-right,
}
use livis_chatgpt_bridge.Types.{pending, is_delivering, is_ack_failed, StoredJob}
use livis_chatgpt_bridge.Store.Schema.{
  Database, OutboxRow, DeliveryAttemptRow, is_outbox, is_attempt_of,
}
use livis_chatgpt_bridge.Store.Table.{
  select, exists, update, delete, changes, AtMostOne, changes_one, select-update_hit, select_hit,
  AtMostOne-update_where,
}
use livis_chatgpt_bridge.Store.Monad.{
  ◌>>=◌, ◌>>◌, pure, throw, query, run, when, update_outbox, transaction, insert_unless,
}
use livis_chatgpt_bridge.Store.Reads.{get, require, found}
use livis_chatgpt_bridge.Store.Outbox.{
  can_start, deliverable, delivering_row, unsent_row, latest, message_of, time_of, require_outbox,
  outbox_of, start_result_delivery, reset_outbox_pending_after_send_failure,
}
use livis_chatgpt_bridge.Store.Outbox.Attempts.{
  has_message, delete-append_fresh, latest-append_fresh,
}

found_outbox-keeps : (o : Option StoredJob) (db : Database) → ((found o >>= outbox_of) db).1 ≡ db
unfolding found outbox_of ◌>>=◌ pure throw
found_outbox-keeps none db = refl
found_outbox-keeps (some job) db = refl

require_outbox-keeps :
    (scope job_id : String) (db : Database) → (require_outbox scope job_id db).1 ≡ db
unfolding require_outbox require query ◌>>=◌
require_outbox-keeps scope job_id db = found_outbox-keeps (get scope job_id db) db

module _ (scope job_id message : String) (retry : Bool) (now : ℕ) (db : Database) where
  abbrev attempt : DeliveryAttemptRow
  attempt = record { scope_key = scope; message_id = message; job_id = job_id; created_at = now }

  abbrev started : Database
  started = record db {
    outbox =
        update (deliverable scope job_id retry now db) (delivering_row message retry now) db.outbox;
    outbox_delivery_attempts = db.outbox_delivery_attempts ++ attempt ∷ [];
  }

  start-effect :
      changes (deliverable scope job_id retry now db) db.outbox ≡ 1
      → exists (has_message scope message) db.outbox_delivery_attempts ≡ false
      → (start_result_delivery scope job_id message retry now db).1 ≡ started
  unfolding start_result_delivery transaction ◌>>=◌ ◌>>◌ update_outbox when insert_unless pure
  start-effect one fresh = ground (arith, require_outbox-keeps scope job_id started)

  -- The WHERE clause of `resetOutboxPendingAfterSendFailure`.
  abbrev unsendable : OutboxRow → Bool
  unsendable o =
      is_outbox scope job_id o && (is_delivering o.status && holds o.last_message_id message)

  abbrev unsent : Database
  unsent = record db {
    outbox = update unsendable (unsent_row message retry now db) db.outbox;
    outbox_delivery_attempts =
        delete (λ a. is_attempt_of scope job_id a && str_eq a.message_id message)
          db.outbox_delivery_attempts;
  }

  undo-effect :
      changes unsendable db.outbox ≡ 1
      → (reset_outbox_pending_after_send_failure scope job_id message retry now db).1 ≡ unsent
  unfolding reset_outbox_pending_after_send_failure transaction ◌>>=◌ ◌>>◌ update_outbox when run
      pure
  undo-effect one = ground (arith, require_outbox-keeps scope job_id unsent)

-- The retry count of the row before: a delivery out of `AckFailed` has started a new cycle.
abbrev pub retries_before : OutboxRow → ℕ
retries_before o = if is_ack_failed o.status then 0 else o.retry_count

-- The row as it is after the delivery is taken back.
abbrev pub taken_back : Database → ℕ → OutboxRow → OutboxRow
taken_back db later o = record o {
  status = pending;
  retry_count = retries_before o;
  last_message_id =
      message_of (latest (is_attempt_of o.scope_key o.job_id) db.outbox_delivery_attempts);
  delivered_at = time_of (latest (is_attempt_of o.scope_key o.job_id) db.outbox_delivery_attempts);
  next_attempt_at = none;
  updated_at = later;
}

module _ (scope job_id message : String) (retry : Bool) (now later : ℕ) (db : Database)
    (o : OutboxRow) (keyed : AtMostOne (is_outbox scope job_id) db.outbox)
    (stored : select (is_outbox scope job_id) db.outbox ≡ some o)
    (can : can_start retry now db o ≡ true)
    (fresh : exists (has_message scope message) db.outbox_delivery_attempts ≡ false) where
  one_started : changes (deliverable scope job_id retry now db) db.outbox ≡ 1
  unfolding deliverable
  one_started =
      changes_one (is_outbox scope job_id) (can_start retry now db) db.outbox o keyed stored can

  started_row :
      select (is_outbox scope job_id) (started scope job_id message retry now db).outbox
      ≡ some (delivering_row message retry now o)
  unfolding deliverable delivering_row
  started_row =
      select-update_hit (is_outbox scope job_id) (can_start retry now db)
        (delivering_row message retry now) db.outbox o (λ x. refl) stored can

  started_keyed :
      AtMostOne (is_outbox scope job_id) (started scope job_id message retry now db).outbox
  unfolding delivering_row
  started_keyed = AtMostOne-update_where (is_outbox scope job_id) _ _ db.outbox (λ r m. refl) keyed

  abbrev sent : OutboxRow
  sent = delivering_row message retry now o

  can_undo : (is_delivering sent.status && holds sent.last_message_id message) ≡ true
  unfolding delivering_row
  can_undo = str_eq_refl message

  one_undone :
      changes
        (unsendable scope job_id message retry later (started scope job_id message retry now db))
        (started scope job_id message retry now db).outbox
      ≡ 1
  one_undone =
      changes_one (is_outbox scope job_id)
        (λ x. is_delivering x.status && holds x.last_message_id message) _ sent started_keyed
        started_row can_undo

  undone_row :
      select
        (is_outbox scope job_id)
        (unsent scope job_id message retry later (started scope job_id message retry now db)).outbox
      ≡ some (unsent_row message retry later (started scope job_id message retry now db) sent)
  unfolding unsent_row
  undone_row =
      select-update_hit (is_outbox scope job_id)
        (λ x. is_delivering x.status && holds x.last_message_id message) _ _ sent (λ x. refl)
        started_row can_undo

  IsPrevious : String → String → Type 0
  IsPrevious s j =
      latest (λ b. is_attempt_of s j b && not (str_eq b.message_id message))
        (db.outbox_delivery_attempts ++ attempt scope job_id message retry now db ∷ [])
      ≡ latest (is_attempt_of s j) db.outbox_delivery_attempts

  previous : IsPrevious o.scope_key o.job_id
  unfolding IsPrevious
  previous =
      subst (λ s. IsPrevious s o.job_id)
        (sym ((eq_iff o.scope_key scope).0 (&&-left _ _ (select_hit _ db.outbox stored))))
        (subst (λ j. IsPrevious scope j)
          (sym ((eq_iff o.job_id job_id).0 (&&-right _ _ (select_hit _ db.outbox stored))))
          (latest-append_fresh scope job_id message db.outbox_delivery_attempts _ fresh
            (str_eq_refl message)))

  retries_back :
      (if retry && ltb 0 sent.retry_count then sent.retry_count - 1 else sent.retry_count)
      ≡ retries_before o
  unfolding delivering_row
  retries_back = ground arith

  row_back :
      unsent_row message retry later (started scope job_id message retry now db) sent
      ≡ taken_back db later o
  unfolding unsent_row delivering_row IsPrevious
  row_back = ground (arith, previous, retries_back)

  attempts_back :
      (unsent scope job_id message retry later
        (started scope job_id message retry now db)).outbox_delivery_attempts
      ≡ db.outbox_delivery_attempts
  attempts_back =
      delete-append_fresh scope job_id message db.outbox_delivery_attempts _ fresh
        (rw (str_eq_refl scope, str_eq_refl job_id, str_eq_refl message))

  -- A delivery attempt that was started and whose message could not be sent leaves no trace: the
  -- attempts are those of before, and the result is `Pending` again with the message id and the
  -- delivery time of the latest attempt of before, and with the retry count of before (0 if it was in
  -- `AckFailed`). It needs the one outbox row of the job to be deliverable, and a message id that no
  -- attempt of the scope has.
  pub undo-start :
      let d =
        (reset_outbox_pending_after_send_failure scope job_id message retry later
          (start_result_delivery scope job_id message retry now db).1).1 in
      (d.outbox_delivery_attempts ≡ db.outbox_delivery_attempts)
      × (select (is_outbox scope job_id) d.outbox ≡ some (taken_back db later o))
  undo-start = rw (start-effect scope job_id message retry now db one_started fresh) (
      rw
        (undo-effect scope job_id message retry later (started scope job_id message retry now db)
          one_undone)
        (attempts_back, undone_row ∙ ap some row_back))
