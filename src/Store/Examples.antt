-- ===== src/Store/Examples.antt =====
-- The job store of src/state/store.ts at concrete inputs.
use Prim.Native.String.{count}
use livis_chatgpt_bridge.Prelude.{
  str_eq, ℕ, ◌≡◌, refl, inr, true, false, ◌⊎◌, List, [], ◌∷◌, none, some,
}
use livis_chatgpt_bridge.Types.{JobStatus, ack_failed, hermes, IncomingRelayJob}
use livis_chatgpt_bridge.Store.Schema.{
  Database, JobRow, OutboxRow, DeliveryAttemptRow, Runtime, is_job, is_outbox, is_intent,
  row_to_job, business_payload_hash,
}
use livis_chatgpt_bridge.Store.Table.{select, exists, delete, update, changes}
use livis_chatgpt_bridge.Store.Monad.{
  ok, ◌>>=◌, ◌>>◌, transaction, update_jobs, query, when, pure, throw, insert_unless,
}
use livis_chatgpt_bridge.Store.Jobs.{
  ingest, new_row, claim_transaction, require_if, claimed_row, append_current, claimable,
  claim_for_dispatch,
}
use livis_chatgpt_bridge.Store.Outbox.{
  start_result_delivery, reset_outbox_pending_after_send_failure,
}
use livis_chatgpt_bridge.Store.Outbox.Undo.{undo-start, taken_back}
use livis_chatgpt_bridge.Store.Claim.{Claimable, Taken, claim_for_dispatch-Taken}
use livis_chatgpt_bridge.Store.Reads.{get, require, found, view}
use livis_chatgpt_bridge.Store.Ledger.{
  append_execution_attempt_event, append_to, event_for, insert_result, insert_event,
  satisfies_checks, max_sequence, bounded_attempt_reason, metadata_complete, is_sha256?, all_hex,
  reason_fits,
}
use livis_chatgpt_bridge.Store.Commands.{
  Command, ingests, acks, claims, runs, succeeds, cancels, step, history, empty,
}
use livis_chatgpt_bridge.Store.Lifecycle.Growth.{Evolves}
use livis_chatgpt_bridge.Store.Lifecycle.Fate.{history-job, history-terminal}
use livis_chatgpt_bridge.Store.Steps.{Writes}
use livis_chatgpt_bridge.Store.Steps.Runs.{step-Writes}
use livis_chatgpt_bridge.Store.Invariant.Rows.{JobsConsistent, history-JobsConsistent}
use livis_chatgpt_bridge.Store.Invariant.Sessions.{SessionsExclusive, history-SessionsExclusive}
use livis_chatgpt_bridge.Store.Invariant.Ledger.{Extends, history-Extends}
use livis_chatgpt_bridge.Store.Invariant.Numbering.{Numbered, history-Numbered}
use livis_chatgpt_bridge.Store.Invariant.Intents.{IntentsBounded, history-IntentsBounded}
use livis_chatgpt_bridge.Store.EarlyCancel.{cancelled_row, ingest_cancelled}

abbrev js : Runtime
js = record {
  sha256 = λ s. s;
  stringify = λ b. b.text;
  string_length = count;
  number_to_string = λ n. "n";
  trims_to_nothing = λ s. str_eq s "";
}

abbrev job : IncomingRelayJob
job = record {
  job_id = "j1";
  message_id = "m1";
  from_node_id = "glasses";
  from_node_type = none;
  text = "hello";
  timestamp = 5;
  raw_payload = "{}";
}

-- Two jobs of one session: the second is claimed only after the first is done.
abbrev day : List (ℕ × Command)
day =
    (10, ingests job "s" hermes)
    ∷ (11, acks "j1")
    ∷ (12, claims "j1" "c" "l1")
    ∷ (13, ingests (record job { job_id = "j2" }) "s" hermes)
    ∷ (14, claims "j2" "c" "l2")
    ∷ (15, runs "j1" "c" "l1")
    ∷ (16, succeeds "j1" "l1" "{}")
    ∷ (17, claims "j2" "c" "l3")
    ∷ (18, cancels "j2")
    ∷ []

abbrev statuses : List JobRow → List JobStatus
statuses [] = []
statuses (r ∷ rows) = r.status ∷ statuses rows

abbrev job_row : JobRow
job_row = new_row "me" job "hello" "s" hermes 10

abbrev done_row : JobRow
done_row = record job_row { status = JobStatus.succeeded; completed_at = some 16 }

abbrev holding : JobRow → Database
holding r = record {
  jobs = r ∷ [];
  outbox = [];
  outbox_delivery_attempts = [];
  session_quarantine = [];
  pending_cancels = [];
  backend_sessions = [];
  execution_attempt_events = [];
}

history-SessionsExclusive_example : SessionsExclusive (history js "me" day empty)
history-SessionsExclusive_example = history-SessionsExclusive js "me" day

step-Writes_example :
    Writes (holding job_row) (step js "me" 12 (claims "j1" "c" "l1") (holding job_row))
step-Writes_example = step-Writes js "me" 12 (claims "j1" "c" "l1") (holding job_row)

history-job_example :
    (s : JobRow) × (select (is_job "me" "j1") (history js "me" day (holding job_row)).jobs ≡ some s)
    × Evolves job_row s
unfolding select
history-job_example = history-job js "me" day (holding job_row) "j1" job_row refl

history-terminal_example :
    (s : JobRow) × (select (is_job "me" "j1") (history js "me" day (holding done_row)).jobs
      ≡ some s)
    × (s.status ≡ JobStatus.succeeded)
unfolding select
history-terminal_example = history-terminal js "me" day (holding done_row) "j1" done_row refl refl

history-JobsConsistent_example : JobsConsistent (history js "me" day empty)
history-JobsConsistent_example = history-JobsConsistent js "me" day

history-Extends_example : Extends (holding job_row) (history js "me" day (holding job_row))
history-Extends_example = history-Extends js "me" day (holding job_row)

history-Numbered_example : Numbered (history js "me" day empty)
history-Numbered_example = history-Numbered js "me" day

history-IntentsBounded_example : IntentsBounded (history js "me" day empty)
history-IntentsBounded_example = history-IntentsBounded js "me" day

-- A result that was sent once without an answer, with its job.
abbrev sent_once : OutboxRow
sent_once = record {
  scope_key = "me";
  job_id = "j1";
  status = ack_failed;
  result_json = "{}";
  retry_count = 3;
  last_message_id = some "a";
  next_attempt_at = some 40;
  created_at = 16;
  updated_at = 30;
  delivered_at = some 20;
  acked_at = none;
}

abbrev first_attempt : DeliveryAttemptRow
first_attempt = record { scope_key = "me"; message_id = "a"; job_id = "j1"; created_at = 20 }

abbrev backing_off : Database
backing_off = record (holding done_row) {
  outbox = sent_once ∷ [];
  outbox_delivery_attempts = first_attempt ∷ [];
}

undo-start_example :
    let d =
      (reset_outbox_pending_after_send_failure "me" "j1" "b" false 51
        (start_result_delivery "me" "j1" "b" false 50 backing_off).1).1 in
    (d.outbox_delivery_attempts ≡ backing_off.outbox_delivery_attempts)
    × (select (is_outbox "me" "j1") d.outbox ≡ some (taken_back backing_off 51 sent_once))
unfolding select exists
undo-start_example =
    undo-start "me" "j1" "b" false 50 51 backing_off sent_once (inr refl, tt) refl refl refl

abbrev waiting_cancel : Database
waiting_cancel = record empty {
  pending_cancels = record { scope_key = "me"; job_id = "j1"; created_at = 8 } ∷ [];
}

ingest_cancelled_example :
    let (outcome, d) = ingest js "me" job "s" hermes 10 waiting_cancel in
    (outcome ≡ ok (true, row_to_job (cancelled_row 10 job_row) none))
    × (select (is_job "me" "j1") d.jobs ≡ some (cancelled_row 10 job_row))
    × (exists (is_intent "me" "j1") d.pending_cancels ≡ false)
unfolding exists delete empty select business_payload_hash
ingest_cancelled_example = ingest_cancelled js "me" "s" hermes job 10 waiting_cancel refl refl

-- The session of the waiting job has another that is running.
abbrev busy : Database
busy = record (holding (record job_row { job_id = "j0"; status = JobStatus.running })) {
  jobs = record job_row { job_id = "j0"; status = JobStatus.running } ∷ job_row ∷ [];
}

-- The waiting job is claimed.
abbrev claimed_db : Database
claimed_db = (claim_for_dispatch js "me" "j1" "c" "l1" 12 (holding job_row)).1

claim_for_dispatch-Taken_example :
    (get "me" "j1" claimed_db ≡ none)
      × (claimed_db ≡ holding job_row)
      × ((r : JobRow)
          → select (is_job "me" "j1") (holding job_row).jobs ≡ some r
          → Claimable (holding job_row) r
          → ⊥)
    ⊎ (get "me" "j1" claimed_db ≡ get "me" "j1" claimed_db)
      × Taken "me" "j1" "c" "l1" 12 (holding job_row) claimed_db
unfolding claim_for_dispatch claim_transaction claimable require_if require get found view exists
    select update changes ◌>>=◌ ◌>>◌ transaction update_jobs query when pure throw claimed_row
    append_current append_execution_attempt_event append_to event_for insert_result insert_event
    insert_unless satisfies_checks max_sequence bounded_attempt_reason metadata_complete is_sha256?
    all_hex reason_fits
claim_for_dispatch-Taken_example =
    claim_for_dispatch-Taken js "me" "j1" "c" "l1" 12 (holding job_row) claimed_db
      (get "me" "j1" claimed_db) (inr refl, tt) refl
