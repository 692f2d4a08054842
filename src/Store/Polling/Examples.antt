-- ===== src/Store/Polling/Examples.antt =====
-- The lists of src/state/store.ts on a small database.
use livis_chatgpt_bridge.Prelude.{str_eq, ◌≡◌, ◌≤◌, false, true, [], ◌∷◌, none, some, All, length}
use livis_chatgpt_bridge.Types.{hermes, JobStatus, ack_failed}
use livis_chatgpt_bridge.Store.Schema.{Database, JobRow, OutboxRow, Runtime}
use livis_chatgpt_bridge.Store.Jobs.{claimable, new_row}
use livis_chatgpt_bridge.Store.Outbox.{can_start}
use livis_chatgpt_bridge.Store.Lists.{Delivery, dispatchable_rows, pending_rows, due_at}
use livis_chatgpt_bridge.Store.Polling.{IsOrdered, dispatchable-claimable, pending-can_start}

abbrev js : Runtime
js = record {
  sha256 = λ s. s;
  stringify = λ b. b.text;
  string_length = λ s. 0;
  number_to_string = λ n. "n";
  trims_to_nothing = λ s. str_eq s "";
}

abbrev row : JobRow
row =
    new_row "me"
      (record {
        job_id = "j1";
        message_id = "m1";
        from_node_id = "glasses";
        from_node_type = none;
        text = "hello";
        timestamp = 5;
        raw_payload = "{}";
      })
      "h" "s" hermes 10

abbrev result : OutboxRow
result = record {
  scope_key = "me";
  job_id = "j0";
  status = ack_failed;
  result_json = "{}";
  retry_count = 3;
  last_message_id = none;
  next_attempt_at = some 40;
  created_at = 16;
  updated_at = 30;
  delivered_at = some 20;
  acked_at = none;
}

abbrev db : Database
db = record {
  jobs = record row { job_id = "j0"; status = JobStatus.succeeded } ∷ row ∷ [];
  outbox = result ∷ [];
  outbox_delivery_attempts = [];
  session_quarantine = [];
  pending_cancels = [];
  backend_sessions = [];
  execution_attempt_events = [];
}

dispatchable-claimable_example :
    let rows = dispatchable_rows "me" hermes 5 db in
    All (λ r. claimable js "me" r.job_id db r ≡ true) rows
    × IsOrdered (λ (r : JobRow). r.created_at) rows
    × (length rows ≤ 5)
dispatchable-claimable_example = dispatchable-claimable js "me" 5 db

pending-can_start_example :
    let rows = pending_rows "me" 5 50 db in
    All (λ (d : Delivery). can_start false 50 db d.result ≡ true) rows
    × IsOrdered (λ (d : Delivery). due_at d.result) rows
    × (length rows ≤ 5)
pending-can_start_example = pending-can_start "me" 5 50 db
