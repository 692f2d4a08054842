-- ===== src/Relay/Examples.antt =====
-- src/relay/client.ts at concrete inputs: one run of the token refresh, one ACK.
use livis_chatgpt_bridge.Prelude.{◌≤◌, ◌*◌, min, some, List, [], ◌∷◌, ◌≡◌, refl, arith}
use livis_chatgpt_bridge.Relay.TokenRefresh.{
  Timing, Event, connects, handshakes, token_expires, answers, fires, disconnects, token_sent,
  other_error, run, new_client,
}
use livis_chatgpt_bridge.Relay.Chains.{IsOneChain, run-IsOneChain}
use livis_chatgpt_bridge.Store.Schema.{Database}
use livis_chatgpt_bridge.Store.Table.{select}
use livis_chatgpt_bridge.Store.Reads.{get, view}
use livis_chatgpt_bridge.Store.Outbox.{find_job_id_by_outbox_message_id}
use livis_chatgpt_bridge.Relay.Delivery.{
  resolve_ack_job_id, result_recovery_delay_ms, outbox_of_job, non_empty, resolve,
}
use livis_chatgpt_bridge.Relay.Acks.{
  IsNamed, resolve_ack_job_id-IsNamed, result_recovery_delay_ms-grows,
}

abbrev two_tries : Timing
two_tries = record {
  token_refresh_ack_timeout_ms = 500;
  token_refresh_max_failures = 2;
  reconnect_max_ms = 60000;
  with_jitter = λ base. base;
}

-- A refresh whose ACK does not come, with a second message that asks for one, and an error.
abbrev evening : List Event
evening =
    connects 1
    ∷ handshakes 1 1
    ∷ token_expires 1 1
    ∷ answers token_sent 0
    ∷ token_expires 1 1
    ∷ fires
    ∷ answers other_error 0
    ∷ fires
    ∷ answers token_sent 0
    ∷ fires
    ∷ disconnects 1 1
    ∷ []

run-IsOneChain_example : IsOneChain 2 (run two_tries evening new_client)
run-IsOneChain_example = run-IsOneChain two_tries evening (omega arith)

result_recovery_delay_ms-grows_example :
    (min 300000 (5000 * 2) ≤ result_recovery_delay_ms 5000 3)
    × (result_recovery_delay_ms 5000 3 ≤ result_recovery_delay_ms 5000 9)
    × (result_recovery_delay_ms 5000 9 ≤ 300000)
result_recovery_delay_ms-grows_example = result_recovery_delay_ms-grows 5000 3 9 (omega arith)

abbrev one_attempt : Database
one_attempt = record {
  jobs = [];
  outbox = [];
  outbox_delivery_attempts =
      record { scope_key = "me"; message_id = "a"; job_id = "j1"; created_at = 20 } ∷ [];
  session_quarantine = [];
  pending_cancels = [];
  backend_sessions = [];
  execution_attempt_events = [];
}

acked : resolve_ack_job_id "me" one_attempt ("b" ∷ "a" ∷ []) ≡ some "j1"
unfolding resolve_ack_job_id select get view find_job_id_by_outbox_message_id outbox_of_job
    non_empty resolve
acked = refl

resolve_ack_job_id-IsNamed_example : IsNamed "me" one_attempt ("b" ∷ "a" ∷ []) "j1"
resolve_ack_job_id-IsNamed_example =
    resolve_ack_job_id-IsNamed "me" one_attempt ("b" ∷ "a" ∷ []) "j1" acked
