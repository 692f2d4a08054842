-- ===== src/Daemon/Examples.antt =====
-- Runs of src/daemon.ts at concrete inputs.
use Prim.Native.String.{count}
use livis_chatgpt_bridge.Prelude.{
  ℕ, ◌≤◌, ◌≡◌, refl, true, false, List, [], ◌∷◌, none, some, str_eq, arith, All,
}
use livis_chatgpt_bridge.Types.{IncomingRelayJob, hermes}
use livis_chatgpt_bridge.Protocol.Json.{Text}
use livis_chatgpt_bridge.Store.Schema.{Runtime}
use livis_chatgpt_bridge.Store.Commands.{Command, ingests, history, empty}
use livis_chatgpt_bridge.Daemon.State.{Daemon, Config, Moment}
use livis_chatgpt_bridge.Daemon.Execution.{JobEvent}
use livis_chatgpt_bridge.Daemon.Loop.{
  DaemonEvent, starts, execution_ready, answers, execution_accepted, execution_result, stops,
  submitted, supported, run_daemon, new_daemon,
}
use livis_chatgpt_bridge.Daemon.Acks.{Backed, run-Backed}
use livis_chatgpt_bridge.Daemon.Expiry.{dispatched_jobs, run-expired}
use livis_chatgpt_bridge.Daemon.Once.{dispatch_count, run-once}

abbrev js : Runtime
js = record {
  sha256 = λ s. s;
  stringify = λ b. b.text;
  string_length = count;
  number_to_string = λ n. "n";
  trims_to_nothing = λ s. str_eq s "";
}

abbrev config : Config
config = record {
  backend = hermes;
  session_key = "s";
  allow_all_nodes = true;
  allowed_node_ids = [];
  acknowledge_unofficial_protocol = true;
  acknowledge_codex = false;
  acknowledge_claude = false;
  max_input_chars = 100;
  max_output_chars = 100;
  unauthorized_message = "no";
  serialize_result = λ s. s;
  uuid = λ n. "l1";
}

abbrev job : IncomingRelayJob
job = record {
  job_id = "j1";
  message_id = "m1";
  from_node_id = "glasses";
  from_node_type = none;
  text = "hello";
  timestamp = 5;
  raw_payload = "{}";
}

abbrev at : ℕ → Moment
at n = record { now = n; later = n; ready = true; execution_id = some "c" }

abbrev report : JobEvent
report = record {
  kind = hermes;
  execution_id = "c";
  job_id = "j1";
  lease_id = "l1";
  run_generation = none;
  turn_id = none;
}

-- A job of the night is dispatched in the morning, and answered; then the daemon stops.
abbrev night : List (ℕ × Command)
night = (11, ingests job "s" hermes) ∷ []

abbrev morning : List (Moment × DaemonEvent)
morning =
    (at 12, starts)
    ∷ (at 13, answers 0 submitted)
    ∷ (at 13, execution_ready hermes)
    ∷ (at 14, answers 0 submitted)
    ∷ (at 15, execution_accepted report)
    ∷ (at 16, execution_result report "hi")
    ∷ (at 17, stops)
    ∷ []

abbrev woken : Daemon
woken = new_daemon (history js "me" night empty) 100

abbrev text : Text
text = record {
  parse_json = λ s. none;
  stringify = λ f. "{}";
  byte_length = count;
  char_length = count;
  is_blank = λ s. str_eq s "";
}

run-once_example : dispatch_count "j1" 1 (run_daemon js "me" text config morning woken).effects ≤ 1
run-once_example = run-once js "me" text config morning woken "j1" 1 (night, refl) refl

run-Backed_example :
    All
      (Backed "me" (run_daemon js "me" text config morning woken).db)
      (run_daemon js "me" text config morning woken).effects
run-Backed_example = run-Backed js "me" text config morning woken refl

-- The proof of the daemon that is woken ends at 100; later a check saves one that has ended too, and
-- the backend is ready.
abbrev late : List (Moment × DaemonEvent)
late = (at 120, supported 110) ∷ (at 121, execution_ready hermes) ∷ []

not_later : (n : ℕ) → supported 110 ≡ supported n → n ≤ 115
not_later n h = ground arith

run-expired_example :
    dispatched_jobs (run_daemon js "me" text config late woken).effects ≡ dispatched_jobs []
run-expired_example =
    run-expired js "me" 115 text config late woken (omega arith)
      ((omega arith, not_later), ((omega arith, λ n h. absurd (ground arith)), tt))
