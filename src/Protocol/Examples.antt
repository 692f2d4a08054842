-- ===== src/Protocol/Examples.antt =====
-- The messages of src/protocol/livis.ts at concrete inputs.
use Prim.Native.String.{count, len}
use livis_chatgpt_bridge.Prelude.{◌≡◌, refl, [], ◌∷◌, none, some, str_eq, arith}
use livis_chatgpt_bridge.Types.{IncomingRelayJob}
use livis_chatgpt_bridge.Protocol.Json.{no_field, get_field, get_field?, valid, ◌>>=◌, ◌>>◌, Text}
use livis_chatgpt_bridge.Protocol.Livis.{
  RelayEnvelope, parse_incoming_relay_job, result_ack_candidates, require_send_message,
  require_bounded_string, bounded_text, string_of, or_empty, or_no_fields, data_of, require_exec,
  number_or, content_of, assert_optional_bounded_string, collect_candidates, add_candidate,
  includes,
}
use livis_chatgpt_bridge.Protocol.Intake.{
  IsIntake, message_of, parse_incoming_relay_job-IsIntake, parse_incoming_relay_job-message_of,
}
use livis_chatgpt_bridge.Protocol.Candidates.{IsCandidates, result_ack_candidates-IsCandidates}

abbrev js : Text
js = record {
  parse_json = λ s. none;
  stringify = λ fields. "{}";
  byte_length = len;
  char_length = count;
  is_blank = λ s. str_eq s "";
}

abbrev job : IncomingRelayJob
job = record {
  job_id = "j1";
  message_id = "m1";
  from_node_id = "glasses";
  from_node_type = some "app";
  text = "hello";
  timestamp = 5;
  raw_payload = "{}";
}

abbrev envelope : RelayEnvelope
envelope = message_of js job no_field

parsed : parse_incoming_relay_job js envelope 100 7 ≡ valid job
unfolding parse_incoming_relay_job require_send_message require_bounded_string bounded_text
    get_field get_field? string_of or_empty or_no_fields data_of require_exec number_or ◌>>=◌ ◌>>◌
    content_of assert_optional_bounded_string
parsed = refl

parse_incoming_relay_job-IsIntake_example : IsIntake js envelope 100 job
parse_incoming_relay_job-IsIntake_example =
    parse_incoming_relay_job-IsIntake js envelope 100 7 job parsed

parse_incoming_relay_job-message_of_example :
    parse_incoming_relay_job js (message_of js job no_field) 100 7 ≡ valid job
parse_incoming_relay_job-message_of_example =
    parse_incoming_relay_job-message_of js job no_field 100 7 (omega arith)
      (parse_incoming_relay_job-IsIntake js envelope 100 7 job parsed)

ids : result_ack_candidates js envelope ≡ valid ("j1" ∷ "m1" ∷ [])
unfolding result_ack_candidates collect_candidates add_candidate includes
    assert_optional_bounded_string get_field get_field? string_of ◌>>◌
ids = refl

result_ack_candidates-IsCandidates_example : IsCandidates js 3 ("j1" ∷ "m1" ∷ [])
result_ack_candidates-IsCandidates_example =
    result_ack_candidates-IsCandidates js envelope ("j1" ∷ "m1" ∷ []) ids
