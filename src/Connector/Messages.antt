-- ===== src/Connector/Messages.antt =====
-- src/connector/server.ts: the messages of a connector, `parseConnectorMessage`.
use livis_chatgpt_bridge.Prelude.{
  ℕ, Bool, true, false, not, ◌&&◌, ◌||◌, Option, none, some, String, str_eq, if◌then◌else◌, ◌==◌,
}
use livis_chatgpt_bridge.Protocol.Json.{
  Json, Fields, no_field, text, number, array, object, bool, get_field, Checked, valid, refused,
  ◌>>=◌, ◌>>◌, Text, WireError, missing, unsupported_type, bad_hello, bad_capability, missing_lease,
  bad_text, bad_error, bad_disposition,
}
use livis_chatgpt_bridge.Protocol.Livis.{parse_json_object}

abbrev pub connector_protocol_version : ℕ
connector_protocol_version = 1

-- `ConnectorHello` of src/types.ts: what the server reads of it.
pub record ConnectorHello : Type 0 where
  pub connector_id : String
  pub name : String
  pub version : String
  pub runtime_version : String

-- `ConnectorInboundMessage` of src/types.ts; the last field of a cancellation is whether its
-- disposition is "not_started".
pub data InboundMessage : Type 0 where
  hello : ConnectorHello → InboundMessage
  accepted : String → String → InboundMessage
  result failed : String → String → String → InboundMessage
  cancelled : String → String → Bool → InboundMessage
  pong : InboundMessage

abbrev pub demand : Bool → WireError → Checked (Unit {0})
demand true e = valid tt
demand false e = refused e

-- A string, or the error.
unfoldable pub require_string : WireError → Option Json → Checked String
require_string e (some (text s)) = valid s
require_string e _ = refused e

-- A value other than null of which `typeof` says "object": an array has none of the named fields.
unfoldable pub require_object : WireError → Option Json → Checked Fields
require_object e (some (object fields)) = valid fields
require_object e (some (array items)) = valid no_field
require_object e _ = refused e

unfoldable pub is_number : ℕ → Option Json → Bool
is_number n (some (number k)) = k == n
is_number n _ = false

unfoldable pub is_text : String → Option Json → Bool
is_text s (some (text t)) = str_eq t s
is_text s _ = false

unfoldable pub is_true : Option Json → Bool
is_true (some (bool b)) = b
is_true _ = false

-- The `executionDisposition` of a cancellation: absent, or "not_started".
unfoldable pub disposition : Option Json → Checked Bool
disposition none = valid false
disposition (some (text s)) = if str_eq s "not_started" then valid true else refused bad_disposition
disposition (some _) = refused bad_disposition

-- The message that a type, a job and a lease make with the other fields.
unfoldable pub job_message : String → String → String → Fields → Checked InboundMessage
unfolding require_string disposition get_field ◌>>=◌
job_message type_name job_id lease_id fields =
    if str_eq type_name "accepted"
    then valid (accepted job_id lease_id)
    else (if str_eq type_name "result"
        then (require_string bad_text (get_field "text" fields) >>= λ body.
            valid (result job_id lease_id body))
        else (if str_eq type_name "failed"
            then (require_string bad_error (get_field "error" fields) >>= λ error.
                valid (failed job_id lease_id error))
            else (disposition (get_field "executionDisposition" fields) >>= λ not_started.
                valid (cancelled job_id lease_id not_started))))

unfoldable pub is_job_type : String → Bool
is_job_type type_name =
    str_eq type_name "accepted"
    || (str_eq type_name "result" || (str_eq type_name "failed" || str_eq type_name "cancelled"))

unfoldable pub parse_job_message : String → Fields → Checked InboundMessage
unfolding require_string job_message get_field ◌>>=◌ ◌>>◌
parse_job_message type_name fields = do
  job_id ← require_string missing_lease (get_field "jobId" fields)
  lease_id ← require_string missing_lease (get_field "leaseId" fields)
  demand (not (str_eq job_id "") && not (str_eq lease_id "")) missing_lease
  job_message type_name job_id lease_id fields

module _ (js : Text) where
  unfoldable pub parse_hello : Fields → Checked InboundMessage
  unfolding require_string require_object is_number is_text is_true get_field ◌>>=◌ ◌>>◌
  parse_hello fields = do
    demand (is_number connector_protocol_version (get_field "protocolVersion" fields)) bad_hello
    connector_id ← require_string bad_hello (get_field "connectorId" fields)
    demand (not (js.is_blank connector_id)) bad_hello
    demand (is_text "hermes" (get_field "backend" fields)) bad_hello
    implementation ← require_object bad_hello (get_field "implementation" fields)
    capabilities ← require_object bad_hello (get_field "capabilities" fields)
    name ← require_string bad_capability (get_field "name" implementation)
    version ← require_string bad_capability (get_field "version" implementation)
    runtime_version ← require_string bad_capability (get_field "runtimeVersion" implementation)
    demand
        (is_true (get_field "cancel" capabilities)
          && is_true (get_field "finalResult" capabilities))
        bad_capability
    valid (
        hello (record {
          connector_id = connector_id;
          name = name;
          version = version;
          runtime_version = runtime_version;
        }))

  unfoldable pub message_of_type : String → Fields → Checked InboundMessage
  unfolding parse_hello parse_job_message is_job_type
  message_of_type type_name fields =
      if str_eq type_name "hello"
      then parse_hello fields
      else (if is_job_type type_name
          then parse_job_message type_name fields
          else (if str_eq type_name "pong" then valid pong else refused unsupported_type))

  unfoldable pub parse_connector_message : String → Checked InboundMessage
  unfolding require_string parse_json_object message_of_type get_field ◌>>=◌
  parse_connector_message raw = do
    fields ← parse_json_object js raw "connector message"
    type_name ← require_string (missing "connector message.type") (get_field "type" fields)
    message_of_type type_name fields
