-- ===== src/Protocol/Livis.antt =====
-- src/protocol/livis.ts: the parsing of the relay's messages, and `parseJsonObject` of src/util.ts.
use livis_chatgpt_bridge.Prelude.{
  ℕ, Bool, true, false, not, ◌&&◌, List, [], ◌∷◌, ◌++◌, Option, none, some, String, str_eq,
  if◌then◌else◌, ltb,
}
use livis_chatgpt_bridge.Types.{IncomingRelayJob}
use livis_chatgpt_bridge.Protocol.Json.{
  Json, Fields, no_field, text, number, object, get_field, get_field?, Checked, valid, refused,
  ◌>>=◌, ◌>>◌, Text, not_json, not_object, missing, too_long, bad_metadata, bad_payload, bad_data,
  not_send_message, unsupported_type, empty_content, input_too_long, WireError,
}

abbrev pub relay_message_type_max_bytes : ℕ
relay_message_type_max_bytes = 64

abbrev pub relay_identifier_max_bytes : ℕ
relay_identifier_max_bytes = 256

abbrev pub relay_node_type_max_bytes : ℕ
relay_node_type_max_bytes = 64

-- `RelayEnvelope` of src/types.ts: the fields that the code names, and all fields for
-- JSON.stringify.
pub record RelayEnvelope : Type 0 where
  pub type_name : String
  pub metadata : Option Fields
  pub payload : Option Fields
  pub fields : Fields

-- `typeof value === "string" ? value : fallback`.
unfoldable pub string_of : Option Json → Option String
string_of (some (text s)) = some s
string_of _ = none

unfoldable pub or_empty : Option String → String
or_empty none = ""
or_empty (some s) = s

-- `envelope.payload ?? {}`.
unfoldable pub or_no_fields : Option Fields → Fields
or_no_fields none = no_field
or_no_fields (some fields) = fields

-- `typeof timestamp === "number" ? timestamp : Date.now()`.
unfoldable pub number_or : ℕ → Option Json → ℕ
number_or now (some (number n)) = n
number_or now _ = now

module _ (js : Text) where
  unfoldable pub bounded_text : String → ℕ → String → Checked String
  bounded_text label max_bytes value =
      if ltb max_bytes (js.byte_length value)
      then refused (too_long label)
      else (if js.is_blank value then refused (missing label) else valid value)

  unfoldable pub require_bounded_string : Option Json → String → ℕ → Checked String
  unfolding bounded_text
  require_bounded_string (some (text value)) label max_bytes = bounded_text label max_bytes value
  require_bounded_string _ label max_bytes = refused (missing label)

  -- Its argument is `string_of` of the value: what is not a string passes.
  unfoldable pub assert_optional_bounded_string : Option String → String → ℕ → Checked (Unit {0})
  assert_optional_bounded_string none label max_bytes = valid tt
  assert_optional_bounded_string (some value) label max_bytes =
      if ltb max_bytes (js.byte_length value) then refused (too_long label) else valid tt

  unfoldable pub assert_all : List (Option Json × String) → ℕ → Checked (Unit {0})
  unfolding assert_optional_bounded_string string_of
  assert_all [] max_bytes = valid tt
  assert_all ((value, label) ∷ rest) max_bytes =
      assert_optional_bounded_string (string_of value) label max_bytes >> assert_all rest max_bytes

  unfoldable pub object_of : String → Option Json → Checked Fields
  object_of label none = refused (not_json label)
  object_of label (some (object fields)) = valid fields
  object_of label (some _) = refused (not_object label)

  unfoldable pub parse_json_object : String → String → Checked Fields
  unfolding object_of
  parse_json_object value label = object_of label (js.parse_json value)

  -- A field that is an object or undefined.
  unfoldable pub optional_object : WireError → Option Json → Checked (Option Fields)
  optional_object e none = valid none
  optional_object e (some (object fields)) = valid (some fields)
  optional_object e (some _) = refused e

  unfoldable pub parse_relay_envelope : String → Checked RelayEnvelope
  unfolding parse_json_object require_bounded_string optional_object assert_all
  parse_relay_envelope raw = do
    parsed ← parse_json_object raw "LiViS WebSocket message"
    type_name ←
        require_bounded_string (get_field "type" parsed) "LiViS message.type"
          relay_message_type_max_bytes
    metadata ← optional_object bad_metadata (get_field "metadata" parsed)
    payload ← optional_object bad_payload (get_field "payload" parsed)
    assert_all
        ((get_field? "job_id" metadata, "LiViS metadata.job_id")
          ∷ (get_field? "msg_id" metadata, "LiViS metadata.msg_id")
          ∷ (get_field? "agent_id" metadata, "LiViS metadata.agent_id")
          ∷ (get_field? "device_id" metadata, "LiViS metadata.device_id")
          ∷ (get_field? "ref_msg_id" payload, "LiViS payload.ref_msg_id")
          ∷ (get_field? "from_node_id" payload, "LiViS payload.from_node_id")
          ∷ [])
        relay_identifier_max_bytes
    assert_all
        ((get_field? "from_node_type" payload, "LiViS payload.from_node_type")
          ∷ (get_field? "nodeType" payload, "LiViS payload.nodeType")
          ∷ [])
        relay_node_type_max_bytes
    valid
        (record { type_name = type_name; metadata = metadata; payload = payload; fields = parsed })

  -- `payload.data`: an object, or the text of one.
  unfoldable pub data_of : Option Json → Checked Fields
  unfolding parse_json_object
  data_of (some (text raw)) = parse_json_object raw "send_message.payload.data"
  data_of (some (object fields)) = valid fields
  data_of _ = refused bad_data

  unfoldable pub require_exec : Option String → Checked (Unit {0})
  require_exec none = refused unsupported_type
  require_exec (some t) = if str_eq t "exec" then valid tt else refused unsupported_type

  unfoldable pub content_of : ℕ → Option String → Checked String
  content_of max_input_chars none = refused empty_content
  content_of max_input_chars (some content) =
      if js.is_blank content
      then refused empty_content
      else (if ltb max_input_chars (js.char_length content)
          then refused input_too_long
          else valid content)

  unfoldable pub require_send_message : String → Checked (Unit {0})
  require_send_message type_name =
      if str_eq type_name "send_message" then valid tt else refused not_send_message

  unfoldable pub parse_incoming_relay_job : RelayEnvelope → ℕ → ℕ → Checked IncomingRelayJob
  unfolding require_bounded_string assert_optional_bounded_string data_of require_exec content_of
      require_send_message
  parse_incoming_relay_job envelope max_input_chars now = do
    require_send_message envelope.type_name
    job_id ←
        require_bounded_string (get_field? "job_id" envelope.metadata)
          "send_message.metadata.job_id" relay_identifier_max_bytes
    let message_id = or_empty (string_of (get_field? "msg_id" envelope.metadata))
    assert_optional_bounded_string (some message_id) "send_message.metadata.msg_id"
        relay_identifier_max_bytes
    let payload = or_no_fields envelope.payload
    from_node_id ←
        require_bounded_string (get_field "from_node_id" payload)
          "send_message.payload.from_node_id" relay_identifier_max_bytes
    let from_node_type = string_of (get_field "from_node_type" payload)
    assert_optional_bounded_string from_node_type "send_message.payload.from_node_type"
        relay_node_type_max_bytes
    data_fields ← data_of (get_field "data" payload)
    assert_optional_bounded_string (string_of (get_field "type" data_fields))
        "send_message.payload.data.type" relay_message_type_max_bytes
    require_exec (string_of (get_field "type" data_fields))
    content ← content_of max_input_chars (string_of (get_field "content" data_fields))
    valid (record {
      job_id = job_id;
      message_id = message_id;
      from_node_id = from_node_id;
      from_node_type = from_node_type;
      text = content;
      timestamp = number_or now (get_field? "timestamp" envelope.metadata);
      raw_payload = js.stringify envelope.fields;
    })

  -- `candidates.includes(value)`.
  unfoldable pub includes : List String → String → Bool
  includes [] value = false
  includes (c ∷ candidates) value = if str_eq c value then true else includes candidates value

  -- One round of the loop of `resultAckCandidates`, after its check of the length.
  unfoldable pub add_candidate : List String → Option String → List String
  unfolding includes
  add_candidate candidates none = candidates
  add_candidate candidates (some value) =
      if not (str_eq value "") && not (includes candidates value)
      then candidates ++ value ∷ []
      else candidates

  unfoldable pub collect_candidates : List String → List (Option Json) → Checked (List String)
  unfolding add_candidate assert_optional_bounded_string
  collect_candidates candidates [] = valid candidates
  collect_candidates candidates (value ∷ rest) =
      assert_optional_bounded_string (string_of value) "ack_send_result 关联 ID"
        relay_identifier_max_bytes
      >> collect_candidates (add_candidate candidates (string_of value)) rest

  unfoldable pub result_ack_candidates : RelayEnvelope → Checked (List String)
  unfolding collect_candidates
  result_ack_candidates envelope = collect_candidates [] (
      get_field? "ref_msg_id" envelope.payload
      ∷ get_field? "job_id" envelope.metadata
      ∷ get_field? "msg_id" envelope.metadata
      ∷ [])
