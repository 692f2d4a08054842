-- ===== src/Connector/Examples.antt =====
-- src/connector/server.ts at concrete inputs: two connectors, of which the second evicts the first.
use Prim.Native.String.{len}
use livis_chatgpt_bridge.Prelude.{
  ℕ, ◌≡◌, ◌↔◌, refl, arith, true, false, not, none, some, str_eq, if◌then◌else◌, List, [], ◌∷◌,
}
use livis_chatgpt_bridge.Protocol.Json.{Fields, no_field, field, text, number, bool, object, Text}
use livis_chatgpt_bridge.Connector.Versions.{
  Version, parse_semver_triplet, version_at_least, version_less_than, Precedes,
  version_less_than-Precedes, in_range,
}
use livis_chatgpt_bridge.Connector.Server.{
  ConnectorServer, Options, handles, ends, idle, settling, then_install, is_active_socket,
  invalid_message, current_socket,
}
use livis_chatgpt_bridge.Connector.Hello.{handle_message}
use livis_chatgpt_bridge.Connector.Loop.{
  Event, opens, begins, receives, answers, closed, run, new_server,
}
use livis_chatgpt_bridge.Protocol.Json.{valid}
use livis_chatgpt_bridge.Connector.Messages.{ConnectorHello, hello, parse_connector_message}
use livis_chatgpt_bridge.Connector.Fields.{Describes}
use livis_chatgpt_bridge.Connector.Intake.{parse_connector_message-Describes}
use livis_chatgpt_bridge.Connector.Generations.{IsSound}
use livis_chatgpt_bridge.Connector.Runs.{run-IsSound, run-retired}
use livis_chatgpt_bridge.Connector.Progress.{rounds, rounds-finish}

abbrev version : ℕ → ℕ → ℕ → Version
version major minor patch = record { major = major; minor = minor; patch = patch }

read : parse_semver_triplet "hermes v10.2.30" ≡ some (version 10 2 30)
unfolding parse_semver_triplet
read = refl

beta : parse_semver_triplet "1.2.3-beta" ≡ none
unfolding parse_semver_triplet
beta = refl

version_less_than-Precedes_example :
    ((version_less_than (version 1 9 7) (version 1 10 0) ≡ true)
      ↔ Precedes (version 1 9 7) (version 1 10 0))
    × (version_at_least (version 1 9 7) (version 1 10 0)
        ≡ not (version_less_than (version 1 9 7) (version 1 10 0)))
version_less_than-Precedes_example = version_less_than-Precedes (version 1 9 7) (version 1 10 0)

abbrev hello_fields : Fields
hello_fields = field "type" (text "hello") (
    field "protocolVersion" (number 1) (
      field "connectorId" (text "hermes-1") (
        field "backend" (text "hermes") (
          field "implementation"
            (object (
              field "name" (text "bridge")
                (field "version" (text "1.4.0") (field "runtimeVersion" (text "2.0.1") no_field))))
            (field "capabilities"
              (object (field "cancel" (bool true) (field "finalResult" (bool true) no_field)))
              no_field)))))

abbrev js : Text
js = record {
  parse_json = λ s.
      if str_eq s "hello"
      then some (object hello_fields)
      else some (object (field "type" (text "pong") no_field));
  stringify = λ fields. "{}";
  byte_length = len;
  char_length = len;
  is_blank = λ s. str_eq s "";
}

abbrev options : Options
options = record {
  max_frame_bytes = 1000;
  bridge_implementation = "bridge";
  bridge_minimum_version = "1.0.0";
  bridge_maximum_exclusive_version = "2.0.0";
  hermes_minimum_version = "2.0.0";
  hermes_maximum_exclusive_version = "3.0.0";
}

abbrev first_hello : ConnectorHello
first_hello = record {
  connector_id = "hermes-1";
  name = "bridge";
  version = "1.4.0";
  runtime_version = "2.0.1";
}

parsed : parse_connector_message js "hello" ≡ valid (hello first_hello)
unfolding parse_connector_message
parsed = refl

parse_connector_message-Describes_example :
    (parse_connector_message js "hello" ≡ valid (hello first_hello)) ↔ (
      (fields : Fields) × (js.parse_json "hello" ≡ some (object fields))
      × Describes js fields (hello first_hello))
parse_connector_message-Describes_example =
    parse_connector_message-Describes js "hello" (hello first_hello)

-- The first connector is accepted and falls silent; half a minute later a second one evicts it.
abbrev eviction : List Event
eviction =
    opens 1000
    ∷ receives 0 "hello"
    ∷ begins 1000
    ∷ answers true
    ∷ opens 40000
    ∷ receives 1 "hello"
    ∷ begins 40000
    ∷ []

abbrev replaced : List Event
replaced = answers true ∷ answers true ∷ receives 0 "pong" ∷ closed 0 ∷ begins 40010 ∷ []

evicting : (run js options eviction new_server).waiting ≡ settling 0 (then_install 1 first_hello)
unfolding run parse_semver_triplet in_range
evicting = refl

taken : current_socket (run js options (replaced) (run js options eviction new_server)) ≡ some 1
unfolding run current_socket parse_semver_triplet in_range
taken = refl

-- The settlement of the first connector fails, and a second hello is accepted all the same: the
-- socket of the first, of generation 1, is not settled.
abbrev unsettled : List Event
unsettled = answers false ∷ receives 1 "hello" ∷ begins 40020 ∷ []

taken_unsettled :
    (current_socket (run js options unsettled (run js options eviction new_server)) ≡ some 1)
    × (((run js options unsettled (run js options eviction new_server)).socket_data
          0).disconnect_handled
        ≡ false)
unfolding run current_socket parse_semver_triplet in_range
taken_unsettled = (refl, refl)

run-IsSound_example : IsSound (λ s. 0) (run js options eviction new_server)
run-IsSound_example = run-IsSound js options eviction

first_generation : ((run js options eviction new_server).socket_data 0).generation ≡ 1
unfolding run parse_semver_triplet in_range
first_generation = refl

first_fenced : ((run js options eviction new_server).socket_data 0).ready ≡ false
unfolding run parse_semver_triplet in_range
first_fenced = refl

run-retired_example :
    let before = run js options eviction new_server in
    let after = run js options replaced before in
    ((after.socket_data 0).generation ≡ (before.socket_data 0).generation)
    × ((after.socket_data 0).ready ≡ false)
    × (is_active_socket 0 after ≡ false)
    × (handle_message js options 40030 0 "pong" after ≡ invalid_message 0 after)
run-retired_example =
    run-retired js options eviction replaced 0 40030 "pong" (omega (arith, first_generation))
      first_fenced

abbrev two_waiting : ConnectorServer
two_waiting = record new_server { transition_chain = handles 0 "hello" ∷ ends 0 ∷ [] }

rounds-finish_example :
    let d =
      run js options (rounds 1000 (true ∷ false ∷ true ∷ true ∷ false ∷ true ∷ [])) two_waiting in
    (d.transition_chain ≡ []) × (d.waiting ≡ idle)
rounds-finish_example =
    rounds-finish js options 1000 (true ∷ false ∷ true ∷ true ∷ false ∷ true ∷ []) two_waiting
      (omega arith)
