-- ===== src/Connector/Hello.antt =====
-- src/connector/server.ts: `handleMessage`, `acceptHello` and the transition of a closed socket.
use livis_chatgpt_bridge.Prelude.{
  ℕ, ◌-◌, ◌*◌, not, ◌||◌, Option, none, some, String, str_eq, if◌then◌else◌, ltb, ◌==◌,
}
use livis_chatgpt_bridge.Protocol.Json.{Checked, valid, refused, Text}
use livis_chatgpt_bridge.Connector.Versions.{parse_semver_triplet, in_range}
use livis_chatgpt_bridge.Connector.Messages.{
  ConnectorHello, InboundMessage, hello, pong, parse_connector_message,
}
use livis_chatgpt_bridge.Connector.Server.{
  heartbeat_interval_ms, Transition, ConnectorServer, Options, update, named, emit,
  is_active_socket, current_socket, fence_socket, install, settle_disconnected, refuse_hello,
  invalid_message, closes, on_message, then_install, then_end, handling, handles, ends,
}

-- What follows the checks of a hello: the other connector is in the way, is evicted, or is none.
unfoldable pub take_over : ℕ → ℕ → ConnectorHello → Option ℕ → ConnectorServer → ConnectorServer
unfolding install fence_socket settle_disconnected refuse_hello emit
take_over now s h none c = install s h c
take_over now s h (some old) c =
    if ltb (heartbeat_interval_ms * 2) (now - (c.socket_data old).last_pong_at)
    then settle_disconnected old (then_install s h) (emit (closes old 1001) (fence_socket old c))
    else refuse_hello s "connector_conflict" c

module _ (js : Text) (o : Options) where
  -- The checks of `acceptHello` after the first.
  unfoldable pub admit_hello : ℕ → ℕ → ConnectorHello → ConnectorServer → ConnectorServer
  unfolding refuse_hello take_over current_socket
  admit_hello now s h c =
      if not (str_eq h.name o.bridge_implementation)
      then refuse_hello s "bridge_implementation_unsupported" c
      else (if not (
            in_range (parse_semver_triplet h.version)
              (parse_semver_triplet o.bridge_minimum_version)
              (parse_semver_triplet o.bridge_maximum_exclusive_version))
          then refuse_hello s "bridge_version_unsupported" c
          else (if not (
                in_range (parse_semver_triplet h.runtime_version)
                  (parse_semver_triplet o.hermes_minimum_version)
                  (parse_semver_triplet o.hermes_maximum_exclusive_version))
              then refuse_hello s "hermes_version_unsupported" c
              else take_over now s h (current_socket c) c))

  unfoldable pub accept_hello : ℕ → ℕ → ConnectorHello → ConnectorServer → ConnectorServer
  unfolding invalid_message admit_hello
  accept_hello now s h c =
      if (c.socket_data s).ready || not ((c.socket_data s).generation == 0)
      then invalid_message s c
      else admit_hello now s h c

  -- The `switch` of `handleMessage` on the active socket of a connector.
  unfoldable pub dispatch : ℕ → ℕ → String → InboundMessage → ConnectorServer → ConnectorServer
  unfolding emit
  dispatch now s id pong c = record c {
    socket_data = update c.socket_data s (record (c.socket_data s) { last_pong_at = now });
  }
  dispatch now s id message c = emit (on_message message id) (record c { waiting = handling s })

  unfoldable pub dispatch_named :
      ℕ → ℕ → Option String → InboundMessage → ConnectorServer → ConnectorServer
  unfolding dispatch invalid_message
  dispatch_named now s none message c = invalid_message s c
  dispatch_named now s (some id) message c = dispatch now s id message c

  unfoldable pub handle_parsed : ℕ → ℕ → Checked InboundMessage → ConnectorServer → ConnectorServer
  unfolding accept_hello invalid_message is_active_socket dispatch_named
  handle_parsed now s (refused e) c = invalid_message s c
  handle_parsed now s (valid (hello h)) c = accept_hello now s h c
  handle_parsed now s (valid message) c =
      if is_active_socket s c
      then dispatch_named now s (named (c.socket_data s).connector_id) message c
      else invalid_message s c

  unfoldable pub handle_message : ℕ → ℕ → String → ConnectorServer → ConnectorServer
  unfolding handle_parsed parse_connector_message
  handle_message now s raw c = handle_parsed now s (parse_connector_message js raw) c

  -- The transition of the `close` callback.
  unfoldable pub end_socket : ℕ → ConnectorServer → ConnectorServer
  unfolding is_active_socket fence_socket settle_disconnected
  end_socket s c =
      if is_active_socket s c
      then settle_disconnected s then_end (fence_socket s c)
      else (if (c.socket_data s).generation == 0 then c else settle_disconnected s then_end c)

  unfoldable pub transit : ℕ → Transition → ConnectorServer → ConnectorServer
  unfolding handle_message end_socket
  transit now (handles s raw) c = handle_message now s raw c
  transit now (ends s) c = end_socket s c
