-- ===== src/Connector/Server.antt =====
-- src/connector/server.ts: the state of `ConnectorServer`, and the small steps of the transitions that
-- `enqueueTransition` runs one after the other. A step is what the server does in one turn of the
-- event loop: a transition up to its `await`, what follows the `await`, or a callback.
use livis_chatgpt_bridge.Prelude.{
  ℕ, suc, Bool, true, false, not, ◌&&◌, ◌||◌, List, [], ◌∷◌, Option, none, some, String, str_eq,
  if◌then◌else◌, ◌==◌,
}
use livis_chatgpt_bridge.Types.{StoredJob}
use livis_chatgpt_bridge.Connector.Messages.{ConnectorHello, InboundMessage}

abbrev pub heartbeat_interval_ms : ℕ
heartbeat_interval_ms = 15000

abbrev pub heartbeat_timeout_ms : ℕ
heartbeat_timeout_ms = 45000

-- `ConnectorSocketData`; `backend` is "hermes" on a socket that has a connector.
pub record SocketData : Type 0 where
  pub connector_id : Option String
  pub backend : Option String
  pub ready : Bool
  pub last_pong_at : ℕ
  pub generation : ℕ
  pub disconnect_handled : Bool

-- `ConnectorOutboundMessage`, by what the server fills in. An error has its
-- code, and the job that it is about.
pub data OutboundMessage : Type 0 where
  hello_required : OutboundMessage
  hello_ack : String → OutboundMessage
  job_for : StoredJob → String → OutboundMessage
  cancel_for result_stored error_of_job : String → String → OutboundMessage
  ping : ℕ → OutboundMessage
  error : String → OutboundMessage

-- What the server does to its sockets and what it asks of its handlers.
pub data Effect : Type 0 where
  sends : ℕ → OutboundMessage → Effect
  closes : ℕ → ℕ → Effect
  on_ready : ConnectorHello → Effect
  on_message : InboundMessage → String → Effect
  on_disconnected : String → ℕ → Effect

-- What follows a settlement in the transition that waits for it.
pub data Rest : Type 0 where
  then_install : ℕ → ConnectorHello → Rest
  then_end : Rest

-- The `await` at which a transition stands: `onDisconnected`, or a handler of a socket's message.
pub data Wait : Type 0 where
  idle : Wait
  settling : ℕ → Rest → Wait
  handling : ℕ → Wait

-- A transition in `transitionChain`: a message, or the end of a socket.
pub data Transition : Type 0 where
  handles : ℕ → String → Transition
  ends : ℕ → Transition

-- `ConnectorServer`: sockets are numbered as they open; `effects` has the newest first.
pub record ConnectorServer : Type 0 where
  pub socket_data : ℕ → SocketData
  pub opened : ℕ
  pub active_socket : Option ℕ
  pub active_generation : ℕ
  pub next_generation : ℕ
  pub transition_chain : List Transition
  pub waiting : Wait
  pub hello_timers : List ℕ
  pub effects : List Effect

-- `ConnectorServerOptions`, as far as the transitions read them.
pub record Options : Type 0 where
  pub max_frame_bytes : ℕ
  pub bridge_implementation : String
  pub bridge_minimum_version : String
  pub bridge_maximum_exclusive_version : String
  pub hermes_minimum_version : String
  pub hermes_maximum_exclusive_version : String

abbrev pub update : (ℕ → SocketData) → ℕ → SocketData → ℕ → SocketData
update f s d t = if t == s then d else f t

abbrev pub is_socket : Option ℕ → ℕ → Bool
is_socket none s = false
is_socket (some t) s = t == s

-- `helloTimers.delete(socket)`.
unfoldable pub drop_timer : ℕ → List ℕ → List ℕ
drop_timer s [] = []
drop_timer s (t ∷ ts) = if t == s then drop_timer s ts else t ∷ drop_timer s ts

unfoldable pub has_timer : ℕ → List ℕ → Bool
has_timer s [] = false
has_timer s (t ∷ ts) = t == s || has_timer s ts

-- A connector id that JavaScript takes for true.
abbrev pub named : Option String → Option String
named none = none
named (some id) = if str_eq id "" then none else some id

unfoldable pub emit : Effect → ConnectorServer → ConnectorServer
emit e c = record c { effects = e ∷ c.effects }

unfoldable pub is_active_socket : ℕ → ConnectorServer → Bool
is_active_socket s c =
    is_socket c.active_socket s
    && ((c.socket_data s).ready
        && (not ((c.socket_data s).generation == 0)
            && (c.socket_data s).generation == c.active_generation))

unfoldable pub if_active : Option ℕ → ConnectorServer → Option ℕ
unfolding is_active_socket
if_active none c = none
if_active (some s) c = if is_active_socket s c then some s else none

unfoldable pub current_socket : ConnectorServer → Option ℕ
unfolding if_active
current_socket c = if_active c.active_socket c

-- The socket stops being ready and active.
unfoldable pub retire : ℕ → ConnectorServer → ConnectorServer
retire s c = record c {
  socket_data = update c.socket_data s (record (c.socket_data s) { ready = false });
  active_socket = none;
  active_generation = 0;
}

unfoldable pub fence_socket : ℕ → ConnectorServer → ConnectorServer
unfolding is_active_socket retire
fence_socket s c = if is_active_socket s c then retire s c else c

unfoldable pub mark_handled : ℕ → ConnectorServer → ConnectorServer
mark_handled s c = record c {
  socket_data = update c.socket_data s (record (c.socket_data s) { disconnect_handled = true });
}

-- The end of `acceptHello`, up to its call of `onReady`.
unfoldable pub install : ℕ → ConnectorHello → ConnectorServer → ConnectorServer
unfolding emit drop_timer
install s h c = emit (on_ready h) (
    emit (sends s (hello_ack h.connector_id)) (record c {
      socket_data = update c.socket_data s (record (c.socket_data s) {
        connector_id = some h.connector_id;
        backend = some "hermes";
        generation = suc c.next_generation;
        ready = true;
      });
      active_socket = some s;
      active_generation = suc c.next_generation;
      next_generation = suc c.next_generation;
      hello_timers = drop_timer s c.hello_timers;
      waiting = handling s;
    }))

unfoldable pub continue_with : Rest → ConnectorServer → ConnectorServer
unfolding install
continue_with (then_install s h) c = install s h c
continue_with then_end c = c

-- `settleDisconnected` up to its `await`, and what its caller does if there is none.
unfoldable pub settle_named : Option String → ℕ → Rest → ConnectorServer → ConnectorServer
unfolding mark_handled continue_with emit
settle_named none s rest c = continue_with rest (mark_handled s c)
settle_named (some id) s rest c =
    emit (on_disconnected id (c.socket_data s).generation) (record c { waiting = settling s rest })

unfoldable pub settle_disconnected : ℕ → Rest → ConnectorServer → ConnectorServer
unfolding settle_named continue_with
settle_disconnected s rest c =
    if (c.socket_data s).disconnect_handled
    then continue_with rest c
    else settle_named (named (c.socket_data s).connector_id) s rest c

-- The refusal of a hello: an error and the closing of the socket.
unfoldable pub refuse_hello : ℕ → String → ConnectorServer → ConnectorServer
unfolding emit
refuse_hello s code c = emit (closes s 1008) (emit (sends s (error code)) c)

-- The error that the `catch` of a message sends.
unfoldable pub invalid_message : ℕ → ConnectorServer → ConnectorServer
unfolding emit
invalid_message s c = emit (sends s (error "invalid_message")) c
