-- ===== src/Connector/Loop.antt =====
-- src/connector/server.ts: the callbacks of the sockets and of the timers, the calls of the daemon,
-- and the event loop in which the transitions of Connector/Server wait for the handlers.
use livis_chatgpt_bridge.Prelude.{
  ℕ, suc, ◌-◌, Bool, true, false, not, ◌&&◌, List, [], ◌∷◌, ◌++◌, Option, none, some, String,
  if◌then◌else◌, ltb,
}
use livis_chatgpt_bridge.Types.{StoredJob}
use livis_chatgpt_bridge.Protocol.Json.{Text}
use livis_chatgpt_bridge.Connector.Server.{
  ConnectorServer, SocketData, Options, OutboundMessage, hello_required, job_for, cancel_for,
  result_stored, ping, error, error_of_job, sends, closes, then_install, then_end, Wait, idle,
  settling, handling, Transition, handles, ends, heartbeat_timeout_ms, update, emit, drop_timer,
  has_timer, current_socket, mark_handled, continue_with, invalid_message,
}
use livis_chatgpt_bridge.Connector.Hello.{transit}

-- `data` of a socket that is upgraded.
abbrev pub new_socket_data : ℕ → SocketData
new_socket_data now = record {
  connector_id = none;
  backend = none;
  ready = false;
  last_pong_at = now;
  generation = 0;
  disconnect_handled = false;
}

-- The upgrade of a request, and `open`.
unfoldable pub open_socket : ℕ → ConnectorServer → ConnectorServer
unfolding emit
open_socket now c = emit (sends c.opened hello_required) (record c {
  socket_data = update c.socket_data c.opened (new_socket_data now);
  opened = suc c.opened;
  hello_timers = c.opened ∷ c.hello_timers;
})

unfoldable pub enqueue_transition : Transition → ConnectorServer → ConnectorServer
enqueue_transition t c = record c { transition_chain = c.transition_chain ++ t ∷ [] }

-- The `message` callback.
unfoldable pub receive : Text → Options → ℕ → String → ConnectorServer → ConnectorServer
unfolding emit enqueue_transition
receive js o s raw c =
    if ltb o.max_frame_bytes (js.byte_length raw)
    then emit (closes s 1009) (emit (sends s (error "frame_too_large")) c)
    else enqueue_transition (handles s raw) c

-- The `close` callback.
unfoldable pub socket_closed : ℕ → ConnectorServer → ConnectorServer
unfolding drop_timer enqueue_transition
socket_closed s c =
    enqueue_transition (ends s) (record c { hello_timers = drop_timer s c.hello_timers })

-- The timer of a hello; a timer that was cleared does not fire.
unfoldable pub hello_times_out : ℕ → ConnectorServer → ConnectorServer
unfolding has_timer emit
hello_times_out s c =
    if has_timer s c.hello_timers && not (c.socket_data s).ready then emit (closes s 1008) c else c

-- One round of the heartbeat, for the active socket.
unfoldable pub beat : ℕ → Option ℕ → ConnectorServer → ConnectorServer
unfolding emit
beat now none c = c
beat now (some s) c =
    if not (c.socket_data s).ready
    then c
    else (if ltb heartbeat_timeout_ms (now - (c.socket_data s).last_pong_at)
        then emit (closes s 1001) c
        else emit (sends s (ping now)) c)

unfoldable pub stop_active : Option ℕ → ConnectorServer → ConnectorServer
unfolding emit
stop_active none c = c
stop_active (some s) c = emit (closes s 1001) (record c {
  active_socket = none;
  active_generation = 0;
  socket_data = update c.socket_data s (record (c.socket_data s) { ready = false });
})

unfoldable pub stop : ConnectorServer → ConnectorServer
unfolding stop_active
stop c = record (stop_active c.active_socket c) { hello_timers = [] }

-- What a transition does when its handler has answered, with success or not. The error of a
-- settlement goes to the connector whose hello waits for it; that of a closed socket is logged.
unfoldable pub resume : Bool → Wait → ConnectorServer → ConnectorServer
unfolding mark_handled continue_with invalid_message
resume answered idle c = c
resume true (settling s rest) c = continue_with rest (mark_handled s (record c { waiting = idle }))
resume false (settling s (then_install t h)) c = invalid_message t (record c { waiting = idle })
resume false (settling s then_end) c = record c { waiting = idle }
resume true (handling s) c = record c { waiting = idle }
resume false (handling s) c = invalid_message s (record c { waiting = idle })

-- The next transition of the chain, once none waits.
unfoldable pub next_transition :
    Text → Options → ℕ → Wait → List Transition → ConnectorServer → ConnectorServer
unfolding transit
next_transition js o now idle (t ∷ ts) c = transit js o now t (record c { transition_chain = ts })
next_transition js o now _ _ c = c

pub data Event : Type 0 where
  opens heartbeats begins : ℕ → Event
  receives : ℕ → String → Event
  closed times_out : ℕ → Event
  answers : Bool → Event
  stops : Event

module _ (js : Text) (o : Options) where
  unfoldable pub step : Event → ConnectorServer → ConnectorServer
  unfolding open_socket receive socket_closed hello_times_out beat stop resume next_transition
  step (opens now) c = open_socket now c
  step (heartbeats now) c = beat now c.active_socket c
  step (begins now) c = next_transition js o now c.waiting c.transition_chain c
  step (receives s raw) c = if ltb s c.opened then receive js o s raw c else c
  step (closed s) c = if ltb s c.opened then socket_closed s c else c
  step (times_out s) c = hello_times_out s c
  step (answers answered) c = resume answered c.waiting c
  step stops c = stop c

  unfoldable pub run : List Event → ConnectorServer → ConnectorServer
  unfolding step
  run [] c = c
  run (e ∷ es) c = run es (step e c)

abbrev pub new_server : ConnectorServer
new_server = record {
  socket_data = λ s. new_socket_data 0;
  opened = 0;
  active_socket = none;
  active_generation = 0;
  next_generation = 0;
  transition_chain = [];
  waiting = idle;
  hello_timers = [];
  effects = [];
}

-- `send` to the current socket; `taken` is whether the socket took the message.
unfoldable pub send_to :
    Bool → OutboundMessage → Option ℕ → ConnectorServer → ConnectorServer × Bool
unfolding emit
send_to taken m none c = (c, false)
send_to taken m (some s) c = (emit (sends s m) c, taken)

unfoldable pub send_leased :
    Bool → (String → OutboundMessage) → Option String → ConnectorServer → ConnectorServer × Bool
unfolding send_to current_socket
send_leased taken m none c = (c, false)
send_leased taken m (some lease_id) c = send_to taken (m lease_id) (current_socket c) c

unfoldable pub send_job : Bool → StoredJob → ConnectorServer → ConnectorServer × Bool
unfolding send_leased
send_job taken job c = send_leased taken (job_for job) job.lease_id c

unfoldable pub send_cancel : Bool → StoredJob → ConnectorServer → ConnectorServer × Bool
unfolding send_leased
send_cancel taken job c = send_leased taken (cancel_for job.input.job_id) job.lease_id c

unfoldable pub acknowledge_result :
    Bool → String → String → ConnectorServer → ConnectorServer × Bool
unfolding send_to current_socket
acknowledge_result taken job_id lease_id c =
    send_to taken (result_stored job_id lease_id) (current_socket c) c

unfoldable pub reject_job_message :
    Bool → String → String → ConnectorServer → ConnectorServer × Bool
unfolding send_to current_socket
reject_job_message taken job_id code c =
    send_to taken (error_of_job code job_id) (current_socket c) c
