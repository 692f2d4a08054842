-- ===== src/Relay/TokenRefresh.antt =====
-- src/relay/client.ts: the refresh of the relay's token on a connection. Each step is what the client
-- does in one turn of the event loop: `refreshRelayToken` up to its `await`, what follows the
-- `await`, or a timer.
use livis_chatgpt_bridge.Prelude.{
  ℕ, zero, suc, ◌-◌, ◌*◌, ◌^◌, min, max, Bool, true, false, not, ◌&&◌, List, [], ◌∷◌, Option, none,
  some, if◌then◌else◌, leb, ◌==◌, ◌++◌,
}

-- One `refreshRelayToken` call: the arguments that it hands on to its retries. A socket is a number.
pub record Refresh : Type 0 where
  pub socket : ℕ
  pub connection_generation : ℕ
  pub refresh_generation : ℕ
  pub attempt : ℕ

-- `tokenRefreshTimer`: the wait for the ACK of a refresh, or for its retry after so many ms.
pub data Timer : Type 0 where
  ack_timeout : Refresh → Timer
  retry : Refresh → ℕ → Timer

-- The fields of `RelayClient` that the refresh reads or writes. `waiting` are the calls that wait
-- for a token, `closed` the calls of `close` with their codes, `sent` the refreshes that were sent.
pub record RelayClient : Type 0 where
  pub socket : Option ℕ
  pub connection_generation : ℕ
  pub token_refresh_generation : ℕ
  pub token_refresh_timer : Option Timer
  pub handshake_complete : Bool
  pub terminal_failure : Bool
  pub waiting : List Refresh
  pub closed : List (ℕ × ℕ)
  pub sent : List Refresh

-- What `getAccessToken` and `socket.send` do: a token, sent or not, or an error.
pub data Answer : Type 0 where
  token_sent token_unsent terminal_auth_error other_error : Answer

-- The settings that the refresh reads, and `withJitter` of src/util.ts with its random draw.
pub record Timing : Type 0 where
  pub token_refresh_ack_timeout_ms : ℕ
  pub token_refresh_max_failures : ℕ
  pub reconnect_max_ms : ℕ
  pub with_jitter : ℕ → ℕ

abbrev pub is_socket : Option ℕ → ℕ → Bool
is_socket none s = false
is_socket (some t) s = t == s

unfoldable pub is_current_connection : ℕ → ℕ → RelayClient → Bool
is_current_connection socket generation c =
    is_socket c.socket socket && c.connection_generation == generation

unfoldable pub is_current_token_refresh : Refresh → RelayClient → Bool
unfolding is_current_connection
is_current_token_refresh f c =
    is_current_connection f.socket f.connection_generation c
    && c.token_refresh_generation == f.refresh_generation

unfoldable pub stop_token_refresh_timer : RelayClient → RelayClient
stop_token_refresh_timer c = record c { token_refresh_timer = none }

unfoldable pub invalidate_token_refresh : RelayClient → RelayClient
invalidate_token_refresh c = record c {
  token_refresh_timer = none;
  token_refresh_generation = suc c.token_refresh_generation;
}

unfoldable pub close_socket : ℕ → ℕ → RelayClient → RelayClient
close_socket socket code c = record c { closed = (socket, code) ∷ c.closed }

-- `this.socket?.close(code)`.
unfoldable pub close_current : Option ℕ → ℕ → RelayClient → RelayClient
unfolding close_socket
close_current none code c = c
close_current (some socket) code c = close_socket socket code c

-- The wait before the next attempt.
unfoldable pub retry_wait_ms : Timing → ℕ → ℕ
retry_wait_ms t attempt =
    let base =
      min (min t.token_refresh_ack_timeout_ms 1000 * 2 ^ (attempt - 1)) t.reconnect_max_ms in
    max 1 (min t.reconnect_max_ms (t.with_jitter (max 1 base)))

unfoldable pub schedule_token_refresh_retry : Timing → Refresh → RelayClient → RelayClient
unfolding is_current_token_refresh invalidate_token_refresh close_socket
schedule_token_refresh_retry t f c =
    if not (is_current_token_refresh f c)
    then c
    else (if leb t.token_refresh_max_failures f.attempt
        then close_socket f.socket 1012 (invalidate_token_refresh c)
        else record c { token_refresh_timer = some (retry f (retry_wait_ms t f.attempt)) })

-- `refreshRelayToken` up to its `await`.
unfoldable pub refresh_relay_token : Refresh → RelayClient → RelayClient
unfolding is_current_token_refresh
refresh_relay_token f c =
    if is_current_token_refresh f c then record c { waiting = f ∷ c.waiting } else c

-- The `catch` block.
unfoldable pub refresh_failed : Timing → Refresh → RelayClient → RelayClient
unfolding is_current_token_refresh schedule_token_refresh_retry
refresh_failed t f c =
    if is_current_token_refresh f c then schedule_token_refresh_retry t f c else c

-- `refreshRelayToken` after its `await`.
unfoldable pub resume_refresh : Timing → Answer → Refresh → RelayClient → RelayClient
unfolding is_current_token_refresh refresh_failed invalidate_token_refresh close_current
resume_refresh t token_sent f c =
    if is_current_token_refresh f c
    then record c { token_refresh_timer = some (ack_timeout f); sent = f ∷ c.sent }
    else c
resume_refresh t token_unsent f c = if is_current_token_refresh f c then refresh_failed t f c else c
resume_refresh t terminal_auth_error f c =
    if is_current_token_refresh f c
    then close_current c.socket 1008
        (invalidate_token_refresh (record c { terminal_failure = true }))
    else c
resume_refresh t other_error f c = refresh_failed t f c

unfoldable pub begin_relay_token_refresh : ℕ → ℕ → RelayClient → RelayClient
unfolding invalidate_token_refresh refresh_relay_token
begin_relay_token_refresh socket generation c =
    let invalidated = invalidate_token_refresh c in
    refresh_relay_token
      (record {
        socket = socket;
        connection_generation = generation;
        refresh_generation = invalidated.token_refresh_generation;
        attempt = 1;
      })
      invalidated

-- A timer that fires is cleared first.
unfoldable pub timer_fires : Timing → Option Timer → RelayClient → RelayClient
unfolding stop_token_refresh_timer schedule_token_refresh_retry refresh_relay_token
timer_fires t none c = c
timer_fires t (some (ack_timeout f)) c =
    schedule_token_refresh_retry t f (stop_token_refresh_timer c)
timer_fires t (some (retry f wait)) c =
    refresh_relay_token (record f { attempt = suc f.attempt }) (stop_token_refresh_timer c)

-- The head of `connectOnce`.
unfoldable pub connect : ℕ → RelayClient → RelayClient
unfolding invalidate_token_refresh
connect socket c = record (invalidate_token_refresh c) {
  socket = some socket;
  connection_generation = suc c.connection_generation;
  handshake_complete = false;
}

-- The `finally` block of `connectOnce`, apart from its other timers.
unfoldable pub disconnect : ℕ → ℕ → RelayClient → RelayClient
unfolding is_current_connection invalidate_token_refresh
disconnect socket generation c =
    let d = if is_current_connection socket generation c then invalidate_token_refresh c else c in
    if is_socket d.socket socket then record d { handshake_complete = false; socket = none } else d

-- The answer to the call at this place of the list.
unfoldable pub answer :
    Timing → Answer → ℕ → List Refresh → List Refresh → RelayClient → RelayClient
unfolding resume_refresh
answer t a n before [] c = c
answer t a zero before (f ∷ after) c = resume_refresh t a f (record c { waiting = before ++ after })
answer t a (suc n) before (f ∷ after) c = answer t a n (before ++ f ∷ []) after c

pub data Event : Type 0 where
  connects : ℕ → Event
  handshakes token_expires token_refreshed : ℕ → ℕ → Event
  answers : Answer → ℕ → Event
  fires stops : Event
  disconnects : ℕ → ℕ → Event

module _ (t : Timing) where
  -- A message is handled only after the handshake and on the current connection.
  unfoldable pub step : Event → RelayClient → RelayClient
  unfolding is_current_connection connect disconnect begin_relay_token_refresh
      invalidate_token_refresh answer timer_fires
  step (connects socket) c = connect socket c
  step (handshakes socket generation) c =
      if is_current_connection socket generation c
      then record c { handshake_complete = true }
      else c
  step (token_expires socket generation) c =
      if c.handshake_complete && is_current_connection socket generation c
      then begin_relay_token_refresh socket generation c
      else c
  step (token_refreshed socket generation) c =
      if c.handshake_complete && is_current_connection socket generation c
      then invalidate_token_refresh c
      else c
  step (answers a n) c = answer t a n [] c.waiting c
  step fires c = timer_fires t c.token_refresh_timer c
  step stops c = invalidate_token_refresh c
  step (disconnects socket generation) c = disconnect socket generation c

  unfoldable pub run : List Event → RelayClient → RelayClient
  unfolding step
  run [] c = c
  run (e ∷ es) c = run es (step e c)

abbrev pub new_client : RelayClient
new_client = record {
  socket = none;
  connection_generation = 0;
  token_refresh_generation = 0;
  token_refresh_timer = none;
  handshake_complete = false;
  terminal_failure = false;
  waiting = [];
  closed = [];
  sent = [];
}
