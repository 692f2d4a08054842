-- ===== src/Connector/Runs.antt =====
-- One active connector at a time, in every run of src/connector/server.ts.
use livis_chatgpt_bridge.Prelude.{
  ℕ, ◌≤◌, ◌<◌, ◌≡◌, refl, false, List, [], ◌∷◌, String, arith, if◌then◌else◌, ltb, ◌==◌, All,
  Bool-cases, inl, inr,
}
use livis_chatgpt_bridge.Protocol.Json.{Text, Checked, valid, refused}
use livis_chatgpt_bridge.Connector.Messages.{InboundMessage, hello, parse_connector_message}
use livis_chatgpt_bridge.Connector.Server.{
  ConnectorServer, is_active_socket, Options, Wait, idle, settling, handling, Transition, handles,
  ends, invalid_message, closes,
}
use livis_chatgpt_bridge.Connector.Hello.{handle_parsed, handle_message, accept_hello}
use livis_chatgpt_bridge.Connector.Loop.{
  receive, socket_closed, hello_times_out, stop, next_transition, Event, opens, heartbeats, begins,
  receives, closed, times_out, answers, stops, step, run, new_server,
}
use livis_chatgpt_bridge.Connector.Generations.{IsOpened, IsSound}
use livis_chatgpt_bridge.Connector.Fencing.{if-IsSound, emit-IsSound}
use livis_chatgpt_bridge.Connector.Transits.{transit-IsSound}
use livis_chatgpt_bridge.Connector.Callbacks.{
  open-IsSound, enqueue-IsSound, timers-IsSound, beat-IsSound, stop-IsSound, resume-IsSound,
}

module _ (js : Text) (o : Options) where
  next-IsSound :
      {old : ℕ → ℕ} (now : ℕ) (w : Wait) (ts : List Transition) (c : ConnectorServer)
      → c.waiting ≡ w
      → c.transition_chain ≡ ts
      → IsSound old c
      → IsSound old (next_transition js o now w ts c)
  unfolding next_transition
  next-IsSound now idle (t ∷ ts) c e q h =
      let chained : All (IsOpened c.opened) (t ∷ ts) = rw q at h.chained in
      transit-IsSound js o now t (record c { transition_chain = ts }) chained.0 e
        (record { fenced = h.fenced; chained = chained.1; waited = h.waited })
  next-IsSound now idle [] c e q h = h
  next-IsSound now (settling s rest) ts c e q h = h
  next-IsSound now (handling s) ts c e q h = h

  receive-IsSound :
      {old : ℕ → ℕ} (s : ℕ) (raw : String) (c : ConnectorServer)
      → s < c.opened
      → IsSound old c
      → IsSound old (receive js o s raw c)
  unfolding receive
  receive-IsSound s raw c k h =
      if-IsSound (ltb o.max_frame_bytes (js.byte_length raw)) _ _
        (emit-IsSound _ _ (emit-IsSound _ c h)) (enqueue-IsSound (handles s raw) c k h)

  step-IsSound :
      {old : ℕ → ℕ} (e : Event) (c : ConnectorServer) → IsSound old c → IsSound old (step js o e c)
  unfolding step hello_times_out socket_closed stop
  step-IsSound (opens now) c h = open-IsSound now c h
  step-IsSound (heartbeats now) c h = beat-IsSound now c.active_socket c h
  step-IsSound (begins now) c h = next-IsSound now c.waiting c.transition_chain c refl refl h
  step-IsSound (receives s raw) c h = elim (Bool-cases (ltb s c.opened)) [
    | inl e ↦ rw e (receive-IsSound s raw c (ground (arith, e)) h)
    | inr e ↦ rw e h
  ]
  step-IsSound (closed s) c h = elim (Bool-cases (ltb s c.opened)) [
    | inl e ↦ rw e (enqueue-IsSound (ends s) _ (ground (arith, e)) (timers-IsSound _ c h))
    | inr e ↦ rw e h
  ]
  step-IsSound (times_out s) c h = if-IsSound _ _ _ (emit-IsSound (closes s 1008) c h) h
  step-IsSound (answers answered) c h = resume-IsSound answered c.waiting c refl h
  step-IsSound stops c h = timers-IsSound [] _ (stop-IsSound c.active_socket c refl h)

  runs-IsSound :
      {old : ℕ → ℕ} (es : List Event) (c : ConnectorServer)
      → IsSound old c
      → IsSound old (run js o es c)
  unfolding run
  runs-IsSound [] c h = h
  runs-IsSound (e ∷ es) c h = runs-IsSound es (step js o e c) (step-IsSound e c h)

  from_start : (es : List Event) → IsSound (λ s. 0) (run js o es new_server)
  from_start es = runs-IsSound es new_server (record {
    fenced = record {
      current = refl;
      single = λ s e. ground (arith, e);
      counted = λ s. omega arith;
      distinct = λ s t a b. absurd (omega (arith, a));
      fresh = λ s a. refl;
      kept = λ s a. absurd (omega (arith, a));
    };
    chained = tt;
    waited = tt;
  })

  -- In every run of the connector server, in whatever order sockets open, send and close, timers fire,
  -- handlers answer with success or failure and the server is stopped: the active socket is ready and
  -- has the active generation, which is not 0; every socket that is ready is the active one; no
  -- generation is later than the last that was given, and no two sockets have the same one; a socket
  -- that is not opened has none; and while a hello waits for the settlement of an evicted connector no
  -- socket is active and the new one has no generation.
  pub run-IsSound : (es : List Event) → IsSound (λ s. 0) (run js o es new_server)
  run-IsSound es = from_start es

  retire-now :
      (s : ℕ) (c : ConnectorServer)
      → (c.socket_data s).ready ≡ false
      → IsSound (λ t. 0) c
      → IsSound (λ t. if t == s then (c.socket_data s).generation else 0) c
  retire-now s c r h = record {
    fenced = record {
      current = h.fenced.current;
      single = h.fenced.single;
      counted = h.fenced.counted;
      distinct = h.fenced.distinct;
      fresh = h.fenced.fresh;
      kept = λ t a. ground (arith, r, a);
    };
    chained = h.chained;
    waited = h.waited;
  }

  handle-refused :
      (now s : ℕ) (parsed : Checked InboundMessage) (c : ConnectorServer)
      → 1 ≤ (c.socket_data s).generation
      → (c.socket_data s).ready ≡ false
      → handle_parsed js o now s parsed c ≡ invalid_message s c
  unfolding handle_parsed accept_hello is_active_socket
  handle-refused now s (refused e) c g r = refl
  handle-refused now s (valid (hello h)) c g r = ground (arith, g, r)
  handle-refused now s (valid message) c g r = ground (arith, g, r)

  -- A socket that has a generation and is not ready after some run of the connector server, because it
  -- was evicted, has closed or the server was stopped, is out for good: after whatever happens later
  -- it has the same generation, is not ready and not active, and every message of it, a second hello
  -- included, does nothing but answer it with an error.
  pub run-retired :
      (es later : List Event) (s now : ℕ) (raw : String)
      → 1 ≤ ((run js o es new_server).socket_data s).generation
      → ((run js o es new_server).socket_data s).ready ≡ false
      → let before = run js o es new_server in
        let after = run js o later before in
        ((after.socket_data s).generation ≡ (before.socket_data s).generation)
        × ((after.socket_data s).ready ≡ false)
        × (is_active_socket s after ≡ false)
        × (handle_message js o now s raw after ≡ invalid_message s after)
  unfolding handle_message
  run-retired es later s now raw g r =
      let before = run js o es new_server in
      let after = run js o later before in
      let sound = runs-IsSound later before (retire-now s before r (from_start es)) in
      let (same, unready) = sound.fenced.kept s (ground (arith, g)) in
      let same' : (after.socket_data s).generation ≡ (before.socket_data s).generation =
        ground (arith, same) in
      let idle_now : is_active_socket s after ≡ false =
        unfold is_active_socket in ground (arith, unready) in
      (
        same',
        unready,
        idle_now,
        handle-refused now s (parse_connector_message js raw) after (omega (arith, same', g))
            unready,
      )
