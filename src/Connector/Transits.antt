-- ===== src/Connector/Transits.antt =====
-- The transitions of src/connector/server.ts keep one active connector at a time.
use livis_chatgpt_bridge.Prelude.{
  ℕ, ◌<◌, ◌≡◌, refl, true, not, ◌||◌, Option, none, some, String, str_eq, arith, ltb, ◌==◌,
  Bool-cases, inl, inr, ◌-◌, ◌*◌, Option-cases,
}
use livis_chatgpt_bridge.Protocol.Json.{Text, Checked, valid, refused}
use livis_chatgpt_bridge.Connector.Messages.{ConnectorHello, InboundMessage, hello, pong}
use livis_chatgpt_bridge.Connector.Versions.{parse_semver_triplet, in_range}
use livis_chatgpt_bridge.Connector.Server.{
  ConnectorServer, Options, closes, then_install, then_end, idle, Transition, handles, ends, named,
  emit, is_active_socket, if_active, current_socket, retire, fence_socket, heartbeat_interval_ms,
}
use livis_chatgpt_bridge.Connector.Hello.{
  take_over, admit_hello, accept_hello, dispatch, dispatch_named, handle_parsed, handle_message,
  end_socket, transit,
}
use livis_chatgpt_bridge.Connector.Generations.{
  IsCurrent, Fenced, MayFollow, IsOpened, IsSound, update-IsFenced,
}
use livis_chatgpt_bridge.Connector.Fencing.{
  if-IsSound, emit-IsSound, is_active-socket, invalid-IsSound, refuse-IsSound, install-IsSound,
  settle-IsSound, retire-IsSound,
}

current-is_active :
    (old : ℕ) (c : ConnectorServer) → current_socket c ≡ some old → is_active_socket old c ≡ true
unfolding current_socket if_active
current-is_active old c e = elim (Option-cases c.active_socket) [
  | inl n ↦ ground (arith, e, n)
  | inr (k, n) ↦ ground (arith, e, n)
]

current-none :
    {old : ℕ → ℕ} (c : ConnectorServer)
    → Fenced old c
    → current_socket c ≡ none
    → c.active_socket ≡ none
unfolding current_socket if_active is_active_socket
current-none c h e = elim (Option-cases c.active_socket) [
  | inl n ↦ n
  | inr (k, n) ↦
      let current : IsCurrent c.socket_data c.active_generation (some k) = rw n at h.current in
      ground (arith, e, n, current)
]

take_over-IsSound :
    {old : ℕ → ℕ} (now s : ℕ) (h : ConnectorHello) (found : Option ℕ) (c : ConnectorServer)
    → current_socket c ≡ found
    → s < c.opened
    → (c.socket_data s).generation ≡ 0
    → c.waiting ≡ idle
    → IsSound old c
    → IsSound old (take_over now s h found c)
unfolding take_over
take_over-IsSound now s h none c e o g w k =
    install-IsSound s h c (o, g, current-none c k.fenced e) k
take_over-IsSound now s h (some old) c e o g w k =
    let active = current-is_active old c e in
    let retired = retire-IsSound old c (is_active-socket old c active) w k in
    let free : MayFollow (retire old c) (then_install s h) =
      unfold retire in ground (arith, o, g) in
    let still : (retire old c).waiting ≡ idle = unfold retire in w in
    let fenced : fence_socket old c ≡ retire old c = unfold fence_socket in rw active in
    if-IsSound (ltb (heartbeat_interval_ms * 2) (now - (c.socket_data old).last_pong_at)) _ _
      (rw fenced (
        settle-IsSound old (then_install s h) (emit (closes old 1001) (retire old c))
          (unfold emit in still) (unfold emit in free) (emit-IsSound _ _ retired)))
      (refuse-IsSound s _ c k)

module _ (js : Text) (o : Options) where
  admit-IsSound :
      {old : ℕ → ℕ} (now s : ℕ) (h : ConnectorHello) (c : ConnectorServer)
      → s < c.opened
      → (c.socket_data s).generation ≡ 0
      → c.waiting ≡ idle
      → IsSound old c
      → IsSound old (admit_hello js o now s h c)
  unfolding admit_hello
  admit-IsSound now s h c opened g w k =
      let refused_with = λ (code : String). refuse-IsSound s code c k in
      let taken = take_over-IsSound now s h (current_socket c) c refl opened g w k in
      if-IsSound (not (str_eq h.name o.bridge_implementation)) _ _
        (refused_with "bridge_implementation_unsupported")
        (if-IsSound
          (not (
            in_range (parse_semver_triplet h.version)
              (parse_semver_triplet o.bridge_minimum_version)
              (parse_semver_triplet o.bridge_maximum_exclusive_version)))
          _ _ (refused_with "bridge_version_unsupported")
          (if-IsSound
            (not (
              in_range (parse_semver_triplet h.runtime_version)
                (parse_semver_triplet o.hermes_minimum_version)
                (parse_semver_triplet o.hermes_maximum_exclusive_version)))
            _ _ (refused_with "hermes_version_unsupported") taken))

  accept-IsSound :
      {old : ℕ → ℕ} (now s : ℕ) (h : ConnectorHello) (c : ConnectorServer)
      → s < c.opened
      → c.waiting ≡ idle
      → IsSound old c
      → IsSound old (accept_hello js o now s h c)
  unfolding accept_hello
  accept-IsSound now s h c opened w k =
      elim (Bool-cases ((c.socket_data s).ready || not ((c.socket_data s).generation == 0))) [
        | inl e ↦ rw e (invalid-IsSound s c k)
        | inr e ↦ rw e (admit-IsSound now s h c opened (ground (arith, e)) w k)
      ]

  dispatch-IsSound :
      {old : ℕ → ℕ} (now s : ℕ) (id : String) (message : InboundMessage) (c : ConnectorServer)
      → c.waiting ≡ idle
      → IsSound old c
      → IsSound old (dispatch js o now s id message c)
  unfolding dispatch emit
  dispatch-IsSound now s id pong c w k = record {
    fenced = update-IsFenced s _ refl refl k.fenced;
    chained = k.chained;
    waited = rw w tt;
  }
  dispatch-IsSound now s id message c w k = record {
    fenced = k.fenced;
    chained = k.chained;
    waited = tt;
  }

  named-IsSound :
      {old : ℕ → ℕ} (now s : ℕ) (id : Option String) (message : InboundMessage)
      (c : ConnectorServer)
      → c.waiting ≡ idle
      → IsSound old c
      → IsSound old (dispatch_named js o now s id message c)
  unfolding dispatch_named
  named-IsSound now s none message c w k = invalid-IsSound s c k
  named-IsSound now s (some id) message c w k = dispatch-IsSound now s id message c w k

  handle-IsSound :
      {old : ℕ → ℕ} (now s : ℕ) (parsed : Checked InboundMessage) (c : ConnectorServer)
      → s < c.opened
      → c.waiting ≡ idle
      → IsSound old c
      → IsSound old (handle_parsed js o now s parsed c)
  unfolding handle_parsed
  handle-IsSound now s (refused e) c opened w k = invalid-IsSound s c k
  handle-IsSound now s (valid (hello h)) c opened w k = accept-IsSound now s h c opened w k
  handle-IsSound now s (valid message) c opened w k =
      if-IsSound (is_active_socket s c) _ _
        (named-IsSound now s (named (c.socket_data s).connector_id) message c w k)
        (invalid-IsSound s c k)

  end-IsSound :
      {old : ℕ → ℕ} (s : ℕ) (c : ConnectorServer)
      → c.waiting ≡ idle
      → IsSound old c
      → IsSound old (end_socket js o s c)
  unfolding end_socket
  end-IsSound s c w k = elim (Bool-cases (is_active_socket s c)) [
    | inl active ↦
        let retired = retire-IsSound s c (is_active-socket s c active) w k in
        let still : (retire s c).waiting ≡ idle = unfold retire in w in
        rw active (settle-IsSound s then_end (retire s c) still tt retired)
    | inr passive ↦
        rw passive (
          if-IsSound ((c.socket_data s).generation == 0) _ _ k (settle-IsSound s then_end c w tt k))
  ]

  pub transit-IsSound :
      {old : ℕ → ℕ} (now : ℕ) (t : Transition) (c : ConnectorServer)
      → IsOpened c.opened t
      → c.waiting ≡ idle
      → IsSound old c
      → IsSound old (transit js o now t c)
  unfolding transit handle_message
  transit-IsSound now (handles s raw) c opened w k = handle-IsSound now s _ c opened w k
  transit-IsSound now (ends s) c opened w k = end-IsSound s c w k
