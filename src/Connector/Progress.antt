-- ===== src/Connector/Progress.antt =====
-- The chain of transitions of src/connector/server.ts comes to an end.
use livis_chatgpt_bridge.Prelude.{
  ℕ, suc, ◌+◌, ◌-◌, ◌*◌, ◌≤◌, ◌≡◌, refl, Bool, true, false, List, [], ◌∷◌, Option, none, some,
  String, arith, if◌then◌else◌, ◌==◌, length, Bool-cases, inl, inr, ap,
}
use livis_chatgpt_bridge.Protocol.Json.{Text, Checked, valid, refused}
use livis_chatgpt_bridge.Connector.Messages.{
  ConnectorHello, InboundMessage, hello, pong, parse_connector_message,
}
use livis_chatgpt_bridge.Connector.Server.{
  ConnectorServer, Options, Rest, then_install, then_end, Wait, idle, settling, handling,
  Transition, handles, ends, emit, named, current_socket, is_active_socket, fence_socket, retire,
  mark_handled, install, continue_with, settle_named, settle_disconnected, refuse_hello,
  invalid_message, closes,
}
use livis_chatgpt_bridge.Connector.Hello.{
  take_over, admit_hello, accept_hello, dispatch, dispatch_named, handle_parsed, handle_message,
  end_socket, transit,
}
use livis_chatgpt_bridge.Connector.Loop.{resume, next_transition, Event, begins, answers, step, run}

-- The answers for which a transition still waits, at most.
abbrev pub rest_answers : Rest → ℕ
rest_answers (then_install s h) = 1
rest_answers then_end = 0

abbrev pub answers_left : Wait → ℕ
answers_left idle = 0
answers_left (settling s rest) = 1 + rest_answers rest
answers_left (handling s) = 1

-- The handlers answer, and then the next transition begins; one round for each outcome.
abbrev pub rounds : ℕ → List Bool → List Event
rounds now [] = []
rounds now (answered ∷ more) = answers answered ∷ begins now ∷ rounds now more

-- The chain is the same and at most `n` answers are waited for.
abbrev Within : ℕ → ConnectorServer → ConnectorServer → Type 0
Within n c d = (d.transition_chain ≡ c.transition_chain) × (answers_left d.waiting ≤ n)

if-Within :
    (n : ℕ) (c : ConnectorServer) (b : Bool) (x y : ConnectorServer)
    → Within n c x
    → Within n c y
    → Within n c (if b then x else y)
if-Within n c true x y hx hy = hx
if-Within n c false x y hx hy = hy

continue-Within :
    (rest : Rest) (c : ConnectorServer)
    → c.waiting ≡ idle
    → Within (rest_answers rest) c (continue_with rest c)
unfolding continue_with install emit
continue-Within (then_install s h) c e = (refl, omega arith)
continue-Within then_end c e = (refl, ground (arith, e))

settle-Within :
    (s : ℕ) (rest : Rest) (c : ConnectorServer)
    → c.waiting ≡ idle
    → Within (1 + rest_answers rest) c (settle_disconnected s rest c)
unfolding settle_disconnected
settle-Within s rest c e =
    let now_done = continue-Within rest c e in
    if-Within (1 + rest_answers rest) c (c.socket_data s).disconnect_handled _ _
      (now_done.0, omega (arith, now_done.1)) (settles (named (c.socket_data s).connector_id))
  where
    settles : (id : Option String) → Within (1 + rest_answers rest) c (settle_named id s rest c)
    settles none =
        let marked =
          continue-Within rest (unfold mark_handled in mark_handled s c)
            (unfold mark_handled in e) in
        unfold settle_named mark_handled in (marked.0, omega (arith, marked.1))
    settles (some id) = unfold settle_named emit in (refl, omega arith)

take_over-Within :
    (now s : ℕ) (h : ConnectorHello) (found : Option ℕ) (c : ConnectorServer)
    → c.waiting ≡ idle
    → Within 2 c (take_over now s h found c)
unfolding take_over install emit refuse_hello fence_socket retire
take_over-Within now s h none c e = (refl, omega arith)
take_over-Within now s h (some old) c e =
    ground
      (arith, e, settle-Within old (then_install s h) (emit (closes old 1001) (fence_socket old c)))

-- As many answers as the rounds that the transitions of the chain may need.
abbrev pub work : ConnectorServer → ℕ
work c = 3 * length c.transition_chain + answers_left c.waiting

resume-work :
    (answered : Bool) (w : Wait) (c : ConnectorServer)
    → c.waiting ≡ w
    → let d = resume answered w c in
      (d.transition_chain ≡ c.transition_chain) × (answers_left d.waiting ≤ answers_left w - 1)
unfolding resume invalid_message emit
resume-work answered idle c e = (refl, ground (arith, e))
resume-work true (settling s rest) c e =
    let marked = mark_handled s (record c { waiting = idle }) in
    let done = continue-Within rest marked (unfold mark_handled in refl) in
    unfold mark_handled in (done.0, omega (arith, done.1))
resume-work false (settling s (then_install t h)) c e = (refl, omega arith)
resume-work false (settling s then_end) c e = (refl, omega arith)
resume-work true (handling s) c e = (refl, omega arith)
resume-work false (handling s) c e = (refl, omega arith)

module _ (js : Text) (o : Options) where
  handle-Within :
      (now s : ℕ) (parsed : Checked InboundMessage) (c : ConnectorServer)
      → c.waiting ≡ idle
      → Within 2 c (handle_parsed js o now s parsed c)
  unfolding handle_parsed accept_hello admit_hello invalid_message refuse_hello emit dispatch_named
      dispatch
  handle-Within now s (refused e) c w = ground (arith, w)
  handle-Within now s (valid (hello h)) c w =
      ground (arith, w, take_over-Within now s h (current_socket c) c w)
  handle-Within now s (valid pong) c w = ground (arith, w)
  handle-Within now s (valid message) c w = ground (arith, w)

  transit-Within :
      (now : ℕ) (t : Transition) (c : ConnectorServer)
      → c.waiting ≡ idle
      → Within 2 c (transit js o now t c)
  unfolding transit handle_message end_socket
  transit-Within now (handles s raw) c w = handle-Within now s (parse_connector_message js raw) c w
  transit-Within now (ends s) c w =
      let fenced : Within 2 c (settle_disconnected s then_end (fence_socket s c)) =
        unfold fence_socket retire in
        ground (arith, w, settle-Within s then_end (fence_socket s c)) in
      let settled = settle-Within s then_end c w in
      if-Within 2 c (is_active_socket s c) _ _ fenced (
        if-Within 2 c ((c.socket_data s).generation == 0) _ _ (refl, ground (arith, w))
          (settled.0, omega (arith, settled.1)))

  next-work :
      (now : ℕ) (w : Wait) (ts : List Transition) (c : ConnectorServer)
      → c.waiting ≡ w
      → c.transition_chain ≡ ts
      → let d = next_transition js o now w ts c in
        (work d ≤ work c) × (answers_left w ≡ 0 → work d ≤ work c - 1)
  unfolding next_transition
  next-work now idle [] c e q = (omega arith, λ k. ground (arith, e, q))
  next-work now idle (t ∷ ts) c e q =
      let d = transit js o now t (record c { transition_chain = ts }) in
      let within = transit-Within now t (record c { transition_chain = ts }) e in
      let same : length d.transition_chain ≡ length ts = ap length within.0 in
      let whole : length c.transition_chain ≡ suc (length ts) = ap length q in
      (omega (arith, same, whole, within.1), λ k. omega (arith, same, whole, within.1))
  next-work now (settling s rest) ts c e q = (omega arith, λ k. absurd (omega (arith, k)))
  next-work now (handling s) ts c e q = (omega arith, λ k. absurd (omega (arith, k)))

  round-work :
      (now : ℕ) (answered : Bool) (c : ConnectorServer)
      → work (step js o (begins now) (step js o (answers answered) c)) ≤ work c - 1
  unfolding step
  round-work now answered c =
      let d = resume answered c.waiting c in
      let resumed = resume-work answered c.waiting c refl in
      let same : length d.transition_chain ≡ length c.transition_chain = ap length resumed.0 in
      let next = next-work now d.waiting d.transition_chain d refl refl in
      elim (Bool-cases (answers_left d.waiting == 0)) [
        | inl e ↦
            let fewer = next.1 (ground (arith, e)) in omega (arith, same, resumed.1, next.0, fewer)
        | inr e ↦
            let some_left : 1 ≤ answers_left d.waiting = ground (arith, e) in
            omega (arith, same, resumed.1, next.0, some_left)
      ]

  -- The chain of transitions never blocks. From any state of the connector server, rounds in which a
  -- waiting handler answers, each time with success or with failure, and the next transition begins
  -- leave no transition in the chain and none that waits, if there are three rounds for each
  -- transition of the chain and one for each answer that the present one still waits for.
  pub rounds-finish :
      (now : ℕ) (outcomes : List Bool) (c : ConnectorServer)
      → work c ≤ length outcomes
      → let d = run js o (rounds now outcomes) c in (d.transition_chain ≡ []) × (d.waiting ≡ idle)
  unfolding run
  rounds-finish now [] c h =
      (empty c.transition_chain (omega (arith, h)), free c.waiting (omega (arith, h)))
    where
      empty : (ts : List Transition) → length ts ≡ 0 → ts ≡ []
      empty [] e = refl
      empty (t ∷ ts) e = absurd (omega (arith, e))

      free : (w : Wait) → answers_left w ≡ 0 → w ≡ idle
      free idle e = refl
      free (settling s rest) e = absurd (omega (arith, e))
      free (handling s) e = absurd (omega (arith, e))
  rounds-finish now (answered ∷ more) c h =
      rounds-finish now more (step js o (begins now) (step js o (answers answered) c))
        (omega (arith, h, round-work now answered c))
