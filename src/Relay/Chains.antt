-- ===== src/Relay/Chains.antt =====
-- The refreshes of src/relay/client.ts that are under way at one time, and how often each is tried.
use mathlib.Core.List.{append_assoc}
use livis_chatgpt_bridge.Prelude.{
  ℕ, zero, suc, ◌+◌, ◌≤◌, ◌<◌, ◌≡◌, refl, sym, ◌∙◌, Bool, true, false, ◌&&◌, List, [], ◌∷◌, ◌++◌,
  Option, none, some, arith, if◌then◌else◌, leb, ◌==◌, All, All-map, Bool-cases, inl, inr,
}
use livis_chatgpt_bridge.Relay.TokenRefresh.{
  Refresh, Timer, ack_timeout, retry, RelayClient, Answer, token_sent, token_unsent,
  terminal_auth_error, other_error, Timing, is_socket, is_current_connection,
  is_current_token_refresh, stop_token_refresh_timer, invalidate_token_refresh, close_socket,
  close_current, schedule_token_refresh_retry, refresh_relay_token, refresh_failed, resume_refresh,
  begin_relay_token_refresh, timer_fires, connect, disconnect, answer, Event, connects, handshakes,
  token_expires, token_refreshed, answers, fires, stops, disconnects, step, run, new_client,
}

-- How many of the calls belong to the generation.
abbrev pub live : ℕ → List Refresh → ℕ
live g [] = 0
live g (f ∷ fs) = (if f.refresh_generation == g then 1 else 0) + live g fs

abbrev pub timers : Option Timer → ℕ
timers none = 0
timers (some t) = 1

-- A call of no later generation, whose attempt is one of those that are allowed.
abbrev pub InRange : ℕ → ℕ → Refresh → Type 0
InRange failures g f = (f.refresh_generation ≤ g) × (1 ≤ f.attempt) × (f.attempt ≤ failures)

-- The timer belongs to the current generation; a retry has an attempt left.
abbrev pub IsTimer : ℕ → ℕ → Option Timer → Type 0
IsTimer failures g none = Unit {0}
IsTimer failures g (some (ack_timeout f)) =
    (f.refresh_generation ≡ g) × (1 ≤ f.attempt) × (f.attempt ≤ failures)
IsTimer failures g (some (retry f wait)) =
    (f.refresh_generation ≡ g) × (1 ≤ f.attempt) × (f.attempt < failures)

pub record IsOneChain (failures : ℕ) (c : RelayClient) : Type 0 where
  pub calls : All (InRange failures c.token_refresh_generation) c.waiting
  pub timer : IsTimer failures c.token_refresh_generation c.token_refresh_timer
  pub single : live c.token_refresh_generation c.waiting + timers c.token_refresh_timer ≤ 1

stale-live :
    (failures g : ℕ) (fs : List Refresh) → All (InRange failures g) fs → live (suc g) fs ≡ 0
stale-live failures g [] h = refl
stale-live failures g (f ∷ fs) h = ground (arith, stale-live failures g fs h.1)

live-append : (g : ℕ) (xs ys : List Refresh) → live g (xs ++ ys) ≡ live g xs + live g ys
live-append g [] ys = omega arith
live-append g (x ∷ xs) ys = omega (arith, live-append g xs ys)

All-remove {ℓ κ} :
    {A : Type ℓ} (P : A → Type κ) (before : List A) (a : A) (after : List A)
    → All P (before ++ a ∷ after)
    → All P (before ++ after)
All-remove P [] a after h = h.1
All-remove P (b ∷ before) a after h = (h.0, All-remove P before a after h.1)

All-at {ℓ κ} :
    {A : Type ℓ} (P : A → Type κ) (before : List A) (a : A) (after : List A)
    → All P (before ++ a ∷ after)
    → P a
All-at P [] a after h = h.0
All-at P (b ∷ before) a after h = All-at P before a after h.1

module _ (t : Timing) where
  abbrev pub failures : ℕ
  failures = t.token_refresh_max_failures

  invalidate-IsOneChain :
      (c : RelayClient)
      → All (InRange failures c.token_refresh_generation) c.waiting
      → IsOneChain failures (invalidate_token_refresh c)
  unfolding invalidate_token_refresh
  invalidate-IsOneChain c h = record {
    calls = All-map c.waiting (λ f r. (omega (arith, r.0), r.1, r.2)) h;
    timer = tt;
    single = omega (arith, stale-live failures c.token_refresh_generation c.waiting h);
  }

  is_current-generation :
      (f : Refresh) (c : RelayClient)
      → is_current_token_refresh f c ≡ true
      → c.token_refresh_generation ≡ f.refresh_generation
  unfolding is_current_token_refresh
  is_current-generation f c e = ground arith

  -- A client from which the call `f` has just been taken.
  record HasRoom (f : Refresh) (c : RelayClient) : Type 0 where
    chain : IsOneChain failures c
    range : InRange failures c.token_refresh_generation f
    room :
        c.token_refresh_generation ≡ f.refresh_generation
        → live c.token_refresh_generation c.waiting + timers c.token_refresh_timer ≡ 0

  if-IsOneChain :
      (b : Bool) (x y : RelayClient)
      → IsOneChain failures x
      → IsOneChain failures y
      → IsOneChain failures (if b then x else y)
  if-IsOneChain true x y hx hy = hx
  if-IsOneChain false x y hx hy = hy

  schedule-IsOneChain :
      (f : Refresh) (c : RelayClient)
      → HasRoom f c
      → IsOneChain failures (schedule_token_refresh_retry t f c)
  unfolding schedule_token_refresh_retry is_current_token_refresh close_socket
  schedule-IsOneChain f c h = elim (Bool-cases (is_current_token_refresh f c)) [
    | inr e ↦ rw e h.chain
    | inl e ↦
        let same = is_current-generation f c e in
        elim (Bool-cases (leb failures f.attempt)) [
          | inl k ↦
              let i = invalidate-IsOneChain c h.chain.calls in
              rw (e, k) (record { calls = i.calls; timer = i.timer; single = i.single })
          | inr k ↦
              let left : f.attempt < failures = ground arith in
              let range = h.range in
              rw (e, k)
                (record {
                  calls = h.chain.calls;
                  timer = (sym same, range.1, left);
                  single = omega (arith, h.room same);
                })
        ]
  ]

  failed-IsOneChain :
      (f : Refresh) (c : RelayClient) → HasRoom f c → IsOneChain failures (refresh_failed t f c)
  unfolding refresh_failed
  failed-IsOneChain f c h =
      if-IsOneChain (is_current_token_refresh f c) (schedule_token_refresh_retry t f c) c
        (schedule-IsOneChain f c h) h.chain

  close-IsOneChain :
      (s : Option ℕ) (code : ℕ) (c : RelayClient)
      → IsOneChain failures c
      → IsOneChain failures (close_current s code c)
  unfolding close_current close_socket
  close-IsOneChain none code c h = h
  close-IsOneChain (some s) code c h = record {
    calls = h.calls;
    timer = h.timer;
    single = h.single;
  }

  resume-IsOneChain :
      (a : Answer) (f : Refresh) (c : RelayClient)
      → HasRoom f c
      → IsOneChain failures (resume_refresh t a f c)
  unfolding resume_refresh
  resume-IsOneChain token_sent f c h = elim (Bool-cases (is_current_token_refresh f c)) [
    | inr e ↦ rw e h.chain
    | inl e ↦
        let same = is_current-generation f c e in
        rw e (record {
          calls = h.chain.calls;
          timer = (sym same, h.range.1, h.range.2);
          single = omega (arith, h.room same);
        })
  ]
  resume-IsOneChain token_unsent f c h =
      if-IsOneChain (is_current_token_refresh f c) (refresh_failed t f c) c
        (failed-IsOneChain f c h) h.chain
  resume-IsOneChain terminal_auth_error f c h = elim (Bool-cases (is_current_token_refresh f c)) [
    | inr e ↦ rw e h.chain
    | inl e ↦ rw e (
        close-IsOneChain c.socket 1008 _
          (invalidate-IsOneChain (record c { terminal_failure = true }) h.chain.calls))
  ]
  resume-IsOneChain other_error f c h = failed-IsOneChain f c h

  -- A call is begun when no other is live in its generation.
  refresh-IsOneChain :
      (f : Refresh) (c : RelayClient) → HasRoom f c → IsOneChain failures (refresh_relay_token f c)
  unfolding refresh_relay_token
  refresh-IsOneChain f c h = elim (Bool-cases (is_current_token_refresh f c)) [
    | inr e ↦ rw e h.chain
    | inl e ↦
        let same = is_current-generation f c e in
        rw e (record {
          calls = (h.range, h.chain.calls);
          timer = h.chain.timer;
          single = ground (arith, h.room same);
        })
  ]

  begin-IsOneChain :
      (socket generation : ℕ) (c : RelayClient)
      → 1 ≤ failures
      → IsOneChain failures c
      → IsOneChain failures (begin_relay_token_refresh socket generation c)
  unfolding begin_relay_token_refresh invalidate_token_refresh
  begin-IsOneChain socket generation c some_tries h =
      refresh-IsOneChain _ (invalidate_token_refresh c) (record {
        chain = invalidate-IsOneChain c h.calls;
        range = (omega arith, omega arith, some_tries);
        room = λ e. omega (arith, stale-live failures c.token_refresh_generation c.waiting h.calls);
      })

  fires-IsOneChain :
      (timer : Option Timer) (c : RelayClient)
      → c.token_refresh_timer ≡ timer
      → IsOneChain failures c
      → IsOneChain failures (timer_fires t timer c)
  unfolding timer_fires stop_token_refresh_timer
  fires-IsOneChain none c e h = h
  fires-IsOneChain (some (ack_timeout f)) c e h =
      let (same, low, high) = rw e at h.timer in
      let alone : live c.token_refresh_generation c.waiting + timers (some (ack_timeout f)) ≤ 1 =
        rw e at h.single in
      schedule-IsOneChain f (stop_token_refresh_timer c) (record {
        chain = record { calls = h.calls; timer = tt; single = omega (arith, alone) };
        range = (omega (arith, same), low, high);
        room = λ g. omega (arith, alone);
      })
  fires-IsOneChain (some (retry f wait)) c e h =
      let (same, low, high) = rw e at h.timer in
      let alone : live c.token_refresh_generation c.waiting + timers (some (retry f wait)) ≤ 1 =
        rw e at h.single in
      refresh-IsOneChain (record f { attempt = suc f.attempt }) (stop_token_refresh_timer c)
        (record {
          chain = record { calls = h.calls; timer = tt; single = omega (arith, alone) };
          range = (omega (arith, same), omega arith, omega (arith, high));
          room = λ g. omega (arith, alone);
        })

  answer-IsOneChain :
      (a : Answer) (n : ℕ) (before after : List Refresh) (c : RelayClient)
      → c.waiting ≡ before ++ after
      → IsOneChain failures c
      → IsOneChain failures (answer t a n before after c)
  unfolding answer
  answer-IsOneChain a n before [] c e h = h
  answer-IsOneChain a zero before (f ∷ after) c e h =
      let calls = rw e at h.calls in
      let alone : live c.token_refresh_generation (before ++ f ∷ after)
            + timers c.token_refresh_timer
          ≤ 1 =
        rw e at h.single in
      let split = live-append c.token_refresh_generation before (f ∷ after) in
      let rest = live-append c.token_refresh_generation before after in
      resume-IsOneChain a f (record c { waiting = before ++ after })
        (record {
          chain = record {
            calls = All-remove (InRange failures c.token_refresh_generation) before f after calls;
            timer = h.timer;
            single = omega (arith, alone, split, rest);
          };
          range = All-at (InRange failures c.token_refresh_generation) before f after calls;
          room = λ g. ground (arith, alone, split, rest, g);
        })
  answer-IsOneChain a (suc n) before (f ∷ after) c e h =
      answer-IsOneChain a n (before ++ f ∷ []) after c
        (e ∙ sym (append_assoc before (f ∷ []) after)) h

  disconnect-IsOneChain :
      (socket generation : ℕ) (c : RelayClient)
      → IsOneChain failures c
      → IsOneChain failures (disconnect socket generation c)
  unfolding disconnect
  disconnect-IsOneChain socket generation c h =
      let d = if is_current_connection socket generation c then invalidate_token_refresh c else c in
      let k =
        if-IsOneChain (is_current_connection socket generation c) (invalidate_token_refresh c) c
          (invalidate-IsOneChain c h.calls) h in
      if-IsOneChain (is_socket d.socket socket)
        (record d { handshake_complete = false; socket = none }) d
        (record { calls = k.calls; timer = k.timer; single = k.single }) k

  step-IsOneChain :
      (e : Event) (c : RelayClient)
      → 1 ≤ failures
      → IsOneChain failures c
      → IsOneChain failures (step t e c)
  unfolding step connect
  step-IsOneChain (connects socket) c some_tries h =
      let i = invalidate-IsOneChain c h.calls in
      record { calls = i.calls; timer = i.timer; single = i.single }
  step-IsOneChain (handshakes socket generation) c some_tries h =
      if-IsOneChain (is_current_connection socket generation c)
        (record c { handshake_complete = true }) c
        (record { calls = h.calls; timer = h.timer; single = h.single }) h
  step-IsOneChain (token_expires socket generation) c some_tries h =
      if-IsOneChain (c.handshake_complete && is_current_connection socket generation c)
        (begin_relay_token_refresh socket generation c) c
        (begin-IsOneChain socket generation c some_tries h) h
  step-IsOneChain (token_refreshed socket generation) c some_tries h =
      if-IsOneChain (c.handshake_complete && is_current_connection socket generation c)
        (invalidate_token_refresh c) c (invalidate-IsOneChain c h.calls) h
  step-IsOneChain (answers a n) c some_tries h = answer-IsOneChain a n [] c.waiting c refl h
  step-IsOneChain fires c some_tries h = fires-IsOneChain c.token_refresh_timer c refl h
  step-IsOneChain stops c some_tries h = invalidate-IsOneChain c h.calls
  step-IsOneChain (disconnects socket generation) c some_tries h =
      disconnect-IsOneChain socket generation c h

  runs :
      (es : List Event) (c : RelayClient)
      → 1 ≤ failures
      → IsOneChain failures c
      → IsOneChain failures (run t es c)
  unfolding run
  runs [] c some_tries h = h
  runs (e ∷ es) c some_tries h = runs es (step t e c) some_tries (step-IsOneChain e c some_tries h)

  -- In every run of the client, in whatever order the relay's messages, the answers of the identity
  -- service, the timers and the connections come, at most one call or timer belongs to the current
  -- generation of refreshes; none belongs to a later one; and the attempt of each is at least 1 and at
  -- most the number of failures that is allowed, provided that one is.
  pub run-IsOneChain : (es : List Event) → 1 ≤ failures → IsOneChain failures (run t es new_client)
  run-IsOneChain es some_tries =
      runs es new_client some_tries (record { calls = tt; timer = tt; single = omega arith })
