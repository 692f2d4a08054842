-- ===== src/Connector/Callbacks.antt =====
-- What the callbacks of src/connector/server.ts do keeps one connector active.
use livis_chatgpt_bridge.Prelude.{
  ℕ, suc, ◌≡◌, refl, Bool, true, false, not, List, [], ◌∷◌, Option, none, some, arith, All,
  All-append,
}
use livis_chatgpt_bridge.Connector.Server.{
  ConnectorServer, then_install, then_end, Wait, idle, settling, handling, Transition, handles,
  ends, update, emit, mark_handled, retire, sends, closes, ping,
}
use livis_chatgpt_bridge.Connector.Loop.{
  new_socket_data, open_socket, enqueue_transition, beat, stop_active, resume,
}
use livis_chatgpt_bridge.Connector.Generations.{
  IsCurrent, IsFenced, Fenced, MayFollow, MayWait, IsOpened, IsSound, retire-IsFenced,
}
use livis_chatgpt_bridge.Connector.Fencing.{
  if-IsSound, emit-IsSound, invalid-IsSound, continue-IsSound, mark-IsSound, mark-MayInstall,
}

wider :
    (opened : ℕ) (ts : List Transition) → All (IsOpened opened) ts → All (IsOpened (suc opened)) ts
wider opened [] h = tt
wider opened (handles s raw ∷ ts) h = (omega (arith, h.0), wider opened ts h.1)
wider opened (ends s ∷ ts) h = (omega (arith, h.0), wider opened ts h.1)

open-IsFenced :
    {old : ℕ → ℕ} (now : ℕ) (c : ConnectorServer)
    → Fenced old c
    → IsFenced old
        (update c.socket_data c.opened (new_socket_data now))
        (suc c.opened)
        c.active_socket
        c.active_generation
        c.next_generation
open-IsFenced now c h = record {
  current = current c.active_socket h.current;
  single = λ t r. ground (arith, h.single t);
  counted = λ t. ground (arith, h.counted t);
  distinct = λ t u a b. ground (arith, h.distinct t u);
  fresh = λ t a. ground (arith, h.fresh t);
  kept = λ t a. ground (arith, h.kept t, h.fresh t);
}
  where
    current :
        (active : Option ℕ)
        → IsCurrent c.socket_data c.active_generation active
        → IsCurrent (update c.socket_data c.opened (new_socket_data now)) c.active_generation active
    current none k = k
    current (some s) k = ground (arith, k, h.fresh s)

open-MayWait :
    (now : ℕ) (c : ConnectorServer) (w : Wait)
    → MayWait c.socket_data c.opened c.active_socket w
    → MayWait (update c.socket_data c.opened (new_socket_data now)) (suc c.opened) c.active_socket w
open-MayWait now c idle m = tt
open-MayWait now c (handling s) m = tt
open-MayWait now c (settling s then_end) m = tt
open-MayWait now c (settling s (then_install t h)) m = ground (arith, m)

pub open-IsSound :
    {old : ℕ → ℕ} (now : ℕ) (c : ConnectorServer) → IsSound old c → IsSound old (open_socket now c)
unfolding open_socket emit
open-IsSound now c h = record {
  fenced = open-IsFenced now c h.fenced;
  chained = wider c.opened c.transition_chain h.chained;
  waited = open-MayWait now c c.waiting h.waited;
}

pub enqueue-IsSound :
    {old : ℕ → ℕ} (t : Transition) (c : ConnectorServer)
    → IsOpened c.opened t
    → IsSound old c
    → IsSound old (enqueue_transition t c)
unfolding enqueue_transition
enqueue-IsSound t c o h = record {
  fenced = h.fenced;
  chained = All-append (IsOpened c.opened) c.transition_chain (t ∷ []) h.chained (o, tt);
  waited = h.waited;
}

pub timers-IsSound :
    {old : ℕ → ℕ} (ts : List ℕ) (c : ConnectorServer)
    → IsSound old c
    → IsSound old (record c { hello_timers = ts })
timers-IsSound ts c h = record { fenced = h.fenced; chained = h.chained; waited = h.waited }

pub beat-IsSound :
    {old : ℕ → ℕ} (now : ℕ) (active : Option ℕ) (c : ConnectorServer)
    → IsSound old c
    → IsSound old (beat now active c)
unfolding beat
beat-IsSound now none c h = h
beat-IsSound now (some s) c h =
    if-IsSound (not (c.socket_data s).ready) _ _ h
      (if-IsSound _ _ _ (emit-IsSound (closes s 1001) c h) (emit-IsSound (sends s (ping now)) c h))

retire-MayWait :
    (s : ℕ) (c : ConnectorServer) (w : Wait)
    → MayWait c.socket_data c.opened c.active_socket w
    → MayWait (retire s c).socket_data (retire s c).opened (retire s c).active_socket w
unfolding retire
retire-MayWait s c idle m = tt
retire-MayWait s c (handling t) m = tt
retire-MayWait s c (settling t then_end) m = tt
retire-MayWait s c (settling t (then_install u h)) m = ground (arith, m)

pub stop-IsSound :
    {old : ℕ → ℕ} (active : Option ℕ) (c : ConnectorServer)
    → c.active_socket ≡ active
    → IsSound old c
    → IsSound old (stop_active active c)
unfolding stop_active
stop-IsSound none c e h = h
stop-IsSound (some s) c e h =
    let fenced = retire-IsFenced s c e h.fenced in
    let waited = retire-MayWait s c c.waiting h.waited in
    unfold retire emit in record { fenced = fenced; chained = h.chained; waited = waited }

-- A transition that has ended.
idle-IsSound :
    {old : ℕ → ℕ} (c : ConnectorServer) → IsSound old c → IsSound old (record c { waiting = idle })
idle-IsSound c h = record { fenced = h.fenced; chained = h.chained; waited = tt }

pub resume-IsSound :
    {old : ℕ → ℕ} (answered : Bool) (w : Wait) (c : ConnectorServer)
    → c.waiting ≡ w
    → IsSound old c
    → IsSound old (resume answered w c)
unfolding resume
resume-IsSound answered idle c e h = h
resume-IsSound true (settling s rest) c e h =
    let ended = record c { waiting = idle } in
    let may : MayFollow c rest = rw e at h.waited in
    continue-IsSound rest (mark_handled s ended) (mark-MayInstall s ended rest may)
      (mark-IsSound s ended refl (idle-IsSound c h))
resume-IsSound false (settling s (then_install t h)) c e k = invalid-IsSound t _ (idle-IsSound c k)
resume-IsSound false (settling s then_end) c e h = idle-IsSound c h
resume-IsSound true (handling s) c e h = idle-IsSound c h
resume-IsSound false (handling s) c e h = invalid-IsSound s _ (idle-IsSound c h)
