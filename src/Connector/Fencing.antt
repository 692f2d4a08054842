-- ===== src/Connector/Fencing.antt =====
-- What the transitions of src/connector/server.ts do to a socket keeps one connector active.
use livis_chatgpt_bridge.Prelude.{
  ℕ, ◌≡◌, refl, Bool, true, false, Option, none, some, String, arith, if◌then◌else◌, inl, inr,
  Option-cases,
}
use livis_chatgpt_bridge.Connector.Messages.{ConnectorHello}
use livis_chatgpt_bridge.Connector.Server.{
  ConnectorServer, Effect, Rest, then_install, then_end, idle, named, emit, is_active_socket,
  retire, mark_handled, install, continue_with, settle_named, settle_disconnected, refuse_hello,
  invalid_message,
}
use livis_chatgpt_bridge.Connector.Generations.{
  Fenced, MayFollow, IsSound, update-IsFenced, retire-IsFenced, install-IsFenced,
}

pub if-IsSound :
    {old : ℕ → ℕ} (b : Bool) (x y : ConnectorServer)
    → IsSound old x
    → IsSound old y
    → IsSound old (if b then x else y)
if-IsSound true x y hx hy = hx
if-IsSound false x y hx hy = hy

pub emit-IsSound :
    {old : ℕ → ℕ} (e : Effect) (c : ConnectorServer) → IsSound old c → IsSound old (emit e c)
unfolding emit
emit-IsSound e c h = record { fenced = h.fenced; chained = h.chained; waited = h.waited }

pub is_active-socket :
    (s : ℕ) (c : ConnectorServer) → is_active_socket s c ≡ true → c.active_socket ≡ some s
unfolding is_active_socket
is_active-socket s c e = elim (Option-cases c.active_socket) [
  | inl n ↦ ground (arith, e, n)
  | inr (t, n) ↦ ground (arith, e, n)
]

pub invalid-IsSound :
    {old : ℕ → ℕ} (s : ℕ) (c : ConnectorServer) → IsSound old c → IsSound old (invalid_message s c)
unfolding invalid_message
invalid-IsSound s c h = emit-IsSound _ c h

pub refuse-IsSound :
    {old : ℕ → ℕ} (s : ℕ) (code : String) (c : ConnectorServer)
    → IsSound old c
    → IsSound old (refuse_hello s code c)
unfolding refuse_hello
refuse-IsSound s code c h = emit-IsSound _ _ (emit-IsSound _ c h)

pub install-IsSound :
    {old : ℕ → ℕ} (s : ℕ) (h : ConnectorHello) (c : ConnectorServer)
    → MayFollow c (then_install s h)
    → IsSound old c
    → IsSound old (install s h c)
install-IsSound s h c m k =
    let fenced = install-IsFenced s h c m k.fenced in
    unfold install emit in record { fenced = fenced; chained = k.chained; waited = tt }

pub continue-IsSound :
    {old : ℕ → ℕ} (rest : Rest) (c : ConnectorServer)
    → MayFollow c rest
    → IsSound old c
    → IsSound old (continue_with rest c)
unfolding continue_with
continue-IsSound (then_install s h) c m k = install-IsSound s h c m k
continue-IsSound then_end c m k = k

pub mark-MayInstall :
    (s : ℕ) (c : ConnectorServer) (rest : Rest)
    → MayFollow c rest
    → MayFollow (mark_handled s c) rest
unfolding mark_handled
mark-MayInstall s c (then_install t h) m = ground (arith, m)
mark-MayInstall s c then_end m = tt

mark-IsFenced :
    {old : ℕ → ℕ} (s : ℕ) (c : ConnectorServer) → Fenced old c → Fenced old (mark_handled s c)
unfolding mark_handled
mark-IsFenced s c h = update-IsFenced s _ refl refl h

pub mark-IsSound :
    {old : ℕ → ℕ} (s : ℕ) (c : ConnectorServer)
    → c.waiting ≡ idle
    → IsSound old c
    → IsSound old (mark_handled s c)
mark-IsSound s c e h =
    let fenced = mark-IsFenced s c h.fenced in
    unfold mark_handled in record { fenced = fenced; chained = h.chained; waited = rw e tt }

pub settle-IsSound :
    {old : ℕ → ℕ} (s : ℕ) (rest : Rest) (c : ConnectorServer)
    → c.waiting ≡ idle
    → MayFollow c rest
    → IsSound old c
    → IsSound old (settle_disconnected s rest c)
unfolding settle_disconnected
settle-IsSound {old} s rest c e m h =
    if-IsSound (c.socket_data s).disconnect_handled _ _ (continue-IsSound rest c m h)
      (settles (named (c.socket_data s).connector_id))
  where
    settles : (id : Option String) → IsSound old (settle_named id s rest c)
    settles none =
        unfold settle_named in
        continue-IsSound rest _ (mark-MayInstall s c rest m) (mark-IsSound s c e h)
    settles (some id) =
        unfold settle_named emit in record { fenced = h.fenced; chained = h.chained; waited = m }

pub retire-IsSound :
    {old : ℕ → ℕ} (s : ℕ) (c : ConnectorServer)
    → c.active_socket ≡ some s
    → c.waiting ≡ idle
    → IsSound old c
    → IsSound old (retire s c)
retire-IsSound s c a e h =
    let fenced = retire-IsFenced s c a h.fenced in
    unfold retire in record { fenced = fenced; chained = h.chained; waited = rw e tt }
