-- ===== src/Connector/Generations.antt =====
-- The generations of the connectors of src/connector/server.ts: which socket is active, and that no
-- generation is given twice.
use livis_chatgpt_bridge.Prelude.{
  ℕ, ◌≤◌, ◌<◌, ◌≡◌, refl, true, false, Option, none, some, arith, All,
}
use livis_chatgpt_bridge.Connector.Messages.{ConnectorHello}
use livis_chatgpt_bridge.Connector.Server.{
  ConnectorServer, SocketData, Rest, then_install, then_end, Wait, settling, Transition, handles,
  ends, update, emit, retire, install,
}

-- The active socket is ready and has the generation that the server counts as the active one.
abbrev pub IsCurrent : (ℕ → SocketData) → ℕ → Option ℕ → Type 0
IsCurrent data_of active_generation none = active_generation ≡ 0
IsCurrent data_of active_generation (some s) =
    ((data_of s).ready ≡ true)
    × ((data_of s).generation ≡ active_generation)
    × (1 ≤ active_generation)

-- The server, where the sockets of an `old` generation other than 0 have retired with it.
pub record IsFenced (old : ℕ → ℕ) (data_of : ℕ → SocketData) (opened : ℕ) (active : Option ℕ)
    (active_generation next_generation : ℕ) : Type 0 where
  pub current : IsCurrent data_of active_generation active
  pub single : (s : ℕ) → (data_of s).ready ≡ true → active ≡ some s
  pub counted : (s : ℕ) → (data_of s).generation ≤ next_generation
  pub distinct :
      (s t : ℕ)
      → 1 ≤ (data_of s).generation
      → (data_of s).generation ≡ (data_of t).generation
      → s ≡ t
  pub fresh : (s : ℕ) → opened ≤ s → (data_of s).generation ≡ 0
  pub kept : (s : ℕ) → 1 ≤ old s → ((data_of s).generation ≡ old s) × ((data_of s).ready ≡ false)

abbrev pub Fenced : (ℕ → ℕ) → ConnectorServer → Type 0
Fenced old c =
    IsFenced old c.socket_data c.opened c.active_socket c.active_generation c.next_generation

-- A connector that may be installed: the socket was opened and has no generation, and none is active.
abbrev pub MayInstall : (ℕ → SocketData) → ℕ → Option ℕ → Rest → Type 0
MayInstall data_of opened active then_end = Unit {0}
MayInstall data_of opened active (then_install s h) =
    (s < opened) × ((data_of s).generation ≡ 0) × (active ≡ none)

abbrev pub MayFollow : ConnectorServer → Rest → Type 0
MayFollow c rest = MayInstall c.socket_data c.opened c.active_socket rest

abbrev pub MayWait : (ℕ → SocketData) → ℕ → Option ℕ → Wait → Type 0
MayWait data_of opened active (settling s rest) = MayInstall data_of opened active rest
MayWait data_of opened active _ = Unit {0}

abbrev pub IsOpened : ℕ → Transition → Type 0
IsOpened opened (handles s raw) = s < opened
IsOpened opened (ends s) = s < opened

pub record IsSound (old : ℕ → ℕ) (c : ConnectorServer) : Type 0 where
  pub fenced : Fenced old c
  pub chained : All (IsOpened c.opened) c.transition_chain
  pub waited : MayWait c.socket_data c.opened c.active_socket c.waiting

-- New data of a socket that keeps its generation and is ready as before.
pub update-IsFenced :
    {old : ℕ → ℕ} {data_of : ℕ → SocketData} {opened : ℕ} {active : Option ℕ}
    {active_generation next : ℕ} (s : ℕ) (d : SocketData)
    → d.generation ≡ (data_of s).generation
    → d.ready ≡ (data_of s).ready
    → IsFenced old data_of opened active active_generation next
    → IsFenced old (update data_of s d) opened active active_generation next
update-IsFenced {active = none} s d g r h = record {
  current = h.current;
  single = λ t e. ground (arith, h.single t);
  counted = λ t. ground (arith, h.counted t);
  distinct = λ t u a b. ground (arith, h.distinct t u);
  fresh = λ t a. ground (arith, h.fresh t a);
  kept = λ t a. ground (arith, h.kept t);
}
update-IsFenced {active = some k} s d g r h = record {
  current = ground (arith, h.current);
  single = λ t e. ground (arith, h.single t);
  counted = λ t. ground (arith, h.counted t);
  distinct = λ t u a b. ground (arith, h.distinct t u);
  fresh = λ t a. ground (arith, h.fresh t a);
  kept = λ t a. ground (arith, h.kept t);
}

pub retire-IsFenced :
    {old : ℕ → ℕ} (s : ℕ) (c : ConnectorServer)
    → c.active_socket ≡ some s
    → Fenced old c
    → Fenced old (retire s c)
unfolding retire
retire-IsFenced s c e h = record {
  current = refl;
  single = λ t r. ground (arith, h.single t, e);
  counted = λ t. ground (arith, h.counted t);
  distinct = λ t u a b. ground (arith, h.distinct t u);
  fresh = λ t a. ground (arith, h.fresh t a);
  kept = λ t a. ground (arith, h.kept t);
}

pub install-IsFenced :
    {old : ℕ → ℕ} (s : ℕ) (h : ConnectorHello) (c : ConnectorServer)
    → MayFollow c (then_install s h)
    → Fenced old c
    → Fenced old (install s h c)
unfolding install emit
install-IsFenced s h c m k = record {
  current = ground arith;
  single = λ t r. ground (arith, k.single t, m.2);
  counted = λ t. ground (arith, k.counted t);
  distinct = λ t u a b. ground (arith, k.distinct t u, k.counted t, k.counted u);
  fresh = λ t a. ground (arith, k.fresh t a, m.0);
  kept = λ t a. ground (arith, k.kept t);
}
