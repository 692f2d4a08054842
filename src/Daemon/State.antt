-- ===== src/Daemon/State.antt =====
-- src/daemon.ts: the state of `RelayDaemon` and its turns, over the job store of src/state/store.ts.
-- A turn is what a handler does up to an `await`, or after it; it ends with a value or an error.
use livis_chatgpt_bridge.Prelude.{
  ℕ, Bool, true, false, not, ◌&&◌, ◌||◌, List, [], ◌∷◌, Option, none, some, String, str_eq,
  if◌then◌else◌, leb,
}
use livis_chatgpt_bridge.Types.{ExecutionBackendKind, StoredJob}
use livis_chatgpt_bridge.Store.Schema.{Database}
use livis_chatgpt_bridge.Store.Monad.{Result, ok, err, StoreError, M}
use livis_chatgpt_bridge.Protocol.Json.{WireError}

-- What a handler does once `dispatchPending` has returned: nothing, or `notifyOutboxPending`; in
-- `onRelayConnected` it is nothing, and a stop of the relay is not waited for.
pub data After : Type 0 where
  finish notify detached : After

abbrev pub waits : After → Bool
waits detached = false
waits _ = true

-- The `await`s at which handlers stand: `dispatch` of a job, with the candidates that are left;
-- `notifyOutboxPending` in the loop; `cancel` of a job; `notifyOutboxPending` before a dispatch; the
-- timer of `deferDispatchPending`; the stop of the relay, before a return or before a reopening; and
-- the start of the backend.
pub data Awaiting : Type 0 where
  submitting : StoredJob → List StoredJob → After → Awaiting
  notifying : List StoredJob → After → Awaiting
  cancelling : StoredJob → Awaiting
  before_dispatch deferred : Awaiting
  blocking : After → Awaiting
  unblocking starting : Awaiting

-- What the daemon asks of its backend, its connector and its relay.
pub data DaemonEffect : Type 0 where
  dispatches cancels : StoredJob → DaemonEffect
  acknowledges : String → String → DaemonEffect
  rejects : String → String → DaemonEffect
  notifies stops_relay starts_relay starts_backend : DaemonEffect

pub record Daemon : Type 0 where
  pub db : Database
  pub stopping : Bool
  pub upstream_proof_expires_at : ℕ
  pub upstream_blocked : Option String
  pub upstream_relay_stopped : Bool
  pub upstream_blocking : Bool
  pub leases : ℕ
  pub waiting : List Awaiting
  pub effects : List DaemonEffect

-- The configuration that the handlers read; the texts of results are those of `serializeResult`,
-- and `uuid` gives the results of `crypto.randomUUID`.
pub record Config : Type 0 where
  pub backend : ExecutionBackendKind
  pub session_key : String
  pub allow_all_nodes : Bool
  pub allowed_node_ids : List String
  pub acknowledge_unofficial_protocol : Bool
  pub acknowledge_codex : Bool
  pub acknowledge_claude : Bool
  pub max_input_chars : ℕ
  pub max_output_chars : ℕ
  pub unauthorized_message : String
  pub serialize_result : String → String
  pub uuid : ℕ → String

-- What a turn finds outside: the time, the time after a claim, and the backend.
pub record Moment : Type 0 where
  pub now : ℕ
  pub later : ℕ
  pub ready : Bool
  pub execution_id : Option String

pub data DaemonError : Type 0 where
  is_stopping proof_expired is_blocked other_backend no_generation no_turn : DaemonError
  stale_lease cancel_won stale_attempt not_settled no_lease request_failed : DaemonError
  credential_of_claude inactive_backlog not_acknowledged : DaemonError
  bad_message : WireError → DaemonError
  store_error : StoreError → DaemonError

pub data TurnResult {ℓ} (A : Type ℓ) : Type ℓ where
  done : A → TurnResult A
  failed : DaemonError → TurnResult A

abbrev pub D {ℓ} : Type ℓ → Type ℓ
D A = Daemon → TurnResult A × Daemon

infixl 5 ◌>>=◌ ◌>>◌
unfoldable pub ◌>>=◌ {ℓ κ} : {A : Type ℓ} {B : Type κ} → D A → (A → D B) → D B
◌>>=◌ m f c = elim (m c).0 [ done a ↦ f a (m c).1 | failed e ↦ (failed e, (m c).1) ]

unfoldable pub ◌>>◌ {ℓ κ} : {A : Type ℓ} {B : Type κ} → D A → D B → D B
unfolding ◌>>=◌
m >> k = m >>= λ _. k

unfoldable pub pure {ℓ} : {A : Type ℓ} → A → D A
pure a c = (done a, c)

unfoldable pub throw {ℓ} : {A : Type ℓ} → DaemonError → D A
throw e c = (failed e, c)

unfoldable pub read {ℓ} : {A : Type ℓ} → (Daemon → A) → D A
read f c = (done (f c), c)

-- A change of the fields of the daemon that are not the database, the effects or the proof.
unfoldable pub change : (Daemon → Daemon) → D (Unit {0})
change f c = (
  done tt,
  record (f c) {
    db = c.db;
    effects = c.effects;
    upstream_proof_expires_at = c.upstream_proof_expires_at;
  },
)

-- A new proof has been saved.
unfoldable pub extend : ℕ → D (Unit {0})
extend expires_at c = (done tt, record c { upstream_proof_expires_at = expires_at })

unfoldable pub perform : DaemonEffect → D (Unit {0})
perform e c = (done tt, record c { effects = e ∷ c.effects })

-- An `await`: what follows it stands in `waiting`.
unfoldable pub await : Awaiting → D (Unit {0})
unfolding change
await w = change λ c. record c { waiting = w ∷ c.waiting }

abbrev pub answer_of {ℓ} : {A : Type ℓ} → Result A → TurnResult A
answer_of (ok a) = done a
answer_of (err e) = failed (store_error e)

-- A call of the store; an error of the store is thrown on.
unfoldable pub call {ℓ} : {A : Type ℓ} → M A → D A
call m c = (answer_of (m c.db).0, record c { db = (m c.db).1 })

unfoldable pub guard : Bool → DaemonError → D (Unit {0})
unfolding pure throw
guard b e = if b then pure tt else throw e

-- `if (b) { m }`
unfoldable pub when : Bool → D (Unit {0}) → D (Unit {0})
unfolding pure
when b m = if b then m else pure tt

unfoldable pub is_one_of : String → List String → Bool
is_one_of id [] = false
is_one_of id (x ∷ xs) = str_eq x id || is_one_of id xs

unfoldable pub is_node_authorized : Config → String → Bool
unfolding is_one_of
is_node_authorized g id = g.allow_all_nodes || is_one_of id g.allowed_node_ids

unfoldable pub is_upstream_proof_expired : ℕ → Daemon → Bool
is_upstream_proof_expired now c = leb c.upstream_proof_expires_at now

-- `blockForUpstream`: closes the gate once, and stops the relay unless it is stopped or stopping.
unfoldable pub closed_gate : String → Option String → Daemon → Daemon
closed_gate reason none c = record c {
  upstream_blocked = some reason;
  upstream_relay_stopped = false;
}
closed_gate reason (some old) c = c

unfoldable pub block_for_upstream : String → D (Unit {0})
unfolding change read perform when closed_gate ◌>>=◌ ◌>>◌
block_for_upstream reason = do
  change λ c. closed_gate reason c.upstream_blocked c
  idle ← read λ c. not c.upstream_blocking && not c.upstream_relay_stopped
  when idle (do change (λ c. record c { upstream_blocking = true }); perform stops_relay)

-- The end of the stop of the relay that `blockForUpstream` began.
unfoldable pub relay_stopped : Bool → D (Unit {0})
unfolding change
relay_stopped stopped = change λ c. record c {
  upstream_relay_stopped = (c.upstream_blocking && stopped) || c.upstream_relay_stopped;
  upstream_blocking = false;
}

-- `beginUpstreamBlock`; a wait for the stop goes on with `after`.
unfoldable pub begin_upstream_block : String → After → D (Unit {0})
unfolding block_for_upstream await when ◌>>=◌ ◌>>◌
begin_upstream_block reason after = do
  block_for_upstream reason
  when (waits after) (await (blocking after))
