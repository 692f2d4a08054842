-- ===== src/Lib.antt =====
-- The job store of livis-chatgpt-bridge, the daemon that takes jobs from a LiViS relay, has them
-- executed by a backend (Hermes over a connector, Codex or Claude as child processes) and sends the
-- results back. What has to survive a crash is in one SQLite database, which the class `JobStore` of
-- src/state/store.ts owns; the relay client and the daemon call it; the connector server and the
-- identity client keep state of their own.
--
-- Types models src/types.ts. The modules under Store model src/state/store.ts:
--   Schema     the tables as lists of rows in rowid order, `rowToJob`, `businessPayloadHash`
--   Table      SELECT, UPDATE, DELETE and INSERT OR IGNORE on such a list
--   Monad      statements on the database that may fail, and `transaction`, which rolls back
--   Reads      `get` and `require`
--   Ledger     `appendExecutionAttemptEventLocked` with the constraints of its table
--   Intents    `requestCancel` and the table of cancels that wait for their job
--   Jobs       `ingest`, `markAcked`, `claimForDispatch`, `resetUnsentDispatch`, `markRunning`,
--              `finishSuccess`, `finishFailure`, `reject`
--   Outbox     the delivery of results: `startResultDelivery`, `resetOutboxPending`,
--              `resetOutboxPendingAfterSendFailure`, `markOutboxDelivered`, `markOutboxAckFailed`
--   Recovery   `markCancelUnknown`, `finishHermesCancellationNotStarted`,
--              `markConnectorDisconnected`, `recoverAfterRestart` and the session quarantine
--   Sessions   the table `backend_sessions` (Table), the validation of inputs (Input), the creation,
--              binding and checkpoints of sessions (Bind), the jobs of a backend that keeps threads
--              (Attempt, Turns, Endings, Disconnect), and the manual release (Release)
--   Commands   one call of the store as a value, and a history of calls
-- A method is the function of the same name in snake case, with the time that the source reads from
-- `Date.now()` as its last argument but the database. The proofs are in Lifecycle (the diagram of
-- job statuses), Steps (the abstract store: the single writes that a call may make), Invariant,
-- EarlyCancel, Claim, Restart, Outbox/Undo and Sessions/{Claim, Receipt}, over the lemmas of
-- Monad/Inversion, Ledger/Appends and Table/Single; Store/Examples and Sessions/Examples have
-- concrete inputs.
--
-- SQLite runs the transactions one after the other, so that an interleaving of callers is a list of
-- calls. SHA-256, JSON.stringify, the UTF-16 length of a string and the text of a number are
-- parameters (`Runtime`), of which nothing is assumed. A number of the source is a natural number
-- here: times are not negative and counts stay far below 2^53. Every loop of the store is structural
-- recursion on a list, so that no fuel is needed.
--
-- Store/Lists has the queries that the daemon and the relay client poll, and Store/Polling what
-- they promise.
--
-- Protocol models src/protocol/livis.ts and `parseJsonObject` of src/util.ts: Json the values
-- and the errors, Livis the parsing of envelopes, jobs and ACKs, Intake and Candidates the
-- proofs; JSON.parse, JSON.stringify, the lengths of a string in UTF-8 and UTF-16 and its trim
-- are parameters (`Text`), and a number of a message is a natural number.
--
-- Relay models src/relay/client.ts, where the client refreshes its token: TokenRefresh has the
-- calls, timers and generations as steps of an event loop, in which a call that waits for a
-- token is answered in any order; Chains has the proofs. Delivery has the sending of results,
-- the ACK timers and the ACKs over the store; Acks its proofs. The random draw of `withJitter`
-- is a parameter of the wait before a retry.
--
-- Connector models src/connector/server.ts and the versions of src/util.ts: Versions has these,
-- Messages the parsing, Server the state and its small steps, Hello the transitions up to their
-- awaits, Loop the callbacks and the event loop; Fields and Intake (the parser), Generations,
-- Fencing, Transits, Callbacks and Runs (one active connector) and Progress (the chain) have
-- the proofs. A socket is a number, an effect is logged, a handler answers with success or
-- failure in any turn, and a timer may fire more than once; the start of the server, its HTTP
-- routes and their token are not modelled.
--
-- Auth models src/auth/idaas.ts: Idaas has the tokens over the answers of the identity service,
-- Tokens the proofs. The polling takes fuel for its rounds, of which one for each second of the
-- device code and one more are enough; the file of the refresh token does not fail.
--
-- Daemon models src/daemon.ts over the store: State the fields of `RelayDaemon`, its awaits and
-- effects and the gate, Dispatch `dispatchPending` and `resetUnsentExecution`, Relay the handlers
-- of the relay, Execution and Results those of the backend, Upstream the start and what
-- `runUpstreamRecheck` does to the gate, Loop the event loop. A turn goes up to an await; what
-- follows it is a value in a list of waits, which an event answers in any order. Turns shows that
-- every turn keeps a relation that store calls, field changes, effects and claims keep (Frames,
-- Commands, Held); Refinement, Renewal, Once, Acks and Expiry have the proofs. The backend and
-- the relay are effects and answers. `stop` sets its flag only; the timers, the guard file, the
-- connector of a native backend, the status and the log are left out.
--
-- A statement on `backend_sessions` that breaks a CHECK constraint, a key or a trigger of the table
-- is refused with an error.
--
-- Not modelled: the migration of older databases, the file and its permissions, and other parts of
-- the daemon (HTTP, WebSockets, child processes, installation, release, upstream checks), which are
-- I/O around the parts above.
pub mod Prelude
pub mod Types
pub mod Store
pub mod Protocol
pub mod Relay
pub mod Connector
pub mod Auth
pub mod Daemon
