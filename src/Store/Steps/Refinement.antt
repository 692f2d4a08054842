-- ===== src/Store/Steps/Refinement.antt =====
-- Each call of src/state/store.ts is a sequence of the writes of the abstract store.
pub mod Jobs
pub mod Delivery
pub mod Recovery
pub mod Sessions
pub mod Turns
use livis_chatgpt_bridge.Prelude.{
  suc, ◌≤◌, ◌++◌, leb, length, length-append, ||-left, ||-right, ℕ, ◌≡◌, refl, ◌⊎◌, inl, inr, Bool,
  true, false, not, ◌&&◌, ◌||◌, List, [], ◌∷◌, Option, none, some, String, arith, eq_iff, str_eq,
  if◌then◌else◌, Bool-cases, holds, All-map,
}
use livis_chatgpt_bridge.Types.{
  JobStatus, received, acked, is_executing, is_cancelling, is_delivering, is_active,
  ExecutionAttemptEventType, StoredExecutionAttemptEvent, IncomingRelayJob, ExecutionBackendKind,
  StoredJob, StoredBackendSession,
}
use livis_chatgpt_bridge.Store.Schema.{
  PendingCancelRow, Database, JobRow, OutboxRow, QuarantineRow, Runtime, is_session,
}
use livis_chatgpt_bridge.Store.Sessions.Table.{
  Triggers, is_allowed, metadata_incomplete, is_taken, update_sessions, insert_session,
  delete_sessions,
}
use livis_chatgpt_bridge.Store.Table.{exists, exists_false, update, length-update, length-delete}
use livis_chatgpt_bridge.Store.Monad.{
  Result, ok, err, StoreError, M, run, throw, update_jobs, update_outbox, insert_unless,
}
use livis_chatgpt_bridge.Store.Monad.Moves.{
  Preorder, Moves, moves, moved, moves_rules, run-Moves, insert_unless-Moves, update_jobs-Moves,
  update_outbox-Moves, if-Moves, throw-Moves, pure-Moves, query-Moves, bind-Moves, then-Moves,
  when-Moves, transaction-Moves,
}
use livis_chatgpt_bridge.Store.Reads.{found, require, get}
use livis_chatgpt_bridge.Store.Ledger.{
  AttemptEventInput, insert_event, insert_result, append_to, append_execution_attempt_event,
  satisfies_checks, collides,
}
use livis_chatgpt_bridge.Store.Steps.{
  here, RowStep, OutboxStep, Write, Writes, next, cancels, acks, inserts_job, unsends, clears, runs,
  finishes, rejects, inserts_result, writes_jobs, writes_outbox, writes_intents, appends_event,
  SessionStep, writes_sessions, inserts_session, deletes_sessions,
}
use livis_chatgpt_bridge.Store.Ledger.Appends.{IsNext, require-Moves, append-Moves}
use livis_chatgpt_bridge.Store.Intents
use livis_chatgpt_bridge.Store.Jobs.{append_current}

pub Writes-trans : (a b c : Database) → Writes a b → Writes b c → Writes a c
Writes-trans a b c p here = p
Writes-trans a b c p (next q w) = next (Writes-trans a b _ p q) w

abbrev pub writes : Preorder
writes = record { Rel = λ db d. Writes db d; reflexive = λ db. here; transitive = Writes-trans }

pub one : {db d : Database} → Write db d → Writes db d
one w = next here w

-- An update of jobs whose WHERE clause implies a step of the row.
pub update_jobs-Writes :
    (p : Database → JobRow → Bool) (f : JobRow → JobRow)
    → ((db : Database) (r : JobRow) → p db r ≡ true → RowStep db r (f r))
    → Moves writes (update_jobs p f)
update_jobs-Writes p f h = update_jobs-Moves p f (λ db. one (writes_jobs (p db) f (h db) refl))

insert-bound :
    (rows : List PendingCancelRow) (c : PendingCancelRow)
    → leb Intents.pending_cancel_max_rows (length rows) ≡ false
    → length (rows ++ c ∷ []) ≤ Intents.pending_cancel_max_rows
insert-bound rows c h = ground (arith, length-append rows (c ∷ []))

keep_newest-le :
    (limit : ℕ) (all : List PendingCancelRow) (i : ℕ) (rows : List PendingCancelRow)
    → length (Intents.keep_newest limit all i rows) ≤ length rows
unfolding Intents.keep_newest
keep_newest-le limit all i [] = omega arith
keep_newest-le limit all i (c ∷ rows) = ground (arith, keep_newest-le limit all (suc i) rows)

length-update-le :
    (p : PendingCancelRow → Bool) (f : PendingCancelRow → PendingCancelRow)
    (rows : List PendingCancelRow)
    → length (update p f rows) ≤ length rows
length-update-le p f rows = omega (arith, length-update p f rows)

pub prune-Writes : (now : ℕ) → Moves writes (Intents.prune_expired_pending_cancels now)
unfolding Intents.prune_expired_pending_cancels
prune-Writes now =
    run-Moves _ (λ db. one (writes_intents _ (inl (length-delete _ db.pending_cancels)) refl))

pub consume-Writes :
    (scope job_id : String) (now : ℕ)
    → Moves writes (Intents.consume_matched_pending_cancel scope job_id now)
unfolding Intents.consume_matched_pending_cancel
consume-Writes scope job_id now =
    bind-Moves (update_jobs-Writes _ _ (λ db r h. cancels now (ground arith) refl)) (λ _.
      run-Moves _ (λ db. one (writes_intents _ (inl (length-delete _ db.pending_cancels)) refl)))

pub update_outbox-Writes :
    (p : Database → OutboxRow → Bool) (f : Database → OutboxRow → OutboxRow)
    → ((db : Database) (o : OutboxRow) → p db o ≡ true → OutboxStep db o (f db o))
    → Moves writes (update_outbox p f)
update_outbox-Writes p f h =
    update_outbox-Moves p f (λ db. one (writes_outbox (p db) (f db) (h db) refl))

let_through : (a b c : Bool) → (a || not b || c) ≡ false → (a ≡ false) × (b ≡ true) × (c ≡ false)
let_through a b c h = ground arith

complete : (a b : Bool) → (not a || b) ≡ false → (a ≡ true) × (b ≡ false)
complete a b h = ground arith

if-Writes {ℓ} :
    {A : Type ℓ} (db : Database) (b : Bool) (x y : Result A × Database)
    → (b ≡ true → Writes db x.1)
    → (b ≡ false → Writes db y.1)
    → Writes db (if b then x else y).1
if-Writes db true x y h k = h refl
if-Writes db false x y h k = k refl

-- What the constraints of the table have let through, of a row that an update changes.
admitted :
    (triggers : Triggers) (db : Database) (p : StoredBackendSession → Bool)
    (f : StoredBackendSession → StoredBackendSession) (rows : List StoredBackendSession)
    (r : StoredBackendSession)
    → (p r && (triggers r (f r) || not (is_allowed db (f r)) || is_taken rows (f r))) ≡ false
    → p r ≡ true
    → (triggers r (f r) ≡ false) × (is_allowed db (f r) ≡ true) × (is_taken rows (f r) ≡ false)
admitted triggers db p f rows r h t = let_through _ _ _ (rw t at h)

-- An update of backend sessions whose WHERE clause and triggers imply a step of the row.
pub update_sessions-Writes :
    (triggers : Triggers) (p : Database → StoredBackendSession → Bool)
    (f : StoredBackendSession → StoredBackendSession)
    → ((db : Database) (r : StoredBackendSession)
        → p db r ≡ true
        → triggers r (f r) ≡ false
        → SessionStep r (f r))
    → Moves writes (update_sessions triggers p f)
unfolding update_sessions
update_sessions-Writes triggers p f h = moves λ db.
    if-Writes db _ _ _ (λ e. here)
      (λ e. one (
        writes_sessions (p db) f
          (All-map db.backend_sessions
            (λ r k t. let (g, a, u) = admitted triggers db (p db) f _ r k t in (h db r t g, a, u))
            (exists_false _ db.backend_sessions e))
          refl))

insert-Writes :
    (e : StoreError) (db d : Database) (unfit exists_already or_nothing taken : Bool)
    → (unfit ≡ false → exists_already ≡ false → taken ≡ false → Writes db d)
    → Writes db
        (if◌then◌else◌ {A = Result ℕ × Database} unfit
          (err e, db)
          (if exists_already
            then (if or_nothing then (ok 0, db) else (err e, db))
            else if taken
            then (err e, db)
            else (ok 1, d))).1
insert-Writes e db d true x o t h = here
insert-Writes e db d false true true t h = here
insert-Writes e db d false true false t h = here
insert-Writes e db d false false o true h = here
insert-Writes e db d false false o false h = h refl refl refl

pub insert_session-Writes :
    (or_nothing : Bool) (r : StoredBackendSession) → Moves writes (insert_session or_nothing r)
unfolding insert_session
insert_session-Writes or_nothing r = moves λ db.
    insert-Writes _ db _ _ _ or_nothing _ (λ fits fresh free.
      let (allowed, whole) = complete (is_allowed db r) (metadata_incomplete r) fits in
      one (inserts_session r allowed whole fresh free refl))

pub delete_sessions-Writes :
    (p : Database → StoredBackendSession → Bool) → Moves writes (delete_sessions p)
unfolding delete_sessions
delete_sessions-Writes p = moves λ db. one (deletes_sessions (p db) refl)

pub consume_all-Writes :
    (scope : String) (now : ℕ)
    → Moves writes (Intents.consume_all_matched_pending_cancels scope now)
unfolding Intents.consume_all_matched_pending_cancels
consume_all-Writes scope now =
    bind-Moves (update_jobs-Writes _ _ (λ db r h. cancels now (ground arith) refl)) (λ _.
      run-Moves _ (λ db. one (writes_intents _ (inl (length-delete _ db.pending_cancels)) refl)))

pub trim-Writes : Moves writes Intents.trim_legacy_pending_cancel_overflow
unfolding Intents.trim_legacy_pending_cancel_overflow
trim-Writes = run-Moves _ (λ db.
    one (writes_intents _ (inl (keep_newest-le _ db.pending_cancels 0 db.pending_cancels)) refl))

touch-Writes :
    (scope job_id : String) (now : ℕ) → Moves writes (Intents.touch_intent scope job_id now)
unfolding Intents.touch_intent
touch-Writes scope job_id now =
    moves λ db. one (writes_intents _ (inl (length-update-le _ _ db.pending_cancels)) refl)

pub cancel-Writes :
    (scope job_id : String) (now : ℕ) → Moves writes (Intents.request_cancel scope job_id now)
unfolding Intents.request_cancel
cancel-Writes scope job_id now =
    then-Moves
      (transaction-Moves (
        then-Moves (prune-Writes now) (
          bind-Moves (update_jobs-Writes _ _ (λ db r h. cancels now (ground arith) refl)) λ _.
            bind-Moves (query-Moves _) λ existing.
              if-Moves existing
                (run-Moves _
                  (λ db. one (writes_intents _ (inl (length-delete _ db.pending_cancels)) refl)))
                (bind-Moves (touch-Writes scope job_id now) λ n. if-Moves _ (pure-Moves tt) (
                  insert_unless-Moves _ _ _ λ db full.
                    one (writes_intents _ (inr (insert-bound db.pending_cancels _ full)) refl))))))
      (query-Moves _)

pub require-Writes : (scope job_id : String) → Moves writes (require scope job_id)
require-Writes = require-Moves writes

insert_event-Writes :
    (e : StoredExecutionAttemptEvent) (db : Database)
    → IsNext e db.execution_attempt_events
    → Writes db (insert_event e db).1
unfolding insert_event insert_unless
insert_event-Writes e db q =
    elim (Bool-cases
      (not (satisfies_checks e) || exists (collides e) db.execution_attempt_events)) [
        | inl hit ↦ rw hit here
        | inr miss ↦ rw miss (one (appends_event e (||-left _ _ miss) (||-right _ _ miss) q refl))
      ]

pub append-Writes :
    (js : Runtime) (scope : String) (input : AttemptEventInput)
    → Moves writes (append_execution_attempt_event js scope input)
append-Writes = append-Moves writes insert_event-Writes

pub current-Writes :
    (js : Runtime) (scope job_id : String) (type : ExecutionAttemptEventType)
    (reason : Option String) (now : ℕ)
    → Moves writes (append_current js scope job_id type reason now)
unfolding append_current
current-Writes js scope job_id type reason now =
    bind-Moves (require-Writes scope job_id) (λ job. append-Writes js scope _)

pub ruleset calls = (
  moves_rules, require-Writes, append-Writes, current-Writes, prune-Writes, consume-Writes,
  insert_session-Writes, delete_sessions-Writes,
)
