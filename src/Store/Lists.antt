-- ===== src/Store/Lists.antt =====
-- src/state/store.ts: the queries that the daemon and the relay client poll, and those of the status
-- page. Rows with equal sort keys, whose order SQLite leaves open, come in rowid order.
use livis_chatgpt_bridge.Prelude.{
  ℕ, suc, min, Bool, not, ◌&&◌, ◌||◌, List, [], ◌∷◌, ◌++◌, Option, none, some, String, str_eq,
  if◌then◌else◌, ltb, ◌==◌, length, take,
}
use livis_chatgpt_bridge.Types.{
  ExecutionBackendKind, hermes, codex, claude, backend_name, StoredJob, StoredOutbox,
  StoredExecutionAttemptEvent, is_waiting, is_active, is_pending, is_ack_failed,
}
use livis_chatgpt_bridge.Store.Schema.{
  Database, JobRow, OutboxRow, QuarantineRow, is_outbox, is_session, row_to_job,
}
use livis_chatgpt_bridge.Store.Table.{select, select_all}
use livis_chatgpt_bridge.Store.Jobs.{is_free}
use livis_chatgpt_bridge.Store.Outbox.{is_retryable}

module _ {ℓ} {A : Type ℓ} (later : A → A → Bool) where
  unfoldable pub place : A → List A → List A
  place r [] = r ∷ []
  place r (s ∷ rows) = let rest = place r rows in if later r s then s ∷ rest else r ∷ s ∷ rows

  -- ORDER BY: `later r s` says that the key of `s` comes strictly before that of `r`.
  unfoldable pub order_by : List A → List A
  unfolding place
  order_by [] = []
  order_by (r ∷ rows) = place r (order_by rows)

unfoldable pub each {ℓ κ} : {A : Type ℓ} {B : Type κ} → (A → B) → List A → List B
each f [] = []
each f (r ∷ rows) = f r ∷ each f rows

-- `flatMap((job) => (job.outbox ? [job.outbox] : []))`.
unfoldable pub present {ℓ} : {A : Type ℓ} → List (Option A) → List A
present [] = []
present (none ∷ rows) = present rows
present (some r ∷ rows) = r ∷ present rows

abbrev pub is_backend : ExecutionBackendKind → ExecutionBackendKind → Bool
is_backend b c = str_eq (backend_name b) (backend_name c)

-- A row of `jobs` with its row of `outbox`, as the JOIN of the queries on the outbox gives them.
pub record Delivery : Type 0 where
  pub job : JobRow
  pub result : OutboxRow

unfoldable pub with_result : JobRow → Option OutboxRow → List Delivery → List Delivery
with_result j none rest = rest
with_result j (some o) rest = record { job = j; result = o } ∷ rest

unfoldable pub join : List OutboxRow → List JobRow → List Delivery
unfolding with_result
join outbox [] = []
join outbox (j ∷ jobs) =
    with_result j (select (is_outbox j.scope_key j.job_id) outbox) (join outbox jobs)

-- The key by which `listPendingOutbox` sorts; a NULL comes first.
unfoldable pub due_at : OutboxRow → ℕ
due_at o =
    if is_pending o.status then o.updated_at else (elim o.next_attempt_at [ none ↦ 0 | some t ↦ t ])

unfoldable pub min_time : Option ℕ → Option ℕ → Option ℕ
min_time none t = t
min_time (some s) none = some s
min_time (some s) (some t) = some (min s t)

unfoldable pub min_attempt : List Delivery → Option ℕ
unfolding min_time
min_attempt [] = none
min_attempt (d ∷ rest) = min_time d.result.next_attempt_at (min_attempt rest)

pub record BackendBacklogCount : Type 0 where
  pub backend : ExecutionBackendKind
  pub count : ℕ
  pub oldest_created_at : ℕ

unfoldable pub oldest : ℕ → List JobRow → ℕ
oldest t [] = t
oldest t (r ∷ rows) = oldest (min t r.created_at) rows

-- One group of `listBackendBacklog`; an empty group gives no row.
unfoldable pub backlog_of : ExecutionBackendKind → List JobRow → List BackendBacklogCount
unfolding oldest
backlog_of b [] = []
backlog_of b (r ∷ rows) =
    record { backend = b; count = suc (length rows); oldest_created_at = oldest r.created_at rows }
    ∷ []

abbrev pub is_unfinished : JobRow → Bool
is_unfinished r = is_waiting r.status || is_active r.status

-- run_generation, sequence.
abbrev pub event_later : StoredExecutionAttemptEvent → StoredExecutionAttemptEvent → Bool
event_later a b =
    ltb b.run_generation a.run_generation
    || (a.run_generation == b.run_generation && ltb b.sequence a.sequence)

unfoldable pub first {ℓ} : {A : Type ℓ} → List A → Option A
first [] = none
first (r ∷ rows) = some r

module _ (scope : String) where
  unfoldable pub joined_job : Database → JobRow → StoredJob
  joined_job db r = row_to_job r (select (is_outbox r.scope_key r.job_id) db.outbox)

  abbrev pub can_dispatch : ExecutionBackendKind → Database → JobRow → Bool
  can_dispatch target db j =
      str_eq j.scope_key scope
      && (is_backend j.target_backend target
          && is_waiting j.status
          && not j.cancel_requested
          && is_free db j)

  unfoldable pub dispatchable_rows : ExecutionBackendKind → ℕ → Database → List JobRow
  unfolding order_by
  dispatchable_rows target limit db = take limit (
      order_by (λ a b. ltb b.created_at a.created_at) (select_all (can_dispatch target db) db.jobs))

  unfoldable pub list_dispatchable : ExecutionBackendKind → ℕ → Database → List StoredJob
  unfolding dispatchable_rows each joined_job
  list_dispatchable target limit db = each (joined_job db) (dispatchable_rows target limit db)

  abbrev pub is_deliverable : ℕ → Delivery → Bool
  is_deliverable now d =
      str_eq d.job.scope_key scope && (not d.job.cancel_requested && is_retryable now d.result)

  unfoldable pub pending_rows : ℕ → ℕ → Database → List Delivery
  unfolding order_by join due_at
  pending_rows limit now db = take limit (
      order_by (λ a b. ltb (due_at b.result) (due_at a.result))
        (select_all (is_deliverable now) (join db.outbox db.jobs)))

  unfoldable pub list_pending_outbox : ℕ → ℕ → Database → List StoredOutbox
  unfolding pending_rows each present
  list_pending_outbox limit now db =
      present (each (λ d. (row_to_job d.job (some d.result)).outbox) (pending_rows limit now db))

  unfoldable pub next_outbox_attempt_at : Database → Option ℕ
  unfolding min_attempt join
  next_outbox_attempt_at db = min_attempt (
      select_all
        (λ d.
          str_eq d.result.scope_key scope
          && is_ack_failed d.result.status
          && not d.job.cancel_requested)
        (join db.outbox db.jobs))

  unfoldable pub list_recent : ℕ → Database → List StoredJob
  unfolding order_by each joined_job
  list_recent limit db = each (joined_job db) (
      take limit (
        order_by (λ a b. ltb a.updated_at b.updated_at)
          (select_all (λ r. str_eq r.scope_key scope) db.jobs)))

  unfoldable pub group : ExecutionBackendKind → Database → List BackendBacklogCount
  unfolding backlog_of
  group b db = backlog_of b (
      select_all (λ r. str_eq r.scope_key scope && is_unfinished r && is_backend r.target_backend b)
        db.jobs)

  -- The groups in the order of their names.
  unfoldable pub list_backend_backlog : Database → List BackendBacklogCount
  unfolding group
  list_backend_backlog db = group claude db ++ group codex db ++ group hermes db

  -- The events of a job, the latest first.
  unfoldable pub recent_events : String → Database → List StoredExecutionAttemptEvent
  unfolding order_by
  recent_events job_id db =
      order_by (λ a b. event_later b a)
        (select_all (λ e. str_eq e.scope_key scope && str_eq e.job_id job_id)
          db.execution_attempt_events)

  unfoldable pub list_execution_attempt_events :
      String → ℕ → Database → List StoredExecutionAttemptEvent
  unfolding recent_events order_by
  list_execution_attempt_events job_id limit db =
      order_by event_later (take limit (recent_events job_id db))

  unfoldable pub latest_execution_attempt_event :
      String → Database → Option StoredExecutionAttemptEvent
  unfolding recent_events first
  latest_execution_attempt_event job_id db = first (recent_events job_id db)

  unfoldable pub list_quarantined_sessions : Database → List QuarantineRow
  unfolding order_by
  list_quarantined_sessions db =
      order_by (λ a b. ltb b.created_at a.created_at)
        (select_all (λ q. str_eq q.scope_key scope) db.session_quarantine)

  unfoldable pub get_session_quarantine : String → Database → Option QuarantineRow
  get_session_quarantine session_key db =
      select (is_session scope session_key) db.session_quarantine
