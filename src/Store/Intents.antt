-- ===== src/Store/Intents.antt =====
-- src/state/store.ts: the table `pending_cancels` of cancels that arrived before their job, and
-- `requestCancel`.
use livis_chatgpt_bridge.Prelude.{
  ℕ, suc, ◌-◌, ◌*◌, Bool, true, ◌&&◌, List, [], ◌∷◌, ◌++◌, Option, some, String, ltb, leb, ◌==◌,
  length, if◌then◌else◌, str_eq,
}
use livis_chatgpt_bridge.Types.{
  cancelling, cancelled, is_waiting, is_executing, is_cancellable, StoredJob,
}
use livis_chatgpt_bridge.Store.Schema.{Database, JobRow, PendingCancelRow, is_job, is_intent}
use livis_chatgpt_bridge.Store.Table.{exists, update, changes, delete}
use livis_chatgpt_bridge.Store.Monad.{
  M, ok, ◌>>=◌, ◌>>◌, pure, query, run, update_jobs, transaction, insert_unless,
  pending_cancel_capacity,
}
use livis_chatgpt_bridge.Store.Reads.{get}

abbrev pub pending_cancel_ttl_ms : ℕ
pending_cancel_ttl_ms = 24 * 60 * 60 * 1000

abbrev pub pending_cancel_max_rows : ℕ
pending_cancel_max_rows = 4096

-- The SET clause that `requestCancel` and both `consume…PendingCancel…Locked` share.
unfoldable pub cancel_row : ℕ → JobRow → JobRow
cancel_row now r = record r {
  cancel_requested = true;
  status = if is_executing r.status then cancelling else cancelled;
  completed_at = if is_waiting r.status then some now else r.completed_at;
  updated_at = now;
}

-- DELETE … WHERE created_at < now - TTL. Times are not negative, so that `-` on ℕ agrees.
unfoldable pub prune_expired_pending_cancels : ℕ → M (Unit {0})
prune_expired_pending_cancels now = run λ db. record db {
  pending_cancels = delete (λ c. ltb c.created_at (now - pending_cancel_ttl_ms)) db.pending_cancels;
}

abbrev pub has_intent : Database → JobRow → Bool
has_intent db r = exists (is_intent r.scope_key r.job_id) db.pending_cancels

unfoldable pub consume_matched_pending_cancel : String → String → ℕ → M (Unit {0})
consume_matched_pending_cancel scope job_id now = do
  changed ←
      update_jobs (λ db r. is_job scope job_id r && (is_cancellable r.status && has_intent db r))
        (cancel_row now)
  run λ db. record db { pending_cancels = delete (is_intent scope job_id) db.pending_cancels }

unfoldable pub consume_all_matched_pending_cancels : String → ℕ → M (Unit {0})
consume_all_matched_pending_cancels scope now = do
  changed ←
      update_jobs (λ db r. str_eq r.scope_key scope && is_cancellable r.status && has_intent db r)
        (cancel_row now)
  run λ db. record db {
    pending_cancels =
        delete (λ c. str_eq c.scope_key scope && exists (is_job c.scope_key c.job_id) db.jobs)
          db.pending_cancels;
  }

-- ORDER BY created_at DESC, rowid DESC: the number of rows before this one. A row is a pair of its
-- rowid and its content.
unfoldable pub newer_than : ℕ → PendingCancelRow → ℕ → List PendingCancelRow → ℕ
newer_than i c j [] = 0
newer_than i c j (d ∷ rows) =
    let rest = newer_than i c (suc j) rows in
    if ltb c.created_at d.created_at
    then suc rest
    else if (c.created_at == d.created_at) && ltb i j
    then suc rest
    else rest

unfoldable pub keep_newest :
    ℕ → List PendingCancelRow → ℕ → List PendingCancelRow → List PendingCancelRow
unfolding newer_than
keep_newest limit all i [] = []
keep_newest limit all i (c ∷ rows) =
    let rest = keep_newest limit all (suc i) rows in
    if ltb (newer_than i c 0 all) limit then c ∷ rest else rest

-- LIMIT -1 OFFSET max: all rows but the newest `max` are deleted.
unfoldable pub trim_legacy_pending_cancel_overflow : M (Unit {0})
unfolding keep_newest
trim_legacy_pending_cancel_overflow = run λ db. record db {
  pending_cancels = keep_newest pending_cancel_max_rows db.pending_cancels 0 db.pending_cancels;
}

-- UPDATE pending_cancels SET created_at=now, with the number of changed rows.
unfoldable pub touch_intent : String → String → ℕ → M ℕ
touch_intent scope job_id now db =
    (ok (changes (is_intent scope job_id) db.pending_cancels), touched)
  where
    touched : Database
    touched = record db {
      pending_cancels =
          update (is_intent scope job_id) (λ c. record c { created_at = now }) db.pending_cancels;
    }

-- The count of all rows, and the INSERT unless the table is full.
unfoldable pub insert_intent : String → String → ℕ → M (Unit {0})
insert_intent scope job_id now =
    insert_unless pending_cancel_capacity
      (λ db. leb pending_cancel_max_rows (length db.pending_cancels))
      (λ db. record db {
        pending_cancels =
            db.pending_cancels
            ++ record { scope_key = scope; job_id = job_id; created_at = now } ∷ [];
      })

-- What `requestCancel` does for a job that does not exist.
unfoldable pub save_intent : String → String → ℕ → M (Unit {0})
unfolding touch_intent insert_intent
save_intent scope job_id now = do
  refreshed ← touch_intent scope job_id now
  if refreshed == 1 then pure tt else insert_intent scope job_id now

unfoldable pub delete_intent : String → String → M (Unit {0})
delete_intent scope job_id =
    run λ db. record db { pending_cancels = delete (is_intent scope job_id) db.pending_cancels }

unfoldable pub cancel_transaction : String → String → ℕ → M (Unit {0})
unfolding save_intent delete_intent
cancel_transaction scope job_id now = do
  prune_expired_pending_cancels now
  changed ← update_jobs (λ db r. is_job scope job_id r && is_cancellable r.status) (cancel_row now)
  existing ← query λ db. exists (is_job scope job_id) db.jobs
  if existing then delete_intent scope job_id else save_intent scope job_id now

unfoldable pub request_cancel : String → String → ℕ → M (Option StoredJob)
unfolding cancel_transaction
request_cancel scope job_id now = do
  transaction (cancel_transaction scope job_id now)
  query (get scope job_id)
