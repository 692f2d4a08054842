-- ===== src/Store/EarlyCancel.antt =====
-- A cancel that arrives before its job: `requestCancel` followed by `ingest` of
-- src/state/store.ts.
use livis_chatgpt_bridge.Prelude.{
  ℕ, ◌+◌, ◌-◌, ◌≤◌, ◌≡◌, refl, ap, ◌∙◌, Bool, true, false, not, ◌&&◌, List, [], ◌∷◌, ◌++◌, some,
  String, arith, str_eq_refl, ltb,
}
use livis_chatgpt_bridge.Types.{ExecutionBackendKind, IncomingRelayJob, is_cancellable, JobStatus}
use livis_chatgpt_bridge.Store.Schema.{
  Database, JobRow, PendingCancelRow, Runtime, is_job, is_intent, is_outbox, row_to_job,
  business_payload_hash,
}
use livis_chatgpt_bridge.Store.Table.{
  select, exists, update, delete, insert_or_ignore, exists-select, select-append, select-update_hit,
}
use livis_chatgpt_bridge.Store.Monad.{ok, ◌>>=◌, ◌>>◌, pure, query, run, update_jobs, transaction}
use livis_chatgpt_bridge.Store.Reads.{get, require, view, found}
use livis_chatgpt_bridge.Store.Intents.{
  pending_cancel_ttl_ms, cancel_row, has_intent, prune_expired_pending_cancels,
  consume_matched_pending_cancel,
}
use livis_chatgpt_bridge.Store.Jobs.{ingest, new_row, insert_job, check_payload}

-- The rows of `pending_cancels` that a call at the time `now` does not prune.
abbrev pub unexpired : ℕ → List PendingCancelRow → List PendingCancelRow
unexpired now = delete (λ c. ltb c.created_at (now - pending_cancel_ttl_ms))

insert-new :
    (same : JobRow → Bool) (y : JobRow) (xs : List JobRow)
    → exists same xs ≡ false
    → insert_or_ignore same y xs ≡ xs ++ y ∷ []
unfolding insert_or_ignore
insert-new same y xs h = rw h

select-insert :
    (key : JobRow → Bool) (y : JobRow) (xs : List JobRow)
    → exists key xs ≡ false
    → key y ≡ true
    → select key (insert_or_ignore key y xs) ≡ some y
select-insert key y xs h t =
    ap (select key) (insert-new key y xs h)
    ∙ select-append key xs y
    ∙ rw (exists-select key xs h, t)

-- A job that was cancelled, at the time `now`, before it was executed.
abbrev pub cancelled_row : ℕ → JobRow → JobRow
cancelled_row now r = record r {
  cancel_requested = true;
  status = JobStatus.cancelled;
  completed_at = some now;
  updated_at = now;
}

module _ (js : Runtime) (scope session : String) (target : ExecutionBackendKind)
    (input : IncomingRelayJob) (now : ℕ) (db : Database) where
  abbrev pub hash : String
  hash = business_payload_hash js input

  abbrev pub row : JobRow
  row = new_row scope input hash session target now

  abbrev pub inserted : Database
  inserted = record db {
    pending_cancels = unexpired now db.pending_cancels;
    jobs = insert_or_ignore (is_job scope input.job_id) row db.jobs;
  }

  abbrev pub consumed : Database
  consumed = record inserted {
    jobs =
        update
          (λ r. is_job scope input.job_id r && (is_cancellable r.status && has_intent inserted r))
          (cancel_row now) inserted.jobs;
    pending_cancels = delete (is_intent scope input.job_id) inserted.pending_cancels;
  }

  key_self : is_job scope input.job_id row ≡ true
  key_self = rw (str_eq_refl scope, str_eq_refl input.job_id)

  consumed_row :
      exists (is_job scope input.job_id) db.jobs ≡ false
      → exists (is_intent scope input.job_id) (unexpired now db.pending_cancels) ≡ true
      → select (is_job scope input.job_id) consumed.jobs ≡ some (cancel_row now row)
  unfolding cancel_row
  consumed_row absent waiting =
      select-update_hit (is_job scope input.job_id)
        (λ r. is_cancellable r.status && has_intent inserted r) (cancel_row now) _ row (λ x. refl)
        (select-insert (is_job scope input.job_id) row db.jobs absent key_self) waiting

  ingest-effect :
      ingest js scope input session target now db
      ≡ (found (view consumed (select (is_job scope input.job_id) consumed.jobs))
            >>= check_payload js scope hash (not (exists (is_job scope input.job_id) db.jobs)))
          consumed
  unfolding ingest transaction ◌>>=◌ ◌>>◌ prune_expired_pending_cancels insert_job
      consume_matched_pending_cancel run pure update_jobs require get query
  ingest-effect = refl

  intent_gone :
      (rows : List PendingCancelRow)
      → exists (is_intent scope input.job_id) (delete (is_intent scope input.job_id) rows) ≡ false
  unfolding exists delete
  intent_gone [] = refl
  intent_gone (c ∷ rows) = ground (arith, intent_gone rows)

  checked :
      exists (is_job scope input.job_id) db.jobs ≡ false
      → exists (is_intent scope input.job_id) (unexpired now db.pending_cancels) ≡ true
      → ingest js scope input session target now db ≡ (
        ok (
          true,
          row_to_job (cancel_row now row) (select (is_outbox scope input.job_id) db.outbox),
        ),
        consumed,
      )
  unfolding ◌>>=◌ found view check_payload pure cancel_row
  checked absent waiting =
      ingest-effect ∙ rw (consumed_row absent waiting, absent) (ground (arith, str_eq_refl hash))

  -- A job that was not held, of which a cancel is waiting that has not expired, is inserted and is
  -- `Cancelled` at once, with its cancel flag set and its completion time that of the call; the
  -- waiting cancel is used up.
  pub ingest_cancelled :
      exists (is_job scope input.job_id) db.jobs ≡ false
      → exists (is_intent scope input.job_id) (unexpired now db.pending_cancels) ≡ true
      → let (outcome, d) = ingest js scope input session target now db in
        (outcome
          ≡ ok (
            true,
            row_to_job (cancelled_row now row) (select (is_outbox scope input.job_id) db.outbox),
          ))
        × (select (is_job scope input.job_id) d.jobs ≡ some (cancelled_row now row))
        × (exists (is_intent scope input.job_id) d.pending_cancels ≡ false)
  unfolding cancel_row
  ingest_cancelled absent waiting =
      rw (checked absent waiting) (refl, consumed_row absent waiting, intent_gone _)

module _ (scope job_id : String) (before now : ℕ) (db : Database)
    (absent : exists (is_job scope job_id) db.jobs ≡ false)
    (soon : now ≤ before + pending_cancel_ttl_ms) where
  abbrev pub pruned : List PendingCancelRow
  pruned = unexpired before db.pending_cancels

  abbrev pub jobs_after : List JobRow
  jobs_after =
      update (λ r. is_job scope job_id r && is_cancellable r.status) (cancel_row before) db.jobs

  abbrev pub saving : Database
  saving = record db { pending_cancels = pruned; jobs = jobs_after }

  touched : List PendingCancelRow
  touched = update (is_intent scope job_id) (λ c. record c { created_at = before }) pruned
