-- ===== src/Store/Sessions/Release.antt =====
-- src/state/store.ts: the manual release of a session, which retires its backend sessions and its
-- quarantine together, and answers with a receipt.
use Prim.Native.Char.{code}
use livis_chatgpt_bridge.Prelude.{
  ℕ, Bool, true, false, not, ◌&&◌, ◌||◌, List, [], String, ◌==◌, ltb, str_eq, holds, length,
  if◌then◌else◌,
}
use livis_chatgpt_bridge.Types.{StoredBackendSession, is_active, is_terminal}
use livis_chatgpt_bridge.Store.Schema.{Database, JobRow, is_session}
use livis_chatgpt_bridge.Store.Table.{exists, select_all, changes, delete}
use livis_chatgpt_bridge.Store.Monad.{
  M, ◌>>=◌, ◌>>◌, pure, throw, query, run, when, transaction, release_count_mismatch,
}
use livis_chatgpt_bridge.Store.Ledger.{is_null}
use livis_chatgpt_bridge.Store.Lists.{order_by, each}
use livis_chatgpt_bridge.Store.Sessions.Table.{both, is_backend_session, delete_sessions}
use livis_chatgpt_bridge.Store.Sessions.Attempt.{is_target, holds_number}

pub record SessionReleaseReceipt : Type 0 where
  pub released : Bool
  pub retired_backend_sessions : List String
  pub released_quarantine_without_backend_session : Bool

abbrev pub not_released : SessionReleaseReceipt
not_released = record {
  released = false;
  retired_backend_sessions = [];
  released_quarantine_without_backend_session = false;
}

-- `a` comes strictly after `b` in the order of SQLite, that of the code points.
unfoldable pub text_after : String → String → Bool
text_after String.[] b = false
text_after (String.◌∷◌ c a) String.[] = true
text_after (String.◌∷◌ c a) (String.◌∷◌ d b) =
    let rest = text_after a b in ltb (code d) (code c) || (code c == code d && rest)

-- The job of the session's attempt has ended.
abbrev pub is_ended_attempt : StoredBackendSession → JobRow → Bool
is_ended_attempt s r =
    str_eq r.scope_key s.scope_key
    && holds s.active_job_id r.job_id
    && str_eq r.session_key s.session_key
    && is_target s.backend r
    && both r.lease_id s.active_lease_id
    && holds_number s.active_run_generation r.run_generation
    && is_terminal r.status

abbrev pub has_ended : Database → StoredBackendSession → Bool
has_ended db s = exists (is_ended_attempt s) db.jobs

-- WHERE scope_key=? AND session_key=?
abbrev pub in_session : String → String → StoredBackendSession → Bool
in_session scope session s = str_eq s.scope_key scope && str_eq s.session_key session

module _ (scope : String) where
  -- DELETE FROM session_quarantine, with the number of deleted rows.
  unfoldable pub delete_quarantine : String → M ℕ
  delete_quarantine session =
      query (λ db. changes (is_session scope session) db.session_quarantine) >>= λ deleted. (do
        run λ db. record db {
          session_quarantine = delete (is_session scope session) db.session_quarantine;
        }
        pure deleted)

  unfoldable pub release_recovery_transaction : String → String → M Bool
  unfolding delete_quarantine
  release_recovery_transaction backend session = do
    released ← delete_sessions (λ db s.
        is_backend_session scope backend session s
        && (s.recovery_required && not (is_null s.active_job_id) && has_ended db s))
    if not (released == 1) then pure false else (do deleted ← delete_quarantine session; pure true)

  unfoldable pub release_backend_session_recovery : String → String → M Bool
  unfolding release_recovery_transaction
  release_backend_session_recovery backend session =
      transaction (release_recovery_transaction backend session)

  -- SELECT backend FROM backend_sessions WHERE … ORDER BY backend.
  unfoldable pub backends_of : (StoredBackendSession → Bool) → Database → List String
  unfolding text_after
  backends_of p db = order_by text_after (each (λ s. s.backend) (select_all p db.backend_sessions))

  abbrev pub is_recovering : String → StoredBackendSession → Bool
  is_recovering session s = in_session scope session s && s.recovery_required

  abbrev pub is_unsafe : StoredBackendSession → Bool
  is_unsafe s = not (is_null s.active_job_id) || s.recovery_required

  -- The release of a quarantined session that no attempt occupies.
  unfoldable pub release_idle : String → List String → M SessionReleaseReceipt
  unfolding delete_quarantine
  release_idle session existing = do
    isolated ← query λ db. exists (is_session scope session) db.session_quarantine
    unsafe ←
        query λ db. changes (λ s. in_session scope session s && is_unsafe s) db.backend_sessions
    if not isolated || not (unsafe == 0) then pure not_released else (do
      retired ← delete_sessions (λ db s.
          in_session scope session s && (is_null s.active_job_id && not s.recovery_required))
      when (not (retired == length existing)) (throw release_count_mismatch)
      deleted ← delete_quarantine session
      pure (record {
        released = deleted == 1;
        retired_backend_sessions = if deleted == 1 then existing else [];
        released_quarantine_without_backend_session = deleted == 1 && length existing == 0;
      }))

  -- The release of a session whose recovery is over; `total` counts its rows in recovery.
  unfoldable pub release_recovering : String → ℕ → M SessionReleaseReceipt
  unfolding backends_of delete_quarantine
  release_recovering session total = do
    occupied ← query λ db.
        changes
          (λ s.
            in_session scope session s
            && (not (is_null s.active_job_id) && not s.recovery_required))
          db.backend_sessions
    if not (occupied == 0) then pure not_released else (do
      recovered ← query (backends_of (is_recovering session))
      released ← delete_sessions (λ db. is_recovering session)
      when (not (released == total)) (throw release_count_mismatch)
      deleted ← delete_quarantine session
      pure (record {
        released = true;
        retired_backend_sessions = recovered;
        released_quarantine_without_backend_session = false;
      }))

  unfoldable pub receipt_transaction : String → M SessionReleaseReceipt
  unfolding backends_of release_idle release_recovering
  receipt_transaction session = do
    existing ← query (backends_of (in_session scope session))
    active_jobs ← query λ db.
        changes
          (λ r. str_eq r.scope_key scope && str_eq r.session_key session && is_active r.status)
          db.jobs
    if not (active_jobs == 0) then pure not_released else (do
      total ← query λ db. changes (is_recovering session) db.backend_sessions
      releasable ←
          query λ db. changes (λ s. is_recovering session s && has_ended db s) db.backend_sessions
      if total == 0
          then release_idle session existing
          else if not (releasable == total)
          then pure not_released
          else release_recovering session total)

  unfoldable pub release_session_recovery_with_receipt : String → M SessionReleaseReceipt
  unfolding receipt_transaction
  release_session_recovery_with_receipt session = transaction (receipt_transaction session)

  unfoldable pub release_session_recovery : String → M Bool
  unfolding release_session_recovery_with_receipt
  release_session_recovery session = do
    receipt ← release_session_recovery_with_receipt session
    pure receipt.released
