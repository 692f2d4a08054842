-- ===== src/Store/Sessions/Table.antt =====
-- src/state/store.ts: the table `backend_sessions` with its CHECK constraints, keys and triggers. A
-- statement that breaks one of them is refused with an error and changes nothing.
use livis_chatgpt_bridge.Prelude.{
  ℕ, Bool, true, false, not, ◌&&◌, ◌||◌, List, [], ◌∷◌, ◌++◌, Option, none, some, String, ◌==◌, ltb,
  str_eq, if◌then◌else◌,
}
use livis_chatgpt_bridge.Types.{
  StoredBackendSession, BackendSessionStateOwnership, account_bound, local_state_opaque,
  BackendAccountIdentityStrength, subject, type_only, BackendCheckpointTurnStatus, completed,
}
use livis_chatgpt_bridge.Store.Schema.{Database, is_job}
use livis_chatgpt_bridge.Store.Table.{exists, update, changes, delete}
use livis_chatgpt_bridge.Store.Monad.{M, ok, err, constraint_failed}
use livis_chatgpt_bridge.Store.Ledger.{is_null, within, within?, is_sha256?}

-- WHERE scope_key=? AND backend=? AND session_key=?
abbrev pub is_backend_session : String → String → String → StoredBackendSession → Bool
is_backend_session scope backend session r =
    str_eq r.scope_key scope && (str_eq r.backend backend && str_eq r.session_key session)

-- `a IS b` of two columns, where NULL IS NULL.
abbrev pub same {ℓ} : {A : Type ℓ} → (A → A → Bool) → Option A → Option A → Bool
same eq none none = true
same eq (some a) (some b) = eq a b
same eq _ _ = false

abbrev pub same_text : Option String → Option String → Bool
same_text a b = same str_eq a b

abbrev pub ownership_eq : BackendSessionStateOwnership → BackendSessionStateOwnership → Bool
ownership_eq account_bound account_bound = true
ownership_eq local_state_opaque local_state_opaque = true
ownership_eq _ _ = false

abbrev pub strength_eq : BackendAccountIdentityStrength → BackendAccountIdentityStrength → Bool
strength_eq subject subject = true
strength_eq type_only type_only = true
strength_eq _ _ = false

abbrev pub turn_status_eq : BackendCheckpointTurnStatus → BackendCheckpointTurnStatus → Bool
turn_status_eq completed completed = true
turn_status_eq BackendCheckpointTurnStatus.failed BackendCheckpointTurnStatus.failed = true
turn_status_eq BackendCheckpointTurnStatus.interrupted BackendCheckpointTurnStatus.interrupted =
    true
turn_status_eq _ _ = false

abbrev pub is_positive : Option ℕ → Bool
is_positive none = false
is_positive (some n) = ltb 0 n

-- The CHECK constraints on one column each.
unfoldable pub columns_fit : StoredBackendSession → Bool
unfolding is_sha256?
columns_fit r =
    within 32 r.backend
    && is_sha256? (some r.session_hash)
    && within? 256 r.thread_id
    && within 4096 r.cwd
    && within 64 r.cli_version
    && within? 256 r.active_turn_id
    && within? 64 r.account_type
    && is_sha256? r.account_subject_sha256
    && within? 256 r.requested_model
    && within? 256 r.effective_model
    && within? 128 r.model_provider
    && is_sha256? r.security_config_sha256
    && is_sha256? r.feature_snapshot_sha256
    && within? 256 r.checkpoint_turn_id
    && is_sha256? r.checkpoint_turns_sha256

-- The CHECK constraints between columns: on the thread and the active attempt.
unfoldable pub attempt_fits : StoredBackendSession → Bool
attempt_fits r =
    (not (is_null r.thread_id) || is_null r.active_job_id)
    && ((is_null r.active_job_id
          && is_null r.active_lease_id
          && is_null r.active_run_generation
          && is_null r.active_turn_id)
        || (not (is_null r.active_job_id)
            && not (is_null r.active_lease_id)
            && is_positive r.active_run_generation))
    && (not r.recovery_required || not (is_null r.active_job_id))

-- What the triggers refuse of an account, by the ownership of the state.
abbrev pub account_incomplete : StoredBackendSession → Option BackendSessionStateOwnership → Bool
account_incomplete r none = true
account_incomplete r (some account_bound) =
    is_null r.account_type
    || is_null r.account_identity_strength
    || (same strength_eq r.account_identity_strength (some subject)
        && is_null r.account_subject_sha256)
    || (same strength_eq r.account_identity_strength (some type_only)
        && not (is_null r.account_subject_sha256))
account_incomplete r (some local_state_opaque) =
    not (is_null r.account_type)
    || not (is_null r.account_subject_sha256)
    || not (is_null r.account_identity_strength)

-- What the triggers refuse of a checkpoint.
unfoldable pub checkpoint_misshaped : StoredBackendSession → Bool
checkpoint_misshaped r =
    is_null r.checkpoint_turn_count
    || is_null r.checkpoint_turns_sha256
    || is_null r.checkpointed_at
    || (same (λ a b. a == b) r.checkpoint_turn_count (some 0)
        && (not (is_null r.checkpoint_turn_id) || not (is_null r.checkpoint_turn_status)))
    || (is_positive r.checkpoint_turn_count
        && (is_null r.checkpoint_turn_id || is_null r.checkpoint_turn_status))

-- backend_sessions_v8_metadata_insert_required, and the second half of …_binding_complete.
unfoldable pub metadata_incomplete : StoredBackendSession → Bool
unfolding checkpoint_misshaped
metadata_incomplete r =
    is_null r.effective_model
    || is_null r.model_provider
    || is_null r.security_config_sha256
    || is_null r.feature_snapshot_sha256
    || account_incomplete r r.state_ownership
    || checkpoint_misshaped r

abbrev pub metadata_same : StoredBackendSession → StoredBackendSession → Bool
metadata_same old new =
    same ownership_eq new.state_ownership old.state_ownership
    && same_text new.account_type old.account_type
    && same_text new.account_subject_sha256 old.account_subject_sha256
    && same strength_eq new.account_identity_strength old.account_identity_strength
    && same_text new.requested_model old.requested_model
    && same_text new.effective_model old.effective_model
    && same_text new.model_provider old.model_provider
    && same_text new.security_config_sha256 old.security_config_sha256
    && same_text new.feature_snapshot_sha256 old.feature_snapshot_sha256

abbrev pub tail_same : StoredBackendSession → StoredBackendSession → Bool
tail_same old new =
    same_text new.checkpoint_turn_id old.checkpoint_turn_id
    && same turn_status_eq new.checkpoint_turn_status old.checkpoint_turn_status
    && same_text new.checkpoint_turns_sha256 old.checkpoint_turns_sha256

-- The count goes back, or is the same with another tail; a comparison with NULL does not hold.
abbrev pub goes_back : Option ℕ → Option ℕ → Bool → Bool
goes_back (some old) (some new) other_tail = ltb new old || (new == old && other_tail)
goes_back _ _ other_tail = false

-- The triggers on an UPDATE, by the columns that it names: they hold of a row that is refused.
abbrev pub Triggers : Type 0
Triggers = StoredBackendSession → StoredBackendSession → Bool

-- An UPDATE of the thread, the active attempt or the recovery flag names no column of a trigger.
abbrev pub no_triggers : Triggers
no_triggers old new = false

abbrev pub checkpoint_triggers : Triggers
checkpoint_triggers old new =
    (is_null old.state_ownership && metadata_incomplete new)
    || (not (is_null new.state_ownership) && checkpoint_misshaped new)
    || goes_back old.checkpoint_turn_count new.checkpoint_turn_count (not (tail_same old new))

abbrev pub metadata_triggers : Triggers
metadata_triggers old new =
    checkpoint_triggers old new
    || (not (is_null old.state_ownership) && not (metadata_same old new))

abbrev pub same_session : StoredBackendSession → StoredBackendSession → Bool
same_session a b = is_backend_session a.scope_key a.backend a.session_key b

-- Two columns that are equal and not NULL.
abbrev pub both : Option String → Option String → Bool
both (some a) (some b) = str_eq a b
both _ _ = false

-- The UNIQUE indexes beside the PRIMARY KEY.
unfoldable pub clashes : StoredBackendSession → StoredBackendSession → Bool
clashes a b =
    str_eq a.session_hash b.session_hash
    || str_eq a.cwd b.cwd
    || (str_eq a.backend b.backend && both a.thread_id b.thread_id)
    || (str_eq a.scope_key b.scope_key && both a.active_job_id b.active_job_id)

-- FOREIGN KEY(scope_key,active_job_id) REFERENCES jobs(scope_key,job_id)
abbrev pub references_job : Database → StoredBackendSession → Bool
references_job db r = elim r.active_job_id [
  | none ↦ true
  | some id ↦ exists (is_job r.scope_key id) db.jobs
]

unfoldable pub is_allowed : Database → StoredBackendSession → Bool
unfolding columns_fit attempt_fits
is_allowed db r = columns_fit r && attempt_fits r && references_job db r

-- Another row of the table has the values of `r` in the columns of a UNIQUE index.
unfoldable pub is_taken : List StoredBackendSession → StoredBackendSession → Bool
unfolding clashes
is_taken rows r = exists (λ s. not (same_session r s) && clashes r s) rows

-- UPDATE backend_sessions SET f WHERE p, with the number of changed rows.
unfoldable pub update_sessions :
    Triggers
    → (Database → StoredBackendSession → Bool)
    → (StoredBackendSession → StoredBackendSession)
    → M ℕ
unfolding is_allowed is_taken
update_sessions triggers p f db =
    let rows = update (p db) f db.backend_sessions in
    if exists
      (λ r. p db r && (triggers r (f r) || not (is_allowed db (f r)) || is_taken rows (f r)))
      db.backend_sessions
    then (err constraint_failed, db)
    else (ok (changes (p db) db.backend_sessions), record db { backend_sessions = rows })

-- INSERT INTO backend_sessions, with ON CONFLICT(scope_key,backend,session_key) DO NOTHING where
-- `or_nothing` is set.
unfoldable pub insert_session : Bool → StoredBackendSession → M ℕ
unfolding is_allowed is_taken metadata_incomplete
insert_session or_nothing r db =
    if not (is_allowed db r) || metadata_incomplete r
    then (err constraint_failed, db)
    else if exists (same_session r) db.backend_sessions
    then (if or_nothing then (ok 0, db) else (err constraint_failed, db))
    else if is_taken db.backend_sessions r
    then (err constraint_failed, db)
    else (ok 1, record db { backend_sessions = db.backend_sessions ++ r ∷ [] })

-- DELETE FROM backend_sessions WHERE p, with the number of deleted rows.
unfoldable pub delete_sessions : (Database → StoredBackendSession → Bool) → M ℕ
delete_sessions p db = (
  ok (changes (p db) db.backend_sessions),
  record db { backend_sessions = delete (p db) db.backend_sessions },
)
