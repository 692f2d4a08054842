-- ===== src/Store/Sessions/Bind.antt =====
-- src/state/store.ts: the rows of backend sessions, their creation, the binding of their metadata and
-- thread, and the checkpoint of the thread's tail.
use livis_chatgpt_bridge.Prelude.{
  ℕ, Bool, true, false, not, ◌&&◌, ◌||◌, Option, none, some, String, ◌==◌, ltb, str_eq,
  if◌then◌else◌,
}
use livis_chatgpt_bridge.Types.{StoredBackendSession, account_bound, local_state_opaque}
use livis_chatgpt_bridge.Store.Schema.{Database, Runtime, is_session}
use livis_chatgpt_bridge.Store.Table.{select, exists}
use livis_chatgpt_bridge.Store.Monad.{
  M, ◌>>=◌, ◌>>◌, pure, throw, query, when, transaction, backend_session_conflict,
  backend_session_missing,
}
use livis_chatgpt_bridge.Store.Ledger.{is_null}
use livis_chatgpt_bridge.Store.Sessions.Table.{
  is_backend_session, same, same_text, ownership_eq, strength_eq, turn_status_eq, no_triggers,
  checkpoint_triggers, metadata_triggers, update_sessions, insert_session,
}
use livis_chatgpt_bridge.Store.Sessions.Input.{
  Checkpoint, EnsureBackendSessionInput, CreateLocalOpaqueBackendSessionInput,
  BackendThreadTailFence, idle, active, CheckpointBackendThreadTailInput, is_ensure_input,
  is_local_opaque_input, is_checkpoint_input,
}

-- The row of the INSERT of `ensureBackendSession`: columns that it leaves out have their defaults.
abbrev pub ensured_row : String → EnsureBackendSessionInput → ℕ → StoredBackendSession
ensured_row scope i now = record {
  scope_key = scope;
  backend = i.backend;
  session_key = i.session_key;
  session_hash = i.session_hash;
  thread_id = none;
  cwd = i.cwd;
  cli_version = i.cli_version;
  state_ownership = some account_bound;
  account_type = some i.account_type;
  account_subject_sha256 = i.account_subject_sha256;
  account_identity_strength = some i.account_identity_strength;
  requested_model = i.requested_model;
  effective_model = some i.effective_model;
  model_provider = some i.model_provider;
  security_config_sha256 = some i.security_config_sha256;
  feature_snapshot_sha256 = some i.feature_snapshot_sha256;
  checkpoint_turn_id = i.checkpoint.turn_id;
  checkpoint_turn_status = i.checkpoint.turn_status;
  checkpoint_turn_count = some i.checkpoint.turn_count;
  checkpoint_turns_sha256 = some i.checkpoint.turns_sha256;
  checkpointed_at = some i.checkpoint.at;
  active_job_id = none;
  active_lease_id = none;
  active_run_generation = none;
  active_turn_id = none;
  recovery_required = false;
  created_at = now;
  updated_at = now;
}

-- The row of the INSERT of `createLocalOpaqueBackendSession`.
abbrev pub local_opaque_row :
    String → CreateLocalOpaqueBackendSessionInput → ℕ → StoredBackendSession
local_opaque_row scope i now = record {
  scope_key = scope;
  backend = i.backend;
  session_key = i.session_key;
  session_hash = i.session_hash;
  thread_id = some i.thread_id;
  cwd = i.cwd;
  cli_version = i.cli_version;
  state_ownership = some local_state_opaque;
  account_type = none;
  account_subject_sha256 = none;
  account_identity_strength = none;
  requested_model = i.requested_model;
  effective_model = some i.effective_model;
  model_provider = some i.model_provider;
  security_config_sha256 = some i.security_config_sha256;
  feature_snapshot_sha256 = some i.feature_snapshot_sha256;
  checkpoint_turn_id = i.checkpoint.turn_id;
  checkpoint_turn_status = i.checkpoint.turn_status;
  checkpoint_turn_count = some i.checkpoint.turn_count;
  checkpoint_turns_sha256 = some i.checkpoint.turns_sha256;
  checkpointed_at = some i.checkpoint.at;
  active_job_id = none;
  active_lease_id = none;
  active_run_generation = none;
  active_turn_id = none;
  recovery_required = false;
  created_at = now;
  updated_at = now;
}

-- The SET clause that binds the metadata of a row that schema 5 has left behind.
abbrev pub bound_row : EnsureBackendSessionInput → ℕ → StoredBackendSession → StoredBackendSession
bound_row i now r = record r {
  state_ownership = some account_bound;
  account_type = some i.account_type;
  account_subject_sha256 = i.account_subject_sha256;
  account_identity_strength = some i.account_identity_strength;
  requested_model = i.requested_model;
  effective_model = some i.effective_model;
  model_provider = some i.model_provider;
  security_config_sha256 = some i.security_config_sha256;
  feature_snapshot_sha256 = some i.feature_snapshot_sha256;
  checkpoint_turn_id = i.checkpoint.turn_id;
  checkpoint_turn_status = i.checkpoint.turn_status;
  checkpoint_turn_count = some i.checkpoint.turn_count;
  checkpoint_turns_sha256 = some i.checkpoint.turns_sha256;
  checkpointed_at = some i.checkpoint.at;
  updated_at = now;
}

-- The columns that the binding finds NULL.
abbrev pub is_unbound : StoredBackendSession → Bool
is_unbound r =
    is_null r.state_ownership
    && is_null r.account_type
    && is_null r.account_subject_sha256
    && is_null r.account_identity_strength
    && is_null r.requested_model
    && is_null r.effective_model
    && is_null r.model_provider
    && is_null r.security_config_sha256
    && is_null r.feature_snapshot_sha256
    && is_null r.checkpoint_turn_id
    && is_null r.checkpoint_turn_status
    && is_null r.checkpoint_turn_count
    && is_null r.checkpoint_turns_sha256
    && is_null r.checkpointed_at
    && is_null r.active_job_id
    && not r.recovery_required

-- The immutable columns of a row are those of the input.
abbrev pub matches_input : EnsureBackendSessionInput → StoredBackendSession → Bool
matches_input i r =
    str_eq r.session_hash i.session_hash
    && str_eq r.cwd i.cwd
    && str_eq r.cli_version i.cli_version
    && same ownership_eq r.state_ownership (some account_bound)
    && same_text r.account_type (some i.account_type)
    && same_text r.account_subject_sha256 i.account_subject_sha256
    && same strength_eq r.account_identity_strength (some i.account_identity_strength)
    && same_text r.requested_model i.requested_model
    && same_text r.effective_model (some i.effective_model)
    && same_text r.model_provider (some i.model_provider)
    && same_text r.security_config_sha256 (some i.security_config_sha256)
    && same_text r.feature_snapshot_sha256 (some i.feature_snapshot_sha256)

-- NOT EXISTS (SELECT 1 FROM session_quarantine …) of the row's session.
abbrev pub is_clear : Database → StoredBackendSession → Bool
is_clear db r = not (exists (is_session r.scope_key r.session_key) db.session_quarantine)

-- The SET clause of `checkpointBackendThreadTail`.
abbrev pub checkpointed_row : Checkpoint → ℕ → StoredBackendSession → StoredBackendSession
checkpointed_row c now r = record r {
  checkpoint_turn_id = c.turn_id;
  checkpoint_turn_status = c.turn_status;
  checkpoint_turn_count = some c.turn_count;
  checkpoint_turns_sha256 = some c.turns_sha256;
  checkpointed_at = some c.at;
  updated_at = now;
}

-- The active attempt of a row is that of the fence.
abbrev pub fence_holds : BackendThreadTailFence → StoredBackendSession → Bool
fence_holds idle r =
    is_null r.active_job_id
    && is_null r.active_lease_id
    && is_null r.active_run_generation
    && is_null r.active_turn_id
fence_holds (active job_id lease_id run_generation turn_id) r =
    same_text r.active_job_id (some job_id)
    && same_text r.active_lease_id (some lease_id)
    && same (λ a b. a == b) r.active_run_generation (some run_generation)
    && same_text r.active_turn_id (some turn_id)

-- The checkpoint of the input has the tail of the row.
abbrev pub is_same_tail : Checkpoint → StoredBackendSession → Bool
is_same_tail c r =
    same_text c.turn_id r.checkpoint_turn_id
    && same turn_status_eq c.turn_status r.checkpoint_turn_status
    && same_text (some c.turns_sha256) r.checkpoint_turns_sha256

abbrev pub throw_conflict {ℓ} : {A : Type ℓ} → M A
throw_conflict = throw backend_session_conflict

unfoldable pub found_session : Option StoredBackendSession → M StoredBackendSession
unfolding throw
found_session none = throw_conflict
found_session (some r) = pure r

module _ (js : Runtime) (scope : String) where
  unfoldable pub get_backend_session : String → String → Database → Option StoredBackendSession
  get_backend_session backend session db =
      select (is_backend_session scope backend session) db.backend_sessions

  -- The row that the transaction has written or found: it is there.
  unfoldable pub read_session : String → String → M StoredBackendSession
  unfolding found_session
  read_session backend session = query (get_backend_session backend session) >>= found_session

  -- The binding of a row without metadata, then the row as it is.
  unfoldable pub bind_metadata : EnsureBackendSessionInput → ℕ → M StoredBackendSession
  unfolding read_session
  bind_metadata i now = do
    bound ←
        update_sessions metadata_triggers
          (λ db r. is_backend_session scope i.backend i.session_key r && is_unbound r)
          (bound_row i now)
    when (not (bound == 1)) throw_conflict
    read_session i.backend i.session_key

  unfoldable pub ensure_transaction : EnsureBackendSessionInput → ℕ → M StoredBackendSession
  unfolding bind_metadata
  ensure_transaction i now = do
    inserted ← insert_session true (ensured_row scope i now)
    row ← read_session i.backend i.session_key
    bound ← if is_null row.state_ownership then bind_metadata i now else pure row
    if matches_input i bound then pure bound else throw_conflict

  unfoldable pub ensure_backend_session : EnsureBackendSessionInput → ℕ → M StoredBackendSession
  unfolding ensure_transaction
  ensure_backend_session i now = do
    when (not (is_ensure_input js i)) throw_conflict
    transaction (ensure_transaction i now)

  unfoldable pub create_transaction :
      CreateLocalOpaqueBackendSessionInput → ℕ → M StoredBackendSession
  unfolding read_session
  create_transaction i now = do
    isolated ← query λ db. exists (is_session scope i.session_key) db.session_quarantine
    when isolated throw_conflict
    inserted ← insert_session false (local_opaque_row scope i now)
    when (not (inserted == 1)) throw_conflict
    read_session i.backend i.session_key

  unfoldable pub create_local_opaque_backend_session :
      CreateLocalOpaqueBackendSessionInput → ℕ → M StoredBackendSession
  unfolding create_transaction
  create_local_opaque_backend_session i now = do
    when (not (is_local_opaque_input js i)) throw_conflict
    transaction (create_transaction i now)

  unfoldable pub bind_update : String → String → String → ℕ → M ℕ
  bind_update backend session thread now =
      update_sessions no_triggers
        (λ db r.
          is_backend_session scope backend session r
          && (is_null r.thread_id
              && not (is_null r.state_ownership)
              && not r.recovery_required
              && is_clear db r))
        (λ r. record r { thread_id = some thread; updated_at = now })

  unfoldable pub bind_current :
      String → String → String → ℕ → Option StoredBackendSession → M StoredBackendSession
  unfolding bind_update read_session
  bind_current backend session thread now none = throw backend_session_missing
  bind_current backend session thread now (some current) =
      if is_null current.state_ownership
      then throw_conflict
      else if same_text current.thread_id (some thread)
      then pure current
      else if not (is_null current.thread_id)
      then throw_conflict
      else (do
        bound ← bind_update backend session thread now
        when (not (bound == 1)) throw_conflict
        read_session backend session)

  unfoldable pub bind_backend_thread : String → String → String → ℕ → M StoredBackendSession
  unfolding bind_current
  bind_backend_thread backend session thread now =
      transaction
        (query (get_backend_session backend session) >>= bind_current backend session thread now)

  -- The UPDATE of the checkpoint: its WHERE clause compares the row with the one that was read.
  unfoldable pub checkpoint_update :
      CheckpointBackendThreadTailInput → StoredBackendSession → ℕ → M ℕ
  checkpoint_update i current now =
      update_sessions checkpoint_triggers
        (λ db r.
          is_backend_session scope i.backend i.session_key r
          && (same_text r.thread_id (some i.thread_id)
              && not (is_null r.state_ownership)
              && not r.recovery_required
              && not (is_null r.checkpoint_turn_count)
              && same (λ a b. a == b) r.checkpoint_turn_count current.checkpoint_turn_count
              && same_text r.checkpoint_turn_id current.checkpoint_turn_id
              && same turn_status_eq r.checkpoint_turn_status current.checkpoint_turn_status
              && not (is_null r.checkpoint_turns_sha256)
              && same_text r.checkpoint_turns_sha256 current.checkpoint_turns_sha256
              && fence_holds i.fence r
              && is_clear db r))
        (checkpointed_row i.checkpoint now)

  -- The row that was read, with its turn count.
  unfoldable pub advance :
      CheckpointBackendThreadTailInput → StoredBackendSession → ℕ → ℕ → M StoredBackendSession
  unfolding checkpoint_update read_session
  advance i current count now =
      if ltb i.checkpoint.turn_count count
      then throw_conflict
      else if i.checkpoint.turn_count == count
      then (if is_same_tail i.checkpoint current then pure current else throw_conflict)
      else (do
        updated ← checkpoint_update i current now
        when (not (updated == 1)) throw_conflict
        read_session i.backend i.session_key)

  -- The tests on the row that was read, before its turn count.
  abbrev pub is_checkpointable :
      CheckpointBackendThreadTailInput → StoredBackendSession → Bool → Bool
  is_checkpointable i current isolated =
      same_text current.thread_id (some i.thread_id)
      && not (is_null current.state_ownership)
      && not (current.recovery_required || isolated)
      && fence_holds i.fence current
      && not (is_null current.checkpoint_turns_sha256)
      && not (is_null current.checkpointed_at)

  unfoldable pub advance_from :
      CheckpointBackendThreadTailInput
      → StoredBackendSession
      → ℕ
      → Option ℕ
      → M StoredBackendSession
  unfolding advance
  advance_from i current now none = throw_conflict
  advance_from i current now (some count) = advance i current count now

  unfoldable pub checkpoint_transaction :
      CheckpointBackendThreadTailInput → ℕ → M StoredBackendSession
  unfolding advance_from
  checkpoint_transaction i now = do
    current ← read_session i.backend i.session_key
    isolated ← query λ db. exists (is_session scope i.session_key) db.session_quarantine
    when (not (is_checkpointable i current isolated)) throw_conflict
    advance_from i current now current.checkpoint_turn_count

  unfoldable pub checkpoint_backend_thread_tail :
      CheckpointBackendThreadTailInput → ℕ → M StoredBackendSession
  unfolding checkpoint_transaction
  checkpoint_backend_thread_tail i now = do
    when (not (is_checkpoint_input js i)) throw_conflict
    transaction (checkpoint_transaction i now)
