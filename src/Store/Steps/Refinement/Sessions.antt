-- ===== src/Store/Steps/Refinement/Sessions.antt =====
-- The calls of src/state/store.ts that bind, checkpoint and release backend sessions, as writes of the
-- abstract store.
use livis_chatgpt_bridge.Prelude.{
  ℕ, ◌≡◌, refl, Bool, true, false, ◌||◌, List, Option, none, some, String, arith,
}
use livis_chatgpt_bridge.Types.{StoredBackendSession}
use livis_chatgpt_bridge.Store.Schema.{Runtime}
use livis_chatgpt_bridge.Store.Monad.Moves.{
  Moves, run-Moves, throw-Moves, pure-Moves, query-Moves, bind-Moves, then-Moves, when-Moves,
  if-Moves, transaction-Moves,
}
use livis_chatgpt_bridge.Store.Sessions.Input
use livis_chatgpt_bridge.Store.Sessions.Bind
use livis_chatgpt_bridge.Store.Sessions.Release
use livis_chatgpt_bridge.Store.Steps.{releases, binds_metadata, binds_thread, checkpoints}
use livis_chatgpt_bridge.Store.Steps.Refinement.{
  writes, one, update_sessions-Writes, insert_session-Writes, delete_sessions-Writes, calls,
}

found_session-Writes : (r : Option StoredBackendSession) → Moves writes (Bind.found_session r)
unfolding Bind.found_session
found_session-Writes none = throw-Moves _
found_session-Writes (some r) = pure-Moves r

module _ (js : Runtime) (scope : String) where
  read-Writes :
      (backend session : String) → Moves writes (Bind.read_session js scope backend session)
  unfolding Bind.read_session
  read-Writes backend session = bind-Moves (query-Moves _) found_session-Writes

  bind_metadata-Writes :
      (i : Input.EnsureBackendSessionInput) (now : ℕ)
      → Moves writes (Bind.bind_metadata js scope i now)
  unfolding Bind.bind_metadata
  bind_metadata-Writes i now =
      bind-Moves
        (update_sessions-Writes _ _ _
          (λ db r h t. binds_metadata i now (ground arith) (ground arith) (ground arith) refl))
        (λ bound. search (calls, read-Writes))

  pub ensure-Writes :
      (i : Input.EnsureBackendSessionInput) (now : ℕ)
      → Moves writes (Bind.ensure_backend_session js scope i now)
  unfolding Bind.ensure_backend_session
  ensure-Writes i now = then-Moves (when-Moves _ (throw-Moves _)) (
      transaction-Moves (
        bind-Moves (insert_session-Writes _ _) λ _. bind-Moves (read-Writes _ _) λ row.
          bind-Moves (if-Moves _ (bind_metadata-Writes i now) (pure-Moves row))
            λ bound. if-Moves _ (pure-Moves bound) (throw-Moves _)))

  pub create-Writes :
      (i : Input.CreateLocalOpaqueBackendSessionInput) (now : ℕ)
      → Moves writes (Bind.create_local_opaque_backend_session js scope i now)
  unfolding Bind.create_local_opaque_backend_session
  create-Writes i now = then-Moves (when-Moves _ (throw-Moves _)) (
      transaction-Moves (
        bind-Moves (query-Moves _) λ isolated. then-Moves (when-Moves _ (throw-Moves _)) (
          bind-Moves (insert_session-Writes _ _)
            λ inserted. then-Moves (when-Moves _ (throw-Moves _)) (read-Writes _ _))))

  bind_update-Writes :
      (backend session thread : String) (now : ℕ)
      → Moves writes (Bind.bind_update js scope backend session thread now)
  unfolding Bind.bind_update
  bind_update-Writes backend session thread now =
      update_sessions-Writes _ _ _
        (λ db r h t. binds_thread thread now (ground arith) (ground arith) refl)

  bind_current-Writes :
      (backend session thread : String) (now : ℕ) (current : Option StoredBackendSession)
      → Moves writes (Bind.bind_current js scope backend session thread now current)
  unfolding Bind.bind_current
  bind_current-Writes backend session thread now none = throw-Moves _
  bind_current-Writes backend session thread now (some current) =
      search (calls, bind_update-Writes, read-Writes) depth 12

  pub bind-Writes :
      (backend session thread : String) (now : ℕ)
      → Moves writes (Bind.bind_backend_thread js scope backend session thread now)
  unfolding Bind.bind_backend_thread
  bind-Writes backend session thread now =
      transaction-Moves
        (bind-Moves (query-Moves _) (bind_current-Writes backend session thread now))

  checkpoint_update-Writes :
      (i : Input.CheckpointBackendThreadTailInput) (current : StoredBackendSession) (now : ℕ)
      → Moves writes (Bind.checkpoint_update js scope i current now)
  unfolding Bind.checkpoint_update
  checkpoint_update-Writes i current now =
      update_sessions-Writes _ _ _
        (λ db r h t. checkpoints i.checkpoint now (ground arith) (ground arith) (last _ _ t) refl)
    where
      last : (a b : Bool) → (a || b) ≡ false → b ≡ false
      last a b h = ground arith

  advance-Writes :
      (i : Input.CheckpointBackendThreadTailInput) (current : StoredBackendSession) (now : ℕ)
      (count : Option ℕ)
      → Moves writes (Bind.advance_from js scope i current now count)
  unfolding Bind.advance_from
  advance-Writes i current now none = throw-Moves _
  advance-Writes i current now (some count) =
      search (calls, checkpoint_update-Writes, read-Writes) depth 12

  pub checkpoint-Writes :
      (i : Input.CheckpointBackendThreadTailInput) (now : ℕ)
      → Moves writes (Bind.checkpoint_backend_thread_tail js scope i now)
  unfolding Bind.checkpoint_backend_thread_tail
  checkpoint-Writes i now = then-Moves (when-Moves _ (throw-Moves _)) (
      transaction-Moves (
        bind-Moves (read-Writes _ _) λ current.
          bind-Moves (query-Moves _)
            λ isolated. then-Moves (when-Moves _ (throw-Moves _)) (advance-Writes i current now _)))

module _ (scope : String) where
  delete_quarantine-Writes :
      (session : String) → Moves writes (Release.delete_quarantine scope session)
  unfolding Release.delete_quarantine
  delete_quarantine-Writes session = bind-Moves (query-Moves _) λ deleted.
      then-Moves (run-Moves _ (λ db. one (releases scope session refl))) (pure-Moves deleted)

  pub release_recovery-Writes :
      (backend session : String)
      → Moves writes (Release.release_backend_session_recovery scope backend session)
  unfolding Release.release_backend_session_recovery
  release_recovery-Writes backend session = transaction-Moves (
      bind-Moves (delete_sessions-Writes _) λ released.
        if-Moves _ (pure-Moves false)
          (bind-Moves (delete_quarantine-Writes session) (λ _. pure-Moves true)))

  release_idle-Writes :
      (session : String) (existing : List String)
      → Moves writes (Release.release_idle scope session existing)
  unfolding Release.release_idle
  release_idle-Writes session existing = bind-Moves (query-Moves _) λ isolated.
      bind-Moves (query-Moves _) λ unsafe. if-Moves _ (pure-Moves _) (
        bind-Moves (delete_sessions-Writes _) λ retired.
          then-Moves (when-Moves _ (throw-Moves _))
            (bind-Moves (delete_quarantine-Writes session) (λ deleted. pure-Moves _)))

  release_recovering-Writes :
      (session : String) (total : ℕ) → Moves writes (Release.release_recovering scope session total)
  unfolding Release.release_recovering
  release_recovering-Writes session total = bind-Moves (query-Moves _) λ occupied.
      if-Moves _ (pure-Moves _) (
        bind-Moves (query-Moves _) λ recovered. bind-Moves (delete_sessions-Writes _) λ released.
          then-Moves (when-Moves _ (throw-Moves _))
            (bind-Moves (delete_quarantine-Writes session) (λ deleted. pure-Moves _)))

  pub receipt-Writes :
      (session : String)
      → Moves writes (Release.release_session_recovery_with_receipt scope session)
  unfolding Release.release_session_recovery_with_receipt
  receipt-Writes session = transaction-Moves (
      bind-Moves (query-Moves _) λ existing. bind-Moves (query-Moves _) λ active_jobs.
        if-Moves _ (pure-Moves _) (
          bind-Moves (query-Moves _) λ total. bind-Moves (query-Moves _) λ releasable.
            if-Moves _ (release_idle-Writes session existing)
              (if-Moves _ (pure-Moves _) (release_recovering-Writes session total))))
