-- ===== src/Store/Steps/Refinement/Recovery.antt =====
-- The calls of src/state/store.ts on cancellation and recovery, as writes of the abstract store.
use livis_chatgpt_bridge.Prelude.{
  ℕ, ◌≡◌, refl, inl, inr, Bool, true, false, List, [], ◌∷◌, Option, String, arith, if◌then◌else◌,
  Bool-cases, none, some, Option-cases,
}
use livis_chatgpt_bridge.Types.{StoredBackendSession}
use livis_chatgpt_bridge.Store.Schema.{Database, JobRow, QuarantineRow, Runtime}
use livis_chatgpt_bridge.Store.Table.{exists, exists-append_left, insert_or_ignore}
use livis_chatgpt_bridge.Store.Monad.{M, run}
use livis_chatgpt_bridge.Store.Monad.Moves.{
  Moves, moves, run-Moves, throw-Moves, pure-Moves, query-Moves, bind-Moves, then-Moves, when-Moves,
  transaction-Moves,
}
use livis_chatgpt_bridge.Store.Sessions.Attempt.{flagged_session}
use livis_chatgpt_bridge.Store.Jobs
use livis_chatgpt_bridge.Store.Recovery
use livis_chatgpt_bridge.Store.Steps.{
  loses_cancel, settles, gives_up, interrupts, isolates, releases, recovers, flags,
}
use livis_chatgpt_bridge.Store.Steps.Refinement.{
  consume_all-Writes, trim-Writes, prune-Writes, writes, one, update_jobs-Writes,
  update_outbox-Writes, update_sessions-Writes, require-Writes, append-Writes, current-Writes,
  calls,
}

-- A flag that names no turn keeps the one that is there.
pub kept_turn :
    (now : ℕ) (s : StoredBackendSession)
    → record s { recovery_required = true; updated_at = now } ≡ flagged_session none now s
kept_turn now s = elim (Option-cases s.active_turn_id) [
  | inl e ↦ rw e refl
  | inr (a, e) ↦ rw e refl
]

exists-insert :
    (p same : QuarantineRow → Bool) (q : QuarantineRow) (rows : List QuarantineRow)
    → exists p rows ≡ true
    → exists p (insert_or_ignore same q rows) ≡ true
unfolding insert_or_ignore
exists-insert p same q rows h = elim (Bool-cases (exists same rows)) [
  | inl e ↦ rw e h
  | inr e ↦ rw e (exists-append_left p rows (q ∷ []) h)
]

quarantine_all-keeps :
    (reason : String) (now : ℕ) (p : JobRow → Bool) (jobs : List JobRow) (q : List QuarantineRow)
    (w : QuarantineRow → Bool)
    → exists w q ≡ true
    → exists w (Recovery.quarantine_all reason now p jobs q) ≡ true
unfolding Recovery.quarantine_all Recovery.quarantine
quarantine_all-keeps reason now p [] q w h = h
quarantine_all-keeps reason now p (j ∷ jobs) q w h =
    quarantine_all-keeps reason now p jobs _ w (one_row (p j))
  where
    one_row :
        (b : Bool)
        → exists w (if b then Recovery.quarantine j.scope_key j.session_key reason now q else q)
          ≡ true
    one_row true = exists-insert w _ _ q h
    one_row false = h

pub isolate-Writes :
    (reason : String) (now : ℕ) (p : Database → JobRow → Bool)
    → Moves writes (
        run λ db. record db {
          session_quarantine =
              Recovery.quarantine_all reason now (p db) db.jobs db.session_quarantine;
        })
isolate-Writes reason now p = run-Moves _ λ db.
    one (isolates _ (quarantine_all-keeps reason now (p db) db.jobs db.session_quarantine) refl)

pub for_each-Writes :
    {A : Type 0} (m : A → M (Unit {0})) (xs : List A)
    → ((x : A) → Moves writes (m x))
    → Moves writes (Recovery.for_each m xs)
unfolding Recovery.for_each
for_each-Writes m [] h = pure-Moves tt
for_each-Writes m (x ∷ xs) h = then-Moves (h x) (for_each-Writes m xs h)

module _ (js : Runtime) (scope : String) where
  pub lose_cancel-Writes :
      (job_id lease reason : String) (now : ℕ)
      → Moves writes (Recovery.mark_cancel_unknown js scope job_id lease reason now)
  unfolding Recovery.mark_cancel_unknown
  lose_cancel-Writes job_id lease reason now =
      then-Moves
        (transaction-Moves (
          bind-Moves
            (update_jobs-Writes _ _ (λ db r h. loses_cancel (some reason) now (ground arith) refl))
            (λ changed. when-Moves _ (
              then-Moves (current-Writes js scope job_id _ _ now)
                (isolate-Writes reason now (λ db. _))))))
        (require-Writes scope job_id)

  pub settle-Writes :
      (job_id lease : String) (now : ℕ)
      → Moves writes (Recovery.finish_hermes_cancellation_not_started js scope job_id lease now)
  unfolding Recovery.finish_hermes_cancellation_not_started Jobs.require_if
  settle-Writes job_id lease now =
      bind-Moves
        (transaction-Moves (
          bind-Moves (update_jobs-Writes _ _ (λ db r h. settles now (ground arith) refl))
            (λ changed. search calls)))
        (λ done. search calls)

  end_active-Writes :
      (p : JobRow → Bool) (cancel_error : Option String) (error : String) (now : ℕ)
      → Moves writes (Recovery.end_active js scope p cancel_error error now)
  unfolding Recovery.end_active
  end_active-Writes p cancel_error error now =
      bind-Moves (update_jobs-Writes _ _ (λ db r h. gives_up _ now (ground arith) refl)) λ _.
        bind-Moves (update_jobs-Writes _ _ (λ db r h. interrupts _ now (ground arith) refl))
          λ _. pure-Moves _

  pub disconnect-Writes :
      (connector : String) (now : ℕ)
      → Moves writes (Recovery.mark_connector_disconnected js scope connector now)
  unfolding Recovery.mark_connector_disconnected
  disconnect-Writes connector now = transaction-Moves (
      bind-Moves (query-Moves _) λ attempts. then-Moves (isolate-Writes _ now (λ db. _)) (
        bind-Moves (end_active-Writes _ _ _ now) λ ended.
          then-Moves (when-Moves _ (throw-Moves _)) (
            then-Moves (for_each-Writes _ attempts (λ a. append-Writes js scope _))
              (pure-Moves _))))

  recover_active-Writes : (now : ℕ) → Moves writes (Recovery.recover_active js scope now)
  unfolding Recovery.recover_active
  recover_active-Writes now = bind-Moves (query-Moves _) λ attempts.
      then-Moves (isolate-Writes _ now (λ db. _)) (
        bind-Moves (update_sessions-Writes _ _ _ (λ db s h t. flags none now (kept_turn now s)))
          (λ _. bind-Moves (end_active-Writes _ _ _ now) λ ended.
            then-Moves (when-Moves _ (throw-Moves _)) (
              then-Moves (for_each-Writes _ attempts (λ a. append-Writes js scope _))
                (pure-Moves _))))

  pub recover-Writes : (now : ℕ) → Moves writes (Recovery.recover_after_restart js scope now)
  unfolding Recovery.recover_after_restart
  recover-Writes now = transaction-Moves (
      then-Moves (prune-Writes now) (
        then-Moves (consume_all-Writes scope now) (
          then-Moves trim-Writes (
            bind-Moves (recover_active-Writes now) λ ended.
              bind-Moves (update_outbox-Writes _ _ (λ db o h. recovers now (ground arith) refl))
                λ _. pure-Moves _))))

  pub quarantine-Writes :
      (session reason : String) (now : ℕ)
      → Moves writes (Recovery.quarantine_session js scope session reason now)
  unfolding Recovery.quarantine_session Recovery.quarantine
  quarantine-Writes session reason now =
      moves λ db. one (isolates _ (λ p. exists-insert p _ _ db.session_quarantine) refl)

  pub release-Writes :
      (session : String) → Moves writes (Recovery.release_session_quarantine js scope session)
  unfolding Recovery.release_session_quarantine
  release-Writes session = moves λ db. one (releases scope session refl)
