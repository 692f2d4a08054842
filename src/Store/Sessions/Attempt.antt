-- ===== src/Store/Sessions/Attempt.antt =====
-- src/state/store.ts: the WHERE and SET clauses on the active attempt of a backend session, which
-- the calls on the jobs of such a backend share.
use livis_chatgpt_bridge.Prelude.{
  ℕ, Bool, true, false, not, ◌&&◌, ◌||◌, Option, none, some, String, ◌==◌, str_eq, holds,
}
use livis_chatgpt_bridge.Types.{StoredBackendSession, ExecutionAttemptEventType, backend_name}
use livis_chatgpt_bridge.Store.Schema.{Database, JobRow}
use livis_chatgpt_bridge.Store.Table.{exists}
use livis_chatgpt_bridge.Store.Ledger.{AttemptEventInput, is_null}
use livis_chatgpt_bridge.Store.Jobs.{coalesce}
use livis_chatgpt_bridge.Store.Sessions.Table.{same_text}

-- target_backend=?
abbrev pub is_target : String → JobRow → Bool
is_target backend r = str_eq (backend_name r.target_backend) backend

abbrev pub holds_number : Option ℕ → ℕ → Bool
holds_number none n = false
holds_number (some m) n = m == n

-- The four arguments that name an attempt.
pub record Attempt : Type 0 where
  pub job_id : String
  pub backend : String
  pub lease_id : String
  pub run_generation : ℕ

-- active_job_id=? AND active_lease_id=? AND active_run_generation=?
abbrev pub has_attempt : Attempt → StoredBackendSession → Bool
has_attempt a s =
    holds s.active_job_id a.job_id
    && holds s.active_lease_id a.lease_id
    && holds_number s.active_run_generation a.run_generation

-- What a statement asks of the active turn.
abbrev pub no_turn : Option String → Bool
no_turn turn = is_null turn

abbrev pub of_turn : String → Option String → Bool
of_turn turn_id turn = holds turn turn_id

-- active_turn_id IS ? OR (active_turn_id IS NULL AND ? IS NOT NULL)
abbrev pub may_turn : Option String → Option String → Bool
may_turn turn_id turn = same_text turn turn_id || (is_null turn && not (is_null turn_id))

-- The EXISTS of a session that runs the attempt, of the job row that is updated.
unfoldable pub has_session : Attempt → (Option String → Bool) → Database → JobRow → Bool
has_session a turn db r =
    exists
      (λ s.
        str_eq s.scope_key r.scope_key
        && str_eq s.backend a.backend
        && str_eq s.session_key r.session_key
        && holds s.active_job_id r.job_id
        && holds s.active_lease_id a.lease_id
        && holds_number s.active_run_generation a.run_generation
        && turn s.active_turn_id
        && not s.recovery_required)
      db.backend_sessions

-- The WHERE clause on the job row, after its key and status.
abbrev pub is_attempted : Attempt → (Option String → Bool) → Database → JobRow → Bool
is_attempted a turn db r =
    is_target a.backend r
    && holds r.lease_id a.lease_id
    && r.run_generation == a.run_generation
    && has_session a turn db r

-- The WHERE clause on the session row.
abbrev pub runs_attempt : String → Attempt → (Option String → Bool) → StoredBackendSession → Bool
runs_attempt scope a turn s =
    str_eq s.scope_key scope
    && str_eq s.backend a.backend
    && has_attempt a s
    && turn s.active_turn_id
    && not s.recovery_required

-- The SET clauses on the session row.
abbrev pub reserved_session : String → String → ℕ → ℕ → StoredBackendSession → StoredBackendSession
reserved_session job_id lease_id generation now s = record s {
  active_job_id = some job_id;
  active_lease_id = some lease_id;
  active_run_generation = some generation;
  updated_at = now;
}

abbrev pub cleared_session : ℕ → StoredBackendSession → StoredBackendSession
cleared_session now s = record s {
  active_job_id = none;
  active_lease_id = none;
  active_run_generation = none;
  active_turn_id = none;
  updated_at = now;
}

abbrev pub turned_session : String → ℕ → StoredBackendSession → StoredBackendSession
turned_session turn_id now s = record s { active_turn_id = some turn_id; updated_at = now }

-- active_turn_id=COALESCE(active_turn_id,?), recovery_required=1
abbrev pub flagged_session : Option String → ℕ → StoredBackendSession → StoredBackendSession
flagged_session turn_id now s = record s {
  active_turn_id = coalesce s.active_turn_id turn_id;
  recovery_required = true;
  updated_at = now;
}

-- The argument of `appendExecutionAttemptEventLocked` that the operations of a backend give.
abbrev pub attempt_event :
    Attempt → ExecutionAttemptEventType → Option String → Option String → ℕ → AttemptEventInput
attempt_event a type operation reason now = record {
  job_id = a.job_id;
  run_generation = a.run_generation;
  event_type = type;
  provider_operation_id = some operation;
  reason = reason;
  created_at = now;
}
