-- ===== src/Store/Ledger/Appends.antt =====
-- What `appendExecutionAttemptEventLocked` may write: one row of the ledger.
use livis_chatgpt_bridge.Prelude.{
  ◌≡◌, refl, ◌∙◌, suc, subst, Bool, true, false, if◌then◌else◌, arith, List, Option, none, some,
  String,
}
use livis_chatgpt_bridge.Types.{StoredBackendSession, StoredExecutionAttemptEvent, StoredJob}
use livis_chatgpt_bridge.Store.Schema.{Database, JobRow, Runtime}
use livis_chatgpt_bridge.Store.Monad.{
  Result, ok, err, throw, query, ◌>>=◌, attempt_context_missing, attempt_metadata_missing,
}
use livis_chatgpt_bridge.Store.Monad.Moves.{
  Preorder, Moves, moves, moved, insert_unless-Moves, throw-Moves, pure-Moves, query-Moves,
  bind-Moves,
}
use livis_chatgpt_bridge.Store.Reads.{found, require}
use livis_chatgpt_bridge.Store.Table.{select}
use livis_chatgpt_bridge.Store.Ledger.{
  session_of, event_for, event_row, max_sequence, is_attempt, AttemptEventInput, insert_event,
  insert_result, append_to, append_execution_attempt_event,
}

-- The event has the number after the highest of its attempt.
abbrev pub IsNext : StoredExecutionAttemptEvent → List StoredExecutionAttemptEvent → Type 0
IsNext e es = e.sequence ≡ suc (max_sequence (is_attempt e.scope_key e.job_id e.run_generation) es)

row-IsNext :
    (js : Runtime) (input : AttemptEventInput) (es : List StoredExecutionAttemptEvent) (j : JobRow)
    (s : Option StoredBackendSession) (e : StoredExecutionAttemptEvent)
    → ok (event_row js input es j s) ≡ ok e
    → IsNext e es
row-IsNext js input es j s e h =
    let same : event_row js input es j s ≡ e = ground arith in subst (λ x. IsNext x es) same refl

event_for-IsNext :
    (js : Runtime) (input : AttemptEventInput) (j : JobRow) (db : Database)
    (e : StoredExecutionAttemptEvent)
    → event_for js input j db ≡ ok e
    → IsNext e db.execution_attempt_events
unfolding event_for
event_for-IsNext js input j db e h = guarded _ _ (select (session_of j) db.backend_sessions) h
  where
    guarded :
        (a b : Bool) (s : Option StoredBackendSession)
        → (if a
            then err attempt_context_missing
            else (if b
                then err attempt_metadata_missing
                else ok (event_row js input db.execution_attempt_events j s)))
          ≡ ok e
        → IsNext e db.execution_attempt_events
    guarded true b s h = absurd (ground arith)
    guarded false true s h = absurd (ground arith)
    guarded false false s h = row-IsNext js input db.execution_attempt_events j s e h

module _ (R : Preorder) where
  pub found-Moves : (job : Option StoredJob) → Moves R (found job)
  unfolding found
  found-Moves none = throw-Moves _
  found-Moves (some job) = pure-Moves job

  pub require-Moves : (scope job_id : String) → Moves R (require scope job_id)
  unfolding require
  require-Moves scope job_id = bind-Moves (query-Moves _) found-Moves

  -- An INSERT of an event that has the next number moves along the relation.
  module _
      (inserts : (e : StoredExecutionAttemptEvent) (db : Database)
        → IsNext e db.execution_attempt_events
        → R.Rel db (insert_event e db).1) where
    insert_result-Rel :
        (js : Runtime) (input : AttemptEventInput) (j : JobRow) (db : Database)
        (r : Result StoredExecutionAttemptEvent)
        → event_for js input j db ≡ r
        → R.Rel db (insert_result r db).1
    unfolding insert_result throw
    insert_result-Rel js input j db (ok e) q = inserts e db (event_for-IsNext js input j db e q)
    insert_result-Rel js input j db (err e) q = R.reflexive db

    append_to-Moves :
        (js : Runtime) (input : AttemptEventInput) (row : Option JobRow)
        → Moves R (append_to js input row)
    unfolding append_to query ◌>>=◌
    append_to-Moves js input none = throw-Moves _
    append_to-Moves js input (some j) =
        moves λ db. insert_result-Rel js input j db (event_for js input j db) refl

    pub append-Moves :
        (js : Runtime) (scope : String) (input : AttemptEventInput)
        → Moves R (append_execution_attempt_event js scope input)
    unfolding append_execution_attempt_event
    append-Moves js scope input = bind-Moves (query-Moves _) (append_to-Moves js input)

-- The tables of jobs, sessions and quarantines are left alone.
pub record SameRows (db d : Database) : Type 0 where
  pub jobs : d.jobs ≡ db.jobs
  pub backend_sessions : d.backend_sessions ≡ db.backend_sessions
  pub session_quarantine : d.session_quarantine ≡ db.session_quarantine

abbrev pub same_rows : Preorder
same_rows = record {
  Rel = SameRows;
  reflexive = λ db. record { jobs = refl; backend_sessions = refl; session_quarantine = refl };
  transitive = λ a b c p q. record {
    jobs = q.jobs ∙ p.jobs;
    backend_sessions = q.backend_sessions ∙ p.backend_sessions;
    session_quarantine = q.session_quarantine ∙ p.session_quarantine;
  };
}

insert_event-SameRows :
    (e : StoredExecutionAttemptEvent) (db : Database) → SameRows db (insert_event e db).1
unfolding insert_event
insert_event-SameRows e db =
    moved {R = same_rows}
      (insert_unless-Moves _ _ _
        (λ db h. record { jobs = refl; backend_sessions = refl; session_quarantine = refl }))
      db

pub append-SameRows :
    (js : Runtime) (scope : String) (input : AttemptEventInput)
    → Moves same_rows (append_execution_attempt_event js scope input)
append-SameRows = append-Moves same_rows λ e db q. insert_event-SameRows e db
