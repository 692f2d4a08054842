-- ===== src/Store/Invariant/Ledger.antt =====
-- The table `execution_attempt_events` of src/state/store.ts.
use livis_chatgpt_bridge.Prelude.{ℕ, ◌≡◌, sym, ap, ◌∙◌, List, [], ◌∷◌, ◌++◌, String}
use mathlib.Core.List.{append-nil, append_assoc}
use livis_chatgpt_bridge.Store.Commands.{Command, history}
use livis_chatgpt_bridge.Store.Steps.Runs.{history-Writes}
use livis_chatgpt_bridge.Types.{StoredExecutionAttemptEvent}
use livis_chatgpt_bridge.Store.Schema.{Database, Runtime}
use livis_chatgpt_bridge.Store.Steps
use livis_chatgpt_bridge.Store.Steps.{Write, Writes}

abbrev pub Extends : Database → Database → Type 0
Extends db d =
    (new : List StoredExecutionAttemptEvent) × (d.execution_attempt_events
      ≡ db.execution_attempt_events ++ new)

same-Extends :
    (es : List StoredExecutionAttemptEvent)
    → (new : List StoredExecutionAttemptEvent) × (es ≡ es ++ new)
same-Extends es = ([], sym (append-nil es))

Write-Extends : {db d : Database} → Write db d → Extends db d
Write-Extends {db} (Steps.Write.appends_event ev c u q e) =
    (ev ∷ [], ap (λ (x : Database). x.execution_attempt_events) e)
Write-Extends {db} (Steps.Write.writes_jobs p f h e) =
    rw e (same-Extends db.execution_attempt_events)
Write-Extends {db} (Steps.Write.claims_job scope job connector lease now p h e) =
    rw e (same-Extends db.execution_attempt_events)
Write-Extends {db} (Steps.Write.inserts_job scope input hash session target now e) =
    rw e (same-Extends db.execution_attempt_events)
Write-Extends {db} (Steps.Write.inserts_result o s e) =
    rw e (same-Extends db.execution_attempt_events)
Write-Extends {db} (Steps.Write.writes_outbox p f h e) =
    rw e (same-Extends db.execution_attempt_events)
Write-Extends {db} (Steps.Write.inserts_attempt a h e) =
    rw e (same-Extends db.execution_attempt_events)
Write-Extends {db} (Steps.Write.deletes_attempt p e) =
    rw e (same-Extends db.execution_attempt_events)
Write-Extends {db} (Steps.Write.isolates rows k e) = rw e (same-Extends db.execution_attempt_events)
Write-Extends {db} (Steps.Write.releases scope session e) =
    rw e (same-Extends db.execution_attempt_events)
Write-Extends {db} (Steps.Write.writes_intents rows b e) =
    rw e (same-Extends db.execution_attempt_events)
Write-Extends {db} (Steps.Write.inserts_session s a m v u e) =
    rw e (same-Extends db.execution_attempt_events)
Write-Extends {db} (Steps.Write.writes_sessions p f w e) =
    rw e (same-Extends db.execution_attempt_events)
Write-Extends {db} (Steps.Write.deletes_sessions p e) =
    rw e (same-Extends db.execution_attempt_events)

Writes-Extends : {db d : Database} → Writes db d → Extends db d
Writes-Extends {db} Steps.Writes.here = same-Extends db.execution_attempt_events
Writes-Extends {db} (Steps.Writes.next ws w) =
    let (old, e) = Writes-Extends ws in
    let (new, k) = Write-Extends w in
    (old ++ new, k ∙ ap (λ l. l ++ new) e ∙ append_assoc db.execution_attempt_events old new)

-- After every history the ledger is the ledger before it with new events behind: no event is
-- changed, removed or inserted between others.
pub history-Extends :
    (js : Runtime) (scope : String) (cs : List (ℕ × Command)) (db : Database)
    → Extends db (history js scope cs db)
history-Extends js scope cs db = Writes-Extends (history-Writes js scope cs db)
