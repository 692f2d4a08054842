-- ===== src/Store/Invariant/Intents.antt =====
-- The table `pending_cancels` of src/state/store.ts.
use livis_chatgpt_bridge.Prelude.{ℕ, ◌≤◌, inl, inr, List, String, length, arith}
use livis_chatgpt_bridge.Store.Schema.{Database, Runtime}
use livis_chatgpt_bridge.Store.Intents.{pending_cancel_max_rows}
use livis_chatgpt_bridge.Store.Commands.{Command, history, empty}
use livis_chatgpt_bridge.Store.Steps
use livis_chatgpt_bridge.Store.Steps.{Write}
use livis_chatgpt_bridge.Store.Steps.Runs.{Writes-keep, history-Writes}

abbrev pub IntentsBounded : Database → Type 0
IntentsBounded db = length db.pending_cancels ≤ pending_cancel_max_rows

Write-IntentsBounded : (db d : Database) → Write db d → IntentsBounded db → IntentsBounded d
Write-IntentsBounded db d (Steps.Write.writes_intents rows (inl b) e) h = rw e (omega arith)
Write-IntentsBounded db d (Steps.Write.writes_intents rows (inr b) e) h = rw e b
Write-IntentsBounded db d (Steps.Write.appends_event ev c u q e) h = rw e h
Write-IntentsBounded db d (Steps.Write.writes_jobs p f k e) h = rw e h
Write-IntentsBounded db d (Steps.Write.claims_job scope job connector lease now p k e) h = rw e h
Write-IntentsBounded db d (Steps.Write.inserts_job scope input hash session target now e) h = rw e h
Write-IntentsBounded db d (Steps.Write.inserts_result o s e) h = rw e h
Write-IntentsBounded db d (Steps.Write.writes_outbox p f k e) h = rw e h
Write-IntentsBounded db d (Steps.Write.inserts_attempt a k e) h = rw e h
Write-IntentsBounded db d (Steps.Write.deletes_attempt p e) h = rw e h
Write-IntentsBounded db d (Steps.Write.isolates rows k e) h = rw e h
Write-IntentsBounded db d (Steps.Write.releases scope session e) h = rw e h
Write-IntentsBounded db d (Steps.Write.inserts_session s a m v u e) h = rw e h
Write-IntentsBounded db d (Steps.Write.writes_sessions p f w e) h = rw e h
Write-IntentsBounded db d (Steps.Write.deletes_sessions p e) h = rw e h

-- After every history from the empty store the table `pending_cancels` has at most 4096 rows, over
-- all scopes.
pub history-IntentsBounded :
    (js : Runtime) (scope : String) (cs : List (ℕ × Command))
    → IntentsBounded (history js scope cs empty)
unfolding empty
history-IntentsBounded js scope cs =
    Writes-keep IntentsBounded Write-IntentsBounded empty _ (history-Writes js scope cs empty)
      (omega arith)
