-- ===== src/Store/Invariant/Rows.antt =====
-- What holds of each job row, whatever its status.
use livis_chatgpt_bridge.Prelude.{
  ℕ, ◌<◌, ◌≡◌, inl, inr, Bool, true, false, List, [], ◌∷◌, Option, none, some, String, All,
  All-append, arith, Bool-cases,
}
use livis_chatgpt_bridge.Types.{
  JobStatus, cancelling, cancelled, is_active, is_waiting, is_terminal,
}
use livis_chatgpt_bridge.Store.Schema.{JobRow, Database, Runtime}
use livis_chatgpt_bridge.Store.Table.{All-update, exists, insert_or_ignore}
use livis_chatgpt_bridge.Store.Intents.{cancel_row}
use livis_chatgpt_bridge.Store.Jobs.{claimed_row}
use livis_chatgpt_bridge.Store.Commands.{Command, history, empty}
use livis_chatgpt_bridge.Store.Steps
use livis_chatgpt_bridge.Store.Steps.{RowStep, Write, Writes}
use livis_chatgpt_bridge.Store.Steps.Runs.{Writes-keep, history-Writes}

-- The statuses of a job whose cancellation was asked for.
abbrev pub is_cancel_status : JobStatus → Bool
is_cancel_status cancelling = true
is_cancel_status cancelled = true
is_cancel_status JobStatus.cancel_unknown = true
is_cancel_status _ = false

abbrev pub is_some {ℓ} : {A : Type ℓ} → Option A → Bool
is_some none = false
is_some (some _) = true

pub record IsConsistent (r : JobRow) : Type 0 where
  pub flag : r.cancel_requested ≡ is_cancel_status r.status
  pub completed : is_some r.completed_at ≡ is_terminal r.status
  pub leased : is_active r.status ≡ true → is_some r.lease_id ≡ true
  pub connected : is_active r.status ≡ true → is_some r.connector_id ≡ true
  pub attempted : is_active r.status ≡ true → 0 < r.run_generation

RowStep-IsConsistent :
    {db : Database} {r s : JobRow} → RowStep db r s → IsConsistent r → IsConsistent s
unfolding cancel_row
RowStep-IsConsistent (Steps.RowStep.cancels now c e) h = rw e (ground arith)
RowStep-IsConsistent (Steps.RowStep.acks now c e) h = rw e (ground arith)
RowStep-IsConsistent (Steps.RowStep.unsends now c e) h = rw e (ground arith)
RowStep-IsConsistent (Steps.RowStep.clears c e) h = rw e (ground arith)
RowStep-IsConsistent (Steps.RowStep.runs connector now c n e) h = rw e (ground arith)
RowStep-IsConsistent (Steps.RowStep.finishes status error now t x c e) h = rw e (ground arith)
RowStep-IsConsistent (Steps.RowStep.rejects reason now w e) h = rw e (ground arith)
RowStep-IsConsistent (Steps.RowStep.accepts now c n e) h = rw e (ground arith)
RowStep-IsConsistent (Steps.RowStep.loses_cancel error now c e) h = rw e (ground arith)
RowStep-IsConsistent (Steps.RowStep.settles now c e) h = rw e (ground arith)
RowStep-IsConsistent (Steps.RowStep.gives_up error now c e) h = rw e (ground arith)
RowStep-IsConsistent (Steps.RowStep.interrupts error now x e) h = rw e (ground arith)

claimed-IsConsistent :
    (connector lease : String) (now : ℕ) (r : JobRow)
    → is_waiting r.status ≡ true
    → r.cancel_requested ≡ false
    → IsConsistent r
    → IsConsistent (claimed_row connector lease now r)
unfolding claimed_row
claimed-IsConsistent connector lease now r w f h = ground arith

abbrev pub JobsConsistent : Database → Type 0
JobsConsistent db = All IsConsistent db.jobs

insert-All :
    (P : JobRow → Type 0) (same : JobRow → Bool) (y : JobRow) (xs : List JobRow)
    → P y
    → All P xs
    → All P (insert_or_ignore same y xs)
unfolding insert_or_ignore
insert-All P same y xs h hs = elim (Bool-cases (exists same xs)) [
  | inl e ↦ rw e hs
  | inr e ↦ rw e (All-append P xs (y ∷ []) hs (h, tt))
]

Write-JobsConsistent : (db d : Database) → Write db d → JobsConsistent db → JobsConsistent d
Write-JobsConsistent db d (Steps.Write.writes_jobs p f h e) c =
    rw e (All-update p f db.jobs (λ r m. RowStep-IsConsistent (h r m)) (λ r m k. k) c)
Write-JobsConsistent db d (Steps.Write.claims_job scope job connector lease now p h e) c = rw e (
    All-update p _ db.jobs (λ r m. claimed-IsConsistent connector lease now r (h r m).1 (h r m).2)
      (λ r m k. k) c)
Write-JobsConsistent db d (Steps.Write.inserts_job scope input hash session target now e) c =
    rw e (insert-All IsConsistent _ _ db.jobs (ground arith) c)
Write-JobsConsistent db d (Steps.Write.inserts_result o s e) c = rw e c
Write-JobsConsistent db d (Steps.Write.writes_outbox p f h e) c = rw e c
Write-JobsConsistent db d (Steps.Write.inserts_attempt a h e) c = rw e c
Write-JobsConsistent db d (Steps.Write.deletes_attempt p e) c = rw e c
Write-JobsConsistent db d (Steps.Write.appends_event ev k u q e) c = rw e c
Write-JobsConsistent db d (Steps.Write.isolates rows k e) c = rw e c
Write-JobsConsistent db d (Steps.Write.releases scope session e) c = rw e c
Write-JobsConsistent db d (Steps.Write.writes_intents rows b e) c = rw e c
Write-JobsConsistent db d (Steps.Write.inserts_session s a m v u e) c = rw e c
Write-JobsConsistent db d (Steps.Write.writes_sessions p f w e) c = rw e c
Write-JobsConsistent db d (Steps.Write.deletes_sessions p e) c = rw e c

-- After every history from the empty store each job row is consistent: its cancel flag is set
-- exactly in the statuses `Cancelling`, `Cancelled` and `CancelUnknown`, its completion time is
-- there exactly in the terminal statuses, and while it is active it has a lease, a connector and a
-- generation of at least 1.
pub history-JobsConsistent :
    (js : Runtime) (scope : String) (cs : List (ℕ × Command))
    → JobsConsistent (history js scope cs empty)
unfolding empty
history-JobsConsistent js scope cs =
    Writes-keep JobsConsistent Write-JobsConsistent empty _ (history-Writes js scope cs empty) tt
