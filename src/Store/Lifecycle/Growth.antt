-- ===== src/Store/Lifecycle/Growth.antt =====
-- What every write of the abstract store does to the job rows.
use livis_chatgpt_bridge.Prelude.{
  ℕ, ◌≤◌, ◌≡◌, refl, ◌∙◌, ◌⊎◌, inl, inr, Bool, true, false, List, [], ◌∷◌, ◌++◌, Option, String,
  All, arith, Bool-cases, if◌then◌else◌,
}
use livis_chatgpt_bridge.Types.{
  JobStatus, received, acked, dispatching, running, cancelling, cancelled, rejected,
  ExecutionBackendKind, is_waiting, is_executing, is_cancellable,
}
use livis_chatgpt_bridge.Store.Schema.{JobRow, Database}
use livis_chatgpt_bridge.Store.Table.{update, exists, insert_or_ignore}
use livis_chatgpt_bridge.Store.Intents.{cancel_row}
use livis_chatgpt_bridge.Store.Jobs.{claimed_row}
use livis_chatgpt_bridge.Store.Lifecycle.{
  ◌⟶◌, ◌⟶*◌, stay, follow, ⟶*_trans, ack, unsend, accept, finish_early, fail_early, finish, fail,
  settle, give_up, lose, lose_early, refuse, refuse_acked, claim, claim_acked, stop, stop_early,
  drop, drop_acked,
}
use livis_chatgpt_bridge.Store.Steps
use livis_chatgpt_bridge.Store.Steps.{RowStep, Write, Writes}

-- The columns that no statement of the store writes after the insertion.
pub record Identity : Type 0 where
  pub scope_key : String
  pub job_id : String
  pub msg_id : String
  pub payload_hash : String
  pub target_backend : ExecutionBackendKind
  pub from_node_id : String
  pub from_node_type : Option String
  pub input_text : String
  pub raw_payload : String
  pub session_key : String
  pub input_timestamp : ℕ
  pub created_at : ℕ

abbrev pub identity : JobRow → Identity
identity r = record {
  scope_key = r.scope_key;
  job_id = r.job_id;
  msg_id = r.msg_id;
  payload_hash = r.payload_hash;
  target_backend = r.target_backend;
  from_node_id = r.from_node_id;
  from_node_type = r.from_node_type;
  input_text = r.input_text;
  raw_payload = r.raw_payload;
  session_key = r.session_key;
  input_timestamp = r.input_timestamp;
  created_at = r.created_at;
}

-- The row keeps its identity, its generation does not fall, and its status follows the diagram.
pub record Evolves (r s : JobRow) : Type 0 where
  pub same : identity r ≡ identity s
  pub generation : r.run_generation ≤ s.run_generation
  pub path : r.status ⟶* s.status

Evolves-refl : (r : JobRow) → Evolves r r
Evolves-refl r = record { same = refl; generation = omega arith; path = stay }

Evolves-trans : {r s t : JobRow} → Evolves r s → Evolves s t → Evolves r t
Evolves-trans a b = record {
  same = a.same ∙ b.same;
  generation = omega arith;
  path = ⟶*_trans a.path b.path;
}

edge : {s t : JobStatus} → s ⟶ t → s ⟶* t
edge e = follow e stay

-- The edge of each step, by the status that the step requires.
cancel-path :
    (s : JobStatus)
    → is_cancellable s ≡ true
    → s ⟶* (if is_executing s then cancelling else cancelled)
cancel-path received h = edge drop
cancel-path acked h = edge drop_acked
cancel-path dispatching h = edge stop_early
cancel-path running h = edge stop
cancel-path _ h = absurd (ground arith)

waiting-path : (s : JobStatus) → is_waiting s ≡ true → (s ⟶* dispatching) × (s ⟶* rejected)
waiting-path received h = (edge claim, edge refuse)
waiting-path acked h = (edge claim_acked, edge refuse_acked)
waiting-path _ h = absurd (ground arith)

executing-path :
    (s : JobStatus)
    → is_executing s ≡ true
    → (s ⟶* JobStatus.succeeded) × (s ⟶* JobStatus.failed) × (s ⟶* JobStatus.interrupted)
executing-path dispatching h = (edge finish_early, edge fail_early, edge lose_early)
executing-path running h = (edge finish, edge fail, edge lose)
executing-path _ h = absurd (ground arith)

finish-path :
    (s t : JobStatus)
    → is_executing s ≡ true
    → (t ≡ JobStatus.succeeded) ⊎ (t ≡ JobStatus.failed)
    → s ⟶* t
finish-path s t h (inl e) = rw e (executing-path s h).0
finish-path s t h (inr e) = rw e (executing-path s h).1

pub RowStep-Evolves : {db : Database} {r s : JobRow} → RowStep db r s → Evolves r s
unfolding cancel_row claimed_row
RowStep-Evolves {r = r} (Steps.RowStep.cancels now c e) =
    rw e (record { same = refl; generation = omega arith; path = cancel-path r.status c })
RowStep-Evolves (Steps.RowStep.acks now c e) =
    rw (e, c) (record { same = refl; generation = omega arith; path = edge ack })
RowStep-Evolves (Steps.RowStep.unsends now c e) =
    rw (e, c) (record { same = refl; generation = omega arith; path = edge unsend })
RowStep-Evolves {r = r} (Steps.RowStep.clears c e) =
    rw e (record { same = refl; generation = omega arith; path = stay })
RowStep-Evolves (Steps.RowStep.runs connector now c n e) =
    rw (e, c) (record { same = refl; generation = omega arith; path = edge accept })
RowStep-Evolves {r = r} (Steps.RowStep.finishes status error now t x c e) =
    rw e (record { same = refl; generation = omega arith; path = finish-path r.status status x t })
RowStep-Evolves {r = r} (Steps.RowStep.rejects reason now w e) =
    rw e (record { same = refl; generation = omega arith; path = (waiting-path r.status w).1 })
RowStep-Evolves (Steps.RowStep.accepts now c n e) =
    rw (e, c) (record { same = refl; generation = omega arith; path = edge accept })
RowStep-Evolves (Steps.RowStep.loses_cancel error now c e) =
    rw (e, c) (record { same = refl; generation = omega arith; path = edge give_up })
RowStep-Evolves (Steps.RowStep.settles now c e) =
    rw (e, c) (record { same = refl; generation = omega arith; path = edge settle })
RowStep-Evolves (Steps.RowStep.gives_up error now c e) =
    rw (e, c) (record { same = refl; generation = omega arith; path = edge give_up })
RowStep-Evolves {r = r} (Steps.RowStep.interrupts error now x e) =
    rw e (record { same = refl; generation = omega arith; path = (executing-path r.status x).2 })

pub claimed-Evolves :
    (connector lease : String) (now : ℕ) (r : JobRow)
    → is_waiting r.status ≡ true
    → Evolves r (claimed_row connector lease now r)
unfolding claimed_row
claimed-Evolves connector lease now r w = record {
  same = refl;
  generation = omega arith;
  path = (waiting-path r.status w).0;
}

-- Rows stay at their place and evolve, and new rows come at the end, on a path from `Received`.
abbrev pub Grows : List JobRow → List JobRow → Type 0
Grows [] ys = All (λ y. received ⟶* y.status) ys
Grows (x ∷ xs) [] = ⊥
Grows (x ∷ xs) (y ∷ ys) = Evolves x y × Grows xs ys

Grows-refl : (xs : List JobRow) → Grows xs xs
Grows-refl [] = tt
Grows-refl (x ∷ xs) = (Evolves-refl x, Grows-refl xs)

new-Grows : (ys zs : List JobRow) → Grows [] ys → Grows ys zs → Grows [] zs
new-Grows [] zs h g = g
new-Grows (y ∷ ys) [] h g = absurd g
new-Grows (y ∷ ys) (z ∷ zs) h g = (⟶*_trans h.0 (g.0).path, new-Grows ys zs h.1 g.1)

Grows-trans : (xs ys zs : List JobRow) → Grows xs ys → Grows ys zs → Grows xs zs
Grows-trans [] ys zs h g = new-Grows ys zs h g
Grows-trans (x ∷ xs) [] zs h g = absurd h
Grows-trans (x ∷ xs) (y ∷ ys) [] h g = absurd g
Grows-trans (x ∷ xs) (y ∷ ys) (z ∷ zs) h g = (Evolves-trans h.0 g.0, Grows-trans xs ys zs h.1 g.1)

update-Grows :
    (p : JobRow → Bool) (f : JobRow → JobRow) (xs : List JobRow)
    → ((r : JobRow) → p r ≡ true → Evolves r (f r))
    → Grows xs (update p f xs)
unfolding update
update-Grows p f [] h = tt
update-Grows p f (x ∷ xs) h = (head (p x) refl, update-Grows p f xs h)
  where
    head : (b : Bool) → p x ≡ b → Evolves x (if b then f x else x)
    head true e = h x e
    head false e = Evolves-refl x

append-Grows : (xs : List JobRow) (y : JobRow) → received ⟶* y.status → Grows xs (xs ++ y ∷ [])
append-Grows [] y h = (h, tt)
append-Grows (x ∷ xs) y h = (Evolves-refl x, append-Grows xs y h)

insert-Grows :
    (same : JobRow → Bool) (y : JobRow) (xs : List JobRow)
    → received ⟶* y.status
    → Grows xs (insert_or_ignore same y xs)
unfolding insert_or_ignore
insert-Grows same y xs h = elim (Bool-cases (exists same xs)) [
  | inl e ↦ rw e (Grows-refl xs)
  | inr e ↦ rw e (append-Grows xs y h)
]

abbrev JobsGrow : Database → Database → Type 0
JobsGrow db d = Grows db.jobs d.jobs

pub Write-Grows : {db d : Database} → Write db d → Grows db.jobs d.jobs
Write-Grows {db} (Steps.Write.writes_jobs p f h e) =
    rw e (update-Grows p f db.jobs (λ r m. RowStep-Evolves (h r m)))
Write-Grows {db} (Steps.Write.claims_job scope job connector lease now p h e) =
    rw e (update-Grows p _ db.jobs (λ r m. claimed-Evolves connector lease now r (h r m).1))
Write-Grows {db} (Steps.Write.inserts_job scope input hash session target now e) =
    rw e (insert-Grows _ _ db.jobs stay)
Write-Grows {db} (Steps.Write.inserts_result o s e) = rw e (Grows-refl db.jobs)
Write-Grows {db} (Steps.Write.writes_outbox p f h e) = rw e (Grows-refl db.jobs)
Write-Grows {db} (Steps.Write.inserts_attempt a h e) = rw e (Grows-refl db.jobs)
Write-Grows {db} (Steps.Write.deletes_attempt p e) = rw e (Grows-refl db.jobs)
Write-Grows {db} (Steps.Write.appends_event ev c u q e) = rw e (Grows-refl db.jobs)
Write-Grows {db} (Steps.Write.isolates rows k e) = rw e (Grows-refl db.jobs)
Write-Grows {db} (Steps.Write.releases scope session e) = rw e (Grows-refl db.jobs)
Write-Grows {db} (Steps.Write.writes_intents rows b e) = rw e (Grows-refl db.jobs)
Write-Grows {db} (Steps.Write.inserts_session s a m k u e) = rw e (Grows-refl db.jobs)
Write-Grows {db} (Steps.Write.writes_sessions p f h e) = rw e (Grows-refl db.jobs)
Write-Grows {db} (Steps.Write.deletes_sessions p e) = rw e (Grows-refl db.jobs)

pub Writes-Grows : {db d : Database} → Writes db d → Grows db.jobs d.jobs
Writes-Grows {db} Steps.Writes.here = Grows-refl db.jobs
Writes-Grows {db} {d} (Steps.Writes.next {mid = m} ws w) =
    Grows-trans db.jobs m.jobs d.jobs (Writes-Grows ws) (Write-Grows w)
