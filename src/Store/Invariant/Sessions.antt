-- ===== src/Store/Invariant/Sessions.antt =====
-- A session runs one job at a time.
use livis_chatgpt_bridge.Prelude.{
  ℕ, ◌≡◌, refl, sym, ◌∙◌, inl, inr, Bool, true, false, not, ◌&&◌, List, [], ◌∷◌, ◌++◌, String, All,
  All-append, All-map, All-intro, All-zip, All-swap, ◌⊎◌, arith, Bool-cases, if◌then◌else◌, str_eq,
  eq_iff, &&-right,
}
use livis_chatgpt_bridge.Types.{is_active}
use livis_chatgpt_bridge.Store.Schema.{JobRow, Database, Runtime, is_job}
use livis_chatgpt_bridge.Store.Table.{update, exists, insert_or_ignore, exists_false, update-All}
use livis_chatgpt_bridge.Store.Intents.{cancel_row}
use livis_chatgpt_bridge.Store.Jobs.{claimed_row, is_free}
use livis_chatgpt_bridge.Store.Commands.{Command, history, empty}
use livis_chatgpt_bridge.Store.Steps
use livis_chatgpt_bridge.Store.Steps.{RowStep, Write, Writes}
use livis_chatgpt_bridge.Store.Steps.Runs.{Writes-keep, history-Writes}

-- Two rows that are active in one session are of one job.
abbrev pub Excludes : JobRow → JobRow → Type 0
Excludes r s =
    is_active r.status ≡ true
    → is_active s.status ≡ true
    → r.scope_key ≡ s.scope_key
    → r.session_key ≡ s.session_key
    → r.job_id ≡ s.job_id

abbrev pub IsExclusive : List JobRow → Type 0
IsExclusive rows = All (λ r. All (Excludes r) rows) rows

-- A step makes no row active, and keeps its keys.
pub record IsQuiet (r s : JobRow) : Type 0 where
  pub scope_key : s.scope_key ≡ r.scope_key
  pub session_key : s.session_key ≡ r.session_key
  pub job_id : s.job_id ≡ r.job_id
  pub active : is_active s.status ≡ true → is_active r.status ≡ true

RowStep-IsQuiet : {db : Database} {r s : JobRow} → RowStep db r s → IsQuiet r s
unfolding cancel_row
RowStep-IsQuiet (Steps.RowStep.cancels now c e) = rw e (ground arith)
RowStep-IsQuiet (Steps.RowStep.acks now c e) = rw e (ground arith)
RowStep-IsQuiet (Steps.RowStep.unsends now c e) = rw e (ground arith)
RowStep-IsQuiet (Steps.RowStep.clears c e) = rw e (ground arith)
RowStep-IsQuiet (Steps.RowStep.runs connector now c n e) = rw e (ground arith)
RowStep-IsQuiet (Steps.RowStep.finishes status error now t x c e) = rw e (ground arith)
RowStep-IsQuiet (Steps.RowStep.rejects reason now w e) = rw e (ground arith)
RowStep-IsQuiet (Steps.RowStep.accepts now c n e) = rw e (ground arith)
RowStep-IsQuiet (Steps.RowStep.loses_cancel error now c e) = rw e (ground arith)
RowStep-IsQuiet (Steps.RowStep.settles now c e) = rw e (ground arith)
RowStep-IsQuiet (Steps.RowStep.gives_up error now c e) = rw e (ground arith)
RowStep-IsQuiet (Steps.RowStep.interrupts error now x e) = rw e (ground arith)

image-IsQuiet :
    (p : JobRow → Bool) (f : JobRow → JobRow) (r : JobRow)
    → ((x : JobRow) → p x ≡ true → IsQuiet x (f x))
    → IsQuiet r (if p r then f r else r)
image-IsQuiet p f r h = elim (Bool-cases (p r)) [
  | inl e ↦ rw e (h r e)
  | inr e ↦ rw e (record { scope_key = refl; session_key = refl; job_id = refl; active = λ a. a })
]

quiet-Excludes : {r s r' s' : JobRow} → IsQuiet r r' → IsQuiet s s' → Excludes r s → Excludes r' s'
quiet-Excludes q k e a b same session =
    q.job_id
    ∙ e (q.active a) (k.active b) (sym q.scope_key ∙ same ∙ k.scope_key)
        (sym q.session_key ∙ session ∙ k.session_key)
    ∙ sym k.job_id

update-IsExclusive :
    (p : JobRow → Bool) (f : JobRow → JobRow) (rows : List JobRow)
    → ((r : JobRow) → p r ≡ true → IsQuiet r (f r))
    → IsExclusive rows
    → IsExclusive (update p f rows)
update-IsExclusive p f rows h x = update-All _ p f rows (
    All-map rows
      (λ r k.
        update-All _ p f rows
          (All-map rows (λ s. quiet-Excludes (image-IsQuiet p f r h) (image-IsQuiet p f s h)) k))
      x)

-- The row `a` does not block `r`: it is of the same job, or not active in its session.
abbrev pub blocks : JobRow → JobRow → Bool
blocks r a =
    str_eq a.scope_key r.scope_key
    && str_eq a.session_key r.session_key
    && not (str_eq a.job_id r.job_id)
    && is_active a.status

pub free-All :
    (db : Database) (r : JobRow) → is_free db r ≡ true → All (λ a. blocks r a ≡ false) db.jobs
free-All db r h = exists_false (blocks r) db.jobs (ground arith)

pub unblocked :
    (r a : JobRow)
    → blocks r a ≡ false
    → is_active a.status ≡ true
    → a.scope_key ≡ r.scope_key
    → a.session_key ≡ r.session_key
    → a.job_id ≡ r.job_id
unblocked r a h active scope session = (eq_iff a.job_id r.job_id).0 (
    ground (
      arith,
      (eq_iff a.scope_key r.scope_key).1 scope,
      (eq_iff a.session_key r.session_key).1 session,
    ))

module _ (scope job_id connector lease : String) (now : ℕ) (p : JobRow → Bool) where
  abbrev image : JobRow → JobRow
  image r = if p r then claimed_row connector lease now r else r

  image-keys :
      (r : JobRow)
      → ((image r).scope_key ≡ r.scope_key)
        × ((image r).session_key ≡ r.session_key)
        × ((image r).job_id ≡ r.job_id)
  unfolding claimed_row
  image-keys r = elim (Bool-cases (p r)) [
    | inl e ↦ rw e (refl, refl, refl)
    | inr e ↦ rw e (refl, refl, refl)
  ]

  image-same :
      (r : JobRow) → p r ≡ false → is_active (image r).status ≡ true → is_active r.status ≡ true
  image-same r e a = rw e at a

  -- What the WHERE clause of a claim gives of two rows.
  abbrev Clear : JobRow → JobRow → Type 0
  Clear r a = p r ≡ true → blocks r a ≡ false

  image-Excludes :
      (r s : JobRow)
      → ((x : JobRow) → p x ≡ true → is_job scope job_id x ≡ true)
      → Clear r s
      → Clear s r
      → Excludes r s
      → Excludes (image r) (image s)
  image-Excludes r s key rs sr e a b same session =
      (image-keys r).2 ∙ main (Bool-cases (p r)) (Bool-cases (p s)) ∙ sym ((image-keys s).2)
    where
      scopes : r.scope_key ≡ s.scope_key
      scopes = sym ((image-keys r).0) ∙ same ∙ (image-keys s).0

      sessions : r.session_key ≡ s.session_key
      sessions = sym ((image-keys r).1) ∙ session ∙ (image-keys s).1

      main : (p r ≡ true) ⊎ (p r ≡ false) → (p s ≡ true) ⊎ (p s ≡ false) → r.job_id ≡ s.job_id
      main (inl x) (inl y) =
          (eq_iff r.job_id job_id).0 (&&-right _ _ (key r x))
          ∙ sym ((eq_iff s.job_id job_id).0 (&&-right _ _ (key s y)))
      main (inl x) (inr y) =
          sym (unblocked r s (rs x) (image-same s y b) (sym scopes) (sym sessions))
      main (inr x) (inl y) = unblocked s r (sr y) (image-same r x a) scopes sessions
      main (inr x) (inr y) = e (image-same r x a) (image-same s y b) scopes sessions

  claim-IsExclusive :
      (rows : List JobRow)
      → ((x : JobRow) → p x ≡ true → is_job scope job_id x ≡ true)
      → ((r : JobRow) → p r ≡ true → All (λ a. blocks r a ≡ false) rows)
      → IsExclusive rows
      → IsExclusive (update p (claimed_row connector lease now) rows)
  claim-IsExclusive rows key free x = update-All _ p _ rows (
      All-zip (λ r. All (Excludes r) rows) (λ r. All (λ s. Clear s r) rows)
        (λ r. All (Excludes (image r)) (update p (claimed_row connector lease now) rows)) rows
        (λ r e back. update-All _ p _ rows (
          All-zip (λ s. Clear s r) (λ s. Clear r s × Excludes r s)
            (λ s. Excludes (image r) (image s)) rows (λ s sr k. image-Excludes r s key k.0 sr k.1)
            back
            (All-zip (Clear r) (Excludes r) (λ s. Clear r s × Excludes r s) rows (λ s c f. (c, f))
              (clear r) e)))
        x (All-swap Clear rows rows (All-intro rows clear)))
    where
      clear : (r : JobRow) → All (Clear r) rows
      clear r = elim (Bool-cases (p r)) [
        | inl e ↦ All-map rows (λ a k _. k) (free r e)
        | inr e ↦ All-intro rows (λ a t. absurd (cc))
      ]

idle-IsExclusive :
    (y : JobRow) (xs : List JobRow)
    → is_active y.status ≡ false
    → IsExclusive xs
    → IsExclusive (xs ++ y ∷ [])
idle-IsExclusive y xs idle h =
    All-append _ xs (y ∷ [])
      (All-map xs (λ r k. All-append (Excludes r) xs (y ∷ []) k ((λ a b. absurd (cc)), tt)) h)
      (All-intro (xs ++ y ∷ []) (λ s a. absurd (cc)), tt)

insert-IsExclusive :
    (same : JobRow → Bool) (y : JobRow) (xs : List JobRow)
    → is_active y.status ≡ false
    → IsExclusive xs
    → IsExclusive (insert_or_ignore same y xs)
unfolding insert_or_ignore
insert-IsExclusive same y xs idle h = elim (Bool-cases (exists same xs)) [
  | inl e ↦ rw e h
  | inr e ↦ rw e (idle-IsExclusive y xs idle h)
]

abbrev pub SessionsExclusive : Database → Type 0
SessionsExclusive db = IsExclusive db.jobs

Write-SessionsExclusive :
    (db d : Database) → Write db d → SessionsExclusive db → SessionsExclusive d
Write-SessionsExclusive db d (Steps.Write.writes_jobs p f h e) x =
    rw e (update-IsExclusive p f db.jobs (λ r m. RowStep-IsQuiet (h r m)) x)
Write-SessionsExclusive db d (Steps.Write.claims_job scope job connector lease now p h e) x = rw e (
    claim-IsExclusive scope job connector lease now p db.jobs (λ r m. (h r m).0)
      (λ r m. free-All db r (h r m).3) x)
Write-SessionsExclusive db d (Steps.Write.inserts_job scope input hash session target now e) x =
    rw e (insert-IsExclusive _ _ db.jobs refl x)
Write-SessionsExclusive db d (Steps.Write.inserts_result o s e) x = rw e x
Write-SessionsExclusive db d (Steps.Write.writes_outbox p f h e) x = rw e x
Write-SessionsExclusive db d (Steps.Write.inserts_attempt a h e) x = rw e x
Write-SessionsExclusive db d (Steps.Write.deletes_attempt p e) x = rw e x
Write-SessionsExclusive db d (Steps.Write.appends_event ev k u q e) x = rw e x
Write-SessionsExclusive db d (Steps.Write.isolates rows k e) x = rw e x
Write-SessionsExclusive db d (Steps.Write.releases scope session e) x = rw e x
Write-SessionsExclusive db d (Steps.Write.writes_intents rows b e) x = rw e x
Write-SessionsExclusive db d (Steps.Write.inserts_session s a m v u e) x = rw e x
Write-SessionsExclusive db d (Steps.Write.writes_sessions p f w e) x = rw e x
Write-SessionsExclusive db d (Steps.Write.deletes_sessions p e) x = rw e x

-- After every history from the empty store, two job rows of one session that are both active (in
-- `Dispatching`, `Running` or `Cancelling`) are of the same job.
pub history-SessionsExclusive :
    (js : Runtime) (scope : String) (cs : List (ℕ × Command))
    → SessionsExclusive (history js scope cs empty)
unfolding empty
history-SessionsExclusive js scope cs =
    Writes-keep SessionsExclusive Write-SessionsExclusive empty _ (history-Writes js scope cs empty)
      tt
