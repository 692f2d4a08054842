-- ===== src/Daemon/Held.antt =====
-- The answers of `finishSuccess` and `finishFailure`, which src/daemon.ts acknowledges to the
-- connector: the job as the store then holds it.
use livis_chatgpt_bridge.Prelude.{
  ℕ, ◌≡◌, refl, sym, subst, ◌∙◌, ap, Bool, true, &&-left, &&-right, Option, none, some, String,
  List, [], ◌∷◌, inl, inr, Bool-cases, arith,
}
use text.Mathlib.TextEquality.{eq_iff}
use livis_chatgpt_bridge.Types.{StoredJob, StoredOutbox}
use livis_chatgpt_bridge.Store.Schema.{
  Runtime, Database, JobRow, OutboxRow, is_job, is_outbox, outbox_view,
}
use livis_chatgpt_bridge.Store.Table.{select, exists, select_hit}
use livis_chatgpt_bridge.Store.Monad.{M, Result, ok, err}
use livis_chatgpt_bridge.Store.Monad.Inversion.{Answers, bind-Answers, then-Answers, query-Answers}
use livis_chatgpt_bridge.Store.Reads.{get, require, view}
use livis_chatgpt_bridge.Store.Jobs.{finish_success, finish_failure}
use livis_chatgpt_bridge.Store.Sessions.Answers.{found-Answers}
use livis_chatgpt_bridge.Daemon.State
use livis_chatgpt_bridge.Daemon.State.{Daemon, D, TurnResult, done, failed, call, answer_of}
use livis_chatgpt_bridge.Daemon.Dispatch.{is_some}
use livis_chatgpt_bridge.Daemon.Results.{has_result}
use livis_chatgpt_bridge.Daemon.Frames.{Frame, IsCommand, Keeps, keeps, kept, call-Keeps}

-- The call answers the job with this id as it leaves it.
abbrev pub Tells : String → String → M StoredJob → Type 0
Tells scope id m =
    (db d : Database) (job : StoredJob) → Answers m db job d → some job ≡ get scope id d

require-Tells : (scope id : String) → Tells scope id (require scope id)
unfolding require
require-Tells scope id db d job h =
    let (row, mid, asked, h1) = bind-Answers _ _ db job d h in
    let (read, same) = query-Answers _ db row mid asked in
    let (is_found, last) = found-Answers row mid job d h1 in
    sym is_found ∙ read ∙ ap (get scope id) (sym (last ∙ same))

module _ (js : Runtime) (scope id lease result : String) where
  pub success-Tells : (now : ℕ) → Tells scope id (finish_success js scope id lease result now)
  unfolding finish_success
  success-Tells now db d job h =
      let (u, mid, ran, h1) = then-Answers _ _ db job d h in require-Tells scope id mid d job h1

  pub failure-Tells :
      (error : String) (now : ℕ)
      → Tells scope id (finish_failure js scope id lease result error now)
  unfolding finish_failure
  failure-Tells error now db d job h =
      let (u, mid, ran, h1) = then-Answers _ _ db job d h in require-Tells scope id mid d job h1

pub has-some :
    (result : String) (o : Option StoredOutbox) → has_result result o ≡ true → is_some o ≡ true
unfolding has_result is_some
has-some result none h = absurd (ground arith)
has-some result (some o) h = refl

some-inj : {A : Type 0} (a b : A) → some a ≡ some b → a ≡ b
some-inj a b h = ground arith

selected :
    (p : OutboxRow → Bool) (rows : List OutboxRow)
    → is_some (outbox_view (select p rows)) ≡ true
    → exists p rows ≡ true
unfolding select exists is_some
selected p [] h = absurd (ground arith)
selected p (r ∷ rows) h = elim (Bool-cases (p r)) [
  | inl hit ↦ rw hit refl
  | inr miss ↦ rw miss (selected p rows (rw miss at h))
]

of_row :
    (scope id : String) (job : StoredJob) (db : Database) (o : Option JobRow)
    → select (is_job scope id) db.jobs ≡ o
    → some job ≡ view db o
    → is_some job.outbox ≡ true
    → exists (is_outbox scope id) db.outbox ≡ true
unfolding view
of_row scope id job db none e told h = absurd (ground arith)
of_row scope id job db (some row) e told h =
    let key = select_hit (is_job scope id) db.jobs e in
    let same_scope : row.scope_key ≡ scope = (eq_iff row.scope_key scope).0 (&&-left _ _ key) in
    let same_id : row.job_id ≡ id = (eq_iff row.job_id id).0 (&&-right _ _ key) in
    let outbox = ap (λ (j : StoredJob). j.outbox) (some-inj job _ told) in
    subst (λ x. exists (is_outbox scope x) db.outbox ≡ true) same_id
      (subst (λ x. exists (is_outbox x row.job_id) db.outbox ≡ true) same_scope
        (selected (is_outbox row.scope_key row.job_id) db.outbox
          (subst (λ o. is_some o ≡ true) outbox h)))

-- A job that is held with a result has a row in the outbox.
pub holds-outbox :
    (scope id : String) (job : StoredJob) (db : Database)
    → some job ≡ get scope id db
    → is_some job.outbox ≡ true
    → exists (is_outbox scope id) db.outbox ≡ true
unfolding get
holds-outbox scope id job db told h = of_row scope id job db _ refl told h

module _ {js : Runtime} {scope : String} (F : Frame js scope) where
  told_rest :
      (id : String) (f : StoredJob → D (Unit {0})) (c : Daemon) (r : Result StoredJob × Database)
      → ((job : StoredJob) → r ≡ (ok job, r.1) → some job ≡ get scope id r.1)
      → F.Rel c (record c { db = r.1 })
      → ((job : StoredJob) (c : Daemon) → some job ≡ get scope id c.db → F.Rel c (f job c).1)
      → F.Rel c (
          (elim (answer_of r.0) as (λ _. TurnResult (Unit {0}) × Daemon) [
            | done a ↦ f a (record c { db = r.1 })
            | failed e ↦ (failed e, record c { db = r.1 })
          ]).1)
  told_rest id f c (err e, d) tells s h = s
  told_rest id f c (ok job, d) tells s h =
      F.transitive c (record c { db = d }) _ s (h job (record c { db = d }) (tells job refl))

  -- What follows the call may go by the job that it tells.
  pub told-Keeps :
      (id : String) {m : M StoredJob} (f : StoredJob → D (Unit {0}))
      → IsCommand js scope m
      → Tells scope id m
      → ((job : StoredJob) (c : Daemon) → some job ≡ get scope id c.db → F.Rel c (f job c).1)
      → Keeps F (State.◌>>=◌ (call m) f)
  unfolding State.◌>>=◌ call
  told-Keeps id {m} f is_command tells h = keeps λ c.
      told_rest id f c (m c.db) (λ job e. tells c.db (m c.db).1 job e)
        (kept {F = F} (call-Keeps is_command) c) h
