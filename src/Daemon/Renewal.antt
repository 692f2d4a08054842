-- ===== src/Daemon/Renewal.antt =====
-- A claim of src/daemon.ts gives the job a new generation.
use livis_chatgpt_bridge.Prelude.{
  ℕ, suc, ◌≡◌, refl, ◌∙◌, ap, inl, inr, true, some, String, arith, str_eq,
}
use livis_chatgpt_bridge.Types.{StoredJob, is_hermes, backend_name}
use livis_chatgpt_bridge.Store.Schema.{Runtime, Database, JobRow, is_job}
use livis_chatgpt_bridge.Store.Table.{select, AtMostOne, select_hit}
use livis_chatgpt_bridge.Store.Monad.Inversion.{Answers, if-Answers}
use livis_chatgpt_bridge.Store.Reads.{get, view}
use livis_chatgpt_bridge.Store.Jobs.{claimed_row, claim_for_dispatch}
use livis_chatgpt_bridge.Store.Sessions.Table.{is_backend_session}
use livis_chatgpt_bridge.Store.Sessions.Turns.{claim_for_backend_dispatch}
use livis_chatgpt_bridge.Store.Sessions.Claim.{claim_for_backend_dispatch-Claimed}
use livis_chatgpt_bridge.Store.Claim.{claim_for_dispatch-Taken}
use livis_chatgpt_bridge.Daemon.State.{Config, Moment}
use livis_chatgpt_bridge.Daemon.Dispatch.{claim}

-- The row of the job, before and after, where the generation is one higher; the answer has both the
-- id and the generation.
pub record Renewed (scope id : String) (db d : Database) (job : StoredJob) : Type 0 where
  pub row : JobRow
  pub renewed : JobRow
  pub before : select (is_job scope id) db.jobs ≡ some row
  pub after : select (is_job scope id) d.jobs ≡ some renewed
  pub higher : renewed.run_generation ≡ suc row.run_generation
  pub generation : job.run_generation ≡ renewed.run_generation
  pub same_id : str_eq job.input.job_id id ≡ true

some-inj : {A : Type 0} (a b : A) → some a ≡ some b → a ≡ b
some-inj a b h = ground arith

key_id : (scope id : String) (r : JobRow) → is_job scope id r ≡ true → str_eq r.job_id id ≡ true
key_id scope id r h = ground arith

-- What is read of the row.
read_of :
    (scope id : String) (db d : Database) (job : StoredJob) (row renewed : JobRow)
    → select (is_job scope id) db.jobs ≡ some row
    → select (is_job scope id) d.jobs ≡ some renewed
    → renewed.run_generation ≡ suc row.run_generation
    → some job ≡ get scope id d
    → Renewed scope id db d job
unfolding get view
read_of scope id db d job row renewed before after higher told =
    let hit : is_job scope id renewed ≡ true = select_hit (is_job scope id) d.jobs after in
    let same = some-inj job _ (told ∙ ap (view d) after) in
    record {
      row = row;
      renewed = renewed;
      before = before;
      after = after;
      higher = higher;
      generation = ap (λ (j : StoredJob). j.run_generation) same;
      same_id = ap (λ (j : StoredJob). str_eq j.input.job_id id) same ∙ key_id scope id renewed hit;
    }

module _ (js : Runtime) (scope id : String) where
  hermes-Renewed :
      (connector lease : String) (now : ℕ) (db d : Database) (job : StoredJob)
      → AtMostOne (is_job scope id) db.jobs
      → Answers (claim_for_dispatch js scope id connector lease now) db (some job) d
      → Renewed scope id db d job
  hermes-Renewed connector lease now db d job keyed h =
      elim (claim_for_dispatch-Taken js scope id connector lease now db d (some job) keyed h) [
        | inl (nothing, same, unfit) ↦ absurd (ground arith)
        | inr (told, t) ↦ read_of scope id db d job t.row _ t.before t.after refl told
      ]

  backend-Renewed :
      (backend connector lease : String) (now : ℕ) (db d : Database) (job : StoredJob)
      → AtMostOne (is_job scope id) db.jobs
      → ((session : String)
          → AtMostOne (is_backend_session scope backend session) db.backend_sessions)
      → Answers (claim_for_backend_dispatch js scope id backend connector lease now) db (some job) d
      → Renewed scope id db d job
  unfolding claimed_row
  backend-Renewed backend connector lease now db d job keyed sessions h =
      elim (claim_for_backend_dispatch-Claimed js scope id backend connector lease now db d
        (some job) keyed sessions h) [
          | inl (nothing, same) ↦ absurd (ground arith)
          | inr (told, c) ↦
              read_of scope id db d job c.job (claimed_row connector lease now c.job) c.job_before
                c.job_after refl told
        ]

-- A claim that answers a job, on tables with their primary keys, has made the job's generation one
-- higher, in the store and in the answer.
pub claim-Renewed :
    (js : Runtime) (scope : String) (g : Config) (m : Moment) (id execution lease : String)
    (db d : Database) (job : StoredJob)
    → AtMostOne (is_job scope id) db.jobs
    → ((session : String)
        → AtMostOne (is_backend_session scope (backend_name g.backend) session) db.backend_sessions)
    → Answers (claim js scope g m id execution lease) db (some job) d
    → Renewed scope id db d job
unfolding claim
claim-Renewed js scope g m id execution lease db d job keyed sessions h =
    elim (if-Answers (is_hermes g.backend) _ _ db (some job) d h) [
      | inl (t, k) ↦ hermes-Renewed js scope id execution lease m.now db d job keyed k
      | inr (t, k) ↦
          backend-Renewed js scope id (backend_name g.backend) execution lease m.now db d job keyed
            sessions k
    ]
