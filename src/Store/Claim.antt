-- ===== src/Store/Claim.antt =====
-- `claimForDispatch` of src/state/store.ts takes a job that may be taken.
use livis_chatgpt_bridge.Prelude.{
  ℕ, suc, ◌≡◌, refl, sym, subst, ◌∙◌, ap, ◌⊎◌, inl, inr, Bool, true, false, not, ◌&&◌, &&-left,
  &&-right, Option, none, some, String, List, [], ◌∷◌, Bool-cases, All, All-map, ◌==◌, arith,
  if◌then◌else◌,
}
use text.Mathlib.TextEquality.{eq_iff}
use livis_chatgpt_bridge.Types.{
  StoredJob, JobStatus, received, acked, dispatching, ExecutionBackendKind, hermes, codex, claude,
  reserved, is_hermes, is_waiting, is_active,
}
use livis_chatgpt_bridge.Store.Schema.{Runtime, Database, JobRow, QuarantineRow, is_job, is_session}
use livis_chatgpt_bridge.Store.Table.{
  select, update, changes, AtMostOne, select-update_hit, exists, exists_false, changes-key,
}
use livis_chatgpt_bridge.Store.Table.Single.{changed_row, unchanged, to_one}
use livis_chatgpt_bridge.Store.Monad.Moves.{Moves, bind-Moves}
use livis_chatgpt_bridge.Store.Monad.Inversion.{
  Answers, Answers-Moves, bind-Answers, then-Answers, transaction-Answers, if-Answers, pure-Answers,
  update_jobs-Answers,
}
use livis_chatgpt_bridge.Store.Reads.{get}
use livis_chatgpt_bridge.Store.Ledger.Appends.{append-SameRows, same_rows, require-Moves}
use livis_chatgpt_bridge.Store.Jobs.{
  claimed_row, claimable, is_free, claim_transaction, claim_for_dispatch, append_current,
}
use livis_chatgpt_bridge.Store.Sessions.Answers.{require_if-Answers}
use livis_chatgpt_bridge.Store.Invariant.Sessions.{blocks, free-All, unblocked}

-- What a job has to be to be claimed.
pub record Claimable (db : Database) (row : JobRow) : Type 0 where
  pub for_hermes : row.target_backend ≡ hermes
  pub waiting : (row.status ≡ received) ⊎ (row.status ≡ acked)
  pub not_cancelled : row.cancel_requested ≡ false
  pub alone :
      All
        (λ (a : JobRow).
          is_active a.status ≡ true
          → a.scope_key ≡ row.scope_key
          → a.session_key ≡ row.session_key
          → a.job_id ≡ row.job_id)
        db.jobs
  pub not_quarantined :
      All
        (λ (q : QuarantineRow). q.scope_key ≡ row.scope_key → q.session_key ≡ row.session_key → ⊥)
        db.session_quarantine

-- The job row that was claimed, and the row after.
pub record Taken (scope id connector lease : String) (now : ℕ) (db d : Database) : Type 0 where
  pub row : JobRow
  pub before : select (is_job scope id) db.jobs ≡ some row
  pub claimable_row : Claimable db row
  pub after :
      select (is_job scope id) d.jobs
      ≡ some (record row {
        status = dispatching;
        connector_id = some connector;
        lease_id = some lease;
        run_generation = suc row.run_generation;
        updated_at = now;
      })

hermes_only : (b : ExecutionBackendKind) → is_hermes b ≡ true → b ≡ hermes
hermes_only hermes h = refl
hermes_only codex h = absurd (ground arith)
hermes_only claude h = absurd (ground arith)

waits : (s : JobStatus) → is_waiting s ≡ true → (s ≡ received) ⊎ (s ≡ acked)
waits received h = inl refl
waits acked h = inr refl
waits JobStatus.dispatching h = absurd (ground arith)
waits JobStatus.running h = absurd (ground arith)
waits JobStatus.cancelling h = absurd (ground arith)
waits JobStatus.succeeded h = absurd (ground arith)
waits JobStatus.cancelled h = absurd (ground arith)
waits JobStatus.cancel_unknown h = absurd (ground arith)
waits JobStatus.interrupted h = absurd (ground arith)
waits JobStatus.failed h = absurd (ground arith)
waits JobStatus.rejected h = absurd (ground arith)

off : (b : Bool) → not b ≡ true → b ≡ false
off b h = ground arith

apart :
    (scope session : String) (q : QuarantineRow)
    → is_session scope session q ≡ false
    → q.scope_key ≡ scope
    → q.session_key ≡ session
    → ⊥
apart scope session q h same_scope same_session =
    ground (
      arith,
      (eq_iff q.scope_key scope).1 same_scope,
      (eq_iff q.session_key session).1 same_session,
    )

apart_back :
    (scope session : String) (q : QuarantineRow)
    → (q.scope_key ≡ scope → q.session_key ≡ session → ⊥)
    → is_session scope session q ≡ false
apart_back scope session q h = elim (Bool-cases (is_session scope session q)) [
  | inl hit ↦ absurd (
      h ((eq_iff q.scope_key scope).0 (&&-left _ _ hit))
        ((eq_iff q.session_key session).0 (&&-right _ _ hit)))
  | inr miss ↦ miss
]

blocks_back :
    (r a : JobRow)
    → (is_active a.status ≡ true
        → a.scope_key ≡ r.scope_key
        → a.session_key ≡ r.session_key
        → a.job_id ≡ r.job_id)
    → blocks r a ≡ false
blocks_back r a h = elim (Bool-cases (blocks r a)) [
  | inl hit ↦
      let same =
        h (ground arith) ((eq_iff a.scope_key r.scope_key).0 (ground arith))
          ((eq_iff a.session_key r.session_key).0 (ground arith)) in
      absurd (ground (arith, (eq_iff a.job_id r.job_id).1 same))
  | inr miss ↦ miss
]

exists_none :
    {A : Type 0} (p : A → Bool) (rows : List A)
    → All (λ r. p r ≡ false) rows
    → exists p rows ≡ false
unfolding exists
exists_none p [] h = refl
exists_none p (r ∷ rows) h = rw (h.0, exists_none p rows h.1) refl

-- The condition of the WHERE clause on a row.
abbrev test : Database → JobRow → Bool
test db r =
    is_hermes r.target_backend && is_waiting r.status && not r.cancel_requested && is_free db r

test-Claimable : (db : Database) (r : JobRow) → test db r ≡ true → Claimable db r
test-Claimable db r t =
    let free : is_free db r ≡ true = ground arith in
    record {
      for_hermes = hermes_only r.target_backend (ground arith);
      waiting = waits r.status (ground arith);
      not_cancelled = ground arith;
      alone = All-map db.jobs (λ a h. unblocked r a h) (free-All db r free);
      not_quarantined =
          All-map db.session_quarantine (λ q h. apart r.scope_key r.session_key q h)
            (exists_false _ db.session_quarantine (off _ (&&-right _ _ free)));
    }

waits_back : (s : JobStatus) → (s ≡ received) ⊎ (s ≡ acked) → is_waiting s ≡ true
waits_back s (inl e) = rw e refl
waits_back s (inr e) = rw e refl

Claimable-test : (db : Database) (r : JobRow) → Claimable db r → test db r ≡ true
Claimable-test db r c =
    let alone =
      exists_none (blocks r) db.jobs (All-map db.jobs (λ a h. blocks_back r a h) c.alone) in
    let kept = exists_none (is_session r.scope_key r.session_key) db.session_quarantine (
      All-map db.session_quarantine (λ q h. apart_back r.scope_key r.session_key q h)
        c.not_quarantined) in
    rw (c.for_hermes, waits_back r.status c.waiting, c.not_cancelled, alone, kept) refl

module _ (js : Runtime) (scope id connector lease : String) (now : ℕ) where
  current-SameRows : Moves same_rows (append_current js scope id reserved none now)
  unfolding append_current
  current-SameRows = bind-Moves (require-Moves same_rows scope id) λ job. append-SameRows js scope _

  abbrev claimed_jobs : Database → Database
  claimed_jobs db = record db {
    jobs = update (claimable js scope id db) (claimed_row connector lease now) db.jobs;
  }

  -- The transaction has changed one row.
  taken :
      (db mid d : Database)
      → AtMostOne (is_job scope id) db.jobs
      → changes (claimable js scope id db) db.jobs ≡ 1
      → mid ≡ claimed_jobs db
      → d.jobs ≡ mid.jobs
      → Taken scope id connector lease now db d
  unfolding claimable claimed_row
  taken db mid d keyed one rows kept =
      let (r, e, t) = changed_row (is_job scope id) _ db.jobs keyed one in
      record {
        row = r;
        before = e;
        claimable_row = test-Claimable db r t;
        after =
            ap (select (is_job scope id)) (kept ∙ ap (λ (x : Database). x.jobs) rows)
            ∙ select-update_hit (is_job scope id) _ (claimed_row connector lease now) db.jobs r
                (λ x. refl) e t;
      }

  -- No job with the id may be claimed.
  Refused : Database → Type 0
  Refused db = (r : JobRow) → select (is_job scope id) db.jobs ≡ some r → Claimable db r → ⊥

  refused :
      (db : Database)
      → AtMostOne (is_job scope id) db.jobs
      → (changes (claimable js scope id db) db.jobs == 1) ≡ false
      → Refused db
  unfolding Refused claimable
  refused db keyed other r e c =
      let one : changes (claimable js scope id db) db.jobs ≡ 1 =
        changes-key (is_job scope id) (test db) db.jobs keyed
        ∙ rw (e, Claimable-test db r c) refl in
      absurd (ground (arith, one))

  transaction-Taken :
      (db d : Database) (done : Bool)
      → AtMostOne (is_job scope id) db.jobs
      → Answers (claim_transaction js scope id connector lease now) db done d
      → (done ≡ false) × (d ≡ db) × Refused db
        ⊎ (done ≡ true) × Taken scope id connector lease now db d
  unfolding claim_transaction claimable
  transaction-Taken db d done keyed h =
      let (n, mid, changed, h1) = bind-Answers _ _ db done d h in
      let (count, rows) = update_jobs-Answers _ _ db n mid changed in
      elim (if-Answers (n == 1) _ _ mid done d h1) [
        | inl (single, h2) ↦
            let (u, last, appended, h3) = then-Answers _ _ mid done d h2 in
            let kept = Answers-Moves same_rows _ mid u last current-SameRows appended in
            let (passed, at_end) = pure-Answers true done last d h3 in
            inr (
              passed,
              taken db mid d keyed (sym count ∙ to_one n single) rows
                  (ap (λ (x : Database). x.jobs) at_end ∙ kept.jobs),
            )
        | inr (other, h2) ↦
            let (missed, same) = pure-Answers false done mid d h2 in
            inl (
              missed,
              same
                  ∙ rows
                  ∙ ap (λ (j : List JobRow). record db { jobs = j })
                      (unchanged (is_job scope id) _ (claimed_row connector lease now) db.jobs keyed
                        (subst (λ k. (k == 1) ≡ false) count other)),
              refused db keyed (subst (λ k. (k == 1) ≡ false) count other),
            )
      ]

-- A Hermes claim that answers, on a table of jobs with its primary key, takes the job exactly if it
-- may be taken: it is for Hermes, Received or Acked and not cancelled, no other job of its session is
-- active and its session is not quarantined. Then the job is Dispatching under the connector and the
-- lease, with a generation one higher and the rest of its row as it was, and is answered. Otherwise
-- the answer is null and nothing is changed.
pub claim_for_dispatch-Taken :
    (js : Runtime) (scope id connector lease : String) (now : ℕ) (db d : Database)
    (answer : Option StoredJob)
    → AtMostOne (is_job scope id) db.jobs
    → Answers (claim_for_dispatch js scope id connector lease now) db answer d
    → (answer ≡ none)
        × (d ≡ db)
        × ((r : JobRow) → select (is_job scope id) db.jobs ≡ some r → Claimable db r → ⊥)
      ⊎ (answer ≡ get scope id d) × Taken scope id connector lease now db d
unfolding claim_for_dispatch Refused
claim_for_dispatch-Taken js scope id connector lease now db d answer keyed h =
    let (done, mid, ran, h1) = bind-Answers _ _ db answer d h in
    let (same, told) = require_if-Answers js scope id done mid answer d h1 in
    elim (transaction-Taken js scope id connector lease now db mid done keyed
      (transaction-Answers _ db done mid ran)) [
        | inl (stopped, kept, unfit) ↦
            inl (told ∙ ap (λ x. if x then get scope id mid else none) stopped, same ∙ kept, unfit)
        | inr (passed, t) ↦ inr (
          told
              ∙ ap (λ x. if x then get scope id mid else none) passed
              ∙ ap (get scope id) (sym same),
          subst (Taken scope id connector lease now db) (sym same) t,
        )
      ]
