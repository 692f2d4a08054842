-- ===== src/Store/Sessions/Claim.antt =====
-- `claimForBackendDispatch` of src/state/store.ts takes the job and its session together.
use livis_chatgpt_bridge.Prelude.{
  ℕ, suc, ◌≡◌, refl, sym, ap, ◌∙◌, ◌⊎◌, inl, inr, Bool, true, false, not, ◌&&◌, List, Option, none,
  some, String, ◌==◌, arith, if◌then◌else◌, subst,
}
use livis_chatgpt_bridge.Types.{StoredBackendSession, StoredJob}
use livis_chatgpt_bridge.Store.Schema.{Database, JobRow, Runtime, is_job}
use livis_chatgpt_bridge.Store.Table.{
  select, update, changes, AtMostOne, select-update_hit, AtMostOne-update_where,
}
use livis_chatgpt_bridge.Store.Table.Single.{changed_row, select-narrow, unchanged, to_one}
use livis_chatgpt_bridge.Store.Sessions.Answers.{update_sessions-Answers, require_if-Answers}
use livis_chatgpt_bridge.Store.Monad.{M, ◌>>=◌, pure, query}
use livis_chatgpt_bridge.Store.Monad.Inversion.{
  Answers, Answers-Moves, bind-Answers, then-Answers, transaction-Answers, if-Answers, pure-Answers,
  query-Answers, throw-Answers, unless-Answers, update_jobs-Answers,
}
use livis_chatgpt_bridge.Store.Reads.{get}
use livis_chatgpt_bridge.Store.Ledger.{is_null}
use livis_chatgpt_bridge.Store.Ledger.Appends.{SameRows, append-SameRows, same_rows}
use livis_chatgpt_bridge.Store.Jobs.{claimed_row, is_free}
use livis_chatgpt_bridge.Store.Sessions.Table.{is_backend_session}
use livis_chatgpt_bridge.Store.Sessions.Attempt.{reserved_session}
use livis_chatgpt_bridge.Store.Sessions.Turns.{
  can_take, backend_claimable, is_claimed, reserve_update, reserve_session,
  backend_claim_transaction, claim_for_backend_dispatch,
}

-- What a claim has made of the database.
pub record Claimed (scope job_id backend connector lease : String) (now : ℕ) (db d : Database)
    : Type 0 where
  pub job : JobRow
  pub session : StoredBackendSession
  pub job_before : select (is_job scope job_id) db.jobs ≡ some job
  pub session_before :
      select (is_backend_session scope backend job.session_key) db.backend_sessions ≡ some session
  pub idle : session.active_job_id ≡ none
  pub safe : session.recovery_required ≡ false
  pub free : is_free db job ≡ true
  pub job_after : select (is_job scope job_id) d.jobs ≡ some (claimed_row connector lease now job)
  pub session_after :
      select (is_backend_session scope backend job.session_key) d.backend_sessions
      ≡ some (reserved_session job_id lease (suc job.run_generation) now session)

not-false : (b : Bool) → not b ≡ false → b ≡ true
not-false b h = ground arith

null-none : {A : Type 0} (o : Option A) → is_null o ≡ true → o ≡ none
null-none none h = refl
null-none (some a) h = absurd (ground arith)

module _ (js : Runtime) (scope job_id backend connector lease : String) (now : ℕ) where
  reserve-Answers :
      (attempt : Option JobRow) (db d : Database) (b : Bool)
      → Answers (reserve_session js scope job_id backend lease now attempt) db b d
      → (a : JobRow) × (attempt ≡ some a)
        × (b ≡ true)
        × (mid : Database) × (n : ℕ) × Answers
            (reserve_update js scope job_id backend lease a now)
            db
            n
            mid
        × ((n == 1) ≡ true)
        × SameRows mid d
  unfolding reserve_session
  reserve-Answers none db d b h = absurd (throw-Answers _ db b d h)
  reserve-Answers (some a) db d b h =
      let (n, mid, taken, h1) = bind-Answers _ _ db b d h in
      let (u, same, guard, h2) = then-Answers _ _ mid b d h1 in
      let (v, last, event, h3) = then-Answers _ _ same b d h2 in
      (
        a,
        refl,
        (pure-Answers true b last d h3).0,
        mid,
        n,
        taken,
        not-false _ (unless-Answers _ _ mid u same guard).0,
        rw ((pure-Answers true b last d h3).1, sym (unless-Answers _ _ mid u same guard).1)
            (Answers-Moves same_rows _ same v last (append-SameRows js scope _) event),
      )

some-inj : {A : Type 0} (a b : A) → some a ≡ some b → a ≡ b
some-inj a b h = ground arith

module _ (js : Runtime) (scope job_id backend connector lease : String) (now : ℕ) where
  abbrev claimed_jobs : Database → Database
  claimed_jobs db = record db {
    jobs =
        update (backend_claimable js scope job_id backend db) (claimed_row connector lease now)
          db.jobs;
  }

  -- The attempt that is read back is the claimed row.
  read_back :
      (db : Database) (r a : JobRow)
      → AtMostOne (is_job scope job_id) db.jobs
      → select (is_job scope job_id) (claimed_jobs db).jobs
        ≡ some (claimed_row connector lease now r)
      → some a ≡ select (is_claimed js scope job_id lease) (claimed_jobs db).jobs
      → a ≡ claimed_row connector lease now r
  unfolding claimed_row
  read_back db r a keyed e h = some-inj a _ (
      sym (
        select-narrow (is_job scope job_id) _ (claimed_jobs db).jobs a
          (AtMostOne-update_where (is_job scope job_id)
            (backend_claimable js scope job_id backend db) (claimed_row connector lease now) db.jobs
            (λ x t. refl) keyed)
          (sym h))
      ∙ e)

  -- The reservation of the session of the claimed row.
  reserved-Claimed :
      (db d last : Database) (r : JobRow) (n : ℕ)
      → AtMostOne (is_backend_session scope backend r.session_key) db.backend_sessions
      → select (is_job scope job_id) db.jobs ≡ some r
      → can_take js scope backend db r ≡ true
      → select (is_job scope job_id) (claimed_jobs db).jobs
        ≡ some (claimed_row connector lease now r)
      → Answers
          (reserve_update js scope job_id backend lease (claimed_row connector lease now r) now)
          (claimed_jobs db)
          n
          last
      → (n == 1) ≡ true
      → SameRows last d
      → Claimed scope job_id backend connector lease now db d
  unfolding reserve_update claimed_row
  reserved-Claimed db d last r n keyed e t after taken single kept =
      let (count, rows) = update_sessions-Answers _ _ _ (claimed_jobs db) n last taken in
      let (s, before, fits) =
        changed_row (is_backend_session scope backend r.session_key) is_open db.backend_sessions
          keyed (sym count ∙ to_one n single) in
      record {
        job = r;
        session = s;
        job_before = e;
        session_before = before;
        idle = null-none s.active_job_id (ground arith);
        safe = ground arith;
        free = ground arith;
        job_after =
            ap (select (is_job scope job_id)) (kept.jobs ∙ ap (λ (x : Database). x.jobs) rows)
            ∙ after;
        session_after =
            ap (select (is_backend_session scope backend r.session_key))
              (kept.backend_sessions ∙ ap (λ (x : Database). x.backend_sessions) rows)
            ∙ select-update_hit (is_backend_session scope backend r.session_key) is_open
                (reserved_session job_id lease (suc r.run_generation) now) db.backend_sessions s
                (λ x. refl) before fits;
      }
    where
      is_open : StoredBackendSession → Bool
      is_open s = not (is_null s.thread_id) && is_null s.active_job_id && not s.recovery_required

  taken-Answers :
      (db d : Database) (b : Bool)
      → AtMostOne (is_job scope job_id) db.jobs
      → ((session : String)
          → AtMostOne (is_backend_session scope backend session) db.backend_sessions)
      → changes (backend_claimable js scope job_id backend db) db.jobs ≡ 1
      → Answers
          (query (λ x. select (is_claimed js scope job_id lease) x.jobs)
            >>= reserve_session js scope job_id backend lease now)
          (claimed_jobs db)
          b
          d
      → (b ≡ true) × Claimed scope job_id backend connector lease now db d
  unfolding backend_claimable reserve_update claimed_row
  taken-Answers db d b keyed sessions one h =
      let (r, e, t) =
        changed_row (is_job scope job_id) (can_take js scope backend db) db.jobs keyed one in
      let after : select (is_job scope job_id) (claimed_jobs db).jobs
          ≡ some (claimed_row connector lease now r) =
        select-update_hit (is_job scope job_id) (can_take js scope backend db)
          (claimed_row connector lease now) db.jobs r (λ x. refl) e t in
      let (o, mid, asked, h1) = bind-Answers _ _ (claimed_jobs db) b d h in
      let (found_row, same) = query-Answers _ (claimed_jobs db) o mid asked in
      let (a, attempt, answer, last, n, update_done, single, kept) =
        reserve-Answers js scope job_id backend connector lease now o mid d b h1 in
      let is_row : a ≡ claimed_row connector lease now r =
        read_back db r a keyed after (sym attempt ∙ found_row) in
      (
        answer,
        reserved-Claimed db d last r n (sessions r.session_key) e t after
            (subst
              (λ x.
                Answers (reserve_update js scope job_id backend lease x now) (claimed_jobs db) n
                  last)
              is_row
              (subst (λ x. Answers (reserve_update js scope job_id backend lease a now) x n last)
                same update_done))
            single kept,
      )

  claim-Answers :
      (db d : Database) (b : Bool)
      → AtMostOne (is_job scope job_id) db.jobs
      → ((session : String)
          → AtMostOne (is_backend_session scope backend session) db.backend_sessions)
      → Answers (backend_claim_transaction js scope job_id backend connector lease now) db b d
      → (b ≡ false) × (d ≡ db) ⊎ (b ≡ true) × Claimed scope job_id backend connector lease now db d
  unfolding backend_claim_transaction backend_claimable
  claim-Answers db d b keyed sessions h =
      let (n, mid, claimed, h1) = bind-Answers _ _ db b d h in
      let (count, rows) = update_jobs-Answers _ _ db n mid claimed in
      outcome n mid count rows (if-Answers (n == 1) _ _ mid b d h1)
    where
      claim_rest : M Bool
      claim_rest =
          query (λ x. select (is_claimed js scope job_id lease) x.jobs)
          >>= reserve_session js scope job_id backend lease now

      outcome :
          (n : ℕ) (mid : Database)
          → n ≡ changes (backend_claimable js scope job_id backend db) db.jobs
          → mid ≡ claimed_jobs db
          → ((n == 1) ≡ true) × Answers claim_rest mid b d
            ⊎ ((n == 1) ≡ false) × Answers (pure false) mid b d
          → (b ≡ false) × (d ≡ db)
            ⊎ (b ≡ true) × Claimed scope job_id backend connector lease now db d
      outcome n mid count rows (inl (single, h2)) = inr (
          taken-Answers db d b keyed sessions (sym count ∙ to_one n single)
            (subst (λ x. Answers claim_rest x b d) rows h2))
      outcome n mid count rows (inr (other, h2)) =
          let (x, y) = pure-Answers false b mid d h2 in
          inl (
            x,
            y
                ∙ rows
                ∙ ap (λ (j : List JobRow). record db { jobs = j })
                    (unchanged (is_job scope job_id) (can_take js scope backend db)
                      (claimed_row connector lease now) db.jobs keyed
                      (subst (λ k. (k == 1) ≡ false) count other)),
          )

pub claim_for_backend_dispatch-Claimed :
    (js : Runtime) (scope job_id backend connector lease : String) (now : ℕ) (db d : Database)
    (answer : Option StoredJob)
    → AtMostOne (is_job scope job_id) db.jobs
    → ((session : String)
        → AtMostOne (is_backend_session scope backend session) db.backend_sessions)
    → Answers (claim_for_backend_dispatch js scope job_id backend connector lease now) db answer d
    → (answer ≡ none) × (d ≡ db)
      ⊎ (answer ≡ get scope job_id d) × Claimed scope job_id backend connector lease now db d
unfolding claim_for_backend_dispatch
claim_for_backend_dispatch-Claimed js scope job_id backend connector lease now db d answer keyed
      sessions h =
    let (done, mid, ran, h1) = bind-Answers _ _ db answer d h in
    let (same, told) = require_if-Answers js scope job_id done mid answer d h1 in
    outcome done mid same told (
      claim-Answers js scope job_id backend connector lease now db mid done keyed sessions
        (transaction-Answers _ db done mid ran))
  where
    outcome :
        (done : Bool) (mid : Database)
        → d ≡ mid
        → answer ≡ (if done then get scope job_id mid else none)
        → (done ≡ false) × (mid ≡ db)
          ⊎ (done ≡ true) × Claimed scope job_id backend connector lease now db mid
        → (answer ≡ none) × (d ≡ db)
          ⊎ (answer ≡ get scope job_id d) × Claimed scope job_id backend connector lease now db d
    outcome done mid same told (inl (refused, kept)) =
        inl (told ∙ ap (λ x. if x then get scope job_id mid else none) refused, same ∙ kept)
    outcome done mid same told (inr (taken, claimed)) = inr (
      told
          ∙ ap (λ x. if x then get scope job_id mid else none) taken
          ∙ ap (get scope job_id) (sym same),
      subst (Claimed scope job_id backend connector lease now db) (sym same) claimed,
    )
