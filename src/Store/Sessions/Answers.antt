-- ===== src/Store/Sessions/Answers.antt =====
-- What a call that has succeeded did to backend sessions, and what it answers of a job.
use livis_chatgpt_bridge.Prelude.{
  ℕ, ◌≡◌, sym, ap, ◌∙◌, Bool, true, false, Option, none, some, String, arith, if◌then◌else◌,
}
use livis_chatgpt_bridge.Types.{StoredBackendSession, StoredJob}
use livis_chatgpt_bridge.Store.Schema.{Database, Runtime}
use livis_chatgpt_bridge.Store.Table.{update, changes}
use livis_chatgpt_bridge.Store.Monad.{Result, ok, err, StoreError}
use livis_chatgpt_bridge.Store.Monad.Inversion.{
  Answers, bind-Answers, pure-Answers, query-Answers, throw-Answers,
}
use livis_chatgpt_bridge.Store.Reads.{require, get, found}
use livis_chatgpt_bridge.Store.Jobs.{require_if}
use livis_chatgpt_bridge.Store.Sessions.Table.{Triggers, update_sessions}

let_through :
    (b : Bool) (e : StoreError) (db done : Database) (m n : ℕ) (d : Database)
    → (if◌then◌else◌ {A = Result ℕ × Database} b (err e, db) (ok m, done)) ≡ (ok n, d)
    → (n ≡ m) × (d ≡ done)
let_through true e db done m n d h = absurd (ground arith)
let_through false e db done m n d h = ground arith

pub update_sessions-Answers :
    (triggers : Triggers) (p : Database → StoredBackendSession → Bool)
    (f : StoredBackendSession → StoredBackendSession) (db : Database) (n : ℕ) (d : Database)
    → Answers (update_sessions triggers p f) db n d
    → (n ≡ changes (p db) db.backend_sessions)
      × (d ≡ record db { backend_sessions = update (p db) f db.backend_sessions })
unfolding update_sessions
update_sessions-Answers triggers p f db n d h = let_through _ _ db _ _ n d h

pub found-Answers :
    (o : Option StoredJob) (db : Database) (job : StoredJob) (d : Database)
    → Answers (found o) db job d
    → (o ≡ some job) × (d ≡ db)
unfolding found
found-Answers none db job d h = absurd (throw-Answers _ db job d h)
found-Answers (some j) db job d h = let (a, b) = pure-Answers j job db d h in (ap some (sym a), b)

pub require_if-Answers :
    (js : Runtime) (scope job_id : String) (done : Bool) (db : Database) (o : Option StoredJob)
    (d : Database)
    → Answers (require_if js scope job_id done) db o d
    → (d ≡ db) × (o ≡ (if done then get scope job_id db else none))
unfolding require_if require
require_if-Answers js scope job_id true db o d h =
    let (job, mid, asked, h1) = bind-Answers _ _ db o d h in
    let (row, same, read, h2) = bind-Answers _ _ db job mid asked in
    let (r, s) = query-Answers _ db row same read in
    let (f, g) = found-Answers row same job mid h2 in
    let (x, y) = pure-Answers (some job) o mid d h1 in (y ∙ g ∙ s, x ∙ sym f ∙ r)
require_if-Answers js scope job_id false db o d h =
    let (x, y) = pure-Answers none o db d h in (y, x)
