-- ===== src/Store/Monad.antt =====
-- Calls on the database of src/state/store.ts: a call maps the database to a result or a thrown
-- error, together with the database that it leaves behind.
pub mod Moves
pub mod Inversion
use livis_chatgpt_bridge.Prelude.{ℕ, Bool, true, false, List, Option, none, some, if◌then◌else◌}
use livis_chatgpt_bridge.Store.Schema.{Database, JobRow, OutboxRow}
use livis_chatgpt_bridge.Store.Table.{update, changes}

pub data StoreError : Type 0 where
  job_not_found job_conflict pending_cancel_capacity attempt_context_missing : StoreError
  attempt_metadata_missing constraint_failed attempt_count_mismatch unsent_reset_failed : StoreError
  backend_session_conflict backend_session_missing claim_unread reservation_failed : StoreError
  session_clear_failed turn_binding_failed recovery_mark_failed quarantine_failed : StoreError
  quarantine_reason_empty release_count_mismatch : StoreError

pub data Result {ℓ} (A : Type ℓ) : Type ℓ where
  ok : A → Result A
  err : StoreError → Result A

abbrev pub M {ℓ} : Type ℓ → Type ℓ
M A = Database → Result A × Database

infixl 5 ◌>>=◌ ◌>>◌
unfoldable pub ◌>>=◌ {ℓ κ} : {A : Type ℓ} {B : Type κ} → M A → (A → M B) → M B
◌>>=◌ m f db = elim (m db).0 [ ok a ↦ f a (m db).1 | err e ↦ (err e, (m db).1) ]

unfoldable pub ◌>>◌ {ℓ κ} : {A : Type ℓ} {B : Type κ} → M A → M B → M B
unfolding ◌>>=◌
m >> k = m >>= λ _. k

unfoldable pub pure {ℓ} : {A : Type ℓ} → A → M A
pure a db = (ok a, db)

unfoldable pub throw {ℓ} : {A : Type ℓ} → StoreError → M A
throw e db = (err e, db)

-- A query.
unfoldable pub query {ℓ} : {A : Type ℓ} → (Database → A) → M A
query f db = (ok (f db), db)

-- A statement that writes.
unfoldable pub run : (Database → Database) → M (Unit {0})
run f db = (ok tt, f db)

-- `if (b) { m }`
unfoldable pub when : Bool → M (Unit {0}) → M (Unit {0})
unfolding pure
when b m = if b then m else pure tt

-- An INSERT that is refused with an error where the test holds.
unfoldable pub insert_unless : StoreError → (Database → Bool) → (Database → Database) → M (Unit {0})
insert_unless e refused f db = if refused db then (err e, db) else (ok tt, f db)

-- UPDATE jobs, whose WHERE clause may hold subqueries, with the number of changed rows.
unfoldable pub update_jobs : (Database → JobRow → Bool) → (JobRow → JobRow) → M ℕ
update_jobs p f db = (ok (changes (p db) db.jobs), record db { jobs = update (p db) f db.jobs })

-- UPDATE outbox.
unfoldable pub update_outbox :
    (Database → OutboxRow → Bool) → (Database → OutboxRow → OutboxRow) → M ℕ
update_outbox p f db =
    (ok (changes (p db) db.outbox), record db { outbox = update (p db) (f db) db.outbox })

-- `database.transaction(m).immediate()`: an error that is thrown inside rolls every write back.
unfoldable pub transaction {ℓ} : {A : Type ℓ} → M A → M A
transaction m db = elim (m db).0 [ ok a ↦ (ok a, (m db).1) | err e ↦ (err e, db) ]
