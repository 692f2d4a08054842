-- ===== src/Store/Monad/Moves.antt =====
-- A call moves the database along a preorder when each of its parts does: the rules by which the
-- invariants of the store are proved of its operations.
use livis_chatgpt_bridge.Prelude.{◌≡◌, refl, Bool, true, false, if◌then◌else◌}
use livis_chatgpt_bridge.Store.Schema.{Database, JobRow, OutboxRow}
use livis_chatgpt_bridge.Store.Table.{update}
use livis_chatgpt_bridge.Store.Monad.{
  Result, ok, err, StoreError, M, ◌>>=◌, ◌>>◌, pure, throw, query, run, when, update_jobs,
  update_outbox, transaction, insert_unless,
}

pub record Preorder : Type 1 where
  pub Rel : Database → Database → Type 0
  pub reflexive : (db : Database) → Rel db db
  pub transitive : (a b c : Database) → Rel a b → Rel b c → Rel a c

pub data Moves {ℓ} (R : Preorder) {A : Type ℓ} (m : M A) : Type ℓ where
  moves : ((db : Database) → R.Rel db (m db).1) → Moves R m

pub moved {ℓ} :
    {R : Preorder} {A : Type ℓ} {m : M A} → Moves R m → (db : Database) → R.Rel db (m db).1
moved (moves h) = h

module _ {ℓ κ} {R : Preorder} {A : Type ℓ} {B : Type κ} where
  after :
      (f : A → M B) (db mid : Database) (r : Result A)
      → ((a : A) → Moves R (f a))
      → R.Rel db mid
      → R.Rel db
          ((elim r as (λ _. Result B × Database) [ ok a ↦ f a mid | err e ↦ (err e, mid) ]).1)
  after f db mid (ok a) h s = R.transitive db mid (f a mid).1 s (moved (h a) mid)
  after f db mid (err e) h s = s

  pub bind-Moves :
      {m : M A} {f : A → M B} → Moves R m → ((a : A) → Moves R (f a)) → Moves R (m >>= f)
  unfolding ◌>>=◌
  bind-Moves {m} {f} hm hf = moves λ db. after f db (m db).1 (m db).0 hf (moved hm db)

  pub then-Moves : {m : M A} {k : M B} → Moves R m → Moves R k → Moves R (m >> k)
  unfolding ◌>>◌
  then-Moves hm hk = bind-Moves hm (λ _. hk)

committed {ℓ} :
    {A : Type ℓ} (R : Preorder) (db mid : Database) (r : Result A)
    → R.Rel db mid
    → R.Rel db
        ((elim r as (λ _. Result A × Database) [ ok a ↦ (ok a, mid) | err e ↦ (err e, db) ]).1)
committed R db mid (ok a) s = s
committed R db mid (err e) s = R.reflexive db

module _ {ℓ} {R : Preorder} {A : Type ℓ} where
  pub pure-Moves : (a : A) → Moves R (pure a)
  unfolding pure
  pure-Moves a = moves R.reflexive

  pub throw-Moves : (e : StoreError) → Moves R (throw {A = A} e)
  unfolding throw
  throw-Moves e = moves R.reflexive

  pub query-Moves : (f : Database → A) → Moves R (query f)
  unfolding query
  query-Moves f = moves R.reflexive

  pub if-Moves : (b : Bool) {m k : M A} → Moves R m → Moves R k → Moves R (if b then m else k)
  if-Moves true hm hk = hm
  if-Moves false hm hk = hk

  pub transaction-Moves : {m : M A} → Moves R m → Moves R (transaction m)
  unfolding transaction
  transaction-Moves {m} hm = moves λ db. committed R db (m db).1 (m db).0 (moved hm db)

unless :
    (R : Preorder) (e : StoreError) (db d : Database) (b : Bool)
    → (b ≡ false → R.Rel db d)
    → R.Rel db (if◌then◌else◌ {A = Result (Unit {0}) × Database} b (err e, db) (ok tt, d)).1
unless R e db d true h = R.reflexive db
unless R e db d false h = h refl

module _ {R : Preorder} where
  pub when-Moves : (b : Bool) {m : M (Unit {0})} → Moves R m → Moves R (when b m)
  unfolding when
  when-Moves b hm = if-Moves b hm (pure-Moves tt)

  pub run-Moves : (f : Database → Database) → ((db : Database) → R.Rel db (f db)) → Moves R (run f)
  unfolding run
  run-Moves f h = moves h

  pub insert_unless-Moves :
      (e : StoreError) (refused : Database → Bool) (f : Database → Database)
      → ((db : Database) → refused db ≡ false → R.Rel db (f db))
      → Moves R (insert_unless e refused f)
  unfolding insert_unless
  insert_unless-Moves e refused f h = moves λ db. unless R e db (f db) (refused db) (h db)

  pub update_jobs-Moves :
      (p : Database → JobRow → Bool) (f : JobRow → JobRow)
      → ((db : Database) → R.Rel db (record db { jobs = update (p db) f db.jobs }))
      → Moves R (update_jobs p f)
  unfolding update_jobs
  update_jobs-Moves p f h = moves h

  pub update_outbox-Moves :
      (p : Database → OutboxRow → Bool) (f : Database → OutboxRow → OutboxRow)
      → ((db : Database) → R.Rel db (record db { outbox = update (p db) (f db) db.outbox }))
      → Moves R (update_outbox p f)
  unfolding update_outbox
  update_outbox-Moves p f h = moves h

pub ruleset moves_rules = (
  bind-Moves, then-Moves, pure-Moves, throw-Moves, query-Moves, if-Moves, transaction-Moves,
  when-Moves,
)
