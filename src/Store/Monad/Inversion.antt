-- ===== src/Store/Monad/Inversion.antt =====
-- What a call that has succeeded did on the way: the parts of a `do` block from its outcome.
use livis_chatgpt_bridge.Prelude.{
  ℕ, ◌≡◌, refl, subst, Bool, true, false, if◌then◌else◌, arith, ◌⊎◌, inl, inr,
}
use livis_chatgpt_bridge.Store.Schema.{Database, JobRow}
use livis_chatgpt_bridge.Store.Table.{update, changes}
use livis_chatgpt_bridge.Store.Monad.{
  Result, ok, err, StoreError, M, ◌>>=◌, ◌>>◌, pure, throw, query, run, when, update_jobs,
  transaction,
}
use livis_chatgpt_bridge.Store.Monad.Moves.{Preorder, Moves, moved}

-- The outcome of a call that answers.
abbrev pub Answers {ℓ} : {A : Type ℓ} → M A → Database → A → Database → Type ℓ
Answers m db a d = m db ≡ (ok a, d)

module _ {ℓ κ} {A : Type ℓ} {B : Type κ} where
  split :
      (f : A → M B) (b : B) (d : Database) (r : Result A × Database)
      → (elim r.0 as (λ _. Result B × Database) [ ok a ↦ f a r.1 | err e ↦ (err e, r.1) ])
        ≡ (ok b, d)
      → (a : A) × (mid : Database) × (r ≡ (ok a, mid)) × Answers (f a) mid b d
  split f b d (ok a, mid) h = (a, mid, refl, h)
  split f b d (err e, mid) h = absurd (ground arith)

  pub bind-Answers :
      (m : M A) (f : A → M B) (db : Database) (b : B) (d : Database)
      → Answers (m >>= f) db b d
      → (a : A) × (mid : Database) × Answers m db a mid × Answers (f a) mid b d
  unfolding ◌>>=◌
  bind-Answers m f db b d h = split f b d (m db) h

  pub then-Answers :
      (m : M A) (k : M B) (db : Database) (b : B) (d : Database)
      → Answers (m >> k) db b d
      → (a : A) × (mid : Database) × Answers m db a mid × Answers k mid b d
  unfolding ◌>>◌
  then-Answers m k db b d h = bind-Answers m (λ _. k) db b d h

module _ {ℓ} {A : Type ℓ} where
  commits :
      (db d : Database) (a : A) (r : Result A × Database)
      → (elim r.0 as (λ _. Result A × Database) [ ok x ↦ (ok x, r.1) | err e ↦ (err e, db) ])
        ≡ (ok a, d)
      → r ≡ (ok a, d)
  commits db d a (ok x, mid) h = h
  commits db d a (err e, mid) h = absurd (ground arith)

  pub transaction-Answers :
      (m : M A) (db : Database) (a : A) (d : Database)
      → Answers (transaction m) db a d
      → Answers m db a d
  unfolding transaction
  transaction-Answers m db a d h = commits db d a (m db) h

  rolls_back :
      (db : Database) (r : Result A × Database)
      → (e : StoreError)
      → (elim r.0 as (λ _. Result A × Database) [ ok x ↦ (ok x, r.1) | err e ↦ (err e, db) ]).0
        ≡ err e
      → (elim r.0 as (λ _. Result A × Database) [ ok x ↦ (ok x, r.1) | err e ↦ (err e, db) ]).1 ≡ db
  rolls_back db (ok x, mid) e h = absurd (ground arith)
  rolls_back db (err x, mid) e h = refl

  -- A transaction that fails changes nothing.
  pub transaction-fails :
      (m : M A) (db : Database) (e : StoreError)
      → (transaction m db).0 ≡ err e
      → (transaction m db).1 ≡ db
  unfolding transaction
  transaction-fails m db e h = rolls_back db (m db) e h

  pub if-Answers :
      (b : Bool) (m k : M A) (db : Database) (a : A) (d : Database)
      → Answers (if b then m else k) db a d
      → (b ≡ true) × Answers m db a d ⊎ (b ≡ false) × Answers k db a d
  if-Answers true m k db a d h = inl (refl, h)
  if-Answers false m k db a d h = inr (refl, h)

  pub pure-Answers : (x a : A) (db d : Database) → Answers (pure x) db a d → (a ≡ x) × (d ≡ db)
  unfolding pure
  pure-Answers x a db d h = ground arith

  pub query-Answers :
      (f : Database → A) (db : Database) (a : A) (d : Database)
      → Answers (query f) db a d
      → (a ≡ f db) × (d ≡ db)
  unfolding query
  query-Answers f db a d h = ground arith

  pub throw-Answers :
      (e : StoreError) (db : Database) (a : A) (d : Database) → Answers (throw e) db a d → ⊥
  unfolding throw
  throw-Answers e db a d h = absurd (ground arith)

-- A call that moves along a preorder leads to where it answers.
pub Answers-Moves {ℓ} :
    (R : Preorder) {A : Type ℓ} (m : M A) (db : Database) (a : A) (d : Database)
    → Moves R m
    → Answers m db a d
    → R.Rel db d
Answers-Moves R m db a d h e = subst (λ x. R.Rel db x.1) e (moved h db)

-- A guard that lets the call go on.
pub unless-Answers :
    (b : Bool) (e : StoreError) (db : Database) (u : Unit {0}) (d : Database)
    → Answers (when b (throw e)) db u d
    → (b ≡ false) × (d ≡ db)
unfolding when pure throw
unless-Answers true e db u d h = absurd (ground arith)
unless-Answers false e db u d h = (refl, ground arith)

pub run-Answers :
    (f : Database → Database) (db : Database) (u : Unit {0}) (d : Database)
    → Answers (run f) db u d
    → d ≡ f db
unfolding run
run-Answers f db u d h = ground arith

pub update_jobs-Answers :
    (p : Database → JobRow → Bool) (f : JobRow → JobRow) (db : Database) (n : ℕ) (d : Database)
    → Answers (update_jobs p f) db n d
    → (n ≡ changes (p db) db.jobs) × (d ≡ record db { jobs = update (p db) f db.jobs })
unfolding update_jobs
update_jobs-Answers p f db n d h = ground arith
