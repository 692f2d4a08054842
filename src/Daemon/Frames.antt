-- ===== src/Daemon/Frames.antt =====
-- The rules by which every turn of src/daemon.ts is shown to keep a relation: what it does is a
-- sequence of calls of the store, of changes of its own fields and of effects, and a job goes to the
-- backend only right after the claim that has answered it, while the proof lasts. `Allowed` is of the
-- moments, and `Lasts` of the ends of the proofs, that the relation admits. A result is acknowledged
-- only while the store holds one.
use livis_chatgpt_bridge.Prelude.{
  ℕ, ◌≡◌, sym, subst, Bool, true, false, ◌∷◌, some, String, if◌then◌else◌,
}
use livis_chatgpt_bridge.Types.{StoredJob}
use livis_chatgpt_bridge.Store.Table.{exists}
use livis_chatgpt_bridge.Store.Schema.{is_outbox, Runtime, Database}
use livis_chatgpt_bridge.Store.Monad.{M}
use livis_chatgpt_bridge.Store.Monad.Inversion.{Answers}
use livis_chatgpt_bridge.Store.Commands.{Command, step}
use livis_chatgpt_bridge.Daemon.State.{
  Daemon, Config, Moment, D, ◌>>=◌, ◌>>◌, pure, throw, read, change, extend, perform, await, call,
  guard, when, Awaiting, DaemonEffect, dispatches, acknowledges, DaemonError, TurnResult, done,
  failed, is_upstream_proof_expired,
}
use livis_chatgpt_bridge.Daemon.Dispatch.{claim}

-- An effect that needs no ground in the store.
abbrev pub is_plain : DaemonEffect → Bool
is_plain (dispatches job) = false
is_plain (acknowledges job lease) = false
is_plain _ = true

pub record Frame (js : Runtime) (scope : String) : Type 1 where
  pub Rel : Daemon → Daemon → Type 0
  pub reflexive : (c : Daemon) → Rel c c
  pub transitive : (a b c : Daemon) → Rel a b → Rel b c → Rel a c
  pub Allowed : Moment → Type 0
  pub Lasts : ℕ → Type 0
  pub changed :
      (c d : Daemon)
      → Rel c (record d {
        db = c.db;
        effects = c.effects;
        upstream_proof_expires_at = c.upstream_proof_expires_at;
      })
  pub extended :
      (c : Daemon) (expires_at : ℕ)
      → Lasts expires_at
      → Rel c (record c { upstream_proof_expires_at = expires_at })
  pub emitted :
      (c : Daemon) (e : DaemonEffect)
      → is_plain e ≡ true
      → Rel c (record c { effects = e ∷ c.effects })
  pub acknowledged :
      (c : Daemon) (id lease : String)
      → exists (is_outbox scope id) c.db.outbox ≡ true
      → Rel c (record c { effects = acknowledges id lease ∷ c.effects })
  pub stepped :
      (c : Daemon) (now : ℕ) (cmd : Command) → Rel c (record c { db = step js scope now cmd c.db })
  pub dispatched :
      (g : Config) (m : Moment) (job_id id lease : String) (c : Daemon) (job : StoredJob)
      (d : Database)
      → Allowed m
      → is_upstream_proof_expired m.later (record c { db = d }) ≡ false
      → Answers (claim js scope g m job_id id lease) c.db (some job) d
      → Rel c (record c { db = d; effects = dispatches job ∷ c.effects })

-- The database that the call leaves is that of a command.
pub data IsCommand {ℓ} (js : Runtime) (scope : String) {A : Type ℓ} (m : M A) : Type ℓ where
  command :
      (now : ℕ) (cmd : Command)
      → ((db : Database) → (m db).1 ≡ step js scope now cmd db)
      → IsCommand js scope m

pub data Keeps {ℓ} {js : Runtime} {scope : String} (F : Frame js scope) {A : Type ℓ} (m : D A)
    : Type ℓ where
  keeps : ((c : Daemon) → F.Rel c (m c).1) → Keeps F m

pub kept {ℓ} :
    {js : Runtime} {scope : String} {F : Frame js scope} {A : Type ℓ} {m : D A}
    → Keeps F m
    → (c : Daemon) → F.Rel c (m c).1
kept (keeps h) = h

module _ {ℓ κ} {js : Runtime} {scope : String} {F : Frame js scope} {A : Type ℓ} {B : Type κ} where
  after :
      (f : A → D B) (c mid : Daemon) (r : TurnResult A)
      → ((a : A) → Keeps F (f a))
      → F.Rel c mid
      → F.Rel c (
          (elim r as (λ _. TurnResult B × Daemon) [
            | done a ↦ f a mid
            | failed e ↦ (failed e, mid)
          ]).1)
  after f c mid (done a) h s = F.transitive c mid (f a mid).1 s (kept (h a) mid)
  after f c mid (failed e) h s = s

  pub bind-Keeps :
      {m : D A} {f : A → D B} → Keeps F m → ((a : A) → Keeps F (f a)) → Keeps F (m >>= f)
  unfolding ◌>>=◌
  bind-Keeps {m} {f} hm hf = keeps λ c. after f c (m c).1 (m c).0 hf (kept hm c)

  pub then-Keeps : {m : D A} {k : D B} → Keeps F m → Keeps F k → Keeps F (m >> k)
  unfolding ◌>>◌
  then-Keeps hm hk = bind-Keeps hm (λ _. hk)

module _ {ℓ} {js : Runtime} {scope : String} {F : Frame js scope} {A : Type ℓ} where
  pub pure-Keeps : (a : A) → Keeps F (pure a)
  unfolding pure
  pure-Keeps a = keeps F.reflexive

  pub throw-Keeps : (e : DaemonError) → Keeps F (throw {A = A} e)
  unfolding throw
  throw-Keeps e = keeps F.reflexive

  pub read-Keeps : (f : Daemon → A) → Keeps F (read f)
  unfolding read
  read-Keeps f = keeps F.reflexive

  pub if-Keeps : (b : Bool) {m k : D A} → Keeps F m → Keeps F k → Keeps F (if b then m else k)
  if-Keeps true hm hk = hm
  if-Keeps false hm hk = hk

  -- A call that is a command of the store.
  pub call-Keeps : {m : M A} → IsCommand js scope m → Keeps F (call m)
  unfolding call
  call-Keeps (command now cmd h) =
      keeps λ c. subst (λ db. F.Rel c (record c { db = db })) (sym (h c.db)) (F.stepped c now cmd)

module _ {js : Runtime} {scope : String} {F : Frame js scope} where
  pub change-Keeps : (f : Daemon → Daemon) → Keeps F (change f)
  unfolding change
  change-Keeps f = keeps λ c. F.changed c (f c)

  pub extend-Keeps : (expires_at : ℕ) → F.Lasts expires_at → Keeps F (extend expires_at)
  unfolding extend
  extend-Keeps expires_at h = keeps λ c. F.extended c expires_at h

  pub emit-Keeps : (e : DaemonEffect) → is_plain e ≡ true → Keeps F (perform e)
  unfolding perform
  emit-Keeps e h = keeps λ c. F.emitted c e h

  pub await-Keeps : (w : Awaiting) → Keeps F (await w)
  unfolding await
  await-Keeps w = change-Keeps (λ c. record c { waiting = w ∷ c.waiting })

  pub require-Keeps : (b : Bool) (e : DaemonError) → Keeps F (guard b e)
  unfolding guard
  require-Keeps b e = if-Keeps b (pure-Keeps tt) (throw-Keeps e)

  pub when-Keeps : (b : Bool) {m : D (Unit {0})} → Keeps F m → Keeps F (when b m)
  unfolding when
  when-Keeps b hm = if-Keeps b hm (pure-Keeps tt)

pub ruleset keeps_rules = (
  bind-Keeps, then-Keeps, pure-Keeps, throw-Keeps, read-Keeps, if-Keeps, change-Keeps, await-Keeps,
  require-Keeps, when-Keeps, call-Keeps,
)
