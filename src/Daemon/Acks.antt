-- ===== src/Daemon/Acks.antt =====
-- What src/daemon.ts tells a connector of its results: the acknowledgements over the outbox of the
-- store.
use livis_chatgpt_bridge.Prelude.{
  ◌≡◌, refl, subst, ◌∙◌, Bool, true, List, [], ◌∷◌, some, String, All, All-intro, All-map, arith,
  Bool-cases, inl, inr,
}
use livis_chatgpt_bridge.Protocol.Json.{Text}
use livis_chatgpt_bridge.Store.Schema.{Runtime, Database, OutboxRow, is_outbox}
use livis_chatgpt_bridge.Store.Table.{
  exists, insert_or_ignore, exists-append_left, exists-update_where,
}
use livis_chatgpt_bridge.Store.Outbox.{delivering_row, unsent_row}
use livis_chatgpt_bridge.Store.Steps.{OutboxStep, Write}
use livis_chatgpt_bridge.Store.Steps.Runs.{Writes-keep, history-Writes}
use livis_chatgpt_bridge.Daemon.State.{
  Daemon, Config, Moment, DaemonEffect, dispatches, cancels, acknowledges, rejects, notifies,
  stops_relay, starts_relay, starts_backend,
}
use livis_chatgpt_bridge.Daemon.Loop.{DaemonEvent, run_daemon}
use livis_chatgpt_bridge.Daemon.Frames.{Frame, is_plain}
use livis_chatgpt_bridge.Daemon.Turns.Runs.{run-Frame}
use livis_chatgpt_bridge.Daemon.Refinement.{Follows, claim-Follows, step-Follows}

-- The store has a result of the job.
abbrev pub HasResult : String → Database → String → Type 0
HasResult scope db id = exists (is_outbox scope id) db.outbox ≡ true

-- An acknowledgement is of a job of which the store has a result.
unfoldable pub Backed : String → Database → DaemonEffect → Type 0
Backed scope db (acknowledges id lease) = HasResult scope db id
Backed scope db e = Unit {0}

row_key :
    (scope id : String) (db : Database) (o p : OutboxRow)
    → OutboxStep db o p
    → is_outbox scope id p ≡ is_outbox scope id o
unfolding delivering_row unsent_row
row_key scope id db o p (OutboxStep.starts message now h e) = rw e refl
row_key scope id db o p (OutboxStep.retries message now h e) = rw e refl
row_key scope id db o p (OutboxStep.resets now h e) = rw e refl
row_key scope id db o p (OutboxStep.recovers now h e) = rw e refl
row_key scope id db o p (OutboxStep.undelivers message retry now h k e) = rw e refl
row_key scope id db o p (OutboxStep.confirms now h k e) = rw e refl
row_key scope id db o p (OutboxStep.backs_off next now h e) = rw e refl

insert-exists :
    (p q : OutboxRow → Bool) (o : OutboxRow) (rows : List OutboxRow)
    → exists p rows ≡ true
    → exists p (insert_or_ignore q o rows) ≡ true
unfolding insert_or_ignore
insert-exists p q o rows h = elim (Bool-cases (exists q rows)) [
  | inl hit ↦ rw hit h
  | inr miss ↦ rw miss (exists-append_left p rows (o ∷ []) h)
]

-- No write of the store takes a result away.
Write-HasResult :
    (scope id : String) (db d : Database)
    → Write db d
    → HasResult scope db id
    → HasResult scope d id
unfolding insert_or_ignore
Write-HasResult scope id db d (Write.writes_outbox p f h e) k = rw e (
    exists-update_where (is_outbox scope id) p f db.outbox
      (λ o t. row_key scope id db o (f o) (h o t))
    ∙ k)
Write-HasResult scope id db d (Write.inserts_result o c e) k =
    rw e (insert-exists _ _ o db.outbox k)
Write-HasResult scope id db d (Write.writes_jobs p f h e) k = rw e k
Write-HasResult scope id db d (Write.claims_job s job connector lease now p h e) k = rw e k
Write-HasResult scope id db d (Write.inserts_job s input hash session target now e) k = rw e k
Write-HasResult scope id db d (Write.inserts_attempt a h e) k = rw e k
Write-HasResult scope id db d (Write.deletes_attempt p e) k = rw e k
Write-HasResult scope id db d (Write.appends_event ev c u q e) k = rw e k
Write-HasResult scope id db d (Write.isolates rows c e) k = rw e k
Write-HasResult scope id db d (Write.releases s session e) k = rw e k
Write-HasResult scope id db d (Write.writes_intents rows b e) k = rw e k
Write-HasResult scope id db d (Write.inserts_session r a m v u e) k = rw e k
Write-HasResult scope id db d (Write.writes_sessions p f w e) k = rw e k
Write-HasResult scope id db d (Write.deletes_sessions p e) k = rw e k

module _ (js : Runtime) (scope : String) where
  later-HasResult :
      (db d : Database) (id : String)
      → Follows js scope db d
      → HasResult scope db id
      → HasResult scope d id
  later-HasResult db d id (cs, same) h =
      subst (λ x. HasResult scope x id) same
        (Writes-keep (λ x. HasResult scope x id) (Write-HasResult scope id) db _
          (history-Writes js scope cs db) h)

  later-Backed :
      (db d : Database)
      → Follows js scope db d
      → (e : DaemonEffect) → Backed scope db e
      → Backed scope d e
  unfolding Backed
  later-Backed db d h (acknowledges id lease) b = later-HasResult db d id h b
  later-Backed db d h (dispatches job) b = tt
  later-Backed db d h (cancels job) b = tt
  later-Backed db d h (rejects job code) b = tt
  later-Backed db d h notifies b = tt
  later-Backed db d h stops_relay b = tt
  later-Backed db d h starts_relay b = tt
  later-Backed db d h starts_backend b = tt

  plain-Backed : (db : Database) (e : DaemonEffect) → is_plain e ≡ true → Backed scope db e
  unfolding Backed
  plain-Backed db (acknowledges id lease) h = absurd (ground arith)
  plain-Backed db (dispatches job) h = tt
  plain-Backed db (cancels job) h = tt
  plain-Backed db (rejects job code) h = tt
  plain-Backed db notifies h = tt
  plain-Backed db stops_relay h = tt
  plain-Backed db starts_relay h = tt
  plain-Backed db starts_backend h = tt

  effects-Backed :
      (db d : Database) (es : List DaemonEffect)
      → Follows js scope db d
      → All (Backed scope db) es
      → All (Backed scope d) es
  effects-Backed db d es h bs = All-map es (later-Backed db d h) bs

  backed_frame : Frame js scope
  unfolding Backed
  backed_frame = record {
    Rel = λ c d. All (Backed scope c.db) c.effects → All (Backed scope d.db) d.effects;
    Allowed = λ m. Unit {0};
    Lasts = λ n. Unit {0};
    reflexive = λ c h. h;
    transitive = λ a b c p q h. q (p h);
    changed = λ c d h. h;
    extended = λ c n k h. h;
    emitted = λ c e k h. (plain-Backed c.db e k, h);
    acknowledged = λ c id lease k h. (k, h);
    stepped = λ c now cmd h. effects-Backed c.db _ c.effects (step-Follows js scope now cmd c.db) h;
    dispatched = λ g m id execution lease c job d allowed lasts answer h. (
      tt,
      effects-Backed c.db d c.effects
          (claim-Follows js scope g m id execution lease c.db d (some job) answer) h,
    );
  }

  -- In every run of the event loop of a daemon without effects so far, each result that is
  -- acknowledged to the connector is of a job of which the outbox has a result at the end of the run,
  -- whatever the store at the start, the events, their order and the answers.
  pub run-Backed :
      (text : Text) (g : Config) (es : List (Moment × DaemonEvent)) (c : Daemon)
      → c.effects ≡ []
      → All
          (Backed scope (run_daemon js scope text g es c).db)
          (run_daemon js scope text g es c).effects
  unfolding backed_frame
  run-Backed text g es c fresh =
      run-Frame backed_frame text g es c (All-intro es λ x. (tt, λ n q. tt)) (rw fresh tt)
