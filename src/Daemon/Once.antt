-- ===== src/Daemon/Once.antt =====
-- At-most-once dispatch of src/daemon.ts: what the store's generations say of the calls of
-- `executionBackend.dispatch`.
use livis_chatgpt_bridge.Prelude.{
  ℕ, suc, ◌≤◌, ◌≡◌, refl, sym, subst, ◌∙◌, ap, ◌⊎◌, inl, inr, Bool, true, false, ◌&&◌, &&-left,
  &&-right, List, [], ◌∷◌, some, String, ◌==◌, arith, if◌then◌else◌, str_eq, Bool-cases, All-intro,
}
use text.Mathlib.TextEquality.{eq_iff}
use livis_chatgpt_bridge.Types.{StoredJob, backend_name}
use livis_chatgpt_bridge.Protocol.Json.{Text}
use livis_chatgpt_bridge.Store.Schema.{Runtime, Database, JobRow, is_job}
use livis_chatgpt_bridge.Store.Table.{select}
use livis_chatgpt_bridge.Store.Commands.{empty}
use livis_chatgpt_bridge.Store.Lifecycle.Fate.{history-job}
use livis_chatgpt_bridge.Store.Invariant.Keys.{history-JobsKeyed, JobsKeyed}
use livis_chatgpt_bridge.Store.Invariant.Backends.{BackendsSound, history-BackendsSound}
use livis_chatgpt_bridge.Store.Monad.Inversion.{Answers}
use livis_chatgpt_bridge.Daemon.State.{
  Daemon, Config, Moment, DaemonEffect, dispatches, cancels, acknowledges, rejects, notifies,
  stops_relay, starts_relay, starts_backend,
}
use livis_chatgpt_bridge.Daemon.Dispatch.{claim}
use livis_chatgpt_bridge.Daemon.Loop.{DaemonEvent, run_daemon}
use livis_chatgpt_bridge.Daemon.Frames.{Frame, is_plain}
use livis_chatgpt_bridge.Daemon.Turns.Runs.{run-Frame}
use livis_chatgpt_bridge.Daemon.Refinement.{Follows, Follows-trans, step-Follows, claim-Follows}
use livis_chatgpt_bridge.Daemon.Renewal.{Renewed, claim-Renewed}

abbrev is_dispatch_of : String → ℕ → DaemonEffect → Bool
is_dispatch_of id n (dispatches job) = str_eq job.input.job_id id && job.run_generation == n
is_dispatch_of id n _ = false

-- How many of the effects hand a run of the job, given by its generation, to the backend.
unfoldable pub dispatch_count : String → ℕ → List DaemonEffect → ℕ
dispatch_count id n [] = 0
dispatch_count id n (e ∷ es) =
    let rest = dispatch_count id n es in if is_dispatch_of id n e then suc rest else rest

equal : (a b : ℕ) → (a == b) ≡ true → a ≡ b
equal a b h = ground arith

some-inj : {A : Type 0} (a b : A) → some a ≡ some b → a ≡ b
some-inj a b h = ground arith

-- A run that has been dispatched once is not above the generation that the store has.
Reaches : String → Database → String → ℕ → Type 0
Reaches scope db id n =
    (r : JobRow) × (select (is_job scope id) db.jobs ≡ some r) × (n ≤ r.run_generation)

Counted : String → Database → List DaemonEffect → Type 0
Counted scope db es =
    (id : String) (n : ℕ)
    → (dispatch_count id n es ≡ 0) ⊎ (dispatch_count id n es ≡ 1) × Reaches scope db id n

module _ (js : Runtime) (scope : String) where
  -- The store is one that calls have made, and the dispatches are counted.
  Traced : Daemon → Type 0
  Traced c = Follows js scope empty c.db × Counted scope c.db c.effects

  later-Reaches :
      (db d : Database) (id : String) (n : ℕ)
      → Follows js scope db d
      → Reaches scope db id n
      → Reaches scope d id n
  unfolding Reaches
  later-Reaches db d id n (cs, same) (r, held, le) =
      let (s, found, evolves) = history-job js scope cs db id r held in
      subst (λ x. Reaches scope x id n) same (s, found, omega (arith, evolves.generation, le))

  later-Counted :
      (db d : Database) (es : List DaemonEffect)
      → Follows js scope db d
      → Counted scope db es
      → Counted scope d es
  unfolding Counted
  later-Counted db d es follows counted id n = elim (counted id n) [
    | inl zero ↦ inl zero
    | inr (one, reaches) ↦ inr (one, later-Reaches db d id n follows reaches)
  ]

  other :
      (id : String) (n : ℕ) (e : DaemonEffect) → is_plain e ≡ true → is_dispatch_of id n e ≡ false
  other id n (dispatches job) h = absurd (ground arith)
  other id n (cancels job) h = refl
  other id n (acknowledges job lease) h = absurd (ground arith)
  other id n (rejects job code) h = refl
  other id n notifies h = refl
  other id n stops_relay h = refl
  other id n starts_relay h = refl
  other id n starts_backend h = refl

  emits-Counted :
      (db : Database) (e : DaemonEffect) (es : List DaemonEffect)
      → is_plain e ≡ true
      → Counted scope db es
      → Counted scope db (e ∷ es)
  unfolding Counted dispatch_count
  emits-Counted db e es h counted id n = rw (other id n e h) (counted id n)

  -- A run that the store has just numbered was not dispatched before.
  new_run :
      (id : String) (n : ℕ) (job_id : String) (db d : Database) (job : StoredJob)
      → Renewed scope job_id db d job
      → is_dispatch_of id n (dispatches job) ≡ true
      → (Reaches scope db id n → ⊥) × Reaches scope d id n
  unfolding Reaches
  new_run id n job_id db d job renewed h =
      let same : job_id ≡ id =
        sym ((eq_iff job.input.job_id job_id).0 renewed.same_id)
        ∙ (eq_iff job.input.job_id id).0
            (&&-left (str_eq job.input.job_id id) (job.run_generation == n) h) in
      let number : n ≡ suc renewed.row.run_generation =
        sym (
          equal job.run_generation n
            (&&-right (str_eq job.input.job_id id) (job.run_generation == n) h))
        ∙ renewed.generation
        ∙ renewed.higher in
      let before =
        subst (λ x. select (is_job scope x) db.jobs ≡ some renewed.row) same renewed.before in
      (
        λ reached.
            let is_row : reached.0 ≡ renewed.row = some-inj _ _ (sym reached.1 ∙ before) in
            let le : n ≤ renewed.row.run_generation =
              subst (λ (x : JobRow). n ≤ x.run_generation) is_row reached.2 in
            omega (arith, number, le),
        (
          renewed.renewed,
          subst (λ x. select (is_job scope x) d.jobs ≡ some renewed.renewed) same renewed.after,
          omega (arith, number, renewed.higher),
        ),
      )

  sends-Counted :
      (job_id : String) (db d : Database) (job : StoredJob) (es : List DaemonEffect)
      → Renewed scope job_id db d job
      → Follows js scope db d
      → Counted scope db es
      → Counted scope d (dispatches job ∷ es)
  unfolding Counted dispatch_count
  sends-Counted job_id db d job es renewed follows counted id n =
      elim (Bool-cases (is_dispatch_of id n (dispatches job))) [
        | inl hit ↦
            let (fresh, reaches) = new_run id n job_id db d job renewed hit in
            elim (counted id n) [
              | inl zero ↦ inr (rw (hit, zero) refl, reaches)
              | inr (one, reached) ↦ absurd (fresh reached)
            ]
        | inr miss ↦ rw miss (later-Counted db d es follows counted id n)
      ]

  claimed :
      (g : Config) (m : Moment) (id execution lease : String) (c : Daemon) (job : StoredJob)
      (d : Database)
      → Follows js scope empty c.db
      → Answers (claim js scope g m id execution lease) c.db (some job) d
      → Renewed scope id c.db d job
  claimed g m id execution lease c job d (cs, same) h =
      claim-Renewed js scope g m id execution lease c.db d job
        (subst JobsKeyed same (history-JobsKeyed js scope cs) scope id)
        ((subst BackendsSound same (history-BackendsSound js scope cs)).2 scope
          (backend_name g.backend))
        h

  once_frame : Frame js scope
  unfolding Traced Counted dispatch_count
  once_frame = record {
    Rel = λ c d. Traced c → Traced d;
    reflexive = λ c t. t;
    transitive = λ a b c p q t. q (p t);
    Allowed = λ m. Unit {0};
    Lasts = λ n. Unit {0};
    changed = λ c d t. t;
    extended = λ c n h t. t;
    emitted = λ c e h t. (t.0, emits-Counted c.db e c.effects h t.1);
    acknowledged = λ c id lease h t. t;
    stepped = λ c now cmd t. (
      Follows-trans js scope empty c.db _ t.0 (step-Follows js scope now cmd c.db),
      later-Counted c.db _ c.effects (step-Follows js scope now cmd c.db) t.1,
    );
    dispatched = λ g m id execution lease c job d allowed lasts h t.
        let follows = claim-Follows js scope g m id execution lease c.db d (some job) h in
        (
          Follows-trans js scope empty c.db d t.0 follows,
          sends-Counted id c.db d job c.effects (claimed g m id execution lease c job d t.0 h)
              follows t.1,
        );
  }

  -- A daemon that starts on a database that calls of the store have left dispatches no run of a job
  -- twice, whatever the events, their order, the moments and the answers of what it waits for: for
  -- every job id and generation, at most one of the effects after a run of the event loop is a call
  -- of the backend's `dispatch` with a job of that id and generation.
  pub run-once :
      (text : Text) (g : Config) (es : List (Moment × DaemonEvent)) (c : Daemon) (id : String)
      (n : ℕ)
      → Follows js scope empty c.db
      → c.effects ≡ []
      → dispatch_count id n (run_daemon js scope text g es c).effects ≤ 1
  unfolding once_frame Traced Counted dispatch_count
  run-once text g es c id n reached fresh =
      let traced : Traced c = (reached, λ i k. inl (ap (dispatch_count i k) fresh)) in
      elim ((run-Frame once_frame text g es c (All-intro es λ x. (tt, λ i q. tt)) traced).1 id n) [
        | inl zero ↦ omega (arith, zero)
        | inr (one, reaches) ↦ omega (arith, one)
      ]
