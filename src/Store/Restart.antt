-- ===== src/Store/Restart.antt =====
-- What `recoverAfterRestart` of src/state/store.ts leaves behind.
use livis_chatgpt_bridge.Prelude.{
  ℕ, ◌≡◌, refl, sym, ap, ◌∙◌, ◌⊎◌, subst, Bool, true, false, ◌&&◌, List, [], ◌∷◌, Option, none,
  some, String, All, All-intro, arith, str_eq, if◌then◌else◌, inl, inr, Bool-cases,
}
use livis_chatgpt_bridge.Types.{
  StoredBackendSession, is_active, is_cancelling, is_executing, JobStatus,
}
use livis_chatgpt_bridge.Store.Schema.{Database, JobRow, Runtime}
use livis_chatgpt_bridge.Store.Table.{update, update-All}
use livis_chatgpt_bridge.Store.Monad.{M}
use livis_chatgpt_bridge.Store.Monad.Moves.{Moves, then-Moves, pure-Moves, update_outbox-Moves}
use livis_chatgpt_bridge.Store.Monad.Inversion.{
  Answers, Answers-Moves, bind-Answers, then-Answers, transaction-Answers, pure-Answers,
  unless-Answers, update_jobs-Answers,
}
use livis_chatgpt_bridge.Store.Ledger.Appends.{SameRows, same_rows, append-SameRows}
use livis_chatgpt_bridge.Store.Jobs.{coalesce}
use livis_chatgpt_bridge.Store.Recovery.{
  Recovered, for_each, end_active, flag_sessions, recover_active, recover_after_restart,
  has_active_job, in_scope,
}
use livis_chatgpt_bridge.Store.Sessions.Answers.{update_sessions-Answers}

-- No job of the scope is being executed, and each session of it that still names an active job asks
-- for recovery.
pub record AtRest (scope : String) (db : Database) : Type 0 where
  pub jobs : All (λ r. str_eq r.scope_key scope ≡ true → is_active r.status ≡ false) db.jobs
  pub sessions :
      All
        (λ s.
          str_eq s.scope_key scope ≡ true → (s.active_job_id ≡ none) ⊎ (s.recovery_required ≡ true))
        db.backend_sessions

for_each-SameRows :
    {A : Type 0} (m : A → M (Unit {0})) (xs : List A)
    → ((x : A) → Moves same_rows (m x))
    → Moves same_rows (for_each m xs)
unfolding for_each
for_each-SameRows m [] h = pure-Moves tt
for_each-SameRows m (x ∷ xs) h = then-Moves (h x) (for_each-SameRows m xs h)

-- A row after the two UPDATE statements of `end_active`.
module _ (scope : String) (cancel_error : Option String) (error : String) (now : ℕ) where
  abbrev of_scope : JobRow → Bool
  of_scope r = str_eq r.scope_key scope

  abbrev lost : JobRow → JobRow
  lost r = record r {
    status = JobStatus.cancel_unknown;
    error = coalesce r.error cancel_error;
    completed_at = some now;
    updated_at = now;
  }

  abbrev stopped : JobRow → JobRow
  stopped r = record r {
    status = JobStatus.interrupted;
    error = coalesce r.error (some error);
    completed_at = some now;
    updated_at = now;
  }

  abbrev IsResting : JobRow → Type 0
  IsResting r = of_scope r ≡ true → is_active r.status ≡ false

  stopped-IsResting :
      (r : JobRow)
      → (of_scope r ≡ true → is_cancelling r.status ≡ false)
      → IsResting (if of_scope r && is_executing r.status then stopped r else r)
  stopped-IsResting r h = elim (Bool-cases (of_scope r && is_executing r.status)) [
    | inl e ↦ rw e (λ t. refl)
    | inr e ↦ rw e (λ t. let c = h t in quiet r.status (other t e) c)
  ]
    where
      other :
          of_scope r ≡ true
          → (of_scope r && is_executing r.status) ≡ false
          → is_executing r.status ≡ false
      other t e = ground arith

      quiet :
          (s : JobStatus) → is_executing s ≡ false → is_cancelling s ≡ false → is_active s ≡ false
      quiet s e c = ground arith

  ended-IsResting :
      (r : JobRow)
      → IsResting (
          let one = if of_scope r && is_cancelling r.status then lost r else r in
          if of_scope one && is_executing one.status then stopped one else one)
  ended-IsResting r =
      stopped-IsResting _ (elim (Bool-cases (of_scope r && is_cancelling r.status)) [
        | inl e ↦ rw e (λ t. refl)
        | inr e ↦ rw e (λ t. ground arith)
      ])

  ended-All :
      (rows : List JobRow)
      → All IsResting (
          update
            (λ r. of_scope r && is_executing r.status)
            stopped
            (update (λ r. of_scope r && is_cancelling r.status) lost rows))
  ended-All rows =
      update-All IsResting _ stopped _ (update-All _ _ lost rows (All-intro rows ended-IsResting))

module _ (js : Runtime) (scope : String) where
  end_active-Answers :
      (cancel_error : Option String) (error : String) (now : ℕ) (db d : Database) (n : ℕ × ℕ)
      → Answers (end_active js scope (in_scope js scope) cancel_error error now) db n d
      → (d.backend_sessions ≡ db.backend_sessions)
        × All (λ r. str_eq r.scope_key scope ≡ true → is_active r.status ≡ false) d.jobs
  unfolding end_active
  end_active-Answers cancel_error error now db d n h =
      let (k, one, first, h1) = bind-Answers _ _ db n d h in
      let (l, two, second, h2) = bind-Answers _ _ one n d h1 in
      let rows : one ≡ _ = (update_jobs-Answers _ _ db k one first).1 in
      let more : two ≡ _ = (update_jobs-Answers _ _ one l two second).1 in
      let last : d ≡ two = (pure-Answers _ n two d h2).1 in
      (
        ap (λ (x : Database). x.backend_sessions) (last ∙ more)
            ∙ ap (λ (x : Database). x.backend_sessions) rows,
        subst
            (λ (x : Database).
              All (λ r. str_eq r.scope_key scope ≡ true → is_active r.status ≡ false) x.jobs)
            (sym (last ∙ more))
            (subst
              (λ (x : Database).
                All (λ r. str_eq r.scope_key scope ≡ true → is_active r.status ≡ false)
                  (update (λ r. str_eq r.scope_key scope && is_executing r.status)
                    (stopped scope cancel_error error now) x.jobs))
              (sym rows) (ended-All scope cancel_error error now db.jobs)),
      )

  -- A session row of the scope names no active job, or asks for recovery.
  abbrev IsFlagged : StoredBackendSession → Type 0
  IsFlagged s =
      str_eq s.scope_key scope ≡ true → (s.active_job_id ≡ none) ⊎ (s.recovery_required ≡ true)

  IsFlagged-All :
      (now : ℕ) (rows : List StoredBackendSession)
      → All IsFlagged (
          update
            (has_active_job js scope)
            (λ s. record s { recovery_required = true; updated_at = now })
            rows)
  IsFlagged-All now rows = update-All IsFlagged _ _ rows (All-intro rows one_row)
    where
      one_row :
          (s : StoredBackendSession)
          → IsFlagged (
              if has_active_job js scope s
              then record s { recovery_required = true; updated_at = now }
              else s)
      one_row s = elim (Bool-cases (has_active_job js scope s)) [
        | inl e ↦ rw e (λ t. inr refl)
        | inr e ↦ rw e (λ t. inl (unnamed s.active_job_id e t))
      ]
        where
          unnamed :
              (o : Option String)
              → (elim o as (λ _. Bool) [ none ↦ false | some _ ↦ str_eq s.scope_key scope ]) ≡ false
              → str_eq s.scope_key scope ≡ true
              → o ≡ none
          unnamed none e t = refl
          unnamed (some a) e t = absurd (ground arith)

  recover_active-Answers :
      (now : ℕ) (db d : Database) (n : ℕ × ℕ)
      → Answers (recover_active js scope now) db n d
      → AtRest scope d
  unfolding recover_active flag_sessions
  recover_active-Answers now db d n h =
      let (attempts, a, asked, h1) = bind-Answers _ _ db n d h in
      let (u, b, isolated, h2) = then-Answers _ _ a n d h1 in
      let (k, c, flagged, h3) = bind-Answers _ _ b n d h2 in
      let (ended, e, ends, h4) = bind-Answers _ _ c n d h3 in
      let (v, f, counted, h5) = then-Answers _ _ e n d h4 in
      let (w, g, told, h6) = then-Answers _ _ f n d h5 in
      let rows : c.backend_sessions ≡ _ =
        ap (λ (x : Database). x.backend_sessions) (update_sessions-Answers _ _ _ b k c flagged).1 in
      let (kept, resting) = end_active-Answers _ _ now c e ended ends in
      let same : SameRows f g =
        Answers-Moves same_rows _ f w g
          (for_each-SameRows _ attempts (λ x. append-SameRows js scope _)) told in
      let to_e : f ≡ e = (unless-Answers _ _ e v f counted).1 in
      let to_g : d ≡ g = (pure-Answers _ n g d h6).1 in
      record {
        jobs =
            subst (All (λ r. str_eq r.scope_key scope ≡ true → is_active r.status ≡ false))
              (sym (
                ap (λ (x : Database). x.jobs) to_g
                ∙ same.jobs
                ∙ ap (λ (x : Database). x.jobs) to_e))
              resting;
        sessions =
            subst (All IsFlagged)
              (sym (
                ap (λ (x : Database). x.backend_sessions) to_g
                ∙ same.backend_sessions
                ∙ ap (λ (x : Database). x.backend_sessions) to_e
                ∙ kept
                ∙ rows))
              (IsFlagged-All now b.backend_sessions);
      }

  kept-AtRest : (e f : Database) → SameRows e f → AtRest scope e → AtRest scope f
  kept-AtRest e f same rest = record {
    jobs =
        subst (All (λ r. str_eq r.scope_key scope ≡ true → is_active r.status ≡ false))
          (sym same.jobs) rest.jobs;
    sessions = subst (All IsFlagged) (sym same.backend_sessions) rest.sessions;
  }

  -- A restart that answers leaves no job of the scope `Dispatching`, `Running` or `Cancelling`, and
  -- asks for recovery in each session of the scope that names an active job.
  pub recover_after_restart-AtRest :
      (now : ℕ) (db d : Database) (counts : Recovered)
      → Answers (recover_after_restart js scope now) db counts d
      → AtRest scope d
  unfolding recover_after_restart
  recover_after_restart-AtRest now db d counts h =
      let (u, a, pruned, h1) = then-Answers _ _ db counts d (transaction-Answers _ db counts d h) in
      let (v, b, consumed, h2) = then-Answers _ _ a counts d h1 in
      let (w, c, trimmed, h3) = then-Answers _ _ b counts d h2 in
      let (ended, e, recovered, h4) = bind-Answers _ _ c counts d h3 in
      let (n, f, delivered, h5) = bind-Answers _ _ e counts d h4 in
      let rest : AtRest scope e = recover_active-Answers now c e ended recovered in
      let same : SameRows e f =
        Answers-Moves same_rows _ e n f
          (update_outbox-Moves _ _
            (λ x. record { jobs = refl; backend_sessions = refl; session_quarantine = refl }))
          delivered in
      let last : d ≡ f = (pure-Answers _ counts f d h5).1 in
      subst (AtRest scope) (sym last) (kept-AtRest e f same rest)
