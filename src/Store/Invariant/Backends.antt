-- ===== src/Store/Invariant/Backends.antt =====
-- What holds of the rows of `backend_sessions`.
mod Keys
use livis_chatgpt_bridge.Prelude.{
  ℕ, ◌≡◌, refl, sym, ◌∙◌, inl, inr, ◌⊎◌, Bool, true, false, not, ◌&&◌, ◌||◌, List, [], ◌∷◌, ◌++◌,
  Option, none, some, String, All, All-append, All-map, All-intro, All-zip, All-swap, arith,
  Bool-cases, if◌then◌else◌, str_eq, str_eq_sym, str_eq_refl,
}
use livis_chatgpt_bridge.Types.{StoredBackendSession}
use livis_chatgpt_bridge.Store.Schema.{Database, Runtime}
use livis_chatgpt_bridge.Store.Table.{update, exists, delete, exists_false, update-All, All-delete}
use livis_chatgpt_bridge.Store.Sessions.Table.{
  columns_fit, attempt_fits, is_allowed, is_taken, clashes, same_session, both,
}
use livis_chatgpt_bridge.Store.Commands.{Command, history, empty}
use livis_chatgpt_bridge.Store.Steps
use livis_chatgpt_bridge.Store.Steps.{Write, SessionStep}
use livis_chatgpt_bridge.Store.Invariant.Backends.Keys.{
  BackendsKeyed, insert-BackendsKeyed, update-BackendsKeyed, delete-BackendsKeyed,
}
use livis_chatgpt_bridge.Store.Steps.Runs.{Writes-keep, history-Writes}

abbrev pub Fits : StoredBackendSession → Type 0
Fits s = (columns_fit s ≡ true) × (attempt_fits s ≡ true)

allowed-Fits : (db : Database) (s : StoredBackendSession) → is_allowed db s ≡ true → Fits s
unfolding is_allowed
allowed-Fits db s h = ground arith

-- Two rows that have a value of a UNIQUE index in common are of the same session.
abbrev pub Apart : StoredBackendSession → StoredBackendSession → Type 0
Apart r s = clashes r s ≡ true → same_session r s ≡ true

both-sym : (a b : Option String) → both a b ≡ both b a
both-sym none none = refl
both-sym none (some b) = refl
both-sym (some a) none = refl
both-sym (some a) (some b) = str_eq_sym a b

clashes-sym : (r s : StoredBackendSession) → clashes r s ≡ clashes s r
unfolding clashes
clashes-sym r s =
    rw
      (
        str_eq_sym r.session_hash s.session_hash,
        str_eq_sym r.cwd s.cwd,
        str_eq_sym r.backend s.backend,
        both-sym r.thread_id s.thread_id,
        str_eq_sym r.scope_key s.scope_key,
        both-sym r.active_job_id s.active_job_id,
      )
      refl

same_session-sym : (r s : StoredBackendSession) → same_session r s ≡ same_session s r
same_session-sym r s =
    rw
      (
        str_eq_sym r.scope_key s.scope_key,
        str_eq_sym r.backend s.backend,
        str_eq_sym r.session_key s.session_key,
      )
      refl

Apart-sym : (r s : StoredBackendSession) → Apart r s → Apart s r
Apart-sym r s h e = same_session-sym s r ∙ h (clashes-sym r s ∙ e)

Apart-refl : (r : StoredBackendSession) → Apart r r
Apart-refl r e = rw (str_eq_refl r.scope_key, str_eq_refl r.backend, str_eq_refl r.session_key) refl

-- What `is_taken` refuses.
free-All :
    (rows : List StoredBackendSession) (r : StoredBackendSession)
    → is_taken rows r ≡ false
    → All (Apart r) rows
unfolding is_taken
free-All rows r h =
    All-map rows (λ s k e. apart (same_session r s) (clashes r s) k e) (exists_false _ rows h)
  where
    apart : (a b : Bool) → (not a && b) ≡ false → b ≡ true → a ≡ true
    apart a b k e = ground arith

abbrev pub AreApart : List StoredBackendSession → Type 0
AreApart rows = All (λ r. All (Apart r) rows) rows

module _ (p : StoredBackendSession → Bool) (f : StoredBackendSession → StoredBackendSession) where
  abbrev image : StoredBackendSession → StoredBackendSession
  image r = if p r then f r else r

  All-image :
      (P : StoredBackendSession → Type 0) (rows : List StoredBackendSession)
      → All P (update p f rows)
      → All (λ r. P (image r)) rows
  unfolding update
  All-image P [] h = tt
  All-image P (r ∷ rows) h = (h.0, All-image P rows h.1)

  -- What the check of the updated row `r` gives of the image of `s`.
  abbrev Checked : StoredBackendSession → StoredBackendSession → Type 0
  Checked r s = p r ≡ true → Apart (f r) (image s)

  image-Apart :
      (r s : StoredBackendSession)
      → Checked r s
      → Checked s r
      → Apart r s
      → Apart (image r) (image s)
  image-Apart r s h k a = elim (Bool-cases (p r)) [
    | inl e ↦ rw e (h e)
    | inr e ↦ elim (Bool-cases (p s)) [
      | inl t ↦ Apart-sym (image s) (image r) (rw t (k t))
      | inr t ↦ rw (e, t) a
    ]
  ]

  update-AreApart :
      (rows : List StoredBackendSession)
      → All (λ r. p r ≡ true → All (Apart (f r)) (update p f rows)) rows
      → AreApart rows
      → AreApart (update p f rows)
  update-AreApart rows free h = update-All _ p f rows (
      All-zip (λ r. All (Apart r) rows) (λ r. All (Checked r) rows × All (λ s. Checked s r) rows)
        (λ r. All (Apart (image r)) (update p f rows)) rows
        (λ r a c. update-All _ p f rows (
          All-zip (Checked r) (λ s. Checked s r × Apart r s) (λ s. Apart (image r) (image s)) rows
            (λ s k b. image-Apart r s k b.0 b.1) c.0
            (All-zip (λ s. Checked s r) (Apart r) (λ s. Checked s r × Apart r s) rows
              (λ s k b. (k, b)) c.1 a)))
        h
        (All-zip (λ r. All (Checked r) rows) (λ r. All (λ s. Checked s r) rows)
          (λ r. All (Checked r) rows × All (λ s. Checked s r) rows) rows (λ r a b. (a, b)) checked
          (All-swap Checked rows rows checked)))
    where
      one_row :
          (r : StoredBackendSession)
          → (p r ≡ true → All (Apart (f r)) (update p f rows))
          → All (Checked r) rows
      one_row r k = elim (Bool-cases (p r)) [
        | inl e ↦ All-map rows (λ s a t. a) (All-image (Apart (f r)) rows (k e))
        | inr e ↦ All-intro rows (λ s t. absurd (cc))
      ]

      checked : All (λ r. All (Checked r) rows) rows
      checked = All-map rows one_row free

append-AreApart :
    (rows : List StoredBackendSession) (s : StoredBackendSession)
    → All (Apart s) rows
    → AreApart rows
    → AreApart (rows ++ s ∷ [])
append-AreApart rows s free h =
    All-append _ rows (s ∷ [])
      (All-zip (λ r. All (Apart r) rows) (Apart s) (λ r. All (Apart r) (rows ++ s ∷ [])) rows
        (λ r a b. All-append (Apart r) rows (s ∷ []) a (Apart-sym s r b, tt)) h free)
      (All-append (Apart s) rows (s ∷ []) free (Apart-refl s, tt), tt)

abbrev pub BackendsSound : Database → Type 0
BackendsSound db = All Fits db.backend_sessions × AreApart db.backend_sessions × BackendsKeyed db

Write-BackendsSound : (db d : Database) → Write db d → BackendsSound db → BackendsSound d
Write-BackendsSound db d (Steps.Write.writes_jobs p f h e) k = rw e k
Write-BackendsSound db d (Steps.Write.claims_job scope job connector lease now p h e) k = rw e k
Write-BackendsSound db d (Steps.Write.inserts_job scope input hash session target now e) k = rw e k
Write-BackendsSound db d (Steps.Write.inserts_result o s e) k = rw e k
Write-BackendsSound db d (Steps.Write.writes_outbox p f h e) k = rw e k
Write-BackendsSound db d (Steps.Write.inserts_attempt a h e) k = rw e k
Write-BackendsSound db d (Steps.Write.deletes_attempt p e) k = rw e k
Write-BackendsSound db d (Steps.Write.appends_event ev c u q e) k = rw e k
Write-BackendsSound db d (Steps.Write.isolates rows c e) k = rw e k
Write-BackendsSound db d (Steps.Write.releases scope session e) k = rw e k
Write-BackendsSound db d (Steps.Write.writes_intents rows b e) k = rw e k
Write-BackendsSound db d (Steps.Write.inserts_session s a m v u e) k = rw e (
  All-append Fits db.backend_sessions (s ∷ []) k.0 (allowed-Fits db s a, tt),
  append-AreApart db.backend_sessions s (free-All db.backend_sessions s u) k.1,
  λ scope backend session.
      insert-BackendsKeyed scope backend session s db.backend_sessions v
        (k.2 scope backend session),
)
Write-BackendsSound db d (Steps.Write.writes_sessions p f w e) k = rw e (
  update-All Fits p f db.backend_sessions (
      All-zip
        (λ r.
          p r ≡ true
          → SessionStep r (f r)
            × (is_allowed db (f r) ≡ true)
            × (is_taken (update p f db.backend_sessions) (f r) ≡ false))
        Fits (λ r. Fits (if p r then f r else r)) db.backend_sessions
        (λ r c fits. elim (Bool-cases (p r)) [
          | inl t ↦ rw t (allowed-Fits db (f r) (c t).1)
          | inr t ↦ rw t fits
        ])
        w k.0),
  update-AreApart p f db.backend_sessions
      (All-map db.backend_sessions (λ r c t. free-All _ (f r) (c t).2) w) k.1,
  λ scope backend session.
      update-BackendsKeyed scope backend session p f db.backend_sessions
        (All-map db.backend_sessions (λ r c t. (c t).0) w) (k.2 scope backend session),
)
Write-BackendsSound db d (Steps.Write.deletes_sessions p e) k = rw e (
  All-delete Fits p db.backend_sessions k.0,
  All-delete _ p db.backend_sessions
      (All-map db.backend_sessions (λ r a. All-delete (Apart r) p db.backend_sessions a) k.1),
  λ scope backend session.
      delete-BackendsKeyed scope backend session p db.backend_sessions (k.2 scope backend session),
)

-- After every history from the empty store each row of `backend_sessions` meets the CHECK constraints
-- of its table, no two rows have the same scope, backend and session, and two rows with the same
-- session hash, directory, thread of a backend, or active job of a scope are of the same scope,
-- backend and session.
pub history-BackendsSound :
    (js : Runtime) (scope : String) (cs : List (ℕ × Command))
    → BackendsSound (history js scope cs empty)
unfolding empty
history-BackendsSound js scope cs =
    Writes-keep BackendsSound Write-BackendsSound empty _ (history-Writes js scope cs empty)
      (tt, tt, λ scope backend session. tt)
