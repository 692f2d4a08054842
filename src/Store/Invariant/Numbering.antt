-- ===== src/Store/Invariant/Numbering.antt =====
-- The numbers of the events of `execution_attempt_events` of src/state/store.ts.
use livis_chatgpt_bridge.Prelude.{
  suc, max, refl, true, false, ◌&&◌, ◌==◌, if◌then◌else◌, Bool, Bool-cases, inl, inr, arith, sym,
  &&-left, &&-right, ℕ, ◌≡◌, List, [], ◌∷◌, ◌++◌, String, eq_iff, str_eq,
}
use livis_chatgpt_bridge.Store.Ledger.{max_sequence, is_attempt}
use livis_chatgpt_bridge.Store.Ledger.Appends.{IsNext}
use livis_chatgpt_bridge.Store.Commands.{empty, Command, history}
use livis_chatgpt_bridge.Store.Steps.Runs.{Writes-keep, history-Writes}
use livis_chatgpt_bridge.Types.{StoredExecutionAttemptEvent}
use livis_chatgpt_bridge.Store.Schema.{Database, Runtime}
use livis_chatgpt_bridge.Store.Steps
use livis_chatgpt_bridge.Store.Steps.{Write}

-- The events that satisfy the test have the numbers from `n` on, in the order of the list.
unfoldable pub counts_up :
    (StoredExecutionAttemptEvent → Bool) → ℕ → List StoredExecutionAttemptEvent → Bool
counts_up p n [] = true
counts_up p n (e ∷ es) =
    if p e then (e.sequence == n) && counts_up p (suc n) es else counts_up p n es

counts_up-other :
    (p : StoredExecutionAttemptEvent → Bool) (n : ℕ) (es : List StoredExecutionAttemptEvent)
    (e : StoredExecutionAttemptEvent)
    → p e ≡ false
    → counts_up p n (es ++ e ∷ []) ≡ counts_up p n es
unfolding counts_up
counts_up-other p n [] e h = rw h refl
counts_up-other p n (x ∷ es) e h =
    rw (counts_up-other p (suc n) es e h, counts_up-other p n es e h) refl

max_step : (n m : ℕ) → max n (max (suc n) m) ≡ max (suc n) m
max_step n m = omega arith

eq_self : (n : ℕ) → (n == n) ≡ true
eq_self n = ground arith

counts_up-next :
    (p : StoredExecutionAttemptEvent → Bool) (n : ℕ) (es : List StoredExecutionAttemptEvent)
    (e : StoredExecutionAttemptEvent)
    → p e ≡ true
    → e.sequence ≡ suc (max n (max_sequence p es))
    → counts_up p (suc n) es ≡ true
    → counts_up p (suc n) (es ++ e ∷ []) ≡ true
unfolding counts_up max_sequence
counts_up-next p n [] e h q k = ground (arith, h, q)
counts_up-next p n (x ∷ es) e h q k = elim (Bool-cases (p x)) [
  | inl hit ↦
      let number : x.sequence ≡ suc n = ground (arith, hit, k) in
      let rest : counts_up p (suc (suc n)) es ≡ true = ground (arith, hit, k) in
      let next : e.sequence ≡ suc (max (suc n) (max_sequence p es)) =
        rw (hit, number, max_step) at q in
      rw (hit, number, counts_up-next p (suc n) es e h next rest, eq_self) refl
  | inr miss ↦ rw miss (counts_up-next p n es e h (rw miss at q) (rw miss at k))
]

-- The events of every attempt are numbered from 1, in the order of the ledger.
abbrev pub AreNumbered : List StoredExecutionAttemptEvent → Type 0
AreNumbered es =
    (scope id : String) (generation : ℕ) → counts_up (is_attempt scope id generation) 1 es ≡ true

abbrev pub Numbered : Database → Type 0
Numbered db = AreNumbered db.execution_attempt_events

max_zero : (m : ℕ) → max 0 m ≡ m
max_zero m = omega arith

append-AreNumbered :
    (es : List StoredExecutionAttemptEvent) (e : StoredExecutionAttemptEvent)
    → IsNext e es
    → AreNumbered es
    → AreNumbered (es ++ e ∷ [])
append-AreNumbered es e q h scope id generation =
    elim (Bool-cases (is_attempt scope id generation e)) [
      | inl hit ↦
          let key : (str_eq e.scope_key scope && str_eq e.job_id id) ≡ true = &&-left _ _ hit in
          let one : e.scope_key ≡ scope = (eq_iff e.scope_key scope).0 (&&-left _ _ key) in
          let two : e.job_id ≡ id = (eq_iff e.job_id id).0 (&&-right _ _ key) in
          let number : (e.run_generation == generation) ≡ true = &&-right _ _ hit in
          let three : e.run_generation ≡ generation = ground arith in
          let next : e.sequence ≡ suc (max 0 (max_sequence (is_attempt scope id generation) es)) =
            rw (max_zero, sym one, sym two, sym three) q in
          counts_up-next _ 0 es e hit next (h scope id generation)
      | inr miss ↦ rw (counts_up-other _ 1 es e miss) (h scope id generation)
    ]

Write-Numbered : (db d : Database) → Write db d → Numbered db → Numbered d
Write-Numbered db d (Steps.Write.appends_event ev c u q e) h =
    rw e (append-AreNumbered db.execution_attempt_events ev q h)
Write-Numbered db d (Steps.Write.writes_jobs p f k e) h = rw e h
Write-Numbered db d (Steps.Write.claims_job scope job connector lease now p k e) h = rw e h
Write-Numbered db d (Steps.Write.inserts_job scope input hash session target now e) h = rw e h
Write-Numbered db d (Steps.Write.inserts_result o s e) h = rw e h
Write-Numbered db d (Steps.Write.writes_outbox p f k e) h = rw e h
Write-Numbered db d (Steps.Write.inserts_attempt a k e) h = rw e h
Write-Numbered db d (Steps.Write.deletes_attempt p e) h = rw e h
Write-Numbered db d (Steps.Write.isolates rows k e) h = rw e h
Write-Numbered db d (Steps.Write.releases scope session e) h = rw e h
Write-Numbered db d (Steps.Write.writes_intents rows b e) h = rw e h
Write-Numbered db d (Steps.Write.inserts_session s a m v u e) h = rw e h
Write-Numbered db d (Steps.Write.writes_sessions p f w e) h = rw e h
Write-Numbered db d (Steps.Write.deletes_sessions p e) h = rw e h

-- After every history from the empty store the events of each attempt, that is of one job and one
-- generation, have the numbers 1, 2, 3 and so on in the order of the ledger, without a gap and
-- without a repetition.
pub history-Numbered :
    (js : Runtime) (scope : String) (cs : List (ℕ × Command)) → Numbered (history js scope cs empty)
unfolding empty counts_up
history-Numbered js scope cs =
    Writes-keep Numbered Write-Numbered empty _ (history-Writes js scope cs empty) (λ _ _ _. refl)
