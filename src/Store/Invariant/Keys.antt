-- ===== src/Store/Invariant/Keys.antt =====
-- The primary key of the table `jobs`.
use livis_chatgpt_bridge.Prelude.{
  ℕ, ◌≡◌, refl, sym, ap, ◌∙◌, inl, inr, Bool, true, false, ◌&&◌, List, [], ◌∷◌, ◌++◌, String, arith,
  Bool-cases, str_eq, eq_iff, &&-left, &&-right, str_eq_refl,
}
use livis_chatgpt_bridge.Store.Schema.{JobRow, Database, Runtime, is_job}
use livis_chatgpt_bridge.Store.Table.{
  exists, insert_or_ignore, AtMostOne, AtMostOne-update_where, exists-append,
}
use livis_chatgpt_bridge.Store.Commands.{Command, history, empty}
use livis_chatgpt_bridge.Store.Lifecycle.Growth.{
  Evolves, Identity, RowStep-Evolves, claimed-Evolves,
}
use livis_chatgpt_bridge.Store.Steps
use livis_chatgpt_bridge.Store.Steps.{Write}
use livis_chatgpt_bridge.Store.Steps.Runs.{Writes-keep, history-Writes}

abbrev pub JobsKeyed : Database → Type 0
JobsKeyed db = (scope id : String) → AtMostOne (is_job scope id) db.jobs

key_kept : (scope id : String) {r s : JobRow} → Evolves r s → is_job scope id s ≡ is_job scope id r
key_kept scope id e =
    sym (ap (λ (i : Identity). str_eq i.scope_key scope && str_eq i.job_id id) e.same)

pub append-AtMostOne :
    {A : Type 0} (p : A → Bool) (xs : List A) (y : A)
    → (p y ≡ true → exists p xs ≡ false)
    → AtMostOne p xs
    → AtMostOne p (xs ++ y ∷ [])
unfolding exists
append-AtMostOne p [] y h k = (inr refl, tt)
append-AtMostOne p (x ∷ xs) y h k = (
  ground (arith, h, k.0, exists-append p xs y),
  append-AtMostOne p xs y (λ t. ground (arith, h t)) k.1,
)

-- Two tests of one key agree on every row.
same_test :
    (scope id s i : String) (r : JobRow)
    → is_job scope id r ≡ true
    → is_job s i r ≡ true
    → (s ≡ scope) × (i ≡ id)
same_test scope id s i r h k = (
  sym ((eq_iff r.scope_key s).0 (&&-left _ _ k)) ∙ (eq_iff r.scope_key scope).0 (&&-left _ _ h),
  sym ((eq_iff r.job_id i).0 (&&-right _ _ k)) ∙ (eq_iff r.job_id id).0 (&&-right _ _ h),
)

insert-AtMostOne :
    (scope id s i : String) (y : JobRow) (xs : List JobRow)
    → is_job scope id y ≡ true
    → AtMostOne (is_job s i) xs
    → AtMostOne (is_job s i) (insert_or_ignore (is_job scope id) y xs)
unfolding insert_or_ignore
insert-AtMostOne scope id s i y xs key k = elim (Bool-cases (exists (is_job scope id) xs)) [
  | inl e ↦ rw e k
  | inr e ↦ rw e (
      append-AtMostOne (is_job s i) xs y
        (λ t. let (a, b) = same_test scope id s i y key t in rw (a, b) e) k)
]

Write-JobsKeyed : (db d : Database) → Write db d → JobsKeyed db → JobsKeyed d
Write-JobsKeyed db d (Steps.Write.writes_jobs p f h e) k s i = rw e (
    AtMostOne-update_where (is_job s i) p f db.jobs (λ r m. key_kept s i (RowStep-Evolves (h r m)))
      (k s i))
Write-JobsKeyed db d (Steps.Write.claims_job scope job connector lease now p h e) k s i = rw e (
    AtMostOne-update_where (is_job s i) p _ db.jobs
      (λ r m. key_kept s i (claimed-Evolves connector lease now r (h r m).1)) (k s i))
Write-JobsKeyed db d (Steps.Write.inserts_job scope input hash session target now e) k s i =
    rw e
      (insert-AtMostOne scope input.job_id s i _ db.jobs (is_job_self scope input.job_id) (k s i))
  where
    is_job_self : (a b : String) → str_eq a a && str_eq b b ≡ true
    is_job_self a b = rw (str_eq_refl a, str_eq_refl b)
Write-JobsKeyed db d (Steps.Write.inserts_result o c e) k s i = rw e (k s i)
Write-JobsKeyed db d (Steps.Write.writes_outbox p f h e) k s i = rw e (k s i)
Write-JobsKeyed db d (Steps.Write.inserts_attempt a h e) k s i = rw e (k s i)
Write-JobsKeyed db d (Steps.Write.deletes_attempt p e) k s i = rw e (k s i)
Write-JobsKeyed db d (Steps.Write.appends_event ev c u q e) k s i = rw e (k s i)
Write-JobsKeyed db d (Steps.Write.isolates rows c e) k s i = rw e (k s i)
Write-JobsKeyed db d (Steps.Write.releases scope session e) k s i = rw e (k s i)
Write-JobsKeyed db d (Steps.Write.writes_intents rows b e) k s i = rw e (k s i)
Write-JobsKeyed db d (Steps.Write.inserts_session r a m v u e) k s i = rw e (k s i)
Write-JobsKeyed db d (Steps.Write.writes_sessions p f w e) k s i = rw e (k s i)
Write-JobsKeyed db d (Steps.Write.deletes_sessions p e) k s i = rw e (k s i)

-- After every history from the empty store, no two rows of the table `jobs` have the same scope and
-- job id.
pub history-JobsKeyed :
    (js : Runtime) (scope : String) (cs : List (ℕ × Command))
    → JobsKeyed (history js scope cs empty)
unfolding empty
history-JobsKeyed js scope cs =
    Writes-keep JobsKeyed Write-JobsKeyed empty _ (history-Writes js scope cs empty) (λ s i. tt)
