-- ===== src/Store/Lifecycle/Fate.antt =====
-- What a history of calls on the job store of src/state/store.ts can do to one job.
use livis_chatgpt_bridge.Prelude.{
  ℕ, ◌≡◌, refl, sym, ap, inl, inr, true, ◌&&◌, List, [], ◌∷◌, some, String, arith, Bool-cases,
  str_eq,
}
use livis_chatgpt_bridge.Types.{is_terminal}
use livis_chatgpt_bridge.Store.Schema.{JobRow, Database, Runtime, is_job}
use livis_chatgpt_bridge.Store.Table.{select}
use livis_chatgpt_bridge.Store.Commands.{Command, history}
use livis_chatgpt_bridge.Store.Lifecycle.{terminal_stays}
use livis_chatgpt_bridge.Store.Lifecycle.Growth.{Evolves, Grows, Identity, Writes-Grows}
use livis_chatgpt_bridge.Store.Steps.Runs.{history-Writes}

same_key : (scope id : String) {r s : JobRow} → Evolves r s → is_job scope id s ≡ is_job scope id r
same_key scope id e =
    sym (ap (λ (i : Identity). str_eq i.scope_key scope && str_eq i.job_id id) e.same)

Grows-select :
    (scope id : String) (xs ys : List JobRow) (r : JobRow)
    → Grows xs ys
    → select (is_job scope id) xs ≡ some r
    → (s : JobRow) × (select (is_job scope id) ys ≡ some s) × Evolves r s
unfolding select
Grows-select scope id [] ys r g e = absurd (ground arith)
Grows-select scope id (x ∷ xs) [] r g e = absurd g
Grows-select scope id (x ∷ xs) (y ∷ ys) r g e = elim (Bool-cases (is_job scope id x)) [
  | inl hit ↦
      let first : x ≡ r = ground arith in
      (y, rw (same_key scope id g.0, hit) refl, rw first at (g.0))
  | inr miss ↦
      let found : select (is_job scope id) xs ≡ some r = rw miss at e in
      let rest = Grows-select scope id xs ys r g.1 found in
      (rest.0, rw (same_key scope id g.0, miss) rest.1, rest.2)
]

module _ (js : Runtime) (scope : String) where
  -- A job that the store holds is held after every history, with the columns of its insertion
  -- unchanged (the target backend and the session among them), a generation that has not fallen and
  -- a status that a path of the diagram leads to.
  pub history-job :
      (cs : List (ℕ × Command)) (db : Database) (id : String) (r : JobRow)
      → select (is_job scope id) db.jobs ≡ some r
      → (s : JobRow) × (select (is_job scope id) (history js scope cs db).jobs ≡ some s)
        × Evolves r s
  history-job cs db id r e =
      Grows-select scope id db.jobs _ r (Writes-Grows (history-Writes js scope cs db)) e

  -- A job in a terminal status has that status after every history.
  pub history-terminal :
      (cs : List (ℕ × Command)) (db : Database) (id : String) (r : JobRow)
      → select (is_job scope id) db.jobs ≡ some r
      → is_terminal r.status ≡ true
      → (s : JobRow) × (select (is_job scope id) (history js scope cs db).jobs ≡ some s)
        × (s.status ≡ r.status)
  history-terminal cs db id r e t =
      let (s, found, evolves) = history-job cs db id r e in
      (s, found, sym (terminal_stays evolves.path t))
