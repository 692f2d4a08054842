-- ===== src/Store/Polling.antt =====
-- What the lists of src/state/store.ts promise to the daemon and to the relay client that poll them:
-- the operation that follows finds its row.
mod Examples
use livis_chatgpt_bridge.Prelude.{
  ℕ, zero, suc, ◌≤◌, ◌≡◌, refl, ap, ◌∙◌, Bool, true, false, not, ◌&&◌, List, [], ◌∷◌, ◌++◌, Option,
  none, some, String, arith, str_eq, str_eq_refl, str_eq_sym, if◌then◌else◌, ltb, length, take, All,
  All-map, All-intro, Bool-cases, Option-cases, inl, inr,
}
use livis_chatgpt_bridge.Types.{ExecutionBackendKind, hermes, codex, claude, is_hermes}
use livis_chatgpt_bridge.Store.Schema.{Database, JobRow, OutboxRow, Runtime, is_job, is_outbox}
use livis_chatgpt_bridge.Store.Table.{select, select_all, exists, select_hit}
use livis_chatgpt_bridge.Store.Jobs.{claimable, is_free}
use livis_chatgpt_bridge.Store.Outbox.{can_start, is_retryable, not_cancelled}
use livis_chatgpt_bridge.Store.Lists.{
  place, order_by, Delivery, with_result, join, is_backend, can_dispatch, dispatchable_rows,
  is_deliverable, pending_rows, due_at,
}

select_all-All {ℓ κ} :
    {A : Type ℓ} (Q : A → Type κ) (p : A → Bool) (rows : List A)
    → All Q rows
    → All (λ r. (p r ≡ true) × Q r) (select_all p rows)
unfolding select_all
select_all-All Q p [] h = tt
select_all-All Q p (r ∷ rows) h = elim (Bool-cases (p r)) [
  | inl e ↦ rw e ((e, h.0), select_all-All Q p rows h.1)
  | inr e ↦ rw e (select_all-All Q p rows h.1)
]

take-All {ℓ κ} :
    {A : Type ℓ} (P : A → Type κ) (n : ℕ) (rows : List A) → All P rows → All P (take n rows)
take-All P zero rows h = tt
take-All P (suc n) [] h = tt
take-All P (suc n) (r ∷ rows) h = (h.0, take-All P n rows h.1)

length-take {ℓ} : {A : Type ℓ} (n : ℕ) (rows : List A) → length (take n rows) ≤ n
length-take zero rows = omega arith
length-take (suc n) [] = omega arith
length-take (suc n) (r ∷ rows) = omega (arith, length-take n rows)

module _ {ℓ} {A : Type ℓ} (key : A → ℕ) where
  abbrev by : A → A → Bool
  by a b = ltb (key b) (key a)

  -- Each row is due no later than those behind it.
  abbrev pub IsOrdered : List A → Type 0
  IsOrdered [] = Unit {0}
  IsOrdered (r ∷ rows) = All (λ s. key r ≤ key s) rows × IsOrdered rows

  place-All {κ} :
      (P : A → Type κ) (r : A) (rows : List A) → P r → All P rows → All P (place by r rows)
  unfolding place
  place-All P r [] p h = (p, tt)
  place-All P r (s ∷ rows) p h = elim (Bool-cases (by r s)) [
    | inl e ↦ rw e (h.0, place-All P r rows p h.1)
    | inr e ↦ rw e (p, h)
  ]

  order_by-All {κ} : (P : A → Type κ) (rows : List A) → All P rows → All P (order_by by rows)
  unfolding order_by
  order_by-All P [] h = tt
  order_by-All P (r ∷ rows) h = place-All P r (order_by by rows) h.0 (order_by-All P rows h.1)

  place-IsOrdered : (r : A) (rows : List A) → IsOrdered rows → IsOrdered (place by r rows)
  unfolding place
  place-IsOrdered r [] h = (tt, tt)
  place-IsOrdered r (s ∷ rows) h = elim (Bool-cases (by r s)) [
    | inl e ↦
        let below : key s ≤ key r = ground arith in
        rw e (place-All (λ x. key s ≤ key x) r rows below h.0, place-IsOrdered r rows h.1)
    | inr e ↦
        let above : key r ≤ key s = ground arith in
        rw e ((above, All-map rows (λ x k. omega (arith, above, k)) h.0), h)
  ]

  order_by-IsOrdered : (rows : List A) → IsOrdered (order_by by rows)
  unfolding order_by
  order_by-IsOrdered [] = tt
  order_by-IsOrdered (r ∷ rows) = place-IsOrdered r (order_by by rows) (order_by-IsOrdered rows)

  take-IsOrdered : (n : ℕ) (rows : List A) → IsOrdered rows → IsOrdered (take n rows)
  take-IsOrdered zero rows h = tt
  take-IsOrdered (suc n) [] h = tt
  take-IsOrdered (suc n) (r ∷ rows) h =
      (take-All (λ s. key r ≤ key s) n rows h.0, take-IsOrdered n rows h.1)

hermes_only : (b : ExecutionBackendKind) → is_backend b hermes ≡ true → is_hermes b ≡ true
hermes_only hermes h = refl
hermes_only codex h = ground arith
hermes_only claude h = ground arith

listed_claimable :
    (js : Runtime) (scope : String) (db : Database) (r : JobRow)
    → can_dispatch scope hermes db r ≡ true
    → claimable js scope r.job_id db r ≡ true
unfolding claimable
listed_claimable js scope db r h =
    let backend : is_backend r.target_backend hermes ≡ true = ground arith in
    ground (arith, hermes_only r.target_backend backend, str_eq_refl r.job_id)

-- The jobs that are listed for the Hermes backend are at most as many as asked for, come in the
-- order of their creation, and each satisfies the condition under which a claim of it succeeds.
pub dispatchable-claimable :
    (js : Runtime) (scope : String) (limit : ℕ) (db : Database)
    → let rows = dispatchable_rows scope hermes limit db in
      All (λ r. claimable js scope r.job_id db r ≡ true) rows
      × IsOrdered (λ (r : JobRow). r.created_at) rows
      × (length rows ≤ limit)
unfolding dispatchable_rows
dispatchable-claimable js scope limit db =
    let p = can_dispatch scope hermes db in
    let chosen =
      select_all-All (λ (r : JobRow). Unit {0}) p db.jobs (All-intro db.jobs (λ r. tt)) in
    let good = All-map (select_all p db.jobs) (λ r h. listed_claimable js scope db r h.0) chosen in
    let created = λ (r : JobRow). r.created_at in
    (
      take-All _ limit _
          (order_by-All created (λ r. claimable js scope r.job_id db r ≡ true) _ good),
      take-IsOrdered created limit _ (order_by-IsOrdered created (select_all p db.jobs)),
      length-take limit _,
    )

-- What holds of a row of the table holds of some row.
members :
    (rows : List JobRow) → All (λ r. (p : JobRow → Bool) → p r ≡ true → exists p rows ≡ true) rows
unfolding exists
members [] = tt
members (r ∷ rows) =
    (λ p e. rw e refl, All-map rows (λ s h p e. ground (arith, h p e)) (members rows))

join-All {κ} :
    (P : JobRow → Type κ) (outbox : List OutboxRow) (jobs : List JobRow)
    → All P jobs
    → All
        (λ (d : Delivery). P d.job × (is_outbox d.job.scope_key d.job.job_id d.result ≡ true))
        (join outbox jobs)
unfolding join with_result
join-All P outbox [] h = tt
join-All P outbox (j ∷ jobs) h =
    elim (Option-cases (select (is_outbox j.scope_key j.job_id) outbox)) [
      | inl e ↦ rw e (join-All P outbox jobs h.1)
      | inr (o, e) ↦
          rw e (
            (h.0, select_hit (is_outbox j.scope_key j.job_id) outbox e),
            join-All P outbox jobs h.1,
          )
    ]

pending_can_start :
    (scope : String) (now : ℕ) (db : Database) (d : Delivery)
    → is_deliverable scope now d ≡ true
    → ((p : JobRow → Bool) → p d.job ≡ true → exists p db.jobs ≡ true)
    → is_outbox d.job.scope_key d.job.job_id d.result ≡ true
    → can_start false now db d.result ≡ true
pending_can_start scope now db d h held key =
    let found = held (λ j. is_job d.result.scope_key d.result.job_id j && not j.cancel_requested) in
    ground (
      arith,
      h,
      key,
      found,
      str_eq_sym d.result.scope_key d.job.scope_key,
      str_eq_sym d.result.job_id d.job.job_id,
    )

-- The results that are listed as pending are at most as many as asked for, come in the order in
-- which they are due, and each satisfies the condition under which its delivery starts at that time.
pub pending-can_start :
    (scope : String) (limit now : ℕ) (db : Database)
    → let rows = pending_rows scope limit now db in
      All (λ (d : Delivery). can_start false now db d.result ≡ true) rows
      × IsOrdered (λ (d : Delivery). due_at d.result) rows
      × (length rows ≤ limit)
unfolding pending_rows
pending-can_start scope limit now db =
    let Held = λ (r : JobRow). (p : JobRow → Bool) → p r ≡ true → exists p db.jobs ≡ true in
    let all = join db.outbox db.jobs in
    let p = is_deliverable scope now in
    let chosen = select_all-All _ p all (join-All Held db.outbox db.jobs (members db.jobs)) in
    let good =
      All-map (select_all p all) (λ d h. pending_can_start scope now db d h.0 h.1.0 h.1.1) chosen in
    let due = λ (d : Delivery). due_at d.result in
    (
      take-All _ limit _ (order_by-All due (λ d. can_start false now db d.result ≡ true) _ good),
      take-IsOrdered due limit _ (order_by-IsOrdered due (select_all p all)),
      length-take limit _,
    )
