-- ===== src/Relay/Acks.antt =====
-- How src/relay/client.ts relates an ACK to a result, and how long it backs off.
use native.Mathlib.Nat.{pow-le-pow_right, mul-le-mul_left}
use livis_chatgpt_bridge.Prelude.{
  ℕ, ◌*◌, ◌^◌, ◌≤◌, ◌≡◌, refl, ◌∙◌, min, max, ◌⊎◌, inl, inr, Bool, true, ◌&&◌, List, [], ◌∷◌,
  Option, none, some, String, arith, str_eq, str_eq_refl, Option-cases, Bool-cases,
}
use livis_chatgpt_bridge.Types.{StoredOutbox}
use livis_chatgpt_bridge.Store.Schema.{Database, DeliveryAttemptRow, is_key}
use livis_chatgpt_bridge.Store.Table.{select, exists}
use livis_chatgpt_bridge.Store.Reads.{get}
use livis_chatgpt_bridge.Store.Outbox.{find_job_id_by_outbox_message_id}
use livis_chatgpt_bridge.Relay.Delivery.{
  result_recovery_delay_ms, outbox_of_job, non_empty, resolve, resolve_ack_job_id,
}

scaled : (timeout i j : ℕ) → i ≤ j → timeout * 2 ^ i ≤ timeout * 2 ^ j
scaled timeout i j h = mul-le-mul_left timeout (pow-le-pow_right (omega arith) h)

-- The back-off of a result whose retries are used up is at least the smaller of twice the ACK
-- timeout and five minutes, at most five minutes, and no shorter for a larger count.
pub result_recovery_delay_ms-grows :
    (timeout n m : ℕ)
    → n ≤ m
    → (min 300000 (timeout * 2) ≤ result_recovery_delay_ms timeout n)
      × (result_recovery_delay_ms timeout n ≤ result_recovery_delay_ms timeout m)
      × (result_recovery_delay_ms timeout m ≤ 300000)
unfolding result_recovery_delay_ms
result_recovery_delay_ms-grows timeout n m h =
    let low = scaled timeout 1 (min (max n 1) 6) (omega arith) in
    let mid = scaled timeout (min (max n 1) 6) (min (max m 1) 6) (omega (arith, h)) in
    (omega (arith, low), omega (arith, mid), omega arith)

found_row :
    (p f : DeliveryAttemptRow → Bool) (rows : List DeliveryAttemptRow) (a : DeliveryAttemptRow)
    → select p rows ≡ some a
    → f a ≡ true
    → exists (λ r. p r && f r) rows ≡ true
unfolding select exists
found_row p f [] a e t = absurd (ground arith)
found_row p f (r ∷ rows) a e t = elim (Bool-cases (p r)) [
  | inl h ↦ let same : r ≡ a = ground arith in let hit : f r ≡ true = rw same t in ground arith
  | inr h ↦ ground (arith, found_row p f rows a (rw h at e) t)
]

-- An attempt of the message, which belongs to the job.
abbrev pub IsSentAs : String → Database → String → String → Type 0
IsSentAs scope db message id =
    exists
      (λ (a : DeliveryAttemptRow).
        is_key scope message a.scope_key a.message_id && str_eq a.job_id id)
      db.outbox_delivery_attempts
    ≡ true

mapped :
    (scope : String) (db : Database) (message id : String)
    → non_empty (find_job_id_by_outbox_message_id scope message db) ≡ some id
    → IsSentAs scope db message id
unfolding non_empty find_job_id_by_outbox_message_id
mapped scope db message id h =
    let p = λ (a : DeliveryAttemptRow). is_key scope message a.scope_key a.message_id in
    elim (Option-cases (select p db.outbox_delivery_attempts)) [
      | inl e ↦ absurd (ground (arith, rw e at h))
      | inr (a, e) ↦
          let same : a.job_id ≡ id = ground (arith, rw e at h) in
          found_row p (λ r. str_eq r.job_id id) db.outbox_delivery_attempts a e
            (rw same (str_eq_refl id))
    ]

-- The id names a job with a result, or the job of an attempt whose message the ACK names.
abbrev pub IsNamed : String → Database → List String → String → Type 0
IsNamed scope db [] id = ⊥
IsNamed scope db (c ∷ cs) id =
    ((id ≡ c) × ((o : StoredOutbox) × (outbox_of_job (get scope c db) ≡ some o)))
    ⊎ IsSentAs scope db c id
    ⊎ IsNamed scope db cs id

resolve-IsNamed :
    (scope : String) (db : Database) (c : String) (cs : List String) (id : String)
    (found : Option StoredOutbox) (sent rest : Option String)
    → outbox_of_job (get scope c db) ≡ found
    → non_empty (find_job_id_by_outbox_message_id scope c db) ≡ sent
    → (rest ≡ some id → IsNamed scope db cs id)
    → resolve scope found sent c rest ≡ some id
    → IsNamed scope db (c ∷ cs) id
unfolding resolve
resolve-IsNamed scope db c cs id (some o) sent rest e s r h = inl (ground arith, (o, e))
resolve-IsNamed scope db c cs id none (some j) rest e s r h =
    inr (inl (mapped scope db c id (s ∙ h)))
resolve-IsNamed scope db c cs id none none rest e s r h = inr (inr (r h))

-- The job that an ACK is taken for is one that holds a result and is named in the ACK itself, or one
-- of which an attempt was sent under a message id that the ACK names.
pub resolve_ack_job_id-IsNamed :
    (scope : String) (db : Database) (candidates : List String) (id : String)
    → resolve_ack_job_id scope db candidates ≡ some id
    → IsNamed scope db candidates id
unfolding resolve_ack_job_id
resolve_ack_job_id-IsNamed scope db [] id h = ground arith
resolve_ack_job_id-IsNamed scope db (c ∷ cs) id h =
    resolve-IsNamed scope db c cs id _ _ _ refl refl (resolve_ack_job_id-IsNamed scope db cs id) h
