-- ===== src/Store/Outbox/Attempts.antt =====
-- The table `outbox_delivery_attempts` of src/state/store.ts under one insertion and its deletion.
use livis_chatgpt_bridge.Prelude.{
  ◌≡◌, Bool, true, false, not, ◌&&◌, List, [], ◌∷◌, ◌++◌, String, arith, str_eq,
}
use livis_chatgpt_bridge.Store.Schema.{DeliveryAttemptRow, is_key, is_attempt_of}
use livis_chatgpt_bridge.Store.Table.{exists, delete}
use livis_chatgpt_bridge.Store.Outbox.{latest}

abbrev pub has_message : String → String → DeliveryAttemptRow → Bool
has_message scope message a = is_key scope message a.scope_key a.message_id

-- With a message id that no attempt of the scope has, the deletion takes back the insertion.
pub delete-append_fresh :
    (scope job_id message : String) (rows : List DeliveryAttemptRow) (a : DeliveryAttemptRow)
    → exists (has_message scope message) rows ≡ false
    → (is_attempt_of scope job_id a && str_eq a.message_id message) ≡ true
    → delete (λ b. is_attempt_of scope job_id b && str_eq b.message_id message) (rows ++ a ∷ [])
      ≡ rows
unfolding exists delete
delete-append_fresh scope job_id message [] a fresh new = rw new
delete-append_fresh scope job_id message (b ∷ rows) a fresh new =
    ground (arith, delete-append_fresh scope job_id message rows a)

-- The latest attempt but the failed one is the latest attempt of before.
pub latest-append_fresh :
    (scope job_id message : String) (rows : List DeliveryAttemptRow) (a : DeliveryAttemptRow)
    → exists (has_message scope message) rows ≡ false
    → str_eq a.message_id message ≡ true
    → latest
        (λ b. is_attempt_of scope job_id b && not (str_eq b.message_id message))
        (rows ++ a ∷ [])
      ≡ latest (is_attempt_of scope job_id) rows
unfolding exists latest
latest-append_fresh scope job_id message [] a fresh new = ground arith
latest-append_fresh scope job_id message (b ∷ rows) a fresh new =
    ground (arith, latest-append_fresh scope job_id message rows a)
