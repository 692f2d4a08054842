-- ===== src/Store/Lifecycle.antt =====
-- The life of a job row: the diagram of its status, and what no operation of the store changes.
pub mod Growth
pub mod Fate
use livis_chatgpt_bridge.Prelude.{
  ℕ, suc, ◌≤◌, ◌≡◌, refl, ◌∙◌, Bool, true, false, List, [], ◌∷◌, ◌++◌, Option, String, All, arith,
}
use livis_chatgpt_bridge.Types.{
  JobStatus, received, acked, dispatching, running, cancelling, succeeded, cancelled,
  cancel_unknown, interrupted, failed, rejected, ExecutionBackendKind, is_waiting, is_executing,
  is_cancelling, is_dispatching, is_cancellable, is_terminal,
}
use livis_chatgpt_bridge.Store.Schema.{JobRow, Database}
use livis_chatgpt_bridge.Store.Table.{update, exists, insert_or_ignore}

infix 40 ◌⟶◌ ◌⟶*◌
pub data ◌⟶◌ : JobStatus → JobStatus → Type 0 where
  ack : received ⟶ acked
  claim : received ⟶ dispatching
  claim_acked : acked ⟶ dispatching
  refuse : received ⟶ rejected
  refuse_acked : acked ⟶ rejected
  drop : received ⟶ cancelled
  drop_acked : acked ⟶ cancelled
  unsend : dispatching ⟶ acked
  accept : dispatching ⟶ running
  finish_early : dispatching ⟶ succeeded
  fail_early : dispatching ⟶ failed
  stop_early : dispatching ⟶ cancelling
  lose_early : dispatching ⟶ interrupted
  finish : running ⟶ succeeded
  fail : running ⟶ failed
  stop : running ⟶ cancelling
  lose : running ⟶ interrupted
  settle : cancelling ⟶ cancelled
  give_up : cancelling ⟶ cancel_unknown

pub data ◌⟶*◌ : JobStatus → JobStatus → Type 0 where
  stay : {s : JobStatus} → s ⟶* s
  follow : {s t u : JobStatus} → s ⟶ t → t ⟶* u → s ⟶* u

pub ⟶*_trans : {s t u : JobStatus} → s ⟶* t → t ⟶* u → s ⟶* u
⟶*_trans stay q = q
⟶*_trans (follow e p) q = follow e (⟶*_trans p q)

pub ruleset edges = (
  ack, claim, claim_acked, refuse, refuse_acked, drop, drop_acked, unsend, accept, finish_early,
  fail_early, stop_early, lose_early, finish, fail, stop, lose, settle, give_up,
)

no_way_out : {s t : JobStatus} → s ⟶ t → is_terminal s ≡ true → ⊥
no_way_out ack h = cc
no_way_out claim h = cc
no_way_out _ h = cc

pub terminal_stays : {s t : JobStatus} → s ⟶* t → is_terminal s ≡ true → s ≡ t
terminal_stays stay h = refl
terminal_stays (follow e p) h = absurd (no_way_out e h)
