-- ===== src/Daemon/Turns/Gate.antt =====
-- The turns of the start and of the upstream checks of src/daemon.ts keep a relation that their parts
-- keep.
use livis_chatgpt_bridge.Prelude.{ℕ, refl, Bool, Option, none, some, String}
use livis_chatgpt_bridge.Store.Schema.{Runtime}
use livis_chatgpt_bridge.Daemon.State.{Config, Moment, starts_relay, starts_backend, relay_stopped}
use livis_chatgpt_bridge.Daemon.Upstream.{
  arm_upstream_proof_expiry, start, started, block_again, recheck, recheck_busy, reopen,
  recheck_supported, unblock, recheck_unsupported, recheck_failed,
}
use livis_chatgpt_bridge.Daemon.Commands.{command_rules}
use livis_chatgpt_bridge.Daemon.Frames.{
  Frame, Keeps, then-Keeps, pure-Keeps, emit-Keeps, await-Keeps, extend-Keeps, keeps_rules,
}
use livis_chatgpt_bridge.Daemon.Turns.{block-Keeps, dispatch-Keeps}

module _ {js : Runtime} {scope : String} (F : Frame js scope) (g : Config) (m : Moment) where
  arm-Keeps : Keeps F (arm_upstream_proof_expiry js scope g m)
  unfolding arm_upstream_proof_expiry
  arm-Keeps = search (keeps_rules, block-Keeps) depth 9

  pub start-Keeps : Keeps F (start js scope g m)
  unfolding start
  start-Keeps = search (keeps_rules, command_rules, emit-Keeps starts_backend refl) depth 12

  pub started-Keeps : Keeps F (started js scope g m)
  unfolding started
  started-Keeps = search (keeps_rules, arm-Keeps, emit-Keeps starts_relay refl)

  again-Keeps :
      (blocked : Option String) (stopped : Bool)
      → Keeps F (block_again js scope g m blocked stopped)
  unfolding block_again
  again-Keeps none stopped = pure-Keeps tt
  again-Keeps (some reason) stopped = search (keeps_rules, block-Keeps)

  pub recheck-Keeps : Keeps F (recheck js scope g m)
  unfolding recheck
  recheck-Keeps = search (keeps_rules, again-Keeps) depth 9

  pub busy-Keeps : Keeps F (recheck_busy js scope g m)
  unfolding recheck_busy
  busy-Keeps = search (keeps_rules, again-Keeps, block-Keeps) depth 9

  reopen-Keeps : (reason : Option String) → Keeps F (reopen js scope g m reason)
  unfolding reopen
  reopen-Keeps none = pure-Keeps tt
  reopen-Keeps (some reason) = then-Keeps (block-Keeps reason) (await-Keeps _)

  pub supported-Keeps :
      (expires_at : ℕ) → F.Lasts expires_at → Keeps F (recheck_supported js scope g m expires_at)
  unfolding recheck_supported
  supported-Keeps expires_at lasts =
      search (keeps_rules, arm-Keeps, reopen-Keeps, extend-Keeps) depth 9

  pub unsupported-Keeps : (c : String) → Keeps F (recheck_unsupported js scope g m c)
  unfolding recheck_unsupported
  unsupported-Keeps c = search (keeps_rules, block-Keeps)

  pub failed-Keeps : (message : String) → Keeps F (recheck_failed js scope g m message)
  unfolding recheck_failed
  failed-Keeps message = search (keeps_rules, again-Keeps, block-Keeps) depth 9

  pub stopped-Keeps : (stopped : Bool) → Keeps F (relay_stopped stopped)
  unfolding relay_stopped
  stopped-Keeps stopped = search keeps_rules

  pub unblock-Keeps : F.Allowed m → Keeps F (unblock js scope g m)
  unfolding unblock
  unblock-Keeps allowed = search (keeps_rules, dispatch-Keeps, emit-Keeps starts_relay refl) depth 9
