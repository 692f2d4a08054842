-- ===== src/Daemon/Upstream.antt =====
-- src/daemon.ts: the start, and the gate that the upstream checks open and close.
use Prim.Native.String.{◌++◌}
use livis_chatgpt_bridge.Prelude.{
  Bool, true, false, not, ◌&&◌, List, [], ◌∷◌, Option, none, some, String, if◌then◌else◌, ℕ,
}
use livis_chatgpt_bridge.Types.{codex, claude}
use livis_chatgpt_bridge.Store.Schema.{Runtime}
use livis_chatgpt_bridge.Store.Lists.{list_backend_backlog, is_backend, BackendBacklogCount}
use livis_chatgpt_bridge.Store.Recovery.{recover_after_restart}
use livis_chatgpt_bridge.Daemon.State.{
  Config, Moment, D, ◌>>=◌, ◌>>◌, pure, read, change, extend, perform, await, call, guard, finish,
  starting, unblocking, starts_relay, starts_backend, is_upstream_proof_expired, block_for_upstream,
  inactive_backlog, not_acknowledged,
}
use livis_chatgpt_bridge.Daemon.Dispatch.{upstream_proof_expired_reason, dispatch_pending, is_some}

abbrev pub busy_reason : String
busy_reason = "profile operation guard 被占用且 supported proof 已过期"

abbrev pub unsupported_reason : String → String
unsupported_reason compatibility = "官方 upstream 兼容状态变为 " ++ compatibility

abbrev pub recheck_failed_reason : String → String
recheck_failed_reason message = "在线复核失败且 supported proof 已过期：" ++ message

module _ (js : Runtime) (scope : String) (g : Config) (m : Moment) where
  -- `armUpstreamProofExpiry`: whether the proof lasts; the timer's end is an event of the loop.
  unfoldable pub arm_upstream_proof_expiry : D Bool
  unfolding ◌>>=◌ ◌>>◌ pure read block_for_upstream
  arm_upstream_proof_expiry = do
    stopping ← read λ c. c.stopping
    expired ← read (is_upstream_proof_expired m.now)
    if stopping
        then pure false
        else (if expired
            then (block_for_upstream upstream_proof_expired_reason >> pure false)
            else pure true)

  unfoldable pub all_of_backend : List BackendBacklogCount → Bool
  all_of_backend [] = true
  all_of_backend (b ∷ bs) = is_backend b.backend g.backend && all_of_backend bs

  -- `start`, up to the start of the backend: jobs of another backend that have not ended forbid it,
  -- and the store recovers.
  unfoldable pub start : D (Unit {0})
  unfolding ◌>>=◌ ◌>>◌ read guard call perform await all_of_backend
  start = do
    guard g.acknowledge_unofficial_protocol not_acknowledged
    guard (not (is_backend g.backend codex && not g.acknowledge_codex)) not_acknowledged
    guard (not (is_backend g.backend claude && not g.acknowledge_claude)) not_acknowledged
    backlog ← read λ c. list_backend_backlog scope c.db
    guard (all_of_backend backlog) inactive_backlog
    call (recover_after_restart js scope m.now)
    perform starts_backend
    await starting

  -- The rest of `start`: the relay starts where the proof lasts.
  unfoldable pub started : D (Unit {0})
  unfolding ◌>>=◌ pure perform arm_upstream_proof_expiry
  started = arm_upstream_proof_expiry >>= λ lasts. if lasts then perform starts_relay else pure tt

  -- The gate closes again where it has closed and the relay has not stopped.
  unfoldable pub block_again : Option String → Bool → D (Unit {0})
  unfolding pure block_for_upstream
  block_again none stopped = pure tt
  block_again (some reason) stopped = if stopped then pure tt else block_for_upstream reason

  -- `runUpstreamRecheck` with its guard, up to the check.
  unfoldable pub recheck : D (Unit {0})
  unfolding ◌>>=◌ pure read block_again
  recheck = do
    stopping ← read λ c. c.stopping
    blocked ← read λ c. c.upstream_blocked
    stopped ← read λ c. c.upstream_relay_stopped
    if stopping then pure tt else block_again blocked stopped

  -- `runUpstreamRecheck` where another operation holds the guard.
  unfoldable pub recheck_busy : D (Unit {0})
  unfolding ◌>>=◌ pure read block_for_upstream block_again
  recheck_busy = do
    stopping ← read λ c. c.stopping
    expired ← read (is_upstream_proof_expired m.now)
    blocked ← read λ c. c.upstream_blocked
    stopped ← read λ c. c.upstream_relay_stopped
    if stopping
        then pure tt
        else (if expired then block_for_upstream busy_reason else block_again blocked stopped)

  unfoldable pub reopen : Option String → D (Unit {0})
  unfolding ◌>>◌ pure block_for_upstream await
  reopen none = pure tt
  reopen (some reason) = block_for_upstream reason >> await unblocking

  -- `runUpstreamRecheck` once it has saved a proof: a closed gate waits for the stop of the relay.
  unfoldable pub recheck_supported : ℕ → D (Unit {0})
  unfolding ◌>>=◌ ◌>>◌ pure read extend arm_upstream_proof_expiry reopen
  recheck_supported expires_at = do
    stopping ← read λ c. c.stopping
    if stopping then pure tt else (do
      extend expires_at
      lasts ← arm_upstream_proof_expiry
      blocked ← read λ c. c.upstream_blocked
      if lasts then reopen blocked else pure tt)

  -- The reopening, once the relay has stopped.
  unfoldable pub unblock : D (Unit {0})
  unfolding ◌>>=◌ ◌>>◌ pure read change perform dispatch_pending
  unblock = do
    stopping ← read λ c. c.stopping
    expired ← read (is_upstream_proof_expired m.now)
    if stopping
        then pure tt
        else (if expired
            then change (λ c. record c { upstream_blocked = some upstream_proof_expired_reason })
            else (change (λ c. record c { upstream_blocked = none; upstream_relay_stopped = false })
                >> perform starts_relay
                >> dispatch_pending js scope g m finish))

  -- `runUpstreamRecheck` where the upstream is not supported.
  unfoldable pub recheck_unsupported : String → D (Unit {0})
  unfolding ◌>>=◌ pure read block_for_upstream
  recheck_unsupported compatibility = do
    stopping ← read λ c. c.stopping
    if stopping then pure tt else block_for_upstream (unsupported_reason compatibility)

  -- `runUpstreamRecheck` where the check or the save throws before a stop of the relay was tried.
  unfoldable pub recheck_failed : String → D (Unit {0})
  unfolding ◌>>=◌ pure read block_for_upstream block_again is_some
  recheck_failed message = do
    stopping ← read λ c. c.stopping
    expired ← read (is_upstream_proof_expired m.now)
    blocked ← read λ c. c.upstream_blocked
    stopped ← read λ c. c.upstream_relay_stopped
    if stopping
        then pure tt
        else (if is_some blocked
            then block_again blocked stopped
            else (if expired then block_for_upstream (recheck_failed_reason message) else pure tt))
