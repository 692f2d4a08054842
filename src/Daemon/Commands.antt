-- ===== src/Daemon/Commands.antt =====
-- The calls of the store that src/daemon.ts makes, as commands.
use livis_chatgpt_bridge.Prelude.{ℕ, ◌≡◌, refl, Bool, true, false, Option, String, if◌then◌else◌}
use livis_chatgpt_bridge.Types.{is_hermes, backend_name}
use livis_chatgpt_bridge.Store.Schema.{Runtime, Database}
use livis_chatgpt_bridge.Store.Monad.{M, Result, ok, err, ◌>>=◌, pure}
use livis_chatgpt_bridge.Store.Intents.{request_cancel}
use livis_chatgpt_bridge.Store.Jobs.{
  mark_acked, mark_running, finish_success, finish_failure, reject, reset_unsent_dispatch,
}
use livis_chatgpt_bridge.Store.Recovery.{
  mark_cancel_unknown, finish_hermes_cancellation_not_started, mark_connector_disconnected,
  recover_after_restart,
}
use livis_chatgpt_bridge.Store.Sessions.Attempt.{Attempt}
use livis_chatgpt_bridge.Store.Sessions.Turns.{
  finish_unsent_backend_cancellation, mark_backend_running, reset_unsent_backend_dispatch,
}
use livis_chatgpt_bridge.Store.Sessions.Endings.{
  finish_backend_success, finish_backend_failure, finish_backend_credential_failure,
  mark_backend_cancel_unknown,
}
use livis_chatgpt_bridge.Store.Sessions.Disconnect.{mark_backend_disconnected}
use livis_chatgpt_bridge.Store.Sessions.Release.{
  release_session_recovery, release_session_recovery_with_receipt, SessionReleaseReceipt,
}
use livis_chatgpt_bridge.Store.Commands.{
  acks, claims, unsends, runs, succeeds, fails, rejects, cancels, loses_cancel, settles_cancel,
  disconnects, restarts, backend_claims, backend_unsends, backend_settles, backend_runs,
  backend_succeeds, backend_fails, credential_fails, backend_loses_cancel, backend_disconnects,
  releases_recovery, step,
}
use livis_chatgpt_bridge.Daemon.State.{Config, Moment}
use livis_chatgpt_bridge.Daemon.Dispatch.{claim}
use livis_chatgpt_bridge.Daemon.Frames.{IsCommand, command}

-- What is computed from an answer leaves the database.
map-state {ℓ κ} :
    {A : Type ℓ} {B : Type κ} (f : A → B) (r : Result A × Database)
    → (elim r.0 as (λ _. Result B × Database) [ ok a ↦ (ok (f a), r.1) | err e ↦ (err e, r.1) ]).1
      ≡ r.1
map-state f (ok a, d) = refl
map-state f (err e, d) = refl

module _ (js : Runtime) (scope : String) (now : ℕ) where
  pub acked-IsCommand : (id : String) → IsCommand js scope (mark_acked js scope id now)
  unfolding step
  acked-IsCommand id = command now (acks id) (λ db. refl)

  pub unsent-IsCommand :
      (id lease : String) → IsCommand js scope (reset_unsent_dispatch js scope id lease now)
  unfolding step
  unsent-IsCommand id lease = command now (unsends id lease) (λ db. refl)

  pub running-IsCommand :
      (id connector lease : String)
      → IsCommand js scope (mark_running js scope id connector lease now)
  unfolding step
  running-IsCommand id connector lease = command now (runs id connector lease) (λ db. refl)

  pub success-IsCommand :
      (id lease result : String) → IsCommand js scope (finish_success js scope id lease result now)
  unfolding step
  success-IsCommand id lease result = command now (succeeds id lease result) (λ db. refl)

  pub failure-IsCommand :
      (id lease result error : String)
      → IsCommand js scope (finish_failure js scope id lease result error now)
  unfolding step
  failure-IsCommand id lease result error = command now (fails id lease result error) (λ db. refl)

  pub reject-IsCommand :
      (id result reason : String) → IsCommand js scope (reject js scope id result reason now)
  unfolding step
  reject-IsCommand id result reason = command now (rejects id result reason) (λ db. refl)

  pub cancel-IsCommand : (id : String) → IsCommand js scope (request_cancel scope id now)
  unfolding step
  cancel-IsCommand id = command now (cancels id) (λ db. refl)

  pub unknown-IsCommand :
      (id lease reason : String)
      → IsCommand js scope (mark_cancel_unknown js scope id lease reason now)
  unfolding step
  unknown-IsCommand id lease reason = command now (loses_cancel id lease reason) (λ db. refl)

  pub not_started-IsCommand :
      (id lease : String)
      → IsCommand js scope (finish_hermes_cancellation_not_started js scope id lease now)
  unfolding step
  not_started-IsCommand id lease = command now (settles_cancel id lease) (λ db. refl)

  pub disconnected-IsCommand :
      (id : String) → IsCommand js scope (mark_connector_disconnected js scope id now)
  unfolding step
  disconnected-IsCommand id = command now (disconnects id) (λ db. refl)

  pub restart-IsCommand : IsCommand js scope (recover_after_restart js scope now)
  unfolding step
  restart-IsCommand = command now restarts (λ db. refl)

  pub backend_unsent-IsCommand :
      (a : Attempt) → IsCommand js scope (reset_unsent_backend_dispatch js scope a now)
  unfolding step
  backend_unsent-IsCommand a = command now (backend_unsends a) (λ db. refl)

  pub backend_settled-IsCommand :
      (a : Attempt) → IsCommand js scope (finish_unsent_backend_cancellation js scope a now)
  unfolding step
  backend_settled-IsCommand a = command now (backend_settles a) (λ db. refl)

  pub backend_running-IsCommand :
      (a : Attempt) (turn : String) → IsCommand js scope (mark_backend_running js scope a turn now)
  unfolding step
  backend_running-IsCommand a turn = command now (backend_runs a turn) (λ db. refl)

  pub backend_success-IsCommand :
      (a : Attempt) (turn result : String)
      → IsCommand js scope (finish_backend_success js scope a turn result now)
  unfolding step
  backend_success-IsCommand a turn result =
      command now (backend_succeeds a turn result) (λ db. refl)

  pub backend_failure-IsCommand :
      (a : Attempt) (turn result error : String)
      → IsCommand js scope (finish_backend_failure js scope a turn result error now)
  unfolding step
  backend_failure-IsCommand a turn result error =
      command now (backend_fails a turn result error) (λ db. refl)

  pub credential-IsCommand :
      (a : Attempt) (turn result error reason : String)
      → IsCommand js scope
          (finish_backend_credential_failure js scope a turn result error reason now)
  unfolding step
  credential-IsCommand a turn result error reason =
      command now (credential_fails a turn result error reason) (λ db. refl)

  pub backend_unknown-IsCommand :
      (a : Attempt) (turn : Option String) (reason : String)
      → IsCommand js scope (mark_backend_cancel_unknown js scope a turn reason now)
  unfolding step
  backend_unknown-IsCommand a turn reason =
      command now (backend_loses_cancel a turn reason) (λ db. refl)

  pub backend_disconnected-IsCommand :
      (backend id reason : String)
      → IsCommand js scope (mark_backend_disconnected js scope backend id reason now)
  unfolding step
  backend_disconnected-IsCommand backend id reason =
      command now (backend_disconnects backend id reason) (λ db. refl)

  pub if-IsCommand {ℓ} :
      {A : Type ℓ} (b : Bool) {m k : M A}
      → IsCommand js scope m
      → IsCommand js scope k
      → IsCommand js scope (if b then m else k)
  if-IsCommand true hm hk = hm
  if-IsCommand false hm hk = hk

  pub release-IsCommand :
      (session : String) → IsCommand js scope (release_session_recovery scope session)
  unfolding step release_session_recovery ◌>>=◌ pure
  release-IsCommand session = command now (releases_recovery session) (λ db.
      map-state (λ (r : SessionReleaseReceipt). r.released)
        (release_session_recovery_with_receipt scope session db))

pub claim-IsCommand :
    (js : Runtime) (scope : String) (g : Config) (m : Moment) (job_id id lease : String)
    → IsCommand js scope (claim js scope g m job_id id lease)
unfolding claim step
claim-IsCommand js scope g m job_id id lease =
    if-IsCommand js scope m.now (is_hermes g.backend)
      (command m.now (claims job_id id lease) (λ db. refl))
      (command m.now (backend_claims job_id (backend_name g.backend) id lease) (λ db. refl))

pub ruleset command_rules = (
  acked-IsCommand, unsent-IsCommand, running-IsCommand, success-IsCommand, failure-IsCommand,
  reject-IsCommand, cancel-IsCommand, unknown-IsCommand, not_started-IsCommand,
  disconnected-IsCommand, restart-IsCommand, backend_unsent-IsCommand, backend_settled-IsCommand,
  backend_running-IsCommand, backend_success-IsCommand, backend_failure-IsCommand,
  credential-IsCommand, backend_unknown-IsCommand, backend_disconnected-IsCommand, if-IsCommand,
  release-IsCommand, claim-IsCommand,
)
