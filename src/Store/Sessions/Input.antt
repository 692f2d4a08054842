-- ===== src/Store/Sessions/Input.antt =====
-- src/state/store.ts: the inputs of the calls on backend sessions, and their validation.
use livis_chatgpt_bridge.Prelude.{
  ℕ, Bool, true, not, ◌&&◌, Option, none, some, String, ◌==◌, ltb, leb, if◌then◌else◌,
}
use livis_chatgpt_bridge.Types.{
  BackendAccountIdentityStrength, subject, type_only, BackendCheckpointTurnStatus,
}
use livis_chatgpt_bridge.Store.Schema.{Runtime}
use livis_chatgpt_bridge.Store.Ledger.{is_null, is_sha256?}
use livis_chatgpt_bridge.Store.Sessions.Table.{same_text}

-- The five fields of a checkpoint that three inputs share.
pub record Checkpoint : Type 0 where
  pub turn_id : Option String
  pub turn_status : Option BackendCheckpointTurnStatus
  pub turn_count : ℕ
  pub turns_sha256 : String
  pub at : ℕ

pub record EnsureBackendSessionInput : Type 0 where
  pub backend : String
  pub session_key : String
  pub session_hash : String
  pub cwd : String
  pub cli_version : String
  pub account_type : String
  pub account_subject_sha256 : Option String
  pub account_identity_strength : BackendAccountIdentityStrength
  pub requested_model : Option String
  pub effective_model : String
  pub model_provider : String
  pub security_config_sha256 : String
  pub feature_snapshot_sha256 : String
  pub checkpoint : Checkpoint

pub record CreateLocalOpaqueBackendSessionInput : Type 0 where
  pub backend : String
  pub session_key : String
  pub session_hash : String
  pub thread_id : String
  pub cwd : String
  pub cli_version : String
  pub requested_model : Option String
  pub effective_model : String
  pub model_provider : String
  pub security_config_sha256 : String
  pub feature_snapshot_sha256 : String
  pub checkpoint : Checkpoint

pub data BackendThreadTailFence : Type 0 where
  idle : BackendThreadTailFence
  active : String → String → ℕ → String → BackendThreadTailFence

pub record CheckpointBackendThreadTailInput : Type 0 where
  pub backend : String
  pub session_key : String
  pub thread_id : String
  pub checkpoint : Checkpoint
  pub fence : BackendThreadTailFence

-- Number.MAX_SAFE_INTEGER
abbrev pub max_safe_integer : ℕ
max_safe_integer = 9007199254740991

abbrev pub strength_fits : BackendAccountIdentityStrength → Option String → Bool
strength_fits subject digest = not (is_null digest)
strength_fits type_only digest = is_null digest

-- Each test is true where the function of the source throws no error.
module _ (js : Runtime) where
  unfoldable pub is_metadata : ℕ → String → Bool
  is_metadata max_length value =
      not (js.string_length value == 0) && leb (js.string_length value) max_length

  abbrev pub is_metadata? : ℕ → Option String → Bool
  is_metadata? max_length none = true
  is_metadata? max_length (some value) = is_metadata max_length value

  unfoldable pub is_checkpoint : Checkpoint → Bool
  unfolding is_metadata is_sha256?
  is_checkpoint c =
      leb c.turn_count max_safe_integer
      && leb c.at max_safe_integer
      && is_sha256? (some c.turns_sha256)
      && (if c.turn_count == 0
          then is_null c.turn_id && is_null c.turn_status
          else not (is_null c.turn_id) && not (is_null c.turn_status) && is_metadata? 256 c.turn_id)

  unfoldable pub is_ensure_input : EnsureBackendSessionInput → Bool
  unfolding is_checkpoint
  is_ensure_input i =
      is_metadata 32 i.backend
      && is_metadata 4096 i.session_key
      && is_sha256? (some i.session_hash)
      && is_metadata 4096 i.cwd
      && is_metadata 64 i.cli_version
      && is_metadata 64 i.account_type
      && is_sha256? i.account_subject_sha256
      && strength_fits i.account_identity_strength i.account_subject_sha256
      && is_metadata? 256 i.requested_model
      && is_metadata 256 i.effective_model
      && is_metadata 128 i.model_provider
      && is_sha256? (some i.security_config_sha256)
      && is_sha256? (some i.feature_snapshot_sha256)
      && is_checkpoint i.checkpoint

  unfoldable pub is_local_opaque_input : CreateLocalOpaqueBackendSessionInput → Bool
  unfolding is_checkpoint
  is_local_opaque_input i =
      is_metadata 32 i.backend
      && is_metadata 4096 i.session_key
      && is_sha256? (some i.session_hash)
      && is_metadata 256 i.thread_id
      && is_metadata 4096 i.cwd
      && is_metadata 64 i.cli_version
      && is_metadata? 256 i.requested_model
      && is_metadata 256 i.effective_model
      && is_metadata 128 i.model_provider
      && is_sha256? (some i.security_config_sha256)
      && is_sha256? (some i.feature_snapshot_sha256)
      && is_checkpoint i.checkpoint

  abbrev pub is_fence : Option String → BackendThreadTailFence → Bool
  is_fence tail idle = true
  is_fence tail (active job_id lease_id run_generation turn_id) =
      is_metadata 4096 job_id
      && is_metadata 4096 lease_id
      && is_metadata 256 turn_id
      && leb run_generation max_safe_integer
      && ltb 0 run_generation
      && same_text tail (some turn_id)

  unfoldable pub is_checkpoint_input : CheckpointBackendThreadTailInput → Bool
  unfolding is_checkpoint
  is_checkpoint_input i =
      is_metadata 32 i.backend
      && is_metadata 4096 i.session_key
      && is_metadata 256 i.thread_id
      && is_checkpoint i.checkpoint
      && is_fence i.checkpoint.turn_id i.fence
