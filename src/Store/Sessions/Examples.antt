-- ===== src/Store/Sessions/Examples.antt =====
-- Backend sessions of src/state/store.ts at concrete inputs.
use Prim.Native.String.{count}
use livis_chatgpt_bridge.Prelude.{
  ℕ, ◌≡◌, refl, ◌⊎◌, inr, true, false, List, [], ◌∷◌, none, some, String, str_eq,
}
use livis_chatgpt_bridge.Types.{StoredBackendSession, IncomingRelayJob, subject, codex}
use livis_chatgpt_bridge.Store.Schema.{Database, JobRow, Runtime}
use livis_chatgpt_bridge.Store.Table.{
  select_all, select, exists, update, changes, delete, insert_or_ignore,
}
use livis_chatgpt_bridge.Store.Jobs.{new_row, claimed_row}
use livis_chatgpt_bridge.Store.Sessions.Bind.{ensured_row}
use livis_chatgpt_bridge.Store.Sessions.Endings.{lost_row, interrupted}
use livis_chatgpt_bridge.Store.Monad.{
  ◌>>=◌, ◌>>◌, transaction, update_jobs, update_outbox, query, when, pure, throw, run,
  insert_unless,
}
use livis_chatgpt_bridge.Store.Ledger.{
  append_execution_attempt_event, append_to, event_for, insert_result, insert_event,
  satisfies_checks, max_sequence, bounded_attempt_reason, metadata_complete, is_sha256?, all_hex,
  reason_fits,
}
use livis_chatgpt_bridge.Store.Lists.{order_by, place, each}
use livis_chatgpt_bridge.Store.Intents.{
  prune_expired_pending_cancels, consume_all_matched_pending_cancels,
  trim_legacy_pending_cancel_overflow, keep_newest,
}
use livis_chatgpt_bridge.Store.Sessions.Table.{
  update_sessions, is_allowed, is_taken, clashes, columns_fit, attempt_fits, delete_sessions,
}
use livis_chatgpt_bridge.Store.Recovery.{
  recover_after_restart, recover_active, flag_sessions, end_active, active_attempts, for_each,
  ended_event, quarantine_all, quarantine,
}
use livis_chatgpt_bridge.Store.Restart.{AtRest, recover_after_restart-AtRest}
use livis_chatgpt_bridge.Store.Commands.{Command, ingests, ensures, binds_thread, backend_claims}
use livis_chatgpt_bridge.Store.Sessions.Input.{EnsureBackendSessionInput}
use livis_chatgpt_bridge.Store.Sessions.Attempt.{reserved_session, flagged_session}
use livis_chatgpt_bridge.Store.Sessions.Turns.{claim_for_backend_dispatch}
use livis_chatgpt_bridge.Store.Sessions.Release.{
  release_idle, release_recovering, delete_quarantine, backends_of, text_after,
  SessionReleaseReceipt, release_session_recovery_with_receipt,
}
use livis_chatgpt_bridge.Store.Sessions.Receipt.{
  Released, is_busy, release_session_recovery_with_receipt-IsHonest,
}

abbrev js : Runtime
js = record {
  sha256 = λ s. s;
  stringify = λ b. b.text;
  string_length = count;
  number_to_string = λ n. "n";
  trims_to_nothing = λ s. str_eq s "";
}

abbrev job : IncomingRelayJob
job = record {
  job_id = "j1";
  message_id = "m1";
  from_node_id = "glasses";
  from_node_type = none;
  text = "hello";
  timestamp = 5;
  raw_payload = "{}";
}

abbrev digest : String
digest = "0123456789abcdef0123456789abcdef0123456789abcdef0123456789abcdef"

abbrev session : EnsureBackendSessionInput
session = record {
  backend = "codex";
  session_key = "s";
  session_hash = digest;
  cwd = "/work";
  cli_version = "1.0";
  account_type = "plus";
  account_subject_sha256 = some digest;
  account_identity_strength = subject;
  requested_model = none;
  effective_model = "gpt";
  model_provider = "openai";
  security_config_sha256 = digest;
  feature_snapshot_sha256 = digest;
  checkpoint = record {
    turn_id = none;
    turn_status = none;
    turn_count = 0;
    turns_sha256 = digest;
    at = 9;
  };
}

-- A session with its thread, a job of it, and a turn.
abbrev morning : List (ℕ × Command)
morning =
    (9, ensures session)
    ∷ (10, binds_thread "codex" "s" "t1")
    ∷ (11, ingests job "s" codex)
    ∷ (12, backend_claims "j1" "codex" "c" "l1")
    ∷ []

-- A job that waits for the session, that runs in it, and that was lost.
abbrev ready_job : JobRow
ready_job = new_row "me" job "hello" "s" codex 11

abbrev ready_session : StoredBackendSession
ready_session = record (ensured_row "me" session 9) { thread_id = some "t1"; updated_at = 10 }

abbrev ready : Database
ready = record {
  jobs = ready_job ∷ [];
  outbox = [];
  outbox_delivery_attempts = [];
  session_quarantine = [];
  pending_cancels = [];
  backend_sessions = ready_session ∷ [];
  execution_attempt_events = [];
}

abbrev running_turn : Database
running_turn = record ready {
  jobs = claimed_row "c" "l1" 12 ready_job ∷ [];
  backend_sessions = reserved_session "j1" "l1" 1 12 ready_session ∷ [];
}

abbrev lost_turn : Database
lost_turn = record ready {
  jobs = lost_row interrupted "lost" 14 (claimed_row "c" "l1" 12 ready_job) ∷ [];
  session_quarantine =
      record { scope_key = "me"; session_key = "s"; reason = "lost"; created_at = 14 } ∷ [];
  backend_sessions = flagged_session none 14 (reserved_session "j1" "l1" 1 12 ready_session) ∷ [];
}

abbrev taken : Database
taken = (claim_for_backend_dispatch js "me" "j1" "codex" "c" "l1" 12 ready).1

abbrev restarted : Database
restarted = (recover_after_restart js "me" 20 running_turn).1

recover_after_restart-AtRest_example : AtRest "me" restarted
unfolding recover_after_restart recover_active flag_sessions end_active active_attempts for_each
    ended_event quarantine_all quarantine insert_or_ignore update_outbox run
    prune_expired_pending_cancels consume_all_matched_pending_cancels
    trim_legacy_pending_cancel_overflow keep_newest delete exists select update changes ◌>>=◌ ◌>>◌
    transaction update_jobs query when pure throw claimed_row append_execution_attempt_event
    append_to event_for insert_result insert_event insert_unless satisfies_checks max_sequence
    bounded_attempt_reason metadata_complete is_sha256? all_hex reason_fits update_sessions
    is_allowed is_taken clashes columns_fit attempt_fits
recover_after_restart-AtRest_example =
    recover_after_restart-AtRest js "me" 20 running_turn restarted
      (record { interrupted = 1; cancel_unknown = 0; outbox_pending = 0 }) refl

abbrev released_turn : Database
released_turn = (release_session_recovery_with_receipt "me" "s" lost_turn).1

abbrev receipt : SessionReleaseReceipt
receipt = record {
  released = true;
  retired_backend_sessions = "codex" ∷ [];
  released_quarantine_without_backend_session = false;
}

release_session_recovery_with_receipt-IsHonest_example :
    (true ≡ false) × (released_turn ≡ lost_turn)
    ⊎ (true ≡ true)
      × (exists (is_busy "me" "s") lost_turn.jobs ≡ false)
      × Released "me" "s" lost_turn released_turn
unfolding claimed_row release_session_recovery_with_receipt release_idle release_recovering
    delete_quarantine delete_sessions backends_of order_by place each select_all text_after delete
    run exists select update changes ◌>>=◌ ◌>>◌ transaction update_jobs query when pure throw
release_session_recovery_with_receipt-IsHonest_example =
    release_session_recovery_with_receipt-IsHonest "me" "s" lost_turn released_turn receipt
      (inr refl, tt) refl
