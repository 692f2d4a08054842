-- ===== src/Daemon/Expiry.antt =====
-- What src/daemon.ts sends to its backend once the proof of the upstream has expired.
use livis_chatgpt_bridge.Prelude.{
  ℕ, ◌≤◌, ◌≡◌, refl, ◌∙◌, true, false, List, [], ◌∷◌, String, All, leb, arith,
}
use livis_chatgpt_bridge.Types.{StoredJob}
use livis_chatgpt_bridge.Protocol.Json.{Text}
use livis_chatgpt_bridge.Store.Schema.{Runtime}
use livis_chatgpt_bridge.Daemon.State.{
  Daemon, Config, Moment, DaemonEffect, dispatches, cancels, acknowledges, rejects, notifies,
  stops_relay, starts_relay, starts_backend, is_upstream_proof_expired,
}
use livis_chatgpt_bridge.Daemon.Loop.{DaemonEvent, supported, run_daemon}
use livis_chatgpt_bridge.Daemon.Frames.{Frame, is_plain}
use livis_chatgpt_bridge.Daemon.Turns.Runs.{run-Frame}

-- The jobs that the effects hand to the backend.
unfoldable pub dispatched_jobs : List DaemonEffect → List StoredJob
dispatched_jobs [] = []
dispatched_jobs (dispatches job ∷ es) = job ∷ dispatched_jobs es
dispatched_jobs (e ∷ es) = dispatched_jobs es

module _ (js : Runtime) (scope : String) where
  not_a_dispatch :
      (e : DaemonEffect) (es : List DaemonEffect)
      → is_plain e ≡ true
      → dispatched_jobs (e ∷ es) ≡ dispatched_jobs es
  unfolding dispatched_jobs
  not_a_dispatch (dispatches job) es h = absurd (ground arith)
  not_a_dispatch (cancels job) es h = refl
  not_a_dispatch (acknowledges job lease) es h = absurd (ground arith)
  not_a_dispatch (rejects job code) es h = refl
  not_a_dispatch notifies es h = refl
  not_a_dispatch stops_relay es h = refl
  not_a_dispatch starts_relay es h = refl
  not_a_dispatch starts_backend es h = refl

  -- The relation admits proofs that end by `t`, and moments from `t` on.
  module _ (t : ℕ) where
    Silent : Daemon → Daemon → Type 0
    Silent c d =
        c.upstream_proof_expires_at ≤ t
        → (d.upstream_proof_expires_at ≤ t)
          × (dispatched_jobs d.effects ≡ dispatched_jobs c.effects)

    expired : (n later : ℕ) → n ≤ t → t ≤ later → leb n later ≡ false → ⊥
    expired n later h k e = ground arith

    silent_frame : Frame js scope
    unfolding Silent is_upstream_proof_expired dispatched_jobs
    silent_frame = record {
      Rel = Silent;
      Allowed = λ m. t ≤ m.later;
      Lasts = λ n. n ≤ t;
      reflexive = λ c h. (h, refl);
      transitive = λ a b c p q h. ((q (p h).0).0, (q (p h).0).1 ∙ (p h).1);
      changed = λ c d h. (h, refl);
      extended = λ c n k h. (k, refl);
      emitted = λ c e k h. (h, not_a_dispatch e c.effects k);
      acknowledged = λ c id lease k h. (h, refl);
      stepped = λ c now cmd h. (h, refl);
      dispatched = λ g m id execution lease c job d allowed lasts answer h.
          absurd (expired c.upstream_proof_expires_at m.later h allowed lasts);
    }

    -- Where the proof has expired by a time, every run of events whose turns read the clock after a
    -- claim at that time or later, and which save only proofs that end by then, hands no job to the
    -- backend, whatever waits, was claimed before or is claimed in the run.
    pub run-expired :
        (text : Text) (g : Config) (es : List (Moment × DaemonEvent)) (c : Daemon)
        → c.upstream_proof_expires_at ≤ t
        → All
            (λ (x : Moment × DaemonEvent). (t ≤ x.0.later) × ((n : ℕ) → x.1 ≡ supported n → n ≤ t))
            es
        → dispatched_jobs (run_daemon js scope text g es c).effects ≡ dispatched_jobs c.effects
    unfolding Silent silent_frame
    run-expired text g es c past granted = (run-Frame silent_frame text g es c granted past).1
