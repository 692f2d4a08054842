-- ===== src/Daemon/Refinement.antt =====
-- The calls of src/daemon.ts on its job store as histories of src/state/store.ts.
use livis_chatgpt_bridge.Prelude.{ℕ, ◌≡◌, refl, sym, ◌∙◌, ap, List, [], ◌∷◌, ◌++◌, Option, String}
use livis_chatgpt_bridge.Types.{StoredJob}
use livis_chatgpt_bridge.Store.Schema.{Runtime, Database}
use livis_chatgpt_bridge.Store.Monad.{M, Result}
use livis_chatgpt_bridge.Store.Monad.Inversion.{Answers}
use livis_chatgpt_bridge.Store.Commands.{Command, step, history}
use livis_chatgpt_bridge.Daemon.State.{Config, Moment}
use livis_chatgpt_bridge.Daemon.Dispatch.{claim}
use livis_chatgpt_bridge.Daemon.Frames.{IsCommand, command}
use livis_chatgpt_bridge.Daemon.Commands.{claim-IsCommand}

-- The second database is that of a history of store calls from the first.
abbrev pub Follows : Runtime → String → Database → Database → Type 0
Follows js scope db d = (cs : List (ℕ × Command)) × (history js scope cs db ≡ d)

module _ (js : Runtime) (scope : String) where
  history-append :
      (cs ds : List (ℕ × Command)) (db : Database)
      → history js scope (cs ++ ds) db ≡ history js scope ds (history js scope cs db)
  unfolding history
  history-append [] ds db = refl
  history-append ((now, c) ∷ cs) ds db = history-append cs ds (step js scope now c db)

  pub Follows-trans :
      (a b c : Database) → Follows js scope a b → Follows js scope b c → Follows js scope a c
  Follows-trans a b c (cs, h) (ds, k) =
      (cs ++ ds, history-append cs ds a ∙ ap (history js scope ds) h ∙ k)

  pub step-Follows :
      (now : ℕ) (c : Command) (db : Database) → Follows js scope db (step js scope now c db)
  unfolding history
  step-Follows now c db = ((now, c) ∷ [], refl)

  pub command-Follows {ℓ} :
      {A : Type ℓ} (m : M A) (db : Database) → IsCommand js scope m → Follows js scope db (m db).1
  command-Follows m db (command now c same) = rw (same db) (step-Follows now c db)

  pub claim-Follows :
      (g : Config) (m : Moment) (id execution lease : String) (db d : Database)
      (answer : Option StoredJob)
      → Answers (claim js scope g m id execution lease) db answer d
      → Follows js scope db d
  claim-Follows g m id execution lease db d answer h =
      rw (sym (ap (λ (r : Result (Option StoredJob) × Database). r.1) h)) (
        command-Follows (claim js scope g m id execution lease) db
          (claim-IsCommand js scope g m id execution lease))
