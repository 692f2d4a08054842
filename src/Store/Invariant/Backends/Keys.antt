-- ===== src/Store/Invariant/Backends/Keys.antt =====
-- The primary key of the table `backend_sessions`.
use livis_chatgpt_bridge.Prelude.{
  ◌≡◌, refl, ◌∙◌, Bool, true, false, ◌&&◌, List, [], ◌∷◌, ◌++◌, String, All, All-map, arith, str_eq,
  eq_iff, &&-left, &&-right,
}
use livis_chatgpt_bridge.Types.{StoredBackendSession}
use livis_chatgpt_bridge.Store.Schema.{Database}
use livis_chatgpt_bridge.Store.Table.{update, delete, exists, AtMostOne}
use livis_chatgpt_bridge.Store.Sessions.Table.{is_backend_session, same_session}
use livis_chatgpt_bridge.Store.Steps
use livis_chatgpt_bridge.Store.Steps.{SessionStep, Write}
use livis_chatgpt_bridge.Store.Invariant.Keys.{append-AtMostOne}

module _ {A : Type 0} (key p : A → Bool) where
  exists-update_rows :
      (f : A → A) (rows : List A)
      → All (λ r. p r ≡ true → key (f r) ≡ key r) rows
      → exists key (update p f rows) ≡ exists key rows
  unfolding exists update
  exists-update_rows f [] h = refl
  exists-update_rows f (r ∷ rows) h = ground (arith, h.0, exists-update_rows f rows h.1)

  AtMostOne-update_rows :
      (f : A → A) (rows : List A)
      → All (λ r. p r ≡ true → key (f r) ≡ key r) rows
      → AtMostOne key rows
      → AtMostOne key (update p f rows)
  unfolding update
  AtMostOne-update_rows f [] h k = tt
  AtMostOne-update_rows f (r ∷ rows) h k =
      ground (arith, h.0, exists-update_rows f rows h.1, AtMostOne-update_rows f rows h.1 k.1)

  pub exists-delete : (rows : List A) → exists key rows ≡ false → exists key (delete p rows) ≡ false
  unfolding exists delete
  exists-delete [] h = refl
  exists-delete (r ∷ rows) h = ground (arith, exists-delete rows)

  AtMostOne-delete : (rows : List A) → AtMostOne key rows → AtMostOne key (delete p rows)
  unfolding delete
  AtMostOne-delete [] k = tt
  AtMostOne-delete (r ∷ rows) k = ground (arith, exists-delete rows, AtMostOne-delete rows k.1, k.0)

SessionStep-key :
    (scope backend session : String) {r s : StoredBackendSession}
    → SessionStep r s
    → is_backend_session scope backend session s ≡ is_backend_session scope backend session r
SessionStep-key scope backend session (Steps.SessionStep.binds_metadata i now o a c e) = rw e refl
SessionStep-key scope backend session (Steps.SessionStep.binds_thread thread now n q e) = rw e refl
SessionStep-key scope backend session (Steps.SessionStep.checkpoints c now q o g e) = rw e refl
SessionStep-key scope backend session (Steps.SessionStep.reserves job lease g now n q e) = rw e refl
SessionStep-key scope backend session (Steps.SessionStep.turns turn now n q e) = rw e refl
SessionStep-key scope backend session (Steps.SessionStep.vacates now q e) = rw e refl
SessionStep-key scope backend session (Steps.SessionStep.flags turn now e) = rw e refl

-- The tests of one row's key and of a key that it has agree.
same_key :
    (scope backend session : String) (r s : StoredBackendSession)
    → is_backend_session scope backend session r ≡ true
    → is_backend_session scope backend session s ≡ same_session r s
same_key scope backend session r s h =
    let a : r.scope_key ≡ scope = (eq_iff r.scope_key scope).0 (&&-left _ _ h) in
    let rest : (str_eq r.backend backend && str_eq r.session_key session) ≡ true =
      &&-right (str_eq r.scope_key scope) _ h in
    let b : r.backend ≡ backend = (eq_iff r.backend backend).0 (&&-left _ _ rest) in
    let c : r.session_key ≡ session =
      (eq_iff r.session_key session).0 (&&-right (str_eq r.backend backend) _ rest) in
    rw (a, b, c) refl

exists-same :
    (scope backend session : String) (r : StoredBackendSession) (rows : List StoredBackendSession)
    → is_backend_session scope backend session r ≡ true
    → exists (is_backend_session scope backend session) rows ≡ exists (same_session r) rows
unfolding exists
exists-same scope backend session r [] h = refl
exists-same scope backend session r (s ∷ rows) h =
    rw (same_key scope backend session r s h, exists-same scope backend session r rows h) refl

abbrev pub BackendsKeyed : Database → Type 0
BackendsKeyed db =
    (scope backend session : String)
    → AtMostOne (is_backend_session scope backend session) db.backend_sessions

pub insert-BackendsKeyed :
    (scope backend session : String) (r : StoredBackendSession) (rows : List StoredBackendSession)
    → exists (same_session r) rows ≡ false
    → AtMostOne (is_backend_session scope backend session) rows
    → AtMostOne (is_backend_session scope backend session) (rows ++ r ∷ [])
insert-BackendsKeyed scope backend session r rows fresh k =
    append-AtMostOne _ rows r (λ h. exists-same scope backend session r rows h ∙ fresh) k

pub update-BackendsKeyed :
    (scope backend session : String) (p : StoredBackendSession → Bool)
    (f : StoredBackendSession → StoredBackendSession) (rows : List StoredBackendSession)
    → All (λ r. p r ≡ true → SessionStep r (f r)) rows
    → AtMostOne (is_backend_session scope backend session) rows
    → AtMostOne (is_backend_session scope backend session) (update p f rows)
update-BackendsKeyed scope backend session p f rows h k =
    AtMostOne-update_rows _ p f rows
      (All-map rows (λ r s t. SessionStep-key scope backend session (s t)) h) k

pub delete-BackendsKeyed :
    (scope backend session : String) (p : StoredBackendSession → Bool)
    (rows : List StoredBackendSession)
    → AtMostOne (is_backend_session scope backend session) rows
    → AtMostOne (is_backend_session scope backend session) (delete p rows)
delete-BackendsKeyed scope backend session p rows k = AtMostOne-delete _ p rows k
