-- ===== src/Store/Sessions/Receipt.antt =====
-- The receipt of `releaseSessionRecoveryWithReceipt` of src/state/store.ts tells what was done.
use livis_chatgpt_bridge.Prelude.{
  ℕ, ◌≡◌, refl, sym, ap, ◌∙◌, subst, ◌⊎◌, inl, inr, Bool, true, false, not, ◌&&◌, ◌||◌, List, [],
  ◌∷◌, String, ◌==◌, arith, str_eq, if◌then◌else◌,
}
use livis_chatgpt_bridge.Types.{StoredBackendSession, is_active}
use livis_chatgpt_bridge.Store.Schema.{Database, JobRow, QuarantineRow, is_session}
use livis_chatgpt_bridge.Store.Table.{exists, changes, delete, AtMostOne}
use livis_chatgpt_bridge.Store.Monad.{query, M, StoreError, ◌>>=◌, ◌>>◌, pure, throw, when}
use livis_chatgpt_bridge.Store.Ledger.{is_null}
use livis_chatgpt_bridge.Store.Monad.Inversion.{
  Answers, bind-Answers, then-Answers, transaction-Answers, if-Answers, pure-Answers, query-Answers,
  unless-Answers, run-Answers,
}
use livis_chatgpt_bridge.Store.Sessions.Table.{delete_sessions}
use livis_chatgpt_bridge.Store.Sessions.Release.{
  SessionReleaseReceipt, not_released, is_recovering, in_session, has_ended, delete_quarantine,
  release_idle, release_recovering, release_session_recovery_with_receipt,
}

module _ {A : Type 0} (p : A → Bool) where
  none_changed : (rows : List A) → changes p rows ≡ 0 → exists p rows ≡ false
  unfolding changes exists
  none_changed [] h = refl
  none_changed (r ∷ rows) h = ground (arith, none_changed rows)

  no_changes : (rows : List A) → exists p rows ≡ false → changes p rows ≡ 0
  unfolding changes exists
  no_changes [] h = refl
  no_changes (r ∷ rows) h = ground (arith, no_changes rows)

  all_deleted : (rows : List A) → exists p (delete p rows) ≡ false
  unfolding delete exists
  all_deleted [] = refl
  all_deleted (r ∷ rows) = ground (arith, all_deleted rows)

  none_after :
      (q : A → Bool) (rows : List A) → exists p rows ≡ false → exists p (delete q rows) ≡ false
  unfolding delete exists
  none_after q [] h = refl
  none_after q (r ∷ rows) h = ground (arith, none_after q rows)

delete_sessions-Answers :
    (p : Database → StoredBackendSession → Bool) (db : Database) (n : ℕ) (d : Database)
    → Answers (delete_sessions p) db n d
    → (n ≡ changes (p db) db.backend_sessions)
      × (d ≡ record db { backend_sessions = delete (p db) db.backend_sessions })
unfolding delete_sessions
delete_sessions-Answers p db n d h = ground arith

module _ (scope session : String) where
  delete_quarantine-Answers :
      (db : Database) (n : ℕ) (d : Database)
      → Answers (delete_quarantine scope session) db n d
      → (n ≡ changes (is_session scope session) db.session_quarantine)
        × (d ≡ record db {
          session_quarantine = delete (is_session scope session) db.session_quarantine;
        })
  unfolding delete_quarantine
  delete_quarantine-Answers db n d h =
      let (k, a, counted, h1) = bind-Answers _ _ db n d h in
      let (u, b, ran, h2) = then-Answers _ _ a n d h1 in
      let (x, same) = query-Answers _ db k a counted in
      let (y, last) = pure-Answers k n b d h2 in
      (
        y ∙ x,
        last
            ∙ run-Answers _ a u b ran
            ∙ ap
                (λ (z : Database). record z {
                  session_quarantine = delete (is_session scope session) z.session_quarantine;
                })
                same,
      )

  -- What a release has made of the database.
  pub record Released (db d : Database) : Type 0 where
    pub jobs : d.jobs ≡ db.jobs
    pub quarantine : exists (is_session scope session) d.session_quarantine ≡ false
    pub recovery : exists (is_recovering scope session) d.backend_sessions ≡ false
    pub backend_sessions :
        (p : StoredBackendSession → Bool)
        → exists p db.backend_sessions ≡ false
        → exists p d.backend_sessions ≡ false

  -- A receipt is honest.
  abbrev pub IsHonest : Database → SessionReleaseReceipt → Database → Type 0
  IsHonest db receipt d =
      (receipt.released ≡ false) × (d ≡ db) ⊎ (receipt.released ≡ true) × Released db d

  Released-rows :
      (p : StoredBackendSession → Bool) (db : Database)
      → exists (is_recovering scope session) (delete p db.backend_sessions) ≡ false
      → Released db (record db {
        backend_sessions = delete p db.backend_sessions;
        session_quarantine = delete (is_session scope session) db.session_quarantine;
      })
  Released-rows p db h = record {
    jobs = refl;
    quarantine = all_deleted (is_session scope session) db.session_quarantine;
    recovery = h;
    backend_sessions = λ q. none_after q p db.backend_sessions;
  }

  unreleased :
      (db a d : Database) (receipt : SessionReleaseReceipt)
      → a ≡ db
      → (receipt ≡ not_released) × (d ≡ a)
      → IsHonest db receipt d
  unreleased db a d receipt same h =
      inl (ap (λ (x : SessionReleaseReceipt). x.released) h.0, h.1 ∙ same)

  abbrev cleaned : (StoredBackendSession → Bool) → Database → Database
  cleaned p db = record db {
    backend_sessions = delete p db.backend_sessions;
    session_quarantine = delete (is_session scope session) db.session_quarantine;
  }

  -- What the two releases end with.
  ending-Answers :
      (p : StoredBackendSession → Bool) (fails : ℕ → Bool) (e : StoreError)
      (make : ℕ → SessionReleaseReceipt) (db d : Database) (receipt : SessionReleaseReceipt)
      → Answers
          (delete_sessions (λ x. p) >>= λ n.
            (when (fails n) (throw e) >> (delete_quarantine scope session >>= λ k. pure (make k))))
          db
          receipt
          d
      → (receipt ≡ make (changes (is_session scope session) db.session_quarantine))
        × (d ≡ cleaned p db)
  ending-Answers p fails e make db d receipt h =
      let (n, a, deleted, h1) = bind-Answers _ _ db receipt d h in
      let (u, b, counted, h2) = then-Answers _ _ a receipt d h1 in
      let (k, c, lifted, h3) = bind-Answers _ _ b receipt d h2 in
      let rows : b ≡ record db { backend_sessions = delete p db.backend_sessions } =
        (unless-Answers _ _ a u b counted).1
        ∙ (delete_sessions-Answers (λ x. p) db n a deleted).1 in
      let (count, freed) = delete_quarantine-Answers b k c lifted in
      let (told, last) = pure-Answers (make k) receipt c d h3 in
      (
        told
            ∙ ap make (
                count
                ∙ ap (λ (z : Database). changes (is_session scope session) z.session_quarantine)
                    rows),
        last
            ∙ freed
            ∙ ap
                (λ (z : Database). record z {
                  session_quarantine = delete (is_session scope session) z.session_quarantine;
                })
                rows,
      )

  recovering-Answers :
      (total : ℕ) (db d : Database) (receipt : SessionReleaseReceipt)
      → Answers (release_recovering scope session total) db receipt d
      → IsHonest db receipt d
  unfolding release_recovering
  recovering-Answers total db d receipt h =
      let (occupied, a, asked, h1) = bind-Answers _ _ db receipt d h in
      let same : a ≡ db = (query-Answers _ db occupied a asked).1 in
      elim (if-Answers (not (occupied == 0)) _ _ a receipt d h1) [
        | inl (full, h2) ↦ unreleased db a d receipt same (pure-Answers _ receipt a d h2)
        | inr (free, h2) ↦
            let (names, b, listed, h3) = bind-Answers _ _ a receipt d h2 in
            let start : b ≡ db = (query-Answers _ a names b listed).1 ∙ same in
            let (told, last) = ending-Answers (is_recovering scope session) _ _ _ b d receipt h3 in
            inr (
              ap (λ (x : SessionReleaseReceipt). x.released) told,
              subst (Released db) (sym (last ∙ ap (cleaned (is_recovering scope session)) start)) (
                  Released-rows (is_recovering scope session) db
                    (all_deleted _ db.backend_sessions)),
            )
      ]

  abbrev idle_row : StoredBackendSession → Bool
  idle_row s = in_session scope session s && (is_null s.active_job_id && not s.recovery_required)

  single_quarantine :
      (q : List QuarantineRow)
      → AtMostOne (is_session scope session) q
      → exists (is_session scope session) q ≡ true
      → changes (is_session scope session) q ≡ 1
  unfolding changes exists
  single_quarantine [] k h = absurd (ground arith)
  single_quarantine (r ∷ q) k h =
      ground (arith, k.0, no_changes (is_session scope session) q, single_quarantine q k.1)

  idle-Answers :
      (existing : List String) (db d : Database) (receipt : SessionReleaseReceipt)
      → AtMostOne (is_session scope session) db.session_quarantine
      → exists (is_recovering scope session) db.backend_sessions ≡ false
      → Answers (release_idle scope session existing) db receipt d
      → IsHonest db receipt d
  unfolding release_idle
  idle-Answers existing db d receipt keyed none_left h =
      let (isolated, a, asked, h1) = bind-Answers _ _ db receipt d h in
      let (occupied, b, counted, h2) = bind-Answers _ _ a receipt d h1 in
      let (present, same_a) = query-Answers _ db isolated a asked in
      let same : b ≡ db = (query-Answers _ a occupied b counted).1 ∙ same_a in
      elim (if-Answers (not isolated || not (occupied == 0)) _ _ b receipt d h2) [
        | inl (refused, h3) ↦ unreleased db b d receipt same (pure-Answers _ receipt b d h3)
        | inr (free, h3) ↦
            let (told, last) = ending-Answers idle_row _ _ _ b d receipt h3 in
            let one : changes (is_session scope session) b.session_quarantine ≡ 1 =
              ap (λ (x : Database). changes (is_session scope session) x.session_quarantine) same
              ∙ single_quarantine db.session_quarantine keyed
                  (sym present ∙ truth isolated _ free) in
            inr (
              ap (λ (x : SessionReleaseReceipt). x.released) told ∙ ap (λ k. k == 1) one,
              subst (Released db) (sym (last ∙ ap (cleaned idle_row) same)) (
                  Released-rows idle_row db (
                    none_after (is_recovering scope session) idle_row db.backend_sessions
                      none_left)),
            )
      ]
    where
      truth : (x y : Bool) → (not x || y) ≡ false → x ≡ true
      truth x y e = ground arith

  -- The release of a session that runs no job.
  abbrev release_rest : List String → M SessionReleaseReceipt
  release_rest existing =
      query (λ x. changes (is_recovering scope session) x.backend_sessions) >>= λ total.
      (query (λ x. changes (λ s. is_recovering scope session s && has_ended x s) x.backend_sessions)
        >>= λ releasable.
            (if total == 0
              then release_idle scope session existing
              else if not (releasable == total)
              then pure not_released
              else release_recovering scope session total))

  rest-Answers :
      (existing : List String) (db d : Database) (receipt : SessionReleaseReceipt)
      → AtMostOne (is_session scope session) db.session_quarantine
      → Answers (release_rest existing) db receipt d
      → IsHonest db receipt d
  rest-Answers existing db d receipt keyed h =
      let (total, a, asked, h1) = bind-Answers _ _ db receipt d h in
      let (releasable, b, counted, h2) = bind-Answers _ _ a receipt d h1 in
      let (number, same_a) = query-Answers _ db total a asked in
      let same : b ≡ db = (query-Answers _ a releasable b counted).1 ∙ same_a in
      elim (if-Answers (total == 0) _ _ b receipt d h2) [
        | inl (zero, h3) ↦
            idle-Answers existing db d receipt keyed
              (none_changed (is_recovering scope session) db.backend_sessions
                (sym number ∙ to_zero total zero))
              (subst (λ x. Answers (release_idle scope session existing) x receipt d) same h3)
        | inr (other, h3) ↦ elim (if-Answers (not (releasable == total)) _ _ b receipt d h3) [
          | inl (held, h4) ↦ unreleased db b d receipt same (pure-Answers _ receipt b d h4)
          | inr (ended, h4) ↦
              recovering-Answers total db d receipt
                (subst (λ x. Answers (release_recovering scope session total) x receipt d) same h4)
        ]
      ]
    where
      to_zero : (k : ℕ) → (k == 0) ≡ true → k ≡ 0
      to_zero k e = ground arith

  -- A job of the session is being executed.
  abbrev pub is_busy : JobRow → Bool
  is_busy r = str_eq r.scope_key scope && str_eq r.session_key session && is_active r.status

  with_busy :
      (db d : Database) (receipt : SessionReleaseReceipt)
      → exists is_busy db.jobs ≡ false
      → IsHonest db receipt d
      → (receipt.released ≡ false) × (d ≡ db)
        ⊎ (receipt.released ≡ true) × (exists is_busy db.jobs ≡ false) × Released db d
  with_busy db d receipt e (inl h) = inl h
  with_busy db d receipt e (inr (told, done)) = inr (told, e, done)

  -- A manual release that answers, on a quarantine with its primary key, either says that nothing is
  -- released and has changed nothing, or says that the session is released: then no job of the
  -- session was being executed and no job has changed, the session has no quarantine and no backend
  -- session in recovery any more, and no backend session is new.
  pub release_session_recovery_with_receipt-IsHonest :
      (db d : Database) (receipt : SessionReleaseReceipt)
      → AtMostOne (is_session scope session) db.session_quarantine
      → Answers (release_session_recovery_with_receipt scope session) db receipt d
      → (receipt.released ≡ false) × (d ≡ db)
        ⊎ (receipt.released ≡ true) × (exists is_busy db.jobs ≡ false) × Released db d
  unfolding release_session_recovery_with_receipt
  release_session_recovery_with_receipt-IsHonest db d receipt keyed h =
      let (existing, a, listed, h1) =
        bind-Answers _ _ db receipt d (transaction-Answers _ db receipt d h) in
      let (busy, b, counted, h2) = bind-Answers _ _ a receipt d h1 in
      let same_a : a ≡ db = (query-Answers _ db existing a listed).1 in
      let (number, same_b) = query-Answers _ a busy b counted in
      let same : b ≡ db = same_b ∙ same_a in
      elim (if-Answers (not (busy == 0)) _ _ b receipt d h2) [
        | inl (occupied, h3) ↦
            let (told, last) = pure-Answers _ receipt b d h3 in
            inl (ap (λ (x : SessionReleaseReceipt). x.released) told, last ∙ same)
        | inr (free, h3) ↦
            with_busy db d receipt
              (none_changed is_busy db.jobs (
                ap (λ (x : Database). changes is_busy x.jobs) (sym same_a)
                ∙ sym number
                ∙ to_zero busy free))
              (rest-Answers existing db d receipt keyed
                (subst (λ x. Answers (release_rest existing) x receipt d) same h3))
      ]
    where
      to_zero : (k : ℕ) → not (k == 0) ≡ false → k ≡ 0
      to_zero k e = ground arith
