-- ===== src/Store/Table.antt =====
-- A SQLite table as the list of its rows in rowid order, with the statements that the job store
-- uses: a WHERE clause is a test on a row.
pub mod Single
use livis_chatgpt_bridge.Prelude.{
  ℕ, suc, ◌≤◌, ◌≡◌, refl, ◌∙◌, ◌⊎◌, inl, inr, Bool, true, false, ◌&&◌, List, [], ◌∷◌, ◌++◌, Option,
  none, some, arith, length, subst, All, if◌then◌else◌, Bool-cases,
}

module _ {ℓ} {A : Type ℓ} where
  -- SELECT … WHERE p LIMIT 1, in rowid order.
  unfoldable pub select : (A → Bool) → List A → Option A
  select p [] = none
  select p (r ∷ rows) = if p r then some r else select p rows

  -- SELECT … WHERE p.
  unfoldable pub select_all : (A → Bool) → List A → List A
  select_all p [] = []
  select_all p (r ∷ rows) = let rest = select_all p rows in if p r then r ∷ rest else rest

  -- EXISTS (SELECT 1 … WHERE p).
  unfoldable pub exists : (A → Bool) → List A → Bool
  exists p [] = false
  exists p (r ∷ rows) = if p r then true else exists p rows

  -- UPDATE … SET f WHERE p.
  unfoldable pub update : (A → Bool) → (A → A) → List A → List A
  update p f [] = []
  update p f (r ∷ rows) = (if p r then f r else r) ∷ update p f rows

  -- The `changes` that UPDATE … WHERE p and DELETE … WHERE p report.
  unfoldable pub changes : (A → Bool) → List A → ℕ
  changes p [] = 0
  changes p (r ∷ rows) = if p r then suc (changes p rows) else changes p rows

  -- DELETE FROM … WHERE p.
  unfoldable pub delete : (A → Bool) → List A → List A
  delete p [] = []
  delete p (r ∷ rows) = let rest = delete p rows in if p r then rest else r ∷ rest

  -- INSERT OR IGNORE: `same` holds of a row with the key of the new one.
  unfoldable pub insert_or_ignore : (A → Bool) → A → List A → List A
  unfolding exists
  insert_or_ignore same r rows = if exists same rows then rows else rows ++ r ∷ []

  -- At most one row satisfies the test: what PRIMARY KEY gives for the test of one key.
  abbrev pub AtMostOne : (A → Bool) → List A → Type 0
  AtMostOne p [] = Unit {0}
  AtMostOne p (r ∷ rows) = ((p r ≡ false) ⊎ (exists p rows ≡ false)) × AtMostOne p rows

  pub All-update {κ} :
      {P Q : A → Type κ} (p : A → Bool) (f : A → A) (rows : List A)
      → ((r : A) → p r ≡ true → P r → Q (f r))
      → ((r : A) → p r ≡ false → P r → Q r)
      → All P rows
      → All Q (update p f rows)
  unfolding update
  All-update p f [] hit miss h = tt
  All-update {Q = Q} p f (r ∷ rows) hit miss h = (head (p r) refl, All-update p f rows hit miss h.1)
    where
      head : (b : Bool) → p r ≡ b → Q (if b then f r else r)
      head true e = hit r e h.0
      head false e = miss r e h.0

  pub update-All {κ} :
      (P : A → Type κ) (p : A → Bool) (f : A → A) (rows : List A)
      → All (λ r. P (if p r then f r else r)) rows
      → All P (update p f rows)
  unfolding update
  update-All P p f [] h = tt
  update-All P p f (r ∷ rows) h = (h.0, update-All P p f rows h.1)

  pub exists_false :
      (p : A → Bool) (rows : List A) → exists p rows ≡ false → All (λ r. p r ≡ false) rows
  unfolding exists
  exists_false p [] h = tt
  exists_false p (r ∷ rows) h = elim (Bool-cases (p r)) [
    | inl e ↦ absurd (ground arith)
    | inr e ↦ (e, exists_false p rows (rw e at h))
  ]

  pub All-delete {κ} :
      (P : A → Type κ) (p : A → Bool) (rows : List A) → All P rows → All P (delete p rows)
  unfolding delete
  All-delete P p [] h = tt
  All-delete P p (r ∷ rows) h = elim (Bool-cases (p r)) [
    | inl e ↦ rw e (All-delete P p rows h.1)
    | inr e ↦ rw e (h.0, All-delete P p rows h.1)
  ]

  pub select-some {κ} :
      (P : A → Type κ) (p : A → Bool) (rows : List A) {r : A}
      → All P rows
      → select p rows ≡ some r
      → P r × (p r ≡ true)
  unfolding select
  select-some P p [] h e = absurd (ground arith)
  select-some P p (x ∷ rows) {r} h e = elim (Bool-cases (p x)) [
    | inl t ↦ let same : x ≡ r = ground arith in subst (λ y. P y × (p y ≡ true)) same (h.0, t)
    | inr t ↦ select-some P p rows h.1 (rw t at e)
  ]

  pub exists-select : (p : A → Bool) (rows : List A) → exists p rows ≡ false → select p rows ≡ none
  unfolding exists select
  exists-select p [] h = refl
  exists-select p (r ∷ rows) h = ground (arith, exists-select p rows)

  pub select-none-exists :
      (p : A → Bool) (rows : List A) → select p rows ≡ none → exists p rows ≡ false
  unfolding exists select
  select-none-exists p [] h = refl
  select-none-exists p (r ∷ rows) h = ground (arith, select-none-exists p rows)

  -- A row that an update by key reaches, under a test that the update leaves alone.
  pub select-update :
      (key p : A → Bool) (f : A → A) (rows : List A)
      → ((r : A) → key (f r) ≡ key r)
      → select key (update p f rows)
        ≡ elim (select key rows) [ none ↦ none | some r ↦ some (if p r then f r else r) ]
  unfolding select update
  select-update key p f [] same = refl
  select-update key p f (r ∷ rows) same = ground (arith, same r, select-update key p f rows same)

  pub exists-update :
      (key p : A → Bool) (f : A → A) (rows : List A)
      → ((r : A) → key (f r) ≡ key r)
      → exists key (update p f rows) ≡ exists key rows
  unfolding exists update
  exists-update key p f [] same = refl
  exists-update key p f (r ∷ rows) same = ground (arith, same r, exists-update key p f rows same)

  pub changes_none :
      (key p : A → Bool) (rows : List A)
      → exists key rows ≡ false
      → changes (λ r. key r && p r) rows ≡ 0
  unfolding exists changes
  changes_none key p [] h = refl
  changes_none key p (r ∷ rows) h = ground (arith, changes_none key p rows)

  -- The number of rows that an update of one key changes.
  pub changes-key :
      (key p : A → Bool) (rows : List A)
      → AtMostOne key rows
      → changes (λ r. key r && p r) rows
        ≡ elim (select key rows) [ none ↦ 0 | some r ↦ (if p r then 1 else 0) ]
  unfolding select changes
  changes-key key p [] h = refl
  changes-key key p (r ∷ rows) h =
      ground (arith, changes-key key p rows h.1, changes_none key p rows, h.0)

  pub exists-update_where :
      (key p : A → Bool) (f : A → A) (rows : List A)
      → ((r : A) → p r ≡ true → key (f r) ≡ key r)
      → exists key (update p f rows) ≡ exists key rows
  unfolding exists update
  exists-update_where key p f [] same = refl
  exists-update_where key p f (r ∷ rows) same =
      ground (arith, same r, exists-update_where key p f rows same)

  pub AtMostOne-update_where :
      (key p : A → Bool) (f : A → A) (rows : List A)
      → ((r : A) → p r ≡ true → key (f r) ≡ key r)
      → AtMostOne key rows
      → AtMostOne key (update p f rows)
  unfolding update
  AtMostOne-update_where key p f [] same h = tt
  AtMostOne-update_where key p f (r ∷ rows) same h = ground (
    arith,
    same r,
    exists-update_where key p f rows same,
    AtMostOne-update_where key p f rows same h.1,
  )

  pub exists-append :
      (p : A → Bool) (xs : List A) (r : A) → exists p xs ≡ false → exists p (xs ++ r ∷ []) ≡ p r
  unfolding exists
  exists-append p [] r h = ground arith
  exists-append p (x ∷ xs) r h = ground (arith, exists-append p xs r)

  pub exists-append_left :
      (p : A → Bool) (xs ys : List A) → exists p xs ≡ true → exists p (xs ++ ys) ≡ true
  unfolding exists
  exists-append_left p [] ys h = cc
  exists-append_left p (x ∷ xs) ys h = ground (arith, exists-append_left p xs ys)

  pub select-append :
      (p : A → Bool) (xs : List A) (r : A)
      → select p (xs ++ r ∷ [])
        ≡ elim (select p xs) [ none ↦ (if p r then some r else none) | some x ↦ some x ]
  unfolding select
  select-append p [] r = refl
  select-append p (x ∷ xs) r = ground (arith, select-append p xs r)

  pub length-update :
      (p : A → Bool) (f : A → A) (rows : List A) → length (update p f rows) ≡ length rows
  unfolding update
  length-update p f [] = refl
  length-update p f (r ∷ rows) = omega (arith, length-update p f rows)

  pub length-delete : (p : A → Bool) (rows : List A) → length (delete p rows) ≤ length rows
  unfolding delete
  length-delete p [] = omega arith
  length-delete p (r ∷ rows) = ground (arith, length-delete p rows)

  pub select_hit : (p : A → Bool) (rows : List A) {r : A} → select p rows ≡ some r → p r ≡ true
  unfolding select
  select_hit p [] e = absurd (ground arith)
  select_hit p (x ∷ rows) {r} e = elim (Bool-cases (p x)) [
    | inl t ↦ let same : x ≡ r = ground arith in subst (λ y. p y ≡ true) same t
    | inr t ↦ select_hit p rows (rw t at e)
  ]

  -- An update of the one row with a key, under a test that the row passes.
  pub changes_one :
      (key c : A → Bool) (rows : List A) (r : A)
      → AtMostOne key rows
      → select key rows ≡ some r
      → c r ≡ true
      → changes (λ x. key x && c x) rows ≡ 1
  changes_one key c rows r keyed e t = changes-key key c rows keyed ∙ rw (e, t)

  pub select-update_hit :
      (key c : A → Bool) (f : A → A) (rows : List A) (r : A)
      → ((x : A) → key (f x) ≡ key x)
      → select key rows ≡ some r
      → c r ≡ true
      → select key (update (λ x. key x && c x) f rows) ≡ some (f r)
  select-update_hit key c f rows r same e t =
      select-update key (λ x. key x && c x) f rows same ∙ rw (e, select_hit key rows e, t)
