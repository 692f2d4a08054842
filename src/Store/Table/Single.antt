-- ===== src/Store/Table/Single.antt =====
-- A statement on the one row with a key.
use livis_chatgpt_bridge.Prelude.{
  ℕ, ◌≡◌, refl, sym, ◌∙◌, Bool, true, false, ◌&&◌, List, [], ◌∷◌, Option, none, some, ◌==◌, arith,
  if◌then◌else◌,
}
use livis_chatgpt_bridge.Store.Table.{select, exists, update, changes, AtMostOne, changes-key}

module _ {ℓ} {A : Type ℓ} where
  one_change :
      (o : Option A) (p : A → Bool)
      → (elim o as (λ _. ℕ) [ none ↦ 0 | some r ↦ (if p r then 1 else 0) ]) ≡ 1
      → (r : A) × (o ≡ some r) × (p r ≡ true)
  one_change none p h = absurd (ground arith)
  one_change (some r) p h = (r, refl, ground arith)

  -- The row that an update of one key has changed.
  pub changed_row :
      (key p : A → Bool) (rows : List A)
      → AtMostOne key rows
      → changes (λ r. key r && p r) rows ≡ 1
      → (r : A) × (select key rows ≡ some r) × (p r ≡ true)
  changed_row key p rows keyed h = one_change _ p (sym (changes-key key p rows keyed) ∙ h)

  none_left :
      (key p : A → Bool) (rows : List A)
      → exists key rows ≡ false
      → select (λ r. key r && p r) rows ≡ none
  unfolding select exists
  none_left key p [] h = refl
  none_left key p (r ∷ rows) h = ground (arith, none_left key p rows)

  -- A row that is selected by its key and more is the row with the key.
  pub select-narrow :
      (key p : A → Bool) (rows : List A) (r : A)
      → AtMostOne key rows
      → select (λ x. key x && p x) rows ≡ some r
      → select key rows ≡ some r
  unfolding select
  select-narrow key p [] r k h = h
  select-narrow key p (x ∷ rows) r k h =
      ground (arith, k.0, none_left key p rows, select-narrow key p rows r k.1)

no_change {ℓ} :
    {A : Type ℓ} (p : A → Bool) (f : A → A) (rows : List A)
    → changes p rows ≡ 0
    → update p f rows ≡ rows
unfolding changes update
no_change p f [] h = refl
no_change p f (r ∷ rows) h = ground (arith, no_change p f rows)

none_or_one :
    {A : Type 0} (o : Option A) (p : A → Bool)
    → ((elim o as (λ _. ℕ) [ none ↦ 0 | some r ↦ (if p r then 1 else 0) ]) == 1) ≡ false
    → (elim o as (λ _. ℕ) [ none ↦ 0 | some r ↦ (if p r then 1 else 0) ]) ≡ 0
none_or_one none p h = refl
none_or_one (some r) p h = ground arith

-- An update of one key that does not change one row changes none.
pub unchanged :
    {A : Type 0} (key p : A → Bool) (f : A → A) (rows : List A)
    → AtMostOne key rows
    → (changes (λ r. key r && p r) rows == 1) ≡ false
    → update (λ r. key r && p r) f rows ≡ rows
unchanged key p f rows keyed h =
    let count = changes-key key p rows keyed in
    no_change _ f rows (count ∙ none_or_one (select key rows) p (rw count at h))

pub to_one : (k : ℕ) → (k == 1) ≡ true → k ≡ 1
to_one k e = ground arith
