-- ===== src/Table/Select.antt =====
-- Laws of the rows that a `SELECT` gives, after other rows have changed.
use ollum_sales.Prelude.{◌≡◌, refl, Bool, true, false, ◌&&◌, List, [], ◌∷◌, Bool-cases, inl, inr}
use ollum_sales.Table.{select, count, update, insert}

module _ {A : Type 0} where
  pub select-insert_other :
      (q : A → Bool) (x : A) (xs : List A) → q x ≡ false → select q (insert x xs) ≡ select q xs
  unfolding select
  select-insert_other q x [] h = rw h refl
  select-insert_other q x (y ∷ xs) h = rw (select-insert_other q x xs h) refl

  -- An update of rows that are not selected, which does not bring them in.
  pub select-update_other :
      (q p : A → Bool) (f : A → A) (xs : List A)
      → ((x : A) → p x ≡ true → q x ≡ false)
      → ((x : A) → p x ≡ true → q (f x) ≡ false)
      → select q (update p f xs) ≡ select q xs
  unfolding select update
  select-update_other q p f [] h k = refl
  select-update_other q p f (x ∷ xs) h k = elim (Bool-cases (p x)) [
    | inl e ↦ rw (e, h x e, k x e) (select-update_other q p f xs h k)
    | inr e ↦ rw (e, select-update_other q p f xs h k) refl
  ]

  pub select-select :
      (p q : A → Bool) (xs : List A) → select (λ x. p x && q x) xs ≡ select q (select p xs)
  unfolding select
  select-select p q [] = refl
  select-select p q (x ∷ xs) = elim (Bool-cases (p x)) [
    | inl e ↦ rw (e, select-select p q xs) refl
    | inr e ↦ rw (e, select-select p q xs) refl
  ]

  pub count-select :
      (p q : A → Bool) (xs : List A) → count (λ x. p x && q x) xs ≡ count q (select p xs)
  unfolding select count
  count-select p q [] = refl
  count-select p q (x ∷ xs) = elim (Bool-cases (p x)) [
    | inl e ↦ rw (e, count-select p q xs) refl
    | inr e ↦ rw (e, count-select p q xs) refl
  ]
