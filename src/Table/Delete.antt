-- ===== src/Table/Delete.antt =====
-- Laws of the rows that `DELETE` leaves, which are those that a `SELECT` of the others gives.
use ollum_sales.Prelude.{
  ◌≡◌, refl, Bool, true, false, List, [], ◌∷◌, none, some, arith, Bool-cases, inl, inr,
}
use ollum_sales.Text.{Text, same}
use ollum_sales.Text.Laws.{same_iff}
use ollum_sales.Table.{find, select, count, exists, insert}
use ollum_sales.Table.Laws.{IsKeyed, find-insert, count-append}

module _ {A : Type 0} where
  pub find-select-none :
      (q p : A → Bool) (xs : List A) → find q xs ≡ none → find q (select p xs) ≡ none
  unfolding find select
  find-select-none q p [] h = refl
  find-select-none q p (x ∷ xs) h = ground (arith, find-select-none q p xs)

  -- A test finds none among the rows that fail it.
  pub find-select_other :
      (q p : A → Bool) (xs : List A)
      → ((x : A) → p x ≡ true → q x ≡ false)
      → find q (select p xs) ≡ none
  unfolding find select
  find-select_other q p [] h = refl
  find-select_other q p (x ∷ xs) h = ground (arith, h x, find-select_other q p xs h)

  -- A test is untouched by a selection of more.
  pub find-select_more :
      (q p : A → Bool) (xs : List A)
      → ((x : A) → q x ≡ true → p x ≡ true)
      → find q (select p xs) ≡ find q xs
  unfolding find select
  find-select_more q p [] h = refl
  find-select_more q p (x ∷ xs) h = ground (arith, h x, find-select_more q p xs h)

  -- A row that is found stays so where it is selected.
  pub find-select_kept :
      (q p : A → Bool) (xs : List A) (x : A)
      → find q xs ≡ some x
      → p x ≡ true
      → find q (select p xs) ≡ some x
  unfolding find select
  find-select_kept q p [] x h k = cc
  find-select_kept q p (y ∷ xs) x h k = elim (Bool-cases (q y)) [
    | inl e ↦ ground arith
    | inr e ↦ ground (arith, find-select_kept q p xs x)
  ]

  pub count-select_other :
      (q p : A → Bool) (xs : List A)
      → ((x : A) → p x ≡ true → q x ≡ false)
      → count q (select p xs) ≡ 0
  unfolding count select
  count-select_other q p [] h = refl
  count-select_other q p (x ∷ xs) h = ground (arith, h x, count-select_other q p xs h)

  pub find-count_zero : (q : A → Bool) (xs : List A) → count q xs ≡ 0 → find q xs ≡ none
  unfolding count find
  find-count_zero q [] h = refl
  find-count_zero q (x ∷ xs) h = ground (arith, find-count_zero q xs)

  -- A test that implies one which finds none counts none.
  pub count-implied :
      (p q : A → Bool) (xs : List A)
      → ((x : A) → q x ≡ true → p x ≡ true)
      → find p xs ≡ none
      → count q xs ≡ 0
  unfolding count find
  count-implied p q [] k h = refl
  count-implied p q (x ∷ xs) k h = ground (arith, k x, count-implied p q xs k)

  pub count-insert_first :
      (q : A → Bool) (x : A) (xs : List A) → count q xs ≡ 0 → q x ≡ true → count q (insert x xs) ≡ 1
  unfolding count
  count-insert_first q x xs h k = ground (arith, count-append q xs (x ∷ []))

  pub exists-find : (q : A → Bool) (xs : List A) → find q xs ≡ none → exists q xs ≡ false
  unfolding exists
  exists-find q xs h = ground arith

  pub find-insert_self :
      (q : A → Bool) (x : A) (xs : List A)
      → find q xs ≡ none
      → q x ≡ true
      → find q (insert x xs) ≡ some x
  find-insert_self q x xs h k = ground (arith, find-insert q x xs)

  pub find-insert_other :
      (q : A → Bool) (x : A) (xs : List A) → q x ≡ false → find q (insert x xs) ≡ find q xs
  find-insert_other q x xs h = ground (arith, find-insert q x xs)

  -- Where a test finds none, of the selected rows only a new one can pass a test that implies it.
  pub only-inserted :
      (p q r : A → Bool) (x y : A) (xs : List A)
      → find q xs ≡ none
      → ((z : A) → r z ≡ true → q z ≡ true)
      → find r (select p (insert x xs)) ≡ some y
      → y ≡ x
  unfolding find select
  only-inserted p q r x y [] n k h = ground arith
  only-inserted p q r x y (z ∷ xs) n k h = ground (arith, k z, only-inserted p q r x y xs)

module _ {A : Type 0} (key : A → Text) where
  abbrev at : Text → A → Bool
  at k x = same (key x) k

  pub select-IsKeyed : (p : A → Bool) (xs : List A) → IsKeyed key xs → IsKeyed key (select p xs)
  unfolding select
  select-IsKeyed p [] u = tt
  select-IsKeyed p (x ∷ xs) u = elim (Bool-cases (p x)) [
    | inl e ↦ rw e (find-select-none (at (key x)) p xs u.0, select-IsKeyed p xs u.1)
    | inr e ↦ rw e (select-IsKeyed p xs u.1)
  ]

  -- Of a keyed table, a row that was found and is not selected leaves its key free.
  pub find-select_gone :
      (k : Text) (p : A → Bool) (xs : List A) (x : A)
      → IsKeyed key xs
      → find (at k) xs ≡ some x
      → p x ≡ false
      → find (at k) (select p xs) ≡ none
  unfolding find select
  find-select_gone k p [] x u h n = cc
  find-select_gone k p (y ∷ xs) x u h n = elim (Bool-cases (at k y)) [
    | inl e ↦ ground (
      arith,
      same_iff (key y) k,
      find-select-none (at (key y)) p xs u.0,
      find-select-none (at k) p xs,
    )
    | inr e ↦ ground (arith, find-select_gone k p xs x u.1)
  ]
