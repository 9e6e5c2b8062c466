-- ===== src/Table/Single.antt =====
-- An update of the one row that has a key, and what it does to a count.
use ollum_sales.Prelude.{
  ℕ, ◌+◌, ◌≡◌, refl, Bool, true, false, ◌&&◌, List, [], ◌∷◌, none, some, arith, Bool-cases, inl,
  inr,
}
use mathlib.Core.Path.{subst}
use ollum_sales.Text.{Text, same}
use ollum_sales.Text.Laws.{same_iff}
use ollum_sales.Table.{find, update, count}
use ollum_sales.Table.Laws.{IsKeyed}

abbrev pub one : Bool → ℕ
one true = 1
one false = 0

module _ {A : Type 0} (key : A → Text) where
  abbrev at : Text → A → Bool
  at k x = same (key x) k

  -- A further test finds none where the key has no row.
  find-none :
      (k : Text) (q : A → Bool) (xs : List A)
      → find (at k) xs ≡ none
      → find (λ x. at k x && q x) xs ≡ none
  unfolding find
  find-none k q [] h = refl
  find-none k q (x ∷ xs) h = ground (arith, find-none k q xs)

  -- A row that is found by its key and a further test is found by its key.
  pub find-key :
      (k : Text) (q : A → Bool) (xs : List A) (y : A)
      → IsKeyed key xs
      → find (λ x. at k x && q x) xs ≡ some y
      → find (at k) xs ≡ some y
  unfolding find
  find-key k q [] y u h = cc
  find-key k q (x ∷ xs) y u h = elim (Bool-cases (at k x)) [
    | inl e ↦
        let absent : find (at k) xs ≡ none =
          subst (λ j. find (at j) xs ≡ none) ((same_iff (key x) k).0 e) u.0 in
        ground (arith, find-none k q xs absent)
    | inr e ↦ ground (arith, find-key k q xs y u.1)
  ]

  update-absent_key :
      (k : Text) (f : A → A) (xs : List A) → find (at k) xs ≡ none → update (at k) f xs ≡ xs
  unfolding find update
  update-absent_key k f [] h = refl
  update-absent_key k f (x ∷ xs) h = ground (arith, update-absent_key k f xs)

  -- The count loses the row that was, and gains the row that is.
  pub count-update_key :
      (k : Text) (f : A → A) (q : A → Bool) (xs : List A) (y : A)
      → IsKeyed key xs
      → find (at k) xs ≡ some y
      → count q (update (at k) f xs) + one (q y) ≡ count q xs + one (q (f y))
  unfolding find update count
  count-update_key k f q [] y u h = cc
  count-update_key k f q (x ∷ xs) y u h = elim (Bool-cases (at k x)) [
    | inl e ↦
        let absent : find (at k) xs ≡ none =
          subst (λ j. find (at j) xs ≡ none) ((same_iff (key x) k).0 e) u.0 in
        let here : x ≡ y = ground arith in
        rw (e, update-absent_key k f xs absent)
          (subst (λ z. count q (f x ∷ xs) + one (q z) ≡ count q (x ∷ xs) + one (q (f z))) here
            (ground arith))
    | inr e ↦ ground (arith, count-update_key k f q xs y u.1)
  ]
