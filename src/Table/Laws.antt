-- ===== src/Table/Laws.antt =====
-- Laws of the statements run after one another, and the key of a table.
use ollum_sales.Prelude.{
  ◌+◌, ◌≤◌, ◌≡◌, refl, inl, inr, Bool, true, false, ◌&&◌, List, [], ◌∷◌, ◌++◌, Option, none, some,
  arith, map, if◌then◌else◌, Bool-cases, Option-cases, inl, inr,
}
use ollum_sales.Text.{Text, same}
use ollum_sales.Text.Laws.{same_iff}
use ollum_sales.Table.{find, select, count, update, insert, exists, first_by}

abbrev pub changed : {A : Type 0} → (A → Bool) → (A → A) → Option A → Option A
changed p f none = none
changed p f (some x) = if p x then some (f x) else some x

module _ {A : Type 0} where
  -- An update that leaves the tested columns alone changes the row that is found, and no other.
  pub find-update :
      (q p : A → Bool) (f : A → A) (xs : List A)
      → ((x : A) → q (f x) ≡ q x)
      → find q (update p f xs) ≡ changed p f (find q xs)
  unfolding find update
  find-update q p f [] h = refl
  find-update q p f (x ∷ xs) h = ground (arith, h x, find-update q p f xs h)

  pub found-update :
      (q p : A → Bool) (f : A → A) (xs : List A) (x : A)
      → ((x : A) → q (f x) ≡ q x)
      → find q xs ≡ some x
      → (y : A) × (find q (update p f xs) ≡ some y)
  found-update q p f xs x h e = elim (Bool-cases (p x)) [
    | inl c ↦ (f x, rw (find-update q p f xs h, e, c) refl)
    | inr c ↦ (x, rw (find-update q p f xs h, e, c) refl)
  ]

  pub find-insert :
      (q : A → Bool) (y : A) (xs : List A)
      → find q (insert y xs)
        ≡ elim (find q xs) [ none ↦ (if q y then some y else none) | some x ↦ some x ]
  unfolding find
  find-insert q y [] = ground arith
  find-insert q y (x ∷ xs) = ground (arith, find-insert q y xs)

  pub find-holds : (q : A → Bool) (xs : List A) (x : A) → find q xs ≡ some x → q x ≡ true
  unfolding find
  find-holds q [] x h = cc
  find-holds q (y ∷ xs) x h = ground (arith, find-holds q xs x)

  pub find-exists : (p : A → Bool) (xs : List A) → exists p xs ≡ false → find p xs ≡ none
  unfolding exists
  find-exists p xs h = ground arith

  pub update-count_zero :
      (p : A → Bool) (f : A → A) (xs : List A) → count p xs ≡ 0 → update p f xs ≡ xs
  unfolding update count
  update-count_zero p f [] h = refl
  update-count_zero p f (x ∷ xs) h = ground (arith, update-count_zero p f xs)

  -- Where every row is left outside a test by the update, the test finds none.
  pub count-update_none :
      (q p : A → Bool) (f : A → A) (xs : List A)
      → ((x : A) → p x ≡ true → q (f x) ≡ false)
      → ((x : A) → p x ≡ false → q x ≡ false)
      → count q (update p f xs) ≡ 0
  unfolding count update
  count-update_none q p f [] h k = refl
  count-update_none q p f (x ∷ xs) h k = elim (Bool-cases (p x)) [
    | inl e ↦ rw (e, h x e) (count-update_none q p f xs h k)
    | inr e ↦ rw (e, k x e) (count-update_none q p f xs h k)
  ]

  -- An update that brings no row into a test counts no more rows.
  pub count-update_le :
      (q p : A → Bool) (f : A → A) (xs : List A)
      → ((x : A) → p x ≡ true → q (f x) ≡ true → q x ≡ true)
      → count q (update p f xs) ≤ count q xs
  unfolding count update
  count-update_le q p f [] h = omega arith
  count-update_le q p f (x ∷ xs) h = ground (arith, h x, count-update_le q p f xs h)

  pub select-find :
      (p : A → Bool) (before : A → A → Bool) (xs : List A) (y : A)
      → first_by before (select p xs) ≡ some y
      → p y ≡ true
  unfolding first_by select
  select-find p before [] y h = cc
  select-find p before (x ∷ xs) y h = ground (arith, select-find p before xs y)

  -- One row under an update.
  abbrev pub touch : (A → Bool) → (A → A) → A → A
  touch p f x = if p x then f x else x

  pub update-map : (p : A → Bool) (f : A → A) (xs : List A) → update p f xs ≡ map (touch p f) xs
  unfolding update
  update-map p f [] = refl
  update-map p f (x ∷ xs) = rw (update-map p f xs)

  pub count-map_none :
      (q : A → Bool) (g : A → A) (xs : List A)
      → ((x : A) → q (g x) ≡ false)
      → count q (map g xs) ≡ 0
  unfolding count
  count-map_none q g [] h = refl
  count-map_none q g (x ∷ xs) h = rw (h x) (count-map_none q g xs h)

  pub map-map : (f g : A → A) (xs : List A) → map f (map g xs) ≡ map (λ x. f (g x)) xs
  map-map f g [] = refl
  map-map f g (x ∷ xs) = rw (map-map f g xs)

  pub count-append : (p : A → Bool) (xs ys : List A) → count p (xs ++ ys) ≡ count p xs + count p ys
  unfolding count
  count-append p [] ys = omega arith
  count-append p (x ∷ xs) ys = ground (arith, count-append p xs ys)

  -- A row that is found and passes a further test is counted.
  pub count-none :
      (p q : A → Bool) (xs : List A) → find p xs ≡ none → count (λ x. p x && q x) xs ≡ 0
  unfolding count find
  count-none p q [] h = refl
  count-none p q (x ∷ xs) h = ground (arith, count-none p q xs)

  pub find-count :
      (p q : A → Bool) (xs : List A)
      → count (λ x. p x && q x) xs ≡ 1
      → (x : A) × (find p xs ≡ some x)
  find-count p q xs h = elim (Option-cases (find p xs)) [
    | inl n ↦ absurd (omega (arith, count-none p q xs n))
    | inr found ↦ found
  ]

  -- A row that is found fails a further test that no row passes.
  pub uncounted :
      (p q : A → Bool) (xs : List A) (x : A)
      → count (λ x. p x && q x) xs ≡ 0
      → find p xs ≡ some x
      → q x ≡ false
  unfolding count find
  uncounted p q [] x h e = cc
  uncounted p q (y ∷ xs) x h e = elim (Bool-cases (p y)) [
    | inl a ↦ elim (Bool-cases (q y)) [ inl b ↦ absurd (ground arith) | inr b ↦ ground arith ]
    | inr a ↦ uncounted p q xs x (ground arith) (ground arith)
  ]

  pub update-none :
      (p q : A → Bool) (f : A → A) (xs : List A)
      → find p xs ≡ none
      → update (λ x. p x && q x) f xs ≡ xs
  unfolding update find
  update-none p q f [] h = refl
  update-none p q f (x ∷ xs) h = ground (arith, update-none p q f xs)

-- The key of a table: no two rows have the same.
module _ {A : Type 0} (key : A → Text) where
  abbrev pub at : Text → A → Bool
  at k x = same (key x) k

  abbrev pub IsKeyed : List A → Type 0
  IsKeyed [] = Unit
  IsKeyed (x ∷ xs) = (find (at (key x)) xs ≡ none) × IsKeyed xs

  pub update-IsKeyed :
      (p : A → Bool) (f : A → A) (xs : List A)
      → ((x : A) → key (f x) ≡ key x)
      → IsKeyed xs
      → IsKeyed (update p f xs)
  unfolding update
  update-IsKeyed p f [] h u = tt
  update-IsKeyed p f (x ∷ xs) h u = elim (Bool-cases (p x)) [
    | inl e ↦ rw e (
        rw (h x) (
          rw (find-update (at (key x)) p f xs (λ y. rw (h y))) (rw (u.0) refl),
          update-IsKeyed p f xs h u.1,
        ))
    | inr e ↦ rw e (
      rw (find-update (at (key x)) p f xs (λ y. rw (h y))) (rw (u.0) refl),
      update-IsKeyed p f xs h u.1,
    )
  ]

  pub insert-IsKeyed :
      (y : A) (xs : List A) → IsKeyed xs → find (at (key y)) xs ≡ none → IsKeyed (insert y xs)
  unfolding find
  insert-IsKeyed y [] u h = (refl, tt)
  insert-IsKeyed y (x ∷ xs) u h = (
    rw (find-insert (at (key x)) y xs)
        (rw u.0 (ground (arith, same_iff (key x) (key y), same_iff (key y) (key x)))),
    insert-IsKeyed y xs u.1 (ground arith),
  )

  -- Of a keyed table, a statement on one key and a further test touches the row of that key.
  pub count-at :
      (k : Text) (q : A → Bool) (xs : List A)
      → IsKeyed xs
      → count (λ x. at k x && q x) xs
        ≡ elim (find (at k) xs) [ none ↦ 0 | some x ↦ if q x then 1 else 0 ]
  unfolding count find
  count-at k q [] u = refl
  count-at k q (x ∷ xs) u = elim (Bool-cases (at k x)) [
    | inl e ↦ ground (arith, same_iff (key x) k, count-none (at k) q xs, u.0)
    | inr e ↦ ground (arith, count-at k q xs u.1)
  ]
