-- ===== src/Table.antt =====
-- Tables as lists of rows in the order of insertion, and the SQL statements that the program
-- runs on them.
pub mod Laws
pub mod Single
pub mod Delete
pub mod Select
use ollum_sales.Prelude.{
  ℕ, suc, Bool, true, false, not, ◌&&◌, List, [], ◌∷◌, ◌++◌, Option, none, some, ltb, ◌==◌,
  if◌then◌else◌,
}

module _ {A : Type 0} where
  -- `SELECT * … WHERE p`, first row
  unfoldable pub find : (A → Bool) → List A → Option A
  find p [] = none
  find p (x ∷ xs) = if p x then some x else find p xs

  -- `SELECT * … WHERE p`
  unfoldable pub select : (A → Bool) → List A → List A
  select p [] = []
  select p (x ∷ xs) = let rest = select p xs in if p x then x ∷ rest else rest

  -- `SELECT COUNT(*) … WHERE p`; the `rowcount` of an `UPDATE … WHERE p` too
  unfoldable pub count : (A → Bool) → List A → ℕ
  count p [] = 0
  count p (x ∷ xs) = let rest = count p xs in if p x then suc rest else rest

  -- `UPDATE … SET f WHERE p`
  unfoldable pub update : (A → Bool) → (A → A) → List A → List A
  update p f [] = []
  update p f (x ∷ xs) = (if p x then f x else x) ∷ update p f xs

  -- `INSERT`
  abbrev pub insert : A → List A → List A
  insert x xs = xs ++ x ∷ []

  -- `SELECT 1 … WHERE p`
  unfoldable pub exists : (A → Bool) → List A → Bool
  exists p xs = elim (find p xs) [ none ↦ false | some _ ↦ true ]

  -- `ORDER BY … LIMIT 1`: of two rows neither of which is before the other, the older.
  unfoldable pub first_by : (A → A → Bool) → List A → Option A
  first_by before [] = none
  first_by before (x ∷ xs) = elim (first_by before xs) [
    | none ↦ some x
    | some y ↦ if before y x then some y else some x
  ]

module _ {A : Type 0} where
  -- A row put in front of the first that does not come before it.
  unfoldable pub put_sorted : (A → ℕ) → A → List A → List A
  put_sorted f x [] = x ∷ []
  put_sorted f x (y ∷ ys) = if ltb (f y) (f x) then y ∷ put_sorted f x ys else x ∷ y ∷ ys

  -- `ORDER BY f ASC`: rows of one place stay in the order of insertion.
  unfoldable pub order_by : (A → ℕ) → List A → List A
  unfolding put_sorted
  order_by f [] = []
  order_by f (x ∷ xs) = put_sorted f x (order_by f xs)

-- `ORDER BY a ASC, b ASC`, on two numeric columns
abbrev pub by_two : {A : Type 0} → (A → ℕ) → (A → ℕ) → A → A → Bool
by_two a b x y = if ltb (a x) (a y) then true else a x == a y && ltb (b x) (b y)

module _ {A : Type 0} where
  -- A row put in front of the first that does not come before it.
  unfoldable pub put_before : (A → A → Bool) → A → List A → List A
  put_before before x [] = x ∷ []
  put_before before x (y ∷ ys) = if before y x then y ∷ put_before before x ys else x ∷ y ∷ ys

  -- Rows in the order of a test; rows of one place stay as they were, as in Python's `sorted`.
  unfoldable pub sort_by : (A → A → Bool) → List A → List A
  unfolding put_before
  sort_by before [] = []
  sort_by before (x ∷ xs) = put_before before x (sort_by before xs)
