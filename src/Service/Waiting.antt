-- ===== src/Service/Waiting.antt =====
-- The requests that wait in the queue of sends, and their listing (app/crm.py).
use mathlib.Core.Path.{sym}
use ollum_sales.Prelude.{
  ℕ, ◌≡◌, refl, ◌∙◌, Bool, ◌&&◌, List, [], ◌∷◌, arith, Bool-cases, inl, inr, length, ltb,
  Option-cases,
}
use ollum_sales.Text.{same}
use ollum_sales.Schema.{Db, Draft, SendRequest, is_pending_request}
use ollum_sales.Table.{find, select, count, exists, put_sorted, order_by}
use ollum_sales.Table.Select.{count-select}
use ollum_sales.Drafts.{draft_at}
use ollum_sales.Sends.{join_drafts}

-- The order of a listing keeps the number of its rows that pass a test.
count-put_sorted :
    {A : Type 0} (p : A → Bool) (f : A → ℕ) (x : A) (xs : List A)
    → count p (put_sorted f x xs) ≡ count p (x ∷ xs)
unfolding count put_sorted
count-put_sorted p f x [] = refl
count-put_sorted p f x (y ∷ ys) = elim (Bool-cases (ltb (f y) (f x))) [
  | inl e ↦ rw e (ground (arith, count-put_sorted p f x ys))
  | inr e ↦ rw e refl
]

count-order_by :
    {A : Type 0} (p : A → Bool) (f : A → ℕ) (xs : List A) → count p (order_by f xs) ≡ count p xs
unfolding count order_by
count-order_by p f [] = refl
count-order_by p f (x ∷ xs) =
    ground (arith, count-put_sorted p f x (order_by f xs), count-order_by p f xs)

abbrev pub has_draft : List Draft → SendRequest → Bool
has_draft ds r = exists (λ (d : Draft). same d.id r.draft_id) ds

length-join_drafts :
    (ds : List Draft) (rs : List SendRequest) → length (join_drafts ds rs) ≡ count (has_draft ds) rs
unfolding join_drafts count exists
length-join_drafts ds [] = refl
length-join_drafts ds (r ∷ rs) = elim (Option-cases (find (draft_at r.draft_id) ds)) [
  | inl n ↦ rw (n, exists) (length-join_drafts ds rs)
  | inr (d, n) ↦ rw (n, exists) (omega (arith, length-join_drafts ds rs))
]

-- The requests that wait: those that are pending and whose draft is in the table.
abbrev pub waiting : Db → ℕ
waiting db =
    count (λ (r : SendRequest). is_pending_request r.status && has_draft db.drafts r) db.requests

pub waiting-listed :
    (db : Db)
    → length (
        join_drafts db.drafts (
          order_by
            (λ (r : SendRequest). r.requested_at)
            (select (λ (r : SendRequest). is_pending_request r.status) db.requests)))
      ≡ waiting db
waiting-listed db =
    let rows = select (λ (r : SendRequest). is_pending_request r.status) db.requests in
    length-join_drafts db.drafts (order_by (λ (r : SendRequest). r.requested_at) rows)
    ∙ count-order_by (has_draft db.drafts) (λ (r : SendRequest). r.requested_at) rows
    ∙ sym (
        count-select (λ (r : SendRequest). is_pending_request r.status) (has_draft db.drafts)
          db.requests)
