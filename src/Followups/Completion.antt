-- ===== src/Followups/Completion.antt =====
-- Repeated calls of `complete_followup` (app/crm.py).
use ollum_sales.Prelude.{ℕ, ◌≡◌, refl, false, some, arith, Bool-cases, Option-cases, inl, inr}
use ollum_sales.Text.{Text}
use ollum_sales.Exec.{ok, transaction, Refused}
use ollum_sales.Table.{find, update, count}
use ollum_sales.Table.Laws.{count-update_none, uncounted}
use ollum_sales.Schema.{
  Db, Followup, FollowupStatus, followup_statuses, validate_status, is_pending_followup,
}
use ollum_sales.Followups.{
  followup_at, pending_followup, complete, set_followups, complete_row, complete_followup,
}

-- What a completion that returned leaves.
abbrev Completed : Text → Followup → Db → Type 0
Completed k f db =
    (count (pending_followup k) db.followups ≡ 0)
    × (find (followup_at k) db.followups ≡ some f)
    × (is_pending_followup f.status ≡ false)

row-Completed :
    (t : ℕ) (k : Text) (s : FollowupStatus) (db db' : Db) (f : Followup)
    → is_pending_followup s ≡ false
    → transaction (complete_row t k s) db ≡ (ok f, db')
    → Completed k f db'
unfolding complete_row set_followups
row-Completed t k s db db' f n h =
    let p = pending_followup k in
    let rows = update p (complete t s) db.followups in
    let none_left : count p rows ≡ 0 =
      count-update_none p p (complete t s) db.followups (λ x _. ground (arith, n)) (λ x e. e) in
    let store : db' ≡ record db { followups = rows } = ground arith in
    let found : find (followup_at k) rows ≡ some f = ground arith in
    rw store (
      none_left,
      found,
      uncounted (followup_at k) (λ x. is_pending_followup x.status) rows f none_left found,
    )

completion-Completed :
    (t : ℕ) (k s : Text) (db db' : Db) (f : Followup)
    → complete_followup t k s db ≡ (ok f, db')
    → Completed k f db'
unfolding complete_followup
completion-Completed t k s db db' f h = elim (Option-cases (validate_status s followup_statuses)) [
  | inl n ↦ absurd (ground arith)
  | inr (clean, n) ↦ elim (Bool-cases (is_pending_followup clean)) [
    | inl a ↦ absurd (ground arith)
    | inr a ↦ row-Completed t k clean db db' f a (ground arith)
  ]
]

none-pending :
    (t : ℕ) (k s : Text) (db : Db)
    → count (pending_followup k) db.followups ≡ 0
    → Refused db (complete_followup t k s db)
unfolding complete_followup complete_row
none-pending t k s db h = elim (Option-cases (validate_status s followup_statuses)) [
  | inl n ↦ rw n (_, refl)
  | inr (clean, n) ↦ elim (Bool-cases (is_pending_followup clean)) [
    | inl a ↦ rw (n, a) (_, refl)
    | inr a ↦ rw (n, a, h) (_, refl)
  ]
]

-- A follow-up whose completion returned is there with the row that was returned, which is not
-- pending, and any further completion of it, to any status, raises and changes nothing.
pub complete_once :
    (t t' : ℕ) (k s s' : Text) (db db' : Db) (f : Followup)
    → complete_followup t k s db ≡ (ok f, db')
    → (find (followup_at k) db'.followups ≡ some f)
      × (is_pending_followup f.status ≡ false)
      × Refused db' (complete_followup t' k s' db')
complete_once t t' k s s' db db' f h =
    let (left, found, done) = completion-Completed t k s db db' f h in
    (found, done, none-pending t' k s' db' left)
