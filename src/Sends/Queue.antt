-- ===== src/Sends/Queue.antt =====
-- Repeated calls on the queue of drafts (app/crm.py).
use ollum_sales.Prelude.{
  ℕ, ◌≡◌, refl, ap, ◌∙◌, Bool, true, false, Option, some, arith, Bool-cases, Option-cases, inl, inr,
}
use ollum_sales.Text.{Text}
use ollum_sales.Exec.{ok, err, transaction}
use ollum_sales.Table.{find, update, count, exists}
use ollum_sales.Table.Laws.{find-holds, count-update_none, uncounted}
use ollum_sales.Schema.{Db, Draft, SendRequest, is_pending_request, is_approved, request_not_found}
use ollum_sales.Drafts.{get_outreach_draft, draft_at}
use ollum_sales.Sends.{
  request_at, pending_at, pending_send, new_request, insert_or_ignore, queue_row,
  queue_outreach_send_request, process, process_row, complete_send_request,
}

-- The request of the draft stands, and nothing that the queue reads of the drafts has changed.
row-queued :
    (t : ℕ) (k fresh : Text) (db db' : Db) (r : SendRequest)
    → transaction (queue_row (new_request t fresh k)) db ≡ (ok r, db')
    → (db'.drafts ≡ db.drafts) × (find (pending_send k) db'.requests ≡ some r)
unfolding queue_row insert_or_ignore
row-queued t k fresh db db' r h = (ground arith, ground arith)

row-ignored :
    (t : ℕ) (k fresh : Text) (db : Db) (r : SendRequest)
    → find (pending_send k) db.requests ≡ some r
    → transaction (queue_row (new_request t fresh k)) db ≡ (ok r, db)
unfolding queue_row insert_or_ignore exists
row-ignored t k fresh db r h = ground arith

-- What an approved draft is queued by.
queue-row :
    (t : ℕ) (k fresh : Text) (db : Db) (d : Draft)
    → find (draft_at k) db.drafts ≡ some d
    → is_approved d.status ≡ true
    → queue_outreach_send_request t fresh k db ≡ transaction (queue_row (new_request t fresh k)) db
unfolding queue_outreach_send_request get_outreach_draft
queue-row t k fresh db d n a = ground arith

-- Queueing a draft that returned a request returned a pending request of that draft, and until some
-- other call changes the database, queueing the draft again returns the same request and
-- changes nothing, so a draft is never queued twice at once.
pub queue_once :
    (t t' : ℕ) (k fresh fresh' : Text) (db db' : Db) (r : SendRequest)
    → queue_outreach_send_request t fresh k db ≡ (ok r, db')
    → (pending_send k r ≡ true)
      × (find (pending_send k) db'.requests ≡ some r)
      × (queue_outreach_send_request t' fresh' k db' ≡ (ok r, db'))
unfolding queue_outreach_send_request get_outreach_draft
queue_once t t' k fresh fresh' db db' r h = elim (Option-cases (find (draft_at k) db.drafts)) [
  | inl n ↦ absurd (ground arith)
  | inr (d, n) ↦ elim (Bool-cases (is_approved d.status)) [
    | inr a ↦ absurd (ground arith)
    | inl a ↦
        let (kept, found) = row-queued t k fresh db db' r (ground arith) in
        (
          find-holds (pending_send k) db'.requests r found,
          found,
          queue-row t' k fresh' db' d (ap (find (draft_at k)) kept ∙ n) a
              ∙ row-ignored t' k fresh' db' r found,
        )
  ]
]

-- A request whose completion returned is there with the row that was returned, which is not
-- pending, and every further completion of it raises and changes nothing.
pub process_once :
    (t t' : ℕ) (k : Text) (b b' : Bool) (e e' : Option Text) (db db' : Db) (r : SendRequest)
    → complete_send_request t k b e db ≡ (ok r, db')
    → (find (request_at k) db'.requests ≡ some r)
      × (is_pending_request r.status ≡ false)
      × (complete_send_request t' k b' e' db' ≡ (err request_not_found, db'))
unfolding complete_send_request process_row
process_once t t' k b b' e e' db db' r h =
    let p = pending_at k in
    let rows = update p (process t b e) db.requests in
    let none_left : count p rows ≡ 0 =
      count-update_none p p (process t b e) db.requests (λ x _. ground arith) (λ x c. c) in
    let store : db' ≡ record db { requests = rows } = ground arith in
    let found : find (request_at k) rows ≡ some r = ground arith in
    rw store (
      found,
      uncounted (request_at k) (λ x. is_pending_request x.status) rows r none_left found,
      rw none_left refl,
    )
