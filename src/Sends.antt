-- ===== src/Sends.antt =====
-- The queue of approved drafts (app/crm.py): `queue_outreach_send_request`,
-- `list_pending_send_requests` and `complete_send_request`, with the index that allows one pending request for a draft.
pub mod Queue
use ollum_sales.Prelude.{
  ℕ, Bool, true, false, not, ◌&&◌, ◌||◌, List, [], ◌∷◌, ◌++◌, take, min, max, Option, none, some,
  ◌==◌, if◌then◌else◌,
}
use ollum_sales.Text.{Text, same}
use ollum_sales.Exec.{ok, err, pure, gets, raise, or_raise, raise_if, transaction, ◌>>=◌, ◌>>◌}
use ollum_sales.Table.{find, select, order_by, update, count, insert, exists}
use ollum_sales.Schema.{
  Db, Draft, DraftStatus, SendRequest, RequestStatus, Crm, is_approved, is_pending_request,
  only_approved_queued, request_not_found, assertion_failed,
}
use ollum_sales.Drafts.{draft_at, get_outreach_draft}

abbrev pub request_at : Text → SendRequest → Bool
request_at k r = same r.id k

abbrev pub pending_at : Text → SendRequest → Bool
pending_at k r = request_at k r && is_pending_request r.status

-- WHERE draft_id = ? AND status = 'pending'
abbrev pub pending_send : Text → SendRequest → Bool
pending_send draft_id r = same r.draft_id draft_id && is_pending_request r.status

abbrev pub new_request : ℕ → Text → Text → SendRequest
new_request timestamp fresh draft_id = record {
  id = fresh;
  draft_id = draft_id;
  status = RequestStatus.pending;
  requested_at = timestamp;
  processed_at = none;
  error = none;
}

-- `INSERT OR IGNORE`: a row whose id is there, or whose draft has a pending row, is not inserted.
unfoldable pub insert_or_ignore : SendRequest → Db → Db
insert_or_ignore r db =
    if exists (request_at r.id) db.requests || exists (pending_send r.draft_id) db.requests
    then db
    else record db { requests = insert r db.requests }

-- the transaction of `queue_outreach_send_request`
unfoldable pub queue_row : SendRequest → Crm SendRequest
unfolding insert_or_ignore
queue_row r db =
    let db' = insert_or_ignore r db in
    or_raise (find (pending_send r.draft_id) db'.requests) assertion_failed db'

unfoldable pub queue_outreach_send_request : ℕ → Text → Text → Crm SendRequest
queue_outreach_send_request timestamp fresh draft_id = do
  draft ← get_outreach_draft draft_id
  raise_if (not (is_approved draft.status)) only_approved_queued
  transaction (queue_row (new_request timestamp fresh draft_id))

abbrev pub process : ℕ → Bool → Option Text → SendRequest → SendRequest
process timestamp success error r = record r {
  status = if success then RequestStatus.completed else RequestStatus.failed;
  processed_at = some timestamp;
  error = error;
}

-- the transaction of `complete_send_request`
unfoldable pub process_row : ℕ → Text → Bool → Option Text → Crm SendRequest
process_row timestamp k success error db =
    if count (pending_at k) db.requests == 1
    then (let db' = record db {
      requests = update (pending_at k) (process timestamp success error) db.requests;
    } in
        or_raise (find (request_at k) db'.requests) assertion_failed db')
    else raise request_not_found db

unfoldable pub complete_send_request : ℕ → Text → Bool → Option Text → Crm SendRequest
complete_send_request timestamp request_id success error =
    transaction (process_row timestamp request_id success error)

-- a row of the join of `list_pending_send_requests`, without the columns that no caller reads
pub record PendingSend : Type 0 where
  pub id : Text
  pub draft_id : Text
  pub channel : Text
  pub draft_status : DraftStatus

abbrev pub joined : SendRequest → Option Draft → List PendingSend
joined r none = []
joined r (some d) =
    record { id = r.id; draft_id = r.draft_id; channel = d.channel; draft_status = d.status } ∷ []

unfoldable pub join_drafts : List Draft → List SendRequest → List PendingSend
join_drafts ds [] = []
join_drafts ds (r ∷ rs) = joined r (find (draft_at r.draft_id) ds) ++ join_drafts ds rs

unfoldable pub list_pending_send_requests : ℕ → Crm (List PendingSend)
unfolding join_drafts
list_pending_send_requests limit = transaction (
    gets (λ db. take (max 1 (min limit 200)) (
      join_drafts db.drafts
        (order_by (λ r. r.requested_at) (select (λ r. is_pending_request r.status) db.requests)))))
