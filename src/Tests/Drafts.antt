-- ===== src/Tests/Drafts.antt =====
-- Witnesses of the properties of drafts and of their queue.
use ollum_sales.Prelude.{◌≡◌, refl, true, false, List, [], ◌∷◌, none, some, All, arith}
use ollum_sales.Text.{text, same}
use ollum_sales.Exec.{ok, err, RaisesUnchanged}
use ollum_sales.Table.{find, count, update, exists}
use ollum_sales.Schema.{
  Db, Draft, DraftStatus, SendRequest, is_approved, is_pending_request, request_not_found,
}
use ollum_sales.Drafts.{
  draft_at, set_drafts, set_status, save_outreach_draft, approve_outreach_draft, claim_row,
  get_outreach_draft, claim_outreach_draft_for_send, release_outreach_send_claim,
  mark_outreach_sent,
}
use ollum_sales.Drafts.Calls.{DraftCall, claim, release, mark, Keyed}
use ollum_sales.Drafts.Lifecycle.{IsSound}
use ollum_sales.Drafts.Safety.{Steps, SameContent, run, run_lifecycle, run_final, run-IsSound}
use ollum_sales.Drafts.Atomic.{calls-RaisesUnchanged}
use ollum_sales.Drafts.Claims.{claim_outcome, claim_lem, claim_once}
use ollum_sales.Sends.{
  request_at, pending_send, new_request, process, insert_or_ignore, queue_row,
  queue_outreach_send_request, process_row, complete_send_request,
}
use ollum_sales.Sends.Queue.{queue_once, process_once}
use ollum_sales.Tests.Board.{draft, old_draft, board}

board-Keyed : Keyed board
unfolding find same
board-Keyed = (refl, (refl, tt))

found_draft : find (draft_at (text "d")) board.drafts ≡ some draft
unfolding find same
found_draft = refl

found_old : find (draft_at (text "o")) board.drafts ≡ some old_draft
unfolding find same
found_old = refl

sending : Draft
sending = set_status 5 DraftStatus.sending draft

after_claim : Db
unfolding sending
after_claim = record board { drafts = sending ∷ old_draft ∷ [] }

claims : claim_outreach_draft_for_send 5 (text "d") board ≡ (ok (some sending), after_claim)
unfolding claim_outreach_draft_for_send claim_row get_outreach_draft find count update set_drafts
    same sending after_claim
claims = refl

claim_once_example :
    ((c : Draft) × (find (draft_at (text "d")) board.drafts ≡ some c)
      × (is_approved c.status ≡ true)
      × (sending ≡ set_status 5 DraftStatus.sending c))
    × (find (draft_at (text "d")) after_claim.drafts ≡ some sending)
    × (claim_outreach_draft_for_send 7 (text "d") after_claim ≡ (ok none, after_claim))
claim_once_example = claim_once board 5 7 (text "d") sending after_claim board-Keyed claims

claim_lem_example :
    claim_outreach_draft_for_send 5 (text "d") board
    ≡ claim_outcome 5 (text "d") board (find (draft_at (text "d")) board.drafts)
claim_lem_example = claim_lem board 5 (text "d") board-Keyed

calls : List DraftCall
calls = claim 5 (text "d") ∷ release 6 (text "d") ∷ claim 7 (text "d") ∷ mark 8 (text "d") true ∷ []

run_lifecycle_example :
    (e : Draft) × (find (draft_at (text "d")) (run board calls).drafts ≡ some e)
    × Steps draft e
    × SameContent draft e
run_lifecycle_example = run_lifecycle board calls (text "d") draft board-Keyed found_draft

run_final_example : find (draft_at (text "o")) (run board calls).drafts ≡ some old_draft
run_final_example = run_final board calls (text "o") old_draft board-Keyed found_old refl

sound : All IsSound board.drafts
sound = (
  record { stage = ((2, refl), refl); not_empty = omega arith; not_long = omega arith },
  (record { stage = ((2, refl), (3, refl)); not_empty = omega arith; not_long = omega arith }, tt),
)

run-IsSound_example : All IsSound (run board calls).drafts
run-IsSound_example = run-IsSound board calls board-Keyed sound

calls-RaisesUnchanged_example :
    RaisesUnchanged board
      (save_outreach_draft 4 (text "n") (text "l") (text "fax") (text "hi") none board)
    × RaisesUnchanged board (approve_outreach_draft 4 (text "n") board)
    × RaisesUnchanged board (claim_outreach_draft_for_send 4 (text "n") board)
    × RaisesUnchanged board (release_outreach_send_claim 4 (text "n") board)
    × RaisesUnchanged board (mark_outreach_sent 4 (text "n") true board)
calls-RaisesUnchanged_example =
    calls-RaisesUnchanged board 4 (text "n") (text "l") (text "fax") (text "hi") none true

request : SendRequest
request = new_request 5 (text "r") (text "d")

queued_db : Db
unfolding request
queued_db = record board { requests = request ∷ [] }

queues : queue_outreach_send_request 5 (text "r") (text "d") board ≡ (ok request, queued_db)
unfolding queue_outreach_send_request get_outreach_draft queue_row insert_or_ignore find exists same
    request queued_db
queues = refl

queue_once_example :
    (pending_send (text "d") request ≡ true)
    × (find (pending_send (text "d")) queued_db.requests ≡ some request)
    × (queue_outreach_send_request 6 (text "s") (text "d") queued_db ≡ (ok request, queued_db))
queue_once_example = queue_once 5 6 (text "d") (text "r") (text "s") board queued_db request queues

processed : SendRequest
unfolding request
processed = process 7 true none request

processed_db : Db
unfolding processed
processed_db = record board { requests = processed ∷ [] }

processes : complete_send_request 7 (text "r") true none queued_db ≡ (ok processed, processed_db)
unfolding complete_send_request process_row find count update same request queued_db processed
    processed_db
processes = refl

process_once_example :
    (find (request_at (text "r")) processed_db.requests ≡ some processed)
    × (is_pending_request processed.status ≡ false)
    × (complete_send_request 8 (text "r") false none processed_db
        ≡ (err request_not_found, processed_db))
process_once_example =
    process_once 7 8 (text "r") true false none none queued_db processed_db processed processes
