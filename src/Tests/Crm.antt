-- ===== src/Tests/Crm.antt =====
-- Witnesses of the properties of the autopilot, the inbox, phones and follow-ups.
use ollum_sales.Prelude.{
  ℕ, ◌+◌, ◌-◌, ◌*◌, map, ◌≤◌, ◌≡◌, ◌≢◌, refl, true, false, List, [], ◌∷◌, Option, none, some, All,
  arith, length, max,
}
use ollum_sales.Text.{
  Text, text, same, strip, lstrip, rstrip, cons_stripped, lower, lower_char, is_space, has_char,
}
use ollum_sales.Exec.{ok, Refused, Returns}
use ollum_sales.Table.{find, select, count, update, exists, first_by}
use ollum_sales.Table.Laws.{IsKeyed}
use ollum_sales.Clock.{second, stamp}
use ollum_sales.Schema.{
  Db, Cycle, Followup, FollowupStatus, AutopilotMode, InboxEvent, is_running, is_pending_followup,
  validate_status, named,
}
use ollum_sales.Autopilot.{
  clamp, new_cycle, lock_cycle, insert_cycle, lock_seconds, recover_stale, begin_autopilot_cycle,
}
use ollum_sales.Autopilot.Exclusive.{IsExclusive}
use ollum_sales.Autopilot.Runs.{AutopilotCall, start, stop, begin, complete, run, run-IsExclusive}
use ollum_sales.Autopilot.Lock.{Spares, begin_once}
use ollum_sales.Phone.{
  is_digit, digits_of, drop_00, to_country_code, phone_digits, is_phone, all_zero, starts_with,
  normalize_phone,
}
use ollum_sales.Phone.Laws.{Digits, normalize_phone_lem, normalize_phone_idem}
use ollum_sales.Followups.{followup_at, set_followups, complete_row, complete_followup}
use ollum_sales.Followups.Completion.{complete_once}
use ollum_sales.Workspaces.{workspace_id, has_other}
use ollum_sales.Inbox.{
  event_at, set_events, is_claimable, lease, next_claimable, lease_row, clean_chat, claim_row,
  claim_next_agent_inbox_event, recover_expired_agent_inbox_leases,
}
use ollum_sales.Inbox.Claim.{event_id, Waits, claim_leases_oldest, claim_exclusive}
use ollum_sales.Inbox.Decisions.{decide_event, recover_decides}
use ollum_sales.Inbox.Recover.{Settled, recover_settles}
use ollum_sales.Tests.Board.{board, event, followup}

-- ten seconds after the start of time
abbrev noon : ℕ
noon = 10 * second

cycle : Cycle
cycle = new_cycle 10 (text "c") AutopilotMode.safe

begun_db : Db
unfolding cycle
begun_db = record board {
  cycles = cycle ∷ [];
  autopilot = lock_cycle noon (text "c") board.autopilot;
}

begins : begin_autopilot_cycle false noon (text "c") board ≡ (ok (some cycle), begun_db)
unfolding begin_autopilot_cycle recover_stale insert_cycle exists find cycle begun_db
begins = refl

abbrev calls_between : List AutopilotCall
calls_between =
    start 15 (text "safe") 30 3 10 55
    ∷ begin true (noon + 30 * second) (text "j") refl
    ∷ complete (noon + 40 * second) (text "z") (text "{}") none
    ∷ []

spared : All (Spares (stamp (noon + lock_seconds * second)) (text "c")) calls_between
unfolding same
spared = (tt, (omega arith, (refl, tt)))

begin_once_example :
    begin_autopilot_cycle true (noon + 60 * second) (text "k") (run begun_db calls_between)
    ≡ (ok none, run begun_db calls_between)
begin_once_example =
    begin_once board begun_db false true noon (noon + 60 * second) (text "c") (text "k") cycle
      calls_between (record { keyed = tt; named = tt; runs = tt }) refl begins
      (unfold cycle in spared) (omega arith)

autopilot_calls : List AutopilotCall
autopilot_calls =
    start 5 (text "safe") 30 3 10 55
    ∷ begin false noon (text "c") refl
    ∷ begin true (noon + 60 * second) (text "k") refl
    ∷ complete (noon + 90 * second) (text "c") (text "{}") none
    ∷ stop 200 201
    ∷ []

run-IsExclusive_example :
    IsExclusive (run board autopilot_calls)
    × (count (λ (c : Cycle). is_running c.status) (run board autopilot_calls).cycles ≤ 1)
run-IsExclusive_example =
    run-IsExclusive board autopilot_calls (record { keyed = tt; named = tt; runs = tt })

workspace_w : workspace_id (text "w") board ≡ (ok (text "w"), board)
unfolding workspace_id has_other has_char strip lstrip rstrip cons_stripped lower lower_char
    is_space
workspace_w = refl

recover_settles_example :
    Returns
      (λ _. Settled noon (text "w") (text "w") 24 3)
      (recover_expired_agent_inbox_leases noon (text "w") 24 3 board)
recover_settles_example = recover_settles noon 24 3 (text "w") (text "w") board workspace_w

recover_decides_example :
    (recover_expired_agent_inbox_leases noon (text "w") 24 3 board).1 ≡ record board {
      events =
          map
            (decide_event
              (text "w")
              (stamp noon)
              (stamp (noon - clamp 1 720 24 * 3600 * second))
              (clamp 1 10 3))
            board.events;
    }
recover_decides_example = recover_decides noon 24 3 (text "w") (text "w") board workspace_w

events-Keyed : IsKeyed event_id board.events
unfolding find same
events-Keyed = (refl, (refl, tt))

leased_event : InboxEvent
leased_event = lease 10 70 event

leased_db : Db
unfolding leased_event
leased_db = record board {
  events =
      leased_event ∷ record event { id = text "n"; external_id = text "y"; received_at = 6 } ∷ [];
}

event_claims :
    claim_next_agent_inbox_event noon (text "w") 60 none board ≡ (ok (some leased_event), leased_db)
unfolding claim_next_agent_inbox_event clean_chat claim_row lease_row next_claimable is_claimable
    first_by select set_events update find same workspace_id has_other has_char strip lstrip rstrip
    cons_stripped lower lower_char is_space leased_event leased_db
event_claims = refl

claim_leases_oldest_example :
    (k : Text) × (jid : Option Text) × (c : InboxEvent) × (workspace_id (text "w") board
      ≡ (ok k, board))
    × (clean_chat none board ≡ (ok jid, board))
    × (find (event_at c.id) board.events ≡ some c)
    × (is_claimable k (stamp noon) jid c ≡ true)
    × All (Waits (is_claimable k (stamp noon) jid) c) board.events
    × (leased_event ≡ lease (stamp noon) (stamp (noon + max 30 60 * second)) c)
claim_leases_oldest_example =
    claim_leases_oldest noon 60 (text "w") none board leased_db leased_event events-Keyed
      event_claims

next_event : InboxEvent
next_event = lease 20 80 (record event { id = text "n"; external_id = text "y"; received_at = 6 })

both_leased : Db
unfolding leased_event next_event
both_leased = record board { events = leased_event ∷ next_event ∷ [] }

next_claims :
    claim_next_agent_inbox_event (noon + 10 * second) (text "w") 60 none leased_db
    ≡ (ok (some next_event), both_leased)
unfolding claim_next_agent_inbox_event clean_chat claim_row lease_row next_claimable is_claimable
    first_by select set_events update find same workspace_id has_other has_char strip lstrip rstrip
    cons_stripped lower lower_char is_space leased_event leased_db next_event both_leased
next_claims = refl

claim_exclusive_example : next_event.id ≢ leased_event.id
claim_exclusive_example =
    claim_exclusive noon (noon + 10 * second) 60 60 (text "w") (text "w") none none board leased_db
      both_leased leased_event next_event events-Keyed event_claims (omega arith) next_claims

completed : Followup
completed = record followup { status = FollowupStatus.completed; completed_at = some 7 }

completed_db : Db
unfolding completed
completed_db = record board { followups = completed ∷ [] }

completes : complete_followup 7 (text "f") (text "completed") board ≡ (ok completed, completed_db)
unfolding complete_followup complete_row set_followups find count update same validate_status named
    strip lstrip rstrip cons_stripped lower lower_char is_space completed completed_db
completes = refl

complete_once_example :
    (find (followup_at (text "f")) completed_db.followups ≡ some completed)
    × (is_pending_followup completed.status ≡ false)
    × Refused completed_db (complete_followup 8 (text "f") (text "cancelled") completed_db)
complete_once_example =
    complete_once 7 8 (text "f") (text "completed") (text "cancelled") board completed_db completed
      completes

phone : normalize_phone (text "8 700 111 22 33") ≡ some (text "77001112233")
unfolding normalize_phone phone_digits is_phone digits_of is_digit drop_00 to_country_code all_zero
phone = refl

normalize_phone_lem_example :
    (7 ≤ length (text "77001112233"))
    × (length (text "77001112233") ≤ 15)
    × (all_zero (text "77001112233") ≡ false)
    × Digits (text "77001112233")
normalize_phone_lem_example =
    normalize_phone_lem (text "8 700 111 22 33") (text "77001112233") phone

normalize_phone_idem_example : normalize_phone (text "77001112233") ≡ some (text "77001112233")
unfolding starts_with
normalize_phone_idem_example =
    normalize_phone_idem (text "8 700 111 22 33") (text "77001112233") phone refl
