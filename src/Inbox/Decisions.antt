-- ===== src/Inbox/Decisions.antt =====
-- The recovery of leases (`recover_expired_agent_inbox_leases` of app/crm.py) as one decision for each
-- event.
use mathlib.Core.Path.{◌≡◌}
use ollum_sales.Prelude.{
  ℕ, ◌-◌, ◌*◌, refl, ap, ◌∙◌, Bool, ◌&&◌, ◌||◌, List, [], ◌∷◌, arith, map, ltb, leb, if◌then◌else◌,
}
use ollum_sales.Text.{Text, same}
use ollum_sales.Exec.{ok}
use ollum_sales.Clock.{second, stamp}
use ollum_sales.Schema.{Db, InboxEvent, is_new, is_processing}
use ollum_sales.Workspaces.{workspace_id}
use ollum_sales.Autopilot.{clamp}
use ollum_sales.Inbox.{
  set_events, to_review, to_new, lock_free, stale_reason, exhausted_reason, recover_row,
  recover_expired_agent_inbox_leases,
}
use ollum_sales.Inbox.Recover.{recover_event, recovered-map, recover-row}

-- An event waits when it is new, or when it is processed under no lease that still runs.
abbrev pub waits : ℕ → InboxEvent → Bool
waits t e = is_new e.status || is_processing e.status && lock_free t e.agent_lock_until

-- What becomes of an event of the workspace that waits: too old, it is quarantined; new, it is kept;
-- with no attempt left, it is given to a person; else it is new again.
abbrev pub decide_waiting : ℕ → ℕ → ℕ → InboxEvent → InboxEvent
decide_waiting t before attempts e =
    if ltb e.received_at before
    then to_review t stale_reason e
    else if is_new e.status
    then e
    else if leb attempts e.agent_attempts
    then to_review t exhausted_reason e
    else to_new t e

abbrev pub decide_event : Text → ℕ → ℕ → ℕ → InboxEvent → InboxEvent
decide_event k t before attempts e =
    if same e.workspace_id k && waits t e then decide_waiting t before attempts e else e

event-decided :
    (k : Text) (t before attempts : ℕ) (e : InboxEvent)
    → recover_event k t before attempts e ≡ decide_event k t before attempts e
event-decided k t before attempts e = ground arith

map-same :
    (f g : InboxEvent → InboxEvent) (es : List InboxEvent)
    → ((e : InboxEvent) → f e ≡ g e)
    → map f es ≡ map g es
map-same f g [] h = refl
map-same f g (e ∷ es) h = rw (h e) (rw (map-same f g es h) refl)

-- A recovery in a workspace with a valid id, whose three updates run one after the other over the table,
-- does what one pass over the events does that decides each of them on its own: an event of the
-- workspace that waits, new or processed under no lease that still runs, goes to review if it is too
-- old, is kept if it is new, goes to review if its attempts are used up, and is made new again
-- otherwise; every other event is kept.
pub recover_decides :
    (now hours attempts : ℕ) (workspace k : Text) (db : Db)
    → workspace_id workspace db ≡ (ok k, db)
    → (recover_expired_agent_inbox_leases now workspace hours attempts db).1 ≡ record db {
      events =
          map
            (decide_event k
              (stamp now)
              (stamp (now - clamp 1 720 hours * 3600 * second))
              (clamp 1 10 attempts))
            db.events;
    }
unfolding recover_row set_events
recover_decides now hours attempts workspace k db h =
    let t = stamp now in
    let before = stamp (now - clamp 1 720 hours * 3600 * second) in
    let tries = clamp 1 10 attempts in
    rw (recover-row now hours attempts workspace k db h) (
      ap (λ (es : List InboxEvent). record db { events = es })
        (recovered-map k t before tries db.events
          ∙ map-same (recover_event k t before tries) (decide_event k t before tries) db.events
              (event-decided k t before tries)))
