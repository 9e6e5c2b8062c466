-- ===== src/Inbox/Recover.antt =====
-- The store after `recover_expired_agent_inbox_leases` (app/crm.py).
use ollum_sales.Prelude.{ℕ, ◌-◌, ◌*◌, ◌≡◌, refl, ◌∙◌, false, List, arith, map}
use ollum_sales.Text.{Text}
use ollum_sales.Exec.{ok, Returns}
use ollum_sales.Clock.{second, stamp}
use ollum_sales.Table.{count, update}
use ollum_sales.Table.Laws.{touch, update-map, count-map_none, map-map, update-count_zero}
use ollum_sales.Schema.{Db, InboxEvent}
use ollum_sales.Workspaces.{workspace_id}
use ollum_sales.Autopilot.{clamp}
use ollum_sales.Inbox.{
  set_events, to_review, to_new, is_stale, is_abandoned, is_exhausted, is_retryable, stale_reason,
  exhausted_reason, recover_expired_agent_inbox_leases, Recovery, recover_row,
}

-- What the three statements do to one event.
abbrev pub recover_event : Text → ℕ → ℕ → ℕ → InboxEvent → InboxEvent
recover_event k t before attempts e = touch (is_retryable k t attempts) (to_new t) (
    touch (is_exhausted k t attempts) (to_review t exhausted_reason)
      (touch (is_stale k t before) (to_review t stale_reason) e))

abbrev pub recovered : Text → ℕ → ℕ → ℕ → List InboxEvent → List InboxEvent
recovered k t before attempts es = update (is_retryable k t attempts) (to_new t) (
    update (is_exhausted k t attempts) (to_review t exhausted_reason)
      (update (is_stale k t before) (to_review t stale_reason) es))

pub recovered-map :
    (k : Text) (t before attempts : ℕ) (es : List InboxEvent)
    → recovered k t before attempts es ≡ map (recover_event k t before attempts) es
recovered-map k t before attempts es =
    rw (update-map (is_stale k t before) (to_review t stale_reason) es) (
      rw (update-map (is_exhausted k t attempts) (to_review t exhausted_reason))
        (rw (update-map (is_retryable k t attempts) (to_new t)) (simp map-map)))

module _ (k : Text) (t before attempts : ℕ) (e : InboxEvent) where
  not_abandoned : is_abandoned k t (recover_event k t before attempts e) ≡ false
  not_abandoned = ground arith

  not_stale : is_stale k t before (recover_event k t before attempts e) ≡ false
  not_stale = ground arith

  not_exhausted : is_exhausted k t attempts (recover_event k t before attempts e) ≡ false
  not_exhausted = rw not_abandoned refl

  not_retryable : is_retryable k t attempts (recover_event k t before attempts e) ≡ false
  not_retryable = rw not_abandoned refl

module _ (k : Text) (t before attempts : ℕ) (es : List InboxEvent) where
  none_abandoned : count (is_abandoned k t) (recovered k t before attempts es) ≡ 0
  none_abandoned = rw (recovered-map k t before attempts es) (
      count-map_none (is_abandoned k t) (recover_event k t before attempts) es
        (not_abandoned k t before attempts))

  none_stale : count (is_stale k t before) (recovered k t before attempts es) ≡ 0
  none_stale = rw (recovered-map k t before attempts es) (
      count-map_none (is_stale k t before) (recover_event k t before attempts) es
        (not_stale k t before attempts))

  none_exhausted : count (is_exhausted k t attempts) (recovered k t before attempts es) ≡ 0
  none_exhausted = rw (recovered-map k t before attempts es) (
      count-map_none (is_exhausted k t attempts) (recover_event k t before attempts) es
        (not_exhausted k t before attempts))

  none_retryable : count (is_retryable k t attempts) (recovered k t before attempts es) ≡ 0
  none_retryable = rw (recovered-map k t before attempts es) (
      count-map_none (is_retryable k t attempts) (recover_event k t before attempts) es
        (not_retryable k t before attempts))

settled :
    (k : Text) (t before attempts : ℕ) (xs : List InboxEvent)
    → count (is_stale k t before) xs ≡ 0
    → count (is_exhausted k t attempts) xs ≡ 0
    → count (is_retryable k t attempts) xs ≡ 0
    → (update (is_stale k t before) (to_review t stale_reason) xs ≡ xs)
      × (update (is_exhausted k t attempts) (to_review t exhausted_reason) xs ≡ xs)
      × (update (is_retryable k t attempts) (to_new t) xs ≡ xs)
settled k t before attempts xs a b c = (
  update-count_zero (is_stale k t before) (to_review t stale_reason) xs a,
  update-count_zero (is_exhausted k t attempts) (to_review t exhausted_reason) xs b,
  update-count_zero (is_retryable k t attempts) (to_new t) xs c,
)

-- the answer of a recovery that finds nothing to do
abbrev nothing : ℕ → ℕ → Recovery
nothing hours attempts = record {
  max_inbound_age_hours = hours;
  max_attempts = attempts;
  stale_quarantined = 0;
  leases_exhausted = 0;
  leases_requeued = 0;
  changed = 0;
}

workspace_id-any :
    (value k : Text) (db db' : Db)
    → workspace_id value db ≡ (ok k, db)
    → workspace_id value db' ≡ (ok k, db')
unfolding workspace_id
workspace_id-any value k db db' h = ground arith

pub recover-row :
    (now hours attempts : ℕ) (workspace k : Text) (db : Db)
    → workspace_id workspace db ≡ (ok k, db)
    → recover_expired_agent_inbox_leases now workspace hours attempts db
      ≡ recover_row now k (clamp 1 720 hours) (clamp 1 10 attempts) db
unfolding recover_expired_agent_inbox_leases recover_row
recover-row now hours attempts workspace k db h = ground arith

row-settled :
    (now : ℕ) (k : Text) (hours attempts : ℕ) (db : Db)
    → count (is_stale k (stamp now) (stamp (now - hours * 3600 * second))) db.events ≡ 0
    → count (is_exhausted k (stamp now) attempts) db.events ≡ 0
    → count (is_retryable k (stamp now) attempts) db.events ≡ 0
    → recover_row now k hours attempts db ≡ (ok (nothing hours attempts), db)
unfolding recover_row set_events
row-settled now k hours attempts db a b c =
    let before = stamp (now - hours * 3600 * second) in
    let (s, x, r) = settled k (stamp now) before attempts db.events a b c in
    rw (s, x, r, a, b, c) refl

-- A store in which a recovery has done its work.
pub record Settled (now : ℕ) (workspace k : Text) (hours attempts : ℕ) (db : Db) : Type 0 where
  pub leases : count (is_abandoned k (stamp now)) db.events ≡ 0
  pub fresh :
      count (is_stale k (stamp now) (stamp (now - clamp 1 720 hours * 3600 * second))) db.events ≡ 0
  pub again :
      recover_expired_agent_inbox_leases now workspace hours attempts db
      ≡ (ok (nothing (clamp 1 720 hours) (clamp 1 10 attempts)), db)

recovered_db : ℕ → Text → ℕ → ℕ → Db → Db
recovered_db now k hours attempts db = record db {
  events = recovered k (stamp now) (stamp (now - hours * 3600 * second)) attempts db.events;
}

recovered-Settled :
    (now hours attempts : ℕ) (workspace k : Text) (db : Db)
    → workspace_id workspace db ≡ (ok k, db)
    → Settled now workspace k hours attempts
        (recovered_db now k (clamp 1 720 hours) (clamp 1 10 attempts) db)
unfolding recovered_db
recovered-Settled now hours attempts workspace k db h =
    let age = clamp 1 720 hours in
    let tries = clamp 1 10 attempts in
    let t = stamp now in
    let before = stamp (now - age * 3600 * second) in
    let db' = recovered_db now k age tries db in
    record {
      leases = none_abandoned k t before tries db.events;
      fresh = none_stale k t before tries db.events;
      again =
          recover-row now hours attempts workspace k db' (workspace_id-any workspace k db db' h)
          ∙ row-settled now k age tries db' (none_stale k t before tries db.events)
              (none_exhausted k t before tries db.events)
              (none_retryable k t before tries db.events);
    }

-- A recovery in a workspace with a valid id returns. After it no event of the workspace is
-- processed under a lease that has run out or is missing, none waits that is older than the
-- response window, and a second recovery at the same time finds nothing to do and changes nothing.
pub recover_settles :
    (now hours attempts : ℕ) (workspace k : Text) (db : Db)
    → workspace_id workspace db ≡ (ok k, db)
    → Returns
        (λ _. Settled now workspace k hours attempts)
        (recover_expired_agent_inbox_leases now workspace hours attempts db)
recover_settles now hours attempts workspace k db h =
    rw (recover-row now hours attempts workspace k db h) (
      unfold recover_row set_events recovered_db in
      recovered-Settled now hours attempts workspace k db h)
