-- ===== src/Inbox.antt =====
-- The agent's inbox (app/crm.py): leases of events and their recovery.
-- The changes of one event are in Inbox/Changes.antt and arrivals in Inbox/Receive.antt. A clock
-- reading `now` is in microseconds, a `timestamp` in seconds. `received_at` is a time in
-- the model, so the source's answer to a column that is no date has no counterpart.
pub mod Changes
pub mod Receive
pub mod Recover
pub mod Claim
pub mod Retry
pub mod Decisions
use ollum_sales.Prelude.{
  ℕ, suc, ◌+◌, ◌-◌, ◌*◌, ◌/◌, ◌%◌, Bool, true, false, not, ◌&&◌, ◌||◌, Option, none, some, max,
  take, ltb, leb, ◌==◌, if◌then◌else◌,
}
use ollum_sales.Text.{Text, text, same, given, or_empty, or_none, collapse}
use ollum_sales.Exec.{
  ok, err, pure, raise, gets, or_raise, modify, raise_if, transaction, ◌>>=◌, ◌>>◌,
}
use ollum_sales.Table.{find, select, update, count, exists, first_by, by_two}
use ollum_sales.Clock.{second, stamp}
use ollum_sales.Phone.{normalize_whatsapp_jid}
use ollum_sales.Workspaces.{workspace_id, get_conversation_agent_settings}
use ollum_sales.Leads.{get_lead}
use ollum_sales.Drafts.{draft_at, get_outreach_draft}
use ollum_sales.Autopilot.{clamp}
use ollum_sales.Schema.{
  Db, InboxEvent, AgentSettings, Crm, InboxStatus, agent_inbox_statuses, validate_status, is_new,
  is_processing, is_needs_review, is_open, bad_status, bad_jid, event_not_found, integrity_error,
  only_review_retried, has_draft, no_lead, stale_event, event_changed,
}

abbrev pub event_at : Text → InboxEvent → Bool
event_at k e = same e.id k

-- WHERE id = ? AND workspace_id = ?
abbrev pub event_in : Text → Text → InboxEvent → Bool
event_in workspace k e = event_at k e && same e.workspace_id workspace

unfoldable pub set_events : (InboxEvent → Bool) → (InboxEvent → InboxEvent) → Db → Db
set_events p f db = record db { events = update p f db.events }

-- agent_lock_until <= ?; of NULL it does not hold
abbrev pub lock_passed : ℕ → Option ℕ → Bool
lock_passed now none = false
lock_passed now (some t) = leb t now

-- agent_lock_until IS NULL OR agent_lock_until <= ?
abbrev pub lock_free : ℕ → Option ℕ → Bool
lock_free now none = true
lock_free now (some t) = leb t now

abbrev pub jid_matches : Option Text → InboxEvent → Bool
jid_matches none e = true
jid_matches (some jid) e = same e.chat_jid jid

-- the `WHERE` of `claim_next_agent_inbox_event`
unfoldable pub is_claimable : Text → ℕ → Option Text → InboxEvent → Bool
is_claimable workspace timestamp jid e =
    same e.workspace_id workspace
    && (is_new e.status || (is_processing e.status && lock_passed timestamp e.agent_lock_until))
    && jid_matches jid e

abbrev pub lease : ℕ → ℕ → InboxEvent → InboxEvent
lease timestamp lock_until e = record e {
  status = InboxStatus.processing;
  agent_attempts = suc e.agent_attempts;
  agent_lock_until = some lock_until;
  agent_error = none;
  updated_at = timestamp;
}

abbrev pub older : InboxEvent → InboxEvent → Bool
older = by_two (λ (e : InboxEvent). e.received_at) (λ (e : InboxEvent). e.created_at)

-- the first row of `… WHERE … ORDER BY received_at ASC, created_at ASC LIMIT 1`
unfoldable pub next_claimable : Text → ℕ → Option Text → Db → Option InboxEvent
next_claimable workspace timestamp jid db =
    first_by older (select (is_claimable workspace timestamp jid) db.events)

unfoldable pub lease_row : Text → ℕ → ℕ → Option InboxEvent → Crm (Option InboxEvent)
unfolding set_events
lease_row workspace timestamp lock_until none db = (ok none, db)
lease_row workspace timestamp lock_until (some e) db =
    let db' = set_events (event_in workspace e.id) (lease timestamp lock_until) db in
    (ok (find (event_at e.id) db'.events), db')

-- `normalize_whatsapp_jid(chat_jid) if chat_jid else None`
unfoldable pub clean_chat : Option Text → Crm (Option Text)
clean_chat chat_jid =
    if given chat_jid
    then (do jid ← or_raise (normalize_whatsapp_jid (or_empty chat_jid)) bad_jid; pure (some jid))
    else pure none

-- the transaction of `claim_next_agent_inbox_event`
unfoldable pub claim_row : ℕ → ℕ → Text → Option Text → Crm (Option InboxEvent)
claim_row now lease_seconds k jid db =
    lease_row k (stamp now) (stamp (now + max 30 lease_seconds * second))
      (next_claimable k (stamp now) jid db) db

unfoldable pub claim_next_agent_inbox_event : ℕ → Text → ℕ → Option Text → Crm (Option InboxEvent)
claim_next_agent_inbox_event now workspace lease_seconds chat_jid = do
  k ← workspace_id workspace
  jid ← clean_chat chat_jid
  transaction (claim_row now lease_seconds k jid)

abbrev pub to_review : ℕ → Text → InboxEvent → InboxEvent
to_review timestamp error e = record e {
  status = InboxStatus.needs_review;
  agent_lock_until = none;
  agent_error = some error;
  updated_at = timestamp;
}

abbrev pub to_new : ℕ → InboxEvent → InboxEvent
to_new timestamp e = record e {
  status = InboxStatus.new;
  agent_lock_until = none;
  agent_error = none;
  updated_at = timestamp;
}

-- the `WHERE` of the three statements of `recover_expired_agent_inbox_leases`
abbrev pub is_stale : Text → ℕ → ℕ → InboxEvent → Bool
is_stale workspace timestamp stale_before e =
    same e.workspace_id workspace
    && (is_new e.status || is_processing e.status)
    && ltb e.received_at stale_before
    && (is_new e.status || lock_free timestamp e.agent_lock_until)

abbrev pub is_abandoned : Text → ℕ → InboxEvent → Bool
is_abandoned workspace timestamp e =
    same e.workspace_id workspace
    && is_processing e.status
    && lock_free timestamp e.agent_lock_until

abbrev pub is_exhausted : Text → ℕ → ℕ → InboxEvent → Bool
is_exhausted workspace timestamp attempts e =
    is_abandoned workspace timestamp e && leb attempts e.agent_attempts

abbrev pub is_retryable : Text → ℕ → ℕ → InboxEvent → Bool
is_retryable workspace timestamp attempts e =
    is_abandoned workspace timestamp e && ltb e.agent_attempts attempts

abbrev pub stale_reason : Text
stale_reason = text "Inbound message is older than the configured response window"

abbrev pub exhausted_reason : Text
exhausted_reason = text "ChatGPT did not complete this event after the configured lease attempts"

-- the counts in the answer
pub record Recovery : Type 0 where
  pub max_inbound_age_hours : ℕ
  pub max_attempts : ℕ
  pub stale_quarantined : ℕ
  pub leases_exhausted : ℕ
  pub leases_requeued : ℕ
  pub changed : ℕ

-- the transaction of `recover_expired_agent_inbox_leases`, from the bounded arguments
unfoldable pub recover_row : ℕ → Text → ℕ → ℕ → Crm Recovery
unfolding set_events
recover_row now k hours attempts db =
    let before = stamp (now - hours * 3600 * second) in
    let t = stamp now in
    let stale = count (is_stale k t before) db.events in
    let db1 = set_events (is_stale k t before) (to_review t stale_reason) db in
    let exhausted = count (is_exhausted k t attempts) db1.events in
    let db2 = set_events (is_exhausted k t attempts) (to_review t exhausted_reason) db1 in
    let requeued = count (is_retryable k t attempts) db2.events in
    let db3 = set_events (is_retryable k t attempts) (to_new t) db2 in
    (
      ok (record {
        max_inbound_age_hours = hours;
        max_attempts = attempts;
        stale_quarantined = stale;
        leases_exhausted = exhausted;
        leases_requeued = requeued;
        changed = stale + exhausted + requeued;
      }),
      db3,
    )

unfoldable pub recover_expired_agent_inbox_leases : ℕ → Text → ℕ → ℕ → Crm Recovery
recover_expired_agent_inbox_leases now workspace max_age_hours max_attempts = do
  k ← workspace_id workspace
  transaction (recover_row now k (clamp 1 720 max_age_hours) (clamp 1 10 max_attempts))
