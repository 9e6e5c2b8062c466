-- ===== src/Inbox/Changes.antt =====
-- The changes of one inbox event (app/crm.py): `get_agent_inbox_event`,
-- `finish_agent_inbox_event`, `update_agent_inbox_event`, `_agent_inbox_operational_view`,
-- `requeue_agent_inbox_event` and `resolve_agent_inbox_for_draft`.
use ollum_sales.Prelude.{
  ℕ, ◌+◌, ◌-◌, ◌*◌, ◌/◌, ◌%◌, Bool, true, false, not, ◌&&◌, Option, none, some, max, take, ltb, leb,
  ◌==◌, if◌then◌else◌,
}
use ollum_sales.Text.{Text, text, same, given, or_empty, or_none, collapse}
use ollum_sales.Exec.{pure, gets, or_raise, modify, raise_if, transaction, ◌>>=◌, ◌>>◌}
use ollum_sales.Table.{find, count, exists}
use ollum_sales.Clock.{second, stamp}
use ollum_sales.Workspaces.{workspace_id, get_conversation_agent_settings}
use ollum_sales.Drafts.{draft_at, get_outreach_draft}
use ollum_sales.Inbox.{event_at, event_in, set_events, to_new}
use ollum_sales.Schema.{
  Db, InboxEvent, AgentSettings, Crm, InboxStatus, agent_inbox_statuses, validate_status, is_new,
  is_processing, is_needs_review, is_open, bad_status, event_not_found, integrity_error,
  only_review_retried, has_draft, no_lead, stale_event, event_changed, assertion_failed,
}

unfoldable pub get_agent_inbox_event : Text → Text → Crm InboxEvent
get_agent_inbox_event workspace event_id = do
  k ← workspace_id workspace
  row ← transaction (gets (λ db. find (event_in k event_id) db.events))
  or_raise row event_not_found

-- `if draft_id: self.get_outreach_draft(draft_id)`
unfoldable pub check_draft : Option Text → Crm (Unit {0})
check_draft draft_id =
    if given draft_id then (do get_outreach_draft (or_empty draft_id); pure tt) else pure tt

-- COALESCE(?, column)
abbrev pub coalesce : Option Text → Option Text → Option Text
coalesce none old = old
coalesce (some new) old = some new

-- Does a new `draft_id` name no draft? The foreign key refuses the update then.
unfoldable pub is_dangling : Option Text → Db → Bool
is_dangling none db = false
is_dangling (some k) db = not (exists (draft_at k) db.drafts)

-- UPDATE agent_inbox_events … WHERE id = ? AND workspace_id = ?, and the row that it changed
unfoldable pub change_event : Text → Text → Option Text → (InboxEvent → InboxEvent) → Crm InboxEvent
unfolding set_events is_dangling
change_event k event_id draft_id f = transaction (do
  rowcount ← gets (λ db. count (event_in k event_id) db.events)
  dangling ← gets (is_dangling draft_id)
  raise_if (not (rowcount == 0) && dangling) integrity_error
  modify (set_events (event_in k event_id) f)
  raise_if (not (rowcount == 1)) event_not_found
  row ← gets (λ db. find (event_at event_id) db.events)
  or_raise row assertion_failed)

-- `_json(decision or {})`, of the JSON text of a decision
abbrev pub decision_text : Option Text → Text
decision_text none = text "{}"
decision_text (some d) = d

abbrev pub finished :
    ℕ → InboxStatus → Option Text → Option Text → Option Text → InboxEvent → InboxEvent
finished timestamp status decision draft_id error e = record e {
  status = status;
  draft_id = coalesce draft_id e.draft_id;
  decision = some (decision_text decision);
  agent_error = or_none (take 2000 (collapse (or_empty error)));
  agent_lock_until = none;
  updated_at = timestamp;
}

-- arguments: workspace, event, status, decision, draft, error
unfoldable pub finish_agent_inbox_event :
    ℕ → Text → Text → Text → Option Text → Option Text → Option Text → Crm InboxEvent
unfolding check_draft
finish_agent_inbox_event timestamp workspace event_id status decision draft_id error = do
  k ← workspace_id workspace
  clean ← or_raise (validate_status status agent_inbox_statuses) bad_status
  check_draft draft_id
  change_event k event_id draft_id (finished timestamp clean decision draft_id error)

abbrev pub updated : ℕ → InboxStatus → Option Text → InboxEvent → InboxEvent
updated timestamp status draft_id e = record e {
  status = status;
  draft_id = coalesce draft_id e.draft_id;
  agent_lock_until = if is_processing status then e.agent_lock_until else none;
  updated_at = timestamp;
}

unfoldable pub update_agent_inbox_event : ℕ → Text → Text → Text → Option Text → Crm InboxEvent
unfolding check_draft
update_agent_inbox_event timestamp workspace event_id status draft_id = do
  k ← workspace_id workspace
  clean ← or_raise (validate_status status agent_inbox_statuses) bad_status
  check_draft draft_id
  change_event k event_id draft_id (updated timestamp clean draft_id)

pub data SlaState : Type 0 where
  closed overdue at_risk on_track : SlaState

pub data RetryBlock : Type 0 where
  event_not_in_review draft_already_exists lead_not_linked inbound_expired : RetryBlock

pub record OperationalView : Type 0 where
  pub age_minutes : ℕ
  pub sla_state : SlaState
  pub retry_block_reason : Option RetryBlock

-- `round(n * 0.75)`: the nearest whole number, and of two the even one
unfoldable pub three_quarters : ℕ → ℕ
three_quarters n =
    let whole = 3 * n / 4 in
    if ltb (3 * n % 4) 2
    then whole
    else if 3 * n % 4 == 2 && whole % 2 == 0
    then whole
    else whole + 1

-- max(0, int((now - received_at).total_seconds() // 60))
abbrev pub age_of : ℕ → InboxEvent → ℕ
age_of now e = (now - e.received_at * second) / (60 * second)

abbrev pub sla_of : ℕ → ℕ → InboxEvent → SlaState
sla_of age sla e =
    if not (is_open e.status)
    then SlaState.closed
    else if leb sla age
    then SlaState.overdue
    else if leb (max 1 (three_quarters sla)) age
    then SlaState.at_risk
    else SlaState.on_track

abbrev pub block_of : ℕ → ℕ → InboxEvent → Option RetryBlock
block_of age max_age e =
    if not (is_needs_review e.status)
    then some event_not_in_review
    else if given e.draft_id
    then some draft_already_exists
    else if not (given e.lead_id)
    then some lead_not_linked
    else if ltb max_age age
    then some inbound_expired
    else none

-- `_agent_inbox_operational_view`
unfoldable pub operational_view : AgentSettings → ℕ → InboxEvent → OperationalView
unfolding three_quarters
operational_view settings now e = record {
  age_minutes = age_of now e;
  sla_state = sla_of (age_of now e) settings.response_sla_minutes e;
  retry_block_reason = block_of (age_of now e) (settings.max_inbound_age_hours * 60) e;
}

abbrev pub has_value : Option Text → Bool
has_value none = false
has_value (some s) = true

-- the `WHERE` of the update in `requeue_agent_inbox_event`
abbrev pub is_retried : Text → Text → InboxEvent → Bool
is_retried k event_id e =
    event_in k event_id e
    && is_needs_review e.status
    && not (has_value e.draft_id)
    && has_value e.lead_id

abbrev pub fresh_start : ℕ → InboxEvent → InboxEvent
fresh_start timestamp e = record (to_new timestamp e) { agent_attempts = 0; decision = none }

-- The event, and whether it was requeued; `idempotent` is the opposite.
unfoldable pub requeue_row : ℕ → Text → Text → AgentSettings → Crm (InboxEvent × Bool)
unfolding set_events
requeue_row now k event_id settings = do
  row ← gets (λ db. find (event_in k event_id) db.events)
  event ← or_raise row event_not_found
  if is_new event.status then pure (event, false) else do
    raise_if (not (is_needs_review event.status)) only_review_retried
    raise_if (given event.draft_id) has_draft
    raise_if (not (given event.lead_id)) no_lead
    raise_if (ltb (event.received_at * second + settings.max_inbound_age_hours * 3600 * second) now)
        stale_event
    rowcount ← gets (λ db. count (is_retried k event_id) db.events)
    modify (set_events (is_retried k event_id) (fresh_start (stamp now)))
    raise_if (not (rowcount == 1)) event_changed
    changed ← gets (λ db. find (event_at event_id) db.events)
    saved ← or_raise changed assertion_failed
    pure (saved, true)

unfoldable pub requeue_agent_inbox_event : ℕ → Text → Text → Crm (InboxEvent × Bool)
requeue_agent_inbox_event now workspace event_id = do
  k ← workspace_id workspace
  settings ← get_conversation_agent_settings (stamp now) k
  transaction (requeue_row now k event_id settings)

abbrev pub resolved : ℕ → InboxEvent → InboxEvent
resolved timestamp e = record e { status = InboxStatus.resolved; updated_at = timestamp }

-- WHERE workspace_id = ? AND draft_id = ? AND status IN (the open ones)
abbrev pub is_open_for : Text → Text → InboxEvent → Bool
is_open_for k draft_id e =
    same e.workspace_id k
    && has_value e.draft_id
    && same (or_empty e.draft_id) draft_id
    && is_open e.status

unfoldable pub resolve_agent_inbox_for_draft : ℕ → Text → Text → Crm ℕ
unfolding set_events
resolve_agent_inbox_for_draft timestamp workspace draft_id = do
  k ← workspace_id workspace
  transaction (do
    rowcount ← gets (λ db. count (is_open_for k draft_id) db.events)
    modify (set_events (is_open_for k draft_id) (resolved timestamp))
    pure rowcount)
