-- ===== src/Inbox/Receive.antt =====
-- Arrivals in the inbox (app/crm.py): `_record_inbound_interaction_once`,
-- `upsert_agent_inbox_event`, `link_agent_inbox_event`, and `save_agent_reply_draft`, which ends a
-- lease with one draft. `fresh` and `fresh'` are the ids of a new event and a new interaction.
use ollum_sales.Prelude.{
  ℕ, Bool, true, false, not, ◌&&◌, ◌||◌, ◌∷◌, ◌++◌, Option, none, some, length, take, ltb, leb,
  ◌==◌, if◌then◌else◌,
}
use ollum_sales.Text.{Text, text, same, strip, lower, is_empty, given, or_empty, or_none, collapse}
use ollum_sales.Exec.{ok, err, pure, gets, or_raise, modify, raise_if, transaction, ◌>>=◌, ◌>>◌}
use ollum_sales.Table.{find, count, insert, exists}
use ollum_sales.Clock.{DateText, normalize_datetime}
use ollum_sales.Phone.{normalize_whatsapp_jid, is_technical_whatsapp_jid}
use ollum_sales.Workspaces.{workspace_id, get_workspace}
use ollum_sales.Leads.{get_lead, lead_at, set_lead}
use ollum_sales.Drafts.{draft_at, new_draft, save_row}
use ollum_sales.Inbox.{event_at, event_in, set_events}
use ollum_sales.Inbox.Changes.{coalesce, has_value}
use ollum_sales.Schema.{
  Db, Draft, Interaction, InboxEvent, Crm, InboxStatus, LeadStatus, Direction, is_inbound,
  is_outbound, is_processing, integrity_error, bad_jid, bad_external_id, bad_chat_jid,
  technical_jid, message_text_empty, event_not_found, message_empty, message_too_long,
  recipient_empty, different_lead, not_leased, event_changed, assertion_failed,
}

-- f"agent_inbox:{workspace_id}:{source}:{external_id}"
unfoldable pub interaction_key : Text → Text → Text → Text
interaction_key k source external_id =
    text "agent_inbox:" ++ (k ++ (b':' ∷ (source ++ (b':' ∷ external_id))))

abbrev pub is_recorded : Text → Interaction → Bool
is_recorded key i =
    is_inbound i.direction && has_value i.external_id && same (or_empty i.external_id) key

-- An outbound interaction with the lead, at the time or before.
abbrev pub was_contacted : Text → ℕ → Interaction → Bool
was_contacted lead_id occurred i =
    same i.lead_id lead_id && is_outbound i.direction && leb i.occurred_at occurred

-- WHEN status IN ('new', …, 'follow_up') … THEN 'replied'
abbrev pub answered : LeadStatus → LeadStatus
answered LeadStatus.new = LeadStatus.replied
answered LeadStatus.researching = LeadStatus.replied
answered LeadStatus.analyzed = LeadStatus.replied
answered LeadStatus.qualified = LeadStatus.replied
answered LeadStatus.drafted = LeadStatus.replied
answered LeadStatus.approved = LeadStatus.replied
answered LeadStatus.contacted = LeadStatus.replied
answered LeadStatus.follow_up = LeadStatus.replied
answered other = other

abbrev pub inbound_interaction : Text → Text → Text → Text → Text → ℕ → ℕ → Interaction
inbound_interaction fresh' lead_id channel content key occurred timestamp = record {
  id = fresh';
  lead_id = lead_id;
  channel = channel;
  direction = Direction.inbound;
  content = content;
  status = text "recorded";
  external_id = some key;
  occurred_at = occurred;
  created_at = timestamp;
}

-- The `CASE`s of the update test the outbound interactions, which the new one is not.
unfoldable pub add_interaction : Interaction → Db → Db
unfolding set_lead
add_interaction i db =
    let db' = record db { interactions = insert i db.interactions } in
    if exists (was_contacted i.lead_id i.occurred_at) db'.interactions
    then set_lead i.lead_id i.created_at answered db'
    else db'

-- `_record_inbound_interaction_once`; `occurred` is a column, so `normalize_datetime` returns it
unfoldable pub record_inbound_once : ℕ → Text → Text → Text → Text → Text → Text → ℕ → Crm Bool
unfolding add_interaction
record_inbound_once timestamp fresh' k source external_id lead_id content occurred db =
    let i =
      inbound_interaction fresh' lead_id source content (interaction_key k source external_id)
        occurred timestamp in
    if exists (is_recorded (interaction_key k source external_id)) db.interactions
    then (ok false, db)
    else if exists (λ j. same j.id fresh') db.interactions
    then (err integrity_error, db)
    else (ok true, add_interaction i db)

abbrev pub same_message : Text → Text → Text → InboxEvent → Bool
same_message k source external_id e =
    same e.workspace_id k && same e.source source && same e.external_id external_id

-- The cleaned arguments of `upsert_agent_inbox_event`.
pub record Message : Type 0 where
  pub external_id : Text
  pub chat_jid : Text
  pub message_text : Text
  pub source : Text
  pub sender_label : Option Text
  pub media_type : Option Text
  pub lead_id : Option Text
  pub received_at : DateText

abbrev pub new_event : ℕ → Text → Text → Message → ℕ → InboxEvent
new_event timestamp fresh k m received = record {
  id = fresh;
  workspace_id = k;
  source = m.source;
  external_id = m.external_id;
  lead_id = m.lead_id;
  chat_jid = m.chat_jid;
  sender_label = m.sender_label;
  message_text = m.message_text;
  media_type = m.media_type;
  received_at = received;
  status = InboxStatus.new;
  draft_id = none;
  agent_attempts = 0;
  agent_lock_until = none;
  agent_error = none;
  decision = none;
  created_at = timestamp;
  updated_at = timestamp;
}

abbrev pub refreshed : ℕ → Message → ℕ → InboxEvent → InboxEvent
refreshed timestamp m received e = record e {
  lead_id = coalesce m.lead_id e.lead_id;
  sender_label = m.sender_label;
  message_text = m.message_text;
  media_type = m.media_type;
  received_at = received;
  updated_at = timestamp;
}

-- Does a new `lead_id` name no lead? The foreign key refuses the row then.
unfoldable pub no_such_lead : Option Text → Db → Bool
no_such_lead none db = false
no_such_lead (some k) db = not (exists (lead_at k) db.leads)

unfoldable pub put_found : ℕ → Text → Text → Message → ℕ → Option InboxEvent → Crm (Text × Bool)
unfolding set_events
put_found timestamp fresh k m received none db =
    if exists (event_at fresh) db.events then (err integrity_error, db) else (
      ok (fresh, true),
      record db { events = insert (new_event timestamp fresh k m received) db.events },
    )
put_found timestamp fresh k m received (some e) db =
    (ok (e.id, false), set_events (event_at e.id) (refreshed timestamp m received) db)

-- The insertion, or the update of the event that has the message; the answer is the event's id and
-- whether it is new.
unfoldable pub put_event : ℕ → Text → Text → Message → ℕ → Crm (Text × Bool)
unfolding put_found no_such_lead
put_event timestamp fresh k m received db =
    if no_such_lead m.lead_id db
    then (err integrity_error, db)
    else put_found timestamp fresh k m received
        (find (same_message k m.source m.external_id) db.events) db

-- `if row["lead_id"]: self._record_inbound_interaction_once(…)`
unfoldable pub record_if_linked : ℕ → Text → Text → InboxEvent → Text → Crm (Unit {0})
unfolding record_inbound_once
record_if_linked timestamp fresh' k e content =
    if given e.lead_id
    then (do
      record_inbound_once timestamp fresh' k e.source e.external_id (or_empty e.lead_id) content
          e.received_at
      pure tt)
    else pure tt

-- the transaction of `upsert_agent_inbox_event`
unfoldable pub upsert_row : ℕ → Text → Text → Text → Message → Crm (InboxEvent × Bool)
unfolding put_event record_if_linked
upsert_row timestamp fresh fresh' k m = do
  received ← normalize_datetime timestamp m.received_at
  (event_id, created) ← put_event timestamp fresh k m received
  row ← gets (λ db. find (event_at event_id) db.events)
  e ← or_raise row assertion_failed
  record_if_linked timestamp fresh' k e m.message_text
  pure (e, created)

-- The arguments behind `workspace_id`: external id, chat, text, time, sender, media type, lead and
-- source.
unfoldable pub upsert_agent_inbox_event :
    ℕ
    → Text
    → Text
    → Text
    → Text
    → Text
    → Text
    → DateText
    → Option Text
    → Option Text
    → Option Text
    → Text
    → Crm (InboxEvent × Bool)
upsert_agent_inbox_event timestamp fresh fresh' workspace external_id chat_jid message_text
      received_at sender_label media_type lead_id source =
    do
      k ← workspace_id workspace
      get_workspace k
      let clean_id = strip external_id
      jid ← or_raise (normalize_whatsapp_jid chat_jid) bad_jid
      let clean_message = collapse message_text
      raise_if (is_empty clean_id || ltb 500 (length clean_id)) bad_external_id
      raise_if (is_empty jid || ltb 500 (length jid)) bad_chat_jid
      raise_if (is_technical_whatsapp_jid jid) technical_jid
      raise_if (is_empty clean_message) message_text_empty
      if given lead_id then (do get_lead (or_empty lead_id); pure tt) else pure tt
      transaction (
          upsert_row timestamp fresh fresh' k (record {
            external_id = clean_id;
            chat_jid = jid;
            message_text = take 4000 clean_message;
            source = lower (strip source);
            sender_label = or_none (collapse (or_empty sender_label));
            media_type = media_type;
            lead_id = lead_id;
            received_at = received_at;
          }))

abbrev pub linked : ℕ → Text → InboxEvent → InboxEvent
linked timestamp lead_id e = record e { lead_id = some lead_id; updated_at = timestamp }

-- the transaction of `link_agent_inbox_event`
unfoldable pub link_row : ℕ → Text → Text → Text → Text → Crm InboxEvent
unfolding set_events record_inbound_once
link_row timestamp fresh' k event_id lead_id = do
  rowcount ← gets (λ db. count (event_in k event_id) db.events)
  modify (set_events (event_in k event_id) (linked timestamp lead_id))
  raise_if (not (rowcount == 1)) event_not_found
  row ← gets (λ db. find (event_at event_id) db.events)
  e ← or_raise row assertion_failed
  record_inbound_once timestamp fresh' k e.source e.external_id lead_id e.message_text e.received_at
  pure e

unfoldable pub link_agent_inbox_event : ℕ → Text → Text → Text → Text → Crm InboxEvent
link_agent_inbox_event timestamp fresh' workspace event_id lead_id = do
  k ← workspace_id workspace
  get_lead lead_id
  transaction (link_row timestamp fresh' k event_id lead_id)

abbrev pub replied : ℕ → Text → Text → InboxEvent → InboxEvent
replied timestamp draft_id decision e = record e {
  status = InboxStatus.drafted;
  draft_id = some draft_id;
  decision = some decision;
  agent_error = none;
  agent_lock_until = none;
  updated_at = timestamp;
}

-- the `WHERE` of the update in `save_agent_reply_draft`
abbrev pub is_leased : Text → Text → InboxEvent → Bool
is_leased k event_id e =
    event_in k event_id e && is_processing e.status && not (has_value e.draft_id)

abbrev pub is_of_lead : Text → InboxEvent → Bool
is_of_lead lead_id e = has_value e.lead_id && same (or_empty e.lead_id) lead_id

-- A new draft, and the event that it ends; `idempotent` is false in the answer.
unfoldable pub reply_row : ℕ → Text → Draft → Text → Text → Crm (InboxEvent × Draft × Bool)
unfolding set_events
reply_row timestamp k d event_id decision = do
  save_row timestamp d
  rowcount ← gets (λ db. count (is_leased k event_id) db.events)
  modify (set_events (is_leased k event_id) (replied timestamp d.id decision))
  raise_if (not (rowcount == 1)) event_changed
  row ← gets (λ db. find (event_at event_id) db.events)
  e ← or_raise row assertion_failed
  saved ← gets (λ db. find (draft_at d.id) db.drafts)
  draft ← or_raise saved assertion_failed
  pure (e, draft, false)

-- An event that has its draft already; `idempotent` is true in the answer.
unfoldable pub earlier_reply : InboxEvent → Crm (InboxEvent × Draft × Bool)
earlier_reply e = do
  row ← gets (λ db. find (draft_at (or_empty e.draft_id)) db.drafts)
  draft ← or_raise row assertion_failed
  pure (e, draft, true)

-- the transaction of `save_agent_reply_draft`, whose new draft would be `d`
unfoldable pub save_reply : ℕ → Text → Draft → Text → Text → Crm (InboxEvent × Draft × Bool)
unfolding reply_row earlier_reply
save_reply timestamp k d event_id decision = do
  row ← gets (λ db. find (event_in k event_id) db.events)
  e ← or_raise row event_not_found
  raise_if (not (is_of_lead d.lead_id e)) different_lead
  if given e.draft_id then earlier_reply e else do
    raise_if (not (is_processing e.status)) not_leased
    reply_row timestamp k d event_id decision

-- arguments: workspace, event, lead, recipient, message, decision
unfoldable pub save_agent_reply_draft :
    ℕ → Text → Text → Text → Text → Text → Text → Text → Crm (InboxEvent × Draft × Bool)
save_agent_reply_draft timestamp fresh workspace event_id lead_id recipient message decision = do
  k ← workspace_id workspace
  get_lead lead_id
  raise_if (is_empty (strip message)) message_empty
  raise_if (ltb 4000 (length (strip message))) message_too_long
  raise_if (is_empty (strip recipient)) recipient_empty
  transaction (
      save_reply timestamp k
        (new_draft timestamp fresh lead_id (text "whatsapp") (strip message)
          (some (strip recipient)))
        event_id decision)
