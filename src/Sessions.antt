-- ===== src/Sessions.antt =====
-- The conversation sessions of app/crm.py: `get_conversation_session` and
-- `upsert_conversation_session`. `fresh` is what `uuid4` returns, and `now` the clock.
use ollum_sales.Prelude.{
  ℕ, ◌+◌, Bool, true, not, ◌&&◌, ◌||◌, List, [], ◌∷◌, Option, none, some, length, ltb, take,
  if◌then◌else◌,
}
use ollum_sales.Text.{Text, text, same, strip, lower, collapse, is_empty, or_none, or_empty, one_of}
use ollum_sales.Exec.{pure, gets, or_raise, modify, raise_if, transaction, ◌>>=◌, ◌>>◌}
use ollum_sales.Table.{find, exists, update, insert}
use ollum_sales.Clock.{DateText, stamp, normalize_datetime}
use ollum_sales.Schema.{
  Db, Lead, Draft, Session, Crm, bad_stage, bad_chat_id, bad_session_channel, integrity_error,
  assertion_failed,
}
use ollum_sales.Leads.{get_lead}
use ollum_sales.Drafts.{get_outreach_draft}
use ollum_sales.Workspaces.{workspace_id, require_workspace}
use ollum_sales.Company.{Library, Json, Fields, dict}
use ollum_sales.Company.Knowledge.{validated}

abbrev pub conversation_stages : List Text
conversation_stages =
    text "new"
    ∷ text "discovery"
    ∷ text "qualification"
    ∷ text "interested"
    ∷ text "objection"
    ∷ text "proposal"
    ∷ text "handoff"
    ∷ text "closed"
    ∷ []

-- The keyword arguments.
pub record Turn : Type 0 where
  pub channel : Text
  pub lead_id : Option Text
  pub stage : Text
  pub intent : Option Text
  pub sentiment : Option Text
  pub summary : Option Text
  pub facts : Option Json
  pub unanswered_question : Option Text
  pub next_action : Option Text
  pub escalation_status : Text
  pub escalation_reason : Option Text
  pub last_response_id : Option Text
  pub last_draft_id : Option Text
  pub last_inbound_at : DateText
  pub increment_turn : Bool

abbrev pub session_at : Text → Text → Text → Session → Bool
session_at k channel chat s =
    same s.workspace_id k && same s.channel channel && same s.external_chat_id chat

unfoldable pub get_conversation_session : Text → Text → Text → Crm (Option Session)
get_conversation_session value chat_id channel = do
  k ← workspace_id value
  transaction (gets (λ db. find (session_at k (lower (strip channel)) (strip chat_id)) db.sessions))

-- `" ".join(str(value or "").split())[:n] or None`
abbrev pub short : ℕ → Option Text → Option Text
short n value = or_none (take n (collapse (or_empty value)))

-- `" ".join(str(value or "none").split())[:80] or "none"`
abbrev pub or_text_none : Text → Text
or_text_none [] = text "none"
or_text_none (c ∷ s) = c ∷ s

abbrev pub or_no_facts : Option Json → Json
or_no_facts none = dict Fields.no_fields
or_no_facts (some json) = json

-- `normalize_datetime(value) if value else None`
abbrev pub inbound_time : ℕ → DateText → Crm (Option ℕ)
inbound_time now DateText.missing = pure none
inbound_time now date = do t ← normalize_datetime now date; pure (some t)

-- The row of the `INSERT`.
abbrev pub new_session : Library → ℕ → Text → Text → Text → Text → Text → Option ℕ → Turn → Session
new_session lib timestamp fresh k channel chat stage inbound t = record {
  id = fresh;
  workspace_id = k;
  channel = channel;
  external_chat_id = chat;
  lead_id = t.lead_id;
  stage = stage;
  intent = short 240 t.intent;
  sentiment = short 80 t.sentiment;
  summary = short 3000 t.summary;
  facts_json = lib.dumps (or_no_facts t.facts);
  unanswered_question = short 1000 t.unanswered_question;
  next_action = short 1000 t.next_action;
  escalation_status = or_text_none (take 80 (collapse (or_text_none t.escalation_status)));
  escalation_reason = short 2000 t.escalation_reason;
  last_response_id = short 500 t.last_response_id;
  last_draft_id = t.last_draft_id;
  turn_count = if t.increment_turn then 1 else 0;
  last_inbound_at = inbound;
  created_at = timestamp;
  updated_at = timestamp;
}

abbrev pub or_else : {A : Type 0} → Option A → Option A → Option A
or_else none b = b
or_else (some a) b = some a

-- `ON CONFLICT … DO UPDATE`, with the row of the `INSERT` as `excluded`
abbrev pub merged : Session → Session → Session
merged excluded s = record s {
  lead_id = or_else excluded.lead_id s.lead_id;
  stage = excluded.stage;
  intent = excluded.intent;
  sentiment = excluded.sentiment;
  summary = excluded.summary;
  facts_json = excluded.facts_json;
  unanswered_question = excluded.unanswered_question;
  next_action = excluded.next_action;
  escalation_status = excluded.escalation_status;
  escalation_reason = excluded.escalation_reason;
  last_response_id = or_else excluded.last_response_id s.last_response_id;
  last_draft_id = or_else excluded.last_draft_id s.last_draft_id;
  turn_count = s.turn_count + excluded.turn_count;
  last_inbound_at = or_else excluded.last_inbound_at s.last_inbound_at;
  updated_at = excluded.updated_at;
}

unfoldable pub put_session : Session → Db → Db
put_session e db = record db {
  sessions =
      if exists (session_at e.workspace_id e.channel e.external_chat_id) db.sessions
      then update (session_at e.workspace_id e.channel e.external_chat_id) (merged e) db.sessions
      else insert e db.sessions;
}

abbrev pub has_lead : Option Text → Db → Bool
has_lead none db = true
has_lead (some id) db = exists (λ (l : Lead). same l.id id) db.leads

abbrev pub has_draft : Option Text → Db → Bool
has_draft none db = true
has_draft (some id) db = exists (λ (d : Draft). same d.id id) db.drafts

-- the primary key and the foreign keys refuse the row
abbrev pub is_refused : Session → Db → Bool
is_refused e db =
    exists (λ (s : Session). same s.id e.id) db.sessions
    || not (has_lead e.lead_id db)
    || not (has_draft e.last_draft_id db)

-- the transaction of `upsert_conversation_session`
unfoldable pub session_row : Library → ℕ → Text → Text → Text → Text → Text → Turn → Crm Session
unfolding put_session normalize_datetime
session_row lib now fresh k channel chat stage t = do
  inbound ← inbound_time now t.last_inbound_at
  let excluded = new_session lib (stamp now) fresh k channel chat stage inbound t
  refused ← gets (is_refused excluded)
  raise_if refused integrity_error
  modify (put_session excluded)
  row ← gets (λ db. find (session_at k channel chat) db.sessions)
  or_raise row assertion_failed

-- a check of an id that is not empty
abbrev pub checked_lead : Text → Crm (Unit {0})
checked_lead [] = pure tt
checked_lead (c ∷ s) = do get_lead (c ∷ s); pure tt

abbrev pub checked_draft : Text → Crm (Unit {0})
checked_draft [] = pure tt
checked_draft (c ∷ s) = do get_outreach_draft (c ∷ s); pure tt

unfoldable pub upsert_conversation_session : Library → ℕ → Text → Text → Text → Turn → Crm Session
unfolding session_row require_workspace get_lead get_outreach_draft
upsert_conversation_session lib now fresh value chat_id t = do
  k ← require_workspace value
  let chat = strip chat_id
  let channel = lower (strip t.channel)
  stage ← or_raise (validated t.stage conversation_stages) bad_stage
  raise_if (is_empty chat || ltb 500 (length chat)) bad_chat_id
  raise_if (not (one_of channel (text "whatsapp" ∷ []))) bad_session_channel
  checked_lead (or_empty t.lead_id)
  checked_draft (or_empty t.last_draft_id)
  transaction (session_row lib now fresh k channel chat stage t)
