-- ===== src/Drafts.antt =====
-- Outreach drafts (app/crm.py): `save_outreach_draft`, `get_outreach_draft`,
-- `approve_outreach_draft`, `claim_outreach_draft_for_send`, `release_outreach_send_claim` and
-- `mark_outreach_sent`. `timestamp` is what `utc_now` returns and `fresh` what `uuid4` does.
pub mod Lifecycle
mod Cases
pub mod Calls
pub mod Safety
pub mod Atomic
pub mod Claims
use ollum_sales.Prelude.{
  ℕ, Bool, true, false, not, ◌&&◌, List, [], ◌∷◌, Option, none, some, length, ltb, ◌==◌,
  if◌then◌else◌,
}
use ollum_sales.Text.{Text, text, same, strip, lower, is_empty, one_of}
use ollum_sales.Exec.{
  pure, raise, gets, or_raise, modify, modify_unless, raise_if, transaction, ◌>>=◌, ◌>>◌,
}
use ollum_sales.Table.{find, update, count, insert, exists}
use ollum_sales.Schema.{
  Db, Draft, Crm, DraftStatus, is_draft, is_approved, is_sending, integrity_error, draft_not_found,
  message_empty, message_too_long, bad_channel, only_draft_approved, no_send_claim,
}
use ollum_sales.Leads.{get_lead, set_lead, to_drafted, to_approved, to_contacted}

abbrev pub draft_at : Text → Draft → Bool
draft_at k d = same d.id k

unfoldable pub insert_draft : Draft → Db → Db
insert_draft d db = record db { drafts = insert d db.drafts }

unfoldable pub set_drafts : (Draft → Bool) → (Draft → Draft) → Db → Db
set_drafts p f db = record db { drafts = update p f db.drafts }

unfoldable pub get_outreach_draft : Text → Crm Draft
get_outreach_draft draft_id = do
  row ← transaction (gets (λ db. find (draft_at draft_id) db.drafts))
  or_raise row draft_not_found

abbrev pub channels : List Text
channels = text "whatsapp" ∷ text "email" ∷ text "other" ∷ []

-- `value.strip() if value else None`
abbrev pub strip_given : Option Text → Option Text
strip_given none = none
strip_given (some []) = none
strip_given (some (c ∷ s)) = some (strip (c ∷ s))

abbrev pub new_draft : ℕ → Text → Text → Text → Text → Option Text → Draft
new_draft timestamp fresh lead_id channel message recipient = record {
  id = fresh;
  lead_id = lead_id;
  channel = channel;
  recipient = recipient;
  message = message;
  status = DraftStatus.draft;
  created_at = timestamp;
  updated_at = timestamp;
  approved_at = none;
  sent_at = none;
}

-- the transaction of `save_outreach_draft`; the primary key refuses an id that is there
unfoldable pub save_row : ℕ → Draft → Crm (Unit {0})
unfolding insert_draft set_lead
save_row timestamp d db =
    modify_unless (exists (draft_at d.id) db.drafts) integrity_error
      (λ db. set_lead d.lead_id timestamp to_drafted (insert_draft d db)) db

-- arguments: lead, channel, message, recipient
unfoldable pub save_outreach_draft : ℕ → Text → Text → Text → Text → Option Text → Crm Draft
save_outreach_draft timestamp fresh lead_id channel message recipient = do
  get_lead lead_id
  raise_if (is_empty (strip message)) message_empty
  raise_if (ltb 4000 (length message)) message_too_long
  let clean_channel = lower (strip channel)
  raise_if (not (one_of clean_channel channels)) bad_channel
  transaction (
      save_row timestamp
        (new_draft timestamp fresh lead_id clean_channel (strip message) (strip_given recipient)))
  get_outreach_draft fresh

abbrev pub approve_draft : ℕ → Draft → Draft
approve_draft timestamp d = record d {
  status = DraftStatus.approved;
  approved_at = some timestamp;
  updated_at = timestamp;
}

-- the transaction of `approve_outreach_draft`
unfoldable pub approve_row : ℕ → Text → Crm (Unit {0})
unfolding set_drafts set_lead
approve_row timestamp draft_id = do
  found ← gets (λ db. find (draft_at draft_id) db.drafts)
  row ← or_raise found draft_not_found
  raise_if (not (is_draft row.status)) only_draft_approved
  modify (set_drafts (draft_at draft_id) (approve_draft timestamp))
  modify (set_lead row.lead_id timestamp to_approved)

unfoldable pub approve_outreach_draft : ℕ → Text → Crm Draft
approve_outreach_draft timestamp draft_id = do
  transaction (approve_row timestamp draft_id)
  get_outreach_draft draft_id

abbrev pub set_status : ℕ → DraftStatus → Draft → Draft
set_status timestamp status d = record d { status = status; updated_at = timestamp }

-- the transaction of `claim_outreach_draft_for_send`: whether this call has the claim
unfoldable pub claim_row : ℕ → Text → Crm Bool
unfolding set_drafts
claim_row timestamp draft_id = do
  rowcount ← gets (λ db. count (λ d. draft_at draft_id d && is_approved d.status) db.drafts)
  modify (
      set_drafts (λ d. draft_at draft_id d && is_approved d.status)
        (set_status timestamp DraftStatus.sending))
  if rowcount == 1 then pure true else do
    row ← gets (λ db. find (draft_at draft_id) db.drafts)
    or_raise row draft_not_found
    pure false

-- `none` where this call has no claim.
unfoldable pub claim_outreach_draft_for_send : ℕ → Text → Crm (Option Draft)
claim_outreach_draft_for_send timestamp draft_id = do
  won ← transaction (claim_row timestamp draft_id)
  if won then (do d ← get_outreach_draft draft_id; pure (some d)) else pure none

-- the transaction of `release_outreach_send_claim`
unfoldable pub release_row : ℕ → Text → Crm (Unit {0})
unfolding set_drafts
release_row timestamp draft_id = do
  rowcount ← gets (λ db. count (λ d. draft_at draft_id d && is_sending d.status) db.drafts)
  modify (
      set_drafts (λ d. draft_at draft_id d && is_sending d.status)
        (set_status timestamp DraftStatus.approved))
  raise_if (not (rowcount == 1)) no_send_claim

unfoldable pub release_outreach_send_claim : ℕ → Text → Crm Draft
release_outreach_send_claim timestamp draft_id = do
  transaction (release_row timestamp draft_id)
  get_outreach_draft draft_id

abbrev pub mark_draft : ℕ → Bool → Draft → Draft
mark_draft timestamp success d = record d {
  status = if success then DraftStatus.sent else DraftStatus.failed;
  sent_at = if success then some timestamp else none;
  updated_at = timestamp;
}

-- the transaction of `mark_outreach_sent`
unfoldable pub mark_row : ℕ → Text → Bool → Crm (Unit {0})
unfolding set_drafts set_lead
mark_row timestamp draft_id success = do
  found ← gets (λ db. find (draft_at draft_id) db.drafts)
  row ← or_raise found draft_not_found
  raise_if (not (is_sending row.status)) no_send_claim
  modify (set_drafts (draft_at draft_id) (mark_draft timestamp success))
  if success then modify (set_lead row.lead_id timestamp to_contacted) else pure tt

unfoldable pub mark_outreach_sent : ℕ → Text → Bool → Crm Draft
mark_outreach_sent timestamp draft_id success = do
  transaction (mark_row timestamp draft_id success)
  get_outreach_draft draft_id
