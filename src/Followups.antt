-- ===== src/Followups.antt =====
-- Interactions and follow-ups (app/crm.py): `record_interaction`, `schedule_followup` and
-- `complete_followup`. A `timestamp` is what `utc_now` returns, and `fresh` what `uuid4` does.
pub mod Completion
use ollum_sales.Prelude.{ℕ, Bool, true, false, not, ◌&&◌, Option, none, some, ◌==◌, if◌then◌else◌}
use ollum_sales.Text.{Text, text, same, strip, lower, is_empty}
use ollum_sales.Exec.{
  pure, raise, gets, or_raise, modify, modify_unless, raise_if, transaction, ◌>>=◌, ◌>>◌,
}
use ollum_sales.Table.{find, update, count, insert, exists}
use ollum_sales.Clock.{DateText, normalize_datetime}
use ollum_sales.Schema.{
  Db, Interaction, Followup, FollowupStatus, Crm, directions, followup_statuses, validate_status,
  is_inbound, is_pending_followup, bad_direction, content_empty, action_empty, bad_status,
  bad_completion, followup_not_found, assertion_failed, integrity_error,
}
use ollum_sales.Leads.{get_lead, set_lead, to_replied}
use ollum_sales.Drafts.{strip_given}

-- `status.strip().lower() or "recorded"`
abbrev pub status_text : Text → Text
status_text status =
    let clean = lower (strip status) in if is_empty clean then text "recorded" else clean

-- `INSERT INTO interactions`, and the change of the lead that an inbound one makes
unfoldable pub put_interaction : Interaction → Db → Db
unfolding set_lead
put_interaction i db =
    let db' = record db { interactions = insert i db.interactions } in
    if is_inbound i.direction then set_lead i.lead_id i.created_at to_replied db' else db'

-- arguments: the two clock readings, lead, channel, direction, content, status, external id, date
unfoldable pub record_interaction :
    ℕ → ℕ → Text → Text → Text → Text → Text → Text → Option Text → DateText → Crm Interaction
unfolding put_interaction
record_interaction timestamp later fresh lead_id channel direction content status external_id date =
    do
      get_lead lead_id
      clean ← or_raise (validate_status direction directions) bad_direction
      raise_if (is_empty (strip content)) content_empty
      occurred ← normalize_datetime later date
      let i : Interaction = record {
        id = fresh;
        lead_id = lead_id;
        channel = lower (strip channel);
        direction = clean;
        content = strip content;
        status = status_text status;
        external_id = strip_given external_id;
        occurred_at = occurred;
        created_at = timestamp;
      }
      transaction (λ db.
          modify_unless (exists (λ j. same j.id fresh) db.interactions) integrity_error
            (put_interaction i) db)
      pure i

abbrev pub followup_at : Text → Followup → Bool
followup_at k f = same f.id k

-- `normalize_datetime` of a date that is given; the model's `missing` is the empty text.
unfoldable pub schedule_followup :
    ℕ → ℕ → Text → Text → DateText → Text → Option Text → Crm Followup
schedule_followup timestamp now fresh lead_id due_at action notes = do
  get_lead lead_id
  raise_if (is_empty (strip action)) action_empty
  due ← normalize_datetime now due_at
  let f : Followup = record {
    id = fresh;
    lead_id = lead_id;
    due_at = due;
    action = strip action;
    notes = strip_given notes;
    status = FollowupStatus.pending;
    created_at = timestamp;
    completed_at = none;
  }
  transaction (λ db.
      modify_unless (exists (followup_at fresh) db.followups) integrity_error
        (λ db. record db { followups = insert f db.followups }) db)
  pure f

abbrev pub complete : ℕ → FollowupStatus → Followup → Followup
complete timestamp status f = record f { status = status; completed_at = some timestamp }

abbrev pub pending_followup : Text → Followup → Bool
pending_followup k f = followup_at k f && is_pending_followup f.status

unfoldable pub set_followups : (Followup → Bool) → (Followup → Followup) → Db → Db
set_followups p g db = record db { followups = update p g db.followups }

-- the transaction of `complete_followup`; `assert row is not None` raises `assertion_failed`
unfoldable pub complete_row : ℕ → Text → FollowupStatus → Crm Followup
unfolding set_followups
complete_row timestamp k status db =
    if count (pending_followup k) db.followups == 1
    then (let db' = set_followups (pending_followup k) (complete timestamp status) db in
        or_raise (find (followup_at k) db'.followups) assertion_failed db')
    else raise followup_not_found db

unfoldable pub complete_followup : ℕ → Text → Text → Crm Followup
complete_followup timestamp followup_id status = do
  clean ← or_raise (validate_status status followup_statuses) bad_status
  raise_if (is_pending_followup clean) bad_completion
  transaction (complete_row timestamp followup_id clean)
