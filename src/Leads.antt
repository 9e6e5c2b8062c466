-- ===== src/Leads.antt =====
-- The lead table as the other components use it: `get_lead`, `update_lead_status` and the
-- `UPDATE leads SET status = CASE …` statements of app/crm.py.
use ollum_sales.Prelude.{ℕ, Bool, not, ◌==◌}
use ollum_sales.Text.{Text, same}
use ollum_sales.Exec.{gets, or_raise, modify, raise_if, transaction, ◌>>=◌, ◌>>◌}
use ollum_sales.Table.{find, update, count}
use ollum_sales.Schema.{
  Db, Lead, Crm, LeadStatus, lead_statuses, validate_status, lead_not_found, bad_status,
}

abbrev pub lead_at : Text → Lead → Bool
lead_at k l = same l.id k

unfoldable pub get_lead : Text → Crm Lead
get_lead lead_id =
    transaction (do row ← gets (λ db. find (lead_at lead_id) db.leads); or_raise row lead_not_found)

-- WHEN status IN ('new','researching','analyzed','qualified') THEN 'drafted'
abbrev pub to_drafted : LeadStatus → LeadStatus
to_drafted LeadStatus.new = LeadStatus.drafted
to_drafted LeadStatus.researching = LeadStatus.drafted
to_drafted LeadStatus.analyzed = LeadStatus.drafted
to_drafted LeadStatus.qualified = LeadStatus.drafted
to_drafted other = other

-- WHEN status = 'drafted' THEN 'approved'
abbrev pub to_approved : LeadStatus → LeadStatus
to_approved LeadStatus.drafted = LeadStatus.approved
to_approved other = other

abbrev pub to_contacted : LeadStatus → LeadStatus
to_contacted other = LeadStatus.contacted

-- WHEN status NOT IN ('won','lost','archived') THEN 'replied'
abbrev pub to_replied : LeadStatus → LeadStatus
to_replied LeadStatus.won = LeadStatus.won
to_replied LeadStatus.lost = LeadStatus.lost
to_replied LeadStatus.archived = LeadStatus.archived
to_replied other = LeadStatus.replied

abbrev pub move_lead : ℕ → (LeadStatus → LeadStatus) → Lead → Lead
move_lead timestamp f l = record l { status = f l.status; updated_at = timestamp }

-- UPDATE leads SET status = …, updated_at = ? WHERE id = ?
unfoldable pub set_lead : Text → ℕ → (LeadStatus → LeadStatus) → Db → Db
set_lead k timestamp f db = record db {
  leads = update (lead_at k) (move_lead timestamp f) db.leads;
}

unfoldable pub update_lead_status : ℕ → Text → Text → Crm Lead
unfolding get_lead set_lead
update_lead_status timestamp lead_id status = do
  clean ← or_raise (validate_status status lead_statuses) bad_status
  transaction (do
    matched ← gets (λ db. count (lead_at lead_id) db.leads)
    modify (set_lead lead_id timestamp (λ _. clean))
    raise_if (not (matched == 1)) lead_not_found)
  get_lead lead_id
