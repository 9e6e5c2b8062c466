-- ===== src/Drafts/Atomic.antt =====
-- Calls on the drafts that raise (app/crm.py).
use ollum_sales.Prelude.{ℕ, ◌≡◌, refl, Bool, true, false, ◌&&◌, Option, some, arith}
use ollum_sales.Text.{Text, strip, lower}
use ollum_sales.Exec.{Result, ok, err, transaction, RaisesUnchanged}
use ollum_sales.Table.{find}
use ollum_sales.Table.Laws.{find-insert, found-update}
use ollum_sales.Text.Laws.{same_refl}
use ollum_sales.Schema.{Db, Draft, Failure, DraftStatus, is_approved, is_sending}
use ollum_sales.Leads.{get_lead, set_lead}
use ollum_sales.Drafts.{
  draft_at, insert_draft, new_draft, strip_given, save_row, approve_row, claim_row, release_row,
  mark_row, get_outreach_draft, save_outreach_draft, approve_outreach_draft, set_drafts,
  claim_outreach_draft_for_send, release_outreach_send_claim, mark_outreach_sent, approve_draft,
  mark_draft, set_status,
}
use ollum_sales.Drafts.Cases.{save_cases, approve_cases, mark_cases, release_cases, claim_cases}

-- After a transaction that did not raise, the draft is there to be returned.
abbrev Readable : {A : Type 0} → Text → Db → Result Failure A × Db → Type 0
Readable k db (ok _, db') = (d : Draft) × (find (draft_at k) db'.drafts ≡ some d)
Readable k db (err _, db') = db' ≡ db

save_row-Readable : (db : Db) (t : ℕ) (d : Draft) → Readable d.id db (transaction (save_row t d) db)
unfolding set_lead insert_draft
save_row-Readable db t d =
    save_cases (Readable d.id db) db t d refl
      (λ e. (d, ground (arith, find-insert (draft_at d.id) d db.drafts, same_refl d.id)))

approve_row-Readable :
    (db : Db) (t : ℕ) (k : Text) → Readable k db (transaction (approve_row t k) db)
unfolding set_lead set_drafts
approve_row-Readable db t k =
    approve_cases (Readable k db) db t k (λ _. refl)
      (λ r e c. found-update (draft_at k) (draft_at k) (approve_draft t) db.drafts r (λ _. refl) e)

mark_row-Readable :
    (db : Db) (t : ℕ) (k : Text) (b : Bool) → Readable k db (transaction (mark_row t k b) db)
unfolding set_lead set_drafts
mark_row-Readable db t k true =
    mark_cases (Readable k db) db t k true (λ _. refl)
      (λ r e c.
        found-update (draft_at k) (draft_at k) (mark_draft t true) db.drafts r (λ _. refl) e)
mark_row-Readable db t k false =
    mark_cases (Readable k db) db t k false (λ _. refl)
      (λ r e c.
        found-update (draft_at k) (draft_at k) (mark_draft t false) db.drafts r (λ _. refl) e)

claim_row-Readable : (db : Db) (t : ℕ) (k : Text) → Readable k db (transaction (claim_row t k) db)
unfolding set_drafts
claim_row-Readable db t k =
    claim_cases (Readable k db) db t k (λ _. refl)
      (λ b e r n.
        found-update (draft_at k) (λ d. draft_at k d && is_approved d.status)
          (set_status t DraftStatus.sending) db.drafts r (λ _. refl) n)

release_row-Readable :
    (db : Db) (t : ℕ) (k : Text) → Readable k db (transaction (release_row t k) db)
unfolding set_drafts
release_row-Readable db t k = release_cases (Readable k db) db t k refl (λ r n.
    found-update (draft_at k) (λ d. draft_at k d && is_sending d.status)
      (set_status t DraftStatus.approved) db.drafts r (λ _. refl) n)

save-RaisesUnchanged :
    (db : Db) (t : ℕ) (fresh lead channel message : Text) (recipient : Option Text)
    → RaisesUnchanged db (save_outreach_draft t fresh lead channel message recipient db)
unfolding save_outreach_draft get_lead get_outreach_draft
save-RaisesUnchanged db t fresh lead channel message recipient = ground (
  arith,
  save_row-Readable db t
      (new_draft t fresh lead (lower (strip channel)) (strip message) (strip_given recipient)),
)

approve-RaisesUnchanged :
    (db : Db) (t : ℕ) (k : Text) → RaisesUnchanged db (approve_outreach_draft t k db)
unfolding approve_outreach_draft get_outreach_draft
approve-RaisesUnchanged db t k = ground (arith, approve_row-Readable db t k)

claim-RaisesUnchanged :
    (db : Db) (t : ℕ) (k : Text) → RaisesUnchanged db (claim_outreach_draft_for_send t k db)
unfolding claim_outreach_draft_for_send get_outreach_draft
claim-RaisesUnchanged db t k = ground (arith, claim_row-Readable db t k)

release-RaisesUnchanged :
    (db : Db) (t : ℕ) (k : Text) → RaisesUnchanged db (release_outreach_send_claim t k db)
unfolding release_outreach_send_claim get_outreach_draft
release-RaisesUnchanged db t k = ground (arith, release_row-Readable db t k)

mark-RaisesUnchanged :
    (db : Db) (t : ℕ) (k : Text) (b : Bool) → RaisesUnchanged db (mark_outreach_sent t k b db)
unfolding mark_outreach_sent get_outreach_draft
mark-RaisesUnchanged db t k b = ground (arith, mark_row-Readable db t k b)

-- A call on the drafts that raises leaves the database as it was: creating, approving, claiming,
-- releasing and finishing a draft are all or nothing.
pub calls-RaisesUnchanged :
    (db : Db) (t : ℕ) (k lead channel message : Text) (recipient : Option Text) (b : Bool)
    → RaisesUnchanged db (save_outreach_draft t k lead channel message recipient db)
      × RaisesUnchanged db (approve_outreach_draft t k db)
      × RaisesUnchanged db (claim_outreach_draft_for_send t k db)
      × RaisesUnchanged db (release_outreach_send_claim t k db)
      × RaisesUnchanged db (mark_outreach_sent t k b db)
calls-RaisesUnchanged db t k lead channel message recipient b = (
  save-RaisesUnchanged db t k lead channel message recipient,
  approve-RaisesUnchanged db t k,
  claim-RaisesUnchanged db t k,
  release-RaisesUnchanged db t k,
  mark-RaisesUnchanged db t k b,
)
