-- ===== src/Drafts/Calls.antt =====
-- The calls on the drafts (app/crm.py) as data, and the life cycle of the rows under each.
use ollum_sales.Prelude.{ℕ, ◌≤◌, ◌≡◌, refl, Bool, false, ◌&&◌, Option, arith, length, and_right}
use ollum_sales.Text.{Text, is_empty, strip, lower}
use ollum_sales.Text.Lengths.{length-strip, length-pos}
use ollum_sales.Exec.{transaction, Reads}
use ollum_sales.Table.Laws.{IsKeyed}
use ollum_sales.Schema.{Db, Draft, DraftStatus, is_approved, is_sending}
use ollum_sales.Leads.{get_lead, set_lead}
use ollum_sales.Drafts.{
  draft_at, set_drafts, strip_given, get_outreach_draft, save_outreach_draft,
  approve_outreach_draft, claim_outreach_draft_for_send, release_outreach_send_claim,
  mark_outreach_sent, new_draft, approve_row, save_row, claim_row, release_row, mark_row,
  approve_draft, set_status, mark_draft,
}
use ollum_sales.Drafts.Cases.{approve_cases, mark_cases}
use ollum_sales.Drafts.Lifecycle.{
  approves, claims, releases, finishes, IsFresh, Evolves, Evolves-refl, Evolves-insert,
  Evolves-update, Evolves-update_found,
}

-- The calls, with their clock, fresh id and arguments.
pub data DraftCall : Type 0 where
  save : ℕ → Text → Text → Text → Text → Option Text → DraftCall
  approve : ℕ → Text → DraftCall
  claim : ℕ → Text → DraftCall
  release : ℕ → Text → DraftCall
  mark : ℕ → Text → Bool → DraftCall

-- The database after a call, whether it returned or raised.
unfoldable pub after : Db → DraftCall → Db
after db (save t fresh lead channel message recipient) =
    (save_outreach_draft t fresh lead channel message recipient db).1
after db (approve t k) = (approve_outreach_draft t k db).1
after db (claim t k) = (claim_outreach_draft_for_send t k db).1
after db (release t k) = (release_outreach_send_claim t k db).1
after db (mark t k success) = (mark_outreach_sent t k success db).1

abbrev pub Keyed : Db → Type 0
Keyed db = IsKeyed (λ (d : Draft). d.id) db.drafts

new_draft-IsFresh :
    (t : ℕ) (fresh lead channel message : Text) (recipient : Option Text)
    → is_empty (strip message) ≡ false
    → (length message ≤ 4000)
    → IsFresh (new_draft t fresh lead channel (strip message) recipient)
new_draft-IsFresh t fresh lead channel message recipient h k = record {
  unapproved = refl;
  sound = record {
    stage = (refl, refl);
    not_empty = length-pos (strip message) h;
    not_long = omega (arith, length-strip message);
  };
}

save_row-Evolves :
    (db : Db) (t : ℕ) (d : Draft)
    → IsFresh d
    → Evolves db.drafts (transaction (save_row t d) db).1.drafts
unfolding save_row
save_row-Evolves db t d h = ground (arith, Evolves-refl db.drafts, Evolves-insert db.drafts d h)

pub get_outreach_draft-Reads : (k : Text) → Reads (get_outreach_draft k)
unfolding get_outreach_draft
get_outreach_draft-Reads k db = ground arith

save-Evolves :
    (db : Db) (t : ℕ) (fresh lead channel message : Text) (recipient : Option Text)
    → Evolves db.drafts (save_outreach_draft t fresh lead channel message recipient db).1.drafts
unfolding save_outreach_draft get_lead
save-Evolves db t fresh lead channel message recipient =
    let d =
      new_draft t fresh lead (lower (strip channel)) (strip message) (strip_given recipient) in
    ground (
      arith,
      Evolves-refl db.drafts,
      get_outreach_draft-Reads fresh (transaction (save_row t d) db).1,
      save_row-Evolves db t d,
      new_draft-IsFresh t fresh lead (lower (strip channel)) message (strip_given recipient),
    )

approve_row-Evolves :
    (db : Db) (t : ℕ) (k : Text)
    → Keyed db
    → Evolves db.drafts (transaction (approve_row t k) db).1.drafts
unfolding set_lead set_drafts
approve_row-Evolves db t k u =
    approve_cases (λ x. Evolves db.drafts x.1.drafts) db t k (λ _. Evolves-refl db.drafts)
      (λ r e c. Evolves-update_found k (approve_draft t) r db.drafts u e (approves t c refl))

approve-Evolves :
    (db : Db) (t : ℕ) (k : Text)
    → Keyed db
    → Evolves db.drafts (approve_outreach_draft t k db).1.drafts
unfolding approve_outreach_draft
approve-Evolves db t k u = ground (
  arith,
  get_outreach_draft-Reads k (transaction (approve_row t k) db).1,
  approve_row-Evolves db t k u,
)

mark_row-Evolves :
    (db : Db) (t : ℕ) (k : Text) (b : Bool)
    → Keyed db
    → Evolves db.drafts (transaction (mark_row t k b) db).1.drafts
unfolding set_lead set_drafts
mark_row-Evolves db t k b u =
    mark_cases (λ x. Evolves db.drafts x.1.drafts) db t k b (λ _. Evolves-refl db.drafts)
      (λ r e c.
        ground
          (arith, Evolves-update_found k (mark_draft t b) r db.drafts u e (finishes t b c refl)))

mark-Evolves :
    (db : Db) (t : ℕ) (k : Text) (b : Bool)
    → Keyed db
    → Evolves db.drafts (mark_outreach_sent t k b db).1.drafts
unfolding mark_outreach_sent
mark-Evolves db t k b u = ground (
  arith,
  get_outreach_draft-Reads k (transaction (mark_row t k b) db).1,
  mark_row-Evolves db t k b u,
)

claim_row-Evolves :
    (db : Db) (t : ℕ) (k : Text) → Evolves db.drafts (transaction (claim_row t k) db).1.drafts
unfolding claim_row
claim_row-Evolves db t k = ground (
  arith,
  Evolves-refl db.drafts,
  Evolves-update (λ d. draft_at k d && is_approved d.status) (set_status t DraftStatus.sending)
      db.drafts (λ d h. claims t (and_right (draft_at k d) (is_approved d.status) h) refl),
)

claim-Evolves :
    (db : Db) (t : ℕ) (k : Text) → Evolves db.drafts (claim_outreach_draft_for_send t k db).1.drafts
unfolding claim_outreach_draft_for_send
claim-Evolves db t k =
    ground (
      arith,
      get_outreach_draft-Reads k (transaction (claim_row t k) db).1,
      claim_row-Evolves db t k,
    )

release_row-Evolves :
    (db : Db) (t : ℕ) (k : Text) → Evolves db.drafts (transaction (release_row t k) db).1.drafts
unfolding release_row
release_row-Evolves db t k = ground (
  arith,
  Evolves-refl db.drafts,
  Evolves-update (λ d. draft_at k d && is_sending d.status) (set_status t DraftStatus.approved)
      db.drafts (λ d h. releases t (and_right (draft_at k d) (is_sending d.status) h) refl),
)

release-Evolves :
    (db : Db) (t : ℕ) (k : Text) → Evolves db.drafts (release_outreach_send_claim t k db).1.drafts
unfolding release_outreach_send_claim
release-Evolves db t k = ground (
  arith,
  get_outreach_draft-Reads k (transaction (release_row t k) db).1,
  release_row-Evolves db t k,
)

-- One call moves each draft along its life cycle, in place, or leaves it, and adds drafts only.
pub after-Evolves : (db : Db) (c : DraftCall) → Keyed db → Evolves db.drafts (after db c).drafts
unfolding after
after-Evolves db (save t fresh lead channel message recipient) u =
    save-Evolves db t fresh lead channel message recipient
after-Evolves db (approve t k) u = approve-Evolves db t k u
after-Evolves db (claim t k) u = claim-Evolves db t k
after-Evolves db (release t k) u = release-Evolves db t k
after-Evolves db (mark t k b) u = mark-Evolves db t k b u
