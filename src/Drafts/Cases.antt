-- ===== src/Drafts/Cases.antt =====
-- How the transactions of Drafts.antt can end, one rule for each: what holds of the store and the
-- answer in every case holds of the transaction.
use ollum_sales.Prelude.{
  ℕ, ◌≡◌, refl, sym, List, Bool, true, false, ◌&&◌, none, some, arith, Bool-cases, Option-cases,
  inl, inr, if◌then◌else◌, ◌==◌,
}
use ollum_sales.Text.{Text}
use ollum_sales.Exec.{Result, ok, err, transaction}
use ollum_sales.Table.{find, count, update}
use ollum_sales.Table.Laws.{find-exists, find-count, find-update, changed}
use ollum_sales.Schema.{
  Db, Draft, Failure, DraftStatus, is_draft, is_approved, is_sending, integrity_error,
  draft_not_found, only_draft_approved, no_send_claim,
}
use ollum_sales.Leads.{set_lead, to_drafted, to_approved, to_contacted}
use ollum_sales.Drafts.{
  draft_at, insert_draft, set_drafts, save_row, approve_row, claim_row, release_row, mark_row,
  approve_draft, set_status, mark_draft,
}
use ollum_sales.Table.{exists}

abbrev pub Answer : Type 0 → Type 0
Answer A = Result Failure A × Db

module _ (P : Answer (Unit {0}) → Type 0) (db : Db) (t : ℕ) where
  pub save_cases :
      (d : Draft)
      → P (err integrity_error, db)
      → (find (draft_at d.id) db.drafts ≡ none
          → P (ok tt, set_lead d.lead_id t to_drafted (insert_draft d db)))
      → P (transaction (save_row t d) db)
  unfolding save_row
  save_cases d refused added = elim (Bool-cases (exists (draft_at d.id) db.drafts)) [
    | inl e ↦ rw e refused
    | inr e ↦ rw e (added (find-exists (draft_at d.id) db.drafts e))
  ]

  pub approve_cases :
      (k : Text)
      → ((e : Failure) → P (err e, db))
      → ((r : Draft)
          → find (draft_at k) db.drafts ≡ some r
          → is_draft r.status ≡ true
          → P (
            ok tt,
            set_lead r.lead_id t to_approved (set_drafts (draft_at k) (approve_draft t) db),
          ))
      → P (transaction (approve_row t k) db)
  unfolding approve_row
  approve_cases k refused done = elim (Option-cases (find (draft_at k) db.drafts)) [
    | inl e ↦ rw e (refused draft_not_found)
    | inr (r, e) ↦ elim (Bool-cases (is_draft r.status)) [
      | inl c ↦ rw (e, c) (done r e c)
      | inr c ↦ rw (e, c) (refused only_draft_approved)
    ]
  ]

  pub release_cases :
      (k : Text)
      → P (err no_send_claim, db)
      → ((r : Draft)
          → find (draft_at k) db.drafts ≡ some r
          → P (
            ok tt,
            set_drafts
                (λ d. draft_at k d && is_sending d.status)
                (set_status t DraftStatus.approved)
                db,
          ))
      → P (transaction (release_row t k) db)
  unfolding release_row
  release_cases k refused done =
      elim (Bool-cases (count (λ d. draft_at k d && is_sending d.status) db.drafts == 1)) [
        | inl e ↦
            let (r, n) =
              find-count (draft_at k) (λ d. is_sending d.status) db.drafts (ground arith) in
            rw e (done r n)
        | inr e ↦ rw e refused
      ]

  pub mark_cases :
      (k : Text) (b : Bool)
      → ((e : Failure) → P (err e, db))
      → ((r : Draft)
          → find (draft_at k) db.drafts ≡ some r
          → is_sending r.status ≡ true
          → P (
            ok tt,
            if b
                then set_lead r.lead_id t to_contacted (set_drafts (draft_at k) (mark_draft t b) db)
                else set_drafts (draft_at k) (mark_draft t b) db,
          ))
      → P (transaction (mark_row t k b) db)
  unfolding mark_row
  mark_cases k true refused done = elim (Option-cases (find (draft_at k) db.drafts)) [
    | inl e ↦ rw e (refused draft_not_found)
    | inr (r, e) ↦ elim (Bool-cases (is_sending r.status)) [
      | inl c ↦ rw (e, c) (done r e c)
      | inr c ↦ rw (e, c) (refused no_send_claim)
    ]
  ]
  mark_cases k false refused done = elim (Option-cases (find (draft_at k) db.drafts)) [
    | inl e ↦ rw e (refused draft_not_found)
    | inr (r, e) ↦ elim (Bool-cases (is_sending r.status)) [
      | inl c ↦ rw (e, c) (done r e c)
      | inr c ↦ rw (e, c) (refused no_send_claim)
    ]
  ]

pub find-claimed :
    (k : Text) (t : ℕ) (ds : List Draft)
    → find
        (draft_at k)
        (update (λ d. draft_at k d && is_approved d.status) (set_status t DraftStatus.sending) ds)
      ≡ changed
          (λ d. draft_at k d && is_approved d.status)
          (set_status t DraftStatus.sending)
          (find (draft_at k) ds)
find-claimed k t ds =
    find-update (draft_at k) (λ d. draft_at k d && is_approved d.status)
      (set_status t DraftStatus.sending) ds (λ _. refl)

pub claim_cases :
    (P : Answer Bool → Type 0) (db : Db) (t : ℕ) (k : Text)
    → (find (draft_at k) db.drafts ≡ none → P (err draft_not_found, db))
    → ((b : Bool)
        → b ≡ (count (λ d. draft_at k d && is_approved d.status) db.drafts == 1)
        → (r : Draft) → find (draft_at k) db.drafts ≡ some r
        → P (
          ok b,
          set_drafts
              (λ d. draft_at k d && is_approved d.status)
              (set_status t DraftStatus.sending)
              db,
        ))
    → P (transaction (claim_row t k) db)
unfolding claim_row
claim_cases P db t k refused done =
    elim (Bool-cases (count (λ d. draft_at k d && is_approved d.status) db.drafts == 1)) [
      | inl e ↦
          let (r, n) =
            find-count (draft_at k) (λ d. is_approved d.status) db.drafts (ground arith) in
          rw e (done true (sym e) r n)
      | inr e ↦ elim (Option-cases (find (draft_at k) db.drafts)) [
        | inl n ↦ rw (e, find-claimed k t db.drafts, n) (refused n)
        | inr (r, n) ↦ elim (Bool-cases (draft_at k r && is_approved r.status)) [
          | inl c ↦ rw (e, find-claimed k t db.drafts, n, c) (done false (sym e) r n)
          | inr c ↦ rw (e, find-claimed k t db.drafts, n, c) (done false (sym e) r n)
        ]
      ]
    ]
