-- ===== src/Drafts/Claims.antt =====
-- The claim on a draft (`claim_outreach_draft_for_send` of app/crm.py).
use ollum_sales.Prelude.{
  ℕ, ◌≡◌, refl, Bool, true, false, ◌&&◌, Option, none, some, arith, Bool-cases, Option-cases, inl,
  inr, if◌then◌else◌, ◌∙◌,
}
use ollum_sales.Text.{Text}
use ollum_sales.Exec.{Result, ok, err, transaction}
use ollum_sales.Table.{find, count}
use ollum_sales.Table.Laws.{count-at, find-holds, update-IsKeyed, update-count_zero}
use ollum_sales.Schema.{Db, Draft, Failure, DraftStatus, is_approved, draft_not_found}
use ollum_sales.Drafts.{
  draft_at, set_drafts, claim_row, claim_outreach_draft_for_send, get_outreach_draft, set_status,
}
use ollum_sales.Drafts.Cases.{find-claimed, claim_cases}
use ollum_sales.Drafts.Calls.{Keyed}

abbrev approved_at_id : Text → Draft → Bool
approved_at_id k d = draft_at k d && is_approved d.status

-- The database in which the draft `k` is being sent.
pub claimed : ℕ → Text → Db → Db
unfolding set_drafts
claimed t k = set_drafts (approved_at_id k) (set_status t DraftStatus.sending)

-- What a claim does, by the row that is found.
abbrev pub claim_outcome : ℕ → Text → Db → Option Draft → Result Failure (Option Draft) × Db
claim_outcome t k db none = (err draft_not_found, db)
claim_outcome t k db (some d) =
    if is_approved d.status
    then (ok (some (set_status t DraftStatus.sending d)), claimed t k db)
    else (ok none, db)

count_approved :
    (db : Db) (k : Text) {o : Option Draft}
    → Keyed db
    → find (draft_at k) db.drafts ≡ o
    → count (approved_at_id k) db.drafts
      ≡ elim o [ none ↦ 0 | some d ↦ if is_approved d.status then 1 else 0 ]
count_approved db k u e =
    ground (arith, count-at (λ d. d.id) k (λ d. is_approved d.status) db.drafts u)

claimed_nothing :
    (db : Db) (t : ℕ) (k : Text) → count (approved_at_id k) db.drafts ≡ 0 → claimed t k db ≡ db
unfolding claimed set_drafts
claimed_nothing db t k h =
    rw (update-count_zero (approved_at_id k) (set_status t DraftStatus.sending) db.drafts h)

abbrev row_outcome : ℕ → Text → Db → Option Draft → Result Failure Bool × Db
row_outcome t k db none = (err draft_not_found, db)
row_outcome t k db (some d) =
    if is_approved d.status then (ok true, claimed t k db) else (ok false, db)

row_lem :
    (db : Db) (t : ℕ) (k : Text)
    → Keyed db
    → transaction (claim_row t k) db ≡ row_outcome t k db (find (draft_at k) db.drafts)
unfolding claimed
row_lem db t k u =
    claim_cases (λ x. x ≡ row_outcome t k db (find (draft_at k) db.drafts)) db t k (λ n. rw n refl)
      (λ b e r n. ground (arith, count_approved db k u n, claimed_nothing db t k))

-- Where draft ids are unique, claiming a draft answers by its status: a missing draft is an error,
-- an approved one is marked as being sent and returned, and any other gives no claim and leaves
-- the database as it was.
pub claim_lem :
    (db : Db) (t : ℕ) (k : Text)
    → Keyed db
    → claim_outreach_draft_for_send t k db ≡ claim_outcome t k db (find (draft_at k) db.drafts)
unfolding claim_outreach_draft_for_send get_outreach_draft claimed set_drafts
claim_lem db t k u = elim (Option-cases (find (draft_at k) db.drafts)) [
  | inl n ↦ ground (arith, row_lem db t k u)
  | inr (d, n) ↦
      ground
        (arith, row_lem db t k u, find-claimed k t db.drafts, find-holds (draft_at k) db.drafts d n)
]

claimed-Keyed : (db : Db) (t : ℕ) (k : Text) → Keyed db → Keyed (claimed t k db)
unfolding claimed set_drafts
claimed-Keyed db t k u =
    update-IsKeyed (λ d. d.id) (approved_at_id k) (set_status t DraftStatus.sending) db.drafts
      (λ _. refl) u

find-claimed_db :
    (db : Db) (t : ℕ) (k : Text) (c : Draft)
    → find (draft_at k) db.drafts ≡ some c
    → is_approved c.status ≡ true
    → find (draft_at k) (claimed t k db).drafts ≡ some (set_status t DraftStatus.sending c)
unfolding claimed set_drafts
find-claimed_db db t k c n a =
    ground (arith, find-claimed k t db.drafts, find-holds (draft_at k) db.drafts c n)

claim_again :
    (db : Db) (t t' : ℕ) (k : Text) (c : Draft)
    → Keyed db
    → find (draft_at k) db.drafts ≡ some c
    → is_approved c.status ≡ true
    → claim_outreach_draft_for_send t' k (claimed t k db) ≡ (ok none, claimed t k db)
claim_again db t t' k c u n a =
    claim_lem (claimed t k db) t' k (claimed-Keyed db t k u)
    ∙ rw (find-claimed_db db t k c n a) refl

-- Where draft ids are unique and a claim returned a draft, the draft was approved, is marked as
-- being sent, and until some other call changes it every further claim on it returns nothing and
-- leaves the database as it is.
pub claim_once :
    (db : Db) (t t' : ℕ) (k : Text) (d : Draft) (db' : Db)
    → Keyed db
    → claim_outreach_draft_for_send t k db ≡ (ok (some d), db')
    → ((c : Draft) × (find (draft_at k) db.drafts ≡ some c)
        × (is_approved c.status ≡ true)
        × (d ≡ set_status t DraftStatus.sending c))
      × (find (draft_at k) db'.drafts ≡ some d)
      × (claim_outreach_draft_for_send t' k db' ≡ (ok none, db'))
claim_once db t t' k d db' u h = elim (Option-cases (find (draft_at k) db.drafts)) [
  | inl n ↦ absurd (ground (arith, claim_lem db t k u))
  | inr (c, n) ↦ elim (Bool-cases (is_approved c.status)) [
    | inl a ↦
        let same_db : db' ≡ claimed t k db = ground (arith, claim_lem db t k u) in
        let same_row : d ≡ set_status t DraftStatus.sending c =
          ground (arith, claim_lem db t k u) in
        (
          (c, n, a, same_row),
          rw (same_db, same_row) (find-claimed_db db t k c n a),
          rw same_db (claim_again db t t' k c u n a),
        )
    | inr a ↦ absurd (ground (arith, claim_lem db t k u))
  ]
]
