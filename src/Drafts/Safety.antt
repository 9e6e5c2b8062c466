-- ===== src/Drafts/Safety.antt =====
-- The life cycle of drafts under sequences of calls (app/crm.py).
use ollum_sales.Prelude.{
  ℕ, ◌≡◌, refl, Bool, true, false, ◌&&◌, List, [], ◌∷◌, some, arith, All, Bool-cases, inl, inr, ◌∙◌,
  ap,
}
use ollum_sales.Text.{Text, same, strip, lower}
use mathlib.Core.Path.{subst}
use ollum_sales.Exec.{Result, transaction}
use ollum_sales.Table.{find}
use ollum_sales.Table.Laws.{update-IsKeyed, insert-IsKeyed}
use ollum_sales.Schema.{Db, Draft, Failure, DraftStatus, is_sending, is_approved}
use ollum_sales.Leads.{get_lead, set_lead}
use ollum_sales.Drafts.{
  draft_at, insert_draft, set_drafts, new_draft, strip_given, save_row, approve_row, claim_row,
  release_row, mark_row, save_outreach_draft, approve_outreach_draft, claim_outreach_draft_for_send,
  release_outreach_send_claim, mark_outreach_sent, approve_draft, set_status, mark_draft,
}
use ollum_sales.Drafts.Cases.{save_cases, approve_cases, mark_cases, claim_cases, release_cases}
use ollum_sales.Drafts.Lifecycle.{
  Step, stays, approves, claims, releases, finishes, IsFresh, IsSound, Evolves,
}
use ollum_sales.Drafts.Calls.{
  DraftCall, save, approve, claim, release, mark, after, Keyed, after-Evolves,
  get_outreach_draft-Reads,
}

-- The columns that no call writes after the insertion.
pub record SameContent (d : Draft) (e : Draft) : Type 0 where
  pub id : e.id ≡ d.id
  pub lead : e.lead_id ≡ d.lead_id
  pub channel : e.channel ≡ d.channel
  pub recipient : e.recipient ≡ d.recipient
  pub message : e.message ≡ d.message

abbrev pub is_final : DraftStatus → Bool
is_final DraftStatus.sent = true
is_final DraftStatus.failed = true
is_final DraftStatus.cancelled = true
is_final _ = false

-- Any number of moves.
pub data Steps (d : Draft) : Draft → Type 0 where
  here : Steps d d
  next : {e f : Draft} → Steps d e → Step e f → Steps d f

Step-SameContent : {d e : Draft} → Step d e → SameContent d e
Step-SameContent (stays p) = ground arith
Step-SameContent (approves t h p) = ground arith
Step-SameContent (claims t h p) = ground arith
Step-SameContent (releases t h p) = ground arith
Step-SameContent (finishes t b h p) = ground arith

Step-final : {d e : Draft} → Step d e → is_final d.status ≡ true → e ≡ d
Step-final (stays p) h = p
Step-final (approves t a p) h = ground arith
Step-final (claims t a p) h = ground arith
Step-final (releases t a p) h = ground arith
Step-final (finishes t b a p) h = ground arith

Step-IsSound : {d e : Draft} → Step d e → IsSound d → IsSound e
Step-IsSound (stays p) h = rw p h
Step-IsSound (approves t a p) h = rw p (ground (arith, h.stage))
Step-IsSound (claims t a p) h = rw p (ground (arith, h.stage))
Step-IsSound (releases t a p) h = rw p (ground (arith, h.stage))
Step-IsSound (finishes t b a p) h = rw p (ground (arith, h.stage))

Steps-SameContent : {d e : Draft} → Steps d e → SameContent d e
Steps-SameContent here = ground arith
Steps-SameContent (next s t) = ground (arith, Steps-SameContent s, Step-SameContent t)

Steps-final : {d e : Draft} → Steps d e → is_final d.status ≡ true → e ≡ d
Steps-final here h = refl
Steps-final (next s t) h = ground (arith, Steps-final s h, Step-final t)

IsFresh-IsSound : (es : List Draft) → All IsFresh es → All IsSound es
IsFresh-IsSound [] h = tt
IsFresh-IsSound (e ∷ es) h = (h.0.sound, IsFresh-IsSound es h.1)

Evolves-IsSound : (ds es : List Draft) → Evolves ds es → All IsSound ds → All IsSound es
Evolves-IsSound [] es v h = IsFresh-IsSound es v
Evolves-IsSound (d ∷ ds) [] v h = absurd v
Evolves-IsSound (d ∷ ds) (e ∷ es) v h = (Step-IsSound v.0 h.0, Evolves-IsSound ds es v.1 h.1)

Evolves-find :
    (k : Text) (d : Draft) (ds es : List Draft)
    → Evolves ds es
    → find (draft_at k) ds ≡ some d
    → (e : Draft) × (find (draft_at k) es ≡ some e) × Step d e
unfolding find
Evolves-find k d [] es v h = cc
Evolves-find k d (x ∷ ds) [] v h = absurd v
Evolves-find k d (x ∷ ds) (e ∷ es) v h = elim (Bool-cases (same x.id k)) [
  | inl c ↦
      let same_row : x ≡ d = ground arith in
      let id : e.id ≡ x.id = (Step-SameContent v.0).id in
      (e, rw id (rw c refl), subst (λ y. Step y e) same_row v.0)
  | inr c ↦
      let id : e.id ≡ x.id = (Step-SameContent v.0).id in
      let (f, found, step) = Evolves-find k d ds es v.1 (ground arith) in
      (f, rw id (rw c found), step)
]

-- The calls run in turn.
pub run : Db → List DraftCall → Db
run db [] = db
run db (c ∷ cs) = run (after db c) cs

abbrev id_of : Draft → Text
id_of d = d.id

abbrev After : {A : Type 0} → Result Failure A × Db → Type 0
After x = Keyed x.1

save_row-Keyed : (db : Db) (t : ℕ) (d : Draft) → Keyed db → Keyed (transaction (save_row t d) db).1
unfolding insert_draft set_lead
save_row-Keyed db t d u = save_cases After db t d u (insert-IsKeyed id_of d db.drafts u)

approve_row-Keyed :
    (db : Db) (t : ℕ) (k : Text) → Keyed db → Keyed (transaction (approve_row t k) db).1
unfolding set_drafts set_lead
approve_row-Keyed db t k u =
    approve_cases After db t k (λ _. u)
      (λ r e c. update-IsKeyed id_of (draft_at k) (approve_draft t) db.drafts (λ _. refl) u)

mark_row-Keyed :
    (db : Db) (t : ℕ) (k : Text) (b : Bool) → Keyed db → Keyed (transaction (mark_row t k b) db).1
unfolding set_drafts set_lead
mark_row-Keyed db t k true u =
    mark_cases After db t k true (λ _. u)
      (λ r e c. update-IsKeyed id_of (draft_at k) (mark_draft t true) db.drafts (λ _. refl) u)
mark_row-Keyed db t k false u =
    mark_cases After db t k false (λ _. u)
      (λ r e c. update-IsKeyed id_of (draft_at k) (mark_draft t false) db.drafts (λ _. refl) u)

claim_row-Keyed : (db : Db) (t : ℕ) (k : Text) → Keyed db → Keyed (transaction (claim_row t k) db).1
unfolding set_drafts
claim_row-Keyed db t k u =
    claim_cases After db t k (λ _. u)
      (λ b e r n.
        update-IsKeyed id_of (λ d. draft_at k d && is_approved d.status)
          (set_status t DraftStatus.sending) db.drafts (λ _. refl) u)

release_row-Keyed :
    (db : Db) (t : ℕ) (k : Text) → Keyed db → Keyed (transaction (release_row t k) db).1
unfolding set_drafts
release_row-Keyed db t k u = release_cases After db t k u (λ r n.
    update-IsKeyed id_of (λ d. draft_at k d && is_sending d.status)
      (set_status t DraftStatus.approved) db.drafts (λ _. refl) u)

pub after-Keyed : (db : Db) (c : DraftCall) → Keyed db → Keyed (after db c)
unfolding after save_outreach_draft get_lead approve_outreach_draft claim_outreach_draft_for_send
    release_outreach_send_claim mark_outreach_sent
after-Keyed db (save t fresh lead channel message recipient) u =
    let d =
      new_draft t fresh lead (lower (strip channel)) (strip message) (strip_given recipient) in
    ground (
      arith,
      get_outreach_draft-Reads fresh (transaction (save_row t d) db).1,
      save_row-Keyed db t d u,
    )
after-Keyed db (approve t k) u = ground (
  arith,
  get_outreach_draft-Reads k (transaction (approve_row t k) db).1,
  approve_row-Keyed db t k u,
)
after-Keyed db (claim t k) u =
    ground (
      arith,
      get_outreach_draft-Reads k (transaction (claim_row t k) db).1,
      claim_row-Keyed db t k u,
    )
after-Keyed db (release t k) u = ground (
  arith,
  get_outreach_draft-Reads k (transaction (release_row t k) db).1,
  release_row-Keyed db t k u,
)
after-Keyed db (mark t k b) u = ground (
  arith,
  get_outreach_draft-Reads k (transaction (mark_row t k b) db).1,
  mark_row-Keyed db t k b u,
)

-- The row that a run makes of one that was there.
run_grows :
    (db : Db) (cs : List DraftCall) (k : Text) (c d : Draft)
    → Steps c d
    → Keyed db
    → find (draft_at k) db.drafts ≡ some d
    → (e : Draft) × (find (draft_at k) (run db cs).drafts ≡ some e) × Steps c e
unfolding run
run_grows db [] k c d s u h = (d, h, s)
run_grows db (x ∷ cs) k c d s u h =
    let (e, found, step) =
      Evolves-find k d db.drafts (after db x).drafts (after-Evolves db x u) h in
    run_grows (after db x) cs k c e (next s step) (after-Keyed db x u) found

-- Where draft ids are unique, a draft that is in the table is there after any calls, with the same
-- id, lead, channel, recipient and message, moved only along the life cycle.
pub run_lifecycle :
    (db : Db) (cs : List DraftCall) (k : Text) (d : Draft)
    → Keyed db
    → find (draft_at k) db.drafts ≡ some d
    → (e : Draft) × (find (draft_at k) (run db cs).drafts ≡ some e) × Steps d e × SameContent d e
run_lifecycle db cs k d u h =
    let (e, found, steps) = run_grows db cs k d d here u h in
    (e, found, steps, Steps-SameContent steps)

-- Where draft ids are unique, a draft that was sent, failed or cancelled is exactly as it was after
-- any calls.
pub run_final :
    (db : Db) (cs : List DraftCall) (k : Text) (d : Draft)
    → Keyed db
    → find (draft_at k) db.drafts ≡ some d
    → is_final d.status ≡ true
    → find (draft_at k) (run db cs).drafts ≡ some d
run_final db cs k d u h final =
    let (e, found, steps) = run_grows db cs k d d here u h in
    found ∙ ap some (Steps-final steps final)

-- The same for one call.
pub after_final :
    (db : Db) (c : DraftCall) (k : Text) (d : Draft)
    → Keyed db
    → find (draft_at k) db.drafts ≡ some d
    → is_final d.status ≡ true
    → find (draft_at k) (after db c).drafts ≡ some d
unfolding run
after_final db c k d u h final = run_final db (c ∷ []) k d u h final

-- Where draft ids are unique, from sound drafts every run leaves sound drafts: the time stamps of each agree with its status
-- (approved before it is claimed, sent or failed), and each message has 1 to 4000 characters.
pub run-IsSound :
    (db : Db) (cs : List DraftCall)
    → Keyed db
    → All IsSound db.drafts
    → All IsSound (run db cs).drafts
unfolding run
run-IsSound db [] u h = h
run-IsSound db (c ∷ cs) u h =
    run-IsSound (after db c) cs (after-Keyed db c u)
      (Evolves-IsSound db.drafts (after db c).drafts (after-Evolves db c u) h)
