-- ===== src/Service/Parts.antt =====
-- The parts of a pass (app/autopilot.py) that call no bridge, and the end of a claim.
use ollum_sales.Prelude.{
  ℕ, suc, ◌≡◌, refl, Bool, true, false, Option, none, some, arith, take, if◌then◌else◌,
}
use ollum_sales.Text.{Text, text}
use ollum_sales.Exec.{Result, ok, err, ◌>>=◌}
use ollum_sales.Clock.{DateText, missing, normalize_datetime}
use ollum_sales.Table.{find}
use ollum_sales.Table.Laws.{find-update, find-holds}
use ollum_sales.Schema.{Db, Draft, Interaction, Failure, is_sending}
use ollum_sales.Leads.{get_lead, set_lead}
use ollum_sales.Drafts.{
  draft_at, set_drafts, mark_draft, mark_row, mark_outreach_sent, get_outreach_draft,
  release_outreach_send_claim,
}
use ollum_sales.Drafts.Calls.{DraftCall, Keyed, claim, release, mark}
use ollum_sales.Drafts.Calls
use ollum_sales.Drafts.Safety.{is_final}
use ollum_sales.Sends.{PendingSend, complete_send_request, process_row}
use ollum_sales.Followups.{record_interaction, put_interaction}
use ollum_sales.Service.{
  Trouble, crm, World, Outside, finally, act, complete_request, record_sent, settle_claim,
  confirmed, report, recover, unconfirmed,
}
use ollum_sales.Service.Rules.{
  Keeps, Keeps-same, Keeps-call, IsCalm, pure-IsCalm, bind-IsCalm, finally-IsCalm, act-IsCalm,
}

completed-drafts :
    (t : ℕ) (id : Text) (success : Bool) (error : Option Text) (db : Db)
    → (complete_send_request t id success error db).1.drafts ≡ db.drafts
unfolding complete_send_request process_row
completed-drafts t id success error db = ground arith

recorded-drafts :
    (t t' : ℕ) (fresh lead channel direction content status : Text) (external : Option Text)
    (date : DateText) (db : Db)
    → (record_interaction t t' fresh lead channel direction content status external date
        db).1.drafts
      ≡ db.drafts
unfolding record_interaction get_lead put_interaction set_lead normalize_datetime
recorded-drafts t t' fresh lead channel direction content status external date db = ground arith

module _ (o : Outside) where
  pub complete_request-IsCalm :
      (id : Text) (success : Bool) (error : Option Text)
      → IsCalm (complete_request o id success error)
  unfolding complete_request
  complete_request-IsCalm id success error =
      act-IsCalm o (λ t. complete_send_request t id success error >>= λ _. λ db. (ok tt, db))
        (λ t db u. Keeps-same db _ u (ground (arith, completed-drafts t id success error db)))

  abbrev recorded : Draft → World → Result Failure Interaction × Db
  recorded d w =
      record_interaction (o.clock w.readings) (o.clock (suc w.readings)) (o.ids w.ids_used)
        d.lead_id (text "whatsapp") (text "outbound") d.message (text "sent") none missing w.db

  record_sent-world :
      (d : Draft) (w : World)
      → (record_sent o d w).1 ≡ record w {
        db = (recorded d w).1;
        readings = suc (suc w.readings);
        ids_used = suc w.ids_used;
      }
  unfolding record_sent
  record_sent-world d w = go (recorded d w).0
    where
      go :
          (r : Result Failure Interaction)
          → (elim r as (λ _. Result Trouble (Unit {0}) × World) [
            | ok _ ↦ (
              ok tt,
              record w {
                db = (recorded d w).1;
                readings = suc (suc w.readings);
                ids_used = suc w.ids_used;
              },
            )
            | err e ↦ (
              err (crm e),
              record w {
                db = (recorded d w).1;
                readings = suc (suc w.readings);
                ids_used = suc w.ids_used;
              },
            )
          ]).1
            ≡ record w {
              db = (recorded d w).1;
              readings = suc (suc w.readings);
              ids_used = suc w.ids_used;
            }
      go (ok i) = refl
      go (err e) = refl

  pub record_sent-IsCalm : (d : Draft) → IsCalm (record_sent o d)
  record_sent-IsCalm d = record {
    keeps = λ w u. rw (record_sent-world d w) (
        Keeps-same w.db (recorded d w).1 u (
          recorded-drafts (o.clock w.readings) (o.clock (suc w.readings)) (o.ids w.ids_used)
            d.lead_id (text "whatsapp") (text "outbound") d.message (text "sent") none missing
            w.db));
    quiet = λ w. rw (record_sent-world d w) refl;
  }

  pub mark-IsCalm : (k : Text) (b : Bool) → IsCalm (act o (λ t. mark_outreach_sent t k b))
  mark-IsCalm k b =
      act-IsCalm o (λ t. mark_outreach_sent t k b)
        (λ t db u. unfold Calls.after in Keeps-call db (mark t k b) u)

  pub settle_claim-IsCalm :
      (k : Text) (success blocked : Bool) → IsCalm (settle_claim o k success blocked)
  unfolding settle_claim
  settle_claim-IsCalm k success true =
      act-IsCalm o (λ t. release_outreach_send_claim t k)
        (λ t db u. unfold Calls.after in Keeps-call db (release t k) u)
  settle_claim-IsCalm k success false = mark-IsCalm k (confirmed success false)

  -- The part of `report` behind the end of the claim.
  pub rest-IsCalm :
      (p : PendingSend) (d : Draft) (b : Bool)
      → IsCalm (
          (if b then record_sent o d else λ w. (ok tt, w)) >>= λ _.
          complete_request o p.id b (if b then none else some unconfirmed) >>= λ _. λ w. (ok b, w))
  rest-IsCalm p d true = bind-IsCalm (record_sent o d) _ (record_sent-IsCalm d) (λ _.
      bind-IsCalm (complete_request o p.id true none) _ (complete_request-IsCalm p.id true none)
        (λ _. pure-IsCalm true))
  rest-IsCalm p d false =
      bind-IsCalm (λ w. (ok tt, w)) _ (pure-IsCalm tt)
        (λ _.
          bind-IsCalm (complete_request o p.id false (some unconfirmed)) _
            (complete_request-IsCalm p.id false (some unconfirmed)) (λ _. pure-IsCalm false))

  pub recover-IsCalm : (p : PendingSend) (d : Draft) (e : Trouble) → IsCalm (recover o p d e)
  unfolding recover
  recover-IsCalm p d e =
      let last = complete_request o p.id false (some (take 1000 (o.text_of e))) in
      bind-IsCalm (finally (act o (λ t. mark_outreach_sent t d.id false)) last)
        (λ _. λ w. (ok false, w))
        (finally-IsCalm (act o (λ t. mark_outreach_sent t d.id false)) last (mark-IsCalm d.id false)
          (complete_request-IsCalm p.id false (some (take 1000 (o.text_of e)))))
        (λ _. pure-IsCalm false)

  pub report-IsCalm : (p : PendingSend) (d : Draft) (a : Bool × Bool) → IsCalm (report o p d a)
  unfolding report
  report-IsCalm p d (success, blocked) =
      bind-IsCalm (settle_claim o d.id success blocked) _ (settle_claim-IsCalm d.id success blocked)
        (λ _. rest-IsCalm p d (confirmed success blocked))

-- A draft that is over.
abbrev pub IsOver : Text → Db → Type 0
IsOver k db = (d : Draft) × (find (draft_at k) db.drafts ≡ some d) × (is_final d.status ≡ true)

pub Keeps-IsOver : (k : Text) (db db' : Db) → Keeps db db' → IsOver k db → IsOver k db'
Keeps-IsOver k db db' h (d, e, f) = (d, h.final k d e f, f)

-- The end of a claim that is held is final.
pub mark-IsOver :
    (t : ℕ) (k : Text) (b : Bool) (db : Db) (d : Draft)
    → find (draft_at k) db.drafts ≡ some d
    → is_sending d.status ≡ true
    → IsOver k (mark_outreach_sent t k b db).1
unfolding mark_outreach_sent mark_row set_drafts set_lead get_outreach_draft
mark-IsOver t k true db d h s = (
  mark_draft t true d,
  ground (
    arith,
    find-update (draft_at k) (draft_at k) (mark_draft t true) db.drafts (λ _. refl),
    find-holds (draft_at k) db.drafts d h,
  ),
  refl,
)
mark-IsOver t k false db d h s = (
  mark_draft t false d,
  ground (
    arith,
    find-update (draft_at k) (draft_at k) (mark_draft t false) db.drafts (λ _. refl),
    find-holds (draft_at k) db.drafts d h,
  ),
  refl,
)
