-- ===== src/Service/Once.antt =====
-- What the passes over the queue of sends (app/autopilot.py) deliver.
use mathlib.Core.Path.{subst}
use ollum_sales.Prelude.{
  ℕ, suc, ◌≡◌, refl, sym, ap, ◌∙◌, Bool, true, false, not, ◌&&◌, ◌||◌, List, [], ◌∷◌, Option, none,
  some, arith, length, Bool-cases, inl, inr, if◌then◌else◌, All,
}
use ollum_sales.Text.{Text, text, same}
use ollum_sales.Text.Laws.{same_iff}
use ollum_sales.Exec.{Result, ok, err, ◌>>=◌}
use ollum_sales.Table.{find}
use ollum_sales.Table.Laws.{find-holds}
use ollum_sales.Schema.{Db, Draft, Failure, is_sending, is_approved}
use ollum_sales.Drafts.{get_outreach_draft, draft_at, claim_outreach_draft_for_send}
use ollum_sales.Drafts.Calls.{DraftCall, Keyed, claim}
use ollum_sales.Drafts.Calls
use ollum_sales.Drafts.Claims.{claim_once}
use ollum_sales.Sends.{
  PendingSend, queue_outreach_send_request, queue_row, insert_or_ignore, list_pending_send_requests,
}
use ollum_sales.Service.{
  Trouble, World, Outside, Task, Counts, as_trouble, act, complete_request, deliver,
  process_request, process_requests, process_send_requests, not_approved, no_claim,
}
use ollum_sales.Service.Rules.{
  Keeps, Keeps-trans, Keeps-same, Keeps-call, IsCalm, pure-IsCalm, bind-IsCalm, act-IsCalm,
}
use ollum_sales.Service.Parts.{complete_request-IsCalm, IsOver}
use ollum_sales.Service.Passes.{
  delivered, Distinct, IsOnce, over_kept, kept-IsOnce, calm-IsOnce, IsDelivered, delivered_lem,
}

-- A draft that can be claimed has not been delivered.
fresh_claim :
    (ks : List Text) (k : Text) (c : Draft) (db : Db)
    → find (draft_at k) db.drafts ≡ some c
    → is_approved c.status ≡ true
    → All (λ j. IsOver j db) ks
    → All (λ j. same j k ≡ false) ks
fresh_claim [] k c db h a i = tt
fresh_claim (j ∷ ks) k c db h a (over, rest) = (
  elim (Bool-cases (same j k)) [ inl e ↦ absurd (clash ((same_iff j k).0 e) over) | inr e ↦ e ],
  fresh_claim ks k c db h a rest,
)
  where
    clash : j ≡ k → IsOver j db → ⊥
    clash e (d, f, final) =
        let same_row : some d ≡ some c =
          sym (subst (λ i. find (draft_at i) db.drafts ≡ some d) e f) ∙ h in
        ground arith

bind-IsOnce :
    {A B : Type 0} (m : Task A) (f : A → Task B) (w : World)
    → IsOnce (m w).1
    → ((a : A) (w' : World) → IsOnce w' → IsOnce (f a w').1)
    → IsOnce ((m >>= f) w).1
bind-IsOnce {A} {B} m f w i k = go (m w) i
  where
    go :
        (x : Result Trouble A × World)
        → IsOnce x.1
        → IsOnce
            (elim x.0 as (λ _. Result Trouble B × World) [
              | ok a ↦ f a x.1
              | err e ↦ (err e, x.1)
            ]).1
    go (ok a, w') i = k a w' i
    go (err e, w') i = i

list-Reads : (db : Db) → (list_pending_send_requests 50 db).1 ≡ db
unfolding list_pending_send_requests
list-Reads db = refl

module _ (o : Outside) where
  add_delivery :
      (d : Draft) (k : Text) (w w1 w2 : World)
      → d.id ≡ k
      → IsOnce w
      → w1.log ≡ w.log
      → Keeps w.db w1.db
      → All (λ j. same j k ≡ false) (delivered w.log)
      → IsDelivered o d w1 w2
      → IsOnce w2
  add_delivery d k w w1 w2 name i log keeps apart h =
      let all : w2.log ≡ h.sending ∷ w.log = h.logged ∙ ap (λ l. h.sending ∷ l) log in
      let kept = Keeps-trans w.db w1.db w2.db keeps h.keeps in
      let over = over_kept (delivered w.log) w.db w2.db kept i.over in
      elim (Bool-cases h.sending.blocked) [
        | inl e ↦ record {
          keyed = h.keeps.keyed;
          distinct = rw (all, e) i.distinct;
          over = rw (all, e) over;
        }
        | inr e ↦ record {
          keyed = h.keeps.keyed;
          distinct =
              rw (all, e)
                (
                  subst (λ j. All (λ i. same i j ≡ false) (delivered w.log)) (sym (h.named ∙ name))
                      apart,
                  i.distinct,
                );
          over = rw (all, e) (subst (λ j. IsOver j w2.db) (sym h.named) (h.over e), over);
        }
      ]

  claim-Keeps :
      (k : Text) (w : World)
      → Keyed w.db
      → Keeps w.db (act o (λ t. claim_outreach_draft_for_send t k) w).1.db
  unfolding act
  claim-Keeps k w u = unfold Calls.after in Keeps-call w.db (claim (o.clock w.readings) k) u

  -- What follows the claim in a round.
  abbrev claimed_case : PendingSend → Option Draft → Task Bool
  claimed_case p none = complete_request o p.id false (some no_claim) >>= λ _. λ w. (ok false, w)
  claimed_case p (some d) = deliver o p d

  no_claim-IsCalm :
      (p : PendingSend) (e : Text)
      → IsCalm (complete_request o p.id false (some e) >>= λ _. λ w. (ok false, w))
  no_claim-IsCalm p e =
      bind-IsCalm (complete_request o p.id false (some e)) (λ _. λ w. (ok false, w))
        (complete_request-IsCalm o p.id false (some e)) (λ _. pure-IsCalm false)

  round-IsOnce :
      (p : PendingSend) (w : World) (r : Result Failure (Option Draft)) (db : Db)
      → IsOnce w
      → claim_outreach_draft_for_send (o.clock w.readings) p.draft_id w.db ≡ (r, db)
      → Keeps w.db db
      → IsOnce
          (elim (as_trouble r) as (λ _. Result Trouble Bool × World) [
            | ok c ↦ claimed_case p c (record w { db = db; readings = suc w.readings })
            | err e ↦ (err e, record w { db = db; readings = suc w.readings })
          ]).1
  round-IsOnce p w (err e) db i h k = kept-IsOnce w _ refl k i
  round-IsOnce p w (ok none) db i h k =
      calm-IsOnce (claimed_case p none) (record w { db = db; readings = suc w.readings })
        (no_claim-IsCalm p no_claim)
        (kept-IsOnce w (record w { db = db; readings = suc w.readings }) refl k i)
  round-IsOnce p w (ok (some d)) db i h k =
      let w1 = record w { db = db; readings = suc w.readings } in
      let ((c, found, approved, row), now_found, _) =
        claim_once w.db (o.clock w.readings) 0 p.draft_id d db i.keyed h in
      let name : d.id ≡ p.draft_id =
        (same_iff d.id p.draft_id).0 (find-holds (draft_at p.draft_id) db.drafts d now_found) in
      add_delivery d p.draft_id w w1 (deliver o p d w1).1 name i refl k
        (fresh_claim (delivered w.log) p.draft_id c w.db found approved i.over)
        (delivered_lem o p d w1 k.keyed
          (subst (λ j. find (draft_at j) db.drafts ≡ some d) (sym name) now_found)
          (ap (λ (x : Draft). is_sending x.status) row))

  request-IsOnce : (p : PendingSend) (w : World) → IsOnce w → IsOnce (process_request o p w).1
  unfolding process_request act
  request-IsOnce p w i =
      let answer = claim_outreach_draft_for_send (o.clock w.readings) p.draft_id w.db in
      elim (Bool-cases
        (not (same p.channel (text "whatsapp")) || not (is_approved p.draft_status))) [
          | inl e ↦ rw e (
              calm-IsOnce
                (complete_request o p.id false (some not_approved) >>= λ _. λ w. (ok false, w)) w
                (no_claim-IsCalm p not_approved) i)
          | inr e ↦ rw e (
              round-IsOnce p w answer.0 answer.1 i refl
                (unfold act in claim-Keeps p.draft_id w i.keyed))
        ]

  requests-IsOnce :
      (ps : List PendingSend) (sent failed : ℕ) (w : World)
      → IsOnce w
      → IsOnce (process_requests o ps sent failed w).1
  unfolding process_requests
  requests-IsOnce [] sent failed w i = i
  requests-IsOnce (p ∷ ps) sent failed w i =
      bind-IsOnce (process_request o p)
        (λ b.
          process_requests o ps (if b then suc sent else sent) (if b then failed else suc failed))
        w (request-IsOnce p w i)
        (λ b w' i'.
          requests-IsOnce ps (if b then suc sent else sent) (if b then failed else suc failed) w'
            i')

  -- A pass with the requests that it has read.
  abbrev pass_on : Bool → Bool → List PendingSend → Task Counts
  pass_on safe allowed ps =
      if safe || not allowed
      then (λ w. (ok (record { pending = length ps; sent = 0; failed = 0; blocked = true }), w))
      else (process_requests o ps 0 0 >>= λ counts. λ w. (
        ok (record { pending = length ps; sent = counts.0; failed = counts.1; blocked = false }),
        w,
      ))

  pass_on-IsOnce :
      (safe allowed : Bool) (ps : List PendingSend) (w : World)
      → IsOnce w
      → IsOnce (pass_on safe allowed ps w).1
  pass_on-IsOnce true allowed ps w i = i
  pass_on-IsOnce false false ps w i = i
  pass_on-IsOnce false true ps w i =
      bind-IsOnce (process_requests o ps 0 0)
        (λ counts. λ w. (
          ok (record { pending = length ps; sent = counts.0; failed = counts.1; blocked = false }),
          w,
        ))
        w (requests-IsOnce ps 0 0 w i) (λ _ w' i'. i')

  pass-IsOnce :
      (safe allow allow' : Bool) (w : World)
      → IsOnce w
      → IsOnce (process_send_requests o safe allow allow' w).1
  unfolding process_send_requests
  pass-IsOnce safe allow allow' w i =
      bind-IsOnce (act o (λ _. list_pending_send_requests 50)) (pass_on safe (allow && allow')) w
        (calm-IsOnce (act o (λ _. list_pending_send_requests 50)) w
          (act-IsCalm o (λ _. list_pending_send_requests 50)
            (λ t db u.
              Keeps-same db (list_pending_send_requests 50 db).1 u
                (ap (λ (x : Db). x.drafts) (list-Reads db))))
          i)
        (pass_on-IsOnce safe (allow && allow'))

-- What happens to the system: a pass of the service, a call on the drafts by anyone, or a queueing.
pub data Event : Type 0 where
  pass : Bool → Bool → Bool → Event
  edits : DraftCall → Event
  queues : ℕ → Text → Text → Event

module _ (o : Outside) where
  unfoldable pub happens : World → Event → World
  happens w (pass safe allow allow') = (process_send_requests o safe allow allow' w).1
  happens w (edits c) = record w { db = Calls.after w.db c }
  happens w (queues t fresh k) = record w { db = (queue_outreach_send_request t fresh k w.db).1 }

  unfoldable pub history : World → List Event → World
  unfolding happens
  history w [] = w
  history w (e ∷ es) = history (happens w e) es

  queued-drafts :
      (t : ℕ) (fresh k : Text) (db : Db)
      → (queue_outreach_send_request t fresh k db).1.drafts ≡ db.drafts
  unfolding queue_outreach_send_request get_outreach_draft queue_row insert_or_ignore
  queued-drafts t fresh k db = ground arith

  happens-IsOnce : (w : World) (e : Event) → IsOnce w → IsOnce (happens w e)
  unfolding happens
  happens-IsOnce w (pass safe allow allow') i = pass-IsOnce o safe allow allow' w i
  happens-IsOnce w (edits c) i =
      kept-IsOnce w (record w { db = Calls.after w.db c }) refl (Keeps-call w.db c i.keyed) i
  happens-IsOnce w (queues t fresh k) i =
      kept-IsOnce w (record w { db = (queue_outreach_send_request t fresh k w.db).1 }) refl
        (Keeps-same w.db (queue_outreach_send_request t fresh k w.db).1 i.keyed
          (queued-drafts t fresh k w.db))
        i

  history-IsOnce : (w : World) (es : List Event) → IsOnce w → IsOnce (history w es)
  unfolding history
  history-IsOnce w [] i = i
  history-IsOnce w (e ∷ es) i = history-IsOnce (happens w e) es (happens-IsOnce w e i)

  -- Where draft ids are unique and nothing has been sent yet, in any history of passes over the queue, of
  -- calls on the drafts and of queueings, whatever the bridge answers or raises, no draft is given to
  -- the bridge a second time after a call that the bridge did not refuse as blocked, and every such
  -- draft is sent, failed or cancelled in the end.
  pub deliver_once :
      (w : World) (es : List Event)
      → Keyed w.db
      → w.log ≡ []
      → Distinct (delivered (history w es).log)
        × All (λ k. IsOver k (history w es).db) (delivered (history w es).log)
  deliver_once w es u h =
      let i = history-IsOnce w es (record { keyed = u; distinct = rw h tt; over = rw h tt }) in
      (i.distinct, i.over)
