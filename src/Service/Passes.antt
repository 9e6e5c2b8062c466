-- ===== src/Service/Passes.antt =====
-- Passes over the queue of sends (`_process_send_requests` of app/autopilot.py).

use ollum_sales.Prelude.{
  ◌≡◌, refl, sym, ap, ◌∙◌, Bool, true, false, List, [], ◌∷◌, some, take, length, if◌then◌else◌, All,
}
use ollum_sales.Text.{Text, same}
use ollum_sales.Exec.{Result, ok, err, ◌>>=◌}
use ollum_sales.Table.{find}
use ollum_sales.Schema.{Db, Draft, is_sending}
use ollum_sales.Drafts.{draft_at, mark_outreach_sent}
use ollum_sales.Drafts.Calls.{Keyed}
use ollum_sales.Sends.{PendingSend}
use ollum_sales.Service.{
  Trouble, bridge, World, Sending, Outside, Task, BridgeAnswer, answers, raises, is_blocked,
  outcome, called, catch, finally, act, call_sender, complete_request, settle_claim, confirmed,
  report, recover, deliver,
}
use ollum_sales.Service.Rules.{
  Keeps, Keeps-trans, IsCalm, pure-IsCalm, bind-Keeps, catch-Keeps, catch-quiet, finally-world,
}
use ollum_sales.Service.Parts.{
  complete_request-IsCalm, rest-IsCalm, recover-IsCalm, report-IsCalm, mark-IsCalm, IsOver,
  Keeps-IsOver, mark-IsOver,
}

-- The drafts whose messages the bridge took, or may have taken: it did not answer that it was blocked.
abbrev pub delivered : List Sending → List Text
delivered [] = []
delivered (s ∷ ss) = if s.blocked then delivered ss else s.draft_id ∷ delivered ss

abbrev pub Distinct : List Text → Type 0
Distinct [] = Unit
Distinct (k ∷ ks) = All (λ j. same j k ≡ false) ks × Distinct ks

-- No draft was delivered twice, and the delivered ones are over.
pub record IsOnce (w : World) : Type 0 where
  pub keyed : Keyed w.db
  pub distinct : Distinct (delivered w.log)
  pub over : All (λ k. IsOver k w.db) (delivered w.log)

pub over_kept :
    (ks : List Text) (db db' : Db)
    → Keeps db db'
    → All (λ k. IsOver k db) ks
    → All (λ k. IsOver k db') ks
over_kept [] db db' h a = tt
over_kept (k ∷ ks) db db' h a = (Keeps-IsOver k db db' h a.0, over_kept ks db db' h a.1)

pub kept-IsOnce : (w w' : World) → w'.log ≡ w.log → Keeps w.db w'.db → IsOnce w → IsOnce w'
kept-IsOnce w w' e h i = record {
  keyed = h.keyed;
  distinct = rw e i.distinct;
  over = rw e (over_kept (delivered w.log) w.db w'.db h i.over);
}

pub calm-IsOnce : {A : Type 0} (m : Task A) (w : World) → IsCalm m → IsOnce w → IsOnce (m w).1
calm-IsOnce m w c i = kept-IsOnce w (m w).1 (c.quiet w) (c.keeps w i.keyed) i

module _ (o : Outside) where
  -- What a delivery has done, from a draft that is being sent.
  pub record IsDelivered (d : Draft) (w w' : World) : Type 0 where
    pub keeps : Keeps w.db w'.db
    pub sending : Sending
    pub logged : w'.log ≡ sending ∷ w.log
    pub named : sending.draft_id ≡ d.id
    pub over : sending.blocked ≡ false → IsOver d.id w'.db

  -- After a claim has been ended, the rest of the block, and the handler, keep the draft over.
  reported :
      (p : PendingSend) (d : Draft) (success : Bool) (w : World)
      → Keyed w.db
      → find (draft_at d.id) w.db.drafts ≡ some d
      → is_sending d.status ≡ true
      → IsOver d.id (report o p d (success, false) w).1.db
  unfolding report settle_claim
  reported p d success w u h s =
      let m = act o (λ t. mark_outreach_sent t d.id (confirmed success false)) in
      Keeps-IsOver d.id (m w).1.db (report o p d (success, false) w).1.db
        (bind-Keeps m _ w (λ _. rest-IsCalm o p d (confirmed success false))
          ((mark-IsCalm o d.id (confirmed success false)).keeps w u).keyed)
        (unfold act in mark-IsOver (o.clock w.readings) d.id (confirmed success false) w.db d h s)

  recovered :
      (p : PendingSend) (d : Draft) (e : Trouble) (w : World)
      → Keyed w.db
      → find (draft_at d.id) w.db.drafts ≡ some d
      → is_sending d.status ≡ true
      → IsOver d.id (recover o p d e w).1.db
  unfolding recover
  recovered p d e w u h s =
      let m = act o (λ t. mark_outreach_sent t d.id false) in
      let last = complete_request o p.id false (some (take 1000 (o.text_of e))) in
      let recover_block : Task Bool = finally m last >>= λ _. λ w. (ok false, w) in
      let marked = (mark-IsCalm o d.id false).keeps w u in
      let kept =
        (complete_request-IsCalm o p.id false (some (take 1000 (o.text_of e)))).keeps (m w).1
          marked.keyed in
      let both : Keeps (m w).1.db (finally m last w).1.db = rw (finally-world m last w) kept in
      Keeps-IsOver d.id (m w).1.db (recover_block w).1.db
        (Keeps-trans (m w).1.db (finally m last w).1.db (recover_block w).1.db both (
          bind-Keeps (finally m last) (λ _. λ w. (ok false, w)) w (λ _. pure-IsCalm false)
            both.keyed))
        (unfold act in mark-IsOver (o.clock w.readings) d.id false w.db d h s)

  -- `deliver` behind the call of the bridge.
  abbrev finish :
      PendingSend → Draft → Result Trouble (Bool × Bool) × World → Result Trouble Bool × World
  finish p d x =
      catch (λ _. elim x.0 [ ok a ↦ report o p d a x.1 | err e ↦ (err e, x.1) ]) (recover o p d) x.1

  call-answer :
      (d : Draft) (w : World) (a : BridgeAnswer)
      → o.sender (length w.log) d.recipient d.message ≡ a
      → call_sender o d w ≡ (outcome a, called o d w)
  unfolding call_sender
  call-answer d w a h = ap (λ (x : BridgeAnswer). (outcome x, called o d w)) h

  deliver-answer :
      (p : PendingSend) (d : Draft) (w : World) (a : BridgeAnswer)
      → o.sender (length w.log) d.recipient d.message ≡ a
      → deliver o p d w ≡ elim a [
        | answers success blocked ↦
            catch (report o p d (success, blocked)) (recover o p d) (called o d w)
        | raises e ↦ recover o p d (bridge e) (called o d w)
      ]
  unfolding deliver call_sender
  deliver-answer p d w (answers success blocked) h =
      ap (finish p d) (call-answer d w (answers success blocked) h)
  deliver-answer p d w (raises e) h = ap (finish p d) (call-answer d w (raises e) h)

  pub delivered_lem :
      (p : PendingSend) (d : Draft) (w : World)
      → Keyed w.db
      → find (draft_at d.id) w.db.drafts ≡ some d
      → is_sending d.status ≡ true
      → IsDelivered d w (deliver o p d w).1
  delivered_lem p d w u h s = go (o.sender (length w.log) d.recipient d.message) refl
    where
      w1 : World
      w1 = called o d w

      entry : Sending
      entry = record {
        draft_id = d.id;
        recipient = d.recipient;
        message = d.message;
        blocked = is_blocked (o.sender (length w.log) d.recipient d.message);
      }

      block : Bool → Bool → Task Bool
      block success blocked = report o p d (success, blocked)

      block_keeps :
          (success blocked : Bool)
          → Keeps w.db (catch (block success blocked) (recover o p d) w1).1.db
      block_keeps success blocked =
          let first = (report-IsCalm o p d (success, blocked)).keeps w1 u in
          Keeps-trans w.db (block success blocked w1).1.db
            (catch (block success blocked) (recover o p d) w1).1.db first
            (catch-Keeps (block success blocked) (recover o p d) w1 (recover-IsCalm o p d)
              first.keyed)

      block_quiet :
          (success blocked : Bool)
          → (catch (block success blocked) (recover o p d) w1).1.log ≡ entry ∷ w.log
      block_quiet success blocked =
          catch-quiet (block success blocked) (recover o p d) w1 (recover-IsCalm o p d)
          ∙ (report-IsCalm o p d (success, blocked)).quiet w1

      go :
          (a : BridgeAnswer)
          → o.sender (length w.log) d.recipient d.message ≡ a
          → IsDelivered d w (deliver o p d w).1
      go (answers success true) e = rw (deliver-answer p d w (answers success true) e) (record {
        keeps = block_keeps success true;
        sending = entry;
        logged = block_quiet success true;
        named = refl;
        over = λ n. absurd (cc (sym (ap is_blocked e) ∙ n));
      })
      go (answers success false) e = rw (deliver-answer p d w (answers success false) e) (record {
        keeps = block_keeps success false;
        sending = entry;
        logged = block_quiet success false;
        named = refl;
        over = λ _.
            Keeps-IsOver d.id (block success false w1).1.db
              (catch (block success false) (recover o p d) w1).1.db
              (catch-Keeps (block success false) (recover o p d) w1 (recover-IsCalm o p d)
                ((report-IsCalm o p d (success, false)).keeps w1 u).keyed)
              (reported p d success w1 u h s);
      })
      go (raises x) e = rw (deliver-answer p d w (raises x) e) (record {
        keeps = (recover-IsCalm o p d (bridge x)).keeps w1 u;
        sending = entry;
        logged = (recover-IsCalm o p d (bridge x)).quiet w1;
        named = refl;
        over = λ _. recovered p d (bridge x) w1 u h s;
      })
