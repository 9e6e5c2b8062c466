-- ===== src/Service.antt =====
-- The autopilot's service (app/autopilot.py, `AutopilotService`): the pass over the queue of sends and
-- the gate of a start. The clock, the random ids, the WhatsApp bridge and the texts of exceptions are
-- outside of the model: an oracle answers each reading, in turn. `log` is the history of the calls of
-- the bridge, the last one first.
pub mod Waiting
pub mod Rules
pub mod Parts
pub mod Passes
pub mod Once
pub mod Gate
use ollum_sales.Prelude.{
  ℕ, suc, ◌+◌, Bool, true, false, not, ◌&&◌, ◌||◌, List, [], ◌∷◌, ◌++◌, Option, none, some, take,
  length, ltb, if◌then◌else◌,
}
use ollum_sales.Text.{Text, text, same, strip, lower}
use ollum_sales.Exec.{Exec, Result, ok, err, pure, ◌>>=◌, ◌>>◌}
use ollum_sales.Clock.{missing}
use ollum_sales.Schema.{Db, Draft, Failure, Crm, AutopilotState, is_approved}
use ollum_sales.Drafts.{
  claim_outreach_draft_for_send, release_outreach_send_claim, mark_outreach_sent,
}
use ollum_sales.Sends.{PendingSend, list_pending_send_requests, complete_send_request}
use ollum_sales.Followups.{record_interaction}
use ollum_sales.Autopilot.{start_autopilot}

-- What the bridge does with a message: it answers, or it raises.
pub data BridgeAnswer : Type 0 where
  answers : Bool → Bool → BridgeAnswer
  raises : Text → BridgeAnswer

-- An exception in a pass.
pub data Trouble : Type 0 where
  crm : Failure → Trouble
  bridge : Text → Trouble

pub record Sending : Type 0 where
  pub draft_id : Text
  pub recipient : Option Text
  pub message : Text
  pub blocked : Bool

pub record World : Type 0 where
  pub db : Db
  pub readings : ℕ
  pub ids_used : ℕ
  pub log : List Sending

-- The first argument of each is how many readings, ids or messages there were before.
pub record Outside : Type 0 where
  pub clock : ℕ → ℕ
  pub ids : ℕ → Text
  pub sender : ℕ → Option Text → Text → BridgeAnswer
  pub text_of : Trouble → Text

abbrev pub Task : Type 0 → Type 0
Task = Exec World Trouble

abbrev pub as_trouble : {A : Type 0} → Result Failure A → Result Trouble A
as_trouble (ok a) = ok a
as_trouble (err e) = err (crm e)

-- `try: m except Exception as exc: handler(exc)`
abbrev pub catch : {A : Type 0} → Task A → (Trouble → Task A) → Task A
catch m handler w = let (r, w') = m w in elim r [ ok a ↦ (ok a, w') | err e ↦ handler e w' ]

-- `try: m finally: last`
abbrev pub finally : {A B : Type 0} → Task A → Task B → Task A
finally m last w =
    let (r, w') = m w in
    let (r', w'') = last w' in elim r' [ ok _ ↦ (r, w'') | err e ↦ (err e, w'') ]

abbrev pub is_blocked : BridgeAnswer → Bool
is_blocked (answers success blocked) = blocked
is_blocked (raises e) = false

abbrev pub outcome : BridgeAnswer → Result Trouble (Bool × Bool)
outcome (answers success blocked) = ok (success, blocked)
outcome (raises e) = err (bridge e)

abbrev pub confirmed : Bool → Bool → Bool
confirmed success blocked = success && not blocked

pub record Counts : Type 0 where
  pub pending : ℕ
  pub sent : ℕ
  pub failed : ℕ
  pub blocked : Bool

abbrev pub no_claim : Text
no_claim = text "draft send claim unavailable"

abbrev pub not_approved : Text
not_approved = text "draft is not approved WhatsApp outreach"

abbrev pub unconfirmed : Text
unconfirmed = text "WhatsApp bridge did not confirm send"

module _ (o : Outside) where
  -- A method of the CRM, which reads the clock.
  unfoldable pub act : {A : Type 0} → (ℕ → Crm A) → Task A
  act m w =
      let (r, db) = m (o.clock w.readings) w.db in
      (as_trouble r, record w { db = db; readings = suc w.readings })

  -- the history with one message more
  abbrev pub called : Draft → World → World
  called d w = record w {
    log =
        (record {
          draft_id = d.id;
          recipient = d.recipient;
          message = d.message;
          blocked = is_blocked (o.sender (length w.log) d.recipient d.message);
        })
        ∷ w.log;
  }

  unfoldable pub call_sender : Draft → Task (Bool × Bool)
  call_sender d w = (outcome (o.sender (length w.log) d.recipient d.message), called d w)

  unfoldable pub complete_request : Text → Bool → Option Text → Task (Unit {0})
  unfolding act
  complete_request id success error =
      act (λ t. do complete_send_request t id success error; pure tt)

  -- `record_interaction` reads the clock twice and makes an id.
  unfoldable pub record_sent : Draft → Task (Unit {0})
  record_sent d w =
      let (r, db) =
        record_interaction (o.clock w.readings) (o.clock (suc w.readings)) (o.ids w.ids_used)
          d.lead_id (text "whatsapp") (text "outbound") d.message (text "sent") none missing w.db in
      let w' = record w { db = db; readings = suc (suc w.readings); ids_used = suc w.ids_used } in
      elim r [ ok _ ↦ (ok tt, w') | err e ↦ (err (crm e), w') ]

  -- the release or the end of the claim
  unfoldable pub settle_claim : Text → Bool → Bool → Task Draft
  unfolding act
  settle_claim k success blocked =
      if blocked
      then act (λ t. release_outreach_send_claim t k)
      else act (λ t. mark_outreach_sent t k (confirmed success blocked))

  -- the rest of the `try` block, with the bridge's answer
  unfoldable pub report : PendingSend → Draft → Bool × Bool → Task Bool
  unfolding settle_claim complete_request record_sent
  report p d (success, blocked) = do
    settle_claim d.id success blocked
    if confirmed success blocked then record_sent d else pure tt
    complete_request p.id (confirmed success blocked)
        (if confirmed success blocked then none else some unconfirmed)
    pure (confirmed success blocked)

  -- the `except` block
  unfoldable pub recover : PendingSend → Draft → Trouble → Task Bool
  unfolding act complete_request
  recover p d e = do
    finally (act (λ t. mark_outreach_sent t d.id false))
        (complete_request p.id false (some (take 1000 (o.text_of e))))
    pure false

  unfoldable pub deliver : PendingSend → Draft → Task Bool
  unfolding call_sender report recover
  deliver p d = catch (call_sender d >>= report p d) (recover p d)

  -- One round of the loop: was the message sent?
  unfoldable pub process_request : PendingSend → Task Bool
  unfolding act complete_request deliver
  process_request p =
      if not (same p.channel (text "whatsapp")) || not (is_approved p.draft_status)
      then (do complete_request p.id false (some not_approved); pure false)
      else do
        claimed ← act (λ t. claim_outreach_draft_for_send t p.draft_id)
        elim claimed [
          | none ↦ (do complete_request p.id false (some no_claim); pure false)
          | some d ↦ deliver p d
        ]

  -- the loop, with its counters
  unfoldable pub process_requests : List PendingSend → ℕ → ℕ → Task (ℕ × ℕ)
  process_requests [] sent failed = pure (sent, failed)
  process_requests (p ∷ ps) sent failed = do
    delivered ← process_request p
    process_requests ps (if delivered then suc sent else sent)
        (if delivered then failed else suc failed)

  -- `_process_send_requests`; `safe` is `mode == "safe"`
  unfoldable pub process_send_requests : Bool → Bool → Bool → Task Counts
  unfolding act process_requests
  process_send_requests safe allow_autopilot_send allow_whatsapp_send = do
    requests ← act (λ _. list_pending_send_requests 50)
    if safe || not (allow_autopilot_send && allow_whatsapp_send)
        then pure (record { pending = length requests; sent = 0; failed = 0; blocked = true })
        else do
          counts ← process_requests requests 0 0
          pure (record {
            pending = length requests;
            sent = counts.0;
            failed = counts.1;
            blocked = false;
          })
