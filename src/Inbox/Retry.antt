-- ===== src/Inbox/Retry.antt =====
-- `requeue_agent_inbox_event` beside the operator's view of the event (app/crm.py).
use ollum_sales.Prelude.{
  ℕ, ◌+◌, ◌-◌, ◌*◌, ◌/◌, ◌≡◌, true, false, none, some, arith, Option-cases, inl, inr, ltb,
}
use ollum_sales.Text.{Text}
use ollum_sales.Exec.{ok, transaction}
use ollum_sales.Clock.{second}
use ollum_sales.Table.{find}
use ollum_sales.Schema.{Db, InboxEvent, AgentSettings}
use ollum_sales.Inbox.{event_in}
use ollum_sales.Inbox.Changes.{operational_view, requeue_row}

in_window :
    (now hours received : ℕ)
    → ltb (received * second + hours * 3600 * second) now ≡ false
    → ltb (hours * 60) ((now - received * second) / (60 * second)) ≡ false
in_window now hours received h = ground arith

-- Where the transaction of a retry returns an event that it has put back, the operator's view at the
-- same time gave no reason against a retry of the event that was found.
pub retry_unblocked :
    (now : ℕ) (k id : Text) (settings : AgentSettings) (db db' : Db) (e' : InboxEvent)
    → transaction (requeue_row now k id settings) db ≡ (ok (e', true), db')
    → (e : InboxEvent) × (find (event_in k id) db.events ≡ some e)
      × ((operational_view settings now e).retry_block_reason ≡ none)
unfolding requeue_row operational_view
retry_unblocked now k id settings db db' e' h =
    elim (Option-cases (find (event_in k id) db.events)) [
      | inl n ↦ absurd (ground arith)
      | inr (e, n) ↦
          (e, n, ground (arith, in_window now settings.max_inbound_age_hours e.received_at))
    ]
