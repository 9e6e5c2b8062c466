-- ===== src/Tests/Passes.antt =====
-- Witnesses of the properties of the autopilot's service.

use ollum_sales.Service.Waiting.{waiting}
use ollum_sales.Prelude.{
  min, ℕ, zero, suc, ◌≡◌, ◌⊎◌, refl, true, false, List, [], ◌∷◌, none, some, All,
}
use ollum_sales.Text.{text, same}
use ollum_sales.Exec.{ok}
use ollum_sales.Table.{find}
use ollum_sales.Schema.{Db, AutopilotMode}
use ollum_sales.Drafts.Calls.{release, Keyed}
use ollum_sales.Sends.{new_request}
use ollum_sales.Service.{
  World, Outside, BridgeAnswer, answers, raises, Counts, process_send_requests,
}
use ollum_sales.Service.Parts.{IsOver}
use ollum_sales.Service.Passes.{delivered, Distinct}
use ollum_sales.Service.Once.{Event, pass, edits, queues, history, deliver_once}
use ollum_sales.Service.Gate.{IsOff, Accounted, Settings, start, IsAllowed, start_gated, pass_gated}
use ollum_sales.Tests.Board.{board}

abbrev queue : Db
queue = record board { requests = new_request 5 (text "r") (text "d") ∷ [] }

-- the bridge is blocked first, then raises, and then sends
abbrev bridge_answer : ℕ → BridgeAnswer
bridge_answer zero = answers false true
bridge_answer (suc zero) = raises (text "timeout")
bridge_answer (suc (suc n)) = answers true false

abbrev outside : Outside
outside = record {
  clock = λ n. n;
  ids = λ n. text "i";
  sender = λ n recipient message. bridge_answer n;
  text_of = λ e. text "trouble";
}

abbrev world : World
world = record { db = queue; readings = 0; ids_used = 0; log = [] }

abbrev events : List Event
events =
    pass false true true
    ∷ queues 8 (text "r2") (text "d")
    ∷ pass false true true
    ∷ edits (release 9 (text "d"))
    ∷ queues 10 (text "r3") (text "d")
    ∷ pass false true true
    ∷ []

queue-Keyed : Keyed queue
unfolding find same
queue-Keyed = (refl, (refl, tt))

deliver_once_example :
    Distinct (delivered (history outside world events).log)
    × All
        (λ k. IsOver k (history outside world events).db)
        (delivered (history outside world events).log)
deliver_once_example = deliver_once outside world events queue-Keyed refl

pass_gated_example :
    (IsOff false true true
      × ((c : Counts) × (process_send_requests outside false true true world
            ≡ (ok c, record world { readings = 1 }))
          × (c.pending ≡ min 50 (waiting queue))
          × (c.sent ≡ 0)
          × (c.failed ≡ 0)))
    ⊎ ((false ≡ false)
        × (true ≡ true)
        × (true ≡ true)
        × Accounted outside
            (min 50 (waiting queue))
            (process_send_requests outside false true true world).0)
pass_gated_example = pass_gated outside false true true world

abbrev settings : Settings
settings = record {
  default_mode = text "safe";
  interval_minutes = 30;
  max_verticals_per_cycle = 3;
  leads_per_vertical = 10;
  score_threshold = 55;
  min_training_leads = 5;
  allow_autopilot_send = true;
  allow_whatsapp_send = true;
}

start_gated_example :
    ((start settings 7 (some (text "auto")) none none none none true queue).1 ≡ queue)
    ⊎ (((start settings 7 (some (text "auto")) none none none none true queue).1.autopilot.mode
          ≡ AutopilotMode.safe)
        ⊎ IsAllowed settings true queue)
start_gated_example = start_gated settings 7 (some (text "auto")) none none none none true queue
