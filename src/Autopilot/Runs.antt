-- ===== src/Autopilot/Runs.antt =====
-- Sequences of calls on the autopilot (app/crm.py).
use ollum_sales.Prelude.{ℕ, ◌+◌, ◌*◌, ◌≤◌, ◌≡◌, Bool, false, List, [], ◌∷◌, Option}
use ollum_sales.Text.{Text, is_empty}
use ollum_sales.Exec.{transaction, bind_reader}
use ollum_sales.Clock.{second, stamp}
use ollum_sales.Table.{count}
use ollum_sales.Schema.{Db, is_running}
use ollum_sales.Autopilot.{
  start_autopilot, stop_autopilot, begin_autopilot_cycle, set_cycle_verticals, set_verticals_row,
  get_autopilot_cycle, finish_row, complete_autopilot_cycle,
}
use ollum_sales.Autopilot.Running.{count_running-le}
use ollum_sales.Autopilot.Exclusive.{
  IsExclusive, start-IsExclusive, stop-IsExclusive, begin-IsExclusive, verticals_row-IsExclusive,
  finish_row-IsExclusive, get_autopilot_cycle-Reads,
}

-- The calls on the autopilot, with their clocks, fresh id and arguments.
pub data AutopilotCall : Type 0 where
  start : ℕ → Text → ℕ → ℕ → ℕ → ℕ → AutopilotCall
  stop : ℕ → ℕ → AutopilotCall
  begin : Bool → ℕ → (fresh : Text) → is_empty fresh ≡ false → AutopilotCall
  choose : Text → Text → AutopilotCall
  complete : ℕ → Text → Text → Option Text → AutopilotCall

unfoldable pub after : Db → AutopilotCall → Db
after db (start t mode a b c d) = (start_autopilot t mode a b c d db).1
after db (stop t t') = (stop_autopilot t t' db).1
after db (begin force now fresh _) = (begin_autopilot_cycle force now fresh db).1
after db (choose k v) = (set_cycle_verticals k v db).1
after db (complete now k metrics error) = (complete_autopilot_cycle now k metrics error db).1

pub after-IsExclusive : (db : Db) (c : AutopilotCall) → IsExclusive db → IsExclusive (after db c)
unfolding after set_cycle_verticals complete_autopilot_cycle
after-IsExclusive db (start t mode a b c d) h = start-IsExclusive db t mode a b c d h
after-IsExclusive db (stop t t') h = stop-IsExclusive db t t' h
after-IsExclusive db (begin force now fresh n) h = begin-IsExclusive db force now fresh n h
after-IsExclusive db (choose k v) h =
    rw
      (bind_reader (transaction (set_verticals_row k v)) (λ _. get_autopilot_cycle k) db
        (λ _. get_autopilot_cycle-Reads k))
      (verticals_row-IsExclusive db k v h)
after-IsExclusive db (complete now k metrics error) h =
    let next = stamp (now + db.autopilot.interval_minutes * 60 * second) in
    rw
      (bind_reader (transaction (finish_row (stamp now) next k metrics error))
        (λ _. get_autopilot_cycle k) db (λ _. get_autopilot_cycle-Reads k))
      (finish_row-IsExclusive db (stamp now) next k metrics error h)

unfoldable pub run : Db → List AutopilotCall → Db
run db [] = db
run db (c ∷ cs) = run (after db c) cs

-- From a state in which cycle ids are unique and not empty and only the current cycle runs, any
-- sequence of starts, stops, beginnings under ids that are not empty, choices of verticals and
-- completions leads to such a state, and in it at most one cycle runs.
pub run-IsExclusive :
    (db : Db) (cs : List AutopilotCall)
    → IsExclusive db
    → IsExclusive (run db cs) × (count (λ c. is_running c.status) (run db cs).cycles ≤ 1)
unfolding run
run-IsExclusive db [] h =
    (h, count_running-le db.autopilot.current_cycle_id db.cycles h.keyed h.runs)
run-IsExclusive db (c ∷ cs) h = run-IsExclusive (after db c) cs (after-IsExclusive db c h)
