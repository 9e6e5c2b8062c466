-- ===== src/Autopilot.antt =====
-- The autopilot's state and its cycles (app/crm.py): `start_autopilot`, `stop_autopilot`,
-- `begin_autopilot_cycle`, `set_cycle_verticals`, `get_autopilot_cycle` and
-- `complete_autopilot_cycle`. A clock reading `now` is in microseconds and a `timestamp` in
-- seconds; `fresh` is the id that `uuid4` gives, and a JSON text is the text that is stored.
pub mod Running
pub mod Exclusive
pub mod Runs
pub mod Lock
use ollum_sales.Prelude.{
  ℕ, ◌+◌, ◌*◌, Bool, true, false, not, ◌&&◌, Option, none, some, min, max, ltb, ◌==◌, if◌then◌else◌,
}
use ollum_sales.Text.{Text, text, same, given}
use ollum_sales.Exec.{ok, err, pure, gets, or_raise, modify, raise_if, transaction, ◌>>=◌, ◌>>◌}
use ollum_sales.Table.{find, update, count, insert, exists}
use ollum_sales.Clock.{second, stamp}
use ollum_sales.Schema.{
  Db, Cycle, AutopilotState, AutopilotMode, CycleStatus, Crm, autopilot_modes, validate_status,
  is_running, bad_mode, integrity_error, cycle_not_running, cycle_not_found,
}

abbrev pub clamp : ℕ → ℕ → ℕ → ℕ
clamp lo hi n = max lo (min n hi)

abbrev pub cycle_at : Text → Cycle → Bool
cycle_at k c = same c.id k

abbrev pub running_at : Text → Cycle → Bool
running_at k c = cycle_at k c && is_running c.status

unfoldable pub set_cycles : (Cycle → Bool) → (Cycle → Cycle) → Db → Db
set_cycles p f db = record db { cycles = update p f db.cycles }

-- A negative argument is clamped like 0.
unfoldable pub start_autopilot : ℕ → Text → ℕ → ℕ → ℕ → ℕ → Crm AutopilotState
start_autopilot timestamp mode interval_minutes max_verticals leads_per_vertical score_threshold =
    do
      clean ← or_raise (validate_status mode autopilot_modes) bad_mode
      modify (λ db. record db {
        autopilot = record db.autopilot {
          running = true;
          mode = clean;
          interval_minutes = clamp 5 1440 interval_minutes;
          max_verticals_per_cycle = clamp 1 10 max_verticals;
          leads_per_vertical = clamp 1 50 leads_per_vertical;
          score_threshold = min score_threshold 100;
          next_cycle_at = some timestamp;
          last_error = none;
          updated_at = timestamp;
        };
      })
      gets (λ db. db.autopilot)

abbrev pub fail_cycle : ℕ → Text → Cycle → Cycle
fail_cycle timestamp error c = record c {
  status = CycleStatus.failed;
  error = some error;
  completed_at = some timestamp;
}

-- UPDATE autopilot_cycles SET status = 'failed' … WHERE id = ? AND status = 'running', if there is
-- a current cycle
unfoldable pub fail_current : ℕ → Text → Option Text → Db → Db
unfolding set_cycles
fail_current timestamp error none db = db
fail_current timestamp error (some k) db =
    if given (some k) then set_cycles (running_at k) (fail_cycle timestamp error) db else db

abbrev pub stopped_error : Text
stopped_error = text "Autopilot was stopped by the operator."

-- The two readings of the clock are `timestamp` and `later`.
unfoldable pub stop_autopilot : ℕ → ℕ → Crm AutopilotState
unfolding fail_current
stop_autopilot timestamp later = do
  modify (λ db. fail_current timestamp stopped_error db.autopilot.current_cycle_id db)
  modify (λ db. record db {
    autopilot = record db.autopilot {
      running = false;
      next_cycle_at = none;
      lock_until = none;
      current_cycle_id = none;
      updated_at = later;
    };
  })
  gets (λ db. db.autopilot)

-- Is a time of the state's columns after `now`?
abbrev pub is_after : Option ℕ → ℕ → Bool
is_after none now = false
is_after (some t) now = ltb now (t * second)

abbrev pub stale_error : Text
stale_error = text "Recovered stale Autopilot cycle after its lock expired."

abbrev pub unlock : ℕ → AutopilotState → AutopilotState
unlock timestamp s = record s {
  current_cycle_id = none;
  lock_until = none;
  last_error = some stale_error;
  updated_at = timestamp;
}

-- if state["current_cycle_id"]: …
unfoldable pub recover_stale : ℕ → Db → Db
unfolding fail_current
recover_stale timestamp db =
    if given db.autopilot.current_cycle_id
    then (let failed = fail_current timestamp stale_error db.autopilot.current_cycle_id db in
        record failed { autopilot = unlock timestamp failed.autopilot })
    else db

abbrev pub new_cycle : ℕ → Text → AutopilotMode → Cycle
new_cycle timestamp fresh mode = record {
  id = fresh;
  mode = mode;
  status = CycleStatus.running;
  selected_verticals = text "[]";
  metrics = text "{}";
  error = none;
  started_at = timestamp;
  completed_at = none;
}

abbrev pub lock_seconds : ℕ
lock_seconds = 120 * 60

abbrev pub lock_cycle : ℕ → Text → AutopilotState → AutopilotState
lock_cycle now fresh s = record s {
  current_cycle_id = some fresh;
  lock_until = some (stamp (now + lock_seconds * second));
  updated_at = stamp now;
}

-- the two last statements of `begin_autopilot_cycle`
unfoldable pub insert_cycle : ℕ → Text → AutopilotMode → Db → Db
insert_cycle now fresh mode db = record db {
  cycles = insert (new_cycle (stamp now) fresh mode) db.cycles;
  autopilot = lock_cycle now fresh db.autopilot;
}

-- The primary key refuses an id that is there.
abbrev pub open_cycle : ℕ → Text → AutopilotMode → Crm (Option Cycle)
open_cycle now fresh mode db =
    if exists (cycle_at fresh) db.cycles
    then (err integrity_error, db)
    else (ok (some (new_cycle (stamp now) fresh mode)), insert_cycle now fresh mode db)

-- `none` where no cycle begins; the arguments are `force`, the clock and the new id.
unfoldable pub begin_autopilot_cycle : Bool → ℕ → Text → Crm (Option Cycle)
unfolding recover_stale insert_cycle
begin_autopilot_cycle force now fresh = transaction (λ db.
    let state = db.autopilot in
    if not force && not state.running
    then (ok none, db)
    else if is_after state.lock_until now
    then (ok none, db)
    else if not force && is_after state.next_cycle_at now
    then (ok none, recover_stale (stamp now) db)
    else open_cycle now fresh state.mode (recover_stale (stamp now) db))

unfoldable pub get_autopilot_cycle : Text → Crm Cycle
get_autopilot_cycle cycle_id = do
  row ← transaction (gets (λ db. find (cycle_at cycle_id) db.cycles))
  or_raise row cycle_not_found

abbrev pub set_verticals : Text → Cycle → Cycle
set_verticals vertical_ids c = record c { selected_verticals = vertical_ids }

-- the transaction of `set_cycle_verticals`
unfoldable pub set_verticals_row : Text → Text → Crm (Unit {0})
unfolding set_cycles
set_verticals_row cycle_id vertical_ids = do
  rowcount ← gets (λ db. count (running_at cycle_id) db.cycles)
  modify (set_cycles (running_at cycle_id) (set_verticals vertical_ids))
  raise_if (not (rowcount == 1)) cycle_not_running

unfoldable pub set_cycle_verticals : Text → Text → Crm Cycle
set_cycle_verticals cycle_id vertical_ids = do
  transaction (set_verticals_row cycle_id vertical_ids)
  get_autopilot_cycle cycle_id

abbrev pub finish_cycle : ℕ → Text → Option Text → Cycle → Cycle
finish_cycle timestamp metrics error c = record c {
  status = if given error then CycleStatus.failed else CycleStatus.completed;
  metrics = metrics;
  error = error;
  completed_at = some timestamp;
}

abbrev pub release_cycle : ℕ → ℕ → Option Text → AutopilotState → AutopilotState
release_cycle timestamp next_cycle error s = record s {
  current_cycle_id = none;
  lock_until = none;
  last_cycle_at = some timestamp;
  next_cycle_at = if s.running then some next_cycle else none;
  last_error = error;
  updated_at = timestamp;
}

-- the transaction of `complete_autopilot_cycle`
unfoldable pub finish_row : ℕ → ℕ → Text → Text → Option Text → Crm (Unit {0})
unfolding set_cycles
finish_row timestamp next_cycle cycle_id metrics error = do
  rowcount ← gets (λ db. count (running_at cycle_id) db.cycles)
  modify (set_cycles (running_at cycle_id) (finish_cycle timestamp metrics error))
  raise_if (not (rowcount == 1)) cycle_not_running
  modify (λ db. record db { autopilot = release_cycle timestamp next_cycle error db.autopilot })

unfoldable pub complete_autopilot_cycle : ℕ → Text → Text → Option Text → Crm Cycle
complete_autopilot_cycle now cycle_id metrics error = do
  state ← gets (λ db. db.autopilot)
  transaction (
      finish_row (stamp now) (stamp (now + state.interval_minutes * 60 * second)) cycle_id metrics
        error)
  get_autopilot_cycle cycle_id
