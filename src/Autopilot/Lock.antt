-- ===== src/Autopilot/Lock.antt =====
-- The lock of a cycle (`begin_autopilot_cycle` of app/crm.py).
use ollum_sales.Prelude.{
  ℕ, ◌+◌, ◌*◌, ◌<◌, ◌≡◌, refl, sym, ap, ◌∙◌, Bool, true, false, List, [], ◌∷◌, Option, none, some,
  arith, All, Bool-cases, Option-cases, inl, inr, ◌==◌,
}
use mathlib.Core.Path.{subst}
use ollum_sales.Text.{Text, same, is_empty}
use ollum_sales.Text.Laws.{same_iff}
use ollum_sales.Exec.{Result, ok, err, transaction, bind_reader}
use ollum_sales.Table.{count}
use ollum_sales.Clock.{second, stamp}
use ollum_sales.Schema.{Db, Cycle, AutopilotState, Failure, validate_status, autopilot_modes}
use ollum_sales.Autopilot.{
  running_at, start_autopilot, begin_autopilot_cycle, insert_cycle, is_after, lock_seconds,
  set_cycles, set_cycle_verticals, set_verticals_row, get_autopilot_cycle, complete_autopilot_cycle,
  finish_row,
}
use ollum_sales.Autopilot.Running.{Runs-current}
use ollum_sales.Autopilot.Exclusive.{
  IsExclusive, begin_cases, start-IsExclusive, begin-IsExclusive, get_autopilot_cycle-Reads,
}
use ollum_sales.Autopilot.Runs.{
  AutopilotCall, start, stop, begin, choose, complete, after, after-IsExclusive, run,
}

-- What holds of the state when a cycle has begun at `now`.
abbrev Locked : ℕ → Result Failure (Option Cycle) × Db → Type 0
Locked now (ok (some c), db) =
    (db.autopilot.current_cycle_id ≡ some c.id)
    × (db.autopilot.lock_until ≡ some (stamp (now + lock_seconds * second)))
Locked now (ok none, db) = Unit
Locked now (err e, db) = Unit

begin-Locked :
    (db : Db) (force : Bool) (now : ℕ) (fresh : Text)
    → Locked now (begin_autopilot_cycle force now fresh db)
unfolding insert_cycle
begin-Locked db force now fresh =
    begin_cases (Locked now) db force now fresh tt tt tt (λ _ _. (refl, refl))

locked_refuses :
    (db : Db) (force : Bool) (now : ℕ) (fresh : Text)
    → is_after db.autopilot.lock_until now ≡ true
    → begin_autopilot_cycle force now fresh db ≡ (ok none, db)
unfolding begin_autopilot_cycle
locked_refuses db force now fresh h = ground arith

abbrev IsHeld : ℕ → Text → Db → Type 0
IsHeld until k db =
    (db.autopilot.lock_until ≡ some until)
    × (db.autopilot.current_cycle_id ≡ some k)
    × IsExclusive db

-- A call that neither ends the cycle of the given id nor comes after its lock: a start, a try to begin,
-- a choice of verticals, and the completion of another cycle.
abbrev pub Spares : ℕ → Text → AutopilotCall → Type 0
Spares until k (start t mode a b c d) = Unit
Spares until k (stop t t') = ⊥
Spares until k (begin force now fresh named) = now < until * second
Spares until k (choose id v) = Unit
Spares until k (complete now id metrics error) = same id k ≡ false

started-state :
    (db : Db) (t : ℕ) (mode : Text) (a b c d : ℕ)
    → ((start_autopilot t mode a b c d db).1.autopilot.lock_until ≡ db.autopilot.lock_until)
      × ((start_autopilot t mode a b c d db).1.autopilot.current_cycle_id
          ≡ db.autopilot.current_cycle_id)
unfolding start_autopilot
started-state db t mode a b c d = elim (Option-cases (validate_status mode autopilot_modes)) [
  | inl e ↦ rw e (refl, refl)
  | inr (m, e) ↦ rw e (refl, refl)
]

chosen-state : (db : Db) (k v : Text) → (set_cycle_verticals k v db).1.autopilot ≡ db.autopilot
unfolding set_cycle_verticals set_verticals_row set_cycles
chosen-state db k v =
    ap (λ (x : Db). x.autopilot)
      (bind_reader (transaction (set_verticals_row k v)) (λ _. get_autopilot_cycle k) db
        (λ _. get_autopilot_cycle-Reads k))
    ∙ elim (Bool-cases (count (running_at k) db.cycles == 1)) [
      | inl e ↦ rw e refl
      | inr e ↦ rw e refl
    ]

-- Only the current cycle can be completed.
completed-other :
    (db : Db) (now : ℕ) (k id metrics : Text) (error : Option Text)
    → db.autopilot.current_cycle_id ≡ some k
    → IsExclusive db
    → same id k ≡ false
    → (complete_autopilot_cycle now id metrics error db).1 ≡ db
unfolding complete_autopilot_cycle finish_row
completed-other db now k id metrics error current h n =
    let next = stamp (now + db.autopilot.interval_minutes * 60 * second) in
    bind_reader (transaction (finish_row (stamp now) next id metrics error))
      (λ _. get_autopilot_cycle id) db (λ _. get_autopilot_cycle-Reads id)
    ∙ elim (Bool-cases (count (running_at id) db.cycles == 1)) [
      | inl e ↦
          let own : db.autopilot.current_cycle_id ≡ some id =
            Runs-current db.autopilot.current_cycle_id id db.cycles h.runs (ground arith) in
          absurd (ground (arith, current, own, same_iff id k))
      | inr e ↦ rw e refl
    ]

held_refuses :
    (until : ℕ) (k : Text) (db : Db) (force : Bool) (now : ℕ) (fresh : Text)
    → IsHeld until k db
    → now < until * second
    → begin_autopilot_cycle force now fresh db ≡ (ok none, db)
held_refuses until k db force now fresh h lt =
    locked_refuses db force now fresh (rw (h.0) (ground arith))

after-IsHeld :
    (until : ℕ) (k : Text) (db : Db) (c : AutopilotCall)
    → IsHeld until k db
    → Spares until k c
    → IsHeld until k (after db c)
unfolding after
after-IsHeld until k db (start t mode a b c d) h s =
    let (l, i) = started-state db t mode a b c d in
    (l ∙ h.0, i ∙ h.1, start-IsExclusive db t mode a b c d h.2)
after-IsHeld until k db (stop t t') h s = elim s [ ]
after-IsHeld until k db (begin force now fresh n) h s =
    subst (λ (x : Result Failure (Option Cycle) × Db). IsHeld until k x.1)
      (sym (held_refuses until k db force now fresh h s)) h
after-IsHeld until k db (choose id v) h s = (
  ap (λ (x : AutopilotState). x.lock_until) (chosen-state db id v) ∙ h.0,
  ap (λ (x : AutopilotState). x.current_cycle_id) (chosen-state db id v) ∙ h.1,
  after-IsExclusive db (choose id v) h.2,
)
after-IsHeld until k db (complete now id metrics error) h s =
    subst (IsHeld until k) (sym (completed-other db now k id metrics error h.1 h.2 s)) h

run-IsHeld :
    (until : ℕ) (k : Text) (db : Db) (cs : List AutopilotCall)
    → IsHeld until k db
    → All (Spares until k) cs
    → IsHeld until k (run db cs)
unfolding run
run-IsHeld until k db [] h a = h
run-IsHeld until k db (c ∷ cs) h a =
    run-IsHeld until k (after db c) cs (after-IsHeld until k db c h a.0) a.1

-- From a state in which cycle ids are unique and not empty and only the current cycle runs: after a
-- call that began a cycle, and any further starts, choices of verticals, completions of other cycles
-- and tries to begin, in any order and with no stop, a try to begin, by force or not, begins no cycle
-- and leaves the database as it was, if all the tries come before the second in which two hours
-- have passed.
pub begin_once :
    (db db' : Db) (force force' : Bool) (now now' : ℕ) (fresh fresh' : Text) (c : Cycle)
    (cs : List AutopilotCall)
    → IsExclusive db
    → is_empty fresh ≡ false
    → begin_autopilot_cycle force now fresh db ≡ (ok (some c), db')
    → All (Spares (stamp (now + lock_seconds * second)) c.id) cs
    → now' < stamp (now + lock_seconds * second) * second
    → begin_autopilot_cycle force' now' fresh' (run db' cs) ≡ (ok none, run db' cs)
begin_once db db' force force' now now' fresh fresh' c cs x n h a lt =
    let until = stamp (now + lock_seconds * second) in
    let locked = subst (Locked now) h (begin-Locked db force now fresh) in
    let exclusive : IsExclusive db' =
      subst (λ (y : Result Failure (Option Cycle) × Db). IsExclusive y.1) h
        (begin-IsExclusive db force now fresh n x) in
    held_refuses until c.id (run db' cs) force' now' fresh'
      (run-IsHeld until c.id db' cs (locked.1, locked.0, exclusive) a) lt
