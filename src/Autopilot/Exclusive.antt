-- ===== src/Autopilot/Exclusive.antt =====
-- The invariant of the autopilot, for each of its calls (app/crm.py).
use ollum_sales.Prelude.{
  ℕ, ◌≡◌, refl, Bool, false, not, ◌&&◌, List, [], ◌∷◌, Option, none, some, arith, All, All-append,
  Bool-cases, Option-cases, inl, inr, ◌==◌,
}
use ollum_sales.Text.{Text, is_empty, given}
use ollum_sales.Exec.{Result, ok, err, transaction, Reads}
use ollum_sales.Clock.{stamp}
use ollum_sales.Table.{find, update, count, exists}
use ollum_sales.Table.Laws.{IsKeyed, update-IsKeyed, insert-IsKeyed, find-exists}
use ollum_sales.Schema.{Db, Cycle, Failure, validate_status, autopilot_modes, integrity_error}
use ollum_sales.Autopilot.{
  cycle_at, running_at, set_cycles, stopped_error, start_autopilot, stop_autopilot, fail_current,
  fail_cycle, recover_stale, stale_error, new_cycle, insert_cycle, begin_autopilot_cycle, is_after,
  set_verticals_row, set_verticals, get_autopilot_cycle, finish_row, finish_cycle,
}
use ollum_sales.Autopilot.Running.{Runs, Runs-update, Runs-end, Runs-idle, Runs-current}

abbrev cycle_id : Cycle → Text
cycle_id c = c.id

abbrev IsNamed : Cycle → Type 0
IsNamed c = is_empty c.id ≡ false

-- Cycle ids are unique and not empty, and only the current cycle runs.
pub record IsExclusive (db : Db) : Type 0 where
  pub keyed : IsKeyed cycle_id db.cycles
  pub named : All IsNamed db.cycles
  pub runs : Runs db.autopilot.current_cycle_id db.cycles

update-named :
    (p : Cycle → Bool) (f : Cycle → Cycle) (cs : List Cycle)
    → ((c : Cycle) → (f c).id ≡ c.id)
    → All IsNamed cs
    → All IsNamed (update p f cs)
unfolding update
update-named p f [] id h = tt
update-named p f (c ∷ cs) id h = elim (Bool-cases (p c)) [
  | inl e ↦ rw (e, id c) (h.0, update-named p f cs id h.1)
  | inr e ↦ rw e (h.0, update-named p f cs id h.1)
]

Runs-unnamed : (cs : List Cycle) → All IsNamed cs → Runs (some []) cs → Runs none cs
Runs-unnamed [] n h = tt
Runs-unnamed (c ∷ cs) n h = ((λ r. absurd (ground (arith, h.0 r))), Runs-unnamed cs n.1 h.1)

-- The state without a current cycle, after the current one has been failed.
fail_current-idle :
    (t : ℕ) (e : Text) (current : Option Text) (db : Db)
    → All IsNamed db.cycles
    → Runs current db.cycles
    → Runs none (fail_current t e current db).cycles
unfolding fail_current set_cycles
fail_current-idle t e none db n h = h
fail_current-idle t e (some []) db n h = Runs-unnamed db.cycles n h
fail_current-idle t e (some (c ∷ k)) db n h =
    Runs-end (some (c ∷ k)) (c ∷ k) (fail_cycle t e) db.cycles (λ _. refl) refl h

fail_current-named :
    (t : ℕ) (e : Text) (current : Option Text) (db : Db)
    → All IsNamed db.cycles
    → All IsNamed (fail_current t e current db).cycles
unfolding fail_current set_cycles
fail_current-named t e none db n = n
fail_current-named t e (some []) db n = n
fail_current-named t e (some (c ∷ k)) db n =
    update-named (running_at (c ∷ k)) (fail_cycle t e) db.cycles (λ _. refl) n

fail_current-IsKeyed :
    (t : ℕ) (e : Text) (current : Option Text) (db : Db)
    → IsKeyed cycle_id db.cycles
    → IsKeyed cycle_id (fail_current t e current db).cycles
unfolding fail_current set_cycles
fail_current-IsKeyed t e none db u = u
fail_current-IsKeyed t e (some []) db u = u
fail_current-IsKeyed t e (some (c ∷ k)) db u =
    update-IsKeyed cycle_id (running_at (c ∷ k)) (fail_cycle t e) db.cycles (λ _. refl) u

pub start-IsExclusive :
    (db : Db) (t : ℕ) (mode : Text) (a b c d : ℕ)
    → IsExclusive db
    → IsExclusive (start_autopilot t mode a b c d db).1
unfolding start_autopilot
start-IsExclusive db t mode a b c d h = elim (Option-cases (validate_status mode autopilot_modes)) [
  | inl e ↦ rw e h
  | inr (m, e) ↦ rw e (record { keyed = h.keyed; named = h.named; runs = h.runs })
]

pub stop-IsExclusive :
    (db : Db) (t t' : ℕ) → IsExclusive db → IsExclusive (stop_autopilot t t' db).1
unfolding stop_autopilot
stop-IsExclusive db t t' h = record {
  keyed = fail_current-IsKeyed t stopped_error db.autopilot.current_cycle_id db h.keyed;
  named = fail_current-named t stopped_error db.autopilot.current_cycle_id db h.named;
  runs = fail_current-idle t stopped_error db.autopilot.current_cycle_id db h.named h.runs;
}

recover-IsExclusive : (db : Db) (t : ℕ) → IsExclusive db → IsExclusive (recover_stale t db)
unfolding recover_stale
recover-IsExclusive db t h = elim (Bool-cases (given db.autopilot.current_cycle_id)) [
  | inl e ↦ rw e (record {
    keyed = fail_current-IsKeyed t stale_error db.autopilot.current_cycle_id db h.keyed;
    named = fail_current-named t stale_error db.autopilot.current_cycle_id db h.named;
    runs = fail_current-idle t stale_error db.autopilot.current_cycle_id db h.named h.runs;
  })
  | inr e ↦ rw e h
]

-- After the recovery no cycle runs.
recover-idle : (db : Db) (t : ℕ) → IsExclusive db → Runs none (recover_stale t db).cycles
unfolding recover_stale
recover-idle db t h = elim (Bool-cases (given db.autopilot.current_cycle_id)) [
  | inl e ↦ rw e (fail_current-idle t stale_error db.autopilot.current_cycle_id db h.named h.runs)
  | inr e ↦ rw e (not_given db.autopilot.current_cycle_id e h.runs)
]
  where
    not_given :
        (current : Option Text)
        → given current ≡ false
        → Runs current db.cycles
        → Runs none db.cycles
    not_given none e r = r
    not_given (some []) e r = Runs-unnamed db.cycles h.named r
    not_given (some (c ∷ k)) e r = cc

-- How `begin_autopilot_cycle` can end.
pub begin_cases :
    (P : Result Failure (Option Cycle) × Db → Type 0) (db : Db) (force : Bool) (now : ℕ)
    (fresh : Text)
    → P (ok none, db)
    → P (ok none, recover_stale (stamp now) db)
    → P (err integrity_error, db)
    → (is_after db.autopilot.lock_until now ≡ false
        → find (cycle_at fresh) (recover_stale (stamp now) db).cycles ≡ none
        → P (
          ok (some (new_cycle (stamp now) fresh db.autopilot.mode)),
          insert_cycle now fresh db.autopilot.mode (recover_stale (stamp now) db),
        ))
    → P (begin_autopilot_cycle force now fresh db)
unfolding begin_autopilot_cycle
begin_cases P db force now fresh idle early taken begun =
    elim (Bool-cases (not force && not db.autopilot.running)) [
      | inl a ↦ rw a idle
      | inr a ↦ elim (Bool-cases (is_after db.autopilot.lock_until now)) [
        | inl b ↦ rw (a, b) idle
        | inr b ↦ elim (Bool-cases (not force && is_after db.autopilot.next_cycle_at now)) [
          | inl c ↦ rw (a, b, c) early
          | inr c ↦
              elim (Bool-cases (exists (cycle_at fresh) (recover_stale (stamp now) db).cycles)) [
                | inl d ↦ rw (a, b, c, d) taken
                | inr d ↦
                    rw (a, b, c, d)
                      (begun b
                        (find-exists (cycle_at fresh) (recover_stale (stamp now) db).cycles d))
              ]
        ]
      ]
    ]

abbrev After : {A : Type 0} → Result Failure A × Db → Type 0
After x = IsExclusive x.1

pub begin-IsExclusive :
    (db : Db) (force : Bool) (now : ℕ) (fresh : Text)
    → is_empty fresh ≡ false
    → IsExclusive db
    → IsExclusive (begin_autopilot_cycle force now fresh db).1
unfolding insert_cycle
begin-IsExclusive db force now fresh n h =
    let r = recover-IsExclusive db (stamp now) h in
    begin_cases After db force now fresh h r h (λ free absent. record {
      keyed =
          insert-IsKeyed cycle_id (new_cycle (stamp now) fresh db.autopilot.mode)
            (recover_stale (stamp now) db).cycles r.keyed absent;
      named =
          All-append IsNamed (recover_stale (stamp now) db).cycles
            (new_cycle (stamp now) fresh db.autopilot.mode ∷ []) r.named (n, tt);
      runs =
          All-append _ (recover_stale (stamp now) db).cycles
            (new_cycle (stamp now) fresh db.autopilot.mode ∷ [])
            (Runs-idle (some fresh) (recover_stale (stamp now) db).cycles
              (recover-idle db (stamp now) h))
            ((λ _. refl), tt);
    })

pub get_autopilot_cycle-Reads : (k : Text) → Reads (get_autopilot_cycle k)
unfolding get_autopilot_cycle
get_autopilot_cycle-Reads k db = ground arith

pub verticals_row-IsExclusive :
    (db : Db) (k v : Text) → IsExclusive db → IsExclusive (transaction (set_verticals_row k v) db).1
unfolding set_verticals_row set_cycles
verticals_row-IsExclusive db k v h = elim (Bool-cases (count (running_at k) db.cycles == 1)) [
  | inl e ↦ rw e (record {
    keyed = update-IsKeyed cycle_id (running_at k) (set_verticals v) db.cycles (λ _. refl) h.keyed;
    named = update-named (running_at k) (set_verticals v) db.cycles (λ _. refl) h.named;
    runs =
        Runs-update db.autopilot.current_cycle_id (running_at k) (set_verticals v) db.cycles
          (λ _. refl) (λ _ r. r) h.runs;
  })
  | inr e ↦ rw e h
]

pub finish_row-IsExclusive :
    (db : Db) (t next : ℕ) (k metrics : Text) (error : Option Text)
    → IsExclusive db
    → IsExclusive (transaction (finish_row t next k metrics error) db).1
unfolding finish_row set_cycles
finish_row-IsExclusive db t next k metrics error h =
    elim (Bool-cases (count (running_at k) db.cycles == 1)) [
      | inl e ↦ rw e (record {
        keyed =
            update-IsKeyed cycle_id (running_at k) (finish_cycle t metrics error) db.cycles
              (λ _. refl) h.keyed;
        named =
            update-named (running_at k) (finish_cycle t metrics error) db.cycles (λ _. refl)
              h.named;
        runs =
            Runs-end db.autopilot.current_cycle_id k (finish_cycle t metrics error) db.cycles
              (λ c. ground arith)
              (Runs-current db.autopilot.current_cycle_id k db.cycles h.runs (ground arith)) h.runs;
      })
      | inr e ↦ rw e h
    ]
