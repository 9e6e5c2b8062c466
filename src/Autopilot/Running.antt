-- ===== src/Autopilot/Running.antt =====
-- The cycles that run, and the current cycle of the state (tables of app/crm.py).
use ollum_sales.Prelude.{
  ◌≤◌, ◌≡◌, refl, Bool, true, false, List, [], ◌∷◌, Option, none, some, arith, All, Bool-cases, inl,
  inr,
}
use ollum_sales.Text.{Text}
use ollum_sales.Text.Laws.{same_iff}
use ollum_sales.Table.{update, count}
use ollum_sales.Table.Laws.{IsKeyed, count-at}
use ollum_sales.Schema.{Cycle, is_running}
use ollum_sales.Autopilot.{running_at}

abbrev RunsOnly : Option Text → Cycle → Type 0
RunsOnly current c = is_running c.status ≡ true → current ≡ some c.id

-- Every cycle that runs is the current one.
abbrev pub Runs : Option Text → List Cycle → Type 0
Runs current cs = All (RunsOnly current) cs

pub Runs-update :
    (current : Option Text) (p : Cycle → Bool) (f : Cycle → Cycle) (cs : List Cycle)
    → ((c : Cycle) → (f c).id ≡ c.id)
    → ((c : Cycle) → is_running (f c).status ≡ true → is_running c.status ≡ true)
    → Runs current cs
    → Runs current (update p f cs)
unfolding update
Runs-update current p f [] id keeps h = tt
Runs-update current p f (c ∷ cs) id keeps h = elim (Bool-cases (p c)) [
  | inl e ↦ rw e ((λ r. rw (id c) (h.0 (keeps c r))), Runs-update current p f cs id keeps h.1)
  | inr e ↦ rw e (h.0, Runs-update current p f cs id keeps h.1)
]

-- Ending the current cycle leaves none that runs.
pub Runs-end :
    (current : Option Text) (k : Text) (f : Cycle → Cycle) (cs : List Cycle)
    → ((c : Cycle) → is_running (f c).status ≡ false)
    → current ≡ some k
    → Runs current cs
    → Runs none (update (running_at k) f cs)
unfolding update
Runs-end current k f [] ends e h = tt
Runs-end current k f (c ∷ cs) ends e h = elim (Bool-cases (running_at k c)) [
  | inl m ↦ rw m ((λ r. cc (r, ends c)), Runs-end current k f cs ends e h.1)
  | inr m ↦
      rw m
        ((λ r. absurd (ground (arith, h.0 r, same_iff c.id k))), Runs-end current k f cs ends e h.1)
]

pub Runs-idle : (current : Option Text) (cs : List Cycle) → Runs none cs → Runs current cs
Runs-idle current [] h = tt
Runs-idle current (c ∷ cs) h = ((λ r. absurd (ground (arith, h.0 r))), Runs-idle current cs h.1)

-- A cycle that an `UPDATE … WHERE id = ? AND status = 'running'` matched is the current one.
pub Runs-current :
    (current : Option Text) (k : Text) (cs : List Cycle)
    → Runs current cs
    → count (running_at k) cs ≡ 1
    → current ≡ some k
unfolding count
Runs-current current k [] h e = absurd (omega arith)
Runs-current current k (c ∷ cs) h e = elim (Bool-cases (running_at k c)) [
  | inl m ↦ ground (arith, h.0, same_iff c.id k)
  | inr m ↦ Runs-current current k cs h.1 (ground arith)
]

count-running :
    (k : Text) (cs : List Cycle)
    → Runs (some k) cs
    → count (λ c. is_running c.status) cs ≡ count (running_at k) cs
unfolding count
count-running k [] h = refl
count-running k (c ∷ cs) h = elim (Bool-cases (is_running c.status)) [
  | inl r ↦ ground (arith, h.0 r, same_iff c.id k, count-running k cs h.1)
  | inr r ↦ ground (arith, count-running k cs h.1)
]

count-idle : (cs : List Cycle) → Runs none cs → count (λ c. is_running c.status) cs ≡ 0
unfolding count
count-idle [] h = refl
count-idle (c ∷ cs) h = elim (Bool-cases (is_running c.status)) [
  | inl r ↦ absurd (ground (arith, h.0 r))
  | inr r ↦ ground (arith, count-idle cs h.1)
]

pub count_running-le :
    (current : Option Text) (cs : List Cycle)
    → IsKeyed (λ (c : Cycle). c.id) cs
    → Runs current cs
    → count (λ c. is_running c.status) cs ≤ 1
count_running-le none cs u h = omega (arith, count-idle cs h)
count_running-le (some k) cs u h =
    ground (
      arith,
      count-running k cs h,
      count-at (λ (c : Cycle). c.id) k (λ c. is_running c.status) cs u,
    )
