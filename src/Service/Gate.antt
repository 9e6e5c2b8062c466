-- ===== src/Service/Gate.antt =====
-- The gate of a start (`AutopilotService.start` of app/autopilot.py), and that of a pass.
-- `ensure_default_verticals` writes the table of verticals only, which the model does not have.
use ollum_sales.Service.Waiting.{waiting, waiting-listed}
use mathlib.Core.Path.{sym, subst}
use ollum_sales.Prelude.{
  ℕ, zero, suc, ◌+◌, ◌≡◌, ◌⊎◌, ◌≤◌, refl, ap, ◌∙◌, Bool, true, false, not, ◌&&◌, ◌||◌, List, [],
  ◌∷◌, ◌++◌, Option, none, some, arith, Bool-cases, inl, inr, if◌then◌else◌, length, ltb, take,
  length-take, min,
}
use ollum_sales.Text.{
  Text, text, same, strip, lstrip, rstrip, cons_stripped, lower, lower_char, is_space,
}
use ollum_sales.Text.Laws.{same_iff}
use ollum_sales.Exec.{Result, ok, err, pure, bind_reader, bind_returned, pure_returned, ◌>>=◌}
use ollum_sales.Schema.{
  Db, SendRequest, is_pending_request, Crm, AutopilotState, AutopilotMode, validate_status, named,
}
use ollum_sales.Table.{select, order_by}
use ollum_sales.Autopilot.{start_autopilot}
use ollum_sales.Sends.{PendingSend, join_drafts, list_pending_send_requests}
use ollum_sales.Service.{
  World, Outside, Trouble, Counts, act, process_request, process_requests, process_send_requests,
}

pub record Settings : Type 0 where
  pub default_mode : Text
  pub interval_minutes : ℕ
  pub max_verticals_per_cycle : ℕ
  pub leads_per_vertical : ℕ
  pub score_threshold : ℕ
  pub min_training_leads : ℕ
  pub allow_autopilot_send : Bool
  pub allow_whatsapp_send : Bool

pub data Blocker : Type 0 where
  not_confirmed few_training_leads autopilot_send_disabled whatsapp_send_disabled : Blocker

pub data Start : Type 0 where
  blocked : Text → List Blocker → Start
  started : AutopilotState → Start

-- `value or default`
abbrev pub or_text : Option Text → Text → Text
or_text none t = t
or_text (some []) t = t
or_text (some (c ∷ s)) t = c ∷ s

abbrev pub or_number : Option ℕ → ℕ → ℕ
or_number none n = n
or_number (some zero) n = n
or_number (some (suc m)) n = suc m

-- `value if value is not None else default`
abbrev pub if_given : Option ℕ → ℕ → ℕ
if_given none n = n
if_given (some m) n = m

abbrev pub blocker : Bool → Blocker → List Blocker
blocker true b = b ∷ []
blocker false b = []

unfoldable pub blockers : Settings → Bool → Db → List Blocker
blockers s confirm db =
    blocker (not confirm) not_confirmed
    ++ blocker (ltb (length db.leads) s.min_training_leads) few_training_leads
    ++ blocker (not s.allow_autopilot_send) autopilot_send_disabled
    ++ blocker (not s.allow_whatsapp_send) whatsapp_send_disabled

abbrev pub any : List Blocker → Bool
any [] = false
any (b ∷ bs) = true

-- The optional arguments stand in the order of the source.
unfoldable pub start :
    Settings → ℕ → Option Text → Option ℕ → Option ℕ → Option ℕ → Option ℕ → Bool → Crm Start
unfolding blockers
start s timestamp mode interval verticals leads score confirm db =
    let selected = lower (strip (or_text mode s.default_mode)) in
    if not (same selected (text "safe")) && any (blockers s confirm db)
    then (ok (blocked selected (blockers s confirm db)), db)
    else (do
      state ←
          start_autopilot timestamp selected (or_number interval s.interval_minutes)
            (or_number verticals s.max_verticals_per_cycle) (or_number leads s.leads_per_vertical)
            (if_given score s.score_threshold)
      pure (started state))
        db

-- A start in a mode other than safe has passed the gate.
pub record IsAllowed (s : Settings) (confirm : Bool) (db : Db) : Type 0 where
  pub confirmed : confirm ≡ true
  pub trained : s.min_training_leads ≤ length db.leads
  pub autopilot_send : s.allow_autopilot_send ≡ true
  pub whatsapp_send : s.allow_whatsapp_send ≡ true

no_blockers :
    (s : Settings) (confirm : Bool) (db : Db)
    → any (blockers s confirm db) ≡ false
    → IsAllowed s confirm db
unfolding blockers
no_blockers s confirm db h = record {
  confirmed = ground arith;
  trained = ground arith;
  autopilot_send = ground arith;
  whatsapp_send = ground arith;
}

safe_start :
    (t interval verticals leads score : ℕ) (db : Db) (selected : Text)
    → selected ≡ text "safe"
    → (start_autopilot t selected interval verticals leads score db).1.autopilot.mode
      ≡ AutopilotMode.safe
unfolding start_autopilot validate_status named same strip lstrip rstrip cons_stripped lower
    lower_char is_space
safe_start t interval verticals leads score db selected h =
    subst
      (λ x.
        (start_autopilot t x interval verticals leads score db).1.autopilot.mode
        ≡ AutopilotMode.safe)
      (sym h) refl

-- A start leaves the database as it was, or sets the safe mode, or was confirmed with enough leads and
-- both send flags on.
pub start_gated :
    (s : Settings) (t : ℕ) (mode : Option Text) (interval verticals leads score : Option ℕ)
    (confirm : Bool) (db : Db)
    → ((start s t mode interval verticals leads score confirm db).1 ≡ db)
      ⊎ (((start s t mode interval verticals leads score confirm db).1.autopilot.mode
            ≡ AutopilotMode.safe)
          ⊎ IsAllowed s confirm db)
unfolding start
start_gated s t mode interval verticals leads score confirm db =
    let selected = lower (strip (or_text mode s.default_mode)) in
    elim (Bool-cases (same selected (text "safe"))) [
      | inl e ↦ inr (
          inl (
            rw e (
              ap (λ (d : Db). d.autopilot.mode)
                (bind_reader
                  (start_autopilot t selected (or_number interval s.interval_minutes)
                    (or_number verticals s.max_verticals_per_cycle)
                    (or_number leads s.leads_per_vertical) (if_given score s.score_threshold))
                  (λ state. pure (started state)) db (λ _ _. refl))
              ∙ safe_start t (or_number interval s.interval_minutes)
                  (or_number verticals s.max_verticals_per_cycle)
                  (or_number leads s.leads_per_vertical) (if_given score s.score_threshold) db
                  selected ((same_iff selected (text "safe")).0 e))))
      | inr e ↦ elim (Bool-cases (any (blockers s confirm db))) [
        | inl b ↦ inl (rw (e, b) refl)
        | inr b ↦ inr (inr (no_blockers s confirm db b))
      ]
    ]

-- The gate of a pass is closed.
abbrev pub IsOff : Bool → Bool → Bool → Type 0
IsOff safe allow allow' = (safe ≡ true) ⊎ ((allow ≡ false) ⊎ (allow' ≡ false))

IsOff-cases :
    (safe allow allow' : Bool) → (safe || not (allow && allow')) ≡ true → IsOff safe allow allow'
IsOff-cases true allow allow' g = inl refl
IsOff-cases false false allow' g = inr (inl refl)
IsOff-cases false true false g = inr (inr refl)
IsOff-cases false true true g = absurd (ground arith)

module _ (o : Outside) where
  -- The loop counts each request once.
  requests_counted :
      (ps : List PendingSend) (sent failed : ℕ) (w w' : World) (n : ℕ × ℕ)
      → process_requests o ps sent failed w ≡ (ok n, w')
      → n.0 + n.1 ≡ length ps + (sent + failed)
  unfolding process_requests
  requests_counted [] sent failed w w' n h =
      let e = (pure_returned {E = Trouble} (sent, failed) n w w' h).0 in rw e (omega arith)
  requests_counted (p ∷ ps) sent failed w w' n h =
      let (delivered, t, e, k) =
        bind_returned (process_request o p)
          (λ delivered.
            process_requests o ps (if delivered then suc sent else sent)
              (if delivered then failed else suc failed))
          w w' n h in
      let rest =
        requests_counted ps (if delivered then suc sent else sent)
          (if delivered then failed else suc failed) t w' n k in
      elim (Bool-cases delivered) [
        | inl d ↦ ground (arith, rest, d)
        | inr d ↦ ground (arith, rest, d)
      ]

  abbrev listed : Db → List PendingSend
  listed db = take 50 (
      join_drafts db.drafts (
        order_by (λ (r : SendRequest). r.requested_at)
          (select (λ (r : SendRequest). is_pending_request r.status) db.requests)))

  listed-length : (db : Db) → length (listed db) ≡ min 50 (waiting db)
  listed-length db =
      length-take 50 (
        join_drafts db.drafts (
          order_by (λ (r : SendRequest). r.requested_at)
            (select (λ (r : SendRequest). is_pending_request r.status) db.requests)))
      ∙ ap (λ (n : ℕ). min 50 n) (waiting-listed db)

  -- the rest of a pass, after the listing
  pass_from : Bool → List PendingSend → World → Result Trouble Counts × World
  pass_from gated ps =
      if gated
      then pure (record { pending = length ps; sent = 0; failed = 0; blocked = true })
      else (process_requests o ps 0 0 >>= λ counts.
          pure
            (record { pending = length ps; sent = counts.0; failed = counts.1; blocked = false }))

  -- A pass that returned counts `n` requests, each once as sent or failed.
  abbrev pub Accounted : ℕ → Result Trouble Counts → Type 0
  Accounted n (ok c) = (c.pending ≡ n) × (c.sent + c.failed ≡ c.pending)
  Accounted n (err e) = Unit

  open-Accounted :
      (ps : List PendingSend) (w : World) → Accounted (length ps) (pass_from false ps w).0
  unfolding pass_from
  open-Accounted ps w = go (process_requests o ps 0 0 w) refl
    where
      go :
          (x : Result Trouble (ℕ × ℕ) × World)
          → process_requests o ps 0 0 w ≡ x
          → Accounted (length ps) (pass_from false ps w).0
      go (ok n, t) q =
          subst
            (λ (x : Result Trouble (ℕ × ℕ) × World).
              Accounted (length ps)
                (elim x.0 as (λ _. Result Trouble Counts × World) [
                  | ok counts ↦ (
                    ok (record {
                      pending = length ps;
                      sent = counts.0;
                      failed = counts.1;
                      blocked = false;
                    }),
                    x.1,
                  )
                  | err e ↦ (err e, x.1)
                ]).0)
            (sym q) (refl, requests_counted ps 0 0 w t n q ∙ omega arith)
      go (err e, t) q =
          subst
            (λ (x : Result Trouble (ℕ × ℕ) × World).
              Accounted (length ps)
                (elim x.0 as (λ _. Result Trouble Counts × World) [
                  | ok counts ↦ (
                    ok (record {
                      pending = length ps;
                      sent = counts.0;
                      failed = counts.1;
                      blocked = false;
                    }),
                    x.1,
                  )
                  | err e ↦ (err e, x.1)
                ]).0)
            (sym q) tt

  pass-split :
      (safe allow allow' : Bool) (w : World)
      → process_send_requests o safe allow allow' w
        ≡ pass_from
            (safe || not (allow && allow'))
            (listed w.db)
            (record w { readings = suc w.readings })
  unfolding process_send_requests act list_pending_send_requests pass_from
  pass-split safe allow allow' w = elim (Bool-cases (safe || not (allow && allow'))) [
    | inl e ↦ rw e refl
    | inr e ↦ rw e refl
  ]

  -- A pass in the safe mode, or with one of the send flags off, returns: it reports as pending the
  -- requests that wait, which are the pending ones whose draft is in the table, at most 50, and nothing
  -- sent or failed, and changes nothing but the count of clock readings. A pass in another mode with
  -- both flags on, if it returns, reports as pending the same number, and counts each of them once, as
  -- sent or as failed.
  pub pass_gated :
      (safe allow allow' : Bool) (w : World)
      → (IsOff safe allow allow'
          × ((c : Counts) × (process_send_requests o safe allow allow' w
                ≡ (ok c, record w { readings = suc w.readings }))
              × (c.pending ≡ min 50 (waiting w.db))
              × (c.sent ≡ 0)
              × (c.failed ≡ 0)))
        ⊎ ((safe ≡ false)
            × (allow ≡ true)
            × (allow' ≡ true)
            × Accounted (min 50 (waiting w.db)) (process_send_requests o safe allow allow' w).0)
  pass_gated safe allow allow' w =
      let w1 : World = record w { readings = suc w.readings } in
      elim (Bool-cases (safe || not (allow && allow'))) [
        | inl g ↦ inl (
          IsOff-cases safe allow allow' g,
          (
            record { pending = length (listed w.db); sent = 0; failed = 0; blocked = true },
            pass-split safe allow allow' w
                ∙ (ap (λ (b : Bool). pass_from b (listed w.db) w1) g ∙ (unfold pass_from in refl)),
            listed-length w.db,
            refl,
            refl,
          ),
        )
        | inr g ↦
            let same_pass : process_send_requests o safe allow allow' w
                ≡ pass_from false (listed w.db) w1 =
              pass-split safe allow allow' w ∙ ap (λ (b : Bool). pass_from b (listed w.db) w1) g in
            inr (
              ground arith,
              ground arith,
              ground arith,
              subst (λ (x : Result Trouble Counts × World). Accounted (min 50 (waiting w.db)) x.0)
                  (sym same_pass)
                  (subst (λ (n : ℕ). Accounted n (pass_from false (listed w.db) w1).0)
                    (listed-length w.db) (open-Accounted (listed w.db) w1)),
            )
      ]
