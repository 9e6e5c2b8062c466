-- ===== src/Settings/Runs.antt =====
-- The bounds of the conversation agent's settings (app/crm.py), over all the calls that write them.
use mathlib.Core.Path.{subst}
use ollum_sales.Prelude.{
  ℕ, refl, sym, Bool, List, [], ◌∷◌, Option, take, All, All-append, arith, ◌==◌, Bool-cases, inl,
  inr, if◌then◌else◌,
}
use ollum_sales.Text.{Text, text, same, collapse, one_of}
use ollum_sales.Exec.{
  or_raise, gets, modify, raise_if, transaction, ◌>>=◌, bind_keeps, transaction_keeps, reader_keeps,
  or_raise-Reads, raise_if-Reads, returned_keeps,
}
use ollum_sales.Table.{find, count, update, exists}
use ollum_sales.Schema.{
  Db, CompanyProfile, AgentSettings, Crm, unsupported_fields, assertion_failed,
}
use ollum_sales.Workspaces.{
  workspace_id, get_workspace, get_conversation_agent_settings, settings_at, put_settings,
  default_settings,
}
use ollum_sales.Workspaces.Reads.{workspace_id-Reads, get_workspace-Reads}
use ollum_sales.Company.{Library}
use ollum_sales.Company.Interview.{OnboardingState}
use ollum_sales.Company.Confirm.{
  or_default, at_revision, set_confirmed, fill_settings, filled, confirm_row,
  complete_company_onboarding,
}
use ollum_sales.Company.Confirm.Keeps.{complete_keeps}
use ollum_sales.Settings.{
  Setting, Assignment, clean_settings, any_unsupported, assign_all, nulls_niche, no_assignments,
  set_settings, assign_row, update_conversation_agent_settings,
}
use ollum_sales.Settings.Bounds.{
  IsBounded, IsValid, assign_all-IsBounded, clean_settings-Reads, clean_settings-IsValid,
}

update-All :
    (P : AgentSettings → Type 0) (p : AgentSettings → Bool) (f : AgentSettings → AgentSettings)
    (xs : List AgentSettings)
    → ((x : AgentSettings) → P x → P (f x))
    → All P xs
    → All P (update p f xs)
unfolding update
update-All P p f [] h a = tt
update-All P p f (x ∷ xs) h a = elim (Bool-cases (p x)) [
  | inl e ↦ rw e (h x a.0, update-All P p f xs h a.1)
  | inr e ↦ rw e (a.0, update-All P p f xs h a.1)
]

-- Every workspace's settings are in their bounds.
abbrev pub AllBounded : Db → Type 0
AllBounded db = All IsBounded db.settings

default-IsBounded : (t : ℕ) (k : Text) → IsBounded (default_settings t k)
unfolding one_of same
default-IsBounded t k = (
  refl,
  (omega arith, omega arith),
  (omega arith, omega arith),
  (omega arith, omega arith),
  (omega arith, omega arith),
  (omega arith, omega arith),
  (omega arith, tt),
  (omega arith, tt),
  (omega arith, tt),
)

put-AllBounded : (t : ℕ) (k : Text) (db : Db) → AllBounded db → AllBounded (put_settings t k db)
unfolding put_settings
put-AllBounded t k db h = elim (Bool-cases (exists (settings_at k) db.settings)) [
  | inl e ↦ rw e h
  | inr e ↦
      rw e
        (All-append IsBounded db.settings (default_settings t k ∷ []) h (default-IsBounded t k, tt))
]

assign_row-AllBounded :
    (t : ℕ) (k : Text) (bs : List Assignment) (db : Db)
    → All IsValid bs
    → AllBounded db
    → AllBounded (assign_row t k bs db).1
unfolding assign_row set_settings
assign_row-AllBounded t k bs db v h = elim (Bool-cases (nulls_niche bs)) [
  | inl e ↦ rw e h
  | inr e ↦ rw e (
      update-All IsBounded (settings_at k) (λ s. record (assign_all bs s) { updated_at = t })
        db.settings (λ s. assign_all-IsBounded bs s v) h)
]

get-AllBounded :
    (t : ℕ) (value : Text) (db : Db)
    → AllBounded db
    → AllBounded (get_conversation_agent_settings t value db).1
unfolding get_conversation_agent_settings
get-AllBounded t value db h =
    let row : (k : Text) → Crm AgentSettings = λ k. modify (put_settings t k) >>= λ _.
    gets (λ (s : Db). find (settings_at k) s.settings) >>= λ x. or_raise x assertion_failed in
    reader_keeps AllBounded (workspace_id value) (λ k. get_workspace k >>= λ _. transaction (row k))
      db (workspace_id-Reads value db) h
      (λ k.
        reader_keeps AllBounded (get_workspace k) (λ _. transaction (row k)) db
          (get_workspace-Reads k db) h
          (λ _. transaction_keeps AllBounded (row k) db h (
            reader_keeps AllBounded (gets (λ (s : Db). find (settings_at k) s.settings))
              (λ x. or_raise x assertion_failed) (put_settings t k db) refl
              (put-AllBounded t k db h)
              (λ x.
                subst AllBounded (sym (or_raise-Reads x assertion_failed (put_settings t k db)))
                  (put-AllBounded t k db h)))))

update-AllBounded :
    (first t last : ℕ) (value : Text) (fields : List Setting) (db : Db)
    → AllBounded db
    → AllBounded (update_conversation_agent_settings first t last value fields db).1
unfolding update_conversation_agent_settings
update-AllBounded first t last value fields db h =
    let done : (k : Text) → Crm AgentSettings = λ k. get_conversation_agent_settings last k in
    let writes : (k : Text) → List Assignment → Crm AgentSettings = λ k bs.
      if no_assignments bs then done k else (transaction (assign_row t k bs) >>= λ _. done k) in
    let cleans : (k : Text) → Crm AgentSettings = λ k. clean_settings fields >>= writes k in
    let checks : (k : Text) → Crm AgentSettings =
      λ k. raise_if (any_unsupported fields) unsupported_fields >>= λ _. cleans k in
    reader_keeps AllBounded (workspace_id value)
      (λ k. get_conversation_agent_settings first k >>= λ _. checks k) db
      (workspace_id-Reads value db) h
      (λ k.
        let db1 = (get_conversation_agent_settings first k db).1 in
        let h1 = get-AllBounded first k db h in
        bind_keeps AllBounded (get_conversation_agent_settings first k) (λ _. checks k) db h1
          (λ _.
            reader_keeps AllBounded (raise_if (any_unsupported fields) unsupported_fields)
              (λ _. cleans k) db1 (raise_if-Reads (any_unsupported fields) unsupported_fields db1)
              h1
              (λ _.
                returned_keeps AllBounded (clean_settings fields) (writes k) db1
                  (clean_settings-Reads fields) h1
                  (λ bs q. elim (Bool-cases (no_assignments bs)) [
                    | inl e ↦ rw e (get-AllBounded last k db1 h1)
                    | inr e ↦ rw e (
                        bind_keeps AllBounded (transaction (assign_row t k bs)) (λ _. done k) db1
                          (written k bs db1 (clean_settings-IsValid fields db1 db1 bs q) h1)
                          (λ _.
                            get-AllBounded last k (transaction (assign_row t k bs) db1).1
                              (written k bs db1 (clean_settings-IsValid fields db1 db1 bs q) h1)))
                  ]))))
  where
    written :
        (k : Text) (bs : List Assignment) (db1 : Db)
        → All IsValid bs
        → AllBounded db1
        → AllBounded (transaction (assign_row t k bs) db1).1
    written k bs db1 v h1 =
        transaction_keeps AllBounded (assign_row t k bs) db1 h1
          (assign_row-AllBounded t k bs db1 v h1)

fill-AllBounded :
    (t : ℕ) (k : Text) (p : CompanyProfile) (db : Db)
    → AllBounded db
    → AllBounded (fill_settings t k p db)
unfolding fill_settings
fill-AllBounded t k p db h =
    update-All IsBounded (settings_at k) (filled t p) db.settings (λ s b. b) h

confirm_row-AllBounded :
    (t : ℕ) (k by : Text) (st : OnboardingState) (db : Db)
    → AllBounded db
    → AllBounded (confirm_row t k st by db).1
unfolding confirm_row
confirm_row-AllBounded t k by st db h =
    let db1 = set_confirmed t k st by db in
    let h1 : AllBounded db1 = unfold set_confirmed in h in
    elim (Bool-cases (count (at_revision k st) db.profiles == 1)) [
      | inl e ↦
          rw e (fill-AllBounded t k st.profile (put_settings t k db1) (put-AllBounded t k db1 h1))
      | inr e ↦ rw e h1
    ]

-- A call that reads or writes settings.
pub data SettingsCall : Type 0 where
  reads : ℕ → Text → SettingsCall
  updates : ℕ → ℕ → ℕ → Text → List Setting → SettingsCall
  completes : ℕ → Text → Bool → Option ℕ → Option Text → Option Text → SettingsCall

module _ (lib : Library) where
  -- The database after a call, whether it returned or raised.
  unfoldable pub after : Db → SettingsCall → Db
  after db (reads t value) = (get_conversation_agent_settings t value db).1
  after db (updates first t last value fields) =
      (update_conversation_agent_settings first t last value fields db).1
  after db (completes t value ready revision hash by) =
      (complete_company_onboarding lib t value ready revision hash by db).1

  unfoldable pub settings_run : Db → List SettingsCall → Db
  unfolding after
  settings_run db [] = db
  settings_run db (c ∷ cs) = settings_run (after db c) cs

  after-AllBounded : (db : Db) (c : SettingsCall) → AllBounded db → AllBounded (after db c)
  unfolding after
  after-AllBounded db (reads t value) h = get-AllBounded t value db h
  after-AllBounded db (updates first t last value fields) h =
      update-AllBounded first t last value fields db h
  after-AllBounded db (completes t value ready revision hash by) h =
      complete_keeps AllBounded lib t value ready revision hash by db h (λ j st.
        confirm_row-AllBounded t j (take 320 (collapse (or_default by (text "operator")))) st db h)

  -- After any reads and updates of the settings and any confirmations of an onboarding, each of
  -- which returns or raises, the mode of every workspace is `observe` or `draft`, its numbers are in their
  -- ranges and its lists have at most thirty texts of at most 500 characters, if it was so before.
  pub settings_run-AllBounded :
      (db : Db) (cs : List SettingsCall) → AllBounded db → AllBounded (settings_run db cs)
  unfolding settings_run
  settings_run-AllBounded db [] h = h
  settings_run-AllBounded db (c ∷ cs) h =
      settings_run-AllBounded (after db c) cs (after-AllBounded db c h)
