-- ===== src/Company/Confirm/Keeps.antt =====
-- What `complete_company_onboarding` of app/crm.py keeps: whatever its transaction keeps.
use mathlib.Core.Path.{subst}
use ollum_sales.Prelude.{ℕ, ◌≡◌, refl, sym, Bool, not, Option, some, take, Bool-cases, inl, inr}
use ollum_sales.Text.{Text, text, collapse}
use ollum_sales.Exec.{
  Reads, gets, raise_if, transaction, ◌>>=◌, bind_keeps, transaction_keeps, reader_keeps,
  raise_if-Reads,
}
use ollum_sales.Schema.{Db, Crm, not_confirmed}
use ollum_sales.Workspaces.{workspace_id}
use ollum_sales.Workspaces.Reads.{workspace_id-Reads}
use ollum_sales.Company.{Library, same_option}
use ollum_sales.Company.Interview.{
  OnboardingState, onboarding_state, get_company_onboarding_state, is_revision,
}
use ollum_sales.Company.Confirm.{
  or_default, confirm_row, confirm_state, complete_company_onboarding,
}

state-Reads : (lib : Library) (j : Text) → Reads (get_company_onboarding_state lib j)
unfolding get_company_onboarding_state
state-Reads lib j db =
    reader_keeps (λ s. s ≡ db) (workspace_id j) (λ i. transaction (gets (onboarding_state lib i)))
      db (workspace_id-Reads j db) refl (λ _. refl)

module _ (P : Db → Type 0) where
  confirm_state_keeps :
      (t : ℕ) (j : Text) (st : OnboardingState) (revision : Option ℕ) (hash by : Option Text)
      (db : Db)
      → P db
      → P (confirm_row t j st (take 320 (collapse (or_default by (text "operator")))) db).1
      → P (confirm_state t j st revision hash by db).1
  unfolding confirm_state
  confirm_state_keeps t j st revision hash by db base h = elim (Bool-cases st.ready_for_sales) [
    | inr a ↦ rw a base
    | inl a ↦ elim (Bool-cases (is_revision revision st.profile.revision)) [
      | inr b ↦ rw (a, b) base
      | inl b ↦ elim (Bool-cases (same_option hash (some st.summary_hash))) [
        | inr c ↦ rw (a, b, c) base
        | inl c ↦
            rw (a, b, c)
              (transaction_keeps P
                (confirm_row t j st (take 320 (collapse (or_default by (text "operator"))))) db base
                h)
      ]
    ]
  ]

  pub complete_keeps :
      (lib : Library) (t : ℕ) (value : Text) (ready : Bool) (revision : Option ℕ)
      (hash by : Option Text) (db : Db)
      → P db
      → ((j : Text) (st : OnboardingState)
          → P (confirm_row t j st (take 320 (collapse (or_default by (text "operator")))) db).1)
      → P (complete_company_onboarding lib t value ready revision hash by db).1
  unfolding complete_company_onboarding
  complete_keeps lib t value ready revision hash by db base h =
      let confirms : (j : Text) → OnboardingState → Crm OnboardingState =
        λ j st. confirm_state t j st revision hash by >>= λ _. get_company_onboarding_state lib j in
      let reads : (j : Text) → Crm OnboardingState =
        λ j. get_company_onboarding_state lib j >>= confirms j in
      let kept = λ (j : Text) (st : OnboardingState).
        confirm_state_keeps t j st revision hash by db base (h j st) in
      reader_keeps P (raise_if (not ready) not_confirmed) (λ _. workspace_id value >>= reads) db
        (raise_if-Reads (not ready) not_confirmed db) base
        (λ _. reader_keeps P (workspace_id value) reads db (workspace_id-Reads value db) base (λ j.
          reader_keeps P (get_company_onboarding_state lib j) (confirms j) db (state-Reads lib j db)
            base
            (λ st.
              bind_keeps P (confirm_state t j st revision hash by)
                (λ _. get_company_onboarding_state lib j) db (kept j st)
                (λ _.
                  subst P (sym (state-Reads lib j (confirm_state t j st revision hash by db).1))
                    (kept j st)))))
