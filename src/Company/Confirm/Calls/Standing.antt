-- ===== src/Company/Confirm/Calls/Standing.antt =====
-- How long a confirmation of the onboarding stands (app/crm.py).
use ollum_sales.Prelude.{◌≡◌, ◌⊎◌, refl, ap, ◌∙◌, Bool, false, ◌&&◌, List, [], ◌∷◌, inl, inr}
use ollum_sales.Text.{Text}
use ollum_sales.Schema.{Db, is_ready}
use ollum_sales.Company.{Library, profile_of}
use ollum_sales.Company.Interview.{
  review_summary, onboarding_state, ready_for_sales, knowledge_checks, is_current,
}
use ollum_sales.Company.Confirm.Calls.{CompanyEdit, edited}
use ollum_sales.Company.Confirm.Calls.Edits.{Edited, SameProfile, SameProfile-refl}
use ollum_sales.Company.Confirm.Calls.Profiled.{IsCompany}
use ollum_sales.Company.Confirm.Calls.Whole.{edited-Kept}
use ollum_sales.Company.Confirm.Calls.Current.{
  SameFacts, SameFacts-trans, Unmoved-refl, summary-same,
}
use ollum_sales.Company.Confirm.Calls.Confirmed.{ready-same, hash-same}

-- Changes of the facts, with no confirmation.
unfoldable pub edits_run : Library → Db → List CompanyEdit → Db
edits_run lib db [] = db
edits_run lib db (e ∷ es) = edits_run lib (edited lib db e) es

abbrev IsUnready : Text → Db → Type 0
IsUnready k db = is_ready (profile_of k db).onboarding_status ≡ false

-- The facts and the marks of the confirmation are as they were, or the workspace is not ready.
abbrev Stands : Text → Db → Db → Type 0
Stands k db db' = (SameFacts k db db' × SameProfile k db db') ⊎ IsUnready k db'

SameProfile-trans :
    (k : Text) (a b c : Db) → SameProfile k a b → SameProfile k b c → SameProfile k a c
SameProfile-trans k a b c s t = record {
  facts = t.facts ∙ s.facts;
  revision = t.revision ∙ s.revision;
  status = t.status ∙ s.status;
  hash = t.hash ∙ s.hash;
  confirmed = t.confirmed ∙ s.confirmed;
}

step-Stands : (k : Text) (a b c : Db) → Stands k a b → Edited k b c → Stands k a c
step-Stands k a b c (inl (f, p)) (inl (q, r)) = inl (
  SameFacts-trans k a b c f (record { facts = q.facts; revision = q.revision; rows = r }),
  SameProfile-trans k a b c p q,
)
step-Stands k a b c (inr u) (inl (q, r)) = inr (ap is_ready q.status ∙ u)
step-Stands k a b c s (inr r) = inr r.unready

run-Stands :
    (lib : Library) (k : Text) (a b : Db) (es : List CompanyEdit)
    → Stands k a b
    → IsCompany b
    → Stands k a (edits_run lib b es)
unfolding edits_run
run-Stands lib k a b [] s h = s
run-Stands lib k a b (e ∷ es) s h =
    let kept = edited-Kept lib k b e h in
    run-Stands lib k a (edited lib b e) es (step-Stands k a b (edited lib b e) s kept.edited)
      kept.company

current-same :
    (lib : Library) (k : Text) (db db' : Db)
    → SameFacts k db db'
    → SameProfile k db db'
    → (onboarding_state lib k db').sales_ready ≡ (onboarding_state lib k db).sales_ready
unfolding onboarding_state
current-same lib k db db' s p =
    let hash = λ (x : Db). lib.summary_hash (profile_of k x).revision (review_summary k x) in
    let status : is_ready (profile_of k db').onboarding_status
        ≡ is_ready (profile_of k db).onboarding_status =
      ap is_ready p.status in
    let current : is_current (profile_of k db') (hash db')
        ≡ is_current (profile_of k db) (hash db) =
      rw (hash-same lib k db db' s, p.confirmed, p.hash, p.revision) refl in
    ap
      (λ (b : Bool).
        b
        && ready_for_sales (profile_of k db').facts (knowledge_checks k db')
        && is_current (profile_of k db') (hash db'))
      status
    ∙ ap
        (λ (b : Bool).
          is_ready (profile_of k db).onboarding_status
          && b
          && is_current (profile_of k db') (hash db'))
        (ready-same k db db' s)
    ∙ ap
        (λ (b : Bool).
          is_ready (profile_of k db).onboarding_status
          && ready_for_sales (profile_of k db).facts (knowledge_checks k db)
          && b)
        current

unready-state :
    (lib : Library) (k : Text) (db : Db)
    → IsUnready k db
    → (onboarding_state lib k db).sales_ready ≡ false
unfolding onboarding_state
unready-state lib k db u = rw u refl

-- Where each workspace has one profile, and one where it has knowledge: after any changes of facts, in any
-- workspaces and with no confirmation among them, a workspace has the summary to review that it
-- had and is ready for sales if it was, or it is not ready for sales.
pub confirmation_stands :
    (lib : Library) (k : Text) (db : Db) (es : List CompanyEdit)
    → IsCompany db
    → ((review_summary k (edits_run lib db es) ≡ review_summary k db)
        × ((onboarding_state lib k (edits_run lib db es)).sales_ready
            ≡ (onboarding_state lib k db).sales_ready))
      ⊎ ((onboarding_state lib k (edits_run lib db es)).sales_ready ≡ false)
confirmation_stands lib k db es h =
    elim (run-Stands lib k db db es (inl ((Unmoved-refl k db h).facts, SameProfile-refl k db)) h) [
      | inl (s, p) ↦ inl (
        summary-same k db (edits_run lib db es) s,
        current-same lib k db (edits_run lib db es) s p,
      )
      | inr u ↦ inr (unready-state lib k (edits_run lib db es) u)
    ]
