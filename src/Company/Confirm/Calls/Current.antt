-- ===== src/Company/Confirm/Calls/Current.antt =====
-- What the state of the onboarding (app/crm.py) is made from, and what a confirmation changes.

use ollum_sales.Prelude.{
  ℕ, ◌≡◌, refl, sym, ap, ◌∙◌, Bool, ◌&&◌, List, Option, Bool-cases, Option-cases, inl, inr, ◌==◌,
  take, max, min, ltb,
}
use ollum_sales.Text.{Text, text, same, collapse}
use ollum_sales.Table.{find, select, count, update, sort_by}
use ollum_sales.Table.Laws.{find-update, update-IsKeyed}
use ollum_sales.Table.Select.{select-select, count-select}
use ollum_sales.Schema.{Db, KnowledgeItem, is_active_knowledge}
use ollum_sales.Workspaces.{put_settings}
use ollum_sales.Company.{Library, profile_at, profile_of}
use ollum_sales.Company.Knowledge.{active_knowledge, is_in, newer}
use ollum_sales.Company.Answers.{answers_of, by_question}
use ollum_sales.Company.Interview.{OnboardingState, knowledge_checks, has_category, review_summary}
use ollum_sales.Company.Confirm.Keeps.{complete_keeps}
use ollum_sales.Company.Confirm.{
  or_default, confirmed, at_revision, set_confirmed, fill_settings, confirm_row,
  complete_company_onboarding,
}
use ollum_sales.Company.Confirm.Calls.Edits.{SameRows}
use ollum_sales.Company.Confirm.Calls.Profiled.{
  IsCompany, profile_key, IsProfiled-mono, Grows-update,
}

-- The facts of a workspace in one version.
pub record SameFacts (k : Text) (db db' : Db) : Type 0 where
  pub facts : (profile_of k db').facts ≡ (profile_of k db).facts
  pub revision : (profile_of k db').revision ≡ (profile_of k db).revision
  pub rows : SameRows k db db'

pub SameFacts-trans : (k : Text) (a b c : Db) → SameFacts k a b → SameFacts k b c → SameFacts k a c
SameFacts-trans k a b c s t = record {
  facts = t.facts ∙ s.facts;
  revision = t.revision ∙ s.revision;
  rows = record {
    knowledge = t.rows.knowledge ∙ s.rows.knowledge;
    answers = t.rows.answers ∙ s.rows.answers;
  };
}

-- What is counted and shown of the knowledge of a workspace.
abbrev counted : Text → List KnowledgeItem → Bool
counted category is =
    ltb 0
      (count (λ (i : KnowledgeItem). is_active_knowledge i.status && same i.category category) is)

has_category-select :
    (k category : Text) (db : Db)
    → has_category k category db ≡ counted category (select (is_in k) db.knowledge)
has_category-select k category db =
    ap (λ (n : ℕ). ltb 0 n)
      (count-select (is_in k)
        (λ (i : KnowledgeItem). is_active_knowledge i.status && same i.category category)
        db.knowledge)

category-same :
    (k category : Text) (db db' : Db)
    → SameRows k db db'
    → has_category k category db' ≡ has_category k category db
category-same k category db db' s =
    has_category-select k category db'
    ∙ ap (counted category) s.knowledge
    ∙ sym (has_category-select k category db)

pub answers-same : (k : Text) (db db' : Db) → SameRows k db db' → answers_of k db' ≡ answers_of k db
unfolding answers_of
answers-same k db db' s = ap (sort_by by_question) s.answers

active-same :
    (k : Text) (db db' : Db)
    → SameRows k db db'
    → active_knowledge k 500 db' ≡ active_knowledge k 500 db
unfolding active_knowledge
active-same k db db' s =
    let active = λ (i : KnowledgeItem). is_active_knowledge i.status in
    ap (λ (is : List KnowledgeItem). take (max 1 (min 500 500)) (sort_by newer is))
      (select-select (is_in k) active db'.knowledge
        ∙ ap (select active) s.knowledge
        ∙ sym (select-select (is_in k) active db.knowledge))

pub summary-same :
    (k : Text) (db db' : Db) → SameFacts k db db' → review_summary k db' ≡ review_summary k db
unfolding review_summary
summary-same k db db' s =
    rw (s.facts, active-same k db db' s.rows, answers-same k db db' s.rows) refl

pub checks-same :
    (k : Text) (db db' : Db) → SameRows k db db' → knowledge_checks k db' ≡ knowledge_checks k db
unfolding knowledge_checks
checks-same k db db' s =
    rw
      (
        category-same k (text "service") db db' s,
        category-same k (text "price") db db' s,
        category-same k (text "case") db db' s,
        category-same k (text "closed_client") db db' s,
        category-same k (text "current_client") db db' s,
        answers-same k db db' s,
      )
      refl

-- A confirmation leaves the facts and their version alone.
pub record Unmoved (k : Text) (db db' : Db) : Type 0 where
  pub facts : SameFacts k db db'
  pub company : IsCompany db'

pub Unmoved-refl : (k : Text) (db : Db) → IsCompany db → Unmoved k db db
Unmoved-refl k db h = record {
  facts = record {
    facts = refl;
    revision = refl;
    rows = record { knowledge = refl; answers = refl };
  };
  company = h;
}

confirmed-facts :
    (t : ℕ) (j k by : Text) (st : OnboardingState) (db : Db)
    → ((profile_of k (set_confirmed t j st by db)).facts ≡ (profile_of k db).facts)
      × ((profile_of k (set_confirmed t j st by db)).revision ≡ (profile_of k db).revision)
unfolding set_confirmed
confirmed-facts t j k by st db =
    let e =
      find-update (profile_at k) (at_revision j st) (confirmed t st by) db.profiles (λ p. refl) in
    elim (Option-cases (find (profile_at k) db.profiles)) [
      | inl n ↦ rw (e, n) (refl, refl)
      | inr (p, n) ↦ elim (Bool-cases (at_revision j st p)) [
        | inl b ↦ rw (e, n, b) (refl, refl)
        | inr b ↦ rw (e, n, b) (refl, refl)
      ]
    ]

pub set_confirmed-Unmoved :
    (t : ℕ) (j k by : Text) (st : OnboardingState) (db db' : Db)
    → IsCompany db
    → db'.profiles ≡ (set_confirmed t j st by db).profiles
    → db'.knowledge ≡ db.knowledge
    → db'.answers ≡ db.answers
    → Unmoved k db db'
set_confirmed-Unmoved t j k by st db db' h ps ks qs =
    let c = confirmed-facts t j k by st db in
    record {
      facts = record {
        facts = rw ps c.0;
        revision = rw ps c.1;
        rows = record { knowledge = rw ks refl; answers = rw qs refl };
      };
      company = record {
        keyed = rw ps (
            unfold set_confirmed in
            update-IsKeyed profile_key (at_revision j st) (confirmed t st by) db.profiles
              (λ p. refl) h.keyed);
        profiled =
            rw (ps, ks)
              (unfold set_confirmed in
                IsProfiled-mono db.profiles
                  (update (at_revision j st) (confirmed t st by) db.profiles) db.knowledge
                  (λ i.
                    Grows-update (at_revision j st) (confirmed t st by) i db.profiles (λ p. refl))
                  h.profiled);
      };
    }

confirm_row-Unmoved :
    (t : ℕ) (j k by : Text) (st : OnboardingState) (db : Db)
    → IsCompany db
    → Unmoved k db (confirm_row t j st by db).1
unfolding confirm_row
confirm_row-Unmoved t j k by st db h =
    let db1 = set_confirmed t j st by db in
    elim (Bool-cases (count (at_revision j st) db.profiles == 1)) [
      | inl e ↦ rw e (
          set_confirmed-Unmoved t j k by st db (fill_settings t j st.profile (put_settings t j db1))
            h (unfold fill_settings put_settings in refl)
            (unfold fill_settings put_settings set_confirmed in refl)
            (unfold fill_settings put_settings set_confirmed in refl))
      | inr e ↦ rw e (
          set_confirmed-Unmoved t j k by st db db1 h refl (unfold set_confirmed in refl)
            (unfold set_confirmed in refl))
    ]

pub complete-Unmoved :
    (lib : Library) (t : ℕ) (value k : Text) (ready : Bool) (revision : Option ℕ)
    (hash by : Option Text) (db : Db)
    → IsCompany db
    → Unmoved k db (complete_company_onboarding lib t value ready revision hash by db).1
complete-Unmoved lib t value k ready revision hash by db h =
    complete_keeps (Unmoved k db) lib t value ready revision hash by db (Unmoved-refl k db h)
      (λ j st.
        confirm_row-Unmoved t j k (take 320 (collapse (or_default by (text "operator")))) st db h)
