-- ===== src/Company/Confirm/Calls.antt =====
-- The calls on the company of a workspace (app/crm.py), as data.
pub mod Edits
pub mod Profiled
pub mod Versions
pub mod Rows
pub mod Whole
pub mod Current
pub mod Confirmed
pub mod Standing
use ollum_sales.Prelude.{ℕ, Bool, Option, List, [], ◌∷◌}
use ollum_sales.Text.{Text}
use ollum_sales.Schema.{Db}
use ollum_sales.Company.{Library, Json}
use ollum_sales.Company.Profile.{update_company_profile}
use ollum_sales.Company.Knowledge.{save_company_knowledge, archive_company_knowledge}
use ollum_sales.Company.Answers.{record_company_onboarding_answer}
use ollum_sales.Company.Confirm.{complete_company_onboarding}

-- A change of the facts.
pub data CompanyEdit : Type 0 where
  updates : ℕ → Text → List (Text × Option Text) → CompanyEdit
  saves : ℕ → Text → Text → Text → Text → Json → Text → Option Text → Option Text → CompanyEdit
  archives : ℕ → Text → Text → CompanyEdit
  replies : ℕ → Text → Text → Text → Json → Text → Option Text → CompanyEdit

pub data CompanyCall : Type 0 where
  edits : CompanyEdit → CompanyCall
  completes : ℕ → Text → Bool → Option ℕ → Option Text → Option Text → CompanyCall

module _ (lib : Library) where
  -- The database after a call, whether it returned or raised.
  unfoldable pub edited : Db → CompanyEdit → Db
  edited db (updates t value fields) = (update_company_profile lib t value fields db).1
  edited db (saves t fresh value category title content source name id) =
      (save_company_knowledge lib t fresh value category title content source name id db).1
  edited db (archives t value id) = (archive_company_knowledge t value id db).1
  edited db (replies t value question status answer source name) =
      (record_company_onboarding_answer lib t value question status answer source name db).1

  unfoldable pub after : Db → CompanyCall → Db
  unfolding edited
  after db (edits e) = edited db e
  after db (completes t value ready revision hash by) =
      (complete_company_onboarding lib t value ready revision hash by db).1

  unfoldable pub run : Db → List CompanyCall → Db
  unfolding after
  run db [] = db
  run db (c ∷ cs) = run (after db c) cs
