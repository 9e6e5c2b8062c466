-- ===== src/Company/Confirm/Calls/Whole.antt =====
-- The operations that change the facts of a company (app/crm.py), as seen from any workspace.
use ollum_sales.Prelude.{◌≡◌, refl, List, [], ◌∷◌, Option, none, some, arith}
use ollum_sales.Text.{Text, collapse, or_none, or_empty}
use ollum_sales.Exec.{
  pure, Reads, reader_keeps, or_raise-Reads, raise_if-Reads, transaction, transaction_keeps,
  or_raise, raise_if, ◌>>=◌,
}
use ollum_sales.Schema.{Db, Crm, unsupported_fields, no_fields}
use ollum_sales.Workspaces.{workspace_id, require_workspace}
use ollum_sales.Workspaces.Reads.{workspace_id-Reads, require_workspace-Reads}
use ollum_sales.Company.{Library, Json}
use ollum_sales.Company.Profile.{
  Field, canonical_company_url, clean_field, checked_fields, fields_of, clean_fields, no_entries,
  update_row, update_company_profile,
}
use ollum_sales.Company.Knowledge.{
  checked_content, save_row, save_company_knowledge, archive_row, archive_company_knowledge,
}
use ollum_sales.Company.Answers.{checked_reply, answer_row, record_company_onboarding_answer}
use ollum_sales.Company.Confirm.Calls.{CompanyEdit, updates, saves, archives, replies, edited}
use ollum_sales.Company.Confirm.Calls.Profiled.{IsCompany}
use ollum_sales.Company.Confirm.Calls.Versions.{Kept, Kept-refl, update_row-Kept}
use ollum_sales.Company.Confirm.Calls.Rows.{save_row-Kept, archive_row-Kept, answer_row-Kept}

canonical-Reads : (lib : Library) (value : Text) → Reads (canonical_company_url lib.urlsplit value)
unfolding canonical_company_url
canonical-Reads lib value db = ground arith

bind-Reads :
    {A B : Type 0} (m : Crm A) (n : A → Crm B) → Reads m → ((a : A) → Reads (n a)) → Reads (m >>= n)
bind-Reads m n h k db = reader_keeps (λ s. s ≡ db) m n db (h db) refl (λ a. k a db)

clean_field-Reads : (lib : Library) (f : Field) (v : Option Text) → Reads (clean_field lib f v)
unfolding clean_field canonical_company_url
clean_field-Reads lib f none db = ground arith
clean_field-Reads lib f (some s) db = ground arith

clean_fields-Reads : (lib : Library) (fs : List (Field × Option Text)) → Reads (clean_fields lib fs)
unfolding clean_fields
clean_fields-Reads lib [] = λ db. refl
clean_fields-Reads lib ((f, v) ∷ rest) =
    bind-Reads (clean_field lib f (or_none (collapse (or_empty v))))
      (λ clean. clean_fields lib rest >>= λ others. pure ((f, clean) ∷ others))
      (clean_field-Reads lib f (or_none (collapse (or_empty v))))
      (λ clean.
        bind-Reads (clean_fields lib rest) (λ others. pure ((f, clean) ∷ others))
          (clean_fields-Reads lib rest) (λ _ _. refl))

checked_fields-Reads :
    (lib : Library) (fields : List (Text × Option Text)) → Reads (checked_fields lib fields)
unfolding checked_fields
checked_fields-Reads lib fields =
    bind-Reads (or_raise (fields_of fields) unsupported_fields)
      (λ fs. raise_if (no_entries fs) no_fields >>= λ _. clean_fields lib fs)
      (or_raise-Reads (fields_of fields) unsupported_fields)
      (λ fs.
        bind-Reads (raise_if (no_entries fs) no_fields) (λ _. clean_fields lib fs)
          (raise_if-Reads (no_entries fs) no_fields) (λ _. clean_fields-Reads lib fs))

checked_content-Reads :
    (lib : Library) (category title : Text) (content : Json) (source_type : Text)
    (source_name : Option Text)
    → Reads (checked_content lib category title content source_type source_name)
unfolding checked_content
checked_content-Reads lib category title content source_type source_name db = ground arith

checked_reply-Reads :
    (lib : Library) (question status : Text) (answer : Json) (source_type : Text)
    (source_name : Option Text)
    → Reads (checked_reply lib question status answer source_type source_name)
unfolding checked_reply
checked_reply-Reads lib question status answer source_type source_name db = ground arith

-- An operation whose checks only read, and whose transaction keeps what is claimed.
checked_keeps :
    {A B : Type 0} (P : Db → Type 0) (value : Text) (checks : Crm A) (row : Text → A → Crm B)
    (db : Db)
    → Reads checks
    → P db
    → ((j : Text) (a : A) → P (row j a db).1)
    → P ((require_workspace value >>= λ j. checks >>= λ a. transaction (row j a)) db).1
checked_keeps P value checks row db r h k =
    reader_keeps P (require_workspace value) (λ j. checks >>= λ a. transaction (row j a)) db
      (require_workspace-Reads value db) h
      (λ j.
        reader_keeps P checks (λ a. transaction (row j a)) db (r db) h
          (λ a. transaction_keeps P (row j a) db h (k j a)))

-- Any change of facts keeps this, as seen from any workspace.
pub edited-Kept :
    (lib : Library) (k : Text) (db : Db) (e : CompanyEdit)
    → IsCompany db
    → Kept k db (edited lib db e)
unfolding edited update_company_profile save_company_knowledge archive_company_knowledge
    record_company_onboarding_answer
edited-Kept lib k db (updates t value fields) h =
    checked_keeps (Kept k db) value (checked_fields lib fields) (update_row t) db
      (checked_fields-Reads lib fields) (Kept-refl k db h)
      (λ j clean. update_row-Kept t j k clean db h)
edited-Kept lib k db (saves t fresh value category title content source name id) h =
    checked_keeps (Kept k db) value (checked_content lib category title content source name)
      (λ j c. save_row t fresh j id c) db
      (checked_content-Reads lib category title content source name) (Kept-refl k db h)
      (λ j c. save_row-Kept t fresh j k id c db h)
edited-Kept lib k db (archives t value id) h =
    reader_keeps (Kept k db) (workspace_id value) (λ j. transaction (archive_row t j id)) db
      (workspace_id-Reads value db) (Kept-refl k db h) (λ j. archive_row-Kept t j k id db h)
edited-Kept lib k db (replies t value question status answer source name) h =
    checked_keeps (Kept k db) value (checked_reply lib question status answer source name)
      (λ j r. answer_row t j r.0 r.1) db
      (checked_reply-Reads lib question status answer source name) (Kept-refl k db h)
      (λ j r. answer_row-Kept t j k r.0 r.1 db h)
