-- ===== src/Company/Answers.antt =====
-- The explicit answers of the onboarding (app/crm.py): `record_company_onboarding_answer` and
-- `list_company_onboarding_answers`.
use ollum_sales.Prelude.{
  ℕ, Bool, false, not, ◌&&◌, List, [], ◌∷◌, Option, none, some, ltb, if◌then◌else◌,
}
use ollum_sales.Text.{Text, text, same, collapse, or_none, or_empty, before}
use ollum_sales.Exec.{pure, gets, or_raise, modify, raise_if, transaction, ◌>>=◌, ◌>>◌}
use ollum_sales.Table.{find, select, update, insert, exists, sort_by}
use ollum_sales.Schema.{
  Db, OnboardingAnswer, Crm, bad_question, bad_answer_status, not_grounded, too_large,
  assertion_failed,
}
use ollum_sales.Workspaces.{require_workspace}
use ollum_sales.Company.{
  Library, Json, is_grounded, utf8_length, or_text, same_option, put_profile, reopen,
}
use ollum_sales.Company.Knowledge.{validated}

abbrev pub onboarding_question_ids : List Text
onboarding_question_ids = text "website" ∷ text "customer_proof" ∷ text "active_clients" ∷ []

abbrev pub onboarding_answer_statuses : List Text
onboarding_answer_statuses = text "answered" ∷ text "not_applicable" ∷ []

-- What an answer stores, checked and in its normal form.
pub record Reply : Type 0 where
  pub status : Text
  pub answer_json : Text
  pub source_type : Text
  pub source_name : Option Text

abbrev pub answer_at : Text → Text → OnboardingAnswer → Bool
answer_at k question a = same a.workspace_id k && same a.question_id question

abbrev pub is_repeated : Reply → Option OnboardingAnswer → Bool
is_repeated r none = false
is_repeated r (some a) =
    same a.status r.status
    && same a.answer_json r.answer_json
    && same a.source_type r.source_type
    && same_option a.source_name r.source_name

abbrev pub new_answer : ℕ → Text → Text → Reply → OnboardingAnswer
new_answer timestamp k question r = record {
  workspace_id = k;
  question_id = question;
  status = r.status;
  answer_json = r.answer_json;
  source_type = r.source_type;
  source_name = r.source_name;
  created_at = timestamp;
  updated_at = timestamp;
}

abbrev pub replaced : ℕ → Reply → OnboardingAnswer → OnboardingAnswer
replaced timestamp r a = record a {
  status = r.status;
  answer_json = r.answer_json;
  source_type = r.source_type;
  source_name = r.source_name;
  updated_at = timestamp;
}

-- INSERT … ON CONFLICT(workspace_id, question_id) DO UPDATE
unfoldable pub put_answer : ℕ → Text → Text → Reply → Db → Db
put_answer timestamp k question r db = record db {
  answers =
      if exists (answer_at k question) db.answers
      then update (answer_at k question) (replaced timestamp r) db.answers
      else insert (new_answer timestamp k question r) db.answers;
}

-- the transaction of `record_company_onboarding_answer`
unfoldable pub answer_row : ℕ → Text → Text → Reply → Crm OnboardingAnswer
unfolding put_answer put_profile reopen
answer_row timestamp k question r = do
  existing ← gets (λ db. find (answer_at k question) db.answers)
  if is_repeated r existing then or_raise existing assertion_failed else do
    modify (put_answer timestamp k question r)
    modify (put_profile timestamp k)
    modify (reopen timestamp k)
    row ← gets (λ db. find (answer_at k question) db.answers)
    or_raise row assertion_failed

-- the checks before the transaction: the question and what is stored
unfoldable pub checked_reply :
    Library → Text → Text → Json → Text → Option Text → Crm (Text × Reply)
checked_reply lib question_id status answer source_type source_name = do
  question ← or_raise (validated question_id onboarding_question_ids) bad_question
  clean_status ← or_raise (validated status onboarding_answer_statuses) bad_answer_status
  raise_if (not (is_grounded answer)) not_grounded
  let encoded = lib.dumps answer
  raise_if (ltb 16000 (utf8_length encoded)) too_large
  pure (
    question,
    record {
      status = clean_status;
      answer_json = encoded;
      source_type = or_text (collapse (or_text source_type (text "chat"))) (text "chat");
      source_name = or_none (collapse (or_empty source_name));
    },
  )

unfoldable pub record_company_onboarding_answer :
    Library → ℕ → Text → Text → Text → Json → Text → Option Text → Crm OnboardingAnswer
unfolding checked_reply answer_row require_workspace
record_company_onboarding_answer lib timestamp value question_id status answer source_type
      source_name =
    do
      k ← require_workspace value
      reply ← checked_reply lib question_id status answer source_type source_name
      transaction (answer_row timestamp k reply.0 reply.1)

abbrev pub by_question : OnboardingAnswer → OnboardingAnswer → Bool
by_question a b = before a.question_id b.question_id

-- the values of the dictionary of `list_company_onboarding_answers`
unfoldable pub answers_of : Text → Db → List OnboardingAnswer
answers_of k db = sort_by by_question (select (λ a. same a.workspace_id k) db.answers)
