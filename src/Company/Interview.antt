-- ===== src/Company/Interview.antt =====
-- The state of the onboarding (`get_company_onboarding_state` of app/crm.py): what is missing, what is
-- asked next, the summary to review, and whether its confirmation is current. The questions'
-- prompts and the texts of the next step are left out.
pub mod Coverage
use ollum_sales.Prelude.{
  ℕ, ◌+◌, ◌-◌, ◌*◌, ◌/◌, ◌≡◌, Bool, true, false, not, ◌&&◌, ◌||◌, List, [], ◌∷◌, ◌++◌, map, Option,
  none, some, length, ltb, take, ◌==◌, if◌then◌else◌,
}
use ollum_sales.Text.{Text, text, same, given, before}
use ollum_sales.Exec.{pure, gets, transaction, ◌>>=◌}
use ollum_sales.Table.{find, count, exists, sort_by}
use ollum_sales.Schema.{
  Db, Facts, CompanyProfile, KnowledgeItem, OnboardingAnswer, Crm, is_ready, is_active_knowledge,
}
use ollum_sales.Workspaces.{workspace_id}
use ollum_sales.Company.{Library, KnowledgeLine, AnswerLine, ReviewSummary, same_option, profile_of}
use ollum_sales.Company.Profile.{
  Field, company_name, website_url, industry, geography, positioning, target_customer,
  sales_process, tone_of_voice, primary_goal, get_field,
}
use ollum_sales.Company.Knowledge.{active_knowledge, is_in}
use ollum_sales.Company.Answers.{answers_of}

-- The names in `missing`.
pub data Missing : Type 0 where
  fact : Field → Missing
  services prices customer_proof active_clients : Missing

pub data Question : Type 0 where
  ask_identity ask_website ask_market ask_target_customer ask_services ask_prices : Question
  ask_positioning ask_closed_clients ask_pipeline ask_tone : Question

-- `counts.get(category, 0) > 0`
abbrev pub has_category : Text → Text → Db → Bool
has_category k category db = ltb 0 (
    count
      (λ (i : KnowledgeItem).
        is_in k i && (is_active_knowledge i.status && same i.category category))
      db.knowledge)

-- `question in answers`
abbrev pub has_answer : Text → Text → Db → Bool
has_answer k question db =
    exists (λ (a : OnboardingAnswer). same a.question_id question) (answers_of k db)

-- `knowledge_checks`
pub record Checks : Type 0 where
  pub has_services : Bool
  pub has_prices : Bool
  pub has_proof : Bool
  pub has_clients : Bool

unfoldable pub knowledge_checks : Text → Db → Checks
knowledge_checks k db = record {
  has_services = has_category k (text "service") db;
  has_prices = has_category k (text "price") db;
  has_proof =
      has_category k (text "case") db
      || has_category k (text "closed_client") db
      || has_answer k (text "customer_proof") db;
  has_clients =
      has_category k (text "current_client") db || has_answer k (text "active_clients") db;
}

abbrev pub profile_checks : List Field
profile_checks =
    company_name ∷ industry ∷ geography ∷ target_customer ∷ positioning ∷ sales_process
    ∷ tone_of_voice ∷ primary_goal ∷ []

abbrev pub named_if : {A : Type 0} → Bool → A → List A
named_if true a = a ∷ []
named_if false a = []

unfoldable pub missing_facts : List Field → Facts → List Missing
missing_facts [] f = []
missing_facts (name ∷ names) f =
    named_if (not (given (get_field name f))) (fact name) ++ missing_facts names f

unfoldable pub missing_of : Facts → Checks → List Missing
unfolding missing_facts
missing_of f c =
    missing_facts profile_checks f
    ++ (named_if (not c.has_services) services
        ++ (named_if (not c.has_prices) prices
            ++ (named_if (not c.has_proof) customer_proof
                ++ named_if (not c.has_clients) active_clients)))

-- `round(completed / 12 * 100)`, where no quotient lies half-way; twelve checks, less the missing ones
abbrev pub percent_of : ℕ → ℕ
percent_of missing = (200 * (12 - missing) + 12) / 24

abbrev pub ready_for_sales : Facts → Checks → Bool
ready_for_sales f c =
    given f.company_name
    && given f.industry
    && given f.target_customer
    && given f.positioning
    && c.has_services
    && c.has_prices

-- `questions`; `website_answered` is `"website" in answers`
unfoldable pub questions_of : Facts → Checks → Bool → List Question
questions_of f c website_answered =
    (if not (given f.company_name)
      then ask_identity ∷ []
      else named_if (not (given f.website_url) && not website_answered) ask_website)
    ++ (named_if (not (given f.industry) || not (given f.geography)) ask_market
        ++ (named_if (not (given f.target_customer)) ask_target_customer
            ++ (named_if (not c.has_services) ask_services
                ++ (named_if (not c.has_prices) ask_prices
                    ++ (named_if (not (given f.positioning)) ask_positioning
                        ++ (named_if (not c.has_proof) ask_closed_clients
                            ++ (named_if (not c.has_clients || not (given f.sales_process))
                                  ask_pipeline
                                ++ named_if (not (given f.tone_of_voice)) ask_tone)))))))

abbrev pub line_of : KnowledgeItem → KnowledgeLine
line_of i = record {
  category = i.category;
  title = i.title;
  content = i.content_json;
  source_type = i.source_type;
  source_name = i.source_name;
}

abbrev pub answer_line : OnboardingAnswer → AnswerLine
answer_line a = record {
  question_id = a.question_id;
  status = a.status;
  answer = a.answer_json;
  source_type = a.source_type;
  source_name = a.source_name;
}

-- the order by category, title and id
abbrev pub by_category : KnowledgeItem → KnowledgeItem → Bool
by_category i j =
    before i.category j.category
    || same i.category j.category
      && (before i.title j.title || same i.title j.title && before i.id j.id)

unfoldable pub review_summary : Text → Db → ReviewSummary
review_summary k db = record {
  profile = (profile_of k db).facts;
  knowledge = map line_of (sort_by by_category (active_knowledge k 500 db));
  explicit_answers = map answer_line (answers_of k db);
}

pub record OnboardingState : Type 0 where
  pub profile : CompanyProfile
  pub completion_percent : ℕ
  pub ready_for_sales : Bool
  pub sales_ready : Bool
  pub review_summary : ReviewSummary
  pub summary_hash : Text
  pub confirmation_current : Bool
  pub missing : List Missing
  pub next_questions : List Question

abbrev pub is_revision : Option ℕ → ℕ → Bool
is_revision none n = false
is_revision (some m) n = m == n

abbrev pub is_current : CompanyProfile → Text → Bool
is_current p hash =
    is_revision p.confirmed_revision p.revision && same_option p.confirmed_summary_hash (some hash)

-- `get_company_onboarding_state`, for a valid workspace id
unfoldable pub onboarding_state : Library → Text → Db → OnboardingState
unfolding knowledge_checks missing_of questions_of review_summary
onboarding_state lib k db =
    let p = profile_of k db in
    let c = knowledge_checks k db in
    let missing = missing_of p.facts c in
    let hash = lib.summary_hash p.revision (review_summary k db) in
    record {
      profile = p;
      completion_percent = percent_of (length missing);
      ready_for_sales = ready_for_sales p.facts c;
      sales_ready = is_ready p.onboarding_status && ready_for_sales p.facts c && is_current p hash;
      review_summary = review_summary k db;
      summary_hash = hash;
      confirmation_current = is_current p hash;
      missing = missing;
      next_questions = take 3 (questions_of p.facts c (has_answer k (text "website") db));
    }

unfoldable pub get_company_onboarding_state : Library → Text → Crm OnboardingState
unfolding onboarding_state
get_company_onboarding_state lib value = do
  k ← workspace_id value
  transaction (gets (onboarding_state lib k))
