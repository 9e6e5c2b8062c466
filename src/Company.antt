-- ===== src/Company.antt =====
-- The company profile of a workspace (app/crm.py): what its parts share. What the libraries compute is an
-- argument: `urlsplit`, `json.dumps`, and the hash of a summary, which is SHA-256 of a JSON text.
pub mod Profile
pub mod Knowledge
pub mod Answers
pub mod Interview
pub mod Confirm
use ollum_sales.Prelude.{
  ℕ, suc, ◌+◌, Bool, true, false, not, ◌&&◌, ◌||◌, List, [], ◌∷◌, Option, none, some, ltb,
  if◌then◌else◌,
}
use ollum_sales.Text.{Text, same, strip, is_empty}
use ollum_sales.Table.{find, update, insert, exists}
use ollum_sales.Schema.{Db, Facts, CompanyProfile, OnboardingStatus}

-- What `urlsplit` reads; a port that is out of range raises.
pub record SplitUrl : Type 0 where
  pub scheme : Text
  pub hostname : Option Text
  pub username : Option Text
  pub password : Option Text
  pub port : Option (Option ℕ)

-- JSON values, with numbers as they are written
mutual
  pub data Json : Type 0 where
    null : Json
    str : Text → Json
    bool : Bool → Json
    num : Text → Json
    dict : Fields → Json
    list : Items → Json

  pub data Fields : Type 0 where
    no_fields : Fields
    field : Text → Json → Fields → Fields

  pub data Items : Type 0 where
    no_items : Items
    item : Json → Items → Items

-- the parts of `review_summary`
pub record KnowledgeLine : Type 0 where
  pub category : Text
  pub title : Text
  pub content : Text
  pub source_type : Text
  pub source_name : Option Text

pub record AnswerLine : Type 0 where
  pub question_id : Text
  pub status : Text
  pub answer : Text
  pub source_type : Text
  pub source_name : Option Text

pub record ReviewSummary : Type 0 where
  pub profile : Facts
  pub knowledge : List KnowledgeLine
  pub explicit_answers : List AnswerLine

-- `urlsplit` (none where it raises), `_json`, and the hash of a revision and its summary
pub record Library : Type 0 where
  pub urlsplit : Text → Option SplitUrl
  pub dumps : Json → Text
  pub summary_hash : ℕ → ReviewSummary → Text

-- `_has_grounded_knowledge_content`
unfoldable mutual
  pub is_grounded : Json → Bool
  is_grounded null = false
  is_grounded (str s) = not (is_empty (strip s))
  is_grounded (bool b) = true
  is_grounded (num n) = true
  is_grounded (dict fs) = any_field fs
  is_grounded (list xs) = any_item xs

  pub any_field : Fields → Bool
  any_field no_fields = false
  any_field (field key value fs) = not (is_empty (strip key)) && is_grounded value || any_field fs

  pub any_item : Items → Bool
  any_item no_items = false
  any_item (item x xs) = is_grounded x || any_item xs

-- `len(s.encode("utf-8"))`, of a text with no lone surrogates
unfoldable pub utf8_length : Text → ℕ
utf8_length [] = 0
utf8_length (c ∷ s) =
    (if ltb c 128 then 1 else if ltb c 2048 then 2 else if ltb c 65536 then 3 else 4)
    + utf8_length s

-- `" ".join(str(value or "").split()) or …`
abbrev pub or_text : Text → Text → Text
or_text [] t = t
or_text (c ∷ s) t = c ∷ s

abbrev pub same_option : Option Text → Option Text → Bool
same_option none none = true
same_option (some s) (some t) = same s t
same_option _ _ = false

abbrev pub profile_at : Text → CompanyProfile → Bool
profile_at k p = same p.workspace_id k

abbrev pub no_facts : Facts
no_facts = record {
  company_name = none;
  website_url = none;
  industry = none;
  geography = none;
  positioning = none;
  target_customer = none;
  sales_process = none;
  tone_of_voice = none;
  primary_goal = none;
  constraints = none;
  language = none;
}

-- the answer of `get_company_profile` for a workspace with no row
abbrev pub empty_profile : Text → CompanyProfile
empty_profile k = record {
  workspace_id = k;
  facts = no_facts;
  onboarding_status = OnboardingStatus.not_started;
  revision = 0;
  created_at = none;
  updated_at = none;
  completed_at = none;
  confirmed_revision = none;
  confirmed_summary_hash = none;
  confirmed_by = none;
  confirmed_at = none;
}

abbrev pub new_profile : ℕ → Text → CompanyProfile
new_profile timestamp k = record (empty_profile k) {
  created_at = some timestamp;
  updated_at = some timestamp;
}

-- `INSERT OR IGNORE INTO company_profiles`
unfoldable pub put_profile : ℕ → Text → Db → Db
put_profile timestamp k db = record db {
  profiles =
      if exists (profile_at k) db.profiles
      then db.profiles
      else insert (new_profile timestamp k) db.profiles;
}

-- the columns that every change of a fact sets
abbrev pub reopened : ℕ → CompanyProfile → CompanyProfile
reopened timestamp p = record p {
  onboarding_status = OnboardingStatus.in_progress;
  revision = suc p.revision;
  updated_at = some timestamp;
  completed_at = none;
  confirmed_revision = none;
  confirmed_summary_hash = none;
  confirmed_by = none;
  confirmed_at = none;
}

unfoldable pub reopen : ℕ → Text → Db → Db
reopen timestamp k db = record db {
  profiles = update (profile_at k) (reopened timestamp) db.profiles;
}

abbrev pub or_empty_profile : Text → Option CompanyProfile → CompanyProfile
or_empty_profile k none = empty_profile k
or_empty_profile k (some p) = p

-- what `get_company_profile` answers for a valid id
abbrev pub profile_of : Text → Db → CompanyProfile
profile_of k db = or_empty_profile k (find (profile_at k) db.profiles)
