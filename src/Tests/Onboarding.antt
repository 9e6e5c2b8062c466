-- ===== src/Tests/Onboarding.antt =====
-- Witnesses of the properties of the onboarding of a company: one workspace with a complete profile.
use ollum_sales.Prelude.{◌<◌, ◌≡◌, ◌⊎◌, refl, true, false, not, List, [], ◌∷◌, none, some}
use ollum_sales.Text.{
  text, same, given, lower, lower_char, strip, rstrip, lstrip, is_space, cons_stripped, has_char,
  collapse, split_from, join_spaces,
}
use ollum_sales.Table.{find, exists, count, update, select, sort_by}
use ollum_sales.Exec.{ok}
use ollum_sales.Schema.{
  Db, Facts, CompanyProfile, KnowledgeItem, OnboardingAnswer, OnboardingStatus, KnowledgeStatus,
}
use ollum_sales.Company.{Library, no_facts, empty_profile, profile_of}
use ollum_sales.Company.Profile.{primary_goal}
use ollum_sales.Company.Interview.{
  onboarding_state, review_summary, knowledge_checks, named_if, fact,
}
use ollum_sales.Company.Confirm.{confirm_state, confirm_row, set_confirmed, fill_settings}
use ollum_sales.Workspaces.{put_settings, workspace_id, has_other}
use ollum_sales.Company.Knowledge.{
  active_knowledge, archive_company_knowledge, archive_row, archive_item,
}
use ollum_sales.Company.Answers.{answers_of}
use ollum_sales.Company.Confirm.Calls.{
  CompanyCall, CompanyEdit, edits, archives, run, edited, after,
}
use ollum_sales.Company.Confirm.Calls.Profiled.{IsCompany}
use ollum_sales.Company.Confirm.Calls.Confirmed.{onboarding_versioned, confirmation_current}
use ollum_sales.Company.Confirm.Calls.Standing.{edits_run, confirmation_stands}
use ollum_sales.Company.Interview.Coverage.{interview_covers}
use ollum_sales.Settings.{NumberSetting, number, autonomy_mode}
use ollum_sales.Settings.Runs.{
  SettingsCall, reads, updates, completes, settings_run, AllBounded, settings_run-AllBounded,
}
use ollum_sales.Tests.Board.{board}

abbrev lib : Library
lib = record { urlsplit = λ _. none; dumps = λ _. text "{}"; summary_hash = λ n _. n ∷ [] }

abbrev facts : Facts
facts = record no_facts {
  company_name = some (text "Ollum");
  website_url = some (text "https://o.kz/");
  industry = some (text "sales");
  geography = some (text "kz");
  positioning = some (text "fast");
  target_customer = some (text "shops");
  sales_process = some (text "calls");
  tone_of_voice = some (text "warm");
}

abbrev profile : CompanyProfile
profile = record (empty_profile (text "w")) {
  facts = facts;
  onboarding_status = OnboardingStatus.in_progress;
  revision = 3;
  created_at = some 1;
  updated_at = some 1;
}

abbrev item : KnowledgeItem
item = record {
  id = text "i";
  workspace_id = text "w";
  category = text "service";
  title = text "bot";
  content_json = text "{}";
  source_type = text "chat";
  source_name = none;
  status = KnowledgeStatus.active;
  created_at = 1;
  updated_at = 1;
}

abbrev reply : OnboardingAnswer
reply = record {
  workspace_id = text "w";
  question_id = text "customer_proof";
  status = text "answered";
  answer_json = text "{}";
  source_type = text "chat";
  source_name = none;
  created_at = 1;
  updated_at = 1;
}

abbrev known : Db
known = record board {
  profiles = profile ∷ [];
  knowledge =
      item
      ∷ record item { id = text "j"; category = text "price" }
      ∷ record item { id = text "c"; category = text "current_client" }
      ∷ [];
  answers = reply ∷ [];
}

known-IsCompany : IsCompany known
unfolding find exists same
known-IsCompany = record { keyed = (refl, tt); profiled = (refl, (refl, (refl, tt))) }

-- an archive in another workspace, which raises
abbrev other_call : CompanyEdit
other_call = archives 5 (text "v") (text "z")

abbrev to_run : List CompanyCall
to_run = edits other_call ∷ []

onboarding_versioned_example :
    ((profile_of (text "w") known).revision
      < (profile_of (text "w") (run lib known to_run)).revision)
    ⊎ (((profile_of (text "w") (run lib known to_run)).revision
          ≡ (profile_of (text "w") known).revision)
        × (review_summary (text "w") (run lib known to_run) ≡ review_summary (text "w") known))
onboarding_versioned_example = onboarding_versioned lib (text "w") known to_run known-IsCompany

abbrev confirmed_db : Db
confirmed_db =
    (confirm_state 9 (text "w") (onboarding_state lib (text "w") known) (some 3) (some (3 ∷ []))
      none (run lib known to_run)).1

confirms :
    confirm_state 9
      (text "w")
      (onboarding_state lib (text "w") known)
      (some 3)
      (some (3 ∷ []))
      none
      (run lib known to_run)
    ≡ (ok tt, confirmed_db)
unfolding confirm_state confirm_row set_confirmed fill_settings put_settings onboarding_state
    knowledge_checks review_summary active_knowledge answers_of find same count exists select
    sort_by update run after edited archive_company_knowledge archive_row archive_item workspace_id
    lower lower_char strip rstrip lstrip is_space cons_stripped has_other has_char collapse
    split_from join_spaces
confirms = refl

confirmation_current_example :
    (review_summary (text "w") confirmed_db ≡ review_summary (text "w") known)
    × ((onboarding_state lib (text "w") confirmed_db).sales_ready ≡ true)
confirmation_current_example =
    confirmation_current lib 9 (text "w") known confirmed_db to_run (some 3) (some (3 ∷ [])) none
      known-IsCompany confirms

confirmation_stands_example :
    ((review_summary (text "w") (edits_run lib known (other_call ∷ []))
        ≡ review_summary (text "w") known)
      × ((onboarding_state lib (text "w") (edits_run lib known (other_call ∷ []))).sales_ready
          ≡ (onboarding_state lib (text "w") known).sales_ready))
    ⊎ ((onboarding_state lib (text "w") (edits_run lib known (other_call ∷ []))).sales_ready
        ≡ false)
confirmation_stands_example =
    confirmation_stands lib (text "w") known (other_call ∷ []) known-IsCompany

nothing_asked : (onboarding_state lib (text "w") known).next_questions ≡ []
unfolding onboarding_state find same count exists answers_of sort_by select
nothing_asked = refl

interview_covers_example :
    ((onboarding_state lib (text "w") known).missing
      ≡ named_if (not (given (profile_of (text "w") known).facts.primary_goal)) (fact primary_goal))
    × ((onboarding_state lib (text "w") known).ready_for_sales ≡ true)
interview_covers_example = interview_covers lib (text "w") known nothing_asked

abbrev to_settle : List SettingsCall
to_settle =
    reads 8 (text "w")
    ∷ updates 8 9 9 (text "w")
        (number NumberSetting.max_reply_chars 9000 ∷ autonomy_mode (text " Observe") ∷ [])
    ∷ completes 9 (text "w") true (some 3) (some (3 ∷ [])) none
    ∷ []

settings_run-AllBounded_example : AllBounded (settings_run lib known to_settle)
settings_run-AllBounded_example = settings_run-AllBounded lib known to_settle tt
