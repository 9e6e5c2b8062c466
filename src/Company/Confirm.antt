-- ===== src/Company/Confirm.antt =====
-- The confirmation of the onboarding (`complete_company_onboarding` of app/crm.py).
pub mod Keeps
pub mod Calls
use ollum_sales.Prelude.{
  ℕ, Bool, true, false, not, ◌&&◌, Option, none, some, List, [], ◌∷◌, take, ◌==◌, if◌then◌else◌,
}
use ollum_sales.Text.{Text, text, same, collapse}
use ollum_sales.Exec.{pure, gets, modify, raise_if, transaction, ◌>>=◌, ◌>>◌}
use ollum_sales.Table.{count, update}
use ollum_sales.Schema.{
  Db, CompanyProfile, AgentSettings, OnboardingStatus, Crm, not_confirmed, onboarding_incomplete,
  stale_revision, hash_mismatch,
}
use ollum_sales.Workspaces.{workspace_id, put_settings, settings_at}
use ollum_sales.Company.{Library, profile_at, same_option}
use ollum_sales.Company.Interview.{
  OnboardingState, onboarding_state, get_company_onboarding_state, is_revision,
}

-- `s or default`, of an optional text
abbrev pub or_default : Option Text → Text → Text
or_default none t = t
or_default (some []) t = t
or_default (some (c ∷ s)) t = c ∷ s

abbrev pub confirmed : ℕ → OnboardingState → Text → CompanyProfile → CompanyProfile
confirmed timestamp state confirmer p = record p {
  onboarding_status = OnboardingStatus.ready;
  completed_at = some timestamp;
  updated_at = some timestamp;
  confirmed_revision = some state.profile.revision;
  confirmed_summary_hash = some state.summary_hash;
  confirmed_by = some confirmer;
  confirmed_at = some timestamp;
}

abbrev pub at_revision : Text → OnboardingState → CompanyProfile → Bool
at_revision k state p = profile_at k p && p.revision == state.profile.revision

-- `COALESCE(a, b)`
abbrev pub coalesce : Option Text → Option Text → Option Text
coalesce none b = b
coalesce (some a) b = some a

abbrev pub niche_of : Text → Option Text → Text
niche_of niche none = niche
niche_of niche (some industry) = if same niche (text "auto") then industry else niche

-- the agent's settings take what the profile says and they do not
abbrev pub filled : ℕ → CompanyProfile → AgentSettings → AgentSettings
filled timestamp p s = record s {
  niche = niche_of s.niche p.facts.industry;
  objective = coalesce s.objective p.facts.primary_goal;
  tone = coalesce s.tone p.facts.tone_of_voice;
  instructions = coalesce s.instructions p.facts.constraints;
  updated_at = timestamp;
}

unfoldable pub set_confirmed : ℕ → Text → OnboardingState → Text → Db → Db
set_confirmed timestamp k state confirmer db = record db {
  profiles = update (at_revision k state) (confirmed timestamp state confirmer) db.profiles;
}

unfoldable pub fill_settings : ℕ → Text → CompanyProfile → Db → Db
fill_settings timestamp k p db = record db {
  settings = update (settings_at k) (filled timestamp p) db.settings;
}

-- the transaction of `complete_company_onboarding`, with the state that was read before it
unfoldable pub confirm_row : ℕ → Text → OnboardingState → Text → Crm (Unit {0})
unfolding set_confirmed put_settings fill_settings
confirm_row timestamp k state confirmer = do
  rowcount ← gets (λ db. count (at_revision k state) db.profiles)
  modify (set_confirmed timestamp k state confirmer)
  raise_if (not (rowcount == 1)) stale_revision
  modify (put_settings timestamp k)
  modify (fill_settings timestamp k state.profile)

-- from the state on: the checks and the transaction
unfoldable pub confirm_state :
    ℕ → Text → OnboardingState → Option ℕ → Option Text → Option Text → Crm (Unit {0})
unfolding confirm_row
confirm_state timestamp k state confirmed_revision summary_hash confirmed_by = do
  raise_if (not state.ready_for_sales) onboarding_incomplete
  raise_if (not (is_revision confirmed_revision state.profile.revision)) stale_revision
  raise_if (not (same_option summary_hash (some state.summary_hash))) hash_mismatch
  transaction (
      confirm_row timestamp k state
        (take 320 (collapse (or_default confirmed_by (text "operator")))))

unfoldable pub complete_company_onboarding :
    Library → ℕ → Text → Bool → Option ℕ → Option Text → Option Text → Crm OnboardingState
unfolding confirm_state
complete_company_onboarding lib timestamp value confirm_ready confirmed_revision summary_hash
      confirmed_by =
    do
      raise_if (not confirm_ready) not_confirmed
      k ← workspace_id value
      state ← get_company_onboarding_state lib k
      confirm_state timestamp k state confirmed_revision summary_hash confirmed_by
      get_company_onboarding_state lib k
