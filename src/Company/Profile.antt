-- ===== src/Company/Profile.antt =====
-- `canonical_company_url`, `get_company_profile` and `update_company_profile` of app/crm.py.
use ollum_sales.Prelude.{
  ℕ, zero, suc, ◌+◌, ◌/◌, ◌%◌, Bool, true, false, not, ◌&&◌, ◌||◌, List, [], ◌∷◌, ◌++◌, Option,
  none, some, length, ltb, ◌==◌, if◌then◌else◌,
}
use ollum_sales.Text.{Text, text, same, strip, lower, collapse, or_none, or_empty, given, one_of}
use ollum_sales.Exec.{pure, gets, or_raise, modify, raise_if, transaction, ◌>>=◌, ◌>>◌}
use ollum_sales.Table.{find, update}
use ollum_sales.Schema.{
  Db, Facts, CompanyProfile, Crm, named, bad_url, url_credentials, unsupported_fields, no_fields,
  field_too_long, assertion_failed,
}
use ollum_sales.Workspaces.{workspace_id, require_workspace}
use ollum_sales.Company.{
  Library, SplitUrl, same_option, profile_at, put_profile, reopened, profile_of,
}

-- `str(n)`, for a number of at most `digits` digits
unfoldable pub decimal : ℕ → ℕ → Text
decimal zero n = []
decimal (suc digits) n =
    let front = decimal digits (n / 10) in
    if ltb n 10 then (48 + n) ∷ [] else front ++ (48 + n % 10) ∷ []

-- `s.rstrip(".")`
abbrev pub cons_undotted : ℕ → Text → Text
cons_undotted c [] = if c == 46 then [] else c ∷ []
cons_undotted c (d ∷ s) = c ∷ d ∷ s

unfoldable pub undotted : Text → Text
undotted [] = []
undotted (c ∷ s) = cons_undotted c (undotted s)

abbrev pub is_default_port : Text → ℕ → Bool
is_default_port scheme port =
    same scheme (text "http") && port == 80 || same scheme (text "https") && port == 443

-- a port is at most 65535
abbrev pub netloc_of : Text → Text → Option ℕ → Text
netloc_of scheme host none = host
netloc_of scheme host (some zero) = host
netloc_of scheme host (some (suc n)) =
    if is_default_port scheme (suc n) then host else host ++ text ":" ++ decimal 5 (suc n)

-- `canonical_company_url`, from what `urlsplit` reads
unfoldable pub canonical_company_url : (Text → Option SplitUrl) → Text → Crm Text
unfolding undotted decimal
canonical_company_url urlsplit value = do
  parsed ← or_raise (urlsplit (strip value)) bad_url
  let scheme = lower parsed.scheme
  raise_if (not (one_of scheme (text "http" ∷ text "https" ∷ [])) || not (given parsed.hostname))
      bad_url
  raise_if (given parsed.username || given parsed.password) url_credentials
  port ← or_raise parsed.port bad_url
  pure (
      scheme
      ++ text "://"
      ++ netloc_of scheme (lower (undotted (or_empty parsed.hostname))) port
      ++ text "/")

unfoldable pub get_company_profile : Text → Crm CompanyProfile
get_company_profile value = do k ← workspace_id value; transaction (gets (profile_of k))

pub data Field : Type 0 where
  company_name website_url industry geography positioning target_customer : Field
  sales_process tone_of_voice primary_goal constraints language : Field

abbrev pub profile_fields : List (Text × Field)
profile_fields =
    (text "company_name", company_name)
    ∷ (text "website_url", website_url)
    ∷ (text "industry", industry)
    ∷ (text "geography", geography)
    ∷ (text "positioning", positioning)
    ∷ (text "target_customer", target_customer)
    ∷ (text "sales_process", sales_process)
    ∷ (text "tone_of_voice", tone_of_voice)
    ∷ (text "primary_goal", primary_goal)
    ∷ (text "constraints", constraints)
    ∷ (text "language", language)
    ∷ []

abbrev pub limit_of : Field → ℕ
limit_of company_name = 200
limit_of website_url = 2048
limit_of industry = 300
limit_of geography = 800
limit_of positioning = 4000
limit_of target_customer = 4000
limit_of sales_process = 6000
limit_of tone_of_voice = 3000
limit_of primary_goal = 3000
limit_of constraints = 6000
limit_of language = 80

abbrev pub get_field : Field → Facts → Option Text
get_field company_name f = f.company_name
get_field website_url f = f.website_url
get_field industry f = f.industry
get_field geography f = f.geography
get_field positioning f = f.positioning
get_field target_customer f = f.target_customer
get_field sales_process f = f.sales_process
get_field tone_of_voice f = f.tone_of_voice
get_field primary_goal f = f.primary_goal
get_field constraints f = f.constraints
get_field language f = f.language

abbrev pub set_field : Field → Option Text → Facts → Facts
set_field company_name v f = record f { company_name = v }
set_field website_url v f = record f { website_url = v }
set_field industry v f = record f { industry = v }
set_field geography v f = record f { geography = v }
set_field positioning v f = record f { positioning = v }
set_field target_customer v f = record f { target_customer = v }
set_field sales_process v f = record f { sales_process = v }
set_field tone_of_voice v f = record f { tone_of_voice = v }
set_field primary_goal v f = record f { primary_goal = v }
set_field constraints v f = record f { constraints = v }
set_field language v f = record f { language = v }

-- the fields by name, none where a name is not one of theirs
unfoldable pub fields_of : List (Text × Option Text) → Option (List (Field × Option Text))
fields_of [] = some []
fields_of ((name, value) ∷ rest) = elim (named name profile_fields) [
  | none ↦ none
  | some f ↦ elim (fields_of rest) [ none ↦ none | some fs ↦ some ((f, value) ∷ fs) ]
]

abbrev pub no_entries : List (Field × Option Text) → Bool
no_entries [] = true
no_entries (f ∷ fs) = false

abbrev pub too_long : ℕ → Option Text → Bool
too_long limit none = false
too_long limit (some s) = ltb limit (length s)

-- `website_url` is stored in its canonical form
abbrev pub canonical_value : Library → Field → Option Text → Crm (Option Text)
canonical_value lib website_url (some s) = do
  url ← canonical_company_url lib.urlsplit s
  pure (some url)
canonical_value lib f v = pure v

-- one round of the loop, from the text without extra white space
unfoldable pub clean_field : Library → Field → Option Text → Crm (Option Text)
unfolding canonical_company_url
clean_field lib f normalized = do
  raise_if (too_long (limit_of f) normalized) field_too_long
  canonical_value lib f normalized

unfoldable pub clean_fields :
    Library → List (Field × Option Text) → Crm (List (Field × Option Text))
unfolding clean_field
clean_fields lib [] = pure []
clean_fields lib ((f, value) ∷ rest) = do
  clean ← clean_field lib f (or_none (collapse (or_empty value)))
  others ← clean_fields lib rest
  pure ((f, clean) ∷ others)

-- `all(existing[name] == value for name, value in clean.items())`
unfoldable pub unchanged : List (Field × Option Text) → Facts → Bool
unchanged [] f = true
unchanged ((name, value) ∷ rest) f = same_option (get_field name f) value && unchanged rest f

unfoldable pub set_fields : List (Field × Option Text) → Facts → Facts
set_fields [] f = f
set_fields ((name, value) ∷ rest) f = set_fields rest (set_field name value f)

unfoldable pub set_profile : ℕ → Text → List (Field × Option Text) → Db → Db
unfolding set_fields
set_profile timestamp k clean db = record db {
  profiles =
      update (profile_at k)
        (λ p. record (reopened timestamp p) { facts = set_fields clean p.facts }) db.profiles;
}

-- the transaction of `update_company_profile`
unfoldable pub update_row : ℕ → Text → List (Field × Option Text) → Crm CompanyProfile
unfolding put_profile unchanged set_profile
update_row timestamp k clean = do
  modify (put_profile timestamp k)
  row ← gets (λ db. find (profile_at k) db.profiles)
  existing ← or_raise row assertion_failed
  if unchanged clean existing.facts then pure existing else do
    modify (set_profile timestamp k clean)
    row' ← gets (λ db. find (profile_at k) db.profiles)
    or_raise row' assertion_failed

-- the checks before the transaction
unfoldable pub checked_fields :
    Library → List (Text × Option Text) → Crm (List (Field × Option Text))
unfolding fields_of clean_fields
checked_fields lib fields = do
  given_fields ← or_raise (fields_of fields) unsupported_fields
  raise_if (no_entries given_fields) no_fields
  clean_fields lib given_fields

-- `fields` are the keyword arguments, in their order.
unfoldable pub update_company_profile :
    Library → ℕ → Text → List (Text × Option Text) → Crm CompanyProfile
unfolding checked_fields update_row require_workspace
update_company_profile lib timestamp value fields = do
  k ← require_workspace value
  clean ← checked_fields lib fields
  transaction (update_row timestamp k clean)
