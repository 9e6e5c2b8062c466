-- ===== src/Company/Interview/Coverage.antt =====
-- What the interview of the onboarding asks for (app/crm.py).
use ollum_sales.Prelude.{
  ◌≡◌, refl, ap, Bool, true, false, not, ◌||◌, List, [], ◌∷◌, ◌++◌, arith, take, if◌then◌else◌,
}
use ollum_sales.Text.{Text, given}
use ollum_sales.Schema.{Db, Facts}
use ollum_sales.Company.{Library, profile_of}
use ollum_sales.Company.Profile.{primary_goal}
use ollum_sales.Company.Interview.{
  Missing, fact, Question, ask_identity, ask_market, ask_target_customer, ask_services, ask_prices,
  ask_positioning, ask_closed_clients, ask_pipeline, ask_tone, Checks, named_if, missing_facts,
  missing_of, questions_of, knowledge_checks, onboarding_state,
}

abbrev no_questions : List Question → Bool
no_questions [] = true
no_questions (q ∷ qs) = false

-- What a complete interview has.
record IsAsked (f : Facts) (c : Checks) : Type 0 where
  name : given f.company_name ≡ true
  industry : given f.industry ≡ true
  geography : given f.geography ≡ true
  customer : given f.target_customer ≡ true
  position : given f.positioning ≡ true
  process : given f.sales_process ≡ true
  tone : given f.tone_of_voice ≡ true
  has_services : c.has_services ≡ true
  has_prices : c.has_prices ≡ true
  has_proof : c.has_proof ≡ true
  has_clients : c.has_clients ≡ true

none-append :
    (xs ys : List Question)
    → no_questions (xs ++ ys) ≡ true
    → (no_questions xs ≡ true) × (no_questions ys ≡ true)
none-append [] ys h = (refl, h)
none-append (x ∷ xs) ys h = absurd (ground arith)

none-named_if : (b : Bool) (q : Question) → no_questions (named_if b q) ≡ true → b ≡ false
none-named_if true q h = absurd (ground arith)
none-named_if false q h = refl

none_identity :
    (b : Bool) (qs : List Question)
    → no_questions (if not b then ask_identity ∷ [] else qs) ≡ true
    → b ≡ true
none_identity true qs h = refl
none_identity false qs h = absurd (ground arith)

-- What an interview with nothing to ask has.
questions_of-IsAsked :
    (f : Facts) (c : Checks) (w : Bool) → no_questions (questions_of f c w) ≡ true → IsAsked f c
unfolding questions_of
questions_of-IsAsked f c w h =
    let (a1, h1) = none-append _ _ h in
    let (a2, h2) =
      none-append (named_if (not (given f.industry) || not (given f.geography)) ask_market) _ h1 in
    let (a3, h3) =
      none-append (named_if (not (given f.target_customer)) ask_target_customer) _ h2 in
    let (a4, h4) = none-append (named_if (not c.has_services) ask_services) _ h3 in
    let (a5, h5) = none-append (named_if (not c.has_prices) ask_prices) _ h4 in
    let (a6, h6) = none-append (named_if (not (given f.positioning)) ask_positioning) _ h5 in
    let (a7, h7) = none-append (named_if (not c.has_proof) ask_closed_clients) _ h6 in
    let (a8, h8) =
      none-append (named_if (not c.has_clients || not (given f.sales_process)) ask_pipeline) _ h7 in
    let b1 = none_identity (given f.company_name) _ a1 in
    let b2 = none-named_if _ ask_market a2 in
    let b3 = none-named_if _ ask_target_customer a3 in
    let b4 = none-named_if _ ask_services a4 in
    let b5 = none-named_if _ ask_prices a5 in
    let b6 = none-named_if _ ask_positioning a6 in
    let b7 = none-named_if _ ask_closed_clients a7 in
    let b8 = none-named_if _ ask_pipeline a8 in
    let b9 = none-named_if _ ask_tone h8 in
    record {
      name = b1;
      industry = ground arith;
      geography = ground arith;
      customer = ground arith;
      position = ground arith;
      process = ground arith;
      tone = ground arith;
      has_services = ground arith;
      has_prices = ground arith;
      has_proof = ground arith;
      has_clients = ground arith;
    }

none-take : (qs : List Question) → take 3 qs ≡ [] → no_questions qs ≡ true
none-take [] h = refl
none-take (q ∷ qs) h = absurd (ground (arith, ap no_questions h))

named_if-end : (b : Bool) (m : Missing) → (named_if b m ++ []) ++ [] ≡ named_if b m
named_if-end true m = refl
named_if-end false m = refl

asked-missing :
    (f : Facts) (c : Checks)
    → IsAsked f c
    → missing_of f c ≡ named_if (not (given f.primary_goal)) (fact primary_goal)
unfolding missing_of missing_facts
asked-missing f c a =
    rw
      (
        a.name, a.industry, a.geography, a.customer, a.position, a.process, a.tone, a.has_services,
        a.has_prices, a.has_proof, a.has_clients,
      )
      (named_if-end (not (given f.primary_goal)) (fact primary_goal))

-- An interview with no next question has every check but the goal's, which no question asks for: nothing
-- else is missing, and the workspace has what sales need.
pub interview_covers :
    (lib : Library) (k : Text) (db : Db)
    → (onboarding_state lib k db).next_questions ≡ []
    → ((onboarding_state lib k db).missing
        ≡ named_if (not (given (profile_of k db).facts.primary_goal)) (fact primary_goal))
      × ((onboarding_state lib k db).ready_for_sales ≡ true)
unfolding onboarding_state
interview_covers lib k db h =
    let f = (profile_of k db).facts in
    let c = knowledge_checks k db in
    let a = questions_of-IsAsked f c _ (none-take _ h) in
    (
      asked-missing f c a,
      rw (a.name, a.industry, a.customer, a.position, a.has_services, a.has_prices) refl,
    )
