-- ===== src/Company/Confirm/Calls/Confirmed.antt =====
-- What a confirmation of the onboarding stands for (app/crm.py), while others change the facts.

use ollum_sales.Prelude.{
  ℕ, ◌<◌, ◌≡◌, ◌⊎◌, refl, ◌∙◌, true, not, List, [], ◌∷◌, Option, some, arith, Option-cases, inl,
  inr, ◌==◌, take,
}
use ollum_sales.Text.{Text, text, collapse}
use ollum_sales.Text.Laws.{same_refl}
use ollum_sales.Exec.{
  ok, raise_if, transaction, transaction_returned, raise_if_returned, pure_returned, modify, ◌>>◌,
}
use ollum_sales.Table.{find, count}
use ollum_sales.Table.Laws.{find-holds, find-update, count-at}
use ollum_sales.Schema.{
  Db, Failure, CompanyProfile, is_ready, stale_revision, onboarding_incomplete, hash_mismatch,
}
use ollum_sales.Workspaces.{put_settings}
use ollum_sales.Company.{Library, same_option, profile_at, profile_of}
use ollum_sales.Company.Interview.{
  OnboardingState, knowledge_checks, ready_for_sales, is_current, review_summary, onboarding_state,
  is_revision,
}
use ollum_sales.Company.Confirm.{
  or_default, confirmed, at_revision, set_confirmed, fill_settings, confirm_row, confirm_state,
}
use ollum_sales.Company.Confirm.Calls.{CompanyCall, edits, completes, edited, after, run}
use ollum_sales.Company.Confirm.Calls.Edits.{Edited}
use ollum_sales.Company.Confirm.Calls.Profiled.{IsCompany, profile_key}
use ollum_sales.Company.Confirm.Calls.Whole.{edited-Kept}
use ollum_sales.Company.Confirm.Calls.Current.{
  SameFacts, SameFacts-trans, Unmoved-refl, complete-Unmoved, summary-same, checks-same,
  set_confirmed-Unmoved,
}

-- A later version, or the same facts.
abbrev pub Versioned : Text → Db → Db → Type 0
Versioned k db db' = ((profile_of k db).revision < (profile_of k db').revision) ⊎ SameFacts k db db'

Versioned-trans : (k : Text) (a b c : Db) → Versioned k a b → Versioned k b c → Versioned k a c
Versioned-trans k a b c (inl s) (inl t) = inl (omega arith)
Versioned-trans k a b c (inl s) (inr t) = inl (omega (arith, t.revision))
Versioned-trans k a b c (inr s) (inl t) = inl (omega (arith, s.revision))
Versioned-trans k a b c (inr s) (inr t) = inr (SameFacts-trans k a b c s t)

edited-Versioned : (k : Text) (db db' : Db) → Edited k db db' → Versioned k db db'
edited-Versioned k db db' (inl (p, r)) =
    inr (record { facts = p.facts; revision = p.revision; rows = r })
edited-Versioned k db db' (inr r) = inl (omega (arith, r.newer))

after-Versioned :
    (lib : Library) (k : Text) (db : Db) (c : CompanyCall)
    → IsCompany db
    → Versioned k db (after lib db c) × IsCompany (after lib db c)
unfolding after
after-Versioned lib k db (edits e) h =
    let kept = edited-Kept lib k db e h in
    (edited-Versioned k db (edited lib db e) kept.edited, kept.company)
after-Versioned lib k db (completes t value ready revision hash by) h =
    let u = complete-Unmoved lib t value k ready revision hash by db h in (inr u.facts, u.company)

pub run-Versioned :
    (lib : Library) (k : Text) (db : Db) (cs : List CompanyCall)
    → IsCompany db
    → Versioned k db (run lib db cs) × IsCompany (run lib db cs)
unfolding run
run-Versioned lib k db [] h = (inr (Unmoved-refl k db h).facts, h)
run-Versioned lib k db (c ∷ cs) h =
    let (v, i) = after-Versioned lib k db c h in
    let (w, j) = run-Versioned lib k (after lib db c) cs i in
    (Versioned-trans k db (after lib db c) (run lib (after lib db c) cs) v w, j)

-- Where each workspace has one profile, and one where it has knowledge, the revision of a profile is a
-- version number of the facts: after any changes and confirmations, in any workspaces, it has grown, or
-- it and the summary to review are as they were.
pub onboarding_versioned :
    (lib : Library) (k : Text) (db : Db) (cs : List CompanyCall)
    → IsCompany db
    → ((profile_of k db).revision < (profile_of k (run lib db cs)).revision)
      ⊎ (((profile_of k (run lib db cs)).revision ≡ (profile_of k db).revision)
          × (review_summary k (run lib db cs) ≡ review_summary k db))
onboarding_versioned lib k db cs h = elim ((run-Versioned lib k db cs h).0) [
  | inl v ↦ inl v
  | inr s ↦ inr (s.revision, summary-same k db (run lib db cs) s)
]

-- The parts of a confirmation that returned.
confirm_returned :
    (t : ℕ) (k : Text) (st : OnboardingState) (revision : Option ℕ) (hash by : Option Text)
    (db db' : Db)
    → confirm_state t k st revision hash by db ≡ (ok tt, db')
    → (st.ready_for_sales ≡ true)
      × (confirm_row t k st (take 320 (collapse (or_default by (text "operator")))) db
          ≡ (ok tt, db'))
unfolding confirm_state
confirm_returned t k st revision hash by db db' h =
    let row = confirm_row t k st (take 320 (collapse (or_default by (text "operator")))) in
    let (a, h1) =
      raise_if_returned (not st.ready_for_sales) onboarding_incomplete
        (raise_if (not (is_revision revision st.profile.revision)) stale_revision
          >> (raise_if (not (same_option hash (some st.summary_hash))) hash_mismatch
              >> transaction row))
        db db' tt h in
    let (b, h2) =
      raise_if_returned (not (is_revision revision st.profile.revision)) stale_revision
        (raise_if (not (same_option hash (some st.summary_hash))) hash_mismatch >> transaction row)
        db db' tt h1 in
    let (c, h3) =
      raise_if_returned (not (same_option hash (some st.summary_hash))) hash_mismatch
        (transaction row) db db' tt h2 in
    (ground arith, transaction_returned row db db' tt h3)

row_returned :
    (t : ℕ) (k by : Text) (st : OnboardingState) (db db' : Db)
    → confirm_row t k st by db ≡ (ok tt, db')
    → ((count (at_revision k st) db.profiles == 1) ≡ true)
      × (db' ≡ fill_settings t k st.profile (put_settings t k (set_confirmed t k st by db)))
unfolding confirm_row
row_returned t k by st db db' h =
    let db1 = set_confirmed t k st by db in
    let (a, h1) =
      raise_if_returned (not (count (at_revision k st) db.profiles == 1)) stale_revision
        (modify (put_settings t k) >> modify (fill_settings t k st.profile)) db1 db' tt h in
    (
      ground arith,
      (pure_returned {E = Failure} tt tt (fill_settings t k st.profile (put_settings t k db1)) db'
          h1).1,
    )

-- A row that is counted once under its key is the one that is found.
found_row :
    (k : Text) (st : OnboardingState) (db : Db)
    → IsCompany db
    → (count (at_revision k st) db.profiles == 1) ≡ true
    → (p : CompanyProfile) × (find (profile_at k) db.profiles ≡ some p)
      × (p.revision ≡ st.profile.revision)
found_row k st db h e =
    let counts =
      count-at profile_key k (λ (p : CompanyProfile). p.revision == st.profile.revision) db.profiles
        h.keyed in
    elim (Option-cases (find (profile_at k) db.profiles)) [
      | inl n ↦ absurd (ground (arith, counts))
      | inr (p, n) ↦ (p, n, ground (arith, counts))
    ]

-- the profile after the write
written_row :
    (t : ℕ) (k by : Text) (st : OnboardingState) (db : Db) (p : CompanyProfile)
    → find (profile_at k) db.profiles ≡ some p
    → p.revision ≡ st.profile.revision
    → find (profile_at k) (set_confirmed t k st by db).profiles ≡ some (confirmed t st by p)
unfolding set_confirmed
written_row t k by st db p n e =
    let here : at_revision k st p ≡ true =
      ground (arith, find-holds (profile_at k) db.profiles p n) in
    rw
      (find-update (profile_at k) (at_revision k st) (confirmed t st by) db.profiles (λ _. refl), n)
      (rw here refl)

pub ready-same :
    (k : Text) (db db' : Db)
    → SameFacts k db db'
    → ready_for_sales (profile_of k db').facts (knowledge_checks k db')
      ≡ ready_for_sales (profile_of k db).facts (knowledge_checks k db)
ready-same k db db' s = rw (s.facts, checks-same k db db' s.rows) refl

pub hash-same :
    (lib : Library) (k : Text) (db db' : Db)
    → SameFacts k db db'
    → lib.summary_hash (profile_of k db').revision (review_summary k db')
      ≡ lib.summary_hash (profile_of k db).revision (review_summary k db)
hash-same lib k db db' s = rw (s.revision, summary-same k db db' s) refl

confirmed_ready :
    (lib : Library) (t : ℕ) (k by : Text) (db db' : Db) (p : CompanyProfile)
    → (onboarding_state lib k db).ready_for_sales ≡ true
    → find (profile_at k) db'.profiles ≡ some (confirmed t (onboarding_state lib k db) by p)
    → p.revision ≡ (onboarding_state lib k db).profile.revision
    → SameFacts k db db'
    → (onboarding_state lib k db').sales_ready ≡ true
unfolding onboarding_state
confirmed_ready lib t k by db db' p ready now same_revision s =
    let hash = lib.summary_hash (profile_of k db').revision (review_summary k db') in
    let same_hash : hash ≡ lib.summary_hash (profile_of k db).revision (review_summary k db) =
      hash-same lib k db db' s in
    let status : is_ready (profile_of k db').onboarding_status ≡ true = rw now refl in
    let facts : ready_for_sales (profile_of k db').facts (knowledge_checks k db') ≡ true =
      ready-same k db db' s ∙ ready in
    let current : is_current (profile_of k db') hash ≡ true = rw same_hash (
      rw now (
        ground (
          arith,
          same_refl (lib.summary_hash (profile_of k db).revision (review_summary k db)),
        ))) in
    rw (status, facts, current) refl

-- Where each workspace has one profile, and one where it has knowledge: if the state of the onboarding is
-- read, any changes and confirmations follow, in any workspaces, and then a confirmation from the
-- state that was read returns, then the summary to review is still the one that was read, and the workspace
-- is ready for sales.
pub confirmation_current :
    (lib : Library) (t : ℕ) (k : Text) (db db' : Db) (cs : List CompanyCall) (revision : Option ℕ)
    (hash by : Option Text)
    → IsCompany db
    → confirm_state t k (onboarding_state lib k db) revision hash by (run lib db cs) ≡ (ok tt, db')
    → (review_summary k db' ≡ review_summary k db)
      × ((onboarding_state lib k db').sales_ready ≡ true)
confirmation_current lib t k db db' cs revision hash by h e =
    let st = onboarding_state lib k db in
    let mid = run lib db cs in
    let confirmer = take 320 (collapse (or_default by (text "operator"))) in
    let (ready, row) = confirm_returned t k st revision hash by mid db' e in
    let (once, store) = row_returned t k confirmer st mid db' row in
    let (v, company) = run-Versioned lib k db cs h in
    let (p, found, same_revision) = found_row k st mid company once in
    let ps : db'.profiles ≡ (set_confirmed t k st confirmer mid).profiles =
      rw store (unfold fill_settings put_settings in refl) in
    let now : find (profile_at k) db'.profiles ≡ some (confirmed t st confirmer p) =
      rw ps (written_row t k confirmer st mid p found same_revision) in
    let read : st.profile.revision ≡ (profile_of k db).revision = unfold onboarding_state in refl in
    let written : (profile_of k mid).revision ≡ st.profile.revision = rw found same_revision in
    let same_facts : SameFacts k db mid = elim v [
      | inl newer ↦ absurd (omega (arith, read, written))
      | inr s ↦ s
    ] in
    let unmoved =
      set_confirmed-Unmoved t k k confirmer st mid db' company ps
        (rw store (unfold fill_settings put_settings set_confirmed in refl))
        (rw store (unfold fill_settings put_settings set_confirmed in refl)) in
    let all_same = SameFacts-trans k db mid db' same_facts unmoved.facts in
    (
      summary-same k db db' all_same,
      confirmed_ready lib t k confirmer db db' p ready now same_revision all_same,
    )
