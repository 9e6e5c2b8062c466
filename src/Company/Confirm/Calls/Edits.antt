-- ===== src/Company/Confirm/Calls/Edits.antt =====
-- What the calls on a company (app/crm.py) may do to the facts of a workspace and to its profile.
use mathlib.Core.Path.{subst}
use ollum_sales.Prelude.{
  Option-cases, ℕ, suc, ◌≡◌, ◌⊎◌, refl, sym, ap, ◌∙◌, Bool, true, false, List, Option, none, some,
  arith, Bool-cases, inl, inr,
}
use ollum_sales.Text.{Text, same}
use ollum_sales.Text.Laws.{same_refl, same_iff}
use ollum_sales.Table.{find, select, update, exists}
use ollum_sales.Table.Laws.{find-holds, find-update, find-insert}
use ollum_sales.Schema.{Db, CompanyProfile, OnboardingAnswer, is_ready}
use ollum_sales.Company.{profile_at, profile_of, put_profile, reopened, new_profile}
use ollum_sales.Company.Knowledge.{is_in}

abbrev pub answered_in : Text → OnboardingAnswer → Bool
answered_in k a = same a.workspace_id k

-- The profile but for its times.
pub record SameProfile (k : Text) (db db' : Db) : Type 0 where
  pub facts : (profile_of k db').facts ≡ (profile_of k db).facts
  pub revision : (profile_of k db').revision ≡ (profile_of k db).revision
  pub status : (profile_of k db').onboarding_status ≡ (profile_of k db).onboarding_status
  pub hash : (profile_of k db').confirmed_summary_hash ≡ (profile_of k db).confirmed_summary_hash
  pub confirmed : (profile_of k db').confirmed_revision ≡ (profile_of k db).confirmed_revision

pub record SameRows (k : Text) (db db' : Db) : Type 0 where
  pub knowledge : select (is_in k) db'.knowledge ≡ select (is_in k) db.knowledge
  pub answers : select (answered_in k) db'.answers ≡ select (answered_in k) db.answers

-- A new version, which is not confirmed.
pub record Reopened (k : Text) (db db' : Db) : Type 0 where
  pub newer : (profile_of k db').revision ≡ suc (profile_of k db).revision
  pub unready : is_ready (profile_of k db').onboarding_status ≡ false

abbrev pub Edited : Text → Db → Db → Type 0
Edited k db db' = (SameProfile k db db' × SameRows k db db') ⊎ Reopened k db db'

pub SameProfile-refl : (k : Text) (db : Db) → SameProfile k db db
SameProfile-refl k db = record {
  facts = refl;
  revision = refl;
  status = refl;
  hash = refl;
  confirmed = refl;
}

pub Edited-refl : (k : Text) (db : Db) → Edited k db db
Edited-refl k db = inl (SameProfile-refl k db, record { knowledge = refl; answers = refl })

-- The profile that is found after `INSERT OR IGNORE` is the one that was there, or an empty one.
pub put-found :
    (t : ℕ) (j k : Text) (db : Db)
    → (find (profile_at k) (put_profile t j db).profiles ≡ find (profile_at k) db.profiles)
      ⊎ ((find (profile_at k) db.profiles ≡ none)
          × (find (profile_at k) (put_profile t j db).profiles ≡ some (new_profile t j))
          × (same j k ≡ true))
unfolding put_profile exists
put-found t j k db = elim (Bool-cases (exists (profile_at j) db.profiles)) [
  | inl e ↦ inl (unfold exists in rw e refl)
  | inr e ↦ ground (arith, find-insert (profile_at k) (new_profile t j) db.profiles, same_iff j k)
]

pub put-exists :
    (t : ℕ) (j : Text) (db : Db) → exists (profile_at j) (put_profile t j db).profiles ≡ true
unfolding put_profile exists
put-exists t j db =
    ground (arith, find-insert (profile_at j) (new_profile t j) db.profiles, same_refl j)

pub put-SameProfile : (t : ℕ) (j k : Text) (db : Db) → SameProfile k db (put_profile t j db)
put-SameProfile t j k db = elim (put-found t j k db) [
  | inl e ↦ record {
    facts = rw e refl;
    revision = rw e refl;
    status = rw e refl;
    hash = rw e refl;
    confirmed = rw e refl;
  }
  | inr (e, f, s) ↦ record {
    facts = rw (e, f) refl;
    revision = rw (e, f) refl;
    status = rw (e, f) refl;
    hash = rw (e, f) refl;
    confirmed = rw (e, f) refl;
  }
]

-- What a change of a fact does to a profile.
pub record Bumps (f : CompanyProfile → CompanyProfile) : Type 0 where
  pub place : (p : CompanyProfile) → (f p).workspace_id ≡ p.workspace_id
  pub revision : (p : CompanyProfile) → (f p).revision ≡ suc p.revision
  pub unready : (p : CompanyProfile) → is_ready (f p).onboarding_status ≡ false

pub reopened-Bumps : (t : ℕ) → Bumps (reopened t)
reopened-Bumps t = record { place = λ p. refl; revision = λ p. refl; unready = λ p. refl }

abbrev is_some : Option CompanyProfile → Bool
is_some none = false
is_some (some p) = true

some-of :
    (j : Text) (xs : List CompanyProfile)
    → exists (profile_at j) xs ≡ true
    → (p : CompanyProfile) × (find (profile_at j) xs ≡ some p)
unfolding exists
some-of j xs h = elim (Option-cases (find (profile_at j) xs)) [
  | inl n ↦ absurd (ground arith)
  | inr e ↦ e
]

-- The profile of the changed workspace gets a new version, that of another is left alone.
bump_self :
    (f : CompanyProfile → CompanyProfile) (k : Text) (xs : List CompanyProfile)
    → Bumps f
    → exists (profile_at k) xs ≡ true
    → (p : CompanyProfile) × (find (profile_at k) xs ≡ some p)
      × (find (profile_at k) (update (profile_at k) f xs) ≡ some (f p))
bump_self f k xs b h =
    let (p, e) = some-of k xs h in
    (
      p,
      e,
      rw (find-update (profile_at k) (profile_at k) f xs (λ x. rw (b.place x) refl), e)
          (rw (find-holds (profile_at k) xs p e) refl),
    )

bump-other :
    (f : CompanyProfile → CompanyProfile) (j k : Text) (xs : List CompanyProfile)
    → Bumps f
    → same j k ≡ false
    → find (profile_at k) (update (profile_at j) f xs) ≡ find (profile_at k) xs
bump-other f j k xs b h = elim (Option-cases (find (profile_at k) xs)) [
  | inl e ↦ rw (find-update (profile_at k) (profile_at j) f xs (λ x. rw (b.place x) refl), e) refl
  | inr (p, e) ↦
      let away : profile_at j p ≡ false = ground (
        arith,
        find-holds (profile_at k) xs p e,
        same_iff p.workspace_id k,
        same_iff p.workspace_id j,
        same_refl k,
        same_iff j k,
      ) in
      rw (find-update (profile_at k) (profile_at j) f xs (λ x. rw (b.place x) refl), e, away) refl
]

-- A change of the profile after changes of rows of its workspace.
pub bump-Edited :
    (f : CompanyProfile → CompanyProfile) (j k : Text) (db db1 db2 : Db)
    → Bumps f
    → exists (profile_at j) db1.profiles ≡ true
    → SameProfile k db db1
    → (same j k ≡ false → SameRows k db db1)
    → db2.profiles ≡ update (profile_at j) f db1.profiles
    → db2.knowledge ≡ db1.knowledge
    → db2.answers ≡ db1.answers
    → Edited k db db2
bump-Edited f j k db db1 db2 b here s rows ps ks qs = elim (Bool-cases (same j k)) [
  | inl e ↦
      let there : exists (profile_at k) db1.profiles ≡ true =
        subst (λ i. exists (profile_at i) db1.profiles ≡ true) ((same_iff j k).0 e) here in
      let (p, found, bumped) = bump_self f k db1.profiles b there in
      let now : find (profile_at k) db2.profiles ≡ some (f p) = rw ps (
        subst (λ i. find (profile_at k) (update (profile_at i) f db1.profiles) ≡ some (f p))
          (sym ((same_iff j k).0 e)) bumped) in
      let old : (profile_of k db1).revision ≡ p.revision = rw found refl in
      inr (record {
        newer = rw now (b.revision p ∙ ap (λ (n : ℕ). suc n) (sym old ∙ s.revision));
        unready = rw now (b.unready p);
      })
  | inr e ↦
      let kept : find (profile_at k) db2.profiles ≡ find (profile_at k) db1.profiles =
        rw ps (bump-other f j k db1.profiles b e) in
      inl (
        record {
          facts = rw kept s.facts;
          revision = rw kept s.revision;
          status = rw kept s.status;
          hash = rw kept s.hash;
          confirmed = rw kept s.confirmed;
        },
        record { knowledge = rw ks (rows e).knowledge; answers = rw qs (rows e).answers },
      )
]
