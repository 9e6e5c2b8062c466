-- ===== src/Company/Confirm/Calls/Profiled.antt =====
-- Which workspaces have a profile (app/crm.py).
use mathlib.Core.Path.{subst}
use ollum_sales.Prelude.{
  ℕ, ◌≡◌, refl, sym, Bool, true, List, [], ◌∷◌, arith, Bool-cases, Option-cases, inl, inr, All,
  ◌==◌,
}
use ollum_sales.Text.{Text}
use ollum_sales.Text.Laws.{same_iff}
use ollum_sales.Table.{find, count, update, exists}
use ollum_sales.Table.Laws.{IsKeyed, insert-IsKeyed, find-exists, found-update, find-insert}
use ollum_sales.Schema.{Db, CompanyProfile, KnowledgeItem}
use ollum_sales.Company.{profile_at, put_profile, new_profile}
use ollum_sales.Company.Knowledge.{active_at}

abbrev pub profile_key : CompanyProfile → Text
profile_key p = p.workspace_id

abbrev pub HasProfile : List CompanyProfile → Text → Type 0
HasProfile ps k = exists (profile_at k) ps ≡ true

-- Where a company knows something, it has a profile.
abbrev pub IsProfiled : List CompanyProfile → List KnowledgeItem → Type 0
IsProfiled ps is = All (λ i. HasProfile ps i.workspace_id) is

-- A workspace has one profile, and one where it knows something.
pub record IsCompany (db : Db) : Type 0 where
  pub keyed : IsKeyed profile_key db.profiles
  pub profiled : IsProfiled db.profiles db.knowledge

pub put-IsKeyed :
    (t : ℕ) (j : Text) (db : Db)
    → IsKeyed profile_key db.profiles
    → IsKeyed profile_key (put_profile t j db).profiles
unfolding put_profile
put-IsKeyed t j db h = elim (Bool-cases (exists (profile_at j) db.profiles)) [
  | inl e ↦ rw e h
  | inr e ↦ rw e (
      insert-IsKeyed profile_key (new_profile t j) db.profiles h
        (find-exists (profile_at j) db.profiles e))
]

pub Grows-put :
    (t : ℕ) (j k : Text) (db : Db)
    → HasProfile db.profiles k
    → HasProfile (put_profile t j db).profiles k
unfolding put_profile exists
Grows-put t j k db h = ground (arith, find-insert (profile_at k) (new_profile t j) db.profiles)

pub Grows-update :
    (p : CompanyProfile → Bool) (f : CompanyProfile → CompanyProfile) (k : Text)
    (ps : List CompanyProfile)
    → ((x : CompanyProfile) → (f x).workspace_id ≡ x.workspace_id)
    → HasProfile ps k
    → HasProfile (update p f ps) k
unfolding exists
Grows-update p f k ps h e = elim (Option-cases (find (profile_at k) ps)) [
  | inl n ↦ absurd (ground arith)
  | inr (x, n) ↦
      let (y, m) = found-update (profile_at k) p f ps x (λ x. rw (h x) refl) n in
      rw (m, exists) refl
]

pub IsProfiled-mono :
    (ps qs : List CompanyProfile) (is : List KnowledgeItem)
    → ((k : Text) → HasProfile ps k → HasProfile qs k)
    → IsProfiled ps is
    → IsProfiled qs is
IsProfiled-mono ps qs [] h a = tt
IsProfiled-mono ps qs (i ∷ is) h a = (h i.workspace_id a.0, IsProfiled-mono ps qs is h a.1)

pub IsProfiled-update :
    (ps : List CompanyProfile) (p : KnowledgeItem → Bool) (f : KnowledgeItem → KnowledgeItem)
    (is : List KnowledgeItem)
    → ((i : KnowledgeItem) → (f i).workspace_id ≡ i.workspace_id)
    → IsProfiled ps is
    → IsProfiled ps (update p f is)
unfolding update
IsProfiled-update ps p f [] h a = tt
IsProfiled-update ps p f (i ∷ is) h a = elim (Bool-cases (p i)) [
  | inl e ↦ rw e (subst (HasProfile ps) (sym (h i)) a.0, IsProfiled-update ps p f is h a.1)
  | inr e ↦ rw e (a.0, IsProfiled-update ps p f is h a.1)
]

-- A workspace with an active item has a profile.
pub active-HasProfile :
    (ps : List CompanyProfile) (is : List KnowledgeItem) (k id : Text)
    → IsProfiled ps is
    → (count (active_at k id) is == 1) ≡ true
    → HasProfile ps k
unfolding count
active-HasProfile ps [] k id a h = absurd (ground arith)
active-HasProfile ps (i ∷ is) k id a h = elim (Bool-cases (active_at k id i)) [
  | inl e ↦ subst (HasProfile ps) ((same_iff i.workspace_id k).0 (ground arith)) a.0
  | inr e ↦ active-HasProfile ps is k id a.1 (ground arith)
]
