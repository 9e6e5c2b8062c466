-- ===== src/Company/Confirm/Calls/Versions.antt =====
-- Each change of the facts of a company (app/crm.py), as seen from any workspace.
use mathlib.Core.Path.{subst}
use ollum_sales.Prelude.{
  ℕ, ◌≡◌, refl, sym, ap, ◌∙◌, true, false, List, [], ◌∷◌, Option, arith, All-append, Bool-cases,
  Option-cases, inl, inr,
}
use ollum_sales.Text.{Text, same}
use ollum_sales.Text.Laws.{same_iff}
use ollum_sales.Table.{find, update}
use ollum_sales.Table.Laws.{IsKeyed, update-IsKeyed}
use ollum_sales.Table.Select.{select-insert_other, select-update_other}
use ollum_sales.Schema.{Db, CompanyProfile}
use ollum_sales.Company.{profile_at, profile_of, put_profile, reopen, reopened}
use ollum_sales.Company.Profile.{Field, unchanged, set_fields, set_profile, update_row}
use ollum_sales.Company.Knowledge.{
  Content, put_item, set_item, new_item, rewritten, knowledge_at, is_in,
}
use ollum_sales.Company.Confirm.Calls.Profiled.{
  IsCompany, put-IsKeyed, profile_key, HasProfile, IsProfiled, Grows-put, Grows-update,
  IsProfiled-mono, IsProfiled-update,
}
use ollum_sales.Company.Confirm.Calls.Edits.{
  Edited, Edited-refl, SameProfile, SameRows, Bumps, reopened-Bumps, bump-Edited, put-SameProfile,
  put-exists,
}

set_profile-Bumps :
    (t : ℕ) (clean : List (Field × Option Text))
    → Bumps (λ p. record (reopened t p) { facts = set_fields clean p.facts })
set_profile-Bumps t clean = record { place = λ p. refl; revision = λ p. refl; unready = λ p. refl }

pub elsewhere : (j k w : Text) → same j k ≡ false → same w j ≡ true → same w k ≡ false
elsewhere j k w a e = subst (λ i. same i k ≡ false) (sym ((same_iff w j).0 e)) a

-- A database after a change, as seen from a workspace.
pub record Kept (k : Text) (db db' : Db) : Type 0 where
  pub edited : Edited k db db'
  pub company : IsCompany db'

pub Kept-refl : (k : Text) (db : Db) → IsCompany db → Kept k db db
Kept-refl k db h = record { edited = Edited-refl k db; company = h }

SameProfile-of :
    (k : Text) (db db1 db2 : Db)
    → db1.profiles ≡ db.profiles
    → SameProfile k db1 db2
    → SameProfile k db db2
SameProfile-of k db db1 db2 e s =
    let p : profile_of k db1 ≡ profile_of k db = rw e refl in
    record {
      facts = s.facts ∙ ap (λ (x : CompanyProfile). x.facts) p;
      revision = s.revision ∙ ap (λ (x : CompanyProfile). x.revision) p;
      status = s.status ∙ ap (λ (x : CompanyProfile). x.onboarding_status) p;
      hash = s.hash ∙ ap (λ (x : CompanyProfile). x.confirmed_summary_hash) p;
      confirmed = s.confirmed ∙ ap (λ (x : CompanyProfile). x.confirmed_revision) p;
    }

-- Rows of a workspace are written, its profile is put there if it has none, and gets a new version.
pub written-Kept :
    (f : CompanyProfile → CompanyProfile) (t : ℕ) (j k : Text) (db db1 db2 : Db)
    → IsCompany db
    → Bumps f
    → db1.profiles ≡ db.profiles
    → (same j k ≡ false → SameRows k db db1)
    → ((ps : List CompanyProfile)
        → ((i : Text) → HasProfile db.profiles i → HasProfile ps i)
        → HasProfile ps j
        → IsProfiled ps db1.knowledge)
    → db2.profiles ≡ update (profile_at j) f (put_profile t j db1).profiles
    → db2.knowledge ≡ db1.knowledge
    → db2.answers ≡ db1.answers
    → Kept k db db2
written-Kept f t j k db db1 db2 h b e rows known ps ks qs =
    let put = put_profile t j db1 in
    let grown : (i : Text) → HasProfile db.profiles i → HasProfile db2.profiles i = λ i h.
      subst (λ xs. HasProfile xs i) (sym ps)
        (Grows-update (profile_at j) f i put.profiles b.place
          (Grows-put t j i db1 (subst (λ xs. HasProfile xs i) (sym e) h))) in
    let there : HasProfile db2.profiles j =
      subst (λ xs. HasProfile xs j) (sym ps)
        (Grows-update (profile_at j) f j put.profiles b.place (put-exists t j db1)) in
    record {
      edited =
          bump-Edited f j k db put db2 b (put-exists t j db1)
            (SameProfile-of k db db1 put e (put-SameProfile t j k db1))
            (λ a.
              unfold put_profile in
              record { knowledge = (rows a).knowledge; answers = (rows a).answers })
            ps (unfold put_profile in ks) (unfold put_profile in qs);
      company = record {
        keyed = subst (IsKeyed profile_key) (sym ps) (
            update-IsKeyed profile_key (profile_at j) f put.profiles b.place
              (put-IsKeyed t j db1 (subst (IsKeyed profile_key) (sym e) h.keyed)));
        profiled = rw ks (known db2.profiles grown there);
      };
    }

pub update_row-Kept :
    (t : ℕ) (j k : Text) (clean : List (Field × Option Text)) (db : Db)
    → IsCompany db
    → Kept k db (update_row t j clean db).1
unfolding update_row
update_row-Kept t j k clean db h =
    let db1 = put_profile t j db in
    let db2 = set_profile t j clean db1 in
    let kept : Kept k db db1 = record {
      edited = inl (
        put-SameProfile t j k db,
        unfold put_profile in record { knowledge = refl; answers = refl },
      );
      company = record {
        keyed = put-IsKeyed t j db h.keyed;
        profiled =
            unfold put_profile in
            IsProfiled-mono db.profiles (put_profile t j db).profiles db.knowledge
              (λ i. Grows-put t j i db) h.profiled;
      };
    } in
    let moved : Kept k db db2 =
      written-Kept (λ p. record (reopened t p) { facts = set_fields clean p.facts }) t j k db db db2
        h (set_profile-Bumps t clean) refl (λ _. record { knowledge = refl; answers = refl })
        (λ ps g _. IsProfiled-mono db.profiles ps db.knowledge g h.profiled)
        (unfold set_profile in refl) (unfold set_profile put_profile in refl)
        (unfold set_profile put_profile in refl) in
    elim (Option-cases (find (profile_at j) db1.profiles)) [
      | inl n ↦ rw n kept
      | inr (p, e) ↦ elim (Bool-cases (unchanged clean p.facts)) [
        | inl u ↦ rw (e, u) kept
        | inr u ↦ elim (Option-cases (find (profile_at j) db2.profiles)) [
          | inl n ↦ rw (e, u, n) moved
          | inr (q, m) ↦ rw (e, u, m) moved
        ]
      ]
    ]

-- What a save has written.
pub saved-Kept :
    (t : ℕ) (j k : Text) (db db1 : Db)
    → IsCompany db
    → db1.profiles ≡ db.profiles
    → (same j k ≡ false → SameRows k db db1)
    → ((ps : List CompanyProfile)
        → ((i : Text) → HasProfile db.profiles i → HasProfile ps i)
        → HasProfile ps j
        → IsProfiled ps db1.knowledge)
    → Kept k db (reopen t j (put_profile t j db1))
saved-Kept t j k db db1 h e rows known =
    written-Kept (reopened t) t j k db db1 (reopen t j (put_profile t j db1)) h (reopened-Bumps t) e
      rows known (unfold reopen in refl) (unfold reopen put_profile in refl)
      (unfold reopen put_profile in refl)

pub put_item-Kept :
    (t : ℕ) (j k id : Text) (c : Content) (db : Db)
    → IsCompany db
    → Kept k db (reopen t j (put_profile t j (put_item t j id c db)))
put_item-Kept t j k id c db h =
    saved-Kept t j k db (put_item t j id c db) h (unfold put_item in refl)
      (λ a.
        unfold put_item in
        record {
          knowledge = select-insert_other (is_in k) (new_item t j id c) db.knowledge a;
          answers = refl;
        })
      (λ ps g there.
        unfold put_item in
        All-append (λ i. HasProfile ps i.workspace_id) db.knowledge (new_item t j id c ∷ [])
          (IsProfiled-mono db.profiles ps db.knowledge g h.profiled) (there, tt))

pub set_item-Kept :
    (t : ℕ) (j k id : Text) (c : Content) (db : Db)
    → IsCompany db
    → Kept k db (reopen t j (put_profile t j (set_item t j id c db)))
set_item-Kept t j k id c db h =
    saved-Kept t j k db (set_item t j id c db) h (unfold set_item in refl)
      (λ a.
        unfold set_item in
        record {
          knowledge =
              select-update_other (is_in k) (knowledge_at j id) (rewritten t c) db.knowledge
                (λ i e. elsewhere j k i.workspace_id a (ground arith))
                (λ i e. elsewhere j k i.workspace_id a (ground arith));
          answers = refl;
        })
      (λ ps g there.
        unfold set_item in
        IsProfiled-update ps (knowledge_at j id) (rewritten t c) db.knowledge (λ i. refl)
          (IsProfiled-mono db.profiles ps db.knowledge g h.profiled))
