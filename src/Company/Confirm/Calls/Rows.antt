-- ===== src/Company/Confirm/Calls/Rows.antt =====
-- The transactions of the changes of the facts of a company (app/crm.py).

use ollum_sales.Prelude.{
  ℕ, ◌≡◌, refl, Bool, true, false, not, Option, none, some, arith, Bool-cases, Option-cases, inl,
  inr, ◌==◌,
}
use ollum_sales.Text.{Text, same, is_empty}
use ollum_sales.Exec.{or_raise, transaction}
use ollum_sales.Table.{first_by, find, select, count, update, exists}
use ollum_sales.Table.Laws.{update-IsKeyed}
use ollum_sales.Table.Select.{select-insert_other, select-update_other}
use ollum_sales.Schema.{Db, Failure, KnowledgeItem, assertion_failed}
use ollum_sales.Company.{or_text, profile_at, put_profile, reopen, reopened}
use ollum_sales.Company.Knowledge.{
  Content, put_item, set_item, write_item, save_existing, save_fresh, save_row, archive_item,
  archive_row, knowledge_at, active_at, archived, is_in, same_id, same_content, oldest,
  is_unchanged,
}
use ollum_sales.Company.Answers.{
  Reply, put_answer, answer_row, answer_at, is_repeated, new_answer, replaced,
}
use ollum_sales.Company.Confirm.Calls.Profiled.{
  IsCompany, profile_key, Grows-update, IsProfiled-mono, IsProfiled-update, active-HasProfile,
}
use ollum_sales.Company.Confirm.Calls.Edits.{answered_in, reopened-Bumps, bump-Edited}
use ollum_sales.Company.Confirm.Calls.Versions.{
  Kept, Kept-refl, elsewhere, saved-Kept, put_item-Kept, set_item-Kept,
}

or_raised :
    {A : Type 0} (k : Text) (e : Failure) (x : Option A) {db db' : Db}
    → Kept k db db'
    → Kept k db (or_raise x e db').1
or_raised k e none h = h
or_raised k e (some a) h = h

write_item-Kept :
    (t : ℕ) (j k id : Text) (c : Content) (fresh : Bool) (db : Db)
    → IsCompany db
    → Kept k db (write_item t j id c fresh db).1
unfolding write_item
write_item-Kept t j k id c true db h = elim (Bool-cases (exists (same_id id) db.knowledge)) [
  | inl e ↦ rw e (Kept-refl k db h)
  | inr e ↦
      let db2 = reopen t j (put_profile t j (put_item t j id c db)) in
      rw e (
        or_raised k assertion_failed (find (same_id id) db2.knowledge)
          (put_item-Kept t j k id c db h))
]
write_item-Kept t j k id c false db h =
    let db2 = reopen t j (put_profile t j (set_item t j id c db)) in
    or_raised k assertion_failed (find (same_id id) db2.knowledge) (set_item-Kept t j k id c db h)

save_existing-Kept :
    (t : ℕ) (j k id : Text) (c : Content) (named : Bool) (x : Option KnowledgeItem) (db : Db)
    → IsCompany db
    → Kept k db (save_existing t j id c named x db).1
unfolding save_existing
save_existing-Kept t j k id c true none db h = Kept-refl k db h
save_existing-Kept t j k id c false none db h = write_item-Kept t j k id c true db h
save_existing-Kept t j k id c named (some i) db h = elim (Bool-cases (is_unchanged c i)) [
  | inl e ↦ rw e (Kept-refl k db h)
  | inr e ↦ rw e (write_item-Kept t j k id c false db h)
]

save_fresh-Kept :
    (t : ℕ) (j k id : Text) (c : Content) (x : Option KnowledgeItem) (db : Db)
    → IsCompany db
    → Kept k db (save_fresh t j id c x db).1
unfolding save_fresh
save_fresh-Kept t j k id c none db h = write_item-Kept t j k id c true db h
save_fresh-Kept t j k id c (some i) db h = Kept-refl k db h

pub save_row-Kept :
    (t : ℕ) (fresh j k : Text) (item_id : Option Text) (c : Content) (db : Db)
    → IsCompany db
    → Kept k db (save_row t fresh j item_id c db).1
unfolding save_row
save_row-Kept t fresh j k none c db h =
    elim (Option-cases (find (knowledge_at j fresh) db.knowledge)) [
      | inl e ↦ rw e (
          save_fresh-Kept t j k fresh c (first_by oldest (select (same_content j c) db.knowledge))
            db h)
      | inr (i, e) ↦ rw e (save_existing-Kept t j k fresh c false (some i) db h)
    ]
save_row-Kept t fresh j k (some item_id) c db h =
    let id = or_text item_id fresh in
    save_existing-Kept t j k id c (not (is_empty item_id)) (find (knowledge_at j id) db.knowledge)
      db h

archived-Kept :
    (t : ℕ) (j k id : Text) (db : Db)
    → IsCompany db
    → (count (active_at j id) db.knowledge == 1) ≡ true
    → Kept k db (reopen t j (archive_item t j id db))
archived-Kept t j k id db h e =
    let there = active-HasProfile db.profiles db.knowledge j id h.profiled e in
    let db1 = archive_item t j id db in
    record {
      edited =
          bump-Edited (reopened t) j k db db1 (reopen t j db1) (reopened-Bumps t)
            (unfold archive_item in there)
            (unfold archive_item in
              record {
                facts = refl;
                revision = refl;
                status = refl;
                hash = refl;
                confirmed = refl;
              })
            (λ a.
              unfold archive_item in
              record {
                knowledge =
                    select-update_other (is_in k) (active_at j id) (archived t) db.knowledge
                      (λ i e. elsewhere j k i.workspace_id a (ground arith))
                      (λ i e. elsewhere j k i.workspace_id a (ground arith));
                answers = refl;
              })
            (unfold reopen in refl) (unfold reopen in refl) (unfold reopen in refl);
      company = record {
        keyed =
            unfold reopen archive_item in
            update-IsKeyed profile_key (profile_at j) (reopened t) db.profiles (λ x. refl) h.keyed;
        profiled =
            unfold reopen archive_item in
            IsProfiled-mono db.profiles (update (profile_at j) (reopened t) db.profiles)
              (update (active_at j id) (archived t) db.knowledge)
              (λ i. Grows-update (profile_at j) (reopened t) i db.profiles (λ x. refl))
              (IsProfiled-update db.profiles (active_at j id) (archived t) db.knowledge (λ i. refl)
                h.profiled);
      };
    }

-- A failed archive is undone with its transaction.
pub archive_row-Kept :
    (t : ℕ) (j k id : Text) (db : Db)
    → IsCompany db
    → Kept k db (transaction (archive_row t j id) db).1
unfolding archive_row
archive_row-Kept t j k id db h = elim (Bool-cases (count (active_at j id) db.knowledge == 1)) [
  | inl e ↦
      let db2 = reopen t j (archive_item t j id db) in
      elim (Option-cases (find (same_id id) db2.knowledge)) [
        | inl n ↦ rw (e, n) (Kept-refl k db h)
        | inr (i, n) ↦ rw (e, n) (archived-Kept t j k id db h e)
      ]
  | inr e ↦ rw e (Kept-refl k db h)
]

put_answers :
    (t : ℕ) (j k question : Text) (r : Reply) (db : Db)
    → same j k ≡ false
    → select (answered_in k) (put_answer t j question r db).answers
      ≡ select (answered_in k) db.answers
unfolding put_answer
put_answers t j k question r db a = elim (Bool-cases (exists (answer_at j question) db.answers)) [
  | inl e ↦ rw e (
      select-update_other (answered_in k) (answer_at j question) (replaced t r) db.answers
        (λ x e. elsewhere j k x.workspace_id a (ground arith))
        (λ x e. elsewhere j k x.workspace_id a (ground arith)))
  | inr e ↦ rw e (select-insert_other (answered_in k) (new_answer t j question r) db.answers a)
]

answered-Kept :
    (t : ℕ) (j k question : Text) (r : Reply) (db : Db)
    → IsCompany db
    → Kept k db (reopen t j (put_profile t j (put_answer t j question r db)))
answered-Kept t j k question r db h =
    saved-Kept t j k db (put_answer t j question r db) h (unfold put_answer in refl)
      (λ a.
        unfold put_answer in
        record { knowledge = refl; answers = put_answers t j k question r db a })
      (λ ps g there. unfold put_answer in IsProfiled-mono db.profiles ps db.knowledge g h.profiled)

pub answer_row-Kept :
    (t : ℕ) (j k question : Text) (r : Reply) (db : Db)
    → IsCompany db
    → Kept k db (answer_row t j question r db).1
unfolding answer_row
answer_row-Kept t j k question r db h =
    elim (Bool-cases (is_repeated r (find (answer_at j question) db.answers))) [
      | inl e ↦
          rw e (
            or_raised k assertion_failed (find (answer_at j question) db.answers)
              (Kept-refl k db h))
      | inr e ↦
          let db2 = reopen t j (put_profile t j (put_answer t j question r db)) in
          rw e (
            or_raised k assertion_failed (find (answer_at j question) db2.answers)
              (answered-Kept t j k question r db h))
    ]
