-- ===== src/Service/Rules.antt =====
-- What the calls of a pass leave alone (app/autopilot.py): rules for the store of drafts and the log of
-- the bridge.
use mathlib.Core.Path.{subst}
use ollum_sales.Prelude.{ℕ, ◌≡◌, refl, sym, ap, ◌∙◌, true, some}
use ollum_sales.Text.{Text}
use ollum_sales.Exec.{Result, ok, err, ◌>>=◌}
use ollum_sales.Table.{find}
use ollum_sales.Schema.{Db, Draft, Crm}
use ollum_sales.Drafts.{draft_at}
use ollum_sales.Drafts.Calls.{DraftCall, Keyed, claim, release, mark}
use ollum_sales.Drafts.Calls
use ollum_sales.Drafts.Safety.{is_final, after-Keyed, after_final}
use ollum_sales.Service.{Trouble, World, Outside, Task, catch, finally, act}

-- Draft ids stay unique, and final drafts stay as they are.
pub record Keeps (db db' : Db) : Type 0 where
  pub keyed : Keyed db'
  pub final :
      (k : Text) (d : Draft)
      → find (draft_at k) db.drafts ≡ some d
      → is_final d.status ≡ true
      → find (draft_at k) db'.drafts ≡ some d

pub Keeps-refl : (db : Db) → Keyed db → Keeps db db
Keeps-refl db u = record { keyed = u; final = λ k d h f. h }

pub Keeps-trans : (db db1 db2 : Db) → Keeps db db1 → Keeps db1 db2 → Keeps db db2
Keeps-trans db db1 db2 h k = record {
  keyed = k.keyed;
  final = λ i d e f. k.final i d (h.final i d e f) f;
}

pub Keeps-same : (db db' : Db) → Keyed db → db'.drafts ≡ db.drafts → Keeps db db'
Keeps-same db db' u e = record {
  keyed = subst (λ ds. Keyed (record db { drafts = ds })) (sym e) u;
  final = λ k d h f. ap (find (draft_at k)) e ∙ h;
}

pub Keeps-call : (db : Db) (c : DraftCall) → Keyed db → Keeps db (Calls.after db c)
Keeps-call db c u = record {
  keyed = after-Keyed db c u;
  final = λ k d h f. after_final db c k d u h f;
}

-- A task that keeps the drafts and calls no bridge, whether it returns or raises.
pub record IsCalm {A : Type 0} (m : Task A) : Type 0 where
  pub keeps : (w : World) → Keyed w.db → Keeps w.db (m w).1.db
  pub quiet : (w : World) → (m w).1.log ≡ w.log

pub pure-IsCalm : {A : Type 0} (a : A) → IsCalm {A = A} (λ w. (ok a, w))
pure-IsCalm a = record { keeps = λ w u. Keeps-refl w.db u; quiet = λ w. refl }

module _ {A B : Type 0} where
  -- What follows a task in a block keeps the drafts that the task left.
  pub bind-Keeps :
      (m : Task A) (f : A → Task B) (w : World)
      → ((a : A) → IsCalm (f a))
      → Keyed (m w).1.db
      → Keeps (m w).1.db ((m >>= f) w).1.db
  bind-Keeps m f w k u = go (m w) u
    where
      go :
          (x : Result Trouble A × World)
          → Keyed x.1.db
          → Keeps x.1.db
              (elim x.0 as (λ _. Result Trouble B × World) [
                | ok a ↦ f a x.1
                | err e ↦ (err e, x.1)
              ]).1.db
      go (ok a, w) u = (k a).keeps w u
      go (err e, w) u = Keeps-refl w.db u

  pub bind-quiet :
      (m : Task A) (f : A → Task B) (w : World)
      → ((a : A) → IsCalm (f a))
      → ((m >>= f) w).1.log ≡ (m w).1.log
  bind-quiet m f w k = go (m w)
    where
      go :
          (x : Result Trouble A × World)
          → (elim x.0 as (λ _. Result Trouble B × World) [
            | ok a ↦ f a x.1
            | err e ↦ (err e, x.1)
          ]).1.log
            ≡ x.1.log
      go (ok a, w) = (k a).quiet w
      go (err e, w) = refl

  pub bind-IsCalm :
      (m : Task A) (f : A → Task B) → IsCalm m → ((a : A) → IsCalm (f a)) → IsCalm (m >>= f)
  bind-IsCalm m f c k = record {
    keeps = λ w u.
        Keeps-trans w.db (m w).1.db ((m >>= f) w).1.db (c.keeps w u)
          (bind-Keeps m f w k (c.keeps w u).keyed);
    quiet = λ w. bind-quiet m f w k ∙ c.quiet w;
  }

  pub finally-world :
      (m : Task A) (last : Task B) (w : World) → (finally m last w).1 ≡ (last (m w).1).1
  finally-world m last w = go (m w).0 (last (m w).1)
    where
      go :
          (r : Result Trouble A) (x : Result Trouble B × World)
          → (elim x.0 as (λ _. Result Trouble A × World) [
            | ok _ ↦ (r, x.1)
            | err e ↦ (err e, x.1)
          ]).1
            ≡ x.1
      go r (ok b, w) = refl
      go r (err e, w) = refl

  pub finally-IsCalm :
      (m : Task A) (last : Task B) → IsCalm m → IsCalm last → IsCalm (finally m last)
  finally-IsCalm m last c k = record {
    keeps = λ w u. rw (finally-world m last w) (
        Keeps-trans w.db (m w).1.db (last (m w).1).1.db (c.keeps w u)
          (k.keeps (m w).1 (c.keeps w u).keyed));
    quiet = λ w. rw (finally-world m last w) (k.quiet (m w).1 ∙ c.quiet w);
  }

module _ {A : Type 0} where
  -- A handler keeps what the block left.
  pub catch-Keeps :
      (m : Task A) (f : Trouble → Task A) (w : World)
      → ((e : Trouble) → IsCalm (f e))
      → Keyed (m w).1.db
      → Keeps (m w).1.db (catch m f w).1.db
  catch-Keeps m f w k u = go (m w) u
    where
      go :
          (x : Result Trouble A × World)
          → Keyed x.1.db
          → Keeps x.1.db
              (elim x.0 as (λ _. Result Trouble A × World) [
                | ok a ↦ (ok a, x.1)
                | err e ↦ f e x.1
              ]).1.db
      go (ok a, w) u = Keeps-refl w.db u
      go (err e, w) u = (k e).keeps w u

  pub catch-quiet :
      (m : Task A) (f : Trouble → Task A) (w : World)
      → ((e : Trouble) → IsCalm (f e))
      → (catch m f w).1.log ≡ (m w).1.log
  catch-quiet m f w k = go (m w)
    where
      go :
          (x : Result Trouble A × World)
          → (elim x.0 as (λ _. Result Trouble A × World) [
            | ok a ↦ (ok a, x.1)
            | err e ↦ f e x.1
          ]).1.log
            ≡ x.1.log
      go (ok a, w) = refl
      go (err e, w) = (k e).quiet w

module _ (o : Outside) where
  pub act-IsCalm :
      {A : Type 0} (m : ℕ → Crm A)
      → ((t : ℕ) (db : Db) → Keyed db → Keeps db (m t db).1)
      → IsCalm (act o m)
  unfolding act
  act-IsCalm m h = record { keeps = λ w u. h (o.clock w.readings) w.db u; quiet = λ w. refl }
