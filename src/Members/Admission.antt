-- ===== src/Members/Admission.antt =====
-- The ways into a workspace (`authorize_workspace_identity` of app/crm.py).

use ollum_sales.Members.Invitations.{Has, first-Has, first-none, first-newest, accepted-closed}
use ollum_sales.Prelude.{
  ℕ, ◌≤◌, ◌≡◌, ◌⊎◌, refl, Bool, true, false, List, [], ◌∷◌, ◌++◌, map, Option, none, some, arith,
  All, Bool-cases, Option-cases, inl, inr, ◌==◌,
}
use ollum_sales.Text.{Text, same, lower, one_of}
use ollum_sales.Exec.{ok, transaction}
use ollum_sales.Table.{find, select, count, exists, first_by}
use ollum_sales.Table.Laws.{select-find}
use ollum_sales.Schema.{Db, Member, Invitation, Role, is_active}
use ollum_sales.Members.{
  Identity, active_in, has_subject, has_email, is_open_invitation, newer, member_at, set_members,
  set_invitations, bootstrap_role, new_member, log_in, add_member, join, admit, enter,
  authorize_row,
}

-- The role of an account that needs no invitation.
abbrev pub BootstrapRole : Identity → List Text → Db → Role → Type 0
BootstrapRole who owners db role =
    (role ≡ Role.operator)
    ⊎ ((role ≡ Role.owner)
        × ((count (active_in who.workspace) db.members ≡ 0)
            ⊎ (one_of who.email (map lower owners) ≡ true)))

-- A new active member for the identity, where no active member has its subject or its e-mail.
pub record Joined (who : Identity) (db db' : Db) (m : Member) : Type 0 where
  pub no_member : find (has_subject who.workspace who.subject) db.members ≡ none
  pub no_email : exists (has_email who.workspace who.email) db.members ≡ false
  pub workspace : m.workspace_id ≡ who.workspace
  pub subject : m.subject ≡ who.subject
  pub email : m.email ≡ who.email
  pub active : is_active m.status ≡ true
  pub added : db'.members ≡ db.members ++ m ∷ []

-- The ways into a workspace at a time: a membership of the same subject and e-mail, which keeps its
-- id and role; an open invitation of the e-mail, the newest in the table, which is no longer open after it;
-- or, with no open invitation, the list of accounts that need none.
pub data Admitted (t : ℕ) (who : Identity) (bootstrap : Bool) (owners : List Text) (db db' : Db)
    (m : Member) : Type 0 where
  known :
      (c : Member)
      → find (has_subject who.workspace who.subject) db.members ≡ some c
      → same (lower c.email) who.email ≡ true
      → (m.id ≡ c.id) × (m.role ≡ c.role)
      → db'.invitations ≡ db.invitations
      → Admitted t who bootstrap owners db db' m
  invited :
      Joined who db db' m
      → (i : Invitation) → Has i db.invitations
      → is_open_invitation who.workspace who.email t i ≡ true
      → All
          (λ j. is_open_invitation who.workspace who.email t j ≡ true → j.created_at ≤ i.created_at)
          db.invitations
      → m.role ≡ i.role
      → All
          (λ j. same j.id i.id ≡ true → is_open_invitation who.workspace who.email t j ≡ false)
          db'.invitations
      → Admitted t who bootstrap owners db db' m
  listed :
      Joined who db db' m
      → bootstrap ≡ true
      → All (λ j. is_open_invitation who.workspace who.email t j ≡ false) db.invitations
      → BootstrapRole who owners db m.role
      → db'.invitations ≡ db.invitations
      → Admitted t who bootstrap owners db db' m

added :
    (t : ℕ) (fresh : Text) (who : Identity) (role : Role) (o : Option Invitation) (db : Db)
    → (add_member t fresh who role o db).members ≡ db.members ++ new_member t fresh who role ∷ []
unfolding add_member set_invitations
added t fresh who role none db = refl
added t fresh who role (some i) db = refl

join-Joined :
    (t : ℕ) (fresh : Text) (who : Identity) (role : Role) (o : Option Invitation) (db db' : Db)
    (m : Member)
    → find (has_subject who.workspace who.subject) db.members ≡ none
    → exists (has_email who.workspace who.email) db.members ≡ false
    → join t fresh who role o db ≡ (ok m, db')
    → Joined who db db' m × (m.role ≡ role) × (db' ≡ add_member t fresh who role o db)
unfolding join
join-Joined t fresh who role o db db' m n e h =
    let made : m ≡ new_member t fresh who role = ground arith in
    let store : db' ≡ add_member t fresh who role o db = ground arith in
    (
      record {
        no_member = n;
        no_email = e;
        workspace = rw made refl;
        subject = rw made refl;
        email = rw made refl;
        active = rw made refl;
        added = rw (store, made) (added t fresh who role o db);
      },
      rw made refl,
      store,
    )

bootstrap_role-cases :
    (who : Identity) (owners : List Text) (db : Db)
    → BootstrapRole who owners db (bootstrap_role who owners db)
unfolding bootstrap_role
bootstrap_role-cases who owners db =
    elim (Bool-cases (count (active_in who.workspace) db.members == 0)) [
      | inl e ↦ rw e (inr (refl, inl (ground arith)))
      | inr e ↦ elim (Bool-cases (one_of who.email (map lower owners))) [
        | inl o ↦ rw (e, o) (inr (refl, inr refl))
        | inr o ↦ rw (e, o) (inl refl)
      ]
    ]

admit-Admitted :
    (t : ℕ) (fresh : Text) (who : Identity) (b : Bool) (owners : List Text) (db db' : Db)
    (m : Member)
    → find (has_subject who.workspace who.subject) db.members ≡ none
    → exists (has_email who.workspace who.email) db.members ≡ false
    → admit t fresh who b owners
        (first_by newer (select (is_open_invitation who.workspace who.email t) db.invitations))
        db
      ≡ (ok m, db')
    → Admitted t who b owners db db' m
unfolding admit
admit-Admitted t fresh who b owners db db' m s e h =
    let p = is_open_invitation who.workspace who.email t in
    elim (Option-cases (first_by newer (select p db.invitations))) [
      | inr (i, n) ↦
          let (j, role, store) =
            join-Joined t fresh who i.role (some i) db db' m s e (ground arith) in
          invited j i (first-Has p db.invitations i n) (select-find p newer db.invitations i n)
            (first-newest p db.invitations i n) role
            (rw store (
              unfold add_member set_invitations in
              accepted-closed t t who.workspace who.email i.id db.invitations))
      | inl n ↦ elim (Bool-cases b) [
        | inl y ↦
            let (j, role, store) =
              join-Joined t fresh who (bootstrap_role who owners db) none db db' m s e
                (ground arith) in
            listed j y (first-none p db.invitations n)
              (rw role (bootstrap_role-cases who owners db)) (rw store (unfold add_member in refl))
        | inr y ↦ absurd (ground arith)
      ]
    ]

-- The transaction that admits an identity returns a member only where the subject is an active
-- member under the same e-mail, and keeps its id and role; or where no active member has the subject
-- or the e-mail and a new active member is added for them, either with the role of the newest
-- invitation of the table that is open for the e-mail, which is then no longer open, or with no
-- open invitation, where the account is on the list of those that need none, as owner only if the
-- workspace has no active member or the e-mail is listed as an owner's.
pub authorize-Admitted :
    (t : ℕ) (fresh : Text) (who : Identity) (b : Bool) (owners : List Text) (db db' : Db)
    (m : Member)
    → transaction (authorize_row t fresh who b owners) db ≡ (ok m, db')
    → Admitted t who b owners db db' m
unfolding authorize_row enter
authorize-Admitted t fresh who b owners db db' m h =
    elim (Option-cases (find (has_subject who.workspace who.subject) db.members)) [
      | inr (c, n) ↦ elim (Bool-cases (same (lower c.email) who.email)) [
        | inl e ↦
            let made : m ≡ log_in t who.display_name c = ground arith in
            let store : db' ≡ set_members (member_at c.id) (log_in t who.display_name) db =
              ground arith in
            known c n e (rw made refl, rw made refl) (rw store (unfold set_members in refl))
        | inr e ↦ absurd (ground arith)
      ]
      | inl n ↦ elim (Bool-cases (exists (has_email who.workspace who.email) db.members)) [
        | inl e ↦ absurd (ground arith)
        | inr e ↦ admit-Admitted t fresh who b owners db db' m n e (ground arith)
      ]
    ]
