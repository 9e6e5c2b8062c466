-- ===== src/Members/Owners.antt =====
-- The owners of a workspace under `update_workspace_member_role` (app/crm.py).
use ollum_sales.Prelude.{
  ℕ, ◌≤◌, ◌≡◌, false, not, ◌&&◌, some, arith, leb, Bool-cases, Option-cases, inl, inr, ◌∙◌,
}
use mathlib.Core.Path.{sym, subst}
use ollum_sales.Text.{Text, same, lower, strip}
use ollum_sales.Text.Laws.{same_iff}
use ollum_sales.Exec.{transaction}
use ollum_sales.Table.{find, update, count}
use ollum_sales.Table.Laws.{IsKeyed, find-holds}
use ollum_sales.Table.Single.{find-key, count-update_key}
use ollum_sales.Schema.{Db, Member, Role, workspace_roles, validate_status, is_owner}
use ollum_sales.Workspaces.{workspace_id}
use ollum_sales.Members.{
  member_at, active_in, active_owner, set_members, change_role, loses_last_owner, role_row,
  update_workspace_member_role,
}

abbrev pub HasOwner : Text → Db → Type 0
HasOwner j db = 1 ≤ count (active_owner j) db.members

-- What a change that is let through leaves.
changed-count :
    (t : ℕ) (k id j : Text) (role : Role) (db : Db) (m : Member)
    → IsKeyed (λ (m : Member). m.id) db.members
    → find (λ m. member_at id m && active_in k m) db.members ≡ some m
    → loses_last_owner k m role db ≡ false
    → HasOwner j db
    → 1 ≤ count (active_owner j) (update (member_at id) (change_role t role) db.members)
unfolding loses_last_owner
changed-count t k id j role db m u n a h =
    let found = find-key (λ (m : Member). m.id) id (active_in k) db.members m u n in
    let holds = find-holds (λ m. member_at id m && active_in k m) db.members m n in
    let counted =
      count-update_key (λ (m : Member). m.id) id (change_role t role) (active_owner j) db.members m
        u found in
    elim (Bool-cases (same m.workspace_id j)) [
      | inr other ↦ ground (arith, counted, other)
      | inl here ↦
          let same_place : k ≡ j =
            sym ((same_iff m.workspace_id k).0 (ground arith))
            ∙ (same_iff m.workspace_id j).0 here in
          let let_through =
            subst
              (λ w.
                (is_owner m.role
                  && not (is_owner role)
                  && leb (count (active_owner w) db.members) 1)
                ≡ false)
              same_place a in
          ground (arith, counted, here, let_through)
    ]

role_row-HasOwner :
    (t : ℕ) (k id j : Text) (role : Role) (db : Db)
    → IsKeyed (λ (m : Member). m.id) db.members
    → HasOwner j db
    → HasOwner j
        (transaction
          (λ db. role_row t k id role (find (λ m. member_at id m && active_in k m) db.members) db)
          db).1
unfolding role_row set_members loses_last_owner
role_row-HasOwner t k id j role db u h =
    elim (Option-cases (find (λ m. member_at id m && active_in k m) db.members)) [
      | inl n ↦ rw n h
      | inr (m, n) ↦ elim (Bool-cases (loses_last_owner k m role db)) [
        | inl a ↦ ground arith
        | inr a ↦ rw (n, a) (changed-count t k id j role db m u n a h)
      ]
    ]

-- Where member ids are unique, a workspace that has an active owner has one after any change of a
-- member's role in any workspace, whether the change returns or raises.
pub role_change-HasOwner :
    (t : ℕ) (workspace id role j : Text) (db : Db)
    → IsKeyed (λ (m : Member). m.id) db.members
    → HasOwner j db
    → HasOwner j (update_workspace_member_role t workspace id role db).1
unfolding update_workspace_member_role workspace_id
role_change-HasOwner t workspace id role j db u h =
    elim (Option-cases (validate_status role workspace_roles)) [
      | inl n ↦ ground arith
      | inr (r, n) ↦ ground (arith, role_row-HasOwner t (lower (strip workspace)) id j r db u h)
    ]
