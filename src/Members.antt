-- ===== src/Members.antt =====
-- Membership of workspaces (app/crm.py): `authorize_workspace_identity`, `get_workspace_member`,
-- `invite_workspace_member` and `update_workspace_member_role`. Stored emails went through
-- `lower`, so the column's NOCASE order compares them as they are.
pub mod Invitations
pub mod Owners
pub mod Admission
use ollum_sales.Prelude.{
  ℕ, ◌+◌, ◌*◌, Bool, not, ◌&&◌, ◌||◌, List, [], ◌∷◌, Option, none, some, map, length, ltb, leb,
  ◌==◌, if◌then◌else◌,
}
use ollum_sales.Text.{Text, same, strip, lower, is_empty, has_char, one_of}
use ollum_sales.Exec.{ok, err, pure, gets, or_raise, raise_if, transaction, ◌>>=◌, ◌>>◌}
use ollum_sales.Table.{find, select, update, count, insert, exists, first_by}
use ollum_sales.Clock.{second, stamp}
use ollum_sales.Workspaces.{workspace_id, workspace_at, ensure_workspace}
use ollum_sales.Schema.{
  Db, Workspace, Member, Invitation, Crm, Role, MemberStatus, InvitationStatus, workspace_roles,
  validate_status, is_owner, is_active, is_pending_invitation, integrity_error, identity_required,
  email_changed, email_bound, not_invited, bad_role, bad_email, bad_expiry, email_active,
  member_not_found, last_owner,
}

abbrev pub member_at : Text → Member → Bool
member_at k m = same m.id k

abbrev pub active_in : Text → Member → Bool
active_in workspace m = same m.workspace_id workspace && is_active m.status

abbrev pub has_subject : Text → Text → Member → Bool
has_subject workspace subject m = active_in workspace m && same m.subject subject

abbrev pub has_email : Text → Text → Member → Bool
has_email workspace email m = active_in workspace m && same m.email email

abbrev pub active_owner : Text → Member → Bool
active_owner workspace m = active_in workspace m && is_owner m.role

abbrev pub pending_for : Text → Text → Invitation → Bool
pending_for workspace email i =
    same i.workspace_id workspace && same i.email email && is_pending_invitation i.status

-- … AND expires_at > ?
abbrev pub is_open_invitation : Text → Text → ℕ → Invitation → Bool
is_open_invitation workspace email timestamp i =
    pending_for workspace email i && ltb timestamp i.expires_at

-- ORDER BY created_at DESC
abbrev pub newer : Invitation → Invitation → Bool
newer i j = ltb j.created_at i.created_at

unfoldable pub set_members : (Member → Bool) → (Member → Member) → Db → Db
set_members p f db = record db { members = update p f db.members }

unfoldable pub set_invitations : (Invitation → Bool) → (Invitation → Invitation) → Db → Db
set_invitations p f db = record db { invitations = update p f db.invitations }

-- The constraints of `workspace_members`: the primary key, one row for a subject in a workspace,
-- and one active row for an email.
unfoldable pub is_refused : Member → Db → Bool
is_refused m db =
    exists (member_at m.id) db.members
    || exists (λ n. same n.workspace_id m.workspace_id && same n.subject m.subject) db.members
    || exists (has_email m.workspace_id m.email) db.members

-- The identity that OIDC has verified, cleaned, in its workspace.
pub record Identity : Type 0 where
  pub workspace : Text
  pub subject : Text
  pub email : Text
  pub display_name : Text

abbrev pub new_member : ℕ → Text → Identity → Role → Member
new_member timestamp fresh who role = record {
  id = fresh;
  workspace_id = who.workspace;
  subject = who.subject;
  email = who.email;
  display_name = who.display_name;
  role = role;
  status = MemberStatus.active;
  created_at = timestamp;
  updated_at = timestamp;
  last_login_at = timestamp;
}

abbrev pub log_in : ℕ → Text → Member → Member
log_in timestamp name m = record m {
  display_name = name;
  updated_at = timestamp;
  last_login_at = timestamp;
}

abbrev pub accept : ℕ → Invitation → Invitation
accept timestamp i = record i { status = InvitationStatus.accepted; accepted_at = some timestamp }

abbrev pub invitation_at : Text → Invitation → Bool
invitation_at k i = same i.id k

-- The role of a new member: the invitation's; else, for an account of the bootstrap list, owner if
-- the workspace has no member or the account is listed as an owner.
unfoldable pub bootstrap_role : Identity → List Text → Db → Role
bootstrap_role who owner_emails db =
    if count (active_in who.workspace) db.members == 0 || one_of who.email (map lower owner_emails)
    then Role.owner
    else Role.operator

-- the insertion of the member, and the acceptance of the invitation if there is one
unfoldable pub add_member : ℕ → Text → Identity → Role → Option Invitation → Db → Db
unfolding set_invitations
add_member timestamp fresh who role none db = record db {
  members = insert (new_member timestamp fresh who role) db.members;
}
add_member timestamp fresh who role (some i) db =
    set_invitations (invitation_at i.id) (accept timestamp)
      (record db { members = insert (new_member timestamp fresh who role) db.members })

unfoldable pub join : ℕ → Text → Identity → Role → Option Invitation → Crm Member
unfolding is_refused add_member
join timestamp fresh who role invitation db =
    if is_refused (new_member timestamp fresh who role) db then (err integrity_error, db) else (
      ok (new_member timestamp fresh who role),
      add_member timestamp fresh who role invitation db,
    )

unfoldable pub admit : ℕ → Text → Identity → Bool → List Text → Option Invitation → Crm Member
unfolding join bootstrap_role
admit timestamp fresh who bootstrap_allowed owner_emails (some i) db =
    join timestamp fresh who i.role (some i) db
admit timestamp fresh who bootstrap_allowed owner_emails none db =
    if bootstrap_allowed
    then join timestamp fresh who (bootstrap_role who owner_emails db) none db
    else (err not_invited, db)

unfoldable pub enter : ℕ → Text → Identity → Bool → List Text → Option Member → Crm Member
unfolding admit set_members
enter timestamp fresh who bootstrap_allowed owner_emails (some m) db =
    if same (lower m.email) who.email
    then (
      ok (log_in timestamp who.display_name m),
      set_members (member_at m.id) (log_in timestamp who.display_name) db,
    )
    else (err email_changed, db)
enter timestamp fresh who bootstrap_allowed owner_emails none db =
    if exists (has_email who.workspace who.email) db.members
    then (err email_bound, db)
    else admit timestamp fresh who bootstrap_allowed owner_emails
        (first_by newer
          (select (is_open_invitation who.workspace who.email timestamp) db.invitations))
        db

-- the transaction of `authorize_workspace_identity`
unfoldable pub authorize_row : ℕ → Text → Identity → Bool → List Text → Crm Member
unfolding enter
authorize_row timestamp fresh who bootstrap_allowed owner_emails db =
    enter timestamp fresh who bootstrap_allowed owner_emails
      (find (has_subject who.workspace who.subject) db.members) db

abbrev pub or_text : Text → Text → Text
or_text [] t = t
or_text (c ∷ s) t = c ∷ s

-- arguments: workspace, its name, subject, email, display name, bootstrap list, owners; the two
-- readings of the clock are `timestamp` and `later`
unfoldable pub authorize_workspace_identity :
    ℕ → ℕ → Text → Text → Text → Text → Text → Text → Bool → List Text → Crm (Member × Workspace)
authorize_workspace_identity timestamp later fresh workspace name subject email display_name
      bootstrap_allowed owner_emails =
    do
      w ← ensure_workspace timestamp workspace name
      let clean_email = lower (strip email)
      raise_if (is_empty (strip subject) || is_empty clean_email) identity_required
      m ← transaction (
          authorize_row later fresh
            (record {
              workspace = w.id;
              subject = strip subject;
              email = clean_email;
              display_name = or_text (strip display_name) clean_email;
            })
            bootstrap_allowed owner_emails)
      pure (m, w)

unfoldable pub get_workspace_member : Text → Text → Crm (Option Member)
get_workspace_member workspace subject = do
  k ← workspace_id workspace
  transaction (gets (λ db. find (has_subject k (strip subject)) db.members))

abbrev pub cancel : Invitation → Invitation
cancel i = record i { status = InvitationStatus.cancelled }

abbrev pub new_invitation : ℕ → ℕ → Text → Text → Text → Role → Text → Invitation
new_invitation timestamp expires fresh k email role invited_by = record {
  id = fresh;
  workspace_id = k;
  email = email;
  role = role;
  status = InvitationStatus.pending;
  invited_by = invited_by;
  created_at = timestamp;
  expires_at = expires;
  accepted_at = none;
}

-- the transaction of `invite_workspace_member`; an id that is there and a workspace that is not are
-- refused by the constraints of the table
unfoldable pub invite_row : Text → Text → Invitation → Crm Invitation
unfolding set_invitations
invite_row k email i db =
    if exists (has_email k email) db.members
    then (err email_active, db)
    else if exists (invitation_at i.id) db.invitations
        || not (exists (workspace_at k) db.workspaces)
    then (err integrity_error, db)
    else (
      ok i,
      (let cancelled = set_invitations (pending_for k email) cancel db in
          record cancelled { invitations = insert i cancelled.invitations }),
    )

-- The expiry is counted from a second reading `later` of the clock, in microseconds.
unfoldable pub invite_workspace_member :
    ℕ → ℕ → Text → Text → Text → Text → Text → ℕ → Crm Invitation
invite_workspace_member timestamp later fresh workspace email role invited_by expires_in_days = do
  k ← workspace_id workspace
  let clean_email = lower (strip email)
  clean_role ← or_raise (validate_status role workspace_roles) bad_role
  raise_if (is_empty clean_email || not (has_char b'@' clean_email) || ltb 254 (length clean_email))
      bad_email
  raise_if (not (leb 1 expires_in_days && leb expires_in_days 30)) bad_expiry
  transaction (
      invite_row k clean_email (
        new_invitation timestamp (stamp (later + expires_in_days * 86400 * second)) fresh k
          clean_email clean_role (strip invited_by)))

abbrev pub change_role : ℕ → Role → Member → Member
change_role timestamp role m = record m { role = role; updated_at = timestamp }

-- `if current["role"] == "owner" and clean_role != "owner" and owner_count <= 1`
unfoldable pub loses_last_owner : Text → Member → Role → Db → Bool
loses_last_owner k m role db =
    is_owner m.role && not (is_owner role) && leb (count (active_owner k) db.members) 1

-- the transaction of `update_workspace_member_role`, with the row that was found
unfoldable pub role_row : ℕ → Text → Text → Role → Option Member → Crm Member
unfolding set_members loses_last_owner
role_row timestamp k member_id role none db = (err member_not_found, db)
role_row timestamp k member_id role (some m) db =
    if loses_last_owner k m role db then (err last_owner, db) else (
      ok (change_role timestamp role m),
      set_members (member_at member_id) (change_role timestamp role) db,
    )

unfoldable pub update_workspace_member_role : ℕ → Text → Text → Text → Crm Member
unfolding role_row
update_workspace_member_role timestamp workspace member_id role = do
  k ← workspace_id workspace
  clean ← or_raise (validate_status role workspace_roles) bad_role
  transaction (λ db.
      role_row timestamp k member_id clean
        (find (λ m. member_at member_id m && active_in k m) db.members) db)
