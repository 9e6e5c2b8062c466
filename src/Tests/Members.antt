-- ===== src/Tests/Members.antt =====
-- Witnesses of the properties of members, and of retries in the inbox.
use ollum_sales.Prelude.{◌*◌, ◌≡◌, refl, [], ◌∷◌, none, some, arith}
use ollum_sales.Text.{text, same}
use ollum_sales.Table.{find, count, exists, select, first_by}
use ollum_sales.Table.Laws.{IsKeyed}
use ollum_sales.Prelude.{true, false}
use ollum_sales.Table.{update}
use ollum_sales.Exec.{ok, transaction}
use ollum_sales.Clock.{second}
use ollum_sales.Schema.{
  Db, Member, Invitation, InvitationStatus, Role, MemberStatus, InboxEvent, InboxStatus,
  AgentSettings,
}
use ollum_sales.Members.{
  Identity, new_member, accept, set_invitations, is_refused, add_member, join, admit, enter,
  authorize_row, update_workspace_member_role,
}
use ollum_sales.Members.Admission.{Admitted, authorize-Admitted}
use ollum_sales.Inbox.{event_in, set_events}
use ollum_sales.Inbox.Changes.{operational_view, fresh_start, requeue_row}
use ollum_sales.Inbox.Retry.{retry_unblocked}
use ollum_sales.Members.Owners.{HasOwner, role_change-HasOwner}
use ollum_sales.Workspaces.{default_settings}
use ollum_sales.Tests.Board.{board, event}

abbrev ann : Member
ann = record {
  id = text "a";
  workspace_id = text "w";
  subject = text "s";
  email = text "ann@x.kz";
  display_name = text "Ann";
  role = Role.owner;
  status = MemberStatus.active;
  created_at = 1;
  updated_at = 1;
  last_login_at = 1;
}

abbrev bob : Member
bob = record ann { id = text "b"; subject = text "t"; email = text "bob@x.kz" }

abbrev staffed : Db
staffed = record board { members = ann ∷ bob ∷ [] }

members-Keyed : IsKeyed (λ (m : Member). m.id) staffed.members
unfolding find same
members-Keyed = (refl, (refl, tt))

two_owners : HasOwner (text "w") staffed
unfolding count same
two_owners = omega arith

role_change-HasOwner_example :
    HasOwner
      (text "w")
      (update_workspace_member_role 9 (text "w") (text "a") (text "viewer") staffed).1
role_change-HasOwner_example =
    role_change-HasOwner 9 (text "w") (text "a") (text "viewer") (text "w") staffed members-Keyed
      two_owners

abbrev cy_identity : Identity
cy_identity = record {
  workspace = text "w";
  subject = text "u";
  email = text "cy@x.kz";
  display_name = text "Cy";
}

abbrev invitation : Invitation
invitation = record {
  id = text "i";
  workspace_id = text "w";
  email = text "cy@x.kz";
  role = Role.viewer;
  status = InvitationStatus.pending;
  invited_by = text "a";
  created_at = 2;
  expires_at = 20;
  accepted_at = none;
}

abbrev inviting : Db
inviting = record staffed { invitations = invitation ∷ [] }

abbrev cy : Member
cy = new_member 9 (text "n") cy_identity Role.viewer

abbrev joined_db : Db
joined_db = record inviting {
  members = ann ∷ bob ∷ cy ∷ [];
  invitations = accept 9 invitation ∷ [];
}

joins : transaction (authorize_row 9 (text "n") cy_identity false []) inviting ≡ (ok cy, joined_db)
unfolding authorize_row enter admit join is_refused add_member set_invitations find exists select
    first_by update same
joins = refl

authorize-Admitted_example : Admitted 9 cy_identity false [] inviting joined_db cy
authorize-Admitted_example =
    authorize-Admitted 9 (text "n") cy_identity false [] inviting joined_db cy joins

abbrev settings : AgentSettings
settings = record (default_settings 1 (text "w")) {
  max_inbound_age_hours = 24;
  response_sla_minutes = 15;
}

abbrev reviewed : InboxEvent
reviewed = record event { status = InboxStatus.needs_review; agent_error = some (text "late") }

abbrev review_db : Db
review_db = record board { events = reviewed ∷ [] }

retried : InboxEvent
retried = fresh_start 10 reviewed

retried_db : Db
unfolding retried
retried_db = record board { events = retried ∷ [] }

retries :
    transaction (requeue_row (10 * second) (text "w") (text "e") settings) review_db
    ≡ (ok (retried, true), retried_db)
unfolding requeue_row set_events find count update same retried retried_db
retries = refl

retry_unblocked_example :
    (e : InboxEvent) × (find (event_in (text "w") (text "e")) review_db.events ≡ some e)
    × ((operational_view settings (10 * second) e).retry_block_reason ≡ none)
retry_unblocked_example =
    retry_unblocked (10 * second) (text "w") (text "e") settings review_db retried_db retried
      retries
