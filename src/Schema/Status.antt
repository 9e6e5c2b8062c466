-- ===== src/Schema/Status.antt =====
-- The status columns of app/crm.py: the sets of their values, `_validate_status` and
-- `_workspace_role`. A status that came through the checks is a constructor; its text is in the
-- list of the column.
use ollum_sales.Prelude.{Bool, true, false, List, [], ◌∷◌, Option, none, some, if◌then◌else◌}
use ollum_sales.Text.{Text, text, same, strip, lower}

pub data LeadStatus : Type 0 where
  new researching analyzed qualified drafted approved contacted replied : LeadStatus
  interested meeting proposal follow_up won lost archived : LeadStatus

pub data DraftStatus : Type 0 where
  draft approved sending sent cancelled failed : DraftStatus

pub data FollowupStatus : Type 0 where
  pending completed cancelled : FollowupStatus

pub data RequestStatus : Type 0 where
  pending completed failed : RequestStatus

pub data AutopilotMode : Type 0 where
  safe semi_auto autopilot : AutopilotMode

pub data CycleStatus : Type 0 where
  running completed failed : CycleStatus

pub data Role : Type 0 where
  viewer operator owner : Role

pub data MemberStatus : Type 0 where
  active revoked : MemberStatus

pub data InvitationStatus : Type 0 where
  pending accepted cancelled : InvitationStatus

pub data InboxStatus : Type 0 where
  new acknowledged processing drafted needs_review resolved ignored : InboxStatus

pub data OnboardingStatus : Type 0 where
  not_started in_progress ready : OnboardingStatus

pub data KnowledgeStatus : Type 0 where
  active archived : KnowledgeStatus

pub data Direction : Type 0 where
  inbound outbound internal : Direction

abbrev pub lead_statuses : List (Text × LeadStatus)
lead_statuses =
    (text "new", LeadStatus.new)
    ∷ (text "researching", LeadStatus.researching)
    ∷ (text "analyzed", LeadStatus.analyzed)
    ∷ (text "qualified", LeadStatus.qualified)
    ∷ (text "drafted", LeadStatus.drafted)
    ∷ (text "approved", LeadStatus.approved)
    ∷ (text "contacted", LeadStatus.contacted)
    ∷ (text "replied", LeadStatus.replied)
    ∷ (text "interested", LeadStatus.interested)
    ∷ (text "meeting", LeadStatus.meeting)
    ∷ (text "proposal", LeadStatus.proposal)
    ∷ (text "follow_up", LeadStatus.follow_up)
    ∷ (text "won", LeadStatus.won)
    ∷ (text "lost", LeadStatus.lost)
    ∷ (text "archived", LeadStatus.archived)
    ∷ []

abbrev pub followup_statuses : List (Text × FollowupStatus)
followup_statuses =
    (text "pending", FollowupStatus.pending)
    ∷ (text "completed", FollowupStatus.completed)
    ∷ (text "cancelled", FollowupStatus.cancelled)
    ∷ []

abbrev pub autopilot_modes : List (Text × AutopilotMode)
autopilot_modes =
    (text "safe", AutopilotMode.safe)
    ∷ (text "semi_auto", AutopilotMode.semi_auto)
    ∷ (text "autopilot", AutopilotMode.autopilot)
    ∷ []

abbrev pub workspace_roles : List (Text × Role)
workspace_roles =
    (text "viewer", Role.viewer)
    ∷ (text "operator", Role.operator)
    ∷ (text "owner", Role.owner)
    ∷ []

abbrev pub agent_inbox_statuses : List (Text × InboxStatus)
agent_inbox_statuses =
    (text "new", InboxStatus.new)
    ∷ (text "acknowledged", InboxStatus.acknowledged)
    ∷ (text "processing", InboxStatus.processing)
    ∷ (text "drafted", InboxStatus.drafted)
    ∷ (text "needs_review", InboxStatus.needs_review)
    ∷ (text "resolved", InboxStatus.resolved)
    ∷ (text "ignored", InboxStatus.ignored)
    ∷ []

abbrev pub directions : List (Text × Direction)
directions =
    (text "inbound", Direction.inbound)
    ∷ (text "outbound", Direction.outbound)
    ∷ (text "internal", Direction.internal)
    ∷ []

unfoldable pub named {ℓ} : {A : Type ℓ} → Text → List (Text × A) → Option A
named s [] = none
named s ((t, a) ∷ rest) = if same s t then some a else named s rest

-- `_validate_status`: none for a value that is not allowed.
unfoldable pub validate_status {ℓ} : {A : Type ℓ} → Text → List (Text × A) → Option A
unfolding named
validate_status value allowed = named (lower (strip value)) allowed

abbrev pub is_draft : DraftStatus → Bool
is_draft DraftStatus.draft = true
is_draft _ = false

abbrev pub is_approved : DraftStatus → Bool
is_approved DraftStatus.approved = true
is_approved _ = false

abbrev pub is_sending : DraftStatus → Bool
is_sending DraftStatus.sending = true
is_sending _ = false

abbrev pub is_pending_followup : FollowupStatus → Bool
is_pending_followup FollowupStatus.pending = true
is_pending_followup _ = false

abbrev pub is_pending_request : RequestStatus → Bool
is_pending_request RequestStatus.pending = true
is_pending_request _ = false

abbrev pub is_running : CycleStatus → Bool
is_running CycleStatus.running = true
is_running _ = false

abbrev pub is_owner : Role → Bool
is_owner Role.owner = true
is_owner _ = false

abbrev pub is_active : MemberStatus → Bool
is_active MemberStatus.active = true
is_active _ = false

abbrev pub is_pending_invitation : InvitationStatus → Bool
is_pending_invitation InvitationStatus.pending = true
is_pending_invitation _ = false

abbrev pub is_new : InboxStatus → Bool
is_new InboxStatus.new = true
is_new _ = false

abbrev pub is_processing : InboxStatus → Bool
is_processing InboxStatus.processing = true
is_processing _ = false

abbrev pub is_needs_review : InboxStatus → Bool
is_needs_review InboxStatus.needs_review = true
is_needs_review _ = false

abbrev pub is_ready : OnboardingStatus → Bool
is_ready OnboardingStatus.ready = true
is_ready _ = false

abbrev pub is_active_knowledge : KnowledgeStatus → Bool
is_active_knowledge KnowledgeStatus.active = true
is_active_knowledge KnowledgeStatus.archived = false

-- AGENT_INBOX_OPEN_STATUSES
abbrev pub is_open : InboxStatus → Bool
is_open InboxStatus.resolved = false
is_open InboxStatus.ignored = false
is_open _ = true

abbrev pub is_inbound : Direction → Bool
is_inbound Direction.inbound = true
is_inbound _ = false

abbrev pub is_outbound : Direction → Bool
is_outbound Direction.outbound = true
is_outbound _ = false
