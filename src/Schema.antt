-- ===== src/Schema.antt =====
-- The tables of app/crm.py (`SalesCRM.initialize`) that the modelled operations touch, and the
-- database as one record. Times are whole seconds since the first of January of the year 1 in
-- UTC: the columns hold ISO texts of one format and zone, whose order as texts is the order of the
-- times. Columns that no modelled operation reads or writes are left out, and a JSON column is the
-- text that is stored.
mod Status
mod Errors
pub use Status.{
  LeadStatus, DraftStatus, FollowupStatus, RequestStatus, AutopilotMode, CycleStatus, Role,
  MemberStatus, InvitationStatus, InboxStatus, OnboardingStatus, KnowledgeStatus, Direction,
  is_ready, is_active_knowledge, lead_statuses, followup_statuses, autopilot_modes, workspace_roles,
  agent_inbox_statuses, directions, is_draft, is_approved, is_sending, is_pending_followup,
  is_pending_request, is_running, is_owner, is_active, is_pending_invitation, is_new, is_processing,
  is_needs_review, is_open, is_inbound, is_outbound,
}
unfoldable pub use Status.{named, validate_status}
pub use Errors.*
use ollum_sales.Prelude.{ℕ, Bool, List, Option}
use ollum_sales.Text.{Text}
use ollum_sales.Exec.{Exec}

pub record Lead : Type 0 where
  pub id : Text
  pub source : Text
  pub status : LeadStatus
  pub created_at : ℕ
  pub updated_at : ℕ

pub record Draft : Type 0 where
  pub id : Text
  pub lead_id : Text
  pub channel : Text
  pub recipient : Option Text
  pub message : Text
  pub status : DraftStatus
  pub created_at : ℕ
  pub updated_at : ℕ
  pub approved_at : Option ℕ
  pub sent_at : Option ℕ

pub record Interaction : Type 0 where
  pub id : Text
  pub lead_id : Text
  pub channel : Text
  pub direction : Direction
  pub content : Text
  pub status : Text
  pub external_id : Option Text
  pub occurred_at : ℕ
  pub created_at : ℕ

pub record Followup : Type 0 where
  pub id : Text
  pub lead_id : Text
  pub due_at : ℕ
  pub action : Text
  pub notes : Option Text
  pub status : FollowupStatus
  pub created_at : ℕ
  pub completed_at : Option ℕ

pub record SendRequest : Type 0 where
  pub id : Text
  pub draft_id : Text
  pub status : RequestStatus
  pub requested_at : ℕ
  pub processed_at : Option ℕ
  pub error : Option Text

-- the one row of `autopilot_state`
pub record AutopilotState : Type 0 where
  pub running : Bool
  pub mode : AutopilotMode
  pub interval_minutes : ℕ
  pub max_verticals_per_cycle : ℕ
  pub leads_per_vertical : ℕ
  pub score_threshold : ℕ
  pub last_cycle_at : Option ℕ
  pub next_cycle_at : Option ℕ
  pub lock_until : Option ℕ
  pub current_cycle_id : Option Text
  pub last_error : Option Text
  pub updated_at : ℕ

pub record Cycle : Type 0 where
  pub id : Text
  pub mode : AutopilotMode
  pub status : CycleStatus
  pub selected_verticals : Text
  pub metrics : Text
  pub error : Option Text
  pub started_at : ℕ
  pub completed_at : Option ℕ

pub record Workspace : Type 0 where
  pub id : Text
  pub name : Text
  pub created_at : ℕ
  pub updated_at : ℕ

pub record Member : Type 0 where
  pub id : Text
  pub workspace_id : Text
  pub subject : Text
  pub email : Text
  pub display_name : Text
  pub role : Role
  pub status : MemberStatus
  pub created_at : ℕ
  pub updated_at : ℕ
  pub last_login_at : ℕ

pub record Invitation : Type 0 where
  pub id : Text
  pub workspace_id : Text
  pub email : Text
  pub role : Role
  pub status : InvitationStatus
  pub invited_by : Text
  pub created_at : ℕ
  pub expires_at : ℕ
  pub accepted_at : Option ℕ

pub record InboxEvent : Type 0 where
  pub id : Text
  pub workspace_id : Text
  pub source : Text
  pub external_id : Text
  pub lead_id : Option Text
  pub chat_jid : Text
  pub sender_label : Option Text
  pub message_text : Text
  pub media_type : Option Text
  pub received_at : ℕ
  pub status : InboxStatus
  pub draft_id : Option Text
  pub agent_attempts : ℕ
  pub agent_lock_until : Option ℕ
  pub agent_error : Option Text
  pub decision : Option Text
  pub created_at : ℕ
  pub updated_at : ℕ

-- `conversation_agent_settings`; the lists are those of the JSON columns
pub record AgentSettings : Type 0 where
  pub workspace_id : Text
  pub enabled : Bool
  pub autonomy_mode : Text
  pub niche : Text
  pub objective : Option Text
  pub instructions : Option Text
  pub tone : Option Text
  pub qualification_questions : List Text
  pub forbidden_topics : List Text
  pub escalation_rules : List Text
  pub max_context_messages : ℕ
  pub max_reply_chars : ℕ
  pub max_inbound_age_hours : ℕ
  pub response_sla_minutes : ℕ
  pub confidence_threshold : ℕ
  pub auto_create_inbound_leads : Bool
  pub created_at : ℕ
  pub updated_at : ℕ

-- the columns of `company_profiles` that `update_company_profile` sets
pub record Facts : Type 0 where
  pub company_name : Option Text
  pub website_url : Option Text
  pub industry : Option Text
  pub geography : Option Text
  pub positioning : Option Text
  pub target_customer : Option Text
  pub sales_process : Option Text
  pub tone_of_voice : Option Text
  pub primary_goal : Option Text
  pub constraints : Option Text
  pub language : Option Text

-- `company_profiles`; the two times are missing only in the answer for a workspace with no row
pub record CompanyProfile : Type 0 where
  pub workspace_id : Text
  pub facts : Facts
  pub onboarding_status : OnboardingStatus
  pub revision : ℕ
  pub created_at : Option ℕ
  pub updated_at : Option ℕ
  pub completed_at : Option ℕ
  pub confirmed_revision : Option ℕ
  pub confirmed_summary_hash : Option Text
  pub confirmed_by : Option Text
  pub confirmed_at : Option ℕ

pub record KnowledgeItem : Type 0 where
  pub id : Text
  pub workspace_id : Text
  pub category : Text
  pub title : Text
  pub content_json : Text
  pub source_type : Text
  pub source_name : Option Text
  pub status : KnowledgeStatus
  pub created_at : ℕ
  pub updated_at : ℕ

pub record OnboardingAnswer : Type 0 where
  pub workspace_id : Text
  pub question_id : Text
  pub status : Text
  pub answer_json : Text
  pub source_type : Text
  pub source_name : Option Text
  pub created_at : ℕ
  pub updated_at : ℕ

pub record Session : Type 0 where
  pub id : Text
  pub workspace_id : Text
  pub channel : Text
  pub external_chat_id : Text
  pub lead_id : Option Text
  pub stage : Text
  pub intent : Option Text
  pub sentiment : Option Text
  pub summary : Option Text
  pub facts_json : Text
  pub unanswered_question : Option Text
  pub next_action : Option Text
  pub escalation_status : Text
  pub escalation_reason : Option Text
  pub last_response_id : Option Text
  pub last_draft_id : Option Text
  pub turn_count : ℕ
  pub last_inbound_at : Option ℕ
  pub created_at : ℕ
  pub updated_at : ℕ

pub record Db : Type 0 where
  pub leads : List Lead
  pub drafts : List Draft
  pub interactions : List Interaction
  pub followups : List Followup
  pub requests : List SendRequest
  pub autopilot : AutopilotState
  pub cycles : List Cycle
  pub workspaces : List Workspace
  pub members : List Member
  pub invitations : List Invitation
  pub events : List InboxEvent
  pub settings : List AgentSettings
  pub profiles : List CompanyProfile
  pub knowledge : List KnowledgeItem
  pub answers : List OnboardingAnswer
  pub sessions : List Session

-- A method of `SalesCRM`.
abbrev pub Crm : Type 0 → Type 0
Crm = Exec Db Failure
