-- ===== src/Tests/Board.antt =====
-- A small database.
use ollum_sales.Prelude.{true, [], ◌∷◌, none, some}
use ollum_sales.Text.{text}
use ollum_sales.Schema.{
  Db, Lead, Draft, Followup, AutopilotState, Workspace, InboxEvent, LeadStatus, DraftStatus,
  FollowupStatus, AutopilotMode, InboxStatus,
}

abbrev pub lead : Lead
lead = record {
  id = text "l";
  source = text "manual";
  status = LeadStatus.approved;
  created_at = 1;
  updated_at = 1;
}

abbrev pub draft : Draft
draft = record {
  id = text "d";
  lead_id = text "l";
  channel = text "whatsapp";
  recipient = none;
  message = text "hi";
  status = DraftStatus.approved;
  created_at = 1;
  updated_at = 2;
  approved_at = some 2;
  sent_at = none;
}

abbrev pub old_draft : Draft
old_draft = record draft { id = text "o"; status = DraftStatus.sent; sent_at = some 3 }

abbrev pub followup : Followup
followup = record {
  id = text "f";
  lead_id = text "l";
  due_at = 9;
  action = text "call";
  notes = none;
  status = FollowupStatus.pending;
  created_at = 1;
  completed_at = none;
}

abbrev pub idle : AutopilotState
idle = record {
  running = true;
  mode = AutopilotMode.safe;
  interval_minutes = 30;
  max_verticals_per_cycle = 3;
  leads_per_vertical = 10;
  score_threshold = 55;
  last_cycle_at = none;
  next_cycle_at = none;
  lock_until = none;
  current_cycle_id = none;
  last_error = none;
  updated_at = 1;
}

abbrev pub event : InboxEvent
event = record {
  id = text "e";
  workspace_id = text "w";
  source = text "whatsapp";
  external_id = text "x";
  lead_id = some (text "l");
  chat_jid = text "77001112233@s.whatsapp.net";
  sender_label = none;
  message_text = text "hello";
  media_type = none;
  received_at = 5;
  status = InboxStatus.new;
  draft_id = none;
  agent_attempts = 0;
  agent_lock_until = none;
  agent_error = none;
  decision = none;
  created_at = 5;
  updated_at = 5;
}

abbrev pub workspace : Workspace
workspace = record { id = text "w"; name = text "Main"; created_at = 1; updated_at = 1 }

abbrev pub board : Db
board = record {
  leads = lead ∷ [];
  drafts = draft ∷ old_draft ∷ [];
  interactions = [];
  followups = followup ∷ [];
  requests = [];
  autopilot = idle;
  cycles = [];
  workspaces = workspace ∷ [];
  members = [];
  invitations = [];
  events = event ∷ record event { id = text "n"; external_id = text "y"; received_at = 6 } ∷ [];
  settings = [];
  profiles = [];
  knowledge = [];
  answers = [];
  sessions = [];
}
