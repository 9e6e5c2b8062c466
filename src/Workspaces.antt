-- ===== src/Workspaces.antt =====
-- Workspaces (app/crm.py): `_workspace_id`, `ensure_workspace`, `get_workspace` and
-- `get_conversation_agent_settings`.
pub mod Reads
use ollum_sales.Prelude.{ℕ, Bool, true, false, none, not, ◌||◌, [], ◌∷◌, length, ltb, if◌then◌else◌}
use ollum_sales.Text.{Text, text, same, strip, lower, is_empty, has_char}
use ollum_sales.Exec.{pure, gets, or_raise, modify, raise_if, transaction, ◌>>=◌, ◌>>◌}
use ollum_sales.Table.{find, update, insert, exists}
use ollum_sales.Schema.{
  Db, Workspace, AgentSettings, Crm, bad_workspace_id, bad_workspace_chars, bad_workspace_name,
  workspace_not_found, assertion_failed,
}

abbrev pub id_characters : Text
id_characters = text "abcdefghijklmnopqrstuvwxyz0123456789-_"

-- any(character not in "…" for character in workspace_id)
unfoldable pub has_other : Text → Text → Bool
has_other allowed [] = false
has_other allowed (c ∷ s) = not (has_char c allowed) || has_other allowed s

-- `_workspace_id`
unfoldable pub workspace_id : Text → Crm Text
workspace_id value = do
  let clean = lower (strip value)
  raise_if (is_empty clean || ltb 64 (length clean)) bad_workspace_id
  raise_if (has_other id_characters clean) bad_workspace_chars
  pure clean

abbrev pub workspace_at : Text → Workspace → Bool
workspace_at k w = same w.id k

abbrev pub new_workspace : ℕ → Text → Text → Workspace
new_workspace timestamp k name = record {
  id = k;
  name = name;
  created_at = timestamp;
  updated_at = timestamp;
}

-- INSERT … ON CONFLICT(id) DO UPDATE
unfoldable pub put_workspace : ℕ → Text → Text → Db → Db
put_workspace timestamp k name db = record db {
  workspaces =
      if exists (workspace_at k) db.workspaces
      then update (workspace_at k) (λ w. record w { name = name; updated_at = timestamp })
          db.workspaces
      else insert (new_workspace timestamp k name) db.workspaces;
}

unfoldable pub ensure_workspace : ℕ → Text → Text → Crm Workspace
unfolding workspace_id put_workspace
ensure_workspace timestamp value name = do
  k ← workspace_id value
  let clean_name = strip name
  raise_if (is_empty clean_name || ltb 120 (length clean_name)) bad_workspace_name
  transaction (do
    modify (put_workspace timestamp k clean_name)
    row ← gets (λ db. find (workspace_at k) db.workspaces)
    or_raise row assertion_failed)

unfoldable pub get_workspace : Text → Crm Workspace
get_workspace value = do
  k ← workspace_id value
  row ← transaction (gets (λ db. find (workspace_at k) db.workspaces))
  or_raise row workspace_not_found

-- the id of a workspace that is there, as the callers check it first
unfoldable pub require_workspace : Text → Crm Text
unfolding get_workspace
require_workspace value = do k ← workspace_id value; get_workspace k; pure k

abbrev pub settings_at : Text → AgentSettings → Bool
settings_at k s = same s.workspace_id k

-- the columns' defaults, which are also what the source inserts
abbrev pub default_settings : ℕ → Text → AgentSettings
default_settings timestamp k = record {
  workspace_id = k;
  enabled = true;
  autonomy_mode = text "draft";
  niche = text "auto";
  objective = none;
  instructions = none;
  tone = none;
  qualification_questions = [];
  forbidden_topics = [];
  escalation_rules = [];
  max_context_messages = 12;
  max_reply_chars = 700;
  max_inbound_age_hours = 168;
  response_sla_minutes = 60;
  confidence_threshold = 65;
  auto_create_inbound_leads = true;
  created_at = timestamp;
  updated_at = timestamp;
}

-- INSERT OR IGNORE INTO conversation_agent_settings
unfoldable pub put_settings : ℕ → Text → Db → Db
put_settings timestamp k db = record db {
  settings =
      if exists (settings_at k) db.settings
      then db.settings
      else insert (default_settings timestamp k) db.settings;
}

unfoldable pub get_conversation_agent_settings : ℕ → Text → Crm AgentSettings
unfolding put_settings
get_conversation_agent_settings timestamp value = do
  k ← workspace_id value
  get_workspace k
  transaction (do
    modify (put_settings timestamp k)
    row ← gets (λ db. find (settings_at k) db.settings)
    or_raise row assertion_failed)
