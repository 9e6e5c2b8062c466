-- ===== src/Settings.antt =====
-- `update_conversation_agent_settings` of app/crm.py. A keyword is a constructor of `Setting`, with the
-- value as the source reads it: `bool(value)`, `str(value)`, `int(value)`, where a negative
-- number is clamped like 0.
pub mod Bounds
pub mod Runs
use ollum_sales.Prelude.{
  ℕ, Bool, true, false, not, ◌&&◌, ◌||◌, List, [], ◌∷◌, Option, none, some, length, ltb, take, max,
  min, if◌then◌else◌,
}
use ollum_sales.Text.{Text, text, collapse, is_empty, or_none, or_empty}
use ollum_sales.Exec.{pure, raise, or_raise, modify, raise_if, transaction, ◌>>=◌, ◌>>◌}
use ollum_sales.Table.{update}
use ollum_sales.Schema.{
  Db, AgentSettings, Crm, unsupported_fields, field_too_long, bad_autonomy_mode, not_a_list,
  integrity_error,
}
use ollum_sales.Workspaces.{workspace_id, get_conversation_agent_settings, settings_at}
use ollum_sales.Company.Knowledge.{validated}

abbrev pub conversation_autonomy_modes : List Text
conversation_autonomy_modes = text "observe" ∷ text "draft" ∷ []

pub data FlagSetting : Type 0 where
  enabled auto_create_inbound_leads : FlagSetting

pub data TextSetting : Type 0 where
  niche objective instructions tone : TextSetting

pub data ListSetting : Type 0 where
  qualification_questions forbidden_topics escalation_rules : ListSetting

pub data NumberSetting : Type 0 where
  max_context_messages max_reply_chars max_inbound_age_hours response_sla_minutes
        confidence_threshold :
      NumberSetting

-- A keyword and its value; a list is none where the value is not a list.
pub data Setting : Type 0 where
  flag : FlagSetting → Bool → Setting
  autonomy_mode : Text → Setting
  words : TextSetting → Option Text → Setting
  lines : ListSetting → Option (List Text) → Setting
  number : NumberSetting → ℕ → Setting
  unsupported : Text → Setting

-- An entry of `assignments` with its value.
pub data Assignment : Type 0 where
  set_flag : FlagSetting → Bool → Assignment
  set_mode : Text → Assignment
  set_words : TextSetting → Option Text → Assignment
  set_lines : ListSetting → List Text → Assignment
  set_number : NumberSetting → ℕ → Assignment

abbrev pub text_limit : TextSetting → ℕ
text_limit niche = 120
text_limit objective = 3000
text_limit instructions = 6000
text_limit tone = 2000

abbrev pub clamped : NumberSetting → ℕ → ℕ
clamped max_context_messages n = max 4 (min n 30)
clamped max_reply_chars n = max 120 (min n 700)
clamped max_inbound_age_hours n = max 1 (min n 720)
clamped response_sla_minutes n = max 5 (min n 10080)
clamped confidence_threshold n = max 40 (min n 95)

-- `clean_items`, of the first thirty items
unfoldable pub clean_items : List Text → List Text
clean_items [] = []
clean_items (item ∷ items) =
    let rest = clean_items items in
    if is_empty (collapse item) then rest else take 500 (collapse item) ∷ rest

-- a text setting, without extra white space
abbrev pub clean_words : TextSetting → Text → Crm Assignment
clean_words name clean = do
  raise_if (ltb (text_limit name) (length clean)) field_too_long
  pure (set_words name (or_none clean))

-- one round of the loop
unfoldable pub clean_setting : Setting → Crm Assignment
unfolding clean_items
clean_setting (flag name value) = pure (set_flag name value)
clean_setting (autonomy_mode value) = do
  clean ← or_raise (validated value conversation_autonomy_modes) bad_autonomy_mode
  pure (set_mode clean)
clean_setting (words name value) = clean_words name (collapse (or_empty value))
clean_setting (lines name value) = do
  items ← or_raise value not_a_list
  pure (set_lines name (clean_items (take 30 items)))
clean_setting (number name value) = pure (set_number name (clamped name value))
clean_setting (unsupported name) = raise unsupported_fields

unfoldable pub clean_settings : List Setting → Crm (List Assignment)
unfolding clean_setting
clean_settings [] = pure []
clean_settings (field ∷ fields) = do
  a ← clean_setting field
  rest ← clean_settings fields
  pure (a ∷ rest)

abbrev pub is_unsupported : Setting → Bool
is_unsupported (unsupported name) = true
is_unsupported _ = false

unfoldable pub any_unsupported : List Setting → Bool
any_unsupported [] = false
any_unsupported (field ∷ fields) = is_unsupported field || any_unsupported fields

abbrev pub put_flag : FlagSetting → Bool → AgentSettings → AgentSettings
put_flag enabled b s = record s { enabled = b }
put_flag auto_create_inbound_leads b s = record s { auto_create_inbound_leads = b }

abbrev pub or_niche : Option Text → Text → Text
or_niche none t = t
or_niche (some s) t = s

-- the niche cannot be NULL
abbrev pub put_words : TextSetting → Option Text → AgentSettings → AgentSettings
put_words niche v s = record s { niche = or_niche v s.niche }
put_words objective v s = record s { objective = v }
put_words instructions v s = record s { instructions = v }
put_words tone v s = record s { tone = v }

abbrev pub put_lines : ListSetting → List Text → AgentSettings → AgentSettings
put_lines qualification_questions v s = record s { qualification_questions = v }
put_lines forbidden_topics v s = record s { forbidden_topics = v }
put_lines escalation_rules v s = record s { escalation_rules = v }

abbrev pub put_number : NumberSetting → ℕ → AgentSettings → AgentSettings
put_number max_context_messages n s = record s { max_context_messages = n }
put_number max_reply_chars n s = record s { max_reply_chars = n }
put_number max_inbound_age_hours n s = record s { max_inbound_age_hours = n }
put_number response_sla_minutes n s = record s { response_sla_minutes = n }
put_number confidence_threshold n s = record s { confidence_threshold = n }

abbrev pub assign : Assignment → AgentSettings → AgentSettings
assign (set_flag name b) s = put_flag name b s
assign (set_mode mode) s = record s { autonomy_mode = mode }
assign (set_words name v) s = put_words name v s
assign (set_lines name v) s = put_lines name v s
assign (set_number name n) s = put_number name n s

unfoldable pub assign_all : List Assignment → AgentSettings → AgentSettings
assign_all [] s = s
assign_all (a ∷ assignments) s = assign_all assignments (assign a s)

-- a NULL for the niche, which the column's constraint refuses
abbrev pub is_null_niche : Assignment → Bool
is_null_niche (set_words niche none) = true
is_null_niche _ = false

unfoldable pub nulls_niche : List Assignment → Bool
nulls_niche [] = false
nulls_niche (a ∷ assignments) = is_null_niche a || nulls_niche assignments

abbrev pub no_assignments : List Assignment → Bool
no_assignments [] = true
no_assignments (a ∷ assignments) = false

unfoldable pub set_settings : ℕ → Text → List Assignment → Db → Db
unfolding assign_all
set_settings timestamp k assignments db = record db {
  settings =
      update (settings_at k) (λ s. record (assign_all assignments s) { updated_at = timestamp })
        db.settings;
}

-- the transaction; the row is there, since the settings were read before it
unfoldable pub assign_row : ℕ → Text → List Assignment → Crm (Unit {0})
unfolding nulls_niche set_settings
assign_row timestamp k assignments = do
  raise_if (nulls_niche assignments) integrity_error
  modify (set_settings timestamp k assignments)

-- The three times are those of the first read, of the update and of the last read.
unfoldable pub update_conversation_agent_settings :
    ℕ → ℕ → ℕ → Text → List Setting → Crm AgentSettings
unfolding any_unsupported clean_settings assign_row
update_conversation_agent_settings first timestamp last value fields = do
  k ← workspace_id value
  get_conversation_agent_settings first k
  raise_if (any_unsupported fields) unsupported_fields
  assignments ← clean_settings fields
  if no_assignments assignments then get_conversation_agent_settings last k else do
    transaction (assign_row timestamp k assignments)
    get_conversation_agent_settings last k
