-- ===== src/Schema/Errors.antt =====
-- The exceptions of app/crm.py, one constructor for each message. `integrity_error` is SQLite's
-- refusal of a row whose key is taken; `date_overflow` is Python's, of a date out of range.
pub data Failure : Type 0 where
  integrity_error date_overflow bad_date : Failure
  lead_not_found draft_not_found : Failure
  message_empty message_too_long bad_channel recipient_empty : Failure
  only_draft_approved no_send_claim : Failure
  bad_status bad_mode bad_role bad_direction content_empty : Failure
  action_empty bad_completion followup_not_found : Failure
  only_approved_queued request_not_found : Failure
  cycle_not_running cycle_not_found : Failure
  bad_workspace_id bad_workspace_chars bad_workspace_name workspace_not_found : Failure
  identity_required email_changed email_bound not_invited : Failure
  bad_email bad_expiry email_active member_not_found last_owner : Failure
  bad_jid bad_external_id bad_chat_jid technical_jid message_text_empty : Failure
  event_not_found only_review_retried has_draft no_lead stale_event event_changed : Failure
  different_lead not_leased assertion_failed : Failure
  unsupported_fields no_fields field_too_long bad_url url_credentials : Failure
  bad_category bad_title source_type_too_long source_name_too_long not_grounded too_large : Failure
  knowledge_not_found bad_question bad_answer_status : Failure
  not_confirmed onboarding_incomplete stale_revision hash_mismatch : Failure
  bad_autonomy_mode not_a_list bad_stage bad_chat_id bad_session_channel : Failure
