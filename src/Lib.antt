-- ===== src/Lib.antt =====
-- Ollum Sales: the operations of its CRM on the SQLite database (app/crm.py), the normal forms of
-- phones and chat addresses that it stores (app/data_quality.py), the autopilot's pass over the queue
-- of sends (app/autopilot.py), the OAuth provider for connected clients (app/oauth_server.py), and the
-- sign-in to the dashboard (app/auth.py).
--
-- A method of `SalesCRM` is a function from the database to a result and the database after it
-- (`Crm`, in Schema.antt, over Exec.antt): `ok` is a return, `err` an exception, and `transaction` is
-- `SalesCRM.connect`, which commits on return and rolls back on an exception. The database is a
-- record of tables and a table a list of rows in the order of insertion; Table.antt has the SQL
-- statements. Readings of the clock and fresh ids are arguments. An operation keeps its name.
--   Prelude, Text, Exec, Table  what the parts share: numbers and lists, Python's `str`, methods
--     with exceptions, tables and their laws
--   Schema, Clock  the tables and status columns of app/crm.py (`initialize`, `_validate_status`),
--     the exceptions, and `normalize_datetime`
--   Leads  `get_lead`, `update_lead_status` and the lead statuses that other operations set
--   Drafts  the outreach drafts: save, approve, claim for sending, release, mark as sent. Lifecycle
--     is the step relation of one draft, Calls treats each call, Safety sequences of
--     calls, Atomic exceptions, Claims the claim
--   Sends  the queue of drafts to send, which reads the drafts
--   Followups  interactions and follow-ups, which may move the lead
--   Autopilot  the one state row and its cycles. Running and Exclusive have the invariant, Runs any
--     sequence of calls, Lock the lock
--   Workspaces, Members  workspaces, their members, invitations and roles; Admission treats the ways
--     in (Invitations those by invitation), Owners the change of a role
--   Inbox  the events of the agent: arrival (Receive), lease (Claim), recovery (Recover,
--     Decisions), changes by an operator or by the agent (Changes), retries (Retry). It uses drafts,
--     leads and workspaces
--   Phone  `normalize_phone`, `normalize_whatsapp_jid` and `is_technical_whatsapp_jid`
--   Service  `AutopilotService._process_send_requests` and `start`, over Drafts, Sends, Followups and
--     Autopilot: the bridge answers or raises as an oracle says, and `World` keeps the history of its
--     calls. Rules and Parts treat the blocks of a pass, Passes one pass, Once histories of passes
--     and other calls, Gate the start and the gate of a pass, Waiting the requests that wait
--   Oauth  the provider's tables, clients and authorizations; Tokens has its codes and tokens. Calls
--     and Evolution treat each call, SingleUse codes and refresh tokens, Rotation the exchange of a
--     refresh token, Revocation the end of a family, Grants the way from a request to a
--     token, Clients the registration
--   Consent  `_session_user` and `oauth_authorize_complete`, over Oauth and Login, with
--     `SalesCRM.record_admin_audit`; Gate has what a submission may do
--   Login  `OIDCAccessTokenVerifier.verify_token` and `OIDCSessionManager`: Entry treats the sign-in,
--     Handoffs the codes between two hosts
--   Company  `canonical_company_url`, the profile (Profile), knowledge (Knowledge) and answers (Answers) of
--     a workspace, the state of its onboarding (Interview; Coverage has its questions) and the
--     confirmation (Confirm). Confirm/Calls treats each call: Edits what a call may change,
--     Profiled which workspaces have a profile, Versions, Rows, Whole and Current the parts of a
--     version, Confirmed and Standing sequences of calls
--   Settings  `update_conversation_agent_settings`, with the reads of Workspaces; Bounds treats one update,
--     Runs the sequences of calls that write settings, the confirmation of Company among them
--   Sessions  `get_conversation_session` and `upsert_conversation_session`
--   Retry  `retry_call` of app/data_quality.py; Attempts has its loop over an operation whose answers
--     are given
--   Tests  the properties at concrete inputs
--
-- Times are whole seconds, or microseconds for a reading of the clock, since the year 1; the columns
-- hold texts of one format and zone, whose order is that of the times. No definition runs on fuel:
-- the loops of the modelled code are statements over a table, passes over a text or a list, and the
-- counted attempts of `retry_call`. The clock of Oauth and Consent counts seconds, the
-- delays of Retry and the handoffs' clock microseconds. A JSON column is the text that is stored. Each transaction is taken to run alone, as one writer holds the database,
-- so calls of several processes are sequences of calls here. Digests, Fernet, `urlsplit`, `json.dumps`, the hash of a summary, the decoding
-- of tokens and the answer of the identity provider are arguments. A pass of the service is one event:
-- calls of other processes between its steps are not interleaved with it. The reads of
-- `get_company_onboarding_state` count as one read; the transaction of the confirmation is another step.
--
-- Not modelled: the search for leads and its scoring, campaigns, verticals,
-- reports, the other web surfaces, the cycles of the autopilot's service, the workers, and the services
-- outside the program; migrations; and the answers'
-- fields that only repeat columns of other tables.
pub mod Prelude
pub mod Text
pub mod Exec
pub mod Table
pub mod Schema
pub mod Clock
pub mod Leads
pub mod Drafts
pub mod Autopilot
pub mod Phone
pub mod Workspaces
pub mod Inbox
pub mod Members
pub mod Followups
pub mod Sends
pub mod Company
pub mod Settings
pub mod Sessions
pub mod Retry
pub mod Service
pub mod Oauth
pub mod Login
pub mod Consent
pub mod Tests
