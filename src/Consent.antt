-- ===== src/Consent.antt =====
-- The decision of a person on the page of consent (`_session_user` and `oauth_authorize_complete` of
-- app/oauth_server.py, with `SalesCRM.record_admin_audit` of app/crm.py). The fields of the form are those
-- that `parse_qs` gives, empty where they are missing; there is no form where the body is not UTF-8.
-- A session with no membership has no workspace.
pub mod Gate
use ollum_sales.Prelude.{
  ℕ, Bool, true, false, not, ◌&&◌, ◌||◌, List, [], ◌∷◌, Option, none, some, take, leb, ltb,
  if◌then◌else◌,
}
use ollum_sales.Text.{Text, text, same, strip, is_empty, one_of}
use ollum_sales.Exec.{
  Exec, Result, ok, err, pure, raise_if, modify_unless, gets, transaction, ◌>>=◌, ◌>>◌,
}
use ollum_sales.Table.{exists, insert}
use ollum_sales.Oauth.{OauthDb, OauthFailure, Decision, Provider, Setup, complete_authorization}
use ollum_sales.Login.{User, Membership, or_text}

-- the rows of `admin_audit_log`
pub record AuditRow : Type 0 where
  pub id : Text
  pub actor : Text
  pub action : Text
  pub target_type : Option Text
  pub target_id : Option Text
  pub outcome : Text
  pub details_json : Text
  pub created_at : ℕ

pub record Form : Type 0 where
  pub request_id : Text
  pub decision : Text
  pub csrf : Text

pub record Submission : Type 0 where
  pub body_length : ℕ
  pub form : Option Form

-- the tables, and the session of the request
pub record Site : Type 0 where
  pub tables : OauthDb
  pub audit : List AuditRow
  pub session : Option User

pub data ConsentFailure : Type 0 where
  oauth : OauthFailure → ConsentFailure
  unicode_decode_error type_error audit_incomplete audit_integrity_error : ConsentFailure

-- The responses, with the status codes 413, 401, 403, 400, 400 and 200.
pub data Answer : Type 0 where
  too_large unauthenticated invalid_csrf invalid_decision already_used : Answer
  decided : Decision → Answer

abbrev pub Handler : Type 0 → Type 0
Handler = Exec Site ConsentFailure

abbrev pub form_body_max_bytes : ℕ
form_body_max_bytes = 16384

-- `s.strip()[:n] if s else None`
abbrev pub clipped : ℕ → Option Text → Option Text
clipped n none = none
clipped n (some []) = none
clipped n (some (c ∷ s)) = some (take n (strip (c ∷ s)))

-- `record_admin_audit`; `id` is the new random id, `details` the JSON text.
unfoldable pub record_admin_audit :
    ℕ → Text → Text → Text → Text → Option Text → Option Text → Text → Handler (Unit {0})
record_admin_audit now id actor action outcome target_type target_id details = do
  let row : AuditRow = record {
    id = id;
    actor = take 320 (strip actor);
    action = take 120 (strip action);
    target_type = clipped 80 target_type;
    target_id = clipped 160 target_id;
    outcome = take 40 (strip outcome);
    details_json = details;
    created_at = now;
  }
  raise_if (is_empty row.actor || is_empty row.action || is_empty row.outcome) audit_incomplete
  transaction (do
    taken ← gets (λ s. exists (λ (r : AuditRow). same r.id id) s.audit)
    modify_unless taken audit_integrity_error (λ s. record s { audit = insert row s.audit }))

abbrev pub no_workspace : Option Membership → Bool
no_workspace none = true
no_workspace (some m) = is_empty m.workspace_id

-- `_session_user`: the user, and the session after it
unfoldable pub session_user : ℕ → Option User → Option User × Option User
session_user now none = (none, none)
session_user now (some u) =
    if leb u.expires_at now
    then (none, none)
    else if is_empty u.sub || no_workspace u.membership || is_empty u.csrf
    then (none, some u)
    else (some u, some u)

-- `hmac.compare_digest`, which refuses texts with other characters than ASCII
unfoldable pub is_ascii : Text → Bool
is_ascii [] = true
is_ascii (c ∷ s) = ltb c 128 && is_ascii s

abbrev pub on_tables : {A : Type 0} → Provider A → Handler A
on_tables m s =
    let (r, db) = m s.tables in
    let s' = record s { tables = db } in elim r [ ok a ↦ (ok a, s') | err e ↦ (err (oauth e), s') ]

-- The readings of the clock, in turn, and the random texts. `audits` tells that the application has
-- the context of the dashboard.
pub record Readings : Type 0 where
  pub at_session : ℕ
  pub at_decision : ℕ
  pub at_audit : ℕ
  pub code : Text
  pub audit_id : Text
  pub audits : Bool

module _ (o : Setup) (t : Readings) where
  abbrev pub audited : User → Bool → Handler (Unit {0})
  audited u approved =
      if t.audits
      then record_admin_audit t.at_audit t.audit_id (or_text u.email u.sub) (text "oauth.consent")
          (if approved then text "approved" else text "denied") none none
          (text "{\"client\":\"ChatGPT MCP\"}")
      else pure tt

  abbrev pub answered : User → Bool → Option Decision → Handler Answer
  answered u approved none = pure already_used
  answered u approved (some d) = do audited u approved; pure (decided d)

  -- the end of the handler, after its checks
  unfoldable pub decided_by : User → Form → Handler Answer
  decided_by u f =
      on_tables (
        complete_authorization o t.at_decision f.request_id t.code u.sub
          (same f.decision (text "allow")))
      >>= answered u (same f.decision (text "allow"))

  unfoldable pub with_user : User → Form → Handler Answer
  unfolding decided_by
  with_user u f s =
      if is_empty u.csrf
      then (ok invalid_csrf, s)
      else if not (is_ascii u.csrf && is_ascii f.csrf)
      then (err type_error, s)
      else if not (same u.csrf f.csrf)
      then (ok invalid_csrf, s)
      else if not (one_of f.decision (text "allow" ∷ text "deny" ∷ []))
      then (ok invalid_decision, s)
      else decided_by u f s

  abbrev pub for_session : Form → Option User × Option User → Handler Answer
  for_session f (none, session) s = (ok unauthenticated, record s { session = session })
  for_session f (some u, session) s = with_user u f (record s { session = session })

  abbrev pub with_form : Option Form → Handler Answer
  with_form none s = (err unicode_decode_error, s)
  with_form (some f) s = for_session f (session_user t.at_session s.session) s

  unfoldable pub oauth_authorize_complete : Submission → Handler Answer
  unfolding with_user session_user
  oauth_authorize_complete x s =
      if ltb form_body_max_bytes x.body_length then (ok too_large, s) else with_form x.form s
