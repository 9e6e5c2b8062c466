-- ===== src/Tests/Consents.antt =====
-- Witness of the property of the page of consent.
use ollum_sales.Prelude.{◌≤◌, ◌≡◌, ◌⊎◌, true, [], some}
use ollum_sales.Text.{text}
use ollum_sales.Login.{User, Membership}
use ollum_sales.Consent.{
  Form, Submission, Site, Readings, form_body_max_bytes, oauth_authorize_complete,
}
use ollum_sales.Consent.Gate.{IsConsent, tables_by, submission_gated}
use ollum_sales.Tests.Provider.{setup, asked}
use ollum_sales.Tests.Signin.{user}

abbrev readings : Readings
readings = record {
  at_session = 11;
  at_decision = 11;
  at_audit = 11;
  code = text "j";
  audit_id = text "i";
  audits = true;
}

abbrev member : Membership
member = record {
  workspace_id = text "w";
  workspace_name = text "Main";
  member_id = text "m";
  role = text "owner";
}

abbrev site : Site
site = record {
  tables = asked;
  audit = [];
  session = some (record user { membership = some member });
}

abbrev allows : Submission
allows = record {
  body_length = 40;
  form = some (record { request_id = text "q"; decision = text "allow"; csrf = text "x" });
}

submission_gated_example :
    ((oauth_authorize_complete setup readings allows site).1.tables ≡ asked)
    ⊎ ((u : User) × (f : Form) × (allows.body_length ≤ form_body_max_bytes)
        × (allows.form ≡ some f)
        × (site.session ≡ some u)
        × IsConsent setup readings u f
        × ((oauth_authorize_complete setup readings allows site).1.tables
            ≡ tables_by setup readings u f asked))
submission_gated_example = submission_gated setup readings allows site
