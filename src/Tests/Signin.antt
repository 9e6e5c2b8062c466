-- ===== src/Tests/Signin.antt =====
-- Witnesses of the properties of a sign-in.
use ollum_sales.Prelude.{◌≡◌, refl, true, false, List, [], ◌∷◌, none, some, arith}
use ollum_sales.Text.{
  text, same, lower, strip, lstrip, rstrip, cons_stripped, lower_char, is_space, has_char, one_of,
}
use ollum_sales.Exec.{ok}
use ollum_sales.Login.{
  Access, TokenClaims, Verifier, Callback, User, Manager, accept_claims, verify_token,
  authorize_with, complete_login, issue_login_handoff, consume_login_handoff,
}
use ollum_sales.Login.Entry.{IsKnown, IsUser, IsAuthorized, login_returned}
use ollum_sales.Login.Handoffs.{HandoffCall, handoffs_run, issues, consumes, handoff_roundtrip}

abbrev claims : TokenClaims
claims = record {
  sub = text "s";
  azp = [];
  client_id = text "c";
  audience = none;
  scopes = text "read" ∷ [];
  exp = 100;
}

abbrev verifier : Verifier
verifier = record { audience = text "r"; allowed_subjects = []; decode = λ _. some claims }

abbrev manager : Manager (Unit {0})
manager = record {
  verifier = verifier;
  admin_read_scope = text "read";
  admin_allowed_emails = text "a@b" ∷ [];
  identity_authorizer = none;
}

abbrev callback : Callback
callback = record {
  access_token = text "t";
  userinfo = record { sub = text "s"; email = text " A@b"; name = []; email_verified = some true };
}

abbrev access : Access
access = record {
  client_id = text "c";
  scopes = text "read" ∷ [];
  expires_at = 100;
  resource = text "r";
  subject = text "s";
}

abbrev pub user : User
user = record {
  sub = text "s";
  email = text "a@b";
  name = text "a@b";
  scopes = text "read" ∷ [];
  csrf = text "x";
  expires_at = 100;
  membership = none;
}

signs_in : complete_login manager (some callback) (text "x") tt ≡ (ok user, tt)
unfolding complete_login authorize_with verify_token accept_claims same lower strip lstrip rstrip
    cons_stripped lower_char is_space has_char one_of
signs_in = refl

login_returned_example :
    (c : Callback) × (k : TokenClaims) × (some callback ≡ some c)
    × IsKnown manager c k
    × IsUser manager c k (text "x") user
    × IsAuthorized manager user tt tt
login_returned_example = login_returned manager (some callback) (text "x") tt tt user signs_in

abbrev calls : List HandoffCall
calls = issues 9 (text "j") user ∷ consumes 9 (text "k") ∷ []

other_code : same (text "j") (text "k") ≡ false
unfolding same
other_code = refl

handoff_roundtrip_example :
    ((consume_login_handoff 6 (text "k") (issue_login_handoff 5 (text "k") user []).1).0
      ≡ some user)
    × ((consume_login_handoff 20 (text "k") (
          handoffs_run
            (consume_login_handoff 6 (text "k") (issue_login_handoff 5 (text "k") user []).1).1
            calls)).0
        ≡ none)
handoff_roundtrip_example =
    handoff_roundtrip 5 6 20 (text "k") user [] calls refl (omega arith) (other_code, (tt, tt))
