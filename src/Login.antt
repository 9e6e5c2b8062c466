-- ===== src/Login.antt =====
-- Sign-in to the dashboard (app/auth.py): `OIDCAccessTokenVerifier.verify_token` and
-- `OIDCSessionManager`. What the libraries
-- answer is an argument: the claims of a token that PyJWT accepts, and what Authlib gives for the
-- request. Missing claims are empty texts. A reading of the monotonic clock is in microseconds.
pub mod Handoffs
pub mod Entry
use ollum_sales.Prelude.{
  ℕ, ◌+◌, ◌*◌, Bool, true, false, not, ◌&&◌, ◌||◌, List, [], ◌∷◌, ◌++◌, Option, none, some, length,
  ltb, leb, if◌then◌else◌,
}
use ollum_sales.Text.{Text, same, strip, lower, is_empty, one_of}
use ollum_sales.Exec.{Exec, Result, ok, err, pure, raise, raise_if, or_raise, ◌>>=◌, ◌>>◌}
use ollum_sales.Table.{find, select, insert}
use ollum_sales.Oauth.{delete}
use ollum_sales.Clock.{second}

-- The claims that are read; `scopes` is the union that `scopes_from_claims` makes.
pub record TokenClaims : Type 0 where
  pub sub : Text
  pub azp : Text
  pub client_id : Text
  pub audience : Option Text
  pub scopes : List Text
  pub exp : ℕ

-- `AccessToken`
pub record Access : Type 0 where
  pub client_id : Text
  pub scopes : List Text
  pub expires_at : ℕ
  pub resource : Text
  pub subject : Text

pub record Verifier : Type 0 where
  pub audience : Text
  pub allowed_subjects : List Text
  pub decode : Text → Option TokenClaims

-- `a or b`
abbrev pub or_text : Text → Text → Text
or_text [] t = t
or_text (c ∷ s) t = c ∷ s

abbrev pub some_text : Option Text → Text → Text
some_text none t = t
some_text (some s) t = s

abbrev pub no_texts : List Text → Bool
no_texts [] = true
no_texts (t ∷ ts) = false

abbrev pub access_of : Verifier → TokenClaims → Access
access_of v c = record {
  client_id = or_text c.azp (or_text c.client_id c.sub);
  scopes = c.scopes;
  expires_at = c.exp;
  resource = some_text c.audience v.audience;
  subject = c.sub;
}

unfoldable pub accept_claims : Verifier → Option TokenClaims → Option Access
accept_claims v none = none
accept_claims v (some c) =
    if is_empty c.sub || not (no_texts v.allowed_subjects) && not (one_of c.sub v.allowed_subjects)
    then none
    else some (access_of v c)

unfoldable pub verify_token : Verifier → Text → Option Access
unfolding accept_claims
verify_token v token = accept_claims v (v.decode token)

-- the claims of `userinfo`; `email_verified` is none where it is missing
pub record UserInfo : Type 0 where
  pub sub : Text
  pub email : Text
  pub name : Text
  pub email_verified : Option Bool

-- What Authlib answers to the callback's request.
pub record Callback : Type 0 where
  pub access_token : Text
  pub userinfo : UserInfo

pub record Membership : Type 0 where
  pub workspace_id : Text
  pub workspace_name : Text
  pub member_id : Text
  pub role : Text

-- `request.session["user"]`
pub record User : Type 0 where
  pub sub : Text
  pub email : Text
  pub name : Text
  pub scopes : List Text
  pub csrf : Text
  pub expires_at : ℕ
  pub membership : Option Membership

pub data LoginFailure : Type 0 where
  session_invalid invalid_access_token missing_scope subjects_differ email_required : LoginFailure
  not_in_allowlist refused : LoginFailure

-- The identity that the authorizer of the application is asked about.
pub record Asked : Type 0 where
  pub subject : Text
  pub email : Text
  pub name : Text
  pub bootstrap_allowed : Bool

-- The settings, and the application's authorizer, which changes a state of type `S` and may refuse.
pub record Manager (S : Type 0) : Type 0 where
  pub verifier : Verifier
  pub admin_read_scope : Text
  pub admin_allowed_emails : List Text
  pub identity_authorizer : Option (Asked → Exec S LoginFailure Membership)

abbrev pub is_false : Option Bool → Bool
is_false none = false
is_false (some b) = not b

module _ {S : Type 0} (m : Manager S) where
  -- `if self.identity_authorizer is not None: … elif not bootstrap_allowed: …`
  unfoldable pub authorize_with :
      Option (Asked → Exec S LoginFailure Membership)
      → Asked
      → Exec S LoginFailure (Option Membership)
  authorize_with none a = do raise_if (not a.bootstrap_allowed) not_in_allowlist; pure none
  authorize_with (some f) a = do membership ← f a; pure (some membership)

  abbrev pub clean_email : UserInfo → Text
  clean_email u = lower (strip u.email)

  abbrev pub asked : UserInfo → Asked
  asked u = record {
    subject = u.sub;
    email = clean_email u;
    name = or_text u.name (clean_email u);
    bootstrap_allowed = one_of (clean_email u) m.admin_allowed_emails;
  }

  abbrev pub signed_in : Access → UserInfo → Text → Option Membership → User
  signed_in access u csrf membership = record {
    sub = u.sub;
    email = clean_email u;
    name = or_text u.name (clean_email u);
    scopes = access.scopes;
    csrf = csrf;
    expires_at = access.expires_at;
    membership = membership;
  }

  abbrev pub verified : Text → Option Access
  verified token = if is_empty token then none else verify_token m.verifier token

  -- `complete_login`, from the answer of Authlib and the new random text; the user is put in the
  -- session, which is cleared first
  unfoldable pub complete_login : Option Callback → Text → Exec S LoginFailure User
  unfolding authorize_with verify_token
  complete_login answer csrf = do
    token ← or_raise answer session_invalid
    access ← or_raise (verified token.access_token) invalid_access_token
    raise_if (not (is_empty m.admin_read_scope) && not (one_of m.admin_read_scope access.scopes))
        missing_scope
    raise_if (is_empty token.userinfo.sub || not (same token.userinfo.sub access.subject))
        subjects_differ
    raise_if (is_empty (clean_email token.userinfo)) email_required
    raise_if (is_false token.userinfo.email_verified) email_required
    membership ← authorize_with m.identity_authorizer (asked token.userinfo)
    pure (signed_in access token.userinfo csrf membership)

-- `self._handoffs`: codes with their deadlines and users
pub record Handoff : Type 0 where
  pub code : Text
  pub deadline : ℕ
  pub user : User

abbrev pub handoff_at : Text → Handoff → Bool
handoff_at k h = same h.code k

abbrev pub handoff_seconds : ℕ
handoff_seconds = 120

unfoldable pub discard_expired_handoffs : ℕ → List Handoff → List Handoff
discard_expired_handoffs now = delete (λ h. leb h.deadline now)

-- The new code, and the dictionary after it.
unfoldable pub issue_login_handoff : ℕ → Text → User → List Handoff → Text × List Handoff
unfolding discard_expired_handoffs
issue_login_handoff now code user hs =
    let entry : Handoff = record {
      code = code;
      deadline = now + handoff_seconds * second;
      user = user;
    } in
    (code, insert entry (delete (handoff_at code) (discard_expired_handoffs now hs)))

abbrev pub user_of : ℕ → Option Handoff → Option User
user_of now none = none
user_of now (some h) = if leb h.deadline now then none else some h.user

unfoldable pub consume_login_handoff : ℕ → Text → List Handoff → Option User × List Handoff
unfolding discard_expired_handoffs
consume_login_handoff now code hs = if is_empty code || ltb 256 (length code) then (none, hs) else (
  user_of now (find (handoff_at code) (discard_expired_handoffs now hs)),
  delete (handoff_at code) (discard_expired_handoffs now hs),
)
