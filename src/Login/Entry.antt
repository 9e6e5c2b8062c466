-- ===== src/Login/Entry.antt =====
-- The sign-in of a person (`complete_login` of app/auth.py).
use mathlib.Core.Path.{subst}
use ollum_sales.Prelude.{
  [], ◌∷◌, ◌≡◌, ◌⊎◌, refl, sym, Bool-cases, Option-cases, inl, inr, none, ap, ◌∙◌, Bool, true,
  false, not, ◌&&◌, ◌||◌, Option, some, arith,
}
use ollum_sales.Text.{Text, same, lower, strip, is_empty, one_of}
use ollum_sales.Exec.{
  Exec, Result, ok, pure, raise_if, or_raise, raise_if_returned, or_raise_returned, bind_returned,
  pure_returned, ◌>>=◌, ◌>>◌,
}
use ollum_sales.Text.Laws.{same_iff}
use ollum_sales.Login.{
  TokenClaims, Asked, no_texts, or_text, not_in_allowlist, access_of, verify_token, accept_claims,
  Access, UserInfo, Callback, User, Membership, LoginFailure, Manager, session_invalid,
  invalid_access_token, missing_scope, subjects_differ, email_required, is_false, clean_email,
  verified, asked, signed_in, authorize_with, complete_login,
}

module _ {S : Type 0} (m : Manager S) where
  -- What has been checked where a sign-in returned.
  pub record Checked (answer : Callback) (access : Access) (u : UserInfo) : Type 0 where
    pub token : verified m answer.access_token ≡ some access
    pub scope : (is_empty m.admin_read_scope || one_of m.admin_read_scope access.scopes) ≡ true
    pub has_subject : is_empty u.sub ≡ false
    pub subject : same u.sub access.subject ≡ true
    pub email : is_empty (clean_email m u) ≡ false
    pub not_denied : is_false u.email_verified ≡ false

  abbrev no_scope : Access → Bool
  no_scope access =
      not (is_empty m.admin_read_scope) && not (one_of m.admin_read_scope access.scopes)

  -- The ends of a sign-in, each after one more check.
  abbrev admitted : Text → UserInfo → Access → Exec S LoginFailure User
  admitted csrf u access = do
    membership ← authorize_with m m.identity_authorizer (asked m u)
    pure (signed_in m access u csrf membership)

  abbrev with_email : Text → UserInfo → Access → Exec S LoginFailure User
  with_email csrf u access = do
    raise_if (is_false u.email_verified) email_required
    admitted csrf u access

  abbrev with_subject : Text → UserInfo → Access → Exec S LoginFailure User
  with_subject csrf u access = do
    raise_if (is_empty (clean_email m u)) email_required
    with_email csrf u access

  abbrev with_scope : Text → UserInfo → Access → Exec S LoginFailure User
  with_scope csrf u access = do
    raise_if (is_empty u.sub || not (same u.sub access.subject)) subjects_differ
    with_subject csrf u access

  abbrev with_access : Text → UserInfo → Access → Exec S LoginFailure User
  with_access csrf u access = do raise_if (no_scope access) missing_scope; with_scope csrf u access

  abbrev with_answer : Text → Callback → Exec S LoginFailure User
  with_answer csrf c = do
    access ← or_raise (verified m c.access_token) invalid_access_token
    with_access csrf c.userinfo access

  login_parts :
      (answer : Option Callback) (csrf : Text) (s s' : S) (user : User)
      → complete_login m answer csrf s ≡ (ok user, s')
      → (c : Callback) × (access : Access) × (membership : Option Membership) × (answer ≡ some c)
        × Checked c access c.userinfo
        × (authorize_with m m.identity_authorizer (asked m c.userinfo) s ≡ (ok membership, s'))
        × (user ≡ signed_in m access c.userinfo csrf membership)
  unfolding complete_login
  login_parts answer csrf s s' user h =
      let (c, e0, h0) = or_raise_returned answer session_invalid (with_answer csrf) s s' user h in
      let (access, e1, h1) =
        or_raise_returned (verified m c.access_token) invalid_access_token
          (with_access csrf c.userinfo) s s' user h0 in
      let (e2, h2) =
        raise_if_returned (no_scope access) missing_scope (with_scope csrf c.userinfo access) s s'
          user h1 in
      let (e3, h3) =
        raise_if_returned (is_empty c.userinfo.sub || not (same c.userinfo.sub access.subject))
          subjects_differ (with_subject csrf c.userinfo access) s s' user h2 in
      let (e4, h4) =
        raise_if_returned (is_empty (clean_email m c.userinfo)) email_required
          (with_email csrf c.userinfo access) s s' user h3 in
      let (e5, h5) =
        raise_if_returned (is_false c.userinfo.email_verified) email_required
          (admitted csrf c.userinfo access) s s' user h4 in
      let (membership, t, a, e) =
        bind_returned (authorize_with m m.identity_authorizer (asked m c.userinfo))
          (λ membership. pure (signed_in m access c.userinfo csrf membership)) s s' user h5 in
      (
        c,
        access,
        membership,
        e0,
        record {
          token = e1;
          scope = ground (arith, e2);
          has_subject = ground (arith, e3);
          subject = ground (arith, e3);
          email = e4;
          not_denied = e5;
        },
        a ∙ ap (λ (x : Result LoginFailure User × S). (ok membership, x.1)) e,
        (pure_returned (signed_in m access c.userinfo csrf membership) user t s' e).0,
      )

  -- The person behind an answer of the provider, whose token has the given claims.
  pub record IsKnown (c : Callback) (claims : TokenClaims) : Type 0 where
    pub token : is_empty c.access_token ≡ false
    pub decoded : m.verifier.decode c.access_token ≡ some claims
    pub subject : is_empty claims.sub ≡ false
    pub same_subject : c.userinfo.sub ≡ claims.sub
    pub allowed :
        (no_texts m.verifier.allowed_subjects ≡ true)
        ⊎ (one_of claims.sub m.verifier.allowed_subjects ≡ true)
    pub scope :
        (is_empty m.admin_read_scope ≡ true) ⊎ (one_of m.admin_read_scope claims.scopes ≡ true)
    pub email : is_empty (lower (strip c.userinfo.email)) ≡ false
    pub not_denied : (c.userinfo.email_verified ≡ none) ⊎ (c.userinfo.email_verified ≡ some true)

  -- The user of the session, from the answer and the claims.
  pub record IsUser (c : Callback) (claims : TokenClaims) (csrf : Text) (user : User) : Type 0 where
    pub sub : user.sub ≡ claims.sub
    pub email : user.email ≡ lower (strip c.userinfo.email)
    pub name :
        ((is_empty c.userinfo.name ≡ true) × (user.name ≡ user.email))
        ⊎ (user.name ≡ c.userinfo.name)
    pub scopes : user.scopes ≡ claims.scopes
    pub expires_at : user.expires_at ≡ claims.exp
    pub csrf_token : user.csrf ≡ csrf

  -- With no authorizer the e-mail is on the list of the administrators; an authorizer was asked about
  -- the user of the session, and its membership is the user's.
  pub data IsAuthorized (user : User) (s s' : S) : Type 0 where
    on_list :
        m.identity_authorizer ≡ none
        → one_of user.email m.admin_allowed_emails ≡ true
        → user.membership ≡ none
        → s' ≡ s
        → IsAuthorized user s s'
    by_authorizer :
        (f : Asked → Exec S LoginFailure Membership) (a : Asked) (p : Membership)
        → m.identity_authorizer ≡ some f
        → (a.subject ≡ user.sub)
          × (a.email ≡ user.email)
          × (a.name ≡ user.name)
          × (a.bootstrap_allowed ≡ one_of user.email m.admin_allowed_emails)
        → f a s ≡ (ok p, s')
        → user.membership ≡ some p
        → IsAuthorized user s s'

  verified_claims :
      (token : Text) (access : Access)
      → verified m token ≡ some access
      → (claims : TokenClaims) × (is_empty token ≡ false)
        × (m.verifier.decode token ≡ some claims)
        × (is_empty claims.sub ≡ false)
        × ((no_texts m.verifier.allowed_subjects ≡ true)
            ⊎ (one_of claims.sub m.verifier.allowed_subjects ≡ true))
        × (access ≡ access_of m.verifier claims)
  unfolding verify_token accept_claims
  verified_claims token access h = elim (Bool-cases (is_empty token)) [
    | inl e ↦ absurd (ground arith)
    | inr e ↦ elim (Option-cases (m.verifier.decode token)) [
      | inl n ↦ absurd (ground arith)
      | inr (claims, n) ↦ elim (Bool-cases (is_empty claims.sub)) [
        | inl b ↦ absurd (ground arith)
        | inr b ↦ elim (Bool-cases (no_texts m.verifier.allowed_subjects)) [
          | inl x ↦ (claims, e, n, b, inl x, ground arith)
          | inr x ↦ elim (Bool-cases (one_of claims.sub m.verifier.allowed_subjects)) [
            | inl y ↦ (claims, e, n, b, inr y, ground arith)
            | inr y ↦ absurd (ground arith)
          ]
        ]
      ]
    ]
  ]

  authorized :
      (a : Asked) (s s' : S) (p : Option Membership) (user : User)
      → authorize_with m m.identity_authorizer a s ≡ (ok p, s')
      → (a.subject ≡ user.sub)
        × (a.email ≡ user.email)
        × (a.name ≡ user.name)
        × (a.bootstrap_allowed ≡ one_of user.email m.admin_allowed_emails)
      → user.membership ≡ p
      → IsAuthorized user s s'
  unfolding authorize_with
  authorized a s s' p user h q e = elim (Option-cases m.identity_authorizer) [
    | inl n ↦
        let asked_none : authorize_with m none a s ≡ (ok p, s') =
          subst (λ x. authorize_with m x a s ≡ (ok p, s')) n h in
        let (listed, k) =
          raise_if_returned (not a.bootstrap_allowed) not_in_allowlist (pure none) s s' p
            asked_none in
        let (none_given, unmoved) = pure_returned {E = LoginFailure} none p s s' k in
        on_list n (sym q.3 ∙ ground arith) (e ∙ none_given) unmoved
    | inr (f, n) ↦
        let asked_one : authorize_with m (some f) a s ≡ (ok p, s') =
          subst (λ x. authorize_with m x a s ≡ (ok p, s')) n h in
        let (one, t, answered, k) =
          bind_returned (f a) (λ membership. pure (some membership)) s s' p asked_one in
        let (given, unmoved) = pure_returned {E = LoginFailure} (some one) p t s' k in
        by_authorizer f a one n q (answered ∙ ap (λ (x : S). (ok one, x)) (sym unmoved)) (e ∙ given)
  ]

  denied_cases : (b : Option Bool) → is_false b ≡ false → (b ≡ none) ⊎ (b ≡ some true)
  denied_cases none h = inl refl
  denied_cases (some true) h = inr refl
  denied_cases (some false) h = absurd (ground arith)

  name_cases :
      (name email : Text)
      → ((is_empty name ≡ true) × (or_text name email ≡ email)) ⊎ (or_text name email ≡ name)
  name_cases [] email = inl (refl, refl)
  name_cases (x ∷ name) email = inr refl

  Checked-IsKnown :
      (c : Callback) (access : Access) (claims : TokenClaims)
      → Checked c access c.userinfo
      → is_empty c.access_token ≡ false
      → m.verifier.decode c.access_token ≡ some claims
      → is_empty claims.sub ≡ false
      → (no_texts m.verifier.allowed_subjects ≡ true)
        ⊎ (one_of claims.sub m.verifier.allowed_subjects ≡ true)
      → access ≡ access_of m.verifier claims
      → IsKnown c claims
  Checked-IsKnown c access claims k token decoded subject allowed accepted = record {
    token = token;
    decoded = decoded;
    subject = subject;
    same_subject =
        (same_iff c.userinfo.sub access.subject).0 k.subject
        ∙ ap (λ (x : Access). x.subject) accepted;
    allowed = allowed;
    scope = elim (Bool-cases (is_empty m.admin_read_scope)) [
      | inl e ↦ inl e
      | inr e ↦ inr (
          sym (ap (λ (x : Access). one_of m.admin_read_scope x.scopes) accepted)
          ∙ (let scoped = k.scope in ground (arith, scoped)))
    ];
    email = k.email;
    not_denied = denied_cases c.userinfo.email_verified k.not_denied;
  }

  made-IsUser :
      (c : Callback) (access : Access) (claims : TokenClaims) (csrf : Text) (p : Option Membership)
      (user : User)
      → c.userinfo.sub ≡ claims.sub
      → access ≡ access_of m.verifier claims
      → user ≡ signed_in m access c.userinfo csrf p
      → IsUser c claims csrf user
  made-IsUser c access claims csrf p user subject accepted made = record {
    sub = ap (λ (x : User). x.sub) made ∙ subject;
    email = ap (λ (x : User). x.email) made;
    name = rw made (name_cases c.userinfo.name (lower (strip c.userinfo.email)));
    scopes = ap (λ (x : User). x.scopes) made ∙ ap (λ (x : Access). x.scopes) accepted;
    expires_at = ap (λ (x : User). x.expires_at) made ∙ ap (λ (x : Access). x.expires_at) accepted;
    csrf_token = ap (λ (x : User). x.csrf) made;
  }

  -- A sign-in that returned a user had an answer of the provider whose token decodes to claims of a
  -- nonempty subject that is the answer's and, where a list of subjects is set, on it; the claims
  -- have the dashboard's scope where one is set; the answer has an e-mail that is not marked
  -- unverified. The user of the session has the subject, the scopes and the expiry of the claims, the
  -- answer's e-mail in lower case without outer white space, its name or this e-mail, and the text
  -- against forgery; and either no authorizer is set and the e-mail is on the list of
  -- administrators, or the authorizer was asked about this user and gave the membership.
  pub login_returned :
      (answer : Option Callback) (csrf : Text) (s s' : S) (user : User)
      → complete_login m answer csrf s ≡ (ok user, s')
      → (c : Callback) × (claims : TokenClaims) × (answer ≡ some c)
        × IsKnown c claims
        × IsUser c claims csrf user
        × IsAuthorized user s s'
  login_returned answer csrf s s' user h =
      let (c, access, p, given, checked, asks, made) = login_parts answer csrf s s' user h in
      let (claims, token, decoded, subject, allowed, accepted) =
        verified_claims c.access_token access checked.token in
      let known = Checked-IsKnown c access claims checked token decoded subject allowed accepted in
      (
        c,
        claims,
        given,
        known,
        made-IsUser c access claims csrf p user known.same_subject accepted made,
        authorized (asked m c.userinfo) s s' p user asks (rw made (refl, refl, refl, refl))
            (rw made refl),
      )
