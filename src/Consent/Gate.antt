-- ===== src/Consent/Gate.antt =====
-- What a submission on the page of consent may do (app/oauth_server.py).
use ollum_sales.Prelude.{
  ◌≤◌, ◌<◌, ◌≡◌, ◌⊎◌, refl, sym, ◌∙◌, Bool, true, false, ◌&&◌, ◌||◌, [], ◌∷◌, Option, some, leb,
  ltb, Bool-cases, Option-cases, inl, inr, arith,
}
use ollum_sales.Text.{Text, text, same, is_empty, one_of}
use ollum_sales.Text.Laws.{same_iff}
use ollum_sales.Exec.{Result, ok, err, bind_view}
use ollum_sales.Oauth.{OauthDb, OauthFailure, Decision, Provider, Setup, complete_authorization}
use ollum_sales.Login.{User}
use ollum_sales.Consent.{
  Form, Submission, ConsentFailure, oauth, Site, Readings, form_body_max_bytes, no_workspace,
  is_ascii, session_user, record_admin_audit, answered, on_tables, decided_by, with_user,
  oauth_authorize_complete,
}

on_tables-view :
    {A : Type 0} (m : Provider A) (s : Site) → (on_tables m s).1.tables ≡ (m s.tables).1
on_tables-view {A} m s = go (m s.tables)
  where
    go :
        (x : Result OauthFailure A × OauthDb)
        → (elim x.0 as (λ _. Result ConsentFailure A × Site) [
          | ok a ↦ (ok a, record s { tables = x.1 })
          | err e ↦ (err (oauth e), record s { tables = x.1 })
        ]).1.tables
          ≡ x.1
    go (ok a, db) = refl
    go (err e, db) = refl

choice :
    (d : Text)
    → one_of d (text "allow" ∷ text "deny" ∷ []) ≡ true
    → (d ≡ text "allow") ⊎ (d ≡ text "deny")
unfolding one_of
choice d h = elim (Bool-cases (same d (text "allow"))) [
  | inl e ↦ inl ((same_iff d (text "allow")).0 e)
  | inr e ↦ inr ((same_iff d (text "deny")).0 (ground arith))
]

module _ (o : Setup) (t : Readings) where
  -- Was the decision made by the user of this session?
  pub record IsConsent (u : User) (f : Form) : Type 0 where
    pub live : t.at_session < u.expires_at
    pub named : is_empty u.sub ≡ false
    pub member : no_workspace u.membership ≡ false
    pub csrf : f.csrf ≡ u.csrf
    pub has_csrf : is_empty u.csrf ≡ false
    pub decision : (f.decision ≡ text "allow") ⊎ (f.decision ≡ text "deny")

  -- The tables after the decision of a user.
  abbrev pub tables_by : User → Form → OauthDb → OauthDb
  tables_by u f db =
      (complete_authorization o t.at_decision f.request_id t.code u.sub
        (same f.decision (text "allow")) db).1

  answered-view :
      (u : User) (approved : Bool) (d : Option Decision) (s : Site)
      → (answered o t u approved d s).1.tables ≡ s.tables
  unfolding record_admin_audit
  answered-view u approved d s = ground arith

  decided-tables :
      (u : User) (f : Form) (s : Site) → (decided_by o t u f s).1.tables ≡ tables_by u f s.tables
  unfolding decided_by
  decided-tables u f s =
      let m =
        complete_authorization o t.at_decision f.request_id t.code u.sub
          (same f.decision (text "allow")) in
      bind_view (λ (x : Site). x.tables) (on_tables m)
        (answered o t u (same f.decision (text "allow"))) s
        (answered-view u (same f.decision (text "allow")))
      ∙ on_tables-view m s

  user-cases :
      (u : User) (f : Form) (s : Site)
      → ((with_user o t u f s).1.tables ≡ s.tables)
        ⊎ ((f.csrf ≡ u.csrf)
            × (is_empty u.csrf ≡ false)
            × ((f.decision ≡ text "allow") ⊎ (f.decision ≡ text "deny"))
            × ((with_user o t u f s).1.tables ≡ tables_by u f s.tables))
  unfolding with_user one_of
  user-cases u f s = elim (Bool-cases (is_empty u.csrf)) [
    | inl e ↦ inl (rw e refl)
    | inr e ↦ elim (Bool-cases (is_ascii u.csrf && is_ascii f.csrf)) [
      | inr a ↦ inl (rw (e, a) refl)
      | inl a ↦ elim (Bool-cases (same u.csrf f.csrf)) [
        | inr c ↦ inl (rw (e, a, c) refl)
        | inl c ↦ elim (Bool-cases (one_of f.decision (text "allow" ∷ text "deny" ∷ []))) [
          | inr d ↦ inl (rw (e, a, c, d) refl)
          | inl d ↦ inr (
            sym ((same_iff u.csrf f.csrf).0 c),
            e,
            choice f.decision d,
            rw (e, a, c, d) (decided-tables u f s),
          )
        ]
      ]
    ]
  ]

  -- A submission on the page of consent, whatever it answers or raises, leaves the provider's tables as
  -- they were, or has a form of an allowed size, from the session of a user that has not expired and has a
  -- subject, a workspace and a token against forgery, which the form repeats, and a decision to allow
  -- or to deny; then the tables are those that the provider makes of this decision of this subject.
  pub submission_gated :
      (x : Submission) (s : Site)
      → ((oauth_authorize_complete o t x s).1.tables ≡ s.tables)
        ⊎ ((u : User) × (f : Form) × (x.body_length ≤ form_body_max_bytes)
            × (x.form ≡ some f)
            × (s.session ≡ some u)
            × IsConsent u f
            × ((oauth_authorize_complete o t x s).1.tables ≡ tables_by u f s.tables))
  unfolding oauth_authorize_complete session_user
  submission_gated x s = elim (Bool-cases (ltb form_body_max_bytes x.body_length)) [
    | inl b ↦ inl (rw b refl)
    | inr b ↦ elim (Option-cases x.form) [
      | inl n ↦ inl (rw (b, n) refl)
      | inr (f, n) ↦ elim (Option-cases s.session) [
        | inl m ↦ inl (rw (b, n, m) refl)
        | inr (u, m) ↦ elim (Bool-cases (leb u.expires_at t.at_session)) [
          | inl l ↦ inl (rw (b, n, m, l) refl)
          | inr l ↦
              elim (Bool-cases (is_empty u.sub || no_workspace u.membership || is_empty u.csrf)) [
                | inl k ↦ inl (rw (b, n, m, l, k) refl)
                | inr k ↦ elim (user-cases u f (record s { session = some u })) [
                  | inl e ↦ inl (rw (b, n, m, l, k) e)
                  | inr (c, h, d, e) ↦ inr (
                    u,
                    f,
                    ground arith,
                    n,
                    m,
                    record {
                      live = ground arith;
                      named = ground arith;
                      member = ground arith;
                      csrf = c;
                      has_csrf = h;
                      decision = d;
                    },
                    rw (b, n, m, l, k) e,
                  )
                ]
              ]
        ]
      ]
    ]
  ]
