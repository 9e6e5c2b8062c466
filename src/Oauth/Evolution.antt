-- ===== src/Oauth/Evolution.antt =====
-- How each call on the OAuth provider (app/oauth_server.py) moves the tables of codes and tokens.
use ollum_sales.Prelude.{
  ℕ, ◌≡◌, refl, Bool, true, false, not, ◌||◌, List, arith, Bool-cases, Option-cases, inl, inr,
  if◌then◌else◌, ◌==◌, leb,
}
use ollum_sales.Text.{Text, is_empty}
use ollum_sales.Table.{find, count, exists}
use ollum_sales.Table.Laws.{find-exists}
use ollum_sales.Oauth.{
  OauthDb, Client, Params, Setup, delete, unusable, cleanup_expired, code_at, token_at, pending_at,
  granted, decide, register_client, authorize, pending_authorization, complete_authorization,
}
use ollum_sales.Oauth.Tokens.{
  Code, Token, Fresh, in_family, live_code, live_token, or_list, subset, insert_token_pair,
  access_row, refresh_row, code_claims, refresh_claims, spend_code, spend_refresh, drop_family,
  load_authorization_code, exchange_authorization_code, load_access_token, load_refresh_token,
  exchange_refresh_token, revoke_token, family_of,
}
use ollum_sales.Oauth.Calls.{
  OauthCall, registers, authorizes, asks, decides, loads_code, spends_code, loads_access,
  loads_refresh, spends_refresh, revokes, after, MintsCode, MintsAccess, MintsRefresh, stays, drops,
  appends, replaces, Evolves, Evolves-same, Evolves-cleanup,
}

abbrev Nothing : Text → Type 0
Nothing d = ⊥

module _ (o : Setup) where
  register-Evolves :
      (now : ℕ) (client : Client) (db : OauthDb)
      → Evolves Nothing Nothing Nothing db (register_client o now client db).1
  unfolding register_client
  register-Evolves now client db = Evolves-same (ground arith) (ground arith) (ground arith)

  authorize-Evolves :
      (now : ℕ) (request : Text) (client : Client) (params : Params) (db : OauthDb)
      → Evolves Nothing Nothing Nothing db (authorize o now request client params db).1
  unfolding authorize cleanup_expired
  authorize-Evolves now request client params db = elim (Bool-cases (is_empty client.client_id)) [
    | inl e ↦ Evolves-same (ground arith) (ground arith) (ground arith)
    | inr e ↦
        elim (Bool-cases
          (exists (pending_at (o.digest request)) (cleanup_expired now db).pending)) [
            | inl t ↦ Evolves-same (ground arith) (ground arith) (ground arith)
            | inr t ↦ record {
              codes = drops (λ r. not (leb r.expires_at now)) (ground arith);
              access = drops (λ r. not (leb r.expires_at now)) (ground arith);
              refresh = drops (λ r. not (leb r.expires_at now)) (ground arith);
            }
          ]
  ]

  -- A call that cleans up, or does nothing.
  cleaned :
      {P Q R : Text → Type 0} (b : Bool) (now : ℕ) (db db' : OauthDb)
      → db' ≡ (if b then db else cleanup_expired now db)
      → Evolves P Q R db db'
  cleaned true now db db' h = rw h (Evolves-same refl refl refl)
  cleaned false now db db' h = rw h (Evolves-cleanup now db)

  decide-Evolves :
      (now : ℕ) (request code subject : Text) (approved : Bool) (db : OauthDb)
      → Evolves
          (MintsCode o (decides now request code subject approved))
          Nothing
          Nothing
          db
          (complete_authorization o now request code subject approved db).1
  unfolding complete_authorization decide cleanup_expired
  decide-Evolves now request code subject approved db =
      let clean = cleanup_expired now db in
      elim (Bool-cases (unusable request || is_empty subject)) [
        | inl e ↦ Evolves-same (ground arith) (ground arith) (ground arith)
        | inr e ↦ elim (Option-cases (find (pending_at (o.digest request)) clean.pending)) [
          | inl n ↦ cleaned false now db _ (ground arith)
          | inr (row, n) ↦ elim (Bool-cases approved) [
            | inr refused ↦ record {
              codes = drops (λ r. not (leb r.expires_at now)) (ground arith);
              access = drops (λ r. not (leb r.expires_at now)) (ground arith);
              refresh = drops (λ r. not (leb r.expires_at now)) (ground arith);
            }
            | inl a ↦ elim (Bool-cases (exists (code_at (o.digest code)) clean.codes)) [
              | inl t ↦ Evolves-same (ground arith) (ground arith) (ground arith)
              | inr t ↦ record {
                codes =
                    replaces (λ r. not (leb r.expires_at now)) (granted o now code subject row) refl
                      (find-exists (code_at (o.digest code)) clean.codes t) (ground arith);
                access = drops (λ r. not (leb r.expires_at now)) (ground arith);
                refresh = drops (λ r. not (leb r.expires_at now)) (ground arith);
              }
            ]
          ]
        ]
      ]

  load_code-Evolves :
      (now : ℕ) (client : Client) (code : Text) (db : OauthDb)
      → Evolves Nothing Nothing Nothing db (load_authorization_code o now client code db).1
  unfolding load_authorization_code
  load_code-Evolves now client code db =
      cleaned (is_empty client.client_id || is_empty code) now db _ (ground arith)

  load_access-Evolves :
      (now : ℕ) (token : Text) (db : OauthDb)
      → Evolves Nothing Nothing Nothing db (load_access_token o now token db).1
  unfolding load_access_token
  load_access-Evolves now token db = cleaned (is_empty token) now db _ (ground arith)

  load_refresh-Evolves :
      (now : ℕ) (client : Client) (token : Text) (db : OauthDb)
      → Evolves Nothing Nothing Nothing db (load_refresh_token o now client token db).1
  unfolding load_refresh_token
  load_refresh-Evolves now client token db =
      cleaned (is_empty client.client_id || is_empty token) now db _ (ground arith)

  ask-Evolves :
      (now : ℕ) (request : Text) (db : OauthDb)
      → Evolves Nothing Nothing Nothing db (pending_authorization o now request db).1
  unfolding pending_authorization
  ask-Evolves now request db = cleaned (unusable request) now db _ (ground arith)

  revoke-Evolves :
      (b : Bool) (t : Token) (db : OauthDb)
      → Evolves Nothing Nothing Nothing db (revoke_token o b t db).1
  unfolding revoke_token drop_family
  revoke-Evolves b t db =
      let f = family_of o b t db in
      elim (Bool-cases (is_empty f)) [
        | inl e ↦ Evolves-same (ground arith) (ground arith) (ground arith)
        | inr e ↦ record {
          codes = stays (ground arith);
          access = drops (λ r. not (in_family f r)) (ground arith);
          refresh = drops (λ r. not (in_family f r)) (ground arith);
        }
      ]

  spend_code-Evolves :
      (now later : ℕ) (client : Client) (code : Code) (fresh : Fresh) (db : OauthDb)
      → Evolves Nothing
          (MintsAccess o (spends_code now later client code fresh))
          (MintsRefresh o (spends_code now later client code fresh))
          db
          (exchange_authorization_code o now later client code fresh db).1
  unfolding exchange_authorization_code spend_code insert_token_pair
  spend_code-Evolves now later client code fresh db =
      let spent = live_code client.client_id (o.digest code.code) now in
      let c = code_claims o client code fresh in
      elim (Bool-cases (is_empty client.client_id || is_empty code.row.subject)) [
        | inl e ↦ Evolves-same (ground arith) (ground arith) (ground arith)
        | inr e ↦ elim (Bool-cases (count spent db.codes == 1)) [
          | inr n ↦ Evolves-same (ground arith) (ground arith) (ground arith)
          | inl n ↦ elim (Bool-cases (exists (token_at (o.digest fresh.access_token)) db.access)) [
            | inl t ↦ Evolves-same (ground arith) (ground arith) (ground arith)
            | inr t ↦
                elim (Bool-cases (exists (token_at (o.digest fresh.refresh_token)) db.refresh)) [
                  | inl r ↦ Evolves-same (ground arith) (ground arith) (ground arith)
                  | inr r ↦ record {
                    codes = drops (λ x. not (spent x)) (ground arith);
                    access =
                        appends (access_row o later fresh c) refl
                          (find-exists (token_at (o.digest fresh.access_token)) db.access t)
                          (ground arith);
                    refresh =
                        appends (refresh_row o later fresh c) refl
                          (find-exists (token_at (o.digest fresh.refresh_token)) db.refresh r)
                          (ground arith);
                  }
                ]
          ]
        ]
      ]

  spend_refresh-Evolves :
      (now later : ℕ) (client : Client) (token : Token) (scopes : List Text) (fresh : Fresh)
      (db : OauthDb)
      → Evolves Nothing
          (MintsAccess o (spends_refresh now later client token scopes fresh))
          (MintsRefresh o (spends_refresh now later client token scopes fresh))
          db
          (exchange_refresh_token o now later client token scopes fresh db).1
  unfolding exchange_refresh_token spend_refresh insert_token_pair
  spend_refresh-Evolves now later client token scopes fresh db =
      let spent = live_token client.client_id (o.digest token.token) now in
      let c = refresh_claims o client token scopes fresh in
      let rest = delete (in_family token.row.family_id) db.access in
      elim (Bool-cases (is_empty client.client_id || is_empty token.row.subject)) [
        | inl e ↦ Evolves-same (ground arith) (ground arith) (ground arith)
        | inr e ↦ elim (Bool-cases (subset (or_list scopes token.row.scopes) token.row.scopes)) [
          | inr s ↦ Evolves-same (ground arith) (ground arith) (ground arith)
          | inl s ↦ elim (Bool-cases (count spent db.refresh == 1)) [
            | inr n ↦ Evolves-same (ground arith) (ground arith) (ground arith)
            | inl n ↦ elim (Bool-cases (exists (token_at (o.digest fresh.access_token)) rest)) [
              | inl t ↦ Evolves-same (ground arith) (ground arith) (ground arith)
              | inr t ↦
                  elim (Bool-cases
                    (exists (token_at (o.digest fresh.refresh_token)) (delete spent db.refresh))) [
                      | inl r ↦ Evolves-same (ground arith) (ground arith) (ground arith)
                      | inr r ↦ record {
                        codes = stays (ground arith);
                        access =
                            replaces (λ x. not (in_family token.row.family_id x))
                              (access_row o later fresh c) refl
                              (find-exists (token_at (o.digest fresh.access_token)) rest t)
                              (ground arith);
                        refresh =
                            replaces (λ x. not (spent x)) (refresh_row o later fresh c) refl
                              (find-exists (token_at (o.digest fresh.refresh_token))
                                (delete spent db.refresh) r)
                              (ground arith);
                      }
                    ]
            ]
          ]
        ]
      ]

  pub after-Evolves :
      (db : OauthDb) (c : OauthCall)
      → Evolves (MintsCode o c) (MintsAccess o c) (MintsRefresh o c) db (after o db c)
  unfolding after
  after-Evolves db (registers now client) = register-Evolves now client db
  after-Evolves db (authorizes now request client params) =
      authorize-Evolves now request client params db
  after-Evolves db (asks now request) = ask-Evolves now request db
  after-Evolves db (decides now request code subject approved) =
      decide-Evolves now request code subject approved db
  after-Evolves db (loads_code now client code) = load_code-Evolves now client code db
  after-Evolves db (spends_code now later client code fresh) =
      spend_code-Evolves now later client code fresh db
  after-Evolves db (loads_access now token) = load_access-Evolves now token db
  after-Evolves db (loads_refresh now client token) = load_refresh-Evolves now client token db
  after-Evolves db (spends_refresh now later client token scopes fresh) =
      spend_refresh-Evolves now later client token scopes fresh db
  after-Evolves db (revokes b t) = revoke-Evolves b t db
