-- ===== src/Oauth/Grants.antt =====
-- What a grant becomes on its way from the authorization to the tokens (app/oauth_server.py).
use mathlib.Core.Path.{subst}
use ollum_sales.Prelude.{
  ℕ, ◌+◌, ◌<◌, ◌≡◌, refl, sym, true, false, not, List, none, some, arith, Bool-cases, Option-cases,
  inl, inr, leb,
}
use ollum_sales.Text.{Text, is_empty}
use ollum_sales.Text.Laws.{same_iff, same_refl}
use ollum_sales.Exec.{ok}
use ollum_sales.Table.{find, select, insert, exists}
use ollum_sales.Table.Laws.{find-holds, find-exists}
use ollum_sales.Table.Delete.{find-select_kept, find-insert_self, only-inserted}
use ollum_sales.Oauth.{
  OauthDb, Client, Params, PendingRow, CodeRow, TokenRow, Setup, Decision, code_granted, delete,
  cleanup_expired, code_at, token_at, pending_at, granted, requested, decide, authorize,
  complete_authorization,
}
use ollum_sales.Oauth.Tokens.{
  Code, TokenPair, Fresh, Claims, live_code, code_of, or_default, insert_token_pair, access_row,
  refresh_row, code_claims, spend_code, load_authorization_code, exchange_authorization_code,
  load_access_token,
}

module _ (o : Setup) where
  -- A token that is presented before it expires is loaded as its row.
  load-access :
      (now : ℕ) (token : Text) (db : OauthDb) (r : TokenRow)
      → is_empty token ≡ false
      → find (token_at (o.digest token)) db.access ≡ some r
      → now < r.expires_at
      → (load_access_token o now token db).0 ≡ ok (some (record { token = token; row = r }))
  unfolding load_access_token cleanup_expired
  load-access now token db r n h lt = ground (
    arith,
    find-select_kept (token_at (o.digest token)) (λ (x : TokenRow). not (leb x.expires_at now))
        db.access r h,
  )

  pub inserted :
      (later : ℕ) (fresh : Fresh) (c : Claims) (db db' : OauthDb) (pair : TokenPair)
      → insert_token_pair o later fresh c db ≡ (ok pair, db')
      → (db'.access ≡ insert (access_row o later fresh c) db.access)
        × (db'.refresh ≡ insert (refresh_row o later fresh c) db.refresh)
        × (find (token_at (o.digest fresh.access_token)) db.access ≡ none)
        × (pair.access_token ≡ fresh.access_token)
        × (pair.scopes ≡ c.scopes)
  unfolding insert_token_pair
  inserted later fresh c db db' pair h =
      elim (Bool-cases (exists (token_at (o.digest fresh.access_token)) db.access)) [
        | inl t ↦ absurd (ground arith)
        | inr t ↦ elim (Bool-cases (exists (token_at (o.digest fresh.refresh_token)) db.refresh)) [
          | inl r ↦ absurd (ground arith)
          | inr r ↦ (
            ground arith,
            ground arith,
            find-exists (token_at (o.digest fresh.access_token)) db.access t,
            ground arith,
            ground arith,
          )
        ]
      ]

  -- The row of the access token of a pair is found under the digest of its text.
  pub pair-found :
      (later : ℕ) (fresh : Fresh) (c : Claims) (db db' : OauthDb) (pair : TokenPair)
      → insert_token_pair o later fresh c db ≡ (ok pair, db')
      → find (token_at (o.digest pair.access_token)) db'.access ≡ some (access_row o later fresh c)
  pair-found later fresh c db db' pair h =
      let (rows, _, free, name, _) = inserted later fresh c db db' pair h in
      let d = o.digest fresh.access_token in
      rw (name, rows)
        (find-insert_self (token_at d) (access_row o later fresh c) db.access free (same_refl d))

  exchange-found :
      (now later : ℕ) (client : Client) (code : Code) (fresh : Fresh) (db db' : OauthDb)
      (pair : TokenPair)
      → exchange_authorization_code o now later client code fresh db ≡ (ok pair, db')
      → find (token_at (o.digest pair.access_token)) db'.access
        ≡ some (access_row o later fresh (code_claims o client code fresh))
  unfolding exchange_authorization_code spend_code
  exchange-found now later client code fresh db db' pair h =
      let c = code_claims o client code fresh in
      let spent = live_code client.client_id (o.digest code.code) now in
      pair-found later fresh c (record db { codes = delete spent db.codes }) db' pair (ground arith)

  -- What the approval of a request that has just been made has stored and answered.
  approved-row :
      (t0 t1 : ℕ) (request request' code subject : Text) (client : Client) (params : Params)
      (db db1 db2 : OauthDb) (d : Decision)
      → authorize o t0 request client params db ≡ (ok request', db1)
      → complete_authorization o t1 request code subject true db1 ≡ (ok (some d), db2)
      → (codes : List CodeRow) × (find (code_at (o.digest code)) codes ≡ none)
        × (db2.codes
            ≡ insert (granted o t1 code subject (requested o t0 request client params)) codes)
        × (d ≡ code_granted params.redirect_uri code params.state)
  unfolding authorize complete_authorization decide cleanup_expired
  approved-row t0 t1 request request' code subject client params db db1 db2 d h k =
      let clean = cleanup_expired t0 db in
      let row = requested o t0 request client params in
      elim (Bool-cases (exists (pending_at (o.digest request)) clean.pending)) [
        | inl e ↦ absurd (ground arith)
        | inr e ↦
            let store : db1 ≡ record clean { pending = insert row clean.pending } = ground arith in
            let clean1 = cleanup_expired t1 db1 in
            elim (Option-cases (find (pending_at (o.digest request)) clean1.pending)) [
              | inl n ↦ absurd (ground arith)
              | inr (r, n) ↦
                  let asked : r ≡ row =
                    only-inserted (λ (x : PendingRow). not (leb x.expires_at t1))
                      (pending_at (o.digest request)) (pending_at (o.digest request)) row r
                      clean.pending (find-exists (pending_at (o.digest request)) clean.pending e)
                      (λ z q. q)
                      (subst
                        (λ (x : OauthDb).
                          find (pending_at (o.digest request)) (cleanup_expired t1 x).pending
                          ≡ some r)
                        store n) in
                  elim (Bool-cases (exists (code_at (o.digest code)) clean1.codes)) [
                    | inl t ↦ absurd (ground arith)
                    | inr t ↦ (
                      clean1.codes,
                      find-exists (code_at (o.digest code)) clean1.codes t,
                      ground arith,
                      ground arith,
                    )
                  ]
            ]
      ]

  loaded-code :
      (t2 : ℕ) (client : Client) (code : Text) (row : CodeRow) (codes : List CodeRow)
      (db db' : OauthDb) (c : Code)
      → find (code_at (o.digest code)) codes ≡ none
      → db.codes ≡ insert row codes
      → load_authorization_code o t2 client code db ≡ (ok (some c), db')
      → (c.row ≡ row) × (row.client_id ≡ client.client_id)
  unfolding load_authorization_code cleanup_expired
  loaded-code t2 client code row codes db db' c n rows h =
      let p = λ (x : CodeRow). not (leb x.expires_at t2) in
      let q = code_of client.client_id (o.digest code) in
      elim (Option-cases (find q (select p db.codes))) [
        | inl e ↦ absurd (ground arith)
        | inr (r, e) ↦
            let same_row : r ≡ row =
              only-inserted p (code_at (o.digest code)) q row r codes n (λ z k. ground arith)
                (subst (λ (x : List CodeRow). find q (select p x) ≡ some r) rows e) in
            let holds = find-holds q (select p db.codes) r e in
            (
              ground arith,
              subst (λ (x : CodeRow). x.client_id ≡ client.client_id) same_row
                  ((same_iff r.client_id client.client_id).0 (ground arith)),
            )
      ]

  -- Where a request is made, approved by a subject, and its code loaded and exchanged by a client, each
  -- call right after the other and returning, the client is the one that made the request, the redirect
  -- has the request's URI and state, and the access token of the pair, if it is not empty and until it
  -- expires, is loaded with that client, the scopes of the request, its resource or else the
  -- provider's, and the subject.
  pub grant_roundtrip :
      (t0 t1 t2 t3 t4 t5 : ℕ) (request request' code subject : Text) (client client' : Client)
      (params : Params) (fresh : Fresh) (db db1 db2 db3 db4 : OauthDb) (d : Decision) (c : Code)
      (pair : TokenPair)
      → authorize o t0 request client params db ≡ (ok request', db1)
      → complete_authorization o t1 request code subject true db1 ≡ (ok (some d), db2)
      → load_authorization_code o t2 client' code db2 ≡ (ok (some c), db3)
      → exchange_authorization_code o t3 t4 client' c fresh db3 ≡ (ok pair, db4)
      → is_empty pair.access_token ≡ false
      → t5 < t4 + o.access_token_ttl
      → (r : TokenRow) × ((load_access_token o t5 pair.access_token db4).0
          ≡ ok (some (record { token = pair.access_token; row = r })))
        × (client'.client_id ≡ client.client_id)
        × (r.client_id ≡ client.client_id)
        × (r.scopes ≡ params.scopes)
        × (r.resource ≡ some (or_default params.resource o.resource_url))
        × (r.subject ≡ subject)
        × (d ≡ code_granted params.redirect_uri code params.state)
  grant_roundtrip t0 t1 t2 t3 t4 t5 request request' code subject client client' params fresh db db1
        db2 db3 db4 d c pair h1 h2 h3 h4 n lt =
      let (codes, free, rows, answer) =
        approved-row t0 t1 request request' code subject client params db db1 db2 d h1 h2 in
      let row = granted o t1 code subject (requested o t0 request client params) in
      let (same_row, same_client) = loaded-code t2 client' code row codes db2 db3 c free rows h3 in
      let r = access_row o t4 fresh (code_claims o client' c fresh) in
      (
        r,
        load-access t5 pair.access_token db4 r n
            (exchange-found t3 t4 client' c fresh db3 db4 pair h4) lt,
        sym same_client,
        sym same_client,
        rw same_row refl,
        rw same_row refl,
        rw same_row refl,
        answer,
      )
