-- ===== src/Oauth/Rotation.antt =====
-- The exchange of a refresh token (`exchange_refresh_token` of app/oauth_server.py).

use ollum_sales.Prelude.{ℕ, ◌≡◌, refl, sym, true, false, not, List, [], ◌∷◌, some, arith}
use ollum_sales.Text.{Text, is_empty}
use ollum_sales.Text.Laws.{same_iff}
use ollum_sales.Exec.{ok}
use ollum_sales.Table.{find, count, insert}
use ollum_sales.Table.Delete.{count-select_other, count-insert_first}
use ollum_sales.Oauth.{OauthDb, Client, TokenRow, Setup, delete, token_at}
use ollum_sales.Oauth.Tokens.{
  Token, TokenPair, Fresh, in_family, live_token, or_list, or_fresh, subset, access_row,
  refresh_claims, insert_token_pair, spend_refresh, exchange_refresh_token,
}
use ollum_sales.Oauth.Grants.{pair-found, inserted}

or_fresh-given : (f t : Text) → is_empty f ≡ false → or_fresh f t ≡ f
or_fresh-given [] t h = cc
or_fresh-given (c ∷ f) t h = refl

module _ (o : Setup) where
  -- The parts of an exchange that returned.
  exchanged :
      (now later : ℕ) (client : Client) (token : Token) (scopes : List Text) (fresh : Fresh)
      (db db' : OauthDb) (pair : TokenPair)
      → exchange_refresh_token o now later client token scopes fresh db ≡ (ok pair, db')
      → (subset (or_list scopes token.row.scopes) token.row.scopes ≡ true)
        × (insert_token_pair o later fresh (refresh_claims o client token scopes fresh) (record db {
          refresh = delete (live_token client.client_id (o.digest token.token) now) db.refresh;
          access = delete (in_family token.row.family_id) db.access;
        })
            ≡ (ok pair, db'))
  unfolding exchange_refresh_token spend_refresh
  exchanged now later client token scopes fresh db db' pair h = (ground arith, ground arith)

  -- An exchange that returned, of a refresh token of a family, gives scopes that the token has, and leaves one access
  -- token in the family: the new one, which is found under the digest of its text, with the client of
  -- the exchange, the scopes of the answer and the subject of the refresh token.
  pub refresh_rotates :
      (now later : ℕ) (client : Client) (token : Token) (scopes : List Text) (fresh : Fresh)
      (db db' : OauthDb) (pair : TokenPair)
      → is_empty token.row.family_id ≡ false
      → exchange_refresh_token o now later client token scopes fresh db ≡ (ok pair, db')
      → (r : TokenRow) × (find (token_at (o.digest pair.access_token)) db'.access ≡ some r)
        × (count (in_family token.row.family_id) db'.access ≡ 1)
        × (r.family_id ≡ token.row.family_id)
        × (r.client_id ≡ client.client_id)
        × (r.scopes ≡ pair.scopes)
        × (r.subject ≡ token.row.subject)
        × (subset pair.scopes token.row.scopes ≡ true)
  refresh_rotates now later client token scopes fresh db db' pair n h =
      let (granted, pair_eq) = exchanged now later client token scopes fresh db db' pair h in
      let c = refresh_claims o client token scopes fresh in
      let f = token.row.family_id in
      let rest = delete (in_family f) db.access in
      let db1 = record db {
        refresh = delete (live_token client.client_id (o.digest token.token) now) db.refresh;
        access = rest;
      } in
      let (rows, _, _, _, answer) = inserted o later fresh c db1 db' pair pair_eq in
      let family : c.family_id ≡ f = or_fresh-given f fresh.family n in
      let r = access_row o later fresh c in
      let alone : count (in_family f) (insert r rest) ≡ 1 =
        count-insert_first (in_family f) r rest
          (count-select_other (in_family f) (λ x. not (in_family f x)) db.access
            (λ x e. ground arith))
          ((same_iff c.family_id f).1 family) in
      (
        r,
        pair-found o later fresh c db1 db' pair pair_eq,
        rw rows alone,
        family,
        refl,
        sym answer,
        refl,
        rw answer granted,
      )
