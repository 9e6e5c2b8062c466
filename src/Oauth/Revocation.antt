-- ===== src/Oauth/Revocation.antt =====
-- Revocation of a family of tokens (`revoke_token` of app/oauth_server.py).
use ollum_sales.Prelude.{ℕ, ◌≡◌, Bool, false, not, List, none, some, arith, leb, All}
use ollum_sales.Text.{Text, is_empty}
use ollum_sales.Text.Laws.{same_iff}
use ollum_sales.Exec.{ok, Refused}
use ollum_sales.Table.{find}
use ollum_sales.Table.Delete.{find-select-none, find-select_gone}
use ollum_sales.Oauth.{OauthDb, Client, TokenRow, Setup, delete, cleanup_expired, token_at}
use ollum_sales.Oauth.Tokens.{
  Token, Fresh, in_family, drop_family, revoke_token, exchange_refresh_token, load_access_token,
}
use ollum_sales.Oauth.Calls.{OauthCall, run, MintsAccess, MintsRefresh, token_key}
use ollum_sales.Oauth.SingleUse.{Keyed, access-gone, refresh-gone, absent-refresh}

module _ (o : Setup) where
  revoked :
      (b : Bool) (t : Token) (db : OauthDb)
      → is_empty t.row.family_id ≡ false
      → (revoke_token o b t db).1 ≡ record db {
        access = delete (in_family t.row.family_id) db.access;
        refresh = delete (in_family t.row.family_id) db.refresh;
      }
  unfolding revoke_token drop_family
  revoked b t db h = ground arith

  absent-access :
      (now : ℕ) (token : Text) (db : OauthDb)
      → find (token_at (o.digest token)) db.access ≡ none
      → (load_access_token o now token db).0 ≡ ok none
  unfolding load_access_token cleanup_expired
  absent-access now token db h = ground (
    arith,
    find-select-none (token_at (o.digest token)) (λ (r : TokenRow). not (leb r.expires_at now))
        db.access,
  )

  -- Where digests are unique and a token of a family is revoked, an access token of the family is never
  -- loaded after any further calls none of which makes an access token with its digest.
  pub revoked_access :
      (b : Bool) (t : Token) (db : OauthDb) (cs : List OauthCall) (now : ℕ) (token : Text)
      (r : TokenRow)
      → Keyed db
      → is_empty t.row.family_id ≡ false
      → find (token_at (o.digest token)) db.access ≡ some r
      → r.family_id ≡ t.row.family_id
      → All (λ c. MintsAccess o c (o.digest token) → ⊥) cs
      → (load_access_token o now token (run o (revoke_token o b t db).1 cs)).0 ≡ ok none
  revoked_access b t db cs now token r u n found family m =
      let gone =
        find-select_gone token_key (o.digest token) (λ x. not (in_family t.row.family_id x))
          db.access r u.access found (ground (arith, same_iff r.family_id t.row.family_id)) in
      absent-access now token (run o (revoke_token o b t db).1 cs)
        (access-gone o (o.digest token) (revoke_token o b t db).1 cs m (rw (revoked b t db n) gone))

  -- Where digests are unique and a token of a family is revoked, a refresh token of the family is never
  -- exchanged after any further calls none of which makes a refresh token with its digest: every
  -- exchange of it, by any client, raises and changes nothing.
  pub revoked_refresh :
      (b : Bool) (t : Token) (db : OauthDb) (cs : List OauthCall) (now later : ℕ) (client : Client)
      (token : Token) (scopes : List Text) (fresh : Fresh) (r : TokenRow)
      → Keyed db
      → is_empty t.row.family_id ≡ false
      → find (token_at (o.digest token.token)) db.refresh ≡ some r
      → r.family_id ≡ t.row.family_id
      → All (λ c. MintsRefresh o c (o.digest token.token) → ⊥) cs
      → Refused (run o (revoke_token o b t db).1 cs) (
          exchange_refresh_token o now later client token scopes fresh
            (run o (revoke_token o b t db).1 cs))
  revoked_refresh b t db cs now later client token scopes fresh r u n found family m =
      let gone =
        find-select_gone token_key (o.digest token.token) (λ x. not (in_family t.row.family_id x))
          db.refresh r u.refresh found (ground (arith, same_iff r.family_id t.row.family_id)) in
      absent-refresh o now later client token scopes fresh (run o (revoke_token o b t db).1 cs) (
        refresh-gone o (o.digest token.token) (revoke_token o b t db).1 cs m
          (rw (revoked b t db n) gone))
