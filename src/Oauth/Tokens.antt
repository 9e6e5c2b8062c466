-- ===== src/Oauth/Tokens.antt =====
-- The codes and tokens of the OAuth provider (app/oauth_server.py): `load_authorization_code`,
-- `exchange_authorization_code`, `load_access_token`, `load_refresh_token`,
-- `exchange_refresh_token` and `revoke_token`. The two readings of the clock in an exchange are
-- `now` and `later`. A token that is loaded is the presented text with its row; the issuer and
-- subject in the claims of an access token repeat its other fields.
use ollum_sales.Prelude.{
  ℕ, ◌+◌, Bool, true, not, ◌&&◌, ◌||◌, List, [], ◌∷◌, Option, none, some, ltb, ◌==◌, if◌then◌else◌,
}
use ollum_sales.Text.{Text, same, is_empty, one_of}
use ollum_sales.Exec.{ok, err, pure, gets, modify, raise_if, transaction, ◌>>◌}
use ollum_sales.Table.{find, count, insert, exists}
use ollum_sales.Oauth.{
  OauthDb, Client, CodeRow, TokenRow, Provider, Setup, delete, cleanup_expired, code_at, token_at,
  integrity_error, code_incomplete, code_used, refresh_incomplete, scope_expanded, refresh_used,
}

-- `AuthorizationCode`, `OllumAccessToken` and `OllumRefreshToken`: the text and its row
pub record Code : Type 0 where
  pub code : Text
  pub row : CodeRow

pub record Token : Type 0 where
  pub token : Text
  pub row : TokenRow

-- `OAuthToken`
pub record TokenPair : Type 0 where
  pub access_token : Text
  pub refresh_token : Text
  pub expires_in : ℕ
  pub scopes : List Text

-- the random texts of an exchange
pub record Fresh : Type 0 where
  pub access_token : Text
  pub refresh_token : Text
  pub family : Text

abbrev pub as_code : Text → Option CodeRow → Option Code
as_code t none = none
as_code t (some r) = some (record { code = t; row = r })

abbrev pub as_token : Text → Option TokenRow → Option Token
as_token t none = none
as_token t (some r) = some (record { token = t; row = r })

-- … WHERE digest = ? AND client_id = ?
abbrev pub code_of : Text → Text → CodeRow → Bool
code_of client d r = code_at d r && same r.client_id client

abbrev pub token_of : Text → Text → TokenRow → Bool
token_of client d r = token_at d r && same r.client_id client

-- … AND expires_at > ?
abbrev pub live_code : Text → Text → ℕ → CodeRow → Bool
live_code client d now r = code_of client d r && ltb now r.expires_at

abbrev pub live_token : Text → Text → ℕ → TokenRow → Bool
live_token client d now r = token_of client d r && ltb now r.expires_at

abbrev pub in_family : Text → TokenRow → Bool
in_family f r = same r.family_id f

-- `s or default`
abbrev pub or_default : Option Text → Text → Text
or_default none t = t
or_default (some []) t = t
or_default (some (c ∷ s)) t = c ∷ s

abbrev pub or_fresh : Text → Text → Text
or_fresh [] t = t
or_fresh (c ∷ s) t = c ∷ s

-- `xs or ys`, of lists
abbrev pub or_list : List Text → List Text → List Text
or_list [] ys = ys
or_list (x ∷ xs) ys = x ∷ xs

-- `set(xs).issubset(set(ys))`
unfoldable pub subset : List Text → List Text → Bool
subset [] ys = true
subset (x ∷ xs) ys = one_of x ys && subset xs ys

-- what a pair of tokens is for
pub record Claims : Type 0 where
  pub client_id : Text
  pub scopes : List Text
  pub resource : Text
  pub subject : Text
  pub family_id : Text

abbrev pub token_row : Text → ℕ → Claims → TokenRow
token_row d expires c = record {
  token_digest = d;
  client_id = c.client_id;
  scopes = c.scopes;
  expires_at = expires;
  resource = some c.resource;
  subject = c.subject;
  family_id = c.family_id;
}

module _ (o : Setup) where
  unfoldable pub load_authorization_code : ℕ → Client → Text → Provider (Option Code)
  unfolding cleanup_expired
  load_authorization_code now client code =
      if is_empty client.client_id || is_empty code
      then pure none
      else transaction (do
        modify (cleanup_expired now)
        gets (λ db. as_code code (find (code_of client.client_id (o.digest code)) db.codes)))

  abbrev pub access_row : ℕ → Fresh → Claims → TokenRow
  access_row now fresh c = token_row (o.digest fresh.access_token) (now + o.access_token_ttl) c

  abbrev pub refresh_row : ℕ → Fresh → Claims → TokenRow
  refresh_row now fresh c = token_row (o.digest fresh.refresh_token) (now + o.refresh_token_ttl) c

  -- `_insert_token_pair`, with the family filled in; the primary keys refuse digests that are there
  unfoldable pub insert_token_pair : ℕ → Fresh → Claims → Provider TokenPair
  insert_token_pair now fresh c db =
      if exists (token_at (o.digest fresh.access_token)) db.access
        || exists (token_at (o.digest fresh.refresh_token)) db.refresh
      then (err integrity_error, db)
      else (
        ok (record {
          access_token = fresh.access_token;
          refresh_token = fresh.refresh_token;
          expires_in = o.access_token_ttl;
          scopes = c.scopes;
        }),
        record db {
          access = insert (access_row now fresh c) db.access;
          refresh = insert (refresh_row now fresh c) db.refresh;
        },
      )

  abbrev pub code_claims : Client → Code → Fresh → Claims
  code_claims client code fresh = record {
    client_id = client.client_id;
    scopes = code.row.scopes;
    resource = or_default code.row.resource o.resource_url;
    subject = code.row.subject;
    family_id = fresh.family;
  }

  -- the transaction of `exchange_authorization_code`
  unfoldable pub spend_code : ℕ → ℕ → Client → Code → Fresh → Provider TokenPair
  unfolding insert_token_pair
  spend_code now later client code fresh db =
      let spent = live_code client.client_id (o.digest code.code) now in
      if count spent db.codes == 1
      then insert_token_pair later fresh (code_claims client code fresh)
          (record db { codes = delete spent db.codes })
      else (err code_used, db)

  unfoldable pub exchange_authorization_code : ℕ → ℕ → Client → Code → Fresh → Provider TokenPair
  unfolding spend_code
  exchange_authorization_code now later client code fresh = do
    raise_if (is_empty client.client_id || is_empty code.row.subject) code_incomplete
    transaction (spend_code now later client code fresh)

  unfoldable pub load_access_token : ℕ → Text → Provider (Option Token)
  unfolding cleanup_expired
  load_access_token now token =
      if is_empty token
      then pure none
      else transaction (do
        modify (cleanup_expired now)
        gets (λ db. as_token token (find (token_at (o.digest token)) db.access)))

  unfoldable pub load_refresh_token : ℕ → Client → Text → Provider (Option Token)
  unfolding cleanup_expired
  load_refresh_token now client token =
      if is_empty client.client_id || is_empty token
      then pure none
      else transaction (do
        modify (cleanup_expired now)
        gets (λ db. as_token token (find (token_of client.client_id (o.digest token)) db.refresh)))

  abbrev pub refresh_claims : Client → Token → List Text → Fresh → Claims
  refresh_claims client token scopes fresh = record {
    client_id = client.client_id;
    scopes = or_list scopes token.row.scopes;
    resource = or_default token.row.resource o.resource_url;
    subject = token.row.subject;
    family_id = or_fresh token.row.family_id fresh.family;
  }

  -- the transaction of `exchange_refresh_token`
  unfoldable pub spend_refresh : ℕ → ℕ → Client → Token → List Text → Fresh → Provider TokenPair
  unfolding insert_token_pair
  spend_refresh now later client token scopes fresh db =
      let spent = live_token client.client_id (o.digest token.token) now in
      if count spent db.refresh == 1
      then insert_token_pair later fresh (refresh_claims client token scopes fresh) (record db {
        refresh = delete spent db.refresh;
        access = delete (in_family token.row.family_id) db.access;
      })
      else (err refresh_used, db)

  unfoldable pub exchange_refresh_token :
      ℕ → ℕ → Client → Token → List Text → Fresh → Provider TokenPair
  unfolding spend_refresh
  exchange_refresh_token now later client token scopes fresh = do
    raise_if (is_empty client.client_id || is_empty token.row.subject) refresh_incomplete
    raise_if (not (subset (or_list scopes token.row.scopes) token.row.scopes)) scope_expanded
    transaction (spend_refresh now later client token scopes fresh)

  abbrev pub family_in : Option TokenRow → Text
  family_in none = []
  family_in (some r) = r.family_id

  -- The family of the token object, or of its row; `refreshing` tells a refresh token.
  abbrev pub family_of : Bool → Token → OauthDb → Text
  family_of refreshing t db = or_fresh t.row.family_id (
      family_in (find (token_at (o.digest t.token)) (if refreshing then db.refresh else db.access)))

  unfoldable pub drop_family : Text → OauthDb → OauthDb
  drop_family f db = if is_empty f then db else record db {
    access = delete (in_family f) db.access;
    refresh = delete (in_family f) db.refresh;
  }

  unfoldable pub revoke_token : Bool → Token → Provider (Unit {0})
  unfolding drop_family
  revoke_token refreshing t =
      transaction (modify (λ db. drop_family (family_of refreshing t db) db))
