-- ===== src/Oauth.antt =====
-- The OAuth provider (app/oauth_server.py, `PersistentOAuthProvider`): its tables, clients and
-- authorizations. What comes from libraries is an argument: the keyed digest, Fernet with the JSON of
-- a client, and `urlsplit`. The random texts of `secrets` and the clock, in whole seconds, are
-- arguments too. A JSON column that is read back holds its value. The texts of the answers
-- (redirects) are left to the caller, which gets what they are made from.
pub mod Tokens
pub mod Calls
pub mod Evolution
pub mod SingleUse
pub mod Revocation
pub mod Grants
pub mod Rotation
pub mod Clients
use ollum_sales.Prelude.{
  ℕ, ◌+◌, Bool, true, false, not, ◌&&◌, ◌||◌, List, [], ◌∷◌, Option, none, some, length, ltb, leb,
  if◌then◌else◌,
}
use ollum_sales.Text.{Text, text, same, lower, is_empty, one_of}
use ollum_sales.Exec.{
  Exec, ok, err, pure, gets, modify, modify_unless, raise_if, transaction, ◌>>=◌, ◌>>◌,
}
use ollum_sales.Table.{find, select, insert, exists}

-- What `urlsplit` reads from a URI.
pub record Url : Type 0 where
  pub scheme : Text
  pub hostname : Option Text
  pub username : Option Text
  pub password : Option Text
  pub fragment : Text

-- `OAuthClientInformationFull`; no id is the empty text, no URIs the empty list
pub record Client : Type 0 where
  pub client_id : Text
  pub redirect_uris : List Text
  pub metadata : Text

-- `AuthorizationParams`
pub record Params : Type 0 where
  pub state : Option Text
  pub scopes : List Text
  pub code_challenge : Text
  pub redirect_uri : Text
  pub redirect_uri_explicit : Bool
  pub resource : Option Text

pub record ClientRow : Type 0 where
  pub client_id : Text
  pub encrypted_payload : Text
  pub created_at : ℕ

pub record PendingRow : Type 0 where
  pub request_digest : Text
  pub client_id : Text
  pub params : Params
  pub expires_at : ℕ

pub record CodeRow : Type 0 where
  pub code_digest : Text
  pub client_id : Text
  pub scopes : List Text
  pub expires_at : ℕ
  pub code_challenge : Text
  pub redirect_uri : Text
  pub redirect_uri_explicit : Bool
  pub resource : Option Text
  pub subject : Text

-- the rows of `oauth_access_tokens` and of `oauth_refresh_tokens`
pub record TokenRow : Type 0 where
  pub token_digest : Text
  pub client_id : Text
  pub scopes : List Text
  pub expires_at : ℕ
  pub resource : Option Text
  pub subject : Text
  pub family_id : Text

pub record OauthDb : Type 0 where
  pub clients : List ClientRow
  pub pending : List PendingRow
  pub codes : List CodeRow
  pub access : List TokenRow
  pub refresh : List TokenRow

pub data OauthFailure : Type 0 where
  integrity_error client_id_required invalid_redirect_uri no_client_id : OauthFailure
  code_incomplete code_used refresh_incomplete scope_expanded refresh_used : OauthFailure

abbrev pub Provider : Type 0 → Type 0
Provider = Exec OauthDb OauthFailure

-- The fields of the provider object, and what the libraries compute.
pub record Setup : Type 0 where
  pub digest : Text → Text
  pub seal : Client → Text
  pub unseal : Text → Option Client
  pub urlsplit : Text → Url
  pub resource_url : Text
  pub allowed_redirect_hosts : List Text
  pub access_token_ttl : ℕ
  pub refresh_token_ttl : ℕ
  pub authorization_code_ttl : ℕ

-- `DELETE FROM … WHERE p`
abbrev pub delete : {A : Type 0} → (A → Bool) → List A → List A
delete p = select (λ x. not (p x))

-- `_cleanup_expired`
unfoldable pub cleanup_expired : ℕ → OauthDb → OauthDb
cleanup_expired now db = record db {
  pending = delete (λ (r : PendingRow). leb r.expires_at now) db.pending;
  codes = delete (λ (r : CodeRow). leb r.expires_at now) db.codes;
  access = delete (λ (r : TokenRow). leb r.expires_at now) db.access;
  refresh = delete (λ (r : TokenRow). leb r.expires_at now) db.refresh;
}

abbrev pub client_at : Text → ClientRow → Bool
client_at k r = same r.client_id k

abbrev pub pending_at : Text → PendingRow → Bool
pending_at d r = same r.request_digest d

abbrev pub code_at : Text → CodeRow → Bool
code_at d r = same r.code_digest d

abbrev pub token_at : Text → TokenRow → Bool
token_at d r = same r.token_digest d

abbrev pub loopback_hosts : List Text
loopback_hosts = text "127.0.0.1" ∷ text "::1" ∷ []

abbrev pub host_of : Option Text → Text
host_of none = []
host_of (some h) = lower h

abbrev pub present : Option Text → Bool
present none = false
present (some s) = true

-- `if not value or len(value) > 256`
abbrev pub unusable : Text → Bool
unusable s = is_empty s || ltb 256 (length s)

module _ (o : Setup) where
  -- one round of the loop in `_validate_redirect_uris`
  unfoldable pub approved_uri : Text → Bool
  approved_uri uri =
      let parsed = o.urlsplit uri in
      let host = host_of parsed.hostname in
      (same parsed.scheme (text "https") && one_of host o.allowed_redirect_hosts
        || same parsed.scheme (text "http") && one_of host loopback_hosts)
      && not (present parsed.username || present parsed.password)
      && is_empty parsed.fragment

  unfoldable pub approved_uris : List Text → Bool
  approved_uris [] = true
  approved_uris (uri ∷ uris) = approved_uri uri && approved_uris uris

  abbrev pub sealed : ℕ → Client → ClientRow
  sealed now client = record {
    client_id = client.client_id;
    encrypted_payload = o.seal client;
    created_at = now;
  }

  -- `INSERT OR REPLACE` deletes the row of the client, if there is one.
  unfoldable pub register_client : ℕ → Client → Provider (Unit {0})
  register_client now client = do
    raise_if (is_empty client.client_id) client_id_required
    raise_if (not (approved_uris client.redirect_uris)) invalid_redirect_uri
    transaction (
        modify (λ db. record db {
          clients = insert (sealed now client) (delete (client_at client.client_id) db.clients);
        }))

  abbrev pub opened : Option ClientRow → Option Client
  opened none = none
  opened (some r) = o.unseal r.encrypted_payload

  unfoldable pub get_client : Text → Provider (Option Client)
  get_client client_id =
      if unusable client_id
      then pure none
      else transaction (gets (λ db. opened (find (client_at client_id) db.clients)))

  abbrev pub requested : ℕ → Text → Client → Params → PendingRow
  requested now request_id client params = record {
    request_digest = o.digest request_id;
    client_id = client.client_id;
    params = params;
    expires_at = now + o.authorization_code_ttl;
  }

  -- The answer is the request's id, which goes into the URL of the consent page.
  unfoldable pub authorize : ℕ → Text → Client → Params → Provider Text
  unfolding cleanup_expired
  authorize now request_id client params = do
    raise_if (is_empty client.client_id) no_client_id
    transaction (do
      modify (cleanup_expired now)
      taken ← gets (λ db. exists (pending_at (o.digest request_id)) db.pending)
      modify_unless taken integrity_error (λ db. record db {
        pending = insert (requested now request_id client params) db.pending;
      }))
    pure request_id

  unfoldable pub pending_authorization : ℕ → Text → Provider (Option PendingRow)
  unfolding cleanup_expired
  pending_authorization now request_id =
      if unusable request_id
      then pure none
      else transaction (do
        modify (cleanup_expired now)
        gets (λ db. find (pending_at (o.digest request_id)) db.pending))

  abbrev pub granted : ℕ → Text → Text → PendingRow → CodeRow
  granted now code subject row = record {
    code_digest = o.digest code;
    client_id = row.client_id;
    scopes = row.params.scopes;
    expires_at = now + o.authorization_code_ttl;
    code_challenge = row.params.code_challenge;
    redirect_uri = row.params.redirect_uri;
    redirect_uri_explicit = row.params.redirect_uri_explicit;
    resource = row.params.resource;
    subject = subject;
  }

-- What the redirect of a decision is made from: the URI, the state, and the code or the refusal.
pub data Decision : Type 0 where
  access_denied : Text → Option Text → Decision
  code_granted : Text → Text → Option Text → Decision

module _ (o : Setup) where
  -- the rest of the transaction of `complete_authorization`, with the row of the request
  unfoldable pub decide :
      ℕ → Text → Text → Text → Bool → Option PendingRow → Provider (Option Decision)
  decide now request_id code subject approved none db = (ok none, db)
  decide now request_id code subject approved (some row) db =
      let rest = delete (pending_at (o.digest request_id)) db.pending in
      if not approved
      then (
        ok (some (access_denied row.params.redirect_uri row.params.state)),
        record db { pending = rest },
      )
      else if exists (code_at (o.digest code)) db.codes
      then (err integrity_error, db)
      else (
        ok (some (code_granted row.params.redirect_uri code row.params.state)),
        record db { codes = insert (granted o now code subject row) db.codes; pending = rest },
      )

  -- `code` is the new random text.
  unfoldable pub complete_authorization : ℕ → Text → Text → Text → Bool → Provider (Option Decision)
  unfolding decide cleanup_expired
  complete_authorization now request_id code subject approved =
      if unusable request_id || is_empty subject
      then pure none
      else transaction (do
        modify (cleanup_expired now)
        row ← gets (λ db. find (pending_at (o.digest request_id)) db.pending)
        decide now request_id code subject approved row)
