-- ===== src/Tests/Provider.antt =====
-- Witnesses of the properties of the OAuth provider.
use ollum_sales.Prelude.{◌≡◌, refl, true, false, List, [], ◌∷◌, ◌++◌, none, some, All, arith}
use ollum_sales.Text.{Text, text, same, one_of, lower, lower_char}
use ollum_sales.Text.Laws.{same_iff}
use ollum_sales.Exec.{ok, Refused}
use ollum_sales.Table.{find, select, count, exists}
use ollum_sales.Oauth.{
  OauthDb, Client, Params, CodeRow, TokenRow, Setup, cleanup_expired, token_at, register_client,
  approved_uri, approved_uris, get_client, authorize, decide, complete_authorization, code_granted,
}
use ollum_sales.Oauth.Tokens.{
  Code, Token, TokenPair, Fresh, in_family, subset, insert_token_pair, spend_code,
  exchange_authorization_code, load_authorization_code, load_access_token, spend_refresh,
  exchange_refresh_token, revoke_token,
}
use ollum_sales.Oauth.Calls.{OauthCall, run, loads_code, loads_access, decides, revokes}
use ollum_sales.Oauth.SingleUse.{Keyed, code_single_use, refresh_single_use}
use ollum_sales.Oauth.Revocation.{revoked_access, revoked_refresh}
use ollum_sales.Oauth.Grants.{grant_roundtrip}
use ollum_sales.Oauth.Rotation.{refresh_rotates}
use ollum_sales.Oauth.Clients.{IsCallback, register_roundtrip}

abbrev client : Client
client = record { client_id = text "c"; redirect_uris = text "u" ∷ []; metadata = text "m" }

abbrev pub setup : Setup
setup = record {
  digest = λ s. text "#" ++ s;
  seal = λ c. c.client_id;
  unseal = λ s. some (record client { client_id = s });
  urlsplit = λ u. record {
    scheme = text "https";
    hostname = some (text "h");
    username = none;
    password = none;
    fragment = [];
  };
  resource_url = text "r";
  allowed_redirect_hosts = text "h" ∷ [];
  access_token_ttl = 60;
  refresh_token_ttl = 600;
  authorization_code_ttl = 30;
}

abbrev code_row : CodeRow
code_row = record {
  code_digest = text "#k";
  client_id = text "c";
  scopes = text "read" ∷ [];
  expires_at = 100;
  code_challenge = text "p";
  redirect_uri = text "u";
  redirect_uri_explicit = true;
  resource = none;
  subject = text "s";
}

abbrev access_row : TokenRow
access_row = record {
  token_digest = text "#a";
  client_id = text "c";
  scopes = text "read" ∷ [];
  expires_at = 100;
  resource = none;
  subject = text "s";
  family_id = text "f";
}

abbrev refresh_row : TokenRow
refresh_row = record access_row { token_digest = text "#t"; expires_at = 200 }

abbrev tables : OauthDb
tables = record {
  clients = [];
  pending = [];
  codes = code_row ∷ [];
  access = access_row ∷ [];
  refresh = refresh_row ∷ [];
}

abbrev code : Code
code = record { code = text "k"; row = code_row }

abbrev access : Token
access = record { token = text "a"; row = access_row }

abbrev refresh : Token
refresh = record { token = text "t"; row = refresh_row }

abbrev fresh : Fresh
fresh = record { access_token = text "b"; refresh_token = text "v"; family = text "g" }

abbrev pair : TokenPair
pair = record {
  access_token = text "b";
  refresh_token = text "v";
  expires_in = 60;
  scopes = text "read" ∷ [];
}

-- a code is asked for again, and another is made
abbrev calls : List OauthCall
calls = loads_code 6 client (text "k") ∷ decides 7 (text "q") (text "j") (text "s") true ∷ []

differ : (s t : Text) → same s t ≡ false → s ≡ t → ⊥
unfolding same
differ s t h e = ground (arith, same_iff s t)

tables-Keyed : Keyed tables
unfolding find
tables-Keyed = record { codes = (refl, tt); access = (refl, tt); refresh = (refl, tt) }

abbrev spent : OauthDb
spent = (exchange_authorization_code setup 5 5 client code fresh tables).1

spends : exchange_authorization_code setup 5 5 client code fresh tables ≡ (ok pair, spent)
unfolding exchange_authorization_code spend_code insert_token_pair count select exists same find
spends = refl

other_code : (text "#k" ≡ text "#j") → ⊥
unfolding same
other_code = differ (text "#k") (text "#j") refl

code_single_use_example :
    Refused
      (run setup spent calls)
      (exchange_authorization_code setup 9 9 client code fresh (run setup spent calls))
code_single_use_example =
    code_single_use setup 5 5 9 9 client client code code fresh fresh tables spent pair calls
      (tables-Keyed.codes) spends ((λ x. x), (other_code, tt)) refl

abbrev rotated : OauthDb
rotated = (exchange_refresh_token setup 5 5 client refresh [] fresh tables).1

rotates : exchange_refresh_token setup 5 5 client refresh [] fresh tables ≡ (ok pair, rotated)
unfolding exchange_refresh_token spend_refresh insert_token_pair subset one_of count select exists
    same find
rotates = refl

-- the access token is read, and the new family revoked
abbrev later_calls : List OauthCall
later_calls = loads_access 6 (text "b") ∷ revokes true refresh ∷ []

other_refresh : same (text "#v") (text "#t") ≡ false
unfolding same
other_refresh = refl

refresh_single_use_example :
    Refused
      (run setup rotated later_calls)
      (exchange_refresh_token setup 9 9 client refresh [] fresh (run setup rotated later_calls))
refresh_single_use_example =
    refresh_single_use setup 5 5 9 9 client client refresh refresh [] [] fresh fresh tables rotated
      pair later_calls tables-Keyed.refresh other_refresh rotates ((λ x. x), ((λ x. x), tt)) refl

refresh_rotates_example :
    (r : TokenRow) × (find (token_at (setup.digest pair.access_token)) rotated.access ≡ some r)
    × (count (in_family (text "f")) rotated.access ≡ 1)
    × (r.family_id ≡ text "f")
    × (r.client_id ≡ text "c")
    × (r.scopes ≡ pair.scopes)
    × (r.subject ≡ text "s")
    × (subset pair.scopes refresh.row.scopes ≡ true)
refresh_rotates_example =
    refresh_rotates setup 5 5 client refresh [] fresh tables rotated pair refl rotates

found_access : find (token_at (text "#a")) tables.access ≡ some access_row
unfolding find same
found_access = refl

found_refresh : find (token_at (text "#t")) tables.refresh ≡ some refresh_row
unfolding find same
found_refresh = refl

revoked_access_example :
    (load_access_token setup 9
      (text "a")
      (run setup (revoke_token setup true refresh tables).1 calls)).0
    ≡ ok none
revoked_access_example =
    revoked_access setup true refresh tables calls 9 (text "a") access_row tables-Keyed refl
      found_access refl ((λ x. x), ((λ x. x), tt))

revoked_refresh_example : Refused (run setup (revoke_token setup false access tables).1 calls) (
    exchange_refresh_token setup 9 9 client refresh [] fresh
      (run setup (revoke_token setup false access tables).1 calls))
revoked_refresh_example =
    revoked_refresh setup false access tables calls 9 9 client refresh [] fresh refresh_row
      tables-Keyed refl found_refresh refl ((λ x. x), ((λ x. x), tt))

abbrev params : Params
params = record {
  state = none;
  scopes = text "read" ∷ [];
  code_challenge = text "p";
  redirect_uri = text "u";
  redirect_uri_explicit = true;
  resource = none;
}

abbrev pub asked : OauthDb
asked = (authorize setup 10 (text "q") client params tables).1

abbrev approved : OauthDb
approved = (complete_authorization setup 11 (text "q") (text "j") (text "s") true asked).1

abbrev loaded : OauthDb
loaded = (load_authorization_code setup 12 client (text "j") approved).1

abbrev new_code : Code
new_code = record {
  code = text "j";
  row = record code_row { code_digest = text "#j"; expires_at = 41 };
}

abbrev exchanged : OauthDb
exchanged = (exchange_authorization_code setup 13 13 client new_code fresh loaded).1

asks : authorize setup 10 (text "q") client params tables ≡ (ok (text "q"), asked)
unfolding authorize cleanup_expired select exists find same
asks = refl

approves :
    complete_authorization setup 11 (text "q") (text "j") (text "s") true asked
    ≡ (ok (some (code_granted (text "u") (text "j") none)), approved)
unfolding complete_authorization decide authorize cleanup_expired select exists find same
approves = refl

loads_code_j :
    load_authorization_code setup 12 client (text "j") approved ≡ (ok (some new_code), loaded)
unfolding load_authorization_code complete_authorization decide authorize cleanup_expired select
    exists find same
loads_code_j = refl

exchanges :
    exchange_authorization_code setup 13 13 client new_code fresh loaded ≡ (ok pair, exchanged)
unfolding exchange_authorization_code spend_code insert_token_pair load_authorization_code
    complete_authorization decide authorize cleanup_expired select exists find same count
exchanges = refl

grant_roundtrip_example :
    (r : TokenRow) × ((load_access_token setup 20 (text "b") exchanged).0
      ≡ ok (some (record { token = text "b"; row = r })))
    × (client.client_id ≡ client.client_id)
    × (r.client_id ≡ text "c")
    × (r.scopes ≡ params.scopes)
    × (r.resource ≡ some (text "r"))
    × (r.subject ≡ text "s")
    × (code_granted (text "u") (text "j") none
        ≡ code_granted params.redirect_uri (text "j") params.state)
grant_roundtrip_example =
    grant_roundtrip setup 10 11 12 13 13 20 (text "q") (text "q") (text "j") (text "s") client
      client params fresh tables asked approved loaded exchanged
      (code_granted (text "u") (text "j") none) new_code pair asks approves loads_code_j exchanges
      refl (omega arith)

abbrev registered : OauthDb
registered = (register_client setup 3 client tables).1

registers : register_client setup 3 client tables ≡ (ok tt, registered)
unfolding register_client approved_uris approved_uri one_of same lower lower_char
registers = refl

other_client : same (text "c") (text "z") ≡ false
unfolding same
other_client = refl

register_roundtrip_example :
    (get_client setup (text "c") registered ≡ (ok (some client), registered))
    × ((get_client setup (text "z") registered).0 ≡ (get_client setup (text "z") tables).0)
    × All (IsCallback setup) client.redirect_uris
register_roundtrip_example =
    register_roundtrip setup 3 client (text "z") tables registered refl refl other_client registers
