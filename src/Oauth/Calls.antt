-- ===== src/Oauth/Calls.antt =====
-- The calls on the OAuth provider (app/oauth_server.py) as data, and what each does to the rows of
-- codes and tokens.
use ollum_sales.Prelude.{ℕ, ◌≡◌, refl, Bool, not, List, [], ◌∷◌, none, leb}
use ollum_sales.Text.{Text, same}
use ollum_sales.Table.{find, select, insert}
use ollum_sales.Oauth.{
  OauthDb, Client, Params, CodeRow, TokenRow, Setup, cleanup_expired, register_client, authorize,
  pending_authorization, complete_authorization,
}
use ollum_sales.Oauth.Tokens.{
  Code, Token, Fresh, load_authorization_code, exchange_authorization_code, load_access_token,
  load_refresh_token, exchange_refresh_token, revoke_token,
}

pub data OauthCall : Type 0 where
  registers : ℕ → Client → OauthCall
  authorizes : ℕ → Text → Client → Params → OauthCall
  asks : ℕ → Text → OauthCall
  decides : ℕ → Text → Text → Text → Bool → OauthCall
  loads_code : ℕ → Client → Text → OauthCall
  spends_code : ℕ → ℕ → Client → Code → Fresh → OauthCall
  loads_access : ℕ → Text → OauthCall
  loads_refresh : ℕ → Client → Text → OauthCall
  spends_refresh : ℕ → ℕ → Client → Token → List Text → Fresh → OauthCall
  revokes : Bool → Token → OauthCall

module _ (o : Setup) where
  -- The tables after a call, whether it returned or raised.
  unfoldable pub after : OauthDb → OauthCall → OauthDb
  after db (registers now client) = (register_client o now client db).1
  after db (authorizes now request client params) = (authorize o now request client params db).1
  after db (asks now request) = (pending_authorization o now request db).1
  after db (decides now request code subject approved) =
      (complete_authorization o now request code subject approved db).1
  after db (loads_code now client code) = (load_authorization_code o now client code db).1
  after db (spends_code now later client code fresh) =
      (exchange_authorization_code o now later client code fresh db).1
  after db (loads_access now token) = (load_access_token o now token db).1
  after db (loads_refresh now client token) = (load_refresh_token o now client token db).1
  after db (spends_refresh now later client token scopes fresh) =
      (exchange_refresh_token o now later client token scopes fresh db).1
  after db (revokes refreshing token) = (revoke_token o refreshing token db).1

  unfoldable pub run : OauthDb → List OauthCall → OauthDb
  unfolding after
  run db [] = db
  run db (c ∷ cs) = run (after db c) cs

  -- The digests that a call may write in each table, those of its random texts.
  abbrev pub MintsCode : OauthCall → Text → Type 0
  MintsCode (decides now request code subject approved) d = d ≡ o.digest code
  MintsCode _ d = ⊥

  abbrev pub MintsAccess : OauthCall → Text → Type 0
  MintsAccess (spends_code now later client code fresh) d = d ≡ o.digest fresh.access_token
  MintsAccess (spends_refresh now later client token scopes fresh) d =
      d ≡ o.digest fresh.access_token
  MintsAccess _ d = ⊥

  abbrev pub MintsRefresh : OauthCall → Text → Type 0
  MintsRefresh (spends_code now later client code fresh) d = d ≡ o.digest fresh.refresh_token
  MintsRefresh (spends_refresh now later client token scopes fresh) d =
      d ≡ o.digest fresh.refresh_token
  MintsRefresh _ d = ⊥

-- What a call does to the rows of a table: some are dropped, and one may be added under a key that
-- is free.
pub data Moves {A : Type 0} (key : A → Text) (P : Text → Type 0) (xs ys : List A) : Type 0 where
  stays : ys ≡ xs → Moves key P xs ys
  drops : (p : A → Bool) → ys ≡ select p xs → Moves key P xs ys
  appends :
      (x : A)
      → P (key x)
      → find (λ y. same (key y) (key x)) xs ≡ none
      → ys ≡ insert x xs
      → Moves key P xs ys
  replaces :
      (p : A → Bool) (x : A)
      → P (key x)
      → find (λ y. same (key y) (key x)) (select p xs) ≡ none
      → ys ≡ insert x (select p xs)
      → Moves key P xs ys

abbrev pub code_key : CodeRow → Text
code_key r = r.code_digest

abbrev pub token_key : TokenRow → Text
token_key r = r.token_digest

pub record Evolves (P Q R : Text → Type 0) (db db' : OauthDb) : Type 0 where
  pub codes : Moves code_key P db.codes db'.codes
  pub access : Moves token_key Q db.access db'.access
  pub refresh : Moves token_key R db.refresh db'.refresh

module _ {P Q R : Text → Type 0} where
  pub Evolves-same :
      {db db' : OauthDb}
      → db'.codes ≡ db.codes
      → db'.access ≡ db.access
      → db'.refresh ≡ db.refresh
      → Evolves P Q R db db'
  Evolves-same a b c = record { codes = stays a; access = stays b; refresh = stays c }

  pub Evolves-cleanup : (now : ℕ) (db : OauthDb) → Evolves P Q R db (cleanup_expired now db)
  unfolding cleanup_expired
  Evolves-cleanup now db = record {
    codes = drops (λ r. not (leb r.expires_at now)) refl;
    access = drops (λ r. not (leb r.expires_at now)) refl;
    refresh = drops (λ r. not (leb r.expires_at now)) refl;
  }
