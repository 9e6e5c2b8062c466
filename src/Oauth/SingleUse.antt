-- ===== src/Oauth/SingleUse.antt =====
-- Codes and refresh tokens that are spent or revoked, under further calls on the OAuth provider
-- (app/oauth_server.py).
use mathlib.Core.Path.{subst}
use ollum_sales.Prelude.{
  ℕ, ◌≡◌, refl, ◌∙◌, Bool, true, false, not, ◌||◌, List, [], ◌∷◌, none, arith, Bool-cases, inl, inr,
  All,
}
use ollum_sales.Text.{Text, same, is_empty}
use ollum_sales.Text.Laws.{same_iff}
use ollum_sales.Exec.{ok, Refused}
use ollum_sales.Table.{find, select, count}
use ollum_sales.Table.Laws.{IsKeyed, insert-IsKeyed}
use ollum_sales.Table.Delete.{find-select-none, find-insert_other, count-implied, select-IsKeyed}
use ollum_sales.Oauth.{OauthDb, Client, Setup, delete, code_at, token_at}
use ollum_sales.Oauth.Tokens.{
  Code, Token, TokenPair, Fresh, live_code, live_token, insert_token_pair, spend_code,
  spend_refresh, exchange_authorization_code, exchange_refresh_token, subset, or_list,
  refresh_claims, refresh_row,
}
use ollum_sales.Oauth.Calls.{
  OauthCall, after, run, MintsCode, MintsAccess, MintsRefresh, Moves, stays, drops, appends,
  replaces, code_key, token_key,
}
use ollum_sales.Oauth.Evolution.{after-Evolves}

apart :
    {A : Type 0} (key : A → Text) (P : Text → Type 0) (d : Text) (x : A)
    → (P d → ⊥)
    → P (key x)
    → same (key x) d ≡ false
apart key P d x m n = elim (Bool-cases (same (key x) d)) [
  | inl e ↦ absurd (m (subst P ((same_iff (key x) d).0 e) n))
  | inr e ↦ e
]

module _ {A : Type 0} (key : A → Text) {P : Text → Type 0} where
  pub Moves-IsKeyed : (xs ys : List A) → Moves key P xs ys → IsKeyed key xs → IsKeyed key ys
  Moves-IsKeyed xs ys (stays e) u = rw e u
  Moves-IsKeyed xs ys (drops p e) u = rw e (select-IsKeyed key p xs u)
  Moves-IsKeyed xs ys (appends x n f e) u = rw e (insert-IsKeyed key x xs u f)
  Moves-IsKeyed xs ys (replaces p x n f e) u =
      rw e (insert-IsKeyed key x (select p xs) (select-IsKeyed key p xs u) f)

  -- A key that has no row, and that no call writes, has none after the call.
  pub Moves-gone :
      (d : Text) (xs ys : List A)
      → (P d → ⊥)
      → Moves key P xs ys
      → find (λ x. same (key x) d) xs ≡ none
      → find (λ x. same (key x) d) ys ≡ none
  Moves-gone d xs ys m (stays e) h = rw e h
  Moves-gone d xs ys m (drops p e) h = rw e (find-select-none (λ x. same (key x) d) p xs h)
  Moves-gone d xs ys m (appends x n f e) h =
      rw e (find-insert_other (λ x. same (key x) d) x xs (apart key P d x m n) ∙ h)
  Moves-gone d xs ys m (replaces p x n f e) h = rw e (
      find-insert_other (λ x. same (key x) d) x (select p xs) (apart key P d x m n)
      ∙ find-select-none (λ x. same (key x) d) p xs h)

-- Digests are unique in the tables of codes and tokens.
pub record Keyed (db : OauthDb) : Type 0 where
  pub codes : IsKeyed code_key db.codes
  pub access : IsKeyed token_key db.access
  pub refresh : IsKeyed token_key db.refresh

-- Of a keyed table, a statement on a key that deleted one row has left the key none.
deleted_one :
    {A : Type 0} (key : A → Text) (k : Text) (p : A → Bool) (xs : List A)
    → IsKeyed key xs
    → ((x : A) → p x ≡ true → same (key x) k ≡ true)
    → count p xs ≡ 1
    → find (λ x. same (key x) k) (delete p xs) ≡ none
unfolding find select count
deleted_one key k p [] u h n = cc
deleted_one key k p (x ∷ xs) u h n =
    let alone = λ (e : same (key x) k ≡ true).
      subst (λ j. find (λ y. same (key y) j) xs ≡ none) ((same_iff (key x) k).0 e) u.0 in
    elim (Bool-cases (p x)) [
      | inl e ↦ rw e (find-select-none (λ y. same (key y) k) (λ y. not (p y)) xs (alone (h x e)))
      | inr e ↦ elim (Bool-cases (same (key x) k)) [
        | inl s ↦ absurd (ground (arith, count-implied (λ y. same (key y) k) p xs h (alone s)))
        | inr s ↦ rw (e, s) (deleted_one key k p xs u.1 h (ground arith))
      ]
    ]

module _ (o : Setup) where
  pub code-gone :
      (d : Text) (db : OauthDb) (cs : List OauthCall)
      → All (λ c. MintsCode o c d → ⊥) cs
      → find (code_at d) db.codes ≡ none
      → find (code_at d) (run o db cs).codes ≡ none
  unfolding run
  code-gone d db [] m h = h
  code-gone d db (c ∷ cs) m h =
      code-gone d (after o db c) cs m.1
        (Moves-gone code_key d db.codes (after o db c).codes m.0 (after-Evolves o db c).codes h)

  pub access-gone :
      (d : Text) (db : OauthDb) (cs : List OauthCall)
      → All (λ c. MintsAccess o c d → ⊥) cs
      → find (token_at d) db.access ≡ none
      → find (token_at d) (run o db cs).access ≡ none
  unfolding run
  access-gone d db [] m h = h
  access-gone d db (c ∷ cs) m h =
      access-gone d (after o db c) cs m.1
        (Moves-gone token_key d db.access (after o db c).access m.0 (after-Evolves o db c).access h)

  pub refresh-gone :
      (d : Text) (db : OauthDb) (cs : List OauthCall)
      → All (λ c. MintsRefresh o c d → ⊥) cs
      → find (token_at d) db.refresh ≡ none
      → find (token_at d) (run o db cs).refresh ≡ none
  unfolding run
  refresh-gone d db [] m h = h
  refresh-gone d db (c ∷ cs) m h = refresh-gone d (after o db c) cs m.1 (
      Moves-gone token_key d db.refresh (after o db c).refresh m.0 (after-Evolves o db c).refresh h)

  -- An exchange of a code that has no row is refused.
  pub absent-code :
      (now later : ℕ) (client : Client) (code : Code) (fresh : Fresh) (db : OauthDb)
      → find (code_at (o.digest code.code)) db.codes ≡ none
      → Refused db (exchange_authorization_code o now later client code fresh db)
  unfolding exchange_authorization_code spend_code
  absent-code now later client code fresh db h =
      let none_live : count (live_code client.client_id (o.digest code.code) now) db.codes ≡ 0 =
        count-implied (code_at (o.digest code.code))
          (live_code client.client_id (o.digest code.code) now) db.codes (λ x e. ground arith) h in
      elim (Bool-cases (is_empty client.client_id || is_empty code.row.subject)) [
        | inl e ↦ rw e (_, refl)
        | inr e ↦ rw (e, none_live) (_, refl)
      ]

  pub absent-refresh :
      (now later : ℕ) (client : Client) (token : Token) (scopes : List Text) (fresh : Fresh)
      (db : OauthDb)
      → find (token_at (o.digest token.token)) db.refresh ≡ none
      → Refused db (exchange_refresh_token o now later client token scopes fresh db)
  unfolding exchange_refresh_token spend_refresh
  absent-refresh now later client token scopes fresh db h =
      let none_live : count (live_token client.client_id (o.digest token.token) now) db.refresh
          ≡ 0 =
        count-implied (token_at (o.digest token.token))
          (live_token client.client_id (o.digest token.token) now) db.refresh (λ x e. ground arith)
          h in
      elim (Bool-cases (is_empty client.client_id || is_empty token.row.subject)) [
        | inl e ↦ rw e (_, refl)
        | inr e ↦ elim (Bool-cases (subset (or_list scopes token.row.scopes) token.row.scopes)) [
          | inr s ↦ rw (e, s) (_, refl)
          | inl s ↦ rw (e, s, none_live) (_, refl)
        ]
      ]

  pub spent-code :
      (now later : ℕ) (client : Client) (code : Code) (fresh : Fresh) (db db' : OauthDb)
      (pair : TokenPair)
      → IsKeyed code_key db.codes
      → exchange_authorization_code o now later client code fresh db ≡ (ok pair, db')
      → find (code_at (o.digest code.code)) db'.codes ≡ none
  unfolding exchange_authorization_code spend_code insert_token_pair
  spent-code now later client code fresh db db' pair u h =
      let spent = live_code client.client_id (o.digest code.code) now in
      ground
        (arith, deleted_one code_key (o.digest code.code) spent db.codes u (λ x e. ground arith))

  pub spent-refresh :
      (now later : ℕ) (client : Client) (token : Token) (scopes : List Text) (fresh : Fresh)
      (db db' : OauthDb) (pair : TokenPair)
      → IsKeyed token_key db.refresh
      → same (o.digest fresh.refresh_token) (o.digest token.token) ≡ false
      → exchange_refresh_token o now later client token scopes fresh db ≡ (ok pair, db')
      → find (token_at (o.digest token.token)) db'.refresh ≡ none
  unfolding exchange_refresh_token spend_refresh insert_token_pair
  spent-refresh now later client token scopes fresh db db' pair u n h =
      let spent = live_token client.client_id (o.digest token.token) now in
      let c = refresh_claims o client token scopes fresh in
      ground (
        arith,
        deleted_one token_key (o.digest token.token) spent db.refresh u (λ x e. ground arith),
        find-insert_other (token_at (o.digest token.token)) (refresh_row o later fresh c)
            (delete spent db.refresh),
      )

  -- Where code digests are unique, a code that was exchanged for tokens is never exchanged again: after
  -- any further calls none of which makes a code with its digest, every exchange of it, by any client,
  -- raises and changes nothing.
  pub code_single_use :
      (now later now' later' : ℕ) (client client' : Client) (code code' : Code)
      (fresh fresh' : Fresh) (db db' : OauthDb) (pair : TokenPair) (cs : List OauthCall)
      → IsKeyed code_key db.codes
      → exchange_authorization_code o now later client code fresh db ≡ (ok pair, db')
      → All (λ c. MintsCode o c (o.digest code.code) → ⊥) cs
      → code'.code ≡ code.code
      → Refused
          (run o db' cs)
          (exchange_authorization_code o now' later' client' code' fresh' (run o db' cs))
  code_single_use now later now' later' client client' code code' fresh fresh' db db' pair cs u h m
        e =
      absent-code now' later' client' code' fresh' (run o db' cs) (
        rw e (
          code-gone (o.digest code.code) db' cs m
            (spent-code now later client code fresh db db' pair u h)))

  -- Where refresh digests are unique, a refresh token that was exchanged for a new pair, whose digest is
  -- another, is never exchanged again: after any further calls none of which makes a refresh token
  -- with its digest, every exchange of it, by any client, raises and changes nothing.
  pub refresh_single_use :
      (now later now' later' : ℕ) (client client' : Client) (token token' : Token)
      (scopes scopes' : List Text) (fresh fresh' : Fresh) (db db' : OauthDb) (pair : TokenPair)
      (cs : List OauthCall)
      → IsKeyed token_key db.refresh
      → same (o.digest fresh.refresh_token) (o.digest token.token) ≡ false
      → exchange_refresh_token o now later client token scopes fresh db ≡ (ok pair, db')
      → All (λ c. MintsRefresh o c (o.digest token.token) → ⊥) cs
      → token'.token ≡ token.token
      → Refused
          (run o db' cs)
          (exchange_refresh_token o now' later' client' token' scopes' fresh' (run o db' cs))
  refresh_single_use now later now' later' client client' token token' scopes scopes' fresh fresh'
        db db' pair cs u n h m e =
      absent-refresh now' later' client' token' scopes' fresh' (run o db' cs) (
        rw e (
          refresh-gone (o.digest token.token) db' cs m
            (spent-refresh now later client token scopes fresh db db' pair u n h)))
