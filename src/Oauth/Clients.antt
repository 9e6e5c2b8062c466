-- ===== src/Oauth/Clients.antt =====
-- Registered clients (`register_client` and `get_client` of app/oauth_server.py).
use ollum_sales.Prelude.{
  ℕ, ◌≡◌, refl, ◌∙◌, true, false, not, ◌&&◌, ◌⊎◌, ◌↔◌, List, [], ◌∷◌, none, some, arith, Bool-cases,
  inl, inr, All,
}
use ollum_sales.Text.{Text, text, same, one_of}
use ollum_sales.Text.Laws.{same_iff, same_refl}
use ollum_sales.Exec.{ok}
use ollum_sales.Table.{find, insert}
use ollum_sales.Table.Delete.{
  find-select_other, find-select_more, find-insert_self, find-insert_other,
}
use ollum_sales.Oauth.{
  OauthDb, Client, Setup, delete, unusable, client_at, host_of, loopback_hosts, approved_uri,
  approved_uris, sealed, register_client, get_client,
}

-- A callback of the allowed hosts over HTTPS or of a loopback address over HTTP, with no user and no
-- fragment.
pub record IsCallback (o : Setup) (uri : Text) : Type 0 where
  pub place :
      (((o.urlsplit uri).scheme ≡ text "https")
        × (one_of (host_of (o.urlsplit uri).hostname) o.allowed_redirect_hosts ≡ true))
      ⊎ (((o.urlsplit uri).scheme ≡ text "http")
          × (one_of (host_of (o.urlsplit uri).hostname) loopback_hosts ≡ true))
  pub user : (o.urlsplit uri).username ≡ none
  pub password : (o.urlsplit uri).password ≡ none
  pub fragment : (o.urlsplit uri).fragment ≡ []

module _ (o : Setup) where
  approved-IsCallback : (uri : Text) → approved_uri o uri ≡ true → IsCallback o uri
  unfolding approved_uri
  approved-IsCallback uri h =
      let u = o.urlsplit uri in
      let https : (same u.scheme (text "https") ≡ true) ↔ (u.scheme ≡ text "https") =
        same_iff u.scheme (text "https") in
      let http : (same u.scheme (text "http") ≡ true) ↔ (u.scheme ≡ text "http") =
        same_iff u.scheme (text "http") in
      let no_user : u.username ≡ none = ground arith in
      let no_password : u.password ≡ none = ground arith in
      let no_fragment : u.fragment ≡ [] = ground arith in
      elim (Bool-cases
        (same u.scheme (text "https") && one_of (host_of u.hostname) o.allowed_redirect_hosts)) [
          | inl e ↦ record {
            place = inl (https.0 (ground arith), ground arith);
            user = no_user;
            password = no_password;
            fragment = no_fragment;
          }
          | inr e ↦ record {
            place = inr (http.0 (ground arith), ground arith);
            user = no_user;
            password = no_password;
            fragment = no_fragment;
          }
        ]

  approved-All : (uris : List Text) → approved_uris o uris ≡ true → All (IsCallback o) uris
  unfolding approved_uris
  approved-All [] h = tt
  approved-All (uri ∷ uris) h =
      (approved-IsCallback uri (ground arith), approved-All uris (ground arith))

  -- Where Fernet and the JSON of a client give back what they were given, a client whose registration
  -- returned is read back as it was registered, if its id has at most 256 characters; every other client
  -- is read as before; and each of its redirect URIs is an approved callback.
  pub register_roundtrip :
      (now : ℕ) (client : Client) (k : Text) (db db' : OauthDb)
      → o.unseal (o.seal client) ≡ some client
      → unusable client.client_id ≡ false
      → same client.client_id k ≡ false
      → register_client o now client db ≡ (ok tt, db')
      → (get_client o client.client_id db' ≡ (ok (some client), db'))
        × ((get_client o k db').0 ≡ (get_client o k db).0)
        × All (IsCallback o) client.redirect_uris
  unfolding register_client get_client
  register_roundtrip now client k db db' s n other h =
      let row = sealed o now client in
      let rest = delete (client_at client.client_id) db.clients in
      let approved : approved_uris o client.redirect_uris ≡ true = ground arith in
      let store : db' ≡ record db { clients = insert row rest } = ground arith in
      let found : find (client_at client.client_id) (insert row rest) ≡ some row =
        find-insert_self (client_at client.client_id) row rest
          (find-select_other (client_at client.client_id) (λ x. not (client_at client.client_id x))
            db.clients (λ x e. ground arith))
          (same_refl client.client_id) in
      let others : find (client_at k) (insert row rest) ≡ find (client_at k) db.clients =
        find-insert_other (client_at k) row rest other
        ∙ find-select_more (client_at k) (λ x. not (client_at client.client_id x)) db.clients
            (λ x e. ground (
              arith,
              same_iff x.client_id client.client_id,
              same_iff x.client_id k,
              same_iff client.client_id k,
            )) in
      (
        rw store (rw (n, found) (rw s refl)),
        rw store
            (elim (Bool-cases (unusable k)) [ inl e ↦ rw e refl | inr e ↦ rw (e, others) refl ]),
        approved-All client.redirect_uris approved,
      )
