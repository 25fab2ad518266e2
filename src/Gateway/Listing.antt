-- ===== src/Gateway/Listing.antt =====
-- The list of accounts, from the assertion to the rows.
use peikonpurekkusu_account.Prelude.{
  ℕ, none, some, [], ◌∷◌, List, Option, String, ◌≡◌, ◌⊎◌, ◌∙◌, ap, inr, inl, if◌then◌else◌, refl,
  str_eq, ◌||◌,
}
use peikonpurekkusu_account.Gateway.{Requirements, Token, is_health}
use peikonpurekkusu_account.Prelude.Int.{ℤ}
use peikonpurekkusu_account.Schema.{Runtime, Store, Uuid}
use peikonpurekkusu_account.Grpc.{Codec}
use peikonpurekkusu_account.Http.{
  BalanceView, Response, Request, AccountView, caller_id, http_error,
}
use peikonpurekkusu_account.Http.Routes.{Outside, reply, unmatched}
use peikonpurekkusu_account.Http.Routes.{serve, route, path_route}
use peikonpurekkusu_account.Http.Balance.{Cached}
use peikonpurekkusu_account.Gateway.Identity.{IsRejected, IsVerified, api, api-IsVerified}
use peikonpurekkusu_account.Http.Accounts.{list_accounts, accounts_of}
use peikonpurekkusu_account.Http.Accounts.Listing.{IsListing, list_accounts-IsListing, shows}

module _ (verify : Requirements → String → Option Token) (format_int : ℤ → String) (x : Runtime)
    (json : Codec BalanceView) (ttl : ℕ) (no_match : String → List String → Response) (o : Outside)
    (s : Store) where
  serve_accounts :
      (r q : Request) (cached : List Cached)
      → q.method ≡ r.method
      → q.path ≡ r.path
      → r.method ≡ "GET"
      → r.path ≡ "accounts" ∷ []
      → serve x json ttl no_match o s q cached ≡ (list_accounts x o.rows q s, cached)
  unfolding serve route path_route
  serve_accounts r q cached method path get here =
      ap
        (λ m.
          reply x json ttl no_match o s
            (if str_eq m "GET" || str_eq m "HEAD" then path_route q.path else unmatched) q cached)
        (method ∙ get)
      ∙ ap (λ p. reply x json ttl no_match o s (path_route p) q cached) (path ∙ here)

  list_accounts_unknown :
      (q : Request)
      → caller_id x q ≡ none
      → list_accounts x o.rows q s ≡ http_error 401 "missing identity"
  unfolding list_accounts
  list_accounts_unknown q e = ap (λ u. accounts_of x o.rows u s) e

  pub record IsAnswered (r : Request) (cached : List Cached) : Type 0 where
    pub assertion : IsVerified verify format_int x json ttl no_match o s r cached
    pub user : Uuid
    pub views : List AccountView
    pub parsed : x.uuid_parse assertion.sub ≡ some user
    pub answer :
        api verify format_int x json ttl no_match o s r cached
        ≡ (shows x user s o.rows views, cached)
    pub listing : IsListing x user s views

  answered :
      (r : Request) (cached : List Cached) (user : Option Uuid)
      → (v : IsVerified verify format_int x json ttl no_match o s r cached) → r.method ≡ "GET"
      → r.path ≡ "accounts" ∷ []
      → x.uuid_parse v.sub ≡ user
      → IsRejected verify format_int x json ttl no_match o s r cached ⊎ IsAnswered r cached
  answered r cached none v get path e = inl (
    "missing identity",
    v.answer
        ∙ serve_accounts r v.seen cached v.method v.path get path
        ∙ ap (λ a. (a, cached)) (list_accounts_unknown v.seen (v.caller ∙ e)),
  )
  answered r cached (some user) v get path e =
      let served = v.answer ∙ serve_accounts r v.seen cached v.method v.path get path in
      let (views, reply, listing) = list_accounts-IsListing x user s o.rows v.seen (v.caller ∙ e) in
      inr (record {
        assertion = v;
        user = user;
        views = views;
        parsed = e;
        answer = served ∙ ap (λ a. (a, cached)) reply;
        listing = listing;
      })

  -- `GET /accounts` is answered with 401, or its assertion is accepted and the answer is made
  -- of the accounts of the subject that have a balance, all of them and no others, oldest first: it
  -- lists them if the query gives all its rows, it is 500 if the query is refused, and it has the
  -- first n of them and the status of a success if the connection breaks behind n rows.
  pub api_listing :
      (r : Request) (cached : List Cached)
      → r.method ≡ "GET"
      → r.path ≡ "accounts" ∷ []
      → IsRejected verify format_int x json ttl no_match o s r cached ⊎ IsAnswered r cached
  api_listing r cached get path =
      elim (api-IsVerified verify format_int x json ttl no_match o s r cached (ap is_health path)) [
        | inl rejected ↦ inl rejected
        | inr v ↦ answered r cached (x.uuid_parse v.sub) v get path refl
      ]
