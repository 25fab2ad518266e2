-- ===== src/Http/Routes.antt =====
-- `Handler`: the routes of the API. What the mux answers that no pattern matches (404, 405, or the
-- redirect of a path that is not clean) does not look at the headers.
use peikonpurekkusu_account.Prelude.{
  ℕ, [], ◌∷◌, List, String, Bool, if◌then◌else◌, not, str_eq, ◌||◌, ◌&&◌,
}
use peikonpurekkusu_account.Schema.{Runtime, Store}
use peikonpurekkusu_account.Http.{Request, Fetch, BalanceView, Response, ready, write_json, checks}
use peikonpurekkusu_account.Http.Balance.{get_balance, Conditions, Cached}
use peikonpurekkusu_account.Grpc.{Codec}
use peikonpurekkusu_account.Http.Accounts.{list_accounts}
use peikonpurekkusu_account.Http.Entries.{list_entries}

pub data Endpoint : Type 0 where
  live is_ready accounts : Endpoint
  balance entries : String → Endpoint
  unmatched : Endpoint

-- A path with an empty segment, `.` or `..` is redirected.
abbrev pub is_clean : String → Bool
is_clean s = not (str_eq s "" || (str_eq s "." || str_eq s ".."))

abbrev pub account_route : String → String → Endpoint
account_route id what =
    if str_eq what "balance"
    then balance id
    else if str_eq what "entries"
    then Endpoint.entries id
    else unmatched

unfoldable pub path_route : List String → Endpoint
path_route [] = unmatched
path_route (a ∷ []) = if str_eq a "accounts" then accounts else unmatched
path_route (a ∷ b ∷ []) =
    if str_eq a "health" && str_eq b "live"
    then live
    else if str_eq a "health" && str_eq b "ready"
    then is_ready
    else unmatched
path_route (a ∷ b ∷ c ∷ []) =
    if str_eq a "accounts" && is_clean b then account_route b c else unmatched
path_route (a ∷ b ∷ c ∷ d ∷ rest) = unmatched

-- A pattern for GET matches HEAD as well.
unfoldable pub route : Request → Endpoint
unfolding path_route
route r = if str_eq r.method "GET" || str_eq r.method "HEAD" then path_route r.path else unmatched

-- What the outside does during a request.
pub record Outside : Type 0 where
  pub conditions : Conditions
  pub exists_fails : Bool
  pub rows : Fetch
  pub postgres_up : Bool
  pub redis_up : Bool
  pub kafka_up : Bool

module _ (x : Runtime) (json : Codec BalanceView) (ttl : ℕ)
    (no_match : String → List String → Response) (o : Outside) (s : Store) where
  abbrev pub reply : Endpoint → Request → List Cached → Response × List Cached
  reply live r cached = (write_json (checks (("status", "ok") ∷ [])), cached)
  reply is_ready r cached = (ready o.postgres_up o.redis_up o.kafka_up, cached)
  reply accounts r cached = (list_accounts x o.rows r s, cached)
  reply (balance id) r cached = get_balance x json ttl o.conditions r id s cached
  reply (Endpoint.entries id) r cached = (list_entries x o.exists_fails o.rows r id s, cached)
  reply unmatched r cached = (no_match r.method r.path, cached)

  unfoldable pub serve : Request → List Cached → Response × List Cached
  unfolding route ready list_accounts get_balance list_entries
  serve r cached = reply (route r) r cached
