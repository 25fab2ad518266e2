-- ===== src/Http.antt =====
-- internal/httpapi/server.go: what a request and a response are made of, and the probes.
pub mod Accounts
pub mod Balance
pub mod Entries
pub mod Routes
pub use peikonpurekkusu_account.Sql.Fetch.{Fetch, refused, whole, broken_after, fetch}
use peikonpurekkusu_account.Prelude.{
  ℕ, zero, suc, String, ◌<>◌, str_eq, Bool, Option, none, some, List, [], ◌∷◌, if◌then◌else◌, ◌&&◌,
}
use peikonpurekkusu_account.Prelude.Lists.{take}
use peikonpurekkusu_account.Schema.{
  Uuid, Time, AccountType, AccountStatus, TransactionKind, Direction, Runtime,
}

-- The path is split at its slashes, the one in front left out, the headers stand under canonical
-- keys, and the query's cursor is the code points of its text.
pub record Request : Type 0 where
  pub method : String
  pub path : List String
  pub headers : List (String × String)
  pub cursor : List ℕ

-- `Header.Get`: the first value, or "".
unfoldable pub header : String → List (String × String) → String
header key [] = ""
header key ((k, v) ∷ rest) = if str_eq k key then v else header key rest

-- The fields of the JSON bodies.
pub record AccountView : Type 0 where
  pub account_id : String
  pub currency_code : String
  pub type : AccountType
  pub status : AccountStatus
  pub created_at : Time
  pub available_minor_units : ℕ
  pub held_minor_units : ℕ

pub data Source : Type 0 where
  ledger cache : Source

-- `balanceDTO`
pub record BalanceView : Type 0 where
  pub account_id : String
  pub available_minor_units : ℕ
  pub held_minor_units : ℕ
  pub currency_code : String
  pub as_of : Time
  pub source : Source

pub record EntryView : Type 0 where
  pub id : ℕ
  pub transaction_id : String
  pub kind : TransactionKind
  pub direction : Direction
  pub amount_minor_units : ℕ
  pub currency_code : String
  pub created_at : Time

pub data Body : Type 0 where
  accounts : List AccountView → Time → Body
  balance : BalanceView → Body
  entries : List EntryView → List ℕ → Body
  checks : List (String × String) → Body
  problem : ℕ → String → Body

pub record Response : Type 0 where
  pub status : ℕ
  pub body : Body

-- `writeJSON` with 200, and `httpError`; its title is a function of the status.
abbrev pub write_json : Body → Response
write_json body = record { status = 200; body = body }

abbrev pub http_error : ℕ → String → Response
http_error status detail = record { status = status; body = problem status detail }

-- `Server.fail`
abbrev pub failed : Response
failed = http_error 500 "internal error"

abbrev pub up_or_down : Bool → String
up_or_down up = if up then "up" else "down"

-- `ready`, by the answers of the three probes.
unfoldable pub ready : Bool → Bool → Bool → Response
ready postgres redis_cache kafka = record {
  status = if postgres && (redis_cache && kafka) then 200 else 503;
  body = checks (
      ("postgres", up_or_down postgres)
      ∷ ("redis-cache", up_or_down redis_cache)
      ∷ ("kafka", up_or_down kafka)
      ∷ []);
}

-- `callerID`
unfoldable pub caller_id : Runtime → Request → Option Uuid
unfolding header
caller_id x r = x.uuid_parse (header "X-User-Id" r.headers)
