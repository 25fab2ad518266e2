-- ===== src/Grpc.antt =====
-- internal/grpcapi/server.go: the AccountService handlers. The messages and their wire form are
-- generated code outside the repository: a message is a record of the fields that the handlers
-- read and set, and marshalling is a parameter.
pub mod Calls
pub mod Replay
pub mod Retried
pub mod Kept
pub mod Errors
use peikonpurekkusu_account.Prelude.{
  ⊤, ℕ, suc, ◌*◌, ◌-◌, String, str_eq, Bool, true, false, Option, none, some, List, [], ◌∷◌,
  if◌then◌else◌,
}
use peikonpurekkusu_account.Prelude.Int.{ℤ, pos, negsuc, ltb_ℤ}
use peikonpurekkusu_account.Prelude.Word.{wrap64}
use peikonpurekkusu_account.Schema.{
  Uuid, Bytes, HoldStatus, captured, released, StoredResponse, Store, Runtime,
}
use peikonpurekkusu_account.Tx.{
  Tx, Error, Result, ok, err, insufficient_funds, hold_not_active, not_found, currency_mismatch,
  amount_exceeds_hold, bad_response, unique_violation, pure, check, gets, modify, or_raise, ◌>>=◌,
  ◌>>◌,
}
use peikonpurekkusu_account.Sql.Balances.{BalanceRow, lock_balance}
use peikonpurekkusu_account.Ledger.Operations.{hold, capture, release}
use peikonpurekkusu_account.Ledger.Retry.{Database, in_tx}

pub record Money : Type 0 where
  pub minor_units : ℤ
  pub currency_code : String

pub record HoldFundsRequest : Type 0 where
  pub request_id : String
  pub account_id : String
  pub payment_id : String
  pub amount : Option Money
  pub expires_in_seconds : ℤ

pub record HoldFundsResponse : Type 0 where
  pub hold_id : String
  pub status : HoldStatus
  pub available_after : Money

pub record CaptureFundsRequest : Type 0 where
  pub request_id : String
  pub hold_id : String
  pub amount : Option Money

pub record CaptureFundsResponse : Type 0 where
  pub ledger_transaction_id : String
  pub status : HoldStatus

pub record ReleaseFundsRequest : Type 0 where
  pub request_id : String
  pub hold_id : String
  pub reason : String

pub record ReleaseFundsResponse : Type 0 where
  pub status : HoldStatus

pub record GetBalanceResponse : Type 0 where
  pub account_id : String
  pub available : Money
  pub held : Money
  pub version : ℕ

-- `proto.Marshal` and `proto.Unmarshal` at one type of message; either can fail.
pub record Codec (R : Type 0) : Type 0 where
  pub marshal : R → Option Bytes
  pub unmarshal : Bytes → Option R

-- The gRPC status codes that the handlers return.
pub data Code : Type 0 where
  invalid_argument failed_precondition missing internal : Code

pub data Reply (R : Type 0) : Type 0 where
  response : R → Reply R
  status_error : Code → Reply R

unfoldable pub find_response : String → List StoredResponse → Option Bytes
find_response request_id [] = none
find_response request_id (r ∷ rest) =
    if str_eq r.request_id request_id then some r.response else find_response request_id rest

abbrev pub decode : {R : Type 0} → Codec R → Option Bytes → Tx (Option R)
decode c none = pure none
decode c (some body) = (do r ← or_raise (c.unmarshal body) bad_response; pure (some r))

-- `replay`: the response that is stored for the request id, if any.
unfoldable pub replay : {R : Type 0} → Codec R → String → Tx (Option R)
unfolding find_response
replay c request_id = do body ← gets (λ s. find_response request_id s.idempotency); decode c body

abbrev pub is_taken : Option Bytes → Bool
is_taken none = false
is_taken (some _) = true

-- `store`: request_id is the primary key.
unfoldable pub store : {R : Type 0} → Codec R → String → String → R → Tx ⊤
unfolding find_response
store c request_id method r = do
  body ← or_raise (c.marshal r) bad_response
  taken ← gets (λ s. is_taken (find_response request_id s.idempotency))
  check (if taken then some unique_violation else none)
  modify (λ s. record s {
    idempotency =
        record { request_id = request_id; method = method; response = body } ∷ s.idempotency;
  })

-- The transaction that every mutating handler runs: replay, or act and store.
abbrev pub act_or : {R : Type 0} → Codec R → String → String → Tx R → Option R → Tx R
act_or c request_id method act (some r) = pure r
act_or c request_id method act none = do r ← act; store c request_id method r; pure r

unfoldable pub idempotent : {R : Type 0} → Codec R → String → String → Tx R → Tx R
idempotent c request_id method act = do
  hit ← replay c request_id
  act_or c request_id method act hit

unfoldable pub map_err : Error → Code
map_err insufficient_funds = failed_precondition
map_err hold_not_active = failed_precondition
map_err amount_exceeds_hold = invalid_argument
map_err currency_mismatch = invalid_argument
map_err not_found = missing
map_err _ = internal

abbrev pub to_reply : {R : Type 0} → Result R × Store → Reply R × Store
to_reply (ok r, s) = (response r, s)
to_reply (err e, s) = (status_error (map_err e), s)

-- `time.Duration(seconds) * time.Second`
unfoldable pub in_seconds : ℤ → ℤ
in_seconds (pos n) = wrap64 (pos (n * 1000000000))
in_seconds (negsuc n) = wrap64 (negsuc (suc n * 1000000000 - 1))

unfoldable pub choose_ttl : ℤ → ℤ → ℤ
choose_ttl hold_ttl seconds = if ltb_ℤ (pos 0) seconds then in_seconds seconds else hold_ttl

module _ (x : Runtime) (d : Database) where
  -- The action of HoldFunds and the response that it fills in.
  unfoldable pub hold_action : Uuid → Uuid → Money → ℤ → Tx HoldFundsResponse
  hold_action account payment amount ttl = do
    result ← hold x account payment amount.minor_units amount.currency_code ttl
    pure (record {
      hold_id = x.uuid_string result.hold_id;
      status = HoldStatus.active;
      available_after = record {
        minor_units = result.available_after;
        currency_code = result.currency;
      };
    })

  abbrev pub hold_parsed :
      Codec HoldFundsResponse
      → ℤ
      → HoldFundsRequest
      → Money
      → Option Uuid
      → Option Uuid
      → Store
      → Reply HoldFundsResponse × Store
  hold_parsed c ttl req amount (some account) (some payment) s = to_reply (
      in_tx d
        (idempotent c req.request_id "HoldFunds"
          (hold_action account payment amount (choose_ttl ttl req.expires_in_seconds)))
        s)
  hold_parsed c ttl req amount _ _ s = (status_error invalid_argument, s)

  abbrev pub hold_guarded :
      Codec HoldFundsResponse
      → ℤ
      → HoldFundsRequest
      → Option Money
      → Store
      → Reply HoldFundsResponse × Store
  hold_guarded c ttl req none s = (status_error invalid_argument, s)
  hold_guarded c ttl req (some amount) s =
      if str_eq req.request_id ""
      then (status_error invalid_argument, s)
      else hold_parsed c ttl req amount (x.uuid_parse req.account_id) (x.uuid_parse req.payment_id)
          s

  -- `HoldFunds`; `ttl` is the server's `holdTTL`.
  unfoldable pub hold_funds :
      Codec HoldFundsResponse → ℤ → HoldFundsRequest → Store → Reply HoldFundsResponse × Store
  unfolding hold_action
  hold_funds c ttl req = hold_guarded c ttl req req.amount

  unfoldable pub capture_action : Uuid → ℤ → Tx CaptureFundsResponse
  capture_action id amount = do
    txn ← capture x id amount
    pure (record { ledger_transaction_id = x.uuid_string txn; status = captured })

  abbrev pub capture_parsed :
      Codec CaptureFundsResponse
      → CaptureFundsRequest
      → Money
      → Option Uuid
      → Store
      → Reply CaptureFundsResponse × Store
  capture_parsed c req amount none s = (status_error invalid_argument, s)
  capture_parsed c req amount (some id) s = to_reply (
      in_tx d (idempotent c req.request_id "CaptureFunds" (capture_action id amount.minor_units)) s)

  abbrev pub capture_guarded :
      Codec CaptureFundsResponse
      → CaptureFundsRequest
      → Option Money
      → Store
      → Reply CaptureFundsResponse × Store
  capture_guarded c req none s = (status_error invalid_argument, s)
  capture_guarded c req (some amount) s =
      if str_eq req.request_id ""
      then (status_error invalid_argument, s)
      else capture_parsed c req amount (x.uuid_parse req.hold_id) s

  unfoldable pub capture_funds :
      Codec CaptureFundsResponse → CaptureFundsRequest → Store → Reply CaptureFundsResponse × Store
  unfolding capture_action
  capture_funds c req = capture_guarded c req req.amount

  unfoldable pub release_action : Uuid → String → Tx ReleaseFundsResponse
  release_action id reason = do
    release x id (if str_eq reason "" then "compensation" else reason)
    pure (record { status = released })

  abbrev pub release_parsed :
      Codec ReleaseFundsResponse
      → ReleaseFundsRequest
      → Option Uuid
      → Store
      → Reply ReleaseFundsResponse × Store
  release_parsed c req none s = (status_error invalid_argument, s)
  release_parsed c req (some id) s =
      to_reply
        (in_tx d (idempotent c req.request_id "ReleaseFunds" (release_action id req.reason)) s)

  unfoldable pub release_funds :
      Codec ReleaseFundsResponse → ReleaseFundsRequest → Store → Reply ReleaseFundsResponse × Store
  unfolding release_action
  release_funds c req s =
      if str_eq req.request_id ""
      then (status_error invalid_argument, s)
      else release_parsed c req (x.uuid_parse req.hold_id) s

abbrev balance_reply : String → Result (BalanceRow × Store) → Reply GetBalanceResponse
balance_reply account_id (err not_found) = status_error missing
balance_reply account_id (err _) = status_error internal
balance_reply account_id (ok (b, _)) = response (record {
  account_id = account_id;
  available = record { minor_units = pos b.available; currency_code = b.currency };
  held = record { minor_units = pos b.held; currency_code = b.currency };
  version = b.version;
})

abbrev balance_parsed : Bool → String → Option Uuid → Store → Reply GetBalanceResponse
balance_parsed fails account_id none s = status_error invalid_argument
balance_parsed fails account_id (some id) s =
    if fails then status_error internal else balance_reply account_id (lock_balance id s)

-- `GetBalance`; `fails` says that the database does not answer the query.
unfoldable pub get_balance : Runtime → Bool → String → Store → Reply GetBalanceResponse
unfolding lock_balance
get_balance x fails account_id = balance_parsed fails account_id (x.uuid_parse account_id)
