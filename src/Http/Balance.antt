-- ===== src/Http/Balance.antt =====
-- `getBalance`: the balance of an account, from the cache for display or from the ledger.
pub mod Snapshots
pub mod Fresh
pub mod Owner
use peikonpurekkusu_account.Prelude.{
  ℕ, none, some, [], ◌∷◌, ◌+◌, true, false, Bool, String, Option, List, ltb, suc, ◌<>◌,
  if◌then◌else◌, str_eq, zero, ◌==◌,
}
use peikonpurekkusu_account.Schema.{Runtime, Time, Bytes, Uuid, Account, Store, Balance}
use peikonpurekkusu_account.Sql.Journal.{find_account}
use peikonpurekkusu_account.Sql.Balances.{find_balance}
use peikonpurekkusu_account.Grpc.{Codec}
use peikonpurekkusu_account.Http.{
  Body, Source, BalanceView, caller_id, Response, Request, write_json, http_error, ledger, failed,
}

-- A value in Redis: the bytes, and when they expire. `Set` with a lifetime of 0 never expires.
pub record Cached : Type 0 where
  pub key : String
  pub bytes : Bytes
  pub expires_at : Option Time

abbrev pub is_live : Time → Option Time → Bool
is_live now none = true
is_live now (some at) = ltb now at

-- The value set last hides the earlier ones.
unfoldable pub cache_get : Time → String → List Cached → Option Bytes
cache_get now key [] = none
cache_get now key (c ∷ rest) =
    if str_eq c.key key
    then (if is_live now c.expires_at then some c.bytes else none)
    else cache_get now key rest

abbrev pub expiry : Time → ℕ → Option Time
expiry now zero = none
expiry now (suc ttl) = some (now + suc ttl)

abbrev pub cache_key : Runtime → Uuid → String
cache_key x id = "balance:" <> x.uuid_string id

-- What the outside does during the call: whether Redis answers the two commands, and whether the
-- database fails.
pub record Conditions : Type 0 where
  pub get_fails : Bool
  pub set_fails : Bool
  pub query_fails : Bool

-- `b.account_id = $1 and a.user_id = $2`
abbrev pub join_owned : Runtime → Uuid → Time → Option Account → Option Balance → Option BalanceView
join_owned x user now (some a) (some b) =
    if a.user_id == user
    then some (record {
      account_id = x.uuid_string b.account_id;
      available_minor_units = b.available;
      held_minor_units = b.held;
      currency_code = a.currency;
      as_of = now;
      source = Source.ledger;
    })
    else none
join_owned x user now _ _ = none

unfoldable pub owned_balance : Runtime → Uuid → Uuid → Store → Option BalanceView
unfolding find_account find_balance
owned_balance x user id s =
    join_owned x user s.clock (find_account id s.accounts) (find_balance id s.balances)

-- The marshalled form of a balance (encoding/json), and the server's `cacheTTL`.
module _ (x : Runtime) (json : Codec BalanceView) (ttl : ℕ) where
  -- What a hit gives: the decoded value, labelled as cached.
  abbrev pub decode_hit : Option BalanceView → Option BalanceView
  decode_hit none = none
  decode_hit (some v) = some (record v { source = Source.cache })

  abbrev pub read_hit : Option Bytes → Option BalanceView
  read_hit none = none
  read_hit (some bytes) = decode_hit (json.unmarshal bytes)

  unfoldable pub lookup_balance : Conditions → Uuid → Time → List Cached → Option BalanceView
  unfolding cache_get
  lookup_balance c id now cached =
      if c.get_fails then none else read_hit (cache_get now (cache_key x id) cached)

  abbrev pub keep : Bool → Uuid → Time → Option Bytes → List Cached → List Cached
  keep fails id now none cached = cached
  keep fails id now (some bytes) cached =
      if fails
      then cached
      else record { key = cache_key x id; bytes = bytes; expires_at = expiry now ttl } ∷ cached

  -- The part behind a miss.
  abbrev pub from_ledger :
      Conditions → Uuid → Time → Option BalanceView → List Cached → Response × List Cached
  from_ledger c id now none cached = (http_error 404 "account not found", cached)
  from_ledger c id now (some v) cached =
      (write_json (Body.balance v), keep c.set_fails id now (json.marshal v) cached)

  abbrev pub hit_or_read :
      Conditions → Uuid → Uuid → Option BalanceView → Store → List Cached → Response × List Cached
  hit_or_read c user id (some v) s cached = (write_json (Body.balance v), cached)
  hit_or_read c user id none s cached =
      if c.query_fails
      then (failed, cached)
      else from_ledger c id s.clock (owned_balance x user id s) cached

  abbrev pub balance_for :
      Conditions → Option Uuid → Option Uuid → Store → List Cached → Response × List Cached
  balance_for c none id s cached = (http_error 401 "missing identity", cached)
  balance_for c (some user) none s cached = (http_error 400 "invalid account id", cached)
  balance_for c (some user) (some id) s cached =
      hit_or_read c user id (lookup_balance c id s.clock cached) s cached

  unfoldable pub get_balance :
      Conditions → Request → String → Store → List Cached → Response × List Cached
  unfolding caller_id lookup_balance owned_balance
  get_balance c r id s cached = balance_for c (caller_id x r) (x.uuid_parse id) s cached
