-- ===== src/Tests/Api.antt =====
-- The HTTP handlers at the account of a user.
use text.Mathlib.TextLemmas.{append_cancel_left, append-eq-nil_iff}
use peikonpurekkusu_account.Prelude.{
  none, some, [], ◌∷◌, List, String, suc, if◌then◌else◌, arith, ◌≡◌, Bool, false, true, str_eq,
  eq_iff, ◌<>◌, refl, zero, ◌&&◌, ap, ◌==◌, sym,
}
use peikonpurekkusu_account.Http.Balance.{
  get_balance, Conditions, Cached, lookup_balance, owned_balance, cache_get,
}
use peikonpurekkusu_account.Schema.{Account, Store, Uuid, Runtime, TransactionKind, credit, debit}
use peikonpurekkusu_account.Http.Entries.{
  list_entries, is_owned, find_transaction, page_of, read_cursor,
}
use peikonpurekkusu_account.Http.{
  Source, BalanceView, caller_id, Request, header, Body, whole, broken_after, write_json,
}
use peikonpurekkusu_account.Grpc.{Codec}
use peikonpurekkusu_account.Prelude.Lists.{All, length, take}
use peikonpurekkusu_account.Http.Entries.Order.{entries_of}
use peikonpurekkusu_account.Grpc.Replay.{IsFaithful}
use peikonpurekkusu_account.Http.Entries.Pages.{walk, list_entries_complete, list_entries_truncated}
use peikonpurekkusu_account.Http.Balance.Fresh.{get_balance-IsRecent}
use peikonpurekkusu_account.Http.Balance.Snapshots.{IsGenuine, IsRecent}
use peikonpurekkusu_account.Tests.Seed.{seeded}
use peikonpurekkusu_account.Sql.Journal.{find_account}
use peikonpurekkusu_account.Http.Balance.Owner.{Asks, get_balance_shared}
use peikonpurekkusu_account.Sql.Balances.{find_balance}

-- Ids in unary.
abbrev pub tally : Uuid → String
tally zero = ""
tally (suc n) = "i" <> tally n

starts : (n : Uuid) → "i" <> tally n ≡ "" → ⊥
starts n e =
    let letter : ◌≡◌ {A = String} "i" "" = (append-eq-nil_iff.0 e).0 in
    let same : false ≡ true = (eq_iff "i" "").1 letter in cc

tally_injective : (a b : Uuid) → tally a ≡ tally b → a ≡ b
tally_injective zero zero e = refl
tally_injective zero (suc b) e = absurd (starts b (sym e))
tally_injective (suc a) zero e = absurd (starts a e)
tally_injective (suc a) (suc b) e =
    ap suc (tally_injective a b (append_cancel_left "i" (tally a) (tally b) e))

abbrev pub server : Runtime
server = record {
  fresh = λ n. n;
  uuid_string = tally;
  uuid_parse = λ s.
      if str_eq s "caller"
      then some 42
      else if str_eq s "stranger"
      then some 43
      else if str_eq s "account"
      then some 1
      else none;
  rfc3339 = λ t. "";
}

abbrev pub shown : BalanceView
shown = record {
  account_id = "i";
  available_minor_units = 0;
  held_minor_units = 0;
  currency_code = "USD";
  as_of = 100;
  source = Source.ledger;
}

abbrev is_ledger : Source → Bool
is_ledger Source.ledger = true
is_ledger Source.cache = false

abbrev is_shown : BalanceView → Bool
is_shown v =
    (str_eq v.account_id "i" && str_eq v.currency_code "USD")
    && ((v.available_minor_units == 0 && v.held_minor_units == 0)
        && (v.as_of == 100 && is_ledger v.source))

-- A JSON form for the one balance.
abbrev pub view_json : Codec BalanceView
view_json = record {
  marshal = λ v. if is_shown v then some (123 ∷ 125 ∷ []) else none;
  unmarshal = λ bytes. some shown;
}

from_ledger_only : (source : Source) → is_ledger source ≡ true → source ≡ Source.ledger
from_ledger_only Source.ledger e = refl
from_ledger_only Source.cache e = cc

view_json-IsFaithful : IsFaithful view_json
view_json-IsFaithful = λ v body e.
    ground (arith, eq_iff v.account_id "i", eq_iff v.currency_code "USD", from_ledger_only v.source)

abbrev pub answering : Conditions
answering = record { get_fails = false; set_fails = false; query_fails = false }

abbrev pub asked_by : String → Request
asked_by caller = record {
  method = "GET";
  path = "accounts" ∷ "account" ∷ "balance" ∷ [];
  headers = ("X-User-Id", caller) ∷ [];
  cursor = [];
}

abbrev filled : List Cached
filled = record { key = "balance:i"; bytes = 123 ∷ 125 ∷ []; expires_at = some 105 } ∷ []

get_balance-IsRecent_example :
    All
      (IsGenuine server view_json 5 (λ t. seeded) 100)
      (get_balance server view_json 5 answering (asked_by "caller") "account" seeded []).1
    × ((v : BalanceView)
        → (get_balance server view_json 5 answering (asked_by "caller") "account" seeded []).0.body
          ≡ Body.balance v
        → (id : Uuid) × (server.uuid_parse "account" ≡ some id)
          × IsRecent server view_json 5 (λ t. seeded) id 100 v)
get_balance-IsRecent_example =
    get_balance-IsRecent server view_json 5 (λ t. seeded) tally_injective view_json-IsFaithful
      (omega arith) answering (asked_by "caller") "account" seeded [] refl tt

first_call :
    get_balance server view_json 5 answering (asked_by "caller") "account" seeded []
    ≡ (write_json (Body.balance shown), filled)
unfolding get_balance lookup_balance owned_balance cache_get caller_id header find_account
    find_balance
first_call = refl

knows_caller_and_account : Asks server view_json 5 (asked_by "caller") "account" 42 1
unfolding caller_id header
knows_caller_and_account = (refl, refl)

knows_stranger_and_account : Asks server view_json 5 (asked_by "stranger") "account" 43 1
unfolding caller_id header
knows_stranger_and_account = (refl, refl)

get_balance_shared_example :
    ((a : Account) × (find_account 1 seeded.accounts ≡ some a) × (a.user_id ≡ 42))
    × (get_balance server view_json 5 answering (asked_by "stranger") "account" seeded filled
        ≡ (write_json (Body.balance (record shown { source = Source.cache })), filled))
get_balance_shared_example =
    get_balance_shared server view_json 5 view_json-IsFaithful (omega arith) answering answering
      (asked_by "caller") (asked_by "stranger") "account" 42 43 1 seeded seeded [] filled shown
      (123 ∷ 125 ∷ []) knows_caller_and_account first_call refl refl refl knows_stranger_and_account
      refl (omega arith)

-- A deposit to the account in the journal.
abbrev pub deposited : Store
deposited = record seeded {
  transactions =
      record { id = 9; idempotency_key = none; kind = TransactionKind.deposit; payment_id = none }
      ∷ [];
  entries =
      record {
        id = 2;
        transaction_id = 9;
        account_id = 1;
        direction = credit;
        amount = 700;
        currency = "USD";
        created_at = 90;
      }
      ∷ record {
        id = 1;
        transaction_id = 9;
        account_id = 0xc001;
        direction = debit;
        amount = 700;
        currency = "USD";
        created_at = 90;
      }
      ∷ [];
}

knows_caller : caller_id server (asked_by "caller") ≡ some 42
unfolding caller_id header
knows_caller = refl

owns : is_owned 1 42 deposited.accounts ≡ true
unfolding is_owned
owns = refl

one_entry : length (entries_of server 1 deposited.transactions deposited.entries) ≡ 1
unfolding entries_of find_transaction
one_entry = refl

list_entries_complete_example :
    walk
      (λ cursor.
        list_entries server false whole
          (record (asked_by "caller") { cursor = cursor })
          "account"
          deposited)
      1
      []
    ≡ entries_of server 1 deposited.transactions deposited.entries
list_entries_complete_example =
    list_entries_complete server (asked_by "caller") "account" 42 1 deposited knows_caller refl owns
      1 (omega arith, (omega arith, tt)) (omega (arith, one_entry))

list_entries_truncated_example :
    list_entries server false
      (broken_after 0)
      (record (asked_by "caller") { cursor = [] })
      "account"
      deposited
    ≡ write_json (Body.entries (take 0 (page_of server 1 (read_cursor []) deposited)) [])
list_entries_truncated_example =
    list_entries_truncated server (asked_by "caller") "account" 42 1 deposited knows_caller refl
      owns 0 [] (omega arith)
