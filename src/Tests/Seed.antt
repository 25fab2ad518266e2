-- ===== src/Tests/Seed.antt =====
-- A process and a database to run the service on: the system accounts of
-- migrations/00001_initial.sql, and one user without funds.
use peikonpurekkusu_account.Prelude.{
  String, List, ◌+◌, if◌then◌else◌, [], Option, str_eq, ◌∷◌, ◌==◌, some, none, refl,
}
use peikonpurekkusu_account.Schema.{
  Uuid, Store, Runtime, Account, Balance, AccountType, liability, AccountStatus,
}
use peikonpurekkusu_account.Sql.Journal.{find_account, account_exists}
use peikonpurekkusu_account.Ledger.Books.{IsConsistent}
use peikonpurekkusu_account.Migrations.Books.{Untouched-IsConsistent}
use peikonpurekkusu_account.Migrations.{opening_balances, system_accounts}

-- Ids of the rows that the tests name.
abbrev pub spell : Uuid → String
spell id =
    if id == 1
    then "user"
    else if id == 7
    then "payment"
    else if id == 1000
    then "first"
    else if id == 1001
    then "second"
    else if id == 1002
    then "third"
    else "other"

abbrev pub parse : String → Option Uuid
parse s =
    if str_eq s "user"
    then some 1
    else if str_eq s "payment"
    then some 7
    else if str_eq s "first"
    then some 1000
    else if str_eq s "second"
    then some 1001
    else if str_eq s "third"
    then some 1002
    else none

abbrev pub process : Runtime
process = record {
  fresh = λ n. 1000 + n;
  uuid_string = spell;
  uuid_parse = parse;
  rfc3339 = λ t. "1970-01-01T00:00:00Z";
}

abbrev pub account : Uuid → Uuid → String → AccountType → Account
account id user currency type = record {
  id = id;
  user_id = user;
  currency = currency;
  type = type;
  status = AccountStatus.active;
  created_at = 0;
}

abbrev pub accounts : List Account
accounts = account 1 42 "USD" liability ∷ system_accounts 0

abbrev pub nothing_on : Uuid → Balance
nothing_on id = record { account_id = id; available = 0; held = 0; version = 0 }

abbrev pub balances : List Balance
balances = opening_balances accounts

abbrev pub seeded : Store
seeded = record {
  accounts = accounts;
  transactions = [];
  entries = [];
  balances = balances;
  holds = [];
  idempotency = [];
  outbox = [];
  processed_events = [];
  clock = 100;
  drawn = 0;
}

pub seeded-IsConsistent : IsConsistent seeded
unfolding find_account account_exists
seeded-IsConsistent = Untouched-IsConsistent seeded (
  (refl, (refl, (refl, (refl, (refl, (refl, (refl, (refl, (refl, tt))))))))),
  refl,
  refl,
  refl,
  ((_, refl, refl), (_, refl, refl), (_, refl, refl), (_, refl, refl)),
  ((_, refl, refl), (_, refl, refl), (_, refl, refl), (_, refl, refl)),
)
