-- ===== src/Migrations.antt =====
-- migrations/00001_initial.sql: the rows that the first migration inserts, and the triggers that
-- keep the journal. The tables are those of Schema.
pub mod Books
pub mod Immutable
use peikonpurekkusu_account.Prelude.{String, List, [], ◌∷◌}
use peikonpurekkusu_account.Schema.{
  Uuid, Store, Account, Balance, AccountType, Time, AccountStatus, asset, liability,
}

-- A counterparty for deposits and captures, of the user with the nil id.
abbrev pub system_account : Time → Uuid → String → AccountType → Account
system_account now id currency type = record {
  id = id;
  user_id = 0;
  currency = currency;
  type = type;
  status = AccountStatus.active;
  created_at = now;
}

abbrev pub system_accounts : Time → List Account
system_accounts now =
    system_account now 0xc001 "USD" asset
    ∷ system_account now 0xc002 "EUR" asset
    ∷ system_account now 0xc003 "GBP" asset
    ∷ system_account now 0xc004 "JPY" asset
    ∷ system_account now 0xd001 "USD" liability
    ∷ system_account now 0xd002 "EUR" liability
    ∷ system_account now 0xd003 "GBP" liability
    ∷ system_account now 0xd004 "JPY" liability
    ∷ []

-- `insert into account_balances (account_id) select id from accounts`, with the columns' defaults
abbrev pub opening_balances : List Account → List Balance
opening_balances [] = []
opening_balances (a ∷ accounts) =
    record { account_id = a.id; available = 0; held = 0; version = 0 } ∷ opening_balances accounts

-- A database that the migration has just been applied to, at a time.
unfoldable pub migrated : Time → Store
migrated now = record {
  accounts = system_accounts now;
  transactions = [];
  entries = [];
  balances = opening_balances (system_accounts now);
  holds = [];
  idempotency = [];
  outbox = [];
  processed_events = [];
  clock = now;
  drawn = 0;
}
