-- ===== src/Schema.antt =====
-- The tables of migrations/00001_initial.sql as records, and the database as one value.
-- A column with a CHECK on its sign holds a natural number, and a column with a CHECK on a list
-- of words holds a data type; the statements of Sql refuse what the CHECK refuses. Tables are
-- lists with the newest row first. Times are numbers, and ids are numbers that are only compared.
use peikonpurekkusu_account.Prelude.{ℕ, String, Option, List}
use peikonpurekkusu_account.Prelude.Int.{ℤ}

abbrev pub Uuid : Type 0
Uuid = ℕ

abbrev pub Time : Type 0
Time = ℕ

abbrev pub Bytes : Type 0
Bytes = List ℕ

pub data AccountType : Type 0 where
  asset liability revenue expense equity : AccountType

pub data AccountStatus : Type 0 where
  active frozen closed : AccountStatus

pub record Account : Type 0 where
  pub id : Uuid
  pub user_id : Uuid
  pub currency : String
  pub type : AccountType
  pub status : AccountStatus
  pub created_at : Time

pub data TransactionKind : Type 0 where
  deposit capture release_adjust reversal seed : TransactionKind

pub record LedgerTransaction : Type 0 where
  pub id : Uuid
  pub idempotency_key : Option String
  pub kind : TransactionKind
  pub payment_id : Option Uuid

pub data Direction : Type 0 where
  debit credit : Direction

pub record LedgerEntry : Type 0 where
  pub id : ℕ
  pub transaction_id : Uuid
  pub account_id : Uuid
  pub direction : Direction
  pub amount : ℕ
  pub currency : String
  pub created_at : Time

pub record Balance : Type 0 where
  pub account_id : Uuid
  pub available : ℕ
  pub held : ℕ
  pub version : ℕ

pub data HoldStatus : Type 0 where
  active captured released expired : HoldStatus

pub record HoldRecord : Type 0 where
  pub id : Uuid
  pub account_id : Uuid
  pub payment_id : Uuid
  pub amount : ℕ
  pub currency : String
  pub status : HoldStatus
  pub expires_at : Time

pub record StoredResponse : Type 0 where
  pub request_id : String
  pub method : String
  pub response : Bytes

-- The values of a `map[string]any` payload: the texts and integers that the service writes, and a
-- number as `encoding/json` reads it back, a float64 given by its bits.
pub data Value : Type 0 where
  text : String → Value
  number : ℤ → Value
  float : ℕ → Value

-- A payload, by its keys; the first entry of a key counts.
abbrev pub Payload : Type 0
Payload = List (String × Value)

pub record OutboxRow : Type 0 where
  pub id : Uuid
  pub aggregatetype : String
  pub aggregateid : String
  pub type : String
  pub payload : Payload
  pub created_at : Time
  pub processed_at : Option Time

-- The database, with the clock at which a transaction runs and the count of the random ids that
-- the process has drawn.
pub record Store : Type 0 where
  pub accounts : List Account
  pub transactions : List LedgerTransaction
  pub entries : List LedgerEntry
  pub balances : List Balance
  pub holds : List HoldRecord
  pub idempotency : List StoredResponse
  pub outbox : List OutboxRow
  pub processed_events : List Uuid
  pub clock : Time
  pub drawn : ℕ

-- What the process takes from libraries: random ids (github.com/google/uuid), their text form and
-- its parser, and the RFC 3339 form of a time. `fresh n` is the n-th id drawn.
pub record Runtime : Type 0 where
  pub fresh : ℕ → Uuid
  pub uuid_string : Uuid → String
  pub uuid_parse : String → Option Uuid
  pub rfc3339 : Time → String
