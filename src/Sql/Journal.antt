-- ===== src/Sql/Journal.antt =====
-- The statements on accounts, ledger_transactions, ledger_entries and outbox
-- (internal/ledger/ledger.go, internal/outbox/outbox.go, internal/consumer/consumer.go).
use peikonpurekkusu_account.Prelude.{
  ⊤, ℕ, ◌+◌, String, str_eq, Bool, true, false, ◌||◌, Option, none, some, List, [], ◌∷◌, ◌==◌, leb,
  if◌then◌else◌,
}
use peikonpurekkusu_account.Prelude.Int.{ℤ, pos, negsuc}
use peikonpurekkusu_account.Prelude.Word.{max_int64}
use peikonpurekkusu_account.Prelude.Lists.{length}
use peikonpurekkusu_account.Schema.{
  Uuid, Account, LedgerTransaction, TransactionKind, Direction, debit, credit, Payload, Store,
  Runtime, OutboxRow,
}
use peikonpurekkusu_account.Tx.{
  SqlState, unique_violation, check_violation, foreign_key_violation, numeric_out_of_range, Tx,
  raise, pg, check, gets, modify, new_uuid, ◌>>=◌, ◌>>◌,
}

unfoldable pub find_account : Uuid → List Account → Option Account
find_account id [] = none
find_account id (a ∷ rest) = if a.id == id then some a else find_account id rest

unfoldable pub account_exists : Uuid → List Account → Bool
unfolding find_account
account_exists id accounts = elim (find_account id accounts) [ none ↦ false | some _ ↦ true ]

-- The column `amount bigint check (amount > 0)`.
unfoldable pub amount_error : ℤ → Option SqlState
amount_error (pos n) =
    if leb n 0
    then some check_violation
    else if leb n max_int64
    then none
    else some numeric_out_of_range
amount_error (negsuc n) = some check_violation

abbrev pub to_amount : ℤ → ℕ
to_amount (pos n) = n
to_amount (negsuc n) = 0

unfoldable pub transaction_exists : Uuid → List LedgerTransaction → Bool
transaction_exists id [] = false
transaction_exists id (t ∷ rest) = t.id == id || transaction_exists id rest

abbrev pub same_key : String → Option String → Bool
same_key key none = false
same_key key (some other_key) = str_eq other_key key

unfoldable pub key_used : String → List LedgerTransaction → Bool
key_used key [] = false
key_used key (t ∷ rest) = same_key key t.idempotency_key || key_used key rest

-- The unique constraints of ledger_transactions; null keys never clash.
unfoldable pub transaction_error : Uuid → Option String → List LedgerTransaction → Option SqlState
unfolding transaction_exists key_used
transaction_error id none rows = if transaction_exists id rows then some unique_violation else none
transaction_error id (some key) rows =
    if transaction_exists id rows || key_used key rows then some unique_violation else none

unfoldable pub insert_transaction : Uuid → Option String → TransactionKind → Option Uuid → Tx ⊤
unfolding transaction_error
insert_transaction id key kind payment = do
  rows ← gets (λ s. s.transactions)
  check (transaction_error id key rows)
  modify (λ s. record s {
    transactions =
        record { id = id; idempotency_key = key; kind = kind; payment_id = payment } ∷ rows;
  })

-- The column `direction text check (direction in ('debit','credit'))`.
unfoldable pub to_direction : String → Option Direction
to_direction d =
    if str_eq d "debit" then some debit else if str_eq d "credit" then some credit else none

unfoldable pub add_entry : Uuid → Uuid → Direction → ℕ → String → Store → Store
add_entry txn account direction amount currency s = record s {
  entries =
      record {
        id = length s.entries + 1;
        transaction_id = txn;
        account_id = account;
        direction = direction;
        amount = amount;
        currency = currency;
        created_at = s.clock;
      }
      ∷ s.entries;
}

unfoldable pub insert_entry : Uuid → Uuid → String → ℤ → String → Tx ⊤
unfolding amount_error account_exists to_direction add_entry
insert_entry txn account direction amount currency s = elim (to_direction direction) [
  | none ↦ raise (pg check_violation) s
  | some d ↦
      (do
        check (amount_error amount)
        check (if account_exists account s.accounts then none else some foreign_key_violation)
        modify (add_entry txn account d (to_amount amount) currency))
        s
]

-- `Writer.Write`; marshalling a map of texts and integers cannot fail.
-- The primary key of the outbox.
unfoldable pub outbox_has : Uuid → List OutboxRow → Bool
outbox_has id [] = false
outbox_has id (r ∷ rest) = r.id == id || outbox_has id rest

unfoldable pub write : Runtime → String → String → String → Payload → Tx ⊤
write x topic aggregate_type aggregate_id payload = do
  id ← new_uuid x
  taken ← gets (λ s. outbox_has id s.outbox)
  check (if taken then some unique_violation else none)
  modify (λ s. record s {
    outbox =
        record {
          id = id;
          aggregatetype = aggregate_type;
          aggregateid = aggregate_id;
          type = topic;
          payload = payload;
          created_at = s.clock;
          processed_at = none;
        }
        ∷ s.outbox;
  })
