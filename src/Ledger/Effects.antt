-- ===== src/Ledger/Effects.antt =====
-- What each operation leaves behind when it succeeds: inversion of the operations into the store
-- that they return.
use peikonpurekkusu_account.Prelude.{
  ⊤, ◌<>◌, ℕ, ◌+◌, ◌≡◌, String, str_eq, true, false, Option, none, some, List, ◌∷◌, arith,
  Option-cases, inl, inr,
}
use peikonpurekkusu_account.Prelude.Int.{ℤ, pos, ltb_ℤ, leb_ℤ}
use peikonpurekkusu_account.Prelude.Word.{sub64, neg64}
use peikonpurekkusu_account.Schema.{
  captured, LedgerEntry, TransactionKind, Direction, debit, credit, Uuid, Time, HoldRecord,
  HoldStatus, Account, Balance, Store, Runtime,
}
use peikonpurekkusu_account.Tx.{ok}
use peikonpurekkusu_account.Sql.Journal.{
  write, find_account, amount_error, to_amount, account_exists, transaction_error, insert_entry,
  insert_transaction, outbox_has,
}
use peikonpurekkusu_account.Sql.Balances.{
  BalanceRow, lock_balance, bump_balance, find_balance, adjust, rows_error, rows_affected,
}
use peikonpurekkusu_account.Sql.Holds.{
  is_active, insert_hold, lock_hold, update_hold_status, find_hold, hold_error, active_row,
  with_status,
}
use peikonpurekkusu_account.Prelude.Lists.{length}
use peikonpurekkusu_account.Ledger.Posting.{post, merchant_payable_account, settlement_account}
use peikonpurekkusu_account.Ledger.Operations.{
  HoldResult, hold, capture, deposit, deposit_entries, release, add_duration, released_status,
}

module _ (id : Uuid) (d_available d_held : ℤ) (s : Store) {t : Store} where
  pub bump_balance-eq-ok :
      bump_balance id d_available d_held s ≡ ok (tt, t)
      → (rows_error id d_available d_held s.balances ≡ none)
        × (rows_affected id s.balances ≡ 1)
        × (t ≡ record s { balances = adjust id d_available d_held s.balances })
  unfolding bump_balance
  bump_balance-eq-ok h = ground arith

pub lock_balance-eq-ok :
    (id : Uuid) (s : Store) {t : Store} {r : BalanceRow}
    → lock_balance id s ≡ ok (r, t)
    → (b : Balance) × (a : Account) × (find_balance id s.balances ≡ some b)
      × (find_account id s.accounts ≡ some a)
      × (r.available ≡ b.available)
      × (r.currency ≡ a.currency)
      × (t ≡ s)
unfolding lock_balance
lock_balance-eq-ok id s h = ground arith

module _ (id account payment : Uuid) (amount : ℤ) (currency : String) (expires_at : Time)
    (s : Store) {t : Store} where
  pub insert_hold-eq-ok :
      insert_hold id account payment amount currency expires_at s ≡ ok (tt, t)
      → (hold_error id account payment amount s ≡ none)
        × (t ≡ record s {
          holds = active_row id account payment amount currency expires_at ∷ s.holds;
        })
  unfolding insert_hold
  insert_hold-eq-ok h = ground arith

-- The parts of the store that `write` and `new_uuid` leave alone.
pub record SameMoney (s t : Store) : Type 0 where
  pub accounts : t.accounts ≡ s.accounts
  pub transactions : t.transactions ≡ s.transactions
  pub entries : t.entries ≡ s.entries
  pub balances : t.balances ≡ s.balances
  pub holds : t.holds ≡ s.holds

-- The facts behind a hold that succeeded, `b` and `a` being the balance and the account.
pub record HoldDone (x : Runtime) (account payment : Uuid) (amount : ℤ) (currency : String)
    (ttl : ℤ) (s : Store) (r : HoldResult) (t : Store) (b : Balance) (a : Account) : Type 0 where
  pub balance : find_balance account s.balances ≡ some b
  pub account_found : find_account account s.accounts ≡ some a
  pub same_currency : str_eq a.currency currency ≡ true
  pub enough : ltb_ℤ (pos b.available) amount ≡ false
  pub inserts : hold_error (x.fresh s.drawn) account payment amount s ≡ none
  pub adjusts : rows_error account (neg64 amount) amount s.balances ≡ none
  pub result : r ≡ record {
    hold_id = x.fresh s.drawn;
    status = HoldStatus.active;
    available_after = sub64 (pos b.available) amount;
    currency = currency;
  }
  pub accounts : t.accounts ≡ s.accounts
  pub entries : t.entries ≡ s.entries
  pub transactions : t.transactions ≡ s.transactions
  pub balances : t.balances ≡ adjust account (neg64 amount) amount s.balances
  pub holds :
      t.holds
      ≡ active_row (x.fresh s.drawn) account payment amount currency (add_duration s.clock ttl)
        ∷ s.holds
  pub processed : t.processed_events ≡ s.processed_events
  pub responses : t.idempotency ≡ s.idempotency
  pub new_row : outbox_has (x.fresh (s.drawn + 1)) s.outbox ≡ false

module _ (x : Runtime) (account payment : Uuid) (amount : ℤ) (currency : String) (ttl : ℤ)
    (s : Store) where
  pub hold-eq-ok :
      {r : HoldResult} {t : Store}
      → hold x account payment amount currency ttl s ≡ ok (r, t)
      → (b : Balance) × (a : Account) × HoldDone x account payment amount currency ttl s r t b a
  unfolding hold write lock_balance insert_hold bump_balance
  hold-eq-ok h = elim (Option-cases (find_balance account s.balances)) [
    | inl e ↦ absurd (ground arith)
    | inr (b, eb) ↦ elim (Option-cases (find_account account s.accounts)) [
      | inl e ↦ absurd (ground arith)
      | inr (a, ea) ↦ (b, a, ground arith)
    ]
  ]

-- The facts behind a release that succeeded, `h` being the hold.
pub record ReleaseDone (x : Runtime) (id : Uuid) (reason : String) (s t : Store) (h : HoldRecord)
    : Type 0 where
  pub found : find_hold id s.holds ≡ some h
  pub was_active : is_active h.status ≡ true
  pub adjusts : rows_error h.account_id (pos h.amount) (neg64 (pos h.amount)) s.balances ≡ none
  pub accounts : t.accounts ≡ s.accounts
  pub entries : t.entries ≡ s.entries
  pub transactions : t.transactions ≡ s.transactions
  pub balances : t.balances ≡ adjust h.account_id (pos h.amount) (neg64 (pos h.amount)) s.balances
  pub holds : t.holds ≡ with_status id (released_status reason) s.holds
  pub processed : t.processed_events ≡ s.processed_events
  pub responses : t.idempotency ≡ s.idempotency

module _ (x : Runtime) (id : Uuid) (reason : String) (s : Store) where
  pub release-eq-ok :
      {t : Store} {u : ⊤}
      → release x id reason s ≡ ok (u, t)
      → (h : HoldRecord) × ReleaseDone x id reason s t h
  unfolding release write lock_hold update_hold_status bump_balance
  release-eq-ok e = elim (Option-cases (find_hold id s.holds)) [
    | inl absent ↦ absurd (ground arith)
    | inr (h, eh) ↦ (h, ground arith)
  ]

-- The entry that a leg of a posting becomes.
abbrev pub entry_row : Uuid → Uuid → Direction → ℕ → String → Store → List LedgerEntry → LedgerEntry
entry_row txn account direction amount currency s entries = record {
  id = length entries + 1;
  transaction_id = txn;
  account_id = account;
  direction = direction;
  amount = amount;
  currency = currency;
  created_at = s.clock;
}

abbrev pub two_legs : Uuid → Uuid → Uuid → ℕ → String → Store → List LedgerEntry
two_legs txn from to amount currency s =
    let first = entry_row txn from debit amount currency s s.entries ∷ s.entries in
    entry_row txn to credit amount currency s first ∷ first

-- `post` of a debit and a credit of one amount in one currency.
pub record PostDone (txn : Uuid) (kind : TransactionKind) (payment : Option Uuid)
    (key : Option String) (from to : Uuid) (amount : ℤ) (currency : String) (s t : Store)
    : Type 0 where
  pub accepted : amount_error amount ≡ none
  pub from_exists : account_exists from s.accounts ≡ true
  pub to_exists : account_exists to s.accounts ≡ true
  pub new_transaction : transaction_error txn key s.transactions ≡ none
  pub result : t ≡ record s {
    transactions =
        record { id = txn; idempotency_key = key; kind = kind; payment_id = payment }
        ∷ s.transactions;
    entries = two_legs txn from to (to_amount amount) currency s;
  }

module _ (txn : Uuid) (kind : TransactionKind) (payment : Option Uuid) (key : Option String)
    (from to : Uuid) (amount : ℤ) (currency : String) (s : Store) where
  pub post-eq-ok :
      {t : Store} {u : ⊤}
      → post txn kind payment key (deposit_entries from to amount currency) s ≡ ok (u, t)
      → PostDone txn kind payment key from to amount currency s t
  unfolding post insert_transaction insert_entry
  post-eq-ok e = ground arith

-- The facts behind a capture that succeeded, `h` being the hold and `p` the payable account.
pub record CaptureDone (x : Runtime) (id : Uuid) (amount : ℤ) (s : Store) (txn : Uuid) (t : Store)
    (h : HoldRecord) (p : Uuid) : Type 0 where
  pub found : find_hold id s.holds ≡ some h
  pub was_active : is_active h.status ≡ true
  pub positive : leb_ℤ amount (pos 0) ≡ false
  pub covered : ltb_ℤ (pos h.amount) amount ≡ false
  pub payable : merchant_payable_account h.currency ≡ some p
  pub txn_drawn : txn ≡ x.fresh s.drawn
  pub accepted : amount_error amount ≡ none
  pub payer_exists : account_exists h.account_id s.accounts ≡ true
  pub payable_exists : account_exists p s.accounts ≡ true
  pub new_transaction :
      transaction_error txn (some ("capture:" <> x.uuid_string id)) s.transactions ≡ none
  pub payer_adjusts :
      rows_error h.account_id (sub64 (pos h.amount) amount) (neg64 (pos h.amount)) s.balances ≡ none
  pub payable_adjusts :
      rows_error p amount
        (pos 0)
        (adjust h.account_id (sub64 (pos h.amount) amount) (neg64 (pos h.amount)) s.balances)
      ≡ none
  pub accounts : t.accounts ≡ s.accounts
  pub transactions :
      t.transactions
      ≡ record {
        id = txn;
        idempotency_key = some ("capture:" <> x.uuid_string id);
        kind = TransactionKind.capture;
        payment_id = some h.payment_id;
      }
        ∷ s.transactions
  pub entries : t.entries ≡ two_legs txn h.account_id p (to_amount amount) h.currency s
  pub balances :
      t.balances
      ≡ adjust p amount
          (pos 0)
          (adjust h.account_id (sub64 (pos h.amount) amount) (neg64 (pos h.amount)) s.balances)
  pub holds : t.holds ≡ with_status id captured s.holds
  pub processed : t.processed_events ≡ s.processed_events
  pub responses : t.idempotency ≡ s.idempotency

module _ (x : Runtime) (id : Uuid) (amount : ℤ) (s : Store) where
  pub capture-eq-ok :
      {t : Store} {txn : Uuid}
      → capture x id amount s ≡ ok (txn, t)
      → (h : HoldRecord) × (p : Uuid) × CaptureDone x id amount s txn t h p
  unfolding capture write lock_hold update_hold_status bump_balance post insert_transaction
      insert_entry
  capture-eq-ok e = elim (Option-cases (find_hold id s.holds)) [
    | inl absent ↦ absurd (ground arith)
    | inr (h, eh) ↦ elim (Option-cases (merchant_payable_account h.currency)) [
      | inl none_payable ↦ absurd (ground arith)
      | inr (p, ep) ↦ (h, p, ground arith)
    ]
  ]

-- The facts behind a deposit that succeeded, `f` being the settlement account.
pub record DepositDone (x : Runtime) (account : Uuid) (amount : ℤ) (currency key : String)
    (s t : Store) (f : Uuid) : Type 0 where
  pub settlement : settlement_account currency ≡ some f
  pub accepted : amount_error amount ≡ none
  pub settlement_exists : account_exists f s.accounts ≡ true
  pub account_found : account_exists account s.accounts ≡ true
  pub new_transaction : transaction_error (x.fresh s.drawn) (some key) s.transactions ≡ none
  pub settlement_adjusts : rows_error f amount (pos 0) s.balances ≡ none
  pub account_adjusts :
      rows_error account amount (pos 0) (adjust f amount (pos 0) s.balances) ≡ none
  pub accounts : t.accounts ≡ s.accounts
  pub transactions :
      t.transactions
      ≡ record {
        id = x.fresh s.drawn;
        idempotency_key = some key;
        kind = TransactionKind.deposit;
        payment_id = none;
      }
        ∷ s.transactions
  pub entries : t.entries ≡ two_legs (x.fresh s.drawn) f account (to_amount amount) currency s
  pub balances : t.balances ≡ adjust account amount (pos 0) (adjust f amount (pos 0) s.balances)
  pub holds : t.holds ≡ s.holds
  pub processed : t.processed_events ≡ s.processed_events
  pub responses : t.idempotency ≡ s.idempotency

module _ (x : Runtime) (account : Uuid) (amount : ℤ) (currency key : String) (s : Store) where
  pub deposit-eq-ok :
      {t : Store} {u : ⊤}
      → deposit x account amount currency key s ≡ ok (u, t)
      → (f : Uuid) × DepositDone x account amount currency key s t f
  unfolding deposit bump_balance post insert_transaction insert_entry
  deposit-eq-ok e = elim (Option-cases (settlement_account currency)) [
    | inl absent ↦ absurd (ground arith)
    | inr (f, ef) ↦ (f, ground arith)
  ]
