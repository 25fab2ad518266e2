-- ===== src/Tests/Funds.antt =====
-- Runs of the ledger operations on the seeded database: a deposit, a hold, its capture in part,
-- and its release.
use peikonpurekkusu_account.Prelude.{ℕ, ◌≡◌, refl, some}
use peikonpurekkusu_account.Ledger.Operations.{
  HoldResult, hold, capture, deposit, release, captured_payload, held_payload, released_payload,
  settle, write_remainder,
}
use peikonpurekkusu_account.Tx.{Tx, ok, err}
use peikonpurekkusu_account.Prelude.Int.{ℤ, pos, ◌-ℤ◌, ◌+ℤ◌}
use peikonpurekkusu_account.Schema.{Store, Balance, HoldRecord, HoldStatus}
use peikonpurekkusu_account.Sql.Holds.{
  lock_hold, insert_hold, active_hold_of, find_hold, hold_error, hold_exists, update_hold_status,
  with_status,
}
use peikonpurekkusu_account.Sql.Balances.{
  lock_balance, bump_balance, adjust, goes_negative, overflows, row_error, rows_affected,
  rows_error, find_balance,
}
use peikonpurekkusu_account.Tests.Seed.{process, seeded}
use peikonpurekkusu_account.Ledger.Posting.{
  settlement_account, merchant_payable_account, post, validate_balanced, all_zero, count_entries,
  count_entry, insert_entries, put_sum, sum_of,
}
use peikonpurekkusu_account.Prelude.Word.{sub64, wrap64, add64, neg64}
use peikonpurekkusu_account.Sql.Journal.{
  outbox_has, insert_transaction, insert_entry, write, account_exists, add_entry, amount_error,
  find_account, key_used, to_direction, transaction_error, transaction_exists,
}

-- The store that a transaction leaves.
abbrev pub after : {A : Type 0} → Tx A → Store → Store
after m s = elim (m s) [ ok (a, t) ↦ t | err e ↦ s ]

abbrev pub funded : Store
funded = after (deposit process 1 (pos 500) "USD" "welcome:user") seeded

abbrev pub ten_minutes : ℤ
ten_minutes = pos 600000000000

abbrev pub placed : Store
placed = after (hold process 1 7 (pos 200) "USD" ten_minutes) funded

abbrev pub result : HoldResult
result = record {
  hold_id = 1001;
  status = HoldStatus.active;
  available_after = pos 300;
  currency = "USD";
}

abbrev pub settled : Store
settled = after (capture process 1001 (pos 150)) placed

abbrev pub freed : Store
freed = after (release process 1001 "compensation") placed

pub runs_deposit : deposit process 1 (pos 500) "USD" "welcome:user" seeded ≡ ok (tt, funded)
unfolding lock_hold lock_balance settlement_account merchant_payable_account post validate_balanced
    sub64 wrap64 ◌-ℤ◌ add64 ◌+ℤ◌ neg64 insert_transaction insert_entry bump_balance insert_hold
    write outbox_has capture release captured_payload deposit held_payload hold released_payload
    settle write_remainder all_zero count_entries count_entry insert_entries put_sum sum_of adjust
    goes_negative overflows row_error rows_affected rows_error active_hold_of find_hold find_balance
    hold_error hold_exists update_hold_status with_status account_exists add_entry amount_error
    find_account key_used to_direction transaction_error transaction_exists
runs_deposit = refl

pub runs_hold : hold process 1 7 (pos 200) "USD" ten_minutes funded ≡ ok (result, placed)
unfolding lock_hold lock_balance settlement_account merchant_payable_account post validate_balanced
    sub64 wrap64 ◌-ℤ◌ add64 ◌+ℤ◌ neg64 insert_transaction insert_entry bump_balance insert_hold
    write outbox_has capture release captured_payload deposit held_payload hold released_payload
    settle write_remainder all_zero count_entries count_entry insert_entries put_sum sum_of adjust
    goes_negative overflows row_error rows_affected rows_error active_hold_of find_hold find_balance
    hold_error hold_exists update_hold_status with_status account_exists add_entry amount_error
    find_account key_used to_direction transaction_error transaction_exists
runs_hold = refl

pub runs_capture : capture process 1001 (pos 150) placed ≡ ok (1003, settled)
unfolding lock_hold lock_balance settlement_account merchant_payable_account post validate_balanced
    sub64 wrap64 ◌-ℤ◌ add64 ◌+ℤ◌ neg64 insert_transaction insert_entry bump_balance insert_hold
    write outbox_has capture release captured_payload deposit held_payload hold released_payload
    settle write_remainder all_zero count_entries count_entry insert_entries put_sum sum_of adjust
    goes_negative overflows row_error rows_affected rows_error active_hold_of find_hold find_balance
    hold_error hold_exists update_hold_status with_status account_exists add_entry amount_error
    find_account key_used to_direction transaction_error transaction_exists
runs_capture = refl

pub runs_release : release process 1001 "compensation" placed ≡ ok (tt, freed)
unfolding lock_hold lock_balance settlement_account merchant_payable_account post validate_balanced
    sub64 wrap64 ◌-ℤ◌ add64 ◌+ℤ◌ neg64 insert_transaction insert_entry bump_balance insert_hold
    write outbox_has capture release captured_payload deposit held_payload hold released_payload
    settle write_remainder all_zero count_entries count_entry insert_entries put_sum sum_of adjust
    goes_negative overflows row_error rows_affected rows_error active_hold_of find_hold find_balance
    hold_error hold_exists update_hold_status with_status account_exists add_entry amount_error
    find_account key_used to_direction transaction_error transaction_exists
runs_release = refl

abbrev pub row : ℕ → ℕ → ℕ → ℕ → Balance
row id available held version = record {
  account_id = id;
  available = available;
  held = held;
  version = version;
}

pub funded_user : find_balance 1 funded.balances ≡ some (row 1 500 0 1)
unfolding lock_hold lock_balance settlement_account merchant_payable_account post validate_balanced
    sub64 wrap64 ◌-ℤ◌ add64 ◌+ℤ◌ neg64 insert_transaction insert_entry bump_balance insert_hold
    write outbox_has capture release captured_payload deposit held_payload hold released_payload
    settle write_remainder all_zero count_entries count_entry insert_entries put_sum sum_of adjust
    goes_negative overflows row_error rows_affected rows_error active_hold_of find_hold find_balance
    hold_error hold_exists update_hold_status with_status account_exists add_entry amount_error
    find_account key_used to_direction transaction_error transaction_exists
funded_user = refl

pub placed_user : find_balance 1 placed.balances ≡ some (row 1 300 200 2)
unfolding lock_hold lock_balance settlement_account merchant_payable_account post validate_balanced
    sub64 wrap64 ◌-ℤ◌ add64 ◌+ℤ◌ neg64 insert_transaction insert_entry bump_balance insert_hold
    write outbox_has capture release captured_payload deposit held_payload hold released_payload
    settle write_remainder all_zero count_entries count_entry insert_entries put_sum sum_of adjust
    goes_negative overflows row_error rows_affected rows_error active_hold_of find_hold find_balance
    hold_error hold_exists update_hold_status with_status account_exists add_entry amount_error
    find_account key_used to_direction transaction_error transaction_exists
placed_user = refl

pub placed_payable : find_balance 0xd001 placed.balances ≡ some (row 0xd001 0 0 0)
unfolding lock_hold lock_balance settlement_account merchant_payable_account post validate_balanced
    sub64 wrap64 ◌-ℤ◌ add64 ◌+ℤ◌ neg64 insert_transaction insert_entry bump_balance insert_hold
    write outbox_has capture release captured_payload deposit held_payload hold released_payload
    settle write_remainder all_zero count_entries count_entry insert_entries put_sum sum_of adjust
    goes_negative overflows row_error rows_affected rows_error active_hold_of find_hold find_balance
    hold_error hold_exists update_hold_status with_status account_exists add_entry amount_error
    find_account key_used to_direction transaction_error transaction_exists
placed_payable = refl

abbrev pub the_hold : HoldRecord
the_hold = record {
  id = 1001;
  account_id = 1;
  payment_id = 7;
  amount = 200;
  currency = "USD";
  status = HoldStatus.active;
  expires_at = 600000000100;
}

pub placed_hold : find_hold 1001 placed.holds ≡ some the_hold
unfolding lock_hold lock_balance settlement_account merchant_payable_account post validate_balanced
    sub64 wrap64 ◌-ℤ◌ add64 ◌+ℤ◌ neg64 insert_transaction insert_entry bump_balance insert_hold
    write outbox_has capture release captured_payload deposit held_payload hold released_payload
    settle write_remainder all_zero count_entries count_entry insert_entries put_sum sum_of adjust
    goes_negative overflows row_error rows_affected rows_error active_hold_of find_hold find_balance
    hold_error hold_exists update_hold_status with_status account_exists add_entry amount_error
    find_account key_used to_direction transaction_error transaction_exists
placed_hold = refl

-- A capture of 150 of the 200 returns 50.
settled_user : find_balance 1 settled.balances ≡ some (row 1 350 0 3)
unfolding lock_hold lock_balance settlement_account merchant_payable_account post validate_balanced
    sub64 wrap64 ◌-ℤ◌ add64 ◌+ℤ◌ neg64 insert_transaction insert_entry bump_balance insert_hold
    write outbox_has capture release captured_payload deposit held_payload hold released_payload
    settle write_remainder all_zero count_entries count_entry insert_entries put_sum sum_of adjust
    goes_negative overflows row_error rows_affected rows_error active_hold_of find_hold find_balance
    hold_error hold_exists update_hold_status with_status account_exists add_entry amount_error
    find_account key_used to_direction transaction_error transaction_exists
settled_user = refl
