-- ===== src/Tests/Drift.antt =====
-- A reconciliation of books in which one balance is wrong.
use peikonpurekkusu_account.Prelude.{◌≡◌, refl, true, false, [], ◌∷◌}
use peikonpurekkusu_account.Schema.{Store}
use peikonpurekkusu_account.Sql.Fetch.{whole}
use peikonpurekkusu_account.Ledger.Reconcile.{
  reconcile, query_row, debits, credits, active_held, query_rows, reconcile_rows, drifts, scans,
  expected_available, same_int,
}
use peikonpurekkusu_account.Ledger.Reconcile.Exact.{
  reconcile-count, rows_in_range, rows_in_range-RowsInRange,
}
use peikonpurekkusu_account.Ledger.Reconcile.Expected.{expected_report}
use peikonpurekkusu_account.Tests.Funds.{placed, row}
use peikonpurekkusu_account.Sql.Holds.{
  lock_hold, insert_hold, active_hold_of, find_hold, hold_error, hold_exists, update_hold_status,
  with_status,
}
use peikonpurekkusu_account.Sql.Balances.{
  lock_balance, bump_balance, adjust, goes_negative, overflows, row_error, rows_affected,
  rows_error, find_balance,
}
use peikonpurekkusu_account.Ledger.Posting.{
  settlement_account, merchant_payable_account, post, validate_balanced, all_zero, count_entries,
  count_entry, insert_entries, put_sum, sum_of,
}
use peikonpurekkusu_account.Prelude.Word.{sub64, wrap64, add64, neg64}
use peikonpurekkusu_account.Prelude.Int.{◌-ℤ◌, ◌+ℤ◌}
use peikonpurekkusu_account.Sql.Journal.{
  insert_transaction, insert_entry, write, outbox_has, account_exists, add_entry, amount_error,
  find_account, key_used, to_direction, transaction_error, transaction_exists,
}
use peikonpurekkusu_account.Ledger.Operations.{
  capture, release, deposit, captured_payload, held_payload, hold, released_payload, settle,
  write_remainder,
}

-- The account has one unit more than the journal says.
abbrev off : Store
off = record placed { balances = row 1 301 200 2 ∷ [] }

off_rows : rows_in_range off off.accounts ≡ true
unfolding lock_hold lock_balance settlement_account merchant_payable_account post validate_balanced
    sub64 wrap64 ◌-ℤ◌ add64 ◌+ℤ◌ neg64 insert_transaction insert_entry bump_balance insert_hold
    write outbox_has capture release captured_payload deposit held_payload hold released_payload
    settle write_remainder all_zero count_entries count_entry insert_entries put_sum sum_of adjust
    goes_negative overflows row_error rows_affected rows_error active_hold_of find_hold find_balance
    hold_error hold_exists update_hold_status with_status account_exists add_entry amount_error
    find_account key_used to_direction transaction_error transaction_exists rows_in_range query_row
    debits credits active_held
off_rows = refl

reports_one : reconcile whole off ≡ record { drifted = 1; failed = false }
unfolding lock_hold lock_balance settlement_account merchant_payable_account post validate_balanced
    sub64 wrap64 ◌-ℤ◌ add64 ◌+ℤ◌ neg64 insert_transaction insert_entry bump_balance insert_hold
    write outbox_has capture release captured_payload deposit held_payload hold released_payload
    settle write_remainder all_zero count_entries count_entry insert_entries put_sum sum_of adjust
    goes_negative overflows row_error rows_affected rows_error active_hold_of find_hold find_balance
    hold_error hold_exists update_hold_status with_status account_exists add_entry amount_error
    find_account key_used to_direction transaction_error transaction_exists reconcile query_rows
    query_row debits credits active_held reconcile_rows drifts scans expected_available same_int
reports_one = refl

reconcile-count_example : reconcile whole off ≡ expected_report whole off
reconcile-count_example =
    reconcile-count whole off (rows_in_range-RowsInRange off off.accounts off_rows)
