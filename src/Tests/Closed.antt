-- ===== src/Tests/Closed.antt =====
-- A captured hold behind a later deposit.
use peikonpurekkusu_account.Prelude.{◌≡◌, refl, inl}
use peikonpurekkusu_account.Prelude.Int.{pos, ◌-ℤ◌, ◌+ℤ◌}
use peikonpurekkusu_account.Schema.{Store}
use peikonpurekkusu_account.Tx.{ok, err, hold_not_active}
use peikonpurekkusu_account.Ledger.Operations.{
  capture, release, deposit, captured_payload, held_payload, hold, released_payload, settle,
  write_remainder,
}
use peikonpurekkusu_account.Ledger.History.{Reach, here, next, deposited}
use peikonpurekkusu_account.Ledger.History.Closed.{Reach-refused}
use peikonpurekkusu_account.Tests.Seed.{process}
use peikonpurekkusu_account.Tests.Funds.{after, placed, settled, runs_capture}
use peikonpurekkusu_account.Tests.Ledger.{user-IsCreditNormal}
use peikonpurekkusu_account.Sql.Holds.{
  lock_hold, insert_hold, active_hold_of, find_hold, hold_error, hold_exists, update_hold_status,
  with_status,
}
use peikonpurekkusu_account.Sql.Balances.{
  lock_balance, bump_balance, adjust, goes_negative, overflows, row_error, rows_affected,
  rows_error, find_balance,
}
use peikonpurekkusu_account.Ledger.Posting.{
  settlement_account, merchant_payable_account, post, validate_balanced, all_zero, count_entries,
  count_entry, insert_entries, put_sum, sum_of,
}
use peikonpurekkusu_account.Prelude.Word.{sub64, wrap64, add64, neg64}
use peikonpurekkusu_account.Sql.Journal.{
  insert_transaction, insert_entry, write, outbox_has, account_exists, add_entry, amount_error,
  find_account, key_used, to_direction, transaction_error, transaction_exists,
}

abbrev topped : Store
topped = after (deposit process 1 (pos 70) "USD" "bonus") settled

runs_bonus : deposit process 1 (pos 70) "USD" "bonus" settled ≡ ok (tt, topped)
unfolding lock_hold lock_balance settlement_account merchant_payable_account post validate_balanced
    sub64 wrap64 ◌-ℤ◌ add64 ◌+ℤ◌ neg64 insert_transaction insert_entry bump_balance insert_hold
    write outbox_has capture release captured_payload deposit held_payload hold released_payload
    settle write_remainder all_zero count_entries count_entry insert_entries put_sum sum_of adjust
    goes_negative overflows row_error rows_affected rows_error active_hold_of find_hold find_balance
    hold_error hold_exists update_hold_status with_status account_exists add_entry amount_error
    find_account key_used to_direction transaction_error transaction_exists
runs_bonus = refl

bonus_history : Reach process settled topped
unfolding lock_hold lock_balance settlement_account merchant_payable_account post validate_balanced
    sub64 wrap64 ◌-ℤ◌ add64 ◌+ℤ◌ neg64 insert_transaction insert_entry bump_balance insert_hold
    write outbox_has capture release captured_payload deposit held_payload hold released_payload
    settle write_remainder all_zero count_entries count_entry insert_entries put_sum sum_of adjust
    goes_negative overflows row_error rows_affected rows_error active_hold_of find_hold find_balance
    hold_error hold_exists update_hold_status with_status account_exists add_entry amount_error
    find_account key_used to_direction transaction_error transaction_exists
bonus_history =
    next here (deposited 1 (pos 70) "USD" "bonus" (user-IsCreditNormal settled refl) runs_bonus)

Reach-refused_example :
    (capture process 1001 (pos 50) topped ≡ err hold_not_active)
    × (release process 1001 "expiry" topped ≡ err hold_not_active)
Reach-refused_example =
    Reach-refused process 1001 placed settled topped (inl (pos 150, 1003, runs_capture))
      bonus_history (pos 50) "expiry"
