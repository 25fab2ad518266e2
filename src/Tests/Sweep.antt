-- ===== src/Tests/Sweep.antt =====
-- A sweep behind the expiry of the one hold.
use peikonpurekkusu_account.Prelude.{Bool, false, ◌≡◌, refl, some, if◌then◌else◌, arith}
use peikonpurekkusu_account.Ledger.Operations.Sweeping.{due_count, is_due, sweep-due_count}
use peikonpurekkusu_account.Schema.{Uuid, Store, HoldStatus}
use peikonpurekkusu_account.Sql.Holds.{
  lock_hold, find_hold, insert_hold, active_hold_of, hold_error, hold_exists, update_hold_status,
  with_status,
}
use peikonpurekkusu_account.Ledger.Operations.{
  sweep, release_all, capture, release, captured_payload, deposit, held_payload, hold,
  released_payload, settle, write_remainder,
}
use peikonpurekkusu_account.Sql.Balances.{
  lock_balance, bump_balance, adjust, goes_negative, overflows, row_error, rows_affected,
  rows_error, find_balance,
}
use peikonpurekkusu_account.Tests.Funds.{placed, after, the_hold}
use peikonpurekkusu_account.Ledger.Posting.{
  settlement_account, merchant_payable_account, post, validate_balanced, all_zero, count_entries,
  count_entry, insert_entries, put_sum, sum_of,
}
use peikonpurekkusu_account.Tests.Seed.{process}
use peikonpurekkusu_account.Prelude.Word.{sub64, wrap64, add64, neg64}
use peikonpurekkusu_account.Prelude.Int.{◌-ℤ◌, ◌+ℤ◌}
use peikonpurekkusu_account.Sql.Journal.{
  outbox_has, insert_transaction, insert_entry, write, account_exists, add_entry, amount_error,
  find_account, key_used, to_direction, transaction_error, transaction_exists,
}
use peikonpurekkusu_account.Tx.{ok}
use peikonpurekkusu_account.Sql.Holds.Laws.{UniqueIds}

abbrev late : Store
late = record placed { clock = 10000000000000 }

abbrev unlocked : Uuid → Bool
unlocked id = false

abbrev swept : Store
swept = after (sweep process unlocked) late

runs_sweep : sweep process unlocked late ≡ ok (1, swept)
unfolding sweep release_all lock_hold lock_balance settlement_account merchant_payable_account post
    validate_balanced sub64 wrap64 ◌-ℤ◌ add64 ◌+ℤ◌ neg64 insert_transaction insert_entry
    bump_balance insert_hold write outbox_has capture release captured_payload deposit held_payload
    hold released_payload settle write_remainder all_zero count_entries count_entry insert_entries
    put_sum sum_of adjust goes_negative overflows row_error rows_affected rows_error active_hold_of
    find_hold find_balance hold_error hold_exists update_hold_status with_status account_exists
    add_entry amount_error find_account key_used to_direction transaction_error transaction_exists
runs_sweep = refl

one_due : due_count unlocked late.clock late.holds ≡ 1
unfolding due_count lock_hold lock_balance settlement_account merchant_payable_account post
    validate_balanced sub64 wrap64 ◌-ℤ◌ add64 ◌+ℤ◌ neg64 insert_transaction insert_entry
    bump_balance insert_hold write outbox_has capture release captured_payload deposit held_payload
    hold released_payload settle write_remainder all_zero count_entries count_entry insert_entries
    put_sum sum_of adjust goes_negative overflows row_error rows_affected rows_error active_hold_of
    find_hold find_balance hold_error hold_exists update_hold_status with_status account_exists
    add_entry amount_error find_account key_used to_direction transaction_error transaction_exists
one_due = refl

late_hold : find_hold 1001 late.holds ≡ some the_hold
unfolding lock_hold lock_balance settlement_account merchant_payable_account post validate_balanced
    sub64 wrap64 ◌-ℤ◌ add64 ◌+ℤ◌ neg64 insert_transaction insert_entry bump_balance insert_hold
    write outbox_has capture release captured_payload deposit held_payload hold released_payload
    settle write_remainder all_zero count_entries count_entry insert_entries put_sum sum_of adjust
    goes_negative overflows row_error rows_affected rows_error active_hold_of find_hold find_balance
    hold_error hold_exists update_hold_status with_status account_exists add_entry amount_error
    find_account key_used to_direction transaction_error transaction_exists
late_hold = refl

distinct : UniqueIds late.holds
unfolding lock_hold lock_balance settlement_account merchant_payable_account post validate_balanced
    sub64 wrap64 ◌-ℤ◌ add64 ◌+ℤ◌ neg64 insert_transaction insert_entry bump_balance insert_hold
    write outbox_has capture release captured_payload deposit held_payload hold released_payload
    settle write_remainder all_zero count_entries count_entry insert_entries put_sum sum_of adjust
    goes_negative overflows row_error rows_affected rows_error active_hold_of find_hold find_balance
    hold_error hold_exists update_hold_status with_status account_exists add_entry amount_error
    find_account key_used to_direction transaction_error transaction_exists
distinct = (refl, tt)

sweep-due_count_example :
    (1 ≡ due_count unlocked late.clock late.holds)
    × (find_hold 1001 swept.holds
        ≡ some (
            if is_due unlocked late.clock the_hold
            then record the_hold { status = HoldStatus.expired }
            else the_hold))
sweep-due_count_example =
    sweep-due_count process unlocked 1 late swept 1001 the_hold distinct (omega (arith, one_due))
      runs_sweep late_hold
