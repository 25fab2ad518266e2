-- ===== src/Tests/Replies.antt =====
-- The theorems on error replies and on the event format at concrete inputs.
use peikonpurekkusu_account.Prelude.{refl, none, some, ◌≡◌}
use peikonpurekkusu_account.Ledger.Operations.{
  hold, capture, release, deposit, captured_payload, held_payload, released_payload, settle,
  write_remainder,
}
use peikonpurekkusu_account.Prelude.Int.{pos, ◌-ℤ◌, ◌+ℤ◌}
use peikonpurekkusu_account.Sql.Holds.{
  lock_hold, insert_hold, active_hold_of, find_hold, hold_error, hold_exists, update_hold_status,
  with_status,
}
use peikonpurekkusu_account.Sql.Balances.{
  lock_balance, bump_balance, adjust, goes_negative, overflows, row_error, rows_affected,
  rows_error, find_balance,
}
use peikonpurekkusu_account.Ledger.Posting.{
  settlement_account, merchant_payable_account, post, validate_balanced, all_zero, count_entries,
  count_entry, insert_entries, put_sum, sum_of,
}
use peikonpurekkusu_account.Prelude.Word.{sub64, wrap64, add64, neg64}
use peikonpurekkusu_account.Sql.Journal.{
  outbox_has, insert_transaction, insert_entry, write, account_exists, add_entry, amount_error,
  find_account, key_used, to_direction, transaction_error, transaction_exists,
}
use peikonpurekkusu_account.Ledger.Retry.{in_tx, attempts, begin_tx, retriable}
use peikonpurekkusu_account.Grpc.{
  map_err, failed_precondition, invalid_argument, status_error, HoldFundsRequest,
  CaptureFundsRequest, ReleaseFundsRequest, Codec, idempotent, replay, store, find_response,
  in_seconds, choose_ttl, hold_funds, hold_action, capture_funds, capture_action, release_funds,
  release_action,
}
use peikonpurekkusu_account.Grpc.Errors.{Unaffected}
use peikonpurekkusu_account.Grpc.Calls.{
  answer_call, map_reply, MoneyResponse, capture_call, answer_call-Unaffected,
}
use peikonpurekkusu_account.Prelude.{ap}
use peikonpurekkusu_account.Tests.Ledger.{quiet}
use peikonpurekkusu_account.Tests.Funds.{placed, settled, funded, ten_minutes}
use peikonpurekkusu_account.Tests.Seed.{process}

-- A request without an amount.
abbrev empty_hold : HoldFundsRequest
empty_hold = record {
  request_id = "r-4";
  account_id = "user";
  payment_id = "payment";
  amount = none;
  expires_in_seconds = pos 0;
}

abbrev no_codec : {R : Type 0} → Codec R
no_codec = record { marshal = λ r. none; unmarshal = λ body. none }

-- More than the account has.
abbrev large_hold : HoldFundsRequest
large_hold = record empty_hold {
  amount = some (record { minor_units = pos 900; currency_code = "USD" });
}

large_hold_fails :
    hold_funds process quiet no_codec ten_minutes large_hold funded
    ≡ (status_error failed_precondition, funded)
unfolding lock_hold lock_balance settlement_account merchant_payable_account post validate_balanced
    sub64 wrap64 ◌-ℤ◌ add64 ◌+ℤ◌ neg64 insert_transaction insert_entry bump_balance insert_hold
    write outbox_has capture release captured_payload deposit held_payload hold released_payload
    settle write_remainder all_zero count_entries count_entry insert_entries put_sum sum_of adjust
    goes_negative overflows row_error rows_affected rows_error active_hold_of find_hold find_balance
    hold_error hold_exists update_hold_status with_status account_exists add_entry amount_error
    find_account key_used to_direction transaction_error transaction_exists in_tx attempts begin_tx
    retriable map_err idempotent replay store find_response in_seconds choose_ttl hold_funds
    hold_action capture_funds capture_action release_funds release_action
large_hold_fails = refl

abbrev large_capture : CaptureFundsRequest
large_capture = record {
  request_id = "r-5";
  hold_id = "second";
  amount = some (record { minor_units = pos 201; currency_code = "USD" });
}

large_capture_fails :
    capture_funds process quiet no_codec large_capture placed
    ≡ (status_error invalid_argument, placed)
unfolding lock_hold lock_balance settlement_account merchant_payable_account post validate_balanced
    sub64 wrap64 ◌-ℤ◌ add64 ◌+ℤ◌ neg64 insert_transaction insert_entry bump_balance insert_hold
    write outbox_has capture release captured_payload deposit held_payload hold released_payload
    settle write_remainder all_zero count_entries count_entry insert_entries put_sum sum_of adjust
    goes_negative overflows row_error rows_affected rows_error active_hold_of find_hold find_balance
    hold_error hold_exists update_hold_status with_status account_exists add_entry amount_error
    find_account key_used to_direction transaction_error transaction_exists in_tx attempts begin_tx
    retriable map_err idempotent replay store find_response in_seconds choose_ttl hold_funds
    hold_action capture_funds capture_action release_funds release_action
large_capture_fails = refl

refuses_capture :
    answer_call process ten_minutes (capture_call no_codec large_capture) quiet placed
    ≡ (status_error invalid_argument, placed)
unfolding answer_call
refuses_capture = ap (map_reply MoneyResponse.captured) large_capture_fails

answer_call-Unaffected_example : Unaffected quiet placed placed
answer_call-Unaffected_example =
    answer_call-Unaffected process ten_minutes (capture_call no_codec large_capture) quiet placed
      placed invalid_argument refuses_capture

abbrev late_release : ReleaseFundsRequest
late_release = record { request_id = "r-6"; hold_id = "second"; reason = "" }

late_release_fails :
    release_funds process quiet no_codec late_release settled
    ≡ (status_error failed_precondition, settled)
unfolding lock_hold lock_balance settlement_account merchant_payable_account post validate_balanced
    sub64 wrap64 ◌-ℤ◌ add64 ◌+ℤ◌ neg64 insert_transaction insert_entry bump_balance insert_hold
    write outbox_has capture release captured_payload deposit held_payload hold released_payload
    settle write_remainder all_zero count_entries count_entry insert_entries put_sum sum_of adjust
    goes_negative overflows row_error rows_affected rows_error active_hold_of find_hold find_balance
    hold_error hold_exists update_hold_status with_status account_exists add_entry amount_error
    find_account key_used to_direction transaction_error transaction_exists in_tx attempts begin_tx
    retriable map_err idempotent replay store find_response in_seconds choose_ttl hold_funds
    hold_action capture_funds capture_action release_funds release_action
late_release_fails = refl
