-- ===== src/Tests/Events.antt =====
-- The idempotency gate at the registration of a user.
use peikonpurekkusu_account.Prelude.{◌≡◌, ◌∷◌, [], refl}
use peikonpurekkusu_account.Ledger.Operations.{
  hold, capture, deposit, release, captured_payload, held_payload, released_payload, settle,
  write_remainder,
}
use peikonpurekkusu_account.Tx.{ok}
use peikonpurekkusu_account.Prelude.Int.{pos, ◌-ℤ◌, ◌+ℤ◌}
use peikonpurekkusu_account.Schema.{Store, text}
use peikonpurekkusu_account.Sql.Holds.{
  lock_hold, insert_hold, active_hold_of, find_hold, hold_error, hold_exists, update_hold_status,
  with_status,
}
use peikonpurekkusu_account.Sql.Balances.{
  lock_balance, bump_balance, adjust, goes_negative, overflows, row_error, rows_affected,
  rows_error, find_balance,
}
use peikonpurekkusu_account.Tests.Seed.{process, seeded}
use peikonpurekkusu_account.Ledger.Posting.{
  settlement_account, merchant_payable_account, post, validate_balanced, all_zero, count_entries,
  count_entry, insert_entries, put_sum, sum_of,
}
use peikonpurekkusu_account.Prelude.Word.{sub64, wrap64, add64, neg64}
use peikonpurekkusu_account.Sql.Journal.{
  outbox_has, insert_transaction, insert_entry, write, account_exists, add_entry, amount_error,
  find_account, key_used, to_direction, transaction_error, transaction_exists,
}
use peikonpurekkusu_account.Consumer.Handlers.{
  handle_event, dispatch, on_user_registered, topic_registered, provision, payload_text,
  insert_account, insert_balance, seen,
}
use peikonpurekkusu_account.Events.Framing.{Envelope, new_envelope}
use peikonpurekkusu_account.Tests.Funds.{after}

abbrev pub registration : Envelope
registration = new_envelope "e-2" topic_registered "c-2" 0 (("user_id", text "user") ∷ [])

abbrev pub registered : Store
registered = after (handle_event process (pos 700) 55 registration) seeded

pub runs_registration : handle_event process (pos 700) 55 registration seeded ≡ ok (tt, registered)
unfolding lock_hold lock_balance settlement_account merchant_payable_account post validate_balanced
    sub64 wrap64 ◌-ℤ◌ add64 ◌+ℤ◌ neg64 insert_transaction insert_entry bump_balance insert_hold
    write outbox_has capture release captured_payload deposit held_payload hold released_payload
    settle write_remainder all_zero count_entries count_entry insert_entries put_sum sum_of adjust
    goes_negative overflows row_error rows_affected rows_error active_hold_of find_hold find_balance
    hold_error hold_exists update_hold_status with_status account_exists add_entry amount_error
    find_account key_used to_direction transaction_error transaction_exists handle_event dispatch
    on_user_registered provision payload_text insert_account insert_balance seen new_envelope
runs_registration = refl
