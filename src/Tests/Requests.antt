-- ===== src/Tests/Requests.antt =====
-- The theorems on retried requests at calls of the handlers.
use peikonpurekkusu_account.Prelude.{
  ℕ, true, false, if◌then◌else◌, Bool, ◌≡◌, some, arith, ◌∷◌, refl, str_eq, [], eq_iff, ◌&&◌, none,
}
use peikonpurekkusu_account.Ledger.Operations.{
  hold, capture, release, deposit, captured_payload, held_payload, released_payload, settle,
  write_remainder,
}
use peikonpurekkusu_account.Prelude.Int.{ℤ, pos, negsuc, ◌-ℤ◌, ◌+ℤ◌}
use peikonpurekkusu_account.Schema.{Store, HoldStatus}
use peikonpurekkusu_account.Sql.Holds.{
  lock_hold, insert_hold, active_hold_of, find_hold, hold_error, hold_exists, update_hold_status,
  with_status, is_active,
}
use peikonpurekkusu_account.Sql.Balances.{
  lock_balance, bump_balance, adjust, goes_negative, overflows, row_error, rows_affected,
  rows_error, find_balance,
}
use peikonpurekkusu_account.Ledger.Posting.{
  settlement_account, merchant_payable_account, post, validate_balanced, all_zero, count_entries,
  count_entry, insert_entries, put_sum, sum_of,
}
use peikonpurekkusu_account.Prelude.Word.{sub64, wrap64, add64, neg64}
use peikonpurekkusu_account.Sql.Journal.{
  outbox_has, insert_transaction, insert_entry, write, account_exists, add_entry, amount_error,
  find_account, key_used, to_direction, transaction_error, transaction_exists,
}
use peikonpurekkusu_account.Ledger.Retry.{in_tx, attempts, begin_tx, retriable}
use peikonpurekkusu_account.Ledger.Reconcile.{same_int}
use peikonpurekkusu_account.Grpc.{
  Money, HoldFundsRequest, HoldFundsResponse, CaptureFundsRequest, CaptureFundsResponse,
  ReleaseFundsRequest, ReleaseFundsResponse, Codec, response, idempotent, replay, store,
  find_response, in_seconds, choose_ttl, hold_funds, hold_action, capture_funds, capture_action,
  release_funds, release_action,
}
use peikonpurekkusu_account.Grpc.Replay.{IsFaithful}
use peikonpurekkusu_account.Tests.Seed.{process}
use peikonpurekkusu_account.Tests.Ledger.{quiet}
use peikonpurekkusu_account.Grpc.Calls.{hold_call, held, map_reply, answer_call}
use peikonpurekkusu_account.Prelude.{ap}
use peikonpurekkusu_account.Tests.Funds.{placed, ten_minutes, funded}

abbrev usd : ℕ → Money
usd n = record { minor_units = pos n; currency_code = "USD" }

abbrev pub hold_request : HoldFundsRequest
hold_request = record {
  request_id = "r-1";
  account_id = "user";
  payment_id = "payment";
  amount = some (usd 200);
  expires_in_seconds = pos 0;
}

abbrev pub hold_response : HoldFundsResponse
hold_response = record { hold_id = "second"; status = HoldStatus.active; available_after = usd 300 }

-- A wire form for the one response of the run.
abbrev is_hold_response : HoldFundsResponse → Bool
is_hold_response r =
    str_eq r.hold_id "second"
    && (is_active r.status
        && (same_int r.available_after.minor_units (pos 300)
            && str_eq r.available_after.currency_code "USD"))

abbrev pub hold_codec : Codec HoldFundsResponse
hold_codec = record {
  marshal = λ r. if is_hold_response r then some (1 ∷ []) else none;
  unmarshal = λ body. some hold_response;
}

only_active : (h : HoldStatus) → is_active h ≡ true → h ≡ HoldStatus.active
only_active HoldStatus.active e = refl
only_active HoldStatus.captured e = cc
only_active HoldStatus.released e = cc
only_active HoldStatus.expired e = cc

abbrev is_captured : HoldStatus → Bool
is_captured HoldStatus.captured = true
is_captured _ = false

only_captured : (h : HoldStatus) → is_captured h ≡ true → h ≡ HoldStatus.captured
only_captured HoldStatus.captured e = refl
only_captured HoldStatus.active e = cc
only_captured HoldStatus.released e = cc
only_captured HoldStatus.expired e = cc

abbrev is_released : HoldStatus → Bool
is_released HoldStatus.released = true
is_released _ = false

only_released : (h : HoldStatus) → is_released h ≡ true → h ≡ HoldStatus.released
only_released HoldStatus.released e = refl
only_released HoldStatus.active e = cc
only_released HoldStatus.captured e = cc
only_released HoldStatus.expired e = cc

same_int_sound : (a : ℤ) (n : ℕ) → same_int a (pos n) ≡ true → a ≡ pos n
unfolding same_int
same_int_sound (pos m) n e = ground arith
same_int_sound (negsuc m) n e = cc

pub hold_codec-IsFaithful : IsFaithful hold_codec
hold_codec-IsFaithful r body e = ground (
  arith,
  eq_iff r.hold_id "second",
  only_active r.status,
  same_int_sound r.available_after.minor_units 300,
  eq_iff r.available_after.currency_code "USD",
)

abbrev pub held_once : Store
held_once = (hold_funds process quiet hold_codec ten_minutes hold_request funded).1

hold_funds_runs :
    hold_funds process quiet hold_codec ten_minutes hold_request funded
    ≡ (response hold_response, held_once)
unfolding lock_hold lock_balance settlement_account merchant_payable_account post validate_balanced
    sub64 wrap64 ◌-ℤ◌ add64 ◌+ℤ◌ neg64 insert_transaction insert_entry bump_balance insert_hold
    write outbox_has capture release captured_payload deposit held_payload hold released_payload
    settle write_remainder all_zero count_entries count_entry insert_entries put_sum sum_of adjust
    goes_negative overflows row_error rows_affected rows_error active_hold_of find_hold find_balance
    hold_error hold_exists update_hold_status with_status account_exists add_entry amount_error
    find_account key_used to_direction transaction_error transaction_exists in_tx attempts begin_tx
    retriable idempotent replay store find_response in_seconds choose_ttl hold_funds hold_action
    capture_funds capture_action release_funds release_action same_int
hold_funds_runs = refl

pub answers_hold :
    answer_call process ten_minutes (hold_call hold_codec hold_request) quiet funded
    ≡ (response (held hold_response), held_once)
unfolding answer_call
answers_hold = ap (map_reply held) hold_funds_runs

abbrev capture_request : CaptureFundsRequest
capture_request = record { request_id = "r-2"; hold_id = "second"; amount = some (usd 150) }

abbrev capture_response : CaptureFundsResponse
capture_response = record { ledger_transaction_id = "other"; status = HoldStatus.captured }

abbrev is_capture_response : CaptureFundsResponse → Bool
is_capture_response r = str_eq r.ledger_transaction_id "other" && is_captured r.status

abbrev capture_codec : Codec CaptureFundsResponse
capture_codec = record {
  marshal = λ r. if is_capture_response r then some (2 ∷ []) else none;
  unmarshal = λ body. some capture_response;
}

capture_codec-IsFaithful : IsFaithful capture_codec
capture_codec-IsFaithful r body e =
    ground (arith, eq_iff r.ledger_transaction_id "other", only_captured r.status)

abbrev captured_once : Store
captured_once = (capture_funds process quiet capture_codec capture_request placed).1

capture_funds_runs :
    capture_funds process quiet capture_codec capture_request placed
    ≡ (response capture_response, captured_once)
unfolding lock_hold lock_balance settlement_account merchant_payable_account post validate_balanced
    sub64 wrap64 ◌-ℤ◌ add64 ◌+ℤ◌ neg64 insert_transaction insert_entry bump_balance insert_hold
    write outbox_has capture release captured_payload deposit held_payload hold released_payload
    settle write_remainder all_zero count_entries count_entry insert_entries put_sum sum_of adjust
    goes_negative overflows row_error rows_affected rows_error active_hold_of find_hold find_balance
    hold_error hold_exists update_hold_status with_status account_exists add_entry amount_error
    find_account key_used to_direction transaction_error transaction_exists in_tx attempts begin_tx
    retriable idempotent replay store find_response in_seconds choose_ttl hold_funds hold_action
    capture_funds capture_action release_funds release_action same_int
capture_funds_runs = refl

abbrev release_request : ReleaseFundsRequest
release_request = record { request_id = "r-3"; hold_id = "second"; reason = "" }

abbrev release_codec : Codec ReleaseFundsResponse
release_codec = record {
  marshal = λ r. if is_released r.status then some (3 ∷ []) else none;
  unmarshal = λ body. some (record { status = HoldStatus.released });
}

release_codec-IsFaithful : IsFaithful release_codec
release_codec-IsFaithful r body e = ground (arith, only_released r.status)

abbrev released_once : Store
released_once = (release_funds process quiet release_codec release_request placed).1

release_funds_runs :
    release_funds process quiet release_codec release_request placed
    ≡ (response (record { status = HoldStatus.released }), released_once)
unfolding lock_hold lock_balance settlement_account merchant_payable_account post validate_balanced
    sub64 wrap64 ◌-ℤ◌ add64 ◌+ℤ◌ neg64 insert_transaction insert_entry bump_balance insert_hold
    write outbox_has capture release captured_payload deposit held_payload hold released_payload
    settle write_remainder all_zero count_entries count_entry insert_entries put_sum sum_of adjust
    goes_negative overflows row_error rows_affected rows_error active_hold_of find_hold find_balance
    hold_error hold_exists update_hold_status with_status account_exists add_entry amount_error
    find_account key_used to_direction transaction_error transaction_exists in_tx attempts begin_tx
    retriable idempotent replay store find_response in_seconds choose_ttl hold_funds hold_action
    capture_funds capture_action release_funds release_action same_int
release_funds_runs = refl
