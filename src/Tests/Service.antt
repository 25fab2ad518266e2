-- ===== src/Tests/Service.antt =====
-- The service at work on a database that has just been migrated: a user registers, funds of the
-- user are held, and the sweep runs.
use peikonpurekkusu_account.Ledger.Operations.{
  deposit, held_payload, hold, settle, sweep, release_all,
}
use peikonpurekkusu_account.Prelude.{
  ⊤, refl, true, false, [], ◌∷◌, ◌≡◌, List, some, none, String, arith,
}
use peikonpurekkusu_account.Consumer.Delivery.{
  Delivery, handle_with_retry, try_handle, verdict, handle, wait_for_schema,
}
use peikonpurekkusu_account.Grpc.{
  HoldFundsRequest, map_err, idempotent, replay, store, find_response, in_seconds, choose_ttl,
  hold_funds, hold_action,
}
use peikonpurekkusu_account.Service.{
  Action, Parts, State, run_service, delivery, hold_call, time_passes, http_call, sweep_due, act,
}
use peikonpurekkusu_account.Events.Framing.{
  EnvelopeJson, Envelope, new_envelope, split_frame, unframe,
}
use peikonpurekkusu_account.Service.Laws.{IsOwn}
use peikonpurekkusu_account.Schema.{Store, Value}
use peikonpurekkusu_account.Prelude.Lists.{All}
use peikonpurekkusu_account.Tests.Seed.{process}
use peikonpurekkusu_account.Service.Refines.{IsProper}
use peikonpurekkusu_account.Consumer.Handlers.{
  topic_registered, handle_event, dispatch, on_user_registered, provision, payload_text,
  insert_account, insert_balance, seen,
}
use peikonpurekkusu_account.Prelude.Int.{pos, ◌-ℤ◌, ◌+ℤ◌}
use peikonpurekkusu_account.Migrations.{migrated}
use peikonpurekkusu_account.Events.Validate.{answer, validate}
use peikonpurekkusu_account.Tests.Ledger.{quiet}
use peikonpurekkusu_account.Tests.Funds.{ten_minutes, row}
use peikonpurekkusu_account.Ledger.History.{Reach}
use peikonpurekkusu_account.Tests.Records.{lenient}
use peikonpurekkusu_account.Sql.Balances.{
  find_balance, lock_balance, bump_balance, adjust, goes_negative, overflows, row_error,
  rows_affected, rows_error,
}
use peikonpurekkusu_account.Service.Migrated.{user-IsCreditNormal, run_service-migrated}
use peikonpurekkusu_account.Tests.Gate.{
  accounts_request, outside, keys, print_none, unmatched_reply,
}
use peikonpurekkusu_account.Tests.Api.{view_json}
use peikonpurekkusu_account.Ledger.Reconcile.{reconcile, query_row, debits, credits, active_held}
use peikonpurekkusu_account.Ledger.Reconcile.Exact.{rows_in_range, rows_in_range-RowsInRange}
use peikonpurekkusu_account.Ledger.History.AppendOnly.{volume}
use peikonpurekkusu_account.Sql.Holds.{
  lock_hold, insert_hold, active_hold_of, find_hold, hold_error, hold_exists, update_hold_status,
  with_status,
}
use peikonpurekkusu_account.Ledger.Posting.{
  settlement_account, merchant_payable_account, post, validate_balanced, all_zero, count_entries,
  count_entry, insert_entries, put_sum, sum_of,
}
use peikonpurekkusu_account.Prelude.Word.{sub64, wrap64, add64, neg64}
use peikonpurekkusu_account.Sql.Journal.{
  outbox_has, insert_transaction, insert_entry, write, account_exists, add_entry, amount_error,
  find_account, key_used, to_direction, transaction_error, transaction_exists,
}
use peikonpurekkusu_account.Ledger.Retry.{in_tx, attempts, begin_tx, retriable}
use peikonpurekkusu_account.Sql.Fetch.{whole}

abbrev registration : Envelope
registration = new_envelope "third" topic_registered "c-2" 0 (("user_id", Value.text "user") ∷ [])

abbrev registers : EnvelopeJson
registers = record { marshal = λ e. none; unmarshal = λ body. some registration }

abbrev pub parts : Parts ⊤ ⊤
parts = record {
  runtime = process;
  hold_codec = record { marshal = λ r. some (1 ∷ []); unmarshal = λ body. none };
  capture_codec = record { marshal = λ r. some (2 ∷ []); unmarshal = λ body. none };
  release_codec = record { marshal = λ r. some (3 ∷ []); unmarshal = λ body. none };
  hold_ttl = ten_minutes;
  library = lenient;
  envelopes = registers;
  seed = pos 700;
  views = view_json;
  cache_ttl = 5;
  verify = keys;
  format_int = print_none;
  no_match = unmatched_reply;
}

abbrev opened : State parts
opened = record {
  world = record { state = migrated 100; cache = []; dead_letters = [] };
  relay = record { ids = []; sent = [] };
  cached = [];
}

abbrev pub event : Delivery
event = record {
  message = record {
    topic = topic_registered;
    partition = 0;
    offset = 0;
    key = [];
    value = 0 ∷ 0 ∷ 0 ∷ 1 ∷ 44 ∷ 123 ∷ 125 ∷ [];
    headers = [];
  };
  attempts = λ k. record {
    rounds = record { reply = answer 200 []; context_done = false } ∷ [];
    database = quiet;
  };
  published = true;
}

abbrev hold_request : HoldFundsRequest
hold_request = record {
  request_id = "r-1";
  account_id = "first";
  payment_id = "payment";
  amount = some (record { minor_units = pos 200; currency_code = "USD" });
  expires_in_seconds = pos 0;
}

abbrev actions : List Action
actions =
    delivery event
    ∷ hold_call quiet hold_request
    ∷ time_passes 5
    ∷ http_call accounts_request outside
    ∷ sweep_due quiet (λ id. false)
    ∷ []

abbrev closed : Store
closed = (run_service parts actions opened).world.state

quiet-IsOwn : IsOwn (Reach process (migrated 100)) quiet
quiet-IsOwn k s r = r

proper : All (IsProper parts (migrated 100)) actions
proper = (
  λ k. quiet-IsOwn,
  (
    (quiet-IsOwn, λ c e. user-IsCreditNormal parts 100 c (ground (arith, e))),
    (tt, (tt, (quiet-IsOwn, tt))),
  ),
)

-- The welcome deposit less what is held.
closed_rows :
    (rows_in_range closed closed.accounts ≡ true)
    × (find_balance 1000 closed.balances ≡ some (row 1000 500 200 2))
unfolding run_service act migrated rows_in_range query_row debits credits active_held lock_hold
    lock_balance settlement_account merchant_payable_account post validate_balanced sub64 wrap64
    ◌-ℤ◌ add64 ◌+ℤ◌ neg64 insert_transaction insert_entry bump_balance insert_hold write outbox_has
    deposit held_payload hold settle all_zero count_entries count_entry insert_entries put_sum
    sum_of adjust goes_negative overflows row_error rows_affected rows_error active_hold_of
    find_hold find_balance hold_error hold_exists update_hold_status with_status account_exists
    add_entry amount_error find_account key_used to_direction transaction_error transaction_exists
    in_tx attempts begin_tx retriable map_err idempotent replay store find_response in_seconds
    choose_ttl hold_funds hold_action handle_event dispatch on_user_registered provision
    payload_text insert_account insert_balance seen new_envelope handle_with_retry try_handle
    verdict handle wait_for_schema validate split_frame unframe sweep release_all
closed_rows = (refl, refl)

run_service-migrated_example :
    (reconcile whole closed ≡ record { drifted = 0; failed = false })
    × ((currency : String)
        → volume true currency closed.entries ≡ volume false currency closed.entries)
run_service-migrated_example =
    run_service-migrated parts 100 whole actions opened refl proper
      (rows_in_range-RowsInRange closed closed.accounts closed_rows.0)
