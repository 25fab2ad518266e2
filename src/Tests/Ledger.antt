-- ===== src/Tests/Ledger.antt =====
-- The theorems on the ledger at the runs of Funds.
use mathlib.Core.Path.{subst}
use peikonpurekkusu_account.Prelude.{
  ◌<◌, ◌≤◌, none, ◌≡◌, if◌then◌else◌, some, refl, ◌==◌, arith, ◌↔◌, List, ◌≢◌, true,
}
use peikonpurekkusu_account.Ledger.Retry.{Database, in_tx}
use peikonpurekkusu_account.Sql.Journal.{
  outbox_has, find_account, insert_transaction, insert_entry, write, account_exists, add_entry,
  amount_error, key_used, to_direction, transaction_error, transaction_exists,
}
use peikonpurekkusu_account.Schema.{
  Account, Balance, HoldRecord, Store, liability, captured, HoldStatus, Uuid, asset,
}
use peikonpurekkusu_account.Ledger.Reconcile.{query_row, reconcile, debits, credits, active_held}
use peikonpurekkusu_account.Sql.Holds.{
  lock_hold, find_hold, insert_hold, active_hold_of, hold_error, hold_exists, update_hold_status,
  with_status,
}
use peikonpurekkusu_account.Ledger.Retry.Atomic.{Settled, in_tx-Settled}
use peikonpurekkusu_account.Ledger.Posting.{
  merchant_payable_account, settlement_account, post, validate_balanced, all_zero, count_entries,
  count_entry, insert_entries, put_sum, sum_of,
}
use peikonpurekkusu_account.Ledger.History.{
  Reach, Reach-reconcile, IsCreditNormal, next, here, captured, deposited, held,
}
use peikonpurekkusu_account.Ledger.Operations.Holding.{Succeeds, HoldAllowed, hold-Succeeds_iff}
use peikonpurekkusu_account.Ledger.Operations.{
  deposit, hold, capture, release, captured_payload, held_payload, released_payload, settle,
  write_remainder,
}
use peikonpurekkusu_account.Ledger.History.AppendOnly.{Appends, Reach-Appends}
use peikonpurekkusu_account.Tests.Funds.{
  placed, funded, settled, ten_minutes, row, the_hold, funded_user, result, placed_hold,
  runs_capture, runs_hold, placed_user, placed_payable, runs_deposit,
}
use peikonpurekkusu_account.Tests.Seed.{
  seeded, process, accounts, seeded-IsConsistent, account, nothing_on,
}
use peikonpurekkusu_account.Sql.Balances.{
  lock_balance, find_balance, bump_balance, adjust, goes_negative, overflows, row_error,
  rows_affected, rows_error,
}
use peikonpurekkusu_account.Ledger.Reconcile.Exact.{RowsInRange}
use peikonpurekkusu_account.Ledger.Reconcile.Drift.{InRange}
use peikonpurekkusu_account.Prelude.Int.{pos, ◌-ℤ◌, ◌+ℤ◌}
use peikonpurekkusu_account.Prelude.Word.{max_int64, sub64, wrap64, add64, neg64}
use peikonpurekkusu_account.Ledger.History.Lifecycle.{Later, Reach-Evolves}
use peikonpurekkusu_account.Ledger.Operations.Closing.{after_capture, after_gain, capture_moves}
use peikonpurekkusu_account.Tx.{serialization_failure}
use peikonpurekkusu_account.Sql.Fetch.{broken_after}

abbrev pub quiet : Database
quiet = record { others = λ k s. s; strike = λ k. none }

-- The first attempt meets a serialization failure.
abbrev pub busy : Database
busy = record {
  others = λ k s. s;
  strike = λ k. if k == 0 then some serialization_failure else none;
}

pub user-IsCreditNormal : (s : Store) → s.accounts ≡ accounts → IsCreditNormal 1 s
unfolding find_account
user-IsCreditNormal s same a e =
    let h : some (account 1 42 "USD" liability) ≡ some a =
      subst (λ (l : List Account). find_account 1 l ≡ some a) same e in
    ground arith

history : Reach process seeded placed
unfolding deposit settlement_account post validate_balanced sub64 wrap64 ◌-ℤ◌ add64 ◌+ℤ◌
    insert_transaction insert_entry bump_balance
history =
    next
      (next here
        (deposited 1 (pos 500) "USD" "welcome:user" (user-IsCreditNormal seeded refl) runs_deposit))
      (held 1 7 (pos 200) "USD" ten_minutes result (user-IsCreditNormal funded refl) runs_hold)

in_range :
    (a : Account) (b c : Balance)
    → some b ≡ some c
    → InRange (query_row placed a b)
    → InRange (query_row placed a c)
in_range a b c e h =
    let same : b ≡ c = ground arith in subst (λ r. InRange (query_row placed a r)) same h

small_rows : RowsInRange placed placed.accounts
unfolding query_row debits credits active_held lock_hold lock_balance settlement_account
    merchant_payable_account post validate_balanced sub64 wrap64 ◌-ℤ◌ add64 ◌+ℤ◌ neg64
    insert_transaction insert_entry bump_balance insert_hold write outbox_has capture release
    captured_payload deposit held_payload hold released_payload settle write_remainder all_zero
    count_entries count_entry insert_entries put_sum sum_of adjust goes_negative overflows row_error
    rows_affected rows_error active_hold_of find_hold find_balance hold_error hold_exists
    update_hold_status with_status account_exists add_entry amount_error find_account key_used
    to_direction transaction_error transaction_exists
small_rows = (
  λ b e.
      in_range (account 1 42 "USD" liability) (row 1 300 200 2) b e
        (omega arith, omega arith, omega arith),
  (
    λ b e.
        in_range (account 0xc001 0 "USD" asset) (row 0xc001 500 0 1) b e
          (omega arith, omega arith, omega arith),
    (
      λ b e.
          in_range (account 0xc002 0 "EUR" asset) (nothing_on 0xc002) b e
            (omega arith, omega arith, omega arith),
      (
        λ b e.
            in_range (account 0xc003 0 "GBP" asset) (nothing_on 0xc003) b e
              (omega arith, omega arith, omega arith),
        (
          λ b e.
              in_range (account 0xc004 0 "JPY" asset) (nothing_on 0xc004) b e
                (omega arith, omega arith, omega arith),
          (
            λ b e.
                in_range (account 0xd001 0 "USD" liability) (nothing_on 0xd001) b e
                  (omega arith, omega arith, omega arith),
            (
              λ b e.
                  in_range (account 0xd002 0 "EUR" liability) (nothing_on 0xd002) b e
                    (omega arith, omega arith, omega arith),
              (
                λ b e.
                    in_range (account 0xd003 0 "GBP" liability) (nothing_on 0xd003) b e
                      (omega arith, omega arith, omega arith),
                (
                  λ b e.
                      in_range (account 0xd004 0 "JPY" liability) (nothing_on 0xd004) b e
                        (omega arith, omega arith, omega arith),
                  tt,
                ),
              ),
            ),
          ),
        ),
      ),
    ),
  ),
)

Reach-reconcile_example : reconcile (broken_after 2) placed ≡ record { drifted = 0; failed = true }
Reach-reconcile_example =
    Reach-reconcile process (broken_after 2) seeded placed seeded-IsConsistent history small_rows

Reach-Appends_example : Appends seeded placed
Reach-Appends_example = Reach-Appends process seeded placed history

capture_history : Reach process placed settled
capture_history = next here (captured 1001 (pos 150) 1003 runs_capture)

Reach-Evolves_example :
    (h' : HoldRecord) × (find_hold 1001 settled.holds ≡ some h') × Later the_hold h'
Reach-Evolves_example =
    Reach-Evolves process placed settled 1001 the_hold capture_history placed_hold

in_tx-Settled_example :
    Settled busy
      (hold process 1 7 (pos 200) "USD" ten_minutes)
      5
      0
      funded
      (in_tx busy (hold process 1 7 (pos 200) "USD" ten_minutes) funded)
in_tx-Settled_example = in_tx-Settled busy (hold process 1 7 (pos 200) "USD" ten_minutes) funded

usd_payable : merchant_payable_account "USD" ≡ some 0xd001
unfolding merchant_payable_account
usd_payable = refl

one_row : rows_affected 1 funded.balances ≡ 1
unfolding lock_hold lock_balance settlement_account merchant_payable_account post validate_balanced
    sub64 wrap64 ◌-ℤ◌ add64 ◌+ℤ◌ neg64 insert_transaction insert_entry bump_balance insert_hold
    write outbox_has capture release captured_payload deposit held_payload hold released_payload
    settle write_remainder all_zero count_entries count_entry insert_entries put_sum sum_of adjust
    goes_negative overflows row_error rows_affected rows_error active_hold_of find_hold find_balance
    hold_error hold_exists update_hold_status with_status account_exists add_entry amount_error
    find_account key_used to_direction transaction_error transaction_exists
one_row = refl

small_available : (b : Balance) → find_balance 1 funded.balances ≡ some b → b.available ≤ max_int64
small_available b e = ground (arith, funded_user, e)

hold-Succeeds_iff_example :
    Succeeds process 1 7 (pos 200) "USD" ten_minutes funded
    ↔ ((b : Balance) × (a : Account) × HoldAllowed process 1 7 (pos 200) "USD" funded b a)
hold-Succeeds_iff_example =
    hold-Succeeds_iff process 1 7 "USD" ten_minutes funded one_row (pos 200) small_available

capture_moves_example :
    (0 < 150)
    × (150 ≤ 200)
    × (find_balance 1 settled.balances ≡ some (after_capture 200 150 (row 1 300 200 2)))
    × (find_balance 0xd001 settled.balances ≡ some (after_gain 150 (row 0xd001 0 0 0)))
    × (find_hold 1001 settled.holds ≡ some (record the_hold { status = HoldStatus.captured }))
    × ((c : Uuid)
        → c ≢ 1
        → c ≢ 0xd001
        → find_balance c settled.balances ≡ find_balance c placed.balances)
capture_moves_example =
    capture_moves process 1001 150 placed the_hold placed_hold (omega arith) 0xd001
      (row 1 300 200 2) (row 0xd001 0 0 0) usd_payable (λ e. absurd (omega (arith, e))) placed_user
      placed_payable runs_capture
